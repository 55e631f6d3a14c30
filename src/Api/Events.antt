-- ===== src/Api/Events.antt =====
-- api/main.py, `task_events`: where a client's stream begins, and the errors before it. Of `int`, the
-- model has digits with or without a sign; texts with spaces or underscores count as errors.
use Prim.Native.Char.{code}
use cloudagentperform.Base.{ℕ, String, Option, none, some, List, ◌≡◌, refl, nat_eq, if◌then◌else◌}
use cloudagentperform.Models.{Task, Event}
use cloudagentperform.Store.Table.{Store}
use cloudagentperform.Store.{get, events_after}
use cloudagentperform.Agent.Text.{decimal}
use cloudagentperform.Cli.Parse.{int}
use cloudagentperform.Cli.Numbers.{int-decimal}
use cloudagentperform.Api.Stream.{Frame, stream}

-- The answer: a stream, or an `HTTPException`.
pub data Events : Type 0 where
  streaming : List Frame → Events
  events_error : ℕ → String → Events

-- `a or b` of texts
abbrev pub first_text : Option String → Option String → Option String
first_text none other = other
first_text (some String.[]) other = other
first_text (some (String.◌∷◌ c s)) other = some (String.◌∷◌ c s)

-- The ids are positive: a stream from a negative number on is the stream from 0 on.
abbrev pub negative : Option ℕ → Option ℕ
negative none = none
negative (some n) = some 0

abbrev pub signed : String → Option ℕ
unfolding int
signed String.[] = none
signed (String.◌∷◌ c s) =
    if nat_eq (code c) 45 then negative (int s) else if nat_eq (code c) 43 then int s else none

abbrev pub or_signed : Option ℕ → String → Option ℕ
unfolding signed
or_signed none s = signed s
or_signed (some n) s = some n

-- `int`
unfoldable pub int_of : String → Option ℕ
unfolding int or_signed
int_of s = or_signed (int s) s

-- `int(request.headers.get("last-event-id") or request.query_params.get("after") or 0)`
abbrev after_text : Option String → Option ℕ
unfolding int_of
after_text none = some 0
after_text (some s) = int_of s

unfoldable pub after_id : Option String → Option String → Option ℕ
unfolding after_text
after_id header query = after_text (first_text header (first_text query none))

-- `_get_or_404` is asked of the store `asked`, and the history of the store `selected`.
abbrev opened : Option Task → Option ℕ → String → Store → List (Option Event) → Events
unfolding stream events_after
opened none after tid selected ms = events_error 404 "task not found"
opened (some t) none tid selected ms = events_error 400 "Last-Event-ID must be an integer"
opened (some t) (some after) tid selected ms =
    streaming (stream after (events_after tid after selected) ms)

-- `GET /tasks/{task_id}/events`
unfoldable pub task_events :
    Option String → Option String → String → Store → Store → List (Option Event) → Events
unfolding get after_id opened
task_events header query tid asked selected ms =
    opened (get tid asked) (after_id header query) tid selected ms

int_of-int : (s : String) {n : ℕ} → int s ≡ some n → int_of s ≡ some n
unfolding int_of or_signed
int_of-int s h = rw h refl

after_id_header :
    (s : String) (query : Option String) {n : ℕ} → int s ≡ some n → after_id (some s) query ≡ some n
unfolding after_id after_text int
after_id_header String.[] query h = cc h
after_id_header (String.◌∷◌ c s) query h = int_of-int (String.◌∷◌ c s) h

-- What the client sends as the header `Last-Event-ID` is read as the id that it means.
pub after_id-decimal : (n : ℕ) (query : Option String) → after_id (some (decimal n)) query ≡ some n
after_id-decimal n query = after_id_header (decimal n) query (int-decimal n)

-- A task that exists is streamed from the id in the header on.
pub task_events-decimal :
    (n : ℕ) (query : Option String) (tid : String) (asked selected : Store)
    (ms : List (Option Event)) {t : Task}
    → get tid asked ≡ some t
    → task_events (some (decimal n)) query tid asked selected ms
      ≡ streaming (stream n (events_after tid n selected) ms)
unfolding task_events
task_events-decimal n query tid asked selected ms h = rw (h, after_id-decimal n query) refl
