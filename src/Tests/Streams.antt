-- ===== src/Tests/Streams.antt =====
-- The text of a stream and the client's exit code at concrete inputs.
use Prim.Native.Char.{code}
use Prim.Native.String.{◌++◌}
use text.Mathlib.TextLemmas.{nil-append, cons-append, append-nil, append_assoc}
use cloudagentperform.Base.{
  ℕ, String, Bool, false, ◌≡◌, refl, ap, ◌∙◌, List, [], ◌∷◌, ◌==◌, ◌||◌, if◌then◌else◌, nat_eq,
  arith,
}
use cloudagentperform.Models.{str, arr, no_items, Event, ev_failed}
use cloudagentperform.Agent.Llm.Body.{Codec, decoded}
use cloudagentperform.Api.Stream.{frame, keepalive}
use cloudagentperform.Api.Frames.{body_text, event_json}
use cloudagentperform.Cli.Parse.{parse_sse_lines, fresh}
use cloudagentperform.Cli.Numbers.{has_break, is_break}
use cloudagentperform.Cli.RoundTrip.{Lines, seen, parse-body_text}
use cloudagentperform.Tests.Clients.{first}

-- A reader of lines, with the line so far.
unfoldable lines_from : String → String → List String
lines_from cur String.[] = if cur == "" then [] else cur ∷ []
lines_from cur (String.◌∷◌ c s) =
    let next = lines_from "" s in
    let longer = lines_from (cur ++ String.◌∷◌ c String.[]) s in
    if nat_eq (code c) 10 then cur ∷ next else longer

not_newline : (c : ℕ) (b : Bool) → (is_break c || b) ≡ false → nat_eq c 10 ≡ false
not_newline c b h = ground arith

lines_from-break :
    (cur line rest : String)
    → has_break line ≡ false
    → lines_from cur (line ++ ("\n" ++ rest)) ≡ (cur ++ line) ∷ lines_from "" rest
unfolding lines_from has_break
lines_from-break cur String.[] rest h =
    rw
      (
        nil-append ("\n" ++ rest),
        cons-append "\n" "" rest,
        nil-append rest,
        append-nil cur,
        lines_from,
      )
      refl
lines_from-break cur (String.◌∷◌ c line) rest h =
    rw (cons-append c line ("\n" ++ rest), lines_from, not_newline (code c) (has_break line) h)
      (lines_from-break (cur ++ String.◌∷◌ c String.[]) line rest (ground arith)
        ∙ ap (λ (t : String). t ∷ lines_from "" rest)
            (append_assoc cur (String.◌∷◌ c String.[]) line
              ∙ ap (λ (t : String). cur ++ t) (cons-append c "" line ∙ rw (nil-append line) refl)))

abbrev reader : Lines
unfolding lines_from
reader = record {
  lines = lines_from "";
  empty = refl;
  break = λ line rest h.
      lines_from-break "" line rest h
      ∙ ap (λ (t : String). t ∷ lines_from "" rest) (nil-append line);
}

-- The only JSON value there is.
abbrev codec : Codec
codec = record { loads = λ s. decoded (event_json first) }

parse-body_text_example :
    parse_sse_lines codec
      (reader.lines (body_text (λ j. "{}") (keepalive ∷ frame first ∷ [])))
      fresh
    ≡ (seen first ∷ [], false)
unfolding has_break
parse-body_text_example =
    parse-body_text codec (λ j. "{}") reader (keepalive ∷ frame first ∷ [])
      (record { type = refl; text = refl; back = refl }, tt)

-- The event that ends a cancelled attempt.
abbrev end : Event
end = record {
  id = 3;
  task_id = "t1";
  attempt = 1;
  type = ev_failed;
  ts = "12:09";
  payload =
      ("status", str "cancelled")
      ∷ ("reason", str "cancelled")
      ∷ ("summary", str "stopped: cancelled")
      ∷ ("artifacts", arr no_items)
      ∷ [];
}
