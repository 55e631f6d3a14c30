-- ===== src/Cli/RoundTrip.antt =====
-- `parse_sse_lines` of cli/main.py reads what `_sse_frame` of api/main.py writes. The two libraries in
-- between are parameters: `json`, and the splitting into lines of `httpx`.
use Prim.Native.Char.{code}
use Prim.Native.String.{◌++◌}
use text.Mathlib.TextLemmas.{nil-append, cons-append, append_assoc}
use cloudagentperform.Base.{
  ℕ, String, true, false, ◌≡◌, refl, sym, ap, ◌∙◌, none, some, List, [], ◌∷◌, nat_eq, arith,
}
use cloudagentperform.Models.{Event, Json}
use cloudagentperform.Agent.Text.{decimal}
use cloudagentperform.Agent.Llm.Body.{Codec, decoded}
use cloudagentperform.Api.Stream.{Frame, frame, keepalive}
use cloudagentperform.Api.Frames.{event_json, sse_frame, body_text}
use cloudagentperform.Cli.Parse.{after_prefix, Current, fresh, parse_sse_lines}
use cloudagentperform.Cli.Numbers.{has_break, has_break-append, int-decimal, decimal_whole}

-- What `httpx` documents of its lines, for lines that end in a newline.
pub record Lines : Type 0 where
  pub lines : String → List String
  pub empty : lines "" ≡ []
  pub break :
      (line rest : String)
      → has_break line ≡ false
      → lines (line ++ ("\n" ++ rest)) ≡ line ∷ lines rest

nat_eq_refl : (n : ℕ) → nat_eq n n ≡ true
nat_eq_refl n = ground arith

after_prefix-append : (p s : String) → after_prefix p (p ++ s) ≡ some s
unfolding after_prefix
after_prefix-append String.[] s = rw (nil-append s) refl
after_prefix-append (String.◌∷◌ c p) s =
    rw (cons-append c p s, after_prefix, nat_eq_refl (code c)) (after_prefix-append p s)

peel : (p d x r : String) → (p ++ (d ++ x)) ++ r ≡ (p ++ d) ++ (x ++ r)
peel p d x r =
    append_assoc p (d ++ x) r
    ∙ (ap (λ s. p ++ s) (append_assoc d x r) ∙ sym (append_assoc p d (x ++ r)))

peel_line : (p d x r : String) → (("\n" ++ p) ++ (d ++ x)) ++ r ≡ "\n" ++ ((p ++ d) ++ (x ++ r))
peel_line p d x r =
    ap (λ s. s ++ r) (append_assoc "\n" p (d ++ x))
    ∙ (append_assoc "\n" (p ++ (d ++ x)) r ∙ ap (λ s. "\n" ++ s) (peel p d x r))

blank_line : (r : String) → "\n\n" ++ r ≡ "\n" ++ ("" ++ ("\n" ++ r))
blank_line r = append_assoc "\n" "\n" r ∙ ap (λ s. "\n" ++ s) (sym (nil-append ("\n" ++ r)))

-- A frame as its four lines.
frame_lines :
    (d t j r : String)
    → ("id: " ++ (d ++ ("\nevent: " ++ (t ++ ("\ndata: " ++ (j ++ "\n\n")))))) ++ r
      ≡ ("id: " ++ d)
        ++ ("\n"
            ++ (("event: " ++ t) ++ ("\n" ++ (("data: " ++ j) ++ ("\n" ++ ("" ++ ("\n" ++ r)))))))
frame_lines d t j r =
    peel "id: " d ("\nevent: " ++ (t ++ ("\ndata: " ++ (j ++ "\n\n")))) r
    ∙ ap (λ s. ("id: " ++ d) ++ s)
        (peel_line "event: " t ("\ndata: " ++ (j ++ "\n\n")) r
          ∙ ap (λ s. "\n" ++ (("event: " ++ t) ++ s))
              (peel_line "data: " j "\n\n" r
                ∙ ap (λ s. "\n" ++ (("data: " ++ j) ++ s)) (blank_line r)))

prefix_whole :
    (p s : String) → has_break p ≡ false → has_break s ≡ false → has_break (p ++ s) ≡ false
prefix_whole p s h k = has_break-append p s ∙ rw (h, k) refl

id-event : (s : String) → after_prefix "id: " ("event: " ++ s) ≡ none
unfolding after_prefix
id-event s = rw (cons-append "e" "vent: " s) refl

id-data : (s : String) → after_prefix "id: " ("data: " ++ s) ≡ none
unfolding after_prefix
id-data s = rw (cons-append "d" "ata: " s) refl

event-data : (s : String) → after_prefix "event: " ("data: " ++ s) ≡ none
unfolding after_prefix
event-data s = rw (cons-append "d" "ata: " s) refl

-- An event as the client sees it, and the events among the frames.
abbrev pub seen : Event → Current
seen ev = record { id = some ev.id; type = some ev.type; content = some (event_json ev) }

abbrev pub shown : List Frame → List Current
shown [] = []
shown (frame ev ∷ fs) = seen ev ∷ shown fs
shown (keepalive ∷ fs) = shown fs

module _ (c : Codec) (dumps : Json → String) (l : Lines) where
  -- The event's type and its JSON text have no line break, and the text is read back.
  pub record Sendable (ev : Event) : Type 0 where
    pub type : has_break ev.type ≡ false
    pub text : has_break (dumps (event_json ev)) ≡ false
    pub back : c.loads (dumps (event_json ev)) ≡ decoded (event_json ev)

  abbrev pub AllSendable : List Frame → Type 0
  AllSendable [] = Unit
  AllSendable (frame ev ∷ fs) = Sendable ev × AllSendable fs
  AllSendable (keepalive ∷ fs) = AllSendable fs

  lines-sse_frame :
      (ev : Event) (rest : String)
      → Sendable ev
      → l.lines (sse_frame dumps ev.id ev.type (event_json ev) ++ rest)
        ≡ ("id: " ++ decimal ev.id)
          ∷ ("event: " ++ ev.type)
          ∷ ("data: " ++ dumps (event_json ev))
          ∷ ""
          ∷ l.lines rest
  unfolding sse_frame has_break
  lines-sse_frame ev rest s =
      ap l.lines (frame_lines (decimal ev.id) ev.type (dumps (event_json ev)) rest)
      ∙ (l.break ("id: " ++ decimal ev.id) _
            (prefix_whole "id: " (decimal ev.id) refl (decimal_whole ev.id))
          ∙ ap (λ ls. ("id: " ++ decimal ev.id) ∷ ls)
              (l.break ("event: " ++ ev.type) _ (prefix_whole "event: " ev.type refl s.type)
                ∙ ap (λ ls. ("event: " ++ ev.type) ∷ ls)
                    (l.break ("data: " ++ dumps (event_json ev)) _
                        (prefix_whole "data: " (dumps (event_json ev)) refl s.text)
                      ∙ ap (λ ls. ("data: " ++ dumps (event_json ev)) ∷ ls)
                          (l.break "" rest refl))))

  lines-keepalive :
      (rest : String) → l.lines (": keepalive\n\n" ++ rest) ≡ ": keepalive" ∷ "" ∷ l.lines rest
  unfolding has_break
  lines-keepalive rest =
      rw
        (
          append_assoc ": keepalive" "\n\n" rest,
          blank_line rest,
          l.break ": keepalive" ("" ++ ("\n" ++ rest)) refl,
          l.break "" rest refl,
        )
        refl

  -- The lines of one event.
  parse-seen :
      (ev : Event) (ls : List String)
      → c.loads (dumps (event_json ev)) ≡ decoded (event_json ev)
      → parse_sse_lines c
          (("id: " ++ decimal ev.id)
            ∷ ("event: " ++ ev.type)
            ∷ ("data: " ++ dumps (event_json ev))
            ∷ ""
            ∷ ls)
          fresh
        ≡ (seen ev ∷ (parse_sse_lines c ls fresh).0, (parse_sse_lines c ls fresh).1)
  unfolding parse_sse_lines
  parse-seen ev ls back =
      rw
        (
          after_prefix-append "id: " (decimal ev.id),
          int-decimal ev.id,
          id-event ev.type,
          after_prefix-append "event: " ev.type,
          id-data (dumps (event_json ev)),
          event-data (dumps (event_json ev)),
          after_prefix-append "data: " (dumps (event_json ev)),
          back,
        )
        refl

  parse-keepalive :
      (ls : List String)
      → parse_sse_lines c (": keepalive" ∷ "" ∷ ls) fresh ≡ parse_sse_lines c ls fresh
  unfolding parse_sse_lines after_prefix
  parse-keepalive ls = refl

  -- The client reads from the server's text exactly the events of its frames, in order, with their ids,
  -- types and contents, and passes over the keepalives, if types and JSON texts have no line break and
  -- the texts are read back.
  pub parse-body_text :
      (fs : List Frame)
      → AllSendable fs
      → parse_sse_lines c (l.lines (body_text dumps fs)) fresh ≡ (shown fs, false)
  unfolding parse_sse_lines
  parse-body_text [] h = rw (l.empty) refl
  parse-body_text (frame ev ∷ fs) (s, h) =
      rw
        (
          lines-sse_frame ev (body_text dumps fs) s,
          parse-seen ev (l.lines (body_text dumps fs)) s.back,
          parse-body_text fs h,
        )
        refl
  parse-body_text (keepalive ∷ fs) h =
      rw (lines-keepalive (body_text dumps fs), parse-keepalive (l.lines (body_text dumps fs)))
        (parse-body_text fs h)
