-- ===== src/Cli/Command.antt =====
-- cli/main.py, `_follow`: the command that follows a task, without what it prints.
use cloudagentperform.Base.{
  ℕ, zero, suc, true, ◌||◌, ◌≡◌, refl, sym, ap, ◌∙◌, inl, inr, Option, none, some, List, [], ◌∷◌,
  ◌++◌, if◌then◌else◌, arith, Bool-cases, or_true,
}
use cloudagentperform.Models.{Event, ends_stream}
use cloudagentperform.Api.Stream.Delivery.{through_end, newer}
use cloudagentperform.Cli.{
  Connection, served, refused, Followed, finished, gave_up, http_failed, connected, follow_events,
}
use cloudagentperform.Cli.Parse.{exit_code}
use cloudagentperform.Cli.Follow.{ends_any, read-open, read-over, Delivered}

-- How the command ends: with a code, or with an exception of `follow_events`.
pub data Exit : Type 0 where
  exited : ℕ → Exit
  connection_error status_error : Exit

-- `last` after the loop.
abbrev pub last_of : Option Event → List Event → Option Event
last_of last [] = last
last_of last (ev ∷ evs) = last_of (some ev) evs

unfoldable pub exit_of : List Event × Followed → Exit
unfolding exit_code
exit_of (evs, finished) = exited (exit_code (last_of none evs))
exit_of (evs, gave_up) = connection_error
exit_of (evs, http_failed) = status_error

-- `_follow`, with the default of `max_reconnects`
unfoldable pub follow_task : {E : Type 0} → (ℕ → E → Connection × E) → ℕ → E → Exit
unfolding exit_of follow_events
follow_task serve from_id e = exit_of (follow_events serve 30 from_id e)

-- The first event that ends the task.
abbrev pub first_end : List Event → Option Event
first_end [] = none
first_end (ev ∷ evs) = if ends_stream ev.type then some ev else first_end evs

ends_through : (es : List Event) → ends_any (through_end es) ≡ ends_any es
ends_through [] = refl
ends_through (ev ∷ evs) = ground (arith, ends_through evs)

ends_append : (xs ys : List Event) → ends_any (xs ++ ys) ≡ (ends_any xs || ends_any ys)
ends_append [] ys = refl
ends_append (x ∷ xs) ys = ground (arith, ends_append xs ys)

first_end_some : (es : List Event) → ends_any es ≡ true → (ev : Event) × (first_end es ≡ some ev)
first_end_some [] h = cc h
first_end_some (ev ∷ evs) h = elim (Bool-cases (ends_stream ev.type)) [
  | inl over ↦ (ev, rw over refl)
  | inr open_yet ↦
      let (end, found) = first_end_some evs (rw open_yet at h) in (end, rw open_yet found)
]

last-through_end :
    (last : Option Event) (es : List Event)
    → ends_any es ≡ true
    → last_of last (through_end es) ≡ first_end es
last-through_end last [] h = cc h
last-through_end last (ev ∷ evs) h = elim (Bool-cases (ends_stream ev.type)) [
  | inl over ↦ rw over refl
  | inr open_yet ↦ rw open_yet (last-through_end (some ev) evs (rw open_yet at h))
]

-- A client that returns has seen the end of the task.
abbrev IsOver : List Event × Followed → Type 0
IsOver p = p.1 ≡ finished → ends_any p.0 ≡ true

connected-IsOver :
    (c : Connection) (last : ℕ) (rest : ℕ → List Event × Followed)
    → ((next : ℕ) → IsOver (rest next))
    → IsOver (connected c last rest)
unfolding connected
connected-IsOver refused last rest h = λ e. cc e
connected-IsOver (served evs) last rest h = elim (Bool-cases (ends_any evs)) [
  | inl over ↦
      let (out, stops) = read-over evs last over in
      rw (stops, connected) (λ e. rw (out) (ends_through evs ∙ over))
  | inr open_yet ↦
      rw (read-open evs last open_yet, connected)
        (λ e. ends_append evs _ ∙ ap (λ b. ends_any evs || b) (h _ e) ∙ or_true (ends_any evs))
]

pub follow_events-IsOver :
    {E : Type 0} (serve : ℕ → E → Connection × E) (left last : ℕ) (e : E)
    → IsOver (follow_events serve left last e)
unfolding follow_events
follow_events-IsOver serve zero last e =
    connected-IsOver (serve last e).0 last (λ last. ([], gave_up)) (λ next h. cc h)
follow_events-IsOver serve (suc left) last e =
    connected-IsOver (serve last e).0 last _
      (λ next. follow_events-IsOver serve left next (serve last e).1)

-- The code of a client that was sent the events of a log.
pub exit_of-Delivered :
    (log : List Event) (last : ℕ) (p : List Event × Followed) {code : ℕ}
    → Delivered log last p
    → IsOver p
    → exit_of p ≡ exited code
    → (ev : Event) × (first_end (newer last log) ≡ some ev) × (exit_code (some ev) ≡ code)
unfolding exit_of
exit_of-Delivered log last (out, finished) d over e =
    let ends : ends_any (newer last log) ≡ true =
      sym (ap ends_any d ∙ ends_through (newer last log)) ∙ over refl in
    let (ev, found) = first_end_some (newer last log) ends in
    (
      ev,
      found,
      ap exit_code (sym (ap (last_of none) d ∙ last-through_end none (newer last log) ends ∙ found))
          ∙ cc e,
    )
exit_of-Delivered log last (out, gave_up) d over e = cc e
exit_of-Delivered log last (out, http_failed) d over e = cc e
