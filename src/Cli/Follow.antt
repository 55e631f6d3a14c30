-- ===== src/Cli/Follow.antt =====
-- What `follow_events` of cli/main.py yields over its reconnects.
use mathlib.Core.List.{append_assoc}
use cloudagentperform.Base.{
  ℕ, zero, suc, ◌≤◌, ◌≡◌, refl, sym, ap, subst, ◌∙◌, inl, inr, Bool, true, false, List, [], ◌∷◌,
  ◌++◌, any, keep-append, ltb, arith, Bool-cases,
}
use cloudagentperform.Models.{Event, ends_stream}
use cloudagentperform.Store.History.Replay.{IsAscending, IsAscending-keep}
use cloudagentperform.Api.Stream.{seen_after}
use cloudagentperform.Api.Stream.Delivery.{
  newer, through_end, newer-all, newer-seen_after, le-seen_after,
}
use cloudagentperform.Cli.{
  Connection, served, refused, Followed, finished, gave_up, http_failed, read, connected,
  follow_events,
}

abbrev pub ends_any : List Event → Bool
ends_any evs = any (λ ev. ends_stream ev.type) evs

pub read-open :
    (evs : List Event) (last : ℕ)
    → ends_any evs ≡ false
    → read evs last ≡ (evs, seen_after last evs, false)
unfolding read
read-open [] last h = refl
read-open (ev ∷ evs) last h = ground (arith, read-open evs ev.id)

pub read-over :
    (evs : List Event) (last : ℕ)
    → ends_any evs ≡ true
    → ((read evs last).0 ≡ through_end evs) × ((read evs last).2 ≡ true)
unfolding read
read-over [] last h = cc h
read-over (ev ∷ evs) last h = elim (Bool-cases (ends_stream ev.type)) [
  | inl over ↦ rw over (refl, refl)
  | inr open_yet ↦
      let (out, over) = read-over evs ev.id (rw open_yet at h) in
      rw open_yet (ap (λ l. ev ∷ l) out, over)
]

through_end-over :
    (xs ys : List Event) → ends_any xs ≡ true → through_end (xs ++ ys) ≡ through_end xs
through_end-over [] ys h = cc h
through_end-over (x ∷ xs) ys h = ground (arith, through_end-over xs ys)

through_end-open :
    (xs ys : List Event) → ends_any xs ≡ false → through_end (xs ++ ys) ≡ xs ++ through_end ys
through_end-open [] ys h = refl
through_end-open (x ∷ xs) ys h = ground (arith, through_end-open xs ys)

newer-newer : (m n : ℕ) (es : List Event) → m ≤ n → newer n (newer m es) ≡ newer n es
newer-newer m n [] h = refl
newer-newer m n (e ∷ es) h = ground (arith, newer-newer m n es h)

newer-IsAscending : (n lo : ℕ) (es : List Event) → IsAscending lo es → IsAscending n (newer n es)
newer-IsAscending n lo [] h = tt
newer-IsAscending n lo (e ∷ es) h = elim (Bool-cases (ltb n e.id)) [
  | inl pass ↦ rw pass (ground arith, IsAscending-keep (λ ev. ltb n ev.id) e.id es h.1)
  | inr fail ↦ rw fail (newer-IsAscending n e.id es h.1)
]

IsAscending-left : (lo : ℕ) (xs ys : List Event) → IsAscending lo (xs ++ ys) → IsAscending lo xs
IsAscending-left lo [] ys h = tt
IsAscending-left lo (x ∷ xs) ys h = (h.0, IsAscending-left x.id xs ys h.1)

pub IsAscending-right :
    (lo : ℕ) (xs ys : List Event) → IsAscending lo (xs ++ ys) → IsAscending (seen_after lo xs) ys
IsAscending-right lo [] ys h = h
IsAscending-right lo (x ∷ xs) ys h = IsAscending-right x.id xs ys h.1

-- After a client has seen the beginning of what is newer, the rest is what is newer then.
newer-rest :
    (last lo : ℕ) (log xs ys : List Event)
    → IsAscending lo log
    → newer last log ≡ xs ++ ys
    → newer (seen_after last xs) log ≡ ys
newer-rest last lo log xs ys h e =
    let whole = subst (IsAscending last) e (newer-IsAscending last lo log h) in
    let left = IsAscending-left last xs ys whole in
    let seen = seen_after last xs in
    sym (newer-newer last seen log (le-seen_after last xs left))
    ∙ ap (newer seen) e
    ∙ keep-append (λ (ev : Event). ltb seen ev.id) xs ys
    ∙ ap (λ l. l ++ newer seen ys) (newer-seen_after last last xs left)
    ∙ newer-all seen seen ys (IsAscending-right last xs ys whole) (omega arith)

abbrev pub IsPrefix : List Event → List Event → Type 0
IsPrefix xs ys = (rest : List Event) × (ys ≡ xs ++ rest)

-- A connection hands over the beginning of what is newer than the id it was given.
abbrev pub IsFaithful : List Event → ℕ → Connection → Type 0
IsFaithful log last (served evs) = IsPrefix evs (newer last log)
IsFaithful log last refused = Unit

-- What the client has yielded of the events newer than `last`.
abbrev pub Delivered : List Event → ℕ → List Event × Followed → Type 0
Delivered log last (out, finished) = out ≡ through_end (newer last log)
Delivered log last (out, gave_up) = IsPrefix out (newer last log)
Delivered log last (out, http_failed) = IsPrefix out (newer last log)

prefix_later :
    (xs ys out more : List Event) → ys ≡ xs ++ more → IsPrefix out more → IsPrefix (xs ++ out) ys
prefix_later xs ys out more e (rest, h) =
    (rest, e ∙ ap (λ l. xs ++ l) h ∙ sym (append_assoc xs out rest))

Delivered-later :
    (log : List Event) (last next : ℕ) (xs : List Event) (p : List Event × Followed)
    → newer last log ≡ xs ++ newer next log
    → ends_any xs ≡ false
    → Delivered log next p
    → Delivered log last (xs ++ p.0, p.1)
Delivered-later log last next xs (out, finished) e h d =
    ap (λ l. xs ++ l) d ∙ sym (ap through_end e ∙ through_end-open xs (newer next log) h)
Delivered-later log last next xs (out, gave_up) e h d = prefix_later xs _ out _ e d
Delivered-later log last next xs (out, http_failed) e h d = prefix_later xs _ out _ e d

-- The id that the client asks from after a connection.
abbrev pub next_of : ℕ → Connection → ℕ
next_of last (served evs) = seen_after last evs
next_of last refused = last

connected-Delivered :
    (log : List Event) (lo last : ℕ) (c : Connection) (rest : ℕ → List Event × Followed)
    → IsAscending lo log
    → IsFaithful log last c
    → Delivered log (next_of last c) (rest (next_of last c))
    → Delivered log last (connected c last rest)
unfolding connected
connected-Delivered log lo last refused rest h f d = (newer last log, refl)
connected-Delivered log lo last (served evs) rest h (later, e) d =
    elim (Bool-cases (ends_any evs)) [
      | inl over ↦
          let (out, stops) = read-over evs last over in
          rw (stops, connected) (out ∙ sym (ap through_end e ∙ through_end-over evs later over))
      | inr open_yet ↦
          rw (read-open evs last open_yet, connected)
            (Delivered-later log last (seen_after last evs) evs (rest (seen_after last evs))
              (e ∙ ap (λ l. evs ++ l) (sym (newer-rest last lo log evs later h e))) open_yet d)
    ]

-- The same for a server that is in step with the client, by an invariant of the two.
pub follow_events-Delivered_from :
    {E : Type 0} (serve : ℕ → E → Connection × E) (log : List Event) (lo : ℕ) (Inv : ℕ → E → Type 0)
    (left last : ℕ) (e : E)
    → IsAscending lo log
    → ((last : ℕ) (e : E) → Inv last e → IsFaithful log last (serve last e).0)
    → ((last : ℕ) (e : E) → Inv last e → Inv (next_of last (serve last e).0) (serve last e).1)
    → Inv last e
    → Delivered log last (follow_events serve left last e)
unfolding follow_events
follow_events-Delivered_from serve log lo Inv zero last e h faithful kept inv =
    connected-Delivered log lo last (serve last e).0 _ h (faithful last e inv)
      (newer (next_of last (serve last e).0) log, refl)
follow_events-Delivered_from serve log lo Inv (suc left) last e h faithful kept inv =
    connected-Delivered log lo last (serve last e).0 _ h (faithful last e inv) (
      follow_events-Delivered_from serve log lo Inv left (next_of last (serve last e).0)
        (serve last e).1 h faithful kept (kept last e inv))

-- If each connection hands over some beginning of the events of an ascending log that are newer than
-- the id it was given, the client yields, over all its reconnects, each event of the log newer than
-- its first id once and in order, without a gap: all of them up to the end of the task if it returns,
-- and some beginning of them if it gives up or is refused.
pub follow_events-Delivered :
    {E : Type 0} (serve : ℕ → E → Connection × E) (log : List Event) (lo left last : ℕ) (e : E)
    → IsAscending lo log
    → ((last : ℕ) (e : E) → IsFaithful log last (serve last e).0)
    → Delivered log last (follow_events serve left last e)
follow_events-Delivered serve log lo left last e h faithful =
    follow_events-Delivered_from serve log lo (λ last e. Unit) left last e h
      (λ last e inv. faithful last e) (λ last e inv. tt) tt
