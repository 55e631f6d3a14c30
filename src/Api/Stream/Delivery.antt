-- ===== src/Api/Stream/Delivery.antt =====
-- What `_stream` of api/main.py delivers to a client that subscribes, reads the history, and listens.
use cloudagentperform.Base.{
  ℕ, ◌≤◌, ◌≡◌, refl, subst, sym, ap, ◌∙◌, inl, inr, String, Bool, Option, none, some, List, [], ◌∷◌,
  ◌++◌, map, any, leb, ltb, keep, keep-append, if◌then◌else◌, arith, Bool-cases,
}
use cloudagentperform.Models.{Event, ends_stream}
use cloudagentperform.Store.Table.{Store, init}
use cloudagentperform.Store.{events_after}
use cloudagentperform.Store.History.{Txn, run}
use cloudagentperform.Store.History.Distinct.{run-Unique}
use cloudagentperform.Store.History.Log.{Ascends, Extends, Extends-trans, run-Extends}
use cloudagentperform.Store.History.Replay.{
  IsAscending, of_task_after, in_order, Ascends-le, from_init, log_of, ascending, grows,
}
use cloudagentperform.Api.Stream.{Frame, frame, keepalive, seen_after, live, stream}

-- The events of some frames.
abbrev pub shown : List Frame → List Event
shown [] = []
shown (frame ev ∷ fs) = ev ∷ shown fs
shown (keepalive ∷ fs) = shown fs

abbrev pub arrivals : List (Option Event) → List Event
arrivals [] = []
arrivals (none ∷ ms) = arrivals ms
arrivals (some ev ∷ ms) = ev ∷ arrivals ms

-- The events up to the first one that ends the task, and that one.
abbrev pub through_end : List Event → List Event
through_end [] = []
through_end (ev ∷ evs) = ev ∷ (if ends_stream ev.type then [] else through_end evs)

abbrev pub newer : ℕ → List Event → List Event
newer n es = keep (λ ev. ltb n ev.id) es

shown-map : (es : List Event) (fs : List Frame) → shown (map frame es ++ fs) ≡ es ++ shown fs
shown-map [] fs = refl
shown-map (e ∷ es) fs = ap (λ l. e ∷ l) (shown-map es fs)

pub newer-all : (n lo : ℕ) (es : List Event) → IsAscending lo es → n ≤ lo → newer n es ≡ es
newer-all n lo [] h k = refl
newer-all n lo (e ∷ es) h k = ground (arith, newer-all n e.id es h.1)

-- Of messages in ascending order, the loop shows the new ones, up to the end of the task.
shown-live :
    (seen lo : ℕ) (ms : List (Option Event))
    → IsAscending lo (arrivals ms)
    → shown (live seen ms) ≡ through_end (newer seen (arrivals ms))
unfolding live
shown-live seen lo [] h = refl
shown-live seen lo (none ∷ ms) h = shown-live seen lo ms h
shown-live seen lo (some ev ∷ ms) h = elim (Bool-cases (leb ev.id seen)) [
  | inl old ↦ ground (arith, shown-live seen ev.id ms h.1)
  | inr new ↦ ground (
    arith,
    shown-live ev.id ev.id ms h.1,
    newer-all seen ev.id (arrivals ms) h.1,
    newer-all ev.id ev.id (arrivals ms) h.1,
  )
]

pub seen_after-append :
    (n : ℕ) (xs ys : List Event) → seen_after n (xs ++ ys) ≡ seen_after (seen_after n xs) ys
seen_after-append n [] ys = refl
seen_after-append n (x ∷ xs) ys = seen_after-append x.id xs ys

-- Nothing of an ascending list is newer than its last event.
pub le-seen_after : (lo : ℕ) (es : List Event) → IsAscending lo es → lo ≤ seen_after lo es
le-seen_after lo [] h = omega arith
le-seen_after lo (e ∷ es) h = omega (arith, h.0, le-seen_after e.id es h.1)

pub newer-seen_after :
    (n lo : ℕ) (es : List Event) → IsAscending lo es → newer (seen_after n es) es ≡ []
newer-seen_after n lo [] h = refl
newer-seen_after n lo (e ∷ es) h =
    ground (arith, le-seen_after e.id es h.1, newer-seen_after e.id e.id es h.1)

seen_after-le :
    (p : Event → Bool) (n lo hi : ℕ) (es : List Event)
    → Ascends lo es hi
    → n ≤ hi
    → seen_after n (keep p es) ≤ hi
seen_after-le p n lo hi [] h k = k
seen_after-le p n lo hi (e ∷ es) h k = elim (Bool-cases (p e)) [
  | inl pass ↦ rw pass (seen_after-le p e.id e.id hi es h.1 (Ascends-le e.id hi es h.1))
  | inr fail ↦ rw fail (seen_after-le p n e.id hi es h.1 k)
]

module _ (tid : String) (after : ℕ) (s₀ s₁ s₂ : Store) (from : Extends init s₀)
    (first : Extends s₀ s₁) (second : Extends s₁ s₂) where
  whole : Extends init s₁
  whole = Extends-trans init s₀ s₁ from first

  last_id-le : s₀.last_id ≤ s₁.last_id
  last_id-le = let (new, _, h) = first in Ascends-le s₀.last_id s₁.last_id new h

  pub seen-le : after ≤ s₀.last_id → seen_after after (events_after tid after s₁) ≤ s₁.last_id
  seen-le h =
      subst (λ es. seen_after after es ≤ s₁.last_id) (sym (in_order tid after s₁ whole))
        (seen_after-le (of_task_after tid after) after 0 s₁.last_id s₁.events (log_of s₁ whole)
          (omega (arith, h, last_id-le)))

  wholly : Extends init s₂
  wholly = Extends-trans init s₁ s₂ whole second

  -- The history has all that was logged between the subscription and the SELECT.
  all_read :
      after ≤ s₀.last_id
      → newer (seen_after after (events_after tid after s₁)) (events_after tid s₀.last_id s₁) ≡ []
  all_read h =
      subst (λ n. newer n (events_after tid s₀.last_id s₁) ≡ [])
        (sym (
          ap (seen_after after) (grows tid after s₀ s₁ from first h)
          ∙ seen_after-append after (events_after tid after s₀) (events_after tid s₀.last_id s₁)))
        (newer-seen_after _ s₀.last_id _ (ascending tid s₀.last_id s₁ whole))

  -- What is new among the messages since the subscription is what the history lacks.
  unread :
      after ≤ s₀.last_id
      → newer (seen_after after (events_after tid after s₁)) (events_after tid s₀.last_id s₂)
        ≡ events_after tid s₁.last_id s₂
  unread h =
      rw
        (
          grows tid s₀.last_id s₁ s₂ whole second last_id-le,
          keep-append (λ (ev : Event). ltb (seen_after after (events_after tid after s₁)) ev.id)
              (events_after tid s₀.last_id s₁) (events_after tid s₁.last_id s₂),
          all_read h,
        )
        (newer-all _ s₁.last_id _ (ascending tid s₁.last_id s₂ wholly) (seen-le h))

  pub shown-stream :
      (ms : List (Option Event))
      → after ≤ s₀.last_id
      → arrivals ms ≡ events_after tid s₀.last_id s₂
      → shown (stream after (events_after tid after s₁) ms)
        ≡ events_after tid after s₁
          ++ (if any (λ ev. ends_stream ev.type) (events_after tid after s₁)
              then []
              else through_end (events_after tid s₁.last_id s₂))
  unfolding stream
  shown-stream ms h heard =
      elim (Bool-cases (any (λ ev. ends_stream ev.type) (events_after tid after s₁))) [
        | inl over ↦ rw over (shown-map (events_after tid after s₁) [])
        | inr open_ended ↦ rw open_ended (
            shown-map (events_after tid after s₁) _
            ∙ ap (λ l. events_after tid after s₁ ++ l)
                (shown-live _ s₀.last_id ms (
                    subst (IsAscending s₀.last_id) (sym heard) (ascending tid s₀.last_id s₂ wholly))
                  ∙ ap (λ l. through_end (newer (seen_after after (events_after tid after s₁)) l))
                      heard
                  ∙ ap through_end (unread h)))
      ]

-- A client that subscribes, then reads the history after an id that had been given out by then, and
-- then listens, is shown exactly the history and, unless the history holds the end of the task, the
-- task's events that were logged after it, up to the end of the task, each once and in order, whatever
-- is logged between the three steps. The messages that it hears must be the events of the task since
-- it subscribed, in the order of their ids, with any timeouts in between.
pub stream_lem :
    (before between later : List Txn) (tid : String) (after : ℕ) (ms : List (Option Event))
    → after ≤ (run before init).last_id
    → arrivals ms
      ≡ events_after tid (run before init).last_id (run later (run between (run before init)))
    → shown (stream after (events_after tid after (run between (run before init))) ms)
      ≡ events_after tid after (run between (run before init))
        ++ (if any
              (λ ev. ends_stream ev.type)
              (events_after tid after (run between (run before init)))
            then []
            else through_end (
                events_after tid
                  (run between (run before init)).last_id
                  (run later (run between (run before init)))))
stream_lem before between later tid after ms h heard =
    let s₀ = run before init in
    let u₀ = run-Unique before init tt in
    let s₁ = run between s₀ in
    shown-stream tid after s₀ s₁ (run later s₁) (from_init before) (run-Extends between s₀ u₀)
      (run-Extends later s₁ (run-Unique between s₀ u₀)) ms h heard
