-- ===== src/System/Delivery/Resume.antt =====
-- What the client has after its connections: the events of the task without a gap.
use mathlib.Core.List.{append-nil}
use cloudagentperform.Base.{
  ℕ, ◌≤◌, ◌≡◌, refl, sym, ap, subst, ◌⊎◌, inl, inr, Option-cases, String, none, List, [], ◌∷◌, take,
  arith,
}
use cloudagentperform.Models.{Event}
use cloudagentperform.Store.Table.{Store, init}
use cloudagentperform.Store.Rows.{Unique}
use cloudagentperform.Store.{get, events_after}
use cloudagentperform.Store.History.{Txn, run}
use cloudagentperform.Store.History.Distinct.{run-Unique}
use cloudagentperform.Store.History.Log.{Extends, Extends-trans, run-Extends}
use cloudagentperform.Store.History.Replay.{Ascends-le, ascending, grows}
use cloudagentperform.Api.Stream.{stream, seen_after}
use cloudagentperform.Api.Stream.Delivery.{shown, arrivals, newer, shown-stream, seen-le}
use cloudagentperform.Api.Events.{task_events, task_events-decimal}
use cloudagentperform.Cli.{served, refused, follow_events}
use cloudagentperform.Cli.Follow.{
  IsPrefix, IsFaithful, Delivered, next_of, follow_events-Delivered_from,
}
use cloudagentperform.System.Delivery.{
  Session, asked, arrived, answer_of, subscribed, selected, ended, at_last, Heard, serve,
}
use cloudagentperform.System.Delivery.Prefixes.{
  IsPrefix-take, IsPrefix-trans, IsPrefix-until, seen_after-IsPrefix, newer-events_after,
}

subscribed-Unique : (x : Session) (s : Store) → Unique s.tasks → Unique (subscribed x s).tasks
subscribed-Unique x s u = run-Unique x.before (asked x s) (run-Unique x.earlier s u)

subscribed-Extends : (x : Session) (s : Store) → Unique s.tasks → Extends s (subscribed x s)
subscribed-Extends x s u =
    Extends-trans s (asked x s) (subscribed x s) (run-Extends x.earlier s u)
      (run-Extends x.before (asked x s) (run-Unique x.earlier s u))

at_last-Extends : (xs : List Session) (s : Store) → Unique s.tasks → Extends s (at_last xs s)
at_last-Extends [] s u = ([], sym (append-nil s.events), omega arith)
at_last-Extends (x ∷ xs) s u =
    let u₀ = subscribed-Unique x s u in
    let u₁ = run-Unique x.between (subscribed x s) u₀ in
    let far = at_last xs (ended x s) in
    Extends-trans s (subscribed x s) far (subscribed-Extends x s u) (
      Extends-trans (subscribed x s) (selected x s) far (run-Extends x.between (subscribed x s) u₀)
        (Extends-trans (selected x s) (ended x s) far (run-Extends x.later (selected x s) u₁)
          (at_last-Extends xs (ended x s) (run-Unique x.later (selected x s) u₁))))

last_id-Extends : (s s' : Store) → Extends s s' → s.last_id ≤ s'.last_id
last_id-Extends s s' (new, e, h) = Ascends-le s.last_id s'.last_id new h

ended-Unique : (x : Session) (s : Store) → Unique s.tasks → Unique (ended x s).tasks
ended-Unique x s u =
    run-Unique x.later (selected x s)
      (run-Unique x.between (subscribed x s) (subscribed-Unique x s u))

-- The client and the server in step: the client has only seen ids that were given out.
record InStep (tid : String) (final : Store) (last : ℕ) (e : List Session × Store) : Type 0 where
  unique : Unique e.1.tasks
  old : Extends init e.1
  seen : last ≤ e.1.last_id
  heard : Heard tid e.0 e.1
  close : at_last e.0 e.1 ≡ final

-- What arrives over one connection.
module _ (tid : String) (last : ℕ) (x : Session) (s : Store) (u : Unique s.tasks)
    (old : Extends init s) (seen : last ≤ s.last_id)
    (heard : arrivals x.messages ≡ events_after tid (subscribed x s).last_id (ended x s)) where
  u₀ : Unique (subscribed x s).tasks
  u₀ = subscribed-Unique x s u

  first : Extends init (subscribed x s)
  first = Extends-trans init s (subscribed x s) old (subscribed-Extends x s u)

  second : Extends (subscribed x s) (selected x s)
  second = run-Extends x.between (subscribed x s) u₀

  third : Extends (selected x s) (ended x s)
  third = run-Extends x.later (selected x s) (run-Unique x.between (subscribed x s) u₀)

  until_selected : Extends init (selected x s)
  until_selected = Extends-trans init (subscribed x s) (selected x s) first second

  until_ended : Extends init (ended x s)
  until_ended = Extends-trans init (selected x s) (ended x s) until_selected third

  given : last ≤ (subscribed x s).last_id
  given = omega (arith, seen, last_id-Extends s (subscribed x s) (subscribed-Extends x s u))

  given_out : last ≤ (selected x s).last_id
  given_out = omega (arith, given, last_id-Extends (subscribed x s) (selected x s) second)

  over : last ≤ (ended x s).last_id
  over = omega (arith, given_out, last_id-Extends (selected x s) (ended x s) third)

  received : List Event
  received = take x.arrive (shown (stream last (events_after tid last (selected x s)) x.messages))

  received-IsPrefix : IsPrefix received (events_after tid last (ended x s))
  unfolding received
  received-IsPrefix = IsPrefix-trans received _ _ (IsPrefix-take x.arrive _) (
      rw
        (
          shown-stream tid last (subscribed x s) (selected x s) (ended x s) first second third
              x.messages given heard,
          grows tid last (selected x s) (ended x s) until_selected third given_out,
        )
        (IsPrefix-until _ (events_after tid last (selected x s)) _))

  received_seen : seen_after last received ≤ (ended x s).last_id
  received_seen = omega (
    arith,
    seen_after-IsPrefix last received (events_after tid last (ended x s))
        (ascending tid last (ended x s) until_ended) received-IsPrefix,
    seen-le tid last (ended x s) (ended x s) (ended x s) until_ended
        (at_last-Extends [] (ended x s) (ended-Unique x s u))
        (at_last-Extends [] (ended x s) (ended-Unique x s u)) over,
  )

  received-IsFaithful :
      (final : Store)
      → Extends (ended x s) final
      → IsPrefix received (newer last (events_after tid 0 final))
  received-IsFaithful final rest =
      rw
        (
          newer-events_after tid last final (Extends-trans init (ended x s) final until_ended rest),
          grows tid last (ended x s) final until_ended rest over,
        )
        (IsPrefix-trans received _ _ received-IsPrefix (_, refl))

-- Is the task there, its events arrive; else the connection is refused.
answer-cases :
    (tid : String) (last : ℕ) (x : Session) (s : Store)
    → (arrived x.arrive (answer_of tid last x s) ≡ refused)
      ⊎ (arrived x.arrive (answer_of tid last x s)
          ≡ served (
              take x.arrive
                (shown (stream last (events_after tid last (selected x s)) x.messages))))
unfolding answer_of
answer-cases tid last x s = elim (Option-cases (get tid (asked x s))) [
  | inl gone ↦ inl (rw (task_events, gone) refl)
  | inr (t, there) ↦ inr (
      ap (arrived x.arrive)
        (task_events-decimal last none tid (asked x s) (selected x s) x.messages there))
]

InStep-IsFaithful :
    (tid : String) (final : Store) (last : ℕ) (e : List Session × Store)
    → InStep tid final last e
    → IsFaithful (events_after tid 0 final) last (serve tid last e).0
unfolding received serve
InStep-IsFaithful tid final last ([], s) i = tt
InStep-IsFaithful tid final last (x ∷ xs, s) i = elim (answer-cases tid last x s) [
  | inl gone ↦ subst (IsFaithful (events_after tid 0 final) last) (sym gone) tt
  | inr answered ↦ subst (IsFaithful (events_after tid 0 final) last) (sym answered) (
      received-IsFaithful tid last x s i.unique i.old i.seen i.heard.0 final (
        subst (Extends (ended x s)) i.close
          (at_last-Extends xs (ended x s) (ended-Unique x s i.unique))))
]

-- After a connection, whatever has arrived.
InStep-ended :
    (tid : String) (final : Store) (last now : ℕ) (x : Session) (xs : List Session) (s : Store)
    → InStep tid final last (x ∷ xs, s)
    → now ≤ (ended x s).last_id
    → InStep tid final now (xs, ended x s)
InStep-ended tid final last now x xs s i h = record {
  unique = ended-Unique x s i.unique;
  old = until_ended tid last x s i.unique i.old i.seen i.heard.0;
  seen = h;
  heard = i.heard.1;
  close = i.close;
}

InStep-next :
    (tid : String) (final : Store) (last : ℕ) (e : List Session × Store)
    → InStep tid final last e
    → InStep tid final (next_of last (serve tid last e).0) (serve tid last e).1
unfolding received serve
InStep-next tid final last ([], s) i = i
InStep-next tid final last (x ∷ xs, s) i =
    InStep-ended tid final last _ x xs s i (elim (answer-cases tid last x s) [
      | inl gone ↦
          subst (λ c. next_of last c ≤ (ended x s).last_id) (sym gone)
            (over tid last x s i.unique i.old i.seen i.heard.0)
      | inr answered ↦
          subst (λ c. next_of last c ≤ (ended x s).last_id) (sym answered)
            (received_seen tid last x s i.unique i.old i.seen i.heard.0)
    ])

-- A client follows a task from an empty or a shorter history on, over any number of connections, each of
-- which may break after any number of events, while the processes go on writing; it sends the id that it
-- has seen as Last-Event-ID. If each connection that it is given hears the task's events since its
-- subscription in the order of their ids, the client yields the task's events in the final log that are
-- newer than its first id, each once, in order and without a gap: all of them up to the end of the task if
-- it returns, and some beginning of them otherwise.
pub follow_events-stream :
    (start : List Txn) (tid : String) (sessions : List Session) (reconnects last : ℕ)
    → last ≤ (run start init).last_id
    → Heard tid sessions (run start init)
    → Delivered
        (events_after tid 0 (at_last sessions (run start init)))
        last
        (follow_events (serve tid) reconnects last (sessions, run start init))
follow_events-stream start tid sessions reconnects last seen heard =
    let s = run start init in
    let u = run-Unique start init tt in
    let old = run-Extends start init tt in
    let final = at_last sessions s in
    follow_events-Delivered_from (serve tid) (events_after tid 0 final) 0 (InStep tid final)
      reconnects last (sessions, s)
      (ascending tid 0 final (Extends-trans init s final old (at_last-Extends sessions s u)))
      (InStep-IsFaithful tid final) (InStep-next tid final)
      (record { unique = u; old = old; seen = seen; heard = heard; close = refl })
