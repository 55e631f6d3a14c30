-- ===== src/Cli.antt =====
-- cli/main.py, `follow_events`: a client that reads a task's event stream and connects again when the
-- connection breaks. `serve` is the server behind the HTTP library, with a state of its own: it gets
-- the id of the last event that the client has seen.
pub mod Follow
pub mod Parse
pub mod Numbers
pub mod RoundTrip
pub mod Exit
pub mod Command
use cloudagentperform.Base.{ℕ, zero, suc, Bool, true, false, List, [], ◌∷◌, ◌++◌, if◌then◌else◌}
use cloudagentperform.Models.{Event, ends_stream}

-- One connection: the events that arrive before it ends or breaks, or an error status.
pub data Connection : Type 0 where
  served : List Event → Connection
  refused : Connection

-- How `follow_events` ends: with the task, with `ConnectionError`, or with the error of a status.
pub data Followed : Type 0 where
  finished gave_up http_failed : Followed

-- The loop over one connection: what it yields, `last_id` after it, and whether it returned.
unfoldable pub read : List Event → ℕ → List Event × ℕ × Bool
read [] last_id = ([], last_id, false)
read (ev ∷ evs) last_id =
    let (out, last, over) = read evs ev.id in
    if ends_stream ev.type then (ev ∷ [], ev.id, true) else (ev ∷ out, last, over)

-- One connection, and the rest of the loop, which is given `last_id`.
unfoldable pub connected : Connection → ℕ → (ℕ → List Event × Followed) → List Event × Followed
unfolding read
connected refused last_id rest = ([], http_failed)
connected (served evs) last_id rest =
    let (out, last, over) = read evs last_id in
    let (more, how) = rest last in if over then (out, finished) else (out ++ more, how)

-- `left` is the number of reconnects that are still allowed.
unfoldable pub follow_events :
    {E : Type 0} → (ℕ → E → Connection × E) → ℕ → ℕ → E → List Event × Followed
unfolding connected
follow_events serve zero last_id e = connected (serve last_id e).0 last_id (λ last. ([], gave_up))
follow_events serve (suc left) last_id e =
    let (connection, e') = serve last_id e in
    connected connection last_id (λ last. follow_events serve left last e')
