-- ===== src/Api/Stream.antt =====
-- api/main.py, `_stream`: the events of one task as a client is sent them. `history` is what the
-- store returns; the messages are what the subscription hands over, with `none` where it timed out.
pub mod Delivery
use cloudagentperform.Base.{
  ℕ, Bool, true, false, Option, none, some, List, [], ◌∷◌, ◌++◌, map, any, leb, if◌then◌else◌,
}
use cloudagentperform.Models.{Event, ends_stream}

pub data Frame : Type 0 where
  frame : Event → Frame
  keepalive : Frame

-- `seen` after the loop over the history.
abbrev pub seen_after : ℕ → List Event → ℕ
seen_after seen [] = seen
seen_after seen (ev ∷ evs) = seen_after ev.id evs

-- The loop over the messages: it ends with the task, or goes on with the next message.
unfoldable pub live : ℕ → List (Option Event) → List Frame
live seen [] = []
live seen (none ∷ ms) = keepalive ∷ live seen ms
live seen (some ev ∷ ms) =
    let skipped = live seen ms in
    let next = live ev.id ms in
    if leb ev.id seen then skipped else frame ev ∷ (if ends_stream ev.type then [] else next)

unfoldable pub stream : ℕ → List Event → List (Option Event) → List Frame
unfolding live
stream after history ms =
    map frame history
    ++ (if any (λ ev. ends_stream ev.type) history then [] else live (seen_after after history) ms)
