-- ===== src/Attempt/Threads.antt =====
-- worker/attempt.py, `run_attempt` up to the end of its `finally`, with its thread `reaper`. (The
-- thread `heartbeat` touches none of this: it only renews the lease.) Any interleaving of the
-- threads is a list of turns. `sandbox.destroy()` returns also when the daemon fails to remove the
-- container.
pub mod Invariant
pub mod Turns
pub mod Endings
use cloudagentperform.Base.{
  Bool, true, false, Option, none, some, List, [], ◌∷◌, ◌++◌, String, if◌then◌else◌,
}
use cloudagentperform.Models.{r_cancelled, r_timeout}

-- Where the function stands: before the started event, before `provider.start`, before the threads
-- start, in `run_agent`, before `stop.set()`, before `download_artifacts`, before `sandbox.destroy()`,
-- behind the `finally`, or out of it by an exception of its own.
pub data Main : Type 0 where
  entered launching spawning working leaving stopping promoted over torn : Main

-- Where the reaper stands: not started, in `stop.wait`, before the two tests, after `append`, ended, or
-- ended by an exception of its question to the store.
pub data Reaper : Type 0 where
  absent waiting looking striking ended crashed : Reaper

-- The variables that the threads share. `sandbox` says whether the container is there, once the
-- variable is set; `cancel` and `late` are the outcomes of the reaper's two tests. No variable of the
-- code: `main_failed` and `reaper_failed` record that the daemon failed to remove the container when the
-- thread called `destroy`.
pub record Run : Type 0 where
  pub main : Main
  pub reaper : Reaper
  pub stop : Bool
  pub stop_reason : List String
  pub sandbox : Option Bool
  pub cancel : Bool
  pub late : Bool
  pub main_failed : Bool
  pub reaper_failed : Bool

abbrev pub begin : Run
begin = record {
  main = entered;
  reaper = absent;
  stop = false;
  stop_reason = [];
  sandbox = none;
  cancel = false;
  late = false;
  main_failed = false;
  reaper_failed = false;
}

-- Whether the call that is made next returns or raises. (For a removal, that is the daemon's call inside
-- `destroy`, which catches what it raises.)
pub data Call : Type 0 where
  returns raises : Call

abbrev pub removed : Option Bool → Option Bool
removed none = none
removed (some there) = some false

abbrev pub finally : Option Bool → Call → Run → Run
finally none c s = record s { main = over }
finally (some there) returns s = record s { main = promoted }
finally (some there) raises s = record s { main = torn }

-- A turn of `run_attempt`. Both ends of `run_agent` lead into the `finally`.
unfoldable pub main_turn : Main → Call → Run → Run
main_turn entered returns s = record s { main = launching }
main_turn entered raises s = record s { main = leaving }
main_turn launching returns s = record s { main = spawning; sandbox = some true }
main_turn launching raises s = record s { main = leaving }
main_turn spawning c s = record s { main = working; reaper = waiting }
main_turn working c s = record s { main = leaving }
main_turn leaving c s = record s { main = stopping; stop = true }
main_turn stopping c s = finally s.sandbox c s
main_turn promoted returns s = record s { main = over; sandbox = removed s.sandbox }
main_turn promoted raises s = record s { main = over; main_failed = true }
main_turn over c s = s
main_turn torn c s = s

-- The two tests of the reaper, and what it then appends.
abbrev pub look : Bool → Bool → Run → Run
look true late s = record s { reaper = striking; stop_reason = s.stop_reason ++ r_cancelled ∷ [] }
look false true s = record s { reaper = striking; stop_reason = s.stop_reason ++ r_timeout ∷ [] }
look false false s = record s { reaper = waiting }

unfoldable pub reaper_turn : Reaper → Call → Run → Run
reaper_turn absent c s = s
reaper_turn waiting c s = record s { reaper = if s.stop then ended else looking }
reaper_turn looking returns s = look s.cancel s.late s
reaper_turn looking raises s = record s { reaper = crashed }
reaper_turn striking returns s = record s { reaper = ended; sandbox = removed s.sandbox }
reaper_turn striking raises s = record s { reaper = ended; reaper_failed = true }
reaper_turn ended c s = s
reaper_turn crashed c s = s

-- A turn of a thread, or something that happens outside: a cancel request, the deadline, the end of
-- the container.
pub data Turn : Type 0 where
  main reaper : Call → Turn
  cancels passes dies : Turn

unfoldable pub turn : Turn → Run → Run
unfolding main_turn reaper_turn
turn (main c) s = main_turn s.main c s
turn (reaper c) s = reaper_turn s.reaper c s
turn cancels s = record s { cancel = true }
turn passes s = record s { late = true }
turn dies s = record s { sandbox = removed s.sandbox }

unfoldable pub play : List Turn → Run → Run
unfolding turn
play [] s = s
play (x ∷ xs) s = play xs (turn x s)
