-- ===== src/Attempt/Threads/Invariant.antt =====
-- What holds at every moment of `run_attempt` and its reaper (worker/attempt.py).
use cloudagentperform.Base.{
  Bool, true, false, not, ◌&&◌, ◌||◌, ◌≡◌, refl, ap, Option, none, some, List, [], ◌∷◌, String,
  ◌==◌, arith,
}
use cloudagentperform.Models.{r_cancelled, r_timeout}
use cloudagentperform.Attempt.Threads.{
  Main, entered, launching, spawning, working, leaving, stopping, promoted, over, torn, Reaper,
  absent, waiting, looking, striking, ended, crashed, Run, begin, Call, returns, raises, removed,
  finally, main_turn,
}

-- Is the container there?
abbrev pub alive : Option Bool → Bool
alive none = false
alive (some there) = there

-- The threads have not been started.
abbrev pub is_early : Main → Bool
is_early entered = true
is_early launching = true
is_early spawning = true
is_early _ = false

abbrev pub is_over : Main → Bool
is_over over = true
is_over _ = false

abbrev pub is_absent : Reaper → Bool
is_absent absent = true
is_absent _ = false

-- The reaper has not appended anything, and may still do so.
abbrev pub is_watching : Reaper → Bool
is_watching absent = true
is_watching waiting = true
is_watching looking = true
is_watching _ = false

abbrev pub is_ended : Reaper → Bool
is_ended ended = true
is_ended _ = false

abbrev pub is_crashed : Reaper → Bool
is_crashed crashed = true
is_crashed _ = false

abbrev pub is_empty : List String → Bool
is_empty [] = true
is_empty (r ∷ rs) = false

-- At most one reason, and one whose cause there is.
abbrev pub is_justified : List String → Bool → Bool → Bool
is_justified [] cancel late = true
is_justified (r ∷ []) cancel late = (r == r_cancelled && cancel) || (r == r_timeout && late)
is_justified (r ∷ r' ∷ rs) cancel late = false

pub record Sound (s : Run) : Type 0 where
  pub early : (is_early s.main && not (is_absent s.reaper)) ≡ false
  pub gone : (is_over s.main && alive s.sandbox && not s.main_failed) ≡ false
  pub struck : (is_ended s.reaper && not s.stop && alive s.sandbox && not s.reaper_failed) ≡ false
  pub told : (is_ended s.reaper && not s.stop && is_empty s.stop_reason) ≡ false
  pub silent : (is_watching s.reaper && not (is_empty s.stop_reason)) ≡ false
  pub spoken :
      (not (is_watching s.reaper || is_ended s.reaper || is_crashed s.reaper)
        && is_empty s.stop_reason)
      ≡ false
  pub silenced : (is_crashed s.reaper && not (is_empty s.stop_reason)) ≡ false
  pub justified : is_justified s.stop_reason s.cancel s.late ≡ true

pub alive-removed : (sandbox : Option Bool) → alive (removed sandbox) ≡ false
alive-removed none = refl
alive-removed (some there) = refl

pub begin-Sound : Sound begin
begin-Sound = record {
  early = refl;
  gone = refl;
  struck = refl;
  told = refl;
  silent = refl;
  spoken = refl;
  silenced = refl;
  justified = refl;
}

-- `run_attempt` goes on, and nothing else changes.
goes_on :
    (s : Run) (m : Main)
    → (is_early m && not (is_early s.main)) ≡ false
    → (is_over m && alive s.sandbox && not s.main_failed) ≡ false
    → Sound s
    → Sound (record s { main = m })
goes_on s m e o h = record {
  early = ground (arith, h.early);
  gone = o;
  struck = h.struck;
  told = h.told;
  silent = h.silent;
  spoken = h.spoken;
  silenced = h.silenced;
  justified = h.justified;
}

-- The container goes, and nothing else changes.
pub removed-Sound : (s : Run) → Sound s → Sound (record s { sandbox = removed s.sandbox })
removed-Sound s h = record {
  early = h.early;
  gone = ground (arith, alive-removed s.sandbox);
  struck = ground (arith, alive-removed s.sandbox);
  told = h.told;
  silent = h.silent;
  spoken = h.spoken;
  silenced = h.silenced;
  justified = h.justified;
}

finally-Sound :
    (b : Option Bool) (c : Call) (s : Run) → s.sandbox ≡ b → Sound s → Sound (finally b c s)
finally-Sound none c s e h = goes_on s over refl (rw (e) refl) h
finally-Sound (some b) returns s e h = goes_on s promoted refl refl h
finally-Sound (some b) raises s e h = goes_on s torn refl refl h

absent-watching :
    (r : Reaper) → (is_absent r && (not (is_watching r) || is_ended r || is_crashed r)) ≡ false
absent-watching absent = refl
absent-watching waiting = refl
absent-watching looking = refl
absent-watching striking = refl
absent-watching ended = refl
absent-watching crashed = refl

starts-Sound :
    (s : Run)
    → s.main ≡ launching
    → Sound s
    → Sound (record s { main = spawning; sandbox = some true })
starts-Sound s e h =
    let not_yet : is_absent s.reaper ≡ true = ground (arith, h.early, ap is_early e) in
    record {
      early = ground (arith, not_yet);
      gone = refl;
      struck = ground (arith, not_yet, absent-watching s.reaper);
      told = h.told;
      silent = h.silent;
      spoken = h.spoken;
      silenced = h.silenced;
      justified = h.justified;
    }

spawns-Sound :
    (s : Run) → s.main ≡ spawning → Sound s → Sound (record s { main = working; reaper = waiting })
spawns-Sound s e h =
    let not_yet : is_absent s.reaper ≡ true = ground (arith, h.early, ap is_early e) in
    record {
      early = refl;
      gone = refl;
      struck = refl;
      told = refl;
      silent = ground (arith, not_yet, absent-watching s.reaper, h.silent);
      spoken = refl;
      silenced = refl;
      justified = h.justified;
    }

stops-Sound : (s : Run) → Sound s → Sound (record s { main = stopping; stop = true })
stops-Sound s h = record {
  early = refl;
  gone = refl;
  struck = ground arith;
  told = ground arith;
  silent = h.silent;
  spoken = h.spoken;
  silenced = h.silenced;
  justified = h.justified;
}

pub main_turn-Sound :
    (m : Main) (c : Call) (s : Run) → s.main ≡ m → Sound s → Sound (main_turn m c s)
unfolding main_turn
main_turn-Sound entered returns s e h = goes_on s launching (rw (e) refl) refl h
main_turn-Sound entered raises s e h = goes_on s leaving refl refl h
main_turn-Sound launching returns s e h = starts-Sound s e h
main_turn-Sound launching raises s e h = goes_on s leaving refl refl h
main_turn-Sound spawning c s e h = spawns-Sound s e h
main_turn-Sound working c s e h = goes_on s leaving refl refl h
main_turn-Sound leaving c s e h = stops-Sound s h
main_turn-Sound stopping c s e h = finally-Sound s.sandbox c s refl h
main_turn-Sound promoted returns s e h =
    goes_on (record s { sandbox = removed s.sandbox }) over refl
      (ground (arith, alive-removed s.sandbox)) (removed-Sound s h)
main_turn-Sound promoted raises s e h = record {
  early = refl;
  gone = ground arith;
  struck = h.struck;
  told = h.told;
  silent = h.silent;
  spoken = h.spoken;
  silenced = h.silenced;
  justified = h.justified;
}
main_turn-Sound over c s e h = h
main_turn-Sound torn c s e h = h
