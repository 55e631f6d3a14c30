-- ===== src/Attempt/Threads/Turns.antt =====
-- The turns of the reaper, and all turns together, keep the invariant (worker/attempt.py).
use cloudagentperform.Base.{
  Bool, true, false, not, ◌&&◌, Option, ◌≡◌, refl, ap, List, [], ◌∷◌, ◌++◌, String, if◌then◌else◌,
  arith,
}
use cloudagentperform.Models.{r_cancelled, r_timeout}
use cloudagentperform.Attempt.Threads.{
  Reaper, absent, waiting, looking, striking, ended, crashed, Run, Call, returns, raises, removed,
  look, reaper_turn, Turn, main, reaper, cancels, passes, dies, turn, play,
}
use cloudagentperform.Attempt.Threads.Invariant.{
  alive, is_absent, is_watching, is_ended, is_crashed, is_empty, is_justified, Sound, alive-removed,
  removed-Sound, main_turn-Sound,
}

nil_of_empty : (rs : List String) → is_empty rs ≡ true → rs ≡ []
nil_of_empty [] h = refl
nil_of_empty (r ∷ rs) h = cc h

-- The reaper sets the reason, if it had set none.
tells-Sound :
    (s : Run) (r : String)
    → s.reaper ≡ looking
    → is_justified (r ∷ []) s.cancel s.late ≡ true
    → Sound s
    → Sound (record s { reaper = striking; stop_reason = s.stop_reason ++ r ∷ [] })
tells-Sound s r e j h =
    let none_yet = nil_of_empty s.stop_reason (ground (arith, h.silent, ap is_watching e)) in
    record {
      early = ground (arith, h.early, ap is_absent e);
      gone = h.gone;
      struck = refl;
      told = refl;
      silent = refl;
      spoken = rw (none_yet) refl;
      silenced = refl;
      justified = rw (none_yet) j;
    }

-- The reaper goes on watching.
watches-Sound :
    (s : Run) (r : Reaper)
    → is_absent s.reaper ≡ false
    → is_watching s.reaper ≡ true
    → is_absent r ≡ false
    → is_ended r ≡ false
    → is_watching r ≡ true
    → Sound s
    → Sound (record s { reaper = r })
watches-Sound s r a w a' e' w' h = record {
  early = ground (arith, h.early);
  gone = h.gone;
  struck = ground arith;
  told = ground arith;
  silent = ground (arith, h.silent);
  spoken = ground arith;
  silenced = ground arith;
  justified = h.justified;
}

-- The reaper ends because the run has been stopped.
retires-Sound :
    (s : Run) → s.stop ≡ true → s.reaper ≡ waiting → Sound s → Sound (record s { reaper = ended })
retires-Sound s stopped e h = record {
  early = ground (arith, h.early, ap is_absent e);
  gone = h.gone;
  struck = ground arith;
  told = ground arith;
  silent = refl;
  spoken = refl;
  silenced = refl;
  justified = h.justified;
}

wakes-Sound :
    (b : Bool) (s : Run)
    → s.stop ≡ b
    → s.reaper ≡ waiting
    → Sound s
    → Sound (record s { reaper = if b then ended else looking })
wakes-Sound true s stopped e h = retires-Sound s stopped e h
wakes-Sound false s stopped e h =
    watches-Sound s looking (ap is_absent e) (ap is_watching e) refl refl refl h

-- The reaper has called `destroy`: the container is gone, or the daemon failed.
strikes-Sound :
    (s : Run) (sandbox : Option Bool) (failed : Bool)
    → (alive sandbox && not (alive s.sandbox)) ≡ false
    → (alive sandbox && not failed) ≡ false
    → s.reaper ≡ striking
    → Sound s
    → Sound (record s { reaper = ended; sandbox = sandbox; reaper_failed = failed })
strikes-Sound s sandbox failed less done e h = record {
  early = ground (arith, h.early, ap is_absent e);
  gone = ground (arith, h.gone);
  struck = ground arith;
  told = ground (arith, h.spoken, ap is_watching e, ap is_ended e, ap is_crashed e);
  silent = refl;
  spoken = refl;
  silenced = refl;
  justified = h.justified;
}

-- The question to the store raises.
crashes-Sound : (s : Run) → s.reaper ≡ looking → Sound s → Sound (record s { reaper = crashed })
crashes-Sound s e h = record {
  early = ground (arith, h.early, ap is_absent e);
  gone = h.gone;
  struck = refl;
  told = refl;
  silent = refl;
  spoken = refl;
  silenced = ground (arith, h.silent, ap is_watching e);
  justified = h.justified;
}

justified_cancel :
    (rs : List String) (cancel late : Bool)
    → is_justified rs cancel late ≡ true
    → is_justified rs true late ≡ true
justified_cancel [] cancel late h = refl
justified_cancel (r ∷ []) cancel late h = ground arith
justified_cancel (r ∷ r' ∷ rs) cancel late h = h

justified_late :
    (rs : List String) (cancel late : Bool)
    → is_justified rs cancel late ≡ true
    → is_justified rs cancel true ≡ true
justified_late [] cancel late h = refl
justified_late (r ∷ []) cancel late h = ground arith
justified_late (r ∷ r' ∷ rs) cancel late h = h

look-Sound :
    (cancel late : Bool) (s : Run)
    → s.cancel ≡ cancel
    → s.late ≡ late
    → s.reaper ≡ looking
    → Sound s
    → Sound (look cancel late s)
look-Sound true late s c l e h = tells-Sound s r_cancelled e (rw (c) refl) h
look-Sound false true s c l e h = tells-Sound s r_timeout e (rw (l) refl) h
look-Sound false false s c l e h =
    watches-Sound s waiting (ap is_absent e) (ap is_watching e) refl refl refl h

reaper_turn-Sound :
    (r : Reaper) (c : Call) (s : Run) → s.reaper ≡ r → Sound s → Sound (reaper_turn r c s)
unfolding reaper_turn
reaper_turn-Sound absent c s e h = h
reaper_turn-Sound waiting c s e h = wakes-Sound s.stop s refl e h
reaper_turn-Sound looking returns s e h = look-Sound s.cancel s.late s refl refl e h
reaper_turn-Sound looking raises s e h = crashes-Sound s e h
reaper_turn-Sound striking returns s e h =
    strikes-Sound s (removed s.sandbox) s.reaper_failed (ground (arith, alive-removed s.sandbox))
      (ground (arith, alive-removed s.sandbox)) e h
reaper_turn-Sound striking raises s e h =
    strikes-Sound s s.sandbox true (ground arith) (ground arith) e h
reaper_turn-Sound ended c s e h = h
reaper_turn-Sound crashed c s e h = h

pub turn-Sound : (x : Turn) (s : Run) → Sound s → Sound (turn x s)
unfolding turn
turn-Sound (main c) s h = main_turn-Sound s.main c s refl h
turn-Sound (reaper c) s h = reaper_turn-Sound s.reaper c s refl h
turn-Sound cancels s h = record {
  early = h.early;
  gone = h.gone;
  struck = h.struck;
  told = h.told;
  silent = h.silent;
  spoken = h.spoken;
  silenced = h.silenced;
  justified = justified_cancel s.stop_reason s.cancel s.late h.justified;
}
turn-Sound passes s h = record {
  early = h.early;
  gone = h.gone;
  struck = h.struck;
  told = h.told;
  silent = h.silent;
  spoken = h.spoken;
  silenced = h.silenced;
  justified = justified_late s.stop_reason s.cancel s.late h.justified;
}
turn-Sound dies s h = removed-Sound s h

pub play-Sound : (xs : List Turn) (s : Run) → Sound s → Sound (play xs s)
unfolding play
play-Sound [] s h = h
play-Sound (x ∷ xs) s h = play-Sound xs (turn x s) (turn-Sound x s h)
