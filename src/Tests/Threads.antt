-- ===== src/Tests/Threads.antt =====
-- The threads of an attempt in concrete orders.
use cloudagentperform.Base.{◌≡◌, refl, false, true, List, [], ◌∷◌, ◌⊎◌, arith, String}
use cloudagentperform.Models.{cancelled, failed}
use cloudagentperform.Attempt.{stop_outcome}
use cloudagentperform.Attempt.Threads.{
  begin, Turn, main, reaper, cancels, dies, returns, raises, play,
}
use cloudagentperform.Attempt.Threads.Invariant.{alive, is_empty}
use cloudagentperform.Attempt.Threads.Endings.{
  no_sandbox_left, stop_reason-justified, reaper_interrupts,
}

-- The agent runs, and a cancel is requested.
abbrev working : List Turn
working = main returns ∷ main returns ∷ main returns ∷ cancels ∷ []

-- The reaper acts, the agent's run ends, and the function runs to its end.
abbrev interrupted : List Turn
interrupted =
    main returns
    ∷ main returns
    ∷ main returns
    ∷ cancels
    ∷ reaper returns
    ∷ reaper returns
    ∷ reaper returns
    ∷ main raises
    ∷ main returns
    ∷ main returns
    ∷ main returns
    ∷ []

no_sandbox_left_example : alive (play interrupted begin).sandbox ≡ false
unfolding play
no_sandbox_left_example = no_sandbox_left interrupted refl refl

stop_reason-justified_example :
    (◌≡◌ {A = List String} [] [])
    × (((stop_outcome "cancelled").status ≡ cancelled → (play interrupted begin).cancel ≡ true)
        × ((stop_outcome "cancelled").status ≡ failed → (play interrupted begin).late ≡ true))
unfolding play
stop_reason-justified_example = stop_reason-justified interrupted refl

reaper_interrupts_example :
    let t =
      play
        (reaper returns ∷ main raises ∷ reaper returns ∷ dies ∷ reaper returns ∷ [])
        (play working begin) in
    (t.stop ≡ true) ⊎ ((is_empty t.stop_reason ≡ false) × (alive t.sandbox ≡ false))
unfolding play
reaper_interrupts_example =
    reaper_interrupts working
      (reaper returns ∷ main raises ∷ reaper returns ∷ dies ∷ reaper returns ∷ []) refl refl
      (omega arith) refl refl
