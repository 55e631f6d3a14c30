-- ===== src/Attempt/Threads/Endings.antt =====
-- How `run_attempt` and its reaper come to an end (worker/attempt.py).
use cloudagentperform.Base.{
  ℕ, suc, ◌+◌, ◌-◌, ◌≤◌, Bool, true, false, ◌&&◌, ◌||◌, ◌≡◌, refl, sym, ap, ◌∙◌, eq_iff, Option,
  none, some, List, [], ◌∷◌, String, if◌then◌else◌, ◌==◌, arith, ◌⊎◌, inl, inr, Bool-cases,
}
use cloudagentperform.Models.{cancelled, failed, r_cancelled, r_timeout}
use cloudagentperform.Attempt.{stop_outcome}
use cloudagentperform.Attempt.Threads.{
  Main, entered, launching, spawning, working, leaving, stopping, promoted, over, torn, Reaper,
  absent, waiting, looking, striking, ended, crashed, Run, begin, Call, returns, raises, finally,
  main_turn, look, reaper_turn, Turn, main, reaper, cancels, passes, dies, turn, play,
}
use cloudagentperform.Attempt.Threads.Invariant.{
  alive, is_early, is_over, is_absent, is_ended, is_crashed, is_empty, is_justified, Sound,
  begin-Sound,
}
use cloudagentperform.Attempt.Threads.Turns.{turn-Sound, play-Sound}

-- Whatever the threads do and in whatever order, when `run_attempt` has left its `finally` without an
-- exception of `download_artifacts`, and the daemon did not fail to remove the container when
-- `run_attempt` called `destroy`, the container that `provider.start` returned is gone, if it returned
-- one.
pub no_sandbox_left :
    (xs : List Turn)
    → (play xs begin).main ≡ over
    → (play xs begin).main_failed ≡ false
    → alive (play xs begin).sandbox ≡ false
no_sandbox_left xs e f = ground (arith, (play-Sound xs begin begin-Sound).gone, ap is_over e, f)

first_of :
    (a b cancel late : Bool) → b ≡ false → ((a && cancel) || (b && late)) ≡ true → cancel ≡ true
first_of a b cancel late e h = ground arith

second_of :
    (a b cancel late : Bool) → a ≡ false → ((a && cancel) || (b && late)) ≡ true → late ≡ true
second_of a b cancel late e h = ground arith

justified_lem :
    (why : String) (rest : List String) (cancel late : Bool)
    → is_justified (why ∷ rest) cancel late ≡ true
    → (rest ≡ [])
      × (((stop_outcome why).status ≡ cancelled → cancel ≡ true)
          × ((stop_outcome why).status ≡ failed → late ≡ true))
justified_lem why [] cancel late h = elim (Bool-cases (why == r_cancelled)) [
  | inl y ↦ rw (y) (
    refl,
    (
      (λ e.
          first_of (why == r_cancelled) (why == r_timeout) cancel late
            (ap (λ w. w == r_timeout) ((eq_iff why r_cancelled).0 y)) h),
      (λ e. cc e),
    ),
  )
  | inr n ↦ rw (n) (
    refl,
    ((λ e. cc e), (λ e. second_of (why == r_cancelled) (why == r_timeout) cancel late n h)),
  )
]
justified_lem why (r ∷ rest) cancel late h = cc h

-- There is never more than one stop reason. An attempt that is stopped ends as cancelled only if a
-- cancel was requested, and as failed only if the time was up.
pub stop_reason-justified :
    (xs : List Turn) {why : String} {rest : List String}
    → (play xs begin).stop_reason ≡ why ∷ rest
    → (rest ≡ [])
      × (((stop_outcome why).status ≡ cancelled → (play xs begin).cancel ≡ true)
          × ((stop_outcome why).status ≡ failed → (play xs begin).late ≡ true))
stop_reason-justified xs {why} {rest} e =
    justified_lem why rest (play xs begin).cancel (play xs begin).late (
      sym (ap (λ rs. is_justified rs (play xs begin).cancel (play xs begin).late) e)
      ∙ (play-Sound xs begin begin-Sound).justified)

-- The turns that the reaper has still to take.
abbrev pub rank : Reaper → ℕ
rank absent = 3
rank waiting = 3
rank looking = 2
rank striking = 1
rank ended = 0
rank crashed = 0

-- The number of the reaper's turns.
abbrev pub beats : List Turn → ℕ
beats [] = 0
beats (reaper c ∷ xs) = suc (beats xs)
beats (main c ∷ xs) = beats xs
beats (cancels ∷ xs) = beats xs
beats (passes ∷ xs) = beats xs
beats (dies ∷ xs) = beats xs

-- The reaper runs, has a reason to act, and ends within `n` turns.
abbrev Closer : ℕ → Run → Type 0
Closer n s = (rank s.reaper ≤ n) × ((is_absent s.reaper ≡ false) × ((s.cancel || s.late) ≡ true))

-- What a turn of `run_attempt` leaves alone, once the threads run.
abbrev Same : Run → Run → Type 0
Same s t = (t.reaper ≡ s.reaper) × ((t.cancel ≡ s.cancel) × (t.late ≡ s.late))

finally-Same : (b : Option Bool) (c : Call) (s : Run) → Same s (finally b c s)
finally-Same none c s = (refl, (refl, refl))
finally-Same (some b) returns s = (refl, (refl, refl))
finally-Same (some b) raises s = (refl, (refl, refl))

main_turn-Same :
    (m : Main) (c : Call) (s : Run)
    → s.main ≡ m
    → is_early s.main ≡ false
    → Same s (main_turn m c s)
unfolding main_turn
main_turn-Same entered c s e l = ground (arith, ap is_early e)
main_turn-Same launching c s e l = ground (arith, ap is_early e)
main_turn-Same spawning c s e l = ground (arith, ap is_early e)
main_turn-Same working c s e l = (refl, (refl, refl))
main_turn-Same leaving c s e l = (refl, (refl, refl))
main_turn-Same stopping c s e l = finally-Same s.sandbox c s
main_turn-Same promoted returns s e l = (refl, (refl, refl))
main_turn-Same promoted raises s e l = (refl, (refl, refl))
main_turn-Same over c s e l = (refl, (refl, refl))
main_turn-Same torn c s e l = (refl, (refl, refl))

look-Closer :
    (cancel late : Bool) (s : Run)
    → s.cancel ≡ cancel
    → s.late ≡ late
    → (cancel || late) ≡ true
    → Closer 1 (look cancel late s)
look-Closer true late s c l h = (omega arith, (refl, ground arith))
look-Closer false true s c l h = (omega arith, (refl, ground arith))
look-Closer false false s c l h = cc h

wakes-Closer :
    (b : Bool) (s : Run)
    → (s.cancel || s.late) ≡ true
    → Closer 2 (record s { reaper = if b then ended else looking })
wakes-Closer true s h = (omega arith, (refl, h))
wakes-Closer false s h = (omega arith, (refl, h))

-- The reaper comes closer to its end with each of its turns.
reaper_turn-Closer :
    (r : Reaper) (c : Call) (s : Run)
    → s.reaper ≡ r
    → is_absent r ≡ false
    → (s.cancel || s.late) ≡ true
    → Closer (rank r - 1) (reaper_turn r c s)
unfolding reaper_turn
reaper_turn-Closer absent c s e a h = cc a
reaper_turn-Closer waiting c s e a h = wakes-Closer s.stop s h
reaper_turn-Closer looking returns s e a h = look-Closer s.cancel s.late s refl refl h
reaper_turn-Closer looking raises s e a h = (omega arith, (refl, h))
reaper_turn-Closer striking returns s e a h = (omega arith, (refl, h))
reaper_turn-Closer striking raises s e a h = (omega arith, (refl, h))
reaper_turn-Closer ended c s e a h =
    (ground (arith, ap rank e), (ground (arith, ap is_absent e), h))
reaper_turn-Closer crashed c s e a h =
    (ground (arith, ap rank e), (ground (arith, ap is_absent e), h))

turn-Closer :
    (x : Turn) (n : ℕ) (s : Run) → Sound s → Closer n s → Closer (n - beats (x ∷ [])) (turn x s)
unfolding turn
turn-Closer (main c) n s sound (k, (a, h)) =
    let (r, (d, l)) = main_turn-Same s.main c s refl (ground (arith, sound.early)) in
    (ground (arith, ap rank r), (ground (arith, ap is_absent r), ground arith))
turn-Closer (reaper c) n s sound (k, (a, h)) =
    let (k', rest) = reaper_turn-Closer s.reaper c s refl a h in (omega (arith, k'), rest)
turn-Closer cancels n s sound (k, (a, h)) = (omega (arith, k), (a, refl))
turn-Closer passes n s sound (k, (a, h)) = (omega (arith, k), (a, ground arith))
turn-Closer dies n s sound c = (omega (arith, c.0), c.1)

beats-cons : (x : Turn) (xs : List Turn) → beats (x ∷ xs) ≡ beats (x ∷ []) + beats xs
beats-cons (main c) xs = omega arith
beats-cons (reaper c) xs = omega arith
beats-cons cancels xs = omega arith
beats-cons passes xs = omega arith
beats-cons dies xs = omega arith

play-Closer :
    (xs : List Turn) (n : ℕ) (s : Run)
    → Sound s
    → Closer n s
    → (rank (play xs s).reaper ≤ n - beats xs) × Sound (play xs s)
unfolding play
play-Closer [] n s sound c = (ground (arith, c.0), sound)
play-Closer (x ∷ xs) n s sound c =
    let (k, sound') =
      play-Closer xs (n - beats (x ∷ [])) (turn x s) (turn-Sound x s sound)
        (turn-Closer x n s sound c) in
    (ground (arith, beats-cons x xs, k), sound')

rank_ended : (r : Reaper) → rank r ≤ 0 → is_crashed r ≡ false → is_ended r ≡ true
rank_ended absent h k = absurd (omega (arith, h))
rank_ended waiting h k = absurd (omega (arith, h))
rank_ended looking h k = absurd (omega (arith, h))
rank_ended striking h k = absurd (omega (arith, h))
rank_ended ended h k = refl
rank_ended crashed h k = cc k

rank_small : (r : Reaper) → rank r ≤ 3
rank_small absent = omega arith
rank_small waiting = omega arith
rank_small looking = omega arith
rank_small striking = omega arith
rank_small ended = omega arith
rank_small crashed = omega arith

-- Once the threads run and a cancel was requested or the time is up, three more turns of the reaper are
-- enough, whatever else happens between them, if its question to the store does not raise and the daemon
-- does not fail to remove the container when the reaper calls `destroy`: then `run_attempt` has left the
-- agent's run, or there is a stop reason and the container is gone.
pub reaper_interrupts :
    (xs ys : List Turn)
    → is_absent (play xs begin).reaper ≡ false
    → ((play xs begin).cancel || (play xs begin).late) ≡ true
    → 3 ≤ beats ys
    → is_crashed (play ys (play xs begin)).reaper ≡ false
    → (play ys (play xs begin)).reaper_failed ≡ false
    → let t = play ys (play xs begin) in
      (t.stop ≡ true) ⊎ ((is_empty t.stop_reason ≡ false) × (alive t.sandbox ≡ false))
reaper_interrupts xs ys a h enough alright removes =
    let s = play xs begin in
    let (k, sound) =
      play-Closer ys 3 s (play-Sound xs begin begin-Sound) (rank_small s.reaper, (a, h)) in
    let over = rank_ended (play ys s).reaper (omega (arith, k, enough)) alright in
    elim (Bool-cases (play ys s).stop) [
      | inl stopped ↦ inl stopped
      | inr running ↦ inr (
        ground (arith, over, running, sound.told),
        ground (arith, over, running, removes, sound.struck),
      )
    ]
