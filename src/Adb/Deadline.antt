-- ===== src/Adb/Deadline.antt =====
-- The loop of `verify_vpn_closed` ends at its deadline.
use quest_vd_wired.Common.{
  ℕ, zero, suc, ◌+◌, ◌-◌, ◌≢◌, ◌≤◌, ◌<◌, Bool-cases, inl, inr, leb, min, none, List, arith,
}
use quest_vd_wired.Adb.Actions.{Result, ok, err, and_then}
use quest_vd_wired.Adb.Types.{AdbController, AdbError, AdbOutput, Executor}
use quest_vd_wired.Adb.Parse.{shows_vpn_closed}
use quest_vd_wired.Adb.Commands.{
  Verdict, dumpsys_args, checked, run_checked, wait_or_give_up, verify_round, verify_rounds,
}

-- The monotonic clock: time does not run backwards while adb runs, a reading lies between the times
-- before and after it, and a sleep takes at least as long as it was asked to.
pub record IsClocked (x : Executor) (time : x.World → ℕ) : Type 0 where
  pub execute_later :
      (args : List (List ℕ)) (limit : ℕ) (w : x.World) → time w ≤ time (x.execute args limit w).1
  pub now_after : (w : x.World) → time w ≤ (x.now w).0
  pub now_before : (w : x.World) → (x.now w).0 ≤ time (x.now w).1
  pub sleep_passes : (d : ℕ) (w : x.World) → time w + d ≤ time (x.sleep d w)

module _ (c : AdbController) (time : c.executor.World → ℕ) (clock : IsClocked c.executor time) where
  open c use {executor}

  ran-later :
      {n : ℕ} (q : Result AdbError AdbOutput × executor.World)
      → n ≤ time q.1
      → n ≤ time (and_then q (checked c)).1
  ran-later (err e, w) h = h
  ran-later (ok output, w) h = ground arith

  run-later : (args : List (List ℕ)) (w : executor.World) → time w ≤ time (run_checked c args w).1
  unfolding run_checked
  run-later args w =
      ran-later (executor.execute args c.command_timeout w)
        (clock.execute_later args c.command_timeout w)

  -- The loop ends from a world if its remaining time is below `fuel`.
  wait_ends :
      (deadline fuel : ℕ) (again : executor.World → Verdict c) (w : executor.World)
      → 0 < c.poll_interval
      → ((v : executor.World) → deadline - time v < fuel → (again v).0 ≢ none)
      → deadline - time w < suc fuel
      → (wait_or_give_up c deadline again w).0 ≢ none
  unfolding wait_or_give_up
  wait_ends deadline fuel again w poll h k =
      let (t₁, w₂) = executor.now w in
      let (t₂, w₃) = executor.now w₂ in
      elim (Bool-cases (leb deadline t₁)) [
        | inl late ↦ rw late (λ e. absurd (ground arith))
        | inr early ↦ rw early (
            h _ (
              ground (
                arith,
                clock.now_after w,
                clock.now_before w,
                clock.now_after w₂,
                clock.now_before w₂,
                clock.sleep_passes (min c.poll_interval (deadline - t₂)) w₃,
              )))
      ]

  round_ends :
      (deadline fuel : ℕ) (again : executor.World → Verdict c) (w : executor.World)
      (answer : Result AdbError AdbOutput × executor.World)
      → 0 < c.poll_interval
      → ((v : executor.World) → deadline - time v < fuel → (again v).0 ≢ none)
      → deadline - time w < suc fuel
      → time w ≤ time answer.1
      → (verify_round c deadline again answer).0 ≢ none
  unfolding verify_round
  round_ends deadline fuel again w (err x, w₁) poll h k later = λ e. absurd (ground arith)
  round_ends deadline fuel again w (ok output, w₁) poll h k later =
      elim (Bool-cases (shows_vpn_closed output.stdout)) [
        | inl shown ↦ rw shown (λ e. absurd (ground arith))
        | inr hidden ↦ rw hidden (wait_ends deadline fuel again w₁ poll h (omega arith))
      ]

  rounds_end :
      (fuel deadline : ℕ) (w : executor.World)
      → 0 < c.poll_interval
      → deadline - time w < fuel
      → (verify_rounds c fuel deadline w).0 ≢ none
  unfolding verify_rounds
  rounds_end zero deadline w poll k = absurd (omega arith)
  rounds_end (suc fuel) deadline w poll k =
      round_ends deadline fuel (verify_rounds c fuel deadline) w _ poll
        (λ v lt. rounds_end fuel deadline v poll lt) k (run-later dumpsys_args w)

  -- With a monotonic clock and a pause between the rounds, the loop of `verify_vpn_closed` ends before
  -- the fuel that it is given runs out, whatever the headset answers.
  pub verify_ends :
      (w : executor.World)
      → 0 < c.poll_interval
      → let (t, w₁) = executor.now w in
        (verify_rounds c (c.stop_timeout + 2) (t + c.stop_timeout) w₁).0 ≢ none
  verify_ends w poll =
      let (t, w₁) = executor.now w in
      rounds_end (c.stop_timeout + 2) (t + c.stop_timeout) w₁ poll
        (omega (arith, clock.now_before w))
