-- ===== src/Adb/Verified.antt =====
-- What the two verifications have seen when they find nothing wrong.
use quest_vd_wired.Common.{
  ℕ, zero, suc, ◌+◌, ◌≡◌, refl, ap, true, Bool-cases, inl, inr, leb, none, some, List, [], ◌∷◌,
  ◌++◌, ◌⊎◌, arith,
}
use quest_vd_wired.Adb.Actions.{Result, ok, err}
use quest_vd_wired.Adb.Types.{AdbController, AdbOutput, AdbError, reverse_mappings}
use quest_vd_wired.Adb.Parse.{owned, parse_reverse_list, shows_vpn_closed}
use quest_vd_wired.Adb.Commands.{
  list_args, dumpsys_args, run_checked, run_checked_with, listing_failures, remove_each,
  remove_all_mappings, Verdict, or_still_active, wait_or_give_up, verify_round, verify_rounds,
  verify_vpn_closed,
}

pub Result-cases :
    {E A : Type 0} (r : Result E A) → ((a : A) × (r ≡ ok a)) ⊎ ((e : E) × (r ≡ err e))
Result-cases (ok a) = inl (a, refl)
Result-cases (err e) = inr (e, refl)

pub append_empty : {A : Type 0} (xs ys : List A) → xs ++ ys ≡ [] → ys ≡ []
append_empty [] ys h = h
append_empty (x ∷ xs) ys h = absurd (ground arith)

-- The state of things right after a dumpsys of the service that shows the VPN closed.
pub record SawClosed (c : AdbController) (w : c.executor.World) : Type 0 where
  pub before : c.executor.World
  pub output : AdbOutput
  pub answered : run_checked c dumpsys_args before ≡ (ok output, w)
  pub closed : shows_vpn_closed output.stdout ≡ true

-- The state of things right after a listing without a mapping of the product.
pub record SawNoMapping (c : AdbController) (w : c.executor.World) : Type 0 where
  pub before : c.executor.World
  pub output : AdbOutput
  pub answered : run_checked_with c list_args c.mapping_timeout before ≡ (ok output, w)
  pub none_owned : owned (parse_reverse_list output.stdout) ≡ []

module _ (c : AdbController) where
  open c use {executor}

  abbrev SawClosedIfOk : Verdict c → Type 0
  SawClosedIfOk (answer, w) = answer ≡ some (ok tt) → SawClosed c w

  wait-SawClosed :
      (deadline : ℕ) (again : executor.World → Verdict c) (w : executor.World)
      → ((v : executor.World) → SawClosedIfOk (again v))
      → SawClosedIfOk (wait_or_give_up c deadline again w)
  unfolding wait_or_give_up
  wait-SawClosed deadline again w h = elim (Bool-cases (leb deadline (executor.now w).0)) [
    | inl late ↦ rw late (λ e. absurd (ground arith))
    | inr early ↦ rw early (h _)
  ]

  round-SawClosed :
      (deadline : ℕ) (again : executor.World → Verdict c) (w : executor.World)
      (answer : Result AdbError AdbOutput × executor.World)
      → ((v : executor.World) → SawClosedIfOk (again v))
      → run_checked c dumpsys_args w ≡ answer
      → SawClosedIfOk (verify_round c deadline again answer)
  unfolding verify_round
  round-SawClosed deadline again w (err x, w₁) h e = λ k. absurd (ground arith)
  round-SawClosed deadline again w (ok output, w₁) h e =
      elim (Bool-cases (shows_vpn_closed output.stdout)) [
        | inl shown ↦
            rw shown (λ k. record { before = w; output = output; answered = e; closed = shown })
        | inr hidden ↦ rw hidden (wait-SawClosed deadline again w₁ h)
      ]

  rounds-SawClosed :
      (fuel deadline : ℕ) (w : executor.World) → SawClosedIfOk (verify_rounds c fuel deadline w)
  unfolding verify_rounds
  rounds-SawClosed zero deadline w = λ h. absurd (ground arith)
  rounds-SawClosed (suc fuel) deadline w =
      round-SawClosed deadline (verify_rounds c fuel deadline) w _ (rounds-SawClosed fuel deadline)
        refl

  answered-SawClosed :
      (v : Verdict c)
      → SawClosedIfOk v
      → (or_still_active c v).0 ≡ ok tt
      → SawClosed c (or_still_active c v).1
  answered-SawClosed (none, w) h e = absurd (ground arith)
  answered-SawClosed (some r, w) h e = h (ap some e)

  pub verify-SawClosed :
      (w : executor.World)
      → (verify_vpn_closed c w).0 ≡ ok tt
      → SawClosed c (verify_vpn_closed c w).1
  unfolding verify_vpn_closed
  verify-SawClosed w =
      let (t, w₁) = executor.now w in
      answered-SawClosed (verify_rounds c (c.stop_timeout + 2) (t + c.stop_timeout) w₁)
        (rounds-SawClosed (c.stop_timeout + 2) (t + c.stop_timeout) w₁)

  listing-SawNoMapping :
      (w : executor.World) (answer : Result AdbError AdbOutput × executor.World)
      → run_checked_with c list_args c.mapping_timeout w ≡ answer
      → listing_failures c answer.0 ≡ []
      → SawNoMapping c answer.1
  unfolding listing_failures
  listing-SawNoMapping w (err e, w₁) a h = absurd (ground arith)
  listing-SawNoMapping w (ok output, w₁) a h = record {
    before = w;
    output = output;
    answered = a;
    none_owned = ground arith;
  }

  -- A removal without a failure has ended with such a listing.
  pub remove-SawNoMapping :
      (w : executor.World)
      → (remove_all_mappings c w).0 ≡ []
      → SawNoMapping c (remove_all_mappings c w).1
  unfolding remove_all_mappings
  remove-SawNoMapping w h =
      let (failures, w₁) = remove_each c reverse_mappings w in
      listing-SawNoMapping w₁ _ refl (append_empty failures _ h)
