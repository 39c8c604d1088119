-- ===== src/Udp/Budget/Accounted.antt =====
-- The counters account for the reservations, and stay within their limits.
use quest_vd_wired.Common.{
  ℕ, zero, suc, ◌+◌, ◌^◌, ◌≡◌, ◌≤◌, ◌<◌, some, List, [], ◌∷◌, arith, ◌==◌, if◌then◌else◌, inl, inr,
  Option-cases,
}
use quest_vd_wired.Udp.Budget.{
  try_reserve, Share, Budgets, new, remove, reserve_association, reserve_global, undo_association,
  drop_association, drop_global, Move, reserves, goes_global, undoes, drops, drops_global, step,
  run,
}

-- The bytes of a list of tasks, for one association and for all.
pub share : ℕ → Share → ℕ
share b (a, bytes) = if a == b then bytes else 0

pub sum_for : ℕ → List Share → ℕ
sum_for b [] = 0
sum_for b (x ∷ xs) = share b x + sum_for b xs

pub sum_all : List Share → ℕ
sum_all [] = 0
sum_all ((a, bytes) ∷ xs) = bytes + sum_all xs

pub record IsAccounted (s : Budgets) : Type 0 where
  pub association :
      (b : ℕ)
      → s.association_bytes b ≡ sum_for b s.reserving + sum_for b s.undoing + sum_for b s.held
  pub association_within : (b : ℕ) → s.association_bytes b ≤ s.association_limit
  pub global : s.queued_bytes ≡ sum_all s.held + sum_all s.dropping
  pub global_within : s.queued_bytes ≤ s.max_queued_bytes
  pub limits : (s.association_limit < 2 ^ 64) × (s.max_queued_bytes < 2 ^ 64)

remove-sums :
    (i : ℕ) (xs : List Share) (x : Share) (rest : List Share)
    → remove i xs ≡ some (x, rest)
    → ((b : ℕ) → sum_for b xs ≡ share b x + sum_for b rest) × (sum_all xs ≡ x.1 + sum_all rest)
unfolding remove sum_for sum_all
remove-sums i [] x rest h = cc
remove-sums zero (y ∷ xs) x rest h = (λ b. ground arith, ground arith)
remove-sums (suc i) (y ∷ xs) x rest h = elim (Option-cases (remove i xs)) [
  | inl e ↦ absurd (ground arith)
  | inr ((z, zs), e) ↦
      let (each, whole) = remove-sums i xs z zs e in (λ b. ground (arith, each b), ground arith)
]

reserve-Accounted :
    (s : Budgets) (a bytes : ℕ) → IsAccounted s → IsAccounted (reserve_association s a bytes)
unfolding reserve_association try_reserve sum_for share
reserve-Accounted s a bytes h = record {
  association = λ b. ground (arith, h.association b, h.association a);
  association_within = λ b. ground (arith, h.association_within b, h.association_within a);
  global = ground arith;
  global_within = ground arith;
  limits = ground arith;
}

module _ (s : Budgets) (x : Share) (rest : List Share) (h : IsAccounted s) where
  global-Accounted :
      ((b : ℕ) → sum_for b s.reserving ≡ share b x + sum_for b rest)
      → IsAccounted (reserve_global s x rest)
  unfolding reserve_global try_reserve sum_for sum_all
  global-Accounted each = record {
    association = λ b. ground (arith, h.association b, each b);
    association_within = λ b. ground (arith, h.association_within b);
    global = ground arith;
    global_within = ground arith;
    limits = ground arith;
  }

  undo-Accounted :
      ((b : ℕ) → sum_for b s.undoing ≡ share b x + sum_for b rest)
      → IsAccounted (undo_association s x rest)
  unfolding undo_association share
  undo-Accounted each = record {
    association = λ b. ground (
      arith,
      h.association b,
      each b,
      h.association_within b,
      h.association x.0,
      each x.0,
      h.association_within x.0,
    );
    association_within = λ b.
        ground
          (arith, h.association_within b, h.association x.0, each x.0, h.association_within x.0);
    global = ground arith;
    global_within = ground arith;
    limits = ground arith;
  }

  drop-Accounted :
      ((b : ℕ) → sum_for b s.held ≡ share b x + sum_for b rest)
      → sum_all s.held ≡ x.1 + sum_all rest
      → IsAccounted (drop_association s x rest)
  unfolding drop_association share sum_all
  drop-Accounted each whole = record {
    association = λ b. ground (
      arith,
      h.association b,
      each b,
      h.association_within b,
      h.association x.0,
      each x.0,
      h.association_within x.0,
    );
    association_within = λ b.
        ground
          (arith, h.association_within b, h.association x.0, each x.0, h.association_within x.0);
    global = ground arith;
    global_within = ground arith;
    limits = ground arith;
  }

  drop_global-Accounted :
      sum_all s.dropping ≡ x.1 + sum_all rest → IsAccounted (drop_global s x rest)
  unfolding drop_global
  drop_global-Accounted whole = record {
    association = λ b. h.association b;
    association_within = λ b. h.association_within b;
    global = ground arith;
    global_within = ground arith;
    limits = ground arith;
  }

step-Accounted : (s : Budgets) (m : Move) → IsAccounted s → IsAccounted (step s m)
unfolding step
step-Accounted s (reserves a bytes) h = reserve-Accounted s a bytes h
step-Accounted s (goes_global i) h = elim (Option-cases (remove i s.reserving)) [
  | inl e ↦ rw e h
  | inr ((x, rest), e) ↦ rw e (global-Accounted s x rest h (remove-sums i s.reserving x rest e).0)
]
step-Accounted s (undoes i) h = elim (Option-cases (remove i s.undoing)) [
  | inl e ↦ rw e h
  | inr ((x, rest), e) ↦ rw e (undo-Accounted s x rest h (remove-sums i s.undoing x rest e).0)
]
step-Accounted s (drops i) h = elim (Option-cases (remove i s.held)) [
  | inl e ↦ rw e h
  | inr ((x, rest), e) ↦
      let (each, whole) = remove-sums i s.held x rest e in
      rw e (drop-Accounted s x rest h each whole)
]
step-Accounted s (drops_global i) h = elim (Option-cases (remove i s.dropping)) [
  | inl e ↦ rw e h
  | inr ((x, rest), e) ↦
      rw e (drop_global-Accounted s x rest h (remove-sums i s.dropping x rest e).1)
]

run-step-Accounted : (s : Budgets) (ms : List Move) → IsAccounted s → IsAccounted (run s ms)
unfolding run
run-step-Accounted s [] h = h
run-step-Accounted s (m ∷ ms) h = run-step-Accounted (step s m) ms (step-Accounted s m h)

new-Accounted :
    (limit max_bytes : ℕ) → limit < 2 ^ 64 → max_bytes < 2 ^ 64 → IsAccounted (new limit max_bytes)
unfolding sum_for sum_all
new-Accounted limit max_bytes l m = record {
  association = λ b. omega arith;
  association_within = λ b. omega arith;
  global = omega arith;
  global_within = omega arith;
  limits = (l, m);
}

-- Under every interleaving of the tasks' atomic operations each association's counter is the sum of
-- its reservations under way, under withdrawal and held, the global counter is the sum of those held
-- and being dropped, and neither passes its limit.
pub budget_run-IsAccounted :
    (limit max_bytes : ℕ) (ms : List Move)
    → limit < 2 ^ 64
    → max_bytes < 2 ^ 64
    → IsAccounted (run (new limit max_bytes) ms)
budget_run-IsAccounted limit max_bytes ms l m =
    run-step-Accounted (new limit max_bytes) ms (new-Accounted limit max_bytes l m)

-- Nothing leaks: once no task reserves, withdraws, holds or drops a reservation, every counter is 0.
pub budget_quiet :
    (limit max_bytes : ℕ) (ms : List Move) (b : ℕ)
    → limit < 2 ^ 64
    → max_bytes < 2 ^ 64
    → let s = run (new limit max_bytes) ms in
      s.reserving ≡ []
      → s.undoing ≡ []
      → s.held ≡ []
      → s.dropping ≡ []
      → (s.association_bytes b ≡ 0) × (s.queued_bytes ≡ 0)
unfolding sum_for sum_all
budget_quiet limit max_bytes ms b l m e₁ e₂ e₃ e₄ =
    let h = budget_run-IsAccounted limit max_bytes ms l m in
    (ground (arith, h.association b), ground (arith, h.global))
