-- ===== src/Udp/Budget.antt =====
-- `QueueBudget` and `QueueReservation`: the bytes that the queues of all associations may hold. Any
-- number of tasks reserve and release at once, so a state is what the atomic counters hold and what
-- each task has still to do, and a step is one atomic operation on one counter.
pub mod Accounted
use quest_vd_wired.Common.{
  ℕ, zero, suc, ◌+◌, ◌-◌, ◌%◌, ◌^◌, Bool, ◌&&◌, ltb, leb, ◌==◌, if◌then◌else◌, Option, none, some,
  List, [], ◌∷◌, length, min,
}
use quest_vd_wired.Udp.Frame.{HevUdpFrame}

-- The closure of `fetch_update`: the new count, or none, which leaves the counter as it was.
unfoldable pub try_reserve : ℕ → ℕ → ℕ → Option ℕ
try_reserve current limit bytes =
    if ltb (current + bytes) (2 ^ 64) && leb (current + bytes) limit
    then some (current + bytes)
    else none

-- `fetch_sub` wraps around.
abbrev pub fetch_sub : ℕ → ℕ → ℕ
fetch_sub current bytes = (current + 2 ^ 64 - bytes) % 2 ^ 64

-- `saturating_add` on `usize`.
unfoldable pub accounted_frame_bytes : HevUdpFrame → ℕ
accounted_frame_bytes frame = min (length frame.payload + 64) (2 ^ 64 - 1)

-- The bytes of a reservation, and the association that they are counted for.
abbrev pub Share : Type 0
Share = ℕ × ℕ

-- `reserving` holds the association's bytes and not yet the global ones; `undoing` was refused the
-- global ones; `held` is a `QueueReservation`; `dropping` has given back the association's bytes.
pub record Budgets : Type 0 where
  pub association_bytes : ℕ → ℕ
  pub association_limit : ℕ
  pub queued_bytes : ℕ
  pub max_queued_bytes : ℕ
  pub reserving : List Share
  pub undoing : List Share
  pub held : List Share
  pub dropping : List Share

abbrev pub new : ℕ → ℕ → Budgets
new association_limit max_queued_bytes = record {
  association_bytes = λ _. 0;
  association_limit = association_limit;
  queued_bytes = 0;
  max_queued_bytes = max_queued_bytes;
  reserving = [];
  undoing = [];
  held = [];
  dropping = [];
}

-- The task at place `i` of a list goes on.
unfoldable pub remove : ℕ → List Share → Option (Share × List Share)
remove i [] = none
remove zero (x ∷ xs) = some (x, xs)
remove (suc i) (x ∷ xs) = elim (remove i xs) [ none ↦ none | some (y, ys) ↦ some (y, x ∷ ys) ]

abbrev pub update : (ℕ → ℕ) → ℕ → ℕ → ℕ → ℕ
update f a v b = if a == b then v else f b

-- The five atomic operations of `reserve` and of `drop`, in the order of the source.
unfoldable pub reserve_association : Budgets → ℕ → ℕ → Budgets
reserve_association s a bytes =
    elim (try_reserve (s.association_bytes a) s.association_limit bytes) [
      | none ↦ s
      | some v ↦ record s {
        association_bytes = update s.association_bytes a v;
        reserving = (a, bytes) ∷ s.reserving;
      }
    ]

unfoldable pub reserve_global : Budgets → Share → List Share → Budgets
reserve_global s (a, bytes) rest = elim (try_reserve s.queued_bytes s.max_queued_bytes bytes) [
  | none ↦ record s { reserving = rest; undoing = (a, bytes) ∷ s.undoing }
  | some v ↦ record s { queued_bytes = v; reserving = rest; held = (a, bytes) ∷ s.held }
]

unfoldable pub undo_association : Budgets → Share → List Share → Budgets
undo_association s (a, bytes) rest = record s {
  association_bytes = update s.association_bytes a (fetch_sub (s.association_bytes a) bytes);
  undoing = rest;
}

unfoldable pub drop_association : Budgets → Share → List Share → Budgets
drop_association s (a, bytes) rest = record s {
  association_bytes = update s.association_bytes a (fetch_sub (s.association_bytes a) bytes);
  held = rest;
  dropping = (a, bytes) ∷ s.dropping;
}

unfoldable pub drop_global : Budgets → Share → List Share → Budgets
drop_global s (a, bytes) rest = record s {
  queued_bytes = fetch_sub s.queued_bytes bytes;
  dropping = rest;
}

-- Which task moves next, and how.
pub data Move : Type 0 where
  reserves : ℕ → ℕ → Move
  goes_global : ℕ → Move
  undoes : ℕ → Move
  drops : ℕ → Move
  drops_global : ℕ → Move

abbrev pub on_task :
    Budgets → Option (Share × List Share) → (Share → List Share → Budgets) → Budgets
on_task s none f = s
on_task s (some (x, rest)) f = f x rest

unfoldable pub step : Budgets → Move → Budgets
step s (reserves a bytes) = reserve_association s a bytes
step s (goes_global i) = on_task s (remove i s.reserving) (reserve_global s)
step s (undoes i) = on_task s (remove i s.undoing) (undo_association s)
step s (drops i) = on_task s (remove i s.held) (drop_association s)
step s (drops_global i) = on_task s (remove i s.dropping) (drop_global s)

unfoldable pub run : Budgets → List Move → Budgets
run s [] = s
run s (m ∷ ms) = run (step s m) ms
