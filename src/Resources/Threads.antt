-- ===== src/Resources/Threads.antt =====
-- resources/threads.py.
use comfy_ui_ng.Prelude.{
  ℕ, zero, suc, ◌+◌, ◌-◌, ◌/◌, ◌%◌, min, max, Bool, List, [], ◌∷◌, Option, none, some, Result, ok,
  err, ◌>>=◌, ◌>>◌, raise_if, ltb, if◌then◌else◌, String,
}
pub mod Allocation
mod Tests

pub record ThreadBudget : Type 0 where
  pub python_threads : ℕ
  pub omp_threads : ℕ
  pub mkl_threads : ℕ
  pub torch_threads : ℕ
  pub torch_interop_threads : ℕ

-- `_positive_integer`
positive_integer : ℕ → Result String (Unit {0})
positive_integer n = raise_if (ltb n 1) "must be a positive integer"

-- `ThreadBudget.__post_init__`
pub check_budget : ThreadBudget → Result String ThreadBudget
unfolding positive_integer
check_budget b = do
  positive_integer b.python_threads
  positive_integer b.omp_threads
  positive_integer b.mkl_threads
  positive_integer b.torch_threads
  positive_integer b.torch_interop_threads
  ok b

positive_if_given : Option ℕ → Result String (Unit {0})
unfolding positive_integer
positive_if_given none = ok tt
positive_if_given (some n) = positive_integer n

capped : ℕ → Option ℕ → ℕ
capped usable none = usable
capped usable (some configured) = min configured usable

pub compute_worker_count : (physical_cores reserve_cores : ℕ) → Option ℕ → Result String ℕ
unfolding positive_integer positive_if_given capped
compute_worker_count physical_cores reserve_cores configured = do
  positive_integer physical_cores
  positive_if_given configured
  ok (capped (max 1 (physical_cores - reserve_cores)) configured)

pub record ThreadBudgetManager : Type 0 where
  pub physical_cores : ℕ
  pub reserve_cores : ℕ
  pub max_threads_per_worker : Option ℕ

-- `ThreadBudgetManager.__post_init__`
pub check_manager : ThreadBudgetManager → Result String ThreadBudgetManager
unfolding positive_integer positive_if_given
check_manager m = do
  positive_integer m.physical_cores
  positive_if_given m.max_threads_per_worker
  ok m

pub available_cores : ThreadBudgetManager → ℕ
available_cores m = max 1 (m.physical_cores - m.reserve_cores)

limited : Option ℕ → ℕ → ℕ
limited none assigned = assigned
limited (some most) assigned = min assigned most

-- The threads of the worker with the index.
pub assigned : ThreadBudgetManager → (quotient remainder index : ℕ) → ℕ
unfolding limited
assigned m quotient remainder index =
    max 1 (limited m.max_threads_per_worker (quotient + (if ltb index remainder then 1 else 0)))

abbrev budget_of : ℕ → ThreadBudget
budget_of n = record {
  python_threads = n;
  omp_threads = n;
  mkl_threads = n;
  torch_threads = n;
  torch_interop_threads = 1;
}

-- The loop `for index in range(count)`, from the given index on; `count` rounds are left.
pub budgets : ThreadBudgetManager → (quotient remainder index count : ℕ) → List ThreadBudget
budgets m quotient remainder index zero = []
budgets m quotient remainder index (suc count) =
    budget_of (assigned m quotient remainder index) ∷ budgets m quotient remainder (suc index) count

-- `allocate`. Each budget is positive, so `check_budget` passes (Allocation.antt).
pub allocate : ThreadBudgetManager → ℕ → Result String (List ThreadBudget)
allocate m worker_count = do
  count ← compute_worker_count m.physical_cores m.reserve_cores (some worker_count)
  ok (budgets m (available_cores m / count) (available_cores m % count) 0 count)
