-- ===== src/Resources/Threads/Allocation.antt =====
-- What `allocate` hands out.
use comfy_ui_ng.Prelude.{
  ℕ, zero, suc, ◌+◌, ◌*◌, ◌-◌, ◌/◌, ◌%◌, min, ◌≤◌, ◌≡◌, refl, sym, subst, true, List, none, some,
  ok, ltb, if◌then◌else◌, arith, length, All, is_ok, ok_value,
}
use comfy_ui_ng.Prelude.Sort.{sum_of}
use comfy_ui_ng.Resources.Threads.{
  ThreadBudget, check_budget, compute_worker_count, ThreadBudgetManager, check_manager,
  available_cores, limited, assigned, budget_of, budgets, allocate,
}

-- The pools that a budget limits beside the interop pool.
pub data Pool : Type 0 where
  python : Pool
  omp : Pool
  mkl : Pool
  torch : Pool

abbrev pub threads_of : Pool → ThreadBudget → ℕ
threads_of python b = b.python_threads
threads_of omp b = b.omp_threads
threads_of mkl b = b.mkl_threads
threads_of torch b = b.torch_threads

threads_of-budget_of : (pool : Pool) (n : ℕ) → threads_of pool (budget_of n) ≡ n
threads_of-budget_of python n = refl
threads_of-budget_of omp n = refl
threads_of-budget_of mkl n = refl
threads_of-budget_of torch n = refl

-- `(remainder - index)`, cut at the number of rounds left: the workers that get one more.
module _ (m : ThreadBudgetManager) (quotient remainder : ℕ) where
  length-budgets : (index count : ℕ) → length (budgets m quotient remainder index count) ≡ count
  unfolding budgets
  length-budgets index zero = refl
  length-budgets index (suc count) = omega (arith, length-budgets (suc index) count)

  assigned-le :
      (index : ℕ)
      → 1 ≤ quotient
      → assigned m quotient remainder index ≤ quotient + (if ltb index remainder then 1 else 0)
  unfolding assigned
  assigned-le index h = ground arith

  total-le :
      (pool : Pool) (index count : ℕ)
      → 1 ≤ quotient
      → sum_of (threads_of pool) (budgets m quotient remainder index count)
        ≤ count * quotient + min count (remainder - index)
  unfolding budgets
  total-le pool index zero h = omega arith
  total-le pool index (suc count) h =
      rw (threads_of-budget_of pool (assigned m quotient remainder index))
        (ground (arith, assigned-le index h, total-le pool (suc index) count h))

  assigned-eq :
      (index : ℕ)
      → 1 ≤ quotient
      → m.max_threads_per_worker ≡ none
      → assigned m quotient remainder index ≡ quotient + (if ltb index remainder then 1 else 0)
  unfolding assigned limited
  assigned-eq index h e = ground arith

  total-eq :
      (pool : Pool) (index count : ℕ)
      → 1 ≤ quotient
      → m.max_threads_per_worker ≡ none
      → sum_of (threads_of pool) (budgets m quotient remainder index count)
        ≡ count * quotient + min count (remainder - index)
  unfolding budgets
  total-eq pool index zero h e = omega arith
  total-eq pool index (suc count) h e =
      rw (threads_of-budget_of pool (assigned m quotient remainder index))
        (ground (arith, assigned-eq index h e, total-eq pool (suc index) count h e))

  assigned_pos : (index : ℕ) → 1 ≤ assigned m quotient remainder index
  unfolding assigned
  assigned_pos index = omega arith

  assigned_cap :
      (most index : ℕ)
      → m.max_threads_per_worker ≡ some most
      → 1 ≤ most
      → assigned m quotient remainder index ≤ most
  unfolding assigned limited
  assigned_cap most index e h = ground arith

  budgets-All :
      (P : ThreadBudget → Type 0)
      → ((index : ℕ) → P (budget_of (assigned m quotient remainder index)))
      → (index count : ℕ) → All P (budgets m quotient remainder index count)
  unfolding budgets
  budgets-All P h index zero = tt
  budgets-All P h index (suc count) = (h index, budgets-All P h (suc index) count)

-- What the guards of the manager and of the allocation establish.
pub record IsAllocation (m : ThreadBudgetManager) (worker_count : ℕ) (bs : List ThreadBudget)
    : Type 0 where
  pub workers : length bs ≡ min worker_count (available_cores m)
  pub within : (pool : Pool) → sum_of (threads_of pool) bs ≤ available_cores m
  pub all_used :
      (pool : Pool)
      → m.max_threads_per_worker ≡ none
      → sum_of (threads_of pool) bs ≡ available_cores m
  pub valid : All (λ b. check_budget b ≡ ok b) bs
  pub below_cap :
      (pool : Pool) (most : ℕ)
      → m.max_threads_per_worker ≡ some most
      → All (λ b. threads_of pool b ≤ most) bs
  pub single_interop : All (λ b. b.torch_interop_threads ≡ 1) bs

allocate_parts :
    (m : ThreadBudgetManager) (worker_count : ℕ) (bs : List ThreadBudget)
    → allocate m worker_count ≡ ok bs
    → let count = min worker_count (available_cores m) in
      (1 ≤ count) × (bs ≡ budgets m (available_cores m / count) (available_cores m % count) 0 count)
unfolding allocate compute_worker_count available_cores
allocate_parts m worker_count bs h = ground arith

budget_valid : (n : ℕ) → 1 ≤ n → check_budget (budget_of n) ≡ ok (budget_of n)
unfolding check_budget
budget_valid n h = ground arith

shares :
    (avail count : ℕ)
    → 1 ≤ count
    → count ≤ avail
    → (1 ≤ avail / count) × (count * (avail / count) + min count (avail % count - 0) ≡ avail)
shares avail count h k = (grind arith, grind arith)

positive_cap :
    (m : ThreadBudgetManager) (most : ℕ)
    → check_manager m ≡ ok m
    → m.max_threads_per_worker ≡ some most
    → 1 ≤ most
unfolding check_manager
positive_cap m most v e = ground arith

budgets-IsAllocation :
    (m : ThreadBudgetManager) (worker_count : ℕ)
    → check_manager m ≡ ok m
    → let count = min worker_count (available_cores m) in
      1 ≤ count
      → IsAllocation m worker_count
          (budgets m (available_cores m / count) (available_cores m % count) 0 count)
budgets-IsAllocation m worker_count v h =
    let avail = available_cores m in
    let count = min worker_count avail in
    let q = avail / count in
    let r = avail % count in
    let (pos, whole) = shares avail count h (omega arith) in
    record {
      workers = length-budgets m q r 0 count;
      within = λ pool. omega (arith, whole, total-le m q r pool 0 count pos);
      all_used = λ pool e. omega (arith, whole, total-eq m q r pool 0 count pos e);
      valid =
          budgets-All m q r (λ b. check_budget b ≡ ok b)
            (λ i. budget_valid (assigned m q r i) (assigned_pos m q r i)) 0 count;
      below_cap = λ pool most e.
          budgets-All m q r (λ b. threads_of pool b ≤ most)
            (λ i.
              rw (threads_of-budget_of pool (assigned m q r i))
                (assigned_cap m q r most i e (positive_cap m most v e)))
            0 count;
      single_interop = budgets-All m q r (λ b. b.torch_interop_threads ≡ 1) (λ i. refl) 0 count;
    }

-- What `allocate` returns of a valid manager is an allocation.
allocate-IsAllocation :
    (m : ThreadBudgetManager) (worker_count : ℕ) (bs : List ThreadBudget)
    → check_manager m ≡ ok m
    → allocate m worker_count ≡ ok bs
    → IsAllocation m worker_count bs
allocate-IsAllocation m worker_count bs v h =
    let (pos, e) = allocate_parts m worker_count bs h in
    subst (IsAllocation m worker_count) (sym e) (budgets-IsAllocation m worker_count v pos)

-- On a valid manager `allocate` succeeds for every positive number of workers.
allocate_ok :
    (m : ThreadBudgetManager) (worker_count : ℕ)
    → check_manager m ≡ ok m
    → 1 ≤ worker_count
    → is_ok (allocate m worker_count) ≡ true
unfolding allocate compute_worker_count check_manager
allocate_ok m worker_count v h = ground arith

-- Of a valid manager, `allocate` succeeds for every positive number of workers. It returns one valid
-- budget for each worker that the cores allow, each with one interop thread. In each of the Python,
-- OMP, MKL and Torch pools the budgets never have more threads in all than the available cores,
-- exactly as many when no cap is set, and none has more than the cap.
pub allocate_total :
    (m : ThreadBudgetManager) (worker_count : ℕ)
    → check_manager m ≡ ok m
    → 1 ≤ worker_count
    → (bs : List ThreadBudget) × (allocate m worker_count ≡ ok bs) × IsAllocation m worker_count bs
allocate_total m worker_count v h =
    let (bs, e) = ok_value (allocate m worker_count) (allocate_ok m worker_count v h) in
    (bs, e, allocate-IsAllocation m worker_count bs v e)
