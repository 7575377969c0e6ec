-- ===== src/Resources/Threads/Tests.antt =====
-- An allocation, and each theorem at a concrete input.
use comfy_ui_ng.Prelude.{◌≡◌, refl, List, [], ◌∷◌, none, ok, arith}
use comfy_ui_ng.Resources.Threads.{
  ThreadBudget, ThreadBudgetManager, check_manager, compute_worker_count, available_cores, budgets,
  assigned, budget_of, allocate,
}
use comfy_ui_ng.Resources.Threads.Allocation.{IsAllocation, allocate_total}

abbrev manager : ThreadBudgetManager
manager = record { physical_cores = 10; reserve_cores = 2; max_threads_per_worker = none }

manager_valid : check_manager manager ≡ ok manager
unfolding check_manager
manager_valid = refl

abbrev three : List ThreadBudget
three = budget_of 3 ∷ budget_of 3 ∷ budget_of 2 ∷ []

allocate-three : allocate manager 3 ≡ ok three
unfolding allocate compute_worker_count available_cores budgets assigned
allocate-three = refl

allocate_total_example :
    (bs : List ThreadBudget) × (allocate manager 3 ≡ ok bs) × IsAllocation manager 3 bs
allocate_total_example = allocate_total manager 3 manager_valid (omega arith)
