-- ===== src/Resources/Budgets/Tests.antt =====
-- Estimates and limits at concrete inputs.
use comfy_ui_ng.Prelude.{◌≤◌, ◌≡◌, ◌↔◌, refl, true, false, map, [], ◌∷◌, none, ok, is_ok}
use comfy_ui_ng.Resources.Budgets.{
  Demand, estimate, nil, alternative, offload, check_estimate, check_alternatives, check_demand,
  ascending, check_limits, Inventory, Reserves, ResourceLimits, vram_budgets, heavy_budgets,
  from_inventory,
}
use comfy_ui_ng.Resources.Budgets.Limits.{IsBudget, from_inventory_iff, from_inventory-IsBudget}

abbrev small : Demand
small = record {
  cpu_cores = 1;
  ram_bytes = 100;
  vram_mb = 0;
  gpu_index = none;
  heavy_gpu = false;
  pinned_ram_bytes = 0;
  concurrent_reads = 0;
  concurrent_writes = 0;
}

nested_refused :
    is_ok (
      check_estimate (
        estimate small (
          alternative offload (estimate small (alternative offload (estimate small nil) nil)) nil)))
    ≡ false
unfolding check_estimate check_alternatives check_demand
nested_refused = refl

abbrev pub host : Inventory
host = record {
  physical_cores = 8;
  total_bytes = 1000;
  available_bytes = 600;
  gpus = (record { index = 0; total_vram_mb = 24; free_vram_mb = 20 }) ∷ [];
}

abbrev pub reserves : Reserves
reserves = record {
  cpu_cores = 2;
  ram_bytes = 100;
  vram_mb = 4;
  max_pinned_ram_bytes = 300;
  max_parallel_heavy_jobs = 1;
  max_concurrent_reads = 4;
  max_concurrent_writes = 2;
}

abbrev pub limits : ResourceLimits
limits = record {
  cpu_cores = 6;
  ram_bytes = 500;
  vram_mb_by_gpu = (0, 16) ∷ [];
  pinned_ram_bytes = 300;
  concurrent_reads = 4;
  concurrent_writes = 2;
  heavy_jobs_by_gpu = (0, 1) ∷ [];
}

pub from_inventory-limits : from_inventory host reserves ≡ ok limits
unfolding from_inventory check_limits vram_budgets heavy_budgets
from_inventory-limits = refl

from_inventory_iff_example :
    (is_ok (from_inventory host reserves) ≡ true)
    ↔ ((1 ≤ reserves.max_parallel_heavy_jobs) × (ascending (map (λ g. g.index) host.gpus) ≡ true))
from_inventory_iff_example = from_inventory_iff host reserves

from_inventory-IsBudget_example : IsBudget host reserves limits
from_inventory-IsBudget_example = from_inventory-IsBudget host reserves limits from_inventory-limits
