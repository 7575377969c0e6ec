-- ===== src/Resources/Budgets.antt =====
-- resources/budgets.py: estimates with their alternatives, and limits. A dictionary from GPU indexes
-- is a tuple of pairs in the source too.
use comfy_ui_ng.Prelude.{
  ℕ, ◌+◌, ◌-◌, min, max, Bool, true, false, not, ◌&&◌, ◌||◌, List, [], ◌∷◌, Option, none, some,
  Result, ok, err, ◌>>=◌, ◌>>◌, raise_if, ltb, leb, ◌==◌, is_some, bool_eq, if◌then◌else◌, String,
  nat_eq, text_beq,
}
use comfy_ui_ng.Prelude.Dict.{Dict, lookup, keys}
pub mod Limits
pub mod Tests

pub data FallbackAction : Type 0 where
  unchanged offload quantize sequence reduce_batch reject : FallbackAction

abbrev action_index : FallbackAction → ℕ
action_index unchanged = 0
action_index offload = 1
action_index quantize = 2
action_index sequence = 3
action_index reduce_batch = 4
action_index reject = 5

abbrev pub action_beq : FallbackAction → FallbackAction → Bool
action_beq a b = action_index a == action_index b

-- The fields of a ResourceEstimate but its alternatives.
pub record Demand : Type 0 where
  pub cpu_cores : ℕ
  pub ram_bytes : ℕ
  pub vram_mb : ℕ
  pub gpu_index : Option ℕ
  pub heavy_gpu : Bool
  pub pinned_ram_bytes : ℕ
  pub concurrent_reads : ℕ
  pub concurrent_writes : ℕ

mutual
  pub data ResourceEstimate : Type 0 where
    estimate : Demand → Alternatives → ResourceEstimate

  pub data Alternatives : Type 0 where
    nil : Alternatives
    alternative : FallbackAction → ResourceEstimate → Alternatives → Alternatives

unfoldable pub demand : ResourceEstimate → Demand
demand (estimate d rest) = d

pub alternatives : ResourceEstimate → Alternatives
alternatives (estimate d rest) = rest

is_nil : Alternatives → Bool
is_nil nil = true
is_nil (alternative a e rest) = false

-- `next(item.estimate for item in alternatives if item.action is action)`
find : FallbackAction → Alternatives → Option ResourceEstimate
find action nil = none
find action (alternative a e rest) = if action_beq a action then some e else find action rest

-- `ResourceEstimate.alternative`
pub alternative_for : ResourceEstimate → FallbackAction → Option ResourceEstimate
unfolding find alternatives
alternative_for e action = find action (alternatives e)

is_transformable : FallbackAction → Bool
is_transformable offload = true
is_transformable quantize = true
is_transformable reduce_batch = true
is_transformable _ = false

has_action : FallbackAction → Alternatives → Bool
has_action action nil = false
has_action action (alternative a e rest) = action_beq a action || has_action action rest

has_duplicates : Alternatives → Bool
unfolding has_action
has_duplicates nil = false
has_duplicates (alternative a e rest) = has_action a rest || has_duplicates rest

-- The guards of `ResourceEstimate.__post_init__` before those on the alternatives.
pub check_demand : Demand → Result String (Unit {0})
check_demand d = do
  raise_if (ltb d.cpu_cores 1) "cpu_cores must be >= 1"
  raise_if (not (bool_eq (ltb 0 d.vram_mb) (is_some d.gpu_index)))
      "vram_mb and gpu_index must be specified together"
  raise_if (d.heavy_gpu && not (is_some d.gpu_index)) "a heavy GPU estimate requires gpu_index"
  raise_if (ltb d.ram_bytes d.pinned_ram_bytes) "pinned_ram_bytes cannot exceed ram_bytes"

mutual
  unfolding check_demand is_transformable is_nil alternatives has_duplicates

  -- `ResourceEstimate.__post_init__` of an estimate and, before it, of its alternatives.
  pub check_estimate : ResourceEstimate → Result String (Unit {0})
  check_estimate (estimate d rest) = do
    check_alternatives rest
    check_demand d
    raise_if (has_duplicates rest) "duplicate fallback action"

  -- `ResourceAlternative.__post_init__`
  pub check_alternatives : Alternatives → Result String (Unit {0})
  check_alternatives nil = ok tt
  check_alternatives (alternative a e rest) = do
    check_estimate e
    raise_if (not (is_transformable a)) "fallback alternative action is not transformable"
    raise_if (not (is_nil (alternatives e))) "nested alternatives are not allowed"
    check_alternatives rest

pub record ResourceLimits : Type 0 where
  pub cpu_cores : ℕ
  pub ram_bytes : ℕ
  pub vram_mb_by_gpu : Dict ℕ ℕ
  pub pinned_ram_bytes : ℕ
  pub concurrent_reads : ℕ
  pub concurrent_writes : ℕ
  pub heavy_jobs_by_gpu : Dict ℕ ℕ

-- `indexes == sorted(indexes)` with no duplicates.
pub ascending : List ℕ → Bool
ascending [] = true
ascending (i ∷ []) = true
ascending (i ∷ j ∷ l) = ltb i j && ascending (j ∷ l)

-- `ResourceLimits.__post_init__`
pub check_limits : ResourceLimits → Result String ResourceLimits
unfolding ascending
check_limits l = do
  raise_if (not (ascending (keys l.vram_mb_by_gpu)))
      "vram_mb_by_gpu indexes must be sorted and unique"
  raise_if (not (ascending (keys l.heavy_jobs_by_gpu)))
      "heavy_jobs_by_gpu indexes must be sorted and unique"
  raise_if (not (text_beq (keys l.vram_mb_by_gpu) (keys l.heavy_jobs_by_gpu)))
      "GPU resource maps must contain the same indexes"
  ok l

-- `vram_mb` and `heavy_jobs`
unfoldable pub vram_mb : ResourceLimits → ℕ → Option ℕ
vram_mb l i = lookup i l.vram_mb_by_gpu

unfoldable pub heavy_jobs : ResourceLimits → ℕ → Option ℕ
heavy_jobs l i = lookup i l.heavy_jobs_by_gpu

-- What `from_inventory` reads of a HardwareInventory.
pub record Gpu : Type 0 where
  pub index : ℕ
  pub total_vram_mb : ℕ
  pub free_vram_mb : ℕ

pub record Inventory : Type 0 where
  pub physical_cores : ℕ
  pub total_bytes : ℕ
  pub available_bytes : ℕ
  pub gpus : List Gpu

pub record Reserves : Type 0 where
  pub cpu_cores : ℕ
  pub ram_bytes : ℕ
  pub vram_mb : ℕ
  pub max_pinned_ram_bytes : ℕ
  pub max_parallel_heavy_jobs : ℕ
  pub max_concurrent_reads : ℕ
  pub max_concurrent_writes : ℕ

vram_budgets : ℕ → List Gpu → Dict ℕ ℕ
vram_budgets reserve [] = []
vram_budgets reserve (g ∷ gs) =
    (g.index, min (g.total_vram_mb - reserve) (g.free_vram_mb - reserve)) ∷ vram_budgets reserve gs

heavy_budgets : ℕ → List Gpu → Dict ℕ ℕ
heavy_budgets n [] = []
heavy_budgets n (g ∷ gs) = (g.index, n) ∷ heavy_budgets n gs

-- `max(0, a - b)` is `a - b` on ℕ.
abbrev budgeted : Inventory → Reserves → ResourceLimits
budgeted inventory r =
    let ram = min (inventory.total_bytes - r.ram_bytes) (inventory.available_bytes - r.ram_bytes) in
    record {
      cpu_cores = max 1 (inventory.physical_cores - r.cpu_cores);
      ram_bytes = ram;
      vram_mb_by_gpu = vram_budgets r.vram_mb inventory.gpus;
      pinned_ram_bytes = min r.max_pinned_ram_bytes ram;
      concurrent_reads = r.max_concurrent_reads;
      concurrent_writes = r.max_concurrent_writes;
      heavy_jobs_by_gpu = heavy_budgets r.max_parallel_heavy_jobs inventory.gpus;
    }

pub from_inventory : Inventory → Reserves → Result String ResourceLimits
from_inventory inventory r = do
  raise_if (ltb r.max_parallel_heavy_jobs 1) "max_parallel_heavy_jobs must be >= 1"
  check_limits (budgeted inventory r)
