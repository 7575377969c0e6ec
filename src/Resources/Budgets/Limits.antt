-- ===== src/Resources/Budgets/Limits.antt =====
-- Limits taken from an inventory.
use comfy_ui_ng.Prelude.{
  ℕ, ◌+◌, ◌-◌, ◌≤◌, ◌<◌, ◌≡◌, refl, sym, ap, subst, true, List, [], ◌∷◌, map, ok, arith,
  text_beq-iff_eq, is_ok, ◌↔◌,
}
use comfy_ui_ng.Prelude.Dict.{Dict, keys}
use comfy_ui_ng.Resources.Budgets.{
  Gpu, Inventory, Reserves, ResourceLimits, ascending, check_limits, vram_budgets, heavy_budgets,
  budgeted, from_inventory,
}

keys-vram_budgets : (r : ℕ) (gs : List Gpu) → keys (vram_budgets r gs) ≡ map (λ g. g.index) gs
unfolding vram_budgets
keys-vram_budgets r [] = refl
keys-vram_budgets r (g ∷ gs) = ap (◌∷◌ g.index) (keys-vram_budgets r gs)

keys-heavy_budgets : (n : ℕ) (gs : List Gpu) → keys (heavy_budgets n gs) ≡ map (λ g. g.index) gs
unfolding heavy_budgets
keys-heavy_budgets n [] = refl
keys-heavy_budgets n (g ∷ gs) = ap (◌∷◌ g.index) (keys-heavy_budgets n gs)

-- Every GPU keeps its reserve free: its limit and the reserve fit its total and its free memory, or
-- its limit is zero.
abbrev pub KeepsReserve : ℕ → List Gpu → Dict ℕ ℕ → Type 0
KeepsReserve r [] [] = Unit
KeepsReserve r [] (e ∷ d) = ⊥
KeepsReserve r (g ∷ gs) [] = ⊥
KeepsReserve r (g ∷ gs) ((i, limit) ∷ d) =
    (i ≡ g.index)
    × (limit ≤ g.total_vram_mb - r)
    × (limit ≤ g.free_vram_mb - r)
    × KeepsReserve r gs d

vram_budgets-KeepsReserve : (r : ℕ) (gs : List Gpu) → KeepsReserve r gs (vram_budgets r gs)
unfolding vram_budgets
vram_budgets-KeepsReserve r [] = tt
vram_budgets-KeepsReserve r (g ∷ gs) =
    (refl, omega arith, omega arith, vram_budgets-KeepsReserve r gs)

-- `from_inventory` succeeds exactly when at least one heavy job is allowed and the GPU indexes
-- ascend.
pub from_inventory_iff :
    (inventory : Inventory) (r : Reserves)
    → (is_ok (from_inventory inventory r) ≡ true)
      ↔ ((1 ≤ r.max_parallel_heavy_jobs) × (ascending (map (λ g. g.index) inventory.gpus) ≡ true))
unfolding from_inventory check_limits
from_inventory_iff inventory r =
    rw
      (
        keys-vram_budgets r.vram_mb inventory.gpus,
        keys-heavy_budgets r.max_parallel_heavy_jobs inventory.gpus,
      )
      (let same =
          (text_beq-iff_eq (map (λ g. g.index) inventory.gpus)
              (map (λ g. g.index) inventory.gpus)).1
            refl in
        (λ h. ground arith, λ h. ground arith))

-- What limits taken from an inventory leave to the host.
pub record IsBudget (inventory : Inventory) (r : Reserves) (l : ResourceLimits) : Type 0 where
  pub valid : check_limits l ≡ ok l
  pub cpu_pos : 1 ≤ l.cpu_cores
  pub cpu_reserve :
      r.cpu_cores < inventory.physical_cores → l.cpu_cores + r.cpu_cores ≡ inventory.physical_cores
  pub ram_total : l.ram_bytes ≤ inventory.total_bytes - r.ram_bytes
  pub ram_live : l.ram_bytes ≤ inventory.available_bytes - r.ram_bytes
  pub pinned_ram : l.pinned_ram_bytes ≤ l.ram_bytes
  pub pinned_cap : l.pinned_ram_bytes ≤ r.max_pinned_ram_bytes
  pub vram : KeepsReserve r.vram_mb inventory.gpus l.vram_mb_by_gpu

check_limits-same : (l l' : ResourceLimits) → check_limits l ≡ ok l' → l' ≡ l
unfolding check_limits
check_limits-same l l' h = ground arith

budgeted-IsBudget :
    (inventory : Inventory) (r : Reserves)
    → check_limits (budgeted inventory r) ≡ ok (budgeted inventory r)
    → IsBudget inventory r (budgeted inventory r)
budgeted-IsBudget inventory r h = record {
  valid = h;
  cpu_pos = omega arith;
  cpu_reserve = λ k. omega arith;
  ram_total = omega arith;
  ram_live = omega arith;
  pinned_ram = omega arith;
  pinned_cap = omega arith;
  vram = vram_budgets-KeepsReserve r.vram_mb inventory.gpus;
}

-- Limits taken from an inventory pass their own guards, leave the reserved cores, memory and VRAM to
-- the host (but at least one core to the jobs), and pin no more than the memory limit and the cap.
pub from_inventory-IsBudget :
    (inventory : Inventory) (r : Reserves) (l : ResourceLimits)
    → from_inventory inventory r ≡ ok l
    → IsBudget inventory r l
unfolding from_inventory
from_inventory-IsBudget inventory r l h =
    let checked : check_limits (budgeted inventory r) ≡ ok l = ground arith in
    let same = check_limits-same (budgeted inventory r) l checked in
    subst (IsBudget inventory r) (sym same) (
      budgeted-IsBudget inventory r
        (subst (λ k. check_limits (budgeted inventory r) ≡ ok k) same checked))
