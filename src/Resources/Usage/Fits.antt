-- ===== src/Resources/Usage/Fits.antt =====
-- An estimate without violations fits the limits.
use comfy_ui_ng.Prelude.{
  ℕ, ◌≤◌, ◌≡◌, ◌↔◌, refl, arith, Bool, true, false, List, [], ◌∷◌, ◌++◌, Option, none, some,
}
use comfy_ui_ng.Resources.Budgets.{Demand, ResourceLimits, vram_mb, heavy_jobs}
use comfy_ui_ng.Resources.Usage.{ResourceViolationCode, add_if, gpu_violations, gpu_part, lacks}

-- The GPU that a demand names has the memory and, for a heavy job, a free place.
abbrev pub FitsGpu : Demand → ResourceLimits → Option ℕ → Type 0
FitsGpu d l none = Unit
FitsGpu d l (some i) =
    (vram : ℕ) × (heavy : ℕ) × (vram_mb l i ≡ some vram)
    × (heavy_jobs l i ≡ some heavy)
    × (d.vram_mb ≤ vram)
    × (d.heavy_gpu ≡ true → 1 ≤ heavy)

pub record Fits (d : Demand) (l : ResourceLimits) : Type 0 where
  pub cpu : d.cpu_cores ≤ l.cpu_cores
  pub ram : d.ram_bytes ≤ l.ram_bytes
  pub pinned : d.pinned_ram_bytes ≤ l.pinned_ram_bytes
  pub reads : d.concurrent_reads ≤ l.concurrent_reads
  pub writes : d.concurrent_writes ≤ l.concurrent_writes
  pub gpu : FitsGpu d l d.gpu_index

nil_parts {ℓ} : {A : Type ℓ} (xs ys : List A) → xs ++ ys ≡ [] → (xs ≡ []) × (ys ≡ [])
nil_parts [] ys h = (refl, h)
nil_parts (x ∷ xs) ys h = cc

add_if-nil :
    (b now : Bool) (c : ResourceViolationCode) (n : ℕ) (a s g : Option ℕ)
    → add_if b now c n a s g ≡ []
    → b ≡ false
unfolding add_if
add_if-nil false now c n a s g h = refl
add_if-nil true now c n a s g h = cc

gpu_violations-FitsGpu :
    (now : Bool) (d : Demand) (l : ResourceLimits) (i : ℕ) (v h sv sh : Option ℕ)
    → vram_mb l i ≡ v
    → heavy_jobs l i ≡ h
    → gpu_violations now d i v h sv sh ≡ []
    → FitsGpu d l (some i)
unfolding gpu_violations
gpu_violations-FitsGpu now d l i (some v) (some h) sv sh ev eh e =
    (v, h, ev, eh, ground arith, ground arith)
gpu_violations-FitsGpu now d l i (some v) none sv sh ev eh e = cc
gpu_violations-FitsGpu now d l i none (some h) sv sh ev eh e = cc
gpu_violations-FitsGpu now d l i none none sv sh ev eh e = cc

gpu_part-FitsGpu :
    (now : Bool) (d : Demand) (l s : ResourceLimits) (g : Option ℕ)
    → gpu_part now d l s g ≡ []
    → FitsGpu d l g
unfolding gpu_part
gpu_part-FitsGpu now d l s none e = tt
gpu_part-FitsGpu now d l s (some i) e =
    gpu_violations-FitsGpu now d l i (vram_mb l i) (heavy_jobs l i) (vram_mb s i) (heavy_jobs s i)
      refl refl e

lacks→Fits : (now : Bool) (d : Demand) (l s : ResourceLimits) → lacks now d l s ≡ [] → Fits d l
unfolding lacks
lacks→Fits now d l s h =
    let (c, h1) = nil_parts _ _ h in
    let (r, h2) = nil_parts _ _ h1 in
    let (p, h3) = nil_parts _ _ h2 in
    let (x, h4) = nil_parts _ _ h3 in
    let (w, g) = nil_parts _ _ h4 in
    let c' = add_if-nil _ _ _ _ _ _ _ c in
    let r' = add_if-nil _ _ _ _ _ _ _ r in
    let p' = add_if-nil _ _ _ _ _ _ _ p in
    let x' = add_if-nil _ _ _ _ _ _ _ x in
    let w' = add_if-nil _ _ _ _ _ _ _ w in
    record {
      cpu = ground arith;
      ram = ground arith;
      pinned = ground arith;
      reads = ground arith;
      writes = ground arith;
      gpu = gpu_part-FitsGpu now d l s d.gpu_index g;
    }

gpu_part-nil :
    (now : Bool) (d : Demand) (l s : ResourceLimits) (g : Option ℕ)
    → FitsGpu d l g
    → gpu_part now d l s g ≡ []
unfolding gpu_part gpu_violations
gpu_part-nil now d l s none h = refl
gpu_part-nil now d l s (some i) (v, k, ev, ek, fv, fk) = rw (ev, ek) (ground arith)

Fits→lacks : (now : Bool) (d : Demand) (l s : ResourceLimits) → Fits d l → lacks now d l s ≡ []
unfolding lacks add_if
Fits→lacks now d l s f = ground (arith, gpu_part-nil now d l s d.gpu_index f.gpu)

-- A demand has no violation against limits exactly when it fits them.
pub lacks_iff : (now : Bool) (d : Demand) (l s : ResourceLimits) → (lacks now d l s ≡ []) ↔ Fits d l
lacks_iff now d l s = (lacks→Fits now d l s, Fits→lacks now d l s)
