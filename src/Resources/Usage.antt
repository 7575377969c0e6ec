-- ===== src/Resources/Usage.antt =====
-- resources/broker.py: violations, reservations, what the reservations use and what an estimate
-- lacks. UUIDs are numbers. `object` is the identity of a ResourceReservation object.
use comfy_ui_ng.Prelude.{
  ℕ, ◌+◌, ◌-◌, Bool, true, false, ◌&&◌, List, [], ◌∷◌, ◌++◌, Option, none, some, ltb, leb,
  if◌then◌else◌, option_beq, nat_eq, Text, codes,
}
use comfy_ui_ng.Prelude.Dict.{Dict}
use comfy_ui_ng.Resources.Budgets.{
  Demand, ResourceEstimate, demand, ResourceLimits, vram_mb, heavy_jobs,
}
pub mod Fits

pub data ResourceViolationCode : Type 0 where
  cpu_cores ram_bytes pinned_ram_bytes concurrent_reads concurrent_writes : ResourceViolationCode
  gpu_unavailable gpu_vram gpu_heavy_jobs : ResourceViolationCode

pub record ResourceViolation : Type 0 where
  pub code : ResourceViolationCode
  pub requested : ℕ
  pub available : Option ℕ
  pub transient : Bool
  pub gpu_index : Option ℕ

pub record ResourceReservation : Type 0 where
  pub object : ℕ
  pub reservation_id : ℕ
  pub estimate : ResourceEstimate

abbrev pub Reservations : Type 0
Reservations = Dict ℕ ResourceReservation

-- One of the sums of `_used`.
unfoldable pub total : (Demand → ℕ) → Reservations → ℕ
total f [] = 0
total f ((id, r) ∷ rs) = f (demand r.estimate) + total f rs

-- `vram[item.gpu_index] += item.vram_mb` for the GPU with the index. On a GPU that the limits lack
-- the source would raise KeyError; no such reservation is ever made.
unfoldable pub vram_on : ℕ → Demand → ℕ
vram_on i d = if option_beq d.gpu_index (some i) then d.vram_mb else 0

-- `heavy[item.gpu_index] += int(item.heavy_gpu)`
unfoldable pub heavy_on : ℕ → Demand → ℕ
heavy_on i d = if option_beq d.gpu_index (some i) && d.heavy_gpu then 1 else 0

-- `(index, max(0, limit - used[index]))` for each GPU.
unfoldable pub remaining : (ℕ → ℕ) → Dict ℕ ℕ → Dict ℕ ℕ
remaining used [] = []
remaining used ((i, limit) ∷ d) = (i, limit - used i) ∷ remaining used d

-- `available`. The difference is cut at 0, as the source does by `max`.
unfoldable pub available : ResourceLimits → Reservations → ResourceLimits
available limits rs = record {
  cpu_cores = limits.cpu_cores - total (λ d. d.cpu_cores) rs;
  ram_bytes = limits.ram_bytes - total (λ d. d.ram_bytes) rs;
  vram_mb_by_gpu = remaining (λ i. total (vram_on i) rs) limits.vram_mb_by_gpu;
  pinned_ram_bytes = limits.pinned_ram_bytes - total (λ d. d.pinned_ram_bytes) rs;
  concurrent_reads = limits.concurrent_reads - total (λ d. d.concurrent_reads) rs;
  concurrent_writes = limits.concurrent_writes - total (λ d. d.concurrent_writes) rs;
  heavy_jobs_by_gpu = remaining (λ i. total (heavy_on i) rs) limits.heavy_jobs_by_gpu;
}

within : Option ℕ → ℕ → Bool
within none n = false
within (some limit) n = leb n limit

-- `if test: add(…)`; `static` is what the limits allow with nothing reserved.
add_if :
    Bool
    → Bool
    → ResourceViolationCode
    → ℕ
    → (available static : Option ℕ) → Option ℕ
    → List ResourceViolation
add_if false against_current code requested available static gpu = []
add_if true against_current code requested available static gpu =
    (record {
      code = code;
      requested = requested;
      available = available;
      transient = against_current && within static requested;
      gpu_index = gpu;
    })
    ∷ []

-- The `else` branch of the GPU's part of `_diagnostics`, or the missing GPU.
gpu_violations :
    Bool → Demand → ℕ → (vram heavy static_vram static_heavy : Option ℕ) → List ResourceViolation
unfolding add_if
gpu_violations against_current d i (some vram) (some heavy) static_vram static_heavy =
    add_if (ltb vram d.vram_mb) against_current gpu_vram d.vram_mb (some vram) static_vram (some i)
    ++ add_if (d.heavy_gpu && ltb heavy 1) against_current gpu_heavy_jobs 1 (some heavy)
        static_heavy (some i)
gpu_violations against_current d i _ _ static_vram static_heavy =
    add_if true against_current gpu_unavailable d.vram_mb none none (some i)

gpu_part : Bool → Demand → (limits static : ResourceLimits) → Option ℕ → List ResourceViolation
gpu_part against_current d limits static none = []
gpu_part against_current d limits static (some i) =
    gpu_violations against_current d i (vram_mb limits i) (heavy_jobs limits i) (vram_mb static i)
      (heavy_jobs static i)

-- `_diagnostics` of a demand against some limits, the current or the static ones.
pub lacks : Bool → Demand → (limits static : ResourceLimits) → List ResourceViolation
lacks now d limits static =
    add_if (ltb limits.cpu_cores d.cpu_cores) now cpu_cores d.cpu_cores (some limits.cpu_cores)
      (some static.cpu_cores) none
    ++ (add_if (ltb limits.ram_bytes d.ram_bytes) now ram_bytes d.ram_bytes (some limits.ram_bytes)
          (some static.ram_bytes) none
        ++ (add_if (ltb limits.pinned_ram_bytes d.pinned_ram_bytes) now pinned_ram_bytes
              d.pinned_ram_bytes (some limits.pinned_ram_bytes) (some static.pinned_ram_bytes) none
            ++ (add_if (ltb limits.concurrent_reads d.concurrent_reads) now concurrent_reads
                  d.concurrent_reads (some limits.concurrent_reads) (some static.concurrent_reads)
                  none
                ++ (add_if (ltb limits.concurrent_writes d.concurrent_writes) now concurrent_writes
                      d.concurrent_writes (some limits.concurrent_writes)
                      (some static.concurrent_writes) none
                    ++ gpu_part now d limits static d.gpu_index))))

-- `_diagnostics`
unfoldable pub diagnostics :
    ResourceLimits
    → Reservations
    → ResourceEstimate
    → (against_current : Bool) → List ResourceViolation
diagnostics limits rs e against_current =
    lacks against_current (demand e) (if against_current then available limits rs else limits)
      limits

-- `f"gpu[{self.gpu_index}].…"`; `decimal` is `str` of an integer.
on_gpu : (ℕ → Text) → Option ℕ → Text → Text
on_gpu decimal none name = codes "gpu[None]." ++ name
on_gpu decimal (some i) name = codes "gpu[" ++ (decimal i ++ (codes "]." ++ name))

-- `ResourceViolation.path`
unfoldable pub path : (ℕ → Text) → ResourceViolation → Text
unfolding on_gpu
path decimal v = elim v.code [
  | cpu_cores ↦ codes "cpu_cores"
  | ram_bytes ↦ codes "ram_bytes"
  | pinned_ram_bytes ↦ codes "pinned_ram_bytes"
  | concurrent_reads ↦ codes "concurrent_reads"
  | concurrent_writes ↦ codes "concurrent_writes"
  | gpu_unavailable ↦ on_gpu decimal v.gpu_index (codes "unavailable")
  | gpu_vram ↦ on_gpu decimal v.gpu_index (codes "vram_mb")
  | gpu_heavy_jobs ↦ on_gpu decimal v.gpu_index (codes "heavy_jobs")
]
