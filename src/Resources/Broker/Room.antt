-- ===== src/Resources/Broker/Room.antt =====
-- What is reserved, against the limits: a demand that fits what is available fits beside it.
use comfy_ui_ng.Prelude.{
  ℕ, ◌+◌, ◌-◌, ◌≤◌, ◌==◌, ◌≡◌, refl, ap, subst, arith, ◌&&◌, Bool-cases, [], ◌∷◌, ◌++◌, Option,
  none, some, nat_eq, inl, inr,
}
use comfy_ui_ng.Prelude.Dict.{
  Dict, lookup, insert, delete, Absent, UniqueKeys, insert_of_Absent, insert-UniqueKeys,
  delete-UniqueKeys,
}
use comfy_ui_ng.Resources.Budgets.{Demand, demand, ResourceLimits, vram_mb, heavy_jobs}
use comfy_ui_ng.Resources.Usage.{
  ResourceReservation, Reservations, total, vram_on, heavy_on, remaining, available,
}
use comfy_ui_ng.Resources.Usage.Fits.{Fits, FitsGpu}

-- A GPU that the limits lack offers nothing.
abbrev pub or_zero : Option ℕ → ℕ
or_zero none = 0
or_zero (some n) = n

-- All that is reserved is within the limits, for each resource and each GPU.
pub record WithinLimits (l : ResourceLimits) (rs : Reservations) : Type 0 where
  pub unique : UniqueKeys rs
  pub cpu : total (λ d. d.cpu_cores) rs ≤ l.cpu_cores
  pub ram : total (λ d. d.ram_bytes) rs ≤ l.ram_bytes
  pub pinned : total (λ d. d.pinned_ram_bytes) rs ≤ l.pinned_ram_bytes
  pub reads : total (λ d. d.concurrent_reads) rs ≤ l.concurrent_reads
  pub writes : total (λ d. d.concurrent_writes) rs ≤ l.concurrent_writes
  pub vram : (i : ℕ) → total (vram_on i) rs ≤ or_zero (vram_mb l i)
  pub heavy : (i : ℕ) → total (heavy_on i) rs ≤ or_zero (heavy_jobs l i)

total-append :
    (f : Demand → ℕ) (rs : Reservations) (id : ℕ) (r : ResourceReservation)
    → total f (rs ++ (id, r) ∷ []) ≡ total f rs + f (demand r.estimate)
unfolding total
total-append f [] id r = omega arith
total-append f ((j, s) ∷ rs) id r = omega (arith, total-append f rs id r)

total-insert :
    (f : Demand → ℕ) (rs : Reservations) (id : ℕ) (r : ResourceReservation)
    → Absent id rs
    → total f (insert id r rs) ≡ total f rs + f (demand r.estimate)
total-insert f rs id r a = rw (insert_of_Absent id r rs a) (total-append f rs id r)

total-delete : (f : Demand → ℕ) (rs : Reservations) (id : ℕ) → total f (delete id rs) ≤ total f rs
unfolding total delete
total-delete f [] id = omega arith
total-delete f ((j, s) ∷ rs) id = ground (arith, total-delete f rs id)

-- What fits in the rest of an entry fits beside what is used of it.
lookup-remaining :
    (used : ℕ → ℕ) (i v x : ℕ) (d : Dict ℕ ℕ)
    → lookup i (remaining used d) ≡ some v
    → x ≤ v
    → used i ≤ or_zero (lookup i d)
    → used i + x ≤ or_zero (lookup i d)
unfolding lookup remaining
lookup-remaining used i v x [] h le u = absurd (cc)
lookup-remaining used i v x ((j, limit) ∷ d) h le u = elim (Bool-cases (j == i)) [
  | inl p ↦
      let same : j ≡ i = ground arith in
      let found : some (limit - used j) ≡ some v = rw p at h in
      let used_j : used j ≡ used i = ap used same in
      let u' : used i ≤ limit = rw p at u in rw p (ground arith)
  | inr p ↦ rw p (lookup-remaining used i v x d (rw p at h) le (rw p at u))
]

vram_room :
    (d : Demand) (l : ResourceLimits) (rs : Reservations) (i : ℕ) (g : Option ℕ)
    → d.gpu_index ≡ g
    → FitsGpu d (available l rs) g
    → total (vram_on i) rs ≤ or_zero (vram_mb l i)
    → total (vram_on i) rs + vram_on i d ≤ or_zero (vram_mb l i)
unfolding vram_on available vram_mb
vram_room d l rs i none e fit within = rw e (omega arith)
vram_room d l rs i (some j) e (v, h, found, found', le, one) within = elim (Bool-cases (j == i)) [
  | inl p ↦
      rw (e, p)
        (lookup-remaining (λ k. total (vram_on k) rs) i v d.vram_mb l.vram_mb_by_gpu
          (subst (λ k. lookup k (remaining (λ n. total (vram_on n) rs) l.vram_mb_by_gpu) ≡ some v)
            (ground arith) found)
          le within)
  | inr p ↦ rw (e, p) (omega arith)
]

heavy_room :
    (d : Demand) (l : ResourceLimits) (rs : Reservations) (i : ℕ) (g : Option ℕ)
    → d.gpu_index ≡ g
    → FitsGpu d (available l rs) g
    → total (heavy_on i) rs ≤ or_zero (heavy_jobs l i)
    → total (heavy_on i) rs + heavy_on i d ≤ or_zero (heavy_jobs l i)
unfolding heavy_on available heavy_jobs
heavy_room d l rs i none e fit within = rw e (omega arith)
heavy_room d l rs i (some j) e (v, h, found, found', le, one) within =
    elim (Bool-cases ((j == i) && d.heavy_gpu)) [
      | inl p ↦
          rw (e, p)
            (lookup-remaining (λ k. total (heavy_on k) rs) i h 1 l.heavy_jobs_by_gpu
              (subst
                (λ k.
                  lookup k (remaining (λ n. total (heavy_on n) rs) l.heavy_jobs_by_gpu) ≡ some h)
                (ground arith) found')
              (one (ground arith)) within)
      | inr p ↦ rw (e, p) (omega arith)
    ]

pub insert-WithinLimits :
    (l : ResourceLimits) (rs : Reservations) (id : ℕ) (r : ResourceReservation)
    → Absent id rs
    → Fits (demand r.estimate) (available l rs)
    → WithinLimits l rs
    → WithinLimits l (insert id r rs)
unfolding available
insert-WithinLimits l rs id r a fit w = record {
  unique = insert-UniqueKeys id r rs w.unique;
  cpu = rw (total-insert (λ d. d.cpu_cores) rs id r a) (omega (arith, fit.cpu, w.cpu));
  ram = rw (total-insert (λ d. d.ram_bytes) rs id r a) (omega (arith, fit.ram, w.ram));
  pinned =
      rw (total-insert (λ d. d.pinned_ram_bytes) rs id r a) (omega (arith, fit.pinned, w.pinned));
  reads = rw (total-insert (λ d. d.concurrent_reads) rs id r a) (omega (arith, fit.reads, w.reads));
  writes =
      rw (total-insert (λ d. d.concurrent_writes) rs id r a) (omega (arith, fit.writes, w.writes));
  vram = λ i.
      rw (total-insert (vram_on i) rs id r a) (
        vram_room (demand r.estimate) l rs i (demand r.estimate).gpu_index refl fit.gpu (w.vram i));
  heavy = λ i. rw (total-insert (heavy_on i) rs id r a) (
      heavy_room (demand r.estimate) l rs i (demand r.estimate).gpu_index refl fit.gpu (w.heavy i));
}

pub delete-WithinLimits :
    (l : ResourceLimits) (rs : Reservations) (id : ℕ)
    → WithinLimits l rs
    → WithinLimits l (delete id rs)
delete-WithinLimits l rs id w = record {
  unique = delete-UniqueKeys id rs w.unique;
  cpu = omega (arith, total-delete (λ d. d.cpu_cores) rs id, w.cpu);
  ram = omega (arith, total-delete (λ d. d.ram_bytes) rs id, w.ram);
  pinned = omega (arith, total-delete (λ d. d.pinned_ram_bytes) rs id, w.pinned);
  reads = omega (arith, total-delete (λ d. d.concurrent_reads) rs id, w.reads);
  writes = omega (arith, total-delete (λ d. d.concurrent_writes) rs id, w.writes);
  vram = λ i. omega (arith, total-delete (vram_on i) rs id, w.vram i);
  heavy = λ i. omega (arith, total-delete (heavy_on i) rs id, w.heavy i);
}
