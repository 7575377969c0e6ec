-- ===== src/Cache/Until.antt =====
-- What `evict_until` takes out of the cache, and what it leaves.
use comfy_ui_ng.Prelude.{
  ℕ, zero, suc, ◌-◌, ◌≤◌, ◌<◌, ◌≡◌, refl, ap, ◌∙◌, subst, arith, Bool-cases, List, [], ◌∷◌, ◌++◌,
  Option, none, some, ltb, Text, text_eq, length, inl, inr, All, ◌≟◌,
}
use comfy_ui_ng.Prelude.Dict.{Dict, lookup, delete, lookup_of_Mem}
use comfy_ui_ng.Prelude.Sort.{minimum, minimum-le, minimum-mem, minimum-nonempty}
use mathlib.Core.List.{Permᴰ}
use mathlib.Core.List.Permᴰ
use comfy_ui_ng.Cache.{CacheEntry, Stored, Cache, without, accessed_before, evicted}
use comfy_ui_ng.Cache.Accounting.{total_size, IsAccounted, without-Shrinks}
use comfy_ui_ng.Cache.Steps.{evicted_entries, evict_down, evict_until}
use comfy_ui_ng.Cache.Eviction.{accessed_before-IsOrder, accessed_before_refl, least_order}
use comfy_ui_ng.Cache.Bounds.{
  IsBounded, Shrinks-KeepsBounds, evict_down-Shrinks, evict_down-reaches,
}

-- The entries that are taken, each with its key.
abbrev pub Taken : Type 0
Taken = List (Text × Stored)

abbrev pub entries_of : Taken → List CacheEntry
entries_of [] = []
entries_of ((key, s) ∷ taken) = s.entry ∷ entries_of taken

-- Each entry that is taken was accessed no later than those taken after it and those kept.
abbrev pub OldestFirst : Taken → Dict Text Stored → Type 0
OldestFirst [] kept = Unit
OldestFirst ((key, s) ∷ taken) kept =
    All (λ q. s.access_order ≤ q.1.access_order) (taken ++ kept) × OldestFirst taken kept

-- Before each entry was taken, the bytes were above the target.
abbrev pub EachNeeded : (target_bytes bytes : ℕ) → Taken → Type 0
EachNeeded target_bytes bytes [] = Unit
EachNeeded target_bytes bytes ((key, s) ∷ taken) =
    (target_bytes < bytes) × EachNeeded target_bytes (bytes - s.entry.size_bytes) taken

-- The entries of the cache are those taken and those kept.
pub record IsEviction (c : Cache) (target_bytes : ℕ) (r : Cache × List CacheEntry) (taken : Taken)
    : Type 0 where
  pub returned : r.1 ≡ entries_of taken
  pub same : Permᴰ (taken ++ r.0.entries) c.entries
  pub oldest_first : OldestFirst taken r.0.entries
  pub each_needed : EachNeeded target_bytes c.bytes taken

Permᴰ-All : {A : Type 0} {xs ys : List A} (P : A → Type 0) → Permᴰ xs ys → All P xs → All P ys
Permᴰ-All P Permᴰ.nil h = tt
Permᴰ-All P (Permᴰ.cons e d) h = (subst P e h.0, Permᴰ-All P d h.1)
Permᴰ-All P (Permᴰ.swap e₁ e₂) h = (subst P e₂ h.1.0, (subst P e₁ h.0, h.1.1))
Permᴰ-All P (Permᴰ.trans d₁ d₂) h = Permᴰ-All P d₂ (Permᴰ-All P d₁ h)

delete-Permᴰ :
    (key : Text) (s : Stored) (d : Dict Text Stored)
    → lookup key d ≡ some s
    → Permᴰ ((key, s) ∷ delete key d) d
unfolding lookup delete
delete-Permᴰ key s [] h = absurd (cc)
delete-Permᴰ key s ((j, t) ∷ d) h = elim (Bool-cases (j ≟ key)) [
  | inl p ↦
      let found : some t ≡ some s = rw p at h in
      let same = (text_eq.beq-iff_eq j key).0 p in rw p (Permᴰ.cons (cc) (Permᴰ.refl d))
  | inr p ↦
      rw p (Permᴰ.trans (Permᴰ.swap refl refl) (Permᴰ.cons refl (delete-Permᴰ key s d (rw p at h))))
]

untaken : (c : Cache) (target_bytes : ℕ) → IsEviction c target_bytes (c, []) []
untaken c target_bytes = record {
  returned = refl;
  same = Permᴰ.refl c.entries;
  oldest_first = tt;
  each_needed = tt;
}

-- One more entry, the one that was accessed least recently, is taken before the others.
one_more :
    (c : Cache) (target_bytes : ℕ) (key : Text) (s : Stored) (r : Cache × List CacheEntry)
    (taken : Taken)
    → IsAccounted c
    → target_bytes < c.bytes
    → minimum accessed_before c.entries ≡ some (key, s)
    → IsEviction (without c key s) target_bytes r taken
    → IsEviction c target_bytes (r.0, s.entry ∷ r.1) ((key, s) ∷ taken)
one_more c target_bytes key s r taken a over m v =
    let least =
      least_order (key, s) c.entries
        (minimum-le accessed_before accessed_before-IsOrder accessed_before_refl c.entries (key, s)
          m) in
    let there =
      lookup_of_Mem key s c.entries a.unique (minimum-mem accessed_before c.entries (key, s) m) in
    let same = Permᴰ.trans (Permᴰ.cons refl v.same) (delete-Permᴰ key s c.entries there) in
    record {
      returned = ap (λ es. s.entry ∷ es) v.returned;
      same = same;
      oldest_first = (
        (Permᴰ-All (λ q. s.access_order ≤ q.1.access_order) (Permᴰ.symm same) least).1,
        v.oldest_first,
      );
      each_needed = (over, v.each_needed);
    }

evict_down-IsEviction :
    (rounds : ℕ) (c : Cache) (target_bytes : ℕ)
    → IsAccounted c
    → (taken : Taken) × IsEviction c target_bytes (evict_down rounds c target_bytes) taken
unfolding evict_down evicted evicted_entries total_size
evict_down-IsEviction zero c target_bytes a = ([], untaken c target_bytes)
evict_down-IsEviction (suc rounds) c target_bytes a = elim (Bool-cases (ltb target_bytes c.bytes)) [
  | inl p ↦
      let over : target_bytes < c.bytes = ground (arith, p) in
      rw p (
        go (λ c' a'. evict_down-IsEviction rounds c' target_bytes a')
          (minimum accessed_before c.entries) refl over)
  | inr p ↦ rw p ([], untaken c target_bytes)
]
  where
    go :
        ((c' : Cache)
          → IsAccounted c'
          → (taken : Taken) × IsEviction c' target_bytes (evict_down rounds c' target_bytes) taken)
        → (m : Option (Text × Stored)) → minimum accessed_before c.entries ≡ m
        → target_bytes < c.bytes
        → let rest = evict_down rounds (evicted c m) target_bytes in
          (taken : Taken) × IsEviction c target_bytes (rest.0, evicted_entries m rest.1) taken
    go recur none e over =
        let light : c.bytes ≡ 0 =
          a.exact ∙ ap total_size (minimum-nonempty accessed_before c.entries e) in
        absurd (omega arith)
    go recur (some (key, s)) e over =
        let there =
          lookup_of_Mem key s c.entries a.unique
            (minimum-mem accessed_before c.entries (key, s) e) in
        let once = without-Shrinks c key s a there in
        let (taken, v) = recur (without c key s) once.accounted in
        ((key, s) ∷ taken, one_more c target_bytes key s _ taken a over e v)

-- On a bounded cache `evict_until` always returns: it brings the bytes down to the target and keeps
-- the cache bounded. The entries it returns and those it leaves are together the entries of the
-- cache, each returned one was accessed no later than those returned after it and those left, and
-- before each was taken the bytes were above the target.
pub evict_until-IsEviction :
    (c : Cache) (target_bytes : ℕ)
    → IsBounded c
    → ((evict_until c target_bytes).0.bytes ≤ target_bytes)
      × IsBounded (evict_until c target_bytes).0
      × ((taken : Taken) × IsEviction c target_bytes (evict_until c target_bytes) taken)
unfolding evict_until
evict_until-IsEviction c target_bytes b =
    let s = evict_down-Shrinks (length c.entries) c target_bytes b.accounted in
    (
      evict_down-reaches (length c.entries) c target_bytes b.accounted (omega arith),
      (Shrinks-KeepsBounds c _ b s).0,
      evict_down-IsEviction (length c.entries) c target_bytes b.accounted,
    )
