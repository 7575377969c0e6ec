-- ===== src/Cache/Eviction.antt =====
-- The eviction takes the entries that were accessed least recently, so the newest one stays.
use comfy_ui_ng.Prelude.{
  ℕ, zero, suc, ◌+◌, ◌≤◌, ◌<◌, ◌≡◌, ◌≢◌, refl, sym, ap, ◌∙◌, subst, arith, true, false, Bool-cases,
  [], ◌∷◌, Option, none, some, Text, text_eq, text_leb_total, text_leb_trans, text_leb_refl, length,
  inl, inr, All, ≟_refl, ◌≟◌,
}
use comfy_ui_ng.Prelude.Dict.{Dict, lookup, UniqueKeys, lookup-delete, delete-All, lookup_of_Mem}
use comfy_ui_ng.Prelude.Sort.{IsOrder, lex_total, lex_trans, minimum, minimum-le, minimum-mem}
use comfy_ui_ng.Cache.{Stored, Cache, accessed_before, over_limits, evicted, evict}
use comfy_ui_ng.Cache.Accounting.{total_size, IsAccounted, without-Shrinks}

pub accessed_before-IsOrder : IsOrder accessed_before
unfolding accessed_before
accessed_before-IsOrder = record {
  total = λ a b. lex_total a.1.access_order b.1.access_order _ _ (text_leb_total a.0 b.0);
  trans = λ a b c.
      lex_trans a.1.access_order b.1.access_order c.1.access_order _ _ _
        (text_leb_trans a.0 b.0 c.0);
}

pub accessed_before_refl : (a : Text × Stored) → accessed_before a a ≡ true
unfolding accessed_before
accessed_before_refl (key, s) = ground (arith, text_leb_refl key)

-- All that stands under other keys was accessed before the entry.
abbrev pub IsNewest : Text → Stored → Dict Text Stored → Type 0
IsNewest key s d = All (λ p. p.0 ≢ key → p.1.access_order < s.access_order) d

only_key :
    (key : Text) (s : Stored) (d : Dict Text Stored)
    → UniqueKeys d
    → All (λ p. p.0 ≡ key) d
    → lookup key d ≡ some s
    → d ≡ (key, s) ∷ []
unfolding lookup
only_key key s [] u h e = absurd (cc)
only_key key s ((j, t) ∷ []) u h e =
    let hit : (j ≟ key) ≡ true = rw h.0 (≟_refl key) in
    let same : some t ≡ some s = rw hit at e in let k = h.0 in cc
only_key key s ((j, t) ∷ (i, r) ∷ d) u h e =
    let hit : (i ≟ j) ≡ true = rw (h.0, h.1.0) (≟_refl key) in let miss = u.0.0 in absurd (cc)

keys_or_before :
    (key : Text) (s : Stored) (least : ℕ) (d : Dict Text Stored)
    → IsNewest key s d
    → s.access_order ≤ least
    → All (λ p. least ≤ p.1.access_order) d
    → All (λ p. p.0 ≡ key) d
keys_or_before key s least [] n le h = tt
keys_or_before key s least ((j, t) ∷ d) n le h = (
  elim (Bool-cases (j ≟ key)) [
    | inl p ↦ (text_eq.beq-iff_eq j key).0 p
    | inr p ↦
        let before =
          n.0 (λ q. absurd (let hit : (j ≟ key) ≡ true = (text_eq.beq-iff_eq j key).1 q in cc)) in
        absurd (omega (arith, before, le, h.0))
  ],
  keys_or_before key s least d n.1 le h.1,
)

pub least_order :
    (m : Text × Stored) (d : Dict Text Stored)
    → All (λ q. accessed_before m q ≡ true) d
    → All (λ q. m.1.access_order ≤ q.1.access_order) d
unfolding accessed_before
least_order m [] h = tt
least_order m (q ∷ d) h = (ground (arith, h.0), least_order m d h.1)

-- A cache whose newest entry stands under the key and fits, and that may hold an entry.
pub record Holds (c : Cache) (key : Text) (s : Stored) : Type 0 where
  pub accounted : IsAccounted c
  pub room : 1 ≤ c.max_entries
  pub fits : s.entry.size_bytes ≤ c.max_bytes
  pub found : lookup key c.entries ≡ some s
  pub newest : IsNewest key s c.entries

-- Alone, the entry is within the limits.
alone :
    (c : Cache) (key : Text) (s : Stored)
    → Holds c key s
    → c.entries ≡ (key, s) ∷ []
    → over_limits c ≡ false
unfolding over_limits total_size
alone c key s h e =
    let room = h.room in
    let fits = h.fits in
    let weight : c.bytes ≡ s.entry.size_bytes + 0 = h.accounted.exact ∙ ap total_size e in
    let count : length c.entries ≡ 1 = ap length e in ground arith

-- Over the limits, the entry that was accessed first is another one.
oldest_other :
    (c : Cache) (key j : Text) (s t : Stored)
    → Holds c key s
    → over_limits c ≡ true
    → minimum accessed_before c.entries ≡ some (j, t)
    → (j ≟ key) ≡ false
oldest_other c key j s t h over m = elim (Bool-cases (j ≟ key)) [
  | inr p ↦ p
  | inl p ↦
      let same : j ≡ key = (text_eq.beq-iff_eq j key).0 p in
      let there =
        lookup_of_Mem j t c.entries h.accounted.unique
          (minimum-mem accessed_before c.entries (j, t) m) in
      let there' : lookup key c.entries ≡ some t =
        subst (λ k. lookup k c.entries ≡ some t) same there in
      let stored : some s ≡ some t = sym h.found ∙ there' in
      let entry : s ≡ t = cc in
      let least =
        least_order (j, t) c.entries
          (minimum-le accessed_before accessed_before-IsOrder accessed_before_refl c.entries (j, t)
            m) in
      let order : s.access_order ≤ t.access_order = rw entry (omega arith) in
      let keys = keys_or_before key s t.access_order c.entries h.newest order least in
      let within = alone c key s h (only_key key s c.entries h.accounted.unique keys h.found) in
      absurd (cc)
]

evicted-Holds :
    (c : Cache) (key : Text) (s : Stored) (m : Option (Text × Stored))
    → Holds c key s
    → over_limits c ≡ true
    → minimum accessed_before c.entries ≡ m
    → Holds (evicted c m) key s
unfolding evicted
evicted-Holds c key s none h over e = h
evicted-Holds c key s (some (j, t)) h over e =
    let other = oldest_other c key j s t h over e in
    let there =
      lookup_of_Mem j t c.entries h.accounted.unique
        (minimum-mem accessed_before c.entries (j, t) e) in
    record {
      accounted = (without-Shrinks c j t h.accounted there).accounted;
      room = h.room;
      fits = h.fits;
      found = rw (lookup-delete j key c.entries h.accounted.unique, other) h.found;
      newest = delete-All (λ p. p.0 ≢ key → p.1.access_order < s.access_order) j c.entries h.newest;
    }

pub evict-Holds :
    (rounds : ℕ) (c : Cache) (key : Text) (s : Stored)
    → Holds c key s
    → lookup key (evict rounds c).entries ≡ some s
unfolding evict
evict-Holds zero c key s h = h.found
evict-Holds (suc rounds) c key s h = elim (Bool-cases (over_limits c)) [
  | inl p ↦ rw p (evict-Holds rounds _ key s (evicted-Holds c key s _ h p refl))
  | inr p ↦ rw p h.found
]
