-- ===== src/Cache/Accounting.antt =====
-- The cache counts its bytes exactly, and the eviction ends within the limits.
use comfy_ui_ng.Prelude.{
  ℕ, zero, suc, ◌+◌, ◌-◌, ◌≤◌, ◌≡◌, refl, ap, ◌∙◌, arith, false, Bool-cases, List, [], ◌∷◌, Option,
  none, some, Text, text_eq, length, inl, inr,
}
use comfy_ui_ng.Prelude.Dict.{
  Dict, lookup, insert, delete, Absent, UniqueKeys, delete-UniqueKeys, length-delete, lookup_of_Mem,
}
use comfy_ui_ng.Prelude.Sort.{minimum, minimum-mem, minimum-nonempty}
use comfy_ui_ng.Cache.{
  Stored, Cache, without, discard_found, discard, discard_all, accessed_before, over_limits,
  evicted, evict,
}

unfoldable pub total_size : Dict Text Stored → ℕ
total_size [] = 0
total_size ((key, s) ∷ d) = s.entry.size_bytes + total_size d

-- One entry for each key, and exact bytes.
pub record IsAccounted (c : Cache) : Type 0 where
  pub unique : UniqueKeys c.entries
  pub exact : c.bytes ≡ total_size c.entries

total_size-delete :
    (key : Text) (s : Stored) (d : Dict Text Stored)
    → lookup key d ≡ some s
    → total_size (delete key d) + s.entry.size_bytes ≡ total_size d
unfolding total_size lookup delete
total_size-delete key s [] h = cc
total_size-delete key s ((j, t) ∷ d) h = ground (arith, total_size-delete key s d)

pub total_size-insert :
    (key : Text) (s : Stored) (d : Dict Text Stored)
    → Absent key d
    → total_size (insert key s d) ≡ total_size d + s.entry.size_bytes
unfolding total_size insert
total_size-insert key s [] a = omega arith
total_size-insert key s ((j, t) ∷ d) a = ground (arith, total_size-insert key s d a.1)

pub total_size-replace :
    (key : Text) (s t : Stored) (d : Dict Text Stored)
    → lookup key d ≡ some s
    → s.entry.size_bytes ≡ t.entry.size_bytes
    → total_size (insert key t d) ≡ total_size d
unfolding total_size insert lookup
total_size-replace key s t [] h e = cc
total_size-replace key s t ((j, u) ∷ d) h e = ground (arith, total_size-replace key s t d)

pub length-replace :
    (key : Text) (s t : Stored) (d : Dict Text Stored)
    → lookup key d ≡ some s
    → length (insert key t d) ≡ length d
unfolding insert lookup
length-replace key s t [] h = cc
length-replace key s t ((j, u) ∷ d) h = ground (arith, length-replace key s t d)

-- A smaller cache: accounted, with the same limits and no more entries or bytes.
pub record Shrinks (c c' : Cache) : Type 0 where
  pub accounted : IsAccounted c'
  pub same_entries : c'.max_entries ≡ c.max_entries
  pub same_bytes : c'.max_bytes ≡ c.max_bytes
  pub fewer : length c'.entries ≤ length c.entries
  pub lighter : c'.bytes ≤ c.bytes

pub Shrinks-refl : (c : Cache) → IsAccounted c → Shrinks c c
Shrinks-refl c a = record {
  accounted = a;
  same_entries = refl;
  same_bytes = refl;
  fewer = omega arith;
  lighter = omega arith;
}

pub Shrinks-trans : (c d e : Cache) → Shrinks c d → Shrinks d e → Shrinks c e
Shrinks-trans c d e s t = record {
  accounted = t.accounted;
  same_entries = cc;
  same_bytes = cc;
  fewer = omega (arith, s.fewer, t.fewer);
  lighter = omega (arith, s.lighter, t.lighter);
}

pub without-Shrinks :
    (c : Cache) (key : Text) (s : Stored)
    → IsAccounted c
    → lookup key c.entries ≡ some s
    → Shrinks c (without c key s)
without-Shrinks c key s a h = record {
  accounted = record {
    unique = delete-UniqueKeys key c.entries a.unique;
    exact = omega (arith, a.exact, total_size-delete key s c.entries h);
  };
  same_entries = refl;
  same_bytes = refl;
  fewer = omega (arith, length-delete key c.entries s h);
  lighter = omega arith;
}

pub discard-Shrinks : (c : Cache) (key : Text) → IsAccounted c → Shrinks c (discard c key)
unfolding discard discard_found
discard-Shrinks c key a = found (lookup key c.entries) refl
  where
    found : (s : Option Stored) → lookup key c.entries ≡ s → Shrinks c (discard_found c key s)
    found none h = Shrinks-refl c a
    found (some s) h = without-Shrinks c key s a h

pub discard_all-Shrinks :
    (c : Cache) (keys : List Text) → IsAccounted c → Shrinks c (discard_all c keys)
unfolding discard_all
discard_all-Shrinks c [] a = Shrinks-refl c a
discard_all-Shrinks c (key ∷ keys) a =
    let once = discard-Shrinks c key a in
    Shrinks-trans c (discard c key) (discard_all (discard c key) keys) once
      (discard_all-Shrinks (discard c key) keys once.accounted)

-- A round of the eviction removes an entry, if there is one.
pub evicted-Shrinks :
    (c : Cache)
    → IsAccounted c
    → Shrinks c (evicted c (minimum accessed_before c.entries))
      × (length (evicted c (minimum accessed_before c.entries)).entries ≡ length c.entries - 1)
unfolding evicted
evicted-Shrinks c a = found (minimum accessed_before c.entries) refl
  where
    found :
        (m : Option (Text × Stored))
        → minimum accessed_before c.entries ≡ m
        → Shrinks c (evicted c m) × (length (evicted c m).entries ≡ length c.entries - 1)
    found none h = (Shrinks-refl c a, rw (minimum-nonempty accessed_before c.entries h) refl)
    found (some (key, s)) h =
        let there =
          lookup_of_Mem key s c.entries a.unique
            (minimum-mem accessed_before c.entries (key, s) h) in
        (without-Shrinks c key s a there, omega (arith, length-delete key c.entries s there))

pub evict-Shrinks : (rounds : ℕ) (c : Cache) → IsAccounted c → Shrinks c (evict rounds c)
unfolding evict
evict-Shrinks zero c a = Shrinks-refl c a
evict-Shrinks (suc rounds) c a = elim (Bool-cases (over_limits c)) [
  | inl p ↦
      let (once, _) = evicted-Shrinks c a in
      rw p (Shrinks-trans c _ _ once (evict-Shrinks rounds _ once.accounted))
  | inr p ↦ rw p (Shrinks-refl c a)
]

pub no_entries : (d : Dict Text Stored) → length d ≤ 0 → d ≡ []
no_entries [] h = refl
no_entries (x ∷ d) h = absurd (omega (arith, h))

-- As many rounds as there are entries are enough.
pub evict-within :
    (rounds : ℕ) (c : Cache)
    → IsAccounted c
    → length c.entries ≤ rounds
    → over_limits (evict rounds c) ≡ false
unfolding evict over_limits total_size
evict-within zero c a h =
    let empty = no_entries c.entries h in
    let light : c.bytes ≡ 0 = a.exact ∙ ap total_size empty in
    let few : length c.entries ≡ 0 = ap length empty in ground arith
evict-within (suc rounds) c a h = elim (Bool-cases (over_limits c)) [
  | inl p ↦
      let (once, left) = evicted-Shrinks c a in
      rw p (evict-within rounds _ once.accounted (omega (arith, left, h)))
  | inr p ↦ rw p p
]
