-- ===== src/Json/Freeze.antt =====
-- What `freeze_json_value` accepts and what it returns.
use comfy_ui_ng.Prelude.{
  ℕ, ◌+◌, ◌≡◌, refl, Bool, true, false, ◌&&◌, ◌↔◌, [], ◌∷◌, ◌++◌, none, some, ok, inl, inr, arith,
  Bool-cases, is_ok,
}
use comfy_ui_ng.Json.{
  Value, null, boolean, string, integer, double, sequence, object, foreign, Items, nil, item,
  Fields, end, field, tuple, frozen_dict, index, key, JsonPath, encodes, in_json_range, is_finite,
  freeze, freeze_items, freeze_fields,
}

-- An independent description of the values that strict JSON keeps unchanged.
mutual
  pub stable : Value → Bool
  stable null = true
  stable (boolean b) = true
  stable (string s) = encodes s
  stable (integer i) = in_json_range i
  stable (double d) = is_finite d
  stable (sequence t xs) = stable_items xs
  stable (object t fs) = stable_fields fs
  stable (foreign n) = false

  pub stable_items : Items → Bool
  stable_items nil = true
  stable_items (item x xs) = stable x && stable_items xs

  pub stable_fields : Fields → Bool
  stable_fields end = true
  stable_fields (field none x fs) = false
  stable_fields (field (some k) x fs) = encodes k && stable x && stable_fields fs

-- The same content in the canonical containers.
mutual
  pub canonical : Value → Value
  canonical null = null
  canonical (boolean b) = boolean b
  canonical (string s) = string s
  canonical (integer i) = integer i
  canonical (double d) = double d
  canonical (sequence t xs) = sequence tuple (canonical_items xs)
  canonical (object t fs) = object frozen_dict (canonical_fields fs)
  canonical (foreign n) = foreign n

  pub canonical_items : Items → Items
  canonical_items nil = nil
  canonical_items (item x xs) = item (canonical x) (canonical_items xs)

  pub canonical_fields : Fields → Fields
  canonical_fields end = end
  canonical_fields (field k x fs) = field k (canonical x) (canonical_fields fs)

mutual
  unfolding freeze freeze_items freeze_fields stable stable_items stable_fields canonical
      canonical_items canonical_fields

  freeze-stable : (p : JsonPath) (v : Value) → stable v ≡ true → freeze p v ≡ ok (canonical v)
  freeze-stable p null h = refl
  freeze-stable p (boolean b) h = refl
  freeze-stable p (string s) h = rw h
  freeze-stable p (integer i) h = rw h
  freeze-stable p (double d) h = rw h
  freeze-stable p (sequence t xs) h = rw (freeze_items-stable_items p 0 xs h)
  freeze-stable p (object t fs) h = rw (freeze_fields-stable_fields p fs h)
  freeze-stable p (foreign n) h = cc

  freeze_items-stable_items :
      (p : JsonPath) (i : ℕ) (xs : Items)
      → stable_items xs ≡ true
      → freeze_items p i xs ≡ ok (canonical_items xs)
  freeze_items-stable_items p i nil h = refl
  freeze_items-stable_items p i (item x xs) h =
      ground (arith, freeze-stable (p ++ index i ∷ []) x, freeze_items-stable_items p (i + 1) xs)

  freeze_fields-stable_fields :
      (p : JsonPath) (fs : Fields)
      → stable_fields fs ≡ true
      → freeze_fields p fs ≡ ok (canonical_fields fs)
  freeze_fields-stable_fields p end h = refl
  freeze_fields-stable_fields p (field none x fs) h = cc
  freeze_fields-stable_fields p (field (some k) x fs) h =
      ground (arith, freeze-stable (p ++ key k ∷ []) x, freeze_fields-stable_fields p fs)

mutual
  unfolding freeze freeze_items freeze_fields stable stable_items stable_fields

  freeze-eq-err : (p : JsonPath) (v : Value) → stable v ≡ false → is_ok (freeze p v) ≡ false
  freeze-eq-err p null h = cc
  freeze-eq-err p (boolean b) h = cc
  freeze-eq-err p (string s) h = ground arith
  freeze-eq-err p (integer i) h = ground arith
  freeze-eq-err p (double d) h = ground arith
  freeze-eq-err p (sequence t xs) h = ground (arith, freeze_items-eq-err p 0 xs)
  freeze-eq-err p (object t fs) h = ground (arith, freeze_fields-eq-err p fs)
  freeze-eq-err p (foreign n) h = refl

  freeze_items-eq-err :
      (p : JsonPath) (i : ℕ) (xs : Items)
      → stable_items xs ≡ false
      → is_ok (freeze_items p i xs) ≡ false
  freeze_items-eq-err p i nil h = cc
  freeze_items-eq-err p i (item x xs) h =
      ground (arith, freeze-eq-err (p ++ index i ∷ []) x, freeze_items-eq-err p (i + 1) xs)

  freeze_fields-eq-err :
      (p : JsonPath) (fs : Fields) → stable_fields fs ≡ false → is_ok (freeze_fields p fs) ≡ false
  freeze_fields-eq-err p end h = cc
  freeze_fields-eq-err p (field none x fs) h = refl
  freeze_fields-eq-err p (field (some k) x fs) h =
      ground (arith, freeze-eq-err (p ++ key k ∷ []) x, freeze_fields-eq-err p fs)

mutual
  unfolding stable stable_items stable_fields canonical canonical_items canonical_fields

  stable-canonical : (v : Value) → stable (canonical v) ≡ stable v
  stable-canonical (sequence t xs) = stable_items-canonical xs
  stable-canonical (object t fs) = stable_fields-canonical fs
  stable-canonical _ = refl

  stable_items-canonical : (xs : Items) → stable_items (canonical_items xs) ≡ stable_items xs
  stable_items-canonical nil = refl
  stable_items-canonical (item x xs) = rw (stable-canonical x, stable_items-canonical xs)

  stable_fields-canonical : (fs : Fields) → stable_fields (canonical_fields fs) ≡ stable_fields fs
  stable_fields-canonical end = refl
  stable_fields-canonical (field none x fs) = refl
  stable_fields-canonical (field (some k) x fs) =
      rw (stable-canonical x, stable_fields-canonical fs)

mutual
  unfolding canonical canonical_items canonical_fields

  canonical_idem : (v : Value) → canonical (canonical v) ≡ canonical v
  canonical_idem (sequence t xs) = rw (canonical_items_idem xs)
  canonical_idem (object t fs) = rw (canonical_fields_idem fs)
  canonical_idem _ = refl

  canonical_items_idem : (xs : Items) → canonical_items (canonical_items xs) ≡ canonical_items xs
  canonical_items_idem nil = refl
  canonical_items_idem (item x xs) = rw (canonical_idem x, canonical_items_idem xs)

  canonical_fields_idem :
      (fs : Fields) → canonical_fields (canonical_fields fs) ≡ canonical_fields fs
  canonical_fields_idem end = refl
  canonical_fields_idem (field k x fs) = rw (canonical_idem x, canonical_fields_idem fs)

-- Freezing succeeds exactly on the stable values, whatever the path, and a success is the same
-- content in tuples and frozen mappings.
pub freeze_lem :
    (p : JsonPath) (v w : Value) → (freeze p v ≡ ok w) ↔ ((stable v ≡ true) × (w ≡ canonical v))
freeze_lem p v w = elim (Bool-cases (stable v)) [
  | inl s ↦
      (λ h. (s, ground (arith, freeze-stable p v s)), λ h. ground (arith, freeze-stable p v s))
  | inr u ↦ (λ h. ground (arith, freeze-eq-err p v u), λ h. ground arith)
]

-- A frozen value freezes to itself, at any path.
pub freeze_idem : (p q : JsonPath) (v w : Value) → freeze p v ≡ ok w → freeze q w ≡ ok w
freeze_idem p q v w h =
    ground
      (arith, (freeze_lem p v w).0 h, (freeze_lem q w w).1, stable-canonical v, canonical_idem v)
