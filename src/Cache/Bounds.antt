-- ===== src/Cache/Bounds.antt =====
-- Every call keeps the cache within its limits.
use comfy_ui_ng.Prelude.{
  ℕ, zero, suc, ◌+◌, ◌≤◌, ◌≡◌, refl, sym, ap, ◌∙◌, subst, arith, Bool-cases, List, [], ◌∷◌, Option,
  none, some, Result, ok, err, ltb, Text, text_eq, length, inl, inr,
}
use comfy_ui_ng.Prelude.Dict.{
  lookup, Absent, UniqueKeys, Absent-of_lookup, insert-UniqueKeys, delete-Absent,
}
use comfy_ui_ng.Cache.{
  CacheError, CacheEntry, Stored, Cache, init, check_entry, check_key, expired, expired_keys,
  discard_found, discard, discard_all, purge_expired, over_limits, evict_to_limits, accessed,
  get_found, get, new_entry, stored, put_entry, put, remove, clear, size, total_bytes,
}
use comfy_ui_ng.Cache.Steps.{
  evict_down, evict_until, Call, getting, putting, removing, clearing, measuring, adding_up,
  evicting, step, run,
}
use comfy_ui_ng.Cache.Accounting.{
  total_size, no_entries, IsAccounted, Shrinks, total_size-insert, total_size-replace,
  length-replace, Shrinks-refl, Shrinks-trans, without-Shrinks, discard-Shrinks,
  discard_all-Shrinks, evicted-Shrinks, evict-Shrinks, evict-within,
}

-- Within both limits.
pub record IsBounded (c : Cache) : Type 0 where
  pub accounted : IsAccounted c
  pub count : length c.entries ≤ c.max_entries
  pub weight : c.bytes ≤ c.max_bytes

-- The limits stay and are kept.
abbrev pub KeepsBounds : Cache → Cache → Type 0
KeepsBounds c c' = IsBounded c' × (c'.max_entries ≡ c.max_entries) × (c'.max_bytes ≡ c.max_bytes)

pub Shrinks-KeepsBounds : (c c' : Cache) → IsBounded c → Shrinks c c' → KeepsBounds c c'
Shrinks-KeepsBounds c c' b s = (
  record {
    accounted = s.accounted;
    count = omega (arith, s.fewer, s.same_entries, b.count);
    weight = omega (arith, s.lighter, s.same_bytes, b.weight);
  },
  s.same_entries,
  s.same_bytes,
)

evict_to_limits-KeepsBounds : (c : Cache) → IsAccounted c → KeepsBounds c (evict_to_limits c)
unfolding evict_to_limits over_limits
evict_to_limits-KeepsBounds c a =
    let s = evict-Shrinks (length c.entries) c a in
    let w = evict-within (length c.entries) c a (omega arith) in
    (
      record { accounted = s.accounted; count = ground arith; weight = ground arith },
      s.same_entries,
      s.same_bytes,
    )

pub discard-Absent : (c : Cache) (key : Text) → IsAccounted c → Absent key (discard c key).entries
unfolding discard discard_found
discard-Absent c key a = found (lookup key c.entries) refl
  where
    found :
        (s : Option Stored) → lookup key c.entries ≡ s → Absent key (discard_found c key s).entries
    found none h = Absent-of_lookup key c.entries h
    found (some s) h = delete-Absent key c.entries a.unique

pub stored-IsAccounted :
    (c : Cache) (key : Text) (e : CacheEntry)
    → IsAccounted c
    → Absent key c.entries
    → IsAccounted (stored c key e)
unfolding stored
stored-IsAccounted c key e a absent = record {
  unique = insert-UniqueKeys key _ c.entries a.unique;
  exact = omega (
    arith,
    a.exact,
    total_size-insert key (record { entry = e; access_order = c.order + 1 }) c.entries absent,
  );
}

put_entry-KeepsBounds :
    (c : Cache) (key : Text) (now : ℕ) (r : Result CacheError CacheEntry)
    → IsBounded c
    → KeepsBounds c (put_entry c key now r).0
unfolding put_entry purge_expired stored
put_entry-KeepsBounds c key now (err e) b = (b, refl, refl)
put_entry-KeepsBounds c key now (ok entry) b =
    let purged = discard_all-Shrinks c (expired_keys c.entries now) b.accounted in
    let c1 = discard_all c (expired_keys c.entries now) in
    let s = Shrinks-trans c c1 (discard c1 key) purged (discard-Shrinks c1 key purged.accounted) in
    let there =
      stored-IsAccounted (discard c1 key) key entry s.accounted
        (discard-Absent c1 key purged.accounted) in
    let (bounded, n, m) = evict_to_limits-KeepsBounds (stored (discard c1 key) key entry) there in
    (bounded, n ∙ s.same_entries, m ∙ s.same_bytes)

pub check_entry-size : (e e' : CacheEntry) → check_entry e ≡ ok e' → e'.size_bytes ≡ e.size_bytes
unfolding check_entry
check_entry-size e e' h = ground arith

accessed-KeepsBounds :
    (c : Cache) (key : Text) (now : ℕ) (s : Stored) (r : Result CacheError CacheEntry)
    → lookup key c.entries ≡ some s
    → ((e : CacheEntry) → r ≡ ok e → e.size_bytes ≡ s.entry.size_bytes)
    → IsBounded c
    → KeepsBounds c (accessed c key now r).0
unfolding accessed
accessed-KeepsBounds c key now s (err e) h k b = (b, refl, refl)
accessed-KeepsBounds c key now s (ok e) h k b =
    let t : Stored = record { entry = e; access_order = c.order + 1 } in
    let same = total_size-replace key s t c.entries h (sym (k e refl)) in
    (
      record {
        accounted = record {
          unique = insert-UniqueKeys key t c.entries b.accounted.unique;
          exact = b.accounted.exact ∙ sym same;
        };
        count = omega (arith, b.count, length-replace key s t c.entries h);
        weight = b.weight;
      },
      refl,
      refl,
    )

get_found-KeepsBounds :
    (c : Cache) (key : Text) (now : ℕ) (s : Option Stored)
    → lookup key c.entries ≡ s
    → IsBounded c
    → KeepsBounds c (get_found c key now s).0
unfolding get_found
get_found-KeepsBounds c key now none h b = (b, refl, refl)
get_found-KeepsBounds c key now (some s) h b = elim (Bool-cases (expired s.entry now)) [
  | inl p ↦ rw p (Shrinks-KeepsBounds c _ b (without-Shrinks c key s b.accounted h))
  | inr p ↦ rw p (accessed-KeepsBounds c key now s _ h (λ e k. check_entry-size _ e k) b)
]

pub evict_down-Shrinks :
    (rounds : ℕ) (c : Cache) (target_bytes : ℕ)
    → IsAccounted c
    → Shrinks c (evict_down rounds c target_bytes).0
unfolding evict_down
evict_down-Shrinks zero c target_bytes a = Shrinks-refl c a
evict_down-Shrinks (suc rounds) c target_bytes a = elim (Bool-cases (ltb target_bytes c.bytes)) [
  | inl p ↦
      let (once, _) = evicted-Shrinks c a in
      rw p (Shrinks-trans c _ _ once (evict_down-Shrinks rounds _ target_bytes once.accounted))
  | inr p ↦ rw p (Shrinks-refl c a)
]

clear-IsBounded : (c : Cache) → IsBounded (clear c).0
unfolding clear total_size
clear-IsBounded c = record {
  accounted = record { unique = tt; exact = refl };
  count = omega arith;
  weight = omega arith;
}

get-KeepsBounds :
    (c : Cache) (key : Text) (now : ℕ) (r : Result CacheError (Unit {0}))
    → check_key key ≡ r
    → IsBounded c
    → KeepsBounds c (get c key now).0
unfolding get
get-KeepsBounds c key now (err e) h b = rw (h, get) (b, refl, refl)
get-KeepsBounds c key now (ok u) h b =
    rw (h, get) (get_found-KeepsBounds c key now (lookup key c.entries) refl b)

remove-KeepsBounds :
    (c : Cache) (key : Text) (r : Result CacheError (Unit {0}))
    → check_key key ≡ r
    → IsBounded c
    → KeepsBounds c (remove c key).0
unfolding remove
remove-KeepsBounds c key (err e) h b = rw (h, remove) (b, refl, refl)
remove-KeepsBounds c key (ok u) h b =
    rw (h, remove) (Shrinks-KeepsBounds c (discard c key) b (discard-Shrinks c key b.accounted))

pub step-KeepsBounds : (c : Cache) (call : Call) → IsBounded c → KeepsBounds c (step c call)
unfolding step put size total_bytes evict_until purge_expired
step-KeepsBounds c (getting key now) b = get-KeepsBounds c key now (check_key key) refl b
step-KeepsBounds c (putting key value bytes ttl now) b =
    put_entry-KeepsBounds c key now (new_entry c key value bytes ttl now) b
step-KeepsBounds c (removing key) b = remove-KeepsBounds c key (check_key key) refl b
step-KeepsBounds c clearing b = (clear-IsBounded c, unfold clear in refl, unfold clear in refl)
step-KeepsBounds c (measuring now) b =
    Shrinks-KeepsBounds c _ b (discard_all-Shrinks c (expired_keys c.entries now) b.accounted)
step-KeepsBounds c (adding_up now) b =
    Shrinks-KeepsBounds c _ b (discard_all-Shrinks c (expired_keys c.entries now) b.accounted)
step-KeepsBounds c (evicting target_bytes) b =
    Shrinks-KeepsBounds c _ b (evict_down-Shrinks (length c.entries) c target_bytes b.accounted)

run-KeepsBounds : (c : Cache) (calls : List Call) → IsBounded c → KeepsBounds c (run c calls)
unfolding run
run-KeepsBounds c [] b = (b, refl, refl)
run-KeepsBounds c (call ∷ calls) b =
    let (once, n, m) = step-KeepsBounds c call b in
    let (rest, n', m') = run-KeepsBounds (step c call) calls once in (rest, n' ∙ n, m' ∙ m)

-- From the cache that the constructor makes, after any sequence of calls the cache has one entry for
-- each key, its byte count is the sum of their sizes, and it keeps the two limits that the
-- constructor was given.
pub run-init-KeepsBounds :
    (max_entries max_bytes : ℕ) (c : Cache) (calls : List Call)
    → init max_entries max_bytes ≡ ok c
    → IsBounded (run c calls)
      × ((run c calls).max_entries ≡ max_entries)
      × ((run c calls).max_bytes ≡ max_bytes)
unfolding init total_size
run-init-KeepsBounds max_entries max_bytes c calls h =
    let n : c.max_entries ≡ max_entries = ground arith in
    let m : c.max_bytes ≡ max_bytes = ground arith in
    let empty : c.entries ≡ [] = ground arith in
    let light : c.bytes ≡ 0 = ground arith in
    let (b, n', m') = run-KeepsBounds c calls (record {
      accounted = record {
        unique = subst UniqueKeys (sym empty) tt;
        exact = light ∙ sym (ap total_size empty);
      };
      count = subst (λ d. length d ≤ c.max_entries) (sym empty) (omega arith);
      weight = omega arith;
    }) in
    (b, n' ∙ n, m' ∙ m)

pub evict_down-reaches :
    (rounds : ℕ) (c : Cache) (target_bytes : ℕ)
    → IsAccounted c
    → length c.entries ≤ rounds
    → (evict_down rounds c target_bytes).0.bytes ≤ target_bytes
unfolding evict_down total_size
evict_down-reaches zero c target_bytes a h =
    let light : c.bytes ≡ 0 = a.exact ∙ ap total_size (no_entries c.entries h) in omega arith
evict_down-reaches (suc rounds) c target_bytes a h = elim (Bool-cases (ltb target_bytes c.bytes)) [
  | inl p ↦
      let (once, left) = evicted-Shrinks c a in
      rw p (evict_down-reaches rounds _ target_bytes once.accounted (omega (arith, left, h)))
  | inr p ↦ rw p (ground arith)
]
