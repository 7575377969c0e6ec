-- ===== src/Cache/Put.antt =====
-- What is put into the cache is there afterwards.
use comfy_ui_ng.Prelude.{
  ℕ, ◌+◌, ◌≤◌, ◌<◌, ◌≡◌, ◌≢◌, refl, sym, ap, ◌∙◌, subst, arith, List, [], ◌∷◌, Option, none, some,
  Result, ok, err, raise_if, ltb, bind-eq-ok, Text, text_eq, length, All, All-mono,
}
use comfy_ui_ng.Prelude.Dict.{lookup, Absent, lookup-insert_self, insert-All_of_Absent, delete-All}
use comfy_ui_ng.Json.{Value}
use comfy_ui_ng.Cache.{
  CacheError, CacheEntry, Stored, Cache, check_key, is_zero, capacity_error, expired_keys,
  discard_found, discard, discard_all, purge_expired, evict, evict_to_limits, new_entry, stored,
  put_entry, put,
}
use comfy_ui_ng.Cache.Accounting.{IsAccounted, Shrinks-trans, discard-Shrinks, discard_all-Shrinks}
use comfy_ui_ng.Cache.Bounds.{IsBounded, discard-Absent, stored-IsAccounted, check_entry-size}
use comfy_ui_ng.Cache.Eviction.{Holds, evict-Holds}

-- No entry was accessed after the cache's counter.
abbrev pub IsOrdered : Cache → Type 0
IsOrdered c = All (λ p. p.1.access_order ≤ c.order) c.entries

abbrev pub SameOrder : Cache → Cache → Type 0
SameOrder c c' = (c'.order ≡ c.order) × IsOrdered c'

pub discard-SameOrder : (c : Cache) (key : Text) → IsOrdered c → SameOrder c (discard c key)
unfolding discard discard_found
discard-SameOrder c key o = found (lookup key c.entries)
  where
    found : (s : Option Stored) → SameOrder c (discard_found c key s)
    found none = (refl, o)
    found (some s) = (refl, delete-All (λ p. p.1.access_order ≤ c.order) key c.entries o)

pub discard_all-SameOrder :
    (c : Cache) (keys : List Text) → IsOrdered c → SameOrder c (discard_all c keys)
unfolding discard_all
discard_all-SameOrder c [] o = (refl, o)
discard_all-SameOrder c (key ∷ keys) o =
    let (e, once) = discard-SameOrder c key o in
    let (e', rest) = discard_all-SameOrder (discard c key) keys once in (e' ∙ e, rest)

-- A new entry is the newest, and stands where it was stored.
stored-Holds :
    (c : Cache) (key : Text) (e : CacheEntry)
    → IsAccounted c
    → Absent key c.entries
    → IsOrdered c
    → 1 ≤ c.max_entries
    → e.size_bytes ≤ c.max_bytes
    → Holds (stored c key e) key (record { entry = e; access_order = c.order + 1 })
unfolding stored
stored-Holds c key e a absent o room fits =
    let s : Stored = record { entry = e; access_order = c.order + 1 } in
    record {
      accounted = stored-IsAccounted c key e a absent;
      room = room;
      fits = fits;
      found = lookup-insert_self key s c.entries;
      newest =
          insert-All_of_Absent (λ p. p.0 ≢ key → p.1.access_order < c.order + 1) key s c.entries
            absent
            (All-mono (λ p. p.1.access_order ≤ c.order)
              (λ p. p.0 ≢ key → p.1.access_order < c.order + 1) (λ p h n. omega (arith, h))
              c.entries o)
            (λ n. absurd (n refl));
    }

put_entry-lookup :
    (c : Cache) (key : Text) (now : ℕ) (e : CacheEntry)
    → IsAccounted c
    → IsOrdered c
    → 1 ≤ c.max_entries
    → e.size_bytes ≤ c.max_bytes
    → lookup key (put_entry c key now (ok e)).0.entries
      ≡ some (record { entry = e; access_order = c.order + 1 })
unfolding put_entry purge_expired evict_to_limits
put_entry-lookup c key now e a o room fits =
    let c1 = discard_all c (expired_keys c.entries now) in
    let purged = discard_all-Shrinks c (expired_keys c.entries now) a in
    let s = Shrinks-trans c c1 (discard c1 key) purged (discard-Shrinks c1 key purged.accounted) in
    let (same, ordered) = discard_all-SameOrder c (expired_keys c.entries now) o in
    let (same', ordered') = discard-SameOrder c1 key ordered in
    let holds =
      stored-Holds (discard c1 key) key e s.accounted (discard-Absent c1 key purged.accounted)
        ordered' (omega (arith, s.same_entries, room)) (omega (arith, s.same_bytes, fits)) in
    subst
      (λ n.
        lookup key
          (evict (length (stored (discard c1 key) key e).entries)
            (stored (discard c1 key) key e)).entries
        ≡ some (record { entry = e; access_order = n + 1 }))
      (same' ∙ same) (evict-Holds _ _ key _ holds)

new_entry-size :
    (c : Cache) (key : Text) (value : Value) (size_bytes : ℕ) (ttl_seconds : Option ℕ) (now : ℕ)
    (e : CacheEntry)
    → new_entry c key value size_bytes ttl_seconds now ≡ ok e
    → (e.size_bytes ≡ size_bytes) × (size_bytes ≤ c.max_bytes)
unfolding new_entry
new_entry-size c key value size_bytes ttl_seconds now e h =
    let (_, _, h1) = bind-eq-ok (check_key key) _ h in
    let (_, _, h2) = bind-eq-ok (raise_if (is_zero ttl_seconds) _) _ h1 in
    let (_, guard, h3) =
      bind-eq-ok
        (raise_if (ltb c.max_bytes size_bytes) (capacity_error "entry exceeds cache byte limit")) _
        h2 in
    (check_entry-size _ e h3, ground arith)

put_entry-result :
    (c : Cache) (key : Text) (now : ℕ) (r : Result CacheError CacheEntry)
    → (put_entry c key now r).1 ≡ r
unfolding put_entry
put_entry-result c key now (err x) = refl
put_entry-result c key now (ok f) = refl

-- What `put` returns is stored, on a bounded cache whose counter is ahead.
pub put-lookup :
    (c : Cache) (key : Text) (value : Value) (size_bytes : ℕ) (ttl_seconds : Option ℕ) (now : ℕ)
    (e : CacheEntry)
    → IsBounded c
    → IsOrdered c
    → 1 ≤ c.max_entries
    → (put c key value size_bytes ttl_seconds now).1 ≡ ok e
    → (lookup key (put c key value size_bytes ttl_seconds now).0.entries
        ≡ some (record { entry = e; access_order = c.order + 1 }))
      × (e.size_bytes ≡ size_bytes)
unfolding put
put-lookup c key value size_bytes ttl_seconds now e b o room h =
    made (new_entry c key value size_bytes ttl_seconds now) refl h
  where
    made :
        (r : Result CacheError CacheEntry)
        → new_entry c key value size_bytes ttl_seconds now ≡ r
        → (put_entry c key now r).1 ≡ ok e
        → (lookup key (put_entry c key now r).0.entries
            ≡ some (record { entry = e; access_order = c.order + 1 }))
          × (e.size_bytes ≡ size_bytes)
    made (err x) q k = absurd (let returned = put_entry-result c key now (err x) in cc)
    made (ok f) q k =
        let returned = put_entry-result c key now (ok f) in
        let same : f ≡ e = cc in
        let (given, fits) = new_entry-size c key value size_bytes ttl_seconds now f q in
        let there = put_entry-lookup c key now f b.accounted o room (omega (arith, given, fits)) in
        (
          subst
              (λ g.
                lookup key (put_entry c key now (ok f)).0.entries
                ≡ some (record { entry = g; access_order = c.order + 1 }))
              same there,
          sym (ap (λ g. g.size_bytes) same) ∙ given,
        )
