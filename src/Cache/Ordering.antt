-- ===== src/Cache/Ordering.antt =====
-- The counter of accesses stays ahead of every entry, so that what is put is kept.
use comfy_ui_ng.Prelude.{
  ℕ, zero, suc, ◌+◌, ◌≤◌, ◌≡◌, refl, sym, subst, arith, Bool-cases, List, [], ◌∷◌, Option, none,
  some, Result, ok, err, ltb, Text, text_eq, length, All, All-mono, inl, inr,
}
use comfy_ui_ng.Prelude.Dict.{Dict, lookup, insert}
use comfy_ui_ng.Prelude.Dict.{delete-All}
use comfy_ui_ng.Cache.Bounds.{run-init-KeepsBounds}
use comfy_ui_ng.Json.{Value}
use comfy_ui_ng.Cache.{
  init, CacheError, CacheEntry, Stored, Cache, check_key, expired, expired_keys, discard,
  discard_all, purge_expired, over_limits, evicted, evict, evict_to_limits, accessed, get_found,
  get, new_entry, stored, put_entry, put, remove, clear, size, total_bytes,
}
use comfy_ui_ng.Cache.Steps.{
  evict_down, evict_until, Call, getting, putting, removing, clearing, measuring, adding_up,
  evicting, step, run,
}
use comfy_ui_ng.Cache.Put.{IsOrdered, put-lookup, discard-SameOrder, discard_all-SameOrder}

insert-ordered :
    (key : Text) (s : Stored) (n : ℕ) (d : Dict Text Stored)
    → All (λ p. p.1.access_order ≤ n) d
    → s.access_order ≤ n
    → All (λ p. p.1.access_order ≤ n) (insert key s d)
unfolding insert
insert-ordered key s n [] h le = (le, tt)
insert-ordered key s n ((j, t) ∷ d) h le = ground (arith, h.0, insert-ordered key s n d h.1 le)

-- An entry that takes the next number.
next-ordered :
    (key : Text) (e : CacheEntry) (n : ℕ) (d : Dict Text Stored)
    → All (λ p. p.1.access_order ≤ n) d
    → All
        (λ p. p.1.access_order ≤ n + 1)
        (insert key (record { entry = e; access_order = n + 1 }) d)
next-ordered key e n d h =
    insert-ordered key _ (n + 1) d
      (All-mono (λ p. p.1.access_order ≤ n) (λ p. p.1.access_order ≤ n + 1)
        (λ p k. omega (arith, k)) d h)
      (omega arith)

evicted-IsOrdered : (c : Cache) (m : Option (Text × Stored)) → IsOrdered c → IsOrdered (evicted c m)
unfolding evicted
evicted-IsOrdered c none o = o
evicted-IsOrdered c (some (key, s)) o = delete-All (λ p. p.1.access_order ≤ c.order) key c.entries o

evict-IsOrdered : (rounds : ℕ) (c : Cache) → IsOrdered c → IsOrdered (evict rounds c)
unfolding evict
evict-IsOrdered zero c o = o
evict-IsOrdered (suc rounds) c o = elim (Bool-cases (over_limits c)) [
  | inl p ↦ rw p (evict-IsOrdered rounds _ (evicted-IsOrdered c _ o))
  | inr p ↦ rw p o
]

evict_down-IsOrdered :
    (rounds : ℕ) (c : Cache) (target_bytes : ℕ)
    → IsOrdered c
    → IsOrdered (evict_down rounds c target_bytes).0
unfolding evict_down
evict_down-IsOrdered zero c target_bytes o = o
evict_down-IsOrdered (suc rounds) c target_bytes o = elim (Bool-cases (ltb target_bytes c.bytes)) [
  | inl p ↦ rw p (evict_down-IsOrdered rounds _ target_bytes (evicted-IsOrdered c _ o))
  | inr p ↦ rw p o
]

put_entry-IsOrdered :
    (c : Cache) (key : Text) (now : ℕ) (r : Result CacheError CacheEntry)
    → IsOrdered c
    → IsOrdered (put_entry c key now r).0
unfolding put_entry purge_expired evict_to_limits stored
put_entry-IsOrdered c key now (err e) o = o
put_entry-IsOrdered c key now (ok e) o =
    let c1 = discard_all c (expired_keys c.entries now) in
    let purged = (discard_all-SameOrder c (expired_keys c.entries now) o).1 in
    let rest = (discard-SameOrder c1 key purged).1 in
    evict-IsOrdered _ _ (next-ordered key e (discard c1 key).order (discard c1 key).entries rest)

accessed-IsOrdered :
    (c : Cache) (key : Text) (now : ℕ) (r : Result CacheError CacheEntry)
    → IsOrdered c
    → IsOrdered (accessed c key now r).0
unfolding accessed
accessed-IsOrdered c key now (err e) o = o
accessed-IsOrdered c key now (ok e) o = next-ordered key e c.order c.entries o

get_found-IsOrdered :
    (c : Cache) (key : Text) (now : ℕ) (s : Option Stored)
    → IsOrdered c
    → IsOrdered (get_found c key now s).0
unfolding get_found
get_found-IsOrdered c key now none o = o
get_found-IsOrdered c key now (some s) o = elim (Bool-cases (expired s.entry now)) [
  | inl p ↦ rw p (delete-All (λ q. q.1.access_order ≤ c.order) key c.entries o)
  | inr p ↦ rw p (accessed-IsOrdered c key now _ o)
]

get-IsOrdered :
    (c : Cache) (key : Text) (now : ℕ) (r : Result CacheError (Unit {0}))
    → check_key key ≡ r
    → IsOrdered c
    → IsOrdered (get c key now).0
unfolding get
get-IsOrdered c key now (err e) h o = rw (h, get) o
get-IsOrdered c key now (ok u) h o =
    rw (h, get) (get_found-IsOrdered c key now (lookup key c.entries) o)

remove-IsOrdered :
    (c : Cache) (key : Text) (r : Result CacheError (Unit {0}))
    → check_key key ≡ r
    → IsOrdered c
    → IsOrdered (remove c key).0
unfolding remove
remove-IsOrdered c key (err e) h o = rw (h, remove) o
remove-IsOrdered c key (ok u) h o = rw (h, remove) (discard-SameOrder c key o).1

step-IsOrdered : (c : Cache) (call : Call) → IsOrdered c → IsOrdered (step c call)
unfolding step put clear size total_bytes evict_until purge_expired
step-IsOrdered c (getting key now) o = get-IsOrdered c key now (check_key key) refl o
step-IsOrdered c (putting key value bytes ttl now) o =
    put_entry-IsOrdered c key now (new_entry c key value bytes ttl now) o
step-IsOrdered c (removing key) o = remove-IsOrdered c key (check_key key) refl o
step-IsOrdered c clearing o = tt
step-IsOrdered c (measuring now) o = (discard_all-SameOrder c (expired_keys c.entries now) o).1
step-IsOrdered c (adding_up now) o = (discard_all-SameOrder c (expired_keys c.entries now) o).1
step-IsOrdered c (evicting target_bytes) o =
    evict_down-IsOrdered (length c.entries) c target_bytes o

-- Any calls keep the counter ahead.
run-IsOrdered : (c : Cache) (calls : List Call) → IsOrdered c → IsOrdered (run c calls)
unfolding run
run-IsOrdered c [] o = o
run-IsOrdered c (call ∷ calls) o = run-IsOrdered (step c call) calls (step-IsOrdered c call o)

-- In every state that calls reach from the cache that the constructor makes, an entry that `put`
-- returns stands under its key afterwards as the most recent one, whatever had to be evicted for it,
-- and has the size that was given.
pub run-put-lookup :
    (max_entries max_bytes : ℕ) (c : Cache) (calls : List Call) (key : Text) (value : Value)
    (size_bytes : ℕ) (ttl_seconds : Option ℕ) (now : ℕ) (e : CacheEntry)
    → init max_entries max_bytes ≡ ok c
    → (put (run c calls) key value size_bytes ttl_seconds now).1 ≡ ok e
    → (lookup key (put (run c calls) key value size_bytes ttl_seconds now).0.entries
        ≡ some (record { entry = e; access_order = (run c calls).order + 1 }))
      × (e.size_bytes ≡ size_bytes)
unfolding init
run-put-lookup max_entries max_bytes c calls key value size_bytes ttl_seconds now e start h =
    let (bounded, same, _) = run-init-KeepsBounds max_entries max_bytes c calls start in
    let room : 1 ≤ max_entries = ground arith in
    let empty : c.entries ≡ [] = ground arith in
    let ordered : IsOrdered c = subst (All (λ p. p.1.access_order ≤ c.order)) (sym empty) tt in
    put-lookup (run c calls) key value size_bytes ttl_seconds now e bounded
      (run-IsOrdered c calls ordered) (omega (arith, same, room)) h
