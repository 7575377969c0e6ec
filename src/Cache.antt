-- ===== src/Cache.antt =====
-- core/cache.py: InMemoryNodeResultCache. A method holds the lock for its whole access, so it is one
-- step on the state; `now` is what the clock returns to the call. A method returns the new state
-- beside its result.
use comfy_ui_ng.Prelude.{
  ℕ, zero, suc, ◌+◌, ◌-◌, Bool, true, false, not, ◌&&◌, ◌||◌, List, [], ◌∷◌, Option, none, some,
  Result, ok, err, ◌>>=◌, ◌>>◌, raise_if, map_err, ltb, leb, ◌==◌, is_some, if◌then◌else◌, String,
  Text, text_eq, text_leb, length,
}
use comfy_ui_ng.Prelude.Dict.{Dict, lookup, insert, delete}
use comfy_ui_ng.Prelude.Sort.{lex, minimum}
use comfy_ui_ng.Json.{Value, JsonValueError, field_path, freeze, encodes}
use comfy_ui_ng.Jobs.Record.{is_untrimmed}
pub mod Steps
pub mod Accounting
pub mod Bounds
pub mod Eviction
pub mod Put
pub mod Ordering
pub mod Until
mod Tests

pub data CacheError : Type 0 where
  value_error : String → CacheError
  capacity_error : String → CacheError
  json_error : JsonValueError → CacheError

-- `_key`
pub check_key : Text → Result CacheError (Unit {0})
check_key s = do
  raise_if (is_untrimmed s || ltb 512 (length s))
      (value_error "cache key must be a non-empty trimmed string")
  raise_if (not (encodes s)) (value_error "cache key must contain valid Unicode")

pub record CacheEntry : Type 0 where
  pub key : Text
  pub value : Value
  pub size_bytes : ℕ
  pub created_at : ℕ
  pub last_accessed_at : ℕ
  pub expires_at : Option ℕ
  pub hit_count : ℕ

expires_before : Option ℕ → ℕ → Bool
expires_before none t = false
expires_before (some e) t = ltb e t

-- `CacheEntry.__post_init__`: the guards, and the entry with its value frozen.
pub check_entry : CacheEntry → Result CacheError CacheEntry
unfolding expires_before
check_entry e = do
  check_key e.key
  raise_if (expires_before e.expires_at e.created_at)
      (value_error "expires_at must be finite and >= created_at")
  raise_if (ltb e.last_accessed_at e.created_at)
      (value_error "last_accessed_at cannot precede created_at")
  value ← map_err json_error (freeze (field_path "value") e.value)
  ok (record e { value = value })

pub record Stored : Type 0 where
  pub entry : CacheEntry
  pub access_order : ℕ

pub record Cache : Type 0 where
  pub max_entries : ℕ
  pub max_bytes : ℕ
  pub entries : Dict Text Stored
  pub bytes : ℕ
  pub order : ℕ

-- `InMemoryNodeResultCache.__init__`
pub init : (max_entries max_bytes : ℕ) → Result CacheError Cache
init max_entries max_bytes = do
  raise_if (ltb max_entries 1) (value_error "max_entries must be a positive integer")
  ok (record {
    max_entries = max_entries;
    max_bytes = max_bytes;
    entries = [];
    bytes = 0;
    order = 0;
  })

-- `_expired`
pub expired : CacheEntry → ℕ → Bool
expired e now = elim e.expires_at [ none ↦ false | some t ↦ leb t now ]

-- `self._bytes -= stored.entry.size_bytes; del self._entries[key]`. The bytes count every entry, so
-- that the subtraction is exact.
abbrev pub without : Cache → Text → Stored → Cache
without c key s = record c { entries = delete key c.entries; bytes = c.bytes - s.entry.size_bytes }

-- The same for what stands under the key, if anything does.
pub discard_found : Cache → Text → Option Stored → Cache
discard_found c key none = c
discard_found c key (some s) = without c key s

pub discard : Cache → Text → Cache
discard c key = discard_found c key (lookup key c.entries)

pub expired_keys : Dict Text Stored → ℕ → List Text
expired_keys [] now = []
expired_keys ((key, s) ∷ d) now =
    if expired s.entry now then key ∷ expired_keys d now else expired_keys d now

pub discard_all : Cache → List Text → Cache
discard_all c [] = c
discard_all c (key ∷ keys) = discard_all (discard c key) keys

-- `_purge_expired`
pub purge_expired : Cache → ℕ → Cache
purge_expired c now = discard_all c (expired_keys c.entries now)

-- The key `(stored.access_order, key)` of `min`.
pub accessed_before : Text × Stored → Text × Stored → Bool
accessed_before (j, s) (k, t) = lex s.access_order t.access_order (text_leb j k)

pub over_limits : Cache → Bool
over_limits c = ltb c.max_entries (length c.entries) || ltb c.max_bytes c.bytes

-- One round of the eviction. `min` of no entries raises ValueError, which never happens: the bytes of
-- no entries are 0.
pub evicted : Cache → Option (Text × Stored) → Cache
evicted c none = c
evicted c (some (key, s)) = without c key s

-- `_evict_to_limits`, at most as many rounds as there are entries.
pub evict : ℕ → Cache → Cache
evict zero c = c
evict (suc rounds) c =
    let rest = evict rounds (evicted c (minimum accessed_before c.entries)) in
    if over_limits c then rest else c

pub evict_to_limits : Cache → Cache
evict_to_limits c = evict (length c.entries) c

abbrev pub Reply : Type 0 → Type 0
Reply A = Cache × Result CacheError A

-- `stored.entry = replace(…); stored.access_order = self._next_order()`
pub accessed : Cache → Text → ℕ → Result CacheError CacheEntry → Reply (Option CacheEntry)
accessed c key now (err e) = (c, err e)
accessed c key now (ok entry) = (
  record c {
    entries = insert key (record { entry = entry; access_order = c.order + 1 }) c.entries;
    order = c.order + 1;
  },
  ok (some entry),
)

pub get_found : Cache → Text → ℕ → Option Stored → Reply (Option CacheEntry)
get_found c key now none = (c, ok none)
get_found c key now (some s) =
    if expired s.entry now
    then (without c key s, ok none)
    else accessed c key now
        (check_entry (record s.entry { last_accessed_at = now; hit_count = s.entry.hit_count + 1 }))

pub get : Cache → Text → ℕ → Reply (Option CacheEntry)
get c key now = elim (check_key key) [
  | err e ↦ (c, err e)
  | ok u ↦ get_found c key now (lookup key c.entries)
]

is_zero : Option ℕ → Bool
is_zero none = false
is_zero (some n) = n == 0

expiry : ℕ → Option ℕ → Option ℕ
expiry now none = none
expiry now (some ttl) = some (now + ttl)

-- What `put` does before it takes the lock.
pub new_entry :
    Cache
    → Text
    → Value
    → (size_bytes : ℕ) → (ttl_seconds : Option ℕ) → (now : ℕ) → Result CacheError CacheEntry
unfolding is_zero expiry
new_entry c key value size_bytes ttl_seconds now = do
  check_key key
  raise_if (is_zero ttl_seconds) (value_error "ttl_seconds must be finite and positive or None")
  raise_if (ltb c.max_bytes size_bytes) (capacity_error "entry exceeds cache byte limit")
  check_entry (record {
    key = key;
    value = value;
    size_bytes = size_bytes;
    created_at = now;
    last_accessed_at = now;
    expires_at = expiry now ttl_seconds;
    hit_count = 0;
  })

pub stored : Cache → Text → CacheEntry → Cache
stored c key entry = record c {
  entries = insert key (record { entry = entry; access_order = c.order + 1 }) c.entries;
  order = c.order + 1;
  bytes = c.bytes + entry.size_bytes;
}

pub put_entry : Cache → Text → (now : ℕ) → Result CacheError CacheEntry → Reply CacheEntry
put_entry c key now (err e) = (c, err e)
put_entry c key now (ok entry) =
    (evict_to_limits (stored (discard (purge_expired c now) key) key entry), ok entry)

pub put :
    Cache
    → Text
    → Value
    → (size_bytes : ℕ) → (ttl_seconds : Option ℕ) → (now : ℕ) → Reply CacheEntry
put c key value size_bytes ttl_seconds now =
    put_entry c key now (new_entry c key value size_bytes ttl_seconds now)

-- `delete`
pub remove : Cache → Text → Reply Bool
remove c key = elim (check_key key) [
  | err e ↦ (c, err e)
  | ok u ↦ (discard c key, ok (is_some (lookup key c.entries)))
]

pub clear : Cache → Cache × ℕ
clear c = (record c { entries = []; bytes = 0 }, length c.entries)

pub size : Cache → (now : ℕ) → Cache × ℕ
size c now = let purged = purge_expired c now in (purged, length purged.entries)

pub total_bytes : Cache → (now : ℕ) → Cache × ℕ
total_bytes c now = let purged = purge_expired c now in (purged, purged.bytes)
