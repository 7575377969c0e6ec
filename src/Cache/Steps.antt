-- ===== src/Cache/Steps.antt =====
-- `evict_until`, and the calls of a cache one after the other.
use comfy_ui_ng.Prelude.{
  ℕ, zero, suc, List, [], ◌∷◌, Option, none, some, ltb, if◌then◌else◌, Text, length,
}
use comfy_ui_ng.Prelude.Sort.{minimum}
use comfy_ui_ng.Json.{Value}
use comfy_ui_ng.Cache.{
  Cache, CacheEntry, Stored, accessed_before, evicted, get, put, remove, clear, size, total_bytes,
}

unfoldable pub evicted_entries : Option (Text × Stored) → List CacheEntry → List CacheEntry
evicted_entries none rest = rest
evicted_entries (some (key, s)) rest = s.entry ∷ rest

-- The loop of `evict_until`, at most as many rounds as there are entries, so that the test for no
-- entries is the end of the rounds.
unfoldable pub evict_down : ℕ → Cache → (target_bytes : ℕ) → Cache × List CacheEntry
unfolding evicted_entries
evict_down zero c target_bytes = (c, [])
evict_down (suc rounds) c target_bytes =
    let oldest = minimum accessed_before c.entries in
    let rest = evict_down rounds (evicted c oldest) target_bytes in
    if ltb target_bytes c.bytes then (rest.0, evicted_entries oldest rest.1) else (c, [])

unfoldable pub evict_until : Cache → (target_bytes : ℕ) → Cache × List CacheEntry
evict_until c target_bytes = evict_down (length c.entries) c target_bytes

-- Each call with the time that the clock returns to it.
pub data Call : Type 0 where
  getting : Text → ℕ → Call
  putting : Text → Value → (size_bytes : ℕ) → (ttl_seconds : Option ℕ) → ℕ → Call
  removing : Text → Call
  clearing : Call
  measuring : ℕ → Call
  adding_up : ℕ → Call
  evicting : (target_bytes : ℕ) → Call

unfoldable pub step : Cache → Call → Cache
step c (getting key now) = (get c key now).0
step c (putting key value bytes ttl now) = (put c key value bytes ttl now).0
step c (removing key) = (remove c key).0
step c clearing = (clear c).0
step c (measuring now) = (size c now).0
step c (adding_up now) = (total_bytes c now).0
step c (evicting target_bytes) = (evict_until c target_bytes).0

unfoldable pub run : Cache → List Call → Cache
run c [] = c
run c (call ∷ calls) = run (step c call) calls
