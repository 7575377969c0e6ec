-- ===== src/Cache/Tests.antt =====
-- A small cache.
use comfy_ui_ng.Prelude.{◌≤◌, ◌≡◌, refl, true, codes, List, [], ◌∷◌, none, some, ok}
use comfy_ui_ng.Json.{null, boolean}
use comfy_ui_ng.Prelude.Dict.{lookup}
use comfy_ui_ng.Prelude.{text_eq}
use comfy_ui_ng.Cache.{Cache, CacheEntry, init, put, new_entry, check_key, check_entry, put_entry}
use comfy_ui_ng.Cache.Ordering.{run-put-lookup}
use comfy_ui_ng.Jobs.Record.{is_untrimmed}
use comfy_ui_ng.Json.{encodes, freeze}
use comfy_ui_ng.Cache.Steps.{evict_until, Call, getting, putting, measuring, evicting, run}
use comfy_ui_ng.Cache.Bounds.{IsBounded, run-init-KeepsBounds}
use comfy_ui_ng.Cache.Until.{Taken, IsEviction, evict_until-IsEviction}

abbrev small : Cache
small = record { max_entries = 2; max_bytes = 10; entries = []; bytes = 0; order = 0 }

init-small : init 2 10 ≡ ok small
unfolding init
init-small = refl

abbrev calls : List Call
calls =
    putting (codes "a") null 4 none 0
    ∷ putting (codes "b") (boolean true) 4 (some 5) 1
    ∷ getting (codes "a") 2
    ∷ putting (codes "c") null 4 none 3
    ∷ measuring 7
    ∷ evicting 4
    ∷ []

run-init-KeepsBounds_example :
    IsBounded (run small calls)
    × ((run small calls).max_entries ≡ 2)
    × ((run small calls).max_bytes ≡ 10)
run-init-KeepsBounds_example = run-init-KeepsBounds 2 10 small calls init-small

evict_until-IsEviction_example :
    ((evict_until (run small calls) 3).0.bytes ≤ 3)
    × IsBounded (evict_until (run small calls) 3).0
    × ((taken : Taken) × IsEviction (run small calls) 3 (evict_until (run small calls) 3) taken)
evict_until-IsEviction_example =
    evict_until-IsEviction (run small calls) 3 (run-init-KeepsBounds 2 10 small calls init-small).0

abbrev entry : CacheEntry
entry = record {
  key = codes "a";
  value = null;
  size_bytes = 4;
  created_at = 0;
  last_accessed_at = 0;
  expires_at = none;
  hit_count = 0;
}

put-small : (put small (codes "a") null 4 none 0).1 ≡ ok entry
unfolding put new_entry check_key check_entry put_entry is_untrimmed encodes freeze
put-small = refl

run-put-lookup_example :
    (lookup (codes "a") (put small (codes "a") null 4 none 0).0.entries
      ≡ some (record { entry = entry; access_order = 1 }))
    × (entry.size_bytes ≡ 4)
unfolding run
run-put-lookup_example =
    run-put-lookup 2 10 small [] (codes "a") null 4 none 0 entry init-small put-small
