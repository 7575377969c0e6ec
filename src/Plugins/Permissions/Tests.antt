-- ===== src/Plugins/Permissions/Tests.antt =====
-- The permissions on small inputs.
use comfy_ui_ng.Prelude.{
  Bool, true, false, ◌≡◌, ◌↔◌, refl, [], ◌∷◌, Option, none, some, ok, err, Text, text_eq, codes,
  ◌≟◌, if◌then◌else◌,
}
use comfy_ui_ng.Prelude.Dict.{lookup, insert}
use comfy_ui_ng.Prelude.Sort.{sort}
use comfy_ui_ng.Plugins.Permissions.{
  denied, FilePath, is_relative_to, PermissionSet, PermissionGuard, none_granted, check_aliases,
  is_root_alias, has_duplicates, check_permissions, resolve_roots, require_path, allowed,
  to_mapping, from_mapping, guard, require_read, require_write,
}
use comfy_ui_ng.Plugins.Permissions.Paths.{Granted, require_path-Granted}

-- A file system with a link out of the models directory.
abbrev models : FilePath
models = codes "srv" ∷ codes "models" ∷ []

abbrev outside : FilePath
outside = codes "etc" ∷ codes "keys" ∷ []

abbrev files : Text → Bool → Option FilePath
files raw strict =
    if raw ≟ codes "models"
    then some models
    else if raw ≟ codes "models/a"
    then some (codes "srv" ∷ codes "models" ∷ codes "a" ∷ [])
    else if raw ≟ codes "models/link"
    then some outside
    else none

abbrev dirs : FilePath → Bool
dirs path = is_relative_to path models

abbrev reads_models : PermissionSet
reads_models = record none_granted { filesystem_read = codes "models" ∷ [] }

abbrev guarded : PermissionGuard
guarded = record { permissions = reads_models; roots = (codes "models", models) ∷ [] }

guarded_lem : guard files dirs reads_models ((codes "models", codes "models") ∷ []) ≡ ok guarded
unfolding guard resolve_roots is_root_alias is_relative_to lookup insert
guarded_lem = refl

file_read :
    require_read files guarded (codes "models/a")
    ≡ ok (codes "srv" ∷ codes "models" ∷ codes "a" ∷ [])
unfolding require_read require_path allowed lookup is_relative_to
file_read = refl

link_refused :
    require_read files guarded (codes "models/link") ≡ err (denied (codes "filesystem_read"))
unfolding require_read require_path allowed lookup is_relative_to
link_refused = refl

mapping_read : from_mapping (some (to_mapping reads_models)) ≡ ok reads_models
unfolding from_mapping to_mapping lookup check_aliases is_root_alias has_duplicates
    check_permissions sort
mapping_read = refl

require_path-Granted_example :
    ((raw : Text) (path : FilePath)
      → (require_read files guarded raw ≡ ok path)
        ↔ ((files raw true ≡ some path) × Granted dirs guarded.roots (codes "models" ∷ []) path))
    × ((raw : Text) (path : FilePath)
        → (require_write files guarded raw ≡ ok path)
          ↔ ((files raw false ≡ some path) × Granted dirs guarded.roots [] path))
require_path-Granted_example =
    require_path-Granted files dirs reads_models ((codes "models", codes "models") ∷ []) guarded
      guarded_lem
