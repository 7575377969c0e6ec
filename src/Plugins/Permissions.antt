-- ===== src/Plugins/Permissions.antt =====
-- plugins/permissions.py: PermissionSet and PermissionGuard. A resolved path is the list of its parts.
-- `Path.resolve` and `Path.is_dir` ask the file system, so they are arguments.
use comfy_ui_ng.Prelude.{
  ℕ, Bool, true, false, not, ◌&&◌, ◌||◌, List, [], ◌∷◌, Option, none, some, Result, ok, err, ◌>>=◌,
  ◌>>◌, raise_if, leb, ◌==◌, all, any, is_some, String, Text, text_eq, text_leb, ◌≟◌, codes,
  if◌then◌else◌,
}
use comfy_ui_ng.Prelude.Dict.{Dict, lookup, insert, keys}
use comfy_ui_ng.Prelude.Sort.{sort}
pub mod Paths
mod Tests

pub data PermissionError : Type 0 where
  type_error : String → PermissionError
  value_error : String → PermissionError
  denied : Text → PermissionError
  unresolved : PermissionError

abbrev is_lower : ℕ → Bool
is_lower c = leb 97 c && leb c 122

abbrev is_alias_rest : ℕ → Bool
is_alias_rest c = is_lower c || (leb 48 c && leb c 57) || c == 95

-- `_ROOT_ALIAS.fullmatch`: `[a-z][a-z0-9_]*`
pub is_root_alias : Text → Bool
is_root_alias [] = false
is_root_alias (c ∷ s) = is_lower c && all is_alias_rest s

pub has_duplicates : List Text → Bool
has_duplicates [] = false
has_duplicates (t ∷ ts) = any (λ u. u ≟ t) ts || has_duplicates ts

-- The values of a mapping that the constructor tells apart.
pub data Setting : Type 0 where
  flag : Bool → Setting
  array : List Text → Setting
  other : Setting

-- `_boolean`
pub boolean : Setting → Result PermissionError Bool
boolean (flag b) = ok b
boolean _ = err (type_error "permission must be a boolean")

-- `_aliases`
pub check_aliases : List Text → Result PermissionError (List Text)
check_aliases ts = do
  raise_if (not (all is_root_alias ts)) (value_error "permission contains an invalid root alias")
  raise_if (has_duplicates ts) (value_error "permission contains duplicate root aliases")
  ok (sort text_leb ts)

pub aliases : Setting → Result PermissionError (List Text)
aliases (array ts) = check_aliases ts
aliases _ = err (type_error "permission must be an array of root aliases")

pub record PermissionSet : Type 0 where
  pub network : Bool
  pub filesystem_read : List Text
  pub filesystem_write : List Text
  pub subprocess : Bool
  pub gpu : Bool
  pub camera : Bool
  pub microphone : Bool

-- `__post_init__`
pub check_permissions : PermissionSet → Result PermissionError PermissionSet
check_permissions p = do
  read ← check_aliases p.filesystem_read
  write ← check_aliases p.filesystem_write
  ok (record p { filesystem_read = read; filesystem_write = write })

-- `_PERMISSION_FIELDS`
abbrev pub permission_fields : List Text
permission_fields =
    codes "network"
    ∷ codes "filesystem_read"
    ∷ codes "filesystem_write"
    ∷ codes "subprocess"
    ∷ codes "gpu"
    ∷ codes "camera"
    ∷ codes "microphone"
    ∷ []

abbrev get_or : Option Setting → Setting → Setting
get_or none default = default
get_or (some s) default = s

abbrev pub none_granted : PermissionSet
none_granted = record {
  network = false;
  filesystem_read = [];
  filesystem_write = [];
  subprocess = false;
  gpu = false;
  camera = false;
  microphone = false;
}

-- `value.get("…", False)` and `value.get("…", ())`
read_flag : Dict Text Setting → Text → Result PermissionError Bool
unfolding boolean
read_flag d name = boolean (get_or (lookup name d) (flag false))

read_aliases : Dict Text Setting → Text → Result PermissionError (List Text)
read_aliases d name = aliases (get_or (lookup name d) (array []))

pub from_mapping : Option (Dict Text Setting) → Result PermissionError PermissionSet
unfolding read_flag read_aliases aliases
from_mapping none = check_permissions none_granted
from_mapping (some d) = do
  raise_if (not (all (λ k. any (λ f. f ≟ k) permission_fields) (keys d)))
      (value_error "unknown plugin permissions")
  network ← read_flag d (codes "network")
  read ← read_aliases d (codes "filesystem_read")
  write ← read_aliases d (codes "filesystem_write")
  subprocess ← read_flag d (codes "subprocess")
  gpu ← read_flag d (codes "gpu")
  camera ← read_flag d (codes "camera")
  microphone ← read_flag d (codes "microphone")
  check_permissions (record {
    network = network;
    filesystem_read = read;
    filesystem_write = write;
    subprocess = subprocess;
    gpu = gpu;
    camera = camera;
    microphone = microphone;
  })

pub to_mapping : PermissionSet → Dict Text Setting
to_mapping p =
    (codes "network", flag p.network)
    ∷ (codes "filesystem_read", array p.filesystem_read)
    ∷ (codes "filesystem_write", array p.filesystem_write)
    ∷ (codes "subprocess", flag p.subprocess)
    ∷ (codes "gpu", flag p.gpu)
    ∷ (codes "camera", flag p.camera)
    ∷ (codes "microphone", flag p.microphone)
    ∷ []

abbrev pub FilePath : Type 0
FilePath = List Text

-- `path.is_relative_to(root)`: the root's parts come first.
pub is_relative_to : FilePath → FilePath → Bool
is_relative_to path [] = true
is_relative_to [] (r ∷ rs) = false
is_relative_to (p ∷ ps) (r ∷ rs) = p ≟ r && is_relative_to ps rs

pub record PermissionGuard : Type 0 where
  pub permissions : PermissionSet
  pub roots : Dict Text FilePath

-- `resolve path strict` is `none` where `Path.resolve` raises.
module _ (resolve : Text → (strict : Bool) → Option FilePath) (is_dir : FilePath → Bool) where
  resolve_root :
      Text → Option FilePath → Dict Text FilePath → Result PermissionError (Dict Text FilePath)
  resolve_root alias none d = err unresolved
  resolve_root alias (some path) d = do
    raise_if (not (is_dir path)) (value_error "permission root must be a directory")
    ok (insert alias path d)

  -- The loop over `roots.items()`.
  pub resolve_roots :
      List (Text × Text) → Dict Text FilePath → Result PermissionError (Dict Text FilePath)
  unfolding resolve_root
  resolve_roots [] d = ok d
  resolve_roots ((alias, raw) ∷ rest) d = do
    raise_if (not (is_root_alias alias)) (value_error "permission root aliases are invalid")
    d' ← resolve_root alias (resolve raw true) d
    resolve_roots rest d'

  -- `declared - set(resolved)` is empty.
  guarding : PermissionSet → Dict Text FilePath → Result PermissionError PermissionGuard
  guarding permissions resolved = do
    raise_if
        (not (
          all (λ alias. is_some (lookup alias resolved)) permissions.filesystem_read
          && all (λ alias. is_some (lookup alias resolved)) permissions.filesystem_write))
        (value_error "permission roots are missing")
    ok (record { permissions = permissions; roots = resolved })

  -- `PermissionGuard.__init__`
  pub guard : PermissionSet → List (Text × Text) → Result PermissionError PermissionGuard
  unfolding guarding
  guard permissions roots = do resolved ← resolve_roots roots []; guarding permissions resolved

-- `self.roots[alias]` is there for a declared alias (Paths.antt); a missing one would raise.
abbrev pub beneath : FilePath → Option FilePath → Bool
beneath path none = false
beneath path (some root) = is_relative_to path root

-- `for alias in aliases: if path.is_relative_to(…): return path`
pub allowed : PermissionGuard → FilePath → List Text → Bool
allowed g path [] = false
allowed g path (alias ∷ rest) = beneath path (lookup alias g.roots) || allowed g path rest

-- `_require_path` after the path was resolved; `none` is a `resolve` that raised OSError or
-- RuntimeError. It is assumed to raise nothing else.
pub require_path :
    PermissionGuard → Text → List Text → Option FilePath → Result PermissionError FilePath
require_path g permission names none = err (denied permission)
require_path g permission names (some path) =
    if allowed g path names then ok path else err (denied permission)

module _ (resolve : Text → (strict : Bool) → Option FilePath) where
  pub require_read : PermissionGuard → Text → Result PermissionError FilePath
  require_read g raw =
      require_path g (codes "filesystem_read") g.permissions.filesystem_read (resolve raw true)

  pub require_write : PermissionGuard → Text → Result PermissionError FilePath
  require_write g raw =
      require_path g (codes "filesystem_write") g.permissions.filesystem_write (resolve raw false)

-- `_require_capability` for each of the flags.
pub require : Bool → Text → Result PermissionError (Unit {0})
require granted name = raise_if (not granted) (denied name)

pub require_network : PermissionGuard → Result PermissionError (Unit {0})
require_network g = require g.permissions.network (codes "network")

pub require_subprocess : PermissionGuard → Result PermissionError (Unit {0})
require_subprocess g = require g.permissions.subprocess (codes "subprocess")

pub require_gpu : PermissionGuard → Result PermissionError (Unit {0})
require_gpu g = require g.permissions.gpu (codes "gpu")

pub require_camera : PermissionGuard → Result PermissionError (Unit {0})
require_camera g = require g.permissions.camera (codes "camera")

pub require_microphone : PermissionGuard → Result PermissionError (Unit {0})
require_microphone g = require g.permissions.microphone (codes "microphone")
