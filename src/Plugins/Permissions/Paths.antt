-- ===== src/Plugins/Permissions/Paths.antt =====
-- What a guard lets through: the paths beneath the roots that were granted.
use comfy_ui_ng.Prelude.{
  Bool, true, false, ◌&&◌, ◌≡◌, ◌↔◌, refl, List, [], ◌∷◌, ◌++◌, Option, none, some, subst,
  bind-eq-ok, text_beq-iff_eq, Result, ok, all, is_some, arith, Text, text_eq, ◌≟◌, Bool-cases, inl,
  inr,
}
use comfy_ui_ng.Prelude.Dict.{Dict, lookup, insert, lookup-insert}
use comfy_ui_ng.Plugins.Permissions.{
  PermissionError, PermissionSet, FilePath, is_root_alias, is_relative_to, PermissionGuard,
  resolve_root, resolve_roots, guarding, guard, beneath, allowed, require_path, require_read,
  require_write,
}
use mathlib.Core.List.{Memᴰ}

is_relative_to-append :
    (path root : FilePath)
    → (is_relative_to path root ≡ true) ↔ ((rest : FilePath) × (path ≡ root ++ rest))
unfolding is_relative_to
is_relative_to-append path [] = (λ h. (path, refl), λ h. refl)
is_relative_to-append [] (r ∷ rs) = (λ h. absurd (cc), λ (rest, e). absurd (cc))
is_relative_to-append (p ∷ ps) (r ∷ rs) =
    let below = is_relative_to-append ps rs in
    (
      λ h.
          let (a, b) : ((p ≟ r) ≡ true) × (is_relative_to ps rs ≡ true) =
            (ground arith, ground arith) in
          let (rest, e) = below.0 b in let same : p ≡ r = (text_beq-iff_eq p r).0 a in (rest, cc),
      λ (rest, e). let same : p ≡ r = cc in rw ((text_beq-iff_eq p r).1 same) (below.1 (rest, cc)),
    )

-- Every root of the table is a directory.
abbrev pub RootsAreDirs : (FilePath → Bool) → Dict Text FilePath → Type 0
RootsAreDirs is_dir d =
    (alias : Text) (root : FilePath) → lookup alias d ≡ some root → is_dir root ≡ true

-- The path lies beneath a directory that stands in the table under one of the aliases.
abbrev pub Granted : (FilePath → Bool) → Dict Text FilePath → List Text → FilePath → Type 0
Granted is_dir d aliases path =
    (alias : Text) × (root : FilePath) × (rest : FilePath) × Memᴰ alias aliases
    × (lookup alias d ≡ some root)
    × (is_dir root ≡ true)
    × (path ≡ root ++ rest)

module _ (resolve : Text → (strict : Bool) → Option FilePath) (is_dir : FilePath → Bool) where
  insert-RootsAreDirs :
      (alias : Text) (path : FilePath) (d : Dict Text FilePath)
      → is_dir path ≡ true
      → RootsAreDirs is_dir d
      → RootsAreDirs is_dir (insert alias path d)
  insert-RootsAreDirs alias path d h old j root e = elim (Bool-cases (alias ≟ j)) [
    | inl p ↦
        let q : some path ≡ some root = rw (lookup-insert alias j path d, p) at e in
        let same : path ≡ root = cc in rw (← same) h
    | inr p ↦ old j root (rw (lookup-insert alias j path d, p) at e)
  ]

  resolve_root-RootsAreDirs :
      (alias : Text) (o : Option FilePath) (d d' : Dict Text FilePath)
      → resolve_root resolve is_dir alias o d ≡ ok d'
      → RootsAreDirs is_dir d
      → RootsAreDirs is_dir d'
  unfolding resolve_root
  resolve_root-RootsAreDirs alias none d d' h old = absurd (cc)
  resolve_root-RootsAreDirs alias (some path) d d' h old = elim (Bool-cases (is_dir path)) [
    | inl p ↦
        let q : ◌≡◌ {A = Result PermissionError (Dict Text FilePath)} (ok (insert alias path d))
            (ok d') =
          rw p at h in
        let same : insert alias path d ≡ d' = cc in
        subst (RootsAreDirs is_dir) same (insert-RootsAreDirs alias path d p old)
    | inr p ↦ absurd (let q = rw p at h in cc)
  ]

beneath_iff :
    (path : FilePath) (o : Option FilePath)
    → (beneath path o ≡ true)
      ↔ ((root : FilePath) × (rest : FilePath) × (o ≡ some root) × (path ≡ root ++ rest))
beneath_iff path none = (λ h. absurd (cc), λ (root, rest, e, f). absurd (cc))
beneath_iff path (some r) =
    let (to, from) = is_relative_to-append path r in
    (
      λ h. let (rest, e) = to h in (r, rest, refl, e),
      λ (root, rest, e, f). let same : r ≡ root = cc in from (rest, cc),
    )

allowed-Granted :
    (is_dir : FilePath → Bool) (g : PermissionGuard) (path : FilePath) (aliases : List Text)
    → RootsAreDirs is_dir g.roots
    → (allowed g path aliases ≡ true) ↔ Granted is_dir g.roots aliases path
unfolding allowed
allowed-Granted is_dir g path [] dirs =
    (λ h. absurd (cc), λ (alias, root, rest, m, e, w, f). elim m [ ])
allowed-Granted is_dir g path (alias ∷ more) dirs =
    let (here, back) = beneath_iff path (lookup alias g.roots) in
    let (later, earlier) = allowed-Granted is_dir g path more dirs in
    (
      λ h. elim (Bool-cases (beneath path (lookup alias g.roots))) [
        | inl p ↦
            let (root, rest, e, f) = here p in
            (alias, root, rest, Memᴰ.head refl, e, dirs alias root e, f)
        | inr p ↦
            let (j, root, rest, m, e, w, f) = later (rw p at h) in
            (j, root, rest, Memᴰ.tail m, e, w, f)
      ],
      λ (j, root, rest, m, e, w, f). elim m [
        | Memᴰ.head same ↦ rw (back (root, rest, rw (← same) e, f)) refl
        | Memᴰ.tail m' ↦ rw (earlier (j, root, rest, m', e, w, f)) (ground arith)
      ],
    )

module _ (resolve : Text → (strict : Bool) → Option FilePath) (is_dir : FilePath → Bool) where
  resolve_roots-RootsAreDirs :
      (rs : List (Text × Text)) (d d' : Dict Text FilePath)
      → resolve_roots resolve is_dir rs d ≡ ok d'
      → RootsAreDirs is_dir d
      → RootsAreDirs is_dir d'
  unfolding resolve_roots
  resolve_roots-RootsAreDirs [] d d' h old =
      let same : d ≡ d' = cc in subst (RootsAreDirs is_dir) same old
  resolve_roots-RootsAreDirs ((alias, raw) ∷ rs) d d' h old =
      elim (Bool-cases (is_root_alias alias)) [
        | inl p ↦
            let (mid, e, k) =
              bind-eq-ok (resolve_root resolve is_dir alias (resolve raw true) d)
                (λ x. resolve_roots resolve is_dir rs x) (rw p at h) in
            resolve_roots-RootsAreDirs rs mid d' k
              (resolve_root-RootsAreDirs resolve is_dir alias (resolve raw true) d mid e old)
        | inr p ↦ absurd (let q = rw p at h in cc)
      ]

  guarding_roots :
      (permissions : PermissionSet) (d : Dict Text FilePath) (g : PermissionGuard)
      → guarding resolve is_dir permissions d ≡ ok g
      → (d ≡ g.roots) × (permissions ≡ g.permissions)
  unfolding guarding
  guarding_roots permissions d g h =
      elim (Bool-cases (
        all (λ alias. is_some (lookup alias d)) permissions.filesystem_read
        && all (λ alias. is_some (lookup alias d)) permissions.filesystem_write)) [
          | inl p ↦
              let q : ◌≡◌ {A = Result PermissionError PermissionGuard}
                  (ok (record { permissions = permissions; roots = d })) (ok g) =
                rw p at h in
              (cc, cc)
          | inr p ↦ absurd (let q = rw p at h in cc)
        ]

  guard-RootsAreDirs :
      (permissions : PermissionSet) (rs : List (Text × Text)) (g : PermissionGuard)
      → guard resolve is_dir permissions rs ≡ ok g
      → RootsAreDirs is_dir g.roots × (permissions ≡ g.permissions)
  unfolding guard
  guard-RootsAreDirs permissions rs g h =
      let (d, e, k) =
        bind-eq-ok (resolve_roots resolve is_dir rs []) (guarding resolve is_dir permissions) h in
      let (roots, same) = guarding_roots permissions d g k in
      (
        subst (RootsAreDirs is_dir) roots
            (resolve_roots-RootsAreDirs rs [] d e (λ alias root e'. absurd (unfold lookup in cc))),
        same,
      )

  require_path_iff :
      (g : PermissionGuard) (permission : Text) (aliases : List Text) (o : Option FilePath)
      (path : FilePath)
      → RootsAreDirs is_dir g.roots
      → (require_path g permission aliases o ≡ ok path)
        ↔ ((o ≡ some path) × Granted is_dir g.roots aliases path)
  unfolding require_path
  require_path_iff g permission aliases none path dirs = (λ h. absurd (cc), λ (e, f). absurd (cc))
  require_path_iff g permission aliases (some found) path dirs = (
    λ h. elim (Bool-cases (allowed g found aliases)) [
      | inl p ↦
          let q : ◌≡◌ {A = Result PermissionError FilePath} (ok found) (ok path) = rw p at h in
          let same : found ≡ path = cc in
          (
            cc,
            subst (Granted is_dir g.roots aliases) same
                ((allowed-Granted is_dir g found aliases dirs).0 p),
          )
      | inr p ↦ absurd (let q = rw p at h in cc)
    ],
    λ (e, f).
        let same : found ≡ path = cc in
        rw (same, (allowed-Granted is_dir g path aliases dirs).1 f) refl,
  )

  -- A guard that was made lets a path be read, or written, exactly when it resolves to a path beneath
  -- a directory that stands in its table under one of the aliases declared for that; nothing else is
  -- returned, whatever the text of the path.
  pub require_path-Granted :
      (permissions : PermissionSet) (rs : List (Text × Text)) (g : PermissionGuard)
      → guard resolve is_dir permissions rs ≡ ok g
      → ((raw : Text) (path : FilePath)
          → (require_read resolve g raw ≡ ok path) ↔ (
              (resolve raw true ≡ some path)
              × Granted is_dir g.roots permissions.filesystem_read path))
        × ((raw : Text) (path : FilePath)
            → (require_write resolve g raw ≡ ok path) ↔ (
                (resolve raw false ≡ some path)
                × Granted is_dir g.roots permissions.filesystem_write path))
  unfolding require_read require_write
  require_path-Granted permissions rs g h =
      let (dirs, same) = guard-RootsAreDirs permissions rs g h in
      rw same (
        λ raw path. require_path_iff g _ g.permissions.filesystem_read (resolve raw true) path dirs,
        λ raw path.
            require_path_iff g _ g.permissions.filesystem_write (resolve raw false) path dirs,
      )
