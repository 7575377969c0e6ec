-- ===== src/Graph/Topology/Critical/Follow.antt =====
-- The path that the loop of select_critical_path follows has as many nodes as the length says.
use comfy_ui_ng.Prelude.{
  ℕ, zero, suc, ◌≤◌, ◌≡◌, refl, sym, ap, ◌∙◌, subst, arith, leb, Bool-cases, Option-cases, List, [],
  ◌∷◌, ok, some, inl, inr, ◌==◌, nat_eq, ◌>>=◌, length,
}
use mathlib.Core.List.{Memᴰ}
use comfy_ui_ng.Prelude.Dict.{Dict, lookup}
use comfy_ui_ng.Prelude.Sort.{minimum, minimum-mem, minimum-nonempty}
use comfy_ui_ng.Graph.{Edge}
use comfy_ui_ng.Graph.Topology.{or_nil}
use comfy_ui_ng.Graph.Topology.Counts.{count}
use comfy_ui_ng.Graph.Topology.Build.{links}
use comfy_ui_ng.Graph.Topology.Critical.{index, successors}
use comfy_ui_ng.Graph.Topology.Critical.{candidates, follow}
use comfy_ui_ng.Graph.Topology.Critical.Longest.{IsLongest, IsMeasured, targets-successors}

-- Each node has an edge to the next.
abbrev pub Linked : List Edge → List ℕ → Type 0
Linked es [] = Unit
Linked es (v ∷ []) = Unit
Linked es (v ∷ w ∷ path) = (1 ≤ links es v w) × Linked es (w ∷ path)

pub Mem-count : (v : ℕ) (xs : List ℕ) → Memᴰ v xs → 1 ≤ count v xs
Mem-count v [] m = elim m [ ]
Mem-count v (x ∷ xs) (Memᴰ.head e) = ground arith
Mem-count v (x ∷ xs) (Memᴰ.tail m) = ground (arith, Mem-count v xs m)

pub some_eq : (m n : ℕ) → some m ≡ some n → m ≡ n
some_eq m n h = cc

module _ (es : List Edge) (order : List ℕ) (d : Dict ℕ ℕ) (w : IsMeasured es order d) where
  candidates_lem :
      (n : ℕ) (ts : List ℕ)
      → ((t : ℕ) → 1 ≤ count t ts → 1 ≤ count t order)
      → (cs : List ℕ) × (candidates d n ts ≡ ok cs)
        × ((t : ℕ) → 1 ≤ count t cs → (1 ≤ count t ts) × (lookup t d ≡ some n))
        × ((t : ℕ) → 1 ≤ count t ts → lookup t d ≡ some n → 1 ≤ count t cs)
  unfolding candidates index
  candidates_lem n [] f = ([], refl, λ t h. absurd (omega arith), λ t h e. absurd (omega arith))
  candidates_lem n (t ∷ ts) f =
      let (m, found, l) = w t (f t (ground arith)) in
      let (cs, e, sound, complete) = candidates_lem n ts (λ u h. f u (ground (arith, h))) in
      elim (Bool-cases (m == n)) [
        | inl p ↦
            let hit : lookup t d ≡ some n = found ∙ ap some (ground arith) in
            (
              t ∷ cs,
              rw (found, e, ◌>>=◌, p) refl,
              λ u h. elim (Bool-cases (t == u)) [
                | inl q ↦ let same : t ≡ u = ground arith in (ground arith, rw (← same) hit)
                | inr q ↦ let (x, y) = sound u (ground arith) in (ground arith, y)
              ],
              λ u h k. elim (Bool-cases (t == u)) [
                | inl q ↦ ground arith
                | inr q ↦ ground (arith, complete u (ground arith) k)
              ],
            )
        | inr p ↦ (
          cs,
          rw (found, e, ◌>>=◌, p) refl,
          λ u h. let (x, y) = sound u h in (ground arith, y),
          λ u h k. elim (Bool-cases (t == u)) [
            | inl q ↦
                let same : t ≡ u = ground arith in
                let clash : m ≡ n = some_eq m n (sym found ∙ (rw same k)) in absurd (ground arith)
            | inr q ↦ complete u (ground arith) k
          ],
        )
      ]

  -- The next node of a longest walk.
  next :
      (v k : ℕ)
      → IsLongest es v (suc (suc k))
      → ((t : ℕ) → 1 ≤ links es v t → 1 ≤ count t order)
      → (t : ℕ) × (1 ≤ links es v t) × (lookup t d ≡ some (suc k))
  next v k l closed =
      let (t, link, walk) = l.attained in
      let (n, found, lt) = w t (closed t link) in
      let at_least : suc k ≤ n = lt.longest (suc k) walk in
      (t, link, found ∙ ap some (same n at_least lt link))
    where
      same : {t : ℕ} (n : ℕ) → suc k ≤ n → IsLongest es t n → 1 ≤ links es v t → n ≡ suc k
      same zero h lt link = absurd (omega arith)
      same {t} (suc n) h lt link =
          let longer = l.longest (suc (suc n)) (t, link, lt.attained) in omega arith

  pub follow_lem :
      (k v : ℕ)
      → ((u t : ℕ) → 1 ≤ links es u t → 1 ≤ count t order)
      → 1 ≤ count v order
      → lookup v d ≡ some (suc k)
      → (rest : List ℕ) × (follow k (successors es []) d v ≡ ok (v ∷ rest))
        × (length rest ≡ k)
        × Linked es (v ∷ rest)
  unfolding follow
  follow_lem zero v closed h e = ([], refl, refl, tt)
  follow_lem (suc k) v closed h e =
      let (n, found, l) = w v h in
      let same : n ≡ suc (suc k) = some_eq n (suc (suc k)) (sym found ∙ e) in
      let (t, link, here) = next v k (subst (IsLongest es v) same l) (closed v) in
      let (cs, e', sound, complete) =
        candidates_lem (suc k) (or_nil (lookup v (successors es [])))
          (λ u i. closed v u ((targets-successors es v u).0 i)) in
      elim (Option-cases (minimum leb cs)) [
        | inl none_there ↦
            let t_there = complete t ((targets-successors es v t).1 link) here in
            absurd (
              let none_found : cs ≡ [] = minimum-nonempty leb cs none_there in
              let t_there' : 1 ≤ count t [] = subst (λ x. 1 ≤ count t x) none_found t_there in
              omega arith)
        | inr (c, chosen) ↦
            let (x, y) = sound c (Mem-count c cs (minimum-mem leb cs c chosen)) in
            let linked = (targets-successors es v c).0 x in
            let (rest, e'', len, path) = follow_lem k c closed (closed v c linked) y in
            (c ∷ rest, rw (e', ◌>>=◌, chosen, e'') refl, ap suc len, (linked, path))
      ]
