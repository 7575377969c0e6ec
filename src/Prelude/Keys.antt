-- ===== src/Prelude/Keys.antt =====
-- Keys with a Boolean equality, and Python's texts as lists of code points.
use Prim.Native.Nat.{ℕ}
use Prim.Native.Char.{code}
use Prim.Native.String.{String}
use mathlib.Core.Path.{◌≡◌, refl}
use mathlib.Core.Logic.{◌↔◌, ◌≢◌, ◌⊎◌, inl, inr}
use mathlib.Core.Bool.{Bool, true, false, ◌&&◌, ◌||◌}
use mathlib.Core.List.{List, [], ◌∷◌}
use mathlib.Core.Option.{Option, none, some}
use native.Mathlib.Omega.{arith}
use comfy_ui_ng.Prelude.Tests.{◌==◌, ==_iff, ltb, Bool-cases}

pub record Eq {ℓ} (A : Type ℓ) : Type ℓ where
  pub beq : A → A → Bool
  pub beq-iff_eq : (a b : A) → (beq a b ≡ true) ↔ (a ≡ b)

-- One test for every type that has an instance.
infix 50 ◌≟◌
abbrev pub ◌≟◌ {ℓ} : {A : Type ℓ} ⦃e : Eq A⦄ → A → A → Bool
◌≟◌ ⦃e⦄ = e.beq

pub ≟_refl {ℓ} : {A : Type ℓ} ⦃e : Eq A⦄ (a : A) → (a ≟ a) ≡ true
≟_refl ⦃e⦄ a = (e.beq-iff_eq a a).1 refl

pub key-cases {ℓ} : {A : Type ℓ} ⦃e : Eq A⦄ (a b : A) → (a ≡ b) ⊎ (a ≢ b)
key-cases ⦃e⦄ a b = elim (Bool-cases (a ≟ b)) [
  | inl p ↦ inl ((e.beq-iff_eq a b).0 p)
  | inr p ↦ inr (λ q. let r = (e.beq-iff_eq a b).1 q in cc)
]

instance abbrev pub nat_eq : Eq ℕ
nat_eq = record { beq = ◌==◌; beq-iff_eq = ==_iff }

-- A `str`: its code points, lone surrogates included.
abbrev pub Text : Type 0
Text = List ℕ

abbrev pub text_beq : Text → Text → Bool
text_beq [] [] = true
text_beq [] (d ∷ t) = false
text_beq (c ∷ s) [] = false
text_beq (c ∷ s) (d ∷ t) = c == d && text_beq s t

pub text_beq-iff_eq : (s t : Text) → (text_beq s t ≡ true) ↔ (s ≡ t)
text_beq-iff_eq [] [] = ground arith
text_beq-iff_eq [] (d ∷ t) = ground arith
text_beq-iff_eq (c ∷ s) [] = ground arith
text_beq-iff_eq (c ∷ s) (d ∷ t) = ground (arith, text_beq-iff_eq s t)

instance abbrev pub text_eq : Eq Text
text_eq = record { beq = text_beq; beq-iff_eq = text_beq-iff_eq }

abbrev pub option_beq {ℓ} : {A : Type ℓ} ⦃e : Eq A⦄ → Option A → Option A → Bool
option_beq none none = true
option_beq none (some b) = false
option_beq (some a) none = false
option_beq (some a) (some b) = a ≟ b

pub option_beq-iff_eq {ℓ} :
    {A : Type ℓ} ⦃e : Eq A⦄ (s t : Option A) → (option_beq s t ≡ true) ↔ (s ≡ t)
option_beq-iff_eq none none = ground arith
option_beq-iff_eq none (some b) = ground arith
option_beq-iff_eq (some a) none = ground arith
option_beq-iff_eq ⦃e⦄ (some a) (some b) = ground (arith, e.beq-iff_eq a b)

instance abbrev pub option_eq {ℓ} : {A : Type ℓ} ⦃e : Eq A⦄ → Eq (Option A)
option_eq = record { beq = option_beq; beq-iff_eq = option_beq-iff_eq }

-- The code points of a literal.
abbrev pub codes : String → Text
codes String.[] = []
codes (String.◌∷◌ c s) = code c ∷ codes s

-- Python's order of texts: by code point, a prefix first.
abbrev pub text_leb : Text → Text → Bool
text_leb [] t = true
text_leb (c ∷ s) [] = false
text_leb (c ∷ s) (d ∷ t) = ltb c d || c == d && text_leb s t

pub text_leb_total : (s t : Text) → text_leb s t ≡ false → text_leb t s ≡ true
text_leb_total [] t h = cc
text_leb_total (c ∷ s) [] h = refl
text_leb_total (c ∷ s) (d ∷ t) h = ground (arith, text_leb_total s t)

pub text_leb_trans :
    (s t u : Text) → text_leb s t ≡ true → text_leb t u ≡ true → text_leb s u ≡ true
text_leb_trans [] t u h k = refl
text_leb_trans (c ∷ s) [] u h k = cc
text_leb_trans (c ∷ s) (d ∷ t) [] h k = cc
text_leb_trans (c ∷ s) (d ∷ t) (e ∷ u) h k = ground (arith, text_leb_trans s t u)

pub text_leb_refl : (s : Text) → text_leb s s ≡ true
text_leb_refl [] = refl
text_leb_refl (c ∷ s) = ground (arith, text_leb_refl s)

module _ {ℓ κ} {A : Type ℓ} {B : Type κ} ⦃e : Eq A⦄ ⦃f : Eq B⦄ where
  abbrev pub pair_beq : A × B → A × B → Bool
  pair_beq s t = e.beq s.0 t.0 && f.beq s.1 t.1

  pub pair_beq-iff_eq : (s t : A × B) → (pair_beq s t ≡ true) ↔ (s ≡ t)
  pair_beq-iff_eq s t = ground (arith, e.beq-iff_eq s.0 t.0, f.beq-iff_eq s.1 t.1)

  instance abbrev pub pair_eq : Eq (A × B)
  pair_eq = record { beq = pair_beq; beq-iff_eq = pair_beq-iff_eq }
