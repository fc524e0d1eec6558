-- ===== src/Prelude/Equality.antt =====
-- `PartialEq` as an interface: a Boolean test and the law that it decides the path type.
use Prim.Native.Nat.{ℕ}
use mathlib.Core.Path.{◌≡◌, refl}
use mathlib.Core.Logic.{◌↔◌}
use mathlib.Core.Bool.{Bool, true, false, ◌&&◌, ◌||◌}
use mathlib.Core.List.{List, [], ◌∷◌, ◌++◌}
use mathlib.Core.Option.{Option, none, some}
use native.Mathlib.Omega.{arith}
use context_os_mcp.Prelude.Tests.{nat_beq, nat_beq_iff}

pub record Eq {ℓ} (A : Type ℓ) : Type ℓ where
  pub equal : A → A → Bool
  pub equal_iff : (a b : A) → (equal a b ≡ true) ↔ (a ≡ b)

infix 50 ◌==◌
abbrev pub ◌==◌ {ℓ} : {A : Type ℓ} ⦃e : Eq A⦄ → A → A → Bool
◌==◌ ⦃e⦄ = e.equal

instance abbrev pub nat_eq : Eq ℕ
nat_eq = record { equal = nat_beq; equal_iff = nat_beq_iff }

module _ {ℓ} {A : Type ℓ} ⦃e : Eq A⦄ where
  abbrev pub list_beq : List A → List A → Bool
  list_beq [] [] = true
  list_beq (x ∷ xs) (y ∷ ys) = x == y && list_beq xs ys
  list_beq _ _ = false

  pub list_beq_iff : (xs ys : List A) → (list_beq xs ys ≡ true) ↔ (xs ≡ ys)
  list_beq_iff (x ∷ xs) (y ∷ ys) = ground (arith, e.equal_iff x y, list_beq_iff xs ys)
  list_beq_iff _ _ = ground arith

  instance abbrev pub list_eq : Eq (List A)
  list_eq = record { equal = list_beq; equal_iff = list_beq_iff }

  abbrev pub option_beq : Option A → Option A → Bool
  option_beq none none = true
  option_beq (some x) (some y) = x == y
  option_beq _ _ = false

  pub option_beq_iff : (x y : Option A) → (option_beq x y ≡ true) ↔ (x ≡ y)
  option_beq_iff (some x) (some y) = ground (arith, e.equal_iff x y)
  option_beq_iff _ _ = ground arith

  instance abbrev pub option_eq : Eq (Option A)
  option_eq = record { equal = option_beq; equal_iff = option_beq_iff }

  -- `x == x`
  pub beq_refl : (x : A) → (x == x) ≡ true
  beq_refl x = (e.equal_iff x x).1 refl

  -- `strip_prefix`: what follows `p` in `xs`, if `xs` starts with it.
  abbrev pub strip_prefix : List A → List A → Option (List A)
  strip_prefix [] xs = some xs
  strip_prefix (p ∷ ps) [] = none
  strip_prefix (p ∷ ps) (x ∷ xs) = elim (p == x) [ true ↦ strip_prefix ps xs | false ↦ none ]

  abbrev pub starts_with : List A → List A → Bool
  starts_with xs p = elim (strip_prefix p xs) [ some _ ↦ true | none ↦ false ]

  pub strip_prefix_sound :
      (p xs : List A) {rest : List A} → strip_prefix p xs ≡ some rest → xs ≡ p ++ rest
  strip_prefix_sound [] xs h = ground arith
  strip_prefix_sound (p ∷ ps) [] h = cc
  strip_prefix_sound (p ∷ ps) (x ∷ xs) {rest} h =
      ground (arith, e.equal_iff p x, strip_prefix_sound ps xs {rest = rest})

  pub strip_prefix-append : (p rest : List A) → strip_prefix p (p ++ rest) ≡ some rest
  strip_prefix-append [] rest = refl
  strip_prefix-append (p ∷ ps) rest = ground (arith, beq_refl p, strip_prefix-append ps rest)

  pub starts_with-append : (p rest : List A) → starts_with (p ++ rest) p ≡ true
  starts_with-append p rest = ground (arith, strip_prefix-append p rest)

  abbrev pub contains : A → List A → Bool
  contains a [] = false
  contains a (x ∷ xs) = a == x || contains a xs
