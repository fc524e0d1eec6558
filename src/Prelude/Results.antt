-- ===== src/Prelude/Results.antt =====
-- `Result<T, E>` with the `?` operator as bind.
use mathlib.Core.Path.{◌≡◌, refl, subst}
use mathlib.Core.Bool.{Bool, true, false}
use context_os_mcp.Prelude.Tests.{if◌then◌else◌}
use mathlib.Core.Logic.{◌⊎◌, inl, inr}

pub data Result {ℓ κ} (E : Type ℓ) (A : Type κ) : Type (ℓ ⊔ κ) where
  ok : A → Result E A
  err : E → Result E A

infixl 5 ◌>>=◌ ◌>>◌
-- Shut, so that the rules below find their places.
unfoldable pub ◌>>=◌ {ℓ κ μ} :
    {E : Type ℓ} {A : Type κ} {B : Type μ} → Result E A → (A → Result E B) → Result E B
ok a >>= f = f a
err e >>= f = err e

abbrev pub ◌>>◌ {ℓ μ} : {E : Type ℓ} {B : Type μ} → Result E (Unit {0}) → Result E B → Result E B
m >> k = m >>= λ _. k

-- `map_err`
abbrev pub map_err {ℓ κ μ} :
    {E : Type ℓ} {F : Type κ} {A : Type μ} → (E → F) → Result E A → Result F A
map_err f (ok a) = ok a
map_err f (err e) = err (f e)

pub ok-injective {ℓ κ} :
    {E : Type ℓ} {A : Type κ} {a b : A} → ◌≡◌ {A = Result E A} (ok a) (ok b) → a ≡ b
ok-injective h = cc

pub map_err-eq-ok {ℓ κ μ} :
    {E : Type ℓ} {F : Type κ} {A : Type μ} (f : E → F) (m : Result E A) {a : A}
    → map_err f m ≡ ok a
    → m ≡ ok a
map_err-eq-ok f (ok b) h = cc
map_err-eq-ok f (err e) h = cc

module _ {ℓ κ μ} {E : Type ℓ} {A : Type κ} {B : Type μ} where
  pub bind-eq-ok :
      (m : Result E A) (f : A → Result E B) {b : B}
      → (m >>= f) ≡ ok b
      → (a : A) × (m ≡ ok a) × (f a ≡ ok b)
  unfolding ◌>>=◌
  bind-eq-ok (ok a) f h = (a, refl, h)
  bind-eq-ok (err e) f h = cc

  pub bind-eq-err :
      (m : Result E A) (f : A → Result E B) {e : E}
      → (m >>= f) ≡ err e
      → (m ≡ err e) ⊎ ((a : A) × (m ≡ ok a) × (f a ≡ err e))
  unfolding ◌>>=◌
  bind-eq-err (ok a) f h = inr (a, refl, h)
  bind-eq-err (err e) f h = inl cc

-- Whatever `m` returns has `P`: a postcondition, with one rule for each way to build a result.
pub record Ensures {ℓ κ μ} {E : Type ℓ} {A : Type κ} (P : A → Type μ) (m : Result E A)
    : Type (ℓ ⊔ κ ⊔ μ) where
  pub at : (a : A) → m ≡ ok a → P a

module _ {ℓ κ μ} {E : Type ℓ} {A : Type κ} {P : A → Type μ} where
  pub Ensures-ok : (a : A) → P a → Ensures {E = E} P (ok a)
  Ensures-ok a p = record { at = λ b e. subst P (ok-injective e) p }

  pub Ensures-err : (e : E) → Ensures P (err e)
  Ensures-err e = record { at = λ b h. cc }

module _ {ℓ κ μ ν} {E : Type ℓ} {A : Type κ} {B : Type μ} {P : B → Type ν} where
  pub Ensures-bind :
      (m : Result E A) (f : A → Result E B)
      → ((a : A) → m ≡ ok a → Ensures P (f a))
      → Ensures P (m >>= f)
  unfolding ◌>>=◌
  Ensures-bind (ok a) f h = h a refl
  Ensures-bind (err e) f h = Ensures-err e

module _ {ℓ κ μ} {E : Type ℓ} {A : Type κ} {P : A → Type μ} where
  pub Ensures-if :
      (b : Bool) (m n : Result E A) → Ensures P m → Ensures P n → Ensures P (if b then m else n)
  Ensures-if true m n p q = p
  Ensures-if false m n p q = q

  pub Ensures-map_err {ν} :
      {F : Type ν} (f : E → F) (m : Result E A) → Ensures P m → Ensures P (map_err f m)
  Ensures-map_err f (ok a) h = record { at = λ b e. h.at b (cc) }
  Ensures-map_err f (err e) h = Ensures-err (f e)

  pub Ensures-weaken {ν} :
      {Q : A → Type ν} (m : Result E A) → ((a : A) → P a → Q a) → Ensures P m → Ensures Q m
  Ensures-weaken m f h = record { at = λ a e. f a (h.at a e) }
