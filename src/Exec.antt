-- ===== src/Exec.antt =====
-- Calls that change the world outside and may fail: what was changed before a failure stays.
pub mod Kept
use context_os_mcp.Prelude.{
  map_err, Bool, Result, ap, err, false, ok, ok-injective, refl, true, ◌≡◌,
}

abbrev pub Exec : Type 0 → Type 0 → Type 0 → Type 0
Exec W E A = W → Result E A × W

abbrev pub and_then : {W E A B : Type 0} → Result E A × W → (A → Exec W E B) → Result E B × W
and_then (ok a, w) f = f a w
and_then (err e, w) f = (err e, w)

-- A call that cannot fail.
abbrev pub Act : Type 0 → Type 0 → Type 0
Act W A = W → A × W

infixl 5 ◌>>=◌ ◌>>◌
-- Shut, so that the rules below find their places.
unfoldable pub ◌>>=◌ : {W E A B : Type 0} → Exec W E A → (A → Exec W E B) → Exec W E B
(m >>= f) w = and_then (m w) f

abbrev pub ◌>>◌ : {W E B : Type 0} → Exec W E (Unit {0}) → Exec W E B → Exec W E B
m >> k = m >>= λ _. k

-- An outcome that depends on the world and leaves it alone.
abbrev pub look : {W E A : Type 0} → (W → Result E A) → Exec W E A
look f w = (f w, w)

-- A call with another type of errors.
abbrev pub mapped : {W E E' A : Type 0} → (E → E') → Exec W E A → Exec W E' A
mapped f m w = let (r, w') = m w in (map_err f r, w')

-- A call that says whether it succeeded, and the error of its failure.
abbrev pub answered : {W E : Type 0} → E → Bool × W → Result E (Unit {0}) × W
answered e (true, w) = (ok tt, w)
answered e (false, w) = (err e, w)

abbrev pub attempt : {W E : Type 0} → E → Act W Bool → Exec W E (Unit {0})
attempt e act w = answered e (act w)

-- The parts of a call that succeeded.
pub and_then-eq-ok :
    {W E A B : Type 0} (r : Result E A × W) (f : A → Exec W E B) {b : B} {w' : W}
    → and_then r f ≡ (ok b, w')
    → (a : A) × (w : W) × (r ≡ (ok a, w)) × (f a w ≡ (ok b, w'))
and_then-eq-ok (ok a, w) f h = (a, w, refl, h)
and_then-eq-ok (err e, w) f h = absurd (cc (ap (λ p. p.0) h))

pub ok_pair :
    {W E A : Type 0} {a b : A} {w w' : W}
    → ◌≡◌ {A = Result E A × W} (ok a, w) (ok b, w')
    → (a ≡ b) × (w ≡ w')
ok_pair h = (ok-injective (ap (λ p. p.0) h), ap (λ p. p.1) h)
