-- ===== src/Exec/Kept.antt =====
-- What a call keeps, put together from what its parts keep.
use context_os_mcp.Exec.{Exec, ◌>>=◌, look, and_then, mapped}
use context_os_mcp.Prelude.{
  Bool, Result, ap, err, false, if◌then◌else◌, map_err-eq-ok, ok, refl, true, ◌≡◌,
}

module _ {W : Type 0} where
  -- What some run of a call returns.
  abbrev pub Returned : {E A : Type 0} → Exec W E A → A → Type 0
  Returned m a = (w : W) × (w' : W) × (m w ≡ (ok a, w'))

  -- A call that keeps a property of the world, whether it succeeds or not.
  abbrev pub Keeps : {E A : Type 0} → (W → Type 0) → Exec W E A → Type 0
  Keeps P m = (w : W) → P w → P (m w).1

  module _ (P : W → Type 0) {E A B : Type 0} where
    and_then-Keeps :
        (m : Exec W E A) (f : A → Exec W E B)
        → ((a : A) → Returned m a → Keeps P (f a))
        → (w : W) (r : Result E A × W) → m w ≡ r
        → P r.1
        → P (and_then r f).1
    and_then-Keeps m f k w (ok a, w') h p = k a (w, w', h) w' p
    and_then-Keeps m f k w (err e, w') h p = p

    pub bind-Keeps :
        (m : Exec W E A) (f : A → Exec W E B)
        → Keeps P m
        → ((a : A) → Returned m a → Keeps P (f a))
        → Keeps P (m >>= f)
    unfolding ◌>>=◌
    bind-Keeps m f first k w p = and_then-Keeps m f k w (m w) refl (first w p)

  pub if-Keeps :
      {E A : Type 0} (P : W → Type 0) (b : Bool) (m n : Exec W E A)
      → Keeps P m
      → Keeps P n
      → Keeps P (if b then m else n)
  if-Keeps P true m n km kn = km
  if-Keeps P false m n km kn = kn

  pub mapped-Returned :
      {E E' A : Type 0} (f : E → E') (m : Exec W E A) {a : A}
      → Returned (mapped f m) a
      → Returned m a
  mapped-Returned f m (w, w', h) =
      (w, (m w).1, ap (λ r. (r, (m w).1)) (map_err-eq-ok f (m w).0 (ap (λ p. p.0) h)))

  pub returned_value :
      {E A : Type 0} (r : Result E A) {a : A} → Returned (look {W = W} (λ _. r)) a → r ≡ ok a
  returned_value r (w, w', h) = ap (λ p. p.0) h
