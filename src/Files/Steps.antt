-- ===== src/Files/Steps.antt =====
-- What a sequence of calls establishes, step by step.
use context_os_mcp.Prelude.{Bool, Result, err, false, ok, refl, true, ◌≡◌}
use context_os_mcp.Exec.{Exec, Act, and_then, look, answered, attempt, ◌>>=◌}

-- Run from `w`, the calls end with an outcome and a world for which `Q` holds.
pub record Runs {W E A : Type 0} (m : Exec W E A) (w : W) (Q : Result E A → W → Type 0)
    : Type 0 where
  pub holds : Q (m w).0 (m w).1

module _ {W E A : Type 0} (w : W) (Q : Result E A → W → Type 0) where
  Runs-look :
      (f : W → Result E A)
      → ((a : A) → f w ≡ ok a → Q (ok a) w)
      → ((e : E) → f w ≡ err e → Q (err e) w)
      → Runs (look f) w Q
  Runs-look f good bad = record { holds = go (f w) good bad }
    where
      go :
          (r : Result E A)
          → ((a : A) → r ≡ ok a → Q (ok a) w)
          → ((e : E) → r ≡ err e → Q (err e) w)
          → Q r w
      go (ok a) g b = g a refl
      go (err e) g b = b e refl

module _ {W E A B : Type 0} (w : W) (Q : Result E B → W → Type 0) where
  pub Runs-bind :
      (P : Result E A → W → Type 0) (m : Exec W E A) (f : A → Exec W E B)
      → Runs m w P
      → ((a : A) (w' : W) → P (ok a) w' → Runs (f a) w' Q)
      → ((e : E) (w' : W) → P (err e) w' → Q (err e) w')
      → Runs (m >>= f) w Q
  unfolding ◌>>=◌
  Runs-bind P m f p good bad = record { holds = go (m w) p.holds }
    where
      go : (x : Result E A × W) → P x.0 x.1 → Q (and_then x f).0 (and_then x f).1
      go (ok a, w') q = (good a w' q).holds
      go (err e, w') q = bad e w' q

  -- A look at the world, and what follows.
  pub Runs-looked :
      (g : W → Result E A) (f : A → Exec W E B)
      → ((a : A) → g w ≡ ok a → Runs (f a) w Q)
      → ((e : E) → Q (err e) w)
      → Runs (look g >>= f) w Q
  unfolding ◌>>=◌
  Runs-looked g f good bad = record { holds = go (g w) good }
    where
      go :
          (r : Result E A)
          → ((a : A) → r ≡ ok a → Runs (f a) w Q)
          → Q (and_then (r, w) f).0 (and_then (r, w) f).1
      go (ok a) h = (h a refl).holds
      go (err e) h = bad e

module _ {W E B : Type 0} (w : W) (Q : Result E B → W → Type 0) where
  -- A call that says whether it succeeded, and what follows.
  pub Runs-attempted :
      (e : E) (act : Act W Bool) (f : Unit {0} → Exec W E B)
      → ((act w).0 ≡ true → Runs (f tt) (act w).1 Q)
      → ((act w).0 ≡ false → Q (err e) (act w).1)
      → Runs (attempt e act >>= f) w Q
  unfolding ◌>>=◌
  Runs-attempted e act f good bad = record { holds = go (act w) good bad }
    where
      go :
          (x : Bool × W)
          → (x.0 ≡ true → Runs (f tt) x.1 Q)
          → (x.0 ≡ false → Q (err e) x.1)
          → Q (and_then (answered e x) f).0 (and_then (answered e x) f).1
      go (true, w') g b = (g refl).holds
      go (false, w') g b = b refl

pub Runs-weaken :
    {W E A : Type 0} {m : Exec W E A} {w : W} {P Q : Result E A → W → Type 0}
    → ((r : Result E A) (u : W) → P r u → Q r u)
    → Runs m w P
    → Runs m w Q
Runs-weaken {m = m} {w = w} f p = record { holds = f (m w).0 (m w).1 p.holds }
