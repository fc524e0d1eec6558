-- ===== src/Index/Block/Find.antt =====
-- Splitting a text at a separator that first occurs where it was put.
use context_os_mcp.Prelude.{
  Option, Text, [], ap, append_assoc, arith, length, nat_eq, none, refl, reverse, some,
  some-injective, strip_prefix, strip_prefix-append, sym, ℕ, ◌++◌, ◌+◌, ◌∙◌, ◌∷◌, ◌≡◌, ◌≤◌,
}
use mathlib.Core.List.{reverse-append, reverse-reverse}
use context_os_mcp.Vault.Confine.{split_once, split_here, before_rest}
use context_os_mcp.Index.Block.{turned_back, strip_suffix}

-- In a front followed by the separator, the separator is not found before.
abbrev pub EndsFront : Text → Text → Type 0
EndsFront pattern front = split_once pattern (front ++ pattern) ≡ some (front, [])

length-append : (a b : Text) → length (a ++ b) ≡ length a + length b
length-append [] b = omega arith
length-append (c ∷ a) b = omega (arith, length-append a b)

-- A pattern that a text as long refuses is refused whatever follows.
strip_prefix-longer :
    (p xs ys : Text)
    → length p ≤ length xs
    → strip_prefix p xs ≡ none
    → strip_prefix p (xs ++ ys) ≡ none
strip_prefix-longer [] xs ys l h = cc
strip_prefix-longer (p ∷ ps) [] ys l h = absurd (omega (arith, l))
strip_prefix-longer (p ∷ ps) (x ∷ xs) ys l h =
    ground (arith, strip_prefix-longer ps xs ys (omega (arith, l)))

split_here-none :
    (o : Option Text) (later : Option (Text × Text)) (c : ℕ) (front : Text)
    → split_here o later ≡ some (c ∷ front, [])
    → (o ≡ none) × (later ≡ some (c ∷ front, []))
split_here-none (some back) later c front h = absurd (cc (ap (λ p. p.0) (some-injective _ _ h)))
split_here-none none later c front h = (refl, h)

before_rest-some :
    (c d : ℕ) (later : Option (Text × Text)) (front : Text)
    → before_rest c later ≡ some (d ∷ front, [])
    → later ≡ some (front, [])
before_rest-some c d (some (f, b)) front h = ground arith
before_rest-some c d none front h = cc

split_once-here :
    (pattern s back : Text)
    → strip_prefix pattern s ≡ some back
    → split_once pattern s ≡ some ([], back)
unfolding split_once
split_once-here pattern [] back h = rw h refl
split_once-here pattern (c ∷ s) back h = rw h refl

pub split_once-front :
    (pattern front back : Text)
    → EndsFront pattern front
    → split_once pattern (front ++ (pattern ++ back)) ≡ some (front, back)
unfolding split_once
split_once-front pattern [] back h =
    split_once-here pattern (pattern ++ back) back (strip_prefix-append pattern back)
split_once-front pattern (c ∷ front) back h =
    let (refused, later) = split_here-none _ _ c front h in
    let rest = split_once-front pattern front back (before_rest-some c c _ front later) in
    let still =
      strip_prefix-longer pattern (c ∷ (front ++ pattern)) back
        (omega (arith, length-append front pattern)) refused in
    let same = ap (λ t. strip_prefix pattern (c ∷ t)) (append_assoc front pattern back) in
    rw (sym same ∙ still, rest) refl

pub strip_suffix-append : (suffix s : Text) → strip_suffix suffix (s ++ suffix) ≡ some s
strip_suffix-append suffix s =
    ap (λ r. turned_back (strip_prefix (reverse suffix) r)) (reverse-append s suffix)
    ∙ ap turned_back (strip_prefix-append (reverse suffix) (reverse s))
    ∙ ap some (reverse-reverse s)
