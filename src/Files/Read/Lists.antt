-- ===== src/Files/Read/Lists.antt =====
-- Lists of lines that grow at their end, for crates/contextos-fs/src/read.rs.
use context_os_mcp.Prelude.{
  List, Text, [], ap, append-nil, append_assoc, arith, drop, length, lines, nat_eq, refl, suc, sym,
  take, zero, ℕ, ◌++◌, ◌+◌, ◌-◌, ◌<◌, ◌∙◌, ◌∷◌, ◌≡◌, ◌≤◌,
}
use context_os_mcp.Files.Read.{concat}

module _ {ℓ} {A : Type ℓ} where
  pub length-snoc : (xs : List A) (x : A) → length (xs ++ x ∷ []) ≡ length xs + 1
  length-snoc [] x = refl
  length-snoc (y ∷ xs) x = omega (arith, length-snoc xs x)

  pub take-snoc_in :
      (n : ℕ) (xs : List A) (x : A) → length xs < n → take n (xs ++ x ∷ []) ≡ take n xs ++ x ∷ []
  take-snoc_in zero xs x h = absurd (omega (arith, h))
  take-snoc_in (suc zero) [] x h = refl
  take-snoc_in (suc (suc n)) [] x h = refl
  take-snoc_in (suc n) (y ∷ xs) x h = ap (λ ys. y ∷ ys) (take-snoc_in n xs x (omega (arith, h)))

  pub take-snoc_out :
      (n : ℕ) (xs : List A) (x : A) → n ≤ length xs → take n (xs ++ x ∷ []) ≡ take n xs
  take-snoc_out zero xs x h = refl
  take-snoc_out (suc n) [] x h = absurd (omega (arith, h))
  take-snoc_out (suc n) (y ∷ xs) x h = ap (λ ys. y ∷ ys) (take-snoc_out n xs x (omega (arith, h)))

  pub drop-snoc :
      (n : ℕ) (xs : List A) (x : A) → n ≤ length xs → drop n (xs ++ x ∷ []) ≡ drop n xs ++ x ∷ []
  drop-snoc zero xs x h = refl
  drop-snoc (suc n) [] x h = absurd (omega (arith, h))
  drop-snoc (suc n) (y ∷ xs) x h = drop-snoc n xs x (omega (arith, h))

  pub drop-all : (n : ℕ) (xs : List A) → length xs ≤ n → drop n xs ≡ []
  drop-all zero [] h = refl
  drop-all zero (x ∷ xs) h = absurd (omega (arith, h))
  drop-all (suc n) [] h = refl
  drop-all (suc n) (x ∷ xs) h = drop-all n xs (omega (arith, h))

  pub length-drop : (n : ℕ) (xs : List A) → length (drop n xs) ≡ length xs - n
  length-drop zero xs = omega arith
  length-drop (suc n) [] = omega arith
  length-drop (suc n) (x ∷ xs) = omega (arith, length-drop n xs)

  pub length-take_le : (n : ℕ) (xs : List A) → length (take n xs) ≤ length xs
  length-take_le zero xs = omega arith
  length-take_le (suc n) [] = omega arith
  length-take_le (suc n) (x ∷ xs) = omega (arith, length-take_le n xs)

  pub take-all : (n : ℕ) (xs : List A) → length xs ≤ n → take n xs ≡ xs
  take-all zero [] h = refl
  take-all zero (x ∷ xs) h = absurd (omega (arith, h))
  take-all (suc n) [] h = refl
  take-all (suc n) (x ∷ xs) h = ap (λ ys. x ∷ ys) (take-all n xs (omega (arith, h)))

  pub drop-drop : (n : ℕ) (xs : List A) → drop 1 (drop n xs) ≡ drop (suc n) xs
  drop-drop zero xs = refl
  drop-drop (suc n) [] = refl
  drop-drop (suc n) (x ∷ xs) = drop-drop n xs

pub concat-snoc :
    (lines : List Text) (line : Text) → concat (lines ++ line ∷ []) ≡ concat lines ++ line
concat-snoc [] line = append-nil line
concat-snoc (l ∷ lines) line =
    ap (λ t. l ++ t) (concat-snoc lines line) ∙ sym (append_assoc l (concat lines) line)
