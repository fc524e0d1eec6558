-- ===== src/Chunk/Split/Bound.antt =====
-- The size of the ranges of a section.
use context_os_mcp.Prelude.{
  Option, some, All, Bool, Bool-cases, List, Text, [], arith, false, if◌then◌else◌, inl, inr, leb,
  length, ltb, refl, suc, true, zero, ℕ, ◌&&◌, ◌+◌, ◌∷◌, ◌≡◌, ◌≤◌, ◌⊎◌,
}
use context_os_mcp.Chunk.Split.Plain.{
  measured, plain_words, grown, walked_back, grown_end, plain_ranges, folded, plain_split,
}
use context_os_mcp.Chunk.Split.{
  split_section_words, target_min_tokens, target_max_tokens, prefix_sums, tokens_between,
}
use context_os_mcp.Chunk.Split.Ranges.{IsRange, plain_words-ranges}
use context_os_mcp.Chunk.Split.Total.{tokens_between-measured, split_section_words-plain}

abbrev pub AllButLast : (ℕ × ℕ → Type 0) → List (ℕ × ℕ) → Type 0
AllButLast P [] = Unit
AllButLast P (x ∷ []) = Unit
AllButLast P (x ∷ y ∷ ranges) = P x × AllButLast P (y ∷ ranges)

All-AllButLast : (P : ℕ × ℕ → Type 0) (ranges : List (ℕ × ℕ)) → All P ranges → AllButLast P ranges
All-AllButLast P [] a = tt
All-AllButLast P (x ∷ []) a = tt
All-AllButLast P (x ∷ y ∷ ranges) (p, a) = (p, All-AllButLast P (y ∷ ranges) a)

module _ (tokens : ℕ → ℕ → ℕ) (count : ℕ) where
  -- A range of one word, or of no more tokens than the target.
  abbrev PlainFits : ℕ × ℕ → Type 0
  PlainFits (start, end) = (end ≡ start + 1) ⊎ (tokens start end ≤ target_max_tokens)

  grown-PlainFits :
      (fuel start end : ℕ)
      → PlainFits (start, end)
      → PlainFits (start, grown tokens count fuel start end)
  unfolding grown
  grown-PlainFits zero start end f = f
  grown-PlainFits (suc fuel) start end f =
      elim (Bool-cases (ltb end count && leb (tokens start (end + 1)) target_max_tokens)) [
        | inl more ↦
            let small : tokens start (end + 1) ≤ target_max_tokens = ground arith in
            rw more (grown-PlainFits fuel start (end + 1) (inr small))
        | inr stop ↦ rw stop f
      ]

  plain_ranges-PlainFits : (fuel start : ℕ) → All PlainFits (plain_ranges tokens count fuel start)
  unfolding plain_ranges
  plain_ranges-PlainFits zero start = tt
  plain_ranges-PlainFits (suc fuel) start =
      let end = grown_end tokens count start in
      let rest = plain_ranges-PlainFits fuel (walked_back tokens count start end end) in
      go (ltb start count) (leb count end) rest
    where
      go :
          (inside last : Bool)
          → All PlainFits (
              plain_ranges tokens count fuel (
                walked_back tokens count start
                  (grown_end tokens count start)
                  (grown_end tokens count start)))
          → All PlainFits (
              if inside
              then (start, grown_end tokens count start)
                ∷ (if last
                    then []
                    else plain_ranges tokens count fuel (
                        walked_back tokens count start
                          (grown_end tokens count start)
                          (grown_end tokens count start)))
              else [])
      go true true rest = (grown-PlainFits _ start (start + 1) (inl refl), tt)
      go true false rest = (grown-PlainFits _ start (start + 1) (inl refl), rest)
      go false last rest = tt

  folded-AllButLast :
      (P : ℕ × ℕ → Type 0) (ranges : List (ℕ × ℕ))
      → AllButLast P ranges
      → AllButLast P (folded tokens count ranges)
  unfolding folded
  folded-AllButLast P [] a = tt
  folded-AllButLast P (x ∷ []) a = tt
  folded-AllButLast P (x ∷ y ∷ []) (p, a) = go (ltb (tokens y.0 y.1) target_min_tokens)
    where
      go : (b : Bool) → AllButLast P (if b then (x.0, y.1) ∷ [] else x ∷ y ∷ [])
      go true = tt
      go false = (p, tt)
  folded-AllButLast P (x ∷ y ∷ z ∷ ranges) (p, a) =
      in_front (y ∷ z ∷ ranges) (folded-AllButLast P (y ∷ z ∷ ranges) a)
    where
      in_front :
          (rest : List (ℕ × ℕ))
          → AllButLast P (folded tokens count rest)
          → AllButLast P (x ∷ folded tokens count rest)
      in_front rest b = attach (folded tokens count rest) b
        where
          attach : (out : List (ℕ × ℕ)) → AllButLast P out → AllButLast P (x ∷ out)
          attach [] c = tt
          attach (w ∷ out) c = (p, c)

-- A range of one word, or of no more tokens than the target.
abbrev pub Fits : (ℕ → ℕ → Option ℕ) → ℕ × ℕ → Type 0
Fits tokens (start, end) =
    (end ≡ start + 1) ⊎ ((n : ℕ) × (tokens start end ≡ some n) × (n ≤ target_max_tokens))

PlainFits-Fits :
    (words : List Text) (ranges : List (ℕ × ℕ))
    → All (IsRange (length words)) ranges
    → AllButLast (PlainFits (measured (prefix_sums words)) (length words)) ranges
    → AllButLast (Fits (tokens_between (prefix_sums words))) ranges
PlainFits-Fits words [] there fit = tt
PlainFits-Fits words (x ∷ []) there fit = tt
PlainFits-Fits words (x ∷ y ∷ ranges) ((some_word, inside), there) (fits, fit) =
    (go fits, PlainFits-Fits words (y ∷ ranges) there fit)
  where
    go :
        PlainFits (measured (prefix_sums words)) (length words) x
        → Fits (tokens_between (prefix_sums words)) x
    go (inl one) = inl one
    go (inr small) = inr (_, tokens_between-measured words x.0 x.1 some_word inside, small)

-- The words of a section are split into ranges, with no index out of bounds and no subtraction below
-- zero, and every range but the last is one word or has no more than the target of tokens.
pub split_section_words-Fits :
    (words : List Text)
    → (ranges : List (ℕ × ℕ)) × (split_section_words words ≡ some ranges)
      × AllButLast (Fits (tokens_between (prefix_sums words))) ranges
unfolding plain_words plain_split
split_section_words-Fits words =
    let tokens = measured (prefix_sums words) in
    let count = length words in
    (
      plain_words words,
      split_section_words-plain words,
      PlainFits-Fits words (plain_words words) (plain_words-ranges words) (
          folded-AllButLast tokens count (PlainFits tokens count)
            (plain_ranges tokens count count 0)
            (All-AllButLast (PlainFits tokens count) _
              (plain_ranges-PlainFits tokens count count 0))),
    )
