-- ===== src/Chunk/Split/Plain.antt =====
-- The loops of `split_section_words` over an estimate that never fails. It stands beside the code:
-- Chunk/Split/Total shows that the code's loops do what these do.
use context_os_mcp.Prelude.{
  Option, none, some, List, Text, [], if◌then◌else◌, leb, length, ltb, suc, zero, ℕ, ◌&&◌, ◌+◌, ◌-◌,
  ◌∷◌,
}
use context_os_mcp.Chunk.Split.{
  target_min_tokens, target_max_tokens, overlap_tokens, prefix_sums, tokens_between,
}

abbrev pub valued : Option ℕ → ℕ
valued none = 0
valued (some n) = n

-- The estimate of a range, or zero where the code's panics.
abbrev pub measured : List ℕ → ℕ → ℕ → ℕ
measured prefix start end = valued (tokens_between prefix start end)

-- The loops, over the estimate of a range. `count` is the number of words.
module _ (tokens : ℕ → ℕ → ℕ) (count : ℕ) where
  -- The first inner loop; its fuel is the number of words behind `end`.
  unfoldable pub grown : ℕ → ℕ → ℕ → ℕ
  grown zero start end = end
  grown (suc fuel) start end =
      let more = grown fuel start (end + 1) in
      if ltb end count && leb (tokens start (end + 1)) target_max_tokens then more else end

  -- The second inner loop, downwards from `end`.
  unfoldable pub walked_back : ℕ → ℕ → ℕ → ℕ
  walked_back start end zero = zero
  walked_back start end (suc before) =
      let less = walked_back start end before in
      if ltb (start + 1) (suc before) && leb (tokens before end) overlap_tokens
      then less
      else suc before

  abbrev pub grown_end : ℕ → ℕ
  grown_end start = grown (count - (start + 1)) start (start + 1)

  -- The outer loop.
  unfoldable pub plain_ranges : ℕ → ℕ → List (ℕ × ℕ)
  unfolding grown walked_back
  plain_ranges zero start = []
  plain_ranges (suc fuel) start =
      let end = grown_end start in
      let rest = plain_ranges fuel (walked_back start end end) in
      if ltb start count then (start, end) ∷ (if leb count end then [] else rest) else []

  -- A last range below the minimum is folded into the one before it.
  unfoldable pub folded : List (ℕ × ℕ) → List (ℕ × ℕ)
  folded [] = []
  folded (range ∷ []) = range ∷ []
  folded (previous ∷ last ∷ []) =
      if ltb (tokens last.0 last.1) target_min_tokens
      then (previous.0, last.1) ∷ []
      else previous ∷ last ∷ []
  folded (range ∷ next ∷ third ∷ ranges) = range ∷ folded (next ∷ third ∷ ranges)

  unfoldable pub plain_split : List (ℕ × ℕ)
  unfolding plain_ranges folded
  plain_split = folded (plain_ranges count 0)

unfoldable pub plain_words : List Text → List (ℕ × ℕ)
unfolding plain_split
plain_words words = plain_split (measured (prefix_sums words)) (length words)
