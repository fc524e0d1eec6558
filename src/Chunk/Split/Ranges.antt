-- ===== src/Chunk/Split/Ranges.antt =====
-- The loops of `split_section_words` cover the words with ranges, in order, with no gap.
use context_os_mcp.Prelude.{
  All, Bool, Bool-cases, List, Text, [], arith, false, if◌then◌else◌, inl, inr, leb, leb→le, leb→lt,
  length, ltb, lt→ltb, refl, suc, true, zero, ℕ, ◌+◌, ◌-◌, ◌<◌, ◌∷◌, ◌≡◌, ◌≤◌,
}
use context_os_mcp.Chunk.Split.Plain.{
  measured, plain_words, grown, walked_back, grown_end, plain_ranges, folded, plain_split,
}
use context_os_mcp.Chunk.Split.{target_min_tokens, prefix_sums}

-- The ranges behind `(start, end)`: each begins behind the start of the one before it and no later
-- than its end, holds a word, and the last ends with the section.
abbrev pub Follow : ℕ → ℕ → ℕ → List (ℕ × ℕ) → Type 0
Follow count start end [] = end ≡ count
Follow count start end ((s, e) ∷ ranges) =
    (start < s) × (s ≤ end) × (s < e) × (e ≤ count) × Follow count s e ranges

abbrev pub Cover : ℕ → ℕ → List (ℕ × ℕ) → Type 0
Cover count start [] = ⊥
Cover count start ((s, e) ∷ ranges) = (s ≡ start) × (s < e) × (e ≤ count) × Follow count s e ranges

module _ (tokens : ℕ → ℕ → ℕ) (count : ℕ) where
  pub grown_bounds :
      (fuel start end : ℕ)
      → end ≤ count
      → (end ≤ grown tokens count fuel start end) × (grown tokens count fuel start end ≤ count)
  unfolding grown
  grown_bounds zero start end h = (omega arith, h)
  grown_bounds (suc fuel) start end h = ground (arith, grown_bounds fuel start (end + 1))

  pub walked_back_bounds :
      (start end from : ℕ)
      → start < from
      → (start < walked_back tokens count start end from)
        × (walked_back tokens count start end from ≤ from)
  unfolding walked_back
  walked_back_bounds start end zero h = absurd (omega arith)
  walked_back_bounds start end (suc before) h = ground (arith, walked_back_bounds start end before)

  abbrev later_ranges : ℕ → ℕ → List (ℕ × ℕ)
  later_ranges fuel s =
      let end = grown_end tokens count s in
      if leb count end
      then []
      else plain_ranges tokens count fuel (walked_back tokens count s end end)

  plain_ranges-round :
      (fuel s : ℕ)
      → s < count
      → plain_ranges tokens count (suc fuel) s ≡ (s, grown_end tokens count s) ∷ later_ranges fuel s
  unfolding plain_ranges
  plain_ranges-round fuel s h = rw (lt→ltb s count h)

  pub grown_end_bounds :
      (s : ℕ) → s < count → (s < grown_end tokens count s) × (grown_end tokens count s ≤ count)
  grown_end_bounds s h =
      let bounds = grown_bounds (count - (s + 1)) s (s + 1) (omega arith) in omega (arith, bounds)

  later_ranges-Follow :
      (fuel s : ℕ)
      → s < count
      → ((next : ℕ)
          → s < next
          → next ≤ grown_end tokens count s
          → next < count
          → Follow count s (grown_end tokens count s) (plain_ranges tokens count fuel next))
      → Follow count s (grown_end tokens count s) (later_ranges fuel s)
  later_ranges-Follow fuel s h ih = elim (Bool-cases (leb count (grown_end tokens count s))) [
    | inl last ↦
        rw last (
          let bounds = grown_end_bounds s h in
          let le = leb→le _ _ last in omega (arith, bounds, le))
    | inr more ↦
        let (low, high) = grown_end_bounds s h in
        let (after, before) =
          walked_back_bounds s (grown_end tokens count s) (grown_end tokens count s) low in
        let inside = leb→lt _ _ more in rw more (ih _ after before (omega (arith, before, inside)))
  ]

  plain_ranges-Follow :
      (fuel start end s : ℕ)
      → start < s
      → s ≤ end
      → s < count
      → count ≤ s + fuel
      → Follow count start end (plain_ranges tokens count fuel s)
  plain_ranges-Follow zero start end s a b c f = absurd (omega arith)
  plain_ranges-Follow (suc fuel) start end s a b c f = rw (plain_ranges-round fuel s c) (
    a,
    b,
    (grown_end_bounds s c).0,
    (grown_end_bounds s c).1,
    later_ranges-Follow fuel s c
        (λ next l m h. plain_ranges-Follow fuel s _ next l m h (omega arith)),
  )

  plain_ranges-Cover :
      (fuel : ℕ) → 0 < count → count ≤ fuel → Cover count 0 (plain_ranges tokens count fuel 0)
  plain_ranges-Cover zero h f = absurd (omega arith)
  plain_ranges-Cover (suc fuel) h f = rw (plain_ranges-round fuel 0 h) (
    refl,
    (grown_end_bounds 0 h).0,
    (grown_end_bounds 0 h).1,
    later_ranges-Follow fuel 0 h
        (λ next l m k. plain_ranges-Follow fuel 0 _ next l m k (omega arith)),
  )

  folded-Follow :
      (start end : ℕ) (ranges : List (ℕ × ℕ))
      → Follow count start end ranges
      → Follow count start end (folded tokens count ranges)
  unfolding folded
  folded-Follow start end [] f = f
  folded-Follow start end (range ∷ []) f = f
  folded-Follow start end ((s, e) ∷ (t, g) ∷ []) (a, b, c, d, x) =
      go (ltb (tokens t g) target_min_tokens)
    where
      go : (b : Bool) → Follow count start end (if b then (s, g) ∷ [] else (s, e) ∷ (t, g) ∷ [])
      go true = (a, b, omega arith, omega arith, omega arith)
      go false = (a, b, c, d, x)
  folded-Follow start end (range ∷ next ∷ third ∷ ranges) (a, b, c, d, x) =
      (a, b, c, d, folded-Follow range.0 range.1 (next ∷ third ∷ ranges) x)

  folded-Cover :
      (start : ℕ) (ranges : List (ℕ × ℕ))
      → Cover count start ranges
      → Cover count start (folded tokens count ranges)
  unfolding folded
  folded-Cover start [] c = c
  folded-Cover start (range ∷ []) c = c
  folded-Cover start ((s, e) ∷ (t, g) ∷ []) (a, b, c, x) = go (ltb (tokens t g) target_min_tokens)
    where
      go : (b : Bool) → Cover count start (if b then (s, g) ∷ [] else (s, e) ∷ (t, g) ∷ [])
      go true = (a, omega arith, omega arith, omega arith)
      go false = (a, b, c, x)
  folded-Cover start (range ∷ next ∷ third ∷ ranges) (a, b, c, x) =
      (a, b, c, folded-Follow range.0 range.1 (next ∷ third ∷ ranges) x)

-- A range of words that are there.
abbrev pub IsRange : ℕ → ℕ × ℕ → Type 0
IsRange count range = (range.0 < range.1) × (range.1 ≤ count)

pub Follow-ranges :
    (count start end : ℕ) (ranges : List (ℕ × ℕ))
    → Follow count start end ranges
    → All (IsRange count) ranges
Follow-ranges count start end [] f = tt
Follow-ranges count start end ((s, e) ∷ ranges) (a, b, c, d, f) =
    ((c, d), Follow-ranges count s e ranges f)

pub Cover-ranges :
    (count : ℕ) (ranges : List (ℕ × ℕ)) → Cover count 0 ranges → All (IsRange count) ranges
Cover-ranges count [] c = tt
Cover-ranges count ((s, e) ∷ ranges) (a, b, d, f) = ((b, d), Follow-ranges count s e ranges f)

pub plain_ranges-ranges :
    (tokens : ℕ → ℕ → ℕ) (count : ℕ) → All (IsRange count) (plain_ranges tokens count count 0)
plain_ranges-ranges tokens zero = unfold plain_ranges in tt
plain_ranges-ranges tokens (suc count) =
    Cover-ranges (suc count) _
      (plain_ranges-Cover tokens (suc count) (suc count) (omega arith) (omega arith))

pub plain_words-Cover :
    (words : List Text) → 0 < length words → Cover (length words) 0 (plain_words words)
unfolding plain_words plain_split
plain_words-Cover words h =
    let tokens = measured (prefix_sums words) in
    folded-Cover tokens (length words) 0 _
      (plain_ranges-Cover tokens (length words) (length words) h (omega arith))

pub plain_words-ranges : (words : List Text) → All (IsRange (length words)) (plain_words words)
plain_words-ranges [] = unfold plain_words plain_split plain_ranges folded in tt
plain_words-ranges (w ∷ words) = Cover-ranges _ _ (plain_words-Cover (w ∷ words) (omega arith))
