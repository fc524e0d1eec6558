-- ===== src/Chunk/Split/Total.antt =====
-- `split_section_words` never reads out of bounds or subtracts below zero.
use context_os_mcp.Prelude.{
  All, Bool, Bool-cases, List, Option, Text, [], ap, arith, false, get_elem?, if◌then◌else◌, inl,
  inr, leb, ltb→lt, length, ltb, refl, some, suc, true, zero, ℕ, ◌+◌, ◌-◌, ◌<◌, ◌∙◌, ◌∷◌, ◌≡◌, ◌≤◌,
}
use context_os_mcp.Chunk.Split.{
  prefix_from, prefix_sums, difference, chars_between, tokens_between, within, then_ranges,
  with_range, ranges_behind, grow, walk_back, ranges_from, fold_last, fold_by, fold_ranges,
  split_ranges, split_section_words, target_max_tokens, overlap_tokens,
}
use context_os_mcp.Chunk.Split.Plain.{
  measured, grown, walked_back, grown_end, plain_ranges, folded, plain_split, plain_words,
}
use context_os_mcp.Chunk.Split.Ranges.{IsRange, grown_end_bounds, plain_ranges-ranges}

-- Every prefix sum behind the first is there, and greater than what is in front of it.
prefix_entry :
    (running : ℕ) (later : Bool) (words : List Text) (i : ℕ)
    → i < length words
    → (v : ℕ) × (get_elem? (prefix_from running later words) i ≡ some v)
      × (running + (if later then 1 else 0) ≤ v)
unfolding prefix_from
prefix_entry running later [] i h = absurd (omega arith)
prefix_entry running true (w ∷ words) zero h = (_, refl, omega arith)
prefix_entry running false (w ∷ words) zero h = (_, refl, omega arith)
prefix_entry running true (w ∷ words) (suc i) h =
    let (v, at, above) = prefix_entry (running + 1 + length w) true words i (omega arith) in
    (v, at, omega (arith, above))
prefix_entry running false (w ∷ words) (suc i) h =
    let (v, at, above) = prefix_entry (running + length w) true words i (omega arith) in
    (v, at, omega (arith, above))

prefix_entries :
    (running : ℕ) (later : Bool) (words : List Text) (i j : ℕ)
    → i < j
    → j < length words
    → (u : ℕ) × (v : ℕ) × (get_elem? (prefix_from running later words) i ≡ some u)
      × (get_elem? (prefix_from running later words) j ≡ some v)
      × (u + 1 ≤ v)
unfolding prefix_from
prefix_entries running later [] i j a b = absurd (omega arith)
prefix_entries running later (w ∷ words) i zero a b = absurd (omega arith)
prefix_entries running later (w ∷ words) zero (suc j) a b =
    let next = (if later then running + 1 else running) + length w in
    let (v, at, above) = prefix_entry next true words j (omega arith) in (next, v, refl, at, above)
prefix_entries running later (w ∷ words) (suc i) (suc j) a b =
    prefix_entries ((if later then running + 1 else running) + length w) true words i j
      (omega arith) (omega arith)

difference_there :
    (empty : Bool) (to from : Option ℕ) (u v separator : ℕ)
    → empty ≡ false
    → to ≡ some v
    → from ≡ some u
    → u + separator ≤ v
    → (n : ℕ) × ((if empty then some 0 else difference to from separator) ≡ some n)
difference_there empty to from u v separator some_word at_end at_start h =
    let room : leb (u + separator) v ≡ true = ground arith in
    (v - u - separator, rw (some_word, at_end, at_start, room) refl)

at_most_one : (b : Bool) → (if b then 1 else 0) ≤ 1
at_most_one true = omega arith
at_most_one false = omega arith

chars_between_there :
    (words : List Text) (start end : ℕ)
    → start < end
    → end ≤ length words
    → (n : ℕ) × (chars_between (prefix_sums words) start end ≡ some n)
unfolding chars_between prefix_sums
chars_between_there words start zero a b = absurd (omega arith)
chars_between_there words zero (suc end) a b =
    let (v, at, above) = prefix_entry 0 false words end (omega arith) in
    difference_there (leb (suc end) 0) _ (some 0) 0 v _ (ground arith) at refl (omega arith)
chars_between_there words (suc start) (suc end) a b =
    let (u, v, from, to, above) =
      prefix_entries 0 false words start end (omega arith) (omega arith) in
    difference_there (leb (suc end) (suc start)) _ _ u v _ (ground arith) to from
      (omega (arith, above, at_most_one (ltb 0 (suc start))))

-- The estimate of a range of words that are there is a number.
pub tokens_between-measured :
    (words : List Text) (start end : ℕ)
    → start < end
    → end ≤ length words
    → tokens_between (prefix_sums words) start end ≡ some (measured (prefix_sums words) start end)
unfolding tokens_between
tokens_between-measured words start end a b =
    let (n, there) = chars_between_there words start end a b in rw there refl

within-some :
    (limit n stop : ℕ) (more : Option ℕ) {m : ℕ}
    → more ≡ some m
    → within limit (some n) more stop ≡ some (if leb n limit then m else stop)
within-some limit n stop more same = elim (Bool-cases (leb n limit)) [
  | inl on ↦ rw on same
  | inr off ↦ rw off refl
]

module _ (tokens : ℕ → ℕ → Option ℕ) (plain : ℕ → ℕ → ℕ) (count : ℕ)
    (agree : (start end : ℕ)
      → start < end
      → end ≤ count
      → tokens start end ≡ some (plain start end)) where
  grow-grown :
      (fuel start end : ℕ)
      → start ≤ end
      → grow tokens count fuel start end ≡ some (grown plain count fuel start end)
  unfolding grow grown
  grow-grown zero start end h = refl
  grow-grown (suc fuel) start end h = elim (Bool-cases (ltb end count)) [
    | inl inside ↦
        let below = ltb→lt end count inside in
        rw (inside, agree start (end + 1) (omega arith) (omega (arith, below)))
          (within-some target_max_tokens (plain start (end + 1)) end _
            (grow-grown fuel start (end + 1) (omega arith)))
    | inr outside ↦ rw outside refl
  ]

  walk_back-walked :
      (start end from : ℕ)
      → from ≤ end
      → end ≤ count
      → walk_back tokens count start end from ≡ some (walked_back plain count start end from)
  unfolding walk_back walked_back
  walk_back-walked start end zero h k = refl
  walk_back-walked start end (suc before) h k = elim (Bool-cases (ltb (start + 1) (suc before))) [
    | inl inside ↦
        rw (inside, agree before end (omega arith) k)
          (within-some overlap_tokens (plain before end) (suc before) _
            (walk_back-walked start end before (omega arith) k))
    | inr outside ↦ rw outside refl
  ]

  with_range-some :
      (range : ℕ × ℕ) (last : Bool) (rest : Option (List (ℕ × ℕ))) {ranges : List (ℕ × ℕ)}
      → rest ≡ some ranges
      → with_range range (if last then some [] else rest)
        ≡ some (range ∷ (if last then [] else ranges))
  with_range-some range true rest same = refl
  with_range-some range false rest same = ap (with_range range) same

  ranges_from-plain :
      (fuel start : ℕ)
      → ranges_from tokens count fuel start ≡ some (plain_ranges plain count fuel start)
  unfolding ranges_from plain_ranges
  ranges_from-plain zero start = refl
  ranges_from-plain (suc fuel) start = elim (Bool-cases (ltb start count)) [
    | inl inside ↦
        let end = grown_end plain count start in
        let bounds = grown_end_bounds plain count start (ltb→lt start count inside) in
        rw inside (
          ap
            (λ o. then_ranges o (λ e.
              ranges_behind tokens count start e (λ next. ranges_from tokens count fuel next)))
            (grow-grown (count - (start + 1)) start (start + 1) (omega arith))
          ∙ with_range-some (start, end) (leb count end) _
              (ap (λ o. then_ranges o (λ next. ranges_from tokens count fuel next))
                  (walk_back-walked start end end (omega arith) bounds.1)
                ∙ ranges_from-plain fuel (walked_back plain count start end end)))
    | inr outside ↦ rw outside refl
  ]

  fold_last-folded :
      (ranges : List (ℕ × ℕ))
      → All (IsRange count) ranges
      → fold_last tokens count ranges ≡ some (folded plain count ranges)
  unfolding fold_last folded
  fold_last-folded [] there = refl
  fold_last-folded (range ∷ []) there = refl
  fold_last-folded (previous ∷ last ∷ []) (_, ((some_word, inside), _)) =
      ap (λ o. fold_by o previous last) (agree last.0 last.1 some_word inside)
  fold_last-folded (range ∷ next ∷ third ∷ ranges) (_, there) =
      ap (with_range range) (fold_last-folded (next ∷ third ∷ ranges) there)

  split_ranges-plain : split_ranges tokens count ≡ some (plain_split plain count)
  unfolding split_ranges plain_split
  split_ranges-plain =
      ap (fold_ranges tokens count) (ranges_from-plain count 0)
      ∙ fold_last-folded (plain_ranges plain count count 0) (plain_ranges-ranges plain count)

-- The code's loops do what those over an estimate that never fails do.
pub split_section_words-plain :
    (words : List Text) → split_section_words words ≡ some (plain_words words)
unfolding split_section_words plain_words
split_section_words-plain words =
    split_ranges-plain (tokens_between (prefix_sums words)) (measured (prefix_sums words))
      (length words) (tokens_between-measured words)
