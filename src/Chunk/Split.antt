-- ===== src/Chunk/Split.antt =====
-- `split_section_words`: the word ranges of one section
-- (crates/contextos-search/src/chunk.rs). A text in memory is shorter than 2 ^ 63 bytes, so the
-- saturating additions never saturate.
pub mod Plain
pub mod Ranges
pub mod Total
pub mod Cover
pub mod Bound
use context_os_mcp.Prelude.{
  Option, some, none, get_elem?, Bool, List, Text, [], false, if◌then◌else◌, leb, length, ltb, suc,
  true, zero, ℕ, ◌&&◌, ◌+◌, ◌-◌, ◌/◌, ◌∷◌,
}

abbrev pub target_min_tokens : ℕ
target_min_tokens = 200

abbrev pub target_max_tokens : ℕ
target_max_tokens = 400

abbrev pub overlap_tokens : ℕ
overlap_tokens = 40

abbrev pub chars_per_token : ℕ
chars_per_token = 4

-- `usize::div_ceil` by `CHARS_PER_TOKEN`
abbrev pub div_ceil : ℕ → ℕ
div_ceil n = (n + (chars_per_token - 1)) / chars_per_token

-- `estimate_tokens`
unfoldable pub estimate_tokens : Text → ℕ
estimate_tokens text = div_ceil (length text)

-- The prefix sums behind the first: the length of the first words joined by single spaces. The
-- flag says that a word stands in front.
unfoldable pub prefix_from : ℕ → Bool → List Text → List ℕ
prefix_from running later [] = []
prefix_from running later (word ∷ words) =
    let next = (if later then running + 1 else running) + length word in
    next ∷ prefix_from next true words

unfoldable pub prefix_sums : List Text → List ℕ
unfolding prefix_from
prefix_sums words = 0 ∷ prefix_from 0 false words

-- Nothing stands for the panic of an index out of bounds or of a subtraction below zero.
abbrev pub difference : Option ℕ → Option ℕ → ℕ → Option ℕ
difference (some to) (some from) separator =
    if leb (from + separator) to then some (to - from - separator) else none
difference _ _ separator = none

-- The closures `chars_between` and `tokens_between`.
unfoldable pub chars_between : List ℕ → ℕ → ℕ → Option ℕ
chars_between prefix start end =
    if leb end start
    then some 0
    else difference (get_elem? prefix end) (get_elem? prefix start) (if ltb 0 start then 1 else 0)

abbrev pub ceiled : Option ℕ → Option ℕ
ceiled none = none
ceiled (some n) = some (div_ceil n)

unfoldable pub tokens_between : List ℕ → ℕ → ℕ → Option ℕ
tokens_between prefix start end = ceiled (chars_between prefix start end)

-- What a loop does by an estimate: it goes on while that is no more than a limit.
abbrev pub within : ℕ → Option ℕ → Option ℕ → ℕ → Option ℕ
within limit none more stop = none
within limit (some n) more stop = if leb n limit then more else some stop

abbrev pub then_ranges : Option ℕ → (ℕ → Option (List (ℕ × ℕ))) → Option (List (ℕ × ℕ))
then_ranges none next = none
then_ranges (some n) next = next n

abbrev pub with_range : ℕ × ℕ → Option (List (ℕ × ℕ)) → Option (List (ℕ × ℕ))
with_range range none = none
with_range range (some ranges) = some (range ∷ ranges)

abbrev pub fold_by : Option ℕ → ℕ × ℕ → ℕ × ℕ → Option (List (ℕ × ℕ))
fold_by none previous last = none
fold_by (some n) previous last =
    some (if ltb n target_min_tokens then (previous.0, last.1) ∷ [] else previous ∷ last ∷ [])

-- The loops, over the estimate of a range. `count` is the number of words.
module _ (tokens : ℕ → ℕ → Option ℕ) (count : ℕ) where
  -- The first inner loop; its fuel is the number of words behind `end`.
  unfoldable pub grow : ℕ → ℕ → ℕ → Option ℕ
  grow zero start end = some end
  grow (suc fuel) start end =
      let more = grow fuel start (end + 1) in
      if ltb end count then within target_max_tokens (tokens start (end + 1)) more end else some end

  -- The second inner loop, downwards from `end`.
  unfoldable pub walk_back : ℕ → ℕ → ℕ → Option ℕ
  walk_back start end zero = some zero
  walk_back start end (suc before) =
      let less = walk_back start end before in
      if ltb (start + 1) (suc before)
      then within overlap_tokens (tokens before end) less (suc before)
      else some (suc before)

  abbrev pub range_end : ℕ → Option ℕ
  range_end start = grow (count - (start + 1)) start (start + 1)

  -- What follows a range in the outer loop.
  abbrev pub ranges_behind : ℕ → ℕ → (ℕ → Option (List (ℕ × ℕ))) → Option (List (ℕ × ℕ))
  ranges_behind start end rest =
      with_range (start, end)
        (if leb count end then some [] else then_ranges (walk_back start end end) rest)

  -- The outer loop.
  unfoldable pub ranges_from : ℕ → ℕ → Option (List (ℕ × ℕ))
  unfolding grow walk_back
  ranges_from zero start = some []
  ranges_from (suc fuel) start =
      if ltb start count
      then then_ranges (range_end start)
          (λ end. ranges_behind start end (λ next. ranges_from fuel next))
      else some []

  -- A last range below the minimum is folded into the one before it.
  unfoldable pub fold_last : List (ℕ × ℕ) → Option (List (ℕ × ℕ))
  fold_last [] = some []
  fold_last (range ∷ []) = some (range ∷ [])
  fold_last (previous ∷ last ∷ []) = fold_by (tokens last.0 last.1) previous last
  fold_last (range ∷ next ∷ third ∷ ranges) = with_range range (fold_last (next ∷ third ∷ ranges))

  abbrev pub fold_ranges : Option (List (ℕ × ℕ)) → Option (List (ℕ × ℕ))
  fold_ranges none = none
  fold_ranges (some ranges) = fold_last ranges

  unfoldable pub split_ranges : Option (List (ℕ × ℕ))
  unfolding ranges_from fold_last
  split_ranges = fold_ranges (ranges_from count 0)

unfoldable pub split_section_words : List Text → Option (List (ℕ × ℕ))
unfolding split_ranges prefix_sums tokens_between
split_section_words words = split_ranges (tokens_between (prefix_sums words)) (length words)
