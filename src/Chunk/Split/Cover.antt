-- ===== src/Chunk/Split/Cover.antt =====
-- The ranges of a section cover its words, in order, with no gap.
use native.Mathlib.Decide.{dec_lt}
use context_os_mcp.Prelude.{
  List, Text, [], arith, get_elem?, length, refl, some, suc, ℕ, ◌<◌, ◌∷◌, ◌≡◌, ◌≤◌,
}
use context_os_mcp.Chunk.Split.{split_section_words}
use context_os_mcp.Chunk.Split.Plain.{plain_words}
use context_os_mcp.Chunk.Split.Ranges.{Cover, Follow, plain_words-Cover}
use context_os_mcp.Chunk.Split.Total.{split_section_words-plain}

-- A section with words is split into ranges, with no index out of bounds and no subtraction below
-- zero, that begin at its first word and end at its last, each with a word of its own, each
-- beginning behind the start of the one before and no later than its end: the loops have fuel
-- enough, and no word is left out.
pub split_section_words-Cover :
    (words : List Text)
    → 0 < length words
    → (ranges : List (ℕ × ℕ)) × (split_section_words words ≡ some ranges)
      × Cover (length words) 0 ranges
split_section_words-Cover words h =
    (plain_words words, split_section_words-plain words, plain_words-Cover words h)

-- Some range of the list holds the word.
abbrev pub Holds : List (ℕ × ℕ) → ℕ → Type 0
Holds ranges i =
    (j : ℕ) × (s : ℕ) × (e : ℕ) × (get_elem? ranges j ≡ some (s, e)) × (s ≤ i) × (i < e)

Follow-Holds :
    (count i start end : ℕ) (ranges : List (ℕ × ℕ))
    → Follow count start end ranges
    → end ≤ i
    → i < count
    → Holds ranges i
Follow-Holds count i start end [] f h k = absurd (omega arith)
Follow-Holds count i start end ((s, e) ∷ ranges) (a, b, c, d, f) h k = elim (dec_lt i e) [
  | yes inside ↦ (0, s, e, refl, omega arith, inside)
  | no behind ↦
      let (j, t, g, at, x, y) = Follow-Holds count i s e ranges f (omega arith) k in
      (suc j, t, g, at, x, y)
]

Cover-Holds :
    (count i : ℕ) (ranges : List (ℕ × ℕ)) → Cover count 0 ranges → i < count → Holds ranges i
Cover-Holds count i [] c k = absurd c
Cover-Holds count i ((s, e) ∷ ranges) (a, b, d, f) k = elim (dec_lt i e) [
  | yes inside ↦ (0, s, e, refl, omega arith, inside)
  | no behind ↦
      let (j, t, g, at, x, y) = Follow-Holds count i s e ranges f (omega arith) k in
      (suc j, t, g, at, x, y)
]

-- Every word of a section is in some range.
split_section_words-Holds :
    (words : List Text) (i : ℕ)
    → i < length words
    → (ranges : List (ℕ × ℕ)) × (split_section_words words ≡ some ranges) × Holds ranges i
split_section_words-Holds words i h =
    let (ranges, same, covers) = split_section_words-Cover words (omega arith) in
    (ranges, same, Cover-Holds (length words) i ranges covers h)
