-- ===== src/Examples/Texts.antt =====
-- Hashes and word ranges of concrete texts.
use context_os_mcp.Chunk.Split.Bound.{split_section_words-Fits, Fits, AllButLast}
use context_os_mcp.Prelude.{
  some, zero, suc, All, List, Text, [], arith, codes, ok, refl, ℕ, ◌∷◌, ◌≡◌,
}
use context_os_mcp.Hash.{ContentHash, from_bytes, try_from}
use context_os_mcp.Hash.Bytes.{IsByte, decode, from_bytes-try_from}
use context_os_mcp.Chunk.Split.{prefix_sums, tokens_between, split_section_words}
use context_os_mcp.Chunk.Split.Cover.{split_section_words-Cover}
use context_os_mcp.Chunk.Split.Ranges.{Cover}

abbrev counting : List ℕ
counting =
    0 ∷ 1 ∷ 2 ∷ 3 ∷ 4 ∷ 5 ∷ 6 ∷ 7 ∷ 8 ∷ 9 ∷ 10 ∷ 11 ∷ 12 ∷ 13 ∷ 14 ∷ 15 ∷ 250 ∷ 251 ∷ 252 ∷ 253
    ∷ 254 ∷ 255 ∷ 16 ∷ 32 ∷ 48 ∷ 64 ∷ 80 ∷ 96 ∷ 112 ∷ 128 ∷ 144 ∷ 160 ∷ []

counting-IsByte : All IsByte counting
counting-IsByte = ground arith

from_bytes-try_from_example :
    (try_from (from_bytes counting).hex ≡ ok (from_bytes counting))
    × (decode (from_bytes counting).hex ≡ counting)
from_bytes-try_from_example = from_bytes-try_from counting counting-IsByte refl

abbrev upper : Text
upper = codes "ABCDEF0123456789ABCDEF0123456789ABCDEF0123456789ABCDEF0123456789"

abbrev lower : ContentHash
lower = record { hex = codes "abcdef0123456789abcdef0123456789abcdef0123456789abcdef0123456789" }

upper-try_from : try_from upper ≡ ok lower
unfolding try_from
upper-try_from = refl

abbrev words : List Text
words = codes "split" ∷ codes "me" ∷ codes "here" ∷ []

split_section_words-Cover_example :
    (ranges : List (ℕ × ℕ)) × (split_section_words words ≡ some ranges) × Cover 3 0 ranges
split_section_words-Cover_example = split_section_words-Cover words (omega arith)

abbrev many : ℕ → Text → List Text
many zero word = []
many (suc n) word = word ∷ many n word

-- 500 words of five characters and the spaces between them are 750 tokens.
abbrev long_section : List Text
long_section = many 500 (codes "words")

split_section_words-Fits_example :
    (ranges : List (ℕ × ℕ)) × (split_section_words long_section ≡ some ranges)
    × AllButLast (Fits (tokens_between (prefix_sums long_section))) ranges
split_section_words-Fits_example = split_section_words-Fits long_section
