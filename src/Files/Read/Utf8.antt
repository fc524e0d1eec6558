-- ===== src/Files/Read/Utf8.antt =====
-- `std::str::from_utf8`: the characters of bytes that are valid UTF-8.
use context_os_mcp.Prelude.{
  Bool, List, Option, Text, [], bytes, codes, false, if◌then◌else◌, leb, ltb, nat_eq, none, refl,
  some, suc, true, zero, ℕ, ◌&&◌, ◌*◌, ◌+◌, ◌-◌, ◌==◌, ◌∷◌, ◌≡◌,
}

abbrev pub between : ℕ → ℕ → ℕ → Bool
between lo hi b = leb lo b && leb b hi

-- What a first byte says: a character by itself, or how many bytes follow, the bits it gives, and
-- the bounds of the next byte.
pub data Lead : Type 0 where
  ascii invalid : Lead
  starts : ℕ → ℕ → ℕ → ℕ → Lead

abbrev pub lead : ℕ → Lead
lead b =
    if ltb b 0x80
    then ascii
    else if between 0xc2 0xdf b
    then starts 1 (b - 0xc0) 0x80 0xbf
    else if b == 0xe0
    then starts 2 0 0xa0 0xbf
    else if b == 0xed
    then starts 2 13 0x80 0x9f
    else if between 0xe1 0xef b
    then starts 2 (b - 0xe0) 0x80 0xbf
    else if b == 0xf0
    then starts 3 0 0x90 0xbf
    else if between 0xf1 0xf3 b
    then starts 3 (b - 0xf0) 0x80 0xbf
    else if b == 0xf4
    then starts 3 4 0x80 0x8f
    else invalid

abbrev pub Rest : Type 0
Rest = ℕ → ℕ → ℕ → ℕ → Option Text

abbrev pub with_char : ℕ → Option Text → Option Text
with_char c none = none
with_char c (some cs) = some (c ∷ cs)

abbrev pub after_lead : ℕ → Lead → Rest → Option Text
after_lead b ascii rest = with_char b (rest 0 0 0 0)
after_lead b invalid rest = none
after_lead b (starts k bits lo hi) rest = rest k bits lo hi

abbrev pub after_more : Bool → ℕ → ℕ → Rest → Option Text
after_more false k bits rest = none
after_more true zero bits rest = with_char bits (rest 0 0 0 0)
after_more true (suc k) bits rest = rest (suc k) bits 0x80 0xbf

-- With the number of bytes that the current character still wants, its bits so far, and the
-- bounds of its next byte.
unfoldable pub utf8_from : ℕ → ℕ → ℕ → ℕ → List ℕ → Option Text
utf8_from zero bits lo hi [] = some []
utf8_from (suc k) bits lo hi [] = none
utf8_from zero bits lo hi (b ∷ bs) =
    after_lead b (lead b) (λ k bits lo hi. utf8_from k bits lo hi bs)
utf8_from (suc k) bits lo hi (b ∷ bs) =
    after_more (between lo hi b) k (bits * 64 + (b - 0x80))
      (λ k bits lo hi. utf8_from k bits lo hi bs)

unfoldable pub from_utf8 : List ℕ → Option Text
from_utf8 bs = utf8_from 0 0 0 0 bs

two_bytes : from_utf8 (bytes (codes "aé€\n")) ≡ some (codes "aé€\n")
unfolding from_utf8 utf8_from
two_bytes = refl

too_long : from_utf8 (0xc0 ∷ 0x80 ∷ []) ≡ none
unfolding from_utf8 utf8_from
too_long = refl
