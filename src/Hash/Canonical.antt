-- ===== src/Hash/Canonical.antt =====
-- Hashes as text and as 32 bytes are the same thing.
use context_os_mcp.Prelude.{
  holds_below_sound, holds_below, Bool, List, Text, [], all, ap₂, arith, bytes, encode_utf8,
  if◌then◌else◌, is_ascii_digit, is_ascii_hexdigit, leb, ltb, nat_beq_iff, nat_eq, refl,
  to_ascii_lowercase, to_lower, true, ℕ, ◌&&◌, ◌++◌, ◌-◌, ◌<◌, ◌==◌, ◌||◌, ◌∷◌, ◌≡◌,
}
use context_os_mcp.Hash.{hex_digit}

abbrev pub IsByte : ℕ → Type 0
IsByte b = b < 256

abbrev pub is_lower_hex : ℕ → Bool
is_lower_hex c = is_ascii_digit c || (leb b'a' c && leb c b'f')

unfoldable pub hex_value : ℕ → ℕ
hex_value c = if is_ascii_digit c then c - b'0' else c - 87

lower_table : holds_below 16 (λ v. is_lower_hex (hex_digit v)) ≡ true
unfolding holds_below hex_digit
lower_table = refl

pub hex_digit-lower : (v : ℕ) → v < 16 → is_lower_hex (hex_digit v) ≡ true
hex_digit-lower v h = holds_below_sound 16 _ v lower_table h

value_table : holds_below 16 (λ v. hex_value (hex_digit v) == v) ≡ true
unfolding holds_below hex_digit hex_value
value_table = refl

pub hex_value-hex_digit : (v : ℕ) → v < 16 → hex_value (hex_digit v) ≡ v
hex_value-hex_digit v h = (nat_beq_iff _ v).0 (holds_below_sound 16 _ v value_table h)

digit_table :
    holds_below 128
      (λ c. if is_lower_hex c then hex_digit (hex_value c) == c && ltb (hex_value c) 16 else true)
    ≡ true
unfolding holds_below hex_digit hex_value
digit_table = refl

pub hex_digit-hex_value :
    (c : ℕ) → is_lower_hex c ≡ true → (hex_digit (hex_value c) ≡ c) × (hex_value c < 16)
hex_digit-hex_value c h =
    let small : c < 128 = ground arith in
    let row = rw h at (holds_below_sound 128 _ c digit_table small) in ground arith

-- The text of a hexadecimal digit list is its own UTF-8.
encode_utf8-hex : (c : ℕ) → all is_ascii_hexdigit (encode_utf8 c) ≡ true → encode_utf8 c ≡ c ∷ []
encode_utf8-hex c h = ground arith

all-append :
    (p : ℕ → Bool) (xs ys : List ℕ)
    → all p (xs ++ ys) ≡ true
    → (all p xs ≡ true) × (all p ys ≡ true)
all-append p [] ys h = (refl, h)
all-append p (x ∷ xs) ys h = ground (arith, all-append p xs ys)

pub bytes-hex : (v : Text) → all is_ascii_hexdigit (bytes v) ≡ true → bytes v ≡ v
bytes-hex [] h = refl
bytes-hex (c ∷ cs) h =
    let (here, later) = all-append is_ascii_hexdigit (encode_utf8 c) (bytes cs) h in
    ap₂ ◌++◌ (encode_utf8-hex c here) (bytes-hex cs later)

pub bytes-lower :
    (v : Text)
    → all is_lower_hex v ≡ true
    → (bytes v ≡ v) × (all is_ascii_hexdigit v ≡ true) × (to_ascii_lowercase v ≡ v)
bytes-lower [] h = (refl, refl, refl)
bytes-lower (c ∷ cs) h =
    let one : encode_utf8 c ≡ c ∷ [] = ground arith in
    let low : to_lower c ≡ c = ground arith in
    let (b, d, l) = bytes-lower cs (ground arith) in (ap₂ ◌++◌ one b, ground arith, ap₂ ◌∷◌ low l)
