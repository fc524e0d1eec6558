-- ===== src/Hash/Bytes.antt =====
-- A content hash is 32 bytes: every byte string encodes to an accepted text, and every accepted
-- text is such an encoding.
use context_os_mcp.Prelude.{
  All, List, Text, [], all, ap, ap₂, arith, bytes, is_ascii_hexdigit, length, ok, refl, subst, suc,
  sym, to_ascii_lowercase, to_lower, true, zero, ℕ, ◌%◌, ◌*◌, ◌+◌, ◌/◌, ◌<◌, ◌∙◌, ◌∷◌, ◌≡◌,
}
use context_os_mcp.Hash.{ContentHash, hex_digit, encode, from_bytes, try_from}
use context_os_mcp.Hash.Canonical.{
  is_lower_hex, hex_value, hex_digit-lower, hex_value-hex_digit, hex_digit-hex_value, bytes-hex,
  bytes-lower,
}

abbrev pub IsByte : ℕ → Type 0
IsByte b = b < 256

-- The bytes that a text of digits spells.
unfoldable pub decode : Text → List ℕ
decode (a ∷ b ∷ rest) = (16 * hex_value a + hex_value b) ∷ decode rest
decode _ = []

pub decode-encode : (bs : List ℕ) → All IsByte bs → decode (encode bs) ≡ bs
unfolding decode encode
decode-encode [] h = refl
decode-encode (b ∷ bs) h =
    let high = hex_value-hex_digit (b / 16) (omega arith) in
    let low = hex_value-hex_digit (b % 16) (omega arith) in
    ap₂ ◌∷◌ (omega arith) (decode-encode bs h.1)

encode-lower :
    (bs : List ℕ)
    → All IsByte bs
    → (all is_lower_hex (encode bs) ≡ true) × (length (encode bs) ≡ 2 * length bs)
unfolding encode
encode-lower [] h = (refl, refl)
encode-lower (b ∷ bs) h =
    let high = hex_digit-lower (b / 16) (omega arith) in
    let low = hex_digit-lower (b % 16) (omega arith) in
    let (rest, len) = encode-lower bs h.1 in (ground (arith, high, low, rest), omega (arith, len))

-- Byte strings of length 32 encode to texts that parsing accepts, as the same hash, and that
-- spell the same bytes.
pub from_bytes-try_from :
    (bs : List ℕ)
    → All IsByte bs
    → length bs ≡ 32
    → (try_from (from_bytes bs).hex ≡ ok (from_bytes bs)) × (decode (from_bytes bs).hex ≡ bs)
unfolding from_bytes try_from
from_bytes-try_from bs h n =
    let (lower, len) = encode-lower bs h in
    let (b, d, l) = bytes-lower (encode bs) lower in
    let size : length (encode bs) ≡ 64 = omega (arith, len) in
    (rw (b, size, d, l), decode-encode bs h)

encode-decode :
    (n : ℕ) (v : Text)
    → length v ≡ 2 * n
    → all is_lower_hex v ≡ true
    → (encode (decode v) ≡ v) × (length (decode v) ≡ n) × All IsByte (decode v)
unfolding encode decode
encode-decode zero [] e h = (refl, refl, tt)
encode-decode zero (a ∷ v) e h = absurd (omega arith)
encode-decode (suc n) [] e h = absurd (omega arith)
encode-decode (suc n) (a ∷ []) e h = absurd (omega arith)
encode-decode (suc n) (a ∷ b ∷ v) e h =
    let (ea, ba) = hex_digit-hex_value a (ground arith) in
    let (eb, bb) = hex_digit-hex_value b (ground arith) in
    let (rest, len, small) = encode-decode n v (omega arith) (ground arith) in
    let high : (16 * hex_value a + hex_value b) / 16 ≡ hex_value a = omega arith in
    let low : (16 * hex_value a + hex_value b) % 16 ≡ hex_value b = omega arith in
    (
      ap₂ ◌∷◌ (ap hex_digit high ∙ ea) (ap₂ ◌∷◌ (ap hex_digit low ∙ eb) rest),
      omega arith,
      (omega arith, small),
    )

lower-IsLower :
    (v : Text)
    → all is_ascii_hexdigit v ≡ true
    → (all is_lower_hex (to_ascii_lowercase v) ≡ true) × (length (to_ascii_lowercase v) ≡ length v)
lower-IsLower [] h = (refl, refl)
lower-IsLower (c ∷ v) h =
    let (rest, len) = lower-IsLower v (ground arith) in
    let one : is_lower_hex (to_lower c) ≡ true = ground arith in
    (ground (arith, one, rest), omega (arith, len))

-- A text is accepted only if it spells 32 bytes, whose encoding, in lower case, is the hash; so
-- equal hashes are equal bytes, whatever the case of the text.
try_from-from_bytes :
    (v : Text) (h : ContentHash)
    → try_from v ≡ ok h
    → (bs : List ℕ) × (length bs ≡ 32)
      × All IsByte bs
      × (from_bytes bs ≡ h)
      × (h.hex ≡ to_ascii_lowercase v)
unfolding from_bytes
try_from-from_bytes v h e =
    let (digits, len, same) = accepted v h e in
    let plain = bytes-hex v digits in
    let (lower, size) =
      lower-IsLower v (subst (λ t. all is_ascii_hexdigit t ≡ true) plain digits) in
    let n = subst (λ (t : Text). length t ≡ 64) plain len in
    let (enc, count, small) =
      encode-decode 32 (to_ascii_lowercase v) (omega (arith, size, n)) lower in
    (decode (to_ascii_lowercase v), count, small, λ i. record { hex = (enc ∙ sym same) i }, same)
  where
    accepted :
        (v : Text) (h : ContentHash)
        → try_from v ≡ ok h
        → (all is_ascii_hexdigit (bytes v) ≡ true)
          × (length (bytes v) ≡ 64)
          × (h.hex ≡ to_ascii_lowercase v)
    accepted v h e = unfold try_from in ground arith
