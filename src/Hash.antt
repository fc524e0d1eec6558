-- ===== src/Hash.antt =====
-- `ContentHash`, a SHA-256 identity in lower-case hexadecimal
-- (crates/contextos-core/src/pipeline.rs).
pub mod Canonical
pub mod Bytes
use context_os_mcp.Prelude.{
  Eq, List, Result, Text, [], all, arith, bytes, codes, err, get_or, if◌then◌else◌,
  is_ascii_hexdigit, length, list_beq_iff, list_eq, nat_eq, not, ok, to_ascii_lowercase, true, ℕ,
  ◌%◌, ◌/◌, ◌==◌, ◌↔◌, ◌∷◌, ◌≡◌,
}

pub record ContentHash : Type 0 where
  pub hex : Text

pub data ContentHashError : Type 0 where
  invalid_length : ℕ → ContentHashError
  invalid_character : ContentHashError

-- `hex_digit`: one arm for each digit, and `f` for what is left.
unfoldable pub hex_digit : ℕ → ℕ
hex_digit value = get_or (codes "0123456789abcde") value b'f'

-- `byte >> 4` and `byte & 0x0f`
unfoldable pub encode : List ℕ → Text
encode [] = []
encode (byte ∷ rest) = hex_digit (byte / 16) ∷ hex_digit (byte % 16) ∷ encode rest

-- `ContentHash::from([u8; 32])`
unfoldable pub from_bytes : List ℕ → ContentHash
from_bytes value = record { hex = encode value }

-- `ContentHash::try_from(&str)`
unfoldable pub try_from : Text → Result ContentHashError ContentHash
try_from value =
    if not (length (bytes value) == 64)
    then err (invalid_length (length (bytes value)))
    else if not (all is_ascii_hexdigit (bytes value))
    then err invalid_character
    else ok (record { hex = to_ascii_lowercase value })

pub beq_iff_hex : (a b : ContentHash) → ((a.hex == b.hex) ≡ true) ↔ (a ≡ b)
beq_iff_hex a b = ground (arith, list_beq_iff a.hex b.hex)

instance abbrev pub hash_eq : Eq ContentHash
hash_eq = record { equal = λ a b. a.hex == b.hex; equal_iff = beq_iff_hex }
