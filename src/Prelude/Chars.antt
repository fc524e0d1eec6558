-- ===== src/Prelude/Chars.antt =====
-- Rust's `str` as the list of its characters (code points), its UTF-8 bytes, and the methods of
-- `char` and `str` that the crates use.
use Prim.Native.Char.{code}
use Prim.Native.String.{String}
use Prim.Native.Nat.{ℕ, zero, suc, ◌+◌, ◌-◌, ◌/◌, ◌%◌}
use mathlib.Core.Bool.{Bool, true, false, not, ◌&&◌, ◌||◌}
use mathlib.Core.List.{List, [], ◌∷◌, ◌++◌, map, reverse}
use context_os_mcp.Prelude.Tests.{ltb, leb, if◌then◌else◌}
use context_os_mcp.Prelude.Lists.{length, keep}
use context_os_mcp.Prelude.Equality.{◌==◌, nat_eq, list_eq}

abbrev pub Text : Type 0
Text = List ℕ

-- The characters of a literal.
abbrev pub codes : String → Text
codes String.[] = []
codes (String.◌∷◌ c s) = code c ∷ codes s

-- `char::encode_utf8`
abbrev pub encode_utf8 : ℕ → List ℕ
encode_utf8 c =
    if ltb c 0x80
    then c ∷ []
    else if ltb c 0x800
    then (0xc0 + c / 64) ∷ (0x80 + c % 64) ∷ []
    else if ltb c 0x10000
    then (0xe0 + c / 4096) ∷ (0x80 + c / 64 % 64) ∷ (0x80 + c % 64) ∷ []
    else (0xf0 + c / 262144) ∷ (0x80 + c / 4096 % 64) ∷ (0x80 + c / 64 % 64) ∷ (0x80 + c % 64) ∷ []

-- `str::as_bytes`; `str::len` is its length
abbrev pub bytes : Text → List ℕ
bytes [] = []
bytes (c ∷ cs) = encode_utf8 c ++ bytes cs

abbrev within : ℕ → ℕ → ℕ → Bool
within lo hi c = leb lo c && leb c hi

-- The ASCII classes of `char` and `u8`.
abbrev pub is_ascii_digit : ℕ → Bool
is_ascii_digit c = within b'0' b'9' c

abbrev pub is_ascii_alphabetic : ℕ → Bool
is_ascii_alphabetic c = within b'a' b'z' c || within b'A' b'Z' c

abbrev pub is_ascii_alphanumeric : ℕ → Bool
is_ascii_alphanumeric c = is_ascii_alphabetic c || is_ascii_digit c

abbrev pub is_ascii_hexdigit : ℕ → Bool
is_ascii_hexdigit c = is_ascii_digit c || within b'a' b'f' c || within b'A' b'F' c

abbrev pub to_lower : ℕ → ℕ
to_lower c = if within b'A' b'Z' c then c + 32 else c

-- `to_ascii_lowercase`, `eq_ignore_ascii_case`
abbrev pub to_ascii_lowercase : Text → Text
to_ascii_lowercase = map to_lower

abbrev pub eq_ignore_ascii_case : Text → Text → Bool
eq_ignore_ascii_case a b = to_ascii_lowercase a == to_ascii_lowercase b

-- `Display` of an unsigned integer. A number has no more digits than its value has units, so that
-- much fuel is enough.
abbrev pub digits : ℕ → ℕ → Text → Text
digits zero n out = out
digits (suc fuel) n out =
    let more = digits fuel (n / 10) ((b'0' + n % 10) ∷ out) in
    if ltb n 10 then (b'0' + n) ∷ out else more

unfoldable pub decimal : ℕ → Text
decimal n = digits (n + 1) n []

-- `join`: the pieces with a separator between them
abbrev pub join_text : Text → List Text → Text
join_text separator [] = []
join_text separator (piece ∷ []) = piece
join_text separator (piece ∷ next ∷ pieces) =
    piece ++ (separator ++ join_text separator (next ∷ pieces))

-- A character in front of the first piece, or a separator before a new one.
abbrev pub add_to_first : Bool → ℕ → List Text → List Text
add_to_first true c pieces = [] ∷ pieces
add_to_first false c [] = (c ∷ []) ∷ []
add_to_first false c (piece ∷ pieces) = (c ∷ piece) ∷ pieces

-- `str::split` on the characters that pass a test: the pieces between them.
abbrev pub split_on : (ℕ → Bool) → Text → List Text
split_on p [] = [] ∷ []
split_on p (c ∷ cs) = add_to_first (p c) c (split_on p cs)

-- `char::is_whitespace`: the White_Space property of Unicode.
abbrev pub is_whitespace : ℕ → Bool
is_whitespace c =
    within 9 13 c
    || c == 0x20
    || c == 0x85
    || c == 0xa0
    || c == 0x1680
    || within 0x2000 0x200a c
    || c == 0x2028
    || c == 0x2029
    || c == 0x202f
    || c == 0x205f
    || c == 0x3000

-- `str::trim_start`, `str::trim_end`, `str::trim`
abbrev pub trim_start_matches : (ℕ → Bool) → Text → Text
trim_start_matches p [] = []
trim_start_matches p (c ∷ cs) = let rest = trim_start_matches p cs in if p c then rest else c ∷ cs

abbrev pub trim_start : Text → Text
trim_start = trim_start_matches is_whitespace

abbrev pub trim : Text → Text
trim s = reverse (trim_start (reverse (trim_start s)))

-- `str::split_whitespace`
abbrev pub is_empty : Text → Bool
is_empty [] = true
is_empty (_ ∷ _) = false

unfoldable pub split_whitespace : Text → List Text
split_whitespace s = keep (λ piece. not (is_empty piece)) (split_on is_whitespace s)

-- `{:02}` and the like: zeros in front, up to a width.
abbrev pub zeros : ℕ → Text → Text
zeros zero s = s
zeros (suc n) s = b'0' ∷ zeros n s

unfoldable pub padded : ℕ → ℕ → Text
padded width n = zeros (width - length (decimal n)) (decimal n)

-- `str::lines`: the pieces between newlines, less a carriage return at an end and an empty last.
abbrev pub without_return : Text → Text
without_return [] = []
without_return (c ∷ []) = if c == b'\r' then [] else c ∷ []
without_return (c ∷ d ∷ cs) = c ∷ without_return (d ∷ cs)

abbrev pub line_pieces : List Text → List Text
line_pieces [] = []
line_pieces ([] ∷ []) = []
line_pieces (piece ∷ []) = piece ∷ []
line_pieces (piece ∷ next ∷ pieces) = without_return piece ∷ line_pieces (next ∷ pieces)

abbrev pub lines : Text → List Text
lines s = line_pieces (split_on (λ c. c == b'\n') s)

-- `take_while` on the characters
abbrev pub take_while : (ℕ → Bool) → Text → Text
take_while p [] = []
take_while p (c ∷ cs) = let rest = take_while p cs in if p c then c ∷ rest else []

-- `str::trim_end_matches`, `str::trim_end`
abbrev pub trim_end_matches : (ℕ → Bool) → Text → Text
trim_end_matches p s = reverse (trim_start_matches p (reverse s))

abbrev pub trim_end : Text → Text
trim_end = trim_end_matches is_whitespace
