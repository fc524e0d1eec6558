-- ===== src/FilePath.antt =====
-- `std::path` on Unix, as the crates use it: a path is its sequence of components, which is how
-- Rust compares, joins and takes prefixes of paths.
pub mod Laws
use context_os_mcp.Prelude.{
  some, reverse, none, Option, split_on, ℕ, ◌≡◌, ◌↔◌, Bool, true, false, List, [], ◌∷◌, ◌++◌, arith,
  Text, codes, Eq, ◌==◌, nat_eq, list_eq, if◌then◌else◌, list_beq_iff, All,
}

pub data Component : Type 0 where
  root_dir cur_dir parent_dir : Component
  normal : Text → Component

abbrev pub component_beq : Component → Component → Bool
component_beq root_dir root_dir = true
component_beq cur_dir cur_dir = true
component_beq parent_dir parent_dir = true
component_beq (normal a) (normal b) = a == b
component_beq _ _ = false

pub component_beq_iff : (a b : Component) → (component_beq a b ≡ true) ↔ (a ≡ b)
component_beq_iff (normal a) (normal b) = ground (arith, list_beq_iff a b)
component_beq_iff root_dir b = ground arith
component_beq_iff cur_dir b = ground arith
component_beq_iff parent_dir b = ground arith
component_beq_iff _ b = ground arith

instance abbrev pub component_eq : Eq Component
component_eq = record { equal = component_beq; equal_iff = component_beq_iff }

abbrev pub FilePath : Type 0
FilePath = List Component

-- One piece between separators: empty pieces and `.` vanish.
abbrev pub piece_components : Text → FilePath
piece_components piece =
    if piece == []
    then []
    else if piece == codes "."
    then []
    else if piece == codes ".."
    then parent_dir ∷ []
    else normal piece ∷ []

abbrev pub pieces_components : List Text → FilePath
pieces_components [] = []
pieces_components (piece ∷ pieces) = piece_components piece ++ pieces_components pieces

-- A leading `.` of a relative path stays.
abbrev pub relative_components : List Text → FilePath
relative_components [] = []
relative_components (piece ∷ pieces) =
    (if piece == codes "." then cur_dir ∷ [] else piece_components piece)
    ++ pieces_components pieces

-- `Path::new(raw).components()`
abbrev pub is_slash : ℕ → Bool
is_slash c = c == b'/'

unfoldable pub components : Text → FilePath
components [] = []
components (c ∷ cs) =
    if is_slash c
    then root_dir ∷ pieces_components (split_on is_slash cs)
    else relative_components (split_on is_slash (c ∷ cs))

abbrev pub is_absolute : FilePath → Bool
is_absolute (root_dir ∷ _) = true
is_absolute _ = false

-- The components that `join` appends: a leading `.` vanishes behind another path.
abbrev pub appended : FilePath → FilePath → FilePath
appended [] rhs = rhs
appended (c ∷ base) (cur_dir ∷ rhs) = (c ∷ base) ++ rhs
appended (c ∷ base) rhs = (c ∷ base) ++ rhs

-- `Path::join`; `PathBuf::push` is the same on the owner.
unfoldable pub join : FilePath → FilePath → FilePath
join base rhs = if is_absolute rhs then rhs else appended base rhs

-- `Path::parent`
abbrev pub above : FilePath → Option FilePath
above [] = none
above (root_dir ∷ _) = none
above (_ ∷ up) = some (reverse up)

abbrev pub parent : FilePath → Option FilePath
parent p = above (reverse p)

-- A component that is a plain name.
abbrev pub IsNormal : Component → Type 0
IsNormal (normal _) = Unit
IsNormal _ = ⊥

-- An absolute path of plain names, the form that `canonicalize` returns.
abbrev pub IsCanonical : FilePath → Type 0
IsCanonical (root_dir ∷ rest) = All IsNormal rest
IsCanonical _ = ⊥
