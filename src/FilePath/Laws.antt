-- ===== src/FilePath/Laws.antt =====
-- Joining, prefixes and canonical forms.
use context_os_mcp.Prelude.{◌≡◌, refl, [], ◌∷◌, ◌++◌, All}
use context_os_mcp.FilePath.{
  root_dir, cur_dir, parent_dir, normal, FilePath, join, IsNormal, IsCanonical,
}

pub join-normals :
    (base rest : FilePath) → IsCanonical base → All IsNormal rest → join base rest ≡ base ++ rest
unfolding join
join-normals (root_dir ∷ base) [] c n = refl
join-normals (root_dir ∷ base) (normal x ∷ rest) c n = refl
join-normals (root_dir ∷ base) (root_dir ∷ rest) c n = absurd n.0
join-normals (root_dir ∷ base) (cur_dir ∷ rest) c n = absurd n.0
join-normals (root_dir ∷ base) (parent_dir ∷ rest) c n = absurd n.0
join-normals _ rest c n = absurd c

pub All-append : (xs ys : FilePath) → All IsNormal xs → All IsNormal ys → All IsNormal (xs ++ ys)
All-append [] ys p q = q
All-append (x ∷ xs) ys p q = (p.0, All-append xs ys p.1 q)

All-append_right : (xs ys : FilePath) → All IsNormal (xs ++ ys) → All IsNormal ys
All-append_right [] ys p = p
All-append_right (x ∷ xs) ys p = All-append_right xs ys p.1

pub IsCanonical-append :
    (p rest : FilePath) → IsCanonical p → All IsNormal rest → IsCanonical (p ++ rest)
IsCanonical-append (root_dir ∷ p) rest c n = All-append p rest c n
IsCanonical-append _ rest c n = absurd c

-- What stands behind a canonical prefix of a canonical path is plain names.
pub IsCanonical-rest :
    (p rest : FilePath) → IsCanonical p → IsCanonical (p ++ rest) → All IsNormal rest
IsCanonical-rest (root_dir ∷ p) rest c d = All-append_right p rest d
IsCanonical-rest _ rest c d = absurd c
