-- ===== src/Query/Hint/Below.antt =====
-- The narrowed scan of a query misses no match: a hint's rows are below its directory.
use context_os_mcp.Prelude.{
  Bool-cases, Option, Text, [], ap, append_assoc, codes, inl, inr, list_beq_iff, list_eq, nat_eq,
  none, ok, option_eq, refl, reverse, some, some-injective, starts_with, strip_prefix,
  strip_prefix_sound, subst, sym, trim_end_matches, trim_start_matches, true, ℕ, ◌++◌, ◌==◌, ◌∙◌,
  ◌∷◌, ◌≡◌, ◌≢◌,
}
use mathlib.Core.List.{reverse-append, reverse-reverse, reverse-cons}
use context_os_mcp.Files.Edit.Exact.{Found, split_once-Found}
use context_os_mcp.Index.Block.{turned_back}
use context_os_mcp.FilePath.{is_slash}
use context_os_mcp.Query.Value.{RowContext, Value}
use context_os_mcp.Query.Leaf.{in_folder}
use context_os_mcp.Query.Filter.{evaluate_filters}
use context_os_mcp.Query.Hint.{
  ScanRootHint, folder, path, Hint, scan_root_hint, non_empty, behind_slash, parent_or,
  candidate_directory, narrowed,
}
use context_os_mcp.Query.Hint.Leaves.{Within}
use context_os_mcp.Query.Hint.Narrow.{filters-Within}

-- A text below a directory: what is left of it behind the directory and a slash.
abbrev pub IsBelow : Text → Text → Type 0
IsBelow directory s = (rest : Text) × (s ≡ directory ++ b'/' ∷ rest)

-- The folder of a file that is not in the root is the front of its path.
abbrev pub IsPlaced : RowContext → Type 0
IsPlaced row =
    (name : Text) × (row.file.folder ≢ [] → row.file.path ≡ row.file.folder ++ b'/' ∷ name)

slash_first :
    (turned : Text)
    → (gap : Text) × (turned ≡ gap ++ trim_start_matches is_slash turned)
      × ((r : Text) → IsBelow [] (reverse gap ++ b'/' ∷ r))
slash_first [] = ([], refl, λ r. (r, refl))
slash_first (c ∷ cs) = elim (Bool-cases (is_slash c)) [
  | inr other ↦ rw other ([], refl, λ r. (r, refl))
  | inl slash ↦
      let (gap, whole, first) = slash_first cs in
      let same = (nat_eq.equal_iff c b'/').0 slash in
      rw slash (
        c ∷ gap,
        ap (λ s. c ∷ s) whole,
        λ r.
            let (rest, behind) = first (b'/' ∷ r) in
            (
              rest,
              ap (λ g. g ++ b'/' ∷ r) (reverse-cons c gap)
                  ∙ append_assoc (reverse gap) (c ∷ []) (b'/' ∷ r)
                  ∙ ap (λ d. reverse gap ++ d ∷ b'/' ∷ r) same
                  ∙ behind,
            ),
      )
]

-- Below a directory is below the directory without the slashes at its end.
trimmed-IsBelow : (d r s : Text) → s ≡ d ++ b'/' ∷ r → IsBelow (trim_end_matches is_slash d) s
trimmed-IsBelow d r s whole =
    let (gap, turned, first) = slash_first (reverse d) in
    let front = trim_start_matches is_slash (reverse d) in
    let (rest, behind) = first r in
    let d_is = sym (reverse-reverse d) ∙ ap reverse turned ∙ reverse-append gap front in
    (
      rest,
      whole
          ∙ ap (λ x. x ++ b'/' ∷ r) d_is
          ∙ append_assoc (reverse front) (reverse gap) (b'/' ∷ r)
          ∙ ap (λ x. reverse front ++ x) behind,
    )

non_empty_is : (s : Text) {d : Text} → non_empty s ≡ some d → s ≡ d
non_empty_is [] h = absurd (cc)
non_empty_is (c ∷ cs) h = some-injective _ _ h

split_below :
    (p : Text) (o : Option (Text × Text)) {d : Text}
    → Found (codes "/") (reverse p) o
    → behind_slash o ≡ some d
    → (r : Text) × (p ≡ d ++ b'/' ∷ r)
split_below p none found h = absurd (cc)
split_below p (some (last, before)) found h = (
  reverse last,
  sym (reverse-reverse p)
      ∙ ap reverse found.0
      ∙ reverse-append last (b'/' ∷ before)
      ∙ ap (λ x. x ++ reverse last) (reverse-cons b'/' before)
      ∙ append_assoc (reverse before) (b'/' ∷ []) (reverse last)
      ∙ ap (λ x. x ++ b'/' ∷ reverse last) (non_empty_is (reverse before) h),
)

parent_below :
    (p : Text) (o : Option Text) {d : Text}
    → strip_prefix (codes "/") (reverse p) ≡ o
    → parent_or p (turned_back o) ≡ some d
    → (r : Text) × (p ≡ d ++ b'/' ∷ r)
parent_below p none strip h = split_below p _ (split_once-Found (codes "/") (reverse p)) h
parent_below p (some front) strip h = (
  [],
  sym (reverse-reverse p)
      ∙ ap reverse (strip_prefix_sound (codes "/") (reverse p) strip)
      ∙ reverse-cons b'/' front
      ∙ ap (λ x. x ++ b'/' ∷ []) (non_empty_is (reverse front) h),
)

-- A path is below its candidate directory.
candidate-IsBelow :
    (p : Text) {d : Text} → candidate_directory p ≡ some d → (r : Text) × (p ≡ d ++ b'/' ∷ r)
unfolding candidate_directory
candidate-IsBelow p h = parent_below p _ refl h

starts_front :
    (s p : Text) (o : Option Text)
    → strip_prefix p s ≡ o
    → starts_with s p ≡ true
    → (r : Text) × (s ≡ p ++ r)
starts_front s p none h e = absurd (cc (rw (h, starts_with) at e))
starts_front s p (some r) h e = (r, strip_prefix_sound p s h)

module _ (row : RowContext) (d : Text) (some_text : trim_end_matches is_slash d ≢ []) where
  folder_is :
      IsPlaced row → row.file.folder ≡ d → IsBelow (trim_end_matches is_slash d) row.file.path
  folder_is (name, placed) same =
      let whole = placed (λ e. some_text (ap (trim_end_matches is_slash) (sym same ∙ e))) in
      trimmed-IsBelow d name row.file.path (whole ∙ ap (λ x. x ++ b'/' ∷ name) same)

  folder_in :
      IsPlaced row
      → in_folder row.file.folder d ≡ true
      → IsBelow (trim_end_matches is_slash d) row.file.path
  unfolding in_folder
  folder_in (name, placed) inside =
      elim (Bool-cases (row.file.folder == trim_end_matches is_slash d)) [
        | inl same ↦
            let same = (list_beq_iff row.file.folder (trim_end_matches is_slash d)).0 same in
            (name, placed (λ e. some_text (sym same ∙ e)) ∙ ap (λ x. x ++ b'/' ∷ name) same)
        | inr other ↦
            let front = trim_end_matches is_slash d in
            let (r, whole) =
              starts_front row.file.folder (front ++ codes "/") _ refl (rw other at inside) in
            let whole = whole ∙ append_assoc front (codes "/") r in
            let there = placed (λ e. not_empty front b'/' r (sym whole ∙ e)) in
            (
              r ++ b'/' ∷ name,
              there
                  ∙ ap (λ x. x ++ b'/' ∷ name) whole
                  ∙ append_assoc front (b'/' ∷ r) (b'/' ∷ name),
            )
      ]
    where
      not_empty : (a : Text) (c : ℕ) (b : Text) → a ++ c ∷ b ≢ []
      not_empty [] c b = λ e. cc
      not_empty (x ∷ a) c b = λ e. cc

  Within-IsBelow :
      (g : ScanRootHint)
      → IsPlaced row
      → narrowed (some g) ≡ some d
      → Within row g
      → IsBelow (trim_end_matches is_slash d) row.file.path
  unfolding narrowed
  Within-IsBelow (path p) placed at_ within =
      let (r, whole) = candidate-IsBelow p at_ in trimmed-IsBelow d r row.file.path (within ∙ whole)
  Within-IsBelow (folder name) placed at_ (inl same) =
      folder_is placed (same ∙ non_empty_is name at_)
  Within-IsBelow (folder name) placed at_ (inr inside) =
      folder_in placed
        (subst (λ n. in_folder row.file.folder n ≡ true) (non_empty_is name at_) inside)

hint_of : (hint : Hint) {d : Text} → narrowed hint ≡ some d → (g : ScanRootHint) × (hint ≡ some g)
unfolding narrowed
hint_of none h = absurd (cc)
hint_of (some g) h = (g, refl)

-- Whatever reads a float: if the filters of a query narrow its scan to a directory that is not
-- made of slashes only, and are true of a row whose folder, unless it is the root, is the front of
-- its path, then the row's path lies below that directory, without the slashes at its end.
pub narrowed-IsBelow :
    (parse_f64 : Text → Option ℕ) (row : RowContext) (filters : Option Value) {d : Text}
    → narrowed (scan_root_hint filters) ≡ some d
    → trim_end_matches is_slash d ≢ []
    → IsPlaced row
    → evaluate_filters parse_f64 row filters ≡ ok true
    → IsBelow (trim_end_matches is_slash d) row.file.path
narrowed-IsBelow parse_f64 row filters {d} at_ some_text placed h =
    let (g, hint) = hint_of (scan_root_hint filters) at_ in
    Within-IsBelow row d some_text g placed (sym (ap narrowed hint) ∙ at_)
      (filters-Within parse_f64 row filters hint h)
