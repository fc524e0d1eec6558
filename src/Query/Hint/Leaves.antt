-- ===== src/Query/Hint/Leaves.antt =====
-- A leaf that is true holds of rows within its hint only.
use context_os_mcp.Prelude.{
  Bool-cases, Option, Text, ap, append_assoc, codes, inl, inr, list_beq_iff, list_eq, nat_eq, none,
  ok, ok-injective, option_eq, refl, reverse, some, some-injective, strip_prefix,
  strip_prefix_sound, subst, sym, trim, true, ℕ, ◌++◌, ◌==◌, ◌>>=◌, ◌∙◌, ◌≡◌, ◌⊎◌,
}
use context_os_mcp.Vault.Confine.{split_once}
use context_os_mcp.Files.Edit.Exact.{Found, split_once-Found}
use context_os_mcp.Query.Value.{string, value_beq, RowContext}
use context_os_mcp.Query.Leaf.{
  parse_quoted, ComparisonOp, equal, not_equal, compared, parse_comparison, parse_contains,
  and_quoted, closed_argument, argument_of, in_folder, parse_literal, resolve_property,
  validate_property_name, file_property, comparison_leaf, contains_leaf, folder_leaf, tag_leaf,
  evaluate_leaf,
}
use context_os_mcp.Query.Hint.{
  ScanRootHint, folder, path, as_folder, as_path, comparison_hint, folder_call, call_hint,
  leaf_scan_hint,
}
use context_os_mcp.Query.Hint.Quoted.{
  IsTrimmed, trim-IsTrimmed, ends_quoted, no_argument, no_contains,
}

-- What a hint says of a row.
abbrev pub Within : RowContext → ScanRootHint → Type 0
Within row (folder name) = (row.file.folder ≡ name) ⊎ (in_folder row.file.folder name ≡ true)
Within row (path name) = row.file.path ≡ name

some_path :
    (o : Option Text) {g : ScanRootHint}
    → as_path o ≡ some g
    → (p : Text) × (o ≡ some p) × (path p ≡ g)
some_path none h = absurd (cc)
some_path (some p) h = (p, refl, some-injective _ _ h)

some_folder :
    (o : Option Text) {g : ScanRootHint}
    → as_folder o ≡ some g
    → (p : Text) × (o ≡ some p) × (folder p ≡ g)
some_folder none h = absurd (cc)
some_folder (some p) h = (p, refl, some-injective _ _ h)

-- A comparison with a hint is an equation with a quoted text.
hint_quoted :
    (o : Option (Text × ComparisonOp × Text)) {g : ScanRootHint}
    → comparison_hint o ≡ some g
    → (property : Text) × (rhs : Text) × (p : Text) × (o ≡ some (property, equal, rhs))
      × (parse_quoted rhs ≡ some p)
hint_quoted none h = absurd (cc)
hint_quoted (some (property, not_equal, rhs)) h = absurd (cc)
hint_quoted (some (property, equal, rhs)) h = elim (Bool-cases (property == codes "file.path")) [
  | inl first ↦
      let (p, quoted, _) = some_path (parse_quoted rhs) (rw first at h) in
      (property, rhs, p, refl, quoted)
  | inr other ↦ elim (Bool-cases (property == codes "file.folder")) [
    | inl second ↦
        let (p, quoted, _) = some_folder (parse_quoted rhs) (rw second at (rw other at h)) in
        (property, rhs, p, refl, quoted)
    | inr neither ↦ absurd (cc (rw neither at (rw other at h)))
  ]
]

compared_parts :
    (x y : Option (Text × Text)) {property rhs : Text}
    → compared not_equal x (compared equal y none) ≡ some (property, equal, rhs)
    → (l : Text) × (b : Text) × (y ≡ some (l, b)) × (trim b ≡ rhs)
compared_parts (some _) y h = absurd (cc)
compared_parts none none h = absurd (cc)
compared_parts none (some (l, b)) h = (l, b, refl, ap (λ o. o.2) (some-injective _ _ h))

argument_is : (o : Option Text) → closed_argument o ≡ and_quoted (folder_call o)
argument_is none = refl
argument_is (some rest) = refl

folder_call-some :
    (o : Option Text) {inner : Text} → folder_call o ≡ some inner → (rest : Text) × (o ≡ some rest)
folder_call-some none h = absurd (cc)
folder_call-some (some rest) h = (rest, refl)

module _ (parse_f64 : Text → Option ℕ) (row : RowContext) (place : Text) where
  resolve_path : resolve_property (codes "file.path") row place ≡ ok (some (string row.file.path))
  unfolding resolve_property validate_property_name file_property ◌>>=◌
  resolve_path = refl

  resolve_folder :
      resolve_property (codes "file.folder") row place ≡ ok (some (string row.file.folder))
  unfolding resolve_property validate_property_name file_property ◌>>=◌
  resolve_folder = refl

  equal_leaf :
      (property rhs trimmed v p : Text)
      → resolve_property property row place ≡ ok (some (string v))
      → parse_quoted rhs ≡ some p
      → comparison_leaf parse_f64 row place trimmed (some (property, equal, rhs)) ≡ ok true
      → v ≡ p
  unfolding parse_literal value_beq ◌>>=◌
  equal_leaf property rhs trimmed v p resolved quoted h =
      (list_beq_iff v p).0 (ok-injective (rw quoted at (rw resolved at h)))

  comparison-Within :
      (t property rhs : Text) (g : ScanRootHint)
      → comparison_hint (some (property, equal, rhs)) ≡ some g
      → comparison_leaf parse_f64 row place t (some (property, equal, rhs)) ≡ ok true
      → Within row g
  comparison-Within t property rhs g hint h = elim (Bool-cases (property == codes "file.path")) [
    | inl first ↦
        let (p, quoted, same) = some_path (parse_quoted rhs) (rw first at hint) in
        let at_path = (list_beq_iff property (codes "file.path")).0 first in
        subst (Within row) same (
          equal_leaf property rhs t row.file.path p
            (ap (λ n. resolve_property n row place) at_path ∙ resolve_path) quoted h)
    | inr other ↦ elim (Bool-cases (property == codes "file.folder")) [
      | inl second ↦
          let (p, quoted, same) =
            some_folder (parse_quoted rhs) (rw second at (rw other at hint)) in
          let at_folder = (list_beq_iff property (codes "file.folder")).0 second in
          subst (Within row) same (
            inl (
              equal_leaf property rhs t row.file.folder p
                (ap (λ n. resolve_property n row place) at_folder ∙ resolve_folder) quoted h))
      | inr neither ↦ absurd (cc (rw neither at (rw other at hint)))
    ]
  ]

  tag_first :
      (t rest : Text)
      → t ≡ codes "file.inFolder(" ++ rest
      → argument_of (codes "file.hasTag(") t ≡ none
  tag_first t rest h = ap (argument_of (codes "file.hasTag(")) h ∙ refl

  folder-Within :
      (t inner : Text) {g : ScanRootHint}
      → folder_call (strip_prefix (codes "file.inFolder(") t) ≡ some inner
      → as_folder (parse_quoted (trim inner)) ≡ some g
      → tag_leaf parse_f64 row place t (argument_of (codes "file.hasTag(") t) ≡ ok true
      → Within row g
  folder-Within t inner call hint h =
      let (f, quoted, same) = some_folder (parse_quoted (trim inner)) hint in
      let (rest, stripped) = folder_call-some (strip_prefix (codes "file.inFolder(") t) call in
      let no_tag = tag_first t rest (strip_prefix_sound (codes "file.inFolder(") t stripped) in
      let argument =
        argument_is (strip_prefix (codes "file.inFolder(") t) ∙ ap and_quoted call ∙ quoted in
      let step =
        sym (
          ap (tag_leaf parse_f64 row place t) no_tag
          ∙ ap (folder_leaf parse_f64 row place t) argument)
        ∙ h in
      subst (Within row) same (inr (ok-injective step))

  equation-Within :
      (t : Text) {g : ScanRootHint}
      → IsTrimmed t
      → comparison_hint (parse_comparison t) ≡ some g
      → tag_leaf parse_f64 row place t (argument_of (codes "file.hasTag(") t) ≡ ok true
      → Within row g
  unfolding parse_comparison parse_contains
  equation-Within t {g} trimmed hint h =
      let (property, rhs, p, parsed, quoted) = hint_quoted (parse_comparison t) hint in
      let (l, b, split, rhs_is) =
        compared_parts (split_once (codes "!=") t) (split_once (codes "==") t) parsed in
      let found = subst (Found (codes "==") t) split (split_once-Found (codes "==") t) in
      let (c, ends, quote) =
        ends_quoted t (l ++ codes "==") b (reverse b) trimmed
          (found.0 ∙ sym (append_assoc l (codes "==") b)) refl (ap parse_quoted rhs_is ∙ quoted) in
      let step =
        ap (tag_leaf parse_f64 row place t)
          (no_argument t c ends quote (codes "file.hasTag(") _ refl)
        ∙ ap (folder_leaf parse_f64 row place t)
            (no_argument t c ends quote (codes "file.inFolder(") _ refl)
        ∙ ap (contains_leaf parse_f64 row place t) (no_contains t c ends quote _ refl)
        ∙ ap (comparison_leaf parse_f64 row place t) parsed in
      comparison-Within t property rhs g (sym (ap comparison_hint parsed) ∙ hint) (sym step ∙ h)

  call-Within :
      (t : Text) (o : Option Text) {g : ScanRootHint}
      → IsTrimmed t
      → folder_call (strip_prefix (codes "file.inFolder(") t) ≡ o
      → call_hint o t ≡ some g
      → tag_leaf parse_f64 row place t (argument_of (codes "file.hasTag(") t) ≡ ok true
      → Within row g
  call-Within t none trimmed call hint h = equation-Within t trimmed hint h
  call-Within t (some inner) trimmed call hint h = folder-Within t inner call hint h

  pub leaf-Within :
      (expr : Text) {g : ScanRootHint}
      → leaf_scan_hint expr ≡ some g
      → evaluate_leaf parse_f64 row place expr ≡ ok true
      → Within row g
  unfolding leaf_scan_hint evaluate_leaf
  leaf-Within expr hint h = call-Within (trim expr) _ (trim-IsTrimmed expr) refl hint h
