-- ===== src/Tags/Valid.antt =====
-- The tags that are extracted: valid, none twice, and all of the frontmatter's.
use context_os_mcp.Prelude.{
  All, Bool, Bool-cases, List, Option, Text, [], arith, beq_refl, contains, false, get_elem?,
  if◌then◌else◌, inl, inr, lines, list_beq_iff, list_eq, nat_eq, none, not, refl, some,
  some-injective, subst, suc, sym, trim_start, true, zero, ℕ, ◌&&◌, ◌++◌, ◌||◌, ◌∷◌, ◌≡◌,
}
use context_os_mcp.Tags.{
  TagsValue, tags_array, tags_string, no_tags, is_fence, is_valid_tag, tag_of, push_tag, scan,
  scan_line_tags, collect_lines, collect_inline_tags, push_item, push_items, frontmatter_tags,
  extract_tags,
}

-- No text stands twice.
abbrev pub NoRepeat : List Text → Type 0
NoRepeat [] = Unit
NoRepeat (t ∷ ts) = (contains t ts ≡ false) × NoRepeat ts

contains-append :
    (t : Text) (a b : List Text) → contains t (a ++ b) ≡ (contains t a || contains t b)
contains-append t [] b = refl
contains-append t (x ∷ a) b = ground (arith, contains-append t a b)

NoRepeat-append :
    (ts : List Text) (t : Text) → NoRepeat ts → contains t ts ≡ false → NoRepeat (ts ++ t ∷ [])
NoRepeat-append [] t n h = (refl, tt)
NoRepeat-append (x ∷ ts) t n h = (
  ground (arith, contains-append x ts (t ∷ []), list_beq_iff x t, list_beq_iff t x, n.0),
  NoRepeat-append ts t n.1 (ground arith),
)

All-append : (P : Text → Type 0) (ts : List Text) (t : Text) → All P ts → P t → All P (ts ++ t ∷ [])
All-append P [] t a p = (p, tt)
All-append P (x ∷ ts) t a p = (a.0, All-append P ts t a.1 p)

module _ (is_alphanumeric : ℕ → Bool) where
  abbrev pub IsTags : List Text → Type 0
  IsTags ts = NoRepeat ts × All (λ t. is_valid_tag is_alphanumeric t ≡ true) ts

  -- A step that keeps the tags so far and the property of the list.
  record Extends (before after : List Text) : Type 0 where
    keeps : (t : Text) → contains t before ≡ true → contains t after ≡ true
    valid : IsTags before → IsTags after

  same : (ts : List Text) → Extends ts ts
  same ts = record { keeps = λ t h. h; valid = λ v. v }

  Extends-trans : {a b c : List Text} → Extends a b → Extends b c → Extends a c
  Extends-trans {a} {b} {c} x y = record {
    keeps = λ t h. y.keeps t (x.keeps t h);
    valid = λ v. y.valid (x.valid v);
  }

  choose :
      (b : Bool) (ts x y : List Text)
      → Extends ts x
      → Extends ts y
      → Extends ts (if b then x else y)
  choose true ts x y p q = p
  choose false ts x y p q = q

  pushed :
      (ts : List Text) (t : Text)
      → is_valid_tag is_alphanumeric t ≡ true
      → contains t ts ≡ false
      → Extends ts (ts ++ t ∷ [])
  pushed ts t v n = record {
    keeps = λ u h. ground (arith, contains-append u ts (t ∷ []));
    valid = λ w. (NoRepeat-append ts t w.0 n, All-append _ ts t w.1 v);
  }

  push_tag-Extends : (ts : List Text) (raw : Text) → Extends ts (push_tag is_alphanumeric ts raw)
  unfolding push_tag
  push_tag-Extends ts raw =
      go (is_valid_tag is_alphanumeric (tag_of is_alphanumeric raw))
        (contains (tag_of is_alphanumeric raw) ts) refl refl
    where
      go :
          (v c : Bool)
          → is_valid_tag is_alphanumeric (tag_of is_alphanumeric raw) ≡ v
          → contains (tag_of is_alphanumeric raw) ts ≡ c
          → Extends ts (if v && not c then ts ++ tag_of is_alphanumeric raw ∷ [] else ts)
      go true false e n = pushed ts _ e n
      go true true e n = same ts
      go false c e n = same ts

  scan-Extends :
      (previous ticks : Option ℕ) (ts : List Text) (cs : Text)
      → Extends ts (scan is_alphanumeric previous ticks ts cs)
  unfolding scan
  scan-Extends previous ticks ts [] = same ts
  scan-Extends previous ticks ts (c ∷ cs) =
      Extends-trans (choose _ ts _ _ (choose _ ts _ _ (push_tag-Extends ts _) (same ts)) (same ts))
        (scan-Extends (some c) _ _ cs)

  collect_lines-Extends :
      (fence : Bool) (ts : List Text) (rest : List Text)
      → Extends ts (collect_lines is_alphanumeric fence ts rest)
  unfolding collect_lines scan_line_tags
  collect_lines-Extends fence ts [] = same ts
  collect_lines-Extends fence ts (line ∷ rest) =
      choose (is_fence (trim_start line)) ts _ _ (collect_lines-Extends (not fence) ts rest) (
        Extends-trans (choose fence ts _ _ (same ts) (scan-Extends none none ts line))
          (collect_lines-Extends fence _ rest))

  push_items-Extends :
      (ts : List Text) (items : List (Option Text))
      → Extends ts (push_items is_alphanumeric ts items)
  push_items-Extends ts [] = same ts
  push_items-Extends ts (some tag ∷ items) =
      Extends-trans (push_tag-Extends ts tag)
        (push_items-Extends (push_tag is_alphanumeric ts tag) items)
  push_items-Extends ts (none ∷ items) = push_items-Extends ts items

  frontmatter_tags-IsTags : (value : TagsValue) → IsTags (frontmatter_tags is_alphanumeric value)
  frontmatter_tags-IsTags (tags_array items) = (push_items-Extends [] items).valid (tt, tt)
  frontmatter_tags-IsTags (tags_string value) = (push_tag-Extends [] value).valid (tt, tt)
  frontmatter_tags-IsTags no_tags = (tt, tt)

  -- Every extracted tag is valid, and none is extracted twice.
  pub extract_tags-IsTags :
      (value : TagsValue) (body : Text) → IsTags (extract_tags is_alphanumeric value body)
  unfolding extract_tags collect_inline_tags
  extract_tags-IsTags value body =
      (collect_lines-Extends false (frontmatter_tags is_alphanumeric value) (lines body)).valid
        (frontmatter_tags-IsTags value)

  push_tag-contains :
      (ts : List Text) (raw : Text)
      → is_valid_tag is_alphanumeric (tag_of is_alphanumeric raw) ≡ true
      → contains (tag_of is_alphanumeric raw) (push_tag is_alphanumeric ts raw) ≡ true
  unfolding push_tag
  push_tag-contains ts raw v = elim (Bool-cases (contains (tag_of is_alphanumeric raw) ts)) [
    | inl old ↦ rw (v, old) old
    | inr new ↦
        rw (v, new)
          (ground (
            arith,
            contains-append (tag_of is_alphanumeric raw) ts (tag_of is_alphanumeric raw ∷ []),
            beq_refl (tag_of is_alphanumeric raw),
          ))
  ]

  push_items-contains :
      (ts : List Text) (items : List (Option Text)) (i : ℕ) (raw : Text)
      → get_elem? items i ≡ some (some raw)
      → is_valid_tag is_alphanumeric (tag_of is_alphanumeric raw) ≡ true
      → contains (tag_of is_alphanumeric raw) (push_items is_alphanumeric ts items) ≡ true
  push_items-contains ts [] i raw g v = cc
  push_items-contains ts (item ∷ items) zero raw g v =
      let same_item : item ≡ some raw = some-injective _ _ g in
      (push_items-Extends _ items).keeps _ (
        subst (λ x. contains (tag_of is_alphanumeric raw) (push_item is_alphanumeric ts x) ≡ true)
          (sym same_item) (push_tag-contains ts raw v))
  push_items-contains ts (item ∷ items) (suc i) raw g v =
      push_items-contains (push_item is_alphanumeric ts item) items i raw g v

  -- Every string of the frontmatter's list that is a valid tag, less its surrounding blanks and
  -- leading `#`, is extracted, whatever the body is.
  frontmatter-extract_tags :
      (items : List (Option Text)) (body : Text) (i : ℕ) (raw : Text)
      → get_elem? items i ≡ some (some raw)
      → is_valid_tag is_alphanumeric (tag_of is_alphanumeric raw) ≡ true
      → contains (tag_of is_alphanumeric raw) (extract_tags is_alphanumeric (tags_array items) body)
        ≡ true
  unfolding extract_tags collect_inline_tags
  frontmatter-extract_tags items body i raw g v =
      (collect_lines-Extends false (push_items is_alphanumeric [] items) (lines body)).keeps _
        (push_items-contains [] items i raw g v)
