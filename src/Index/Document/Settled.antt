-- ===== src/Index/Document/Settled.antt =====
-- Reconciling a reconciled file changes nothing.
use context_os_mcp.Prelude.{
  All, List, Option, Result, Text, [], ap, append-nil, ap₂, arith, err, false, if◌then◌else◌,
  length, lines, lt→ltb, nat_eq, none, ok, refl, some, some-injective, strip_prefix,
  strip_prefix-append, sym, ℕ, ◌++◌, ◌+◌, ◌<◌, ◌>>=◌, ◌||◌, ◌∙◌, ◌∷◌, ◌≡◌,
}
use context_os_mcp.Vault.Confine.{split_once}
use context_os_mcp.Files.Edit.Exact.{IsFirst, Never, Found, split_once-Found}
use context_os_mcp.Index.Block.{
  invalid_markers, IndexEntry, IndexError, begin_marker, end_marker, Summaries, block_body,
  render_block, existing_summaries,
}
use context_os_mcp.Index.Block.Rows.{IsPlain, HasNamesOnce, existing_summaries-render_block}
use context_os_mcp.Index.Document.{
  front_length, is_found, contains_text, more_markers, replace_block, reconcile_at,
  reconcile_existing,
}
use context_os_mcp.Index.Document.Around.{cut_both, length-append, HasParts, parts_of}

no_length : (gap : Text) → length gap ≡ 0 → gap ≡ []
no_length [] h = refl
no_length (c ∷ gap) h = absurd (omega (arith, h))

Found-IsFirst :
    (pattern s front back : Text) (o : Option (Text × Text))
    → Found pattern s o
    → IsFirst pattern s front back
    → o ≡ some (front, back)
Found-IsFirst pattern s front back none f first = absurd (f front back first.0)
Found-IsFirst pattern s front back (some (b, a)) f first =
    let (gap, front_is, rest_is) =
      cut_both b (pattern ++ a) front (pattern ++ back) (sym f.0 ∙ first.0)
        (f.1 front back first.0) in
    let nothing =
      no_length gap (omega (arith, first.1 b a f.0, ap length front_is, length-append b gap)) in
    let same_front = sym (front_is ∙ ap (λ g. b ++ g) nothing ∙ append-nil b) in
    let same_rest = rest_is ∙ ap (λ g. g ++ (pattern ++ back)) nothing in
    let same_back = some-injective _ _ (
      sym (strip_prefix-append pattern a)
      ∙ ap (strip_prefix pattern) same_rest
      ∙ strip_prefix-append pattern back) in
    ap₂ (λ x y. some (x, y)) same_front same_back

-- The first occurrence is the one that is found.
split_once-first :
    (pattern s front back : Text)
    → IsFirst pattern s front back
    → split_once pattern s ≡ some (front, back)
split_once-first pattern s front back first =
    Found-IsFirst pattern s front back (split_once pattern s) (split_once-Found pattern s) first

is_found-Never :
    (pattern s : Text) (o : Option (Text × Text))
    → Found pattern s o
    → Never pattern s
    → is_found o ≡ false
is_found-Never pattern s none f never = refl
is_found-Never pattern s (some (b, a)) f never = absurd (never b a f.0)

split_once-Never : (pattern s : Text) → Never pattern s → is_found (split_once pattern s) ≡ false
split_once-Never pattern s never =
    is_found-Never pattern s (split_once pattern s) (split_once-Found pattern s) never

-- A file with a rendered block.
abbrev pub around : Text → Text → List IndexEntry → Summaries → Text
around front back entries existing = front ++ (render_block entries existing ++ back)

-- Markers occur in it only where the block has them.
pub record IsSettled (front back : Text) (entries : List IndexEntry) (existing : Summaries)
    : Type 0 where
  pub begins :
      IsFirst begin_marker
        (around front back entries existing)
        front
        (block_body entries existing ++ (end_marker ++ back))
  pub ends :
      IsFirst end_marker
        (around front back entries existing)
        ((front ++ begin_marker) ++ block_body entries existing)
        back
  pub clear_block : Never begin_marker (block_body entries existing)
  pub clear_back : Never begin_marker back × Never end_marker back

abbrev with_summaries :
    Text → Text → List IndexEntry → Result IndexError Summaries → Result IndexError Text
with_summaries front back entries m = m >>= λ s. ok (front ++ (render_block entries s ++ back))

clear_parts :
    (b e : ℕ) (source front managed back : Text)
    → HasParts b e source front managed back
    → Never begin_marker managed
    → Never begin_marker back × Never end_marker back
    → more_markers b e source ≡ false
clear_parts b e source front managed back p inside (begins, ends) =
    ap₂
      (λ t m.
        contains_text begin_marker t || contains_text end_marker t || contains_text begin_marker m)
      p.behind p.inside
    ∙ clear
  where
    clear :
        (contains_text begin_marker back
          || contains_text end_marker back
          || contains_text begin_marker managed)
        ≡ false
    clear =
        rw
          (
            split_once-Never begin_marker back begins,
            split_once-Never end_marker back ends,
            split_once-Never begin_marker managed inside,
          )
          refl

replace_parts :
    (b e : ℕ) (source front managed back : Text) (entries : List IndexEntry)
    → HasParts b e source front managed back
    → more_markers b e source ≡ false
    → replace_block b e source entries
      ≡ with_summaries front back entries (existing_summaries managed (length (lines front) + 1))
unfolding replace_block
replace_parts b e source front managed back entries p clear = rw clear (λ i.
    existing_summaries (p.inside i) (length (lines (p.before i)) + 1) >>= λ s.
    ok (p.before i ++ (render_block entries s ++ p.behind i)))

-- If the names of the entries are distinct, their rows plain, and markers occur only around the
-- block, then reconciling a file with a block that was rendered for these entries returns the file.
reconcile_existing-settled :
    (front back : Text) (entries : List IndexEntry) (existing : Summaries)
    → IsSettled front back entries existing
    → All (IsPlain existing) entries
    → HasNamesOnce entries
    → reconcile_existing (around front back entries existing) entries
      ≡ ok (around front back entries existing)
unfolding reconcile_existing replace_block ◌>>=◌
reconcile_existing-settled front back entries existing settled plain once =
    let source = around front back entries existing in
    let body = block_body entries existing in
    let f = (front ++ begin_marker) ++ body in
    let p = parts_of source front f body back settled.ends.0 refl in
    let (parsed, read, _, same) =
      existing_summaries-render_block existing entries (length (lines front) + 1) plain once in
    let clear =
      clear_parts (length front) (length f) source front body back p settled.clear_block
        settled.clear_back in
    let before : length front < length f =
      omega (arith, length-append (front ++ begin_marker) body, length-append front begin_marker) in
    ap₂ (λ x y. reconcile_at (front_length x) (front_length y) source entries)
      (split_once-first begin_marker source front (body ++ (end_marker ++ back)) settled.begins)
      (split_once-first end_marker source f back settled.ends)
    ∙ ap
        (λ c.
          if c then replace_block (length front) (length f) source entries else err invalid_markers)
        (lt→ltb (length front) (length f) before)
    ∙ replace_parts (length front) (length f) source front body back entries p clear
    ∙ ap (with_summaries front back entries) read
    ∙ ap (λ r. ok (front ++ (r ++ back))) same
