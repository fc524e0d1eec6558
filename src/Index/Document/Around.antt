-- ===== src/Index/Document/Around.antt =====
-- Reconciliation changes nothing outside the managed block.
use context_os_mcp.Prelude.{
  Bool, Bool-cases, List, Option, Text, [], ap, append_assoc, ap₂, arith, bind-eq-ok, drop, false,
  get_elem?, holds_below, holds_below_sound, inl, inr, length, lines, ltb, ltb→lt, nat_eq, none,
  not, ok, ok-injective, option_eq, refl, some, subst, suc, sym, take, true, zero, ℕ, ◌++◌, ◌+◌,
  ◌-◌, ◌<◌, ◌==◌, ◌∙◌, ◌∷◌, ◌≡◌, ◌≤◌,
}
use native.Mathlib.Decide.{dec_lt}
use context_os_mcp.Vault.Confine.{split_once}
use context_os_mcp.Files.Edit.Exact.{Occurs, IsFirst, Never, Found, split_once-Found}
use context_os_mcp.Index.Block.{
  IndexEntry, begin_marker, end_marker, Summaries, render_block, existing_summaries,
}
use context_os_mcp.Index.Document.{
  front_length, is_found, managed_text, text_behind, more_markers, replace_block, reconcile_at,
  reconcile_existing, appended_block,
}

module _ {ℓ} {A : Type ℓ} where
  pub cut_both :
      (front back b rest : List A)
      → front ++ back ≡ b ++ rest
      → length front ≤ length b
      → (gap : List A) × (b ≡ front ++ gap) × (back ≡ gap ++ rest)
  cut_both [] back b rest e h = (b, refl, e)
  cut_both (x ∷ front) back [] rest e h = absurd (omega (arith, h))
  cut_both (x ∷ front) back (y ∷ b) rest e h =
      let (gap, same, more) = cut_both front back b rest (cc) (omega (arith, h)) in (gap, cc, more)

  take-front : (front back : List A) → take (length front) (front ++ back) ≡ front
  take-front [] back = refl
  take-front (x ∷ front) back = ap (λ t. x ∷ t) (take-front front back)

  drop-front : (front back : List A) → drop (length front) (front ++ back) ≡ back
  drop-front [] back = refl
  drop-front (x ∷ front) back = drop-front front back

  pub length-append : (a b : List A) → length (a ++ b) ≡ length a + length b
  length-append [] b = omega arith
  length-append (x ∷ a) b = omega (arith, length-append a b)

  get_elem?-behind :
      (front back : List A) (i j : ℕ)
      → j ≡ length front + i
      → get_elem? (front ++ back) j ≡ get_elem? back i
  get_elem?-behind [] back i j h = ap (get_elem? back) {x = j} {y = i} (omega (arith, h))
  get_elem?-behind (x ∷ front) back i zero h = absurd (omega (arith, h))
  get_elem?-behind (x ∷ front) back i (suc j) h = get_elem?-behind front back i j (omega (arith, h))

  get_elem?-inside :
      (front back : List A) (i : ℕ)
      → i < length front
      → get_elem? (front ++ back) i ≡ get_elem? front i
  get_elem?-inside [] back i h = absurd (omega (arith, h))
  get_elem?-inside (x ∷ front) back zero h = refl
  get_elem?-inside (x ∷ front) back (suc i) h = get_elem?-inside front back i (omega (arith, h))

-- Behind its first character, the marker has no character that starts a marker.
abbrev starts_no_marker : ℕ → Bool
starts_no_marker k = not (get_elem? begin_marker (suc k) == some b'<')

no_start : (k : ℕ) → k < 29 → starts_no_marker k ≡ true
unfolding holds_below
no_start k h = holds_below_sound 29 starts_no_marker k refl h

-- The second marker does not start inside the first.
apart :
    (front r f back : Text)
    → front ++ (begin_marker ++ r) ≡ f ++ (end_marker ++ back)
    → length front < length f
    → length (front ++ begin_marker) ≤ length f
apart front r f back e h = elim (dec_lt (length f) (length front + 30)) [
  | yes inside ↦
      let k = length f - length front - 1 in
      let here = get_elem?-behind front (begin_marker ++ r) (suc k) (length f) (omega (arith, h)) in
      let there = get_elem?-behind f (end_marker ++ back) 0 (length f) (omega arith) in
      let at = get_elem?-inside begin_marker r (suc k) (omega (arith, h, inside)) in
      let starts = sym at ∙ sym here ∙ ap (λ s. get_elem? s (length f)) e ∙ there in
      absurd
        (cc (sym (no_start k (omega (arith, h, inside))) ∙ ap (λ o. not (o == some b'<')) starts))
  | no beyond ↦ omega (arith, beyond, length-append front begin_marker)
]

-- The text before the block, in it and behind it.
pub record IsManaged (source front managed back : Text) : Type 0 where
  pub parts : source ≡ front ++ (begin_marker ++ (managed ++ (end_marker ++ back)))
  -- no marker begins earlier, and none follows
  pub first_marker : (b a : Text) → Occurs begin_marker source b a → length front ≤ length b
  pub no_more : Never begin_marker back × Never end_marker back

-- What reconciliation makes of a source.
pub data IsReconciled (source : Text) (entries : List IndexEntry) (result : Text) : Type 0 where
  appended :
      Never begin_marker source
      → Never end_marker source
      → result ≡ appended_block source entries
      → IsReconciled source entries result
  replaced :
      (front managed back : Text) (summaries : Summaries)
      → IsManaged source front managed back
      → existing_summaries managed (length (lines front) + 1) ≡ ok summaries
      → result ≡ front ++ (render_block entries summaries ++ back)
      → IsReconciled source entries result

is_found-Never :
    (pattern s : Text) (o : Option (Text × Text))
    → Found pattern s o
    → is_found o ≡ false
    → Never pattern s
is_found-Never pattern s none f h = f
is_found-Never pattern s (some _) f h = cc

none_more :
    (b e : ℕ) (source : Text)
    → more_markers b e source ≡ false
    → Never begin_marker (text_behind e source) × Never end_marker (text_behind e source)
none_more b e source h = (
  is_found-Never begin_marker _ _ (split_once-Found begin_marker (text_behind e source))
      (ground arith),
  is_found-Never end_marker _ _ (split_once-Found end_marker (text_behind e source)) (ground arith),
)

-- The slices of the source are its parts.
pub record HasParts (b e : ℕ) (source front managed back : Text) : Type 0 where
  pub before : take b source ≡ front
  pub inside : managed_text b e source ≡ managed
  pub behind : text_behind e source ≡ back

pub parts_of :
    (source front f managed back : Text)
    → source ≡ f ++ (end_marker ++ back)
    → f ≡ (front ++ begin_marker) ++ managed
    → HasParts (length front) (length f) source front managed back
parts_of source front f managed back at whole = record {
  before =
      ap (take (length front)) (
        at
        ∙ ap (λ t. t ++ (end_marker ++ back)) (whole ∙ append_assoc front begin_marker managed)
        ∙ append_assoc front (begin_marker ++ managed) (end_marker ++ back))
      ∙ take-front front ((begin_marker ++ managed) ++ (end_marker ++ back));
  inside =
      ap (drop (length front + length begin_marker))
        (ap (take (length f)) at ∙ take-front f (end_marker ++ back) ∙ whole)
      ∙ ap (λ n. drop n ((front ++ begin_marker) ++ managed))
          (sym (length-append front begin_marker))
      ∙ drop-front (front ++ begin_marker) managed;
  behind =
      ap (drop (length f + length end_marker)) (at ∙ sym (append_assoc f end_marker back))
      ∙ ap (λ n. drop n ((f ++ end_marker) ++ back)) (sym (length-append f end_marker))
      ∙ drop-front (f ++ end_marker) back;
}

replace_block-IsReconciled :
    (source front r f back : Text) (entries : List IndexEntry) {result : Text}
    → IsFirst begin_marker source front r
    → IsFirst end_marker source f back
    → length front < length f
    → replace_block (length front) (length f) source entries ≡ ok result
    → IsReconciled source entries result
unfolding replace_block
replace_block-IsReconciled source front r f back entries {result} first last before h =
    let b = length front in
    let e = length f in
    let joined = sym first.0 ∙ last.0 in
    let (managed, whole, r_is) =
      cut_both (front ++ begin_marker) r f (end_marker ++ back)
        (append_assoc front begin_marker r ∙ joined) (apart front r f back joined before) in
    let p = parts_of source front f managed back last.0 whole in
    elim (Bool-cases (more_markers b e source)) [
      | inl more ↦ absurd (cc (rw more at h))
      | inr clear ↦
          let (summaries, parsed, done) =
            bind-eq-ok
              (existing_summaries (managed_text b e source) (length (lines (take b source)) + 1)) _
              (rw clear at h) in
          replaced front managed back summaries
            (record {
              parts = first.0 ∙ ap (λ t. front ++ (begin_marker ++ t)) r_is;
              first_marker = first.1;
              no_more =
                  subst (λ t. Never begin_marker t × Never end_marker t) p.behind
                    (none_more b e source clear);
            })
            (sym (ap₂ (λ m t. existing_summaries m (length (lines t) + 1)) p.inside p.before)
              ∙ parsed)
            (sym (ok-injective done)
              ∙ ap₂ (λ x y. x ++ (render_block entries summaries ++ y)) p.before p.behind)
    ]

reconcile_at-IsReconciled :
    (source : Text) (entries : List IndexEntry) (x y : Option (Text × Text)) {result : Text}
    → Found begin_marker source x
    → Found end_marker source y
    → reconcile_at (front_length x) (front_length y) source entries ≡ ok result
    → IsReconciled source entries result
reconcile_at-IsReconciled source entries none none fx fy h = appended fx fy (sym (ok-injective h))
reconcile_at-IsReconciled source entries none (some _) fx fy h = cc
reconcile_at-IsReconciled source entries (some _) none fx fy h = cc
reconcile_at-IsReconciled source entries (some (front, r)) (some (f, back)) fx fy h =
    elim (Bool-cases (ltb (length front) (length f))) [
      | inl before ↦
          replace_block-IsReconciled source front r f back entries fx fy (ltb→lt _ _ before)
            (rw before at h)
      | inr after ↦ absurd (cc (rw after at h))
    ]

-- When a file is reconciled, either it has no marker, and a block without old summaries is appended
-- to it, or it is a text, a managed block and another text without markers, and the result is the
-- same two texts around a block rendered with the summaries read from the old one.
pub reconcile_existing-IsReconciled :
    (source : Text) (entries : List IndexEntry) {result : Text}
    → reconcile_existing source entries ≡ ok result
    → IsReconciled source entries result
unfolding reconcile_existing
reconcile_existing-IsReconciled source entries h =
    reconcile_at-IsReconciled source entries (split_once begin_marker source)
      (split_once end_marker source) (split_once-Found begin_marker source)
      (split_once-Found end_marker source) h
