-- ===== src/Files/Edit/Exact.antt =====
-- What an exact edit replaces, and when it refuses.
use context_os_mcp.Prelude.{
  Bool-cases, Option, Text, [], append_assoc, arith, false, inl, inr, length, list_beq_iff, nat_eq,
  none, ok, ok-injective, refl, some, strip_prefix, strip_prefix-append, strip_prefix_sound, subst,
  sym, ℕ, ◌++◌, ◌+◌, ◌<◌, ◌∙◌, ◌∷◌, ◌≡◌, ◌≢◌, ◌≤◌,
}
use native.Mathlib.Decide.{dec_lt}
use context_os_mcp.Vault.Confine.{VaultPath, split_once, split_here, before_rest}
use context_os_mcp.Files.Edit.{TextEdit, is_some, matches_again, edited, apply_exact_edit}

-- An occurrence of the pattern in the text: what stands before it and behind it.
abbrev pub Occurs : Text → Text → Text → Text → Type 0
Occurs pattern text before after = text ≡ before ++ (pattern ++ after)

-- The first occurrence.
abbrev pub IsFirst : Text → Text → Text → Text → Type 0
IsFirst pattern text before after =
    Occurs pattern text before after
    × ((b a : Text) → Occurs pattern text b a → length before ≤ length b)

abbrev pub Never : Text → Text → Type 0
Never pattern text = (b a : Text) → text ≢ b ++ (pattern ++ a)

abbrev pub Found : Text → Text → Option (Text × Text) → Type 0
Found pattern text none = Never pattern text
Found pattern text (some (before, after)) = IsFirst pattern text before after

strip_prefix-none : (p rest : Text) → strip_prefix p (p ++ rest) ≢ none
strip_prefix-none p rest = λ e. (let there = strip_prefix-append p rest in cc)

here_or_later :
    (pattern : Text) (c : ℕ) (cs : Text) (front : Option Text) (later : Option (Text × Text))
    → strip_prefix pattern (c ∷ cs) ≡ front
    → Found pattern cs later
    → Found pattern (c ∷ cs) (split_here front (before_rest c later))
here_or_later pattern c cs (some back) later e f =
    (strip_prefix_sound pattern (c ∷ cs) {rest = back} e, λ b a o. omega arith)
here_or_later pattern c cs none none e f = never
  where
    never : Never pattern (c ∷ cs)
    never [] a = λ o. strip_prefix-none pattern a (subst (λ t. strip_prefix pattern t ≡ none) o e)
    never (x ∷ b) a = λ o. f b a (cc)
here_or_later pattern c cs none (some (front, back)) e f = (cc f.0, first)
  where
    first : (b a : Text) → Occurs pattern (c ∷ cs) b a → length (c ∷ front) ≤ length b
    first [] a o =
        absurd (strip_prefix-none pattern a (subst (λ t. strip_prefix pattern t ≡ none) o e))
    first (x ∷ b) a o = omega (arith, f.1 b a (cc))

empty-Found :
    (pattern : Text) (front : Option Text)
    → strip_prefix pattern [] ≡ front
    → Found pattern [] (split_here front none)
empty-Found pattern (some back) e =
    (strip_prefix_sound pattern [] {rest = back} e, λ b a o. omega arith)
empty-Found pattern none e = never
  where
    never : Never pattern []
    never [] a = λ o. strip_prefix-none pattern a (subst (λ t. strip_prefix pattern t ≡ none) o e)
    never (x ∷ b) a = λ o. cc

pub split_once-Found : (pattern text : Text) → Found pattern text (split_once pattern text)
unfolding split_once
split_once-Found pattern [] = empty-Found pattern _ refl
split_once-Found pattern (c ∷ cs) =
    here_or_later pattern c cs _ _ refl (split_once-Found pattern cs)

-- A list behind a longer front is the end of the shorter one's rest.
cut_behind :
    (front back b rest : Text)
    → front ++ back ≡ b ++ rest
    → length front ≤ length b
    → (gap : Text) × (back ≡ gap ++ rest)
cut_behind [] back b rest e h = (b, e)
cut_behind (x ∷ front) back [] rest e h = absurd (omega arith)
cut_behind (x ∷ front) back (y ∷ b) rest e h = cut_behind front back b rest (cc) (omega arith)

pub length-append : (a b : Text) → length (a ++ b) ≡ length a + length b
length-append [] b = omega arith
length-append (x ∷ a) b = omega (arith, length-append a b)

-- What an accepted edit satisfies.
pub record IsExact (content : Text) (edit : TextEdit) (result : Text) : Type 0 where
  pub before : Text
  pub after : Text
  pub old : Occurs edit.old_text content before after
  pub new : Occurs edit.new_text result before after
  -- every occurrence begins inside the text that was replaced
  pub only :
      edit.old_text ≢ []
      → (b a : Text) → Occurs edit.old_text content b a
      → (length before ≤ length b) × (length b < length before + length edit.old_text)

no_more :
    (pattern content before after b a : Text)
    → Occurs pattern content before after
    → Never pattern after
    → Occurs pattern content b a
    → length b < length before + length pattern
no_more pattern content before after b a old never o =
    elim (dec_lt (length b) (length before + length pattern)) [
      | yes inside ↦ inside
      | no beyond ↦
          let len = length-append before pattern in
          let shift = append_assoc before pattern after in
          let (gap, same) =
            cut_behind (before ++ pattern) after b (pattern ++ a) (shift ∙ sym old ∙ o)
              (omega (arith, len, beyond)) in
          absurd (never gap a same)
    ]

none_left :
    (pattern after : Text) (found : Option (Text × Text))
    → Found pattern after found
    → is_some found ≡ false
    → Never pattern after
none_left pattern after none g e = g
none_left pattern after (some x) g e = cc

matches_again-Never :
    (pattern after : Text)
    → matches_again pattern after ≡ false
    → pattern ≢ []
    → Never pattern after
matches_again-Never pattern after once some_text =
    none_left pattern after (split_once pattern after) (split_once-Found pattern after)
      (ground (arith, list_beq_iff pattern []))

edited-IsExact :
    (content : Text) (edit : TextEdit) (path : VaultPath) (found : Option (Text × Text))
    (result : Text)
    → Found edit.old_text content found
    → edited path.absolute edit found ≡ ok result
    → IsExact content edit result
edited-IsExact content edit path none result f h = cc
edited-IsExact content edit path (some (before, after)) result f h =
    elim (Bool-cases (matches_again edit.old_text after)) [
      | inl again ↦ absurd (let e = rw again at h in cc)
      | inr once ↦ record {
        before = before;
        after = after;
        old = f.0;
        new = sym (ok-injective (rw once at h));
        only = λ some_text b a o. (
          f.1 b a o,
          no_more edit.old_text content before after b a f.0
              (matches_again-Never edit.old_text after once some_text) o,
        );
      }
    ]

-- An edit that is accepted replaces an occurrence of its old text by the new text and nothing
-- else; unless the old text is empty, every occurrence of it begins inside the replaced one.
pub apply_exact_edit-IsExact :
    (content : Text) (edit : TextEdit) (path : VaultPath) (result : Text)
    → apply_exact_edit content edit path ≡ ok result
    → IsExact content edit result
unfolding apply_exact_edit
apply_exact_edit-IsExact content edit path result h =
    edited-IsExact content edit path (split_once edit.old_text content) result
      (split_once-Found edit.old_text content) h
