-- ===== src/Query/Ends.antt =====
-- The texts that the parsers of a query leave are no longer than those they take
-- (crates/contextos-obsidian/src/base_query.rs), and the ends of the parsers.
pub mod Parser
pub mod Tree
pub mod Walk
use context_os_mcp.Prelude.{
  Bool, Bool-cases, Option, Text, [], ap, arith, codes, inl, inr, length, list_eq, nat_eq, none,
  option_eq, refl, some, strip_prefix_sound, take, trim_start_matches, ℕ, ◌+◌, ◌-◌, ◌/◌, ◌==◌, ◌∙◌,
  ◌∷◌, ◌≡◌, ◌≤◌,
}
use context_os_mcp.Files.Edit.Exact.{length-append}
use context_os_mcp.Query.Expression.{
  is_ascii_whitespace, skip, token, no_equals, negation, on_token, LeafState, leaf_step, add_front,
  scan_from, scan_leaf,
}

length-trim_start_matches : (p : ℕ → Bool) (s : Text) → length (trim_start_matches p s) ≤ length s
length-trim_start_matches p [] = omega arith
length-trim_start_matches p (c ∷ cs) = elim (Bool-cases (p c)) [
  | inl skipped ↦ rw skipped (omega (arith, length-trim_start_matches p cs))
  | inr kept ↦ rw kept (omega arith)
]

pub length-skip : (s : Text) → length (skip s) ≤ length s
unfolding skip
length-skip s = length-trim_start_matches is_ascii_whitespace s

pub length-token :
    (sign s : Text) {t : Text} → token sign s ≡ some t → length sign + length t ≤ length s
length-token sign s {t} h =
    let whole = ap length (strip_prefix_sound sign (skip s) h) ∙ length-append sign t in
    omega (arith, length-skip s, whole)

length-no_equals : (o : Option Text) {t : Text} → no_equals o ≡ some t → o ≡ some t
length-no_equals none h = absurd (cc)
length-no_equals (some []) h = h
length-no_equals (some (c ∷ cs)) h = elim (Bool-cases (c == b'=')) [
  | inl equals ↦ absurd (cc (rw equals at h))
  | inr other ↦ rw other at h
]

pub length-negation : (s : Text) {t : Text} → negation s ≡ some t → 1 + length t ≤ length s
length-negation s h = length-token (codes "!") s (length-no_equals (token (codes "!") s) h)

length-step :
    (c : ℕ) (cs : Text) (next : Option LeafState)
    → ((state : LeafState) → length ((scan_from state cs).1) ≤ length cs)
    → length (
        (elim next as (λ _. Text × Text) [
          | some state ↦ add_front c (scan_from state cs)
          | none ↦ ([], c ∷ cs)
        ]).1)
      ≤ length (c ∷ cs)
length-step c cs none later = omega arith
length-step c cs (some state) later = omega (arith, later state)

length-scan_from : (state : LeafState) (s : Text) → length ((scan_from state s).1) ≤ length s
unfolding scan_from
length-scan_from state [] = omega arith
length-scan_from state (c ∷ cs) =
    length-step c cs (leaf_step state c cs) (λ next. length-scan_from next cs)

pub length-scan_leaf : (s : Text) → length ((scan_leaf (skip s)).1) ≤ length s
unfolding scan_leaf
length-scan_leaf s = omega (arith, length-skip s, length-scan_from (0, none) (skip s))

-- What holds of both branches of a token.
pub token_either {ℓ κ} :
    {A : Type ℓ} (P : A → Type κ) (o : Option Text) (found : Text → A) (missing : Unit {0} → A)
    → ((t : Text) → o ≡ some t → P (found t))
    → P (missing tt)
    → P (on_token o found missing)
unfolding on_token
token_either P none found missing yes_ no_ = no_
token_either P (some t) found missing yes_ no_ = yes_ t refl
