-- ===== src/Chunk/Sections/Ascends.antt =====
-- The levels of a heading trail ascend.
use context_os_mcp.Prelude.{
  Text, [], arith, drop, false, if◌then◌else◌, keep, leb, length, ltb, lt→ltb, none, not, some,
  take_while, trim, ℕ, ◌&&◌, ◌++◌, ◌<◌, ◌∷◌, ◌≡◌, ◌≢◌, ◌≤◌,
}
use native.Mathlib.Decide.{dec_lt}
use context_os_mcp.Chunk.Headings.{
  detect_atx_heading, strip_closing_hashes, heading, is_hash, starts_blank,
}
use context_os_mcp.Chunk.Sections.{Trail}

-- Levels from above the first number to six, each above the one before.
abbrev pub Ascends : ℕ → Trail → Type 0
Ascends low [] = Unit
Ascends low ((level, text) ∷ trail) =
    (low < level) × (level ≤ 6) × (text ≢ []) × Ascends level trail

Ascends-lower : (low high : ℕ) (trail : Trail) → low ≤ high → Ascends high trail → Ascends low trail
Ascends-lower low high [] h a = tt
Ascends-lower low high ((level, text) ∷ trail) h (x, y, z, a) = (omega (arith, x), y, z, a)

pub Ascends-opened :
    (low level : ℕ) (text : Text) (trail : Trail)
    → low < level
    → level ≤ 6
    → text ≢ []
    → Ascends low trail
    → Ascends low (keep (λ (e : ℕ × Text). ltb e.0 level) trail ++ (level, text) ∷ [])
Ascends-opened low level text [] l s n a = (l, s, n, tt)
Ascends-opened low level text ((k, t) ∷ trail) l s n (x, y, z, a) = elim (dec_lt k level) [
  | yes below ↦ rw (lt→ltb k level below) (x, y, z, Ascends-opened k level text trail below s n a)
  | no above ↦
      let out : ltb k level ≡ false = ground arith in
      rw out
        (Ascends-opened low level text trail l s n (Ascends-lower low k trail (omega (arith, x)) a))
]

heading-level :
    (hashes : ℕ) (text : Text) {level : ℕ} {title : Text}
    → heading hashes text ≡ some (level, title)
    → (level ≡ hashes) × (title ≢ [])
heading-level hashes [] h = cc
heading-level hashes (c ∷ text) {level} {title} h = (cc, λ e. cc)

pub detect_atx_heading-level :
    (trimmed : Text) {level : ℕ} {title : Text}
    → detect_atx_heading trimmed ≡ some (level, title)
    → (0 < level) × (level ≤ 6) × (title ≢ [])
unfolding detect_atx_heading
detect_atx_heading-level trimmed {level} {title} h = go (length (take_while is_hash trimmed)) h
  where
    go :
        (n : ℕ)
        → (if not (leb 1 n && leb n 6)
            then none
            else if not (starts_blank (drop n trimmed))
            then none
            else heading n (strip_closing_hashes (trim (drop n trimmed))))
          ≡ some (level, title)
        → (0 < level) × (level ≤ 6) × (title ≢ [])
    go n e = ground (
      arith,
      heading-level n (strip_closing_hashes (trim (drop n trimmed))) {level = level}
          {title = title},
    )
