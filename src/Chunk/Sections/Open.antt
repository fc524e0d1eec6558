-- ===== src/Chunk/Sections/Open.antt =====
-- The headings of lines outside fences, and those that no later one closes. A description beside
-- the code.
use context_os_mcp.Prelude.{
  append-nil, any, ◌||◌, codes, append_assoc, ap, sym, ◌∙◌, Bool, List, Option, Text, [], arith,
  false, if◌then◌else◌, keep, leb, ltb, none, not, refl, some, trim_start, true, ℕ, ◌++◌, ◌∷◌, ◌≡◌,
}
use context_os_mcp.Tags.{is_fence}
use context_os_mcp.Chunk.Headings.{detect_atx_heading}
use context_os_mcp.Chunk.Sections.{Trail}

-- The headings of a list that no later one closes: one of the same level or of a level above it.
abbrev pub open_headings : Trail → Trail
open_headings [] = []
open_headings (h ∷ hs) =
    if any (λ (k : ℕ × Text). leb k.0 h.0) hs then open_headings hs else h ∷ open_headings hs

abbrev pub entry_of : Option (ℕ × Text) → Trail
entry_of none = []
entry_of (some entry) = entry ∷ []

-- The headings of the lines outside fences, with their levels.
unfoldable pub headings_in : Bool → List Text → Trail
headings_in inside [] = []
headings_in inside (line ∷ rest) =
    if is_fence (trim_start line)
    then headings_in (not inside) rest
    else (if inside then [] else entry_of (detect_atx_heading (trim_start line)))
      ++ headings_in inside rest

any-last :
    (p : ℕ × Text → Bool) (hs : Trail) (e : ℕ × Text) → any p (hs ++ e ∷ []) ≡ any p hs || p e
any-last p [] e = ground arith
any-last p (h ∷ hs) e = ground (arith, any-last p hs e)

-- A new heading closes those that are not above it.
pub open_headings-last :
    (hs : Trail) (e : ℕ × Text)
    → open_headings (hs ++ e ∷ [])
      ≡ keep (λ (k : ℕ × Text). ltb k.0 e.0) (open_headings hs) ++ e ∷ []
open_headings-last [] e = refl
open_headings-last (h ∷ hs) e =
    rw (any-last (λ (k : ℕ × Text). leb k.0 h.0) hs e)
      (go (any (λ (k : ℕ × Text). leb k.0 h.0) hs) (leb e.0 h.0) refl (open_headings-last hs e))
  where
    go :
        (closed closes : Bool)
        → leb e.0 h.0 ≡ closes
        → open_headings (hs ++ e ∷ [])
          ≡ keep (λ (k : ℕ × Text). ltb k.0 e.0) (open_headings hs) ++ e ∷ []
        → (if closed || closes
            then open_headings (hs ++ e ∷ [])
            else h ∷ open_headings (hs ++ e ∷ []))
          ≡ keep
              (λ (k : ℕ × Text). ltb k.0 e.0)
              (if closed then open_headings hs else h ∷ open_headings hs)
            ++ e ∷ []
    go true closes at ih = ih
    go false true at ih = let below : ltb h.0 e.0 ≡ false = ground arith in rw below ih
    go false false at ih =
        let above : ltb h.0 e.0 ≡ true = ground arith in rw above (ap (λ hs. h ∷ hs) ih)

-- Lines with a line feed behind each
abbrev pub joined : List Text → Text
joined [] = []
joined (line ∷ rest) = (line ++ codes "\n") ++ joined rest

-- Whether a fence is open behind some lines.
unfoldable pub fence_in : Bool → List Text → Bool
fence_in inside [] = inside
fence_in inside (line ∷ rest) =
    if is_fence (trim_start line) then fence_in (not inside) rest else fence_in inside rest

abbrev pub read_headings : Bool → Bool → Option (ℕ × Text) → Trail
read_headings fence fenced found = if fence then [] else if fenced then [] else entry_of found

-- What one more line adds.
pub headings_in-last :
    (inside : Bool) (text : List Text) (line : Text)
    → headings_in inside (text ++ line ∷ [])
      ≡ headings_in inside text
        ++ read_headings
            (is_fence (trim_start line))
            (fence_in inside text)
            (detect_atx_heading (trim_start line))
unfolding headings_in fence_in
headings_in-last inside [] line = go (is_fence (trim_start line)) inside
  where
    go :
        (fence fenced : Bool)
        → (if fence
            then []
            else (if fenced then [] else entry_of (detect_atx_heading (trim_start line))) ++ [])
          ≡ read_headings fence fenced (detect_atx_heading (trim_start line))
    go true fenced = refl
    go false true = refl
    go false false = append-nil (entry_of (detect_atx_heading (trim_start line)))
headings_in-last inside (l ∷ text) line =
    go (is_fence (trim_start l)) (headings_in-last (not inside) text line)
      (headings_in-last inside text line)
  where
    found : Trail
    found = if inside then [] else entry_of (detect_atx_heading (trim_start l))

    go :
        (fence : Bool)
        → headings_in (not inside) (text ++ line ∷ [])
          ≡ headings_in (not inside) text
            ++ read_headings
                (is_fence (trim_start line))
                (fence_in (not inside) text)
                (detect_atx_heading (trim_start line))
        → headings_in inside (text ++ line ∷ [])
          ≡ headings_in inside text
            ++ read_headings
                (is_fence (trim_start line))
                (fence_in inside text)
                (detect_atx_heading (trim_start line))
        → (if fence
            then headings_in (not inside) (text ++ line ∷ [])
            else (if inside then [] else entry_of (detect_atx_heading (trim_start l)))
              ++ headings_in inside (text ++ line ∷ []))
          ≡ (if fence
              then headings_in (not inside) text
              else (if inside then [] else entry_of (detect_atx_heading (trim_start l)))
                ++ headings_in inside text)
            ++ read_headings
                (is_fence (trim_start line))
                (if fence then fence_in (not inside) text else fence_in inside text)
                (detect_atx_heading (trim_start line))
    go true ih₀ ih₁ = ih₀
    go false ih₀ ih₁ =
        ap (λ r. (if inside then [] else entry_of (detect_atx_heading (trim_start l))) ++ r) ih₁
        ∙ sym (
            append_assoc (if inside then [] else entry_of (detect_atx_heading (trim_start l)))
              (headings_in inside text)
              (read_headings (is_fence (trim_start line)) (fence_in inside text)
                (detect_atx_heading (trim_start line))))

pub fence_in-last :
    (inside : Bool) (text : List Text) (line : Text)
    → fence_in inside (text ++ line ∷ [])
      ≡ (if is_fence (trim_start line) then not (fence_in inside text) else fence_in inside text)
unfolding fence_in
fence_in-last inside [] line = refl
fence_in-last inside (l ∷ text) line =
    go (is_fence (trim_start l)) (fence_in-last (not inside) text line)
      (fence_in-last inside text line)
  where
    go :
        (fence : Bool)
        → fence_in (not inside) (text ++ line ∷ []) ≡ (
            if is_fence (trim_start line)
            then not (fence_in (not inside) text)
            else fence_in (not inside) text)
        → fence_in inside (text ++ line ∷ []) ≡ (
            if is_fence (trim_start line) then not (fence_in inside text) else fence_in inside text)
        → (if fence
            then fence_in (not inside) (text ++ line ∷ [])
            else fence_in inside (text ++ line ∷ []))
          ≡ (if is_fence (trim_start line)
              then not (if fence then fence_in (not inside) text else fence_in inside text)
              else if fence
              then fence_in (not inside) text
              else fence_in inside text)
    go true ih₀ ih₁ = ih₀
    go false ih₀ ih₁ = ih₁

pub joined-last :
    (text : List Text) (line : Text)
    → joined (text ++ line ∷ []) ≡ joined text ++ (line ++ codes "\n")
joined-last [] line = append-nil (line ++ codes "\n")
joined-last (l ∷ text) line =
    ap (λ r. (l ++ codes "\n") ++ r) (joined-last text line)
    ∙ sym (append_assoc (l ++ codes "\n") (joined text) (line ++ codes "\n"))
