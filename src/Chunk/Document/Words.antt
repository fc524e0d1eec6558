-- ===== src/Chunk/Document/Words.antt =====
-- The spans of `word_spans` are the words of `split_whitespace`.
use context_os_mcp.Prelude.{
  Bool, Bool-cases, Text, [], all, ap, append-nil, append_assoc, ap₂, arith, encode_utf8, false,
  inl, inr, is_whitespace, leb, length, ltb, map, none, not, refl, some, split_on, split_whitespace,
  sym, true, ℕ, ◌++◌, ◌+◌, ◌∙◌, ◌∷◌, ◌≡◌, ◌≤◌,
}
use context_os_mcp.Chunk.Document.{spans_from, word_spans, slice, word_at}

-- The number of bytes of a text.
abbrev width : Text → ℕ
width [] = 0
width (c ∷ cs) = length (encode_utf8 c) + width cs

encode_utf8-some : (c : ℕ) → 1 ≤ length (encode_utf8 c)
encode_utf8-some c = ground arith

width-append : (a b : Text) → width (a ++ b) ≡ width a + width b
width-append [] b = omega arith
width-append (c ∷ a) b = omega (arith, width-append a b)

slice-behind : (index from to : ℕ) (cs : Text) → to ≤ index → slice index from to cs ≡ []
unfolding slice
slice-behind index from to [] h = refl
slice-behind index from to (c ∷ cs) h =
    ground (arith, slice-behind (index + length (encode_utf8 c)) from to cs (omega arith))

slice-pass :
    (index from to : ℕ) (before cs : Text)
    → index + width before ≤ from
    → slice index from to (before ++ cs) ≡ slice (index + width before) from to cs
unfolding slice
slice-pass index from to [] cs h = ap (λ n. slice n from to cs) (omega arith)
slice-pass index from to (c ∷ before) cs h =
    let wide = encode_utf8-some c in
    let out : leb from index ≡ false = ground arith in
    rw out (
      slice-pass (index + length (encode_utf8 c)) from to before cs (omega arith)
      ∙ ap (λ n. slice n from to cs) (omega arith))

slice-take :
    (index from : ℕ) (word cs : Text)
    → from ≤ index
    → slice index from (index + width word) (word ++ cs) ≡ word
unfolding slice
slice-take index from [] cs h = slice-behind index from (index + 0) cs (omega arith)
slice-take index from (c ∷ word) cs h =
    let wide = encode_utf8-some c in
    let start : leb from index ≡ true = ground arith in
    let inside : ltb index (index + (length (encode_utf8 c) + width word)) ≡ true = ground arith in
    rw (start, inside)
      (ap (λ w. c ∷ w)
        (ap (λ n. slice (index + length (encode_utf8 c)) from n (word ++ cs)) (omega arith)
          ∙ slice-take (index + length (encode_utf8 c)) from word cs (omega arith)))

-- Between what stands before it and what stands behind it, a word is the slice at its offsets.
word_at-here :
    (before word cs : Text)
    → word_at (before ++ (word ++ cs)) (width before, width before + width word) ≡ word
word_at-here before word cs =
    slice-pass 0 (width before) (width before + width word) before (word ++ cs) (omega arith)
    ∙ ap (λ n. slice n (width before) (width before + width word) (word ++ cs)) (omega arith)
    ∙ slice-take (width before) (width before) word cs (omega arith)

split_on-word :
    (word : Text) (c : ℕ) (cs : Text)
    → all (λ d. not (is_whitespace d)) word ≡ true
    → is_whitespace c ≡ true
    → split_on is_whitespace (word ++ c ∷ cs) ≡ word ∷ split_on is_whitespace cs
split_on-word [] c cs h b = rw b refl
split_on-word (d ∷ word) c cs h b =
    let dark : is_whitespace d ≡ false = ground arith in
    let more : all (λ e. not (is_whitespace e)) word ≡ true = ground arith in
    rw (dark, split_on-word word c cs more b) refl

split_on-last :
    (d : ℕ) (word : Text)
    → all (λ e. not (is_whitespace e)) (d ∷ word) ≡ true
    → split_on is_whitespace (d ∷ word) ≡ (d ∷ word) ∷ []
split_on-last d [] h = let dark : is_whitespace d ≡ false = ground arith in rw dark refl
split_on-last d (e ∷ word) h =
    let dark : is_whitespace d ≡ false = ground arith in
    let more : all (λ f. not (is_whitespace f)) (e ∷ word) ≡ true = ground arith in
    rw (dark, split_on-last e word more) refl

abbrev dark : Text → Bool
dark = all (λ d. not (is_whitespace d))

dark-append :
    (word : Text) (c : ℕ)
    → dark word ≡ true
    → is_whitespace c ≡ false
    → dark (word ++ c ∷ []) ≡ true
dark-append [] c h b = rw b refl
dark-append (d ∷ word) c h b = ground (arith, dark-append word c)

words_behind :
    (d : ℕ) (word : Text) (c : ℕ) (cs : Text)
    → dark (d ∷ word) ≡ true
    → is_whitespace c ≡ true
    → split_whitespace ((d ∷ word) ++ c ∷ cs) ≡ (d ∷ word) ∷ split_whitespace cs
unfolding split_whitespace
words_behind d word c cs h b = rw (split_on-word (d ∷ word) c cs h b) refl

last_word :
    (d : ℕ) (word : Text) → dark (d ∷ word) ≡ true → split_whitespace (d ∷ word) ≡ (d ∷ word) ∷ []
unfolding split_whitespace
last_word d word h = rw (split_on-last d word h) refl

blank_first :
    (c : ℕ) (cs : Text) → is_whitespace c ≡ true → split_whitespace (c ∷ cs) ≡ split_whitespace cs
unfolding split_whitespace
blank_first c cs b = rw b refl

abbrev Closed : Text → Text → Type 0
Closed body cs =
    (before : Text)
    → body ≡ before ++ cs
    → map (word_at body) (spans_from (width before) none cs) ≡ split_whitespace cs

abbrev Open : Text → Text → Type 0
Open body cs =
    (before : Text) (d : ℕ) (word : Text)
    → dark (d ∷ word) ≡ true
    → body ≡ before ++ ((d ∷ word) ++ cs)
    → map (word_at body) (spans_from (width before + width (d ∷ word)) (some (width before)) cs)
      ≡ split_whitespace ((d ∷ word) ++ cs)

Closed-next :
    (body : Text) (c : ℕ) (cs : Text) → Closed body cs → Open body cs → Closed body (c ∷ cs)
unfolding spans_from
Closed-next body c cs ended going before e = elim (Bool-cases (is_whitespace c)) [
  | inl white ↦ rw white (
      ap (λ n. map (word_at body) (spans_from n none cs))
        (omega (arith, width-append before (c ∷ [])))
      ∙ ended (before ++ c ∷ []) (e ∙ sym (append_assoc before (c ∷ []) cs))
      ∙ sym (blank_first c cs white))
  | inr seen ↦ rw seen (
      ap (λ n. map (word_at body) (spans_from n (some (width before)) cs)) (omega arith)
      ∙ going before c [] (rw seen refl) e)
]

Open-next : (body : Text) (c : ℕ) (cs : Text) → Closed body cs → Open body cs → Open body (c ∷ cs)
unfolding spans_from
Open-next body c cs ended going before d word h e = elim (Bool-cases (is_whitespace c)) [
  | inl white ↦
      let here =
        ap (λ b. word_at b (width before, width before + width (d ∷ word))) e
        ∙ word_at-here before (d ∷ word) (c ∷ cs) in
      let shift = append_assoc before (d ∷ word) (c ∷ cs) in
      let longer = append_assoc (before ++ d ∷ word) (c ∷ []) cs in
      let size = width-append (before ++ d ∷ word) (c ∷ []) in
      let front = width-append before (d ∷ word) in
      rw white (
        ap₂ ◌∷◌ here (
          ap (λ n. map (word_at body) (spans_from n none cs)) (omega (arith, size, front))
          ∙ ended ((before ++ d ∷ word) ++ c ∷ []) (e ∙ sym shift ∙ sym longer))
        ∙ sym (words_behind d word c cs h white))
  | inr seen ↦
      let whole = append_assoc (d ∷ word) (c ∷ []) cs in
      let size = width-append word (c ∷ []) in
      rw seen (
        ap (λ n. map (word_at body) (spans_from n (some (width before)) cs)) (omega (arith, size))
        ∙ going before d (word ++ c ∷ []) (dark-append (d ∷ word) c h seen)
            (e ∙ ap (λ t. before ++ t) (sym whole))
        ∙ ap split_whitespace whole)
]

spans_from-split_whitespace : (body cs : Text) → Closed body cs × Open body cs
unfolding spans_from
spans_from-split_whitespace body [] =
    (unfold split_whitespace in (λ before e. refl), λ before d word h e. at_end before d word h e)
  where
    at_end : Open body []
    at_end before d word h e =
        ap (λ w. w ∷ [])
          (ap (λ b. word_at b (width before, width before + width (d ∷ word))) e
            ∙ word_at-here before (d ∷ word) [])
        ∙ sym (last_word d word h)
        ∙ ap split_whitespace (sym (append-nil (d ∷ word)))
spans_from-split_whitespace body (c ∷ cs) =
    let (ended, going) = spans_from-split_whitespace body cs in
    (Closed-next body c cs ended going, Open-next body c cs ended going)

-- The slices of a text at its word spans are its words, as `split_whitespace` gives them, in order.
pub word_spans-split_whitespace :
    (body : Text) → map (word_at body) (word_spans body) ≡ split_whitespace body
unfolding word_spans
word_spans-split_whitespace body = (spans_from-split_whitespace body body).0 [] refl
