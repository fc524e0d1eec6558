-- ===== src/Files/Read/Window.antt =====
-- What the accumulator selects, against an independent description of the window of lines.
use context_os_mcp.Prelude.{
  ltb→le, ltb→lt, Bool, Bool-cases, List, Option, Text, [], ap, append-nil, append_assoc, ap₂,
  arith, drop, inl, inr, leb, leb→le, leb→lt, length, lines, ltb, lt→ltb, nat_eq, none, not, refl,
  some, subst, suc, sym, take, zero, ℕ, ◌++◌, ◌+◌, ◌-◌, ◌<◌, ◌==◌, ◌∙◌, ◌∷◌, ◌≡◌, ◌≤◌,
}
use context_os_mcp.Files.Read.{
  with_tail, finished, ReadLimit, LineRange, head, tail, range, ReadAccumulator, accumulator_from,
  select, keep_last, observe, observe_counted, concat, finish,
}
use context_os_mcp.Files.Read.Lists.{
  length-snoc, take-snoc_in, take-snoc_out, drop-snoc, drop-all, length-drop, length-take_le,
  take-all, drop-drop, concat-snoc,
}

-- The last `n` lines are those left when all but `n` are dropped.
abbrev pub window : Option ReadLimit → List Text → List Text
window none lines = lines
window (some (head n)) lines = take n lines
window (some (tail n)) lines = drop (length lines - n) lines
window (some (range r)) lines = drop (r.from - 1) (take r.to lines)

abbrev pub observe_all : List Text → ReadAccumulator → ReadAccumulator
observe_all [] a = a
observe_all (line ∷ lines) a = observe_all lines (observe line a)

abbrev pub IsLimit : Option ReadLimit → Type 0
IsLimit (some (range r)) = (0 < r.from) × (r.from ≤ r.to)
IsLimit _ = Unit

abbrev IsChosen : Option ReadLimit → List Text → ReadAccumulator → Type 0
IsChosen (some (tail n)) seen a = (a.selected ≡ []) × (a.tail_lines ≡ drop (length seen - n) seen)
IsChosen limit seen a =
    (a.selected ≡ concat (window limit seen)) × (a.selected_count ≡ length (window limit seen))

-- The accumulator has seen these lines.
record HasSeen (limit : Option ReadLimit) (seen : List Text) (a : ReadAccumulator) : Type 0 where
  same_limit : a.limit ≡ limit
  counted : a.line_count ≡ length seen
  chosen : IsChosen limit seen a

-- A line that the window takes is selected.
select-chosen :
    (old new : List Text) (line : Text) (a : ReadAccumulator)
    → new ≡ old ++ line ∷ []
    → (a.selected ≡ concat old) × (a.selected_count ≡ length old)
    → ((select line a).selected ≡ concat new) × ((select line a).selected_count ≡ length new)
unfolding select
select-chosen old new line a e (s, c) = (
  ap (λ t. t ++ line) s ∙ sym (concat-snoc old line) ∙ ap concat (sym e),
  omega (arith, c, length-snoc old line, ap length e),
)

keep_last_lem :
    (n : ℕ) (seen : List Text) (line : Text)
    → 0 < n
    → keep_last n (drop (length seen - n) seen ++ line ∷ [])
      ≡ drop (length (seen ++ line ∷ []) - n) (seen ++ line ∷ [])
keep_last_lem n seen line h =
    let d = length seen - n in
    let same = drop-snoc d seen line (omega arith) in
    let size = length-snoc (drop d seen) line ∙ ap (λ k. k + 1) (length-drop d seen) in
    let more = length-snoc seen line in
    elim (Bool-cases (ltb n (length (drop d seen ++ line ∷ [])))) [
      | inl e ↦ rw e (
          ap (drop 1) (sym same)
          ∙ drop-drop d (seen ++ line ∷ [])
          ∙ ap (λ k. drop k (seen ++ line ∷ [])) {x = suc d}
              (omega (arith, h, size, more, ltb→lt n (length (drop d seen ++ line ∷ [])) e)))
      | inr e ↦ rw e (
          sym same
          ∙ ap (λ k. drop k (seen ++ line ∷ [])) {x = d}
              (omega (arith, h, size, more, ltb→le n (length (drop d seen ++ line ∷ [])) e)))
    ]

window-in :
    (r : LineRange) (seen : List Text) (line : Text)
    → 0 < r.from
    → r.from ≤ length seen + 1
    → length seen + 1 ≤ r.to
    → window (some (range r)) (seen ++ line ∷ []) ≡ window (some (range r)) seen ++ line ∷ []
window-in r seen line p f t =
    ap (drop (r.from - 1)) (take-snoc_in r.to seen line (omega (arith, t)))
    ∙ rw (take-all r.to seen (omega (arith, t)))
        (drop-snoc (r.from - 1) seen line (omega (arith, f, p)))

window-before :
    (r : LineRange) (seen : List Text) (line : Text)
    → 0 < r.from
    → length seen + 1 < r.from
    → window (some (range r)) (seen ++ line ∷ []) ≡ window (some (range r)) seen
window-before r seen line p f =
    drop-all (r.from - 1) (take r.to (seen ++ line ∷ []))
      (omega (arith, f, length-take_le r.to (seen ++ line ∷ []), length-snoc seen line))
    ∙ sym (drop-all (r.from - 1) (take r.to seen) (omega (arith, f, length-take_le r.to seen)))

window-behind :
    (r : LineRange) (seen : List Text) (line : Text)
    → r.to < length seen + 1
    → window (some (range r)) (seen ++ line ∷ []) ≡ window (some (range r)) seen
window-behind r seen line h =
    ap (drop (r.from - 1)) (take-snoc_out r.to seen line (omega (arith, h)))

observe-head :
    (n : ℕ) (seen : List Text) (line : Text) (a : ReadAccumulator)
    → a.line_count ≡ length seen + 1
    → IsChosen (some (head n)) seen a
    → IsChosen (some (head n)) (seen ++ line ∷ []) (observe_counted (some (head n)) line a)
observe-head n seen line a c chosen = elim (Bool-cases (leb a.line_count n)) [
  | inl e ↦ rw e (
      select-chosen (take n seen) _ line a
        (take-snoc_in n seen line (omega (arith, c, leb→le a.line_count n e))) chosen)
  | inr e ↦ rw e (
      subst (λ w. (a.selected ≡ concat w) × (a.selected_count ≡ length w))
        (sym (take-snoc_out n seen line (omega (arith, c, leb→lt a.line_count n e)))) chosen)
]

observe-tail :
    (n : ℕ) (seen : List Text) (line : Text) (a : ReadAccumulator)
    → IsChosen (some (tail n)) seen a
    → IsChosen (some (tail n)) (seen ++ line ∷ []) (observe_counted (some (tail n)) line a)
observe-tail zero seen line a (s, l) = (
  s,
  l
      ∙ drop-all (length seen - 0) seen (omega arith)
      ∙ sym (drop-all (length (seen ++ line ∷ []) - 0) (seen ++ line ∷ []) (omega arith)),
)
observe-tail (suc n) seen line a (s, l) = rw (lt→ltb 0 (suc n) (omega arith)) (
  s,
  ap (λ t. keep_last (suc n) (t ++ line ∷ [])) l ∙ keep_last_lem (suc n) seen line (omega arith),
)

observe-range :
    (r : LineRange) (seen : List Text) (line : Text) (a : ReadAccumulator)
    → 0 < r.from
    → a.line_count ≡ length seen + 1
    → IsChosen (some (range r)) seen a
    → IsChosen (some (range r)) (seen ++ line ∷ []) (observe_counted (some (range r)) line a)
observe-range r seen line a p c chosen = elim (Bool-cases (leb r.from a.line_count)) [
  | inl f ↦ elim (Bool-cases (leb a.line_count r.to)) [
    | inl t ↦
        rw (f, t)
          (select-chosen (window (some (range r)) seen) _ line a
            (window-in r seen line p (omega (arith, c, leb→le r.from a.line_count f))
              (omega (arith, c, leb→le a.line_count r.to t)))
            chosen)
    | inr t ↦
        rw (f, t)
          (subst (λ w. (a.selected ≡ concat w) × (a.selected_count ≡ length w))
            (sym (window-behind r seen line (omega (arith, c, leb→lt a.line_count r.to t)))) chosen)
  ]
  | inr f ↦ rw f (
      subst (λ w. (a.selected ≡ concat w) × (a.selected_count ≡ length w))
        (sym (window-before r seen line p (omega (arith, c, leb→lt r.from a.line_count f)))) chosen)
]

observe_counted-IsChosen :
    (limit : Option ReadLimit) (seen : List Text) (line : Text) (a : ReadAccumulator)
    → IsLimit limit
    → a.line_count ≡ length seen + 1
    → IsChosen limit seen a
    → IsChosen limit (seen ++ line ∷ []) (observe_counted limit line a)
observe_counted-IsChosen none seen line a v c chosen =
    select-chosen seen (seen ++ line ∷ []) line a refl chosen
observe_counted-IsChosen (some (head n)) seen line a v c chosen =
    observe-head n seen line a c chosen
observe_counted-IsChosen (some (tail n)) seen line a v c chosen = observe-tail n seen line a chosen
observe_counted-IsChosen (some (range r)) seen line a v c chosen =
    observe-range r seen line a v.0 c chosen

kept_fields :
    (limit : Option ReadLimit) (line : Text) (a : ReadAccumulator)
    → ((observe_counted limit line a).limit ≡ a.limit)
      × ((observe_counted limit line a).line_count ≡ a.line_count)
unfolding select
kept_fields none line a = (refl, refl)
kept_fields (some (head n)) line a = ground arith
kept_fields (some (tail n)) line a = ground arith
kept_fields (some (range r)) line a = ground arith

recount :
    (limit : Option ReadLimit) (seen : List Text) (n : ℕ) (a : ReadAccumulator)
    → IsChosen limit seen a
    → IsChosen limit seen (record a { line_count = n })
recount none seen n a chosen = chosen
recount (some (head _)) seen n a chosen = chosen
recount (some (tail _)) seen n a chosen = chosen
recount (some (range _)) seen n a chosen = chosen

observe-HasSeen :
    (limit : Option ReadLimit) (seen : List Text) (line : Text) (a : ReadAccumulator)
    → IsLimit limit
    → HasSeen limit seen a
    → HasSeen limit (seen ++ line ∷ []) (observe line a)
unfolding observe
observe-HasSeen limit seen line a v h =
    let b = record a { line_count = a.line_count + 1 } in
    let kept = kept_fields limit line b in
    subst (λ l. HasSeen limit (seen ++ line ∷ []) (observe_counted l line b)) (sym h.same_limit)
      (record {
        same_limit = kept.0 ∙ h.same_limit;
        counted = omega (arith, kept.1, h.counted, length-snoc seen line);
        chosen =
            observe_counted-IsChosen limit seen line b v (omega (arith, h.counted))
              (recount limit seen (a.line_count + 1) a h.chosen);
      })

observe_all-HasSeen :
    (limit : Option ReadLimit) (seen lines : List Text) (a : ReadAccumulator)
    → IsLimit limit
    → HasSeen limit seen a
    → HasSeen limit (seen ++ lines) (observe_all lines a)
observe_all-HasSeen limit seen [] a v h = rw (append-nil seen) h
observe_all-HasSeen limit seen (line ∷ lines) a v h =
    subst (λ ls. HasSeen limit ls (observe_all lines (observe line a)))
      (append_assoc seen (line ∷ []) lines)
      (observe_all-HasSeen limit (seen ++ line ∷ []) lines (observe line a) v
        (observe-HasSeen limit seen line a v h))

window-nil : (limit : Option ReadLimit) → window limit [] ≡ []
window-nil none = refl
window-nil (some (head n)) = take-all n [] (omega arith)
window-nil (some (tail n)) = drop-all (0 - n) [] (omega arith)
window-nil (some (range r)) =
    ap (drop (r.from - 1)) (take-all r.to [] (omega arith)) ∙ drop-all (r.from - 1) [] (omega arith)

start-IsChosen : (limit : Option ReadLimit) → IsChosen limit [] (accumulator_from limit)
start-IsChosen none = (refl, refl)
start-IsChosen (some (head n)) = rw (window-nil (some (head n))) (refl, refl)
start-IsChosen (some (tail n)) = (refl, sym (window-nil (some (tail n))))
start-IsChosen (some (range r)) = rw (window-nil (some (range r))) (refl, refl)

abbrev outcome : Option ReadLimit → List Text → Text × ℕ × Bool
outcome limit lines =
    (concat (window limit lines), length lines, not (length (window limit lines) == length lines))

finished_lem :
    (a : ReadAccumulator) (limit : Option ReadLimit) (lines : List Text)
    → a.line_count ≡ length lines
    → a.selected ≡ concat (window limit lines)
    → a.selected_count ≡ length (window limit lines)
    → finished a ≡ outcome limit lines
finished_lem a limit lines c s k = λ i. (s i, c i, not (k i == c i))

with_tail-IsChosen :
    (limit : Option ReadLimit) (lines : List Text) (a : ReadAccumulator)
    → a.line_count ≡ length lines
    → IsChosen limit lines a
    → finished (with_tail limit a) ≡ outcome limit lines
with_tail-IsChosen none lines a c (s, k) = finished_lem a none lines c s k
with_tail-IsChosen (some (head n)) lines a c (s, k) = finished_lem a (some (head n)) lines c s k
with_tail-IsChosen (some (range r)) lines a c (s, k) = finished_lem a (some (range r)) lines c s k
with_tail-IsChosen (some (tail n)) lines a c (s, l) =
    finished_lem (with_tail (some (tail n)) a) (some (tail n)) lines c
      (ap₂ (λ t ls. t ++ concat ls) s l) (ap length l)

finish-HasSeen :
    (limit : Option ReadLimit) (lines : List Text) (a : ReadAccumulator)
    → HasSeen limit lines a
    → finish a ≡ (
      concat (window limit lines),
      length lines,
      not (length (window limit lines) == length lines),
    )
unfolding finish
finish-HasSeen limit lines a h =
    subst (λ l. finished (with_tail l a) ≡ outcome limit lines) (sym h.same_limit)
      (with_tail-IsChosen limit lines a h.counted h.chosen)

-- Whatever the limit, the accumulator selects exactly the lines of the window, in order: all of
-- them, the first `n`, the last `n`, or those from one number to another. It counts all lines, and
-- says that the text is truncated exactly when the window has not as many lines as the file.
pub finish-window :
    (limit : Option ReadLimit) (lines : List Text)
    → IsLimit limit
    → finish (observe_all lines (accumulator_from limit)) ≡ (
      concat (window limit lines),
      length lines,
      not (length (window limit lines) == length lines),
    )
finish-window limit lines v =
    finish-HasSeen limit lines (observe_all lines (accumulator_from limit)) (
      observe_all-HasSeen limit [] lines (accumulator_from limit) v
        (record { same_limit = refl; counted = refl; chosen = start-IsChosen limit }))
