-- ===== src/Files/Read/Batch.antt =====
-- `read_many` bounds the files of each root, then reads every path by itself.
use context_os_mcp.Prelude.{
  get_elem?-some, All, Bool, Bool-cases, List, [], ap, arith, bind-eq-ok, get_elem?, get_or,
  if◌then◌else◌, inl, inr, length, map, nat_eq, ok, ok-injective, refl, some, subst, suc, sym, true,
  zero, ℕ, ◌&&◌, ◌+◌, ◌<◌, ◌==◌, ◌>>=◌, ◌↔◌, ◌∙◌, ◌∷◌, ◌≡◌, ◌≤◌,
}
use context_os_mcp.Vault.Confine.{VaultPath, authorises}
use context_os_mcp.Files.Error.{FsError}
use context_os_mcp.Files.Read.{
  FsLimits, Filesystem, ReadsDisk, ReadManyResult, read_many, read_entry, count_paths, increment,
  zero_counts, check_counts, check_count, limited,
}

-- How many of the paths are authorised ones of a root.
abbrev pub of_root : Filesystem → ℕ → VaultPath → Bool
of_root fs i path = authorises fs.roots path && path.root.value == i

abbrev pub count_root : Filesystem → ℕ → List VaultPath → ℕ
count_root fs i [] = 0
count_root fs i (path ∷ paths) =
    let rest = count_root fs i paths in if of_root fs i path then suc rest else rest

-- Every authorised path is of a root that has limits.
abbrev pub HasLimits : Filesystem → List VaultPath → Type 0
HasLimits fs = All (λ path. authorises fs.roots path ≡ true → path.root.value < length fs.limits)

-- One more at one index.
abbrev bump : ℕ → (ℕ → ℕ) → ℕ → ℕ
bump j f i = if i == j then f i + 1 else f i

abbrev at_index : List ℕ → ℕ → ℕ
at_index counts i = get_or counts i 0

record IsBumped (j : ℕ) (counts new : List ℕ) : Type 0 where
  same_length : length new ≡ length counts
  bumped : (i : ℕ) → at_index new i ≡ bump j (at_index counts) i

IsBumped-cons :
    (j n : ℕ) (counts new : List ℕ)
    → IsBumped j counts new
    → IsBumped (suc j) (n ∷ counts) (n ∷ new)
IsBumped-cons j n counts new h = record { same_length = ap suc h.same_length; bumped = each }
  where
    each : (i : ℕ) → at_index (n ∷ new) i ≡ bump (suc j) (at_index (n ∷ counts)) i
    each zero = ground arith
    each (suc i) = ground (arith, h.bumped i)

increment_lem :
    (j : ℕ) (counts : List ℕ)
    → j < length counts
    → (new : List ℕ) × (increment j counts ≡ some new) × IsBumped j counts new
increment_lem j [] h = absurd (omega (arith, h))
increment_lem zero (n ∷ counts) h =
    ((n + 1) ∷ counts, refl, record { same_length = refl; bumped = each })
  where
    each : (i : ℕ) → at_index ((n + 1) ∷ counts) i ≡ bump 0 (at_index (n ∷ counts)) i
    each zero = ground arith
    each (suc i) = ground arith
increment_lem (suc j) (n ∷ counts) h =
    let (new, e, b) = increment_lem j counts (omega (arith, h)) in
    (n ∷ new, rw e refl, IsBumped-cons j n counts new b)

record IsCounted (fs : Filesystem) (paths : List VaultPath) (counts new : List ℕ) : Type 0 where
  same_length : length new ≡ length counts
  counted : (i : ℕ) → at_index new i ≡ at_index counts i + count_root fs i paths

count_paths_lem :
    (fs : Filesystem) (paths : List VaultPath) (counts : List ℕ)
    → length counts ≡ length fs.limits
    → HasLimits fs paths
    → (new : List ℕ) × (count_paths fs paths counts ≡ ok new) × IsCounted fs paths counts new
unfolding count_paths ◌>>=◌
count_paths_lem fs [] counts l h =
    (counts, refl, record { same_length = refl; counted = λ i. omega arith })
count_paths_lem fs (path ∷ paths) counts l (h, hs) = elim (Bool-cases (authorises fs.roots path)) [
  | inl e ↦
      let (bumped, at, b) = increment_lem path.root.value counts (omega (arith, l, h e)) in
      let (new, done, c) = count_paths_lem fs paths bumped (b.same_length ∙ l) hs in
      (
        new,
        rw (e, at) done,
        record {
          same_length = c.same_length ∙ b.same_length;
          counted = λ i. rw e (ground (arith, c.counted i, b.bumped i));
        },
      )
  | inr e ↦
      let (new, done, c) = count_paths_lem fs paths counts l hs in
      (new, rw e done, record { same_length = c.same_length; counted = λ i. rw e (c.counted i) })
]

-- No count is more than its root allows.
abbrev Within : Filesystem → ℕ → List ℕ → Type 0
Within fs index counts =
    (i : ℕ) (l : FsLimits)
    → i < length counts
    → get_elem? fs.limits (index + i) ≡ some l
    → at_index counts i ≤ l.max_batch_files

check_count_iff : (n : ℕ) (l : FsLimits) → (check_count n l ≡ ok tt) ↔ (n ≤ l.max_batch_files)
check_count_iff n l = ground arith

check_counts-Within :
    (fs : Filesystem) (index : ℕ) (counts : List ℕ)
    → check_counts fs index counts ≡ ok tt
    → Within fs index counts
unfolding check_counts
check_counts-Within fs index [] h i l b at = absurd (omega (arith, b))
check_counts-Within fs index (n ∷ counts) h zero l b at =
    let (m, known, h1) = bind-eq-ok (limited (get_elem? fs.limits index) fs) _ h in
    let (_, small, _) = bind-eq-ok (check_count n m) _ h1 in
    let same = sym known ∙ ap (λ o. limited o fs) (ap (get_elem? fs.limits) (omega arith) ∙ at) in
    subst (λ k. n ≤ k.max_batch_files) (ok-injective same) ((check_count_iff n m).0 small)
check_counts-Within fs index (n ∷ counts) h (suc i) l b at =
    let (m, known, h1) = bind-eq-ok (limited (get_elem? fs.limits index) fs) _ h in
    let (_, small, h2) = bind-eq-ok (check_count n m) _ h1 in
    check_counts-Within fs (index + 1) counts h2 i l (omega (arith, b))
      (ap (get_elem? fs.limits) (omega arith) ∙ at)

Within-check_counts :
    (fs : Filesystem) (index : ℕ) (counts : List ℕ)
    → index + length counts ≤ length fs.limits
    → Within fs index counts
    → check_counts fs index counts ≡ ok tt
unfolding check_counts ◌>>=◌
Within-check_counts fs index [] k w = refl
Within-check_counts fs index (n ∷ counts) k w =
    let (l, at) = get_elem?-some fs.limits index (omega (arith, k)) in
    let small = w zero l (omega arith) (ap (get_elem? fs.limits) (omega arith) ∙ at) in
    rw (at, (check_count_iff n l).1 small)
      (Within-check_counts fs (index + 1) counts (omega (arith, k))
        (λ i m b e. w (suc i) m (omega (arith, b)) (ap (get_elem? fs.limits) (omega arith) ∙ e)))

length-zero_counts : (limits : List FsLimits) → length (zero_counts limits) ≡ length limits
length-zero_counts [] = refl
length-zero_counts (l ∷ limits) = ap suc (length-zero_counts limits)

at_index-zero_counts : (limits : List FsLimits) (i : ℕ) → at_index (zero_counts limits) i ≡ 0
at_index-zero_counts [] i = refl
at_index-zero_counts (l ∷ limits) zero = refl
at_index-zero_counts (l ∷ limits) (suc i) = at_index-zero_counts limits i

get_elem?-lt : {A : Type 0} (xs : List A) (i : ℕ) {x : A} → get_elem? xs i ≡ some x → i < length xs
get_elem?-lt [] i h = cc
get_elem?-lt (y ∷ xs) zero h = omega arith
get_elem?-lt (y ∷ xs) (suc i) h = omega (arith, get_elem?-lt xs i h)

module _ {I : Type 0} (info : FsError → I) (disk : ReadsDisk) (fs : Filesystem) where
  -- If every authorised path is of a root that has limits, `read_many` refuses a batch exactly when
  -- the authorised paths of some root are more than it allows, and otherwise returns one entry for
  -- each path, in order, whatever becomes of the others: that of reading this path without a limit.
  pub read_many_iff :
      (paths : List VaultPath) (entries : List (ReadManyResult I))
      → HasLimits fs paths
      → (read_many info disk fs paths ≡ ok entries) ↔ (
          (entries ≡ map (read_entry info disk fs) paths)
          × ((i : ℕ) (l : FsLimits)
              → get_elem? fs.limits i ≡ some l
              → count_root fs i paths ≤ l.max_batch_files))
  unfolding read_many ◌>>=◌
  read_many_iff paths entries has =
      let (counts, at, c) =
        count_paths_lem fs paths (zero_counts fs.limits) (length-zero_counts fs.limits) has in
      let size = c.same_length ∙ length-zero_counts fs.limits in
      let count = λ (i : ℕ).
        c.counted i ∙ ap (λ z. z + count_root fs i paths) (at_index-zero_counts fs.limits i) in
      (
        λ h.
            let (_, small, made) = bind-eq-ok (check_counts fs 0 counts) _ (rw at at h) in
            (
              sym (ok-injective made),
              λ i l e. omega (
                arith,
                count i,
                check_counts-Within fs 0 counts small i l
                    (omega (arith, size, get_elem?-lt fs.limits i e))
                    (ap (get_elem? fs.limits) (omega arith) ∙ e),
              ),
            ),
        λ (same, small).
            rw
              (
                at,
                Within-check_counts fs 0 counts (omega (arith, size)) (λ i l b e.
                    omega (arith, count i, small i l (ap (get_elem? fs.limits) (omega arith) ∙ e))),
              )
              (ap ok (sym same)),
      )
