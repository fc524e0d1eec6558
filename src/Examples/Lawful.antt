-- ===== src/Examples/Lawful.antt =====
-- The listed disk keeps the laws.
use context_os_mcp.Prelude.{
  Bool, List, Option, [], ap, arith, false, length, list_beq_iff, none, refl, some, some-injective,
  starts_with, subst, sym, true, ℕ, ◌++◌, ◌∙◌, ◌≡◌, ◌≢◌,
}
use context_os_mcp.FilePath.{FilePath, component_eq}
use context_os_mcp.Files.Disk.{regular, of_kind, no_entry}
use context_os_mcp.Files.Laws.{IsDisk}
use context_os_mcp.Examples.Disks.{
  Entries, file_at, keep_if, other_than, outside, strictly_below, some_file, kind_of_file, entry,
  temporary_in, create_at, put_at, open_at, grow_at, size, listed, skip, here, other, keep_if-keeps,
  some_file-found, moved-elsewhere,
}

put_at-failed :
    (t p q : FilePath) (b : List ℕ) (f : Option (List ℕ)) (w : Entries)
    → (put_at t p f w).0 ≡ false
    → file_at q w ≡ some b
    → file_at q (put_at t p f w).1 ≡ some b
put_at-failed t p q b none w e h = h
put_at-failed t p q b (some c) w e h = cc

put_at-others :
    (t p q : FilePath) (b : List ℕ) (f : Option (List ℕ)) (w : Entries)
    → q ≢ t
    → q ≢ p
    → file_at q w ≡ some b
    → file_at q (put_at t p f w).1 ≡ some b
put_at-others t p q b none w n m h = h
put_at-others t p q b (some c) w n m h =
    skip q p c (keep_if (other_than t) w) m ∙ keep_if-keeps (other_than t) q w (other t q n) ∙ h

put_at-put :
    (t p : FilePath) (b : List ℕ) (f : Option (List ℕ)) (w : Entries)
    → f ≡ some b
    → file_at p (put_at t p f w).1 ≡ some b
put_at-put t p b none w e = cc
put_at-put t p b (some c) w e = here p c (keep_if (other_than t) w) ∙ e

open_at-keeps :
    (p q : FilePath) (b : List ℕ) (f : Option (List ℕ)) (w : Entries)
    → file_at p w ≡ f
    → file_at q w ≡ some b
    → file_at q (open_at p f w).1 ≡ some b
open_at-keeps p q b none w e h = ground (arith, list_beq_iff q p)
open_at-keeps p q b (some c) w e h = h

open_at-opens :
    (p : FilePath) (f : Option (List ℕ)) (w : Entries)
    → f ≡ none
    → file_at p (open_at p f w).1 ≡ some []
open_at-opens p none w e = here p [] w
open_at-opens p (some c) w e = cc

create_at-keeps :
    (t q : FilePath) (b : List ℕ) (f : Option (List ℕ)) (w : Entries)
    → file_at q w ≡ some b
    → file_at q (create_at t f w).1 ≡ some b
create_at-keeps t q b none w h = h
create_at-keeps t q b (some c) w h = h

create_at-fresh :
    (t u : FilePath) (b : List ℕ) (f : Option (List ℕ)) (w : Entries)
    → file_at t w ≡ f
    → (create_at t f w).0 ≡ some u
    → file_at u w ≢ some b
create_at-fresh t u b none w e s = λ h.
    (let same = some-injective t u s in let there = subst (λ p. file_at p w ≡ none) same e in cc)
create_at-fresh t u b (some c) w e s = cc

grow_at-keeps :
    (p q : FilePath) (b bs : List ℕ) (f : Option (List ℕ)) (w : Entries)
    → q ≢ p
    → file_at q w ≡ some b
    → file_at q (grow_at p bs f w).1 ≡ some b
grow_at-keeps p q b bs none w n h = h
grow_at-keeps p q b bs (some c) w n h = skip q p (c ++ bs) w n ∙ h

grow_at-grows :
    (p : FilePath) (b bs : List ℕ) (f : Option (List ℕ)) (w : Entries)
    → f ≡ some b
    → file_at p (grow_at p bs f w).1 ≡ some (b ++ bs)
grow_at-grows p b bs none w e = cc
grow_at-grows p b bs (some c) w e =
    here p (c ++ bs) w ∙ ap (λ l. some (l ++ bs)) (some-injective c b e)

size-length :
    (b : List ℕ) (n : ℕ) (f : Option (List ℕ)) → f ≡ some b → size f ≡ some n → n ≡ length b
size-length b n none e s = cc
size-length b n (some c) e s =
    sym (some-injective (length c) n s) ∙ ap length (some-injective c b e)

entry-none : (x : Bool) → entry x ≡ no_entry → x ≡ false
entry-none true h = cc
entry-none false h = refl

regular-file : (x : Bool) (f : Option (List ℕ)) → kind_of_file x f ≡ of_kind regular → x ≡ false
regular-file true f h = cc
regular-file false f h = refl

below_found :
    (p q : FilePath) (b : List ℕ) (w : Entries)
    → some_file (strictly_below p) w ≡ false
    → starts_with q p ≡ true
    → q ≢ p
    → file_at q w ≢ some b
below_found p q b w e s n = λ h.
    (let strict : strictly_below p q ≡ true = ground (arith, other p q n) in
      let there = some_file-found (strictly_below p) q b w h strict in cc)

outside-true : (p q : FilePath) → starts_with q p ≡ false → outside p q ≡ true
outside-true p q h = rw h refl

pub listed-IsDisk : IsDisk file_at listed
listed-IsDisk = record {
  exists_content = λ p q b w h s. some_file-found (λ r. starts_with r p) q b w h s;
  create_dir_all = λ p w q b h. h;
  no_file_made = λ p q w h. h;
  new_temporary =
      λ p w q b h. create_at-keeps (temporary_in p) q b (file_at (temporary_in p) w) w h;
  fresh = λ p t b w e. create_at-fresh (temporary_in p) t b (file_at (temporary_in p) w) w refl e;
  write_temporary = λ t bs w q b n h. skip q t bs w n ∙ h;
  written = λ t bs w _. here t bs w;
  sync_temporary = λ t w q b h. h;
  after_flush = λ p w q b h. h;
  drop_temporary = λ t w q b n h. keep_if-keeps (other_than t) q w (other t q n) ∙ h;
  persist_failed = λ t p w e q b h. put_at-failed t p q b (file_at t w) w e h;
  persisted = λ t p b w _ h. put_at-put t p b (file_at t w) w h;
  persist_others = λ t p q b w n m h. put_at-others t p q b (file_at t w) w n m h;
  rename = λ from to q b w m n h. moved-elsewhere from to q b w m n h;
  remove_file = λ p w q b n h. keep_if-keeps (other_than p) q w (other p q n) ∙ h;
  remove_dir = λ p w q b h. h;
  remove_dir_all = λ p w q b s h. keep_if-keeps (outside p) q w (outside-true p q s) ∙ h;
  trash = λ p w q b s h. keep_if-keeps (outside p) q w (outside-true p q s) ∙ h;
  read_dir_empty = λ p q b w e s n. below_found p q b w (entry-none _ e) s n;
  metadata_regular = λ p q b w e s n. below_found p q b w (regular-file _ (file_at p w) e) s n;
  open_append = λ p w q b h. open_at-keeps p q b (file_at p w) w refl h;
  opened = λ p w _ h. open_at-opens p (file_at p w) w h;
  length_of = λ p b n w h s. size-length b n (file_at p w) h s;
  append_bytes = λ p bs w q b n h. grow_at-keeps p q b bs (file_at p w) w n h;
  appended = λ p b bs w _ h. grow_at-grows p b bs (file_at p w) w h;
  sync_data = λ p w q b h. h;
}
