-- ===== src/Examples/Disks.antt =====
-- A disk that is a list of files, over the example server, and mutations on it.
use context_os_mcp.Prelude.{
  Bool, List, Option, Option-cases, Result, [], arith, beq_refl, codes, err, false, if◌then◌else◌,
  inl, inr, length, list_beq_iff, list_eq, none, not, ok, refl, some, starts_with,
  starts_with-append, strip_prefix, subst, sym, true, ℕ, ◌&&◌, ◌++◌, ◌==◌, ◌||◌, ◌∙◌, ◌∷◌, ◌≡◌, ◌≢◌,
}
use context_os_mcp.Exec.{Act}
use context_os_mcp.FilePath.{FilePath, normal, component_eq}
use context_os_mcp.Files.Disk.{
  Disk, directory, regular, Metadata, of_kind, missing, not_opened, FirstEntry, no_entry,
  some_entry, ReadFault,
}
use context_os_mcp.Examples.Server.{server}

abbrev pub Entries : Type 0
Entries = List (FilePath × List ℕ)

abbrev pub file_at : FilePath → Entries → Option (List ℕ)
file_at q [] = none
file_at q ((k, v) ∷ w) = if q == k then some v else file_at q w

abbrev pub keep_if : (FilePath → Bool) → Entries → Entries
keep_if p [] = []
keep_if p ((k, v) ∷ w) = if p k then (k, v) ∷ keep_if p w else keep_if p w

abbrev pub other_than : FilePath → FilePath → Bool
other_than p q = not (q == p)

abbrev pub outside : FilePath → FilePath → Bool
outside p q = not (starts_with q p)

abbrev pub strictly_below : FilePath → FilePath → Bool
strictly_below p q = starts_with q p && not (q == p)

abbrev pub some_file : (FilePath → Bool) → Entries → Bool
some_file p [] = false
some_file p ((k, v) ∷ w) = p k || some_file p w

abbrev pub moved_key : FilePath → FilePath → Option FilePath → FilePath
moved_key to k (some rest) = to ++ rest
moved_key to k none = k

abbrev pub moved : FilePath → FilePath → Entries → Entries
moved from to [] = []
moved from to ((k, v) ∷ w) = (moved_key to k (strip_prefix from k), v) ∷ moved from to w

abbrev pub kind_of_file : Bool → Option (List ℕ) → Metadata
kind_of_file true f = of_kind directory
kind_of_file false (some _) = of_kind regular
kind_of_file false none = missing

abbrev pub read : Option (List ℕ) → Result ReadFault (List ℕ)
read (some b) = ok b
read none = err not_opened

abbrev pub entry : Bool → FirstEntry
entry true = some_entry
entry false = no_entry

abbrev pub temporary_in : FilePath → FilePath
temporary_in p = p ++ normal (codes ".tmp") ∷ []

abbrev pub create_at : FilePath → Option (List ℕ) → Act Entries (Option FilePath)
create_at t none w = (some t, w)
create_at t (some _) w = (none, w)

abbrev pub put_at : FilePath → FilePath → Option (List ℕ) → Act Entries Bool
put_at t p none w = (false, w)
put_at t p (some b) w = (true, (p, b) ∷ keep_if (other_than t) w)

abbrev pub open_at : FilePath → Option (List ℕ) → Act Entries Bool
open_at p none w = (true, (p, []) ∷ w)
open_at p (some _) w = (true, w)

abbrev pub grow_at : FilePath → List ℕ → Option (List ℕ) → Act Entries Bool
grow_at p bs none w = (false, w)
grow_at p bs (some b) w = (true, (p, b ++ bs) ∷ w)

abbrev pub size : Option (List ℕ) → Option ℕ
size none = none
size (some b) = some (length b)

abbrev pub listed : Disk Entries
listed = record {
  host = λ _. server;
  exists = λ p w. some_file (λ q. starts_with q p) w;
  metadata = λ p w. kind_of_file (some_file (strictly_below p) w) (file_at p w);
  read_file = λ p w. read (file_at p w);
  read_dir = λ p w. entry (some_file (strictly_below p) w);
  sha256 = λ bs. bs;
  create_dir_all = λ p w. (true, w);
  new_temporary = λ p w. create_at (temporary_in p) (file_at (temporary_in p) w) w;
  write_temporary = λ t bs w. (true, (t, bs) ∷ w);
  sync_temporary = λ t w. (true, w);
  drop_temporary = λ t w. keep_if (other_than t) w;
  persist = λ t p w. put_at t p (file_at t w) w;
  after_flush = λ p w. (true, w);
  rename = λ from to w. (true, moved from to w);
  trash = λ p w. (true, keep_if (outside p) w);
  remove_dir = λ p w. (false, w);
  remove_file = λ p w. (true, keep_if (other_than p) w);
  remove_dir_all = λ p w. (true, keep_if (outside p) w);
  open_append = λ p w. open_at p (file_at p w) w;
  length_of = λ p w. size (file_at p w);
  append_bytes = λ p bs w. grow_at p bs (file_at p w) w;
  sync_data = λ p w. (true, w);
}

pub skip :
    (q k : FilePath) (v : List ℕ) (w : Entries) → q ≢ k → file_at q ((k, v) ∷ w) ≡ file_at q w
skip q k v w n = ground (arith, list_beq_iff q k)

pub here : (k : FilePath) (v : List ℕ) (w : Entries) → file_at k ((k, v) ∷ w) ≡ some v
here k v w = ground (arith, beq_refl k)

pub other : (p q : FilePath) → q ≢ p → other_than p q ≡ true
other p q n = ground (arith, list_beq_iff q p)

pub keep_if-keeps :
    (p : FilePath → Bool) (q : FilePath) (w : Entries)
    → p q ≡ true
    → file_at q (keep_if p w) ≡ file_at q w
keep_if-keeps p q [] h = refl
keep_if-keeps p q ((k, v) ∷ w) h = ground (arith, keep_if-keeps p q w h, list_beq_iff q k)

pub some_file-found :
    (p : FilePath → Bool) (q : FilePath) (b : List ℕ) (w : Entries)
    → file_at q w ≡ some b
    → p q ≡ true
    → some_file p w ≡ true
some_file-found p q b [] h t = cc
some_file-found p q b ((k, v) ∷ w) h t = ground (arith, some_file-found p q b w, list_beq_iff q k)

pub moved-elsewhere :
    (from to q : FilePath) (b : List ℕ) (w : Entries)
    → starts_with q from ≡ false
    → starts_with q to ≡ false
    → file_at q w ≡ some b
    → file_at q (moved from to w) ≡ some b
moved-elsewhere from to q b [] m n h = cc
moved-elsewhere from to q b ((k, v) ∷ w) m n h = elim (Option-cases (strip_prefix from k)) [
  | inl stays ↦ rw stays (ground (arith, moved-elsewhere from to q b w))
  | inr (rest, goes) ↦
      let apart : q ≢ to ++ rest = λ e.
        (let back = subst (λ p. starts_with p to ≡ false) e n in
          let front = starts_with-append to rest in cc) in
      let unlike : q ≢ k = λ e. ground arith in
      rw goes (
        skip q (to ++ rest) v (moved from to w) apart
        ∙ moved-elsewhere from to q b w m n (sym (skip q k v w unlike) ∙ h))
]
