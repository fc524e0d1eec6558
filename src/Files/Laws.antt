-- ===== src/Files/Laws.antt =====
-- What the adapter relies on of the file system and of the crates that it calls.
use context_os_mcp.Prelude.{
  List, Option, [], false, length, none, some, starts_with, true, ℕ, ◌++◌, ◌≡◌, ◌≢◌,
}
use context_os_mcp.FilePath.{FilePath, component_eq}
use context_os_mcp.Files.Disk.{Disk, of_kind, regular, no_entry}

module _ {W : Type 0} (content : FilePath → W → Option (List ℕ)) where
  -- Every file of the first world is in the second, unchanged.
  abbrev pub Kept : W → W → Type 0
  Kept w w' = (q : FilePath) (b : List ℕ) → content q w ≡ some b → content q w' ≡ some b

  -- The same, but for the file at one path.
  abbrev pub KeptBut : FilePath → W → W → Type 0
  KeptBut x w w' =
      (q : FilePath) (b : List ℕ) → q ≢ x → content q w ≡ some b → content q w' ≡ some b

  -- The same, but for the files at and below one path.
  abbrev pub KeptOutside : FilePath → W → W → Type 0
  KeptOutside x w w' =
      (q : FilePath) (b : List ℕ)
      → starts_with q x ≡ false
      → content q w ≡ some b
      → content q w' ≡ some b

  pub record IsDisk (disk : Disk W) : Type 0 where
    pub exists_content :
        (p q : FilePath) (b : List ℕ) (w : W)
        → content q w ≡ some b
        → starts_with q p ≡ true
        → disk.exists p w ≡ true
    pub create_dir_all : (p : FilePath) (w : W) → Kept w (disk.create_dir_all p w).1
    pub no_file_made :
        (p q : FilePath) (w : W) → content q w ≡ none → content q (disk.create_dir_all p w).1 ≡ none
    pub new_temporary : (p : FilePath) (w : W) → Kept w (disk.new_temporary p w).1
    -- a temporary file is new
    pub fresh :
        (p t : FilePath) (b : List ℕ) (w : W)
        → (disk.new_temporary p w).0 ≡ some t
        → content t w ≢ some b
    pub write_temporary :
        (t : FilePath) (bs : List ℕ) (w : W) → KeptBut t w (disk.write_temporary t bs w).1
    pub written :
        (t : FilePath) (bs : List ℕ) (w : W)
        → (disk.write_temporary t bs w).0 ≡ true
        → content t (disk.write_temporary t bs w).1 ≡ some bs
    pub sync_temporary : (t : FilePath) (w : W) → Kept w (disk.sync_temporary t w).1
    pub after_flush : (p : FilePath) (w : W) → Kept w (disk.after_flush p w).1
    pub drop_temporary : (t : FilePath) (w : W) → KeptBut t w (disk.drop_temporary t w)
    -- `persist` is a rename: it replaces the target at once, or changes nothing
    pub persist_failed :
        (t p : FilePath) (w : W) → (disk.persist t p w).0 ≡ false → Kept w (disk.persist t p w).1
    pub persisted :
        (t p : FilePath) (b : List ℕ) (w : W)
        → (disk.persist t p w).0 ≡ true
        → content t w ≡ some b
        → content p (disk.persist t p w).1 ≡ some b
    pub persist_others :
        (t p q : FilePath) (b : List ℕ) (w : W)
        → q ≢ t
        → q ≢ p
        → content q w ≡ some b
        → content q (disk.persist t p w).1 ≡ some b
    pub rename :
        (from to q : FilePath) (b : List ℕ) (w : W)
        → starts_with q from ≡ false
        → starts_with q to ≡ false
        → content q w ≡ some b
        → content q (disk.rename from to w).1 ≡ some b
    pub remove_file : (p : FilePath) (w : W) → KeptBut p w (disk.remove_file p w).1
    -- a directory with entries is not removed
    pub remove_dir : (p : FilePath) (w : W) → Kept w (disk.remove_dir p w).1
    pub remove_dir_all : (p : FilePath) (w : W) → KeptOutside p w (disk.remove_dir_all p w).1
    pub trash : (p : FilePath) (w : W) → KeptOutside p w (disk.trash p w).1
    pub read_dir_empty :
        (p q : FilePath) (b : List ℕ) (w : W)
        → disk.read_dir p w ≡ no_entry
        → starts_with q p ≡ true
        → q ≢ p
        → content q w ≢ some b
    -- nothing is below a regular file
    pub metadata_regular :
        (p q : FilePath) (b : List ℕ) (w : W)
        → disk.metadata p w ≡ of_kind regular
        → starts_with q p ≡ true
        → q ≢ p
        → content q w ≢ some b
    pub open_append : (p : FilePath) (w : W) → Kept w (disk.open_append p w).1
    pub opened :
        (p : FilePath) (w : W)
        → (disk.open_append p w).0 ≡ true
        → content p w ≡ none
        → content p (disk.open_append p w).1 ≡ some []
    pub length_of :
        (p : FilePath) (b : List ℕ) (n : ℕ) (w : W)
        → content p w ≡ some b
        → disk.length_of p w ≡ some n
        → n ≡ length b
    pub append_bytes :
        (p : FilePath) (bs : List ℕ) (w : W) → KeptBut p w (disk.append_bytes p bs w).1
    pub appended :
        (p : FilePath) (b bs : List ℕ) (w : W)
        → (disk.append_bytes p bs w).0 ≡ true
        → content p w ≡ some b
        → content p (disk.append_bytes p bs w).1 ≡ some (b ++ bs)
    pub sync_data : (p : FilePath) (w : W) → Kept w (disk.sync_data p w).1
