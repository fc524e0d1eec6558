-- ===== src/Files/Read.antt =====
-- Reading of text files: `LineRange`, `ReadLimit`, `ReadAccumulator`, `Filesystem::try_from`,
-- `limits`, `batch_capacity`, `read_text` and `read_many` (crates/contextos-fs/src/read.rs).
pub mod Parts
pub mod Lists
pub mod Utf8
pub mod Window
pub mod Exact
pub mod Batch
use context_os_mcp.Prelude.{
  saturating_add, Bool, List, Option, Result, Text, [], contains, drop, err, false, get_elem?,
  if◌then◌else◌, leb, length, lines, ltb, map, nat_eq, none, not, ok, position, some, suc, true,
  zero, ℕ, ◌&&◌, ◌++◌, ◌+◌, ◌-◌, ◌==◌, ◌>>=◌, ◌>>◌, ◌^◌, ◌||◌, ◌∷◌,
}
use context_os_mcp.FilePath.{FilePath}
use context_os_mcp.Vault.Set.{VaultSet, len}
use context_os_mcp.Vault.Confine.{VaultPath, authorises}
use context_os_mcp.Hash.{ContentHash, from_bytes}
use context_os_mcp.Operation.{path_text}
use context_os_mcp.Files.Error.{
  FsError, outside_root, not_found, not_file, read_metadata, limit_count_mismatch,
  hidden_count_mismatch, invalid_limits, invalid_range, too_large, open_read, read_content, binary,
  batch_too_large,
}
use context_os_mcp.Files.Read.Utf8.{from_utf8}

pub record FsLimits : Type 0 where
  pub max_read_bytes : ℕ
  pub max_batch_files : ℕ

pub record Filesystem : Type 0 where
  pub roots : VaultSet
  pub limits : List FsLimits
  pub hidden : List (List Text)

abbrev pub no_limits : FsLimits → Bool
no_limits l = l.max_read_bytes == 0 || l.max_batch_files == 0

abbrev pub no_invalid : Option ℕ → Filesystem → Result FsError Filesystem
no_invalid (some index) fs = err (invalid_limits index)
no_invalid none fs = ok fs

-- `Filesystem::try_from`; the guard of atomic writes is a part of the disk.
unfoldable pub try_from : Filesystem → Result FsError Filesystem
try_from value =
    if not (len value.roots == length value.limits)
    then err (limit_count_mismatch (len value.roots) (length value.limits))
    else if not (len value.roots == length value.hidden)
    then err (hidden_count_mismatch (len value.roots) (length value.hidden))
    else no_invalid (position no_limits value.limits) value

pub record LineRange : Type 0 where
  pub from : ℕ
  pub to : ℕ

-- `LineRange::try_from`
unfoldable pub line_range : ℕ → ℕ → Result FsError LineRange
line_range from to =
    if from == 0 || to == 0 || ltb to from
    then err (invalid_range from to)
    else ok (record { from = from; to = to })

pub data ReadLimit : Type 0 where
  head tail : ℕ → ReadLimit
  range : LineRange → ReadLimit

pub record ReadAccumulator : Type 0 where
  pub limit : Option ReadLimit
  pub selected : Text
  pub tail_lines : List Text
  pub line_count : ℕ
  pub selected_count : ℕ

-- `ReadAccumulator::from`
abbrev pub accumulator_from : Option ReadLimit → ReadAccumulator
accumulator_from limit = record {
  limit = limit;
  selected = [];
  tail_lines = [];
  line_count = 0;
  selected_count = 0;
}

-- `ReadAccumulator::select`
unfoldable pub select : Text → ReadAccumulator → ReadAccumulator
select line a = record a { selected = a.selected ++ line; selected_count = a.selected_count + 1 }

abbrev pub keep_last : ℕ → List Text → List Text
keep_last maximum lines = if ltb maximum (length lines) then drop 1 lines else lines

-- The match of `observe`, with the line counted.
abbrev pub observe_counted : Option ReadLimit → Text → ReadAccumulator → ReadAccumulator
observe_counted none line a = select line a
observe_counted (some (head maximum)) line a = if leb a.line_count maximum then select line a else a
observe_counted (some (tail maximum)) line a =
    if ltb 0 maximum
    then record a { tail_lines = keep_last maximum (a.tail_lines ++ line ∷ []) }
    else a
observe_counted (some (range r)) line a =
    if leb r.from a.line_count && leb a.line_count r.to then select line a else a

-- `ReadAccumulator::observe`
unfoldable pub observe : Text → ReadAccumulator → ReadAccumulator
observe line a = observe_counted a.limit line (record a { line_count = a.line_count + 1 })

abbrev pub concat : List Text → Text
concat [] = []
concat (line ∷ lines) = line ++ concat lines

abbrev pub with_tail : Option ReadLimit → ReadAccumulator → ReadAccumulator
with_tail (some (tail _)) a = record a {
  selected_count = length a.tail_lines;
  selected = a.selected ++ concat a.tail_lines;
}
with_tail _ a = a

abbrev pub finished : ReadAccumulator → Text × ℕ × Bool
finished a = (a.selected, a.line_count, not (a.selected_count == a.line_count))

-- `ReadAccumulator::finish`
unfoldable pub finish : ReadAccumulator → Text × ℕ × Bool
finish a = finished (with_tail a.limit a)

-- An open file: the bytes that it delivers, and whether an error follows them.
pub record Stream : Type 0 where
  pub content : List ℕ
  pub breaks : Bool

-- The outcome of `Path::metadata`.
pub data Stat : Type 0 where
  regular_file : ℕ → Stat
  other_kind missing unreadable : Stat

-- What reading asks of the file system, in a fixed state of it, and of the sha2 crate.
pub record ReadsDisk : Type 0 where
  pub stat : FilePath → Stat
  pub open_file : FilePath → Option Stream
  pub sha256 : List ℕ → List ℕ

-- `read_until` of a newline: the lines with their newlines, and what follows the last one.
abbrev pub add_byte : Bool → ℕ → List (List ℕ) × List ℕ → List (List ℕ) × List ℕ
add_byte true b (lines, rest) = ((b ∷ []) ∷ lines, rest)
add_byte false b ([], rest) = ([], b ∷ rest)
add_byte false b (line ∷ lines, rest) = ((b ∷ line) ∷ lines, rest)

unfoldable pub raw_lines : List ℕ → List (List ℕ) × List ℕ
raw_lines [] = ([], [])
raw_lines (b ∷ bs) = add_byte (b == b'\n') b (raw_lines bs)

-- The loop's state: the bytes given to the hasher, and the accumulator.
pub record Reading : Type 0 where
  pub hashed : List ℕ
  pub accumulator : ReadAccumulator

abbrev pub decoded : FilePath → Option Text → Reading → Result FsError Reading
decoded path none r = err (binary path)
decoded path (some line) r = ok (record r { accumulator = observe line r.accumulator })

-- One round of the loop of `read_text`, on a buffer with bytes.
unfoldable pub read_buffer : FilePath → List ℕ → Reading → Result FsError Reading
read_buffer path buffer r =
    if contains 0 buffer
    then err (binary path)
    else decoded path (from_utf8 buffer) (record r { hashed = r.hashed ++ buffer })

unfoldable pub read_buffers : FilePath → List (List ℕ) → Reading → Result FsError Reading
unfolding ◌>>=◌
read_buffers path [] r = ok r
read_buffers path (buffer ∷ buffers) r = read_buffer path buffer r >>= read_buffers path buffers

abbrev pub read_last : FilePath → Bool → List ℕ → Reading → Result FsError Reading
read_last path true rest r = err (read_content path)
read_last path false [] r = ok r
read_last path false (b ∷ rest) r = read_buffer path (b ∷ rest) r

-- The loop, up to the end of the file or an error.
abbrev pub read_stream : FilePath → Stream → Reading → Result FsError Reading
read_stream path s r =
    read_buffers path (raw_lines s.content).0 r >>= read_last path s.breaks (raw_lines s.content).1

pub record ReadTextRequest : Type 0 where
  pub path : VaultPath
  pub limit : Option ReadLimit

pub record ReadTextResult : Type 0 where
  pub content : Text
  pub line_count : ℕ
  pub content_hash : ContentHash
  pub truncated : Bool

abbrev pub read_result : (List ℕ → List ℕ) → List ℕ → Text × ℕ × Bool → ReadTextResult
read_result sha256 hashed (content, line_count, truncated) = record {
  content = content;
  line_count = line_count;
  content_hash = from_bytes (sha256 hashed);
  truncated = truncated;
}

abbrev pub is_none {ℓ} : {A : Type ℓ} → Option A → Bool
is_none none = true
is_none (some _) = false

abbrev pub limited : Option FsLimits → Filesystem → Result FsError FsLimits
limited (some l) fs = ok l
limited none fs = err (limit_count_mismatch (len fs.roots) (length fs.limits))

-- `Filesystem::limits`
unfoldable pub limits_of : Filesystem → VaultPath → Result FsError FsLimits
limits_of fs path = limited (get_elem? fs.limits path.root.value) fs

module _ (disk : ReadsDisk) (fs : Filesystem) where
  abbrev pub file_size : FilePath → Stat → Result FsError ℕ
  file_size path (regular_file size) = ok size
  file_size path other_kind = err (not_file path)
  file_size path missing = err (not_found path)
  file_size path unreadable = err (read_metadata path)

  abbrev pub opened : FilePath → Option Stream → Result FsError Stream
  opened path (some stream) = ok stream
  opened path none = err (open_read path)

  abbrev pub check_size : FilePath → ℕ → Option ReadLimit → FsLimits → Result FsError (Unit {0})
  check_size path size limit l =
      if ltb l.max_read_bytes size && is_none limit
      then err (too_large path size l.max_read_bytes)
      else ok tt

  abbrev pub check_authorised : VaultPath → Result FsError (Unit {0})
  check_authorised path =
      if authorises fs.roots path then ok tt else err (outside_root path.absolute)

  -- `read_text`
  unfoldable pub read_text : ReadTextRequest → Result FsError ReadTextResult
  unfolding ◌>>=◌
  read_text request = do
    check_authorised request.path
    size ← file_size request.path.absolute (disk.stat request.path.absolute)
    l ← limits_of fs request.path
    check_size request.path.absolute size request.limit l
    stream ← opened request.path.absolute (disk.open_file request.path.absolute)
    r ←
        read_stream request.path.absolute stream
          (record { hashed = []; accumulator = accumulator_from request.limit })
    ok (read_result disk.sha256 r.hashed (finish r.accumulator))

-- `batch_capacity`: a saturating sum over the roots
abbrev pub capacity_from : ℕ → List FsLimits → ℕ
capacity_from capacity [] = capacity
capacity_from capacity (l ∷ limits) =
    capacity_from (saturating_add capacity l.max_batch_files) limits

unfoldable pub batch_capacity : Filesystem → ℕ
batch_capacity fs = capacity_from 0 fs.limits

-- `counts.get_mut(root_index)` and the increment; nothing when the index is out of bounds
abbrev pub more_counts : ℕ → Option (List ℕ) → Option (List ℕ)
more_counts n none = none
more_counts n (some counts) = some (n ∷ counts)

abbrev pub increment : ℕ → List ℕ → Option (List ℕ)
increment i [] = none
increment zero (n ∷ counts) = some ((n + 1) ∷ counts)
increment (suc i) (n ∷ counts) = more_counts n (increment i counts)

abbrev pub zero_counts : List FsLimits → List ℕ
zero_counts [] = []
zero_counts (_ ∷ limits) = 0 ∷ zero_counts limits

abbrev pub incremented : Filesystem → Option (List ℕ) → Result FsError (List ℕ)
incremented fs (some counts) = ok counts
incremented fs none = err (limit_count_mismatch (len fs.roots) (length fs.limits))

abbrev pub count_path : Filesystem → VaultPath → List ℕ → Result FsError (List ℕ)
count_path fs path counts =
    if authorises fs.roots path
    then incremented fs (increment path.root.value counts)
    else ok counts

-- The first loop of `read_many`
unfoldable pub count_paths : Filesystem → List VaultPath → List ℕ → Result FsError (List ℕ)
unfolding ◌>>=◌
count_paths fs [] counts = ok counts
count_paths fs (path ∷ paths) counts = count_path fs path counts >>= count_paths fs paths

abbrev pub check_count : ℕ → FsLimits → Result FsError (Unit {0})
check_count count l =
    if ltb l.max_batch_files count then err (batch_too_large count l.max_batch_files) else ok tt

-- The second loop, from an index on
unfoldable pub check_counts : Filesystem → ℕ → List ℕ → Result FsError (Unit {0})
unfolding ◌>>=◌
check_counts fs index [] = ok tt
check_counts fs index (count ∷ counts) = do
  l ← limited (get_elem? fs.limits index) fs
  check_count count l
  check_counts fs (index + 1) counts

-- `I` is the type of `FsErrorInfo`, the texts of an error.
pub record ReadManyResult (I : Type 0) : Type 0 where
  pub path : Text
  pub content : Option Text
  pub content_hash : Option ContentHash
  pub error : Option I

module _ {I : Type 0} (info : FsError → I) (disk : ReadsDisk) (fs : Filesystem) where
  abbrev pub entry_of : Text → Result FsError ReadTextResult → ReadManyResult I
  entry_of path (ok r) = record {
    path = path;
    content = some r.content;
    content_hash = some r.content_hash;
    error = none;
  }
  entry_of path (err e) = record {
    path = path;
    content = none;
    content_hash = none;
    error = some (info e);
  }

  abbrev pub read_entry : VaultPath → ReadManyResult I
  read_entry path =
      entry_of (path_text path.relative) (read_text disk fs (record { path = path; limit = none }))

  -- `read_many`
  unfoldable pub read_many : List VaultPath → Result FsError (List (ReadManyResult I))
  unfolding ◌>>=◌
  read_many paths = do
    counts ← count_paths fs paths (zero_counts fs.limits)
    check_counts fs 0 counts
    ok (map read_entry paths)
