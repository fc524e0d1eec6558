-- ===== src/Files/Read/Exact.antt =====
-- When `read_text` succeeds, and with what.
use context_os_mcp.Prelude.{
  Bool, List, Option, Text, [], ap, ap₂, bind-eq-ok, err, false, if◌then◌else◌, length, lines, ltb,
  nat_eq, none, not, ok, ok-injective, refl, some, sym, true, ℕ, ◌&&◌, ◌++◌, ◌==◌, ◌>>=◌, ◌↔◌, ◌∙◌,
  ◌≡◌,
}
use context_os_mcp.FilePath.{FilePath}
use context_os_mcp.Vault.Confine.{authorises}
use context_os_mcp.Hash.{from_bytes}
use context_os_mcp.Files.Error.{FsError}
use context_os_mcp.Files.Read.{
  other_kind, FsLimits, Filesystem, accumulator_from, concat, finish, Stream, Stat, regular_file,
  ReadsDisk, raw_lines, Reading, read_buffers, read_stream, ReadTextRequest, ReadTextResult,
  read_result, is_none, limits_of, read_text, file_size, opened, check_size, check_authorised,
}
use context_os_mcp.Files.Read.{missing, unreadable, other_kind}
use context_os_mcp.Files.Read.Window.{window, observe_all, IsLimit, finish-window}
use context_os_mcp.Files.Read.Parts.{
  buffers, text_lines, after, outcome, read_stream_lem, last_breaks, buffers-concat,
}

-- What a request needs to succeed, and its result: the file is a regular one below its root, not
-- too large unless a limit is given, can be opened and read to its end, and all its lines are text.
pub record IsRead (disk : ReadsDisk) (fs : Filesystem) (request : ReadTextRequest)
    (result : ReadTextResult) : Type 0 where
  pub size : ℕ
  pub limits : FsLimits
  pub content : List ℕ
  pub lines : List Text
  pub authorised : authorises fs.roots request.path ≡ true
  pub is_file : disk.stat request.path.absolute ≡ regular_file size
  pub limits_known : limits_of fs request.path ≡ ok limits
  pub small : (ltb limits.max_read_bytes size && is_none request.limit) ≡ false
  pub open_whole :
      disk.open_file request.path.absolute ≡ some (record { content = content; breaks = false })
  pub all_text : text_lines (buffers content) ≡ some lines
  pub result_is : result ≡ record {
    content = concat (window request.limit lines);
    line_count = length lines;
    content_hash = from_bytes (disk.sha256 content);
    truncated = not (length (window request.limit lines) == length lines);
  }

outcome-eq-ok :
    (path : FilePath) (bs : List (List ℕ)) (lines : Option (List Text)) (r : Reading) {t : Reading}
    → outcome path bs lines r ≡ ok t
    → (ls : List Text) × (lines ≡ some ls) × (t ≡ after bs ls r)
outcome-eq-ok path bs (some lines) r h = (lines, refl, sym (ok-injective h))
outcome-eq-ok path bs none r h = cc

if-eq-ok : (c : Bool) (e : FsError) {a : Unit {0}} → (if c then ok tt else err e) ≡ ok a → c ≡ true
if-eq-ok true e h = refl
if-eq-ok false e h = cc

if-eq-err_free :
    (c : Bool) (e : FsError) {a : Unit {0}} → (if c then err e else ok tt) ≡ ok a → c ≡ false
if-eq-err_free true e h = cc
if-eq-err_free false e h = refl

module _ (disk : ReadsDisk) (fs : Filesystem) (request : ReadTextRequest)
    (valid : IsLimit request.limit) where
  abbrev start : Reading
  start = record { hashed = []; accumulator = accumulator_from request.limit }

  file_size-eq-ok :
      (path : FilePath) (stat : Stat) {size : ℕ}
      → file_size disk fs path stat ≡ ok size
      → stat ≡ regular_file size
  file_size-eq-ok path (regular_file n) h = ap regular_file (ok-injective h)
  file_size-eq-ok path other_kind h = cc
  file_size-eq-ok path missing h = cc
  file_size-eq-ok path unreadable h = cc

  opened-eq-ok :
      (path : FilePath) (o : Option Stream) {s : Stream} → opened disk fs path o ≡ ok s → o ≡ some s
  opened-eq-ok path (some s) h = ap some (ok-injective h)
  opened-eq-ok path none h = cc

  result_lem :
      (content : List ℕ) (lines : List Text)
      → read_result disk.sha256
          ([] ++ concat (buffers content))
          (finish (observe_all lines (accumulator_from request.limit)))
        ≡ record {
          content = concat (window request.limit lines);
          line_count = length lines;
          content_hash = from_bytes (disk.sha256 content);
          truncated = not (length (window request.limit lines) == length lines);
        }
  result_lem content lines =
      ap₂ (read_result disk.sha256) (buffers-concat content)
        (finish-window request.limit lines valid)

  read_text-IsRead :
      {result : ReadTextResult}
      → read_text disk fs request ≡ ok result
      → IsRead disk fs request result
  unfolding read_text
  read_text-IsRead h =
      let path = request.path.absolute in
      let (_, allowed, h1) = bind-eq-ok (check_authorised disk fs request.path) _ h in
      let (size, sized, h2) = bind-eq-ok (file_size disk fs path (disk.stat path)) _ h1 in
      let (l, known, h3) = bind-eq-ok (limits_of fs request.path) _ h2 in
      let (_, small, h4) = bind-eq-ok (check_size disk fs path size request.limit l) _ h3 in
      let (s, open_now, h5) = bind-eq-ok (opened disk fs path (disk.open_file path)) _ h4 in
      let (r, at_end, last) = bind-eq-ok (read_stream path s start) _ h5 in
      let whole =
        last_breaks path s.breaks _ (read_buffers path (raw_lines s.content).0 start) at_end in
      let (lines, all_text, same) =
        outcome-eq-ok path (buffers s.content) _ start
          (sym (read_stream_lem path s start whole) ∙ at_end) in
      record {
        size = size;
        limits = l;
        content = s.content;
        lines = lines;
        authorised = if-eq-ok (authorises fs.roots request.path) _ allowed;
        is_file = file_size-eq-ok path (disk.stat path) sized;
        limits_known = known;
        small = if-eq-err_free (ltb l.max_read_bytes size && is_none request.limit) _ small;
        open_whole =
            opened-eq-ok path (disk.open_file path) open_now
            ∙ ap (λ b. some (record { content = s.content; breaks = b })) whole;
        all_text = all_text;
        result_is =
            sym (ok-injective last)
            ∙ ap (λ t. read_result disk.sha256 t.hashed (finish t.accumulator)) same
            ∙ result_lem s.content lines;
      }

  IsRead-read_text :
      {result : ReadTextResult}
      → IsRead disk fs request result
      → read_text disk fs request ≡ ok result
  unfolding read_text ◌>>=◌
  IsRead-read_text r =
      rw (r.authorised, r.is_file, r.limits_known, r.small, r.open_whole)
        (ap (λ m. m >>= λ t. ok (read_result disk.sha256 t.hashed (finish t.accumulator)))
            (read_stream_lem request.path.absolute (record { content = r.content; breaks = false })
              start refl)
          ∙ rw r.all_text (ap ok (result_lem r.content r.lines) ∙ ap ok (sym r.result_is)))

  -- If a given range of lines is one that `LineRange` accepts, `read_text` succeeds exactly when the
  -- path is authorised, a regular file is there whose root has limits and which is not larger than
  -- they allow or of which only a part is wanted, it can be opened and read to its end, and all its
  -- lines are valid UTF-8 without a zero byte. It then returns the lines of the window, the number
  -- of all lines, the hash of the whole content whatever the window, and whether lines are missing.
  pub read_text_iff :
      (result : ReadTextResult)
      → (read_text disk fs request ≡ ok result) ↔ IsRead disk fs request result
  read_text_iff result = (read_text-IsRead, IsRead-read_text)
