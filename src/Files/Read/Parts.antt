-- ===== src/Files/Read/Parts.antt =====
-- What reading a file line by line comes to (crates/contextos-fs/src/read.rs).
use context_os_mcp.Prelude.{
  Bool, List, Option, Result, Text, [], ap, append-nil, append_assoc, bind-eq-ok, contains, err,
  false, fun_ext, if◌then◌else◌, lines, nat_eq, none, ok, refl, some, sym, true, ℕ, ◌++◌, ◌==◌,
  ◌>>=◌, ◌∙◌, ◌∷◌, ◌≡◌,
}
use context_os_mcp.FilePath.{FilePath}
use context_os_mcp.Files.Error.{FsError, binary}
use context_os_mcp.Files.Read.Utf8.{from_utf8}
use context_os_mcp.Files.Read.{
  observe, concat, Stream, raw_lines, add_byte, Reading, read_buffer, decoded, read_buffers,
  read_last, read_stream,
}
use context_os_mcp.Files.Read.Window.{observe_all}

-- The buffers that `read_until` fills, and the line of one: none for binary content.
abbrev add_rest : List (List ℕ) × List ℕ → List (List ℕ)
add_rest (lines, []) = lines
add_rest (lines, b ∷ rest) = lines ++ (b ∷ rest) ∷ []

abbrev pub buffers : List ℕ → List (List ℕ)
buffers content = add_rest (raw_lines content)

abbrev pub text_line : List ℕ → Option Text
text_line buffer = if contains 0 buffer then none else from_utf8 buffer

abbrev with_line : Option Text → Option (List Text) → Option (List Text)
with_line (some line) (some lines) = some (line ∷ lines)
with_line none lines = none
with_line (some line) none = none

abbrev pub text_lines : List (List ℕ) → Option (List Text)
text_lines [] = some []
text_lines (buffer ∷ buffers) = with_line (text_line buffer) (text_lines buffers)

add_byte-concat :
    (newline : Bool) (b : ℕ) (parts : List (List ℕ) × List ℕ)
    → concat (add_byte newline b parts).0 ++ (add_byte newline b parts).1
      ≡ b ∷ (concat parts.0 ++ parts.1)
add_byte-concat true b (lines, rest) = refl
add_byte-concat false b ([], rest) = refl
add_byte-concat false b (line ∷ lines, rest) = refl

raw_lines-concat :
    (content : List ℕ) → concat (raw_lines content).0 ++ (raw_lines content).1 ≡ content
unfolding raw_lines
raw_lines-concat [] = refl
raw_lines-concat (b ∷ bs) =
    add_byte-concat (b == b'\n') b (raw_lines bs) ∙ ap (λ cs. b ∷ cs) (raw_lines-concat bs)

-- What the loop has after buffers whose lines are these.
abbrev pub after : List (List ℕ) → List Text → Reading → Reading
after bs lines r = record {
  hashed = r.hashed ++ concat bs;
  accumulator = observe_all lines r.accumulator;
}

abbrev pub outcome :
    FilePath → List (List ℕ) → Option (List Text) → Reading → Result FsError Reading
outcome path bs none r = err (binary path)
outcome path bs (some lines) r = ok (after bs lines r)

decoded_if :
    (c : Bool) (path : FilePath) (line : Option Text) (r : Reading)
    → (if c then err (binary path) else decoded path line r)
      ≡ decoded path (if c then none else line) r
decoded_if true path line r = refl
decoded_if false path line r = refl

hashing : List ℕ → Reading → Reading
hashing buffer r = record r { hashed = r.hashed ++ buffer }

outcome-cons :
    (path : FilePath) (b : List ℕ) (bs : List (List ℕ)) (line : Text) (rest : Option (List Text))
    (r : Reading)
    → outcome path bs rest (record (hashing b r) { accumulator = observe line r.accumulator })
      ≡ outcome path (b ∷ bs) (with_line (some line) rest) r
unfolding hashing
outcome-cons path b bs line none r = refl
outcome-cons path b bs line (some lines) r =
    ap
      (λ h.
        ok (record { hashed = h; accumulator = observe_all lines (observe line r.accumulator) }))
      (append_assoc r.hashed b (concat bs))

read_next_lem :
    (path : FilePath) (b : List ℕ) (bs : List (List ℕ)) (line : Option Text) (r : Reading)
    → ((s : Reading) → read_buffers path bs s ≡ outcome path bs (text_lines bs) s)
    → (decoded path line (hashing b r) >>= read_buffers path bs)
      ≡ outcome path (b ∷ bs) (with_line line (text_lines bs)) r
unfolding ◌>>=◌ hashing
read_next_lem path b bs none r rest = refl
read_next_lem path b bs (some line) r rest = rest _ ∙ outcome-cons path b bs line (text_lines bs) r

-- Binary content is refused at its first buffer; text goes to the accumulator line by line.
read_buffers_lem :
    (path : FilePath) (bs : List (List ℕ)) (r : Reading)
    → read_buffers path bs r ≡ outcome path bs (text_lines bs) r
unfolding read_buffers read_buffer hashing ◌>>=◌
read_buffers_lem path [] r = ap (λ h. ok (record r { hashed = h })) (sym (append-nil r.hashed))
read_buffers_lem path (b ∷ bs) r =
    ap (λ m. m >>= read_buffers path bs)
      (decoded_if (contains 0 b) path (from_utf8 b) (hashing b r))
    ∙ read_next_lem path b bs (text_line b) r (read_buffers_lem path bs)

bind-ok : {A : Type 0} (m : Result FsError A) → (m >>= ok) ≡ m
unfolding ◌>>=◌
bind-ok (ok a) = refl
bind-ok (err e) = refl

bind_assoc :
    {A B C : Type 0} (m : Result FsError A) (f : A → Result FsError B) (g : B → Result FsError C)
    → ((m >>= f) >>= g) ≡ (m >>= λ a. f a >>= g)
unfolding ◌>>=◌
bind_assoc (ok a) f g = refl
bind_assoc (err e) f g = refl

read_buffers-append :
    (path : FilePath) (xs ys : List (List ℕ)) (r : Reading)
    → (read_buffers path xs r >>= read_buffers path ys) ≡ read_buffers path (xs ++ ys) r
unfolding read_buffers ◌>>=◌
read_buffers-append path [] ys r = refl
read_buffers-append path (x ∷ xs) ys r =
    bind_assoc (read_buffer path x r) (read_buffers path xs) (read_buffers path ys)
    ∙ ap (λ f. read_buffer path x r >>= f) (fun_ext (read_buffers-append path xs ys))

read_parts :
    (path : FilePath) (parts : List (List ℕ) × List ℕ) (r : Reading)
    → (read_buffers path parts.0 r >>= read_last path false parts.1)
      ≡ read_buffers path (add_rest parts) r
unfolding read_buffers
read_parts path (lines, []) r =
    ap (λ f. read_buffers path lines r >>= f) (fun_ext (λ s. refl))
    ∙ bind-ok (read_buffers path lines r)
read_parts path (lines, b ∷ rest) r =
    ap (λ f. read_buffers path lines r >>= f)
      (fun_ext (λ s. sym (bind-ok (read_buffer path (b ∷ rest) s))))
    ∙ read_buffers-append path lines ((b ∷ rest) ∷ []) r

-- A stream that does not break is read as one list of buffers.
pub read_stream_lem :
    (path : FilePath) (s : Stream) (r : Reading)
    → s.breaks ≡ false
    → read_stream path s r ≡ outcome path (buffers s.content) (text_lines (buffers s.content)) r
read_stream_lem path s r whole =
    rw whole (read_parts path (raw_lines s.content) r) ∙ read_buffers_lem path (buffers s.content) r

pub last_breaks :
    (path : FilePath) (breaks : Bool) (rest : List ℕ) (m : Result FsError Reading) {t : Reading}
    → (m >>= read_last path breaks rest) ≡ ok t
    → breaks ≡ false
last_breaks path true rest m h = cc (bind-eq-ok m _ h).2
last_breaks path false rest m h = refl

concat-append_rest :
    (lines : List (List ℕ)) (rest : List ℕ) → concat (lines ++ rest ∷ []) ≡ concat lines ++ rest
concat-append_rest [] rest = append-nil rest
concat-append_rest (l ∷ lines) rest =
    ap (λ t. l ++ t) (concat-append_rest lines rest) ∙ sym (append_assoc l (concat lines) rest)

add_rest-concat :
    (parts : List (List ℕ) × List ℕ) → concat (add_rest parts) ≡ concat parts.0 ++ parts.1
add_rest-concat (lines, []) = sym (append-nil (concat lines))
add_rest-concat (lines, b ∷ rest) = concat-append_rest lines (b ∷ rest)

pub buffers-concat : (content : List ℕ) → concat (buffers content) ≡ content
buffers-concat content = add_rest-concat (raw_lines content) ∙ raw_lines-concat content
