-- ===== src/Io/File/Laws.antt =====
-- The file reader and the file writer obey the laws of their interfaces.
use octnet_tftp.Base.{
  ℕ, ◌+◌, ◌≤◌, ◌<◌, ◌≡◌, ◌⊎◌, inl, inr, refl, Bool, true, false, Option, none, some, [], ◌∷◌, ◌++◌,
  Bytes, take, drop, length, take_all, drop_all, arith, ◌==◌, ==_iff, Bool-cases, subst, sym, ap,
}
use octnet_tftp.Io.Interface.{ReaderLaws, WriterLaws}
use octnet_tftp.Io.File.{
  InputStream, OutputStream, FileReader, FileWriter, file_reader_ops, file_writer_ops,
  file_contents, file_broken, read_file, write_file, is_open, read_stream, file_written, file_room,
}

abbrev opened : InputStream → FileReader
opened s = record { handle = some s }

-- A read that delivers, and one that meets an error.
abbrev Delivers : FileReader → ℕ → Option Bytes × FileReader → Type 0
Delivers r n result =
    (result.0 ≡ some (take n (file_contents r)))
    × (is_open result.1 ≡ true)
    × (file_contents result.1 ≡ drop n (file_contents r))
    × (file_broken result.1 ≡ file_broken r)

abbrev Fails : Option Bytes × FileReader → Type 0
Fails result =
    (result.0 ≡ none)
    × (is_open result.1 ≡ true)
    × (file_contents result.1 ≡ [])
    × (file_broken result.1 ≡ true)

abbrev Sound : FileReader → ℕ → Type 0
Sound r n = (n ≤ length (file_contents r)) ⊎ (file_broken r ≡ false)

read_char_Delivers :
    (content : Bytes) (s : InputStream)
    → s.content ≡ content
    → Sound (opened s) 1
    → Delivers (opened s) 1 (read_stream s 1)
unfolding read_stream
read_char_Delivers [] s e h = ground arith
read_char_Delivers (c ∷ rest) s e h = ground arith

read_block_Delivers :
    (s : InputStream) (n : ℕ)
    → (n == 1) ≡ false
    → 0 < n
    → Sound (opened s) n
    → Delivers (opened s) n (read_stream s n)
unfolding read_stream
read_block_Delivers s n e p h = ground (arith, take_all n s.content, drop_all n s.content)

read_char_Fails :
    (content : Bytes) (s : InputStream)
    → s.content ≡ content
    → length (file_contents (opened s)) < 1
    → file_broken (opened s) ≡ true
    → Fails (read_stream s 1)
unfolding read_stream
read_char_Fails [] s e h k = ground arith
read_char_Fails (c ∷ rest) s e h k = ground arith

read_block_Fails :
    (s : InputStream) (n : ℕ)
    → (n == 1) ≡ false
    → length (file_contents (opened s)) < n
    → file_broken (opened s) ≡ true
    → Fails (read_stream s n)
unfolding read_stream
read_block_Fails s n e h k = ground arith

read_stream-Delivers :
    (s : InputStream) (n : ℕ) → 0 < n → Sound (opened s) n → Delivers (opened s) n (read_stream s n)
read_stream-Delivers s n p h = elim (Bool-cases (n == 1)) [
  | inl e ↦
      let one : n ≡ 1 = (==_iff n 1).0 e in
      subst (λ k. Sound (opened s) k → Delivers (opened s) k (read_stream s k)) (sym one)
        (read_char_Delivers s.content s refl) h
  | inr e ↦ read_block_Delivers s n e p h
]

read_stream-Fails :
    (s : InputStream) (n : ℕ)
    → length (file_contents (opened s)) < n
    → file_broken (opened s) ≡ true
    → Fails (read_stream s n)
read_stream-Fails s n h k = elim (Bool-cases (n == 1)) [
  | inl e ↦
      let one : n ≡ 1 = (==_iff n 1).0 e in
      subst (λ k. length (file_contents (opened s)) < k → Fails (read_stream s k)) (sym one)
        (λ short. read_char_Fails s.content s refl short k) h
  | inr e ↦ read_block_Fails s n e h k
]

-- For any state of the handle.
pub read_file_ok :
    (handle : Option InputStream) (n : ℕ)
    → let r : FileReader = record { handle = handle } in
      is_open r ≡ true → 0 < n → Sound r n → Delivers r n (read_file r n)
unfolding read_file
read_file_ok none n o p h = cc
read_file_ok (some s) n o p h = read_stream-Delivers s n p h

pub read_file_broken :
    (handle : Option InputStream) (n : ℕ)
    → let r : FileReader = record { handle = handle } in
      is_open r ≡ true → length (file_contents r) < n → file_broken r ≡ true → Fails (read_file r n)
unfolding read_file
read_file_broken none n o h k = cc
read_file_broken (some s) n o h k = read_stream-Fails s n h k

-- A file delivers the content of its stream in order, whatever the sizes of the reads, and an
-- error of the stream makes the read fail that meets it.
abbrev pub file_reader_laws : ReaderLaws FileReader file_reader_ops
file_reader_laws = record {
  contents = file_contents;
  broken = file_broken;
  read_ok = λ r n o p h.
      let (e, o', c, b) = read_file_ok r.handle n o p h in
      ((read_file r n).1, ap (λ x. (x, (read_file r n).1)) e, o', c, b);
  read_broken = λ r n o h k.
      let (e, o', c, b) = read_file_broken r.handle n o h k in
      ((read_file r n).1, ap (λ x. (x, (read_file r n).1)) e, o', c, b);
}

abbrev Fits : FileWriter → Bytes → Bool × FileWriter → Type 0
Fits w bytes result =
    (result.0 ≡ true)
    × (is_open result.1 ≡ true)
    × (file_written result.1 ≡ file_written w ++ bytes)
    × (file_room result.1 + length bytes ≡ file_room w)

pub write_file-Fits :
    (handle : Option OutputStream) (bytes : Bytes)
    → let w : FileWriter = record { handle = handle } in
      is_open w ≡ true → length bytes ≤ file_room w → Fits w bytes (write_file w bytes)
unfolding write_file
write_file-Fits none bytes o h = cc
write_file-Fits (some s) bytes o h = ground arith

pub write_file_full :
    (handle : Option OutputStream) (bytes : Bytes)
    → let w : FileWriter = record { handle = handle } in
      is_open w ≡ true → file_room w < length bytes → (write_file w bytes).0 ≡ false
unfolding write_file
write_file_full none bytes o h = cc
write_file_full (some s) bytes o h = ground arith

-- A file takes all bytes of a write, or the write fails.
abbrev pub file_writer_laws : WriterLaws FileWriter file_writer_ops
file_writer_laws = record {
  written = file_written;
  room = file_room;
  write_fits = λ w bytes o h.
      let (e, o', c, b) = write_file-Fits w.handle bytes o h in
      ((write_file w bytes).1, ap (λ x. (x, (write_file w bytes).1)) e, o', c, b);
  write_full = λ w bytes o h. write_file_full w.handle bytes o h;
}
