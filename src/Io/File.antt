-- ===== src/Io/File.antt =====
-- src/common/file_io.hpp, over the `FILE` streams of the C library. A stream opened for reading
-- delivers `content`, then meets its end or, if `faulty`, an error, which sets the error flag; one
-- opened for writing takes `room` more bytes.
pub mod Laws
use octnet_tftp.Base.{
  ℕ, ◌+◌, ◌-◌, ◌≤◌, ◌<◌, ◌≡◌, ◌⊎◌, inl, inr, refl, Bool, true, false, not, ◌||◌, Option, none, some,
  [], ◌∷◌, ◌++◌, Bytes, take, drop, length, leb, ltb, ◌==◌, if◌then◌else◌, codes, arith,
}
use octnet_tftp.Io.Interface.{ReaderOps, WriterOps, ReaderLaws, WriterLaws}

pub record InputStream : Type 0 where
  pub content : Bytes
  pub faulty : Bool
  pub error : Bool
  pub closes : Bool

pub record OutputStream : Type 0 where
  pub written : Bytes
  pub room : ℕ
  pub closes : Bool

-- `fopen` by path and mode; `none` is a null pointer.
pub record FileSystem : Type 0 where
  pub open_input : Bytes → Bytes → Option InputStream
  pub open_output : Bytes → Bytes → Option OutputStream

-- `EOF` is `none`.
fgetc : InputStream → Option ℕ × InputStream
fgetc s = elim s.content [
  | [] ↦ (none, record s { error = s.error || s.faulty })
  | c ∷ rest ↦ (some c, record s { content = rest })
]

fread : InputStream → ℕ → Bytes × InputStream
fread s n =
    if ltb (length s.content) n
    then (s.content, record s { content = []; error = s.error || s.faulty })
    else (take n s.content, record s { content = drop n s.content })

-- Returns how many bytes were written.
fwrite : OutputStream → Bytes → ℕ × OutputStream
fwrite s bytes =
    if leb (length bytes) s.room
    then (length bytes, record s { written = s.written ++ bytes; room = s.room - length bytes })
    else (s.room, record s { written = s.written ++ take s.room bytes; room = 0 })

-- `file_wrapper`: `none` is a null handle.
pub record FileWrapper (H : Type 0) : Type 0 where
  pub handle : Option H

module _ {H : Type 0} where
  abbrev pub open_file : (Bytes → Bytes → Option H) → Bytes → Bytes → FileWrapper H
  open_file fopen path mode = record { handle = fopen path mode }

  abbrev pub is_open : FileWrapper H → Bool
  is_open f = elim f.handle [ none ↦ false | some h ↦ true ]

  -- `fclose` tells whether the stream closed well.
  abbrev pub close : (H → Bool) → FileWrapper H → Bool × FileWrapper H
  close fclose f = elim f.handle [
    | none ↦ (true, f)
    | some h ↦ (fclose h, record { handle = none })
  ]

abbrev pub FileReader : Type 0
FileReader = FileWrapper InputStream

abbrev pub FileWriter : Type 0
FileWriter = FileWrapper OutputStream

abbrev pub open_file_reader : FileSystem → Bytes → FileReader
open_file_reader fs path = open_file fs.open_input path (codes "rb")

abbrev pub open_file_writer : FileSystem → Bytes → FileWriter
open_file_writer fs path = open_file fs.open_output path (codes "wb")

-- The result of a `read` after which the stream is `s`.
abbrev checked : Bytes → InputStream → Option Bytes × FileReader
checked bytes s = (if s.error then none else some bytes, record { handle = some s })

read_stream : InputStream → ℕ → Option Bytes × FileReader
unfolding fgetc fread
read_stream s buffer_size =
    if buffer_size == 1
    then (let (c, s') = fgetc s in checked (elim c [ none ↦ [] | some b ↦ b ∷ [] ]) s')
    else (let (bytes, s') = fread s buffer_size in checked bytes s')

pub read_file : FileReader → ℕ → Option Bytes × FileReader
unfolding read_stream
read_file r buffer_size = elim r.handle [ none ↦ (none, r) | some s ↦ read_stream s buffer_size ]

pub write_file : FileWriter → Bytes → Bool × FileWriter
unfolding fwrite
write_file w bytes = elim w.handle [
  | none ↦ (false, w)
  | some s ↦
      let (count, s') = fwrite s bytes in (count == length bytes, record { handle = some s' })
]

instance abbrev pub file_reader_ops : ReaderOps FileReader
file_reader_ops = record { is_open = is_open; read = read_file; close = close (λ s. s.closes) }

instance abbrev pub file_writer_ops : WriterOps FileWriter
file_writer_ops = record { is_open = is_open; write = write_file; close = close (λ s. s.closes) }

-- After an error nothing more is delivered.
abbrev pub file_contents : FileReader → Bytes
file_contents r = elim r.handle [ none ↦ [] | some s ↦ if s.error then [] else s.content ]

abbrev pub file_broken : FileReader → Bool
file_broken r = elim r.handle [ none ↦ false | some s ↦ s.error || s.faulty ]

abbrev pub file_written : FileWriter → Bytes
file_written w = elim w.handle [ none ↦ [] | some s ↦ s.written ]

abbrev pub file_room : FileWriter → ℕ
file_room w = elim w.handle [ none ↦ 0 | some s ↦ s.room ]
