-- ===== src/Io/Tests.antt =====
-- Files, netascii and names at concrete inputs.
use octnet_tftp.Base.{◌≡◌, ◌↔◌, refl, true, false, [], ◌∷◌, some, none, codes, arith}
use octnet_tftp.Io.Interface.{write_blocks}
use octnet_tftp.Io.File.{
  InputStream, FileReader, FileWriter, FileSystem, file_reader_ops, file_writer_ops,
}
use octnet_tftp.Io.File.Laws.{file_reader_laws, file_writer_laws}
use octnet_tftp.Io.Netascii.{
  NetasciiReader, NetasciiWriter, netascii_writer_ops, read_chars, write_chars, writer_is_open,
}
use octnet_tftp.Io.Netascii.Reading.{read_chars-Delivers, Delivers}
use octnet_tftp.Io.Netascii.Writing.{write_blocks-encode, write_chars_bare_cr, netascii_state}
use octnet_tftp.Io.Manager.{Reader, create_reader, reader_ops, writer_ops}
use octnet_tftp.Io.Manager.Paths.{create_reader-Opens, HasDots, Opens}

-- "a" LF "b", then an error of the stream.
abbrev stream : InputStream
stream = record { content = 97 ∷ 10 ∷ 98 ∷ []; faulty = true; error = false; closes = true }

abbrev file_of : InputStream → FileReader
file_of s = record { handle = some s }

abbrev netascii_file : NetasciiReader FileReader
netascii_file = record { peer = file_of stream; pending_char = 0 }

abbrev empty_file : FileWriter
empty_file = record { handle = some (record { written = []; room = 100; closes = true }) }

abbrev netascii_writer : NetasciiWriter FileWriter
netascii_writer = record { peer = empty_file; pending_cr = false }

read_chars-Delivers_example : Delivers file_reader_laws netascii_file 9 (read_chars netascii_file 9)
read_chars-Delivers_example = read_chars-Delivers file_reader_laws netascii_file 9 refl

-- The pair CR LF is cut between two writes.
write_blocks-encode_example :
    ((write_blocks netascii_writer ((97 ∷ 13 ∷ []) ∷ (10 ∷ 98 ∷ []) ∷ [])).0 ≡ true)
    × (writer_is_open (write_blocks netascii_writer ((97 ∷ 13 ∷ []) ∷ (10 ∷ 98 ∷ []) ∷ [])).1
        ≡ true)
    × (netascii_state file_writer_laws
          (write_blocks netascii_writer ((97 ∷ 13 ∷ []) ∷ (10 ∷ 98 ∷ []) ∷ [])).1
        ≡ (97 ∷ 10 ∷ 98 ∷ [], false))
write_blocks-encode_example =
    write_blocks-encode file_writer_laws netascii_writer (97 ∷ 10 ∷ 98 ∷ [])
      ((97 ∷ 13 ∷ []) ∷ (10 ∷ 98 ∷ []) ∷ []) refl refl refl (omega arith)

write_chars_bare_cr_example :
    ((write_chars netascii_writer (13 ∷ 65 ∷ 10 ∷ [])).0 ≡ true)
    × (netascii_state file_writer_laws (write_chars netascii_writer (13 ∷ 65 ∷ 10 ∷ [])).1
        ≡ (65 ∷ 10 ∷ [], false))
write_chars_bare_cr_example =
    write_chars_bare_cr file_writer_laws netascii_writer 65 refl refl (omega arith) (omega arith)
      (omega arith) (omega arith)

abbrev disk : FileSystem
disk = record { open_input = λ path mode. some stream; open_output = λ path mode. none }

create_reader-Opens_example :
    (create_reader disk (codes "root") (codes "f") (codes "octet")
      ≡ some (Reader.file (file_of stream)))
    ↔ ((¬ HasDots (codes "f"))
        × Opens disk (codes "root") (codes "f") (codes "octet") (Reader.file (file_of stream)))
create_reader-Opens_example =
    create_reader-Opens disk (codes "root") (codes "f") (codes "octet")
      (Reader.file (file_of stream))
