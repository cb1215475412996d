-- ===== src/Io/Manager/Readers.antt =====
-- The readers that the manager returns obey the laws of a reader.
use octnet_tftp.Base.{
  ℕ, ◌<◌, ◌≤◌, ◌≡◌, ◌⊎◌, Bool, true, false, Bytes, ap, [], some, none, take, drop, length,
}
use mathlib.Core.Bool.{false≢true}
use octnet_tftp.Io.Interface.{ReaderLaws}
use octnet_tftp.Io.File.Laws.{file_reader_laws}
use octnet_tftp.Io.Netascii.Reading.{netascii_reader_laws}
use octnet_tftp.Io.File.{file_reader_ops}
use octnet_tftp.Io.Manager.{Reader, reader_ops}

-- What a reader will deliver: the file, or its encoding.
abbrev pub reader_contents : Reader → Bytes
reader_contents (Reader.file r) = file_reader_laws.contents r
reader_contents (Reader.netascii r) = (netascii_reader_laws file_reader_laws).contents r

abbrev pub reader_broken : Reader → Bool
reader_broken (Reader.file r) = file_reader_laws.broken r
reader_broken (Reader.netascii r) = false

-- An open reader of either class, asked for at least one byte, delivers that much of its contents, or
-- all of them if they are shorter, keeps the rest, and stays open, unless they are shorter and the
-- file fails at its end.
pub reader_read_ok :
    (r : Reader) (n : ℕ)
    → reader_ops.is_open r ≡ true
    → 0 < n
    → (n ≤ length (reader_contents r)) ⊎ (reader_broken r ≡ false)
    → (r' : Reader) × (reader_ops.read r n ≡ (some (take n (reader_contents r)), r'))
      × (reader_ops.is_open r' ≡ true)
      × (reader_contents r' ≡ drop n (reader_contents r))
      × (reader_broken r' ≡ reader_broken r)
reader_read_ok (Reader.file r) n o p h =
    let (r', e, o', c, b) = file_reader_laws.read_ok r n o p h in
    (Reader.file r', ap (λ x. (x.0, Reader.file x.1)) e, o', c, b)
reader_read_ok (Reader.netascii r) n o p h =
    let (r', e, o', c, b) = (netascii_reader_laws file_reader_laws).read_ok r n o p h in
    (Reader.netascii r', ap (λ x. (x.0, Reader.netascii x.1)) e, o', c, b)

pub reader_read_broken :
    (r : Reader) (n : ℕ)
    → reader_ops.is_open r ≡ true
    → length (reader_contents r) < n
    → reader_broken r ≡ true
    → (r' : Reader) × (reader_ops.read r n ≡ (none, r'))
      × (reader_ops.is_open r' ≡ true)
      × (reader_contents r' ≡ [])
      × (reader_broken r' ≡ true)
reader_read_broken (Reader.file r) n o h k =
    let (r', e, o', c, b) = file_reader_laws.read_broken r n o h k in
    (Reader.file r', ap (λ x. (x.0, Reader.file x.1)) e, o', c, b)
reader_read_broken (Reader.netascii r) n o h k = absurd (false≢true k)

-- The contents are those of the file, or their netascii encoding; only the file reader fails.
abbrev pub reader_laws : ReaderLaws Reader reader_ops
reader_laws = record {
  contents = reader_contents;
  broken = reader_broken;
  read_ok = reader_read_ok;
  read_broken = reader_read_broken;
}
