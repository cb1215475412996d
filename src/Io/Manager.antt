-- ===== src/Io/Manager.antt =====
-- src/server/io_manager.hpp and src/server_app/default_io_manager.hpp: the files of the server,
-- under its root path. The `unique_ptr<reader>` that a manager returns points to one of two classes.
pub mod Readers
pub mod Writers
pub mod Paths
use octnet_tftp.Base.{
  ℕ, Bool, true, false, ◌&&◌, ◌||◌, Option, none, some, [], ◌∷◌, ◌++◌, Bytes, ◌==◌, if◌then◌else◌,
  codes,
}
use octnet_tftp.Io.Interface.{ReaderOps, WriterOps}
use octnet_tftp.Io.Text.{equal_ignore_case}
use octnet_tftp.Io.File.{
  FileReader, FileWriter, FileSystem, open_file_reader, open_file_writer, file_reader_ops,
  file_writer_ops,
}
use octnet_tftp.Io.Netascii.{
  NetasciiReader, NetasciiWriter, netascii_reader_ops, netascii_writer_ops,
}

pub data Reader : Type 0 where
  file : FileReader → Reader
  netascii : NetasciiReader FileReader → Reader

pub data Writer : Type 0 where
  file : FileWriter → Writer
  netascii : NetasciiWriter FileWriter → Writer

-- Calls through the virtual functions of `reader`.
abbrev reader_is_open : Reader → Bool
reader_is_open (Reader.file r) = file_reader_ops.is_open r
reader_is_open (Reader.netascii r) = netascii_reader_ops.is_open r

abbrev reader_read : Reader → ℕ → Option Bytes × Reader
reader_read (Reader.file r) n =
    let (result, r') = file_reader_ops.read r n in (result, Reader.file r')
reader_read (Reader.netascii r) n =
    let (result, r') = netascii_reader_ops.read r n in (result, Reader.netascii r')

abbrev reader_close : Reader → Bool × Reader
reader_close (Reader.file r) = let (done, r') = file_reader_ops.close r in (done, Reader.file r')
reader_close (Reader.netascii r) =
    let (done, r') = netascii_reader_ops.close r in (done, Reader.netascii r')

instance abbrev pub reader_ops : ReaderOps Reader
reader_ops = record { is_open = reader_is_open; read = reader_read; close = reader_close }

-- Calls through those of `writer`.
abbrev writer_is_open : Writer → Bool
writer_is_open (Writer.file w) = file_writer_ops.is_open w
writer_is_open (Writer.netascii w) = netascii_writer_ops.is_open w

abbrev writer_write : Writer → Bytes → Bool × Writer
writer_write (Writer.file w) bytes =
    let (done, w') = file_writer_ops.write w bytes in (done, Writer.file w')
writer_write (Writer.netascii w) bytes =
    let (done, w') = netascii_writer_ops.write w bytes in (done, Writer.netascii w')

abbrev writer_close : Writer → Bool × Writer
writer_close (Writer.file w) = let (done, w') = file_writer_ops.close w in (done, Writer.file w')
writer_close (Writer.netascii w) =
    let (done, w') = netascii_writer_ops.close w in (done, Writer.netascii w')

instance abbrev pub writer_ops : WriterOps Writer
writer_ops = record { is_open = writer_is_open; write = writer_write; close = writer_close }

-- The interface: each function takes a file name and a mode, and `none` is a null pointer.
pub record IoManager (R W : Type 0) : Type 0 where
  pub create_reader : Bytes → Bytes → Option R
  pub create_writer : Bytes → Bytes → Option W

pub open_reader : FileSystem → Bytes → Bytes → Option Reader
open_reader fs path mode =
    if equal_ignore_case mode (codes "octet")
    then some (Reader.file (open_file_reader fs path))
    else if equal_ignore_case mode (codes "netascii")
    then some (Reader.netascii (record { peer = open_file_reader fs path; pending_char = 0 }))
    else none

pub open_writer : FileSystem → Bytes → Bytes → Option Writer
open_writer fs path mode =
    if equal_ignore_case mode (codes "octet")
    then some (Writer.file (open_file_writer fs path))
    else if equal_ignore_case mode (codes "netascii")
    then some (Writer.netascii (record { peer = open_file_writer fs path; pending_cr = false }))
    else none

-- `filename.find("..") != npos`
pub has_dots : Bytes → Bool
has_dots [] = false
has_dots (a ∷ []) = false
has_dots (a ∷ b ∷ rest) = ((a == b'.') && (b == b'.')) || has_dots (b ∷ rest)

pub create_reader : FileSystem → Bytes → Bytes → Bytes → Option Reader
unfolding open_reader has_dots
create_reader fs root_path filename mode =
    if has_dots filename then none else open_reader fs (root_path ++ b'/' ∷ filename) mode

pub create_writer : FileSystem → Bytes → Bytes → Bytes → Option Writer
unfolding open_writer has_dots
create_writer fs root_path filename mode =
    if has_dots filename then none else open_writer fs (root_path ++ b'/' ∷ filename) mode

-- The class `default_io_manager`, by its root path.
unfoldable pub default_io_manager : FileSystem → Bytes → IoManager Reader Writer
unfolding create_reader create_writer
default_io_manager fs root_path = record {
  create_reader = create_reader fs root_path;
  create_writer = create_writer fs root_path;
}
