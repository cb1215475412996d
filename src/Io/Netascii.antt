-- ===== src/Io/Netascii.antt =====
-- src/common/netascii_io.hpp, over any peer reader or writer. Characters are bytes: CR is 13, LF is
-- 10, and NUL is 0.
pub mod Encoding
pub mod Reading
pub mod Writing
use octnet_tftp.Base.{
  ℕ, zero, suc, Bool, true, false, ◌||◌, ◌&&◌, Option, none, some, [], ◌∷◌, Bytes, ◌==◌,
  if◌then◌else◌,
}
use octnet_tftp.Base.Int.{ℤ, pos, negsuc, is_pos, is_zero}
use octnet_tftp.Io.Interface.{ReaderOps, WriterOps}

abbrev pub cr : ℕ
cr = 13

abbrev pub lf : ℕ
lf = 10

pub record NetasciiReader (P : Type 0) : Type 0 where
  pub peer : P
  pub pending_char : ℕ

pub record NetasciiWriter (P : Type 0) : Type 0 where
  pub peer : P
  pub pending_cr : Bool

module _ {P : Type 0} ⦃ops : ReaderOps P⦄ where
  abbrev pub reader_is_open : NetasciiReader P → Bool
  reader_is_open r = ops.is_open r.peer

  abbrev pub reader_close : NetasciiReader P → Bool × NetasciiReader P
  reader_close r = let (done, peer) = ops.close r.peer in (done, record r { peer = peer })

  -- The result of the peer's `read` of one character. `return false` in a function into `int` gives
  -- 0, the value for the end of the file.
  pub read_peer_char : Option Bytes × P → NetasciiReader P → ℤ × ℕ × NetasciiReader P
  read_peer_char (none, peer) r = (pos 0, 0, record r { peer = peer })
  read_peer_char (some [], peer) r = (pos 0, 0, record r { peer = peer })
  read_peer_char (some (c ∷ []), peer) r =
      if (c == lf) || (c == cr)
      then (pos 1, cr, record { peer = peer; pending_char = c })
      else (pos 1, c, record r { peer = peer })
  read_peer_char (some (c ∷ d ∷ more), peer) r = (negsuc 0, c, record r { peer = peer })

  -- The result, the character and the new state.
  pub read_char : NetasciiReader P → ℤ × ℕ × NetasciiReader P
  unfolding read_peer_char
  read_char r =
      if r.pending_char == lf
      then (pos 1, lf, record r { pending_char = 0 })
      else if r.pending_char == cr
      then (pos 1, 0, record r { pending_char = 0 })
      else read_peer_char (ops.read r.peer 1) r

  -- One more character before those that a loop has read.
  abbrev pub push : ℕ → Option Bytes × NetasciiReader P → Option Bytes × NetasciiReader P
  push c (none, r) = (none, r)
  push c (some bytes, r) = (some (c ∷ bytes), r)

  -- The loop of `read`, on the characters that still fit.
  pub read_chars : NetasciiReader P → ℕ → Option Bytes × NetasciiReader P
  read_chars r zero = (some [], r)
  read_chars r (suc room) =
      let (rv, c, r') = read_char r in
      let rest : Option Bytes × NetasciiReader P = read_chars r' room in
      if is_pos rv then push c rest else if is_zero rv then (some [], r') else (none, r')

  instance abbrev pub netascii_reader_ops : ReaderOps (NetasciiReader P)
  netascii_reader_ops = record { is_open = reader_is_open; read = read_chars; close = reader_close }

module _ {P : Type 0} ⦃ops : WriterOps P⦄ where
  abbrev pub writer_is_open : NetasciiWriter P → Bool
  writer_is_open w = ops.is_open w.peer

  -- `write_cr` and the other one-character writes.
  abbrev pub write_peer : ℕ → NetasciiWriter P → Bool × NetasciiWriter P
  write_peer c w = let (done, peer) = ops.write w.peer (c ∷ []) in (done, record w { peer = peer })

  pub write_cr : NetasciiWriter P → Bool × NetasciiWriter P
  write_cr w = write_peer cr w

  abbrev pub close_peer : Bool × NetasciiWriter P → Bool × NetasciiWriter P
  close_peer (rv, w) = let (done, peer) = ops.close w.peer in (rv && done, record w { peer = peer })

  -- A pending CR is written first.
  pub writer_close : NetasciiWriter P → Bool × NetasciiWriter P
  unfolding write_cr
  writer_close w = close_peer (if w.pending_cr then write_cr w else (true, w))

  abbrev pub set_pending : Bool → Bool × NetasciiWriter P → Bool × NetasciiWriter P
  set_pending pending (false, w) = (false, w)
  set_pending pending (true, w) = (true, record w { pending_cr = pending })

  -- One round of the loop of `write`; `false` leaves it.
  pub write_char : NetasciiWriter P → ℕ → Bool × NetasciiWriter P
  unfolding write_cr
  write_char w c =
      if c == cr
      then (if w.pending_cr
          then set_pending true (write_cr w)
          else (true, record w { pending_cr = true }))
      else if c == lf
      then write_peer c (record w { pending_cr = false })
      else if (c == 0) && w.pending_cr
      then set_pending false (write_cr w)
      else write_peer c w

  abbrev pub next_char :
      (NetasciiWriter P → Bool × NetasciiWriter P)
      → Bool × NetasciiWriter P
      → Bool × NetasciiWriter P
  next_char rest (false, w) = (false, w)
  next_char rest (true, w) = rest w

  pub write_chars : NetasciiWriter P → Bytes → Bool × NetasciiWriter P
  write_chars w [] = (true, w)
  write_chars w (c ∷ bytes) = next_char (λ w'. write_chars w' bytes) (write_char w c)

  instance abbrev pub netascii_writer_ops : WriterOps (NetasciiWriter P)
  netascii_writer_ops = record {
    is_open = writer_is_open;
    write = write_chars;
    close = writer_close;
  }
