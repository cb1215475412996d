-- ===== src/Io/Manager/Writers.antt =====
-- The writers that the manager returns put out the bytes written, or the text that they encode.
use octnet_tftp.Base.{
  ℕ, ◌+◌, ◌≤◌, ◌≡◌, refl, sym, ap, Bool, true, false, [], ◌++◌, append-nil, append_assoc, Bytes,
  length, arith,
}
use octnet_tftp.Io.Interface.{SinkLaws}
use octnet_tftp.Io.File.{file_writer_ops, file_written, file_room}
use octnet_tftp.Io.File.Laws.{file_writer_laws}
use octnet_tftp.Io.Netascii.{netascii_writer_ops, write_chars}
use octnet_tftp.Io.Netascii.Encoding.{decode, decode-append}
use octnet_tftp.Io.Netascii.Writing.{write_chars-Writes}
use octnet_tftp.Io.Manager.{Writer, writer_ops}

-- Whether the mode is netascii, what has been put out, and whether a CR is held back.
abbrev pub View : Type 0
View = Bool × (Bytes × Bool)

abbrev pub writer_view : Writer → View
writer_view (Writer.file w) = (false, (file_written w, false))
writer_view (Writer.netascii w) = (true, (file_written w.peer, w.pending_cr))

abbrev pub absorb : View → Bytes → View
absorb (false, (out, held)) bytes = (false, (out ++ bytes, held))
absorb (true, state) bytes = (true, decode state bytes)

abbrev pub writer_room : Writer → ℕ
writer_room (Writer.file w) = file_room w
writer_room (Writer.netascii w) = file_room w.peer

pub absorb_nil : (v : View) → absorb v [] ≡ v
absorb_nil (false, (out, held)) = ap (λ t. (false, (t, held))) (append-nil out)
absorb_nil (true, state) = refl

pub absorb_append : (v : View) (xs ys : Bytes) → absorb v (xs ++ ys) ≡ absorb (absorb v xs) ys
absorb_append (false, (out, held)) xs ys =
    ap (λ t. (false, (t, held))) (sym (append_assoc out xs ys))
absorb_append (true, state) xs ys = ap (λ s. (true, s)) (decode-append xs ys state)

-- An open writer of either class writes any bytes for which its file has room: an octet writer puts
-- them out, a netascii writer what they decode to after the state it was in; it stays open, and the
-- file loses no more room than there are bytes.
pub write_absorbs :
    (w : Writer) (bytes : Bytes)
    → writer_ops.is_open w ≡ true
    → length bytes ≤ writer_room w
    → (w' : Writer) × (writer_ops.write w bytes ≡ (true, w'))
      × (writer_ops.is_open w' ≡ true)
      × (writer_view w' ≡ absorb (writer_view w) bytes)
      × (writer_room w ≤ writer_room w' + length bytes)
write_absorbs (Writer.file w) bytes o h =
    let (w', e, o', v, r) = file_writer_laws.write_fits w bytes o h in
    (
      Writer.file w',
      ap (λ x. (x.0, Writer.file x.1)) e,
      o',
      ap (λ t. (false, (t, false))) v,
      omega arith,
    )
write_absorbs (Writer.netascii w) bytes o h =
    let (t, o', v, r) = write_chars-Writes file_writer_laws w bytes o h in
    (
      Writer.netascii (write_chars w bytes).1,
      ap (λ b. (b, Writer.netascii (write_chars w bytes).1)) t,
      o',
      ap (λ s. (true, s)) v,
      r,
    )

-- Both writers take in all bytes for which their file has room.
abbrev pub writer_laws : SinkLaws View Writer writer_ops
writer_laws = record {
  view = writer_view;
  absorb = absorb;
  room = writer_room;
  absorb_nil = absorb_nil;
  absorb_append = absorb_append;
  write_absorbs = write_absorbs;
}
