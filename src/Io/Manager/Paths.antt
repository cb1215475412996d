-- ===== src/Io/Manager/Paths.antt =====
-- Which files the server opens.
use octnet_tftp.Base.{
  ◌≡◌, ◌↔◌, length, ◌≢◌, refl, sym, ap, ◌∙◌, ◌⊎◌, inl, inr, true, false, ◌&&◌, Bool-cases, some, [],
  ◌∷◌, ◌++◌, map, Bytes, ◌==◌, codes, arith,
}
use octnet_tftp.Io.Text.{equal_ignore_case, equal_ignore_case_iff, tolower}
use octnet_tftp.Io.File.{FileSystem, open_file_reader}
use octnet_tftp.Io.Manager.{Reader, has_dots, open_reader, create_reader}

-- `..` stands somewhere in the name.
abbrev pub HasDots : Bytes → Type 0
HasDots name = (front back : Bytes) × (name ≡ front ++ b'.' ∷ b'.' ∷ back)

has_dots-found : (front back : Bytes) → has_dots (front ++ b'.' ∷ b'.' ∷ back) ≡ true
unfolding has_dots
has_dots-found [] back = refl
has_dots-found (a ∷ []) back = ground arith
has_dots-found (a ∷ b ∷ front) back = ground (arith, has_dots-found (b ∷ front) back)

has_dots-HasDots : (name : Bytes) → has_dots name ≡ true → HasDots name
unfolding has_dots
has_dots-HasDots [] e = cc
has_dots-HasDots (a ∷ []) e = cc
has_dots-HasDots (a ∷ b ∷ rest) e = elim (Bool-cases ((a == b'.') && (b == b'.'))) [
  | inl h ↦ ([], rest, ground arith)
  | inr h ↦
      let (front, back, f) = has_dots-HasDots (b ∷ rest) (rw h at e) in
      (a ∷ front, back, ap (◌∷◌ a) f)
]

-- A mode means the same in any case.
abbrev pub IsMode : Bytes → Bytes → Type 0
IsMode mode name = map tolower mode ≡ map tolower name

abbrev pub octet : Bytes
octet = codes "octet"

abbrev pub netascii : Bytes
netascii = codes "netascii"

-- The reader is the one for the mode, over the file of that name below the root.
abbrev pub Opens : FileSystem → Bytes → Bytes → Bytes → Reader → Type 0
Opens fs root_path filename mode r =
    (IsMode mode octet × (r ≡ Reader.file (open_file_reader fs (root_path ++ b'/' ∷ filename))))
    ⊎ (IsMode mode netascii
        × (r
            ≡ Reader.netascii (record {
              peer = open_file_reader fs (root_path ++ b'/' ∷ filename);
              pending_char = 0;
            })))

create_reader_safe :
    (fs : FileSystem) (root_path filename mode : Bytes)
    → has_dots filename ≡ false
    → open_reader fs (root_path ++ b'/' ∷ filename) mode ≡ create_reader fs root_path filename mode
unfolding create_reader
create_reader_safe fs root_path filename mode h = rw h

open_reader_inv :
    (fs : FileSystem) (path mode : Bytes) (r : Reader)
    → open_reader fs path mode ≡ some r
    → ((equal_ignore_case mode octet ≡ true) × (r ≡ Reader.file (open_file_reader fs path)))
      ⊎ ((equal_ignore_case mode netascii ≡ true)
          × (r ≡ Reader.netascii (record { peer = open_file_reader fs path; pending_char = 0 })))
unfolding open_reader
open_reader_inv fs path mode r e = ground arith

open_reader-octet :
    (fs : FileSystem) (path mode : Bytes)
    → equal_ignore_case mode octet ≡ true
    → open_reader fs path mode ≡ some (Reader.file (open_file_reader fs path))
unfolding open_reader
open_reader-octet fs path mode e = rw e

open_reader-netascii :
    (fs : FileSystem) (path mode : Bytes)
    → equal_ignore_case mode octet ≡ false
    → equal_ignore_case mode netascii ≡ true
    → open_reader fs path mode
      ≡ some (Reader.netascii (record { peer = open_file_reader fs path; pending_char = 0 }))
unfolding open_reader
open_reader-netascii fs path mode e f = rw (e, f)

has_dots-false : (name : Bytes) → ¬ HasDots name → has_dots name ≡ false
has_dots-false name h = elim (Bool-cases (has_dots name)) [
  | inl e ↦ absurd (h (has_dots-HasDots name e))
  | inr e ↦ e
]

not-HasDots : (name : Bytes) → has_dots name ≡ false → ¬ HasDots name
not-HasDots name h (front, back, e) = cc (has_dots-found front back)

-- The two modes differ.
not_octet : (mode : Bytes) → IsMode mode netascii → equal_ignore_case mode octet ≡ false
not_octet mode m = elim (Bool-cases (equal_ignore_case mode octet)) [
  | inl e ↦ absurd (differ (sym m ∙ (equal_ignore_case_iff mode octet).0 e))
  | inr e ↦ e
]
  where
    differ : map tolower netascii ≢ map tolower octet
    differ h = omega (arith, ap length h)

-- A reader comes back exactly for a name without `..` and a mode that is, in any case, octet or
-- netascii; it is the reader of that mode over the file of that name below the root.
pub create_reader-Opens :
    (fs : FileSystem) (root_path filename mode : Bytes) (r : Reader)
    → (create_reader fs root_path filename mode ≡ some r)
      ↔ ((¬ HasDots filename) × Opens fs root_path filename mode r)
create_reader-Opens fs root_path filename mode r = (forth, back)
  where
    path : Bytes
    path = root_path ++ b'/' ∷ filename

    forth :
        create_reader fs root_path filename mode ≡ some r
        → (¬ HasDots filename) × Opens fs root_path filename mode r
    forth e = elim (Bool-cases (has_dots filename)) [
      | inl h ↦ unfold create_reader in cc
      | inr h ↦ (
        not-HasDots filename h,
        elim (open_reader_inv fs path mode r
            (create_reader_safe fs root_path filename mode h ∙ e)) [
              | inl (m, x) ↦ inl ((equal_ignore_case_iff mode octet).0 m, x)
              | inr (m, x) ↦ inr ((equal_ignore_case_iff mode netascii).0 m, x)
            ],
      )
    ]

    back :
        (¬ HasDots filename) × Opens fs root_path filename mode r
        → create_reader fs root_path filename mode ≡ some r
    back (h, o) =
        sym (create_reader_safe fs root_path filename mode (has_dots-false filename h)) ∙ elim o [
          | inl (m, x) ↦
              open_reader-octet fs path mode ((equal_ignore_case_iff mode octet).1 m)
              ∙ ap some (sym x)
          | inr (m, x) ↦
              open_reader-netascii fs path mode (not_octet mode m)
                ((equal_ignore_case_iff mode netascii).1 m)
              ∙ ap some (sym x)
        ]
