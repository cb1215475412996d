-- ===== src/Io/Netascii/Encoding.antt =====
-- Netascii as RFC 764 has it: a line feed is sent as CR LF and a carriage return as CR NUL.
use octnet_tftp.Base.{
  ℕ, ◌≡◌, refl, sym, ap, ◌∙◌, append-nil, append_assoc, arith, Bool, true, false, ◌&&◌, [], ◌∷◌,
  ◌++◌, Bytes, ◌==◌, if◌then◌else◌,
}

-- What stands for one character of the file.
abbrev pub encode_char : ℕ → Bytes
encode_char c = if c == 10 then 13 ∷ 10 ∷ [] else if c == 13 then 13 ∷ 0 ∷ [] else c ∷ []

abbrev pub encode : Bytes → Bytes
encode [] = []
encode (c ∷ text) = encode_char c ++ encode text

-- How a receiver takes a character: what it has put out, and whether it holds back a CR.
abbrev pub decode_char : Bytes × Bool → ℕ → Bytes × Bool
decode_char (out, held) c =
    if c == 13
    then ((if held then out ++ 13 ∷ [] else out), true)
    else if c == 10
    then (out ++ 10 ∷ [], false)
    else if (c == 0) && held
    then (out ++ 13 ∷ [], false)
    else (out ++ c ∷ [], held)

abbrev pub decode : Bytes × Bool → Bytes → Bytes × Bool
decode state [] = state
decode state (c ∷ bytes) = decode (decode_char state c) bytes

pub decode-append :
    (xs ys : Bytes) (state : Bytes × Bool) → decode state (xs ++ ys) ≡ decode (decode state xs) ys
decode-append [] ys state = refl
decode-append (c ∷ xs) ys state = decode-append xs ys (decode_char state c)

decode-encode_char :
    (c : ℕ) (out : Bytes) → decode (out, false) (encode_char c) ≡ (out ++ c ∷ [], false)
decode-encode_char c out = ground arith

-- Decoding an encoded text gives the text back, and leaves no CR held.
pub decode-encode : (text out : Bytes) → decode (out, false) (encode text) ≡ (out ++ text, false)
decode-encode [] out = ap (λ t. (t, false)) (sym (append-nil out))
decode-encode (c ∷ text) out =
    decode-append (encode_char c) (encode text) (out, false)
    ∙ ap (λ s. decode s (encode text)) (decode-encode_char c out)
    ∙ decode-encode text (out ++ c ∷ [])
    ∙ ap (λ t. (t, false)) (append_assoc out (c ∷ []) text)
