-- ===== src/Uri/Coding.antt =====
-- Decoding undoes percent-encoding (proxy/common/src/uri.c).
use free_co_ap.Common.{
  ℕ, zero, suc, ◌+◌, ◌*◌, ◌/◌, ◌%◌, ◌≤◌, ◌<◌, Bool, true, false, [], ◌∷◌, ◌++◌, append-nil,
  append_assoc, ◌≡◌, sym, ap, ◌∙◌, inl, inr, some, Bytes, All, length, length-append, ltb, ◌==◌,
  arith, Bool-cases,
}
use free_co_ap.Uri.{
  is_in, is_unreserved, is_allowed, hex_to_int, hex_digit, encode_octet, decode_octet, Dest, write,
  is_plain, encoded, encode_str, decode_loop, decode_str,
}

-- All of a string, encoded.
abbrev pub encoded_all : Bytes → Bytes → Bytes
encoded_all except [] = []
encoded_all except (c ∷ src) = encoded except c ++ encoded_all except src

abbrev pub grow : Dest → Bytes → Dest
grow d chunk = record { num = d.num + length chunk; out = d.out ++ chunk }

pub grow-nil : (d : Dest) → grow d [] ≡ d
grow-nil d = let e : d.num + 0 ≡ d.num = omega arith in rw (e, append-nil d.out)

pub grow-grow : (d : Dest) (xs ys : Bytes) → grow (grow d xs) ys ≡ grow d (xs ++ ys)
grow-grow d xs ys =
    let l = length-append xs ys in
    let e : d.num + length xs + length ys ≡ d.num + length (xs ++ ys) = omega arith in
    rw (e, append_assoc d.out xs ys)

-- Where there is room for all of it, uri_encode_str appends the encoded string.
pub encode_str-room :
    (dest_len : ℕ) (except src : Bytes) (d : Dest)
    → d.num + length (encoded_all except src) < dest_len
    → encode_str dest_len except src d ≡ grow d (encoded_all except src)
unfolding encode_str
encode_str-room dest_len except [] d lt = sym (grow-nil d)
encode_str-room dest_len except (c ∷ src) d lt =
    let l = length-append (encoded except c) (encoded_all except src) in
    let fits : ltb (d.num + length (encoded except c)) dest_len ≡ true = ground arith in
    let ih = encode_str-room dest_len except src (grow d (encoded except c)) (omega arith) in
    rw fits (ih ∙ grow-grow d (encoded except c) (encoded_all except src))

-- A hexadecimal digit is read back.
hex_to_int-hex_digit : (i : ℕ) → i < 16 → hex_to_int (hex_digit i) ≡ some i
unfolding hex_to_int hex_digit
hex_to_int-hex_digit i h = ground arith

-- The characters that are never left as they are: '%', and the one that is -1 where char is signed.
pub record Safe (except : Bytes) : Type 0 where
  pub no_percent : is_in 37 except ≡ false
  pub no_255 : is_in 255 except ≡ false

plain_ne :
    (except : Bytes) (c : ℕ)
    → Safe except
    → is_plain except c ≡ true
    → (c == 37 ≡ false) × (c == 255 ≡ false)
unfolding is_allowed is_unreserved
plain_ne except c safe h = elim (Bool-cases (c == 37)) [
  | inl e ↦ let z : c ≡ 37 = ground arith in let bad = rw (z, safe.no_percent) at h in cc
  | inr e ↦ (
    e,
    elim (Bool-cases (c == 255)) [
      | inl f ↦ let z : c ≡ 255 = ground arith in let bad = rw (z, safe.no_255) at h in cc
      | inr f ↦ f
    ],
  )
]

decode_octet-plain :
    (char_signed : Bool) (c : ℕ) (rest : Bytes)
    → c == 37 ≡ false
    → c == 255 ≡ false
    → decode_octet char_signed (c ∷ rest) ≡ (some c, rest)
unfolding decode_octet
decode_octet-plain true c [] e f = rw (e, f)
decode_octet-plain true c (x ∷ []) e f = rw (e, f)
decode_octet-plain true c (x ∷ y ∷ rest) e f = rw (e, f)
decode_octet-plain false c [] e f = rw e
decode_octet-plain false c (x ∷ []) e f = rw e
decode_octet-plain false c (x ∷ y ∷ rest) e f = rw e

decode_octet-encode_octet :
    (char_signed : Bool) (c : ℕ) (rest : Bytes)
    → c < 256
    → decode_octet char_signed (encode_octet c ++ rest) ≡ (some c, rest)
unfolding decode_octet
decode_octet-encode_octet char_signed c rest h =
    let whole : c / 16 % 16 * 16 + c % 16 ≡ c = omega arith in
    rw (
      hex_to_int-hex_digit (c / 16 % 16) (omega arith),
      hex_to_int-hex_digit (c % 16) (omega arith),
      whole,
    )

decode_octet-encoded :
    (char_signed : Bool) (except : Bytes) (c : ℕ) (rest : Bytes)
    → Safe except
    → c < 256
    → decode_octet char_signed (encoded except c ++ rest) ≡ (some c, rest)
decode_octet-encoded char_signed except c rest safe h = elim (Bool-cases (is_plain except c)) [
  | inl e ↦ rw e (
      decode_octet-plain char_signed c rest (plain_ne except c safe e).0
        (plain_ne except c safe e).1)
  | inr e ↦ rw e (decode_octet-encode_octet char_signed c rest h)
]

-- A round of the loop over a window that is not empty.
decode_loop-step :
    (fuel : ℕ) (char_signed : Bool) (dest_len c : ℕ) (window rest : Bytes) (d : Dest)
    → decode_octet char_signed window ≡ (some c, rest)
    → 1 ≤ length window
    → decode_loop (suc fuel) char_signed dest_len window d
      ≡ decode_loop fuel char_signed dest_len rest (write dest_len (c ∷ []) d)
unfolding decode_loop
decode_loop-step fuel char_signed dest_len c [] rest d e h = absurd (let z : ⊥ = omega arith in z)
decode_loop-step fuel char_signed dest_len c (w ∷ window) rest d e h = rw e

pub encoded-nonempty : (except : Bytes) (c : ℕ) → 1 ≤ length (encoded except c)
encoded-nonempty except c = elim (Bool-cases (is_plain except c)) [
  | inl e ↦ rw e (let z : 1 ≤ 1 = omega arith in z)
  | inr e ↦ rw e (let z : 1 ≤ 3 = omega arith in z)
]

pub decode_loop-encoded_all :
    (fuel : ℕ) (char_signed : Bool) (dest_len : ℕ) (except src : Bytes) (d : Dest)
    → Safe except
    → All (λ c. c < 256) src
    → length (encoded_all except src) ≤ fuel
    → d.num + length src < dest_len
    → decode_loop fuel char_signed dest_len (encoded_all except src) d ≡ some (grow d src)
unfolding decode_loop
decode_loop-encoded_all fuel char_signed dest_len except [] d safe bytes le lt =
    ap some (sym (grow-nil d))
decode_loop-encoded_all zero char_signed dest_len except (c ∷ src) d safe bytes le lt =
    let l = length-append (encoded except c) (encoded_all except src) in
    let n = encoded-nonempty except c in absurd (let z : ⊥ = omega arith in z)
decode_loop-encoded_all (suc fuel) char_signed dest_len except (c ∷ src) d safe bytes le lt =
    let l = length-append (encoded except c) (encoded_all except src) in
    let n = encoded-nonempty except c in
    let fits : ltb (d.num + 1) dest_len ≡ true = ground arith in
    let ih =
      decode_loop-encoded_all fuel char_signed dest_len except src (grow d (c ∷ [])) safe bytes.1
        (omega arith) (omega arith) in
    decode_loop-step fuel char_signed dest_len c (encoded except c ++ encoded_all except src)
      (encoded_all except src) d
      (decode_octet-encoded char_signed except c (encoded_all except src) safe bytes.0)
      (omega arith)
    ∙ rw fits (ih ∙ ap some (grow-grow d (c ∷ []) src))

-- The start of a destination.
abbrev pub empty_dest : Dest
empty_dest = record { num = 0; out = [] }

pub encoded_all-length : (except src : Bytes) → length src ≤ length (encoded_all except src)
encoded_all-length except [] = omega arith
encoded_all-length except (c ∷ src) =
    let l = length-append (encoded except c) (encoded_all except src) in
    let n = encoded-nonempty except c in let ih = encoded_all-length except src in omega arith

zero_plus : (n : ℕ) → 0 + n ≡ n
zero_plus n = omega arith

-- Where the characters that are left as they are do not include '%' and the byte 255, the first
-- destination has room for the encoded string and the second for the string, each with its
-- terminator, uri_decode_str gives back the string that uri_encode_str was given, whether char is
-- signed or not.
pub decode_str-encode_str :
    (char_signed : Bool) (encode_len decode_len : ℕ) (except src : Bytes)
    → Safe except
    → All (λ c. c < 256) src
    → length (encoded_all except src) < encode_len
    → length src < decode_len
    → decode_str char_signed decode_len (encode_str encode_len except src empty_dest).out empty_dest
      ≡ some (record { num = length src; out = src })
decode_str-encode_str char_signed encode_len decode_len except src safe bytes room room2 =
    rw (encode_str-room encode_len except src empty_dest (omega arith)) (
      decode_loop-encoded_all (length (encoded_all except src)) char_signed decode_len except src
        empty_dest safe bytes (omega arith) (omega arith)
      ∙ ap (λ n. some (record { num = n; out = src })) (zero_plus (length src)))
