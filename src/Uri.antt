-- ===== src/Uri.antt =====
-- proxy/common/src/uri.c: characters and percent-encoding.

pub mod Fields
pub mod Coding
pub mod Copy
pub mod Setters
pub mod Bounds
pub mod Blocks
pub mod Port
pub mod Parse
pub mod ParseFields
pub mod ParseBlocks
pub mod ParseText
pub mod ParseRoundTrip
pub mod ParseAuthority
pub mod ParseNet
pub mod Generated
mod Tests
mod ParseTests
use free_co_ap.Common.{
  ℕ, zero, suc, ◌+◌, ◌-◌, ◌*◌, ◌/◌, ◌%◌, Bool, true, false, ◌&&◌, ◌||◌, List, [], ◌∷◌, ◌++◌, Option,
  none, some, Bytes, length, ltb, leb, ◌==◌, if◌then◌else◌,
}

-- strchr of a string that is not the empty one, for a character that is not '\0'.
abbrev pub is_in : ℕ → Bytes → Bool
is_in c [] = false
is_in c (x ∷ xs) = c == x || is_in c xs

-- URI_SUB_DELIMS, "!$&'()*+,;="
abbrev pub sub_delims : Bytes
sub_delims = 33 ∷ 36 ∷ 38 ∷ 39 ∷ 40 ∷ 41 ∷ 42 ∷ 43 ∷ 44 ∷ 59 ∷ 61 ∷ []

abbrev pub is_between : ℕ → ℕ → ℕ → Bool
is_between lo hi c = leb lo c && leb c hi

-- uri_is_unreserved: letters and digits in the C locale, '-', '.', '_' and '~'.
unfoldable pub is_unreserved : ℕ → Bool
is_unreserved c =
    is_between 65 90 c
    || is_between 97 122 c
    || is_between 48 57 c
    || c == 45
    || c == 46
    || c == 95
    || c == 126

-- uri_is_allowed
unfoldable pub is_allowed : ℕ → Bool
is_allowed c = is_unreserved c || is_in c sub_delims

-- toupper in the C locale.
abbrev pub to_upper : ℕ → ℕ
to_upper c = if is_between 97 122 c then c - 32 else c

-- uri_hex_to_int; `none` is -1.
unfoldable pub hex_to_int : ℕ → Option ℕ
hex_to_int h =
    let c = to_upper h in
    if is_between 65 70 c
    then some (c - 65 + 10)
    else if is_between 48 57 c
    then some (c - 48)
    else none

abbrev pub joined : Option ℕ → Option ℕ → Option ℕ
joined (some i0) (some i1) = some (i0 * 16 + i1)
joined (some i0) none = none
joined none i1 = none

-- uri_2_hex_to_int
abbrev pub two_hex_to_int : ℕ → ℕ → Option ℕ
two_hex_to_int a b = joined (hex_to_int a) (hex_to_int b)

-- uri_hex
unfoldable pub hex_digit : ℕ → ℕ
hex_digit i = if ltb i 10 then i + 48 else i + 55

-- uri_encode_octet
abbrev pub encode_octet : ℕ → Bytes
encode_octet val = 37 ∷ hex_digit (val / 16 % 16) ∷ hex_digit (val % 16) ∷ []

-- A character as an int, where char is signed or not; `none` is -1, which the caller takes for an
-- error. Of a negative one only the low byte is stored.
abbrev pub int_of_char : Bool → ℕ → Option ℕ
int_of_char char_signed c = if char_signed && c == 255 then none else some c

-- uri_decode_octet: the octet, or `none` for -1, and the string from there on. A string is a list
-- that ends where the C string has its '\0'.
unfoldable pub decode_octet : Bool → Bytes → Option ℕ × Bytes
decode_octet char_signed [] = (some 0, [])
decode_octet char_signed (c ∷ []) =
    if c == 37 then (two_hex_to_int 0 0, []) else (int_of_char char_signed c, [])
decode_octet char_signed (c ∷ x ∷ []) =
    if c == 37 then (two_hex_to_int x 0, []) else (int_of_char char_signed c, x ∷ [])
decode_octet char_signed (c ∷ x ∷ y ∷ rest) =
    if c == 37 then (two_hex_to_int x y, rest) else (int_of_char char_signed c, x ∷ y ∷ rest)

-- The destination of a copy: the length that the string has or would have, and the bytes written.
-- Bytes that do not fit are not written, and nothing after them is.
pub record Dest : Type 0 where
  pub num : ℕ
  pub out : Bytes

abbrev pub write : ℕ → Bytes → Dest → Dest
write dest_len chunk d = record {
  num = d.num + length chunk;
  out = if ltb (d.num + length chunk) dest_len then d.out ++ chunk else d.out;
}

abbrev pub is_plain : Bytes → ℕ → Bool
is_plain except c = is_allowed c || is_in c except

-- What uri_encode_str makes of one character.
abbrev pub encoded : Bytes → ℕ → Bytes
encoded except c = if is_plain except c then c ∷ [] else encode_octet c

-- uri_encode_str
unfoldable pub encode_str : ℕ → Bytes → Bytes → Dest → Dest
encode_str dest_len except [] d = d
encode_str dest_len except (c ∷ src) d =
    encode_str dest_len except src (write dest_len (encoded except c) d)

-- uri_copy_str
unfoldable pub copy_str : ℕ → Bytes → Dest → Dest
copy_str dest_len [] d = d
copy_str dest_len (c ∷ src) d = copy_str dest_len src (write dest_len (c ∷ []) d)

abbrev pub decode_next : (Bytes → Dest → Option Dest) → ℕ → Option ℕ × Bytes → Dest → Option Dest
decode_next rest dest_len (none, src) d = none
decode_next rest dest_len (some c, src) d = rest src (write dest_len (c ∷ []) d)

-- The loop of uri_decode_str, on fuel; `none` is -1. Each round takes a character at least.
unfoldable pub decode_loop : ℕ → Bool → ℕ → Bytes → Dest → Option Dest
decode_loop fuel char_signed dest_len [] d = some d
decode_loop zero char_signed dest_len (c ∷ src) d = none
decode_loop (suc fuel) char_signed dest_len (c ∷ src) d =
    let rest = decode_loop fuel char_signed dest_len in
    decode_next rest dest_len (decode_octet char_signed (c ∷ src)) d

-- uri_decode_str
abbrev pub decode_str : Bool → ℕ → Bytes → Dest → Option Dest
decode_str char_signed dest_len src d = decode_loop (length src) char_signed dest_len src d
