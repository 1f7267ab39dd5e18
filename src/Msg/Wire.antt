-- ===== src/Msg/Wire.antt =====
-- lib/src/coap_msg.c: what the parser reads from the window before it touches the message. `buf` is
-- the input from the C code's `p` on, so its length is the C code's `len`.
use free_co_ap.Common.{
  ℕ, zero, suc, ◌+◌, ◌-◌, ◌*◌, ◌/◌, ◌%◌, Bool, ◌&&◌, ◌||◌, [], ◌∷◌, Result, ok, err, ◌>>=◌, ebadmsg,
  Bytes, drop, length, u32_mod, ltb, leb, ◌==◌, if◌then◌else◌,
}

-- p[i]. No function reads past its window; there the value does not matter.
abbrev pub byte_at : ℕ → Bytes → ℕ
byte_at i [] = 0
byte_at zero (b ∷ bs) = b
byte_at (suc i) (b ∷ bs) = byte_at i bs

-- ntohs(*((uint16_t *)p))
abbrev pub be16 : Bytes → ℕ
be16 buf = byte_at 0 buf * 256 + byte_at 1 buf

-- A `char` as an operand of unsigned arithmetic. Whether `char` is signed is up to the compiler; a
-- signed one is extended by its sign, so that 0x80 to 0xff become numbers below 2 ^ 32.
abbrev pub unsigned_of_char : Bool → ℕ → ℕ
unsigned_of_char char_signed b = if char_signed && leb 128 b then b + (u32_mod - 256) else b

-- coap_msg_parse_type_msg_id: the type and the message ID.
unfoldable pub parse_type_msg_id : Bytes → Result (ℕ × ℕ)
parse_type_msg_id buf =
    if ltb (length buf) 4 then err ebadmsg else ok (byte_at 0 buf / 16 % 4, be16 (drop 2 buf))

-- One of the two numbers of an option: the nibble, or what the bytes behind it add. It returns the
-- number, and how many bytes of the window it took.
unfoldable pub parse_ext : Bool → ℕ → Bytes → Result (ℕ × ℕ)
parse_ext char_signed nibble buf =
    if nibble == 13
    then if ltb (length buf) 1
      then err ebadmsg
      else ok ((13 + unsigned_of_char char_signed (byte_at 0 buf)) % u32_mod, 1)
    else if nibble == 14
    then if ltb (length buf) 2 then err ebadmsg else ok (269 + be16 buf, 2)
    else ok (nibble, 0)

-- `len < op_len` at the value.
abbrev pub value_fits : ℕ → ℕ → ℕ → Bytes → Result (ℕ × ℕ × ℕ)
value_fits delta len at buf = if ltb (length buf) len then err ebadmsg else ok (delta, len, at)

-- The delta, the length and the place of the value, from the first byte of the option and the window
-- behind it.
unfoldable pub parse_exts : Bool → ℕ → Bytes → Result (ℕ × ℕ × ℕ)
parse_exts char_signed b buf = do
  (delta, n) ← parse_ext char_signed (b / 16 % 16) buf
  (len, k) ← parse_ext char_signed (b % 16) (drop n buf)
  value_fits delta len (1 + n + k) (drop k (drop n buf))

-- The part of coap_msg_parse_op before the option list.
unfoldable pub parse_op_head : Bool → Bytes → Result (ℕ × ℕ × ℕ)
parse_op_head char_signed [] = err ebadmsg
parse_op_head char_signed (b ∷ buf) =
    if b / 16 % 16 == 15 || b % 16 == 15 then err ebadmsg else parse_exts char_signed b buf
