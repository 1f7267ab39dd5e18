-- ===== src/Msg/SignedChar.antt =====
-- coap_msg_parse_op where `char` is signed: the extension bytes above 127 (lib/src/coap_msg.c).
use free_co_ap.Common.{
  ℕ, ◌+◌, ◌-◌, ◌%◌, ◌≤◌, true, ◌++◌, ◌≡◌, refl, ok, Bytes, length, drop-append, length-append,
  arith, u32_mod,
}
use free_co_ap.Msg.{Op}
use free_co_ap.Msg.Wire.{parse_ext, parse_op_head}
use free_co_ap.Msg.Format.{nibble, ext_bytes, op_bytes}
use free_co_ap.Msg.Codec.{
  FitsExt, head_len, nibble_lt, op_bytes-append, parse_op_head_parts, parse_ext-ext_bytes,
}

-- What a signed `char` makes of a number that is written as 13 and one byte above 127.
abbrev pub misread : ℕ → ℕ
misread x = (x + (u32_mod - 256)) % u32_mod

parse_ext-misread :
    (x : ℕ) (rest : Bytes)
    → 141 ≤ x
    → x ≤ 268
    → parse_ext true (nibble x) (ext_bytes x ++ rest) ≡ ok (misread x, length (ext_bytes x))
unfolding parse_ext nibble ext_bytes
parse_ext-misread x rest h k = ground arith

-- Where `char` is signed, coap_msg_parse_op reads every option whose delta is from 141 to 268, and
-- whose length is that of its value and is not misread itself, with another delta: 256 too small, or
-- 2 ^ 32 - 256 too large.
pub parse_op_head-misread :
    (op : Op) (delta : ℕ) (rest : Bytes)
    → 141 ≤ delta
    → delta ≤ 268
    → FitsExt true op.len
    → length op.val ≡ op.len
    → parse_op_head true (op_bytes op delta ++ rest) ≡ ok (misread delta, op.len, head_len op delta)
parse_op_head-misread op delta rest h k hl hv =
    let exts = ext_bytes op.len ++ (op.val ++ rest) in
    rw (op_bytes-append op delta rest hv) (
      parse_op_head_parts true (nibble delta) (nibble op.len) (ext_bytes delta ++ exts)
        (nibble_lt delta) (nibble_lt op.len) (parse_ext-misread delta exts h k)
        (rw (drop-append _ (ext_bytes delta) exts refl)
          (parse_ext-ext_bytes true op.len (op.val ++ rest) hl))
        (rw
          (
            drop-append _ (ext_bytes delta) exts refl,
            drop-append _ (ext_bytes op.len) (op.val ++ rest) refl,
          )
          (omega (arith, length-append op.val rest))))
