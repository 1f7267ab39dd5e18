-- ===== src/Msg/Format.antt =====
-- lib/src/coap_msg.c: coap_msg_format and the functions below it. A function returns the bytes that
-- it writes to `buf`; the C function returns how many these are. `len` is a size_t.
use free_co_ap.Common.{
  ℕ, ◌+◌, ◌-◌, ◌*◌, ◌/◌, ◌%◌, List, [], ◌∷◌, ◌++◌, Option, none, some, Result, ok, err, ◌>>=◌,
  enospc, Bytes, take, length, u32_mod, size_mod, ltb, leb, ◌==◌, if◌then◌else◌,
}
use free_co_ap.Msg.{Op, Msg, version, check}

-- len -= num
abbrev pub size_sub : ℕ → ℕ → ℕ
size_sub len num = (len + size_mod - num) % size_mod

-- The two bytes of htons of a number that is first cut to uint16_t.
unfoldable pub to_be16 : ℕ → Bytes
to_be16 v = v % 65536 / 256 ∷ v % 256 ∷ []

-- coap_msg_format_hdr: the fields of a byte share no bit, so | is + here.
unfoldable pub format_hdr : Msg → ℕ → Result Bytes
format_hdr m len =
    if ltb len 4
    then err enospc
    else ok (
        (version * 64 + m.type % 4 * 16 + m.token_len % 16)
        ∷ (m.code_class % 8 * 32 + m.code_detail % 32)
        ∷ to_be16 m.msg_id)

-- coap_msg_format_token
unfoldable pub format_token : Msg → ℕ → Result Bytes
format_token m len = if ltb len m.token_len then err enospc else ok (take m.token_len m.token)

-- op->num - prev_num
abbrev pub op_delta : Op → ℕ → ℕ
op_delta op prev_num = (op.num + u32_mod - prev_num) % u32_mod

-- The first count of coap_msg_format_op, to which the space in the buffer is compared. The second
-- test is on the option's number, as in the source.
unfoldable pub counted_len : Op → ℕ → ℕ
counted_len op delta =
    (1
      + (if leb 269 delta then 2 else if leb 13 delta then 1 else 0)
      + (if leb 269 op.len then 2 else if leb 13 op.num then 1 else 0)
      + op.len)
    % u32_mod

unfoldable pub nibble : ℕ → ℕ
nibble x = if leb 269 x then 14 else if leb 13 x then 13 else x

unfoldable pub ext_bytes : ℕ → Bytes
ext_bytes x = if leb 269 x then to_be16 (x - 269) else if leb 13 x then (x - 13) ∷ [] else []

-- What coap_msg_format_op writes.
unfoldable pub op_bytes : Op → ℕ → Bytes
op_bytes op delta =
    (nibble delta * 16 + nibble op.len)
    ∷ (ext_bytes delta ++ (ext_bytes op.len ++ take op.len op.val))

-- coap_msg_format_op
unfoldable pub format_op : Op → ℕ → ℕ → Result Bytes
format_op op prev_num len =
    if ltb len (counted_len op (op_delta op prev_num))
    then err enospc
    else ok (op_bytes op (op_delta op prev_num))

-- The loop of coap_msg_format_ops over the options from `op` on.
unfoldable pub format_ops : List Op → ℕ → ℕ → Result Bytes
format_ops [] prev_num len = ok []
format_ops (op ∷ ops) prev_num len = do
  out ← format_op op prev_num len
  more ← format_ops ops op.num (size_sub len (length out))
  ok (out ++ more)

abbrev pub payload_bytes : Option Bytes → Bytes
payload_bytes none = []
payload_bytes (some p) = p

-- coap_msg_format_payload
unfoldable pub format_payload : Msg → ℕ → Result Bytes
format_payload m len =
    if m.payload_len == 0
    then ok []
    else if ltb len (m.payload_len + 1)
    then err enospc
    else ok (0xff ∷ take m.payload_len (payload_bytes m.payload))

-- coap_msg_format
unfoldable pub format : Msg → ℕ → Result Bytes
format m len = do
  _ ← check m
  hdr ← format_hdr m len
  let len1 = size_sub len (length hdr)
  token ← format_token m len1
  let len2 = size_sub len1 (length token)
  ops ← format_ops m.op_list 0 len2
  let len3 = size_sub len2 (length ops)
  payload ← format_payload m len3
  ok (hdr ++ (token ++ (ops ++ payload)))
