-- ===== src/Msg/Parse.antt =====
-- lib/src/coap_msg.c: coap_msg_parse and the functions below it.
use free_co_ap.Common.{
  ℕ, zero, suc, ◌+◌, ◌/◌, ◌%◌, Bool, true, false, ◌||◌, not, [], ◌∷◌, ◌++◌, Option, none, some,
  Heap, malloc, Result, ok, err, stuck, ebadmsg, einval, enomem, Bytes, take, drop, length,
  get_last?, u32_mod, ltb, ◌==◌, if◌then◌else◌,
}
use free_co_ap.Msg.{
  Op, Msg, State, M, continue, ◌>>=◌, return, version, destroy, reset, check, max_token_len,
}
use free_co_ap.Msg.Options.{add_last}
use free_co_ap.Msg.Wire.{byte_at, be16, parse_op_head}

-- The fields that coap_msg_parse_hdr has assigned where it leaves: after the version, after the
-- token length, after the code, and at its end.
abbrev pub hdr_ver : Bytes → Msg → Msg
hdr_ver buf m = record m { ver = byte_at 0 buf / 64 % 4 }

abbrev pub hdr_token_len : Bytes → Msg → Msg
hdr_token_len buf m = record m {
  ver = byte_at 0 buf / 64 % 4;
  type = byte_at 0 buf / 16 % 4;
  token_len = byte_at 0 buf % 16;
}

abbrev pub hdr_code : Bytes → Msg → Msg
hdr_code buf m = record m {
  ver = byte_at 0 buf / 64 % 4;
  type = byte_at 0 buf / 16 % 4;
  token_len = byte_at 0 buf % 16;
  code_class = byte_at 1 buf / 32 % 8;
  code_detail = byte_at 1 buf % 32;
}

abbrev pub hdr_msg_id : Bytes → Msg → Msg
hdr_msg_id buf m = record m {
  ver = byte_at 0 buf / 64 % 4;
  type = byte_at 0 buf / 16 % 4;
  token_len = byte_at 0 buf % 16;
  code_class = byte_at 1 buf / 32 % 8;
  code_detail = byte_at 1 buf % 32;
  msg_id = be16 (drop 2 buf);
}

-- COAP_MSG_REQ, COAP_MSG_SUCCESS, COAP_MSG_CLIENT_ERR, COAP_MSG_SERVER_ERR
abbrev pub is_code_class : ℕ → Bool
is_code_class c = c == 0 || c == 2 || c == 4 || c == 5

-- coap_msg_parse_hdr
unfoldable pub parse_hdr : Bytes → M ℕ
parse_hdr buf s =
    if ltb (length buf) 4
    then (err ebadmsg, s)
    else if not (byte_at 0 buf / 64 % 4 == version)
    then (err einval, record s { msg = hdr_ver buf s.msg })
    else if ltb max_token_len (byte_at 0 buf % 16)
    then (err ebadmsg, record s { msg = hdr_token_len buf s.msg })
    else if not (is_code_class (byte_at 1 buf / 32 % 8))
    then (err ebadmsg, record s { msg = hdr_code buf s.msg })
    else (ok 4, record s { msg = hdr_msg_id buf s.msg })

-- memcpy of `n` bytes over the front of `dst`.
abbrev pub copy_front : ℕ → Bytes → Bytes → Bytes
copy_front n src dst = take n src ++ drop n dst

abbrev pub with_token : Msg → Bytes → Msg
with_token m t = record m { token = t }

-- coap_msg_parse_token
unfoldable pub parse_token : Bytes → M ℕ
parse_token buf s = if ltb (length buf) s.msg.token_len then (err ebadmsg, s) else (
  ok s.msg.token_len,
  record s { msg = with_token s.msg (copy_front s.msg.token_len buf s.msg.token) },
)

-- The number of an option that stands `delta` behind the last one.
abbrev pub op_num_after : Option Op → ℕ → ℕ
op_num_after none delta = delta
op_num_after (some prev) delta = (prev.num + delta) % u32_mod

-- The rest of coap_msg_parse_op, on what it has read.
unfoldable pub parse_op_add : Bytes → Result (ℕ × ℕ × ℕ) → M ℕ
parse_op_add buf (ok (delta, len, at)) s =
    continue (add_last (op_num_after (get_last? s.msg.op_list) delta) len (drop at buf) s)
      (λ _. return (at + len))
parse_op_add buf (err e) s = (err e, s)
parse_op_add buf stuck s = (stuck, s)

-- coap_msg_parse_op
unfoldable pub parse_op : Bool → Bytes → M ℕ
parse_op char_signed buf s = parse_op_add buf (parse_op_head char_signed buf) s

-- ((p[0] & 0xff) == 0xff) || (len == 0)
abbrev pub at_end : Bytes → Bool
at_end [] = true
at_end (b ∷ _) = b % 256 == 0xff

-- The loop of coap_msg_parse_ops on fuel; it returns how far it came.
unfoldable pub parse_ops : ℕ → Bool → Bytes → M ℕ
parse_ops zero char_signed buf s = (stuck, s)
parse_ops (suc fuel) char_signed buf s =
    let round = continue (parse_op char_signed buf s) (λ num s'.
      continue (parse_ops fuel char_signed (drop num buf) s') (λ more. return (num + more))) in
    if at_end buf then (ok 0, s) else round

abbrev pub with_payload : Msg → Option Bytes → ℕ → Msg
with_payload m p n = record m { payload = p; payload_len = n }

-- What coap_msg_parse_payload makes of the bytes behind the marker.
abbrev pub store_payload : Bytes → Msg → Bool × Heap → Result ℕ × State
store_payload data_bytes m (false, h) =
    (err enomem, record { msg = with_payload m none m.payload_len; heap = h })
store_payload data_bytes m (true, h) = (
  ok (suc (length data_bytes)),
  record { msg = with_payload m (some data_bytes) (length data_bytes); heap = h },
)

-- coap_msg_parse_payload
unfoldable pub parse_payload : Bytes → M ℕ
parse_payload [] s = (ok 0, s)
parse_payload (b ∷ []) s = (err ebadmsg, s)
parse_payload (b ∷ (c ∷ cs)) s =
    if not (b % 256 == 0xff) then (err ebadmsg, s) else store_payload (c ∷ cs) s.msg (malloc s.heap)

-- Each option takes a byte at least, so one round more than there are bytes is enough.
unfoldable pub parse_parts : Bool → Bytes → M ℕ
parse_parts char_signed buf = do
  hdr ← parse_hdr buf
  token ← parse_token (drop hdr buf)
  ops ← parse_ops (suc (length buf)) char_signed (drop token (drop hdr buf))
  parse_payload (drop ops (drop token (drop hdr buf)))

-- A part that fails destroys the message; the check at the end leaves it as it is.
abbrev pub finish : Result ℕ × State → Result ℕ × State
finish (ok _, s) = (check s.msg, s)
finish (err e, s) = (err e, destroy s)
finish (stuck, s) = (stuck, s)

-- coap_msg_parse
unfoldable pub parse : Bool → Bytes → M ℕ
parse char_signed buf s = finish (parse_parts char_signed buf (reset s))
