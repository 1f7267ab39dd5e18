-- ===== src/Msg/Room.antt =====
-- How long a buffer coap_msg_format needs for a whole message, in lib/src/coap_msg.c.
use free_co_ap.Common.{
  ℕ, ◌+◌, ◌-◌, ◌≤◌, ◌<◌, Bool, ◌++◌, ◌≡◌, Option, none, some, ok, bind-eq-ok, Bytes, take, length,
  length-append, length-take, arith, size_mod, ◌==◌, if◌then◌else◌,
}
use free_co_ap.Msg.{Msg, check}
use free_co_ap.Msg.Format.{
  to_be16, payload_bytes, size_sub, format_ops, format_hdr, format_token, format_payload, format,
}
use free_co_ap.Msg.OpsRoundTrip.{ops_bytes}
use free_co_ap.Msg.RoundTrip.{
  Fits, PayloadFits, msg_bytes, hdr_bytes, payload_part, take_payload, is_code_class_lt,
  length-token,
}
use free_co_ap.Msg.Space.{
  NoneUndercounted, ap_length, size_sub_lem, format_ops-total, format_ops-within,
}

-- The payload and its marker take a byte more than the payload, if there is one.
payload_room :
    (p : Option Bytes) (n : ℕ)
    → PayloadFits p n
    → length (payload_part p) ≡ (if n == 0 then 0 else n + 1)
payload_room none n h = ground arith
payload_room (some b) n h = ground arith

format_hdr_within :
    (m : Msg) (len : ℕ) {out : Bytes} → format_hdr m len ≡ ok out → (length out ≡ 4) × (4 ≤ len)
unfolding format_hdr to_be16
format_hdr_within m len h = ground arith

format_token_within :
    (m : Msg) (len : ℕ) {out : Bytes} → format_token m len ≡ ok out → length out ≤ len
unfolding format_token
format_token_within m len h = ground (arith, length-take m.token_len m.token)

format_payload_within :
    (m : Msg) (len : ℕ) {out : Bytes} → format_payload m len ≡ ok out → length out ≤ len
unfolding format_payload
format_payload_within m len h = ground (arith, length-take m.payload_len (payload_bytes m.payload))

module _ (char_signed : Bool) (m : Msg) (f : Fits char_signed m) where
  format_hdr_total : (len : ℕ) → 4 ≤ len → format_hdr m len ≡ ok (hdr_bytes m)
  unfolding format_hdr
  format_hdr_total len h = ground (arith, is_code_class_lt m.code_class f.code_class_is)

  format_token_total :
      (len : ℕ) → m.token_len ≤ len → format_token m len ≡ ok (take m.token_len m.token)
  unfolding format_token
  format_token_total len h = ground arith

  format_payload_total :
      (len : ℕ)
      → length (payload_part m.payload) ≤ len
      → format_payload m len ≡ ok (payload_part m.payload)
  unfolding format_payload
  format_payload_total len h = ground (
    arith,
    payload_room m.payload m.payload_len f.payload_fits,
    take_payload m.payload m.payload_len f.payload_fits,
  )

  -- For a message that fits the format and passes coap_msg_check, a buffer of the message's length and
  -- one byte more, below 2 ^ 64 bytes, is enough: the message is written whole.
  pub format-total :
      (len : ℕ)
      → check m ≡ ok 0
      → len < size_mod
      → length (msg_bytes m) + 1 ≤ len
      → format m len ≡ ok (msg_bytes m)
  unfolding format to_be16
  format-total len c small h =
      let t = take m.token_len m.token in
      let ops = ops_bytes 0 m.op_list in
      let p = payload_part m.payload in
      let total = length-append t (ops ++ p) in
      let total' = length-append ops p in
      let len1 = size_sub_lem len 4 small (omega (arith, total, total')) in
      let len2 = size_sub_lem (len - 4) (length t) (omega arith) (omega (arith, total, total')) in
      let left = len - 4 - length t in
      let len3 = size_sub_lem left (length ops) (omega arith) (omega (arith, total, total')) in
      rw (
        c,
        format_hdr_total len (omega arith),
        len1,
        format_token_total (len - 4) (omega (arith, total, total', length-token char_signed m f)),
        len2,
        format_ops-total char_signed m.op_list 0 left f.ops_fit (omega arith)
            (omega (arith, total, total')),
        len3,
        format_payload_total (left - length ops) (omega (arith, total, total')),
      )

  -- Where coap_msg_format succeeds on a message that fits the format and has no undercounted option,
  -- with a buffer below 2 ^ 64 bytes, what it has written is not longer than the buffer.
  pub format_within :
      (len : ℕ) {out : Bytes}
      → NoneUndercounted m.op_list
      → len < size_mod
      → format m len ≡ ok out
      → length out ≤ len
  unfolding format
  format_within len us small h =
      let (c, _, h0) = bind-eq-ok (check m) _ h in
      let (hdr, p1, h1) = bind-eq-ok (format_hdr m len) _ h0 in
      let len1 = size_sub len (length hdr) in
      let (token, p2, h2) = bind-eq-ok (format_token m len1) _ h1 in
      let len2 = size_sub len1 (length token) in
      let (ops, p3, h3) = bind-eq-ok (format_ops m.op_list 0 len2) _ h2 in
      let len3 = size_sub len2 (length ops) in
      let (payload, p4, h4) = bind-eq-ok (format_payload m len3) _ h3 in
      let (four, room1) = format_hdr_within m len p1 in
      let eq1 = size_sub_lem len (length hdr) small (omega arith) in
      let room2 = format_token_within m len1 p2 in
      let eq2 = size_sub_lem len1 (length token) (omega (arith, eq1)) room2 in
      let room3 =
        format_ops-within char_signed m.op_list 0 len2 f.ops_fit us (omega (arith, eq1, eq2)) p3 in
      let eq3 = size_sub_lem len2 (length ops) (omega (arith, eq1, eq2)) room3 in
      let room4 = format_payload_within m len3 p4 in
      omega (
        arith,
        four,
        room1,
        eq1,
        room2,
        eq2,
        room3,
        eq3,
        room4,
        ap_length h4,
        length-append hdr (token ++ (ops ++ payload)),
        length-append token (ops ++ payload),
        length-append ops payload,
      )
