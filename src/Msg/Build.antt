-- ===== src/Msg/Build.antt =====
-- lib/src/coap_msg.c: the functions that set the fields of a message, and coap_msg_copy.
use free_co_ap.Common.{
  ℕ, Bool, true, false, ◌||◌, not, List, [], ◌∷◌, none, some, Heap, malloc, Result, ok, err, einval,
  enomem, Bytes, take, ltb, ◌==◌, if◌then◌else◌,
}
use free_co_ap.Msg.{
  Op, Msg, State, M, ◌>>◌, return, con, non, ack, rst, max_token_len, max_code_class,
  max_code_detail, max_msg_id, free_payload,
}
use free_co_ap.Msg.Options.{add_sorted}
use free_co_ap.Msg.Parse.{copy_front, with_payload}
use free_co_ap.Msg.Format.{payload_bytes}

-- coap_msg_set_type
unfoldable pub set_type : ℕ → M ℕ
set_type t s =
    if not (t == con || t == non || t == ack || t == rst)
    then (err einval, s)
    else (ok 0, record s { msg = record (s.msg) { type = t } })

-- coap_msg_set_code
unfoldable pub set_code : ℕ → ℕ → M ℕ
set_code code_class code_detail s =
    if ltb max_code_class code_class
    then (err einval, s)
    else if ltb max_code_detail code_detail
    then (err einval, s)
    else (
      ok 0,
      record s { msg = record (s.msg) { code_class = code_class; code_detail = code_detail } },
    )

-- coap_msg_set_msg_id
unfoldable pub set_msg_id : ℕ → M ℕ
set_msg_id msg_id s =
    if ltb max_msg_id msg_id
    then (err einval, s)
    else (ok 0, record s { msg = record (s.msg) { msg_id = msg_id } })

-- coap_msg_set_token
unfoldable pub set_token : Bytes → ℕ → M ℕ
set_token buf len s = if ltb max_token_len len then (err einval, s) else (
  ok 0,
  record s { msg = record (s.msg) { token = copy_front len buf s.msg.token; token_len = len } },
)

-- coap_msg_add_op
abbrev pub add_op : ℕ → ℕ → Bytes → M ℕ
add_op = add_sorted

-- What coap_msg_set_payload makes of the first `n` bytes of the buffer.
abbrev pub store : ℕ → Bytes → Msg → Bool × Heap → Result ℕ × State
store n buf m (false, h) = (err enomem, record { msg = m; heap = h })
store n buf m (true, h) = (ok 0, record { msg = with_payload m (some (take n buf)) n; heap = h })

-- coap_msg_set_payload: the old payload goes first, so that it is lost where malloc fails.
unfoldable pub set_payload : Bytes → ℕ → M ℕ
set_payload buf len s =
    let m = with_payload s.msg none 0 in
    let h = free_payload s.msg.payload s.heap in
    if len == 0 then (ok 0, record { msg = m; heap = h }) else store len buf m (malloc h)

-- The loop of coap_msg_copy.
unfoldable pub copy_ops : List Op → M ℕ
copy_ops [] s = (ok 0, s)
copy_ops (op ∷ ops) s = (add_op op.num op.len op.val >> copy_ops ops) s

abbrev pub set_ver : ℕ → M ℕ
set_ver v s = (ok 0, record s { msg = record (s.msg) { ver = v } })

-- coap_msg_copy, into the message of the state.
unfoldable pub copy : Msg → M ℕ
copy src = do
  set_ver src.ver
  set_type src.type
  set_code src.code_class src.code_detail
  set_msg_id src.msg_id
  set_token src.token src.token_len
  copy_ops src.op_list
  set_payload (payload_bytes src.payload) src.payload_len
  return 0
