-- ===== src/Server/Transfer.antt =====
-- lib/src/coap_server.c: a transaction's messages: sending, receiving, rejecting, acknowledging.
use free_co_ap.Common.{
  ℕ, zero, suc, ◌+◌, ◌/◌, ◌%◌, Bool, true, false, ◌&&◌, not, List, [], ◌∷◌, ◌++◌, Option, none,
  some, Heap, Errno, Result, ok, err, stuck, ebadmsg, einval, etimedout, os, Bytes, length, take,
  ◌==◌, if◌then◌else◌,
}
use Prim.Native.Char.{code}
use Prim.Native.String.{String}
use free_co_ap.Common.Actions.{continue, ◌>>◌}
use free_co_ap.Msg.{Msg, State, create, reset, destroy, zeroed, con, non, ack, rst}
use free_co_ap.Msg.Build.{set_type, set_code, set_msg_id, set_token, set_payload, copy}
use free_co_ap.Msg.Format.{format}
use free_co_ap.Msg.Parse.{parse}
use free_co_ap.Msg.Wire.{parse_type_msg_id}
use free_co_ap.Client.{next_timer, later, max_buf_len}
use free_co_ap.Client.Exchange.{same_front}
use free_co_ap.Server.{Trans, Shared, Job, J, cleared, touch, update_ack_timer}

abbrev pub with_trans : Trans → Job → Job
with_trans t j = record j { trans = t }

abbrev pub with_heap : Heap → Job → Job
with_heap h j = record j { shared = record (j.shared) { heap = h } }

-- A message that is not the transaction's own, destroyed.
abbrev pub drop_msg : Msg → Job → Job
drop_msg m j = with_heap (destroy (record { msg = m; heap = j.shared.heap })).heap j

-- coap_server_trans_destroy
unfoldable pub trans_destroy : Job → Job
trans_destroy j =
    let k = drop_msg j.trans.req (drop_msg j.trans.resp j) in
    record { trans = cleared; shared = record (k.shared) { closed = suc k.shared.closed } }

-- coap_server_trans_match_req
unfoldable pub match_req : Trans → Msg → Bool
match_req t msg = not (t.req.ver == 0) && t.req.msg_id == msg.msg_id

-- coap_server_trans_match_resp
unfoldable pub match_resp : Trans → Msg → Bool
match_resp t msg = not (t.resp.ver == 0) && t.resp.msg_id == msg.msg_id

abbrev pub with_req : Result ℕ × State → J ℕ
with_req (r, s) j = (r, with_heap s.heap (with_trans (record (j.trans) { req = s.msg }) j))

abbrev pub with_resp : Result ℕ × State → J ℕ
with_resp (r, s) j = (r, with_heap s.heap (with_trans (record (j.trans) { resp = s.msg }) j))

abbrev pub req_state : Job → State
req_state j = record { msg = j.trans.req; heap = j.shared.heap }

abbrev pub resp_state : Job → State
resp_state j = record { msg = j.trans.resp; heap = j.shared.heap }

-- coap_server_trans_clear_req
unfoldable pub clear_req : J ℕ
clear_req j = with_req (ok 0, destroy (req_state j)) j

-- coap_server_trans_clear_resp
unfoldable pub clear_resp : J ℕ
clear_resp j = with_resp (ok 0, destroy (resp_state j)) j

-- coap_server_trans_set_req
unfoldable pub set_req : Msg → J ℕ
set_req msg j = with_req (copy msg (reset (req_state j))) j

-- coap_server_trans_set_resp
unfoldable pub set_resp : Msg → J ℕ
set_resp msg j = with_resp (copy msg (reset (resp_state j))) j

abbrev pub deliver : Option ℕ → Bytes → J ℕ
deliver none buf j = (
  ok (length buf),
  touch (record j {
    shared = record (j.shared) { sent = j.shared.sent ++ ((j.trans.client_sin, buf) ∷ []) };
  }),
)
deliver (some e) buf j = (err (os e), j)

abbrev pub used_send : Job → Job
used_send j = record j { shared = record (j.shared) { sends = later j.shared.sends } }

abbrev pub transmit : Result Bytes → J ℕ
transmit (ok buf) j = deliver (next_timer j.shared.sends) buf (used_send j)
transmit (err e) j = (err e, j)
transmit stuck j = (stuck, j)

-- coap_server_trans_send
unfoldable pub send : Msg → J ℕ
send msg j = transmit (format msg max_buf_len) j

-- The message on the stack is destroyed after the send and after a failure.
abbrev pub destroyed_after : Result ℕ × Job → Msg → Result ℕ × Job
destroyed_after (ok n, j) b = (ok 0, drop_msg b j)
destroyed_after (err e, j) b = (err e, drop_msg b j)
destroyed_after (stuck, j) b = (stuck, drop_msg b j)

abbrev pub send_built : Result ℕ × State → J ℕ
send_built (ok n, b) j = destroyed_after (send b.msg (with_heap b.heap j)) b.msg
send_built (err e, b) j = destroyed_after (err e, with_heap b.heap j) b.msg
send_built (stuck, b) j = destroyed_after (stuck, with_heap b.heap j) b.msg

abbrev pub fresh : Job → State
fresh j = create (record { msg = zeroed; heap = j.shared.heap })

-- An empty message of a type and a message ID: created, filled in, sent and destroyed.
unfoldable pub send_empty : ℕ → ℕ → J ℕ
send_empty type msg_id j = send_built ((set_type type >> set_msg_id msg_id) (fresh j)) j

abbrev pub reset_sender : Result (ℕ × ℕ) → Job → Job
reset_sender (ok (type, msg_id)) j = if type == con then (send_empty rst msg_id j).1 else j
reset_sender (err e) j = j
reset_sender stuck j = j

-- coap_server_trans_handle_format_error
unfoldable pub handle_format_error : Bytes → Job → Job
handle_format_error buf j = reset_sender (parse_type_msg_id buf) j

-- recvfrom: an error, or the first datagram at the socket, which does not block; EAGAIN is 11.
abbrev pub arrived : Option ℕ → List (Bytes × Bytes) → Result (Bytes × Bytes)
arrived (some e) queue = err (os e)
arrived none [] = err (os 11)
arrived none (d ∷ queue) = ok d

abbrev pub used_recv : Shared → Shared
used_recv s = record s { recvs = later s.recvs }

-- recvfrom with MSG_PEEK: the datagram stays.
abbrev pub peek : Shared → Result (Bytes × Bytes) × Shared
peek s = (arrived (next_timer s.recvs) s.queue, used_recv s)

-- A datagram read is gone from the socket.
abbrev pub consumed : Result (Bytes × Bytes) × Shared → Result (Bytes × Bytes) × Shared
consumed (ok d, s) = (ok d, record s { queue = later s.queue })
consumed (err e, s) = (err e, s)
consumed (stuck, s) = (stuck, s)

abbrev pub consume : Shared → Result (Bytes × Bytes) × Shared
consume s = consumed (peek s)

-- An address read and its length are those of the transaction.
unfoldable pub same_address : Bytes → Bytes → Bool
same_address sin other = length sin == length other && same_front (length other) sin other

abbrev pub after_error : Errno → Bytes → Job → Job
after_error ebadmsg buf j = handle_format_error buf j
after_error _ buf j = j

-- What a receive gives: the number of bytes, the message received, and the job.
abbrev pub Received : Type 0
Received = Result ℕ × Msg × Job

abbrev pub after_parse : Bytes → Result ℕ × State → Job → Received
after_parse buf (ok n, t) j = (ok (length buf), t.msg, touch (with_heap t.heap j))
after_parse buf (err e, t) j = (err e, t.msg, after_error e buf (with_heap t.heap j))
after_parse buf (stuck, t) j = (stuck, t.msg, with_heap t.heap j)

abbrev pub take_in : Bool → Msg → Bytes → Result (Bytes × Bytes) × Shared → Job → Received
take_in char_signed msg buf (ok d, s) j =
    after_parse buf (parse char_signed buf (record { msg = msg; heap = s.heap }))
      (record j { shared = s })
take_in char_signed msg buf (err e, s) j = (err e, msg, record j { shared = s })
take_in char_signed msg buf (stuck, s) j = (stuck, msg, record j { shared = s })

abbrev pub check_sender : Bool → Msg → Result (Bytes × Bytes) × Shared → Job → Received
check_sender char_signed msg (ok (sender, datagram), s) j =
    if not (same_address j.trans.client_sin sender)
    then (err einval, msg, record j { shared = s })
    else take_in char_signed msg (take max_buf_len datagram) (consume s) j
check_sender char_signed msg (err e, s) j = (err e, msg, record j { shared = s })
check_sender char_signed msg (stuck, s) j = (stuck, msg, record j { shared = s })

-- coap_server_trans_recv, into the message that it is handed.
unfoldable pub recv : Bool → Msg → Job → Received
recv char_signed msg j = check_sender char_signed msg (peek j.shared) j

-- coap_server_trans_reject_con
abbrev pub reject_con : Msg → J ℕ
reject_con msg = send_empty rst msg.msg_id

-- coap_server_trans_reject_non, coap_server_trans_reject_ack, coap_server_trans_reject_reset
abbrev pub reject_non : Msg → J ℕ
reject_non msg j = (ok 0, j)

abbrev pub reject_ack : Msg → J ℕ
reject_ack msg j = (ok 0, j)

abbrev pub reject_reset : Msg → J ℕ
reject_reset msg j = (ok 0, j)

-- coap_server_trans_reject
unfoldable pub reject : Msg → J ℕ
reject msg j =
    if msg.type == con
    then reject_con msg j
    else if msg.type == non
    then reject_non msg j
    else if msg.type == ack
    then reject_ack msg j
    else if msg.type == rst
    then reject_reset msg j
    else (ok 0, j)

-- The decimal digits of a number, as snprintf prints an unsigned; ten are enough.
unfoldable pub decimal : ℕ → ℕ → Bytes
decimal zero n = []
decimal (suc fuel) n =
    let front = decimal fuel (n / 10) in
    if n / 10 == 0 then (48 + n % 10) ∷ [] else front ++ ((48 + n % 10) ∷ [])

-- The characters of a text.
abbrev pub codes : String → Bytes
codes String.[] = []
codes (String.◌∷◌ c cs) = code c ∷ codes cs

abbrev pub diagnostic : ℕ → Bytes
diagnostic op_num = codes "Bad option number: " ++ decimal 10 op_num

-- The 4.02 response: COAP_MSG_CLIENT_ERR is 4, COAP_MSG_BAD_OPTION is 2.
abbrev pub bad_option : Msg → ℕ → State → Result ℕ × State
bad_option msg op_num = do
  set_type ack
  set_code 4 2
  set_msg_id msg.msg_id
  set_token msg.token msg.token_len
  set_payload (diagnostic op_num) (length (diagnostic op_num))

-- coap_server_trans_reject_bad_option
unfoldable pub reject_bad_option : Msg → ℕ → J ℕ
reject_bad_option msg op_num j =
    if msg.type == non then reject_non msg j else send_built (bad_option msg op_num (fresh j)) j

-- coap_server_trans_send_ack
abbrev pub send_ack : Msg → J ℕ
send_ack msg = send_empty ack msg.msg_id

abbrev pub sent_status : Result ℕ × Job → Result ℕ × Job
sent_status r = continue r λ _ j. (ok 0, j)

-- ETIMEDOUT, which is 110 where it comes from errno.
abbrev pub is_timeout : Errno → Bool
is_timeout etimedout = true
is_timeout (os e) = e == 110
is_timeout _ = false

abbrev pub on_timeout : Result ℕ × Job → Result ℕ × Job
on_timeout (ok n, j) = sent_status (send j.trans.resp j)
on_timeout (err e, j) = if is_timeout e then (ok 0, trans_destroy j) else (err e, j)
on_timeout (stuck, j) = (stuck, j)

-- coap_server_trans_handle_ack_timeout
unfoldable pub handle_ack_timeout : J ℕ
handle_ack_timeout j = on_timeout (update_ack_timer j)
