-- ===== src/Client/Transfer.antt =====
-- lib/src/coap_client.c: sending, receiving, rejecting and acknowledging a message.
use free_co_ap.Common.{
  ℕ, List, [], ◌∷◌, ◌++◌, Option, none, some, Heap, Errno, Result, ok, err, stuck, ebadmsg, Bytes,
  length, take, ◌==◌, if◌then◌else◌,
}
use free_co_ap.Common.Actions.{continue, ◌>>◌}
use free_co_ap.Msg.{Msg, State, create, destroy, zeroed, con, non, ack, rst}
use free_co_ap.Msg.Build.{set_type, set_msg_id}
use free_co_ap.Msg.Format.{format}
use free_co_ap.Msg.Parse.{parse}
use free_co_ap.Msg.Wire.{parse_type_msg_id}
use free_co_ap.Client.{
  Platform, Outcome, moved, Run, C, status, later, max_buf_len, update_ack_timer,
}

abbrev pub next_send : List Outcome → Outcome
next_send [] = moved
next_send (o ∷ os) = o

abbrev pub deliver : Option Errno → Bytes → C ℕ
deliver none buf s = (ok (length buf), record s { sent = s.sent ++ (buf ∷ []) })
deliver (some e) buf s = (err e, s)

abbrev pub transmit : Result Bytes → C ℕ
transmit (ok buf) s = deliver (status (next_send s.sends)) buf (record s { sends = later s.sends })
transmit (err e) s = (err e, s)
transmit stuck s = (stuck, s)

-- coap_client_send
unfoldable pub send : Msg → C ℕ
send msg s = transmit (format msg max_buf_len) s

abbrev pub with_heap : Heap → Run → Run
with_heap h s = record s { heap = h }

-- The message on the stack is destroyed after the send and after a failure.
abbrev pub destroyed_after : Result ℕ × Run → Msg → Result ℕ × Run
destroyed_after (ok n, s) b = (ok 0, with_heap (destroy (record { msg = b; heap = s.heap })).heap s)
destroyed_after (err e, s) b =
    (err e, with_heap (destroy (record { msg = b; heap = s.heap })).heap s)
destroyed_after (stuck, s) b = (stuck, s)

abbrev pub send_built : Result ℕ × State → C ℕ
send_built (ok n, b) s = destroyed_after (send b.msg (with_heap b.heap s)) b.msg
send_built (err e, b) s = destroyed_after (err e, with_heap b.heap s) b.msg
send_built (stuck, b) s = (stuck, s)

-- An empty message of a type and a message ID: created, filled in, sent and destroyed.
unfoldable pub send_empty : ℕ → ℕ → C ℕ
send_empty type msg_id s =
    send_built
      ((set_type type >> set_msg_id msg_id) (create (record { msg = zeroed; heap = s.heap }))) s

abbrev pub reset_sender : Result (ℕ × ℕ) → Run → Run
reset_sender (ok (type, msg_id)) s = if type == con then (send_empty rst msg_id s).1 else s
reset_sender (err e) s = s
reset_sender stuck s = s

-- coap_client_handle_format_error
unfoldable pub handle_format_error : Bytes → Run → Run
handle_format_error buf s = reset_sender (parse_type_msg_id buf) s

abbrev pub with_parsed : State → Run → Run
with_parsed t s = record s { resp = t.msg; heap = t.heap }

abbrev pub after_error : Errno → Bytes → Run → Run
after_error ebadmsg buf s = handle_format_error buf s
after_error _ buf s = s

abbrev pub after_parse : Bytes → Result ℕ × State → C ℕ
after_parse buf (ok n, t) s = (ok (length buf), with_parsed t s)
after_parse buf (err e, t) s = (err e, after_error e buf (with_parsed t s))
after_parse buf (stuck, t) s = (stuck, with_parsed t s)

abbrev pub accept : Platform → Option Errno → Bytes → C ℕ
accept p none buf s =
    after_parse buf (parse p.char_signed buf (record { msg = s.resp; heap = s.heap })) s
accept p (some e) buf s = (err e, s)

abbrev pub receive : Platform → List (Outcome × Bytes) → C ℕ
receive p [] s = (stuck, s)
receive p ((o, datagram) ∷ rest) s =
    accept p (status o) (take max_buf_len datagram) (record s { arrivals = rest })

-- coap_client_recv: the buffer holds 1152 bytes, and what a datagram has more is dropped.
unfoldable pub recv : Platform → C ℕ
recv p s = receive p s.arrivals s

-- coap_client_reject_con
abbrev pub reject_con : Msg → C ℕ
reject_con msg = send_empty rst msg.msg_id

-- coap_client_reject_non, coap_client_reject_ack, coap_client_reject_reset
abbrev pub reject_non : Msg → C ℕ
reject_non msg s = (ok 0, s)

abbrev pub reject_ack : Msg → C ℕ
reject_ack msg s = (ok 0, s)

abbrev pub reject_reset : Msg → C ℕ
reject_reset msg s = (ok 0, s)

-- coap_client_reject
unfoldable pub reject : Msg → C ℕ
reject msg s =
    if msg.type == con
    then reject_con msg s
    else if msg.type == non
    then reject_non msg s
    else if msg.type == ack
    then reject_ack msg s
    else if msg.type == rst
    then reject_reset msg s
    else (ok 0, s)

-- coap_client_send_ack
abbrev pub send_ack : Msg → C ℕ
send_ack msg = send_empty ack msg.msg_id

abbrev pub sent_status : Result ℕ × Run → Result ℕ × Run
sent_status r = continue r λ _ s. (ok 0, s)

-- coap_client_handle_ack_timeout: `ret` is 0 after a send that succeeded.
unfoldable pub handle_ack_timeout : C ℕ
handle_ack_timeout s = continue (update_ack_timer s) λ _ t. sent_status (send t.req t)
