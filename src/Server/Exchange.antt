-- ===== src/Server/Exchange.antt =====
-- lib/src/coap_server.c: coap_server_exchange, from the message that arrives to the response.
use free_co_ap.Common.{
  ℕ, Bool, true, false, ◌&&◌, ◌||◌, not, List, [], ◌∷◌, ◌++◌, Option, none, some, Errno, Result, ok,
  err, stuck, ebadmsg, Bytes, ◌==◌, if◌then◌else◌,
}
use free_co_ap.Common.Actions.{◌>>◌}
use free_co_ap.Msg.{Msg, State, created, con, non, ack, rst}
use free_co_ap.Msg.Build.{set_type, set_msg_id, set_token}
use free_co_ap.Client.{Platform}
use free_co_ap.Client.Exchange.{check_options}
use free_co_ap.Server.{
  Shared, Job, J, Server, Handler, start_ack_timer, stop_ack_timer, get_next_msg_id,
}
use free_co_ap.Server.Transfer.{
  with_heap, drop_msg, fresh, trans_destroy, match_req, match_resp, clear_req, clear_resp, set_req,
  set_resp, send, peek, Received, recv, reject, reject_bad_option, send_ack,
}
use free_co_ap.Server.Paths.{get_resp_type}
use free_co_ap.Server.Table.{
  find_trans, find_empty_trans, find_oldest_trans, on_trans, trans_create,
}

-- The exits with an error: the response `b`, the transaction and the request `m` are destroyed.
abbrev pub give_up : Msg → Msg → Errno → J ℕ
give_up b m e j = (err e, drop_msg m (trans_destroy (drop_msg b j)))

abbrev pub attempt : Msg → Msg → Result ℕ × Job → J ℕ → Result ℕ × Job
attempt b m (ok n, j) k = k j
attempt b m (err e, j) k = give_up b m e j
attempt b m (stuck, j) k = (stuck, drop_msg m (trans_destroy (drop_msg b j)))

abbrev pub await_ack : Msg → J ℕ
await_ack b j = if b.type == con then start_ack_timer j else (ok 0, j)

-- The response `b` is sent and recorded, and the timer started where it is confirmable.
unfoldable pub conclude : Msg → Msg → J ℕ
conclude m b j = attempt b m (send b j) λ j1. attempt b m (set_req m j1) λ j2.
    attempt b m (set_resp b j2)
      λ j3. attempt b m (await_ack b j3) λ j4. (ok 0, drop_msg m (drop_msg b j4))

abbrev pub conclude_built : Msg → Result ℕ × State → J ℕ
conclude_built m (ok n, b) j = conclude m b.msg (with_heap b.heap j)
conclude_built m (err e, b) j = give_up b.msg m e (with_heap b.heap j)
conclude_built m (stuck, b) j =
    (stuck, drop_msg m (trans_destroy (drop_msg b.msg (with_heap b.heap j))))

-- The message ID of the response, its type, and with them its header.
abbrev pub response_id : Bool → Msg → Shared → ℕ × Shared
response_id sep m s = if m.type == con && not sep then (m.msg_id, s) else get_next_msg_id s

abbrev pub response_type : Bool → Msg → ℕ
response_type sep m = if m.type == con then if not sep then ack else con else non

abbrev pub address_response : ℕ → Bool → Msg → State → Result ℕ × State
address_response id sep m = do
  set_msg_id id
  set_token m.token m.token_len
  set_type (response_type sep m)

abbrev pub with_shared : Shared → Job → Job
with_shared s j = record j { shared = s }

abbrev pub after_handler : Bool → Msg → Result ℕ × State → J ℕ
after_handler sep m (ok n, b) j =
    let r = response_id sep m j.shared in
    conclude_built m (address_response r.0 sep m b) (with_shared r.1 j)
after_handler sep m (err e, b) j = give_up b.msg m e (with_heap b.heap j)
after_handler sep m (stuck, b) j =
    (stuck, drop_msg m (trans_destroy (drop_msg b.msg (with_heap b.heap j))))

-- The handler is called on the request and a new message.
unfoldable pub respond : Handler → Bool → Msg → J ℕ
respond handle sep m j =
    after_handler sep m (handle m (fresh j))
      (with_shared (record (j.shared) { handled = j.shared.handled ++ (m ∷ []) }) j)

-- A call whose failure ends the transaction: the request `m` is destroyed in any case.
abbrev pub settle : Msg → Result ℕ × Job → Result ℕ × Job
settle m (ok n, j) = (ok 0, drop_msg m j)
settle m (err e, j) = (err e, trans_destroy (drop_msg m j))
settle m (stuck, j) = (stuck, trans_destroy (drop_msg m j))

abbrev pub after_ack : Msg → Result ℕ × Job → J ℕ → Result ℕ × Job
after_ack m (ok n, j) k = k j
after_ack m (err e, j) k = (err e, drop_msg m (trans_destroy j))
after_ack m (stuck, j) k = (stuck, drop_msg m (trans_destroy j))

abbrev pub is_separate : List Bytes → Msg → Bool
is_separate sep_list m = m.type == con && get_resp_type sep_list m

-- A request with acceptable options: the last exchange is cleared, and the response made.
unfoldable pub answer : Handler → List Bytes → Msg → J ℕ
answer handle sep_list m j =
    let k = (clear_resp (clear_req j).1).1 in
    if is_separate sep_list m
    then after_ack m (send_ack m k) (respond handle true m)
    else respond handle false m k

abbrev pub ended : Msg → Result ℕ × Job → Result ℕ × Job
ended m (r, j) = (r, trans_destroy (drop_msg m j))

unfoldable pub is_request : Msg → Bool
is_request m = not (m.type == ack || m.type == rst || not (m.code_class == 0))

-- What coap_server_exchange makes of a message.
unfoldable pub on_message : Platform → Handler → List Bytes → Msg → J ℕ
on_message p handle sep_list m j =
    if match_req j.trans m && m.type == con
    then settle m (send_ack m j)
    else if match_req j.trans m && m.type == non
    then (ok 0, drop_msg m j)
    else if match_resp j.trans m && (m.type == ack || m.type == rst)
    then settle m (stop_ack_timer j)
    else if not (is_request m)
    then (err ebadmsg, trans_destroy (drop_msg m (reject m j).1))
    else if not (check_options p m == 0)
    then ended m (reject_bad_option m (check_options p m) j)
    else answer handle sep_list m j

abbrev pub on_received : Platform → Handler → List Bytes → Received → Result ℕ × Job
on_received p handle sep_list (ok n, m, j) = on_message p handle sep_list m j
on_received p handle sep_list (err e, m, j) = (err e, trans_destroy (drop_msg m j))
on_received p handle sep_list (stuck, m, j) = (stuck, trans_destroy (drop_msg m j))

-- From coap_server_trans_recv on.
unfoldable pub serve : Platform → Handler → List Bytes → J ℕ
serve p handle sep_list j = on_received p handle sep_list (recv p.char_signed created j)

abbrev pub serve_created : Platform → Handler → List Bytes → Result ℕ × Job → Result ℕ × Job
serve_created p handle sep_list (ok n, j) = serve p handle sep_list j
serve_created p handle sep_list (err e, j) = (err e, j)
serve_created p handle sep_list (stuck, j) = (stuck, j)

-- A new transaction for the sender, and its first message.
unfoldable pub serve_new : Platform → Handler → List Bytes → Bytes → J ℕ
serve_new p handle sep_list sin j = serve_created p handle sep_list (trans_create sin j)

abbrev pub place_new : Platform → Handler → Bytes → Option ℕ → Server → Result ℕ × Server
place_new p handle sin (some i) s = on_trans i (serve_new p handle s.sep_list sin) s
place_new p handle sin none s =
    on_trans (find_oldest_trans s.table) (λ j. serve_new p handle s.sep_list sin (trans_destroy j))
      s

abbrev pub dispatch : Platform → Handler → Bytes → Option ℕ → Server → Result ℕ × Server
dispatch p handle sin (some i) s = on_trans i (serve p handle s.sep_list) s
dispatch p handle sin none s = place_new p handle sin (find_empty_trans s.table) s

-- coap_server_accept: the sender of the first datagram.
abbrev pub accepted :
    Platform → Handler → Server → Result (Bytes × Bytes) × Shared → Result ℕ × Server
accepted p handle s (ok (sin, _), t) =
    dispatch p handle sin (find_trans sin s.table) (record s { shared = t })
accepted p handle s (err e, t) = (err e, record s { shared = t })
accepted p handle s (stuck, t) = (stuck, record s { shared = t })

-- coap_server_exchange
unfoldable pub exchange : Platform → Handler → Server → Result ℕ × Server
exchange p handle s = accepted p handle s (peek s.shared)
