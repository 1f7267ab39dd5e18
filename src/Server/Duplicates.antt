-- ===== src/Server/Duplicates.antt =====
-- Duplicate detection in coap_server_exchange (lib/src/coap_server.c).
use free_co_ap.Common.{
  ℕ, true, ◌||◌, List, [], ◌∷◌, ◌++◌, ◌≡◌, refl, ◌⊎◌, inl, inr, Option, none, some, Heap, Result,
  ok, err, stuck, einval, Bytes, ltb, ◌==◌, if◌then◌else◌, Bool-cases,
}
use free_co_ap.Common.Actions.{continue}
use free_co_ap.Msg.{Msg, State, check, destroy, free_ops, con, non, ack, max_msg_id}
use free_co_ap.Msg.Build.{set_type, set_msg_id}
use free_co_ap.Msg.Format.{format, format_hdr, format_token, format_ops, format_payload, to_be16}
use free_co_ap.Client.{Platform, next_timer, max_buf_len}
use free_co_ap.Client.Effect.{empty_bytes}
use free_co_ap.Server.{Job, J, Handler, touch}
use free_co_ap.Server.Transfer.{
  with_heap, fresh, trans_destroy, match_req, deliver, transmit, used_send, send, destroyed_after,
  send_built, send_empty, send_ack, bad_option, reject_bad_option,
}
use free_co_ap.Server.Exchange.{settle, on_message}

-- The request that the transaction has on record, and the requests that the handler has had.
pub record Calm (j k : Job) : Type 0 where
  pub req_is : k.trans.req ≡ j.trans.req
  pub handled_is : k.shared.handled ≡ j.shared.handled

pub Calm-refl : (j : Job) → Calm j j
Calm-refl j = record { req_is = refl; handled_is = refl }

deliver-Calm : (o : Option ℕ) (buf : Bytes) (j : Job) → Calm j (deliver o buf j).1
unfolding touch
deliver-Calm none buf j = record { req_is = refl; handled_is = refl }
deliver-Calm (some e) buf j = Calm-refl j

transmit-Calm : (r : Result Bytes) (j : Job) → Calm j (transmit r j).1
transmit-Calm (ok buf) j =
    let z = deliver-Calm (next_timer j.shared.sends) buf (used_send j) in
    record { req_is = z.req_is; handled_is = z.handled_is }
transmit-Calm (err e) j = Calm-refl j
transmit-Calm stuck j = Calm-refl j

pub send-Calm : (m : Msg) (j : Job) → Calm j (send m j).1
unfolding send
send-Calm m j = transmit-Calm (format m max_buf_len) j

destroyed_after-Calm :
    (b : Msg) (j : Job) (r : Result ℕ × Job) → Calm j r.1 → Calm j (destroyed_after r b).1
destroyed_after-Calm b j (ok n, k) h = record { req_is = h.req_is; handled_is = h.handled_is }
destroyed_after-Calm b j (err e, k) h = record { req_is = h.req_is; handled_is = h.handled_is }
destroyed_after-Calm b j (stuck, k) h = record { req_is = h.req_is; handled_is = h.handled_is }

send_built-Calm : (r : Result ℕ × State) (j : Job) → Calm j (send_built r j).1
send_built-Calm (ok n, b) j =
    let z = send-Calm b.msg (with_heap b.heap j) in
    destroyed_after-Calm b.msg j (send b.msg (with_heap b.heap j))
      (record { req_is = z.req_is; handled_is = z.handled_is })
send_built-Calm (err e, b) j = record { req_is = refl; handled_is = refl }
send_built-Calm (stuck, b) j = record { req_is = refl; handled_is = refl }

pub send_empty-Calm : (type msg_id : ℕ) (j : Job) → Calm j (send_empty type msg_id j).1
unfolding send_empty
send_empty-Calm type msg_id j = send_built-Calm _ j

pub reject_bad_option-Calm :
    (m : Msg) (op_num : ℕ) (j : Job) → Calm j (reject_bad_option m op_num j).1
unfolding reject_bad_option
reject_bad_option-Calm m op_num j = elim (Bool-cases (m.type == non)) [
  | inl e ↦ rw e (Calm-refl j)
  | inr e ↦ rw e (send_built-Calm (bad_option m op_num (fresh j)) j)
]

-- What coap_server_trans_send_ack does, with the message library computed away.
abbrev ack_sent : ℕ → J ℕ
ack_sent msg_id j =
    if ltb max_msg_id msg_id
    then (err einval, j)
    else continue (deliver (next_timer j.shared.sends) (empty_bytes ack msg_id) (used_send j))
        λ _ k. (ok 0, k)

destroyed_after-deliver :
    (o : Option ℕ) (buf : Bytes) (b : Msg) (j : Job)
    → ((h : Heap) → (destroy (record { msg = b; heap = h })).heap ≡ h)
    → destroyed_after (deliver o buf j) b ≡ continue (deliver o buf j) (λ _ k. (ok 0, k))
unfolding touch
destroyed_after-deliver none buf b j h = rw (h j.shared.heap)
destroyed_after-deliver (some e) buf b j h = rw (h j.shared.heap)

pub send_ack_lem : (m : Msg) (j : Job) → send_ack m j ≡ ack_sent m.msg_id j
unfolding send_empty set_type set_msg_id send format check format_hdr format_token format_ops
    format_payload to_be16 destroy free_ops
send_ack_lem m j = elim (Bool-cases (ltb max_msg_id m.msg_id)) [
  | inl e ↦ rw e
  | inr e ↦ rw e (destroyed_after-deliver (next_timer j.shared.sends) _ _ _ λ h. refl)
]

-- The handler was not called, and an empty acknowledgement is all that may have been sent.
pub record Acknowledged (m : Msg) (j k : Job) : Type 0 where
  pub handled_is : k.shared.handled ≡ j.shared.handled
  pub sent_is :
      (k.shared.sent ≡ j.shared.sent)
      ⊎ (k.shared.sent ≡ j.shared.sent ++ ((j.trans.client_sin, empty_bytes ack m.msg_id) ∷ []))

settle-Acknowledged :
    (m : Msg) (j : Job) (r : Result ℕ × Job)
    → Acknowledged m j r.1
    → Acknowledged m j (settle m r).1
unfolding trans_destroy
settle-Acknowledged m j (ok n, k) h = record { handled_is = h.handled_is; sent_is = h.sent_is }
settle-Acknowledged m j (err e, k) h = record { handled_is = h.handled_is; sent_is = h.sent_is }
settle-Acknowledged m j (stuck, k) h = record { handled_is = h.handled_is; sent_is = h.sent_is }

delivered-Acknowledged :
    (m : Msg) (j : Job) (o : Option ℕ)
    → Acknowledged m j
        (continue
          (deliver o (empty_bytes ack m.msg_id) (used_send j))
          (λ _ k. (ok (let z : ℕ = 0 in z), k))).1
unfolding touch
delivered-Acknowledged m j none = record { handled_is = refl; sent_is = inr refl }
delivered-Acknowledged m j (some e) = record { handled_is = refl; sent_is = inl refl }

send_ack-Acknowledged : (m : Msg) (j : Job) → Acknowledged m j (send_ack m j).1
send_ack-Acknowledged m j = elim (Bool-cases (ltb max_msg_id m.msg_id)) [
  | inl e ↦ rw (send_ack_lem m j, e) (record { handled_is = refl; sent_is = inl refl })
  | inr e ↦ rw (send_ack_lem m j, e) (delivered-Acknowledged m j (next_timer j.shared.sends))
]

-- A confirmable or non-confirmable message that has the message ID of the request on record never
-- reaches the handler: an empty acknowledgement with its ID is sent again, or nothing.
pub on_message-Acknowledged :
    (p : Platform) (handle : Handler) (sep_list : List Bytes) (m : Msg) (j : Job)
    → match_req j.trans m ≡ true
    → (m.type == con || m.type == non) ≡ true
    → Acknowledged m j (on_message p handle sep_list m j).1
unfolding on_message
on_message-Acknowledged p handle sep_list m j e t = elim (Bool-cases (m.type == con)) [
  | inl c ↦ rw (e, c) (settle-Acknowledged m j (send_ack m j) (send_ack-Acknowledged m j))
  | inr c ↦
      let n : (m.type == non) ≡ true = rw c at t in
      rw (e, c, n) (record { handled_is = refl; sent_is = inl refl })
]
