-- ===== src/Server/Deliveries.antt =====
-- The books of lib/src/coap_server.c's functions of a transaction: timers, sending, receiving,
-- rejecting, acknowledging, retransmitting.
use free_co_ap.Common.{
  ℕ, ◌+◌, Bool, [], ◌∷◌, ◌++◌, append_assoc, ◌≡◌, refl, ap, ◌∙◌, inl, inr, Option, none, some,
  Errno, ebadmsg, einval, enospc, enomem, ebusy, econnreset, etimedout, os, Result, ok, err, stuck,
  Bytes, take, length, leb, ◌==◌, if◌then◌else◌, arith, Bool-cases,
}
use free_co_ap.Common.Actions.{continue}
use free_co_ap.Msg.{Msg, State, created, destroy, reset, owned_blocks, con, non, ack, rst}
use free_co_ap.Msg.Format.{format}
use free_co_ap.Msg.Wire.{parse_type_msg_id}
use free_co_ap.Msg.Build.{copy}
use free_co_ap.Msg.Leaks.{Balanced, Balanced-trans, parse-Balanced}
use free_co_ap.Msg.Blocks.{
  Keeping, ◌then◌, set_type-Keeping, set_code-Keeping, set_msg_id-Keeping, set_token-Keeping,
  set_payload-Keeping, copy-Keeping, reset-Balanced, destroy-Balanced,
}
use free_co_ap.Client.{next_timer, max_buf_len}
use free_co_ap.Server.{
  Shared, Job, max_retransmit, set_timer, settime, start_timer, stop_timer, start_ack_timer,
  stop_ack_timer, update_ack_timer, double_timeout, init_ack_timeout, with_num_retrans,
  count_retrans, touch,
}
use free_co_ap.Server.Transfer.{
  with_heap, fresh, deliver, transmit, send, destroyed_after, send_built, send_empty, reset_sender,
  handle_format_error, peek, consumed, same_address, after_error, Received, after_parse, take_in,
  check_sender, recv, reject, bad_option, diagnostic, reject_bad_option, is_timeout, sent_status,
  on_timeout, handle_ack_timeout, with_req, with_resp, req_state, resp_state, set_req, set_resp,
  clear_req, clear_resp,
}
use free_co_ap.Server.Books.{
  IsTo, All-append, Live, Served, quiet-Live, recount-Live, with_heap-Live, drop_msg-Live,
  trans_destroy-Over,
}

-- Only a confirmable message makes coap_server_trans_reject send.
reject-eq :
    (m : Msg) (j : Job)
    → reject m j ≡ (if m.type == con then send_empty rst m.msg_id j else (ok 0, j))
unfolding reject
reject-eq m j = ground arith

module _ (sin : Bytes) (base : Job) where
  set_timer-Live :
      {extra : ℕ} (o : Option ℕ) (v : Option (ℕ × ℕ)) (j : Job)
      → Live sin base extra j
      → Live sin base extra (set_timer o v j).1
  set_timer-Live none v j l = quiet-Live sin base j _ l refl refl refl refl refl refl refl refl
  set_timer-Live (some e) v j l = l

  settime-Live :
      {extra : ℕ} (v : Option (ℕ × ℕ)) (j : Job)
      → Live sin base extra j
      → Live sin base extra (settime v j).1
  settime-Live v j l =
      set_timer-Live (next_timer j.shared.timers) v _
        (quiet-Live sin base j _ l refl refl refl refl refl refl refl refl)

  pub start_ack_timer-Live :
      {extra : ℕ} (j : Job) → Live sin base extra j → Live sin base extra (start_ack_timer j).1
  unfolding start_ack_timer start_timer init_ack_timeout
  start_ack_timer-Live j l =
      let k = init_ack_timeout (with_num_retrans 0 j) in
      settime-Live (some (k.trans.tv_sec, k.trans.tv_nsec)) k
        (quiet-Live sin base j _ l refl refl refl refl refl refl refl refl)

  pub stop_ack_timer-Live :
      {extra : ℕ} (j : Job) → Live sin base extra j → Live sin base extra (stop_ack_timer j).1
  unfolding stop_ack_timer stop_timer
  stop_ack_timer-Live j l =
      settime-Live none (with_num_retrans 0 j)
        (quiet-Live sin base j _ l refl refl refl refl refl refl refl refl)

  touch-Live : {extra : ℕ} (j : Job) → Live sin base extra j → Live sin base extra (touch j)
  unfolding touch
  touch-Live j l = quiet-Live sin base j _ l refl refl refl refl refl refl refl refl

  deliver-Live :
      {extra : ℕ} (o : Option ℕ) (buf : Bytes) (j : Job)
      → Live sin base extra j
      → Live sin base extra (deliver o buf j).1
  deliver-Live none buf j l = touch-Live _ (record {
    books = record {
      news = l.books.news ++ ((j.trans.client_sin, buf) ∷ []);
      sent_is =
          ap (λ ms. ms ++ ((j.trans.client_sin, buf) ∷ [])) l.books.sent_is
          ∙ append_assoc base.shared.sent l.books.news ((j.trans.client_sin, buf) ∷ []);
      to_sender = All-append (IsTo sin) l.books.news _ l.books.to_sender (l.sin_is, tt);
      blocks = l.books.blocks;
      timers = l.books.timers;
    };
    active_is = l.active_is;
    sin_is = l.sin_is;
  })
  deliver-Live (some e) buf j l = l

  transmit-Live :
      {extra : ℕ} (r : Result Bytes) (j : Job)
      → Live sin base extra j
      → Live sin base extra (transmit r j).1
  transmit-Live (ok buf) j l =
      deliver-Live (next_timer j.shared.sends) buf _
        (quiet-Live sin base j _ l refl refl refl refl refl refl refl refl)
  transmit-Live (err e) j l = l
  transmit-Live stuck j l = l

  pub send-Live :
      {extra : ℕ} (m : Msg) (j : Job) → Live sin base extra j → Live sin base extra (send m j).1
  unfolding send
  send-Live m j l = transmit-Live (format m max_buf_len) j l

  destroyed_after-Live :
      {extra : ℕ} (b : Msg) (r : Result ℕ × Job)
      → Live sin base (owned_blocks b + extra) r.1
      → Live sin base extra (destroyed_after r b).1
  destroyed_after-Live b (ok n, j) l = drop_msg-Live sin base b j l
  destroyed_after-Live b (err e, j) l = drop_msg-Live sin base b j l
  destroyed_after-Live b (stuck, j) l = drop_msg-Live sin base b j l

  -- A message built from a new one is sent, and destroyed on every path.
  send_built-Live :
      {extra : ℕ} (r : Result ℕ × State) (j : Job)
      → Live sin base extra j
      → Balanced (fresh j) r.1
      → Live sin base extra (send_built r j).1
  send_built-Live (ok n, b) j l h =
      destroyed_after-Live b.msg _ (send-Live b.msg _ (with_heap-Live sin base j b l h))
  send_built-Live (err e, b) j l h =
      destroyed_after-Live b.msg (err e, with_heap b.heap j) (with_heap-Live sin base j b l h)
  send_built-Live (stuck, b) j l h =
      destroyed_after-Live b.msg (stuck, with_heap b.heap j) (with_heap-Live sin base j b l h)

  pub send_empty-Live :
      {extra : ℕ} (type msg_id : ℕ) (j : Job)
      → Live sin base extra j
      → Live sin base extra (send_empty type msg_id j).1
  unfolding send_empty
  send_empty-Live type msg_id j l =
      send_built-Live _ j l ((set_type-Keeping type then set_msg_id-Keeping msg_id).kept (fresh j))

  bad_option-Keeping : (m : Msg) (op_num : ℕ) → Keeping (bad_option m op_num)
  bad_option-Keeping m op_num =
      set_type-Keeping ack
      then set_code-Keeping 4 2
      then set_msg_id-Keeping m.msg_id
      then set_token-Keeping m.token m.token_len
      then set_payload-Keeping (diagnostic op_num) (length (diagnostic op_num))

  pub reject_bad_option-Live :
      {extra : ℕ} (m : Msg) (op_num : ℕ) (j : Job)
      → Live sin base extra j
      → Live sin base extra (reject_bad_option m op_num j).1
  unfolding reject_bad_option
  reject_bad_option-Live m op_num j l = elim (Bool-cases (m.type == non)) [
    | inl e ↦ rw e l
    | inr e ↦ rw e (
        send_built-Live (bad_option m op_num (fresh j)) j l
          ((bad_option-Keeping m op_num).kept (fresh j)))
  ]

  pub reject-Live :
      {extra : ℕ} (m : Msg) (j : Job) → Live sin base extra j → Live sin base extra (reject m j).1
  reject-Live m j l = elim (Bool-cases (m.type == con)) [
    | inl e ↦ rw (reject-eq m j, e) (send_empty-Live rst m.msg_id j l)
    | inr e ↦ rw (reject-eq m j, e) l
  ]

  reset_sender-Live :
      {extra : ℕ} (r : Result (ℕ × ℕ)) (j : Job)
      → Live sin base extra j
      → Live sin base extra (reset_sender r j)
  reset_sender-Live (ok (type, msg_id)) j l = elim (Bool-cases (type == con)) [
    | inl e ↦ rw e (send_empty-Live rst msg_id j l)
    | inr e ↦ rw e l
  ]
  reset_sender-Live (err e) j l = l
  reset_sender-Live stuck j l = l

  after_error-Live :
      {extra : ℕ} (e : Errno) (buf : Bytes) (j : Job)
      → Live sin base extra j
      → Live sin base extra (after_error e buf j)
  unfolding handle_format_error
  after_error-Live ebadmsg buf j l = reset_sender-Live (parse_type_msg_id buf) j l
  after_error-Live einval buf j l = l
  after_error-Live enospc buf j l = l
  after_error-Live enomem buf j l = l
  after_error-Live ebusy buf j l = l
  after_error-Live econnreset buf j l = l
  after_error-Live etimedout buf j l = l
  after_error-Live (os n) buf j l = l

  -- A receive leaves the message received on the stack.
  abbrev pub Got : Received → Type 0
  Got (r, m, k) = Live sin base (owned_blocks m + 0) k

  after_parse-Got :
      (buf : Bytes) (r : Result ℕ × State) (j : Job)
      → Live sin base 0 j
      → Balanced (fresh j) r.1
      → Got (after_parse buf r j)
  after_parse-Got buf (ok n, t) j l b = touch-Live _ (with_heap-Live sin base j t l b)
  after_parse-Got buf (err e, t) j l b = after_error-Live e buf _ (with_heap-Live sin base j t l b)
  after_parse-Got buf (stuck, t) j l b = with_heap-Live sin base j t l b

  with_shared-Live :
      (j : Job) (s : Shared)
      → Live sin base 0 j
      → s.heap ≡ j.shared.heap
      → s.sent ≡ j.shared.sent
      → s.opened ≡ j.shared.opened
      → s.closed ≡ j.shared.closed
      → Live sin base 0 (record j { shared = s })
  with_shared-Live j s l h e o c = quiet-Live sin base j _ l refl refl refl refl h e o c

  take_in-Got :
      (char_signed : Bool) (buf : Bytes) (r : Result (Bytes × Bytes)) (s : Shared) (j : Job)
      → Live sin base 0 (record j { shared = s })
      → Got (take_in char_signed created buf (consumed (r, s)) j)
  take_in-Got char_signed buf (ok d) s j l =
      after_parse-Got buf _ _ (quiet-Live sin base _ _ l refl refl refl refl refl refl refl refl)
        (parse-Balanced char_signed buf (record { msg = created; heap = s.heap }))
  take_in-Got char_signed buf (err e) s j l = l
  take_in-Got char_signed buf stuck s j l = l

  check_sender-Got :
      (char_signed : Bool) (r : Result (Bytes × Bytes)) (s : Shared) (j : Job)
      → Live sin base 0 (record j { shared = s })
      → Got (check_sender char_signed created (r, s) j)
  check_sender-Got char_signed (ok (from, d)) s j l =
      elim (Bool-cases (same_address j.trans.client_sin from)) [
        | inl e ↦ rw e (
            take_in-Got char_signed (take max_buf_len d) (peek s).0 (peek s).1 j
              (quiet-Live sin base _ _ l refl refl refl refl refl refl refl refl))
        | inr e ↦ rw e l
      ]
  check_sender-Got char_signed (err e) s j l = l
  check_sender-Got char_signed stuck s j l = l

  pub recv-Got :
      (char_signed : Bool) (j : Job) → Live sin base 0 j → Got (recv char_signed created j)
  unfolding recv
  recv-Got char_signed j l =
      check_sender-Got char_signed (peek j.shared).0 (peek j.shared).1 j
        (quiet-Live sin base j _ l refl refl refl refl refl refl refl refl)

  with_req-Live :
      {extra : ℕ} (r : Result ℕ × State) (j : Job)
      → Live sin base extra j
      → Balanced (req_state j) r.1
      → Live sin base extra (with_req r j).1
  with_req-Live {extra} (r, t) j l b =
      recount-Live sin base extra j _ l refl refl refl refl refl (let e = b.blocks in omega arith)

  with_resp-Live :
      {extra : ℕ} (r : Result ℕ × State) (j : Job)
      → Live sin base extra j
      → Balanced (resp_state j) r.1
      → Live sin base extra (with_resp r j).1
  with_resp-Live {extra} (r, t) j l b =
      recount-Live sin base extra j _ l refl refl refl refl refl (let e = b.blocks in omega arith)

  pub set_req-Live :
      {extra : ℕ} (m : Msg) (j : Job) → Live sin base extra j → Live sin base extra (set_req m j).1
  unfolding set_req
  set_req-Live m j l = with_req-Live (copy m (reset (req_state j))) j l (
      Balanced-trans (req_state j) (reset (req_state j)) _ (reset-Balanced (req_state j))
        ((copy-Keeping m).kept _))

  pub set_resp-Live :
      {extra : ℕ} (m : Msg) (j : Job) → Live sin base extra j → Live sin base extra (set_resp m j).1
  unfolding set_resp
  set_resp-Live m j l = with_resp-Live (copy m (reset (resp_state j))) j l (
      Balanced-trans (resp_state j) (reset (resp_state j)) _ (reset-Balanced (resp_state j))
        ((copy-Keeping m).kept _))

  pub clear_req-Live :
      {extra : ℕ} (j : Job) → Live sin base extra j → Live sin base extra (clear_req j).1
  unfolding clear_req
  clear_req-Live j l =
      with_req-Live (ok 0, destroy (req_state j)) j l (destroy-Balanced (req_state j))

  pub clear_resp-Live :
      {extra : ℕ} (j : Job) → Live sin base extra j → Live sin base extra (clear_resp j).1
  unfolding clear_resp
  clear_resp-Live j l =
      with_resp-Live (ok 0, destroy (resp_state j)) j l (destroy-Balanced (resp_state j))

  double_timeout-Live :
      {extra : ℕ} (j : Job) → Live sin base extra j → Live sin base extra (double_timeout j)
  unfolding double_timeout
  double_timeout-Live j l = quiet-Live sin base j _ l refl refl refl refl refl refl refl refl

  counted-Live :
      (r : Result ℕ × Job)
      → Live sin base 0 r.1
      → Live sin base 0 (continue r (λ _. count_retrans)).1
  counted-Live (ok n, j) l = quiet-Live sin base j _ l refl refl refl refl refl refl refl refl
  counted-Live (err e, j) l = l
  counted-Live (stuck, j) l = l

  update_ack_timer-Live : (j : Job) → Live sin base 0 j → Live sin base 0 (update_ack_timer j).1
  unfolding update_ack_timer start_timer
  update_ack_timer-Live j l = elim (Bool-cases (leb max_retransmit j.trans.num_retrans)) [
    | inl e ↦ rw e l
    | inr e ↦ rw e (
        let k = double_timeout j in
        counted-Live _
          (settime-Live (some (k.trans.tv_sec, k.trans.tv_nsec)) k (double_timeout-Live j l)))
  ]

  sent_status-Live : (r : Result ℕ × Job) → Live sin base 0 r.1 → Live sin base 0 (sent_status r).1
  sent_status-Live (ok n, j) l = l
  sent_status-Live (err e, j) l = l
  sent_status-Live (stuck, j) l = l

  on_timeout-Served : (r : Result ℕ × Job) → Live sin base 0 r.1 → Served sin base (on_timeout r).1
  on_timeout-Served (ok n, j) l = inl (sent_status-Live _ (send-Live j.trans.resp j l))
  on_timeout-Served (err e, j) l = elim (Bool-cases (is_timeout e)) [
    | inl t ↦ rw t (inr (trans_destroy-Over sin base j l))
    | inr t ↦ rw t (inl l)
  ]
  on_timeout-Served (stuck, j) l = inl l

  pub handle_ack_timeout-Served :
      (j : Job) → Live sin base 0 j → Served sin base (handle_ack_timeout j).1
  unfolding handle_ack_timeout
  handle_ack_timeout-Served j l = on_timeout-Served (update_ack_timer j) (update_ack_timer-Live j l)
