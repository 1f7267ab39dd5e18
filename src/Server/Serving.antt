-- ===== src/Server/Serving.antt =====
-- The books of coap_server_exchange (lib/src/coap_server.c), on the transaction of the sender.
use free_co_ap.Common.{
  ℕ, ◌+◌, Bool, true, false, not, ◌&&◌, ◌||◌, List, ◌≡◌, refl, inl, inr, Result, ok, err, stuck,
  Bytes, ◌==◌, if◌then◌else◌, Bool-cases,
}
use free_co_ap.Msg.{Msg, State, created, owned_blocks, con, non, ack, rst}
use free_co_ap.Msg.Leaks.{Balanced, Balanced-trans}
use free_co_ap.Msg.Blocks.{Keeping, ◌then◌, set_type-Keeping, set_msg_id-Keeping, set_token-Keeping}
use free_co_ap.Client.{Platform}
use free_co_ap.Client.Exchange.{check_options}
use free_co_ap.Server.{Shared, Job, Handler, get_next_msg_id, stop_ack_timer}
use free_co_ap.Server.Transfer.{
  drop_msg, fresh, trans_destroy, match_req, match_resp, clear_req, clear_resp, set_req, set_resp,
  send, Received, recv, send_ack,
}
use free_co_ap.Server.Exchange.{
  attempt, await_ack, conclude, conclude_built, response_id, response_type, address_response,
  with_shared, after_handler, respond, settle, after_ack, is_separate, answer, is_request,
  on_message, on_received, serve,
}
use free_co_ap.Server.Books.{
  Live, Over, Served, quiet-Live, with_heap-Live, drop_msg-Live, trans_destroy-Over, drop_msg-Over,
}
use free_co_ap.Server.Deliveries.{
  start_ack_timer-Live, stop_ack_timer-Live, send-Live, send_empty-Live, reject-Live,
  reject_bad_option-Live, Got, recv-Got, set_req-Live, set_resp-Live, clear_req-Live,
  clear_resp-Live,
}

-- The handler loses no block of the response that it makes.
abbrev pub Careful : Handler → Type 0
Careful handle = (m : Msg) (s : State) → Balanced s (handle m s).1

module _ (sin : Bytes) (base : Job) where
  give_up-Over :
      (b m : Msg) (j : Job)
      → Live sin base (owned_blocks b + (owned_blocks m + 0)) j
      → Over sin base 0 (drop_msg m (trans_destroy (drop_msg b j)))
  give_up-Over b m j l =
      drop_msg-Over sin base m _ (trans_destroy-Over sin base _ (drop_msg-Live sin base b j l))

  attempt-Served :
      (b m : Msg) (r : Result ℕ × Job) (k : Job → Result ℕ × Job)
      → Live sin base (owned_blocks b + (owned_blocks m + 0)) r.1
      → ((t : Job)
          → Live sin base (owned_blocks b + (owned_blocks m + 0)) t
          → Served sin base (k t).1)
      → Served sin base (attempt b m r k).1
  attempt-Served b m (ok n, j) k l h = h j l
  attempt-Served b m (err e, j) k l h = inr (give_up-Over b m j l)
  attempt-Served b m (stuck, j) k l h = inr (give_up-Over b m j l)

  await_ack-Live :
      {extra : ℕ} (b : Msg) (j : Job)
      → Live sin base extra j
      → Live sin base extra (await_ack b j).1
  await_ack-Live b j l = elim (Bool-cases (b.type == con)) [
    | inl e ↦ rw e (start_ack_timer-Live sin base j l)
    | inr e ↦ rw e l
  ]

  conclude-Served :
      (m b : Msg) (j : Job)
      → Live sin base (owned_blocks b + (owned_blocks m + 0)) j
      → Served sin base (conclude m b j).1
  unfolding conclude
  conclude-Served m b j l = attempt-Served b m (send b j) _ (send-Live sin base b j l) λ j1 l1.
      attempt-Served b m (set_req m j1) _ (set_req-Live sin base m j1 l1) λ j2 l2.
        attempt-Served b m (set_resp b j2) _ (set_resp-Live sin base b j2 l2) λ j3 l3.
          attempt-Served b m (await_ack b j3) _ (await_ack-Live b j3 l3)
            λ j4 l4. inl (drop_msg-Live sin base m _ (drop_msg-Live sin base b j4 l4))

  conclude_built-Served :
      (m : Msg) (r : Result ℕ × State) (j : Job)
      → Live sin base (owned_blocks m + 0) j
      → Balanced (fresh j) r.1
      → Served sin base (conclude_built m r j).1
  conclude_built-Served m (ok n, b) j l h =
      conclude-Served m b.msg _ (with_heap-Live sin base j b l h)
  conclude_built-Served m (err e, b) j l h =
      inr (give_up-Over b.msg m _ (with_heap-Live sin base j b l h))
  conclude_built-Served m (stuck, b) j l h =
      inr (give_up-Over b.msg m _ (with_heap-Live sin base j b l h))

  address_response-Keeping : (id : ℕ) (sep : Bool) (m : Msg) → Keeping (address_response id sep m)
  address_response-Keeping id sep m =
      set_msg_id-Keeping id
      then set_token-Keeping m.token m.token_len
      then set_type-Keeping (response_type sep m)

  response_id-Live :
      {extra : ℕ} (sep : Bool) (m : Msg) (j : Job)
      → Live sin base extra j
      → Live sin base extra (with_shared (response_id sep m j.shared).1 j)
  unfolding get_next_msg_id
  response_id-Live sep m j l = elim (Bool-cases (m.type == con && not sep)) [
    | inl e ↦ rw e l
    | inr e ↦ rw e (quiet-Live sin base j _ l refl refl refl refl refl refl refl refl)
  ]

  response_id-heap : (sep : Bool) (m : Msg) (s : Shared) → (response_id sep m s).1.heap ≡ s.heap
  unfolding get_next_msg_id
  response_id-heap sep m s = elim (Bool-cases (m.type == con && not sep)) [
    | inl e ↦ rw e
    | inr e ↦ rw e
  ]

  after_handler-Served :
      (sep : Bool) (m : Msg) (r : Result ℕ × State) (j : Job)
      → Live sin base (owned_blocks m + 0) j
      → Balanced (fresh j) r.1
      → Served sin base (after_handler sep m r j).1
  after_handler-Served sep m (ok n, b) j l h =
      let id = response_id sep m j.shared in
      conclude_built-Served m (address_response id.0 sep m b) (with_shared id.1 j)
        (response_id-Live sep m j l)
        (rw (response_id-heap sep m j.shared)
          (Balanced-trans (fresh j) b _ h ((address_response-Keeping id.0 sep m).kept b)))
  after_handler-Served sep m (err e, b) j l h =
      inr (give_up-Over b.msg m _ (with_heap-Live sin base j b l h))
  after_handler-Served sep m (stuck, b) j l h =
      inr (give_up-Over b.msg m _ (with_heap-Live sin base j b l h))

  respond-Served :
      (handle : Handler) (sep : Bool) (m : Msg) (j : Job)
      → Careful handle
      → Live sin base (owned_blocks m + 0) j
      → Served sin base (respond handle sep m j).1
  unfolding respond
  respond-Served handle sep m j c l =
      after_handler-Served sep m (handle m (fresh j)) _
        (quiet-Live sin base j _ l refl refl refl refl refl refl refl refl) (c m (fresh j))

  settle-Served :
      (m : Msg) (r : Result ℕ × Job)
      → Live sin base (owned_blocks m + 0) r.1
      → Served sin base (settle m r).1
  settle-Served m (ok n, j) l = inl (drop_msg-Live sin base m j l)
  settle-Served m (err e, j) l = inr (trans_destroy-Over sin base _ (drop_msg-Live sin base m j l))
  settle-Served m (stuck, j) l = inr (trans_destroy-Over sin base _ (drop_msg-Live sin base m j l))

  after_ack-Served :
      (m : Msg) (r : Result ℕ × Job) (k : Job → Result ℕ × Job)
      → Live sin base (owned_blocks m + 0) r.1
      → ((t : Job) → Live sin base (owned_blocks m + 0) t → Served sin base (k t).1)
      → Served sin base (after_ack m r k).1
  after_ack-Served m (ok n, j) k l h = h j l
  after_ack-Served m (err e, j) k l h =
      inr (drop_msg-Over sin base m _ (trans_destroy-Over sin base j l))
  after_ack-Served m (stuck, j) k l h =
      inr (drop_msg-Over sin base m _ (trans_destroy-Over sin base j l))

  module _ (handle : Handler) (careful : Careful handle) where
    answer-Served :
        (sep_list : List Bytes) (m : Msg) (j : Job)
        → Live sin base (owned_blocks m + 0) j
        → Served sin base (answer handle sep_list m j).1
    unfolding answer
    answer-Served sep_list m j l =
        let k = (clear_resp (clear_req j).1).1 in
        let lk = clear_resp-Live sin base (clear_req j).1 (clear_req-Live sin base j l) in
        elim (Bool-cases (is_separate sep_list m)) [
          | inl e ↦ rw e (
              after_ack-Served m (send_ack m k) (respond handle true m)
                (send_empty-Live sin base ack m.msg_id k lk)
                λ t lt. respond-Served handle true m t careful lt)
          | inr e ↦ rw e (respond-Served handle false m k careful lk)
        ]

    on_message-Served :
        (p : Platform) (sep_list : List Bytes) (m : Msg) (j : Job)
        → Live sin base (owned_blocks m + 0) j
        → Served sin base (on_message p handle sep_list m j).1
    unfolding on_message
    on_message-Served p sep_list m j l = elim (Bool-cases (match_req j.trans m && m.type == con)) [
      | inl a ↦ rw a (settle-Served m _ (send_empty-Live sin base ack m.msg_id j l))
      | inr a ↦ rw a (elim (Bool-cases (match_req j.trans m && m.type == non)) [
        | inl b ↦ rw b (inl (drop_msg-Live sin base m j l))
        | inr b ↦
            rw b (elim (Bool-cases (match_resp j.trans m && (m.type == ack || m.type == rst))) [
              | inl c ↦ rw c (settle-Served m (stop_ack_timer j) (stop_ack_timer-Live sin base j l))
              | inr c ↦ rw c (elim (Bool-cases (is_request m)) [
                | inl d ↦ rw d (elim (Bool-cases (check_options p m == 0)) [
                  | inl e ↦ rw e (answer-Served sep_list m j l)
                  | inr e ↦ rw e (
                      inr (
                        trans_destroy-Over sin base _ (
                          drop_msg-Live sin base m _
                            (reject_bad_option-Live sin base m (check_options p m) j l))))
                ])
                | inr d ↦ rw d (
                    inr (
                      trans_destroy-Over sin base _
                        (drop_msg-Live sin base m _ (reject-Live sin base m j l))))
              ])
            ])
      ])
    ]

    on_received-Served :
        (p : Platform) (sep_list : List Bytes) (r : Received)
        → Got sin base r
        → Served sin base (on_received p handle sep_list r).1
    on_received-Served p sep_list (ok n, m, j) l = on_message-Served p sep_list m j l
    on_received-Served p sep_list (err e, m, j) l =
        inr (trans_destroy-Over sin base _ (drop_msg-Live sin base m j l))
    on_received-Served p sep_list (stuck, m, j) l =
        inr (trans_destroy-Over sin base _ (drop_msg-Live sin base m j l))

    pub serve-Served :
        (p : Platform) (sep_list : List Bytes) (j : Job)
        → Live sin base 0 j
        → Served sin base (serve p handle sep_list j).1
    unfolding serve
    serve-Served p sep_list j l =
        on_received-Served p sep_list (recv p.char_signed created j)
          (recv-Got sin base p.char_signed j l)
