-- ===== src/Server/Answered.antt =====
-- The course of an answer in coap_server_exchange (lib/src/coap_server.c).
use free_co_ap.Common.{
  ℕ, ◌+◌, ◌≤◌, ◌<◌, arith, Bool, true, false, not, sym, length, take, ◌&&◌, [], ◌∷◌, ◌++◌, ◌≡◌, ◌≢◌,
  refl, ◌∙◌, inl, inr, Option, none, some, Result, ok, err, stuck, Bytes, ◌==◌, Bool-cases,
}
use free_co_ap.Msg.{Msg, State, reset, con, non, ack, max_msg_id}
use free_co_ap.Msg.Build.{copy}
use free_co_ap.Msg.Format.{format}
use free_co_ap.Msg.Header.{Same, Post, copy-Same}
use free_co_ap.Client.{next_timer, max_buf_len}
use free_co_ap.Server.{
  Shared, Job, Handler, get_next_msg_id, start_ack_timer, start_timer, init_ack_timeout, set_timer,
  touch,
}
use free_co_ap.Server.Transfer.{
  with_heap, fresh, set_req, set_resp, send, transmit, deliver, used_send, with_req, with_resp,
  req_state, resp_state,
}
use free_co_ap.Server.Exchange.{
  await_ack, conclude, conclude_built, response_id, response_type, address_response, with_shared,
  after_handler, respond,
}
use free_co_ap.Server.Response.{Addressed, address_response-Addressed, get_next_msg_id-in_range}
use free_co_ap.Server.Recorded.{Then, attempt-Then}

-- The response to a confirmable request that is not separate.
pub record Piggybacked (m b : Msg) : Type 0 where
  pub type_is : b.type ≡ ack
  pub id_is : b.msg_id ≡ m.msg_id

-- Any other response, where `last` is the last message ID that the server made up and `next` is the
-- one afterwards.
pub record OwnMessage (m b : Msg) (last next : ℕ) : Type 0 where
  pub con_is : (m.type == con) ≡ true → b.type ≡ con
  pub non_is : (m.type == con) ≡ false → b.type ≡ non
  pub id_is : b.msg_id ≡ next
  pub id_le : next ≤ max_msg_id
  pub id_next : last < max_msg_id → next ≡ last + 1

-- A response `b` to the request `m` went out, and both are on record.
pub record Answered (sep : Bool) (m : Msg) (j k : Job) : Type 0 where
  pub b : Msg
  pub buf : Bytes
  pub piggybacked : (m.type == con && not sep) ≡ true → Piggybacked m b
  pub own_message :
      (m.type == con && not sep) ≡ false → OwnMessage m b j.shared.msg_id k.shared.msg_id
  pub token_len_is : b.token_len ≡ m.token_len
  pub token_is : m.token_len ≤ length m.token → take m.token_len b.token ≡ take m.token_len m.token
  pub format_is : format b max_buf_len ≡ ok buf
  pub sent_is : k.shared.sent ≡ j.shared.sent ++ ((j.trans.client_sin, buf) ∷ [])
  pub handled_is : k.shared.handled ≡ j.shared.handled ++ (m ∷ [])
  pub req_is : Same m k.trans.req
  pub resp_is : Same b k.trans.resp
  pub awaited : (b.type == con) ≡ true → (k.trans.num_retrans ≡ 0) × (k.trans.timer ≢ none)

-- The state after the send, and what later steps keep of it.
record Sent (m b : Msg) (j k : Job) : Type 0 where
  buf : Bytes
  format_is : format b max_buf_len ≡ ok buf
  sent_is : k.shared.sent ≡ j.shared.sent ++ ((j.trans.client_sin, buf) ∷ [])
  handled_is : k.shared.handled ≡ j.shared.handled
  msg_id_is : k.shared.msg_id ≡ j.shared.msg_id

Sent-kept :
    (m b : Msg) (j k l : Job)
    → Sent m b j k
    → l.shared.sent ≡ k.shared.sent
    → l.shared.handled ≡ k.shared.handled
    → l.shared.msg_id ≡ k.shared.msg_id
    → Sent m b j l
Sent-kept m b j k l h s c i = record {
  buf = h.buf;
  format_is = h.format_is;
  sent_is = s ∙ h.sent_is;
  handled_is = c ∙ h.handled_is;
  msg_id_is = i ∙ h.msg_id_is;
}

deliver-Sent :
    (m b : Msg) (buf : Bytes) (o : Option ℕ) (j : Job)
    → format b max_buf_len ≡ ok buf
    → Then (Sent m b j) (deliver o buf (used_send j))
unfolding touch
deliver-Sent m b buf none j e = record {
  buf = buf;
  format_is = e;
  sent_is = refl;
  handled_is = refl;
  msg_id_is = refl;
}
deliver-Sent m b buf (some x) j e = tt

transmit-Sent :
    (m b : Msg) (r : Result Bytes) (j : Job)
    → format b max_buf_len ≡ r
    → Then (Sent m b j) (transmit r j)
transmit-Sent m b (ok buf) j e = deliver-Sent m b buf (next_timer j.shared.sends) j e
transmit-Sent m b (err x) j e = tt
transmit-Sent m b stuck j e = tt

send-Sent : (m b : Msg) (j : Job) → Then (Sent m b j) (send b j)
unfolding send
send-Sent m b j = transmit-Sent m b (format b max_buf_len) j refl

-- The two messages on record after the send.
record BothSent (m b : Msg) (j k : Job) : Type 0 where
  sent : Sent m b j k
  req_is : Same m k.trans.req

record AllSent (m b : Msg) (j k : Job) : Type 0 where
  both : BothSent m b j k
  resp_is : Same b k.trans.resp

with_req-Both :
    (m b : Msg) (j k : Job) (r : Result ℕ × State)
    → Sent m b j k
    → Post (Same m) r
    → Then (BothSent m b j) (with_req r k)
with_req-Both m b j k (ok n, t) h p = record {
  sent = Sent-kept m b j k _ h refl refl refl;
  req_is = p;
}
with_req-Both m b j k (err e, t) h p = tt
with_req-Both m b j k (stuck, t) h p = tt

set_req-Both : (m b : Msg) (j k : Job) → Sent m b j k → Then (BothSent m b j) (set_req m k)
unfolding set_req
set_req-Both m b j k h = with_req-Both m b j k (copy m (reset (req_state k))) h (copy-Same m _)

with_resp-All :
    (m b : Msg) (j k : Job) (r : Result ℕ × State)
    → BothSent m b j k
    → Post (Same b) r
    → Then (AllSent m b j) (with_resp r k)
with_resp-All m b j k (ok n, t) h p = record {
  both = record { sent = Sent-kept m b j k _ h.sent refl refl refl; req_is = h.req_is };
  resp_is = p;
}
with_resp-All m b j k (err e, t) h p = tt
with_resp-All m b j k (stuck, t) h p = tt

set_resp-All : (m b : Msg) (j k : Job) → BothSent m b j k → Then (AllSent m b j) (set_resp b k)
unfolding set_resp
set_resp-All m b j k h = with_resp-All m b j k (copy b (reset (resp_state k))) h (copy-Same b _)

-- The timer, where the response is confirmable.
record Awaited (m b : Msg) (j k : Job) : Type 0 where
  all : AllSent m b j k
  awaited : (b.type == con) ≡ true → (k.trans.num_retrans ≡ 0) × (k.trans.timer ≢ none)

set_timer-Awaited :
    (m b : Msg) (j k : Job) (o : Option ℕ) (v : ℕ × ℕ)
    → AllSent m b j k
    → k.trans.num_retrans ≡ 0
    → Then (Awaited m b j) (set_timer o (some v) k)
set_timer-Awaited m b j k none v h z = record {
  all = record {
    both = record { sent = Sent-kept m b j k _ h.both.sent refl refl refl; req_is = h.both.req_is };
    resp_is = h.resp_is;
  };
  awaited = λ _. (z, λ e. cc);
}
set_timer-Awaited m b j k (some e) v h z = tt

AllSent-kept :
    (m b : Msg) (j k l : Job)
    → AllSent m b j k
    → l.trans.req ≡ k.trans.req
    → l.trans.resp ≡ k.trans.resp
    → l.shared.sent ≡ k.shared.sent
    → l.shared.handled ≡ k.shared.handled
    → l.shared.msg_id ≡ k.shared.msg_id
    → AllSent m b j l
AllSent-kept m b j k l h q p s c i = record {
  both = record { sent = Sent-kept m b j k l h.both.sent s c i; req_is = rw q h.both.req_is };
  resp_is = rw p h.resp_is;
}

await_ack-Awaited : (m b : Msg) (j k : Job) → AllSent m b j k → Then (Awaited m b j) (await_ack b k)
unfolding start_ack_timer start_timer init_ack_timeout
await_ack-Awaited m b j k h = elim (Bool-cases (b.type == con)) [
  | inl e ↦
      rw e (set_timer-Awaited m b j _ _ _ (AllSent-kept m b j k _ h refl refl refl refl refl) refl)
  | inr e ↦ rw e (record { all = h; awaited = λ z. cc })
]

conclude-Awaited : (m b : Msg) (j : Job) → Then (Awaited m b j) (conclude m b j)
unfolding conclude
conclude-Awaited m b j =
    attempt-Then (Sent m b j) (Awaited m b j) b m (send b j) _ (send-Sent m b j) λ j1 h1.
      attempt-Then (BothSent m b j) (Awaited m b j) b m (set_req m j1) _ (set_req-Both m b j j1 h1)
        λ j2 h2.
          attempt-Then (AllSent m b j) (Awaited m b j) b m (set_resp b j2) _
            (set_resp-All m b j j2 h2)
            λ j3 h3.
              attempt-Then (Awaited m b j) (Awaited m b j) b m (await_ack b j3) _
                (await_ack-Awaited m b j j3 h3)
                λ j4 h4. record {
                  all = AllSent-kept m b j j4 _ h4.all refl refl refl refl refl;
                  awaited = h4.awaited;
                }

-- Where the call succeeds, the response went out, for a message that is on record.
abbrev pub Responds : Bool → Msg → Job → Result ℕ × Job → Type 0
Responds sep m j (ok n, k) = Answered sep m j k
Responds sep m j (err e, k) = Unit
Responds sep m j (stuck, k) = Unit

-- A job in which the handler has had the request and the message ID is chosen.
record Logged (id : ℕ) (sep : Bool) (m : Msg) (j l : Job) : Type 0 where
  sin_is : l.trans.client_sin ≡ j.trans.client_sin
  sent_is : l.shared.sent ≡ j.shared.sent
  handled_is : l.shared.handled ≡ j.shared.handled ++ (m ∷ [])
  request_id : (m.type == con && not sep) ≡ true → id ≡ m.msg_id
  server_id : (m.type == con && not sep) ≡ false → id ≡ l.shared.msg_id
  server_id_le : (m.type == con && not sep) ≡ false → l.shared.msg_id ≤ max_msg_id
  server_id_next :
      (m.type == con && not sep) ≡ false
      → j.shared.msg_id < max_msg_id
      → l.shared.msg_id ≡ j.shared.msg_id + 1

piggybacked_type :
    (sep : Bool) (m : Msg) → (m.type == con && not sep) ≡ true → response_type sep m ≡ ack
piggybacked_type sep m h = ground arith

own_type_con :
    (sep : Bool) (m : Msg)
    → (m.type == con && not sep) ≡ false
    → (m.type == con) ≡ true
    → response_type sep m ≡ con
own_type_con true m h c = rw c
own_type_con false m h c = let bad = rw c at h in cc

own_type_non : (sep : Bool) (m : Msg) → (m.type == con) ≡ false → response_type sep m ≡ non
own_type_non sep m c = rw c

Awaited-Answered :
    (id : ℕ) (sep : Bool) (m b : Msg) (j l : Job) (r : Result ℕ × Job)
    → Addressed id sep m b
    → Logged id sep m j l
    → Then (Awaited m b l) r
    → Responds sep m j r
Awaited-Answered id sep m b j l (ok n, k) a h w =
    let sent = w.all.both.sent in
    record {
      b = b;
      buf = sent.buf;
      piggybacked = λ z. record {
        type_is = a.type_is ∙ piggybacked_type sep m z;
        id_is = a.id_is ∙ h.request_id z;
      };
      own_message = λ z. record {
        con_is = λ c. a.type_is ∙ own_type_con sep m z c;
        non_is = λ c. a.type_is ∙ own_type_non sep m c;
        id_is = a.id_is ∙ (h.server_id z ∙ sym sent.msg_id_is);
        id_le = rw sent.msg_id_is (h.server_id_le z);
        id_next = λ lt. sent.msg_id_is ∙ h.server_id_next z lt;
      };
      token_len_is = a.token_len_is;
      token_is = a.token_is;
      format_is = sent.format_is;
      sent_is = rw (← h.sin_is, ← h.sent_is) sent.sent_is;
      handled_is = sent.handled_is ∙ h.handled_is;
      req_is = w.all.both.req_is;
      resp_is = w.all.resp_is;
      awaited = w.awaited;
    }
Awaited-Answered id sep m b j l (err e, k) a h w = tt
Awaited-Answered id sep m b j l (stuck, k) a h w = tt

conclude_built-Responds :
    (id : ℕ) (sep : Bool) (m : Msg) (j l : Job) (r : Result ℕ × State)
    → Logged id sep m j l
    → Post (Addressed id sep m) r
    → Responds sep m j (conclude_built m r l)
conclude_built-Responds id sep m j l (ok n, t) h a =
    Awaited-Answered id sep m t.msg j (with_heap t.heap l) _ a
      (record {
        sin_is = h.sin_is;
        sent_is = h.sent_is;
        handled_is = h.handled_is;
        request_id = h.request_id;
        server_id = h.server_id;
        server_id_le = h.server_id_le;
        server_id_next = h.server_id_next;
      })
      (conclude-Awaited m t.msg (with_heap t.heap l))
conclude_built-Responds id sep m j l (err e, t) h a = tt
conclude_built-Responds id sep m j l (stuck, t) h a = tt

get_next_msg_id-kept :
    (s : Shared)
    → ((get_next_msg_id s).1.sent ≡ s.sent) × ((get_next_msg_id s).1.handled ≡ s.handled)
unfolding get_next_msg_id
get_next_msg_id-kept s = (refl, refl)

response_id-Logged :
    (sep : Bool) (m : Msg) (j : Job)
    → let log = record (j.shared) { handled = j.shared.handled ++ (m ∷ []) } in
      Logged (response_id sep m log).0 sep m j (with_shared (response_id sep m log).1 j)
response_id-Logged sep m j = elim (Bool-cases (m.type == con && not sep)) [
  | inl e ↦ rw e (record {
    sin_is = refl;
    sent_is = refl;
    handled_is = refl;
    request_id = λ _. refl;
    server_id = λ z. cc;
    server_id_le = λ z. cc;
    server_id_next = λ z. cc;
  })
  | inr e ↦
      let log = record (j.shared) { handled = j.shared.handled ++ (m ∷ []) } in
      let kept = get_next_msg_id-kept log in
      let next = get_next_msg_id-in_range log 0 in
      rw e (record {
        sin_is = refl;
        sent_is = kept.0;
        handled_is = kept.1;
        request_id = λ z. cc;
        server_id = λ _. sym next.1;
        server_id_le = λ _. rw next.1 next.0;
        server_id_next = λ _ lt. next.1 ∙ next.2 lt;
      })
]

after_handler-Responds :
    (sep : Bool) (m : Msg) (j : Job) (r : Result ℕ × State)
    → Responds sep m j (
        after_handler sep m r
          (with_shared (record (j.shared) { handled = j.shared.handled ++ (m ∷ []) }) j))
after_handler-Responds sep m j (ok n, t) =
    let log = record (j.shared) { handled = j.shared.handled ++ (m ∷ []) } in
    let id = (response_id sep m log).0 in
    conclude_built-Responds id sep m j _ (address_response id sep m t) (response_id-Logged sep m j)
      (address_response-Addressed id sep m t)
after_handler-Responds sep m j (err e, t) = tt
after_handler-Responds sep m j (stuck, t) = tt

responded :
    (sep : Bool) (m : Msg) (j : Job) (r : Result ℕ × Job) {n : ℕ} {k : Job}
    → r ≡ (ok n, k)
    → Responds sep m j r
    → Answered sep m j k
responded sep m j r e h = rw e at h

-- Where the answer to a request succeeds, the handler had the request once, and one datagram went
-- to the client: a message with the request's token. To a confirmable request that is not answered
-- separately it is an acknowledgement with the request's message ID. Else it is confirmable if the
-- request is, non-confirmable if not, and its message ID is the one that the server now has on
-- record, which 16 bits hold, and which is one more than the last one where that fits. The request
-- and the response are on record with their message IDs, and where the response is confirmable the
-- timer runs, with no retransmission counted.
pub respond-Answered :
    (handle : Handler) (sep : Bool) (m : Msg) (j : Job) {n : ℕ} {k : Job}
    → respond handle sep m j ≡ (ok n, k)
    → Answered sep m j k
unfolding respond
respond-Answered handle sep m j e =
    responded sep m j _ e (after_handler-Responds sep m j (handle m (fresh j)))
