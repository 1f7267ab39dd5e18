-- ===== src/Client/Outgoing.antt =====
-- What coap_client_exchange sends and owns (lib/src/coap_client.c).
use free_co_ap.Common.{
  ℕ, suc, ◌+◌, ◌≤◌, List, [], ◌∷◌, ◌++◌, ◌≡◌, refl, sym, ap, ◌∙◌, append-nil, append_assoc, Option,
  none, some, Errno, Result, ok, err, stuck, Bytes, length, ◌==◌, arith, Bool-cases, inl, inr,
}
use free_co_ap.Common.Actions.{continue, ignore}
use free_co_ap.Msg.{Msg, con, non, owned_blocks}
use free_co_ap.Msg.Build.{set_msg_id, set_token}
use free_co_ap.Msg.Format.{format}
use free_co_ap.Client.{
  Platform, Run, C, status, later, max_buf_len, max_retransmit, start_ack_timer, start_timer,
  init_ack_timeout,
}
use free_co_ap.Client.Transfer.{send, deliver, transmit, next_send}
use free_co_ap.Client.Exchange.{exchange_con, gen_msg_id, gen_token, await, exchange, is_request}
use free_co_ap.Client.Effect.{Log, nothing, request_copy, Effect, Effect-refl}
use free_co_ap.Client.Loops.{exchange_non-Effect, con_loop-Effect}

-- `t` has sent, since `s`, copies of the request `req` and empty resets and acknowledgements only, at
-- most `most` copies; it has counted at most four retransmissions; and the blocks in use that the
-- response does not own are as many.
pub record Outgoing (req : Msg) (most : ℕ) (s t : Run) : Type 0 where
  pub req_is : t.req ≡ req
  pub news : List Bytes
  pub copies : ℕ
  pub sent_is : t.sent ≡ s.sent ++ news
  pub log : Log req copies news
  pub few : copies ≤ most
  pub capped : t.client.num_retrans ≤ max_retransmit
  pub blocks :
      t.heap.allocs + (s.heap.frees + owned_blocks s.resp)
      ≡ s.heap.allocs + (t.heap.frees + owned_blocks t.resp)

-- A state that differs from another in the timer, the counter and the events at most.
record Prepared (s t : Run) : Type 0 where
  sent_same : t.sent ≡ s.sent
  heap_same : t.heap ≡ s.heap
  resp_same : t.resp ≡ s.resp
  req_same : t.req ≡ s.req

Effect-Outgoing :
    (s t u : Run)
    → Prepared s t
    → t.client.num_retrans ≤ max_retransmit
    → Effect t u
    → Outgoing s.req max_retransmit s u
Effect-Outgoing s t u p le e = record {
  news = e.news;
  copies = e.copies;
  sent_is = rw (← p.sent_same) e.sent_is;
  log = rw (← p.req_same) e.log;
  req_is = e.req_kept ∙ p.req_same;
  few = let a = e.counted in let b = e.capped le in omega arith;
  capped = e.capped le;
  blocks = rw (← p.heap_same, ← p.resp_same) e.blocks;
}

start_ack_timer-Prepared :
    (s : Run) → Prepared s (start_ack_timer s).1 × ((start_ack_timer s).1.client.num_retrans ≡ 0)
unfolding start_ack_timer start_timer init_ack_timeout
start_ack_timer-Prepared s = (
  record {
    sent_same = ground arith;
    heap_same = ground arith;
    resp_same = ground arith;
    req_same = ground arith;
  },
  ground arith,
)

ignored-Outgoing :
    (s : Run) (r : Result ℕ × Run) (f : ℕ → Run → Result ℕ × Run)
    → Prepared s r.1
    → r.1.client.num_retrans ≤ max_retransmit
    → ((n : ℕ) (t : Run) → Effect t (f n t).1)
    → Outgoing s.req max_retransmit s (continue (ignore r) f).1
ignored-Outgoing s (ok n, t) f h le k = Effect-Outgoing s t (f 0 t).1 h le (k 0 t)
ignored-Outgoing s (err e, t) f h le k = Effect-Outgoing s t (f 0 t).1 h le (k 0 t)
ignored-Outgoing s (stuck, t) f h le k = Effect-Outgoing s t t h le (Effect-refl t)

exchange_con-Outgoing :
    (p : Platform) (s : Run) → Outgoing s.req max_retransmit s (exchange_con p s).1
unfolding exchange_con
exchange_con-Outgoing p s =
    let z = (start_ack_timer-Prepared s).1 in
    ignored-Outgoing s (start_ack_timer s) _ (start_ack_timer-Prepared s).0 (omega arith)
      λ _ t. con_loop-Effect (length t.waits + 1) p t

Prepared-refl : (s : Run) → Prepared s s
Prepared-refl s = record { sent_same = refl; heap_same = refl; resp_same = refl; req_same = refl }

await-Outgoing :
    (p : Platform) (s : Run)
    → s.client.num_retrans ≤ max_retransmit
    → Outgoing s.req max_retransmit s (await p s).1
unfolding await
await-Outgoing p s le = elim (Bool-cases (s.req.type == con)) [
  | inl e ↦ rw e (exchange_con-Outgoing p s)
  | inr e ↦ rw e (elim (Bool-cases (s.req.type == non)) [
    | inl n ↦ rw n (Effect-Outgoing s s _ (Prepared-refl s) le (exchange_non-Effect p s))
    | inr n ↦ rw n (Effect-Outgoing s s s (Prepared-refl s) le (Effect-refl s))
  ])
]

-- The request is sent once more than it is retransmitted.
first_copy :
    (s t u : Run) (buf : Bytes)
    → t.sent ≡ s.sent ++ (buf ∷ [])
    → t.heap ≡ s.heap
    → t.resp ≡ s.resp
    → format t.req max_buf_len ≡ ok buf
    → Outgoing t.req max_retransmit t u
    → Outgoing t.req (suc max_retransmit) s u
first_copy s t u buf sent h p f o = record {
  news = buf ∷ o.news;
  copies = suc o.copies;
  req_is = o.req_is;
  sent_is = o.sent_is ∙ (ap (λ ms. ms ++ o.news) sent ∙ append_assoc s.sent (buf ∷ []) o.news);
  log = request_copy buf f o.log;
  few = let a = o.few in omega arith;
  capped = o.capped;
  blocks = rw (← h, ← p) o.blocks;
}

-- Nothing is sent.
silent :
    (s t : Run)
    → s.client.num_retrans ≤ max_retransmit
    → t.sent ≡ s.sent
    → t.client.num_retrans ≡ s.client.num_retrans
    → t.heap ≡ s.heap
    → t.resp ≡ s.resp
    → Outgoing t.req (suc max_retransmit) s t
silent s t le e n h p = record {
  req_is = refl;
  news = [];
  copies = 0;
  sent_is = e ∙ sym (append-nil s.sent);
  log = nothing;
  few = omega arith;
  capped = rw n le;
  blocks = rw (h, p);
}

delivered-Outgoing :
    (p : Platform) (s : Run) (o : Option Errno) (buf : Bytes)
    → s.client.num_retrans ≤ max_retransmit
    → format s.req max_buf_len ≡ ok buf
    → let r = continue (deliver o buf (record s { sends = later s.sends })) (λ _. await p) in
      Outgoing r.1.req (suc max_retransmit) s r.1
delivered-Outgoing p s none buf le f =
    let t = record s { sends = later s.sends; sent = s.sent ++ (buf ∷ []) } in
    let o = first_copy s t (await p t).1 buf refl refl refl f (await-Outgoing p t le) in
    rw o.req_is o
delivered-Outgoing p s (some e) buf le f = silent s _ le refl refl refl refl

transmitted-Outgoing :
    (p : Platform) (s : Run) (b : Result Bytes)
    → s.client.num_retrans ≤ max_retransmit
    → format s.req max_buf_len ≡ b
    → let r = continue (transmit b s) (λ _. await p) in Outgoing r.1.req (suc max_retransmit) s r.1
transmitted-Outgoing p s (ok buf) le f =
    delivered-Outgoing p s (status (next_send s.sends)) buf le f
transmitted-Outgoing p s (err e) le f = silent s s le refl refl refl refl
transmitted-Outgoing p s stuck le f = silent s s le refl refl refl refl

-- A state that differs in the request and the random numbers at most.
record Same (s t : Run) : Type 0 where
  sent_is : t.sent ≡ s.sent
  num_is : t.client.num_retrans ≡ s.client.num_retrans
  heap_is : t.heap ≡ s.heap
  resp_is : t.resp ≡ s.resp

continue-Same :
    (s : Run) (r : Result ℕ × Run) (f : C ℕ)
    → s.client.num_retrans ≤ max_retransmit
    → Same s r.1
    → ((t : Run)
        → t.client.num_retrans ≤ max_retransmit
        → Outgoing (f t).1.req (suc max_retransmit) t (f t).1)
    → let u = (continue r (λ _. f)).1 in Outgoing u.req (suc max_retransmit) s u
continue-Same s (ok n, t) f le h k =
    let o = k t (rw h.num_is le) in
    record {
      req_is = refl;
      news = o.news;
      copies = o.copies;
      sent_is = rw (← h.sent_is) o.sent_is;
      log = o.log;
      few = o.few;
      capped = o.capped;
      blocks = rw (← h.heap_is, ← h.resp_is) o.blocks;
    }
continue-Same s (err e, t) f le h k = silent s t le h.sent_is h.num_is h.heap_is h.resp_is
continue-Same s (stuck, t) f le h k = silent s t le h.sent_is h.num_is h.heap_is h.resp_is

gen_msg_id-Same : (s : Run) → Same s (gen_msg_id s).1
unfolding gen_msg_id set_msg_id
gen_msg_id-Same s = record { sent_is = refl; num_is = refl; heap_is = ground arith; resp_is = refl }

gen_token-Same : (s : Run) → Same s (gen_token s).1
unfolding gen_token set_token
gen_token-Same s = record { sent_is = refl; num_is = refl; heap_is = ground arith; resp_is = refl }

-- Where at most four retransmissions were counted before, all that coap_client_exchange sends, on
-- every path, is the request as it was made up, at most five times, and empty resets and
-- acknowledgements; at most four retransmissions are counted after; and no block is lost or freed
-- twice.
pub exchange-Outgoing :
    (p : Platform) (s : Run)
    → s.client.num_retrans ≤ max_retransmit
    → Outgoing (exchange p s).1.req (suc max_retransmit) s (exchange p s).1
unfolding exchange send
exchange-Outgoing p s le = elim (Bool-cases (is_request s.req)) [
  | inl e ↦ rw e (
      continue-Same s (gen_msg_id s) _ le (gen_msg_id-Same s) λ t le1.
        continue-Same t (gen_token t) _ le1 (gen_token-Same t)
          λ u le2. transmitted-Outgoing p u (format u.req max_buf_len) le2 refl)
  | inr e ↦ rw e (silent s s le refl refl refl refl)
]
