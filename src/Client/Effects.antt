-- ===== src/Client/Effects.antt =====
-- The effect of receiving, rejecting, retransmitting and waiting (lib/src/coap_client.c).
use free_co_ap.Common.{
  ℕ, ◌+◌, ◌≤◌, ◌<◌, false, List, [], ◌∷◌, ◌++◌, ◌≡◌, refl, sym, ap, append-nil, Option, none, some,
  Errno, ebadmsg, einval, enospc, enomem, ebusy, econnreset, etimedout, os, Result, ok, err, stuck,
  Bytes, length, take, leb, ◌==◌, arith, Bool-cases, inl, inr, if◌then◌else◌,
}
use free_co_ap.Common.Actions.{continue}
use free_co_ap.Msg.{Msg, State, con, rst}
use free_co_ap.Msg.Format.{format}
use free_co_ap.Msg.Leaks.{Balanced, parse-Balanced}
use free_co_ap.Msg.Wire.{parse_type_msg_id}
use free_co_ap.Client.{
  Platform, Outcome, Run, status, later, max_buf_len, max_retransmit, arm, start_timer,
  count_retrans, double_timeout, update_ack_timer,
}
use free_co_ap.Client.Transfer.{
  send, send_empty, deliver, transmit, next_send, reset_sender, handle_format_error, with_parsed,
  after_error, after_parse, accept, receive, recv, reject, sent_status, handle_ack_timeout,
}
use free_co_ap.Client.Effect.{
  Log, nothing, request_copy, Effect, Effect-refl, Effect-trans, quiet, send_empty-rst-Effect,
}

pub le_refl : (n : ℕ) → n ≤ n
le_refl n = omega arith

below_of : (m n : ℕ) → leb m n ≡ false → n < m
below_of m n e = ground arith

-- Only a confirmable message makes coap_client_reject send.
pub reject-eq :
    (msg : Msg) (s : Run)
    → reject msg s ≡ (if msg.type == con then send_empty rst msg.msg_id s else (ok 0, s))
unfolding reject
reject-eq msg s = ground arith

pub reject-Effect : (msg : Msg) (s : Run) → Effect s (reject msg s).1
reject-Effect msg s = elim (Bool-cases (msg.type == con)) [
  | inl e ↦ rw (reject-eq msg s, e) (send_empty-rst-Effect msg.msg_id s)
  | inr e ↦ rw (reject-eq msg s, e) (Effect-refl s)
]

reset_sender-Effect : (r : Result (ℕ × ℕ)) (s : Run) → Effect s (reset_sender r s)
reset_sender-Effect (ok (type, msg_id)) s = elim (Bool-cases (type == con)) [
  | inl e ↦ rw e (send_empty-rst-Effect msg_id s)
  | inr e ↦ rw e (Effect-refl s)
]
reset_sender-Effect (err e) s = Effect-refl s
reset_sender-Effect stuck s = Effect-refl s

after_error-Effect : (e : Errno) (buf : Bytes) (s : Run) → Effect s (after_error e buf s)
unfolding handle_format_error
after_error-Effect ebadmsg buf s = reset_sender-Effect (parse_type_msg_id buf) s
after_error-Effect einval buf s = Effect-refl s
after_error-Effect enospc buf s = Effect-refl s
after_error-Effect enomem buf s = Effect-refl s
after_error-Effect ebusy buf s = Effect-refl s
after_error-Effect econnreset buf s = Effect-refl s
after_error-Effect etimedout buf s = Effect-refl s
after_error-Effect (os n) buf s = Effect-refl s

with_parsed-Effect :
    (t : State) (s : Run)
    → Balanced (record { msg = s.resp; heap = s.heap }) t
    → Effect s (with_parsed t s)
with_parsed-Effect t s b = record {
  news = [];
  copies = 0;
  sent_is = sym (append-nil s.sent);
  log = nothing;
  req_kept = refl;
  counted = omega arith;
  capped = λ c. c;
  waits_le = omega arith;
  blocks = b.blocks;
}

after_parse-Effect :
    (buf : Bytes) (r : Result ℕ × State) (s : Run)
    → Balanced (record { msg = s.resp; heap = s.heap }) r.1
    → Effect s (after_parse buf r s).1
after_parse-Effect buf (ok n, t) s b = with_parsed-Effect t s b
after_parse-Effect buf (stuck, t) s b = with_parsed-Effect t s b
after_parse-Effect buf (err e, t) s b =
    Effect-trans s (with_parsed t s) _ (with_parsed-Effect t s b) (after_error-Effect e buf _)

accept-Effect :
    (p : Platform) (o : Option Errno) (buf : Bytes) (s : Run) → Effect s (accept p o buf s).1
accept-Effect p none buf s = after_parse-Effect buf _ s (parse-Balanced p.char_signed buf _)
accept-Effect p (some e) buf s = Effect-refl s

receive-Effect : (p : Platform) (l : List (Outcome × Bytes)) (s : Run) → Effect s (receive p l s).1
receive-Effect p [] s = Effect-refl s
receive-Effect p ((o, datagram) ∷ rest) s =
    Effect-trans s (record s { arrivals = rest }) _ (quiet s _ refl refl refl refl refl refl)
      (accept-Effect p (status o) (take max_buf_len datagram) _)

pub recv-Effect : (p : Platform) (s : Run) → Effect s (recv p s).1
unfolding recv
recv-Effect p s = receive-Effect p s.arrivals s

-- A state in which one retransmission more is counted, and the copy is not sent yet.
record Counted (s t : Run) : Type 0 where
  one_more : t.client.num_retrans ≡ s.client.num_retrans + 1
  below : s.client.num_retrans < max_retransmit
  sent_same : t.sent ≡ s.sent
  req_same : t.req ≡ s.req
  waits_same : t.waits ≡ s.waits
  heap_same : t.heap ≡ s.heap
  resp_same : t.resp ≡ s.resp

Counted-Effect :
    (s t u : Run) (news : List Bytes) {n : ℕ}
    → Counted s t
    → n ≤ 1
    → Log s.req n news
    → u.sent ≡ t.sent ++ news
    → u.req ≡ t.req
    → u.client.num_retrans ≡ t.client.num_retrans
    → u.waits ≡ t.waits
    → u.heap ≡ t.heap
    → u.resp ≡ t.resp
    → Effect s u
Counted-Effect s t u news {n = n} c le l e r m w h p = record {
  news = news;
  copies = n;
  sent_is = rw (e, c.sent_same);
  log = l;
  req_kept = rw (r, c.req_same);
  counted = let a = c.one_more in omega arith;
  capped = λ k. let a = c.one_more in let b = c.below in omega arith;
  waits_le = rw (w, c.waits_same) (le_refl (length s.waits));
  blocks = rw (h, p, c.heap_same, c.resp_same);
}

delivered_copy-Effect :
    (s t : Run) (o : Option Errno) (buf : Bytes)
    → Counted s t
    → format s.req max_buf_len ≡ ok buf
    → Effect s (sent_status (deliver o buf (record t { sends = later t.sends }))).1
delivered_copy-Effect s t none buf c f =
    Counted-Effect s t _ (buf ∷ []) c (let z : 1 ≤ 1 = omega arith in z)
      (request_copy buf f nothing) refl refl refl refl refl refl
delivered_copy-Effect s t (some e) buf c f =
    Counted-Effect s t _ [] c (let z : 0 ≤ 1 = omega arith in z) nothing (sym (append-nil t.sent))
      refl refl refl refl refl

transmitted_copy-Effect :
    (s t : Run) (r : Result Bytes)
    → Counted s t
    → format s.req max_buf_len ≡ r
    → Effect s (sent_status (transmit r t)).1
transmitted_copy-Effect s t (ok buf) c f =
    delivered_copy-Effect s t (status (next_send t.sends)) buf c f
transmitted_copy-Effect s t (err e) c f =
    Counted-Effect s t t [] c (let z : 0 ≤ 1 = omega arith in z) nothing (sym (append-nil t.sent))
      refl refl refl refl refl
transmitted_copy-Effect s t stuck c f =
    Counted-Effect s t t [] c (let z : 0 ≤ 1 = omega arith in z) nothing (sym (append-nil t.sent))
      refl refl refl refl refl

resend : Run → Result ℕ × Run
resend t = sent_status (send t.req t)

resend-Effect : (s t : Run) → Counted s t → Effect s (resend t).1
unfolding resend send
resend-Effect s t c =
    transmitted_copy-Effect s t (format t.req max_buf_len) c
      (ap (λ m. format m max_buf_len) (sym c.req_same))

counted_arm-Effect :
    (s : Run) (o : Option ℕ) (t : Run)
    → s.client.num_retrans < max_retransmit
    → t ≡ record (double_timeout s) { timers = later s.timers }
    → Effect s (continue (continue (arm o t) (λ _. count_retrans)) (λ _. resend)).1
unfolding double_timeout
counted_arm-Effect s none t lt e = resend-Effect s _ (record {
  one_more = rw e;
  below = lt;
  sent_same = rw e;
  req_same = rw e;
  waits_same = rw e;
  heap_same = rw e;
  resp_same = rw e;
})
counted_arm-Effect s (some n) t lt e = rw e (quiet s _ refl refl refl refl refl refl)

pub handle_ack_timeout-Effect : (s : Run) → Effect s (handle_ack_timeout s).1
unfolding handle_ack_timeout update_ack_timer start_timer resend double_timeout
handle_ack_timeout-Effect s = elim (Bool-cases (leb max_retransmit s.client.num_retrans)) [
  | inl e ↦ rw e (Effect-refl s)
  | inr e ↦ rw e (counted_arm-Effect s _ _ (below_of _ _ e) refl)
]
