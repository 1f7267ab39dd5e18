-- ===== src/Client/Success.antt =====
-- The loops of coap_client_exchange succeed with an answer only (lib/src/coap_client.c).
use free_co_ap.Common.{
  ℕ, zero, suc, ◌+◌, ◌≡◌, Result, ok, length, ◌==◌, arith, Bool-cases, inl, inr,
}
use free_co_ap.Common.Actions.{ignore}
use free_co_ap.Msg.{Msg, con, non}
use free_co_ap.Client.{Platform, Run, start_ack_timer, start_resp_timer}
use free_co_ap.Client.Transfer.{send}
use free_co_ap.Client.Exchange.{
  con_verdict, sep_verdict, non_verdict, listen_ack, listen_resp, sep_loop, con_loop, non_loop,
  exchange_sep, exchange_con, exchange_non, await, exchange, is_request, gen_msg_id, gen_token,
}
use free_co_ap.Client.Answer.{Answered, Answers, Tells, continue-Answers, round-Answers}

con_verdict-Tells : (req resp : Msg) → Tells req resp (con_verdict req resp)
unfolding con_verdict
con_verdict-Tells req resp = ground arith

sep_verdict-Tells : (req resp : Msg) → Tells req resp (sep_verdict req resp)
unfolding sep_verdict
sep_verdict-Tells req resp = ground arith

non_verdict-Tells : (req resp : Msg) → Tells req resp (non_verdict req resp)
unfolding non_verdict
non_verdict-Tells req resp = ground arith

sep_loop-Answers : (n : ℕ) (p : Platform) (s : Run) → Answers p (sep_loop n p s)
unfolding sep_loop
sep_loop-Answers zero p s = tt
sep_loop-Answers (suc n) p s =
    round-Answers p listen_resp sep_verdict (sep_loop n p) (sep_loop n p) s sep_verdict-Tells
      (sep_loop-Answers n p) (sep_loop-Answers n p)

non_loop-Answers : (n : ℕ) (p : Platform) (s : Run) → Answers p (non_loop n p s)
unfolding non_loop
non_loop-Answers zero p s = tt
non_loop-Answers (suc n) p s =
    round-Answers p listen_resp non_verdict (non_loop n p) (non_loop n p) s non_verdict-Tells
      (non_loop-Answers n p) (non_loop-Answers n p)

exchange_sep-Answers : (p : Platform) (s : Run) → Answers p (exchange_sep p s)
unfolding exchange_sep
exchange_sep-Answers p s =
    continue-Answers p (ignore (start_resp_timer s)) _
      λ _ t. sep_loop-Answers (length t.waits + 1) p t

con_loop-Answers : (n : ℕ) (p : Platform) (s : Run) → Answers p (con_loop n p s)
unfolding con_loop
con_loop-Answers zero p s = tt
con_loop-Answers (suc n) p s =
    round-Answers p listen_ack con_verdict (exchange_sep p) (con_loop n p) s con_verdict-Tells
      (exchange_sep-Answers p) (con_loop-Answers n p)

await-Answers : (p : Platform) (s : Run) → Answers p (await p s)
unfolding await exchange_con exchange_non
await-Answers p s = elim (Bool-cases (s.req.type == con)) [
  | inl e ↦ rw e (
      continue-Answers p (ignore (start_ack_timer s)) _
        λ _ t. con_loop-Answers (length t.waits + 1) p t)
  | inr e ↦ rw e (elim (Bool-cases (s.req.type == non)) [
    | inl n ↦ rw n (
        continue-Answers p (ignore (start_resp_timer s)) _
          λ _ t. non_loop-Answers (length t.waits + 1) p t)
    | inr n ↦ rw n tt
  ])
]

exchange-Answers : (p : Platform) (s : Run) → Answers p (exchange p s)
unfolding exchange
exchange-Answers p s = elim (Bool-cases (is_request s.req)) [
  | inl e ↦ rw e (
      continue-Answers p (gen_msg_id s) _ λ _ t.
        continue-Answers p (gen_token t) _
          λ _ u. continue-Answers p (send u.req u) _ λ _ v. await-Answers p v)
  | inr e ↦ rw e tt
]

answered :
    (p : Platform) (r : Result ℕ × Run) {n : ℕ} {t : Run}
    → Answers p r
    → r ≡ (ok n, t)
    → Answered p t
answered p r h e = rw e at h

-- Where coap_client_exchange succeeds, the response has the token of the request and options that
-- pass the check, and it came in the acknowledgement of the request, or in a non-confirmable
-- message, or in a confirmable message of which the client's acknowledgement is the last datagram
-- that it sent.
pub exchange-Answered :
    (p : Platform) (s : Run) {n : ℕ} {t : Run} → exchange p s ≡ (ok n, t) → Answered p t
exchange-Answered p s e = answered p (exchange p s) (exchange-Answers p s) e
