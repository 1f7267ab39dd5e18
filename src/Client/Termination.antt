-- ===== src/Client/Termination.antt =====
-- coap_client_exchange ends, or waits for an event (lib/src/coap_client.c).
use free_co_ap.Common.{
  ℕ, zero, suc, ◌+◌, inl, inr, Result, ok, err, stuck, length, ◌==◌, arith, Bool-cases,
}
use free_co_ap.Common.Actions.{continue, ignore}
use free_co_ap.Msg.{con, non}
use free_co_ap.Msg.Build.{set_msg_id, set_token}
use free_co_ap.Client.{Platform, Run, C, start_timer, start_ack_timer, start_resp_timer}
use free_co_ap.Client.Transfer.{send}
use free_co_ap.Client.Exchange.{
  listen_ack, listen_resp, sep_verdict, non_verdict, con_verdict, sep_loop, non_loop, con_loop,
  exchange_sep, exchange_non, exchange_con, gen_msg_id, gen_token, await, exchange, is_request,
}
use free_co_ap.Client.Blocked.{Blocked, Returns, send-Returns}
use free_co_ap.Client.Waiting.{
  Listened-mono, listen_ack_from-Listened, listen_resp_from-Listened, BlockedBelow, round-Blocked,
}

sep_loop-Blocked : (n : ℕ) (p : Platform) → BlockedBelow n (sep_loop n p)
unfolding sep_loop
sep_loop-Blocked zero p s lt = absurd (let z : ⊥ = omega arith in z)
sep_loop-Blocked (suc n) p s lt =
    round-Blocked n p listen_resp sep_verdict (sep_loop n p) (sep_loop n p) s
      (Listened-mono (length s.waits) n (listen_resp s) (omega arith)
        (listen_resp_from-Listened s.waits s))
      (sep_loop-Blocked n p) (sep_loop-Blocked n p)

non_loop-Blocked : (n : ℕ) (p : Platform) → BlockedBelow n (non_loop n p)
unfolding non_loop
non_loop-Blocked zero p s lt = absurd (let z : ⊥ = omega arith in z)
non_loop-Blocked (suc n) p s lt =
    round-Blocked n p listen_resp non_verdict (non_loop n p) (non_loop n p) s
      (Listened-mono (length s.waits) n (listen_resp s) (omega arith)
        (listen_resp_from-Listened s.waits s))
      (non_loop-Blocked n p) (non_loop-Blocked n p)

start_timer-Returns : (s : Run) → Returns (start_timer s)
unfolding start_timer
start_timer-Returns s = ground arith

start_resp_timer-Returns : (s : Run) → Returns (start_resp_timer s)
unfolding start_resp_timer
start_resp_timer-Returns s = start_timer-Returns _

start_ack_timer-Returns : (s : Run) → Returns (start_ack_timer s)
unfolding start_ack_timer
start_ack_timer-Returns s = start_timer-Returns _

-- A loop started with fuel for all the results of select that there are.
started-Blocked :
    (r : Result ℕ × Run) (loop : ℕ → C ℕ)
    → Returns r
    → ((n : ℕ) → BlockedBelow n (loop n))
    → Blocked (continue (ignore r) (λ _ t. loop (length t.waits + 1) t))
started-Blocked (ok k, t) loop c h = h (length t.waits + 1) t (omega arith)
started-Blocked (err e, t) loop c h = h (length t.waits + 1) t (omega arith)
started-Blocked (stuck, t) loop c h = absurd c

exchange_sep-Blocked : (p : Platform) (s : Run) → Blocked (exchange_sep p s)
unfolding exchange_sep
exchange_sep-Blocked p s =
    started-Blocked (start_resp_timer s) (λ n. sep_loop n p) (start_resp_timer-Returns s)
      λ n. sep_loop-Blocked n p

con_loop-Blocked : (n : ℕ) (p : Platform) → BlockedBelow n (con_loop n p)
unfolding con_loop
con_loop-Blocked zero p s lt = absurd (let z : ⊥ = omega arith in z)
con_loop-Blocked (suc n) p s lt =
    round-Blocked n p listen_ack con_verdict (exchange_sep p) (con_loop n p) s
      (Listened-mono (length s.waits) n (listen_ack s) (omega arith)
        (listen_ack_from-Listened s.waits s))
      (λ t _. exchange_sep-Blocked p t) (con_loop-Blocked n p)

await-Blocked : (p : Platform) (s : Run) → Blocked (await p s)
unfolding await exchange_con exchange_non
await-Blocked p s = elim (Bool-cases (s.req.type == con)) [
  | inl e ↦ rw e (
      started-Blocked (start_ack_timer s) (λ n. con_loop n p) (start_ack_timer-Returns s)
        λ n. con_loop-Blocked n p)
  | inr e ↦ rw e (elim (Bool-cases (s.req.type == non)) [
    | inl n ↦ rw n (
        started-Blocked (start_resp_timer s) (λ k. non_loop k p) (start_resp_timer-Returns s)
          λ k. non_loop-Blocked k p)
    | inr n ↦ rw n tt
  ])
]

gen_msg_id-Returns : (s : Run) → Returns (gen_msg_id s)
unfolding gen_msg_id set_msg_id
gen_msg_id-Returns s = ground arith

gen_token-Returns : (s : Run) → Returns (gen_token s)
unfolding gen_token set_token
gen_token-Returns s = ground arith

returned-Blocked :
    (r : Result ℕ × Run) (f : ℕ → C ℕ)
    → Returns r
    → ((n : ℕ) (t : Run) → Blocked (f n t))
    → Blocked (continue r f)
returned-Blocked (ok n, t) f c h = h n t
returned-Blocked (err e, t) f c h = tt
returned-Blocked (stuck, t) f c h = absurd c

-- coap_client_exchange returns, or no result of select or no datagram is left.
pub exchange-Blocked : (p : Platform) (s : Run) → Blocked (exchange p s)
unfolding exchange
exchange-Blocked p s = elim (Bool-cases (is_request s.req)) [
  | inl e ↦ rw e (
      returned-Blocked (gen_msg_id s) _ (gen_msg_id-Returns s) λ _ t.
        returned-Blocked (gen_token t) _ (gen_token-Returns t)
          λ _ u. returned-Blocked (send u.req u) _ (send-Returns u.req u) λ _ v. await-Blocked p v)
  | inr e ↦ rw e tt
]
