-- ===== src/Client/Progress.antt =====
-- An exchange uses up few events (lib/src/coap_client.c): no loop turns round without end.
use free_co_ap.Common.{
  ℕ, zero, suc, ◌+◌, ◌≤◌, refl, Option, none, some, Result, ok, err, stuck, length, ◌==◌, arith,
  Bool-cases, inl, inr,
}
use free_co_ap.Common.Actions.{continue, ignore}
use free_co_ap.Msg.{con, non}
use free_co_ap.Msg.Build.{set_msg_id, set_token}
use free_co_ap.Client.{
  Platform, Run, C, next_timer, arm, max_retransmit, start_timer, start_ack_timer, start_resp_timer,
  init_resp_timeout, init_ack_timeout, with_num_retrans,
}
use free_co_ap.Client.Transfer.{send}
use free_co_ap.Client.Exchange.{
  listen_ack, listen_resp, sep_verdict, non_verdict, con_verdict, sep_loop, non_loop, con_loop,
  exchange_sep, exchange_non, exchange_con, gen_msg_id, gen_token, await, exchange, is_request,
}
use free_co_ap.Client.Outgoing.{exchange-Outgoing}
use free_co_ap.Client.Blocked.{Blocked}
use free_co_ap.Client.Termination.{exchange-Blocked}
use free_co_ap.Client.Still.{Still, Still-refl, Still-trans, send-Still}
use free_co_ap.Client.Spent.{
  events, Spent, Still-Spent, Still-then, Frugal, round-Spent, listen_ack-Spent, listen_resp-Spent,
}

sep_loop-Spent : (n : ℕ) (p : Platform) → Frugal (sep_loop n p)
unfolding sep_loop
sep_loop-Spent zero p s = Still-Spent 1 s s (Still-refl s)
sep_loop-Spent (suc n) p s =
    round-Spent p listen_resp sep_verdict (sep_loop n p) (sep_loop n p) listen_resp-Spent
      (sep_loop-Spent n p) (sep_loop-Spent n p) s

non_loop-Spent : (n : ℕ) (p : Platform) → Frugal (non_loop n p)
unfolding non_loop
non_loop-Spent zero p s = Still-Spent 1 s s (Still-refl s)
non_loop-Spent (suc n) p s =
    round-Spent p listen_resp non_verdict (non_loop n p) (non_loop n p) listen_resp-Spent
      (non_loop-Spent n p) (non_loop-Spent n p) s

arm-Still : (o : Option ℕ) (s : Run) → Still s (arm o s).1
arm-Still none s = record { waits_is = refl; arrivals_is = refl; num_is = refl }
arm-Still (some e) s = Still-refl s

start_resp_timer-Still : (s : Run) → Still s (start_resp_timer s).1
unfolding start_resp_timer start_timer init_resp_timeout
start_resp_timer-Still s =
    Still-trans s _ _ (record { waits_is = refl; arrivals_is = refl; num_is = refl })
      (arm-Still (next_timer s.timers) _)

-- A loop that is started whether or not its timer was.
started-Spent :
    (s : Run) (r : Result ℕ × Run) (loop : ℕ → C ℕ)
    → Still s r.1
    → ((n : ℕ) → Frugal (loop n))
    → Spent 1 s (continue (ignore r) (λ _ t. loop (length t.waits + 1) t)).1
started-Spent s (ok k, t) loop c h = Still-then 1 s t _ c (h (length t.waits + 1) t)
started-Spent s (err e, t) loop c h = Still-then 1 s t _ c (h (length t.waits + 1) t)
started-Spent s (stuck, t) loop c h = Still-Spent 1 s t c

exchange_sep-Spent : (p : Platform) → Frugal (exchange_sep p)
unfolding exchange_sep
exchange_sep-Spent p s =
    started-Spent s (start_resp_timer s) (λ n. sep_loop n p) (start_resp_timer-Still s)
      λ n. sep_loop-Spent n p

exchange_non-Spent : (p : Platform) → Frugal (exchange_non p)
unfolding exchange_non
exchange_non-Spent p s =
    started-Spent s (start_resp_timer s) (λ n. non_loop n p) (start_resp_timer-Still s)
      λ n. non_loop-Spent n p

con_loop-Spent : (n : ℕ) (p : Platform) → Frugal (con_loop n p)
unfolding con_loop
con_loop-Spent zero p s = Still-Spent 1 s s (Still-refl s)
con_loop-Spent (suc n) p s =
    round-Spent p listen_ack con_verdict (exchange_sep p) (con_loop n p) listen_ack-Spent
      (exchange_sep-Spent p) (con_loop-Spent n p) s

-- Starting the timer for an acknowledgement sets the counter to 0.
start_ack_timer-Still : (s : Run) → Still (with_num_retrans 0 s) (start_ack_timer s).1
unfolding start_ack_timer start_timer init_ack_timeout
start_ack_timer-Still s =
    Still-trans (with_num_retrans 0 s) _ _
      (record { waits_is = refl; arrivals_is = refl; num_is = refl })
      (arm-Still (next_timer s.timers) _)

exchange_con-Spent : (p : Platform) (s : Run) → Spent 1 (with_num_retrans 0 s) (exchange_con p s).1
unfolding exchange_con
exchange_con-Spent p s =
    started-Spent (with_num_retrans 0 s) (start_ack_timer s) (λ n. con_loop n p)
      (start_ack_timer-Still s) λ n. con_loop-Spent n p

-- Events are used up for datagrams, for what is counted at the end, and one more.
record Counted (s t : Run) : Type 0 where
  counted :
      events s.waits + length t.arrivals
      ≤ events t.waits + (length s.arrivals + (t.client.num_retrans + 1))

Spent-Counted : (s t : Run) → Spent 1 s t → Counted s t
Spent-Counted s t h = record { counted = let a = h.spent in omega arith }

await-Counted : (p : Platform) (s : Run) → Counted s (await p s).1
unfolding await
await-Counted p s = elim (Bool-cases (s.req.type == con)) [
  | inl e ↦ rw e (record { counted = let a = (exchange_con-Spent p s).spent in omega arith })
  | inr e ↦ rw e (elim (Bool-cases (s.req.type == non)) [
    | inl n ↦ rw n (Spent-Counted s _ (exchange_non-Spent p s))
    | inr n ↦ rw n (Spent-Counted s s (Still-Spent 1 s s (Still-refl s)))
  ])
]

prepared-Counted :
    (s : Run) (r : Result ℕ × Run) (f : ℕ → C ℕ)
    → Still s r.1
    → ((n : ℕ) (t : Run) → Counted t (f n t).1)
    → Counted s (continue r f).1
prepared-Counted s (ok n, t) f h k = record {
  counted = rw (← h.waits_is, ← h.arrivals_is) (k n t).counted;
}
prepared-Counted s (err e, t) f h k = Spent-Counted s t (Still-Spent 1 s t h)
prepared-Counted s (stuck, t) f h k = Spent-Counted s t (Still-Spent 1 s t h)

gen_msg_id-Still : (s : Run) → Still s (gen_msg_id s).1
unfolding gen_msg_id set_msg_id
gen_msg_id-Still s = record {
  waits_is = ground arith;
  arrivals_is = ground arith;
  num_is = ground arith;
}

gen_token-Still : (s : Run) → Still s (gen_token s).1
unfolding gen_token set_token
gen_token-Still s = record {
  waits_is = ground arith;
  arrivals_is = ground arith;
  num_is = ground arith;
}

exchange-Counted : (p : Platform) (s : Run) → Counted s (exchange p s).1
unfolding exchange
exchange-Counted p s = elim (Bool-cases (is_request s.req)) [
  | inl e ↦ rw e (
      prepared-Counted s (gen_msg_id s) _ (gen_msg_id-Still s) λ _ t.
        prepared-Counted t (gen_token t) _ (gen_token-Still t)
          λ _ u. prepared-Counted u (send u.req u) _ (send-Still u.req u) λ _ v. await-Counted p v)
  | inr e ↦ rw e (Spent-Counted s s (Still-Spent 1 s s (Still-refl s)))
]

-- Where at most four retransmissions were counted before, coap_client_exchange ends within few
-- events: of the results of select that report a readable descriptor, an expired timer or an error,
-- it uses up at most five more than it takes datagrams. And where it does not return, no result of
-- select or no datagram is left to wait for.
pub exchange-Finishes :
    (p : Platform) (s : Run)
    → s.client.num_retrans ≤ max_retransmit
    → let t = (exchange p s).1 in
      Blocked (exchange p s)
      × (events s.waits + length t.arrivals
          ≤ events t.waits + (length s.arrivals + suc max_retransmit))
exchange-Finishes p s le = (
  exchange-Blocked p s,
  let a = (exchange-Counted p s).counted in
      let b = (exchange-Outgoing p s le).capped in omega arith,
)
