-- ===== src/Client/Silence.antt =====
-- A server that never answers a confirmable request (lib/src/coap_client.c).
use free_co_ap.Common.{
  ℕ, zero, suc, ◌+◌, true, false, List, [], ◌∷◌, ◌++◌, append-nil, append_assoc, ◌≡◌, refl, sym,
  ◌∙◌, Result, ok, err, stuck, etimedout, Bytes, length, replicate, leb, arith,
}
use mathlib.Core.Path.{subst}
use free_co_ap.Common.Actions.{continue}
use free_co_ap.Msg.Format.{format}
use free_co_ap.Client.{
  Platform, Wait, ready, Run, with_num_retrans, max_buf_len, max_retransmit, start_timer,
  init_ack_timeout, double_timeout, update_ack_timer, start_ack_timer,
}
use free_co_ap.Client.Transfer.{send, handle_ack_timeout}
use free_co_ap.Client.Exchange.{
  round, con_loop, exchange_con, listen_ack, listen_ack_from, with_waits,
}

-- select returns since the timer expired.
abbrev pub expired : Wait
expired = ready false true

-- The state after one retransmission, where no call fails.
abbrev resent : Bytes → Run → Run
resent buf s = record (with_num_retrans (s.client.num_retrans + 1) (double_timeout s)) {
  sends = [];
  timers = [];
  sent = s.sent ++ (buf ∷ []);
  armed = s.armed ++ (((double_timeout s).client.tv_sec, (double_timeout s).client.tv_nsec) ∷ []);
}

-- No call of send and of timerfd_settime fails, and the request is `buf` on the wire.
record Healthy (buf : Bytes) (s : Run) : Type 0 where
  sends_are : s.sends ≡ []
  timers_are : s.timers ≡ []
  formatted : format s.req max_buf_len ≡ ok buf

handle_ack_timeout-resent :
    (buf : Bytes) (s : Run)
    → Healthy buf s
    → leb max_retransmit s.client.num_retrans ≡ false
    → handle_ack_timeout s ≡ (ok 0, resent buf s)
unfolding handle_ack_timeout update_ack_timer start_timer double_timeout send
handle_ack_timeout-resent buf s h e = rw (e, h.timers_are, h.formatted, h.sends_are)

handle_ack_timeout-last :
    (s : Run)
    → leb max_retransmit s.client.num_retrans ≡ true
    → handle_ack_timeout s ≡ (err etimedout, s)
unfolding handle_ack_timeout update_ack_timer
handle_ack_timeout-last s e = rw e

-- The call has given up after `k` more copies of the request, with the events `ws` left.
pub record GaveUp (ws : List Wait) (buf : Bytes) (k : ℕ) (s : Run) (r : Result ℕ × Run)
    : Type 0 where
  pub timed_out : r.0 ≡ err etimedout
  pub sent_is : r.1.sent ≡ s.sent ++ replicate k buf
  pub waits_left : r.1.waits ≡ ws

listen_ack_from-GaveUp :
    (k : ℕ) (ws : List Wait) (buf : Bytes) (s : Run)
    → Healthy buf s
    → k + s.client.num_retrans ≡ max_retransmit
    → GaveUp ws buf k s (listen_ack_from (replicate (suc k) expired ++ ws) s)
unfolding listen_ack_from double_timeout
listen_ack_from-GaveUp zero ws buf s h e =
    rw (handle_ack_timeout-last (with_waits ws s) (ground arith))
      (record { timed_out = refl; sent_is = sym (append-nil s.sent); waits_left = refl })
listen_ack_from-GaveUp (suc k) ws buf s h e =
    let left = replicate (suc k) expired ++ ws in
    let s1 = with_waits left s in
    let h1 : Healthy buf s1 = record {
      sends_are = h.sends_are;
      timers_are = h.timers_are;
      formatted = h.formatted;
    } in
    let again =
      listen_ack_from-GaveUp k ws buf (resent buf s1)
        (record { sends_are = refl; timers_are = refl; formatted = h.formatted }) (omega arith) in
    rw (handle_ack_timeout-resent buf s1 h1 (ground arith)) (record {
      timed_out = again.timed_out;
      sent_is = again.sent_is ∙ append_assoc s.sent (buf ∷ []) (replicate k buf);
      waits_left = again.waits_left;
    })

first_fails :
    (ws : List Wait) (buf : Bytes) (k : ℕ) (s : Run) (r : Result ℕ × Run)
    (f : ℕ → Run → Result ℕ × Run)
    → GaveUp ws buf k s r
    → GaveUp ws buf k s (continue r f)
first_fails ws buf k s (ok n, t) f h = let z = h.timed_out in cc
first_fails ws buf k s (err e, t) f h = h
first_fails ws buf k s (stuck, t) f h = h

-- A round that fails in its wait fails so.
round-GaveUp :
    (n : ℕ) (p : Platform) (ws : List Wait) (buf : Bytes) (k : ℕ) (s t : Run)
    → GaveUp ws buf k s (listen_ack t)
    → GaveUp ws buf k s (con_loop (suc n) p t)
unfolding con_loop round
round-GaveUp n p ws buf k s t h = first_fails ws buf k s (listen_ack t) _ h

armed_run : Run → Run
armed_run s =
    let t = init_ack_timeout (with_num_retrans 0 s) in
    record t { timers = []; armed = s.armed ++ ((t.client.tv_sec, t.client.tv_nsec) ∷ []) }

start_ack_timer-armed : (s : Run) → s.timers ≡ [] → start_ack_timer s ≡ (ok 0, armed_run s)
unfolding start_ack_timer start_timer init_ack_timeout armed_run
start_ack_timer-armed s e = rw e

-- Where the request can be formatted, no send and no timer fails and the timer expires five times
-- before anything arrives, coap_client_exchange_con fails with ETIMEDOUT after the fifth, and sends
-- the request four times more than the caller did.
pub exchange_con-GaveUp :
    (p : Platform) (ws : List Wait) (buf : Bytes) (s : Run)
    → s.sends ≡ []
    → s.timers ≡ []
    → format s.req max_buf_len ≡ ok buf
    → s.waits ≡ replicate 5 expired ++ ws
    → GaveUp ws buf max_retransmit s (exchange_con p s)
unfolding exchange_con init_ack_timeout armed_run
exchange_con-GaveUp p ws buf s e f g w =
    let t = armed_run s in
    let more : length t.waits + 1 ≡ suc (length t.waits) = omega arith in
    let gave =
      listen_ack_from-GaveUp max_retransmit ws buf t
        (record { sends_are = e; timers_are = refl; formatted = g }) refl in
    let gave1 : GaveUp ws buf max_retransmit s (listen_ack_from (replicate 5 expired ++ ws) t) =
      record { timed_out = gave.timed_out; sent_is = gave.sent_is; waits_left = gave.waits_left } in
    rw (start_ack_timer-armed s f, more)
      (round-GaveUp (length t.waits) p ws buf max_retransmit s t
        (subst (λ v. GaveUp ws buf max_retransmit s (listen_ack_from v t)) (sym w) gave1))
