-- ===== src/Client/Blocked.antt =====
-- The loops of lib/src/coap_client.c end: a call that does not return waits for an event.
use free_co_ap.Common.{
  ℕ, List, [], ◌∷◌, ◌≡◌, ◌≢◌, refl, ◌⊎◌, inl, inr, Option, none, some, Errno, Result, ok, err,
  stuck, ◌>>=◌, Bytes, take, ltb, ◌==◌, arith, Bool-cases,
}
use free_co_ap.Common.Actions.{continue}
use free_co_ap.Msg.{Op, Msg, State, check, con, ack, rst, max_msg_id}
use free_co_ap.Msg.Format.{format, format_hdr, format_token, format_op, format_ops, format_payload}
use free_co_ap.Msg.Total.{Ends, parse-Ends}
use free_co_ap.Client.{
  Platform, Outcome, Run, C, status, max_buf_len, start_timer, double_timeout, update_ack_timer,
}
use free_co_ap.Client.Transfer.{
  send, send_empty, deliver, transmit, next_send, after_parse, accept, receive, recv, reject,
  handle_ack_timeout,
}
use free_co_ap.Client.Effect.{empty_sent, send_empty-rst, send_empty-ack}
use free_co_ap.Client.Effects.{reject-eq}

-- What a call that does not return leaves: no event is left that it could wait for, or no datagram.
abbrev pub Blocked : Result ℕ × Run → Type 0
Blocked (ok n, t) = Unit
Blocked (err e, t) = Unit
Blocked (stuck, t) = (t.waits ≡ []) ⊎ (t.arrivals ≡ [])

-- A call that returns.
abbrev pub Returns : Result ℕ × Run → Type 0
Returns (ok n, t) = Unit
Returns (err e, t) = Unit
Returns (stuck, t) = ⊥

bind-ne-stuck :
    {A B : Type 0} (r : Result A) (f : A → Result B)
    → r ≢ stuck
    → ((a : A) → f a ≢ stuck)
    → (r >>= f) ≢ stuck
bind-ne-stuck (ok a) f h k = k a
bind-ne-stuck (err e) f h k = λ z. cc
bind-ne-stuck stuck f h k = absurd (h refl)

format_ops-ne-stuck : (ops : List Op) (prev_num len : ℕ) → format_ops ops prev_num len ≢ stuck
unfolding format_ops format_op
format_ops-ne-stuck [] prev_num len = λ z. cc
format_ops-ne-stuck (op ∷ ops) prev_num len =
    bind-ne-stuck (format_op op prev_num len) _ (ground arith) λ out.
      bind-ne-stuck (format_ops ops op.num _) _ (format_ops-ne-stuck ops op.num _) λ more z. cc

pub format-ne-stuck : (m : Msg) (len : ℕ) → format m len ≢ stuck
unfolding format check format_hdr format_token format_payload
format-ne-stuck m len = bind-ne-stuck (check m) _ (ground arith) λ _.
    bind-ne-stuck (format_hdr m len) _ (ground arith) λ hdr.
      bind-ne-stuck (format_token m _) _ (ground arith) λ token.
        bind-ne-stuck (format_ops m.op_list 0 _) _ (format_ops-ne-stuck m.op_list 0 _)
          λ ops. bind-ne-stuck (format_payload m _) _ (ground arith) λ payload z. cc

deliver-Returns : (o : Option Errno) (buf : Bytes) (s : Run) → Returns (deliver o buf s)
deliver-Returns none buf s = tt
deliver-Returns (some e) buf s = tt

transmit-Returns : (r : Result Bytes) (s : Run) → r ≢ stuck → Returns (transmit r s)
transmit-Returns (ok buf) s h = deliver-Returns (status (next_send s.sends)) buf _
transmit-Returns (err e) s h = tt
transmit-Returns stuck s h = h refl

pub send-Returns : (msg : Msg) (s : Run) → Returns (send msg s)
unfolding send
send-Returns msg s = transmit-Returns (format msg max_buf_len) s (format-ne-stuck msg max_buf_len)

pub continue-Returns :
    (r : Result ℕ × Run) (f : ℕ → C ℕ)
    → Returns r
    → ((n : ℕ) (t : Run) → Returns (f n t))
    → Returns (continue r f)
continue-Returns (ok n, t) f h k = k n t
continue-Returns (err e, t) f h k = tt
continue-Returns (stuck, t) f h k = h

empty_sent-Returns : (type msg_id : ℕ) (s : Run) → Returns (empty_sent type msg_id s)
empty_sent-Returns type msg_id s = elim (Bool-cases (ltb max_msg_id msg_id)) [
  | inl e ↦ rw e tt
  | inr e ↦ rw e (
      continue-Returns (deliver (status (next_send s.sends)) _ _) _
        (deliver-Returns (status (next_send s.sends)) _ _) (λ _ t. tt))
]

pub send_ack-Returns : (msg_id : ℕ) (s : Run) → Returns (send_empty ack msg_id s)
send_ack-Returns msg_id s = rw (send_empty-ack msg_id s) (empty_sent-Returns ack msg_id s)

pub reject-Returns : (msg : Msg) (s : Run) → Returns (reject msg s)
reject-Returns msg s = elim (Bool-cases (msg.type == con)) [
  | inl e ↦
      rw (reject-eq msg s, e, send_empty-rst msg.msg_id s) (empty_sent-Returns rst msg.msg_id s)
  | inr e ↦ rw (reject-eq msg s, e) tt
]

update_ack_timer-Returns : (s : Run) → Returns (update_ack_timer s)
unfolding update_ack_timer start_timer double_timeout
update_ack_timer-Returns s = ground arith

pub handle_ack_timeout-Returns : (s : Run) → Returns (handle_ack_timeout s)
unfolding handle_ack_timeout
handle_ack_timeout-Returns s =
    continue-Returns (update_ack_timer s) _ (update_ack_timer-Returns s)
      λ _ t. continue-Returns (send t.req t) _ (send-Returns t.req t) (λ _ u. tt)

after_parse-Blocked :
    (buf : Bytes) (parts r : Result ℕ × State) (s : Run)
    → Ends parts r
    → Blocked (after_parse buf r s)
after_parse-Blocked buf parts (ok n, t) s h = tt
after_parse-Blocked buf parts (err e, t) s h = tt
after_parse-Blocked buf parts (stuck, t) s h = absurd h

accept-Blocked :
    (p : Platform) (o : Option Errno) (buf : Bytes) (s : Run) → Blocked (accept p o buf s)
accept-Blocked p none buf s = after_parse-Blocked buf _ _ s (parse-Ends p.char_signed buf _)
accept-Blocked p (some e) buf s = tt

receive-Blocked :
    (p : Platform) (l : List (Outcome × Bytes)) (s : Run) → l ≡ s.arrivals → Blocked (receive p l s)
receive-Blocked p [] s e = inr (rw e)
receive-Blocked p ((o, datagram) ∷ rest) s e =
    accept-Blocked p (status o) (take max_buf_len datagram) _

pub recv-Blocked : (p : Platform) (s : Run) → Blocked (recv p s)
unfolding recv
recv-Blocked p s = receive-Blocked p s.arrivals s refl
