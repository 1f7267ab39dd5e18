-- ===== src/Client/Loops.antt =====
-- The effect of the waits, the branches and the loops of an exchange (lib/src/coap_client.c).
use free_co_ap.Common.{
  ℕ, zero, suc, ◌+◌, ◌≤◌, true, false, not, List, [], ◌∷◌, ◌≡◌, refl, sym, append-nil, Option, none,
  some, Result, ok, err, stuck, length, ◌==◌, arith, Bool-cases, inl, inr, if◌then◌else◌,
}
use free_co_ap.Common.Actions.{continue, ignore}
use free_co_ap.Msg.{Msg, con, non}
use free_co_ap.Client.{
  Platform, Wait, broken, ready, Run, C, double_timeout, start_timer, start_resp_timer,
  init_resp_timeout, update_ack_timer, next_timer, arm,
}
use free_co_ap.Client.Transfer.{send, recv, reject, send_ack, handle_ack_timeout}
use free_co_ap.Client.Exchange.{
  Verdict, acknowledged, repeated, piggybacked, separate, was_reset, refused, unrelated, refuse,
  check_options, handle_piggybacked_response, handle_sep_response, act, round, listen_ack_from,
  listen_ack, listen_resp_from, listen_resp, with_waits, sep_verdict, non_verdict, con_verdict,
  sep_loop, non_loop, con_loop, exchange_sep, exchange_non,
}
use free_co_ap.Client.Effect.{
  nothing, Effect, Effect-refl, Effect-trans, continue-Effect, ignore-Effect, quiet,
  send_empty-ack-Effect,
}
use free_co_ap.Client.Effects.{le_refl, reject-Effect, recv-Effect, handle_ack_timeout-Effect}

pub handle_ack_timeout-waits : (s : Run) → (handle_ack_timeout s).1.waits ≡ s.waits
unfolding handle_ack_timeout update_ack_timer start_timer double_timeout send
handle_ack_timeout-waits s = ground arith

with_waits-Effect :
    (ws : List Wait) (s : Run) → length ws ≤ length s.waits → Effect s (with_waits ws s)
with_waits-Effect ws s le = record {
  news = [];
  copies = 0;
  sent_is = sym (append-nil s.sent);
  log = nothing;
  req_kept = refl;
  counted = omega arith;
  capped = λ c. c;
  waits_le = le;
  blocks = refl;
}

-- The loop goes on with the events that are left, which the handler did not touch.
handled-Effect :
    (ws : List Wait) (s : Run) (r : Result ℕ × Run)
    → Effect s r.1
    → r.1.waits ≡ ws
    → ((t : Run) → length ws ≤ length t.waits → Effect t (listen_ack_from ws t).1)
    → Effect s (continue r (λ _. listen_ack_from ws)).1
handled-Effect ws s (ok n, t) h e k = Effect-trans s t _ h (k t (rw e (le_refl (length ws))))
handled-Effect ws s (err c, t) h e k = h
handled-Effect ws s (stuck, t) h e k = h

listen_ack_from-Effect :
    (ws : List Wait) (s : Run) → length ws ≤ length s.waits → Effect s (listen_ack_from ws s).1
unfolding listen_ack_from
listen_ack_from-Effect [] s le = with_waits-Effect [] s le
listen_ack_from-Effect (broken e ∷ ws) s le = with_waits-Effect ws s (omega arith)
listen_ack_from-Effect (ready true timer ∷ ws) s le = with_waits-Effect ws s (omega arith)
listen_ack_from-Effect (ready false true ∷ ws) s le =
    Effect-trans s (with_waits ws s) _ (with_waits-Effect ws s (omega arith)) (
      handled-Effect ws (with_waits ws s) (handle_ack_timeout (with_waits ws s))
        (handle_ack_timeout-Effect (with_waits ws s)) (handle_ack_timeout-waits (with_waits ws s))
        (listen_ack_from-Effect ws))
listen_ack_from-Effect (ready false false ∷ ws) s le =
    Effect-trans s (with_waits ws s) _ (with_waits-Effect ws s (omega arith))
      (listen_ack_from-Effect ws (with_waits ws s) (le_refl _))

listen_resp_from-Effect :
    (ws : List Wait) (s : Run) → length ws ≤ length s.waits → Effect s (listen_resp_from ws s).1
unfolding listen_resp_from
listen_resp_from-Effect [] s le = with_waits-Effect [] s le
listen_resp_from-Effect (broken e ∷ ws) s le = with_waits-Effect ws s (omega arith)
listen_resp_from-Effect (ready true timer ∷ ws) s le = with_waits-Effect ws s (omega arith)
listen_resp_from-Effect (ready false true ∷ ws) s le = with_waits-Effect ws s (omega arith)
listen_resp_from-Effect (ready false false ∷ ws) s le =
    Effect-trans s (with_waits ws s) _ (with_waits-Effect ws s (omega arith))
      (listen_resp_from-Effect ws (with_waits ws s) (le_refl _))

refuse-Effect : (s : Run) → Effect s (refuse s).1
refuse-Effect s =
    continue-Effect s (ignore (reject s.resp s)) _
      (ignore-Effect s (reject s.resp s) (reject-Effect s.resp s)) (λ _ t. Effect-refl t)

checked-Effect :
    (p : Platform) (s : Run) (r : Result ℕ × Run)
    → Effect s r.1
    → Effect s (if not (check_options p s.resp == 0) then refuse s else r).1
checked-Effect p s r h = elim (Bool-cases (not (check_options p s.resp == 0))) [
  | inl e ↦ rw e (refuse-Effect s)
  | inr e ↦ rw e h
]

handle_piggybacked_response-Effect :
    (p : Platform) (s : Run) → Effect s (handle_piggybacked_response p s).1
unfolding handle_piggybacked_response
handle_piggybacked_response-Effect p s = checked-Effect p s (ok 0, s) (Effect-refl s)

handle_sep_response-Effect : (p : Platform) (s : Run) → Effect s (handle_sep_response p s).1
unfolding handle_sep_response
handle_sep_response-Effect p s = elim (Bool-cases (s.resp.type == con)) [
  | inl e ↦ rw e (checked-Effect p s (send_ack s.resp s) (send_empty-ack-Effect s.resp.msg_id s))
  | inr e ↦ rw e (elim (Bool-cases (s.resp.type == non)) [
    | inl n ↦ rw n (checked-Effect p s (ok 0, s) (Effect-refl s))
    | inr n ↦ rw n (refuse-Effect s)
  ])
]

-- The branches, where what they go on with has an effect of this kind.
act-Effect :
    (p : Platform) (on_ack rest : C ℕ) (v : Verdict) (s : Run)
    → ((t : Run) → Effect t (on_ack t).1)
    → ((t : Run) → Effect t (rest t).1)
    → Effect s (act p on_ack rest v s).1
unfolding act
act-Effect p on_ack rest acknowledged s h k = h s
act-Effect p on_ack rest repeated s h k = k s
act-Effect p on_ack rest piggybacked s h k = handle_piggybacked_response-Effect p s
act-Effect p on_ack rest separate s h k = handle_sep_response-Effect p s
act-Effect p on_ack rest was_reset s h k = Effect-refl s
act-Effect p on_ack rest refused s h k = refuse-Effect s
act-Effect p on_ack rest unrelated s h k =
    continue-Effect s (reject s.resp s) (λ _. rest) (reject-Effect s.resp s) (λ _ t. k t)

round-Effect :
    (p : Platform) (listen : C ℕ) (verdict : Msg → Msg → Verdict) (on_ack rest : C ℕ) (s : Run)
    → ((t : Run) → Effect t (listen t).1)
    → ((t : Run) → Effect t (on_ack t).1)
    → ((t : Run) → Effect t (rest t).1)
    → Effect s (round p listen verdict on_ack rest s).1
unfolding round
round-Effect p listen verdict on_ack rest s l h k = continue-Effect s (listen s) _ (l s) λ _ t.
    continue-Effect t (recv p t) _ (recv-Effect p t)
      λ _ u. act-Effect p on_ack rest (verdict u.req u.resp) u h k

sep_loop-Effect : (n : ℕ) (p : Platform) (s : Run) → Effect s (sep_loop n p s).1
unfolding sep_loop
sep_loop-Effect zero p s = Effect-refl s
sep_loop-Effect (suc n) p s =
    round-Effect p listen_resp sep_verdict (sep_loop n p) (sep_loop n p) s
      (λ t. listen_resp_from-Effect t.waits t (le_refl _)) (sep_loop-Effect n p)
      (sep_loop-Effect n p)

non_loop-Effect : (n : ℕ) (p : Platform) (s : Run) → Effect s (non_loop n p s).1
unfolding non_loop
non_loop-Effect zero p s = Effect-refl s
non_loop-Effect (suc n) p s =
    round-Effect p listen_resp non_verdict (non_loop n p) (non_loop n p) s
      (λ t. listen_resp_from-Effect t.waits t (le_refl _)) (non_loop-Effect n p)
      (non_loop-Effect n p)

arm-Effect : (s : Run) (o : Option ℕ) (t : Run) → Effect s t → Effect s (arm o t).1
arm-Effect s none t h = Effect-trans s t _ h (quiet t _ refl refl refl refl refl refl)
arm-Effect s (some e) t h = h

start_resp_timer-Effect : (s : Run) → Effect s (start_resp_timer s).1
unfolding start_resp_timer start_timer init_resp_timeout
start_resp_timer-Effect s =
    arm-Effect s (next_timer s.timers) _ (quiet s _ refl refl refl refl refl refl)

pub exchange_sep-Effect : (p : Platform) (s : Run) → Effect s (exchange_sep p s).1
unfolding exchange_sep
exchange_sep-Effect p s =
    continue-Effect s (ignore (start_resp_timer s)) _
      (ignore-Effect s (start_resp_timer s) (start_resp_timer-Effect s))
      (λ _ t. sep_loop-Effect (length t.waits + 1) p t)

pub exchange_non-Effect : (p : Platform) (s : Run) → Effect s (exchange_non p s).1
unfolding exchange_non
exchange_non-Effect p s =
    continue-Effect s (ignore (start_resp_timer s)) _
      (ignore-Effect s (start_resp_timer s) (start_resp_timer-Effect s))
      (λ _ t. non_loop-Effect (length t.waits + 1) p t)

pub con_loop-Effect : (n : ℕ) (p : Platform) (s : Run) → Effect s (con_loop n p s).1
unfolding con_loop
con_loop-Effect zero p s = Effect-refl s
con_loop-Effect (suc n) p s =
    round-Effect p listen_ack con_verdict (exchange_sep p) (con_loop n p) s
      (λ t. listen_ack_from-Effect t.waits t (le_refl _)) (exchange_sep-Effect p)
      (con_loop-Effect n p)
