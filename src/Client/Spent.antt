-- ===== src/Client/Spent.antt =====
-- What a round of an exchange uses up of the events (lib/src/coap_client.c).
use free_co_ap.Common.{
  ℕ, suc, ◌+◌, ◌≤◌, true, false, List, [], ◌∷◌, ◌≡◌, refl, Option, none, some, Result, ok, err,
  stuck, Bytes, length, take, leb, arith, Bool-cases, ap, inl, inr, ◌∙◌,
}
use free_co_ap.Common.Actions.{continue}
use free_co_ap.Msg.{Msg}
use free_co_ap.Client.{
  Platform, Outcome, Wait, broken, ready, Run, C, status, next_timer, arm, max_buf_len,
  max_retransmit, start_timer, double_timeout, update_ack_timer, count_retrans,
}
use free_co_ap.Client.Transfer.{send, receive, recv, reject, sent_status, handle_ack_timeout}
use free_co_ap.Client.Exchange.{
  Verdict, acknowledged, repeated, piggybacked, separate, was_reset, refused, unrelated, act, round,
  listen_ack_from, listen_ack, listen_resp_from, listen_resp, with_waits,
}
use free_co_ap.Client.Still.{
  Still, Still-refl, send-Still, reject-Still, accept-Still, refuse-Still,
  handle_piggybacked_response-Still, handle_sep_response-Still,
}

-- The results of select that report something.
abbrev pub events : List Wait → ℕ
events [] = 0
events (broken e ∷ ws) = suc (events ws)
events (ready true timer ∷ ws) = suc (events ws)
events (ready false true ∷ ws) = suc (events ws)
events (ready false false ∷ ws) = events ws

-- From `s` to `t` an event was used up for each datagram and for each retransmission, and `more`.
pub record Spent (more : ℕ) (s t : Run) : Type 0 where
  pub spent :
      events s.waits + (length t.arrivals + s.client.num_retrans)
      ≤ events t.waits + (length s.arrivals + (t.client.num_retrans + more))

pub Still-Spent : (more : ℕ) (s t : Run) → Still s t → Spent more s t
Still-Spent more s t h = record {
  spent = rw (h.waits_is, h.arrivals_is, h.num_is) (let z = s in omega arith);
}

Spent-trans : (m n : ℕ) (s t u : Run) → Spent m s t → Spent n t u → Spent (m + n) s u
Spent-trans m n s t u h k = record { spent = let a = h.spent in let b = k.spent in omega arith }

-- Behind something that leaves all alone.
pub Still-then : (n : ℕ) (s t u : Run) → Still s t → Spent n t u → Spent n s u
Still-then n s t u h k = record { spent = rw (← h.waits_is, ← h.arrivals_is, ← h.num_is) k.spent }

-- How handling an expired timer ends: with one retransmission more on the counter, or with an error.
abbrev Retried : Run → Result ℕ × Run → Type 0
Retried s (ok n, t) =
    (t.waits ≡ s.waits)
    × (t.arrivals ≡ s.arrivals)
    × (t.client.num_retrans ≡ s.client.num_retrans + 1)
Retried s (err e, t) =
    (t.waits ≡ s.waits) × (t.arrivals ≡ s.arrivals) × (s.client.num_retrans ≤ t.client.num_retrans)
Retried s (stuck, t) =
    (t.waits ≡ s.waits) × (t.arrivals ≡ s.arrivals) × (s.client.num_retrans ≤ t.client.num_retrans)

sent_status-Retried :
    (s t : Run) (r : Result ℕ × Run)
    → t.waits ≡ s.waits
    → t.arrivals ≡ s.arrivals
    → t.client.num_retrans ≡ s.client.num_retrans + 1
    → Still t r.1
    → Retried s (sent_status r)
sent_status-Retried s t (ok n, u) w a c h = (h.waits_is ∙ w, h.arrivals_is ∙ a, h.num_is ∙ c)
sent_status-Retried s t (err e, u) w a c h =
    (h.waits_is ∙ w, h.arrivals_is ∙ a, let z = h.num_is in omega arith)
sent_status-Retried s t (stuck, u) w a c h =
    (h.waits_is ∙ w, h.arrivals_is ∙ a, let z = h.num_is in omega arith)

armed-Retried :
    (s t : Run) (o : Option ℕ)
    → t.waits ≡ s.waits
    → t.arrivals ≡ s.arrivals
    → t.client.num_retrans ≡ s.client.num_retrans
    → Retried s
        (continue (continue (arm o t) (λ _. count_retrans)) (λ _ u. sent_status (send u.req u)))
armed-Retried s t none w a c =
    sent_status-Retried s _ _ w a
      (let z : t.client.num_retrans + 1 ≡ s.client.num_retrans + 1 = omega arith in z)
      (send-Still t.req _)
armed-Retried s t (some e) w a c = (w, a, let z = c in omega arith)

handle_ack_timeout-Retried : (s : Run) → Retried s (handle_ack_timeout s)
unfolding handle_ack_timeout update_ack_timer start_timer double_timeout
handle_ack_timeout-Retried s = elim (Bool-cases (leb max_retransmit s.client.num_retrans)) [
  | inl e ↦ rw e (refl, refl, omega arith)
  | inr e ↦ rw e (armed-Retried s _ (next_timer s.timers) refl refl refl)
]

handled-Spent :
    (ws : List Wait) (s : Run) (r : Result ℕ × Run)
    → Retried (with_waits ws s) r
    → ((t : Run) → Spent 1 (with_waits ws t) (listen_ack_from ws t).1)
    → Spent 1 (with_waits (ready false true ∷ ws) s) (continue r (λ _. listen_ack_from ws)).1
handled-Spent ws s (ok n, t) h k = (record {
  spent = let b = (k t).spent in let a = h.1 in let c = h.2 in rw (← a) (omega arith);
})
handled-Spent ws s (err e, t) h k = (record { spent = rw (h.0, h.1) (let c = h.2 in omega arith) })
handled-Spent ws s (stuck, t) h k = (record { spent = rw (h.0, h.1) (let c = h.2 in omega arith) })

listen_ack_from-Spent :
    (ws : List Wait) (s : Run) → Spent 1 (with_waits ws s) (listen_ack_from ws s).1
unfolding listen_ack_from
listen_ack_from-Spent [] s = Still-Spent 1 _ _ (Still-refl (with_waits [] s))
listen_ack_from-Spent (broken e ∷ ws) s = record { spent = omega arith }
listen_ack_from-Spent (ready true timer ∷ ws) s = record { spent = omega arith }
listen_ack_from-Spent (ready false true ∷ ws) s =
    handled-Spent ws s (handle_ack_timeout (with_waits ws s))
      (handle_ack_timeout-Retried (with_waits ws s)) (listen_ack_from-Spent ws)
listen_ack_from-Spent (ready false false ∷ ws) s =
    let ih = (listen_ack_from-Spent ws (with_waits ws s)).spent in record { spent = ih }

listen_resp_from-Spent :
    (ws : List Wait) (s : Run) → Spent 1 (with_waits ws s) (listen_resp_from ws s).1
unfolding listen_resp_from
listen_resp_from-Spent [] s = Still-Spent 1 _ _ (Still-refl (with_waits [] s))
listen_resp_from-Spent (broken e ∷ ws) s = record { spent = omega arith }
listen_resp_from-Spent (ready true timer ∷ ws) s = record { spent = omega arith }
listen_resp_from-Spent (ready false true ∷ ws) s = record { spent = omega arith }
listen_resp_from-Spent (ready false false ∷ ws) s =
    let ih = (listen_resp_from-Spent ws (with_waits ws s)).spent in record { spent = ih }

-- A receive: where it succeeds a datagram is gone.
abbrev Received : Run → Result ℕ × Run → Type 0
Received s (ok n, t) =
    (t.waits ≡ s.waits)
    × (length s.arrivals ≡ suc (length t.arrivals))
    × (t.client.num_retrans ≡ s.client.num_retrans)
Received s (err e, t) = Spent 0 s t
Received s (stuck, t) = Spent 0 s t

accepted-Received :
    (s t : Run) (r : Result ℕ × Run)
    → t.waits ≡ s.waits
    → length s.arrivals ≡ suc (length t.arrivals)
    → t.client.num_retrans ≡ s.client.num_retrans
    → Still t r.1
    → Received s r
accepted-Received s t (ok n, u) w a c h = (h.waits_is ∙ w, rw h.arrivals_is a, h.num_is ∙ c)
accepted-Received s t (err e, u) w a c h = record {
  spent = rw (h.waits_is, h.arrivals_is, h.num_is, w, c) (omega arith);
}
accepted-Received s t (stuck, u) w a c h = record {
  spent = rw (h.waits_is, h.arrivals_is, h.num_is, w, c) (omega arith);
}

receive-Received :
    (p : Platform) (l : List (Outcome × Bytes)) (s : Run)
    → s.arrivals ≡ l
    → Received s (receive p l s)
receive-Received p [] s e = Still-Spent 0 s s (Still-refl s)
receive-Received p ((o, datagram) ∷ rest) s e =
    accepted-Received s (record s { arrivals = rest }) _ refl (rw e refl) refl
      (accept-Still p (status o) (take max_buf_len datagram) _)

recv-Received : (p : Platform) (s : Run) → Received s (recv p s)
unfolding recv
recv-Received p s = receive-Received p s.arrivals s refl

-- Whatever the rest of a loop spends, there is one event at most that is not accounted for.
abbrev pub Frugal : C ℕ → Type 0
Frugal f = (t : Run) → Spent 1 t (f t).1

act-Spent :
    (p : Platform) (on_ack rest : C ℕ) (v : Verdict)
    → Frugal on_ack
    → Frugal rest
    → Frugal (act p on_ack rest v)
unfolding act
act-Spent p on_ack rest acknowledged h k s = h s
act-Spent p on_ack rest repeated h k s = k s
act-Spent p on_ack rest piggybacked h k s =
    Still-Spent 1 s _ (handle_piggybacked_response-Still p s)
act-Spent p on_ack rest separate h k s = Still-Spent 1 s _ (handle_sep_response-Still p s)
act-Spent p on_ack rest was_reset h k s = Still-Spent 1 s s (Still-refl s)
act-Spent p on_ack rest refused h k s = Still-Spent 1 s _ (refuse-Still s)
act-Spent p on_ack rest unrelated h k s = still_continue s (reject s.resp s) (reject-Still s.resp s)
  where
    still_continue :
        (s : Run) (r : Result ℕ × Run) → Still s r.1 → Spent 1 s (continue r (λ _. rest)).1
    still_continue s (ok n, t) q = Still-then 1 s t (rest t).1 q (k t)
    still_continue s (err e, t) q = Still-Spent 1 s t q
    still_continue s (stuck, t) q = Still-Spent 1 s t q

received-Spent :
    (s u : Run) (r : Result ℕ × Run) (f : C ℕ)
    → Spent 1 s u
    → Received u r
    → Frugal f
    → Spent 1 s (continue r (λ _. f)).1
received-Spent s u (ok n, t) f h q k =
    let a = h.spent in
    let b = (k t).spent in
    let w = ap events q.0 in let l = q.1 in let c = q.2 in record { spent = omega arith }
received-Spent s u (err e, t) f h q k = Spent-trans 1 0 s u t h q
received-Spent s u (stuck, t) f h q k = Spent-trans 1 0 s u t h q

waited-Spent :
    (p : Platform) (s : Run) (r : Result ℕ × Run) (f : C ℕ)
    → Spent 1 s r.1
    → Frugal f
    → Spent 1 s (continue r (λ _ t. continue (recv p t) (λ _. f))).1
waited-Spent p s (ok n, t) f h k = received-Spent s t (recv p t) f h (recv-Received p t) k
waited-Spent p s (err e, t) f h k = h
waited-Spent p s (stuck, t) f h k = h

pub round-Spent :
    (p : Platform) (listen : C ℕ) (verdict : Msg → Msg → Verdict) (on_ack rest : C ℕ)
    → Frugal listen
    → Frugal on_ack
    → Frugal rest
    → Frugal (round p listen verdict on_ack rest)
unfolding round
round-Spent p listen verdict on_ack rest l h k s =
    waited-Spent p s (listen s) (λ u. act p on_ack rest (verdict u.req u.resp) u) (l s)
      λ u. act-Spent p on_ack rest (verdict u.req u.resp) h k u

pub listen_ack-Spent : Frugal listen_ack
listen_ack-Spent s = listen_ack_from-Spent s.waits s

pub listen_resp-Spent : Frugal listen_resp
listen_resp-Spent s = listen_resp_from-Spent s.waits s
