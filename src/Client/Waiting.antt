-- ===== src/Client/Waiting.antt =====
-- The fuel of the loops of lib/src/coap_client.c is enough: each round takes a result of select.
use free_co_ap.Common.{
  ℕ, suc, ◌≤◌, ◌<◌, true, false, not, List, [], ◌∷◌, ◌≡◌, refl, inl, inr, Result, ok, err, stuck,
  length, ◌==◌, arith, Bool-cases, if◌then◌else◌,
}
use free_co_ap.Common.Actions.{continue, ignore}
use free_co_ap.Msg.{Msg, con, non}
use free_co_ap.Client.{Platform, Wait, broken, ready, Run, C}
use free_co_ap.Client.Transfer.{recv, reject, send_ack, handle_ack_timeout}
use free_co_ap.Client.Exchange.{
  Verdict, acknowledged, repeated, piggybacked, separate, was_reset, refused, unrelated, refuse,
  check_options, handle_piggybacked_response, handle_sep_response, act, round, listen_ack_from,
  listen_resp_from, with_waits,
}
use free_co_ap.Client.Effect.{Effect}
use free_co_ap.Client.Effects.{reject-Effect, recv-Effect}
use free_co_ap.Client.Blocked.{
  Blocked, Returns, continue-Returns, send_ack-Returns, reject-Returns, handle_ack_timeout-Returns,
  recv-Blocked,
}

-- After a wait that succeeds, fewer than `n` results of select are left; one that does not return
-- has used them up.
abbrev pub Listened : ℕ → Result ℕ × Run → Type 0
Listened n (ok k, t) = length t.waits < n
Listened n (err e, t) = Unit
Listened n (stuck, t) = t.waits ≡ []

pub Listened-mono : (m n : ℕ) (r : Result ℕ × Run) → m ≤ n → Listened m r → Listened n r
Listened-mono m n (ok k, t) le h = omega arith
Listened-mono m n (err e, t) le h = tt
Listened-mono m n (stuck, t) le h = h

handled-Listened :
    (n : ℕ) (ws : List Wait) (r : Result ℕ × Run)
    → Returns r
    → ((t : Run) → Listened n (listen_ack_from ws t))
    → Listened n (continue r (λ _. listen_ack_from ws))
handled-Listened n ws (ok k, t) h f = f t
handled-Listened n ws (err e, t) h f = tt
handled-Listened n ws (stuck, t) h f = absurd h

pub listen_ack_from-Listened :
    (ws : List Wait) (s : Run) → Listened (length ws) (listen_ack_from ws s)
unfolding listen_ack_from
listen_ack_from-Listened [] s = refl
listen_ack_from-Listened (broken e ∷ ws) s = tt
listen_ack_from-Listened (ready true timer ∷ ws) s = omega arith
listen_ack_from-Listened (ready false true ∷ ws) s =
    handled-Listened (suc (length ws)) ws (handle_ack_timeout (with_waits ws s))
      (handle_ack_timeout-Returns (with_waits ws s))
      λ t.
        Listened-mono (length ws) (suc (length ws)) (listen_ack_from ws t) (omega arith)
          (listen_ack_from-Listened ws t)
listen_ack_from-Listened (ready false false ∷ ws) s =
    Listened-mono (length ws) (suc (length ws)) (listen_ack_from ws (with_waits ws s)) (omega arith)
      (listen_ack_from-Listened ws (with_waits ws s))

pub listen_resp_from-Listened :
    (ws : List Wait) (s : Run) → Listened (length ws) (listen_resp_from ws s)
unfolding listen_resp_from
listen_resp_from-Listened [] s = refl
listen_resp_from-Listened (broken e ∷ ws) s = tt
listen_resp_from-Listened (ready true timer ∷ ws) s = omega arith
listen_resp_from-Listened (ready false true ∷ ws) s = tt
listen_resp_from-Listened (ready false false ∷ ws) s =
    Listened-mono (length ws) (suc (length ws)) (listen_resp_from ws (with_waits ws s))
      (omega arith) (listen_resp_from-Listened ws (with_waits ws s))

-- A call that returns blocks nowhere.
Returns-Blocked : (r : Result ℕ × Run) → Returns r → Blocked r
Returns-Blocked (ok n, t) h = tt
Returns-Blocked (err e, t) h = tt
Returns-Blocked (stuck, t) h = absurd h

ignore-Returns : (r : Result ℕ × Run) → Returns r → Returns (ignore r)
ignore-Returns (ok n, t) h = tt
ignore-Returns (err e, t) h = tt
ignore-Returns (stuck, t) h = h

refuse-Returns : (s : Run) → Returns (refuse s)
refuse-Returns s =
    continue-Returns (ignore (reject s.resp s)) _
      (ignore-Returns (reject s.resp s) (reject-Returns s.resp s)) (λ _ t. tt)

checked-Returns :
    (p : Platform) (s : Run) (r : Result ℕ × Run)
    → Returns r
    → Returns (if not (check_options p s.resp == 0) then refuse s else r)
checked-Returns p s r h = elim (Bool-cases (not (check_options p s.resp == 0))) [
  | inl e ↦ rw e (refuse-Returns s)
  | inr e ↦ rw e h
]

handle_piggybacked_response-Returns :
    (p : Platform) (s : Run) → Returns (handle_piggybacked_response p s)
unfolding handle_piggybacked_response
handle_piggybacked_response-Returns p s = checked-Returns p s (ok 0, s) tt

handle_sep_response-Returns : (p : Platform) (s : Run) → Returns (handle_sep_response p s)
unfolding handle_sep_response
handle_sep_response-Returns p s = elim (Bool-cases (s.resp.type == con)) [
  | inl e ↦ rw e (checked-Returns p s (send_ack s.resp s) (send_ack-Returns s.resp.msg_id s))
  | inr e ↦ rw e (elim (Bool-cases (s.resp.type == non)) [
    | inl n ↦ rw n (checked-Returns p s (ok 0, s) tt)
    | inr n ↦ rw n (refuse-Returns s)
  ])
]

-- The rest of a loop, on fuel for `n` results of select.
abbrev pub BlockedBelow : ℕ → C ℕ → Type 0
BlockedBelow n f = (t : Run) → length t.waits < n → Blocked (f t)

rejected-Blocked :
    (n : ℕ) (rest : C ℕ) (s : Run) (r : Result ℕ × Run)
    → BlockedBelow n rest
    → length s.waits < n
    → Effect s r.1
    → Returns r
    → Blocked (continue r (λ _. rest))
rejected-Blocked n rest s (ok k, t) h lt e c = h t (let w = e.waits_le in omega arith)
rejected-Blocked n rest s (err k, t) h lt e c = tt
rejected-Blocked n rest s (stuck, t) h lt e c = absurd c

act-Blocked :
    (n : ℕ) (p : Platform) (on_ack rest : C ℕ) (v : Verdict) (s : Run)
    → length s.waits < n
    → BlockedBelow n on_ack
    → BlockedBelow n rest
    → Blocked (act p on_ack rest v s)
unfolding act
act-Blocked n p on_ack rest acknowledged s lt h k = h s lt
act-Blocked n p on_ack rest repeated s lt h k = k s lt
act-Blocked n p on_ack rest piggybacked s lt h k =
    Returns-Blocked (handle_piggybacked_response p s) (handle_piggybacked_response-Returns p s)
act-Blocked n p on_ack rest separate s lt h k =
    Returns-Blocked (handle_sep_response p s) (handle_sep_response-Returns p s)
act-Blocked n p on_ack rest was_reset s lt h k = tt
act-Blocked n p on_ack rest refused s lt h k = Returns-Blocked (refuse s) (refuse-Returns s)
act-Blocked n p on_ack rest unrelated s lt h k =
    rejected-Blocked n rest s (reject s.resp s) k lt (reject-Effect s.resp s)
      (reject-Returns s.resp s)

received-Blocked :
    (n : ℕ) (s : Run) (r : Result ℕ × Run) (f : C ℕ)
    → length s.waits < n
    → Effect s r.1
    → Blocked r
    → BlockedBelow n f
    → Blocked (continue r (λ _. f))
received-Blocked n s (ok k, t) f lt e b h = h t (let w = e.waits_le in omega arith)
received-Blocked n s (err k, t) f lt e b h = tt
received-Blocked n s (stuck, t) f lt e b h = b

after_wait-Blocked :
    (n : ℕ) (r : Result ℕ × Run) (f : C ℕ)
    → Listened n r
    → BlockedBelow n f
    → Blocked (continue r (λ _. f))
after_wait-Blocked n (ok k, t) f l h = h t l
after_wait-Blocked n (err k, t) f l h = tt
after_wait-Blocked n (stuck, t) f l h = inl l

pub round-Blocked :
    (n : ℕ) (p : Platform) (listen : C ℕ) (verdict : Msg → Msg → Verdict) (on_ack rest : C ℕ)
    (s : Run)
    → Listened n (listen s)
    → BlockedBelow n on_ack
    → BlockedBelow n rest
    → Blocked (round p listen verdict on_ack rest s)
unfolding round
round-Blocked n p listen verdict on_ack rest s l h k = after_wait-Blocked n (listen s) _ l λ t lt.
    received-Blocked n t (recv p t) _ lt (recv-Effect p t) (recv-Blocked p t)
      λ u lt2. act-Blocked n p on_ack rest (verdict u.req u.resp) u lt2 h k
