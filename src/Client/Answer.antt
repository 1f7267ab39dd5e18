-- ===== src/Client/Answer.antt =====
-- What it takes for coap_client_exchange to succeed (lib/src/coap_client.c).
use free_co_ap.Common.{
  ℕ, zero, suc, true, false, not, List, [], ◌∷◌, ◌++◌, ◌≡◌, ◌≢◌, refl, inl, inr, Option, none, some,
  Errno, Result, ok, err, stuck, Bytes, take, ltb, ◌==◌, arith, Bool-cases, if◌then◌else◌,
}
use free_co_ap.Common.Actions.{continue, ignore}
use free_co_ap.Msg.{Msg, con, non, ack, max_msg_id}
use free_co_ap.Client.{Platform, Run, C, status, later}
use free_co_ap.Client.Transfer.{recv, reject, send_ack, deliver, next_send}
use free_co_ap.Client.Exchange.{
  Verdict, acknowledged, repeated, piggybacked, separate, was_reset, refused, unrelated, is_empty,
  same_front, match_token, check_options, refuse, handle_piggybacked_response, handle_sep_response,
  act, round,
}
use free_co_ap.Client.Effect.{empty_bytes, send_empty-ack}

-- The tokens are the same bytes.
pub record SameToken (req resp : Msg) : Type 0 where
  pub len_is : resp.token_len ≡ req.token_len
  pub bytes_are : take req.token_len resp.token ≡ take req.token_len req.token

-- How a response may come: in the acknowledgement of the request, in a non-confirmable message, or
-- in a confirmable one, whose acknowledgement is then the last datagram sent.
pub data Arrived (t : Run) : Type 0 where
  in_ack : t.resp.type ≡ ack → t.resp.msg_id ≡ t.req.msg_id → is_empty t.resp ≡ false → Arrived t
  in_non : t.resp.type ≡ non → t.resp.msg_id ≢ t.req.msg_id → Arrived t
  in_con :
      (before : List Bytes)
      → t.resp.type ≡ con
      → t.resp.msg_id ≢ t.req.msg_id
      → t.sent ≡ before ++ (empty_bytes ack t.resp.msg_id ∷ [])
      → Arrived t

pub record Answered (p : Platform) (t : Run) : Type 0 where
  pub token_is : SameToken t.req t.resp
  pub options_pass : check_options p t.resp ≡ 0
  pub arrived : Arrived t

-- A call that succeeds leaves an answer behind.
abbrev pub Answers : Platform → Result ℕ × Run → Type 0
Answers p (ok n, t) = Answered p t
Answers p (err e, t) = Unit
Answers p (stuck, t) = Unit

pub continue-Answers :
    (p : Platform) (r : Result ℕ × Run) (f : ℕ → C ℕ)
    → ((n : ℕ) (t : Run) → Answers p (f n t))
    → Answers p (continue r f)
continue-Answers p (ok n, t) f h = h n t
continue-Answers p (err e, t) f h = tt
continue-Answers p (stuck, t) f h = tt

refused-Answers :
    (p : Platform) (r : Result ℕ × Run) (e : Errno)
    → Answers p (continue (ignore r) (λ _ t. (err e, t)))
refused-Answers p (ok n, t) e = tt
refused-Answers p (err c, t) e = tt
refused-Answers p (stuck, t) e = tt

checked-Answers :
    (p : Platform) (s : Run) (r : Result ℕ × Run)
    → (check_options p s.resp ≡ 0 → Answers p r)
    → Answers p (if not (check_options p s.resp == 0) then refuse s else r)
checked-Answers p s r h = elim (Bool-cases (not (check_options p s.resp == 0))) [
  | inl e ↦ rw e (refused-Answers p (reject s.resp s) _)
  | inr e ↦ rw e (h (ground arith))
]

same_front-take : (n : ℕ) (xs ys : Bytes) → same_front n xs ys ≡ true → take n xs ≡ take n ys
unfolding same_front
same_front-take zero xs ys h = refl
same_front-take (suc n) [] [] h = refl
same_front-take (suc n) [] (y ∷ ys) h = cc
same_front-take (suc n) (x ∷ xs) [] h = cc
same_front-take (suc n) (x ∷ xs) (y ∷ ys) h =
    let front : x ≡ y = ground arith in
    let rest : same_front n xs ys ≡ true = ground arith in rw (front, same_front-take n xs ys rest)

SameToken-of : (req resp : Msg) → match_token req resp ≡ true → SameToken req resp
unfolding match_token
SameToken-of req resp h = record {
  len_is = ground arith;
  bytes_are = same_front-take req.token_len resp.token req.token (ground arith);
}

delivered_ack-Answers :
    (p : Platform) (s : Run) (o : Option Errno)
    → SameToken s.req s.resp
    → check_options p s.resp ≡ 0
    → s.resp.type ≡ con
    → s.resp.msg_id ≢ s.req.msg_id
    → Answers p (
        continue
          (deliver o (empty_bytes ack s.resp.msg_id) (record s { sends = later s.sends }))
          (λ _ t. (ok 0, t)))
delivered_ack-Answers p s none m c t d = record {
  token_is = m;
  options_pass = c;
  arrived = in_con s.sent t d refl;
}
delivered_ack-Answers p s (some e) m c t d = tt

send_ack-Answers :
    (p : Platform) (s : Run)
    → SameToken s.req s.resp
    → check_options p s.resp ≡ 0
    → s.resp.type ≡ con
    → s.resp.msg_id ≢ s.req.msg_id
    → Answers p (send_ack s.resp s)
send_ack-Answers p s m c t d =
    rw (send_empty-ack s.resp.msg_id s) (elim (Bool-cases (ltb max_msg_id s.resp.msg_id)) [
      | inl e ↦ rw e tt
      | inr e ↦ rw e (delivered_ack-Answers p s (status (next_send s.sends)) m c t d)
    ])

piggybacked-Answers :
    (p : Platform) (s : Run)
    → SameToken s.req s.resp
    → Arrived s
    → Answers p (handle_piggybacked_response p s)
unfolding handle_piggybacked_response
piggybacked-Answers p s m a =
    checked-Answers p s (ok 0, s) λ c. record { token_is = m; options_pass = c; arrived = a }

separate-Answers :
    (p : Platform) (s : Run)
    → SameToken s.req s.resp
    → s.resp.msg_id ≢ s.req.msg_id
    → Answers p (handle_sep_response p s)
unfolding handle_sep_response
separate-Answers p s m d = elim (Bool-cases (s.resp.type == con)) [
  | inl e ↦
      rw e (checked-Answers p s (send_ack s.resp s) λ c. send_ack-Answers p s m c (ground arith) d)
  | inr e ↦ rw e (elim (Bool-cases (s.resp.type == non)) [
    | inl n ↦ rw n (
        checked-Answers p s (ok 0, s)
          λ c. record { token_is = m; options_pass = c; arrived = in_non (ground arith) d })
    | inr n ↦ rw n (refused-Answers p (reject s.resp s) _)
  ])
]

-- What a verdict on a message says of it.
abbrev pub Tells : Msg → Msg → Verdict → Type 0
Tells req resp piggybacked =
    (match_token req resp ≡ true)
    × (resp.type ≡ ack)
    × (resp.msg_id ≡ req.msg_id)
    × (is_empty resp ≡ false)
Tells req resp separate = (match_token req resp ≡ true) × (resp.msg_id ≢ req.msg_id)
Tells req resp acknowledged = Unit
Tells req resp repeated = Unit
Tells req resp was_reset = Unit
Tells req resp refused = Unit
Tells req resp unrelated = Unit

act-Answers :
    (p : Platform) (on_ack rest : C ℕ) (v : Verdict) (s : Run)
    → Tells s.req s.resp v
    → ((t : Run) → Answers p (on_ack t))
    → ((t : Run) → Answers p (rest t))
    → Answers p (act p on_ack rest v s)
unfolding act
act-Answers p on_ack rest acknowledged s v h k = h s
act-Answers p on_ack rest repeated s v h k = k s
act-Answers p on_ack rest piggybacked s v h k =
    piggybacked-Answers p s (SameToken-of s.req s.resp v.0) (in_ack v.1 v.2 v.3)
act-Answers p on_ack rest separate s v h k =
    separate-Answers p s (SameToken-of s.req s.resp v.0) v.1
act-Answers p on_ack rest was_reset s v h k = tt
act-Answers p on_ack rest refused s v h k = refused-Answers p (reject s.resp s) _
act-Answers p on_ack rest unrelated s v h k =
    continue-Answers p (reject s.resp s) (λ _. rest) (λ _ t. k t)

pub round-Answers :
    (p : Platform) (listen : C ℕ) (verdict : Msg → Msg → Verdict) (on_ack rest : C ℕ) (s : Run)
    → ((req resp : Msg) → Tells req resp (verdict req resp))
    → ((t : Run) → Answers p (on_ack t))
    → ((t : Run) → Answers p (rest t))
    → Answers p (round p listen verdict on_ack rest s)
unfolding round
round-Answers p listen verdict on_ack rest s v h k = continue-Answers p (listen s) _ λ _ t.
    continue-Answers p (recv p t) _
      λ _ u. act-Answers p on_ack rest (verdict u.req u.resp) u (v u.req u.resp) h k
