-- ===== src/Client/Rejects.antt =====
-- What the client answers to messages that it does not accept (lib/src/coap_client.c).
use free_co_ap.Common.{
  ℕ, zero, suc, All, ◌+◌, ◌*◌, ◌/◌, ◌%◌, ◌≤◌, ◌<◌, true, false, List, [], ◌∷◌, ◌++◌, ◌≡◌, refl, inl,
  inr, sym, append-nil, ap, ◌∙◌, length, Option, none, some, Errno, Result, ok, err, stuck, ebadmsg,
  Bytes, take, ltb, ◌==◌, arith, Bool-cases, if◌then◌else◌,
}
use free_co_ap.Msg.{Msg, State, con, rst, max_msg_id}
use free_co_ap.Msg.Parse.{parse}
use free_co_ap.Msg.Wire.{parse_type_msg_id}
use free_co_ap.Client.{Platform, Outcome, Run, status, max_buf_len}
use free_co_ap.Client.Transfer.{
  send_empty, recv, reject, with_parsed, after_parse, accept, receive, handle_format_error,
  next_send,
}
use free_co_ap.Client.Effect.{empty_bytes, send_empty-rst}
use free_co_ap.Client.Effects.{reject-eq}

-- What coap_client_reject sends for a message.
abbrev pub rejection : Msg → List Bytes
rejection msg = if msg.type == con then empty_bytes rst msg.msg_id ∷ [] else []

-- Where the next send goes out and the message ID is one of 16 bits, coap_client_reject succeeds:
-- it sends an empty reset with the message ID of a confirmable message, and nothing for any other.
pub reject-sends :
    (msg : Msg) (s : Run)
    → msg.msg_id ≤ max_msg_id
    → status (next_send s.sends) ≡ none
    → ((reject msg s).0 ≡ ok 0) × ((reject msg s).1.sent ≡ s.sent ++ rejection msg)
reject-sends msg s le e = elim (Bool-cases (msg.type == con)) [
  | inl c ↦
      let small : ltb max_msg_id msg.msg_id ≡ false = ground arith in
      rw (reject-eq msg s, c, send_empty-rst msg.msg_id s, small, e) (refl, refl)
  | inr c ↦ rw (reject-eq msg s, c) (refl, sym (append-nil s.sent))
]

reset_sent :
    (msg_id : ℕ) (s : Run)
    → msg_id ≤ max_msg_id
    → status (next_send s.sends) ≡ none
    → (send_empty rst msg_id s).1.sent ≡ s.sent ++ (empty_bytes rst msg_id ∷ [])
reset_sent msg_id s le e =
    let small : ltb max_msg_id msg_id ≡ false = ground arith in
    rw (send_empty-rst msg_id s, small, e)

parsed_badly :
    (buf : Bytes) (r : Result ℕ × State) (s : Run)
    → r.0 ≡ err ebadmsg
    → after_parse buf r s ≡ (err ebadmsg, handle_format_error buf (with_parsed r.1 s))
parsed_badly buf (ok n, t) s e = cc
parsed_badly buf (stuck, t) s e = cc
parsed_badly buf (err c, t) s e = let same : c ≡ ebadmsg = cc in rw same

-- The response and the allocator after a failed parse of the next datagram.
abbrev left_by : Platform → Bytes → List (Outcome × Bytes) → Run → Run
left_by p buf rest s =
    with_parsed (parse p.char_signed buf (record { msg = s.resp; heap = s.heap })).1
      (record s { arrivals = rest })

accepted_badly :
    (p : Platform) (o : Option Errno) (buf : Bytes) (rest : List (Outcome × Bytes)) (s : Run)
    → o ≡ none
    → (parse p.char_signed buf (record { msg = s.resp; heap = s.heap })).0 ≡ err ebadmsg
    → accept p o buf (record s { arrivals = rest })
      ≡ (err ebadmsg, handle_format_error buf (left_by p buf rest s))
accepted_badly p none buf rest s e bad =
    parsed_badly buf (parse p.char_signed buf (record { msg = s.resp; heap = s.heap }))
      (record s { arrivals = rest }) bad
accepted_badly p (some c) buf rest s e bad = cc

recv_badly :
    (p : Platform) (o : Outcome) (datagram : Bytes) (rest : List (Outcome × Bytes)) (s : Run)
    → s.arrivals ≡ (o, datagram) ∷ rest
    → status o ≡ none
    → (parse p.char_signed (take max_buf_len datagram) (record { msg = s.resp; heap = s.heap })).0
      ≡ err ebadmsg
    → recv p s ≡ (
      err ebadmsg,
      handle_format_error
          (take max_buf_len datagram)
          (left_by p (take max_buf_len datagram) rest s),
    )
unfolding recv
recv_badly p o datagram rest s e so bad =
    ap (λ l. receive p l s) e
    ∙ accepted_badly p (status o) (take max_buf_len datagram) rest s so bad

format_error_resets :
    (a b c d : ℕ) (more : Bytes) (w : Run)
    → a / 16 % 4 ≡ con
    → c < 256
    → d < 256
    → status (next_send w.sends) ≡ none
    → (handle_format_error (a ∷ b ∷ c ∷ d ∷ more) w).sent
      ≡ w.sent ++ (empty_bytes rst (c * 256 + d) ∷ [])
unfolding handle_format_error parse_type_msg_id
format_error_resets a b c d more w t lc ld sd =
    let long : ltb (length (a ∷ b ∷ c ∷ d ∷ more)) 4 ≡ false = ground arith in
    let type_is : (a / 16 % 4 == con) ≡ true = ground arith in
    rw (long, type_is) (reset_sent (c * 256 + d) w (omega arith) sd)

-- The answer to a datagram that is no message: a reset, where its first four bytes are the header of
-- a confirmable message, with the message ID that the third and the fourth byte make.
abbrev pub format_reply : Bytes → List Bytes
format_reply [] = []
format_reply (a ∷ []) = []
format_reply (a ∷ (b ∷ [])) = []
format_reply (a ∷ (b ∷ (c ∷ []))) = []
format_reply (a ∷ (b ∷ (c ∷ (d ∷ more)))) =
    if a / 16 % 4 == con then empty_bytes rst (c * 256 + d) ∷ [] else []

ignored :
    (a b c d : ℕ) (more : Bytes) (w : Run)
    → (a / 16 % 4 == con) ≡ false
    → (handle_format_error (a ∷ b ∷ c ∷ d ∷ more) w).sent ≡ w.sent
unfolding handle_format_error parse_type_msg_id
ignored a b c d more w t =
    let long : ltb (length (a ∷ b ∷ c ∷ d ∷ more)) 4 ≡ false = ground arith in rw (long, t) refl

handle_format_error-sends :
    (buf : Bytes) (w : Run)
    → All (λ x. x < 256) buf
    → status (next_send w.sends) ≡ none
    → (handle_format_error buf w).sent ≡ w.sent ++ format_reply buf
unfolding handle_format_error parse_type_msg_id
handle_format_error-sends [] w h e = sym (append-nil w.sent)
handle_format_error-sends (a ∷ []) w h e = sym (append-nil w.sent)
handle_format_error-sends (a ∷ (b ∷ [])) w h e = sym (append-nil w.sent)
handle_format_error-sends (a ∷ (b ∷ (c ∷ []))) w h e = sym (append-nil w.sent)
handle_format_error-sends (a ∷ (b ∷ (c ∷ (d ∷ more)))) w h e =
    elim (Bool-cases (a / 16 % 4 == con)) [
      | inl t ↦
          let type_is : a / 16 % 4 ≡ con = ground arith in
          rw t (format_error_resets a b c d more w type_is h.1.1.0 h.1.1.1.0 e)
      | inr t ↦ rw t (ignored a b c d more w t ∙ sym (append-nil w.sent))
    ]

All-take : (n : ℕ) (xs : Bytes) → All (λ x. x < 256) xs → All (λ x. x < 256) (take n xs)
All-take zero xs h = tt
All-take (suc n) [] h = tt
All-take (suc n) (x ∷ xs) h = (h.0, All-take n xs h.1)

-- Where the next datagram, of bytes, is received, coap_msg_parse fails on it with EBADMSG and the
-- next send goes out, coap_client_recv fails with EBADMSG and sends this and nothing else: an empty
-- reset with the message ID of the third and the fourth byte, where the datagram has four bytes at
-- least and the first says that the message is confirmable; nothing, for any other datagram.
pub recv-resets :
    (p : Platform) (s : Run) (o : Outcome) (datagram : Bytes)
    (later_arrivals : List (Outcome × Bytes))
    → s.arrivals ≡ (o, datagram) ∷ later_arrivals
    → status o ≡ none
    → (parse p.char_signed (take max_buf_len datagram) (record { msg = s.resp; heap = s.heap })).0
      ≡ err ebadmsg
    → All (λ x. x < 256) datagram
    → status (next_send s.sends) ≡ none
    → ((recv p s).0 ≡ err ebadmsg)
      × ((recv p s).1.sent ≡ s.sent ++ format_reply (take max_buf_len datagram))
recv-resets p s o datagram rest e so bad bytes sd =
    let buf = take max_buf_len datagram in
    rw (recv_badly p o datagram rest s e so bad) (
      refl,
      handle_format_error-sends buf (left_by p buf rest s) (All-take max_buf_len datagram bytes) sd,
    )
