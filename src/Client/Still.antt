-- ===== src/Client/Still.antt =====
-- What leaves the events and the counter of retransmissions alone (lib/src/coap_client.c).
use free_co_ap.Common.{
  ℕ, not, ◌≡◌, refl, Option, none, some, Errno, ebadmsg, einval, enospc, enomem, ebusy, econnreset,
  etimedout, os, Result, ok, err, stuck, Bytes, ltb, ◌==◌, Bool-cases, inl, inr, if◌then◌else◌, ◌∙◌,
}
use free_co_ap.Common.Actions.{continue, ignore}
use free_co_ap.Msg.{Msg, State, con, non, ack, rst, max_msg_id}
use free_co_ap.Msg.Format.{format}
use free_co_ap.Msg.Wire.{parse_type_msg_id}
use free_co_ap.Client.{Platform, Run, status, later, max_buf_len}
use free_co_ap.Client.Transfer.{
  send, deliver, transmit, next_send, reset_sender, handle_format_error, with_parsed, after_error,
  after_parse, accept, reject, send_ack,
}
use free_co_ap.Client.Exchange.{
  refuse, check_options, handle_piggybacked_response, handle_sep_response,
}
use free_co_ap.Client.Effect.{empty_sent, empty_bytes, send_empty-rst, send_empty-ack}
use free_co_ap.Client.Effects.{reject-eq}

-- The events and the counter are as before.
pub record Still (s t : Run) : Type 0 where
  pub waits_is : t.waits ≡ s.waits
  pub arrivals_is : t.arrivals ≡ s.arrivals
  pub num_is : t.client.num_retrans ≡ s.client.num_retrans

pub Still-refl : (s : Run) → Still s s
Still-refl s = record { waits_is = refl; arrivals_is = refl; num_is = refl }

pub Still-trans : (s t u : Run) → Still s t → Still t u → Still s u
Still-trans s t u h k = record {
  waits_is = k.waits_is ∙ h.waits_is;
  arrivals_is = k.arrivals_is ∙ h.arrivals_is;
  num_is = k.num_is ∙ h.num_is;
}

pub continue-Still :
    {A B : Type 0} (s : Run) (r : Result A × Run) (f : A → Run → Result B × Run)
    → Still s r.1
    → ((a : A) (t : Run) → Still t (f a t).1)
    → Still s (continue r f).1
continue-Still s (ok a, t) f h k = Still-trans s t (f a t).1 h (k a t)
continue-Still s (err e, t) f h k = h
continue-Still s (stuck, t) f h k = h

pub ignore-Still : {A : Type 0} (s : Run) (r : Result A × Run) → Still s r.1 → Still s (ignore r).1
ignore-Still s (ok a, t) h = h
ignore-Still s (err e, t) h = h
ignore-Still s (stuck, t) h = h

pub deliver-Still : (o : Option Errno) (buf : Bytes) (s : Run) → Still s (deliver o buf s).1
deliver-Still none buf s = record { waits_is = refl; arrivals_is = refl; num_is = refl }
deliver-Still (some e) buf s = Still-refl s

pub used_send-Still : (s : Run) → Still s (record s { sends = later s.sends })
used_send-Still s = record { waits_is = refl; arrivals_is = refl; num_is = refl }

pub transmit-Still : (r : Result Bytes) (s : Run) → Still s (transmit r s).1
transmit-Still (ok buf) s =
    Still-trans s _ _ (used_send-Still s) (deliver-Still (status (next_send s.sends)) buf _)
transmit-Still (err e) s = Still-refl s
transmit-Still stuck s = Still-refl s

pub send-Still : (msg : Msg) (s : Run) → Still s (send msg s).1
unfolding send
send-Still msg s = transmit-Still (format msg max_buf_len) s

pub empty_sent-Still : (type msg_id : ℕ) (s : Run) → Still s (empty_sent type msg_id s).1
empty_sent-Still type msg_id s = elim (Bool-cases (ltb max_msg_id msg_id)) [
  | inl e ↦ rw e (Still-refl s)
  | inr e ↦
      let sent =
        deliver (status (next_send s.sends)) (empty_bytes type msg_id)
          (record s { sends = later s.sends }) in
      rw e (
        continue-Still s sent _
          (Still-trans s _ sent.1 (used_send-Still s)
            (deliver-Still (status (next_send s.sends)) _ _))
          λ _ t. Still-refl t)
]

pub reject-Still : (msg : Msg) (s : Run) → Still s (reject msg s).1
reject-Still msg s = elim (Bool-cases (msg.type == con)) [
  | inl e ↦ rw (reject-eq msg s, e, send_empty-rst msg.msg_id s) (empty_sent-Still rst msg.msg_id s)
  | inr e ↦ rw (reject-eq msg s, e) (Still-refl s)
]

pub reset_sender-Still : (r : Result (ℕ × ℕ)) (s : Run) → Still s (reset_sender r s)
reset_sender-Still (ok (type, msg_id)) s = elim (Bool-cases (type == con)) [
  | inl e ↦ rw (e, send_empty-rst msg_id s) (empty_sent-Still rst msg_id s)
  | inr e ↦ rw e (Still-refl s)
]
reset_sender-Still (err e) s = Still-refl s
reset_sender-Still stuck s = Still-refl s

pub after_error-Still : (e : Errno) (buf : Bytes) (s : Run) → Still s (after_error e buf s)
unfolding handle_format_error
after_error-Still ebadmsg buf s = reset_sender-Still (parse_type_msg_id buf) s
after_error-Still einval buf s = Still-refl s
after_error-Still enospc buf s = Still-refl s
after_error-Still enomem buf s = Still-refl s
after_error-Still ebusy buf s = Still-refl s
after_error-Still econnreset buf s = Still-refl s
after_error-Still etimedout buf s = Still-refl s
after_error-Still (os n) buf s = Still-refl s

pub with_parsed-Still : (t : State) (s : Run) → Still s (with_parsed t s)
with_parsed-Still t s = record { waits_is = refl; arrivals_is = refl; num_is = refl }

pub after_parse-Still :
    (buf : Bytes) (r : Result ℕ × State) (s : Run) → Still s (after_parse buf r s).1
after_parse-Still buf (ok n, t) s = with_parsed-Still t s
after_parse-Still buf (stuck, t) s = with_parsed-Still t s
after_parse-Still buf (err e, t) s =
    Still-trans s (with_parsed t s) _ (with_parsed-Still t s) (after_error-Still e buf _)

pub accept-Still :
    (p : Platform) (o : Option Errno) (buf : Bytes) (s : Run) → Still s (accept p o buf s).1
accept-Still p none buf s = after_parse-Still buf _ s
accept-Still p (some e) buf s = Still-refl s

pub refuse-Still : (s : Run) → Still s (refuse s).1
refuse-Still s =
    continue-Still s (ignore (reject s.resp s)) _
      (ignore-Still s (reject s.resp s) (reject-Still s.resp s)) (λ _ t. Still-refl t)

pub checked-Still :
    (p : Platform) (s : Run) (r : Result ℕ × Run)
    → Still s r.1
    → Still s (if not (check_options p s.resp == 0) then refuse s else r).1
checked-Still p s r h = elim (Bool-cases (not (check_options p s.resp == 0))) [
  | inl e ↦ rw e (refuse-Still s)
  | inr e ↦ rw e h
]

pub handle_piggybacked_response-Still :
    (p : Platform) (s : Run) → Still s (handle_piggybacked_response p s).1
unfolding handle_piggybacked_response
handle_piggybacked_response-Still p s = checked-Still p s (ok 0, s) (Still-refl s)

pub send_ack-Still : (msg : Msg) (s : Run) → Still s (send_ack msg s).1
send_ack-Still msg s = rw (send_empty-ack msg.msg_id s) (empty_sent-Still ack msg.msg_id s)

pub handle_sep_response-Still : (p : Platform) (s : Run) → Still s (handle_sep_response p s).1
unfolding handle_sep_response
handle_sep_response-Still p s = elim (Bool-cases (s.resp.type == con)) [
  | inl e ↦ rw e (checked-Still p s (send_ack s.resp s) (send_ack-Still s.resp s))
  | inr e ↦ rw e (elim (Bool-cases (s.resp.type == non)) [
    | inl n ↦ rw n (checked-Still p s (ok 0, s) (Still-refl s))
    | inr n ↦ rw n (refuse-Still s)
  ])
]
