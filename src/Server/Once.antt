-- ===== src/Server/Once.antt =====
-- A request that comes more than once (lib/src/coap_server.c).
use free_co_ap.Common.{
  ℕ, [], ◌∷◌, ◌∙◌, All, true, false, ◌||◌, List, ◌≡◌, ◌≢◌, refl, ◌⊎◌, inl, inr, Option, none, some,
  Result, ok, err, stuck, Bytes, ◌==◌, arith, Bool-cases,
}
use free_co_ap.Msg.{Msg, con, non, ack, rst}
use free_co_ap.Common.Actions.{continue}
use free_co_ap.Client.{Platform, next_timer}
use free_co_ap.Client.Exchange.{check_options}
use free_co_ap.Server.{Job, Handler, set_timer, stop_ack_timer, stop_timer}
use free_co_ap.Server.Transfer.{trans_destroy, match_req, match_resp, send_ack, reject}
use free_co_ap.Server.Exchange.{settle, is_request, on_message}
use free_co_ap.Server.Duplicates.{Calm, send_empty-Calm}
use free_co_ap.Server.Recorded.{Then, Settled, on_message-Settled, Then-eq, and_false}

-- The handler has had the same requests, and where the call succeeds the transaction still has a
-- request with the message ID of `m` on record.
record Quiet (m : Msg) (j : Job) (r : Result ℕ × Job) : Type 0 where
  handled_is : r.1.shared.handled ≡ j.shared.handled
  matched : Then (λ k. match_req k.trans m ≡ true) r

settle-matched :
    (m x : Msg) (j : Job) (r : Result ℕ × Job)
    → match_req j.trans m ≡ true
    → Calm j r.1
    → Then (λ k. match_req k.trans m ≡ true) (settle x r)
unfolding match_req
settle-matched m x j (ok n, k) h c = rw c.req_is h
settle-matched m x j (err e, k) h c = tt
settle-matched m x j (stuck, k) h c = tt

settle-handled :
    (x : Msg) (j : Job) (r : Result ℕ × Job)
    → Calm j r.1
    → (settle x r).1.shared.handled ≡ j.shared.handled
unfolding trans_destroy
settle-handled x j (ok n, k) c = c.handled_is
settle-handled x j (err e, k) c = c.handled_is
settle-handled x j (stuck, k) c = c.handled_is

repeated-Quiet :
    (p : Platform) (handle : Handler) (sep_list : List Bytes) (m : Msg) (j : Job)
    → match_req j.trans m ≡ true
    → (m.type == con || m.type == non) ≡ true
    → Quiet m j (on_message p handle sep_list m j)
unfolding on_message
repeated-Quiet p handle sep_list m j h t = elim (Bool-cases (m.type == con)) [
  | inl c ↦
      let calm = send_empty-Calm ack m.msg_id j in
      rw (h, c)
        (record {
          handled_is = settle-handled m j (send_ack m j) calm;
          matched = settle-matched m m j (send_ack m j) h calm;
        })
  | inr c ↦
      let n : (m.type == non) ≡ true = rw c at t in
      rw (h, c, n) (record { handled_is = refl; matched = h })
]

set_timer-Calm : (o : Option ℕ) (v : Option (ℕ × ℕ)) (j : Job) → Calm j (set_timer o v j).1
set_timer-Calm none v j = record { req_is = refl; handled_is = refl }
set_timer-Calm (some e) v j = record { req_is = refl; handled_is = refl }

stop_ack_timer-Calm : (j : Job) → Calm j (stop_ack_timer j).1
unfolding stop_ack_timer stop_timer
stop_ack_timer-Calm j =
    let z = set_timer-Calm (next_timer j.shared.timers) none _ in
    record { req_is = z.req_is; handled_is = z.handled_is }

-- A message that only answers a response.
abbrev pub IsReply : Msg → Type 0
IsReply x = (x.type == ack || x.type == rst) ≡ true

reject-reply : (x : Msg) (j : Job) → IsReply x → (reject x j).1 ≡ j
unfolding reject
reject-reply x j h = ground arith

reply_types : (x : Msg) → IsReply x → ((x.type == con) ≡ false) × ((x.type == non) ≡ false)
reply_types x h = ground arith

no_request : (x : Msg) → IsReply x → is_request x ≡ false
unfolding is_request
no_request x h = rw h refl

reply-Quiet :
    (p : Platform) (handle : Handler) (sep_list : List Bytes) (m x : Msg) (j : Job)
    → match_req j.trans m ≡ true
    → IsReply x
    → Quiet m j (on_message p handle sep_list x j)
unfolding on_message trans_destroy
reply-Quiet p handle sep_list m x j h t =
    let types = reply_types x t in
    let calm = stop_ack_timer-Calm j in
    elim (Bool-cases (match_resp j.trans x)) [
      | inl e ↦
          rw (types.0, types.1, and_false (match_req j.trans x), e, t)
            (record {
              handled_is = settle-handled x j (stop_ack_timer j) calm;
              matched = settle-matched m x j (stop_ack_timer j) h calm;
            })
      | inr e ↦
          rw
            (
              types.0,
              types.1,
              and_false (match_req j.trans x),
              e,
              no_request x t,
              reject-reply x j t,
            )
            (record { handled_is = refl; matched = tt })
    ]

-- Messages that follow a request: the request again, and replies.
abbrev pub Follows : Msg → Msg → Type 0
Follows m x = (x ≡ m) ⊎ IsReply x

follow-Quiet :
    (p : Platform) (handle : Handler) (sep_list : List Bytes) (m x : Msg) (j : Job)
    → match_req j.trans m ≡ true
    → (m.type == con || m.type == non) ≡ true
    → Follows m x
    → Quiet m j (on_message p handle sep_list x j)
follow-Quiet p handle sep_list m x j h t (inl e) = rw e (repeated-Quiet p handle sep_list m j h t)
follow-Quiet p handle sep_list m x j h t (inr r) = reply-Quiet p handle sep_list m x j h r

-- Messages of a client, one after the other, as long as its transaction goes on.
unfoldable pub on_messages : Platform → Handler → List Bytes → List Msg → Job → Result ℕ × Job
on_messages p handle sep_list [] j = (ok 0, j)
on_messages p handle sep_list (x ∷ xs) j =
    continue (on_message p handle sep_list x j) λ _. on_messages p handle sep_list xs

continue-handled :
    (m : Msg) (j : Job) (r : Result ℕ × Job) (f : Job → Result ℕ × Job)
    → Quiet m j r
    → ((k : Job) → match_req k.trans m ≡ true → (f k).1.shared.handled ≡ k.shared.handled)
    → (continue r (λ _. f)).1.shared.handled ≡ j.shared.handled
continue-handled m j (ok n, k) f q h = h k q.matched ∙ q.handled_is
continue-handled m j (err e, k) f q h = q.handled_is
continue-handled m j (stuck, k) f q h = q.handled_is

on_messages-handled :
    (p : Platform) (handle : Handler) (sep_list : List Bytes) (m : Msg) (xs : List Msg) (j : Job)
    → match_req j.trans m ≡ true
    → (m.type == con || m.type == non) ≡ true
    → All (Follows m) xs
    → (on_messages p handle sep_list xs j).1.shared.handled ≡ j.shared.handled
unfolding on_messages
on_messages-handled p handle sep_list m [] j h t a = refl
on_messages-handled p handle sep_list m (x ∷ xs) j h t a =
    continue-handled m j (on_message p handle sep_list x j) (on_messages p handle sep_list xs)
      (follow-Quiet p handle sep_list m x j h t a.0)
      λ k h2. on_messages-handled p handle sep_list m xs k h2 t a.1

Settled-match :
    (p : Platform) (m : Msg) (j : Job)
    → (check_options p m == 0) ≡ true
    → Settled p m j
    → match_req j.trans m ≡ true
Settled-match p m j c (inl h) = h
Settled-match p m j c (inr h) = let bad = h.1 in cc

-- A confirmable or non-confirmable request, with a version and with no option that the server
-- rejects, that coap_server_exchange has dealt with successfully in the transaction of its client:
-- where the messages that come next in that transaction are this request again, any number of times,
-- and acknowledgements and resets, in any order, the handler is called for none of them as long as
-- the transaction goes on.
pub on_message-once :
    (p : Platform) (handle : Handler) (sep_list : List Bytes) (m : Msg) (xs : List Msg) (j : Job)
    {k : Job} {n : ℕ}
    → m.ver ≢ 0
    → is_request m ≡ true
    → (m.type == con || m.type == non) ≡ true
    → (check_options p m == 0) ≡ true
    → on_message p handle sep_list m j ≡ (ok n, k)
    → All (Follows m) xs
    → (on_messages p handle sep_list xs k).1.shared.handled ≡ k.shared.handled
on_message-once p handle sep_list m xs j {k} {n} v r t c e a =
    on_messages-handled p handle sep_list m xs k
      (Settled-match p m k c
        (Then-eq (Settled p m) _ e (on_message-Settled p handle sep_list m j v r)))
      t a
