-- ===== src/Server/Recorded.antt =====
-- A request that was dealt with is on record (lib/src/coap_server.c).
use free_co_ap.Common.{
  ℕ, Bool, true, false, not, ◌&&◌, ◌||◌, List, ◌≡◌, ◌≢◌, refl, ◌⊎◌, inl, inr, Option, none, some,
  Result, ok, err, stuck, Bytes, ◌==◌, if◌then◌else◌, arith, Bool-cases,
}
use free_co_ap.Msg.{Msg, State, reset, con, non, ack, rst}
use free_co_ap.Msg.Build.{copy}
use free_co_ap.Msg.Header.{Same, Post, copy-Same}
use free_co_ap.Client.{Platform}
use free_co_ap.Client.Exchange.{check_options}
use free_co_ap.Server.{
  Job, Handler, cleared, start_ack_timer, start_timer, init_ack_timeout, set_timer,
}
use free_co_ap.Server.Transfer.{
  fresh, trans_destroy, match_req, match_resp, set_req, set_resp, send, send_ack, reject_bad_option,
  with_req, with_resp, req_state,
}
use free_co_ap.Server.Exchange.{
  attempt, await_ack, conclude, conclude_built, response_id, address_response, after_handler,
  respond, settle, after_ack, is_separate, answer, ended, is_request, on_message,
}
use free_co_ap.Server.Duplicates.{Calm, send_empty-Calm}

-- What holds of the job where the call succeeds.
abbrev pub Then : (Job → Type 0) → Result ℕ × Job → Type 0
Then Q (ok n, j) = Q j
Then Q (err e, j) = Unit
Then Q (stuck, j) = Unit

-- The request is on record.
abbrev pub Recorded : Msg → Job → Type 0
Recorded m j = Same m j.trans.req

pub attempt-Then :
    (Q R : Job → Type 0) (b m : Msg) (r : Result ℕ × Job) (k : Job → Result ℕ × Job)
    → Then Q r
    → ((t : Job) → Q t → Then R (k t))
    → Then R (attempt b m r k)
attempt-Then Q R b m (ok n, j) k h f = f j h
attempt-Then Q R b m (err e, j) k h f = tt
attempt-Then Q R b m (stuck, j) k h f = tt

Then-tt : (r : Result ℕ × Job) → Then (λ _. Unit {0}) r
Then-tt (ok n, j) = tt
Then-tt (err e, j) = tt
Then-tt (stuck, j) = tt

with_req-Recorded :
    (m : Msg) (r : Result ℕ × State) (j : Job) → Post (Same m) r → Then (Recorded m) (with_req r j)
with_req-Recorded m (ok n, t) j h = h
with_req-Recorded m (err e, t) j h = tt
with_req-Recorded m (stuck, t) j h = tt

pub set_req-Recorded : (m : Msg) (j : Job) → Then (Recorded m) (set_req m j)
unfolding set_req
set_req-Recorded m j = with_req-Recorded m (copy m (reset (req_state j))) j (copy-Same m _)

with_resp-Recorded :
    (m : Msg) (r : Result ℕ × State) (j : Job) → Recorded m j → Then (Recorded m) (with_resp r j)
with_resp-Recorded m (ok n, t) j h = h
with_resp-Recorded m (err e, t) j h = tt
with_resp-Recorded m (stuck, t) j h = tt

pub set_resp-Recorded : (m b : Msg) (j : Job) → Recorded m j → Then (Recorded m) (set_resp b j)
unfolding set_resp
set_resp-Recorded m b j h = with_resp-Recorded m (copy b _) j h

set_timer-Recorded :
    (m : Msg) (o : Option ℕ) (v : Option (ℕ × ℕ)) (j : Job)
    → Recorded m j
    → Then (Recorded m) (set_timer o v j)
set_timer-Recorded m none v j h = h
set_timer-Recorded m (some e) v j h = tt

pub await_ack-Recorded : (m b : Msg) (j : Job) → Recorded m j → Then (Recorded m) (await_ack b j)
unfolding start_ack_timer start_timer init_ack_timeout
await_ack-Recorded m b j h = elim (Bool-cases (b.type == con)) [
  | inl e ↦ rw e (set_timer-Recorded m _ _ _ h)
  | inr e ↦ rw e h
]

conclude-Recorded : (m b : Msg) (j : Job) → Then (Recorded m) (conclude m b j)
unfolding conclude
conclude-Recorded m b j =
    attempt-Then (λ _. Unit {0}) (Recorded m) b m (send b j) _ (Then-tt (send b j))
      λ j1 _.
        attempt-Then (Recorded m) (Recorded m) b m (set_req m j1) _ (set_req-Recorded m j1) λ j2 h2.
          attempt-Then (Recorded m) (Recorded m) b m (set_resp b j2) _ (set_resp-Recorded m b j2 h2)
            λ j3 h3.
              attempt-Then (Recorded m) (Recorded m) b m (await_ack b j3) _
                (await_ack-Recorded m b j3 h3) λ j4 h4. h4

conclude_built-Recorded :
    (m : Msg) (r : Result ℕ × State) (j : Job) → Then (Recorded m) (conclude_built m r j)
conclude_built-Recorded m (ok n, b) j = conclude-Recorded m b.msg _
conclude_built-Recorded m (err e, b) j = tt
conclude_built-Recorded m (stuck, b) j = tt

after_handler-Recorded :
    (sep : Bool) (m : Msg) (r : Result ℕ × State) (j : Job)
    → Then (Recorded m) (after_handler sep m r j)
after_handler-Recorded sep m (ok n, b) j =
    conclude_built-Recorded m (address_response (response_id sep m j.shared).0 sep m b) _
after_handler-Recorded sep m (err e, b) j = tt
after_handler-Recorded sep m (stuck, b) j = tt

respond-Recorded :
    (handle : Handler) (sep : Bool) (m : Msg) (j : Job) → Then (Recorded m) (respond handle sep m j)
unfolding respond
respond-Recorded handle sep m j = after_handler-Recorded sep m (handle m (fresh j)) _

after_ack-Recorded :
    (m : Msg) (r : Result ℕ × Job) (k : Job → Result ℕ × Job)
    → ((t : Job) → Then (Recorded m) (k t))
    → Then (Recorded m) (after_ack m r k)
after_ack-Recorded m (ok n, j) k h = h j
after_ack-Recorded m (err e, j) k h = tt
after_ack-Recorded m (stuck, j) k h = tt

answer-Recorded :
    (handle : Handler) (sep_list : List Bytes) (m : Msg) (j : Job)
    → Then (Recorded m) (answer handle sep_list m j)
unfolding answer
answer-Recorded handle sep_list m j = elim (Bool-cases (is_separate sep_list m)) [
  | inl e ↦
      rw e (
        after_ack-Recorded m (send_ack m _) (respond handle true m)
          (respond-Recorded handle true m))
  | inr e ↦ rw e (respond-Recorded handle false m _)
]

match_req_of : (m : Msg) (j : Job) → m.ver ≢ 0 → Recorded m j → match_req j.trans m ≡ true
unfolding match_req
match_req_of m j v h =
    let id : (m.msg_id == m.msg_id) ≡ true = ground arith in
    let ver : (m.ver == 0) ≡ false = ground arith in rw (h.ver_is, h.id_is, id, ver)

-- The request is on record, or a bad option of it ended the transaction.
abbrev pub Settled : Platform → Msg → Job → Type 0
Settled p m j =
    (match_req j.trans m ≡ true) ⊎ ((j.trans ≡ cleared) × ((check_options p m == 0) ≡ false))

settle-Settled :
    (p : Platform) (m : Msg) (j : Job) (r : Result ℕ × Job)
    → match_req j.trans m ≡ true
    → Calm j r.1
    → Then (Settled p m) (settle m r)
unfolding match_req
settle-Settled p m j (ok n, k) h c = inl (rw c.req_is h)
settle-Settled p m j (err e, k) h c = tt
settle-Settled p m j (stuck, k) h c = tt

ended-Settled :
    (p : Platform) (m : Msg) (r : Result ℕ × Job)
    → (check_options p m == 0) ≡ false
    → Then (Settled p m) (ended m r)
unfolding trans_destroy
ended-Settled p m (ok n, k) h = inr (refl, h)
ended-Settled p m (err e, k) h = tt
ended-Settled p m (stuck, k) h = tt

Recorded-Settled :
    (p : Platform) (m : Msg) (r : Result ℕ × Job)
    → m.ver ≢ 0
    → Then (Recorded m) r
    → Then (Settled p m) r
Recorded-Settled p m (ok n, k) v h = inl (match_req_of m k v h)
Recorded-Settled p m (err e, k) v h = tt
Recorded-Settled p m (stuck, k) v h = tt

-- A request is of another type than the messages that answer a response.
request_type : (m : Msg) → is_request m ≡ true → (m.type == ack || m.type == rst) ≡ false
unfolding is_request
request_type m h = ground arith

and_left : (a b : Bool) → (a && b) ≡ true → a ≡ true
and_left true b h = refl
and_left false b h = cc

pub and_false : (a : Bool) → (a && false) ≡ false
and_false true = refl
and_false false = refl

-- From the check of the options on.
abbrev examined : Platform → Handler → List Bytes → Msg → Job → Result ℕ × Job
examined p handle sep_list m j =
    if not (check_options p m == 0)
    then ended m (reject_bad_option m (check_options p m) j)
    else answer handle sep_list m j

examined-Settled :
    (p : Platform) (handle : Handler) (sep_list : List Bytes) (m : Msg) (j : Job)
    → m.ver ≢ 0
    → Then (Settled p m) (examined p handle sep_list m j)
examined-Settled p handle sep_list m j v = elim (Bool-cases (check_options p m == 0)) [
  | inl e ↦ rw e (Recorded-Settled p m _ v (answer-Recorded handle sep_list m j))
  | inr e ↦ rw e (ended-Settled p m (reject_bad_option m (check_options p m) j) e)
]

pub on_message-Settled :
    (p : Platform) (handle : Handler) (sep_list : List Bytes) (m : Msg) (j : Job)
    → m.ver ≢ 0
    → is_request m ≡ true
    → Then (Settled p m) (on_message p handle sep_list m j)
unfolding on_message
on_message-Settled p handle sep_list m j v r =
    elim (Bool-cases (match_req j.trans m && m.type == con)) [
      | inl a ↦
          rw a
            (settle-Settled p m j (send_ack m j) (and_left _ _ a) (send_empty-Calm ack m.msg_id j))
      | inr a ↦ elim (Bool-cases (match_req j.trans m && m.type == non)) [
        | inl b ↦ rw (a, b) (inl (and_left _ _ b))
        | inr b ↦
            rw (a, b, request_type m r, and_false (match_resp j.trans m), r)
              (examined-Settled p handle sep_list m j v)
      ]
    ]

pub Then-eq :
    (Q : Job → Type 0) (r : Result ℕ × Job) {n : ℕ} {k : Job} → r ≡ (ok n, k) → Then Q r → Q k
Then-eq Q r e h = rw e at h
