-- ===== src/Client/Exchange.antt =====
-- lib/src/coap_client.c: waiting, and the exchange of a request and its response.
use free_co_ap.Common.{
  ℕ, zero, suc, ◌+◌, ◌*◌, ◌%◌, Bool, true, false, ◌&&◌, ◌||◌, not, List, [], ◌∷◌, Result, ok, err,
  stuck, ebadmsg, einval, econnreset, etimedout, os, Bytes, length, ◌==◌, if◌then◌else◌,
}
use free_co_ap.Common.Actions.{continue, ◌>>◌, fail, ignore}
use free_co_ap.Msg.{Msg, State, con, non, ack, rst}
use free_co_ap.Msg.Build.{set_msg_id, set_token}
use free_co_ap.Msg.Options.{check_critical_ops, check_unsafe_ops}
use free_co_ap.Client.{
  Platform, Wait, broken, ready, Run, C, next_rand, later, start_ack_timer, start_resp_timer,
}
use free_co_ap.Client.Transfer.{send, recv, reject, send_ack, handle_ack_timeout}

abbrev pub with_waits : List Wait → Run → Run
with_waits ws s = record s { waits = ws }

-- One round of the loop: the socket is looked at first.
abbrev pub ack_round : Bool → Bool → C ℕ → C ℕ
ack_round true timer rest s = (ok 0, s)
ack_round false true rest s = continue (handle_ack_timeout s) λ _. rest
ack_round false false rest s = rest s

unfoldable pub listen_ack_from : List Wait → C ℕ
listen_ack_from [] s = (stuck, with_waits [] s)
listen_ack_from (broken e ∷ ws) s = (err (os e), with_waits ws s)
listen_ack_from (ready sd timer ∷ ws) s = ack_round sd timer (listen_ack_from ws) (with_waits ws s)

-- coap_client_listen_ack
abbrev pub listen_ack : C ℕ
listen_ack s = listen_ack_from s.waits s

abbrev pub resp_round : Bool → Bool → C ℕ → C ℕ
resp_round true timer rest s = (ok 0, s)
resp_round false true rest s = (err etimedout, s)
resp_round false false rest s = rest s

unfoldable pub listen_resp_from : List Wait → C ℕ
listen_resp_from [] s = (stuck, with_waits [] s)
listen_resp_from (broken e ∷ ws) s = (err (os e), with_waits ws s)
listen_resp_from (ready sd timer ∷ ws) s =
    resp_round sd timer (listen_resp_from ws) (with_waits ws s)

-- coap_client_listen_resp
abbrev pub listen_resp : C ℕ
listen_resp s = listen_resp_from s.waits s

-- memcmp over the first bytes of two arrays; tokens are arrays of 8 bytes, so that none ends first.
unfoldable pub same_front : ℕ → Bytes → Bytes → Bool
same_front zero xs ys = true
same_front (suc n) [] [] = true
same_front (suc n) [] (y ∷ ys) = false
same_front (suc n) (x ∷ xs) [] = false
same_front (suc n) (x ∷ xs) (y ∷ ys) = x == y && same_front n xs ys

-- coap_client_match_token
unfoldable pub match_token : Msg → Msg → Bool
match_token req resp =
    resp.token_len == req.token_len && same_front req.token_len resp.token req.token

-- coap_client_check_options
unfoldable pub check_options : Platform → Msg → ℕ
check_options p msg = if p.proxy then check_unsafe_ops msg else check_critical_ops msg

-- coap_client_reject of the response, its status unused, and then EBADMSG.
abbrev pub refuse : C ℕ
refuse s = continue (ignore (reject s.resp s)) λ _. fail ebadmsg

-- coap_client_handle_piggybacked_response
unfoldable pub handle_piggybacked_response : Platform → C ℕ
handle_piggybacked_response p s = if not (check_options p s.resp == 0) then refuse s else (ok 0, s)

-- coap_client_handle_sep_response
unfoldable pub handle_sep_response : Platform → C ℕ
handle_sep_response p s =
    if s.resp.type == con
    then if not (check_options p s.resp == 0) then refuse s else send_ack s.resp s
    else if s.resp.type == non
    then if not (check_options p s.resp == 0) then refuse s else (ok 0, s)
    else refuse s

-- What a loop of an exchange makes of a message that arrived: the branches of its tests.
pub data Verdict : Type 0 where
  acknowledged repeated piggybacked separate was_reset refused unrelated : Verdict

-- coap_msg_is_empty
abbrev pub is_empty : Msg → Bool
is_empty m = m.code_class == 0 && m.code_detail == 0

-- The tests of coap_client_exchange_con
unfoldable pub con_verdict : Msg → Msg → Verdict
con_verdict req resp =
    if resp.msg_id == req.msg_id
    then if resp.type == ack
      then if is_empty resp
        then acknowledged
        else if match_token req resp
        then piggybacked
        else refused
      else if resp.type == rst
      then was_reset
      else refused
    else if match_token req resp
    then separate
    else unrelated

-- The tests of coap_client_exchange_sep
unfoldable pub sep_verdict : Msg → Msg → Verdict
sep_verdict req resp =
    if resp.msg_id == req.msg_id
    then if resp.type == ack then repeated else if resp.type == rst then was_reset else refused
    else if match_token req resp
    then separate
    else unrelated

-- The tests of coap_client_exchange_non
unfoldable pub non_verdict : Msg → Msg → Verdict
non_verdict req resp =
    if resp.msg_id == req.msg_id
    then if resp.type == rst then was_reset else refused
    else if match_token req resp
    then separate
    else unrelated

-- What the branches do: `on_ack` after an empty acknowledgement, `rest` where the loop goes on.
unfoldable pub act : Platform → C ℕ → C ℕ → Verdict → C ℕ
act p on_ack rest acknowledged s = on_ack s
act p on_ack rest repeated s = rest s
act p on_ack rest piggybacked s = handle_piggybacked_response p s
act p on_ack rest separate s = handle_sep_response p s
act p on_ack rest was_reset s = (err econnreset, s)
act p on_ack rest refused s = refuse s
act p on_ack rest unrelated s = continue (reject s.resp s) λ _. rest

-- One round of a loop: wait, receive, and act on what came.
unfoldable pub round : Platform → C ℕ → (Msg → Msg → Verdict) → C ℕ → C ℕ → C ℕ
round p listen verdict on_ack rest = do
  listen
  recv p
  λ s. act p on_ack rest (verdict s.req s.resp) s

unfoldable pub sep_loop : ℕ → Platform → C ℕ
sep_loop zero p s = (stuck, s)
sep_loop (suc n) p s = let rest = sep_loop n p in round p listen_resp sep_verdict rest rest s

-- coap_client_exchange_sep; each round takes one result of select at least.
unfoldable pub exchange_sep : Platform → C ℕ
exchange_sep p s = continue (ignore (start_resp_timer s)) λ _ t. sep_loop (length t.waits + 1) p t

unfoldable pub con_loop : ℕ → Platform → C ℕ
con_loop zero p s = (stuck, s)
con_loop (suc n) p s = round p listen_ack con_verdict (exchange_sep p) (con_loop n p) s

-- coap_client_exchange_con
unfoldable pub exchange_con : Platform → C ℕ
exchange_con p s = continue (ignore (start_ack_timer s)) λ _ t. con_loop (length t.waits + 1) p t

unfoldable pub non_loop : ℕ → Platform → C ℕ
non_loop zero p s = (stuck, s)
non_loop (suc n) p s = let rest = non_loop n p in round p listen_resp non_verdict rest rest s

-- coap_client_exchange_non
unfoldable pub exchange_non : Platform → C ℕ
exchange_non p s = continue (ignore (start_resp_timer s)) λ _ t. non_loop (length t.waits + 1) p t

-- coap_msg_gen_rand_str: the bytes are those of the coming calls of rand.
unfoldable pub gen_rand_str : ℕ → List ℕ → Bytes × List ℕ
gen_rand_str zero rands = ([], rands)
gen_rand_str (suc n) rands =
    let rest = gen_rand_str n (later rands) in (next_rand rands % 256 ∷ rest.0, rest.1)

abbrev pub changed_req : Result ℕ × State → C ℕ
changed_req (r, t) s = (r, record s { req = t.msg; heap = t.heap })

-- A function of the message library on the request.
abbrev pub on_req : (State → Result ℕ × State) → C ℕ
on_req f s = changed_req (f (record { msg = s.req; heap = s.heap })) s

abbrev pub le16 : Bytes → ℕ
le16 [] = 0
le16 (a ∷ []) = a
le16 (a ∷ b ∷ _) = b * 256 + a

unfoldable pub gen_msg_id : C ℕ
gen_msg_id s =
    let r = gen_rand_str 2 s.rands in on_req (set_msg_id (le16 r.0)) (record s { rands = r.1 })

unfoldable pub gen_token : C ℕ
gen_token s = let r = gen_rand_str 4 s.rands in on_req (set_token r.0 4) (record s { rands = r.1 })

-- The response to a request that was sent.
unfoldable pub await : Platform → C ℕ
await p s =
    if s.req.type == con
    then exchange_con p s
    else if s.req.type == non
    then exchange_non p s
    else (err einval, s)

unfoldable pub is_request : Msg → Bool
is_request m = not (m.type == ack || m.type == rst || not (m.code_class == 0))

-- coap_client_exchange
unfoldable pub exchange : Platform → C ℕ
exchange p s =
    if is_request s.req
    then (do gen_msg_id; gen_token; λ t. send t.req t; await p) s
    else (err einval, s)
