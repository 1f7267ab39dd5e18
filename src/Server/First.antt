-- ===== src/Server/First.antt =====
-- The first message of a new client (lib/src/coap_server.c).
use free_co_ap.Common.{ℕ, true, ◌||◌, List, ◌≡◌, refl, Option, none, some, ok, Bytes, ◌==◌}
use free_co_ap.Msg.{Msg, created, con, non}
use free_co_ap.Client.{Platform}
use free_co_ap.Server.{Job, Handler, cleared}
use free_co_ap.Server.Transfer.{match_req}
use free_co_ap.Server.Exchange.{on_message}
use free_co_ap.Server.Table.{trans_create, opened_timer, print_address}
use free_co_ap.Server.Duplicates.{Acknowledged, on_message-Acknowledged}
use free_co_ap.Server.{touch}
use free_co_ap.Server.Transfer.{with_trans}
use free_co_ap.Server.Table.{next_open, used_open}
use free_co_ap.Server.Recorded.{Then, Then-eq}

created_match :
    (m : Msg) (j : Job) → j.trans.req ≡ created → m.msg_id ≡ 0 → match_req j.trans m ≡ true
unfolding match_req
created_match m j e z = rw (e, z)

-- A transaction that coap_server_trans_create made has a created request.
print_address-created :
    (o : Option ℕ) (j : Job) → Then (λ k. k.trans.req ≡ created) (print_address o j)
print_address-created none j = refl
print_address-created (some e) j = tt

opened_timer-created :
    (o : Option ℕ) (sin : Bytes) (j : Job)
    → Then (λ k. k.trans.req ≡ created) (opened_timer o sin j)
opened_timer-created none sin j = print_address-created _ _
opened_timer-created (some e) sin j = tt

trans_create-created :
    (sin : Bytes) (j : Job) → Then (λ k. k.trans.req ≡ created) (trans_create sin j)
unfolding trans_create
trans_create-created sin j =
    let k = touch (with_trans (record cleared { active = true }) j) in
    opened_timer-created (next_open k.shared) sin (used_open k)

-- Where coap_server_trans_create has made the transaction of a new client, a confirmable or
-- non-confirmable first message with the ID 0 is taken for a duplicate: the handler does not see it,
-- and an empty acknowledgement or nothing is sent.
pub on_message-first_id :
    (p : Platform) (handle : Handler) (sep_list : List Bytes) (sin : Bytes) (m : Msg) (i : Job)
    {j : Job} {n : ℕ}
    → trans_create sin i ≡ (ok n, j)
    → m.msg_id ≡ 0
    → (m.type == con || m.type == non) ≡ true
    → Acknowledged m j (on_message p handle sep_list m j).1
on_message-first_id p handle sep_list sin m i {j} {n} e z t =
    let made = Then-eq (λ k. k.trans.req ≡ created) _ e (trans_create-created sin i) in
    on_message-Acknowledged p handle sep_list m j (created_match m j made z) t
