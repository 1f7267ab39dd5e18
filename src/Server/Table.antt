-- ===== src/Server/Table.antt =====
-- lib/src/coap_server.c: the table of transactions.
use free_co_ap.Common.{
  ℕ, zero, suc, Bool, true, ◌&&◌, ◌||◌, not, List, [], ◌∷◌, Option, none, some, ok, err, os, Bytes,
  ltb, ◌==◌, if◌then◌else◌,
}
use free_co_ap.Msg.{created}
use free_co_ap.Client.{next_timer, later}
use free_co_ap.Server.{Trans, Shared, Job, J, Server, cleared, touch}
use free_co_ap.Server.Transfer.{same_address, trans_destroy, with_trans}
use free_co_ap.Server.Paths.{path_list_destroy}

-- The index of the first transaction that passes a test.
unfoldable pub find_index : (Trans → Bool) → List Trans → Option ℕ
find_index test [] = none
find_index test (t ∷ ts) =
    let rest = find_index test ts in
    if test t then some 0 else elim rest [ none ↦ none | some i ↦ some (suc i) ]

abbrev pub is_of : Bytes → Trans → Bool
is_of sin t = t.active && same_address t.client_sin sin

-- coap_server_find_trans
abbrev pub find_trans : Bytes → List Trans → Option ℕ
find_trans sin = find_index (is_of sin)

-- coap_server_find_empty_trans
abbrev pub find_empty_trans : List Trans → Option ℕ
find_empty_trans = find_index (λ t. not t.active)

-- The loop of coap_server_find_oldest_trans: the index `i`, the oldest so far, `min_last_use`.
unfoldable pub oldest_from : ℕ → List Trans → ℕ → ℕ → ℕ
oldest_from i [] oldest least = oldest
oldest_from i (t ∷ ts) oldest least =
    if t.active && (least == 0 || ltb t.last_use least)
    then oldest_from (suc i) ts i t.last_use
    else oldest_from (suc i) ts oldest least

-- coap_server_find_oldest_trans: the first transaction where none is active.
unfoldable pub find_oldest_trans : List Trans → ℕ
find_oldest_trans table = oldest_from 0 table 0 0

-- &server->trans[i]
unfoldable pub entry : ℕ → List Trans → Trans
entry i [] = cleared
entry zero (t ∷ ts) = t
entry (suc i) (t ∷ ts) = entry i ts

unfoldable pub replace : ℕ → Trans → List Trans → List Trans
replace i t [] = []
replace zero t (x ∷ xs) = t ∷ xs
replace (suc i) t (x ∷ xs) = x ∷ replace i t xs

abbrev pub job_at : ℕ → Server → Job
job_at i s = record { trans = entry i s.table; shared = s.shared }

abbrev pub put_back {ℓ} : {A : Type ℓ} → ℕ → Server → A × Job → A × Server
put_back i s (a, j) = (a, record s { table = replace i j.trans s.table; shared = j.shared })

-- A function of a transaction, on an entry of the table.
abbrev pub on_trans {ℓ} : {A : Type ℓ} → ℕ → (Job → A × Job) → Server → A × Server
on_trans i f s = put_back i s (f (job_at i s))

abbrev pub next_open : Shared → Option ℕ
next_open s = next_timer s.opens

abbrev pub used_open : Job → Job
used_open j = record j { shared = record (j.shared) { opens = later j.shared.opens } }

abbrev pub close_timer : Job → Job
close_timer j = record {
  trans = cleared;
  shared = record (j.shared) { closed = suc j.shared.closed };
}

-- inet_ntop, and the messages of the transaction.
abbrev pub print_address : Option ℕ → J ℕ
print_address none j = (ok 0, with_trans (record (j.trans) { req = created; resp = created }) j)
print_address (some e) j = (err (os e), close_timer j)

abbrev pub opened_timer : Option ℕ → Bytes → J ℕ
opened_timer none sin j = print_address (next_open j.shared) (
    used_open (record {
      trans = record (j.trans) { client_sin = sin };
      shared = record (j.shared) { opened = suc j.shared.opened };
    }))
opened_timer (some e) sin j = (err (os e), with_trans cleared j)

-- coap_server_trans_create
unfoldable pub trans_create : Bytes → J ℕ
trans_create sin j =
    let k = touch (with_trans (record cleared { active = true }) j) in
    opened_timer (next_open k.shared) sin (used_open k)

-- The loop of coap_server_destroy over the transactions.
unfoldable pub destroy_all : List Trans → Shared → List Trans × Shared
destroy_all [] s = ([], s)
destroy_all (t ∷ ts) s =
    let j =
      if t.active
      then trans_destroy (record { trans = t; shared = s })
      else record { trans = t; shared = s } in
    let rest = destroy_all ts j.shared in (cleared ∷ rest.0, rest.1)

-- coap_server_destroy
unfoldable pub destroy : Server → Server
destroy s =
    let r = destroy_all s.table s.shared in
    let l = path_list_destroy s.sep_list r.1.heap in
    record { sep_list = l.0; table = r.0; shared = record (r.1) { msg_id = 0; heap = l.1 } }
