-- ===== src/Server.antt =====
-- lib/src/coap_server.c and lib/include/coap_server.h, built without DTLS: the server's data, the
-- timers of a transaction, and the next message ID.
pub mod Paths
pub mod Transfer
pub mod Table
pub mod Exchange
pub mod Run
pub mod Books
pub mod Deliveries
pub mod Serving
pub mod Creation
pub mod Slots
pub mod Invariant
pub mod Sweeps
pub mod Duplicates
pub mod Recorded
pub mod Once
pub mod First
pub mod Response
pub mod Answered
pub mod Oldest
pub mod PathText
mod Tests
use free_co_ap.Common.{
  ℕ, zero, suc, ◌+◌, ◌*◌, ◌/◌, ◌%◌, Bool, true, false, List, [], ◌∷◌, ◌++◌, Option, none, some,
  Heap, Errno, Result, ok, err, etimedout, os, Bytes, u32_mod, leb, ltb, if◌then◌else◌,
}
use free_co_ap.Common.Actions.{◌>>◌}
use free_co_ap.Msg.{Msg, State, max_msg_id, zeroed}
use free_co_ap.Client.{next_rand, later, next_timer}
use free_co_ap.Client.Exchange.{gen_rand_str, le16}

-- COAP_SERVER_ACK_TIMEOUT_SEC, COAP_SERVER_MAX_RETRANSMIT, COAP_SERVER_NUM_TRANS
abbrev pub ack_timeout_sec : ℕ
ack_timeout_sec = 2

abbrev pub max_retransmit : ℕ
max_retransmit = 4

abbrev pub num_trans : ℕ
num_trans = 8

-- coap_server_trans_t. `client_sin` is the part of the address structure that `client_sin_len`
-- measures; `timer` is what the timer of `timer_fd` is set to, `none` where it is stopped.
pub record Trans : Type 0 where
  pub active : Bool
  pub last_use : ℕ
  pub timer : Option (ℕ × ℕ)
  pub tv_sec : ℕ
  pub tv_nsec : ℕ
  pub num_retrans : ℕ
  pub client_sin : Bytes
  pub req : Msg
  pub resp : Msg

-- A transaction cleared by memset.
abbrev pub cleared : Trans
cleared = record {
  active = false;
  last_use = 0;
  timer = none;
  tv_sec = 0;
  tv_nsec = 0;
  num_retrans = 0;
  client_sin = [];
  req = zeroed;
  resp = zeroed;
}

-- What all transactions share: the server's message ID, the allocator, and the outside. `queue` is
-- the datagrams at the socket, each with its sender; `recvs`, `sends`, `timers`, `opens`, `times`
-- and `rands` are what the coming calls of recvfrom, sendto, timerfd_settime, of timerfd_create and
-- inet_ntop, of time and of rand give: an error of errno, or none where the call succeeds, as it
-- does where the list is used up. `opened` and `closed` count the timers' descriptors, `sent` is
-- the datagrams that went out, each with its receiver, and `handled` the requests that the handler
-- was called with, the oldest first.
pub record Shared : Type 0 where
  pub msg_id : ℕ
  pub heap : Heap
  pub queue : List (Bytes × Bytes)
  pub recvs : List (Option ℕ)
  pub sends : List (Option ℕ)
  pub timers : List (Option ℕ)
  pub opens : List (Option ℕ)
  pub times : List ℕ
  pub rands : List ℕ
  pub opened : ℕ
  pub closed : ℕ
  pub sent : List (Bytes × Bytes)
  pub handled : List Msg

-- What a function of a transaction works on.
pub record Job : Type 0 where
  pub trans : Trans
  pub shared : Shared

-- coap_server_t
pub record Server : Type 0 where
  pub sep_list : List Bytes
  pub table : List Trans
  pub shared : Shared

-- A function that returns a number or an error code and changes the transaction and what it shares.
abbrev pub J : Type 0 → Type 0
J A = Job → Result A × Job

-- The handler that the user gives coap_server_create: it reads the request and makes the response.
abbrev pub Handler : Type 0
Handler = Msg → State → Result ℕ × State

-- coap_server_trans_touch
unfoldable pub touch : Job → Job
touch j = record {
  trans = record (j.trans) { last_use = next_rand j.shared.times };
  shared = record (j.shared) { times = later j.shared.times };
}

abbrev pub with_timeout : ℕ → ℕ → Job → Job
with_timeout sec nsec j = record j { trans = record (j.trans) { tv_sec = sec; tv_nsec = nsec } }

-- coap_server_trans_init_ack_timeout
unfoldable pub init_ack_timeout : Job → Job
init_ack_timeout j =
    with_timeout ack_timeout_sec (next_rand j.shared.rands % 1000 * 1000000)
      (record j { shared = record (j.shared) { rands = later j.shared.rands } })

abbrev trans_msec : Trans → ℕ
trans_msec t = 2 * (t.tv_sec * 1000 + t.tv_nsec / 1000000) % u32_mod

-- coap_server_trans_double_timeout
unfoldable pub double_timeout : Job → Job
double_timeout j = with_timeout (trans_msec j.trans / 1000) (trans_msec j.trans % 1000 * 1000000) j

abbrev pub set_timer : Option ℕ → Option (ℕ × ℕ) → J ℕ
set_timer none value j = (ok 0, record j { trans = record (j.trans) { timer = value } })
set_timer (some e) value j = (err (os e), j)

-- timerfd_settime with the value that `its` holds; zero stops the timer.
abbrev pub settime : Option (ℕ × ℕ) → J ℕ
settime value j =
    set_timer (next_timer j.shared.timers) value
      (record j { shared = record (j.shared) { timers = later j.shared.timers } })

-- coap_server_trans_start_timer; the timeouts that the server sets are not zero.
unfoldable pub start_timer : J ℕ
start_timer j = settime (some (j.trans.tv_sec, j.trans.tv_nsec)) j

-- coap_server_trans_stop_timer
unfoldable pub stop_timer : J ℕ
stop_timer j = settime none j

abbrev pub with_num_retrans : ℕ → Job → Job
with_num_retrans n j = record j { trans = record (j.trans) { num_retrans = n } }

-- coap_server_trans_start_ack_timer
unfoldable pub start_ack_timer : J ℕ
start_ack_timer j = start_timer (init_ack_timeout (with_num_retrans 0 j))

-- coap_server_trans_stop_ack_timer
unfoldable pub stop_ack_timer : J ℕ
stop_ack_timer j = stop_timer (with_num_retrans 0 j)

abbrev pub count_retrans : J ℕ
count_retrans j = (ok 0, with_num_retrans (j.trans.num_retrans + 1) j)

-- coap_server_trans_update_ack_timer
unfoldable pub update_ack_timer : J ℕ
update_ack_timer j =
    if leb max_retransmit j.trans.num_retrans
    then (err etimedout, j)
    else (start_timer >> count_retrans) (double_timeout j)

-- The loop of coap_server_get_next_msg_id: as long as the ID is out of range, another is drawn. Two
-- random bytes are never out of range.
unfoldable pub redraw : ℕ → ℕ → List ℕ → ℕ × List ℕ
redraw zero id rands = (id, rands)
redraw (suc n) id rands =
    let drawn = gen_rand_str 2 rands in
    let rest = redraw n (le16 drawn.0) drawn.1 in if ltb max_msg_id id then rest else (id, rands)

-- coap_server_get_next_msg_id: the ID, and what the transactions share afterwards.
unfoldable pub get_next_msg_id : Shared → ℕ × Shared
get_next_msg_id s =
    let r = redraw 2 ((s.msg_id + 1) % u32_mod) s.rands in
    (r.0, record s { msg_id = r.0; rands = r.1 })
