-- ===== src/Client.antt =====
-- lib/src/coap_client.c and lib/include/coap_client.h: the client's data, and its timers.
pub mod Transfer
pub mod Exchange
pub mod Effect
pub mod Effects
pub mod Loops
pub mod Outgoing
pub mod Answer
pub mod Success
pub mod Blocked
pub mod Waiting
pub mod Termination
pub mod Still
pub mod Spent
pub mod Progress
pub mod Pacing
pub mod Silence
pub mod Rejects
mod Tests
use free_co_ap.Common.{
  ℕ, ◌+◌, ◌*◌, ◌/◌, ◌%◌, Bool, List, [], ◌∷◌, ◌++◌, Option, none, some, Heap, Errno, Result, ok,
  err, econnreset, etimedout, os, Bytes, u32_mod, leb, if◌then◌else◌,
}
use free_co_ap.Common.Actions.{◌>>◌}
use free_co_ap.Msg.{Msg}

-- COAP_CLIENT_ACK_TIMEOUT_SEC, COAP_CLIENT_MAX_RETRANSMIT, COAP_CLIENT_RESP_TIMEOUT_SEC,
-- COAP_MSG_MAX_BUF_LEN
abbrev pub ack_timeout_sec : ℕ
ack_timeout_sec = 2

abbrev pub max_retransmit : ℕ
max_retransmit = 4

abbrev pub resp_timeout_sec : ℕ
resp_timeout_sec = 30

abbrev pub max_buf_len : ℕ
max_buf_len = 1152

-- How the library is built: whether a plain char is signed, and COAP_PROXY.
pub record Platform : Type 0 where
  pub char_signed : Bool
  pub proxy : Bool

-- The end of a call that sends or receives: the data moved; errno is set; or, of GnuTLS only, the
-- session is closed, an alert came, the call is to be made again, or another error.
pub data Outcome : Type 0 where
  moved : Outcome
  errno_set : ℕ → Outcome
  closed alert again other_error : Outcome

-- What select returns: an error, or which of the socket and the timer are readable.
pub data Wait : Type 0 where
  broken : ℕ → Wait
  ready : Bool → Bool → Wait

-- coap_client_t, as far as the exchanges use it.
pub record Client : Type 0 where
  pub tv_sec : ℕ
  pub tv_nsec : ℕ
  pub num_retrans : ℕ

-- What a call of the client works on: the client, the request and the response, the allocator, and
-- the outside. `waits`, `arrivals`, `sends`, `timers` and `rands` are what the coming calls of
-- select, recv, send, timerfd_settime and rand give; a send or a timer that the list does not have
-- succeeds. `sent` is the datagrams that went out, and `armed` what the timer was set to, the
-- oldest first.
pub record Run : Type 0 where
  pub client : Client
  pub req : Msg
  pub resp : Msg
  pub heap : Heap
  pub waits : List Wait
  pub arrivals : List (Outcome × Bytes)
  pub sends : List Outcome
  pub timers : List (Option ℕ)
  pub rands : List ℕ
  pub sent : List Bytes
  pub armed : List (ℕ × ℕ)

-- A function that returns a number or an error code and changes the run, on errors too.
abbrev pub C : Type 0 → Type 0
C A = Run → Result A × Run

-- The error code that follows from the end of a send or a receive; EAGAIN is 11, and -1 is -EPERM.
abbrev pub status : Outcome → Option Errno
status moved = none
status (errno_set e) = some (os e)
status closed = some econnreset
status alert = some econnreset
status again = some (os 11)
status other_error = some (os 1)

abbrev pub next_rand : List ℕ → ℕ
next_rand [] = 0
next_rand (r ∷ rs) = r

abbrev pub later {ℓ} : {A : Type ℓ} → List A → List A
later [] = []
later (x ∷ xs) = xs

abbrev pub with_timeout : ℕ → ℕ → Run → Run
with_timeout sec nsec s = record s { client = record (s.client) { tv_sec = sec; tv_nsec = nsec } }

-- coap_client_init_ack_timeout
unfoldable pub init_ack_timeout : Run → Run
init_ack_timeout s = record (with_timeout ack_timeout_sec (next_rand s.rands % 1000 * 1000000) s) {
  rands = later s.rands;
}

-- coap_client_init_resp_timeout
unfoldable pub init_resp_timeout : Run → Run
init_resp_timeout s = with_timeout resp_timeout_sec 0 s

-- The milliseconds of the timeout, doubled, as an unsigned.
abbrev pub doubled_msec : Client → ℕ
doubled_msec c = 2 * (c.tv_sec * 1000 + c.tv_nsec / 1000000) % u32_mod

-- coap_client_double_timeout
unfoldable pub double_timeout : Run → Run
double_timeout s =
    with_timeout (doubled_msec s.client / 1000) (doubled_msec s.client % 1000 * 1000000) s

abbrev pub next_timer : List (Option ℕ) → Option ℕ
next_timer [] = none
next_timer (t ∷ ts) = t

abbrev pub arm : Option ℕ → C ℕ
arm none s = (ok 0, record s { armed = s.armed ++ ((s.client.tv_sec, s.client.tv_nsec) ∷ []) })
arm (some e) s = (err (os e), s)

-- coap_client_start_timer
unfoldable pub start_timer : C ℕ
start_timer s = arm (next_timer s.timers) (record s { timers = later s.timers })

abbrev pub with_num_retrans : ℕ → Run → Run
with_num_retrans n s = record s { client = record (s.client) { num_retrans = n } }

-- coap_client_start_ack_timer
unfoldable pub start_ack_timer : C ℕ
start_ack_timer s = start_timer (init_ack_timeout (with_num_retrans 0 s))

abbrev pub count_retrans : C ℕ
count_retrans s = (ok 0, with_num_retrans (s.client.num_retrans + 1) s)

-- coap_client_update_ack_timer
unfoldable pub update_ack_timer : C ℕ
update_ack_timer s =
    if leb max_retransmit s.client.num_retrans
    then (err etimedout, s)
    else (start_timer >> count_retrans) (double_timeout s)

-- coap_client_start_resp_timer
unfoldable pub start_resp_timer : C ℕ
start_resp_timer s = start_timer (init_resp_timeout s)
