-- ===== src/Server/Run.antt =====
-- lib/src/coap_server.c: coap_server_listen and coap_server_run.
use free_co_ap.Common.{
  ℕ, zero, suc, Bool, true, false, ◌&&◌, ◌||◌, List, [], ◌∷◌, Errno, Result, ok, err, stuck,
  econnreset, os, length, ◌==◌, if◌then◌else◌,
}
use free_co_ap.Client.{Platform}
use free_co_ap.Server.{Trans, Shared, Job, Server, Handler}
use free_co_ap.Server.Transfer.{is_timeout, handle_ack_timeout}
use free_co_ap.Server.Exchange.{exchange}

-- What select returns: an error, or whether the socket is readable and which of the timers are.
pub data Wait : Type 0 where
  broken : ℕ → Wait
  ready : Bool → List Bool → Wait

-- The transactions looked at, the rest, and what they share.
abbrev pub Sweep : Type 0
Sweep = Result ℕ × List Trans × Shared

abbrev pub fired : List Bool → Bool
fired [] = false
fired (f ∷ fs) = f

abbrev pub others : List Bool → List Bool
others [] = []
others (f ∷ fs) = fs

abbrev pub in_front : Trans → Sweep → Sweep
in_front t (r, ts, s) = (r, t ∷ ts, s)

abbrev pub sweep_on : List Trans → (Shared → Sweep) → Result ℕ × Job → Sweep
sweep_on ts rest (ok n, j) = in_front j.trans (rest j.shared)
sweep_on ts rest (err e, j) = (err e, j.trans ∷ ts, j.shared)
sweep_on ts rest (stuck, j) = (stuck, j.trans ∷ ts, j.shared)

-- The loop of coap_server_listen over the transactions whose timers fired.
unfoldable pub sweep : List Bool → List Trans → Shared → Sweep
sweep flags [] s = (ok 0, [], s)
sweep flags (t ∷ ts) s =
    if t.active && fired flags
    then sweep_on ts (sweep (others flags) ts)
        (handle_ack_timeout (record { trans = t; shared = s }))
    else in_front t (sweep (others flags) ts s)

abbrev pub swept : Server → Sweep → Result ℕ × Server
swept s (r, ts, shared) = (r, record s { table = ts; shared = shared })

abbrev pub goes_on {ℓ} :
    {B : Type ℓ} → B → Result ℕ × Server → (Server → Result ℕ × Server × B) → Result ℕ × Server × B
goes_on b (ok n, s) k = k s
goes_on b (err e, s) k = (err e, s, b)
goes_on b (stuck, s) k = (stuck, s, b)

-- coap_server_listen, with the results of the coming calls of select, and those left.
unfoldable pub listen : List Wait → Server → Result ℕ × Server × List Wait
listen [] s = (stuck, s, [])
listen (broken e ∷ ws) s = (err (os e), s, ws)
listen (ready true flags ∷ ws) s = (ok 0, s, ws)
listen (ready false flags ∷ ws) s = goes_on ws (swept s (sweep flags s.table s.shared)) (listen ws)

-- The errors that coap_server_run goes on after; ECONNRESET is 104.
abbrev pub is_transient : Errno → Bool
is_transient econnreset = true
is_transient (os e) = e == 110 || e == 104
is_transient e = is_timeout e

abbrev pub next_round : (Server → Result ℕ × Server) → Result ℕ × Server → Result ℕ × Server
next_round again (ok n, s) = again s
next_round again (err e, s) = if is_transient e then again s else (err e, s)
next_round again (stuck, s) = (stuck, s)

abbrev pub exchanged :
    Platform
    → Handler
    → (List Wait → Server → Result ℕ × Server)
    → Result ℕ × Server × List Wait
    → Result ℕ × Server
exchanged p handle again (ok n, s, ws) = next_round (again ws) (exchange p handle s)
exchanged p handle again (err e, s, ws) = (err e, s)
exchanged p handle again (stuck, s, ws) = (stuck, s)

-- coap_server_run, for a number of rounds.
unfoldable pub run_loop : ℕ → Platform → Handler → List Wait → Server → Result ℕ × Server
run_loop zero p handle ws s = (stuck, s)
run_loop (suc n) p handle ws s = exchanged p handle (run_loop n p handle) (listen ws s)

-- Each round takes one result of select at least.
abbrev pub run : Platform → Handler → List Wait → Server → Result ℕ × Server
run p handle ws s = run_loop (suc (length ws)) p handle ws s
