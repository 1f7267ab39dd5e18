-- ===== src/Server/Sweeps.antt =====
-- The table of transactions under coap_server_listen and coap_server_run (lib/src/coap_server.c).
use free_co_ap.Common.{
  ℕ, zero, suc, ◌+◌, ◌≤◌, Bool, true, false, ◌&&◌, List, [], ◌∷◌, ◌≡◌, refl, ap, ◌∙◌, inl, inr,
  Result, ok, err, stuck, Bytes, All, length, arith, Bool-cases,
}
use free_co_ap.Client.{Platform}
use free_co_ap.Server.{Trans, Shared, Job, Server, Handler}
use free_co_ap.Server.Transfer.{handle_ack_timeout}
use free_co_ap.Server.Exchange.{exchange}
use free_co_ap.Server.Run.{
  Wait, broken, ready, Sweep, fired, others, in_front, sweep_on, sweep, swept, goes_on, listen,
  is_transient, next_round, exchanged, run_loop, run,
}
use free_co_ap.Server.Books.{trans_blocks, Served, Live-refl}
use free_co_ap.Server.Deliveries.{handle_ack_timeout-Served}
use free_co_ap.Server.Serving.{Careful}
use free_co_ap.Server.Slots.{total}
use free_co_ap.Server.Invariant.{
  IsIdleOrActive, count_of, Tidy, busy, Accounted, Books-of, Served-IsIdleOrActive, Served-is_of,
  exchange-Orderly,
}

-- From a part of the table to what is left of it.
record Swept (ts : List Trans) (s : Shared) (us : List Trans) (t : Shared) : Type 0 where
  blocks :
      t.heap.allocs + (s.heap.frees + total trans_blocks ts)
      ≡ s.heap.allocs + (t.heap.frees + total trans_blocks us)
  timers : t.opened + (s.closed + total busy ts) ≡ s.opened + (t.closed + total busy us)
  size : length us ≡ length ts
  idle : All IsIdleOrActive ts → All IsIdleOrActive us
  fewer : (sin : Bytes) → count_of sin us ≤ count_of sin ts

Swept-refl : (ts : List Trans) (s : Shared) → Swept ts s ts s
Swept-refl ts s = record {
  blocks = omega arith;
  timers = omega arith;
  size = refl;
  idle = λ h. h;
  fewer = λ sin. omega arith;
}

abbrev Sweeps : List Trans → Shared → Sweep → Type 0
Sweeps ts s (r, us, t) = Swept ts s us t

-- The entry in front is left alone.
in_front-Sweeps :
    (x : Trans) (ts : List Trans) (s : Shared) (w : Sweep)
    → Sweeps ts s w
    → Sweeps (x ∷ ts) s (in_front x w)
in_front-Sweeps x ts s (r, us, t) h = record {
  blocks = let e = h.blocks in omega arith;
  timers = let e = h.timers in omega arith;
  size = ap suc h.size;
  idle = λ i. (i.0, h.idle i.1);
  fewer = λ sin. let e = h.fewer sin in omega arith;
}

-- The entry in front was changed, and then the rest.
after-Sweeps :
    (x : Trans) (ts : List Trans) (s : Shared) (j : Job) (w : Sweep)
    → x.active ≡ true
    → Served x.client_sin (record { trans = x; shared = s }) j
    → Sweeps ts j.shared w
    → Sweeps (x ∷ ts) s (in_front j.trans w)
after-Sweeps x ts s j (r, us, t) a served h =
    let base : Job = record { trans = x; shared = s } in
    let books = Books-of x.client_sin base j served in
    record {
      blocks = let e = h.blocks in let f = books.blocks in omega arith;
      timers = let e = h.timers in let f = books.timers in omega arith;
      size = ap suc h.size;
      idle = λ i. (Served-IsIdleOrActive x.client_sin base j served, h.idle i.1);
      fewer = λ sin.
          let e = h.fewer sin in
          let f = Served-is_of x.client_sin sin base j served a refl in omega arith;
    }

sweep_on-Sweeps :
    (x : Trans) (ts : List Trans) (s : Shared) (r : Result ℕ × Job) (rest : Shared → Sweep)
    → x.active ≡ true
    → Served x.client_sin (record { trans = x; shared = s }) r.1
    → ((t : Shared) → Sweeps ts t (rest t))
    → Sweeps (x ∷ ts) s (sweep_on ts rest r)
sweep_on-Sweeps x ts s (ok n, j) rest a served h =
    after-Sweeps x ts s j (rest j.shared) a served (h j.shared)
sweep_on-Sweeps x ts s (err e, j) rest a served h =
    after-Sweeps x ts s j (err e, ts, j.shared) a served (Swept-refl ts j.shared)
sweep_on-Sweeps x ts s (stuck, j) rest a served h =
    after-Sweeps x ts s j (stuck, ts, j.shared) a served (Swept-refl ts j.shared)

and_left : (a b : Bool) → (a && b) ≡ true → a ≡ true
and_left true b h = refl
and_left false b h = cc

sweep-Sweeps : (flags : List Bool) (ts : List Trans) (s : Shared) → Sweeps ts s (sweep flags ts s)
unfolding sweep
sweep-Sweeps flags [] s = Swept-refl [] s
sweep-Sweeps flags (x ∷ ts) s = elim (Bool-cases (x.active && fired flags)) [
  | inl e ↦ rw e (
      let j : Job = record { trans = x; shared = s } in
      let a = and_left x.active (fired flags) e in
      sweep_on-Sweeps x ts s (handle_ack_timeout j) (sweep (others flags) ts) a
        (handle_ack_timeout-Served x.client_sin j j (Live-refl j a))
        (sweep-Sweeps (others flags) ts))
  | inr e ↦
      rw e (in_front-Sweeps x ts s (sweep (others flags) ts s) (sweep-Sweeps (others flags) ts s))
]

-- The server keeps its table tidy, and loses nothing.
pub record Kept (s t : Server) : Type 0 where
  pub accounted : Accounted s t
  pub tidy : Tidy s.table → Tidy t.table

Kept-refl : (s : Server) → Kept s s
Kept-refl s = record {
  accounted = record { blocks = omega arith; timers = omega arith };
  tidy = λ h. h;
}

Kept-trans : (s t u : Server) → Kept s t → Kept t u → Kept s u
Kept-trans s t u h k = record {
  accounted = record {
    blocks = let a = h.accounted.blocks in let b = k.accounted.blocks in omega arith;
    timers = let a = h.accounted.timers in let b = k.accounted.timers in omega arith;
  };
  tidy = λ i. k.tidy (h.tidy i);
}

swept-Kept : (s : Server) (w : Sweep) → Sweeps s.table s.shared w → Kept s (swept s w).1
swept-Kept s (r, us, t) h = record {
  accounted = record { blocks = h.blocks; timers = h.timers };
  tidy = λ i. record {
    size = h.size ∙ i.size;
    idle = h.idle i.idle;
    single = λ sin. let e = h.fewer sin in let f = i.single sin in omega arith;
  };
}

goes_on-Kept :
    (s : Server) (ws : List Wait) (r : Result ℕ × Server)
    (k : Server → Result ℕ × Server × List Wait)
    → Kept s r.1
    → ((t : Server) → Kept t (k t).1)
    → Kept s (goes_on ws r k).1
goes_on-Kept s ws (ok n, t) k h i = Kept-trans s t _ h (i t)
goes_on-Kept s ws (err e, t) k h i = h
goes_on-Kept s ws (stuck, t) k h i = h

listen-Kept : (ws : List Wait) (s : Server) → Kept s (listen ws s).1
unfolding listen
listen-Kept [] s = Kept-refl s
listen-Kept (broken e ∷ ws) s = Kept-refl s
listen-Kept (ready true flags ∷ ws) s = Kept-refl s
listen-Kept (ready false flags ∷ ws) s =
    goes_on-Kept s ws (swept s (sweep flags s.table s.shared)) (listen ws)
      (swept-Kept s (sweep flags s.table s.shared) (sweep-Sweeps flags s.table s.shared))
      (listen-Kept ws)

next_round-Kept :
    (s : Server) (again : Server → Result ℕ × Server) (r : Result ℕ × Server)
    → Kept s r.1
    → Tidy r.1.table
    → ((t : Server) → Tidy t.table → Kept t (again t).1)
    → Kept s (next_round again r).1
next_round-Kept s again (ok n, t) h i k = Kept-trans s t _ h (k t i)
next_round-Kept s again (err e, t) h i k = elim (Bool-cases (is_transient e)) [
  | inl z ↦ rw z (Kept-trans s t _ h (k t i))
  | inr z ↦ rw z h
]
next_round-Kept s again (stuck, t) h i k = h

exchange-Kept :
    (p : Platform) (handle : Handler) (s : Server)
    → Careful handle
    → Tidy s.table
    → Kept s (exchange p handle s).1
exchange-Kept p handle s c h =
    let o = exchange-Orderly p handle s c h in record { accounted = o.accounted; tidy = o.tidy }

exchanged-Kept :
    (p : Platform) (handle : Handler) (again : List Wait → Server → Result ℕ × Server) (s : Server)
    (r : Result ℕ × Server × List Wait)
    → Careful handle
    → Kept s r.1
    → Tidy s.table
    → ((ws : List Wait) (t : Server) → Tidy t.table → Kept t (again ws t).1)
    → Kept s (exchanged p handle again r).1
exchanged-Kept p handle again s (ok n, t, ws) c h i k =
    let e = exchange-Kept p handle t c (h.tidy i) in
    next_round-Kept s (again ws) (exchange p handle t) (Kept-trans s t _ h e) (e.tidy (h.tidy i))
      (k ws)
exchanged-Kept p handle again s (err e, t, ws) c h i k = h
exchanged-Kept p handle again s (stuck, t, ws) c h i k = h

run_loop-Kept :
    (n : ℕ) (p : Platform) (handle : Handler) (ws : List Wait) (s : Server)
    → Careful handle
    → Tidy s.table
    → Kept s (run_loop n p handle ws s).1
unfolding run_loop
run_loop-Kept zero p handle ws s c h = Kept-refl s
run_loop-Kept (suc n) p handle ws s c h =
    exchanged-Kept p handle (run_loop n p handle) s (listen ws s) c (listen-Kept ws s) h
      λ vs t i. run_loop-Kept n p handle vs t c i

-- Through any number of rounds of coap_server_run, whatever select, the socket, the clock and the
-- allocator give, where the handler loses no block of its response and the table is tidy at the
-- start: the table is tidy at the end, and all blocks and timers in use are those of its
-- transactions, with what was in use besides.
pub run-Kept :
    (p : Platform) (handle : Handler) (ws : List Wait) (s : Server)
    → Careful handle
    → Tidy s.table
    → Kept s (run p handle ws s).1
run-Kept p handle ws s c h = run_loop-Kept (suc (length ws)) p handle ws s c h
