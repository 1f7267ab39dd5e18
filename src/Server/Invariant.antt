-- ===== src/Server/Invariant.antt =====
-- The table of transactions under coap_server_exchange (lib/src/coap_server.c): one transaction for
-- each client, and nothing lost.
use free_co_ap.Common.{
  ℕ, zero, suc, ◌+◌, ◌≤◌, ◌<◌, Bool, true, false, not, List, [], ◌∷◌, ◌++◌, append-nil, ◌≡◌, refl,
  sym, ◌∙◌, inl, inr, Option, none, some, Bytes, All, length, arith, Bool-cases,
}
use free_co_ap.Client.{Platform, next_timer}
use free_co_ap.Server.{Trans, Job, Server, Handler, cleared, num_trans}
use free_co_ap.Server.Transfer.{arrived, used_recv, trans_destroy, same_address}
use free_co_ap.Server.Table.{
  is_of, find_trans, find_empty_trans, find_oldest_trans, entry, replace, job_at,
}
use free_co_ap.Server.Exchange.{place_new, dispatch, accepted, exchange}
use free_co_ap.Server.Books.{Datagram, IsTo, trans_blocks, one_if, Books, Served, Live-refl}
use free_co_ap.Server.Serving.{Careful, serve-Served}
use free_co_ap.Server.Creation.{idle-Over, evicted-Over, serve_new-Served}
use free_co_ap.Server.Slots.{
  total, total-replace, length-replace, find_index-some, find_index-none, find_oldest_trans_lt,
  same_address_eq,
}

-- An entry that is not active is cleared.
abbrev pub IsIdleOrActive : Trans → Type 0
IsIdleOrActive t = t.active ≡ false → t ≡ cleared

-- The entries with a transaction of a client.
abbrev pub count_of : Bytes → List Trans → ℕ
count_of sin ts = total (λ t. one_if (is_of sin t)) ts

-- A table of eight entries, the inactive ones cleared, with one transaction for a client at most.
pub record Tidy (ts : List Trans) : Type 0 where
  pub size : length ts ≡ num_trans
  pub idle : All IsIdleOrActive ts
  pub single : (sin : Bytes) → count_of sin ts ≤ 1

abbrev pub busy : Trans → ℕ
busy t = one_if t.active

-- From `s` to `t`, the blocks in use that the table does not own stay as many, and the timers' descriptors too.
pub record Accounted (s t : Server) : Type 0 where
  pub blocks :
      t.shared.heap.allocs + (s.shared.heap.frees + total trans_blocks s.table)
      ≡ s.shared.heap.allocs + (t.shared.heap.frees + total trans_blocks t.table)
  pub timers :
      t.shared.opened + (s.shared.closed + total busy s.table)
      ≡ s.shared.opened + (t.shared.closed + total busy t.table)

-- Besides, the table stays tidy, and what is sent goes to one client.
pub record Orderly (sin : Bytes) (s t : Server) : Type 0 where
  pub accounted : Accounted s t
  pub tidy : Tidy s.table → Tidy t.table
  pub news : List Datagram
  pub sent_is : t.shared.sent ≡ s.shared.sent ++ news
  pub to_sender : All (IsTo sin) news

All-replace :
    (P : Trans → Type 0) (i : ℕ) (t : Trans) (ts : List Trans)
    → P t
    → All P ts
    → All P (replace i t ts)
unfolding replace
All-replace P i t [] p h = tt
All-replace P zero t (x ∷ xs) p h = (p, h.1)
All-replace P (suc i) t (x ∷ xs) p h = (h.0, All-replace P i t xs p h.1)

pub Books-of : (sin : Bytes) (base k : Job) → Served sin base k → Books sin base 0 k
Books-of sin base k (inl l) = l.books
Books-of sin base k (inr o) = o.books

pub Served-IsIdleOrActive :
    (sin : Bytes) (base k : Job) → Served sin base k → IsIdleOrActive k.trans
Served-IsIdleOrActive sin base k (inl l) = λ e. let z = l.active_is in cc
Served-IsIdleOrActive sin base k (inr o) = λ e. o.trans_is

-- No client has a cleared entry, and the client of a transaction that goes on has it still.
pub Served-is_of :
    (sin other : Bytes) (base k : Job)
    → Served sin base k
    → base.trans.active ≡ true
    → base.trans.client_sin ≡ sin
    → one_if (is_of other k.trans) ≤ one_if (is_of other base.trans)
Served-is_of sin other base k (inl l) a c = rw (a, c, l.active_is, l.sin_is) (omega arith)
Served-is_of sin other base k (inr o) a c = rw o.trans_is (omega arith)

-- An entry put back after an exchange.
put_back-Orderly :
    (sin : Bytes) (i : ℕ) (s : Server) (k : Job)
    → i < length s.table
    → Served sin (job_at i s) k
    → ((other : Bytes)
        → Tidy s.table
        → count_of other s.table + one_if (is_of other k.trans)
          ≤ 1 + one_if (is_of other (entry i s.table)))
    → Orderly sin s (record s { table = replace i k.trans s.table; shared = k.shared })
put_back-Orderly sin i s k lt served single =
    let books = Books-of sin (job_at i s) k served in
    record {
      accounted = record {
        blocks =
            let e = books.blocks in
            let z = total-replace trans_blocks i k.trans s.table lt in omega arith;
        timers =
            let e = books.timers in let z = total-replace busy i k.trans s.table lt in omega arith;
      };
      tidy = λ h. record {
        size = length-replace i k.trans s.table ∙ h.size;
        idle =
            All-replace IsIdleOrActive i k.trans s.table
              (Served-IsIdleOrActive sin (job_at i s) k served) h.idle;
        single = λ other.
            let z = total-replace (λ t. one_if (is_of other t)) i k.trans s.table lt in
            let one = single other h in omega arith;
      };
      news = books.news;
      sent_is = books.sent_is;
      to_sender = books.to_sender;
    }

All-entry : (P : Trans → Type 0) (i : ℕ) (ts : List Trans) → P cleared → All P ts → P (entry i ts)
unfolding entry
All-entry P i [] c h = c
All-entry P zero (t ∷ ts) c h = h.0
All-entry P (suc i) (t ∷ ts) c h = All-entry P i ts c h.1

entry_zero :
    (f : Trans → ℕ) (i : ℕ) (ts : List Trans) → i < length ts → total f ts ≡ 0 → f (entry i ts) ≡ 0
unfolding entry
entry_zero f i [] lt z = absurd (omega arith)
entry_zero f zero (t ∷ ts) lt z = omega arith
entry_zero f (suc i) (t ∷ ts) lt z = entry_zero f i ts (omega arith) (omega arith)

active_of : (t : Trans) → one_if (not t.active) ≡ 0 → t.active ≡ true
active_of t h = elim (Bool-cases t.active) [
  | inl e ↦ e
  | inr e ↦ let z : one_if (not t.active) ≡ 1 = rw e in absurd (omega arith)
]

one_if_le : (b : Bool) → one_if b ≤ 1
one_if_le true = omega arith
one_if_le false = omega arith

-- A client that no entry had takes one.
new_single :
    (sin other : Bytes) (base k : Job) (ts : List Trans)
    → Served sin base k
    → count_of sin ts ≡ 0
    → count_of other ts ≤ 1
    → count_of other ts + one_if (is_of other k.trans) ≤ 1
new_single sin other base k ts (inl l) z c = elim (Bool-cases (is_of other k.trans)) [
  | inl e ↦
      let same : same_address sin other ≡ true = let f = rw (l.active_is, l.sin_is) at e in f in
      let z' : count_of other ts ≡ 0 = rw (← same_address_eq sin other same) z in
      let one = one_if_le (is_of other k.trans) in omega arith
  | inr e ↦ let none_is : one_if (is_of other k.trans) ≡ 0 = rw e in omega arith
]
new_single sin other base k ts (inr o) z c =
    let none_is : one_if (is_of other k.trans) ≡ 0 = rw o.trans_is in omega arith

false_of : (b : Bool) → not b ≡ true → b ≡ false
false_of true h = cc
false_of false h = refl

is_of_parts :
    (sin : Bytes) (t : Trans) → is_of sin t ≡ true → (t.active ≡ true) × (t.client_sin ≡ sin)
is_of_parts sin t h = elim (Bool-cases t.active) [
  | inl e ↦ (e, same_address_eq t.client_sin sin (rw e at h))
  | inr e ↦ let z = rw e at h in cc
]

module _ (p : Platform) (handle : Handler) (careful : Careful handle) (s : Server)
    (tidy : Tidy s.table) where
  place_new-Orderly :
      (sin : Bytes) (r : Option ℕ)
      → find_trans sin s.table ≡ none
      → find_empty_trans s.table ≡ r
      → Orderly sin s (place_new p handle sin r s).1
  place_new-Orderly sin (some i) e f =
      let found = find_index-some (λ t. not t.active) s.table i f in
      let idle : entry i s.table ≡ cleared =
        All-entry IsIdleOrActive i s.table (λ _. refl) tidy.idle (false_of _ found.1) in
      let served =
        serve_new-Served sin (job_at i s) p handle s.sep_list (job_at i s) careful
          (idle-Over sin (job_at i s) idle) in
      put_back-Orderly sin i s _ found.0 served λ other h.
        let one =
          new_single sin other (job_at i s) _ s.table served (find_index-none (is_of sin) s.table e)
            (h.single other) in
        omega arith
  place_new-Orderly sin none e f =
      let i = find_oldest_trans s.table in
      let lt : i < length s.table =
        find_oldest_trans_lt s.table (let z = tidy.size in omega arith) in
      let active : (entry i s.table).active ≡ true =
        active_of (entry i s.table)
          (entry_zero _ i s.table lt (find_index-none (λ t. not t.active) s.table f)) in
      let served =
        serve_new-Served sin (job_at i s) p handle s.sep_list (trans_destroy (job_at i s)) careful
          (evicted-Over sin (job_at i s) active) in
      put_back-Orderly sin i s _ lt served λ other h.
        let one =
          new_single sin other (job_at i s) _ s.table served (find_index-none (is_of sin) s.table e)
            (h.single other) in
        omega arith

  dispatch-Orderly :
      (sin : Bytes) (r : Option ℕ)
      → find_trans sin s.table ≡ r
      → Orderly sin s (dispatch p handle sin r s).1
  dispatch-Orderly sin none e = place_new-Orderly sin (find_empty_trans s.table) e refl
  dispatch-Orderly sin (some i) e =
      let found = find_index-some (is_of sin) s.table i e in
      let both = is_of_parts sin (entry i s.table) found.1 in
      let served =
        serve-Served sin (job_at i s) handle careful p s.sep_list (job_at i s)
          (rw (← both.1) (Live-refl (job_at i s) both.0)) in
      put_back-Orderly sin i s _ found.0 served λ other h.
        let le = Served-is_of sin other (job_at i s) _ served both.0 both.1 in
        let one = h.single other in omega arith

abbrev pub first_sender : List Datagram → Bytes
first_sender [] = []
first_sender (d ∷ ds) = d.0

-- The books do not see a look at the socket.
peeked-Orderly :
    (sin : Bytes) (s t : Server)
    → Orderly sin (record s { shared = used_recv s.shared }) t
    → Orderly sin s t
peeked-Orderly sin s t h = record {
  accounted = record { blocks = h.accounted.blocks; timers = h.accounted.timers };
  tidy = h.tidy;
  news = h.news;
  sent_is = h.sent_is;
  to_sender = h.to_sender;
}

Orderly-refl : (sin : Bytes) (s : Server) → Orderly sin s s
Orderly-refl sin s = record {
  accounted = record { blocks = omega arith; timers = omega arith };
  tidy = λ h. h;
  news = [];
  sent_is = sym (append-nil s.shared.sent);
  to_sender = tt;
}

accepted-Orderly :
    (p : Platform) (handle : Handler) (s : Server) (o : Option ℕ) (queue : List Datagram)
    → Careful handle
    → Tidy s.table
    → Orderly (first_sender queue) s (accepted p handle s (arrived o queue, used_recv s.shared)).1
accepted-Orderly p handle s (some e) queue c h =
    peeked-Orderly (first_sender queue) s _ (Orderly-refl (first_sender queue) _)
accepted-Orderly p handle s none [] c h = peeked-Orderly [] s _ (Orderly-refl [] _)
accepted-Orderly p handle s none ((sin, datagram) ∷ queue) c h = peeked-Orderly sin s _ (
    dispatch-Orderly p handle c (record s { shared = used_recv s.shared }) h sin
      (find_trans sin s.table) refl)

-- Whatever happens in an exchange, and whatever it returns, where the handler loses no block of its
-- response and the table is tidy: the table stays tidy, so that no client has two transactions; the
-- blocks and the descriptors of timers that are in use are those of the table, with what was in use
-- besides; and every datagram sent goes to the sender of the first datagram at the socket.
pub exchange-Orderly :
    (p : Platform) (handle : Handler) (s : Server)
    → Careful handle
    → Tidy s.table
    → Orderly (first_sender s.shared.queue) s (exchange p handle s).1
unfolding exchange
exchange-Orderly p handle s c h =
    accepted-Orderly p handle s (next_timer s.shared.recvs) s.shared.queue c h
