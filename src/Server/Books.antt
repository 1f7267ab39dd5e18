-- ===== src/Server/Books.antt =====
-- What the functions of lib/src/coap_server.c leave behind on a transaction: the datagrams that they
-- send, the blocks of the allocator and the descriptors of timers.
use free_co_ap.Common.{
  ℕ, ◌+◌, Bool, true, false, List, [], ◌∷◌, ◌++◌, append-nil, ◌≡◌, refl, sym, ◌∙◌, ◌⊎◌, Bytes, All,
  arith,
}
use free_co_ap.Msg.{Msg, State, owned_blocks}
use free_co_ap.Msg.Destroy.{destroy_lem}
use free_co_ap.Msg.Leaks.{Balanced}
use free_co_ap.Server.{Trans, Job, cleared}
use free_co_ap.Server.Transfer.{drop_msg, trans_destroy, with_heap, fresh}

abbrev pub Datagram : Type 0
Datagram = Bytes × Bytes

-- A datagram to one receiver.
abbrev pub IsTo : Bytes → Datagram → Type 0
IsTo sin d = d.0 ≡ sin

pub All-append :
    (P : Datagram → Type 0) (xs ys : List Datagram) → All P xs → All P ys → All P (xs ++ ys)
All-append P [] ys h k = k
All-append P (x ∷ xs) ys h k = (h.0, All-append P xs ys h.1 k)

-- The blocks and the descriptors that a transaction owns.
abbrev pub trans_blocks : Trans → ℕ
trans_blocks t = owned_blocks t.req + owned_blocks t.resp

abbrev pub one_if : Bool → ℕ
one_if true = 1
one_if false = 0

-- From `base` to `k`, datagrams went to `sin` alone; the blocks in use are those of the transaction
-- and `extra` more, and the timers in use those of active transactions, with what was in use before.
pub record Books (sin : Bytes) (base : Job) (extra : ℕ) (k : Job) : Type 0 where
  pub news : List Datagram
  pub sent_is : k.shared.sent ≡ base.shared.sent ++ news
  pub to_sender : All (IsTo sin) news
  pub blocks :
      k.shared.heap.allocs + (base.shared.heap.frees + trans_blocks base.trans)
      ≡ base.shared.heap.allocs + (k.shared.heap.frees + trans_blocks k.trans + extra)
  pub timers :
      k.shared.opened + (base.shared.closed + one_if base.trans.active)
      ≡ base.shared.opened + (k.shared.closed + one_if k.trans.active)

-- The transaction goes on, with the same client.
pub record Live (sin : Bytes) (base : Job) (extra : ℕ) (k : Job) : Type 0 where
  pub books : Books sin base extra k
  pub active_is : k.trans.active ≡ true
  pub sin_is : k.trans.client_sin ≡ sin

-- The transaction was destroyed.
pub record Over (sin : Bytes) (base : Job) (extra : ℕ) (k : Job) : Type 0 where
  pub books : Books sin base extra k
  pub trans_is : k.trans ≡ cleared

-- The end of an exchange.
abbrev pub Served : Bytes → Job → Job → Type 0
Served sin base k = Live sin base 0 k ⊎ Over sin base 0 k

pub Live-refl : (j : Job) → j.trans.active ≡ true → Live j.trans.client_sin j 0 j
Live-refl j a = record {
  books = record {
    news = [];
    sent_is = sym (append-nil j.shared.sent);
    to_sender = tt;
    blocks = omega arith;
    timers = refl;
  };
  active_is = a;
  sin_is = refl;
}

module _ (sin : Bytes) (base : Job) where
  -- A step that changes none of it.
  pub quiet-Live :
      {extra : ℕ} (j k : Job)
      → Live sin base extra j
      → k.trans.active ≡ j.trans.active
      → k.trans.client_sin ≡ j.trans.client_sin
      → k.trans.req ≡ j.trans.req
      → k.trans.resp ≡ j.trans.resp
      → k.shared.heap ≡ j.shared.heap
      → k.shared.sent ≡ j.shared.sent
      → k.shared.opened ≡ j.shared.opened
      → k.shared.closed ≡ j.shared.closed
      → Live sin base extra k
  quiet-Live j k l a c q p h s o z = record {
    books = record {
      news = l.books.news;
      sent_is = s ∙ l.books.sent_is;
      to_sender = l.books.to_sender;
      blocks = rw (q, p, h) l.books.blocks;
      timers = rw (a, o, z) l.books.timers;
    };
    active_is = a ∙ l.active_is;
    sin_is = c ∙ l.sin_is;
  }

  -- The blocks that are in use, shared out anew.
  pub recount-Live :
      {extra : ℕ} (more : ℕ) (j k : Job)
      → Live sin base extra j
      → k.trans.active ≡ j.trans.active
      → k.trans.client_sin ≡ j.trans.client_sin
      → k.shared.sent ≡ j.shared.sent
      → k.shared.opened ≡ j.shared.opened
      → k.shared.closed ≡ j.shared.closed
      → k.shared.heap.allocs + (j.shared.heap.frees + trans_blocks j.trans + extra)
        ≡ j.shared.heap.allocs + (k.shared.heap.frees + trans_blocks k.trans + more)
      → Live sin base more k
  recount-Live {extra} more j k l a c s o z b = record {
    books = record {
      news = l.books.news;
      sent_is = s ∙ l.books.sent_is;
      to_sender = l.books.to_sender;
      blocks = let e = l.books.blocks in omega arith;
      timers = rw (a, o, z) l.books.timers;
    };
    active_is = a ∙ l.active_is;
    sin_is = c ∙ l.sin_is;
  }

  -- A message that is not the transaction's is made, and then owns blocks besides.
  pub with_heap-Live :
      {extra : ℕ} (j : Job) (b : State)
      → Live sin base extra j
      → Balanced (fresh j) b
      → Live sin base (owned_blocks b.msg + extra) (with_heap b.heap j)
  with_heap-Live {extra} j b l h =
      recount-Live (owned_blocks b.msg + extra) j _ l refl refl refl refl refl
        (let e = h.blocks in omega arith)

  -- Such a message is destroyed.
  pub drop_msg-Live :
      {extra : ℕ} (m : Msg) (j : Job)
      → Live sin base (owned_blocks m + extra) j
      → Live sin base extra (drop_msg m j)
  drop_msg-Live {extra} m j l =
      rw (destroy_lem (record { msg = m; heap = j.shared.heap }))
        (recount-Live extra j _ l refl refl refl refl refl (omega arith))

  pub trans_destroy-Over :
      {extra : ℕ} (j : Job) → Live sin base extra j → Over sin base extra (trans_destroy j)
  unfolding trans_destroy
  trans_destroy-Over {extra} j l =
      rw
        (
          destroy_lem (record { msg = j.trans.resp; heap = j.shared.heap }),
          destroy_lem (record {
            msg = j.trans.req;
            heap = record (j.shared.heap) {
              frees = j.shared.heap.frees + owned_blocks j.trans.resp;
            };
          }),
        )
        (record {
          books = record {
            news = l.books.news;
            sent_is = l.books.sent_is;
            to_sender = l.books.to_sender;
            blocks = let e = l.books.blocks in omega arith;
            timers =
                let one : one_if j.trans.active ≡ 1 = rw l.active_is in
                let e = l.books.timers in omega arith;
          };
          trans_is = refl;
        })

  pub drop_msg-Over :
      {extra : ℕ} (m : Msg) (j : Job)
      → Over sin base (owned_blocks m + extra) j
      → Over sin base extra (drop_msg m j)
  drop_msg-Over {extra} m j l =
      rw (destroy_lem (record { msg = m; heap = j.shared.heap })) (record {
        books = record {
          news = l.books.news;
          sent_is = l.books.sent_is;
          to_sender = l.books.to_sender;
          blocks = let e = l.books.blocks in omega arith;
          timers = l.books.timers;
        };
        trans_is = l.trans_is;
      })
