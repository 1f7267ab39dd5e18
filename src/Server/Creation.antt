-- ===== src/Server/Creation.antt =====
-- The books of coap_server_trans_create, and of an exchange with a new client (lib/src/coap_server.c).
use free_co_ap.Common.{
  ℕ, suc, true, List, [], append-nil, ◌≡◌, refl, sym, ap, ◌∙◌, inr, Option, none, some, Result, ok,
  err, stuck, Bytes, arith,
}
use free_co_ap.Client.{Platform}
use free_co_ap.Server.{Job, Handler, cleared, touch}
use free_co_ap.Server.Transfer.{trans_destroy}
use free_co_ap.Server.Table.{trans_create, opened_timer, print_address}
use free_co_ap.Server.Exchange.{serve_created, serve_new}
use free_co_ap.Server.Books.{
  Live, Over, Served, one_if, trans_blocks, Live-refl, trans_destroy-Over,
}
use free_co_ap.Server.Serving.{Careful, serve-Served}

-- An entry that no client has.
pub idle-Over : (sin : Bytes) (j : Job) → j.trans ≡ cleared → Over sin j 0 j
idle-Over sin j e = record {
  books = record {
    news = [];
    sent_is = sym (append-nil j.shared.sent);
    to_sender = tt;
    blocks = omega arith;
    timers = refl;
  };
  trans_is = e;
}

-- The transaction of another client is destroyed; nothing is sent.
pub evicted-Over : (sin : Bytes) (j : Job) → j.trans.active ≡ true → Over sin j 0 (trans_destroy j)
unfolding trans_destroy
evicted-Over sin j a =
    let o = trans_destroy-Over j.trans.client_sin j j (Live-refl j a) in
    record {
      books = record {
        news = [];
        sent_is = sym (append-nil j.shared.sent);
        to_sender = tt;
        blocks = o.books.blocks;
        timers = o.books.timers;
      };
      trans_is = refl;
    }

module _ (sin : Bytes) (base : Job) where
  -- Where no transaction was, one that owns nothing stands, or none.
  abbrev Started : Result ℕ × Job → Type 0
  Started (ok n, j) = Live sin base 0 j
  Started (err e, j) = Over sin base 0 j
  Started (stuck, j) = Over sin base 0 j

  -- A timer was opened since `b`.
  record Opened (b j : Job) : Type 0 where
    active_is : j.trans.active ≡ true
    sin_is : j.trans.client_sin ≡ sin
    heap_is : j.shared.heap ≡ b.shared.heap
    sent_is : j.shared.sent ≡ b.shared.sent
    opened_is : j.shared.opened ≡ suc b.shared.opened
    closed_is : j.shared.closed ≡ b.shared.closed

  print_address-Started :
      (o : Option ℕ) (b j : Job) → Over sin base 0 b → Opened b j → Started (print_address o j)
  print_address-Started none b j l h =
      let owned : trans_blocks b.trans ≡ 0 = rw l.trans_is in
      let idle : one_if b.trans.active ≡ 0 = rw l.trans_is in
      let busy : one_if j.trans.active ≡ 1 = rw h.active_is in
      record {
        books = record {
          news = l.books.news;
          sent_is = h.sent_is ∙ l.books.sent_is;
          to_sender = l.books.to_sender;
          blocks = rw h.heap_is (let e = l.books.blocks in omega arith);
          timers = rw (h.opened_is, h.closed_is) (let e = l.books.timers in omega arith);
        };
        active_is = h.active_is;
        sin_is = h.sin_is;
      }
  print_address-Started (some e) b j l h =
      let owned : trans_blocks b.trans ≡ 0 = rw l.trans_is in
      let idle : one_if b.trans.active ≡ 0 = rw l.trans_is in
      record {
        books = record {
          news = l.books.news;
          sent_is = h.sent_is ∙ l.books.sent_is;
          to_sender = l.books.to_sender;
          blocks = rw h.heap_is (let e = l.books.blocks in omega arith);
          timers = rw (h.opened_is, h.closed_is) (let e = l.books.timers in omega arith);
        };
        trans_is = refl;
      }

  opened_timer-Started :
      (o : Option ℕ) (b j : Job)
      → Over sin base 0 b
      → j.trans.active ≡ true
      → j.shared.heap ≡ b.shared.heap
      → j.shared.sent ≡ b.shared.sent
      → j.shared.opened ≡ b.shared.opened
      → j.shared.closed ≡ b.shared.closed
      → Started (opened_timer o sin j)
  opened_timer-Started none b j l a h s o c = print_address-Started _ b _ l (record {
    active_is = a;
    sin_is = refl;
    heap_is = h;
    sent_is = s;
    opened_is = ap suc o;
    closed_is = c;
  })
  opened_timer-Started (some e) b j l a h s o c =
      let owned : trans_blocks b.trans ≡ 0 = rw l.trans_is in
      let idle : one_if b.trans.active ≡ 0 = rw l.trans_is in
      record {
        books = record {
          news = l.books.news;
          sent_is = s ∙ l.books.sent_is;
          to_sender = l.books.to_sender;
          blocks = rw h (let e = l.books.blocks in omega arith);
          timers = rw (o, c) (let e = l.books.timers in omega arith);
        };
        trans_is = refl;
      }

  trans_create-Started : (j : Job) → Over sin base 0 j → Started (trans_create sin j)
  unfolding trans_create touch
  trans_create-Started j l = opened_timer-Started _ j _ l refl refl refl refl refl

  serve_created-Served :
      (p : Platform) (handle : Handler) (sep_list : List Bytes) (r : Result ℕ × Job)
      → Careful handle
      → Started r
      → Served sin base (serve_created p handle sep_list r).1
  serve_created-Served p handle sep_list (ok n, j) c l =
      serve-Served sin base handle c p sep_list j l
  serve_created-Served p handle sep_list (err e, j) c l = inr l
  serve_created-Served p handle sep_list (stuck, j) c l = inr l

  -- The first message of a client whose transaction takes an entry that is free.
  pub serve_new-Served :
      (p : Platform) (handle : Handler) (sep_list : List Bytes) (j : Job)
      → Careful handle
      → Over sin base 0 j
      → Served sin base (serve_new p handle sep_list sin j).1
  unfolding serve_new
  serve_new-Served p handle sep_list j c l =
      serve_created-Served p handle sep_list (trans_create sin j) c (trans_create-Started j l)
