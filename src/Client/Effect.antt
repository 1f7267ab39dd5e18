-- ===== src/Client/Effect.antt =====
-- What the functions of lib/src/coap_client.c leave behind: the datagrams that they send, the
-- retransmissions that they count, the events that they use up and the blocks that they own.
use free_co_ap.Common.{
  ℕ, suc, ◌+◌, ◌*◌, ◌%◌, ◌≤◌, List, [], ◌∷◌, ◌++◌, append-nil, append_assoc, ◌≡◌, refl, sym, ◌∙◌,
  ◌⊎◌, inl, inr, Option, none, some, Errno, Result, ok, err, stuck, einval, Bytes, length, ltb,
  arith, ap, Heap, Bool-cases, if◌then◌else◌,
}
use free_co_ap.Common.Actions.{continue, ignore}
use free_co_ap.Msg.{Msg, check, destroy, free_ops, ack, rst, max_msg_id, owned_blocks}
use free_co_ap.Msg.Build.{set_type, set_msg_id}
use free_co_ap.Msg.Format.{format, format_hdr, format_token, format_ops, format_payload, to_be16}
use free_co_ap.Client.{Run, C, status, later, max_buf_len, max_retransmit}
use free_co_ap.Client.Transfer.{send, send_empty, deliver, next_send, destroyed_after}

-- The four bytes of an empty message.
abbrev pub empty_bytes : ℕ → ℕ → Bytes
empty_bytes type msg_id = (64 + type % 4 * 16) ∷ 0 ∷ to_be16 msg_id

-- What send_empty does, with the message library computed away.
abbrev pub empty_sent : ℕ → ℕ → C ℕ
empty_sent type msg_id s =
    if ltb max_msg_id msg_id
    then (err einval, s)
    else continue
        (deliver (status (next_send s.sends)) (empty_bytes type msg_id)
          (record s { sends = later s.sends }))
        λ _ t. (ok 0, t)

-- Destroying a message that owns nothing leaves the allocator as it is.
destroyed_after-deliver :
    (o : Option Errno) (buf : Bytes) (b : Msg) (s : Run)
    → ((h : Heap) → (destroy (record { msg = b; heap = h })).heap ≡ h)
    → destroyed_after (deliver o buf s) b ≡ continue (deliver o buf s) (λ _ t. (ok 0, t))
destroyed_after-deliver none buf b s h = rw (h s.heap)
destroyed_after-deliver (some e) buf b s h = rw (h s.heap)

pub send_empty-rst : (msg_id : ℕ) (s : Run) → send_empty rst msg_id s ≡ empty_sent rst msg_id s
unfolding send_empty set_type set_msg_id send format check format_hdr format_token format_ops
    format_payload to_be16 destroy free_ops
send_empty-rst msg_id s = elim (Bool-cases (ltb max_msg_id msg_id)) [
  | inl e ↦ rw e
  | inr e ↦ rw e (destroyed_after-deliver (status (next_send s.sends)) _ _ _ λ h. refl)
]

pub send_empty-ack : (msg_id : ℕ) (s : Run) → send_empty ack msg_id s ≡ empty_sent ack msg_id s
unfolding send_empty set_type set_msg_id send format check format_hdr format_token format_ops
    format_payload to_be16 destroy free_ops
send_empty-ack msg_id s = elim (Bool-cases (ltb max_msg_id msg_id)) [
  | inl e ↦ rw e
  | inr e ↦ rw e (destroyed_after-deliver (status (next_send s.sends)) _ _ _ λ h. refl)
]

-- Datagrams sent for a request: copies of it, which the index counts, and empty resets and
-- acknowledgements.
pub data Log (req : Msg) : ℕ → List Bytes → Type 0 where
  nothing : Log req 0 []
  request_copy :
      {n : ℕ} {ms : List Bytes} (m : Bytes)
      → format req max_buf_len ≡ ok m
      → Log req n ms
      → Log req (suc n) (m ∷ ms)
  empty_msg :
      {n : ℕ} {ms : List Bytes} (type msg_id : ℕ)
      → (type ≡ rst) ⊎ (type ≡ ack)
      → Log req n ms
      → Log req n (empty_bytes type msg_id ∷ ms)

Log-append :
    (req : Msg) {n k : ℕ} {ms news : List Bytes}
    → Log req n ms
    → Log req k news
    → Log req (n + k) (ms ++ news)
Log-append req {k = k} nothing l = rw (let e : 0 + k ≡ k = omega arith in e) l
Log-append req {k = k} (request_copy {n = n} m f h) l =
    rw (let e : suc n + k ≡ suc (n + k) = omega arith in e) (request_copy m f (Log-append req h l))
Log-append req (empty_msg t i c h) l = empty_msg t i c (Log-append req h l)

-- What is the same, or only grows or shrinks, from `s` to `t`.
pub record Effect (s t : Run) : Type 0 where
  pub news : List Bytes
  pub copies : ℕ
  pub sent_is : t.sent ≡ s.sent ++ news
  pub log : Log s.req copies news
  pub req_kept : t.req ≡ s.req
  pub counted : copies + s.client.num_retrans ≤ t.client.num_retrans
  pub capped : s.client.num_retrans ≤ max_retransmit → t.client.num_retrans ≤ max_retransmit
  pub waits_le : length t.waits ≤ length s.waits
  pub blocks :
      t.heap.allocs + (s.heap.frees + owned_blocks s.resp)
      ≡ s.heap.allocs + (t.heap.frees + owned_blocks t.resp)

pub Effect-refl : (s : Run) → Effect s s
Effect-refl s = record {
  news = [];
  copies = 0;
  sent_is = sym (append-nil s.sent);
  log = nothing;
  req_kept = refl;
  counted = omega arith;
  capped = λ h. h;
  waits_le = omega arith;
  blocks = refl;
}

Log-of : {a b : Msg} {n : ℕ} {ms : List Bytes} → a ≡ b → Log a n ms → Log b n ms
Log-of e l = rw (sym e) l

pub Effect-trans : (s t u : Run) → Effect s t → Effect t u → Effect s u
Effect-trans s t u h k = record {
  news = h.news ++ k.news;
  copies = h.copies + k.copies;
  sent_is = k.sent_is ∙ (ap (λ ms. ms ++ k.news) h.sent_is ∙ append_assoc s.sent h.news k.news);
  log = Log-append s.req h.log (Log-of h.req_kept k.log);
  req_kept = k.req_kept ∙ h.req_kept;
  counted = let a = h.counted in let b = k.counted in omega arith;
  capped = λ c. k.capped (h.capped c);
  waits_le = let a = h.waits_le in let b = k.waits_le in omega arith;
  blocks = let a = h.blocks in let b = k.blocks in omega arith;
}

pub continue-Effect :
    {A B : Type 0} (s : Run) (r : Result A × Run) (f : A → Run → Result B × Run)
    → Effect s r.1
    → ((a : A) (t : Run) → Effect t (f a t).1)
    → Effect s (continue r f).1
continue-Effect s (ok a, t) f h k = Effect-trans s t (f a t).1 h (k a t)
continue-Effect s (err e, t) f h k = h
continue-Effect s (stuck, t) f h k = h

pub ignore-Effect :
    {A : Type 0} (s : Run) (r : Result A × Run) → Effect s r.1 → Effect s (ignore r).1
ignore-Effect s (ok a, t) h = h
ignore-Effect s (err e, t) h = h
ignore-Effect s (stuck, t) h = h

-- A step that sends and leaves the counter, the events and the blocks alone.
pub Effect-of :
    (s t : Run) (news : List Bytes)
    → t.sent ≡ s.sent ++ news
    → Log s.req 0 news
    → t.req ≡ s.req
    → t.client.num_retrans ≡ s.client.num_retrans
    → t.waits ≡ s.waits
    → t.heap ≡ s.heap
    → t.resp ≡ s.resp
    → Effect s t
Effect-of s t news e l r n w h p = record {
  news = news;
  copies = 0;
  sent_is = e;
  log = l;
  req_kept = r;
  counted = omega arith;
  capped = λ c. rw n c;
  waits_le = rw w (let z : length s.waits ≤ length s.waits = omega arith in z);
  blocks = rw (h, p);
}

-- A step that sends nothing either.
pub quiet :
    (s t : Run)
    → t.sent ≡ s.sent
    → t.req ≡ s.req
    → t.client.num_retrans ≡ s.client.num_retrans
    → t.waits ≡ s.waits
    → t.heap ≡ s.heap
    → t.resp ≡ s.resp
    → Effect s t
quiet s t e r n w h p = Effect-of s t [] (e ∙ sym (append-nil s.sent)) nothing r n w h p

delivered_empty-Effect :
    (o : Option Errno) (type msg_id : ℕ) (s : Run)
    → (type ≡ rst) ⊎ (type ≡ ack)
    → Effect s
        (continue
          (deliver o (empty_bytes type msg_id) (record s { sends = later s.sends }))
          (λ _ t. (ok (let z : ℕ = 0 in z), t))).1
delivered_empty-Effect none type msg_id s c =
    Effect-of s _ (empty_bytes type msg_id ∷ []) refl (empty_msg type msg_id c nothing) refl refl
      refl refl refl
delivered_empty-Effect (some e) type msg_id s c = quiet s _ refl refl refl refl refl refl

empty_sent-Effect :
    (type msg_id : ℕ) (s : Run)
    → (type ≡ rst) ⊎ (type ≡ ack)
    → Effect s (empty_sent type msg_id s).1
empty_sent-Effect type msg_id s c = elim (Bool-cases (ltb max_msg_id msg_id)) [
  | inl e ↦ rw e (Effect-refl s)
  | inr e ↦ rw e (delivered_empty-Effect (status (next_send s.sends)) type msg_id s c)
]

pub send_empty-rst-Effect : (msg_id : ℕ) (s : Run) → Effect s (send_empty rst msg_id s).1
send_empty-rst-Effect msg_id s =
    rw (send_empty-rst msg_id s) (empty_sent-Effect rst msg_id s (inl refl))

pub send_empty-ack-Effect : (msg_id : ℕ) (s : Run) → Effect s (send_empty ack msg_id s).1
send_empty-ack-Effect msg_id s =
    rw (send_empty-ack msg_id s) (empty_sent-Effect ack msg_id s (inr refl))
