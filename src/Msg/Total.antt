-- ===== src/Msg/Total.antt =====
-- The loop of coap_msg_parse_ops ends, so coap_msg_parse always returns (lib/src/coap_msg.c).
use free_co_ap.Common.{
  ℕ, zero, suc, ◌+◌, ◌/◌, ◌%◌, ◌||◌, ◌==◌, ◌≤◌, ◌<◌, Bool, List, [], ◌∷◌, ◌≡◌, ◌≢◌, refl, ap, ◌⊎◌,
  inl, inr, Option, none, some, Heap, Result, ok, err, stuck, ebadmsg, ◌>>=◌, Bytes, drop, length,
  length-drop, get_last?, arith, Bool-cases,
}
use free_co_ap.Msg.{Op, Msg, State, continue, return, reset, check, zeroed}
use free_co_ap.Msg.Destroy.{destroy_lem}
use free_co_ap.Msg.Leaks.{from_ops, from_token}
use free_co_ap.Msg.Options.{op_new, add_last, add_with, place_last}
use free_co_ap.Msg.Wire.{parse_ext, parse_exts, parse_op_head, value_fits}
use free_co_ap.Msg.Parse.{
  parse_hdr, parse_token, parse_op, parse_op_add, parse_ops, parse_payload, parse_parts, parse,
  finish, at_end, op_num_after,
}

parse_ext-ne-stuck :
    (char_signed : Bool) (nib : ℕ) (buf : Bytes) → parse_ext char_signed nib buf ≢ stuck
unfolding parse_ext
parse_ext-ne-stuck char_signed nib buf = ground arith

-- What parse_op_head returns, where it returns: a value that stands behind a byte at least.
abbrev HeadReturns : Result (ℕ × ℕ × ℕ) → Type 0
HeadReturns (ok (delta, len, at)) = 1 ≤ at
HeadReturns (err e) = Unit
HeadReturns stuck = ⊥

len-HeadReturns :
    (delta n : ℕ) (window : Bytes) (r : Result (ℕ × ℕ))
    → r ≢ stuck
    → HeadReturns (r >>= λ x. value_fits delta x.0 (1 + n + x.1) (drop x.1 window))
len-HeadReturns delta n window (ok (len, k)) h = ground arith
len-HeadReturns delta n window (err e) h = tt
len-HeadReturns delta n window stuck h = absurd (h refl)

delta-HeadReturns :
    (char_signed : Bool) (b : ℕ) (buf : Bytes) (r : Result (ℕ × ℕ))
    → r ≢ stuck
    → HeadReturns (
        r >>= λ x. parse_ext char_signed (b % 16) (drop x.1 buf) >>= λ y.
        value_fits x.0 y.0 (1 + x.1 + y.1) (drop y.1 (drop x.1 buf)))
delta-HeadReturns char_signed b buf (ok (delta, n)) h =
    len-HeadReturns delta n (drop n buf) (parse_ext char_signed (b % 16) (drop n buf))
      (parse_ext-ne-stuck char_signed (b % 16) (drop n buf))
delta-HeadReturns char_signed b buf (err e) h = tt
delta-HeadReturns char_signed b buf stuck h = absurd (h refl)

parse_op_head-HeadReturns :
    (char_signed : Bool) (buf : Bytes) → HeadReturns (parse_op_head char_signed buf)
unfolding parse_op_head parse_exts
parse_op_head-HeadReturns char_signed [] = tt
parse_op_head-HeadReturns char_signed (b ∷ buf) =
    elim (Bool-cases (b / 16 % 16 == 15 || b % 16 == 15)) [
      | inl e ↦ rw e tt
      | inr e ↦ rw e (
          delta-HeadReturns char_signed b buf (parse_ext char_signed (b / 16 % 16) buf)
            (parse_ext-ne-stuck char_signed (b / 16 % 16) buf))
    ]

-- A call that returns, and takes a byte at least if it succeeds.
abbrev Advances : Result ℕ × State → Type 0
Advances (ok num, s) = 1 ≤ num
Advances (err e, s) = Unit
Advances (stuck, s) = ⊥

-- A call that returns.
abbrev Returns : Result ℕ × State → Type 0
Returns (ok num, s) = Unit
Returns (err e, s) = Unit
Returns (stuck, s) = ⊥

add_with-Returns :
    (place : Op → List Op → List Op) (m : Msg) (r : Option Op × Heap) → Returns (add_with place m r)
add_with-Returns place m (none, h) = tt
add_with-Returns place m (some op, h) = tt

continue-Advances :
    (r : Result ℕ × State) (k : ℕ) → Returns r → 1 ≤ k → Advances (continue r (λ _. return k))
continue-Advances (ok n, s) k h p = p
continue-Advances (err e, s) k h p = tt
continue-Advances (stuck, s) k h p = h

parse_op_add-Advances :
    (buf : Bytes) (r : Result (ℕ × ℕ × ℕ)) (s : State)
    → HeadReturns r
    → Advances (parse_op_add buf r s)
unfolding parse_op_add add_last
parse_op_add-Advances buf (ok (delta, len, at)) s h =
    continue-Advances (add_last (op_num_after (get_last? s.msg.op_list) delta) len (drop at buf) s)
      (at + len)
      (add_with-Returns place_last s.msg
        (op_new (op_num_after (get_last? s.msg.op_list) delta) len (drop at buf) s.heap))
      (omega arith)
parse_op_add-Advances buf (err e) s h = tt
parse_op_add-Advances buf stuck s h = h

parse_op-Advances :
    (char_signed : Bool) (buf : Bytes) (s : State) → Advances (parse_op char_signed buf s)
unfolding parse_op
parse_op-Advances char_signed buf s =
    parse_op_add-Advances buf (parse_op_head char_signed buf) s
      (parse_op_head-HeadReturns char_signed buf)

continue-Returns :
    (r : Result ℕ × State) (f : ℕ → State → Result ℕ × State)
    → Returns r
    → ((n : ℕ) (t : State) → Returns (f n t))
    → Returns (continue r f)
continue-Returns (ok n, s) f h k = k n s
continue-Returns (err e, s) f h k = tt
continue-Returns (stuck, s) f h k = h

round-Returns :
    (r : Result ℕ × State) (g : ℕ → State → Result ℕ × State)
    → Advances r
    → ((num : ℕ) (t : State) → 1 ≤ num → Returns (g num t))
    → Returns (continue r (λ num t. continue (g num t) (λ more. return (num + more))))
round-Returns (ok num, t) g a k =
    continue-Returns (g num t) (λ more. return (num + more)) (k num t a) (λ _ u. tt)
round-Returns (err e, t) g a k = tt
round-Returns (stuck, t) g a k = a

parse_ops-Returns :
    (fuel : ℕ) (char_signed : Bool) (buf : Bytes) (s : State)
    → length buf < fuel
    → Returns (parse_ops fuel char_signed buf s)
unfolding parse_ops
parse_ops-Returns zero char_signed buf s h = absurd (omega arith)
parse_ops-Returns (suc fuel) char_signed [] s h = tt
parse_ops-Returns (suc fuel) char_signed (b ∷ bs) s h = elim (Bool-cases (at_end (b ∷ bs))) [
  | inl e ↦ rw e tt
  | inr e ↦ rw e (
      round-Returns (parse_op char_signed (b ∷ bs) s)
        (λ num t. parse_ops fuel char_signed (drop num (b ∷ bs)) t)
        (parse_op-Advances char_signed (b ∷ bs) s)
        (λ num t p.
          parse_ops-Returns fuel char_signed (drop num (b ∷ bs)) t
            (omega (arith, length-drop num (b ∷ bs)))))
]

parse_hdr-Returns : (buf : Bytes) (s : State) → Returns (parse_hdr buf s)
unfolding parse_hdr
parse_hdr-Returns buf s = ground arith

parse_token-Returns : (buf : Bytes) (s : State) → Returns (parse_token buf s)
unfolding parse_token
parse_token-Returns buf s = ground arith

parse_payload-Returns : (buf : Bytes) (s : State) → Returns (parse_payload buf s)
unfolding parse_payload
parse_payload-Returns [] s = tt
parse_payload-Returns (b ∷ []) s = tt
parse_payload-Returns (b ∷ (c ∷ cs)) s = ground arith

parse_parts-Returns :
    (char_signed : Bool) (buf : Bytes) (s : State) → Returns (parse_parts char_signed buf s)
unfolding parse_parts
parse_parts-Returns char_signed buf s =
    let fuel = suc (length buf) in
    continue-Returns (parse_hdr buf s) (λ hdr. from_token fuel char_signed (drop hdr buf))
      (parse_hdr-Returns buf s)
      (λ hdr t.
        continue-Returns (parse_token (drop hdr buf) t)
          (λ token. from_ops fuel char_signed (drop token (drop hdr buf)))
          (parse_token-Returns (drop hdr buf) t)
          (λ token u.
            continue-Returns (parse_ops fuel char_signed (drop token (drop hdr buf)) u)
              (λ ops. parse_payload (drop ops (drop token (drop hdr buf))))
              (parse_ops-Returns fuel char_signed (drop token (drop hdr buf)) u
                (omega (arith, length-drop token (drop hdr buf), length-drop hdr buf)))
              (λ ops v. parse_payload-Returns (drop ops (drop token (drop hdr buf))) v)))

-- A part that succeeded.
abbrev pub IsOk : Result ℕ → Type 0
IsOk (ok n) = Unit
IsOk (err e) = ⊥
IsOk stuck = ⊥

-- How coap_msg_parse may end, `parts` being how its parts end: with the error of a part and a cleared
-- message, or with what coap_msg_check says of the message that the parts made, which is left as it
-- is, with all its blocks.
abbrev pub Ends : Result ℕ × State → Result ℕ × State → Type 0
Ends parts (ok num, s) = (num ≡ 0) × (check s.msg ≡ ok 0) × IsOk parts.0 × (s ≡ parts.1)
Ends parts (err e, s) =
    ((parts.0 ≡ err e) × (s.msg ≡ zeroed))
    ⊎ ((e ≡ ebadmsg) × (check s.msg ≡ err ebadmsg) × IsOk parts.0 × (s ≡ parts.1))
Ends parts (stuck, s) = ⊥

checked-Ends : (n : ℕ) (s : State) → Ends (ok n, s) (check s.msg, s)
unfolding check
checked-Ends n s = ground arith

finish-Ends : (r : Result ℕ × State) → Returns r → Ends r (finish r)
finish-Ends (ok n, s) h = checked-Ends n s
finish-Ends (err e, s) h = inl (refl, ap (λ t. t.msg) (destroy_lem s))
finish-Ends (stuck, s) h = h

-- On every input, in every state and for either kind of `char`, coap_msg_parse returns. Where one of
-- its parts fails it returns that error and leaves the message cleared. Otherwise it leaves the
-- message, and the allocator, as the parts have made them of the input, and returns 0 where that
-- message passes coap_msg_check and EBADMSG where it does not.
pub parse-Ends :
    (char_signed : Bool) (buf : Bytes) (s : State)
    → Ends (parse_parts char_signed buf (reset s)) (parse char_signed buf s)
unfolding parse
parse-Ends char_signed buf s =
    finish-Ends (parse_parts char_signed buf (reset s))
      (parse_parts-Returns char_signed buf (reset s))
