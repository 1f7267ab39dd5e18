-- ===== src/Msg/Leaks.antt =====
-- No function of lib/src/coap_msg.c loses a block or frees one twice.
use free_co_ap.Common.{
  ℕ, zero, suc, ◌+◌, Bool, true, false, List, [], ◌∷◌, ◌≡◌, refl, ◌∙◌, Option, none, some, Heap,
  Result, ok, err, stuck, Bytes, drop, length, length-append, get_last?, arith, Bool-cases, inl,
  inr,
}
use free_co_ap.Msg.{Op, State, continue, return, reset, destroy, owned_blocks}
use free_co_ap.Msg.Options.{
  op_new, add_last, add_sorted, place_after, place_sorted, add_with, place_last,
}
use free_co_ap.Msg.Wire.{parse_op_head}
use free_co_ap.Msg.Parse.{
  parse_hdr, parse_token, parse_op, parse_op_add, parse_ops, parse_payload, parse_parts, parse,
  finish, at_end, op_num_after,
}
use free_co_ap.Msg.Destroy.{destroy_lem}

-- The blocks in use that the message does not own are as many in `s'` as in `s`.
pub record Balanced (s s' : State) : Type 0 where
  pub blocks :
      s'.heap.allocs + (s.heap.frees + owned_blocks s.msg)
      ≡ s.heap.allocs + (s'.heap.frees + owned_blocks s'.msg)

-- Besides, the payload is left alone.
pub record Keeps (s s' : State) : Type 0 where
  pub balanced : Balanced s s'
  pub payload_kept : s'.msg.payload ≡ s.msg.payload

pub Balanced-refl : (s : State) → Balanced s s
Balanced-refl s = omega arith

pub Keeps-refl : (s : State) → Keeps s s
Keeps-refl s = record { balanced = Balanced-refl s; payload_kept = refl }

pub Balanced-trans : (s t u : State) → Balanced s t → Balanced t u → Balanced s u
Balanced-trans s t u h k = omega arith

Keeps-trans : (s t u : State) → Keeps s t → Keeps t u → Keeps s u
Keeps-trans s t u h k = record {
  balanced = Balanced-trans s t u h.balanced k.balanced;
  payload_kept = k.payload_kept ∙ h.payload_kept;
}

-- A chain of calls keeps what its parts keep.
pub continue-Keeps :
    {A B : Type 0} (s : State) (r : Result A × State) (f : A → State → Result B × State)
    → Keeps s r.1
    → ((a : A) (t : State) → Keeps t (f a t).1)
    → Keeps s (continue r f).1
continue-Keeps s (ok a, t) f h k = Keeps-trans s t (f a t).1 h (k a t)
continue-Keeps s (err e, t) f h k = h
continue-Keeps s (stuck, t) f h k = h

-- The same, where the last part needs a message with no payload.
continue-Balanced :
    {A B : Type 0} (s : State) (r : Result A × State) (f : A → State → Result B × State)
    → Keeps s r.1
    → s.msg.payload ≡ none
    → ((a : A) (t : State) → t.msg.payload ≡ none → Balanced t (f a t).1)
    → Balanced s (continue r f).1
continue-Balanced s (ok a, t) f h e k =
    Balanced-trans s t (f a t).1 h.balanced (k a t (h.payload_kept ∙ e))
continue-Balanced s (err e, t) f h n k = h.balanced
continue-Balanced s (stuck, t) f h n k = h.balanced

parse_hdr-Keeps : (buf : Bytes) (s : State) → Keeps s (parse_hdr buf s).1
unfolding parse_hdr
parse_hdr-Keeps buf s = ground arith

parse_token-Keeps : (buf : Bytes) (s : State) → Keeps s (parse_token buf s).1
unfolding parse_token
parse_token-Keeps buf s = ground arith

abbrev option_blocks : Option Op → ℕ
option_blocks none = 0
option_blocks (some _) = 2

-- From `h` on, as many blocks are in use as the result needs.
abbrev Allocates : Heap → Option Op × Heap → Type 0
Allocates h (r, h') = h'.allocs + h.frees ≡ h.allocs + h'.frees + option_blocks r

op_new_from :
    (num len : ℕ) (val : Bytes) (outcomes : List Bool) (a f : ℕ)
    → Allocates
        (record { outcomes = outcomes; allocs = a; frees = f })
        (op_new num len val (record { outcomes = outcomes; allocs = a; frees = f }))
unfolding op_new
op_new_from num len val [] a f = omega arith
op_new_from num len val (false ∷ bs) a f = omega arith
op_new_from num len val (true ∷ []) a f = omega arith
op_new_from num len val (true ∷ (true ∷ bs)) a f = omega arith
op_new_from num len val (true ∷ (false ∷ bs)) a f = omega arith

op_new-Allocates : (num len : ℕ) (val : Bytes) (h : Heap) → Allocates h (op_new num len val h)
op_new-Allocates num len val h = op_new_from num len val h.outcomes h.allocs h.frees

add_with-Keeps :
    (place : Op → List Op → List Op) (s : State) (r : Option Op × Heap)
    → ((op : Op) → length (place op s.msg.op_list) ≡ suc (length s.msg.op_list))
    → Allocates s.heap r
    → Keeps s (add_with place s.msg r).1
add_with-Keeps place s (none, h) one a = record { balanced = omega arith; payload_kept = refl }
add_with-Keeps place s (some op, h) one a = record {
  balanced = omega (arith, one op);
  payload_kept = refl;
}

add_last-Keeps : (num len : ℕ) (val : Bytes) (s : State) → Keeps s (add_last num len val s).1
unfolding add_last
add_last-Keeps num len val s =
    add_with-Keeps place_last s (op_new num len val s.heap)
      (λ op. omega (arith, length-append s.msg.op_list (op ∷ [])))
      (op_new-Allocates num len val s.heap)

length-place_after :
    (op prev : Op) (rest : List Op) → length (place_after op prev rest) ≡ suc (suc (length rest))
unfolding place_after
length-place_after op prev [] = refl
length-place_after op prev (next ∷ rest) = ground (arith, length-place_after op next rest)

length-place_sorted : (op : Op) (ops : List Op) → length (place_sorted op ops) ≡ suc (length ops)
unfolding place_sorted
length-place_sorted op [] = refl
length-place_sorted op (first ∷ rest) = ground (arith, length-place_after op first rest)

pub add_sorted-Keeps :
    (num len : ℕ) (val : Bytes) (s : State) → Keeps s (add_sorted num len val s).1
unfolding add_sorted
add_sorted-Keeps num len val s =
    add_with-Keeps place_sorted s (op_new num len val s.heap)
      (λ op. length-place_sorted op s.msg.op_list) (op_new-Allocates num len val s.heap)

parse_op_add-Keeps :
    (buf : Bytes) (r : Result (ℕ × ℕ × ℕ)) (s : State) → Keeps s (parse_op_add buf r s).1
unfolding parse_op_add
parse_op_add-Keeps buf (ok (delta, len, at)) s =
    continue-Keeps s _ _
      (add_last-Keeps (op_num_after (get_last? s.msg.op_list) delta) len (drop at buf) s)
      (λ _ t. Keeps-refl t)
parse_op_add-Keeps buf (err e) s = Keeps-refl s
parse_op_add-Keeps buf stuck s = Keeps-refl s

round-Keeps :
    (s : State) (r : Result ℕ × State) (g : ℕ → State → Result ℕ × State)
    → Keeps s r.1
    → ((num : ℕ) (t : State) → Keeps t (g num t).1)
    → Keeps s (continue r (λ num t. continue (g num t) (λ more. return (num + more)))).1
round-Keeps s r g h k =
    continue-Keeps s r (λ num t. continue (g num t) (λ more. return (num + more))) h
      (λ num t.
        continue-Keeps t (g num t) (λ more. return (num + more)) (k num t) (λ _ u. Keeps-refl u))

parse_ops-Keeps :
    (fuel : ℕ) (char_signed : Bool) (buf : Bytes) (s : State)
    → Keeps s (parse_ops fuel char_signed buf s).1
unfolding parse_ops parse_op
parse_ops-Keeps zero char_signed buf s = Keeps-refl s
parse_ops-Keeps (suc fuel) char_signed buf s = elim (Bool-cases (at_end buf)) [
  | inl e ↦ rw e (Keeps-refl s)
  | inr e ↦ rw e (
      round-Keeps s (parse_op char_signed buf s)
        (λ num t. parse_ops fuel char_signed (drop num buf) t)
        (parse_op_add-Keeps buf (parse_op_head char_signed buf) s)
        (λ num t. parse_ops-Keeps fuel char_signed (drop num buf) t))
]

parse_payload-Balanced :
    (buf : Bytes) (s : State) → s.msg.payload ≡ none → Balanced s (parse_payload buf s).1
unfolding parse_payload
parse_payload-Balanced [] s e = Balanced-refl s
parse_payload-Balanced (b ∷ []) s e = Balanced-refl s
parse_payload-Balanced (b ∷ (c ∷ cs)) s e = ground arith

-- The parts of coap_msg_parse from the options on, and from the token on.
abbrev pub from_ops : ℕ → Bool → Bytes → State → Result ℕ × State
from_ops fuel char_signed buf s =
    continue (parse_ops fuel char_signed buf s) (λ ops. parse_payload (drop ops buf))

abbrev pub from_token : ℕ → Bool → Bytes → State → Result ℕ × State
from_token fuel char_signed buf s =
    continue (parse_token buf s) (λ token. from_ops fuel char_signed (drop token buf))

from_ops-Balanced :
    (fuel : ℕ) (char_signed : Bool) (buf : Bytes) (s : State)
    → s.msg.payload ≡ none
    → Balanced s (from_ops fuel char_signed buf s).1
from_ops-Balanced fuel char_signed buf s e =
    continue-Balanced s (parse_ops fuel char_signed buf s) (λ ops. parse_payload (drop ops buf))
      (parse_ops-Keeps fuel char_signed buf s) e (λ ops t. parse_payload-Balanced (drop ops buf) t)

from_token-Balanced :
    (fuel : ℕ) (char_signed : Bool) (buf : Bytes) (s : State)
    → s.msg.payload ≡ none
    → Balanced s (from_token fuel char_signed buf s).1
from_token-Balanced fuel char_signed buf s e =
    continue-Balanced s (parse_token buf s) (λ token. from_ops fuel char_signed (drop token buf))
      (parse_token-Keeps buf s) e (λ token t. from_ops-Balanced fuel char_signed (drop token buf) t)

parse_parts-Balanced :
    (char_signed : Bool) (buf : Bytes) (s : State)
    → s.msg.payload ≡ none
    → Balanced s (parse_parts char_signed buf s).1
unfolding parse_parts
parse_parts-Balanced char_signed buf s e =
    let fuel = suc (length buf) in
    continue-Balanced s (parse_hdr buf s) (λ hdr. from_token fuel char_signed (drop hdr buf))
      (parse_hdr-Keeps buf s) e (λ hdr t. from_token-Balanced fuel char_signed (drop hdr buf) t)

destroy-Balanced : (s : State) → Balanced s (destroy s)
destroy-Balanced s = rw destroy_lem (omega arith)

destroy_reset : (s : State) → Balanced s (reset s)
destroy_reset s = rw destroy_lem (omega arith)

finish-Balanced : (s : State) (r : Result ℕ × State) → Balanced s r.1 → Balanced s (finish r).1
finish-Balanced s (ok k, t) h = h
finish-Balanced s (err e, t) h = Balanced-trans s t (destroy t) h (destroy-Balanced t)
finish-Balanced s (stuck, t) h = h

-- On every path of coap_msg_parse, the errors and the failing allocations included, what the message
-- owned before is freed or still its own, and so is all that the call allocates.
pub parse-Balanced :
    (char_signed : Bool) (buf : Bytes) (s : State) → Balanced s (parse char_signed buf s).1
unfolding parse
parse-Balanced char_signed buf s =
    let kept =
      finish-Balanced (reset s) (parse_parts char_signed buf (reset s))
        (parse_parts-Balanced char_signed buf (reset s) refl) in
    Balanced-trans s (reset s) (parse char_signed buf s).1 (destroy_reset s) kept
