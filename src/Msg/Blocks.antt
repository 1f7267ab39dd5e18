-- ===== src/Msg/Blocks.antt =====
-- The functions of lib/src/coap_msg.c that fill in a message neither lose a block nor free one twice.
use free_co_ap.Common.{
  ℕ, Bool, true, false, List, [], ◌∷◌, ◌≡◌, refl, inl, inr, Option, none, some, Result, ok, err,
  stuck, Bytes, ◌==◌, arith, Bool-cases, malloc,
}
use free_co_ap.Msg.{
  Op, Msg, State, M, continue, ◌>>◌, return, reset, destroy, payload_blocks, free_payload,
}
use free_co_ap.Msg.Build.{
  set_type, set_code, set_msg_id, set_token, set_payload, copy_ops, copy, store, set_ver,
}
use free_co_ap.Msg.Parse.{with_payload}
use free_co_ap.Msg.Format.{payload_bytes}
use free_co_ap.Msg.Destroy.{destroy_lem}
use free_co_ap.Msg.Leaks.{Balanced, Balanced-refl, Balanced-trans, add_sorted-Keeps}

-- A function that loses no block of any message.
pub record Keeping (f : M ℕ) : Type 0 where
  pub kept : (s : State) → Balanced s (f s).1

pub continue-Balanced :
    (s : State) (r : Result ℕ × State) (f : M ℕ)
    → Balanced s r.1
    → ((t : State) → Balanced t (f t).1)
    → Balanced s (continue r (λ _. f)).1
continue-Balanced s (ok a, t) f h k = Balanced-trans s t (f t).1 h (k t)
continue-Balanced s (err e, t) f h k = h
continue-Balanced s (stuck, t) f h k = h

infixr 5 ◌then◌
pub ◌then◌ : {f g : M ℕ} → Keeping f → Keeping g → Keeping (f >> g)
◌then◌ {f} {g} h k = record { kept = λ s. continue-Balanced s (f s) g (h.kept s) k.kept }

pub set_type-Keeping : (t : ℕ) → Keeping (set_type t)
unfolding set_type
set_type-Keeping t = record { kept = λ s. ground arith }

pub set_code-Keeping : (c d : ℕ) → Keeping (set_code c d)
unfolding set_code
set_code-Keeping c d = record { kept = λ s. ground arith }

pub set_msg_id-Keeping : (i : ℕ) → Keeping (set_msg_id i)
unfolding set_msg_id
set_msg_id-Keeping i = record { kept = λ s. ground arith }

pub set_token-Keeping : (buf : Bytes) (n : ℕ) → Keeping (set_token buf n)
unfolding set_token
set_token-Keeping buf n = record { kept = λ s. ground arith }

store_from :
    (n : ℕ) (buf : Bytes) (m : Msg) (outcomes : List Bool) (a f : ℕ)
    → Balanced
        (record {
          msg = with_payload m none 0;
          heap = record { outcomes = outcomes; allocs = a; frees = f };
        })
        (store n buf
          (with_payload m none 0)
          (malloc (record { outcomes = outcomes; allocs = a; frees = f }))).1
store_from n buf m [] a f = omega arith
store_from n buf m (true ∷ bs) a f = omega arith
store_from n buf m (false ∷ bs) a f = omega arith

freed-Balanced :
    (s : State) (p : Option Bytes)
    → s.msg.payload ≡ p
    → Balanced s (record { msg = with_payload s.msg none 0; heap = free_payload p s.heap })
freed-Balanced s none e = let z : payload_blocks s.msg.payload ≡ 0 = rw e in omega arith
freed-Balanced s (some b) e = let z : payload_blocks s.msg.payload ≡ 1 = rw e in omega arith

set_payload-Balanced : (buf : Bytes) (n : ℕ) (s : State) → Balanced s (set_payload buf n s).1
unfolding set_payload
set_payload-Balanced buf n s =
    let h = free_payload s.msg.payload s.heap in
    let t : State = record { msg = with_payload s.msg none 0; heap = h } in
    let freed = freed-Balanced s s.msg.payload refl in
    elim (Bool-cases (n == 0)) [
      | inl e ↦ rw e freed
      | inr e ↦
          rw e (Balanced-trans s t _ freed (store_from n buf s.msg h.outcomes h.allocs h.frees))
    ]

copy_ops-Balanced : (ops : List Op) (s : State) → Balanced s (copy_ops ops s).1
unfolding copy_ops
copy_ops-Balanced [] s = Balanced-refl s
copy_ops-Balanced (op ∷ ops) s =
    continue-Balanced s _ (copy_ops ops) (add_sorted-Keeps op.num op.len op.val s).balanced
      (copy_ops-Balanced ops)

set_ver-Keeping : (v : ℕ) → Keeping (set_ver v)
set_ver-Keeping v = record { kept = λ s. omega arith }

pub copy_ops-Keeping : (ops : List Op) → Keeping (copy_ops ops)
copy_ops-Keeping ops = record { kept = copy_ops-Balanced ops }

pub set_payload-Keeping : (buf : Bytes) (n : ℕ) → Keeping (set_payload buf n)
set_payload-Keeping buf n = record { kept = set_payload-Balanced buf n }

return-Keeping : (n : ℕ) → Keeping (return n)
return-Keeping n = record { kept = Balanced-refl }

-- Whatever coap_msg_copy returns, the blocks in use that the copy does not own are as many as
-- before.
pub copy-Keeping : (src : Msg) → Keeping (copy src)
unfolding copy
copy-Keeping src =
    set_ver-Keeping src.ver
    then set_type-Keeping src.type
    then set_code-Keeping src.code_class src.code_detail
    then set_msg_id-Keeping src.msg_id
    then set_token-Keeping src.token src.token_len
    then copy_ops-Keeping src.op_list
    then set_payload-Keeping (payload_bytes src.payload) src.payload_len
    then return-Keeping 0

pub reset-Balanced : (s : State) → Balanced s (reset s)
reset-Balanced s = rw (destroy_lem s) (omega arith)

pub destroy-Balanced : (s : State) → Balanced s (destroy s)
destroy-Balanced s = rw (destroy_lem s) (omega arith)
