-- ===== src/Msg/Header.antt =====
-- The header fields that the functions of lib/src/coap_msg.c set, and those that they leave alone.
use free_co_ap.Common.{
  ℕ, Bool, true, false, List, [], ◌∷◌, ◌≡◌, refl, ◌∙◌, Option, none, some, Result, ok, err, stuck,
  Bytes, ltb, ◌==◌, arith, Bool-cases, inl, inr, Heap, malloc, if◌then◌else◌,
}
use free_co_ap.Msg.{
  Op, Msg, State, M, continue, ◌>>◌, return, max_token_len, max_msg_id, free_payload,
}
use free_co_ap.Msg.Options.{op_new, add_with, add_sorted, place_sorted}
use free_co_ap.Msg.Parse.{with_payload}
use free_co_ap.Msg.Format.{payload_bytes}
use free_co_ap.Msg.Build.{
  set_type, set_code, set_msg_id, set_token, set_payload, copy_ops, copy, store, set_ver,
}

-- The fields that tell a message from another.
pub record Same (m n : Msg) : Type 0 where
  pub ver_is : n.ver ≡ m.ver
  pub id_is : n.msg_id ≡ m.msg_id

Same-refl : (m : Msg) → Same m m
Same-refl m = record { ver_is = refl; id_is = refl }

Same-trans : (l m n : Msg) → Same l m → Same m n → Same l n
Same-trans l m n h k = record { ver_is = k.ver_is ∙ h.ver_is; id_is = k.id_is ∙ h.id_is }

-- What holds of the message where the call succeeds.
abbrev pub Post : (Msg → Type 0) → Result ℕ × State → Type 0
Post Q (ok n, t) = Q t.msg
Post Q (err e, t) = Unit
Post Q (stuck, t) = Unit

-- A call that succeeds leads from messages with one property to messages with another.
record Leads (Q R : Msg → Type 0) (f : M ℕ) : Type 0 where
  leads : (s : State) → Q s.msg → Post R (f s)

continue-Post :
    (Q R : Msg → Type 0) (r : Result ℕ × State) (f : M ℕ)
    → Post Q r
    → ((t : State) → Q t.msg → Post R (f t))
    → Post R (continue r (λ _. f))
continue-Post Q R (ok n, t) f h k = k t h
continue-Post Q R (err e, t) f h k = tt
continue-Post Q R (stuck, t) f h k = tt

infixr 5 ◌then◌
◌then◌ : {P Q R : Msg → Type 0} {f g : M ℕ} → Leads P Q f → Leads Q R g → Leads P R (f >> g)
◌then◌ {P} {Q} {R} {f} {g} h k = record {
  leads = λ s p. continue-Post Q R (f s) g (h.leads s p) k.leads;
}

add_with-Same :
    (place : Op → List Op → List Op) (m : Msg) (r : Option Op × Heap)
    → Same m (add_with place m r).1.msg
add_with-Same place m (none, h) = Same-refl m
add_with-Same place m (some op, h) = record { ver_is = refl; id_is = refl }

store-Same : (n : ℕ) (buf : Bytes) (m : Msg) (r : Bool × Heap) → Same m (store n buf m r).1.msg
store-Same n buf m (true, h) = record { ver_is = refl; id_is = refl }
store-Same n buf m (false, h) = record { ver_is = refl; id_is = refl }

set_payload-Same : (buf : Bytes) (n : ℕ) (s : State) → Same s.msg (set_payload buf n s).1.msg
unfolding set_payload
set_payload-Same buf n s = elim (Bool-cases (n == 0)) [
  | inl e ↦ rw e (record { ver_is = refl; id_is = refl })
  | inr e ↦ rw e (
      let z =
        store-Same n buf (with_payload s.msg none 0) (malloc (free_payload s.msg.payload s.heap)) in
      record { ver_is = z.ver_is; id_is = z.id_is })
]

continue-Same :
    (m : Msg) (r : Result ℕ × State) (f : M ℕ)
    → Same m r.1.msg
    → ((t : State) → Same t.msg (f t).1.msg)
    → Same m (continue r (λ _. f)).1.msg
continue-Same m (ok n, t) f h k = Same-trans m t.msg _ h (k t)
continue-Same m (err e, t) f h k = h
continue-Same m (stuck, t) f h k = h

copy_ops-Same : (ops : List Op) (s : State) → Same s.msg (copy_ops ops s).1.msg
unfolding copy_ops add_sorted
copy_ops-Same [] s = Same-refl s.msg
copy_ops-Same (op ∷ ops) s =
    continue-Same s.msg _ (copy_ops ops)
      (add_with-Same place_sorted s.msg (op_new op.num op.len op.val s.heap)) (copy_ops-Same ops)

set_token-Same : (buf : Bytes) (n : ℕ) (s : State) → Same s.msg (set_token buf n s).1.msg
unfolding set_token
set_token-Same buf n s = elim (Bool-cases (ltb max_token_len n)) [
  | inl e ↦ rw e (Same-refl s.msg)
  | inr e ↦ rw e (record { ver_is = refl; id_is = refl })
]

Post-of : (m : Msg) (r : Result ℕ × State) → Same m r.1.msg → Post (Same m) r
Post-of m (ok n, t) h = h
Post-of m (err e, t) h = tt
Post-of m (stuck, t) h = tt

abbrev HasVer : ℕ → Msg → Type 0
HasVer v m = m.ver ≡ v

abbrev IsAny : Msg → Type 0
IsAny m = Unit {0}

set_ver-Leads : (v : ℕ) → Leads IsAny (HasVer v) (set_ver v)
set_ver-Leads v = record { leads = λ s h. refl }

set_type-Leads : (v t : ℕ) → Leads (HasVer v) (HasVer v) (set_type t)
unfolding set_type
set_type-Leads v t = record { leads = λ s h. ground arith }

set_code-Leads : (v c d : ℕ) → Leads (HasVer v) (HasVer v) (set_code c d)
unfolding set_code
set_code-Leads v c d = record { leads = λ s h. ground arith }

set_msg_id-Same : (m : Msg) (s : State) → s.msg.ver ≡ m.ver → Post (Same m) (set_msg_id m.msg_id s)
unfolding set_msg_id
set_msg_id-Same m s h = elim (Bool-cases (ltb max_msg_id m.msg_id)) [
  | inl e ↦ rw e tt
  | inr e ↦ rw e (record { ver_is = h; id_is = refl })
]

set_msg_id-Leads : (m : Msg) → Leads (HasVer m.ver) (Same m) (set_msg_id m.msg_id)
set_msg_id-Leads m = record { leads = set_msg_id-Same m }

-- A call that leaves both fields alone.
Leads-of : (m : Msg) (f : M ℕ) → ((s : State) → Same s.msg (f s).1.msg) → Leads (Same m) (Same m) f
Leads-of m f h = record { leads = λ s k. Post-of m (f s) (Same-trans m s.msg (f s).1.msg k (h s)) }

copy-Leads : (src : Msg) → Leads IsAny (Same src) (copy src)
unfolding copy
copy-Leads src =
    set_ver-Leads src.ver
    then set_type-Leads src.ver src.type
    then set_code-Leads src.ver src.code_class src.code_detail
    then set_msg_id-Leads src
    then Leads-of src (set_token src.token src.token_len) (set_token-Same src.token src.token_len)
    then Leads-of src (copy_ops src.op_list) (copy_ops-Same src.op_list)
    then Leads-of src (set_payload (payload_bytes src.payload) src.payload_len)
        (set_payload-Same (payload_bytes src.payload) src.payload_len)
    then Leads-of src (return 0) (λ s. Same-refl s.msg)

-- A copy that succeeds has the version and the message ID of its source.
pub copy-Same : (src : Msg) (s : State) → Post (Same src) (copy src s)
copy-Same src s = (copy-Leads src).leads s tt
