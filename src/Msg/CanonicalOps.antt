-- ===== src/Msg/CanonicalOps.antt =====
-- The option list read by coap_msg_parse_ops where `char` is unsigned, in lib/src/coap_msg.c.
use free_co_ap.Common.{
  ℕ, zero, suc, ◌+◌, ◌-◌, ◌*◌, ◌<◌, true, false, List, [], ◌∷◌, ◌++◌, ◌≡◌, refl, sym, ap, ◌∙◌, inl,
  inr, Result, ok, err, stuck, Bytes, IsByte, All, take, drop, length, get_last?, length-take,
  length-drop, append-nil, append_assoc, drop-drop, arith, u32_mod, Bool-cases,
}
use mathlib.Core.Path.{subst}
use free_co_ap.Msg.{Op, State, continue, return}
use free_co_ap.Msg.Options.{op_new, add_last, with_ops}
use free_co_ap.Msg.Wire.{parse_op_head}
use free_co_ap.Msg.Parse.{parse_op, parse_op_add, parse_ops, at_end, op_num_after}
use free_co_ap.Msg.Format.{op_bytes}
use free_co_ap.Msg.Codec.{OpFits, OpsFit}
use free_co_ap.Msg.OpsRoundTrip.{ops_bytes, get_last?-concat}
use free_co_ap.Msg.Canonical.{All-drop, read_op, ReadsOp, parse_op_head-ReadsOp}

abbrev Appended : Op → State → State → Type 0
Appended op s s' = s'.msg ≡ with_ops s.msg (s.msg.op_list ++ (op ∷ []))

add_last_ok :
    (num len : ℕ) (val : Bytes) (s : State) {n : ℕ} {s' : State}
    → add_last num len val s ≡ (ok n, s')
    → Appended (record { num = num; len = len; val = take len val }) s s'
unfolding add_last op_new
add_last_ok num len val s h = ground arith

-- An option that coap_msg_parse_op took from the window.
record TakesOp (buf : Bytes) (num : ℕ) (s s' : State) : Type 0 where
  delta : ℕ
  len : ℕ
  at : ℕ
  reads : ReadsOp buf delta len at
  num_is : num ≡ at + len
  appended : Appended (read_op (op_num_after (get_last? s.msg.op_list) delta) len at buf) s s'

parse_op_add_ok :
    (buf : Bytes) (r : Result (ℕ × ℕ × ℕ)) (s : State) {num : ℕ} {s' : State}
    → parse_op_add buf r s ≡ (ok num, s')
    → (delta : ℕ) × (len : ℕ) × (at : ℕ) × (r ≡ ok (delta, len, at))
      × (num ≡ at + len)
      × Appended (read_op (op_num_after (get_last? s.msg.op_list) delta) len at buf) s s'
unfolding parse_op_add add_last op_new
parse_op_add_ok buf (ok (delta, len, at)) s h = (delta, len, at, refl, ground arith, ground arith)
parse_op_add_ok buf (err e) s h = cc
parse_op_add_ok buf stuck s h = cc

parse_op-TakesOp :
    (buf : Bytes) (s : State) {num : ℕ} {s' : State}
    → All IsByte buf
    → parse_op false buf s ≡ (ok num, s')
    → TakesOp buf num s s'
unfolding parse_op
parse_op-TakesOp buf s a h =
    let (delta, len, at, e, n, p) = parse_op_add_ok buf (parse_op_head false buf) s h in
    record {
      delta = delta;
      len = len;
      at = at;
      reads = parse_op_head-ReadsOp buf a e;
      num_is = n;
      appended = p;
    }

-- `prev_num` is the number that the next option's delta counts from.
abbrev pub Counts : ℕ → List Op → Type 0
Counts prev_num ops =
    (delta : ℕ) → prev_num + delta < u32_mod → op_num_after (get_last? ops) delta ≡ prev_num + delta

pub record TakesOps (prev_num : ℕ) (buf : Bytes) (total : ℕ) (s s' : State) : Type 0 where
  pub ops : List Op
  pub appended : s'.msg ≡ with_ops s.msg (s.msg.op_list ++ ops)
  pub ops_fit : OpsFit false prev_num ops
  pub bytes_are : buf ≡ ops_bytes prev_num ops ++ drop total buf
  pub ended : at_end (drop total buf) ≡ true

module _ (prev_num : ℕ) (buf : Bytes) {num : ℕ} {s t : State} (c : Counts prev_num s.msg.op_list)
    (small : prev_num + 65804 * length buf < u32_mod) (o : TakesOp buf num s t) where
  taken : Op
  taken = read_op (prev_num + o.delta) o.len o.at buf

  no_wrap : prev_num + o.delta < u32_mod
  no_wrap = omega (arith, o.reads.delta_fits, o.reads.at_pos, o.reads.room)

  taken-Appended : Appended taken s t
  unfolding taken
  taken-Appended = rw (← c o.delta no_wrap) o.appended

  taken-OpFits : OpFits false prev_num taken
  unfolding taken
  taken-OpFits =
      let e : prev_num + o.delta - prev_num ≡ o.delta = omega arith in
      record {
        num_ge = omega arith;
        num_lt = no_wrap;
        delta_fits = rw e (o.reads.delta_fits);
        len_fits = o.reads.len_fits;
        val_length =
            omega (arith, length-take o.len (drop o.at buf), length-drop o.at buf, o.reads.room);
      }

  taken_bytes : buf ≡ op_bytes taken (taken.num - prev_num) ++ drop num buf
  unfolding taken
  taken_bytes =
      let e : prev_num + o.delta - prev_num ≡ o.delta = omega arith in
      rw (o.num_is, e) (o.reads.bytes_are (prev_num + o.delta))

  taken-Counts : Counts taken.num t.msg.op_list
  taken-Counts d h =
      let e : t.msg.op_list ≡ s.msg.op_list ++ (taken ∷ []) = ap (λ m. m.op_list) taken-Appended in
      rw (e, get_last?-concat s.msg.op_list taken) (omega arith)

  taken_small : taken.num + 65804 * length (drop num buf) < u32_mod
  unfolding taken
  taken_small =
      omega (arith, length-drop num buf, o.num_is, o.reads.delta_fits, o.reads.at_pos, o.reads.room)

  TakesOps-cons :
      {more : ℕ} {s' : State}
      → TakesOps taken.num (drop num buf) more t s'
      → TakesOps prev_num buf (num + more) s s'
  unfolding ops_bytes
  TakesOps-cons {more} {s'} os = record {
    ops = taken ∷ os.ops;
    appended = os.appended ∙ rw (taken-Appended, append_assoc s.msg.op_list (taken ∷ []) os.ops);
    ops_fit = (taken-OpFits, os.ops_fit);
    bytes_are =
        taken_bytes
        ∙ ap (◌++◌ (op_bytes taken (taken.num - prev_num))) os.bytes_are
        ∙ rw (← drop-drop num more buf) (
            sym (
              append_assoc (op_bytes taken (taken.num - prev_num)) (ops_bytes taken.num os.ops)
                (drop more (drop num buf))));
    ended = rw (← drop-drop num more buf) os.ended;
  }

later_ok :
    (num : ℕ) (r : Result ℕ × State) {total : ℕ} {s' : State}
    → continue r (λ more. return (num + more)) ≡ (ok total, s')
    → (more : ℕ) × (r ≡ (ok more, s')) × (num + more ≡ total)
later_ok num (ok more, t) h = (more, cc, cc)
later_ok num (err e, t) h = cc
later_ok num (stuck, t) h = cc

round_ok :
    (r : Result ℕ × State) (f : ℕ → State → Result ℕ × State) {total : ℕ} {s' : State}
    → continue r (λ num t. continue (f num t) (λ more. return (num + more))) ≡ (ok total, s')
    → (num : ℕ) × (t : State) × (more : ℕ) × (r ≡ (ok num, t))
      × (f num t ≡ (ok more, s'))
      × (num + more ≡ total)
round_ok (ok num, t) f h =
    let (more, q, sum) = later_ok num (f num t) h in (num, t, more, refl, q, sum)
round_ok (err e, t) f h = cc
round_ok (stuck, t) f h = cc

parse_ops_end :
    (fuel : ℕ) (buf : Bytes) (s : State) {total : ℕ} {s' : State}
    → at_end buf ≡ true
    → parse_ops (suc fuel) false buf s ≡ (ok total, s')
    → (0 ≡ total) × (s ≡ s')
unfolding parse_ops
parse_ops_end fuel buf s e h = ground arith

parse_ops_round :
    (fuel : ℕ) (buf : Bytes) (s : State) {total : ℕ} {s' : State}
    → at_end buf ≡ false
    → parse_ops (suc fuel) false buf s ≡ (ok total, s')
    → (num : ℕ) × (t : State) × (more : ℕ) × (parse_op false buf s ≡ (ok num, t))
      × (parse_ops fuel false (drop num buf) t ≡ (ok more, s'))
      × (num + more ≡ total)
unfolding parse_ops
parse_ops_round fuel buf s e h =
    round_ok (parse_op false buf s) (λ num t. parse_ops fuel false (drop num buf) t) (rw e at h)

no_ops : (prev_num : ℕ) (buf : Bytes) (s : State) → at_end buf ≡ true → TakesOps prev_num buf 0 s s
unfolding ops_bytes
no_ops prev_num buf s e = record {
  ops = [];
  appended = rw append-nil;
  ops_fit = tt;
  bytes_are = refl;
  ended = e;
}

pub parse_ops-TakesOps :
    (fuel : ℕ) (prev_num : ℕ) (buf : Bytes) (s : State) {total : ℕ} {s' : State}
    → All IsByte buf
    → Counts prev_num s.msg.op_list
    → prev_num + 65804 * length buf < u32_mod
    → parse_ops fuel false buf s ≡ (ok total, s')
    → TakesOps prev_num buf total s s'
unfolding parse_ops
parse_ops-TakesOps zero prev_num buf s a c small h = cc
parse_ops-TakesOps (suc fuel) prev_num buf s a c small h = elim (Bool-cases (at_end buf)) [
  | inl e ↦
      let (z, same) = parse_ops_end fuel buf s e h in
      rw (← z) (subst (λ x. TakesOps prev_num buf 0 s x) same (no_ops prev_num buf s e))
  | inr e ↦
      let (num, t, more, p, q, sum) = parse_ops_round fuel buf s e h in
      let o = parse_op-TakesOp buf s a p in
      let rest =
        parse_ops-TakesOps fuel (taken prev_num buf c small o).num (drop num buf) t
          (All-drop num buf a) (taken-Counts prev_num buf c small o)
          (taken_small prev_num buf c small o) q in
      rw (← sum) (TakesOps-cons prev_num buf c small o rest)
]
