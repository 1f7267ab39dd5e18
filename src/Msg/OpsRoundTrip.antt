-- ===== src/Msg/OpsRoundTrip.antt =====
-- The option list on the wire: coap_msg_format_ops and coap_msg_parse_ops, in lib/src/coap_msg.c.
use free_co_ap.Common.{
  ℕ, zero, suc, ◌+◌, ◌-◌, ◌*◌, ◌≤◌, ◌<◌, Bool, true, false, List, [], ◌∷◌, ◌++◌, ◌≡◌, refl, sym,
  ◌∙◌, some, Heap, ok, bind-eq-ok, Bytes, length, get_last?, length-append, take-append,
  drop-append, append-nil, append_assoc, arith, u32_mod,
}
use free_co_ap.Msg.{Op, State}
use free_co_ap.Msg.Options.{add_last, op_new, with_ops}
use free_co_ap.Msg.Parse.{parse_op, parse_op_add, parse_ops, at_end, op_num_after}
use free_co_ap.Msg.Format.{op_bytes, op_delta, format_op, size_sub, format_ops}
use free_co_ap.Msg.Codec.{
  OpFits, OpsFit, op_delta_lem, nibble_lt, op_bytes-append, parse_op_head-op_bytes, length-op_bytes,
  drop-op_bytes,
}

-- The options of a list that begins behind the number `prev_num`, one after the other.
unfoldable pub ops_bytes : ℕ → List Op → Bytes
ops_bytes prev_num [] = []
ops_bytes prev_num (op ∷ ops) = op_bytes op (op.num - prev_num) ++ ops_bytes op.num ops

format_op-op_bytes :
    (op : Op) (prev_num len : ℕ) {out : Bytes}
    → format_op op prev_num len ≡ ok out
    → out ≡ op_bytes op (op_delta op prev_num)
unfolding format_op
format_op-op_bytes op prev_num len h = ground arith

-- Where coap_msg_format_ops succeeds, it has written all the options.
pub format_ops-ops_bytes :
    (char_signed : Bool) (ops : List Op) (prev_num len : ℕ) {out : Bytes}
    → OpsFit char_signed prev_num ops
    → format_ops ops prev_num len ≡ ok out
    → out ≡ ops_bytes prev_num ops
unfolding format_ops ops_bytes
format_ops-ops_bytes char_signed [] prev_num len f h = cc
format_ops-ops_bytes char_signed (op ∷ ops) prev_num len (f, fs) h =
    let (first, p, q) = bind-eq-ok (format_op op prev_num len) _ h in
    let (more, r, e) = bind-eq-ok (format_ops ops op.num (size_sub len (length first))) _ q in
    cc (
      format_op-op_bytes op prev_num len p,
      op_delta_lem op prev_num f.num_ge f.num_lt,
      format_ops-ops_bytes char_signed ops op.num (size_sub len (length first)) fs r,
    )

-- What a list adds to the allocator: two blocks for each option.
abbrev pub after_ops : List Op → Heap → Heap
after_ops ops h = record h { allocs = h.allocs + 2 * length ops }

abbrev last_num : List Op → ℕ
last_num ops = op_num_after (get_last? ops) 0

abbrev after_op : Op → State → State
after_op op s = record {
  msg = with_ops s.msg (s.msg.op_list ++ (op ∷ []));
  heap = record (s.heap) { allocs = s.heap.allocs + 2 };
}

add_last_lem :
    (op : Op) (rest : Bytes) (s : State)
    → s.heap.outcomes ≡ []
    → length op.val ≡ op.len
    → add_last op.num op.len (op.val ++ rest) s ≡ (ok 0, after_op op s)
unfolding add_last op_new
add_last_lem op rest s o v =
    let two : s.heap.allocs + 1 + 1 ≡ s.heap.allocs + 2 = omega arith in
    rw (o, take-append op.len op.val rest (sym v), two)

parse_op_step :
    (char_signed : Bool) (op : Op) (prev_num : ℕ) (rest : Bytes) (s : State)
    → OpFits char_signed prev_num op
    → s.heap.outcomes ≡ []
    → op_num_after (get_last? s.msg.op_list) (op.num - prev_num) ≡ op.num
    → parse_op char_signed (op_bytes op (op.num - prev_num) ++ rest) s
      ≡ (ok (length (op_bytes op (op.num - prev_num))), after_op op s)
unfolding parse_op parse_op_add
parse_op_step char_signed op prev_num rest s f o e =
    let delta = op.num - prev_num in
    rw (
      parse_op_head-op_bytes char_signed op delta rest f.delta_fits f.len_fits f.val_length,
      e,
      drop-op_bytes op delta rest f.val_length,
      add_last_lem op rest s o f.val_length,
      length-op_bytes op delta f.val_length,
    )

at_end-op_bytes :
    (op : Op) (delta : ℕ) (rest : Bytes)
    → length op.val ≡ op.len
    → at_end (op_bytes op delta ++ rest) ≡ false
at_end-op_bytes op delta rest v =
    rw (op_bytes-append op delta rest v) (ground (arith, nibble_lt delta, nibble_lt op.len))

pub get_last?-concat : {A : Type 0} (xs : List A) (x : A) → get_last? (xs ++ (x ∷ [])) ≡ some x
get_last?-concat [] x = refl
get_last?-concat (y ∷ []) x = refl
get_last?-concat (y ∷ (z ∷ zs)) x = get_last?-concat (z ∷ zs) x

-- Parsing what was formatted appends the options to the list, and stops before what follows.
pub parse_ops-ops_bytes :
    (ops : List Op) (fuel : ℕ) (char_signed : Bool) (prev_num : ℕ) (rest : Bytes) (s : State)
    → OpsFit char_signed prev_num ops
    → s.heap.outcomes ≡ []
    → ((delta : ℕ)
        → prev_num + delta < u32_mod
        → op_num_after (get_last? s.msg.op_list) delta ≡ prev_num + delta)
    → at_end rest ≡ true
    → length ops < fuel
    → parse_ops fuel char_signed (ops_bytes prev_num ops ++ rest) s ≡ (
      ok (length (ops_bytes prev_num ops)),
      record { msg = with_ops s.msg (s.msg.op_list ++ ops); heap = after_ops ops s.heap },
    )
unfolding parse_ops ops_bytes
parse_ops-ops_bytes ops zero char_signed prev_num rest s fs o e r lt = absurd (omega arith)
parse_ops-ops_bytes [] (suc fuel) char_signed prev_num rest s fs o e r lt =
    let h : s.heap.allocs + 0 ≡ s.heap.allocs = omega arith in rw (r, append-nil, h)
parse_ops-ops_bytes (op ∷ ops) (suc fuel) char_signed prev_num rest s (f, fs) o e r lt =
    let delta = op.num - prev_num in
    let tail = ops_bytes op.num ops ++ rest in
    let blocks : s.heap.allocs + 2 + 2 * length ops ≡ s.heap.allocs + 2 * suc (length ops) =
      omega arith in
    let e' : prev_num + delta ≡ op.num = omega (arith, f.num_ge) in
    let step = parse_op_step char_signed op prev_num tail s f o (e delta (rw e' f.num_lt) ∙ e') in
    let ih =
      parse_ops-ops_bytes ops fuel char_signed op.num rest (after_op op s) fs o
        (λ d small. rw get_last?-concat (omega arith)) r (omega arith) in
    rw (
      append_assoc (op_bytes op delta) (ops_bytes op.num ops) rest,
      at_end-op_bytes op delta tail f.val_length,
      step,
      drop-append _ (op_bytes op delta) tail refl,
      ih,
      length-append (op_bytes op delta) (ops_bytes op.num ops),
      blocks,
      append_assoc s.msg.op_list (op ∷ []) ops,
    )

pub length-ops_bytes : (ops : List Op) (prev_num : ℕ) → length ops ≤ length (ops_bytes prev_num ops)
unfolding ops_bytes op_bytes
length-ops_bytes [] prev_num = omega arith
length-ops_bytes (op ∷ ops) prev_num =
    let delta = op.num - prev_num in
    omega
      (arith, length-append (op_bytes op delta) (ops_bytes op.num ops), length-ops_bytes ops op.num)
