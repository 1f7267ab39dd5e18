-- ===== src/Msg/AddOp.antt =====
-- coap_msg_add_op keeps an option list that the format can express (lib/src/coap_msg.c).
use free_co_ap.Common.{
  ℕ, ◌≤◌, ◌<◌, Bool, false, List, [], ◌∷◌, ◌++◌, ◌≡◌, refl, Option, none, some, Heap, Bytes, length,
  length-take, All, arith,
}
use free_co_ap.Msg.{Op, Msg, State}
use free_co_ap.Msg.Options.{op_new, add_sorted, add_with, place_sorted}
use free_co_ap.Msg.Codec.{OpFits, OpsFit}
use free_co_ap.Msg.Order.{SortedFrom, place_sorted-Placed}

-- An option that fits the format wherever it stands.
pub record IsAddable (op : Op) : Type 0 where
  pub num_lt : op.num < 65805
  pub len_lt : op.len < 65805
  pub val_length : length op.val ≡ op.len

pub OpsFit-SortedFrom :
    (char_signed : Bool) (low : ℕ) (ops : List Op) → OpsFit char_signed low ops → SortedFrom low ops
OpsFit-SortedFrom char_signed low [] fs = tt
OpsFit-SortedFrom char_signed low (op ∷ ops) (f, fs) =
    (f.num_ge, OpsFit-SortedFrom char_signed op.num ops fs)

IsAddable-OpFits : (low : ℕ) (op : Op) → low ≤ op.num → IsAddable op → OpFits false low op
IsAddable-OpFits low op h a = record {
  num_ge = h;
  num_lt = omega (arith, a.num_lt);
  delta_fits = omega (arith, a.num_lt);
  len_fits = a.len_lt;
  val_length = a.val_length;
}

OpsFit-from :
    (low n : ℕ) (ops : List Op)
    → low ≤ n
    → All (λ (o : Op). n < o.num) ops
    → OpsFit false low ops
    → OpsFit false n ops
OpsFit-from low n [] h g fs = tt
OpsFit-from low n (o ∷ ops) h (g, gs) (f, fs) = (
  record {
    num_ge = omega arith;
    num_lt = f.num_lt;
    delta_fits = omega (arith, f.delta_fits);
    len_fits = f.len_fits;
    val_length = f.val_length;
  },
  fs,
)

place-OpsFit :
    (op : Op) (before after : List Op) (low : ℕ)
    → IsAddable op
    → low ≤ op.num
    → All (λ (o : Op). o.num ≤ op.num) before
    → All (λ (o : Op). op.num < o.num) after
    → OpsFit false low (before ++ after)
    → OpsFit false low (before ++ (op ∷ after))
place-OpsFit op [] after low a h les gts fs =
    (IsAddable-OpFits low op h a, OpsFit-from low op.num after h gts fs)
place-OpsFit op (o ∷ before) after low a h (le, les) gts (f, fs) =
    (f, place-OpsFit op before after o.num a le les gts fs)

place_sorted-OpsFit :
    (op : Op) (ops : List Op)
    → IsAddable op
    → OpsFit false 0 ops
    → OpsFit false 0 (place_sorted op ops)
place_sorted-OpsFit op ops a fs =
    let p = place_sorted-Placed op ops (OpsFit-SortedFrom false 0 ops fs) in
    rw (p.result_is) (
      place-OpsFit op p.before p.after 0 a (omega arith) p.before_le p.after_gt
        (rw (p.ops_are) at fs))

add_with-OpsFit :
    (m : Msg) (r : Option Op × Heap)
    → OpsFit false 0 m.op_list
    → ((op : Op) → r.0 ≡ some op → IsAddable op)
    → OpsFit false 0 (add_with place_sorted m r).1.msg.op_list
add_with-OpsFit m (none, h) fs a = fs
add_with-OpsFit m (some op, h) fs a = place_sorted-OpsFit op m.op_list (a op refl) fs

op_new-IsAddable :
    (num len : ℕ) (val : Bytes) (h : Heap) (op : Op)
    → num < 65805
    → len < 65805
    → len ≤ length val
    → (op_new num len val h).0 ≡ some op
    → IsAddable op
unfolding op_new
op_new-IsAddable num len val h op n l v e = ground (arith, length-take len val)

-- An option whose number and length are below 65805, added to a list that the format can express,
-- leaves such a list, whether the allocation succeeds or not.
pub add_sorted-OpsFit :
    (num len : ℕ) (val : Bytes) (s : State)
    → num < 65805
    → len < 65805
    → len ≤ length val
    → OpsFit false 0 s.msg.op_list
    → OpsFit false 0 (add_sorted num len val s).1.msg.op_list
unfolding add_sorted
add_sorted-OpsFit num len val s n l v fs =
    add_with-OpsFit s.msg (op_new num len val s.heap) fs
      (λ op. op_new-IsAddable num len val s.heap op n l v)
