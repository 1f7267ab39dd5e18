-- ===== src/Msg/Order.antt =====
-- Where coap_msg_op_list_add puts an option, in lib/src/coap_msg.c.
use free_co_ap.Common.{
  ℕ, ◌≤◌, ◌<◌, List, [], ◌∷◌, ◌++◌, ◌≡◌, refl, ap, inl, inr, Bool-cases, All, arith, ltb, leb, ◌&&◌,
}
use free_co_ap.Msg.{Op}
use free_co_ap.Msg.Options.{place_after, place_sorted}

-- The numbers do not fall, from `low` on.
abbrev pub SortedFrom : ℕ → List Op → Type 0
SortedFrom low [] = Unit
SortedFrom low (op ∷ ops) = (low ≤ op.num) × SortedFrom op.num ops

-- `result` is `ops` with the option behind all those whose number is not larger, and before all
-- those whose number is.
pub record Placed (op : Op) (ops result : List Op) : Type 0 where
  pub before : List Op
  pub after : List Op
  pub ops_are : ops ≡ before ++ after
  pub result_is : result ≡ before ++ (op ∷ after)
  pub before_le : All (λ (o : Op). o.num ≤ op.num) before
  pub after_gt : All (λ (o : Op). op.num < o.num) after

SortedFrom-gt :
    (n low : ℕ) (ops : List Op) → n < low → SortedFrom low ops → All (λ (o : Op). n < o.num) ops
SortedFrom-gt n low [] h s = tt
SortedFrom-gt n low (o ∷ ops) h (le, s) = (omega arith, SortedFrom-gt n o.num ops (omega arith) s)

Placed-cons :
    (op o : Op) (ops result : List Op)
    → o.num ≤ op.num
    → Placed op ops result
    → Placed op (o ∷ ops) (o ∷ result)
Placed-cons op o ops result h p = record {
  before = o ∷ p.before;
  after = p.after;
  ops_are = ap (◌∷◌ o) p.ops_are;
  result_is = ap (◌∷◌ o) p.result_is;
  before_le = (h, p.before_le);
  after_gt = p.after_gt;
}

Placed-here :
    (op : Op) (ops : List Op) → All (λ (o : Op). op.num < o.num) ops → Placed op ops (op ∷ ops)
Placed-here op ops h = record {
  before = [];
  after = ops;
  ops_are = refl;
  result_is = refl;
  before_le = tt;
  after_gt = h;
}

place_after-Placed :
    (op prev : Op) (rest : List Op)
    → prev.num ≤ op.num
    → SortedFrom prev.num rest
    → Placed op (prev ∷ rest) (place_after op prev rest)
unfolding place_after
place_after-Placed op prev [] h s = Placed-cons op prev [] (op ∷ []) h (Placed-here op [] tt)
place_after-Placed op prev (next ∷ rest) h (le, s) =
    elim (Bool-cases (leb prev.num op.num && ltb op.num next.num)) [
      | inl e ↦ rw e (
          Placed-cons op prev (next ∷ rest) (op ∷ next ∷ rest) h (
            Placed-here op (next ∷ rest)
              ((ground arith), SortedFrom-gt op.num next.num rest (ground arith) s)))
      | inr e ↦ rw e (
          Placed-cons op prev (next ∷ rest) (place_after op next rest) h
            (place_after-Placed op next rest (ground arith) s))
    ]

-- Into a list in order, coap_msg_op_list_add puts the option behind those with its number or a
-- smaller one and before the larger ones; the others keep their places.
pub place_sorted-Placed :
    (op : Op) (ops : List Op) → SortedFrom 0 ops → Placed op ops (place_sorted op ops)
unfolding place_sorted
place_sorted-Placed op [] s = Placed-here op [] tt
place_sorted-Placed op (first ∷ rest) (le, s) = elim (Bool-cases (ltb op.num first.num)) [
  | inl e ↦ rw e (
      Placed-here op (first ∷ rest)
        ((ground arith), SortedFrom-gt op.num first.num rest (ground arith) s))
  | inr e ↦ rw e (place_after-Placed op first rest (ground arith) s)
]
