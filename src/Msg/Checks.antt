-- ===== src/Msg/Checks.antt =====
-- The checks over a message's option numbers (lib/src/coap_msg.c).
use free_co_ap.Common.{
  ℕ, Bool, true, false, ◌&&◌, not, List, [], ◌∷◌, ◌++◌, ◌≡◌, ◌≢◌, refl, ap, ◌⊎◌, inl, inr, All,
  arith, Bool-cases,
}
use free_co_ap.Msg.{Op, Msg}
use free_co_ap.Msg.Options.{
  is_critical, is_unsafe, is_recognized, check_ops, check_critical_ops, check_unsafe_ops,
}

-- An option that passes: it is not of the class tested, or it is recognized.
abbrev pub Passes : (ℕ → Bool) → Op → Type 0
Passes test op = test op.num ≡ true → is_recognized op.num ≡ true

-- `num` is the number of the first option that does not pass.
pub record FirstFailure (test : ℕ → Bool) (ops : List Op) (num : ℕ) : Type 0 where
  pub before : List Op
  pub failing : Op
  pub after : List Op
  pub ops_are : ops ≡ before ++ (failing ∷ after)
  pub passed : All (Passes test) before
  pub num_is : num ≡ failing.num
  pub tested : test num ≡ true
  pub unknown : is_recognized num ≡ false

passes_of : (t r : Bool) → t && not r ≡ false → t ≡ true → r ≡ true
passes_of t r h e = ground arith

later_cases :
    (test : ℕ → Bool) (op : Op) (ops : List Op) (num : ℕ)
    → Passes test op
    → ((num ≡ 0) × All (Passes test) ops) ⊎ FirstFailure test ops num
    → ((num ≡ 0) × (Passes test op × All (Passes test) ops)) ⊎ FirstFailure test (op ∷ ops) num
later_cases test op ops num p (inl (z, ps)) = inl (z, (p, ps))
later_cases test op ops num p (inr f) = inr (record {
  before = op ∷ f.before;
  failing = f.failing;
  after = f.after;
  ops_are = ap (◌∷◌ op) f.ops_are;
  passed = (p, f.passed);
  num_is = f.num_is;
  tested = f.tested;
  unknown = f.unknown;
})

check_ops-cases :
    (test : ℕ → Bool) (ops : List Op)
    → ((check_ops test ops ≡ 0) × All (Passes test) ops)
      ⊎ FirstFailure test ops (check_ops test ops)
unfolding check_ops
check_ops-cases test [] = inl (refl, tt)
check_ops-cases test (op ∷ ops) = elim (Bool-cases (test op.num && not (is_recognized op.num))) [
  | inl e ↦ rw e (
      inr (record {
        before = [];
        failing = op;
        after = ops;
        ops_are = refl;
        passed = tt;
        num_is = refl;
        tested = ground arith;
        unknown = ground arith;
      }))
  | inr e ↦
      rw e
        (later_cases test op ops (check_ops test ops) (passes_of _ _ e) (check_ops-cases test ops))
]

-- What a check tells with its result: 0 where all pass, or the number, not 0, of the first option
-- that does not.
abbrev pub Tells : (ℕ → Bool) → List Op → ℕ → Type 0
Tells test ops num = ((num ≡ 0) × All (Passes test) ops) ⊎ ((num ≢ 0) × FirstFailure test ops num)

Tells-of :
    (test : ℕ → Bool) (ops : List Op) (num : ℕ)
    → test 0 ≡ false
    → ((num ≡ 0) × All (Passes test) ops) ⊎ FirstFailure test ops num
    → Tells test ops num
Tells-of test ops num z (inl p) = inl p
Tells-of test ops num z (inr f) = inr ((λ e. cc (ap test e, f.tested, z)), f)

-- coap_msg_check_critical_ops returns 0 exactly where every critical option is recognized, and
-- otherwise the number of the first critical option that is not.
pub check_critical_ops-Tells : (m : Msg) → Tells is_critical m.op_list (check_critical_ops m)
unfolding check_critical_ops is_critical
check_critical_ops-Tells m =
    Tells-of is_critical m.op_list (check_ops is_critical m.op_list) refl
      (check_ops-cases is_critical m.op_list)

-- coap_msg_check_unsafe_ops returns 0 exactly where every option that is unsafe to forward is
-- recognized, and otherwise the number of the first such option that is not.
pub check_unsafe_ops-Tells : (m : Msg) → Tells is_unsafe m.op_list (check_unsafe_ops m)
unfolding check_unsafe_ops is_unsafe
check_unsafe_ops-Tells m =
    Tells-of is_unsafe m.op_list (check_ops is_unsafe m.op_list) refl
      (check_ops-cases is_unsafe m.op_list)
