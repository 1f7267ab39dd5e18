-- ===== src/Cross/Segments.antt =====
-- The segments of a path and of a query (proxy/common/src/cross.c).
use free_co_ap.Common.{
  ℕ, zero, suc, ◌<◌, List, [], ◌∷◌, ◌++◌, ◌≡◌, refl, sym, ap, ◌∙◌, Option, none, some, Result, Heap,
  ok, err, stuck, Bytes, length, ltb, ◌==◌, if◌then◌else◌, arith, Bool-cases, inl, inr,
}
use free_co_ap.Common.Actions.{continue, ◌>>◌}
use free_co_ap.Msg.{Op, Msg, State, M}
use free_co_ap.Msg.Options.{add_sorted, add_with, place_sorted, op_new}
use free_co_ap.Msg.Build.{add_op, copy_ops}
use free_co_ap.Uri.Parse.{split_at, with_char}
use free_co_ap.Cross.{string_len, add_segment, next_segment, add_segments}

abbrev pub on_first : ℕ → List Bytes → List Bytes
on_first c [] = (c ∷ []) ∷ []
on_first c (piece ∷ rest) = (c ∷ piece) ∷ rest

-- A string, cut at each delimiter.
unfoldable pub pieces : ℕ → Bytes → List Bytes
pieces d [] = [] ∷ []
pieces d (c ∷ cs) = if c == d then [] ∷ pieces d cs else on_first c (pieces d cs)

abbrev cut : ℕ → Bytes → Option (Bytes × Bytes) → List Bytes
cut d str none = str ∷ []
cut d str (some (before, after)) = before ∷ pieces d after

on_first-cut :
    (d c : ℕ) (cs : Bytes) (o : Option (Bytes × Bytes))
    → on_first c (cut d cs o) ≡ cut d (c ∷ cs) (with_char c o)
on_first-cut d c cs none = refl
on_first-cut d c cs (some x) = refl

pieces-split_at : (d : ℕ) (str : Bytes) → pieces d str ≡ cut d str (split_at d str)
unfolding pieces split_at
pieces-split_at d [] = refl
pieces-split_at d (c ∷ cs) = elim (Bool-cases (c == d)) [
  | inl e ↦ rw e refl
  | inr e ↦ rw e (ap (on_first c) (pieces-split_at d cs) ∙ on_first-cut d c cs (split_at d cs))
]

-- The string behind a delimiter is shorter.
abbrev IsShorter : Bytes → Option (Bytes × Bytes) → Type 0
IsShorter str none = Unit
IsShorter str (some (before, after)) = length after < length str

with_char-IsShorter :
    (c : ℕ) (str : Bytes) (o : Option (Bytes × Bytes))
    → IsShorter str o
    → IsShorter (c ∷ str) (with_char c o)
with_char-IsShorter c str none h = tt
with_char-IsShorter c str (some x) h = omega arith

split_at-IsShorter : (d : ℕ) (str : Bytes) → IsShorter str (split_at d str)
unfolding split_at
split_at-IsShorter d [] = tt
split_at-IsShorter d (c ∷ cs) = elim (Bool-cases (c == d)) [
  | inl e ↦ rw e (omega arith)
  | inr e ↦ rw e (with_char-IsShorter c cs (split_at d cs) (split_at-IsShorter d cs))
]

abbrev pub string_op : ℕ → Bytes → Op
string_op num str = record { num = num; len = string_len str; val = str }

-- The options of the segments that are not empty.
unfoldable pub segment_ops : ℕ → List Bytes → List Op
segment_ops num [] = []
segment_ops num (piece ∷ rest) =
    let ops = segment_ops num rest in
    if ltb 0 (string_len piece) then string_op num piece ∷ ops else ops

continue_assoc :
    {S A B C : Type 0} (r : Result A × S) (f : A → S → Result B × S) (g : B → S → Result C × S)
    → continue (continue r f) g ≡ continue r (λ a s. continue (f a s) g)
continue_assoc (ok a, s) f g = refl
continue_assoc (err e, s) f g = refl
continue_assoc (stuck, s) f g = refl

pub continue_same :
    {S A B : Type 0} (r : Result A × S) (f g : A → S → Result B × S)
    → ((a : A) (s : S) → f a s ≡ g a s)
    → continue r f ≡ continue r g
continue_same (ok a, s) f g h = h a s
continue_same (err e, s) f g h = refl
continue_same (stuck, s) f g h = refl

pub copy_ops-append :
    (xs ys : List Op) (s : State) → copy_ops (xs ++ ys) s ≡ (copy_ops xs >> copy_ops ys) s
unfolding copy_ops
copy_ops-append [] ys s = refl
copy_ops-append (x ∷ xs) ys s =
    continue_same (add_op x.num x.len x.val s) _ _ (λ _ t. copy_ops-append xs ys t)
    ∙ sym (continue_assoc (add_op x.num x.len x.val s) (λ _. copy_ops xs) (λ _. copy_ops ys))

-- A call whose value, where it succeeds, is 0.
abbrev IsZero : Result ℕ × State → Type 0
IsZero (ok n, s) = n ≡ 0
IsZero (err e, s) = Unit
IsZero (stuck, s) = Unit

continue-IsZero : (r : Result ℕ × State) → IsZero r → continue r (λ _ t. (ok 0, t)) ≡ r
continue-IsZero (ok n, s) h = rw h refl
continue-IsZero (err e, s) h = refl
continue-IsZero (stuck, s) h = refl

add_op-IsZero : (num len : ℕ) (val : Bytes) (s : State) → IsZero (add_op num len val s)
unfolding add_sorted
add_op-IsZero num len val s = placed s.msg (op_new num len val s.heap)
  where
    placed : (m : Msg) (r : Option Op × Heap) → IsZero (add_with place_sorted m r)
    placed m (none, h) = tt
    placed m (some op, h) = refl

pub add_op-copy_ops :
    (num : ℕ) (str : Bytes) (s : State)
    → add_op num (string_len str) str s ≡ copy_ops (string_op num str ∷ []) s
unfolding copy_ops
add_op-copy_ops num str s =
    sym (
      continue-IsZero (add_op num (string_len str) str s)
        (add_op-IsZero num (string_len str) str s))

add_segment-copy_ops :
    (num : ℕ) (piece : Bytes) (s : State)
    → add_segment num piece s ≡ copy_ops (segment_ops num (piece ∷ [])) s
unfolding segment_ops copy_ops
add_segment-copy_ops num piece s = elim (Bool-cases (ltb 0 (string_len piece))) [
  | inl e ↦ rw e (add_op-copy_ops num piece s)
  | inr e ↦ rw e refl
]

segment_ops-first :
    (num : ℕ) (piece : Bytes) (rest : List Bytes)
    → segment_ops num (piece ∷ rest) ≡ segment_ops num (piece ∷ []) ++ segment_ops num rest
unfolding segment_ops
segment_ops-first num piece rest = elim (Bool-cases (ltb 0 (string_len piece))) [
  | inl e ↦ rw e refl
  | inr e ↦ rw e refl
]

round-copy_ops :
    (rest : Bytes → M ℕ) (num d : ℕ) (str : Bytes) (o : Option (Bytes × Bytes)) (s : State)
    → ((after : Bytes) (t : State)
        → length after < length str
        → rest after t ≡ copy_ops (segment_ops num (pieces d after)) t)
    → IsShorter str o
    → next_segment rest num str o s ≡ copy_ops (segment_ops num (cut d str o)) s
round-copy_ops rest num d str none s ih h = add_segment-copy_ops num str s
round-copy_ops rest num d str (some (before, after)) s ih h =
    rw
      (
        add_segment-copy_ops num before s,
        segment_ops-first num before (pieces d after),
        copy_ops-append (segment_ops num (before ∷ [])) (segment_ops num (pieces d after)) s,
      )
      (continue_same (copy_ops (segment_ops num (before ∷ [])) s) _ _ λ _ t. ih after t h)

-- The loop over the segments of a string adds one option for each that is not empty, in order.
pub add_segments-copy_ops :
    (fuel num d : ℕ) (str : Bytes) (s : State)
    → length str < fuel
    → add_segments fuel num d str s ≡ copy_ops (segment_ops num (pieces d str)) s
unfolding add_segments
add_segments-copy_ops zero num d str s lt = absurd (let z : ⊥ = omega arith in z)
add_segments-copy_ops (suc fuel) num d str s lt = rw (pieces-split_at d str) (
    round-copy_ops (add_segments fuel num d) num d str (split_at d str) s
      (λ after t h. add_segments-copy_ops fuel num d after t (omega arith))
      (split_at-IsShorter d str))
