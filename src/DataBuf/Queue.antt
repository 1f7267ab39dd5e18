-- ===== src/DataBuf/Queue.antt =====
-- The data buffer is a bounded queue of bytes (proxy/common/src/data_buf.c).
use free_co_ap.Common.{
  ℕ, zero, suc, ◌+◌, ◌-◌, ◌*◌, ◌%◌, ◌≤◌, ◌<◌, Bool, true, false, Option, none, some, [], ◌∷◌, ◌++◌,
  ◌≡◌, refl, ap, ◌∙◌, Heap, malloc, ok, Bytes, length, take, drop, replicate, length-append,
  length-take, length-drop, take-append, ltb, size_mod, arith, inl, inr, Bool-cases,
}
use free_co_ap.DataBuf.{
  DataBuf, BufState, create, created_buf, expand, expanded, get_space, clamp, add, consume, shifted,
  shifted_mem, bytes_of,
}

-- The array has room for all of `size` and the terminator, and the used bytes lie within.
pub record Valid (b : DataBuf) : Type 0 where
  pub mem_len : length (bytes_of b.mem) ≡ b.size + 1
  pub used : b.count ≤ b.size
  pub bounded : b.size ≤ b.max_size
  pub small : 2 * b.max_size < size_mod

-- The bytes in the queue.
abbrev pub contents : DataBuf → Bytes
contents b = take b.count (bytes_of b.mem)

length-replicate : (n x : ℕ) → length (replicate n x) ≡ n
length-replicate zero x = refl
length-replicate (suc n) x = omega (arith, length-replicate n x)

take-front : (m : ℕ) (xs ys : Bytes) → m ≤ length xs → take m (xs ++ ys) ≡ take m xs
take-front zero [] ys h = ground arith
take-front zero (x ∷ xs) ys h = refl
take-front (suc m) [] ys h = absurd (omega arith)
take-front (suc m) (x ∷ xs) ys h = ap (◌∷◌ x) (take-front m xs ys (omega arith))

take-take : (m n : ℕ) (xs : Bytes) → m ≤ n → take m (take n xs) ≡ take m xs
take-take zero n xs h = ground arith
take-take (suc m) zero xs h = absurd (omega arith)
take-take (suc m) (suc n) [] h = refl
take-take (suc m) (suc n) (x ∷ xs) h = ap (◌∷◌ x) (take-take m n xs (omega arith))

take-drop : (m n k : ℕ) (xs : Bytes) → k ≡ n + m → take m (drop n xs) ≡ drop n (take k xs)
take-drop m zero k xs e = let z : k ≡ m = omega arith in rw z
take-drop m (suc n) zero xs e = absurd (let z : ⊥ = omega arith in z)
take-drop zero (suc n) (suc k) [] e = refl
take-drop (suc m) (suc n) (suc k) [] e = refl
take-drop m (suc n) (suc k) (x ∷ xs) e = take-drop m n k xs (omega arith)

get_space-Valid : (b : DataBuf) → Valid b → get_space b ≡ b.size - b.count
get_space-Valid b v = let u = v.used in let d = v.bounded in let s = v.small in omega arith

clamp-le : (bound num : ℕ) → clamp bound num ≤ bound
clamp-le bound num = ground arith

shifted-length :
    (n size : ℕ) (m : Bytes) → n ≤ size → length m ≡ size + 1 → length (shifted n size m) ≡ size + 1
shifted-length n size m le e =
    let a = length-append (take (size - n) (drop n m)) (replicate n 0 ++ drop size m) in
    let b = length-append (replicate n 0) (drop size m) in
    let t = length-take (size - n) (drop n m) in
    let d = length-drop n m in
    let f = length-drop size m in let r = length-replicate n 0 in omega arith

shifted-front :
    (n size c k : ℕ) (m : Bytes)
    → n + c ≤ size
    → length m ≡ size + 1
    → k ≡ n + c
    → take c (shifted n size m) ≡ drop n (take k m)
shifted-front n size c k m le e z =
    let t = length-take (size - n) (drop n m) in
    let d = length-drop n m in
    take-front c (take (size - n) (drop n m)) (replicate n 0 ++ drop size m) (omega arith)
    ∙ (take-take c (size - n) (drop n m) (omega arith) ∙ take-drop c n k m z)

bytes_of-shifted_mem :
    (n size : ℕ) (o : Option Bytes)
    → length (bytes_of o) ≡ size + 1
    → bytes_of (shifted_mem n size o) ≡ shifted n size (bytes_of o)
bytes_of-shifted_mem n size none e = absurd (let z : ⊥ = omega arith in z)
bytes_of-shifted_mem n size (some m) e = refl

take-plus : (c n k : ℕ) (xs : Bytes) → k ≡ c + n → take k xs ≡ take c xs ++ take n (drop c xs)
take-plus zero n k xs e = let z : k ≡ n = omega arith in rw z (ground arith)
take-plus (suc c) n zero xs e = absurd (let z : ⊥ = omega arith in z)
take-plus (suc c) zero (suc k) [] e = refl
take-plus (suc c) (suc n) (suc k) [] e = refl
take-plus (suc c) n (suc k) (x ∷ xs) e = ap (◌∷◌ x) (take-plus c n k xs (omega arith))

-- data_buf_consume takes bytes off the front of a valid buffer, as many as it is asked for or all,
-- returns their number, and leaves a valid buffer with the rest.
pub consume-Valid :
    (num : ℕ) (b : DataBuf)
    → Valid b
    → let n = clamp b.count num in
      ((consume num b).0 ≡ n)
      × Valid (consume num b).1
      × (contents (consume num b).1 ≡ drop n (contents b))
unfolding consume
consume-Valid num b v =
    let n = clamp b.count num in
    let le : n ≤ b.count = clamp-le b.count num in
    let u = v.used in
    let mem_is = bytes_of-shifted_mem n b.size b.mem v.mem_len in
    let valid : Valid (consume num b).1 = record {
      mem_len = ap length mem_is ∙ shifted-length n b.size (bytes_of b.mem) (omega arith) v.mem_len;
      used = omega arith;
      bounded = v.bounded;
      small = v.small;
    } in
    let rest =
      ap (take (b.count - n)) mem_is
      ∙ shifted-front n b.size (b.count - n) b.count (bytes_of b.mem) (omega arith) v.mem_len
          (omega arith) in
    (refl, valid, rest)

-- data_buf_add makes the bytes behind the used ones of a valid buffer part of its contents, as many
-- as it is asked for or as there is space, and returns their number.
pub add-Valid :
    (num : ℕ) (b : DataBuf)
    → Valid b
    → let n = clamp (b.size - b.count) num in
      ((add num b).0 ≡ n)
      × Valid (add num b).1
      × (contents (add num b).1 ≡ contents b ++ take n (drop b.count (bytes_of b.mem)))
unfolding add
add-Valid num b v =
    let n = clamp (b.size - b.count) num in
    let le : n ≤ b.size - b.count = clamp-le (b.size - b.count) num in
    let space = get_space-Valid b v in
    let n_is : clamp (get_space b) num ≡ n = ap (λ k. clamp k num) space in
    let u = v.used in
    let d = v.bounded in
    let s = v.small in
    let sum : (b.count + n) % size_mod ≡ b.count + n = omega arith in
    let count_is : (b.count + clamp (get_space b) num) % size_mod ≡ b.count + n =
      ap (λ k. (b.count + k) % size_mod) n_is ∙ sum in
    let valid : Valid (add num b).1 = record {
      mem_len = v.mem_len;
      used = omega arith;
      bounded = v.bounded;
      small = v.small;
    } in
    (
      n_is,
      valid,
      ap (λ k. take k (bytes_of b.mem)) count_is
          ∙ take-plus b.count n (b.count + n) (bytes_of b.mem) refl,
    )

-- The buffer after an expansion to `n` bytes.
abbrev grown : Bytes → ℕ → DataBuf → DataBuf
grown last n b = record b {
  size = n;
  mem = some (take b.count (bytes_of b.mem) ++ (replicate (n - b.count) 0 ++ last));
}

expanded-grown :
    (last : Bytes) (n : ℕ) (s : BufState) (m : Bool × Heap) {k : ℕ} {t : BufState}
    → expanded last n s m ≡ (ok k, t)
    → t.buf ≡ grown last n s.buf
expanded-grown last n s (true, h) e = cc
expanded-grown last n s (false, h) e = cc

le_of : (m n : ℕ) → ltb m n ≡ false → n ≤ m
le_of m n e = ground arith

-- A buffer that holds the same, in an array of `n` bytes and one.
record Grown (n : ℕ) (b c : DataBuf) : Type 0 where
  valid : Valid c
  size_is : c.size ≡ n
  kept : contents c ≡ contents b

grown-Grown :
    (last : Bytes) (n : ℕ) (b : DataBuf)
    → Valid b
    → length last ≡ 1
    → b.count ≤ n
    → n ≤ b.max_size
    → Grown n b (grown last n b)
grown-Grown last n b v one le max =
    let u = v.used in
    let m = v.mem_len in
    let front = take b.count (bytes_of b.mem) in
    let a = length-append front (replicate (n - b.count) 0 ++ last) in
    let c = length-append (replicate (n - b.count) 0) last in
    let t = length-take b.count (bytes_of b.mem) in
    let r = length-replicate (n - b.count) 0 in
    record {
      valid = record { mem_len = omega arith; used = le; bounded = max; small = v.small };
      size_is = refl;
      kept = take-append b.count front (replicate (n - b.count) 0 ++ last) (omega arith);
    }

-- Where data_buf_expand succeeds on a valid buffer, it leaves a valid buffer of twice the size with
-- the same contents; `last` is the one byte that malloc leaves behind the new space.
pub expand-Valid :
    (last : Bytes) (s : BufState) {k : ℕ} {t : BufState}
    → Valid s.buf
    → length last ≡ 1
    → expand last s ≡ (ok k, t)
    → Valid t.buf × (t.buf.size ≡ 2 * s.buf.size) × (contents t.buf ≡ contents s.buf)
unfolding expand
expand-Valid last s {t = t} v one e =
    let u = v.used in
    let d = v.bounded in
    let m = v.small in
    let whole : 2 * s.buf.size % size_mod ≡ 2 * s.buf.size = omega arith in
    elim (Bool-cases (ltb s.buf.max_size (2 * s.buf.size % size_mod))) [
      | inl f ↦ let z = rw f at e in cc
      | inr f ↦
          let fits : 2 * s.buf.size % size_mod ≤ s.buf.max_size = le_of _ _ f in
          let buf_is = expanded-grown last _ s (malloc s.heap) (rw f at e) in
          let g = grown-Grown last (2 * s.buf.size % size_mod) s.buf v one (omega arith) fits in
          rw buf_is (g.valid, whole, g.kept)
    ]

created_buf-Valid :
    (size max_size : ℕ) (m : Bool × Heap) {k : ℕ} {t : BufState}
    → size ≤ max_size
    → 2 * max_size < size_mod
    → created_buf size max_size m ≡ (ok k, t)
    → Valid t.buf × (contents t.buf ≡ []) × (t.buf.size ≡ size)
created_buf-Valid size max_size (false, h) le lt e = cc
created_buf-Valid size max_size (true, h) {t = t} le lt e =
    let whole : (size + 1) % size_mod ≡ size + 1 = omega arith in
    let len = length-replicate ((size + 1) % size_mod) 0 ∙ whole in
    let state_is : t ≡ (created_buf size max_size (true, h)).1 = cc in
    rw state_is
      (record { mem_len = len; used = omega arith; bounded = le; small = lt }, ground arith, refl)

-- Where data_buf_create succeeds, with a maximum that can be doubled in a size_t, the buffer is
-- valid and empty, of the size asked for.
pub create-Valid :
    (size max_size : ℕ) (h : Heap) {k : ℕ} {t : BufState}
    → 2 * max_size < size_mod
    → create size max_size h ≡ (ok k, t)
    → Valid t.buf × (contents t.buf ≡ []) × (t.buf.size ≡ size)
unfolding create
create-Valid size max_size h lt e = elim (Bool-cases (ltb max_size size)) [
  | inl f ↦ let z = rw f at e in cc
  | inr f ↦ created_buf-Valid size max_size (malloc h) (le_of _ _ f) lt (rw f at e)
]
