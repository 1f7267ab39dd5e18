-- ===== src/Server/Slots.antt =====
-- Entries of the table of transactions (lib/src/coap_server.c): searches, and what all own together.
use free_co_ap.Common.{
  ℕ, zero, suc, ◌+◌, ◌≤◌, ◌<◌, Bool, true, false, ◌&&◌, ◌||◌, ltb, List, [], ◌∷◌, ◌≡◌, refl, ap,
  ◌⊎◌, inl, inr, Option, none, some, Bytes, length, ◌==◌, if◌then◌else◌, arith, Bool-cases,
}
use free_co_ap.Client.Exchange.{same_front}
use free_co_ap.Server.{Trans}
use free_co_ap.Server.Transfer.{same_address}
use free_co_ap.Server.Table.{find_index, oldest_from, find_oldest_trans, entry, replace}
use free_co_ap.Server.Books.{one_if}

-- The sum of a measure over the table.
abbrev pub total : (Trans → ℕ) → List Trans → ℕ
total f [] = 0
total f (t ∷ ts) = f t + total f ts

pub total-replace :
    (f : Trans → ℕ) (i : ℕ) (t : Trans) (ts : List Trans)
    → i < length ts
    → total f (replace i t ts) + f (entry i ts) ≡ total f ts + f t
unfolding replace entry
total-replace f i t [] h = absurd (omega arith)
total-replace f zero t (x ∷ xs) h = omega arith
total-replace f (suc i) t (x ∷ xs) h = let e = total-replace f i t xs (omega arith) in omega arith

pub length-replace : (i : ℕ) (t : Trans) (ts : List Trans) → length (replace i t ts) ≡ length ts
unfolding replace
length-replace i t [] = refl
length-replace zero t (x ∷ xs) = refl
length-replace (suc i) t (x ∷ xs) = ap suc (length-replace i t xs)

-- What the search at an entry gives, from its test and the search behind it.
abbrev first_of : Bool → Option ℕ → Option ℕ
first_of here rest = if here then some 0 else elim rest [ none ↦ none | some i ↦ some (suc i) ]

first_of-some :
    (here : Bool) (rest : Option ℕ) (i : ℕ)
    → first_of here rest ≡ some i
    → ((here ≡ true) × (i ≡ 0)) ⊎ ((k : ℕ) × (rest ≡ some k) × (i ≡ suc k))
first_of-some true rest i e = inl (refl, cc)
first_of-some false none i e = cc
first_of-some false (some k) i e = inr (k, refl, cc)

first_of-none :
    (here : Bool) (rest : Option ℕ) → first_of here rest ≡ none → (here ≡ false) × (rest ≡ none)
first_of-none true rest e = cc
first_of-none false none e = (refl, refl)
first_of-none false (some k) e = cc

-- An index found is that of an entry that passes, and where none is found the test fails on all.
pub find_index-some :
    (test : Trans → Bool) (ts : List Trans) (i : ℕ)
    → find_index test ts ≡ some i
    → (i < length ts) × (test (entry i ts) ≡ true)
unfolding find_index entry
find_index-some test [] i e = cc
find_index-some test (t ∷ ts) i e = elim (first_of-some (test t) (find_index test ts) i e) [
  | inl (h, z) ↦ rw z (omega arith, h)
  | inr (k, f, z) ↦
      let ih = find_index-some test ts k f in rw z (let lt = ih.0 in omega arith, ih.1)
]

pub find_index-none :
    (test : Trans → Bool) (ts : List Trans)
    → find_index test ts ≡ none
    → total (λ t. one_if (test t)) ts ≡ 0
unfolding find_index
find_index-none test [] e = refl
find_index-none test (t ∷ ts) e =
    let h = first_of-none (test t) (find_index test ts) e in
    let here : one_if (test t) ≡ 0 = rw h.0 in let ih = find_index-none test ts h.1 in omega arith

-- The index of the oldest is that of an entry.
oldest_from_lt :
    (i : ℕ) (ts : List Trans) (oldest least n : ℕ)
    → oldest < n
    → i + length ts ≤ n
    → oldest_from i ts oldest least < n
unfolding oldest_from
oldest_from_lt i [] oldest least n h k = h
oldest_from_lt i (t ∷ ts) oldest least n h k =
    elim (Bool-cases (t.active && (least == 0 || ltb t.last_use least))) [
      | inl e ↦ rw e (oldest_from_lt (suc i) ts i t.last_use n (omega arith) (omega arith))
      | inr e ↦ rw e (oldest_from_lt (suc i) ts oldest least n h (omega arith))
    ]

pub find_oldest_trans_lt : (ts : List Trans) → 0 < length ts → find_oldest_trans ts < length ts
unfolding find_oldest_trans
find_oldest_trans_lt ts h = oldest_from_lt 0 ts 0 0 (length ts) h (omega arith)

-- The addresses that same_address takes for the same are the same.
same_front_eq :
    (xs ys : Bytes) → length xs ≡ length ys → same_front (length ys) xs ys ≡ true → xs ≡ ys
unfolding same_front
same_front_eq [] [] e h = refl
same_front_eq [] (y ∷ ys) e h = absurd (omega arith)
same_front_eq (x ∷ xs) [] e h = absurd (omega arith)
same_front_eq (x ∷ xs) (y ∷ ys) e h = elim (Bool-cases (x == y)) [
  | inl z ↦
      let head : x ≡ y = ground arith in
      let tail = same_front_eq xs ys (omega arith) (rw z at h) in rw (head, tail)
  | inr z ↦ let bad = rw z at h in cc
]

pub same_address_eq : (xs ys : Bytes) → same_address xs ys ≡ true → xs ≡ ys
unfolding same_address
same_address_eq xs ys h = elim (Bool-cases (length xs == length ys)) [
  | inl z ↦ let same : length xs ≡ length ys = ground arith in same_front_eq xs ys same (rw z at h)
  | inr z ↦ let bad = rw z at h in cc
]

same_front_refl : (xs : Bytes) → same_front (length xs) xs xs ≡ true
unfolding same_front
same_front_refl [] = refl
same_front_refl (x ∷ xs) = ground (arith, same_front_refl xs)

pub same_address_refl : (xs : Bytes) → same_address xs xs ≡ true
unfolding same_address
same_address_refl xs =
    let e : (length xs == length xs) ≡ true = ground arith in rw (e, same_front_refl xs)
