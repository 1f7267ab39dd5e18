-- ===== src/Server/Oldest.antt =====
-- coap_server_find_oldest_trans (lib/src/coap_server.c) and what it means to find.
use Prim.Native.Nat.{min}
use free_co_ap.Common.{
  ℕ, suc, ◌+◌, ◌≤◌, ◌<◌, true, false, ◌&&◌, ◌||◌, List, [], ◌∷◌, ◌≡◌, refl, sym, ap, ◌∙◌, inl, inr,
  All, ltb, ◌==◌, if◌then◌else◌, arith, Bool-cases,
}
use free_co_ap.Server.{Trans}
use free_co_ap.Server.Table.{oldest_from, find_oldest_trans}

-- The least of the times of last use, and of `a`.
abbrev pub least_use : ℕ → List Trans → ℕ
least_use a [] = a
least_use a (t ∷ ts) = min t.last_use (least_use a ts)

-- The index of the first transaction that was last used at a time.
abbrev pub first_at : ℕ → List Trans → ℕ
first_at time [] = 0
first_at time (t ∷ ts) = let rest = first_at time ts in if t.last_use == time then 0 else suc rest

-- The first of those that were used least recently.
abbrev pub first_oldest : List Trans → ℕ
first_oldest [] = 0
first_oldest (t ∷ ts) = first_at (least_use t.last_use ts) (t ∷ ts)

-- A transaction in use; time does not give 0.
abbrev pub IsUsed : Trans → Type 0
IsUsed t = (t.active ≡ true) × (0 < t.last_use)

min-least_use : (a b : ℕ) (ts : List Trans) → a ≤ b → min a (least_use b ts) ≡ least_use a ts
min-least_use a b [] h = omega arith
min-least_use a b (t ∷ ts) h = let ih = min-least_use a b ts h in omega arith

least_use_le : (a : ℕ) (ts : List Trans) → least_use a ts ≤ a
least_use_le a [] = omega arith
least_use_le a (t ∷ ts) = let ih = least_use_le a ts in omega arith

-- What the loop finds from the index `i` on, where `time` is the least time of last use.
abbrev expected : ℕ → List Trans → ℕ → ℕ → ℕ → ℕ
expected i ts oldest least time = if ltb time least then i + first_at time ts else oldest

sooner :
    (i : ℕ) (t : Trans) (ts : List Trans) (oldest least time : ℕ)
    → t.last_use < least
    → time ≤ t.last_use
    → expected (suc i) ts i t.last_use time ≡ expected i (t ∷ ts) oldest least time
sooner i t ts oldest least time h k =
    let lt : ltb time least ≡ true = ground arith in
    elim (Bool-cases (ltb time t.last_use)) [
      | inl e ↦ let ne : (t.last_use == time) ≡ false = ground arith in rw (lt, e, ne) (omega arith)
      | inr e ↦ let eq : (t.last_use == time) ≡ true = ground arith in rw (lt, e, eq) (omega arith)
    ]

later_on :
    (i : ℕ) (t : Trans) (ts : List Trans) (oldest least time : ℕ)
    → least ≤ t.last_use
    → expected (suc i) ts oldest least time ≡ expected i (t ∷ ts) oldest least time
later_on i t ts oldest least time h = elim (Bool-cases (ltb time least)) [
  | inl e ↦ let ne : (t.last_use == time) ≡ false = ground arith in rw (e, ne) (omega arith)
  | inr e ↦ rw e
]

-- A transaction used no sooner does not change what the loop finds.
later_time :
    (i : ℕ) (t : Trans) (ts : List Trans) (oldest least : ℕ)
    → least ≤ t.last_use
    → expected i (t ∷ ts) oldest least (least_use least ts)
      ≡ expected i (t ∷ ts) oldest least (least_use least (t ∷ ts))
later_time i t ts oldest least h =
    let le = least_use_le least ts in
    let m : least_use least (t ∷ ts) ≡ least_use least ts = omega arith in
    ap (expected i (t ∷ ts) oldest least) (sym m)

oldest_from-expected :
    (i : ℕ) (ts : List Trans) (oldest least : ℕ)
    → All IsUsed ts
    → 0 < least
    → oldest_from i ts oldest least ≡ expected i ts oldest least (least_use least ts)
unfolding oldest_from
oldest_from-expected i [] oldest least u p = let e : ltb least least ≡ false = ground arith in rw e
oldest_from-expected i (t ∷ ts) oldest least u p =
    let nz : (least == 0) ≡ false = ground arith in
    elim (Bool-cases (ltb t.last_use least)) [
      | inl e ↦
          let c : (t.active && (least == 0 || ltb t.last_use least)) ≡ true = rw (u.0.0, nz, e) in
          rw c (
            oldest_from-expected (suc i) ts i t.last_use u.1 u.0.1
            ∙ (sooner i t ts oldest least (least_use t.last_use ts) (ground arith)
                  (least_use_le t.last_use ts)
                ∙ ap (expected i (t ∷ ts) oldest least)
                    (sym (min-least_use t.last_use least ts (ground arith)))))
      | inr e ↦
          let c : (t.active && (least == 0 || ltb t.last_use least)) ≡ false = rw (u.0.0, nz, e) in
          rw c (
            oldest_from-expected (suc i) ts oldest least u.1 p
            ∙ (later_on i t ts oldest least (least_use least ts) (ground arith)
                ∙ later_time i t ts oldest least (ground arith)))
    ]

first_found :
    (t : Trans) (ts : List Trans) (time : ℕ)
    → time ≤ t.last_use
    → expected 1 ts 0 t.last_use time ≡ first_at time (t ∷ ts)
first_found t ts time h = elim (Bool-cases (ltb time t.last_use)) [
  | inl e ↦ let ne : (t.last_use == time) ≡ false = ground arith in rw (e, ne) (omega arith)
  | inr e ↦ let eq : (t.last_use == time) ≡ true = ground arith in rw (e, eq)
]

-- Where every transaction is in use, as it is where coap_server_exchange asks, and the clock never
-- gave 0, coap_server_find_oldest_trans finds the first of the transactions that were used least
-- recently.
pub find_oldest_trans-first_oldest :
    (ts : List Trans) → All IsUsed ts → find_oldest_trans ts ≡ first_oldest ts
unfolding find_oldest_trans oldest_from
find_oldest_trans-first_oldest [] u = refl
find_oldest_trans-first_oldest (t ∷ ts) u =
    let c : (t.active && (0 == 0 || ltb t.last_use 0)) ≡ true = rw u.0.0 in
    let le = least_use_le t.last_use ts in
    rw c (
      oldest_from-expected 1 ts 0 t.last_use u.1 u.0.1
      ∙ first_found t ts (least_use t.last_use ts) (least_use_le t.last_use ts))
