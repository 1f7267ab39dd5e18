-- ===== src/Common/Actions.antt =====
-- Calls of C functions that change a state and return a number or an error code, one after the
-- other.
use mathlib.Core.Path.{◌≡◌, refl}
use free_co_ap.Common.Results.{Errno, Result, ok, err, stuck}
use Prim.Native.Nat.{ℕ}

-- The next call of a function, where the last one did not fail: `if (ret < 0) return ret;`.
abbrev pub continue : {S A B : Type 0} → Result A × S → (A → S → Result B × S) → Result B × S
continue (stuck, s) f = (stuck, s)
continue (err e, s) f = (err e, s)
continue (ok a, s) f = f a s

infixl 5 ◌>>=◌ ◌>>◌
abbrev pub ◌>>=◌ : {S A B : Type 0} → (S → Result A × S) → (A → S → Result B × S) → S → Result B × S
◌>>=◌ m f s = continue (m s) f

abbrev pub ◌>>◌ : {S A B : Type 0} → (S → Result A × S) → (S → Result B × S) → S → Result B × S
m >> k = m >>= λ _. k

abbrev pub return : {S A : Type 0} → A → S → Result A × S
return a s = (ok a, s)

abbrev pub fail : {S A : Type 0} → Errno → S → Result A × S
fail e s = (err e, s)

-- A call whose status the caller does not look at.
abbrev pub ignore : {S A : Type 0} → Result A × S → Result ℕ × S
ignore (stuck, s) = (stuck, s)
ignore (err e, s) = (ok 0, s)
ignore (ok a, s) = (ok 0, s)

pub continue-eq-ok :
    {S A B : Type 0} (r : Result A × S) (f : A → S → Result B × S) {b : B} {s' : S}
    → continue r f ≡ (ok b, s')
    → (a : A) × (t : S) × (r ≡ (ok a, t)) × (f a t ≡ (ok b, s'))
continue-eq-ok (stuck, t) f h = cc
continue-eq-ok (err e, t) f h = cc
continue-eq-ok (ok a, t) f h = (a, t, refl, h)
