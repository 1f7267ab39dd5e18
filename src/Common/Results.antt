-- ===== src/Common/Results.antt =====
-- What a C function of the program returns, and functions that work on a state and may fail.
use mathlib.Core.Path.{◌≡◌, refl}
use Prim.Native.Nat.{ℕ}

-- The codes of errno.h that the program returns itself; `os` is any that a system call leaves.
pub data Errno : Type 0 where
  ebadmsg einval enospc enomem ebusy econnreset etimedout : Errno
  os : ℕ → Errno

-- A value or a negative error code. `stuck` is in the model only: a loop that ran out of its fuel,
-- or a wait for an event that the list of coming events does not have.
pub data Result {ℓ} (A : Type ℓ) : Type ℓ where
  stuck : Result A
  err : Errno → Result A
  ok : A → Result A

infixl 5 ◌>>=◌
abbrev pub ◌>>=◌ {ℓ} : {A B : Type ℓ} → Result A → (A → Result B) → Result B
stuck >>= k = stuck
err code >>= k = err code
ok value >>= k = k value

pub bind-eq-ok {ℓ} :
    {A B : Type ℓ} {w : B} (first : Result A) (k : A → Result B)
    → (first >>= k) ≡ ok w
    → (v : A) × (first ≡ ok v) × (k v ≡ ok w)
bind-eq-ok stuck k e = cc
bind-eq-ok (err code) k e = cc
bind-eq-ok (ok v) k e = (v, refl, e)
