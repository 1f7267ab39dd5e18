-- ===== src/Common/Memory.antt =====
-- The C allocator as the program sees it, and words of fixed width.
use Prim.Native.Nat.{ℕ, ◌+◌, ◌^◌, ◌<◌}
use mathlib.Core.Bool.{Bool, true, false}
use mathlib.Core.List.{List, [], ◌∷◌}

-- `outcomes` says whether the coming calls of malloc succeed, one entry a call; when it is used up
-- they all do. `allocs` and `frees` count the blocks handed out and given back so far.
pub record Heap : Type 0 where
  pub outcomes : List Bool
  pub allocs : ℕ
  pub frees : ℕ

abbrev pub next_outcome : List Bool → Bool
next_outcome [] = true
next_outcome (b ∷ bs) = b

abbrev pub later_outcomes : List Bool → List Bool
later_outcomes [] = []
later_outcomes (b ∷ bs) = bs

abbrev allocated : Bool → Heap → Heap
allocated true h = record h { outcomes = later_outcomes h.outcomes; allocs = h.allocs + 1 }
allocated false h = record h { outcomes = later_outcomes h.outcomes }

-- malloc or calloc: whether it succeeded, and the allocator afterwards.
abbrev pub malloc : Heap → Bool × Heap
malloc h = (next_outcome h.outcomes, allocated (next_outcome h.outcomes) h)

-- free of `n` blocks.
abbrev pub free : ℕ → Heap → Heap
free n h = record h { frees = h.frees + n }

-- The number of values of `unsigned` and of `size_t`.
abbrev pub u32_mod : ℕ
u32_mod = 2 ^ 32

abbrev pub size_mod : ℕ
size_mod = 2 ^ 64

abbrev pub Bytes : Type 0
Bytes = List ℕ

abbrev pub IsByte : ℕ → Type 0
IsByte b = b < 256
