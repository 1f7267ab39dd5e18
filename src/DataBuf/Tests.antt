-- ===== src/DataBuf/Tests.antt =====
-- Runs of the data buffer, and its theorems at these.
use free_co_ap.Common.{◌*◌, ◌≡◌, refl, some, [], ◌∷◌, ◌++◌, Heap, ok, take, drop, arith}
use free_co_ap.DataBuf.{DataBuf, BufState, bytes_of, create, expand, add, consume}
use free_co_ap.DataBuf.Queue.{Valid, contents, add-Valid, consume-Valid, expand-Valid}

abbrev heap0 : Heap
heap0 = record { outcomes = []; allocs = 0; frees = 0 }

-- Three of four bytes are used.
abbrev three : DataBuf
three = record { count = 3; size = 4; max_size = 8; mem = some (1 ∷ 2 ∷ 3 ∷ 9 ∷ 0 ∷ []) }

three-Valid : Valid three
three-Valid = record {
  mem_len = refl;
  used = omega arith;
  bounded = omega arith;
  small = omega arith;
}

consume-three :
    (consume 2 three).1 ≡ record three { count = 1; mem = some (3 ∷ 9 ∷ 0 ∷ 0 ∷ 0 ∷ []) }
unfolding consume
consume-three = refl

consume-Valid_example :
    ((consume 2 three).0 ≡ 2)
    × Valid (consume 2 three).1
    × (contents (consume 2 three).1 ≡ drop 2 (contents three))
consume-Valid_example = consume-Valid 2 three three-Valid

add-Valid_example :
    ((add 5 three).0 ≡ 1)
    × Valid (add 5 three).1
    × (contents (add 5 three).1 ≡ contents three ++ take 1 (drop 3 (bytes_of three.mem)))
add-Valid_example = add-Valid 5 three three-Valid

abbrev three_state : BufState
three_state = record { buf = three; heap = heap0 }

expand-three : expand (7 ∷ []) three_state ≡ (ok 0, (expand (7 ∷ []) three_state).1)
unfolding expand
expand-three = refl

expand-Valid_example :
    Valid (expand (7 ∷ []) three_state).1.buf
    × ((expand (7 ∷ []) three_state).1.buf.size ≡ 2 * 4)
    × (contents (expand (7 ∷ []) three_state).1.buf ≡ contents three)
expand-Valid_example = expand-Valid (7 ∷ []) three_state three-Valid refl expand-three

create-four : create 4 8 heap0 ≡ (ok 0, (create 4 8 heap0).1)
unfolding create
create-four = refl
