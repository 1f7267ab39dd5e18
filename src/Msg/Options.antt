-- ===== src/Msg/Options.antt =====
-- lib/src/coap_msg.c: option structures, the option list, and the checks over its numbers.
use free_co_ap.Common.{
  ℕ, ◌*◌, ◌/◌, ◌%◌, Bool, false, ◌&&◌, ◌||◌, not, List, [], ◌∷◌, ◌++◌, Option, none, some, Heap,
  malloc, free, Result, ok, err, enomem, Bytes, take, ltb, leb, ◌==◌, if◌then◌else◌,
}
use free_co_ap.Msg.{Op, Msg, State, M}

-- coap_msg_op_num_is_critical, coap_msg_op_num_is_unsafe, coap_msg_op_num_no_cache_key: the masks
-- 1, 2 and 0x1e written as arithmetic.
unfoldable pub is_critical : ℕ → Bool
is_critical num = not (num % 2 == 0)

unfoldable pub is_unsafe : ℕ → Bool
is_unsafe num = not (num / 2 % 2 == 0)

unfoldable pub no_cache_key : ℕ → Bool
no_cache_key num = num / 2 % 16 * 2 == 0x1c

-- The option numbers of coap_msg_op_num_t, in the order of the switch.
abbrev pub recognized_nums : List ℕ
recognized_nums = 1 ∷ 3 ∷ 4 ∷ 5 ∷ 7 ∷ 8 ∷ 11 ∷ 12 ∷ 14 ∷ 15 ∷ 17 ∷ 20 ∷ 35 ∷ 39 ∷ 60 ∷ []

abbrev pub is_case_of : ℕ → List ℕ → Bool
is_case_of num [] = false
is_case_of num (c ∷ cs) = num == c || is_case_of num cs

-- coap_msg_op_num_is_recognized
unfoldable pub is_recognized : ℕ → Bool
is_recognized num = is_case_of num recognized_nums

-- coap_msg_op_new: the structure, then the value; the structure is freed if the value fails.
unfoldable pub op_new : ℕ → ℕ → Bytes → Heap → Option Op × Heap
op_new num len val h =
    let (have_op, h1) = malloc h in
    let (have_val, h2) = malloc h1 in
    if not have_op
    then (none, h1)
    else if not have_val
    then (none, free 1 h2)
    else (some (record { num = num; len = len; val = take len val }), h2)

abbrev pub with_ops : Msg → List Op → Msg
with_ops m ops = record m { op_list = ops }

-- How a list function goes on from coap_msg_op_new: `place` puts the option into the list.
abbrev pub add_with : (Op → List Op → List Op) → Msg → Option Op × Heap → Result ℕ × State
add_with place m (none, h) = (err enomem, record { msg = m; heap = h })
add_with place m (some op, h) = (ok 0, record { msg = with_ops m (place op m.op_list); heap = h })

abbrev pub place_last : Op → List Op → List Op
place_last op ops = ops ++ (op ∷ [])

-- coap_msg_op_list_add_last
unfoldable pub add_last : ℕ → ℕ → Bytes → M ℕ
add_last num len val s = add_with place_last s.msg (op_new num len val s.heap)

-- The loop of coap_msg_op_list_add: `prev`, and the options behind it. It stops at the last option,
-- and puts the new one there.
unfoldable pub place_after : Op → Op → List Op → List Op
place_after op prev [] = prev ∷ op ∷ []
place_after op prev (next ∷ rest) =
    if leb prev.num op.num && ltb op.num next.num
    then prev ∷ op ∷ next ∷ rest
    else prev ∷ place_after op next rest

-- The empty list, the start of the list, or the loop.
unfoldable pub place_sorted : Op → List Op → List Op
place_sorted op [] = op ∷ []
place_sorted op (first ∷ rest) =
    if ltb op.num first.num then op ∷ first ∷ rest else place_after op first rest

-- coap_msg_op_list_add
unfoldable pub add_sorted : ℕ → ℕ → Bytes → M ℕ
add_sorted num len val s = add_with place_sorted s.msg (op_new num len val s.heap)

-- coap_msg_check_critical_ops and coap_msg_check_unsafe_ops over the options from `op` on.
unfoldable pub check_ops : (ℕ → Bool) → List Op → ℕ
check_ops test [] = 0
check_ops test (op ∷ ops) =
    if test op.num && not (is_recognized op.num) then op.num else check_ops test ops

unfoldable pub check_critical_ops : Msg → ℕ
check_critical_ops m = check_ops is_critical m.op_list

unfoldable pub check_unsafe_ops : Msg → ℕ
check_unsafe_ops m = check_ops is_unsafe m.op_list
