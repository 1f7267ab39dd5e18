-- ===== src/Msg/Copy.antt =====
-- coap_msg_copy into a new message (lib/src/coap_msg.c).
use free_co_ap.Common.{
  ℕ, suc, ◌+◌, ◌*◌, ◌≤◌, ◌<◌, Bool, false, List, [], ◌∷◌, ◌++◌, ◌≡◌, refl, Option, none, some, Heap,
  ok, Bytes, replicate, length, take_all, drop-replicate, append-nil, append_assoc, All, arith, ltb,
}
use free_co_ap.Msg.{Op, Msg, State, created, owned_blocks, payload_blocks}
use free_co_ap.Msg.Options.{op_new, add_sorted, place_after, place_sorted, with_ops}
use free_co_ap.Msg.Parse.{with_payload}
use free_co_ap.Msg.Build.{set_type, set_code, set_msg_id, set_token, set_payload, copy_ops, copy}
use free_co_ap.Msg.Format.{payload_bytes}
use free_co_ap.Msg.Codec.{OpsFit}
use free_co_ap.Msg.OpsRoundTrip.{after_ops}
use free_co_ap.Msg.RoundTrip.{Fits, PayloadFits, is_code_class_lt}

place_after_last :
    (op prev : Op) (rest : List Op)
    → All (λ (o : Op). o.num ≤ op.num) rest
    → place_after op prev rest ≡ prev ∷ (rest ++ (op ∷ []))
unfolding place_after
place_after_last op prev [] h = refl
place_after_last op prev (next ∷ rest) (h, hs) = ground (arith, place_after_last op next rest hs)

-- An option whose number no other exceeds goes to the end.
place_sorted_last :
    (op : Op) (ops : List Op)
    → All (λ (o : Op). o.num ≤ op.num) ops
    → place_sorted op ops ≡ ops ++ (op ∷ [])
unfolding place_sorted
place_sorted_last op [] h = refl
place_sorted_last op (first ∷ rest) (h, hs) = ground (arith, place_after_last op first rest hs)

abbrev pub appended : List Op → State → State
appended ops s = record { msg = with_ops s.msg (s.msg.op_list ++ ops); heap = after_ops ops s.heap }

pub add_sorted_last :
    (op : Op) (s : State)
    → s.heap.outcomes ≡ []
    → length op.val ≡ op.len
    → All (λ (o : Op). o.num ≤ op.num) s.msg.op_list
    → add_sorted op.num op.len op.val s ≡ (ok 0, appended (op ∷ []) s)
unfolding add_sorted op_new
add_sorted_last op s o v les =
    let two : s.heap.allocs + 1 + 1 ≡ s.heap.allocs + 2 * 1 = omega arith in
    rw (o, take_all op.len op.val (omega arith), place_sorted_last op s.msg.op_list les, two)

pub All-last :
    (low n : ℕ) (op : Op) (ops : List Op)
    → All (λ (o : Op). o.num ≤ low) ops
    → low ≤ op.num
    → All (λ (o : Op). o.num ≤ op.num) (ops ++ (op ∷ []))
All-last low n op [] h le = (omega arith, tt)
All-last low n op (o ∷ ops) (h, hs) le = (omega arith, All-last low n op ops hs le)

pub All-weaken :
    (low n : ℕ) (ops : List Op)
    → low ≤ n
    → All (λ (o : Op). o.num ≤ low) ops
    → All (λ (o : Op). o.num ≤ n) ops
All-weaken low n [] h a = tt
All-weaken low n (o ∷ ops) h (a, as') = (omega arith, All-weaken low n ops h as')

-- Options in order are copied one behind the other.
copy_ops_lem :
    (char_signed : Bool) (low : ℕ) (ops : List Op) (s : State)
    → OpsFit char_signed low ops
    → s.heap.outcomes ≡ []
    → All (λ (o : Op). o.num ≤ low) s.msg.op_list
    → copy_ops ops s ≡ (ok 0, appended ops s)
unfolding copy_ops
copy_ops_lem char_signed low [] s fs o les =
    let e : s.heap.allocs + 2 * 0 ≡ s.heap.allocs = omega arith in rw (append-nil, e)
copy_ops_lem char_signed low (op ∷ ops) s (f, fs) o les =
    let blocks : s.heap.allocs + 2 * 1 + 2 * length ops ≡ s.heap.allocs + 2 * suc (length ops) =
      omega arith in
    rw (
      add_sorted_last op s o f.val_length (All-weaken low op.num s.msg.op_list f.num_ge les),
      copy_ops_lem char_signed op.num ops (appended (op ∷ []) s) fs o
          (All-last low 0 op s.msg.op_list les f.num_ge),
      append_assoc s.msg.op_list (op ∷ []) ops,
      blocks,
    )

abbrev with_type : Msg → ℕ → Msg
with_type m t = record m { type = t }

abbrev with_code : Msg → ℕ → ℕ → Msg
with_code m c d = record m { code_class = c; code_detail = d }

abbrev with_msg_id : Msg → ℕ → Msg
with_msg_id m i = record m { msg_id = i }

abbrev with_token_of : Msg → Msg → Msg
with_token_of m src = record m { token = src.token; token_len = src.token_len }

set_type_lem :
    (t : ℕ) (s : State) → t < 4 → set_type t s ≡ (ok 0, record s { msg = with_type s.msg t })
unfolding set_type
set_type_lem t s h = ground arith

set_code_lem :
    (c d : ℕ) (s : State)
    → c < 8
    → d < 32
    → set_code c d s ≡ (ok 0, record s { msg = with_code s.msg c d })
unfolding set_code
set_code_lem c d s h k = ground arith

set_msg_id_lem :
    (i : ℕ) (s : State)
    → i < 65536
    → set_msg_id i s ≡ (ok 0, record s { msg = with_msg_id s.msg i })
unfolding set_msg_id
set_msg_id_lem i s h = ground arith

set_payload_lem :
    (p : Option Bytes) (n : ℕ) (s : State)
    → PayloadFits p n
    → s.heap.outcomes ≡ []
    → s.msg.payload ≡ none
    → set_payload (payload_bytes p) n s ≡ (
      ok 0,
      record {
        msg = with_payload s.msg p n;
        heap = record (s.heap) { allocs = s.heap.allocs + payload_blocks p };
      },
    )
unfolding set_payload
set_payload_lem none n s f o e = ground arith
set_payload_lem (some b) n s f o e = ground (arith, take_all n b)

module _ (char_signed : Bool) (src : Msg) (f : Fits char_signed src) where
  set_token_lem :
      (s : State)
      → s.msg.token ≡ replicate 8 0
      → set_token src.token src.token_len s ≡ (ok 0, record s { msg = with_token_of s.msg src })
  unfolding set_token
  set_token_lem s c =
      let short : ltb 8 src.token_len ≡ false = ground (arith, f.token_len_le) in
      rw (short, c, drop-replicate {A = ℕ} src.token_len 8 0, ← f.token_is)

  abbrev copied : Heap → State
  copied h = record { msg = src; heap = record h { allocs = h.allocs + owned_blocks src } }

  -- The state of the copy before its options.
  abbrev before_ops : Heap → State
  before_ops h = record {
    msg = record src { op_list = []; payload = none; payload_len = 0 };
    heap = h;
  }

  -- A message that the format can express is copied into a new one without a change, where the
  -- allocations succeed; the copy owns all that was allocated.
  pub copy-Fits :
      (h : Heap)
      → h.outcomes ≡ []
      → copy src (record { msg = created; heap = h }) ≡ (ok 0, copied h)
  unfolding copy
  copy-Fits h o =
      let s0 : State = record { msg = record created { ver = src.ver }; heap = h } in
      let s1 : State = record s0 { msg = with_type s0.msg src.type } in
      let s2 : State = record s1 { msg = with_code s1.msg src.code_class src.code_detail } in
      let s3 : State = record s2 { msg = with_msg_id s2.msg src.msg_id } in
      let blocks : h.allocs + 2 * length src.op_list + payload_blocks src.payload
          ≡ h.allocs + owned_blocks src =
        omega arith in
      rw (
        set_type_lem src.type s0 f.type_lt,
        set_code_lem src.code_class src.code_detail s1
            (is_code_class_lt src.code_class f.code_class_is) f.code_detail_lt,
        set_msg_id_lem src.msg_id s2 f.msg_id_lt,
        set_token_lem s3 refl,
        copy_ops_lem char_signed 0 src.op_list (before_ops h) f.ops_fit o tt,
        set_payload_lem src.payload src.payload_len (appended src.op_list (before_ops h))
            f.payload_fits o refl,
        blocks,
      )
