-- ===== src/Msg/Codec.antt =====
-- One option on the wire: what coap_msg_format_op writes is what coap_msg_parse_op reads.
use free_co_ap.Common.{
  ℕ, ◌+◌, ◌-◌, ◌*◌, ◌/◌, ◌%◌, ◌≤◌, ◌<◌, Bool, true, false, [], ◌∷◌, ◌++◌, List, ◌≡◌, refl, ◌⊎◌, ok,
  Bytes, take, drop, length, length-append, length-take, drop-append, drop-drop, take_all,
  append_assoc, arith, u32_mod,
}
use free_co_ap.Msg.{Op}
use free_co_ap.Msg.Wire.{parse_ext, parse_exts, parse_op_head}
use free_co_ap.Msg.Format.{op_delta, nibble, ext_bytes, op_bytes, to_be16}

-- A number that the nibble and the bytes behind it can carry. Where `char` is signed, an extension
-- byte above 127 is not read back.
abbrev pub FitsExt : Bool → ℕ → Type 0
FitsExt true x = (x < 65805) × ((x ≤ 140) ⊎ (269 ≤ x))
FitsExt false x = x < 65805

-- An option that can stand behind the number `prev_num`.
pub record OpFits (char_signed : Bool) (prev_num : ℕ) (op : Op) : Type 0 where
  pub num_ge : prev_num ≤ op.num
  pub num_lt : op.num < u32_mod
  pub delta_fits : FitsExt char_signed (op.num - prev_num)
  pub len_fits : FitsExt char_signed op.len
  pub val_length : length op.val ≡ op.len

abbrev pub OpsFit : Bool → ℕ → List Op → Type 0
OpsFit char_signed prev_num [] = Unit
OpsFit char_signed prev_num (op ∷ ops) =
    OpFits char_signed prev_num op × OpsFit char_signed op.num ops

pub op_delta_lem :
    (op : Op) (prev_num : ℕ)
    → prev_num ≤ op.num
    → op.num < u32_mod
    → op_delta op prev_num ≡ op.num - prev_num
op_delta_lem op prev_num h k = omega arith

pub parse_ext-ext_bytes :
    (char_signed : Bool) (x : ℕ) (rest : Bytes)
    → FitsExt char_signed x
    → parse_ext char_signed (nibble x) (ext_bytes x ++ rest) ≡ ok (x, length (ext_bytes x))
unfolding parse_ext nibble ext_bytes to_be16
parse_ext-ext_bytes true x rest h = ground arith
parse_ext-ext_bytes false x rest h = ground arith

pub nibble_lt : (x : ℕ) → nibble x < 15
unfolding nibble
nibble_lt x = ground arith

-- How many bytes of an option stand before its value.
abbrev pub head_len : Op → ℕ → ℕ
head_len op delta = 1 + length (ext_bytes delta) + length (ext_bytes op.len)

abbrev head_byte : Op → ℕ → ℕ
head_byte op delta = nibble delta * 16 + nibble op.len

pub op_bytes-append :
    (op : Op) (delta : ℕ) (rest : Bytes)
    → length op.val ≡ op.len
    → op_bytes op delta ++ rest
      ≡ head_byte op delta ∷ (ext_bytes delta ++ (ext_bytes op.len ++ (op.val ++ rest)))
op_bytes-append op delta rest h =
    unfold op_bytes in simp (take_all op.len op.val (omega arith), append_assoc)

pub parse_op_head_parts :
    (char_signed : Bool) (a b : ℕ) (buf : Bytes) {delta n len k : ℕ}
    → a < 15
    → b < 15
    → parse_ext char_signed a buf ≡ ok (delta, n)
    → parse_ext char_signed b (drop n buf) ≡ ok (len, k)
    → len ≤ length (drop k (drop n buf))
    → parse_op_head char_signed ((a * 16 + b) ∷ buf) ≡ ok (delta, len, 1 + n + k)
parse_op_head_parts char_signed a b buf ha hb p q r =
    let ea : (a * 16 + b) / 16 % 16 ≡ a = omega arith in
    let eb : (a * 16 + b) % 16 ≡ b = omega arith in
    unfold parse_op_head parse_exts in rw (ea, eb) (ground arith)

-- The head of a formatted option gives the delta, the length and the place of the value back.
pub parse_op_head-op_bytes :
    (char_signed : Bool) (op : Op) (delta : ℕ) (rest : Bytes)
    → FitsExt char_signed delta
    → FitsExt char_signed op.len
    → length op.val ≡ op.len
    → parse_op_head char_signed (op_bytes op delta ++ rest) ≡ ok (delta, op.len, head_len op delta)
parse_op_head-op_bytes char_signed op delta rest hd hl hv =
    let exts = ext_bytes op.len ++ (op.val ++ rest) in
    rw (op_bytes-append op delta rest hv) (
      parse_op_head_parts char_signed (nibble delta) (nibble op.len) (ext_bytes delta ++ exts)
        (nibble_lt delta) (nibble_lt op.len) (parse_ext-ext_bytes char_signed delta exts hd)
        (rw (drop-append _ (ext_bytes delta) exts refl)
          (parse_ext-ext_bytes char_signed op.len (op.val ++ rest) hl))
        (rw
          (
            drop-append _ (ext_bytes delta) exts refl,
            drop-append _ (ext_bytes op.len) (op.val ++ rest) refl,
          )
          (omega (arith, length-append op.val rest))))

pub length-op_bytes :
    (op : Op) (delta : ℕ)
    → length op.val ≡ op.len
    → length (op_bytes op delta) ≡ head_len op delta + op.len
length-op_bytes op delta h =
    unfold op_bytes in
    omega (
      arith,
      length-append (ext_bytes delta) (ext_bytes op.len ++ take op.len op.val),
      length-append (ext_bytes op.len) (take op.len op.val),
      length-take op.len op.val,
    )

pub drop-op_bytes :
    (op : Op) (delta : ℕ) (rest : Bytes)
    → length op.val ≡ op.len
    → drop (head_len op delta) (op_bytes op delta ++ rest) ≡ op.val ++ rest
drop-op_bytes op delta rest h =
    let exts = ext_bytes op.len ++ (op.val ++ rest) in
    let front = head_byte op delta ∷ ext_bytes delta in
    rw (
      op_bytes-append op delta rest h,
      ← drop-drop (1 + length (ext_bytes delta)),
      drop-append (1 + length (ext_bytes delta)) front exts (omega arith),
      drop-append _ (ext_bytes op.len) (op.val ++ rest) refl,
    )
