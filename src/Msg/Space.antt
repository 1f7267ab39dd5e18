-- ===== src/Msg/Space.antt =====
-- The space that coap_msg_format asks for and the bytes that it writes, in lib/src/coap_msg.c.
use free_co_ap.Common.{
  ℕ, ◌+◌, ◌-◌, ◌≤◌, ◌<◌, Bool, true, false, List, [], ◌∷◌, ◌≡◌, refl, sym, ap, Result, ok,
  bind-eq-ok, Bytes, length, length-append, arith, size_mod,
}
use free_co_ap.Msg.{Op}
use free_co_ap.Msg.Format.{
  counted_len, ext_bytes, op_bytes, to_be16, format_op, size_sub, format_ops,
}
use free_co_ap.Msg.Codec.{OpFits, OpsFit, op_delta_lem, head_len, length-op_bytes}
use free_co_ap.Msg.OpsRoundTrip.{ops_bytes}

-- The length needs an extension byte and the number is below 13, so that coap_msg_format_op counts
-- a byte too few.
abbrev pub IsUndercounted : Op → Type 0
IsUndercounted op = (op.num < 13) × (13 ≤ op.len) × (op.len < 269)

-- The number is 13 or more and the length needs no extension byte: a byte too many.
abbrev pub IsOvercounted : Op → Type 0
IsOvercounted op = (13 ≤ op.num) × (op.len < 13)

length-ext_bytes : (x : ℕ) → length (ext_bytes x) ≤ 2
unfolding ext_bytes to_be16
length-ext_bytes x = ground arith

fits_len :
    (char_signed : Bool) {prev_num : ℕ} {op : Op} → OpFits char_signed prev_num op → op.len < 65805
fits_len true f = f.len_fits.0
fits_len false f = f.len_fits

module _ (char_signed : Bool) (prev_num : ℕ) (op : Op) (f : OpFits char_signed prev_num op) where
  written : ℕ
  written = length (op_bytes op (op.num - prev_num))

  counted : ℕ
  counted = counted_len op (op.num - prev_num)

  written_lem : written ≡ head_len op (op.num - prev_num) + op.len
  unfolding written
  written_lem = length-op_bytes op (op.num - prev_num) f.val_length

  -- The count is exact but in two cases.
  counted_under : IsUndercounted op → counted + 1 ≡ written
  unfolding counted counted_len ext_bytes to_be16
  counted_under u = ground (arith, written_lem, fits_len char_signed f)

  counted_over : IsOvercounted op → counted ≡ written + 1
  unfolding counted counted_len ext_bytes to_be16
  counted_over u = ground (arith, written_lem, fits_len char_signed f)

  counted_exact : ¬ (IsUndercounted op) → ¬ (IsOvercounted op) → counted ≡ written
  unfolding counted counted_len ext_bytes to_be16
  counted_exact u o = ground (arith, written_lem, fits_len char_signed f)

  counted_le : counted ≤ written + 1
  unfolding counted counted_len ext_bytes to_be16
  counted_le = ground (arith, written_lem, fits_len char_signed f)

  counted_ge : ¬ (IsUndercounted op) → written ≤ counted
  unfolding counted counted_len ext_bytes to_be16
  counted_ge u = ground (arith, written_lem, fits_len char_signed f)

  format_op_total :
      (len : ℕ)
      → written + 1 ≤ len
      → format_op op prev_num len ≡ ok (op_bytes op (op.num - prev_num))
  unfolding format_op counted
  format_op_total len h =
      rw (op_delta_lem op prev_num f.num_ge f.num_lt) (ground (arith, counted_le))

  format_op_out :
      (len : ℕ) {out : Bytes}
      → format_op op prev_num len ≡ ok out
      → (out ≡ op_bytes op (op.num - prev_num)) × (counted ≤ len)
  unfolding format_op counted
  format_op_out len h = ground (arith, rw (op_delta_lem op prev_num f.num_ge f.num_lt) at h)

  format_op_within :
      (len : ℕ) {out : Bytes}
      → ¬ (IsUndercounted op)
      → format_op op prev_num len ≡ ok out
      → length out ≤ len
  unfolding written
  format_op_within len u h =
      let (e, c) = format_op_out len h in omega (arith, counted_ge u, c, ap length e)

  -- Into a buffer that is one byte too short for an option that fits the format and is undercounted,
  -- coap_msg_format_op writes the option all the same, one byte past the end.
  pub format_op_overflow :
      (len : ℕ)
      → IsUndercounted op
      → len + 1 ≡ length (op_bytes op (op.num - prev_num))
      → (out : Bytes) × (format_op op prev_num len ≡ ok out) × (length out ≡ len + 1)
  unfolding format_op counted written
  format_op_overflow len u h = (
    op_bytes op (op.num - prev_num),
    rw (op_delta_lem op prev_num f.num_ge f.num_lt) (ground (arith, counted_under u)),
    sym h,
  )

abbrev pub NoneUndercounted : List Op → Type 0
NoneUndercounted [] = Unit
NoneUndercounted (op ∷ ops) = ¬ (IsUndercounted op) × NoneUndercounted ops

-- Equal results hold lists of equal length.
abbrev pub result_length : Result Bytes → ℕ
result_length (ok b) = length b
result_length _ = 0

pub ap_length : {a b : Bytes} → ok a ≡ ok b → length a ≡ length b
ap_length e = ap result_length e

pub size_sub_lem : (len num : ℕ) → len < size_mod → num ≤ len → size_sub len num ≡ len - num
size_sub_lem len num h k = omega arith

pub format_ops-total :
    (char_signed : Bool) (ops : List Op) (prev_num len : ℕ)
    → OpsFit char_signed prev_num ops
    → len < size_mod
    → length (ops_bytes prev_num ops) + 1 ≤ len
    → format_ops ops prev_num len ≡ ok (ops_bytes prev_num ops)
unfolding format_ops ops_bytes
format_ops-total char_signed [] prev_num len fs small h = refl
format_ops-total char_signed (op ∷ ops) prev_num len (f, fs) small h =
    let out = op_bytes op (op.num - prev_num) in
    let total = length-append out (ops_bytes op.num ops) in
    let left = size_sub_lem len (length out) small (omega (arith, total)) in
    rw (
      format_op_total char_signed prev_num op f len (unfold written in omega (arith, total)),
      left,
      format_ops-total char_signed ops op.num (len - length out) fs (omega arith)
          (omega (arith, total)),
    )

pub format_ops-within :
    (char_signed : Bool) (ops : List Op) (prev_num len : ℕ) {out : Bytes}
    → OpsFit char_signed prev_num ops
    → NoneUndercounted ops
    → len < size_mod
    → format_ops ops prev_num len ≡ ok out
    → length out ≤ len
unfolding format_ops
format_ops-within char_signed [] prev_num len fs us small h = omega (arith, ap_length h)
format_ops-within char_signed (op ∷ ops) prev_num len (f, fs) (u, us) small h =
    let (first, p, q) = bind-eq-ok (format_op op prev_num len) _ h in
    let left =
      size_sub_lem len (length first) small (format_op_within char_signed prev_num op f len u p) in
    let (more, r, e) = bind-eq-ok (format_ops ops op.num (size_sub len (length first))) _ q in
    omega (
      arith,
      ap_length e,
      length-append first more,
      format_op_within char_signed prev_num op f len u p,
      left,
      format_ops-within char_signed ops op.num _ fs us (omega (arith, left)) r,
    )
