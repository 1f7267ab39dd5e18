-- ===== src/Msg/Canonical.antt =====
-- One option read by coap_msg_parse_op where `char` is unsigned, in lib/src/coap_msg.c: what the
-- bytes were is told by what was read.
use free_co_ap.Common.{
  ℕ, zero, suc, ◌+◌, ◌*◌, ◌/◌, ◌%◌, ◌≤◌, ◌<◌, false, [], ◌∷◌, ◌++◌, ◌≡◌, sym, ap, ok, bind-eq-ok,
  Bytes, IsByte, All, take, drop, length, length-take, length-drop, take-append-drop, drop-drop,
  append_assoc, take_all, arith,
}
use free_co_ap.Msg.{Op}
use free_co_ap.Msg.Wire.{parse_ext, parse_exts, parse_op_head, value_fits}
use free_co_ap.Msg.Format.{nibble, ext_bytes, op_bytes, to_be16}

pub All-drop : (n : ℕ) (b : Bytes) → All IsByte b → All IsByte (drop n b)
All-drop zero b h = h
All-drop (suc n) [] h = tt
All-drop (suc n) (x ∷ xs) h = All-drop n xs h.1

-- A number that was read is written as it stood.
record Reads (nib : ℕ) (buf : Bytes) (x n : ℕ) : Type 0 where
  nib_is : nib ≡ nibble x
  ext_is : take n buf ≡ ext_bytes x
  fits : x < 65805
  room : n ≤ length buf

parse_ext-Reads :
    (nib : ℕ) (buf : Bytes) {x n : ℕ}
    → nib < 15
    → All IsByte buf
    → parse_ext false nib buf ≡ ok (x, n)
    → Reads nib buf x n
unfolding parse_ext nibble ext_bytes to_be16
parse_ext-Reads nib [] b a h = ground arith
parse_ext-Reads nib (c ∷ []) b a h = ground arith
parse_ext-Reads nib (c ∷ (d ∷ cs)) b a h = ground arith

-- The option that was read, if its number is `num`.
abbrev pub read_op : ℕ → ℕ → ℕ → Bytes → Op
read_op num len at buf = record { num = num; len = len; val = take len (drop at buf) }

pub record ReadsOp (buf : Bytes) (delta len at : ℕ) : Type 0 where
  pub bytes_are : (num : ℕ) → buf ≡ op_bytes (read_op num len at buf) delta ++ drop (at + len) buf
  pub delta_fits : delta < 65805
  pub len_fits : len < 65805
  pub room : at + len ≤ length buf
  pub at_pos : 1 ≤ at

module _ (b : ℕ) (buf : Bytes) {delta len n k : ℕ} (r1 : Reads (b / 16 % 16) buf delta n)
    (r2 : Reads (b % 16) (drop n buf) len k) (byte : b < 256)
    (room : len ≤ length (drop k (drop n buf))) where
  value_at : drop (1 + n + k) (b ∷ buf) ≡ drop k (drop n buf)
  value_at = let e : 1 + n + k ≡ suc (n + k) = omega arith in rw e (sym (drop-drop n k buf))

  pieces : buf ≡ ext_bytes delta ++ (ext_bytes len ++ drop k (drop n buf))
  pieces = rw (← r1.ext_is, ← r2.ext_is, take-append-drop k (drop n buf), take-append-drop n buf)

  head : nibble delta * 16 + nibble len ≡ b
  head = omega (arith, r1.nib_is, r2.nib_is)

  ReadsOp-parts : ReadsOp (b ∷ buf) delta len (1 + n + k)
  unfolding op_bytes
  ReadsOp-parts = record {
    bytes_are = λ num.
        rw
          (
            head,
            ← drop-drop (1 + n + k) len (b ∷ buf),
            value_at,
            take_all len (take len (drop k (drop n buf)))
                (omega (arith, length-take len (drop k (drop n buf)))),
            append_assoc (ext_bytes delta) (ext_bytes len ++ take len (drop k (drop n buf)))
                (drop len (drop k (drop n buf))),
            append_assoc (ext_bytes len) (take len (drop k (drop n buf)))
                (drop len (drop k (drop n buf))),
            take-append-drop len (drop k (drop n buf)),
          )
          (ap (◌∷◌ b) pieces);
    delta_fits = r1.fits;
    len_fits = r2.fits;
    room = omega (arith, length-drop n buf, length-drop k (drop n buf), r1.room, r2.room);
    at_pos = omega arith;
  }

parse_op_head_cons :
    (b : ℕ) (buf : Bytes) {r : ℕ × ℕ × ℕ}
    → parse_op_head false (b ∷ buf) ≡ ok r
    → (b / 16 % 16 < 15) × (b % 16 < 15) × (parse_exts false b buf ≡ ok r)
unfolding parse_op_head
parse_op_head_cons b buf h = ground arith

value_fits_room :
    (delta' len' at' : ℕ) (buf : Bytes) {delta len at : ℕ}
    → value_fits delta' len' at' buf ≡ ok (delta, len, at)
    → (delta' ≡ delta) × (len' ≡ len) × (at' ≡ at) × (len' ≤ length buf)
value_fits_room delta' len' at' buf h = ground arith

pub parse_op_head-ReadsOp :
    (buf : Bytes) {delta len at : ℕ}
    → All IsByte buf
    → parse_op_head false buf ≡ ok (delta, len, at)
    → ReadsOp buf delta len at
unfolding parse_exts
parse_op_head-ReadsOp [] a h = unfold parse_op_head in cc
parse_op_head-ReadsOp (b ∷ buf) {delta} {len} {at} a h =
    let (lo, hi, e) = parse_op_head_cons b buf h in
    let (r1, p1, e1) = bind-eq-ok (parse_ext false (b / 16 % 16) buf) _ e in
    let (r2, p2, e2) = bind-eq-ok (parse_ext false (b % 16) (drop r1.1 buf)) _ e1 in
    let (d, l, p, room) =
      value_fits_room r1.0 r2.0 (1 + r1.1 + r2.1) (drop r2.1 (drop r1.1 buf)) e2 in
    let reads1 = parse_ext-Reads (b / 16 % 16) buf lo a.1 p1 in
    let reads2 = parse_ext-Reads (b % 16) (drop r1.1 buf) hi (All-drop r1.1 buf a.1) p2 in
    rw (← d, ← l, ← p) (ReadsOp-parts b buf reads1 reads2 a.0 room)
