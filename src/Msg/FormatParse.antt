-- ===== src/Msg/FormatParse.antt =====
-- coap_msg_format after coap_msg_parse, where `char` is unsigned, in lib/src/coap_msg.c.
use free_co_ap.Common.{
  ℕ, suc, ◌+◌, ◌-◌, ◌*◌, ◌≤◌, ◌<◌, true, false, List, [], ◌∷◌, ◌++◌, ◌≡◌, refl, sym, ap, ◌∙◌,
  Option, none, some, Result, ok, err, stuck, Bytes, IsByte, All, take, drop, length, replicate,
  length-take, length-drop, length-append, take-append, take-append-drop, drop-replicate, arith,
  u32_mod, size_mod,
}
use mathlib.Core.Path.{subst}
use free_co_ap.Msg.{Op, Msg, State, version, created, reset, check, continue-eq-ok}
use free_co_ap.Msg.Options.{with_ops}
use free_co_ap.Msg.Parse.{
  parse_hdr, parse_token, parse_ops, parse_payload, parse_parts, parse, finish, is_code_class,
  hdr_msg_id, with_token, with_payload, copy_front,
}
use free_co_ap.Msg.Format.{to_be16, format}
use free_co_ap.Msg.Codec.{OpsFit}
use free_co_ap.Msg.RoundTrip.{PayloadFits, Fits, hdr_bytes, payload_part, msg_bytes, check-zero}
use free_co_ap.Msg.OpsRoundTrip.{ops_bytes}
use free_co_ap.Msg.Room.{format-total}
use free_co_ap.Msg.Canonical.{All-drop}
use free_co_ap.Msg.CanonicalOps.{Counts, parse_ops-TakesOps}

-- What a header that was read holds.
record TakesHdr (buf : Bytes) (n : ℕ) (s t : State) : Type 0 where
  taken : n ≡ 4
  msg_is : t.msg ≡ hdr_msg_id buf s.msg
  ver_is : (hdr_msg_id buf s.msg).ver ≡ version
  token_len_le : (hdr_msg_id buf s.msg).token_len ≤ 8
  code_class_is : is_code_class (hdr_msg_id buf s.msg).code_class ≡ true
  code_detail_lt : (hdr_msg_id buf s.msg).code_detail < 32
  type_lt : (hdr_msg_id buf s.msg).type < 4
  msg_id_lt : (hdr_msg_id buf s.msg).msg_id < 65536
  bytes_are : buf ≡ hdr_bytes (hdr_msg_id buf s.msg) ++ drop 4 buf

parse_hdr-TakesHdr :
    (buf : Bytes) (s : State) {n : ℕ} {t : State}
    → All IsByte buf
    → parse_hdr buf s ≡ (ok n, t)
    → TakesHdr buf n s t
unfolding parse_hdr to_be16
parse_hdr-TakesHdr [] s a h = ground arith
parse_hdr-TakesHdr (b0 ∷ []) s a h = ground arith
parse_hdr-TakesHdr (b0 ∷ (b1 ∷ [])) s a h = ground arith
parse_hdr-TakesHdr (b0 ∷ (b1 ∷ (b2 ∷ []))) s a h = ground arith
parse_hdr-TakesHdr (b0 ∷ (b1 ∷ (b2 ∷ (b3 ∷ rest)))) s a h = ground arith

parse_token_ok :
    (buf : Bytes) (s : State) {n : ℕ} {t : State}
    → parse_token buf s ≡ (ok n, t)
    → (n ≡ s.msg.token_len)
      × (t.msg ≡ with_token s.msg (copy_front n buf s.msg.token))
      × (n ≤ length buf)
unfolding parse_token
parse_token_ok buf s h = ground arith

parse_payload_ok :
    (buf : Bytes) (s : State) {n : ℕ} {t : State}
    → All IsByte buf
    → s.msg.payload ≡ none
    → s.msg.payload_len ≡ 0
    → parse_payload buf s ≡ (ok n, t)
    → (p : Option Bytes) × (k : ℕ) × (t.msg ≡ with_payload s.msg p k)
      × PayloadFits p k
      × (buf ≡ payload_part p)
unfolding parse_payload
parse_payload_ok [] s a p z h = (none, 0, ground arith, refl, refl)
parse_payload_ok (b ∷ []) s a p z h = ground arith
parse_payload_ok (b ∷ (c ∷ cs)) s a p z h =
    (some (c ∷ cs), length (c ∷ cs), ground arith, ground arith, ground arith)

-- The message that the parts make, and what the bytes were.
module _ (buf : Bytes) (ops : List Op) (p : Option Bytes) (k total : ℕ) {n : ℕ} (s t : State)
    (fresh : s.msg ≡ created) (hdr : TakesHdr buf n s t) where
  abbrev m0 : Msg
  m0 = hdr_msg_id buf s.msg

  abbrev token_of : Bytes
  token_of = copy_front m0.token_len (drop 4 buf) (s.msg.token)

  abbrev made : Msg
  made = with_payload (with_ops (with_token m0 token_of) ops) p k

  token_tail : drop m0.token_len s.msg.token ≡ replicate (8 - m0.token_len) 0
  token_tail =
      ap (λ (m : Msg). drop m0.token_len m.token) fresh ∙ drop-replicate {A = ℕ} m0.token_len 8 0

  module _ (room : m0.token_len ≤ length (drop 4 buf)) (ops_fit : OpsFit false 0 ops)
      (ops_are : drop m0.token_len (drop 4 buf)
        ≡ ops_bytes 0 ops ++ drop total (drop m0.token_len (drop 4 buf)))
      (payload_fits : PayloadFits p k)
      (payload_is : drop total (drop m0.token_len (drop 4 buf)) ≡ payload_part p) where
    token_front : take m0.token_len token_of ≡ take m0.token_len (drop 4 buf)
    token_front =
        take-append m0.token_len (take m0.token_len (drop 4 buf)) (drop m0.token_len s.msg.token)
          (omega (arith, length-take m0.token_len (drop 4 buf)))

    made-Fits : Fits false made
    made-Fits = record {
      ver_is = hdr.ver_is;
      type_lt = hdr.type_lt;
      token_len_le = hdr.token_len_le;
      code_class_is = hdr.code_class_is;
      code_detail_lt = hdr.code_detail_lt;
      msg_id_lt = hdr.msg_id_lt;
      token_is = rw token_front (ap (◌++◌ (take m0.token_len (drop 4 buf))) token_tail);
      token_length = omega (
        arith,
        length-append (take m0.token_len (drop 4 buf)) (drop m0.token_len s.msg.token),
        length-take m0.token_len (drop 4 buf),
        length-drop m0.token_len s.msg.token,
        ap (λ m. length m.token) fresh,
        room,
        hdr.token_len_le,
      );
      ops_fit = ops_fit;
      payload_fits = payload_fits;
    }

    rest_bytes : drop 4 buf ≡ take m0.token_len token_of ++ (ops_bytes 0 ops ++ payload_part p)
    rest_bytes =
        rw (token_front, ← payload_is, ← ops_are, take-append-drop m0.token_len (drop 4 buf))

    made_bytes : buf ≡ msg_bytes made
    made_bytes = hdr.bytes_are ∙ ap (◌++◌ (hdr_bytes m0)) rest_bytes

-- A message that coap_msg_parse has taken whole from `buf`.
pub record TakesMsg (buf : Bytes) (m : Msg) : Type 0 where
  pub fits : Fits false m
  pub bytes_are : buf ≡ msg_bytes m

module _ (buf : Bytes) (a : All IsByte buf) (small : 65804 * length buf < u32_mod) {n2 : ℕ}
    {s t1 t2 : State} (fresh : s.msg ≡ created) (hdr : TakesHdr buf 4 s t1)
    (p2 : parse_token (drop 4 buf) t1 ≡ (ok n2, t2)) where
  token_len_is : n2 ≡ (hdr_msg_id buf s.msg).token_len
  token_len_is = (parse_token_ok (drop 4 buf) t1 p2).0 ∙ ap (λ m. m.token_len) hdr.msg_is

  after_token : t2.msg ≡ with_token (hdr_msg_id buf s.msg) (token_of buf [] none 0 0 s t1 fresh hdr)
  after_token = (parse_token_ok (drop 4 buf) t1 p2).1 ∙ rw (token_len_is, hdr.msg_is)

  no_ops_yet : t2.msg.op_list ≡ []
  no_ops_yet = ap (λ m. m.op_list) after_token ∙ ap (λ m. m.op_list) fresh

  no_payload : t2.msg.payload ≡ none
  no_payload = ap (λ m. m.payload) after_token ∙ ap (λ m. m.payload) fresh

  no_payload_len : t2.msg.payload_len ≡ 0
  no_payload_len = ap (λ m. m.payload_len) after_token ∙ ap (λ m. m.payload_len) fresh

  room_for_token : (hdr_msg_id buf s.msg).token_len ≤ length (drop 4 buf)
  room_for_token = rw (← token_len_is) (parse_token_ok (drop 4 buf) t1 p2).2

  msg_ops_payload :
      (ops : List Op) (p : Option Bytes) (k total : ℕ) (t3 s' : State)
      → t3.msg ≡ with_ops t2.msg (t2.msg.op_list ++ ops)
      → s'.msg ≡ with_payload t3.msg p k
      → s'.msg ≡ made buf ops p k total s t1 fresh hdr
  msg_ops_payload ops p k total t3 s' e e' = e' ∙ rw (e, no_ops_yet, after_token)

  assemble :
      (fuel : ℕ) {n3 n : ℕ} {t3 s' : State}
      → parse_ops fuel false (drop n2 (drop 4 buf)) t2 ≡ (ok n3, t3)
      → parse_payload (drop n3 (drop n2 (drop 4 buf))) t3 ≡ (ok n, s')
      → TakesMsg buf s'.msg
  assemble fuel {n3} {n} {t3} {s'} p3 p4 =
      let tl = (hdr_msg_id buf s.msg).token_len in
      let window = drop tl (drop 4 buf) in
      let bytes = All-drop tl (drop 4 buf) (All-drop 4 buf a) in
      let counts : Counts 0 t2.msg.op_list = rw no_ops_yet (λ d _. omega arith) in
      let few : 0 + 65804 * length window < u32_mod =
        omega (arith, length-drop tl (drop 4 buf), length-drop 4 buf) in
      let os = parse_ops-TakesOps fuel 0 window t2 bytes counts few (rw token_len_is at p3) in
      let (p, k, e, pf, pe) =
        parse_payload_ok (drop n3 window) t3 (All-drop n3 window bytes)
          (ap (λ m. m.payload) os.appended ∙ no_payload)
          (ap (λ m. m.payload_len) os.appended ∙ no_payload_len) (rw token_len_is at p4) in
      rw (msg_ops_payload os.ops p k n3 t3 s' os.appended e) (record {
        fits =
            made-Fits buf os.ops p k n3 s t1 fresh hdr room_for_token os.ops_fit os.bytes_are pf pe;
        bytes_are =
            made_bytes buf os.ops p k n3 s t1 fresh hdr room_for_token os.ops_fit os.bytes_are pf
              pe;
      })

from_parts :
    (buf : Bytes) (s t1 t2 t3 s' : State) (n1 n2 n3 n fuel : ℕ)
    → All IsByte buf
    → 65804 * length buf < u32_mod
    → s.msg ≡ created
    → parse_hdr buf s ≡ (ok n1, t1)
    → parse_token (drop n1 buf) t1 ≡ (ok n2, t2)
    → parse_ops fuel false (drop n2 (drop n1 buf)) t2 ≡ (ok n3, t3)
    → parse_payload (drop n3 (drop n2 (drop n1 buf))) t3 ≡ (ok n, s')
    → TakesMsg buf s'.msg
from_parts buf s t1 t2 t3 s' n1 n2 n3 n fuel a small fresh p1 p2 p3 p4 =
    let hdr = parse_hdr-TakesHdr buf s a p1 in
    let four = hdr.taken in
    assemble buf a small fresh (subst (λ x. TakesHdr buf x s t1) four hdr) (rw four at p2) fuel
      (rw four at p3) (rw four at p4)

parse_parts-TakesMsg :
    (buf : Bytes) (s : State) {n : ℕ} {s' : State}
    → All IsByte buf
    → 65804 * length buf < u32_mod
    → s.msg ≡ created
    → parse_parts false buf s ≡ (ok n, s')
    → TakesMsg buf s'.msg
unfolding parse_parts
parse_parts-TakesMsg buf s a small fresh h =
    let (n1, t1, p1, q1) = continue-eq-ok (parse_hdr buf s) _ h in
    let (n2, t2, p2, q2) = continue-eq-ok (parse_token (drop n1 buf) t1) _ q1 in
    let (n3, t3, p3, q3) =
      continue-eq-ok (parse_ops (suc (length buf)) false (drop n2 (drop n1 buf)) t2) _ q2 in
    from_parts buf s t1 t2 t3 _ n1 n2 n3 _ _ a small fresh p1 p2 p3 q3

finish_ok :
    (r : Result ℕ × State) {n : ℕ} {s' : State}
    → finish r ≡ (ok n, s')
    → (k : ℕ) × (r ≡ (ok k, s')) × (check s'.msg ≡ ok n)
finish_ok (ok k, s) h = (k, cc, cc)
finish_ok (err e, s) h = cc
finish_ok (stuck, s) h = cc

-- Where `char` is unsigned and coap_msg_parse succeeds on at most 65000 bytes, the message fits the
-- format and coap_msg_format writes these bytes again, given one byte of space more than they take,
-- and less than 2 ^ 64.
pub format-parse :
    (buf : Bytes) (len : ℕ) (s : State) {n : ℕ} {s' : State}
    → All IsByte buf
    → length buf ≤ 65000
    → length buf < len
    → len < size_mod
    → parse false buf s ≡ (ok n, s')
    → Fits false s'.msg × (format s'.msg len ≡ ok buf)
unfolding parse
format-parse buf len s {n} {s'} a short room small h =
    let (k, p, c) = finish_ok (parse_parts false buf (reset s)) h in
    let t = parse_parts-TakesMsg buf (reset s) a (omega arith) refl p in
    (
      t.fits,
      format-total false s'.msg t.fits len (check-zero s'.msg c) small
            (omega (arith, ap (λ (b : Bytes). length b) t.bytes_are))
          ∙ ap ok (sym t.bytes_are),
    )
