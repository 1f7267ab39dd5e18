-- ===== src/Msg/RoundTrip.antt =====
-- coap_msg_parse after coap_msg_format, in lib/src/coap_msg.c.
use free_co_ap.Common.{
  ℕ, suc, ◌+◌, ◌-◌, ◌*◌, ◌≤◌, ◌<◌, Bool, true, false, [], ◌∷◌, ◌++◌, ◌≡◌, refl, Option, none, some,
  Heap, free, ok, bind-eq-ok, Bytes, take, length, replicate, length-append, length-take,
  take-append, drop-append, arith, take_all, drop-replicate, ltb, if◌then◌else◌, ◌==◌,
}
use free_co_ap.Msg.{Msg, State, version, check, created, payload_blocks, owned_blocks}
use free_co_ap.Msg.Options.{with_ops}
use free_co_ap.Msg.Parse.{
  parse_hdr, parse_token, parse_payload, parse_parts, parse, is_code_class, at_end, with_payload,
}
use free_co_ap.Msg.Format.{
  size_sub, to_be16, format_hdr, format_token, format_ops, format_payload, format, payload_bytes,
}
use free_co_ap.Msg.Codec.{OpsFit}
use free_co_ap.Msg.Destroy.{destroy_lem}
use free_co_ap.Msg.OpsRoundTrip.{
  ops_bytes, format_ops-ops_bytes, parse_ops-ops_bytes, length-ops_bytes, after_ops,
}

-- The payload pointer and the payload length of a message tell the same.
abbrev pub PayloadFits : Option Bytes → ℕ → Type 0
PayloadFits none n = n ≡ 0
PayloadFits (some p) n = (0 < n) × (length p ≡ n)

-- A message that the format can express. The token array is clear behind the token.
pub record Fits (char_signed : Bool) (m : Msg) : Type 0 where
  pub ver_is : m.ver ≡ version
  pub type_lt : m.type < 4
  pub token_len_le : m.token_len ≤ 8
  pub code_class_is : is_code_class m.code_class ≡ true
  pub code_detail_lt : m.code_detail < 32
  pub msg_id_lt : m.msg_id < 65536
  pub token_is : m.token ≡ take m.token_len m.token ++ replicate (8 - m.token_len) 0
  pub token_length : length m.token ≡ 8
  pub ops_fit : OpsFit char_signed 0 m.op_list
  pub payload_fits : PayloadFits m.payload m.payload_len

-- The four parts of a message on the wire.
abbrev pub hdr_bytes : Msg → Bytes
hdr_bytes m =
    (version * 64 + m.type * 16 + m.token_len)
    ∷ (m.code_class * 32 + m.code_detail)
    ∷ to_be16 m.msg_id

abbrev pub payload_part : Option Bytes → Bytes
payload_part none = []
payload_part (some p) = 0xff ∷ p

abbrev pub msg_bytes : Msg → Bytes
msg_bytes m =
    hdr_bytes m ++ (take m.token_len m.token ++ (ops_bytes 0 m.op_list ++ payload_part m.payload))

pub is_code_class_lt : (c : ℕ) → is_code_class c ≡ true → c < 8
is_code_class_lt c h = ground arith

pub take_payload :
    (p : Option Bytes) (n : ℕ)
    → PayloadFits p n
    → (if n == 0 then [] else 0xff ∷ take n (payload_bytes p)) ≡ payload_part p
take_payload none n f = ground arith
take_payload (some p) n f = ground (arith, take_all n p)

parse_payload_lem :
    (p : Option Bytes) (n : ℕ) (s : State)
    → PayloadFits p n
    → s.heap.outcomes ≡ []
    → s.msg.payload ≡ none
    → s.msg.payload_len ≡ 0
    → parse_payload (payload_part p) s ≡ (
      ok (length (payload_part p)),
      record {
        msg = with_payload s.msg p n;
        heap = record (s.heap) { allocs = s.heap.allocs + payload_blocks p };
      },
    )
unfolding parse_payload
parse_payload_lem none n s f o e z = ground arith
parse_payload_lem (some []) n s f o e z = absurd (omega arith)
parse_payload_lem (some (c ∷ cs)) n s f o e z = ground arith

at_end-payload_part : (p : Option Bytes) → at_end (payload_part p) ≡ true
at_end-payload_part none = refl
at_end-payload_part (some p) = refl

pub check-zero : (m : Msg) {n : ℕ} → check m ≡ ok n → check m ≡ ok 0
unfolding check
check-zero m h = ground arith

module _ (char_signed : Bool) (m : Msg) (f : Fits char_signed m) where
  format_hdr-hdr_bytes : (len : ℕ) {out : Bytes} → format_hdr m len ≡ ok out → out ≡ hdr_bytes m
  unfolding format_hdr
  format_hdr-hdr_bytes len h = ground (arith, is_code_class_lt m.code_class f.code_class_is)

  format_token_lem :
      (len : ℕ) {out : Bytes} → format_token m len ≡ ok out → out ≡ take m.token_len m.token
  unfolding format_token
  format_token_lem len h = ground arith

  format_payload_lem :
      (len : ℕ) {out : Bytes} → format_payload m len ≡ ok out → out ≡ payload_part m.payload
  unfolding format_payload
  format_payload_lem len h = ground (arith, take_payload m.payload m.payload_len f.payload_fits)

  -- What coap_msg_format returns is the four parts of the message.
  pub format-msg_bytes : (len : ℕ) {out : Bytes} → format m len ≡ ok out → out ≡ msg_bytes m
  unfolding format
  format-msg_bytes len h =
      let (c, _, h0) = bind-eq-ok (check m) _ h in
      let (hdr, p1, h1) = bind-eq-ok (format_hdr m len) _ h0 in
      let len1 = size_sub len (length hdr) in
      let (token, p2, h2) = bind-eq-ok (format_token m len1) _ h1 in
      let len2 = size_sub len1 (length token) in
      let (ops, p3, h3) = bind-eq-ok (format_ops m.op_list 0 len2) _ h2 in
      let len3 = size_sub len2 (length ops) in
      let (payload, p4, h4) = bind-eq-ok (format_payload m len3) _ h3 in
      cc (
        format_hdr-hdr_bytes len p1,
        format_token_lem len1 p2,
        format_ops-ops_bytes char_signed m.op_list 0 len2 f.ops_fit p3,
        format_payload_lem len3 p4,
      )

  parse_hdr-hdr_bytes :
      (rest : Bytes) (s : State)
      → parse_hdr (hdr_bytes m ++ rest) s ≡ (
        ok 4,
        record s {
          msg = record (s.msg) {
            ver = m.ver;
            type = m.type;
            token_len = m.token_len;
            code_class = m.code_class;
            code_detail = m.code_detail;
            msg_id = m.msg_id;
          };
        },
      )
  unfolding parse_hdr to_be16
  parse_hdr-hdr_bytes rest s = ground (arith, is_code_class_lt m.code_class f.code_class_is)

  pub length-token : m.token_len ≡ length (take m.token_len m.token)
  length-token = omega (arith, length-take m.token_len m.token, f.token_length, f.token_len_le)

  parse_token_lem :
      (rest : Bytes) (s : State)
      → s.msg.token ≡ replicate 8 0
      → s.msg.token_len ≡ m.token_len
      → parse_token (take m.token_len m.token ++ rest) s
        ≡ (ok m.token_len, record s { msg = record (s.msg) { token = m.token } })
  unfolding parse_token
  parse_token_lem rest s c l =
      let t = take m.token_len m.token in
      let room : ltb (length (t ++ rest)) m.token_len ≡ false =
        ground (arith, length-append t rest, length-token) in
      rw (
        l,
        room,
        take-append m.token_len t rest length-token,
        c,
        drop-replicate {A = ℕ} m.token_len 8 0,
        ← f.token_is,
      )

  -- The state in which the options are read, and the one at the end.
  abbrev after_hdr : Heap → State
  after_hdr h = record {
    msg = record created {
      ver = m.ver;
      type = m.type;
      token_len = m.token_len;
      code_class = m.code_class;
      code_detail = m.code_detail;
      msg_id = m.msg_id;
      token = m.token;
    };
    heap = h;
  }

  abbrev parsed : Heap → State
  parsed h = record { msg = m; heap = record h { allocs = h.allocs + owned_blocks m } }

  parse_parts-msg_bytes :
      (h : Heap)
      → h.outcomes ≡ []
      → parse_parts char_signed (msg_bytes m) (record { msg = created; heap = h })
        ≡ (ok (length (payload_part m.payload)), parsed h)
  unfolding parse_parts to_be16
  parse_parts-msg_bytes h o =
      let t = take m.token_len m.token in
      let ops = ops_bytes 0 m.op_list in
      let p = payload_part m.payload in
      let tail = t ++ (ops ++ p) in
      let enough : length m.op_list < suc (length (msg_bytes m)) =
        omega
          (arith, length-append t (ops ++ p), length-append ops p, length-ops_bytes m.op_list 0) in
      let blocks : h.allocs + 2 * length m.op_list + payload_blocks m.payload
          ≡ h.allocs + owned_blocks m =
        omega arith in
      rw (
        parse_hdr-hdr_bytes tail (record { msg = created; heap = h }),
        parse_token_lem (ops ++ p)
            (record (after_hdr h) { msg = record ((after_hdr h).msg) { token = replicate 8 0 } })
            refl refl,
        drop-append m.token_len t (ops ++ p) length-token,
        parse_ops-ops_bytes m.op_list _ char_signed 0 p (after_hdr h) f.ops_fit o
            (λ d _. omega arith) (at_end-payload_part m.payload) enough,
        drop-append _ ops p refl,
        parse_payload_lem m.payload m.payload_len
            (record (after_hdr h) {
              msg = with_ops (after_hdr h).msg m.op_list;
              heap = after_ops m.op_list h;
            })
            f.payload_fits o refl refl,
        blocks,
      )

  format-check : (len : ℕ) {out : Bytes} → format m len ≡ ok out → check m ≡ ok 0
  unfolding format
  format-check len h = let (c, e, _) = bind-eq-ok (check m) _ h in check-zero m e

  -- Whatever coap_msg_format returns for a message that fits the format, coap_msg_parse reads back as
  -- the same message, in any state whose allocations succeed. Where `char` is signed, no delta and no
  -- length of an option may be one that is misread. The old message of the state is destroyed, and the new one owns all
  -- that was allocated.
  pub parse-format :
      (len : ℕ) {out : Bytes} (s : State)
      → format m len ≡ ok out
      → s.heap.outcomes ≡ []
      → parse char_signed out s ≡ (
        ok 0,
        record {
          msg = m;
          heap = record (s.heap) {
            allocs = s.heap.allocs + owned_blocks m;
            frees = s.heap.frees + owned_blocks s.msg;
          };
        },
      )
  unfolding parse
  parse-format len s h o = rw (
    destroy_lem s,
    format-msg_bytes len h,
    parse_parts-msg_bytes (free (owned_blocks s.msg) s.heap) o,
    format-check len h,
  )
