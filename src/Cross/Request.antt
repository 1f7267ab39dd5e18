-- ===== src/Cross/Request.antt =====
-- The whole way of a URI into a request (proxy/common/src/cross.c).
use free_co_ap.Common.{
  ℕ, suc, ◌≤◌, ◌<◌, Bool, true, false, List, [], ◌∷◌, ◌++◌, append-nil, append_assoc, ◌≡◌, refl,
  sym, ap, ◌∙◌, Option, none, some, Result, ok, Bytes, u32_mod, length, ltb, ◌==◌, arith,
  Bool-cases, inl, inr, All,
}
use free_co_ap.Msg.{Op, Msg, State}
use free_co_ap.Msg.Build.{copy_ops}
use free_co_ap.Msg.Copy.{add_sorted_last, All-last, All-weaken, appended}
use free_co_ap.Uri.{is_in}
use free_co_ap.Uri.Fields.{UriState, no_uri, generate}
use free_co_ap.Uri.Parse.{uri_parse}
use free_co_ap.Uri.ParseText.{Yields}
use free_co_ap.Uri.ParseRoundTrip.{net_uri, uri_text, Readable, AllSome, IsPathText}
use free_co_ap.Uri.Generated.{generated-Yields}
use free_co_ap.Cross.{
  string_len, convert, converted, without_uri, uri_http_to_coap, is_coap_scheme, uri_host, uri_port,
  uri_path, uri_query,
}
use free_co_ap.Cross.Segments.{pieces, segment_ops, on_first}
use free_co_ap.Cross.Ops.{string_ops, path_ops, query_ops, uri_ops, IsRooted, add_uri-copy_ops}

-- Options in the order of their numbers, with the lengths of their values.
abbrev InOrder : ℕ → List Op → Type 0
InOrder low [] = Unit
InOrder low (op ∷ ops) = (low ≤ op.num) × (length op.val ≡ op.len) × InOrder op.num ops

-- They are added one behind the other.
copy_ops-InOrder :
    (low : ℕ) (ops : List Op) (s : State)
    → InOrder low ops
    → s.heap.outcomes ≡ []
    → All (λ (o : Op). o.num ≤ low) s.msg.op_list
    → ((copy_ops ops s).0 ≡ ok 0) × ((copy_ops ops s).1.msg.op_list ≡ s.msg.op_list ++ ops)
unfolding copy_ops
copy_ops-InOrder low [] s h o les = (refl, sym (append-nil s.msg.op_list))
copy_ops-InOrder low (op ∷ ops) s h o les =
    let ih =
      copy_ops-InOrder op.num ops (appended (op ∷ []) s) h.2 o
        (All-last low 0 op s.msg.op_list les h.0) in
    rw (add_sorted_last op s o h.1 (All-weaken low op.num s.msg.op_list h.0 les))
      (ih.0, ih.1 ∙ append_assoc s.msg.op_list (op ∷ []) ops)

-- Options of one number.
abbrev Numbered : ℕ → List Op → Type 0
Numbered num = All (λ (o : Op). (o.num ≡ num) × (length o.val ≡ o.len))

InOrder-lower : (low num : ℕ) (ops : List Op) → low ≤ num → InOrder num ops → InOrder low ops
InOrder-lower low num [] le h = tt
InOrder-lower low num (op ∷ ops) le h = (omega arith, h.1, h.2)

Numbered-InOrder :
    (low num : ℕ) (xs ys : List Op)
    → low ≤ num
    → Numbered num xs
    → InOrder num ys
    → InOrder low (xs ++ ys)
Numbered-InOrder low num [] ys le h k = InOrder-lower low num ys le k
Numbered-InOrder low num (x ∷ xs) ys le h k =
    (omega arith, h.0.1, rw h.0.0 (Numbered-InOrder num num xs ys (omega arith) h.1 k))

-- A string whose length an unsigned holds.
abbrev pub IsShort : Bytes → Type 0
IsShort str = length str < u32_mod

string_ops-Numbered :
    (num : ℕ) (v : Option Bytes) → AllSome IsShort v → Numbered num (string_ops num v)
string_ops-Numbered num none h = tt
string_ops-Numbered num (some v) h = ((refl, omega arith), tt)

on_first-length :
    (n c : ℕ) (ps : List Bytes)
    → All (λ (p : Bytes). length p ≤ n) ps
    → All (λ (p : Bytes). length p ≤ suc n) (on_first c ps)
on_first-length n c [] h = (omega arith, tt)
on_first-length n c (p ∷ ps) h = (omega arith, longer ps h.1)
  where
    longer :
        (ps : List Bytes)
        → All (λ (p : Bytes). length p ≤ n) ps
        → All (λ (p : Bytes). length p ≤ suc n) ps
    longer [] h = tt
    longer (p ∷ ps) h = (omega arith, longer ps h.1)

pieces-length : (d : ℕ) (str : Bytes) → All (λ (p : Bytes). length p ≤ length str) (pieces d str)
unfolding pieces
pieces-length d [] = (omega arith, tt)
pieces-length d (c ∷ cs) = elim (Bool-cases (c == d)) [
  | inl e ↦ rw e (omega arith, longer (pieces d cs) (pieces-length d cs))
  | inr e ↦ rw e (on_first-length (length cs) c (pieces d cs) (pieces-length d cs))
]
  where
    longer :
        (ps : List Bytes)
        → All (λ (p : Bytes). length p ≤ length cs) ps
        → All (λ (p : Bytes). length p ≤ suc (length cs)) ps
    longer [] h = tt
    longer (p ∷ ps) h = (omega arith, longer ps h.1)

segment_ops-Numbered :
    (num n : ℕ) (ps : List Bytes)
    → n < u32_mod
    → All (λ (p : Bytes). length p ≤ n) ps
    → Numbered num (segment_ops num ps)
unfolding segment_ops
segment_ops-Numbered num n [] lt h = tt
segment_ops-Numbered num n (p ∷ ps) lt h = elim (Bool-cases (ltb 0 (string_len p))) [
  | inl e ↦ rw e ((refl, omega arith), segment_ops-Numbered num n ps lt h.1)
  | inr e ↦ rw e (segment_ops-Numbered num n ps lt h.1)
]

path_ops-Numbered : (v : Option Bytes) → AllSome IsShort v → Numbered uri_path (path_ops v)
path_ops-Numbered none h = tt
path_ops-Numbered (some []) h = tt
path_ops-Numbered (some (c ∷ cs)) h =
    segment_ops-Numbered uri_path (length cs) (pieces 47 cs) (omega arith) (pieces-length 47 cs)

query_ops-Numbered : (v : Option Bytes) → AllSome IsShort v → Numbered uri_query (query_ops v)
query_ops-Numbered none h = tt
query_ops-Numbered (some v) h =
    segment_ops-Numbered uri_query (length v) (pieces 38 v) h (pieces-length 38 v)

-- The strings of a request's URI.
pub record Short (host : Bytes) (port path query : Option Bytes) : Type 0 where
  pub short_host : IsShort host
  pub short_port : AllSome IsShort port
  pub short_path : AllSome IsShort path
  pub short_query : AllSome IsShort query

path_text-IsRooted : (path : Option Bytes) → AllSome IsPathText path → IsRooted path
path_text-IsRooted none h = tt
path_text-IsRooted (some []) h = h
path_text-IsRooted (some (c ∷ cs)) h = h.0

uri_ops-InOrder :
    (scheme host : Bytes) (port path query : Option Bytes)
    → Short host port path query
    → InOrder 0 (uri_ops (net_uri scheme host port path query none))
uri_ops-InOrder scheme host port path query h =
    let at_query : InOrder uri_path (query_ops query) = rw (← append-nil (query_ops query)) (
      Numbered-InOrder uri_path uri_query (query_ops query) [] (omega arith)
        (query_ops-Numbered query h.short_query) tt) in
    let at_path =
      Numbered-InOrder uri_port uri_path (path_ops path) (query_ops query) (omega arith)
        (path_ops-Numbered path h.short_path) at_query in
    let at_port =
      Numbered-InOrder uri_host uri_port (string_ops uri_port port) _ (omega arith)
        (string_ops-Numbered uri_port port h.short_port) at_path in
    Numbered-InOrder 0 uri_host (string_ops uri_host (some host)) _ (omega arith)
      (string_ops-Numbered uri_host (some host) h.short_host) at_port

-- The rest of cross_uri_http_to_coap, behind uri_parse.
module _ (scheme host : Bytes) (port path query : Option Bytes)
    (r : Readable scheme host port path query none) (short : Short host port path query)
    (is_coap : is_coap_scheme (some scheme) ≡ true) where
  converted-ops :
      (p : Result ℕ × UriState) (m : Msg)
      → Yields 0 (net_uri scheme host port path query none) p
      → m.op_list ≡ []
      → let c = without_uri p.1.uri (converted p.0 p.1.uri (record { msg = m; heap = p.1.heap })) in
        (c.0 ≡ ok 0) × (c.1.msg.op_list ≡ uri_ops (net_uri scheme host port path query none))
  unfolding convert
  converted-ops p m y e =
      let u = net_uri scheme host port path query none in
      let t : State = record { msg = m; heap = p.1.heap } in
      let none_above : All (λ (o : Op). o.num ≤ 0) m.op_list = rw e tt in
      let added =
        copy_ops-InOrder 0 (uri_ops u) t (uri_ops-InOrder scheme host port path query short)
          y.outcomes_are none_above in
      rw (y.ok_is, y.uri_is, is_coap, add_uri-copy_ops u t (path_text-IsRooted path r.path_text))
        (added.0, added.1 ∙ ap (λ z. z ++ uri_ops u) e)

-- What uri_generate writes of a URI with a scheme "coap" or "coaps", in any case, a host that is not
-- empty, no userinfo and no fragment, in a buffer that has room for it, cross_uri_http_to_coap makes
-- the options of a message that has none, where the coming allocations succeed: the host, the port,
-- each segment of the path and each part of the query that is not empty, in this order. No string
-- has a '\0' or is longer than an unsigned holds, the host has no ':', and a path begins with '/' and
-- has no ':' and no '@' behind it.
pub uri_http_to_coap-uri_ops :
    (char_signed : Bool) (scheme host : Bytes) (port path query : Option Bytes) (len : ℕ)
    (s : State)
    → Readable scheme host port path query none
    → Short host port path query
    → is_coap_scheme (some scheme) ≡ true
    → is_in 58 host ≡ false
    → length (uri_text (net_uri scheme host port path query none)) < len
    → s.heap.outcomes ≡ []
    → s.msg.op_list ≡ []
    → let u = net_uri scheme host port path query none in
      let r = uri_http_to_coap char_signed (generate u len).out s in
      (r.0 ≡ ok 0) × (r.1.msg.op_list ≡ uri_ops u)
unfolding uri_http_to_coap
uri_http_to_coap-uri_ops char_signed scheme host port path query len s r short c h lt n e =
    let t : UriState = record { uri = no_uri; heap = s.heap } in
    converted-ops scheme host port path query r short c
      (uri_parse char_signed (generate (net_uri scheme host port path query none) len).out t) s.msg
      (generated-Yields char_signed scheme host port path query none len t r h lt n) e
