-- ===== src/Cross/Ops.antt =====
-- The options that the URI of a request becomes (proxy/common/src/cross.c).
use free_co_ap.Common.{
  ℕ, zero, suc, Bool, List, [], ◌∷◌, ◌++◌, ◌≡◌, refl, Option, none, some, Result, ok, err, stuck,
  Bytes, length, ltb, ◌==◌, if◌then◌else◌, arith, Bool-cases, inl, inr,
}
use free_co_ap.Msg.{Op, State, M}
use free_co_ap.Msg.Build.{copy_ops}
use free_co_ap.Msg.Leaks.{Balanced, Balanced-refl, add_sorted-Keeps}
use free_co_ap.Msg.Blocks.{Keeping, ◌then◌, continue-Balanced}
use free_co_ap.Uri.Fields.{Uri, UriState, no_uri, uri_destroy, is_some}
use free_co_ap.Uri.ParseFields.{uri_destroy-UriBalanced}
use free_co_ap.Uri.ParseBlocks.{uri_parse-UriBalanced}
use free_co_ap.Uri.Parse.{split_at, uri_parse}
use free_co_ap.Cross.{
  string_len, add_string, add_segment, next_segment, add_segments, add_path, add_query, add_uri,
  convert, converted, uri_http_to_coap, is_coap_scheme, uri_host, uri_port, uri_path, uri_query,
}
use free_co_ap.Cross.Segments.{
  pieces, string_op, segment_ops, add_op-copy_ops, copy_ops-append, continue_same,
  add_segments-copy_ops,
}

abbrev pub string_ops : ℕ → Option Bytes → List Op
string_ops num none = []
string_ops num (some str) = string_op num str ∷ []

abbrev pub path_ops : Option Bytes → List Op
path_ops none = []
path_ops (some []) = []
path_ops (some (c ∷ cs)) = segment_ops uri_path (pieces 47 cs)

abbrev pub query_ops : Option Bytes → List Op
query_ops none = []
query_ops (some str) = segment_ops uri_query (pieces 38 str)

-- The host, the port, the segments of the path and the parts of the query that are not empty.
abbrev pub uri_ops : Uri → List Op
uri_ops u =
    string_ops uri_host u.host
    ++ (string_ops uri_port u.port ++ (path_ops u.path ++ query_ops u.query))

-- A path begins with '/'.
abbrev pub IsRooted : Option Bytes → Type 0
IsRooted none = Unit
IsRooted (some []) = ⊥
IsRooted (some (c ∷ cs)) = c ≡ 47

add_string-copy_ops :
    (num : ℕ) (v : Option Bytes) (s : State) → add_string num v s ≡ copy_ops (string_ops num v) s
unfolding copy_ops
add_string-copy_ops num none s = refl
add_string-copy_ops num (some str) s = add_op-copy_ops num str s

add_path-copy_ops :
    (v : Option Bytes) (s : State) → IsRooted v → add_path v s ≡ copy_ops (path_ops v) s
unfolding copy_ops
add_path-copy_ops none s h = refl
add_path-copy_ops (some []) s h = absurd h
add_path-copy_ops (some (c ∷ cs)) s h =
    rw h (add_segments-copy_ops (suc (length cs)) uri_path 47 cs s (omega arith))

add_query-copy_ops : (v : Option Bytes) (s : State) → add_query v s ≡ copy_ops (query_ops v) s
unfolding copy_ops
add_query-copy_ops none s = refl
add_query-copy_ops (some str) s =
    add_segments-copy_ops (suc (length str)) uri_query 38 str s (omega arith)

pub add_uri-copy_ops :
    (u : Uri) (s : State) → IsRooted u.path → add_uri u s ≡ copy_ops (uri_ops u) s
unfolding add_uri
add_uri-copy_ops u s h =
    let hs = string_ops uri_host u.host in
    let ps = string_ops uri_port u.port in
    let qs = path_ops u.path in
    let rs = query_ops u.query in
    rw (copy_ops-append hs (ps ++ (qs ++ rs)) s, add_string-copy_ops uri_host u.host s)
      (continue_same (copy_ops hs s) _ _ λ _ t.
        rw (copy_ops-append ps (qs ++ rs) t, add_string-copy_ops uri_port u.port t)
          (continue_same (copy_ops ps t) _ _ λ _ t1.
            rw (copy_ops-append qs rs t1, add_path-copy_ops u.path t1 h)
              (continue_same (copy_ops qs t1) _ _ λ _ t2. add_query-copy_ops u.query t2)))

-- No block is lost.
add_string-Balanced : (num : ℕ) (v : Option Bytes) (s : State) → Balanced s (add_string num v s).1
add_string-Balanced num none s = Balanced-refl s
add_string-Balanced num (some str) s = (add_sorted-Keeps num (string_len str) str s).balanced

add_segment-Balanced : (num : ℕ) (str : Bytes) (s : State) → Balanced s (add_segment num str s).1
add_segment-Balanced num str s = elim (Bool-cases (ltb 0 (string_len str))) [
  | inl e ↦ rw e (add_sorted-Keeps num (string_len str) str s).balanced
  | inr e ↦ rw e (Balanced-refl s)
]

next_segment-Balanced :
    (rest : Bytes → M ℕ) (num : ℕ) (str : Bytes) (o : Option (Bytes × Bytes)) (s : State)
    → ((after : Bytes) (t : State) → Balanced t (rest after t).1)
    → Balanced s (next_segment rest num str o s).1
next_segment-Balanced rest num str none s h = add_segment-Balanced num str s
next_segment-Balanced rest num str (some (segment, after)) s h =
    continue-Balanced s _ (rest after) (add_segment-Balanced num segment s) (h after)

add_segments-Balanced :
    (fuel num d : ℕ) (str : Bytes) (s : State) → Balanced s (add_segments fuel num d str s).1
unfolding add_segments
add_segments-Balanced zero num d str s = Balanced-refl s
add_segments-Balanced (suc fuel) num d str s =
    next_segment-Balanced (add_segments fuel num d) num str (split_at d str) s
      (add_segments-Balanced fuel num d)

add_path-Balanced : (v : Option Bytes) (s : State) → Balanced s (add_path v s).1
add_path-Balanced none s = Balanced-refl s
add_path-Balanced (some []) s = Balanced-refl s
add_path-Balanced (some (c ∷ cs)) s = elim (Bool-cases (c == 47)) [
  | inl e ↦ rw e (add_segments-Balanced (suc (length cs)) uri_path 47 cs s)
  | inr e ↦ rw e (Balanced-refl s)
]

add_query-Balanced : (v : Option Bytes) (s : State) → Balanced s (add_query v s).1
add_query-Balanced none s = Balanced-refl s
add_query-Balanced (some str) s = add_segments-Balanced (suc (length str)) uri_query 38 str s

add_string-Keeping : (num : ℕ) (v : Option Bytes) → Keeping (add_string num v)
add_string-Keeping num v = record { kept = add_string-Balanced num v }

add_path-Keeping : (v : Option Bytes) → Keeping (add_path v)
add_path-Keeping v = record { kept = add_path-Balanced v }

add_query-Keeping : (v : Option Bytes) → Keeping (add_query v)
add_query-Keeping v = record { kept = add_query-Balanced v }

add_uri-Keeping : (u : Uri) → Keeping (add_uri u)
unfolding add_uri
add_uri-Keeping u =
    add_string-Keeping uri_host u.host
    then add_string-Keeping uri_port u.port
    then add_path-Keeping u.path
    then add_query-Keeping u.query

convert-Balanced : (u : Uri) (s : State) → Balanced s (convert u s).1
unfolding convert
convert-Balanced u s = elim (Bool-cases (is_some u.fragment)) [
  | inl e ↦ rw e (Balanced-refl s)
  | inr e ↦ elim (Bool-cases (is_coap_scheme u.scheme)) [
    | inl k ↦ rw (e, k) ((add_uri-Keeping u).kept s)
    | inr k ↦ rw (e, k) (Balanced-refl s)
  ]
]

converted-Balanced : (r : Result ℕ) (u : Uri) (s : State) → Balanced s (converted r u s).1
converted-Balanced (ok n) u s = convert-Balanced u s
converted-Balanced (err e) u s = Balanced-refl s
converted-Balanced stuck u s = Balanced-refl s

pub uri_http_to_coap-Balanced :
    (char_signed : Bool) (http_uri : Bytes) (s : State)
    → Balanced s (uri_http_to_coap char_signed http_uri s).1
unfolding uri_http_to_coap uri_destroy
uri_http_to_coap-Balanced char_signed http_uri s =
    let p = uri_parse char_signed http_uri (record { uri = no_uri; heap = s.heap }) in
    let t : State = record s { heap = p.1.heap } in
    let c = converted p.0 p.1.uri t in
    let v : UriState = record { uri = p.1.uri; heap = c.1.heap } in
    let parsed =
      (uri_parse-UriBalanced char_signed http_uri
        (record { uri = no_uri; heap = s.heap })).blocks in
    let kept = (converted-Balanced p.0 p.1.uri t).blocks in
    let gone = (uri_destroy-UriBalanced v).blocks in record { blocks = omega arith }
