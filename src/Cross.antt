-- ===== src/Cross.antt =====
-- proxy/common/src/cross.c: the URI of a request becomes the options of a CoAP message.

pub mod Segments
pub mod Ops
pub mod Request
pub mod Back
pub mod BackBlocks
pub mod Buffer
mod Tests
use free_co_ap.Common.{
  ℕ, zero, suc, ◌+◌, ◌%◌, Bool, true, false, ◌&&◌, ◌||◌, not, List, [], ◌∷◌, Option, none, some,
  Result, ok, err, stuck, ebadmsg, Bytes, u32_mod, length, ltb, ◌==◌, if◌then◌else◌,
}
use free_co_ap.Common.Actions.{continue, ◌>>◌, return, fail}
use free_co_ap.Msg.{State, M}
use free_co_ap.Msg.Build.{add_op}
use free_co_ap.Uri.{is_between}
use free_co_ap.Uri.Fields.{Uri, UriState, no_uri, uri_destroy, is_some}
use free_co_ap.Uri.Parse.{split_at, uri_parse}

-- COAP_MSG_URI_HOST, COAP_MSG_URI_PORT, COAP_MSG_URI_PATH and COAP_MSG_URI_QUERY
abbrev pub uri_host : ℕ
uri_host = 3

abbrev pub uri_port : ℕ
uri_port = 7

abbrev pub uri_path : ℕ
uri_path = 11

abbrev pub uri_query : ℕ
uri_query = 15

-- tolower in the C locale.
abbrev pub to_lower : ℕ → ℕ
to_lower c = if is_between 65 90 c then c + 32 else c

-- Whether strcasecmp gives 0.
unfoldable pub same_but_case : Bytes → Bytes → Bool
same_but_case [] [] = true
same_but_case [] (y ∷ ys) = false
same_but_case (x ∷ xs) [] = false
same_but_case (x ∷ xs) (y ∷ ys) = to_lower x == to_lower y && same_but_case xs ys

-- "coap" and "coaps"
abbrev pub coap : Bytes
coap = 99 ∷ 111 ∷ 97 ∷ 112 ∷ []

abbrev pub coaps : Bytes
coaps = 99 ∷ 111 ∷ 97 ∷ 112 ∷ 115 ∷ []

abbrev pub is_coap_scheme : Option Bytes → Bool
is_coap_scheme none = false
is_coap_scheme (some str) = same_but_case str coap || same_but_case str coaps

-- The length of a string, as an unsigned.
abbrev pub string_len : Bytes → ℕ
string_len str = length str % u32_mod

abbrev pub add_string : ℕ → Option Bytes → M ℕ
add_string num none s = (ok 0, s)
add_string num (some str) s = add_op num (string_len str) str s

-- A segment that is empty is left out.
abbrev pub add_segment : ℕ → Bytes → M ℕ
add_segment num str s =
    if ltb 0 (string_len str) then add_op num (string_len str) str s else (ok 0, s)

abbrev pub next_segment : (Bytes → M ℕ) → ℕ → Bytes → Option (Bytes × Bytes) → M ℕ
next_segment rest num str none = add_segment num str
next_segment rest num str (some (segment, behind)) = add_segment num segment >> rest behind

-- The loops over the path and over the query, on fuel: each round passes a delimiter, or is the
-- last one.
unfoldable pub add_segments : ℕ → ℕ → ℕ → Bytes → M ℕ
add_segments zero num delim str s = (stuck, s)
add_segments (suc fuel) num delim str s =
    next_segment (add_segments fuel num delim) num str (split_at delim str) s

abbrev pub add_path : Option Bytes → M ℕ
add_path none s = (ok 0, s)
add_path (some []) s = (err ebadmsg, s)
add_path (some (c ∷ cs)) s =
    if c == 47 then add_segments (suc (length cs)) uri_path 47 cs s else (err ebadmsg, s)

abbrev pub add_query : Option Bytes → M ℕ
add_query none s = (ok 0, s)
add_query (some str) s = add_segments (suc (length str)) uri_query 38 str s

-- The options of a URI, added to the message.
unfoldable pub add_uri : Uri → M ℕ
add_uri u = do
  add_string uri_host u.host
  add_string uri_port u.port
  add_path u.path
  add_query u.query

-- The tests of the fragment and of the scheme.
unfoldable pub convert : Uri → M ℕ
convert u s =
    if is_some u.fragment
    then (err ebadmsg, s)
    else if is_coap_scheme u.scheme
    then add_uri u s
    else (err ebadmsg, s)

abbrev pub converted : Result ℕ → Uri → M ℕ
converted (ok n) u s = convert u s
converted (err e) u s = (err e, s)
converted stuck u s = (stuck, s)

-- uri_destroy of the URI, which is done on every path.
abbrev pub without_uri : Uri → Result ℕ × State → Result ℕ × State
without_uri u (r, s) =
    (r, record s { heap = (uri_destroy (record { uri = u; heap = s.heap })).heap })

-- cross_uri_http_to_coap
unfoldable pub uri_http_to_coap : Bool → Bytes → M ℕ
uri_http_to_coap char_signed http_uri s =
    let p = uri_parse char_signed http_uri (record { uri = no_uri; heap = s.heap }) in
    without_uri p.1.uri (converted p.0 p.1.uri (record s { heap = p.1.heap }))
