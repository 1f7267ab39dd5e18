-- ===== src/Cross/Tests.antt =====
-- Runs of cross_uri_http_to_coap, and its theorems at these.
use free_co_ap.Common.{false, true, List, [], ◌∷◌, ◌≡◌, refl, none, some, ok, Bytes, length, arith}
use free_co_ap.Msg.{Op, State, created}
use free_co_ap.Msg.Leaks.{Balanced}
use free_co_ap.Uri.{
  encode_str, copy_str, decode_loop, decode_octet, hex_to_int, is_unreserved, is_allowed, hex_digit,
}
use free_co_ap.Uri.Fields.{generate, set_field, set_decoded, set_path, set_query, uri_destroy}
use free_co_ap.Uri.ParseRoundTrip.{net_uri, uri_text, Readable}
use free_co_ap.Cross.{same_but_case, uri_http_to_coap}
use free_co_ap.Cross.Segments.{pieces, string_op, segment_ops}
use free_co_ap.Cross.Ops.{uri_ops}
use free_co_ap.Cross.Back.{join_path, join_query, set_first, set_fields, uri_coap_to_http}
use free_co_ap.Cross.BackBlocks.{SameUse, conversions-Balanced}
use free_co_ap.Cross.Buffer.{InBuffer, joined-InBuffer}
use free_co_ap.Cross.Request.{Short, uri_http_to_coap-uri_ops}

abbrev request : State
request = record { msg = created; heap = record { outcomes = []; allocs = 0; frees = 0 } }

-- "CoAP", "h", "/a//b" and "q&r"
abbrev mixed_case : Bytes
mixed_case = 67 ∷ 111 ∷ 65 ∷ 80 ∷ []

abbrev text_h : Bytes
text_h = 104 ∷ []

abbrev text_path : Bytes
text_path = 47 ∷ 97 ∷ 47 ∷ 47 ∷ 98 ∷ []

abbrev text_query : Bytes
text_query = 113 ∷ 38 ∷ 114 ∷ []

-- The empty segment is left out.
uri_ops-sample :
    uri_ops (net_uri mixed_case text_h none (some text_path) (some text_query) none)
    ≡ string_op 3 text_h
      ∷ string_op 11 (97 ∷ [])
      ∷ string_op 11 (98 ∷ [])
      ∷ string_op 15 (113 ∷ [])
      ∷ string_op 15 (114 ∷ [])
      ∷ []
unfolding segment_ops pieces
uri_ops-sample = refl

sample-Readable : Readable mixed_case text_h none (some text_path) (some text_query) none
sample-Readable = record {
  scheme_text = (
    (omega arith, omega arith),
    ((omega arith, omega arith), ((omega arith, omega arith), ((omega arith, omega arith), tt))),
  );
  scheme_nonempty = λ e. cc;
  host_text = ((omega arith, omega arith), tt);
  host_nonempty = λ e. cc;
  port_text = tt;
  path_text = (
    refl,
    (
      (omega arith, omega arith),
      ((omega arith, omega arith), ((omega arith, omega arith), ((omega arith, omega arith), tt))),
    ),
    (refl, (refl, (refl, (refl, tt)))),
    (refl, (refl, (refl, (refl, tt)))),
  );
  query_text =
      ((omega arith, omega arith), ((omega arith, omega arith), ((omega arith, omega arith), tt)));
  fragment_text = tt;
}

sample-Short : Short text_h none (some text_path) (some text_query)
sample-Short = record {
  short_host = omega arith;
  short_port = tt;
  short_path = omega arith;
  short_query = omega arith;
}

abbrev sample_text : Bytes
sample_text = uri_text (net_uri mixed_case text_h none (some text_path) (some text_query) none)

sample_text-length : length sample_text ≡ 17
unfolding is_allowed is_unreserved hex_digit
sample_text-length = refl

is_coap : same_but_case mixed_case (99 ∷ 111 ∷ 97 ∷ 112 ∷ []) ≡ true
unfolding same_but_case
is_coap = refl

uri_http_to_coap-uri_ops_example :
    let u = net_uri mixed_case text_h none (some text_path) (some text_query) none in
    let r = uri_http_to_coap false (generate u 20).out request in
    (r.0 ≡ ok 0) × (r.1.msg.op_list ≡ uri_ops u)
uri_http_to_coap-uri_ops_example =
    uri_http_to_coap-uri_ops false mixed_case text_h none (some text_path) (some text_query) 20
      request sample-Readable sample-Short (rw is_coap refl) refl
      (let l = sample_text-length in omega arith) refl refl

conversions-Balanced_example :
    Balanced request (uri_http_to_coap false (67 ∷ 58 ∷ 37 ∷ []) request).1
    × SameUse request.heap (uri_coap_to_http false 20 request.msg request.heap).1.heap
conversions-Balanced_example = conversions-Balanced false (67 ∷ 58 ∷ 37 ∷ []) 20 request

-- Segments "a" and "b", and a query "q".
abbrev some_ops : List Op
some_ops = string_op 11 (97 ∷ []) ∷ string_op 11 (98 ∷ []) ∷ string_op 15 (113 ∷ []) ∷ []

joined-InBuffer_example : InBuffer (join_path some_ops []) × InBuffer (join_query some_ops [])
joined-InBuffer_example = joined-InBuffer some_ops (omega arith, (omega arith, (omega arith, tt)))

-- coaps:/a/b?q
uri_coap_to_http-some_ops :
    (uri_coap_to_http false 20 (record created { op_list = some_ops }) request.heap).1.buf
    ≡ some (99 ∷ 111 ∷ 97 ∷ 112 ∷ 115 ∷ 58 ∷ 47 ∷ 97 ∷ 47 ∷ 98 ∷ 63 ∷ 113 ∷ [])
unfolding uri_coap_to_http set_fields set_first join_path join_query set_field set_decoded set_path
    set_query decode_loop decode_octet hex_to_int generate encode_str copy_str is_allowed
    is_unreserved hex_digit uri_destroy
uri_coap_to_http-some_ops = refl

-- A segment "%41", whose '%' stands for itself, becomes an 'A'.
uri_coap_to_http-percent :
    (uri_coap_to_http false 20
      (record created { op_list = string_op 11 (37 ∷ 52 ∷ 49 ∷ []) ∷ [] })
      request.heap).1.buf
    ≡ some (99 ∷ 111 ∷ 97 ∷ 112 ∷ 115 ∷ 58 ∷ 47 ∷ 65 ∷ [])
unfolding uri_coap_to_http set_fields set_first join_path join_query set_field set_decoded set_path
    set_query decode_loop decode_octet hex_to_int generate encode_str copy_str is_allowed
    is_unreserved hex_digit uri_destroy
uri_coap_to_http-percent = refl
