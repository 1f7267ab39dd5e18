-- ===== src/Uri/ParseTests.antt =====
-- Runs of uri_parse, and its theorems at these.
use free_co_ap.Common.{false, [], ◌∷◌, ◌≡◌, refl, none, some, ok, Bytes, length, arith}
use free_co_ap.Uri.{is_unreserved, is_allowed, hex_to_int, hex_digit, decode_octet, decode_loop}
use free_co_ap.Uri.Fields.{no_uri, UriState, uri_destroy, generate}
use free_co_ap.Uri.Blocks.{UriBalanced}
use free_co_ap.Uri.Port.{find_port_from}
use free_co_ap.Uri.Parse.{
  split_at, separate, parse_field, parse_scheme, split_authority, strip_brackets, parse_authority,
  parse_hier_part, parse_query, parse_fragment, parse_parts, uri_parse,
}
use free_co_ap.Uri.ParseBlocks.{uri_parse-UriBalanced}
use free_co_ap.Uri.ParseRoundTrip.{net_uri, uri_text, Readable}
use free_co_ap.Uri.Generated.{uri_parse-generate}

abbrev heap_state : UriState
heap_state = record { uri = no_uri; heap = record { outcomes = []; allocs = 0; frees = 0 } }

-- "c", "h", "5", "/a b" and "q"
abbrev text_c : Bytes
text_c = 99 ∷ []

abbrev text_h : Bytes
text_h = 104 ∷ []

abbrev text_5 : Bytes
text_5 = 53 ∷ []

abbrev text_path : Bytes
text_path = 47 ∷ 97 ∷ 32 ∷ 98 ∷ []

abbrev text_q : Bytes
text_q = 113 ∷ []

abbrev bracketed : Bytes
bracketed = 99 ∷ 58 ∷ 47 ∷ 47 ∷ 91 ∷ 58 ∷ 58 ∷ 49 ∷ 93 ∷ 58 ∷ 53 ∷ 47 ∷ 97 ∷ []

-- The brackets of c://[::1]:5/a are stripped.
uri_parse-bracketed :
    (uri_parse false bracketed heap_state).1.uri
    ≡ net_uri text_c (58 ∷ 58 ∷ 49 ∷ []) (some text_5) (some (47 ∷ 97 ∷ [])) none none
unfolding uri_parse uri_destroy parse_parts parse_scheme split_at parse_hier_part separate
    parse_authority split_authority strip_brackets find_port_from parse_field decode_loop
    decode_octet hex_to_int parse_query parse_fragment
uri_parse-bracketed = refl

-- The '@' of c://h/a@b is taken for the end of a userinfo.
uri_parse-at_sign :
    (uri_parse false (99 ∷ 58 ∷ 47 ∷ 47 ∷ 104 ∷ 47 ∷ 97 ∷ 64 ∷ 98 ∷ []) heap_state).1.uri ≡ record {
      scheme = some text_c;
      userinfo = some (104 ∷ 47 ∷ 97 ∷ []);
      host = some (98 ∷ []);
      port = none;
      path = none;
      query = none;
      fragment = none;
    }
unfolding uri_parse uri_destroy parse_parts parse_scheme split_at parse_hier_part separate
    parse_authority split_authority strip_brackets find_port_from parse_field decode_loop
    decode_octet hex_to_int parse_query parse_fragment
uri_parse-at_sign = refl

-- The ':' of c://h/a:b is taken for the start of a port.
uri_parse-colon :
    (uri_parse false (99 ∷ 58 ∷ 47 ∷ 47 ∷ 104 ∷ 47 ∷ 97 ∷ 58 ∷ 98 ∷ []) heap_state).1.uri
    ≡ net_uri text_c (104 ∷ 47 ∷ 97 ∷ []) (some (98 ∷ [])) none none none
unfolding uri_parse uri_destroy parse_parts parse_scheme split_at parse_hier_part separate
    parse_authority split_authority strip_brackets find_port_from parse_field decode_loop
    decode_octet hex_to_int parse_query parse_fragment
uri_parse-colon = refl

uri_parse-UriBalanced_example : UriBalanced heap_state (uri_parse false bracketed heap_state).1
uri_parse-UriBalanced_example = uri_parse-UriBalanced false bracketed heap_state

sample-Readable : Readable text_c text_h (some text_5) (some text_path) (some text_q) none
sample-Readable = record {
  scheme_text = ((omega arith, omega arith), tt);
  scheme_nonempty = λ e. cc;
  host_text = ((omega arith, omega arith), tt);
  host_nonempty = λ e. cc;
  port_text = ((omega arith, omega arith), tt);
  path_text = (
    refl,
    ((omega arith, omega arith), ((omega arith, omega arith), ((omega arith, omega arith), tt))),
    (refl, (refl, (refl, tt))),
    (refl, (refl, (refl, tt))),
  );
  query_text = ((omega arith, omega arith), tt);
  fragment_text = tt;
}

abbrev sample_text : Bytes
sample_text = uri_text (net_uri text_c text_h (some text_5) (some text_path) (some text_q) none)

sample_text-length : length sample_text ≡ 15
unfolding is_allowed is_unreserved hex_digit
sample_text-length = refl

uri_parse-generate_example :
    let u = net_uri text_c text_h (some text_5) (some text_path) (some text_q) none in
    let r = uri_parse false (generate u 16).out heap_state in (r.0 ≡ ok 0) × (r.1.uri ≡ u)
uri_parse-generate_example =
    uri_parse-generate false text_c text_h (some text_5) (some text_path) (some text_q) none 16
      heap_state sample-Readable refl (let l = sample_text-length in omega arith) refl
