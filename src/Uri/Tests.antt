-- ===== src/Uri/Tests.antt =====
-- Runs of the URI library, and its theorems at these.
use free_co_ap.Common.{false, true, [], ◌∷◌, ◌≡◌, refl, none, some, ok, Bytes, length, arith}
use free_co_ap.Uri.{
  is_unreserved, is_allowed, hex_to_int, hex_digit, decode_octet, encode_str, copy_str, decode_loop,
  decode_str,
}
use free_co_ap.Uri.Fields.{
  Uri, no_uri, UriState, f_host, put, start_dest, uri_copy, set_field, plain_host, set_decoded,
  set_path, set_query, generate,
}
use free_co_ap.Uri.Coding.{Safe, empty_dest, encoded_all, decode_str-encode_str}
use free_co_ap.Uri.Copy.{HasScheme, Copied, Failed, uri_copy-Copied, uri_copy-Failed}
use free_co_ap.Uri.Setters.{set_field-encode_str}
use free_co_ap.Uri.Bounds.{Within, generate-Within}

-- "a b", with a space that has to be encoded.
abbrev spaced : Bytes
spaced = 97 ∷ 32 ∷ 98 ∷ []

-- coap://h:5/a%20b?q
abbrev sample_uri : Uri
sample_uri = record {
  scheme = some (99 ∷ 111 ∷ 97 ∷ 112 ∷ []);
  userinfo = none;
  host = some (104 ∷ []);
  port = some (53 ∷ []);
  path = some (47 ∷ spaced);
  query = some (113 ∷ []);
  fragment = none;
}

generate-sample_uri :
    (generate sample_uri 40).out
    ≡ 99 ∷ 111 ∷ 97 ∷ 112 ∷ 58 ∷ 47 ∷ 47 ∷ 104 ∷ 58 ∷ 53 ∷ 47 ∷ 97 ∷ 37 ∷ 50 ∷ 48 ∷ 98 ∷ 63 ∷ 113
      ∷ []
unfolding generate encode_str copy_str is_allowed is_unreserved hex_digit
generate-sample_uri = refl

abbrev uri_state : UriState
uri_state = record { uri = no_uri; heap = record { outcomes = []; allocs = 0; frees = 0 } }

-- A slash is put in front of "a%20b%00c", and the string ends where its "%00" stands.
set_path-spaced :
    (set_path false (97 ∷ 37 ∷ 50 ∷ 48 ∷ 98 ∷ 37 ∷ 48 ∷ 48 ∷ 99 ∷ []) uri_state).1.uri.path
    ≡ some (47 ∷ spaced)
unfolding set_path set_decoded decode_loop decode_octet hex_to_int
set_path-spaced = refl

set_query-spaced :
    (set_query false (97 ∷ 37 ∷ 50 ∷ 48 ∷ 98 ∷ []) uri_state).1.uri.query ≡ some spaced
unfolding set_query decode_loop decode_octet hex_to_int
set_query-spaced = refl

no_except : Safe []
no_except = record { no_percent = refl; no_255 = refl }

encoded_length : length (encoded_all [] spaced) ≡ 5
unfolding is_allowed is_unreserved hex_digit
encoded_length = refl

decode_str-encode_str_example :
    decode_str true 4 (encode_str 9 [] spaced empty_dest).out empty_dest
    ≡ some (record { num = 3; out = spaced })
decode_str-encode_str_example =
    decode_str-encode_str true 9 4 [] spaced no_except
      (omega arith, (omega arith, (omega arith, tt))) (let l = encoded_length in omega arith)
      (omega arith)

set_field-encode_str_example :
    let r = set_field plain_host true (encode_str 9 [] spaced start_dest).out uri_state in
    (r.0 ≡ ok 0) × (r.1.uri ≡ put f_host (some spaced) no_uri)
set_field-encode_str_example =
    set_field-encode_str plain_host true 9 [] spaced uri_state refl no_except
      ((omega arith, omega arith), ((omega arith, omega arith), ((omega arith, omega arith), tt)))
      (let l = encoded_length in omega arith)

sample_uri-HasScheme : HasScheme sample_uri
sample_uri-HasScheme = record { for_host = λ w e z. cc; for_port = λ w e z. cc }

uri_copy-Copied_example : Copied sample_uri (uri_copy sample_uri uri_state)
uri_copy-Copied_example = uri_copy-Copied sample_uri uri_state refl sample_uri-HasScheme

abbrev host_only : Uri
host_only = record no_uri { host = some (104 ∷ []) }

uri_copy-Failed_example : Failed (uri_copy host_only uri_state)
uri_copy-Failed_example = uri_copy-Failed host_only (104 ∷ []) uri_state refl refl refl

generate-Within_example : Within 10 (generate sample_uri 10)
generate-Within_example = generate-Within sample_uri 10 (omega arith)
