-- ===== src/Uri/Fields.antt =====
-- proxy/common/src/uri.c: a URI, its fields, and the functions that set and copy them.
use free_co_ap.Common.{
  ℕ, ◌+◌, Bool, true, false, ◌||◌, [], ◌∷◌, Option, none, some, Heap, malloc, free, Result, ok, err,
  ebadmsg, enomem, Bytes, length, leb, ltb, ◌==◌, if◌then◌else◌,
}
use free_co_ap.Common.Actions.{◌>>◌}
use free_co_ap.Uri.{is_in, Dest, encode_str, copy_str, decode_str}

-- uri_t; a field is `none` where its pointer is NULL.
pub record Uri : Type 0 where
  pub scheme : Option Bytes
  pub userinfo : Option Bytes
  pub host : Option Bytes
  pub port : Option Bytes
  pub path : Option Bytes
  pub query : Option Bytes
  pub fragment : Option Bytes

-- uri_create
abbrev pub no_uri : Uri
no_uri = record {
  scheme = none;
  userinfo = none;
  host = none;
  port = none;
  path = none;
  query = none;
  fragment = none;
}

-- The URI that a function changes, and the allocator.
pub record UriState : Type 0 where
  pub uri : Uri
  pub heap : Heap

-- The names of the fields.
pub data Field : Type 0 where
  f_scheme f_userinfo f_host f_port f_path f_query f_fragment : Field

abbrev pub get : Field → Uri → Option Bytes
get f_scheme u = u.scheme
get f_userinfo u = u.userinfo
get f_host u = u.host
get f_port u = u.port
get f_path u = u.path
get f_query u = u.query
get f_fragment u = u.fragment

abbrev pub put : Field → Option Bytes → Uri → Uri
put f_scheme v u = record u { scheme = v }
put f_userinfo v u = record u { userinfo = v }
put f_host v u = record u { host = v }
put f_port v u = record u { port = v }
put f_path v u = record u { path = v }
put f_query v u = record u { query = v }
put f_fragment v u = record u { fragment = v }

-- `if (p != NULL) free(p)`
abbrev pub free_field : Option Bytes → Heap → Heap
free_field none h = h
free_field (some v) h = free 1 h

-- uri_destroy
unfoldable pub uri_destroy : UriState → UriState
uri_destroy s = record {
  uri = no_uri;
  heap = free_field s.uri.fragment (
      free_field s.uri.query (
        free_field s.uri.path (
          free_field s.uri.port
            (free_field s.uri.host (free_field s.uri.userinfo (free_field s.uri.scheme s.heap))))));
}

abbrev pub dup_checked : Option Bytes → UriState → Result ℕ × UriState
dup_checked none s = (err enomem, uri_destroy s)
dup_checked (some v) s = (ok 0, s)

abbrev pub kept_if : Bool → Bytes → Option Bytes
kept_if true v = some v
kept_if false v = none

abbrev pub dup_into : Field → Field → Bytes → Uri → Bool × Heap → Result ℕ × UriState
dup_into f tested v u (b, h) =
    dup_checked (get tested (put f (kept_if b v) u))
      (record { uri = put f (kept_if b v) u; heap = h })

-- One field of uri_copy: strdup, and then the test of the field `tested` for NULL.
unfoldable pub copy_field : Field → Field → Option Bytes → UriState → Result ℕ × UriState
copy_field f tested none s = (ok 0, s)
copy_field f tested (some v) s = dup_into f tested v s.uri (malloc s.heap)

-- uri_copy: after the copies of the host and of the port it is the scheme that is tested.
unfoldable pub uri_copy : Uri → UriState → Result ℕ × UriState
uri_copy src s =
    (do
      copy_field f_scheme f_scheme src.scheme
      copy_field f_userinfo f_userinfo src.userinfo
      copy_field f_host f_scheme src.host
      copy_field f_port f_scheme src.port
      copy_field f_path f_path src.path
      copy_field f_query f_query src.query
      copy_field f_fragment f_fragment src.fragment)
      (uri_destroy s)

-- What a C string keeps of an array: the bytes before the first '\0'.
abbrev pub c_str : Bytes → Bytes
c_str [] = []
c_str (c ∷ cs) = if c == 0 then [] else c ∷ c_str cs

abbrev pub start_dest : Dest
start_dest = record { num = 0; out = [] }

-- The field after a decoding into `len` bytes: `num >= len` is an error.
abbrev pub decoded_into : Field → ℕ → Option Dest → Uri → Heap → Result ℕ × UriState
decoded_into f len none u h = (err ebadmsg, record { uri = put f none u; heap = free 1 h })
decoded_into f len (some d) u h =
    if leb len d.num
    then (err ebadmsg, record { uri = put f none u; heap = free 1 h })
    else (ok 0, record { uri = put f (some (c_str d.out)) u; heap = h })

abbrev pub allocated_into : Field → ℕ → (ℕ → Option Dest) → Uri → Bool × Heap → Result ℕ × UriState
allocated_into f len decode u (false, h) = (err enomem, record { uri = put f none u; heap = h })
allocated_into f len decode u (true, h) = decoded_into f len (decode len) u h

-- The old field is freed, and the new one decoded into as many bytes as the string takes.
unfoldable pub set_decoded : Field → Bool → Bytes → UriState → Result ℕ × UriState
set_decoded f char_signed str s =
    allocated_into f (length str + 1) (λ len. decode_str char_signed len str start_dest) s.uri
      (malloc (free_field (get f s.uri) s.heap))

-- The fields whose setters differ in the field only: neither the path nor the query is one.
pub data PlainField : Type 0 where
  plain_scheme plain_userinfo plain_host plain_port plain_fragment : PlainField

abbrev pub field_of : PlainField → Field
field_of plain_scheme = f_scheme
field_of plain_userinfo = f_userinfo
field_of plain_host = f_host
field_of plain_port = f_port
field_of plain_fragment = f_fragment

-- uri_set_scheme, uri_set_userinfo, uri_set_host, uri_set_port, uri_set_fragment
unfoldable pub set_field : PlainField → Bool → Bytes → UriState → Result ℕ × UriState
set_field f = set_decoded (field_of f)

abbrev pub starts_with_slash : Bytes → Bool
starts_with_slash [] = false
starts_with_slash (c ∷ cs) = c == 47

abbrev pub decoded_after_slash : Bool → ℕ → Bytes → Option Dest → Option Dest
decoded_after_slash char_signed len str none = decode_str char_signed len str start_dest
decoded_after_slash char_signed len str (some d) = decode_str char_signed len str d

-- uri_set_path: a slash is put before a path that has none.
unfoldable pub set_path : Bool → Bytes → UriState → Result ℕ × UriState
set_path char_signed str s =
    if starts_with_slash str
    then set_decoded f_path char_signed str s
    else allocated_into f_path (length str + 2)
        (λ len.
          decoded_after_slash char_signed len str (decode_str char_signed len (47 ∷ []) start_dest))
        s.uri (malloc (free_field s.uri.path s.heap))

-- uri_set_query tests `num > len`.
abbrev pub decoded_into_query : ℕ → Option Dest → Uri → Heap → Result ℕ × UriState
decoded_into_query len none u h =
    (err ebadmsg, record { uri = put f_query none u; heap = free 1 h })
decoded_into_query len (some d) u h =
    if ltb len d.num
    then (err ebadmsg, record { uri = put f_query none u; heap = free 1 h })
    else (ok 0, record { uri = put f_query (some (c_str d.out)) u; heap = h })

abbrev pub allocated_into_query : ℕ → (ℕ → Option Dest) → Uri → Bool × Heap → Result ℕ × UriState
allocated_into_query len decode u (false, h) =
    (err enomem, record { uri = put f_query none u; heap = h })
allocated_into_query len decode u (true, h) = decoded_into_query len (decode len) u h

-- uri_set_query
unfoldable pub set_query : Bool → Bytes → UriState → Result ℕ × UriState
set_query char_signed str s =
    allocated_into_query (length str + 1) (λ len. decode_str char_signed len str start_dest) s.uri
      (malloc (free_field s.uri.query s.heap))

abbrev pub if_some : {A : Type 0} → Option Bytes → (Bytes → A → A) → A → A
if_some none f a = a
if_some (some v) f a = f v a

abbrev pub is_some : Option Bytes → Bool
is_some none = false
is_some (some v) = true

abbrev pub encode_host : ℕ → Bytes → Dest → Dest
encode_host len v d =
    if is_in 58 v
    then copy_str len (93 ∷ []) (encode_str len (58 ∷ []) v (copy_str len (91 ∷ []) d))
    else encode_str len [] v d

-- uri_generate: the length of the whole, and what is written of it. The parts of the string are
-- ':', "//", '@', '[', ']', '?' and '#', and the characters "/:@" and "?/:@" are left as they are.
unfoldable pub generate : Uri → ℕ → Dest
generate u len =
    if_some u.fragment (λ v d. encode_str len (63 ∷ 47 ∷ 58 ∷ 64 ∷ []) v (copy_str len (35 ∷ []) d))
      (if_some u.query (λ v d. encode_str len (63 ∷ 47 ∷ 58 ∷ 64 ∷ []) v (copy_str len (63 ∷ []) d))
        (if_some u.path (λ v d. encode_str len (47 ∷ 58 ∷ 64 ∷ []) v d)
          (if_some u.port (λ v d. encode_str len [] v (copy_str len (58 ∷ []) d))
            (if_some u.host (λ v d. encode_host len v d)
              (if_some u.userinfo (λ v d. copy_str len (64 ∷ []) (encode_str len (58 ∷ []) v d))
                (let d =
                    if_some u.scheme (λ v d. copy_str len (58 ∷ []) (encode_str len [] v d))
                      start_dest in
                  if is_some u.userinfo || is_some u.host || is_some u.port
                  then copy_str len (47 ∷ 47 ∷ []) d
                  else d))))))
