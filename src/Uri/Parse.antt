-- ===== src/Uri/Parse.antt =====
-- uri_parse and its parts (proxy/common/src/uri.c).
use free_co_ap.Common.{
  ℕ, ◌+◌, Bool, true, false, ◌&&◌, ◌||◌, not, [], ◌∷◌, ◌++◌, Option, none, some, Heap, malloc, free,
  Result, ok, err, ebadmsg, enomem, Bytes, length, leb, ◌==◌, if◌then◌else◌,
}
use free_co_ap.Common.Actions.{continue}
use free_co_ap.Uri.{is_in, Dest, decode_str}
use free_co_ap.Uri.Fields.{
  Uri, UriState, Field, f_scheme, f_userinfo, f_host, f_port, f_path, f_query, f_fragment, put,
  uri_destroy, c_str, start_dest, is_some,
}
use free_co_ap.Uri.Port.{find_port}

abbrev pub with_char : ℕ → Option (Bytes × Bytes) → Option (Bytes × Bytes)
with_char c none = none
with_char c (some (before, after)) = some (c ∷ before, after)

-- strchr of a character: the string before it, and the string behind it; or `none` for NULL.
unfoldable pub split_at : ℕ → Bytes → Option (Bytes × Bytes)
split_at c [] = none
split_at c (x ∷ xs) = let rest = split_at c xs in if x == c then some ([], xs) else with_char x rest

-- A pointer that strsep moves on: the delimiter that it overwrote, and the string behind it; or
-- `none` for NULL.
abbrev pub Rest : Type 0
Rest = Option (ℕ × Bytes)

abbrev pub in_front : ℕ → Bytes × Rest → Bytes × Rest
in_front c (token, rest) = (c ∷ token, rest)

-- strsep
unfoldable pub separate : Bytes → Bytes → Bytes × Rest
separate delims [] = ([], none)
separate delims (x ∷ xs) =
    let rest = separate delims xs in if is_in x delims then ([], some (x, xs)) else in_front x rest

-- A field decoded into `len` bytes behind `front`; the URI is destroyed on an error.
abbrev pub decoded_field : Field → Bytes → ℕ → Option Dest → UriState → Result ℕ × UriState
decoded_field f front len none s = (err ebadmsg, uri_destroy s)
decoded_field f front len (some d) s =
    if leb len d.num
    then (err ebadmsg, uri_destroy s)
    else (ok 0, record s { uri = put f (some (front ++ c_str d.out)) s.uri })

abbrev pub allocated_field : Field → Bytes → Bool → Bytes → Uri → Bool × Heap → Result ℕ × UriState
allocated_field f front char_signed str u (false, h) =
    (err enomem, uri_destroy (record { uri = u; heap = h }))
allocated_field f front char_signed str u (true, h) =
    decoded_field f front (length str + 1) (decode_str char_signed (length str + 1) str start_dest)
      (record { uri = put f (some []) u; heap = h })

-- What the parts of uri_parse do for each field: calloc, uri_decode_str, and the tests of its
-- result. `front` is what is put in front of the decoded string.
unfoldable pub parse_field : Field → Bytes → Bool → Bytes → UriState → Result ℕ × UriState
parse_field f front char_signed str s =
    allocated_field f front char_signed str s.uri (malloc s.heap)

abbrev pub is_nonempty : Bytes → Bool
is_nonempty [] = false
is_nonempty (c ∷ cs) = true

abbrev pub parse_nonempty : Field → Bool → Bytes → UriState → Result ℕ × UriState
parse_nonempty f char_signed str s =
    if is_nonempty str then parse_field f [] char_signed str s else (ok 0, s)

abbrev pub scheme_split : Bool → Bytes → Option (Bytes × Bytes) → UriState → Result Bytes × UriState
scheme_split char_signed q none s = (ok q, s)
scheme_split char_signed q (some (scheme, rest)) s =
    continue (parse_nonempty f_scheme char_signed scheme s) λ _ t. (ok rest, t)

-- uri_parse_scheme: the string behind the scheme.
unfoldable pub parse_scheme : Bool → Bytes → UriState → Result Bytes × UriState
parse_scheme char_signed q s =
    if is_some s.uri.scheme then (err ebadmsg, s) else scheme_split char_signed q (split_at 58 q) s

-- The string behind the userinfo.
abbrev pub userinfo_split :
    Bool → Bytes → Option (Bytes × Bytes) → UriState → Result Bytes × UriState
userinfo_split char_signed p none s = (ok p, s)
userinfo_split char_signed p (some (userinfo, rest)) s =
    continue (parse_field f_userinfo [] char_signed userinfo s) λ _ t. (ok rest, t)

-- The host, the port and the path of an authority, each none where its pointer is NULL.
pub record Authority : Type 0 where
  pub host : Bytes
  pub port : Option Bytes
  pub path : Option Bytes

abbrev pub with_path : Bytes → Option Bytes → Bytes → Option (Bytes × Bytes) → Authority
with_path host port whole none = record { host = host; port = port; path = none }
with_path host port whole (some (before, after)) = record {
  host = host;
  port = port;
  path = some after;
}

abbrev pub before_slash : Bytes → Option (Bytes × Bytes) → Bytes
before_slash whole none = whole
before_slash whole (some (before, after)) = before

abbrev pub drop_first : Bytes → Bytes
drop_first [] = []
drop_first (c ∷ cs) = cs

-- The search for a port and, behind it, for a path; without a port, for a path in the whole.
abbrev pub port_split : Bytes → Option (Bytes × Bytes) → Authority
port_split p none = let slash = split_at 47 p in with_path (before_slash p slash) none p slash
port_split p (some (host, at)) =
    let port = drop_first at in
    let slash = split_at 47 port in with_path host (some (before_slash port slash)) port slash

unfoldable pub split_authority : Bytes → Authority
split_authority p = port_split p (find_port p)

abbrev pub last_is : ℕ → Bytes → Bool
last_is c [] = false
last_is c (x ∷ []) = x == c
last_is c (x ∷ (y ∷ ys)) = last_is c (y ∷ ys)

abbrev pub drop_last : Bytes → Bytes
drop_last [] = []
drop_last (x ∷ []) = []
drop_last (x ∷ (y ∷ ys)) = x ∷ drop_last (y ∷ ys)

-- The brackets around an IPv6 address are stripped.
unfoldable pub strip_brackets : Bytes → Bytes
strip_brackets [] = []
strip_brackets (c ∷ cs) = if c == 91 && last_is 93 cs then drop_last cs else c ∷ cs

abbrev pub parse_if_some : Field → Bytes → Bool → Option Bytes → UriState → Result ℕ × UriState
parse_if_some f front char_signed none s = (ok 0, s)
parse_if_some f front char_signed (some str) s = parse_field f front char_signed str s

-- The authority and the path behind "//"; the path gets its '/' again.
unfoldable pub parse_authority : Bool → Bytes → UriState → Result ℕ × UriState
parse_authority char_signed p s = continue (userinfo_split char_signed p (split_at 64 p) s) λ q t.
    let a = split_authority q in
    continue (parse_nonempty f_host char_signed (strip_brackets a.host) t) λ _ t1.
      continue (parse_if_some f_port [] char_signed a.port t1)
        λ _ t2. parse_if_some f_path (47 ∷ []) char_signed a.path t2

abbrev pub hier : Bool → Bytes → UriState → Result ℕ × UriState
hier char_signed [] s = (ok 0, s)
hier char_signed (x ∷ []) s = parse_field f_path [] char_signed (x ∷ []) s
hier char_signed (x ∷ (y ∷ p)) s =
    if x == 47 && y == 47
    then parse_authority char_signed p s
    else parse_field f_path [] char_signed (x ∷ (y ∷ p)) s

abbrev pub then_rest : Rest → Result ℕ × UriState → Result Rest × UriState
then_rest rest r = continue r λ _ t. (ok rest, t)

-- uri_parse_hier_part: what is behind the '?' or '#' that ends it.
unfoldable pub parse_hier_part : Bool → Bytes → UriState → Result Rest × UriState
parse_hier_part char_signed q s =
    if is_some s.uri.userinfo || is_some s.uri.host || is_some s.uri.port || is_some s.uri.path
    then (err ebadmsg, s)
    else let r = separate (63 ∷ 35 ∷ []) q in then_rest r.1 (hier char_signed r.0 s)

-- uri_parse_query
unfoldable pub parse_query : Bool → Bytes → UriState → Result Rest × UriState
parse_query char_signed q s =
    if is_some s.uri.query
    then (err ebadmsg, s)
    else let r = separate (35 ∷ []) q in then_rest r.1 (parse_field f_query [] char_signed r.0 s)

-- uri_parse_fragment
unfoldable pub parse_fragment : Bool → Bytes → UriState → Result Rest × UriState
parse_fragment char_signed q s =
    if is_some s.uri.fragment
    then (err ebadmsg, s)
    else let r = separate [] q in then_rest r.1 (parse_field f_fragment [] char_signed r.0 s)

-- A part that is read where its delimiter was overwritten.
abbrev pub parse_behind :
    ℕ → (Bytes → UriState → Result Rest × UriState) → Rest → UriState → Result Rest × UriState
parse_behind c parse none s = (ok none, s)
parse_behind c parse (some (delim, q)) s =
    if delim == c then parse q s else (ok (some (delim, q)), s)

abbrev pub at_end : Rest → UriState → Result ℕ × UriState
at_end none s = (ok 0, s)
at_end (some q) s = (err ebadmsg, s)

abbrev pub starts_at_root : Bytes → Bool
starts_at_root [] = false
starts_at_root (c ∷ cs) = c == 47

abbrev pub parse_start : Bool → Bytes → UriState → Result Bytes × UriState
parse_start char_signed str s =
    if not (starts_at_root str) then parse_scheme char_signed str s else (ok str, s)

-- The parts of uri_parse, on the copy of the string.
unfoldable pub parse_parts : Bool → Bytes → UriState → Result ℕ × UriState
parse_parts char_signed str s = continue (parse_start char_signed str s) λ q t.
    continue (parse_hier_part char_signed q t) λ r1 t1.
      continue (parse_behind 63 (parse_query char_signed) r1 t1)
        λ r2 t2. continue (parse_behind 35 (parse_fragment char_signed) r2 t2) at_end

-- The copy of the string is freed on every path.
abbrev pub freed_copy : Result ℕ × UriState → Result ℕ × UriState
freed_copy (r, s) = (r, record s { heap = free 1 s.heap })

abbrev pub copied_string : Bool → Bytes → Uri → Bool × Heap → Result ℕ × UriState
copied_string char_signed str u (false, h) = (err enomem, record { uri = u; heap = h })
copied_string char_signed str u (true, h) =
    freed_copy (parse_parts char_signed str (record { uri = u; heap = h }))

-- uri_parse
unfoldable pub uri_parse : Bool → Bytes → UriState → Result ℕ × UriState
uri_parse char_signed str s =
    let t = uri_destroy s in copied_string char_signed str t.uri (malloc t.heap)
