-- ===== src/Uri/ParseRoundTrip.antt =====
-- uri_parse reads the text of a URI back (proxy/common/src/uri.c).
use free_co_ap.Common.{
  ℕ, ◌+◌, Bool, true, false, [], ◌∷◌, ◌++◌, append-nil, ◌≡◌, ◌≢◌, refl, ap, ◌∙◌, Option, none, some,
  Heap, malloc, next_outcome, Result, ok, Bytes, All, length, arith,
}
use free_co_ap.Uri.{is_in, is_allowed, is_unreserved, decode_str}
use free_co_ap.Uri.Coding.{
  Safe, encoded_all, encoded_all-length, decode_loop-encoded_all, empty_dest,
}
use free_co_ap.Uri.Fields.{Uri, UriState, Field, f_query, f_fragment, put, is_some}
use free_co_ap.Uri.Setters.{small_of}
use free_co_ap.Uri.Parse.{
  Rest, separate, parse_field, allocated_field, then_rest, parse_query, parse_fragment,
  parse_behind, in_front,
}
use free_co_ap.Uri.ParseFields.{put-put}
use free_co_ap.Uri.ParseText.{
  Lacks, separate-append, hash-IsDelim, encoded_away, Yields, continue-Yields, IsText,
  decoded_field-Yields,
}

pub malloc-outcomes : (h : Heap) → h.outcomes ≡ [] → (malloc h).1.outcomes ≡ []
malloc-outcomes h n = rw n

module _ (f : Field) (front : Bytes) (char_signed : Bool) (except v : Bytes) (safe : Safe except)
    (text : IsText v) where
  allocated_field-Yields :
      (u : Uri) (m : Bool × Heap)
      → m.0 ≡ true
      → m.1.outcomes ≡ []
      → Yields 0
          (put f (some (front ++ v)) u)
          (allocated_field f front char_signed (encoded_all except v) u m)
  allocated_field-Yields u (false, h) e n = cc
  allocated_field-Yields u (true, h) e n =
      let str = encoded_all except v in
      let le = encoded_all-length except v in
      let decoded : decode_str char_signed (length str + 1) str empty_dest
          ≡ some (record { num = length v; out = v }) =
        decode_loop-encoded_all (length str) char_signed (length str + 1) except v empty_dest safe
          (small_of v text) (omega arith) (omega arith)
        ∙ ap (λ n. some (record { num = n; out = v }))
            (let z : 0 + length v ≡ length v = omega arith in z) in
      rw (← put-put f (some (front ++ v)) (some []) u) (
        decoded_field-Yields f front (length str + 1) _ v
          (record { uri = put f (some []) u; heap = h }) decoded (omega arith) text n)

  pub parse_field-Yields :
      (u : Uri) (s : UriState)
      → s.uri ≡ u
      → s.heap.outcomes ≡ []
      → Yields 0
          (put f (some (front ++ v)) u)
          (parse_field f front char_signed (encoded_all except v) s)
  unfolding parse_field
  parse_field-Yields u s e n =
      rw (← e) (
        allocated_field-Yields s.uri (malloc s.heap) (ap next_outcome n) (malloc-outcomes s.heap n))

-- The characters that uri_generate leaves as they are, in a path, and in a query or a fragment.
abbrev pub path_except : Bytes
path_except = 47 ∷ 58 ∷ 64 ∷ []

abbrev pub tail_except : Bytes
tail_except = 63 ∷ 47 ∷ 58 ∷ 64 ∷ []

abbrev pub with_text : Bytes → Bytes → Option Bytes → Bytes
with_text mark except none = []
with_text mark except (some v) = mark ++ encoded_all except v

-- A URI with a scheme and a host.
abbrev pub net_uri : Bytes → Bytes → Option Bytes → Option Bytes → Option Bytes → Option Bytes → Uri
net_uri scheme host port path query fragment = record {
  scheme = some scheme;
  userinfo = none;
  host = some host;
  port = port;
  path = path;
  query = query;
  fragment = fragment;
}

-- Its text, for a host that is no IPv6 address.
abbrev pub uri_text : Uri → Bytes
uri_text u =
    with_text [] [] u.scheme
    ++ (58
        ∷ 47
        ∷ 47
        ∷ (with_text [] [] u.host
            ++ (with_text (58 ∷ []) [] u.port
                ++ (with_text [] path_except u.path
                    ++ (with_text (63 ∷ []) tail_except u.query
                        ++ with_text (35 ∷ []) tail_except u.fragment)))))

abbrev pub AllSome : (Bytes → Type 0) → Option Bytes → Type 0
AllSome P none = Unit
AllSome P (some v) = P v

-- A path begins with '/', and has no ':' and no '@'.
abbrev pub IsPathText : Bytes → Type 0
IsPathText [] = ⊥
IsPathText (c ∷ cs) = (c ≡ 47) × IsText cs × Lacks 58 cs × Lacks 64 cs

-- What a URI must be for its text to be read back.
pub record Readable (scheme host : Bytes) (port path query fragment : Option Bytes) : Type 0 where
  pub scheme_text : IsText scheme
  pub scheme_nonempty : scheme ≢ []
  pub host_text : IsText host
  pub host_nonempty : host ≢ []
  pub port_text : AllSome IsText port
  pub path_text : AllSome IsPathText path
  pub query_text : AllSome IsText query
  pub fragment_text : AllSome IsText fragment

pub no_except : Safe []
no_except = record { no_percent = refl; no_255 = refl }

pub path_except-Safe : Safe path_except
path_except-Safe = record { no_percent = refl; no_255 = refl }

tail_except-Safe : Safe tail_except
tail_except-Safe = record { no_percent = refl; no_255 = refl }

-- The parts behind the '?' and the '#'.
abbrev pub tail_text : Option Bytes → Option Bytes → Bytes
tail_text query fragment =
    with_text (63 ∷ []) tail_except query ++ with_text (35 ∷ []) tail_except fragment

abbrev pub hash_rest : Option Bytes → Rest
hash_rest none = none
hash_rest (some v) = some (35, encoded_all tail_except v)

abbrev pub mark_rest : Option Bytes → Option Bytes → Rest
mark_rest none fragment = hash_rest fragment
mark_rest (some v) fragment =
    some (63, encoded_all tail_except v ++ with_text (35 ∷ []) tail_except fragment)

pub separate-tail :
    (query fragment : Option Bytes)
    → separate (63 ∷ 35 ∷ []) (tail_text query fragment) ≡ ([], mark_rest query fragment)
unfolding separate
separate-tail none none = refl
separate-tail none (some v) = refl
separate-tail (some v) fragment = refl

separate-hash :
    (fragment : Option Bytes)
    → separate (35 ∷ []) (with_text (35 ∷ []) tail_except fragment) ≡ ([], hash_rest fragment)
unfolding separate
separate-hash none = refl
separate-hash (some v) = refl

separate_all : (xs : Bytes) → separate [] xs ≡ (xs, none)
unfolding separate
separate_all [] = refl
separate_all (x ∷ xs) = ap (in_front x) (separate_all xs)

-- A string with none of some delimiters.
pub neither :
    (a b : ℕ) (xs : Bytes) → Lacks a xs → Lacks b xs → All (λ c. is_in c (a ∷ b ∷ []) ≡ false) xs
neither a b [] h k = tt
neither a b (x ∷ xs) h k = (rw (h.0, k.0) refl, neither a b xs h.1 k.1)

only : (a : ℕ) (xs : Bytes) → Lacks a xs → All (λ c. is_in c (a ∷ []) ≡ false) xs
only a [] h = tt
only a (x ∷ xs) h = (rw h.0 refl, only a xs h.1)

pub then_rest-Yields :
    (rest : Rest) (u : Uri) (r : Result ℕ × UriState)
    → Yields 0 u r
    → Yields rest u (then_rest rest r)
then_rest-Yields rest u r h =
    continue-Yields 0 rest u u r _ h λ t e n. record { ok_is = refl; uri_is = e; outcomes_are = n }

pub same-Yields :
    {A : Type 0} (a : A) (u : Uri) (s : UriState)
    → s.uri ≡ u
    → s.heap.outcomes ≡ []
    → Yields a u (ok a, s)
same-Yields a u s e n = record { ok_is = refl; uri_is = e; outcomes_are = n }

tail_Lacks_hash : (v : Bytes) → Lacks 35 (encoded_all tail_except v)
unfolding is_allowed is_unreserved
tail_Lacks_hash v = encoded_away tail_except v 35 hash-IsDelim refl

parse_query-Yields :
    (char_signed : Bool) (v : Bytes) (fragment : Option Bytes) (u : Uri) (s : UriState)
    → IsText v
    → u.query ≡ none
    → s.uri ≡ u
    → s.heap.outcomes ≡ []
    → Yields (hash_rest fragment) (put f_query (some v) u) (
        parse_query char_signed
          (encoded_all tail_except v ++ with_text (35 ∷ []) tail_except fragment)
          s)
unfolding parse_query
parse_query-Yields char_signed v fragment u s text unset e n =
    let cut =
      separate-append (35 ∷ []) (encoded_all tail_except v)
        (with_text (35 ∷ []) tail_except fragment)
        (only 35 (encoded_all tail_except v) (tail_Lacks_hash v)) in
    let none_yet : is_some s.uri.query ≡ false = rw (e, unset) refl in
    rw (none_yet, cut, separate-hash fragment, append-nil (encoded_all tail_except v))
      (then_rest-Yields (hash_rest fragment) _ _
        (parse_field-Yields f_query [] char_signed tail_except v tail_except-Safe text u s e n))

pub behind_query :
    (char_signed : Bool) (query fragment : Option Bytes) (u : Uri) (s : UriState)
    → AllSome IsText query
    → u.query ≡ none
    → s.uri ≡ u
    → s.heap.outcomes ≡ []
    → Yields
        (hash_rest fragment)
        (record u { query = query })
        (parse_behind 63 (parse_query char_signed) (mark_rest query fragment) s)
behind_query char_signed none none u s text unset e n = rw (← unset) (same-Yields none u s e n)
behind_query char_signed none (some v) u s text unset e n =
    rw (← unset) (same-Yields (some (35, encoded_all tail_except v)) u s e n)
behind_query char_signed (some v) fragment u s text unset e n =
    parse_query-Yields char_signed v fragment u s text unset e n

parse_fragment-Yields :
    (char_signed : Bool) (v : Bytes) (u : Uri) (s : UriState)
    → IsText v
    → u.fragment ≡ none
    → s.uri ≡ u
    → s.heap.outcomes ≡ []
    → Yields {A = Rest} none
        (put f_fragment (some v) u)
        (parse_fragment char_signed (encoded_all tail_except v) s)
unfolding parse_fragment
parse_fragment-Yields char_signed v u s text unset e n =
    let none_yet : is_some s.uri.fragment ≡ false = rw (e, unset) refl in
    rw (none_yet, separate_all (encoded_all tail_except v))
      (then_rest-Yields none _ _
        (parse_field-Yields f_fragment [] char_signed tail_except v tail_except-Safe text u s e n))

pub behind_hash :
    (char_signed : Bool) (fragment : Option Bytes) (u : Uri) (s : UriState)
    → AllSome IsText fragment
    → u.fragment ≡ none
    → s.uri ≡ u
    → s.heap.outcomes ≡ []
    → Yields {A = Rest} none
        (record u { fragment = fragment })
        (parse_behind 35 (parse_fragment char_signed) (hash_rest fragment) s)
behind_hash char_signed none u s text unset e n = rw (← unset) (same-Yields none u s e n)
behind_hash char_signed (some v) u s text unset e n =
    parse_fragment-Yields char_signed v u s text unset e n
