-- ===== src/Uri/ParseNet.antt =====
-- uri_parse reads a whole URI back (proxy/common/src/uri.c).
use free_co_ap.Common.{
  ℕ, Bool, true, false, ◌||◌, [], ◌∷◌, ◌++◌, append-nil, append_assoc, ◌≡◌, ◌≢◌, refl, sym, ap, ◌∙◌,
  Option, none, some, Heap, malloc, next_outcome, Result, Bytes,
}
use free_co_ap.Uri.{is_allowed, is_unreserved, is_plain}
use free_co_ap.Uri.Coding.{encoded_all}
use free_co_ap.Uri.Fields.{Uri, UriState, f_scheme, put, no_uri, uri_destroy, is_some}
use free_co_ap.Uri.Setters.{free_field-outcomes}
use free_co_ap.Uri.Parse.{
  Rest, separate, parse_scheme, parse_hier_part, starts_at_root, parse_start, parse_parts,
  freed_copy, copied_string, uri_parse,
}
use free_co_ap.Uri.ParseText.{
  Lacks, split_at-found, separate-append, IsDelim, colon-IsDelim, slash-IsDelim, question-IsDelim,
  hash-IsDelim, encoded_away, Yields, continue-Yields, IsText,
}
use free_co_ap.Uri.ParseRoundTrip.{
  malloc-outcomes, path_except, with_text, tail_text, mark_rest, hash_rest, separate-tail, neither,
  then_rest-Yields, same-Yields, behind_query, behind_hash, net_uri, uri_text, Readable,
}
use free_co_ap.Uri.ParseAuthority.{
  parse_nonempty-Yields, authority_text, authority_Lacks, parse_authority-Yields,
}

not_at_root : (xs ys : Bytes) → Lacks 47 xs → starts_at_root (xs ++ (58 ∷ ys)) ≡ false
not_at_root [] ys h = refl
not_at_root (x ∷ xs) ys h = h.0

parse_start-Yields :
    (char_signed : Bool) (scheme rest : Bytes) (u : Uri) (s : UriState)
    → IsText scheme
    → scheme ≢ []
    → u.scheme ≡ none
    → s.uri ≡ u
    → s.heap.outcomes ≡ []
    → Yields rest
        (put f_scheme (some scheme) u)
        (parse_start char_signed (encoded_all [] scheme ++ (58 ∷ rest)) s)
unfolding parse_scheme is_allowed is_unreserved
parse_start-Yields char_signed scheme rest u s text ne unset e n =
    let str = encoded_all [] scheme in
    let no_slash : Lacks 47 str = encoded_away [] scheme 47 slash-IsDelim refl in
    let no_colon : Lacks 58 str = encoded_away [] scheme 58 colon-IsDelim refl in
    let none_yet : is_some s.uri.scheme ≡ false = rw (e, unset) refl in
    let u1 = put f_scheme (some scheme) u in
    rw (not_at_root str rest no_slash, none_yet, split_at-found 58 str rest no_colon)
      (continue-Yields 0 rest u1 u1 _ _
        (parse_nonempty-Yields f_scheme char_signed scheme u s text ne e n)
        λ t e1 n1. same-Yields rest u1 t e1 n1)

path_away :
    (d : ℕ) (path : Option Bytes)
    → IsDelim d
    → is_plain path_except d ≡ false
    → Lacks d (with_text [] path_except path)
path_away d none i h = tt
path_away d (some v) i h = encoded_away path_except v d i h

-- What the hierarchical part and the parts behind it are cut into.
separate-authority :
    (host : Bytes) (port path query fragment : Option Bytes)
    → separate
        (63 ∷ 35 ∷ [])
        (47 ∷ 47 ∷ (authority_text host port path ++ tail_text query fragment))
      ≡ (47 ∷ 47 ∷ authority_text host port path, mark_rest query fragment)
unfolding is_allowed is_unreserved
separate-authority host port path query fragment =
    let a = authority_text host port path in
    let no_question : Lacks 63 a =
      authority_Lacks 63 host port path question-IsDelim refl refl
        (path_away 63 path question-IsDelim refl) in
    let no_hash : Lacks 35 a =
      authority_Lacks 35 host port path hash-IsDelim refl refl
        (path_away 35 path hash-IsDelim refl) in
    separate-append (63 ∷ 35 ∷ []) (47 ∷ 47 ∷ a) (tail_text query fragment)
      (neither 63 35 (47 ∷ 47 ∷ a) (refl, (refl, no_question)) (refl, (refl, no_hash)))
    ∙ rw (separate-tail query fragment, append-nil a) refl

module _ (char_signed : Bool) (scheme host : Bytes) (port path query fragment : Option Bytes)
    (r : Readable scheme host port path query fragment) where
  parse_hier_part-Yields :
      (u : Uri) (s : UriState)
      → u.userinfo ≡ none
      → u.host ≡ none
      → u.port ≡ none
      → u.path ≡ none
      → s.uri ≡ u
      → s.heap.outcomes ≡ []
      → Yields
          (mark_rest query fragment)
          (record u { host = some host; port = port; path = path })
          (parse_hier_part char_signed
            (47 ∷ 47 ∷ (authority_text host port path ++ tail_text query fragment))
            s)
  unfolding parse_hier_part
  parse_hier_part-Yields u s nu nh np nq e n =
      let none_yet : is_some s.uri.userinfo
            || is_some s.uri.host
            || is_some s.uri.port
            || is_some s.uri.path
          ≡ false =
        rw (e, nu, nh, np, nq) refl in
      rw (none_yet, separate-authority host port path query fragment)
        (then_rest-Yields (mark_rest query fragment) _ _ (
          parse_authority-Yields char_signed host port path r.host_text r.host_nonempty r.port_text
            r.path_text u s np nq e n))

  parse_parts-Yields :
      (s : UriState)
      → s.uri ≡ no_uri
      → s.heap.outcomes ≡ []
      → Yields 0 (net_uri scheme host port path query fragment) (
          parse_parts char_signed
            (encoded_all [] scheme
              ++ (58 ∷ 47 ∷ 47 ∷ (authority_text host port path ++ tail_text query fragment)))
            s)
  unfolding parse_parts
  parse_parts-Yields s e n =
      let u = net_uri scheme host port path none none in
      let v = net_uri scheme host port path query none in
      let w = net_uri scheme host port path query fragment in
      continue-Yields _ 0 (put f_scheme (some scheme) no_uri) w _ _
        (parse_start-Yields char_signed scheme _ no_uri s r.scheme_text r.scheme_nonempty refl e n)
        λ t e1 n1.
          continue-Yields (mark_rest query fragment) 0 u w _ _
            (parse_hier_part-Yields (put f_scheme (some scheme) no_uri) t refl refl refl refl e1 n1)
            λ t1 e2 n2.
              continue-Yields (hash_rest fragment) 0 v w _ _
                (behind_query char_signed query fragment u t1 r.query_text refl e2 n2)
                λ t2 e3 n3.
                  continue-Yields {A = Rest} none 0 w w _ _
                    (behind_hash char_signed fragment v t2 r.fragment_text refl e3 n3)
                    λ t3 e4 n4. same-Yields 0 w t3 e4 n4

uri_destroy-outcomes : (s : UriState) → (uri_destroy s).heap.outcomes ≡ s.heap.outcomes
unfolding uri_destroy
uri_destroy-outcomes s =
    free_field-outcomes s.uri.fragment _
    ∙ free_field-outcomes s.uri.query _
    ∙ free_field-outcomes s.uri.path _
    ∙ free_field-outcomes s.uri.port _
    ∙ free_field-outcomes s.uri.host _
    ∙ free_field-outcomes s.uri.userinfo _
    ∙ free_field-outcomes s.uri.scheme s.heap

uri_text-append :
    (scheme host : Bytes) (port path query fragment : Option Bytes)
    → uri_text (net_uri scheme host port path query fragment)
      ≡ encoded_all [] scheme
        ++ (58 ∷ 47 ∷ 47 ∷ (authority_text host port path ++ tail_text query fragment))
uri_text-append scheme host port path query fragment =
    ap (λ z. encoded_all [] scheme ++ (58 ∷ 47 ∷ 47 ∷ z))
      (ap (λ z. encoded_all [] host ++ z)
          (sym (
            append_assoc (with_text (58 ∷ []) [] port) (with_text [] path_except path)
              (tail_text query fragment)))
        ∙ sym (append_assoc (encoded_all [] host) _ (tail_text query fragment)))

freed_copy-Yields : (u : Uri) (r : Result ℕ × UriState) → Yields 0 u r → Yields 0 u (freed_copy r)
freed_copy-Yields u (r, s) h = record {
  ok_is = h.ok_is;
  uri_is = h.uri_is;
  outcomes_are = h.outcomes_are;
}

copied_string-Yields :
    (char_signed : Bool) (str : Bytes) (v : Uri) (m : Bool × Heap)
    → m.0 ≡ true
    → m.1.outcomes ≡ []
    → ((s : UriState)
        → s.uri ≡ no_uri
        → s.heap.outcomes ≡ []
        → Yields 0 v (parse_parts char_signed str s))
    → Yields 0 v (copied_string char_signed str no_uri m)
copied_string-Yields char_signed str v (false, h) e n k = cc
copied_string-Yields char_signed str v (true, h) e n k = freed_copy-Yields v _ (k _ refl n)

-- uri_parse reads a URI with a scheme and a host back.
pub uri_parse-Yields :
    (char_signed : Bool) (scheme host : Bytes) (port path query fragment : Option Bytes)
    (s : UriState)
    → Readable scheme host port path query fragment
    → s.heap.outcomes ≡ []
    → let u = net_uri scheme host port path query fragment in
      Yields 0 u (uri_parse char_signed (uri_text u) s)
unfolding uri_parse uri_destroy
uri_parse-Yields char_signed scheme host port path query fragment s r n =
    let d = uri_destroy s in
    let o = uri_destroy-outcomes s ∙ n in
    rw (uri_text-append scheme host port path query fragment) (
      copied_string-Yields char_signed
        (encoded_all [] scheme
          ++ (58 ∷ 47 ∷ 47 ∷ (authority_text host port path ++ tail_text query fragment)))
        (net_uri scheme host port path query fragment) (malloc d.heap) (ap next_outcome o)
        (malloc-outcomes d.heap o)
        (parse_parts-Yields char_signed scheme host port path query fragment r))
