-- ===== src/Uri/ParseBlocks.antt =====
-- uri_parse (proxy/common/src/uri.c) loses no block, on any path.
use free_co_ap.Common.{
  ℕ, suc, ◌+◌, List, Bool, true, false, ◌||◌, ◌&&◌, [], ◌∷◌, Option, none, some, malloc, Result, ok,
  err, stuck, Bytes, ◌==◌, arith, Bool-cases, inl, inr,
}
use free_co_ap.Common.Actions.{continue}
use free_co_ap.Uri.Fields.{
  UriState, Field, f_scheme, f_userinfo, f_host, f_port, f_path, f_query, f_fragment, uri_destroy,
  no_uri, is_some,
}
use free_co_ap.Uri.Blocks.{UriBalanced}
use free_co_ap.Uri.Parse.{
  Rest, parse_nonempty, is_nonempty, scheme_split, parse_scheme, userinfo_split, strip_brackets,
  split_authority, parse_authority, hier, parse_hier_part, parse_query, parse_fragment,
  parse_behind, at_end, parse_start, parse_parts, copied_string, uri_parse, starts_at_root,
  separate, split_at,
}
use free_co_ap.Uri.ParseFields.{
  UriBalanced-refl, UriBalanced-trans, uri_destroy-UriBalanced, index, Upto, Upto-later, later,
  none_set, Parses, continue-Parses, parse_field-Parses, parse_if_some-Parses,
}

parse_nonempty-Parses :
    (f : Field) (char_signed : Bool) (str : Bytes) (s : UriState)
    → Upto (index f) s.uri
    → Parses (suc (index f)) s (parse_nonempty f char_signed str s)
parse_nonempty-Parses f char_signed str s u = elim (Bool-cases (is_nonempty str)) [
  | inl e ↦ rw e (parse_field-Parses f [] s u char_signed str)
  | inr e ↦ rw e (UriBalanced-refl s, later f s.uri u)
]

-- A call that only hands on what another one has left.
then-Parses :
    {A : Type 0} (k : ℕ) (a : A) (s : UriState) (r : Result ℕ × UriState)
    → Parses k s r
    → Parses k s (continue r (λ _ t. (ok a, t)))
then-Parses k a s r h = continue-Parses k k s r _ h λ _ t u. (UriBalanced-refl t, u)

scheme_split-Parses :
    (char_signed : Bool) (q : Bytes) (o : Option (Bytes × Bytes)) (s : UriState)
    → Upto 0 s.uri
    → Parses 1 s (scheme_split char_signed q o s)
scheme_split-Parses char_signed q none s u = (UriBalanced-refl s, later f_scheme s.uri u)
scheme_split-Parses char_signed q (some (scheme, rest)) s u =
    then-Parses 1 rest s _ (parse_nonempty-Parses f_scheme char_signed scheme s u)

parse_scheme-Parses :
    (char_signed : Bool) (q : Bytes) (s : UriState)
    → Upto 0 s.uri
    → Parses 1 s (parse_scheme char_signed q s)
unfolding parse_scheme
parse_scheme-Parses char_signed q s u = elim (Bool-cases (is_some s.uri.scheme)) [
  | inl e ↦ rw e (UriBalanced-refl s)
  | inr e ↦ rw e (scheme_split-Parses char_signed q (split_at 58 q) s u)
]

userinfo_split-Parses :
    (char_signed : Bool) (p : Bytes) (o : Option (Bytes × Bytes)) (s : UriState)
    → Upto 1 s.uri
    → Parses 2 s (userinfo_split char_signed p o s)
userinfo_split-Parses char_signed p none s u = (UriBalanced-refl s, later f_userinfo s.uri u)
userinfo_split-Parses char_signed p (some (userinfo, rest)) s u =
    then-Parses 2 rest s _ (parse_field-Parses f_userinfo [] s u char_signed userinfo)

parse_authority-Parses :
    (char_signed : Bool) (p : Bytes) (s : UriState)
    → Upto 1 s.uri
    → Parses 5 s (parse_authority char_signed p s)
unfolding parse_authority
parse_authority-Parses char_signed p s u =
    continue-Parses 2 5 s _ _ (userinfo_split-Parses char_signed p (split_at 64 p) s u) λ q t u2.
      let a = split_authority q in
      continue-Parses 3 5 t _ _
        (parse_nonempty-Parses f_host char_signed (strip_brackets a.host) t u2)
        λ _ t1 u3.
          continue-Parses 4 5 t1 _ _ (parse_if_some-Parses f_port [] t1 u3 char_signed a.port)
            λ _ t2 u4. parse_if_some-Parses f_path (47 ∷ []) t2 u4 char_signed a.path

hier-Parses :
    (char_signed : Bool) (p : Bytes) (s : UriState)
    → Upto 1 s.uri
    → Parses 5 s (hier char_signed p s)
hier-Parses char_signed [] s u = (UriBalanced-refl s, Upto-later 4 1 s.uri u)
hier-Parses char_signed (x ∷ []) s u =
    parse_field-Parses f_path [] s (Upto-later 3 1 s.uri u) char_signed (x ∷ [])
hier-Parses char_signed (x ∷ (y ∷ p)) s u = elim (Bool-cases (x == 47 && y == 47)) [
  | inl e ↦ rw e (parse_authority-Parses char_signed p s u)
  | inr e ↦ rw e (parse_field-Parses f_path [] s (Upto-later 3 1 s.uri u) char_signed (x ∷ (y ∷ p)))
]

parse_hier_part-Parses :
    (char_signed : Bool) (q : Bytes) (s : UriState)
    → Upto 1 s.uri
    → Parses 5 s (parse_hier_part char_signed q s)
unfolding parse_hier_part
parse_hier_part-Parses char_signed q s u =
    let r = separate (63 ∷ 35 ∷ []) q in
    elim (Bool-cases
      (is_some s.uri.userinfo || is_some s.uri.host || is_some s.uri.port || is_some s.uri.path)) [
        | inl e ↦ rw e (UriBalanced-refl s)
        | inr e ↦ rw e (then-Parses 5 r.1 s _ (hier-Parses char_signed r.0 s u))
      ]

parse_query-Parses :
    (char_signed : Bool) (q : Bytes) (s : UriState)
    → Upto 5 s.uri
    → Parses 6 s (parse_query char_signed q s)
unfolding parse_query
parse_query-Parses char_signed q s u =
    let r = separate (35 ∷ []) q in
    elim (Bool-cases (is_some s.uri.query)) [
      | inl e ↦ rw e (UriBalanced-refl s)
      | inr e ↦ rw e (then-Parses 6 r.1 s _ (parse_field-Parses f_query [] s u char_signed r.0))
    ]

parse_fragment-Parses :
    (char_signed : Bool) (q : Bytes) (s : UriState)
    → Upto 6 s.uri
    → Parses 7 s (parse_fragment char_signed q s)
unfolding parse_fragment
parse_fragment-Parses char_signed q s u =
    let r = separate [] q in
    elim (Bool-cases (is_some s.uri.fragment)) [
      | inl e ↦ rw e (UriBalanced-refl s)
      | inr e ↦ rw e (then-Parses 7 r.1 s _ (parse_field-Parses f_fragment [] s u char_signed r.0))
    ]

parse_behind-Parses :
    (k : ℕ) (c : ℕ) (parse : Bytes → UriState → Result Rest × UriState) (r : Rest) (s : UriState)
    → Upto k s.uri
    → Upto (suc k) s.uri
    → ((q : Bytes) → Parses (suc k) s (parse q s))
    → Parses (suc k) s (parse_behind c parse r s)
parse_behind-Parses k c parse none s u v h = (UriBalanced-refl s, v)
parse_behind-Parses k c parse (some (delim, q)) s u v h = elim (Bool-cases (delim == c)) [
  | inl e ↦ rw e (h q)
  | inr e ↦ rw e (UriBalanced-refl s, v)
]

at_end-Parses : (r : Rest) (s : UriState) → Upto 7 s.uri → Parses 7 s (at_end r s)
at_end-Parses none s u = (UriBalanced-refl s, u)
at_end-Parses (some q) s u = UriBalanced-refl s

parse_start-Parses :
    (char_signed : Bool) (str : Bytes) (s : UriState)
    → Upto 0 s.uri
    → Parses 1 s (parse_start char_signed str s)
parse_start-Parses char_signed str s u = elim (Bool-cases (starts_at_root str)) [
  | inl e ↦ rw e (UriBalanced-refl s, later f_scheme s.uri u)
  | inr e ↦ rw e (parse_scheme-Parses char_signed str s u)
]

parse_parts-Parses :
    (char_signed : Bool) (str : Bytes) (s : UriState)
    → Upto 0 s.uri
    → Parses 7 s (parse_parts char_signed str s)
unfolding parse_parts
parse_parts-Parses char_signed str s u =
    continue-Parses 1 7 s _ _ (parse_start-Parses char_signed str s u) λ q t u1.
      continue-Parses 5 7 t _ _ (parse_hier_part-Parses char_signed q t u1) λ r1 t1 u5.
        continue-Parses 6 7 t1 _ _
          (parse_behind-Parses 5 63 (parse_query char_signed) r1 t1 u5 (later f_query t1.uri u5)
            λ x. parse_query-Parses char_signed x t1 u5)
          λ r2 t2 u6.
            continue-Parses 7 7 t2 _ _
              (parse_behind-Parses 6 35 (parse_fragment char_signed) r2 t2 u6
                (later f_fragment t2.uri u6) λ x. parse_fragment-Parses char_signed x t2 u6)
              at_end-Parses

Parses-UriBalanced :
    (k : ℕ) (s : UriState) (r : Result ℕ × UriState) → Parses k s r → UriBalanced s r.1
Parses-UriBalanced k s (ok n, t) h = h.0
Parses-UriBalanced k s (err e, t) h = h
Parses-UriBalanced k s (stuck, t) h = h

copied_string-UriBalanced :
    (char_signed : Bool) (str : Bytes) (outcomes : List Bool) (a f : ℕ)
    → UriBalanced
        (record { uri = no_uri; heap = record { outcomes = outcomes; allocs = a; frees = f } })
        (copied_string char_signed str no_uri
          (malloc (record { outcomes = outcomes; allocs = a; frees = f }))).1
copied_string-UriBalanced char_signed str [] a f =
    let t : UriState = record {
      uri = no_uri;
      heap = record { outcomes = []; allocs = a + 1; frees = f };
    } in
    let h = Parses-UriBalanced 7 t _ (parse_parts-Parses char_signed str t none_set) in
    record { blocks = let e = h.blocks in omega arith }
copied_string-UriBalanced char_signed str (true ∷ bs) a f =
    let t : UriState = record {
      uri = no_uri;
      heap = record { outcomes = bs; allocs = a + 1; frees = f };
    } in
    let h = Parses-UriBalanced 7 t _ (parse_parts-Parses char_signed str t none_set) in
    record { blocks = let e = h.blocks in omega arith }
copied_string-UriBalanced char_signed str (false ∷ bs) a f = record { blocks = omega arith }

-- Whatever uri_parse is given, whatever it returns and whichever allocations fail, the blocks in
-- use that the URI does not own are as many as before: the copy of the string is freed, and so are
-- the old fields and, on an error in a field, the new ones.
pub uri_parse-UriBalanced :
    (char_signed : Bool) (str : Bytes) (s : UriState)
    → UriBalanced s (uri_parse char_signed str s).1
unfolding uri_parse uri_destroy
uri_parse-UriBalanced char_signed str s =
    let t = uri_destroy s in
    UriBalanced-trans s t _ (uri_destroy-UriBalanced s)
      (copied_string-UriBalanced char_signed str t.heap.outcomes t.heap.allocs t.heap.frees)
