-- ===== src/Uri/ParseFields.antt =====
-- Reading one field of a URI loses no block (proxy/common/src/uri.c).
use free_co_ap.Common.{
  ℕ, zero, suc, ◌+◌, List, All, drop, drop-drop, Bool, true, false, [], ◌∷◌, ◌++◌, ◌≡◌, refl,
  Option, none, some, Heap, malloc, Result, ok, err, stuck, Bytes, length, leb, arith, Bool-cases,
  inl, inr,
}
use free_co_ap.Common.Actions.{continue}
use free_co_ap.Uri.{Dest}
use free_co_ap.Uri.Fields.{
  Uri, UriState, Field, f_scheme, f_userinfo, f_host, f_port, f_path, f_query, f_fragment, get, put,
  uri_destroy, free_field, c_str, no_uri,
}
use free_co_ap.Uri.Blocks.{field_blocks, UriBalanced, put-blocks}
use free_co_ap.Uri.Parse.{parse_field, allocated_field, decoded_field, parse_if_some}

pub UriBalanced-refl : (s : UriState) → UriBalanced s s
UriBalanced-refl s = record { blocks = omega arith }

pub UriBalanced-trans : (s t u : UriState) → UriBalanced s t → UriBalanced t u → UriBalanced s u
UriBalanced-trans s t u h k = record {
  blocks = let a = h.blocks in let b = k.blocks in omega arith;
}

free_field-UriBalanced :
    (v : Option Bytes) (h : Heap)
    → ((free_field v h).frees ≡ h.frees + field_blocks v) × ((free_field v h).allocs ≡ h.allocs)
free_field-UriBalanced none h = (omega arith, refl)
free_field-UriBalanced (some v) h = (refl, refl)

pub uri_destroy-UriBalanced : (s : UriState) → UriBalanced s (uri_destroy s)
unfolding uri_destroy
uri_destroy-UriBalanced s =
    let h1 = free_field s.uri.scheme s.heap in
    let h2 = free_field s.uri.userinfo h1 in
    let h3 = free_field s.uri.host h2 in
    let h4 = free_field s.uri.port h3 in
    let h5 = free_field s.uri.path h4 in
    let h6 = free_field s.uri.query h5 in
    let e1 = free_field-UriBalanced s.uri.scheme s.heap in
    let e2 = free_field-UriBalanced s.uri.userinfo h1 in
    let e3 = free_field-UriBalanced s.uri.host h2 in
    let e4 = free_field-UriBalanced s.uri.port h3 in
    let e5 = free_field-UriBalanced s.uri.path h4 in
    let e6 = free_field-UriBalanced s.uri.query h5 in
    let e7 = free_field-UriBalanced s.uri.fragment h6 in record { blocks = omega arith }

-- The fields, in the order in which they are parsed.
abbrev fields : Uri → List (Option Bytes)
fields u = u.scheme ∷ u.userinfo ∷ u.host ∷ u.port ∷ u.path ∷ u.query ∷ u.fragment ∷ []

abbrev pub index : Field → ℕ
index f_scheme = 0
index f_userinfo = 1
index f_host = 2
index f_port = 3
index f_path = 4
index f_query = 5
index f_fragment = 6

-- The fields from the index `k` on are not set yet.
abbrev pub Upto : ℕ → Uri → Type 0
Upto k u = All (λ v. v ≡ none) (drop k (fields u))

Upto-get : (f : Field) (u : Uri) → Upto (index f) u → get f u ≡ none
Upto-get f_scheme u h = h.0
Upto-get f_userinfo u h = h.0
Upto-get f_host u h = h.0
Upto-get f_port u h = h.0
Upto-get f_path u h = h.0
Upto-get f_query u h = h.0
Upto-get f_fragment u h = h.0

Upto-put :
    (f : Field) (v : Option Bytes) (u : Uri) → Upto (index f) u → Upto (suc (index f)) (put f v u)
Upto-put f_scheme v u h = h.1
Upto-put f_userinfo v u h = h.1
Upto-put f_host v u h = h.1
Upto-put f_port v u h = h.1
Upto-put f_path v u h = h.1
Upto-put f_query v u h = h.1
Upto-put f_fragment v u h = h.1

All-drop :
    (n : ℕ) (vs : List (Option Bytes)) → All (λ v. v ≡ none) vs → All (λ v. v ≡ none) (drop n vs)
All-drop zero vs h = h
All-drop (suc n) [] h = tt
All-drop (suc n) (v ∷ vs) h = All-drop n vs h.1

-- Fields that are set later count as not set yet.
pub Upto-later : (n k : ℕ) (u : Uri) → Upto k u → Upto (k + n) u
Upto-later n k u h = rw (← drop-drop k n (fields u)) (All-drop n (drop k (fields u)) h)

pub later : (f : Field) (u : Uri) → Upto (index f) u → Upto (suc (index f)) u
later f u h = let e : suc (index f) ≡ index f + 1 = omega arith in rw e (Upto-later 1 (index f) u h)

pub none_set : Upto 0 no_uri
none_set = (refl, (refl, (refl, (refl, (refl, (refl, (refl, tt)))))))

-- No block is lost, and where the call succeeds the fields from `k` on are not set.
abbrev pub Parses {ℓ} : {A : Type ℓ} → ℕ → UriState → Result A × UriState → Type 0
Parses k s (ok a, t) = UriBalanced s t × Upto k t.uri
Parses k s (err e, t) = UriBalanced s t
Parses k s (stuck, t) = UriBalanced s t

pub continue-Parses :
    {A B : Type 0} (k l : ℕ) (s : UriState) (r : Result A × UriState)
    (f : A → UriState → Result B × UriState)
    → Parses k s r
    → ((a : A) (t : UriState) → Upto k t.uri → Parses l t (f a t))
    → Parses l s (continue r f)
continue-Parses k l s (ok a, t) f h g = after s t (f a t) h.0 (g a t h.1)
  where
    after :
        {B : Type 0} (s t : UriState) (r : Result B × UriState)
        → UriBalanced s t
        → Parses l t r
        → Parses l s r
    after s t (ok b, u) h i = (UriBalanced-trans s t u h i.0, i.1)
    after s t (err e, u) h i = UriBalanced-trans s t u h i
    after s t (stuck, u) h i = UriBalanced-trans s t u h i
continue-Parses k l s (err e, t) f h g = h
continue-Parses k l s (stuck, t) f h g = h

-- The heap after an allocation that succeeded.
record Grown (h h' : Heap) : Type 0 where
  allocs_is : h'.allocs ≡ h.allocs + 1
  frees_is : h'.frees ≡ h.frees

put-UriBalanced :
    (f : Field) (v : Bytes) (s : UriState) (h : Heap)
    → Upto (index f) s.uri
    → Grown s.heap h
    → UriBalanced s (record { uri = put f (some v) s.uri; heap = h })
put-UriBalanced f v s h u g =
    let unset : field_blocks (get f s.uri) ≡ 0 = rw (Upto-get f s.uri u) in
    let a = g.allocs_is in
    let b = g.frees_is in let p = put-blocks f (some v) s.uri in record { blocks = omega arith }

pub put-put : (f : Field) (v w : Option Bytes) (u : Uri) → put f v (put f w u) ≡ put f v u
put-put f_scheme v w u = refl
put-put f_userinfo v w u = refl
put-put f_host v w u = refl
put-put f_port v w u = refl
put-put f_path v w u = refl
put-put f_query v w u = refl
put-put f_fragment v w u = refl

module _ (f : Field) (front : Bytes) (s : UriState) (u : Upto (index f) s.uri) where
  destroyed-UriBalanced :
      (h : Heap)
      → Grown s.heap h
      → UriBalanced s (uri_destroy (record { uri = put f (some []) s.uri; heap = h }))
  destroyed-UriBalanced h g =
      UriBalanced-trans s (record { uri = put f (some []) s.uri; heap = h }) _
        (put-UriBalanced f [] s h u g) (uri_destroy-UriBalanced _)

  decoded_field-Parses :
      (len : ℕ) (o : Option Dest) (h : Heap)
      → Grown s.heap h
      → Parses
          (suc (index f))
          s
          (decoded_field f front len o (record { uri = put f (some []) s.uri; heap = h }))
  decoded_field-Parses len none h g = destroyed-UriBalanced h g
  decoded_field-Parses len (some d) h g = elim (Bool-cases (leb len d.num)) [
    | inl e ↦ rw e (destroyed-UriBalanced h g)
    | inr e ↦
        let v = front ++ c_str d.out in
        rw (e, put-put f (some v) (some []) s.uri)
          (put-UriBalanced f v s h u g, Upto-put f (some v) s.uri u)
  ]

  allocated_field-Parses :
      (char_signed : Bool) (str : Bytes) (outcomes : List Bool)
      → s.heap.outcomes ≡ outcomes
      → Parses (suc (index f)) s (
          allocated_field f front char_signed str s.uri
            (malloc (record (s.heap) { outcomes = outcomes })))
  allocated_field-Parses char_signed str [] e =
      decoded_field-Parses (length str + 1) _ _ (record { allocs_is = refl; frees_is = refl })
  allocated_field-Parses char_signed str (true ∷ bs) e =
      decoded_field-Parses (length str + 1) _ _ (record { allocs_is = refl; frees_is = refl })
  allocated_field-Parses char_signed str (false ∷ bs) e =
      let h : Heap = record (s.heap) { outcomes = bs } in
      UriBalanced-trans s (record { uri = s.uri; heap = h }) _ (record { blocks = omega arith })
        (uri_destroy-UriBalanced (record { uri = s.uri; heap = h }))

  pub parse_field-Parses :
      (char_signed : Bool) (str : Bytes)
      → Parses (suc (index f)) s (parse_field f front char_signed str s)
  unfolding parse_field
  parse_field-Parses char_signed str = allocated_field-Parses char_signed str s.heap.outcomes refl

  pub parse_if_some-Parses :
      (char_signed : Bool) (str : Option Bytes)
      → Parses (suc (index f)) s (parse_if_some f front char_signed str s)
  parse_if_some-Parses char_signed none = (UriBalanced-refl s, later f s.uri u)
  parse_if_some-Parses char_signed (some str) = parse_field-Parses char_signed str
