-- ===== src/Uri/Blocks.antt =====
-- The setters of proxy/common/src/uri.c lose no block.
use free_co_ap.Common.{
  ℕ, ◌+◌, Bool, true, false, [], ◌∷◌, ◌≡◌, refl, Option, none, some, Heap, malloc, Bytes, length,
  leb, ltb, arith, Bool-cases, inl, inr,
}
use free_co_ap.Uri.{Dest, decode_str}
use free_co_ap.Uri.Fields.{
  Uri, UriState, Field, f_scheme, f_userinfo, f_host, f_port, f_path, f_query, f_fragment, get, put,
  free_field, c_str, start_dest, decoded_into, allocated_into, set_decoded, set_field, PlainField,
  field_of, set_path, set_query, starts_with_slash, decoded_after_slash, decoded_into_query,
  allocated_into_query,
}

abbrev pub field_blocks : Option Bytes → ℕ
field_blocks none = 0
field_blocks (some v) = 1

-- The blocks that a URI owns, one for each field that it has.
abbrev pub uri_blocks : Uri → ℕ
uri_blocks u =
    field_blocks u.scheme
    + field_blocks u.userinfo
    + field_blocks u.host
    + field_blocks u.port
    + field_blocks u.path
    + field_blocks u.query
    + field_blocks u.fragment

-- The blocks in use that the URI does not own are as many in `t` as in `s`.
pub record UriBalanced (s t : UriState) : Type 0 where
  pub blocks :
      t.heap.allocs + (s.heap.frees + uri_blocks s.uri)
      ≡ s.heap.allocs + (t.heap.frees + uri_blocks t.uri)

pub put-blocks :
    (f : Field) (v : Option Bytes) (u : Uri)
    → uri_blocks (put f v u) + field_blocks (get f u) ≡ uri_blocks u + field_blocks v
put-blocks f_scheme v u = omega arith
put-blocks f_userinfo v u = omega arith
put-blocks f_host v u = omega arith
put-blocks f_port v u = omega arith
put-blocks f_path v u = omega arith
put-blocks f_query v u = omega arith
put-blocks f_fragment v u = omega arith

-- The allocator after a field of `s` was freed and a new one allocated.
record Exchanged (f : Field) (s : UriState) (h : Heap) : Type 0 where
  allocs_is : h.allocs ≡ s.heap.allocs + 1
  frees_is : h.frees ≡ s.heap.frees + field_blocks (get f s.uri)

decoded_into-UriBalanced :
    (f : Field) (len : ℕ) (o : Option Dest) (s : UriState) (h : Heap)
    → Exchanged f s h
    → UriBalanced s (decoded_into f len o s.uri h).1
decoded_into-UriBalanced f len none s h e =
    let a = e.allocs_is in
    let b = e.frees_is in let p = put-blocks f none s.uri in record { blocks = omega arith }
decoded_into-UriBalanced f len (some d) s h e =
    let a = e.allocs_is in
    let b = e.frees_is in
    let p = put-blocks f none s.uri in
    let q = put-blocks f (some (c_str d.out)) s.uri in
    elim (Bool-cases (leb len d.num)) [
      | inl c ↦ rw c (record { blocks = omega arith })
      | inr c ↦ rw c (record { blocks = omega arith })
    ]

decoded_into_query-UriBalanced :
    (len : ℕ) (o : Option Dest) (s : UriState) (h : Heap)
    → Exchanged f_query s h
    → UriBalanced s (decoded_into_query len o s.uri h).1
decoded_into_query-UriBalanced len none s h e =
    let a = e.allocs_is in
    let b = e.frees_is in let p = put-blocks f_query none s.uri in record { blocks = omega arith }
decoded_into_query-UriBalanced len (some d) s h e =
    let a = e.allocs_is in
    let b = e.frees_is in
    let p = put-blocks f_query none s.uri in
    let q = put-blocks f_query (some (c_str d.out)) s.uri in
    elim (Bool-cases (ltb len d.num)) [
      | inl c ↦ rw c (record { blocks = omega arith })
      | inr c ↦ rw c (record { blocks = omega arith })
    ]

freed :
    (v : Option Bytes) (h : Heap)
    → ((free_field v h).allocs ≡ h.allocs) × ((free_field v h).frees ≡ h.frees + field_blocks v)
freed none h = (refl, omega arith)
freed (some v) h = (refl, refl)

malloc_got :
    (h : Heap)
    → (malloc h).0 ≡ true
    → ((malloc h).1.allocs ≡ h.allocs + 1) × ((malloc h).1.frees ≡ h.frees)
malloc_got h e = rw e (refl, refl)

malloc_not_got :
    (h : Heap)
    → (malloc h).0 ≡ false
    → ((malloc h).1.allocs ≡ h.allocs) × ((malloc h).1.frees ≡ h.frees)
malloc_not_got h e = rw e (refl, refl)

-- malloc after the old field was freed.
record Tried (f : Field) (s : UriState) (m : Bool × Heap) : Type 0 where
  got : m.0 ≡ true → Exchanged f s m.1
  not_got :
      m.0 ≡ false
      → (m.1.allocs ≡ s.heap.allocs) × (m.1.frees ≡ s.heap.frees + field_blocks (get f s.uri))

malloc-Tried : (f : Field) (s : UriState) → Tried f s (malloc (free_field (get f s.uri) s.heap))
malloc-Tried f s =
    let h = free_field (get f s.uri) s.heap in
    let r = freed (get f s.uri) s.heap in
    record {
      got = λ e.
          let m = malloc_got h e in record { allocs_is = rw (m.0, r.0); frees_is = rw (m.1, r.1) };
      not_got = λ e. let m = malloc_not_got h e in (rw (m.0, r.0), rw (m.1, r.1));
    }

allocated_into-UriBalanced :
    (f : Field) (len : ℕ) (decode : ℕ → Option Dest) (s : UriState) (m : Bool × Heap)
    → Tried f s m
    → UriBalanced s (allocated_into f len decode s.uri m).1
allocated_into-UriBalanced f len decode s (true, h) t =
    decoded_into-UriBalanced f len (decode len) s h (t.got refl)
allocated_into-UriBalanced f len decode s (false, h) t =
    let a = (t.not_got refl).0 in
    let b = (t.not_got refl).1 in let p = put-blocks f none s.uri in record { blocks = omega arith }

allocated_into_query-UriBalanced :
    (len : ℕ) (decode : ℕ → Option Dest) (s : UriState) (m : Bool × Heap)
    → Tried f_query s m
    → UriBalanced s (allocated_into_query len decode s.uri m).1
allocated_into_query-UriBalanced len decode s (true, h) t =
    decoded_into_query-UriBalanced len (decode len) s h (t.got refl)
allocated_into_query-UriBalanced len decode s (false, h) t =
    let a = (t.not_got refl).0 in
    let b = (t.not_got refl).1 in
    let p = put-blocks f_query none s.uri in record { blocks = omega arith }

set_decoded-UriBalanced :
    (f : Field) (char_signed : Bool) (str : Bytes) (s : UriState)
    → UriBalanced s (set_decoded f char_signed str s).1
unfolding set_decoded
set_decoded-UriBalanced f char_signed str s =
    allocated_into-UriBalanced f (length str + 1) (λ len. decode_str char_signed len str start_dest)
      s _ (malloc-Tried f s)

pub set_path-UriBalanced :
    (char_signed : Bool) (str : Bytes) (s : UriState) → UriBalanced s (set_path char_signed str s).1
unfolding set_path
set_path-UriBalanced char_signed str s = elim (Bool-cases (starts_with_slash str)) [
  | inl e ↦ rw e (set_decoded-UriBalanced f_path char_signed str s)
  | inr e ↦ rw e (
      allocated_into-UriBalanced f_path (length str + 2)
        (λ len.
          decoded_after_slash char_signed len str (decode_str char_signed len (47 ∷ []) start_dest))
        s _ (malloc-Tried f_path s))
]

pub set_query-UriBalanced :
    (char_signed : Bool) (str : Bytes) (s : UriState)
    → UriBalanced s (set_query char_signed str s).1
unfolding set_query
set_query-UriBalanced char_signed str s =
    allocated_into_query-UriBalanced (length str + 1)
      (λ len. decode_str char_signed len str start_dest) s _ (malloc-Tried f_query s)

pub set_field-UriBalanced :
    (f : PlainField) (char_signed : Bool) (str : Bytes) (s : UriState)
    → UriBalanced s (set_field f char_signed str s).1
unfolding set_field
set_field-UriBalanced f char_signed str s = set_decoded-UriBalanced (field_of f) char_signed str s
