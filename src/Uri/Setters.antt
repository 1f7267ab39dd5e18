-- ===== src/Uri/Setters.antt =====
-- The functions that set a field of a URI decode it (proxy/common/src/uri.c).
use free_co_ap.Common.{
  ℕ, ◌+◌, ◌≤◌, ◌<◌, Bool, true, false, [], ◌∷◌, ◌≡◌, refl, ap, ◌∙◌, Option, none, some, Heap,
  malloc, next_outcome, ok, Bytes, All, length, leb, ◌==◌, arith,
}
use free_co_ap.Uri.{Dest, encode_str, decode_str}
use free_co_ap.Uri.Fields.{
  Uri, UriState, Field, f_scheme, f_userinfo, f_host, f_port, f_path, f_query, f_fragment, get, put,
  free_field, c_str, start_dest, decoded_into, allocated_into, set_decoded, PlainField, field_of,
  set_field,
}
use free_co_ap.Uri.Coding.{
  Safe, encoded_all, encoded_all-length, encode_str-room, decode_str-encode_str,
}

pub get-put : (f : Field) (v : Option Bytes) (u : Uri) → get f (put f v u) ≡ v
get-put f_scheme v u = refl
get-put f_userinfo v u = refl
get-put f_host v u = refl
get-put f_port v u = refl
get-put f_path v u = refl
get-put f_query v u = refl
get-put f_fragment v u = refl

-- A string with no '\0' is its own C string.
pub c_str-All : (cs : Bytes) → All (λ c. (1 ≤ c) × (c < 256)) cs → c_str cs ≡ cs
c_str-All [] h = refl
c_str-All (c ∷ cs) h =
    let z : (c == 0) ≡ false = let a = h.0.0 in ground arith in rw z (ap (◌∷◌ c) (c_str-All cs h.1))

pub small_of : (cs : Bytes) → All (λ c. (1 ≤ c) × (c < 256)) cs → All (λ c. c < 256) cs
small_of [] h = tt
small_of (c ∷ cs) h = (h.0.1, small_of cs h.1)

pub free_field-outcomes : (v : Option Bytes) (h : Heap) → (free_field v h).outcomes ≡ h.outcomes
free_field-outcomes none h = refl
free_field-outcomes (some v) h = refl

decoded_into-fits :
    (f : Field) (len : ℕ) (o : Option Dest) (v : Bytes) (u : Uri) (h : Heap)
    → o ≡ some (record { num = length v; out = v })
    → length v < len
    → All (λ c. (1 ≤ c) × (c < 256)) v
    → ((decoded_into f len o u h).0 ≡ ok 0) × ((decoded_into f len o u h).1.uri ≡ put f (some v) u)
decoded_into-fits f len o v u h e lt a =
    let small : leb len (length v) ≡ false = ground arith in
    rw (e, small) (refl, ap (λ w. put f (some w) u) (c_str-All v a))

allocated_into-fits :
    (f : Field) (len : ℕ) (decode : ℕ → Option Dest) (v : Bytes) (u : Uri) (m : Bool × Heap)
    → m.0 ≡ true
    → decode len ≡ some (record { num = length v; out = v })
    → length v < len
    → All (λ c. (1 ≤ c) × (c < 256)) v
    → ((allocated_into f len decode u m).0 ≡ ok 0)
      × ((allocated_into f len decode u m).1.uri ≡ put f (some v) u)
allocated_into-fits f len decode v u (true, h) t e lt a =
    decoded_into-fits f len (decode len) v u h e lt a
allocated_into-fits f len decode v u (false, h) t e lt a = cc

set_decoded-encode_str :
    (f : Field) (char_signed : Bool) (dest_len : ℕ) (except v : Bytes) (s : UriState)
    → s.heap.outcomes ≡ []
    → Safe except
    → All (λ c. (1 ≤ c) × (c < 256)) v
    → length (encoded_all except v) < dest_len
    → let r = set_decoded f char_signed (encode_str dest_len except v start_dest).out s in
      (r.0 ≡ ok 0) × (r.1.uri ≡ put f (some v) s.uri)
unfolding set_decoded
set_decoded-encode_str f char_signed dest_len except v s o safe bytes room =
    let e = encode_str dest_len except v start_dest in
    let out_is : e.out ≡ encoded_all except v =
      ap (λ d. d.out) (encode_str-room dest_len except v start_dest (omega arith)) in
    let len_is : length e.out ≡ length (encoded_all except v) = ap length out_is in
    let le = encoded_all-length except v in
    let fits : length v < length e.out + 1 = omega arith in
    let back =
      decode_str-encode_str char_signed dest_len (length e.out + 1) except v safe (small_of v bytes)
        room fits in
    let kept = free_field-outcomes (get f s.uri) s.heap in
    allocated_into-fits f (length e.out + 1) (λ len. decode_str char_signed len e.out start_dest) v
      s.uri (malloc (free_field (get f s.uri) s.heap)) (ap next_outcome (kept ∙ o)) back fits bytes

-- Where the allocation succeeds, the scheme, the userinfo, the host, the port or the fragment, set by
-- its setter to the percent-encoding of a string of bytes that are not 0, is that string, and the
-- other fields are as before; the characters that were left as they are must not include '%' and the
-- byte 255.
pub set_field-encode_str :
    (f : PlainField) (char_signed : Bool) (dest_len : ℕ) (except v : Bytes) (s : UriState)
    → s.heap.outcomes ≡ []
    → Safe except
    → All (λ c. (1 ≤ c) × (c < 256)) v
    → length (encoded_all except v) < dest_len
    → let r = set_field f char_signed (encode_str dest_len except v start_dest).out s in
      (r.0 ≡ ok 0) × (r.1.uri ≡ put (field_of f) (some v) s.uri)
unfolding set_field
set_field-encode_str f char_signed dest_len except v s o safe bytes room =
    set_decoded-encode_str (field_of f) char_signed dest_len except v s o safe bytes room
