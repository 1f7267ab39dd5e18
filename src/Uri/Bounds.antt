-- ===== src/Uri/Bounds.antt =====
-- uri_generate stays in its buffer (proxy/common/src/uri.c).
use free_co_ap.Common.{
  ℕ, ◌+◌, ◌≤◌, ◌<◌, Bool, true, false, [], ◌∷◌, ◌≡◌, refl, inl, inr, Option, none, some, Bytes,
  length, length-append, ltb, arith, Bool-cases, if◌then◌else◌,
}
use free_co_ap.Uri.{Dest, is_in, write, encoded, encode_str, copy_str}
use free_co_ap.Uri.Fields.{Uri, start_dest, if_some, encode_host, generate}

-- What is written leaves a byte for the terminator, and is all of the string where that fits.
pub record Within (len : ℕ) (d : Dest) : Type 0 where
  pub written : length d.out ≤ d.num
  pub room : length d.out < len
  pub whole : d.num < len → length d.out ≡ d.num

write-Within : (len : ℕ) (chunk : Bytes) (d : Dest) → Within len d → Within len (write len chunk d)
write-Within len chunk d h = elim (Bool-cases (ltb (d.num + length chunk) len)) [
  | inl e ↦
      let l = length-append d.out chunk in
      let lt : d.num + length chunk < len = ground arith in
      let w = h.written in
      let a = h.whole (omega arith) in
      rw e (record { written = omega arith; room = omega arith; whole = λ _. omega arith })
  | inr e ↦
      let ge : len ≤ d.num + length chunk = ground arith in
      let w = h.written in
      rw e (record { written = omega arith; room = h.room; whole = λ lt. omega arith })
]

encode_str-Within :
    (len : ℕ) (except src : Bytes) (d : Dest)
    → Within len d
    → Within len (encode_str len except src d)
unfolding encode_str
encode_str-Within len except [] d h = h
encode_str-Within len except (c ∷ src) d h =
    encode_str-Within len except src (write len (encoded except c) d)
      (write-Within len (encoded except c) d h)

copy_str-Within :
    (len : ℕ) (src : Bytes) (d : Dest) → Within len d → Within len (copy_str len src d)
unfolding copy_str
copy_str-Within len [] d h = h
copy_str-Within len (c ∷ src) d h =
    copy_str-Within len src (write len (c ∷ []) d) (write-Within len (c ∷ []) d h)

if_some-Within :
    (len : ℕ) (v : Option Bytes) (f : Bytes → Dest → Dest) (d : Dest)
    → ((w : Bytes) (e : Dest) → Within len e → Within len (f w e))
    → Within len d
    → Within len (if_some v f d)
if_some-Within len none f d k h = h
if_some-Within len (some w) f d k h = k w d h

encode_host-Within :
    (len : ℕ) (v : Bytes) (d : Dest) → Within len d → Within len (encode_host len v d)
encode_host-Within len v d h = elim (Bool-cases (is_in 58 v)) [
  | inl e ↦ rw e (
      copy_str-Within len (93 ∷ []) _
        (encode_str-Within len (58 ∷ []) v _ (copy_str-Within len (91 ∷ []) d h)))
  | inr e ↦ rw e (encode_str-Within len [] v d h)
]

slashes-Within :
    (len : ℕ) (b : Bool) (d : Dest)
    → Within len d
    → Within len (if b then copy_str len (47 ∷ 47 ∷ []) d else d)
slashes-Within len true d h = copy_str-Within len (47 ∷ 47 ∷ []) d h
slashes-Within len false d h = h

-- In a buffer that is not empty, uri_generate leaves room for the terminator of what it writes; and
-- where the length that it returns is below that of the buffer, all of the string was written.
pub generate-Within : (u : Uri) (len : ℕ) → 0 < len → Within len (generate u len)
unfolding generate
generate-Within u len pos =
    if_some-Within len u.fragment _ _
      (λ w e h. encode_str-Within len _ w _ (copy_str-Within len (35 ∷ []) e h))
      (if_some-Within len u.query _ _
        (λ w e h. encode_str-Within len _ w _ (copy_str-Within len (63 ∷ []) e h))
        (if_some-Within len u.path _ _ (λ w e h. encode_str-Within len _ w e h)
          (if_some-Within len u.port _ _
            (λ w e h. encode_str-Within len [] w _ (copy_str-Within len (58 ∷ []) e h))
            (if_some-Within len u.host _ _ (λ w e h. encode_host-Within len w e h)
              (if_some-Within len u.userinfo _ _
                (λ w e h. copy_str-Within len (64 ∷ []) _ (encode_str-Within len (58 ∷ []) w e h))
                (slashes-Within len _ _ (
                  if_some-Within len u.scheme _ start_dest
                    (λ w e h. copy_str-Within len (58 ∷ []) _ (encode_str-Within len [] w e h))
                    (record { written = omega arith; room = pos; whole = λ _. refl }))))))))
