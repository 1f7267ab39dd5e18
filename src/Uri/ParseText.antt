-- ===== src/Uri/ParseText.antt =====
-- Cutting up the text of a URI (proxy/common/src/uri.c).
use free_co_ap.Common.{
  ℕ, ◌/◌, ◌%◌, ◌≤◌, ◌<◌, true, false, [], ◌∷◌, ◌++◌, ◌≡◌, refl, ap, Option, none, some, Result, ok,
  err, stuck, Bytes, All, length, leb, ◌==◌, arith, Bool-cases, inl, inr,
}
use free_co_ap.Common.Actions.{continue}
use free_co_ap.Uri.{is_in, is_plain, encoded, hex_digit, Dest}
use free_co_ap.Uri.Coding.{encoded_all}
use free_co_ap.Uri.Fields.{Uri, UriState, Field, put}
use free_co_ap.Uri.Setters.{c_str-All}
use free_co_ap.Uri.Parse.{split_at, Rest, separate, decoded_field, with_char, in_front}

-- A string without a character.
abbrev pub Lacks : ℕ → Bytes → Type 0
Lacks d = All (λ c. (c == d) ≡ false)

pub All-append {ℓ} : (P : ℕ → Type ℓ) (xs ys : Bytes) → All P xs → All P ys → All P (xs ++ ys)
All-append P [] ys h k = k
All-append P (x ∷ xs) ys h k = (h.0, All-append P xs ys h.1 k)

pub split_at-found :
    (d : ℕ) (xs ys : Bytes) → Lacks d xs → split_at d (xs ++ (d ∷ ys)) ≡ some (xs, ys)
unfolding split_at
split_at-found d [] ys h = let e : (d == d) ≡ true = ground arith in rw e
split_at-found d (x ∷ xs) ys h = rw h.0 (ap (with_char x) (split_at-found d xs ys h.1))

pub split_at-none : (d : ℕ) (xs : Bytes) → Lacks d xs → split_at d xs ≡ none
unfolding split_at
split_at-none d [] h = refl
split_at-none d (x ∷ xs) h = rw h.0 (ap (with_char x) (split_at-none d xs h.1))

abbrev prefix : Bytes → Bytes × Rest → Bytes × Rest
prefix xs (token, rest) = (xs ++ token, rest)

pub separate-append :
    (delims xs ys : Bytes)
    → All (λ c. is_in c delims ≡ false) xs
    → separate delims (xs ++ ys) ≡ prefix xs (separate delims ys)
unfolding separate
separate-append delims [] ys h = refl
separate-append delims (x ∷ xs) ys h = rw h.0 (ap (in_front x) (separate-append delims xs ys h.1))

-- A character that does not occur in a percent-encoded octet.
pub record IsDelim (d : ℕ) : Type 0 where
  pub no_percent : (37 == d) ≡ false
  pub no_digit : (i : ℕ) → i < 16 → (hex_digit i == d) ≡ false

pub colon-IsDelim : IsDelim 58
unfolding hex_digit
colon-IsDelim = record { no_percent = refl; no_digit = λ i h. ground arith }

pub at-IsDelim : IsDelim 64
unfolding hex_digit
at-IsDelim = record { no_percent = refl; no_digit = λ i h. ground arith }

pub slash-IsDelim : IsDelim 47
unfolding hex_digit
slash-IsDelim = record { no_percent = refl; no_digit = λ i h. ground arith }

pub question-IsDelim : IsDelim 63
unfolding hex_digit
question-IsDelim = record { no_percent = refl; no_digit = λ i h. ground arith }

pub hash-IsDelim : IsDelim 35
unfolding hex_digit
hash-IsDelim = record { no_percent = refl; no_digit = λ i h. ground arith }

pub bracket-IsDelim : IsDelim 91
unfolding hex_digit
bracket-IsDelim = record { no_percent = refl; no_digit = λ i h. ground arith }

-- A character that is left as it is is none that is not.
pub plain_differs :
    (except : Bytes) (d c : ℕ)
    → is_plain except d ≡ false
    → is_plain except c ≡ true
    → (c == d) ≡ false
plain_differs except d c h k = elim (Bool-cases (c == d)) [
  | inl e ↦ let z : c ≡ d = ground arith in let bad = rw z at k in cc
  | inr e ↦ e
]

-- The encoding of a string has no character that is neither left as it is, in that string, nor
-- occurs in an encoded octet.
pub encoded_all-Lacks :
    (except src : Bytes) (d : ℕ)
    → IsDelim d
    → All (λ c. is_plain except c ≡ true → (c == d) ≡ false) src
    → Lacks d (encoded_all except src)
encoded_all-Lacks except [] d i h = tt
encoded_all-Lacks except (c ∷ src) d i h =
    All-append (λ x. (x == d) ≡ false) (encoded except c) (encoded_all except src) here
      (encoded_all-Lacks except src d i h.1)
  where
    here : Lacks d (encoded except c)
    here = elim (Bool-cases (is_plain except c)) [
      | inl e ↦ rw e (h.0 e, tt)
      | inr e ↦ rw e (
        i.no_percent,
        (i.no_digit (c / 16 % 16) (omega arith), (i.no_digit (c % 16) (omega arith), tt)),
      )
    ]

-- For a character that is encoded wherever it stands.
pub encoded_away :
    (except src : Bytes) (d : ℕ)
    → IsDelim d
    → is_plain except d ≡ false
    → Lacks d (encoded_all except src)
encoded_away except src d i h = encoded_all-Lacks except src d i (each src)
  where
    each : (src : Bytes) → All (λ c. is_plain except c ≡ true → (c == d) ≡ false) src
    each [] = tt
    each (c ∷ src) = ((λ k. plain_differs except d c h k), each src)

-- A call that succeeds with a value and a URI, after which allocations succeed still.
pub record Yields {A : Type 0} (a : A) (u : Uri) (r : Result A × UriState) : Type 0 where
  pub ok_is : r.0 ≡ ok a
  pub uri_is : r.1.uri ≡ u
  pub outcomes_are : r.1.heap.outcomes ≡ []

pub continue-Yields :
    {A B : Type 0} (a : A) (b : B) (u v : Uri) (r : Result A × UriState)
    (f : A → UriState → Result B × UriState)
    → Yields a u r
    → ((t : UriState) → t.uri ≡ u → t.heap.outcomes ≡ [] → Yields b v (f a t))
    → Yields b v (continue r f)
continue-Yields a b u v (ok x, t) f h k =
    let z : x ≡ a = let e = h.ok_is in cc in rw z (k t h.uri_is h.outcomes_are)
continue-Yields a b u v (err e, t) f h k = let z = h.ok_is in cc
continue-Yields a b u v (stuck, t) f h k = let z = h.ok_is in cc

-- A string of bytes without '\0'.
abbrev pub IsText : Bytes → Type 0
IsText v = All (λ c. (1 ≤ c) × (c < 256)) v

pub decoded_field-Yields :
    (f : Field) (front : Bytes) (len : ℕ) (o : Option Dest) (v : Bytes) (s : UriState)
    → o ≡ some (record { num = length v; out = v })
    → length v < len
    → IsText v
    → s.heap.outcomes ≡ []
    → Yields 0 (put f (some (front ++ v)) s.uri) (decoded_field f front len o s)
decoded_field-Yields f front len o v s e lt a n =
    let small : leb len (length v) ≡ false = ground arith in
    rw (e, small)
      (record {
        ok_is = refl;
        uri_is = ap (λ w. put f (some (front ++ w)) s.uri) (c_str-All v a);
        outcomes_are = n;
      })
