-- ===== src/Uri/Generated.antt =====
-- uri_parse undoes uri_generate (proxy/common/src/uri.c).
use free_co_ap.Common.{
  ℕ, ◌+◌, ◌<◌, Bool, true, false, [], ◌∷◌, ◌++◌, ◌≡◌, sym, ap, ◌∙◌, Option, none, some, ok, Bytes,
  length, length-append, ltb, arith,
}
use free_co_ap.Uri.{Dest, is_in, encode_str, copy_str}
use free_co_ap.Uri.Coding.{encoded_all, encode_str-room, grow, grow-nil, grow-grow}
use free_co_ap.Uri.Fields.{UriState, start_dest, if_some, encode_host, generate}
use free_co_ap.Uri.Parse.{uri_parse}
use free_co_ap.Uri.ParseText.{Yields}
use free_co_ap.Uri.ParseRoundTrip.{path_except, tail_except, with_text, net_uri, uri_text, Readable}
use free_co_ap.Uri.ParseNet.{uri_parse-Yields}

-- A part of uri_generate that appends a text wherever it fits.
abbrev Appends : ℕ → Bytes → (Dest → Dest) → Type 0
Appends len text f = (d : Dest) → d.num + length text < len → f d ≡ grow d text

Appends-then :
    (len : ℕ) (t t' : Bytes) (f g : Dest → Dest)
    → Appends len t f
    → Appends len t' g
    → Appends len (t ++ t') (λ d. g (f d))
Appends-then len t t' f g a b d lt =
    let l = length-append t t' in
    ap g (a d (omega arith)) ∙ b (grow d t) (omega arith) ∙ grow-grow d t t'

copy_str-Appends : (len : ℕ) (src : Bytes) → Appends len src (copy_str len src)
unfolding copy_str
copy_str-Appends len [] d lt = sym (grow-nil d)
copy_str-Appends len (c ∷ src) d lt =
    let fits : ltb (d.num + 1) len ≡ true = ground arith in
    rw fits (copy_str-Appends len src (grow d (c ∷ [])) (omega arith) ∙ grow-grow d (c ∷ []) src)

encode_str-Appends :
    (len : ℕ) (except src : Bytes)
    → Appends len (encoded_all except src) (encode_str len except src)
encode_str-Appends len except src d lt = encode_str-room len except src d lt

marked-Appends :
    (len : ℕ) (mark except : Bytes) (v : Option Bytes)
    → Appends len
        (with_text mark except v)
        (if_some v (λ w d. encode_str len except w (copy_str len mark d)))
marked-Appends len mark except none d lt = sym (grow-nil d)
marked-Appends len mark except (some v) d lt =
    Appends-then len mark (encoded_all except v) (copy_str len mark) (encode_str len except v)
      (copy_str-Appends len mark) (encode_str-Appends len except v) d lt

path-Appends :
    (len : ℕ) (except : Bytes) (v : Option Bytes)
    → Appends len (with_text [] except v) (if_some v (λ w d. encode_str len except w d))
path-Appends len except none d lt = sym (grow-nil d)
path-Appends len except (some v) d lt = encode_str-room len except v d lt

host-Appends :
    (len : ℕ) (host : Bytes)
    → is_in 58 host ≡ false
    → Appends len (encoded_all [] host) (encode_host len host)
host-Appends len host h d lt = rw h (encode_str-room len [] host d lt)

generate-uri_text :
    (scheme host : Bytes) (port path query fragment : Option Bytes) (len : ℕ)
    → is_in 58 host ≡ false
    → let u = net_uri scheme host port path query fragment in
      length (uri_text u) < len → generate u len ≡ grow start_dest (uri_text u)
unfolding generate
generate-uri_text scheme host port path query fragment len h lt =
    let f = marked-Appends len (35 ∷ []) tail_except fragment in
    let q = Appends-then len _ _ _ _ (marked-Appends len (63 ∷ []) tail_except query) f in
    let t = Appends-then len _ _ _ _ (path-Appends len path_except path) q in
    let p = Appends-then len _ _ _ _ (marked-Appends len (58 ∷ []) [] port) t in
    let a = Appends-then len _ _ _ _ (host-Appends len host h) p in
    let b = Appends-then len _ _ _ _ (copy_str-Appends len (47 ∷ 47 ∷ [])) a in
    let c = Appends-then len _ _ _ _ (copy_str-Appends len (58 ∷ [])) b in
    Appends-then len _ _ _ _ (encode_str-Appends len [] scheme) c start_dest (zero_plus _ lt)
  where
    zero_plus : (n : ℕ) → n < len → 0 + n < len
    zero_plus n lt = omega arith

pub generated-Yields :
    (char_signed : Bool) (scheme host : Bytes) (port path query fragment : Option Bytes) (len : ℕ)
    (s : UriState)
    → Readable scheme host port path query fragment
    → is_in 58 host ≡ false
    → length (uri_text (net_uri scheme host port path query fragment)) < len
    → s.heap.outcomes ≡ []
    → let u = net_uri scheme host port path query fragment in
      Yields 0 u (uri_parse char_signed (generate u len).out s)
generated-Yields char_signed scheme host port path query fragment len s r h lt n =
    rw (generate-uri_text scheme host port path query fragment len h lt)
      (uri_parse-Yields char_signed scheme host port path query fragment s r n)

-- What uri_generate writes of a URI with a scheme and a host that are not empty and no userinfo, in
-- a buffer that has room for it, uri_parse reads back as the same URI, where the coming allocations
-- succeed: no string has a '\0', the host has no ':', and a path begins with '/' and has no ':' and
-- no '@' behind it.
pub uri_parse-generate :
    (char_signed : Bool) (scheme host : Bytes) (port path query fragment : Option Bytes) (len : ℕ)
    (s : UriState)
    → Readable scheme host port path query fragment
    → is_in 58 host ≡ false
    → length (uri_text (net_uri scheme host port path query fragment)) < len
    → s.heap.outcomes ≡ []
    → let u = net_uri scheme host port path query fragment in
      let r = uri_parse char_signed (generate u len).out s in (r.0 ≡ ok 0) × (r.1.uri ≡ u)
uri_parse-generate char_signed scheme host port path query fragment len s r h lt n =
    let y = generated-Yields char_signed scheme host port path query fragment len s r h lt n in
    (y.ok_is, y.uri_is)
