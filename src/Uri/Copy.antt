-- ===== src/Uri/Copy.antt =====
-- uri_copy (proxy/common/src/uri.c), where no allocation fails.
use free_co_ap.Common.{
  ℕ, [], ◌≡◌, ◌≢◌, refl, ap, ◌∙◌, Option, none, some, Result, ok, err, stuck, enomem, Bytes, arith,
}
use free_co_ap.Common.Actions.{continue}
use free_co_ap.Uri.Fields.{
  Uri, no_uri, UriState, Field, f_scheme, f_userinfo, f_host, f_port, f_path, f_query, f_fragment,
  get, put, uri_destroy, dup_checked, copy_field, uri_copy,
}

-- A call has succeeded with the URI `u`, and later allocations succeed still.
pub record Copied (u : Uri) (r : Result ℕ × UriState) : Type 0 where
  pub ok_is : r.0 ≡ ok 0
  pub uri_is : r.1.uri ≡ u
  pub outcomes_are : r.1.heap.outcomes ≡ []

continue-Copied :
    (u u' : Uri) (r : Result ℕ × UriState) (f : ℕ → UriState → Result ℕ × UriState)
    → Copied u r
    → ((t : UriState) → t.uri ≡ u → t.heap.outcomes ≡ [] → Copied u' (f 0 t))
    → Copied u' (continue r f)
continue-Copied u u' (ok n, t) f h k =
    let z : n ≡ 0 = let e = h.ok_is in cc in rw z (k t h.uri_is h.outcomes_are)
continue-Copied u u' (err e, t) f h k = let z = h.ok_is in cc
continue-Copied u u' (stuck, t) f h k = let z = h.ok_is in cc

put-none : (f : Field) (u : Uri) → get f u ≡ none → u ≡ put f none u
put-none f_scheme u e = ap (λ v. put f_scheme v u) e
put-none f_userinfo u e = ap (λ v. put f_userinfo v u) e
put-none f_host u e = ap (λ v. put f_host v u) e
put-none f_port u e = ap (λ v. put f_port v u) e
put-none f_path u e = ap (λ v. put f_path v u) e
put-none f_query u e = ap (λ v. put f_query v u) e
put-none f_fragment u e = ap (λ v. put f_fragment v u) e

dup_checked-Copied :
    (x : Option Bytes) (u : Uri) (t : UriState)
    → x ≢ none
    → t.uri ≡ u
    → t.heap.outcomes ≡ []
    → Copied u (dup_checked x t)
dup_checked-Copied none u t ne e o = absurd (ne refl)
dup_checked-Copied (some v) u t ne e o = record { ok_is = refl; uri_is = e; outcomes_are = o }

copy_field-Copied :
    (f tested : Field) (v : Option Bytes) (s : UriState) (u : Uri)
    → s.uri ≡ u
    → s.heap.outcomes ≡ []
    → get f u ≡ none
    → ((w : Bytes) → v ≡ some w → get tested (put f (some w) u) ≢ none)
    → Copied (put f v u) (copy_field f tested v s)
unfolding copy_field
copy_field-Copied f tested none s u e o g t = record {
  ok_is = refl;
  uri_is = e ∙ put-none f u g;
  outcomes_are = o;
}
copy_field-Copied f tested (some w) s u e o g t =
    rw (e, o)
      (dup_checked-Copied (get tested (put f (some w) u)) (put f (some w) u) _ (t w refl) refl refl)

-- The tests of uri_copy let a host and a port pass with a scheme only.
pub record HasScheme (src : Uri) : Type 0 where
  pub for_host : (w : Bytes) → src.host ≡ some w → src.scheme ≢ none
  pub for_port : (w : Bytes) → src.port ≡ some w → src.scheme ≢ none

some_ne : (v : Option Bytes) (w : Bytes) → v ≡ some w → some w ≢ none
some_ne v w e = λ z. cc

uri_destroy-uri : (s : UriState) → (uri_destroy s).uri ≡ no_uri
unfolding uri_destroy
uri_destroy-uri s = refl

uri_destroy-outcomes : (s : UriState) → (uri_destroy s).heap.outcomes ≡ s.heap.outcomes
unfolding uri_destroy
uri_destroy-outcomes s = ground arith

-- Where no allocation fails, and the source has a scheme or neither a host nor a port, uri_copy
-- succeeds, and the destination is the source.
pub uri_copy-Copied :
    (src : Uri) (s : UriState) → s.heap.outcomes ≡ [] → HasScheme src → Copied src (uri_copy src s)
unfolding uri_copy
uri_copy-Copied src s o has =
    let u0 = no_uri in
    let u1 = record u0 { scheme = src.scheme } in
    let u2 = record u1 { userinfo = src.userinfo } in
    let u3 = record u2 { host = src.host } in
    let u4 = record u3 { port = src.port } in
    let u5 = record u4 { path = src.path } in
    let u6 = record u5 { query = src.query } in
    continue-Copied u1 src _ _
      (copy_field-Copied f_scheme f_scheme src.scheme (uri_destroy s) u0 (uri_destroy-uri s)
        (uri_destroy-outcomes s ∙ o) refl (some_ne src.scheme))
      λ t1 e1 o1.
        continue-Copied u2 src _ _
          (copy_field-Copied f_userinfo f_userinfo src.userinfo t1 u1 e1 o1 refl
            (some_ne src.userinfo))
          λ t2 e2 o2.
            continue-Copied u3 src _ _
              (copy_field-Copied f_host f_scheme src.host t2 u2 e2 o2 refl has.for_host)
              λ t3 e3 o3.
                continue-Copied u4 src _ _
                  (copy_field-Copied f_port f_scheme src.port t3 u3 e3 o3 refl has.for_port)
                  λ t4 e4 o4.
                    continue-Copied u5 src _ _
                      (copy_field-Copied f_path f_path src.path t4 u4 e4 o4 refl (some_ne src.path))
                      λ t5 e5 o5.
                        continue-Copied u6 src _ _
                          (copy_field-Copied f_query f_query src.query t5 u5 e5 o5 refl
                            (some_ne src.query))
                          λ t6 e6 o6.
                            copy_field-Copied f_fragment f_fragment src.fragment t6 u6 e6 o6 refl
                              (some_ne src.fragment)

-- A call that has failed with ENOMEM and left a URI with no field.
pub record Failed (r : Result ℕ × UriState) : Type 0 where
  pub err_is : r.0 ≡ err enomem
  pub uri_is : r.1.uri ≡ no_uri

Failed-continue :
    (r : Result ℕ × UriState) (f : ℕ → UriState → Result ℕ × UriState)
    → Failed r
    → Failed (continue r f)
Failed-continue (ok n, t) f h = let z = h.err_is in cc
Failed-continue (err e, t) f h = h
Failed-continue (stuck, t) f h = let z = h.err_is in cc

continue-Failed :
    (u : Uri) (r : Result ℕ × UriState) (f : ℕ → UriState → Result ℕ × UriState)
    → Copied u r
    → ((t : UriState) → t.uri ≡ u → t.heap.outcomes ≡ [] → Failed (f 0 t))
    → Failed (continue r f)
continue-Failed u (ok n, t) f h k =
    let z : n ≡ 0 = let e = h.ok_is in cc in rw z (k t h.uri_is h.outcomes_are)
continue-Failed u (err e, t) f h k = let z = h.ok_is in cc
continue-Failed u (stuck, t) f h k = let z = h.ok_is in cc

copy_host-Failed :
    (v : Option Bytes) (w : Bytes) (s : UriState) (u : Uri)
    → v ≡ some w
    → s.uri ≡ u
    → u.scheme ≡ none
    → Failed (copy_field f_host f_scheme v s)
unfolding copy_field uri_destroy
copy_host-Failed none w s u e f g = cc
copy_host-Failed (some v) w s u e f g = rw (f, g) (record { err_is = refl; uri_is = refl })

-- Where no allocation fails, uri_copy fails with ENOMEM on every URI that has a host and no scheme,
-- and leaves the destination with no field.
pub uri_copy-Failed :
    (src : Uri) (w : Bytes) (s : UriState)
    → s.heap.outcomes ≡ []
    → src.scheme ≡ none
    → src.host ≡ some w
    → Failed (uri_copy src s)
unfolding uri_copy
uri_copy-Failed src w s o no_scheme host_is =
    let u1 = record no_uri { scheme = src.scheme } in
    let u2 = record u1 { userinfo = src.userinfo } in
    continue-Failed u1 _ _
      (copy_field-Copied f_scheme f_scheme src.scheme (uri_destroy s) no_uri (uri_destroy-uri s)
        (uri_destroy-outcomes s ∙ o) refl (some_ne src.scheme))
      λ t1 e1 o1.
        continue-Failed u2 _ _
          (copy_field-Copied f_userinfo f_userinfo src.userinfo t1 u1 e1 o1 refl
            (some_ne src.userinfo))
          λ t2 e2 o2. Failed-continue _ _ (copy_host-Failed src.host w t2 u2 host_is e2 no_scheme)
