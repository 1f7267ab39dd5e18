-- ===== src/Uri/ParseAuthority.antt =====
-- uri_parse reads the authority and the path of a text back (proxy/common/src/uri.c).
use free_co_ap.Common.{
  ℕ, Bool, true, false, [], ◌∷◌, ◌++◌, append-nil, ◌≡◌, ◌≢◌, refl, Option, none, some, Bytes, All,
  ◌==◌,
}
use free_co_ap.Uri.{is_allowed, is_unreserved, is_plain}
use free_co_ap.Uri.Coding.{encoded_all}
use free_co_ap.Uri.Fields.{Uri, UriState, Field, f_host, f_port, f_path, put}
use free_co_ap.Uri.Port.{IsHostChar, find_port, find_port-finds}
use free_co_ap.Uri.Parse.{
  split_at, parse_nonempty, is_nonempty, split_authority, strip_brackets, parse_if_some,
  parse_authority, before_slash, with_path,
}
use free_co_ap.Uri.ParseText.{
  Lacks, All-append, split_at-found, split_at-none, IsDelim, colon-IsDelim, at-IsDelim,
  slash-IsDelim, bracket-IsDelim, encoded_all-Lacks, encoded_away, Yields, continue-Yields, IsText,
}
use free_co_ap.Uri.ParseRoundTrip.{
  parse_field-Yields, path_except, with_text, AllSome, IsPathText, no_except, path_except-Safe,
  same-Yields,
}

pub parse_nonempty-Yields :
    (f : Field) (char_signed : Bool) (v : Bytes) (u : Uri) (s : UriState)
    → IsText v
    → v ≢ []
    → s.uri ≡ u
    → s.heap.outcomes ≡ []
    → Yields 0 (put f (some v) u) (parse_nonempty f char_signed (encoded_all [] v) s)
parse_nonempty-Yields f char_signed [] u s text ne e n = absurd (ne refl)
parse_nonempty-Yields f char_signed (c ∷ cs) u s text ne e n =
    rw (begins (is_plain [] c) refl)
      (parse_field-Yields f [] char_signed [] (c ∷ cs) no_except text u s e n)
  where
    begins : (b : Bool) → is_plain [] c ≡ b → is_nonempty (encoded_all [] (c ∷ cs)) ≡ true
    begins true e = rw e refl
    begins false e = rw e refl

path_begins : (cs : Bytes) → encoded_all path_except (47 ∷ cs) ≡ 47 ∷ encoded_all path_except cs
unfolding is_allowed is_unreserved
path_begins cs = refl

-- The path behind its '/'.
abbrev path_cut : Bytes → Option Bytes → Option (Bytes × Bytes)
path_cut before none = none
path_cut before (some []) = none
path_cut before (some (c ∷ cs)) = some (before, encoded_all path_except cs)

split_at-path :
    (before : Bytes) (path : Option Bytes)
    → Lacks 47 before
    → AllSome IsPathText path
    → split_at 47 (before ++ with_text [] path_except path) ≡ path_cut before path
split_at-path before none l p = rw (append-nil before) (split_at-none 47 before l)
split_at-path before (some []) l p = absurd p
split_at-path before (some (c ∷ cs)) l p =
    rw (p.0, path_begins cs) (split_at-found 47 before (encoded_all path_except cs) l)

-- A character that a path does not have.
pub path_Lacks :
    (d : ℕ) (path : Option Bytes)
    → IsDelim d
    → AllSome (λ v. All (λ c. is_plain path_except c ≡ true → (c == d) ≡ false) v) path
    → Lacks d (with_text [] path_except path)
path_Lacks d none i h = tt
path_Lacks d (some v) i h = encoded_all-Lacks path_except v d i h

kept_Lacks :
    (d : ℕ) (v : Bytes) → Lacks d v → All (λ c. is_plain path_except c ≡ true → (c == d) ≡ false) v
kept_Lacks d [] h = tt
kept_Lacks d (c ∷ cs) h = ((λ _. h.0), kept_Lacks d cs h.1)

colon_Lacks :
    (path : Option Bytes) → AllSome IsPathText path → Lacks 58 (with_text [] path_except path)
colon_Lacks none p = tt
colon_Lacks (some []) p = absurd p
colon_Lacks (some (c ∷ cs)) p =
    path_Lacks 58 (some (c ∷ cs)) colon-IsDelim (kept_Lacks 58 (c ∷ cs) (rw p.0 (refl, p.2)))

at_Lacks :
    (path : Option Bytes) → AllSome IsPathText path → Lacks 64 (with_text [] path_except path)
at_Lacks none p = tt
at_Lacks (some []) p = absurd p
at_Lacks (some (c ∷ cs)) p =
    path_Lacks 64 (some (c ∷ cs)) at-IsDelim (kept_Lacks 64 (c ∷ cs) (rw p.0 (refl, p.3)))

bracket_Lacks : (path : Option Bytes) → Lacks 91 (with_text [] path_except path)
unfolding is_allowed is_unreserved
bracket_Lacks none = tt
bracket_Lacks (some v) = encoded_away path_except v 91 bracket-IsDelim refl

All-both : (P Q : ℕ → Type 0) (xs : Bytes) → All P xs → All Q xs → All (λ c. P c × Q c) xs
All-both P Q [] h k = tt
All-both P Q (x ∷ xs) h k = ((h.0, k.0), All-both P Q xs h.1 k.1)

-- The text of a host, of a port and of a path.
abbrev pub authority_text : Bytes → Option Bytes → Option Bytes → Bytes
authority_text host port path =
    encoded_all [] host ++ (with_text (58 ∷ []) [] port ++ with_text [] path_except path)

abbrev port_part : Option Bytes → Option Bytes
port_part none = none
port_part (some v) = some (encoded_all [] v)

abbrev path_part : Option Bytes → Option Bytes
path_part none = none
path_part (some []) = none
path_part (some (c ∷ cs)) = some (encoded_all path_except cs)

host_away : (d : ℕ) (v : Bytes) → IsDelim d → is_plain [] d ≡ false → Lacks d (encoded_all [] v)
host_away d v i h = encoded_away [] v d i h

host_chars : (host : Bytes) → All IsHostChar (encoded_all [] host)
unfolding is_allowed is_unreserved
host_chars host =
    All-both _ _ (encoded_all [] host) (host_away 91 host bracket-IsDelim refl)
      (host_away 58 host colon-IsDelim refl)

no_slash : (v : Bytes) → Lacks 47 (encoded_all [] v)
unfolding is_allowed is_unreserved
no_slash v = host_away 47 v slash-IsDelim refl

split_authority-text :
    (host : Bytes) (port path : Option Bytes)
    → AllSome IsPathText path
    → split_authority (authority_text host port path)
      ≡ record { host = encoded_all [] host; port = port_part port; path = path_part path }
unfolding split_authority
split_authority-text host none path p =
    let h = encoded_all [] host in
    let t = with_text [] path_except path in
    let chars : All IsHostChar (h ++ t) =
      All-append IsHostChar h t (host_chars host)
        (All-both _ _ t (bracket_Lacks path) (colon_Lacks path p)) in
    let found : find_port (h ++ t) ≡ none = (find_port-finds (h ++ t) [] [] chars tt).2 in
    rw (found, split_at-path h path (no_slash host) p) (whole path p)
  where
    whole :
        (path : Option Bytes)
        → AllSome IsPathText path
        → let h = encoded_all [] host in
          let t = h ++ with_text [] path_except path in
          with_path (before_slash t (path_cut h path)) none t (path_cut h path)
          ≡ record { host = h; port = none; path = path_part path }
    whole none p = rw (append-nil (encoded_all [] host)) refl
    whole (some []) p = absurd p
    whole (some (c ∷ cs)) p = refl
split_authority-text host (some port) path p =
    let h = encoded_all [] host in
    let q = encoded_all [] port in
    let t = with_text [] path_except path in
    let found : find_port (h ++ (58 ∷ (q ++ t))) ≡ some (h, 58 ∷ (q ++ t)) =
      (find_port-finds h [] (q ++ t) (host_chars host) tt).0 in
    rw (found, split_at-path q path (no_slash port) p) (behind path p)
  where
    behind :
        (path : Option Bytes)
        → AllSome IsPathText path
        → let h = encoded_all [] host in
          let q = encoded_all [] port in
          let t = q ++ with_text [] path_except path in
          with_path h (some (before_slash t (path_cut q path))) t (path_cut q path)
          ≡ record { host = h; port = some q; path = path_part path }
    behind none p = rw (append-nil (encoded_all [] port)) refl
    behind (some []) p = absurd p
    behind (some (c ∷ cs)) p = refl

strip_brackets-Lacks : (xs : Bytes) → Lacks 91 xs → strip_brackets xs ≡ xs
unfolding strip_brackets
strip_brackets-Lacks [] h = refl
strip_brackets-Lacks (c ∷ cs) h = rw h.0 refl

-- What the text of an authority lacks.
pub authority_Lacks :
    (d : ℕ) (host : Bytes) (port path : Option Bytes)
    → IsDelim d
    → is_plain [] d ≡ false
    → (58 == d) ≡ false
    → Lacks d (with_text [] path_except path)
    → Lacks d (authority_text host port path)
authority_Lacks d host none path i e n p =
    All-append _ (encoded_all [] host) _ (host_away d host i e) p
authority_Lacks d host (some port) path i e n p =
    All-append _ (encoded_all [] host) _ (host_away d host i e)
      (n, All-append _ (encoded_all [] port) _ (host_away d port i e) p)

parse_port-Yields :
    (char_signed : Bool) (port : Option Bytes) (u : Uri) (s : UriState)
    → AllSome IsText port
    → u.port ≡ none
    → s.uri ≡ u
    → s.heap.outcomes ≡ []
    → Yields 0 (record u { port = port }) (parse_if_some f_port [] char_signed (port_part port) s)
parse_port-Yields char_signed none u s text unset e n = rw (← unset) (same-Yields 0 u s e n)
parse_port-Yields char_signed (some v) u s text unset e n =
    parse_field-Yields f_port [] char_signed [] v no_except text u s e n

parse_path-Yields :
    (char_signed : Bool) (path : Option Bytes) (u : Uri) (s : UriState)
    → AllSome IsPathText path
    → u.path ≡ none
    → s.uri ≡ u
    → s.heap.outcomes ≡ []
    → Yields 0
        (record u { path = path })
        (parse_if_some f_path (47 ∷ []) char_signed (path_part path) s)
parse_path-Yields char_signed none u s text unset e n = rw (← unset) (same-Yields 0 u s e n)
parse_path-Yields char_signed (some []) u s text unset e n = absurd text
parse_path-Yields char_signed (some (c ∷ cs)) u s text unset e n =
    rw text.0 (
      parse_field-Yields f_path (47 ∷ []) char_signed path_except cs path_except-Safe text.1 u s e
        n)

module _ (char_signed : Bool) (host : Bytes) (port path : Option Bytes) (host_text : IsText host)
    (host_nonempty : host ≢ []) (port_text : AllSome IsText port)
    (path_text : AllSome IsPathText path) where
  no_userinfo : split_at 64 (authority_text host port path) ≡ none
  unfolding is_allowed is_unreserved
  no_userinfo =
      split_at-none 64 (authority_text host port path)
        (authority_Lacks 64 host port path at-IsDelim refl refl (at_Lacks path path_text))

  pub parse_authority-Yields :
      (u : Uri) (s : UriState)
      → u.port ≡ none
      → u.path ≡ none
      → s.uri ≡ u
      → s.heap.outcomes ≡ []
      → Yields 0
          (record u { host = some host; port = port; path = path })
          (parse_authority char_signed (authority_text host port path) s)
  unfolding parse_authority is_allowed is_unreserved
  parse_authority-Yields u s np nq e n =
      let bare =
        strip_brackets-Lacks (encoded_all [] host) (host_away 91 host bracket-IsDelim refl) in
      let u1 = put f_host (some host) u in
      let u2 = record u1 { port = port } in
      let u3 = record u2 { path = path } in
      rw (no_userinfo, split_authority-text host port path path_text, bare)
        (continue-Yields 0 0 u1 u3 _ _
          (parse_nonempty-Yields f_host char_signed host u s host_text host_nonempty e n)
          λ t e1 n1.
            continue-Yields 0 0 u2 u3 _ _
              (parse_port-Yields char_signed port u1 t port_text np e1 n1)
              λ t1 e2 n2. parse_path-Yields char_signed path u2 t1 path_text nq e2 n2)
