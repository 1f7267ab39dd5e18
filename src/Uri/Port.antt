-- ===== src/Uri/Port.antt =====
-- uri_find_port (proxy/common/src/uri.c).
use free_co_ap.Common.{
  ℕ, Bool, true, false, ◌&&◌, not, [], ◌∷◌, ◌++◌, append-nil, ◌≡◌, refl, sym, ap, ◌∙◌, Option, none,
  some, Bytes, All, ◌==◌, if◌then◌else◌,
}

-- Whether the place behind a character lies within '[' and ']'.
abbrev pub inside_after : Bool → ℕ → Bool
inside_after true c = not (c == 93)
inside_after false c = c == 91

abbrev pub with_first : ℕ → Option (Bytes × Bytes) → Option (Bytes × Bytes)
with_first c none = none
with_first c (some (before, at)) = some (c ∷ before, at)

-- The loop of uri_find_port: the string before the port field, and the string from its ':' on; or
-- `none` for NULL.
unfoldable pub find_port_from : Bool → Bytes → Option (Bytes × Bytes)
find_port_from inside [] = none
find_port_from inside (c ∷ cs) =
    let rest = find_port_from (inside_after inside c) cs in
    if not (inside_after inside c) && c == 58 then some ([], c ∷ cs) else with_first c rest

-- uri_find_port
abbrev pub find_port : Bytes → Option (Bytes × Bytes)
find_port = find_port_from false

-- A character that neither opens an address nor marks a port.
abbrev pub IsHostChar : ℕ → Type 0
IsHostChar c = ((c == 91) ≡ false) × ((c == 58) ≡ false)

abbrev pub prefixed : Bytes → Option (Bytes × Bytes) → Option (Bytes × Bytes)
prefixed xs none = none
prefixed xs (some (before, at)) = some (xs ++ before, at)

prefixed-nil : (o : Option (Bytes × Bytes)) → prefixed [] o ≡ o
prefixed-nil none = refl
prefixed-nil (some x) = refl

with_first-prefixed :
    (c : ℕ) (xs : Bytes) (o : Option (Bytes × Bytes))
    → with_first c (prefixed xs o) ≡ prefixed (c ∷ xs) o
with_first-prefixed c xs none = refl
with_first-prefixed c xs (some x) = refl

skip_host :
    (host rest : Bytes) (found : Option (Bytes × Bytes))
    → All IsHostChar host
    → find_port_from false rest ≡ found
    → find_port_from false (host ++ rest) ≡ prefixed host found
unfolding find_port_from
skip_host [] rest found h e = e ∙ sym (prefixed-nil found)
skip_host (c ∷ host) rest found h e =
    rw (h.0.0, h.0.1)
      (ap (with_first c) (skip_host host rest found h.1 e) ∙ with_first-prefixed c host found)

-- Within '[' and ']', a ':' is passed over.
skip_address :
    (address rest : Bytes) (found : Option (Bytes × Bytes))
    → All (λ c. (c == 93) ≡ false) address
    → find_port_from true rest ≡ found
    → find_port_from true (address ++ rest) ≡ prefixed address found
unfolding find_port_from
skip_address [] rest found h e = e ∙ sym (prefixed-nil found)
skip_address (c ∷ address) rest found h e = rw h.0 (
    ap (with_first c) (skip_address address rest found h.1 e) ∙ with_first-prefixed c address found)

-- uri_find_port finds the ':' behind a host without ':' and '[', and the one behind an address in
-- brackets, which may have other ':' but no ']'; and it finds none behind a host with no port.
pub find_port-finds :
    (host address port : Bytes)
    → All IsHostChar host
    → All (λ c. (c == 93) ≡ false) address
    → (find_port (host ++ (58 ∷ port)) ≡ some (host, 58 ∷ port))
      × (find_port (91 ∷ (address ++ (93 ∷ 58 ∷ port)))
          ≡ some (91 ∷ (address ++ (93 ∷ [])), 58 ∷ port))
      × (find_port host ≡ none)
unfolding find_port_from
find_port-finds host address port h a = (
  skip_host host (58 ∷ port) (some ([], 58 ∷ port)) h refl
      ∙ ap (λ b. some (b, 58 ∷ port)) (append-nil host),
  ap (with_first 91) (skip_address address (93 ∷ 58 ∷ port) (some (93 ∷ [], 58 ∷ port)) a refl),
  ap find_port (sym (append-nil host)) ∙ skip_host host [] none h refl,
)
