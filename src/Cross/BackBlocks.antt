-- ===== src/Cross/BackBlocks.antt =====
-- Neither conversion of a URI loses a block (proxy/common/src/cross.c).
use free_co_ap.Common.{
  ℕ, ◌+◌, Bool, List, [], ◌∷◌, ◌≡◌, Option, none, some, Result, ok, err, stuck, Bytes, Heap, leb,
  ◌==◌, if◌then◌else◌, arith, Bool-cases, inl, inr,
}
use free_co_ap.Common.Actions.{continue, ◌>>◌}
use free_co_ap.Msg.{Op, Msg, State}
use free_co_ap.Msg.Leaks.{Balanced}
use free_co_ap.Uri.Fields.{
  UriState, PlainField, plain_scheme, plain_host, plain_port, no_uri, uri_destroy, set_field, c_str,
}
use free_co_ap.Uri.Blocks.{
  UriBalanced, set_field-UriBalanced, set_path-UriBalanced, set_query-UriBalanced,
}
use free_co_ap.Uri.ParseFields.{UriBalanced-refl, UriBalanced-trans, uri_destroy-UriBalanced}
use free_co_ap.Uri.Parse.{is_nonempty}
use free_co_ap.Cross.{coaps, uri_host, uri_port, uri_http_to_coap}
use free_co_ap.Cross.Ops.{uri_http_to_coap-Balanced}
use free_co_ap.Cross.Back.{
  tmp_buf_len, op_bytes_of, set_first, join_path, join_query, set_joined_path, set_joined_query,
  set_fields, generated, uri_coap_to_http,
}

-- A function that loses no block of any URI.
record Keeping (f : UriState → Result ℕ × UriState) : Type 0 where
  kept : (s : UriState) → UriBalanced s (f s).1

continue-UriBalanced :
    (s : UriState) (r : Result ℕ × UriState) (f : UriState → Result ℕ × UriState)
    → UriBalanced s r.1
    → ((t : UriState) → UriBalanced t (f t).1)
    → UriBalanced s (continue r (λ _. f)).1
continue-UriBalanced s (ok a, t) f h k = UriBalanced-trans s t (f t).1 h (k t)
continue-UriBalanced s (err e, t) f h k = h
continue-UriBalanced s (stuck, t) f h k = h

infixr 5 ◌then◌
◌then◌ : {f g : UriState → Result ℕ × UriState} → Keeping f → Keeping g → Keeping (f >> g)
◌then◌ {f} {g} h k = record { kept = λ s. continue-UriBalanced s (f s) g (h.kept s) k.kept }

set_first-UriBalanced :
    (char_signed : Bool) (f : PlainField) (num : ℕ) (ops : List Op) (s : UriState)
    → UriBalanced s (set_first char_signed f num ops s).1
unfolding set_first
set_first-UriBalanced char_signed f num [] s = UriBalanced-refl s
set_first-UriBalanced char_signed f num (op ∷ ops) s = elim (Bool-cases (op.num == num)) [
  | inr e ↦ rw e (set_first-UriBalanced char_signed f num ops s)
  | inl e ↦ elim (Bool-cases (leb tmp_buf_len op.len)) [
    | inl k ↦ rw (e, k) (UriBalanced-refl s)
    | inr k ↦ rw (e, k) (set_field-UriBalanced f char_signed (c_str (op_bytes_of op)) s)
  ]
]

set_joined_query-UriBalanced :
    (char_signed : Bool) (o : Option Bytes) (s : UriState)
    → UriBalanced s (set_joined_query char_signed o s).1
set_joined_query-UriBalanced char_signed none s = UriBalanced-refl s
set_joined_query-UriBalanced char_signed (some out) s = elim (Bool-cases (is_nonempty out)) [
  | inl e ↦ rw e (set_query-UriBalanced char_signed (c_str out) s)
  | inr e ↦ rw e (UriBalanced-refl s)
]

set_joined_path-UriBalanced :
    (char_signed : Bool) (o : Option Bytes) (s : UriState)
    → UriBalanced s (set_joined_path char_signed o s).1
set_joined_path-UriBalanced char_signed none s = UriBalanced-refl s
set_joined_path-UriBalanced char_signed (some out) s = set_path-UriBalanced char_signed _ s

set_scheme-Keeping : (char_signed : Bool) → Keeping (set_field plain_scheme char_signed coaps)
set_scheme-Keeping char_signed = record {
  kept = set_field-UriBalanced plain_scheme char_signed coaps;
}

set_first-Keeping :
    (char_signed : Bool) (f : PlainField) (num : ℕ) (ops : List Op)
    → Keeping (set_first char_signed f num ops)
set_first-Keeping char_signed f num ops = record {
  kept = set_first-UriBalanced char_signed f num ops;
}

set_joined_path-Keeping :
    (char_signed : Bool) (o : Option Bytes) → Keeping (set_joined_path char_signed o)
set_joined_path-Keeping char_signed o = record { kept = set_joined_path-UriBalanced char_signed o }

set_joined_query-Keeping :
    (char_signed : Bool) (o : Option Bytes) → Keeping (set_joined_query char_signed o)
set_joined_query-Keeping char_signed o = record {
  kept = set_joined_query-UriBalanced char_signed o;
}

set_fields-Keeping : (char_signed : Bool) (ops : List Op) → Keeping (set_fields char_signed ops)
unfolding set_fields
set_fields-Keeping char_signed ops =
    (((set_scheme-Keeping char_signed then set_first-Keeping char_signed plain_host uri_host ops)
        then set_first-Keeping char_signed plain_port uri_port ops)
      then set_joined_path-Keeping char_signed (join_path ops []))
    then set_joined_query-Keeping char_signed (join_query ops [])

-- As many blocks are in use as before.
pub record SameUse (h h' : Heap) : Type 0 where
  pub blocks : h'.allocs + h.frees ≡ h.allocs + h'.frees

generated-SameUse :
    (len : ℕ) (h : Heap) (r : Result ℕ × UriState)
    → UriBalanced (record { uri = no_uri; heap = h }) r.1
    → SameUse h (generated len r).1.heap
unfolding uri_destroy
generated-SameUse len h (ok n, s) b =
    let d = uri_destroy-UriBalanced s in record { blocks = omega arith }
generated-SameUse len h (err e, s) b =
    let d = uri_destroy-UriBalanced s in record { blocks = omega arith }
generated-SameUse len h (stuck, s) b =
    let d = uri_destroy-UriBalanced s in record { blocks = omega arith }

uri_coap_to_http-SameUse :
    (char_signed : Bool) (len : ℕ) (m : Msg) (h : Heap)
    → SameUse h (uri_coap_to_http char_signed len m h).1.heap
unfolding uri_coap_to_http
uri_coap_to_http-SameUse char_signed len m h =
    generated-SameUse len h _
      ((set_fields-Keeping char_signed m.op_list).kept (record { uri = no_uri; heap = h }))

-- Whatever cross_uri_http_to_coap and cross_uri_coap_to_http are given, whatever they return and
-- whichever allocations fail: after the first the blocks in use that the message does not own are as
-- many as before, and after the second all blocks in use are; both destroy their URI on every path.
pub conversions-Balanced :
    (char_signed : Bool) (http_uri : Bytes) (len : ℕ) (s : State)
    → Balanced s (uri_http_to_coap char_signed http_uri s).1
      × SameUse s.heap (uri_coap_to_http char_signed len s.msg s.heap).1.heap
conversions-Balanced char_signed http_uri len s = (
  uri_http_to_coap-Balanced char_signed http_uri s,
  uri_coap_to_http-SameUse char_signed len s.msg s.heap,
)
