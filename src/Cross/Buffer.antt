-- ===== src/Cross/Buffer.antt =====
-- The temporary buffer of cross_uri_coap_to_http (proxy/common/src/cross.c).
use free_co_ap.Common.{
  ◌+◌, ◌≤◌, ◌<◌, false, List, [], ◌∷◌, ◌++◌, ◌≡◌, Option, none, some, Bytes, u32_mod, length,
  length-take, ◌==◌, arith, Bool-cases, inl, inr, All, length-append,
}
use free_co_ap.Msg.{Op}
use free_co_ap.Cross.{uri_path, uri_query}
use free_co_ap.Cross.Back.{tmp_buf_len, op_bytes_of, is_too_long, join_path, join_query, ampersand}

-- An option whose length can be counted up by one.
abbrev pub IsCounted : Op → Type 0
IsCounted op = op.len + 1 < u32_mod

-- A string that leaves room for its terminator.
abbrev pub InBuffer : Option Bytes → Type 0
InBuffer none = Unit
InBuffer (some out) = length out < tmp_buf_len

op_bytes-length : (op : Op) → length (op_bytes_of op) ≤ op.len
op_bytes-length op = let l = length-take op.len op.val in omega arith

path-InBuffer :
    (op : Op) (out : Bytes)
    → IsCounted op
    → is_too_long op out ≡ false
    → length out < tmp_buf_len
    → length (out ++ (47 ∷ op_bytes_of op)) < tmp_buf_len
path-InBuffer op out c f h =
    let l = length-append out (47 ∷ op_bytes_of op) in let b = op_bytes-length op in ground arith

query-InBuffer :
    (op : Op) (out : Bytes)
    → IsCounted op
    → is_too_long op out ≡ false
    → length out < tmp_buf_len
    → length (out ++ (ampersand out ++ op_bytes_of op)) < tmp_buf_len
query-InBuffer op [] c f h = let b = op_bytes-length op in ground arith
query-InBuffer op (x ∷ out) c f h =
    let l = length-append out (38 ∷ op_bytes_of op) in let b = op_bytes-length op in ground arith

pub join_path-InBuffer :
    (ops : List Op) (out : Bytes)
    → All IsCounted ops
    → length out < tmp_buf_len
    → InBuffer (join_path ops out)
unfolding join_path
join_path-InBuffer [] out cs h = h
join_path-InBuffer (op ∷ ops) out cs h = elim (Bool-cases (op.num == uri_path)) [
  | inr e ↦ rw e (join_path-InBuffer ops out cs.1 h)
  | inl e ↦ elim (Bool-cases (is_too_long op out)) [
    | inl k ↦ rw (e, k) tt
    | inr k ↦ rw (e, k) (join_path-InBuffer ops _ cs.1 (path-InBuffer op out cs.0 k h))
  ]
]

pub join_query-InBuffer :
    (ops : List Op) (out : Bytes)
    → All IsCounted ops
    → length out < tmp_buf_len
    → InBuffer (join_query ops out)
unfolding join_query
join_query-InBuffer [] out cs h = h
join_query-InBuffer (op ∷ ops) out cs h = elim (Bool-cases (op.num == uri_query)) [
  | inr e ↦ rw e (join_query-InBuffer ops out cs.1 h)
  | inl e ↦ elim (Bool-cases (is_too_long op out)) [
    | inl k ↦ rw (e, k) tt
    | inr k ↦ rw (e, k) (join_query-InBuffer ops _ cs.1 (query-InBuffer op out cs.0 k h))
  ]
]

-- The path and the query that cross_uri_coap_to_http puts together stay in its temporary buffer with
-- their terminators, where no option is so long that its length plus one wraps around.
pub joined-InBuffer :
    (ops : List Op) → All IsCounted ops → InBuffer (join_path ops []) × InBuffer (join_query ops [])
joined-InBuffer ops cs =
    (join_path-InBuffer ops [] cs (omega arith), join_query-InBuffer ops [] cs (omega arith))
