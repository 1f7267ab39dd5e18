-- ===== src/Cross/Back.antt =====
-- proxy/common/src/cross.c: the options of a CoAP message become a URI.
use free_co_ap.Common.{
  ℕ, ◌+◌, ◌-◌, ◌%◌, Bool, not, List, [], ◌∷◌, ◌++◌, Option, none, some, Result, ok, err, stuck,
  enospc, Bytes, Heap, u32_mod, size_mod, length, take, leb, ltb, ◌==◌, if◌then◌else◌,
}
use free_co_ap.Common.Actions.{◌>>◌}
use free_co_ap.Msg.{Op, Msg}
use free_co_ap.Uri.Fields.{
  UriState, PlainField, plain_scheme, plain_host, plain_port, no_uri, uri_destroy, set_field,
  set_path, set_query, c_str, generate,
}
use free_co_ap.Uri.Parse.{is_nonempty}
use free_co_ap.Cross.{coaps, uri_host, uri_port, uri_path, uri_query}

-- CROSS_TMP_BUF_LEN
abbrev pub tmp_buf_len : ℕ
tmp_buf_len = 256

abbrev pub op_bytes_of : Op → Bytes
op_bytes_of op = take op.len op.val

-- The value of an option, as a string in the temporary buffer.
abbrev pub set_from_op : Bool → PlainField → Op → UriState → Result ℕ × UriState
set_from_op char_signed f op s =
    if leb tmp_buf_len op.len
    then (err enospc, s)
    else set_field f char_signed (c_str (op_bytes_of op)) s

-- The loops for the host and for the port, which take the first option of the number.
unfoldable pub set_first : Bool → PlainField → ℕ → List Op → UriState → Result ℕ × UriState
set_first char_signed f num [] s = (ok 0, s)
set_first char_signed f num (op ∷ ops) s =
    if op.num == num then set_from_op char_signed f op s else set_first char_signed f num ops s

-- Whether one more option does not fit behind `out` in the temporary buffer.
abbrev pub is_too_long : Op → Bytes → Bool
is_too_long op out = ltb (tmp_buf_len - 1 - length out) ((op.len + 1) % u32_mod)

-- The loop for the path; `none` is -ENOSPC.
unfoldable pub join_path : List Op → Bytes → Option Bytes
join_path [] out = some out
join_path (op ∷ ops) out =
    if not (op.num == uri_path)
    then join_path ops out
    else if is_too_long op out
    then none
    else join_path ops (out ++ (47 ∷ op_bytes_of op))

abbrev pub ampersand : Bytes → Bytes
ampersand out = if is_nonempty out then 38 ∷ [] else []

-- The loop for the query.
unfoldable pub join_query : List Op → Bytes → Option Bytes
join_query [] out = some out
join_query (op ∷ ops) out =
    if not (op.num == uri_query)
    then join_query ops out
    else if is_too_long op out
    then none
    else join_query ops (out ++ (ampersand out ++ op_bytes_of op))

abbrev pub set_joined_path : Bool → Option Bytes → UriState → Result ℕ × UriState
set_joined_path char_signed none s = (err enospc, s)
set_joined_path char_signed (some out) s =
    set_path char_signed (if is_nonempty out then c_str out else 47 ∷ []) s

abbrev pub set_joined_query : Bool → Option Bytes → UriState → Result ℕ × UriState
set_joined_query char_signed none s = (err enospc, s)
set_joined_query char_signed (some out) s =
    if is_nonempty out then set_query char_signed (c_str out) s else (ok 0, s)

-- The fields of the URI.
unfoldable pub set_fields : Bool → List Op → UriState → Result ℕ × UriState
set_fields char_signed ops =
    set_field plain_scheme char_signed coaps
    >> set_first char_signed plain_host uri_host ops
    >> set_first char_signed plain_port uri_port ops
    >> set_joined_path char_signed (join_path ops [])
    >> set_joined_query char_signed (join_query ops [])

-- What a call leaves in the buffer, none where it leaves it alone; and the allocator.
pub record Written : Type 0 where
  pub buf : Option Bytes
  pub heap : Heap

-- The test of what uri_generate returns is `num > len - 1`, in size_t.
abbrev pub generated : ℕ → Result ℕ × UriState → Result ℕ × Written
generated len (ok n, s) =
    let d = generate s.uri len in
    (
      if ltb ((len + size_mod - 1) % size_mod) d.num then err enospc else ok 0,
      record { buf = some d.out; heap = (uri_destroy s).heap },
    )
generated len (err e, s) = (err e, record { buf = none; heap = (uri_destroy s).heap })
generated len (stuck, s) = (stuck, record { buf = none; heap = (uri_destroy s).heap })

-- cross_uri_coap_to_http
unfoldable pub uri_coap_to_http : Bool → ℕ → Msg → Heap → Result ℕ × Written
uri_coap_to_http char_signed len m h =
    generated len (set_fields char_signed m.op_list (record { uri = no_uri; heap = h }))
