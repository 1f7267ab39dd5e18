-- ===== src/Server/Paths.antt =====
-- lib/src/coap_server.c: the list of URI paths with separate responses, and the type of a response.
use free_co_ap.Common.{
  ℕ, ◌-◌, Bool, true, false, ◌&&◌, ◌||◌, List, [], ◌∷◌, ◌++◌, Heap, malloc, free, Result, ok, err,
  enomem, Bytes, length, take, drop, replicate, ltb, ◌==◌, if◌then◌else◌,
}
use free_co_ap.Msg.{Op, Msg}

abbrev pub has_path : Bool → Bool → Heap → Heap → Bool × Heap
has_path false _ h1 h2 = (false, h1)
has_path true false h1 h2 = (false, free 1 h2)
has_path true true h1 h2 = (true, h2)

-- coap_server_path_new: the structure, then the string; whether there is a path, and the allocator.
unfoldable pub path_new : Heap → Bool × Heap
path_new h =
    let (have_path, h1) = malloc h in
    let (have_str, h2) = malloc h1 in has_path have_path have_str h1 h2

-- coap_server_path_list_add, coap_server_add_sep_resp_uri_path: the list, and the allocator.
abbrev pub add_path : Bytes → List Bytes → Bool × Heap → Result ℕ × List Bytes × Heap
add_path str list (true, h) = (ok 0, list ++ (str ∷ []), h)
add_path str list (false, h) = (err enomem, list, h)

unfoldable pub path_list_add : Bytes → List Bytes → Heap → Result ℕ × List Bytes × Heap
path_list_add str list h = add_path str list (path_new h)

-- coap_server_path_list_destroy with coap_server_path_delete: the string and the structure.
unfoldable pub path_list_destroy : List Bytes → Heap → List Bytes × Heap
path_list_destroy [] h = ([], h)
path_list_destroy (path ∷ list) h = path_list_destroy list (free 2 h)

unfoldable pub same_str : Bytes → Bytes → Bool
same_str [] [] = true
same_str [] (y ∷ ys) = false
same_str (x ∷ xs) [] = false
same_str (x ∷ xs) (y ∷ ys) = x == y && same_str xs ys

-- coap_server_path_list_match
unfoldable pub path_list_match : List Bytes → Bytes → Bool
path_list_match [] str = false
path_list_match (path ∷ list) str = same_str path str || path_list_match list str

-- COAP_MSG_OP_URI_PATH_MAX_LEN, COAP_MSG_OP_URI_PATH_NUM
abbrev pub path_max_len : ℕ
path_max_len = 256

abbrev pub uri_path_num : ℕ
uri_path_num = 11

-- The string at the start of an array: what stands before the first NUL.
unfoldable pub c_str : Bytes → Bytes
c_str [] = []
c_str (c ∷ cs) = if c == 0 then [] else c ∷ c_str cs

-- strncpy of a string onto the first `len` bytes: cut, or filled with NULs.
abbrev pub str_fill : ℕ → Bytes → Bytes
str_fill len src = take len (c_str src) ++ replicate (len - length (c_str src)) 0

abbrev pub smaller : ℕ → ℕ → ℕ
smaller a b = if ltb a b then a else b

-- `buf`: the bytes before `p`, and the `len` bytes from `p` on. The last of the 256 stays NUL.
pub record PathBuf : Type 0 where
  pub before : Bytes
  pub rest : Bytes

-- strncpy to `p` of a string, and `p` moved on.
abbrev pub put_str : Bytes → ℕ → PathBuf → PathBuf
put_str src add b =
    let len = length b.rest in
    let filled = str_fill len src in
    record {
      before = b.before ++ take (smaller add len) filled;
      rest = drop (smaller add len) filled;
    }

-- memcpy of the first bytes of an array over another.
abbrev pub overwrite : ℕ → Bytes → Bytes → Bytes
overwrite n src dest = take n src ++ drop n dest

abbrev pub val_buf_len : Op → ℕ
val_buf_len op = if ltb (path_max_len - 1) op.len then path_max_len - 1 else op.len

-- The loop of coap_server_get_resp_type; `val_buf` keeps what the earlier options left in it.
unfoldable pub build_path : List Op → Bytes → PathBuf → PathBuf
build_path [] val_buf b = b
build_path (op ∷ ops) val_buf b =
    let val = overwrite (val_buf_len op) op.val val_buf in
    let added = build_path ops val (put_str val (val_buf_len op) (put_str (47 ∷ []) 1 b)) in
    let skipped = build_path ops val_buf b in if op.num == uri_path_num then added else skipped

abbrev pub slash_if_empty : Bytes → Bytes → Bytes
slash_if_empty [] rest = 47 ∷ drop 1 rest
slash_if_empty (c ∷ cs) rest = (c ∷ cs) ++ rest

-- The string that is looked up.
unfoldable pub request_path : Msg → Bytes
request_path msg =
    let b =
      build_path msg.op_list (replicate path_max_len 0)
        (record { before = []; rest = replicate (path_max_len - 1) 0 }) in
    c_str (slash_if_empty b.before b.rest)

-- coap_server_get_resp_type: whether the response is a separate one.
unfoldable pub get_resp_type : List Bytes → Msg → Bool
get_resp_type sep_list msg = path_list_match sep_list (request_path msg)
