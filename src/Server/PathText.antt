-- ===== src/Server/PathText.antt =====
-- The string that coap_server_get_resp_type (lib/src/coap_server.c) looks up.
use free_co_ap.Common.{
  ℕ, zero, suc, ◌+◌, ◌-◌, ◌≤◌, ◌<◌, false, List, [], ◌∷◌, ◌++◌, append-nil, append_assoc, ◌≡◌, refl,
  sym, ap, ◌∙◌, inl, inr, Bytes, All, length, drop, replicate, length-append, take-append,
  drop-append, take_all, drop-drop, drop-replicate, ltb, ◌==◌, if◌then◌else◌, arith, Bool-cases,
}
use free_co_ap.Msg.{Op, Msg}
use free_co_ap.Server.Paths.{
  c_str, smaller, PathBuf, put_str, overwrite, val_buf_len, build_path, slash_if_empty,
  request_path, uri_path_num,
}

-- The path that the options spell: a '/' and a segment for each Uri-Path option.
abbrev pub path_text : List Op → Bytes
path_text [] = []
path_text (op ∷ ops) =
    let rest = path_text ops in if op.num == uri_path_num then 47 ∷ (op.val ++ rest) else rest

abbrev pub root_if_empty : Bytes → Bytes
root_if_empty [] = 47 ∷ []
root_if_empty (c ∷ cs) = c ∷ cs

abbrev IsChar : ℕ → Type 0
IsChar c = 0 < c

-- Segments of characters other than NUL, none of them shorter than the one before, whose length
-- was `least`.
abbrev pub Growing : ℕ → List Op → Type 0
Growing least [] = Unit
Growing least (op ∷ ops) =
    if op.num == uri_path_num
    then (op.len ≡ length op.val) × (least ≤ op.len) × All IsChar op.val × Growing op.len ops
    else Growing least ops

abbrev zeros : ℕ → Bytes
zeros n = replicate n 0

c_str-zeros : (n : ℕ) → c_str (zeros n) ≡ []
unfolding c_str
c_str-zeros zero = refl
c_str-zeros (suc n) = refl

c_str-chars : (xs : Bytes) (n : ℕ) → All IsChar xs → c_str (xs ++ zeros n) ≡ xs
unfolding c_str
c_str-chars [] n h = c_str-zeros n
c_str-chars (x ∷ xs) n h =
    let ne : (x == 0) ≡ false = ground (arith, h.0) in rw ne (ap (◌∷◌ x) (c_str-chars xs n h.1))

zeros-length : (n : ℕ) → length (zeros n) ≡ n
zeros-length zero = refl
zeros-length (suc n) = ap suc (zeros-length n)

smaller_first : (a b : ℕ) → a ≤ b → smaller a b ≡ a
smaller_first a b h = ground arith

-- strncpy of a string that fits moves `p` behind it.
put_str_lem :
    (src chars : Bytes) (len : ℕ) (before : Bytes)
    → c_str src ≡ chars
    → length chars ≤ len
    → put_str src (length chars) (record { before = before; rest = zeros len })
      ≡ record { before = before ++ chars; rest = zeros (len - length chars) }
put_str_lem src chars len before e h = rw (
  zeros-length len,
  smaller_first (length chars) len h,
  e,
  take_all len chars h,
  take-append (length chars) chars (zeros (len - length chars)) refl,
  drop-append (length chars) chars (zeros (len - length chars)) refl,
)

-- What memcpy leaves behind a segment that is no shorter than the ones before.
overwrite_lem :
    (old val : Bytes) (n : ℕ)
    → length old ≤ length val
    → overwrite (length val) val (old ++ zeros n) ≡ val ++ zeros (length old + n - length val)
overwrite_lem old val n h =
    let d : length val ≡ length old + (length val - length old) = omega arith in
    let z : n - (length val - length old) ≡ length old + n - length val = omega arith in
    rw (take_all (length val) val (omega arith)) (
      ap (λ ys. val ++ ys)
        (ap (λ k. drop k (old ++ zeros n)) d
          ∙ (sym (drop-drop (length old) (length val - length old) (old ++ zeros n))
              ∙ (ap (drop (length val - length old)) (drop-append (length old) old (zeros n) refl)
                  ∙ (drop-replicate (length val - length old) n 0 ∙ ap zeros z)))))

abbrev start : Bytes → ℕ → PathBuf
start before len = record { before = before; rest = zeros len }

text_len : (val rest : Bytes) → length (47 ∷ (val ++ rest)) ≡ suc (length val + length rest)
text_len val rest = ap suc (length-append val rest)

-- One Uri-Path option: what it leaves in `val_buf`, and in the path.
record Added (op : Op) (old before : Bytes) (len : ℕ) : Type 0 where
  fits : op.len ≡ length op.val
  growing : length old ≤ op.len
  chars : All IsChar op.val
  room : suc (length op.val) ≤ len
  short : len ≤ 255

module _ (op : Op) (old before : Bytes) (len : ℕ) (h : Added op old before len) where
  abbrev val_buf : Bytes
  val_buf = old ++ zeros (256 - length old)

  val_len : val_buf_len op ≡ length op.val
  val_len =
      let a = h.fits in
      let b = h.room in
      let c = h.short in let low : ltb 255 op.len ≡ false = ground arith in rw low a

  val_buf_lem : overwrite (val_buf_len op) op.val val_buf ≡ op.val ++ zeros (256 - length op.val)
  val_buf_lem =
      let a = h.fits in
      let b = h.growing in
      let c = h.room in
      let d = h.short in
      let z : length old + (256 - length old) - length op.val ≡ 256 - length op.val = omega arith in
      ap (λ n. overwrite n op.val val_buf) val_len
      ∙ (overwrite_lem old op.val (256 - length old) (omega arith) ∙ ap (λ n. op.val ++ zeros n) z)

  added_lem :
      put_str
        (overwrite (val_buf_len op) op.val val_buf)
        (val_buf_len op)
        (put_str (47 ∷ []) 1 (start before len))
      ≡ start ((before ++ (47 ∷ [])) ++ op.val) (len - 1 - length op.val)
  unfolding c_str
  added_lem =
      let a = h.room in
      let slash : put_str (47 ∷ []) 1 (start before len) ≡ start (before ++ (47 ∷ [])) (len - 1) =
        put_str_lem (47 ∷ []) (47 ∷ []) len before refl (omega arith) in
      let val = op.val ++ zeros (256 - length op.val) in
      ap (λ v. put_str v (val_buf_len op) (put_str (47 ∷ []) 1 (start before len))) val_buf_lem
      ∙ (ap (λ n. put_str val n (put_str (47 ∷ []) 1 (start before len))) val_len
          ∙ (ap (λ b. put_str val (length op.val) b) slash
              ∙ put_str_lem val op.val (len - 1) (before ++ (47 ∷ []))
                  (c_str-chars op.val (256 - length op.val) h.chars) (omega arith)))

build_path_eq :
    (ops : List Op) {v w : Bytes} {b c : PathBuf}
    → v ≡ w
    → b ≡ c
    → build_path ops v b ≡ build_path ops w c
build_path_eq ops e f = rw (e, f)

start_eq : {xs ys : Bytes} {m n : ℕ} → xs ≡ ys → m ≡ n → start xs m ≡ start ys n
start_eq e f = rw (e, f)

-- The loop appends the path, where there is room for it.
build_path_lem :
    (ops : List Op) (old : Bytes) (before : Bytes) (len : ℕ)
    → len ≤ 255
    → Growing (length old) ops
    → length (path_text ops) ≤ len
    → build_path ops (old ++ zeros (256 - length old)) (start before len)
      ≡ start (before ++ path_text ops) (len - length (path_text ops))
unfolding build_path
build_path_lem [] old before len l g h =
    let e : len - 0 ≡ len = omega arith in rw (append-nil before, e)
build_path_lem (op ∷ ops) old before len l g h = elim (Bool-cases (op.num == uri_path_num)) [
  | inl e ↦
      let grown = rw e at g in
      let room = rw e at h in
      let size = text_len op.val (path_text ops) in
      let added : Added op old before len = record {
        fits = grown.0;
        growing = grown.1;
        chars = grown.2;
        room = omega arith;
        short = l;
      } in
      let ih =
        build_path_lem ops op.val ((before ++ (47 ∷ [])) ++ op.val) (len - 1 - length op.val)
          (omega arith) (rw (← grown.0) grown.3) (omega arith) in
      rw e (
        build_path_eq ops (val_buf_lem op old before len added) (added_lem op old before len added)
        ∙ (ih
            ∙ start_eq
                (append_assoc (before ++ (47 ∷ [])) op.val (path_text ops)
                  ∙ append_assoc before (47 ∷ []) (op.val ++ path_text ops))
                (omega arith)))
  | inr e ↦ rw e (build_path_lem ops old before len l (rw e at g) (rw e at h))
]

All-append_chars : (xs ys : Bytes) → All IsChar xs → All IsChar ys → All IsChar (xs ++ ys)
All-append_chars [] ys h k = k
All-append_chars (x ∷ xs) ys h k = (h.0, All-append_chars xs ys h.1 k)

path_text-chars : (least : ℕ) (ops : List Op) → Growing least ops → All IsChar (path_text ops)
path_text-chars least [] g = tt
path_text-chars least (op ∷ ops) g = elim (Bool-cases (op.num == uri_path_num)) [
  | inl e ↦
      let grown = rw e at g in
      rw e (
        omega arith,
        All-append_chars op.val (path_text ops) grown.2 (path_text-chars op.len ops grown.3),
      )
  | inr e ↦ rw e (path_text-chars least ops (rw e at g))
]

slashed :
    (text : Bytes) (n : ℕ)
    → All IsChar text
    → c_str (slash_if_empty text (zeros n)) ≡ root_if_empty text
unfolding c_str
slashed [] n h = ap (◌∷◌ 47) (ap c_str (drop-replicate 1 n 0) ∙ c_str-zeros (n - 1))
slashed (c ∷ cs) n h = c_str-chars (c ∷ cs) n h

-- Where the segments of the Uri-Path options have no NUL, none is shorter than the one before, and
-- the path has 255 characters at most, the string that decides on the type of the response is the
-- path: a '/' before each segment, and "/" where there is none.
pub request_path-path_text :
    (msg : Msg)
    → Growing 0 msg.op_list
    → length (path_text msg.op_list) ≤ 255
    → request_path msg ≡ root_if_empty (path_text msg.op_list)
unfolding request_path
request_path-path_text msg g h =
    ap (λ b. c_str (slash_if_empty b.before b.rest))
      (build_path_lem msg.op_list [] [] 255 (omega arith) g h)
    ∙ slashed (path_text msg.op_list) _ (path_text-chars 0 msg.op_list g)
