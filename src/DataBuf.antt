-- ===== src/DataBuf.antt =====
-- proxy/common/src/data_buf.c and proxy/common/include/data_buf.h: the data buffer of the proxy.
pub mod Queue
mod Tests
use free_co_ap.Common.{
  ℕ, ◌+◌, ◌-◌, ◌*◌, ◌%◌, Bool, true, false, Option, none, some, List, [], ◌++◌, Heap, malloc, free,
  Errno, Result, ok, err, einval, enomem, Bytes, length, take, drop, replicate, ltb, size_mod,
  if◌then◌else◌,
}

-- data_buf_t. `mem` is the array that `data` points to, none where it is NULL; it has one byte more
-- than `size`, for a terminator.
pub record DataBuf : Type 0 where
  pub count : ℕ
  pub size : ℕ
  pub max_size : ℕ
  pub mem : Option Bytes

pub record BufState : Type 0 where
  pub buf : DataBuf
  pub heap : Heap

abbrev pub no_buf : DataBuf
no_buf = record { count = 0; size = 0; max_size = 0; mem = none }

abbrev pub created_buf : ℕ → ℕ → Bool × Heap → Result ℕ × BufState
created_buf size max_size (false, h) = (err enomem, record { buf = no_buf; heap = h })
created_buf size max_size (true, h) = (
  ok 0,
  record {
    buf = record {
      count = 0;
      size = size;
      max_size = max_size;
      mem = some (replicate ((size + 1) % size_mod) 0);
    };
    heap = h;
  },
)

-- data_buf_create
unfoldable pub create : ℕ → ℕ → Heap → Result ℕ × BufState
create size max_size h =
    if ltb max_size size
    then (err einval, record { buf = no_buf; heap = h })
    else created_buf size max_size (malloc h)

abbrev pub free_mem : Option Bytes → Heap → Heap
free_mem none h = h
free_mem (some m) h = free 1 h

-- data_buf_destroy
unfoldable pub destroy : BufState → BufState
destroy s = record { buf = no_buf; heap = free_mem s.buf.mem s.heap }

abbrev pub bytes_of : Option Bytes → Bytes
bytes_of none = []
bytes_of (some m) = m

abbrev pub expanded : Bytes → ℕ → BufState → Bool × Heap → Result ℕ × BufState
expanded last new_size s (false, h) = (err enomem, record { buf = s.buf; heap = h })
expanded last new_size s (true, h) = (
  ok 0,
  record {
    buf = record (s.buf) {
      size = new_size;
      mem =
          some (
            take s.buf.count (bytes_of s.buf.mem)
            ++ (replicate (new_size - s.buf.count) 0 ++ last));
    };
    heap = free_mem s.buf.mem h;
  },
)

-- data_buf_expand. `last` is the byte that malloc leaves behind the new space: memset does not
-- reach it, since it clears the bytes from `count` to `new_size` only.
unfoldable pub expand : Bytes → BufState → Result ℕ × BufState
expand last s =
    if ltb s.buf.max_size (2 * s.buf.size % size_mod)
    then (err einval, s)
    else expanded last (2 * s.buf.size % size_mod) s (malloc s.heap)

-- data_buf_get_space
abbrev pub get_space : DataBuf → ℕ
get_space b = (b.size + size_mod - b.count) % size_mod

-- `if (num > bound) num = bound;`
abbrev pub clamp : ℕ → ℕ → ℕ
clamp bound num = if ltb bound num then bound else num

-- data_buf_add: the number of bytes that the caller has put behind the used ones.
unfoldable pub add : ℕ → DataBuf → ℕ × DataBuf
add num b = let n = clamp (get_space b) num in (n, record b { count = (b.count + n) % size_mod })

-- memmove of all but `num` of the first `size` bytes to the front, and memset of the freed ones.
abbrev pub shifted : ℕ → ℕ → Bytes → Bytes
shifted num size m = take (size - num) (drop num m) ++ (replicate num 0 ++ drop size m)

abbrev pub shifted_mem : ℕ → ℕ → Option Bytes → Option Bytes
shifted_mem num size none = none
shifted_mem num size (some m) = some (shifted num size m)

-- data_buf_consume
unfoldable pub consume : ℕ → DataBuf → ℕ × DataBuf
consume num b =
    let n = clamp b.count num in
    (n, record b { count = b.count - n; mem = shifted_mem n b.size b.mem })
