-- ===== src/Msg.antt =====
-- lib/include/coap_msg.h and the data of lib/src/coap_msg.c: messages, their options, and the
-- state that the functions of the message library work on.
pub mod Options
pub mod Wire
pub mod Parse
pub mod Format
pub mod Build
pub mod Codec
pub mod OpsRoundTrip
pub mod Destroy
pub mod RoundTrip
pub mod Space
pub mod Room
pub mod Canonical
pub mod CanonicalOps
pub mod FormatParse
pub mod Leaks
pub mod Blocks
pub mod Header
pub mod Total
pub mod Order
pub mod AddOp
pub mod Copy
pub mod SignedChar
pub mod Checks
mod Tests
pub use free_co_ap.Common.Actions.{continue, ◌>>=◌, ◌>>◌, return, fail, continue-eq-ok}
use free_co_ap.Common.{
  ℕ, ◌+◌, ◌*◌, Bool, true, false, ◌&&◌, ◌||◌, not, List, [], ◌∷◌, Option, none, some, Heap, free,
  Errno, Result, ok, err, stuck, ebadmsg, Bytes, replicate, length, ◌==◌, if◌then◌else◌, ◌≡◌, refl,
}

-- COAP_MSG_CON, COAP_MSG_NON, COAP_MSG_ACK, COAP_MSG_RST
abbrev pub con : ℕ
con = 0

abbrev pub non : ℕ
non = 1

abbrev pub ack : ℕ
ack = 2

abbrev pub rst : ℕ
rst = 3

-- COAP_MSG_VER, COAP_MSG_MAX_TOKEN_LEN, COAP_MSG_MAX_CODE_CLASS, COAP_MSG_MAX_CODE_DETAIL,
-- COAP_MSG_MAX_MSG_ID
abbrev pub version : ℕ
version = 1

abbrev pub max_token_len : ℕ
max_token_len = 8

abbrev pub max_code_class : ℕ
max_code_class = 7

abbrev pub max_code_detail : ℕ
max_code_detail = 31

abbrev pub max_msg_id : ℕ
max_msg_id = 65535

-- struct coap_msg_op; the `next` pointer is the order of the list that the option stands in.
pub record Op : Type 0 where
  pub num : ℕ
  pub len : ℕ
  pub val : Bytes

-- coap_msg_t. The option list is a list: `first` is its head and `last` its last element. `payload`
-- is `none` where the pointer is NULL.
pub record Msg : Type 0 where
  pub ver : ℕ
  pub type : ℕ
  pub token_len : ℕ
  pub code_class : ℕ
  pub code_detail : ℕ
  pub msg_id : ℕ
  pub token : Bytes
  pub op_list : List Op
  pub payload : Option Bytes
  pub payload_len : ℕ

-- What a function of the library may change: the message that it is handed, and the allocator.
pub record State : Type 0 where
  pub msg : Msg
  pub heap : Heap

-- A function that returns a number or an error code and changes the state, on errors too.
abbrev pub M : Type 0 → Type 0
M A = State → Result A × State

-- The message of a structure cleared by memset.
abbrev pub zeroed : Msg
zeroed = record {
  ver = 0;
  type = 0;
  token_len = 0;
  code_class = 0;
  code_detail = 0;
  msg_id = 0;
  token = replicate 8 0;
  op_list = [];
  payload = none;
  payload_len = 0;
}

-- coap_msg_create
abbrev pub created : Msg
created = record zeroed { ver = version }

abbrev pub create : State → State
create s = record s { msg = created }

-- The blocks that a payload and an option list own: one for the payload, two for each option.
abbrev pub payload_blocks : Option Bytes → ℕ
payload_blocks none = 0
payload_blocks (some _) = 1

abbrev pub owned_blocks : Msg → ℕ
owned_blocks m = 2 * length m.op_list + payload_blocks m.payload

-- coap_msg_op_list_destroy frees the value and the structure of each option.
unfoldable pub free_ops : List Op → Heap → Heap
free_ops [] h = h
free_ops (op ∷ ops) h = free_ops ops (free 2 h)

abbrev pub free_payload : Option Bytes → Heap → Heap
free_payload none h = h
free_payload (some _) h = free 1 h

-- coap_msg_destroy
unfoldable pub destroy : State → State
unfolding free_ops
destroy s = record s {
  msg = zeroed;
  heap = free_payload s.msg.payload (free_ops s.msg.op_list s.heap);
}

-- coap_msg_reset
abbrev pub reset : State → State
reset s = create (destroy s)

-- coap_msg_op_list_is_empty
abbrev pub is_empty_list : List Op → Bool
is_empty_list [] = true
is_empty_list (_ ∷ _) = false

-- coap_msg_check
unfoldable pub check : Msg → Result ℕ
check m =
    if m.code_class == 0 && m.code_detail == 0
    then if m.type == non
        || not (m.token_len == 0)
        || not (is_empty_list m.op_list)
        || not (m.payload_len == 0)
      then err ebadmsg
      else ok 0
    else if m.type == rst
    then err ebadmsg
    else ok 0
