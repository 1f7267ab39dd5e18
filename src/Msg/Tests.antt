-- ===== src/Msg/Tests.antt =====
-- Runs of the message library on concrete messages, and its theorems at these.
use free_co_ap.Common.{
  ◌≤◌, ◌++◌, replicate, ◌≡◌, refl, arith, true, false, [], ◌∷◌, some, Heap, ok, Bytes, length,
}
use free_co_ap.Msg.{Op, Msg, State, created, reset, destroy, check}
use free_co_ap.Msg.Options.{op_new, add_last}
use free_co_ap.Msg.Wire.{parse_ext, parse_exts, parse_op_head}
use free_co_ap.Msg.Parse.{
  parse_hdr, parse_token, parse_op_add, parse_op, parse_ops, parse_payload, parse_parts, parse,
}
use free_co_ap.Msg.Format.{
  to_be16, format_hdr, format_token, counted_len, nibble, ext_bytes, op_bytes, format_op,
  format_ops, format_payload, format,
}
use free_co_ap.Msg.RoundTrip.{Fits, msg_bytes, parse-format}
use free_co_ap.Msg.FormatParse.{format-parse}
use free_co_ap.Msg.Total.{Ends, parse-Ends}
use free_co_ap.Msg.Leaks.{Balanced, parse-Balanced}
use free_co_ap.Msg.Space.{format_op_overflow}
use free_co_ap.Msg.Room.{format-total, format_within}
use free_co_ap.Msg.SignedChar.{misread, parse_op_head-misread}
use free_co_ap.Msg.Order.{Placed, place_sorted-Placed}
use free_co_ap.Msg.AddOp.{add_sorted-OpsFit}
use free_co_ap.Msg.Copy.{copy-Fits}
use free_co_ap.Msg.Checks.{Tells, check_critical_ops-Tells, check_unsafe_ops-Tells}
use free_co_ap.Msg.Codec.{OpFits, OpsFit, head_len}
use free_co_ap.Msg.OpsRoundTrip.{ops_bytes}
use free_co_ap.Msg.Build.{copy}
use free_co_ap.Msg.Options.{
  add_sorted, place_sorted, is_critical, is_unsafe, check_critical_ops, check_unsafe_ops,
}

abbrev heap0 : Heap
heap0 = record { outcomes = []; allocs = 0; frees = 0 }

abbrev fresh : State
fresh = record { msg = created; heap = heap0 }

abbrev op_path : Op
op_path = record { num = 11; len = 3; val = b'a' ∷ b'b' ∷ b'c' ∷ [] }

abbrev op_size : Op
op_size = record { num = 60; len = 1; val = 9 ∷ [] }

abbrev sample : Msg
sample = record {
  ver = 1;
  type = 0;
  token_len = 2;
  code_class = 0;
  code_detail = 1;
  msg_id = 0x1234;
  token = 7 ∷ 8 ∷ 0 ∷ 0 ∷ 0 ∷ 0 ∷ 0 ∷ 0 ∷ [];
  op_list = op_path ∷ op_size ∷ [];
  payload = some (1 ∷ 2 ∷ []);
  payload_len = 2;
}

abbrev sample_bytes : Bytes
sample_bytes =
    0x42 ∷ 1 ∷ 0x12 ∷ 0x34 ∷ 7 ∷ 8 ∷ 0xb3 ∷ b'a' ∷ b'b' ∷ b'c' ∷ 0xd1 ∷ 36 ∷ 9 ∷ 0xff ∷ 1 ∷ 2 ∷ []

abbrev sample_state : State
sample_state = record { msg = sample; heap = record { outcomes = []; allocs = 5; frees = 0 } }

format-sample : format sample 100 ≡ ok sample_bytes
unfolding format check format_hdr to_be16 format_token format_ops format_op counted_len op_bytes
    nibble ext_bytes format_payload
format-sample = refl

parse_sample : parse true sample_bytes fresh ≡ (ok 0, sample_state)
unfolding parse destroy parse_parts parse_hdr parse_token parse_ops parse_op parse_op_add
    parse_op_head parse_exts parse_ext add_last op_new parse_payload check
parse_sample = refl

parse_unsigned : parse false sample_bytes fresh ≡ (ok 0, sample_state)
unfolding parse destroy parse_parts parse_hdr parse_token parse_ops parse_op parse_op_add
    parse_op_head parse_exts parse_ext add_last op_new parse_payload check
parse_unsigned = refl

sample-Fits : Fits true sample
sample-Fits = ground arith

parse-format_example : parse true sample_bytes fresh ≡ (ok 0, sample_state)
parse-format_example = parse-format true sample sample-Fits 100 fresh format-sample refl

format-parse_example : Fits false sample × (format sample 40 ≡ ok sample_bytes)
format-parse_example =
    format-parse sample_bytes 40 fresh (omega arith) (omega arith) (omega arith) (omega arith)
      parse_unsigned

parse-Ends_example :
    Ends
      (parse_parts true (0x42 ∷ 1 ∷ []) (reset sample_state))
      (parse true (0x42 ∷ 1 ∷ []) sample_state)
parse-Ends_example = parse-Ends true (0x42 ∷ 1 ∷ []) sample_state

parse-Balanced_example : Balanced sample_state (parse true (0x42 ∷ 1 ∷ []) sample_state).1
parse-Balanced_example = parse-Balanced true (0x42 ∷ 1 ∷ []) sample_state

sample-check : check sample ≡ ok 0
unfolding check
sample-check = refl

sample-length : length (msg_bytes sample) ≡ 16
unfolding ops_bytes op_bytes nibble ext_bytes to_be16
sample-length = refl

format-total_example : format sample 17 ≡ ok (msg_bytes sample)
format-total_example =
    format-total true sample sample-Fits 17 sample-check (omega arith)
      (omega (arith, sample-length))

format_within_example : length sample_bytes ≤ 100
format_within_example =
    format_within true sample sample-Fits 100 (omega arith) (omega arith) format-sample

-- If-None-Match has number 5; the option is empty in the protocol, but not in the program.
abbrev long_op : Op
long_op = record { num = 5; len = 13; val = replicate 13 0 }

long_op-OpFits : OpFits true 0 long_op
long_op-OpFits = ground arith

long_op-length : 15 ≡ length (op_bytes long_op 5)
unfolding op_bytes nibble ext_bytes
long_op-length = refl

format_op_overflow_example : (out : Bytes) × (format_op long_op 0 14 ≡ ok out) × (length out ≡ 15)
format_op_overflow_example =
    format_op_overflow true 0 long_op long_op-OpFits 14 (omega arith) long_op-length

parse_op_head-misread_example :
    parse_op_head true (op_bytes op_size 200 ++ []) ≡ ok (misread 200, 1, head_len op_size 200)
parse_op_head-misread_example =
    parse_op_head-misread op_size 200 [] (omega arith) (omega arith) (omega arith) refl

place_sorted-Placed_example :
    Placed long_op (op_path ∷ op_size ∷ []) (place_sorted long_op (op_path ∷ op_size ∷ []))
place_sorted-Placed_example = place_sorted-Placed long_op (op_path ∷ op_size ∷ []) (omega arith)

add_sorted-OpsFit_example :
    OpsFit false 0 (add_sorted 15 2 (1 ∷ 2 ∷ 3 ∷ []) sample_state).1.msg.op_list
add_sorted-OpsFit_example =
    add_sorted-OpsFit 15 2 (1 ∷ 2 ∷ 3 ∷ []) sample_state (omega arith) (omega arith) (omega arith)
      (ground arith)

copy-Fits_example : copy sample fresh ≡ (ok 0, sample_state)
copy-Fits_example = copy-Fits true sample sample-Fits heap0 refl

check_critical_ops-Tells_example : Tells is_critical sample.op_list (check_critical_ops sample)
check_critical_ops-Tells_example = check_critical_ops-Tells sample

check_unsafe_ops-Tells_example : Tells is_unsafe sample.op_list (check_unsafe_ops sample)
check_unsafe_ops-Tells_example = check_unsafe_ops-Tells sample
