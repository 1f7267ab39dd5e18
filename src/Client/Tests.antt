-- ===== src/Client/Tests.antt =====
-- Runs of the client, and its theorems at these.
use free_co_ap.Common.{
  length, ◌≤◌, ◌+◌, ◌*◌, true, false, [], ◌∷◌, ◌++◌, replicate, ◌≡◌, refl, ok, err, ebadmsg, Bytes,
  arith,
}
use free_co_ap.Msg.{Msg, created, destroy, check, free_ops, rst}
use free_co_ap.Msg.Options.{
  op_new, add_last, check_ops, check_critical_ops, is_critical, is_recognized,
}
use free_co_ap.Msg.Wire.{parse_ext, parse_exts, parse_op_head, parse_type_msg_id}
use free_co_ap.Msg.Parse.{
  parse_hdr, parse_token, parse_op_add, parse_op, parse_ops, parse_payload, parse_parts, parse,
}
use free_co_ap.Msg.Format.{to_be16, format_hdr, format_token, format_ops, format_payload, format}
use free_co_ap.Msg.Build.{set_type, set_msg_id, set_token}
use free_co_ap.Client.{
  Platform, moved, ready, Run, max_buf_len, init_ack_timeout, init_resp_timeout, double_timeout,
  start_timer, start_ack_timer, update_ack_timer, start_resp_timer,
}
use free_co_ap.Client.Transfer.{
  send, send_empty, recv, reject, handle_format_error, handle_ack_timeout,
}
use free_co_ap.Client.Exchange.{
  listen_ack_from, listen_resp_from, same_front, match_token, check_options,
  handle_piggybacked_response, handle_sep_response, con_verdict, sep_verdict, act, round, sep_loop,
  con_loop, exchange_sep, exchange_con, gen_rand_str, gen_msg_id, gen_token, await, is_request,
  exchange,
}
use free_co_ap.Client.Effect.{empty_bytes}
use free_co_ap.Client.Outgoing.{Outgoing, exchange-Outgoing}
use free_co_ap.Client.Answer.{Answered}
use free_co_ap.Client.Success.{exchange-Answered}
use free_co_ap.Client.Blocked.{Blocked}
use free_co_ap.Client.Spent.{events}
use free_co_ap.Client.Progress.{exchange-Finishes}
use free_co_ap.Client.Pacing.{Paced, Retransmitted, handle_ack_timeout-Retransmitted}
use free_co_ap.Client.Silence.{expired, GaveUp, exchange_con-GaveUp}
use free_co_ap.Client.Rejects.{rejection, reject-sends, recv-resets}

abbrev platform : Platform
platform = record { char_signed = false; proxy = false }

abbrev get_request : Msg
get_request = record created { code_detail = 1 }

-- The server sends an empty acknowledgement, and then its response in a confirmable message.
abbrev start : Run
start = record {
  client = record { tv_sec = 0; tv_nsec = 0; num_retrans = 0 };
  req = get_request;
  resp = created;
  heap = record { outcomes = []; allocs = 0; frees = 0 };
  waits = expired ∷ ready true false ∷ ready true true ∷ [];
  arrivals =
      (moved, 0x60 ∷ 0 ∷ 2 ∷ 1 ∷ [])
      ∷ (moved, 0x44 ∷ 0x45 ∷ 7 ∷ 8 ∷ 3 ∷ 4 ∷ 5 ∷ 6 ∷ 0xff ∷ 9 ∷ [])
      ∷ [];
  sends = [];
  timers = [];
  rands = 1 ∷ 2 ∷ 3 ∷ 4 ∷ 5 ∷ 6 ∷ 1500 ∷ [];
  sent = [];
  armed = [];
}

abbrev request_bytes : Bytes
request_bytes = 0x44 ∷ 1 ∷ 2 ∷ 1 ∷ 3 ∷ 4 ∷ 5 ∷ 6 ∷ []

-- The request goes out, once more after the timeout, and the response is acknowledged.
exchange-start :
    (exchange platform start ≡ (ok 0, (exchange platform start).1))
    × ((exchange platform start).1.sent
        ≡ request_bytes ∷ request_bytes ∷ (0x60 ∷ 0 ∷ 7 ∷ 8 ∷ []) ∷ [])
    × ((exchange platform start).1.armed ≡ (2, 500000000) ∷ (5, 0) ∷ (30, 0) ∷ [])
unfolding parse destroy free_ops parse_parts parse_hdr parse_token parse_ops parse_op parse_op_add
    parse_op_head parse_exts parse_ext parse_type_msg_id add_last op_new parse_payload check
    check_ops check_critical_ops is_critical is_recognized format format_hdr to_be16 format_token
    format_ops format_payload set_type set_msg_id set_token init_ack_timeout init_resp_timeout
    double_timeout start_timer start_ack_timer update_ack_timer start_resp_timer send send_empty
    recv reject handle_format_error handle_ack_timeout listen_ack_from listen_resp_from same_front
    match_token check_options handle_piggybacked_response handle_sep_response con_verdict
    sep_verdict act round sep_loop con_loop exchange_sep exchange_con gen_rand_str gen_msg_id
    gen_token await is_request exchange
exchange-start = (refl, refl, refl)

exchange-Answered_example : Answered platform (exchange platform start).1
exchange-Answered_example = exchange-Answered platform start (exchange-start.0)

exchange-Outgoing_example :
    Outgoing (exchange platform start).1.req 5 start (exchange platform start).1
exchange-Outgoing_example = exchange-Outgoing platform start (omega arith)

exchange-Finishes_example :
    let t = (exchange platform start).1 in
    Blocked (exchange platform start)
    × (events start.waits + length t.arrivals ≤ events t.waits + (length start.arrivals + 5))
exchange-Finishes_example = exchange-Finishes platform start (omega arith)

abbrev waiting : Run
waiting = record start { client = record { tv_sec = 2; tv_nsec = 500000000; num_retrans = 0 } }

handle_ack_timeout-waiting : handle_ack_timeout waiting ≡ (ok 0, (handle_ack_timeout waiting).1)
unfolding handle_ack_timeout update_ack_timer double_timeout start_timer send format check
    format_hdr to_be16 format_token format_ops format_payload
handle_ack_timeout-waiting = refl

waiting-Paced : Paced 2500 waiting.client
waiting-Paced = record {
  doubled = omega arith;
  nsec_fits = omega arith;
  at_least = omega arith;
  at_most = omega arith;
  few = omega arith;
}

handle_ack_timeout-Retransmitted_example : Retransmitted 2500 waiting (handle_ack_timeout waiting).1
handle_ack_timeout-Retransmitted_example =
    handle_ack_timeout-Retransmitted 2500 waiting waiting-Paced handle_ack_timeout-waiting

abbrev unanswered : Run
unanswered = record start { waits = replicate 5 expired ++ (ready true false ∷ []) }

format-get_request : format get_request max_buf_len ≡ ok (0x40 ∷ 1 ∷ 0 ∷ 0 ∷ [])
unfolding format check format_hdr to_be16 format_token format_ops format_payload
format-get_request = refl

exchange_con-GaveUp_example :
    GaveUp
      (ready true false ∷ [])
      (0x40 ∷ 1 ∷ 0 ∷ 0 ∷ [])
      4
      unanswered
      (exchange_con platform unanswered)
exchange_con-GaveUp_example =
    exchange_con-GaveUp platform (ready true false ∷ []) (0x40 ∷ 1 ∷ 0 ∷ 0 ∷ []) unanswered refl
      refl format-get_request refl

reject-sends_example :
    ((reject get_request start).0 ≡ ok 0)
    × ((reject get_request start).1.sent ≡ [] ++ rejection get_request)
reject-sends_example = reject-sends get_request start (omega arith) refl

-- A confirmable message with a reserved code class.
abbrev bad_datagram : Run
bad_datagram = record start { arrivals = (moved, 0x40 ∷ 0x20 ∷ 0x12 ∷ 0x34 ∷ []) ∷ [] }

parse-bad :
    (parse false (0x40 ∷ 0x20 ∷ 0x12 ∷ 0x34 ∷ []) (record { msg = created; heap = start.heap })).0
    ≡ err ebadmsg
unfolding parse destroy free_ops parse_parts parse_hdr parse_token parse_ops parse_op parse_op_add
    parse_op_head parse_exts parse_ext add_last op_new parse_payload check
parse-bad = refl

recv-resets_example :
    ((recv platform bad_datagram).0 ≡ err ebadmsg)
    × ((recv platform bad_datagram).1.sent ≡ [] ++ (empty_bytes rst (0x12 * 256 + 0x34) ∷ []))
recv-resets_example =
    recv-resets platform bad_datagram moved (0x40 ∷ 0x20 ∷ 0x12 ∷ 0x34 ∷ []) [] refl refl parse-bad
      (omega arith, (omega arith, (omega arith, (omega arith, tt)))) refl
