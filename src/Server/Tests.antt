-- ===== src/Server/Tests.antt =====
-- Runs of the model of lib/src/coap_server.c, and its theorems at concrete inputs.
use free_co_ap.Common.{
  ◌==◌, inl, inr, ℕ, zero, suc, All, true, false, List, [], ◌∷◌, ok, Bytes, ◌≡◌, refl, replicate,
  length, arith,
}
use free_co_ap.Msg.{Op, Msg, created, check, destroy, free_ops}
use free_co_ap.Msg.Build.{set_type, set_code, set_msg_id, set_token, set_payload, copy, copy_ops}
use free_co_ap.Msg.Blocks.{set_code-Keeping}
use free_co_ap.Msg.Format.{format, format_hdr, format_token, format_ops, format_payload, to_be16}
use free_co_ap.Msg.Options.{check_critical_ops, check_ops}
use free_co_ap.Client.{Platform}
use free_co_ap.Client.Exchange.{check_options}
use free_co_ap.Server.{Trans, Shared, Job, Server, Handler, cleared, touch}
use free_co_ap.Server.Transfer.{
  codes, decimal, send, match_req, match_resp, clear_req, clear_resp, set_req, set_resp, diagnostic,
}
use free_co_ap.Server.Paths.{request_path, build_path, c_str, get_resp_type, path_list_match}
use free_co_ap.Server.Table.{find_oldest_trans, trans_create}
use free_co_ap.Server.Exchange.{is_request, on_message, answer, respond, conclude, exchange}
use free_co_ap.Server.Run.{ready, run}
use free_co_ap.Server.Serving.{Careful}
use free_co_ap.Server.Invariant.{IsIdleOrActive, Tidy, Orderly, exchange-Orderly}
use free_co_ap.Server.Sweeps.{Kept, run-Kept}
use free_co_ap.Server.Duplicates.{Acknowledged}
use free_co_ap.Server.Once.{on_messages, on_message-once}
use free_co_ap.Server.First.{on_message-first_id}
use free_co_ap.Server.Answered.{Answered, respond-Answered}
use free_co_ap.Server.Oldest.{IsUsed, first_oldest, find_oldest_trans-first_oldest}
use free_co_ap.Server.PathText.{Growing, path_text, root_if_empty, request_path-path_text}

abbrev platform : Platform
platform = record { char_signed = true; proxy = false }

-- A handler that answers 2.05.
abbrev content : Handler
content req s = set_code 2 5 s

content-Careful : Careful content
content-Careful req s = (set_code-Keeping 2 5).kept s

abbrev shared : Shared
shared = record {
  msg_id = 7;
  heap = record { outcomes = []; allocs = 0; frees = 0 };
  queue = [];
  recvs = [];
  sends = [];
  timers = [];
  opens = [];
  times = 11 ∷ 12 ∷ 13 ∷ 14 ∷ [];
  rands = [];
  opened = 0;
  closed = 0;
  sent = [];
  handled = [];
}

abbrev peer : Bytes
peer = 10 ∷ 0 ∷ 1 ∷ []

-- A confirmable GET of /sep with the message ID 1 and the token 0xaa.
abbrev get_sep : Bytes
get_sep = 0x41 ∷ 1 ∷ 0 ∷ 1 ∷ 0xAA ∷ 0xB3 ∷ 0x73 ∷ 0x65 ∷ 0x70 ∷ []

abbrev server : Server
server = record {
  sep_list = codes "/sep" ∷ [];
  table = replicate 8 cleared;
  shared = record shared { queue = (peer, get_sep) ∷ (peer, get_sep) ∷ [] };
}

replicate_idle : (n : ℕ) → All IsIdleOrActive (replicate n cleared)
replicate_idle zero = tt
replicate_idle (suc n) = (λ _. refl, replicate_idle n)

empty-Tidy : Tidy server.table
empty-Tidy = record { size = refl; idle = replicate_idle 8; single = λ sin. omega arith }

exchange-Orderly_example : Orderly peer server (exchange platform content server).1
exchange-Orderly_example = exchange-Orderly platform content server content-Careful empty-Tidy

run-Kept_example : Kept server (run platform content (ready true [] ∷ ready true [] ∷ []) server).1
run-Kept_example =
    run-Kept platform content (ready true [] ∷ ready true [] ∷ []) server content-Careful empty-Tidy

abbrev get : ℕ → Msg
get id = record created { code_detail = 1; msg_id = id }

-- A transaction with nothing on record yet.
abbrev idle : Job
idle = record { trans = record cleared { active = true; client_sin = peer }; shared = shared }

abbrev after_get : Job
after_get = (on_message platform content [] (get 5) idle).1

on_message-get : on_message platform content [] (get 5) idle ≡ (ok 0, after_get)
unfolding on_message match_req match_resp is_request check_options check_critical_ops check_ops
    answer clear_req clear_resp get_resp_type path_list_match respond conclude set_code set_msg_id
    set_token set_type send format check format_hdr format_token format_ops format_payload to_be16
    touch set_req set_resp copy copy_ops set_payload destroy free_ops
on_message-get = refl

get-is_request : is_request (get 5) ≡ true
unfolding is_request
get-is_request = refl

get_ver : (get 5).ver ≡ 0 → ⊥
get_ver e = omega arith

get-check_options : (check_options platform (get 5) == 0) ≡ true
unfolding check_options check_critical_ops check_ops
get-check_options = refl

-- An acknowledgement of the response.
abbrev reply : Msg
reply = record created { type = 2; msg_id = 5 }

on_message-once_example :
    (on_messages platform content [] (get 5 ∷ reply ∷ get 5 ∷ []) after_get).1.shared.handled
    ≡ after_get.shared.handled
on_message-once_example =
    on_message-once platform content [] (get 5) (get 5 ∷ reply ∷ get 5 ∷ []) idle get_ver
      get-is_request refl get-check_options on_message-get (inl refl, (inr refl, (inl refl, tt)))

abbrev new_job : Job
new_job = (trans_create peer (record idle { trans = cleared })).1

trans_create-new : trans_create peer (record idle { trans = cleared }) ≡ (ok 0, new_job)
unfolding trans_create touch
trans_create-new = refl

on_message-first_id_example :
    Acknowledged (get 0) new_job (on_message platform content [] (get 0) new_job).1
on_message-first_id_example =
    on_message-first_id platform content [] peer (get 0) (record idle { trans = cleared })
      trans_create-new refl refl

respond-get : respond content false (get 5) idle ≡ (ok 0, (respond content false (get 5) idle).1)
unfolding respond conclude set_code set_msg_id set_token set_type send format check format_hdr
    format_token format_ops format_payload to_be16 touch set_req set_resp copy copy_ops set_payload
    destroy free_ops
respond-get = refl

respond-Answered_example : Answered false (get 5) idle (respond content false (get 5) idle).1
respond-Answered_example = respond-Answered content false (get 5) idle respond-get

abbrev used_at : ℕ → Trans
used_at time = record cleared { active = true; last_use = time }

table-IsUsed : All IsUsed (used_at 9 ∷ used_at 4 ∷ used_at 7 ∷ used_at 4 ∷ [])
table-IsUsed =
    ((refl, omega arith), ((refl, omega arith), ((refl, omega arith), ((refl, omega arith), tt))))

find_oldest_trans-first_oldest_example :
    find_oldest_trans (used_at 9 ∷ used_at 4 ∷ used_at 7 ∷ used_at 4 ∷ [])
    ≡ first_oldest (used_at 9 ∷ used_at 4 ∷ used_at 7 ∷ used_at 4 ∷ [])
find_oldest_trans-first_oldest_example =
    find_oldest_trans-first_oldest (used_at 9 ∷ used_at 4 ∷ used_at 7 ∷ used_at 4 ∷ []) table-IsUsed

abbrev path_op : Bytes → Op
path_op v = record { num = 11; len = length v; val = v }

abbrev get_path : List Op → Msg
get_path ops = record created { op_list = ops }

abbrev a_bc : Msg
a_bc = get_path (path_op (97 ∷ []) ∷ path_op (98 ∷ 99 ∷ []) ∷ [])

a_bc-Growing : Growing 0 a_bc.op_list
a_bc-Growing = (
  refl,
  omega arith,
  (omega arith, tt),
  (refl, omega arith, (omega arith, (omega arith, tt)), tt),
)

request_path-path_text_example : request_path a_bc ≡ root_if_empty (path_text a_bc.op_list)
request_path-path_text_example = request_path-path_text a_bc a_bc-Growing (omega arith)

-- A segment that is shorter than the one before takes over its end: the path is /bc/a.
request_path_stale :
    request_path (get_path (path_op (98 ∷ 99 ∷ []) ∷ path_op (97 ∷ []) ∷ [])) ≡ codes "/bc/ac"
unfolding request_path build_path c_str
request_path_stale = refl

diagnostic_text : diagnostic 4321 ≡ codes "Bad option number: 4321"
unfolding decimal
diagnostic_text = refl
