-- ===== src/Lib.antt =====
-- FreeCoAP: a CoAP message library, a CoAP client, a CoAP server and an HTTP/CoAP proxy, in C.
--
-- The message library (lib/src/coap_msg.c, lib/include/coap_msg.h) turns bytes into messages and
-- back. The client (lib/src/coap_client.c) and the server (lib/src/coap_server.c) exchange such
-- messages, and the proxy (proxy/) stands between HTTP clients and a CoAP server. The message library,
-- the exchanges of the client and of the server, and some of the proxy's libraries are modelled here.
--
-- - Msg holds coap_msg_t and coap_msg_op_t as the records Msg and Op, the constants of the header, creation,
--   destruction and coap_msg_check. A function that changes a message is a function of the monad M: it
--   takes a State (the message and the allocator) and returns a number or an error code, and the new
--   State, on errors too.
-- - Msg.Options holds the option list (coap_msg_op_new, coap_msg_op_list_add_last, coap_msg_op_list_add) and
--   the checks of critical and unsafe options. The linked list is a list, whose last element is the
--   `last` pointer; no other pointer into it exists in the program.
-- - Msg.Wire and Msg.Parse model coap_msg_parse and what it calls. The window of the input from the C code's
--   pointer `p` on is a list of bytes, and its length is the C code's `len`.
-- - Msg.Format models coap_msg_format and what it calls. A function returns the bytes that it writes.
-- - Msg.Build has the setters, coap_msg_add_op and coap_msg_copy.
-- - Msg.Blocks and Msg.Header say what the setters and the copy do to the blocks and to the header.
-- - The other modules below Msg are proofs about these, and Msg.Tests holds runs and instances.
-- - Client holds coap_client_t, the constants and the timers of lib/src/coap_client.c. The record Run is
--   what a call works on: the client, the request, the response, the allocator, and the outside as lists
--   of what the coming calls of select, recv, send, timerfd_settime and rand give, and of the datagrams
--   sent so far. Both a plain socket and a GnuTLS session end a send or a receive with an Outcome.
-- - Client.Transfer has coap_client_send, _recv, _handle_format_error, the _reject functions, _send_ack
--   and _handle_ack_timeout; Client.Exchange has the waits, the checks of a response and
--   coap_client_exchange. The tests of a loop are a Verdict, and its branches are the function act.
-- - The other modules below Client are proofs about these, and Client.Tests holds runs and instances.
-- - Server holds coap_server_trans_t and coap_server_t of lib/src/coap_server.c, as built without DTLS, as
--   the records Trans and Server, and the constants. A Server has the list of paths, the table of
--   transactions and what these share (Shared): the message ID, the allocator, and the outside, as lists
--   of what the coming calls of the operating system give. A Job is one transaction with the Shared.
-- - Server.Paths has the URI path list, Server.Transfer sending, receiving, rejection, acknowledgement
--   and retransmission in one transaction, Server.Table the table of transactions with its timers,
--   Server.Exchange the response type and coap_server_exchange, and Server.Run coap_server_listen and
--   coap_server_run. The application's handler is a parameter.
-- - The other modules below Server are proofs about these, and Server.Tests holds runs and instances.
-- - Uri has the characters and the percent-encoding of proxy/common/src/uri.c, Uri.Fields uri_t,
--   uri_copy, the setters and uri_generate, Uri.Port uri_find_port, and Uri.Parse uri_parse and its
--   parts, where strsep gives the delimiter that it overwrites with the string behind it. A C string is
--   the list of the bytes before its '\0', and a destination is the length that it has or would have and
--   the bytes written. The other modules below Uri are proofs about these, and Uri.Tests and
--   Uri.ParseTests hold runs and instances.
-- - Cross has cross_uri_http_to_coap of proxy/common/src/cross.c, which reads a URI with Uri and adds
--   options with Msg: the message and the allocator are the State of Msg, and the URI is local to the
--   call. Cross.Back has cross_uri_coap_to_http, whose temporary buffer is a list of bytes. The other
--   modules below Cross are proofs about these, and Cross.Tests holds runs and instances.
-- - DataBuf has proxy/common/src/data_buf.c, with the array and its terminator byte; the byte that malloc
--   leaves in it is an argument of expand. DataBuf.Queue has the proofs, DataBuf.Tests runs of it.
-- - Common has Boolean tests, lists over native numbers, results, and the allocator (Heap): a list says
--   which of the coming calls of malloc succeed, and two counters hold the blocks handed out and freed.
--
-- Numbers are natural numbers; unsigned and size_t arithmetic that may wrap says so by % 2 ^ 32 or
-- % 2 ^ 64. Whether a plain char is signed is up to the compiler, so it is an argument of the parser.
-- Masks and shifts of fields that share no bit are written as /, %, * and +. The loop of
-- coap_msg_parse_ops runs on fuel: one more than the bytes of the input, since every option takes one
-- at least; a run that used the fuel up would return `stuck`. The loops of the client run on one more
-- than the results of select that are to come, since every round takes one at least; there, `stuck` is
-- also a wait for an event that the lists do not have. The loop of uri_decode_str runs on the length of
-- its string, of which every round takes a character at least. The server's loop runs on one more than
-- the waits to come, the loops over the segments of a path and of a query on one more than its length, and
-- the choice of a message ID draws two random bytes at most twice: they are never
-- out of range. An unsigned is printed in ten digits at most.
--
-- Not modelled: the set-up of DTLS and TLS sessions (calls of GnuTLS) and of sockets, the threads of the
-- operating system, the creation of the client and of the server (address lookup and sockets), the log,
-- and the rest of the proxy: the HTTP messages, the other mappings between HTTP and CoAP, the configuration
-- and the application itself.
pub mod Common
pub mod Msg
pub mod Client
pub mod Server
pub mod DataBuf
pub mod Uri
pub mod Cross
