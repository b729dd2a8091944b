-- ===== src/Lib.antt =====
-- A model of three native parts of the Convex clients, and what holds of it.
--
-- The first part is the C client, c/client/convex.c with c/client/convex.h: calls over HTTP, and Live
-- queries, which a worker thread keeps up over one WebSocket while other threads subscribe,
-- unsubscribe, read updates and close. The second is awk/client/convexext.c, the extension that frames
-- WebSocket messages, checks UTF-8 and compares timestamps for the Awk client. The third is
-- chapel/client/convex_transport.c, the transport of the Chapel client: HTTP calls and WebSocket
-- messages over libcurl, and the lines and commands of its adapter.
--
-- Common holds what all modules share: names of the libraries passed on, Boolean tests on native
-- numbers, lists, C strings as lists of bytes, and unsigned wrap-around.
--
-- Client models c/client/convex.c.
--   Client/Json: json-c is not part of the repository. A JSON value is of any type, and a record of
--     functions stands for the library; the definitions take it as an argument.
--   Client/Queue: the ring of updates in convex_subscription (enqueue_update_locked, the end of
--     convex_subscription_next, the emptying in convex_close), with copy_error and convex_update.
--   Client/Live: live_manager and convex_subscription as records, and the helpers under the mutex:
--     active_count_locked, find_subscription_locked, publish_error_locked, disconnect_socket_locked;
--     connect_message and modify_message_locked. The list only ever grows at its front, so that the
--     number of nodes behind a node stands for its address.
--   Client/Transition: state_version, modification_query_id, validate_modification and
--     handle_transition. Client/Receive: receive_message. Client/Send: ws_send_json, with the calls of
--     curl_ws_send that it makes.
--   Client/Worker: connect_socket and live_worker as a state machine. A step is what the worker does
--     between two points at which another thread can see or change the manager.
--   Client/Api: ensure_live and the public calls, each by its critical sections; Client/Api/System lets
--     the worker and the callers take turns in any order. Client/Closing: how convex_close and
--     convex_debug_disconnect start, at the client itself.
--   Client/Http: receive, convex_new, convex_set_auth and convex_call. Client/Session: session_id and
--     realtime_after_ms.
--
-- Extension models awk/client/convexext.c: Slots is the table of connections, Buffer buffer_reserve,
-- Transport connection_read, connection_write, fill_pending and consume_pending, Frame parse_frame,
-- Writer ws_write_frame, Receiver do_ws_recv, do_ws_pending and do_ws_unread, Utf8 do_utf8_valid, and
-- Timestamp decode_timestamp and do_ts_cmp. Bits has the exclusive or of the frame masks.
--
-- Chapel models chapel/client/convex_transport.c.
--   Chapel/Buffer: append. Chapel/Utf8: valid_utf8, valid_text_boundary and utf8_scalar_count.
--   Chapel/Chars, Chapel/Decimal: the characters of a JSON number and decimal_to_int64.
--   Chapel/Json: skip_json_value with its two loops, and the tokens below it; a cursor is the rest of the
--     text, NULL, or behind the terminating NUL, where the model ends. Chapel/Json/Syntax is the grammar
--     that it is held against. Chapel/Fields: parse_json, json_key_equals, find_top_level_field and
--     ct_json_integral_field; json_tokener_parse_ex is a function of the text.
--   Chapel/Timestamp: base64_value, decode_timestamp and ct_timestamp_compare.
--   Chapel/Command: exact_fields, string_field, object_field and ct_validate_adapter_command.
--   Chapel/Socket: chapel_ws as a record, and ct_ws_receive, each round of its loop a record of what the
--     clock, poll, the watchdog and libcurl give.
--   Chapel/Send: ct_ws_send and ws_send_all, with the calls of curl_ws_send that they make.
--   Chapel/Http: ct_http_post and http_receive, where libcurl is a function of the request.
--   Chapel/Url: ct_deployment_url. Chapel/Headers: header_has_token, websocket_handshake and
--     websocket_header; the callback runs over the headers in the order in which libcurl reads them.
--   Chapel/Lines: ct_read_line, ct_interrupt_fd and ct_write_line, with the two static variables that
--     the reader shares with the thread that interrupts it.
--
-- Tests holds a small JSON library and runs on concrete inputs.
--
-- What libcurl, OpenSSL, the sockets, the clock and the allocator do is an input of the definitions: a
-- list of results, one for each round of a loop, or a flag. Numbers are natural numbers; unsigned
-- arithmetic that can wrap has its modulus written out. Bit operations on bytes are division and
-- remainder.
--
-- Loops that do not run over a list have a bound on their rounds: strip_rounds the length of the
-- URL, grow the number of bytes needed, utf8_rounds the number of bytes, and recv_loop the number
-- of bytes that are there or still come and the number of reads; count_rounds, field_rounds,
-- string_rounds, trim_rounds and token_rounds the number of bytes, and skip_json_value twice that
-- and two, for each value it goes over and each field or item it starts. Each round uses up one of
-- them at least, so the bounds are never met.
--
-- Not modelled: freeing and reference counts; the failure of allocations inside copy_error and fail;
-- code under CONVEX_CLIENT_TESTING; connection set-up, TLS and argument checks of the Awk extension,
-- and the text in its last_error; connection set-up, the watchdog thread and the
-- accessors of json-c in the Chapel client, and failing allocation in its JSON functions; the native
-- helpers of the other languages, the tests and examples.
pub mod Common
pub mod Client
pub mod Extension
pub mod Chapel
pub mod Tests
