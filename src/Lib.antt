-- ===== src/Lib.antt =====
-- imcore is an instant messaging client library in C over XMPP. This library models parts of it
-- and proves what makes them correct.
--
-- The program's parts: base64.c and hash.c are helpers; xmpp-stanza.c builds XML trees whose
-- attributes are hash tables and renders them; xmpp-jid.c takes addresses apart; xmpp-sasl.c
-- answers the server's challenge with base64.c and a hash table; srv.c finds the server by DNS;
-- xmpp-handler.c dispatches stanzas to handlers, xmpp-auth.c is a chain of such handlers, and
-- xmpp-conn.c drives them; im-thread.c, im-conn.c and mm.c are the threads, the public connection
-- and the allocator with leak checks.
--
-- Which file models what:
-- - Prelude and the modules below it: shared helpers. Numbers are natural numbers, a machine word
--   keeps its wrap-around; a C string is the list of its bytes, and NULL is `none`. A run of C
--   code is `ok` with its value, or a fault where its behaviour is undefined. An allocation's
--   success is a Boolean argument.
-- - Base64 (src/base64.c): Base64.Encode has base64_encode and base64_encoded_len, Base64.Decode
--   has base64_decode and base64_decoded_len, Base64.Rounds, Base64.RoundTrip and Base64.Overflow
--   their theorems.
-- - Hash (src/hash.c): the table with hash_new, hash_clone, hash_get, hash_drop, hash_add and
--   hash_release; Hash.Links is one chain, Hash.Index is _hash_key, Hash.Iter the iterator;
--   Hash.View, Hash.Drop and Hash.Add prove that the table refines a map.
-- - Srv (src/srv.c): Srv.Numbers and Srv.Name have the numbers and the names of a message,
--   Srv.Header, Srv.Message and Srv.Lookup the header, the records and im_srv_lookup for systems
--   with a resolver library; `res_query` is a parameter. Srv.Labels, Srv.Measured, Srv.Copied,
--   Srv.Domain and Srv.Packed prove what is written and read.
-- - Jid (src/xmpp-jid.c): the five functions on addresses.
-- - Stanza (src/xmpp-stanza.c): Stanza.Tree and Stanza.Children have the stanza as the tree below
--   it and the operations on it, Stanza.Escape is _escape_xml, Stanza.Pen is _render_update with
--   the calls of im_snprintf, Stanza.Render is the rendering and xmpp_stanza_to_text. Stanza.Text
--   says what has to be written; Stanza.Emit, Stanza.Writes, Stanza.Tags, Stanza.Rendered,
--   Stanza.ToText and Stanza.Escaped prove that it is. Stanza.Gather is
--   xmpp_stanza_get_attributes. Attributes are tables of Hash, as in the source.
-- - Sasl (src/xmpp-sasl.c): Sasl.Plain is sasl_plain, Sasl.Challenge the parser of challenges,
--   Sasl.Digest the DIGEST-MD5 answer with MD5 as a parameter; Sasl.Parsed, Sasl.Nonce and
--   Sasl.Hex their theorems.
-- - Mm (src/mm.c): the allocator with its ring of blocks; Mm.Sizes is the ring as a map, Mm.Trace
--   the runs of a program.
-- - Conn (src/xmpp-inl.h, src/xmpp-handler.c, src/xmpp-conn.c, src/xmpp-auth.c): Conn has the
--   connection with its handlers; Conn.Handlers adds and deletes them, Conn.Fire is
--   handler_fire_stanza, Conn.Stream the socket and the stream, Conn.Features and Conn.Auth the
--   features, TLS and SASL, Conn.Bind the binding, the session and the dispatch of a callback,
--   and Conn.Machine the steps that libevent, expat and the application can make. Conn.Unique,
--   Conn.Waiting, Conn.Idle, Conn.Quiet, Conn.Unauth, Conn.Fired and Conn.Never prove what every
--   reachable connection is; Conn.Apart and Conn.Round compare a round of callbacks with a
--   reference, Conn.Frame and Conn.Attempts count the rounds of SASL, Conn.Commutes and
--   Conn.Secret are about the password, Conn.Closing and Conn.Crash about the ends, and
--   Conn.Release has handler_clear_all and xmpp_conn_release. The id handlers are in a table of
--   Hash, stanzas are those of Stanza, and SASL is that of Sasl. The handlers of the application,
--   MD5, what im_srv_lookup and the socket answer, and each allocation's success are parameters.
-- - Parser (src/xmpp-parser-expat.c): the callbacks of expat; Parser.Built compares them with the
--   building of a stanza by recursion.
-- - Thread (src/im-thread.c): one thread with its queue of messages and its lock, and the steps
--   of the threads around it, as built for Windows without assertions; a callback is three steps,
--   between which others can run; Thread.Count, Thread.Turn and Thread.Account count the
--   messages, Thread.Blocked is about the lock.
-- - ImConn (src/im-conn.c): the public connection over Conn and two of Thread; ImConn.Twice is
--   about opening it twice. A function that waits for ever for a lock gives `none`.
--
-- Bounds and fuel: the walks over a name in a message have fuel, one unit for each label or
-- pointer; a name of n labels needs n + 1, and a circle of pointers exhausts any.
-- netbuf_add_domain_name has fuel for each character, and no word takes less than one. The loop
-- over a challenge has fuel for each byte, and each round takes a `=`. `iter_keys` runs the loop
-- over an iterator on fuel, and the number of keys is enough. A round of handlers has fuel, and
-- twice the number of handlers is enough where a callback brings one more at most. `char` is
-- signed, as with the compilers of the project files. Lengths are below the range of `int`.
--
-- Not modelled: of xmpp-handler.c the times of the timers; of xmpp-conn.c what conn_handler does
-- to a connection, and who else holds the stanza of its stream error when it is released, which
-- is a parameter; of im-thread.c the POSIX branch, which does not compile, and the thread-local
-- storage; xmpp-ctx.c, xmpp-loop.c, imcore.c and the im-msg files; of xmpp-stanza.c the release.
-- list.h, md5.c, random.c and pthread-win32.c are copies of other projects' code; the network,
-- TLS and the event loop are libraries that the program calls.
pub mod Prelude
pub mod Base64
pub mod Conn
pub mod Parser
pub mod Thread
pub mod ImConn
pub mod Hash
pub mod Srv
pub mod Jid
pub mod Stanza
pub mod Sasl
pub mod Mm
