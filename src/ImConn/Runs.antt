-- ===== src/ImConn/Runs.antt =====
-- The public connection at concrete values: the theorems' instances.
use imcore.Prelude.{ℕ, ◌≡◌, refl, true, false, List, [], some, none, Option, ok, replicate}
use imcore.Prelude.Text.{strdup, codes}
use imcore.Hash.{Table, hash_new}
use imcore.Conn.{Conn, World, client_type, connecting, open_buffer}
use imcore.Conn.Machine.{
  fresh_conn, xmpp_conn_new, xmpp_conn_set_jid, xmpp_conn_set_pass, xmpp_connect_client,
  connect_target, fitting_host, port_or_default, attempted, Attempt, started,
}
use imcore.Conn.Release.{deref}
use imcore.Sasl.Digest.{not_null}
use imcore.Jid.{xmpp_jid_domain, allocated, domain_end, domain_start}
use imcore.Prelude.Search.{strchr}
use imcore.Thread.{
  Thread, im_thread_new, im_thread_start, mutex_lock, mutex_unlock, im_thread_is_current, locked,
}
use imcore.Thread.Blocked.{Blocks}
use imcore.ImConn.{
  ImConn, state_init, is_init, im_conn_new, im_conn_open, copy_host, hosted, made_thread,
  both_missing, read_host, start_both, terminated,
}
use imcore.ImConn.Twice.{second_open-Blocks}

abbrev plenty : World
plenty = record { alloc = λ _. true; writes = true }

abbrev no_ids : Table ℕ
no_ids = record { ref = 1; free = false; num_keys = 0; entries = replicate 32 []; released = [] }

abbrev named_conn : Conn
named_conn =
    xmpp_conn_set_pass plenty (xmpp_conn_set_jid plenty (fresh_conn no_ids) (codes "u@h"))
      (codes "pw")

abbrev public_conn : ImConn
public_conn = record {
  xmpp_conn = named_conn;
  xmpp_host = some (terminated (codes "h"));
  signal_thread = some (im_thread_new 1);
  work_thread = some (im_thread_new 2);
  state = state_init;
  told = [];
}

made :
    im_conn_new plenty (some 1) (some 2) true (some (codes "h")) (codes "u@h") (codes "pw")
    ≡ ok (some public_conn)
unfolding im_conn_new both_missing made_thread hosted copy_host xmpp_conn_new hash_new
made = refl

abbrev no_srv : List ℕ → Option (List ℕ × ℕ)
no_srv domain = none

abbrev reaches : List ℕ × ℕ → Attempt
reaches target = started

abbrev connected_conn : Conn
connected_conn = record named_conn {
  conn_type = client_type;
  domain = some (codes "h");
  evbuffer = open_buffer false;
  state = connecting;
}

abbrev once : ImConn
once = record public_conn {
  xmpp_conn = connected_conn;
  signal_thread = some (record (im_thread_new 1) { started = true });
  work_thread = some (record (im_thread_new 2) { started = true });
}

abbrev twice : ImConn
twice = record once {
  signal_thread = some (record (im_thread_new 1) { started = true; lock = locked 9 1 });
  work_thread = some (record (im_thread_new 2) { started = true; lock = locked 9 1 });
}

opens : im_conn_open plenty 9 true true no_srv reaches public_conn ≡ ok (some (true, once))
unfolding fresh_conn xmpp_conn_set_jid xmpp_conn_set_pass im_conn_open is_init read_host
    xmpp_connect_client connect_target fitting_host port_or_default attempted not_null
    xmpp_jid_domain start_both deref im_thread_new im_thread_start mutex_lock mutex_unlock
    im_thread_is_current strdup allocated domain_end domain_start strchr
opens = refl

opens_again : im_conn_open plenty 9 true true no_srv reaches once ≡ ok (some (true, twice))
unfolding fresh_conn xmpp_conn_set_jid xmpp_conn_set_pass im_conn_open is_init read_host
    xmpp_connect_client connect_target fitting_host port_or_default attempted not_null
    xmpp_jid_domain start_both deref im_thread_new im_thread_start mutex_lock mutex_unlock
    im_thread_is_current strdup allocated domain_end domain_start strchr
opens_again = refl

second_open-Blocks_example :
    (s : Thread) × (t : Thread) × (twice.signal_thread ≡ some s)
    × (twice.work_thread ≡ some t)
    × Blocks 9 s
    × Blocks 9 t
second_open-Blocks_example =
    second_open-Blocks 9 1 2 true true plenty plenty no_srv no_srv reaches reaches public_conn once
      twice refl refl refl refl opens opens_again
