-- ===== src/Conn/Runs.antt =====
-- The connection at concrete values: the theorems' instances.
use imcore.Prelude.{ℕ, ◌≡◌, refl, arith, Bool, true, false, List, [], ◌∷◌, ◌++◌, some, none, Option}
use imcore.Prelude.{Run, ok, fault, ◌>>=◌, replicate, use_after_free, Returns}
use imcore.Prelude.Text.{codes, str_eq, strdup}
use imcore.Hash.{Table, hash_new, hash_get}
use imcore.Hash.Index.{hash_key, hash_loop, char_bits}
use imcore.Hash.Links.{find}
use imcore.Stanza.Tree.{
  Stanza, stanza, Children, nil, child, tag_stanza, xmpp_stanza_get_ns, xmpp_stanza_get_attribute,
  xmpp_stanza_get_name_ptr, xmpp_stanza_is_tag,
}
use imcore.Stanza.Children.{find_name, is_named, same_name, xmpp_stanza_get_child_by_name}
use imcore.Conn.{Conn, World, Handler, application, open_buffer, connected, same_handler, address}
use imcore.Conn.Handlers.{
  check_handler_exist, xmpp_handler_add, xmpp_handler_delete, handler_add_with, new_item, copies,
}
use imcore.Conn.Unique.{IsUnique, xmpp_handler_delete-xmpp_handler_add}
use imcore.Conn.Stream.{xmpp_disconnect, is_disconnected}
use imcore.Conn.Features.{offers, in_ns, strcmp, ns_tls, ns_sasl}
use imcore.Conn.Auth.{on_features, do_auth}
use imcore.Conn.Machine.{
  fresh_conn, xmpp_conn_new, xmpp_conn_set_jid, Reach, here, next, adds, sets_jid, stream_start,
  stream_end, evb_read_cb,
}
use imcore.Conn.Waiting.{IsEmpty, told}
use imcore.Conn.Closing.{ending, by_peer, Closed, ending-Closed, wrong_root_frees_twice}
use imcore.Conn.Crash.{mechanism_tags}
use imcore.Conn.Attempts.{Tried, do_auth-Tried}
use imcore.Conn.Commutes.{P}
use imcore.Conn.Secret.{on_features_hides_password}
use imcore.Conn.Apart.{IsSound, Grows, stays}
use imcore.Conn.Fire.{fire_handlers, enable}
use imcore.Conn.Round.{fire_each, fire_handlers-each}
use imcore.Prelude.{ok-injective, ap, sym, map}
use mathlib.Core.Path.{subst}
use imcore.Stanza.Tree.{xmpp_stanza_get_type_ptr}
use imcore.Conn.Release.{xmpp_conn_release, Ends, conn_release-reachable}
use imcore.Conn.Never.{never_authenticated, handlers-IsUnique}

-- Memory for everything, and a socket that takes everything.
abbrev plenty : World
plenty = record { alloc = λ _. true; writes = true }

abbrev no_ids : Table ℕ
no_ids = record { ref = 1; free = false; num_keys = 0; entries = replicate 32 []; released = [] }

abbrev no_user : ℕ → Conn → Stanza → Run (Bool × Conn)
no_user n c s = ok (true, c)

abbrev zeros : List ℕ → List ℕ
zeros message = replicate 16 0

abbrev new_conn : Conn
new_conn = fresh_conn no_ids

abbrev named_conn : Conn
named_conn = xmpp_conn_set_jid plenty new_conn (codes "u@h")

abbrev busy_conn : Conn
busy_conn =
    xmpp_handler_add plenty named_conn (application 7) none (some (codes "message")) none none

busy_reached : Reach zeros no_user 9 new_conn busy_conn
busy_reached =
    next (next here (sets_jid plenty (codes "u@h") refl))
      (adds plenty 7 none (some (codes "message")) none none refl)

never_authenticated_example :
    (busy_conn.authenticated ≡ false)
    × (told busy_conn.notified ≡ 0)
    × IsEmpty busy_conn.id_handlers
never_authenticated_example =
    never_authenticated zeros no_user 9 plenty new_conn busy_conn
      (unfold xmpp_conn_new hash_new in refl) busy_reached

handlers-IsUnique_example : IsUnique busy_conn.handlers × IsUnique busy_conn.timed_handlers
handlers-IsUnique_example =
    handlers-IsUnique zeros no_user 9 plenty new_conn busy_conn
      (unfold xmpp_conn_new hash_new in refl) busy_reached

conn_release-reachable_example : Ends false busy_conn (xmpp_conn_release true false busy_conn)
conn_release-reachable_example =
    conn_release-reachable zeros no_user 9 plenty false new_conn busy_conn
      (unfold xmpp_conn_new hash_new in refl) busy_reached
      (unfold fresh_conn xmpp_conn_set_jid strdup xmpp_handler_add handler_add_with
          check_handler_exist copies in
        omega arith)

xmpp_handler_delete-xmpp_handler_add_example :
    (xmpp_handler_delete
      (xmpp_handler_add plenty busy_conn (application 8) none none none none)
      (application 8)).handlers
    ≡ busy_conn.handlers
xmpp_handler_delete-xmpp_handler_add_example =
    xmpp_handler_delete-xmpp_handler_add plenty busy_conn (application 8) none none none none (
      unfold fresh_conn xmpp_conn_set_jid strdup xmpp_handler_add handler_add_with
        check_handler_exist copies same_handler address new_item in
      refl)

-- A connection with a socket.
abbrev online : Conn
online = record busy_conn { evbuffer = open_buffer false; state = connected }

ending-Closed_example :
    Returns (ending zeros no_user 9 plenty true by_peer online) (Closed by_peer online)
ending-Closed_example = ending-Closed zeros no_user 9 plenty true by_peer online false refl (
    unfold fresh_conn xmpp_conn_set_jid strdup xmpp_handler_add handler_add_with check_handler_exist
      copies in
    tt)

wrong_root_frees_twice_example :
    evb_read_cb zeros no_user 9 plenty true
      (stream_start (codes "html") [] ∷ stream_end ∷ [])
      true
      online
    ≡ fault use_after_free
wrong_root_frees_twice_example =
    wrong_root_frees_twice zeros no_user 9 plenty true true (codes "html") [] [] online false
      (unfold str_eq in refl) refl

-- The table of `xmlns='ns'`, whose slot is the fourth of 8.
abbrev with_ns : List ℕ → Table (List ℕ)
with_ns ns = record {
  ref = 1;
  free = true;
  num_keys = 1;
  entries = replicate 3 [] ++ (((codes "xmlns", some ns) ∷ []) ∷ replicate 4 []);
  released = [];
}

abbrev in_namespace : List ℕ → List ℕ → Children → Stanza
in_namespace name ns children = stanza 1 tag_stanza (some name) (some (with_ns ns)) children

-- `<features><starttls/><mechanisms><mechanism>PLAIN</mechanism></mechanisms></features>`
abbrev features : Stanza
features = stanza 1 tag_stanza (some (codes "features")) none (
    child (in_namespace (codes "starttls") ns_tls nil) (
      child (in_namespace (codes "mechanisms") ns_sasl (mechanism_tags (codes "PLAIN" ∷ []) nil))
        nil))

on_features_hides_password_example :
    on_features plenty (P (some (codes "secret")) online) features
    ≡ (on_features plenty online features >>= λ r. ok (r.0, P (some (codes "secret")) r.1))
on_features_hides_password_example =
    on_features_hides_password (some (codes "secret")) plenty features online
      (unfold fresh_conn xmpp_conn_set_jid strdup xmpp_handler_add handler_add_with
          check_handler_exist copies in
        refl)
      (unfold fresh_conn xmpp_conn_set_jid strdup xmpp_handler_add handler_add_with
          check_handler_exist copies in
        refl)
      (unfold offers in_ns strcmp str_eq xmpp_stanza_get_child_by_name find_name is_named same_name
          xmpp_stanza_get_ns xmpp_stanza_get_attribute xmpp_stanza_get_name_ptr xmpp_stanza_is_tag
          hash_get hash_key hash_loop char_bits find in
        refl)

-- Without a mechanism that is left, the round is the request to disconnect.
do_auth-Tried_example : Tried plenty busy_conn busy_conn
do_auth-Tried_example =
    do_auth-Tried plenty busy_conn
      (unfold fresh_conn xmpp_conn_set_jid strdup xmpp_handler_add handler_add_with
          check_handler_exist copies in
        refl)
      (unfold fresh_conn xmpp_conn_set_jid strdup xmpp_handler_add handler_add_with
          check_handler_exist copies in
        refl)
      busy_conn
      (unfold fresh_conn xmpp_conn_set_jid strdup xmpp_handler_add handler_add_with
          check_handler_exist copies do_auth xmpp_disconnect is_disconnected in
        refl)

-- A callback that is done after one call.
abbrev once : Handler → Option (List ℕ) → Conn → Stanza → Run (Bool × Conn)
once h userdata c s = ok (false, c)

once_calls :
    (h : Handler) (userdata : Option (List ℕ)) (c d : Conn) (b : Bool)
    → IsSound c
    → once h userdata c features ≡ ok (b, d)
    → Grows c.handlers d.handlers × IsSound d
once_calls h userdata c d b v e =
    let q : c ≡ d = ap (λ (p : Bool × Conn). p.1) (ok-injective e) in
    (stays (ap (λ (x : Conn). x.handlers) (sym q)), subst IsSound q v)

abbrev two_handlers : Conn
two_handlers = xmpp_handler_add plenty busy_conn (application 8) none none none none

two_handlers-IsSound : IsSound two_handlers
unfolding fresh_conn xmpp_conn_set_jid strdup xmpp_handler_add handler_add_with check_handler_exist
    copies same_handler address new_item
two_handlers-IsSound = record {
  apart = (refl, (refl, tt));
  below = (omega arith, (omega arith, tt));
}

fire_handlers-each_example : fire_handlers once features 4 two_handlers ≡ (
    xmpp_stanza_get_ns features >>= λ ns. xmpp_stanza_get_type_ptr features >>= λ type.
    fire_each once features ns
      (xmpp_stanza_get_name_ptr features)
      type
      (map enable two_handlers.handlers)
      (record two_handlers { handlers = map enable two_handlers.handlers }))
fire_handlers-each_example =
    fire_handlers-each once features once_calls 4 two_handlers two_handlers-IsSound (
      unfold fresh_conn xmpp_conn_set_jid strdup xmpp_handler_add handler_add_with
        check_handler_exist copies same_handler address new_item in
      omega arith)
