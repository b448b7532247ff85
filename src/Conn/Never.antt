-- ===== src/Conn/Never.antt =====
-- xmpp-conn.c and xmpp-auth.c together: what a connection can become.
use imcore.Prelude.{ℕ, zero, suc, ◌≡◌, refl, Bool, true, false, List, [], not}
use imcore.Prelude.{Option, none, some, All, ◌&&◌, replicate}
use imcore.Prelude.{Run, ok, fault, Ensures, >>=-Ensures, ok-Ensures, if-Ensures}
use imcore.Prelude.{Option-Ensures, fault-Ensures, bad_call, sym}
use mathlib.Core.Path.{subst}
use mathlib.Core.Option.{some-injective}
use imcore.Hash.{Table}
use imcore.Hash.Links.{Chain}
use imcore.Prelude.{null_pointer}
use imcore.Hash.{hash_new}
use imcore.Stanza.Tree.{Stanza}
use imcore.Jid.{xmpp_jid_domain}
use imcore.Sasl.Digest.{not_null}
use imcore.Conn.{Conn, World, HandlistItem, application, client_type}
use imcore.Conn.Handlers.{xmpp_handler_add, handler_timer_proxy, xmpp_timed_handler_add, new_item}
use imcore.Conn.Handlers.{xmpp_timed_handler_delete, xmpp_id_handler_add}
use imcore.Conn.Fire.{}
use imcore.Conn.Machine.{
  Step, event, reads, timer, connects, disconnects, sends, adds, deletes, adds_timed, deletes_timed,
  adds_id, deletes_id, sets_jid, sets_pass, disables_tls, Reach, here, next, xmpp_conn_new,
  fresh_conn, xmpp_connect_client, connect_target, attempted, Attempt, unresolved, no_memory,
  refused, started, xmpp_conn_set_jid, xmpp_conn_set_pass, xmpp_conn_disable_tls,
}
use imcore.Conn.Waiting.{
  IsWaiting, told, IsEmpty, handler_add_with-IsWaiting, xmpp_handler_delete-IsWaiting,
  id_handler_add_with-IsWaiting, xmpp_id_handler_delete-IsWaiting,
}
use imcore.Conn.Unique.{IsUnique}
use imcore.Conn.Idle.{
  xmpp_timed_handler_delete-IsWaiting, evb_event_cb-IsWaiting, xmpp_disconnect-IsWaiting,
  xmpp_send-IsWaiting, timed_handler_add_with-IsWaiting,
}
use imcore.Conn.Unauth.{Keeps}
use imcore.Conn.Fired.{evb_read_cb-IsWaiting}

handler_timer_proxy-IsWaiting :
    (i : HandlistItem) (c : Conn) → IsWaiting c → Ensures (handler_timer_proxy c i) IsWaiting
unfolding handler_timer_proxy
handler_timer_proxy-IsWaiting i c v =
    if-Ensures IsWaiting (i.user_handler && not c.authenticated) _ _
      (fault-Ensures IsWaiting bad_call) (ok-Ensures IsWaiting c v)

attempted-IsWaiting : (a : Attempt) (c : Conn) → IsWaiting c → IsWaiting (attempted c a).1
unfolding attempted
attempted-IsWaiting unresolved c v = v
attempted-IsWaiting no_memory c v = v
attempted-IsWaiting refused c v = v
attempted-IsWaiting started c v = v

xmpp_connect_client-IsWaiting :
    (w : World) (c : Conn) (alt : Option (List ℕ)) (port : ℕ) (srv : List ℕ → Option (List ℕ × ℕ))
    (reaches : List ℕ × ℕ → Attempt)
    → IsWaiting c
    → Keeps (xmpp_connect_client w c alt port srv reaches)
unfolding xmpp_connect_client
xmpp_connect_client-IsWaiting w c alt port srv reaches v =
    >>=-Ensures (λ p. IsWaiting p.1) (not_null c.jid) _
      λ jid _.
        let domain = xmpp_jid_domain (w.alloc 87) jid in
        let begun = record c { conn_type = client_type; domain = domain } in
        Option-Ensures (λ p. IsWaiting p.1) domain _ _
          (ok-Ensures (λ p. IsWaiting p.1) (false, begun) v)
          (λ d.
            >>=-Ensures (λ p. IsWaiting p.1) (connect_target d alt port (srv d)) _
              λ target _.
                ok-Ensures (λ p. IsWaiting p.1) (attempted begun (reaches target))
                  (attempted-IsWaiting (reaches target) begun v))

module _ (md5 : List ℕ → List ℕ) (user : ℕ → Conn → Stanza → Run (Bool × Conn)) (fuel : ℕ) where
  Step-IsWaiting : {c d : Conn} → Step md5 user fuel c d → IsWaiting c → IsWaiting d
  unfolding xmpp_handler_add xmpp_timed_handler_add xmpp_timed_handler_delete xmpp_id_handler_add
      xmpp_conn_set_jid xmpp_conn_set_pass xmpp_conn_disable_tls new_item
  Step-IsWaiting {c} {d} (event w what e) v = evb_event_cb-IsWaiting w what c v d e
  Step-IsWaiting {c} {d} (reads w filter ps wellformed e) v =
      evb_read_cb-IsWaiting md5 user fuel w filter ps wellformed c v d e
  Step-IsWaiting {c} {d} (timer i e) v = handler_timer_proxy-IsWaiting i c v d e
  Step-IsWaiting {c} {d} (connects w alt port srv reaches success e) v =
      xmpp_connect_client-IsWaiting w c alt port srv reaches v (success, d) e
  Step-IsWaiting {c} {d} (disconnects w e) v = xmpp_disconnect-IsWaiting w c v d e
  Step-IsWaiting {c} {d} (sends w s e) v = xmpp_send-IsWaiting w c s v d e
  Step-IsWaiting {c} (adds w n ns name type userdata e) v =
      subst IsWaiting (sym e)
        (handler_add_with-IsWaiting w c (application n) ns name type userdata true v refl)
  Step-IsWaiting {c} (deletes h e) v = subst IsWaiting (sym e) (xmpp_handler_delete-IsWaiting c h v)
  Step-IsWaiting {c} (adds_timed w n period userdata e) v =
      subst IsWaiting (sym e)
        (timed_handler_add_with-IsWaiting w c (application n) period userdata true v)
  Step-IsWaiting {c} (deletes_timed h e) v =
      subst IsWaiting (sym e) (xmpp_timed_handler_delete-IsWaiting c h v)
  Step-IsWaiting {c} {d} (adds_id w n id userdata e) v =
      id_handler_add_with-IsWaiting w c (application n) id userdata true v d e
  Step-IsWaiting {c} {d} (deletes_id h id e) v = xmpp_id_handler_delete-IsWaiting c h id v d e
  Step-IsWaiting (sets_jid w jid e) v = subst IsWaiting (sym e) v
  Step-IsWaiting (sets_pass w pass e) v = subst IsWaiting (sym e) v
  Step-IsWaiting (disables_tls e) v = subst IsWaiting (sym e) v

  Reach-IsWaiting : {c d : Conn} → IsWaiting c → Reach md5 user fuel c d → IsWaiting d
  Reach-IsWaiting v here = v
  Reach-IsWaiting v (next r st) = Step-IsWaiting st (Reach-IsWaiting v r)

-- A new table has no entry, and `xmpp_conn_new` gives it no release function.
empty_chains : (n : ℕ) → All (λ (ch : Chain ℕ). ch ≡ []) (replicate n [])
empty_chains zero = tt
empty_chains (suc n) = (refl, empty_chains n)

hash_new-IsEmpty :
    (malloc calloc : Bool) (size : ℕ) (t : Table ℕ)
    → hash_new malloc calloc size false ≡ some t
    → IsEmpty t
unfolding hash_new
hash_new-IsEmpty false calloc size t e = absurd (cc)
hash_new-IsEmpty true false size t e = absurd (cc)
hash_new-IsEmpty true true size t e =
    subst IsEmpty (some-injective _ _ e) (record { free = refl; chains = empty_chains size })

abbrev IsNew : Option Conn → Type 0
IsNew none = Unit
IsNew (some c) = IsWaiting c

fresh_conn-IsWaiting : (t : Table ℕ) → IsEmpty t → IsWaiting (fresh_conn t)
unfolding fresh_conn told
fresh_conn-IsWaiting t e = record {
  waiting = refl;
  empty = e;
  ordinary = tt;
  silent = refl;
  unique = tt;
  unique_timers = tt;
}

with_table-IsNew :
    (o : Option (Table ℕ))
    → ((t : Table ℕ) → o ≡ some t → IsEmpty t)
    → Ensures (elim o [ none ↦ fault null_pointer | some t ↦ ok (some (fresh_conn t)) ]) IsNew
with_table-IsNew none h = fault-Ensures IsNew null_pointer
with_table-IsNew (some t) h =
    ok-Ensures IsNew (some (fresh_conn t)) (fresh_conn-IsWaiting t (h t refl))

xmpp_conn_new-IsNew : (w : World) → Ensures (xmpp_conn_new w) IsNew
unfolding xmpp_conn_new
xmpp_conn_new-IsNew w =
    if-Ensures IsNew (w.alloc 80 && w.alloc 81) _ _
      (if-Ensures IsNew (w.alloc 82) _ _
        (with_table-IsNew (hash_new (w.alloc 83) (w.alloc 84) 32 false)
          (hash_new-IsEmpty (w.alloc 83) (w.alloc 84) 32))
        (fault-Ensures IsNew null_pointer))
      (ok-Ensures IsNew none tt)

-- Whatever happens to a connection that `xmpp_conn_new` has made, and whatever the application's
-- handlers do, it is never authenticated, the application is never told that it is connected, and
-- no id handler is ever registered.
pub never_authenticated :
    (md5 : List ℕ → List ℕ) (user : ℕ → Conn → Stanza → Run (Bool × Conn)) (fuel : ℕ) (w : World)
    (c d : Conn)
    → xmpp_conn_new w ≡ ok (some c)
    → Reach md5 user fuel c d
    → (d.authenticated ≡ false) × (told d.notified ≡ 0) × IsEmpty d.id_handlers
never_authenticated md5 user fuel w c d e r =
    let v = Reach-IsWaiting md5 user fuel (xmpp_conn_new-IsNew w (some c) e) r in
    (v.waiting, v.silent, v.empty)

-- Neither list of handlers ever holds one handler twice.
pub handlers-IsUnique :
    (md5 : List ℕ → List ℕ) (user : ℕ → Conn → Stanza → Run (Bool × Conn)) (fuel : ℕ) (w : World)
    (c d : Conn)
    → xmpp_conn_new w ≡ ok (some c)
    → Reach md5 user fuel c d
    → IsUnique d.handlers × IsUnique d.timed_handlers
handlers-IsUnique md5 user fuel w c d e r =
    let v = Reach-IsWaiting md5 user fuel (xmpp_conn_new-IsNew w (some c) e) r in
    (v.unique, v.unique_timers)
