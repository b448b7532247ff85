-- ===== src/Conn/Commutes.antt =====
-- xmpp-conn.c and xmpp-auth.c: runs that do the same whatever the password is. `P` puts another
-- password into a connection, and a run commutes with it.
use imcore.Prelude.{ℕ, ◌≡◌, refl, ap, sym, ◌∙◌, Bool, true, false, List, arith}
use imcore.Prelude.{Option, none, some, if◌then◌else◌, ◌&&◌, ◌||◌, not, leb, length, take}
use imcore.Prelude.{Run, ok, fault, ◌>>=◌, >>=-assoc}
use imcore.Prelude.Text.{codes}
use imcore.Stanza.Tree.{Stanza, Children, nil, child, xmpp_stanza_get_name_ptr}
use imcore.Stanza.Children.{xmpp_stanza_get_text_ptr}
use imcore.Stanza.Render.{Answer, value, error, xmpp_stanza_to_text}
use imcore.Conn.{Conn, World, Handler, handle_proceedtls, disconnect_cleanup}
use imcore.Conn.Handlers.{
  handler_add, handler_add_with, handler_add_timed, timed_handler_add_with, new_item,
  xmpp_timed_handler_delete,
}
use imcore.Conn.Stream.{
  conn_do_disconnect, free_buffer, xmpp_send_raw, xmpp_send_raw_string, xmpp_send, xmpp_disconnect,
  is_connected, is_disconnected,
}
use imcore.Conn.Features.{
  strcmp, stricmp, take_mechanism, take_mechanisms, take_method, take_methods, ns_tls,
}
use imcore.Conn.Auth.{or_disconnect, make_starttls, do_starttls, do_auth}

-- A test that is known to go one way.
taken {ℓ} :
    {A : Type ℓ} (a b : Bool) (x y : A) → a ≡ true → b ≡ false → (if a && not b then x else y) ≡ x
taken a b x y e f = rw (e, f) refl

pub skipped {ℓ} :
    {A : Type ℓ} (a b : Bool) (x y : A) → a ≡ false → b ≡ false → (if a || b then x else y) ≡ y
skipped a b x y e f = rw (e, f) refl

-- Where TLS is to be started first, `_do_auth` does that and no more.
do_auth_starts_tls :
    (w : World) (c : Conn)
    → c.tls_support ≡ true
    → c.secured ≡ false
    → do_auth w c ≡ do_starttls w c
unfolding do_auth
do_auth_starts_tls w c t u = taken c.tls_support c.secured _ _ t u

module _ (p : Option (List ℕ)) where
  abbrev pub P : Conn → Conn
  P c = record c { pass = p }

  -- The run on the other password ends as the run does.
  abbrev Commutes : (Conn → Run Conn) → Conn → Type 0
  Commutes f c = f (P c) ≡ (f c >>= λ d. ok (P d))

  -- First one run that commutes, then another.
  pub then-Commutes :
      (f g : Conn → Run Conn) (c : Conn)
      → Commutes f c
      → ((d : Conn) → f c ≡ ok d → Commutes g d)
      → (f (P c) >>= g) ≡ (f c >>= g >>= λ d. ok (P d))
  then-Commutes f g c h k = rw h (go (f c) k)
    where
      go :
          (m : Run Conn)
          → ((d : Conn) → m ≡ ok d → Commutes g d)
          → (m >>= (λ d. ok (P d)) >>= g) ≡ (m >>= g >>= λ d. ok (P d))
      go (ok d) k = k d refl
      go (fault e) k = refl

  conn_do_disconnect-Commutes : (c : Conn) → Commutes conn_do_disconnect c
  unfolding conn_do_disconnect xmpp_timed_handler_delete
  conn_do_disconnect-Commutes c = sym (>>=-assoc (free_buffer c.evbuffer) _ _)

  module _ (w : World) where
    xmpp_send_raw-Commutes : (bytes : List ℕ) (c : Conn) → Commutes (λ x. xmpp_send_raw w x bytes) c
    unfolding xmpp_send_raw
    xmpp_send_raw-Commutes bytes c = ground (arith, conn_do_disconnect-Commutes c)

    xmpp_send_raw_string-Commutes :
        (text : List ℕ) (c : Conn) → Commutes (λ x. xmpp_send_raw_string w x text) c
    unfolding xmpp_send_raw_string
    xmpp_send_raw_string-Commutes text c = pick (leb 1024 (length text)) (w.alloc 20)
      where
        pick :
            (a b : Bool)
            → (if a
                then if b then xmpp_send_raw w (P c) text else ok (P c)
                else xmpp_send_raw w (P c) text)
              ≡ ((if a then if b then xmpp_send_raw w c text else ok c else xmpp_send_raw w c text)
                  >>= λ d. ok (P d))
        pick true true = xmpp_send_raw-Commutes text c
        pick true false = refl
        pick false b = xmpp_send_raw-Commutes text c

    xmpp_send-Commutes : (s : Stanza) (c : Conn) → Commutes (λ x. xmpp_send w x s) c
    unfolding xmpp_send
    xmpp_send-Commutes s c =
        pick (is_connected c.state)
          (xmpp_stanza_to_text (w.alloc 21) (w.alloc 22) (w.alloc 23) none s)
      where
        rendered : Conn → Answer (List ℕ × ℕ) → Run Conn
        rendered x r = elim r [ value q ↦ xmpp_send_raw w x (take q.1 q.0) | error code ↦ ok x ]

        pick :
            (a : Bool) (m : Run (Answer (List ℕ × ℕ)))
            → (if a then (m >>= rendered (P c)) else ok (P c))
              ≡ ((if a then (m >>= rendered c) else ok c) >>= λ d. ok (P d))
        pick true (ok (value q)) = xmpp_send_raw-Commutes (take q.1 q.0) c
        pick true (ok (error code)) = refl
        pick true (fault e) = refl
        pick false m = refl

    handler_add_P :
        (h : Handler) (ns : Option (List ℕ)) (c : Conn)
        → handler_add w (P c) h ns none none none ≡ P (handler_add w c h ns none none none)
    unfolding handler_add handler_add_with new_item
    handler_add_P h ns c = ground arith

    timed_add_P :
        (c : Conn)
        → handler_add_timed w (P c) disconnect_cleanup 5 none
          ≡ P (handler_add_timed w c disconnect_cleanup 5 none)
    unfolding handler_add_timed timed_handler_add_with new_item
    timed_add_P c = ground arith

    xmpp_disconnect-Commutes : (c : Conn) → Commutes (xmpp_disconnect w) c
    unfolding xmpp_disconnect
    xmpp_disconnect-Commutes c = pick (is_disconnected c.state)
      where
        pick :
            (a : Bool)
            → (if a
                then ok (P c)
                else (xmpp_send_raw_string w (P c) (codes "</stream:stream>") >>= λ d.
                    ok (handler_add_timed w d disconnect_cleanup 5 none)))
              ≡ ((if a
                    then ok c
                    else (xmpp_send_raw_string w c (codes "</stream:stream>") >>= λ d.
                        ok (handler_add_timed w d disconnect_cleanup 5 none)))
                  >>= λ d. ok (P d))
        pick true = refl
        pick false =
            then-Commutes (λ x. xmpp_send_raw_string w x (codes "</stream:stream>"))
              (λ d. ok (handler_add_timed w d disconnect_cleanup 5 none)) c
              (xmpp_send_raw_string-Commutes (codes "</stream:stream>") c)
              (λ d _. ap ok (timed_add_P d))

    do_starttls-Commutes : (c : Conn) → Commutes (do_starttls w) c
    unfolding do_starttls or_disconnect
    do_starttls-Commutes c = pick (make_starttls w)
      where
        pick :
            (m : Run (Option Stanza))
            → (m >>= λ made. or_disconnect w (P c) made λ s.
                xmpp_send w (handler_add w (P c) handle_proceedtls (some ns_tls) none none none) s)
              ≡ ((m >>= λ made. or_disconnect w c made λ s.
                    xmpp_send w (handler_add w c handle_proceedtls (some ns_tls) none none none) s)
                  >>= λ d. ok (P d))
        pick (ok none) = xmpp_disconnect-Commutes c
        pick (ok (some s)) =
            rw (handler_add_P handle_proceedtls (some ns_tls) c) (
              xmpp_send-Commutes s (handler_add w c handle_proceedtls (some ns_tls) none none none))
        pick (fault e) = refl

    pub do_auth-Commutes :
        (c : Conn) → c.tls_support ≡ true → c.secured ≡ false → Commutes (do_auth w) c
    do_auth-Commutes c t u =
        do_auth_starts_tls w (P c) t u
        ∙ (do_starttls-Commutes c
            ∙ ap (λ (m : Run Conn). m >>= λ d. ok (P d)) (sym (do_auth_starts_tls w c t u)))

  take_mechanism-Commutes : (s : Stanza) (c : Conn) → Commutes (take_mechanism s) c
  unfolding take_mechanism
  take_mechanism-Commutes s c =
      pick (strcmp (xmpp_stanza_get_name_ptr s) (codes "mechanism"))
        (stricmp (xmpp_stanza_get_text_ptr s) (codes "PLAIN"))
        (stricmp (xmpp_stanza_get_text_ptr s) (codes "DIGEST-MD5"))
    where
      marked : Conn → Bool → Bool → Conn
      marked c x y =
          if x
          then record c { sasl_plain_mask = true }
          else if y
          then record c { sasl_digest_mask = true }
          else c

      marked_P : (x y : Bool) → marked (P c) x y ≡ P (marked c x y)
      marked_P true y = refl
      marked_P false true = refl
      marked_P false false = refl

      rest : Conn → Run Bool → Run Bool → Bool → Run Conn
      rest c k n b = if b then (k >>= λ x. n >>= λ y. ok (marked c x y)) else ok c

      pick : (m k n : Run Bool) → (m >>= rest (P c) k n) ≡ (m >>= rest c k n >>= λ d. ok (P d))
      pick (ok true) (ok x) (ok y) = ap ok (marked_P x y)
      pick (ok true) (ok x) (fault e) = refl
      pick (ok true) (fault e) n = refl
      pick (ok false) k n = refl
      pick (fault e) k n = refl

  pub take_mechanisms-Commutes : (cs : Children) (c : Conn) → Commutes (take_mechanisms cs) c
  unfolding take_mechanisms
  take_mechanisms-Commutes nil c = refl
  take_mechanisms-Commutes (child s cs) c =
      then-Commutes (take_mechanism s) (take_mechanisms cs) c (take_mechanism-Commutes s c)
        (λ d _. take_mechanisms-Commutes cs d)

  take_method-Commutes : (s : Stanza) (c : Conn) → Commutes (take_method s) c
  unfolding take_method
  take_method-Commutes s c =
      pick (strcmp (xmpp_stanza_get_name_ptr s) (codes "method"))
        (stricmp (xmpp_stanza_get_text_ptr s) (codes "zlib"))
    where
      rest : Conn → Run Bool → Bool → Run Conn
      rest c k b =
          if b then (k >>= λ z. ok (if z then record c { zlib_support = true } else c)) else ok c

      pick : (m k : Run Bool) → (m >>= rest (P c) k) ≡ (m >>= rest c k >>= λ d. ok (P d))
      pick (ok true) (ok true) = refl
      pick (ok true) (ok false) = refl
      pick (ok true) (fault e) = refl
      pick (ok false) k = refl
      pick (fault e) k = refl

  pub take_methods-Commutes : (cs : Children) (c : Conn) → Commutes (take_methods cs) c
  unfolding take_methods
  take_methods-Commutes nil c = refl
  take_methods-Commutes (child s cs) c =
      then-Commutes (take_method s) (take_methods cs) c (take_method-Commutes s c)
        (λ d _. take_methods-Commutes cs d)
