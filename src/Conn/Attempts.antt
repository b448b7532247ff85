-- ===== src/Conn/Attempts.antt =====
-- xmpp-auth.c: how often a server can make the client try to log in.
use imcore.Prelude.{ℕ, suc, ◌+◌, ◌≡◌, refl, ap, ◌∙◌, arith, Bool, true, false, List, not}
use imcore.Prelude.{Option, none, some, if◌then◌else◌, ◌&&◌, ◌⊎◌, inl, inr}
use imcore.Prelude.{Run, ok, Ensures, >>=-Ensures, ok-Ensures, test-Ensures}
use imcore.Prelude.Text.{codes}
use imcore.Stanza.Tree.{Stanza, xmpp_stanza_new}
use imcore.Jid.{xmpp_jid_node}
use imcore.Sasl.Digest.{not_null}
use imcore.Conn.{Conn, World, HandlistItem, handle_digestmd5_challenge, handle_sasl_result, Handler}
use imcore.Conn.Handlers.{handler_add, handler_add_with, check_handler_exist, copies}
use imcore.Conn.Stream.{xmpp_send, xmpp_disconnect}
use imcore.Conn.Features.{ns_sasl}
use imcore.Conn.Auth.{
  or_disconnect, make_sasl_auth, plain_text, with_child_text, do_auth, do_digest, do_plain,
}
use imcore.Conn.Frame.{xmpp_send-Frame}

-- The mechanisms that are still to be tried.
unfoldable pub untried : Conn → ℕ
untried c = (if c.sasl_digest_mask then 1 else 0) + (if c.sasl_plain_mask then 1 else 0)

module _ (w : World) (c : Conn) where
  -- What one round of the authentication is: a mechanism is used up, or the client hangs up.
  abbrev pub Tried : Conn → Type 0
  Tried d = (suc (untried d) ≡ untried c) ⊎ (xmpp_disconnect w c ≡ ok d)

  or_disconnect-Tried {ℓ} :
      {A : Type ℓ} (o : Option A) (next : A → Run Conn)
      → ((a : A) → Ensures (next a) Tried)
      → Ensures (or_disconnect w c o next) Tried
  unfolding or_disconnect
  or_disconnect-Tried none next k d e = inr e
  or_disconnect-Tried (some a) next k d e = k a d e

  added-masks :
      (h : Handler) (ns mechanism : Option (List ℕ))
      → let d = handler_add w c h ns none none mechanism in
        (d.sasl_digest_mask ≡ c.sasl_digest_mask) × (d.sasl_plain_mask ≡ c.sasl_plain_mask)
  unfolding handler_add handler_add_with
  added-masks h ns mechanism =
      pick (check_handler_exist c.handlers h)
        (w.alloc 0 && copies (w.alloc 1) ns && copies (w.alloc 2) none && copies (w.alloc 3) none) _
        _
    where
      pick :
          (a b : Bool) (hs : List HandlistItem) (n : ℕ)
          → let d = if a then c else if b then record c { handlers = hs; next = n } else c in
            (d.sasl_digest_mask ≡ c.sasl_digest_mask) × (d.sasl_plain_mask ≡ c.sasl_plain_mask)
      pick true b hs n = (refl, refl)
      pick false true hs n = (refl, refl)
      pick false false hs n = (refl, refl)

  -- Sending what was asked for leaves the two bits alone.
  sent-masks :
      (h : Handler) (ns mechanism : Option (List ℕ)) (s : Stanza)
      → Ensures
          (xmpp_send w (handler_add w c h ns none none mechanism) s)
          (λ d. (d.sasl_digest_mask ≡ c.sasl_digest_mask) × (d.sasl_plain_mask ≡ c.sasl_plain_mask))
  sent-masks h ns mechanism s d e =
      let added = handler_add w c h ns none none mechanism in
      let f = xmpp_send-Frame added w s d e in
      let (a, b) = added-masks h ns mechanism in
      (ap (λ (x : Conn). x.sasl_digest_mask) f ∙ a, ap (λ (x : Conn). x.sasl_plain_mask) f ∙ b)

  do_digest-Tried : c.sasl_digest_mask ≡ true → Ensures (do_digest w c) Tried
  unfolding do_digest untried
  do_digest-Tried m = >>=-Ensures Tried (make_sasl_auth w (codes "DIGEST-MD5")) _ λ made _.
      or_disconnect-Tried made _ λ s.
        let added = handler_add w c handle_digestmd5_challenge (some ns_sasl) none none none in
        >>=-Ensures Tried (xmpp_send w added s) _ λ d e.
          ok-Ensures Tried (record d { sasl_digest_mask = false })
            (inl (spent d (sent-masks handle_digestmd5_challenge (some ns_sasl) none s d e).1))
    where
      spent :
          (d : Conn)
          → d.sasl_plain_mask ≡ c.sasl_plain_mask
          → suc (untried (record d { sasl_digest_mask = false })) ≡ untried c
      spent d p = rw (p, m) (omega arith)

  do_plain-Tried :
      c.sasl_digest_mask ≡ false → c.sasl_plain_mask ≡ true → Ensures (do_plain w c) Tried
  unfolding do_plain untried
  do_plain-Tried n m = >>=-Ensures Tried (make_sasl_auth w (codes "PLAIN")) _ λ made _.
      or_disconnect-Tried made _ λ auth.
        or_disconnect-Tried (xmpp_stanza_new (w.alloc 42)) _ λ bare.
          >>=-Ensures Tried (not_null c.jid) _ λ jid _.
            or_disconnect-Tried (xmpp_jid_node (w.alloc 45) jid) _ λ node.
              >>=-Ensures Tried (plain_text w c node) _ λ text _. or_disconnect-Tried text _ λ str.
                let mechanism = some (codes "PLAIN") in
                let added = handler_add w c handle_sasl_result (some ns_sasl) none none mechanism in
                >>=-Ensures Tried (xmpp_send w added (with_child_text auth bare str)) _ λ d e.
                  ok-Ensures Tried (record d { sasl_plain_mask = false })
                    (inl (spent d (sent-masks handle_sasl_result (some ns_sasl) mechanism _ d e).0))
    where
      spent :
          (d : Conn)
          → d.sasl_digest_mask ≡ c.sasl_digest_mask
          → suc (untried (record d { sasl_plain_mask = false })) ≡ untried c
      spent d p = rw (p, n, m) (omega arith)

  -- Where TLS is not to be started first, each round of SASL uses up one of the mechanisms
  -- that are left to be tried, or is nothing but the request to disconnect.
  pub do_auth-Tried :
      c.tls_support && not c.secured ≡ false → c.authenticated ≡ false → Ensures (do_auth w c) Tried
  unfolding do_auth
  do_auth-Tried t a =
      test-Ensures Tried (c.tls_support && not c.secured) _ _ (λ e. absurd (cc (e, t)))
        λ _.
          test-Ensures Tried c.authenticated _ _ (λ e. absurd (cc (e, a)))
            λ _.
              test-Ensures Tried c.sasl_digest_mask _ _ do_digest-Tried
                λ n. test-Ensures Tried c.sasl_plain_mask _ _ (do_plain-Tried n) λ _. λ d e. inr e
