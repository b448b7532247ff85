-- ===== src/Conn/Secret.antt =====
-- xmpp-auth.c: what a client does before TLS does not depend on its password.
use imcore.Prelude.{ℕ, ◌≡◌, refl, ap, sym, ◌∙◌, Bool, true, false, List}
use imcore.Prelude.{Option, if◌then◌else◌}
use imcore.Prelude.{Run, ok, fault, ◌>>=◌, >>=-assoc, Ensures, >>=-Ensures}
use imcore.Prelude.{ok-Ensures, if-Ensures}
use imcore.Prelude.Text.{codes}
use imcore.Stanza.Tree.{Stanza, Children, nil, child, xmpp_stanza_get_name_ptr}
use imcore.Stanza.Children.{xmpp_stanza_get_text_ptr}
use imcore.Conn.{Conn, World}
use imcore.Conn.Handlers.{}
use imcore.Conn.Stream.{}
use imcore.Conn.Features.{
  strcmp, stricmp, offers, offered, take_mechanism, take_mechanisms, take_method, take_methods,
  read_tls, read_features, ns_tls, ns_sasl, ns_compression,
}
use imcore.Conn.Auth.{do_auth, on_features}
use imcore.Conn.Commutes.{
  skipped, P, then-Commutes, do_auth-Commutes, take_mechanisms-Commutes, take_methods-Commutes,
}

-- TLS is to be started first.
abbrev BeforeTls : Conn → Type 0
BeforeTls c = (c.tls_support ≡ true) × (c.secured ≡ false)

take_mechanism-BeforeTls :
    (s : Stanza) (c : Conn) → BeforeTls c → Ensures (take_mechanism s c) BeforeTls
unfolding take_mechanism
take_mechanism-BeforeTls s c v =
    >>=-Ensures BeforeTls (strcmp (xmpp_stanza_get_name_ptr s) (codes "mechanism")) _ λ hit _.
      if-Ensures BeforeTls hit _ _
        (>>=-Ensures BeforeTls (stricmp (xmpp_stanza_get_text_ptr s) (codes "PLAIN")) _ λ x _.
          >>=-Ensures BeforeTls (stricmp (xmpp_stanza_get_text_ptr s) (codes "DIGEST-MD5")) _
            λ y _. ok-Ensures BeforeTls _ (pick x y))
        (ok-Ensures BeforeTls c v)
  where
    pick :
        (x y : Bool)
        → BeforeTls (
            if x
            then record c { sasl_plain_mask = true }
            else if y
            then record c { sasl_digest_mask = true }
            else c)
    pick true y = v
    pick false true = v
    pick false false = v

take_mechanisms-BeforeTls :
    (cs : Children) (c : Conn) → BeforeTls c → Ensures (take_mechanisms cs c) BeforeTls
unfolding take_mechanisms
take_mechanisms-BeforeTls nil c v = ok-Ensures BeforeTls c v
take_mechanisms-BeforeTls (child s cs) c v =
    >>=-Ensures BeforeTls (take_mechanism s c) _
      λ d e. take_mechanisms-BeforeTls cs d (take_mechanism-BeforeTls s c v d e)

take_method-BeforeTls : (s : Stanza) (c : Conn) → BeforeTls c → Ensures (take_method s c) BeforeTls
unfolding take_method
take_method-BeforeTls s c v =
    >>=-Ensures BeforeTls (strcmp (xmpp_stanza_get_name_ptr s) (codes "method")) _ λ hit _.
      if-Ensures BeforeTls hit _ _
        (>>=-Ensures BeforeTls (stricmp (xmpp_stanza_get_text_ptr s) (codes "zlib")) _
          λ z _. ok-Ensures BeforeTls _ (pick z))
        (ok-Ensures BeforeTls c v)
  where
    pick : (z : Bool) → BeforeTls (if z then record c { zlib_support = true } else c)
    pick true = v
    pick false = v

take_methods-BeforeTls :
    (cs : Children) (c : Conn) → BeforeTls c → Ensures (take_methods cs c) BeforeTls
unfolding take_methods
take_methods-BeforeTls nil c v = ok-Ensures BeforeTls c v
take_methods-BeforeTls (child s cs) c v =
    >>=-Ensures BeforeTls (take_method s c) _
      λ d e. take_methods-BeforeTls cs d (take_method-BeforeTls s c v d e)

module _ (s : Stanza) where
  rest_of_features : Conn → Run Conn
  rest_of_features c1 = do
    mechs ← offered s (codes "mechanisms") ns_sasl
    c2 ← take_mechanisms mechs c1
    methods ← offered s (codes "compression") ns_compression
    take_methods methods c2

  rest-BeforeTls : (d : Conn) → BeforeTls d → Ensures (rest_of_features d) BeforeTls
  unfolding rest_of_features
  rest-BeforeTls d v = >>=-Ensures BeforeTls (offered s (codes "mechanisms") ns_sasl) _ λ mechs _.
      >>=-Ensures BeforeTls (take_mechanisms mechs d) _ λ d2 e.
        >>=-Ensures BeforeTls (offered s (codes "compression") ns_compression) _
          λ methods _. take_methods-BeforeTls methods d2 (take_mechanisms-BeforeTls mechs d v d2 e)

  rest-Commutes :
      (p : Option (List ℕ)) (d : Conn)
      → rest_of_features (P p d) ≡ (rest_of_features d >>= λ e. ok (P p e))
  unfolding rest_of_features
  rest-Commutes p d = pick (offered s (codes "mechanisms") ns_sasl)
    where
      methods : Conn → Run Conn
      methods x = offered s (codes "compression") ns_compression >>= λ ms. take_methods ms x

      methods-Commutes : (x : Conn) → methods (P p x) ≡ (methods x >>= λ e. ok (P p e))
      methods-Commutes x = go (offered s (codes "compression") ns_compression)
        where
          go :
              (m : Run Children)
              → (m >>= λ ms. take_methods ms (P p x))
                ≡ (m >>= (λ ms. take_methods ms x) >>= λ e. ok (P p e))
          go (ok ms) = take_methods-Commutes p ms x
          go (fault e) = refl

      pick :
          (m : Run Children)
          → (m >>= λ ms. take_mechanisms ms (P p d) >>= methods)
            ≡ (m >>= (λ ms. take_mechanisms ms d >>= methods) >>= λ e. ok (P p e))
      pick (ok ms) =
          then-Commutes p (take_mechanisms ms) methods d (take_mechanisms-Commutes p ms d)
            (λ x _. methods-Commutes x)
      pick (fault e) = refl

read_tls_starts :
    (s : Stanza) (c : Conn)
    → c.secured ≡ false
    → c.tls_disabled ≡ false
    → offers s (codes "starttls") ns_tls ≡ ok true
    → read_tls s c ≡ ok (record c { tls_support = true })
unfolding read_tls
read_tls_starts s c u n o =
    skipped c.secured c.tls_disabled _ _ u n
    ∙ ap (λ (m : Run Bool). m >>= λ hit. ok (if hit then record c { tls_support = true } else c)) o

-- What is kept of the connection when TLS turns out to be on offer.
starting : Conn → Conn
starting c = record c {
  tls_support = true;
  sasl_plain_mask = false;
  sasl_digest_mask = false;
  zlib_support = false;
}

-- The handler of the features is not kept.
abbrev ended : Conn → Run (Bool × Conn)
ended d = ok (false, d)

on_features_starts :
    (w : World) (s : Stanza) (c : Conn)
    → c.secured ≡ false
    → c.tls_disabled ≡ false
    → offers s (codes "starttls") ns_tls ≡ ok true
    → on_features w c s ≡ (rest_of_features s (starting c) >>= do_auth w >>= ended)
unfolding on_features read_features rest_of_features starting
on_features_starts w s c u n o =
    ap (λ (m : Run Conn). m >>= rest_of_features s >>= finish) (read_tls_starts s cleared u n o)
    ∙ sym (>>=-assoc (rest_of_features s (starting c)) (do_auth w) ended)
  where
    cleared : Conn
    cleared = record c {
      tls_support = false;
      sasl_plain_mask = false;
      sasl_digest_mask = false;
      zlib_support = false;
    }

    finish : Conn → Run (Bool × Conn)
    finish x = do_auth w x >>= ended

labelled :
    (p : Option (List ℕ)) (m : Run Conn)
    → (m >>= (λ d. ok (P p d)) >>= ended) ≡ (m >>= ended >>= λ r. ok (r.0, P p r.1))
labelled p (ok d) = refl
labelled p (fault e) = refl

-- When a server offers TLS, and neither side has it running or switched off, what the client does
-- about the features is the same whatever its password is: the same handlers, the same bytes sent
-- and the same end, with only the password itself another.
pub on_features_hides_password :
    (p : Option (List ℕ)) (w : World) (s : Stanza) (c : Conn)
    → c.secured ≡ false
    → c.tls_disabled ≡ false
    → offers s (codes "starttls") ns_tls ≡ ok true
    → on_features w (P p c) s ≡ (on_features w c s >>= λ r. ok (r.0, P p r.1))
unfolding starting
on_features_hides_password p w s c u n o =
    on_features_starts w s (P p c) u n o
    ∙ (ap (λ (m : Run Conn). m >>= ended)
          (then-Commutes p (rest_of_features s) (do_auth w) (starting c)
            (rest-Commutes s p (starting c))
            (λ d e.
              let (t, v) = rest-BeforeTls s (starting c) (refl, u) d e in
              do_auth-Commutes p w d t v))
        ∙ (labelled p (rest_of_features s (starting c) >>= do_auth w)
            ∙ ap (λ (m : Run (Bool × Conn)). m >>= λ r. ok (r.0, P p r.1))
                (sym (on_features_starts w s c u n o))))
