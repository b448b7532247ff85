-- ===== src/Conn/Quiet.antt =====
-- xmpp-auth.c: reading the features keeps a connection waiting that has not been authenticated.
use imcore.Prelude.{Bool, true, false}
use imcore.Prelude.{if◌then◌else◌, ◌||◌}
use imcore.Prelude.{Ensures, >>=-Ensures, ok-Ensures, if-Ensures}
use imcore.Prelude.Text.{codes}
use imcore.Stanza.Tree.{Stanza, Children, nil, child, xmpp_stanza_get_name_ptr}
use imcore.Stanza.Children.{xmpp_stanza_get_text_ptr}
use imcore.Conn.{Conn}
use imcore.Conn.Stream.{}
use imcore.Conn.Features.{
  read_features, read_tls, offers, offered, take_mechanisms, take_mechanism, take_methods,
  take_method, strcmp, stricmp, ns_tls, ns_sasl, ns_compression,
}
use imcore.Conn.Waiting.{IsWaiting}

-- The features change only the flags that they are about.
take_mechanism-IsWaiting :
    (s : Stanza) (c : Conn) → IsWaiting c → Ensures (take_mechanism s c) IsWaiting
unfolding take_mechanism
take_mechanism-IsWaiting s c v =
    >>=-Ensures IsWaiting (strcmp (xmpp_stanza_get_name_ptr s) (codes "mechanism")) _ λ hit _.
      if-Ensures IsWaiting hit _ _
        (>>=-Ensures IsWaiting (stricmp (xmpp_stanza_get_text_ptr s) (codes "PLAIN")) _ λ p _.
          >>=-Ensures IsWaiting (stricmp (xmpp_stanza_get_text_ptr s) (codes "DIGEST-MD5")) _
            λ d _. ok-Ensures IsWaiting _ (pick p d))
        (ok-Ensures IsWaiting c v)
  where
    pick :
        (p d : Bool)
        → IsWaiting (
            if p
            then record c { sasl_plain_mask = true }
            else if d
            then record c { sasl_digest_mask = true }
            else c)
    pick true d = v
    pick false true = v
    pick false false = v

take_mechanisms-IsWaiting :
    (cs : Children) (c : Conn) → IsWaiting c → Ensures (take_mechanisms cs c) IsWaiting
unfolding take_mechanisms
take_mechanisms-IsWaiting nil c v = ok-Ensures IsWaiting c v
take_mechanisms-IsWaiting (child s cs) c v =
    >>=-Ensures IsWaiting (take_mechanism s c) _
      λ d e. take_mechanisms-IsWaiting cs d (take_mechanism-IsWaiting s c v d e)

take_method-IsWaiting : (s : Stanza) (c : Conn) → IsWaiting c → Ensures (take_method s c) IsWaiting
unfolding take_method
take_method-IsWaiting s c v =
    >>=-Ensures IsWaiting (strcmp (xmpp_stanza_get_name_ptr s) (codes "method")) _ λ hit _.
      if-Ensures IsWaiting hit _ _
        (>>=-Ensures IsWaiting (stricmp (xmpp_stanza_get_text_ptr s) (codes "zlib")) _
          λ z _. ok-Ensures IsWaiting _ (pick z))
        (ok-Ensures IsWaiting c v)
  where
    pick : (z : Bool) → IsWaiting (if z then record c { zlib_support = true } else c)
    pick true = v
    pick false = v

take_methods-IsWaiting :
    (cs : Children) (c : Conn) → IsWaiting c → Ensures (take_methods cs c) IsWaiting
unfolding take_methods
take_methods-IsWaiting nil c v = ok-Ensures IsWaiting c v
take_methods-IsWaiting (child s cs) c v =
    >>=-Ensures IsWaiting (take_method s c) _
      λ d e. take_methods-IsWaiting cs d (take_method-IsWaiting s c v d e)

read_tls-IsWaiting : (s : Stanza) (c : Conn) → IsWaiting c → Ensures (read_tls s c) IsWaiting
unfolding read_tls
read_tls-IsWaiting s c v =
    if-Ensures IsWaiting (c.secured || c.tls_disabled) _ _ (ok-Ensures IsWaiting c v) (
      >>=-Ensures IsWaiting (offers s (codes "starttls") ns_tls) _
        λ hit _. ok-Ensures IsWaiting _ (pick hit))
  where
    pick : (hit : Bool) → IsWaiting (if hit then record c { tls_support = true } else c)
    pick true = v
    pick false = v

pub read_features-IsWaiting :
    (s : Stanza) (c : Conn) → IsWaiting c → Ensures (read_features s c) IsWaiting
unfolding read_features
read_features-IsWaiting s c v = >>=-Ensures IsWaiting (read_tls s cleared) _ λ c1 e1.
    >>=-Ensures IsWaiting (offered s (codes "mechanisms") ns_sasl) _ λ mechs _.
      >>=-Ensures IsWaiting (take_mechanisms mechs c1) _ λ c2 e2.
        >>=-Ensures IsWaiting (offered s (codes "compression") ns_compression) _ λ methods _.
          take_methods-IsWaiting methods c2
            (take_mechanisms-IsWaiting mechs c1 (read_tls-IsWaiting s cleared v c1 e1) c2 e2)
  where
    cleared : Conn
    cleared = record c {
      tls_support = false;
      sasl_plain_mask = false;
      sasl_digest_mask = false;
      zlib_support = false;
    }
