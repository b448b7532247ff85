-- ===== src/Jid/Runs.antt =====
-- Addresses of xmpp-jid.c: the theorems' instances.
use imcore.Prelude.{◌≡◌, refl, arith, ◌++◌, ◌∷◌, none, some, true}
use imcore.Prelude.Text.{codes}
use imcore.Jid.{
  slash, allocated, node_part, resource_part, xmpp_jid_new, xmpp_jid_node, xmpp_jid_domain,
}
use imcore.Jid.Parts.{Reads, jid_with_node, jid_without_node, jid_confused}

jid_with_node_example :
    Reads (codes "joe@im.org/home/1") (some (codes "joe")) (codes "im.org") (some (codes "home/1"))
unfolding xmpp_jid_new allocated node_part resource_part
jid_with_node_example =
    jid_with_node (codes "joe") (codes "im.org") (some (codes "home/1")) (codes "joe@im.org/home/1")
      (omega arith) (omega arith) (omega arith) refl

jid_without_node_example : Reads (codes "im.org/x") none (codes "im.org") (some (codes "x"))
unfolding xmpp_jid_new allocated node_part resource_part
jid_without_node_example =
    jid_without_node (codes "im.org") (some (codes "x")) (codes "im.org/x") (omega arith)
      (omega arith) (omega arith) refl

jid_confused_example :
    (xmpp_jid_node true (codes "im.org/joe@home") ≡ some (codes "im.org" ++ slash ∷ codes "joe"))
    × (xmpp_jid_domain true (codes "im.org/joe@home") ≡ some (codes "home"))
unfolding xmpp_jid_new allocated node_part resource_part
jid_confused_example =
    jid_confused (codes "im.org") (codes "joe") (codes "home") (codes "im.org/joe@home")
      (omega arith) (omega arith) (omega arith) refl
