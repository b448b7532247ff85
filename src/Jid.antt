-- ===== src/Jid.antt =====
-- xmpp-jid.c: addresses `node@domain/resource`. The Boolean of an operation is whether its allocation
-- succeeds; NULL is `none`.
use imcore.Prelude.{
  ℕ, zero, suc, ◌-◌, List, [], ◌∷◌, ◌++◌, Option, none, some, Bool, true, false, length, take, drop,
}
use imcore.Prelude.Text.{strdup}
use imcore.Prelude.Search.{strchr}
pub mod Parts
mod Runs

abbrev pub at_sign : ℕ
at_sign = 64

abbrev pub slash : ℕ
slash = 47

-- `xmpp_alloc` and the copy that follows it.
unfoldable pub allocated : Bool → List ℕ → Option (List ℕ)
allocated true s = some s
allocated false s = none

-- `node@`, and `/resource`
unfoldable pub node_part : Option (List ℕ) → List ℕ
node_part none = []
node_part (some user) = user ++ at_sign ∷ []

unfoldable pub resource_part : Option (List ℕ) → List ℕ
resource_part none = []
resource_part (some resource) = slash ∷ resource

unfoldable pub xmpp_jid_new :
    Bool → Option (List ℕ) → Option (List ℕ) → Option (List ℕ) → Option (List ℕ)
xmpp_jid_new alloc _ none _ = none
xmpp_jid_new alloc user (some domain) resource =
    allocated alloc (node_part user ++ (domain ++ resource_part resource))

unfoldable pub xmpp_jid_bare : Bool → List ℕ → Option (List ℕ)
xmpp_jid_bare alloc jid = elim (strchr slash jid) [
  | none ↦ strdup alloc jid
  | some c ↦ allocated alloc (take c jid)
]

unfoldable pub xmpp_jid_node : Bool → List ℕ → Option (List ℕ)
xmpp_jid_node alloc jid = elim (strchr at_sign jid) [
  | none ↦ none
  | some c ↦ allocated alloc (take c jid)
]

-- The text from `c` on.
unfoldable pub domain_start : List ℕ → List ℕ
domain_start jid = elim (strchr at_sign jid) [ none ↦ jid | some c ↦ drop (suc c) jid ]

unfoldable pub domain_end : List ℕ → ℕ
domain_end c = elim (strchr slash c) [ none ↦ length c | some s ↦ s ]

unfoldable pub xmpp_jid_domain : Bool → List ℕ → Option (List ℕ)
xmpp_jid_domain alloc jid =
    allocated alloc (take (domain_end (domain_start jid)) (domain_start jid))

unfoldable pub xmpp_jid_resource : Bool → List ℕ → Option (List ℕ)
xmpp_jid_resource alloc jid = elim (strchr slash jid) [
  | none ↦ none
  | some c ↦ allocated alloc (drop (suc c) jid)
]
