-- ===== src/Jid/Parts.antt =====
-- xmpp-jid.c: an address that is put together is taken apart into its parts.
use imcore.Prelude.{
  ℕ, ◌≡◌, ◌≢◌, refl, arith, ap, ◌<◌, length, length-append, List, [], ◌∷◌, ◌++◌, Option, none, some,
  true, ◌∙◌,
}
use imcore.Prelude.{All-append, append_assoc, append-nil, take}
use imcore.Prelude.{sym}
use mathlib.Core.Option.{some-injective}
use imcore.Prelude.Search.{Free, strchr-Free, strchr-append, take-append, drop_after, take_all}
use imcore.Prelude.Text.{strdup_full}
use imcore.Jid.{at_sign, slash, allocated, node_part, resource_part, xmpp_jid_new, xmpp_jid_bare}
use imcore.Jid.{xmpp_jid_node, domain_start, domain_end, xmpp_jid_domain, xmpp_jid_resource}

-- The parts of a text, as the four functions read them.
pub record Reads (jid : List ℕ) (n : Option (List ℕ)) (d : List ℕ) (r : Option (List ℕ))
    : Type 0 where
  pub node : xmpp_jid_node true jid ≡ n
  pub domain : xmpp_jid_domain true jid ≡ some d
  pub resource : xmpp_jid_resource true jid ≡ r
  pub bare : xmpp_jid_bare true jid ≡ xmpp_jid_new true n (some d) none

-- What stands before the resource, if there is one.
cut-slash :
    (front : List ℕ) (resource : Option (List ℕ))
    → Free slash front
    → 0 < length (front ++ resource_part resource)
    → (xmpp_jid_resource true (front ++ resource_part resource) ≡ resource)
      × (xmpp_jid_bare true (front ++ resource_part resource) ≡ some front)
unfolding xmpp_jid_resource xmpp_jid_bare resource_part allocated
cut-slash front none h full =
    let q : length (front ++ []) ≡ length front = ap length (append-nil front) in
    rw (append-nil front) (ground (arith, strchr-Free slash front h, strdup_full front, q))
cut-slash front (some r) h full =
    ground (
      arith,
      strchr-append slash front r h,
      drop_after front slash r,
      take-append front (slash ∷ r),
    )

domain_cut :
    (domain : List ℕ) (resource : Option (List ℕ))
    → Free slash domain
    → take (domain_end (domain ++ resource_part resource)) (domain ++ resource_part resource)
      ≡ domain
unfolding domain_end resource_part
domain_cut domain none h =
    rw (append-nil domain) (ground (arith, strchr-Free slash domain h, take_all domain))
domain_cut domain (some r) h =
    ground (arith, strchr-append slash domain r h, take-append domain (slash ∷ r))

at_cut :
    (front rest : List ℕ)
    → Free at_sign front
    → (xmpp_jid_node true (front ++ at_sign ∷ rest) ≡ some front)
      × (domain_start (front ++ at_sign ∷ rest) ≡ rest)
unfolding xmpp_jid_node domain_start allocated
at_cut front rest h = ground (
  arith,
  strchr-append at_sign front rest h,
  drop_after front at_sign rest,
  take-append front (at_sign ∷ rest),
)

at_none :
    (jid : List ℕ) → Free at_sign jid → (xmpp_jid_node true jid ≡ none) × (domain_start jid ≡ jid)
unfolding xmpp_jid_node domain_start
at_none jid h = ground (arith, strchr-Free at_sign jid h)

domain_of :
    (jid domain : List ℕ) (resource : Option (List ℕ))
    → Free slash domain
    → domain_start jid ≡ domain ++ resource_part resource
    → xmpp_jid_domain true jid ≡ some domain
unfolding xmpp_jid_domain allocated
domain_of jid domain resource h e = rw (e, domain_cut domain resource h) refl

-- The text as three parts, and as what stands before the resource.
regroup :
    (node domain : List ℕ) (resource : Option (List ℕ))
    → (node_part (some node) ++ (domain ++ resource_part resource)
        ≡ (node ++ at_sign ∷ domain) ++ resource_part resource)
      × ((node ++ at_sign ∷ domain) ++ resource_part resource
          ≡ node ++ at_sign ∷ (domain ++ resource_part resource))
      × (node_part (some node) ++ (domain ++ resource_part none) ≡ node ++ at_sign ∷ domain)
unfolding node_part resource_part
regroup node domain resource =
    (simp append_assoc refl, simp append_assoc refl, simp (append_assoc, append-nil) refl)

with_node :
    (node domain : List ℕ) (resource : Option (List ℕ))
    → Free at_sign node
    → Free slash node
    → Free slash domain
    → Reads ((node ++ at_sign ∷ domain) ++ resource_part resource) (some node) domain resource
with_node node domain resource n s d =
    let (_, e, b) = regroup node domain resource in
    let front =
      All-append (λ x. x ≢ slash) node (at_sign ∷ domain) s ((λ q. absurd (omega arith)), d) in
    let (r, bare) = cut-slash (node ++ at_sign ∷ domain) resource front (full resource) in
    record {
      node = rw e (at_cut node (domain ++ resource_part resource) n).0;
      domain =
          domain_of _ domain resource d (rw e (at_cut node (domain ++ resource_part resource) n).1);
      resource = r;
      bare = bare ∙ unfold xmpp_jid_new allocated in rw b refl;
    }
  where
    full : (r : Option (List ℕ)) → 0 < length ((node ++ at_sign ∷ domain) ++ resource_part r)
    full r = omega (
      arith,
      length-append (node ++ at_sign ∷ domain) (resource_part r),
      length-append node (at_sign ∷ domain),
    )

-- With a node: if the node has neither `@` nor `/` and the domain no `/`, the address is read back.
pub jid_with_node :
    (node domain : List ℕ) (resource : Option (List ℕ)) (jid : List ℕ)
    → Free at_sign node
    → Free slash node
    → Free slash domain
    → xmpp_jid_new true (some node) (some domain) resource ≡ some jid
    → Reads jid (some node) domain resource
unfolding xmpp_jid_new allocated
jid_with_node node domain resource jid n s d e =
    rw (← some-injective _ _ e, (regroup node domain resource).0)
      (with_node node domain resource n s d)

-- Without a node: if the domain has neither `@` nor `/`, the resource no `@`, and the address is not empty,
-- it is read back.
pub jid_without_node :
    (domain : List ℕ) (resource : Option (List ℕ)) (jid : List ℕ)
    → Free slash domain
    → Free at_sign (domain ++ resource_part resource)
    → 0 < length (domain ++ resource_part resource)
    → xmpp_jid_new true none (some domain) resource ≡ some jid
    → Reads jid none domain resource
unfolding xmpp_jid_new allocated node_part
jid_without_node domain resource jid s d full e =
    let (none_there, start) = at_none (domain ++ resource_part resource) d in
    let (r, bare) = cut-slash domain resource s full in
    rw (← some-injective _ _ e) (record {
      node = none_there;
      domain = domain_of _ domain resource s start;
      resource = r;
      bare = bare ∙ unfold resource_part in rw (append-nil domain) refl;
    })

-- The node is searched in the whole text: without a node, an `@` in the resource makes the domain and
-- the resource up to it the node, and what follows it the domain.
pub jid_confused :
    (domain user host : List ℕ) (jid : List ℕ)
    → Free at_sign domain
    → Free at_sign user
    → Free slash host
    → xmpp_jid_new true none (some domain) (some (user ++ at_sign ∷ host)) ≡ some jid
    → (xmpp_jid_node true jid ≡ some (domain ++ slash ∷ user))
      × (xmpp_jid_domain true jid ≡ some host)
unfolding xmpp_jid_new allocated node_part resource_part
jid_confused domain user host jid d u h e =
    let front =
      All-append (λ x. x ≢ at_sign) domain (slash ∷ user) d ((λ q. absurd (omega arith)), u) in
    let (n, start) = at_cut (domain ++ slash ∷ user) host front in
    rw (← some-injective _ _ e, ← append_assoc domain (slash ∷ user) (at_sign ∷ host))
      (n, domain_of _ host none h (start ∙ sym (append-nil host)))
