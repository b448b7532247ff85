-- ===== src/Stanza/Children.antt =====
-- xmpp-stanza.c: a stanza's children, and the search among them.
use imcore.Prelude.{
  ℕ, Option, none, some, Bool, true, false, if◌then◌else◌, List, Run, ok, fault, null_pointer,
  ◌>>=◌,
}
use imcore.Prelude.Text.{str_eq}
use imcore.Stanza.Tree.{
  Stanza, stanza, Children, nil, child, unknown_stanza, tag_stanza, text_stanza,
}
use imcore.Stanza.Tree.{
  Code, eok, xmpp_stanza_clone, xmpp_stanza_is_tag, xmpp_stanza_get_name_ptr, xmpp_stanza_get_ns,
}

-- `while (s->next) s = s->next; s->next = child`
unfoldable pub append_child : Children → Stanza → Children
append_child nil s = child s nil
append_child (child c cs) s = child c (append_child cs s)

unfoldable pub xmpp_stanza_add_child : Stanza → Stanza → Code × Stanza
xmpp_stanza_add_child (stanza ref type text attributes children) s =
    (eok, stanza ref type text attributes (append_child children (xmpp_stanza_clone s)))

unfoldable pub xmpp_stanza_get_children : Stanza → Children
xmpp_stanza_get_children (stanza ref type text attributes children) = children

-- `strcmp` on a name that is NULL
unfoldable pub same_name : List ℕ → Option (List ℕ) → Run Bool
same_name name none = fault null_pointer
same_name name (some n) = ok (str_eq name n)

unfoldable pub is_named : Stanza → List ℕ → Run Bool
is_named s name =
    if xmpp_stanza_is_tag (some s) then same_name name (xmpp_stanza_get_name_ptr s) else ok false

unfoldable pub find_name : Children → List ℕ → Run (Option Stanza)
find_name nil name = ok none
find_name (child c cs) name =
    is_named c name >>= λ b. elim b [ true ↦ ok (some c) | false ↦ find_name cs name ]

unfoldable pub xmpp_stanza_get_child_by_name : Stanza → List ℕ → Run (Option Stanza)
xmpp_stanza_get_child_by_name (stanza ref type text attributes children) name =
    find_name children name

unfoldable pub has_ns : List ℕ → Option (List ℕ) → Bool
has_ns ns none = false
has_ns ns (some n) = str_eq ns n

unfoldable pub find_ns : Children → List ℕ → Run (Option Stanza)
find_ns nil ns = ok none
find_ns (child c cs) ns =
    xmpp_stanza_get_ns c >>= λ o. elim (has_ns ns o) [ true ↦ ok (some c) | false ↦ find_ns cs ns ]

unfoldable pub xmpp_stanza_get_child_by_ns : Stanza → List ℕ → Run (Option Stanza)
xmpp_stanza_get_child_by_ns (stanza ref type text attributes children) ns = find_ns children ns

unfoldable pub text_of_first : Children → Option (List ℕ)
text_of_first nil = none
text_of_first (child (stanza ref text_stanza text attributes children) cs) = text
text_of_first (child (stanza ref tag_stanza text attributes children) cs) = none
text_of_first (child (stanza ref unknown_stanza text attributes children) cs) = none

unfoldable pub xmpp_stanza_get_text_ptr : Stanza → Option (List ℕ)
xmpp_stanza_get_text_ptr (stanza ref tag_stanza text attributes children) = text_of_first children
xmpp_stanza_get_text_ptr (stanza ref text_stanza text attributes children) = text
xmpp_stanza_get_text_ptr (stanza ref unknown_stanza text attributes children) = none
