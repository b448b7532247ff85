-- ===== src/Stanza/Added.antt =====
-- xmpp-stanza.c: the search among the children of a stanza that got one more.
use imcore.Prelude.{
  ◌≡◌, refl, Bool, true, false, Option, none, some, List, ℕ, Run, ok, fault, ◌>>=◌,
}
use imcore.Stanza.Tree.{Stanza, stanza, Children, nil, child, xmpp_stanza_clone}
use imcore.Stanza.Children.{
  append_child, xmpp_stanza_add_child, is_named, find_name, xmpp_stanza_get_child_by_name,
}

-- What is found, or else what the second search finds.
pub or_else : Run (Option Stanza) → Option Stanza → Run (Option Stanza)
or_else m none = m
or_else m (some s) = ok (some s)

found_last :
    (cs : Children) (s : Stanza) (name : List ℕ)
    → find_name (append_child cs s) name
      ≡ (find_name cs name >>= or_else (find_name (child s nil) name))
unfolding append_child or_else find_name
found_last nil s name = refl
found_last (child c cs) s name =
    decide (is_named c name) _ (find_name cs name) (find_name (child s nil) name)
      (found_last cs s name)
  where
    decide :
        (m : Run Bool) (x y z : Run (Option Stanza))
        → x ≡ (y >>= or_else z)
        → (m >>= λ b. elim b [ true ↦ ok (some c) | false ↦ x ])
          ≡ (m >>= (λ b. elim b [ true ↦ ok (some c) | false ↦ y ]) >>= or_else z)
    decide (ok true) x y z e = refl
    decide (ok false) x y z e = e
    decide (fault why) x y z e = refl

-- The search by name among the children of a stanza that got one more finds what it found before, and
-- only where that is nothing it looks at the new child, which has one reference more.
pub get_child_by_name-add_child :
    (s c : Stanza) (name : List ℕ)
    → xmpp_stanza_get_child_by_name (xmpp_stanza_add_child s c).1 name ≡ (
        xmpp_stanza_get_child_by_name s name
        >>= or_else (find_name (child (xmpp_stanza_clone c) nil) name))
unfolding xmpp_stanza_get_child_by_name xmpp_stanza_add_child
get_child_by_name-add_child (stanza ref type text attributes children) c name =
    found_last children (xmpp_stanza_clone c) name
