-- ===== src/Stanza/Tree.antt =====
-- The stanza of xmpp-inl.h, and the operations of xmpp-stanza.c on its type, its text and its attributes.
use imcore.Prelude.{ℕ, ◌+◌, if◌then◌else◌, List, Option, none, some, Bool, true, false}
use imcore.Prelude.{leb, ensure, out_of_bounds, ◌>>◌, Run, ok, ◌>>=◌, length, take}
use imcore.Prelude.Text.{codes, strdup}
use imcore.Hash.{Table, hash_new, hash_get, hash_add}

pub data StanzaType : Type 0 where
  unknown_stanza tag_stanza text_stanza : StanzaType

pub data Code : Type 0 where
  eok emem einvop : Code

abbrev pub Attributes : Type 0
Attributes = Table (List ℕ)

mutual
  pub data Stanza : Type 0 where
    stanza :
        (ref : ℕ) (type : StanzaType) (text : Option (List ℕ)) (attributes : Option Attributes)
        (children : Children)
        → Stanza

  pub data Children : Type 0 where
    nil : Children
    child : Stanza → Children → Children

unfoldable pub xmpp_stanza_new : Bool → Option Stanza
xmpp_stanza_new alloc = if alloc then some (stanza 1 unknown_stanza none none nil) else none

unfoldable pub xmpp_stanza_clone : Stanza → Stanza
xmpp_stanza_clone (stanza ref type text attributes children) =
    stanza (ref + 1) type text attributes children

unfoldable pub xmpp_stanza_is_text : Option Stanza → Bool
xmpp_stanza_is_text (some (stanza ref text_stanza text attributes children)) = true
xmpp_stanza_is_text (some (stanza ref tag_stanza text attributes children)) = false
xmpp_stanza_is_text (some (stanza ref unknown_stanza text attributes children)) = false
xmpp_stanza_is_text none = false

unfoldable pub xmpp_stanza_is_tag : Option Stanza → Bool
xmpp_stanza_is_tag (some (stanza ref tag_stanza text attributes children)) = true
xmpp_stanza_is_tag (some (stanza ref text_stanza text attributes children)) = false
xmpp_stanza_is_tag (some (stanza ref unknown_stanza text attributes children)) = false
xmpp_stanza_is_tag none = false

-- A failed copy leaves the stanza without a name, and the answer is still `XMPP_EOK`.
unfoldable pub xmpp_stanza_set_name : Bool → Stanza → List ℕ → Code × Stanza
xmpp_stanza_set_name alloc (stanza ref text_stanza text attributes children) name =
    (einvop, stanza ref text_stanza text attributes children)
xmpp_stanza_set_name alloc (stanza ref tag_stanza text attributes children) name =
    (eok, stanza ref tag_stanza (strdup alloc name) attributes children)
xmpp_stanza_set_name alloc (stanza ref unknown_stanza text attributes children) name =
    (eok, stanza ref tag_stanza (strdup alloc name) attributes children)

unfoldable pub xmpp_stanza_get_name_ptr : Stanza → Option (List ℕ)
xmpp_stanza_get_name_ptr (stanza ref text_stanza text attributes children) = none
xmpp_stanza_get_name_ptr (stanza ref tag_stanza text attributes children) = text
xmpp_stanza_get_name_ptr (stanza ref unknown_stanza text attributes children) = text

unfoldable pub xmpp_stanza_set_text : Bool → Stanza → List ℕ → Code × Stanza
xmpp_stanza_set_text alloc (stanza ref tag_stanza text attributes children) s =
    (einvop, stanza ref tag_stanza text attributes children)
xmpp_stanza_set_text alloc (stanza ref text_stanza text attributes children) s =
    (eok, stanza ref text_stanza (strdup alloc s) attributes children)
xmpp_stanza_set_text alloc (stanza ref unknown_stanza text attributes children) s =
    (eok, stanza ref text_stanza (strdup alloc s) attributes children)

-- `size` bytes from `text` on, with a NUL behind them.
unfoldable pub safe_text : Bool → List ℕ → ℕ → Run (Option (List ℕ))
safe_text true s size = ensure (leb size (length s)) out_of_bounds >> ok (some (take size s))
safe_text false s size = ok none

unfoldable pub with_text : ℕ → Option Attributes → Children → Option (List ℕ) → Code × Stanza
with_text ref attributes children none = (emem, stanza ref text_stanza none attributes children)
with_text ref attributes children (some s) =
    (eok, stanza ref text_stanza (some s) attributes children)

unfoldable pub xmpp_stanza_set_text_safe : Bool → Stanza → List ℕ → ℕ → Run (Code × Stanza)
xmpp_stanza_set_text_safe alloc (stanza ref tag_stanza text attributes children) s size =
    ok (einvop, stanza ref tag_stanza text attributes children)
xmpp_stanza_set_text_safe alloc (stanza ref text_stanza text attributes children) s size =
    safe_text alloc s size >>= λ t. ok (with_text ref attributes children t)
xmpp_stanza_set_text_safe alloc (stanza ref unknown_stanza text attributes children) s size =
    safe_text alloc s size >>= λ t. ok (with_text ref attributes children t)

unfoldable pub xmpp_stanza_get_attribute_count : Stanza → ℕ
xmpp_stanza_get_attribute_count (stanza ref type text none children) = 0
xmpp_stanza_get_attribute_count (stanza ref type text (some t) children) = t.num_keys

-- The table of a stanza, which is made when the first attribute is set.
unfoldable pub own_table : Bool → Option Attributes → Option Attributes
own_table alloc (some t) = some t
own_table alloc none = hash_new alloc alloc 8 true

-- The copy of a value that is empty fails. The answer of `hash_add` is not looked at.
unfoldable pub put_copy : Attributes → List ℕ → Option (List ℕ) → Run (Code × Option Attributes)
put_copy t key none = ok (emem, some t)
put_copy t key (some v) = do (status, t') ← hash_add true true t key (some v); ok (eok, some t')

unfoldable pub put_attribute :
    Bool → Option Attributes → List ℕ → List ℕ → Run (Code × Option Attributes)
put_attribute alloc none key value = ok (emem, none)
put_attribute alloc (some t) key value = put_copy t key (strdup alloc value)

unfoldable pub xmpp_stanza_set_attribute : Bool → Stanza → List ℕ → List ℕ → Run (Code × Stanza)
xmpp_stanza_set_attribute alloc (stanza ref tag_stanza text attributes children) key value = do
  (code, attributes') ← put_attribute alloc (own_table alloc attributes) key value
  ok (code, stanza ref tag_stanza text attributes' children)
xmpp_stanza_set_attribute alloc (stanza ref text_stanza text attributes children) key value =
    ok (einvop, stanza ref text_stanza text attributes children)
xmpp_stanza_set_attribute alloc (stanza ref unknown_stanza text attributes children) key value =
    ok (einvop, stanza ref unknown_stanza text attributes children)

unfoldable pub xmpp_stanza_set_ns : Bool → Stanza → List ℕ → Run (Code × Stanza)
xmpp_stanza_set_ns alloc s ns = xmpp_stanza_set_attribute alloc s (codes "xmlns") ns

unfoldable pub xmpp_stanza_set_id : Bool → Stanza → List ℕ → Run (Code × Stanza)
xmpp_stanza_set_id alloc s id = xmpp_stanza_set_attribute alloc s (codes "id") id

unfoldable pub xmpp_stanza_set_type : Bool → Stanza → List ℕ → Run (Code × Stanza)
xmpp_stanza_set_type alloc s type = xmpp_stanza_set_attribute alloc s (codes "type") type

unfoldable pub xmpp_stanza_get_attribute : Stanza → List ℕ → Run (Option (List ℕ))
xmpp_stanza_get_attribute (stanza ref tag_stanza text (some t) children) name = hash_get t name
xmpp_stanza_get_attribute (stanza ref tag_stanza text none children) name = ok none
xmpp_stanza_get_attribute (stanza ref text_stanza text attributes children) name = ok none
xmpp_stanza_get_attribute (stanza ref unknown_stanza text attributes children) name = ok none

unfoldable pub xmpp_stanza_get_id_ptr : Stanza → Run (Option (List ℕ))
xmpp_stanza_get_id_ptr s = xmpp_stanza_get_attribute s (codes "id")

unfoldable pub xmpp_stanza_get_ns : Stanza → Run (Option (List ℕ))
xmpp_stanza_get_ns s = xmpp_stanza_get_attribute s (codes "xmlns")

unfoldable pub xmpp_stanza_get_type_ptr : Stanza → Run (Option (List ℕ))
xmpp_stanza_get_type_ptr s = xmpp_stanza_get_attribute s (codes "type")
