-- ===== src/Stanza/Runs.antt =====
-- Stanzas of xmpp-stanza.c at concrete values: the theorems' instances.
use imcore.Prelude.{◌≡◌, refl, arith, [], ◌∷◌, ◌++◌, some, none, ok, true, replicate}
use imcore.Prelude.Text.{codes, str_eq}
use imcore.Hash.{hash_get, hash_clone}
use imcore.Hash.Index.{hash_key, hash_loop, char_bits}
use imcore.Hash.Links.{find}
use imcore.Hash.Iter.{hash_iter_new, iter_keys, hash_iter_next, scan}
use imcore.Stanza.Tree.{Stanza, stanza, nil, child, tag_stanza, text_stanza, Attributes}
use imcore.Prelude.{◌>>=◌, ap, ◌∙◌, List, ℕ}
use imcore.Stanza.Tree.{xmpp_stanza_clone}
use imcore.Stanza.Children.{find_name, xmpp_stanza_add_child, xmpp_stanza_get_child_by_name}
use imcore.Stanza.Added.{or_else, get_child_by_name-add_child}
use imcore.Stanza.Escape.{escape_xml}
use imcore.Stanza.Escaped.{escape, entity, escape_xml-escape}
use imcore.Stanza.Render.{
  value, attribute_text, attribute_keys, left_out, redundant, same_as_parent, on_value, pass,
  xmpp_stanza_to_text,
}
use imcore.Stanza.Text.{
  stanza_text, children_text, all_attributes, attributes_text, attribute_of, followed, enclosed,
}
use imcore.Prelude.{Returns, Ensures, length, map, ◌≤◌}
use imcore.Hash.{hash_add, hash_new}
use imcore.Hash.View.{IsValid}
use imcore.Hash.Add.{Adds, hash_add-Adds, hash_new-IsValid}
use imcore.Hash.Iter.{all_slots}
use imcore.Stanza.Gather.{xmpp_stanza_get_attributes, fill, get_attributes-fill}
use imcore.Stanza.ToText.{Holds, to_text-Holds}
use imcore.Stanza.Attributes.{Set, set_attribute-Set, attribute_injected}

escape_xml-escape_example :
    escape_xml true (codes "a<b & \"c\"") ≡ ok (some (escape (codes "a<b & \"c\"")))
escape_xml-escape_example = escape_xml-escape (codes "a<b & \"c\"")

escaped : escape (codes "a<b & \"c\"") ≡ codes "a&lt;b &amp; &quot;c&quot;"
unfolding escape entity
escaped = refl

-- `<body id='1'>a<b</body>`, whose attribute stands in slot 1 of 8.
abbrev table : Attributes
table = record {
  ref = 1;
  free = true;
  num_keys = 1;
  entries = [] ∷ ((codes "id", some (codes "1")) ∷ []) ∷ replicate 6 [];
  released = [];
}

abbrev body : Stanza
body =
    stanza 1 tag_stanza (some (codes "body")) (some table)
      (child (stanza 1 text_stanza (some (codes "a<b")) none nil) nil)

body_text : stanza_text none body ≡ ok (value (codes "<body id='1'>a&lt;b</body>"))
unfolding stanza_text children_text all_attributes attributes_text attribute_of followed enclosed
    on_value pass attribute_text attribute_keys left_out redundant same_as_parent escape entity
    hash_iter_new hash_clone iter_keys hash_iter_next scan hash_get hash_key hash_loop char_bits
    find str_eq
body_text = refl

to_text-Holds_example :
    Holds (codes "<body id='1'>a&lt;b</body>") (xmpp_stanza_to_text true true true none body)
to_text-Holds_example = to_text-Holds none body (codes "<body id='1'>a&lt;b</body>") body_text

set_attribute-Set_example : Set 1 (some (codes "iq")) none nil (codes "type") (codes "get")
set_attribute-Set_example =
    set_attribute-Set 1 (some (codes "iq")) none nil (codes "type") (codes "get") (omega arith)
      (omega arith) (omega arith) tt

attribute_injected_example :
    attribute_text (codes "to") (codes "x' from='root")
    ≡ attribute_text (codes "to") (codes "x") ++ attribute_text (codes "from") (codes "root")
attribute_injected_example =
    attribute_injected (codes "to") (codes "x") (codes "from") (codes "root")
      (codes "x' from='root") (codes "x") (codes "root")
      (same (codes "from") (unfold escape entity in refl))
      (same (codes "x' from='root") (unfold escape entity in refl))
      (same (codes "x") (unfold escape entity in refl))
      (same (codes "root") (unfold escape entity in refl))
  where
    same : (s : List ℕ) → escape s ≡ s → escape_xml true s ≡ ok (some s)
    same s e = escape_xml-escape s ∙ ap (λ (t : List ℕ). ok (some t)) e

get_child_by_name-add_child_example :
    xmpp_stanza_get_child_by_name (xmpp_stanza_add_child body body).1 (codes "body") ≡ (
      xmpp_stanza_get_child_by_name body (codes "body")
      >>= or_else (find_name (child (xmpp_stanza_clone body) nil) (codes "body")))
get_child_by_name-add_child_example = get_child_by_name-add_child body body (codes "body")

abbrev no_attributes : Attributes
no_attributes = record {
  ref = 1;
  free = true;
  num_keys = 0;
  entries = replicate 8 [];
  released = [];
}

no_attributes-IsValid : IsValid no_attributes
unfolding hash_new
no_attributes-IsValid = (hash_new-IsValid 8 true no_attributes (omega arith) refl).0

id_added :
    Returns
      (hash_add true true no_attributes (codes "id") (some (codes "1")))
      (Adds no_attributes (codes "id") (some (codes "1")))
id_added =
    hash_add-Adds no_attributes (codes "id") (some (codes "1")) (omega arith) (omega arith) refl
      no_attributes-IsValid

abbrev with_id : Attributes
with_id = id_added.0.1

get_attributes-fill_example :
    (xmpp_stanza_get_attributes true (stanza 1 tag_stanza none (some with_id) nil) 2
      ≡ fill with_id (map (λ s. s.0) (all_slots with_id.entries)) 2)
    × Ensures
        (xmpp_stanza_get_attributes true (stanza 1 tag_stanza none (some with_id) nil) 2)
        (λ out. length out ≤ 2)
get_attributes-fill_example = get_attributes-fill 1 tag_stanza none with_id nil 2 id_added.2.valid
