-- ===== src/Stanza/Copy.antt =====
-- xmpp-stanza.c: `xmpp_stanza_copy`. The Boolean says whether the allocations succeed.
use imcore.Prelude.{Option, none, some, Bool, true, if◌then◌else◌, List, [], ◌∷◌}
use imcore.Prelude.{ℕ, Run, ok, fault, null_pointer, ◌>>=◌}
use imcore.Prelude.Text.{strdup}
use imcore.Hash.{done, failed, hash_new, hash_get, hash_add}
use imcore.Stanza.Tree.{Stanza, stanza, Children, nil, child, Attributes, StanzaType}
use imcore.Stanza.Render.{attribute_keys}

unfoldable pub copy_keys : Attributes → List (List ℕ) → Attributes → Run (Option Attributes)
copy_keys t [] copy = ok (some copy)
copy_keys t (key ∷ keys) copy = hash_get t key >>= λ found. elim found [
  | none ↦ fault null_pointer
  | some v ↦ elim (strdup true v) [
    | none ↦ ok none
    | some v' ↦ hash_add true true copy key (some v') >>= λ (status, copy'). elim status [
      | done ↦ copy_keys t keys copy'
      | failed ↦ ok none
    ]
  ]
]

unfoldable pub copy_attributes : Option Attributes → Run (Option (Option Attributes))
copy_attributes none = ok (some none)
copy_attributes (some t) = elim (hash_new {V = List ℕ} true true 8 true) [
  | none ↦ ok none
  | some copy ↦ copy_keys t (attribute_keys t) copy >>= λ made. elim made [
    | none ↦ ok none
    | some t' ↦ ok (some (some t'))
  ]
]

-- A child whose copy fails makes the whole copy fail.
unfoldable pub copied_child : Option Stanza → Run (Option Children) → Run (Option Children)
copied_child none rest = ok none
copied_child (some s) rest =
    rest >>= λ r. elim r [ none ↦ ok none | some cs ↦ ok (some (child s cs)) ]

-- The copy of the data, where there are any: that of an empty text fails.
unfoldable pub copy_data : Option (List ℕ) → Option (Option (List ℕ))
copy_data none = some none
copy_data (some text) = elim (strdup true text) [ none ↦ none | some t ↦ some (some t) ]

unfoldable pub assembled :
    StanzaType → Option (List ℕ) → Option (Option Attributes) → Option Children → Option Stanza
assembled type text none children = none
assembled type text (some attributes) none = none
assembled type text (some attributes) (some children) =
    some (stanza 1 type text attributes children)

unfoldable mutual
  pub copy_stanza : Stanza → Run (Option Stanza)
  copy_stanza (stanza ref type text attributes children) =
      let children_run = copy_children children in
      elim (copy_data text) [
        | none ↦ ok none
        | some text' ↦ copy_attributes attributes >>= λ attributes'.
            children_run >>= λ children'. ok (assembled type text' attributes' children')
      ]

  pub copy_children : Children → Run (Option Children)
  copy_children nil = ok (some nil)
  copy_children (child s rest) =
      let rest' = copy_children rest in copy_stanza s >>= λ s'. copied_child s' rest'

unfoldable pub xmpp_stanza_copy : Bool → Stanza → Run (Option Stanza)
xmpp_stanza_copy alloc s = if alloc then copy_stanza s else ok none
