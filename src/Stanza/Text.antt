-- ===== src/Stanza/Text.antt =====
-- The text of a stanza, without buffers: what the rendering of xmpp-stanza.c has to write.
use imcore.Prelude.{
  ℕ, ltb, if◌then◌else◌, true, false, List, [], ◌∷◌, ◌++◌, Option, none, some, Run, ok, ◌>>=◌,
}
use imcore.Prelude.Text.{codes}
use imcore.Hash.{hash_get}
use imcore.Stanza.Tree.{
  Stanza, stanza, Children, nil, child, unknown_stanza, tag_stanza, text_stanza, Attributes, einvop,
}
use imcore.Stanza.Escaped.{escape}
use imcore.Stanza.Render.{Answer, value, error, on_value, left_out, attribute_text, attribute_keys}

abbrev pub Text : Type 0
Text = Run (Answer (List ℕ))

-- A text, and one behind it.
unfoldable pub followed : Text → Text → Text
followed m n = on_value m (λ t. on_value n (λ u. ok (value (t ++ u))))

unfoldable pub attribute_of : Option (Option Attributes) → List ℕ → Option (List ℕ) → Text
attribute_of parent key none = ok (value [])
attribute_of parent key (some v) = left_out parent key v >>= λ b.
    ok (value (elim b [ true ↦ [] | false ↦ attribute_text key (escape v) ]))

unfoldable pub attributes_text : Option (Option Attributes) → Attributes → List (List ℕ) → Text
attributes_text parent t [] = ok (value [])
attributes_text parent t (key ∷ keys) =
    followed (hash_get t key >>= attribute_of parent key) (attributes_text parent t keys)

unfoldable pub all_attributes : Option (Option Attributes) → Option Attributes → Text
all_attributes parent none = ok (value [])
all_attributes parent (some t) =
    if ltb 0 t.num_keys then attributes_text parent t (attribute_keys t) else ok (value [])

-- `/>`, where there are no children and no text of them, or `>`, the children and the closing tag.
unfoldable pub enclosed : Children → List ℕ → List ℕ → List ℕ
enclosed nil name inner = codes "/>" ++ inner
enclosed (child c cs) name inner = codes ">" ++ (inner ++ (codes "</" ++ (name ++ codes ">")))

unfoldable mutual
  pub stanza_text : Option (Option Attributes) → Stanza → Text
  stanza_text parent (stanza ref unknown_stanza text attributes children) = ok (error einvop)
  stanza_text parent (stanza ref text_stanza none attributes children) = ok (error einvop)
  stanza_text parent (stanza ref text_stanza (some d) attributes children) = ok (value (escape d))
  stanza_text parent (stanza ref tag_stanza none attributes children) = ok (error einvop)
  stanza_text parent (stanza ref tag_stanza (some d) attributes children) =
      on_value (all_attributes parent attributes) (λ a.
        on_value (children_text attributes children)
          (λ inner. ok (value ((codes "<" ++ d) ++ (a ++ enclosed children d inner)))))

  pub children_text : Option Attributes → Children → Text
  children_text attributes nil = ok (value [])
  children_text attributes (child c cs) =
      followed (stanza_text (some attributes) c) (children_text attributes cs)
