-- ===== src/Stanza/Tags.antt =====
-- xmpp-stanza.c: the attributes of a tag and its end, against their text.
use imcore.Prelude.{Bool, ℕ, ltb, true, false}
use imcore.Prelude.{List, [], ◌∷◌, ◌++◌, Option, none, some, ok, ◌>>=◌}
use imcore.Prelude.Text.{codes}
use imcore.Hash.{hash_get}
use imcore.Stanza.Tree.{Children, nil, child, Attributes}
use imcore.Stanza.Escape.{escape_xml}
use imcore.Stanza.Escaped.{escape, escape_xml-escape}
use imcore.Stanza.Render.{value, left_out, attribute_text, attribute_keys, emit_attribute}
use imcore.Stanza.Render.{render_attribute, render_attributes, render_all, close_tag}
use imcore.Stanza.Text.{attribute_of, attributes_text, all_attributes}
use imcore.Stanza.Writes.{Writes, Writes-emitted, no_step, if_step, Writes-followed, behind_step}

-- The text that closes a stanza.
unfoldable pub closing : Children → List ℕ → List ℕ
closing nil name = []
closing (child c cs) name = codes "</" ++ (name ++ codes ">")

module _ (buf : List ℕ) (ptr : Option ℕ) (size : ℕ) where
  Writes-attribute :
      (parent : Option (Option Attributes)) (key : List ℕ) (v : Option (List ℕ))
      → Writes buf ptr size
          (λ p. render_attribute true parent size p key v)
          (attribute_of parent key v)
  unfolding render_attribute attribute_of
  Writes-attribute parent key none = no_step buf ptr size
  Writes-attribute parent key (some v) =
      behind_step buf ptr size (left_out parent key v)
        (λ p b. elim b [
          | true ↦ ok (value p)
          | false ↦ escape_xml true v >>= emit_attribute size p key
        ])
        (λ b. ok (value (elim b [ true ↦ [] | false ↦ attribute_text key (escape v) ])))
        (λ b. shown b)
    where
      shown :
          (b : Bool)
          → Writes buf ptr size
              (λ p. elim b [
                | true ↦ ok (value p)
                | false ↦ escape_xml true v >>= emit_attribute size p key
              ])
              (ok (value (elim b [ true ↦ [] | false ↦ attribute_text key (escape v) ])))
      shown true = no_step buf ptr size
      shown false =
          rw (escape_xml-escape v)
            (unfold emit_attribute in Writes-emitted buf ptr size (attribute_text key (escape v)))

  Writes-attributes :
      (parent : Option (Option Attributes)) (t : Attributes) (keys : List (List ℕ))
      → Writes buf ptr size
          (λ p. render_attributes true parent t size p keys)
          (attributes_text parent t keys)
  unfolding render_attributes attributes_text
  Writes-attributes parent t [] = no_step buf ptr size
  Writes-attributes parent t (key ∷ keys) =
      Writes-followed buf ptr size (λ p. hash_get t key >>= render_attribute true parent size p key)
        (λ p. render_attributes true parent t size p keys)
        (hash_get t key >>= attribute_of parent key) (attributes_text parent t keys)
        (behind_step buf ptr size (hash_get t key) (λ p. render_attribute true parent size p key)
          (attribute_of parent key) (Writes-attribute parent key))
        (Writes-attributes parent t keys)

  pub Writes-all :
      (parent : Option (Option Attributes)) (attributes : Option Attributes)
      → Writes buf ptr size
          (render_all true parent attributes size)
          (all_attributes parent attributes)
  unfolding render_all all_attributes
  Writes-all parent none = no_step buf ptr size
  Writes-all parent (some t) =
      if_step buf ptr size (ltb 0 t.num_keys) _ _ (Writes-attributes parent t (attribute_keys t))

  pub Writes-close :
      (children : Children) (name : List ℕ)
      → Writes buf ptr size (close_tag children name size) (ok (value (closing children name)))
  unfolding close_tag closing
  Writes-close nil name = no_step buf ptr size
  Writes-close (child c cs) name = Writes-emitted buf ptr size (codes "</" ++ (name ++ codes ">"))
