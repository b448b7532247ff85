-- ===== src/Stanza/Render.antt =====
-- _render_stanza_recursive and xmpp_stanza_to_text of xmpp-stanza.c. The Boolean says whether the
-- allocations of _escape_xml succeed; `parent` is `none` for a stanza without one, else its attributes.
use imcore.Prelude.{
  ℕ, ◌+◌, ◌-◌, ltb, if◌then◌else◌, Bool, true, false, List, [], ◌∷◌, ◌++◌, Option, none, some,
}
use imcore.Prelude.{Run, ok, ◌>>=◌, length, replicate}
use imcore.Prelude.Text.{codes, str_eq}
use imcore.Hash.{hash_get}
use imcore.Hash.Iter.{hash_iter_new, iter_keys}
use imcore.Stanza.Tree.{
  Stanza, stanza, Children, nil, child, unknown_stanza, tag_stanza, text_stanza,
}
use imcore.Stanza.Tree.{Attributes, Code, emem, einvop}
use imcore.Stanza.Escape.{escape_xml}
use imcore.Stanza.Pen.{Pen, emit, start, render_update}
use imcore.Prelude.Bytes.{write_bytes}

-- A result, or a negative code.
pub data Answer {ℓ} (A : Type ℓ) : Type ℓ where
  value : A → Answer A
  error : Code → Answer A

module _ {ℓ κ} {A : Type ℓ} {B : Type κ} where
  unfoldable pub pass : (A → Run (Answer B)) → Answer A → Run (Answer B)
  pass f (value a) = f a
  pass f (error c) = ok (error c)

  unfoldable pub on_value : Run (Answer A) → (A → Run (Answer B)) → Run (Answer B)
  unfolding pass
  on_value m f = m >>= pass f

-- `if (!strcmp(key, "xmlns"))`: a namespace that the parent has, or the default one at the top, is left out.
unfoldable pub same_as_parent : List ℕ → Option (List ℕ) → Bool
same_as_parent v none = false
same_as_parent v (some p) = str_eq v p

unfoldable pub redundant : Option (Option Attributes) → List ℕ → List ℕ → Run Bool
redundant none key v = ok (str_eq v (codes "jabber:client"))
redundant (some none) key v = ok false
redundant (some (some t)) key v = hash_get t key >>= λ p. ok (same_as_parent v p)

unfoldable pub left_out : Option (Option Attributes) → List ℕ → List ℕ → Run Bool
left_out parent key v = if str_eq key (codes "xmlns") then redundant parent key v else ok false

-- ` %s='%s'`
unfoldable pub attribute_text : List ℕ → List ℕ → List ℕ
attribute_text key v = codes " " ++ (key ++ (codes "='" ++ (v ++ codes "'")))

-- A call of im_snprintf whose answer is not negative.
unfoldable pub emitted : ℕ → Pen → List ℕ → Run (Answer Pen)
emitted size pen text = emit size pen text >>= λ p. ok (value p)

unfoldable pub emit_attribute : ℕ → Pen → List ℕ → Option (List ℕ) → Run (Answer Pen)
emit_attribute size pen key none = ok (error emem)
emit_attribute size pen key (some v) = emitted size pen (attribute_text key v)

unfoldable pub render_attribute :
    Bool → Option (Option Attributes) → ℕ → Pen → List ℕ → Option (List ℕ) → Run (Answer Pen)
render_attribute alloc parent size pen key none = ok (value pen)
render_attribute alloc parent size pen key (some v) = left_out parent key v >>= λ b. elim b [
  | true ↦ ok (value pen)
  | false ↦ escape_xml alloc v >>= emit_attribute size pen key
]

unfoldable pub render_attributes :
    Bool → Option (Option Attributes) → Attributes → ℕ → Pen → List (List ℕ) → Run (Answer Pen)
render_attributes alloc parent t size pen [] = ok (value pen)
render_attributes alloc parent t size pen (key ∷ keys) =
    on_value (hash_get t key >>= render_attribute alloc parent size pen key)
      (λ p. render_attributes alloc parent t size p keys)

-- The keys that an iterator over the attributes gives; its allocation succeeds.
unfoldable pub attribute_keys : Attributes → List (List ℕ)
attribute_keys t = elim (hash_iter_new true t) [
  | none ↦ []
  | some it ↦ iter_keys (t.num_keys + 1) it
]

unfoldable pub render_all :
    Bool → Option (Option Attributes) → Option Attributes → ℕ → Pen → Run (Answer Pen)
render_all alloc parent none size pen = ok (value pen)
render_all alloc parent (some t) size pen =
    if ltb 0 t.num_keys
    then render_attributes alloc parent t size pen (attribute_keys t)
    else ok (value pen)

-- The end of the opening tag, and the closing tag.
unfoldable pub tag_end : Children → List ℕ
tag_end nil = codes "/>"
tag_end (child c cs) = codes ">"

unfoldable pub close_tag : Children → List ℕ → ℕ → Pen → Run (Answer Pen)
close_tag nil name size pen = ok (value pen)
close_tag (child c cs) name size pen = emitted size pen (codes "</" ++ (name ++ codes ">"))

-- What a rendering returns: the length, and the buffer.
unfoldable pub finish : Pen → Run (Answer (ℕ × List ℕ))
finish pen = ok (value (pen.written, pen.buf))

unfoldable pub render_text : ℕ → Pen → Option (List ℕ) → Run (Answer Pen)
render_text size pen none = ok (error emem)
render_text size pen (some t) = emitted size pen t

unfoldable pub absorb : ℕ → Pen → ℕ × List ℕ → Pen
absorb size pen r = render_update size (record pen { buf = r.1 }) r.0

unfoldable mutual
  pub render_stanza_recursive :
      Bool → Option (Option Attributes) → Stanza → List ℕ → Option ℕ → ℕ → Run (Answer (ℕ × List ℕ))
  render_stanza_recursive alloc parent (stanza ref unknown_stanza text attributes children) buf ptr
        size =
      ok (error einvop)
  render_stanza_recursive alloc parent (stanza ref text_stanza none attributes children) buf ptr
        size =
      ok (error einvop)
  render_stanza_recursive alloc parent (stanza ref text_stanza (some d) attributes children) buf ptr
        size =
      on_value (escape_xml alloc d >>= render_text size (start buf ptr size)) finish
  render_stanza_recursive alloc parent (stanza ref tag_stanza none attributes children) buf ptr
        size =
      ok (error einvop)
  render_stanza_recursive alloc parent (stanza ref tag_stanza (some d) attributes children) buf ptr
        size =
      on_value (emitted size (start buf ptr size) (codes "<" ++ d)) (λ p1.
        on_value (render_all alloc parent attributes size p1) (λ p2.
          on_value (emitted size p2 (tag_end children)) (λ p3.
            on_value (render_children alloc attributes children size p3)
              (λ p4. on_value (close_tag children d size p4) finish))))

  pub render_children : Bool → Option Attributes → Children → ℕ → Pen → Run (Answer Pen)
  render_children alloc attributes nil size pen = ok (value pen)
  render_children alloc attributes (child c cs) size pen =
      on_value (render_stanza_recursive alloc (some attributes) c pen.buf pen.ptr pen.left)
        (λ r. render_children alloc attributes cs size (absorb size pen r))

-- The contents of memory that is new are 0 here.
unfoldable pub grown : List ℕ → ℕ → List ℕ
grown buf n = buf ++ replicate (n - length buf) 0

-- `buffer[length - 1] = 0`, and the text with its length.
unfoldable pub terminated : ℕ → List ℕ → ℕ → Run (Answer (List ℕ × ℕ))
terminated size buf ret = write_bytes buf (size - 1) (0 ∷ []) >>= λ b. ok (value (b, ret))

-- `(size_t)ret > length - 1`, where a negative code is a large number.
unfoldable pub second_answer : ℕ → Answer (ℕ × List ℕ) → Run (Answer (List ℕ × ℕ))
second_answer size (error c) = ok (error emem)
second_answer size (value r) =
    if ltb (size - 1) r.0 then ok (error emem) else terminated size r.1 r.0

unfoldable pub first_answer :
    Bool → Bool → Option (Option Attributes) → Stanza → ℕ × List ℕ → Run (Answer (List ℕ × ℕ))
first_answer alloc realloc parent s r =
    if ltb (128 - 1) r.0
    then if realloc
      then (render_stanza_recursive alloc parent s (grown r.1 (r.0 + 1)) (some 0) (r.0 + 1)
          >>= second_answer (r.0 + 1))
      else ok (error emem)
    else terminated 128 r.1 r.0

unfoldable pub xmpp_stanza_to_text :
    Bool → Bool → Bool → Option (Option Attributes) → Stanza → Run (Answer (List ℕ × ℕ))
xmpp_stanza_to_text alloc malloc realloc parent s =
    if malloc
    then on_value (render_stanza_recursive alloc parent s (replicate 128 0) (some 0) 128)
        (first_answer alloc realloc parent s)
    else ok (error emem)
