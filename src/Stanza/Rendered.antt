-- ===== src/Stanza/Rendered.antt =====
-- The rendering of xmpp-stanza.c writes the text of the stanza.
use imcore.Prelude.{ℕ, ◌≡◌, refl, sym, ap, ◌∙◌, arith, true}
use imcore.Prelude.{
  List, ◌++◌, append_assoc, append-nil, Option, none, some, Run, ok, ◌>>=◌, >>=-assoc, >>=-cong,
  length,
}
use imcore.Prelude.Text.{codes}
use imcore.Stanza.Tree.{
  Stanza, stanza, Children, nil, child, unknown_stanza, tag_stanza, text_stanza, Attributes,
}
use imcore.Stanza.Escape.{escape_xml}
use imcore.Stanza.Escaped.{escape, escape_xml-escape}
use imcore.Stanza.Pen.{Pen, emit, start, after, im_snprintf, render_update}
use imcore.Stanza.Emit.{emit-after, after_emits}
use imcore.Stanza.Render.{Answer, value, pass, on_value, emitted}
use imcore.Stanza.Render.{render_all, absorb, finish, tag_end, close_tag, render_text}
use imcore.Stanza.Render.{render_stanza_recursive, render_children}
use imcore.Stanza.Text.{Text, followed, all_attributes, enclosed, stanza_text, children_text}
use imcore.Stanza.Writes.{Writes, then_step, Writes-emitted, no_step}
use imcore.Stanza.Writes.{on_value-value, on_value_run, value-injective}
use imcore.Stanza.Tags.{Writes-all, Writes-close, closing}

-- A stanza that has a text is rendered as a call of im_snprintf with that text.
abbrev Renders : Stanza → Type 0
Renders s =
    (parent : Option (Option Attributes)) (u : List ℕ)
    → stanza_text parent s ≡ ok (value u)
    → (buf : List ℕ) (ptr : Option ℕ) (size : ℕ)
    → render_stanza_recursive true parent s buf ptr size ≡ (after buf ptr size u >>= finish)

pub pen_written :
    (size n : ℕ) (b : List ℕ) (p : Option ℕ)
    → ((render_update size (start b p size) n).written ≡ n)
      × ((render_update size (start b p size) n).buf ≡ b)
unfolding render_update start
pen_written size n b p = (ground arith, ground arith)

-- What a child has written is taken over as one call.
absorb-emit :
    (size : ℕ) (pen : Pen) (u : List ℕ) (f : Pen → Run (Answer Pen))
    → on_value (after pen.buf pen.ptr pen.left u >>= finish) (λ r. f (absorb size pen r))
      ≡ (emit size pen u >>= f)
unfolding finish emit absorb
absorb-emit size pen u f = rw (after_emits pen.buf pen.ptr pen.left u) (
    on_value_run _ finish (λ r. f (absorb size pen r))
    ∙ >>=-assoc (im_snprintf pen.buf pen.ptr pen.left u) _ _
    ∙ >>=-cong (im_snprintf pen.buf pen.ptr pen.left u) _ _ (λ (b : List ℕ). same b)
    ∙ sym (>>=-assoc (im_snprintf pen.buf pen.ptr pen.left u) _ f))
  where
    same :
        (b : List ℕ)
        → on_value
            (ok (
              value (
                (render_update pen.left (start b pen.ptr pen.left) (length u)).written,
                (render_update pen.left (start b pen.ptr pen.left) (length u)).buf,
              )))
            (λ r. f (absorb size pen r))
          ≡ f (render_update size (record pen { buf = b }) (length u))
    same b =
        let (w, k) = pen_written pen.left (length u) b pen.ptr in
        unfold on_value pass in rw (w, k) refl

-- A tag around the text of its children.
tag_text :
    (children : Children) (front a inner name : List ℕ)
    → (((front ++ a) ++ tag_end children) ++ inner) ++ closing children name
      ≡ front ++ (a ++ enclosed children name inner)
unfolding tag_end closing enclosed
tag_text nil front a inner name = simp (append_assoc, append-nil) refl
tag_text (child c cs) front a inner name = simp append_assoc refl

after-emitted :
    (buf : List ℕ) (ptr : Option ℕ) (size : ℕ) (t : List ℕ) {B : Type 0} (f : Pen → Run (Answer B))
    → on_value (emitted size (start buf ptr size) t) f ≡ (after buf ptr size t >>= f)
unfolding emitted after
after-emitted buf ptr size t f =
    on_value_run (emit size (start buf ptr size) t) (λ p. ok (value p)) f
    ∙ unfold on_value pass in refl

-- The parts of a tag, one after the other.
tag_Renders :
    (d a inner : List ℕ) (parent : Option (Option Attributes)) (attributes : Option Attributes)
    (children : Children) (buf : List ℕ) (ptr : Option ℕ) (size : ℕ)
    → all_attributes parent attributes ≡ ok (value a)
    → children_text attributes children ≡ ok (value inner)
    → Writes buf ptr size
        (render_children true attributes children size)
        (children_text attributes children)
    → on_value (emitted size (start buf ptr size) (codes "<" ++ d)) (λ p1.
      on_value (render_all true parent attributes size p1) (λ p2.
        on_value (emitted size p2 (tag_end children)) (λ p3.
          on_value
            (render_children true attributes children size p3)
            (λ p4. on_value (close_tag children d size p4) finish))))
      ≡ (after buf ptr size ((codes "<" ++ d) ++ (a ++ enclosed children d inner)) >>= finish)
tag_Renders d a inner parent attributes children buf ptr size ea ei w =
    let t0 = codes "<" ++ d in
    after-emitted buf ptr size t0 _
    ∙ then_step buf ptr size (render_all true parent attributes size)
        (all_attributes parent attributes) _ t0 a (Writes-all buf ptr size parent attributes) ea
    ∙ then_step buf ptr size (λ p. emitted size p (tag_end children))
        (ok (value (tag_end children))) _ (t0 ++ a) (tag_end children)
        (Writes-emitted buf ptr size (tag_end children)) refl
    ∙ then_step buf ptr size (render_children true attributes children size)
        (children_text attributes children) _ ((t0 ++ a) ++ tag_end children) inner w ei
    ∙ then_step buf ptr size (close_tag children d size) (ok (value (closing children d))) finish
        (((t0 ++ a) ++ tag_end children) ++ inner) (closing children d)
        (Writes-close buf ptr size children d) refl
    ∙ ap (λ (t : List ℕ). after buf ptr size t >>= finish) (tag_text children t0 a inner d)

text_Renders :
    (d : List ℕ) (buf : List ℕ) (ptr : Option ℕ) (size : ℕ)
    → on_value (escape_xml true d >>= render_text size (start buf ptr size)) finish
      ≡ (after buf ptr size (escape d) >>= finish)
text_Renders d buf ptr size =
    rw (escape_xml-escape d) (unfold render_text in after-emitted buf ptr size (escape d) finish)

-- The parts of a tag's text.
tag_parts :
    (parent : Option (Option Attributes)) (ref : ℕ) (d : List ℕ) (attributes : Option Attributes)
    (children : Children) (u : List ℕ)
    → stanza_text parent (stanza ref tag_stanza (some d) attributes children) ≡ ok (value u)
    → (a inner : List ℕ) × (all_attributes parent attributes ≡ ok (value a))
      × (children_text attributes children ≡ ok (value inner))
      × ((codes "<" ++ d) ++ (a ++ enclosed children d inner) ≡ u)
unfolding stanza_text
tag_parts parent ref d attributes children u e =
    let (a, ea, e1) = on_value-value (all_attributes parent attributes) _ u e in
    let (inner, ei, e2) = on_value-value (children_text attributes children) _ u e1 in
    (a, inner, ea, ei, value-injective e2)

-- A child, and the children behind it.
child_Writes :
    (c : Stanza) (attributes : Option Attributes) (rest : Pen → Run (Answer Pen)) (m : Text)
    (buf : List ℕ) (ptr : Option ℕ) (size : ℕ)
    → Renders c
    → Writes buf ptr size rest m
    → Writes buf ptr size
        (λ p.
          on_value
            (render_stanza_recursive true (some attributes) c p.buf p.ptr p.left)
            (λ r. rest (absorb size p r)))
        (followed (stanza_text (some attributes) c) m)
unfolding followed
child_Writes c attributes rest m buf ptr size h w t u e =
    let (a, ea, e1) = on_value-value (stanza_text (some attributes) c) _ u e in
    let (b, eb, e2) = on_value-value m _ u e1 in
    >>=-cong (after buf ptr size t) _ _ (λ (p : Pen).
      ap (λ (q : Run (Answer (ℕ × List ℕ))). on_value q (λ r. rest (absorb size p r)))
        (h (some attributes) a ea p.buf p.ptr p.left)
      ∙ absorb-emit size p a rest)
    ∙ sym (>>=-assoc (after buf ptr size t) (λ p. emit size p a) rest)
    ∙ ap (λ (q : Run Pen). q >>= rest) (emit-after buf ptr size t a)
    ∙ w (t ++ a) b eb
    ∙ ap (λ (v : List ℕ). after buf ptr size v >>= λ p. ok (value p))
        (append_assoc t a b ∙ ap (λ (v : List ℕ). t ++ v) (value-injective e2))

mutual
  unfolding render_stanza_recursive render_children stanza_text children_text

  -- A stanza that has a text is rendered as one call of im_snprintf with that text, whatever the buffer.
  pub render-Renders : (s : Stanza) → Renders s
  render-Renders (stanza ref unknown_stanza text attributes children) parent u e buf ptr size =
      absurd (cc)
  render-Renders (stanza ref text_stanza none attributes children) parent u e buf ptr size =
      absurd (cc)
  render-Renders (stanza ref text_stanza (some d) attributes children) parent u e buf ptr size =
      rw (← value-injective e) (text_Renders d buf ptr size)
  render-Renders (stanza ref tag_stanza none attributes children) parent u e buf ptr size =
      absurd (cc)
  render-Renders (stanza ref tag_stanza (some d) attributes children) parent u e buf ptr size =
      let (a, inner, ea, ei, k) = tag_parts parent ref d attributes children u e in
      tag_Renders d a inner parent attributes children buf ptr size ea ei
        (children-Writes children attributes buf ptr size)
      ∙ ap (λ (t : List ℕ). after buf ptr size t >>= finish) k

  children-Writes :
      (cs : Children) (attributes : Option Attributes) (buf : List ℕ) (ptr : Option ℕ) (size : ℕ)
      → Writes buf ptr size (render_children true attributes cs size) (children_text attributes cs)
  children-Writes nil attributes buf ptr size = no_step buf ptr size
  children-Writes (child c cs) attributes buf ptr size =
      child_Writes c attributes (render_children true attributes cs size)
        (children_text attributes cs) buf ptr size (render-Renders c)
        (children-Writes cs attributes buf ptr size)
