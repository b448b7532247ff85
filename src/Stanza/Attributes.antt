-- ===== src/Stanza/Attributes.antt =====
-- xmpp-stanza.c: what setting an attribute does to reading one, and the quotes around its value.
use imcore.Prelude.{Bool, false, ℕ, ◌<◌, ◌≡◌, refl, sym, ap, ◌∙◌, arith, true, if◌then◌else◌}
use imcore.Prelude.{List, [], ◌∷◌, ◌++◌, append_assoc, Option, none, some, ok, length}
use imcore.Prelude.Text.{codes, str_eq, strdup_full}
use imcore.Hash.{hash_new}
use imcore.Hash.View.{IsValid, IsKey, view, hash_get-view}
use imcore.Hash.Add.{hash_add-Adds, hash_new-IsValid}
use imcore.Stanza.Tree.{
  stanza, Children, tag_stanza, Attributes, eok, own_table, put_attribute, put_copy,
}
use imcore.Stanza.Tree.{xmpp_stanza_set_attribute, xmpp_stanza_get_attribute}
use mathlib.Core.Option.{some-injective}
use imcore.Prelude.{ok-injective}
use imcore.Stanza.Escape.{escape_xml}
use imcore.Stanza.Escaped.{escape, entity, escape_xml-escape}
use imcore.Stanza.Render.{attribute_text}

-- The table of a stanza: valid, and with a release function, as xmpp_stanza_set_attribute makes it.
abbrev pub Good : Option Attributes → Type 0
Good none = Unit {0}
Good (some t) = IsValid t × (t.free ≡ true)

-- The stanza after an attribute has been set.
pub record Set (ref : ℕ) (text : Option (List ℕ)) (old : Option Attributes) (children : Children)
    (key v : List ℕ) : Type 0 where
  pub table : Attributes
  pub run :
      xmpp_stanza_set_attribute true (stanza ref tag_stanza text old children) key v
      ≡ ok (eok, stanza ref tag_stanza text (some table) children)
  pub good : Good (some table)
  pub reads :
      (q : List ℕ)
      → IsKey q
      → xmpp_stanza_get_attribute (stanza ref tag_stanza text (some table) children) q ≡ (
          if str_eq q key
          then ok (some v)
          else xmpp_stanza_get_attribute (stanza ref tag_stanza text old children) q)

made : (t : Attributes) × (hash_new true true 8 true ≡ some t)
unfolding hash_new
made = (_, refl)

-- A table that stands for the old attributes, made if there is none.
owned :
    (old : Option Attributes) (ref : ℕ) (text : Option (List ℕ)) (children : Children)
    → Good old
    → (t : Attributes) × (own_table true old ≡ some t)
      × Good (some t)
      × ((q : List ℕ)
          → IsKey q
          → xmpp_stanza_get_attribute (stanza ref tag_stanza text old children) q ≡ ok (view t q))
unfolding own_table xmpp_stanza_get_attribute
owned (some t) ref text children g = (t, refl, g, λ q k. hash_get-view t q k g.0.sized)
owned none ref text children g =
    let (t, e) = made in
    let (v, _, f, n) = hash_new-IsValid 8 true t (omega arith) e in
    (t, e, (v, f), λ q k. ap ok (sym (n q)))

-- If the key is not empty and ASCII, the value is not empty and the allocations succeed, an attribute that
-- is set on a tag whose table is valid and has a release function, or that has none, is read back, every
-- other attribute with an ASCII name reads as before, and the table is valid with a release function.
pub set_attribute-Set :
    (ref : ℕ) (text : Option (List ℕ)) (old : Option Attributes) (children : Children)
    (key v : List ℕ)
    → IsKey key
    → 0 < length key
    → 0 < length v
    → Good old
    → Set ref text old children key v
unfolding xmpp_stanza_set_attribute put_attribute put_copy
set_attribute-Set ref text old children key v k full some_value g =
    let (t, e, (valid, free), r) = owned old ref text children g in
    let (q, a, h) = hash_add-Adds t key (some v) k full free valid in
    record {
      table = q.1;
      run = rw (e, strdup_full v some_value, a) refl;
      good = (h.valid, h.free);
      reads = λ x kx.
          unfold xmpp_stanza_get_attribute in
          hash_get-view q.1 x kx h.valid.sized
          ∙ ap ok (h.reads x)
          ∙ choose (str_eq x key) (view t x)
          ∙ rw (r x kx) refl;
    }
  where
    choose :
        (b : Bool) (o : Option (List ℕ))
        → ok (if b then some v else o) ≡ (if b then ok (some v) else ok o)
    choose true o = refl
    choose false o = refl

escape-append : (a b : List ℕ) → escape (a ++ b) ≡ escape a ++ escape b
unfolding escape
escape-append [] b = refl
escape-append (c ∷ a) b = rw (escape-append a b, append_assoc (entity c) (escape a) (escape b)) refl

injected :
    (key v other w : List ℕ)
    → escape other ≡ other
    → attribute_text key (escape (v ++ (codes "' " ++ (other ++ (codes "='" ++ w)))))
      ≡ attribute_text key (escape v) ++ attribute_text other (escape w)
unfolding attribute_text
injected key v other w e =
    rw
      (
        escape-append v (codes "' " ++ (other ++ (codes "='" ++ w))),
        first (other ++ (codes "='" ++ w)),
        escape-append other (codes "='" ++ w),
        second w,
        e,
      )
      (simp append_assoc refl)
  where
    first : (x : List ℕ) → escape (codes "' " ++ x) ≡ codes "' " ++ escape x
    first x = unfold escape entity in refl

    second : (x : List ℕ) → escape (codes "='" ++ x) ≡ codes "='" ++ escape x
    second x = unfold escape entity in refl

-- `_escape_xml` leaves the quote that stands around a value: where it leaves a name as it is, what it makes
-- of a value that holds a quote, this name and a second value is, between the quotes of the rendering, the
-- same as what it makes of the first part and of the second value, as two attributes.
pub attribute_injected :
    (key v other w whole first second : List ℕ)
    → escape_xml true other ≡ ok (some other)
    → escape_xml true (v ++ (codes "' " ++ (other ++ (codes "='" ++ w)))) ≡ ok (some whole)
    → escape_xml true v ≡ ok (some first)
    → escape_xml true w ≡ ok (some second)
    → attribute_text key whole ≡ attribute_text key first ++ attribute_text other second
attribute_injected key v other w whole first second o e f s =
    rw
      (
        ← escaped (v ++ (codes "' " ++ (other ++ (codes "='" ++ w)))) whole e,
        ← escaped v first f,
        ← escaped w second s,
      )
      (injected key v other w (escaped other other o))
  where
    escaped : (text out : List ℕ) → escape_xml true text ≡ ok (some out) → escape text ≡ out
    escaped text out e = some-injective _ _ (ok-injective (sym (escape_xml-escape text) ∙ e))
