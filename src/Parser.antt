-- ===== src/Parser.antt =====
-- xmpp-parser-expat.c: the callbacks that put stanzas together. Expat is the source of the events: a
-- name is in one text with its namespace and the byte 255 between them. The stanza that is open
-- and the ones around it are a list, the innermost first; a child stands in its parent from its end on,
-- and until then only the innermost changes. What a callback asks of the connection is its answer.
pub mod Built
mod Runs
use imcore.Prelude.{
  ℕ, zero, suc, ◌-◌, ◌==◌, ltb, ◌&&◌, Bool, true, false, List, [], ◌∷◌, ◌++◌, take, drop,
}
use imcore.Prelude.{Option, none, some, if◌then◌else◌, length}
use imcore.Prelude.{Run, ok, fault, ◌>>=◌, null_pointer}
use imcore.Prelude.Search.{strchr}
use imcore.Stanza.Tree.{
  Stanza, stanza, xmpp_stanza_new, xmpp_stanza_set_name, xmpp_stanza_set_ns,
  xmpp_stanza_set_attribute, xmpp_stanza_set_text_safe,
}
use imcore.Stanza.Children.{append_child}

-- `struct _parser_t`: the depth and the open stanzas.
pub record Parser : Type 0 where
  pub depth : ℕ
  pub open_stanzas : List Stanza

pub data Sax : Type 0 where
  start_element : (name : List ℕ) (attrs : List (List ℕ × List ℕ)) → Sax
  end_element : Sax
  characters : (text : List ℕ) (size : ℕ) → Sax

-- What the parser calls: nothing, one of the three callbacks of the connection, or `xmpp_disconnect`.
pub data Calls : Type 0 where
  silent end_callback parser_error : Calls
  start_callback : (name : List ℕ) (attrs : List (List ℕ × List ℕ)) → Calls
  stanza_callback : Stanza → Calls

abbrev pub namespace_sep : ℕ
namespace_sep = 255

unfoldable pub xml_name : List ℕ → List ℕ
xml_name name = elim (strchr namespace_sep name) [ none ↦ name | some c ↦ drop (suc c) name ]

unfoldable pub xml_namespace : List ℕ → Option (List ℕ)
xml_namespace name = elim (strchr namespace_sep name) [ none ↦ none | some c ↦ some (take c name) ]

unfoldable pub set_attributes : List (List ℕ × List ℕ) → Stanza → Run Stanza
set_attributes [] s = ok s
set_attributes ((key, v) ∷ attrs) s = do
  (_, s') ← xmpp_stanza_set_attribute true s (xml_name key) v
  set_attributes attrs s'

unfoldable pub set_namespace : Option (List ℕ) → Stanza → Run Stanza
set_namespace none s = ok s
set_namespace (some ns) s = do (_, s') ← xmpp_stanza_set_ns true s ns; ok s'

-- A new stanza with the name, the attributes and the namespace of an element.
unfoldable pub opened : Stanza → List ℕ → List (List ℕ × List ℕ) → Run Stanza
opened s name attrs = do
  s' ← set_attributes attrs (xmpp_stanza_set_name true s (xml_name name)).1
  set_namespace (xml_namespace name) s'

-- `xmpp_stanza_add_child` takes a reference, and the parser gives its own back.
unfoldable pub link : Stanza → Stanza → Stanza
link (stanza ref type text attributes children) s =
    stanza ref type text attributes (append_child children s)

unfoldable pub push : Parser → Stanza → Parser × Calls
push p s = (record { depth = suc p.depth; open_stanzas = s ∷ p.open_stanzas }, silent)

-- Whether a stanza may begin here: at depth 1 where none is open, and below where one is.
unfoldable pub may_open : ℕ → List Stanza → Bool
may_open depth [] = depth == 1
may_open depth (s ∷ ss) = ltb 1 depth

-- An error leaves the depth as it is. `alloc` says whether there is memory for the stanza; there is
-- for the names.
unfoldable pub on_start : Bool → List ℕ → List (List ℕ × List ℕ) → Parser → Run (Parser × Calls)
on_start alloc name attrs p =
    if p.depth == 0
    then ok (record p { depth = suc p.depth }, start_callback (xml_name name) attrs)
    else if may_open p.depth p.open_stanzas
    then elim (xmpp_stanza_new alloc) [
      | none ↦ ok (p, parser_error)
      | some s ↦ opened s name attrs >>= λ s'. ok (push p s')
    ]
    else ok (p, parser_error)

-- The innermost stanza goes into the one around it, or to the connection. Below depth 0 the code
-- goes on like this too.
unfoldable pub close_stanza : ℕ → List Stanza → Run (Parser × Calls)
close_stanza depth [] = fault null_pointer
close_stanza depth (s ∷ []) = ok (record { depth = depth; open_stanzas = [] }, stanza_callback s)
close_stanza depth (s ∷ parent ∷ ss) =
    ok (record { depth = depth; open_stanzas = link parent s ∷ ss }, silent)

unfoldable pub on_end : Parser → Run (Parser × Calls)
on_end p =
    if p.depth == 1
    then ok (record p { depth = 0 }, end_callback)
    else close_stanza (p.depth - 1) p.open_stanzas

unfoldable pub add_text : Parser → Stanza → Run (Parser × Calls)
add_text p text = elim p.open_stanzas [
  | [] ↦ fault null_pointer
  | s ∷ ss ↦ ok (record p { open_stanzas = link s text ∷ ss }, silent)
]

-- No text may stand around the stanzas.
unfoldable pub on_characters : Bool → List ℕ → ℕ → Parser → Run (Parser × Calls)
on_characters alloc text size p =
    if ltb p.depth 2 then ok (p, parser_error) else elim (xmpp_stanza_new alloc) [
      | none ↦ ok (p, parser_error)
      | some s ↦ xmpp_stanza_set_text_safe true s text size >>= λ r. add_text p r.1
    ]

unfoldable pub on_sax : Sax → Parser → Run (Parser × Calls)
on_sax (start_element name attrs) p = on_start true name attrs p
on_sax end_element p = on_end p
on_sax (characters text size) p = on_characters true text size p

-- The state of `_defer_parser_reset`.
unfoldable pub fresh_parser : Parser
fresh_parser = record { depth = 0; open_stanzas = [] }

unfoldable pub heard : Calls → List Calls → List Calls
heard silent calls = calls
heard end_callback calls = end_callback ∷ calls
heard parser_error calls = parser_error ∷ calls
heard (start_callback name attrs) calls = start_callback name attrs ∷ calls
heard (stanza_callback s) calls = stanza_callback s ∷ calls

-- A block of events, and what the parser calls in the course of it.
unfoldable pub parse : List Sax → Parser → Run (Parser × List Calls)
parse [] p = ok (p, [])
parse (e ∷ es) p = on_sax e p >>= λ r. parse es r.0 >>= λ q. ok (q.0, heard r.1 q.1)
