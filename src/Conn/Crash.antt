-- ===== src/Conn/Crash.antt =====
-- xmpp-auth.c: features that a server can send and that end in a NULL pointer.
use imcore.Prelude.{ℕ, List, [], ◌∷◌}
use imcore.Prelude.{none, some}
use imcore.Prelude.Text.{codes}
use imcore.Stanza.Tree.{Stanza, stanza, Children, nil, child, tag_stanza, text_stanza, Attributes}
use imcore.Conn.{Conn}

abbrev pub a_text : List ℕ → Stanza
a_text s = stanza 1 text_stanza (some s) none nil

-- `<mechanism>…</mechanism>` for each of the names, and what follows.
abbrev pub mechanism_tags : List (List ℕ) → Children → Children
mechanism_tags [] rest = rest
mechanism_tags (name ∷ names) rest =
    child (stanza 1 tag_stanza (some (codes "mechanism")) none (child (a_text name) nil))
      (mechanism_tags names rest)

-- `<features><mechanisms xmlns=…>…</mechanisms></features>`
abbrev pub features_of : Attributes → Children → Stanza
features_of t mechs =
    stanza 1 tag_stanza (some (codes "features")) none
      (child (stanza 1 tag_stanza (some (codes "mechanisms")) (some t) mechs) nil)
