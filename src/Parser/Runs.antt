-- ===== src/Parser/Runs.antt =====
-- The parser at a concrete element: the theorem's instance, and what it hands over.
use imcore.Prelude.{◌≡◌, refl, [], ◌∷◌, ◌++◌, ok, ◌>>=◌, some, none}
use imcore.Prelude.Text.{strdup, codes}
use imcore.Stanza.Tree.{
  Stanza, stanza, nil, child, tag_stanza, text_stanza, xmpp_stanza_set_name,
  xmpp_stanza_set_text_safe, safe_text, with_text,
}
use imcore.Stanza.Children.{append_child}
use imcore.Parser.{stanza_callback, parse, opened, set_attributes, set_namespace, xml_name}
use imcore.Parser.{xml_namespace, link}
use imcore.Prelude.Search.{strchr}
use imcore.Parser.Built.{
  Element, element, text, inner, empty, events, build, build_content, new_stanza, parser_at,
  parse-build,
}

-- `<message><body>hi</body></message>`
abbrev message : Element
message =
    element (codes "message") []
      (inner (element (codes "body") [] (text (codes "hi") 2 empty)) empty)

abbrev message_stanza : Stanza
message_stanza = stanza 1 tag_stanza (some (codes "message")) none (
    child
      (stanza 1 tag_stanza (some (codes "body")) none
        (child (stanza 1 text_stanza (some (codes "hi")) none nil) nil))
      nil)

built : build new_stanza message ≡ ok message_stanza
unfolding build build_content opened set_attributes set_namespace xml_name xml_namespace link strchr
    append_child xmpp_stanza_set_name xmpp_stanza_set_text_safe safe_text with_text strdup
built = refl

parse-build_example : parse (events message ++ []) (parser_at 1 []) ≡ (
    build new_stanza message >>= λ s.
    parse [] (parser_at 1 []) >>= λ q. ok (q.0, stanza_callback s ∷ q.1))
parse-build_example = parse-build message []
