-- ===== src/Parser/Built.antt =====
-- xmpp-parser-expat.c: the events of an element against the stanza that is built of it by recursion.
use imcore.Prelude.{ℕ, suc, ◌-◌, ◌≡◌, refl, sym, ap, ◌∙◌, ltb, ◌==◌, true, false}
use imcore.Prelude.{List, [], ◌∷◌, ◌++◌, append_assoc, none, arith}
use imcore.Prelude.{Run, ok, fault, ◌>>=◌, >>=-assoc, >>=-cong}
use imcore.Stanza.Tree.{
  Stanza, stanza, unknown_stanza, nil, Code, xmpp_stanza_new, xmpp_stanza_set_text_safe,
}
use imcore.Parser.{
  Parser, Sax, start_element, end_element, characters, Calls, silent, stanza_callback, link, opened,
  on_sax, on_start, on_end, on_characters, push, may_open, close_stanza, add_text, parse, heard,
}

-- An element with its texts and elements, and the events that expat makes of it.
mutual
  pub data Element : Type 0 where
    element : (name : List ℕ) (attrs : List (List ℕ × List ℕ)) (content : Content) → Element

  pub data Content : Type 0 where
    empty : Content
    text : (text : List ℕ) (size : ℕ) → Content → Content
    inner : Element → Content → Content

unfoldable mutual
  pub events : Element → List Sax
  events (element name attrs content) =
      start_element name attrs ∷ (content_events content ++ end_element ∷ [])

  pub content_events : Content → List Sax
  content_events empty = []
  content_events (text t size rest) = characters t size ∷ content_events rest
  content_events (inner e rest) = events e ++ content_events rest

-- The reference: the stanza of an element, built from the outside in.
unfoldable mutual
  pub build : Stanza → Element → Run Stanza
  build new (element name attrs content) = opened new name attrs >>= build_content new content

  pub build_content : Stanza → Content → Stanza → Run Stanza
  build_content new empty s = ok s
  build_content new (text t size rest) s = do
    r ← xmpp_stanza_set_text_safe true new t size
    build_content new rest (link s r.1)
  build_content new (inner e rest) s = do child ← build new e; build_content new rest (link s child)

abbrev pub new_stanza : Stanza
new_stanza = stanza 1 unknown_stanza none none nil

unheard : (m : Run (Parser × List Calls)) → (m >>= λ q. ok (q.0, q.1)) ≡ m
unheard (ok (p, calls)) = refl
unheard (fault e) = refl

-- An event that calls nothing.
silent_step :
    (e : Sax) (es : List Sax) (p p' : Parser)
    → on_sax e p ≡ ok (p', silent)
    → parse (e ∷ es) p ≡ parse es p'
unfolding parse heard
silent_step e es p p' h =
    ap (λ (m : Run (Parser × Calls)). m >>= λ r. parse es r.0 >>= λ q. ok (q.0, heard r.1 q.1)) h
    ∙ unheard (parse es p')

abbrev pub parser_at : ℕ → List Stanza → Parser
parser_at d ss = record { depth = d; open_stanzas = ss }

module _ (es : List Sax) where
  -- What follows a run that opens or changes the innermost stanza.
  after : (d : ℕ) (ss : List Stanza) (m : Run Stanza) → Run (Parser × List Calls)
  after d ss m = m >>= λ s. parse es (parser_at d (s ∷ ss))

start_opens :
    (d : ℕ) (name : List ℕ) (attrs : List (List ℕ × List ℕ)) (ss : List Stanza) (es : List Sax)
    → d == 0 ≡ false
    → may_open d ss ≡ true
    → parse (start_element name attrs ∷ es) (parser_at d ss)
      ≡ after es (suc d) ss (opened new_stanza name attrs)
unfolding parse heard on_sax on_start push after xmpp_stanza_new
start_opens d name attrs ss es z m = rw (z, m) (go (opened new_stanza name attrs))
  where
    go :
        (m : Run Stanza)
        → (m >>= (λ s. ok (push (parser_at d ss) s)) >>= λ r.
            parse es r.0 >>= λ q. ok (q.0, heard r.1 q.1))
          ≡ (m >>= λ s. parse es (parser_at (suc d) (s ∷ ss)))
    go (ok s) = unheard (parse es (parser_at (suc d) (s ∷ ss)))
    go (fault e) = refl

text_links :
    (k : ℕ) (t : List ℕ) (size : ℕ) (s : Stanza) (ss : List Stanza) (es : List Sax)
    → parse (characters t size ∷ es) (parser_at (suc (suc k)) (s ∷ ss)) ≡ (
        xmpp_stanza_set_text_safe true new_stanza t size >>= λ r.
        parse es (parser_at (suc (suc k)) (link s r.1 ∷ ss)))
unfolding parse heard on_sax on_characters add_text xmpp_stanza_new
text_links k t size s ss es = rw (deep k) (go (xmpp_stanza_set_text_safe true new_stanza t size))
  where
    deep : (k : ℕ) → ltb (suc (suc k)) 2 ≡ false
    deep k = ground arith

    go :
        (m : Run (Code × Stanza))
        → (m >>= (λ r. add_text (parser_at (suc (suc k)) (s ∷ ss)) r.1) >>= λ r.
            parse es r.0 >>= λ q. ok (q.0, heard r.1 q.1))
          ≡ (m >>= λ r. parse es (parser_at (suc (suc k)) (link s r.1 ∷ ss)))
    go (ok r) = unheard (parse es (parser_at (suc (suc k)) (link s r.1 ∷ ss)))
    go (fault e) = refl

end_links :
    (k : ℕ) (s parent : Stanza) (ss : List Stanza) (es : List Sax)
    → parse (end_element ∷ es) (parser_at (suc (suc (suc k))) (s ∷ parent ∷ ss))
      ≡ parse es (parser_at (suc (suc k)) (link parent s ∷ ss))
end_links k s parent ss es = silent_step end_element es _ _ (ends k)
  where
    deep : (k : ℕ) → suc (suc (suc k)) == 1 ≡ false
    deep k = ground arith

    up : (k : ℕ) → suc (suc (suc k)) - 1 ≡ suc (suc k)
    up k = omega arith

    ends :
        (k : ℕ)
        → on_sax end_element (parser_at (suc (suc (suc k))) (s ∷ parent ∷ ss))
          ≡ ok (parser_at (suc (suc k)) (link parent s ∷ ss), silent)
    ends k = unfold on_sax on_end close_stanza in rw (deep k, up k) refl

end_calls :
    (s : Stanza) (es : List Sax)
    → parse (end_element ∷ es) (parser_at 2 (s ∷ []))
      ≡ (parse es (parser_at 1 []) >>= λ q. ok (q.0, stanza_callback s ∷ q.1))
unfolding parse heard on_sax on_end close_stanza
end_calls s es = refl

deep_start :
    (k : ℕ) (s : Stanza) (ss : List Stanza)
    → (suc (suc k) == 0 ≡ false) × (may_open (suc (suc k)) (s ∷ ss) ≡ true)
unfolding may_open
deep_start k s ss = (ground arith, ground arith)

mutual
  unfolding events content_events build build_content after

  element_parsed :
      (e : Element) (k : ℕ) (s : Stanza) (ss : List Stanza) (es : List Sax)
      → parse (events e ++ es) (parser_at (suc (suc k)) (s ∷ ss))
        ≡ (build new_stanza e >>= λ child. parse es (parser_at (suc (suc k)) (link s child ∷ ss)))
  element_parsed (element name attrs content) k s ss es =
      let (z, m) = deep_start k s ss in
      ap (λ (l : List Sax). parse (start_element name attrs ∷ l) (parser_at (suc (suc k)) (s ∷ ss)))
        (append_assoc (content_events content) (end_element ∷ []) es)
      ∙ (start_opens (suc (suc k)) name attrs (s ∷ ss) (content_events content ++ end_element ∷ es)
            z m
          ∙ (>>=-cong (opened new_stanza name attrs) _
                (λ x. build_content new_stanza content x >>= λ y.
                  parse es (parser_at (suc (suc k)) (link s y ∷ ss)))
                (λ x.
                  content_parsed content (suc k) x (s ∷ ss) (end_element ∷ es)
                  ∙ >>=-cong (build_content new_stanza content x) _ _ (λ y. end_links k y s ss es))
              ∙ sym
                  (>>=-assoc (opened new_stanza name attrs) (build_content new_stanza content) _)))

  content_parsed :
      (c : Content) (k : ℕ) (s : Stanza) (ss : List Stanza) (es : List Sax)
      → parse (content_events c ++ es) (parser_at (suc (suc k)) (s ∷ ss))
        ≡ after es (suc (suc k)) ss (build_content new_stanza c s)
  content_parsed empty k s ss es = refl
  content_parsed (text t size rest) k s ss es =
      text_links k t size s ss (content_events rest ++ es)
      ∙ (>>=-cong (xmpp_stanza_set_text_safe true new_stanza t size) _ _
            (λ r. content_parsed rest k (link s r.1) ss es)
          ∙ sym (>>=-assoc (xmpp_stanza_set_text_safe true new_stanza t size) _ _))
  content_parsed (inner e rest) k s ss es =
      ap (λ (l : List Sax). parse l (parser_at (suc (suc k)) (s ∷ ss)))
        (append_assoc (events e) (content_events rest) es)
      ∙ (element_parsed e k s ss (content_events rest ++ es)
          ∙ (>>=-cong (build new_stanza e) _ _ (λ child. content_parsed rest k (link s child) ss es)
              ∙ sym (>>=-assoc (build new_stanza e) _ _)))

-- Whatever an element of the stream holds, and however deep, its events make the parser hand the
-- connection one stanza, the one that is built of the element by recursion, at the end of the
-- element; the parser is then where it was. Where the building faults, so does the parser.
pub parse-build :
    (e : Element) (es : List Sax)
    → parse (events e ++ es) (parser_at 1 []) ≡ (
        build new_stanza e >>= λ s.
        parse es (parser_at 1 []) >>= λ q. ok (q.0, stanza_callback s ∷ q.1))
unfolding events build after
parse-build (element name attrs content) es =
    ap (λ (l : List Sax). parse (start_element name attrs ∷ l) (parser_at 1 []))
      (append_assoc (content_events content) (end_element ∷ []) es)
    ∙ (start_opens 1 name attrs [] (content_events content ++ end_element ∷ es) refl
          (unfold may_open in refl)
        ∙ (>>=-cong (opened new_stanza name attrs) _
              (λ x. build_content new_stanza content x >>= λ s.
                parse es (parser_at 1 []) >>= λ q. ok (q.0, stanza_callback s ∷ q.1))
              (λ x.
                content_parsed content 0 x [] (end_element ∷ es)
                ∙ >>=-cong (build_content new_stanza content x) _ _ (λ s. end_calls s es))
            ∙ sym (>>=-assoc (opened new_stanza name attrs) (build_content new_stanza content) _)))
