-- ===== src/Stanza/ToText.antt =====
-- xmpp_stanza_to_text of xmpp-stanza.c: the buffer that it returns.
use imcore.Prelude.{
  ℕ, zero, suc, ◌+◌, ◌-◌, ◌≤◌, ◌<◌, ◌≡◌, refl, sym, ap, ◌∙◌, arith, Bool-cases, inl, inr, ltb, true,
  false,
}
use imcore.Prelude.{
  List, [], ◌∷◌, ◌++◌, append_assoc, Option, some, Run, ok, length, length-append, set, take,
}
use imcore.Prelude.{ltb-false, lt→ltb, replicate, length-replicate, length-take_le}
use native.Mathlib.Numerals.{add-one}
use imcore.Prelude.Bytes.{write_bytes, write_bytes-append, split_at}
use imcore.Stanza.Tree.{Stanza, Attributes}
use imcore.Stanza.Pen.{im_snprintf}
use imcore.Stanza.Emit.{after_emits, take_enough}
use imcore.Stanza.Render.{Answer, value, pass, on_value, finish, render_stanza_recursive}
use imcore.Stanza.Render.{grown, terminated, second_answer, first_answer, xmpp_stanza_to_text}
use imcore.Stanza.Text.{stanza_text}
use imcore.Stanza.Rendered.{render-Renders, pen_written}

-- im_snprintf at the start of a buffer with room for `size`.
snprintf_front :
    (buf : List ℕ) (k : ℕ) (t : List ℕ)
    → suc k ≤ length buf
    → (rest : List ℕ) × (im_snprintf buf (some 0) (suc k) t ≡ ok (take k t ++ 0 ∷ rest))
      × (length (take k t ++ 0 ∷ rest) ≡ length buf)
unfolding im_snprintf
snprintf_front buf k t h =
    let (pre, old, post, e, p, o) =
      split_at buf 0 (length (take k t ++ 0 ∷ []))
        (omega (arith, h, length-append (take k t) (0 ∷ []), length-take_le k t)) in
    (
      post,
      rw (e, front pre (old ++ post) p)
          (write_bytes-append (take k t ++ 0 ∷ []) [] old post 0 refl o
            ∙ ap ok (append_assoc (take k t) (0 ∷ []) post)),
      sizes (take k t) pre old post p o ∙ ap length (sym e),
    )
  where
    front : (pre xs : List ℕ) → length pre ≡ 0 → pre ++ xs ≡ xs
    front [] xs h = refl
    front (x ∷ pre) xs h = absurd (omega arith)

    sizes :
        (u pre old post : List ℕ)
        → length pre ≡ 0
        → length old ≡ length (u ++ 0 ∷ [])
        → length (u ++ 0 ∷ post) ≡ length (pre ++ (old ++ post))
    sizes u pre old post p o = omega (
      arith,
      p,
      o,
      length-append u (0 ∷ post),
      length-append u (0 ∷ []),
      length-append pre (old ++ post),
      length-append old post,
    )

-- A rendering into the start of a buffer.
render_front :
    (parent : Option (Option Attributes)) (s : Stanza) (buf : List ℕ) (k : ℕ) (t : List ℕ)
    → stanza_text parent s ≡ ok (value t)
    → suc k ≤ length buf
    → (rest : List ℕ) × (render_stanza_recursive true parent s buf (some 0) (suc k)
        ≡ ok (value (length t, take k t ++ 0 ∷ rest)))
      × (length (take k t ++ 0 ∷ rest) ≡ length buf)
render_front parent s buf k t e h =
    let (rest, w, l) = snprintf_front buf k t h in
    let (n, b) = pen_written (suc k) (length t) (take k t ++ 0 ∷ rest) (some 0) in
    (
      rest,
      render-Renders s parent t e buf (some 0) (suc k)
          ∙ rw (after_emits buf (some 0) (suc k) t, w) (unfold finish in rw (n, b) refl),
      l,
    )

-- A NUL written at or behind the end of a text leaves the text.
set_end :
    (t rest : List ℕ) (i : ℕ)
    → length t ≤ i
    → (rest' : List ℕ) × (set (t ++ 0 ∷ rest) i 0 ≡ t ++ 0 ∷ rest')
set_end [] rest zero h = (rest, refl)
set_end [] rest (suc i) h = (set rest i 0, refl)
set_end (c ∷ t) rest zero h = absurd (omega arith)
set_end (c ∷ t) rest (suc i) h =
    let (rest', e) = set_end t rest i (omega arith) in (rest', ap (λ (v : List ℕ). c ∷ v) e)

-- The answer is a buffer with this text and a NUL, and the text's length.
abbrev pub Holds : List ℕ → Run (Answer (List ℕ × ℕ)) → Type 0
Holds t m = (rest : List ℕ) × (m ≡ ok (value (t ++ 0 ∷ rest, length t)))

terminated-Holds :
    (t rest : List ℕ) (size : ℕ)
    → length t < size
    → size ≤ length (t ++ 0 ∷ rest)
    → Holds t (terminated size (t ++ 0 ∷ rest) (length t))
unfolding terminated write_bytes
terminated-Holds t rest size h k =
    let (rest', e) = set_end t rest (size - 1) (omega arith) in
    (rest', rw (lt→ltb (size - 1) (length (t ++ 0 ∷ rest)) (omega arith), e) refl)

length-grown : (buf : List ℕ) (n : ℕ) → n ≤ length (grown buf n)
unfolding grown
length-grown buf n = omega (
  arith,
  length-append buf (replicate (n - length buf) 0),
  length-replicate {A = ℕ} (n - length buf) 0,
)

second_answer-Holds :
    (t rest : List ℕ)
    → length t + 1 ≤ length (t ++ 0 ∷ rest)
    → Holds t (second_answer (length t + 1) (value (length t, t ++ 0 ∷ rest)))
unfolding second_answer
second_answer-Holds t rest k =
    rw (over (length t)) (terminated-Holds t rest (length t + 1) (omega arith) k)
  where
    over : (n : ℕ) → ltb (n + 1 - 1) n ≡ false
    over n = ground arith

render_again :
    (parent : Option (Option Attributes)) (s : Stanza) (buf t : List ℕ)
    → stanza_text parent s ≡ ok (value t)
    → length t + 1 ≤ length buf
    → (rest : List ℕ) × (render_stanza_recursive true parent s buf (some 0) (length t + 1)
        ≡ ok (value (length t, t ++ 0 ∷ rest)))
      × (length t + 1 ≤ length (t ++ 0 ∷ rest))
render_again parent s buf t e h =
    let (rest, r, l) = render_front parent s buf (length t) t e (omega arith) in
    (
      rest,
      rw (add-one (length t)) (
          r
          ∙ ap (λ (v : List ℕ). ok (value (length t, v ++ 0 ∷ rest)))
              (take_enough t (length t) (omega arith))),
      omega (arith, length-append t (0 ∷ rest)),
    )

first_answer-Holds :
    (parent : Option (Option Attributes)) (s : Stanza) (t rest : List ℕ)
    → stanza_text parent s ≡ ok (value t)
    → length (take 127 t ++ 0 ∷ rest) ≡ 128
    → Holds t (first_answer true true parent s (length t, take 127 t ++ 0 ∷ rest))
unfolding first_answer
first_answer-Holds parent s t rest e k = elim (Bool-cases (ltb 127 (length t))) [
  | inl b ↦
      let (rest', r, l) =
        render_again parent s (grown (take 127 t ++ 0 ∷ rest) (length t + 1)) t e
          (length-grown (take 127 t ++ 0 ∷ rest) (length t + 1)) in
      rw (b, r) (second_answer-Holds t rest' l)
  | inr b ↦
      let short : take 127 t ≡ t = take_enough t 127 (ltb-false 127 (length t) b) in
      rw (b, short)
        (terminated-Holds t rest 128 (below (length t) (ltb-false 127 (length t) b))
          (all t short k))
]
  where
    below : (n : ℕ) → n ≤ 127 → n < 128
    below n h = omega arith

    all :
        (t : List ℕ)
        → take 127 t ≡ t
        → length (take 127 t ++ 0 ∷ rest) ≡ 128
        → 128 ≤ length (t ++ 0 ∷ rest)
    all t e k = rw (← e, k) (omega arith)

-- For every stanza that has a text, xmpp_stanza_to_text, where its allocations succeed, returns a buffer
-- that holds this text and its NUL, and the text's length, with no access outside its buffers.
pub to_text-Holds :
    (parent : Option (Option Attributes)) (s : Stanza) (t : List ℕ)
    → stanza_text parent s ≡ ok (value t)
    → Holds t (xmpp_stanza_to_text true true true parent s)
unfolding xmpp_stanza_to_text
to_text-Holds parent s t e =
    let (rest, r, l) = render_front parent s (replicate 128 0) 127 t e (omega arith) in
    rw r (unfold on_value pass in first_answer-Holds parent s t rest e (l ∙ refl))
