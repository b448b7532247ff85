-- ===== src/Stanza/Escaped.antt =====
-- _escape_xml of xmpp-stanza.c against the text that it stands for.
use imcore.Prelude.{
  ℕ, ◌+◌, ◌≤◌, ◌≡◌, refl, sym, ap, ◌∙◌, arith, ◌==◌, if◌then◌else◌, Bool-cases, ◌⊎◌, inl, inr,
}
use imcore.Prelude.{
  List, [], ◌∷◌, ◌++◌, append_assoc, some, true, ok, length, length-append, replicate,
  length-replicate,
}
use imcore.Prelude.Text.{codes}
use imcore.Prelude.Search.{take-append}
use imcore.Prelude.Bytes.{write_bytes, write_bytes-append, split_at}
use imcore.Stanza.Escape.{
  ampersand, less, greater, quote, width, escape_len, copied, escape_loop, escape_into, escape_xml,
}

-- What stands for a character.
unfoldable pub entity : ℕ → List ℕ
entity c =
    if c == less
    then codes "&lt;"
    else if c == greater
    then codes "&gt;"
    else if c == ampersand
    then codes "&amp;"
    else if c == quote
    then codes "&quot;"
    else c ∷ []

unfoldable pub escape : List ℕ → List ℕ
escape [] = []
escape (c ∷ cs) = entity c ++ escape cs

length-entity : (c : ℕ) → length (entity c) ≡ width c
unfolding entity width
length-entity c = ground arith

escape_len-length : (text : List ℕ) (len : ℕ) → escape_len len text ≡ len + length (escape text)
unfolding escape_len escape
escape_len-length [] len = omega arith
escape_len-length (c ∷ cs) len = omega (
  arith,
  escape_len-length cs (len + width c),
  length-append (entity c) (escape cs),
  length-entity c,
)

-- What is written for one character is its entity, and perhaps a NUL behind it.
copied-entity : (c : ℕ) → (copied c ≡ entity c) ⊎ (copied c ≡ entity c ++ 0 ∷ [])
unfolding copied entity
copied-entity c = elim (Bool-cases (c == less)) [
  | inl e ↦ inr (ground (arith, e))
  | inr a ↦ elim (Bool-cases (c == greater)) [
    | inl e ↦ inr (ground (arith, a, e))
    | inr b ↦ elim (Bool-cases (c == ampersand)) [
      | inl e ↦ inr (ground (arith, a, b, e))
      | inr d ↦ elim (Bool-cases (c == quote)) [
        | inl e ↦ inr (ground (arith, a, b, d, e))
        | inr f ↦ inl (ground (arith, a, b, d, f))
      ]
    ]
  ]
]

-- It stays inside what is left, where a byte for the NUL is left too.
write_entity :
    (c : ℕ) (pre old : List ℕ) (r : ℕ) (rest : List ℕ)
    → length old ≡ length (entity c)
    → (r' : ℕ) × (write_bytes (pre ++ (old ++ r ∷ rest)) (length pre) (copied c)
        ≡ ok (pre ++ (entity c ++ r' ∷ rest)))
write_entity c pre old r rest e = elim (copied-entity c) [
  | inl k ↦ (r, rw k (write_bytes-append (entity c) pre old (r ∷ rest) (length pre) refl e))
  | inr k ↦ (
    0,
    rw (k, ← append_assoc old (r ∷ []) rest, ← append_assoc (entity c) (0 ∷ []) rest)
        (write_bytes-append (entity c ++ 0 ∷ []) pre (old ++ r ∷ []) rest (length pre) refl
          (omega (arith, e, length-append old (r ∷ []), length-append (entity c) (0 ∷ [])))),
  )
]

-- The loop from a place in the buffer: it fills all but one byte of what is left.
abbrev Fills : List ℕ → Type 0
Fills text =
    (pre tail : List ℕ) (dst : ℕ)
    → dst ≡ length pre
    → length tail ≡ length (escape text) + 1
    → (r : ℕ) × (escape_loop text (pre ++ tail) dst
        ≡ ok (pre ++ (escape text ++ r ∷ []), dst + length (escape text)))

fill_step :
    (c : ℕ) (cs pre old rest : List ℕ) (dst : ℕ)
    → Fills cs
    → dst ≡ length pre
    → length old ≡ length (entity c)
    → length rest ≡ length (escape cs) + 1
    → (r : ℕ) × (escape_loop (c ∷ cs) (pre ++ (old ++ rest)) dst
        ≡ ok (pre ++ (escape (c ∷ cs) ++ r ∷ []), dst + length (escape (c ∷ cs))))
unfolding escape_loop escape
fill_step c cs pre old [] dst ih e o k = absurd (omega arith)
fill_step c cs pre old (r ∷ rest) dst ih e o k =
    let (r', w) = write_entity c pre old r rest o in
    let (q, l) =
      ih (pre ++ entity c) (r' ∷ rest) (dst + width c)
        (omega (arith, e, length-append pre (entity c), length-entity c)) k in
    (
      q,
      rw
          (
            e,
            w,
            ← append_assoc pre (entity c) (r' ∷ rest),
            ← e,
            l,
            append_assoc pre (entity c) (escape cs ++ q ∷ []),
            append_assoc (entity c) (escape cs) (q ∷ []),
          )
          (ap (λ (n : ℕ). ok (pre ++ (entity c ++ (escape cs ++ q ∷ [])), n))
            (omega (arith, length-append (entity c) (escape cs), length-entity c))),
    )

escape_loop-Fills : (text : List ℕ) → Fills text
escape_loop-Fills [] pre [] dst e h = absurd (omega arith)
escape_loop-Fills [] pre (r ∷ []) dst e h =
    (r, unfold escape_loop escape in ap (λ (n : ℕ). ok (pre ++ r ∷ [], n)) (omega arith))
escape_loop-Fills [] pre (r ∷ x ∷ tail) dst e h = absurd (unfold escape in omega arith)
escape_loop-Fills (c ∷ cs) pre tail dst e h =
    let (a, o, b, k, la, lo) = split_at tail (length (entity c)) 0 (long c cs (length tail) h) in
    rw k (
      fill_step c cs pre a (o ++ b) dst (escape_loop-Fills cs) e la (
        rest c cs (length a) (length (o ++ b)) la
          (sym (length-append a (o ++ b)) ∙ ap length (sym k) ∙ h)))
  where
    long :
        (c : ℕ) (cs : List ℕ) (n : ℕ) → n ≡ length (escape (c ∷ cs)) + 1 → length (entity c) + 0 ≤ n
    long c cs n h = unfold escape in omega (arith, h, length-append (entity c) (escape cs))

    rest :
        (c : ℕ) (cs : List ℕ) (m n : ℕ)
        → m ≡ length (entity c)
        → m + n ≡ length (escape (c ∷ cs)) + 1
        → n ≡ length (escape cs) + 1
    rest c cs m n e h = unfold escape in omega (arith, e, h, length-append (entity c) (escape cs))

-- _escape_xml never writes outside the block that it allocates for the length it has computed, and what
-- it returns is the text with each of the four characters < > & " replaced by its entity.
pub escape_xml-escape : (text : List ℕ) → escape_xml true text ≡ ok (some (escape text))
unfolding escape_xml escape_into
escape_xml-escape text =
    let size : length (replicate (escape_len 0 text + 1) 0) ≡ length (escape text) + 1 =
      length-replicate (escape_len 0 text + 1) 0
      ∙ ap (λ (n : ℕ). n + 1) (escape_len-length text 0 ∙ omega arith) in
    let (r, l) = fills text (replicate (escape_len 0 text + 1) 0) size in
    rw (l, append_one (escape text) r, take-append (escape text) (0 ∷ [])) refl
  where
    fills :
        (text tail : List ℕ)
        → length tail ≡ length (escape text) + 1
        → (r : ℕ) × (escape_loop text tail 0 ≡ ok (escape text ++ r ∷ [], length (escape text)))
    fills text tail h =
        let (r, l) = escape_loop-Fills text [] tail 0 refl h in
        (r, l ∙ ap (λ (n : ℕ). ok (escape text ++ r ∷ [], n)) (omega arith))

    append_one :
        (xs : List ℕ) (r : ℕ) → write_bytes (xs ++ r ∷ []) (length xs) (0 ∷ []) ≡ ok (xs ++ 0 ∷ [])
    append_one xs r = write_bytes-append (0 ∷ []) xs (r ∷ []) [] (length xs) refl refl
