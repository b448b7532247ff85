-- ===== src/Srv/Labels.antt =====
-- Domain names as lists of labels: with dots as a text, and with lengths in a message.
use imcore.Prelude.{ℕ, zero, suc, ◌+◌, ◌≤◌, ◌<◌, ◌≡◌, ◌≢◌, refl, sym, ap, ◌∙◌, arith}
use imcore.Prelude.{List, [], ◌∷◌, ◌++◌, All, length, length-append}
use imcore.Prelude.{Run, ok, ◌>>=◌, >>=-cong, >>=-assoc}
use imcore.Prelude.Bytes.{write_bytes, write_bytes_two}
use imcore.Srv.Name.{dot, word, behind, capped, add_words, netbuf_add_domain_name}

-- A label: up to 63 bytes, without a NUL or a dot.
abbrev pub IsLabel : List ℕ → Type 0
IsLabel l = (0 < length l) × (length l < 64) × All (λ c. (c ≢ 0) × (c ≢ dot)) l

-- `.a.b` and `a.b`
unfoldable pub dotted : List (List ℕ) → List ℕ
dotted [] = []
dotted (l ∷ ls) = dot ∷ (l ++ dotted ls)

unfoldable pub joined : List (List ℕ) → List ℕ
joined [] = []
joined (l ∷ ls) = l ++ dotted ls

-- The labels in a message, without the NUL that ends them.
unfoldable pub wire : List (List ℕ) → List ℕ
wire [] = []
wire (l ∷ ls) = length l ∷ (l ++ wire ls)

-- The length that netbuf_get_domain_name measures: that of the labels, without the dots.
unfoldable pub label_bytes : List (List ℕ) → ℕ
label_bytes [] = 0
label_bytes (l ∷ ls) = length l + label_bytes ls

unfoldable pub with_dots : List (List ℕ) → List ℕ
with_dots [] = []
with_dots (l ∷ ls) = dot ∷ joined (l ∷ ls)

dotted_joined : (ls : List (List ℕ)) → dotted ls ≡ with_dots ls
unfolding dotted joined with_dots
dotted_joined [] = refl
dotted_joined (l ∷ ls) = refl

-- The first word of a text is its first label.
word-joined :
    (l : List ℕ) (ls : List (List ℕ))
    → All (λ c. (c ≢ 0) × (c ≢ dot)) l
    → (word (l ++ dotted ls) ≡ l) × (behind (l ++ dotted ls) ≡ joined ls)
unfolding word behind
word-joined [] [] h = unfold dotted joined in (refl, refl)
word-joined [] (k ∷ ls) h = unfold dotted joined in (refl, refl)
word-joined (c ∷ l) ls h = ground (arith, word-joined l ls h.1)

capped-label : (n : ℕ) → n < 64 → capped n ≡ n
unfolding capped
capped-label n h = ground arith

-- One round writes one label.
add_words_first :
    (l : List ℕ) (ls : List (List ℕ)) (fuel : ℕ) (buf : List ℕ) (p : ℕ)
    → IsLabel l
    → add_words (suc fuel) buf p (joined (l ∷ ls)) ≡ (
        write_bytes buf p (length l ∷ l) >>= λ (b : List ℕ).
        add_words fuel b (p + suc (length l)) (joined ls))
unfolding add_words
add_words_first [] ls fuel buf p h = absurd (omega (arith, h.0))
add_words_first (c ∷ cs) ls fuel buf p h =
    let (first, rest) = word-joined (c ∷ cs) ls h.2 in
    simp (split c cs ls, first, rest, capped-label (length (c ∷ cs)) h.1) refl
  where
    split :
        (c : ℕ) (cs : List ℕ) (ls : List (List ℕ)) → joined ((c ∷ cs) ∷ ls) ≡ c ∷ (cs ++ dotted ls)
    split c cs ls = unfold joined in refl

abbrev pub ended : ℕ → List ℕ → Run (List ℕ × ℕ)
ended p buf = ok (buf, p)

wire_first :
    (l : List ℕ) (ls : List (List ℕ)) (buf : List ℕ) (p : ℕ)
    → (write_bytes buf p (wire (l ∷ ls)) >>= ended (p + length (wire (l ∷ ls)))) ≡ (
        write_bytes buf p (length l ∷ l) >>= λ (b : List ℕ).
        write_bytes b (p + suc (length l)) (wire ls)
        >>= ended (p + suc (length l) + length (wire ls)))
unfolding wire
wire_first l ls buf p = rw (write_bytes_two (length l ∷ l) (wire ls) buf p) (
    >>=-assoc (write_bytes buf p (length l ∷ l)) _ _
    ∙ >>=-cong (write_bytes buf p (length l ∷ l)) _ _ (λ (b : List ℕ).
      >>=-cong (write_bytes b (p + suc (length l)) (wire ls)) _ _
        (λ (b' : List ℕ). ap (λ (n : ℕ). ended n b') (far l ls))))
  where
    far :
        (l : List ℕ) (ls : List (List ℕ))
        → p + suc (length (l ++ wire ls)) ≡ p + suc (length l) + length (wire ls)
    far l ls = omega (arith, length-append l (wire ls))

-- Writing the words of a text writes its labels.
add_words-wire :
    (ls : List (List ℕ)) (fuel : ℕ) (buf : List ℕ) (p : ℕ)
    → All IsLabel ls
    → length ls < fuel
    → add_words fuel buf p (joined ls)
      ≡ (write_bytes buf p (wire ls) >>= ended (p + length (wire ls)))
add_words-wire ls zero buf p h f = absurd (omega arith)
add_words-wire [] (suc fuel) buf p h f =
    unfold add_words joined wire write_bytes in ap (λ (n : ℕ). ok (buf, n)) (omega arith)
add_words-wire (l ∷ ls) (suc fuel) buf p h f =
    add_words_first l ls fuel buf p h.0
    ∙ >>=-cong (write_bytes buf p (length l ∷ l)) _ _
        (λ (b : List ℕ). add_words-wire ls fuel b (p + suc (length l)) h.1 (omega arith))
    ∙ sym (wire_first l ls buf p)

-- A name has as many characters as labels, so there is fuel for all of them.
length-dotted : (ls : List (List ℕ)) → length ls ≤ length (dotted ls)
unfolding dotted
length-dotted [] = omega arith
length-dotted (l ∷ ls) = omega (arith, length-dotted ls, length-append l (dotted ls))

length-joined : (ls : List (List ℕ)) → All IsLabel ls → length ls ≤ length (joined ls)
unfolding joined
length-joined [] h = omega arith
length-joined (l ∷ ls) h = omega (arith, h.0.0, length-dotted ls, length-append l (dotted ls))

-- The name is written as its labels and a NUL.
pub add_domain_name_wire :
    (buf : List ℕ) (p : ℕ) (ls : List (List ℕ))
    → All IsLabel ls
    → netbuf_add_domain_name buf p (joined ls)
      ≡ (write_bytes buf p (wire ls ++ 0 ∷ []) >>= ended (p + length (wire ls) + 1))
unfolding netbuf_add_domain_name
add_domain_name_wire buf p ls h =
    rw
      (
        add_words-wire ls (suc (length (joined ls))) buf p h (omega (arith, length-joined ls h)),
        write_bytes_two (wire ls) (0 ∷ []) buf p,
      )
      (>>=-assoc (write_bytes buf p (wire ls)) _ _
        ∙ sym (>>=-assoc (write_bytes buf p (wire ls)) _ _))
