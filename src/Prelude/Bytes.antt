-- ===== src/Prelude/Bytes.antt =====
-- Bytes that are written into a buffer one after the other.
use imcore.Prelude.{ℕ, zero, suc, ◌+◌, ◌≤◌, ◌<◌, ◌≡◌, refl, sym, ap, ◌∙◌, arith}
use imcore.Prelude.{List, [], ◌∷◌, ◌++◌, append_assoc, ltb, lt→ltb, length, set}
use imcore.Prelude.{length-append, Run, ok, fault, ◌>>=◌, ◌>>◌, at, ensure, out_of_bounds}
use imcore.Prelude.{>>=-cong, >>=-assoc, Bool-cases, inl, inr, length-set}

-- `*p++ = b` for each byte
unfoldable pub write_bytes : List ℕ → ℕ → List ℕ → Run (List ℕ)
write_bytes buf i [] = ok buf
write_bytes buf i (b ∷ bs) = do
  ensure (ltb i (length buf)) out_of_bounds
  write_bytes (set buf i b) (i + 1) bs

-- A buffer that holds `bs` at `i`, and what writing there does.
pub at-append :
    (pre : List ℕ) (c : ℕ) (post : List ℕ) (i : ℕ) → i ≡ length pre → at (pre ++ c ∷ post) i ≡ ok c
at-append [] c post i h = rw h
at-append (x ∷ pre) c post i h = rw h (at-append pre c post (length pre) refl)

set-append :
    (pre : List ℕ) (c : ℕ) (post : List ℕ) (b i : ℕ)
    → i ≡ length pre
    → set (pre ++ c ∷ post) i b ≡ pre ++ b ∷ post
set-append [] c post b i h = rw h
set-append (x ∷ pre) c post b i h =
    rw h (ap (λ (t : List ℕ). x ∷ t) (set-append pre c post b (length pre) refl))

pub write_bytes-append :
    (bs pre old post : List ℕ) (i : ℕ)
    → i ≡ length pre
    → length old ≡ length bs
    → write_bytes (pre ++ (old ++ post)) i bs ≡ ok (pre ++ (bs ++ post))
unfolding write_bytes
write_bytes-append [] pre [] post i h e = refl
write_bytes-append [] pre (o ∷ old) post i h e = absurd (omega arith)
write_bytes-append (b ∷ bs) pre [] post i h e = absurd (omega arith)
write_bytes-append (b ∷ bs) pre (o ∷ old) post i h e =
    rw (lt→ltb i (length (pre ++ o ∷ (old ++ post))) room, set-append pre o (old ++ post) b i h)
      (rw (← append_assoc pre (b ∷ []) (old ++ post), ← append_assoc pre (b ∷ []) (bs ++ post))
        (write_bytes-append bs (pre ++ b ∷ []) old post (i + 1)
          (omega (arith, length-append pre (b ∷ []))) (omega arith)))
  where
    room : i < length (pre ++ o ∷ (old ++ post))
    room = omega (arith, length-append pre (o ∷ (old ++ post)))

-- Every buffer with room for `n` bytes at `i` has that form.
pub split_at :
    (buf : List ℕ) (i n : ℕ)
    → i + n ≤ length buf
    → (pre old post : List ℕ) × (buf ≡ pre ++ (old ++ post)) × (length pre ≡ i) × (length old ≡ n)
split_at buf zero zero h = ([], [], buf, refl, refl, refl)
split_at [] i n h = absurd (omega arith)
split_at (b ∷ buf) zero (suc n) h =
    let (pre, old, post, e, p, o) = split_at buf zero n (omega arith) in head pre old post e p o
  where
    head :
        (pre old post : List ℕ)
        → buf ≡ pre ++ (old ++ post)
        → length pre ≡ 0
        → length old ≡ n
        → (pre' old' post' : List ℕ) × (b ∷ buf ≡ pre' ++ (old' ++ post'))
          × (length pre' ≡ 0)
          × (length old' ≡ suc n)
    head [] old post e p o = ([], b ∷ old, post, ap (λ (t : List ℕ). b ∷ t) e, refl, ap suc o)
    head (x ∷ pre) old post e p o = absurd (omega arith)
split_at (b ∷ buf) (suc i) n h =
    let (pre, old, post, e, p, o) = split_at buf i n (omega arith) in
    (b ∷ pre, old, post, ap (λ (t : List ℕ). b ∷ t) e, ap suc p, o)

pub write_bytes_two :
    (xs ys buf : List ℕ) (i : ℕ)
    → write_bytes buf i (xs ++ ys)
      ≡ (write_bytes buf i xs >>= λ (b : List ℕ). write_bytes b (i + length xs) ys)
unfolding write_bytes
write_bytes_two [] ys buf i = ap (λ (n : ℕ). write_bytes buf n ys) (omega arith)
write_bytes_two (x ∷ xs) ys buf i = elim (Bool-cases (ltb i (length buf))) [
  | inl e ↦ rw e (
      write_bytes_two xs ys (set buf i x) (i + 1)
      ∙ >>=-cong (write_bytes (set buf i x) (i + 1) xs) _ _
          (λ (b : List ℕ). ap (λ (n : ℕ). write_bytes b n ys) (omega arith)))
  | inr e ↦ rw (e) refl
]

-- Two writes in a row are one.
pub write_bytes_then {ℓ} :
    {B : Type ℓ} (xs ys buf : List ℕ) (i j : ℕ) (f : List ℕ → Run B)
    → j ≡ i + length xs
    → (write_bytes buf i xs >>= λ (b : List ℕ). write_bytes b j ys >>= f)
      ≡ (write_bytes buf i (xs ++ ys) >>= f)
write_bytes_then xs ys buf i j f e =
    rw (e, write_bytes_two xs ys buf i) (sym (>>=-assoc (write_bytes buf i xs) _ _))

pub write_bytes-short :
    (bs buf : List ℕ) (i : ℕ)
    → 0 < length bs
    → length buf < i + length bs
    → write_bytes buf i bs ≡ fault out_of_bounds
unfolding write_bytes
write_bytes-short [] buf i h k = absurd (omega arith)
write_bytes-short (b ∷ []) buf i h k = ground arith
write_bytes-short (b ∷ c ∷ bs) buf i h k = elim (Bool-cases (ltb i (length buf))) [
  | inl e ↦ rw e (
      write_bytes-short (c ∷ bs) (set buf i b) (i + 1) (omega arith)
        (omega (arith, length-set buf i b)))
  | inr e ↦ rw e refl
]
