-- ===== src/Stanza/Emit.antt =====
-- xmpp-stanza.c: two calls of im_snprintf with the update behind them are one call with both texts.
use imcore.Prelude.{
  ℕ, zero, suc, ◌+◌, ◌-◌, ◌≤◌, ◌≡◌, refl, sym, ap, ◌∙◌, arith, Bool-cases, inl, inr,
}
use imcore.Prelude.{ltb, List, [], ◌∷◌, ◌++◌, append_assoc, Option, none, some, take}
use imcore.Prelude.{Run, ok, ◌>>=◌, length, length-append, set, length-set, >>=-assoc, >>=-cong}
use imcore.Prelude.Bytes.{write_bytes_two, write_bytes}
use imcore.Stanza.Pen.{Pen, im_snprintf, forward, render_update, emit, start, after}

set_twice : (buf : List ℕ) (i z c : ℕ) → set (set buf i z) i c ≡ set buf i c
set_twice [] i z c = refl
set_twice (x ∷ buf) zero z c = refl
set_twice (x ∷ buf) (suc i) z c = ap (λ (t : List ℕ). x ∷ t) (set_twice buf i z c)

pub overwrite_first :
    (buf : List ℕ) (i z c : ℕ) (cs : List ℕ)
    → (write_bytes buf i (z ∷ []) >>= λ (b : List ℕ). write_bytes b i (c ∷ cs))
      ≡ write_bytes buf i (c ∷ cs)
unfolding write_bytes
overwrite_first buf i z c cs = elim (Bool-cases (ltb i (length buf))) [
  | inl e ↦ rw (e, length-set buf i z, e, set_twice buf i z c) refl
  | inr e ↦ rw e refl
]

-- A text with its NUL, and a second one over the NUL.
write_over :
    (t v buf : List ℕ) (p q : ℕ)
    → q ≡ p + length t
    → (write_bytes buf p (t ++ 0 ∷ []) >>= λ (b : List ℕ). write_bytes b q (v ++ 0 ∷ []))
      ≡ write_bytes buf p (t ++ (v ++ 0 ∷ []))
write_over t v buf p q e =
    rw (e, write_bytes_two t (0 ∷ []) buf p, write_bytes_two t (v ++ 0 ∷ []) buf p)
      (>>=-assoc (write_bytes buf p t) _ _
        ∙ >>=-cong (write_bytes buf p t) _ _ (λ (b : List ℕ). over v b (p + length t)))
  where
    over :
        (v b : List ℕ) (i : ℕ)
        → (write_bytes b i (0 ∷ []) >>= λ (b' : List ℕ). write_bytes b' i (v ++ 0 ∷ []))
          ≡ write_bytes b i (v ++ 0 ∷ [])
    over [] b i = overwrite_first b i 0 0 []
    over (c ∷ cs) b i = overwrite_first b i 0 c (cs ++ 0 ∷ [])

take_less : (t u : List ℕ) (k : ℕ) → length t ≤ k → t ++ take (k - length t) u ≡ take k (t ++ u)
take_less [] u k h = ground arith
take_less (c ∷ t) u zero h = absurd (omega arith)
take_less (c ∷ t) u (suc k) h = ground (arith, take_less t u k)

take_more : (t u : List ℕ) (k : ℕ) → k ≤ length t → take k (t ++ u) ≡ take k t
take_more [] u zero h = refl
take_more [] u (suc k) h = absurd (omega arith)
take_more (c ∷ t) u zero h = refl
take_more (c ∷ t) u (suc k) h = ap (λ (r : List ℕ). c ∷ r) (take_more t u k (omega arith))

forward_twice : (ptr : Option ℕ) (n m : ℕ) → forward (forward ptr n) m ≡ forward ptr (n + m)
unfolding forward
forward_twice none n m = refl
forward_twice (some p) n m = ap some (omega arith)

-- Two updates in a row are one; once the texts have filled the memory, nothing is left.
update_twice :
    (size : ℕ) (buf : List ℕ) (ptr : Option ℕ) (n m : ℕ)
    → render_update size (render_update size (start buf ptr size) n) m
      ≡ render_update size (start buf ptr size) (n + m)
unfolding render_update start
update_twice size buf ptr n m = ground (arith, forward_twice ptr n m)

left_full :
    (size : ℕ) (buf : List ℕ) (ptr : Option ℕ) (n : ℕ)
    → size ≤ n
    → (render_update size (start buf ptr size) n).left ≡ 0
unfolding render_update start
left_full size buf ptr n h = ground arith

update_fits :
    (k : ℕ) (buf : List ℕ) (p n : ℕ)
    → n ≤ k
    → render_update (suc k) (start buf (some p) (suc k)) n
      ≡ record { buf = buf; written = n; left = suc (k - n); ptr = some (p + n) }
unfolding render_update start forward
update_fits k buf p n h = ground arith

snprintf_full :
    (buf : List ℕ) (ptr : Option ℕ) (left : ℕ) (text : List ℕ)
    → left ≡ 0
    → im_snprintf buf ptr left text ≡ ok buf
unfolding im_snprintf
snprintf_full buf ptr zero text e = refl
snprintf_full buf ptr (suc left) text e = absurd (omega arith)

-- A second text on a full pen only counts.
emit_full :
    (size : ℕ) (buf : List ℕ) (ptr : Option ℕ) (n : ℕ) (u : List ℕ)
    → size ≤ n
    → emit size (render_update size (start buf ptr size) n) u
      ≡ ok (render_update size (start buf ptr size) (n + length u))
unfolding emit
emit_full size buf ptr n u h =
    rw (snprintf_full _ _ _ u (left_full size buf ptr n h))
      (ap ok (update_twice size buf ptr n (length u)))

pub after_emits :
    (buf : List ℕ) (ptr : Option ℕ) (size : ℕ) (t : List ℕ)
    → after buf ptr size t ≡ (
        im_snprintf buf ptr size t >>= λ (b : List ℕ).
        ok (render_update size (start b ptr size) (length t)))
unfolding after emit start
after_emits buf ptr size t = refl

snprintf_cut :
    (buf : List ℕ) (ptr : Option ℕ) (size : ℕ) (t u : List ℕ)
    → size ≤ length t
    → im_snprintf buf ptr size (t ++ u) ≡ im_snprintf buf ptr size t
unfolding im_snprintf
snprintf_cut buf ptr zero t u h = refl
snprintf_cut buf none (suc k) t u h = refl
snprintf_cut buf (some p) (suc k) t u h =
    ap (λ (v : List ℕ). write_bytes buf p (v ++ 0 ∷ [])) (take_more t u k (omega arith))

after_full :
    (buf : List ℕ) (ptr : Option ℕ) (size : ℕ) (t u : List ℕ)
    → size ≤ length t
    → (after buf ptr size t >>= λ (pen : Pen). emit size pen u) ≡ after buf ptr size (t ++ u)
after_full buf ptr size t u h =
    rw
      (
        after_emits buf ptr size t,
        after_emits buf ptr size (t ++ u),
        snprintf_cut buf ptr size t u h,
      )
      (>>=-assoc (im_snprintf buf ptr size t) _ _
        ∙ >>=-cong (im_snprintf buf ptr size t) _ _
            (λ (b : List ℕ). rw (length-append t u) (emit_full size b ptr (length t) u h)))

emit_fits :
    (k : ℕ) (b : List ℕ) (p : ℕ) (t u : List ℕ)
    → length t ≤ k
    → emit (suc k) (render_update (suc k) (start b (some p) (suc k)) (length t)) u ≡ (
        write_bytes b (p + length t) (take (k - length t) u ++ 0 ∷ []) >>= λ (b' : List ℕ).
        ok (render_update (suc k) (start b' (some p) (suc k)) (length (t ++ u))))
unfolding emit
emit_fits k b p t u h = rw (update_fits k b p (length t) h) (
    unfold im_snprintf in
    >>=-cong (write_bytes b (p + length t) (take (k - length t) u ++ 0 ∷ [])) _ _ (λ (b' : List ℕ).
      ap ok (
        ap (λ (pen : Pen). render_update (suc k) pen (length u))
          (sym (update_fits k b' p (length t) h))
        ∙ update_twice (suc k) b' (some p) (length t) (length u)
        ∙ ap (λ (n : ℕ). render_update (suc k) (start b' (some p) (suc k)) n)
            (sym (length-append t u)))))

pub take_enough : (t : List ℕ) (k : ℕ) → length t ≤ k → take k t ≡ t
take_enough [] zero h = refl
take_enough [] (suc k) h = refl
take_enough (c ∷ t) zero h = absurd (omega arith)
take_enough (c ∷ t) (suc k) h = ap (λ (r : List ℕ). c ∷ r) (take_enough t k (omega arith))

snprintf_fits :
    (buf : List ℕ) (p k : ℕ) (t u : List ℕ) (f : List ℕ → Run Pen)
    → length t ≤ k
    → (im_snprintf buf (some p) (suc k) t >>= λ (b : List ℕ).
        write_bytes b (p + length t) (take (k - length t) u ++ 0 ∷ []) >>= f)
      ≡ (im_snprintf buf (some p) (suc k) (t ++ u) >>= f)
unfolding im_snprintf
snprintf_fits buf p k t u f h =
    rw (take_enough t k h, ← take_less t u k h, append_assoc t (take (k - length t) u) (0 ∷ []))
      (sym (>>=-assoc (write_bytes buf p (t ++ 0 ∷ [])) _ f)
        ∙ ap (λ (m : Run (List ℕ)). m >>= f)
            (write_over t (take (k - length t) u) buf p (p + length t) refl))

after_fits :
    (buf : List ℕ) (p k : ℕ) (t u : List ℕ)
    → length t ≤ k
    → (after buf (some p) (suc k) t >>= λ (pen : Pen). emit (suc k) pen u)
      ≡ after buf (some p) (suc k) (t ++ u)
after_fits buf p k t u h =
    rw (after_emits buf (some p) (suc k) t, after_emits buf (some p) (suc k) (t ++ u))
      (>>=-assoc (im_snprintf buf (some p) (suc k) t) _ _
        ∙ >>=-cong (im_snprintf buf (some p) (suc k) t) _ _ (λ (b : List ℕ). emit_fits k b p t u h)
        ∙ snprintf_fits buf p k t u _ h)

-- Two texts in a row are one.
pub emit-after :
    (buf : List ℕ) (ptr : Option ℕ) (size : ℕ) (t u : List ℕ)
    → (after buf ptr size t >>= λ (pen : Pen). emit size pen u) ≡ after buf ptr size (t ++ u)
emit-after buf ptr zero t u = after_full buf ptr zero t u (omega arith)
emit-after buf none (suc k) t u = unfold after emit im_snprintf start in refl
emit-after buf (some p) (suc k) t u = elim (Bool-cases (ltb k (length t))) [
  | inl e ↦ after_full buf (some p) (suc k) t u (ground arith)
  | inr e ↦ after_fits buf p k t u (ground arith)
]
