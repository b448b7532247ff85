-- ===== src/Srv/Measured.antt =====
-- netbuf_get_domain_name of srv.c on a name that has no pointers: the measured length, and one label's bytes.
use imcore.Prelude.{ℕ, zero, suc, ◌+◌, ◌<◌, ◌≡◌, refl, ap, ◌∙◌, arith, inl, inr}
use imcore.Prelude.{List, [], ◌∷◌, ◌++◌, append_assoc, false, ltb, ◌==◌, All, length, length-append}
use imcore.Prelude.{set, Bool-cases, ok, out_of_bounds, ensure, ok-injective, >>=-cong, at}
use imcore.Prelude.Bytes.{write_bytes, at-append}
use imcore.Srv.Name.{measure, measure_step, is_pointer, copy_bytes}
use imcore.Srv.Labels.{IsLabel, wire, label_bytes}

-- A label's length is no pointer, and no end.
pub plain : (n : ℕ) → 0 < n → n < 64 → ((n == 0) ≡ false) × (is_pointer n ≡ false)
plain n h k = (ground arith, ground arith)

-- The place behind the first label.
pub shifted :
    (pre l : List ℕ) (ls : List (List ℕ)) (post : List ℕ)
    → pre ++ (wire (l ∷ ls) ++ post) ≡ (pre ++ length l ∷ l) ++ (wire ls ++ post)
unfolding wire
shifted pre l ls post = simp append_assoc refl

pub at-wire :
    (pre l : List ℕ) (ls : List (List ℕ)) (post : List ℕ) (p : ℕ)
    → p ≡ length pre
    → at (pre ++ (wire (l ∷ ls) ++ post)) p ≡ ok (length l)
unfolding wire
at-wire pre l ls post p e = at-append pre (length l) ((l ++ wire ls) ++ post) p e

measure_first :
    (fuel : ℕ) (buf : List ℕ) (p len n : ℕ)
    → at buf p ≡ ok n
    → 0 < n
    → n < 64
    → measure (suc fuel) buf p len ≡ measure fuel buf (p + (n + 1)) (len + n)
unfolding measure measure_step
measure_first fuel buf p len n e h k = ground (arith, e, plain n h k)

sum_first :
    (l : List ℕ) (ls : List (List ℕ)) (len : ℕ)
    → len + length l + label_bytes ls ≡ len + label_bytes (l ∷ ls)
unfolding label_bytes
sum_first l ls len = omega arith

pub measure-wire :
    (ls : List (List ℕ)) (fuel : ℕ) (pre post : List ℕ) (p len : ℕ)
    → All IsLabel ls
    → length ls < fuel
    → p ≡ length pre
    → measure fuel (pre ++ (wire ls ++ 0 ∷ post)) p len ≡ ok (len + label_bytes ls)
measure-wire ls zero pre post p len h f e = absurd (omega arith)
measure-wire [] (suc fuel) pre post p len h f e =
    unfold measure wire label_bytes in rw (at-append pre 0 post p e) (ap ok (omega arith))
measure-wire (l ∷ ls) (suc fuel) pre post p len h f e =
    measure_first fuel _ p len (length l) (at-wire pre l ls (0 ∷ post) p e) h.0.0 h.0.1
    ∙ rw (shifted pre l ls (0 ∷ post)) (
        measure-wire ls fuel (pre ++ length l ∷ l) post _ _ h.1 (omega arith)
          (omega (arith, e, length-append pre (length l ∷ l))))
    ∙ ap ok (sum_first l ls len)

copy_bytes_first :
    (n c : ℕ) (l buf : List ℕ) (p : ℕ) (namebuf : List ℕ) (p2 : ℕ)
    → at buf p ≡ ok c
    → ((nb : List ℕ) → copy_bytes n buf (p + 1) nb (p2 + 1) ≡ write_bytes nb (p2 + 1) l)
    → copy_bytes (suc n) buf p namebuf p2 ≡ write_bytes namebuf p2 (c ∷ l)
unfolding copy_bytes write_bytes
copy_bytes_first n c l buf p namebuf p2 e h =
    rw e (>>=-cong (ensure (ltb p2 (length namebuf)) out_of_bounds) _ _ (λ _. h (set namebuf p2 c)))

pub copy_bytes-append :
    (l pre post : List ℕ) (p : ℕ) (namebuf : List ℕ) (p2 : ℕ)
    → p ≡ length pre
    → copy_bytes (length l) (pre ++ (l ++ post)) p namebuf p2 ≡ write_bytes namebuf p2 l
copy_bytes-append [] pre post p namebuf p2 e = unfold copy_bytes write_bytes in refl
copy_bytes-append (c ∷ l) pre post p namebuf p2 e =
    copy_bytes_first (length l) c l _ p namebuf p2 (at-append pre c (l ++ post) p e)
      (λ (nb : List ℕ). rw (← append_assoc pre (c ∷ []) (l ++ post)) (
        copy_bytes-append l (pre ++ c ∷ []) post (p + 1) nb (p2 + 1)
          (omega (arith, length-append pre (c ∷ [])))))

-- Writing behind its first byte leaves it.
pub first_kept :
    (bs buf : List ℕ) (p2 x : ℕ) (buf' : List ℕ)
    → 0 < p2
    → at buf 0 ≡ ok x
    → write_bytes buf p2 bs ≡ ok buf'
    → at buf' 0 ≡ ok x
unfolding write_bytes
first_kept [] buf p2 x buf' h e r = rw (← ok-injective r) e
first_kept (b ∷ bs) [] p2 x buf' h e r = cc
first_kept (b ∷ bs) (y ∷ ys) zero x buf' h e r = absurd (omega arith)
first_kept (b ∷ bs) (y ∷ ys) (suc p2) x buf' h e r =
    elim (Bool-cases (ltb (suc p2) (length (y ∷ ys)))) [
      | inl t ↦ first_kept bs (y ∷ set ys p2 b) (suc p2 + 1) x buf' (omega arith) e (rw t at r)
      | inr t ↦ cc (t, r)
    ]
