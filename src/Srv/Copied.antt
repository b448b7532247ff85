-- ===== src/Srv/Copied.antt =====
-- netbuf_get_domain_name of srv.c on a name that has no pointers: it writes the labels with dots between.
use imcore.Prelude.{ℕ, zero, suc, ◌+◌, ◌<◌, ◌≡◌, refl, sym, ap, ◌∙◌, arith, none}
use imcore.Prelude.{
  List, [], ◌∷◌, ◌++◌, append_assoc, ◌==◌, if◌then◌else◌, All, length, length-append,
}
use imcore.Prelude.{lt→ltb, Run, ok, ◌>>=◌, >>=-cong_ok, >>=-cong, >>=-assoc, at}
use native.Mathlib.Nat.{add-zero}
use imcore.Prelude.Bytes.{write_bytes, write_bytes_two, write_bytes_then, at-append}
use imcore.Srv.Name.{dot, copy_label, copy_name, Copy}
use imcore.Srv.Labels.{IsLabel, dotted, joined, wire}
use imcore.Srv.Measured.{plain, shifted, at-wire, copy_bytes-append, first_kept}

-- The dot in front of a label that is not the first one.
abbrev separator : ℕ → List ℕ
separator x = if x == 0 then [] else dot ∷ []

copy_label-append :
    (pre l post : List ℕ) (p p2 x : ℕ) (namebuf : List ℕ)
    → p ≡ length pre
    → at namebuf 0 ≡ ok x
    → copy_label
        (pre ++ length l ∷ (l ++ post))
        (length l)
        (record { p = p; p2 = p2; namebuf = namebuf; moved = none })
      ≡ (write_bytes namebuf p2 (separator x ++ l) >>= λ (b : List ℕ). ok (record {
        p = p + suc (length l);
        p2 = p2 + length (separator x) + length l;
        namebuf = b;
        moved = none;
      }))
unfolding copy_label
copy_label-append pre l post p p2 x namebuf e f =
    rw (f, write_bytes_two (separator x) l namebuf p2)
      (>>=-cong (write_bytes namebuf p2 (separator x)) _ _ (λ (b : List ℕ).
          rw (← append_assoc pre (length l ∷ []) (l ++ post)) (
            ap
              (λ (m : Run (List ℕ)). m >>= λ (b' : List ℕ). ok (record {
                p = p + suc (length l);
                p2 = p2 + length (separator x) + length l;
                namebuf = b';
                moved = none;
              }))
              (copy_bytes-append l (pre ++ length l ∷ []) post (p + 1) b (p2 + length (separator x))
                (omega (arith, length-append pre (length l ∷ []))))))
        ∙ sym (>>=-assoc (write_bytes namebuf p2 (separator x)) _ _))

copy_step :
    (fuel : ℕ) (buf : List ℕ) (s : Copy) (n : ℕ)
    → at buf s.p ≡ ok n
    → 0 < n
    → n < 64
    → copy_name (suc fuel) buf s ≡ (copy_label buf n s >>= copy_name fuel buf)
unfolding copy_name
copy_step fuel buf s n e h k = ground (arith, e, plain n h k)

abbrev pub copied : ℕ → ℕ → List ℕ → Run Copy
copied p p2 namebuf = ok (record { p = p; p2 = p2; namebuf = namebuf; moved = none })

copy_label-wire :
    (pre l : List ℕ) (ls : List (List ℕ)) (post : List ℕ) (p p2 x : ℕ) (namebuf : List ℕ)
    → p ≡ length pre
    → at namebuf 0 ≡ ok x
    → copy_label
        (pre ++ (wire (l ∷ ls) ++ post))
        (length l)
        (record { p = p; p2 = p2; namebuf = namebuf; moved = none })
      ≡ (write_bytes namebuf p2 (separator x ++ l)
          >>= copied (p + suc (length l)) (p2 + length (separator x) + length l))
unfolding wire
copy_label-wire pre l ls post p p2 x namebuf e f =
    rw (append_assoc l (wire ls) post)
      (copy_label-append pre l (wire ls ++ post) p p2 x namebuf e f)

-- One round of the copy, from a state that is named by its parts.
abbrev pub go_on : ℕ → List ℕ → ℕ → ℕ → List ℕ → Run Copy
go_on fuel buf p p2 namebuf = copied p p2 namebuf >>= copy_name fuel buf

copy_first :
    (fuel : ℕ) (pre l : List ℕ) (ls : List (List ℕ)) (post : List ℕ) (p p2 x : ℕ) (namebuf : List ℕ)
    → IsLabel l
    → p ≡ length pre
    → at namebuf 0 ≡ ok x
    → go_on (suc fuel) (pre ++ (wire (l ∷ ls) ++ post)) p p2 namebuf ≡ (
        write_bytes namebuf p2 (separator x ++ l)
        >>= go_on fuel
            ((pre ++ length l ∷ l) ++ (wire ls ++ post))
            (p + suc (length l))
            (p2 + length (separator x) + length l))
copy_first fuel pre l ls post p p2 x namebuf h e f =
    copy_step fuel _ (record { p = p; p2 = p2; namebuf = namebuf; moved = none }) (length l)
      (at-wire pre l ls post p e) h.0 h.1
    ∙ rw (copy_label-wire pre l ls post p p2 x namebuf e f, shifted pre l ls post)
        (>>=-assoc (write_bytes namebuf p2 (separator x ++ l)) _ _)

copied_at :
    (m : Run (List ℕ)) (p q p2 q2 : ℕ) → p ≡ q → p2 ≡ q2 → (m >>= copied p p2) ≡ (m >>= copied q q2)
copied_at m p q p2 q2 e f = rw (e, f) refl

dot_between : (x : ℕ) → 0 < x → separator x ≡ dot ∷ []
dot_between x n = ground arith

dotted_first :
    (l : List ℕ) (ls : List (List ℕ)) (namebuf : List ℕ) (p p2 x : ℕ)
    → 0 < x
    → (write_bytes namebuf p2 (separator x ++ l) >>= λ (b : List ℕ).
        write_bytes b (p2 + length (separator x) + length l) (dotted ls)
        >>= copied
            (p + suc (length l) + length (wire ls))
            (p2 + length (separator x) + length l + length (dotted ls)))
      ≡ (write_bytes namebuf p2 (dotted (l ∷ ls))
          >>= copied (p + length (wire (l ∷ ls))) (p2 + length (dotted (l ∷ ls))))
unfolding dotted wire
dotted_first l ls namebuf p p2 x n = rw (dot_between x n) (
    write_bytes_then (dot ∷ l) (dotted ls) namebuf p2 (p2 + 1 + length l) _ (omega arith)
    ∙ copied_at (write_bytes namebuf p2 (dot ∷ (l ++ dotted ls)))
        (p + suc (length l) + length (wire ls)) (p + suc (length (l ++ wire ls)))
        (p2 + 1 + length l + length (dotted ls)) (p2 + suc (length (l ++ dotted ls)))
        (omega (arith, length-append l (wire ls))) (omega (arith, length-append l (dotted ls))))

copy-dotted :
    (ls : List (List ℕ)) (fuel : ℕ) (pre post : List ℕ) (p p2 x : ℕ) (namebuf : List ℕ)
    → All IsLabel ls
    → length ls < fuel
    → p ≡ length pre
    → 0 < p2
    → at namebuf 0 ≡ ok x
    → 0 < x
    → go_on fuel (pre ++ (wire ls ++ 0 ∷ post)) p p2 namebuf ≡ (
        write_bytes namebuf p2 (dotted ls)
        >>= copied (p + length (wire ls)) (p2 + length (dotted ls)))
copy-dotted ls zero pre post p p2 x namebuf h f e i a n = absurd (omega arith)
copy-dotted [] (suc fuel) pre post p p2 x namebuf h f e i a n =
    unfold copy_name wire dotted write_bytes in rw (at-append pre 0 post p e) (simp add-zero refl)
copy-dotted (l ∷ ls) (suc fuel) pre post p p2 x namebuf h f e i a n =
    copy_first fuel pre l ls (0 ∷ post) p p2 x namebuf h.0 e a
    ∙ >>=-cong_ok (write_bytes namebuf p2 (separator x ++ l)) _ _ (λ (b : List ℕ) r.
      copy-dotted ls fuel (pre ++ length l ∷ l) post _ _ x b h.1 (omega arith)
        (omega (arith, e, length-append pre (length l ∷ l))) (omega arith)
        (first_kept (separator x ++ l) namebuf p2 x b i a r) n)
    ∙ dotted_first l ls namebuf p p2 x n

-- The first label is written at the start, over the NUL that stands there.
pub over_first :
    (c : ℕ) (cs : List ℕ) (y : ℕ) (ys : List ℕ)
    → write_bytes (0 ∷ ys) 0 (c ∷ cs) ≡ write_bytes (y ∷ ys) 0 (c ∷ cs)
unfolding write_bytes
over_first c cs y ys = refl

first_written :
    (c : ℕ) (cs : List ℕ) (y : ℕ) (ys b : List ℕ)
    → write_bytes (y ∷ ys) 0 (c ∷ cs) ≡ ok b
    → at b 0 ≡ ok c
unfolding write_bytes
first_written c cs y ys b r =
    first_kept cs (c ∷ ys) 1 c b (omega arith) refl
      (rw (lt→ltb 0 (suc (length ys)) (omega arith)) at r)

joined_first :
    (l : List ℕ) (ls : List (List ℕ)) (namebuf : List ℕ) (p : ℕ)
    → (write_bytes namebuf 0 l >>= λ (b : List ℕ).
        write_bytes b (0 + 0 + length l) (dotted ls)
        >>= copied (p + suc (length l) + length (wire ls)) (0 + 0 + length l + length (dotted ls)))
      ≡ (write_bytes namebuf 0 (joined (l ∷ ls))
          >>= copied (p + length (wire (l ∷ ls))) (length (joined (l ∷ ls))))
unfolding joined wire
joined_first l ls namebuf p =
    write_bytes_then l (dotted ls) namebuf 0 (0 + 0 + length l) _ (omega arith)
    ∙ copied_at (write_bytes namebuf 0 (l ++ dotted ls)) (p + suc (length l) + length (wire ls))
        (p + suc (length (l ++ wire ls))) (0 + 0 + length l + length (dotted ls))
        (length (l ++ dotted ls)) (omega (arith, length-append l (wire ls)))
        (omega (arith, length-append l (dotted ls)))

pub copy-joined :
    (ls : List (List ℕ)) (fuel : ℕ) (pre post : List ℕ) (p : ℕ) (ys : List ℕ)
    → All IsLabel ls
    → length ls < fuel
    → p ≡ length pre
    → go_on fuel (pre ++ (wire ls ++ 0 ∷ post)) p 0 (0 ∷ ys)
      ≡ (write_bytes (0 ∷ ys) 0 (joined ls) >>= copied (p + length (wire ls)) (length (joined ls)))
copy-joined ls zero pre post p ys h f e = absurd (omega arith)
copy-joined [] (suc fuel) pre post p ys h f e =
    unfold copy_name wire joined write_bytes in rw (at-append pre 0 post p e) (simp add-zero refl)
copy-joined ([] ∷ ls) (suc fuel) pre post p ys h f e = absurd (omega (arith, h.0.0))
copy-joined ((c ∷ cs) ∷ ls) (suc fuel) pre post p ys h f e =
    copy_first fuel pre (c ∷ cs) ls (0 ∷ post) p 0 0 (0 ∷ ys) h.0 e refl
    ∙ >>=-cong_ok (write_bytes (0 ∷ ys) 0 (c ∷ cs)) _ _ (λ (b : List ℕ) r.
      copy-dotted ls fuel (pre ++ length (c ∷ cs) ∷ c ∷ cs) post _ _ c b h.1 (omega arith)
        (omega (arith, e, length-append pre (length (c ∷ cs) ∷ c ∷ cs))) (omega arith)
        (first_written c cs 0 ys b r) (ground (arith, h.0.2.0)))
    ∙ joined_first (c ∷ cs) ls (0 ∷ ys) p
