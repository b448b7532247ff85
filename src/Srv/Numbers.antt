-- ===== src/Srv/Numbers.antt =====
-- The numbers of 16 and 32 bits in a buffer, highest byte first.
use imcore.Prelude.{ℕ, ◌+◌, ◌*◌, ◌^◌, ◌≤◌, ◌<◌, ◌≡◌, refl, sym, ap, ◌∙◌, arith, bit_or}
use imcore.Prelude.{List, [], ◌∷◌, ◌++◌, append_assoc, length}
use imcore.Prelude.{length-append, Run, ok, ◌>>=◌, at}
use imcore.Prelude.Bytes.{write_bytes, at-append, write_bytes-append, split_at}
use imcore.Prelude.Bits.{field, bit_or_shift}

abbrev pub bytes16 : ℕ → List ℕ
bytes16 num = field num 8 8 ∷ field num 0 8 ∷ []

abbrev pub bytes32 : ℕ → List ℕ
bytes32 num = field num 24 8 ∷ field num 16 8 ∷ field num 8 8 ∷ field num 0 8 ∷ []

unfoldable pub netbuf_add_16bitnum : List ℕ → ℕ → ℕ → Run (List ℕ × ℕ)
netbuf_add_16bitnum buf offset num = do
  buf' ← write_bytes buf offset (bytes16 num)
  ok (buf', offset + 2)

unfoldable pub netbuf_add_32bitnum : List ℕ → ℕ → ℕ → Run (List ℕ × ℕ)
netbuf_add_32bitnum buf offset num = do
  buf' ← write_bytes buf offset (bytes32 num)
  ok (buf', offset + 4)

unfoldable pub netbuf_get_16bitnum : List ℕ → ℕ → Run (ℕ × ℕ)
netbuf_get_16bitnum buf offset = do
  hi ← at buf offset
  lo ← at buf (offset + 1)
  ok (bit_or (hi * 2 ^ 8) lo, offset + 2)

unfoldable pub netbuf_get_32bitnum : List ℕ → ℕ → Run (ℕ × ℕ)
netbuf_get_32bitnum buf offset = do
  b3 ← at buf offset
  b2 ← at buf (offset + 1)
  b1 ← at buf (offset + 2)
  b0 ← at buf (offset + 3)
  ok (bit_or (bit_or (bit_or (b3 * 2 ^ 24) (b2 * 2 ^ 16)) (b1 * 2 ^ 8)) b0, offset + 4)

-- The bytes from `i` on, one after the other.
at_next :
    (pre : List ℕ) (x c : ℕ) (post : List ℕ) (i : ℕ)
    → i ≡ length pre + 1
    → at (pre ++ x ∷ c ∷ post) i ≡ ok c
at_next pre x c post i h =
    rw (← append_assoc pre (x ∷ []) (c ∷ post))
      (at-append (pre ++ x ∷ []) c post i (omega (arith, length-append pre (x ∷ []))))

at_third :
    (pre : List ℕ) (x y c : ℕ) (post : List ℕ) (i : ℕ)
    → i ≡ length pre + 2
    → at (pre ++ x ∷ y ∷ c ∷ post) i ≡ ok c
at_third pre x y c post i h =
    rw (← append_assoc pre (x ∷ []) (y ∷ c ∷ post))
      (at_next (pre ++ x ∷ []) y c post i (omega (arith, length-append pre (x ∷ []))))

at_fourth :
    (pre : List ℕ) (x y z c : ℕ) (post : List ℕ) (i : ℕ)
    → i ≡ length pre + 3
    → at (pre ++ x ∷ y ∷ z ∷ c ∷ post) i ≡ ok c
at_fourth pre x y z c post i h =
    rw (← append_assoc pre (x ∷ []) (y ∷ z ∷ c ∷ post))
      (at_third (pre ++ x ∷ []) y z c post i (omega (arith, length-append pre (x ∷ []))))

-- Two bytes at `offset` read as their number.
pub get16-append :
    (pre : List ℕ) (hi lo : ℕ) (post : List ℕ) (offset : ℕ)
    → offset ≡ length pre
    → lo < 256
    → netbuf_get_16bitnum (pre ++ hi ∷ lo ∷ post) offset ≡ ok (hi * 256 + lo, offset + 2)
unfolding netbuf_get_16bitnum
get16-append pre hi lo post offset h low =
    rw
      (
        at-append pre hi (lo ∷ post) offset h,
        at_next pre hi lo post (offset + 1) (omega arith),
        bit_or_shift 8 hi lo low,
      )
      refl

joined :
    (b3 b2 b1 b0 : ℕ)
    → b2 < 256
    → b1 < 256
    → b0 < 256
    → bit_or (bit_or (bit_or (b3 * 2 ^ 24) (b2 * 2 ^ 16)) (b1 * 2 ^ 8)) b0
      ≡ b3 * 16777216 + b2 * 65536 + b1 * 256 + b0
joined b3 b2 b1 b0 h2 h1 h0 =
    let two : bit_or (b3 * 2 ^ 24) (b2 * 2 ^ 16) ≡ (b3 * 256 + b2) * 2 ^ 16 =
      bit_or_shift 24 b3 (b2 * 2 ^ 16) (omega arith) ∙ omega arith in
    let three : bit_or ((b3 * 256 + b2) * 2 ^ 16) (b1 * 2 ^ 8)
        ≡ (b3 * 65536 + b2 * 256 + b1) * 2 ^ 8 =
      bit_or_shift 16 (b3 * 256 + b2) (b1 * 2 ^ 8) (omega arith) ∙ omega arith in
    rw (two, three) (bit_or_shift 8 (b3 * 65536 + b2 * 256 + b1) b0 (omega arith) ∙ omega arith)

-- Four bytes at `offset` read as their number.
pub get32-append :
    (pre : List ℕ) (b3 b2 b1 b0 : ℕ) (post : List ℕ) (offset : ℕ)
    → offset ≡ length pre
    → b2 < 256
    → b1 < 256
    → b0 < 256
    → netbuf_get_32bitnum (pre ++ b3 ∷ b2 ∷ b1 ∷ b0 ∷ post) offset
      ≡ ok (b3 * 16777216 + b2 * 65536 + b1 * 256 + b0, offset + 4)
unfolding netbuf_get_32bitnum
get32-append pre b3 b2 b1 b0 post offset h h2 h1 h0 =
    rw
      (
        at-append pre b3 (b2 ∷ b1 ∷ b0 ∷ post) offset h,
        at_next pre b3 b2 (b1 ∷ b0 ∷ post) (offset + 1) (omega arith),
        at_third pre b3 b2 b1 (b0 ∷ post) (offset + 2) (omega arith),
        at_fourth pre b3 b2 b1 b0 post (offset + 3) (omega arith),
      )
      (ap (λ (n : ℕ). ok (n, offset + 4)) (joined b3 b2 b1 b0 h2 h1 h0))

-- A number of 16 bits that is written with room for it is read back.
pub get_16bitnum-add_16bitnum :
    (buf : List ℕ) (offset num : ℕ)
    → offset + 2 ≤ length buf
    → num < 2 ^ 16
    → (netbuf_add_16bitnum buf offset num >>= λ r. netbuf_get_16bitnum r.0 offset)
      ≡ ok (num, offset + 2)
unfolding netbuf_add_16bitnum
get_16bitnum-add_16bitnum buf offset num room h =
    let (pre, old, post, e, p, o) = split_at buf offset 2 room in
    rw (e, write_bytes-append (bytes16 num) pre old post offset (sym p) o)
      (get16-append pre (field num 8 8) (field num 0 8) post offset (sym p) (omega arith)
        ∙ ap (λ (n : ℕ). ok (n, offset + 2)) (omega arith))

-- So is a number of 32 bits.
pub get_32bitnum-add_32bitnum :
    (buf : List ℕ) (offset num : ℕ)
    → offset + 4 ≤ length buf
    → num < 2 ^ 32
    → (netbuf_add_32bitnum buf offset num >>= λ r. netbuf_get_32bitnum r.0 offset)
      ≡ ok (num, offset + 4)
unfolding netbuf_add_32bitnum
get_32bitnum-add_32bitnum buf offset num room h =
    let (pre, old, post, e, p, o) = split_at buf offset 4 room in
    rw (e, write_bytes-append (bytes32 num) pre old post offset (sym p) o)
      (get32-append pre (field num 24 8) (field num 16 8) (field num 8 8) (field num 0 8) post
          offset (sym p) (omega arith) (omega arith) (omega arith)
        ∙ ap (λ (n : ℕ). ok (n, offset + 4)) (omega arith))
