-- ===== src/Base64/Decode.antt =====
-- base64_decode and base64_decoded_len of base64.c.
use imcore.Prelude.{ℕ, zero, suc, ◌+◌, ◌-◌, ◌*◌, ◌/◌, ◌%◌, ◌^◌, bit_or}
use imcore.Prelude.{List, [], ◌∷◌, ◌++◌, Bool, Option, none, some}
use imcore.Prelude.{if◌then◌else◌, ltb, leb, ◌==◌, length}
use imcore.Prelude.{Run, ok, fault, out_of_bounds, ◌>>=◌, ◌>>◌, ensure, at}
use imcore.Prelude.Bits.{field}

-- 65 marks an invalid character, 64 is the padding `=`.
abbrev pub base64_invcharmap : List ℕ
base64_invcharmap =
    65 ∷ 65 ∷ 65 ∷ 65 ∷ 65 ∷ 65 ∷ 65 ∷ 65 ∷ 65 ∷ 65 ∷ 65 ∷ 65 ∷ 65 ∷ 65 ∷ 65 ∷ 65 ∷ 65 ∷ 65 ∷ 65
    ∷ 65 ∷ 65 ∷ 65 ∷ 65 ∷ 65 ∷ 65 ∷ 65 ∷ 65 ∷ 65 ∷ 65 ∷ 65 ∷ 65 ∷ 65 ∷ 65 ∷ 65 ∷ 65 ∷ 65 ∷ 65 ∷ 65
    ∷ 65 ∷ 65 ∷ 65 ∷ 65 ∷ 65 ∷ 62 ∷ 65 ∷ 65 ∷ 65 ∷ 63 ∷ 52 ∷ 53 ∷ 54 ∷ 55 ∷ 56 ∷ 57 ∷ 58 ∷ 59 ∷ 60
    ∷ 61 ∷ 65 ∷ 65 ∷ 65 ∷ 64 ∷ 65 ∷ 65 ∷ 65 ∷ 0 ∷ 1 ∷ 2 ∷ 3 ∷ 4 ∷ 5 ∷ 6 ∷ 7 ∷ 8 ∷ 9 ∷ 10 ∷ 11 ∷ 12
    ∷ 13 ∷ 14 ∷ 15 ∷ 16 ∷ 17 ∷ 18 ∷ 19 ∷ 20 ∷ 21 ∷ 22 ∷ 23 ∷ 24 ∷ 25 ∷ 65 ∷ 65 ∷ 65 ∷ 65 ∷ 65 ∷ 65
    ∷ 26 ∷ 27 ∷ 28 ∷ 29 ∷ 30 ∷ 31 ∷ 32 ∷ 33 ∷ 34 ∷ 35 ∷ 36 ∷ 37 ∷ 38 ∷ 39 ∷ 40 ∷ 41 ∷ 42 ∷ 43 ∷ 44
    ∷ 45 ∷ 46 ∷ 47 ∷ 48 ∷ 49 ∷ 50 ∷ 51 ∷ 65 ∷ 65 ∷ 65 ∷ 65 ∷ 65 ∷ 65 ∷ 65 ∷ 65 ∷ 65 ∷ 65 ∷ 65 ∷ 65
    ∷ 65 ∷ 65 ∷ 65 ∷ 65 ∷ 65 ∷ 65 ∷ 65 ∷ 65 ∷ 65 ∷ 65 ∷ 65 ∷ 65 ∷ 65 ∷ 65 ∷ 65 ∷ 65 ∷ 65 ∷ 65 ∷ 65
    ∷ 65 ∷ 65 ∷ 65 ∷ 65 ∷ 65 ∷ 65 ∷ 65 ∷ 65 ∷ 65 ∷ 65 ∷ 65 ∷ 65 ∷ 65 ∷ 65 ∷ 65 ∷ 65 ∷ 65 ∷ 65 ∷ 65
    ∷ 65 ∷ 65 ∷ 65 ∷ 65 ∷ 65 ∷ 65 ∷ 65 ∷ 65 ∷ 65 ∷ 65 ∷ 65 ∷ 65 ∷ 65 ∷ 65 ∷ 65 ∷ 65 ∷ 65 ∷ 65 ∷ 65
    ∷ 65 ∷ 65 ∷ 65 ∷ 65 ∷ 65 ∷ 65 ∷ 65 ∷ 65 ∷ 65 ∷ 65 ∷ 65 ∷ 65 ∷ 65 ∷ 65 ∷ 65 ∷ 65 ∷ 65 ∷ 65 ∷ 65
    ∷ 65 ∷ 65 ∷ 65 ∷ 65 ∷ 65 ∷ 65 ∷ 65 ∷ 65 ∷ 65 ∷ 65 ∷ 65 ∷ 65 ∷ 65 ∷ 65 ∷ 65 ∷ 65 ∷ 65 ∷ 65 ∷ 65
    ∷ 65 ∷ 65 ∷ 65 ∷ 65 ∷ 65 ∷ 65 ∷ 65 ∷ 65 ∷ 65 ∷ 65 ∷ 65 ∷ 65 ∷ 65 ∷ 65 ∷ 65 ∷ 65 ∷ 65 ∷ 65 ∷ 65
    ∷ 65 ∷ 65 ∷ 65 ∷ 65 ∷ 65 ∷ 65 ∷ 65 ∷ []

-- `_base64_invcharmap[(int)c]`: a byte from 128 on is a negative index.
unfoldable pub value : ℕ → Run ℕ
value c = if ltb c 128 then at base64_invcharmap c else fault out_of_bounds

-- `buffer[len - k]`: for `len` below `k` the unsigned index wraps and is past the end.
unfoldable pub from_end : List ℕ → ℕ → Run ℕ
from_end buffer k =
    let len = length buffer in if ltb len k then fault out_of_bounds else at buffer (len - k)

-- The padding characters; `none` is the `nudge` of -1.
unfoldable pub count_padding : List ℕ → Run (Option ℕ)
count_padding buffer = do
  c1 ← from_end buffer 1 >>= value
  if ltb c1 64
      then ok (some 0)
      else if c1 == 64
      then (do
        c2 ← from_end buffer 2 >>= value
        if ltb c2 64
            then ok (some 1)
            else if c2 == 64
            then (do c3 ← from_end buffer 3 >>= value; if ltb c3 64 then ok (some 2) else ok none)
            else ok none)
      else ok none

unfoldable pub base64_decoded_len : List ℕ → Run ℕ
base64_decoded_len buffer = do
  nudge ← count_padding buffer
  ok (elim nudge [ none ↦ 0 | some n ↦ 3 * (length buffer / 2 ^ 2) - n ])

-- One round of the loop: the three bytes of a quartet with its last hextet, or the hextet at which
-- `hextet & 0xC0` breaks off.
pub data Quartet : Type 0 where
  bytes : ℕ → ℕ → ℕ → ℕ → Quartet
  broken : ℕ → Quartet

abbrev pub stops : ℕ → Bool
stops hextet = leb 64 hextet

unfoldable pub quartet : ℕ → ℕ → ℕ → ℕ → Run Quartet
quartet c1 c2 c3 c4 = do
  h1 ← value c1
  if stops h1 then ok (broken h1) else (do
    h2 ← value c2
    if stops h2 then ok (broken h2) else (do
      h3 ← value c3
      if stops h3 then ok (broken h3) else (do
        h4 ← value c4
        let word = bit_or (bit_or (bit_or (h1 * 2 ^ 18) (h2 * 2 ^ 12)) (h3 * 2 ^ 6)) h4
        if stops h4
            then ok (broken h4)
            else ok (bytes (field word 16 8) (field word 8 8) (field word 0 8) h4))))

-- The loop over the characters from `i` on: the bytes that it writes, and `hextet` behind it.
unfoldable pub decode_loop : List ℕ → ℕ → Run (List ℕ × ℕ)
decode_loop (c1 ∷ c2 ∷ c3 ∷ c4 ∷ rest) hextet = do
  q ← quartet c1 c2 c3 c4
  elim q [
    | broken h ↦ ok ([], h)
    | bytes x y z h ↦ decode_loop rest h >>= λ r. ok (x ∷ y ∷ z ∷ r.0, r.1)
  ]
decode_loop _ hextet = ok ([], hextet)

-- `switch (dlen % 3)`: the bytes of a last quartet with padding; `none` is the jump to the error.
unfoldable pub decode_tail : List ℕ → ℕ → Run (Option (List ℕ))
decode_tail buffer zero = ok (some [])
decode_tail buffer (suc zero) = do
  h1 ← from_end buffer 4 >>= value
  if stops h1 then ok none else (do
    h2 ← from_end buffer 3 >>= value
    if stops h2 then ok none else (do
      let word = bit_or (h1 * 2 ^ 2) (h2 / 2 ^ 4)
      h3 ← from_end buffer 2 >>= value
      if h3 == 64
          then (do
            h4 ← from_end buffer 1 >>= value
            if h4 == 64 then ok (some (field word 0 8 ∷ [])) else ok none)
          else ok none))
decode_tail buffer (suc (suc _)) = do
  h1 ← from_end buffer 4 >>= value
  if stops h1 then ok none else (do
    h2 ← from_end buffer 3 >>= value
    if stops h2 then ok none else (do
      h3 ← from_end buffer 2 >>= value
      if stops h3 then ok none else (do
        let word = bit_or (bit_or (h1 * 2 ^ 10) (h2 * 2 ^ 4)) (h3 / 2 ^ 2)
        h4 ← from_end buffer 1 >>= value
        if h4 == 64 then ok (some (field word 8 8 ∷ field word 0 8 ∷ [])) else ok none)))

-- The part of base64_decode in which `dbuf` is not NULL.
unfoldable pub decode_into : ℕ → List ℕ → Run (Option (List ℕ))
decode_into dlen buffer = do
  (written, hextet) ← decode_loop buffer 0
  ensure (leb (length written) (dlen + 1)) out_of_bounds
  if ltb 64 hextet then ok none else (do
    tail ← decode_tail buffer (dlen % 3)
    elim tail [
      | none ↦ ok none
      | some t ↦ do
        ensure (leb (length (written ++ t) + 1) (dlen + 1)) out_of_bounds
        ok (some (written ++ t))
    ])

-- The decoded bytes, without the NUL that is written behind them; `none` is NULL.
-- The block at `dbuf` has `dlen + 1` bytes: a write past it is undefined.
unfoldable pub base64_decode : Bool → List ℕ → Run (Option (List ℕ))
base64_decode malloc buffer =
    if length buffer % 4 == 0
    then (do dlen ← base64_decoded_len buffer; if malloc then decode_into dlen buffer else ok none)
    else ok none
