-- ===== src/Srv/Name.antt =====
-- netbuf_add_domain_name, calc_domain_name_size and netbuf_get_domain_name of srv.c. A walk over a name in
-- a message has fuel, one unit for each label or pointer, since pointers may lead around in a circle.
use imcore.Prelude.{ℕ, zero, suc, ◌+◌, ◌*◌, ◌^◌, bit_or}
use imcore.Prelude.{
  Bool, List, [], ◌∷◌, true, false, Option, none, some, ltb, ◌==◌, if◌then◌else◌, length, set,
}
use imcore.Prelude.{Run, ok, fault, ◌>>=◌, ◌>>◌, at, ensure, out_of_bounds, out_of_fuel}
use imcore.Prelude.Bits.{field}
use imcore.Prelude.Bytes.{write_bytes}

-- `'.'`
abbrev pub dot : ℕ
dot = 46

-- The word from `wordstart` to `wordend`, and the text behind it and its dot.
unfoldable pub word : List ℕ → List ℕ
word [] = []
word (c ∷ cs) = if c == dot then [] else c ∷ word cs

unfoldable pub behind : List ℕ → List ℕ
behind [] = []
behind (c ∷ cs) = if c == dot then cs else behind cs

unfoldable pub capped : ℕ → ℕ
capped len = if ltb 63 len then 63 else len

unfoldable pub add_words : ℕ → List ℕ → ℕ → List ℕ → Run (List ℕ × ℕ)
add_words zero buf p name = fault out_of_fuel
add_words (suc fuel) buf p [] = ok (buf, p)
add_words (suc fuel) buf p (c ∷ cs) = do
  let len = length (word (c ∷ cs))
  buf' ← write_bytes buf p (capped len ∷ word (c ∷ cs))
  add_words fuel buf' (p + suc len) (behind (c ∷ cs))

-- Each round takes at least one character of the name.
unfoldable pub netbuf_add_domain_name : List ℕ → ℕ → List ℕ → Run (List ℕ × ℕ)
netbuf_add_domain_name buf offset name = do
  (buf', p) ← add_words (suc (length name)) buf offset name
  buf'' ← write_bytes buf' p (0 ∷ [])
  ok (buf'', p + 1)

-- `newoffset`, from the two bytes of a pointer
unfoldable pub pointer : ℕ → ℕ → ℕ
pointer c c' = bit_or (field c 0 6 * 2 ^ 8) c'

-- `(*p & 0xC0) == 0xC0`
abbrev pub is_pointer : ℕ → Bool
is_pointer c = field c 6 2 == 3

unfoldable pub size_step : List ℕ → ℕ → ℕ → ℕ → Run (ℕ × ℕ)
size_step buf p c len =
    if is_pointer c
    then (at buf (p + 1) >>= λ c'. ok (pointer c c', len))
    else ok (p + (c + 1), (if len == 0 then len else len + 1) + c)

unfoldable pub size_loop : ℕ → List ℕ → ℕ → ℕ → Run ℕ
size_loop zero buf p len = fault out_of_fuel
size_loop (suc fuel) buf p len = at buf p >>= λ c. elim (c == 0) [
  | true ↦ ok len
  | false ↦ size_step buf p c len >>= λ s. size_loop fuel buf s.0 s.1
]

unfoldable pub calc_domain_name_size : ℕ → List ℕ → ℕ → Run ℕ
calc_domain_name_size fuel buf offset = size_loop fuel buf offset 0

unfoldable pub measure_step : List ℕ → ℕ → ℕ → ℕ → Run (ℕ × ℕ)
measure_step buf p c len =
    if is_pointer c
    then (at buf (p + 1) >>= λ c'. ok (pointer c c', len))
    else ok (p + (c + 1), len + c)

unfoldable pub measure : ℕ → List ℕ → ℕ → ℕ → Run ℕ
measure zero buf p len = fault out_of_fuel
measure (suc fuel) buf p len = at buf p >>= λ c. elim (c == 0) [
  | true ↦ ok len
  | false ↦ measure_step buf p c len >>= λ s. measure fuel buf s.0 s.1
]

-- `for (i = 0; i < partlen; i++) *p2++ = *p++`
unfoldable pub copy_bytes : ℕ → List ℕ → ℕ → List ℕ → ℕ → Run (List ℕ)
copy_bytes zero buf p namebuf p2 = ok namebuf
copy_bytes (suc partlen) buf p namebuf p2 = do
  c ← at buf p
  ensure (ltb p2 (length namebuf)) out_of_bounds
  copy_bytes partlen buf (p + 1) (set namebuf p2 c) (p2 + 1)

-- The copy: where it reads and writes, the name so far, and `*offset` once a pointer has moved it.
pub record Copy : Type 0 where
  pub p : ℕ
  pub p2 : ℕ
  pub namebuf : List ℕ
  pub moved : Option ℕ

unfoldable pub copy_pointer : List ℕ → ℕ → Copy → Run Copy
copy_pointer buf c s = do
  c' ← at buf (s.p + 1)
  ok record s { moved = elim s.moved [ none ↦ some (s.p + 2) | some o ↦ some o ]; p = pointer c c' }

unfoldable pub copy_label : List ℕ → ℕ → Copy → Run Copy
copy_label buf c s = do
  first ← at s.namebuf 0
  let sep = if first == 0 then [] else dot ∷ []
  namebuf' ← write_bytes s.namebuf s.p2 sep
  namebuf'' ← copy_bytes c buf (s.p + 1) namebuf' (s.p2 + length sep)
  ok record s { p = s.p + suc c; p2 = s.p2 + length sep + c; namebuf = namebuf'' }

unfoldable pub copy_name : ℕ → List ℕ → Copy → Run Copy
copy_name zero buf s = fault out_of_fuel
copy_name (suc fuel) buf s = at buf s.p >>= λ c. elim (c == 0) [
  | true ↦ ok s
  | false ↦
      (if is_pointer c then copy_pointer buf c s else copy_label buf c s) >>= copy_name fuel buf
]

-- The answer, the new offset and the buffer for the name.
unfoldable pub finish_name : Copy → Run (ℕ × ℕ × List ℕ)
finish_name s = do
  namebuf' ← write_bytes s.namebuf s.p2 (0 ∷ [])
  ok (0, elim s.moved [ none ↦ s.p + 1 | some o ↦ o ], namebuf')

unfoldable pub netbuf_get_domain_name : ℕ → List ℕ → ℕ → List ℕ → ℕ → Run (ℕ × ℕ × List ℕ)
netbuf_get_domain_name fuel buf offset namebuf namebuflen = do
  empty ← write_bytes namebuf 0 (0 ∷ [])
  len ← measure fuel buf offset 0
  elim (ltb namebuflen len) [
    | true ↦ ok (len, offset, empty)
    | false ↦
        copy_name fuel buf (record { p = offset; p2 = 0; namebuf = empty; moved = none })
        >>= finish_name
  ]
