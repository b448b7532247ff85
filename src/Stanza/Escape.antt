-- ===== src/Stanza/Escape.antt =====
-- _escape_xml of xmpp-stanza.c: the length that it computes, and the buffer that it fills.
use imcore.Prelude.{ℕ, ◌+◌, ◌==◌, if◌then◌else◌, List, [], ◌∷◌, ◌++◌, Option, none, some, Bool}
use imcore.Prelude.{Run, ok, ◌>>=◌, take, replicate}
use imcore.Prelude.Text.{codes}
use imcore.Prelude.Bytes.{write_bytes}

-- `&`, `<`, `>`, `"`
abbrev pub ampersand : ℕ
ampersand = 38

abbrev pub less : ℕ
less = 60

abbrev pub greater : ℕ
greater = 62

abbrev pub quote : ℕ
quote = 34

-- `switch (*src)`, for the length
unfoldable pub width : ℕ → ℕ
width c =
    if c == less
    then 4
    else if c == greater
    then 4
    else if c == ampersand
    then 5
    else if c == quote
    then 6
    else 1

unfoldable pub escape_len : ℕ → List ℕ → ℕ
escape_len len [] = len
escape_len len (c ∷ cs) = escape_len (len + width c) cs

-- What the second `switch` writes, the NUL of `strcpy` included.
unfoldable pub copied : ℕ → List ℕ
copied c =
    if c == less
    then codes "&lt;" ++ 0 ∷ []
    else if c == greater
    then codes "&gt;" ++ 0 ∷ []
    else if c == ampersand
    then codes "&amp;" ++ 0 ∷ []
    else if c == quote
    then codes "&quot;" ++ 0 ∷ []
    else c ∷ []

unfoldable pub escape_loop : List ℕ → List ℕ → ℕ → Run (List ℕ × ℕ)
escape_loop [] buf dst = ok (buf, dst)
escape_loop (c ∷ cs) buf dst = do
  buf' ← write_bytes buf dst (copied c)
  escape_loop cs buf' (dst + width c)

-- The text that the returned buffer holds: `dst` bytes and their NUL.
unfoldable pub escape_into : List ℕ → List ℕ → Run (List ℕ)
escape_into text buf = do
  (buf', dst) ← escape_loop text buf 0
  buf'' ← write_bytes buf' dst (0 ∷ [])
  ok (take dst buf'')

unfoldable pub escape_xml : Bool → List ℕ → Run (Option (List ℕ))
escape_xml alloc text =
    if alloc
    then (escape_into text (replicate (escape_len 0 text + 1) 0) >>= λ t. ok (some t))
    else ok none
