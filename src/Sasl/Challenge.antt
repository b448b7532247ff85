-- ===== src/Sasl/Challenge.antt =====
-- _make_string, _make_quoted and _parse_digest_challenge of xmpp-sasl.c. Every allocation of a call
-- succeeds, or hash_new's and base64_decode's fail where a Boolean says so.
use imcore.Prelude.{ℕ, zero, suc, ◌==◌, if◌then◌else◌, Bool, true, false, ◌||◌, List, [], ◌∷◌, ◌++◌}
use imcore.Prelude.{Option, none, some, Run, ok, fault, out_of_fuel, ◌>>=◌, length, take}
use imcore.Base64.Decode.{base64_decode}
use imcore.Hash.{Table, hash_new, hash_add}

abbrev pub Fields : Type 0
Fields = Table (List ℕ)

-- `,`, ` `, `=`, `'` and `"`
abbrev pub comma : ℕ
comma = 44

abbrev pub space : ℕ
space = 32

abbrev pub equals : ℕ
equals = 61

abbrev pub apostrophe : ℕ
apostrophe = 39

abbrev pub quote : ℕ
quote = 34

unfoldable pub make_string : Bool → List ℕ → ℕ → Option (List ℕ)
make_string alloc s len = if alloc then some (take len s) else none

unfoldable pub make_quoted : Bool → List ℕ → Option (List ℕ)
make_quoted alloc s = if alloc then some (quote ∷ (s ++ quote ∷ [])) else none

-- `while ((*s == ',') || (*s == ' ')) s++`
unfoldable pub skip : List ℕ → List ℕ
skip [] = []
skip (c ∷ s) = elim (c == comma || c == space) [ true ↦ skip s | false ↦ c ∷ s ]

-- `while ((*t != stop) && (*t != '\0')) t++`: the text in front of `t`, and the text at `t`.
unfoldable pub up_to : ℕ → List ℕ → List ℕ × List ℕ
up_to stop [] = ([], [])
up_to stop (c ∷ t) =
    let rest = up_to stop t in
    elim (c == stop) [ true ↦ ([], c ∷ t) | false ↦ (c ∷ rest.0, rest.1) ]

-- `if (*t == *s)`, behind a value in quotes
unfoldable pub behind_quote : List ℕ → List ℕ
behind_quote [] = []
behind_quote (c ∷ t) = t

-- The value, and what follows it.
unfoldable pub take_value : List ℕ → List ℕ × List ℕ
take_value [] = ([], [])
take_value (c ∷ s) =
    if c == apostrophe || c == quote
    then (let (value, t) = up_to c s in (value, behind_quote t))
    else up_to comma (c ∷ s)

-- The key and the value, and the rest of the text; nothing for a bad string.
unfoldable pub pair : List ℕ × List ℕ → Option (List ℕ × List ℕ × List ℕ)
pair (key, []) = none
pair (key, c ∷ s) = let (value, rest) = take_value s in some (key, value, rest)

-- One round.
unfoldable pub take_pair : List ℕ → Option (List ℕ × List ℕ × List ℕ)
take_pair s = pair (up_to equals (skip s))

-- Each round takes at least the `=`, so the length of the text is enough fuel.
unfoldable pub parse_loop : ℕ → List ℕ → Fields → Run Fields
parse_loop fuel [] result = ok result
parse_loop zero (c ∷ s) result = fault out_of_fuel
parse_loop (suc fuel) (c ∷ s) result = elim (take_pair (c ∷ s)) [
  | none ↦ ok result
  | some (key, value, rest) ↦
      hash_add true true result key (some value) >>= λ r. parse_loop fuel rest r.1
]

-- The text up to its first NUL.
unfoldable pub c_text : List ℕ → List ℕ
c_text [] = []
c_text (c ∷ s) = elim (c == 0) [ true ↦ [] | false ↦ c ∷ c_text s ]

unfoldable pub parse_fields : Option Fields → List ℕ → Run (Option Fields)
parse_fields none text = ok none
parse_fields (some table) text = parse_loop (length text) text table >>= λ t. ok (some t)

unfoldable pub parse_text : Option (List ℕ) → Run (Option Fields)
parse_text none = ok none
parse_text (some text) = parse_fields (hash_new true true 10 true) (c_text text)

unfoldable pub parse_digest_challenge : Bool → List ℕ → Run (Option Fields)
parse_digest_challenge malloc msg = base64_decode malloc msg >>= parse_text
