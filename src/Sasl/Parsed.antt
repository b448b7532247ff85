-- ===== src/Sasl/Parsed.antt =====
-- _parse_digest_challenge of xmpp-sasl.c on the challenges that a server prints.
use imcore.Prelude.{ℕ, zero, suc, ◌≤◌, ◌<◌, ◌≡◌, refl, sym, ◌∙◌, arith, Bool, true, false}
use imcore.Prelude.{List, [], ◌∷◌, ◌++◌, append_assoc, append-nil, some, All, length, length-append}
use imcore.Prelude.{Run, ok, ok-injective, ◌>>=◌, >>=-cong}
use mathlib.Core.Option.{some-injective}
use imcore.Prelude.Search.{Free}
use imcore.Hash.{hash_new, hash_add}
use imcore.Base64.Encode.{base64_encode, IsAscii}
use imcore.Base64.RoundTrip.{base64_decode-base64_encode}
use imcore.Sasl.Challenge.{
  Fields, comma, space, equals, apostrophe, quote, skip, up_to, behind_quote, take_value,
}
use imcore.Sasl.Challenge.{
  pair, take_pair, parse_loop, c_text, parse_fields, parse_text, parse_digest_challenge,
}

-- A field as a server prints it: `key=value`, or `key="value"`.
pub record Item : Type 0 where
  pub key : List ℕ
  pub text : List ℕ
  pub quotes : Bool

-- A value in quotes holds no quote; another one holds no comma and does not start like one in quotes.
abbrev pub IsText : Bool → List ℕ → Type 0
IsText true v = Free quote v
IsText false v = Free comma v × Free quote v × Free apostrophe v

abbrev pub IsItem : Item → Type 0
IsItem i = Free equals i.key × Free comma i.key × Free space i.key × IsText i.quotes i.text

abbrev pub in_quotes : Bool → List ℕ → List ℕ
in_quotes true v = quote ∷ (v ++ quote ∷ [])
in_quotes false v = v

unfoldable pub print_item : Item → List ℕ
print_item i = i.key ++ equals ∷ in_quotes i.quotes i.text

unfoldable pub print_more : List Item → List ℕ
print_more [] = []
print_more (i ∷ is) = comma ∷ (print_item i ++ print_more is)

unfoldable pub print_items : List Item → List ℕ
print_items [] = []
print_items (i ∷ is) = print_item i ++ print_more is

-- The fields put into a table, one after the other.
unfoldable pub add_all : List Item → Fields → Run Fields
add_all [] t = ok t
add_all (i ∷ is) t = hash_add true true t i.key (some i.text) >>= λ r. add_all is r.1

up_to-stop :
    (stop : ℕ) (xs rest : List ℕ)
    → Free stop xs
    → up_to stop (xs ++ stop ∷ rest) ≡ (xs, stop ∷ rest)
unfolding up_to
up_to-stop stop [] rest h = ground arith
up_to-stop stop (x ∷ xs) rest h = ground (arith, up_to-stop stop xs rest, h.0)

up_to-end : (stop : ℕ) (xs : List ℕ) → Free stop xs → up_to stop xs ≡ (xs, [])
unfolding up_to
up_to-end stop [] h = refl
up_to-end stop (x ∷ xs) h = ground (arith, up_to-end stop xs, h.0)

skip-key :
    (key rest : List ℕ)
    → Free comma key
    → Free space key
    → skip (key ++ equals ∷ rest) ≡ key ++ equals ∷ rest
unfolding skip
skip-key [] rest c s = refl
skip-key (x ∷ key) rest c s = ground (arith, c.0, s.0)

-- What stands behind a field: nothing, or a comma.
take_value-print :
    (q : Bool) (v : List ℕ) (is : List Item)
    → IsText q v
    → take_value (in_quotes q v ++ print_more is) ≡ (v, print_more is)
unfolding take_value behind_quote
take_value-print true v is h =
    rw (append_assoc v (quote ∷ []) (print_more is), up_to-stop quote v (print_more is) h) refl
take_value-print false [] [] h = unfold print_more in refl
take_value-print false [] (i ∷ is) h = unfold print_more up_to in refl
take_value-print false (c ∷ v) [] h =
    unfold print_more in
    rw (append-nil v) (ground (arith, up_to-end comma (c ∷ v) h.0, h.1.0, h.2.0))
take_value-print false (c ∷ v) (i ∷ is) h =
    unfold print_more in
    ground (arith, up_to-stop comma (c ∷ v) (print_item i ++ print_more is) h.0, h.1.0, h.2.0)

-- One round reads one field.
pair-print :
    (i : Item) (is : List Item)
    → IsItem i
    → pair (up_to equals (skip (print_item i ++ print_more is)))
      ≡ some (i.key, i.text, print_more is)
unfolding print_item pair
pair-print i is h =
    rw
      (
        append_assoc i.key (equals ∷ in_quotes i.quotes i.text) (print_more is),
        skip-key i.key (in_quotes i.quotes i.text ++ print_more is) h.1 h.2,
        up_to-stop equals i.key (in_quotes i.quotes i.text ++ print_more is) h.0,
        take_value-print i.quotes i.text is h.3,
      )
      refl

parse_round :
    (fuel c : ℕ) (s : List ℕ) (t : Fields) (i : Item) (rest : List ℕ)
    → take_pair (c ∷ s) ≡ some (i.key, i.text, rest)
    → parse_loop (suc fuel) (c ∷ s) t
      ≡ (hash_add true true t i.key (some i.text) >>= λ r. parse_loop fuel rest r.1)
unfolding parse_loop
parse_round fuel c s t i rest e = rw (parse_loop, e) refl

parse-more :
    (is : List Item) (fuel : ℕ) (t : Fields)
    → All IsItem is
    → length is ≤ fuel
    → parse_loop fuel (print_more is) t ≡ add_all is t
parse-more [] zero t h f = unfold parse_loop print_more add_all in refl
parse-more [] (suc fuel) t h f = unfold parse_loop print_more add_all in refl
parse-more (i ∷ is) zero t h f = absurd (omega arith)
parse-more (i ∷ is) (suc fuel) t h f =
    more i is fuel t h.0
    ∙ >>=-cong (hash_add true true t i.key (some i.text)) _ _
        (λ r. parse-more is fuel r.1 h.1 (omega arith))
    ∙ unfold add_all in refl
  where
    more :
        (i : Item) (is : List Item) (fuel : ℕ) (t : Fields)
        → IsItem i
        → parse_loop (suc fuel) (print_more (i ∷ is)) t
          ≡ (hash_add true true t i.key (some i.text) >>= λ r. parse_loop fuel (print_more is) r.1)
    more i is fuel t h =
        unfold print_more in
        parse_round fuel comma (print_item i ++ print_more is) t i (print_more is)
          (unfold take_pair skip in pair-print i is h)

first_byte : (i : Item) (rest : List ℕ) → (c : ℕ) × (s : List ℕ) × (print_item i ++ rest ≡ c ∷ s)
unfolding print_item
first_byte i rest = split i.key (in_quotes i.quotes i.text)
  where
    split : (key v : List ℕ) → (c : ℕ) × (s : List ℕ) × ((key ++ equals ∷ v) ++ rest ≡ c ∷ s)
    split [] v = (_, _, refl)
    split (c ∷ key) v = (_, _, refl)

-- The loop puts exactly the printed fields into the table, in their order.
pub parse-print :
    (is : List Item) (fuel : ℕ) (t : Fields)
    → All IsItem is
    → length is ≤ fuel
    → parse_loop fuel (print_items is) t ≡ add_all is t
unfolding print_items
parse-print [] fuel t h f = unfold print_more in parse-more [] fuel t tt f
parse-print (i ∷ is) zero t h f = absurd (omega arith)
parse-print (i ∷ is) (suc fuel) t h f =
    let (c, s, e) = first_byte i (print_more is) in
    rw e (
      parse_round fuel c s t i (print_more is) (rw (← e) (unfold take_pair in pair-print i is h.0)))
    ∙ >>=-cong (hash_add true true t i.key (some i.text)) _ _
        (λ r. parse-more is fuel r.1 h.1 (omega arith))
    ∙ unfold add_all in refl

length-more : (is : List Item) → length is ≤ length (print_more is)
unfolding print_more
length-more [] = omega arith
length-more (i ∷ is) = omega (arith, length-more is, length-append (print_item i) (print_more is))

length-item : (i : Item) → 0 < length (print_item i)
unfolding print_item
length-item i = omega (arith, length-append i.key (equals ∷ in_quotes i.quotes i.text))

length-print : (is : List Item) → length is ≤ length (print_items is)
unfolding print_items
length-print [] = omega arith
length-print (i ∷ is) =
    omega (arith, length-item i, length-more is, length-append (print_item i) (print_more is))

c_text-Free : (s : List ℕ) → Free 0 s → c_text s ≡ s
unfolding c_text
c_text-Free [] h = refl
c_text-Free (c ∷ s) h = ground (arith, c_text-Free s, h.0)

-- A challenge of ASCII fields without NUL, printed and encoded, is parsed into the table that a new one
-- becomes when these fields are added to it in their order.
pub parse_digest_challenge-print :
    (is : List Item) (msg : List ℕ) (table : Fields)
    → All IsItem is
    → IsAscii (print_items is)
    → Free 0 (print_items is)
    → 2 ≤ length (print_items is)
    → base64_encode true (print_items is) ≡ ok (some msg)
    → hash_new true true 10 true ≡ some table
    → parse_digest_challenge true msg ≡ (add_all is table >>= λ t. ok (some t))
unfolding parse_digest_challenge
parse_digest_challenge-print is msg table h a z n e k =
    let (text, d, b) = base64_decode-base64_encode (print_items is) a n in
    rw (some-injective _ _ (ok-injective (sym e ∙ d)), b)
      (unfold parse_text in
        rw (k, c_text-Free (print_items is) z)
          (unfold parse_fields in
            rw (parse-print is (length (print_items is)) table h (length-print is)) refl))
