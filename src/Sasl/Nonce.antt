-- ===== src/Sasl/Nonce.antt =====
-- sasl_digest_md5 of xmpp-sasl.c on a challenge without a nonce.
use imcore.Prelude.{ℕ, ◌<◌, ◌≤◌, ◌≡◌, refl, ◌∙◌, arith, Bool, true, false, if◌then◌else◌}
use imcore.Prelude.{
  List, [], ◌∷◌, Option, none, some, All, length, Run, ok, fault, null_pointer, ◌>>=◌,
}
use imcore.Prelude.Text.{codes, str_eq, strdup}
use imcore.Prelude.Search.{Free}
use imcore.Base64.Encode.{base64_encode, IsAscii}
use imcore.Hash.{hash_new}
use imcore.Hash.View.{IsValid, IsKey, view, hash_get-view}
use imcore.Hash.Add.{hash_add-Adds, hash_new-IsValid}
use imcore.Jid.{xmpp_jid_node, xmpp_jid_domain}
use imcore.Sasl.Challenge.{Fields}
use imcore.Sasl.Digest.{
  put, no_realm, with_realm, own_fields, field_of, not_null, hash_a1, answer_fields, answer,
  sasl_digest_md5,
}
use imcore.Sasl.Parsed.{Item, IsItem, print_items, add_all, parse_digest_challenge-print}

abbrev nonce : List ℕ
nonce = codes "nonce"

-- A valid table with a release function and no value for the nonce.
record Lacks (t : Fields) : Type 0 where
  valid : IsValid t
  free : t.free ≡ true
  absent : view t nonce ≡ none

-- A key that a table takes, and that is not the nonce.
abbrev IsOther : List ℕ → Type 0
IsOther key = IsKey key × (0 < length key) × (str_eq nonce key ≡ false)

-- The run leaves a table that still has no nonce.
abbrev Keeps : Run Fields → Type 0
Keeps m = (t : Fields) × (m ≡ ok t) × Lacks t

put-Keeps :
    (t : Fields) (key : List ℕ) (v : Option (List ℕ)) → Lacks t → IsOther key → Keeps (put t key v)
unfolding put
put-Keeps t key v l k =
    let (r, e, a) = hash_add-Adds t key v k.0 k.1 l.free l.valid in
    (
      r.1,
      rw e refl,
      record { valid = a.valid; free = a.free; absent = a.reads nonce ∙ rw k.2 l.absent },
    )

next_Keeps :
    (m : Run Fields) (f : Fields → Run Fields)
    → Keeps m
    → ((t : Fields) → Lacks t → Keeps (f t))
    → Keeps (m >>= f)
next_Keeps m f k h = let (t, e, l) = k in rw e (h t l)

with_realm-Keeps : (t : Fields) (domain : List ℕ) → Lacks t → Keeps (with_realm t domain)
unfolding with_realm
with_realm-Keeps t domain l =
    rw (hash_get-view t (codes "realm") (omega arith) l.valid.sized)
      (choose (no_realm (view t (codes "realm"))))
  where
    choose : (b : Bool) → Keeps (if b then put t (codes "realm") (strdup true domain) else ok t)
    choose true =
        put-Keeps t (codes "realm") (strdup true domain) l
          (omega arith, omega arith, unfold str_eq in refl)
    choose false = (t, refl, l)

own_fields-Keeps : (t : Fields) (node domain : List ℕ) → Lacks t → Keeps (own_fields t node domain)
unfolding own_fields
own_fields-Keeps t node domain l =
    next_Keeps (with_realm t domain) _ (with_realm-Keeps t domain l) (λ t1 l1.
      next_Keeps (put t1 (codes "username") (strdup true node)) _
        (put-Keeps t1 (codes "username") (strdup true node) l1
          (other (codes "username") (omega arith) (omega arith) (unfold str_eq in refl)))
        (λ t2 l2.
          next_Keeps (put t2 (codes "cnonce") (strdup true (codes "00DEADBEEF00"))) _
            (put-Keeps t2 (codes "cnonce") _ l2
              (other (codes "cnonce") (omega arith) (omega arith) (unfold str_eq in refl)))
            (λ t3 l3.
              next_Keeps (put t3 (codes "nc") (strdup true (codes "00000001"))) _
                (put-Keeps t3 (codes "nc") _ l3
                  (other (codes "nc") (omega arith) (omega arith) (unfold str_eq in refl)))
                (λ t4 l4.
                  next_Keeps (put t4 (codes "qop") (strdup true (codes "auth"))) _
                    (put-Keeps t4 (codes "qop") _ l4
                      (other (codes "qop") (omega arith) (omega arith) (unfold str_eq in refl)))
                    (λ t5 l5. put-Keeps t5 (codes "digest-uri") _ l5 (
                      other (codes "digest-uri") (omega arith) (omega arith)
                        (unfold str_eq in refl)))))))
  where
    other : (key : List ℕ) → IsKey key → 0 < length key → str_eq nonce key ≡ false → IsOther key
    other key a b c = (a, b, c)

-- The nonce is read without a test.
hash_a1-faults :
    (md5 : List ℕ → List ℕ) (t : Fields) (node password : List ℕ)
    → Lacks t
    → hash_a1 md5 t node password ≡ fault null_pointer
unfolding hash_a1 field_of not_null
hash_a1-faults md5 t node password l =
    rw
      (
        hash_get-view t (codes "realm") (omega arith) l.valid.sized,
        hash_get-view t nonce (omega arith) l.valid.sized,
        l.absent,
      )
      (either (view t (codes "realm")))
  where
    either :
        (o : Option (List ℕ))
        → ◌>>=◌ {B = List ℕ} (not_null o) (λ r. fault null_pointer) ≡ fault null_pointer
    either none = refl
    either (some r) = refl

-- For a table without a nonce the answer reads the text at NULL.
answer_fields-faults :
    (md5 : List ℕ → List ℕ) (t : Fields) (node domain password : List ℕ)
    → Lacks t
    → answer_fields md5 t node domain password ≡ fault null_pointer
unfolding answer_fields
answer_fields-faults md5 t node domain password l =
    let (t', e, l') = own_fields-Keeps t node domain l in
    rw (e, hash_a1-faults md5 t' node password l') refl

-- The keys of the fields that a server sends: ASCII, not empty, and not the nonce.
abbrev pub IsNamed : Item → Type 0
IsNamed i = IsKey i.key × (0 < length i.key) × (str_eq (codes "nonce") i.key ≡ false)

add_all-Keeps : (is : List Item) (t : Fields) → All IsNamed is → Lacks t → Keeps (add_all is t)
unfolding add_all
add_all-Keeps [] t h l = (t, refl, l)
add_all-Keeps (i ∷ is) t h l =
    let (r, e, a) = hash_add-Adds t i.key (some i.text) h.0.0 h.0.1 l.free l.valid in
    rw e (
      add_all-Keeps is r.1 h.1
        (record { valid = a.valid; free = a.free; absent = a.reads nonce ∙ rw h.0.2 l.absent }))

made : (t : Fields) × (hash_new true true 10 true ≡ some t)
unfolding hash_new
made = (_, refl)

new_table : (t : Fields) × (hash_new true true 10 true ≡ some t) × Lacks t
new_table =
    let (t, e) = made in
    let (v, _, f, n) = hash_new-IsValid 10 true t (omega arith) e in
    (t, e, record { valid = v; free = f; absent = n nonce })

-- A challenge of at least two bytes, all of them ASCII and none of them NUL, that is printed of fields with
-- keys that are not empty, none of which is the nonce, makes sasl_digest_md5 read the text at NULL, for
-- every password and every address with a node.
pub sasl_digest_md5_faults :
    (md5 : List ℕ → List ℕ) (is : List Item) (msg jid node password : List ℕ)
    → All IsItem is
    → All IsNamed is
    → IsAscii (print_items is)
    → Free 0 (print_items is)
    → 2 ≤ length (print_items is)
    → base64_encode true (print_items is) ≡ ok (some msg)
    → xmpp_jid_node true jid ≡ some node
    → sasl_digest_md5 md5 msg jid password ≡ fault null_pointer
unfolding sasl_digest_md5 not_null
sasl_digest_md5_faults md5 is msg jid node password h k a z n e j =
    let (t, m, new) = new_table in
    let (t', added, l) = add_all-Keeps is t k new in
    rw (parse_digest_challenge-print is msg t h a z n e m, added)
      (unfold answer in rw j (after (xmpp_jid_domain true jid) t' l))
  where
    after :
        (o : Option (List ℕ)) (t : Fields)
        → Lacks t
        → (not_null o >>= λ domain. answer_fields md5 t node domain password) ≡ fault null_pointer
    after none t l = unfold not_null in refl
    after (some domain) t l = unfold not_null in answer_fields-faults md5 t node domain password l
