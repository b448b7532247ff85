-- ===== src/Stanza/Gather.antt =====
-- xmpp-stanza.c: `xmpp_stanza_get_attributes`, which writes the names and the values in turn into an
-- array of `attrlen` pointers. The answer is what it has written.
use imcore.Prelude.{ℕ, zero, suc, ◌-◌, ◌≤◌, ◌<◌, ◌≡◌, sym, ap, ◌∙◌, arith, ◌==◌, Bool, true}
use imcore.Prelude.{List, [], ◌∷◌, map, length, Option, none, some, if◌then◌else◌}
use imcore.Prelude.{
  Run, ok, fault, ◌>>=◌, out_of_fuel, null_pointer, Ensures, >>=-Ensures, ok-Ensures, test-Ensures,
}
use imcore.Hash.{hash_get, hash_clone}
use imcore.Hash.Links.{Chain}
use imcore.Hash.View.{IsValid}
use imcore.Hash.Iter.{
  Iter, hash_iter_new, hash_iter_next, remaining, ends, yields, iter_next-Steps, all_slots,
  length-all_slots, remaining-new,
}
use imcore.Stanza.Tree.{Stanza, stanza, StanzaType, Children, Attributes}

abbrev pub Written : Type 0
Written = List (Option (List ℕ))

-- One turn of the loop for a key, where `n` places are left and `more` is the rest of the loop.
unfoldable pub write_pair : Attributes → List ℕ → ℕ → (ℕ → Run Written) → Run Written
write_pair t k n more =
    if n == 0
    then ok []
    else if n == 1
    then ok (some k ∷ [])
    else (hash_get t k >>= λ v.
        if n == 2 then ok (some k ∷ v ∷ []) else (more (n - 2) >>= λ rest. ok (some k ∷ v ∷ rest)))

unfoldable pub gather : ℕ → Attributes → Iter (List ℕ) → ℕ → Run Written
gather zero t it n = fault out_of_fuel
gather (suc fuel) t it n =
    let (key, it') = hash_iter_next it in
    elim key [ none ↦ ok [] | some k ↦ write_pair t k n (λ m. gather fuel t it' m) ]

-- The flag says whether there is memory for the iterator.
unfoldable pub get_attributes_of : Bool → Attributes → ℕ → Run Written
get_attributes_of malloc t n = elim (hash_iter_new malloc t) [
  | none ↦ fault null_pointer
  | some it ↦ gather (suc t.num_keys) t it n
]

unfoldable pub xmpp_stanza_get_attributes : Bool → Stanza → ℕ → Run Written
xmpp_stanza_get_attributes malloc (stanza ref type text none children) n = ok []
xmpp_stanza_get_attributes malloc (stanza ref type text (some t) children) n =
    get_attributes_of malloc t n

-- The reference: the same over the list of the keys.
pub fill : Attributes → List (List ℕ) → ℕ → Run Written
fill t [] n = ok []
fill t (k ∷ ks) n = write_pair t k n (fill t ks)

gather-fill :
    (fuel : ℕ) (t : Attributes) (it : Iter (List ℕ)) (n : ℕ)
    → length (remaining it) < fuel
    → gather fuel t it n ≡ fill t (map (λ s. s.0) (remaining it)) n
unfolding gather fill
gather-fill zero t it n h = absurd (omega arith)
gather-fill (suc fuel) t it n h = elim (iter_next-Steps it) [
  | ends e run ↦ ap turn run ∙ ap keyed (sym e)
  | yields s it' e run ↦
      ap turn run
      ∙ (ap (write_pair t s.0 n) (λ i m. gather-fill fuel t it' m (omega (arith, ap length e)) i)
          ∙ ap keyed (sym e))
]
  where
    turn : Option (List ℕ) × Iter (List ℕ) → Run Written
    turn p = elim p.0 [ none ↦ ok [] | some k ↦ write_pair t k n (λ m. gather fuel t p.1 m) ]

    keyed : Chain (List ℕ) → Run Written
    keyed ss = fill t (map (λ s. s.0) ss) n

fill-fits :
    (t : Attributes) (ks : List (List ℕ)) (n : ℕ) → Ensures (fill t ks n) (λ out. length out ≤ n)
unfolding fill write_pair
fill-fits t [] n = ok-Ensures (λ out. length out ≤ n) [] (omega arith)
fill-fits t (k ∷ ks) n =
    test-Ensures Fits (n == 0) _ _ (λ _. ok-Ensures Fits [] (omega arith))
      λ a.
        test-Ensures Fits (n == 1) _ _ (λ b. ok-Ensures Fits (some k ∷ []) (ground arith))
          λ b. >>=-Ensures Fits (hash_get t k) _ λ v _.
            test-Ensures Fits (n == 2) _ _ (λ c. ok-Ensures Fits (some k ∷ v ∷ []) (ground arith))
              λ c. >>=-Ensures Fits (fill t ks (n - 2)) _ λ rest e.
                ok-Ensures Fits (some k ∷ v ∷ rest) (grind (arith, fill-fits t ks (n - 2) rest e))
  where
    Fits : Written → Type 0
    Fits out = length out ≤ n

-- What the call gives on a tag whose table is valid, where there is memory for the iterator: the loop
-- ends, it writes the key of every entry, in slot order, each with the value that is stored for it, as
-- far as there is room, and never more than there is room for.
pub get_attributes-fill :
    (ref : ℕ) (type : StanzaType) (text : Option (List ℕ)) (t : Attributes) (children : Children)
    (n : ℕ)
    → IsValid t
    → (xmpp_stanza_get_attributes true (stanza ref type text (some t) children) n
        ≡ fill t (map (λ s. s.0) (all_slots t.entries)) n)
      × Ensures
          (xmpp_stanza_get_attributes true (stanza ref type text (some t) children) n)
          (λ out. length out ≤ n)
unfolding xmpp_stanza_get_attributes get_attributes_of hash_iter_new hash_clone
get_attributes-fill ref type text t children n v =
    (filled, λ out e. fill-fits t _ n out (sym filled ∙ e))
  where
    start : Iter (List ℕ)
    start = record { ref = 1; table = hash_clone t; rest = []; next = 0 }

    filled : gather (suc t.num_keys) t start n ≡ fill t (map (λ s. s.0) (all_slots t.entries)) n
    filled =
        gather-fill (suc t.num_keys) t start n
          (omega (arith, ap length (remaining-new t), length-all_slots t.entries, v.counted))
        ∙ ap (λ (ss : Chain (List ℕ)). fill t (map (λ s. s.0) ss) n) (remaining-new t)
