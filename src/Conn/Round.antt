-- ===== src/Conn/Round.antt =====
-- xmpp-handler.c: one round of `handler_fire_stanza` over the normal handlers, against a reference that
-- has neither a cursor nor fuel.
use imcore.Prelude.{ℕ, zero, suc, ◌+◌, ◌≤◌, ◌<◌, ◌≡◌, refl, sym, ap, ◌∙◌, arith, Bool, true, false}
use imcore.Prelude.{List, [], ◌∷◌, ◌++◌, Option, if◌then◌else◌}
use imcore.Prelude.{
  Run, ok, ◌>>=◌, >>=-cong_ok, >>=-cong, All, ◌||◌, not, Ensures, >>=-Ensures, ok-Ensures,
  if-Ensures, test-Ensures, ok-injective,
}
use imcore.Prelude.{map, length, ◌*◌, append_assoc}
use mathlib.Core.Path.{subst}
use imcore.Stanza.Tree.{
  Stanza, xmpp_stanza_get_ns, xmpp_stanza_get_type_ptr, xmpp_stanza_get_name_ptr,
}
use imcore.Conn.{Conn, HandlistItem, Handler}
use imcore.Conn.Fire.{
  first_ref, node_at, free_at, enable, fire_handlers, fire_one, fire_from, keep_or_free, matches,
  barred,
}
use imcore.Conn.Apart.{
  has_ref, Apart, IsSound, Grows, stays, grows, node_at-here, free_at-here, Apart-drop, visits,
  visits-append, All-drop,
}

has_ref-enable : (r : ℕ) (is : List HandlistItem) → has_ref r (map enable is) ≡ has_ref r is
unfolding enable
has_ref-enable r [] = refl
has_ref-enable r (i ∷ is) = rw (has_ref-enable r is) refl

Apart-enable : (is : List HandlistItem) → Apart is → Apart (map enable is)
unfolding enable
Apart-enable [] a = tt
Apart-enable (i ∷ is) a = (has_ref-enable i.ref is ∙ a.0, Apart-enable is a.1)

All-enable :
    (n : ℕ) (is : List HandlistItem)
    → All (λ k. k.ref < n) is
    → All (λ k. k.ref < n) (map enable is)
unfolding enable
All-enable n [] b = tt
All-enable n (i ∷ is) b = (b.0, All-enable n is b.1)

enable-IsSound : (c : Conn) → IsSound c → IsSound (record c { handlers = map enable c.handlers })
enable-IsSound c v = record {
  apart = Apart-enable c.handlers v.apart;
  below = All-enable c.next c.handlers v.below;
}

visits-enable : (is : List HandlistItem) → visits (map enable is) ≡ 2 * length is
unfolding enable
visits-enable [] = refl
visits-enable (i ∷ is) = omega (arith, visits-enable is)

-- The reference: each item of a list in turn.
module _ (call : Handler → Option (List ℕ) → Conn → Stanza → Run (Bool × Conn)) (s : Stanza)
    (ns name type : Option (List ℕ)) where
  unfoldable pub fire_each : List HandlistItem → Conn → Run Conn
  fire_each [] c = ok c
  fire_each (i ∷ is) c = fire_one call s ns name type i c >>= fire_each is

  -- An item that is not enabled has no part in the round.
  fire_each-append :
      (is : List HandlistItem) (j : HandlistItem) (c : Conn)
      → j.enabled ≡ false
      → fire_each (is ++ j ∷ []) c ≡ fire_each is c
  unfolding fire_each fire_one
  fire_each-append [] j c off = rw off refl
  fire_each-append (i ∷ is) j c off =
      >>=-cong (fire_one call s ns name type i c) (fire_each (is ++ j ∷ [])) (fire_each is)
        (λ d. fire_each-append is j d off)

module _ (call : Handler → Option (List ℕ) → Conn → Stanza → Run (Bool × Conn)) (s : Stanza)
    (calls : (h : Handler) (userdata : Option (List ℕ)) (c d : Conn) (b : Bool)
      → IsSound c
      → call h userdata c s ≡ ok (b, d)
      → Grows c.handlers d.handlers × IsSound d) where
  -- What one visit leaves behind the items that were in front of it and itself.
  data After (i : HandlistItem) (rest : List HandlistItem) (d : Conn) : Type 0 where
    quiet : (front : List HandlistItem) → d.handlers ≡ front ++ rest → IsSound d → After i rest d
    grown :
        (front : List HandlistItem) (j : HandlistItem)
        → i.enabled ≡ true
        → j.enabled ≡ false
        → d.handlers ≡ front ++ (rest ++ j ∷ [])
        → IsSound d
        → After i rest d

  module _ (xs : List HandlistItem) (i : HandlistItem) (rest : List HandlistItem) where
    kept-After :
        (c d : Conn)
        → i.enabled ≡ true
        → c.handlers ≡ xs ++ i ∷ rest
        → Grows c.handlers d.handlers
        → IsSound d
        → After i rest d
    kept-After c d on e (stays g) v =
        quiet (xs ++ i ∷ []) (g ∙ (e ∙ sym (append_assoc xs (i ∷ []) rest))) v
    kept-After c d on e (grows j off g) v =
        grown (xs ++ i ∷ []) j on off
          (g
            ∙ rw e (
                append_assoc xs (i ∷ rest) (j ∷ [])
                ∙ sym (append_assoc xs (i ∷ []) (rest ++ j ∷ []))))
          v

    removed :
        (n : ℕ) (all ys hs : List HandlistItem)
        → all ≡ xs ++ i ∷ ys
        → Apart all
        → All (λ k. k.ref < n) all
        → free_at i.ref all ≡ ok hs
        → (hs ≡ xs ++ ys) × Apart hs × All (λ k. k.ref < n) hs
    removed n all ys hs e a b f =
        let apart = subst Apart e a in
        let q : hs ≡ xs ++ ys =
          ok-injective (sym f ∙ (ap (free_at i.ref) e ∙ free_at-here xs i ys apart)) in
        (
          q,
          subst Apart (sym q) (Apart-drop xs i ys apart),
          subst (All (λ k. k.ref < n)) (sym q)
              (All-drop (λ k. k.ref < n) xs i ys (subst (All (λ k. k.ref < n)) e b)),
        )

    freed-After :
        (c d : Conn) (hs : List HandlistItem)
        → i.enabled ≡ true
        → c.handlers ≡ xs ++ i ∷ rest
        → Grows c.handlers d.handlers
        → IsSound d
        → free_at i.ref d.handlers ≡ ok hs
        → After i rest (record d { handlers = hs })
    freed-After c d hs on e (stays g) v f =
        let (q, a, b) = removed d.next d.handlers rest hs (g ∙ e) v.apart v.below f in
        quiet xs q (record { apart = a; below = b })
    freed-After c d hs on e (grows j off g) v f =
        let (q, a, b) =
          removed d.next d.handlers (rest ++ j ∷ []) hs
            (g ∙ rw e (append_assoc xs (i ∷ rest) (j ∷ []))) v.apart v.below f in
        grown xs j on off q (record { apart = a; below = b })

    keep_or_free-After :
        (c : Conn) (p : Bool × Conn)
        → i.enabled ≡ true
        → c.handlers ≡ xs ++ i ∷ rest
        → Grows c.handlers p.1.handlers
        → IsSound p.1
        → Ensures (keep_or_free call s i.ref p) (After i rest)
    unfolding keep_or_free
    keep_or_free-After c (true, d) on e g v = ok-Ensures (After i rest) d (kept-After c d on e g v)
    keep_or_free-After c (false, d) on e g v =
        >>=-Ensures (After i rest) (free_at i.ref d.handlers) _ λ hs f.
          ok-Ensures (After i rest) (record d { handlers = hs }) (freed-After c d hs on e g v f)

    module _ (ns name type : Option (List ℕ)) where
      fire_one-After :
          (c : Conn)
          → c.handlers ≡ xs ++ i ∷ rest
          → IsSound c
          → Ensures (fire_one call s ns name type i c) (After i rest)
      unfolding fire_one
      fire_one-After c e v =
          test-Ensures (After i rest) (not i.enabled || barred c i) _ _
            (λ _. ok-Ensures (After i rest) c passed)
            λ o.
              let on = is_on o in
              >>=-Ensures (After i rest) (matches i.trigger ns name type s) _ λ hit _.
                if-Ensures (After i rest) hit _ _
                  (>>=-Ensures (After i rest) (call i.handler i.userdata c s) _ λ p f.
                    let (g, u) = calls i.handler i.userdata c p.1 p.0 v f in
                    keep_or_free-After c p on e g u)
                  (ok-Ensures (After i rest) c passed)
        where
          passed : After i rest c
          passed = quiet (xs ++ i ∷ []) (e ∙ sym (append_assoc xs (i ∷ []) rest)) v

          is_on : not i.enabled || barred c i ≡ false → i.enabled ≡ true
          is_on o = ground arith

  module _ (ns name type : Option (List ℕ)) where
    abbrev each : List HandlistItem → Conn → Run Conn
    each = fire_each call s ns name type

    -- From the next item on, with what the round has brought at the end of the list.
    continue :
        (n : ℕ) (i : HandlistItem) (rest : List HandlistItem) (d : Conn)
        → visits (i ∷ rest) ≤ suc n
        → ((c : Conn) (front todo : List HandlistItem)
            → c.handlers ≡ front ++ todo
            → IsSound c
            → visits todo ≤ n
            → fire_from call s ns name type n (first_ref todo) c ≡ each todo c)
        → After i rest d
        → fire_from call s ns name type n (first_ref rest) d ≡ each rest d
    unfolding fire_from first_ref fire_each
    continue n i rest d h ih (quiet front e v) =
        ih d front rest e v (fewer i.enabled (visits rest) n h)
      where
        fewer : (b : Bool) (m n : ℕ) → (if b then 2 else 1) + m ≤ suc n → m ≤ n
        fewer true m n h = omega arith
        fewer false m n h = omega arith
    continue zero i [] d h ih (grown front j on off e v) = refl
    continue (suc n) i [] d h ih (grown front j on off e v) = refl
    continue n i (r ∷ rest) d h ih (grown front j on off e v) =
        ih d front (r ∷ (rest ++ j ∷ [])) e v
          (one_more i.enabled (visits (r ∷ rest)) n on h (visits-append (r ∷ rest) j off))
        ∙ fire_each-append call s ns name type (r ∷ rest) j d off
      where
        one_more :
            (b : Bool) (m n : ℕ) {k : ℕ}
            → b ≡ true
            → (if b then 2 else 1) + m ≤ suc n
            → k ≡ m + 1
            → k ≤ n
        one_more true m n e h q = omega arith
        one_more false m n e h q = absurd cc

    fire_from-each :
        (n : ℕ) (c : Conn) (front todo : List HandlistItem)
        → c.handlers ≡ front ++ todo
        → IsSound c
        → visits todo ≤ n
        → fire_from call s ns name type n (first_ref todo) c ≡ each todo c
    unfolding fire_from first_ref fire_each
    fire_from-each zero c front [] e v h = refl
    fire_from-each (suc n) c front [] e v h = refl
    fire_from-each zero c front (i ∷ rest) e v h = absurd (visited i.enabled (visits rest) h)
      where
        visited : (b : Bool) (m : ℕ) → ¬ (if b then 2 else 1) + m ≤ 0
        visited true m h = omega arith
        visited false m h = omega arith
    fire_from-each (suc n) c front (i ∷ rest) e v h =
        ap
          (λ (m : Run (HandlistItem × Option ℕ)). m >>= λ x.
            fire_one call s ns name type x.0 c >>= λ d. fire_from call s ns name type n x.1 d)
          (ap (node_at i.ref) e ∙ node_at-here front i rest (subst Apart e v.apart))
        ∙ >>=-cong_ok (fire_one call s ns name type i c)
            (λ d. fire_from call s ns name type n (first_ref rest) d) (each rest)
            (λ d f.
              continue n i rest d h
                (λ c' front' todo' e' v' h'. fire_from-each n c' front' todo' e' v' h')
                (fire_one-After front i rest ns name type c e v d f))

  -- One round gives every normal handler that is registered when it begins one turn, in the order of
  -- the list, and twice their number is enough fuel for it. This holds where the addresses of the
  -- items are apart, and a callback does nothing to the list but bring one new handler to its end.
  pub fire_handlers-each :
      (fuel : ℕ) (c : Conn)
      → IsSound c
      → 2 * length c.handlers ≤ fuel
      → fire_handlers call s fuel c ≡ (
          xmpp_stanza_get_ns s >>= λ ns. xmpp_stanza_get_type_ptr s >>= λ type.
          fire_each call s ns
            (xmpp_stanza_get_name_ptr s)
            type
            (map enable c.handlers)
            (record c { handlers = map enable c.handlers }))
  unfolding fire_handlers
  fire_handlers-each fuel c v h = >>=-cong (xmpp_stanza_get_ns s) _ _ λ ns.
      >>=-cong (xmpp_stanza_get_type_ptr s) _ _ λ type.
        fire_from-each ns (xmpp_stanza_get_name_ptr s) type fuel
          (record c { handlers = map enable c.handlers }) [] (map enable c.handlers) refl
          (enable-IsSound c v) (omega (arith, visits-enable c.handlers))
