-- ===== src/Conn/Unique.antt =====
-- xmpp-handler.c: a handler is linked into a list once. What adding, unlinking and freeing do to that.
use imcore.Prelude.{ℕ, ◌≡◌, refl, arith, Bool, true, false, List, [], ◌∷◌, ◌++◌, map, ◌==◌}
use imcore.Prelude.{
  if◌then◌else◌, Ensures, ok-Ensures, >>=-Ensures, if-Ensures, Bool-cases, inl, inr, ◌∙◌, Option,
  suc, ◌&&◌,
}
use imcore.Conn.{Conn, HandlistItem, Handler, World, same_handler, same_handler_iff, matching}
use imcore.Conn.Handlers.{
  check_handler_exist, unlink_handler, copies, new_item, xmpp_handler_add, xmpp_handler_delete,
  handler_add_with,
}
use imcore.Conn.Fire.{free_at, enable}

-- No two items of the list have the same handler.
abbrev pub IsUnique : List HandlistItem → Type 0
IsUnique [] = Unit
IsUnique (i ∷ is) = (check_handler_exist is i.handler ≡ false) × IsUnique is

same_sym : (h k : Handler) → same_handler h k ≡ false → same_handler k h ≡ false
same_sym h k e = ground (arith, same_handler_iff h k, same_handler_iff k h)

exist-append :
    (is : List HandlistItem) (i : HandlistItem) (h : Handler)
    → check_handler_exist is h ≡ false
    → same_handler i.handler h ≡ false
    → check_handler_exist (is ++ i ∷ []) h ≡ false
unfolding check_handler_exist
exist-append [] i h e s = rw (s) refl
exist-append (j ∷ is) i h e s = ground (arith, exist-append is i h)

absent_tail :
    (j : HandlistItem) (is : List HandlistItem) (h : Handler)
    → check_handler_exist (j ∷ is) h ≡ false
    → (same_handler j.handler h ≡ false) × (check_handler_exist is h ≡ false)
unfolding check_handler_exist
absent_tail j is h e = ground arith

absent_cons :
    (j : HandlistItem) (is : List HandlistItem) (h : Handler)
    → same_handler j.handler h ≡ false
    → check_handler_exist is h ≡ false
    → check_handler_exist (j ∷ is) h ≡ false
unfolding check_handler_exist
absent_cons j is h s e = rw s e

pub IsUnique-append :
    (is : List HandlistItem) (i : HandlistItem)
    → IsUnique is
    → check_handler_exist is i.handler ≡ false
    → IsUnique (is ++ i ∷ [])
IsUnique-append [] i u e = (unfold check_handler_exist in refl, tt)
IsUnique-append (j ∷ is) i u e =
    let (other, rest) = absent_tail j is i.handler e in
    (exist-append is i j.handler u.0 (same_sym _ _ other), IsUnique-append is i u.1 rest)

exist-unlink_handler :
    (h k : Handler) (is : List HandlistItem)
    → check_handler_exist is k ≡ false
    → check_handler_exist (unlink_handler h is) k ≡ false
unfolding unlink_handler check_handler_exist
exist-unlink_handler h k [] e = e
exist-unlink_handler h k (i ∷ is) e = ground (arith, exist-unlink_handler h k is)

pub IsUnique-unlink_handler :
    (h : Handler) (is : List HandlistItem) → IsUnique is → IsUnique (unlink_handler h is)
unfolding unlink_handler
IsUnique-unlink_handler h [] u = tt
IsUnique-unlink_handler h (i ∷ is) u =
    ground (arith, exist-unlink_handler h i.handler is u.0, IsUnique-unlink_handler h is u.1)

-- In such a list unlinking leaves no item with the handler.
pub unlink_handler-removes :
    (h : Handler) (is : List HandlistItem)
    → IsUnique is
    → check_handler_exist (unlink_handler h is) h ≡ false
unfolding unlink_handler
unlink_handler-removes h [] u = unfold check_handler_exist in refl
unlink_handler-removes h (i ∷ is) u = elim (Bool-cases (same_handler i.handler h)) [
  | inl e ↦ rw e (rw (← (same_handler_iff i.handler h).0 e) u.0)
  | inr e ↦ rw e (absent_cons i (unlink_handler h is) h e (unlink_handler-removes h is u.1))
]

exist-free_at :
    (r : ℕ) (k : Handler) (is : List HandlistItem)
    → check_handler_exist is k ≡ false
    → Ensures (free_at r is) (λ js. check_handler_exist js k ≡ false)
unfolding free_at
exist-free_at r k [] e js f = cc
exist-free_at r k (i ∷ is) e js f =
    let (other, rest) = absent_tail i is k e in
    if-Ensures (λ js. check_handler_exist js k ≡ false) (i.ref == r) _ _
      (ok-Ensures (λ js. check_handler_exist js k ≡ false) is rest)
      (>>=-Ensures (λ js. check_handler_exist js k ≡ false) (free_at r is) _
        λ js' g.
          ok-Ensures (λ js. check_handler_exist js k ≡ false) (i ∷ js')
            (absent_cons i js' k other (exist-free_at r k is rest js' g)))
      js f

pub IsUnique-free_at :
    (r : ℕ) (is : List HandlistItem) → IsUnique is → Ensures (free_at r is) IsUnique
unfolding free_at
IsUnique-free_at r [] u js f = cc
IsUnique-free_at r (i ∷ is) u js f =
    if-Ensures IsUnique (i.ref == r) _ _ (ok-Ensures IsUnique is u.1)
      (>>=-Ensures IsUnique (free_at r is) _ λ js' g.
        ok-Ensures IsUnique (i ∷ js')
          (exist-free_at r i.handler is u.0 js' g, IsUnique-free_at r is u.1 js' g))
      js f

exist-enable :
    (k : Handler) (is : List HandlistItem)
    → check_handler_exist (map enable is) k ≡ check_handler_exist is k
unfolding check_handler_exist enable
exist-enable k [] = refl
exist-enable k (i ∷ is) = rw (exist-enable k is) refl

pub IsUnique-enable : (is : List HandlistItem) → IsUnique is → IsUnique (map enable is)
unfolding enable
IsUnique-enable [] u = tt
IsUnique-enable (i ∷ is) u = (exist-enable i.handler is ∙ u.0, IsUnique-enable is u.1)

unlink_handler-absent :
    (h : Handler) (is : List HandlistItem)
    → check_handler_exist is h ≡ false
    → unlink_handler h is ≡ is
unfolding unlink_handler
unlink_handler-absent h [] e = refl
unlink_handler-absent h (i ∷ is) e =
    let (other, rest) = absent_tail i is h e in rw (other, unlink_handler-absent h is rest) refl

unlink_handler-append :
    (is : List HandlistItem) (i : HandlistItem)
    → check_handler_exist is i.handler ≡ false
    → unlink_handler i.handler (is ++ i ∷ []) ≡ is
unfolding unlink_handler
unlink_handler-append [] i e = rw ((same_handler_iff i.handler i.handler).1 refl) refl
unlink_handler-append (j ∷ is) i e =
    let (other, rest) = absent_tail j is i.handler e in
    rw (other, unlink_handler-append is i rest) refl

-- Deleting a handler that was not registered before it was added gives the list of before back,
-- also where there was no memory to add it.
pub xmpp_handler_delete-xmpp_handler_add :
    (w : World) (c : Conn) (h : Handler) (ns name type userdata : Option (List ℕ))
    → check_handler_exist c.handlers h ≡ false
    → (xmpp_handler_delete (xmpp_handler_add w c h ns name type userdata) h).handlers ≡ c.handlers
unfolding xmpp_handler_delete xmpp_handler_add handler_add_with new_item
xmpp_handler_delete-xmpp_handler_add w c h ns name type userdata e = rw e (
    pick (w.alloc 0 && copies (w.alloc 1) ns && copies (w.alloc 2) name && copies (w.alloc 3) type))
  where
    i : HandlistItem
    i = new_item c h userdata true (matching ns name type)

    pick :
        (b : Bool)
        → unlink_handler h
            (if b
              then record c { handlers = c.handlers ++ i ∷ []; next = suc c.next }
              else c).handlers
          ≡ c.handlers
    pick true = unlink_handler-append c.handlers i (unfold new_item in e)
    pick false = unlink_handler-absent h c.handlers e
