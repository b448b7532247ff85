-- ===== src/Conn/Apart.antt =====
-- xmpp-handler.c: the addresses of the items of a list, and the walks by address.
use imcore.Prelude.{ℕ, ◌+◌, ◌<◌, ◌≡◌, refl, arith, Bool, true, false}
use imcore.Prelude.{List, [], ◌∷◌, ◌++◌, if◌then◌else◌, ◌==◌, ==_iff}
use imcore.Prelude.{ok, All}
use imcore.Stanza.Tree.{}
use imcore.Conn.{Conn, HandlistItem}
use imcore.Conn.Fire.{first_ref, node_at, free_at}

abbrev pub has_ref : ℕ → List HandlistItem → Bool
has_ref r [] = false
has_ref r (i ∷ is) = if i.ref == r then true else has_ref r is

-- No two items stand at one address.
abbrev pub Apart : List HandlistItem → Type 0
Apart [] = Unit
Apart (i ∷ is) = (has_ref i.ref is ≡ false) × Apart is

-- The addresses are apart, and below the next one.
pub record IsSound (c : Conn) : Type 0 where
  pub apart : Apart c.handlers
  pub below : All (λ i. i.ref < c.next) c.handlers

-- A list stays as it is, or gets one new item at its end, which is not enabled.
pub data Grows (hs : List HandlistItem) (hs' : List HandlistItem) : Type 0 where
  stays : hs' ≡ hs → Grows hs hs'
  grows : (j : HandlistItem) → j.enabled ≡ false → hs' ≡ hs ++ j ∷ [] → Grows hs hs'

has_ref-front :
    (r : ℕ) (xs : List HandlistItem) (i : HandlistItem) (ys : List HandlistItem)
    → has_ref r (xs ++ i ∷ ys) ≡ false
    → i.ref == r ≡ false
has_ref-front r [] i ys h = ground arith
has_ref-front r (x ∷ xs) i ys h = has_ref-front r xs i ys (ground arith)

-- In such a list the walk finds the item that stands there, and what follows it.
pub node_at-here :
    (xs : List HandlistItem) (i : HandlistItem) (ys : List HandlistItem)
    → Apart (xs ++ i ∷ ys)
    → node_at i.ref (xs ++ i ∷ ys) ≡ ok (i, first_ref ys)
unfolding node_at
node_at-here [] i ys a = rw ((==_iff i.ref i.ref).1 refl) refl
node_at-here (x ∷ xs) i ys a =
    rw (differ x.ref i.ref (has_ref-front x.ref xs i ys a.0)) (node_at-here xs i ys a.1)
  where
    differ : (m n : ℕ) → n == m ≡ false → m == n ≡ false
    differ m n h = ground arith

pub free_at-here :
    (xs : List HandlistItem) (i : HandlistItem) (ys : List HandlistItem)
    → Apart (xs ++ i ∷ ys)
    → free_at i.ref (xs ++ i ∷ ys) ≡ ok (xs ++ ys)
unfolding free_at
free_at-here [] i ys a = rw ((==_iff i.ref i.ref).1 refl) refl
free_at-here (x ∷ xs) i ys a =
    rw (differ x.ref i.ref (has_ref-front x.ref xs i ys a.0), free_at-here xs i ys a.1) refl
  where
    differ : (m n : ℕ) → n == m ≡ false → m == n ≡ false
    differ m n h = ground arith

has_ref-drop :
    (r : ℕ) (xs : List HandlistItem) (i : HandlistItem) (ys : List HandlistItem)
    → has_ref r (xs ++ i ∷ ys) ≡ false
    → has_ref r (xs ++ ys) ≡ false
has_ref-drop r [] i ys h = ground arith
has_ref-drop r (x ∷ xs) i ys h = ground (arith, has_ref-drop r xs i ys)

pub Apart-drop :
    (xs : List HandlistItem) (i : HandlistItem) (ys : List HandlistItem)
    → Apart (xs ++ i ∷ ys)
    → Apart (xs ++ ys)
Apart-drop [] i ys a = a.1
Apart-drop (x ∷ xs) i ys a = (has_ref-drop x.ref xs i ys a.0, Apart-drop xs i ys a.1)

-- How many items the loop can still visit: each enabled one can bring one more.
abbrev pub visits : List HandlistItem → ℕ
visits [] = 0
visits (i ∷ is) = (if i.enabled then 2 else 1) + visits is

pub visits-append :
    (is : List HandlistItem) (j : HandlistItem)
    → j.enabled ≡ false
    → visits (is ++ j ∷ []) ≡ visits is + 1
visits-append [] j e = rw e refl
visits-append (i ∷ is) j e = omega (arith, visits-append is j e)

pub All-drop :
    (P : HandlistItem → Type 0) (xs : List HandlistItem) (i : HandlistItem) (ys : List HandlistItem)
    → All P (xs ++ i ∷ ys)
    → All P (xs ++ ys)
All-drop P [] i ys a = a.1
All-drop P (x ∷ xs) i ys a = (a.0, All-drop P xs i ys a.1)
