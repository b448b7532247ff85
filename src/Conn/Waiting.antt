-- ===== src/Conn/Waiting.antt =====
-- What the handlers of xmpp-handler.c and the socket of xmpp-conn.c keep of a connection that has not
-- been authenticated.
use imcore.Prelude.{ℕ, zero, suc, ◌≡◌, refl, arith, Bool, true, false, List, [], ◌∷◌, ◌++◌, map}
use imcore.Prelude.{Option, none, some, if◌then◌else◌, All, All-append, ◌==◌, sym, ◌&&◌}
use imcore.Prelude.{at, Ensures, >>=-Ensures, ok-Ensures, if-Ensures}
use imcore.Prelude.{test-Ensures, length}
use mathlib.Core.Path.{subst}
use imcore.Hash.Index.{hash_key}
use imcore.Hash.{Table, hash_get, hash_add}
use imcore.Hash.Links.{Chain, find}
use imcore.Conn.{
  Conn, HandlistItem, matching, Handler, World, Notice, conn_connect, conn_disconnect, handle_bind,
  handle_session, application,
}
use imcore.Conn.Unique.{IsUnique, IsUnique-append, IsUnique-unlink_handler}
use imcore.Conn.Handlers.{
  copies, unlink_handler, handler_add_with, new_item, add_head, id_handler_add_with,
}
use imcore.Conn.Fire.{free_at, node_at, enable}
use imcore.Conn.Handlers.{check_handler_exist, xmpp_id_handler_delete, xmpp_handler_delete}

-- No entry, and no release function.
pub record IsEmpty (t : Table ℕ) : Type 0 where
  pub free : t.free ≡ false
  pub chains : All (λ (c : Chain ℕ). c ≡ []) t.entries

-- A handler that can run before the binding of a resource: of the library and not one of the last
-- two, or of the application and marked as such.
abbrev pub ordinary : HandlistItem → Bool
ordinary i = elim i.handler [
  | handle_bind ↦ false
  | handle_session ↦ false
  | application n ↦ i.user_handler
  | _ ↦ true
]

-- How often the application was told that the connection is ready.
unfoldable pub told : List Notice → ℕ
told [] = 0
told (conn_connect ∷ ns) = suc (told ns)
told (conn_disconnect e ∷ ns) = told ns

pub record Waits (authenticated : Bool) (t : Table ℕ) (handlers timers : List HandlistItem)
    (notices : List Notice) : Type 0 where
  pub waiting : authenticated ≡ false
  pub empty : IsEmpty t
  pub ordinary : All (λ i. ordinary i ≡ true) handlers
  pub silent : told notices ≡ 0
  pub unique : IsUnique handlers
  pub unique_timers : IsUnique timers

-- The connection is not authenticated, the application was not told that it is, and no handler is
-- registered that could change that. No list holds a handler twice.
abbrev pub IsWaiting : Conn → Type 0
IsWaiting c = Waits c.authenticated c.id_handlers c.handlers c.timed_handlers c.notified

at-All {ℓ κ} : {A : Type ℓ} (P : A → Type κ) (xs : List A) (i : ℕ) → All P xs → Ensures (at xs i) P
at-All P [] i h a e = cc
at-All P (x ∷ xs) zero h a e = ok-Ensures P x h.0 a e
at-All P (x ∷ xs) (suc i) h a e = at-All P xs i h.1 a e

pub hash_get-IsEmpty :
    (t : Table ℕ) (key : List ℕ) → IsEmpty t → Ensures (hash_get t key) (λ r. r ≡ none)
unfolding hash_get
hash_get-IsEmpty t key v = >>=-Ensures _ _ _ λ index _. >>=-Ensures _ (at t.entries index) _ λ c e.
    ok-Ensures _ (find key c) (rw (at-All _ t.entries index v.chains c e) (unfold find in refl))

pub hash_add-IsEmpty :
    (b d : Bool) (t : Table ℕ) (key : List ℕ) (value : Option ℕ)
    → IsEmpty t
    → Ensures (hash_add b d t key value) (λ r. r.1 ≡ t)
unfolding hash_add
hash_add-IsEmpty b d t key value v =
    >>=-Ensures (λ r. r.1 ≡ t) (hash_key (length t.entries) key) _
      λ index _.
        test-Ensures (λ r. r.1 ≡ t) t.free _ _ (λ e. absurd (cc (e, v.free)))
          (λ _.
            >>=-Ensures (λ r. r.1 ≡ t) (hash_get t key) _
              λ found e. rw (hash_get-IsEmpty t key v found e) (ok-Ensures (λ r. r.1 ≡ t) _ refl))

module _ (P : HandlistItem → Type 0) where
  unlink_handler-All :
      (h : Handler) (is : List HandlistItem) → All P is → All P (unlink_handler h is)
  unfolding unlink_handler
  unlink_handler-All h [] a = tt
  unlink_handler-All h (i ∷ is) a = ground (arith, unlink_handler-All h is a.1)

  pub free_at-All : (r : ℕ) (is : List HandlistItem) → All P is → Ensures (free_at r is) (All P)
  unfolding free_at
  free_at-All r [] a b e = cc
  free_at-All r (i ∷ is) a b e =
      if-Ensures (All P) (i.ref == r) _ _ (ok-Ensures (All P) is a.1)
        (>>=-Ensures (All P) (free_at r is) _
          λ rest f. ok-Ensures (All P) (i ∷ rest) (a.0, free_at-All r is a.1 rest f))
        b e

  pub node_at-All :
      (r : ℕ) (is : List HandlistItem) → All P is → Ensures (node_at r is) (λ n. P n.0)
  unfolding node_at
  node_at-All r [] a b e = cc
  node_at-All r (i ∷ is) a b e =
      if-Ensures (λ n. P n.0) (i.ref == r) _ _ (ok-Ensures (λ n. P n.0) _ a.0)
        (node_at-All r is a.1) b e

  pub enable-All :
      ((i : HandlistItem) → P i → P (enable i))
      → (is : List HandlistItem) → All P is
      → All P (map enable is)
  enable-All f [] a = tt
  enable-All f (i ∷ is) a = (f i a.0, enable-All f is a.1)

pub handler_add_with-IsWaiting :
    (w : World) (c : Conn) (h : Handler) (ns name type userdata : Option (List ℕ)) (user : Bool)
    → IsWaiting c
    → ordinary (new_item c h userdata user (matching ns name type)) ≡ true
    → IsWaiting (handler_add_with w c h ns name type userdata user)
unfolding handler_add_with
handler_add_with-IsWaiting w c h ns name type userdata user v o =
    pick (check_handler_exist c.handlers h) _ refl
  where
    longer : Conn
    longer = record c {
      handlers = c.handlers ++ new_item c h userdata user (matching ns name type) ∷ [];
      next = suc c.next;
    }

    longer-IsWaiting : check_handler_exist c.handlers h ≡ false → IsWaiting longer
    longer-IsWaiting e = record {
      waiting = v.waiting;
      empty = v.empty;
      ordinary = All-append _ c.handlers _ v.ordinary (o, tt);
      silent = v.silent;
      unique =
          IsUnique-append c.handlers (new_item c h userdata user (matching ns name type)) v.unique
            (unfold new_item in e);
      unique_timers = v.unique_timers;
    }

    pick :
        (a b : Bool)
        → check_handler_exist c.handlers h ≡ a
        → IsWaiting (if a then c else if b then longer else c)
    pick true b e = v
    pick false true e = longer-IsWaiting e
    pick false false e = v

pub xmpp_handler_delete-IsWaiting :
    (c : Conn) (h : Handler) → IsWaiting c → IsWaiting (xmpp_handler_delete c h)
unfolding xmpp_handler_delete
xmpp_handler_delete-IsWaiting c h v = record {
  waiting = v.waiting;
  empty = v.empty;
  ordinary = unlink_handler-All _ h c.handlers v.ordinary;
  silent = v.silent;
  unique = IsUnique-unlink_handler h c.handlers v.unique;
  unique_timers = v.unique_timers;
}

pub add_head-IsWaiting :
    (w : World) (c : Conn) (id : List ℕ) (i : HandlistItem)
    → IsWaiting c
    → Ensures (add_head w c id i) IsWaiting
unfolding add_head
add_head-IsWaiting w c id i v =
    let added = hash_add (w.alloc 3) (w.alloc 4) c.id_handlers id (some (length c.heads)) in
    >>=-Ensures IsWaiting added _ λ r e.
      ok-Ensures IsWaiting
        (record c { id_handlers = r.1; heads = c.heads ++ some (i ∷ []) ∷ []; next = suc c.next })
        (record {
          waiting = v.waiting;
          empty = subst IsEmpty (sym (hash_add-IsEmpty _ _ c.id_handlers id _ v.empty r e)) v.empty;
          ordinary = v.ordinary;
          silent = v.silent;
          unique = v.unique;
          unique_timers = v.unique_timers;
        })

-- The table of id handlers stays empty: `hash_add` has no release function and refuses a new key.
pub id_handler_add_with-IsWaiting :
    (w : World) (c : Conn) (h : Handler) (id : List ℕ) (userdata : Option (List ℕ)) (user : Bool)
    → IsWaiting c
    → Ensures (id_handler_add_with w c h id userdata user) IsWaiting
unfolding id_handler_add_with
id_handler_add_with-IsWaiting w c h id userdata user v =
    >>=-Ensures IsWaiting (hash_get c.id_handlers id) _ λ found e.
      rw (hash_get-IsEmpty c.id_handlers id v.empty found e) (
        if-Ensures IsWaiting (w.alloc 0 && copies (w.alloc 1) (some id) && w.alloc 2) _ _
          (add_head-IsWaiting w c id _ v) (ok-Ensures IsWaiting c v))

pub xmpp_id_handler_delete-IsWaiting :
    (c : Conn) (h : Handler) (id : List ℕ)
    → IsWaiting c
    → Ensures (xmpp_id_handler_delete c h id) IsWaiting
unfolding xmpp_id_handler_delete
xmpp_id_handler_delete-IsWaiting c h id v =
    >>=-Ensures IsWaiting (hash_get c.id_handlers id) _
      λ found e. rw (hash_get-IsEmpty c.id_handlers id v.empty found e) (ok-Ensures IsWaiting c v)
