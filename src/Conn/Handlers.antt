-- ===== src/Conn/Handlers.antt =====
-- xmpp-handler.c: the handlers of a connection, and how they are added and deleted. A list head is a
-- list; the heads in the table of id handlers are addresses in `heads`.
use imcore.Prelude.{ℕ, ◌&&◌, ◌||◌, not, Bool, true, false, List, [], ◌∷◌, ◌++◌}
use imcore.Prelude.{Option, none, some, if◌then◌else◌, length, set, get_or, suc}
use imcore.Prelude.{Run, ok, fault, ◌>>=◌, bad_call, use_after_free}
use imcore.Prelude.Text.{strdup}
use imcore.Hash.{hash_get, hash_add, hash_drop}
use imcore.Conn.{Conn, HandlistItem, Trigger, timed, by_id, matching, Handler, same_handler, World}

unfoldable pub check_handler_exist : List HandlistItem → Handler → Bool
check_handler_exist [] h = false
check_handler_exist (i ∷ is) h = if same_handler i.handler h then true else check_handler_exist is h

-- A new item, at the next address. It is not enabled.
unfoldable pub new_item : Conn → Handler → Option (List ℕ) → Bool → Trigger → HandlistItem
new_item c h userdata user trigger = record {
  ref = c.next;
  user_handler = user;
  handler = h;
  userdata = userdata;
  enabled = false;
  trigger = trigger;
}

-- `list_del` of the first item with the handler.
unfoldable pub unlink_handler : Handler → List HandlistItem → List HandlistItem
unlink_handler h [] = []
unlink_handler h (i ∷ is) = if same_handler i.handler h then is else i ∷ unlink_handler h is

-- Whether the copy of an argument that may be NULL succeeds.
unfoldable pub copies : Bool → Option (List ℕ) → Bool
copies alloc none = true
copies alloc (some s) = elim (strdup alloc s) [ none ↦ false | some t ↦ true ]

unfoldable pub handler_add_with :
    World
    → Conn
    → Handler
    → Option (List ℕ)
    → Option (List ℕ)
    → Option (List ℕ)
    → Option (List ℕ)
    → Bool
    → Conn
handler_add_with w c h ns name type userdata user =
    if check_handler_exist c.handlers h
    then c
    else if w.alloc 0 && copies (w.alloc 1) ns && copies (w.alloc 2) name && copies (w.alloc 3) type
    then record c {
      handlers = c.handlers ++ new_item c h userdata user (matching ns name type) ∷ [];
      next = suc c.next;
    }
    else c

unfoldable pub handler_add :
    World
    → Conn
    → Handler
    → Option (List ℕ)
    → Option (List ℕ)
    → Option (List ℕ)
    → Option (List ℕ)
    → Conn
handler_add w c h ns name type userdata = handler_add_with w c h ns name type userdata false

unfoldable pub xmpp_handler_add :
    World
    → Conn
    → Handler
    → Option (List ℕ)
    → Option (List ℕ)
    → Option (List ℕ)
    → Option (List ℕ)
    → Conn
xmpp_handler_add w c h ns name type userdata = handler_add_with w c h ns name type userdata true

unfoldable pub xmpp_handler_delete : Conn → Handler → Conn
xmpp_handler_delete c h = record c { handlers = unlink_handler h c.handlers }

-- The timer is started when the item is linked. The second allocation is that of `event_new`.
unfoldable pub timed_handler_add_with : World → Conn → Handler → ℕ → Option (List ℕ) → Bool → Conn
timed_handler_add_with w c h period userdata user =
    if check_handler_exist c.timed_handlers h
    then c
    else if w.alloc 0 && w.alloc 1
    then record c {
      timed_handlers = c.timed_handlers ++ new_item c h userdata user (timed period) ∷ [];
      next = suc c.next;
    }
    else c

unfoldable pub handler_add_timed : World → Conn → Handler → ℕ → Option (List ℕ) → Conn
handler_add_timed w c h period userdata = timed_handler_add_with w c h period userdata false

unfoldable pub xmpp_timed_handler_add : World → Conn → Handler → ℕ → Option (List ℕ) → Conn
xmpp_timed_handler_add w c h period userdata = timed_handler_add_with w c h period userdata true

unfoldable pub xmpp_timed_handler_delete : Conn → Handler → Conn
xmpp_timed_handler_delete c h = record c { timed_handlers = unlink_handler h c.timed_handlers }

unfoldable pub restarts : Bool → List HandlistItem → List ℕ
restarts user_only [] = []
restarts user_only (i ∷ is) =
    if (user_only && i.user_handler) || not user_only
    then i.ref ∷ restarts user_only is
    else restarts user_only is

unfoldable pub handler_reset_timed : Conn → Bool → Conn
handler_reset_timed c user_only = record c {
  restarted = c.restarted ++ restarts user_only c.timed_handlers;
}

-- What libevent calls when a timer ends. The two handlers of an item are mixed up: `user_handler`,
-- which is 0 or 1, is what it calls as a function.
unfoldable pub handler_timer_proxy : Conn → HandlistItem → Run Conn
handler_timer_proxy c i = if i.user_handler && not c.authenticated then fault bad_call else ok c

-- The list behind a head. A head that is freed must not be read.
unfoldable pub head_items : Conn → ℕ → Run (List HandlistItem)
head_items c head = elim (get_or c.heads head none) [
  | none ↦ fault use_after_free
  | some items ↦ ok items
]

-- `hash_add`, whose answer is not looked at: the new head gets its first item also where the table
-- has refused it.
unfoldable pub add_head : World → Conn → List ℕ → HandlistItem → Run Conn
add_head w c id i = do
  (status, t) ← hash_add (w.alloc 3) (w.alloc 4) c.id_handlers id (some (length c.heads))
  ok (record c { id_handlers = t; heads = c.heads ++ some (i ∷ []) ∷ []; next = suc c.next })

unfoldable pub id_handler_add_with :
    World → Conn → Handler → List ℕ → Option (List ℕ) → Bool → Run Conn
id_handler_add_with w c h id userdata user = hash_get c.id_handlers id >>= λ found. elim found [
  | none ↦
      if w.alloc 0 && copies (w.alloc 1) (some id) && w.alloc 2
      then add_head w c id (new_item c h userdata user (by_id id))
      else ok c
  | some head ↦ head_items c head >>= λ items.
      if check_handler_exist items h || not (w.alloc 0 && copies (w.alloc 1) (some id))
      then ok c
      else ok (record c {
        heads = set c.heads head (some (items ++ new_item c h userdata user (by_id id) ∷ []));
        next = suc c.next;
      })
]

unfoldable pub handler_add_id : World → Conn → Handler → List ℕ → Option (List ℕ) → Run Conn
handler_add_id w c h id userdata = id_handler_add_with w c h id userdata false

unfoldable pub xmpp_id_handler_add : World → Conn → Handler → List ℕ → Option (List ℕ) → Run Conn
xmpp_id_handler_add w c h id userdata = id_handler_add_with w c h id userdata true

-- `_handler_id_free` of one item: the last one takes the head with it.
unfoldable pub handler_id_free : Conn → ℕ → List HandlistItem → List ℕ → Run Conn
handler_id_free c head [] id = do
  (status, t) ← hash_drop c.id_handlers id
  ok (record c { id_handlers = t; heads = set c.heads head none })
handler_id_free c head (i ∷ rest) id = ok (record c { heads = set c.heads head (some (i ∷ rest)) })

unfoldable pub xmpp_id_handler_delete : Conn → Handler → List ℕ → Run Conn
xmpp_id_handler_delete c h id = hash_get c.id_handlers id >>= λ found. elim found [
  | none ↦ ok c
  | some head ↦ head_items c head >>= λ items.
      if check_handler_exist items h
      then handler_id_free c head (unlink_handler h items) id
      else ok c
]
