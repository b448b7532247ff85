-- ===== src/Conn/Fire.antt =====
-- xmpp-handler.c: `handler_fire_stanza`. The two loops are `list_for_each_safe`: the next item is
-- looked up when the body is done with the one before it, so an item that is gone by then, or a head,
-- is read after it was freed.
use imcore.Prelude.{ℕ, zero, suc, ◌&&◌, ◌||◌, ◌==◌, not, Bool, true, false, List, [], ◌∷◌, map}
use imcore.Prelude.{Option, none, some, if◌then◌else◌}
use imcore.Prelude.{Run, ok, fault, ◌>>=◌, use_after_free, out_of_fuel}
use imcore.Prelude.Text.{str_eq}
use imcore.Hash.{hash_get}
use imcore.Stanza.Tree.{
  Stanza, xmpp_stanza_get_id_ptr, xmpp_stanza_get_ns, xmpp_stanza_get_name_ptr,
  xmpp_stanza_get_type_ptr,
}
use imcore.Stanza.Children.{xmpp_stanza_get_child_by_ns}
use imcore.Conn.{Conn, HandlistItem, Trigger, timed, by_id, matching, Handler}
use imcore.Conn.Handlers.{head_items, xmpp_id_handler_delete}

-- The address of the first item, or of none where the list is empty or the cursor is its head.
unfoldable pub first_ref : List HandlistItem → Option ℕ
first_ref [] = none
first_ref (i ∷ is) = some i.ref

-- The item at an address, and the address of the next one.
unfoldable pub node_at : ℕ → List HandlistItem → Run (HandlistItem × Option ℕ)
node_at r [] = fault use_after_free
node_at r (i ∷ is) = if i.ref == r then ok (i, first_ref is) else node_at r is

-- `_handler_free` of the item at an address
unfoldable pub free_at : ℕ → List HandlistItem → Run (List HandlistItem)
free_at r [] = fault use_after_free
free_at r (i ∷ is) =
    let rest = free_at r is in if i.ref == r then ok is else rest >>= λ is'. ok (i ∷ is')

unfoldable pub enable : HandlistItem → HandlistItem
enable i = record i { enabled = true }

-- A condition of a handler that may be NULL, on a text of the stanza that may be NULL.
unfoldable pub agrees : Option (List ℕ) → Option (List ℕ) → Bool
agrees none text = true
agrees (some wanted) none = false
agrees (some wanted) (some text) = str_eq text wanted

unfoldable pub agrees_ns : Option (List ℕ) → Option (List ℕ) → Stanza → Run Bool
agrees_ns none ns s = ok true
agrees_ns (some wanted) ns s =
    if agrees (some wanted) ns
    then ok true
    else (xmpp_stanza_get_child_by_ns s wanted >>= λ found. elim found [
      | none ↦ ok false
      | some child ↦ ok true
    ])

-- Whether a handler is to get the stanza with the namespace, the name and the type. The union of
-- the items in `handlers` always holds the three conditions.
unfoldable pub matches :
    Trigger → Option (List ℕ) → Option (List ℕ) → Option (List ℕ) → Stanza → Run Bool
matches (matching wanted_ns wanted_name wanted_type) ns name type s = do
  by_ns ← agrees_ns wanted_ns ns s
  ok (by_ns && agrees wanted_name name && agrees wanted_type type)
matches (timed period) ns name type s = ok false
matches (by_id id) ns name type s = ok false

-- An application's handler is passed over until the connection is authenticated.
unfoldable pub barred : Conn → HandlistItem → Bool
barred c i = i.user_handler && not c.authenticated

-- `call` runs the function that an item points to, and says whether to keep the item.
module _ (call : Handler → Option (List ℕ) → Conn → Stanza → Run (Bool × Conn)) (s : Stanza) where
  unfoldable pub keep_or_free : ℕ → Bool × Conn → Run Conn
  keep_or_free r (true, c) = ok c
  keep_or_free r (false, c) = do
    handlers ← free_at r c.handlers
    ok (record c { handlers = handlers })

  unfoldable pub fire_one :
      Option (List ℕ) → Option (List ℕ) → Option (List ℕ) → HandlistItem → Conn → Run Conn
  fire_one ns name type i c =
      if not i.enabled || barred c i
      then ok c
      else (matches i.trigger ns name type s >>= λ hit.
          if hit then (call i.handler i.userdata c s >>= keep_or_free i.ref) else ok c)

  unfoldable pub fire_from :
      Option (List ℕ) → Option (List ℕ) → Option (List ℕ) → ℕ → Option ℕ → Conn → Run Conn
  fire_from ns name type n none c = ok c
  fire_from ns name type zero (some r) c = fault out_of_fuel
  fire_from ns name type (suc n) (some r) c = do
    (i, next) ← node_at r c.handlers
    c' ← fire_one ns name type i c
    fire_from ns name type n next c'

  -- Only the items that are in the list now are to run.
  unfoldable pub fire_handlers : ℕ → Conn → Run Conn
  fire_handlers fuel c = do
    ns ← xmpp_stanza_get_ns s
    type ← xmpp_stanza_get_type_ptr s
    let enabled = map enable c.handlers
    fire_from ns (xmpp_stanza_get_name_ptr s) type fuel (first_ref enabled)
        (record c { handlers = enabled })

  unfoldable pub keep_or_delete : ℕ → HandlistItem → List ℕ → Bool × Conn → Run Conn
  keep_or_delete head i id (true, c) = ok c
  keep_or_delete head i id (false, c) = do
    items ← head_items c head
    _ ← node_at i.ref items
    xmpp_id_handler_delete c i.handler id

  unfoldable pub fire_id_one : ℕ → List ℕ → HandlistItem → Conn → Run Conn
  fire_id_one head id i c =
      if barred c i then ok c else (call i.handler i.userdata c s >>= keep_or_delete head i id)

  -- The cursor reads its head too when it comes back to it.
  unfoldable pub fire_id_from : ℕ → List ℕ → ℕ → Option ℕ → Conn → Run Conn
  fire_id_from head id n none c = do _ ← head_items c head; ok c
  fire_id_from head id zero (some r) c = fault out_of_fuel
  fire_id_from head id (suc n) (some r) c = do
    items ← head_items c head
    (i, next) ← node_at r items
    c' ← fire_id_one head id i c
    fire_id_from head id n next c'

  unfoldable pub fire_ids : ℕ → Option (List ℕ) → Conn → Run Conn
  fire_ids fuel none c = ok c
  fire_ids fuel (some id) c = hash_get c.id_handlers id >>= λ found. elim found [
    | none ↦ ok c
    | some head ↦ head_items c head >>= λ items. fire_id_from head id fuel (first_ref items) c
  ]

  unfoldable pub handler_fire_stanza : ℕ → Conn → Run Conn
  handler_fire_stanza fuel c = do
    id ← xmpp_stanza_get_id_ptr s
    c' ← fire_ids fuel id c
    fire_handlers fuel c'
