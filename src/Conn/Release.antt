-- ===== src/Conn/Release.antt =====
-- xmpp-handler.c and xmpp-conn.c: `handler_clear_all` and `xmpp_conn_release`. The first walks over the
-- table of id handlers with an iterator, and over the items of each head with `list_for_each_safe`.
-- Who else holds a reference to the stanza of a stream error is a parameter.
use imcore.Prelude.{
  ℕ, zero, suc, ◌-◌, ◌≡◌, ◌≤◌, refl, ap, arith, Bool, true, false, List, [], ◌∷◌, ltb,
}
use imcore.Prelude.{◌||◌, ◌&&◌, not, Option, none, some, if◌then◌else◌}
use imcore.Prelude.{Run, ok, fault, ◌>>=◌, null_pointer, use_after_free, out_of_fuel}
use imcore.Hash.{Table, hash_get, hash_release, hash_clone}
use imcore.Hash.Iter.{Iter, hash_iter_new, hash_iter_next, hash_iter_release, iter_next-empty}
use imcore.Stanza.Tree.{Stanza}
use imcore.Conn.{StreamError, Conn, HandlistItem, World, StreamId, no_id, freed_id, live_id}
use imcore.Conn.Handlers.{head_items, handler_id_free}
use imcore.Conn.Stream.{free_id}
use imcore.Conn.Machine.{xmpp_conn_new, Reach}
use imcore.Conn.Waiting.{IsEmpty}
use imcore.Conn.Never.{never_authenticated}

-- A use of a pointer that may be NULL.
unfoldable pub deref : {A : Type 0} → Option A → Run A
deref none = fault null_pointer
deref (some x) = ok x

-- `_handler_id_free` of all the items of a head: the cursor reads its head when it comes back to it.
unfoldable pub id_free_all : Conn → ℕ → List HandlistItem → List ℕ → Run Conn
id_free_all c head [] id = do _ ← head_items c head; ok c
id_free_all c head (i ∷ rest) id = do
  c' ← handler_id_free c head rest id
  id_free_all c' head rest id

unfoldable pub clear_id : Conn → List ℕ → Run Conn
clear_id c id = do
  found ← hash_get c.id_handlers id
  head ← deref found
  items ← head_items c head
  id_free_all c head items id

-- The loop over the keys of the table. The heads that it gets past are those without an item, so it
-- leaves the table as it is.
unfoldable pub clear_ids : ℕ → Iter ℕ → Conn → Run (Iter ℕ × Conn)
clear_ids zero it c = fault out_of_fuel
clear_ids (suc fuel) it c =
    let (key, it') = hash_iter_next it in
    elim key [ none ↦ ok (it', c) | some id ↦ clear_id c id >>= λ c'. clear_ids fuel it' c' ]

-- What is left of the table when the iterator and the connection have given it back.
unfoldable pub release_table : Iter ℕ → Option (Table ℕ)
release_table it = elim (hash_iter_release it).1 [ none ↦ none | some t ↦ (hash_release t).0 ]

-- The flag says whether there is memory for the iterator. The result is the connection without its
-- handlers, and what is left of the table.
unfoldable pub handler_clear_all : Bool → Conn → Run (Conn × Option (Table ℕ))
handler_clear_all malloc c = do
  let untimed = record c { timed_handlers = [] }
  it ← deref (hash_iter_new malloc c.id_handlers)
  (it', d) ← clear_ids (suc c.id_handlers.num_keys) it untimed
  ok (record d { handlers = [] }, release_table it')

-- The text of a stream error is a pointer into its stanza. It is freed with the stanza, and then once
-- more, unless somebody else holds the stanza: `survives`.
unfoldable pub free_error : Bool → Option StreamError → Run (Option StreamError)
free_error survives none = ok none
free_error survives (some e) = elim e.error_text [
  | none ↦ ok none
  | some text ↦ if survives then ok none else fault use_after_free
]

unfoldable pub free_texts : Conn → Conn
free_texts c = record c { domain = none; jid = none; bound_jid = none; pass = none; lang = [] }

-- A connection that has more owners, or what has not been freed of one, and of its table.
pub data Release : Type 0 where
  kept : Conn → Release
  released : (left : Conn) (table : Option (Table ℕ)) → Release

-- The parser is freed too.
unfoldable pub xmpp_conn_release : Bool → Bool → Conn → Run Release
xmpp_conn_release malloc survives c =
    if ltb 1 c.ref then ok (kept (record c { ref = c.ref - 1 })) else do
      (d, table) ← handler_clear_all malloc c
      e ← free_error survives d.stream_error
      id ← free_id d.stream_id
      ok (released (free_texts (record d { stream_error = e; stream_id = id })) table)

start : Conn → Iter ℕ
start c = record { ref = 1; table = hash_clone c.id_handlers; rest = []; next = 0 }

-- What is left of the table of a connection that gives it back.
unfoldable pub leftover : Conn → Option (Table ℕ)
unfolding start
leftover c = release_table (start c)

-- Where no id handler is registered, the loop ends at once.
handler_clear_all-empty :
    (c : Conn)
    → IsEmpty c.id_handlers
    → handler_clear_all true c ≡ ok (record c { timed_handlers = []; handlers = [] }, leftover c)
unfolding handler_clear_all hash_iter_new hash_clone clear_ids deref leftover start
handler_clear_all-empty c e =
    ap (λ (p : Option (List ℕ) × Iter ℕ). over p.0 p.1)
      (iter_next-empty c.id_handlers (start c) e.chains refl)
  where
    untimed : Conn
    untimed = record c { timed_handlers = [] }

    looped : Option (List ℕ) → Iter ℕ → Run (Iter ℕ × Conn)
    looped key it = elim key [
      | none ↦ ok (it, untimed)
      | some id ↦ clear_id untimed id >>= λ c'. clear_ids c.id_handlers.num_keys it c'
    ]

    over : Option (List ℕ) → Iter ℕ → Run (Conn × Option (Table ℕ))
    over key it = looped key it >>= λ p. ok (record p.1 { handlers = [] }, release_table p.0)

abbrev pub is_freed : StreamId → Bool
is_freed no_id = false
is_freed freed_id = true
is_freed (live_id s) = false

abbrev pub has_text : Option StreamError → Bool
has_text none = false
has_text (some e) = elim e.error_text [ none ↦ false | some text ↦ true ]

-- Whether the release frees something that is freed already.
abbrev pub frees_twice : Bool → Conn → Bool
frees_twice survives c = is_freed c.stream_id || (has_text c.stream_error && not survives)

-- What is not freed: the buffer, which stays as it is, and the heads that no table holds.
pub record Left (c d : Conn) : Type 0 where
  pub handlers : d.handlers ≡ []
  pub timers : d.timed_handlers ≡ []
  pub no_error : d.stream_error ≡ none
  pub texts : d ≡ free_texts d
  pub buffer : d.evbuffer ≡ c.evbuffer
  pub heads : d.heads ≡ c.heads

pub data Ends (survives : Bool) (c : Conn) (m : Run Release) : Type 0 where
  crashes : frees_twice survives c ≡ true → m ≡ fault use_after_free → Ends survives c m
  ends :
      (d : Conn) (table : Option (Table ℕ))
      → frees_twice survives c ≡ false
      → m ≡ ok (released d table)
      → Left c d
      → Ends survives c m

-- A release of one part goes through, or frees it a second time.
data Frees {A : Type 0} (twice : Bool) (m : Run A) (a : A) : Type 0 where
  again : twice ≡ true → m ≡ fault use_after_free → Frees twice m a
  goes : twice ≡ false → m ≡ ok a → Frees twice m a

free_error-Frees :
    (survives : Bool) (e : Option StreamError)
    → Frees (has_text e && not survives) (free_error survives e) none
unfolding free_error
free_error-Frees survives none = goes refl refl
free_error-Frees survives (some e) = pick e.error_text survives
  where
    pick :
        (o : Option (List ℕ)) (b : Bool)
        → Frees {A = Option StreamError}
            ((elim o [ none ↦ false | some text ↦ true ]) && not b)
            (elim o [ none ↦ ok none | some text ↦ if b then ok none else fault use_after_free ])
            none
    pick none b = goes refl refl
    pick (some text) true = goes refl refl
    pick (some text) false = again refl refl

-- The pointer that is left.
after_free : StreamId → StreamId
after_free no_id = no_id
after_free freed_id = freed_id
after_free (live_id s) = freed_id

free_id-Frees : (id : StreamId) → Frees (is_freed id) (free_id id) (after_free id)
unfolding free_id after_free
free_id-Frees no_id = goes refl refl
free_id-Frees freed_id = again refl refl
free_id-Frees (live_id s) = goes refl refl

module _ (survives : Bool) (c : Conn) (table : Option (Table ℕ)) where
  freed : Option StreamError → StreamId → Conn
  freed e id =
      free_texts (record c { timed_handlers = []; handlers = []; stream_error = e; stream_id = id })

  freed-Left : (id : StreamId) → Left c (freed none id)
  unfolding freed free_texts
  freed-Left id = record {
    handlers = refl;
    timers = refl;
    no_error = refl;
    texts = refl;
    buffer = refl;
    heads = refl;
  }

  freed-Ends : Ends survives c (
      free_error survives c.stream_error >>= λ e.
      free_id c.stream_id >>= λ id. ok (released (freed e id) table))
  freed-Ends =
      pick (free_error survives c.stream_error) (free_id c.stream_id)
        (free_error-Frees survives c.stream_error) (free_id-Frees c.stream_id)
    where
      pick :
          (m : Run (Option StreamError)) (n : Run StreamId)
          → Frees (has_text c.stream_error && not survives) m none
          → Frees (is_freed c.stream_id) n (after_free c.stream_id)
          → Ends survives c (m >>= λ e. n >>= λ id. ok (released (freed e id) table))
      pick m n (again t e) f = crashes (ground arith) (rw e refl)
      pick m n (goes t e) (again u f) = crashes (ground arith) (rw (e, f) refl)
      pick m n (goes t e) (goes u f) =
          ends (freed none (after_free c.stream_id)) table (ground arith) (rw (e, f) refl)
            (freed-Left (after_free c.stream_id))

-- Where a connection that `xmpp_conn_new` has made loses its last reference, in whatever state it is, and
-- with memory for the iterator: if its stream id is freed already, or a stream error has a text and
-- nobody else holds its stanza, something is freed twice; otherwise the handlers, the timers, the stream
-- error and the texts are freed, and the buffer is left as it is: one that is open stays open, with the
-- callbacks that get the freed connection.
pub conn_release-reachable :
    (md5 : List ℕ → List ℕ) (user : ℕ → Conn → Stanza → Run (Bool × Conn)) (fuel : ℕ) (w : World)
    (survives : Bool) (c d : Conn)
    → xmpp_conn_new w ≡ ok (some c)
    → Reach md5 user fuel c d
    → d.ref ≤ 1
    → Ends survives d (xmpp_conn_release true survives d)
unfolding xmpp_conn_release freed
conn_release-reachable md5 user fuel w survives c d e r h =
    rw (last, handler_clear_all-empty d (never_authenticated md5 user fuel w c d e r).2)
      (freed-Ends survives d (leftover d))
  where
    last : ltb 1 d.ref ≡ false
    last = ground arith
