-- ===== src/Conn/Fired.antt =====
-- xmpp-handler.c and xmpp-conn.c: a block of data from the server leaves a connection waiting that has
-- not been authenticated.
use imcore.Prelude.{ℕ, zero, suc, ◌≡◌, arith, Bool, true, false, List, [], ◌∷◌, not}
use imcore.Prelude.{Option, none, some, ◌||◌, map}
use imcore.Prelude.{Run, Ensures, >>=-Ensures, ok-Ensures, if-Ensures}
use imcore.Prelude.{test-Ensures, fault-Ensures, bad_call}
use imcore.Hash.{hash_get}
use imcore.Stanza.Tree.{Stanza, xmpp_stanza_get_id_ptr, xmpp_stanza_get_ns}
use imcore.Stanza.Tree.{xmpp_stanza_get_name_ptr, xmpp_stanza_get_type_ptr}
use imcore.Conn.{
  Conn, World, HandlistItem, Handler, handle_stream_error, handle_features, handle_proceedtls,
  handle_sasl_result, handle_digestmd5_challenge, handle_digestmd5_rspauth, handle_features_sasl,
  handle_bind, handle_session, disconnect_cleanup, application,
}
use imcore.Conn.Fire.{
  barred, enable, fire_one, keep_or_free, matches, fire_from, fire_handlers, fire_ids, first_ref,
  handler_fire_stanza, node_at, free_at,
}
use imcore.Conn.Stream.{handle_stream_end}
use imcore.Conn.Bind.{call_handler}
use imcore.Conn.Machine.{
  ParserCall, stream_start, stream_end, parser_problem, stream_stanza, parser_call, evb_read_cb,
}
use imcore.Conn.Waiting.{
  IsWaiting, ordinary, hash_get-IsEmpty, free_at-All, node_at-All, enable-All,
}
use imcore.Conn.Unique.{IsUnique-free_at, IsUnique-enable}
use imcore.Conn.Idle.{
  xmpp_disconnect-IsWaiting, conn_do_disconnect-IsWaiting, handle_stream_start-IsWaiting,
}
use imcore.Conn.Unauth.{
  Keeps, on_stream_error-Keeps, on_features-Keeps, on_proceedtls-Keeps, on_sasl_result-Keeps,
  on_digestmd5_challenge-Keeps, on_digestmd5_rspauth-Keeps, on_features_sasl-Keeps,
}

module _ (md5 : List ℕ → List ℕ) (user : ℕ → Conn → Stanza → Run (Bool × Conn)) where
  -- A handler that can run, and is not passed over, keeps the connection waiting.
  call_handler-Keeps :
      (w : World) (filter : Bool) (h : Handler) (marked : Bool) (userdata : Option (List ℕ))
      (c : Conn) (s : Stanza)
      → (elim h [
        | handle_bind ↦ false
        | handle_session ↦ false
        | application n ↦ marked
        | _ ↦ true
      ])
        ≡ true
      → marked ≡ false
      → IsWaiting c
      → Keeps (call_handler md5 user w filter h userdata c s)
  unfolding call_handler
  call_handler-Keeps w filter handle_stream_error marked userdata c s o m v =
      on_stream_error-Keeps w s c v
  call_handler-Keeps w filter handle_features marked userdata c s o m v = on_features-Keeps w s c v
  call_handler-Keeps w filter handle_proceedtls marked userdata c s o m v =
      on_proceedtls-Keeps w s filter c v
  call_handler-Keeps w filter handle_sasl_result marked userdata c s o m v =
      on_sasl_result-Keeps w s c v
  call_handler-Keeps w filter handle_digestmd5_challenge marked userdata c s o m v =
      on_digestmd5_challenge-Keeps w s md5 c v
  call_handler-Keeps w filter handle_digestmd5_rspauth marked userdata c s o m v =
      on_digestmd5_rspauth-Keeps w s c v
  call_handler-Keeps w filter handle_features_sasl marked userdata c s o m v =
      on_features_sasl-Keeps w s c v
  call_handler-Keeps w filter handle_bind marked userdata c s o m v = absurd (cc)
  call_handler-Keeps w filter handle_session marked userdata c s o m v = absurd (cc)
  call_handler-Keeps w filter disconnect_cleanup marked userdata c s o m v =
      fault-Ensures (λ p. IsWaiting p.1) bad_call
  call_handler-Keeps w filter (application n) marked userdata c s o m v = absurd (cc)

  module _ (w : World) (filter : Bool) (s : Stanza) where
    -- The function that the fire loops are given.
    abbrev call : Handler → Option (List ℕ) → Conn → Stanza → Run (Bool × Conn)
    call = call_handler md5 user w filter

    keep_or_free-IsWaiting :
        (r : ℕ) (p : Bool × Conn) → IsWaiting p.1 → Ensures (keep_or_free call s r p) IsWaiting
    unfolding keep_or_free
    keep_or_free-IsWaiting r (true, c) v = ok-Ensures IsWaiting c v
    keep_or_free-IsWaiting r (false, c) v = >>=-Ensures IsWaiting (free_at r c.handlers) _ λ hs e.
        ok-Ensures IsWaiting (record c { handlers = hs })
          (record {
            waiting = v.waiting;
            empty = v.empty;
            ordinary = free_at-All (λ i. ordinary i ≡ true) r c.handlers v.ordinary hs e;
            silent = v.silent;
            unique = IsUnique-free_at r c.handlers v.unique hs e;
            unique_timers = v.unique_timers;
          })

    -- An item of the application is passed over.
    unbarred :
        (c : Conn) (i : HandlistItem)
        → IsWaiting c
        → not i.enabled || barred c i ≡ false
        → i.user_handler ≡ false
    unfolding barred
    unbarred c i v h = ground (arith, v.waiting)

    module _ (ns name type : Option (List ℕ)) where
      fire_one-IsWaiting :
          (i : HandlistItem) (c : Conn)
          → ordinary i ≡ true
          → IsWaiting c
          → Ensures (fire_one call s ns name type i c) IsWaiting
      unfolding fire_one
      fire_one-IsWaiting i c o v =
          test-Ensures IsWaiting (not i.enabled || barred c i) _ _ (λ _. ok-Ensures IsWaiting c v)
            (λ e. >>=-Ensures IsWaiting (matches i.trigger ns name type s) _ λ hit _.
              if-Ensures IsWaiting hit _ _
                (>>=-Ensures IsWaiting (call i.handler i.userdata c s) _ λ p f.
                  keep_or_free-IsWaiting i.ref p (
                    call_handler-Keeps w filter i.handler i.user_handler i.userdata c s o
                      (unbarred c i v e) v p f))
                (ok-Ensures IsWaiting c v))

      fire_from-IsWaiting :
          (n : ℕ) (r : Option ℕ) (c : Conn)
          → IsWaiting c
          → Ensures (fire_from call s ns name type n r c) IsWaiting
      unfolding fire_from
      fire_from-IsWaiting zero none c v = ok-Ensures IsWaiting c v
      fire_from-IsWaiting zero (some r) c v = fault-Ensures IsWaiting _
      fire_from-IsWaiting (suc n) none c v = ok-Ensures IsWaiting c v
      fire_from-IsWaiting (suc n) (some r) c v =
          >>=-Ensures IsWaiting (node_at r c.handlers) _ λ x e.
            >>=-Ensures IsWaiting (fire_one call s ns name type x.0 c) _ λ d f.
              fire_from-IsWaiting n x.1 d (
                fire_one-IsWaiting x.0 c
                  (node_at-All (λ i. ordinary i ≡ true) r c.handlers v.ordinary x e) v d f)

    fire_ids-IsWaiting :
        (fuel : ℕ) (id : Option (List ℕ)) (c : Conn)
        → IsWaiting c
        → Ensures (fire_ids call s fuel id c) IsWaiting
    unfolding fire_ids
    fire_ids-IsWaiting fuel none c v = ok-Ensures IsWaiting c v
    fire_ids-IsWaiting fuel (some id) c v =
        >>=-Ensures IsWaiting (hash_get c.id_handlers id) _ λ found e.
          rw (hash_get-IsEmpty c.id_handlers id v.empty found e) (ok-Ensures IsWaiting c v)

    handler_fire_stanza-IsWaiting :
        (fuel : ℕ) (c : Conn) → IsWaiting c → Ensures (handler_fire_stanza call s fuel c) IsWaiting
    unfolding handler_fire_stanza fire_handlers enable
    handler_fire_stanza-IsWaiting fuel c v =
        >>=-Ensures IsWaiting (xmpp_stanza_get_id_ptr s) _ λ id _.
          >>=-Ensures IsWaiting (fire_ids call s fuel id c) _ λ d e.
            >>=-Ensures IsWaiting (xmpp_stanza_get_ns s) _ λ ns _.
              >>=-Ensures IsWaiting (xmpp_stanza_get_type_ptr s) _ λ type _.
                let enabled = map enable d.handlers in
                let u = fire_ids-IsWaiting fuel id c v d e in
                fire_from-IsWaiting ns (xmpp_stanza_get_name_ptr s) type fuel (first_ref enabled)
                  (record d { handlers = enabled })
                  (record {
                    waiting = u.waiting;
                    empty = u.empty;
                    ordinary = enable-All (λ i. ordinary i ≡ true) (λ i o. o) d.handlers u.ordinary;
                    silent = u.silent;
                    unique = IsUnique-enable d.handlers u.unique;
                    unique_timers = u.unique_timers;
                  })

  module _ (fuel : ℕ) where
    parser_call-IsWaiting :
        (w : World) (filter : Bool) (p : ParserCall) (c : Conn)
        → IsWaiting c
        → Ensures (parser_call md5 user fuel w filter p c) IsWaiting
    unfolding parser_call handle_stream_end
    parser_call-IsWaiting w filter (stream_start name attrs) c v =
        handle_stream_start-IsWaiting w name attrs c v
    parser_call-IsWaiting w filter stream_end c v = conn_do_disconnect-IsWaiting c v
    parser_call-IsWaiting w filter parser_problem c v = xmpp_disconnect-IsWaiting w c v
    parser_call-IsWaiting w filter (stream_stanza s) c v =
        handler_fire_stanza-IsWaiting w filter s fuel c v

    pub evb_read_cb-IsWaiting :
        (w : World) (filter : Bool) (ps : List ParserCall) (wellformed : Bool) (c : Conn)
        → IsWaiting c
        → Ensures (evb_read_cb md5 user fuel w filter ps wellformed c) IsWaiting
    unfolding evb_read_cb
    evb_read_cb-IsWaiting w filter [] wellformed c v =
        if-Ensures IsWaiting wellformed _ _ (ok-Ensures IsWaiting c v)
          (conn_do_disconnect-IsWaiting c v)
    evb_read_cb-IsWaiting w filter (p ∷ ps) wellformed c v =
        >>=-Ensures IsWaiting (parser_call md5 user fuel w filter p c) _ λ d e.
          evb_read_cb-IsWaiting w filter ps wellformed d (parser_call-IsWaiting w filter p c v d e)
