-- ===== src/Server/Machine/InStep.antt =====
-- Each connection is open exactly while it is enabled: what one event does to that.
use smf.Prelude.{ℕ, ◌≡◌, refl, ◌∙◌, List, Option, none, some, inl, inr, arith, Bool-cases, ◌==◌}
use smf.Rpc.Future.{Future, Completion, ready, failed}
use smf.Rpc.Header.{Header}
use smf.Rpc.Connection.{Connection, is_valid, disable, has_error}
use smf.Rpc.RecvContext.{Platform, RecvContext, parse_header, parse_payload}
use smf.Server.Semaphore.{Semaphore}
use smf.Server.Dispatch.{
  Config, Served, contains, cleanup_dispatch_rpc, dispatch_rpc, finish_dispatch, do_dispatch_rpc,
}
use smf.Server.Dispatch.Keeps.{KeepsEnabled, set_error-enabled, do_dispatch-enabled}
use smf.Server.Machine.{
  Server, Parse, Job, update, cleanup, with_error, leave_loop, leave_by_exception, after_header,
  test_loop, read_header, read_body, serve,
}
use smf.Server.Machine.Connections.{Below, contains-erase}
use smf.Server.Machine.Tracked.{leave_loop-Shrinks}

module _ {S O Q : Type 0} (p : Platform) (g : Config S O) (sem : Semaphore Q) where
  -- A connection is in the set exactly while it is enabled.
  abbrev pub InStep : ℕ → List ℕ → (ℕ → Connection S O) → Type 0
  InStep j xs f = contains xs j ≡ (f j).enabled

  -- What keeps every connection in step.
  abbrev pub StaysInStep : Server S O Q → Server S O Q → Type 0
  StaysInStep s t =
      (n j : ℕ)
      → Below n s.open_connections
      → InStep j s.open_connections s.connections
      → InStep j t.open_connections t.connections

  update-enabled :
      (f : ℕ → Connection S O) (k j : ℕ) (c : Connection S O)
      → c.enabled ≡ (f k).enabled
      → (f j).enabled ≡ (update f k c j).enabled
  update-enabled f k j c e = elim (Bool-cases (k == j)) [
    | inl same ↦ ground arith
    | inr other ↦ rw other refl
  ]

  cleanup_dispatch-InStep :
      (id n : ℕ) (w : Served S O) (xs : List ℕ) (f : ℕ → Connection S O) (j : ℕ)
      → Below n xs
      → w.conn.enabled ≡ (f id).enabled
      → InStep j xs f
      → InStep j
          (cleanup_dispatch_rpc id (w, xs)).1
          (update f id (cleanup_dispatch_rpc id (w, xs)).0.conn)
  unfolding cleanup_dispatch_rpc disable
  cleanup_dispatch-InStep id n w xs f j b e h = elim (Bool-cases (has_error w.conn)) [
    | inl error ↦ elim (Bool-cases (contains xs id)) [
      | inl opened ↦ rw (error, opened) (ground (arith, contains-erase id n xs j b))
      | inr closed ↦ rw (error, closed) (h ∙ update-enabled f id j w.conn e)
    ]
    | inr fine ↦ rw fine (h ∙ update-enabled f id j w.conn e)
  ]

  cleanup-InStep : (id : ℕ) (s : Server S O Q) → StaysInStep s (cleanup p g sem id s)
  unfolding cleanup
  cleanup-InStep id s n j b h =
      cleanup_dispatch-InStep id n _ s.open_connections s.connections j b refl h

  leave_loop-InStep : (id : ℕ) (s : Server S O Q) → StaysInStep s (leave_loop p g sem id s)
  unfolding leave_loop
  leave_loop-InStep id s n j b h = cleanup-InStep id s n j b h

  -- A connection is replaced by one that is enabled if it was.
  put-InStep :
      (id j : ℕ) (s : Server S O Q) (c : Connection S O)
      → c.enabled ≡ (s.connections id).enabled
      → InStep j s.open_connections s.connections
      → InStep j s.open_connections (update s.connections id c)
  put-InStep id j s c e h = h ∙ update-enabled s.connections id j c e

  pub leave_by_exception-InStep :
      (id : ℕ) (s : Server S O Q) → StaysInStep s (leave_by_exception p g sem id s)
  unfolding leave_by_exception
  leave_by_exception-InStep id s n j b h =
      let left = leave_loop p g sem id s in
      cleanup-InStep id (with_error p g sem "handling client session exception" id left) n j
        ((leave_loop-Shrinks p g sem id s).keeps n b)
        (put-InStep id j left _ (set_error-enabled g _ (left.connections id))
          (leave_loop-InStep id s n j b h))

  after_header-InStep :
      (id : ℕ) (r : Future (Option Header)) (s : Server S O Q)
      → StaysInStep s (after_header p g sem id r s)
  unfolding after_header
  after_header-InStep id (failed x) s n j b h = leave_by_exception-InStep id s n j b h
  after_header-InStep id (ready none) s n j b h =
      put-InStep id j s _ (set_error-enabled g _ (s.connections id)) h
  after_header-InStep id (ready (some hdr)) s n j b h = h

  parse_header-enabled :
      (c : Connection S O) → (parse_header p g.io g.debug c).1.enabled ≡ c.enabled
  unfolding parse_header
  parse_header-enabled c = ground arith

  pub read_header-InStep : (id : ℕ) (s : Server S O Q) → StaysInStep s (read_header p g sem id s)
  unfolding read_header
  read_header-InStep id s n j b h =
      let (hdr, c) = parse_header p g.io g.debug (s.connections id) in
      after_header-InStep id hdr (record s { connections = update s.connections id c }) n j b
        (put-InStep id j s c (parse_header-enabled (s.connections id)) h)

  pub test_loop-InStep : (id : ℕ) (s : Server S O Q) → StaysInStep s (test_loop p g sem id s)
  unfolding test_loop
  test_loop-InStep id s n j b h = elim (Bool-cases (is_valid g.io (s.connections id))) [
    | inl valid ↦ rw valid h
    | inr invalid ↦ rw invalid (leave_loop-InStep id s n j b h)
  ]

  dispatch-InStep :
      (m : Connection S O → Connection S O) (k id n : ℕ) (c : Option RecvContext) (w : Served S O)
      (xs : List ℕ) (q : Q) (f : ℕ → Connection S O) (j : ℕ)
      → KeepsEnabled m
      → Below n xs
      → w.conn.enabled ≡ (f id).enabled
      → InStep j xs f
      → InStep j
          (dispatch_rpc g sem m k id c w xs q).1
          (update f id (dispatch_rpc g sem m k id c w xs q).0.conn)
  unfolding dispatch_rpc finish_dispatch
  dispatch-InStep m k id n none w xs q f j keeps b e h =
      h ∙ update-enabled f id j _ (set_error-enabled g _ w.conn ∙ e)
  dispatch-InStep m k id n (some ctx) w xs q f j keeps b e h =
      finish (do_dispatch_rpc g m ctx w) (do_dispatch-enabled g m keeps ctx w ∙ e)
    where
      finish :
          (r : Completion × Served S O)
          → r.1.conn.enabled ≡ (f id).enabled
          → InStep j
              (finish_dispatch g sem id xs r).1
              (update f id (finish_dispatch g sem id xs r).0.conn)
      finish (ready u, w') e' = cleanup_dispatch-InStep id n w' xs f j b e' h
      finish (failed x, w') e' = h ∙ update-enabled f id j w'.conn e'

  pub serve-InStep :
      (m : Connection S O → Connection S O) (i : Job) (s : Server S O Q)
      → KeepsEnabled m
      → StaysInStep s (serve p g sem m i s)
  unfolding serve
  serve-InStep m i s keeps n j b h =
      dispatch-InStep m i.payload_size i.id n i.context _ s.open_connections _ s.connections j keeps
        b refl h

  parse_payload-enabled :
      (h : Header) (c : Connection S O) → (parse_payload p g.io h c).1.enabled ≡ c.enabled
  unfolding parse_payload
  parse_payload-enabled h c = refl

  pub read_body-InStep : (k : Parse) (s : Server S O Q) → StaysInStep s (read_body p g sem k s)
  unfolding read_body
  read_body-InStep k s n j b h =
      put-InStep k.id j s _ (parse_payload-enabled k.header (s.connections k.id)) h
