-- ===== src/Websocket/Hub/Scopes.antt =====
-- hub.go and server.go: what a client is told lies in its scopes.
use rayavriti_netmonitor.Common.{
  ℕ, ◌≡◌, refl, Bool, true, false, not, ◌&&◌, ◌||◌, List, [], ◌∷◌, ◌==◌, ltb, length, if◌then◌else◌,
  All, All-snoc, All-map, All-select, All-imp, on_both_ways, Bool-cases, inl, inr, ◌⊎◌, Option,
  none, some,
}
use rayavriti_netmonitor.Websocket.Hub.{
  ClientInfo, Message, Client, Hub, World, broadcast_size, send_size, is_admin, is_device_event,
  any_location, scope_filter, enqueue, offer, run_first, run_one, killed, stop, connect,
  write_first, write_one, disconnect, Event, broadcasted, looped, connected, wrote, disconnected,
  stopped, step, run, offer_bootstrap, bootstrap, bootstrapped,
}

module _ {D : Type 0} (filter : (ℕ → ℕ) → ClientInfo → Message D → Bool)
    (IsUsed : (ℕ → ℕ) → Type 0) where
  -- A message is the first one of a client, or has passed the filter with some locations in use.
  abbrev IsPassed : ClientInfo → Message D → Type 0
  IsPassed info msg =
      (msg.type ≡ "bootstrap")
      ⊎ ((locations : ℕ → ℕ) × IsUsed locations × (filter locations info msg ≡ true))

  -- What waits for a client and what was written to it is of this kind.
  abbrev IsFiltered : Client D → Type 0
  IsFiltered c = All (IsPassed c.info) c.send × All (IsPassed c.info) c.written

  offer-IsFiltered :
      (locations : ℕ → ℕ) (used : IsUsed locations) (msg : Message D) (c : Client D)
      → IsFiltered c
      → IsFiltered (offer (filter locations) msg c)
  unfolding offer
  offer-IsFiltered locations used msg c (waiting, written) = elim (Bool-cases c.dead) [
    | inl d ↦ rw d (waiting, written)
    | inr d ↦ elim (Bool-cases (filter locations c.info msg)) [
      | inl f ↦ elim (Bool-cases (ltb (length c.send) send_size)) [
        | inl r ↦
            let passed : IsPassed c.info msg = inr (locations, used, f) in
            rw d (rw f (rw r (All-snoc (IsPassed c.info) c.send msg waiting passed, written)))
        | inr r ↦ rw d (rw f (rw r (waiting, written)))
      ]
      | inr f ↦ rw d (rw f (waiting, written))
    ]
  ]

  offer_bootstrap-IsFiltered :
      (id : ℕ) (payload : D) (c : Client D)
      → IsFiltered c
      → IsFiltered (offer_bootstrap id payload c)
  unfolding offer_bootstrap
  offer_bootstrap-IsFiltered id payload c both =
      on_both_ways IsFiltered (c.id == id) _ c
        (on_both_ways IsFiltered c.dead c _ both (
          on_both_ways IsFiltered (ltb (length c.send) send_size) _ c
            (All-snoc (IsPassed c.info) c.send _ both.0 (inl refl), both.1) both))
        both

  bootstrap-IsFiltered :
      (id : ℕ) (first : Option D) (h : Hub D)
      → All IsFiltered h.clients
      → All IsFiltered (bootstrap id first h).clients
  unfolding bootstrap
  bootstrap-IsFiltered id none h all = all
  bootstrap-IsFiltered id (some payload) h all =
      All-map IsFiltered (offer_bootstrap id payload) h.clients
        (offer_bootstrap-IsFiltered id payload) all

  write_first-IsFiltered :
      (queue : List (Message D)) (c : Client D)
      → All (IsPassed c.info) queue
      → IsFiltered c
      → IsFiltered (write_first queue c)
  write_first-IsFiltered [] c passed both = both
  write_first-IsFiltered (msg ∷ queue) c passed both =
      (passed.1, All-snoc (IsPassed c.info) c.written msg both.1 passed.0)

  write_one-IsFiltered : (id : ℕ) (c : Client D) → IsFiltered c → IsFiltered (write_one id c)
  unfolding write_one
  write_one-IsFiltered id c both =
      on_both_ways IsFiltered (c.id == id) _ c
        (on_both_ways IsFiltered c.dead c _ both (write_first-IsFiltered c.send c both.0 both)) both

  run_first-IsFiltered :
      (locations : ℕ → ℕ → ℕ) (used : (id : ℕ) → IsUsed (locations id)) (queue : List (Message D))
      (h : Hub D)
      → All IsFiltered h.clients
      → All IsFiltered (run_first (λ id. filter (locations id)) queue h).clients
  run_first-IsFiltered locations used [] h all = all
  run_first-IsFiltered locations used (msg ∷ queue) h all =
      All-map IsFiltered (λ c. offer (filter (locations c.id)) msg c) h.clients
        (λ c. offer-IsFiltered (locations c.id) (used c.id) msg c) all

  -- The locations of a turn of the loop are in use.
  abbrev pub UsesLocations : Event D → Type 0
  UsesLocations (looped locations) = (id : ℕ) → IsUsed (locations id)
  UsesLocations _ = Unit

  AllFiltered : Hub D → Type 0
  AllFiltered h = All IsFiltered h.clients

  step-AllFiltered :
      (event : Event D) (h : Hub D)
      → UsesLocations event
      → AllFiltered h
      → AllFiltered (step filter event h)
  unfolding AllFiltered step enqueue run_one connect disconnect stop
  step-AllFiltered (broadcasted msg) h u all =
      on_both_ways AllFiltered h.done h _ all
        (on_both_ways AllFiltered (ltb (length h.broadcast) broadcast_size) _ h all all)
  step-AllFiltered (looped locations) h u all = run_first-IsFiltered locations u h.broadcast h all
  step-AllFiltered (bootstrapped id first) h u all = bootstrap-IsFiltered id first h all
  step-AllFiltered (connected id info) h u all = ((tt, tt), all)
  step-AllFiltered (wrote id) h u all =
      All-map IsFiltered (write_one id) h.clients (write_one-IsFiltered id) all
  step-AllFiltered (disconnected id) h u all =
      All-select IsFiltered (λ c. not (c.id == id)) h.clients all
  step-AllFiltered stopped h u all =
      on_both_ways AllFiltered h.done h _ all (All-map IsFiltered killed h.clients (λ c p. p) all)

  run-AllFiltered :
      (events : List (Event D)) (h : Hub D)
      → All UsesLocations events
      → AllFiltered h
      → AllFiltered (run filter events h)
  unfolding run
  run-AllFiltered [] h u all = all
  run-AllFiltered (event ∷ events) h u all =
      run-AllFiltered events (step filter event h) u.1 (step-AllFiltered event h u.0 all)

guards_passed :
    (a b c d e f : Bool)
    → (if a
        then true
        else if b
        then false
        else if not c
        then false
        else if d
        then false
        else if e
        then false
        else f)
      ≡ true
    → (a || (c && f)) ≡ true
guards_passed true b c d e f h = refl
guards_passed false true c d e f h = cc
guards_passed false false false d e f h = cc
guards_passed false false true true e f h = cc
guards_passed false false true false true f h = cc
guards_passed false false true false false f h = h

module _ {D : Type 0} (w : World D) (IsUsed : (ℕ → ℕ) → Type 0) where
  -- What a client may see with given locations: all for an administrator, or device events in its
  -- locations.
  abbrev pub may_see : (ℕ → ℕ) → ClientInfo → Message D → Bool
  may_see locations info msg =
      is_admin info
      || (is_device_event msg.type
          && any_location (w.print (locations (w.device_id msg.payload))) info.scopes)

  abbrev pub IsSeen : ClientInfo → Message D → Type 0
  IsSeen info msg =
      (msg.type ≡ "bootstrap")
      ⊎ ((locations : ℕ → ℕ) × IsUsed locations × (may_see locations info msg ≡ true))

  scope_filter-may_see :
      (locations : ℕ → ℕ) (info : ClientInfo) (msg : Message D)
      → scope_filter w locations info msg ≡ true
      → may_see locations info msg ≡ true
  unfolding scope_filter
  scope_filter-may_see locations info msg h =
      guards_passed (is_admin info) _ (is_device_event msg.type) _ _ _ h

  IsPassed-IsSeen :
      (info : ClientInfo) (msg : Message D)
      → IsPassed (scope_filter w) IsUsed info msg
      → IsSeen info msg
  IsPassed-IsSeen info msg (inl first) = inl first
  IsPassed-IsSeen info msg (inr (locations, used, h)) =
      inr (locations, used, scope_filter-may_see locations info msg h)

  -- What a client was told or is about to be told is what it may see.
  abbrev pub IsScoped : Client D → Type 0
  IsScoped c = All (IsSeen c.info) c.written × All (IsSeen c.info) c.send

  -- A client without an administrator's role is told only of devices in its scopes, but for the first
  -- message that it gets: after any sequence of broadcasts, connections, first messages, writes,
  -- disconnections, stops and turns of the loop, each message that was written to a client or waits for
  -- it is of the type of a first message, or the client is an administrator, or it is a device event of
  -- a device whose location is one of the client's scopes, by locations that the cache gave at a turn
  -- of the loop (`IsUsed` is any predicate that holds of all that it gave).
  pub run-IsScoped :
      (events : List (Event D))
      → All (UsesLocations (scope_filter w) IsUsed) events
      → All IsScoped
          (run
            (scope_filter w)
            events
            (record { clients = []; broadcast = []; done = false })).clients
  unfolding AllFiltered
  run-IsScoped events u =
      All-imp (IsFiltered (scope_filter w) IsUsed) IsScoped _
        (λ c (waiting, written). (
          All-imp _ (IsSeen c.info) c.written (IsPassed-IsSeen c.info) written,
          All-imp _ (IsSeen c.info) c.send (IsPassed-IsSeen c.info) waiting,
        ))
        (run-AllFiltered (scope_filter w) IsUsed events
          (record { clients = []; broadcast = []; done = false }) u tt)
