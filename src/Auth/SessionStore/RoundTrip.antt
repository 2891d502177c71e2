-- ===== src/Auth/SessionStore/RoundTrip.antt =====
-- session.go: a session comes back as it was set, until it expires or is deleted.
use rayavriti_netmonitor.Common.{
  ℕ, ◌<◌, ◌≡◌, refl, ◌∙◌, Bool, true, false, String, str_eq, Option, none, some, List, [], ◌∷◌, ltb,
  leb, arith, Bool-cases, inl, inr, All,
}
use rayavriti_netmonitor.Common.Assoc.{
  lookup, string_eq, lookup-insert, lookup-erase, lookup-insert_self,
}
use rayavriti_netmonitor.Auth.SessionStore.{
  Session, SessionStore, redis, memory, Call, sets, gets, deletes, set, get_in_memory, get_in_redis,
  get, delete, step, run,
}

module _ (hash : String → String) (token : String) where
  -- What the store holds for the token.
  abbrev stored : SessionStore → Option Session
  stored (memory m) = lookup token m
  stored (redis rdb) = lookup (hash token) rdb

  -- Another token, whose hash is another as well.
  abbrev pub IsOtherToken : String → Type 0
  IsOtherToken other = (str_eq other token ≡ false) × (str_eq (hash other) (hash token) ≡ false)

  set-other :
      (fails : Bool) (now : ℕ) (other : String) (sess : Session) (s : SessionStore)
      → IsOtherToken other
      → stored (set hash fails now other sess s) ≡ stored s
  unfolding set
  set-other fails now other sess (memory m) (h, k) = lookup-insert other token sess m ∙ rw h refl
  set-other fails now other sess (redis rdb) (h, k) = elim (Bool-cases (leb sess.expire_at now)) [
    | inl late ↦ rw late refl
    | inr fresh ↦ elim (Bool-cases fails) [
      | inl f ↦ rw fresh (rw f refl)
      | inr f ↦ rw fresh (rw f (lookup-insert (hash other) (hash token) sess rdb ∙ rw k refl))
    ]
  ]

  delete-other :
      (fails : Bool) (other : String) (s : SessionStore)
      → IsOtherToken other
      → stored (delete hash fails other s) ≡ stored s
  unfolding delete
  delete-other fails other (memory m) (h, k) = lookup-erase other token m ∙ rw h refl
  delete-other fails other (redis rdb) (h, k) = elim (Bool-cases fails) [
    | inl f ↦ rw f refl
    | inr f ↦ rw f (lookup-erase (hash other) (hash token) rdb ∙ rw k refl)
  ]

  get_in_memory-other :
      (now : ℕ) (other : String) (o : Option Session) (m : List (String × Session))
      → str_eq other token ≡ false
      → stored (get_in_memory now other o m).1 ≡ lookup token m
  unfolding get_in_memory
  get_in_memory-other now other none m h = refl
  get_in_memory-other now other (some sess) m h = elim (Bool-cases (ltb sess.expire_at now)) [
    | inl late ↦ rw late (lookup-erase other token m ∙ rw h refl)
    | inr fresh ↦ rw fresh refl
  ]

  get_in_redis-other :
      (fails : Bool) (now : ℕ) (key : String) (o : Option Session) (rdb : List (String × Session))
      → str_eq key (hash token) ≡ false
      → stored (get_in_redis fails now key o rdb).1 ≡ lookup (hash token) rdb
  unfolding get_in_redis
  get_in_redis-other fails now key none rdb k = refl
  get_in_redis-other fails now key (some sess) rdb k = elim (Bool-cases fails) [
    | inl f ↦ rw f refl
    | inr f ↦ elim (Bool-cases (leb sess.expire_at now)) [
      | inl late ↦ rw f (rw late (lookup-erase key (hash token) rdb ∙ rw k refl))
      | inr fresh ↦ rw f (rw fresh refl)
    ]
  ]

  get-other :
      (fails : Bool) (now : ℕ) (other : String) (s : SessionStore)
      → IsOtherToken other
      → stored (get hash fails now other s).1 ≡ stored s
  unfolding get
  get-other fails now other (memory m) (h, k) = get_in_memory-other now other (lookup other m) m h
  get-other fails now other (redis rdb) (h, k) =
      get_in_redis-other fails now (hash other) (lookup (hash other) rdb) rdb k

  -- A call about another token.
  abbrev pub IsElsewhere : Call → Type 0
  IsElsewhere (sets fails now other sess) = IsOtherToken other
  IsElsewhere (gets fails now other) = IsOtherToken other
  IsElsewhere (deletes fails other) = IsOtherToken other

  step-elsewhere :
      (call : Call) (s : SessionStore) → IsElsewhere call → stored (step hash call s) ≡ stored s
  unfolding step
  step-elsewhere (sets fails now other sess) s h = set-other fails now other sess s h
  step-elsewhere (gets fails now other) s h = get-other fails now other s h
  step-elsewhere (deletes fails other) s h = delete-other fails other s h

  run-elsewhere :
      (calls : List Call) (s : SessionStore)
      → All IsElsewhere calls
      → stored (run hash calls s) ≡ stored s
  unfolding run
  run-elsewhere [] s h = refl
  run-elsewhere (call ∷ calls) s h =
      run-elsewhere calls (step hash call s) h.1 ∙ step-elsewhere call s h.0

  stored-set :
      (now : ℕ) (sess : Session) (s : SessionStore)
      → now < sess.expire_at
      → stored (set hash false now token sess s) ≡ some sess
  unfolding set
  stored-set now sess (memory m) h = lookup-insert_self token sess m
  stored-set now sess (redis rdb) h =
      let fresh : leb sess.expire_at now ≡ false = ground (arith, h) in
      rw fresh (lookup-insert_self (hash token) sess rdb)

  -- What is read without an error before and after the time of a stored session.
  get-stored :
      (later : ℕ) (sess : Session) (s : SessionStore)
      → stored s ≡ some sess
      → (later < sess.expire_at → (get hash false later token s).0 ≡ some sess)
        × (sess.expire_at < later → (get hash false later token s).0 ≡ none)
  unfolding get get_in_memory get_in_redis
  get-stored later sess (memory m) e = (
    λ before.
        let fresh : ltb sess.expire_at later ≡ false = ground (arith, before) in
        rw e (rw fresh refl),
    λ after.
        let late : ltb sess.expire_at later ≡ true = ground (arith, after) in rw e (rw late refl),
  )
  get-stored later sess (redis rdb) e = (
    λ before.
        let fresh : leb sess.expire_at later ≡ false = ground (arith, before) in
        rw e (rw fresh refl),
    λ after.
        let late : leb sess.expire_at later ≡ true = ground (arith, after) in rw e (rw late refl),
  )

  -- What is read after the session was set and other calls were made.
  abbrev pub reread : ℕ → ℕ → Session → List Call → SessionStore → Option Session
  reread now later sess calls s =
      (get hash false later token (run hash calls (set hash false now token sess s))).0

  -- If a session is set before it expires and, with Redis, neither the write nor the later read fails,
  -- then it is read back by its token until it expires, and not afterwards, whatever calls were made
  -- for other tokens with other hashes in between and whichever of those fail, with Redis and without
  -- it.
  pub get-set :
      (now later : ℕ) (sess : Session) (calls : List Call) (s : SessionStore)
      → now < sess.expire_at
      → All IsElsewhere calls
      → (later < sess.expire_at → reread now later sess calls s ≡ some sess)
        × (sess.expire_at < later → reread now later sess calls s ≡ none)
  get-set now later sess calls s h elsewhere =
      get-stored later sess (run hash calls (set hash false now token sess s))
        (run-elsewhere calls (set hash false now token sess s) elsewhere ∙ stored-set now sess s h)
