-- ===== src/Auth/SessionStore.antt =====
-- auth/session.go: sessions by token, in Redis or, without it, in memory. The hash of a token is a
-- parameter. Redis keeps a value until the time that it is told, and gives it back as it was; a call
-- that fails changes nothing and gives nothing, and Set and Delete do not tell.
pub mod RoundTrip
mod Examples
use rayavriti_netmonitor.Common.{
  ℕ, Bool, String, Option, none, some, List, [], ◌∷◌, ltb, leb, if◌then◌else◌,
}
use rayavriti_netmonitor.Common.Assoc.{lookup, insert, erase, string_eq}

pub record Session : Type 0 where
  pub user_id : ℕ
  pub username : String
  pub role : String
  pub expire_at : ℕ

-- A store with Redis never uses its map.
pub data SessionStore : Type 0 where
  redis : List (String × Session) → SessionStore
  memory : List (String × Session) → SessionStore

abbrev pub new_session_store : SessionStore
new_session_store = memory []

abbrev pub new_redis_session_store : List (String × Session) → SessionStore
new_redis_session_store rdb = redis rdb

-- The session that was found, if it has not expired; an expired one is deleted.
unfoldable pub get_in_memory :
    ℕ → String → Option Session → List (String × Session) → Option Session × SessionStore
get_in_memory now token none m = (none, memory m)
get_in_memory now token (some sess) m =
    if ltb sess.expire_at now then (none, memory (erase token m)) else (some sess, memory m)

-- Redis drops a value at the end of its time. If it gave an expired one all the same, Get would delete
-- it, which is the same.
unfoldable pub get_in_redis :
    Bool → ℕ → String → Option Session → List (String × Session) → Option Session × SessionStore
get_in_redis fails now key none rdb = (none, redis rdb)
get_in_redis fails now key (some sess) rdb =
    if fails
    then (none, redis rdb)
    else if leb sess.expire_at now
    then (none, redis (erase key rdb))
    else (some sess, redis rdb)

-- A call of the store, with the clock's reading; `true` is that Redis fails.
pub data Call : Type 0 where
  sets : Bool → ℕ → String → Session → Call
  gets : Bool → ℕ → String → Call
  deletes : Bool → String → Call

module _ (hash : String → String) where
  unfoldable pub set : Bool → ℕ → String → Session → SessionStore → SessionStore
  set fails now token sess (memory m) = memory (insert token sess m)
  set fails now token sess (redis rdb) =
      if leb sess.expire_at now
      then redis rdb
      else if fails
      then redis rdb
      else redis (insert (hash token) sess rdb)

  unfoldable pub get : Bool → ℕ → String → SessionStore → Option Session × SessionStore
  unfolding get_in_memory get_in_redis
  get fails now token (memory m) = get_in_memory now token (lookup token m) m
  get fails now token (redis rdb) =
      get_in_redis fails now (hash token) (lookup (hash token) rdb) rdb

  unfoldable pub delete : Bool → String → SessionStore → SessionStore
  delete fails token (memory m) = memory (erase token m)
  delete fails token (redis rdb) = if fails then redis rdb else redis (erase (hash token) rdb)

  unfoldable pub step : Call → SessionStore → SessionStore
  unfolding set get delete
  step (sets fails now token sess) s = set fails now token sess s
  step (gets fails now token) s = (get fails now token s).1
  step (deletes fails token) s = delete fails token s

  unfoldable pub run : List Call → SessionStore → SessionStore
  unfolding step
  run [] s = s
  run (call ∷ calls) s = run calls (step call s)
