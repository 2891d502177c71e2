-- ===== src/Auth/SessionStore/Examples.antt =====
-- Sessions at concrete inputs.
use rayavriti_netmonitor.Common.{
  ◌<◌, ◌≡◌, refl, String, none, some, List, [], ◌∷◌, true, false, arith,
}
use rayavriti_netmonitor.Auth.SessionStore.{
  Session, Call, sets, gets, deletes, new_redis_session_store,
}
use rayavriti_netmonitor.Auth.SessionStore.RoundTrip.{reread, get-set}

abbrev session : Session
session = record { user_id = 1; username = "ada"; role = "admin"; expire_at = 100 }

abbrev hash : String → String
hash s = s

abbrev others : List Call
others = sets false 11 "u" session ∷ gets true 12 "u" ∷ deletes false "u" ∷ []

get-set_example :
    (50 < 100 → reread hash "t" 10 50 session others (new_redis_session_store []) ≡ some session)
    × (100 < 50 → reread hash "t" 10 50 session others (new_redis_session_store []) ≡ none)
get-set_example =
    get-set hash "t" 10 50 session others (new_redis_session_store []) (omega arith)
      ((refl, refl), ((refl, refl), ((refl, refl), tt)))
