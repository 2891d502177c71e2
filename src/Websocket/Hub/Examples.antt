-- ===== src/Websocket/Hub/Examples.antt =====
-- The hub with two clients, at concrete inputs.
use rayavriti_netmonitor.Common.{
  ℕ, ◌≡◌, refl, false, none, some, List, [], ◌∷◌, All, map, str_eq, if◌then◌else◌, ◌==◌,
}
use rayavriti_netmonitor.Websocket.Hub.{
  ClientInfo, Message, Hub, World, Event, broadcasted, looped, connected, bootstrapped, wrote,
  bootstrap, offer_bootstrap, scope_filter, enqueue, offer, run_one, connect, write_one, step, run,
  authenticate, candidate_tokens, first_valid,
}
use rayavriti_netmonitor.Websocket.Hub.Scopes.{IsScoped, run-IsScoped}

abbrev world : World ℕ
world = record { device_id = λ d. d; print = λ l. if l == 5 then "5" else "6" }

abbrev locations : ℕ → ℕ
locations d = if d == 2 then 5 else 6

abbrev viewer : ClientInfo
viewer = record {
  user_id = 1;
  username = "ada";
  role = "viewer";
  scopes = record { scope_type = "location"; scope_value = "5" } ∷ [];
}

abbrev metric : ℕ → Message ℕ
metric device = record { type = "metric:update"; payload = device }

abbrev events : List (Event ℕ)
events =
    connected 1 viewer
    ∷ broadcasted (metric 2)
    ∷ broadcasted (metric 3)
    ∷ looped (λ id. locations)
    ∷ bootstrapped 1 (some 0)
    ∷ looped (λ id. locations)
    ∷ wrote 1
    ∷ wrote 1
    ∷ wrote 1
    ∷ []

abbrev start : Hub ℕ
start = record { clients = []; broadcast = []; done = false }

-- The metric of device 3 is in another location.
written_one :
    map (λ c. c.written) (run (scope_filter world) events start).clients
    ≡ (metric 2 ∷ record { type = "bootstrap"; payload = 0 } ∷ []) ∷ []
unfolding run step enqueue run_one offer scope_filter connect write_one bootstrap offer_bootstrap
written_one = refl

run-IsScoped_example :
    All (IsScoped world (λ l. l ≡ locations)) (run (scope_filter world) events start).clients
run-IsScoped_example =
    run-IsScoped world (λ l. l ≡ locations) events
      (tt, (tt, (tt, ((λ id. refl), (tt, ((λ id. refl), (tt, (tt, (tt, tt)))))))))

-- A stale subprotocol does not hide a valid cookie.
cookie_after_stale :
    authenticate {C = ℕ}
      (λ t. if str_eq t "fresh" then some 7 else none)
      (record { bearer = none; subprotocol = some "stale"; cookie = some "fresh" })
    ≡ some 7
unfolding authenticate candidate_tokens first_valid
cookie_after_stale = refl
