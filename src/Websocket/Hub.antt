-- ===== src/Websocket/Hub.antt =====
-- websocket/hub.go with the filter of server/server.go: broadcasts to the connected clients, each with a
-- queue of its own. Tokens, the device of a message, the answers of the cache of locations and
-- what the producer of the first message gives are parameters; SendToClient, which nothing calls, is
-- left out.
pub mod Scopes
mod Examples
use rayavriti_netmonitor.Common.{
  ℕ, Bool, true, false, not, ◌&&◌, ◌||◌, String, str_eq, Option, none, some, List, [], ◌∷◌, ◌++◌,
  ◌==◌, ltb, if◌then◌else◌, length, map, select,
}

pub record ScopeEntry : Type 0 where
  pub scope_type : String
  pub scope_value : String

pub record ClientInfo : Type 0 where
  pub user_id : ℕ
  pub username : String
  pub role : String
  pub scopes : List ScopeEntry

pub record Message (D : Type 0) : Type 0 where
  pub type : String
  pub payload : D

-- A client by its identity; `written` is what went over its connection.
pub record Client (D : Type 0) : Type 0 where
  pub id : ℕ
  pub info : ClientInfo
  pub send : List (Message D)
  pub dead : Bool
  pub written : List (Message D)

pub record Hub (D : Type 0) : Type 0 where
  pub clients : List (Client D)
  pub broadcast : List (Message D)
  pub done : Bool

pub record World (D : Type 0) : Type 0 where
  pub device_id : D → ℕ
  pub print : ℕ → String

abbrev pub broadcast_size : ℕ
broadcast_size = 256

abbrev pub send_size : ℕ
send_size = 64

abbrev pub is_admin : ClientInfo → Bool
is_admin info = str_eq info.role "super_admin" || str_eq info.role "admin"

abbrev pub is_device_event : String → Bool
is_device_event t =
    str_eq t "metric:update"
    || (str_eq t "alert:triggered"
        || (str_eq t "alert:updated" || (str_eq t "alert:resolved" || str_eq t "device:status")))

abbrev pub any_location : String → List ScopeEntry → Bool
any_location want [] = false
any_location want (s ∷ scopes) =
    (str_eq s.scope_type "location" && str_eq s.scope_value want) || any_location want scopes

module _ {D : Type 0} where
  -- With what the cache gives for the location of each device; 0 is that it is unknown.
  unfoldable pub scope_filter : World D → (ℕ → ℕ) → ClientInfo → Message D → Bool
  scope_filter w location_of info msg =
      let device = w.device_id msg.payload in
      let location = location_of device in
      if is_admin info
      then true
      else if length info.scopes == 0
      then false
      else if not (is_device_event msg.type)
      then false
      else if device == 0
      then false
      else if location == 0
      then false
      else any_location (w.print location) info.scopes

  unfoldable pub enqueue : Message D → Hub D → Hub D
  enqueue msg h =
      if h.done
      then h
      else if ltb (length h.broadcast) broadcast_size
      then record h { broadcast = h.broadcast ++ msg ∷ [] }
      else h

  -- A client whose queue is full misses the message.
  unfoldable pub offer : (ClientInfo → Message D → Bool) → Message D → Client D → Client D
  offer filter msg c =
      if c.dead
      then c
      else if not (filter c.info msg)
      then c
      else if ltb (length c.send) send_size
      then record c { send = c.send ++ msg ∷ [] }
      else c

  -- The filter is asked for each client, told by its identity.
  abbrev pub run_first : (ℕ → ClientInfo → Message D → Bool) → List (Message D) → Hub D → Hub D
  run_first filter [] h = h
  run_first filter (msg ∷ queue) h = record h {
    broadcast = queue;
    clients = map (λ c. offer (filter c.id) msg c) h.clients;
  }

  -- One message of the loop of Run.
  unfoldable pub run_one : (ℕ → ClientInfo → Message D → Bool) → Hub D → Hub D
  unfolding offer
  run_one filter h = run_first filter h.broadcast h

  abbrev pub killed : Client D → Client D
  killed c = record c { dead = true }

  unfoldable pub stop : Hub D → Hub D
  stop h = if h.done then h else record h { done = true; clients = map killed h.clients }

  abbrev pub new_client : ℕ → ClientInfo → Client D
  new_client id info = record { id = id; info = info; send = []; dead = false; written = [] }

  unfoldable pub connect : ℕ → ClientInfo → Hub D → Hub D
  connect id info h = record h { clients = new_client id info ∷ h.clients }

  -- The first message of a client, which no filter is asked about; `none` is that there is no producer
  -- or that it fails. The client may be gone by then.
  unfoldable pub offer_bootstrap : ℕ → D → Client D → Client D
  offer_bootstrap id payload c =
      if c.id == id
      then (if c.dead
          then c
          else if ltb (length c.send) send_size
          then record c { send = c.send ++ record { type = "bootstrap"; payload = payload } ∷ [] }
          else c)
      else c

  unfoldable pub bootstrap : ℕ → Option D → Hub D → Hub D
  unfolding offer_bootstrap
  bootstrap id none h = h
  bootstrap id (some payload) h = record h { clients = map (offer_bootstrap id payload) h.clients }

  -- The writer's turn.
  abbrev pub write_first : List (Message D) → Client D → Client D
  write_first [] c = c
  write_first (msg ∷ queue) c = record c { send = queue; written = c.written ++ msg ∷ [] }

  unfoldable pub write_one : ℕ → Client D → Client D
  write_one id c = if c.id == id then (if c.dead then c else write_first c.send c) else c

  unfoldable pub disconnect : ℕ → Hub D → Hub D
  disconnect id h = record h { clients = select (λ c. not (c.id == id)) h.clients }

  unfoldable pub connection_count : Hub D → ℕ
  connection_count h = length h.clients

pub data Event (D : Type 0) : Type 0 where
  broadcasted : Message D → Event D
  looped : (ℕ → ℕ → ℕ) → Event D  -- for each client, what the cache of locations gives
  connected : ℕ → ClientInfo → Event D
  bootstrapped : ℕ → Option D → Event D
  wrote : ℕ → Event D
  disconnected : ℕ → Event D
  stopped : Event D

module _ {D : Type 0} (filter : (ℕ → ℕ) → ClientInfo → Message D → Bool) where
  unfoldable pub step : Event D → Hub D → Hub D
  unfolding enqueue run_one connect bootstrap write_one disconnect stop
  step (broadcasted msg) h = enqueue msg h
  step (looped locations) h = run_one (λ id. filter (locations id)) h
  step (connected id info) h = connect id info h
  step (bootstrapped id first) h = bootstrap id first h
  step (wrote id) h = record h { clients = map (write_one id) h.clients }
  step (disconnected id) h = disconnect id h
  step stopped h = stop h

  unfoldable pub run : List (Event D) → Hub D → Hub D
  unfolding step
  run [] h = h
  run (event ∷ events) h = run events (step event h)

-- What a request offers: the header, the first subprotocol and the cookie, where they are there.
pub record Handshake : Type 0 where
  pub bearer : Option String
  pub subprotocol : Option String
  pub cookie : Option String

abbrev pub prepend : Option String → List String → List String
prepend none tokens = tokens
prepend (some t) tokens = if str_eq t "" then tokens else t ∷ tokens

-- An empty bearer token is a token; an empty subprotocol or cookie is none.
abbrev pub prepend_bearer : Option String → List String → List String
prepend_bearer none tokens = tokens
prepend_bearer (some t) tokens = t ∷ tokens

unfoldable pub candidate_tokens : Handshake → List String
candidate_tokens r = prepend_bearer r.bearer (prepend r.subprotocol (prepend r.cookie []))

abbrev pub or_later {ℓ} : {C : Type ℓ} → Option C → Option C → Option C
or_later none rest = rest
or_later (some c) rest = some c

-- The claims of the first valid token; `none` is the answer 401.
unfoldable pub first_valid : {C : Type 0} → (String → Option C) → List String → Option C
first_valid validate [] = none
first_valid validate (t ∷ tokens) = or_later (validate t) (first_valid validate tokens)

unfoldable pub authenticate : {C : Type 0} → (String → Option C) → Handshake → Option C
unfolding candidate_tokens first_valid
authenticate validate r = first_valid validate (candidate_tokens r)
