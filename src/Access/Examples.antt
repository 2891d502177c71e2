-- ===== src/Access/Examples.antt =====
-- Tests of the model of the access checks, and its theorems at concrete inputs.
use rayavriti_netmonitor.Common.{ℕ, List, [], ◌∷◌, Option, none, some, String, ◌≡◌, refl}
use rayavriti_netmonitor.Access.{
  Request, Claims, next, forbidden, require_permission, require_role, role_weight, has_permission,
  UserScope, database_scope_filter, require_scope_context,
}
use rayavriti_netmonitor.Access.Scopes.{specified, database_scope_filter-require_scope_context}

abbrev user : String → Option Claims
user role =
    some (record { user_id = 7; username = "ann"; role = role; permissions = "devices.read" ∷ [] })

abbrev scopes : ℕ → List UserScope
scopes id =
    record { scope_type = "location"; value = "4" }
    ∷ record { scope_type = "subnet"; value = "10.0.0.0/8" }
    ∷ []

viewer_read : require_permission "devices.read" (user "viewer") ≡ next
unfolding require_permission has_permission
viewer_read = refl

network_admin_refused : require_role "admin" (user "network_admin") ≡ forbidden
unfolding require_role role_weight
network_admin_refused = refl

database_scope_filter-require_scope_context_example :
    database_scope_filter (require_scope_context (user "viewer") scopes)
    ≡ specified (user "viewer") scopes
database_scope_filter-require_scope_context_example =
    database_scope_filter-require_scope_context (user "viewer") scopes

-- The key is unknown, and the token is valid.
abbrev request : Request
request = record {
  api_key = "k";
  bearer = some "t";
  cookie = none;
  api_key_lookup = λ k. none;
  validate_access_token = λ t. user "viewer";
}
