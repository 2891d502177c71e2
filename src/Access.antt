-- ===== src/Access.antt =====
-- backend/internal/auth/middleware.go, backend/internal/rbac/rbac.go and scope.go: which requests pass.
-- A middleware maps a request to its answer. The lookup of keys, the check of tokens and the parts of
-- the request's headers are parameters.
pub mod Permissions
pub mod Scopes
mod Examples
use rayavriti_netmonitor.Common.{
  ℕ, Bool, true, false, not, ◌&&◌, ◌||◌, List, [], ◌∷◌, ◌++◌, Option, none, some, String, str_eq,
  ltb, if◌then◌else◌,
}
use rayavriti_netmonitor.Common.Assoc.{lookup, string_eq}

pub record Claims : Type 0 where
  pub user_id : ℕ
  pub username : String
  pub role : String
  pub permissions : List String

-- The request goes on, or is answered with status 401 or 403.
pub data Answer : Type 0 where
  next unauthorized forbidden : Answer

abbrev pub passes : Answer → Bool
passes next = true
passes _ = false

unfoldable pub has_permission : List String → String → Bool
has_permission [] required = false
has_permission (p ∷ permissions) required = str_eq p required || has_permission permissions required

abbrev pub is_admin : Claims → Bool
is_admin c = str_eq c.role "super_admin" || str_eq c.role "admin"

unfoldable pub require_permission : String → Option Claims → Answer
unfolding has_permission
require_permission permission none = unauthorized
require_permission permission (some c) =
    if is_admin c then next else if has_permission c.permissions permission then next else forbidden

abbrev pub has_any : List String → List String → Bool
has_any held [] = false
has_any held (p ∷ required) = has_permission held p || has_any held required

unfoldable pub require_any_permission : List String → Option Claims → Answer
require_any_permission permissions none = unauthorized
require_any_permission permissions (some c) =
    if is_admin c then next else if has_any c.permissions permissions then next else forbidden

unfoldable pub require_admin : Option Claims → Answer
require_admin none = unauthorized
require_admin (some c) =
    if not (str_eq c.role "super_admin") && not (str_eq c.role "admin") then forbidden else next

-- roleWeight; a missing key gives 0.
abbrev pub role_weights : List (String × ℕ)
role_weights =
    ("viewer", 1)
    ∷ ("dept_admin", 2)
    ∷ ("network_admin", 3)
    ∷ ("admin", 4)
    ∷ ("super_admin", 5)
    ∷ []

abbrev pub or_zero : Option ℕ → ℕ
or_zero none = 0
or_zero (some n) = n

unfoldable pub role_weight : String → ℕ
role_weight role = or_zero (lookup role role_weights)

unfoldable pub require_role : String → Option Claims → Answer
unfolding role_weight
require_role role none = unauthorized
require_role role (some c) = if ltb (role_weight c.role) (role_weight role) then forbidden else next

-- Of a request: the key header, the bearer token of the authorization header and the access cookie,
-- and what the lookup of a key and the check of a token answer.
pub record Request : Type 0 where
  pub api_key : String
  pub bearer : Option String
  pub cookie : Option String
  pub api_key_lookup : String → Option Claims
  pub validate_access_token : String → Option Claims

abbrev pub token_of : Option String → Option String → String
token_of (some token) cookie = token
token_of none (some token) = token
token_of none none = ""

abbrev pub or_else : Option Claims → Option Claims → Option Claims
or_else (some c) d = some c
or_else none d = d

-- The claims with which the request goes on; `none` is an answer with status 401.
unfoldable pub require_auth : Request → Option Claims
require_auth r =
    let token = token_of r.bearer r.cookie in
    or_else (if str_eq r.api_key "" then none else r.api_key_lookup r.api_key)
      (if str_eq token "" then none else r.validate_access_token token)

pub record UserScope : Type 0 where
  pub scope_type : String
  pub value : String

pub record ScopeContext : Type 0 where
  pub user_id : ℕ
  pub role : String
  pub scopes : List UserScope
  pub is_scoped : Bool

pub record ScopeFilter : Type 0 where
  pub location_ids : List String
  pub subnet_cidrs : List String

unfoldable pub is_unscoped_role : String → Bool
is_unscoped_role role = str_eq role "super_admin" || str_eq role "admin"

-- RequireScopeContext: the context of the request. `load` is the scopes that LoadScopes returns, which
-- are used also when it returns an error with them; a failed query returns none.
unfoldable pub require_scope_context : Option Claims → (ℕ → List UserScope) → Option ScopeContext
unfolding is_unscoped_role
require_scope_context none load = none
require_scope_context (some c) load = some (
    if is_unscoped_role c.role
    then record { user_id = c.user_id; role = c.role; scopes = []; is_scoped = false }
    else record { user_id = c.user_id; role = c.role; scopes = load c.user_id; is_scoped = true })

-- The body of the loop of DatabaseScopeFilter.
abbrev pub add_scope : UserScope → ScopeFilter → ScopeFilter
add_scope s f =
    if str_eq s.scope_type "location"
    then record f { location_ids = f.location_ids ++ s.value ∷ [] }
    else if str_eq s.scope_type "subnet"
    then record f { subnet_cidrs = f.subnet_cidrs ++ s.value ∷ [] }
    else f

unfoldable pub add_scopes : List UserScope → ScopeFilter → ScopeFilter
add_scopes [] f = f
add_scopes (s ∷ scopes) f = add_scopes scopes (add_scope s f)

-- `none` is no filter: all devices are seen.
unfoldable pub database_scope_filter : Option ScopeContext → Option ScopeFilter
unfolding add_scopes
database_scope_filter none = none
database_scope_filter (some sc) =
    if not sc.is_scoped
    then none
    else some (add_scopes sc.scopes (record { location_ids = []; subnet_cidrs = [] }))
