-- ===== src/Access/Permissions.antt =====
-- rbac.go and middleware.go: who passes which check.
use rayavriti_netmonitor.Common.{
  Bool, true, false, not, ◌&&◌, ◌||◌, List, [], ◌∷◌, Option, none, some, String, str_eq, str_eq_iff,
  ltb, ◌≡◌, refl, ◌∙◌, subst, if◌then◌else◌, arith, Bool-cases, inl, inr,
}
use rayavriti_netmonitor.Access.{
  Claims, next, passes, is_admin, require_permission, has_any, require_any_permission,
  require_admin, role_weight, or_zero, require_role, Request, require_auth, token_of, or_else,
}

abbrev pub any_passes : List String → Option Claims → Bool
any_passes [] c = false
any_passes (p ∷ permissions) c = passes (require_permission p c) || any_passes permissions c

any_passes-admin :
    (p : String) (permissions : List String) (c : Claims)
    → is_admin c ≡ true
    → any_passes (p ∷ permissions) (some c) ≡ true
unfolding require_permission
any_passes-admin p permissions c admin = rw admin refl

any_passes-has_any :
    (permissions : List String) (c : Claims)
    → is_admin c ≡ false
    → any_passes permissions (some c) ≡ has_any c.permissions permissions
unfolding require_permission
any_passes-has_any [] c plain = refl
any_passes-has_any (p ∷ permissions) c plain =
    rw plain (ground (arith, any_passes-has_any permissions c plain))

-- A request passes the check for any of some permissions, of which there is at least one, exactly if
-- it passes the check for one of them, whatever its claims, also without claims.
pub require_any_permission-any_passes :
    (p : String) (permissions : List String) (c : Option Claims)
    → passes (require_any_permission (p ∷ permissions) c) ≡ any_passes (p ∷ permissions) c
unfolding require_any_permission require_permission
require_any_permission-any_passes p permissions none = nobody permissions
  where
    nobody : (ps : List String) → false ≡ any_passes ps none
    nobody [] = refl
    nobody (q ∷ ps) = nobody ps
require_any_permission-any_passes p permissions (some c) = elim (Bool-cases (is_admin c)) [
  | inl admin ↦ rw admin refl
  | inr plain ↦ rw plain (ground (arith, any_passes-has_any (p ∷ permissions) c plain))
]

str_eq_sym : (s t : String) → str_eq s t ≡ str_eq t s
str_eq_sym s t = ground (arith, str_eq_iff s t, str_eq_iff t s)

weights :
    (b1 b2 b3 b4 b5 : Bool)
    → (b1 ≡ true → (b4 ≡ false) × (b5 ≡ false))
    → (b2 ≡ true → (b4 ≡ false) × (b5 ≡ false))
    → (b3 ≡ true → (b4 ≡ false) × (b5 ≡ false))
    → ltb
        (or_zero (
          if b1
          then some 1
          else if b2
          then some 2
          else if b3
          then some 3
          else if b4
          then some 4
          else if b5
          then some 5
          else none))
        4
      ≡ (not b5 && not b4)
weights true b2 b3 b4 b5 h1 h2 h3 = let (x, y) = h1 refl in rw x (rw y refl)
weights false true b3 b4 b5 h1 h2 h3 = let (x, y) = h2 refl in rw x (rw y refl)
weights false false true b4 b5 h1 h2 h3 = let (x, y) = h3 refl in rw x (rw y refl)
weights false false false true true h1 h2 h3 = refl
weights false false false true false h1 h2 h3 = refl
weights false false false false true h1 h2 h3 = refl
weights false false false false false h1 h2 h3 = refl

only_one : (s t role : String) → str_eq s t ≡ false → str_eq s role ≡ true → str_eq t role ≡ false
only_one s t role differ e =
    str_eq_sym t role ∙ subst (λ r. str_eq r t ≡ false) ((str_eq_iff s role).0 e) differ

-- The weight of a role is at least that of "admin" for the two administrators alone.
admin_weight :
    (role : String)
    → ltb (role_weight role) (role_weight "admin")
      ≡ (not (str_eq "super_admin" role) && not (str_eq "admin" role))
unfolding role_weight
admin_weight role =
    weights (str_eq "viewer" role) (str_eq "dept_admin" role) (str_eq "network_admin" role)
      (str_eq "admin" role) (str_eq "super_admin" role)
      (λ h. (only_one "viewer" "admin" role refl h, only_one "viewer" "super_admin" role refl h))
      (λ h. (
        only_one "dept_admin" "admin" role refl h,
        only_one "dept_admin" "super_admin" role refl h,
      ))
      (λ h. (
        only_one "network_admin" "admin" role refl h,
        only_one "network_admin" "super_admin" role refl h,
      ))

-- The check for the role "admin" of the auth package and the check for administrators of the rbac
-- package give every request the same answer.
pub require_role-require_admin : (c : Option Claims) → require_role "admin" c ≡ require_admin c
unfolding require_role require_admin
require_role-require_admin none = refl
require_role-require_admin (some c) =
    ground (arith, admin_weight c.role, str_eq_sym "super_admin" c.role, str_eq_sym "admin" c.role)

-- An administrator's request passes the check for every permission and every set of permissions.
pub require_admin-require_permission :
    (p : String) (permissions : List String) (c : Option Claims)
    → passes (require_admin c) ≡ true
    → (require_permission p c ≡ next) × (require_any_permission permissions c ≡ next)
unfolding require_admin require_permission require_any_permission
require_admin-require_permission p permissions none h = cc
require_admin-require_permission p permissions (some c) h = elim (Bool-cases (is_admin c)) [
  | inl admin ↦ rw admin (refl, refl)
  | inr plain ↦ let bad : ⊥ = ground (arith, plain, h) in elim bad [ ]
]

abbrev pub is_given : Option Claims → Bool
is_given none = false
is_given (some c) = true

-- A credential that is not empty and for which there are claims.
abbrev pub has_claims : String → (String → Option Claims) → Bool
has_claims credential claims_of = not (str_eq credential "") && is_given (claims_of credential)

-- A request goes on with claims only if they are those of its key or those of its token, and a
-- request whose key and token give no claims is refused; a key that gives none does not hinder a
-- valid token.
pub require_auth_lem :
    (r : Request)
    → require_auth r ≡ (
        if has_claims r.api_key r.api_key_lookup
        then r.api_key_lookup r.api_key
        else if has_claims (token_of r.bearer r.cookie) r.validate_access_token
        then r.validate_access_token (token_of r.bearer r.cookie)
        else none)
unfolding require_auth
require_auth_lem r =
    cases (str_eq r.api_key "") (r.api_key_lookup r.api_key)
      (str_eq (token_of r.bearer r.cookie) "")
      (r.validate_access_token (token_of r.bearer r.cookie))
  where
    cases :
        (b : Bool) (o : Option Claims) (c : Bool) (p : Option Claims)
        → or_else (if b then none else o) (if c then none else p)
          ≡ (if not b && is_given o then o else if not c && is_given p then p else none)
    cases true o true p = refl
    cases true o false none = refl
    cases true o false (some d) = refl
    cases false none true p = refl
    cases false none false none = refl
    cases false none false (some d) = refl
    cases false (some e) c p = refl
