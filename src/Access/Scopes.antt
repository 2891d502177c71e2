-- ===== src/Access/Scopes.antt =====
-- scope.go: which devices a request sees.
use rayavriti_netmonitor.Common.{
  ℕ, false, List, [], ◌∷◌, ◌++◌, map, Option, none, some, String, str_eq, ◌≡◌, refl, ◌∙◌, sym, ap,
  subst, if◌then◌else◌, Bool-cases, inl, inr, select, str_eq_iff,
}
use mathlib.Core.List.{append-nil, append_assoc}
use rayavriti_netmonitor.Access.{
  Claims, UserScope, ScopeFilter, is_unscoped_role, require_scope_context, add_scopes,
  database_scope_filter,
}

-- The values of the scopes of a type.
abbrev pub values_of : String → List UserScope → List String
values_of t scopes = map (λ s. s.value) (select (λ s. str_eq s.scope_type t) scopes)

-- What the filter of a request with these claims should be.
unfoldable pub specified : Option Claims → (ℕ → List UserScope) → Option ScopeFilter
specified none load = none
specified (some c) load =
    if is_unscoped_role c.role
    then none
    else some (record {
      location_ids = values_of "location" (load c.user_id);
      subnet_cidrs = values_of "subnet" (load c.user_id);
    })

add_scopes_lem :
    (scopes : List UserScope) (f : ScopeFilter)
    → add_scopes scopes f ≡ record {
      location_ids = f.location_ids ++ values_of "location" scopes;
      subnet_cidrs = f.subnet_cidrs ++ values_of "subnet" scopes;
    }
unfolding add_scopes
add_scopes_lem [] f = rw (append-nil f.location_ids) (rw (append-nil f.subnet_cidrs) refl)
add_scopes_lem (s ∷ scopes) f = elim (Bool-cases (str_eq s.scope_type "location")) [
  | inl location ↦
      let same = (str_eq_iff s.scope_type "location").0 location in
      let other : str_eq s.scope_type "subnet" ≡ false =
        subst (λ t. str_eq t "subnet" ≡ false) (sym same) refl in
      let moved = append_assoc f.location_ids (s.value ∷ []) (values_of "location" scopes) in
      rw location (
        rw other (
          add_scopes_lem scopes (record f { location_ids = f.location_ids ++ s.value ∷ [] })
          ∙ ap
              (λ x. record {
                location_ids = x;
                subnet_cidrs = f.subnet_cidrs ++ values_of "subnet" scopes;
              })
              moved))
  | inr elsewhere ↦ elim (Bool-cases (str_eq s.scope_type "subnet")) [
    | inl subnet ↦ rw elsewhere (
        rw subnet (
          add_scopes_lem scopes (record f { subnet_cidrs = f.subnet_cidrs ++ s.value ∷ [] })
          ∙ ap
              (λ x. record {
                location_ids = f.location_ids ++ values_of "location" scopes;
                subnet_cidrs = x;
              })
              (append_assoc f.subnet_cidrs (s.value ∷ []) (values_of "subnet" scopes))))
    | inr neither ↦ rw elsewhere (rw neither (add_scopes_lem scopes f))
  ]
]

-- A request with claims gets no filter exactly if its role is an administrator's. Any other gets one
-- with the values of its location scopes and of its subnet scopes, each in their order; without any
-- scopes the filter is there and is empty. A request without claims gets no context.
pub database_scope_filter-require_scope_context :
    (c : Option Claims) (load : ℕ → List UserScope)
    → database_scope_filter (require_scope_context c load) ≡ specified c load
unfolding database_scope_filter require_scope_context specified
database_scope_filter-require_scope_context none load = refl
database_scope_filter-require_scope_context (some c) load =
    elim (Bool-cases (is_unscoped_role c.role)) [
      | inl unscoped ↦ rw unscoped refl
      | inr scoped ↦ rw scoped (
          ap some
            (add_scopes_lem (load c.user_id) (record { location_ids = []; subnet_cidrs = [] })))
    ]
