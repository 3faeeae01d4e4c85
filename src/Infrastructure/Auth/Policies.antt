-- ===== src/Infrastructure/Auth/Policies.antt =====
-- backend/src/app/infrastructure/authorization/policies.py
use ndma_edit.Prelude.{
  member-append, Text, List, [], ◌∷◌, ◌++◌, Bool, true, false, ◌&&◌, ◌||◌, Option, none, some, ◌≡◌,
  refl, ◌∙◌, arith, ◌==◌, text_eq, member, codes, if◌then◌else◌, text_eq→eq, Bool-cases, inl, inr,
}
use ndma_edit.Runtime.{Uuid}
use ndma_edit.Application.Context.{AuthContext, has_permission}

abbrev pub admin_permissions : List Text
admin_permissions = codes "users:read" ∷ codes "users:write" ∷ codes "users:deactivate" ∷ []

abbrev pub user_permissions : List Text
user_permissions = codes "users:read" ∷ []

-- `ROLE_PERMISSIONS.get(role, frozenset())`
unfoldable pub role_permissions : Text → List Text
role_permissions role =
    if text_eq role (codes "admin")
    then admin_permissions
    else if text_eq role (codes "user")
    then user_permissions
    else []

-- A set is a list, by its members.
unfoldable pub permissions_for_roles : List Text → List Text
unfolding role_permissions
permissions_for_roles [] = []
permissions_for_roles (role ∷ roles) = role_permissions role ++ permissions_for_roles roles

-- `context.user_id == resource_owner_id`
abbrev is_owner : Option Uuid → Uuid → Bool
is_owner none owner = false
is_owner (some u) owner = u == owner

unfoldable pub can_act_on_own_resource : AuthContext → Uuid → Text → Bool
can_act_on_own_resource context resource_owner_id or_permission =
    if is_owner context.user_id resource_owner_id
    then true
    else has_permission context or_permission

pub text_eq_comm : (s t : Text) → text_eq s t ≡ text_eq t s
unfolding text_eq
text_eq_comm [] [] = refl
text_eq_comm [] (d ∷ t) = refl
text_eq_comm (c ∷ s) [] = refl
text_eq_comm (c ∷ s) (d ∷ t) = rw (text_eq_comm s t) (ground arith)

-- What each of the two roles grants, over all roles of a caller.
abbrev pub grants : List Text → Text → Bool
grants roles p =
    (member (codes "admin") roles && member p admin_permissions)
    || (member (codes "user") roles && member p user_permissions)

grants-cons :
    (a u x y ra ru : Bool)
    → ((a && x || u && y) || (ra && x || ru && y)) ≡ ((a || ra) && x || (u || ru) && y)
grants-cons a u x y ra ru = ground arith

-- What one role grants.
role_permissions-grants :
    (role p : Text)
    → member p (role_permissions role) ≡ (
        text_eq (codes "admin") role && member p admin_permissions
        || text_eq (codes "user") role && member p user_permissions)
unfolding role_permissions text_eq codes member
role_permissions-grants role p = elim (Bool-cases (text_eq role (codes "admin"))) [
  | inl admin ↦ rw (text_eq→eq role (codes "admin") admin) (ground arith)
  | inr not_admin ↦
      rw (not_admin, text_eq_comm (codes "admin") role, not_admin)
        (elim (Bool-cases (text_eq role (codes "user"))) [
          | inl user ↦ rw (text_eq→eq role (codes "user") user) refl
          | inr not_user ↦ rw (not_user, text_eq_comm (codes "user") role, not_user) refl
        ])
]

-- A caller with some roles holds a permission if one of the roles is "admin" and the permission is an
-- administrator's, or one is "user" and it is an ordinary user's, and by no other role.
pub permissions_for_roles-grants :
    (roles : List Text) (p : Text) → member p (permissions_for_roles roles) ≡ grants roles p
unfolding permissions_for_roles member
permissions_for_roles-grants [] p = refl
permissions_for_roles-grants (role ∷ roles) p =
    member-append p (role_permissions role) (permissions_for_roles roles)
    ∙ rw (role_permissions-grants role p, permissions_for_roles-grants roles p)
        (grants-cons (text_eq (codes "admin") role) (text_eq (codes "user") role)
          (member p admin_permissions) (member p user_permissions) (member (codes "admin") roles)
          (member (codes "user") roles))
