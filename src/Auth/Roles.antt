-- ===== src/Auth/Roles.antt =====
-- Roles, the resolution of a tenant for a user, and the changes of users with their audit rows.
use birthub_360_innovation.Base.{
  update_where, ℕ, String, Bool, true, false, ◌&&◌, [], ◌∷◌, ◌++◌, Option, none, some, leb, get_or,
  if◌then◌else◌, str_eq, find,
}
use birthub_360_innovation.Base.Result.{Result, ok, err}
use birthub_360_innovation.Auth.{
  Role, super_admin, owner, admin, member, readonly, Membership, User, UserStatus, Store, AuthError,
  user_not_found, membership_not_found, user_suspended, role_updated, is_active_membership,
}
use birthub_360_innovation.Auth.ApiKeys.{resolve_tenant_id_for_organization}
use birthub_360_innovation.Auth.Request.{find_organization_by_reference, find_user}

unfoldable pub role_priority : Role → ℕ
role_priority super_admin = 5
role_priority owner = 4
role_priority admin = 3
role_priority member = 2
role_priority readonly = 1

unfoldable pub can_manage_role : Role → Role → Bool
can_manage_role super_admin target = true
can_manage_role owner target = true
can_manage_role admin member = true
can_manage_role admin readonly = true
can_manage_role _ _ = false

unfoldable pub find_membership : String → String → Store → Option Membership
find_membership organization_id user_id s =
    find (λ m. str_eq m.organization_id organization_id && str_eq m.user_id user_id) s.memberships

unfoldable pub get_role_for_user : String → String → Store → Option Role
get_role_for_user organization_id user_id s = elim (find_membership organization_id user_id s) [
  | none ↦ none
  | some m ↦ if is_active_membership m.status then some m.role else none
]

unfoldable pub assert_role : Role → String → String → Store → Bool
assert_role minimum_role organization_id user_id s =
    elim (get_role_for_user organization_id user_id s) [
      | none ↦ false
      | some role ↦ leb (role_priority minimum_role) (role_priority role)
    ]

pub data TenantContext : Type 0 where
  forbidden not_found : TenantContext
  authorized : String → Role → String → Option String → TenantContext

unfoldable pub resolve_authorized_tenant_context : String → String → Store → TenantContext
resolve_authorized_tenant_context tenant_reference user_id s =
    elim (find_organization_by_reference tenant_reference s) [
      | none ↦ not_found
      | some o ↦ elim (find_membership o.id user_id s) [
        | none ↦ forbidden
        | some m ↦
            if is_active_membership m.status
            then authorized o.id m.role o.tenant_id o.slug
            else forbidden
      ]
    ]

unfoldable pub suspend : ℕ → User → User
suspend time u = record u { status = UserStatus.suspended; suspended_at = some time }

unfoldable pub suspend_user : ℕ → String → String → String → Store → Result AuthError Store
suspend_user time actor_user_id organization_id target_user_id s =
    elim (find_user target_user_id s) [
      | none ↦ err user_not_found
      | some before ↦ ok (record s {
        users = update_where (λ u. str_eq u.id target_user_id) (suspend time) s.users;
        audit =
            s.audit
            ++ record {
              actor_id = actor_user_id;
              change = user_suspended before.status;
              entity_id = target_user_id;
              tenant_id =
                  get_or (resolve_tenant_id_for_organization organization_id s) organization_id;
            }
              ∷ [];
      })
    ]

unfoldable pub update_user_role_with_audit :
    String → String → Role → String → Store → Result AuthError Store
update_user_role_with_audit actor_user_id organization_id role target_user_id s =
    elim (find_membership organization_id target_user_id s) [
      | none ↦ err membership_not_found
      | some before ↦ ok (record s {
        memberships =
            update_where
              (λ m. str_eq m.organization_id organization_id && str_eq m.user_id target_user_id)
              (λ m. record m { role = role }) s.memberships;
        audit =
            s.audit
            ++ record {
              actor_id = actor_user_id;
              change = role_updated before.role role;
              entity_id = target_user_id;
              tenant_id =
                  get_or (resolve_tenant_id_for_organization organization_id s) organization_id;
            }
              ∷ [];
      })
    ]
