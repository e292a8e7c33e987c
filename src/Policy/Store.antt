-- ===== src/Policy/Store.antt =====
-- `InMemoryPolicyAdminStore`: managed policies by their ids.
use birthub_360_innovation.Base.{
  String, Bool, ◌&&◌, List, if◌then◌else◌, str_eq, ◌≡◌, arith, Option-cases, inl, inr, eq_iff,
  Option, none, some, filter, opt_str_eq, Dict, lookup, insert, lookup-insert, map,
}
use birthub_360_innovation.Policy.{Rule}

pub record ManagedPolicy : Type 0 where
  pub rule : Rule
  pub name : String

abbrev pub PolicyStore : Type 0
PolicyStore = Dict ManagedPolicy

unfoldable pub list : PolicyStore → String → String → List ManagedPolicy
list store tenant_id agent_id =
    filter
      (λ p.
        opt_str_eq p.rule.tenant_id (some tenant_id) && opt_str_eq p.rule.agent_id (some agent_id))
      (map (λ e. e.1) store)

unfoldable pub upsert : ManagedPolicy → PolicyStore → PolicyStore × ManagedPolicy
upsert policy store = (insert policy.rule.id policy store, policy)

unfoldable pub toggle : String → Bool → PolicyStore → PolicyStore × Option ManagedPolicy
toggle policy_id enabled store = elim (lookup policy_id store) [
  | none ↦ (store, none)
  | some current ↦
      let updated = record current { rule = record (current.rule) { enabled = some enabled } } in
      (insert policy_id updated store, some updated)
]

-- Every policy stands under its own id.
abbrev pub IsKeyed : PolicyStore → Type 0
IsKeyed store = (k : String) (p : ManagedPolicy) → lookup k store ≡ some p → p.rule.id ≡ k

-- If every policy stands under its own id, then so it does after `upsert`.
pub upsert-IsKeyed :
    (policy : ManagedPolicy) (store : PolicyStore) → IsKeyed store → IsKeyed (upsert policy store).0
unfolding upsert
upsert-IsKeyed policy store h k p e =
    ground (arith, lookup-insert policy.rule.id k policy store, eq_iff policy.rule.id k, h k p)

-- If every policy stands under its own id, then so it does after `toggle`.
pub toggle-IsKeyed :
    (id : String) (enabled : Bool) (store : PolicyStore)
    → IsKeyed store
    → IsKeyed (toggle id enabled store).0
unfolding toggle
toggle-IsKeyed id enabled store h k p e = elim (Option-cases (lookup id store)) [
  | inl missing ↦ h k p (rw (missing, toggle) at e)
  | inr (q, found) ↦
      let updated = record q { rule = record (q.rule) { enabled = some enabled } } in
      ground (arith, lookup-insert id k updated store, eq_iff id k, h k p, h id q)
]

abbrev pub set_enabled : Bool → Option ManagedPolicy → Option ManagedPolicy
set_enabled enabled none = none
set_enabled enabled (some p) = some (record p { rule = record (p.rule) { enabled = some enabled } })

-- `toggle` answers the policy of the id with the flag set, and null for an unknown id; its answer is
-- what a lookup of the id then finds, and every other id keeps its policy.
pub toggle_lem :
    (id : String) (enabled : Bool) (store : PolicyStore) (k : String)
    → ((toggle id enabled store).1 ≡ set_enabled enabled (lookup id store))
      × (lookup k (toggle id enabled store).0
          ≡ (if str_eq id k then (toggle id enabled store).1 else lookup k store))
unfolding toggle
toggle_lem id enabled store k = elim (Option-cases (lookup id store)) [
  | inl missing ↦ (rw (missing, toggle), rw (missing, toggle) (ground (arith, eq_iff id k)))
  | inr (p, found) ↦ (rw (found, toggle), rw (found, toggle) (lookup-insert id k _ store))
]
