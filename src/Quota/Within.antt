-- ===== src/Quota/Within.antt =====
-- What `checkAndConsume` does to the count of the month.
use birthub_360_innovation.Base.{
  ℕ, ◌+◌, ◌≤◌, ◌<◌, String, true, false, ◌&&◌, ◌⊎◌, List, [], ◌∷◌, ◌++◌, Option, none, some, ◌≡◌,
  refl, sym, ap, ◌∙◌, inl, inr, arith, ltb, ◌==◌, Bool-cases, Option-cases, str_eq, str_eq_refl,
  find, find-append, find-update_where,
}
use birthub_360_innovation.Base.Result.{Result, ok, err}
use birthub_360_innovation.Runner.{
  ResourceType, ai_prompts, api_requests, emails_sent, storage_gb, workflow_runs,
}
use birthub_360_innovation.Quota.{QuotaRow, Store, QuotaError, exceeded, refused, Host}
use birthub_360_innovation.Quota.Consume.{
  resource_number, resolve_tenant_id, current_monthly_period, next_monthly_reset, resolve_limit,
  is_quota, current_quota, check_and_consume, max_int, fits, is_known,
}

-- The count of a found row, or 0.
abbrev pub counted : Option QuotaRow → ℕ
counted none = 0
counted (some q) = q.count

abbrev pub quota_of : Host → ℕ → String → ResourceType → Store → List QuotaRow → Option QuotaRow
quota_of host time reference resource_type s =
    find (is_quota (current_monthly_period host time) resource_type (resolve_tenant_id reference s))

-- What is used of the resource in the month of the time.
abbrev pub used : Host → ℕ → String → ResourceType → Store → List QuotaRow → ℕ
used host time reference resource_type s rows =
    counted (quota_of host time reference resource_type s rows)

resource_number_refl : (r : ResourceType) → (resource_number r == resource_number r) ≡ true
resource_number_refl ai_prompts = refl
resource_number_refl api_requests = refl
resource_number_refl emails_sent = refl
resource_number_refl storage_gb = refl
resource_number_refl workflow_runs = refl

module _ (host : Host) (time : ℕ) (new_id reference : String) (resource_type : ResourceType)
    (s : Store) where
  -- The row is the one that is then found, with the count as it was and the limit of the day.
  abbrev IsCurrent : Store → QuotaRow → Type 0
  IsCurrent found quota =
      (quota_of host time reference resource_type s found.quotas ≡ some quota)
      × (quota.count ≡ used host time reference resource_type s s.quotas)
      × (quota.limit ≡ resolve_limit host reference resource_type)

  -- Why the database refuses a row: the limit does not fit, or there is neither a row nor the tenant.
  abbrev pub IsRefused : Type 0
  IsRefused =
      (max_int < resolve_limit host reference resource_type)
      ⊎ ((quota_of host time reference resource_type s s.quotas ≡ none)
          × (is_known (resolve_tenant_id reference s) s ≡ false))

  abbrev Current : Result QuotaError (Store × QuotaRow) → Type 0
  Current (ok (found, quota)) = IsCurrent found quota
  Current (err e) = (e ≡ refused) × IsRefused

  current_quota_lem : Current (current_quota host time new_id reference resource_type s)
  unfolding current_quota
  current_quota_lem =
      let p =
        is_quota (current_monthly_period host time) resource_type (resolve_tenant_id reference s) in
      let limit = resolve_limit host reference resource_type in
      elim (Option-cases (quota_of host time reference resource_type s s.quotas)) [
        | inl missing ↦
            elim (Bool-cases (fits limit && is_known (resolve_tenant_id reference s) s)) [
              | inl fine ↦
                  rw (missing, fine, current_quota)
                    (fresh_row missing, sym (ap counted missing), refl)
              | inr bad ↦ rw (missing, bad, current_quota) (refl, why missing bad)
            ]
        | inr (q, there) ↦ elim (Bool-cases (q.limit == limit)) [
          | inl same ↦
              rw (there, same, current_quota) (there, sym (ap counted there), ground (arith, same))
          | inr old ↦ elim (Bool-cases (fits limit)) [
            | inr bad ↦ rw (there, old, bad, current_quota) (refl, inl (ground (arith, bad)))
            | inl fine ↦
                rw (there, old, fine, current_quota)
                  (
                    find-update_where p (λ x. str_eq x.id q.id) (λ x. record x { limit = limit })
                          (λ x. refl) s.quotas
                        ∙ rw (there, str_eq_refl q.id),
                    sym (ap counted there),
                    refl,
                  )
          ]
        ]
      ]
    where
      why :
          quota_of host time reference resource_type s s.quotas ≡ none
          → (fits (resolve_limit host reference resource_type)
              && is_known (resolve_tenant_id reference s) s)
            ≡ false
          → IsRefused
      why missing bad = elim (Bool-cases (fits (resolve_limit host reference resource_type))) [
        | inr over ↦ inl (ground (arith, over))
        | inl fine ↦ inr (missing, ground (arith, fine, bad))
      ]

      fresh : QuotaRow
      fresh = record {
        id = new_id;
        tenant_id = resolve_tenant_id reference s;
        resource_type = resource_type;
        period = current_monthly_period host time;
        count = 0;
        limit = resolve_limit host reference resource_type;
        reset_at = next_monthly_reset host time;
      }

      fresh_row :
          quota_of host time reference resource_type s s.quotas ≡ none
          → quota_of host time reference resource_type s (s.quotas ++ fresh ∷ []) ≡ some fresh
      fresh_row missing =
          find-append
            (is_quota (current_monthly_period host time) resource_type
              (resolve_tenant_id reference s))
            s.quotas (fresh ∷ [])
          ∙ rw (
            missing,
            str_eq_refl (current_monthly_period host time),
            resource_number_refl resource_type,
            str_eq_refl (resolve_tenant_id reference s),
          )

  -- What the answer says of the amount: a row, or the error.
  abbrev pub Outcome : ℕ → List QuotaRow → Result QuotaError QuotaRow → Type 0
  Outcome amount after (ok q) =
      (used host time reference resource_type s s.quotas + amount
        ≤ resolve_limit host reference resource_type)
      × (quota_of host time reference resource_type s after ≡ some q)
      × (q.count ≡ used host time reference resource_type s s.quotas + amount)
  Outcome amount after (err (exceeded x)) =
      (resolve_limit host reference resource_type
        < used host time reference resource_type s s.quotas + amount)
      × (used host time reference resource_type s after
          ≡ used host time reference resource_type s s.quotas)
  Outcome amount after (err refused) = IsRefused × (after ≡ s.quotas)

  -- Where `checkAndConsume` answers, what is used in the month is, with the amount, within the limit of the
  -- day, the amount is added to what is used, and the row that is answered is the one that is kept. Where
  -- it throws that the quota is exceeded, they are above the limit, and what is used stays. Where it throws
  -- for another reason, the limit does not fit its column, or there is neither a row of the month nor the
  -- tenant, and no row changes.
  pub check_and_consume_lem :
      (amount : ℕ)
      → Outcome amount
          (check_and_consume host time new_id reference resource_type amount s).0.quotas
          (check_and_consume host time new_id reference resource_type amount s).1
  unfolding check_and_consume
  check_and_consume_lem amount =
      go (current_quota host time new_id reference resource_type s) refl current_quota_lem
    where
      Goal : Type 0
      Goal =
          Outcome amount
            (check_and_consume host time new_id reference resource_type amount s).0.quotas
            (check_and_consume host time new_id reference resource_type amount s).1

      answered :
          (found : Store) (quota : QuotaRow)
          → current_quota host time new_id reference resource_type s ≡ ok (found, quota)
          → IsCurrent found quota
          → Goal
      answered found quota e (there, same, limit) =
          elim (Bool-cases (ltb quota.limit (quota.count + amount))) [
            | inl over ↦
                rw (e, over, check_and_consume)
                  (ground (arith, over, same, limit), ap counted there ∙ same)
            | inr room ↦
                rw (e, room, check_and_consume)
                  (
                    ground (arith, room, same, limit),
                    find-update_where
                          (is_quota (current_monthly_period host time) resource_type
                            (resolve_tenant_id reference s))
                          (λ x. str_eq x.id quota.id) (λ x. record x { count = x.count + amount })
                          (λ x. refl) found.quotas
                        ∙ rw (there, str_eq_refl quota.id),
                    ap (λ n. n + amount) same,
                  )
          ]

      go :
          (r : Result QuotaError (Store × QuotaRow))
          → current_quota host time new_id reference resource_type s ≡ r
          → Current r
          → Goal
      go (ok (found, quota)) e h = answered found quota e h
      go (err refused) e h = rw (e, check_and_consume) (h.1, refl)
      go (err (exceeded x)) e h = absurd (cc (h.0))
