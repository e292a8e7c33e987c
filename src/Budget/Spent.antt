-- ===== src/Budget/Spent.antt =====
-- What the rows and the events say that an agent has spent.
use birthub_360_innovation.Base.{
  ℕ, ◌+◌, String, Bool, true, false, ◌&&◌, List, [], ◌∷◌, ◌++◌, Option, none, some, ◌≡◌, refl, ap,
  ◌∙◌, inl, inr, arith, if◌then◌else◌, Bool-cases, str_eq, eq_iff, find,
}
use birthub_360_innovation.Budget.{to_fixed, Kind, AgentBudget, BudgetEvent}
use birthub_360_innovation.Budget.Consume.{is_row, upsert}

-- The row of a tenant's agent, and what it has spent; an agent with no row has spent nothing.
abbrev pub row_of : String → String → List AgentBudget → Option AgentBudget
row_of tenant_id agent_id rows = find (is_row tenant_id agent_id) rows

abbrev pub consumed_of : Option AgentBudget → ℕ
consumed_of none = 0
consumed_of (some r) = r.consumed

abbrev pub spent : String → String → List AgentBudget → ℕ
spent tenant_id agent_id rows = consumed_of (row_of tenant_id agent_id rows)

consumed_of-if :
    (b : Bool) (r : AgentBudget) (o : Option AgentBudget)
    → consumed_of (if b then some r else o) ≡ (if b then r.consumed else consumed_of o)
consumed_of-if true r o = refl
consumed_of-if false r o = refl

consumed-elim :
    (new : AgentBudget) (change : AgentBudget → AgentBudget) (o : Option AgentBudget) (n : ℕ)
    → new.consumed ≡ n
    → ((r : AgentBudget) → o ≡ some r → (change r).consumed ≡ n)
    → (elim o as (λ x. AgentBudget) [ none ↦ new | some r ↦ change r ]).consumed ≡ n
consumed-elim new change none n h c = h
consumed-elim new change (some r) n h c = c r refl

consumed-same :
    (new : AgentBudget) (o : Option AgentBudget)
    → new.consumed ≡ 0
    → (elim o as (λ x. AgentBudget) [ none ↦ new | some r ↦ r ]).consumed ≡ consumed_of o
consumed-same new none h = h
consumed-same new (some r) h = refl

-- The event says that the tenant's agent was charged.
abbrev pub is_charge : String → String → BudgetEvent → Bool
is_charge tenant_id agent_id e =
    str_eq e.tenant_id tenant_id
    && str_eq e.agent_id agent_id
    && (elim e.kind [ Kind.consume ↦ true | _ ↦ false ])

-- What a tenant's agent that had spent an amount has spent after the events: each cost is added in its
-- turn, and the sum rounded.
abbrev pub replay : String → String → List BudgetEvent → ℕ → ℕ
replay tenant_id agent_id [] amount = amount
replay tenant_id agent_id (e ∷ es) amount =
    replay tenant_id agent_id es
      (if is_charge tenant_id agent_id e then to_fixed (amount + e.cost) else amount)

pub replay-append :
    (t a : String) (es fs : List BudgetEvent) (amount : ℕ)
    → replay t a (es ++ fs) amount ≡ replay t a fs (replay t a es amount)
replay-append t a [] fs amount = refl
replay-append t a (e ∷ es) fs amount =
    replay-append t a es fs (if is_charge t a e then to_fixed (amount + e.cost) else amount)

abbrev pub Keeps : (AgentBudget → AgentBudget) → Type 0
Keeps change =
    (r : AgentBudget) → ((change r).tenant_id ≡ r.tenant_id) × ((change r).agent_id ≡ r.agent_id)

row-upsert :
    (new : AgentBudget) (change : AgentBudget → AgentBudget) (rows : List AgentBudget)
    → (upsert new change rows).1
      ≡ (elim (row_of new.tenant_id new.agent_id rows) [ none ↦ new | some r ↦ change r ])
unfolding upsert
row-upsert new change [] = refl
row-upsert new change (r ∷ rs) = ground (arith, row-upsert new change rs)

row_of-upsert :
    (t a : String) (new : AgentBudget) (change : AgentBudget → AgentBudget)
    (rows : List AgentBudget)
    → Keeps change
    → row_of t a (upsert new change rows).0
      ≡ (if is_row t a new then some (upsert new change rows).1 else row_of t a rows)
unfolding upsert
row_of-upsert t a new change [] k = refl
row_of-upsert t a new change (r ∷ rs) k = elim (Bool-cases (is_row new.tenant_id new.agent_id r)) [
  | inl here ↦
      let p : (change r).tenant_id ≡ new.tenant_id =
        (k r).0 ∙ (eq_iff r.tenant_id new.tenant_id).0 (ground arith) in
      let q : (change r).agent_id ≡ new.agent_id =
        (k r).1 ∙ (eq_iff r.agent_id new.agent_id).0 (ground arith) in
      let x : r.tenant_id ≡ new.tenant_id = (eq_iff r.tenant_id new.tenant_id).0 (ground arith) in
      let y : r.agent_id ≡ new.agent_id = (eq_iff r.agent_id new.agent_id).0 (ground arith) in
      let changed : is_row t a (change r) ≡ is_row t a new =
        λ i. is_row t a (record new { tenant_id = p i; agent_id = q i }) in
      let old : is_row t a r ≡ is_row t a new =
        λ i. is_row t a (record new { tenant_id = x i; agent_id = y i }) in
      rw (here, upsert) (ground (arith, changed, old))
  | inr there ↦
      rw (there, upsert)
        (ground (
          arith,
          there,
          row_of-upsert t a new change rs k,
          eq_iff r.tenant_id t,
          eq_iff r.agent_id a,
          eq_iff new.tenant_id t,
          eq_iff new.agent_id a,
          eq_iff r.tenant_id new.tenant_id,
          eq_iff r.agent_id new.agent_id,
        ))
]

module _ (new : AgentBudget) (change : AgentBudget → AgentBudget) (rows : List AgentBudget)
    (k : Keeps change) where
  pub spent-upsert :
      (t a : String)
      → spent t a (upsert new change rows).0
        ≡ (if is_row t a new then ((upsert new change rows).1).consumed else spent t a rows)
  spent-upsert t a =
      ap consumed_of (row_of-upsert t a new change rows k)
      ∙ consumed_of-if (is_row t a new) (upsert new change rows).1 (row_of t a rows)

  pub consumed-upsert :
      (n : ℕ)
      → new.consumed ≡ n
      → ((r : AgentBudget) → (change r).consumed ≡ n)
      → ((upsert new change rows).1).consumed ≡ n
  consumed-upsert n h c =
      ap (λ r. r.consumed) (row-upsert new change rows)
      ∙ consumed-elim new change (row_of new.tenant_id new.agent_id rows) n h (λ r e. c r)

-- The row that `upsert` finds or makes, unchanged.
module _ (new : AgentBudget) (rows : List AgentBudget) where
  pub consumed-found :
      new.consumed ≡ 0
      → ((upsert new (λ r. r) rows).1).consumed ≡ spent new.tenant_id new.agent_id rows
  consumed-found h =
      ap (λ r. r.consumed) (row-upsert new (λ r. r) rows)
      ∙ consumed-same new (row_of new.tenant_id new.agent_id rows) h

  pub spent-found :
      (t a : String) → new.consumed ≡ 0 → spent t a (upsert new (λ r. r) rows).0 ≡ spent t a rows
  spent-found t a h = elim (Bool-cases (is_row t a new)) [
    | inl same ↦
        let p : new.tenant_id ≡ t = (eq_iff new.tenant_id t).0 (ground arith) in
        let q : new.agent_id ≡ a = (eq_iff new.agent_id a).0 (ground arith) in
        rw (spent-upsert new (λ r. r) rows (λ r. (refl, refl)) t a, same)
          (consumed-found h ∙ (λ i. spent (p i) (q i) rows))
    | inr other ↦ rw (spent-upsert new (λ r. r) rows (λ r. (refl, refl)) t a, other)
  ]

pub names-found :
    (new : AgentBudget) (rows : List AgentBudget)
    → (((upsert new (λ r. r) rows).1).tenant_id ≡ new.tenant_id)
      × (((upsert new (λ r. r) rows).1).agent_id ≡ new.agent_id)
unfolding upsert
names-found new [] = (refl, refl)
names-found new (r ∷ rs) = elim (Bool-cases (is_row new.tenant_id new.agent_id r)) [
  | inl here ↦
      rw (here, upsert)
        (
          (eq_iff r.tenant_id new.tenant_id).0 (ground arith),
          (eq_iff r.agent_id new.agent_id).0 (ground arith),
        )
  | inr there ↦ rw (there, upsert) (names-found new rs)
]
