-- ===== src/Dag/Sort/Relax.antt =====
-- The inner loop of `topologicalSort`: which nodes it puts in the queue.
use birthub_360_innovation.Base.{
  ℕ, ◌+◌, ◌-◌, ◌≤◌, ◌<◌, String, ◌&&◌, List, [], ◌∷◌, ◌++◌, ◌≡◌, ap, ◌∙◌, subst, inl, inr, arith,
  ltb, ◌==◌, if◌then◌else◌, bit, Bool-cases, str_eq, eq_iff, str_eq_refl, count, count-append, Dict,
  insert, lookup-insert,
}
use birthub_360_innovation.Base.Int.{ℤ, pos, pred_ℤ, is_zero}
use birthub_360_innovation.Dag.Sort.{degree, relax}

-- The in-degrees are natural numbers, as given by a function.
abbrev pub HasDegrees : Dict ℤ → (String → ℕ) → Type 0
HasDegrees indegree k = (v : String) → degree indegree v ≡ pos (k v)

abbrev pub minus : (String → ℕ) → String → String → ℕ
minus k t v = k v - bit (str_eq t v)

degree-insert :
    (t v : String) (d : Dict ℤ) (k : String → ℕ)
    → HasDegrees d k
    → 0 < k t
    → degree (insert t (pred_ℤ (degree d t)) d) v ≡ pos (minus k t v)
degree-insert t v d k h p = elim (Bool-cases (str_eq t v)) [
  | inl same ↦
      let e : t ≡ v = (eq_iff t v).0 same in
      rw (lookup-insert, same, h t)
        (subst (λ x. pred_ℤ (pos (k t)) ≡ pos (k x - 1)) e (ground arith))
  | inr other ↦ rw (lookup-insert, other, h v) (ap (λ n. pos n) (omega arith))
]

-- Each target's in-degree falls by one for each edge; a node enters the queue, once, exactly when its
-- last edge is taken away.
pub relax_lem :
    (ts queue : List String) (d : Dict ℤ) (k : String → ℕ)
    → HasDegrees d k
    → ((v : String) → count v ts ≤ k v)
    → HasDegrees (relax ts queue d).1 (λ v. k v - count v ts)
      × ((v : String)
          → count v (relax ts queue d).0
            ≡ count v queue + bit (ltb 0 (count v ts) && k v == count v ts))
unfolding relax
relax_lem [] queue d k h le = (λ v. h v ∙ ap (λ n. pos n) (omega arith), λ v. ground arith)
relax_lem (t ∷ ts) queue d k h le =
    let pos_t : 0 < k t = ground (arith, le t, str_eq_refl t) in
    let next = pred_ℤ (degree d t) in
    let q' = if is_zero next then queue ++ t ∷ [] else queue in
    let (degrees, counts) =
      relax_lem ts q' (insert t next d) (minus k t) (λ v. degree-insert t v d k h pos_t)
        (λ v. ground (arith, le v)) in
    (
      λ v. degrees v ∙ ap (λ n. pos n) (omega arith),
      λ v. ground (arith, counts v, h t, le v, eq_iff t v, count-append v queue (t ∷ [])),
    )
