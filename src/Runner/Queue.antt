-- ===== src/Runner/Queue.antt =====
-- What adding jobs leaves of the store: `executionQueue.add` in apps/worker/src/engine/runner.ts.
use birthub_360_innovation.Base.{
  ◌<◌, String, false, List, [], ◌∷◌, ◌++◌, ◌≡◌, refl, sym, ◌∙◌, inl, inr, arith, Bool-cases, str_eq,
  any, length, length-append, All, append-nil, append_assoc,
}
use birthub_360_innovation.Runner.{Store, QueuedJob, add_job, add_jobs}

pub add_jobs-executions :
    (jobs : List QueuedJob) (s : Store) → (add_jobs jobs s).executions ≡ s.executions
unfolding add_jobs add_job
add_jobs-executions [] s = refl
add_jobs-executions (j ∷ js) s =
    add_jobs-executions js (add_job j s) ∙ elim (Bool-cases (any (str_eq j.job_id) s.held)) [
      | inl old ↦ rw (old, add_job)
      | inr new ↦ rw (new, add_job)
    ]

-- The queue grows by some of the jobs.
pub add_jobs-queue {ℓ} :
    (P : QueuedJob → Type ℓ) (jobs : List QueuedJob) (s : Store)
    → All P jobs
    → (added : List QueuedJob) × ((add_jobs jobs s).queue ≡ s.queue ++ added) × All P added
unfolding add_jobs add_job
add_jobs-queue P [] s h = ([], sym (append-nil s.queue), tt)
add_jobs-queue P (j ∷ js) s h = elim (Bool-cases (any (str_eq j.job_id) s.held)) [
  | inl old ↦
      let (added, q, all) = add_jobs-queue P js s h.1 in (added, rw (old, add_job, add_jobs) q, all)
  | inr new ↦
      let s' : Store = record s { queue = s.queue ++ j ∷ []; held = s.held ++ j.job_id ∷ [] } in
      let (added, q, all) = add_jobs-queue P js s' h.1 in
      (j ∷ added, rw (new, add_job, add_jobs) (q ∙ append_assoc s.queue (j ∷ []) added), (h.0, all))
]

-- No job is under an id that the queue holds.
abbrev pub AreFree : List String → List QueuedJob → Type 0
AreFree held = All (λ j. any (str_eq j.job_id) held ≡ false)

pub add_jobs-longer :
    (jobs : List QueuedJob) (s : Store)
    → AreFree s.held jobs
    → 0 < length jobs
    → length s.queue < length (add_jobs jobs s).queue
unfolding add_jobs add_job
add_jobs-longer [] s free some_jobs = absurd (omega (arith, some_jobs))
add_jobs-longer (j ∷ js) s free some_jobs =
    let s' : Store = record s { queue = s.queue ++ j ∷ []; held = s.held ++ j.job_id ∷ [] } in
    let (added, q, all) = add_jobs-queue (λ j. j ≡ j) js s' (All-refl js) in
    rw (free.0, add_job, add_jobs, q)
      (omega (arith, length-append s'.queue added, length-append s.queue (j ∷ [])))
  where
    All-refl : (js : List QueuedJob) → All (λ j. j ≡ j) js
    All-refl [] = tt
    All-refl (j ∷ js) = (refl, All-refl js)
