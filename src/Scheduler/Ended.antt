-- ===== src/Scheduler/Ended.antt =====
-- A job that has ended stays as it is, whatever the threads do.
use muesli_bt.Common.{
  ℕ, ◌≡◌, refl, sym, ◌∙◌, ap, subst, ◌⊎◌, inl, inr, Bool, true, false, Bool-cases, Option, none,
  some, List, [], ◌∷◌, ◌==◌, ==→eq, ok-injective, arith,
}
use muesli_bt.Runtime.Status.{JobStatus, queued, running, done, failed, cancelled, unknown}
use muesli_bt.Runtime.State.{Called, returned, threw, threw_other}
use muesli_bt.Runtime.Cleared.{updated_elsewhere, apart}
use muesli_bt.Scheduler.{
  Job, Pool, submit, cancel_job, cancel_found, cancel, start_job, take_job, take_from, end_returned,
  end_failed, end_job, Step, submits, cancels, takes, ends, stops, Steps, no_steps, step,
  empty_pool,
}
use muesli_bt.Scheduler.Counted.{IsCounted, IsWaiting, IsQueue, in_use}
use muesli_bt.Scheduler.Accounting.{Steps-IsCounted}

abbrev pub IsEnded : JobStatus → Type 0
IsEnded done = Unit
IsEnded failed = Unit
IsEnded cancelled = Unit
IsEnded _ = ⊥

some_injective : {A : Type 0} {a b : A} → some a ≡ some b → a ≡ b
some_injective e = cc

not_ended : {st st' : JobStatus} → st ≡ st' → IsEnded st → ¬ IsEnded st' → ⊥
not_ended e h k = k (subst IsEnded e h)

module _ {F A : Type 0} where
  cancel_job-elsewhere :
      (now i id : ℕ) (st : JobStatus) (job : Job F A) (p : Pool F A)
      → ¬ (i ≡ id)
      → (cancel_job now i st job p).1.jobs id ≡ p.jobs id
  unfolding cancel_job
  cancel_job-elsewhere now i id done job p d = refl
  cancel_job-elsewhere now i id failed job p d = refl
  cancel_job-elsewhere now i id cancelled job p d = refl
  cancel_job-elsewhere now i id queued job p d = updated_elsewhere p.jobs i id _ d
  cancel_job-elsewhere now i id running job p d = updated_elsewhere p.jobs i id _ d
  cancel_job-elsewhere now i id unknown job p d = updated_elsewhere p.jobs i id _ d

  cancel_job-ended :
      (now id : ℕ) (st : JobStatus) (job : Job F A) (p : Pool F A)
      → IsEnded st
      → (cancel_job now id st job p).1 ≡ p
  unfolding cancel_job
  cancel_job-ended now id done job p h = refl
  cancel_job-ended now id failed job p h = refl
  cancel_job-ended now id cancelled job p h = refl
  cancel_job-ended now id queued job p h = elim h [ ]
  cancel_job-ended now id running job p h = elim h [ ]
  cancel_job-ended now id unknown job p h = elim h [ ]

  cancel_found-elsewhere :
      (now i id : ℕ) (o : Option (Job F A)) (p : Pool F A)
      → ¬ (i ≡ id)
      → (cancel_found now i o p).1.jobs id ≡ p.jobs id
  unfolding cancel_found
  cancel_found-elsewhere now i id none p d = refl
  cancel_found-elsewhere now i id (some job) p d = cancel_job-elsewhere now i id job.status job p d

  cancel-ended :
      (now i id : ℕ) (job : Job F A) (p : Pool F A)
      → p.jobs id ≡ some job
      → IsEnded job.status
      → (cancel now i p).1.jobs id ≡ some job
  unfolding cancel cancel_found
  cancel-ended now i id job p at h = elim (Bool-cases (id == i)) [
    | inl e ↦
        let same : p.jobs i ≡ some job = ap p.jobs (sym (==→eq id i e)) ∙ at in
        rw (same, cancel_found)
          (ap (λ q. q.jobs id) (cancel_job-ended now i job.status job p h) ∙ at)
    | inr e ↦ cancel_found-elsewhere now i id (p.jobs i) p (apart e) ∙ at
  ]

  start_job-elsewhere :
      (now i id : ℕ) (st : JobStatus) (job : Job F A) (p : Pool F A)
      → ¬ (i ≡ id)
      → (start_job now i st job p).1.jobs id ≡ p.jobs id
  unfolding start_job
  start_job-elsewhere now i id cancelled job p d = refl
  start_job-elsewhere now i id done job p d = updated_elsewhere p.jobs i id _ d
  start_job-elsewhere now i id failed job p d = updated_elsewhere p.jobs i id _ d
  start_job-elsewhere now i id queued job p d = updated_elsewhere p.jobs i id _ d
  start_job-elsewhere now i id running job p d = updated_elsewhere p.jobs i id _ d
  start_job-elsewhere now i id unknown job p d = updated_elsewhere p.jobs i id _ d

  start_job-ended :
      (now id : ℕ) (st : JobStatus) (job : Job F A) (p : Pool F A)
      → (st ≡ queued) ⊎ (st ≡ cancelled)
      → IsEnded st
      → (start_job now id st job p).1 ≡ p
  unfolding start_job
  start_job-ended now id cancelled job p w h = refl
  start_job-ended now id done job p w h = elim w [ inl e ↦ cc | inr e ↦ cc ]
  start_job-ended now id failed job p w h = elim w [ inl e ↦ cc | inr e ↦ cc ]
  start_job-ended now id queued job p w h = elim h [ ]
  start_job-ended now id running job p w h = elim h [ ]
  start_job-ended now id unknown job p w h = elim h [ ]

  take_job-elsewhere :
      (now i id : ℕ) (o : Option (Job F A)) (p : Pool F A)
      → ¬ (i ≡ id)
      → (take_job now i o p).1.jobs id ≡ p.jobs id
  unfolding take_job
  take_job-elsewhere now i id none p d = refl
  take_job-elsewhere now i id (some job) p d = start_job-elsewhere now i id job.status job p d

  take_from-ended :
      (now id : ℕ) (job : Job F A) (ids : List ℕ) (p : Pool F A)
      → IsQueue p 0 ids
      → p.jobs id ≡ some job
      → IsEnded job.status
      → (take_from now ids p).1.jobs id ≡ some job
  unfolding take_from take_job
  take_from-ended now id job [] p queue at h = at
  take_from-ended now id job (i ∷ rest) p (above, waits, queue) at h = elim (Bool-cases (id == i)) [
    | inl e ↦
        let same : p.jobs i ≡ some job = ap p.jobs (sym (==→eq id i e)) ∙ at in
        rw (same, take_job)
          (ap (λ q. q.jobs id)
              (start_job-ended now i job.status job (record p { queue = rest })
                (subst IsWaiting same waits) h)
            ∙ at)
    | inr e ↦ take_job-elsewhere now i id (p.jobs i) (record p { queue = rest }) (apart e) ∙ at
  ]

  end_job-elsewhere :
      (now i id : ℕ) (outcome : Called A) (job : Job F A) (p : Pool F A)
      → ¬ (i ≡ id)
      → (end_job now i outcome job p).jobs id ≡ p.jobs id
  unfolding end_job end_returned end_failed
  end_job-elsewhere now i id (returned a) job p d = by_request job.cancel_requested
    where
      by_request : (b : Bool) → (end_returned now i a b job p).jobs id ≡ p.jobs id
      by_request true = updated_elsewhere p.jobs i id _ d
      by_request false = updated_elsewhere p.jobs i id _ d
  end_job-elsewhere now i id (threw what) job p d = updated_elsewhere p.jobs i id _ d
  end_job-elsewhere now i id threw_other job p d = updated_elsewhere p.jobs i id _ d

  Step-ended :
      {p q : Pool F A} (id : ℕ) (job : Job F A)
      → Step p q
      → IsCounted p
      → p.jobs id ≡ some job
      → IsEnded job.status
      → q.jobs id ≡ some job
  unfolding submit
  Step-ended id job (submits now name fn p q new e) c at h =
      ap (λ x. x.1.jobs id) (sym (ok-injective e))
      ∙ updated_elsewhere p.jobs p.next_job_id id _
          (λ d. absurd (omega (arith, d, in_use p id c at)))
      ∙ at
  Step-ended id job (cancels now i p) c at h = cancel-ended now i id job p at h
  Step-ended id job (takes now p) c at h = take_from-ended now id job p.queue p c.waiting at h
  Step-ended id job (ends now i outcome other p at' e) c at h =
      end_job-elsewhere now i id outcome other p (λ d.
        not_ended (ap (λ j. j.status) (some_injective (sym at ∙ ap p.jobs (sym d) ∙ at')) ∙ e) h
          (λ x. x))
      ∙ at
  Step-ended id job (stops p) c at h = at

  -- Once a job has ended in a pool that the threads have reached, no step of any thread changes it: not
  -- its status, not its result and not its times. In particular a job that was cancelled while it was
  -- queued never runs.
  pub Steps-ended :
      {p q : Pool F A} (id : ℕ) (job : Job F A)
      → Steps empty_pool p
      → Steps p q
      → p.jobs id ≡ some job
      → IsEnded job.status
      → q.jobs id ≡ some job
  Steps-ended id job reached no_steps at h = at
  Steps-ended id job reached (step before last) at h =
      Step-ended id job last (Steps-IsCounted (join reached before))
        (Steps-ended id job reached before at h) h
    where
      join : {p q r : Pool F A} → Steps p q → Steps q r → Steps p r
      join a no_steps = a
      join a (step b s) = step (join a b) s
