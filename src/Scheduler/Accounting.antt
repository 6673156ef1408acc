-- ===== src/Scheduler/Accounting.antt =====
-- Every section of the scheduler keeps the counters in step with the jobs.
use muesli_bt.Common.{
  ℕ, suc, ◌≡◌, refl, sym, ◌∙◌, ap, subst, ◌⊎◌, inl, inr, Bool, true, false, Bool-cases, Option,
  none, some, List, [], ◌∷◌, ◌==◌, ==→eq, ok-injective, arith, Text, codes,
}
use muesli_bt.Runtime.Status.{JobStatus, queued, running, done, failed, cancelled, unknown}
use muesli_bt.Runtime.State.{returned, threw, threw_other, update}
use muesli_bt.Runtime.Cleared.{updated_elsewhere}
use muesli_bt.Scheduler.{
  Job, queued_job, Pool, observe, submit, cancel_job, cancel_found, cancel, start_job, take_job,
  take_from, end_returned, end_failed, end_job, Step, submits, cancels, takes, ends, stops, Steps,
  no_steps, step, empty_pool,
}
use muesli_bt.Scheduler.Counted.{
  IsCounted, IsWaiting, IsQueue, changed, IsQueue-maps, IsQueue-keeps, IsQueue-weaken,
  submit-IsCounted, empty_pool-IsCounted,
}

pub not_waiting :
    {now st : JobStatus}
    → (now ≡ queued) ⊎ (now ≡ cancelled)
    → now ≡ st
    → ¬ (queued ≡ st)
    → ¬ (cancelled ≡ st)
    → ⊥
not_waiting (inl q) e not_queued not_cancelled = not_queued (sym q ∙ e)
not_waiting (inr q) e not_queued not_cancelled = not_cancelled (sym q ∙ e)

module _ {F A : Type 0} where
  -- A change of job `id` keeps the jobs that wait, if it keeps `id` waiting.
  waits_on :
      (p : Pool F A) (id : ℕ) (job' : Job F A)
      → (IsWaiting (p.jobs id) → IsWaiting (some job'))
      → (i : ℕ) → IsWaiting (p.jobs i)
      → IsWaiting (update p.jobs id (some job') i)
  waits_on p id job' h i w = elim (Bool-cases (i == id)) [
    | inl e ↦ rw e (h (subst (λ k. IsWaiting (p.jobs k)) (==→eq i id e) w))
    | inr e ↦ rw e w
  ]

  cancel_job-IsCounted :
      (now id : ℕ) (st : JobStatus) (job : Job F A) (p : Pool F A)
      → IsCounted p
      → p.jobs id ≡ some job
      → job.status ≡ st
      → IsCounted (cancel_job now id st job p).1
  unfolding cancel_job
  cancel_job-IsCounted now id done job p c at e = c
  cancel_job-IsCounted now id failed job p c at e = c
  cancel_job-IsCounted now id cancelled job p c at e = c
  cancel_job-IsCounted now id queued job p c at e =
      let q = (cancel_job now id queued job p).1 in
      let job' : Job F A = record job {
        cancel_requested = true;
        status = cancelled;
        finished_at = now;
      } in
      changed p q id job job' queued cancelled c at e refl refl refl refl refl refl (omega arith)
        refl refl refl
        (IsQueue-maps p q 0 p.queue refl (waits_on p id job' (λ w. inr refl)) c.waiting)
  cancel_job-IsCounted now id running job p c at e =
      let q = (cancel_job now id running job p).1 in
      let job' : Job F A = record job { cancel_requested = true } in
      changed p q id job job' running running c at e e refl refl refl refl refl refl refl refl refl
        (IsQueue-maps p q 0 p.queue refl (waits_on p id job' (λ w. subst IsWaiting at w)) c.waiting)
  cancel_job-IsCounted now id unknown job p c at e =
      let q = (cancel_job now id unknown job p).1 in
      let job' : Job F A = record job { cancel_requested = true } in
      changed p q id job job' unknown unknown c at e e refl refl refl refl refl refl refl refl refl
        (IsQueue-maps p q 0 p.queue refl (waits_on p id job' (λ w. subst IsWaiting at w)) c.waiting)

  cancel-IsCounted : (now id : ℕ) (p : Pool F A) → IsCounted p → IsCounted (cancel now id p).1
  unfolding cancel cancel_found
  cancel-IsCounted now id p c = found (p.jobs id) refl
    where
      found : (o : Option (Job F A)) → p.jobs id ≡ o → IsCounted (cancel_found now id o p).1
      found none at = c
      found (some job) at = cancel_job-IsCounted now id job.status job p c at refl

  -- The id that a worker took waits no more.
  start_job-IsCounted :
      (now id : ℕ) (rest : List ℕ) (st : JobStatus) (job : Job F A) (p : Pool F A)
      → IsCounted p
      → p.jobs id ≡ some job
      → job.status ≡ st
      → IsWaiting (some job)
      → IsQueue p (suc id) rest
      → IsCounted (start_job now id st job (record p { queue = rest })).1
  unfolding start_job observe
  start_job-IsCounted now id rest cancelled job p c at e w queue = record {
    ids = c.ids;
    completed_eq = c.completed_eq;
    failed_eq = c.failed_eq;
    cancelled_eq = c.cancelled_eq;
    started_eq = c.started_eq;
    delays_eq = c.delays_eq;
    submitted_eq = c.submitted_eq;
    unused = c.unused;
    waiting =
        IsQueue-maps p (record p { queue = rest }) 0 rest refl (λ i w. w)
          (IsQueue-weaken p (suc id) 0 rest (omega arith) queue);
  }
  start_job-IsCounted now id rest queued job p c at e w queue =
      let q = (start_job now id queued job (record p { queue = rest })).1 in
      let job' : Job F A = record job { status = running; started_at = now } in
      changed p q id job job' queued running c at e refl refl refl refl refl refl refl (omega arith)
        (omega arith) refl
        (IsQueue-weaken q (suc id) 0 rest (omega arith) (
          IsQueue-keeps p q id (suc id) rest refl
            (λ i d. updated_elsewhere p.jobs id i (some job') d) (omega arith) queue))
  start_job-IsCounted now id rest running job p c at e w queue =
      absurd (not_waiting w e (λ d. cc) (λ d. cc))
  start_job-IsCounted now id rest done job p c at e w queue =
      absurd (not_waiting w e (λ d. cc) (λ d. cc))
  start_job-IsCounted now id rest failed job p c at e w queue =
      absurd (not_waiting w e (λ d. cc) (λ d. cc))
  start_job-IsCounted now id rest unknown job p c at e w queue =
      absurd (not_waiting w e (λ d. cc) (λ d. cc))

  take_from-IsCounted :
      (now : ℕ) (ids : List ℕ) (p : Pool F A)
      → p.queue ≡ ids
      → IsCounted p
      → IsQueue p 0 ids
      → IsCounted (take_from now ids p).1
  unfolding take_from take_job
  take_from-IsCounted now [] p e c queue = c
  take_from-IsCounted now (id ∷ rest) p e c (above, waits, queue) = found (p.jobs id) refl waits
    where
      found :
          (o : Option (Job F A))
          → p.jobs id ≡ o
          → IsWaiting o
          → IsCounted (take_job now id o (record p { queue = rest })).1
      found none at w = elim w [ ]
      found (some job) at w = start_job-IsCounted now id rest job.status job p c at refl w queue

  -- A running job that ends is not in the queue.
  ended_queue :
      (p : Pool F A) (id : ℕ) (job job' : Job F A)
      → IsCounted p
      → p.jobs id ≡ some job
      → job.status ≡ running
      → (i : ℕ) → IsWaiting (p.jobs i)
      → IsWaiting (update p.jobs id (some job') i)
  ended_queue p id job job' c at e =
      waits_on p id job' λ w. absurd (not_waiting (subst IsWaiting at w) e (λ d. cc) (λ d. cc))

  end_failed-IsCounted :
      (now id : ℕ) (what : Text) (job : Job F A) (p : Pool F A)
      → p.jobs id ≡ some job
      → job.status ≡ running
      → IsCounted p
      → IsCounted (end_failed now id what job p)
  unfolding end_failed observe
  end_failed-IsCounted now id what job p at e c =
      let q = end_failed now id what job p in
      let job' : Job F A = record job { status = failed; error_text = what; finished_at = now } in
      changed p q id job job' running failed c at e refl refl refl refl refl (omega arith) refl
        (omega arith) refl refl
        (IsQueue-maps p q 0 p.queue refl (ended_queue p id job job' c at e) c.waiting)

  end_returned-IsCounted :
      (now id : ℕ) (a : A) (requested : Bool) (job : Job F A) (p : Pool F A)
      → p.jobs id ≡ some job
      → job.status ≡ running
      → IsCounted p
      → IsCounted (end_returned now id a requested job p)
  unfolding end_returned observe
  end_returned-IsCounted now id a true job p at e c =
      let q = end_returned now id a true job p in
      let job' : Job F A = record job { status = cancelled; finished_at = now } in
      changed p q id job job' running cancelled c at e refl refl refl refl refl refl (omega arith)
        (omega arith) refl refl
        (IsQueue-maps p q 0 p.queue refl (ended_queue p id job job' c at e) c.waiting)
  end_returned-IsCounted now id a false job p at e c =
      let q = end_returned now id a false job p in
      let job' : Job F A = record job { status = done; result = some a; finished_at = now } in
      changed p q id job job' running done c at e refl refl refl refl (omega arith) refl refl
        (omega arith) refl refl
        (IsQueue-maps p q 0 p.queue refl (ended_queue p id job job' c at e) c.waiting)

  pub Step-IsCounted : {p q : Pool F A} → Step p q → IsCounted p → IsCounted q
  unfolding submit end_job
  Step-IsCounted (submits now name fn p q id e) c =
      subst IsCounted (ap (λ x. x.1) (ok-injective e))
        (submit-IsCounted p (queued_job now name fn) refl c)
  Step-IsCounted (cancels now id p) c = cancel-IsCounted now id p c
  Step-IsCounted (takes now p) c = take_from-IsCounted now p.queue p refl c c.waiting
  Step-IsCounted (ends now id (returned a) job p at e) c =
      end_returned-IsCounted now id a job.cancel_requested job p at e c
  Step-IsCounted (ends now id (threw what) job p at e) c =
      end_failed-IsCounted now id what job p at e c
  Step-IsCounted (ends now id threw_other job p at e) c =
      end_failed-IsCounted now id (codes "unknown exception") job p at e c
  Step-IsCounted (stops p) c = record {
    ids = c.ids;
    completed_eq = c.completed_eq;
    failed_eq = c.failed_eq;
    cancelled_eq = c.cancelled_eq;
    started_eq = c.started_eq;
    delays_eq = c.delays_eq;
    submitted_eq = c.submitted_eq;
    unused = c.unused;
    waiting = IsQueue-maps p (record p { stopping = true }) 0 p.queue refl (λ i w. w) c.waiting;
  }

  -- In every state that the threads can bring the pool to, each counter is the number of the jobs that
  -- it stands for, every job submitted is in one of the five statuses, as many run times were taken as
  -- jobs were started and run no more, and the queue holds, in the order of submission, jobs that wait
  -- or were cancelled.
  pub Steps-IsCounted : {p : Pool F A} → Steps empty_pool p → IsCounted p
  Steps-IsCounted no_steps = empty_pool-IsCounted
  Steps-IsCounted (step before last) = Step-IsCounted last (Steps-IsCounted before)
