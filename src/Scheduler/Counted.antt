-- ===== src/Scheduler/Counted.antt =====
-- The scheduler's counters agree with the jobs, after any number of steps of any threads.
use muesli_bt.Common.{
  ℕ, zero, suc, ◌+◌, ◌≤◌, ◌<◌, ◌≡◌, refl, sym, ◌∙◌, ap, subst, ◌⊎◌, inl, inr, false, Bool-cases,
  Option, none, some, List, [], ◌∷◌, ◌++◌, ◌==◌, ==→eq, leb, leb→le, leb_false→lt, arith,
}
use muesli_bt.Runtime.Status.{JobStatus, queued, running, done, failed, cancelled, unknown}
use muesli_bt.Runtime.State.{update}
use muesli_bt.Scheduler.{Job, add_job, Pool, put_job, empty_pool}
use muesli_bt.Runtime.Cleared.{updated_here, updated_elsewhere}

abbrev pub tally : {A : Type 0} → (A → ℕ) → (ℕ → A) → ℕ → ℕ
tally w f zero = 0
tally w f (suc n) = w (f n) + tally w f n

tally-beyond :
    {A : Type 0} (w : A → ℕ) (f : ℕ → A) (id : ℕ) (x : A) (n : ℕ)
    → n ≤ id
    → tally w (update f id x) n ≡ tally w f n
tally-beyond w f id x zero h = refl
tally-beyond w f id x (suc n) h = elim (Bool-cases (n == id)) [
  | inl e ↦ absurd (omega (arith, ==→eq n id e, h))
  | inr e ↦ rw e (ap (λ k. w (f n) + k) (tally-beyond w f id x n (omega (arith, h))))
]

tally-update :
    {A : Type 0} (w : A → ℕ) (f : ℕ → A) (id : ℕ) (x : A) (n : ℕ)
    → id < n
    → tally w (update f id x) n + w (f id) ≡ tally w f n + w x
tally-update w f id x zero h = elim h [ ]
tally-update w f id x (suc n) h = elim (Bool-cases (n == id)) [
  | inl e ↦
      let same = ==→eq n id e in
      rw e (omega (arith, ap (λ i. w (f i)) same, tally-beyond w f id x n (omega (arith, same))))
  | inr e ↦ rw e (omega (arith, tally-update w f id x n (below n id e h)))
]
  where
    below : (n id : ℕ) → (n == id) ≡ false → id < suc n → id < n
    below n id e h = ground arith

-- One for a job in the status, else nothing.
abbrev pub one : JobStatus → JobStatus → ℕ
one queued queued = 1
one running running = 1
one done done = 1
one failed failed = 1
one cancelled cancelled = 1
one unknown unknown = 1
one _ _ = 0

pub none_some : {A B : Type 0} {a : A} → none ≡ some a → B
none_some e = cc

module _ {F A : Type 0} where
  abbrev pub weight : JobStatus → Option (Job F A) → ℕ
  weight st none = 0
  weight st (some job) = one st job.status

  -- The jobs in a status.
  abbrev pub jobs_in : JobStatus → Pool F A → ℕ
  jobs_in st p = tally (weight st) p.jobs p.next_job_id

  abbrev pub IsWaiting : Option (Job F A) → Type 0
  IsWaiting none = ⊥
  IsWaiting (some job) = (job.status ≡ queued) ⊎ (job.status ≡ cancelled)

  -- Ids in ascending order from `lo` on, of jobs that wait or were cancelled while they did.
  abbrev pub IsQueue : Pool F A → ℕ → List ℕ → Type 0
  IsQueue p lo [] = lo ≤ p.next_job_id
  IsQueue p lo (id ∷ ids) = (lo ≤ id) × IsWaiting (p.jobs id) × IsQueue p (suc id) ids

  -- What the counters say of the jobs.
  pub record IsCounted (p : Pool F A) : Type 0 where
    pub ids : p.next_job_id ≡ suc p.stats.submitted
    pub completed_eq : p.stats.completed ≡ jobs_in done p
    pub failed_eq : p.stats.failed ≡ jobs_in failed p
    pub cancelled_eq : p.stats.cancelled ≡ jobs_in cancelled p
    pub started_eq : p.stats.started ≡ jobs_in running p + p.stats.run_time.count
    pub delays_eq : p.stats.queue_delay.count ≡ p.stats.started
    pub submitted_eq :
        p.stats.submitted
        ≡ jobs_in queued p
          + jobs_in running p
          + p.stats.completed
          + p.stats.failed
          + p.stats.cancelled
    pub unused : (id : ℕ) → p.next_job_id ≤ id → p.jobs id ≡ none
    pub waiting : IsQueue p 0 p.queue

  pub empty_pool-IsCounted : IsCounted (empty_pool {F = F} {A = A})
  empty_pool-IsCounted = record {
    ids = refl;
    completed_eq = refl;
    failed_eq = refl;
    cancelled_eq = refl;
    started_eq = refl;
    delays_eq = refl;
    submitted_eq = refl;
    unused = λ id h. refl;
    waiting = omega arith;
  }

  -- A job that is there has an id below the next.
  pub in_use :
      (p : Pool F A) (id : ℕ) {job : Job F A}
      → IsCounted p
      → p.jobs id ≡ some job
      → id < p.next_job_id
  in_use p id c e = elim (Bool-cases (leb p.next_job_id id)) [
    | inl h ↦ none_some (sym (c.unused id (leb→le p.next_job_id id h)) ∙ e)
    | inr h ↦ leb_false→lt p.next_job_id id h
  ]

  -- A job that goes from status `a` to status `b`.
  change :
      (p : Pool F A) (id : ℕ) (job job' : Job F A) (a b st : JobStatus)
      → id < p.next_job_id
      → p.jobs id ≡ some job
      → job.status ≡ a
      → job'.status ≡ b
      → jobs_in st (put_job id job' p) + one st a ≡ jobs_in st p + one st b
  change p id job job' a b st h at ea eb =
      subst (λ k. jobs_in st (put_job id job' p) + k ≡ jobs_in st p + one st b)
        (ap (weight st) at ∙ ap (one st) ea)
        (tally-update (weight st) p.jobs id (some job') p.next_job_id h
          ∙ ap (λ k. jobs_in st p + one st k) eb)

  -- The ids beyond the next are unused still.
  still_unused :
      (p : Pool F A) (id : ℕ) (job : Job F A)
      → IsCounted p
      → id < p.next_job_id
      → (i : ℕ) → p.next_job_id ≤ i
      → update p.jobs id (some job) i ≡ none
  still_unused p id job c h i beyond =
      updated_elsewhere p.jobs id i (some job) (λ e. absurd (omega (arith, e, h, beyond)))
      ∙ c.unused i beyond

  -- The queue does not mind a change of a job that is not in it.
  pub IsQueue-keeps :
      (p q : Pool F A) (id lo : ℕ) (ids : List ℕ)
      → q.next_job_id ≡ p.next_job_id
      → ((i : ℕ) → ¬ (id ≡ i) → q.jobs i ≡ p.jobs i)
      → id < lo
      → IsQueue p lo ids
      → IsQueue q lo ids
  IsQueue-keeps p q id lo [] next elsewhere h w = subst (λ n. lo ≤ n) (sym next) w
  IsQueue-keeps p q id lo (i ∷ ids) next elsewhere h (above, waits, rest) = (
    above,
    subst IsWaiting (sym (elsewhere i (λ e. absurd (omega (arith, e, h, above))))) waits,
    IsQueue-keeps p q id (suc i) ids next elsewhere (omega (arith, h, above)) rest,
  )

  pub IsQueue-maps :
      (p q : Pool F A) (lo : ℕ) (ids : List ℕ)
      → q.next_job_id ≡ p.next_job_id
      → ((i : ℕ) → IsWaiting (p.jobs i) → IsWaiting (q.jobs i))
      → IsQueue p lo ids
      → IsQueue q lo ids
  IsQueue-maps p q lo [] next h w = subst (λ n. lo ≤ n) (sym next) w
  IsQueue-maps p q lo (i ∷ ids) next h (above, waits, rest) =
      (above, h i waits, IsQueue-maps p q (suc i) ids next h rest)

  pub IsQueue-weaken :
      (p : Pool F A) (lo lo' : ℕ) (ids : List ℕ) → lo' ≤ lo → IsQueue p lo ids → IsQueue p lo' ids
  IsQueue-weaken p lo lo' [] h w = omega (arith, h, w)
  IsQueue-weaken p lo lo' (i ∷ ids) h (above, waits, rest) = (omega (arith, h, above), waits, rest)

  queue_below : (p : Pool F A) (lo : ℕ) (ids : List ℕ) → IsQueue p lo ids → lo ≤ p.next_job_id
  queue_below p lo [] w = w
  queue_below p lo (i ∷ ids) (above, waits, rest) =
      omega (arith, above, queue_below p (suc i) ids rest)

  -- The new job is last.
  IsQueue-append :
      (p : Pool F A) (job : Job F A) (lo : ℕ) (ids : List ℕ)
      → job.status ≡ queued
      → IsQueue p lo ids
      → IsQueue (add_job job p) lo (ids ++ p.next_job_id ∷ [])
  IsQueue-append p job lo [] e w =
      (w, subst IsWaiting (sym (updated_here p.jobs p.next_job_id (some job))) (inl e), omega arith)
  IsQueue-append p job lo (i ∷ ids) e (above, waits, rest) = (
    above,
    subst IsWaiting
        (sym (
          updated_elsewhere p.jobs p.next_job_id i (some job)
            (λ e. absurd (omega (arith, e, queue_below p (suc i) ids rest)))))
        waits,
    IsQueue-append p job (suc i) ids e rest,
  )

  added :
      (p : Pool F A) (job : Job F A) (st : JobStatus)
      → job.status ≡ queued
      → jobs_in st (add_job job p) ≡ one st queued + jobs_in st p
  added p job st e =
      rw (updated_here p.jobs p.next_job_id (some job), e)
        (ap (λ k. one st queued + k)
          (tally-beyond (weight st) p.jobs p.next_job_id (some job) p.next_job_id (omega arith)))

  pub submit-IsCounted :
      (p : Pool F A) (job : Job F A) → job.status ≡ queued → IsCounted p → IsCounted (add_job job p)
  submit-IsCounted p job e c = record {
    ids = ap suc c.ids;
    completed_eq = omega (arith, c.completed_eq, added p job done e);
    failed_eq = omega (arith, c.failed_eq, added p job failed e);
    cancelled_eq = omega (arith, c.cancelled_eq, added p job cancelled e);
    started_eq = omega (arith, c.started_eq, added p job running e);
    delays_eq = c.delays_eq;
    submitted_eq = omega (arith, c.submitted_eq, added p job queued e, added p job running e);
    unused = λ i h.
        updated_elsewhere p.jobs p.next_job_id i (some job) (λ e. absurd (omega (arith, e, h)))
        ∙ c.unused i (omega (arith, h));
    waiting = IsQueue-append p job 0 p.queue e c.waiting;
  }

  -- A change of one job, with the counters that go with it.
  pub changed :
      (p q : Pool F A) (id : ℕ) (job job' : Job F A) (a b : JobStatus)
      → IsCounted p
      → p.jobs id ≡ some job
      → job.status ≡ a
      → job'.status ≡ b
      → q.jobs ≡ update p.jobs id (some job')
      → q.next_job_id ≡ p.next_job_id
      → q.stats.submitted ≡ p.stats.submitted
      → q.stats.completed + one done a ≡ p.stats.completed + one done b
      → q.stats.failed + one failed a ≡ p.stats.failed + one failed b
      → q.stats.cancelled + one cancelled a ≡ p.stats.cancelled + one cancelled b
      → q.stats.started + one running a + p.stats.run_time.count
        ≡ p.stats.started + one running b + q.stats.run_time.count
      → q.stats.queue_delay.count + p.stats.started ≡ p.stats.queue_delay.count + q.stats.started
      → one queued a + one running a + one done a + one failed a + one cancelled a
        ≡ one queued b + one running b + one done b + one failed b + one cancelled b
      → IsQueue q 0 q.queue
      → IsCounted q
  changed p q id job job' a b c at ea eb jobs next sub comp fail canc start delay keep queue =
      let h = in_use p id c at in
      let move = λ (st : JobStatus). moved st h in
      record {
        ids = next ∙ c.ids ∙ ap suc (sym sub);
        completed_eq = omega (arith, c.completed_eq, comp, move done);
        failed_eq = omega (arith, c.failed_eq, fail, move failed);
        cancelled_eq = omega (arith, c.cancelled_eq, canc, move cancelled);
        started_eq = omega (arith, c.started_eq, start, move running);
        delays_eq = omega (arith, c.delays_eq, delay);
        submitted_eq =
            omega (arith, c.submitted_eq, sub, comp, fail, canc, keep, move queued, move running);
        unused = λ i beyond.
            ap (λ f. f i) jobs ∙ still_unused p id job' c h i (subst (λ n. n ≤ i) next beyond);
        waiting = queue;
      }
    where
      moved :
          (st : JobStatus) → id < p.next_job_id → jobs_in st q + one st a ≡ jobs_in st p + one st b
      moved st h =
          ap (λ f. tally (weight st) f q.next_job_id + one st a) jobs
          ∙ ap (λ n. tally (weight st) (update p.jobs id (some job')) n + one st a) next
          ∙ change p id job job' a b st h at ea eb
