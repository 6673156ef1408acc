-- ===== src/Scheduler.antt =====
-- The thread pool (src/bt/scheduler.cpp, include/bt/scheduler.hpp, src/bt/profile.cpp): the state that
-- its mutex protects, and the sections that a thread runs under the mutex.
--
-- `F` is the type of the job functions, `A` of their results. Times are in nanoseconds on the steady
-- clock. The state is as large as the machine's memory, so the counters do not wrap.
use muesli_bt.Common.{
  ℕ, zero, suc, ◌+◌, ◌-◌, ◌<◌, Bool, true, false, ◌&&◌, ◌||◌, not, Option, none, some, List, [],
  ◌∷◌, ◌++◌, ◌≡◌, ltb, if◌then◌else◌, Text, codes, Result, ok, err,
}
use muesli_bt.Runtime.Status.{JobStatus}
use muesli_bt.Runtime.State.{Called, returned, threw, threw_other, update}
pub mod Counted
pub mod Accounting
pub mod Ended

pub record DurationStats : Type 0 where
  pub count : ℕ
  pub last : ℕ
  pub max : ℕ
  pub total : ℕ
  pub over_budget_count : ℕ

unfoldable pub observe : ℕ → ℕ → DurationStats → DurationStats
observe sample budget d = record {
  count = suc d.count;
  last = sample;
  max = if ltb d.max sample then sample else d.max;
  total = d.total + sample;
  over_budget_count =
      if ltb 0 budget && ltb budget sample then suc d.over_budget_count else d.over_budget_count;
}

abbrev pub no_samples : DurationStats
no_samples = record { count = 0; last = 0; max = 0; total = 0; over_budget_count = 0 }

pub record Stats : Type 0 where
  pub submitted : ℕ
  pub started : ℕ
  pub completed : ℕ
  pub failed : ℕ
  pub cancelled : ℕ
  pub queue_delay : DurationStats
  pub run_time : DurationStats

-- `job_state`. The id is the key in `jobs_`.
pub record Job (F A : Type 0) : Type 0 where
  pub status : JobStatus
  pub submitted_at : ℕ
  pub started_at : ℕ
  pub finished_at : ℕ
  pub task_name : Text
  pub error_text : Text
  pub fn : F
  pub result : Option A
  pub cancel_requested : Bool

pub record Pool (F A : Type 0) : Type 0 where
  pub stopping : Bool
  pub next_job_id : ℕ
  pub queue : List ℕ
  pub jobs : ℕ → Option (Job F A)
  pub stats : Stats

pub data SubmitError : Type 0 where
  empty_job_function : SubmitError

-- `job_info`
pub record JobInfo : Type 0 where
  pub status : JobStatus
  pub submitted_at : ℕ
  pub started_at : ℕ
  pub finished_at : ℕ
  pub task_name : Text
  pub error_text : Text

abbrev pub no_stats : Stats
no_stats = record {
  submitted = 0;
  started = 0;
  completed = 0;
  failed = 0;
  cancelled = 0;
  queue_delay = no_samples;
  run_time = no_samples;
}

abbrev pub no_job : JobInfo
no_job = record {
  status = JobStatus.unknown;
  submitted_at = 0;
  started_at = 0;
  finished_at = 0;
  task_name = [];
  error_text = [];
}

abbrev result_of : {A : Type 0} → JobStatus → Option A → Option A
result_of JobStatus.done r = r
result_of _ r = none

module _ {F A : Type 0} where
  abbrev pub empty_pool : Pool F A
  empty_pool = record {
    stopping = false;
    next_job_id = 1;
    queue = [];
    jobs = λ id. none;
    stats = no_stats;
  }

  abbrev pub put_job : ℕ → Job F A → Pool F A → Pool F A
  put_job id job p = record p { jobs = update p.jobs id (some job) }

  abbrev pub queued_job : ℕ → Text → F → Job F A
  queued_job now task_name fn = record {
    status = JobStatus.queued;
    submitted_at = now;
    started_at = 0;
    finished_at = 0;
    task_name = task_name;
    error_text = [];
    fn = fn;
    result = none;
    cancel_requested = false;
  }

  abbrev pub add_job : Job F A → Pool F A → Pool F A
  add_job job p = record p {
    next_job_id = suc p.next_job_id;
    jobs = update p.jobs p.next_job_id (some job);
    queue = p.queue ++ p.next_job_id ∷ [];
    stats = record p.stats { submitted = suc p.stats.submitted };
  }

  unfoldable pub submit : ℕ → Text → Option F → Pool F A → Result SubmitError (ℕ × Pool F A)
  submit now task_name none p = err empty_job_function
  submit now task_name (some fn) p = ok (p.next_job_id, add_job (queued_job now task_name fn) p)

  abbrev info_of : Option (Job F A) → JobInfo
  info_of none = no_job
  info_of (some job) = record {
    status = job.status;
    submitted_at = job.submitted_at;
    started_at = job.started_at;
    finished_at = job.finished_at;
    task_name = job.task_name;
    error_text = job.error_text;
  }

  unfoldable pub get_info : ℕ → Pool F A → JobInfo
  get_info id p = info_of (p.jobs id)

  abbrev job_result : Option (Job F A) → Option A
  job_result none = none
  job_result (some job) = result_of job.status job.result

  unfoldable pub try_get_result : ℕ → Pool F A → Option A
  try_get_result id p = job_result (p.jobs id)

  -- `cancel` on a job that is there. A job that has ended is left alone.
  unfoldable pub cancel_job : ℕ → ℕ → JobStatus → Job F A → Pool F A → Bool × Pool F A
  cancel_job now id JobStatus.done job p = (false, p)
  cancel_job now id JobStatus.failed job p = (false, p)
  cancel_job now id JobStatus.cancelled job p = (false, p)
  cancel_job now id JobStatus.queued job p = (
    true,
    record (put_job id
        (record job { cancel_requested = true; status = JobStatus.cancelled; finished_at = now })
        p) { stats = record p.stats { cancelled = suc p.stats.cancelled } },
  )
  cancel_job now id _ job p = (true, put_job id (record job { cancel_requested = true }) p)

  unfoldable pub cancel_found : ℕ → ℕ → Option (Job F A) → Pool F A → Bool × Pool F A
  unfolding cancel_job
  cancel_found now id none p = (false, p)
  cancel_found now id (some job) p = cancel_job now id job.status job p

  unfoldable pub cancel : ℕ → ℕ → Pool F A → Bool × Pool F A
  unfolding cancel_found
  cancel now id p = cancel_found now id (p.jobs id) p

  -- A worker has taken `id` off the queue. It runs the job, unless the job was cancelled.
  unfoldable pub start_job : ℕ → ℕ → JobStatus → Job F A → Pool F A → Option ℕ × Pool F A
  unfolding observe
  start_job now id JobStatus.cancelled job p = (none, p)
  start_job now id _ job p = (
    some id,
    record (put_job id (record job { status = JobStatus.running; started_at = now }) p) {
      stats = record p.stats {
        started = suc p.stats.started;
        queue_delay = observe (now - job.submitted_at) 0 p.stats.queue_delay;
      };
    },
  )

  unfoldable pub take_job : ℕ → ℕ → Option (Job F A) → Pool F A → Option ℕ × Pool F A
  unfolding start_job
  take_job now id none p = (none, p)
  take_job now id (some job) p = start_job now id job.status job p

  -- The first section of `worker_loop`, once the queue is not empty.
  unfoldable pub take_from : ℕ → List ℕ → Pool F A → Option ℕ × Pool F A
  unfolding take_job
  take_from now [] p = (none, p)
  take_from now (id ∷ rest) p = take_job now id (p.jobs id) (record p { queue = rest })

  -- A job ends in a status, with one more sample of the run time.
  abbrev pub end_in : ℕ → ℕ → Job F A → Pool F A → Pool F A
  end_in now id job p = record (put_job id (record job { finished_at = now }) p) {
    stats = record p.stats { run_time = observe (now - job.started_at) 0 p.stats.run_time };
  }

  unfoldable pub end_returned : ℕ → ℕ → A → Bool → Job F A → Pool F A → Pool F A
  unfolding observe
  end_returned now id a true job p =
      end_in now id (record job { status = JobStatus.cancelled })
        (record p { stats = record p.stats { cancelled = suc p.stats.cancelled } })
  end_returned now id a false job p =
      end_in now id (record job { status = JobStatus.done; result = some a })
        (record p { stats = record p.stats { completed = suc p.stats.completed } })

  unfoldable pub end_failed : ℕ → ℕ → Text → Job F A → Pool F A → Pool F A
  unfolding observe
  end_failed now id what job p =
      end_in now id (record job { status = JobStatus.failed; error_text = what })
        (record p { stats = record p.stats { failed = suc p.stats.failed } })

  -- The last section of `worker_loop`, with what the job function returned or threw.
  unfoldable pub end_job : ℕ → ℕ → Called A → Job F A → Pool F A → Pool F A
  unfolding end_returned end_failed
  end_job now id (returned a) job p = end_returned now id a job.cancel_requested job p
  end_job now id (threw what) job p = end_failed now id what job p
  end_job now id threw_other job p = end_failed now id (codes "unknown exception") job p

  -- What the threads do to the pool, one section under the mutex after another. A job ends in the
  -- worker that started it, so only while it is running.
  pub data Step : Pool F A → Pool F A → Type 0 where
    submits :
        (now : ℕ) (name : Text) (fn : F) (p q : Pool F A) (id : ℕ)
        → submit now name (some fn) p ≡ ok (id, q)
        → Step p q
    cancels : (now id : ℕ) (p : Pool F A) → Step p (cancel now id p).1
    takes : (now : ℕ) (p : Pool F A) → Step p (take_from now p.queue p).1
    ends :
        (now id : ℕ) (outcome : Called A) (job : Job F A) (p : Pool F A)
        → p.jobs id ≡ some job
        → job.status ≡ JobStatus.running
        → Step p (end_job now id outcome job p)
    stops : (p : Pool F A) → Step p (record p { stopping = true })

  pub data Steps : Pool F A → Pool F A → Type 0 where
    no_steps : {p : Pool F A} → Steps p p
    step : {p q r : Pool F A} → Steps p q → Step q r → Steps p r
