-- ===== src/Cli/Jobs/Reachable.antt =====
-- Requests and runs, one after another: a handler runs without interruption between two of its
-- awaits, and what it does there is one step.
use mcp_gw.Common.{
  ℕ, String, Bool, true, false, ◌&&◌, Option, List, [], ◌∷◌, ◌≡◌, refl, inl, inr, arith, Bool-cases,
  ◌==◌, if◌then◌else◌,
}
use mcp_gw.Common.Dict.{lookup}
use mcp_gw.Policy.{ActionClass}
use mcp_gw.Task.{TaskToolGrant, TaskToolAuthorization}
use mcp_gw.Cli.Pack.{JobLimits}
use mcp_gw.Cli.Jobs.{
  CliExecutionResult, StreamEvent, err_event, JobStatus, Job, JobTable, no_jobs, is_running,
  runs_for, running_for, admit, release_admission, emit, finish, start_job, run_returned,
  run_failed, cancel, job_for, change_job,
}
use mcp_gw.Cli.Jobs.Bounds.{
  Takes, times, IsBounded, change_job-IsBounded, admit-IsBounded, prune-IsBounded,
  release_admission-IsBounded, start_job-IsBounded,
}

-- What the requests and the runs do to the table, with the admissions that are under way.
pub data Step (limits : JobLimits) : JobTable → List String → JobTable → List String → Type 0 where
  asked :
      (now : ℕ) (owner : String) (t : JobTable) (flights : List String)
      → Step limits t flights
          (admit limits now owner t).1
          (if (admit limits now owner t).0 then owner ∷ flights else flights)
  started :
      (now : ℕ) (id : String) (grant : TaskToolGrant) (owner : String) (t : JobTable)
      {flights rest : List String}
      → Takes owner flights rest
      → Step limits t flights (release_admission owner (start_job now id grant owner t)) rest
  given_up :
      (owner : String) (t : JobTable) {flights rest : List String}
      → Takes owner flights rest
      → Step limits t flights (release_admission owner t) rest
  looked_up :
      (now : ℕ) (id : String) (owner : Option String) (authorization : TaskToolAuthorization)
      (t : JobTable) (flights : List String)
      → Step limits t flights (job_for limits now id owner authorization t).1 flights
  wrote :
      (id : String) (event : StreamEvent) (t : JobTable) (flights : List String)
      → Step limits t flights (change_job id (emit event) t) flights
  ended :
      (id : String) (now : ℕ) (result : CliExecutionResult) (t : JobTable) (flights : List String)
      → Step limits t flights (change_job id (run_returned now result) t) flights
  broke :
      (id : String) (now : ℕ) (class : ActionClass) (t : JobTable) (flights : List String)
      → Step limits t flights (change_job id (run_failed now class) t) flights
  cancelled :
      (id : String) (t : JobTable) (flights : List String)
      → Step limits t flights (change_job id cancel t) flights

pub data Reachable (limits : JobLimits) : JobTable → List String → Type 0 where
  start : Reachable limits no_jobs []
  next :
      {t u : JobTable} {flights rest : List String}
      → Reachable limits t flights
      → Step limits t flights u rest
      → Reachable limits u rest

module _ (job : Job) (owner : String) where
  runs_for-emit :
      (event : StreamEvent) → runs_for owner (emit event job) ≡ true → runs_for owner job ≡ true
  unfolding runs_for emit
  runs_for-emit event h = h

  runs_for-finish :
      (now : ℕ) (status : JobStatus) (result : CliExecutionResult) (event : StreamEvent)
      → is_running status ≡ false
      → runs_for owner (finish now status result event job) ≡ true
      → runs_for owner job ≡ true
  unfolding runs_for finish emit
  runs_for-finish now status result event ends h = elim (Bool-cases (is_running job.status)) [
    | inl live ↦ let k : (job.owner == owner && false) ≡ true = rw (live, ends) at h in ground arith
    | inr dead ↦ rw dead at h
  ]

  runs_for-cancel : runs_for owner (cancel job) ≡ true → runs_for owner job ≡ true
  unfolding runs_for cancel
  runs_for-cancel h = elim (Bool-cases (is_running job.status)) [
    | inl live ↦ rw live at h
    | inr dead ↦ rw dead at h
  ]

stops :
    (aborted : Bool)
    → is_running (if aborted then JobStatus.cancelled else JobStatus.failed) ≡ false
stops true = refl
stops false = refl

runs_for-run_failed :
    (now : ℕ) (class : ActionClass) (job : Job) (owner : String)
    → runs_for owner (run_failed now class job) ≡ true
    → runs_for owner job ≡ true
unfolding run_failed
runs_for-run_failed now class job owner h =
    runs_for-emit job owner _
      (runs_for-finish (emit (err_event _) job) owner now _ _ _ (stops job.aborted) h)

runs_for-run_returned :
    (now : ℕ) (result : CliExecutionResult) (job : Job) (owner : String)
    → runs_for owner (run_returned now result job) ≡ true
    → runs_for owner job ≡ true
unfolding run_returned
runs_for-run_returned now result job owner h = runs_for-finish job owner now _ result _ refl h

Step-IsBounded :
    {limits : JobLimits} {t u : JobTable} {flights rest : List String}
    → Step limits t flights u rest
    → IsBounded limits flights t
    → IsBounded limits rest u
unfolding job_for
Step-IsBounded {limits = limits} (asked now owner t flights) b =
    admit-IsBounded limits flights now owner t b
Step-IsBounded {limits = limits} (started now id grant owner t taken) b =
    start_job-IsBounded limits now id grant t taken b
Step-IsBounded {limits = limits} (given_up owner t taken) b =
    release_admission-IsBounded limits t taken b
Step-IsBounded {limits = limits} (looked_up now id owner authorization t flights) b =
    prune-IsBounded limits flights now t b
Step-IsBounded {limits = limits} (wrote id event t flights) b =
    change_job-IsBounded limits flights id (emit event) t (λ job o h. runs_for-emit job o event h) b
Step-IsBounded {limits = limits} (ended id now result t flights) b =
    change_job-IsBounded limits flights id (run_returned now result) t
      (runs_for-run_returned now result) b
Step-IsBounded {limits = limits} (broke id now class t flights) b =
    change_job-IsBounded limits flights id (run_failed now class) t (runs_for-run_failed now class)
      b
Step-IsBounded {limits = limits} (cancelled id t flights) b =
    change_job-IsBounded limits flights id cancel t (λ job o h. runs_for-cancel job o h) b

-- Whatever requests have come and however the runs have ended, with any admissions under way: the
-- table counts these admissions as they are, altogether and for each owner; the jobs that are kept
-- and the admissions together are no more than the limit of jobs; and the jobs of an owner that run,
-- together with the owner's admissions, are no more than the limit for one owner.
pub Reachable-IsBounded :
    {limits : JobLimits} {t : JobTable} {flights : List String}
    → Reachable limits t flights
    → IsBounded limits flights t
unfolding lookup running_for times
Reachable-IsBounded start = record {
  counted = refl;
  counted_for = λ o. refl;
  capacity = ground arith;
  fair = λ o. ground arith;
}
Reachable-IsBounded (next before step) = Step-IsBounded step (Reachable-IsBounded before)
