-- ===== src/Cli/Jobs.antt =====
-- servers/governed-cli/src/http.ts: the table of jobs of createCliRunHandler, its admission and what
-- happens to a job. A listener of a job sees its events and changes nothing, so listeners are left
-- out. What a run gives, the clock and a fresh id are arguments.
mod Tests
pub mod Counts
pub mod Bounds
pub mod Reachable
use mcp_gw.Common.{
  ℕ, zero, suc, ◌+◌, ◌-◌, ◌*◌, String, Bool, true, false, not, ◌&&◌, ◌||◌, Option, none, some,
  is_some, or_default, List, [], ◌∷◌, ◌++◌, ltb, leb, nat_eq, ◌==◌, if◌then◌else◌,
}
use mcp_gw.Common.Text.{◌<>◌}
use mcp_gw.Common.Lists.{keep, length}
use mcp_gw.Common.Dict.{Dict, lookup, insert, remove, entries}
use mcp_gw.Policy.{ActionClass}
use mcp_gw.Cli.Pack.{JobLimits}
use mcp_gw.Task.{TaskToolGrant, TaskToolAuthorization}

pub record CliExecutionResult : Type 0 where
  pub exit_code : ℕ
  pub stdout : String
  pub stderr : String
  pub stdout_truncated : Bool
  pub stderr_truncated : Bool
  pub duration_ms : ℕ
  pub class : ActionClass

pub data StreamEvent : Type 0 where
  out_event : String → StreamEvent
  err_event : String → StreamEvent
  exit_event : (exit_code : ℕ) (truncated cancelled : Bool) → StreamEvent

pub data JobStatus : Type 0 where
  running completed failed cancelled : JobStatus

pub record Job : Type 0 where
  pub id : String
  pub owner : String
  pub grant : TaskToolGrant
  pub status : JobStatus
  pub created_at : ℕ
  pub completed_at : Option ℕ
  pub result : Option CliExecutionResult
  pub events : List StreamEvent
  pub aborted : Bool

pub record JobTable : Type 0 where
  pub jobs : Dict Job
  pub admissions : ℕ
  pub admissions_by_owner : Dict ℕ

abbrev pub no_jobs : JobTable
no_jobs = record { jobs = []; admissions = 0; admissions_by_owner = [] }

abbrev pub is_running : JobStatus → Bool
is_running running = true
is_running _ = false

-- The job was completed no later than the cutoff. (`now` is past the retention, so the source's
-- subtraction is compared on the other side.)
abbrev pub is_expired : JobLimits → ℕ → Option ℕ → Bool
is_expired limits now none = false
is_expired limits now (some at_) = leb (at_ + limits.retention_seconds * 1000) now

unfoldable pub prune_jobs : JobLimits → ℕ → Dict Job → Dict Job
prune_jobs limits now [] = []
prune_jobs limits now ((id, job) ∷ rest) =
    if is_expired limits now job.completed_at
    then prune_jobs limits now rest
    else (id, job) ∷ prune_jobs limits now rest

unfoldable pub prune : JobLimits → ℕ → JobTable → JobTable
unfolding prune_jobs
prune limits now t = record t { jobs = prune_jobs limits now t.jobs }

unfoldable pub runs_for : String → Job → Bool
runs_for owner job = job.owner == owner && is_running job.status

abbrev earlier : Job → Option Job → Option Job
earlier job none = some job
earlier job (some other) =
    if leb (or_default job.completed_at 0) (or_default other.completed_at 0)
    then some job
    else some other

-- The first of the finished jobs that was completed the earliest: the head of what is sorted.
unfoldable pub oldest_finished : List Job → Option Job
oldest_finished [] = none
oldest_finished (job ∷ rest) =
    let later = oldest_finished rest in
    if is_some job.completed_at then earlier job later else later

-- The loop of `admit`: whether there is room, and the jobs that are left. Each round drops a job, so
-- that as many rounds as there are jobs are enough.
unfoldable pub make_room : ℕ → JobLimits → ℕ → Dict Job → Bool × Dict Job
unfolding oldest_finished
make_room zero limits admissions jobs = (ltb (length jobs + admissions) limits.max_jobs, jobs)
make_room (suc rounds) limits admissions jobs =
    if ltb (length jobs + admissions) limits.max_jobs
    then (true, jobs)
    else elim (oldest_finished (entries jobs)) [
      | none ↦ (false, jobs)
      | some job ↦ make_room rounds limits admissions (remove job.id jobs)
    ]

abbrev pub admitted_for : String → Dict ℕ → ℕ
admitted_for owner admissions = or_default (lookup owner admissions) 0

unfoldable pub running_for : String → Dict Job → ℕ
unfolding runs_for
running_for owner jobs = length (keep (runs_for owner) (entries jobs))

abbrev admitted : String → JobTable → Bool × Dict Job → Bool × JobTable
admitted owner t (false, jobs) = (false, record t { jobs = jobs })
admitted owner t (true, jobs) = (
  true,
  record t {
    jobs = jobs;
    admissions = t.admissions + 1;
    admissions_by_owner =
        insert owner (admitted_for owner t.admissions_by_owner + 1) t.admissions_by_owner;
  },
)

-- After `prune`
unfoldable pub admit_pruned : JobLimits → String → JobTable → Bool × JobTable
unfolding make_room running_for
admit_pruned limits owner t =
    if leb limits.max_running_jobs_per_owner
      (running_for owner t.jobs + admitted_for owner t.admissions_by_owner)
    then (false, t)
    else admitted owner t (make_room (length t.jobs) limits t.admissions t.jobs)

unfoldable pub admit : JobLimits → ℕ → String → JobTable → Bool × JobTable
unfolding admit_pruned prune
admit limits now owner t = admit_pruned limits owner (prune limits now t)

abbrev put_back : String → ℕ → Dict ℕ → Dict ℕ
put_back owner zero admissions = remove owner admissions
put_back owner (suc n) admissions = insert owner (suc n) admissions

-- It is called once for each admission, so nothing goes below 0.
unfoldable pub release_admission : String → JobTable → JobTable
release_admission owner t = record t {
  admissions = t.admissions - 1;
  admissions_by_owner =
      put_back owner (or_default (lookup owner t.admissions_by_owner) 1 - 1) t.admissions_by_owner;
}

abbrev pub join_events : StreamEvent → StreamEvent → List StreamEvent
join_events (out_event before) (out_event data_) = out_event (before <> data_) ∷ []
join_events (err_event before) (err_event data_) = err_event (before <> data_) ∷ []
join_events before event = before ∷ event ∷ []

-- What is written to the same stream as the last event is joined to it.
unfoldable pub emit_event : StreamEvent → List StreamEvent → List StreamEvent
emit_event event [] = event ∷ []
emit_event event (before ∷ []) = join_events before event
emit_event event (before ∷ next ∷ rest) = before ∷ emit_event event (next ∷ rest)

unfoldable pub emit : StreamEvent → Job → Job
unfolding emit_event
emit event job = record job { events = emit_event event job.events }

unfoldable pub finish : ℕ → JobStatus → CliExecutionResult → StreamEvent → Job → Job
unfolding emit
finish now status result event job =
    if is_running job.status
    then emit event (record job { status = status; result = some result; completed_at = some now })
    else job

unfoldable pub start_job : ℕ → String → TaskToolGrant → String → JobTable → JobTable
start_job now id grant owner t =
    let job : Job = record {
      id = id;
      owner = owner;
      grant = grant;
      status = running;
      created_at = now;
      completed_at = none;
      result = none;
      events = [];
      aborted = false;
    } in
    record t { jobs = insert id job t.jobs }

-- The run returned.
unfoldable pub run_returned : ℕ → CliExecutionResult → Job → Job
unfolding finish
run_returned now result job =
    finish now completed result
      (exit_event result.exit_code (result.stdout_truncated || result.stderr_truncated) false) job

-- The run threw.
unfoldable pub run_failed : ℕ → ActionClass → Job → Job
unfolding emit finish
run_failed now class job =
    let message = if job.aborted then "CLI execution cancelled\n" else "CLI execution failed\n" in
    let code = if job.aborted then 130 else 1 in
    finish now (if job.aborted then cancelled else failed)
      (record {
        exit_code = code;
        stdout = "";
        stderr = message;
        stdout_truncated = false;
        stderr_truncated = false;
        duration_ms = now - job.created_at;
        class = class;
      })
      (exit_event code false job.aborted) (emit (err_event message) job)

-- `/cli/jobs/<id>/cancel` on a job that the caller sees
unfoldable pub cancel : Job → Job
cancel job = if is_running job.status then record job { aborted = true } else job

-- The job, for its owner and a token that allows its grant
abbrev visible : String → TaskToolAuthorization → Option Job → Option Job
visible owner authorization none = none
visible owner authorization (some job) =
    if job.owner == owner && authorization.allows job.grant then some job else none

abbrev owned_by : Option String → TaskToolAuthorization → Option Job → Option Job
owned_by none authorization job = none
owned_by (some owner) authorization job = visible owner authorization job

-- `owner` is absent where the token names no runtime.
unfoldable pub job_for :
    JobLimits
    → ℕ
    → String
    → Option String
    → TaskToolAuthorization
    → JobTable
    → Option Job × JobTable
unfolding prune
job_for limits now id owner authorization t =
    let pruned = prune limits now t in
    (owned_by owner authorization (lookup id pruned.jobs), pruned)

-- The job of an id is changed where it is.
abbrev changed : String → (Job → Job) → Option Job → Dict Job → Dict Job
changed id f none jobs = jobs
changed id f (some job) jobs = insert id (f job) jobs

unfoldable pub change_job : String → (Job → Job) → JobTable → JobTable
change_job id f t = record t { jobs = changed id f (lookup id t.jobs) t.jobs }
