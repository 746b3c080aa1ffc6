-- ===== src/Cli/Jobs/Tests.antt =====
-- A table of two jobs at most.
use mcp_gw.Common.Dict.{remove, lookup, insert}
use mcp_gw.Common.{true, false, [], ◌∷◌, ◌≡◌, refl}
use mcp_gw.Task.{TaskToolGrant}
use mcp_gw.Cli.Pack.{JobLimits}
use mcp_gw.Cli.Jobs.{JobTable, no_jobs, admit, release_admission, start_job}
use mcp_gw.Cli.Jobs.Bounds.{here, IsBounded}
use mcp_gw.Cli.Jobs.Reachable.{Reachable, start, next, asked, started, Reachable-IsBounded}

abbrev limits : JobLimits
limits = record { max_jobs = 2; max_running_jobs_per_owner = 1; retention_seconds = 60 }

abbrev grant : TaskToolGrant
grant = record { provider = "cli"; resource = "kubectl"; action = "read" }

abbrev asked_table : JobTable
asked_table = (admit limits 5 "o" no_jobs).1

admitted_first : (admit limits 5 "o" no_jobs).0 ≡ true
unfolding admit lookup
admitted_first = refl

abbrev started_table : JobTable
started_table = release_admission "o" (start_job 6 "j-1" grant "o" asked_table)

refused_second : (admit limits 7 "o" started_table).0 ≡ false
unfolding admit release_admission start_job insert lookup remove
refused_second = refl

asked-Reachable : Reachable limits asked_table ("o" ∷ [])
unfolding admit lookup
asked-Reachable = next start (asked 5 "o" no_jobs [])

started-Reachable : Reachable limits started_table []
started-Reachable = next asked-Reachable (started 6 "j-1" grant "o" asked_table here)

Reachable-IsBounded_example : IsBounded limits [] started_table
Reachable-IsBounded_example = Reachable-IsBounded started-Reachable
