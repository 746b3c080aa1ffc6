-- ===== src/Cli/Jobs/Counts.antt =====
-- How the maps of jobs grow and shrink, and how many of their jobs run for an owner.
use mcp_gw.Common.{
  ℕ, zero, suc, ◌+◌, ◌≤◌, ◌<◌, String, true, Option, none, some, [], ◌∷◌, ◌≡◌, refl, ap, inl, inr,
  arith, Bool-cases, Option-cases, eq_of_some-eq, ltb, ◌==◌, if◌then◌else◌,
}
use mcp_gw.Common.Lists.{length}
use mcp_gw.Common.Dict.{Dict, lookup, insert, remove, entries}
use mcp_gw.Cli.Pack.{JobLimits}
use mcp_gw.Cli.Jobs.{Job, prune_jobs, runs_for, oldest_finished, make_room, running_for, changed}

-- What runs for an owner
module _ (owner : String) where
  pub running_for-remove :
      (id : String) (jobs : Dict Job) → running_for owner (remove id jobs) ≤ running_for owner jobs
  unfolding running_for remove
  running_for-remove id [] = ground arith
  running_for-remove id ((j, w) ∷ jobs) = ground (arith, running_for-remove id jobs)

  pub running_for-prune_jobs :
      (limits : JobLimits) (now : ℕ) (jobs : Dict Job)
      → running_for owner (prune_jobs limits now jobs) ≤ running_for owner jobs
  unfolding running_for prune_jobs
  running_for-prune_jobs limits now [] = ground arith
  running_for-prune_jobs limits now ((j, w) ∷ jobs) =
      ground (arith, running_for-prune_jobs limits now jobs)

  pub running_for-insert :
      (id : String) (job : Job) (jobs : Dict Job)
      → running_for owner (insert id job jobs)
        ≤ running_for owner jobs + (if runs_for owner job then 1 else 0)
  unfolding running_for insert
  running_for-insert id job [] = ground arith
  running_for-insert id job ((j, w) ∷ jobs) = ground (arith, running_for-insert id job jobs)

  pub running_for-changed :
      (id : String) (f : Job → Job) (jobs : Dict Job) (found : Option Job)
      → lookup id jobs ≡ found
      → ((job : Job) → runs_for owner (f job) ≡ true → runs_for owner job ≡ true)
      → running_for owner (changed id f found jobs) ≤ running_for owner jobs
  unfolding running_for insert lookup
  running_for-changed id f jobs none e h = ground arith
  running_for-changed id f [] (some job) e h = cc
  running_for-changed id f ((j, w) ∷ jobs) (some job) e h = elim (Bool-cases (j == id)) [
    | inl same ↦
        let k : some w ≡ some job = rw same at e in
        rw (same, eq_of_some-eq k) (ground (arith, h job))
    | inr other ↦
        let k : lookup id jobs ≡ some job = rw other at e in
        rw other (ground (arith, running_for-changed id f jobs (some job) k h))
  ]

length-remove : (id : String) (jobs : Dict Job) → length (remove id jobs) ≤ length jobs
unfolding remove
length-remove id [] = ground arith
length-remove id ((j, w) ∷ jobs) = ground (arith, length-remove id jobs)

pub length-prune_jobs :
    (limits : JobLimits) (now : ℕ) (jobs : Dict Job)
    → length (prune_jobs limits now jobs) ≤ length jobs
unfolding prune_jobs
length-prune_jobs limits now [] = ground arith
length-prune_jobs limits now ((j, w) ∷ jobs) = ground (arith, length-prune_jobs limits now jobs)

pub length-insert :
    (id : String) (job : Job) (jobs : Dict Job) → length (insert id job jobs) ≤ suc (length jobs)
unfolding insert
length-insert id job [] = ground arith
length-insert id job ((j, w) ∷ jobs) = ground (arith, length-insert id job jobs)

pub length-changed :
    (id : String) (f : Job → Job) (jobs : Dict Job) (found : Option Job)
    → lookup id jobs ≡ found
    → length (changed id f found jobs) ≡ length jobs
unfolding insert lookup
length-changed id f jobs none e = refl
length-changed id f [] (some job) e = cc
length-changed id f ((j, w) ∷ jobs) (some job) e = elim (Bool-cases (j == id)) [
  | inl same ↦ rw same refl
  | inr other ↦
      let k : lookup id jobs ≡ some job = rw other at e in
      rw other (ap suc (length-changed id f jobs (some job) k))
]

-- What the loop leaves, and that there is room where it says so
pub make_room-Fits :
    (rounds : ℕ) (limits : JobLimits) (admissions : ℕ) (jobs : Dict Job)
    → ((make_room rounds limits admissions jobs).0 ≡ true
        → length (make_room rounds limits admissions jobs).1 + admissions < limits.max_jobs)
      × (length (make_room rounds limits admissions jobs).1 ≤ length jobs)
      × ((owner : String)
          → running_for owner (make_room rounds limits admissions jobs).1 ≤ running_for owner jobs)
unfolding make_room
make_room-Fits zero limits admissions jobs = (λ h. ground arith, ground arith, λ o. ground arith)
make_room-Fits (suc rounds) limits admissions jobs =
    elim (Bool-cases (ltb (length jobs + admissions) limits.max_jobs)) [
      | inl room ↦ rw room (λ h. ground arith, ground arith, λ o. ground arith)
      | inr full ↦ elim (Option-cases (oldest_finished (entries jobs))) [
        | inl e ↦ rw (full, e) (λ h. cc, ground arith, λ o. ground arith)
        | inr (job, e) ↦
            let (room, fewer, less) =
              make_room-Fits rounds limits admissions (remove job.id jobs) in
            rw (full, e)
              (
                room,
                ground (arith, length-remove job.id jobs),
                λ o. ground (arith, less o, running_for-remove o job.id jobs),
              )
      ]
    ]
