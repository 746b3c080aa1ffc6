-- ===== src/Cli/Jobs/Bounds.antt =====
-- Each operation on the table of jobs keeps it within its limits.
use mcp_gw.Common.{
  ℕ, zero, suc, ◌+◌, ◌-◌, ◌≤◌, ◌<◌, String, Bool, true, false, or_default, List, ◌∷◌, ◌≡◌, refl,
  sym, ◌∙◌, inl, inr, arith, Bool-cases, Option-cases, eq_iff, eq_refl, leb, ◌==◌, if◌then◌else◌,
}
use mcp_gw.Common.Lists.{keep, length}
use mcp_gw.Common.Dict.{Dict, lookup, insert, lookup-insert, lookup-remove}
use mcp_gw.Task.{TaskToolGrant}
use mcp_gw.Cli.Pack.{JobLimits}
use mcp_gw.Cli.Jobs.{
  Job, JobTable, prune, runs_for, make_room, admitted_for, running_for, admitted, admit_pruned,
  admit, release_admission, put_back, start_job, change_job,
}
use mcp_gw.Cli.Jobs.Counts.{
  running_for-prune_jobs, running_for-insert, running_for-changed, length-prune_jobs, length-insert,
  length-changed, make_room-Fits,
}

-- The admissions that are under way, one owner for each
unfoldable pub times : String → List String → ℕ
times owner flights = length (keep (λ o. o == owner) flights)

times-cons :
    (owner other : String) (flights : List String)
    → times owner (other ∷ flights) ≡ times owner flights + (if other == owner then 1 else 0)
unfolding times
times-cons owner other flights = ground arith

times-cons_self :
    (owner : String) (flights : List String)
    → times owner (owner ∷ flights) ≡ times owner flights + 1
unfolding times
times-cons_self owner flights = rw (eq_refl owner) (ground arith)

-- One admission is taken away.
pub data Takes : String → List String → List String → Type 0 where
  here : {owner : String} {flights : List String} → Takes owner (owner ∷ flights) flights
  there :
      {owner other : String} {flights rest : List String}
      → Takes owner flights rest
      → Takes owner (other ∷ flights) (other ∷ rest)

times-Takes :
    {owner : String} {flights rest : List String}
    → Takes owner flights rest
    → (o : String)
    → (times o flights ≡ times o rest + (if owner == o then 1 else 0))
      × (length flights ≡ suc (length rest))
times-Takes (here {owner = owner} {flights = flights}) o = (times-cons o owner flights, refl)
times-Takes (there {other = other} {flights = flights} {rest = rest} t) o =
    ground (arith, times-Takes t o, times-cons o other flights, times-cons o other rest)

-- The table is within its limits, and counts the admissions that are under way.
pub record IsBounded (limits : JobLimits) (flights : List String) (t : JobTable) : Type 0 where
  pub counted : t.admissions ≡ length flights
  pub counted_for :
      (owner : String) → admitted_for owner t.admissions_by_owner ≡ times owner flights
  pub capacity : length t.jobs + t.admissions ≤ limits.max_jobs
  pub fair :
      (owner : String)
      → running_for owner t.jobs + times owner flights ≤ limits.max_running_jobs_per_owner

module _ (limits : JobLimits) (flights : List String) where
  pub prune-IsBounded :
      (now : ℕ) (t : JobTable)
      → IsBounded limits flights t
      → IsBounded limits flights (prune limits now t)
  unfolding prune
  prune-IsBounded now t b = record {
    counted = b.counted;
    counted_for = b.counted_for;
    capacity = ground (arith, length-prune_jobs limits now t.jobs, b.capacity);
    fair = λ o. ground (arith, running_for-prune_jobs o limits now t.jobs, b.fair o);
  }

  -- A change of a job that starts nothing
  pub change_job-IsBounded :
      (id : String) (f : Job → Job) (t : JobTable)
      → ((job : Job) (owner : String) → runs_for owner (f job) ≡ true → runs_for owner job ≡ true)
      → IsBounded limits flights t
      → IsBounded limits flights (change_job id f t)
  unfolding change_job
  change_job-IsBounded id f t h b = record {
    counted = b.counted;
    counted_for = b.counted_for;
    capacity = rw (length-changed id f t.jobs (lookup id t.jobs) refl) b.capacity;
    fair = λ o. ground (
      arith,
      running_for-changed o id f t.jobs (lookup id t.jobs) refl (λ job k. h job o k),
      b.fair o,
    );
  }

  admitted-IsBounded :
      (owner : String) (t : JobTable) (made : Bool × Dict Job)
      → (made.0 ≡ true → length made.1 + t.admissions < limits.max_jobs)
      → length made.1 ≤ length t.jobs
      → ((o : String) → running_for o made.1 ≤ running_for o t.jobs)
      → running_for owner t.jobs + times owner flights < limits.max_running_jobs_per_owner
      → IsBounded limits flights t
      → IsBounded limits
          (if (admitted owner t made).0 then owner ∷ flights else flights)
          (admitted owner t made).1
  admitted-IsBounded owner t (false, jobs) room fewer less free b = record {
    counted = b.counted;
    counted_for = b.counted_for;
    capacity = ground (arith, b.capacity);
    fair = λ o. ground (arith, less o, b.fair o);
  }
  admitted-IsBounded owner t (true, jobs) room fewer less free b = record {
    counted = ground (arith, b.counted);
    counted_for = λ o.
        rw
          (lookup-insert owner o (admitted_for owner t.admissions_by_owner + 1)
            t.admissions_by_owner)
          (elim (Bool-cases (owner == o)) [
            | inl same ↦
                rw (times-cons o owner flights, same, sym ((eq_iff owner o).0 same))
                  (ground (arith, b.counted_for owner))
            | inr other ↦ rw (times-cons o owner flights, other) (ground (arith, b.counted_for o))
          ]);
    capacity = ground (arith, room refl);
    fair = λ o. rw (times-cons o owner flights) (elim (Bool-cases (owner == o)) [
      | inl same ↦ rw (same, sym ((eq_iff owner o).0 same)) (ground (arith, less owner, free))
      | inr other ↦ rw other (ground (arith, less o, b.fair o))
    ]);
  }

  -- Admitting a request keeps the limits.
  admit_pruned-IsBounded :
      (owner : String) (t : JobTable)
      → IsBounded limits flights t
      → IsBounded limits
          (if (admit_pruned limits owner t).0 then owner ∷ flights else flights)
          (admit_pruned limits owner t).1
  unfolding admit_pruned
  admit_pruned-IsBounded owner t b =
      elim (Bool-cases (
        leb limits.max_running_jobs_per_owner
          (running_for owner t.jobs + admitted_for owner t.admissions_by_owner))) [
            | inl full ↦ rw full b
            | inr free ↦
                let (room, fewer, less) =
                  make_room-Fits (length t.jobs) limits t.admissions t.jobs in
                let made = make_room (length t.jobs) limits t.admissions t.jobs in
                rw free (
                  admitted-IsBounded owner t made room fewer less
                    (ground (arith, free, b.counted_for owner)) b)
          ]

  pub admit-IsBounded :
      (now : ℕ) (owner : String) (t : JobTable)
      → IsBounded limits flights t
      → IsBounded limits
          (if (admit limits now owner t).0 then owner ∷ flights else flights)
          (admit limits now owner t).1
  unfolding admit
  admit-IsBounded now owner t b =
      admit_pruned-IsBounded owner (prune limits now t) (prune-IsBounded now t b)

put_back-lookup :
    (owner o : String) (n : ℕ) (m : Dict ℕ)
    → admitted_for o (put_back owner n m) ≡ (if owner == o then n else admitted_for o m)
put_back-lookup owner o zero m = rw (lookup-remove owner o m) (ground arith)
put_back-lookup owner o (suc n) m = rw (lookup-insert owner o (suc n) m) (ground arith)

positive-lookup :
    (owner : String) (m : Dict ℕ) (n : ℕ)
    → admitted_for owner m ≡ n + 1
    → or_default (lookup owner m) 1 - 1 ≡ n
positive-lookup owner m n h = elim (Option-cases (lookup owner m)) [
  | inl e ↦ let k : 0 ≡ n + 1 = rw e at h in ground arith
  | inr (k, e) ↦ let f : k ≡ n + 1 = rw e at h in rw e (ground arith)
]

foreign :
    (o owner : String) (job : Job)
    → job.owner ≡ owner
    → (owner == o) ≡ false
    → runs_for o job ≡ false
unfolding runs_for
foreign o owner job mine other = rw (mine, other) refl

module _ (limits : JobLimits) {flights rest : List String} {owner : String} where
  released-counted_for :
      (t : JobTable)
      → Takes owner flights rest
      → IsBounded limits flights t
      → (o : String)
      → admitted_for o (
          put_back owner
            (or_default (lookup owner t.admissions_by_owner) 1 - 1)
            t.admissions_by_owner)
        ≡ times o rest
  released-counted_for t taken b o =
      let (mine, fewer) = times-Takes taken owner in
      let (of_o, same_) = times-Takes taken o in
      let held : admitted_for owner t.admissions_by_owner ≡ times owner rest + 1 =
        b.counted_for owner ∙ mine ∙ (rw (eq_refl owner) refl) in
      rw
        (
          put_back-lookup owner o _ t.admissions_by_owner,
          positive-lookup owner t.admissions_by_owner (times owner rest) held,
        )
        (elim (Bool-cases (owner == o)) [
          | inl same ↦ rw (same, (eq_iff owner o).0 same) refl
          | inr other ↦
              let k : times o flights ≡ times o rest + 0 = rw other at of_o in
              rw other (ground (arith, b.counted_for o))
        ])

  -- The end of a request that was admitted, with a job started or not
  pub release_admission-IsBounded :
      (t : JobTable)
      → Takes owner flights rest
      → IsBounded limits flights t
      → IsBounded limits rest (release_admission owner t)
  unfolding release_admission
  release_admission-IsBounded t taken b =
      let (mine, fewer) = times-Takes taken owner in
      record {
        counted = ground (arith, b.counted, fewer);
        counted_for = released-counted_for t taken b;
        capacity = ground (arith, b.capacity);
        fair = λ o. ground (arith, b.fair o, (times-Takes taken o).0);
      }

  started-capacity :
      (id : String) (job : Job) (t : JobTable)
      → Takes owner flights rest
      → IsBounded limits flights t
      → length (insert id job t.jobs) + (t.admissions - 1) ≤ limits.max_jobs
  started-capacity id job t taken b =
      let (mine, fewer) = times-Takes taken owner in
      ground (arith, b.capacity, b.counted, fewer, length-insert id job t.jobs)

  -- A job that was admitted takes the place of its admission.
  started-fair :
      (o id : String) (job : Job) (t : JobTable)
      → Takes owner flights rest
      → IsBounded limits flights t
      → job.owner ≡ owner
      → running_for o (insert id job t.jobs) + times o rest ≤ limits.max_running_jobs_per_owner
  started-fair o id job t taken b mine =
      let (of_o, fewer) = times-Takes taken o in
      let more = running_for-insert o id job t.jobs in
      elim (Bool-cases (owner == o)) [
        | inl same ↦
            let k : times o flights ≡ times o rest + 1 = rw same at of_o in ground (arith, b.fair o)
        | inr other ↦
            let k : times o flights ≡ times o rest + 0 = rw other at of_o in
            let same_ : running_for o (insert id job t.jobs) ≤ running_for o t.jobs + 0 =
              rw (foreign o owner job mine other) at more in
            ground (arith, b.fair o)
      ]

  pub start_job-IsBounded :
      (now : ℕ) (id : String) (grant : TaskToolGrant) (t : JobTable)
      → Takes owner flights rest
      → IsBounded limits flights t
      → IsBounded limits rest (release_admission owner (start_job now id grant owner t))
  unfolding release_admission start_job
  start_job-IsBounded now id grant t taken b =
      let (mine, fewer) = times-Takes taken owner in
      record {
        counted = ground (arith, b.counted, fewer);
        counted_for = released-counted_for t taken b;
        capacity = started-capacity id _ t taken b;
        fair = λ o. started-fair o id _ t taken b refl;
      }
