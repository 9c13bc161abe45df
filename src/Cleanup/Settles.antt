-- ===== src/Cleanup/Settles.antt =====
-- One call of `process_next_cleanup_job`.
use root_agent.Common.{
  ltb, leb, ◌==◌, if◌then◌else◌, ==_iff, ==_refl, Bool-cases, Option-cases, filter, ℕ, zero, suc,
  ◌+◌, ◌-◌, ◌^◌, ◌≤◌, ◌<◌, ◌≡◌, refl, sym, ap, ◌∙◌, subst, ◌⊎◌, inl, inr, Bool, true, false, not,
  ◌&&◌, Option, none, some, List, [], ◌∷◌, map, arith, and_left, Text,
}
use root_agent.Common.Result.{Result, ok, err}
use root_agent.Cleanup.{
  running, complete, failed, CleanupJob, World, Setting, is_due, sooner, is_before, earliest,
  claimed_job, claim, wipe, backoff, settled_job, set_job, conclude, process_job,
  process_next_cleanup_job, max_cleanup_backoff_seconds,
}
use root_agent.Cleanup.Wiped.{IsWiped, wipe-IsWiped, wipe_jobs}

pow_positive : (n : ℕ) → 1 ≤ 2 ^ n
pow_positive zero = omega arith
pow_positive (suc n) = omega (arith, pow_positive n)

All-sooner :
    (P : CleanupJob → Type 0) (job : CleanupJob) (o : Option CleanupJob)
    → P job
    → ((j : CleanupJob) → o ≡ some j → P j)
    → P (sooner job o)
All-sooner P job none p ps = p
All-sooner P job (some other) p ps = elim (Bool-cases (is_before job other)) [
  | inl first ↦ rw first p
  | inr second ↦ rw second (ps other refl)
]

-- The earliest job passes the test that all have passed.
earliest-filter :
    (p : CleanupJob → Bool) (jobs : List CleanupJob) (job : CleanupJob)
    → earliest (filter p jobs) ≡ some job
    → p job ≡ true
earliest-filter p [] job h = cc
earliest-filter p (j ∷ jobs) job h = elim (Bool-cases (p j)) [
  | inr out ↦ earliest-filter p jobs job (rw out at h)
  | inl is ↦
      let found : some (sooner j (earliest (filter p jobs))) ≡ some job = rw is at h in
      let same : sooner j (earliest (filter p jobs)) ≡ job = cc in
      subst (λ x. p x ≡ true) same
        (All-sooner (λ x. p x ≡ true) j (earliest (filter p jobs)) is (earliest-filter p jobs))
]

-- Setting a job twice sets it once.
map_twice :
    (a b : CleanupJob) (jobs : List CleanupJob)
    → a.id ≡ b.id
    → map (λ j. if j.id == b.id then b else j) (map (λ j. if j.id == a.id then a else j) jobs)
      ≡ map (λ j. if j.id == b.id then b else j) jobs
map_twice a b [] same = refl
map_twice a b (j ∷ jobs) same = elim (Bool-cases (j.id == a.id)) [
  | inl here ↦
      let there : (j.id == b.id) ≡ true =
        ap (λ i. i == b.id) ((==_iff j.id a.id).0 here ∙ same) ∙ ==_refl b.id in
      let set : (a.id == b.id) ≡ true = ap (λ i. i == b.id) same ∙ ==_refl b.id in
      rw here (rw (set, there) (ap (λ t. b ∷ t) (map_twice a b jobs same)))
  | inr there ↦ rw there (ap (λ t. (if j.id == b.id then b else j) ∷ t) (map_twice a b jobs same))
]

module _ (S : Setting) where
  backoff_bounds : (n : ℕ) → (1 ≤ backoff S n) × (backoff S n ≤ max_cleanup_backoff_seconds)
  backoff_bounds n = (omega (arith, pow_positive (n - 1)), omega arith)

  -- How a claimed job ends: done, with all its resources wiped, or to be tried again, within an hour.
  abbrev pub Ends : CleanupJob → CleanupJob → World → Type 0
  Ends job job' w =
      ((job'.state ≡ complete) × IsWiped S job w × ((n : ℕ) → is_due n job' ≡ false))
      ⊎ ((job'.state ≡ failed)
          × (S.now < job'.next_attempt_at)
          × (job'.next_attempt_at ≤ S.now + 3600)
          × ((n : ℕ) → is_due n job' ≡ leb job'.next_attempt_at n))

  settled_job-Ends :
      (job : CleanupJob) (r : Result Text (Unit {0}) × World)
      → (r.0 ≡ ok tt → IsWiped S job r.1)
      → Ends job (settled_job S job r.0) (conclude S job r)
  unfolding settled_job is_due
  settled_job-Ends job (ok done, w) wiped = inl (refl, wiped refl, λ n. refl)
  settled_job-Ends job (err e, w) wiped =
      let (low, high) = backoff_bounds job.attempts in
      inr (refl, omega (arith, low), omega (arith, high), λ n. ground arith)

  settled_count :
      (job : CleanupJob) (r : Result Text (Unit {0}))
      → ((settled_job S job r).attempts ≡ job.attempts) × ((settled_job S job r).id ≡ job.id)
  unfolding settled_job
  settled_count job (ok done) = (refl, refl)
  settled_count job (err e) = (refl, refl)

  -- A call whose last commit failed: the job is as it was claimed, and due 120 seconds later.
  abbrev pub IsInterrupted : CleanupJob → Type 0
  IsInterrupted job' = (job'.state ≡ running) × ((n : ℕ) → is_due n job' ≡ ltb (S.now + 120) n)

  -- What comes of a call after the commit that claimed the job.
  abbrev pub Settled : World → CleanupJob → Result Text Bool × World → Type 0
  Settled w job r =
      (job' : CleanupJob) × (r.1.jobs ≡ map (λ j. if j.id == job.id then job' else j) w.jobs)
      × (job'.attempts ≡ job.attempts + 1)
      × (((r.0 ≡ ok true) × Ends job job' r.1)
          ⊎ ((e : Text) × (S.final_commit_fails ≡ some e) × (r.0 ≡ err e) × IsInterrupted job'))

  -- What comes of a call that finds a job to claim.
  abbrev pub Processed : World → CleanupJob → Result Text Bool × World → Type 0
  Processed w job r =
      ((e : Text) × (S.claim_commit_fails ≡ some e) × (r.0 ≡ err e) × (r.1 ≡ w)) ⊎ Settled w job r

  process_job-Settled : (job : CleanupJob) (w : World) → Settled w job (process_job S job w)
  unfolding process_job is_due
  process_job-Settled job w =
      let start = set_job S (claim S job) w in
      let r = wipe S (claim S job) start in
      let job' = settled_job S (claim S job) r.0 in
      let (count, id) = settled_count (claim S job) r.0 in
      let kept = wipe_jobs S (claim S job) start in
      let once = map_twice (claim S job) job' w.jobs (sym id) in
      let jobs : (conclude S (claim S job) r).jobs
          ≡ map (λ j. if j.id == job.id then job' else j) w.jobs =
        ap (λ js. map (λ j. if j.id == job'.id then job' else j) js) kept
        ∙ (once ∙ ap (λ i. map (λ j. if j.id == i then job' else j) w.jobs) id) in
      let ends = settled_job-Ends (claim S job) r (wipe-IsWiped S (claim S job) start) in
      elim (Option-cases S.final_commit_fails) [
        | inl made ↦
            let whole : process_job S job w ≡ (ok true, conclude S (claim S job) r) =
              rw (process_job, made) refl in
            subst (Settled w job) (sym whole) (job', jobs, count, inl (refl, ends))
        | inr (e, fails) ↦
            let whole : process_job S job w ≡ (err e, r.1) = rw (process_job, fails) refl in
            subst (Settled w job) (sym whole)
              (claim S job, kept, refl, inr (e, fails, refl, (refl, λ n. refl)))
      ]

  -- A call by a worker that is not cancelled, and that finds a job due and not locked, takes one
  -- that is due. If the commit that claims it fails, the call raises and nothing has changed.
  -- Otherwise all other jobs are left as they were, and the job has one attempt more. Either it is
  -- complete, all its objects, keys and (where workspaces are local) workspaces are gone, but for
  -- workspaces whose removal failed, which the code ignores, and it is never due again; or it
  -- failed, and is due from its next attempt on, which is after now and at most an hour from now;
  -- or the last commit failed, the call raises, and the job stays running and is due again when
  -- more than 120 seconds have passed.
  pub job_settles :
      (w : World) (job : CleanupJob)
      → claimed_job S w.jobs ≡ some job
      → (is_due S.now job ≡ true) × Processed w job (process_next_cleanup_job S w)
  unfolding process_next_cleanup_job claimed_job
  job_settles w job h =
      let due = earliest-filter (λ j. is_due S.now j && not (S.locked j)) w.jobs job h in
      (
        and_left (is_due S.now job) (not (S.locked job)) due,
        elim (Option-cases S.claim_commit_fails) [
          | inl made ↦
              let whole : process_next_cleanup_job S w ≡ process_job S job w =
                rw (process_next_cleanup_job, h, made) refl in
              subst (Processed w job) (sym whole) (inr (process_job-Settled job w))
          | inr (e, fails) ↦
              let whole : process_next_cleanup_job S w ≡ (err e, w) =
                rw (process_next_cleanup_job, h, fails) refl in
              subst (Processed w job) (sym whole) (inl (e, fails, refl, refl))
        ],
      )
