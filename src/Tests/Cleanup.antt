-- ===== src/Tests/Cleanup.antt =====
-- The theorems on backend/app/services/cleanup_service.py at concrete inputs.
use root_agent.Common.{ℕ, ◌≡◌, refl, true, false, none, some, [], ◌∷◌, map, codes}
use root_agent.Cleanup.{
  CleanupState, pending, running, failed, session, CleanupJob, World, Setting, is_due, claimed_job,
  process_next_cleanup_job, cleanup_worker_is_current, process_job, wipe,
}
use root_agent.Common.Result.{err}
use root_agent.Cleanup.Settles.{Processed, job_settles}

abbrev setting : Setting
setting = record {
  now = 1000;
  locked = λ j. false;
  delete_fails = λ key. none;
  redis_fails = some (codes "ConnectionError");
  bad_workspace = λ id. none;
  rmtree_fails = λ id. false;
  is_local = true;
  claim_commit_fails = none;
  final_commit_fails = none;
}

abbrev job : ℕ → CleanupState → ℕ → CleanupJob
job id state next = record {
  id = id;
  operation = session;
  subject_id = 4;
  user_id = 1;
  object_keys = codes "k" ∷ [];
  redis_keys = codes "r" ∷ [];
  workspace_ids = codes "w" ∷ [];
  state = state;
  attempts = 2;
  next_attempt_at = next;
  last_error = none;
  created_at = 5;
  updated_at = 990;
}

-- The first job is being worked on, the second waits, the third is due.
abbrev world : World
world = record {
  jobs = job 1 running 10 ∷ job 2 failed 1100 ∷ job 3 pending 900 ∷ [];
  objects = λ key. true;
  keys = λ key. true;
  workspaces = λ id. true;
}

takes_third : claimed_job setting world.jobs ≡ some (job 3 pending 900)
unfolding claimed_job is_due
takes_third = refl

job_settles_example :
    (is_due 1000 (job 3 pending 900) ≡ true)
    × Processed setting world (job 3 pending 900) (process_next_cleanup_job setting world)
job_settles_example = job_settles setting world (job 3 pending 900) takes_third

-- Redis answers, and the last commit fails.
abbrev interrupted : Setting
interrupted = record setting { redis_fails = none; final_commit_fails = some (codes "closed") }

-- What the job names is wiped, but the job is still running.
interrupted_stays_running :
    let (answer, after) = process_next_cleanup_job interrupted world in
    (answer ≡ err (codes "closed"))
    × (after.objects (codes "k") ≡ false)
    × (map (λ j. j.state) after.jobs ≡ running ∷ failed ∷ running ∷ [])
unfolding process_next_cleanup_job claimed_job is_due process_job wipe
interrupted_stays_running = (refl, refl, refl)

-- A job that waits for its next attempt is not due, yet the worker is said not to be current.
waiting_is_not_due : is_due 1000 (job 2 failed 1100) ≡ false
unfolding is_due
waiting_is_not_due = refl

waiting_is_not_current : cleanup_worker_is_current 1000 120 (job 2 failed 1100 ∷ []) ≡ false
unfolding cleanup_worker_is_current
waiting_is_not_current = refl
