-- ===== src/Cleanup.antt =====
-- backend/app/services/cleanup_service.py: jobs that wipe what deleted sessions, users and artifacts
-- leave outside the database, with retries.
pub mod Wiped
pub mod Settles
use root_agent.Common.{
  ltb, leb, ◌==◌, if◌then◌else◌, take, filter, any, ℕ, ◌+◌, ◌-◌, ◌*◌, ◌^◌, min, Bool, true, false,
  not, ◌&&◌, ◌||◌, Option, none, some, List, [], ◌∷◌, map, Text, text_eq,
}
use root_agent.Common.Result.{Result, ok, err}

pub data CleanupState : Type 0 where
  pending running complete failed : CleanupState

pub data CleanupOperation : Type 0 where
  artifact session user : CleanupOperation

pub record CleanupJob : Type 0 where
  pub id : ℕ
  pub operation : CleanupOperation
  pub subject_id : ℕ
  pub user_id : ℕ
  pub object_keys : List Text
  pub redis_keys : List Text
  pub workspace_ids : List Text
  pub state : CleanupState
  pub attempts : ℕ
  pub next_attempt_at : ℕ
  pub last_error : Option Text
  pub created_at : ℕ
  pub updated_at : ℕ

-- The jobs, and which objects, keys and workspaces are there.
pub record World : Type 0 where
  pub jobs : List CleanupJob
  pub objects : Text → Bool
  pub keys : Text → Bool
  pub workspaces : Text → Bool

abbrev pub max_cleanup_backoff_seconds : ℕ
max_cleanup_backoff_seconds = 3600

-- What a call meets: the time, the jobs that another worker has locked, which calls raise, and
-- whether workspaces are local. A commit that fails is not made. `bad_workspace` says that an identifier is no UUID or leads out of
-- the root, and `rmtree_fails` that a workspace stays, which `rmtree` is told to ignore.
pub record Setting : Type 0 where
  pub now : ℕ
  pub locked : CleanupJob → Bool
  pub delete_fails : Text → Option Text
  pub redis_fails : Option Text
  pub bad_workspace : Text → Option Text
  pub rmtree_fails : Text → Bool
  pub is_local : Bool
  pub claim_commit_fails : Option Text
  pub final_commit_fails : Option Text

abbrev pub waits : CleanupState → Bool
waits s = elim s [ pending ↦ true | running ↦ false | complete ↦ false | failed ↦ true ]

abbrev pub runs : CleanupState → Bool
runs s = elim s [ pending ↦ false | running ↦ true | complete ↦ false | failed ↦ false ]

-- The condition of the query; `stale_cutoff` is 120 seconds ago.
unfoldable pub is_due : ℕ → CleanupJob → Bool
is_due now job =
    (waits job.state && leb job.next_attempt_at now)
    || (runs job.state && ltb (job.updated_at + 120) now)

abbrev pub is_before : CleanupJob → CleanupJob → Bool
is_before a b =
    ltb a.next_attempt_at b.next_attempt_at
    || (a.next_attempt_at == b.next_attempt_at && leb a.created_at b.created_at)

abbrev pub sooner : CleanupJob → Option CleanupJob → CleanupJob
sooner job none = job
sooner job (some other) = if is_before job other then job else other

abbrev pub earliest : List CleanupJob → Option CleanupJob
earliest [] = none
earliest (job ∷ jobs) = some (sooner job (earliest jobs))

module _ (S : Setting) where
  unfoldable pub claimed_job : List CleanupJob → Option CleanupJob
  claimed_job jobs = earliest (filter (λ j. is_due S.now j && not (S.locked j)) jobs)

  abbrev pub claim : CleanupJob → CleanupJob
  claim job = record job { state = running; attempts = job.attempts + 1; updated_at = S.now }

  abbrev pub without : List Text → (Text → Bool) → Text → Bool
  without keys there k = there k && not (any (text_eq k) keys)

  abbrev pub delete_files : List Text → World → Result Text (Unit {0}) × World
  delete_files [] w = (ok tt, w)
  delete_files (key ∷ keys) w = elim (S.delete_fails key) [
    | some e ↦ (err e, w)
    | none ↦ delete_files keys (record w { objects = without (key ∷ []) w.objects })
  ]

  -- `shutil.rmtree(candidate, True)`
  abbrev pub removed : Text → (Text → Bool) → Text → Bool
  removed id there = if S.rmtree_fails id then there else without (id ∷ []) there

  -- `_remove_local_workspaces`
  abbrev pub remove_local_workspaces : List Text → World → Result Text (Unit {0}) × World
  remove_local_workspaces [] w = (ok tt, w)
  remove_local_workspaces (id ∷ ids) w = elim (S.bad_workspace id) [
    | some e ↦ (err e, w)
    | none ↦ remove_local_workspaces ids (record w { workspaces = removed id w.workspaces })
  ]

  abbrev pub after :
      Result Text (Unit {0}) × World
      → (World → Result Text (Unit {0}) × World)
      → Result Text (Unit {0}) × World
  after (err e, w) next = (err e, w)
  after (ok done, w) next = next w

  abbrev pub delete_keys : List Text → World → Result Text (Unit {0}) × World
  delete_keys keys w = elim S.redis_fails [
    | some e ↦ (err e, w)
    | none ↦ (ok tt, record w { keys = without keys w.keys })
  ]

  -- The `try` block.
  unfoldable pub wipe : CleanupJob → World → Result Text (Unit {0}) × World
  wipe job w = after (delete_files job.object_keys w) (λ w₁.
      after (delete_keys job.redis_keys w₁)
        (λ w₂. if S.is_local then remove_local_workspaces job.workspace_ids w₂ else (ok tt, w₂)))

  abbrev pub backoff : ℕ → ℕ
  backoff attempts = min (5 * 2 ^ (attempts - 1)) max_cleanup_backoff_seconds

  -- The handler and the `else` of the block, on a job that was claimed.
  unfoldable pub settled_job : CleanupJob → Result Text (Unit {0}) → CleanupJob
  settled_job job (err e) = record job {
    state = failed;
    next_attempt_at = S.now + backoff job.attempts;
    last_error = some (take 2000 e);
    updated_at = S.now;
  }
  settled_job job (ok done) = record job { state = complete; last_error = none; updated_at = S.now }

  abbrev pub set_job : CleanupJob → World → World
  set_job job w = record w { jobs = map (λ j. if j.id == job.id then job else j) w.jobs }

  abbrev pub conclude : CleanupJob → Result Text (Unit {0}) × World → World
  conclude job r = set_job (settled_job job r.0) r.1

  -- The rest of the call, after the commit that claims the job. If the last commit fails, the table
  -- keeps the claimed job, but what was wiped is gone.
  unfoldable pub process_job : CleanupJob → World → Result Text Bool × World
  unfolding wipe settled_job
  process_job job w =
      let r = wipe (claim job) (set_job (claim job) w) in
      elim S.final_commit_fails [ some e ↦ (err e, r.1) | none ↦ (ok true, conclude (claim job) r) ]

  -- One call by a worker that is not cancelled.
  unfoldable pub process_next_cleanup_job : World → Result Text Bool × World
  unfolding claimed_job process_job
  process_next_cleanup_job w = elim (claimed_job w.jobs) [
    | none ↦ (ok false, w)
    | some job ↦ elim S.claim_commit_fails [ some e ↦ (err e, w) | none ↦ process_job job w ]
  ]

-- `cleanup_worker_is_current`
unfoldable pub cleanup_worker_is_current : ℕ → ℕ → List CleanupJob → Bool
cleanup_worker_is_current now max_age_seconds jobs =
    not
      (any (λ j. waits j.state || (runs j.state && ltb (j.updated_at + max_age_seconds) now)) jobs)
