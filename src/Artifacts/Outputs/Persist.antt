-- ===== src/Artifacts/Outputs/Persist.antt =====
-- `persist_generated_outputs` as a whole: its query, its loop and its handler.
use root_agent.Common.{
  if◌then◌else◌, filter, find?, ℕ, Bool, true, false, not, ◌&&◌, none, some, List, [], ◌∷◌,
}
use root_agent.Common.Result.{Result, ok, err}
use root_agent.Artifacts.Gateway.Reading.{Artifact}
use root_agent.Artifacts.Outputs.{
  Objects, Output, Setting, PersistError, not_owned, commit_failed, refresh_failed, Batch, has_id,
  persist_outputs, begin_batch, is_generated_in, delete_quietly,
}

-- The rows of the table and the objects of the storage.
pub record Store : Type 0 where
  pub rows : List Artifact
  pub objects : Objects

abbrev pub rows_of : List Artifact → List ℕ → List Artifact
rows_of rows [] = []
rows_of rows (id ∷ ids) = elim (find? (has_id id) rows) [
  | none ↦ rows_of rows ids
  | some a ↦ a ∷ rows_of rows ids
]

abbrev pub is_nil : {A : Type 0} → List A → Bool
is_nil [] = true
is_nil (x ∷ xs) = false

module _ (S : Setting) where
  abbrev pub run_batch : List Output → Store → Result PersistError (Unit {0}) × Batch
  run_batch outputs s =
      persist_outputs S outputs
        (begin_batch S (S.newest_first (filter (is_generated_in S) s.rows)) s.rows s.objects)

  -- The handler: the rows are the committed ones, the uploaded objects are deleted.
  abbrev pub rolled_back :
      PersistError → Batch → Store → Result PersistError (List Artifact) × Store
  rolled_back e b s = (err e, record s { objects = delete_quietly S b.uploaded_keys b.objects })

  abbrev pub settled :
      Result PersistError (Unit {0}) × Batch → Store → Result PersistError (List Artifact) × Store
  settled (err e, b) s = rolled_back e b s
  settled (ok done, b) s =
      if not (is_nil b.touched) && S.commit_fails b.rows
      then rolled_back commit_failed b s
      else if not (is_nil b.touched) && S.refresh_fails
      then rolled_back refresh_failed b (record s { rows = b.rows })
      else (ok (rows_of b.rows b.ordered), record { rows = b.rows; objects = b.objects })

  -- `owned` is what `get_owned_chat` finds.
  unfoldable pub persist_generated_outputs :
      Bool → List Output → Store → Result PersistError (List Artifact) × Store
  unfolding persist_outputs begin_batch
  persist_generated_outputs owned outputs s =
      if owned then settled (run_batch outputs s) s else (err not_owned, s)
