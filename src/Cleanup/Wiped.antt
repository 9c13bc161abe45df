-- ===== src/Cleanup/Wiped.antt =====
-- What a cleanup job that did not raise has wiped.
use root_agent.Common.{
  if◌then◌else◌, Bool-cases, Option-cases, any, All, ◌≡◌, refl, sym, ap, ◌∙◌, subst, inl, inr, Bool,
  true, false, List, [], ◌∷◌, arith, Text, text_eq, text_eq_refl,
}
use root_agent.Common.Result.{Result, ok, err}
use root_agent.Cleanup.{
  removed, wipe, CleanupJob, World, Setting, without, delete_files, delete_keys,
  remove_local_workspaces, after,
}

module _ (S : Setting) where
  without_in : (key : Text) (there : Text → Bool) → without S (key ∷ []) there key ≡ false
  without_in key there = rw (text_eq_refl key) (ground arith)

  without_stays :
      (keys : List Text) (there : Text → Bool) (k : Text)
      → there k ≡ false
      → without S keys there k ≡ false
  without_stays keys there k h = rw h refl

  removed_in :
      (id : Text) (there : Text → Bool) → S.rmtree_fails id ≡ false → removed S id there id ≡ false
  removed_in id there goes = rw goes (without_in id there)

  removed_stays :
      (id : Text) (there : Text → Bool) (k : Text) → there k ≡ false → removed S id there k ≡ false
  removed_stays id there k h = elim (Bool-cases (S.rmtree_fails id)) [
    | inl kept ↦ rw kept h
    | inr goes ↦ rw goes (without_stays (id ∷ []) there k h)
  ]

  without_all :
      (keys ks : List Text) (there : Text → Bool)
      → ((k : Text) → any (text_eq k) ks ≡ true → any (text_eq k) keys ≡ true)
      → All (λ k. without S keys there k ≡ false) ks
  without_all keys [] there held = tt
  without_all keys (k ∷ ks) there held =
      let self : any (text_eq k) (k ∷ ks) ≡ true = rw (text_eq_refl k) refl in
      let here = held k self in
      (ground (arith, here), without_all keys ks there (λ j h. held j (ground (arith, h))))

  -- A step that did not raise, and the one after it.
  after_ok :
      (r : Result Text (Unit {0}) × World) (next : World → Result Text (Unit {0}) × World)
      → (after S r next).0 ≡ ok tt
      → (r.0 ≡ ok tt) × ((next r.1).0 ≡ ok tt) × ((after S r next).1 ≡ (next r.1).1)
  after_ok (err e, w) next h = absurd (cc)
  after_ok (ok done, w) next h = (refl, h, refl)

  delete_files_stays :
      (keys : List Text) (w : World) (k : Text)
      → w.objects k ≡ false
      → (delete_files S keys w).1.objects k ≡ false
  delete_files_stays [] w k h = h
  delete_files_stays (key ∷ keys) w k h = elim (Option-cases (S.delete_fails key)) [
    | inl fine ↦
        rw (delete_files, fine)
          (delete_files_stays keys _ k (without_stays (key ∷ []) w.objects k h))
    | inr (e, fails) ↦ rw (delete_files, fails) h
  ]

  delete_files_gone :
      (keys : List Text) (w : World)
      → (delete_files S keys w).0 ≡ ok tt
      → All (λ k. (delete_files S keys w).1.objects k ≡ false) keys
  delete_files_gone [] w h = tt
  delete_files_gone (key ∷ keys) w h = elim (Option-cases (S.delete_fails key)) [
    | inl fine ↦
        let w₁ : World = record w { objects = without S (key ∷ []) w.objects } in
        let step : delete_files S (key ∷ keys) w ≡ delete_files S keys w₁ =
          rw (delete_files, fine) refl in
        let done : (delete_files S keys w₁).0 ≡ ok tt = ap (λ r. r.0) (sym step) ∙ h in
        subst (λ r. All (λ k. r.1.objects k ≡ false) (key ∷ keys)) (sym step)
          (
            delete_files_stays keys w₁ key (without_in key w.objects),
            delete_files_gone keys w₁ done,
          )
    | inr (e, fails) ↦
        let raised : Result.err e ≡ ok tt = rw (delete_files, fails) at h in absurd (cc)
  ]

  remove_stays :
      (ids : List Text) (w : World) (k : Text)
      → w.workspaces k ≡ false
      → (remove_local_workspaces S ids w).1.workspaces k ≡ false
  remove_stays [] w k h = h
  remove_stays (id ∷ ids) w k h = elim (Option-cases (S.bad_workspace id)) [
    | inl fine ↦
        rw (remove_local_workspaces, fine)
          (remove_stays ids _ k (removed_stays id w.workspaces k h))
    | inr (e, fails) ↦ rw (remove_local_workspaces, fails) h
  ]

  remove_gone :
      (ids : List Text) (w : World)
      → (remove_local_workspaces S ids w).0 ≡ ok tt
      → All
          (λ k. S.rmtree_fails k ≡ false → (remove_local_workspaces S ids w).1.workspaces k ≡ false)
          ids
  remove_gone [] w h = tt
  remove_gone (id ∷ ids) w h = elim (Option-cases (S.bad_workspace id)) [
    | inl fine ↦
        let w₁ : World = record w { workspaces = removed S id w.workspaces } in
        let step : remove_local_workspaces S (id ∷ ids) w ≡ remove_local_workspaces S ids w₁ =
          rw (remove_local_workspaces, fine) refl in
        let done : (remove_local_workspaces S ids w₁).0 ≡ ok tt = ap (λ r. r.0) (sym step) ∙ h in
        subst (λ r. All (λ k. S.rmtree_fails k ≡ false → r.1.workspaces k ≡ false) (id ∷ ids))
          (sym step)
          (
            λ goes. remove_stays ids w₁ id (removed_in id w.workspaces goes),
            remove_gone ids w₁ done,
          )
    | inr (e, fails) ↦
        let raised : Result.err e ≡ ok tt = rw (remove_local_workspaces, fails) at h in absurd (cc)
  ]

  -- Removing workspaces leaves the objects, the keys and the jobs alone; deleting files the jobs.
  remove_frame :
      (ids : List Text) (w : World)
      → ((remove_local_workspaces S ids w).1.objects ≡ w.objects)
        × ((remove_local_workspaces S ids w).1.keys ≡ w.keys)
        × ((remove_local_workspaces S ids w).1.jobs ≡ w.jobs)
  remove_frame [] w = (refl, refl, refl)
  remove_frame (id ∷ ids) w = elim (Option-cases (S.bad_workspace id)) [
    | inl fine ↦
        rw (remove_local_workspaces, fine)
          (remove_frame ids (record w { workspaces = removed S id w.workspaces }))
    | inr (e, fails) ↦ rw (remove_local_workspaces, fails) (refl, refl, refl)
  ]

  delete_files_jobs : (keys : List Text) (w : World) → (delete_files S keys w).1.jobs ≡ w.jobs
  delete_files_jobs [] w = refl
  delete_files_jobs (key ∷ keys) w = elim (Option-cases (S.delete_fails key)) [
    | inl fine ↦
        rw (delete_files, fine)
          (delete_files_jobs keys (record w { objects = without S (key ∷ []) w.objects }))
    | inr (e, fails) ↦ rw (delete_files, fails) refl
  ]

  -- The resources of a job are gone, but for workspaces that `rmtree` left.
  abbrev pub IsWiped : CleanupJob → World → Type 0
  IsWiped job w =
      All (λ k. w.objects k ≡ false) job.object_keys
      × All (λ k. w.keys k ≡ false) job.redis_keys
      × (S.is_local ≡ true
          → All (λ k. S.rmtree_fails k ≡ false → w.workspaces k ≡ false) job.workspace_ids)

  delete_keys_gone :
      (keys : List Text) (w : World)
      → (delete_keys S keys w).0 ≡ ok tt
      → All (λ k. (delete_keys S keys w).1.keys k ≡ false) keys
        × ((delete_keys S keys w).1.objects ≡ w.objects)
  delete_keys_gone keys w h = elim (Option-cases S.redis_fails) [
    | inl fine ↦
        let step : delete_keys S keys w ≡ (ok tt, record w { keys = without S keys w.keys }) =
          rw (delete_keys, fine) refl in
        subst (λ r. All (λ k. r.1.keys k ≡ false) keys × (r.1.objects ≡ w.objects)) (sym step)
          (without_all keys keys w.keys (λ k is. is), refl)
    | inr (e, fails) ↦
        let raised : Result.err e ≡ ok tt = rw (delete_keys, fails) at h in absurd (cc)
  ]

  delete_keys_jobs : (keys : List Text) (w : World) → (delete_keys S keys w).1.jobs ≡ w.jobs
  delete_keys_jobs keys w = elim (Option-cases S.redis_fails) [
    | inl fine ↦ rw (delete_keys, fine) refl
    | inr (e, fails) ↦ rw (delete_keys, fails) refl
  ]

  last_step : (is_local : Bool) → List Text → World → Result Text (Unit {0}) × World
  last_step is_local ids w = if is_local then remove_local_workspaces S ids w else (ok tt, w)

  last_step-IsWiped :
      (job : CleanupJob) (w : World) (is_local : Bool)
      → S.is_local ≡ is_local
      → All (λ k. w.objects k ≡ false) job.object_keys
      → All (λ k. w.keys k ≡ false) job.redis_keys
      → (last_step is_local job.workspace_ids w).0 ≡ ok tt
      → IsWiped job (last_step is_local job.workspace_ids w).1
  unfolding last_step
  last_step-IsWiped job w false is objects keys h = (objects, keys, λ yes_local. absurd (cc))
  last_step-IsWiped job w true is objects keys h =
      let (o, k, j) = remove_frame job.workspace_ids w in
      (
        subst (λ f. All (λ k. f k ≡ false) job.object_keys) (sym o) objects,
        subst (λ f. All (λ k. f k ≡ false) job.redis_keys) (sym k) keys,
        λ yes_local. remove_gone job.workspace_ids w h,
      )

  pub wipe-IsWiped :
      (job : CleanupJob) (w : World) → (wipe S job w).0 ≡ ok tt → IsWiped job (wipe S job w).1
  unfolding wipe last_step
  wipe-IsWiped job w h =
      let r = delete_files S job.object_keys w in
      let last = λ (w₂ : World). last_step S.is_local job.workspace_ids w₂ in
      let (deleted, rest, same) =
        after_ok r (λ w₁. after S (delete_keys S job.redis_keys w₁) last) h in
      let (unset, done, same₂) = after_ok (delete_keys S job.redis_keys r.1) last rest in
      let (keys, kept) = delete_keys_gone job.redis_keys r.1 unset in
      let objects =
        subst (λ f. All (λ k. f k ≡ false) job.object_keys) (sym kept)
          (delete_files_gone job.object_keys w deleted) in
      subst (λ v. IsWiped job v) (sym (same ∙ same₂))
        (last_step-IsWiped job (delete_keys S job.redis_keys r.1).1 S.is_local refl objects keys
          done)

  after_jobs :
      (r : Result Text (Unit {0}) × World) (next : World → Result Text (Unit {0}) × World)
      (jobs : List CleanupJob)
      → r.1.jobs ≡ jobs
      → ((w : World) → (next w).1.jobs ≡ w.jobs)
      → (after S r next).1.jobs ≡ jobs
  after_jobs (err e, w) next jobs h step = h
  after_jobs (ok done, w) next jobs h step = step w ∙ h

  last_step_jobs :
      (is_local : Bool) (ids : List Text) (w : World) → (last_step is_local ids w).1.jobs ≡ w.jobs
  unfolding last_step
  last_step_jobs false ids w = refl
  last_step_jobs true ids w = (remove_frame ids w).2

  pub wipe_jobs : (job : CleanupJob) (w : World) → (wipe S job w).1.jobs ≡ w.jobs
  unfolding wipe last_step
  wipe_jobs job w =
      after_jobs (delete_files S job.object_keys w) _ w.jobs (delete_files_jobs job.object_keys w)
        (λ w₁.
          after_jobs (delete_keys S job.redis_keys w₁) _ w₁.jobs
            (delete_keys_jobs job.redis_keys w₁) (last_step_jobs S.is_local job.workspace_ids))
