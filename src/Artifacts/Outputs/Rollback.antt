-- ===== src/Artifacts/Outputs/Rollback.antt =====
-- A batch of outputs that fails: what the handler leaves behind.
use root_agent.Common.{
  Bool-cases, filter, ℕ, ◌≡◌, refl, sym, ◌∙◌, ◌⊎◌, inl, inr, Bool, true, false, not, ◌&&◌, Option,
  none, some, List, [], ◌∷◌, ◌++◌, arith, or_left, Text, text_eq,
}
use root_agent.Common.Result.{Result, ok, err}
use root_agent.Artifacts.Gateway.{Bytes}
use root_agent.Artifacts.Gateway.Reading.{Artifact}
use root_agent.Artifacts.Outputs.{
  Objects, put, Output, Setting, PersistError, commit_failed, refresh_failed, is_generated_in,
  write_output, Batch, is_in, after, generated_object_key, obsolete, stored, verified, unless_known,
  replaced, overwrite_prior, add_row, verify_unchanged, persist_output, persist_outputs,
  begin_batch, delete_files, delete_quietly,
}
use root_agent.Artifacts.Outputs.Persist.{
  Store, persist_generated_outputs, run_batch, rolled_back, settled, is_nil,
}

-- An object that is as before, or gone.
abbrev IsOldOrGone : Option Bytes → Option Bytes → Type 0
IsOldOrGone before now = (now ≡ none) ⊎ (now ≡ before)

-- All objects but the uploaded ones are as before, or gone.
IsClean : Objects → Batch → Type 0
IsClean before b =
    (k : Text) → is_in k b.uploaded_keys ≡ false → IsOldOrGone (before k) (b.objects k)

not_in_last :
    (k key : Text) (keys : List Text)
    → is_in k (keys ++ (key ∷ [])) ≡ false
    → (is_in k keys ≡ false) × (text_eq k key ≡ false)
not_in_last k key [] h = (refl, or_left (text_eq k key) false h)
not_in_last k key (x ∷ keys) h = ground (arith, not_in_last k key keys)

gone :
    (before : Option Bytes) (k key : Text) (objects : Objects)
    → IsOldOrGone before (objects k)
    → IsOldOrGone before (put key none objects k)
gone before k key objects h = elim (Bool-cases (text_eq k key)) [
  | inl same ↦ rw same (inl refl)
  | inr other ↦ rw other h
]

module _ (S : Setting) (before : Objects) where
  delete_files_clean :
      (k : Text) (keys : List Text) (objects : Objects)
      → IsOldOrGone (before k) (objects k)
      → IsOldOrGone (before k) ((delete_files S keys objects).1 k)
  delete_files_clean k [] objects h = h
  delete_files_clean k (key ∷ keys) objects h = elim (Bool-cases (S.delete_fails key)) [
    | inl fails ↦ rw fails h
    | inr fine ↦
        rw fine (delete_files_clean k keys (put key none objects) (gone (before k) k key objects h))
  ]

  stored-IsClean :
      (key : Text) (raw : Bytes) (b : Batch)
      → IsClean before b
      → IsClean before (stored S key raw b)
  unfolding IsClean
  stored-IsClean key raw b clean k out =
      let parts = not_in_last k key b.uploaded_keys out in rw parts.1 (clean k parts.0)

  replaced-IsClean :
      (o : Output) (id : ℕ) (extras : List ℕ) (key : Text) (x : Bool × Objects) (b : Batch)
      → ((k : Text) → is_in k b.uploaded_keys ≡ false → IsOldOrGone (before k) (x.1 k))
      → IsClean before (replaced S o id extras key x b).1
  unfolding IsClean
  replaced-IsClean o id extras key (false, objects) b clean = clean
  replaced-IsClean o id extras key (true, objects) b clean = clean

  overwrite_prior-IsClean :
      (o : Output) (raw : Bytes) (id : ℕ) (extras : List ℕ) (b : Batch)
      → IsClean before b
      → IsClean before (overwrite_prior S o raw id extras b).1
  unfolding overwrite_prior IsClean
  overwrite_prior-IsClean o raw id extras b clean =
      let key = generated_object_key S id in
      let b' = stored S key raw b in
      let keys = obsolete b.rows key id extras in
      elim (Bool-cases (S.upload_fails key)) [
        | inl fails ↦ rw fails clean
        | inr fine ↦ rw fine (
            replaced-IsClean o id extras key (delete_files S keys b'.objects) b' (λ k out.
              delete_files_clean k keys b'.objects (stored-IsClean key raw b clean k out)))
      ]

  add_row-IsClean :
      (o : Output) (raw : Bytes) (b : Batch)
      → IsClean before b
      → IsClean before (add_row S o raw b).1
  unfolding add_row IsClean
  add_row-IsClean o raw b clean =
      let key = generated_object_key S (S.new_id b.drawn) in
      elim (Bool-cases (S.upload_fails key)) [
        | inl fails ↦ rw fails clean
        | inr fine ↦ rw fine (stored-IsClean key raw b clean)
      ]

  write_output-IsClean :
      (o : Output) (raw : Bytes) (ids : List ℕ) (b : Batch)
      → IsClean before b
      → IsClean before (write_output S o raw ids b).1
  write_output-IsClean o raw [] b clean = add_row-IsClean o raw b clean
  write_output-IsClean o raw (id ∷ extras) b clean = overwrite_prior-IsClean o raw id extras b clean

  verified-IsClean :
      (o : Output) (x : Result PersistError Bytes) (b : Batch)
      → IsClean before b
      → IsClean before (verified S o x b).1
  verified-IsClean o (err e) b clean = clean
  verified-IsClean o (ok raw) b clean =
      write_output-IsClean o raw (b.by_filename o.safe_name) b clean

  unless_known-IsClean :
      (o : Output) (id : Option ℕ) (b : Batch)
      → IsClean before b
      → IsClean before (unless_known S o id b).1
  unfolding IsClean
  unless_known-IsClean o (some id) b clean = clean
  unless_known-IsClean o none b clean = verified-IsClean o (verify_unchanged S o) b clean

  persist_output-IsClean :
      (o : Output) (b : Batch) → IsClean before b → IsClean before (persist_output S o b).1
  unfolding persist_output IsClean
  persist_output-IsClean o b clean = elim (Bool-cases (is_in o.sha256 b.seen)) [
    | inl again ↦ rw again clean
    | inr unseen ↦ rw unseen (
        unless_known-IsClean o (b.by_digest o.sha256) (record b { seen = o.sha256 ∷ b.seen }) clean)
  ]

  after-IsClean :
      (r : Result PersistError (Unit {0}) × Batch)
      (next : Batch → Result PersistError (Unit {0}) × Batch)
      → IsClean before r.1
      → ((b : Batch) → IsClean before b → IsClean before (next b).1)
      → IsClean before (after S r next).1
  after-IsClean (err e, b) next clean step = clean
  after-IsClean (ok done, b) next clean step = step b clean

  persist_outputs-IsClean :
      (outputs : List Output) (b : Batch)
      → IsClean before b
      → IsClean before (persist_outputs S outputs b).1
  unfolding persist_outputs
  persist_outputs-IsClean [] b clean = clean
  persist_outputs-IsClean (o ∷ outputs) b clean =
      after-IsClean (persist_output S o b) (persist_outputs S outputs)
        (persist_output-IsClean o b clean) (persist_outputs-IsClean outputs)

  -- The handler deletes what was uploaded.
  delete_quietly_out :
      (k : Text) (keys : List Text) (objects : Objects)
      → ((key : Text) → S.delete_fails key ≡ false)
      → (is_in k keys ≡ false → IsOldOrGone (before k) (objects k))
      → IsOldOrGone (before k) (delete_quietly S keys objects k)
  delete_quietly_out k [] objects fine h = h refl
  delete_quietly_out k (key ∷ keys) objects fine h =
      rw (fine key)
        (delete_quietly_out k keys (put key none objects) fine (wiped (text_eq k key) refl))
    where
      wiped :
          (same : Bool)
          → text_eq k key ≡ same
          → is_in k keys ≡ false
          → IsOldOrGone (before k) (put key none objects k)
      wiped true is out = rw is (inl refl)
      wiped false is out = rw is (h (rw is out))

begin_batch-IsClean :
    (S : Setting) (all_generated rows : List Artifact) (objects : Objects)
    → IsClean objects (begin_batch S all_generated rows objects)
unfolding begin_batch IsClean
begin_batch-IsClean S all_generated rows objects k out = inr refl

module _ (S : Setting) (s : Store) (fine : (key : Text) → S.delete_fails key ≡ false) where
  Undone : Result PersistError (List Artifact) × Store → Type 0
  Undone (ok rows, s') = Unit
  Undone (err e, s') =
      ((s'.rows ≡ s.rows) ⊎ (e ≡ refresh_failed))
      × ((k : Text) → IsOldOrGone (s.objects k) (s'.objects k))

  rolled_back-Undone :
      (e : PersistError) (b : Batch) → IsClean s.objects b → Undone (rolled_back S e b s)
  unfolding Undone IsClean
  rolled_back-Undone e b clean =
      (inl refl, λ k. delete_quietly_out S s.objects k b.uploaded_keys b.objects fine (clean k))

  settled-Undone :
      (r : Result PersistError (Unit {0}) × Batch) → IsClean s.objects r.1 → Undone (settled S r s)
  unfolding Undone IsClean
  settled-Undone (err e, b) clean = rolled_back-Undone e b clean
  settled-Undone (ok done, b) clean =
      elim (Bool-cases (not (is_nil b.touched) && S.commit_fails b.rows)) [
        | inl refused ↦ rw refused (rolled_back-Undone commit_failed b clean)
        | inr committed ↦ elim (Bool-cases (not (is_nil b.touched) && S.refresh_fails)) [
          | inl unread ↦
              rw (committed, unread)
                (
                  inr refl,
                  λ k. delete_quietly_out S s.objects k b.uploaded_keys b.objects fine (clean k),
                )
          | inr read ↦ rw (committed, read) tt
        ]
      ]

  persist-Undone :
      (owned : Bool) (outputs : List Output) → Undone (persist_generated_outputs S owned outputs s)
  unfolding persist_generated_outputs Undone
  persist-Undone false outputs = (inl refl, λ k. inr refl)
  persist-Undone true outputs = settled-Undone (run_batch S outputs s) (
      persist_outputs-IsClean S s.objects outputs _ (
        begin_batch-IsClean S (S.newest_first (filter (is_generated_in S) s.rows)) s.rows
          s.objects))

  -- If deletions of objects succeed, a batch that fails with an `Exception`, be it for an output that
  -- changed, an upload, the commit or the reading of the rows after it, leaves each object of the storage as it was or
  -- gone: no uploaded object is left behind. It leaves the table as it was, unless what failed is
  -- the reading after the commit.
  pub failed_batch_leaves_nothing :
      (owned : Bool) (outputs : List Output) (e : PersistError)
      → (persist_generated_outputs S owned outputs s).0 ≡ err e
      → (((persist_generated_outputs S owned outputs s).1.rows ≡ s.rows) ⊎ (e ≡ refresh_failed))
        × ((k : Text)
            → ((persist_generated_outputs S owned outputs s).1.objects k ≡ none)
              ⊎ ((persist_generated_outputs S owned outputs s).1.objects k ≡ s.objects k))
  unfolding Undone
  failed_batch_leaves_nothing owned outputs e h =
      settle (persist_generated_outputs S owned outputs s) h (persist-Undone owned outputs)
    where
      error_of :
          (x y : PersistError)
          → (◌≡◌ {A = Result PersistError (List Artifact)} (err x) (err y))
          → x ≡ y
      error_of x y h = cc

      settle :
          (r : Result PersistError (List Artifact) × Store)
          → r.0 ≡ err e
          → Undone r
          → ((r.1.rows ≡ s.rows) ⊎ (e ≡ refresh_failed))
            × ((k : Text) → (r.1.objects k ≡ none) ⊎ (r.1.objects k ≡ s.objects k))
      settle (ok rows, s') h u = absurd (cc)
      settle (err x, s') h (rows, objects) = (
        elim rows [ inl same ↦ inl same | inr late ↦ inr (sym (error_of x e h) ∙ late) ],
        objects,
      )
