-- ===== src/Artifacts/Outputs/Loop.antt =====
-- The loop of a batch of outputs changes only the chat's generated artifacts.
use root_agent.Common.{
  Bool-cases, filter, All, All-filter, ℕ, ◌+◌, ◌≡◌, ◌∙◌, inl, inr, Bool, true, false, not, Option,
  none, some, List, [], ◌∷◌, ◌++◌, All_mono, Text, text_eq,
}
use root_agent.Common.Result.{Result, ok, err}
use root_agent.Artifacts.Gateway.{Bytes}
use root_agent.Artifacts.Gateway.Reading.{Artifact}
use root_agent.Artifacts.Outputs.{
  Objects, Output, Setting, PersistError, Batch, has_id, is_in, is_extra, after,
  generated_object_key, obsolete, stored, recorded, new_row, verified, unless_known, replaced,
  overwrite_prior, add_row, write_output, verify_unchanged, persist_output, persist_outputs,
  delete_files, is_generated_in,
}
use root_agent.Artifacts.Outputs.Isolation.{
  others, IsMine, set-IsMine, new-IsMine, others-set, others-new, others-filter,
}

-- What the loop keeps: the dictionary and the identifiers to come lead to rows of the chat's
-- generated artifacts alone, and the other rows are as they were.
pub record IsTame (S : Setting) (start : List Artifact) (b : Batch) : Type 0 where
  pub names : (name : Text) → All (IsMine S b.rows) (b.by_filename name)
  pub fresh : (n : ℕ) → IsMine S b.rows (S.new_id n)
  pub same : others S b.rows ≡ others S start

module _ (S : Setting) (start : List Artifact) where
  recorded-IsTame :
      (o : Output) (id : ℕ) (rows : List Artifact) (b : Batch)
      → ((i : ℕ) → IsMine S b.rows i → IsMine S rows i)
      → others S rows ≡ others S b.rows
      → IsMine S b.rows id
      → IsTame S start b
      → IsTame S start (recorded S o id rows b)
  recorded-IsTame o id rows b keeps alike mine tame = record {
    names = λ name. elim (Bool-cases (text_eq name o.safe_name)) [
      | inl here ↦ rw here (keeps id mine, tt)
      | inr there ↦ rw there (All_mono (b.by_filename name) keeps (tame.names name))
    ];
    fresh = λ n. keeps (S.new_id n) (tame.fresh n);
    same = alike ∙ tame.same;
  }

  replaced-IsTame :
      (o : Output) (id : ℕ) (extras : List ℕ) (key : Text) (x : Bool × Objects) (b : Batch)
      → All (IsMine S b.rows) (id ∷ extras)
      → IsTame S start b
      → IsTame S start (replaced S o id extras key x b).1
  replaced-IsTame o id extras key (false, objects) b mine tame = record {
    names = tame.names;
    fresh = tame.fresh;
    same = tame.same;
  }
  replaced-IsTame o id extras key (true, objects) b (m, mine) tame =
      let left = filter (λ a. not (is_extra extras a)) b.rows in
      let kept = λ (i : ℕ) (h : IsMine S b.rows i).
        All-filter (λ a. has_id i a ≡ true → is_generated_in S a ≡ true)
          (λ a. not (is_extra extras a)) b.rows h in
      recorded-IsTame o id _ (record b { objects = objects })
        (λ i h. set-IsMine S o key id i left (kept i h))
        (others-set S o key id left (kept id m) ∙ others-filter S extras b.rows mine) m
        (record { names = tame.names; fresh = tame.fresh; same = tame.same })

  write_output-IsTame :
      (o : Output) (raw : Bytes) (ids : List ℕ) (b : Batch)
      → All (IsMine S b.rows) ids
      → IsTame S start b
      → IsTame S start (write_output S o raw ids b).1
  unfolding add_row overwrite_prior
  write_output-IsTame o raw [] b mine tame =
      let id = S.new_id b.drawn in
      let key = generated_object_key S id in
      elim (Bool-cases (S.upload_fails key)) [
        | inl fails ↦ rw fails (record { names = tame.names; fresh = tame.fresh; same = tame.same })
        | inr fine ↦ rw fine (
            recorded-IsTame o id (b.rows ++ (new_row S o id key ∷ []))
              (stored S key raw (record b { drawn = b.drawn + 1 }))
              (λ i h. new-IsMine S o id i key b.rows h) (others-new S o id key b.rows)
              (tame.fresh b.drawn)
              (record { names = tame.names; fresh = tame.fresh; same = tame.same }))
      ]
  write_output-IsTame o raw (id ∷ extras) b mine tame =
      let key = generated_object_key S id in
      let b' = stored S key raw b in
      elim (Bool-cases (S.upload_fails key)) [
        | inl fails ↦ rw fails tame
        | inr fine ↦ rw fine (
            replaced-IsTame o id extras key
              (delete_files S (obsolete b.rows key id extras) b'.objects) b' mine
              (record { names = tame.names; fresh = tame.fresh; same = tame.same }))
      ]

  verified-IsTame :
      (o : Output) (x : Result PersistError Bytes) (b : Batch)
      → IsTame S start b
      → IsTame S start (verified S o x b).1
  verified-IsTame o (err e) b tame = tame
  verified-IsTame o (ok raw) b tame =
      write_output-IsTame o raw (b.by_filename o.safe_name) b (tame.names o.safe_name) tame

  unless_known-IsTame :
      (o : Output) (id : Option ℕ) (b : Batch)
      → IsTame S start b
      → IsTame S start (unless_known S o id b).1
  unless_known-IsTame o (some id) b tame = record {
    names = tame.names;
    fresh = tame.fresh;
    same = tame.same;
  }
  unless_known-IsTame o none b tame = verified-IsTame o (verify_unchanged S o) b tame

  persist_output-IsTame :
      (o : Output) (b : Batch) → IsTame S start b → IsTame S start (persist_output S o b).1
  unfolding persist_output
  persist_output-IsTame o b tame = elim (Bool-cases (is_in o.sha256 b.seen)) [
    | inl again ↦ rw again tame
    | inr unseen ↦ rw unseen (
        unless_known-IsTame o (b.by_digest o.sha256) (record b { seen = o.sha256 ∷ b.seen })
          (record { names = tame.names; fresh = tame.fresh; same = tame.same }))
  ]

  after-IsTame :
      (r : Result PersistError (Unit {0}) × Batch)
      (next : Batch → Result PersistError (Unit {0}) × Batch)
      → IsTame S start r.1
      → ((b : Batch) → IsTame S start b → IsTame S start (next b).1)
      → IsTame S start (after S r next).1
  after-IsTame (err e, b) next tame step = tame
  after-IsTame (ok done, b) next tame step = step b tame

  pub persist_outputs-IsTame :
      (outputs : List Output) (b : Batch)
      → IsTame S start b
      → IsTame S start (persist_outputs S outputs b).1
  unfolding persist_outputs
  persist_outputs-IsTame [] b tame = tame
  persist_outputs-IsTame (o ∷ outputs) b tame =
      after-IsTame (persist_output S o b) (persist_outputs S outputs)
        (persist_output-IsTame o b tame) (persist_outputs-IsTame outputs)
