-- ===== src/Artifacts/Outputs/Untouched.antt =====
-- A batch of outputs and the rows that are not its chat's.
use root_agent.Common.{
  ◌==◌, Bool-cases, filter, any, All, ℕ, ◌≡◌, refl, inl, inr, Bool, true, false, not, ◌&&◌, List,
  [], ◌∷◌, map, arith, or_left, or_right, All-filter_mono, text_eq,
}
use root_agent.Common.Result.{Result, ok, err}
use root_agent.Artifacts.Gateway.Reading.{Artifact}
use root_agent.Artifacts.Gateway.Runs.{HasOwnIds}
use root_agent.Artifacts.Outputs.{
  Output, Setting, PersistError, Batch, has_id, begin_batch, is_generated_in,
}
use root_agent.Artifacts.Outputs.Persist.{
  Store, persist_generated_outputs, run_batch, settled, is_nil,
}
use root_agent.Artifacts.Outputs.Isolation.{others, IsMine}
use root_agent.Artifacts.Outputs.Loop.{IsTame, persist_outputs-IsTame}

module _ (S : Setting) where
  -- No row has this identifier.
  absent-IsMine : (id : ℕ) (rows : List Artifact) → any (has_id id) rows ≡ false → IsMine S rows id
  absent-IsMine id [] h = tt
  absent-IsMine id (a ∷ rows) h =
      let no = or_left (has_id id a) (any (has_id id) rows) h in
      ((λ is. absurd (cc)), absent-IsMine id rows (or_right (has_id id a) (any (has_id id) rows) h))

  other_ids :
      (a : Artifact) (rows : List Artifact)
      → any (λ b. b.id == a.id) rows ≡ false
      → All (λ b. has_id b.id a ≡ false) rows
  other_ids a [] h = tt
  other_ids a (b ∷ rows) h =
      let away : (b.id == a.id) ≡ false = or_left (b.id == a.id) (any (λ c. c.id == a.id) rows) h in
      (ground arith, other_ids a rows (or_right (b.id == a.id) (any (λ c. c.id == a.id) rows) h))

  -- A generated artifact of the chat is known by its identifier.
  generated-IsMine :
      (rows : List Artifact)
      → HasOwnIds rows
      → All (λ a. is_generated_in S a ≡ true → IsMine S rows a.id) rows
  generated-IsMine [] own = tt
  generated-IsMine (a ∷ rows) (alone, own) = (
    (λ mine. ((λ is. mine), absent-IsMine a.id rows alone)),
    both rows (other_ids a rows alone) (generated-IsMine rows own),
  )
    where
      both :
          (bs : List Artifact)
          → All (λ b. has_id b.id a ≡ false) bs
          → All (λ b. is_generated_in S b ≡ true → IsMine S rows b.id) bs
          → All (λ b. is_generated_in S b ≡ true → IsMine S (a ∷ rows) b.id) bs
      both [] away mine = tt
      both (b ∷ bs) (w, away) (m, mine) = ((λ is. ((λ same. absurd (cc)), m is)), both bs away mine)

  ids-IsMine :
      (start : List Artifact) (p : Artifact → Bool) (rows : List Artifact)
      → All (λ a. IsMine S start a.id) rows
      → All (IsMine S start) (map Artifact.id (filter p rows))
  ids-IsMine start p [] mine = tt
  ids-IsMine start p (a ∷ rows) (m, mine) = elim (Bool-cases (p a)) [
    | inl is ↦ rw is (m, ids-IsMine start p rows mine)
    | inr out ↦ rw out (ids-IsMine start p rows mine)
  ]

  module _ (s : Store)
      (ordered : (P : Artifact → Type 0) (rows : List Artifact)
        → All P rows
        → All P (S.newest_first rows))
      (own : HasOwnIds s.rows) (fresh : (n : ℕ) → any (has_id (S.new_id n)) s.rows ≡ false) where
    begin_batch-IsTame :
        IsTame S s.rows
          (begin_batch S (S.newest_first (filter (is_generated_in S) s.rows)) s.rows s.objects)
    unfolding begin_batch
    begin_batch-IsTame =
        let mine = generated-IsMine s.rows own in
        let queried =
          ordered (λ a. IsMine S s.rows a.id) (filter (is_generated_in S) s.rows)
            (All-filter_mono (is_generated_in S) s.rows (λ a is m. m is) mine) in
        record {
          names = λ name. ids-IsMine s.rows (λ a. text_eq a.filename name) _ queried;
          fresh = λ n. absent-IsMine (S.new_id n) s.rows (fresh n);
          same = refl;
        }

    settled-others :
        (r : Result PersistError (Unit {0}) × Batch)
        → IsTame S s.rows r.1
        → others S (settled S r s).1.rows ≡ others S s.rows
    settled-others (err e, b) tame = refl
    settled-others (ok done, b) tame =
        elim (Bool-cases (not (is_nil b.touched) && S.commit_fails b.rows)) [
          | inl refused ↦ rw refused refl
          | inr committed ↦ elim (Bool-cases (not (is_nil b.touched) && S.refresh_fails)) [
            | inl unread ↦ rw (committed, unread) tame.same
            | inr read ↦ rw (committed, read) tame.same
          ]
        ]

    -- Whether a batch is persisted or fails, the rows that are not generated artifacts of its chat
    -- and user (the uploads, and all rows of other chats and users) are afterwards the ones of
    -- before, unchanged and in their order; if the query's order adds nothing to the rows that it
    -- found, the rows have keys of their own, and the keys drawn for new rows are not there.
    pub persist_keeps_others :
        (owned : Bool) (outputs : List Output)
        → filter
            (λ a. not (is_generated_in S a))
            (persist_generated_outputs S owned outputs s).1.rows
          ≡ filter (λ a. not (is_generated_in S a)) s.rows
    unfolding persist_generated_outputs
    persist_keeps_others false outputs = refl
    persist_keeps_others true outputs =
        settled-others (run_batch S outputs s)
          (persist_outputs-IsTame S s.rows outputs _ begin_batch-IsTame)
