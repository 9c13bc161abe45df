-- ===== src/Artifacts/Outputs/Isolation.antt =====
-- Whose rows a batch of outputs can change.
use root_agent.Common.{
  ◌==◌, if◌then◌else◌, ==_refl, Bool-cases, filter, All, All-append, ℕ, ◌≡◌, refl, ap, inl, inr,
  true, not, List, [], ◌∷◌, ◌++◌, map, arith, Text,
}
use root_agent.Artifacts.Gateway.Reading.{Artifact}
use root_agent.Artifacts.Outputs.{
  Output, Setting, has_id, is_extra, set_output, new_row, is_generated_in,
}

module _ (S : Setting) where
  -- The rows that are no generated artifacts of the chat.
  abbrev pub others : List Artifact → List Artifact
  others rows = filter (λ a. not (is_generated_in S a)) rows

  -- A row of this identifier is a generated artifact of the chat.
  abbrev pub IsMine : List Artifact → ℕ → Type 0
  IsMine rows id = All (λ a. has_id id a ≡ true → is_generated_in S a ≡ true) rows

  pub set-IsMine :
      (o : Output) (key : Text) (id i : ℕ) (rows : List Artifact)
      → IsMine rows i
      → IsMine (map (λ a. if has_id id a then set_output S o key a else a) rows) i
  set-IsMine o key id i [] mine = tt
  set-IsMine o key id i (a ∷ rows) (m, mine) = elim (Bool-cases (has_id id a)) [
    | inl here ↦ rw here (m, set-IsMine o key id i rows mine)
    | inr there ↦ rw there (m, set-IsMine o key id i rows mine)
  ]

  pub new-IsMine :
      (o : Output) (id i : ℕ) (key : Text) (rows : List Artifact)
      → IsMine rows i
      → IsMine (rows ++ (new_row S o id key ∷ [])) i
  new-IsMine o id i key rows mine =
      All-append (λ a. has_id i a ≡ true → is_generated_in S a ≡ true) rows _ mine
        ((λ h. rw (==_refl S.user_id, ==_refl S.chat_id) refl), tt)

  pub others-set :
      (o : Output) (key : Text) (id : ℕ) (rows : List Artifact)
      → IsMine rows id
      → others (map (λ a. if has_id id a then set_output S o key a else a) rows) ≡ others rows
  others-set o key id [] mine = refl
  others-set o key id (a ∷ rows) (m, mine) = elim (Bool-cases (has_id id a)) [
    | inl here ↦ rw (here, m here) (others-set o key id rows mine)
    | inr there ↦
        rw there
          (ap (λ l. if not (is_generated_in S a) then a ∷ l else l) (others-set o key id rows mine))
  ]

  pub others-new :
      (o : Output) (id : ℕ) (key : Text) (rows : List Artifact)
      → others (rows ++ (new_row S o id key ∷ [])) ≡ others rows
  others-new o id key [] = rw (==_refl S.user_id, ==_refl S.chat_id) refl
  others-new o id key (a ∷ rows) =
      ap (λ l. if not (is_generated_in S a) then a ∷ l else l) (others-new o id key rows)

  extra_mine :
      (a : Artifact) (extras : List ℕ)
      → is_extra extras a ≡ true
      → All (λ i. has_id i a ≡ true → is_generated_in S a ≡ true) extras
      → is_generated_in S a ≡ true
  extra_mine a [] h mine = absurd (cc)
  extra_mine a (i ∷ extras) h (m, mine) = elim (Bool-cases (i == a.id)) [
    | inl here ↦ m (ground arith)
    | inr there ↦ extra_mine a extras (rw there at h) mine
  ]

  heads :
      (a : Artifact) (rows : List Artifact) (ids : List ℕ)
      → All (IsMine (a ∷ rows)) ids
      → All (λ i. has_id i a ≡ true → is_generated_in S a ≡ true) ids
  heads a rows [] h = tt
  heads a rows (i ∷ ids) (m, mine) = (m.0, heads a rows ids mine)

  tails :
      (a : Artifact) (rows : List Artifact) (ids : List ℕ)
      → All (IsMine (a ∷ rows)) ids
      → All (IsMine rows) ids
  tails a rows [] h = tt
  tails a rows (i ∷ ids) (m, mine) = (m.1, tails a rows ids mine)

  pub others-filter :
      (extras : List ℕ) (rows : List Artifact)
      → All (IsMine rows) extras
      → others (filter (λ a. not (is_extra extras a)) rows) ≡ others rows
  others-filter extras [] mine = refl
  others-filter extras (a ∷ rows) mine = elim (Bool-cases (is_extra extras a)) [
    | inl out ↦
        rw (out, extra_mine a extras out (heads a rows extras mine))
          (others-filter extras rows (tails a rows extras mine))
    | inr kept ↦ rw kept (
        ap (λ l. if not (is_generated_in S a) then a ∷ l else l)
          (others-filter extras rows (tails a rows extras mine)))
  ]
