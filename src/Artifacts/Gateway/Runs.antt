-- ===== src/Artifacts/Gateway/Runs.antt =====
-- A run on a chat: the gateway that `create_chat_artifact_gateway` makes, and calls of the tools.
use root_agent.Common.{
  ◌==◌, Bool-cases, filter, any, ℕ, ◌≡◌, refl, sym, inl, inr, Bool, false, Option, List, [], ◌∷◌,
  map, arith, or_left, or_right, Text, text_eq, text_eq_sound,
}
use root_agent.Artifacts.Gateway.{
  CatalogEntry, Bytes, Gateway, Limits, has_ref, is_upload, is_generated_as,
}
use root_agent.Artifacts.Gateway.Saving.{Files}
use root_agent.Artifacts.Gateway.Reading.{
  Artifact, catalog_entry, owned_in, create_chat_artifact_gateway,
}
use root_agent.Artifacts.Gateway.Entries.{HasOwnRefs, files, bytes}
use root_agent.Artifacts.Gateway.Quota.{IsWithin}
use root_agent.Artifacts.Gateway.Calls.{Reach, Reach-IsWithin, Reach_uploads}

any-catalog_entry :
    (ref_of : ℕ → Text) (id : ℕ) (rows : List Artifact)
    → ((m n : ℕ) → ref_of m ≡ ref_of n → m ≡ n)
    → any (λ a. a.id == id) rows ≡ false
    → any (has_ref (ref_of id)) (map (catalog_entry ref_of) rows) ≡ false
any-catalog_entry ref_of id [] apart h = refl
any-catalog_entry ref_of id (a ∷ rows) apart h =
    let differs : text_eq (ref_of a.id) (ref_of id) ≡ false =
      elim (Bool-cases (text_eq (ref_of a.id) (ref_of id))) [
        | inr unlike ↦ unlike
        | inl alike ↦
            let same = apart a.id id (text_eq_sound (ref_of a.id) (ref_of id) alike) in
            let other : (a.id == id) ≡ false =
              or_left (a.id == id) (any (λ b. b.id == id) rows) h in
            absurd (ground arith)
      ] in
    rw differs (
      any-catalog_entry ref_of id rows apart (or_right (a.id == id) (any (λ b. b.id == id) rows) h))

-- No two rows share a primary key.
abbrev pub HasOwnIds : List Artifact → Type 0
HasOwnIds [] = Unit
HasOwnIds (a ∷ rows) = (any (λ b. b.id == a.id) rows ≡ false) × HasOwnIds rows

catalog-HasOwnRefs :
    (ref_of : ℕ → Text) (rows : List Artifact)
    → ((m n : ℕ) → ref_of m ≡ ref_of n → m ≡ n)
    → HasOwnIds rows
    → HasOwnRefs (map (catalog_entry ref_of) rows)
catalog-HasOwnRefs ref_of [] apart own = tt
catalog-HasOwnRefs ref_of (a ∷ rows) apart own =
    (any-catalog_entry ref_of a.id rows apart own.0, catalog-HasOwnRefs ref_of rows apart own.1)

catalog_files :
    (ref_of : ℕ → Text) (p : CatalogEntry → Bool) (rows : List Artifact)
    → files (filter p (map (catalog_entry ref_of) rows)) ≡ 0
catalog_files ref_of p [] = refl
catalog_files ref_of p (a ∷ rows) = elim (Bool-cases (p (catalog_entry ref_of a))) [
  | inl on ↦ rw on (omega (arith, catalog_files ref_of p rows))
  | inr off ↦ rw off (catalog_files ref_of p rows)
]

catalog_bytes :
    (ref_of : ℕ → Text) (rows : List Artifact) → bytes (map (catalog_entry ref_of) rows) ≡ 0
catalog_bytes ref_of [] = refl
catalog_bytes ref_of (a ∷ rows) = omega (arith, catalog_bytes ref_of rows)

catalog_no_files :
    (ref_of : ℕ → Text) (rows : List Artifact) → files (map (catalog_entry ref_of) rows) ≡ 0
catalog_no_files ref_of [] = refl
catalog_no_files ref_of (a ∷ rows) = omega (arith, catalog_no_files ref_of rows)

module _ {Data : Type 0} (F : Files Data) (L : Limits) (ref_of : ℕ → Text)
    (newest_first : List Artifact → List Artifact) (user_id chat_id : ℕ)
    (disk : Text → Option Bytes) (rows : List Artifact) where
  abbrev start : Gateway
  start = create_chat_artifact_gateway ref_of newest_first user_id chat_id disk rows

  create-IsWithin :
      ((m n : ℕ) → ref_of m ≡ ref_of n → m ≡ n)
      → HasOwnIds (newest_first (filter (owned_in user_id chat_id) rows))
      → IsWithin L start
  unfolding create_chat_artifact_gateway
  create-IsWithin apart own =
      let chosen = newest_first (filter (owned_in user_id chat_id) rows) in
      record {
        own = catalog-HasOwnRefs ref_of chosen apart own;
        counted = sym (catalog_bytes ref_of chosen);
        few = omega (arith, catalog_no_files ref_of chosen);
        small = omega (arith, catalog_bytes ref_of chosen);
        single = λ name. omega (arith, catalog_files ref_of (is_generated_as name) chosen);
      }

  -- In a run on a chat, whatever calls of `save_artifact` and `delete_artifact` it makes, failing
  -- ones too, the counter of generated bytes is the sum of the sizes of the entries with a local
  -- file, this sum and their number are within the quotas, no two generated entries with a local
  -- file share a filename, and no two entries a reference; if the rows of the chat have
  -- keys of their own, keys have references of their own, and no call draws a reference that is
  -- there.
  pub run_keeps_quota :
      {g : Gateway}
      → ((m n : ℕ) → ref_of m ≡ ref_of n → m ≡ n)
      → HasOwnIds (newest_first (filter (owned_in user_id chat_id) rows))
      → Reach F L (create_chat_artifact_gateway ref_of newest_first user_id chat_id disk rows) g
      → IsWithin L g
  run_keeps_quota apart own r = Reach-IsWithin F L (create-IsWithin apart own) r

  -- Under the same conditions the uploads in the catalog, their order and all they say are after any
  -- calls of `save_artifact` and `delete_artifact` what they were at the start of the run.
  pub run_keeps_uploads :
      {g : Gateway}
      → ((m n : ℕ) → ref_of m ≡ ref_of n → m ≡ n)
      → HasOwnIds (newest_first (filter (owned_in user_id chat_id) rows))
      → Reach F L (create_chat_artifact_gateway ref_of newest_first user_id chat_id disk rows) g
      → filter is_upload g.entries
        ≡ filter is_upload
            (create_chat_artifact_gateway ref_of newest_first user_id chat_id disk rows).entries
  run_keeps_uploads apart own r = Reach_uploads F L (create-IsWithin apart own) r
