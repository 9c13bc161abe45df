-- ===== src/Artifacts/Outputs/Handover.antt =====
-- From the collection of a run's files to their persistence.
use root_agent.Common.{
  ltb, ==_refl, Bool-cases, length, sum_by, All, ℕ, suc, ◌+◌, ◌≤◌, max, ◌≡◌, refl, subst, inl, inr,
  Bool, true, false, Option, none, some, List, [], ◌∷◌, arith, All_mono, Text, text_eq_refl,
}
use root_agent.Common.Result.{Result, ok, err, ◌>>=◌, ◌>>◌, refuse}
use root_agent.Artifacts.Gateway.{Bytes}
use root_agent.Artifacts.Gateway.Reading.{ArtifactOutputKind}
use root_agent.Artifacts.Outputs.{Output, Setting, verify_unchanged}
use root_agent.Artifacts.Outputs.Collect.{
  Found, Root, CollectError, Validators, Validated, OutputLimits, output_type, validated,
  display_name, collected, collect_file, collect_files, contained_regular_files,
  collect_generated_outputs,
}

abbrev pub content_of : Output → Bytes
content_of o = elim o.on_disk [ none ↦ [] | some raw ↦ raw ]

module _ (V : Validators) (L : OutputLimits) where
  -- The manifest tells the content of the file.
  IsIntact : Output → Type 0
  IsIntact o =
      (o.on_disk ≡ some (content_of o))
      × (o.size ≡ length (content_of o))
      × (o.sha256 ≡ V.sha256 (content_of o))

  collected-IsIntact :
      (name media_type : Text) (kind : Option ArtifactOutputKind) (v : Validated)
      → IsIntact (collected V L name media_type kind v)
  unfolding IsIntact
  collected-IsIntact name media_type kind v = (refl, refl, refl)

  collect_file-IsIntact :
      (file : Found) (used : List Text) (o : Output)
      → collect_file V L file used ≡ ok o
      → IsIntact o
  unfolding collect_file
  collect_file-IsIntact file used o h =
      sized (ltb L.max_file_bytes (length file.content)) (output_type (V.suffix file.name)) h
    where
      named :
          (media_type : Text) (kind : Option ArtifactOutputKind) (x : Result CollectError Validated)
          → (x >>= λ v. ok (
              collected V L
                (display_name V L file.name (V.suffix file.name) (V.sha256 v.content) used)
                media_type
                kind
                v))
            ≡ ok o
          → IsIntact o
      named media_type kind (err e) h = absurd (cc)
      named media_type kind (ok v) h =
          let same : collected V L
                (display_name V L file.name (V.suffix file.name) (V.sha256 v.content) used)
                media_type kind v
              ≡ o =
            cc in
          subst (λ x. IsIntact x) same (collected-IsIntact _ media_type kind v)

      sized :
          (large : Bool) (t : Option (Text × Option ArtifactOutputKind))
          → (refuse large CollectError.generated_output_too_large
              >> ((elim t as (λ x. Result CollectError (Text × Option ArtifactOutputKind)) [
                | none ↦ err CollectError.unsupported_generated_output
                | some t' ↦ ok t'
              ])
                  >>= λ (media_type, kind).
                      (validated V L (V.suffix file.name) file.content >>= λ v. ok (
                        collected V L
                          (display_name V L file.name
                            (V.suffix file.name)
                            (V.sha256 v.content)
                            used)
                          media_type
                          kind
                          v))))
            ≡ ok o
          → IsIntact o
      sized true t h = absurd (cc)
      sized false none h = absurd (cc)
      sized false (some (media_type, kind)) h =
          named media_type kind (validated V L (V.suffix file.name) file.content) h

  IsFit : ℕ → ℕ → List Output → Type 0
  IsFit count total outputs =
      (length outputs ≡ count)
      × (total + sum_by Output.size outputs ≤ max total L.max_run_bytes)
      × All IsIntact outputs

  collect_files-IsFit :
      (files : List Found) (total : ℕ) (used : List Text) (outputs : List Output)
      → collect_files V L files total used ≡ ok outputs
      → IsFit (length files) total outputs
  unfolding collect_files IsFit
  collect_files-IsFit [] total used outputs h =
      let same : List.[] ≡ outputs = cc in
      subst
        (λ os.
          (length os ≡ 0)
          × (total + sum_by Output.size os ≤ max total L.max_run_bytes)
          × All IsIntact os)
        same (refl, omega arith, tt)
  collect_files-IsFit (file ∷ files) total used outputs h =
      opened (λ t u os. collect_files-IsFit files t u os) (collect_file V L file used) refl h
    where
      closed :
          (ih : (t : ℕ) (u : List Text) (os : List Output)
            → collect_files V L files t u ≡ ok os
            → IsFit (length files) t os)
          (o : Output) (x : Result CollectError (List Output))
          → IsIntact o
          → total + o.size ≤ L.max_run_bytes
          → collect_files V L files (total + o.size) (o.safe_name ∷ used) ≡ x
          → (x >>= λ rest. ok (o ∷ rest)) ≡ ok outputs
          → IsFit (suc (length files)) total outputs
      closed ih o (err e) intact room is h = absurd (cc)
      closed ih o (ok rest) intact room is h =
          let same : o ∷ rest ≡ outputs = cc in
          let (n, m, all) = ih (total + o.size) (o.safe_name ∷ used) rest is in
          subst (λ os. IsFit (suc (length files)) total os) same
            (omega (arith, n), omega (arith, m, room), (intact, all))

      opened :
          (ih : (t : ℕ) (u : List Text) (os : List Output)
            → collect_files V L files t u ≡ ok os
            → IsFit (length files) t os)
          (x : Result CollectError Output)
          → collect_file V L file used ≡ x
          → (x >>= λ o.
              refuse
                (ltb L.max_run_bytes (total + o.size))
                CollectError.generated_output_quota_exceeded
              >> (collect_files V L files (total + o.size) (o.safe_name ∷ used) >>= λ rest.
                  ok (o ∷ rest)))
            ≡ ok outputs
          → IsFit (suc (length files)) total outputs
      opened ih (err e) is h = absurd (cc)
      opened ih (ok o) is h = elim (Bool-cases (ltb L.max_run_bytes (total + o.size))) [
        | inl over ↦
            let refused : Result.err CollectError.generated_output_quota_exceeded ≡ ok outputs =
              rw over at h in
            absurd (cc)
        | inr room ↦
            closed ih o (collect_files V L files (total + o.size) (o.safe_name ∷ used))
              (collect_file-IsIntact file used o is) (ground arith) refl (rw room at h)
      ]

  verify-IsIntact :
      (S : Setting) (o : Output)
      → ((raw : Bytes) → S.hash raw ≡ V.sha256 raw)
      → IsIntact o
      → verify_unchanged S o ≡ ok (content_of o)
  unfolding verify_unchanged IsIntact
  verify-IsIntact S o alike (there, size, digest) = rw there (
      rw
        (
          size,
          digest,
          alike (content_of o),
          ==_refl (length (content_of o)),
          text_eq_refl (V.sha256 (content_of o)),
        )
        refl)

  -- What is collected from the output directory of a run is within the limits: no more outputs than
  -- the limit, and of a total size (after validation, which may have rewritten a file) within the
  -- limit of a run. Each output passes `_verify_unchanged` with the content that validation has left
  -- in its file, if that uses the same hash.
  pub collected_within :
      (S : Setting) (root : Root) (outputs : List Output)
      → ((raw : Bytes) → S.hash raw ≡ V.sha256 raw)
      → collect_generated_outputs V L root ≡ ok outputs
      → (length outputs ≤ L.max_files)
        × (sum_by Output.size outputs ≤ L.max_run_bytes)
        × All (λ o. verify_unchanged S o ≡ ok (content_of o)) outputs
  unfolding collect_generated_outputs IsFit
  collected_within S root outputs alike h = listed (contained_regular_files root) h
    where
      counted :
          (files : List Found) (many large : Bool)
          → many ≡ ltb L.max_files (length files)
          → (refuse many CollectError.generated_output_quota_exceeded
              >> (refuse large CollectError.generated_output_quota_exceeded
                  >> collect_files V L files 0 []))
            ≡ ok outputs
          → (length outputs ≤ L.max_files)
            × (sum_by Output.size outputs ≤ L.max_run_bytes)
            × All (λ o. verify_unchanged S o ≡ ok (content_of o)) outputs
      counted files true large is h = absurd (cc)
      counted files false true is h = absurd (cc)
      counted files false false is h =
          let (n, total, intact) = collect_files-IsFit files 0 [] outputs h in
          (
            ground arith,
            omega (arith, total),
            All_mono outputs (λ o fit. verify-IsIntact S o alike fit) intact,
          )

      listed :
          (x : Result CollectError (List Found))
          → (x >>= λ files.
              refuse (ltb L.max_files (length files)) CollectError.generated_output_quota_exceeded
              >> (refuse
                    (ltb L.max_run_bytes (sum_by (λ f. length f.content) files))
                    CollectError.generated_output_quota_exceeded
                  >> collect_files V L files 0 []))
            ≡ ok outputs
          → (length outputs ≤ L.max_files)
            × (sum_by Output.size outputs ≤ L.max_run_bytes)
            × All (λ o. verify_unchanged S o ≡ ok (content_of o)) outputs
      listed (err e) h = absurd (cc)
      listed (ok files) h =
          counted files (ltb L.max_files (length files))
            (ltb L.max_run_bytes (sum_by (λ f. length f.content) files)) refl h
