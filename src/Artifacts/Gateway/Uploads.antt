-- ===== src/Artifacts/Gateway/Uploads.antt =====
-- The tools leave the uploads alone.
use root_agent.Common.{
  if◌then◌else◌, Bool-cases, Option-cases, filter, any, find?, ◌≡◌, refl, ap, ◌∙◌, inl, inr, Bool,
  true, false, not, Option, some, List, [], ◌∷◌, and_left, Text,
}
use mathlib.Core.Option.{some-injective}
use root_agent.Common.Result.{ok, err}
use root_agent.Artifacts.Gateway.{
  ArtifactSource, CatalogEntry, Gateway, Limits, Outcome, upload, generated, is_upload,
  is_generated, is_generated_as, has_ref, remove, find_generated_by_filename,
}
use root_agent.Artifacts.Gateway.Saving.{
  Files, Draw, Content, overwrite, overwrite_checks, overwritten, create, create_checks, created,
  store, save_artifact, checked, write_bytes, is_upload_as,
}
use root_agent.Artifacts.Gateway.Entries.{HasOwnRefs, remove-drop_other, find_generated-Holds}

pub generated-not_upload : (e : CatalogEntry) → is_generated e ≡ true → is_upload e ≡ false
generated-not_upload e is = of_source e.source is
  where
    of_source :
        (s : ArtifactSource)
        → elim s as (λ x. Bool) [ upload ↦ false | generated ↦ true ] ≡ true
        → elim s as (λ x. Bool) [ upload ↦ true | generated ↦ false ] ≡ false
    of_source upload h = cc
    of_source generated h = refl

uploads_rest :
    (name : Text) (es : List CatalogEntry)
    → filter is_upload (filter (λ x. not (is_generated_as name x)) es) ≡ filter is_upload es
uploads_rest name [] = refl
uploads_rest name (x ∷ es) = elim (Bool-cases (is_generated_as name x)) [
  | inr kept ↦ rw kept (ap (λ l. if is_upload x then x ∷ l else l) (uploads_rest name es))
  | inl out ↦ rw (out, generated-not_upload x (and_left _ _ out)) (uploads_rest name es)
]

pub uploads-remove :
    (ref : Text) (es : List CatalogEntry) (e : CatalogEntry)
    → find? (has_ref ref) es ≡ some e
    → is_upload e ≡ false
    → filter is_upload (remove ref es) ≡ filter is_upload es
uploads-remove ref [] e h off = refl
uploads-remove ref (x ∷ es) e h off = elim (Bool-cases (has_ref ref x)) [
  | inl here ↦ rw (here, ap is_upload (some-injective x e (rw here at h)) ∙ off) refl
  | inr there ↦
      rw there
        (ap (λ l. if is_upload x then x ∷ l else l) (uploads-remove ref es e (rw there at h) off))
]

module _ {Data : Type 0} (F : Files Data) (L : Limits) (c : Content) (d : Draw) (g : Gateway) where
  abbrev Keeps : Gateway → Type 0
  Keeps g' = filter is_upload g'.entries ≡ filter is_upload g.entries

  overwritten-Keeps :
      (existing : CatalogEntry) (target : Text)
      → HasOwnRefs g.entries
      → find_generated_by_filename c.name g.entries ≡ some existing
      → Keeps (overwritten F L existing c d g target).1
  unfolding overwritten write_bytes
  overwritten-Keeps existing target own found =
      let held = find_generated-Holds c.name g.entries existing own found in
      let taken = remove-drop_other c.name existing g.entries own held.0 held.1 in
      let off = generated-not_upload existing (and_left _ _ held.1) in
      elim (Bool-cases d.write_fails) [
        | inl fails ↦ rw fails refl
        | inr fine ↦ rw (fine, taken, off) (uploads_rest c.name g.entries)
      ]

  overwrite-Keeps :
      (existing : CatalogEntry)
      → HasOwnRefs g.entries
      → find_generated_by_filename c.name g.entries ≡ some existing
      → Keeps (overwrite F L existing c d g).1
  unfolding overwrite
  overwrite-Keeps existing own found = passed (overwrite_checks F L existing c g)
    where
      passed :
          (x : Outcome Text)
          → Keeps
              (elim x as (λ x'. Outcome CatalogEntry × Gateway) [
                | err e ↦ (err e, g)
                | ok target ↦ overwritten F L existing c d g target
              ]).1
      passed (err e) = refl
      passed (ok target) = overwritten-Keeps existing target own found

  create-Keeps : Keeps (create F L c d g).1
  unfolding create created write_bytes
  create-Keeps = passed (create_checks F L c g)
    where
      passed :
          (x : Outcome (Unit {0}))
          → Keeps
              (elim x as (λ x'. Outcome CatalogEntry × Gateway) [
                | err e ↦ (err e, g)
                | ok done ↦ created F L c d g
              ]).1
      passed (err e) = refl
      passed (ok done) = elim (Bool-cases d.write_fails) [
        | inl fails ↦ rw fails refl
        | inr fine ↦ rw fine refl
      ]

  store-Keeps : HasOwnRefs g.entries → Keeps (store F L c d g).1
  unfolding store
  store-Keeps own = elim (Bool-cases (any (is_upload_as F L c.name) g.entries)) [
    | inl clash ↦ rw clash refl
    | inr clear ↦ elim (Option-cases (find_generated_by_filename c.name g.entries)) [
      | inl absent ↦ rw (clear, absent) create-Keeps
      | inr (e, found) ↦ rw (clear, found) (overwrite-Keeps e own found)
    ]
  ]

module _ {Data : Type 0} (F : Files Data) (L : Limits) where
  -- A call that saves keeps the uploads as they are.
  pub save_artifact_keeps_uploads :
      (filename : Text) (data' : Data) (declared : Option Text) (d : Draw) (g : Gateway)
      → HasOwnRefs g.entries
      → filter is_upload (save_artifact F L filename data' declared d g).1.entries
        ≡ filter is_upload g.entries
  unfolding save_artifact
  save_artifact_keeps_uploads filename data' declared d g own =
      passed (checked F L filename data' declared)
    where
      passed :
          (x : Outcome Content)
          → filter is_upload
              (elim x as (λ x'. Outcome CatalogEntry × Gateway) [
                | err e ↦ (err e, g)
                | ok c ↦ store F L c d g
              ]).1.entries
            ≡ filter is_upload g.entries
      passed (err e) = refl
      passed (ok c) = store-Keeps F L c d g own
