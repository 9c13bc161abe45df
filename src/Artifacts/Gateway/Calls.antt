-- ===== src/Artifacts/Gateway/Calls.antt =====
-- Any calls of `save_artifact` and `delete_artifact`, one after another.
use root_agent.Common.{
  filter, if◌then◌else◌, Option-cases, filter, any, ◌≡◌, refl, sym, ap, ◌∙◌, inl, inr, true, false,
  not, Option, none, some, arith, Text,
}
use root_agent.Common.Result.{Result, ok, err, refuse, ◌>>◌, ◌>>=◌}
use root_agent.Artifacts.Gateway.{
  is_upload, is_upload, CatalogEntry, Gateway, Limits, not_wiped, only_generated, Outcome, is_local,
  is_generated, is_generated_as, has_ref, old_size, resolve,
}
use root_agent.Artifacts.Gateway.Saving.{Files, Draw, save_artifact}
use root_agent.Artifacts.Gateway.Deletion.{Wipe, delete_artifact, delete_checks, deleted}
use root_agent.Artifacts.Gateway.Entries.{
  HasOwnRefs, Holds, sum_by-remove, remove-HasOwnRefs, sum_by-remove_le, resolve-Holds,
}
use root_agent.Artifacts.Gateway.Weights.{files-filter-remove}
use root_agent.Artifacts.Gateway.Uploads.{
  uploads-remove, save_artifact_keeps_uploads, generated-not_upload,
}
use root_agent.Artifacts.Gateway.Quota.{IsWithin, save_artifact-IsWithin}

-- The entry that a deletion takes out is in the catalog, and generated.
pub delete_checks-Holds :
    (ref : Text) (w : Wipe) (g : Gateway) (e : CatalogEntry)
    → HasOwnRefs g.entries
    → delete_checks ref w g ≡ ok e
    → Holds e g.entries × (is_generated e ≡ true)
unfolding delete_checks
delete_checks-Holds ref w g e own h = picked (resolve ref g.entries) refl h
  where
    picked :
        (x : Outcome CatalogEntry)
        → resolve ref g.entries ≡ x
        → (x >>= λ entry.
            refuse (not (is_generated entry)) only_generated
            >> (refuse w.durable_delete_fails not_wiped >> ok entry))
          ≡ ok e
        → Holds e g.entries × (is_generated e ≡ true)
    picked (err x) is h = absurd (cc)
    picked (ok x) is h =
        let same : x ≡ e = ground arith in
        let made : is_generated x ≡ true = ground arith in
        (
          resolve-Holds ref g.entries e own (is ∙ ap Result.ok same),
          ap is_generated (sym same) ∙ made,
        )

weightless : (e : CatalogEntry) → e.local_path ≡ none → old_size e ≡ 0
weightless e durable = ground arith

weighs : (e : CatalogEntry) (path : Text) → e.local_path ≡ some path → old_size e ≡ e.size
weighs e path at = ground arith

pub deleted-IsWithin :
    (L : Limits) (w : Wipe) (g : Gateway) (e : CatalogEntry)
    → IsWithin L g
    → Holds e g.entries
    → IsWithin L (deleted w g e)
unfolding deleted
deleted-IsWithin L w g e v held =
    let less = sum_by-remove old_size e.ref g.entries e held in
    let fewer = sum_by-remove_le (λ x. if is_local x then 1 else 0) e.ref g.entries in
    let others = λ (name : Text). files-filter-remove (is_generated_as name) e.ref g.entries in
    elim (Option-cases e.local_path) [
      | inl durable ↦ rw durable (record {
        own = remove-HasOwnRefs e.ref g.entries v.own;
        counted = omega (arith, v.counted, less, weightless e durable);
        few = omega (arith, v.few);
        small = omega (arith, v.small);
        single = λ name. omega (arith, others name, v.single name);
      })
      | inr (path, at) ↦ rw at (record {
        own = remove-HasOwnRefs e.ref g.entries v.own;
        counted = omega (arith, v.counted, less, weighs e path at);
        few = omega (arith, v.few);
        small = omega (arith, v.small);
        single = λ name. omega (arith, others name, v.single name);
      })
    ]

-- The states that calls lead to. Each call that saves draws a reference that no entry has.
module _ {Data : Type 0} (F : Files Data) (L : Limits) where
  pub data Reach (start : Gateway) : Gateway → Type 0 where
    here : Reach start start
    save :
        {g : Gateway} (filename : Text) (data' : Data) (declared : Option Text) (d : Draw)
        → Reach start g
        → any (has_ref d.ref) g.entries ≡ false
        → Reach start (save_artifact F L filename data' declared d g).1
    delete :
        {g : Gateway} (ref : Text) (w : Wipe)
        → Reach start g
        → Reach start (delete_artifact ref w g).1

  delete_artifact-IsWithin :
      (ref : Text) (w : Wipe) (g : Gateway) → IsWithin L g → IsWithin L (delete_artifact ref w g).1
  unfolding delete_artifact
  delete_artifact-IsWithin ref w g v = passed (delete_checks ref w g) refl
    where
      passed :
          (x : Outcome CatalogEntry)
          → delete_checks ref w g ≡ x
          → IsWithin L
              (elim x as (λ x'. Outcome CatalogEntry × Gateway) [
                | err e ↦ (err e, g)
                | ok entry ↦ (ok entry, deleted w g entry)
              ]).1
      passed (err e) is = v
      passed (ok e) is = deleted-IsWithin L w g e v (delete_checks-Holds ref w g e v.own is).0

  pub Reach-IsWithin : {start g : Gateway} → IsWithin L start → Reach start g → IsWithin L g
  Reach-IsWithin v here = v
  Reach-IsWithin v (save filename data' declared d r fresh) =
      save_artifact-IsWithin F L filename data' declared d _ (Reach-IsWithin v r) fresh
  Reach-IsWithin v (delete ref w r) = delete_artifact-IsWithin ref w _ (Reach-IsWithin v r)

  deleted_uploads :
      (ref : Text) (w : Wipe) (g : Gateway)
      → HasOwnRefs g.entries
      → filter is_upload (delete_artifact ref w g).1.entries ≡ filter is_upload g.entries
  unfolding delete_artifact deleted
  deleted_uploads ref w g own = passed (delete_checks ref w g) refl
    where
      passed :
          (x : Outcome CatalogEntry)
          → delete_checks ref w g ≡ x
          → filter is_upload
              (elim x as (λ x'. Outcome CatalogEntry × Gateway) [
                | err e ↦ (err e, g)
                | ok entry ↦ (ok entry, deleted w g entry)
              ]).1.entries
            ≡ filter is_upload g.entries
      passed (err e) is = refl
      passed (ok e) is =
          let held = delete_checks-Holds ref w g e own is in
          let kept = uploads-remove e.ref g.entries e held.0 (generated-not_upload e held.1) in
          elim (Option-cases e.local_path) [
            | inl durable ↦ rw durable kept
            | inr (path, at) ↦ rw at kept
          ]

  pub Reach_uploads :
      {start g : Gateway}
      → IsWithin L start
      → Reach start g
      → filter is_upload g.entries ≡ filter is_upload start.entries
  Reach_uploads v here = refl
  Reach_uploads v (save filename data' declared d r fresh) =
      save_artifact_keeps_uploads F L filename data' declared d _ (Reach-IsWithin v r).own
      ∙ Reach_uploads v r
  Reach_uploads v (delete ref w r) =
      deleted_uploads ref w _ (Reach-IsWithin v r).own ∙ Reach_uploads v r
