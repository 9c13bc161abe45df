-- ===== src/Artifacts/Gateway/Quota.antt =====
-- The quotas of a run hold after any calls of the tools.
use root_agent.Common.{
  if◌then◌else◌, Bool-cases, Option-cases, length, filter, any, ℕ, ◌+◌, ◌-◌, ◌≤◌, ◌<◌, ◌≡◌, refl,
  ap, inl, inr, Bool, true, false, not, Option, none, some, List, ◌∷◌, arith, Text, text_eq_refl,
}
use root_agent.Common.Result.{ok, err}
use root_agent.Artifacts.Gateway.{
  has_ref, CatalogEntry, Gateway, Limits, Outcome, is_local, is_generated_as, remove,
  find_generated_by_filename, drop_other_generated_with_filename, local_count, old_size,
}
use root_agent.Artifacts.Gateway.Saving.{
  is_upload_as, store, create, overwrite, new_entry, save_artifact, checked, created, create_checks,
  Files, Draw, Content, overwrite_target, overwrite_checks, overwritten, updated, write_bytes,
}
use root_agent.Artifacts.Gateway.Entries.{
  HasOwnRefs, files, bytes, local_count-eq-files, sum_by-split, filter-HasOwnRefs,
  remove-drop_other, find_generated-Holds,
}
use root_agent.Artifacts.Gateway.Weights.{
  none_found, found_weight, files-filter_rest, filter-rest, ref_free, single_after,
}

-- The counter is the size of the files of the run, which are within the quotas; no two of them
-- have one name, and no two entries one reference.
pub record IsWithin (L : Limits) (g : Gateway) : Type 0 where
  pub own : HasOwnRefs g.entries
  pub counted : g.generated_bytes ≡ bytes g.entries
  pub few : files g.entries ≤ L.max_generated_files_per_run
  pub small : bytes g.entries ≤ L.max_generated_run_bytes
  pub single : (name : Text) → files (filter (is_generated_as name) g.entries) ≤ 1

-- The file that takes the place of another, or that there is room for, is within the count.
room_left :
    (L : Limits) (b : Bool) (es : List CatalogEntry) (old rest : ℕ)
    → old ≡ (if b then 1 else 0)
    → old + rest ≡ files es
    → files es ≤ L.max_generated_files_per_run
    → (b ≡ false → local_count es < L.max_generated_files_per_run)
    → 1 + rest ≤ L.max_generated_files_per_run
room_left L true es old rest w split few count = omega arith
room_left L false es old rest w split few count = omega (arith, count refl, local_count-eq-files es)

-- What is on the disk does not matter.
stays :
    (L : Limits) (g : Gateway) (disk : Text → Option (List ℕ))
    → IsWithin L g
    → IsWithin L (record g { disk = disk })
stays L g disk v = record {
  own = v.own;
  counted = v.counted;
  few = v.few;
  small = v.small;
  single = v.single;
}

module _ {Data : Type 0} (F : Files Data) (L : Limits) where
  -- What taking the place of the entries of a name leaves.
  overwritten-IsWithin :
      (existing : CatalogEntry) (c : Content) (d : Draw) (target : Text) (g : Gateway)
      (disk : Text → Option (List ℕ))
      → IsWithin L g
      → find_generated_by_filename c.name g.entries ≡ some existing
      → g.generated_bytes + length c.raw ≤ L.max_generated_run_bytes + old_size existing
      → (is_local existing ≡ false → local_count g.entries < L.max_generated_files_per_run)
      → IsWithin L (record g {
        disk = disk;
        entries =
            updated F L existing c target d
            ∷ remove existing.ref (drop_other_generated_with_filename c.name existing g.entries);
        generated_bytes = g.generated_bytes + length c.raw - old_size existing;
      })
  overwritten-IsWithin existing c d target g disk v found room count =
      let es = g.entries in
      let Q = is_generated_as c.name in
      let held = find_generated-Holds c.name es existing v.own found in
      let weight = found_weight c.name es existing found (v.single c.name) in
      let rest = filter (λ x. not (Q x)) es in
      let taken = remove-drop_other c.name existing es v.own held.0 held.1 in
      let bytes_split = sum_by-split old_size Q es in
      let files_split = sum_by-split (λ e. if is_local e then 1 else 0) Q es in
      rw taken (record {
        own = (ref_free Q existing es v.own held.0 held.1, filter-HasOwnRefs _ es v.own);
        counted = omega (arith, v.counted, weight.0, bytes_split);
        few = room_left L (is_local existing) es _ _ weight.1 files_split v.few count;
        small = omega (arith, v.counted, weight.0, bytes_split);
        single = λ name.
            single_after (updated F L existing c target d) c.name name es rest (text_eq_refl c.name)
              (λ n. files-filter_rest (is_generated_as n) Q es) (ap files (filter-rest Q es))
              (v.single name);
      })

  overwrite_checks-ok :
      (existing : CatalogEntry) (c : Content) (g : Gateway) (target : Text)
      → overwrite_checks F L existing c g ≡ ok target
      → (g.generated_bytes + length c.raw ≤ L.max_generated_run_bytes + old_size existing)
        × (is_local existing ≡ false → local_count g.entries < L.max_generated_files_per_run)
  unfolding overwrite_checks overwrite_target
  overwrite_checks-ok existing c g target h = (ground arith, λ off. ground arith)

  overwritten_or-IsWithin :
      (existing : CatalogEntry) (c : Content) (d : Draw) (g : Gateway)
      → IsWithin L g
      → find_generated_by_filename c.name g.entries ≡ some existing
      → (x : Outcome Text) → overwrite_checks F L existing c g ≡ x
      → IsWithin L
          (elim x as (λ _. Outcome CatalogEntry × Gateway) [
            | err e ↦ (err e, g)
            | ok target ↦ overwritten F L existing c d g target
          ]).1
  unfolding overwritten write_bytes
  overwritten_or-IsWithin existing c d g v found (err e) is = v
  overwritten_or-IsWithin existing c d g v found (ok target) is =
      let room = overwrite_checks-ok existing c g target is in
      elim (Bool-cases d.write_fails) [
        | inl fails ↦ rw fails (stays L g _ v)
        | inr fine ↦ rw fine (overwritten-IsWithin existing c d target g _ v found room.0 room.1)
      ]

  pub overwrite-IsWithin :
      (existing : CatalogEntry) (c : Content) (d : Draw) (g : Gateway)
      → IsWithin L g
      → find_generated_by_filename c.name g.entries ≡ some existing
      → IsWithin L (overwrite F L existing c d g).1
  unfolding overwrite
  overwrite-IsWithin existing c d g v found =
      overwritten_or-IsWithin existing c d g v found (overwrite_checks F L existing c g) refl

  create_checks-ok :
      (c : Content) (g : Gateway) (done : Unit {0})
      → create_checks F L c g ≡ ok done
      → (local_count g.entries < L.max_generated_files_per_run)
        × (g.generated_bytes + length c.raw ≤ L.max_generated_run_bytes)
  unfolding create_checks
  create_checks-ok c g done h = (ground arith, ground arith)

  created_or-IsWithin :
      (c : Content) (d : Draw) (g : Gateway)
      → IsWithin L g
      → find_generated_by_filename c.name g.entries ≡ none
      → any (has_ref d.ref) g.entries ≡ false
      → (x : Outcome (Unit {0})) → create_checks F L c g ≡ x
      → IsWithin L
          (elim x as (λ _. Outcome CatalogEntry × Gateway) [
            | err e ↦ (err e, g)
            | ok done ↦ created F L c d g
          ]).1
  unfolding created write_bytes
  created_or-IsWithin c d g v absent fresh (err e) is = v
  created_or-IsWithin c d g v absent fresh (ok done) is =
      let room = create_checks-ok c g done is in
      let gone = none_found c.name g.entries absent in
      elim (Bool-cases d.write_fails) [
        | inl fails ↦ rw fails (stays L g _ v)
        | inr fine ↦ rw fine (record {
          own = (fresh, v.own);
          counted = omega (arith, v.counted);
          few = omega (arith, room.0, local_count-eq-files g.entries);
          small = omega (arith, v.counted, room.1);
          single = λ name.
              single_after (new_entry F L c d) c.name name g.entries g.entries (text_eq_refl c.name)
                (λ n. omega arith) (ap files gone) (v.single name);
        })
      ]

  pub create-IsWithin :
      (c : Content) (d : Draw) (g : Gateway)
      → IsWithin L g
      → find_generated_by_filename c.name g.entries ≡ none
      → any (has_ref d.ref) g.entries ≡ false
      → IsWithin L (create F L c d g).1
  unfolding create
  create-IsWithin c d g v absent fresh =
      created_or-IsWithin c d g v absent fresh (create_checks F L c g) refl

  pub store-IsWithin :
      (c : Content) (d : Draw) (g : Gateway)
      → IsWithin L g
      → any (has_ref d.ref) g.entries ≡ false
      → IsWithin L (store F L c d g).1
  unfolding store
  store-IsWithin c d g v fresh = elim (Bool-cases (any (is_upload_as F L c.name) g.entries)) [
    | inl clash ↦ rw clash v
    | inr clear ↦ elim (Option-cases (find_generated_by_filename c.name g.entries)) [
      | inl absent ↦ rw (clear, absent) (create-IsWithin c d g v absent fresh)
      | inr (e, found) ↦ rw (clear, found) (overwrite-IsWithin e c d g v found)
    ]
  ]

  -- Whatever a call saves, the quotas hold afterwards, if the reference that it draws is new.
  pub save_artifact-IsWithin :
      (filename : Text) (data' : Data) (declared : Option Text) (d : Draw) (g : Gateway)
      → IsWithin L g
      → any (has_ref d.ref) g.entries ≡ false
      → IsWithin L (save_artifact F L filename data' declared d g).1
  unfolding save_artifact
  save_artifact-IsWithin filename data' declared d g v fresh =
      passed (checked F L filename data' declared)
    where
      passed :
          (x : Outcome Content)
          → IsWithin L
              (elim x as (λ x'. Outcome CatalogEntry × Gateway) [
                | err e ↦ (err e, g)
                | ok c ↦ store F L c d g
              ]).1
      passed (err e) = v
      passed (ok c) = store-IsWithin c d g v fresh
