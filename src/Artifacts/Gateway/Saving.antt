-- ===== src/Artifacts/Gateway/Saving.antt =====
-- `_write_bytes` and `save_artifact` of backend/app/services/artifact_gateway.py.
use root_agent.Common.{
  ltb, leb, if◌then◌else◌, length, any, ℕ, ◌+◌, ◌-◌, Bool, true, false, not, ◌&&◌, Option, none,
  some, List, ◌∷◌, Text, text_eq,
}
use root_agent.Common.Result.{ok, err, ◌>>=◌, ◌>>◌, refuse}
use root_agent.Artifacts.Gateway.{
  generated, CatalogEntry, is_upload, Bytes, Gateway, Limits, unsupported, type_mismatch,
  file_quota, count_quota, byte_quota, upload_clash, unsafe_path, stray_file, not_written, Outcome,
  find_generated_by_filename, drop_other_generated_with_filename, remove, local_count, at_name,
  old_size,
}

-- What encoding and validating the data of a file gives (`_serialize`), the suffix of a name and
-- its media type, the cleaned name, and SHA-256. `is_unsafe` says that a path leaves the output
-- directory or is a link.
pub record Files (Data : Type 0) : Type 0 where
  pub sanitize_display_filename : Text → Text
  pub suffix : Text → Text
  pub media_type : Text → Option Text
  pub serialize : Text → Data → Outcome Bytes
  pub sha256 : Bytes → Text
  pub is_unsafe : Text → Bool

-- What a call of `save_artifact` draws or meets: a new reference, the time, and whether writing the
-- file raises.
pub record Draw : Type 0 where
  pub ref : Text
  pub now : ℕ
  pub write_fails : Bool

-- The content of a file that passed the checks.
pub record Content : Type 0 where
  pub name : Text
  pub raw : Bytes
  pub content_type : Text
  pub digest : Text

module _ {Data : Type 0} (F : Files Data) (L : Limits) where
  -- The checks before the lock is taken.
  unfoldable pub checked : Text → Data → Option Text → Outcome Content
  checked filename data' declared = do
    let safe_name = F.sanitize_display_filename filename
    let suffix = F.suffix safe_name
    detected ← elim (F.media_type suffix) [ none ↦ err unsupported | some t ↦ ok t ]
    raw ← F.serialize suffix data'
    refuse (elim declared [ none ↦ false | some t ↦ not (text_eq t detected) ]) type_mismatch
    refuse (ltb L.max_generated_file_bytes (length raw)) file_quota
    ok (record { name = safe_name; raw = raw; content_type = detected; digest = F.sha256 raw })

  -- The path that an existing entry is written to.
  unfoldable pub overwrite_target : CatalogEntry → Text → List CatalogEntry → Outcome Text
  overwrite_target existing safe_name entries = elim existing.local_path [
    | some path ↦ ok path
    | none ↦ do
      refuse (F.is_unsafe safe_name) unsafe_path
      refuse (leb L.max_generated_files_per_run (local_count entries)) count_quota
      ok safe_name
  ]

  -- `_write_bytes`: a file that could not be written is removed.
  unfoldable pub write_bytes : Draw → Text → Bytes → Gateway → Gateway
  write_bytes d target raw g = record g {
    disk = at_name target (if d.write_fails then none else some raw) g.disk;
  }

  abbrev pub updated : CatalogEntry → Content → Text → Draw → CatalogEntry
  updated existing c target d = record existing {
    filename = c.name;
    content_type = c.content_type;
    size = length c.raw;
    sha256 = c.digest;
    created_at = d.now;
    local_path = some target;
  }

  -- The branch that overwrites a generated artifact. The new counter is `+= len(raw) - old_size`.
  unfoldable pub overwrite_checks : CatalogEntry → Content → Gateway → Outcome Text
  unfolding overwrite_target
  overwrite_checks existing c g = do
    refuse (ltb (L.max_generated_run_bytes + old_size existing) (g.generated_bytes + length c.raw))
        byte_quota
    overwrite_target existing c.name g.entries

  unfoldable pub overwritten :
      CatalogEntry → Content → Draw → Gateway → Text → Outcome CatalogEntry × Gateway
  unfolding write_bytes drop_other_generated_with_filename
  overwritten existing c d g target =
      let w = write_bytes d target c.raw g in
      let entry = updated existing c target d in
      if d.write_fails then (err not_written, w) else (
        ok entry,
        record w {
          entries =
              entry
              ∷ remove existing.ref (drop_other_generated_with_filename c.name existing g.entries);
          generated_bytes = g.generated_bytes + length c.raw - old_size existing;
        },
      )

  unfoldable pub overwrite :
      CatalogEntry → Content → Draw → Gateway → Outcome CatalogEntry × Gateway
  unfolding overwrite_checks overwritten
  overwrite existing c d g = elim (overwrite_checks existing c g) [
    | err e ↦ (err e, g)
    | ok target ↦ overwritten existing c d g target
  ]

  abbrev pub new_entry : Content → Draw → CatalogEntry
  new_entry c d = record {
    ref = d.ref;
    filename = c.name;
    source = generated;
    content_type = c.content_type;
    size = length c.raw;
    sha256 = c.digest;
    created_at = d.now;
    storage_path = none;
    local_path = some c.name;
  }

  abbrev pub is_there : Option Bytes → Bool
  is_there none = false
  is_there (some b) = true

  -- The branch that makes a new artifact.
  unfoldable pub create_checks : Content → Gateway → Outcome (Unit {0})
  create_checks c g = do
    refuse (leb L.max_generated_files_per_run (local_count g.entries)) count_quota
    refuse (ltb L.max_generated_run_bytes (g.generated_bytes + length c.raw)) byte_quota
    refuse (F.is_unsafe c.name) unsafe_path
    refuse (is_there (g.disk c.name)) stray_file

  unfoldable pub created : Content → Draw → Gateway → Outcome CatalogEntry × Gateway
  unfolding write_bytes
  created c d g =
      let w = write_bytes d c.name c.raw g in
      let entry = new_entry c d in
      if d.write_fails then (err not_written, w) else (
        ok entry,
        record w {
          entries = entry ∷ g.entries;
          generated_bytes = g.generated_bytes + length c.raw;
        },
      )

  unfoldable pub create : Content → Draw → Gateway → Outcome CatalogEntry × Gateway
  unfolding create_checks created
  create c d g = elim (create_checks c g) [ err e ↦ (err e, g) | ok done ↦ created c d g ]

  -- An upload of the same name is in the way.
  abbrev pub is_upload_as : Text → CatalogEntry → Bool
  is_upload_as name e = is_upload e && text_eq e.filename name

  unfoldable pub store : Content → Draw → Gateway → Outcome CatalogEntry × Gateway
  unfolding find_generated_by_filename overwrite create
  store c d g =
      if any (is_upload_as c.name) g.entries
      then (err upload_clash, g)
      else elim (find_generated_by_filename c.name g.entries) [
        | some existing ↦ overwrite existing c d g
        | none ↦ create c d g
      ]

  unfoldable pub save_artifact :
      Text → Data → Option Text → Draw → Gateway → Outcome CatalogEntry × Gateway
  unfolding checked store
  save_artifact filename data' declared d g = elim (checked filename data' declared) [
    | err e ↦ (err e, g)
    | ok c ↦ store c d g
  ]
