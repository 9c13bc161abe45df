-- ===== src/Artifacts/Gateway/Deletion.antt =====
-- `delete_artifact` of backend/app/services/artifact_gateway.py.
use root_agent.Common.{if◌then◌else◌, ◌-◌, Bool, not, none, some, Text}
use root_agent.Common.Result.{ok, err, ◌>>=◌, ◌>>◌, refuse}
use root_agent.Artifacts.Gateway.{
  CatalogEntry, is_generated, Gateway, only_generated, not_wiped, Outcome, remove, resolve, at_name,
}

-- What a call of `delete_artifact` meets: whether wiping the object and the row raises, and whether
-- the local file can be unlinked.
pub record Wipe : Type 0 where
  pub durable_delete_fails : Bool
  pub unlinks : Bool

unfoldable pub delete_checks : Text → Wipe → Gateway → Outcome CatalogEntry
unfolding resolve
delete_checks ref w g = do
  entry ← resolve ref g.entries
  refuse (not (is_generated entry)) only_generated
  refuse w.durable_delete_fails not_wiped
  ok entry

unfoldable pub deleted : Wipe → Gateway → CatalogEntry → Gateway
deleted w g entry =
    let rest = remove entry.ref g.entries in
    elim entry.local_path [
      | none ↦ record g { entries = rest }
      | some path ↦ record g {
        entries = rest;
        disk = if w.unlinks then at_name path none g.disk else g.disk;
        generated_bytes = g.generated_bytes - entry.size;
      }
    ]

unfoldable pub delete_artifact : Text → Wipe → Gateway → Outcome CatalogEntry × Gateway
unfolding delete_checks deleted
delete_artifact ref w g = elim (delete_checks ref w g) [
  | err e ↦ (err e, g)
  | ok entry ↦ (ok entry, deleted w g entry)
]
