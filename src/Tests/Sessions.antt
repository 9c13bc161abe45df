-- ===== src/Tests/Sessions.antt =====
-- The theorems on sessions and their artifacts at concrete inputs.
use root_agent.Common.{
  ◌==◌, any, find?, All, ℕ, ◌+◌, ◌≡◌, refl, ap, Bool, true, false, none, some, [], ◌∷◌, map, arith,
  Text, codes, text_eq,
}
use root_agent.Run.Model.{Chat}
use root_agent.Artifacts.Gateway.{upload}
use root_agent.Artifacts.Gateway.Reading.{Artifact}
use root_agent.Artifacts.Outputs.{storage_path}
use root_agent.Sessions.{World, Object, Setting, is_named, chat_storage_prefix, delete_prefix}
use root_agent.Sessions.Service.{
  resolve_run_session, delete_session, is_session, wipe_session, remove_local_workspaces,
}
use root_agent.Sessions.Artifacts.{
  Stream, create_artifact_from_stream, get_owned_chat, add_artifact,
}
use root_agent.Sessions.Keys.{AreUuids}
use root_agent.Sessions.Deletion.{Ends}
use root_agent.Sessions.Isolation.{delete_session-Ends}
use root_agent.Sessions.Sound.{IsSound}
use root_agent.Sessions.Refine.{CreateSpec, create_artifact_refines}
use root_agent.Sessions.View.{files}
use root_agent.Sessions.Calls.{Reach, here, make_session, create, empty, no_orphans}

abbrev letter : ℕ → Text
letter n = (n + 48) ∷ []

abbrev setting : ℕ → Bool → Setting
setting id stale = record {
  uuid = letter;
  clean = λ name fallback. name;
  fallback = codes "f";
  new_id = id;
  now = 100;
  upload_fails = λ key. false;
  list_fails = λ key. false;
  remove_fails = λ key. false;
  redis_fails = false;
  is_local = true;
  bad_workspace = λ id. false;
  rmtree_fails = λ id. false;
  commit_fails = false;
  refresh_fails = stale;
}

abbrev first_code : Text → ℕ
first_code [] = 0
first_code (c ∷ text) = c

letter_apart : (m n : ℕ) → letter m ≡ letter n → m ≡ n
letter_apart m n same = let heads : m + 48 ≡ n + 48 = ap first_code same in omega arith

letter_plain : (n : ℕ) → any (λ c. c == 47) (letter n) ≡ false
letter_plain n = ground arith

letters : (id : ℕ) (stale : Bool) → AreUuids (setting id stale)
letters id stale = record { apart = letter_apart; plain = letter_plain }

abbrev stream : Stream
stream = record {
  filename = codes "a.csv";
  content_type = codes "text/csv";
  content = 1 ∷ 2 ∷ [];
  file_size = 2;
  sha256 = codes "d";
  source = upload;
  output_kind = none;
  width = none;
  height = none;
}

abbrev first : World
first = (resolve_run_session (setting 5 false) 1 none 9 (empty (1 ∷ []))).1

abbrev second : World
second = (create_artifact_from_stream (setting 6 false) 1 9 stream first).1

abbrev third : World
third =
    (create_artifact_from_stream (setting 7 true) 1 9 (record stream { filename = codes "b.csv" })
      second).1

calls : Reach letter (empty (1 ∷ [])) third
unfolding resolve_run_session create_artifact_from_stream get_owned_chat add_artifact storage_path
calls =
    create (setting 7 true) 1 9 (record stream { filename = codes "b.csv" })
      (create (setting 6 false) 1 9 stream
        (make_session (setting 5 false) 1 9 here refl (refl, refl, refl)) refl (refl, refl, refl)
        (λ key. refl))
      refl (refl, refl, refl) (λ key. refl)

no_orphans_example :
    All
      (λ o. any (λ a. text_eq (Artifact.storage_path a) (Object.name o)) third.artifacts ≡ true)
      third.objects
no_orphans_example = no_orphans (1 ∷ []) calls

-- A refresh that fails after the commit takes the object away and leaves the row: two rows, one object.
stale_refresh :
    (map Artifact.id third.artifacts ≡ 7 ∷ 6 ∷ [])
    × (map Object.name third.objects ≡ codes "1/5/upload/6" ∷ [])
unfolding resolve_run_session create_artifact_from_stream get_owned_chat add_artifact storage_path
stale_refresh = (refl, refl)

abbrev chat : Chat
chat = record { id = 5; user_id = 1; session_id = 9; deletion_requested_at = none }

found : find? (is_session 1 9) second.chats ≡ some chat
unfolding resolve_run_session create_artifact_from_stream get_owned_chat add_artifact storage_path
found = refl

delete_session-Ends_example :
    Ends (setting 8 false) chat second (delete_session (setting 8 false) 1 9 second)
    × (find?
          (is_named (storage_path letter 1 4 6 upload))
          (delete_session (setting 8 false) 1 9 second).1.objects
        ≡ find? (is_named (storage_path letter 1 4 6 upload)) second.objects)
delete_session-Ends_example =
    delete_session-Ends (setting 8 false) (letters 8 false) chat second 1 9 1 4 6 upload found
      (omega arith)

all_gone :
    (map Object.name (delete_session (setting 8 false) 1 9 second).1.objects ≡ [])
    × (map Artifact.id (delete_session (setting 8 false) 1 9 second).1.artifacts ≡ [])
unfolding resolve_run_session create_artifact_from_stream get_owned_chat add_artifact storage_path
    delete_session wipe_session delete_prefix remove_local_workspaces chat_storage_prefix
all_gone = (refl, refl)

first-IsSound : IsSound letter first
unfolding resolve_run_session
first-IsSound = record {
  placed = tt;
  keyed = tt;
  agree = tt;
  alike = (((λ same. refl), tt), tt);
  stored = tt;
}

create_artifact_refines_example :
    CreateSpec
      (setting 6 false)
      1
      9
      stream
      first
      (create_artifact_from_stream (setting 6 false) 1 9 stream first)
unfolding resolve_run_session
create_artifact_refines_example =
    create_artifact_refines (setting 6 false) 1 9 stream first (λ key. refl) (letters 6 false)
      first-IsSound refl

file_shown : files second 5 (codes "a.csv") ≡ some (1 ∷ 2 ∷ [])
unfolding files resolve_run_session create_artifact_from_stream get_owned_chat add_artifact
    storage_path
file_shown = refl
