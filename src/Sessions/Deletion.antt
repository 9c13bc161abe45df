-- ===== src/Sessions/Deletion.antt =====
-- The deletion of a session: what it wipes, what it leaves, and what a failure leaves.
use root_agent.Common.{
  ◌==◌, if◌then◌else◌, Bool-cases, filter, All, ◌≡◌, refl, sym, ap, ◌∙◌, subst, inl, inr, false,
  not, List, [], ◌∷◌, map, Text, text_eq,
}
use root_agent.Common.Result.{after, ok, err}
use root_agent.Run.Model.{Chat, ChatRun}
use root_agent.Sessions.{
  World, Object, Setting, SessionError, Step, under, delete_prefix, chat_storage_prefix,
}
use root_agent.Sessions.Service.{
  delete_keys, remove_directories, remove_local_workspaces, commit, cascade_chat, session_key,
  wipe_session,
}
use root_agent.Sessions.Prefix.{delete_prefix_frame, delete_prefix_outside, delete_prefix_gone}
use root_agent.Sessions.Keys.{normalized-chat_storage_prefix}

pub record SameRows (w w' : World) : Type 0 where
  pub users : w'.users ≡ w.users
  pub chats : w'.chats ≡ w.chats
  pub runs : w'.runs ≡ w.runs
  pub artifacts : w'.artifacts ≡ w.artifacts

pub same_rows_trans : {u v w : World} → SameRows u v → SameRows v w → SameRows u w
same_rows_trans a b = record {
  users = b.users ∙ a.users;
  chats = b.chats ∙ a.chats;
  runs = b.runs ∙ a.runs;
  artifacts = b.artifacts ∙ a.artifacts;
}

same_rows_refl : (w : World) → SameRows w w
same_rows_refl w = record { users = refl; chats = refl; runs = refl; artifacts = refl }

-- A property of a chain of two steps, by whether the first raises.
pub after_cases :
    {A B : Type 0} (r : Step A) (next : A → World → Step B) (P : Step B → Type 0)
    → ((e : SessionError) → r.0 ≡ err e → P (err e, r.1))
    → ((a : A) → r.0 ≡ ok a → P (next a r.1))
    → P (after r next)
after_cases (err e, w) next P raised went = raised e refl
after_cases (ok a, w) next P raised went = went a refl

pub delete_prefix-SameRows :
    (S : Setting) (prefix : Text) (w : World) → SameRows w (delete_prefix S prefix w).1
delete_prefix-SameRows S prefix w =
    let frame = delete_prefix_frame S prefix w in
    record {
      users = ap World.users frame;
      chats = ap World.chats frame;
      runs = ap World.runs frame;
      artifacts = ap World.artifacts frame;
    }

-- Deleting keys and directories leaves the rows and the objects alone.
pub record Keeps (w w' : World) : Type 0 where
  pub rows : SameRows w w'
  pub objects : w'.objects ≡ w.objects

pub delete_keys-Keeps :
    (S : Setting) (keys : List Text) (w : World) → Keeps w (delete_keys S keys w).1
delete_keys-Keeps S keys w = elim (Bool-cases S.redis_fails) [
  | inl fails ↦ rw (delete_keys, fails) (record { rows = same_rows_refl w; objects = refl })
  | inr fine ↦
      rw (delete_keys, fine)
        (record {
          rows = record { users = refl; chats = refl; runs = refl; artifacts = refl };
          objects = refl;
        })
]

remove_directories_frame :
    (S : Setting) (ids : List Text) (w : World)
    → (remove_directories S ids w).1
      ≡ record w { workspaces = (remove_directories S ids w).1.workspaces }
remove_directories_frame S [] w = refl
remove_directories_frame S (id ∷ ids) w = elim (Bool-cases (S.bad_workspace id)) [
  | inl bad ↦ rw (remove_directories, bad) refl
  | inr fine ↦
      rw (remove_directories, fine)
        (remove_directories_frame S ids (record w {
          workspaces =
              if S.rmtree_fails id
              then w.workspaces
              else filter (λ d. not (text_eq d id)) w.workspaces;
        }))
]

pub remove_local_workspaces-Keeps :
    (S : Setting) (ids : List Text) (w : World) → Keeps w (remove_local_workspaces S ids w).1
unfolding remove_local_workspaces
remove_local_workspaces-Keeps S ids w = elim (Bool-cases S.is_local) [
  | inr remote ↦ rw remote (record { rows = same_rows_refl w; objects = refl })
  | inl here ↦
      let frame = remove_directories_frame S ids w in
      rw here (record {
        rows = record {
          users = ap World.users frame;
          chats = ap World.chats frame;
          runs = ap World.runs frame;
          artifacts = ap World.artifacts frame;
        };
        objects = ap World.objects frame;
      })
]

module _ (S : Setting) (chat : Chat) (w : World) where
  abbrev path : Text
  path = chat_storage_prefix S chat.user_id chat.id

  abbrev outside : List Object → List Object
  outside os = filter (λ o. not (under S path o)) os

  -- What the deletion of the chat comes to.
  unfoldable pub Ends : Step (Unit {0}) → Type 0
  Ends (err e, w') = SameRows w w' × (outside w'.objects ≡ outside w.objects)
  Ends (ok done, w') =
      SameRows (cascade_chat chat.id w) w'
      × (outside w'.objects ≡ outside w.objects)
      × All (λ o. under S path o ≡ false) w'.objects

  pub wipe_session-Ends : Ends (wipe_session S chat w)
  unfolding wipe_session Ends chat_storage_prefix
  wipe_session-Ends =
      let keys = session_key S chat.user_id chat.session_id ∷ [] in
      let ids = map (λ r. S.uuid (ChatRun.id r)) (filter (λ r. r.chat_id == chat.id) w.runs) in
      let w₁ = (delete_prefix S path w).1 in
      let w₂ = (delete_keys S keys w₁).1 in
      let w₃ = (remove_local_workspaces S ids w₂).1 in
      let rows₁ = delete_prefix-SameRows S path w in
      let second = delete_keys-Keeps S keys w₁ in
      let third = remove_local_workspaces-Keeps S ids w₂ in
      let rows₂ = same_rows_trans rows₁ second.rows in
      let rows₃ = same_rows_trans rows₂ third.rows in
      let normal = normalized-chat_storage_prefix S chat.user_id chat.id in
      let out₁ : outside w₁.objects ≡ outside w.objects =
        subst
          (λ p.
            filter (λ o. not (under S p o)) w₁.objects ≡ filter (λ o. not (under S p o)) w.objects)
          normal (delete_prefix_outside S path w) in
      let out₂ : outside w₂.objects ≡ outside w.objects = ap outside second.objects ∙ out₁ in
      let out₃ : outside w₃.objects ≡ outside w.objects = ap outside third.objects ∙ out₂ in
      after_cases (delete_prefix S path w) _ Ends (λ e raised. (rows₁, out₁))
        (λ _ went.
          let gone₁ =
            subst (λ p. All (λ o. under S p o ≡ false) w₁.objects) normal
              (delete_prefix_gone S path w went) in
          after_cases (delete_keys S keys w₁) _ Ends (λ e raised. (rows₂, out₂))
            (λ _ went₂.
              after_cases (remove_local_workspaces S ids w₂) _ Ends (λ e raised. (rows₃, out₃))
                (λ _ went₃. finish w₃ rows₃ out₃ (
                  subst (λ os. All (λ o. under S path o ≡ false) os)
                    (sym (third.objects ∙ second.objects)) gone₁))))
    where
      finish :
          (w' : World)
          → SameRows w w'
          → outside w'.objects ≡ outside w.objects
          → All (λ o. under S path o ≡ false) w'.objects
          → Ends (commit S (cascade_chat chat.id w') w')
      finish w' rows out gone = elim (Bool-cases S.commit_fails) [
        | inl fails ↦ rw (commit, fails) (rows, out)
        | inr fine ↦
            rw (commit, fine)
              (
                record {
                  users = rows.users;
                  chats = ap (λ l. filter (λ c. not (c.id == chat.id)) l) rows.chats;
                  runs = ap (λ l. filter (λ r. not (r.chat_id == chat.id)) l) rows.runs;
                  artifacts = ap (λ l. filter (λ a. not (a.chat_id == chat.id)) l) rows.artifacts;
                },
                out,
                gone,
              )
      ]
