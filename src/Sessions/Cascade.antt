-- ===== src/Sessions/Cascade.antt =====
-- Rows and objects when what is outside the database is wiped and rows are dropped.
use root_agent.Common.{
  if◌then◌else◌, Bool-cases, filter, All, All-filter, ℕ, ◌≡◌, sym, ap, ◌∙◌, subst, inl, inr, Bool,
  true, false, not, List, All_mono, Text, text_eq, starts_with, text_eq_sound,
}
use root_agent.Common.Result.{after, ok, err}
use root_agent.Run.Model.{Chat, ChatRun}
use root_agent.Artifacts.Gateway.Reading.{Artifact}
use root_agent.Sessions.{
  commit_failed, World, Object, Setting, Step, under, normalized, delete_prefix,
}
use root_agent.Sessions.Service.{delete_keys, remove_local_workspaces, commit}
use root_agent.Sessions.Prefix.{All_both, All-delete_prefix, delete_prefix_gone}
use root_agent.Sessions.Deletion.{
  SameRows, same_rows_trans, after_cases, delete_prefix-SameRows, delete_keys-Keeps,
  remove_local_workspaces-Keeps,
}
use root_agent.Sessions.Sound.{IsSound, HasRow, any-filter_kept, pairs_kept, shrunk}

module _ (S : Setting) where
  -- Rows that are dropped when nothing is left under a prefix that their objects are under.
  pub cascaded :
      (path : Text) (w : World) (goes : Artifact → Bool) (chat_goes : Chat → Bool) (users : List ℕ)
      (runs : List ChatRun)
      → IsSound S.uuid w
      → All (λ o. under S path o ≡ false) w.objects
      → All (λ a. goes a ≡ true → starts_with (Artifact.storage_path a) path ≡ true) w.artifacts
      → IsSound S.uuid (record w {
        users = users;
        chats = filter (λ c. not (chat_goes c)) w.chats;
        runs = runs;
        artifacts = filter (λ a. not (goes a)) w.artifacts;
      })
  cascaded path w goes chat_goes users runs v gone inside =
      let q = λ (a : Artifact). not (goes a) in
      let qc = λ (c : Chat). not (chat_goes c) in
      record {
        placed = All-filter _ q w.artifacts v.placed;
        keyed =
            pairs_kept
              (λ b c.
                Artifact.id c ≡ Artifact.id b → Artifact.storage_path c ≡ Artifact.storage_path b)
              q q w.artifacts w.artifacts v.keyed;
        agree =
            pairs_kept (λ b c. Chat.id c ≡ Artifact.chat_id b → Chat.user_id c ≡ Artifact.user_id b)
              q qc w.artifacts w.chats v.agree;
        alike =
            pairs_kept (λ c d. Chat.id d ≡ Chat.id c → Chat.user_id d ≡ Chat.user_id c) qc qc
              w.chats w.chats v.alike;
        stored = All_both w.objects (λ o has out. kept o has out) v.stored gone;
      }
    where
      stays :
          (o : Object) (a : Artifact)
          → under S path o ≡ false
          → (goes a ≡ true → starts_with a.storage_path path ≡ true)
          → text_eq a.storage_path o.name ≡ true
          → not (goes a) ≡ true
      stays o a out into here = elim (Bool-cases (goes a)) [
        | inr no_match ↦ ap not no_match
        | inl match ↦
            let name = text_eq_sound a.storage_path o.name here in
            let is : under S path o ≡ true = ap (λ n. starts_with n path) (sym name) ∙ into match in
            absurd (cc)
      ]

      kept :
          (o : Object)
          → HasRow w.artifacts o
          → under S path o ≡ false
          → HasRow (filter (λ a. not (goes a)) w.artifacts) o
      kept o has out =
          any-filter_kept (λ a. text_eq a.storage_path o.name) (λ a. not (goes a)) w.artifacts has
            (All_mono w.artifacts (λ a into here. stays o a out into here) inside)

  -- Wiping in the order of the code, and the cascade at the end.
  pub wiped-IsSound :
      (prefix : Text) (keys ids : List Text) (changed : World → World) (w : World)
      → IsSound S.uuid w
      → ((w' : World)
          → SameRows w w'
          → IsSound S.uuid w'
          → All (λ o. under S (normalized S prefix) o ≡ false) w'.objects
          → IsSound S.uuid (changed w'))
      → IsSound S.uuid
          (after (delete_prefix S prefix w) (λ _ w₁. after (delete_keys S keys w₁) (λ _ w₂.
            after (remove_local_workspaces S ids w₂) (λ _ w₃. commit S (changed w₃) w₃)))).1
  wiped-IsSound prefix keys ids changed w v cascade =
      let w₁ = (delete_prefix S prefix w).1 in
      let w₂ = (delete_keys S keys w₁).1 in
      let w₃ = (remove_local_workspaces S ids w₂).1 in
      let rows₁ = delete_prefix-SameRows S prefix w in
      let second = delete_keys-Keeps S keys w₁ in
      let third = remove_local_workspaces-Keeps S ids w₂ in
      let v₁ =
        shrunk S.uuid w w₁ rows₁ (All-delete_prefix S (λ o. HasRow w.artifacts o) prefix w v.stored)
          v in
      let v₂ =
        shrunk S.uuid w₁ w₂ second.rows
          (subst (λ os. All (λ o. HasRow w₁.artifacts o) os) (sym second.objects) v₁.stored) v₁ in
      let v₃ =
        shrunk S.uuid w₂ w₃ third.rows
          (subst (λ os. All (λ o. HasRow w₂.artifacts o) os) (sym third.objects) v₂.stored) v₂ in
      let P = λ (r : Step (Unit {0})). IsSound S.uuid r.1 in
      after_cases (delete_prefix S prefix w) _ P (λ e raised. v₁)
        (λ _ went.
          after_cases (delete_keys S keys w₁) _ P (λ e raised. v₂)
            (λ _ went₂.
              after_cases (remove_local_workspaces S ids w₂) _ P (λ e raised. v₃)
                (λ _ went₃. finish w₃ v₃ (
                  cascade w₃ (same_rows_trans (same_rows_trans rows₁ second.rows) third.rows) v₃ (
                    subst (λ os. All (λ o. under S (normalized S prefix) o ≡ false) os)
                      (sym (third.objects ∙ second.objects))
                      (delete_prefix_gone S prefix w went))))))
    where
      finish :
          (w' : World)
          → IsSound S.uuid w'
          → IsSound S.uuid (changed w')
          → IsSound S.uuid (commit S (changed w') w').1
      finish w' v' done = by_fault S.commit_fails
        where
          by_fault :
              (b : Bool)
              → IsSound S.uuid
                  (if◌then◌else◌ {A = Step (Unit {0})} b
                    (err commit_failed, w')
                    (ok tt, changed w')).1
          by_fault true = v'
          by_fault false = done
