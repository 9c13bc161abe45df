-- ===== src/Sessions/Calls.antt =====
-- Any calls that make and delete sessions, users and artifacts.
use root_agent.Common.{
  ◌==◌, Bool-cases, any, All, ℕ, ◌≡◌, refl, sym, subst, ◌≢◌, inl, inr, true, false, none, List, [],
  ◌∷◌, arith, All_mono, or_left, or_right, Text, text_eq,
}
use root_agent.Run.Model.{Chat}
use root_agent.Artifacts.Gateway.Reading.{Artifact}
use root_agent.Sessions.{World, Object, Setting}
use root_agent.Sessions.Service.{resolve_run_session, delete_session, delete_user}
use root_agent.Sessions.Artifacts.{Stream, create_artifact_from_stream, delete_artifact}
use root_agent.Sessions.Sound.{IsSound}
use root_agent.Sessions.Single.{create-IsSound}
use root_agent.Sessions.Erased.{delete-IsSound}
use root_agent.Sessions.Orphans.{delete_session-IsSound, delete_user-IsSound}

-- An identifier that nothing has yet.
abbrev pub IsNew : ℕ → World → Type 0
IsNew id w =
    (any (λ a. Artifact.id a == id) w.artifacts ≡ false)
    × (any (λ a. Artifact.chat_id a == id) w.artifacts ≡ false)
    × (any (λ c. Chat.id c == id) w.chats ≡ false)

-- Worlds that calls lead to. Each call meets a setting of its own, in which identifiers have the
-- same texts; one that stores draws a new identifier, and can delete what it stored.
pub data Reach (uuid : ℕ → Text) (start : World) : World → Type 1 where
  here : Reach uuid start start
  make_session :
      {w : World} (S : Setting) (user_id new_session : ℕ)
      → Reach uuid start w
      → S.uuid ≡ uuid
      → IsNew S.new_id w
      → Reach uuid start (resolve_run_session S user_id none new_session w).1
  create :
      {w : World} (S : Setting) (user_id session_id : ℕ) (s : Stream)
      → Reach uuid start w
      → S.uuid ≡ uuid
      → IsNew S.new_id w
      → ((key : Text) → S.remove_fails key ≡ false)
      → Reach uuid start (create_artifact_from_stream S user_id session_id s w).1
  delete :
      {w : World} (S : Setting) (user_id session_id artifact_id : ℕ)
      → Reach uuid start w
      → S.uuid ≡ uuid
      → Reach uuid start (delete_artifact S user_id session_id artifact_id w).1
  drop_session :
      {w : World} (S : Setting) (user_id session_id : ℕ)
      → Reach uuid start w
      → S.uuid ≡ uuid
      → Reach uuid start (delete_session S user_id session_id w).1
  drop_user :
      {w : World} (S : Setting) (user_id : ℕ)
      → Reach uuid start w
      → S.uuid ≡ uuid
      → Reach uuid start (delete_user S user_id w).1

others_apart :
    {A : Type 0} (f : A → ℕ) (id : ℕ) (xs : List A)
    → any (λ x. f x == id) xs ≡ false
    → All (λ x. f x ≢ id) xs
others_apart f id [] h = tt
others_apart f id (x ∷ xs) h =
    let away : (f x == id) ≡ false = or_left (f x == id) (any (λ y. f y == id) xs) h in
    (
      (λ same. absurd (ground (arith, same, away))),
      others_apart f id xs (or_right (f x == id) (any (λ y. f y == id) xs) h),
    )

new_chat-IsSound :
    (uuid : ℕ → Text) (chat : Chat) (w : World)
    → IsSound uuid w
    → IsNew chat.id w
    → IsSound uuid (record w { chats = chat ∷ w.chats })
new_chat-IsSound uuid chat w v (unused, unowned, unheld) =
    let apart = others_apart Chat.id chat.id w.chats unheld in
    let free = others_apart Artifact.chat_id chat.id w.artifacts unowned in
    record {
      placed = v.placed;
      keyed = v.keyed;
      agree = owners w.artifacts free v.agree;
      alike = (
        ((λ same. refl), All_mono w.chats (λ d other same. absurd (other same)) apart),
        same_ids w.chats apart v.alike,
      );
      stored = v.stored;
    }
  where
    owners :
        (rows : List Artifact)
        → All (λ a. Artifact.chat_id a ≢ chat.id) rows
        → All
            (λ a.
              All
                (λ c. Chat.id c ≡ Artifact.chat_id a → Chat.user_id c ≡ Artifact.user_id a)
                w.chats)
            rows
        → All
            (λ a.
              All
                (λ c. Chat.id c ≡ Artifact.chat_id a → Chat.user_id c ≡ Artifact.user_id a)
                (chat ∷ w.chats))
            rows
    owners [] free agree = tt
    owners (a ∷ rows) (f, free) (h, agree) =
        (((λ same. absurd (f (sym same))), h), owners rows free agree)

    same_ids :
        (cs : List Chat)
        → All (λ c. Chat.id c ≢ chat.id) cs
        → All (λ c. All (λ d. Chat.id d ≡ Chat.id c → Chat.user_id d ≡ Chat.user_id c) w.chats) cs
        → All
            (λ c.
              All (λ d. Chat.id d ≡ Chat.id c → Chat.user_id d ≡ Chat.user_id c) (chat ∷ w.chats))
            cs
    same_ids [] apart alike = tt
    same_ids (c ∷ cs) (f, apart) (h, alike) =
        (((λ same. absurd (f (sym same))), h), same_ids cs apart alike)

make_session-IsSound :
    (S : Setting) (user_id new_session : ℕ) (w : World)
    → IsSound S.uuid w
    → IsNew S.new_id w
    → IsSound S.uuid (resolve_run_session S user_id none new_session w).1
unfolding resolve_run_session
make_session-IsSound S user_id new_session w v new = elim (Bool-cases S.commit_fails) [
  | inl lost ↦
      let step : (resolve_run_session S user_id none new_session w).1 ≡ w =
        rw (resolve_run_session, lost) refl in
      subst (λ x. IsSound S.uuid x) (sym step) v
  | inr kept ↦
      let step : (resolve_run_session S user_id none new_session w).1 ≡ grown =
        elim (Bool-cases S.refresh_fails) [
          | inl stale ↦ rw (resolve_run_session, kept, stale) refl
          | inr fresh ↦ rw (resolve_run_session, kept, fresh) refl
        ] in
      subst (λ x. IsSound S.uuid x) (sym step) (new_chat-IsSound S.uuid chat w v new)
]
  where
    chat : Chat
    chat = record {
      id = S.new_id;
      user_id = user_id;
      session_id = new_session;
      deletion_requested_at = none;
    }

    grown : World
    grown = record w { chats = chat ∷ w.chats }

-- The texts of identifiers are the same in every setting.
in_setting :
    {uuid : ℕ → Text} (S : Setting) (w w' : World)
    → S.uuid ≡ uuid
    → IsSound uuid w
    → (IsSound S.uuid w → IsSound S.uuid w')
    → IsSound uuid w'
in_setting S w w' same v step =
    subst (λ u. IsSound u w') same (step (subst (λ u. IsSound u w) (sym same) v))

Reach-IsSound :
    {uuid : ℕ → Text} {start w : World} → IsSound uuid start → Reach uuid start w → IsSound uuid w
Reach-IsSound v here = v
Reach-IsSound v (make_session {w} S user_id new_session r same new) =
    in_setting S w _ same (Reach-IsSound v r)
      (λ u. make_session-IsSound S user_id new_session w u new)
Reach-IsSound v (create {w} S user_id session_id s r same new fine) =
    in_setting S w _ same (Reach-IsSound v r)
      (λ u. create-IsSound S user_id session_id s w fine u new.0)
Reach-IsSound v (delete {w} S user_id session_id artifact_id r same) =
    in_setting S w _ same (Reach-IsSound v r)
      (λ u. delete-IsSound S user_id session_id artifact_id w u)
Reach-IsSound v (drop_session {w} S user_id session_id r same) =
    in_setting S w _ same (Reach-IsSound v r) (λ u. delete_session-IsSound S user_id session_id w u)
Reach-IsSound v (drop_user {w} S user_id r same) =
    in_setting S w _ same (Reach-IsSound v r) (λ u. delete_user-IsSound S user_id w u)

abbrev pub empty : List ℕ → World
empty users = record {
  users = users;
  chats = [];
  runs = [];
  artifacts = [];
  objects = [];
  keys = [];
  workspaces = [];
}

-- Starting with users and nothing else, after any calls that make sessions, create artifacts, and
-- delete artifacts, sessions and users, each of which may fail at any of its steps, every object
-- in the storage has a row of the table of artifacts that says where it is: nothing is left behind
-- that no row leads to. Identifiers that are drawn have to be new, and a call that creates an
-- artifact has to be able to delete the object that it has just stored.
pub no_orphans :
    {uuid : ℕ → Text} {w : World} (users : List ℕ)
    → Reach uuid (empty users) w
    → All
        (λ o. any (λ a. text_eq (Artifact.storage_path a) (Object.name o)) w.artifacts ≡ true)
        w.objects
no_orphans users r =
    IsSound.stored
      (Reach-IsSound (record { placed = tt; keyed = tt; agree = tt; alike = tt; stored = tt }) r)
