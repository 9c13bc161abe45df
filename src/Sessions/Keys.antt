-- ===== src/Sessions/Keys.antt =====
-- Which keys of objects are under the prefixes of chats and users.
use root_agent.Common.{
  append_nil, ◌==◌, ==_iff, ==_refl, any, ℕ, ◌≡◌, refl, ap, ◌∙◌, subst, true, false, [], ◌∷◌, ◌++◌,
  reverse, arith, and_left, and_right, or_right, Text, codes, starts_with,
}
use mathlib.Core.List.{append_assoc, reverse-append}
use root_agent.Artifacts.Gateway.{ArtifactSource, upload, generated}
use root_agent.Artifacts.Outputs.{storage_path, kind_of}
use root_agent.Sessions.{Setting, normalized, chat_storage_prefix, user_storage_prefix}

starts_with-append : (a x y : Text) → starts_with (a ++ x) (a ++ y) ≡ starts_with x y
starts_with-append [] x y = refl
starts_with-append (c ∷ a) x y = rw (==_refl c) (starts_with-append a x y)

starts_with_nil : (x : Text) → starts_with x [] ≡ true
starts_with_nil [] = refl
starts_with_nil (c ∷ x) = refl

-- A text that ends in a slash.
ends_slash : (S : Setting) (x : Text) → normalized S (x ++ codes "/") ≡ x ++ codes "/"
ends_slash S x =
    let ends : starts_with (reverse (x ++ codes "/")) (codes "/") ≡ true =
      ap (λ r. starts_with r (codes "/")) (reverse-append x (codes "/"))
      ∙ starts_with_nil (reverse x) in
    rw (normalized, ends) refl

pub normalized-user_storage_prefix :
    (S : Setting) (user_id : ℕ)
    → normalized S (user_storage_prefix S user_id) ≡ user_storage_prefix S user_id
unfolding user_storage_prefix
normalized-user_storage_prefix S user_id = ends_slash S (S.uuid user_id)

pub normalized-chat_storage_prefix :
    (S : Setting) (user_id chat_id : ℕ)
    → normalized S (chat_storage_prefix S user_id chat_id) ≡ chat_storage_prefix S user_id chat_id
unfolding chat_storage_prefix
normalized-chat_storage_prefix S user_id chat_id =
    let u = S.uuid user_id in
    let c = S.uuid chat_id in
    let joined : (u ++ (codes "/" ++ c)) ++ codes "/" ≡ u ++ (codes "/" ++ (c ++ codes "/")) =
      append_assoc u (codes "/" ++ c) (codes "/") in
    subst (λ p. normalized S p ≡ p) joined (ends_slash S (u ++ (codes "/" ++ c)))

-- The key of an artifact is under the prefixes of its chat and its user,
pub key_under_chat :
    (S : Setting) (user_id chat_id id : ℕ) (source : ArtifactSource)
    → starts_with
        (storage_path S.uuid user_id chat_id id source)
        (chat_storage_prefix S user_id chat_id)
      ≡ true
unfolding storage_path chat_storage_prefix
key_under_chat S user_id chat_id id source =
    let rest = kind_of source ++ (codes "/" ++ S.uuid id) in
    starts_with-append (S.uuid user_id) (codes "/" ++ (S.uuid chat_id ++ (codes "/" ++ rest)))
      (codes "/" ++ (S.uuid chat_id ++ codes "/"))
    ∙ (starts_with-append (codes "/") (S.uuid chat_id ++ (codes "/" ++ rest))
          (S.uuid chat_id ++ codes "/")
        ∙ (starts_with-append (S.uuid chat_id) (codes "/" ++ rest) (codes "/")
            ∙ starts_with_nil rest))

pub key_under_user :
    (S : Setting) (user_id chat_id id : ℕ) (source : ArtifactSource)
    → starts_with (storage_path S.uuid user_id chat_id id source) (user_storage_prefix S user_id)
      ≡ true
unfolding storage_path user_storage_prefix
key_under_user S user_id chat_id id source =
    let rest = S.uuid chat_id ++ (codes "/" ++ (kind_of source ++ (codes "/" ++ S.uuid id))) in
    starts_with-append (S.uuid user_id) (codes "/" ++ rest) (codes "/") ∙ starts_with_nil rest

-- and under no other: the texts of identifiers are different, and have no slash.
pub record AreUuids (S : Setting) : Type 0 where
  pub apart : (m n : ℕ) → S.uuid m ≡ S.uuid n → m ≡ n
  pub plain : (n : ℕ) → any (λ c. c == 47) (S.uuid n) ≡ false

-- A part up to a slash is determined by the text.
same_part :
    (a b x y : Text)
    → any (λ c. c == 47) a ≡ false
    → any (λ c. c == 47) b ≡ false
    → starts_with (a ++ (codes "/" ++ x)) (b ++ (codes "/" ++ y)) ≡ true
    → (a ≡ b) × (starts_with x y ≡ true)
same_part [] [] x y pa pb h = (refl, h)
same_part [] (d ∷ b) x y pa pb h = absurd (ground arith)
same_part (c ∷ a) [] x y pa pb h = absurd (ground arith)
same_part (c ∷ a) (d ∷ b) x y pa pb h =
    let head : (c == d) ≡ true =
      and_left (c == d) (starts_with (a ++ (codes "/" ++ x)) (b ++ (codes "/" ++ y))) h in
    let tail = and_right (c == d) (starts_with (a ++ (codes "/" ++ x)) (b ++ (codes "/" ++ y))) h in
    let rest =
      same_part a b x y (or_right (c == 47) (any (λ c. c == 47) a) pa)
        (or_right (d == 47) (any (λ c. c == 47) b) pb) tail in
    let same : c ≡ d = (==_iff c d).0 head in
    (ap (λ e. e ∷ a) same ∙ ap (λ t. d ∷ t) rest.0, rest.1)

pub key_of_chat :
    (S : Setting) (u c id user_id chat_id : ℕ) (source : ArtifactSource)
    → AreUuids S
    → starts_with (storage_path S.uuid u c id source) (chat_storage_prefix S user_id chat_id) ≡ true
    → (u ≡ user_id) × (c ≡ chat_id)
unfolding storage_path chat_storage_prefix
key_of_chat S u c id user_id chat_id source uuids h =
    let rest = kind_of source ++ (codes "/" ++ S.uuid id) in
    let user = same_part (S.uuid u) (S.uuid user_id) _ _ (uuids.plain u) (uuids.plain user_id) h in
    let chat =
      same_part (S.uuid c) (S.uuid chat_id) rest [] (uuids.plain c) (uuids.plain chat_id) user.1 in
    (uuids.apart u user_id user.0, uuids.apart c chat_id chat.0)

prefixes_agree : (x y : Text) → starts_with x y ≡ true → starts_with y x ≡ true → x ≡ y
prefixes_agree [] [] h k = refl
prefixes_agree [] (d ∷ y) h k = absurd (ground arith)
prefixes_agree (c ∷ x) [] h k = absurd (ground arith)
prefixes_agree (c ∷ x) (d ∷ y) h k =
    let head : c ≡ d = (==_iff c d).0 (and_left (c == d) (starts_with x y) h) in
    let rest =
      prefixes_agree x y (and_right (c == d) (starts_with x y) h)
        (and_right (d == c) (starts_with y x) k) in
    ap (λ e. e ∷ x) head ∙ ap (λ t. d ∷ t) rest

plain_kind : (source : ArtifactSource) → any (λ c. c == 47) (kind_of source) ≡ false
plain_kind upload = refl
plain_kind generated = refl

ids_agree :
    (S : Setting) (u c id v d n : ℕ) (s t : ArtifactSource)
    → AreUuids S
    → starts_with (storage_path S.uuid u c id s) (storage_path S.uuid v d n t) ≡ true
    → starts_with (S.uuid id) (S.uuid n) ≡ true
unfolding storage_path
ids_agree S u c id v d n s t uuids h =
    let user = same_part (S.uuid u) (S.uuid v) _ _ (uuids.plain u) (uuids.plain v) h in
    let chat = same_part (S.uuid c) (S.uuid d) _ _ (uuids.plain c) (uuids.plain d) user.1 in
    (same_part (kind_of s) (kind_of t) (S.uuid id) (S.uuid n) (plain_kind s) (plain_kind t)
      chat.1).1

-- A key is one artifact's.
pub key_of_artifact :
    (S : Setting) (u c id v d n : ℕ) (s t : ArtifactSource)
    → AreUuids S
    → storage_path S.uuid u c id s ≡ storage_path S.uuid v d n t
    → id ≡ n
key_of_artifact S u c id v d n s t uuids same =
    let p = storage_path S.uuid u c id s in
    let q = storage_path S.uuid v d n t in
    let itself : starts_with p p ≡ true =
      subst (λ x. starts_with x x ≡ true) (append_nil p)
        (starts_with-append p [] [] ∙ starts_with_nil []) in
    let into : starts_with p q ≡ true = subst (λ x. starts_with p x ≡ true) same itself in
    let back : starts_with q p ≡ true = subst (λ x. starts_with x p ≡ true) same itself in
    uuids.apart id n (
      prefixes_agree (S.uuid id) (S.uuid n) (ids_agree S u c id v d n s t uuids into)
        (ids_agree S v d n u c id t s uuids back))
