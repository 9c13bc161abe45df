-- ===== src/Sessions/Created.antt =====
-- What the files are after an object is stored and its row is added, or one of them is lost.
use root_agent.Common.{
  ◌==◌, ==_iff, Bool-cases, any, All, ℕ, ◌≡◌, refl, sym, ap, ◌∙◌, subst, fun_ext, ◌≢◌, inl, inr,
  true, false, none, List, [], ◌∷◌, All_mono, and_left, and_right, or_left, or_right, Text, text_eq,
  text_eq_refl, text_eq_sound,
}
use root_agent.Artifacts.Gateway.Reading.{Artifact}
use root_agent.Sessions.{World, Object, is_named, without_object}
use root_agent.Sessions.Artifacts.{is_taken}
use root_agent.Sessions.View.{
  put, content_of, content_hit, content_gone, content_kept, content_added, file_in, file_hit,
  file_missed, files, same_files,
}

pub file_free :
    (artifacts : List Artifact) (os : List Object) (c : ℕ) (f : Text)
    → any (is_taken c f) artifacts ≡ false
    → file_in artifacts os c f ≡ none
file_free [] os c f h = refl
file_free (a ∷ artifacts) os c f h =
    file_missed a artifacts os c f (or_left (is_taken c f a) (any (is_taken c f) artifacts) h)
    ∙ file_free artifacts os c f (or_right (is_taken c f a) (any (is_taken c f) artifacts) h)

module _ (a : Artifact) (o : Object) (w : World) (named : o.name ≡ a.storage_path)
    (apart : All (λ b. Artifact.storage_path b ≢ a.storage_path) w.artifacts)
    (free : any (is_taken a.chat_id a.filename) w.artifacts ≡ false) where
  abbrev stored_objects : List Object
  stored_objects = o ∷ without_object a.storage_path w.objects

  stored_others :
      (p : Text) → p ≢ a.storage_path → content_of stored_objects p ≡ content_of w.objects p
  stored_others p away =
      content_added o p (without_object a.storage_path w.objects) (λ same. away (same ∙ named))
      ∙ content_kept a.storage_path p w.objects away

  removed_others :
      (p : Text)
      → p ≢ a.storage_path
      → content_of (without_object a.storage_path stored_objects) p ≡ content_of w.objects p
  removed_others p away = content_kept a.storage_path p stored_objects away ∙ stored_others p away

  free_at : (c : ℕ) (f : Text) → is_taken c f a ≡ true → file_in w.artifacts w.objects c f ≡ none
  free_at c f on =
      let chat : a.chat_id ≡ c =
        (==_iff a.chat_id c).0 (and_left (a.chat_id == c) (text_eq a.filename f) on) in
      let name : a.filename ≡ f =
        text_eq_sound a.filename f (and_right (a.chat_id == c) (text_eq a.filename f) on) in
      file_free w.artifacts w.objects c f (
        subst (λ d. any (is_taken d f) w.artifacts ≡ false) chat
          (subst (λ g. any (is_taken a.chat_id g) w.artifacts ≡ false) name free))

  pub created_files :
      file_in (a ∷ w.artifacts) stored_objects ≡ put a.chat_id a.filename o.content (files w)
  unfolding files
  created_files = fun_ext (λ c. fun_ext (λ f. at c f))
    where
      at :
          (c : ℕ) (f : Text)
          → file_in (a ∷ w.artifacts) stored_objects c f
            ≡ put a.chat_id a.filename o.content (files w) c f
      at c f = elim (Bool-cases (is_taken c f a)) [
        | inl on ↦
            let here : is_named a.storage_path o ≡ true =
              ap (λ n. text_eq n a.storage_path) named ∙ text_eq_refl a.storage_path in
            file_hit a w.artifacts stored_objects c f on
            ∙ (content_hit o a.storage_path (without_object a.storage_path w.objects) here
                ∙ sym (rw (put, on) refl))
        | inr off ↦
            file_missed a w.artifacts stored_objects c f off
            ∙ (same_files w.artifacts w.objects stored_objects c f
                  (All_mono w.artifacts (λ b away. stored_others b.storage_path away) apart)
                ∙ sym (rw (put, off) refl))
      ]

  lost_at :
      (c : ℕ) (f : Text)
      → file_in w.artifacts (without_object a.storage_path stored_objects) c f
        ≡ file_in w.artifacts w.objects c f
  lost_at c f =
      same_files w.artifacts w.objects (without_object a.storage_path stored_objects) c f
        (All_mono w.artifacts (λ b away. removed_others b.storage_path away) apart)

  pub lost_files : file_in w.artifacts (without_object a.storage_path stored_objects) ≡ files w
  unfolding files
  lost_files = fun_ext (λ c. fun_ext (λ f. lost_at c f))

  pub stale_files :
      file_in (a ∷ w.artifacts) (without_object a.storage_path stored_objects) ≡ files w
  unfolding files
  stale_files = fun_ext (λ c. fun_ext (λ f. at c f))
    where
      at :
          (c : ℕ) (f : Text)
          → file_in (a ∷ w.artifacts) (without_object a.storage_path stored_objects) c f
            ≡ file_in w.artifacts w.objects c f
      at c f = elim (Bool-cases (is_taken c f a)) [
        | inl on ↦
            file_hit a w.artifacts (without_object a.storage_path stored_objects) c f on
            ∙ (content_gone a.storage_path stored_objects ∙ sym (free_at c f on))
        | inr off ↦
            file_missed a w.artifacts (without_object a.storage_path stored_objects) c f off
            ∙ lost_at c f
      ]
