-- ===== src/Chat/Sanitizer/DataUris.antt =====
-- What is left of a text has no image data URI.
use root_agent.Common.{
  Bool-cases, ℕ, ◌≡◌, refl, sym, ap, ◌∙◌, inl, inr, Bool, true, false, not, ◌&&◌, ◌||◌, [], ◌∷◌,
  arith, and_left, and_right, or_left, or_right, not-true, true≢false, Text,
}
use root_agent.Chat.Sanitizer.{
  matches_letter, matches_prefix, image_uri, ends_uri, scan, remove_data_uris,
}

-- The pattern starts somewhere in the text.
abbrev pub has_data_uri : Text → Bool
has_data_uri [] = false
has_data_uri (c ∷ text) = matches_prefix image_uri (c ∷ text) || has_data_uri text

-- Letters of the pattern: none of them opens the replacement.
abbrev no_bracket : Text → Bool
no_bracket [] = true
no_bracket (p ∷ pattern) = not (matches_letter p b'[') && no_bracket pattern

matches_prefix-scan :
    (pattern text : Text)
    → no_bracket pattern ≡ true
    → matches_prefix pattern (scan false text) ≡ true
    → matches_prefix pattern text ≡ true
unfolding scan
matches_prefix-scan [] text fine h = refl
matches_prefix-scan (p ∷ pattern) [] fine h = h
matches_prefix-scan (p ∷ pattern) (c ∷ text) fine h =
    elim (Bool-cases (matches_prefix image_uri (c ∷ text))) [
      | inl e ↦
          let h' : (matches_letter p b'[' && matches_prefix pattern _) ≡ true = rw e at h in
          absurd (
            true≢false (
              sym (and_left (matches_letter p b'[') _ h')
              ∙ not-true _ (and_left (not (matches_letter p b'[')) (no_bracket pattern) fine)))
      | inr e ↦
          let h' : (matches_letter p c && matches_prefix pattern (scan false text)) ≡ true =
            rw e at h in
          let later =
            matches_prefix-scan pattern text (and_right (not (matches_letter p b'[')) _ fine)
              (and_right (matches_letter p c) _ h') in
          rw (and_left (matches_letter p c) _ h') later
    ]

-- A character that ends a URI does not begin one.
end_begins_none : (c : ℕ) → ends_uri c ≡ true → matches_letter b'd' c ≡ false
end_begins_none c h = ground arith

end_clean :
    (c : ℕ) (rest : Text)
    → ends_uri c ≡ true
    → has_data_uri rest ≡ false
    → has_data_uri (c ∷ rest) ≡ false
end_clean c rest ends clean = rw (end_begins_none c ends) clean

copied_begins_none :
    (c : ℕ) (text : Text)
    → matches_prefix image_uri (c ∷ text) ≡ false
    → matches_prefix image_uri (c ∷ scan false text) ≡ false
unfolding scan
copied_begins_none c text e = elim (Bool-cases (matches_prefix image_uri (c ∷ scan false text))) [
  | inl h ↦ absurd (true≢false (sym (matches_prefix-scan image_uri (c ∷ text) refl (rw e h)) ∙ e))
  | inr h ↦ h
]

mutual
  unfolding scan

  copied_clean : (text : Text) → has_data_uri (scan false text) ≡ false
  copied_clean [] = refl
  copied_clean (c ∷ text) = elim (Bool-cases (matches_prefix image_uri (c ∷ text))) [
    | inl e ↦ rw e (passed_clean text)
    | inr e ↦ rw (e, copied_begins_none c text e) (copied_clean text)
  ]

  passed_clean : (text : Text) → has_data_uri (scan true text) ≡ false
  passed_clean [] = refl
  passed_clean (c ∷ text) = elim (Bool-cases (ends_uri c)) [
    | inl e ↦ rw e (end_clean c (scan false text) e (copied_clean text))
    | inr e ↦ rw e (passed_clean text)
  ]

scan_clean : (text : Text) → has_data_uri text ≡ false → scan false text ≡ text
unfolding scan
scan_clean [] h = refl
scan_clean (c ∷ text) h =
    let first = or_left (matches_prefix image_uri (c ∷ text)) (has_data_uri text) h in
    rw first (
      ap (λ t. c ∷ t)
        (scan_clean text (or_right (matches_prefix image_uri (c ∷ text)) (has_data_uri text) h)))

-- In what `remove_data_uris` returns no image data URI begins, in upper or lower case; and it
-- changes nothing in a text that has none.
pub remove_data_uris_lem :
    (text : Text)
    → (has_data_uri (remove_data_uris text) ≡ false)
      × (has_data_uri text ≡ false → remove_data_uris text ≡ text)
unfolding remove_data_uris
remove_data_uris_lem text = (copied_clean text, scan_clean text)
