-- ===== src/Artifacts/Gateway/Weights.antt =====
-- What the files of a run weigh, by name, and when entries are taken out.
use root_agent.Common.{
  if◌then◌else◌, Bool-cases, Option-cases, filter, any, find?, ◌≤◌, ◌≡◌, refl, sym, ap, ◌∙◌, subst,
  inl, inr, Bool, true, false, not, none, some, List, [], ◌∷◌, arith, and_right, Text, text_eq,
  text_eq_sound,
}
use mathlib.Core.Option.{none-ne-some, some-injective}
use root_agent.Artifacts.Gateway.{
  is_generated, CatalogEntry, is_local, is_generated_as, has_ref, remove, first, or_first,
  find_generated_by_filename, old_size,
}
use root_agent.Artifacts.Gateway.Entries.{HasOwnRefs, any-filter, Holds, files, bytes}

no_files-no_bytes : (es : List CatalogEntry) → files es ≡ 0 → bytes es ≡ 0
no_files-no_bytes [] h = refl
no_files-no_bytes (e ∷ es) h = ground (arith, no_files-no_bytes es)

find-none_local : (es : List CatalogEntry) → find? is_local es ≡ none → files es ≡ 0
find-none_local [] h = refl
find-none_local (e ∷ es) h = ground (arith, find-none_local es)

find-one_local :
    (es : List CatalogEntry) (e : CatalogEntry)
    → find? is_local es ≡ some e
    → files es ≤ 1
    → (bytes es ≡ old_size e) × (files es ≡ (if is_local e then 1 else 0))
find-one_local [] e h one = absurd (none-ne-some e h)
find-one_local (x ∷ es) e h one = elim (Bool-cases (is_local x)) [
  | inl here ↦
      let same : x ≡ e = some-injective x e (rw here at h) in
      let here' : is_local e ≡ true = ap is_local (sym same) ∙ here in
      let zero_files : files es ≡ 0 = ground arith in
      let zero_bytes = no_files-no_bytes es zero_files in
      let weight : old_size x ≡ old_size e = ap old_size same in
      ground (arith, here, here', zero_files, zero_bytes, weight)
  | inr there ↦
      let rest = find-one_local es e (rw there at h) (ground (arith, there)) in
      rw there (omega (arith, rest.0), omega (arith, rest.1))
]

first-none_local :
    (es : List CatalogEntry) (e : CatalogEntry)
    → find? is_local es ≡ none
    → first es ≡ some e
    → is_local e ≡ false
first-none_local [] e h is = cc
first-none_local (x ∷ es) e h is = elim (Bool-cases (is_local x)) [
  | inl here ↦ absurd (none-ne-some x (sym (rw here at h)))
  | inr there ↦ ap is_local (sym (some-injective x e is)) ∙ there
]

-- The weight of the generated entries of a name is that of the one that is found for it.
pub found_weight :
    (name : Text) (es : List CatalogEntry) (e : CatalogEntry)
    → find_generated_by_filename name es ≡ some e
    → files (filter (is_generated_as name) es) ≤ 1
    → (bytes (filter (is_generated_as name) es) ≡ old_size e)
      × (files (filter (is_generated_as name) es) ≡ (if is_local e then 1 else 0))
unfolding find_generated_by_filename
found_weight name es e found one =
    let ms = filter (is_generated_as name) es in
    elim (Option-cases (find? is_local ms)) [
      | inr (x, local) ↦
          let same : x ≡ e = some-injective x e (rw (find_generated_by_filename, local) at found) in
          find-one_local ms e (local ∙ ap some same) one
      | inl none_local ↦
          let is_first : first ms ≡ some e = rw (find_generated_by_filename, none_local) at found in
          let off = first-none_local ms e none_local is_first in
          let no_files = find-none_local ms none_local in
          (rw off (no_files-no_bytes ms no_files), rw off no_files)
    ]

pub none_found :
    (name : Text) (es : List CatalogEntry)
    → find_generated_by_filename name es ≡ none
    → filter (is_generated_as name) es ≡ []
unfolding find_generated_by_filename
none_found name es h = no_first (filter (is_generated_as name) es) h
  where
    no_first : (ms : List CatalogEntry) → or_first (find? is_local ms) ms ≡ none → ms ≡ []
    no_first [] e = refl
    no_first (x ∷ ms) e = ground arith

-- The entries of a name, when those of a name are taken out.
pub files-filter_rest :
    (p q : CatalogEntry → Bool) (es : List CatalogEntry)
    → files (filter p (filter (λ x. not (q x)) es)) ≤ files (filter p es)
files-filter_rest p q [] = omega arith
files-filter_rest p q (x ∷ es) = ground (arith, files-filter_rest p q es)

pub filter-rest :
    (q : CatalogEntry → Bool) (es : List CatalogEntry) → filter q (filter (λ x. not (q x)) es) ≡ []
filter-rest q [] = refl
filter-rest q (x ∷ es) = ground (arith, filter-rest q es)

pub files-filter-remove :
    (p : CatalogEntry → Bool) (ref : Text) (es : List CatalogEntry)
    → files (filter p (remove ref es)) ≤ files (filter p es)
files-filter-remove p ref [] = omega arith
files-filter-remove p ref (x ∷ es) = ground (arith, files-filter-remove p ref es)

-- A held entry that is taken out leaves its reference free.
pub ref_free :
    (q : CatalogEntry → Bool) (e : CatalogEntry) (es : List CatalogEntry)
    → HasOwnRefs es
    → Holds e es
    → q e ≡ true
    → any (has_ref e.ref) (filter (λ x. not (q x)) es) ≡ false
ref_free q e [] own held is = refl
ref_free q e (x ∷ es) own held is = elim (Bool-cases (has_ref e.ref x)) [
  | inl here ↦
      let same : x ≡ e = some-injective x e (rw here at held) in
      rw (ap q same ∙ is) (
        any-filter (has_ref e.ref) (λ y. not (q y)) es
          (subst (λ y. any (has_ref y.ref) es ≡ false) same own.0))
  | inr there ↦
      let rest = ref_free q e es own.1 (rw there at held) is in
      elim (Bool-cases (q x)) [ inl out ↦ rw out rest | inr kept ↦ rw (kept, there) rest ]
]

one_at_most : (e : CatalogEntry) → (if is_local e then 1 else 0) ≤ 1
one_at_most e = ground arith

-- The single file of a name, after an entry of that name took the place of the others.
pub single_after :
    (entry : CatalogEntry) (c_name name : Text) (es rest : List CatalogEntry)
    → text_eq entry.filename c_name ≡ true
    → ((n : Text) → files (filter (is_generated_as n) rest) ≤ files (filter (is_generated_as n) es))
    → files (filter (is_generated_as c_name) rest) ≡ 0
    → files (filter (is_generated_as name) es) ≤ 1
    → files (filter (is_generated_as name) (entry ∷ rest)) ≤ 1
single_after entry c_name name es rest called le gone one =
    elim (Bool-cases (is_generated_as name entry)) [
      | inr other ↦ rw other (omega (arith, le name))
      | inl is ↦
          let same =
            text_eq_sound entry.filename name
              (and_right (is_generated entry) (text_eq entry.filename name) is) in
          let same' = sym (text_eq_sound entry.filename c_name called) ∙ same in
          let none_left = subst (λ n. files (filter (is_generated_as n) rest) ≡ 0) same' gone in
          let weight = one_at_most entry in rw is (omega (arith, none_left, weight))
    ]
