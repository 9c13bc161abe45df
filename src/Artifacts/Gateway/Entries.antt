-- ===== src/Artifacts/Gateway/Entries.antt =====
-- Catalogs: entries with references of their own, and what looking one up, dropping and removing
-- leaves.
use root_agent.Common.{
  if◌then◌else◌, Bool-cases, Option-cases, filter, any, find?, sum_by, ℕ, ◌+◌, ◌≤◌, ◌≡◌, refl, sym,
  ap, ◌∙◌, subst, inl, inr, Bool, true, false, not, ◌&&◌, some, List, [], ◌∷◌, arith, and_left,
  or_left, or_right, true≢false, Text, text_eq_refl, text_eq_sym,
}
use mathlib.Core.Option.{none-ne-some, some-injective}
use root_agent.Common.Result.{Result, ok}
use root_agent.Artifacts.Gateway.{
  CatalogEntry, is_local, is_generated_as, has_ref, remove, find_generated_by_filename,
  drop_other_generated_with_filename, resolve, only_named, named, first, local_count, old_size,
}

-- No two entries share a reference.
abbrev pub HasOwnRefs : List CatalogEntry → Type 0
HasOwnRefs [] = Unit
HasOwnRefs (e ∷ es) = (any (has_ref e.ref) es ≡ false) × HasOwnRefs es

-- What the entries weigh, in files and in bytes of this run.
abbrev pub files : List CatalogEntry → ℕ
files = sum_by (λ e. if is_local e then 1 else 0)

abbrev pub bytes : List CatalogEntry → ℕ
bytes = sum_by old_size

pub local_count-eq-files : (es : List CatalogEntry) → local_count es ≡ files es
local_count-eq-files [] = refl
local_count-eq-files (e ∷ es) = ground (arith, local_count-eq-files es)

pub sum_by-split :
    (f : CatalogEntry → ℕ) (p : CatalogEntry → Bool) (es : List CatalogEntry)
    → sum_by f (filter p es) + sum_by f (filter (λ e. not (p e)) es) ≡ sum_by f es
sum_by-split f p [] = omega arith
sum_by-split f p (e ∷ es) = ground (arith, sum_by-split f p es)

pub any-filter :
    (q p : CatalogEntry → Bool) (es : List CatalogEntry)
    → any q es ≡ false
    → any q (filter p es) ≡ false
any-filter q p [] h = refl
any-filter q p (e ∷ es) h = ground (arith, any-filter q p es)

pub filter-HasOwnRefs :
    (p : CatalogEntry → Bool) (es : List CatalogEntry) → HasOwnRefs es → HasOwnRefs (filter p es)
filter-HasOwnRefs p [] h = tt
filter-HasOwnRefs p (e ∷ es) h = elim (Bool-cases (p e)) [
  | inl kept ↦ rw kept (any-filter (has_ref e.ref) p es h.0, filter-HasOwnRefs p es h.1)
  | inr dropped ↦ rw dropped (filter-HasOwnRefs p es h.1)
]

-- An entry is in a catalog if its reference finds it there.
abbrev pub Holds : CatalogEntry → List CatalogEntry → Type 0
Holds e es = find? (has_ref e.ref) es ≡ some e

-- A found entry passes the test that found it.
pub find-passes :
    (p : CatalogEntry → Bool) (es : List CatalogEntry) (e : CatalogEntry)
    → find? p es ≡ some e
    → p e ≡ true
find-passes p [] e h = absurd (none-ne-some e h)
find-passes p (x ∷ es) e h = elim (Bool-cases (p x)) [
  | inl here ↦ subst (λ y. p y ≡ true) (some-injective x e (rw here at h)) here
  | inr there ↦ find-passes p es e (rw there at h)
]

any-find :
    (p q : CatalogEntry → Bool) (es : List CatalogEntry) (e : CatalogEntry)
    → find? p es ≡ some e
    → q e ≡ true
    → any q es ≡ true
any-find p q [] e h y = absurd (none-ne-some e h)
any-find p q (x ∷ es) e h y = elim (Bool-cases (p x)) [
  | inl here ↦ rw (ap q (some-injective x e (rw here at h)) ∙ y) refl
  | inr there ↦ ground (arith, any-find p q es e (rw there at h) y)
]

-- What any test finds is held.
pub find-Holds :
    (p : CatalogEntry → Bool) (es : List CatalogEntry) (e : CatalogEntry)
    → HasOwnRefs es
    → find? p es ≡ some e
    → Holds e es
find-Holds p [] e own h = absurd (none-ne-some e h)
find-Holds p (x ∷ es) e own h = elim (Bool-cases (p x)) [
  | inl here ↦
      let same : x ≡ e = some-injective x e (rw here at h) in
      rw (ap (λ y. has_ref e.ref y) same ∙ text_eq_refl e.ref) (ap some same)
  | inr there ↦
      let found : find? p es ≡ some e = rw there at h in
      let apart : has_ref e.ref x ≡ false = elim (Bool-cases (has_ref e.ref x)) [
        | inr apart ↦ apart
        | inl same ↦ absurd (
            true≢false (
              sym (any-find p (has_ref x.ref) es e found (text_eq_sym e.ref x.ref ∙ same)) ∙ own.0))
      ] in
      rw apart (find-Holds p es e own.1 found)
]

pub find-filter :
    (p q : CatalogEntry → Bool) (es : List CatalogEntry) (e : CatalogEntry)
    → find? q (filter p es) ≡ some e
    → find? (λ x. p x && q x) es ≡ some e
find-filter p q [] e h = h
find-filter p q (x ∷ es) e h = elim (Bool-cases (p x)) [
  | inr out ↦ rw out (find-filter p q es e (rw out at h))
  | inl kept ↦ elim (Bool-cases (q x)) [
    | inl here ↦ rw (kept, here) (rw (kept, here) at h)
    | inr there ↦ rw (kept, there) (find-filter p q es e (rw (kept, there) at h))
  ]
]

-- Removing a held entry takes its weight out, and its reference.
pub sum_by-remove :
    (f : CatalogEntry → ℕ) (ref : Text) (es : List CatalogEntry) (e : CatalogEntry)
    → find? (has_ref ref) es ≡ some e
    → sum_by f (remove ref es) + f e ≡ sum_by f es
sum_by-remove f ref [] e h = absurd (none-ne-some e h)
sum_by-remove f ref (x ∷ es) e h = elim (Bool-cases (has_ref ref x)) [
  | inl here ↦ rw (here, some-injective x e (rw here at h)) (omega arith)
  | inr there ↦ rw there (omega (arith, sum_by-remove f ref es e (rw there at h)))
]

drop_absent :
    (name : Text) (e : CatalogEntry) (es : List CatalogEntry)
    → any (has_ref e.ref) es ≡ false
    → drop_other_generated_with_filename name e es ≡ filter (λ x. not (is_generated_as name x)) es
unfolding drop_other_generated_with_filename
drop_absent name e [] absent = refl
drop_absent name e (x ∷ es) absent =
    let rest = drop_absent name e es (or_right (has_ref e.ref x) _ absent) in
    elim (Bool-cases (is_generated_as name x)) [
      | inl is ↦ rw (or_left (has_ref e.ref x) _ absent, is) rest
      | inr other ↦ rw (or_left (has_ref e.ref x) _ absent, other) (ap (λ l. x ∷ l) rest)
    ]

-- Dropping the others of a name and removing the kept one leaves the entries that are not
-- generated under that name.
pub remove-drop_other :
    (name : Text) (e : CatalogEntry) (es : List CatalogEntry)
    → HasOwnRefs es
    → Holds e es
    → is_generated_as name e ≡ true
    → remove e.ref (drop_other_generated_with_filename name e es)
      ≡ filter (λ x. not (is_generated_as name x)) es
unfolding drop_other_generated_with_filename
remove-drop_other name e [] own held is = refl
remove-drop_other name e (x ∷ es) own held is = elim (Bool-cases (has_ref e.ref x)) [
  | inl here ↦
      let same : x ≡ e = some-injective x e (rw here at held) in
      let named : is_generated_as name x ≡ true = ap (is_generated_as name) same ∙ is in
      rw (named, here, here)
        (drop_absent name e es (subst (λ y. any (has_ref y.ref) es ≡ false) same own.0))
  | inr there ↦
      let rest = remove-drop_other name e es own.1 (rw there at held) is in
      elim (Bool-cases (is_generated_as name x)) [
        | inl other ↦ rw (there, other) rest
        | inr kept ↦ rw (there, kept, there) (ap (λ l. x ∷ l) rest)
      ]
]

any-remove :
    (q : CatalogEntry → Bool) (ref : Text) (es : List CatalogEntry)
    → any q es ≡ false
    → any q (remove ref es) ≡ false
any-remove q ref [] h = refl
any-remove q ref (x ∷ es) h = ground (arith, any-remove q ref es)

pub remove-HasOwnRefs :
    (ref : Text) (es : List CatalogEntry) → HasOwnRefs es → HasOwnRefs (remove ref es)
remove-HasOwnRefs ref [] own = tt
remove-HasOwnRefs ref (x ∷ es) own = elim (Bool-cases (has_ref ref x)) [
  | inl here ↦ rw here own.1
  | inr there ↦ rw there (any-remove (has_ref x.ref) ref es own.0, remove-HasOwnRefs ref es own.1)
]

-- What is removed or filtered out does not weigh.
pub sum_by-remove_le :
    (f : CatalogEntry → ℕ) (ref : Text) (es : List CatalogEntry)
    → sum_by f (remove ref es) ≤ sum_by f es
sum_by-remove_le f ref [] = omega arith
sum_by-remove_le f ref (x ∷ es) = ground (arith, sum_by-remove_le f ref es)

find-first : (p : CatalogEntry → Bool) (es : List CatalogEntry) → find? p es ≡ first (filter p es)
find-first p [] = refl
find-first p (x ∷ es) = elim (Bool-cases (p x)) [
  | inl here ↦ rw here refl
  | inr there ↦ rw there (find-first p es)
]

first-only_named :
    (es : List CatalogEntry) (e : CatalogEntry) → only_named es ≡ ok e → first es ≡ some e
first-only_named [] e h = cc
first-only_named (x ∷ []) e h = cc
first-only_named (x ∷ y ∷ es) e h = cc

-- What `_resolve` and `_find_generated_by_filename` return is in the catalog.
pub resolve-Holds :
    (ref : Text) (es : List CatalogEntry) (e : CatalogEntry)
    → HasOwnRefs es
    → resolve ref es ≡ ok e
    → Holds e es
unfolding resolve
resolve-Holds ref es e own h = elim (Option-cases (find? (has_ref ref) es)) [
  | inl unknown ↦
      let only : only_named (filter (named ref) es) ≡ ok e = rw (resolve, unknown) at h in
      find-Holds (named ref) es e own
        (find-first (named ref) es ∙ first-only_named (filter (named ref) es) e only)
  | inr (x, known) ↦
      let same : Result.ok x ≡ ok e = rw (resolve, known) at h in
      let same' : x ≡ e = cc in find-Holds (has_ref ref) es e own (known ∙ ap some same')
]

pub find_generated-Holds :
    (name : Text) (es : List CatalogEntry) (e : CatalogEntry)
    → HasOwnRefs es
    → find_generated_by_filename name es ≡ some e
    → Holds e es × (is_generated_as name e ≡ true)
unfolding find_generated_by_filename
find_generated-Holds name es e own h =
    let matches = filter (is_generated_as name) es in
    elim (Option-cases (find? is_local matches)) [
      | inl none_local ↦
          let found : find? (is_generated_as name) es ≡ some e =
            find-first (is_generated_as name) es
            ∙ (rw (find_generated_by_filename, none_local) at h) in
          (
            find-Holds (is_generated_as name) es e own found,
            find-passes (is_generated_as name) es e found,
          )
      | inr (x, local) ↦
          let same : x ≡ e = some-injective x e (rw (find_generated_by_filename, local) at h) in
          let found = find-filter (is_generated_as name) is_local es e (local ∙ ap some same) in
          (
            find-Holds (λ x. is_generated_as name x && is_local x) es e own found,
            and_left _ _ (find-passes (λ x. is_generated_as name x && is_local x) es e found),
          )
    ]
