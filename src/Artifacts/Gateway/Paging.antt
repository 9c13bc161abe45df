-- ===== src/Artifacts/Gateway/Paging.antt =====
-- Following the cursors of `list_artifacts`.
use root_agent.Common.{
  ltb, leb, ltb→lt, Bool-cases, length, take, drop, filter, length-drop, take-append-drop, ℕ, zero,
  suc, ◌+◌, ◌-◌, ◌≤◌, ◌<◌, ◌≡◌, refl, sym, ap, ◌∙◌, inl, inr, true, false, Option, none, some, List,
  [], ◌∷◌, ◌++◌, map, arith, Text,
}
use root_agent.Common.Result.{ok, err}
use mathlib.Core.List.{map-append}
use root_agent.Artifacts.Gateway.{CatalogEntry, Outcome}
use root_agent.Artifacts.Gateway.Reading.{
  Numerals, IsDecimal, Listing, filenames, items, is_from, is_source, next_cursor, listing,
  list_artifacts, offset_of, max_list_limit,
}

-- The filenames of all pages from a cursor on, with fuel for that many calls.
module _ (N : Numerals) (source : Text) (limit : ℕ) (entries : List CatalogEntry) where
  abbrev pub page_after :
      Option Text → List Text → (Option Text → Option (List Text)) → Option (List Text)
  page_after none names rest = some names
  page_after (some c) names rest = elim (rest (some c)) [
    | none ↦ none
    | some more ↦ some (names ++ more)
  ]

  abbrev pub page_from : Outcome Listing → (Option Text → Option (List Text)) → Option (List Text)
  page_from (err e) rest = none
  page_from (ok (items is next)) rest = none
  page_from (ok (filenames names next)) rest = page_after next names rest

  unfoldable pub all_pages : ℕ → Option Text → Option (List Text)
  all_pages zero cursor = none
  all_pages (suc n) cursor =
      page_from (list_artifacts N source limit cursor false entries) (all_pages n)

take_all : {A : Type 0} (n : ℕ) (xs : List A) → length xs ≤ n → take n xs ≡ xs
take_all zero [] h = refl
take_all zero (x ∷ xs) h = absurd (omega (arith, h))
take_all (suc n) [] h = refl
take_all (suc n) (x ∷ xs) h = ap (λ t. x ∷ t) (take_all n xs (omega (arith, h)))

drop-drop : {A : Type 0} (m n : ℕ) (xs : List A) → drop n (drop m xs) ≡ drop (m + n) xs
drop-drop zero n xs = ap (λ k. drop k xs) (plus n)
  where
    plus : (n : ℕ) → n ≡ 0 + n
    plus n = omega arith
drop-drop {A} (suc m) n [] = emptied n (suc m + n)
  where
    emptied : (n k : ℕ) → drop {A = A} n [] ≡ drop {A = A} k []
    emptied zero zero = refl
    emptied zero (suc k) = refl
    emptied (suc n) zero = refl
    emptied (suc n) (suc k) = refl
drop-drop (suc m) n (x ∷ xs) = drop-drop m n xs ∙ ap (λ k. drop k (x ∷ xs)) (plus m n)
  where
    plus : (m n : ℕ) → suc (m + n) ≡ suc m + n
    plus m n = omega arith

names : List CatalogEntry → List Text
names es = map CatalogEntry.filename es

no_more :
    (offset limit : ℕ) (xs : List CatalogEntry)
    → ltb (offset + limit) (length xs) ≡ false
    → length (drop offset xs) ≤ limit
no_more offset limit xs h = ground (arith, length-drop offset xs)

module _ (N : Numerals) (decimal : IsDecimal N) (source : Text) (limit : ℕ)
    (entries : List CatalogEntry) where
  matching : List CatalogEntry
  matching = filter (is_from source) entries

  list_artifacts_page :
      (cursor : Option Text) (offset : ℕ)
      → is_source source ≡ true
      → 1 ≤ limit
      → limit ≤ max_list_limit
      → offset_of N cursor ≡ some offset
      → list_artifacts N source limit cursor false entries
        ≡ ok (
            listing N false
              (take limit (drop offset matching))
              (next_cursor N offset limit matching))
  unfolding list_artifacts matching
  list_artifacts_page cursor offset known low high at =
      let small : leb 1 limit ≡ true = ground arith in
      let large : leb limit max_list_limit ≡ true = ground arith in
      rw (known, small, large, at) refl

  offset_of-print : (n : ℕ) → offset_of N (some (N.print n)) ≡ some n
  unfolding offset_of
  offset_of-print n = rw (decimal.print_some n) (decimal.parse-print n)

  pages_from :
      (n offset : ℕ) (cursor : Option Text)
      → is_source source ≡ true
      → 1 ≤ limit
      → limit ≤ max_list_limit
      → offset_of N cursor ≡ some offset
      → length matching - offset < n
      → all_pages N source limit entries n cursor ≡ some (names (drop offset matching))
  unfolding all_pages names
  pages_from zero offset cursor known low high at fuel = absurd (omega (arith, fuel))
  pages_from (suc n) offset cursor known low high at fuel =
      let rest = drop offset matching in
      let split : names (take limit rest) ++ names (drop limit rest) ≡ names rest =
        sym (map-append CatalogEntry.filename (take limit rest) (drop limit rest))
        ∙ ap names (take-append-drop limit rest) in
      elim (Bool-cases (ltb (offset + limit) (length matching))) [
        | inl more ↦
            let left = ltb→lt (offset + limit) (length matching) more in
            let ih =
              pages_from n (offset + limit) (some (N.print (offset + limit))) known low high
                (offset_of-print (offset + limit)) (omega (arith, fuel, left, low)) in
            rw
              (
                list_artifacts_page cursor offset known low high at,
                more,
                ih,
                sym (drop-drop offset limit matching),
              )
              (ap some split)
        | inr last ↦
            let short : length rest ≤ limit = no_more offset limit matching last in
            rw
              (list_artifacts_page cursor offset known low high at, last, take_all limit rest short)
              refl
      ]

  -- From the first page on, with more calls at hand than the source has entries, the cursors of
  -- `list_artifacts` lead through all entries of the source, each once and in the catalog's order,
  -- and end there, for every source and page size that it accepts; if `int` reads the numbers that
  -- `str` prints, and no number prints as nothing.
  pub pages_complete :
      (n : ℕ)
      → is_source source ≡ true
      → 1 ≤ limit
      → limit ≤ max_list_limit
      → length (filter (is_from source) entries) < n
      → all_pages N source limit entries n none
        ≡ some (map CatalogEntry.filename (filter (is_from source) entries))
  unfolding matching names offset_of
  pages_complete n known low high fuel =
      pages_from n 0 none known low high decimal.parse_zero (omega (arith, fuel))
