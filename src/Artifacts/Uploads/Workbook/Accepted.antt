-- ===== src/Artifacts/Uploads/Workbook/Accepted.antt =====
-- What an archive is that is accepted as a workbook.
use root_agent.Common.{
  ltb, length, take, any, sum_by, All, ℕ, ◌+◌, ◌*◌, ◌≤◌, ◌≡◌, refl, sym, Bool, true, false, not,
  ◌||◌, Option, none, some, List, [], ◌∷◌, arith, or_left, or_right, Text, codes, text_eq, contains,
  text_eq_sound,
}
use native.Mathlib.Nat.{add-mul}
use root_agent.Common.Result.{ok, refuse, bind_ok, refuse_ok}
use root_agent.Artifacts.Gateway.{Bytes}
use root_agent.Artifacts.Uploads.Workbook.{
  ZipEntry, bad_signature, unsafe_path, symlink, encrypted, too_many_entries, too_large,
  suspicious_ratio, missing_entries, macros, Archives, signature, required_entries, is_link,
  is_encrypted, is_unsafe_path, validate_zip_entry, over_ratio, check_entries, is_named,
  has_required, has_macros, content_types_checked, archive_checked, listed, validate_xlsx,
}

true_of_negation : (b : Bool) → not b ≡ false → b ≡ true
true_of_negation true h = refl
true_of_negation false h = sym h

false_of_negation : (b : Bool) → not b ≡ true → b ≡ false
false_of_negation true h = sym h
false_of_negation false h = refl

module _ (Z : Archives) where
  abbrev total : List ZipEntry → ℕ
  total es = sum_by ZipEntry.file_size es

  abbrev stored_total : List ZipEntry → ℕ
  stored_total es = sum_by ZipEntry.compress_size es

  pub record IsSafeEntry (e : ZipEntry) : Type 0 where
    pub path : is_unsafe_path Z e.filename ≡ false
    pub file : is_link e ≡ false
    pub plain : is_encrypted e ≡ false
    pub ratio : e.file_size ≤ e.compress_size * Z.max_ratio

  pub record IsWorkbook (raw : Bytes) (es : List ZipEntry) : Type 0 where
    pub signed : take 4 raw ≡ signature
    pub entries : Z.infolist raw ≡ some es
    pub few : length es ≤ Z.max_entries
    pub safe : All IsSafeEntry es
    pub small : total es ≤ Z.max_expanded
    pub dense : total es ≤ stored_total es * Z.max_ratio
    pub required : All (λ name. any (is_named Z name) es ≡ true) required_entries
    pub no_macros : has_macros Z es ≡ false
    pub no_macro_types :
        (t : Text) × ((Z.read raw (codes "[Content_Types].xml") ≡ some t)
          × ((contains (codes "macroenabled") (Z.lower t) || contains (codes "vba") (Z.lower t))
              ≡ false))

  within_ratio :
      (size compressed : ℕ) → over_ratio Z size compressed ≡ false → size ≤ compressed * Z.max_ratio
  within_ratio size compressed h = ground (arith, h)

  safe_entry :
      (e : ZipEntry)
      → validate_zip_entry Z e ≡ ok tt
      → over_ratio Z e.file_size e.compress_size ≡ false
      → IsSafeEntry e
  safe_entry e valid dense =
      let (a, (path, rest)) =
        bind_ok (refuse (is_unsafe_path Z e.filename) unsafe_path) _ tt valid in
      let (b, (file, plain)) = bind_ok (refuse (is_link e) symlink) _ tt rest in
      record {
        path = refuse_ok (is_unsafe_path Z e.filename) unsafe_path path;
        file = refuse_ok (is_link e) symlink file;
        plain = refuse_ok (is_encrypted e) encrypted plain;
        ratio = within_ratio e.file_size e.compress_size dense;
      }

  -- The loop's sizes are the sums, each entry is safe, and the last sum is within the limit.
  entries_checked :
      (es : List ZipEntry) (expanded compressed x c : ℕ)
      → expanded ≤ Z.max_expanded
      → check_entries Z es expanded compressed ≡ ok (x, c)
      → All IsSafeEntry es
        × (expanded + total es ≤ Z.max_expanded)
        × (total es ≤ stored_total es * Z.max_ratio)
  entries_checked [] expanded compressed x c le h = (tt, omega arith, omega arith)
  entries_checked (e ∷ es) expanded compressed x c le h =
      let (a, (valid, rest₁)) = bind_ok (validate_zip_entry Z e) _ (x, c) h in
      let (b, (size, rest₂)) =
        bind_ok (refuse (ltb Z.max_expanded (expanded + e.file_size)) too_large) _ (x, c) rest₁ in
      let (d, (ratio, rest₃)) =
        bind_ok (refuse (over_ratio Z e.file_size e.compress_size) suspicious_ratio) _ (x, c)
          rest₂ in
      let fits = refuse_ok (ltb Z.max_expanded (expanded + e.file_size)) too_large size in
      let dense = refuse_ok (over_ratio Z e.file_size e.compress_size) suspicious_ratio ratio in
      let one = safe_entry e valid dense in
      let (all, small, packed) =
        entries_checked es (expanded + e.file_size) (compressed + e.compress_size) x c
          (ground arith) rest₃ in
      let split = add-mul e.compress_size (stored_total es) Z.max_ratio in
      ((one, all), omega (arith, small), omega (arith, packed, one.ratio, split))

  types_clean :
      (types : Option Text)
      → content_types_checked Z types ≡ ok tt
      → (t : Text) × ((types ≡ some t)
          × ((contains (codes "macroenabled") (Z.lower t) || contains (codes "vba") (Z.lower t))
              ≡ false))
  types_clean none h = absurd (cc)
  types_clean (some t) h = (
    t,
    (
      refl,
      refuse_ok (contains (codes "macroenabled") (Z.lower t) || contains (codes "vba") (Z.lower t))
          macros h,
    ),
  )

  required_present :
      (names : List Text) (es : List ZipEntry)
      → any (λ name. not (any (is_named Z name) es)) names ≡ false
      → All (λ name. any (is_named Z name) es ≡ true) names
  required_present [] es h = tt
  required_present (name ∷ names) es h = (
    true_of_negation (any (is_named Z name) es)
        (or_left (not (any (is_named Z name) es)) (any (λ n. not (any (is_named Z n) es)) names) h),
    required_present names es (
        or_right (not (any (is_named Z name) es)) (any (λ n. not (any (is_named Z n) es)) names) h),
  )

  archive_accepted :
      (raw : Bytes) (es : List ZipEntry)
      → take 4 raw ≡ signature
      → Z.infolist raw ≡ some es
      → archive_checked Z raw es ≡ ok tt
      → IsWorkbook raw es
  archive_accepted raw es signed entries h =
      let (a, (few, rest₁)) =
        bind_ok (refuse (ltb Z.max_entries (length es)) too_many_entries) _ tt h in
      let (sizes, (loop, rest₂)) = bind_ok (check_entries Z es 0 0) _ tt rest₁ in
      let (b, (present, rest₃)) =
        bind_ok (refuse (not (has_required Z es)) missing_entries) _ tt rest₂ in
      let (c, (ratio, rest₄)) =
        bind_ok (refuse (over_ratio Z sizes.0 sizes.1) suspicious_ratio) _ tt rest₃ in
      let (d, (clean, rest₅)) = bind_ok (refuse (has_macros Z es) macros) _ tt rest₄ in
      let (all, small, dense) = entries_checked es 0 0 sizes.0 sizes.1 (omega arith) loop in
      let count_fits = refuse_ok (ltb Z.max_entries (length es)) too_many_entries few in
      let missing = any (λ name. not (any (is_named Z name) es)) required_entries in
      let complete =
        true_of_negation (not missing)
          (refuse_ok (not (has_required Z es)) missing_entries present) in
      record {
        signed = signed;
        entries = entries;
        few = ground (arith, count_fits);
        safe = all;
        small = omega (arith, small);
        dense = dense;
        required = required_present required_entries es (false_of_negation missing complete);
        no_macros = refuse_ok (has_macros Z es) macros clean;
        no_macro_types = types_clean (Z.read raw (codes "[Content_Types].xml")) rest₅;
      }

  -- An upload that is accepted as a workbook has the signature of an archive that can be listed, and
  -- the archive is safe to unpack: it has no more entries than the limit; each has a relative path
  -- without a backslash, a drive or a part that leads elsewhere, is no symbolic link and not
  -- encrypted, and is at most the ratio times as large as it is packed; all together they are within
  -- the limit of the expanded size and within the ratio; the entries that a workbook needs are there
  -- and no file
  -- of macros, nor do its content types name any.
  pub validate_xlsx-IsWorkbook :
      (raw : Bytes) → validate_xlsx Z raw ≡ ok tt → (es : List ZipEntry) × IsWorkbook raw es
  unfolding validate_xlsx
  validate_xlsx-IsWorkbook raw h =
      let (a, (start, rest)) =
        bind_ok (refuse (not (text_eq (take 4 raw) signature)) bad_signature) _ tt h in
      let (b, (archive, loads)) = bind_ok (listed Z raw (Z.infolist raw)) _ tt rest in
      let same =
        true_of_negation (text_eq (take 4 raw) signature)
          (refuse_ok (not (text_eq (take 4 raw) signature)) bad_signature start) in
      by_list (text_eq_sound (take 4 raw) signature same) (Z.infolist raw) refl archive
    where
      by_list :
          take 4 raw ≡ signature
          → (x : Option (List ZipEntry)) → Z.infolist raw ≡ x
          → listed Z raw x ≡ ok tt
          → (es : List ZipEntry) × IsWorkbook raw es
      by_list signed none is done = absurd (cc)
      by_list signed (some es) is done = (es, archive_accepted raw es signed is done)
