-- ===== src/Artifacts/Uploads/Reads.antt =====
-- Reading an upload in chunks comes to looking at its length, and a display name is bounded.
use root_agent.Common.{
  append_nil, ltb, if◌then◌else◌, Bool-cases, length, take, drop, length-append, length-take,
  length-drop, take-append-drop, ℕ, zero, suc, ◌+◌, ◌-◌, ◌≤◌, ◌<◌, min, ◌≡◌, refl, ap, ◌∙◌, inl,
  inr, Bool, true, false, not, ◌||◌, Option, some, [], ◌∷◌, ◌++◌, reverse, arith, Text, codes,
  drop_while, rstrip_by, text_eq, length-drop_while,
}
use root_agent.Common.Result.{Result, ok, err, ◌>>◌, refuse}
use mathlib.Core.List.{append_assoc, reverse_aux}
use root_agent.Artifacts.Gateway.{Bytes}
use root_agent.Artifacts.Uploads.{
  accepted, unsupported_upload_type, is_edge, display_part, ValidatedUpload, shortened, or_fallback,
  sanitize_display_filename, validate_upload, Names, UploadError, upload_too_large, UploadSettings,
  is_nil, read_upload,
}

take-nil : (k : ℕ) → take {A = ℕ} k [] ≡ []
take-nil zero = refl
take-nil (suc k) = refl

some_taken : (k : ℕ) (b : ℕ) (bs : Bytes) → 1 ≤ k → is_nil (take k (b ∷ bs)) ≡ false
some_taken zero b bs h = absurd (omega (arith, h))
some_taken (suc k) b bs h = refl

module _ (U : UploadSettings) (reads : 1 ≤ U.upload_chunk_bytes) where
  -- What the loop comes to.
  abbrev whole : ℕ → Bytes → Bytes → Result UploadError Bytes
  whole total left spool =
      if ltb U.max_upload_bytes (total + length left)
      then err upload_too_large
      else ok (spool ++ left)

  read_upload-whole :
      (n : ℕ) (left : Bytes) (total : ℕ) (spool : Bytes)
      → length left < n
      → total ≤ U.max_upload_bytes
      → read_upload U n left total spool ≡ some (whole total left spool)
  unfolding read_upload
  read_upload-whole zero left total spool fuel low = absurd (omega (arith, fuel))
  read_upload-whole (suc n) [] total spool fuel low =
      let k = min U.upload_chunk_bytes (U.max_upload_bytes + 1 - total) in
      let under : ltb U.max_upload_bytes total ≡ false = ground arith in
      let under₀ : ltb U.max_upload_bytes (total + 0) ≡ false = ground arith in
      rw (under, take-nil k, under₀, append_nil spool) refl
  read_upload-whole (suc n) (b ∷ bs) total spool fuel low =
      let k = min U.upload_chunk_bytes (U.max_upload_bytes + 1 - total) in
      let left = b ∷ bs in
      let under : ltb U.max_upload_bytes total ≡ false = ground arith in
      let some_read : 1 ≤ k = omega (arith, reads, low) in
      let taken = length-take k left in
      let dropped = length-drop k left in
      elim (Bool-cases (ltb U.max_upload_bytes (total + length (take k left)))) [
        | inl over ↦
            let over' : ltb U.max_upload_bytes (total + length left) ≡ true = ground arith in
            rw (under, some_taken k b bs some_read, over, over') refl
        | inr room ↦
            let ih =
              read_upload-whole n (drop k left) (total + length (take k left))
                (spool ++ take k left) (omega (arith, fuel, dropped, some_read)) (ground arith) in
            let sum : total + length (take k left) + length (drop k left) ≡ total + length left =
              omega (arith, taken, dropped) in
            let joined : (spool ++ take k left) ++ drop k left ≡ spool ++ left =
              append_assoc spool (take k left) (drop k left)
              ∙ ap (λ t. spool ++ t) (take-append-drop k left) in
            rw (under, some_taken k b bs some_read, room)
              (ih
                ∙ ap some (
                    ap
                      (λ t.
                        if ltb U.max_upload_bytes t
                        then err upload_too_large
                        else ok ((spool ++ take k left) ++ drop k left))
                      sum
                    ∙ ap
                        (λ t.
                          if ltb U.max_upload_bytes (total + length left)
                          then err upload_too_large
                          else ok t)
                        joined))
      ]

length-reverse_aux : (xs ys : Text) → length (reverse_aux xs ys) ≡ length xs + length ys
length-reverse_aux [] ys = omega arith
length-reverse_aux (x ∷ xs) ys = omega (arith, length-reverse_aux xs (x ∷ ys))

length-reverse : (xs : Text) → length (reverse xs) ≡ length xs
length-reverse xs = omega (arith, length-reverse_aux xs [])

length-rstrip_by : (p : ℕ → Bool) (cs : Text) → length (rstrip_by p cs) ≤ length cs
length-rstrip_by p cs = omega (
  arith,
  length-reverse (drop_while p (reverse cs)),
  length-drop_while p (reverse cs),
  length-reverse cs,
)

length-shortened : (N : Names) (name : Text) → length (shortened N name) ≤ 255
length-shortened N name =
    let suffix = take 20 (N.suffix name) in
    let kept = take (255 - length suffix) name in
    omega (
      arith,
      length-append (rstrip_by is_edge kept) suffix,
      length-rstrip_by is_edge kept,
      length-take (255 - length suffix) name,
      length-take 20 (N.suffix name),
    )

length-sanitize_display_filename :
    (N : Names) (filename : Option Text) (fallback : Text)
    → length (sanitize_display_filename N filename fallback) ≤ 255
unfolding sanitize_display_filename
length-sanitize_display_filename N filename fallback =
    let name = or_fallback N (display_part N filename) fallback in
    elim (Bool-cases (ltb 255 (length name))) [
      | inl long ↦ rw long (length-shortened N name)
      | inr short ↦ rw short (ground arith)
    ]

-- What `validate_upload` is to do, by the whole content.
abbrev pub is_table : Text → Bool
is_table suffix = text_eq suffix (codes ".csv") || text_eq suffix (codes ".xlsx")

unfoldable pub upload_of :
    UploadSettings → Names → Text → Bytes → Result UploadError ValidatedUpload
upload_of U N filename content = do
  let suffix = N.lower (N.suffix filename)
  refuse (not (is_table suffix)) unsupported_upload_type
  refuse (ltb U.max_upload_bytes (length content)) upload_too_large
  accepted U filename (text_eq suffix (codes ".csv")) content

pub validate_upload_meets :
    (U : UploadSettings) (N : Names) (upload_name : Option Text) (content : Bytes)
    → 1 ≤ U.upload_chunk_bytes
    → (validate_upload U N upload_name content
        ≡ some (upload_of U N (sanitize_display_filename N upload_name (codes "upload")) content))
      × (length (sanitize_display_filename N upload_name (codes "upload")) ≤ 255)
unfolding validate_upload upload_of
validate_upload_meets U N upload_name content reads =
    let filename = sanitize_display_filename N upload_name (codes "upload") in
    let suffix = N.lower (N.suffix filename) in
    let loop =
      read_upload-whole U reads (length content + 1) content 0 [] (omega arith) (omega arith) in
    let zero_total : 0 + length content ≡ length content = omega arith in
    (
      elim (Bool-cases (is_table suffix)) [
        | inr other ↦ rw other refl
        | inl known ↦ elim (Bool-cases (ltb U.max_upload_bytes (length content))) [
          | inl large ↦ rw (known, loop, zero_total, large) refl
          | inr fits ↦ rw (known, loop, zero_total, fits) refl
        ]
      ],
      length-sanitize_display_filename N upload_name (codes "upload"),
    )
