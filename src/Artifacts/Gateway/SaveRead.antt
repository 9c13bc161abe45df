-- ===== src/Artifacts/Gateway/SaveRead.antt =====
-- What `save_artifact` stores is what `read_artifact` gives back.
use root_agent.Common.{
  append_assoc, append_nil, ltb, leb, ==_refl, Bool-cases, Option-cases, length, take, drop, any,
  find?, length-append, length-take, length-drop, take-append-drop, ℕ, zero, suc, ◌+◌, ◌≤◌, ◌≡◌,
  refl, sym, ap, ◌∙◌, subst, inl, inr, true, false, Option, some, List, [], ◌∷◌, ◌++◌, arith, Text,
  codes, text_eq_refl,
}
use root_agent.Common.Result.{ok, err}
use root_agent.Artifacts.Gateway.{
  resolve, ArtifactGatewayError, CatalogEntry, Bytes, Gateway, Limits, Outcome, has_ref,
  find_generated_by_filename,
}
use root_agent.Artifacts.Gateway.Saving.{
  save_artifact, Files, Draw, Content, overwrite, overwrite_checks, overwritten, create,
  create_checks, created, store, checked, write_bytes, is_upload_as, updated, new_entry,
}
use root_agent.Artifacts.Gateway.Reading.{
  ReadResult, max_head_rows, found_for_reading, read_artifact, Tables, chunk_bytes, read_chunks,
  spool_chunks, download, opened,
}

pub length-zero : {A : Type 0} (xs : List A) → length xs ≤ 0 → xs ≡ []
length-zero [] h = refl
length-zero (x ∷ xs) h = absurd (omega (arith, h))

-- Reading a file in chunks, within its size, spools the file.
spool_chunks-read_chunks :
    (k n size : ℕ) (raw spool : Bytes)
    → 1 ≤ k
    → length raw ≤ n
    → length spool + length raw ≤ size
    → spool_chunks size (read_chunks k n raw) spool ≡ ok (spool ++ raw)
spool_chunks-read_chunks k zero size raw spool some_read fuel room =
    rw (length-zero raw fuel) (ap ok (sym (append_nil spool)))
spool_chunks-read_chunks k (suc n) size [] spool some_read fuel room =
    ap ok (sym (append_nil spool))
spool_chunks-read_chunks k (suc n) size (b ∷ raw) spool some_read fuel room =
    let taken = length-take k (b ∷ raw) in
    let dropped = length-drop k (b ∷ raw) in
    let fits : ltb size (length spool + length (take k (b ∷ raw))) ≡ false = ground arith in
    let ih =
      spool_chunks-read_chunks k n size (drop k (b ∷ raw)) (spool ++ take k (b ∷ raw)) some_read
        (omega (arith, fuel, dropped, some_read))
        (omega (arith, room, taken, dropped, length-append spool (take k (b ∷ raw)))) in
    let whole = append_assoc spool (take k (b ∷ raw)) (drop k (b ∷ raw)) in
    rw fits (ih ∙ ap ok (whole ∙ ap (λ t. spool ++ t) (take-append-drop k (b ∷ raw))))

-- An entry whose file is on the disk, as the entry says, and that its reference leads to.
pub record IsKept (sha256 : Bytes → Text) (raw : Bytes) (e : CatalogEntry) (g : Gateway)
    : Type 0 where
  pub path : Text
  pub at : e.local_path ≡ some path
  pub on_disk : g.disk path ≡ some raw
  pub measured : e.size ≡ length raw
  pub digested : e.sha256 ≡ sha256 raw
  pub known : find? (has_ref e.ref) g.entries ≡ some e

first_known : (e : CatalogEntry) (es : List CatalogEntry) → find? (has_ref e.ref) (e ∷ es) ≡ some e
first_known e es = rw (text_eq_refl e.ref) refl

module _ {Data : Type 0} (F : Files Data) (L : Limits) (c : Content) (d : Draw) (g : Gateway)
    (e : CatalogEntry) (digest : c.digest ≡ F.sha256 c.raw) where
  abbrev Keeps : Outcome CatalogEntry × Gateway → Type 0
  Keeps r = r.0 ≡ ok e → IsKept F.sha256 c.raw e r.1

  ok-Keeps : (x : CatalogEntry) (g' : Gateway) → IsKept F.sha256 c.raw x g' → Keeps (ok x, g')
  ok-Keeps x g' kept h = let same : x ≡ e = cc in subst (λ y. IsKept F.sha256 c.raw y g') same kept

  err-Keeps : (x : ArtifactGatewayError) (g' : Gateway) → Keeps (err x, g')
  err-Keeps x g' h = absurd (cc)

  overwritten-Keeps :
      (existing : CatalogEntry) (target : Text) → Keeps (overwritten F L existing c d g target)
  unfolding overwritten write_bytes
  overwritten-Keeps existing target = elim (Bool-cases d.write_fails) [
    | inl fails ↦ rw fails (err-Keeps _ _)
    | inr fine ↦ rw fine (
        ok-Keeps (updated F L existing c target d) _ (record {
          path = target;
          at = refl;
          on_disk = rw (text_eq_refl target) refl;
          measured = refl;
          digested = digest;
          known = first_known (updated F L existing c target d) _;
        }))
  ]

  created-Keeps : Keeps (created F L c d g)
  unfolding created write_bytes
  created-Keeps = elim (Bool-cases d.write_fails) [
    | inl fails ↦ rw fails (err-Keeps _ _)
    | inr fine ↦ rw fine (
        ok-Keeps (new_entry F L c d) _ (record {
          path = c.name;
          at = refl;
          on_disk = rw (text_eq_refl c.name) refl;
          measured = refl;
          digested = digest;
          known = first_known (new_entry F L c d) _;
        }))
  ]

  store-Keeps : Keeps (store F L c d g)
  unfolding store overwrite create
  store-Keeps = elim (Bool-cases (any (is_upload_as F L c.name) g.entries)) [
    | inl clash ↦ rw clash (err-Keeps _ _)
    | inr clear ↦ elim (Option-cases (find_generated_by_filename c.name g.entries)) [
      | inl absent ↦ rw (clear, absent) (made (create_checks F L c g))
      | inr (existing, found) ↦
          rw (clear, found) (replaced existing (overwrite_checks F L existing c g))
    ]
  ]
    where
      made :
          (x : Outcome (Unit {0}))
          → Keeps (elim x as (λ x'. Outcome CatalogEntry × Gateway) [
            | err e ↦ (err e, g)
            | ok done ↦ created F L c d g
          ])
      made (err x) = err-Keeps x g
      made (ok done) = created-Keeps

      replaced :
          (existing : CatalogEntry) (x : Outcome Text)
          → Keeps (elim x as (λ x'. Outcome CatalogEntry × Gateway) [
            | err e ↦ (err e, g)
            | ok target ↦ overwritten F L existing c d g target
          ])
      replaced existing (err x) = err-Keeps x g
      replaced existing (ok target) = overwritten-Keeps existing target

-- The digest of a content that passed the checks is that of its bytes.
digest-checked :
    {Data : Type 0} (F : Files Data) (L : Limits) (filename : Text) (data' : Data)
    (declared : Option Text) (c : Content)
    → checked F L filename data' declared ≡ ok c
    → c.digest ≡ F.sha256 c.raw
unfolding checked
digest-checked F L filename data' declared c h = ground arith

-- A kept entry downloads as its bytes.
download-IsKept :
    (sha256 : Bytes → Text) (objects : Text → Option (List Bytes)) (raw : Bytes) (e : CatalogEntry)
    (g : Gateway)
    → IsKept sha256 raw e g
    → download sha256 objects e g.disk ≡ ok raw
unfolding download
download-IsKept sha256 objects raw e g kept =
    let spooled =
      spool_chunks-read_chunks chunk_bytes (length raw) e.size raw [] (omega arith) (omega arith)
        (omega (arith, kept.measured)) in
    let found : opened sha256 objects e g.disk ≡ ok (read_chunks chunk_bytes (length raw) raw) =
      rw (kept.at, opened, kept.on_disk) refl in
    rw (found, spooled)
      (rw (kept.measured, kept.digested, ==_refl (length raw), text_eq_refl (sha256 raw)) refl)

module _ {Data Frame : Type 0} (F : Files Data) (L : Limits) (T : Tables Frame)
    (objects : Text → Option (List Bytes)) where
  read_artifact-IsKept :
      (raw : Bytes) (e : CatalogEntry) (g : Gateway) (rows : ℕ) (sheet : Text)
      → IsKept F.sha256 raw e g
      → 1 ≤ rows
      → rows ≤ max_head_rows
      → (read_artifact T F.sha256 objects e.ref (codes "buffer") rows sheet g).0
        ≡ ok (ReadResult.buffer raw)
  unfolding read_artifact found_for_reading resolve
  read_artifact-IsKept raw e g rows sheet kept low high =
      let small : leb 1 rows ≡ true = ground arith in
      let large : leb rows max_head_rows ≡ true = ground arith in
      let loaded = download-IsKept F.sha256 objects raw e g kept in
      rw (read_artifact, found_for_reading, resolve, small, large, kept.known, loaded) refl

  -- What a call of `save_artifact` that succeeds has stored, a file that is new as well as one that
  -- takes the place of another, is what `read_artifact` gives for the returned reference right
  -- after it, in the mode "buffer" and with a number of rows that it accepts: the serialized bytes,
  -- which pass the checks of their size and digest.
  pub read_artifact-save_artifact :
      (filename : Text) (data' : Data) (declared : Option Text) (d : Draw) (g : Gateway)
      (c : Content) (e : CatalogEntry) (rows : ℕ) (sheet : Text)
      → checked F L filename data' declared ≡ ok c
      → (save_artifact F L filename data' declared d g).0 ≡ ok e
      → 1 ≤ rows
      → rows ≤ max_head_rows
      → (read_artifact T F.sha256 objects e.ref
          (codes "buffer")
          rows
          sheet
          (save_artifact F L filename data' declared d g).1).0
        ≡ ok (ReadResult.buffer c.raw)
  unfolding save_artifact
  read_artifact-save_artifact filename data' declared d g c e rows sheet passed saved low high =
      let stored : (store F L c d g).0 ≡ ok e = rw (save_artifact, passed) at saved in
      let kept =
        store-Keeps F L c d g e (digest-checked F L filename data' declared c passed) stored in
      rw (save_artifact, passed)
        (read_artifact-IsKept c.raw e (store F L c d g).1 rows sheet kept low high)
