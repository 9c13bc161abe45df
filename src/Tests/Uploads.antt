-- ===== src/Tests/Uploads.antt =====
-- The theorems on backend/app/services/file_validation.py at concrete inputs.
use root_agent.Common.{
  leb, ◌==◌, length, drop, ℕ, ◌≡◌, refl, true, not, ◌&&◌, some, List, [], ◌∷◌, ◌++◌, Text, codes,
}
use root_agent.Common.Result.{ok, err}
use root_agent.Artifacts.Uploads.Workbook.{Archives, ZipEntry, validate_xlsx, suspicious_ratio}
use root_agent.Artifacts.Uploads.Workbook.Accepted.{IsWorkbook, validate_xlsx-IsWorkbook}
use root_agent.Artifacts.Gateway.{Bytes}
use root_agent.Artifacts.Uploads.{
  Names, UploadSettings, upload_too_large, read_upload, validate_upload, sanitize_display_filename,
  display_part,
}

-- Names whose suffix is all that follows their first character.
abbrev names : Names
names = record {
  nfkc = λ t. t;
  is_printable = λ c. not (c == 7);
  is_word = λ c. leb 97 c && leb c 122;
  suffix = λ t. drop 1 t;
  lower = λ t. t;
}

abbrev settings : UploadSettings
settings = record {
  max_upload_bytes = 5;
  upload_chunk_bytes = 2;
  sha256 = λ raw. length raw ∷ [];
  validate_csv = λ raw. ok tt;
  validate_xlsx = λ raw. ok tt;
}

-- A path, a bell and a run of unsafe characters.
sanitized :
    sanitize_display_filename names
      (some (codes "c:\\u/.$% a$%" ++ (7 ∷ codes ".csv ")))
      (codes "upload")
    ≡ codes "_ a_.csv"
unfolding sanitize_display_filename display_part
sanitized = refl

too_large :
    validate_upload settings names (some (codes "a.csv")) (1 ∷ 2 ∷ 3 ∷ 4 ∷ 5 ∷ 6 ∷ [])
    ≡ some (err upload_too_large)
unfolding validate_upload sanitize_display_filename display_part read_upload
too_large = refl

abbrev entry : Text → ℕ → ZipEntry
entry name size = record {
  filename = name;
  file_size = size;
  compress_size = 2;
  external_attr = 0;
  flag_bits = 8;
}

-- Archives whose fifth byte is the size of the last entry.
abbrev sizes : Text → ℕ
sizes [] = 0
sizes (n ∷ ns) = n

abbrev archives : Archives
archives = record {
  infolist = λ raw. some (
      entry (codes "[Content_Types].xml") 4
      ∷ entry (codes "_rels/.rels") 3
      ∷ entry (codes "xl/workbook.xml") (sizes (drop 4 raw))
      ∷ []);
  read = λ raw name. some (codes "types");
  loads = λ raw. true;
  lower = λ t. t;
  drive = λ t. [];
  parts = λ t. t ∷ [];
  max_entries = 3;
  max_expanded = 20;
  max_ratio = 4;
}

abbrev archive : ℕ → Bytes
archive size = 80 ∷ 75 ∷ 3 ∷ 4 ∷ size ∷ []

validate_xlsx-IsWorkbook_example : (es : List ZipEntry) × IsWorkbook archives (archive 8) es
unfolding validate_xlsx
validate_xlsx-IsWorkbook_example = validate_xlsx-IsWorkbook archives (archive 8) refl

-- Nine bytes are more than four times two.
dense_entry : validate_xlsx archives (archive 9) ≡ err suspicious_ratio
unfolding validate_xlsx
dense_entry = refl
