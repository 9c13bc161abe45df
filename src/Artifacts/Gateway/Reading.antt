-- ===== src/Artifacts/Gateway/Reading.antt =====
-- `list_artifacts`, `_download`, `read_artifact`, `uploaded_prompt_entries`, `close` and
-- `create_chat_artifact_gateway` of backend/app/services/artifact_gateway.py.
use root_agent.Common.{
  ltb, leb, ◌==◌, if◌then◌else◌, length, take, drop, filter, ℕ, zero, suc, ◌+◌, ◌≡◌, Bool, false,
  not, ◌&&◌, ◌||◌, Option, none, some, List, [], ◌∷◌, ◌++◌, map, Text, codes, text_eq, is_empty,
}
use root_agent.Common.Result.{ok, err, ◌>>=◌, ◌>>◌, refuse}
use root_agent.Artifacts.Gateway.{
  ArtifactSource, upload, generated, CatalogEntry, is_upload, Bytes, Gateway, bad_source, bad_limit,
  bad_cursor, size_mismatch, verification_failed, bad_mode, bad_rows, head_only_tabular, bad_sheet,
  too_large, no_file, no_path, Outcome, resolve,
}

abbrev pub max_list_limit : ℕ
max_list_limit = 200

abbrev pub max_head_rows : ℕ
max_head_rows = 1000

abbrev pub chunk_bytes : ℕ
chunk_bytes = 1048576

-- Python's `str` and `int` of a number; `int` is `none` where it raises or gives a negative number.
pub record Numerals : Type 0 where
  pub print : ℕ → Text
  pub parse : Text → Option ℕ

pub record IsDecimal (N : Numerals) : Type 0 where
  pub parse-print : (n : ℕ) → N.parse (N.print n) ≡ some n
  pub print_some : (n : ℕ) → is_empty (N.print n) ≡ false
  pub parse_zero : N.parse (codes "0") ≡ some 0

-- What a listing shows of an entry: no path of the storage or of the disk.
pub record Item : Type 0 where
  pub ref : Text
  pub filename : Text
  pub source : ArtifactSource
  pub content_type : Text
  pub size : ℕ
  pub sha256 : Text
  pub created_at : ℕ

abbrev pub item : CatalogEntry → Item
item e = record {
  ref = e.ref;
  filename = e.filename;
  source = e.source;
  content_type = e.content_type;
  size = e.size;
  sha256 = e.sha256;
  created_at = e.created_at;
}

pub data Listing : Type 0 where
  filenames : List Text → Option Text → Listing
  items : List Item → Option Text → Listing

abbrev pub source_value : ArtifactSource → Text
source_value upload = codes "upload"
source_value generated = codes "generated"

abbrev pub is_from : Text → CatalogEntry → Bool
is_from source e = text_eq source (codes "all") || text_eq (source_value e.source) source

abbrev pub is_source : Text → Bool
is_source s = text_eq s (codes "all") || text_eq s (codes "upload") || text_eq s (codes "generated")

module _ (N : Numerals) where
  -- `int(cursor or "0")`
  unfoldable pub offset_of : Option Text → Option ℕ
  offset_of none = N.parse (codes "0")
  offset_of (some c) = if is_empty c then N.parse (codes "0") else N.parse c

  abbrev pub next_cursor : ℕ → ℕ → List CatalogEntry → Option Text
  next_cursor offset limit matching =
      if ltb (offset + limit) (length matching) then some (N.print (offset + limit)) else none

  abbrev pub listing : Bool → List CatalogEntry → Option Text → Listing
  listing detail page next =
      if detail then items (map item page) next else filenames (map CatalogEntry.filename page) next

  unfoldable pub list_artifacts :
      Text → ℕ → Option Text → Bool → List CatalogEntry → Outcome Listing
  unfolding offset_of
  list_artifacts source limit cursor detail entries = do
    refuse (not (is_source source)) bad_source
    refuse (not (leb 1 limit && leb limit max_list_limit)) bad_limit
    offset ← elim (offset_of cursor) [ none ↦ err bad_cursor | some n ↦ ok n ]
    let matching = filter (is_from source) entries
    let page = take limit (drop offset matching)
    ok (listing detail page (next_cursor offset limit matching))

-- `while chunk := stream.read(size)`; the fuel is the length of what is left.
abbrev pub read_chunks : ℕ → ℕ → Bytes → List Bytes
read_chunks size zero raw = []
read_chunks size (suc n) [] = []
read_chunks size (suc n) (b ∷ raw) = take size (b ∷ raw) ∷ read_chunks size n (drop size (b ∷ raw))

-- The loop of `_download`, with what is spooled so far.
abbrev pub spool_chunks : ℕ → List Bytes → Bytes → Outcome Bytes
spool_chunks size [] spool = ok spool
spool_chunks size (chunk ∷ chunks) spool =
    if ltb size (length spool + length chunk)
    then err size_mismatch
    else spool_chunks size chunks (spool ++ chunk)

-- `objects` gives the chunks of a stored object, `none` where it cannot be opened.
module _ (sha256 : Bytes → Text) (objects : Text → Option (List Bytes)) where
  abbrev pub opened : CatalogEntry → (Text → Option Bytes) → Outcome (List Bytes)
  opened e disk = elim e.local_path [
    | some path ↦ elim (disk path) [
      | none ↦ err no_file
      | some raw ↦ ok (read_chunks chunk_bytes (length raw) raw)
    ]
    | none ↦ elim e.storage_path [
      | none ↦ err no_path
      | some key ↦ elim (objects key) [ none ↦ err no_file | some chunks ↦ ok chunks ]
    ]
  ]

  unfoldable pub download : CatalogEntry → (Text → Option Bytes) → Outcome Bytes
  download e disk = do
    chunks ← opened e disk
    spool ← spool_chunks e.size chunks []
    refuse (not (length spool == e.size) || not (text_eq (sha256 spool) e.sha256))
        verification_failed
    ok spool

-- Reading a table: the reader of CSV files and that of workbooks, which gives several tables for
-- some sheet names; a number of cells. They raise where they return `none`.
pub record Tables (Frame : Type 0) : Type 0 where
  pub csv_media_type : Text
  pub xlsx_media_type : Text
  pub read_csv : Bytes → Option ℕ → Outcome Frame
  pub read_excel : Bytes → Text → Option ℕ → Outcome (Option Frame)
  pub cells : Frame → ℕ
  pub max_parsed_cells : ℕ

pub data ReadResult (Frame : Type 0) : Type 0 where
  frame : Frame → ReadResult Frame
  buffer : Bytes → ReadResult Frame

abbrev pub is_mode : Text → Bool
is_mode m =
    text_eq m (codes "auto")
    || text_eq m (codes "head")
    || text_eq m (codes "full")
    || text_eq m (codes "buffer")

module _ {Frame : Type 0} (T : Tables Frame) where
  abbrev pub is_tabular : CatalogEntry → Bool
  is_tabular e = text_eq e.content_type T.csv_media_type || text_eq e.content_type T.xlsx_media_type

  abbrev pub wants_buffer : Text → CatalogEntry → Bool
  wants_buffer mode e =
      text_eq mode (codes "buffer")
      || ((text_eq mode (codes "auto") || text_eq mode (codes "full")) && not (is_tabular e))

  unfoldable pub parse_table : CatalogEntry → Text → ℕ → Text → Bytes → Outcome Frame
  parse_table e mode rows sheet raw = do
    let nrows =
        if text_eq mode (codes "auto") || text_eq mode (codes "head") then some rows else none
    table ←
        if text_eq e.content_type T.csv_media_type
        then (T.read_csv raw nrows >>= λ t. ok (some t))
        else T.read_excel raw sheet nrows
    t ← elim table [ none ↦ err bad_sheet | some t ↦ ok t ]
    refuse (ltb T.max_parsed_cells (T.cells t)) too_large
    ok t

  module _ (sha256 : Bytes → Text) (objects : Text → Option (List Bytes)) where
    unfoldable pub found_for_reading : Text → Text → ℕ → Gateway → Outcome (CatalogEntry × Bytes)
    unfolding download resolve
    found_for_reading ref mode rows g = do
      refuse (not (is_mode mode)) bad_mode
      refuse (not (leb 1 rows && leb rows max_head_rows)) bad_rows
      e ← resolve ref g.entries
      refuse (text_eq mode (codes "head") && not (is_tabular e)) head_only_tabular
      raw ← download sha256 objects e g.disk
      ok (e, raw)

    -- A buffer that is handed out is remembered, to be closed at the end of the run.
    unfoldable pub read_artifact :
        Text → Text → ℕ → Text → Gateway → Outcome (ReadResult Frame) × Gateway
    unfolding found_for_reading parse_table
    read_artifact ref mode rows sheet g = elim (found_for_reading ref mode rows g) [
      | err x ↦ (err x, g)
      | ok (e, raw) ↦
          if wants_buffer mode e
          then (ok (buffer raw), record g { buffers = g.buffers ++ (raw ∷ []) })
          else (parse_table e mode rows sheet raw >>= λ t. ok (frame t), g)
    ]

abbrev pub close : Gateway → Gateway
close g = record g { buffers = [] }

-- What the system prompt says of an upload.
pub record PromptEntry : Type 0 where
  pub filename : Text
  pub ref : Text
  pub content_type : Text
  pub size : ℕ

abbrev pub uploaded_prompt_entries : Gateway → List PromptEntry
uploaded_prompt_entries g =
    map
      (λ e. record {
        filename = e.filename;
        ref = e.ref;
        content_type = e.content_type;
        size = e.size;
      })
      (filter is_upload g.entries)

pub data ArtifactOutputKind : Type 0 where
  png csv xlsx : ArtifactOutputKind

-- A row of the table of artifacts.
pub record Artifact : Type 0 where
  pub id : ℕ
  pub user_id : ℕ
  pub chat_id : ℕ
  pub run_id : Option ℕ
  pub filename : Text
  pub source : ArtifactSource
  pub content_type : Text
  pub file_size : ℕ
  pub sha256 : Text
  pub created_at : ℕ
  pub storage_path : Text
  pub output_kind : Option ArtifactOutputKind
  pub width : Option ℕ
  pub height : Option ℕ

-- `ref_of` is `_ref`, the text of an identifier.
abbrev pub catalog_entry : (ℕ → Text) → Artifact → CatalogEntry
catalog_entry ref_of a = record {
  ref = ref_of a.id;
  filename = a.filename;
  source = a.source;
  content_type = a.content_type;
  size = a.file_size;
  sha256 = a.sha256;
  created_at = a.created_at;
  storage_path = some a.storage_path;
  local_path = none;
}

abbrev pub owned_in : ℕ → ℕ → Artifact → Bool
owned_in user_id chat_id a = a.user_id == user_id && a.chat_id == chat_id

-- `newest_first` is the database's ORDER BY. The output directory is whatever is there.
unfoldable pub create_chat_artifact_gateway :
    (ℕ → Text)
    → (List Artifact → List Artifact)
    → ℕ
    → ℕ
    → (Text → Option Bytes)
    → List Artifact
    → Gateway
create_chat_artifact_gateway ref_of newest_first user_id chat_id disk rows = record {
  entries = map (catalog_entry ref_of) (newest_first (filter (owned_in user_id chat_id) rows));
  generated_bytes = 0;
  disk = disk;
  buffers = [];
}
