-- ===== src/SourceRows.antt =====
-- libs/server/src/lib/sources/source-row-projector.ts: the rows of the Sources page, projected from
-- a source and its state at run time, and the row of a split glob, which sums up its children.
-- A state that the code reads as a string is its text.
mod Gates
pub mod Meta
use sparqly.Base.{
  ℕ, ◌+◌, Bool, true, false, Option, none, some, List, [], ◌∷◌, ◌&&◌, ◌||◌, not, JsString, codes,
  if◌then◌else◌, Result, ok, err, ◌>>=◌, ◌==◌, text_eq, or_else, ltb,
}
use sparqly.Sources.{ParsedSource, glob, file, endpoint, reference, empty, id_of, marked_default}

pub data InMemoryState : Type 0 where
  not_loaded loading loaded load_failed : InMemoryState

pub data DiskBackedState : Type 0 where
  not_built indexing ready stale build_failed : DiskBackedState

abbrev pub in_memory_text : InMemoryState → JsString
in_memory_text not_loaded = codes "not-loaded"
in_memory_text loading = codes "loading"
in_memory_text loaded = codes "loaded"
in_memory_text load_failed = codes "failed"

abbrev pub disk_backed_text : DiskBackedState → JsString
disk_backed_text not_built = codes "not-built"
disk_backed_text indexing = codes "indexing"
disk_backed_text ready = codes "ready"
disk_backed_text stale = codes "stale"
disk_backed_text build_failed = codes "failed"

pub record LoadMetrics : Type 0 where
  pub quads : Option ℕ
  pub files : ℕ
  pub loaded_at : ℕ
  pub load_ms : ℕ

pub record DiskExtras : Type 0 where
  pub index_dir : Option JsString
  pub index_bytes : Option ℕ
  pub manifest_sparqly_version : Option JsString
  pub stale_reason : Option JsString

pub record SourceRowError : Type 0 where
  pub kind : JsString
  pub message : JsString
  pub details : Option JsString

pub data SourceRuntime : Type 0 where
  in_memory_runtime : InMemoryState → Option LoadMetrics → Option SourceRowError → SourceRuntime
  disk_backed_runtime :
      DiskBackedState
      → Option LoadMetrics
      → Option DiskExtras
      → Option SourceRowError
      → SourceRuntime
  endpoint_runtime : SourceRuntime

pub data RowMode : Type 0 where
  in_memory disk_backed : RowMode

pub data RowKind : Type 0 where
  glob_kind file_kind empty_kind : RowKind

-- A row of mode `in-memory` or `disk-backed`, without its children.
pub record StoredRow : Type 0 where
  pub mode : RowMode
  pub id : JsString
  pub kind : RowKind
  pub state : JsString
  pub is_default : Bool
  pub parent_id : Option JsString
  pub quads : Option ℕ
  pub files : Option ℕ
  pub loaded_at : Option ℕ
  pub load_ms : Option ℕ
  pub index_dir : Option JsString
  pub index_bytes : Option ℕ
  pub manifest_sparqly_version : Option JsString
  pub stale_reason : Option JsString
  pub error : Option SourceRowError

pub record EndpointRow : Type 0 where
  pub id : JsString
  pub is_default : Bool
  pub endpoint_url : JsString

pub data SourceRow : Type 0 where
  stored : StoredRow → SourceRow
  served : EndpointRow → SourceRow

-- A row of the page. Only such a row has children, and those are rows of `projectSourceRow`.
pub record TopLevelRow : Type 0 where
  pub row : SourceRow
  pub children : Option (List SourceRow)

-- What the code throws: a source without an id, a runtime of another mode than its source, the meta
-- of a split glob that is an endpoint, and an id that the reader of states does not know.
pub data ProjectError : Type 0 where
  no_id wrong_kind endpoint_meta unknown_id : ProjectError

abbrev pub bare_row : RowMode → JsString → RowKind → JsString → Bool → Option JsString → StoredRow
bare_row mode id kind state is_default parent_id = record {
  mode = mode;
  id = id;
  kind = kind;
  state = state;
  is_default = is_default;
  parent_id = parent_id;
  quads = none;
  files = none;
  loaded_at = none;
  load_ms = none;
  index_dir = none;
  index_bytes = none;
  manifest_sparqly_version = none;
  stale_reason = none;
  error = none;
}

abbrev pub apply_layer2 : Option LoadMetrics → StoredRow → StoredRow
apply_layer2 none row = row
apply_layer2 (some m) row = record row {
  quads = m.quads;
  files = some m.files;
  loaded_at = some m.loaded_at;
  load_ms = some m.load_ms;
}

abbrev pub apply_layer3 : JsString → Option DiskExtras → StoredRow → StoredRow
apply_layer3 state none row = row
apply_layer3 state (some extras) row = record row {
  index_dir = extras.index_dir;
  index_bytes = extras.index_bytes;
  manifest_sparqly_version = extras.manifest_sparqly_version;
  stale_reason = if state == codes "stale" then extras.stale_reason else none;
}

pub apply_layer5 : JsString → Option SourceRowError → StoredRow → StoredRow
apply_layer5 state none row = row
apply_layer5 state (some e) row =
    if state == codes "failed" then record row { error = some e } else row

abbrev pub parent_id_of : {X : Type 0} → ParsedSource X → Option JsString
parent_id_of (file s) = some s.parent_id
parent_id_of (glob s) = none
parent_id_of (endpoint s) = none
parent_id_of (reference s) = none
parent_id_of (empty s) = none

-- The kinds that a row of each mode takes.
abbrev pub kind_in : {X : Type 0} → RowMode → ParsedSource X → Option RowKind
kind_in mode (glob s) = some glob_kind
kind_in mode (file s) = some file_kind
kind_in in_memory (empty s) = some empty_kind
kind_in disk_backed (empty s) = none
kind_in mode (endpoint s) = none
kind_in mode (reference s) = none

abbrev pub endpoint_row : {X : Type 0} → JsString → ParsedSource X → Result ProjectError SourceRow
endpoint_row id (endpoint s) =
    ok (served (record { id = id; is_default = s.is_default; endpoint_url = s.endpoint }))
endpoint_row id (glob s) = err wrong_kind
endpoint_row id (file s) = err wrong_kind
endpoint_row id (reference s) = err wrong_kind
endpoint_row id (empty s) = err wrong_kind

abbrev pub disk_backed_row :
    DiskBackedState
    → Option LoadMetrics
    → Option DiskExtras
    → Option SourceRowError
    → StoredRow
    → StoredRow
disk_backed_row ready metrics disk error row =
    apply_layer5 (codes "ready") error
      (apply_layer3 (codes "ready") disk (apply_layer2 metrics row))
disk_backed_row state metrics disk error row =
    apply_layer5 (disk_backed_text state) error (apply_layer3 (disk_backed_text state) disk row)

abbrev pub in_memory_row :
    InMemoryState → Option LoadMetrics → Option SourceRowError → StoredRow → StoredRow
in_memory_row loaded metrics error row =
    apply_layer5 (codes "loaded") error (apply_layer2 metrics row)
in_memory_row state metrics error row = apply_layer5 (in_memory_text state) error row

-- The row of a source whose id is `id`.
abbrev pub project_with_id :
    {X : Type 0} → JsString → ParsedSource X → SourceRuntime → Result ProjectError SourceRow
project_with_id id source endpoint_runtime = endpoint_row id source
project_with_id id source (disk_backed_runtime state metrics disk error) =
    elim (kind_in disk_backed source) [
      | none ↦ err wrong_kind
      | some kind ↦ ok (
          stored (
            disk_backed_row state metrics disk error (
              bare_row disk_backed id kind (disk_backed_text state) (marked_default source)
                (parent_id_of source))))
    ]
project_with_id id source (in_memory_runtime state metrics error) =
    elim (kind_in in_memory source) [
      | none ↦ err wrong_kind
      | some kind ↦ ok (
          stored (
            in_memory_row state metrics error (
              bare_row in_memory id kind (in_memory_text state) (marked_default source)
                (parent_id_of source))))
    ]

pub project_source_row :
    {X : Type 0} → ParsedSource X → SourceRuntime → Result ProjectError SourceRow
project_source_row source runtime = elim (id_of source) [
  | none ↦ err no_id
  | some id ↦ project_with_id id source runtime
]
