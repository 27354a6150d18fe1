-- ===== src/SourceRows/Gates.antt =====
-- What a row shows: its failure, the reason why its index is stale, and its metrics.
use sparqly.Base.{
  ◌≡◌, Bool, Option, none, some, JsString, codes, if◌then◌else◌, ok, ◌==◌, text_eq, arith, ℕ,
  Option-cases, subst, inl, inr,
}
use sparqly.Sources.{ParsedSource, glob, file, endpoint, reference, empty, id_of, marked_default}
use sparqly.SourceRows.{
  InMemoryState, not_loaded, loading, loaded, load_failed, DiskBackedState, not_built, indexing,
  ready, stale, build_failed, in_memory_text, disk_backed_text, LoadMetrics, DiskExtras,
  SourceRowError, SourceRuntime, in_memory_runtime, disk_backed_runtime, endpoint_runtime, RowKind,
  in_memory, disk_backed, StoredRow, stored, bare_row, apply_layer5, parent_id_of, kind_in,
  disk_backed_row, in_memory_row, project_with_id, project_source_row,
}
use sparqly.SourceRows.Meta.{is_loaded_state}

-- What the state at run time holds, as the options of a row.
abbrev pub state_of : SourceRuntime → JsString
state_of (in_memory_runtime state metrics error) = in_memory_text state
state_of (disk_backed_runtime s metrics disk error) = disk_backed_text s
state_of endpoint_runtime = codes "endpoint"

abbrev pub error_of : SourceRuntime → Option SourceRowError
error_of (in_memory_runtime state metrics error) = error
error_of (disk_backed_runtime s metrics disk error) = error
error_of endpoint_runtime = none

abbrev pub reason_of : SourceRuntime → Option JsString
reason_of (disk_backed_runtime s metrics (some extras) error) = extras.stale_reason
reason_of (disk_backed_runtime s metrics none error) = none
reason_of (in_memory_runtime state metrics error) = none
reason_of endpoint_runtime = none

abbrev pub count_of : Option LoadMetrics → Option ℕ
count_of none = none
count_of (some m) = some m.files

abbrev pub files_of : SourceRuntime → Option ℕ
files_of (in_memory_runtime state metrics error) = count_of metrics
files_of (disk_backed_runtime s metrics disk error) = count_of metrics
files_of endpoint_runtime = none

-- A row shows a failure in the state `failed` alone, the reason for a rebuild in `stale` alone, and
-- metrics in `loaded` and `ready` alone; there it shows what the run time has.
abbrev pub Gated : SourceRuntime → StoredRow → Type 0
Gated runtime row =
    (row.state ≡ state_of runtime)
    × (row.error ≡ (if state_of runtime == codes "failed" then error_of runtime else none))
    × (row.stale_reason ≡ (if state_of runtime == codes "stale" then reason_of runtime else none))
    × (row.files ≡ (if is_loaded_state (state_of runtime) then files_of runtime else none))

in_memory-Gated :
    (state : InMemoryState) (metrics : Option LoadMetrics) (error : Option SourceRowError)
    (id : JsString) (kind : RowKind) (is_default : Bool) (parent : Option JsString)
    → Gated (in_memory_runtime state metrics error) (
        in_memory_row state metrics error
          (bare_row in_memory id kind (in_memory_text state) is_default parent))
unfolding apply_layer5
in_memory-Gated not_loaded metrics error id kind is_default parent = ground arith
in_memory-Gated loading metrics error id kind is_default parent = ground arith
in_memory-Gated loaded metrics error id kind is_default parent = ground arith
in_memory-Gated load_failed metrics error id kind is_default parent = ground arith

disk_backed-Gated :
    (state : DiskBackedState) (metrics : Option LoadMetrics) (disk : Option DiskExtras)
    (error : Option SourceRowError) (id : JsString) (kind : RowKind) (is_default : Bool)
    (parent : Option JsString)
    → Gated (disk_backed_runtime state metrics disk error) (
        disk_backed_row state metrics disk error
          (bare_row disk_backed id kind (disk_backed_text state) is_default parent))
unfolding apply_layer5
disk_backed-Gated not_built metrics disk error id kind is_default parent = ground arith
disk_backed-Gated indexing metrics disk error id kind is_default parent = ground arith
disk_backed-Gated ready metrics disk error id kind is_default parent = ground arith
disk_backed-Gated stale metrics disk error id kind is_default parent = ground arith
disk_backed-Gated build_failed metrics disk error id kind is_default parent = ground arith

with_id-Gated :
    {X : Type 0} (id : JsString) (source : ParsedSource X) (runtime : SourceRuntime)
    (row : StoredRow)
    → project_with_id id source runtime ≡ ok (stored row)
    → Gated runtime row
with_id-Gated id (endpoint s) endpoint_runtime row done = cc
with_id-Gated id (glob s) endpoint_runtime row done = cc
with_id-Gated id (file s) endpoint_runtime row done = cc
with_id-Gated id (reference s) endpoint_runtime row done = cc
with_id-Gated id (empty s) endpoint_runtime row done = cc
with_id-Gated id source (in_memory_runtime state metrics error) row done =
    elim (Option-cases (kind_in in_memory source)) [
      | inl e ↦ ground (arith, e, done)
      | inr (kind, e) ↦
          let same : in_memory_row state metrics error (
                bare_row in_memory id kind (in_memory_text state) (marked_default source)
                  (parent_id_of source))
              ≡ row =
            ground (arith, e, done) in
          subst (Gated (in_memory_runtime state metrics error)) same (
            in_memory-Gated state metrics error id kind (marked_default source)
              (parent_id_of source))
    ]
with_id-Gated id source (disk_backed_runtime state metrics disk error) row done =
    elim (Option-cases (kind_in disk_backed source)) [
      | inl e ↦ ground (arith, e, done)
      | inr (kind, e) ↦
          let same : disk_backed_row state metrics disk error (
                bare_row disk_backed id kind (disk_backed_text state) (marked_default source)
                  (parent_id_of source))
              ≡ row =
            ground (arith, e, done) in
          subst (Gated (disk_backed_runtime state metrics disk error)) same (
            disk_backed-Gated state metrics disk error id kind (marked_default source)
              (parent_id_of source))
    ]

-- A projected row of a stored source has the state at run time; it shows the failure exactly when
-- that state is `failed`, the reason for a rebuild exactly when it is `stale`, and the number of
-- files exactly when it is `loaded` or `ready`.
pub project_source_row-Gated :
    {X : Type 0} (source : ParsedSource X) (runtime : SourceRuntime) (row : StoredRow)
    → project_source_row source runtime ≡ ok (stored row)
    → Gated runtime row
unfolding project_source_row
project_source_row-Gated source runtime row done = elim (Option-cases (id_of source)) [
  | inl e ↦ ground (arith, e, done)
  | inr (id, e) ↦ with_id-Gated id source runtime row (rw (project_source_row, e) at done)
]
