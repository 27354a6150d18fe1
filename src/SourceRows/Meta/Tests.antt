-- ===== src/SourceRows/Meta/Tests.antt =====
-- Rows of a split glob kept on disk and in memory, with two children.
use sparqly.Base.{ℕ, ◌≡◌, refl, true, false, Option, none, some, [], ◌∷◌, JsString, codes, ok, err}
use sparqly.Sources.{GlobSource, glob, EmptySource, empty}
use sparqly.SourceRows.{
  not_loaded, ready, build_failed, stale, SourceRowError, DiskExtras, in_memory_runtime,
  disk_backed_runtime, in_memory, disk_backed, StoredRow, SourceRow, stored, bare_row, apply_layer5,
  glob_kind, file_kind, wrong_kind, project_source_row,
}
use sparqly.SourceRows.Gates.{Gated, project_source_row-Gated}
use sparqly.SourceRows.Meta.{
  aggregate_child_state, sum_children, summarize_child_metrics, fold_children,
  project_split_glob_meta,
}
use sparqly.SourceRows.Meta.Summary.{
  SumsUp, project_split_glob_meta-SumsUp, project_split_glob_meta_failed,
}

abbrev docs : GlobSource ℕ
docs = record {
  id = some (codes "docs");
  is_default = false;
  glob = codes "*.ttl";
  transforms = none;
  split_by_file = true;
  union_default_graph = none;
  storage = none;
  git_ref = none;
  git_root = none;
  resolved_sha = none;
  query_cache = none;
}

abbrev nothing : EmptySource
nothing = record { id = codes "nothing"; is_default = false }

abbrev child : JsString → Option ℕ → Option ℕ → SourceRow
child state quads files =
    stored
      (record (bare_row disk_backed (codes "docs/a") file_kind state false (some (codes "docs"))) {
        quads = quads;
        files = files;
        loaded_at = files;
      })

abbrev small : SourceRow
small = child (codes "ready") (some 3) (some 1)

abbrev large : SourceRow
large = child (codes "ready") (some 4) (some 2)

abbrev unbuilt : SourceRow
unbuilt = child (codes "not-built") none none

abbrev own : StoredRow
own = bare_row in_memory (codes "docs") glob_kind (codes "not-loaded") false none

abbrev failure : SourceRowError
failure = record { kind = codes "build"; message = codes "out of disk"; details = none }

abbrev old_index : DiskExtras
old_index = record {
  index_dir = none;
  index_bytes = none;
  manifest_sparqly_version = none;
  stale_reason = some (codes "files changed");
}

empty_on_disk :
    project_source_row {X = ℕ} (empty nothing) (disk_backed_runtime ready none none none)
    ≡ err wrong_kind
unfolding project_source_row
empty_on_disk = refl

states_differ : aggregate_child_state (small ∷ unbuilt ∷ []) (codes "stale") ≡ codes "mixed"
unfolding aggregate_child_state
states_differ = refl

children_summed :
    project_split_glob_meta
      (glob docs)
      (in_memory_runtime not_loaded none none)
      (small ∷ large ∷ unbuilt ∷ [])
    ≡ ok (record {
      row = stored (record own {
        state = codes "mixed";
        quads = some 7;
        files = some 3;
        loaded_at = some 2;
      });
      children = some (small ∷ large ∷ unbuilt ∷ []);
    })
unfolding project_source_row apply_layer5 project_split_glob_meta fold_children sum_children
    aggregate_child_state summarize_child_metrics
children_summed = refl

abbrev stale_row : StoredRow
stale_row = record (bare_row disk_backed (codes "docs") glob_kind (codes "stale") false none) {
  stale_reason = some (codes "files changed");
}

project_source_row-Gated_example :
    Gated (disk_backed_runtime stale none (some old_index) (some failure)) stale_row
unfolding project_source_row apply_layer5
project_source_row-Gated_example =
    project_source_row-Gated (glob docs)
      (disk_backed_runtime stale none (some old_index) (some failure)) stale_row refl

project_split_glob_meta-SumsUp_example :
    (row : StoredRow) × (project_split_glob_meta
        (glob docs)
        (in_memory_runtime not_loaded none none)
        (small ∷ unbuilt ∷ [])
      ≡ ok (record { row = stored row; children = some (small ∷ unbuilt ∷ []) }))
    × SumsUp small (unbuilt ∷ []) row
unfolding project_source_row apply_layer5
project_split_glob_meta-SumsUp_example =
    project_split_glob_meta-SumsUp (glob docs) (in_memory_runtime not_loaded none none) own small
      (unbuilt ∷ []) refl refl

project_split_glob_meta_failed_example :
    (row : StoredRow) × (project_split_glob_meta
        (glob docs)
        (disk_backed_runtime build_failed none (some old_index) (some failure))
        (small ∷ large ∷ [])
      ≡ ok (record { row = stored row; children = some (small ∷ large ∷ []) }))
    × (row.state ≡ codes "ready")
    × (row.error ≡ some failure)
project_split_glob_meta_failed_example =
    project_split_glob_meta_failed docs (codes "docs") none (some old_index) failure small
      (large ∷ []) refl (refl, (refl, tt))
