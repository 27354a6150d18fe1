-- ===== src/SourceRows/Meta.antt =====
-- libs/server/src/lib/sources/source-row-projector.ts: the row of a split glob with its children,
-- and of any source of the page. `readState` is an argument; it is asked about each source once.
mod Summary
mod Tests
use sparqly.Base.{
  ℕ, ◌+◌, Bool, true, false, Option, none, some, List, [], ◌∷◌, ◌&&◌, ◌||◌, not, JsString, codes,
  if◌then◌else◌, Result, ok, err, ◌>>=◌, ◌==◌, text_eq, nat_eq, or_else, ltb,
}
use sparqly.Sources.{ParsedSource, id_of}
use sparqly.SourceRows.{
  SourceRuntime, RowMode, in_memory, disk_backed, StoredRow, SourceRow, stored, served, TopLevelRow,
  ProjectError, endpoint_meta, project_source_row,
}

-- `Layer2Fields` without `loadMs`, which the summary never sets.
pub record Totals : Type 0 where
  pub quads : Option ℕ
  pub files : ℕ
  pub loaded_at : Option ℕ

abbrev pub is_loaded_state : JsString → Bool
is_loaded_state state = (state == codes "loaded") || (state == codes "ready")

abbrev pub child_state : SourceRow → JsString
child_state (served row) = codes "endpoint"
child_state (stored row) = row.state

abbrev pub all_in_state : JsString → List SourceRow → Bool
all_in_state first [] = true
all_in_state first (row ∷ rows) =
    if child_state row == first then all_in_state first rows else false

pub aggregate_child_state : List SourceRow → JsString → JsString
aggregate_child_state [] fallback = fallback
aggregate_child_state (row ∷ rows) fallback =
    if all_in_state (child_state row) rows then child_state row else codes "mixed"

-- `quadsSum = (quadsSum ?? 0) + child.quads`, if the child has a count
abbrev pub add_quads : Option ℕ → Option ℕ → Option ℕ
add_quads so_far none = so_far
add_quads so_far (some n) = some (or_else so_far 0 + n)

abbrev pub latest : Option ℕ → Option ℕ → Option ℕ
latest so_far none = so_far
latest none (some t) = some t
latest (some s) (some t) = if ltb s t then some t else some s

abbrev pub add_child : StoredRow → Totals → Totals
add_child row t = record {
  quads = add_quads t.quads row.quads;
  files = t.files + or_else row.files 0;
  loaded_at = latest t.loaded_at row.loaded_at;
}

pub sum_children : List SourceRow → Totals → Totals
sum_children [] t = t
sum_children (served row ∷ rows) t = sum_children rows t
sum_children (stored row ∷ rows) t =
    sum_children rows (if is_loaded_state row.state then add_child row t else t)

abbrev pub no_totals : Totals
no_totals = record { quads = none; files = 0; loaded_at = none }

abbrev pub is_none {ℓ} : {A : Type ℓ} → Option A → Bool
is_none none = true
is_none (some a) = false

-- The summary over a row without metrics of its own.
pub summarize_child_metrics : Totals → StoredRow → StoredRow
summarize_child_metrics t row =
    if (t.files == 0) && (is_none t.quads && is_none t.loaded_at)
    then row
    else record row { quads = t.quads; files = some t.files; loaded_at = t.loaded_at }

abbrev pub strip_layer2 : StoredRow → StoredRow
strip_layer2 row = record row { quads = none; files = none; loaded_at = none; load_ms = none }

-- The union was touched: the row is in memory, and not `not-loaded`.
abbrev pub touched : RowMode → JsString → Bool
touched in_memory state = not (state == codes "not-loaded")
touched disk_backed state = false

abbrev pub with_children : List SourceRow → StoredRow → StoredRow
with_children children row =
    summarize_child_metrics (sum_children children no_totals)
      (record (strip_layer2 row) { state = aggregate_child_state children row.state })

pub fold_children : List SourceRow → SourceRow → Result ProjectError TopLevelRow
fold_children children (served row) = err endpoint_meta
fold_children children (stored row) = ok (record {
  row = stored (if touched row.mode row.state then row else with_children children row);
  children = some children;
})

pub project_split_glob_meta :
    {X : Type 0} → ParsedSource X → SourceRuntime → List SourceRow → Result ProjectError TopLevelRow
project_split_glob_meta meta runtime children =
    project_source_row meta runtime >>= λ row. fold_children children row

module _ {X : Type 0} (read_state : Option JsString → Result ProjectError SourceRuntime) where
  pub child_rows : List (ParsedSource X) → Result ProjectError (List SourceRow)
  child_rows [] = ok []
  child_rows (child ∷ rest) = elim (id_of child) [
    | none ↦ child_rows rest
    | some id ↦ read_state (some id) >>= λ runtime.
        project_source_row child runtime >>= λ row. child_rows rest >>= λ rows. ok (row ∷ rows)
  ]

  pub project_top_level_row :
      ParsedSource X → List (ParsedSource X) → Result ProjectError TopLevelRow
  project_top_level_row source [] = read_state (id_of source) >>= λ runtime.
      project_source_row source runtime >>= λ row. ok (record { row = row; children = none })
  project_top_level_row source (child ∷ rest) = read_state (id_of source) >>= λ runtime.
      child_rows (child ∷ rest) >>= λ rows. project_split_glob_meta source runtime rows
