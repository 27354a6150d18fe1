-- ===== src/SourceRows/Meta/Summary.antt =====
-- What the row of a split glob says of its children.
use sparqly.Base.{
  ℕ, ◌+◌, ◌≤◌, ◌≡◌, ◌≢◌, ◌↔◌, refl, true, false, Option, none, some, List, [], ◌∷◌, JsString, codes,
  if◌then◌else◌, ok, text_eq, arith, or_else, All, Option-cases, Bool-cases, inl, inr, subst, sym,
  ◌∙◌, nat_eq,
}
use sparqly.Sources.{ParsedSource, GlobSource, glob}
use sparqly.SourceRows.{
  SourceRuntime, disk_backed_runtime, build_failed, LoadMetrics, DiskExtras, SourceRowError,
  apply_layer5, disk_backed_row, bare_row, glob_kind, disk_backed_text, StoredRow, SourceRow,
  stored, served, disk_backed, project_source_row,
}
use sparqly.SourceRows.Meta.{
  Totals, is_loaded_state, child_state, all_in_state, aggregate_child_state, add_child, no_totals,
  sum_children, summarize_child_metrics, touched, with_children, fold_children,
  project_split_glob_meta, latest, strip_layer2,
}

abbrev metric_of : (StoredRow → Option ℕ) → SourceRow → ℕ
metric_of f (served row) = 0
metric_of f (stored row) = if is_loaded_state row.state then or_else (f row) 0 else 0

-- The sum of a metric over the children that are loaded or ready.
abbrev pub total : (StoredRow → Option ℕ) → List SourceRow → ℕ
total f [] = 0
total f (row ∷ rows) = metric_of f row + total f rows

-- A child that is loaded or ready was loaded at this time or before.
abbrev pub LoadedBy : ℕ → SourceRow → Type 0
LoadedBy t row = metric_of (λ r. r.loaded_at) row ≤ t

all_in_state_iff :
    (state : JsString) (rows : List SourceRow)
    → (all_in_state state rows ≡ true) ↔ All (λ row. child_state row ≡ state) rows
all_in_state_iff state [] = ground arith
all_in_state_iff state (row ∷ rows) =
    ground (arith, all_in_state_iff state rows, text_eq.beq_iff (child_state row) state)

-- The children agree on a state exactly when their row takes it, if that is not `mixed`.
pub aggregate_child_state_iff :
    (row : SourceRow) (rows : List SourceRow) (fallback state : JsString)
    → state ≢ codes "mixed"
    → (aggregate_child_state (row ∷ rows) fallback ≡ state)
      ↔ All (λ r. child_state r ≡ state) (row ∷ rows)
unfolding aggregate_child_state
aggregate_child_state_iff row rows fallback state not_mixed =
    elim (Bool-cases (all_in_state (child_state row) rows)) [
      | inl e ↦ (
        λ h.
            let s : child_state row ≡ state = ground (arith, e, h) in
            (
              s,
              subst (λ x. All (λ r. child_state r ≡ x) rows) s
                  ((all_in_state_iff (child_state row) rows).0 e),
            ),
        λ h. ground (arith, e, h.0),
      )
      | inr e ↦ (
        λ h. absurd (not_mixed (sym (ground (arith, e, h)))),
        λ h. ground (
          arith,
          e,
          h.0,
          all_in_state_iff (child_state row) rows,
          subst (λ x. All (λ r. child_state r ≡ x) rows) (sym h.0) h.1,
        ),
      )
    ]

sum_children-total :
    (rows : List SourceRow) (t : Totals)
    → ((sum_children rows t).files ≡ t.files + total (λ r. r.files) rows)
      × (or_else (sum_children rows t).quads 0 ≡ or_else t.quads 0 + total (λ r. r.quads) rows)
unfolding sum_children
sum_children-total [] t = ground arith
sum_children-total (served row ∷ rows) t = ground (arith, sum_children-total rows t)
sum_children-total (stored row ∷ rows) t = elim (Bool-cases (is_loaded_state row.state)) [
  | inl e ↦ elim (Option-cases row.quads) [
    | inl q ↦ ground (arith, e, q, sum_children-total rows (add_child row t))
    | inr (n, q) ↦ ground (arith, e, q, sum_children-total rows (add_child row t))
  ]
  | inr e ↦ ground (arith, e, sum_children-total rows t)
]

latest-bound :
    (a b : Option ℕ)
    → (or_else a 0 ≤ or_else (latest a b) 0) × (or_else b 0 ≤ or_else (latest a b) 0)
latest-bound none none = ground arith
latest-bound (some s) none = ground arith
latest-bound none (some t) = ground arith
latest-bound (some s) (some t) = ground arith

sum_children-latest :
    (rows : List SourceRow) (t : Totals)
    → (or_else t.loaded_at 0 ≤ or_else (sum_children rows t).loaded_at 0)
      × All (LoadedBy (or_else (sum_children rows t).loaded_at 0)) rows
unfolding sum_children
sum_children-latest [] t = ground arith
sum_children-latest (served row ∷ rows) t = ground (arith, sum_children-latest rows t)
sum_children-latest (stored row ∷ rows) t = elim (Bool-cases (is_loaded_state row.state)) [
  | inl e ↦
      ground (
        arith,
        e,
        latest-bound t.loaded_at row.loaded_at,
        sum_children-latest rows (add_child row t),
      )
  | inr e ↦ ground (arith, e, sum_children-latest rows t)
]

-- What a row says of children of which `first` is the first: their common state, if they have one,
-- the sums of their counts, and the time when the last of them was loaded.
abbrev pub SumsUp : SourceRow → List SourceRow → StoredRow → Type 0
SumsUp first rest row =
    ((state : JsString)
      → state ≢ codes "mixed"
      → (row.state ≡ state) ↔ All (λ r. child_state r ≡ state) (first ∷ rest))
    × (or_else row.files 0 ≡ total (λ r. r.files) (first ∷ rest))
    × (or_else row.quads 0 ≡ total (λ r. r.quads) (first ∷ rest))
    × All (LoadedBy (or_else row.loaded_at 0)) (first ∷ rest)

-- The summary keeps the state and the failure of the row below it, and takes the metrics of the
-- totals, if that row has none.
summarize-fields :
    (t : Totals) (row : StoredRow)
    → row.quads ≡ none
    → row.files ≡ none
    → row.loaded_at ≡ none
    → ((summarize_child_metrics t row).state ≡ row.state)
      × ((summarize_child_metrics t row).error ≡ row.error)
      × (or_else (summarize_child_metrics t row).files 0 ≡ t.files)
      × (or_else (summarize_child_metrics t row).quads 0 ≡ or_else t.quads 0)
      × (or_else (summarize_child_metrics t row).loaded_at 0 ≡ or_else t.loaded_at 0)
unfolding summarize_child_metrics
summarize-fields t row q f l = elim (Option-cases t.quads) [
  | inl e ↦ elim (Option-cases t.loaded_at) [
    | inl d ↦ ground (arith, q, f, l, e, d, nat_eq.beq_iff t.files 0)
    | inr (n, d) ↦ ground (arith, q, f, l, e, d)
  ]
  | inr (n, e) ↦ ground (arith, q, f, l, e)
]

with_children-SumsUp :
    (first : SourceRow) (rest : List SourceRow) (row : StoredRow)
    → SumsUp first rest (with_children (first ∷ rest) row)
with_children-SumsUp first rest row =
    let children : List SourceRow = first ∷ rest in
    let below : StoredRow = record (strip_layer2 row) {
      state = aggregate_child_state children row.state;
    } in
    let t : Totals = sum_children children no_totals in
    let (s, e, f, q, l) = summarize-fields t below refl refl refl in
    let (files, quads) = sum_children-total children no_totals in
    (
      λ state not_mixed.
          subst (λ x. (x ≡ state) ↔ All (λ r. child_state r ≡ state) children) (sym s)
            (aggregate_child_state_iff first rest row.state state not_mixed),
      ground (arith, f, files),
      ground (arith, q, quads),
      subst (λ n. All (LoadedBy n) children) (sym l) (sum_children-latest children no_totals).1,
    )

-- A split glob whose union was not touched, with at least one child, has a row that sums up its
-- children, whatever its own metrics are.
pub project_split_glob_meta-SumsUp :
    {X : Type 0} (meta : ParsedSource X) (runtime : SourceRuntime) (own : StoredRow)
    (first : SourceRow) (rest : List SourceRow)
    → project_source_row meta runtime ≡ ok (stored own)
    → touched own.mode own.state ≡ false
    → (row : StoredRow) × (project_split_glob_meta meta runtime (first ∷ rest)
        ≡ ok (record { row = stored row; children = some (first ∷ rest) }))
      × SumsUp first rest row
unfolding project_split_glob_meta fold_children
project_split_glob_meta-SumsUp meta runtime own first rest projected untouched = (
  with_children (first ∷ rest) own,
  ground (arith, projected, untouched),
  with_children-SumsUp first rest own,
)

-- The row of a glob kept on disk after a failed build.
abbrev below_build :
    {X : Type 0}
    → GlobSource X
    → JsString
    → Option LoadMetrics
    → Option DiskExtras
    → SourceRowError
    → StoredRow
below_build meta id metrics disk e =
    disk_backed_row build_failed metrics disk (some e)
      (bare_row disk_backed id glob_kind (disk_backed_text build_failed) meta.is_default none)

failed_row :
    {X : Type 0} (meta : GlobSource X) (id : JsString) (metrics : Option LoadMetrics)
    (disk : Option DiskExtras) (e : SourceRowError)
    → meta.id ≡ some id
    → (own : StoredRow) × (project_source_row
          (glob meta)
          (disk_backed_runtime build_failed metrics disk (some e))
        ≡ ok (stored own))
      × (touched own.mode own.state ≡ false)
      × (own.error ≡ some e)
unfolding project_source_row apply_layer5
failed_row meta id metrics none e named =
    (below_build meta id metrics none e, ground (arith, named), refl, refl)
failed_row meta id metrics (some extras) e named =
    (below_build meta id metrics (some extras) e, ground (arith, named), refl, refl)

ready_not_mixed : codes "ready" ≢ codes "mixed"
ready_not_mixed h =
    let met : false ≡ true = (text_eq.beq_iff (codes "ready") (codes "mixed")).1 h in cc

with_children-error :
    (first : SourceRow) (rest : List SourceRow) (own : StoredRow)
    → (with_children (first ∷ rest) own).error ≡ own.error
with_children-error first rest own =
    (summarize-fields (sum_children (first ∷ rest) no_totals)
      (record (strip_layer2 own) { state = aggregate_child_state (first ∷ rest) own.state }) refl
      refl refl).1

-- If the index of a split glob kept on disk failed to build and all its children, of which there is
-- one at least, are ready, its row is ready and shows the failure.
pub project_split_glob_meta_failed :
    {X : Type 0} (meta : GlobSource X) (id : JsString) (metrics : Option LoadMetrics)
    (disk : Option DiskExtras) (e : SourceRowError) (first : SourceRow) (rest : List SourceRow)
    → meta.id ≡ some id
    → All (λ r. child_state r ≡ codes "ready") (first ∷ rest)
    → (row : StoredRow) × (project_split_glob_meta
          (glob meta)
          (disk_backed_runtime build_failed metrics disk (some e))
          (first ∷ rest)
        ≡ ok (record { row = stored row; children = some (first ∷ rest) }))
      × (row.state ≡ codes "ready")
      × (row.error ≡ some e)
unfolding project_split_glob_meta fold_children
project_split_glob_meta_failed meta id metrics disk e first rest named ready_all =
    let (own, projected, untouched, shown) = failed_row meta id metrics disk e named in
    (
      with_children (first ∷ rest) own,
      ground (arith, projected, untouched),
      ((with_children-SumsUp first rest own).0 (codes "ready") ready_not_mixed).1 ready_all,
      with_children-error first rest own ∙ shown,
    )
