-- ===== src/Diff/Tabular/Tests.antt =====
-- A run of the tabular difference.
use sparqly.Base.{◌-◌, ◌≡◌, refl, none, List, [], ◌∷◌, JsString, codes, ok, length}
use sparqly.OrderedMap
use sparqly.Diff.Tabular.{
  literal, TabularRow, TabularDiffResult, tabular_diff, count_rows, diff_keys, diff_one,
  tabular_row_key,
}
use sparqly.Diff.Tabular.Counts.{amount, occurrences, tabular_diff-amount}

abbrev row_of : JsString → TabularRow
row_of value = (codes "x", literal value none none) ∷ []

abbrev lefts : List TabularRow
lefts = row_of (codes "1") ∷ row_of (codes "2") ∷ []

abbrev rights : List TabularRow
rights = row_of (codes "2") ∷ row_of (codes "2") ∷ []

abbrev difference : TabularDiffResult
difference = record {
  added = record { row = row_of (codes "2"); count = 1 } ∷ [];
  removed = record { row = row_of (codes "1"); count = 1 } ∷ [];
  total_left = 2;
  total_right = 2;
}

tabular_diff_run : tabular_diff lefts rights (codes "x" ∷ []) ≡ ok difference
unfolding tabular_diff count_rows diff_keys diff_one tabular_row_key OrderedMap.get OrderedMap.set
tabular_diff_run = refl

tabular_diff-amount_example :
    (amount (codes "?x=\"2\"") (codes "x" ∷ []) difference.added
      ≡ occurrences (codes "?x=\"2\"") rights (codes "x" ∷ [])
        - occurrences (codes "?x=\"2\"") lefts (codes "x" ∷ []))
    × (amount (codes "?x=\"2\"") (codes "x" ∷ []) difference.removed
        ≡ occurrences (codes "?x=\"2\"") lefts (codes "x" ∷ [])
          - occurrences (codes "?x=\"2\"") rights (codes "x" ∷ []))
    × (2 ≡ length lefts)
    × (2 ≡ length rights)
tabular_diff-amount_example =
    tabular_diff-amount (codes "?x=\"2\"") lefts rights (codes "x" ∷ []) difference tabular_diff_run
