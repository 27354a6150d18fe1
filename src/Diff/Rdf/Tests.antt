-- ===== src/Diff/Rdf/Tests.antt =====
-- Runs of the difference; the shape of a blank node is what its label starts with.
use sparqly.Base.{ℕ, ◌+◌, ◌≡◌, ◌-◌, refl, none, some, List, [], ◌∷◌, JsString, codes, text_eq}
use sparqly.OrderedMap
use sparqly.OrderedMap.{OrderedMap}
use sparqly.Diff.Rdf.{
  diff_canonical_statements, diff_with_paired_bnodes, compute_bnode_pairing,
  group_bnode_labels_by_shape,
}
use sparqly.Diff.Rdf.Pairing.{count, left_key, right_key, diff_with_paired_bnodes-count}

abbrev decimal : ℕ → JsString
decimal n = (n + 48) ∷ []

-- A text of one label: its shape is the label without its last character.
abbrev but_last : JsString → JsString
but_last [] = []
but_last (c ∷ []) = []
but_last (c ∷ d ∷ s) = c ∷ but_last (d ∷ s)

abbrev shapes : JsString → OrderedMap JsString JsString
shapes label = (label, but_last label) ∷ []

-- A statement here is `_:` and a label.
abbrev relabel : JsString → OrderedMap JsString JsString → JsString
relabel [] m = []
relabel (c ∷ []) m = c ∷ []
relabel (c ∷ d ∷ label) m = elim (OrderedMap.get label m) [
  | none ↦ c ∷ d ∷ label
  | some token ↦ token
]

abbrev left : List JsString
left = codes "_:b0" ∷ codes "x" ∷ []

abbrev right : List JsString
right = codes "_:b7" ∷ codes "y" ∷ []

-- The two blank nodes have the same shape, so only the ground statements differ.
paired_run :
    diff_with_paired_bnodes decimal shapes relabel left (codes "b0") right (codes "b7")
    ≡ record { added = codes "y" ∷ []; removed = codes "x" ∷ []; total_left = 2; total_right = 2 }
unfolding diff_with_paired_bnodes compute_bnode_pairing group_bnode_labels_by_shape OrderedMap.get
    OrderedMap.set
paired_run = refl

ground_run :
    diff_canonical_statements (codes "a" ∷ codes "b" ∷ []) (codes "b" ∷ codes "c" ∷ [])
    ≡ record { added = codes "c" ∷ []; removed = codes "a" ∷ []; total_left = 2; total_right = 2 }
unfolding diff_canonical_statements
ground_run = refl

diff_with_paired_bnodes-count_example :
    (count
        (left_key decimal shapes relabel (codes "b0") (codes "b7"))
        (codes "x")
        (diff_with_paired_bnodes decimal shapes relabel left
          (codes "b0")
          right
          (codes "b7")).removed
      ≡ count (left_key decimal shapes relabel (codes "b0") (codes "b7")) (codes "x") left
        - count (right_key decimal shapes relabel (codes "b0") (codes "b7")) (codes "x") right)
    × (count
          (right_key decimal shapes relabel (codes "b0") (codes "b7"))
          (codes "x")
          (diff_with_paired_bnodes decimal shapes relabel left
            (codes "b0")
            right
            (codes "b7")).added
        ≡ count (right_key decimal shapes relabel (codes "b0") (codes "b7")) (codes "x") right
          - count (left_key decimal shapes relabel (codes "b0") (codes "b7")) (codes "x") left)
diff_with_paired_bnodes-count_example =
    diff_with_paired_bnodes-count decimal shapes relabel (codes "x") left (codes "b0") right
      (codes "b7") (refl, (refl, tt)) (refl, (refl, tt))
