-- ===== src/Diff/Rdf/Same.antt =====
-- A side differs from itself in nothing.
use sparqly.Base.{
  ℕ, suc, ◌≡◌, refl, ap, subst, true, ◌&&◌, not, List, [], ◌∷◌, ◌++◌, JsString, text_eq, length,
  includes, filter_by, any_by, arith, Bool-cases, inl, inr,
}
use sparqly.OrderedMap
use sparqly.OrderedMap.{OrderedMap, keys}
use sparqly.Diff.Tabular.{sort_texts, distinct_texts}
use sparqly.Diff.Rdf.{
  has_bnode, not_in, diff_canonical_statements, bucket, bucket_by_rewrite, surplus, surpluses,
  diff_buckets, pair_labels, pair_shapes, compute_bnode_pairing, diff_with_paired_bnodes,
  group_bnode_labels_by_shape, token,
}

-- Texts of a list are in every list that holds all of them.
filter_in :
    (xs ys : List JsString)
    → ((s : JsString) → includes xs s ≡ true → includes ys s ≡ true)
    → filter_by (not_in ys) xs ≡ []
filter_in [] ys h = refl
filter_in (x ∷ xs) ys h =
    let own = (text_eq.beq_iff x x).1 refl in
    let head : includes ys x ≡ true = h x (ground (arith, own)) in
    let tail = filter_in xs ys (λ s i. h s (ground (arith, i))) in ground (arith, head, tail)

surplus_same : (xs : List JsString) → surplus xs xs ≡ []
surplus_same xs = ground arith

surpluses_same :
    (ks : List JsString) (m : OrderedMap JsString (List JsString)) → surpluses ks m m ≡ []
surpluses_same [] m = refl
surpluses_same (k ∷ ks) m = rw (surplus_same (bucket k m)) (surpluses_same ks m)

diff_buckets_same :
    (lefts rights : OrderedMap JsString (List JsString)) (n : ℕ)
    → lefts ≡ rights
    → ((diff_buckets lefts rights n n).added ≡ []) × ((diff_buckets lefts rights n n).removed ≡ [])
diff_buckets_same lefts rights n e =
    let nothing =
      ap sort_texts (surpluses_same (distinct_texts (keys lefts ++ keys lefts) []) lefts) in
    subst (λ r. ((diff_buckets lefts r n n).added ≡ []) × ((diff_buckets lefts r n n).removed ≡ []))
      e (nothing, nothing)

module _ (decimal : ℕ → JsString) where
  pair_labels_same :
      (shape : JsString) (i : ℕ) (ls : List JsString)
      (maps : OrderedMap JsString JsString × OrderedMap JsString JsString)
      → maps.0 ≡ maps.1
      → (pair_labels decimal shape i ls ls maps).0 ≡ (pair_labels decimal shape i ls ls maps).1
  pair_labels_same shape i [] maps h = h
  pair_labels_same shape i (l ∷ ls) maps h =
      pair_labels_same shape (suc i) ls _ (ap (λ m. OrderedMap.set l (token decimal shape i) m) h)

  pair_shapes_same :
      (shapes : List JsString) (m : OrderedMap JsString (List JsString))
      (maps : OrderedMap JsString JsString × OrderedMap JsString JsString)
      → maps.0 ≡ maps.1
      → (pair_shapes decimal shapes m m maps).0 ≡ (pair_shapes decimal shapes m m maps).1
  pair_shapes_same [] m maps h = h
  pair_shapes_same (s ∷ shapes) m maps h =
      pair_shapes_same shapes m _ (pair_labels_same s 0 (bucket s m) maps h)

  -- The difference of a set of statements with itself is empty, whatever its blank nodes.
  pub diff_with_paired_bnodes_same :
      (shape_map : JsString → OrderedMap JsString JsString)
      (normalize : JsString → OrderedMap JsString JsString → JsString) (statements : List JsString)
      (text : JsString)
      → let diff =
          diff_with_paired_bnodes decimal shape_map normalize statements text statements text in
        (diff.added ≡ []) × (diff.removed ≡ []) × (diff.total_left ≡ diff.total_right)
  unfolding diff_with_paired_bnodes diff_canonical_statements compute_bnode_pairing
  diff_with_paired_bnodes_same shape_map normalize statements text =
      let m = group_bnode_labels_by_shape (shape_map text) in
      let pairs = pair_shapes decimal (distinct_texts (keys m ++ keys m) []) m m ([], []) in
      let same = pair_shapes_same (distinct_texts (keys m ++ keys m) []) m ([], []) refl in
      let (added, removed) =
        diff_buckets_same (bucket_by_rewrite normalize statements pairs.0)
          (bucket_by_rewrite normalize statements pairs.1) (length statements)
          (ap (bucket_by_rewrite normalize statements) same) in
      let alone = ap sort_texts (filter_in statements statements (λ s i. i)) in
      elim (Bool-cases (not (any_by has_bnode statements) && not (any_by has_bnode statements))) [
        | inl e ↦ rw e (alone, alone, refl)
        | inr e ↦ rw e (added, removed, refl)
      ]
