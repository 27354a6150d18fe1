-- ===== src/Diff/Rdf.antt =====
-- libs/core/src/lib/diff/diff.ts: the difference of two sets of canonical statements, with blank
-- nodes of the same shape paired across the sides. A statement is its N-Quads text; the map of the
-- blank nodes of a text to their shapes (computeBnodeShapeMap) and the rewriting of a statement by a
-- map of labels (shapeNormalizeCanonicalNQuad), which run the parser of the n3 package, are
-- arguments.
mod Pairing
mod Same
mod Tests
use sparqly.Base.{
  ℕ, zero, suc, ◌+◌, ◌-◌, Bool, true, false, ◌&&◌, ◌||◌, not, Option, none, some, List, [], ◌∷◌,
  ◌++◌, JsString, codes, if◌then◌else◌, text_eq, ltb, length, includes, or_else, filter_by, any_by,
  nat_beq,
}
use sparqly.OrderedMap
use sparqly.OrderedMap.{OrderedMap, keys}
use sparqly.Diff.Tabular.{sort_texts, distinct_texts}

pub record RdfDiffResult : Type 0 where
  pub added : List JsString
  pub removed : List JsString
  pub total_left : ℕ
  pub total_right : ℕ

-- `s.includes('_:')`
abbrev pub has_bnode : JsString → Bool
has_bnode [] = false
has_bnode (c ∷ []) = false
has_bnode (c ∷ d ∷ s) = let later = has_bnode (d ∷ s) in (nat_beq c b'_' && nat_beq d b':') || later

abbrev pub not_in : List JsString → JsString → Bool
not_in xs s = not (includes xs s)

pub diff_canonical_statements : List JsString → List JsString → RdfDiffResult
diff_canonical_statements left right = record {
  added = sort_texts (filter_by (not_in left) right);
  removed = sort_texts (filter_by (not_in right) left);
  total_left = length (distinct_texts left []);
  total_right = length (distinct_texts right []);
}

-- The texts under a key, and one more of them.
abbrev pub bucket : JsString → OrderedMap JsString (List JsString) → List JsString
bucket key m = or_else (OrderedMap.get key m) []

abbrev pub push :
    JsString → JsString → OrderedMap JsString (List JsString) → OrderedMap JsString (List JsString)
push key s m = OrderedMap.set key (bucket key m ++ s ∷ []) m

abbrev pub group_labels :
    OrderedMap JsString JsString
    → OrderedMap JsString (List JsString)
    → OrderedMap JsString (List JsString)
group_labels [] out = out
group_labels ((label, shape) ∷ rest) out = group_labels rest (push shape label out)

-- `arr.sort()` on each value
abbrev pub sort_values : OrderedMap JsString (List JsString) → OrderedMap JsString (List JsString)
sort_values [] = []
sort_values ((key, labels) ∷ rest) = (key, sort_texts labels) ∷ sort_values rest

pub group_bnode_labels_by_shape : OrderedMap JsString JsString → OrderedMap JsString (List JsString)
group_bnode_labels_by_shape shapes = sort_values (group_labels shapes [])

abbrev pub is_empty : OrderedMap JsString JsString → Bool
is_empty [] = true
is_empty (p ∷ ps) = false

module _
    (shape_normalize_canonical_nquad : JsString → OrderedMap JsString JsString → JsString) where
  abbrev pub rewritten : OrderedMap JsString JsString → JsString → JsString
  rewritten pair_map s =
      if not (is_empty pair_map) && has_bnode s
      then shape_normalize_canonical_nquad s pair_map
      else s

  abbrev pub bucket_from :
      List JsString
      → OrderedMap JsString JsString
      → OrderedMap JsString (List JsString)
      → OrderedMap JsString (List JsString)
  bucket_from [] pair_map out = out
  bucket_from (s ∷ rest) pair_map out =
      bucket_from rest pair_map (push (rewritten pair_map s) s out)

  abbrev pub bucket_by_rewrite :
      List JsString → OrderedMap JsString JsString → OrderedMap JsString (List JsString)
  bucket_by_rewrite statements pair_map = bucket_from statements pair_map []

abbrev pub drop : ℕ → List JsString → List JsString
drop n [] = []
drop zero (x ∷ xs) = x ∷ xs
drop (suc n) (x ∷ xs) = drop n xs

-- What one side has more of a key than the other: the last ones in the order of texts.
abbrev pub surplus : List JsString → List JsString → List JsString
surplus mine others =
    if ltb (length others) (length mine) then drop (length others) (sort_texts mine) else []

abbrev pub surpluses :
    List JsString
    → OrderedMap JsString (List JsString)
    → OrderedMap JsString (List JsString)
    → List JsString
surpluses [] mine others = []
surpluses (key ∷ rest) mine others =
    surplus (bucket key mine) (bucket key others) ++ surpluses rest mine others

abbrev pub diff_buckets :
    OrderedMap JsString (List JsString)
    → OrderedMap JsString (List JsString)
    → ℕ
    → ℕ
    → RdfDiffResult
diff_buckets lefts rights left_count right_count =
    let all = distinct_texts (keys lefts ++ keys rights) [] in
    record {
      added = sort_texts (surpluses all rights lefts);
      removed = sort_texts (surpluses all lefts rights);
      total_left = left_count;
      total_right = right_count;
    }

module _ (decimal : ℕ → JsString) where
  -- `paired-${shape}-${i}`
  abbrev pub token : JsString → ℕ → JsString
  token shape i = codes "paired-" ++ shape ++ codes "-" ++ decimal i

  -- The loop over the labels of a shape, from an index on, until one side runs out.
  abbrev pub pair_labels :
      JsString
      → ℕ
      → List JsString
      → List JsString
      → OrderedMap JsString JsString × OrderedMap JsString JsString
      → OrderedMap JsString JsString × OrderedMap JsString JsString
  pair_labels shape i [] rs maps = maps
  pair_labels shape i (l ∷ ls) [] maps = maps
  pair_labels shape i (l ∷ ls) (r ∷ rs) maps =
      pair_labels shape (suc i) ls rs
        (OrderedMap.set l (token shape i) maps.0, OrderedMap.set r (token shape i) maps.1)

  abbrev pub pair_shapes :
      List JsString
      → OrderedMap JsString (List JsString)
      → OrderedMap JsString (List JsString)
      → OrderedMap JsString JsString × OrderedMap JsString JsString
      → OrderedMap JsString JsString × OrderedMap JsString JsString
  pair_shapes [] lefts rights maps = maps
  pair_shapes (shape ∷ rest) lefts rights maps =
      pair_shapes rest lefts rights
        (pair_labels shape 0 (bucket shape lefts) (bucket shape rights) maps)

  module _ (compute_bnode_shape_map : JsString → OrderedMap JsString JsString) where
    pub compute_bnode_pairing :
        JsString → JsString → OrderedMap JsString JsString × OrderedMap JsString JsString
    compute_bnode_pairing left_text right_text =
        let lefts = group_bnode_labels_by_shape (compute_bnode_shape_map left_text) in
        let rights = group_bnode_labels_by_shape (compute_bnode_shape_map right_text) in
        pair_shapes (distinct_texts (keys lefts ++ keys rights) []) lefts rights ([], [])

    module _
        (shape_normalize_canonical_nquad : JsString → OrderedMap JsString JsString → JsString) where
      pub diff_with_paired_bnodes :
          List JsString → JsString → List JsString → JsString → RdfDiffResult
      diff_with_paired_bnodes left left_text right right_text =
          let maps = compute_bnode_pairing left_text right_text in
          if not (any_by has_bnode left) && not (any_by has_bnode right)
          then diff_canonical_statements left right
          else diff_buckets (bucket_by_rewrite shape_normalize_canonical_nquad left maps.0)
              (bucket_by_rewrite shape_normalize_canonical_nquad right maps.1) (length left)
              (length right)
