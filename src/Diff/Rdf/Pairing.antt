-- ===== src/Diff/Rdf/Pairing.antt =====
-- How many statements the difference reports.
use sparqly.Base.{
  ℕ, zero, suc, ◌+◌, ◌-◌, ◌≡◌, refl, sym, ap, ◌∙◌, subst, Bool, false, ◌&&◌, not, none, List, [],
  ◌∷◌, ◌++◌, JsString, if◌then◌else◌, ◌==◌, text_eq, length, includes, filter_by, any_by, arith,
  All, Bool-cases, inl, inr,
}
use sparqly.OrderedMap
use sparqly.OrderedMap.{OrderedMap, get-set, keys}
use sparqly.Diff.Keys.{total_over, total_over-cons, total_over-keys}
use sparqly.Diff.Tabular.{sort_texts, insert_text, distinct_texts}
use sparqly.Diff.Rdf.{
  has_bnode, not_in, diff_canonical_statements, bucket, push, rewritten, bucket_from,
  bucket_by_rewrite, drop, surplus, surpluses, compute_bnode_pairing, diff_with_paired_bnodes,
}

-- How many statements are rewritten to a key.
abbrev pub count : (JsString → JsString) → JsString → List JsString → ℕ
count f key [] = 0
count f key (s ∷ ss) = let rest = count f key ss in if f s == key then suc rest else rest

-- No statement stands twice.
abbrev pub Unique : List JsString → Type 0
Unique [] = Unit
Unique (s ∷ ss) = (includes ss s ≡ false) × Unique ss

count-append :
    (f : JsString → JsString) (key : JsString) (xs ys : List JsString)
    → count f key (xs ++ ys) ≡ count f key xs + count f key ys
count-append f key [] ys = ground arith
count-append f key (x ∷ xs) ys = ground (arith, count-append f key xs ys)

count-insert_text :
    (f : JsString → JsString) (key s : JsString) (ss : List JsString)
    → count f key (insert_text s ss) ≡ count f key (s ∷ ss)
count-insert_text f key s [] = refl
count-insert_text f key s (t ∷ ts) = ground (arith, count-insert_text f key s ts)

count-sort_texts :
    (f : JsString → JsString) (key : JsString) (ss : List JsString)
    → count f key (sort_texts ss) ≡ count f key ss
count-sort_texts f key [] = refl
count-sort_texts f key (s ∷ ss) =
    ground (arith, count-insert_text f key s (sort_texts ss), count-sort_texts f key ss)

length-insert_text :
    (s : JsString) (ss : List JsString) → length (insert_text s ss) ≡ suc (length ss)
length-insert_text s [] = refl
length-insert_text s (t ∷ ts) = ground (arith, length-insert_text s ts)

length-sort_texts : (ss : List JsString) → length (sort_texts ss) ≡ length ss
length-sort_texts [] = refl
length-sort_texts (s ∷ ss) =
    ground (arith, length-insert_text s (sort_texts ss), length-sort_texts ss)

-- Every text of a list is rewritten to the key.
abbrev Keyed : (JsString → JsString) → JsString → List JsString → Type 0
Keyed f k ss = All (λ s. f s ≡ k) ss

module _ (f : JsString → JsString) (k : JsString) where
  Keyed-insert_text :
      (s : JsString) (ss : List JsString) → f s ≡ k → Keyed f k ss → Keyed f k (insert_text s ss)
  Keyed-insert_text s [] e h = (e, tt)
  Keyed-insert_text s (t ∷ ts) e h = ground (arith, e, h, Keyed-insert_text s ts e h.1)

  Keyed-sort_texts : (ss : List JsString) → Keyed f k ss → Keyed f k (sort_texts ss)
  Keyed-sort_texts [] h = tt
  Keyed-sort_texts (s ∷ ss) h = Keyed-insert_text s (sort_texts ss) h.0 (Keyed-sort_texts ss h.1)

  Keyed-push :
      (s : JsString) (ss : List JsString) → f s ≡ k → Keyed f k ss → Keyed f k (ss ++ s ∷ [])
  Keyed-push s [] e h = (e, tt)
  Keyed-push s (t ∷ ts) e h = (h.0, Keyed-push s ts e h.1)

  count-drop :
      (key : JsString) (n : ℕ) (ss : List JsString)
      → Keyed f k ss
      → count f key (drop n ss) ≡ (if k == key then length ss - n else 0)
  count-drop key n [] h = ground arith
  count-drop key zero (s ∷ ss) h = ground (arith, h.0, count-drop key zero ss h.1, no_drop ss)
    where
      no_drop : (ss : List JsString) → drop zero ss ≡ ss
      no_drop [] = refl
      no_drop (s ∷ ss) = refl
  count-drop key (suc n) (s ∷ ss) h = ground (arith, count-drop key n ss h.1)

  count-surplus :
      (key : JsString) (mine others : List JsString)
      → Keyed f k mine
      → count f key (surplus mine others) ≡ (if k == key then length mine - length others else 0)
  count-surplus key mine others h = ground (
    arith,
    count-drop key (length others) (sort_texts mine) (Keyed-sort_texts mine h),
    length-sort_texts mine,
  )

bucket-push :
    (key k s : JsString) (m : OrderedMap JsString (List JsString))
    → bucket key (push k s m) ≡ (if k == key then bucket k m ++ s ∷ [] else bucket key m)
bucket-push key k s m = ground (arith, get-set k key (bucket k m ++ s ∷ []) m)

bucket_empty : (key : JsString) → bucket key [] ≡ []
bucket_empty key = rw (OrderedMap.get_empty {V = List JsString} key) refl

length-push : (xs : List JsString) (s : JsString) → length (xs ++ s ∷ []) ≡ suc (length xs)
length-push [] s = refl
length-push (x ∷ xs) s = ground (arith, length-push xs s)

module _ (normalize : JsString → OrderedMap JsString JsString → JsString)
    (pair_map : OrderedMap JsString JsString) where
  abbrev key_of : JsString → JsString
  key_of = rewritten normalize pair_map

  -- The buckets hold each statement once, under its key.
  length-bucket_from :
      (key : JsString) (ss : List JsString) (out : OrderedMap JsString (List JsString))
      → length (bucket key (bucket_from normalize ss pair_map out))
        ≡ length (bucket key out) + count key_of key ss
  length-bucket_from key [] out = omega arith
  length-bucket_from key (s ∷ ss) out =
      let k = key_of s in
      let tail = length-bucket_from key ss (push k s out) in
      let pushed = bucket-push key k s out in
      let longer = length-push (bucket k out) s in
      elim (Bool-cases (text_eq.beq k key)) [
        | inl e ↦
            let same : k ≡ key = (text_eq.beq_iff k key).0 e in
            let b =
              subst (λ x. length (bucket k out ++ s ∷ []) ≡ suc (length (bucket x out))) same
                longer in
            ground (arith, tail, pushed, e, b)
        | inr e ↦ ground (arith, tail, pushed, e)
      ]

  bucket_from-Keyed :
      (ss : List JsString) (out : OrderedMap JsString (List JsString))
      → ((k : JsString) → Keyed key_of k (bucket k out))
      → (k : JsString) → Keyed key_of k (bucket k (bucket_from normalize ss pair_map out))
  bucket_from-Keyed [] out h k = h k
  bucket_from-Keyed (s ∷ ss) out h k = bucket_from-Keyed ss (push (key_of s) s out) pushed k
    where
      pushed : (k : JsString) → Keyed key_of k (bucket k (push (key_of s) s out))
      pushed k = elim (Bool-cases (text_eq.beq (key_of s) k)) [
        | inl e ↦
            let same : key_of s ≡ k = (text_eq.beq_iff (key_of s) k).0 e in
            subst (Keyed key_of k) (sym (rw e at (bucket-push k (key_of s) s out))) (
              Keyed-push key_of k s (bucket (key_of s) out) same
                (subst (λ x. Keyed key_of x (bucket (key_of s) out)) same (h (key_of s))))
        | inr e ↦ subst (Keyed key_of k) (sym (rw e at (bucket-push k (key_of s) s out))) (h k)
      ]

  count-surpluses :
      (key : JsString) (ks : List JsString) (mine others : OrderedMap JsString (List JsString))
      → ((k : JsString) → Keyed key_of k (bucket k mine))
      → count key_of key (surpluses ks mine others)
        ≡ total_over key (length (bucket key mine) - length (bucket key others)) ks
  count-surpluses key [] mine others h = refl
  count-surpluses key (k ∷ ks) mine others h =
      let more = λ (x : JsString). length (bucket x mine) - length (bucket x others) in
      count-append key_of key (surplus (bucket k mine) (bucket k others)) (surpluses ks mine others)
      ∙ ap (λ n. n + count key_of key (surpluses ks mine others))
          (count-surplus key_of k key (bucket k mine) (bucket k others) (h k))
      ∙ ap (λ n. (if k == key then more k else 0) + n) (count-surpluses key ks mine others h)
      ∙ total_over-cons key k more ks

  count-side :
      (key : JsString) (ss : List JsString)
      (lefts rights others : OrderedMap JsString (List JsString))
      → (OrderedMap.get key lefts ≡ none
          → OrderedMap.get key rights ≡ none
          → length (bucket key (bucket_by_rewrite normalize ss pair_map)) ≡ 0)
      → count key_of key (
          sort_texts (
            surpluses
              (distinct_texts (keys lefts ++ keys rights) [])
              (bucket_by_rewrite normalize ss pair_map)
              others))
        ≡ count key_of key ss - length (bucket key others)
  count-side key ss lefts rights others absent =
      let mine = bucket_by_rewrite normalize ss pair_map in
      let all = distinct_texts (keys lefts ++ keys rights) [] in
      let own = bucket_from-Keyed ss [] (λ k. subst (Keyed key_of k) (sym (bucket_empty k)) tt) in
      let counted = length-bucket_from key ss [] in
      let none_yet = bucket_empty key in
      let once =
        total_over-keys key (length (bucket key mine) - length (bucket key others)) lefts rights
          (λ a b. let z = absent a b in omega (arith, z)) in
      let start : length (bucket key []) ≡ 0 = rw none_yet refl in
      ground (
        arith,
        count-sort_texts key_of key (surpluses all mine others),
        count-surpluses key all mine others own,
        once,
        counted,
        start,
      )

abbrev same_text : JsString → JsString
same_text s = s

count_absent :
    (key : JsString) (ss : List JsString) → includes ss key ≡ false → count same_text key ss ≡ 0
count_absent key [] h = refl
count_absent key (s ∷ ss) h = ground (arith, h, count_absent key ss)

count-Unique :
    (key : JsString) (ss : List JsString)
    → Unique ss
    → count same_text key ss ≡ (if includes ss key then 1 else 0)
count-Unique key [] u = refl
count-Unique key (s ∷ ss) u = elim (Bool-cases (text_eq.beq s key)) [
  | inl e ↦
      let same : s ≡ key = (text_eq.beq_iff s key).0 e in
      let gone = count_absent key ss (subst (λ x. includes ss x ≡ false) same u.0) in
      ground (arith, e, gone)
  | inr e ↦ let tail = count-Unique key ss u.1 in ground (arith, e, tail)
]

count-filter_by :
    (p : JsString → Bool) (key : JsString) (ss : List JsString)
    → count same_text key (filter_by p ss) ≡ (if p key then count same_text key ss else 0)
count-filter_by p key [] = ground arith
count-filter_by p key (s ∷ ss) =
    let tail = count-filter_by p key ss in
    elim (Bool-cases (text_eq.beq s key)) [
      | inl e ↦
          let same : p s ≡ p key = ap p ((text_eq.beq_iff s key).0 e) in
          ground (arith, tail, e, same)
      | inr e ↦ ground (arith, tail, e)
    ]

module _ (normalize : JsString → OrderedMap JsString JsString → JsString)
    (pair_map : OrderedMap JsString JsString) where
  -- A statement without blank nodes is its own key.
  count_ground :
      (key : JsString) (ss : List JsString)
      → any_by has_bnode ss ≡ false
      → count (rewritten normalize pair_map) key ss ≡ count same_text key ss
  count_ground key [] h = refl
  count_ground key (s ∷ ss) h = elim (Bool-cases (has_bnode s)) [
    | inl e ↦ ground (arith, h, e)
    | inr e ↦
        let tail = count_ground key ss (ground (arith, h, e)) in
        let own : rewritten normalize pair_map s ≡ s = ground (arith, e) in
        ground (arith, tail, own)
  ]

  any_by-filter_by :
      (p : JsString → Bool) (ss : List JsString)
      → any_by has_bnode ss ≡ false
      → any_by has_bnode (filter_by p ss) ≡ false
  any_by-filter_by p [] h = refl
  any_by-filter_by p (s ∷ ss) h =
      let tail = any_by-filter_by p ss (ground (arith, h)) in ground (arith, h, tail)

  count_missing :
      (key : JsString) (mine others : List JsString)
      → any_by has_bnode mine ≡ false
      → Unique mine
      → Unique others
      → count (rewritten normalize pair_map) key (sort_texts (filter_by (not_in others) mine))
        ≡ count same_text key mine - count same_text key others
  count_missing key mine others h u v =
      let kept = filter_by (not_in others) mine in
      ground (
        arith,
        count-sort_texts (rewritten normalize pair_map) key kept,
        count_ground key kept (any_by-filter_by (not_in others) mine h),
        count-filter_by (not_in others) key mine,
        count-Unique key mine u,
        count-Unique key others v,
      )

module _ (decimal : ℕ → JsString) (shape_map : JsString → OrderedMap JsString JsString)
    (normalize : JsString → OrderedMap JsString JsString → JsString) where
  -- The key of a statement of the left side, and of the right one: the statement with the labels of
  -- its paired blank nodes replaced.
  abbrev pub left_key : JsString → JsString → JsString → JsString
  left_key left_text right_text =
      rewritten normalize (compute_bnode_pairing decimal shape_map left_text right_text).0

  abbrev pub right_key : JsString → JsString → JsString → JsString
  right_key left_text right_text =
      rewritten normalize (compute_bnode_pairing decimal shape_map left_text right_text).1

  -- If no statement stands twice on a side, then for each key as many statements are reported as
  -- removed as the left side has more of it than the right one, and as many as added as it has fewer,
  -- with blank nodes and without.
  pub diff_with_paired_bnodes-count :
      (key : JsString) (left : List JsString) (left_text : JsString) (right : List JsString)
      (right_text : JsString)
      → Unique left
      → Unique right
      → let diff =
          diff_with_paired_bnodes decimal shape_map normalize left left_text right right_text in
        let on_left = count (left_key left_text right_text) key in
        let on_right = count (right_key left_text right_text) key in
        (on_left diff.removed ≡ on_left left - on_right right)
        × (on_right diff.added ≡ on_right right - on_left left)
  unfolding diff_with_paired_bnodes diff_canonical_statements
  diff_with_paired_bnodes-count key left left_text right right_text u v =
      let maps = compute_bnode_pairing decimal shape_map left_text right_text in
      let lefts = bucket_by_rewrite normalize left maps.0 in
      let rights = bucket_by_rewrite normalize right maps.1 in
      elim (Bool-cases (not (any_by has_bnode left) && not (any_by has_bnode right))) [
        | inl e ↦
            let gl : any_by has_bnode left ≡ false = ground (arith, e) in
            let gr : any_by has_bnode right ≡ false = ground (arith, e) in
            let cl = count_ground normalize maps.0 key left gl in
            let cr = count_ground normalize maps.1 key right gr in
            let ml = count_missing normalize maps.0 key left right gl u v in
            let mr = count_missing normalize maps.1 key right left gr v u in
            let removed : count (rewritten normalize maps.0) key
                  (sort_texts (filter_by (not_in right) left))
                ≡ count (rewritten normalize maps.0) key left
                  - count (rewritten normalize maps.1) key right =
              ground (arith, ml, cl, cr) in
            let added : count (rewritten normalize maps.1) key
                  (sort_texts (filter_by (not_in left) right))
                ≡ count (rewritten normalize maps.1) key right
                  - count (rewritten normalize maps.0) key left =
              ground (arith, mr, cl, cr) in
            rw e (removed, added)
        | inr e ↦
            let start : length (bucket key []) ≡ 0 = rw (bucket_empty key) refl in
            let no_text =
              λ (m : OrderedMap JsString (List JsString)) (gone : OrderedMap.get key m ≡ none).
                length_gone m gone in
            let sl =
              count-side normalize maps.0 key left lefts rights rights (λ a b. no_text lefts a) in
            let sr =
              count-side normalize maps.1 key right lefts rights lefts (λ a b. no_text rights b) in
            let ll = length-bucket_from normalize maps.0 key left [] in
            let lr = length-bucket_from normalize maps.1 key right [] in
            let cl : length (bucket key lefts) ≡ count (rewritten normalize maps.0) key left =
              ground (arith, ll, start) in
            let cr : length (bucket key rights) ≡ count (rewritten normalize maps.1) key right =
              ground (arith, lr, start) in
            rw e (
              sl ∙ ap (λ n. count (rewritten normalize maps.0) key left - n) cr,
              sr ∙ ap (λ n. count (rewritten normalize maps.1) key right - n) cl,
            )
      ]
    where
      length_gone :
          (m : OrderedMap JsString (List JsString))
          → OrderedMap.get key m ≡ none
          → length (bucket key m) ≡ 0
      length_gone m gone = rw gone refl
