-- ===== src/Sources/SplitGlobs/Expansion.antt =====
-- What an expansion keeps, and what it adds.
use mathlib.Core.Path.{ap₂}
use sparqly.Base.{
  ◌≡◌, refl, ◌⊎◌, inl, inr, Bool, true, false, Option, none, some, List, [], ◌∷◌, ◌++◌, JsString,
  arith, Result, ok, >>=-eq-ok, map_result-All, All, All-append, filter_by, filter_by-append,
  Bool-cases, Option-cases, subst, In, ◌∙◌, sym,
}
use sparqly.Sources.{ParsedSource, GlobSource, FileSource, glob, endpoint, reference, empty, file}
use sparqly.Sources.SplitGlobs.{
  PinnedWalk, SplitError, expand_split_globs, expand_one, children_of, as_files, child_of,
  pinned_child_of, validate_synthesized_file_source, is_synthesized_id, expand_working_tree,
  expand_pinned,
}

-- Everything but the children that an expansion synthesizes.
abbrev pub is_declared : {X : Type 0} → ParsedSource X → Bool
is_declared (file f) = false
is_declared (glob s) = true
is_declared (endpoint s) = true
is_declared (reference s) = true
is_declared (empty s) = true

-- A child has a commit exactly when its meta is pinned.
abbrev pub PinMatches : {X : Type 0} → Option JsString → FileSource X → Type 0
PinMatches none f = (f.git_ref ≡ none) × (f.resolved_sha ≡ none)
PinMatches (some ref) f = (sha : JsString) × (f.resolved_sha ≡ some sha)

pub record IsChildOf {X : Type 0} (meta : GlobSource X) (f : FileSource X) : Type 0 where
  pub split : meta.split_by_file ≡ true
  pub parent : meta.id ≡ some f.parent_id
  pub well_named : is_synthesized_id f.id ≡ true
  pub not_default : f.is_default ≡ false
  pub transforms : f.transforms ≡ meta.transforms
  pub union_default_graph : f.union_default_graph ≡ meta.union_default_graph
  pub storage : f.storage ≡ meta.storage
  pub query_cache : f.query_cache ≡ meta.query_cache
  pub pin : PinMatches meta.git_ref f

-- A source of the expansion stood in the registry, or is a child of a split glob that did.
abbrev pub Accounted : {X : Type 0} → List (ParsedSource X) → ParsedSource X → Type 0
Accounted {X} parsed s =
    In s parsed
    ⊎ ((meta : GlobSource X) × (f : FileSource X) × (s ≡ file f)
        × In (glob meta) parsed
        × IsChildOf meta f)

module _ (basename dirname : JsString → JsString) {X : Type 0}
    (walk_glob : JsString → Result SplitError (List JsString))
    (walk_git_glob : Option (GlobSource X → Result SplitError PinnedWalk)) where
  validated :
      (s f : FileSource X)
      → validate_synthesized_file_source basename dirname s ≡ ok f
      → (s ≡ f) × (is_synthesized_id s.id ≡ true)
  unfolding validate_synthesized_file_source
  validated s f e = ground arith

  child_of-IsChildOf :
      (meta : GlobSource X) (parent_id path : JsString)
      → meta.split_by_file ≡ true
      → meta.id ≡ some parent_id
      → meta.git_ref ≡ none
      → is_synthesized_id (child_of basename dirname meta parent_id path).id ≡ true
      → IsChildOf meta (child_of basename dirname meta parent_id path)
  unfolding child_of
  child_of-IsChildOf meta parent_id path sp i g v = record {
    split = sp;
    parent = i;
    well_named = v;
    not_default = refl;
    transforms = refl;
    union_default_graph = refl;
    storage = refl;
    query_cache = refl;
    pin = rw g (refl, refl);
  }

  pinned_child_of-IsChildOf :
      (meta : GlobSource X) (parent_id ref path : JsString) (walked : PinnedWalk)
      → meta.split_by_file ≡ true
      → meta.id ≡ some parent_id
      → meta.git_ref ≡ some ref
      → is_synthesized_id (pinned_child_of basename dirname meta parent_id walked path).id ≡ true
      → IsChildOf meta (pinned_child_of basename dirname meta parent_id walked path)
  unfolding pinned_child_of
  pinned_child_of-IsChildOf meta parent_id ref path walked sp i g v = record {
    split = sp;
    parent = i;
    well_named = v;
    not_default = refl;
    transforms = refl;
    union_default_graph = refl;
    storage = refl;
    query_cache = refl;
    pin = rw g (walked.resolved_sha, refl);
  }

  expand_working_tree-All :
      (meta : GlobSource X) (parent_id : JsString) (fs : List (FileSource X))
      → meta.split_by_file ≡ true
      → meta.id ≡ some parent_id
      → meta.git_ref ≡ none
      → expand_working_tree basename dirname walk_glob walk_git_glob meta parent_id ≡ ok fs
      → All (IsChildOf meta) fs
  unfolding expand_working_tree
  expand_working_tree-All meta parent_id fs sp i g e =
      let (files, _, rest) = >>=-eq-ok (walk_glob meta.glob) _ e in
      map_result-All (IsChildOf meta) _
        (λ path f k.
          let (same, valid) = validated (child_of basename dirname meta parent_id path) f k in
          subst (IsChildOf meta) same (child_of-IsChildOf meta parent_id path sp i g valid))
        files fs rest

  expand_pinned-All :
      (meta : GlobSource X) (parent_id ref : JsString) (fs : List (FileSource X))
      → meta.split_by_file ≡ true
      → meta.id ≡ some parent_id
      → meta.git_ref ≡ some ref
      → expand_pinned basename dirname walk_glob walk_git_glob meta parent_id ≡ ok fs
      → All (IsChildOf meta) fs
  unfolding expand_pinned
  expand_pinned-All meta parent_id ref fs sp i g e = elim (Option-cases walk_git_glob) [
    | inl w ↦ absurd (ground (arith, w))
    | inr (walk, w) ↦
        let (walked, _, rest) = >>=-eq-ok (walk meta) _ (rw w at e) in
        map_result-All (IsChildOf meta) _
          (λ path f k.
            let (same, valid) =
              validated (pinned_child_of basename dirname meta parent_id walked path) f k in
            subst (IsChildOf meta) same
              (pinned_child_of-IsChildOf meta parent_id ref path walked sp i g valid))
          walked.files fs rest
  ]

  children_of-All :
      (meta : GlobSource X) (fs : List (FileSource X))
      → meta.split_by_file ≡ true
      → children_of basename dirname walk_glob walk_git_glob meta ≡ ok fs
      → All (IsChildOf meta) fs
  unfolding children_of
  children_of-All meta fs sp e = elim (Option-cases meta.id) [
    | inl i ↦ absurd (ground (arith, i))
    | inr (parent_id, i) ↦ elim (Option-cases meta.git_ref) [
      | inl g ↦ expand_working_tree-All meta parent_id fs sp i g (ground (arith, i, g))
      | inr (ref, g) ↦ expand_pinned-All meta parent_id ref fs sp i g (ground (arith, i, g))
    ]
  ]

  as_files-declared : (fs : List (FileSource X)) → filter_by is_declared (as_files fs) ≡ []
  as_files-declared [] = refl
  as_files-declared (f ∷ fs) = as_files-declared fs

  as_files-Accounted :
      (parsed : List (ParsedSource X)) (meta : GlobSource X) (fs : List (FileSource X))
      → In (glob meta) parsed
      → All (IsChildOf meta) fs
      → All (Accounted parsed) (as_files fs)
  as_files-Accounted parsed meta [] i h = tt
  as_files-Accounted parsed meta (f ∷ fs) i h =
      (inr (meta, f, refl, i, h.0), as_files-Accounted parsed meta fs i h.1)

  glob_outcome :
      (meta : GlobSource X) (out : List (ParsedSource X))
      → expand_one basename dirname walk_glob walk_git_glob (glob meta) ≡ ok out
      → (out ≡ glob meta ∷ [])
        ⊎ ((fs : List (FileSource X)) × (meta.split_by_file ≡ true)
            × (children_of basename dirname walk_glob walk_git_glob meta ≡ ok fs)
            × (out ≡ glob meta ∷ as_files fs))
  unfolding expand_one
  glob_outcome meta out e = elim (Bool-cases meta.split_by_file) [
    | inl sp ↦
        let (fs, k, last) =
          >>=-eq-ok (children_of basename dirname walk_glob walk_git_glob meta)
            (λ fs. ok (glob meta ∷ as_files fs)) {b = out} (ground (arith, sp)) in
        inr (fs, sp, k, cc)
    | inr sp ↦ inl (ground (arith, sp))
  ]

  glob_kept :
      (parsed out : List (ParsedSource X)) (meta : GlobSource X)
      → In (glob meta) parsed
      → expand_one basename dirname walk_glob walk_git_glob (glob meta) ≡ ok out
      → (filter_by is_declared out ≡ glob meta ∷ []) × All (Accounted parsed) out
  glob_kept parsed out meta i e = elim (glob_outcome meta out e) [
    | inl o ↦ rw o (refl, (inl i, tt))
    | inr (fs, sp, k, o) ↦ rw o (
      rw (as_files-declared fs) refl,
      (inl i, as_files-Accounted parsed meta fs i (children_of-All meta fs sp k)),
    )
  ]

  kept_alone :
      (parsed out : List (ParsedSource X)) (src : ParsedSource X)
      → In src parsed
      → ◌≡◌ {A = Result SplitError (List (ParsedSource X))} (ok (src ∷ [])) (ok out)
      → (filter_by is_declared out ≡ filter_by is_declared (src ∷ [])) × All (Accounted parsed) out
  kept_alone parsed out src i e = let same : src ∷ [] ≡ out = cc in rw (← same) (refl, (inl i, tt))

  expand_one_kept :
      (parsed out : List (ParsedSource X)) (src : ParsedSource X)
      → In src parsed
      → expand_one basename dirname walk_glob walk_git_glob src ≡ ok out
      → (filter_by is_declared out ≡ filter_by is_declared (src ∷ [])) × All (Accounted parsed) out
  expand_one_kept parsed out (glob meta) i e = glob_kept parsed out meta i e
  expand_one_kept parsed out (endpoint s) i e =
      kept_alone parsed out (endpoint s) i (unfold expand_one in e)
  expand_one_kept parsed out (reference s) i e =
      kept_alone parsed out (reference s) i (unfold expand_one in e)
  expand_one_kept parsed out (empty s) i e =
      kept_alone parsed out (empty s) i (unfold expand_one in e)
  expand_one_kept parsed out (file s) i e =
      kept_alone parsed out (file s) i (unfold expand_one in e)

  expand_kept :
      (parsed rest out : List (ParsedSource X))
      → ((s : ParsedSource X) → In s rest → In s parsed)
      → expand_split_globs basename dirname walk_glob walk_git_glob rest ≡ ok out
      → (filter_by is_declared out ≡ filter_by is_declared rest) × All (Accounted parsed) out
  unfolding expand_split_globs
  expand_kept parsed [] out sub e = let same : [] ≡ out = cc in rw (← same) (refl, tt)
  expand_kept parsed (src ∷ rest) out sub e =
      let (here, eh, e') =
        >>=-eq-ok (expand_one basename dirname walk_glob walk_git_glob src) _ e in
      let (there, et, last) =
        >>=-eq-ok (expand_split_globs basename dirname walk_glob walk_git_glob rest) _ e' in
      let same : here ++ there ≡ out = cc in
      let (kept, known) = expand_one_kept parsed here src (sub src (inl refl)) eh in
      let (kept', known') = expand_kept parsed rest there (λ s i. sub s (inr i)) et in
      rw (← same) (
        filter_by-append is_declared here there
            ∙ ap₂ (◌++◌) kept kept'
            ∙ sym (filter_by-append is_declared (src ∷ []) rest),
        All-append (Accounted parsed) here there known known',
      )

  -- When an expansion succeeds, the sources that were declared are in it once each, in their order
  -- and unchanged, and every other source in it stood in the registry or is a child of a split glob
  -- there: well named, never the default, with the transforms, the storage and the cache of its
  -- meta, and with a commit exactly when the meta is pinned.
  pub expand_split_globs_kept :
      (parsed out : List (ParsedSource X))
      → expand_split_globs basename dirname walk_glob walk_git_glob parsed ≡ ok out
      → (filter_by is_declared out ≡ filter_by is_declared parsed) × All (Accounted parsed) out
  expand_split_globs_kept parsed out e = expand_kept parsed parsed out (λ s i. i) e
