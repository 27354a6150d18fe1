-- ===== src/GlobIndex/Freshness.antt =====
-- A verdict of `fresh` is exactly the agreement of the two manifests.
use sparqly.Base.{
  Result, ok, err, ◌≡◌, refl, sym, ◌∙◌, ◌↔◌, ◌⊎◌, inl, inr, Bool, true, false, none, some, List, [],
  ◌∷◌, JsString, Eq, text_eq, nat_eq, arith, In, All, All-In, Option-cases, Bool-cases, subst,
}
use sparqly.OrderedMap
use sparqly.OrderedMap.{OrderedMap, has, get-set}
use sparqly.GlobIndex.{
  IndexedFileEntry, GlobIndexManifest, GlobIndexFreshness, fresh, stale, absent, by_path,
  by_path_from, find_removed, find_changed, same_stat, transforms_match,
  compare_glob_index_manifests, inspect_glob_index_freshness, ensure_glob_index, skipped,
}

module _ {M : Type 0} where
  -- A path stands once among the files, as the paths that a glob matches do.
  abbrev pub NoPath : JsString → List (IndexedFileEntry M) → Type 0
  NoPath path files = All (λ file. text_eq.beq file.path path ≡ false) files

  abbrev pub Paths : List (IndexedFileEntry M) → Type 0
  Paths [] = Unit
  Paths (file ∷ files) = NoPath file.path files × Paths files

  get-by_path_none :
      (path : JsString) (m : OrderedMap JsString (IndexedFileEntry M))
      (files : List (IndexedFileEntry M))
      → NoPath path files
      → OrderedMap.get path (by_path_from m files) ≡ OrderedMap.get path m
  get-by_path_none path m [] h = refl
  get-by_path_none path m (file ∷ files) h =
      get-by_path_none path (OrderedMap.set file.path file m) files h.1
      ∙ (ground (arith, h.0, get-set file.path path file m))

  get-by_path-In :
      (file : IndexedFileEntry M) (m : OrderedMap JsString (IndexedFileEntry M))
      (files : List (IndexedFileEntry M))
      → Paths files
      → In file files
      → OrderedMap.get file.path (by_path_from m files) ≡ some file
  get-by_path-In file m [] p i = absurd i
  get-by_path-In file m (f ∷ files) p (inl same) =
      subst (λ x. OrderedMap.get x.path (by_path_from m (f ∷ files)) ≡ some x) same
        (get-by_path_none f.path (OrderedMap.set f.path f m) files p.0
          ∙ (ground (arith, get-set f.path f.path f m, text_eq.beq_iff f.path f.path)))
  get-by_path-In file m (f ∷ files) p (inr there) =
      get-by_path-In file (OrderedMap.set f.path f m) files p.1 there

  get-by_path_some :
      (path : JsString) (m : OrderedMap JsString (IndexedFileEntry M))
      (files : List (IndexedFileEntry M)) {file : IndexedFileEntry M}
      → OrderedMap.get path (by_path_from m files) ≡ some file
      → (OrderedMap.get path m ≡ some file) ⊎ (In file files × (file.path ≡ path))
  get-by_path_some path m [] {file} h = inl h
  get-by_path_some path m (f ∷ files) {file} h =
      elim (get-by_path_some path (OrderedMap.set f.path f m) files {file = file} h) [
        | inl before ↦
            let stored = get-set f.path path f m in
            elim (Bool-cases (text_eq.beq f.path path)) [
              | inl is ↦
                  let same : f ≡ file = ground (arith, is, stored, before) in
                  inr (
                    inl same,
                    subst (λ (x : IndexedFileEntry M). x.path ≡ path) same
                        ((text_eq.beq_iff f.path path).0 is),
                  )
              | inr differs ↦ inl (ground (arith, differs, stored, before))
            ]
        | inr (i, same) ↦ inr (inr i, same)
      ]

  -- Looking a path up among the files.
  by_path-some :
      (path : JsString) (files : List (IndexedFileEntry M)) {file : IndexedFileEntry M}
      → OrderedMap.get path (by_path files) ≡ some file
      → In file files × (file.path ≡ path)
  by_path-some path files {file} h = elim (get-by_path_some path [] files {file = file} h) [
    | inl before ↦ ground (arith, before, OrderedMap.get_empty {V = IndexedFileEntry M} path)
    | inr found ↦ found
  ]

  by_path-In :
      (file : IndexedFileEntry M) (files : List (IndexedFileEntry M))
      → Paths files
      → In file files
      → OrderedMap.get file.path (by_path files) ≡ some file
  by_path-In file files p i = get-by_path-In file [] files p i

  find_removed-fresh_iff :
      (m : OrderedMap JsString (IndexedFileEntry M)) (files : List (IndexedFileEntry M))
      → (find_removed m files ≡ fresh) ↔ All (λ file. has file.path m ≡ true) files
  unfolding find_removed
  find_removed-fresh_iff m [] = (λ _. tt, λ _. refl)
  find_removed-fresh_iff m (file ∷ files) =
      let rest = find_removed-fresh_iff m files in
      (λ h. ground (arith, h, rest.0), λ h. ground (arith, h.0, rest.1 h.1))

module _ {M : Type 0} ⦃e : Eq M⦄ where
  -- What a file of the current manifest needs of the prior one.
  abbrev pub Unchanged : OrderedMap JsString (IndexedFileEntry M) → IndexedFileEntry M → Type 0
  Unchanged m file =
      (prior : IndexedFileEntry M) × (OrderedMap.get file.path m ≡ some prior)
      × (same_stat prior file ≡ true)

  find_changed-fresh_iff :
      (m : OrderedMap JsString (IndexedFileEntry M)) (files : List (IndexedFileEntry M))
      (next : GlobIndexFreshness)
      → (find_changed m files next ≡ fresh) ↔ (All (Unchanged m) files × (next ≡ fresh))
  unfolding find_changed
  find_changed-fresh_iff m [] next = (λ h. (tt, h), λ h. h.1)
  find_changed-fresh_iff m (file ∷ files) next =
      let rest = find_changed-fresh_iff m files next in
      (
        λ h. elim (Option-cases (OrderedMap.get file.path m)) [
          | inl none_there ↦ ground (arith, h, none_there)
          | inr (prior, there) ↦ elim (Bool-cases (same_stat prior file)) [
            | inl same ↦
                let (later, last) = rest.0 (ground (arith, h, there, same)) in
                (((prior, there, same), later), last)
            | inr differs ↦ ground (arith, h, there, differs)
          ]
        ],
        λ h. found m file files next h.0.0 (rest.1 (h.0.1, h.1)),
      )
    where
      found :
          (m : OrderedMap JsString (IndexedFileEntry M)) (file : IndexedFileEntry M)
          (files : List (IndexedFileEntry M)) (next : GlobIndexFreshness)
          → Unchanged m file
          → find_changed m files next ≡ fresh
          → find_changed m (file ∷ files) next ≡ fresh
      found m file files next (prior, there, same) h = ground (arith, there, same, h)

  same_entry : (a b : IndexedFileEntry M) → a.path ≡ b.path → same_stat a b ≡ true → a ≡ b
  same_entry a b p s =
      let size : a.size ≡ b.size = ground (arith, s) in
      let time : a.mtime_ms ≡ b.mtime_ms = ground (arith, s, e.beq_iff a.mtime_ms b.mtime_ms) in
      λ i. record { path = p i; size = size i; mtime_ms = time i }

  same_stat_refl : (a : IndexedFileEntry M) → same_stat a a ≡ true
  same_stat_refl a = ground (arith, e.beq_iff a.mtime_ms a.mtime_ms)

All-tabulate : {A : Type 0} (P : A → Type 0) (xs : List A) → ((x : A) → In x xs → P x) → All P xs
All-tabulate P [] h = tt
All-tabulate P (x ∷ xs) h = (h x (inl refl), All-tabulate P xs (λ y i. h y (inr i)))

module _ {M : Type 0} ⦃e : Eq M⦄ where
  -- The two manifests index the same files, each with the same size and time.
  abbrev pub SameFiles : List (IndexedFileEntry M) → List (IndexedFileEntry M) → Type 0
  SameFiles prior current = (file : IndexedFileEntry M) → In file prior ↔ In file current

  files_fresh_iff :
      (prior current : List (IndexedFileEntry M))
      → Paths prior
      → Paths current
      → (find_changed (by_path prior) current (find_removed (by_path current) prior) ≡ fresh)
        ↔ SameFiles prior current
  files_fresh_iff prior current pp pc =
      let changed =
        find_changed-fresh_iff (by_path prior) current (find_removed (by_path current) prior) in
      let removed = find_removed-fresh_iff (by_path current) prior in
      (
        λ h.
            let (all, last) = changed.0 h in
            λ file.
              let kept : In file current → In file prior = λ i.
                let (p, there, same) = All-In (Unchanged (by_path prior)) current all i in
                let (ip, path) = by_path-some file.path prior {file = p} there in
                subst (λ x. In x prior) (same_entry p file path same) ip in
              let back : In file prior → In file current = λ i.
                elim (Option-cases (OrderedMap.get file.path (by_path current))) [
                  | inl gone ↦ absurd (
                      lost file (by_path current) gone (
                        All-In (λ f. has f.path (by_path current) ≡ true) prior (removed.0 last) i))
                  | inr (c, there) ↦
                      let (ic, path) = by_path-some file.path current {file = c} there in
                      let (p, found, same) = All-In (Unchanged (by_path prior)) current all ic in
                      let (ip, path') = by_path-some c.path prior {file = p} found in
                      let pc_same : p ≡ c = same_entry p c path' same in
                      let own = by_path-In file prior pp i in
                      let other =
                        subst (λ x. OrderedMap.get x (by_path prior) ≡ some p) path found in
                      let same_file : file ≡ p = some_injective (sym own ∙ other) in
                      subst (λ x. In x current) (sym (same_file ∙ pc_same)) ic
                ] in
              (back, kept),
        λ same. changed.1 (
          All-tabulate (Unchanged (by_path prior)) current
              (λ file i. (file, by_path-In file prior pp ((same file).1 i), same_stat_refl file)),
          removed.1 (
              All-tabulate (λ f. has f.path (by_path current) ≡ true) prior
                (λ file i.
                  there_is file (by_path current) file
                    (by_path-In file current pc ((same file).0 i)))),
        ),
      )
    where
      lost :
          (file : IndexedFileEntry M) (m : OrderedMap JsString (IndexedFileEntry M))
          → OrderedMap.get file.path m ≡ none
          → has file.path m ≡ true
          → ⊥
      lost file m gone there = ground (arith, gone, there)

      there_is :
          (file : IndexedFileEntry M) (m : OrderedMap JsString (IndexedFileEntry M))
          (c : IndexedFileEntry M)
          → OrderedMap.get file.path m ≡ some c
          → has file.path m ≡ true
      there_is file m c found = ground (arith, found)

      some_injective : {a b : IndexedFileEntry M} → some a ≡ some b → a ≡ b
      some_injective h = cc

  -- The index on disk is fresh exactly when it was built by this version, with these transforms, and
  -- from these very files: the same paths with the same sizes and times of modification.
  compare-fresh_iff :
      {C : Type 0} (stringify : C → JsString) (prior current : GlobIndexManifest C M)
      → Paths prior.files
      → Paths current.files
      → (compare_glob_index_manifests stringify prior current ≡ fresh) ↔ (
          (prior.sparqly_version ≡ current.sparqly_version)
          × (transforms_match stringify prior.transforms current.transforms ≡ true)
          × SameFiles prior.files current.files)
  unfolding compare_glob_index_manifests
  compare-fresh_iff stringify prior current pp pc =
      let files = files_fresh_iff prior.files current.files pp pc in
      let version = text_eq.beq_iff prior.sparqly_version current.sparqly_version in
      (
        λ h. (ground (arith, h, version), ground (arith, h), files.0 (ground (arith, h))),
        λ (v, t, s). ground (arith, version.1 v, t, files.1 s),
      )

  -- Ensuring the index leaves the one on disk alone exactly when no rebuild is forced and it is fresh,
  -- whatever the build would give.
  pub ensure_skipped_iff :
      {C E : Type 0} (stringify : C → JsString) (force : Bool)
      (prior current : GlobIndexManifest C M) (build : Result E (List JsString))
      → Paths prior.files
      → Paths current.files
      → (ensure_glob_index force
            (ok (inspect_glob_index_freshness stringify (some prior) current))
            build
          ≡ ok skipped)
        ↔ ((force ≡ false)
            × (prior.sparqly_version ≡ current.sparqly_version)
            × (transforms_match stringify prior.transforms current.transforms ≡ true)
            × SameFiles prior.files current.files)
  unfolding ensure_glob_index inspect_glob_index_freshness
  ensure_skipped_iff {E = E} stringify force prior current build pp pc =
      let same = compare-fresh_iff stringify prior current pp pc in
      let verdict = compare_glob_index_manifests stringify prior current in
      let skips = skipped_iff {E = E} force verdict build in
      (
        λ h. let (f, v) = skips.0 h in let (a, b, c) = same.0 v in (f, a, b, c),
        λ (f, a, b, c). skips.1 (f, same.1 (a, b, c)),
      )
    where
      skipped_iff :
          {E : Type 0} (force : Bool) (verdict : GlobIndexFreshness)
          (build : Result E (List JsString))
          → (ensure_glob_index force (ok verdict) build ≡ ok skipped)
            ↔ ((force ≡ false) × (verdict ≡ fresh))
      skipped_iff true absent (ok files) = ground arith
      skipped_iff true absent (err e) = ground arith
      skipped_iff true fresh (ok files) = ground arith
      skipped_iff true fresh (err e) = ground arith
      skipped_iff true (stale reason) (ok files) = ground arith
      skipped_iff true (stale reason) (err e) = ground arith
      skipped_iff false absent (ok files) = ground arith
      skipped_iff false absent (err e) = ground arith
      skipped_iff false fresh build = (λ h. (refl, refl), λ h. refl)
      skipped_iff false (stale reason) (ok files) = ground arith
      skipped_iff false (stale reason) (err e) = ground arith
