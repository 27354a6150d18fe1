-- ===== src/GlobIndex.antt =====
-- libs/core/src/lib/glob-index: when an index on disk is still the index of its files
-- (index-manifest.ts, ensure-glob-index.ts). `C` is a transform's configuration, `stringify` its
-- JSON text, and `M` a time of modification; the file system is read before, and its answers are
-- arguments.
mod Freshness
mod Tests
use sparqly.Base.{
  ℕ, Bool, true, false, ◌&&◌, not, Option, none, some, List, [], ◌∷◌, JsString, if◌then◌else◌, Eq,
  ◌==◌, text_eq, nat_eq, map, Result, ok, err, ◌>>=◌,
}
use sparqly.OrderedMap
use sparqly.OrderedMap.{OrderedMap, has}

pub record IndexedFileEntry (M : Type 0) : Type 0 where
  pub path : JsString
  pub size : ℕ
  pub mtime_ms : M

pub record TransformFingerprint (C : Type 0) : Type 0 where
  pub key : JsString
  pub config : Option C

pub record GlobIndexManifest (C M : Type 0) : Type 0 where
  pub files : List (IndexedFileEntry M)
  pub sparqly_version : JsString
  pub transforms : List (TransformFingerprint C)
  pub quad_count : Option ℕ

-- The reason of a stale verdict.
pub data StaleReason : Type 0 where
  version_changed transforms_changed : StaleReason
  file_added file_changed file_removed : JsString → StaleReason

pub data GlobIndexFreshness : Type 0 where
  absent fresh : GlobIndexFreshness
  stale : StaleReason → GlobIndexFreshness

module _ {M : Type 0} where
  -- `new Map(files.map((file) => [file.path, file]))`
  abbrev pub by_path_from :
      OrderedMap JsString (IndexedFileEntry M)
      → List (IndexedFileEntry M)
      → OrderedMap JsString (IndexedFileEntry M)
  by_path_from m [] = m
  by_path_from m (file ∷ files) = by_path_from (OrderedMap.set file.path file m) files

  abbrev pub by_path : List (IndexedFileEntry M) → OrderedMap JsString (IndexedFileEntry M)
  by_path files = by_path_from [] files

  -- The loop over the files of the prior manifest.
  pub find_removed :
      OrderedMap JsString (IndexedFileEntry M) → List (IndexedFileEntry M) → GlobIndexFreshness
  find_removed current_by_path [] = fresh
  find_removed current_by_path (file ∷ files) =
      let rest = find_removed current_by_path files in
      if has file.path current_by_path then rest else stale (file_removed file.path)

module _ {M : Type 0} ⦃e : Eq M⦄ where
  abbrev pub same_stat : IndexedFileEntry M → IndexedFileEntry M → Bool
  same_stat prior file = (prior.size == file.size) && e.beq prior.mtime_ms file.mtime_ms

  -- The loop over the files of the current manifest; what follows it is its last argument.
  pub find_changed :
      OrderedMap JsString (IndexedFileEntry M)
      → List (IndexedFileEntry M)
      → GlobIndexFreshness
      → GlobIndexFreshness
  find_changed prior_by_path [] next = next
  find_changed prior_by_path (file ∷ files) next =
      let rest = find_changed prior_by_path files next in
      elim (OrderedMap.get file.path prior_by_path) [
        | none ↦ stale (file_added file.path)
        | some prior ↦ if same_stat prior file then rest else stale (file_changed file.path)
      ]

module _ {C : Type 0} (stringify : C → JsString) where
  abbrev pub same_config : Option C → Option C → Bool
  same_config none none = true
  same_config none (some b) = false
  same_config (some a) none = false
  same_config (some a) (some b) = stringify a == stringify b

  pub transforms_match : List (TransformFingerprint C) → List (TransformFingerprint C) → Bool
  transforms_match [] [] = true
  transforms_match [] (b ∷ bs) = false
  transforms_match (a ∷ as_) [] = false
  transforms_match (a ∷ as_) (b ∷ bs) =
      let rest = transforms_match as_ bs in
      ((a.key == b.key) && same_config a.config b.config) && rest

  pub compare_glob_index_manifests :
      {M : Type 0} ⦃e : Eq M⦄ → GlobIndexManifest C M → GlobIndexManifest C M → GlobIndexFreshness
  unfolding transforms_match
  compare_glob_index_manifests prior current =
      if not (prior.sparqly_version == current.sparqly_version)
      then stale version_changed
      else if not (transforms_match prior.transforms current.transforms)
      then stale transforms_changed
      else find_changed (by_path prior.files) current.files
          (find_removed (by_path current.files) prior.files)

  -- `inspectGlobIndexFreshness`: the manifest on disk, if it is there, and the current one.
  pub inspect_glob_index_freshness :
      {M : Type 0} ⦃e : Eq M⦄
      → Option (GlobIndexManifest C M)
      → GlobIndexManifest C M
      → GlobIndexFreshness
  inspect_glob_index_freshness none current = absent
  inspect_glob_index_freshness (some prior) current = compare_glob_index_manifests prior current

pub data Trigger : Type 0 where
  was_absent was_stale forced : Trigger

-- A build tells the files, the trigger, and the reason of a stale verdict, also of a forced one.
pub data EnsureGlobIndexOutcome : Type 0 where
  built : List JsString → Trigger → Option StaleReason → EnsureGlobIndexOutcome
  skipped : EnsureGlobIndexOutcome

abbrev pub trigger_of : Bool → GlobIndexFreshness → Trigger
trigger_of true freshness = forced
trigger_of false absent = was_absent
trigger_of false fresh = was_stale
trigger_of false (stale reason) = was_stale

abbrev pub reason_of : GlobIndexFreshness → Option StaleReason
reason_of absent = none
reason_of fresh = none
reason_of (stale reason) = some reason

abbrev pub is_fresh : GlobIndexFreshness → Bool
is_fresh absent = false
is_fresh fresh = true
is_fresh (stale reason) = false

module _ {E : Type 0} where
  -- For the result of the inspection and of the atomic build.
  pub ensure_glob_index :
      Bool
      → Result E GlobIndexFreshness
      → Result E (List JsString)
      → Result E EnsureGlobIndexOutcome
  ensure_glob_index force inspected build = inspected >>= λ freshness.
      if not force && is_fresh freshness
      then ok skipped
      else (build >>= λ files. ok (built files (trigger_of force freshness) (reason_of freshness)))
