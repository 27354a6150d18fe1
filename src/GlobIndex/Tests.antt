-- ===== src/GlobIndex/Tests.antt =====
-- Runs of the comparison of manifests; a configuration is its JSON text, and a time a number.
use sparqly.Base.{ℕ, ◌≡◌, ◌↔◌, refl, true, false, some, List, [], ◌∷◌, JsString, codes, ok, nat_eq}
use sparqly.GlobIndex.{
  IndexedFileEntry, GlobIndexManifest, stale, file_changed, file_removed,
  compare_glob_index_manifests, inspect_glob_index_freshness, ensure_glob_index, transforms_match,
  skipped, built, forced, find_changed, find_removed,
}
use sparqly.GlobIndex.Freshness.{SameFiles, ensure_skipped_iff}
use sparqly.OrderedMap

abbrev text_of : JsString → JsString
text_of config = config

abbrev one_file : IndexedFileEntry ℕ
one_file = record { path = codes "/a.ttl"; size = 10; mtime_ms = 5 }

abbrev other_file : IndexedFileEntry ℕ
other_file = record { path = codes "/b.ttl"; size = 20; mtime_ms = 5 }

abbrev of_files : List (IndexedFileEntry ℕ) → GlobIndexManifest JsString ℕ
of_files files = record {
  files = files;
  sparqly_version = codes "1.2.0";
  transforms = record { key = codes "graphName"; config = some (codes "{}") } ∷ [];
  quad_count = some 7;
}

changed_run :
    compare_glob_index_manifests text_of
      (of_files (one_file ∷ []))
      (of_files (record one_file { mtime_ms = 6 } ∷ []))
    ≡ stale (file_changed (codes "/a.ttl"))
unfolding compare_glob_index_manifests transforms_match find_changed find_removed OrderedMap.get
    OrderedMap.set
changed_run = refl

removed_run :
    compare_glob_index_manifests text_of
      (of_files (one_file ∷ other_file ∷ []))
      (of_files (one_file ∷ []))
    ≡ stale (file_removed (codes "/b.ttl"))
unfolding compare_glob_index_manifests transforms_match find_changed find_removed OrderedMap.get
    OrderedMap.set
removed_run = refl

-- The order of the files does not matter.
ensure_skipped_iff_example :
    (ensure_glob_index {E = ℕ} false
        (ok (
          inspect_glob_index_freshness text_of
            (some (of_files (one_file ∷ other_file ∷ [])))
            (of_files (other_file ∷ one_file ∷ []))))
        (ok (codes "/b.ttl" ∷ codes "/a.ttl" ∷ []))
      ≡ ok skipped)
    ↔ ((false ≡ false)
        × (codes "1.2.0" ≡ codes "1.2.0")
        × (transforms_match text_of (of_files []).transforms (of_files []).transforms ≡ true)
        × SameFiles (one_file ∷ other_file ∷ []) (other_file ∷ one_file ∷ []))
ensure_skipped_iff_example =
    ensure_skipped_iff text_of false (of_files (one_file ∷ other_file ∷ []))
      (of_files (other_file ∷ one_file ∷ [])) (ok (codes "/b.ttl" ∷ codes "/a.ttl" ∷ []))
      ((refl, tt), (tt, tt)) ((refl, tt), (tt, tt))

forced_run :
    ensure_glob_index {E = ℕ} true
      (ok (inspect_glob_index_freshness text_of (some (of_files (one_file ∷ []))) (of_files [])))
      (ok [])
    ≡ ok (built [] forced (some (file_removed (codes "/a.ttl"))))
unfolding ensure_glob_index inspect_glob_index_freshness compare_glob_index_manifests
    transforms_match find_changed find_removed OrderedMap.get OrderedMap.set
forced_run = refl
