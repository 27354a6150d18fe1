-- ===== src/Sources/SplitGlobs/Tests.antt =====
-- A run of the expansion of a split glob.
use sparqly.Base.{
  ℕ, ◌≡◌, refl, true, false, none, some, List, [], ◌∷◌, JsString, codes, Result, ok, All, filter_by,
}
use sparqly.Sources.{GlobSource, FileSource, glob, file}
use sparqly.Sources.SplitGlobs.{
  SplitError, expand_split_globs, expand_one, children_of, expand_working_tree,
  validate_synthesized_file_source, is_synthesized_id, matches_id, child_of, derive_file_source_id,
  static_prefix, id_under, before_wildcard, before_last_slash, dir_prefix, trim_slashes,
  drop_slashes, after_last, after_prefix,
}
use sparqly.Sources.SplitGlobs.Expansion.{is_declared, Accounted, expand_split_globs_kept}

abbrev meta : GlobSource ℕ
meta = record {
  id = some (codes "d");
  is_default = false;
  glob = codes "d/*";
  transforms = none;
  split_by_file = true;
  union_default_graph = none;
  storage = none;
  git_ref = none;
  git_root = none;
  resolved_sha = none;
  query_cache = none;
}

abbrev child : FileSource ℕ
child = record {
  id = codes "d/x";
  is_default = false;
  path = codes "/d/x";
  parent_id = codes "d";
  transforms = none;
  union_default_graph = none;
  storage = none;
  git_ref = none;
  repo_root = none;
  resolved_sha = none;
  query_cache = none;
}

abbrev one_file : JsString → Result SplitError (List JsString)
one_file pattern = ok (codes "/d/x" ∷ [])

abbrev last_part : JsString → JsString
last_part path = codes "x"

abbrev parent_part : JsString → JsString
parent_part path = codes "d"

expand_run :
    expand_split_globs last_part parent_part one_file none (glob meta ∷ [])
    ≡ ok (glob meta ∷ file child ∷ [])
unfolding expand_split_globs expand_one children_of expand_working_tree
    validate_synthesized_file_source is_synthesized_id matches_id child_of derive_file_source_id
    static_prefix id_under before_wildcard before_last_slash dir_prefix trim_slashes drop_slashes
    after_last after_prefix
expand_run = refl

expand_split_globs_kept_example :
    (filter_by is_declared (glob meta ∷ file child ∷ []) ≡ filter_by is_declared (glob meta ∷ []))
    × All (Accounted (glob meta ∷ [])) (glob meta ∷ file child ∷ [])
expand_split_globs_kept_example =
    expand_split_globs_kept last_part parent_part one_file none (glob meta ∷ [])
      (glob meta ∷ file child ∷ []) expand_run
