-- ===== src/Sources/SplitGlobs.antt =====
-- libs/core/src/lib/sources/expand-split-globs.ts, derive-file-source-id.ts and the check of
-- child ids in source-spec.ts. The walkers are arguments, as in the source; `basename` and
-- `dirname` are those of node's posix paths. The warning for a glob with no match is not
-- modelled.
mod Expansion
mod Tests
use mathlib.Core.List.{reverse}
use mathlib.Core.Option
use sparqly.Base.{
  ℕ, Bool, true, false, ◌&&◌, ◌||◌, Option, none, some, List, [], ◌∷◌, ◌++◌, JsString, codes,
  nat_beq, leb, if◌then◌else◌, Result, ok, err, ◌>>=◌, map_result, ◌==◌, text_eq, includes, nat_eq,
}
use sparqly.Sources.{ParsedSource, GlobSource, FileSource, glob, file}

-- The leading slashes go.
drop_slashes : JsString → JsString
drop_slashes [] = []
drop_slashes (c ∷ s) = if nat_beq c b'/' then drop_slashes s else c ∷ s

trim_slashes : JsString → JsString
unfolding drop_slashes
trim_slashes s = reverse (drop_slashes (reverse (drop_slashes s)))

abbrev is_wildcard : ℕ → Bool
is_wildcard c = includes (codes "*?[{") c

-- `s.search(WILDCARD_RE)`: what stands before the first wildcard.
before_wildcard : JsString → Option JsString
before_wildcard [] = none
before_wildcard (c ∷ s) = if is_wildcard c then some [] else Option.map (◌∷◌ c) (before_wildcard s)

-- What follows a prefix.
after_prefix : JsString → JsString → Option JsString
after_prefix [] s = some s
after_prefix (c ∷ p) [] = none
after_prefix (c ∷ p) (d ∷ s) = if nat_beq c d then after_prefix p s else none

-- What follows the last occurrence of `needle`.
after_last : JsString → JsString → Option JsString
unfolding after_prefix
after_last needle [] = after_prefix needle []
after_last needle (c ∷ s) = elim (after_last needle s) [
  | none ↦ after_prefix needle (c ∷ s)
  | some rest ↦ some rest
]

-- What precedes the last slash.
before_last_slash : JsString → Option JsString
before_last_slash [] = none
before_last_slash (c ∷ s) = elim (before_last_slash s) [
  | none ↦ if nat_beq c b'/' then some [] else none
  | some before ↦ some (c ∷ before)
]

dir_prefix : JsString → JsString
unfolding trim_slashes
dir_prefix dir = if dir == codes "." || dir == codes "/" then [] else trim_slashes dir

-- The characters of a segment of an id: the first one, and the others.
abbrev is_word : ℕ → Bool
is_word c =
    (leb b'a' c && leb c b'z')
    || (leb b'A' c && leb c b'Z')
    || (leb b'0' c && leb c b'9')
    || nat_beq c b'_'
    || nat_beq c b'-'

abbrev is_word_or_dot : ℕ → Bool
is_word_or_dot c = is_word c || nat_beq c b'.'

-- The state of the match of `SYNTHESIZED_SOURCE_ID_REGEX`: at the start of a segment, or inside
-- one; `nested` once a slash has been read.
matches_id : Bool → Bool → JsString → Bool
matches_id starts nested [] = if starts then false else nested
matches_id true nested (c ∷ s) = is_word c && matches_id false nested s
matches_id false nested (c ∷ s) =
    (nat_beq c b'/' && matches_id true true s) || (is_word_or_dot c && matches_id false nested s)

pub is_synthesized_id : JsString → Bool
unfolding matches_id
is_synthesized_id id = matches_id true false id

pub record PinnedWalk : Type 0 where
  pub files : List JsString
  pub repo_root : JsString
  pub ref : JsString
  pub resolved_sha : JsString

pub data SplitError : Type 0 where
  missing_id no_git_walker default_on_child bad_child_id walk_failed : SplitError

abbrev pub as_files : {X : Type 0} → List (FileSource X) → List (ParsedSource X)
as_files [] = []
as_files (f ∷ fs) = file f ∷ as_files fs

module _ (basename dirname : JsString → JsString) where
  static_prefix : JsString → JsString
  unfolding before_wildcard before_last_slash dir_prefix trim_slashes
  static_prefix pattern = elim (before_wildcard pattern) [
    | none ↦ dir_prefix (dirname pattern)
    | some before ↦ elim (before_last_slash before) [ none ↦ [] | some dir ↦ trim_slashes dir ]
  ]

  id_under : JsString → JsString → JsString → JsString
  unfolding after_last
  id_under parent_id [] path = parent_id ++ b'/' ∷ basename path
  id_under parent_id (c ∷ prefix) path = elim (after_last (b'/' ∷ c ∷ prefix ++ codes "/") path) [
    | none ↦ parent_id ++ b'/' ∷ basename path
    | some rest ↦ parent_id ++ b'/' ∷ rest
  ]

  pub derive_file_source_id : JsString → JsString → JsString → JsString
  unfolding static_prefix id_under
  derive_file_source_id parent_id pattern path = id_under parent_id (static_prefix pattern) path

  module _ {X : Type 0} where
    pub validate_synthesized_file_source : FileSource X → Result SplitError (FileSource X)
    unfolding is_synthesized_id
    validate_synthesized_file_source s =
        if s.is_default
        then err default_on_child
        else if is_synthesized_id s.id
        then ok s
        else err bad_child_id

    -- The child without a pin, and with the three fields of one.
    pub child_of : GlobSource X → JsString → JsString → FileSource X
    unfolding derive_file_source_id
    child_of meta parent_id path = record {
      id = derive_file_source_id parent_id meta.glob path;
      is_default = false;
      path = path;
      parent_id = parent_id;
      transforms = meta.transforms;
      union_default_graph = meta.union_default_graph;
      storage = meta.storage;
      git_ref = none;
      repo_root = none;
      resolved_sha = none;
      query_cache = meta.query_cache;
    }

    pub pinned_child_of : GlobSource X → JsString → PinnedWalk → JsString → FileSource X
    unfolding child_of
    pinned_child_of meta parent_id walked path = record (child_of meta parent_id path) {
      git_ref = some walked.ref;
      repo_root = some walked.repo_root;
      resolved_sha = some walked.resolved_sha;
    }

    module _ (walk_glob : JsString → Result SplitError (List JsString))
        (walk_git_glob : Option (GlobSource X → Result SplitError PinnedWalk)) where
      expand_working_tree : GlobSource X → JsString → Result SplitError (List (FileSource X))
      unfolding validate_synthesized_file_source
      expand_working_tree meta parent_id = do
        files ← walk_glob meta.glob
        map_result (λ path. validate_synthesized_file_source (child_of meta parent_id path)) files

      expand_pinned : GlobSource X → JsString → Result SplitError (List (FileSource X))
      unfolding validate_synthesized_file_source
      expand_pinned meta parent_id = elim walk_git_glob [
        | none ↦ err no_git_walker
        | some walk ↦ do
          walked ← walk meta
          map_result
              (λ path.
                validate_synthesized_file_source (pinned_child_of meta parent_id walked path))
              walked.files
      ]

      pub children_of : GlobSource X → Result SplitError (List (FileSource X))
      unfolding expand_working_tree expand_pinned
      children_of meta = elim meta.id [
        | none ↦ err missing_id
        | some parent_id ↦ elim meta.git_ref [
          | none ↦ expand_working_tree meta parent_id
          | some ref ↦ expand_pinned meta parent_id
        ]
      ]

      -- What one entry of the registry becomes.
      expand_one : ParsedSource X → Result SplitError (List (ParsedSource X))
      unfolding children_of
      expand_one (glob meta) =
          if meta.split_by_file
          then (children_of meta >>= λ fs. ok (glob meta ∷ as_files fs))
          else ok (glob meta ∷ [])
      expand_one other = ok (other ∷ [])

      unfoldable pub expand_split_globs :
          List (ParsedSource X) → Result SplitError (List (ParsedSource X))
      unfolding expand_one
      expand_split_globs [] = ok []
      expand_split_globs (src ∷ rest) = do
        here ← expand_one src
        there ← expand_split_globs rest
        ok (here ++ there)
