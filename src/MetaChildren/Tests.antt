-- ===== src/MetaChildren/Tests.antt =====
-- Runs of the cache of children, over file systems that list the files of a pattern.
use sparqly.Base.{
  ℕ, ◌≡◌, refl, true, false, Option, none, some, List, [], ◌∷◌, JsString, codes, Result, ok,
  if◌then◌else◌, text_eq,
}
use sparqly.OrderedMap
use sparqly.OrderedMap.{OrderedMap}
use sparqly.Sources.{ParsedSource, GlobSource, FileSource, glob}
use sparqly.Sources.SplitGlobs.{PinnedWalk, SplitError}
use sparqly.MetaChildren.{Entry, MetaChildrenCache, invalidate, end_get, get_children, walk, make}
use sparqly.MetaChildren.Currency.{Event, asks, changes, invalidate_lost}

-- A file system is its list of files, and each pattern matches all of them.
abbrev walk_all : List JsString → JsString → Result SplitError (List JsString)
walk_all files pattern = ok files

abbrev no_git : Option (GlobSource ℕ → Result SplitError PinnedWalk)
no_git = none

abbrev name_of : JsString → JsString
name_of path = path

abbrev dir_of : JsString → JsString
dir_of path = []

abbrev docs : GlobSource ℕ
docs = record {
  id = some (codes "docs");
  is_default = false;
  glob = codes "*.ttl";
  transforms = none;
  split_by_file = true;
  union_default_graph = none;
  storage = none;
  git_ref = none;
  git_root = none;
  resolved_sha = none;
  query_cache = none;
}

abbrev id : JsString
id = codes "docs"

abbrev one_file : List JsString
one_file = codes "a.ttl" ∷ []

abbrev no_files : List JsString
no_files = []

abbrev held : Entry ℕ
held = record { meta = docs; children = []; dirty = true }

abbrev cache : MetaChildrenCache ℕ
cache = (id, held) ∷ []

make_run : make (glob docs ∷ []) ≡ (id, record { meta = docs; children = []; dirty = false }) ∷ []
unfolding OrderedMap.set make
make_run = refl

abbrev metas : JsString → Option (GlobSource ℕ)
metas other = if text_eq.beq id other then some docs else none

-- A call, a file that goes and the invalidation that follows, and two more calls.
abbrev events : List (Event (List JsString))
events = asks id ∷ changes no_files id ∷ asks id ∷ asks id ∷ []

-- Before any file is there, the walk finds none.
abbrev clean : Entry ℕ
clean = record { meta = docs; children = []; dirty = false }

abbrev fresh_cache : MetaChildrenCache ℕ
fresh_cache = (id, clean) ∷ []

invalidate_lost_example :
    (get_children name_of dir_of walk_all no_git one_file id
      (end_get id (walk name_of dir_of walk_all no_git no_files docs) (invalidate id cache)).1).0
    ≡ ok []
unfolding OrderedMap.get sparqly.Sources.SplitGlobs.expand_split_globs
invalidate_lost_example =
    invalidate_lost name_of dir_of walk_all no_git no_files one_file id held [] cache refl refl refl
