-- ===== src/MetaChildren.antt =====
-- libs/server/src/lib/bootstrap/meta-children-cache.ts: the children of each split glob, walked
-- again after an invalidation. `Fs` is the state of the file system that the walker reads; a call
-- of `getChildren` that walks begins and ends in two steps, since it waits for the walk.
mod Currency
mod Tests
use sparqly.Base.{
  Bool, true, false, Option, none, some, List, [], ◌∷◌, ◌++◌, JsString, if◌then◌else◌, Result, ok,
  err, ◌>>=◌, ◌==◌, text_eq, filter_by, or_else,
}
use sparqly.OrderedMap
use sparqly.OrderedMap.{OrderedMap, has}
use sparqly.Sources.{ParsedSource, GlobSource, FileSource, glob, file, endpoint, reference, empty}
use sparqly.Sources.SplitGlobs.{PinnedWalk, SplitError, expand_split_globs}

pub record Entry (X : Type 0) : Type 0 where
  pub meta : GlobSource X
  pub children : List (FileSource X)
  pub dirty : Bool

abbrev pub MetaChildrenCache : Type 0 → Type 0
MetaChildrenCache X = OrderedMap JsString (Entry X)

-- What a call answers at once, or the meta whose walk it waits for.
pub data Begun (X : Type 0) : Type 0 where
  answered : List (FileSource X) → Begun X
  walking : GlobSource X → Begun X

module _ {X : Type 0} where
  -- `expanded.filter((s) => s.kind === 'file')`
  abbrev pub files_of : List (ParsedSource X) → List (FileSource X)
  files_of [] = []
  files_of (file f ∷ rest) = f ∷ files_of rest
  files_of (glob s ∷ rest) = files_of rest
  files_of (endpoint s ∷ rest) = files_of rest
  files_of (reference s ∷ rest) = files_of rest
  files_of (empty s ∷ rest) = files_of rest

  abbrev pub child_of_parent : JsString → FileSource X → Bool
  child_of_parent parent_id f = f.parent_id == parent_id

  -- The entries of the constructor; `registry` is the whole registry.
  abbrev pub entries_of :
      List (ParsedSource X) → List (ParsedSource X) → MetaChildrenCache X → MetaChildrenCache X
  entries_of registry [] entries = entries
  entries_of registry (glob s ∷ rest) entries = entries_of registry rest (
      if s.split_by_file
      then elim s.id [
        | none ↦ entries
        | some id ↦
            OrderedMap.set id
              (record {
                meta = s;
                children = filter_by (child_of_parent id) (files_of registry);
                dirty = false;
              })
              entries
      ]
      else entries)
  entries_of registry (file s ∷ rest) entries = entries_of registry rest entries
  entries_of registry (endpoint s ∷ rest) entries = entries_of registry rest entries
  entries_of registry (reference s ∷ rest) entries = entries_of registry rest entries
  entries_of registry (empty s ∷ rest) entries = entries_of registry rest entries

  pub make : List (ParsedSource X) → MetaChildrenCache X
  make registry = entries_of registry registry []

  abbrev pub has_parent : JsString → MetaChildrenCache X → Bool
  has_parent parent_id c = has parent_id c

  pub invalidate : JsString → MetaChildrenCache X → MetaChildrenCache X
  invalidate parent_id c = elim (OrderedMap.get parent_id c) [
    | none ↦ c
    | some entry ↦ OrderedMap.set parent_id (record entry { dirty = true }) c
  ]

  pub begin_get : JsString → MetaChildrenCache X → Begun X
  begin_get parent_id c = elim (OrderedMap.get parent_id c) [
    | none ↦ answered []
    | some entry ↦ if entry.dirty then walking entry.meta else answered entry.children
  ]

  abbrev pub refreshed :
      List (FileSource X) → Option (Entry X) → JsString → MetaChildrenCache X → MetaChildrenCache X
  refreshed children none parent_id c = c
  refreshed children (some entry) parent_id c =
      OrderedMap.set parent_id (record entry { children = children; dirty = false }) c

  -- After the walk: a failure leaves the entry as it is.
  pub end_get :
      JsString
      → Result SplitError (List (FileSource X))
      → MetaChildrenCache X
      → Result SplitError (List (FileSource X)) × MetaChildrenCache X
  end_get parent_id (err e) c = (err e, c)
  end_get parent_id (ok children) c =
      (ok children, refreshed children (OrderedMap.get parent_id c) parent_id c)

  module _ {Fs : Type 0} (basename dirname : JsString → JsString)
      (walk_glob : Fs → JsString → Result SplitError (List JsString))
      (walk_git_glob : Option (GlobSource X → Result SplitError PinnedWalk)) where
    abbrev pub walk : Fs → GlobSource X → Result SplitError (List (FileSource X))
    walk fs meta =
        expand_split_globs basename dirname (walk_glob fs) walk_git_glob (glob meta ∷ []) >>= λ out.
        ok (files_of out)

    abbrev pub end_of_begun :
        Fs
        → JsString
        → Begun X
        → MetaChildrenCache X
        → Result SplitError (List (FileSource X)) × MetaChildrenCache X
    end_of_begun fs parent_id (answered children) c = (ok children, c)
    end_of_begun fs parent_id (walking meta) c = end_get parent_id (walk fs meta) c

    -- `getChildren` when nothing happens while it waits.
    pub get_children :
        Fs
        → JsString
        → MetaChildrenCache X
        → Result SplitError (List (FileSource X)) × MetaChildrenCache X
    get_children fs parent_id c = end_of_begun fs parent_id (begin_get parent_id c) c
