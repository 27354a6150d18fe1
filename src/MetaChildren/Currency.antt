-- ===== src/MetaChildren/Currency.antt =====
-- When an answer is that of the file system, and when it is not.
use sparqly.Base.{
  ◌≡◌, ◌≢◌, true, false, Option, none, some, List, [], ◌∷◌, JsString, Result, ok, text_eq, arith,
}
use sparqly.OrderedMap
use sparqly.OrderedMap.{OrderedMap, get-set}
use sparqly.Sources.{GlobSource, FileSource}
use sparqly.Sources.SplitGlobs.{PinnedWalk, SplitError}
use sparqly.MetaChildren.{
  Entry, MetaChildrenCache, invalidate, begin_get, end_get, walk, get_children,
}

-- A call for the children of an id, or a change of the file system after which the watcher
-- invalidates an id.
pub data Event (Fs : Type 0) : Type 0 where
  asks : JsString → Event Fs
  changes : Fs → JsString → Event Fs

module _ {X : Type 0} where
  -- What the cache walks for an id; it is fixed when the cache is made.
  abbrev pub meta_of : JsString → MetaChildrenCache X → Option (GlobSource X)
  meta_of id c = elim (OrderedMap.get id c) [ none ↦ none | some entry ↦ some entry.meta ]

module _ {X Fs : Type 0} (basename dirname : JsString → JsString)
    (walk_glob : Fs → JsString → Result SplitError (List JsString))
    (walk_git_glob : Option (GlobSource X → Result SplitError PinnedWalk)) where
  -- An entry that is not dirty holds what a walk would find.
  abbrev pub Current : Fs → MetaChildrenCache X → Type 0
  Current fs c =
      (id : JsString) (entry : Entry X)
      → OrderedMap.get id c ≡ some entry
      → entry.dirty ≡ false
      → walk basename dirname walk_glob walk_git_glob fs entry.meta ≡ ok entry.children

  -- What the calls answer, in order.
  abbrev pub answers :
      List (Event Fs) → Fs → MetaChildrenCache X → List (Result SplitError (List (FileSource X)))
  answers [] fs c = []
  answers (asks id ∷ events) fs c =
      let r = get_children basename dirname walk_glob walk_git_glob fs id c in
      r.0 ∷ answers events fs r.1
  answers (changes fs' id ∷ events) fs c = answers events fs' (invalidate id c)

  -- What a walk finds for an id, of which the globs are known; an id without one has no children.
  abbrev pub walk_option : Fs → Option (GlobSource X) → Result SplitError (List (FileSource X))
  walk_option fs none = ok []
  walk_option fs (some meta) = walk basename dirname walk_glob walk_git_glob fs meta

  -- A program without a cache: each call walks.
  abbrev pub walks :
      (JsString → Option (GlobSource X))
      → List (Event Fs)
      → Fs
      → List (Result SplitError (List (FileSource X)))
  walks metas [] fs = []
  walks metas (asks id ∷ events) fs = walk_option fs (metas id) ∷ walks metas events fs
  walks metas (changes fs' id ∷ events) fs = walks metas events fs'

  -- Each change leaves the walks of all globs but that of the invalidated id as they were.
  abbrev pub Watched : (JsString → Option (GlobSource X)) → List (Event Fs) → Fs → Type 0
  Watched metas [] fs = Unit
  Watched metas (asks id ∷ events) fs = Watched metas events fs
  Watched metas (changes fs' id ∷ events) fs =
      ((other : JsString) (meta : GlobSource X)
        → other ≢ id
        → metas other ≡ some meta
        → walk basename dirname walk_glob walk_git_glob fs' meta
          ≡ walk basename dirname walk_glob walk_git_glob fs meta)
      × Watched metas events fs'

  -- An invalidation that comes while a call waits for its walk is lost: the entry ends clean with the
  -- children of the earlier walk, and the next call answers them, whatever a walk would find by then.
  pub invalidate_lost :
      (fs fs' : Fs) (id : JsString) (entry : Entry X) (children : List (FileSource X))
      (c : MetaChildrenCache X)
      → OrderedMap.get id c ≡ some entry
      → entry.dirty ≡ true
      → walk basename dirname walk_glob walk_git_glob fs entry.meta ≡ ok children
      → (get_children basename dirname walk_glob walk_git_glob fs' id
          (end_get id
            (walk basename dirname walk_glob walk_git_glob fs entry.meta)
            (invalidate id c)).1).0
        ≡ ok children
  unfolding get_children begin_get end_get invalidate
  invalidate_lost fs fs' id entry children c h d w = rw w (
      ground (
        arith,
        h,
        d,
        get-set id id (record entry { dirty = true }) c,
        get-set id id (record entry { children = children; dirty = false })
            (OrderedMap.set id (record entry { dirty = true }) c),
        text_eq.beq_iff id id,
      ))
