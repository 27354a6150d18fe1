-- ===== src/Sources.antt =====
-- libs/core/src/lib/sources: the parsed sources of a project, their addresses, the registry that
-- they form, and the expansion of split globs. `X` is what a parsed transform holds besides its
-- key: a function over stores of the n3 library, and a configuration.
pub mod Address
pub mod SplitGlobs
use sparqly.Base.{ℕ, Bool, true, false, Option, none, some, List, [], ◌∷◌, JsString, codes, or_else}
use sparqly.OrderedMap.{OrderedMap}

pub data StorageTier : Type 0 where
  memory disk : StorageTier

pub data SparqlAuth : Type 0 where
  bearer : JsString → SparqlAuth
  basic : JsString → JsString → SparqlAuth

-- A byte cap: absent, explicitly unbounded (`null`), or a count.
pub data ByteCap : Type 0 where
  absent unbounded : ByteCap
  capped : ℕ → ByteCap

pub data ParsedQueryCache : Type 0 where
  bare : ParsedQueryCache
  knobs : ByteCap → Option ℕ → ParsedQueryCache

pub record ParsedTransform (X : Type 0) : Type 0 where
  pub key : JsString
  pub payload : X

-- `is_default` is the marker `default: true`; the code reads it on sources of any kind.
pub record GlobSource (X : Type 0) : Type 0 where
  pub id : Option JsString
  pub is_default : Bool
  pub glob : JsString
  pub transforms : Option (List (ParsedTransform X))
  pub split_by_file : Bool
  pub union_default_graph : Option Bool
  pub storage : Option StorageTier
  pub git_ref : Option JsString
  pub git_root : Option JsString
  pub resolved_sha : Option JsString
  pub query_cache : Option ParsedQueryCache

pub record FileSource (X : Type 0) : Type 0 where
  pub id : JsString
  pub is_default : Bool
  pub path : JsString
  pub parent_id : JsString
  pub transforms : Option (List (ParsedTransform X))
  pub union_default_graph : Option Bool
  pub storage : Option StorageTier
  pub git_ref : Option JsString
  pub repo_root : Option JsString
  pub resolved_sha : Option JsString
  pub query_cache : Option ParsedQueryCache

pub record EndpointSource : Type 0 where
  pub id : Option JsString
  pub is_default : Bool
  pub endpoint : JsString
  pub auth : Option SparqlAuth
  pub headers : Option (OrderedMap JsString JsString)
  pub timeout_ms : Option ℕ
  pub query_cache : Option ParsedQueryCache

pub record ReferenceSource : Type 0 where
  pub id : Option JsString
  pub is_default : Bool
  pub ref : JsString

pub record EmptySource : Type 0 where
  pub id : JsString
  pub is_default : Bool

pub data ParsedSource (X : Type 0) : Type 0 where
  glob : GlobSource X → ParsedSource X
  endpoint : EndpointSource → ParsedSource X
  reference : ReferenceSource → ParsedSource X
  empty : EmptySource → ParsedSource X
  file : FileSource X → ParsedSource X

-- `source.id`
abbrev pub id_of : {X : Type 0} → ParsedSource X → Option JsString
id_of (glob s) = s.id
id_of (endpoint s) = s.id
id_of (reference s) = s.id
id_of (empty s) = some s.id
id_of (file s) = some s.id

-- `source.default === true`
abbrev pub marked_default : {X : Type 0} → ParsedSource X → Bool
marked_default (glob s) = s.is_default
marked_default (endpoint s) = s.is_default
marked_default (reference s) = s.is_default
marked_default (empty s) = s.is_default
marked_default (file s) = s.is_default

-- `source.kind === 'reference'`
abbrev pub is_reference : {X : Type 0} → ParsedSource X → Bool
is_reference (reference s) = true
is_reference (glob s) = false
is_reference (endpoint s) = false
is_reference (empty s) = false
is_reference (file s) = false

-- `{ ...entry, id: 'default', default: true }`
abbrev pub with_default_id : {X : Type 0} → ParsedSource X → ParsedSource X
with_default_id (glob s) = glob (record s { id = some (codes "default"); is_default = true })
with_default_id (endpoint s) =
    endpoint (record s { id = some (codes "default"); is_default = true })
with_default_id (reference s) =
    reference (record s { id = some (codes "default"); is_default = true })
with_default_id (empty s) = empty (record s { id = codes "default"; is_default = true })
with_default_id (file s) = file (record s { id = codes "default"; is_default = true })

abbrev pub storage_tier : {X : Type 0} → ParsedSource X → StorageTier
storage_tier (glob s) = or_else s.storage memory
storage_tier (file s) = or_else s.storage memory
storage_tier other = memory

abbrev pub union_default_graph_enabled : {X : Type 0} → ParsedSource X → Bool
union_default_graph_enabled (glob s) = or_else s.union_default_graph true
union_default_graph_enabled (file s) = or_else s.union_default_graph true
union_default_graph_enabled other = false

abbrev pub source_query_cache_opt_in : {X : Type 0} → ParsedSource X → Option ParsedQueryCache
source_query_cache_opt_in (endpoint s) = s.query_cache
source_query_cache_opt_in (glob s) = s.query_cache
source_query_cache_opt_in (file s) = s.query_cache
source_query_cache_opt_in other = none

abbrev pub query_cache_cap : Option ParsedQueryCache → ByteCap
query_cache_cap none = absent
query_cache_cap (some bare) = absent
query_cache_cap (some (knobs max_bytes ttl)) = max_bytes

abbrev pub query_cache_ttl_ms : Option ParsedQueryCache → Option ℕ
query_cache_ttl_ms none = none
query_cache_ttl_ms (some bare) = none
query_cache_ttl_ms (some (knobs max_bytes ttl)) = ttl

abbrev pub cache_source_id : {X : Type 0} → ParsedSource X → JsString
cache_source_id (endpoint s) = or_else s.id s.endpoint
cache_source_id (glob s) = or_else s.id s.glob
cache_source_id (file s) = s.id
cache_source_id (reference s) = or_else s.id (codes "(target)")
cache_source_id (empty s) = s.id
