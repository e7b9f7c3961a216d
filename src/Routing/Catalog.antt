-- ===== src/Routing/Catalog.antt =====
-- `RouteEntry` and `RouteCatalog` of app/routing/catalog.py.
use model_relay.Prelude.{
  String, Bool, true, false, not, ◌||◌, ◌&&◌, Option, none, some, or_default, List, [], ◌∷◌, ◌==◌,
  ltb, if◌then◌else◌,
}
use model_relay.Prelude.Int.{ℤ, pos, negsuc}
use model_relay.Python.Value.{Fields}
use model_relay.Python.Text.{lower}
use model_relay.Materials.Selector.{text_before}

pub record RouteEntry (F : Type 0) : Type 0 where
  pub provider : String
  pub model_pattern : String
  pub connection_id : String
  pub priority : ℤ
  pub deployment_id : Option String
  pub requires_file_adapter : Bool
  pub offering_id : Option String
  pub supply_group_id : Option String
  pub channel_id : Option String
  pub protocol : Option String
  pub capability_contract_id : Option String
  pub capability_contract : Option (Fields F)
  pub protocol_profile_id : Option String
  pub protocol_profile : Option (Fields F)
  pub cache_policy_id : Option String
  pub cache_policy : Option (Fields F)
  pub observed_model_policy : String
  pub quota : Fields F
  pub source : String
  pub unavailable_action : String

-- A published model that only its managed routes may serve.
pub record ManagedGroup : Type 0 where
  pub provider : String
  pub model : String
  pub deployment_id : String

pub record RouteCatalog (F : Type 0) : Type 0 where
  pub revision : String
  pub entries : List (RouteEntry F)
  pub control_plane_hash : Option String
  pub managed_groups : List ManagedGroup

-- `a < b`
abbrev int_before : ℤ → ℤ → Bool
int_before (pos m) (pos n) = ltb m n
int_before (pos m) (negsuc n) = false
int_before (negsuc m) (pos n) = true
int_before (negsuc m) (negsuc n) = ltb n m

-- The higher priority comes first, then the offering, then the connection.
unfoldable pub entry_before : {F : Type 0} → RouteEntry F → RouteEntry F → Bool
entry_before a b =
    let x = or_default "" a.offering_id in
    let y = or_default "" b.offering_id in
    if int_before b.priority a.priority
    then true
    else if int_before a.priority b.priority
    then false
    else if text_before x y
    then true
    else if text_before y x
    then false
    else text_before a.connection_id b.connection_id

-- `sorted` keeps the order of equal keys: an entry goes before the first that it precedes or equals.
unfoldable pub insert_entry :
    {F : Type 0} → RouteEntry F → List (RouteEntry F) → List (RouteEntry F)
insert_entry e [] = e ∷ []
insert_entry e (d ∷ ds) =
    let rest = insert_entry e ds in if entry_before d e then d ∷ rest else e ∷ (d ∷ ds)

unfoldable pub sorted_entries : {F : Type 0} → List (RouteEntry F) → List (RouteEntry F)
sorted_entries [] = []
sorted_entries (e ∷ es) = insert_entry e (sorted_entries es)

abbrev lowered : ManagedGroup → ManagedGroup
lowered g = record {
  provider = lower g.provider;
  model = lower g.model;
  deployment_id = g.deployment_id;
}

abbrev lowered_all : List ManagedGroup → List ManagedGroup
lowered_all [] = []
lowered_all (g ∷ gs) = lowered g ∷ lowered_all gs

-- `RouteCatalog(…)`
unfoldable pub route_catalog :
    {F : Type 0} → String → List (RouteEntry F) → Option String → List ManagedGroup → RouteCatalog F
unfolding sorted_entries
route_catalog revision entries hash groups = record {
  revision = revision;
  entries = sorted_entries entries;
  control_plane_hash = hash;
  managed_groups = lowered_all groups;
}

-- `deployment_id in (None, "*", d)`
abbrev pub serves : Option String → String → Bool
serves none d = true
serves (some e) d = e == "*" || e == d

abbrev is_group : String → String → String → ManagedGroup → Bool
is_group provider model deployment g =
    g.provider == lower provider && (g.model == lower model && g.deployment_id == deployment)

abbrev any_group : (ManagedGroup → Bool) → List ManagedGroup → Bool
any_group p [] = false
any_group p (g ∷ gs) = p g || any_group p gs

unfoldable pub kept_entries :
    {F : Type 0} → (RouteEntry F → Bool) → List (RouteEntry F) → List (RouteEntry F)
kept_entries p [] = []
kept_entries p (e ∷ es) = let rest = kept_entries p es in if p e then e ∷ rest else rest

abbrev any_entry : {F : Type 0} → (RouteEntry F → Bool) → List (RouteEntry F) → Bool
any_entry p [] = false
any_entry p (e ∷ es) = p e || any_entry p es

unfoldable pub has_provider : {F : Type 0} → RouteCatalog F → String → String → Bool
has_provider catalog provider deployment =
    any_entry (λ e. (lower e.provider == lower provider) && serves e.deployment_id deployment)
      catalog.entries
    || any_group (λ g. (g.provider == lower provider) && g.deployment_id == deployment)
        catalog.managed_groups

abbrev pub is_managed : {F : Type 0} → RouteCatalog F → String → String → String → Bool
is_managed catalog provider model deployment =
    any_group (is_group provider model deployment) catalog.managed_groups

-- `glob` is `fnmatchcase`.
module _ {F : Type 0} (glob : String → String → Bool) where
  abbrev pub matches : String → String → String → RouteEntry F → Bool
  matches provider model deployment e =
      lower e.provider == lower provider
      && (serves e.deployment_id deployment && glob (lower model) (lower e.model_pattern))

  abbrev pub is_candidate : Bool → String → String → String → RouteEntry F → Bool
  is_candidate managed provider model deployment e =
      matches provider model deployment e && (not managed || e.source == "managed_v2")

  unfoldable pub candidates : RouteCatalog F → String → String → String → List (RouteEntry F)
  unfolding kept_entries
  candidates catalog provider model deployment =
      kept_entries
        (is_candidate (is_managed catalog provider model deployment) provider model deployment)
        catalog.entries
