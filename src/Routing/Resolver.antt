-- ===== src/Routing/Resolver.antt =====
-- The choice of a route in `RouteResolver.resolve` of app/routing/route_resolver.py: the tests on
-- each candidate, and the decision over their outcomes.
pub mod Positions
pub mod Reference
pub mod Binding
pub mod Servable
pub mod Served
use Prim.Native.String.{◌++◌}
use model_relay.Prelude.{
  ℕ, zero, suc, String, Bool, true, false, not, ◌||◌, ◌&&◌, Option, none, some, or_default, List,
  [], ◌∷◌, ◌==◌, ◌⊎◌, contains, is_empty, length, ltb, if◌then◌else◌,
}
use model_relay.Python.Value.{Value, Fields, get}
use model_relay.Python.Text.{lower, is_blank}
use model_relay.Python.Runtime.{Runtime, or_else, str}
use model_relay.Routing.Outcome.{Outcome, found, failed, RouteError, resolution, crash, ◌>>=◌}
use model_relay.Routing.Catalog.{RouteEntry}
use model_relay.Routing.Requirements.{Support, entry_support}

-- What the resolver asks of the settings, the control plane and the two registries. A scope hash is
-- given, or the text of the exception that says why not.
pub record Site (F : Type 0) : Type 0 where
  pub deployment_id : String
  pub execution_pool : String
  pub legacy_hint_mode : Option String
  pub is_enabled : String → Bool
  pub configuration : String → Bool × Option String
  pub adapter : String → Option (Fields F)
  pub file_adapter : String → Option (Fields F)
  pub account_scope : String → String ⊎ String

pub data Verdict : Type 0 where
  qualified : Verdict
  rejected : String → Option String → Verdict

pub record Rejected (F : Type 0) : Type 0 where
  pub entry : RouteEntry F
  pub reason : String
  pub detail : Option String

-- The loop's two variables.
pub record Survey (F : Type 0) : Type 0 where
  pub selected : Option (RouteEntry F)
  pub rejections : List (Rejected F)

module _ (R : Runtime) where
  open R use {F}

  -- `str(meta.get(k) or "").lower()`
  abbrev entry_word : String → Fields F → String
  entry_word k meta = lower (str R (or_else R (get k meta) (Value.text "")))

  -- `_assert_adapter_contract`
  unfoldable pub assert_adapter_contract : RouteEntry F → Fields F → Outcome (Unit {0})
  assert_adapter_contract e meta =
      let provider = entry_word "provider" meta in
      let protocol = entry_word "protocol" meta in
      let own = or_default "" e.protocol in
      if not (is_blank provider || (provider == "*" || provider == lower e.provider))
      then failed crash
      else if not (is_blank own) && (not (is_blank protocol) && not (protocol == lower own))
      then failed crash
      else found tt

  module _ (S : Site F) where
    abbrev file_mismatch : String → RouteEntry F → Fields F → Bool
    file_mismatch provider e meta =
        not (is_blank (entry_word "provider" meta)) && not (entry_word "provider" meta == provider)

    -- The adapter of provider files, which comes last.
    abbrev assess_file : String → RouteEntry F → Option (Fields F) → Outcome Verdict
    assess_file provider e none =
        if e.requires_file_adapter
        then found
            (rejected "file_adapter_not_registered" (some "provider_file_adapter_not_registered"))
        else found qualified
    assess_file provider e (some meta) =
        if file_mismatch provider e meta
        then failed (
            resolution "ROUTE_CONFIG_INVALID" (some e.connection_id)
              (some ("file_adapter_provider=" ++ entry_word "provider" meta)))
        else found qualified

    abbrev assess_adapter : String → RouteEntry F → Option (Fields F) → Outcome Verdict
    assess_adapter provider e none =
        found (rejected "adapter_not_registered" (some "inference_adapter_not_registered"))
    assess_adapter provider e (some meta) = do
      done ← assert_adapter_contract e meta
      assess_file provider e (S.file_adapter e.connection_id)

    abbrev assess_connection : String → RouteEntry F → Outcome Verdict
    assess_connection provider e =
        if not (S.is_enabled e.connection_id)
        then found (rejected "connection_disabled" (some "disabled_by_connection_policy"))
        else if not (S.configuration e.connection_id).0
        then found (rejected "connection_not_configured" (S.configuration e.connection_id).1)
        else assess_adapter provider e (S.adapter e.connection_id)

    -- One round of the loop over the candidates.
    unfoldable pub assess : List String → Fields F → String → RouteEntry F → Outcome Verdict
    unfolding assert_adapter_contract
    assess allowlist requirements provider e =
        if not (is_empty allowlist) && not (contains allowlist (lower (or_default "" e.channel_id)))
        then found (rejected "channel_not_allowed" none)
        else do
          support ← entry_support R requirements e
          if not support.0
              then found (rejected "capability_requirement_not_met" support.1)
              else assess_connection provider e

abbrev code_for : String → String
code_for reason =
    if reason == "connection_disabled"
    then "ROUTE_CONNECTION_DISABLED"
    else if reason == "connection_not_configured"
    then "ROUTE_CONNECTION_NOT_CONFIGURED"
    else if reason == "adapter_not_registered"
    then "ROUTE_ADAPTER_NOT_REGISTERED"
    else if reason == "file_adapter_not_registered"
    then "ROUTE_FILE_ADAPTER_NOT_REGISTERED"
    else "ROUTE_CAPABILITY_UNAVAILABLE"

module _ {F : Type 0} where
  unfoldable pub record_verdict : RouteEntry F → Verdict → Survey F → Survey F
  record_verdict e qualified s = record { selected = some e; rejections = s.rejections }
  record_verdict e (rejected reason detail) s = record {
    selected = s.selected;
    rejections = record { entry = e; reason = reason; detail = detail } ∷ s.rejections;
  }

  -- The loop; every candidate is tested, also after the first that qualifies.
  unfoldable pub survey :
      (RouteEntry F → Outcome Verdict) → List (RouteEntry F) → Outcome (Survey F)
  survey test [] = found (record { selected = none; rejections = [] })
  survey test (e ∷ es) = do
    verdict ← test e
    rest ← survey test es
    found (record_verdict e verdict rest)

  -- `candidates.index(x)`
  unfoldable pub index_of :
      (RouteEntry F → RouteEntry F → Bool) → List (RouteEntry F) → RouteEntry F → ℕ
  index_of equal [] x = 0
  index_of equal (e ∷ es) x = let rest = index_of equal es x in if equal e x then 0 else suc rest

  abbrev pub is_strict : RouteEntry F → Bool
  is_strict e = e.unavailable_action == "reject_new_session"

  -- `blocking`
  unfoldable pub blocking :
      (RouteEntry F → RouteEntry F → Bool)
      → List (RouteEntry F)
      → ℕ
      → List (Rejected F)
      → List (Rejected F)
  blocking equal cs limit [] = []
  blocking equal cs limit (r ∷ rs) =
      let rest = blocking equal cs limit rs in
      if is_strict r.entry && ltb (index_of equal cs r.entry) limit then r ∷ rest else rest

  abbrev pub only_unsuitable : List (Rejected F) → Bool
  only_unsuitable [] = true
  only_unsuitable (r ∷ rs) =
      (r.reason == "capability_requirement_not_met" || r.reason == "channel_not_allowed")
      && only_unsuitable rs

  -- `detail or reason`
  abbrev why : Rejected F → String
  why r = let d = or_default "" r.detail in if is_blank d then r.reason else d

  -- `_no_eligible_candidate_error`
  unfoldable pub no_eligible_candidate_error : List (Rejected F) → RouteError
  no_eligible_candidate_error [] = resolution "ROUTE_NOT_FOUND" none none
  no_eligible_candidate_error (r ∷ rs) =
      resolution
        (if only_unsuitable (r ∷ rs) then "ROUTE_CAPABILITY_UNAVAILABLE" else code_for r.reason)
        (some r.entry.connection_id) (some (why r))

  unfoldable pub fallback_forbidden : Rejected F → RouteError
  fallback_forbidden r =
      resolution "ROUTE_FALLBACK_FORBIDDEN" (some r.entry.connection_id) (some r.reason)

  -- Without a blocking entry the selected one is taken.
  abbrev pub taken :
      Option (RouteEntry F) → List (Rejected F) → List (Rejected F) → Outcome (RouteEntry F)
  taken chosen rs (b ∷ bs) = failed (fallback_forbidden b)
  taken (some e) rs [] = found e
  taken none rs [] = failed (no_eligible_candidate_error rs)

  abbrev pub selected_index :
      (RouteEntry F → RouteEntry F → Bool) → List (RouteEntry F) → Option (RouteEntry F) → ℕ
  selected_index equal cs none = length cs
  selected_index equal cs (some e) = index_of equal cs e

  unfoldable pub decide :
      (RouteEntry F → RouteEntry F → Bool) → List (RouteEntry F) → Survey F → Outcome (RouteEntry F)
  unfolding no_eligible_candidate_error
  decide equal cs s =
      taken s.selected s.rejections
        (blocking equal cs (selected_index equal cs s.selected) s.rejections)
