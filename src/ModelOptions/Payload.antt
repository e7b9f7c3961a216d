-- ===== src/ModelOptions/Payload.antt =====
-- The deprecated payload and the thinking levels of app/model_options.py. The
-- warnings, which are prose, are left out.
use model_relay.Prelude.{
  String, not, ◌||◌, Option, or_default, List, [], ◌∷◌, ◌==◌, contains, if◌then◌else◌,
}
use model_relay.Python.Value.{Fields, field, end, get, has_key, put}
use model_relay.Python.Text.{lower, strip, is_blank}
use model_relay.Cache.Resolver.Admission.{starts_with}
use model_relay.Routing.Outcome.{Outcome, found, ◌>>=◌}
use model_relay.Routing.Requirements.{sorted_texts, missing_of}
use model_relay.ModelOptions.{Comparison, refuse}

unfoldable pub keys_of : {F : Type 0} → Fields F → List String
keys_of end = []
keys_of (field k v fs) = k ∷ keys_of fs

-- Raises for the first of the names in their order, if there is any.
abbrev pub refuse_first : String → List String → Outcome (Unit {0})
refuse_first code [] = found tt
refuse_first code (n ∷ ns) = refuse code n

-- `_LEGACY_ALIASES` and `_LEGACY_IGNORED`
abbrev legacy_names : List String
legacy_names = "temperature" ∷ "top_p" ∷ "max_output_tokens" ∷ "max_tokens" ∷ "material_mode" ∷ []

module _ {F : Type 0} (C : Comparison F) where
  -- One round of the loop over the aliases.
  unfoldable pub merge_alias : Fields F → String → String → Fields F → Outcome (Fields F)
  merge_alias legacy key canonical requested =
      if not (has_key key legacy)
      then found requested
      else if has_key canonical requested
      then (if C.equals (get canonical requested) (get key legacy)
          then found requested
          else refuse "OPTION_CONFLICT" canonical)
      else found (put canonical (get key legacy) requested)

  -- `_merge_legacy_provider_payload`
  unfoldable pub merge_legacy_provider_payload : Fields F → Fields F → Outcome (Fields F)
  unfolding merge_alias
  merge_legacy_provider_payload requested legacy = do
    done ←
        refuse_first "LEGACY_PROVIDER_PAYLOAD_UNSUPPORTED"
          (sorted_texts (missing_of (keys_of legacy) legacy_names))
    a ← merge_alias legacy "temperature" "temperature" requested
    b ← merge_alias legacy "top_p" "top_p" a
    c ← merge_alias legacy "max_output_tokens" "max_output_tokens" b
    merge_alias legacy "max_tokens" "max_output_tokens" c

-- `_kimi_legacy_thinking`
unfoldable pub kimi_legacy_thinking : String → String → Outcome String
kimi_legacy_thinking model requested =
    let name = lower model in
    if starts_with "kimi-k2.7-code" name
    then (if not (
            contains ("auto" ∷ "low" ∷ "medium" ∷ "high" ∷ "xhigh" ∷ "max" ∷ "on" ∷ "off" ∷ [])
              requested)
          || requested == "off"
        then refuse "THINK_LEVEL_UNSUPPORTED" "think_level"
        else found "on")
    else if starts_with "kimi-k3" name
    then (if contains ("auto" ∷ "low" ∷ "high" ∷ "max" ∷ []) requested
        then found requested
        else refuse "THINK_LEVEL_UNSUPPORTED" "think_level")
    else if requested == "auto"
    then found "auto"
    else refuse "THINK_LEVEL_UNSUPPORTED" "think_level"

-- `str(x or "auto").strip().lower() or "auto"`
abbrev pub level_of : Option String → String
level_of x =
    let given = or_default "" x in
    let level = lower (strip (if is_blank given then "auto" else given)) in
    if is_blank level then "auto" else level
