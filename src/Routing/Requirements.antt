-- ===== src/Routing/Requirements.antt =====
-- `RouteEntry.supports_requirements` of app/routing/catalog.py and
-- `CapabilityContract.supports_requirements` of app/control_plane.py.
use Prim.Native.String.{◌++◌}
use model_relay.Prelude.{
  String, Bool, true, false, not, ◌||◌, ◌&&◌, Option, none, some, List, [], ◌∷◌, ◌==◌, contains,
  is_empty, if◌then◌else◌,
}
use model_relay.Python.Value.{Value, nil, cons, Fields, end, get}
use model_relay.Python.Text.{lower, strip, is_blank}
use model_relay.Python.Runtime.{Runtime, truthy, or_else, str}
use model_relay.Cache.Resolver.Admission.{iterate}
use model_relay.Materials.Selector.{text_before, unique}
use model_relay.Routing.Outcome.{Outcome, found, failed, crash, ◌>>=◌, passed_on}
use model_relay.Routing.Catalog.{RouteEntry}

-- `{s.strip().lower() for s in names if s.strip()}`
unfoldable pub normalized : List String → List String
normalized [] = []
normalized (s ∷ ss) =
    let rest = normalized ss in if is_blank (strip s) then rest else lower (strip s) ∷ rest

-- `sorted(required - available)`
unfoldable pub missing_of : List String → List String → List String
missing_of [] available = []
missing_of (s ∷ ss) available =
    let rest = missing_of ss available in if contains available s then rest else s ∷ rest

unfoldable pub insert_text : String → List String → List String
insert_text s [] = s ∷ []
insert_text s (t ∷ ts) =
    let rest = insert_text s ts in if text_before t s then t ∷ rest else s ∷ (t ∷ ts)

unfoldable pub sorted_texts : List String → List String
sorted_texts [] = []
sorted_texts (s ∷ ss) = insert_text s (sorted_texts ss)

-- `",".join(names)`
unfoldable pub comma_joined : List String → String
comma_joined [] = ""
comma_joined (s ∷ []) = s
comma_joined (s ∷ t ∷ ts) = s ++ ("," ++ comma_joined (t ∷ ts))

abbrev lowered_texts : List String → List String
lowered_texts [] = []
lowered_texts (s ∷ ss) = lower s ∷ lowered_texts ss

-- The answer with its reason.
abbrev pub Support : Type 0
Support = Bool × Option String

module _ (R : Runtime) where
  open R use {F}

  -- `[str(x) for x in (v or d)]`
  unfoldable pub names_of : Value F → Outcome (List String)
  unfolding iterate
  names_of v = if truthy R v then passed_on (iterate R v) else found []

  -- `dict(v or {})`; a list of pairs, which would do as well, is no value of a contract.
  unfoldable pub as_mapping : Value F → Outcome (Fields F)
  as_mapping (Value.dict d) = found d
  as_mapping v = if truthy R v then failed crash else found end

  -- `str(v or "none").strip().lower()`
  abbrev word_of : Value F → String
  word_of v = lower (strip (str R (or_else R v (Value.text "none"))))

  -- The parts of a contract that requirements are held against.
  pub record Capability : Type 0 where
    pub thinking : Fields F
    pub structured_output : Fields F
    pub input_modalities : List String
    pub features : List String

  -- The contract of an entry, each part converted in the order of the constructor's arguments.
  unfoldable pub capability_of : Fields F → Outcome Capability
  unfolding as_mapping names_of
  capability_of contract = do
    options ← as_mapping (get "supported_options" contract)
    thinking ← as_mapping (get "thinking" contract)
    structured ← as_mapping (get "structured_output" contract)
    modalities ←
        names_of
          (or_else R (get "input_modalities" contract) (Value.list (cons (Value.text "text") nil)))
    features ← names_of (get "features" contract)
    defaults ← as_mapping (get "provider_defaults" contract)
    cache ← as_mapping (get "cache" contract)
    metadata ← as_mapping (get "metadata" contract)
    found (record {
      thinking = thinking;
      structured_output = structured;
      input_modalities = modalities;
      features = features;
    })

  abbrev missing_sorted : List String → List String → List String
  missing_sorted required available =
      sorted_texts (missing_of (unique (normalized required)) available)

  -- The test on the structured output, which comes last.
  unfoldable pub structured_support : Fields F → Fields F → Support
  structured_support requirements structured =
      let requested = word_of (get "structured_output" requirements) in
      let mode = word_of (get "mode" structured) in
      if requested == "native" && not (mode == "native" || mode == "native_json_schema")
      then (false, some ("structured_output_native_required:" ++ mode))
      else if requested == "post_validate" && mode == "none"
      then (false, some "structured_output_unavailable")
      else (true, none)

  -- A test on names, before the tests that are left.
  abbrev unless_missing : String → List String → Outcome Support → Outcome Support
  unless_missing label missing rest =
      if is_empty missing then rest else found (false, some (label ++ comma_joined missing))

  unfoldable pub supports_requirements : Fields F → Capability → Outcome Support
  unfolding names_of structured_support
  supports_requirements requirements c = do
    modalities ← names_of (get "input_modalities" requirements)
    unless_missing "unsupported_input_modalities:"
        (missing_sorted modalities (lowered_texts c.input_modalities))
        (do
          features ← names_of (get "required_features" requirements)
          unless_missing "unsupported_features:"
              (missing_sorted features (lowered_texts c.features))
              (do
                levels ← names_of (get "think_levels" requirements)
                accepted ← names_of (get "accepted_levels" c.thinking)
                unless_missing "unsupported_think_levels:"
                    (missing_sorted levels (normalized accepted))
                    (found (structured_support requirements c.structured_output))))

  -- An entry without a contract supports everything.
  abbrev of_contract : Fields F → Option (Fields F) → Outcome Support
  of_contract requirements none = found (true, none)
  of_contract requirements (some end) = found (true, none)
  of_contract requirements (some contract) = do
    c ← capability_of contract
    supports_requirements requirements c

  unfoldable pub entry_support : Fields F → RouteEntry F → Outcome Support
  unfolding capability_of supports_requirements
  entry_support requirements e = of_contract requirements e.capability_contract
