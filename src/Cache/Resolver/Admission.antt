-- ===== src/Cache/Resolver/Admission.antt =====
-- The admission of mechanisms in `CacheIntentResolver.resolve`, app/cache/intent_resolver.py.
pub mod Grants
use model_relay.Prelude.{
  String, Bool, true, false, not, ◌||◌, ◌&&◌, Option, none, some, or_default, List, [], ◌∷◌, ◌==◌,
  contains, map, if◌then◌else◌,
}
use model_relay.Python.Value.{
  Value, Items, nil, cons, Fields, end, field, get, has_key, as_dict, is_text,
}
use model_relay.Python.Text.{lower}
use model_relay.Python.Runtime.{Runtime, truthy, or_else, str}
use model_relay.Cache.Contracts.{
  Mechanism, stateful_resource, breakpoint, implicit_prefix, Mode, mode_is_auto, mechanism_name,
  same, Result, ok, raised, ◌>>=◌, value_error, provider_managed_trial_enabled,
}

-- The arguments of `resolve` that admission reads; `upgrade` is the context plan's `cache_upgrade`.
pub record Supply (F : Type 0) : Type 0 where
  pub mode : Mode
  pub provider : Option String
  pub model : Option String
  pub mechanism_explicit : Bool
  pub upgrade : Fields F
  pub contract : Fields F
  pub protocol_profile : Fields F

-- `s.startswith(prefix)`
unfoldable pub starts_with : String → String → Bool
starts_with String.[] s = true
starts_with (String.◌∷◌ c p) String.[] = false
starts_with (String.◌∷◌ c p) (String.◌∷◌ d s) =
    let rest = starts_with p s in String.◌∷◌ c String.[] == String.◌∷◌ d String.[] && rest

-- The characters of a text, each a text.
letters : String → List String
letters String.[] = []
letters (String.◌∷◌ c s) = String.◌∷◌ c String.[] ∷ letters s

abbrev mechanism_of : String → Option Mechanism
mechanism_of s =
    if s == "stateful_resource"
    then some stateful_resource
    else if s == "implicit_prefix"
    then some implicit_prefix
    else if s == "breakpoint"
    then some breakpoint
    else none

abbrev add_known : Option Mechanism → List Mechanism → List Mechanism
add_known none ms = ms
add_known (some m) ms = m ∷ ms

-- The texts that name a mechanism.
unfoldable pub known : List String → List Mechanism
known [] = []
known (s ∷ ss) = add_known (mechanism_of s) (known ss)

unfoldable pub candidates_of : List String → List Mechanism → List Mechanism
candidates_of supported [] = []
candidates_of supported (m ∷ ms) =
    let rest = candidates_of supported ms in
    if contains supported (mechanism_name m) then m ∷ rest else rest

abbrev pub is_verified_status : String → Bool
is_verified_status s = s == "verified" || (s == "published" || s == "legacy_verified")

-- `str(provider or "").lower() == "gemini"`
abbrev pub is_gemini : {F : Type 0} → Supply F → Bool
is_gemini s = lower (or_default "" s.provider) == "gemini"

abbrev pub profile_cache : {F : Type 0} → Supply F → Fields F
profile_cache s = as_dict (get "cache" s.protocol_profile)

-- A mechanism's entry in `mechanism_profiles`, of the contract or of the protocol's profile.
abbrev pub profile_of : {F : Type 0} → Fields F → Mechanism → Fields F
profile_of config m = as_dict (get (mechanism_name m) (as_dict (get "mechanism_profiles" config)))

-- The three branches that admit a mechanism.
pub data Grant : Type 0 where
  certified trial legacy : Grant

-- The two sets and the list that the loop fills.
pub record Admission : Type 0 where
  pub certified : List Mechanism
  pub trials : List Mechanism
  pub admitted : List Mechanism

module _ (R : Runtime) where
  open R use {F}

  texts : Items F → List String
  texts nil = []
  texts (cons v vs) = str R v ∷ texts vs

  keys : Fields F → List String
  keys end = []
  keys (field k v fs) = k ∷ keys fs

  -- `[str(x) for x in v]`; what cannot be iterated raises.
  unfoldable pub iterate : Value F → Result (List String)
  unfolding texts keys letters
  iterate (Value.list xs) = ok (texts xs)
  iterate (Value.dict d) = ok (keys d)
  iterate (Value.text s) = ok (letters s)
  iterate _ = raised value_error

  unfoldable pub declared_of : Fields F → Result (List Mechanism)
  unfolding iterate known
  declared_of contract = do
    names ← iterate (
        or_else R (get "supported_mechanisms" contract)
          (or_else R (get "mechanisms" contract) (Value.list nil)))
    ok (known names)

  -- A unified plan takes the profile's entry as it stands, an older one only where it is not empty.
  unfoldable pub supported_by_profile : Bool → Fields F → List Mechanism → Result (List String)
  unfolding iterate
  supported_by_profile unified cache declared =
      if (if unified
        then has_key "supported_mechanisms" cache
        else truthy R (get "supported_mechanisms" cache))
      then iterate (get "supported_mechanisms" cache)
      else ok (map mechanism_name declared)

  abbrev pub is_verified : Supply F → Bool
  is_verified s =
      is_verified_status
        (lower (str R (or_else R (get "verification_status" s.contract) (Value.text "unverified"))))

  -- The statuses of a mechanism: its own or its contract's, and that of its wire format.
  abbrev pub status : Supply F → Mechanism → String
  status s m = lower (
      str R (
        or_else R (get "verification_status" (profile_of s.contract m))
          (or_else R (get "verification_status" s.contract) (Value.text "unverified"))))

  abbrev pub wire_status : Supply F → Mechanism → String
  wire_status s m = lower (
      str R (
        or_else R (get "verification_status" (profile_of (profile_cache s) m))
          (Value.text "verified")))

  abbrev pub is_certified : Supply F → Mechanism → Bool
  is_certified s m = is_verified_status (status s m) && is_verified_status (wire_status s m)

  abbrev pub is_trial : Supply F → Mechanism → Bool
  is_trial s m =
      mode_is_auto s.mode
      && (same m implicit_prefix
          && (is_gemini s
              && (is_text "gemini_native" (get "protocol" s.protocol_profile)
                  && (provider_managed_trial_enabled (profile_of s.contract m)
                      && provider_managed_trial_enabled (profile_of (profile_cache s) m)))))

  -- `not upgrade`
  abbrev pub is_unset : Fields F → Bool
  is_unset end = true
  is_unset (field _ _ _) = false

  unfoldable pub legacy_gemini_attempt : Supply F → Bool
  unfolding starts_with
  legacy_gemini_attempt s =
      is_unset s.upgrade
      && (not s.mechanism_explicit
          && (is_gemini s && starts_with "gemini-" (lower (or_default "" s.model))))

  abbrev pub is_override : Supply F → Mechanism → Bool
  is_override s m = legacy_gemini_attempt s && (not (is_verified s) && same m stateful_resource)

  -- The branch that the loop takes for a mechanism.
  unfoldable pub grant_of : Supply F → Mechanism → Option Grant
  grant_of s m =
      if is_certified s m
      then some Grant.certified
      else if is_trial s m
      then some Grant.trial
      else if is_override s m
      then some Grant.legacy
      else none

  abbrev add_grant : Mechanism → Option Grant → Admission → Admission
  add_grant m none a = a
  add_grant m (some Grant.certified) a = record a {
    certified = m ∷ a.certified;
    admitted = m ∷ a.admitted;
  }
  add_grant m (some Grant.trial) a = record a { trials = m ∷ a.trials; admitted = m ∷ a.admitted }
  add_grant m (some Grant.legacy) a = record a { admitted = m ∷ a.admitted }

  unfoldable pub admit : Supply F → List Mechanism → Admission
  admit s [] = record { certified = []; trials = []; admitted = [] }
  admit s (m ∷ ms) = add_grant m (grant_of s m) (admit s ms)

  -- From the declarations to the admitted candidates.
  unfoldable pub admit_mechanisms : Bool → Supply F → Result Admission
  admit_mechanisms unified s = do
    declared ← declared_of s.contract
    supported ← supported_by_profile unified (profile_cache s) declared
    ok (admit s (candidates_of supported declared))
