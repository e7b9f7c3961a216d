-- ===== src/Cache/Usage.antt =====
-- app/cache/usage.py: the cache counters of a provider's usage report.
pub mod Status
use model_relay.Prelude.{
  ℕ, zero, suc, ◌-◌, String, Bool, true, false, not, ◌==◌, ◌||◌, ◌&&◌, Option, none, some,
  or_default, is_some, if◌then◌else◌,
}
use model_relay.Prelude.Int.{ℤ, pos, negsuc}
use model_relay.Python.Value.{Value, Fields, field, end, get, get_or, as_dict, is_dict, as_count}
use model_relay.Python.Text.{lower}
use model_relay.Python.Runtime.{Runtime, int_value}
use model_relay.Cache.Contracts.{Mechanism, Mode}

-- The texts of `actual_cache_hit_status`.
pub data HitStatus : Type 0 where
  hit write_only unknown miss not_requested : HitStatus

pub record CacheUsageObservation (F : Type 0) : Type 0 where
  pub cache_read_tokens : Option ℤ
  pub cache_write_tokens : Option ℤ
  pub uncached_input_tokens : Option ℤ
  pub actual_cache_hit_status : HitStatus
  pub provider_evidence : Bool  -- `evidence_level` is "provider_usage", else "unknown"
  pub transparent_observation : Bool
  pub prompt_tokens_total : Option ℤ
  pub cache_read_ratio : Option F

-- The counters that a protocol's report holds.
pub record Counters (F : Type 0) : Type 0 where
  pub read : Option ℤ
  pub write : Option ℤ
  pub uncached : Option ℤ
  pub prompt_total : Option ℤ
  pub ratio : Option F
  pub is_evident : Bool

abbrev pub is_above_zero : Option ℤ → Bool
is_above_zero (some (pos (suc n))) = true
is_above_zero _ = false

abbrev pub is_exactly_zero : Option ℤ → Bool
is_exactly_zero (some (pos zero)) = true
is_exactly_zero _ = false

abbrev first_number : Option ℤ → Option ℤ → Option ℤ
first_number (some n) rest = some n
first_number none rest = rest

abbrev pos_of : Option ℕ → Option ℤ
pos_of none = none
pos_of (some n) = some (pos n)

-- `max(0, prompt_total - read)`
abbrev pub remaining : ℤ → ℕ → ℤ
remaining (pos p) r = pos (p - r)
remaining (negsuc p) r = pos 0

module _ (R : Runtime) where
  open R use {F, ratio}

  -- `_int_or_none`: a Boolean is no count.
  unfoldable pub int_or_none : Value F → Option ℤ
  int_or_none (Value.bool _) = none
  int_or_none v = int_value R v

  claude_counters : Fields F → Counters F
  claude_counters raw =
      let read = int_or_none (get "cache_read_input_tokens" raw) in
      let write = int_or_none (get "cache_creation_input_tokens" raw) in
      record {
        read = read;
        write = write;
        uncached = none;
        prompt_total = none;
        ratio = none;
        is_evident = is_some read || is_some write;
      }

  -- `raw.get("raw")` where that is a mapping.
  abbrev pub gemini_report : Fields F → Fields F
  gemini_report raw = if is_dict (get "raw" raw) then as_dict (get "raw" raw) else raw

  -- A count of cached tokens must be an integer, and not negative.
  abbrev pub gemini_read : Fields F → Option ℕ
  gemini_read raw =
      let g = gemini_report raw in
      as_count (get_or (get "cached_content_token_count" g) "cachedContentTokenCount" g)

  abbrev pub gemini_total : Fields F → Option ℤ
  gemini_total raw =
      let g = gemini_report raw in
      first_number (int_or_none (get_or (get "prompt_token_count" g) "promptTokenCount" g))
        (int_or_none (get "prompt_tokens" raw))

  -- The prompt count includes what was read from the cache.
  derived : Option ℤ → Option ℕ → Option ℤ × Option F
  derived (some total) (some read) = (some (remaining total read), share total read)
    where
      share : ℤ → ℕ → Option F
      share (pos (suc p)) r = some (ratio r (suc p))
      share _ r = none
  derived _ _ = (none, none)

  gemini_counters : Fields F → Counters F
  unfolding derived
  gemini_counters raw =
      let d = derived (gemini_total raw) (gemini_read raw) in
      record {
        read = pos_of (gemini_read raw);
        write = none;
        uncached = d.0;
        prompt_total = gemini_total raw;
        ratio = d.1;
        is_evident = is_some (gemini_read raw) || is_some (gemini_total raw);
      }

  -- The first of four places that holds a number.
  openai_counters : Fields F → Counters F
  openai_counters raw =
      let read =
        first_number (int_or_none (get "cached_tokens" (as_dict (get "input_tokens_details" raw))))
          (first_number
            (int_or_none (get "cached_tokens" (as_dict (get "prompt_tokens_details" raw))))
            (first_number (int_or_none (get "cached_tokens" raw))
              (int_or_none (get "prompt_cache_hit_tokens" raw)))) in
      let missed = int_or_none (get "prompt_cache_miss_tokens" raw) in
      record {
        read = read;
        write = none;
        uncached = missed;
        prompt_total = none;
        ratio = none;
        is_evident = is_some read || is_some missed;
      }

  abbrev no_counters : Counters F
  no_counters = record {
    read = none;
    write = none;
    uncached = none;
    prompt_total = none;
    ratio = none;
    is_evident = false;
  }

  unfoldable pub counters_of : String → Fields F → Counters F
  unfolding claude_counters gemini_counters openai_counters
  counters_of protocol raw =
      if protocol == "claude_messages"
      then claude_counters raw
      else if protocol == "gemini_native"
      then gemini_counters raw
      else if protocol == "responses"
          || (protocol == "chat_completions" || protocol == "moonshot_chat")
      then openai_counters raw
      else no_counters

-- The ladder of the status; `gemini` says that the protocol is Gemini's.
unfoldable pub status_of : Bool → Option ℤ → Option ℤ → Bool → Bool → HitStatus
status_of gemini read write has_mechanism is_off =
    if is_above_zero read
    then hit
    else if is_above_zero write
    then write_only
    else if gemini && not (is_some read)
    then unknown
    else if is_exactly_zero read && (has_mechanism || gemini)
    then miss
    else if not has_mechanism && (is_off && (not (is_some read) || is_exactly_zero read))
    then not_requested
    else unknown

abbrev pub mode_is_off : Mode → Bool
mode_is_off Mode.off = true
mode_is_off _ = false

module _ (R : Runtime) where
  open R use {F}

  observed : Bool → Counters F → Bool → Bool → CacheUsageObservation F
  observed gemini c has_mechanism is_off = record {
    cache_read_tokens = c.read;
    cache_write_tokens = c.write;
    uncached_input_tokens = c.uncached;
    actual_cache_hit_status = status_of gemini c.read c.write has_mechanism is_off;
    provider_evidence = c.is_evident;
    transparent_observation = not has_mechanism && is_above_zero c.read;
    prompt_tokens_total = c.prompt_total;
    cache_read_ratio = c.ratio;
  }

  unfoldable pub normalize_cache_usage :
      Option String → Fields F → Option Mechanism → Mode → CacheUsageObservation F
  unfolding observed counters_of status_of
  normalize_cache_usage protocol usage effective_mechanism requested_mode =
      let name = lower (or_default "" protocol) in
      observed (name == "gemini_native") (counters_of R name usage) (is_some effective_mechanism)
        (mode_is_off requested_mode)
