-- ===== src/Cache/Usage/Status.antt =====
-- What a status in app/cache/usage.py says of the counters.
use model_relay.Prelude.{
  ℕ, zero, suc, ◌+◌, ◌-◌, ◌≤◌, ◌≡◌, refl, String, Bool, true, false, ◌==◌, ◌||◌, Option, none, some,
  arith, or_default, is_some,
}
use model_relay.Prelude.Int.{ℤ, pos, negsuc}
use model_relay.Python.Value.{Fields}
use model_relay.Python.Text.{lower}
use model_relay.Python.Runtime.{Runtime}
use model_relay.Cache.Contracts.{Mechanism, Mode}
use model_relay.Cache.Usage.{
  HitStatus, hit, write_only, unknown, miss, not_requested, is_above_zero, is_exactly_zero,
  status_of, gemini_read, gemini_total, mode_is_off, normalize_cache_usage,
}

-- What each status rests on.
abbrev pub IsJustified : Bool → Option ℤ → Option ℤ → Bool → Bool → HitStatus → Type 0
IsJustified gemini read write has_mechanism is_off hit = (n : ℕ) × (read ≡ some (pos (suc n)))
IsJustified gemini read write has_mechanism is_off write_only =
    (n : ℕ) × (write ≡ some (pos (suc n))) × (is_above_zero read ≡ false)
IsJustified gemini read write has_mechanism is_off miss =
    (read ≡ some (pos 0)) × (is_above_zero write ≡ false) × (has_mechanism || gemini ≡ true)
IsJustified gemini read write has_mechanism is_off not_requested =
    (has_mechanism ≡ false) × (is_off ≡ true) × (is_above_zero read ≡ false)
IsJustified gemini read write has_mechanism is_off unknown =
    (is_above_zero read ≡ false) × (is_above_zero write ≡ false)

above_zero : (o : Option ℤ) → is_above_zero o ≡ true → (n : ℕ) × (o ≡ some (pos (suc n)))
above_zero none h = cc
above_zero (some (pos zero)) h = cc
above_zero (some (pos (suc n))) h = (n, refl)
above_zero (some (negsuc n)) h = cc

exactly_zero : (o : Option ℤ) → is_exactly_zero o ≡ true → o ≡ some (pos 0)
exactly_zero none h = cc
exactly_zero (some (pos zero)) h = refl
exactly_zero (some (pos (suc n))) h = cc
exactly_zero (some (negsuc n)) h = cc

status_of-IsJustified :
    (gemini : Bool) (read write : Option ℤ) (has_mechanism is_off : Bool) (s : HitStatus)
    → status_of gemini read write has_mechanism is_off ≡ s
    → IsJustified gemini read write has_mechanism is_off s
unfolding status_of
status_of-IsJustified g r w m o hit h = above_zero r (ground arith)
status_of-IsJustified g r w m o write_only h =
    let p = above_zero w (ground arith) in (p.0, p.1, ground arith)
status_of-IsJustified g r w m o miss h = (exactly_zero r (ground arith), ground arith, ground arith)
status_of-IsJustified g r w m o not_requested h = (ground arith, ground arith, ground arith)
status_of-IsJustified g r w m o unknown h = (ground arith, ground arith)

module _ (R : Runtime) where
  open R use {F}

  -- For every protocol the reported status is justified by the counters: a hit by a positive read
  -- count, a write-only status by a positive write count without a hit, a miss by a read count of
  -- zero with a mechanism or the Gemini protocol, not requested by a switched-off request without
  -- mechanism or hit, and unknown by the absence of a positive count.
  pub status-IsJustified :
      (protocol : Option String) (usage : Fields F) (mechanism : Option Mechanism) (mode : Mode)
      → let o = normalize_cache_usage R protocol usage mechanism mode in
        IsJustified
          (lower (or_default "" protocol) == "gemini_native")
          o.cache_read_tokens
          o.cache_write_tokens
          (is_some mechanism)
          (mode_is_off mode)
          o.actual_cache_hit_status
  unfolding normalize_cache_usage
  status-IsJustified protocol usage mechanism mode =
      status_of-IsJustified _ _ _ (is_some mechanism) (mode_is_off mode) _ refl

  -- A Gemini report without a usable count of cached tokens has the status unknown, and never that
  -- of a miss.
  pub gemini_unreported :
      (usage : Fields F) (mechanism : Option Mechanism) (mode : Mode)
      → gemini_read R usage ≡ none
      → (normalize_cache_usage R
          (some "gemini_native")
          usage
          mechanism
          mode).actual_cache_hit_status
        ≡ unknown
  unfolding normalize_cache_usage lower
  gemini_unreported usage mechanism mode h = rw h refl

  -- If a Gemini report has a prompt total and a cached count that is not above it, the uncached
  -- count and the cached count add up to the total.
  pub gemini_conserved :
      (usage : Fields F) (mechanism : Option Mechanism) (mode : Mode) (total read : ℕ)
      → gemini_total R usage ≡ some (pos total)
      → gemini_read R usage ≡ some read
      → read ≤ total
      → (u : ℕ) × ((normalize_cache_usage R
            (some "gemini_native")
            usage
            mechanism
            mode).uncached_input_tokens
          ≡ some (pos u))
        × (u + read ≡ total)
  unfolding normalize_cache_usage lower
  gemini_conserved usage mechanism mode total read t r h =
      (total - read, rw (t, r) refl, omega arith)
