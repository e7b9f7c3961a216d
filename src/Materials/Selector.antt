-- ===== src/Materials/Selector.antt =====
-- app/materials/cache_selector.py: `_priority` and `select_materials_for_cache`.
-- A budget and the sizes are numbers of bytes; the caller passes a row and a size for every id.
pub mod Distinct
pub mod Greedy
pub mod Selection
use Prim.Native.Char.{Char, code}
use model_relay.Prelude.{
  ℕ, zero, suc, ◌+◌, ◌-◌, ◌*◌, ◌/◌, min, max, String, Bool, true, false, not, ◌||◌, ◌&&◌, Option,
  none, some, or_default, List, [], ◌∷◌, ◌==◌, contains, leb, ltb, if◌then◌else◌,
}
use model_relay.Python.Value.{Value, Fields, get, as_dict, as_positive}
use model_relay.Python.Text.{lower}
use model_relay.Python.Runtime.{Runtime, or_else, str}
use model_relay.Cache.Resolver.Admission.{starts_with}

-- `s.split(";")[0]`
unfoldable pub before_semicolon : String → String
before_semicolon String.[] = String.[]
before_semicolon (String.◌∷◌ c s) =
    let rest = before_semicolon s in
    if String.◌∷◌ c String.[] == ";" then String.[] else String.◌∷◌ c rest

-- `s < t`, by code points.
unfoldable pub text_before : String → String → Bool
text_before String.[] String.[] = false
text_before String.[] (String.◌∷◌ d t) = true
text_before (String.◌∷◌ c s) String.[] = false
text_before (String.◌∷◌ c s) (String.◌∷◌ d t) =
    let rest = text_before s t in ltb (code c) (code d) || (leb (code c) (code d) && rest)

abbrev docx : String
docx = "application/vnd.openxmlformats-officedocument.wordprocessingml.document"

-- The class of a type and the estimate of its tokens.
unfoldable pub tier_of : String → ℕ → ℕ × ℕ
tier_of mime size =
    if starts_with "text/" mime || (mime == "application/json" || mime == "application/xml")
    then (1, size / 4)
    else if mime == "application/pdf"
    then (if leb size 15728640 then (2, size / 128) else (3, size / 128))
    else if mime == docx
    then (3, size / 64)
    else if starts_with "video/" mime
    then (4, size / 4096)
    else (5, min 4096 (size / 256))

-- The sort key `(tier, -Fraction(estimate, max(size, 1)), size, mid)`.
pub record Key : Type 0 where
  pub tier : ℕ
  pub estimate : ℕ
  pub size : ℕ
  pub mid : String

-- The fractions are compared crosswise: the larger share of tokens comes first.
unfoldable pub key_before : Key → Key → Bool
key_before a b =
    let left = b.estimate * max a.size 1 in
    let right = a.estimate * max b.size 1 in
    ltb a.tier b.tier
    || (leb a.tier b.tier
        && (ltb left right
            || (leb left right
                && (ltb a.size b.size || (leb a.size b.size && text_before a.mid b.mid)))))

-- `list(dict.fromkeys(ids))`, and the members of `set(ids)`.
abbrev without : String → List String → List String
without x [] = []
without x (y ∷ ys) = if x == y then without x ys else y ∷ without x ys

unfoldable pub unique : List String → List String
unique [] = []
unique (x ∷ xs) = x ∷ without x (unique xs)

module _ (size : String → ℕ) where
  abbrev after_pick : String → ℕ → ℕ
  after_pick m budget = if leb (size m) budget then budget - size m else budget

  -- The loop over the candidates: whatever still fits is taken.
  unfoldable pub pick : List String → ℕ → List String
  pick [] budget = []
  pick (m ∷ ms) budget =
      let rest = pick ms (after_pick m budget) in if leb (size m) budget then m ∷ rest else rest

module _ (R : Runtime) where
  open R use {F}

  unfoldable pub priority : Fields F → ℕ → String → Key
  priority row size mid =
      let mime =
        lower (before_semicolon (str R (or_else R (get "content_type" row) (Value.text "")))) in
      let first = tier_of mime size in
      record {
        tier = first.0;
        estimate =
            or_default first.1
              (as_positive (get "estimated_tokens" (as_dict (get "metadata" row))));
        size = size;
        mid = mid;
      }

  module _ (rows : String → Fields F) (size : String → ℕ) where
    abbrev key : String → Key
    key mid = priority (rows mid) (size mid) mid

    -- `sorted(…, key=…)`, by insertion.
    unfoldable pub insert : String → List String → List String
    insert x [] = x ∷ []
    insert x (y ∷ ys) =
        let rest = insert x ys in if key_before (key x) (key y) then x ∷ y ∷ ys else y ∷ rest

    unfoldable pub by_priority : List String → List String
    by_priority [] = []
    by_priority (x ∷ xs) = insert x (by_priority xs)

    -- The members of `selected`, in the order of the ids.
    unfoldable pub keep : List String → List String → List String
    keep selected [] = []
    keep selected (x ∷ xs) =
        let rest = keep selected xs in if contains selected x then x ∷ rest else rest

    unfoldable pub select_materials_for_cache : List String → ℕ → List String
    unfolding pick unique by_priority insert keep
    select_materials_for_cache ordered_ids budget =
        keep (pick size (by_priority (unique ordered_ids)) budget) (unique ordered_ids)
