-- ===== src/Materials/Selector/Selection.antt =====
-- The selection of app/materials/cache_selector.py: the order of the candidates does not matter to
-- its sum, and it keeps the budget.
use model_relay.Prelude.{
  ℕ, ◌+◌, ◌≤◌, String, ◌≡◌, refl, ap, sym, ◌∙◌, inl, inr, Bool, true, false, ◌||◌, ◌&&◌, List, [],
  ◌∷◌, ◌==◌, eq_iff, arith, All, All-imp, All-contains, contains, Bool-cases, if◌then◌else◌,
}
use model_relay.Python.Value.{Fields}
use model_relay.Python.Runtime.{Runtime}
use model_relay.Materials.Selector.{
  key_before, key, unique, pick, insert, by_priority, keep, select_materials_for_cache,
}
use model_relay.Materials.Selector.Distinct.{
  eq_sym, Distinct, unique-Distinct, contains-unique, member_of,
}
use model_relay.Materials.Selector.Greedy.{
  total, weight, IsSettled, weight-pick, total-pick, pick-IsSettled,
}

module _ (R : Runtime) (rows : String → Fields R.F) (size : String → ℕ) where
  abbrev sorted : List String → List String
  sorted = by_priority R rows size

  -- Sorting moves a candidate and changes neither a sum nor a membership.
  weight-insert :
      (p : String → Bool) (x : String) (xs : List String)
      → weight size p (insert R rows size x xs) ≡ weight size p (x ∷ xs)
  unfolding insert weight
  weight-insert p x [] = refl
  weight-insert p x (y ∷ ys) =
      elim (Bool-cases (key_before (key R rows size x) (key R rows size y))) [
        | inl e ↦ rw e refl
        | inr e ↦ rw e (omega (arith, weight-insert p x ys))
      ]

  contains-insert :
      (x : String) (xs : List String) (y : String)
      → contains (insert R rows size x xs) y ≡ (x == y) || contains xs y
  unfolding insert
  contains-insert x [] y = refl
  contains-insert x (z ∷ zs) y =
      elim (Bool-cases (key_before (key R rows size x) (key R rows size z))) [
        | inl e ↦ rw e refl
        | inr e ↦ rw (e, contains-insert x zs y) (ground arith)
      ]

  insert-Distinct :
      (x : String) (xs : List String)
      → contains xs x ≡ false
      → Distinct xs
      → Distinct (insert R rows size x xs)
  unfolding insert
  insert-Distinct x [] n h = (refl, tt)
  insert-Distinct x (z ∷ zs) n (m, h) =
      elim (Bool-cases (key_before (key R rows size x) (key R rows size z))) [
        | inl e ↦ rw e (n, (m, h))
        | inr e ↦ rw e (
          rw (contains-insert x zs z, m, eq_sym x z) (ground arith),
          insert-Distinct x zs (ground arith) h,
        )
      ]

  contains-sorted : (xs : List String) (y : String) → contains (sorted xs) y ≡ contains xs y
  unfolding by_priority
  contains-sorted [] y = refl
  contains-sorted (x ∷ xs) y = rw (contains-insert x (sorted xs) y, contains-sorted xs y) refl

  sorted-Distinct : (xs : List String) → Distinct xs → Distinct (sorted xs)
  unfolding by_priority
  sorted-Distinct [] h = tt
  sorted-Distinct (x ∷ xs) (n, h) =
      insert-Distinct x (sorted xs) (rw (contains-sorted xs x) n) (sorted-Distinct xs h)

  weight-sorted :
      (p : String → Bool) (xs : List String) → weight size p (sorted xs) ≡ weight size p xs
  unfolding by_priority weight
  weight-sorted p [] = refl
  weight-sorted p (x ∷ xs) =
      weight-insert p x (sorted xs) ∙ ap ((if p x then size x else 0) +◌) (weight-sorted p xs)

  total-keep :
      (s xs : List String) → total size (keep R rows size s xs) ≡ weight size (contains s) xs
  unfolding keep weight
  total-keep s [] = refl
  total-keep s (x ∷ xs) = elim (Bool-cases (contains s x)) [
    | inl e ↦ rw (e, total-keep s xs) refl
    | inr e ↦ rw (e, total-keep s xs) (omega arith)
  ]

  contains-keep :
      (s xs : List String) (y : String)
      → contains (keep R rows size s xs) y ≡ contains s y && contains xs y
  unfolding keep
  contains-keep s [] y = ground arith
  contains-keep s (x ∷ xs) y = elim (Bool-cases (contains s x)) [
    | inl e ↦
        rw (e, contains-keep s xs y)
          (elim (Bool-cases (x == y)) [
            | inl f ↦ rw (f, ← (eq_iff x y).0 f, e) refl
            | inr f ↦ rw f refl
          ])
    | inr e ↦
        rw (e, contains-keep s xs y)
          (elim (Bool-cases (x == y)) [
            | inl f ↦ rw (f, ← (eq_iff x y).0 f, e) refl
            | inr f ↦ rw f refl
          ])
  ]

  module _ (ids : List String) (budget : ℕ) where
    abbrev picks : List String
    picks = pick size (sorted (unique ids)) budget

    abbrev selected : List String
    selected = select_materials_for_cache R rows size ids budget

    total-selected : total size selected ≡ total size picks
    unfolding select_materials_for_cache
    total-selected =
        total-keep picks (unique ids)
        ∙ sym (weight-sorted (contains picks) (unique ids))
        ∙ weight-pick size (sorted (unique ids)) budget
            (sorted-Distinct (unique ids) (unique-Distinct ids))

    contains-selected :
        (y : String) → contains ids y ≡ true → contains selected y ≡ contains picks y
    unfolding select_materials_for_cache
    contains-selected y h =
        rw (contains-keep picks (unique ids) y, contains-unique ids y, h) (ground arith)

    selected-IsSettled : (y : String) → contains ids y ≡ true → IsSettled size selected budget y
    selected-IsSettled y h =
        rw (total-selected, contains-selected y h)
          (member_of (IsSettled size picks budget) (sorted (unique ids)) y
            (pick-IsSettled size (sorted (unique ids)) budget)
            (rw (contains-sorted (unique ids) y, contains-unique ids y) h))

    -- The selected attachments together keep the budget, and each one that is asked for is selected
    -- or is larger than what the selection leaves of the budget.
    pub select_materials_for_cache-IsSettled :
        (total size selected ≤ budget) × All (IsSettled size selected budget) ids
    select_materials_for_cache-IsSettled = (
      rw total-selected (total-pick size (sorted (unique ids)) budget),
      All-imp ids selected-IsSettled (All-contains ids),
    )
