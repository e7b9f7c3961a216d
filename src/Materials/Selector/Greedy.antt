-- ===== src/Materials/Selector/Greedy.antt =====
-- The loop of app/materials/cache_selector.py keeps its budget and leaves nothing that fits.
use model_relay.Prelude.{
  ℕ, ◌+◌, ◌-◌, ◌≤◌, ◌<◌, String, ◌≡◌, refl, sym, subst, ◌⊎◌, inl, inr, Bool, true, false, List, [],
  ◌∷◌, arith, All, All-imp, contains, leb, Bool-cases, if◌then◌else◌,
}
use text.Mathlib.TextPositions.{eq_refl}
use model_relay.Materials.Selector.{pick}
use model_relay.Materials.Selector.Distinct.{eq_sym, Distinct}

module _ (size : String → ℕ) where
  -- The bytes of a list, and those of its members that satisfy a test.
  abbrev pub total : List String → ℕ
  total [] = 0
  total (x ∷ xs) = size x + total xs

  unfoldable pub weight : (String → Bool) → List String → ℕ
  weight p [] = 0
  weight p (x ∷ xs) = (if p x then size x else 0) + weight p xs

  weight_congr :
      (p q : String → Bool) (xs : List String) → All (λ x. p x ≡ q x) xs → weight p xs ≡ weight q xs
  unfolding weight
  weight_congr p q [] h = refl
  weight_congr p q (x ∷ xs) (e, h) = rw (e, weight_congr p q xs h) refl

  -- A candidate that was not looked at is not picked.
  pick-absent :
      (ms : List String) (b : ℕ) (y : String)
      → contains ms y ≡ false
      → contains (pick size ms b) y ≡ false
  unfolding pick
  pick-absent [] b y h = refl
  pick-absent (m ∷ ms) b y h = elim (Bool-cases (leb (size m) b)) [
    | inl e ↦ rw e (ground (arith, pick-absent ms (b - size m) y))
    | inr e ↦ rw e (ground (arith, pick-absent ms b y))
  ]

  pub total-pick : (ms : List String) (b : ℕ) → total (pick size ms b) ≤ b
  unfolding pick
  total-pick [] b = omega arith
  total-pick (m ∷ ms) b = elim (Bool-cases (leb (size m) b)) [
    | inl e ↦ rw e (ground (arith, total-pick ms (b - size m)))
    | inr e ↦ rw e (total-pick ms b)
  ]

  -- A head that is not among the rest does not change the tests on the rest.
  beside :
      (m : String) (ps ms : List String)
      → contains ms m ≡ false
      → All (λ x. contains (m ∷ ps) x ≡ contains ps x) ms
  beside m ps [] h = tt
  beside m ps (x ∷ ms) h = (rw (eq_sym m x) (ground arith), beside m ps ms (ground arith))

  pick_taken :
      (m : String) (ms : List String) (b : ℕ)
      → leb (size m) b ≡ true
      → pick size (m ∷ ms) b ≡ m ∷ pick size ms (b - size m)
  unfolding pick
  pick_taken m ms b e = rw e refl

  pick_skipped :
      (m : String) (ms : List String) (b : ℕ)
      → leb (size m) b ≡ false
      → pick size (m ∷ ms) b ≡ pick size ms b
  unfolding pick
  pick_skipped m ms b e = rw e refl

  weight-cons :
      (p : String → Bool) (x : String) (xs : List String)
      → weight p (x ∷ xs) ≡ (if p x then size x else 0) + weight p xs
  unfolding weight
  weight-cons p x xs = refl

  weight-pick-nil : (b : ℕ) → weight (contains (pick size [] b)) [] ≡ total (pick size [] b)
  unfolding weight pick
  weight-pick-nil b = refl

  pub weight-pick :
      (ms : List String) (b : ℕ)
      → Distinct ms
      → weight (contains (pick size ms b)) ms ≡ total (pick size ms b)
  weight-pick [] b h = weight-pick-nil b
  weight-pick (m ∷ ms) b (n, h) = elim (Bool-cases (leb (size m) b)) [
    | inl e ↦
        let picked = pick size ms (b - size m) in
        rw
          (
            pick_taken m ms b e,
            weight-cons,
            eq_refl m,
            weight_congr (contains (m ∷ picked)) (contains picked) ms (beside m picked ms n),
            weight-pick ms (b - size m) h,
          )
          refl
    | inr e ↦
        rw (pick_skipped m ms b e, weight-cons, pick-absent ms b m n, weight-pick ms b h)
          (omega arith)
  ]

  -- Picked, or too large for what is left.
  abbrev pub IsSettled : List String → ℕ → String → Type 0
  IsSettled picked budget x = (contains picked x ≡ true) ⊎ (budget < total picked + size x)

  IsSettled-later :
      (m : String) (picked : List String) (b : ℕ) (x : String)
      → size m ≤ b
      → IsSettled picked (b - size m) x
      → IsSettled (m ∷ picked) b x
  IsSettled-later m picked b x l (inl c) = inl (ground arith)
  IsSettled-later m picked b x l (inr u) = inr (omega arith)

  pub pick-IsSettled : (ms : List String) (b : ℕ) → All (IsSettled (pick size ms b) b) ms
  pick-IsSettled [] b = tt
  pick-IsSettled (m ∷ ms) b = elim (Bool-cases (leb (size m) b)) [
    | inl e ↦
        subst (λ l. All (IsSettled l b) (m ∷ ms)) (sym (pick_taken m ms b e))
          (
            inl (rw (eq_refl m) refl),
            All-imp ms (λ x. IsSettled-later m (pick size ms (b - size m)) b x (ground arith))
                (pick-IsSettled ms (b - size m)),
          )
    | inr e ↦
        subst (λ l. All (IsSettled l b) (m ∷ ms)) (sym (pick_skipped m ms b e))
          (inr (ground arith), pick-IsSettled ms b)
  ]
