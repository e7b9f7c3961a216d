-- ===== src/Materials/Selector/Distinct.antt =====
-- The ids of app/materials/cache_selector.py without their repetitions.
use model_relay.Prelude.{
  String, ◌≡◌, refl, subst, inl, inr, true, false, not, ◌&&◌, List, [], ◌∷◌, ◌==◌, eq_iff, arith,
  All, contains, Bool-cases,
}
use text.Mathlib.TextPositions.{eq_refl}
use model_relay.Materials.Selector.{without, unique}

pub eq_sym : (x y : String) → (x == y) ≡ (y == x)
eq_sym x y = elim (Bool-cases (x == y)) [
  | inl e ↦ rw ((eq_iff x y).0 e) refl
  | inr e ↦ elim (Bool-cases (y == x)) [
    | inl f ↦ rw ((eq_iff y x).0 f) refl
    | inr f ↦ rw (e, f) refl
  ]
]

-- No text stands twice.
abbrev pub Distinct : List String → Type 0
Distinct [] = Unit
Distinct (x ∷ xs) = (contains xs x ≡ false) × Distinct xs

module _ (x y : String) where
  contains-without : (xs : List String) → contains (without x xs) y ≡ not (x == y) && contains xs y
  contains-without [] = ground arith
  contains-without (z ∷ xs) = elim (Bool-cases (x == z)) [
    | inl e ↦ rw (e, contains-without xs) (rw (← (eq_iff x z).0 e) (ground arith))
    | inr e ↦ rw e (elim (Bool-cases (z == y)) [
      | inl f ↦ rw (f, ← (eq_iff z y).0 f, e) refl
      | inr f ↦ rw (f, contains-without xs) refl
    ])
  ]

without-Distinct : (x : String) (xs : List String) → Distinct xs → Distinct (without x xs)
without-Distinct x [] h = tt
without-Distinct x (y ∷ ys) (n, h) = elim (Bool-cases (x == y)) [
  | inl e ↦ rw e (without-Distinct x ys h)
  | inr e ↦ rw e (rw (contains-without x y ys, n) (ground arith), without-Distinct x ys h)
]

pub unique-Distinct : (xs : List String) → Distinct (unique xs)
unfolding unique
unique-Distinct [] = tt
unique-Distinct (x ∷ xs) = (
  rw (contains-without x x (unique xs), eq_refl x) refl,
  without-Distinct x (unique xs) (unique-Distinct xs),
)

pub contains-unique : (xs : List String) (y : String) → contains (unique xs) y ≡ contains xs y
unfolding unique
contains-unique [] y = refl
contains-unique (x ∷ xs) y =
    rw (contains-without x y (unique xs), contains-unique xs y) (ground arith)

pub member_of :
    (P : String → Type 0) (xs : List String) (y : String) → All P xs → contains xs y ≡ true → P y
member_of P [] y h c = cc
member_of P (x ∷ xs) y (p, h) c = elim (Bool-cases (x == y)) [
  | inl e ↦ subst P ((eq_iff x y).0 e) p
  | inr e ↦ member_of P xs y h (rw e at c)
]
