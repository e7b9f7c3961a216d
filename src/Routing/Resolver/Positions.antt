-- ===== src/Routing/Resolver/Positions.antt =====
-- Positions in the list of candidates of app/routing/route_resolver.py, and what blocks a route.
use model_relay.Prelude.{
  ℕ, suc, ◌≤◌, ◌<◌, ◌≡◌, refl, ap, ◌⊎◌, inl, inr, Bool, true, false, ◌&&◌, List, [], ◌∷◌, ◌++◌, All,
  length, arith, Bool-cases, ltb,
}
use mathlib.Core.List.{append_assoc}
use model_relay.Routing.Catalog.{RouteEntry}
use model_relay.Routing.Resolver.{Rejected, index_of, is_strict, blocking}

module _ {A : Type 0} where
  pub snoc-append : (xs : List A) (x : A) (ys : List A) → (xs ++ (x ∷ [])) ++ ys ≡ xs ++ (x ∷ ys)
  snoc-append xs x ys = append_assoc xs (x ∷ []) ys

  pub All-snoc : (P : A → Type 0) (xs : List A) (x : A) → All P xs → P x → All P (xs ++ (x ∷ []))
  All-snoc P [] x h p = (p, tt)
  All-snoc P (y ∷ ys) x (q, h) p = (q, All-snoc P ys x h p)

  pub length-snoc : (xs : List A) (x : A) → length (xs ++ (x ∷ [])) ≡ suc (length xs)
  length-snoc [] x = refl
  length-snoc (y ∷ ys) x = ap suc (length-snoc ys x)

  pub length-cons-append : (xs : List A) (x : A) (ys : List A) → length xs < length (xs ++ (x ∷ ys))
  length-cons-append [] x ys = omega arith
  length-cons-append (z ∷ zs) x ys = omega (arith, length-cons-append zs x ys)

  pub everywhere : (P : A → Type 0) → ((x : A) → P x) → (xs : List A) → All P xs
  everywhere P f [] = tt
  everywhere P f (x ∷ xs) = (f x, everywhere P f xs)

module _ {F : Type 0} where
  module _ (equal : RouteEntry F → RouteEntry F → Bool) where
    pub index_of-le :
        (equal_refl : (e : RouteEntry F) → equal e e ≡ true)
        → (before : List (RouteEntry F)) (e : RouteEntry F) (es : List (RouteEntry F))
        → index_of equal (before ++ (e ∷ es)) e ≤ length before
    unfolding index_of
    index_of-le equal_refl [] e es = rw (equal_refl e) (omega arith)
    index_of-le equal_refl (y ∷ ys) e es = elim (Bool-cases (equal y e)) [
      | inl h ↦ rw h (omega arith)
      | inr h ↦ rw h (omega (arith, index_of-le equal_refl ys e es))
    ]

    -- An entry that equals none of the first ones stands after them.
    pub index_of-later :
        (before : List (RouteEntry F)) (x : RouteEntry F) (es : List (RouteEntry F))
        → All (λ y. equal y x ≡ false) before
        → length before ≤ index_of equal (before ++ es) x
    unfolding index_of
    index_of-later [] x es h = omega arith
    index_of-later (y ∷ ys) x es (p, h) = rw p (omega (arith, index_of-later ys x es h))

    -- Where no rejection is both strict and before the limit, nothing blocks.
    pub blocking-none :
        (cs : List (RouteEntry F)) (limit : ℕ) (rs : List (Rejected F))
        → All (λ r. (is_strict r.entry ≡ false) ⊎ (limit ≤ index_of equal cs r.entry)) rs
        → blocking equal cs limit rs ≡ []
    unfolding blocking
    blocking-none cs limit [] h = refl
    blocking-none cs limit (r ∷ rs) (inl p, h) = rw p (blocking-none cs limit rs h)
    blocking-none cs limit (r ∷ rs) (inr p, h) =
        let q : (is_strict r.entry && ltb (index_of equal cs r.entry) limit) ≡ false =
          ground (arith, p) in
        rw q (blocking-none cs limit rs h)

    -- Rejections that are not strict do not block.
    pub blocking-append :
        (cs : List (RouteEntry F)) (limit : ℕ) (seen rs : List (Rejected F))
        → All (λ r. is_strict r.entry ≡ false) seen
        → blocking equal cs limit (seen ++ rs) ≡ blocking equal cs limit rs
    unfolding blocking
    blocking-append cs limit [] rs h = refl
    blocking-append cs limit (r ∷ seen) rs (p, h) = rw p (blocking-append cs limit seen rs h)
