-- ===== src/Prelude/Unique.antt =====
-- Lists of numbers without repetition, and how long they are.
use Prim.Native.Nat.{ℕ, zero, suc, ◌+◌, ◌≤◌}
use mathlib.Core.Path.{◌≡◌, refl, subst}
use mathlib.Core.Logic.{◌↔◌, inl, inr}
use mathlib.Core.List.{List, [], ◌∷◌}
use mathlib.Core.Bool.{true}
use native.Mathlib.Omega.{arith}
use ham_spectrum_analysis.Prelude.Tests.{◌==◌, if◌then◌else◌}
use ham_spectrum_analysis.Prelude.Lists.{length, take, any, In}

abbrev pub Distinct : List ℕ → Type 0
Distinct [] = Unit
Distinct (x ∷ xs) = (¬ In x xs) × Distinct xs

-- One occurrence of a number taken out.
abbrev without : ℕ → List ℕ → List ℕ
without x [] = []
without x (y ∷ ys) = let rest = without x ys in if y == x then ys else y ∷ rest

length-without : (x : ℕ) (ys : List ℕ) → In x ys → length (without x ys) + 1 ≡ length ys
length-without x [] m = absurd m
length-without x (y ∷ ys) (inl e) = ground (arith, e)
length-without x (y ∷ ys) (inr m) = ground (arith, length-without x ys m)

In-without : (x z : ℕ) (ys : List ℕ) → In z ys → ¬ (z ≡ x) → In z (without x ys)
In-without x z [] m h = m
In-without x z (y ∷ ys) (inl e) h = ground (arith, e, h)
In-without x z (y ∷ ys) (inr m) h = ground (arith, m, h, In-without x z ys m h)

-- A list without repetition is no longer than a list that has all that it has.
pub length-le_of_In :
    (xs ys : List ℕ) → Distinct xs → ((x : ℕ) → In x xs → In x ys) → length xs ≤ length ys
length-le_of_In [] ys d h = omega arith
length-le_of_In (x ∷ xs) ys d h =
    let others : (z : ℕ) → In z xs → In z (without x ys) =
      λ z m. In-without x z ys (h z (inr m)) (λ e. d.0 (subst (λ w. In w xs) e m)) in
    omega
      (arith, length-without x ys (h x (inl refl)), length-le_of_In xs (without x ys) d.1 others)

pub In-take : (n x : ℕ) (xs : List ℕ) → In x (take n xs) → In x xs
In-take zero x xs m = absurd m
In-take (suc n) x [] m = m
In-take (suc n) x (y ∷ xs) (inl e) = inl e
In-take (suc n) x (y ∷ xs) (inr m) = inr (In-take n x xs m)

pub take-Distinct : (n : ℕ) (xs : List ℕ) → Distinct xs → Distinct (take n xs)
take-Distinct zero xs d = tt
take-Distinct (suc n) [] d = tt
take-Distinct (suc n) (x ∷ xs) d = (λ m. d.0 (In-take n x xs m), take-Distinct n xs d.1)

pub any-==_iff : (x : ℕ) (xs : List ℕ) → (any (λ e. e == x) xs ≡ true) ↔ In x xs
any-==_iff x [] = ground arith
any-==_iff x (y ∷ xs) = ground (arith, any-==_iff x xs)
