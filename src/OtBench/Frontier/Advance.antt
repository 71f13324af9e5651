-- ===== src/OtBench/Frontier/Advance.antt =====
-- What `advance_by_known_run` of tools/ot-bench/src/frontier.rs does to a frontier.
use egwalker_paper.Base.{
  ℕ, ◌<◌, ◌≡◌, refl, false, not, ◌&&◌, ◌||◌, List, [], ◌∷◌, arith, ltb, ◌==◌, All, contains,
  slice_eq, eq_of_slice_eq, if◌then◌else◌,
}
use egwalker_paper.Base.Panic.{Outcome, done, panic}
use egwalker_paper.Base.Search.{Search, found, missing}
use egwalker_paper.OtBench.Frontier.{
  Frontier, binary_search, shift_search, insert_at, insert_nonoverlapping, retain_not_in,
  replace_with_1, advance_by_known_run,
}

-- Strictly increasing.
abbrev pub IsSorted : List ℕ → Type 0
IsSorted [] = Unit
IsSorted (x ∷ xs) = All (λ y. x < y) xs × IsSorted xs

-- A sorted list with one more item, by a linear scan.
placed : ℕ → List ℕ → List ℕ
placed idx [] = idx ∷ []
placed idx (x ∷ xs) = if ltb idx x then idx ∷ x ∷ xs else x ∷ placed idx xs

abbrev outcome_of : Search → List ℕ → ℕ → Outcome (List ℕ)
outcome_of s xs v = elim s [ found i ↦ panic | missing i ↦ done (insert_at xs i v) ]

outcome_of-shift :
    (s : Search) (x : ℕ) (xs r : List ℕ) (v : ℕ)
    → outcome_of s xs v ≡ done r
    → outcome_of (shift_search s) (x ∷ xs) v ≡ done (x ∷ r)
unfolding shift_search insert_at
outcome_of-shift (found i) x xs r v h = cc
outcome_of-shift (missing i) x xs r v h = ground arith

insert_placed :
    (xs : List ℕ) (idx : ℕ)
    → contains xs idx ≡ false
    → outcome_of (binary_search xs idx) xs idx ≡ done (placed idx xs)
unfolding binary_search placed insert_at
insert_placed [] idx h = refl
insert_placed (x ∷ xs) idx h =
    ground (
      arith,
      insert_placed xs idx,
      outcome_of-shift (binary_search xs idx) x xs (placed idx xs) idx,
    )

All-placed : (P : ℕ → Type 0) (idx : ℕ) (xs : List ℕ) → P idx → All P xs → All P (placed idx xs)
unfolding placed
All-placed P idx [] p h = (p, tt)
All-placed P idx (x ∷ xs) p h = ground (arith, All-placed P idx xs)

All-lt : (a b : ℕ) (xs : List ℕ) → a < b → All (λ y. b < y) xs → All (λ y. a < y) xs
All-lt a b [] h k = tt
All-lt a b (x ∷ xs) h k = (omega arith, All-lt a b xs h k.1)

placed-IsSorted :
    (idx : ℕ) (xs : List ℕ) → contains xs idx ≡ false → IsSorted xs → IsSorted (placed idx xs)
unfolding placed
placed-IsSorted idx [] h s = (tt, tt)
placed-IsSorted idx (x ∷ xs) h s =
    ground (arith, placed-IsSorted idx xs, All-placed (λ y. x < y) idx xs, All-lt idx x xs)

contains-placed :
    (idx : ℕ) (xs : List ℕ) (y : ℕ) → contains (placed idx xs) y ≡ ((idx == y) || contains xs y)
unfolding placed
contains-placed idx [] y = refl
contains-placed idx (x ∷ xs) y = ground (arith, contains-placed idx xs y)

pub All-retain :
    (P : ℕ → Type 0) (parents xs : List ℕ) → All P xs → All P (retain_not_in parents xs)
unfolding retain_not_in
All-retain P parents [] h = tt
All-retain P parents (x ∷ xs) h = ground (arith, All-retain P parents xs)

pub retain-IsSorted : (parents xs : List ℕ) → IsSorted xs → IsSorted (retain_not_in parents xs)
unfolding retain_not_in
retain-IsSorted parents [] h = tt
retain-IsSorted parents (x ∷ xs) h =
    ground (arith, retain-IsSorted parents xs, All-retain (λ y. x < y) parents xs)

pub contains-retain :
    (parents xs : List ℕ) (y : ℕ)
    → contains (retain_not_in parents xs) y ≡ (contains xs y && not (contains parents y))
unfolding retain_not_in
contains-retain parents [] y = refl
contains-retain parents (x ∷ xs) y = ground (arith, contains-retain parents xs y)

pub insert_nonoverlapping_lem :
    (v : ℕ) (xs : List ℕ)
    → contains xs v ≡ false
    → IsSorted xs
    → (r : Frontier) × (insert_nonoverlapping v xs ≡ done r)
      × IsSorted r
      × ((y : ℕ) → contains r y ≡ ((v == y) || contains xs y))
      × ((m : ℕ) → v < m → All (λ p. p < m) xs → All (λ p. p < m) r)
unfolding insert_nonoverlapping
insert_nonoverlapping_lem v xs fresh sorted = (
  placed v xs,
  insert_placed xs v fresh,
  placed-IsSorted v xs fresh sorted,
  contains-placed v xs,
  λ m l h. All-placed (λ p. p < m) v xs l h,
)

contains-retain_eq :
    (parents xs : List ℕ) (y : ℕ)
    → contains xs y ≡ false
    → contains (retain_not_in parents xs) y ≡ false
contains-retain_eq parents xs y h = rw (contains-retain, h)

-- The first branch of the code is a special case of the second.
advance_cases :
    (idx : ℕ) (parents : List ℕ) (f : Frontier)
    → advance_by_known_run idx parents f ≡ (
        if slice_eq f parents
        then done (idx ∷ [])
        else (if contains f idx
            then panic
            else insert_nonoverlapping idx (retain_not_in parents f)))
unfolding advance_by_known_run replace_with_1
advance_cases idx [] [] = refl
advance_cases idx (p ∷ []) (v ∷ []) = ground arith
advance_cases idx (p ∷ []) [] = refl
advance_cases idx (p ∷ []) (v ∷ w ∷ f) = ground arith
advance_cases idx [] (v ∷ f) = refl
advance_cases idx (p ∷ q ∷ ps) f = ground arith

advanced : ℕ → List ℕ → Frontier → Frontier
advanced idx parents f =
    if slice_eq f parents then idx ∷ [] else placed idx (retain_not_in parents f)

advance-advanced :
    (idx : ℕ) (parents : List ℕ) (f : Frontier)
    → contains f idx ≡ false
    → advance_by_known_run idx parents f ≡ done (advanced idx parents f)
unfolding advanced insert_nonoverlapping
advance-advanced idx parents f h = ground (
  arith,
  advance_cases idx parents f,
  insert_placed (retain_not_in parents f) idx (contains-retain_eq parents f idx h),
)

advanced-IsSorted :
    (idx : ℕ) (parents : List ℕ) (f : Frontier)
    → contains f idx ≡ false
    → IsSorted f
    → IsSorted (advanced idx parents f)
unfolding advanced
advanced-IsSorted idx parents f h s = ground (
  arith,
  placed-IsSorted idx (retain_not_in parents f) (contains-retain_eq parents f idx h)
      (retain-IsSorted parents f s),
)

contains-advanced :
    (idx : ℕ) (parents : List ℕ) (f : Frontier) (y : ℕ)
    → contains (advanced idx parents f) y
      ≡ ((idx == y) || (contains f y && not (contains parents y)))
unfolding advanced
contains-advanced idx parents f y = ground (
  arith,
  eq_of_slice_eq f parents,
  contains-placed idx (retain_not_in parents f) y,
  contains-retain parents f y,
)

-- On a sorted frontier that does not hold `idx`, `advance_by_known_run` does not panic. Its
-- result is sorted, and holds `idx` and those old versions that are not among `parents`, no other.
pub advance_lem :
    (idx : ℕ) (parents : List ℕ) (f : Frontier)
    → IsSorted f
    → contains f idx ≡ false
    → (r : Frontier) × (advance_by_known_run idx parents f ≡ done r)
      × IsSorted r
      × ((y : ℕ) → contains r y ≡ ((idx == y) || (contains f y && not (contains parents y))))
advance_lem idx parents f s h = (
  advanced idx parents f,
  advance-advanced idx parents f h,
  advanced-IsSorted idx parents f h s,
  contains-advanced idx parents f,
)
