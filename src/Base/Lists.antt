-- ===== src/Base/Lists.antt =====
-- Lists measured and indexed by native numbers, under the library's names.
use Prim.Native.Nat.{ℕ, zero, suc, ◌+◌, ◌-◌, ◌≤◌, ◌<◌, min}
use mathlib.Core.Path.{◌≡◌, refl, ap, ◌∙◌}
use mathlib.Core.List.{List, [], ◌∷◌, ◌++◌}
use mathlib.Core.Bool.{Bool, true, false, ◌||◌, ◌&&◌}
use mathlib.Core.Option.{Option, none, some}
use native.Mathlib.Omega.{arith}
use native.Mathlib.Nat.{zero-add, suc-add, sub-zero}
use mathlib.Core.Logic.{◌⊎◌, inl, inr}
use egwalker_paper.Base.Tests.{◌==◌, ==_iff, Bool-cases}

module _ {ℓ} {A : Type ℓ} where
  abbrev pub length : List A → ℕ
  length [] = 0
  length (x ∷ xs) = suc (length xs)

  abbrev pub get_elem? : List A → ℕ → Option A
  get_elem? [] i = none
  get_elem? (x ∷ xs) zero = some x
  get_elem? (x ∷ xs) (suc i) = get_elem? xs i

  -- A write out of bounds changes nothing.
  abbrev pub set : List A → ℕ → A → List A
  set [] i v = []
  set (x ∷ xs) zero v = v ∷ xs
  set (x ∷ xs) (suc i) v = x ∷ set xs i v

  abbrev pub get_or : List A → ℕ → A → A
  get_or [] i d = d
  get_or (x ∷ xs) zero d = x
  get_or (x ∷ xs) (suc i) d = get_or xs i d

  abbrev pub take : ℕ → List A → List A
  take zero xs = []
  take (suc n) [] = []
  take (suc n) (x ∷ xs) = x ∷ take n xs

  abbrev pub drop : ℕ → List A → List A
  drop zero xs = xs
  drop (suc n) [] = []
  drop (suc n) (x ∷ xs) = drop n xs

  abbrev pub replicate : ℕ → A → List A
  replicate zero a = []
  replicate (suc n) a = a ∷ replicate n a

  pub length-append : (xs ys : List A) → length (xs ++ ys) ≡ length xs + length ys
  length-append [] ys = omega arith
  length-append (x ∷ xs) ys = omega (arith, length-append xs ys)

  pub length-take : (n : ℕ) (xs : List A) → length (take n xs) ≡ min n (length xs)
  length-take zero xs = omega arith
  length-take (suc n) [] = omega arith
  length-take (suc n) (x ∷ xs) = omega (arith, length-take n xs)

  pub length-drop : (n : ℕ) (xs : List A) → length (drop n xs) ≡ length xs - n
  length-drop zero xs = omega arith
  length-drop (suc n) [] = omega arith
  length-drop (suc n) (x ∷ xs) = omega (arith, length-drop n xs)

  pub take-append-drop : (n : ℕ) (xs : List A) → take n xs ++ drop n xs ≡ xs
  take-append-drop zero xs = refl
  take-append-drop (suc n) [] = refl
  take-append-drop (suc n) (x ∷ xs) = rw (take-append-drop n xs)

  pub take_all : (n : ℕ) (xs : List A) → length xs ≤ n → take n xs ≡ xs
  take_all zero [] h = refl
  take_all zero (x ∷ xs) h = absurd (omega arith)
  take_all (suc n) [] h = refl
  take_all (suc n) (x ∷ xs) h = ap (λ (l : List A). x ∷ l) (take_all n xs (omega arith))

  pub replicate-add : (m n : ℕ) (a : A) → replicate (m + n) a ≡ replicate m a ++ replicate n a
  replicate-add zero n a = rw zero-add
  replicate-add (suc m) n a = rw (suc-add, replicate-add m n a)

  -- `n` copies are `m` copies and the rest.
  pub replicate_split :
      (m n : ℕ) (a : A) → m ≤ n → replicate n a ≡ replicate m a ++ replicate (n - m) a
  replicate_split zero n a h = rw sub-zero
  replicate_split (suc m) zero a h = absurd (omega arith)
  replicate_split (suc m) (suc n) a h =
      let e : suc n - suc m ≡ n - m = omega arith in rw (e, replicate_split m n a (omega arith))

  abbrev pub All {κ} : (A → Type κ) → List A → Type κ
  All P [] = Unit {κ}
  All P (x ∷ xs) = P x × All P xs

  pub All-map {κ μ} :
      {P : A → Type κ} {Q : A → Type μ} (xs : List A) → ((x : A) → P x → Q x) → All P xs → All Q xs
  All-map [] f h = tt
  All-map (x ∷ xs) f h = (f x h.0, All-map xs f h.1)

-- `slice.contains(&x)`, and `==` of two slices of numbers.
abbrev pub contains : List ℕ → ℕ → Bool
contains [] y = false
contains (x ∷ xs) y = (x == y) || contains xs y

abbrev pub slice_eq : List ℕ → List ℕ → Bool
slice_eq [] [] = true
slice_eq [] (y ∷ ys) = false
slice_eq (x ∷ xs) [] = false
slice_eq (x ∷ xs) (y ∷ ys) = (x == y) && slice_eq xs ys

pub eq_of_slice_eq : (xs ys : List ℕ) → slice_eq xs ys ≡ true → xs ≡ ys
eq_of_slice_eq [] [] h = refl
eq_of_slice_eq [] (y ∷ ys) h = ground arith
eq_of_slice_eq (x ∷ xs) [] h = ground arith
eq_of_slice_eq (x ∷ xs) (y ∷ ys) h = ground (arith, eq_of_slice_eq xs ys)

pub contains_self : (x : ℕ) (xs : List ℕ) → contains (x ∷ xs) x ≡ true
contains_self x xs = rw ((==_iff x x).1 refl) refl

pub All-below_weaken : (m n : ℕ) (xs : List ℕ) → m ≤ n → All (λ p. p < m) xs → All (λ p. p < n) xs
All-below_weaken m n [] l h = tt
All-below_weaken m n (x ∷ xs) l h = (omega (arith, h.0), All-below_weaken m n xs l h.1)

pub elem_bound {ℓ} :
    {A : Type ℓ} (xs : List A) (i : ℕ) (a : A) → get_elem? xs i ≡ some a → i < length xs
elem_bound [] i a h = absurd (ground arith)
elem_bound (x ∷ xs) zero a h = omega arith
elem_bound (x ∷ xs) (suc i) a h = omega (arith, elem_bound xs i a h)

pub get_elem?-append_left {ℓ} :
    {A : Type ℓ} (xs ys : List A) (i : ℕ) → i < length xs → get_elem? (xs ++ ys) i ≡ get_elem? xs i
get_elem?-append_left [] ys i h = absurd (omega arith)
get_elem?-append_left (x ∷ xs) ys zero h = refl
get_elem?-append_left (x ∷ xs) ys (suc i) h = get_elem?-append_left xs ys i (omega arith)

pub get_elem?-append_right {ℓ} :
    {A : Type ℓ} (xs ys : List A) (i : ℕ)
    → length xs ≤ i
    → get_elem? (xs ++ ys) i ≡ get_elem? ys (i - length xs)
get_elem?-append_right [] ys i h = ap (get_elem? ys) (omega arith)
get_elem?-append_right (x ∷ xs) ys zero h = absurd (omega arith)
get_elem?-append_right (x ∷ xs) ys (suc i) h =
    get_elem?-append_right xs ys i (omega arith) ∙ ap (get_elem? ys) (omega arith)

pub contains-append :
    (xs ys : List ℕ) (y : ℕ)
    → contains (xs ++ ys) y ≡ true
    → (contains xs y ≡ true) ⊎ (contains ys y ≡ true)
contains-append [] ys y h = inr h
contains-append (x ∷ xs) ys y h = elim (Bool-cases (x == y)) [
  | inl e ↦ inl (ground (arith, e))
  | inr e ↦ elim (contains-append xs ys y (rw e at h)) [
    | inl a ↦ inl (ground (arith, a))
    | inr a ↦ inr a
  ]
]

pub All-append : (P : ℕ → Type 0) (xs ys : List ℕ) → All P xs → All P ys → All P (xs ++ ys)
All-append P [] ys h k = k
All-append P (x ∷ xs) ys h k = (h.0, All-append P xs ys h.1 k)

pub append-contains :
    (xs ys : List ℕ) (y : ℕ)
    → (contains xs y ≡ true) ⊎ (contains ys y ≡ true)
    → contains (xs ++ ys) y ≡ true
append-contains [] ys y (inl h) = absurd (ground (arith, h))
append-contains [] ys y (inr h) = h
append-contains (x ∷ xs) ys y h = elim (Bool-cases (x == y)) [
  | inl e ↦ ground (arith, e)
  | inr e ↦
      let rest : (contains xs y ≡ true) ⊎ (contains ys y ≡ true) = elim h [
        | inl a ↦ inl (rw e at a)
        | inr a ↦ inr a
      ] in
      ground (arith, append-contains xs ys y rest)
]
