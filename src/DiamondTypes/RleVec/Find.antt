-- ===== src/DiamondTypes/RleVec/Find.antt =====
-- What the searches of `RleVec` in tools/diamond-types/src/rle/rle_vec.rs find.
use egwalker_paper.Base.{
  ℕ, zero, suc, ◌+◌, ◌≤◌, ◌<◌, ◌≡◌, refl, ap, ◌⊎◌, inl, inr, List, [], ◌∷◌, some, ltb, leb, ltb→lt,
  get_elem?, arith, Bool-cases,
}
use egwalker_paper.Base.Panic.{Outcome, done}
use egwalker_paper.Base.Search.{found, missing}
use egwalker_paper.DiamondTypes.RleVec.{index, find_from, find_index, find, find_packed}

pub index_lem {ℓ} :
    {Elem : Type ℓ} (es : List Elem) (i : ℕ) (e : Elem)
    → get_elem? es i ≡ some e
    → index es i ≡ done e
unfolding index
index_lem es i e h = rw (h, index) refl

module _ {ℓ} {Elem : Type ℓ} (rle_key : Elem → ℕ) (len : Elem → Outcome ℕ) (size : Elem → ℕ) where
  -- Entries in order of their keys, from `lo` on, none empty and none over another.
  abbrev pub IsKeyed : ℕ → List Elem → Type 0
  IsKeyed lo [] = Unit
  IsKeyed lo (e ∷ es) =
      (len e ≡ done (size e)) × (0 < size e) × (lo ≤ rle_key e) × IsKeyed (rle_key e + size e) es

  -- As much, and with no gaps up to `hi`.
  abbrev pub IsPacked : ℕ → List Elem → ℕ → Type 0
  IsPacked lo [] hi = lo ≡ hi
  IsPacked lo (e ∷ es) hi =
      (len e ≡ done (size e)) × (0 < size e) × (rle_key e ≡ lo) × IsPacked (lo + size e) es hi

  abbrev pub Covers : Elem → ℕ → Type 0
  Covers e x = (rle_key e ≤ x) × (x < rle_key e + size e)

  -- The entries before the index end at the needle or before it, those from it on begin behind it.
  abbrev pub Splits : List Elem → ℕ → ℕ → Type 0
  Splits [] i needle = i ≡ 0
  Splits (e ∷ es) zero needle = needle < rle_key e
  Splits (e ∷ es) (suc i) needle = (rle_key e + size e ≤ needle) × Splits es i needle

  find_from_lem :
      (base lo : ℕ) (es : List Elem) (needle : ℕ)
      → IsKeyed lo es
      → ((i : ℕ) × (e : Elem) × (find_from rle_key len base es needle ≡ done (found (base + i)))
          × (get_elem? es i ≡ some e)
          × Covers e needle)
        ⊎ ((i : ℕ) × (find_from rle_key len base es needle ≡ done (missing (base + i)))
            × Splits es i needle)
  unfolding find_from
  find_from_lem base lo [] needle h = inr (0, ground arith, refl)
  find_from_lem base lo (e ∷ es) needle h = elim (Bool-cases (ltb needle (rle_key e))) [
    | inl before ↦
        inr (
          0,
          rw before (ap (λ i. done (missing i)) (omega arith)),
          ltb→lt needle (rle_key e) before,
        )
    | inr after ↦ elim (Bool-cases (leb (rle_key e + size e) needle)) [
      | inr inside ↦ inl (
        0,
        e,
        rw (after, h.0, inside) (ap (λ i. done (found i)) (omega arith)),
        refl,
        (ground (arith, after), ground (arith, inside)),
      )
      | inl past ↦ elim (find_from_lem (suc base) (rle_key e + size e) es needle h.3) [
        | inl (i, f, found_it, there, covers) ↦ inl (
          suc i,
          f,
          rw (after, h.0, past, found_it) (ap (λ i. done (found i)) (omega arith)),
          there,
          covers,
        )
        | inr (i, missed, splits) ↦ inr (
          suc i,
          rw (after, h.0, past, missed) (ap (λ i. done (missing i)) (omega arith)),
          (ground (arith, past), splits),
        )
      ]
    ]
  ]

  -- `find_index` on ordered entries does not panic: it finds the entry that has the needle, or the
  -- place between the entries that end before it and those that begin behind it.
  pub find_index_lem :
      (lo : ℕ) (es : List Elem) (needle : ℕ)
      → IsKeyed lo es
      → ((i : ℕ) × (e : Elem) × (find_index rle_key len es needle ≡ done (found i))
          × (get_elem? es i ≡ some e)
          × Covers e needle)
        ⊎ ((i : ℕ) × (find_index rle_key len es needle ≡ done (missing i)) × Splits es i needle)
  unfolding find_index
  find_index_lem lo es needle h = elim (find_from_lem 0 lo es needle h) [
    | inl (i, e, f, g, c) ↦ inl (i, e, rw f (ap (λ i. done (found i)) (omega arith)), g, c)
    | inr (i, f, g) ↦ inr (i, rw f (ap (λ i. done (missing i)) (omega arith)), g)
  ]

  IsPacked-IsKeyed : (lo hi : ℕ) (es : List Elem) → IsPacked lo es hi → IsKeyed lo es
  IsPacked-IsKeyed lo hi [] h = tt
  IsPacked-IsKeyed lo hi (e ∷ es) h =
      let end : rle_key e + size e ≡ lo + size e = omega (arith, h.2) in
      (h.0, h.1, omega (arith, h.2), rw end (IsPacked-IsKeyed (lo + size e) hi es h.3))

  -- In packed entries there is no gap for a needle below the end.
  not-Splits :
      (lo hi i : ℕ) (es : List Elem) (needle : ℕ)
      → IsPacked lo es hi
      → lo ≤ needle
      → needle < hi
      → ¬ Splits es i needle
  not-Splits lo hi i [] needle h l m k = omega (arith, h)
  not-Splits lo hi zero (e ∷ es) needle h l m k = omega (arith, h.2)
  not-Splits lo hi (suc i) (e ∷ es) needle h l m k =
      not-Splits (lo + size e) hi i es needle h.3 (omega (arith, h.2, k.0)) m k.1

  -- In packed entries, `find_index`, `find` and `find_packed` of a needle below the end find its
  -- entry.
  pub find_packed_lem :
      (lo hi : ℕ) (es : List Elem) (needle : ℕ)
      → IsPacked lo es hi
      → lo ≤ needle
      → needle < hi
      → (i : ℕ) × (e : Elem) × (find_index rle_key len es needle ≡ done (found i))
        × (find rle_key len es needle ≡ done (some e))
        × (find_packed rle_key len es needle ≡ done e)
        × (get_elem? es i ≡ some e)
        × Covers e needle
  find_packed_lem lo hi es needle h l m =
      elim (find_index_lem lo es needle (IsPacked-IsKeyed lo hi es h)) [
        | inr (i, f, g) ↦ absurd (not-Splits lo hi i es needle h l m g)
        | inl (i, e, f, g, c) ↦
            let at : index es i ≡ done e = index_lem es i e g in
            let some_e : find rle_key len es needle ≡ done (some e) =
              unfold find in rw (f, at) refl in
            (i, e, f, some_e, unfold find_packed in rw some_e refl, g, c)
      ]
