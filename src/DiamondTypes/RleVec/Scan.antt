-- ===== src/DiamondTypes/RleVec/Scan.antt =====
-- The linear scans of `RleVec` in tools/diamond-types/src/rle/rle_vec.rs: the search from a known
-- place, the check for gaps, and the end of the entries.
use egwalker_paper.Base.{
  ℕ, suc, ◌+◌, ◌≡◌, refl, ap, ◌∙◌, ◌⊎◌, inl, inr, Bool, true, false, List, [], ◌∷◌, some, ltb, leb,
  ◌==◌, ==_iff, if◌then◌else◌, get_elem?, arith, Bool-cases,
}
use egwalker_paper.Base.Panic.{Outcome, done, panic}
use egwalker_paper.DiamondTypes.RleVec.{
  usize_max, entry_end, vec_end, next_key, Scanned, hit, miss, scan_from, check_packed_from,
  check_packed_from_0,
}
use egwalker_paper.DiamondTypes.RleVec.Find.{IsKeyed, IsPacked, Covers, Splits}

module _ {ℓ} {Elem : Type ℓ} (rle_key : Elem → ℕ) (len : Elem → Outcome ℕ) (size : Elem → ℕ) where
  scan_past :
      (base needle : ℕ) (e : Elem) (es : List Elem) (o : Scanned rle_key len × ℕ)
      → len e ≡ done (size e)
      → ltb needle (rle_key e + size e) ≡ false
      → scan_from rle_key len (suc base) es needle ≡ done o
      → scan_from rle_key len base (e ∷ es) needle ≡ done o
  unfolding scan_from entry_end
  scan_past base needle e es o h past r = rw (h, past) r

  scan_at :
      (base needle : ℕ) (e : Elem) (es : List Elem) (b : Bool)
      → len e ≡ done (size e)
      → ltb needle (rle_key e + size e) ≡ true
      → leb (rle_key e) needle ≡ b
      → scan_from rle_key len base (e ∷ es) needle
        ≡ (if b then done (hit e, base) else done (miss (rle_key e), base))
  unfolding scan_from entry_end
  scan_at base needle e es b h before k = rw (h, before, k) refl

  -- On ordered entries `search_scanning_sparse` does not panic: it finds the entry that has the
  -- needle, or the place between the entries, and the key of the entry behind it.
  pub scan_from_lem :
      (base lo : ℕ) (es : List Elem) (needle : ℕ)
      → IsKeyed rle_key len size lo es
      → ((i : ℕ) × (e : Elem) × (scan_from rle_key len base es needle ≡ done (hit e, base + i))
          × (get_elem? es i ≡ some e)
          × Covers rle_key len size e needle)
        ⊎ ((i : ℕ) × (scan_from rle_key len base es needle
              ≡ done (miss (next_key rle_key len es i), base + i))
            × Splits rle_key len size es i needle)
  scan_from_lem base lo [] needle h =
      inr (0, unfold scan_from in ap (λ i. done (miss usize_max, i)) (omega arith), refl)
  scan_from_lem base lo (e ∷ es) needle h = elim (Bool-cases (ltb needle (rle_key e + size e))) [
    | inl before ↦ elim (Bool-cases (leb (rle_key e) needle)) [
      | inl inside ↦ inl (
        0,
        e,
        scan_at base needle e es true h.0 before inside ∙ ap (λ i. done (hit e, i)) (omega arith),
        refl,
        (ground (arith, inside), ground (arith, before)),
      )
      | inr outside ↦ inr (
        0,
        scan_at base needle e es false h.0 before outside
            ∙ ap (λ i. done (miss (rle_key e), i)) (omega arith),
        ground (arith, outside),
      )
    ]
    | inr past ↦ elim (scan_from_lem (suc base) (rle_key e + size e) es needle h.3) [
      | inl (i, d, r, g, c) ↦ inl (
        suc i,
        d,
        scan_past base needle e es (hit d, suc base + i) h.0 past r
            ∙ ap (λ j. done (hit d, j)) (omega arith),
        g,
        c,
      )
      | inr (i, r, s) ↦ inr (
        suc i,
        scan_past base needle e es (miss (next_key rle_key len es i), suc base + i) h.0 past r
            ∙ ap (λ j. done (miss (next_key rle_key len es i), j)) (omega arith),
        (ground (arith, past), s),
      )
    ]
  ]

  -- `end` of packed entries is where the last one ends.
  pub vec_end_lem :
      (lo hi : ℕ) (es : List Elem)
      → IsPacked rle_key len size lo es hi
      → (vec_end rle_key len es ≡ done hi)
        ⊎ ((es ≡ []) × (lo ≡ hi) × (vec_end rle_key len es ≡ done 0))
  unfolding vec_end entry_end
  vec_end_lem lo hi [] h = inr (refl, h, refl)
  vec_end_lem lo hi (e ∷ []) h =
      let z : rle_key e + size e ≡ hi = omega (arith, h.2, h.3) in inl (rw (h.0, z) refl)
  vec_end_lem lo hi (e ∷ f ∷ es) h = elim (vec_end_lem (lo + size e) hi (f ∷ es) h.3) [
    | inl r ↦ inl r
    | inr (r, _, _) ↦ absurd (ground arith)
  ]

  check_from_lem :
      (lo : ℕ) (es : List Elem)
      → IsKeyed rle_key len size lo es
      → ((check_packed_from rle_key len lo es ≡ done tt)
          × (hi : ℕ) × IsPacked rle_key len size lo es hi)
        ⊎ ((check_packed_from rle_key len lo es ≡ panic)
            × ((hi : ℕ) → ¬ IsPacked rle_key len size lo es hi))
  unfolding check_packed_from entry_end
  check_from_lem lo [] h = inl (refl, lo, refl)
  check_from_lem lo (e ∷ es) h = elim (Bool-cases (rle_key e == lo)) [
    | inr gap ↦
        inr (rw gap refl, λ hi p. absurd (ground (arith, gap, (==_iff (rle_key e) lo).1 p.2)))
    | inl same ↦
        let z = (==_iff (rle_key e) lo).0 same in
        let end : rle_key e + size e ≡ lo + size e = omega (arith, z) in
        elim (check_from_lem (rle_key e + size e) es h.3) [
          | inl (r, hi, p) ↦ inl (rw (same, h.0) r, hi, (h.0, h.1, z, rw end at p))
          | inr (r, n) ↦ inr (rw (same, h.0) r, λ hi p. n hi (rw end p.3))
        ]
  ]

  -- On ordered entries `check_packed_from_0` passes just if they are packed from 0 on, and else
  -- panics.
  pub check_packed_lem :
      (es : List Elem)
      → IsKeyed rle_key len size 0 es
      → ((check_packed_from_0 rle_key len es ≡ done tt)
          × (hi : ℕ) × IsPacked rle_key len size 0 es hi)
        ⊎ ((check_packed_from_0 rle_key len es ≡ panic)
            × ((hi : ℕ) → ¬ IsPacked rle_key len size 0 es hi))
  unfolding check_packed_from_0
  check_packed_lem es h = check_from_lem 0 es h
