-- ===== src/DiamondTypes/RleVec/Gaps.antt =====
-- Searches of `RleVec` in tools/diamond-types/src/rle/rle_vec.rs on entries with gaps.
use egwalker_paper.Base.{
  ℕ, zero, suc, ◌+◌, ◌-◌, ◌≤◌, ◌<◌, ◌≡◌, refl, ◌⊎◌, inl, inr, true, false, List, [], ◌∷◌, some, ltb,
  ltb→lt, ◌==◌, length, get_elem?, arith, Bool-cases, ap, sym,
}
use egwalker_paper.Base.Panic.{Outcome, done, checked_sub_lem}
use egwalker_paper.Base.Search.{found, missing}
use egwalker_paper.DiamondTypes.RleVec.{
  usize_max, entry_end, find_index, find_with_offset, find_packed_with_offset, contains_needle,
  Sparse, item, gap, next_key, find_sparse, visits, for_each_sparse,
}
use egwalker_paper.DiamondTypes.RleVec.Find.{IsKeyed, Covers, Splits, find_index_lem, index_lem}

module _ {ℓ} {Elem : Type ℓ} (rle_key : Elem → ℕ) (len : Elem → Outcome ℕ) (size : Elem → ℕ) where
  -- No entry has a version of the gap.
  abbrev pub IsClear : List Elem → ℕ → ℕ → Type ℓ
  IsClear [] a b = Unit {ℓ}
  IsClear (e ∷ es) a b = ((rle_key e + size e ≤ a) ⊎ (b ≤ rle_key e)) × IsClear es a b

  -- What a search is to tell of a needle: the entry that has it, or a gap around it, with the
  -- needle's place in either.
  abbrev pub IsSparse : List Elem → ℕ → Sparse rle_key len × ℕ → Type ℓ
  IsSparse es needle (item e, offset) =
      ((i : ℕ) × (get_elem? es i ≡ some e)) × (rle_key e + offset ≡ needle) × (offset < size e)
  IsSparse es needle (gap r, offset) =
      IsClear es r.start r.end × (r.start + offset ≡ needle) × (needle < r.end)

  IsClear-behind :
      (lo : ℕ) (es : List Elem) (a b : ℕ) → IsKeyed rle_key len size lo es → b ≤ lo → IsClear es a b
  IsClear-behind lo [] a b h l = tt
  IsClear-behind lo (e ∷ es) a b h l = (
    inr (omega (arith, h.2)),
    IsClear-behind (rle_key e + size e) es a b h.3 (omega (arith, h.2)),
  )

  -- The end of the entry before an index, or what stands before them all.
  abbrev prev_end : ℕ → List Elem → ℕ → ℕ
  prev_end a es zero = a
  prev_end a [] (suc i) = a
  prev_end a (e ∷ es) (suc i) = prev_end (rle_key e + size e) es i

  prev_end-ge :
      (a lo : ℕ) (es : List Elem) (i : ℕ)
      → IsKeyed rle_key len size lo es
      → a ≤ lo
      → a ≤ prev_end a es i
  prev_end-ge a lo [] zero h l = omega arith
  prev_end-ge a lo [] (suc i) h l = omega arith
  prev_end-ge a lo (e ∷ es) zero h l = omega arith
  prev_end-ge a lo (e ∷ es) (suc i) h l =
      omega
        (arith, h.2, prev_end-ge (rle_key e + size e) (rle_key e + size e) es i h.3 (omega arith))

  -- The gap in front of the entry at an index, from the end of the entry before it.
  gap_at :
      (a lo : ℕ) (es : List Elem) (i needle : ℕ)
      → IsKeyed rle_key len size lo es
      → Splits rle_key len size es i needle
      → a ≤ lo
      → a ≤ needle
      → needle < usize_max
      → IsClear es (prev_end a es i) (next_key rle_key len es i)
        × (needle < next_key rle_key len es i)
        × (prev_end a es i ≤ needle)
  gap_at a lo [] zero needle h s l m k = (tt, k, m)
  gap_at a lo [] (suc i) needle h s l m k = absurd (omega (arith, s))
  gap_at a lo (e ∷ es) zero needle h s l m k = (
    (inr (omega arith), IsClear-behind (rle_key e + size e) es a (rle_key e) h.3 (omega arith)),
    s,
    m,
  )
  gap_at a lo (e ∷ es) (suc i) needle h s l m k =
      let end = rle_key e + size e in
      let (clear, below, le) = gap_at end end es i needle h.3 s.1 (omega arith) s.0 k in
      ((inl (prev_end-ge end end es i h.3 (omega arith)), clear), below, le)

  prev_lem :
      (a lo : ℕ) (es : List Elem) (i needle : ℕ)
      → IsKeyed rle_key len size lo es
      → Splits rle_key len size es (suc i) needle
      → (e : Elem) × (get_elem? es i ≡ some e)
        × (len e ≡ done (size e))
        × (prev_end a es (suc i) ≡ rle_key e + size e)
  prev_lem a lo [] i needle h s = absurd (omega (arith, s))
  prev_lem a lo (e ∷ es) zero needle h s = (e, refl, h.0, refl)
  prev_lem a lo (e ∷ es) (suc i) needle h s =
      prev_lem (rle_key e + size e) (rle_key e + size e) es i needle h.3 s.1

  found_lem :
      (es : List Elem) (needle i : ℕ) (e : Elem)
      → find_index rle_key len es needle ≡ done (found i)
      → get_elem? es i ≡ some e
      → Covers rle_key len size e needle
      → find_sparse rle_key len es needle ≡ done (item e, needle - rle_key e)
  unfolding find_sparse
  found_lem es needle i e f g c =
      rw
        (
          f,
          index_lem es i e g,
          checked_sub_lem needle (rle_key e) (needle - rle_key e) (omega (arith, c.0)),
        )
        refl

  missed_lem :
      (lo : ℕ) (es : List Elem) (needle i : ℕ)
      → IsKeyed rle_key len size lo es
      → needle < usize_max
      → find_index rle_key len es needle ≡ done (missing i)
      → Splits rle_key len size es i needle
      → (r : Sparse rle_key len × ℕ) × (find_sparse rle_key len es needle ≡ done r)
        × IsSparse es needle r
  unfolding find_sparse
  missed_lem lo es needle zero h m f s =
      let (clear, below, _) = gap_at 0 lo es 0 needle h s (omega arith) (omega arith) m in
      (
        (gap (record { start = 0; end = next_key rle_key len es 0 }), needle),
        rw f refl,
        (clear, omega arith, below),
      )
  missed_lem lo es needle (suc i) h m f s =
      let (prev, there, l, same) = prev_lem 0 lo es i needle h s in
      let (clear, below, le) = gap_at 0 lo es (suc i) needle h s (omega arith) (omega arith) m in
      let end : entry_end rle_key len prev ≡ done (prev_end 0 es (suc i)) =
        unfold entry_end in rw (l, same) refl in
      let nonzero : (suc i == 0) ≡ false = ground arith in
      (
        (
          gap (record { start = prev_end 0 es (suc i); end = next_key rle_key len es (suc i) }),
          needle - prev_end 0 es (suc i),
        ),
        rw
            (
              f,
              nonzero,
              checked_sub_lem (suc i) 1 i (omega arith),
              index_lem es i prev there,
              end,
              checked_sub_lem needle (prev_end 0 es (suc i)) (needle - prev_end 0 es (suc i))
                  (omega arith),
            )
            refl,
        (clear, omega arith, below),
      )

  -- `find_sparse` on ordered entries, of a needle below `usize::MAX`, does not panic: it gives the
  -- entry that has the needle, or a range that has the needle and nothing of any entry, in either
  -- case with the needle's offset.
  pub find_sparse_lem :
      (lo : ℕ) (es : List Elem) (needle : ℕ)
      → IsKeyed rle_key len size lo es
      → needle < usize_max
      → (r : Sparse rle_key len × ℕ) × (find_sparse rle_key len es needle ≡ done r)
        × IsSparse es needle r
  find_sparse_lem lo es needle h m = elim (find_index_lem rle_key len size lo es needle h) [
    | inl (i, e, f, g, c) ↦ (
      (item e, needle - rle_key e),
      found_lem es needle i e f g c,
      ((i, g), omega (arith, c.0), omega (arith, c.0, c.1)),
    )
    | inr (i, f, s) ↦ missed_lem lo es needle i h m f s
  ]

  -- `contains_needle` on ordered entries tells whether an entry has the needle.
  pub contains_needle_lem :
      (lo : ℕ) (es : List Elem) (needle : ℕ)
      → IsKeyed rle_key len size lo es
      → ((i : ℕ) × (e : Elem) × (contains_needle rle_key len es needle ≡ done true)
          × (get_elem? es i ≡ some e)
          × Covers rle_key len size e needle)
        ⊎ ((i : ℕ) × (contains_needle rle_key len es needle ≡ done false)
            × Splits rle_key len size es i needle)
  unfolding contains_needle
  contains_needle_lem lo [] needle h = inr (0, refl, refl)
  contains_needle_lem lo (d ∷ es) needle h =
      elim (find_index_lem rle_key len size lo (d ∷ es) needle h) [
        | inl (i, e, f, g, c) ↦
            let some_entry : (length (d ∷ es) == 0) ≡ false = ground arith in
            inl (i, e, rw (some_entry, f) refl, g, c)
        | inr (i, f, s) ↦
            let some_entry : (length (d ∷ es) == 0) ≡ false = ground arith in
            inr (i, rw (some_entry, f) refl, s)
      ]

  -- `find_packed_with_offset` of an entry's version gives the entry and the offset in it.
  pub find_packed_with_offset_lem :
      (es : List Elem) (needle i : ℕ) (e : Elem)
      → find_index rle_key len es needle ≡ done (found i)
      → get_elem? es i ≡ some e
      → Covers rle_key len size e needle
      → find_packed_with_offset rle_key len es needle ≡ done (e, needle - rle_key e)
  unfolding find_packed_with_offset find_with_offset
  find_packed_with_offset_lem es needle i e f g c =
      rw
        (
          f,
          index_lem es i e g,
          checked_sub_lem needle (rle_key e) (needle - rle_key e) (omega (arith, c.0)),
        )
        refl

  -- Entries in order that end at `hi` or before it.
  abbrev pub IsWithin : ℕ → List Elem → ℕ → Type 0
  IsWithin lo [] hi = lo ≤ hi
  IsWithin lo (e ∷ es) hi =
      (len e ≡ done (size e))
      × (0 < size e)
      × (lo ≤ rle_key e)
      × IsWithin (rle_key e + size e) es hi

  -- What is visited follows on without a gap from `lo` to `hi`.
  abbrev pub IsTiling : ℕ → List (Sparse rle_key len) → ℕ → Type 0
  IsTiling lo [] hi = lo ≡ hi
  IsTiling lo (item e ∷ vs) hi = (rle_key e ≡ lo) × IsTiling (lo + size e) vs hi
  IsTiling lo (gap r ∷ vs) hi = (r.start ≡ lo) × (lo < r.end) × IsTiling r.end vs hi

  abbrev pub visited : List (Sparse rle_key len) → List Elem
  visited [] = []
  visited (item e ∷ vs) = e ∷ visited vs
  visited (gap r ∷ vs) = visited vs

  visits_lem :
      (key : ℕ) (es : List Elem) (end : ℕ)
      → IsWithin key es end
      → (vs : List (Sparse rle_key len)) × (visits rle_key len key es end ≡ done vs)
        × IsTiling key vs end
        × (visited vs ≡ es)
  unfolding visits
  visits_lem key [] end h = elim (Bool-cases (ltb key end)) [
    | inl more ↦ (
      gap (record { start = key; end = end }) ∷ [],
      rw more refl,
      (refl, ltb→lt key end more, refl),
      refl,
    )
    | inr none_left ↦ ([], rw none_left refl, ground (arith, none_left), refl)
  ]
  visits_lem key (e ∷ es) end h =
      let next : entry_end rle_key len e ≡ done (rle_key e + size e) =
        unfold entry_end in rw (h.0) refl in
      let (vs, v, tiles, all) = visits_lem (rle_key e + size e) es end h.3 in
      elim (Bool-cases (ltb key (rle_key e))) [
        | inl before ↦ (
          gap (record { start = key; end = rle_key e }) ∷ item e ∷ vs,
          rw (next, v, before) refl,
          (refl, ltb→lt key (rle_key e) before, (refl, tiles)),
          ap (λ xs. e ∷ xs) all,
        )
        | inr at ↦
            let same : rle_key e ≡ key = ground (arith, at, h.2) in
            (item e ∷ vs, rw (next, v, at) refl, (same, rw (sym same) tiles), ap (λ xs. e ∷ xs) all)
      ]

  -- `for_each_sparse` over ordered entries that end by `end` does not panic. It shows its visitor
  -- every entry in order, and between them gaps that are not empty, with nothing left out from 0 to
  -- `end`.
  pub for_each_sparse_lem :
      (es : List Elem) (end : ℕ)
      → IsWithin 0 es end
      → (vs : List (Sparse rle_key len)) × (for_each_sparse rle_key len es end ≡ done vs)
        × IsTiling 0 vs end
        × (visited vs ≡ es)
  unfolding for_each_sparse
  for_each_sparse_lem es end h = visits_lem 0 es end h
