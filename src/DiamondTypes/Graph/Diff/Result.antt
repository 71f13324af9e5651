-- ===== src/DiamondTypes/Graph/Diff/Result.antt =====
-- The results of `diff_rev` and `diff` in
-- tools/diamond-types/src/causalgraph/graph/tools.rs.
use egwalker_paper.Base.{
  ℕ, ◌+◌, ◌%◌, ◌^◌, ◌≤◌, ◌<◌, ◌≡◌, refl, sym, ◌∙◌, ◌⊎◌, ◌==◌, inl, inr, true, false, List, [], ◌∷◌,
  ◌++◌, append-nil, append_assoc, reverse, none, some, slice_eq, eq_of_slice_eq, All, arith,
  Bool-cases,
}
use mathlib.Core.List.{reverse_aux}
use egwalker_paper.Base.Panic.{done}
use egwalker_paper.OtBench.Graph.{DiffFlag, only_a, only_b}
use egwalker_paper.OtBench.Graph.Diff.{IsDiff}
use egwalker_paper.Rle.Spans.{flatten, flatten_reversed}
use egwalker_paper.DiamondTypes.DtRange.{DtRange}
use egwalker_paper.DiamondTypes.DtRange.Laws.{dt_span, IsRange}
use egwalker_paper.DiamondTypes.RleVec.{usize_max}
use egwalker_paper.DiamondTypes.Graph.{GraphEntryInternal, Graph}
use egwalker_paper.DiamondTypes.Graph.Expand.{expand}
use egwalker_paper.DiamondTypes.Graph.Runs.{IsDag}
use egwalker_paper.DiamondTypes.Graph.Diff.{DiffResult, diff_direct, one_side, diff_rev, diff}
use egwalker_paper.DiamondTypes.Graph.Diff.Rounds.{IsOutput}
use egwalker_paper.DiamondTypes.Graph.Tools.Direct.{coarse_cases}
use egwalker_paper.DiamondTypes.Graph.Diff.Slow.{diff_slow_lem, same-IsOutput}
use egwalker_paper.DiamondTypes.Graph.Diff.Direct.{direct-IsOutput}

wrapping_lem : (v hi : ℕ) → v < hi → hi ≤ usize_max → (v + 1) % 2 ^ 64 ≡ v + 1
wrapping_lem v hi l h = omega arith

module _ (es : List GraphEntryInternal) (hi : ℕ) (dag : IsDag es hi) (fits : hi ≤ usize_max) where
  abbrev Direct : List ℕ → List ℕ → Type 0
  Direct a b =
      (diff_direct es a b ≡ done none)
      ⊎ ((r : DtRange) × (f : DiffFlag) × (diff_direct es a b ≡ done (some (r, f)))
          × IsOutput es hi dag a b (one_side r f))

  Direct-two : (x y : ℕ) → x < hi → y < hi → (x == y) ≡ false → Direct (x ∷ []) (y ∷ [])
  unfolding diff_direct
  Direct-two x y hx hy ne = elim (coarse_cases es hi dag x y hx ne) [
    | inr (c, i, e, g, h, l, m) ↦ inr (
      record { start = y + 1; end = x + 1 },
      only_a,
      rw (c, wrapping_lem x hi hx fits, wrapping_lem y hi hy fits) refl,
      direct-IsOutput es hi dag x y hx hy i e g h l m true,
    )
    | inl c ↦ elim (coarse_cases es hi dag y x hy (ground (arith, ne))) [
      | inr (d, i, e, g, h, l, m) ↦ inr (
        record { start = x + 1; end = y + 1 },
        only_b,
        rw (c, d, wrapping_lem x hi hx fits, wrapping_lem y hi hy fits) refl,
        direct-IsOutput es hi dag y x hy hx i e g h l m false,
      )
      | inl d ↦ inl (rw (c, d) refl)
    ]
  ]

  pub diff_direct_lem :
      (a b : List ℕ) → All (λ v. v < hi) a → All (λ v. v < hi) b → slice_eq a b ≡ false → Direct a b
  diff_direct_lem [] b ha hb ne = inl (unfold diff_direct in refl)
  diff_direct_lem (x ∷ x' ∷ a) b ha hb ne = inl (unfold diff_direct in refl)
  diff_direct_lem (x ∷ []) [] ha hb ne = inl (unfold diff_direct in refl)
  diff_direct_lem (x ∷ []) (y ∷ y' ∷ b) ha hb ne = inl (unfold diff_direct in refl)
  diff_direct_lem (x ∷ []) (y ∷ []) ha hb ne = Direct-two x y ha.0 hb.0 (ground (arith, ne))

diff_rev_lem :
    (g : Graph) (hi : ℕ) (a b : List ℕ)
    → (dag : IsDag g.entries hi) → hi ≤ usize_max
    → All (λ v. v < hi) a
    → All (λ v. v < hi) b
    → (r : DiffResult) × (diff_rev g a b ≡ done r) × IsOutput g.entries hi dag a b r
unfolding diff_rev
diff_rev_lem g hi a b dag fits ha hb = elim (Bool-cases (slice_eq a b)) [
  | inl t ↦ (([], []), rw t refl, same-IsOutput g.entries hi dag a b ha hb (eq_of_slice_eq a b t))
  | inr t ↦ elim (diff_direct_lem g.entries hi dag fits a b ha hb t) [
    | inr (r, f, d, out) ↦ (one_side r f, rw (t, d) refl, out)
    | inl d ↦ let (r, e, out) = diff_slow_lem g.entries hi dag a b ha hb in (r, rw (t, d) e, out)
  ]
]

flatten-reverse_aux :
    (xs acc : List DtRange)
    → flatten dt_span (reverse_aux xs acc) ≡ flatten_reversed dt_span xs ++ flatten dt_span acc
flatten-reverse_aux [] acc = refl
flatten-reverse_aux (x ∷ xs) acc =
    flatten-reverse_aux xs (x ∷ acc)
    ∙ sym (append_assoc (flatten_reversed dt_span xs) (dt_span.items x) (flatten dt_span acc))

flatten-reverse : (xs : List DtRange) → flatten dt_span (reverse xs) ≡ flatten_reversed dt_span xs
flatten-reverse xs = flatten-reverse_aux xs [] ∙ append-nil (flatten_reversed dt_span xs)

All-reverse_aux :
    (xs acc : List DtRange) → All IsRange xs → All IsRange acc → All IsRange (reverse_aux xs acc)
All-reverse_aux [] acc h k = k
All-reverse_aux (x ∷ xs) acc h k = All-reverse_aux xs (x ∷ acc) h.1 (h.0, k)

-- In a well-formed graph whose versions are below the greatest `usize`, `diff` of two lists of known
-- versions returns a result, with no panic and within its fuel: non-empty ranges that contain the
-- versions in the history of the first list and not of the second, and those in the history of the
-- second and not of the first, each in ascending order.
pub diff-IsDiff :
    (g : Graph) (hi : ℕ) (a b : List ℕ)
    → IsDag g.entries hi
    → hi ≤ usize_max
    → All (λ v. v < hi) a
    → All (λ v. v < hi) b
    → (r : DiffResult) × (diff g a b ≡ done r)
      × All IsRange r.0
      × All IsRange r.1
      × IsDiff (expand g.entries) a b (flatten dt_span r.0, flatten dt_span r.1)
unfolding diff
diff-IsDiff g hi a b dag fits ha hb =
    let ((av, bv), e, (ranges, found)) = diff_rev_lem g hi a b dag fits ha hb in
    (
      (reverse av, reverse bv),
      rw e refl,
      All-reverse_aux av [] ranges.0 tt,
      All-reverse_aux bv [] ranges.1 tt,
      rw (flatten-reverse av, flatten-reverse bv) found,
    )
