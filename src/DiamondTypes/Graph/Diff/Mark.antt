-- ===== src/DiamondTypes/Graph/Diff/Mark.antt =====
-- What the callback of `diff_slow` in tools/diamond-types/src/causalgraph/graph/tools.rs writes, and the
-- state between two marks.
use egwalker_paper.Base.{
  ℕ, ◌+◌, ◌≤◌, ◌≡◌, refl, sym, subst, fun_ext, ◌⊎◌, ◌↔◌, inl, inr, Bool, true, false, List, ◌∷◌,
  All, arith,
}
use mathlib.Core.Bool.{false≢true}
use egwalker_paper.Base.Panic.{done}
use egwalker_paper.OtBench.Graph.{DiffFlag, only_a, only_b, shared, flag_eq, Queue}
use egwalker_paper.OtBench.Graph.Ancestors.{AncOf}
use egwalker_paper.OtBench.Graph.Heap.{has, Below, AtMost, IsHeap, Holds}
use egwalker_paper.OtBench.Graph.Absorb.{pick}
use egwalker_paper.Rle.Spans.{flatten_reversed}
use egwalker_paper.Rle.AppendRle.{push_reversed_rle_lem}
use egwalker_paper.DiamondTypes.DtRange.Laws.{dt_span, IsRange}
use egwalker_paper.DiamondTypes.Graph.{GraphEntryInternal}
use egwalker_paper.DiamondTypes.Graph.Expand.{expand}
use egwalker_paper.DiamondTypes.Graph.Runs.{IsDag, dag-IsCausal}
use egwalker_paper.DiamondTypes.Graph.Diff.{DiffResult, inclusive, mark_result}
use egwalker_paper.DiamondTypes.Graph.Diff.Part.{IsPart, IsFlagged, marked, marked-IsPart}

-- One side's result in ascending order.
abbrev pub written_out : DiffResult → Bool → List ℕ
written_out r s = flatten_reversed dt_span (pick s r.0 r.1)

abbrev pub IsRanges : DiffResult → Type 0
IsRanges r = All IsRange r.0 × All IsRange r.1

pub flag_eq_lem : (f g : DiffFlag) → flag_eq f g ≡ true → f ≡ g
flag_eq_lem only_a only_a e = refl
flag_eq_lem only_b only_b e = refl
flag_eq_lem shared shared e = refl
flag_eq_lem only_a only_b e = absurd (false≢true e)
flag_eq_lem only_a shared e = absurd (false≢true e)
flag_eq_lem only_b only_a e = absurd (false≢true e)
flag_eq_lem only_b shared e = absurd (false≢true e)
flag_eq_lem shared only_a e = absurd (false≢true e)
flag_eq_lem shared only_b e = absurd (false≢true e)

pub has-shared : (s : Bool) → has s shared ≡ true
has-shared true = refl
has-shared false = refl

pub each_side : (p q : Bool → List ℕ) → p true ≡ q true → p false ≡ q false → (s : Bool) → p s ≡ q s
each_side p q h k true = h
each_side p q h k false = k

mark_result_lem :
    (start last : ℕ) (flag : DiffFlag) (r : DiffResult)
    → IsRanges r
    → (flag ≡ shared) ⊎ (start ≤ last)
    → (r' : DiffResult) × (mark_result start last flag r ≡ done r')
      × IsRanges r'
      × ((s : Bool) → marked s flag start (last + 1) (written_out r s) ≡ written_out r' s)
unfolding mark_result
mark_result_lem start last only_a (av, bv) h (inl e) = absurd (cc)
mark_result_lem start last only_a (av, bv) h (inr l) =
    let ((av', m), e, p) =
      push_reversed_rle_lem dt_span av (inclusive start last) h.0 (omega arith) in
    (
      (av', bv),
      rw e refl,
      (p.valid, h.1),
      each_side (λ s. marked s only_a start (last + 1) (written_out (av, bv) s))
          (written_out (av', bv)) (sym p.same_items) refl,
    )
mark_result_lem start last only_b (av, bv) h (inl e) = absurd (cc)
mark_result_lem start last only_b (av, bv) h (inr l) =
    let ((bv', m), e, p) =
      push_reversed_rle_lem dt_span bv (inclusive start last) h.1 (omega arith) in
    (
      (av, bv'),
      rw e refl,
      (h.0, p.valid),
      each_side (λ s. marked s only_b start (last + 1) (written_out (av, bv) s))
          (written_out (av, bv')) refl (sym p.same_items),
    )
mark_result_lem start last shared r h l = (
  r,
  refl,
  h,
  each_side (λ s. marked s shared start (last + 1) (written_out r s)) (written_out r) refl refl,
)

module _ (es : List GraphEntryInternal) (hi : ℕ) (dag : IsDag es hi) (a b : List ℕ) where
  -- Everything above `ord` is written, and `ord` and the queue stand for what is not.
  pub record IsAt (ord : ℕ) (flag : DiffFlag) (q : Queue) (r : DiffResult) : Type 0 where
    pub ranges : IsRanges r
    pub part : IsPart (expand es) (dag-IsCausal es hi dag) a b (ord + 1) (written_out r)
    pub at_most : AtMost ord q
    pub heap : IsHeap q
    pub strict : (flag ≡ shared) ⊎ Below ord q
    pub future :
        (s : Bool) (x : ℕ)
        → x ≤ ord
        → AncOf (expand es) (pick s a b) x ↔ Holds (expand es) s ((ord, flag) ∷ q) x

  -- A mark of what `IsAt` has from `start` on.
  pub mark_lem :
      (start ord : ℕ) (flag : DiffFlag) (r : DiffResult)
      → IsRanges r
      → IsPart (expand es) (dag-IsCausal es hi dag) a b (ord + 1) (written_out r)
      → (flag ≡ shared) ⊎ (start ≤ ord)
      → start ≤ ord + 1
      → IsFlagged (expand es) (dag-IsCausal es hi dag) a b start (ord + 1) (ord + 1) flag
      → (r' : DiffResult) × (mark_result start ord flag r ≡ done r')
        × IsRanges r'
        × IsPart (expand es) (dag-IsCausal es hi dag) a b start (written_out r')
  mark_lem start ord flag r h p l m f =
      let (r', e, v, w) = mark_result_lem start ord flag r h l in
      (
        r',
        e,
        v,
        subst (IsPart (expand es) (dag-IsCausal es hi dag) a b start) (fun_ext w) (
            marked-IsPart (expand es) (dag-IsCausal es hi dag) a b start (ord + 1) (ord + 1) flag
              (written_out r) p m (omega arith) f),
      )
