-- ===== src/OtBench/TextOp/Iterate/Transform.antt =====
-- `transform1` of tools/ot-bench/src/ot_text.rs ends without a panic, and does to the edits what
-- `xf` does.
use egwalker_paper.Base.{ℕ, suc, ◌≡◌, ap, ◌∙◌, Bool, List, [], ◌++◌, arith, length, append-nil}
use egwalker_paper.Base.Panic.{done}
use egwalker_paper.OtBench.TextOp.{OpComponent, TextOp, trim}
use egwalker_paper.OtBench.TextOp.Strings.{StrIndices}
use egwalker_paper.OtBench.TextOp.Edits.{Edit, xf, xf_nil, apply_edits, Fits}
use egwalker_paper.OtBench.TextOp.Expand.{expand, apply-trim, trim-Fits}
use egwalker_paper.OtBench.TextOp.Iterate.{transform1, iter}
use egwalker_paper.OtBench.TextOp.Iterate.Chunks.{pending, IsSpaced, pending_zero, OffsetOk-zero}
use egwalker_paper.OtBench.TextOp.Iterate.Component.{transform_loop_lem}
use egwalker_paper.OtBench.TextOp.Iterate.Remainder.{append_remainder_lem}

module _ ⦃ix : StrIndices⦄ where
  full_edits :
      (l : Bool) (op other cs : List OpComponent) (offset : ℕ) (res r : TextOp)
      → expand r ≡ expand res ++ pending cs offset
      → expand res ++ xf l (pending cs offset) [] ≡ xf l (pending op 0) (expand other ++ [])
      → expand r ≡ xf l (expand op) (expand other)
  full_edits l op other cs offset res r x f =
      x ∙ (rw (xf_nil l (pending cs offset), append-nil (expand other), pending_zero op) at f)

  -- On an operation in normal form (IsSpaced), and any other one, `transform1` returns a result; sums of
  -- lengths are taken to fit `usize`. On every document the result does
  -- what the transformed edits do, and it fits where they fit.
  pub transform1_lem :
      (op other : TextOp) (l : Bool)
      → IsSpaced op
      → (r : TextOp) × (transform1 op other l ≡ done r)
        × ((doc : List ℕ)
            → apply_edits (expand r) doc ≡ apply_edits (xf l (expand op) (expand other)) doc)
        × ((doc : List ℕ) → Fits (xf l (expand op) (expand other)) doc → Fits (expand r) doc)
  transform1_lem op other l sp =
      let (cs, offset, res, e, o, sp', f) =
        transform_loop_lem l other op 0 [] (OffsetOk-zero op sp) sp in
      let (r, d, x) = append_remainder_lem (suc (length cs)) cs offset res (omega arith) o sp' in
      let whole : expand r ≡ xf l (expand op) (expand other) =
        full_edits l op other cs offset res r x (f []) in
      (
        trim r,
        unfold transform1 iter in rw (e, d),
        λ doc. apply-trim r doc ∙ ap (λ (es : List Edit). apply_edits es doc) whole,
        λ doc g. trim-Fits r doc (rw whole g),
      )
