-- ===== src/OtBench/TextOp/Iterate/Remainder.antt =====
-- `append_remainder` of tools/ot-bench/src/ot_text.rs.
use egwalker_paper.Base.{
  ℕ, zero, suc, ◌-◌, ◌<◌, ◌≡◌, refl, sym, ◌∙◌, Bool, true, false, List, [], ◌∷◌, ◌++◌, arith,
  length, append_assoc, append-nil,
}
use egwalker_paper.Base.Panic.{done}
use egwalker_paper.OtBench.TextOp.{OpComponent, skip, del, ins, TextOp, append_move}
use egwalker_paper.OtBench.TextOp.Strings.{StrIndices}
use egwalker_paper.OtBench.TextOp.Expand.{expand, expand_component, expand-append_move}
use egwalker_paper.OtBench.TextOp.Iterate.{
  TextOpIterator, next, append_remainder, is_end, usize_max,
}
use egwalker_paper.OtBench.TextOp.Iterate.Chunks.{
  span, at_pre, OffsetOk, pending, IsSpaced, pending_zero, OffsetOk-zero, next_end, next_ins,
  next_whole,
}

module _ ⦃ix : StrIndices⦄ where
  is_end-span :
      (k : Bool) (n offset : ℕ) → n < usize_max → is_end usize_max (span k (n - offset)) ≡ false
  unfolding is_end
  is_end-span true n offset h = ground arith
  is_end-span false n offset h = refl

  remainder_round :
      (fuel : ℕ) (it it' : TextOpIterator) (chunk : OpComponent) (res : TextOp)
      → next usize_max it ≡ done (chunk, it')
      → is_end usize_max chunk ≡ false
      → append_remainder (suc fuel) it res ≡ append_remainder fuel it' (append_move chunk res)
  unfolding append_remainder
  remainder_round fuel it it' chunk res e h = ground (arith, e, h)

  -- `append_remainder` writes what is left, and stops at the endless skip behind it.
  abbrev pub Remainder : ℕ → List OpComponent → ℕ → TextOp → Type 0
  Remainder fuel cs offset res =
      (r : TextOp) × (append_remainder fuel (at_pre cs offset) res ≡ done r)
      × (expand r ≡ expand res ++ pending cs offset)

  Remainder-step :
      (fuel : ℕ) (c : OpComponent) (cs : List OpComponent) (offset : ℕ) (chunk : OpComponent)
      (res : TextOp)
      → next usize_max (at_pre (c ∷ cs) offset) ≡ done (chunk, at_pre cs 0)
      → is_end usize_max chunk ≡ false
      → pending (c ∷ cs) offset ≡ expand_component chunk ++ expand cs
      → Remainder fuel cs 0 (append_move chunk res)
      → Remainder (suc fuel) (c ∷ cs) offset res
  Remainder-step fuel c cs offset chunk res e h g (r, d, x) = (
    r,
    remainder_round fuel (at_pre (c ∷ cs) offset) (at_pre cs 0) chunk res e h ∙ d,
    x
        ∙ rw (
          pending_zero cs,
          expand-append_move chunk res,
          g,
          append_assoc (expand res) (expand_component chunk) (expand cs),
        ),
  )

  pub append_remainder_lem :
      (fuel : ℕ) (cs : List OpComponent) (offset : ℕ) (res : TextOp)
      → length cs < fuel
      → OffsetOk cs offset
      → IsSpaced cs
      → Remainder fuel cs offset res
  append_remainder_lem zero cs offset res f o sp = absurd (omega arith)
  append_remainder_lem (suc fuel) [] offset res f o sp = (
    res,
    unfold append_remainder is_end in rw (next_end usize_max offset),
    sym (append-nil (expand res)),
  )
  append_remainder_lem (suc fuel) (skip n ∷ cs) offset res f o sp =
      Remainder-step fuel (skip n) cs offset (skip (n - offset)) res
        (next_whole true usize_max n offset cs o (omega (arith, sp.1)))
        (is_end-span true n offset sp.1) refl
        (append_remainder_lem fuel cs 0 (append_move (skip (n - offset)) res) (omega arith)
          (OffsetOk-zero cs sp.2) sp.2)
  append_remainder_lem (suc fuel) (del n ∷ cs) offset res f o sp =
      Remainder-step fuel (del n) cs offset (del (n - offset)) res
        (next_whole false usize_max n offset cs o (omega (arith, sp.1)))
        (is_end-span false n offset sp.1) refl
        (append_remainder_lem fuel cs 0 (append_move (del (n - offset)) res) (omega arith)
          (OffsetOk-zero cs sp.2) sp.2)
  append_remainder_lem (suc fuel) (ins s ∷ cs) offset res f o sp = rw o (
      Remainder-step fuel (ins s) cs 0 (ins s) res (next_ins usize_max s cs) (unfold is_end in refl)
        refl
        (append_remainder_lem fuel cs 0 (append_move (ins s) res) (omega arith)
          (OffsetOk-zero cs sp.2) sp.2))
