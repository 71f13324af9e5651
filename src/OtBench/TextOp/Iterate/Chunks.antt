-- ===== src/OtBench/TextOp/Iterate/Chunks.antt =====
-- What `TextOpIterator::next` of tools/ot-bench/src/ot_text.rs returns, case by case.
use egwalker_paper.Base.{
  ℕ, zero, suc, ◌+◌, ◌-◌, ◌≤◌, ◌<◌, ◌≡◌, refl, Bool, true, false, List, [], ◌∷◌, ◌++◌, arith,
  replicate, length,
}
use egwalker_paper.Base.Panic.{done, checked_sub_lem}
use egwalker_paper.OtBench.TextOp.{
  OpComponent, skip, del, ins, TextOp, pre, slice, ctx_len, pre_len,
}
use egwalker_paper.OtBench.TextOp.Strings.{StrIndices}
use egwalker_paper.OtBench.TextOp.Edits.{Edit}
use egwalker_paper.OtBench.TextOp.Edits.Bulk.{other_edit, puts, NoPut}
use egwalker_paper.OtBench.TextOp.Expand.{expand}
use egwalker_paper.OtBench.TextOp.Iterate.{TextOpIterator, usize_max, next_from, next, pre_loop}

-- A skip or a deletion of `n` characters.
abbrev pub span : Bool → ℕ → OpComponent
span true n = skip n
span false n = del n

abbrev pub at_pre : List OpComponent → ℕ → TextOpIterator
at_pre cs offset = record { rest = cs; ctx = pre; offset = offset }

-- The offset lies inside the current component, and an insertion is never cut.
abbrev pub OffsetOk : List OpComponent → ℕ → Type 0
OffsetOk [] offset = Unit
OffsetOk (skip n ∷ cs) offset = offset < n
OffsetOk (del n ∷ cs) offset = offset < n
OffsetOk (ins s ∷ cs) offset = offset ≡ 0

-- The edits that the iterator has still to return.
abbrev pub pending : List OpComponent → ℕ → List Edit
pending [] offset = []
pending (skip n ∷ cs) offset = replicate (n - offset) (other_edit true) ++ expand cs
pending (del n ∷ cs) offset = replicate (n - offset) (other_edit false) ++ expand cs
pending (ins s ∷ cs) offset = puts s ++ expand cs

abbrev pub NotIns : List OpComponent → Type 0
NotIns (ins s ∷ cs) = ⊥
NotIns _ = Unit

-- No component is empty or as long as `usize::MAX`, and no insertion directly follows another.
abbrev pub IsSpaced : List OpComponent → Type 0
IsSpaced [] = Unit
IsSpaced (skip n ∷ cs) = (0 < n) × (n < usize_max) × IsSpaced cs
IsSpaced (del n ∷ cs) = (0 < n) × (n < usize_max) × IsSpaced cs
IsSpaced (ins s ∷ cs) = NotIns cs × (length s < usize_max) × IsSpaced cs

pub pending_zero : (cs : List OpComponent) → pending cs 0 ≡ expand cs
pending_zero [] = refl
pending_zero (skip n ∷ cs) = let e : n - 0 ≡ n = omega arith in rw e
pending_zero (del n ∷ cs) = let e : n - 0 ≡ n = omega arith in rw e
pending_zero (ins s ∷ cs) = refl

pub OffsetOk-zero : (cs : List OpComponent) → IsSpaced cs → OffsetOk cs 0
OffsetOk-zero [] h = tt
OffsetOk-zero (skip n ∷ cs) h = h.0
OffsetOk-zero (del n ∷ cs) h = h.0
OffsetOk-zero (ins s ∷ cs) h = refl

NoPut-replicate :
    (k : Bool) (n : ℕ) (es : List Edit) → 0 < n → NoPut (replicate n (other_edit k) ++ es)
NoPut-replicate k zero es h = absurd (omega arith)
NoPut-replicate true (suc n) es h = tt
NoPut-replicate false (suc n) es h = tt

pub NoPut-pending :
    (cs : List OpComponent) (offset : ℕ)
    → NotIns cs
    → OffsetOk cs offset
    → NoPut (pending cs offset)
NoPut-pending [] offset h o = tt
NoPut-pending (skip n ∷ cs) offset h o = NoPut-replicate true (n - offset) (expand cs) (omega arith)
NoPut-pending (del n ∷ cs) offset h o = NoPut-replicate false (n - offset) (expand cs) (omega arith)
NoPut-pending (ins s ∷ cs) offset h o = absurd h

module _ ⦃ix : StrIndices⦄ where
  pub next_end : (m offset : ℕ) → next m (at_pre [] offset) ≡ done (skip m, at_pre [] offset)
  unfolding next next_from
  next_end m offset = refl

  pub next_ins :
      (m : ℕ) (s : List ℕ) (cs : List OpComponent)
      → next m (at_pre (ins s ∷ cs) 0) ≡ done (ins s, at_pre cs 0)
  unfolding next next_from ctx_len
  next_ins m s cs = refl

  pub next_whole :
      (k : Bool) (m n offset : ℕ) (cs : List OpComponent)
      → offset < n
      → n - offset ≤ m
      → next m (at_pre (span k n ∷ cs) offset) ≡ done (span k (n - offset), at_pre cs 0)
  unfolding next next_from ctx_len slice
  next_whole true m n offset cs h g = ground arith
  next_whole false m n offset cs h g = ground arith

  pub next_part :
      (k : Bool) (m n offset : ℕ) (cs : List OpComponent)
      → offset < n
      → m < n - offset
      → next m (at_pre (span k n ∷ cs) offset)
        ≡ done (span k m, at_pre (span k n ∷ cs) (offset + m))
  unfolding next next_from ctx_len slice
  next_part true m n offset cs h g = ground arith
  next_part false m n offset cs h g = ground arith

  -- One round of a `while len > 0` loop.
  pub pre_loop_round :
      (body : OpComponent → TextOp → TextOp) (fuel len len' : ℕ) (it it' : TextOpIterator)
      (chunk : OpComponent) (result : TextOp)
      → next (suc len) it ≡ done (chunk, it')
      → suc len ≡ pre_len chunk + len'
      → pre_loop body (suc fuel) (suc len) it result
        ≡ pre_loop body fuel len' it' (body chunk result)
  unfolding pre_loop
  pre_loop_round body fuel len len' it it' chunk result e q =
      ground (arith, e, checked_sub_lem (suc len) (pre_len chunk) len' q)
