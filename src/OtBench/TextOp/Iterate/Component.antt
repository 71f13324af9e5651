-- ===== src/OtBench/TextOp/Iterate/Component.antt =====
-- `transform1` of tools/ot-bench/src/ot_text.rs on the components of the other operation.
use egwalker_paper.Base.{
  ℕ, suc, ◌+◌, ◌<◌, ◌≡◌, refl, sym, ◌∙◌, Bool, true, false, List, [], ◌∷◌, ◌++◌, arith, replicate,
  length, append_assoc,
}
use egwalker_paper.Base.Panic.{done}
use egwalker_paper.OtBench.TextOp.{OpComponent, skip, del, ins, TextOp, append_move, post_len}
use egwalker_paper.OtBench.TextOp.Strings.{StrIndices}
use egwalker_paper.OtBench.TextOp.Edits.{Edit, keep, xf}
use egwalker_paper.OtBench.TextOp.Edits.Bulk.{
  puts, xf-puts_left, NoPut, xf_other_puts_left, xf_other_puts_right,
}
use egwalker_paper.OtBench.TextOp.Expand.{expand, expand_component, expand-append_move}
use egwalker_paper.OtBench.TextOp.Iterate.{next, transform_component, transform_loop}
use egwalker_paper.OtBench.TextOp.Iterate.Chunks.{
  span, at_pre, OffsetOk, pending, IsSpaced, pending_zero, OffsetOk-zero, NoPut-pending, next_end,
  next_ins, next_part,
}
use egwalker_paper.OtBench.TextOp.Iterate.Loop.{Ends, Ends-cast, pre_loop_lem}

module _ ⦃ix : StrIndices⦄ where
  -- The skip over the text that the other operation inserted.
  expand-skip_text :
      (t : List ℕ) (res : TextOp)
      → expand (append_move (skip (post_len (ins t))) res) ≡ expand res ++ replicate (length t) keep
  unfolding post_len
  expand-skip_text t res = rw (ix.count_lem t) (expand-append_move (skip (length t)) res)

  -- What `transform_component` leaves ahead: the edits of the other operation's component are gone.
  abbrev ahead_of : Bool → OpComponent → List OpComponent → ℕ → TextOp → List Edit → List Edit
  ahead_of l c cs offset res os = expand res ++ xf l (pending cs offset) (expand_component c ++ os)

  insert_right :
      (t : List ℕ) (us os : List Edit) (res : TextOp)
      → expand (append_move (skip (post_len (ins t))) res) ++ xf false us os
        ≡ expand res ++ xf false us (puts t ++ os)
  insert_right t us os res = rw (
    xf_other_puts_right t us os,
    expand-skip_text t res,
    append_assoc (expand res) (replicate (length t) keep) (xf false us os),
  )

  -- On the left one more component, `chunk`, is written first.
  insert_left :
      (t : List ℕ) (chunk : OpComponent) (us us' os : List Edit) (res : TextOp)
      → NoPut us'
      → ((os' : List Edit) → expand_component chunk ++ xf true us' os' ≡ xf true us os')
      → expand (append_move (skip (post_len (ins t))) (append_move chunk res)) ++ xf true us' os
        ≡ expand res ++ xf true us (puts t ++ os)
  insert_left t chunk us us' os res np h = rw (
    ← h (puts t ++ os),
    xf_other_puts_left t us' os np,
    expand-skip_text t (append_move chunk res),
    expand-append_move chunk res,
    append_assoc (expand res ++ expand_component chunk) (replicate (length t) keep)
        (xf true us' os),
    append_assoc (expand res) (expand_component chunk)
        (replicate (length t) keep ++ xf true us' os),
  )

  transform_ins_left :
      (t : List ℕ) (chunk : OpComponent) (cs cs' : List OpComponent) (offset offset' : ℕ)
      (res : TextOp)
      → next 0 (at_pre cs offset) ≡ done (chunk, at_pre cs' offset')
      → OffsetOk cs' offset'
      → IsSpaced cs'
      → NoPut (pending cs' offset')
      → ((os : List Edit)
          → expand_component chunk ++ xf true (pending cs' offset') os
            ≡ xf true (pending cs offset) os)
      → Ends true
          (transform_component true (ins t) (at_pre cs offset) res)
          (ahead_of true (ins t) cs offset res)
  unfolding transform_component
  transform_ins_left t chunk cs cs' offset offset' res e o sp np h = (
    cs',
    offset',
    append_move (skip (post_len (ins t))) (append_move chunk res),
    rw e,
    o,
    sp,
    λ os. insert_left t chunk (pending cs offset) (pending cs' offset') os res np h,
  )

  next_nothing :
      (k : Bool) (n offset : ℕ) (cs : List OpComponent)
      → offset < n
      → next 0 (at_pre (span k n ∷ cs) offset) ≡ done (span k 0, at_pre (span k n ∷ cs) offset)
  next_nothing k n offset cs h =
      let z : offset + 0 ≡ offset = omega arith in
      rw z at (next_part k 0 n offset cs h (omega arith))

  transform_component_lem :
      (l : Bool) (c : OpComponent) (cs : List OpComponent) (offset : ℕ) (res : TextOp)
      → OffsetOk cs offset
      → IsSpaced cs
      → Ends l (transform_component l c (at_pre cs offset) res) (ahead_of l c cs offset res)
  transform_component_lem l (skip len) cs offset res o sp =
      unfold transform_component in
      pre_loop_lem true l (suc (len + length cs)) len cs offset res (omega arith) o sp
  transform_component_lem l (del len) cs offset res o sp =
      unfold transform_component in
      pre_loop_lem false l (suc (len + length cs)) len cs offset res (omega arith) o sp
  transform_component_lem false (ins t) cs offset res o sp = (
    cs,
    offset,
    append_move (skip (post_len (ins t))) res,
    unfold transform_component in refl,
    o,
    sp,
    λ os. insert_right t (pending cs offset) os res,
  )
  transform_component_lem true (ins t) [] offset res o sp =
      transform_ins_left t (skip 0) [] [] offset offset res (next_end 0 offset) tt tt tt
        (λ os. refl)
  transform_component_lem true (ins t) (skip n ∷ cs) offset res o sp =
      transform_ins_left t (skip 0) (skip n ∷ cs) (skip n ∷ cs) offset offset res
        (next_nothing true n offset cs o) o sp (NoPut-pending (skip n ∷ cs) offset tt o)
        (λ os. refl)
  transform_component_lem true (ins t) (del n ∷ cs) offset res o sp =
      transform_ins_left t (del 0) (del n ∷ cs) (del n ∷ cs) offset offset res
        (next_nothing false n offset cs o) o sp (NoPut-pending (del n ∷ cs) offset tt o)
        (λ os. refl)
  transform_component_lem true (ins t) (ins s ∷ cs) offset res o sp = rw o (
      transform_ins_left t (ins s) (ins s ∷ cs) cs 0 0 res (next_ins 0 s cs) (OffsetOk-zero cs sp.2)
        sp.2 (NoPut-pending cs 0 sp.0 (OffsetOk-zero cs sp.2))
        (λ os. rw (pending_zero cs) (sym (xf-puts_left s (expand cs) os))))

  pub transform_loop_lem :
      (l : Bool) (others cs : List OpComponent) (offset : ℕ) (res : TextOp)
      → OffsetOk cs offset
      → IsSpaced cs
      → Ends l
          (transform_loop l others (at_pre cs offset) res)
          (λ os. expand res ++ xf l (pending cs offset) (expand others ++ os))
  transform_loop_lem l [] cs offset res o sp =
      (cs, offset, res, unfold transform_loop in refl, o, sp, λ os. refl)
  transform_loop_lem l (c ∷ others) cs offset res o sp =
      let (cs', offset', res', e, o', sp', f) = transform_component_lem l c cs offset res o sp in
      Ends-cast l {run' = transform_loop l others (at_pre cs' offset') res'}
        {start' = λ os. expand res' ++ xf l (pending cs' offset') (expand others ++ os)}
        (unfold transform_loop in rw e refl)
        (λ os. f (expand others ++ os) ∙ rw (append_assoc (expand_component c) (expand others) os))
        (transform_loop_lem l others cs' offset' res' o' sp')
