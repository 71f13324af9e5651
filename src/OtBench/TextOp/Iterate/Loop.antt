-- ===== src/OtBench/TextOp/Iterate/Loop.antt =====
-- The `while len > 0` loops of `transform1` in tools/ot-bench/src/ot_text.rs.
use egwalker_paper.Base.{
  ℕ, zero, suc, ◌+◌, ◌-◌, ◌≤◌, ◌<◌, ◌≡◌, refl, sym, ◌∙◌, Bool, true, false, List, [], ◌∷◌, ◌++◌,
  arith, replicate, replicate_split, length, ltb, ltb→lt, append_assoc, append-nil, Bool-cases, inl,
  inr,
}
use egwalker_paper.Base.Panic.{Outcome, done}
use egwalker_paper.OtBench.TextOp.{OpComponent, skip, del, ins, TextOp, pre_len}
use egwalker_paper.OtBench.TextOp.Strings.{StrIndices}
use egwalker_paper.OtBench.TextOp.Edits.{Edit, keep, xf}
use egwalker_paper.OtBench.TextOp.Edits.Bulk.{
  other_edit, survivors, puts, xf_past_end, xf_runs, xf-puts,
}
use egwalker_paper.OtBench.TextOp.Expand.{expand, expand-append_move}
use egwalker_paper.OtBench.TextOp.Iterate.{TextOpIterator, pre_loop, keep_chunk, keep_insert}
use egwalker_paper.OtBench.TextOp.Iterate.Chunks.{
  span, at_pre, OffsetOk, pending, IsSpaced, pending_zero, OffsetOk-zero, next_end, next_ins,
  next_whole, next_part, pre_loop_round,
}

module _ ⦃ix : StrIndices⦄ where
  pre_len-span : (k : Bool) (m len len' : ℕ) → len ≡ m + len' → len ≡ pre_len (span k m) + len'
  unfolding pre_len
  pre_len-span true m len len' h = h
  pre_len-span false m len len' h = h

  abbrev pub body_of : Bool → OpComponent → TextOp → TextOp
  body_of true = keep_chunk
  body_of false = keep_insert

  expand-body_span :
      (k b : Bool) (n : ℕ) (res : TextOp)
      → expand (body_of b (span k n) res) ≡ expand res ++ survivors b (replicate n (other_edit k))
  unfolding keep_chunk keep_insert
  expand-body_span true true n res = expand-append_move (skip n) res
  expand-body_span false true n res = expand-append_move (del n) res
  expand-body_span true false n res = sym (append-nil (expand res))
  expand-body_span false false n res = sym (append-nil (expand res))

  expand-body_ins :
      (b : Bool) (s : List ℕ) (res : TextOp) → expand (body_of b (ins s) res) ≡ expand res ++ puts s
  unfolding keep_chunk keep_insert
  expand-body_ins true s res = expand-append_move (ins s) res
  expand-body_ins false s res = expand-append_move (ins s) res

  -- A part of `transform1` ends, in a good state, and what it has written together with the
  -- transform of what is left is `start`.
  abbrev pub Ends : Bool → Outcome (TextOpIterator × TextOp) → (List Edit → List Edit) → Type 0
  Ends l run start =
      (cs : List OpComponent) × (offset : ℕ) × (res : TextOp) × (run ≡ done (at_pre cs offset, res))
      × OffsetOk cs offset
      × IsSpaced cs
      × ((os : List Edit) → expand res ++ xf l (pending cs offset) os ≡ start os)

  pub Ends-cast :
      (l : Bool) {run run' : Outcome (TextOpIterator × TextOp)}
      {start start' : List Edit → List Edit}
      → run ≡ run'
      → ((os : List Edit) → start' os ≡ start os)
      → Ends l run' start'
      → Ends l run start
  Ends-cast l e h (cs, offset, res, d, o, sp, f) =
      (cs, offset, res, e ∙ d, o, sp, λ os. f os ∙ h os)

  abbrev pub ahead : Bool → Bool → ℕ → List OpComponent → ℕ → TextOp → List Edit → List Edit
  ahead l b len cs offset res os =
      expand res ++ xf l (pending cs offset) (replicate len (other_edit b) ++ os)

  ahead_past_end :
      (b l : Bool) (len offset : ℕ) (res : TextOp) (os : List Edit)
      → ahead l b 0 [] offset (body_of b (skip len) res) os ≡ ahead l b len [] offset res os
  ahead_past_end b l len offset res os = rw (
    xf_past_end b l len os,
    expand-body_span true b len res,
    append_assoc (expand res) (survivors b (replicate len keep)) (xf l [] os),
  )

  -- A round that returns `m` characters of a span leaves the same edits ahead.
  ahead_span :
      (k b l : Bool) (m len : ℕ) (us os : List Edit) (res : TextOp)
      → m ≤ len
      → expand (body_of b (span k m) res) ++ xf l us (replicate (len - m) (other_edit b) ++ os)
        ≡ expand res ++ xf l (replicate m (other_edit k) ++ us) (replicate len (other_edit b) ++ os)
  ahead_span k b l m len us os res h =
      let rest : List Edit = replicate (len - m) (other_edit b) ++ os in
      rw (
        replicate_split m len (other_edit b) h,
        append_assoc (replicate m (other_edit b)) (replicate (len - m) (other_edit b)) os,
        xf_runs k b l m us rest,
        expand-body_span k b m res,
        append_assoc (expand res) (survivors b (replicate m (other_edit k))) (xf l us rest),
      )

  ahead_ins :
      (b l : Bool) (len : ℕ) (s : List ℕ) (cs : List OpComponent) (res : TextOp) (os : List Edit)
      → ahead l b (suc len) cs 0 (body_of b (ins s) res) os
        ≡ ahead l b (suc len) (ins s ∷ cs) 0 res os
  ahead_ins b l len s cs res os = rw (
    pending_zero cs,
    xf-puts b l s (expand cs) (replicate len (other_edit b) ++ os),
    expand-body_ins b s res,
    append_assoc (expand res) (puts s)
        (xf l (expand cs) (other_edit b ∷ (replicate len (other_edit b) ++ os))),
  )

  pending-span :
      (k : Bool) (n offset : ℕ) (cs : List OpComponent)
      → pending (span k n ∷ cs) offset ≡ replicate (n - offset) (other_edit k) ++ expand cs
  pending-span true n offset cs = refl
  pending-span false n offset cs = refl

  ahead_whole :
      (k b l : Bool) (len n offset : ℕ) (cs : List OpComponent) (res : TextOp) (os : List Edit)
      → n - offset ≤ len
      → ahead l b (len - (n - offset)) cs 0 (body_of b (span k (n - offset)) res) os
        ≡ ahead l b len (span k n ∷ cs) offset res os
  ahead_whole k b l len n offset cs res os h =
      rw (pending_zero cs, pending-span k n offset cs)
        (ahead_span k b l (n - offset) len (expand cs) os res h)

  ahead_part :
      (k b l : Bool) (len n offset : ℕ) (cs : List OpComponent) (res : TextOp) (os : List Edit)
      → len < n - offset
      → ahead l b 0 (span k n ∷ cs) (offset + len) (body_of b (span k len) res) os
        ≡ ahead l b len (span k n ∷ cs) offset res os
  ahead_part k b l len n offset cs res os h =
      let left : List Edit = replicate (n - (offset + len)) (other_edit k) ++ expand cs in
      let e : n - offset - len ≡ n - (offset + len) = omega arith in
      let z : len - len ≡ 0 = omega arith in
      rw
        (
          pending-span k n (offset + len) cs,
          pending-span k n offset cs,
          replicate_split len (n - offset) (other_edit k) (omega arith),
          append_assoc (replicate len (other_edit k)) (replicate (n - offset - len) (other_edit k))
              (expand cs),
          e,
        )
        (rw z at (ahead_span k b l len len left os res (omega arith)))

  OffsetOk-part :
      (k : Bool) (n offset : ℕ) (cs : List OpComponent)
      → offset < n
      → OffsetOk (span k n ∷ cs) offset
  OffsetOk-part true n offset cs h = h
  OffsetOk-part false n offset cs h = h

  -- The round of `pre_loop` on a span, from the rounds that can follow it.
  span_round :
      (k b l : Bool) (fuel len n offset : ℕ) (cs : List OpComponent) (res : TextOp)
      → offset < n
      → (n - offset ≤ suc len
          → Ends l
              (pre_loop
                (body_of b)
                fuel
                (suc len - (n - offset))
                (at_pre cs 0)
                (body_of b (span k (n - offset)) res))
              (ahead l b (suc len - (n - offset)) cs 0 (body_of b (span k (n - offset)) res)))
      → (suc len < n - offset
          → Ends l
              (pre_loop
                (body_of b)
                fuel
                0
                (at_pre (span k n ∷ cs) (offset + suc len))
                (body_of b (span k (suc len)) res))
              (ahead l b 0 (span k n ∷ cs) (offset + suc len) (body_of b (span k (suc len)) res)))
      → Ends l
          (pre_loop (body_of b) (suc fuel) (suc len) (at_pre (span k n ∷ cs) offset) res)
          (ahead l b (suc len) (span k n ∷ cs) offset res)
  span_round k b l fuel len n offset cs res o whole part =
      elim (Bool-cases (ltb (suc len) (n - offset))) [
        | inl t ↦
            let h : suc len < n - offset = ltb→lt (suc len) (n - offset) t in
            Ends-cast l
              (pre_loop_round (body_of b) fuel len 0 _ _ (span k (suc len)) res
                (next_part k (suc len) n offset cs o h)
                (pre_len-span k (suc len) (suc len) 0 (omega arith)))
              (λ os. ahead_part k b l (suc len) n offset cs res os h) (part h)
        | inr t ↦
            let h : n - offset ≤ suc len = ground arith in
            Ends-cast l
              (pre_loop_round (body_of b) fuel len (suc len - (n - offset)) _ _
                (span k (n - offset)) res (next_whole k (suc len) n offset cs o h)
                (pre_len-span k (n - offset) (suc len) (suc len - (n - offset)) (omega arith)))
              (λ os. ahead_whole k b l (suc len) n offset cs res os h) (whole h)
      ]

  pub pre_loop_lem :
      (b l : Bool) (fuel len : ℕ) (cs : List OpComponent) (offset : ℕ) (res : TextOp)
      → len + length cs < fuel
      → OffsetOk cs offset
      → IsSpaced cs
      → Ends l (pre_loop (body_of b) fuel len (at_pre cs offset) res) (ahead l b len cs offset res)
  pre_loop_lem b l zero len cs offset res f o sp = absurd (omega arith)
  pre_loop_lem b l (suc fuel) zero cs offset res f o sp =
      (cs, offset, res, unfold pre_loop in refl, o, sp, λ os. refl)
  pre_loop_lem b l (suc fuel) (suc len) [] offset res f o sp =
      Ends-cast l
        (pre_loop_round (body_of b) fuel len 0 (at_pre [] offset) (at_pre [] offset)
          (skip (suc len)) res (next_end (suc len) offset) (unfold pre_len in omega arith))
        (λ os. ahead_past_end b l (suc len) offset res os)
        (pre_loop_lem b l fuel zero [] offset (body_of b (skip (suc len)) res) (omega arith) tt tt)
  pre_loop_lem b l (suc fuel) (suc len) (ins s ∷ cs) offset res f o sp = rw o (
      Ends-cast l
        (pre_loop_round (body_of b) fuel len (suc len) (at_pre (ins s ∷ cs) 0) (at_pre cs 0) (ins s)
          res (next_ins (suc len) s cs) (unfold pre_len in omega arith))
        (λ os. ahead_ins b l len s cs res os)
        (pre_loop_lem b l fuel (suc len) cs 0 (body_of b (ins s) res) (omega arith)
          (OffsetOk-zero cs sp.2) sp.2))
  pre_loop_lem b l (suc fuel) (suc len) (skip n ∷ cs) offset res f o sp =
      span_round true b l fuel len n offset cs res o
        (λ h.
          pre_loop_lem b l fuel (suc len - (n - offset)) cs 0 (body_of b (skip (n - offset)) res)
            (omega arith) (OffsetOk-zero cs sp.2) sp.2)
        (λ h.
          pre_loop_lem b l fuel zero (skip n ∷ cs) (offset + suc len)
            (body_of b (skip (suc len)) res) (omega arith) (omega arith) sp)
  pre_loop_lem b l (suc fuel) (suc len) (del n ∷ cs) offset res f o sp =
      span_round false b l fuel len n offset cs res o
        (λ h.
          pre_loop_lem b l fuel (suc len - (n - offset)) cs 0 (body_of b (del (n - offset)) res)
            (omega arith) (OffsetOk-zero cs sp.2) sp.2)
        (λ h.
          pre_loop_lem b l fuel zero (del n ∷ cs) (offset + suc len) (body_of b (del (suc len)) res)
            (omega arith) (omega arith) sp)
