-- ===== src/OtBench/Replay/Memo.antt =====
-- That the memo of the replay in tools/ot-bench/src/main.rs changes no result.
use egwalker_paper.Base.{
  ℕ, zero, suc, ◌≡◌, refl, sym, ap, ◌∙◌, true, false, ◌&&◌, List, [], ◌∷◌, Option, none, some, ltb,
  ◌==◌, ==_iff, slice_eq, eq_of_slice_eq, Bool-cases, inl, inr, arith, subst, length,
}
use egwalker_paper.Base.Panic.{Outcome, done}
use egwalker_paper.OtBench.Frontier.{Frontier, root, from_unsorted}
use egwalker_paper.OtBench.Frontier.Advance.{IsSorted}
use egwalker_paper.OtBench.Frontier.Sorted.{from_unsorted-sorted}
use egwalker_paper.OtBench.Graph.{GraphEntryInternal, index_entry, advance_by, diff}
use egwalker_paper.OtBench.TextOp.{TextOp}
use egwalker_paper.OtBench.TextOp.Strings.{StrIndices}
use egwalker_paper.OtBench.TextOp.Iterate.{transform_list}
use egwalker_paper.OtBench.Document.{Rope, apply_all}
use egwalker_paper.OtBench.Replay.{
  OpChunk, OperationData, OpKey, MemoDict, Borrow, index_chunk, assert_empty, assert_same, memo_get,
  memo_insert, key_of, added_loop, borrow_computed, borrow_known, borrow_ops_at_version,
  replay_loop, doc_at_version,
}
use egwalker_paper.OtBench.Replay.Entries.{HasSortedParents, index_done, advance_by-IsSorted}
use egwalker_paper.OtBench.Replay.Plain.{
  Lookup, bind_elim, plain_loop, plain_branch, assert_if, ops_at_version, same_ops, plain_replay,
  plain_doc,
}

module _ ⦃ix : StrIndices⦄ (s : OperationData) where
  -- Each entry of the memo is what the code without memo gives.
  abbrev pub IsMemo : MemoDict → Type 0
  IsMemo memo =
      (key : OpKey) (ops : List TextOp)
      → memo_get memo key ≡ some ops
      → (f : ℕ) × (ops_at_version true f s key.idx key.v ≡ done ops)

  IsMemo-nil : IsMemo []
  unfolding memo_get
  IsMemo-nil key ops h = absurd cc

  IsMemo-insert :
      (memo : MemoDict) (i f : ℕ) (v : List ℕ) (ops : List TextOp)
      → IsMemo memo
      → IsSorted v
      → ops_at_version true f s i v ≡ done ops
      → IsMemo (memo_insert (key_of i v) ops memo)
  unfolding memo_insert memo_get key_of
  IsMemo-insert memo i f v ops m sorted h key r g =
      elim (Bool-cases ((i == key.idx) && slice_eq (from_unsorted v) key.v)) [
        | inl e ↦
            let found : i ≡ key.idx = (==_iff i key.idx).0 (ground (arith, e)) in
            let at : v ≡ key.v =
              sym (from_unsorted-sorted v sorted)
              ∙ eq_of_slice_eq (from_unsorted v) key.v (ground (arith, e)) in
            let same : ops ≡ r = ground (arith, e, g) in
            (
              f,
              subst (λ x. ops_at_version true f s x key.v ≡ done r) found
                  (subst (λ w. ops_at_version true f s i w ≡ done r) at (h ∙ ap done same)),
            )
        | inr e ↦ m key r (rw e at g)
      ]

  -- The function with the memo answers where the one without does, and the same.
  abbrev Follows : Borrow → Lookup → Type 0
  Follows borrow lookup =
      (i : ℕ) (v : List ℕ) (memo : MemoDict) (ops : List TextOp)
      → IsMemo memo
      → IsSorted v
      → lookup i v ≡ done ops
      → (memo' : MemoDict) × (borrow i v memo ≡ done (ops, memo')) × IsMemo memo'

  added_loop_lem :
      (borrow : Borrow) (lookup : Lookup) (i : ℕ) (added : List ℕ) (pv : Frontier)
      (ops : List TextOp) (r : Frontier × List TextOp) (memo : MemoDict)
      → Follows borrow lookup
      → IsMemo memo
      → IsSorted pv
      → plain_loop lookup s.graph i added pv ops ≡ done r
      → (memo' : MemoDict) × (added_loop borrow s.graph i added pv ops memo
          ≡ done (r.0, r.1, memo'))
        × IsMemo memo'
  unfolding added_loop plain_loop
  added_loop_lem borrow lookup i [] pv ops r memo x m sorted h = (memo, ground (arith, h), m)
  added_loop_lem borrow lookup i (j ∷ js) pv ops r memo x m sorted h =
      bind_elim (lookup j pv) _ r
        (λ other e1. bind_elim (transform_list ops other (ltb j i)) _ r (λ ops' e2.
          bind_elim (advance_by s.graph j pv) _ r (λ pv' e3 h'.
            (let (memo1, b1, m1) = x j pv memo other m sorted e1 in
              let (memo2, b2, m2) =
                added_loop_lem borrow lookup i js pv' ops' r memo1 x m1
                  (advance_by-IsSorted s.graph j pv pv' sorted e3) h' in
              (memo2, rw (b1, e2, e3) b2, m2)))))
        h

  known_lem :
      (f : ℕ) (borrow : Borrow) (i : ℕ) (v : List ℕ) (memo : MemoDict) (chunk : OpChunk)
      (entry : GraphEntryInternal) (known : Option (List TextOp)) (r : List TextOp)
      → Follows borrow (ops_at_version true f s)
      → IsMemo memo
      → IsSorted v
      → IsSorted entry.parents
      → memo_get memo (key_of i v) ≡ known
      → ops_at_version true (suc f) s i v ≡ done r
      → plain_branch true (ops_at_version true f s) s i v chunk entry false ≡ done r
      → (memo' : MemoDict) × (borrow_known borrow s i v chunk entry memo known ≡ done (r, memo'))
        × IsMemo memo'
  unfolding borrow_known borrow_computed
  known_lem f borrow i v memo chunk entry (some ops) r x m sorted ps g whole h =
      let (k, d) = m (key_of i v) ops g in
      let d' : ops_at_version true k s i v ≡ done ops =
        unfold key_of in
        subst (λ w. ops_at_version true k s i w ≡ done ops) (from_unsorted-sorted v sorted) d in
      (memo, ground (arith, same_ops true s k (suc f) i v ops r d' whole), m)
  known_lem f borrow i v memo chunk entry none r x m sorted ps g whole h =
      unfold plain_branch assert_if in
      bind_elim (diff s.graph entry.parents v) _ r
        (λ found e1. bind_elim (assert_empty found.0) _ r (λ u e2.
          bind_elim (plain_loop (ops_at_version true f s) s.graph i found.1 entry.parents chunk.ops)
            _ r
            (λ q e3. bind_elim (assert_same q.0 v) _ r (λ w e4 h'.
              (let (memo', b, m') =
                  added_loop_lem borrow (ops_at_version true f s) i found.1 entry.parents chunk.ops
                    q memo x m ps e3 in
                let same : q.1 ≡ r = cc in
                (
                  memo_insert (key_of i v) r memo',
                  rw (e1, e2, b, e4, same) refl,
                  IsMemo-insert memo' i (suc f) v r m' sorted whole,
                ))))))
        h

  own_ops :
      (f i : ℕ) (v : List ℕ) (chunk : OpChunk) (entry : GraphEntryInternal) (memo : MemoDict)
      (r : List TextOp)
      → plain_branch true (ops_at_version true f s) s i v chunk entry true ≡ done r
      → ◌≡◌ {A = Outcome (List TextOp × MemoDict)} (done (chunk.ops, memo)) (done (r, memo))
  unfolding plain_branch
  own_ops f i v chunk entry memo r h = cc

  borrow-Follows :
      HasSortedParents s → (f : ℕ) → Follows (borrow_ops_at_version f s) (ops_at_version true f s)
  unfolding borrow_ops_at_version ops_at_version
  borrow-Follows ps zero i v memo r m sorted h = absurd cc
  borrow-Follows ps (suc f) i v memo r m sorted h =
      bind_elim (index_chunk s.ops i) _ r
        (λ chunk e1.
          bind_elim (index_entry s.graph.entries i)
            (λ entry.
              plain_branch true (ops_at_version true f s) s i v chunk entry
                (slice_eq v entry.parents))
            r
            (λ entry e2 h'. (elim (Bool-cases (slice_eq v entry.parents)) [
              | inl same ↦ (
                memo,
                rw (e1, e2, same)
                    (own_ops f i v chunk entry memo r (
                      subst
                        (λ b.
                          plain_branch true (ops_at_version true f s) s i v chunk entry b ≡ done r)
                        same h')),
                m,
              )
              | inr other ↦
                  let (memo', b, m') =
                    known_lem f (borrow_ops_at_version f s) i v memo chunk entry
                      (memo_get memo (key_of i v)) r (borrow-Follows ps f) m sorted
                      (ps i entry (index_done s.graph.entries i entry e2)) refl h
                      (subst
                        (λ b.
                          plain_branch true (ops_at_version true f s) s i v chunk entry b ≡ done r)
                        other h') in
                  (memo', rw (e1, e2, other) b, m')
            ])))
        h

module _ ⦃ix : StrIndices⦄ (rope : Rope) (s : OperationData) (ps : HasSortedParents s) where
  open rope use {Text}

  replay_loop_lem :
      (f : ℕ) (idxs : List ℕ) (dv : Frontier) (doc r : Text) (memo : MemoDict)
      → IsMemo s memo
      → IsSorted dv
      → plain_replay rope (ops_at_version true f s) s.graph idxs dv doc ≡ done r
      → replay_loop rope (borrow_ops_at_version f s) s.graph idxs dv doc memo ≡ done r
  unfolding replay_loop plain_replay
  replay_loop_lem f [] dv doc r memo m sorted h = h
  replay_loop_lem f (i ∷ idxs) dv doc r memo m sorted h =
      bind_elim (ops_at_version true f s i dv) _ r
        (λ ops e1. bind_elim (advance_by s.graph i dv) _ r (λ dv' e2 h'.
          (let (memo', b, m') = borrow-Follows s ps f i dv memo ops m sorted e1 in
            rw (b, e2)
              (replay_loop_lem f idxs dv' (apply_all rope ops doc) r memo' m'
                (advance_by-IsSorted s.graph i dv dv' sorted e2) h'))))
        h

  pub doc-plain :
      (v : List ℕ) (r : Text)
      → plain_doc rope true (suc (length s.graph.entries)) s v ≡ done r
      → doc_at_version rope s v ≡ done r
  unfolding doc_at_version plain_doc root
  doc-plain v r h =
      bind_elim (diff s.graph [] v) _ r
        (λ found e h'. rw e (
          replay_loop_lem (suc (length s.graph.entries)) found.1 [] rope.new r [] (IsMemo-nil s) tt
            h'))
        h
