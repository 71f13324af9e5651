-- ===== src/OtBench/Replay/Load.antt =====
-- What `From<TraceExportData> for OperationData` of tools/ot-bench/src/main.rs makes of a trace.
use egwalker_paper.Base.{
  ℕ, zero, suc, ◌+◌, ◌<◌, ◌≤◌, ◌≡◌, refl, sym, ap, subst, inl, inr, ◌∙◌, List, [], ◌∷◌, ◌++◌, some,
  length, length-append, length-drop, append-nil, append_assoc, take, drop, get_elem?, arith, All,
  ltb, true, Bool-cases, if◌then◌else◌,
}
use egwalker_paper.Base.Panic.{done, ◌>>=◌}
use egwalker_paper.OtBench.Frontier.Advance.{IsSorted}
use egwalker_paper.OtBench.Graph.{CausalGraph, GraphEntryInternal, new, push}
use egwalker_paper.OtBench.Graph.Push.{IsGraph, push_lem, new-IsGraph, entry_append}
use egwalker_paper.OtBench.TextOp.{skip, del, ins, TextOp}
use egwalker_paper.OtBench.TextOp.Edits.{apply_edits}
use egwalker_paper.OtBench.TextOp.Expand.{expand}
use egwalker_paper.OtBench.Document.{SimpleTextOp, text_op_of, assert_text}
use egwalker_paper.OtBench.Document.Apply.{apply_run_keep, apply_run_cut, apply_puts}
use egwalker_paper.OtBench.Replay.{
  TraceExportTxn, OperationData, OpChunk, ops_of, chunk_of, chunks_of, graph_loop, data_of,
}
use egwalker_paper.OtBench.Replay.Entries.{HasSortedParents}

-- A patch deletes or inserts something.
abbrev pub HasEdit : SimpleTextOp → Type 0
HasEdit patch = 0 < patch.del_len + length patch.ins_content

-- A trace from the version `n` on: parents are earlier versions, in order, and no patch is empty.
abbrev pub IsTrace : ℕ → List TraceExportTxn → Type 0
IsTrace n [] = Unit
IsTrace n (txn ∷ txns) =
    All (λ p. p < n) txn.parents
    × IsSorted txn.parents
    × All HasEdit txn.patches
    × IsTrace (suc n) txns

-- The text that a patch inserts: a patch that deletes inserts none.
abbrev pub inserted : SimpleTextOp → List ℕ
inserted patch = if ltb 0 patch.del_len then [] else patch.ins_content

-- An operation that edits each document that reaches to the patch's end as the patch says.
abbrev pub IsOp : SimpleTextOp → TextOp → Type 0
IsOp patch op =
    (doc : List ℕ)
    → patch.pos + patch.del_len ≤ length doc
    → apply_edits (expand op) doc
      ≡ take patch.pos doc ++ (inserted patch ++ drop (patch.pos + patch.del_len) doc)

abbrev pub AreOps : List SimpleTextOp → List TextOp → Type 0
AreOps [] [] = Unit
AreOps (patch ∷ patches) (op ∷ ops) = IsOp patch op × AreOps patches ops
AreOps _ _ = ⊥

-- The operations of each transaction, under its agent.
abbrev pub AreChunks : List TraceExportTxn → List OpChunk → Type 0
AreChunks [] [] = Unit
AreChunks (txn ∷ txns) (chunk ∷ chunks) =
    (chunk.agent ≡ txn.agent) × AreOps txn.patches chunk.ops × AreChunks txns chunks
AreChunks _ _ = ⊥

-- An entry for each transaction, numbered from `n` on, with its parents.
abbrev pub entries_of : ℕ → List TraceExportTxn → List GraphEntryInternal
entries_of n [] = []
entries_of n (txn ∷ txns) = record { idx = n; parents = txn.parents } ∷ entries_of (suc n) txns

skip_edits :
    (pos n : ℕ) (cs : TextOp) (doc : List ℕ)
    → pos + n ≤ length doc
    → apply_edits (expand ((if ltb 0 pos then skip pos ∷ [] else []) ++ cs)) doc
      ≡ take pos doc ++ apply_edits (expand cs) (drop pos doc)
skip_edits zero n cs doc h = refl
skip_edits (suc pos) n cs doc h =
    let e : ltb 0 (suc pos) ≡ true = ground arith in
    rw e (apply_run_keep (suc pos) (expand cs) doc (omega arith))

drop-add : (m n : ℕ) (xs : List ℕ) → drop n (drop m xs) ≡ drop (m + n) xs
drop-add zero n xs = let e : 0 + n ≡ n = omega arith in rw e refl
drop-add (suc m) zero [] = let e : suc m + 0 ≡ suc m = omega arith in rw e refl
drop-add (suc m) (suc n) [] = let e : suc m + suc n ≡ suc (m + suc n) = omega arith in rw e refl
drop-add (suc m) n (x ∷ xs) =
    let e : suc m + n ≡ suc (m + n) = omega arith in rw e (drop-add m n xs)

text_there : (text : List ℕ) → 0 < length text → assert_text text ≡ done tt
unfolding assert_text
text_there [] h = absurd (omega arith)
text_there (c ∷ text) h = refl

edit-IsOp :
    (patch : SimpleTextOp)
    → HasEdit patch
    → (op : TextOp) × (text_op_of patch ≡ done op) × IsOp patch op
unfolding text_op_of apply_edits
edit-IsOp patch h = elim (Bool-cases (ltb 0 patch.del_len)) [
  | inl deletes ↦
      let n = patch.del_len in
      (
        (if ltb 0 patch.pos then skip patch.pos ∷ [] else []) ++ (del n ∷ []),
        rw deletes refl,
        λ doc l. rw deletes (
            skip_edits patch.pos n (del n ∷ []) doc l
            ∙ ap (λ (ys : List ℕ). take patch.pos doc ++ ys)
                (apply_run_cut n [] (drop patch.pos doc) (omega (arith, length-drop patch.pos doc))
                  ∙ drop-add patch.pos n doc)),
      )
  | inr inserts ↦
      let text = patch.ins_content in
      let none_cut : patch.del_len ≡ 0 = ground (arith, inserts) in
      let same : patch.pos + 0 ≡ patch.pos = omega arith in
      (
        (if ltb 0 patch.pos then skip patch.pos ∷ [] else []) ++ (ins text ∷ []),
        rw (inserts, text_there text (omega (arith, h, none_cut))) refl,
        λ doc l.
            rw (inserts, none_cut, same)
              (skip_edits patch.pos 0 (ins text ∷ []) doc (omega (arith, l))
                ∙ ap (λ (ys : List ℕ). take patch.pos doc ++ ys)
                    (apply_puts text [] (drop patch.pos doc))),
      )
]

ops_lem :
    (patches : List SimpleTextOp)
    → All HasEdit patches
    → (ops : List TextOp) × (ops_of patches ≡ done ops) × AreOps patches ops
unfolding ops_of
ops_lem [] h = ([], refl, tt)
ops_lem (patch ∷ patches) h =
    let (op, e, is_op) = edit-IsOp patch h.0 in
    let (ops, d, are) = ops_lem patches h.1 in (op ∷ ops, rw (e, d) refl, (is_op, are))

chunks_lem :
    (n : ℕ) (txns : List TraceExportTxn)
    → IsTrace n txns
    → (chunks : List OpChunk) × (chunks_of txns ≡ done chunks) × AreChunks txns chunks
unfolding chunks_of chunk_of
chunks_lem n [] t = ([], refl, tt)
chunks_lem n (txn ∷ txns) (low, sorted, edits, t) =
    let (ops, e, are) = ops_lem txn.patches edits in
    let (chunks, d, rest) = chunks_lem (suc n) txns t in
    (record { agent = txn.agent; ops = ops } ∷ chunks, rw (e, d) refl, (refl, are, rest))

abbrev AreSorted : List GraphEntryInternal → Type 0
AreSorted es = (i : ℕ) (e : GraphEntryInternal) → get_elem? es i ≡ some e → IsSorted e.parents

append-AreSorted :
    (es : List GraphEntryInternal) (e : GraphEntryInternal)
    → AreSorted es
    → IsSorted e.parents
    → AreSorted (es ++ (e ∷ []))
append-AreSorted es e h k i f at = elim (entry_append es e f i at) [
  | inl l ↦ h i f l
  | inr (l, same) ↦ subst (λ d. IsSorted d.parents) same k
]

push_sorted :
    (n : ℕ) (g : CausalGraph) (parents : List ℕ)
    → n ≡ length g.entries
    → IsGraph g
    → AreSorted g.entries
    → All (λ p. p < n) parents
    → IsSorted parents
    → (g' : CausalGraph) × (push n parents g ≡ done g')
      × IsGraph g'
      × AreSorted g'.entries
      × (g'.entries ≡ g.entries ++ (record { idx = n; parents = parents } ∷ []))
      × (suc n ≡ length g'.entries)
push_sorted n g parents z h k low sorted =
    let e : GraphEntryInternal = record { idx = length g.entries; parents = parents } in
    let (g', d, es, h') = push_lem g parents h (subst (λ m. All (λ p. p < m) parents) z low) in
    (
      g',
      subst (λ m. push m parents g ≡ done g') (sym z) d,
      h',
      subst (λ l. AreSorted l) (sym es) (append-AreSorted g.entries e k sorted),
      rw z es,
      omega (
        arith,
        z,
        ap (λ (l : List GraphEntryInternal). length l) es,
        length-append g.entries (e ∷ []),
      ),
    )

graph_loop_lem :
    (n : ℕ) (txns : List TraceExportTxn) (g : CausalGraph)
    → n ≡ length g.entries
    → IsGraph g
    → AreSorted g.entries
    → IsTrace n txns
    → (g' : CausalGraph) × (graph_loop n txns g ≡ done g')
      × IsGraph g'
      × AreSorted g'.entries
      × (g'.entries ≡ g.entries ++ entries_of n txns)
unfolding graph_loop
graph_loop_lem n [] g z h k t = (g, refl, h, k, sym (append-nil g.entries))
graph_loop_lem n (txn ∷ txns) g z h k (low, sorted, edits, t) =
    let (g1, d, h1, k1, es1, z1) = push_sorted n g txn.parents z h k low sorted in
    let (g', d', h', k', es) = graph_loop_lem (suc n) txns g1 z1 h1 k1 t in
    let e : GraphEntryInternal = record { idx = n; parents = txn.parents } in
    (
      g',
      rw (d, ◌>>=◌) d',
      h',
      k',
      es
          ∙ (ap (λ (l : List GraphEntryInternal). l ++ entries_of (suc n) txns) es1
              ∙ append_assoc g.entries (e ∷ []) (entries_of (suc n) txns)),
    )

-- A trace whose transactions have earlier versions for parents, in ascending order, and no empty patch, is
-- loaded with no panic: into a well-formed graph with exactly one entry for each transaction, its parents
-- those of the transaction and sorted, and for each transaction its agent and an operation for each
-- patch. On a document that reaches to the patch's end the operation keeps what is before the patch's
-- position, inserts the patch's text if the patch deletes nothing, and goes on behind the deleted part.
pub data_of_lem :
    (txns : List TraceExportTxn)
    → IsTrace 0 txns
    → (s : OperationData) × (data_of txns ≡ done s)
      × IsGraph s.graph
      × HasSortedParents s
      × (s.graph.entries ≡ entries_of 0 txns)
      × AreChunks txns s.ops
unfolding data_of new
data_of_lem txns t =
    let (g, e, h, k, es) =
      graph_loop_lem 0 txns new (unfold new in refl) new-IsGraph (λ i e at. absurd (ground arith))
        t in
    let (chunks, d, are) = chunks_lem 0 txns t in
    (record { graph = g; ops = chunks }, rw (e, d) refl, h, k, es, are)
