-- ===== src/OtBench/Replay.antt =====
-- Of tools/ot-bench/src/main.rs: traces, and the document of a version by transforming each operation
-- to the version it is applied at. `HashMap` is a list of pairs, the newest first. A call of a
-- closure on the operations is the value that the closure gets. The recursion takes fuel: a
-- call inside another is at a version with fewer versions in its history.
pub mod Plain
pub mod Entries
pub mod Count
pub mod Memo
pub mod Reached
pub mod Enough
pub mod Load
mod Examples
use egwalker_paper.Base.{
  ℕ, zero, suc, Bool, true, false, ◌&&◌, List, [], ◌∷◌, Option, none, some, ltb, ◌==◌, length,
  get_elem?, slice_eq, if◌then◌else◌,
}
use egwalker_paper.Base.Panic.{Outcome, done, panic, stuck, ◌>>=◌}
use egwalker_paper.OtBench.Frontier.{Frontier, root, from_unsorted}
use egwalker_paper.OtBench.Graph.{
  CausalGraph, GraphEntryInternal, new, push, index_entry, advance_by, diff,
}
use egwalker_paper.OtBench.TextOp.{TextOp}
use egwalker_paper.OtBench.TextOp.Strings.{StrIndices}
use egwalker_paper.OtBench.TextOp.Iterate.{transform_list}
use egwalker_paper.OtBench.Document.{Rope, SimpleTextOp, text_op_of, apply_all}

-- The fields of a transaction that the replay reads.
pub record TraceExportTxn : Type 0 where
  pub parents : List ℕ
  pub agent : ℕ
  pub patches : List SimpleTextOp

pub record OpChunk : Type 0 where
  pub agent : ℕ
  pub ops : List TextOp

-- The causal graph and the operations of each version, the fields that the replay reads.
pub record OperationData : Type 0 where
  pub graph : CausalGraph
  pub ops : List OpChunk

pub ops_of : List SimpleTextOp → Outcome (List TextOp)
ops_of [] = done []
ops_of (patch ∷ patches) = do op ← text_op_of patch; ops ← ops_of patches; done (op ∷ ops)

pub chunk_of : TraceExportTxn → Outcome OpChunk
chunk_of txn = do ops ← ops_of txn.patches; done (record { agent = txn.agent; ops = ops })

pub chunks_of : List TraceExportTxn → Outcome (List OpChunk)
chunks_of [] = done []
chunks_of (txn ∷ txns) = do chunk ← chunk_of txn; chunks ← chunks_of txns; done (chunk ∷ chunks)

pub graph_loop : ℕ → List TraceExportTxn → CausalGraph → Outcome CausalGraph
graph_loop i [] graph = done graph
graph_loop i (txn ∷ txns) graph = do
  graph' ← push i txn.parents graph
  graph_loop (suc i) txns graph'

pub data_of : List TraceExportTxn → Outcome OperationData
data_of txns = do
  graph ← graph_loop 0 txns new
  ops ← chunks_of txns
  done (record { graph = graph; ops = ops })

pub record OpKey : Type 0 where
  pub idx : ℕ
  pub v : Frontier

abbrev pub MemoDict : Type 0
MemoDict = List (OpKey × List TextOp)

pub memo_get : MemoDict → OpKey → Option (List TextOp)
memo_get [] key = none
memo_get ((k, ops) ∷ memo) key =
    if (k.idx == key.idx) && slice_eq k.v key.v then some ops else memo_get memo key

pub memo_insert : OpKey → List TextOp → MemoDict → MemoDict
memo_insert key ops memo = (key, ops) ∷ memo

pub index_chunk : List OpChunk → ℕ → Outcome OpChunk
index_chunk ops i = elim (get_elem? ops i) [ none ↦ panic | some c ↦ done c ]

-- `debug_assert!(a_only.is_empty())`
unfoldable pub assert_empty : List ℕ → Outcome (Unit {0})
assert_empty [] = done tt
assert_empty (x ∷ xs) = panic

-- `debug_assert_eq!(parent_version.0.as_slice(), v)`
unfoldable pub assert_same : List ℕ → List ℕ → Outcome (Unit {0})
assert_same parent_version v = if slice_eq parent_version v then done tt else panic

pub key_of : ℕ → List ℕ → OpKey
key_of i v = record { idx = i; v = from_unsorted v }

-- A function that gives a version's operations at a version, with the memo.
abbrev pub Borrow : Type 0
Borrow = ℕ → List ℕ → MemoDict → Outcome (List TextOp × MemoDict)

module _ ⦃ix : StrIndices⦄ where
  -- The loop over `added_idx`, which leaves the variables `parent_version`, `ops` and `memo`.
  pub added_loop :
      Borrow
      → CausalGraph
      → ℕ
      → List ℕ
      → Frontier
      → List TextOp
      → MemoDict
      → Outcome (Frontier × List TextOp × MemoDict)
  added_loop borrow graph i [] parent_version ops memo = done (parent_version, ops, memo)
  added_loop borrow graph i (other_idx ∷ added) parent_version ops memo = do
    (other_op_at_p, memo') ← borrow other_idx parent_version memo
    ops' ← transform_list ops other_op_at_p (ltb other_idx i)
    parent_version' ← advance_by graph other_idx parent_version
    added_loop borrow graph i added parent_version' ops' memo'

  -- The branch that calculates the operations.
  pub borrow_computed :
      Borrow
      → OperationData
      → ℕ
      → List ℕ
      → OpChunk
      → GraphEntryInternal
      → MemoDict
      → Outcome (List TextOp × MemoDict)
  borrow_computed borrow s i v chunk entry memo = do
    (a_only, added_idx) ← diff s.graph entry.parents v
    u ← assert_empty a_only
    (parent_version, ops, memo') ←
        added_loop borrow s.graph i added_idx entry.parents chunk.ops memo
    w ← assert_same parent_version v
    done (ops, memo_insert (key_of i v) ops memo')

  -- `if let Some(ops) = memo.get(&key)`
  pub borrow_known :
      Borrow
      → OperationData
      → ℕ
      → List ℕ
      → OpChunk
      → GraphEntryInternal
      → MemoDict
      → Option (List TextOp)
      → Outcome (List TextOp × MemoDict)
  borrow_known borrow s i v chunk entry memo (some ops) = done (ops, memo)
  borrow_known borrow s i v chunk entry memo none = borrow_computed borrow s i v chunk entry memo

  pub borrow_ops_at_version : ℕ → OperationData → Borrow
  borrow_ops_at_version zero s i v memo = stuck
  borrow_ops_at_version (suc fuel) s i v memo = do
    chunk ← index_chunk s.ops i
    entry ← index_entry s.graph.entries i
    if slice_eq v entry.parents
        then done (chunk.ops, memo)
        else borrow_known (borrow_ops_at_version fuel s) s i v chunk entry memo
            (memo_get memo (key_of i v))

module _ ⦃ix : StrIndices⦄ (rope : Rope) where
  open rope use {Text}

  -- The loop over `idxs` with the variables `doc`, `doc_version` and `memo`.
  pub replay_loop : Borrow → CausalGraph → List ℕ → Frontier → Text → MemoDict → Outcome Text
  replay_loop borrow graph [] doc_version doc memo = done doc
  replay_loop borrow graph (i ∷ idxs) doc_version doc memo = do
    (ops, memo') ← borrow i doc_version memo
    doc_version' ← advance_by graph i doc_version
    replay_loop borrow graph idxs doc_version' (apply_all rope ops doc) memo'

  -- A call inside another looks at fewer versions, so fuel for each version and one is enough.
  pub doc_at_version : OperationData → List ℕ → Outcome Text
  doc_at_version s v = do
    (a_only, idxs) ← diff s.graph [] v
    replay_loop (borrow_ops_at_version (suc (length s.graph.entries)) s) s.graph idxs root rope.new
        []
