-- ===== src/OtBench/Replay/Examples.antt =====
-- The theorems on the replay of tools/ot-bench/src/main.rs at a trace with two concurrent insertions.
use egwalker_paper.Base.{ℕ, zero, suc, ◌≡◌, refl, some, List, [], ◌∷◌, arith, false, subst}
use egwalker_paper.Base.Panic.{done, checked_sub}
use egwalker_paper.OtBench.Frontier.{
  root, replace_with_1, advance_by_known_run, shift_search, binary_search, insert_at,
  insert_nonoverlapping, retain_not_in,
}
use egwalker_paper.OtBench.Frontier.Advance.{IsSorted}
use egwalker_paper.OtBench.Graph.{
  GraphEntryInternal, index_entry, advance_by, queue_push, push_all, take_shared, absorb, diff_loop,
  diff_rev, diff,
}
use egwalker_paper.OtBench.TextOp.{
  skip, ins, count, is_noop, pre_len, post_len, ctx_len, slice, merge_component, push_component,
  append_move, trim_component, trim,
}
use egwalker_paper.OtBench.TextOp.Strings.{byte_len, slice_from, slice_to}
use egwalker_paper.OtBench.TextOp.Iterate.{
  iter, next_from, next, is_end, append_remainder, keep_chunk, keep_insert, pre_loop,
  transform_component, transform_loop, transform1, transform2, transform_over, transform_list,
}
use egwalker_paper.OtBench.Document.{apply_loop, apply, apply_all}
use egwalker_paper.OtBench.Examples.{plain_indices, plain_rope, fork, fork-IsCausal}
use egwalker_paper.OtBench.Replay.{
  OperationData, TraceExportTxn, data_of, doc_at_version, index_chunk,
}
use egwalker_paper.OtBench.Replay.Plain.{
  plain_loop, plain_branch, assert_if, ops_at_version, plain_replay, plain_doc,
}
use egwalker_paper.OtBench.Replay.Entries.{HasSortedParents, HasFrontierParents}
use egwalker_paper.OtBench.Replay.Enough.{doc_at_version_lem}
use egwalker_paper.OtBench.Replay.Load.{entries_of, AreChunks, data_of_lem}
use egwalker_paper.OtBench.Graph.Push.{IsGraph}
use egwalker_paper.DiamondTypes.Frontier.Uncovered.{IsMinimal}
use egwalker_paper.DiamondTypes.Frontier.Round.{one-IsMinimal}

abbrev fork_data : OperationData
fork_data = record {
  graph = fork;
  ops =
      record { agent = 0; ops = (ins (65 ∷ []) ∷ []) ∷ [] }
      ∷ record { agent = 0; ops = (skip 1 ∷ ins (66 ∷ []) ∷ []) ∷ [] }
      ∷ record { agent = 1; ops = (skip 1 ∷ ins (67 ∷ []) ∷ []) ∷ [] }
      ∷ [];
}

plain_fork :
    plain_doc ⦃ix = plain_indices⦄ plain_rope false 9 fork_data (1 ∷ 2 ∷ [])
    ≡ done (65 ∷ 67 ∷ 66 ∷ [])
unfolding plain_doc plain_replay ops_at_version plain_branch plain_loop assert_if index_chunk
    index_entry advance_by diff diff_rev diff_loop absorb take_shared push_all queue_push
    advance_by_known_run replace_with_1 insert_nonoverlapping binary_search shift_search insert_at
    retain_not_in root transform_list transform_over transform2 transform1 transform_loop
    transform_component pre_loop keep_chunk keep_insert append_remainder is_end next next_from iter
    checked_sub slice merge_component push_component append_move trim_component trim is_noop count
    pre_len post_len ctx_len byte_len slice_from slice_to apply_loop apply apply_all
plain_fork = refl

of_same :
    (P : List ℕ → Type 0) (d e : GraphEntryInternal) → some d ≡ some e → P d.parents → P e.parents
of_same P d e h k = let same : d ≡ e = cc in subst (λ x. P x.parents) same k

abbrev IsFrontierOfFork : List ℕ → Type 0
IsFrontierOfFork ps = IsSorted ps × IsMinimal fork.entries ps

fork-HasFrontierParents : HasFrontierParents fork_data
fork-HasFrontierParents zero e h =
    of_same IsFrontierOfFork (record { idx = 0; parents = [] }) e h (tt, λ p q c. absurd cc)
fork-HasFrontierParents (suc zero) e h =
    of_same IsFrontierOfFork (record { idx = 1; parents = 0 ∷ [] }) e h
      ((tt, tt), one-IsMinimal fork.entries 0)
fork-HasFrontierParents (suc (suc zero)) e h =
    of_same IsFrontierOfFork (record { idx = 2; parents = 0 ∷ [] }) e h
      ((tt, tt), one-IsMinimal fork.entries 0)
fork-HasFrontierParents (suc (suc (suc v))) e h = absurd (ground arith)

doc_at_version_lem_example :
    doc_at_version ⦃ix = plain_indices⦄ plain_rope fork_data (1 ∷ 2 ∷ []) ≡ done (65 ∷ 67 ∷ 66 ∷ [])
doc_at_version_lem_example =
    doc_at_version_lem ⦃ix = plain_indices⦄ fork_data fork-IsCausal fork-HasFrontierParents
      plain_rope (1 ∷ 2 ∷ []) (omega arith, (omega arith, tt)) 9 (65 ∷ 67 ∷ 66 ∷ []) plain_fork

abbrev fork_trace : List TraceExportTxn
fork_trace =
    record {
      parents = [];
      agent = 0;
      patches = record { pos = 0; del_len = 0; ins_content = 65 ∷ [] } ∷ [];
    }
    ∷ record {
      parents = 0 ∷ [];
      agent = 0;
      patches = record { pos = 1; del_len = 0; ins_content = 66 ∷ [] } ∷ [];
    }
    ∷ record {
      parents = 0 ∷ [];
      agent = 1;
      patches = record { pos = 1; del_len = 0; ins_content = 67 ∷ [] } ∷ [];
    }
    ∷ []

data_of_lem_example :
    (s : OperationData) × (data_of fork_trace ≡ done s)
    × IsGraph s.graph
    × HasSortedParents s
    × (s.graph.entries ≡ entries_of 0 fork_trace)
    × AreChunks fork_trace s.ops
data_of_lem_example = data_of_lem fork_trace (
  tt,
  tt,
  (omega arith, tt),
  (
    (omega arith, tt),
    (tt, tt),
    (omega arith, tt),
    ((omega arith, tt), (tt, tt), (omega arith, tt), tt),
  ),
)
