-- ===== src/OtBench/Replay/Entries.antt =====
-- The entries of the graph that the replay in tools/ot-bench/src/main.rs looks up.
use egwalker_paper.Base.{
  ℕ, zero, suc, ◌<◌, ◌≡◌, refl, List, [], ◌∷◌, Option, none, some, get_elem?, length, arith,
}
use egwalker_paper.Base.Panic.{Outcome, done, panic}
use egwalker_paper.OtBench.Frontier.{Frontier, advance_by_known_run}
use egwalker_paper.OtBench.Frontier.Advance.{IsSorted}
use egwalker_paper.OtBench.Frontier.Sorted.{advance-IsSorted}
use egwalker_paper.OtBench.Graph.{CausalGraph, GraphEntryInternal, index_entry, advance_by}
use egwalker_paper.OtBench.Replay.{OperationData}
use egwalker_paper.DiamondTypes.Frontier.Uncovered.{IsMinimal}
use egwalker_paper.OtBench.Replay.Plain.{bind_elim}

pub index_done :
    (es : List GraphEntryInternal) (i : ℕ) (e : GraphEntryInternal)
    → index_entry es i ≡ done e
    → get_elem? es i ≡ some e
unfolding index_entry
index_done es i e h = go (get_elem? es i) h
  where
    go :
        (o : Option GraphEntryInternal)
        → elim o as (λ x. Outcome GraphEntryInternal) [ none ↦ panic | some e ↦ done e ] ≡ done e
        → o ≡ some e
    go none k = absurd cc
    go (some x) k = cc

pub advance_by-IsSorted :
    (g : CausalGraph) (i : ℕ) (f r : Frontier) → IsSorted f → advance_by g i f ≡ done r → IsSorted r
unfolding advance_by
advance_by-IsSorted g i f r s h =
    bind_elim (index_entry g.entries i) _ r (λ entry e. advance-IsSorted i entry.parents f r s) h

-- The parents of each version are a sorted list.
abbrev pub HasSortedParents : OperationData → Type 0
HasSortedParents s =
    (i : ℕ) (e : GraphEntryInternal) → get_elem? s.graph.entries i ≡ some e → IsSorted e.parents

-- The parents of each version are a frontier: sorted, and none in the history of another.
abbrev pub HasFrontierParents : OperationData → Type 0
HasFrontierParents s =
    (i : ℕ) (e : GraphEntryInternal)
    → get_elem? s.graph.entries i ≡ some e
    → IsSorted e.parents × IsMinimal s.graph.entries e.parents

pub entry_at :
    (es : List GraphEntryInternal) (i : ℕ)
    → i < length es
    → (e : GraphEntryInternal) × (get_elem? es i ≡ some e)
entry_at [] i h = absurd (omega arith)
entry_at (e ∷ es) zero h = (e, refl)
entry_at (e ∷ es) (suc i) h = entry_at es i (omega arith)

index_some :
    (es : List GraphEntryInternal) (i : ℕ) (e : GraphEntryInternal)
    → get_elem? es i ≡ some e
    → index_entry es i ≡ done e
unfolding index_entry
index_some es i e h = rw (h, index_entry) refl

pub advance_by_lem :
    (g : CausalGraph) (j : ℕ) (e : GraphEntryInternal) (f r : Frontier)
    → get_elem? g.entries j ≡ some e
    → advance_by_known_run j e.parents f ≡ done r
    → advance_by g j f ≡ done r
unfolding advance_by
advance_by_lem g j e f r at h = rw (index_some g.entries j e at) h
