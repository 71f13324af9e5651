-- ===== src/OtBench/Replay/Plain.antt =====
-- The replay of tools/ot-bench/src/main.rs without its memo, the reference for the one with it.
use egwalker_paper.Base.{
  ℕ, zero, suc, ◌+◌, ◌≤◌, ◌≡◌, refl, Bool, true, false, List, [], ◌∷◌, ltb, slice_eq, arith,
}
use egwalker_paper.Base.Panic.{Outcome, done, panic, stuck, ◌>>=◌}
use egwalker_paper.OtBench.Frontier.{Frontier, root}
use egwalker_paper.OtBench.Graph.{CausalGraph, GraphEntryInternal, index_entry, advance_by, diff}
use egwalker_paper.OtBench.TextOp.{TextOp}
use egwalker_paper.OtBench.TextOp.Strings.{StrIndices}
use egwalker_paper.OtBench.TextOp.Iterate.{transform_list}
use egwalker_paper.OtBench.Document.{Rope, apply_all}
use egwalker_paper.OtBench.Replay.{OpChunk, OperationData, index_chunk, assert_empty, assert_same}

-- What a chain of steps that returns a result began with.
pub bind_elim {ℓ κ μ} :
    {A : Type ℓ} {B : Type κ} {G : Type μ} (m : Outcome A) (f : A → Outcome B) (b : B)
    → ((a : A) → m ≡ done a → f a ≡ done b → G)
    → (m >>= f) ≡ done b
    → G
bind_elim (done a) f b k h = k a refl h
bind_elim panic f b k h = absurd cc
bind_elim stuck f b k h = absurd cc

abbrev pub Lookup : Type 0
Lookup = ℕ → List ℕ → Outcome (List TextOp)

-- An assertion of the code, or none.
unfoldable pub assert_if : Bool → Outcome (Unit {0}) → Outcome (Unit {0})
assert_if true assertion = assertion
assert_if false assertion = done tt

module _ ⦃ix : StrIndices⦄ where
  unfoldable pub plain_loop :
      Lookup → CausalGraph → ℕ → List ℕ → Frontier → List TextOp → Outcome (Frontier × List TextOp)
  plain_loop lookup graph i [] parent_version ops = done (parent_version, ops)
  plain_loop lookup graph i (other_idx ∷ added) parent_version ops = do
    other ← lookup other_idx parent_version
    ops' ← transform_list ops other (ltb other_idx i)
    parent_version' ← advance_by graph other_idx parent_version
    plain_loop lookup graph i added parent_version' ops'

  unfoldable pub plain_branch :
      Bool
      → Lookup
      → OperationData
      → ℕ
      → List ℕ
      → OpChunk
      → GraphEntryInternal
      → Bool
      → Outcome (List TextOp)
  plain_branch checked lookup s i v chunk entry true = done chunk.ops
  plain_branch checked lookup s i v chunk entry false = do
    (a_only, added) ← diff s.graph entry.parents v
    u ← assert_if checked (assert_empty a_only)
    (parent_version, ops) ← plain_loop lookup s.graph i added entry.parents chunk.ops
    w ← assert_if checked (assert_same parent_version v)
    done ops

  -- A version's operations, transformed to another version.
  unfoldable pub ops_at_version : Bool → ℕ → OperationData → Lookup
  ops_at_version checked zero s i v = stuck
  ops_at_version checked (suc fuel) s i v = do
    chunk ← index_chunk s.ops i
    entry ← index_entry s.graph.entries i
    plain_branch checked (ops_at_version checked fuel s) s i v chunk entry
        (slice_eq v entry.parents)

  -- A lookup that answers at least where another does, and the same.
  abbrev pub Extends : Lookup → Lookup → Type 0
  Extends more less =
      (i : ℕ) (v : List ℕ) (ops : List TextOp) → less i v ≡ done ops → more i v ≡ done ops

  module _ (checked : Bool) (more less : Lookup) (x : Extends more less) where
    plain_loop-Extends :
        (graph : CausalGraph) (i : ℕ) (added : List ℕ) (pv : Frontier) (ops : List TextOp)
        (r : Frontier × List TextOp)
        → plain_loop less graph i added pv ops ≡ done r
        → plain_loop more graph i added pv ops ≡ done r
    unfolding plain_loop
    plain_loop-Extends graph i [] pv ops r h = h
    plain_loop-Extends graph i (j ∷ js) pv ops r h =
        bind_elim (less j pv) _ r
          (λ other e1. bind_elim (transform_list ops other (ltb j i)) _ r (λ ops' e2.
            bind_elim (advance_by graph j pv) _ r (λ pv' e3 h'.
              rw (x j pv other e1, e2, e3) (plain_loop-Extends graph i js pv' ops' r h'))))
          h

    plain_branch-Extends :
        (s : OperationData) (i : ℕ) (v : List ℕ) (chunk : OpChunk) (entry : GraphEntryInternal)
        (b : Bool) (r : List TextOp)
        → plain_branch checked less s i v chunk entry b ≡ done r
        → plain_branch checked more s i v chunk entry b ≡ done r
    unfolding plain_branch
    plain_branch-Extends s i v chunk entry true r h = h
    plain_branch-Extends s i v chunk entry false r h =
        bind_elim (diff s.graph entry.parents v) _ r
          (λ found e1. bind_elim (assert_if checked (assert_empty found.0)) _ r (λ u e2.
            bind_elim (plain_loop less s.graph i found.1 entry.parents chunk.ops) _ r (λ q e3 h'.
              rw (e1, e2, plain_loop-Extends s.graph i found.1 entry.parents chunk.ops q e3) h')))
          h

  -- More fuel gives the same operations.
  pub ops_at_version-Extends :
      (checked : Bool) (s : OperationData) (f g : ℕ)
      → f ≤ g
      → Extends (ops_at_version checked g s) (ops_at_version checked f s)
  unfolding ops_at_version
  ops_at_version-Extends checked s zero g l i v r h = absurd cc
  ops_at_version-Extends checked s (suc f) zero l i v r h = absurd (omega arith)
  ops_at_version-Extends checked s (suc f) (suc g) l i v r h =
      bind_elim (index_chunk s.ops i) _ r
        (λ chunk e1. bind_elim (index_entry s.graph.entries i) _ r (λ entry e2 h'.
          rw (e1, e2)
            (plain_branch-Extends checked (ops_at_version checked g s) (ops_at_version checked f s)
              (ops_at_version-Extends checked s f g (omega arith)) s i v chunk entry
              (slice_eq v entry.parents) r h')))
        h

  pub same_ops :
      (checked : Bool) (s : OperationData) (f g i : ℕ) (v : List ℕ) (a b : List TextOp)
      → ops_at_version checked f s i v ≡ done a
      → ops_at_version checked g s i v ≡ done b
      → a ≡ b
  same_ops checked s f g i v a b h k =
      let h' = ops_at_version-Extends checked s f (f + g) (omega arith) i v a h in
      let k' = ops_at_version-Extends checked s g (f + g) (omega arith) i v b k in cc

module _ ⦃ix : StrIndices⦄ (rope : Rope) where
  open rope use {Text}

  unfoldable pub plain_replay : Lookup → CausalGraph → List ℕ → Frontier → Text → Outcome Text
  plain_replay lookup graph [] doc_version doc = done doc
  plain_replay lookup graph (i ∷ idxs) doc_version doc = do
    ops ← lookup i doc_version
    doc_version' ← advance_by graph i doc_version
    plain_replay lookup graph idxs doc_version' (apply_all rope ops doc)

  -- The document of a version, with some fuel.
  unfoldable pub plain_doc : Bool → ℕ → OperationData → List ℕ → Outcome Text
  plain_doc checked fuel s v = do
    (a_only, idxs) ← diff s.graph [] v
    plain_replay (ops_at_version checked fuel s) s.graph idxs root rope.new

  plain_replay-Extends :
      (more less : Lookup) (graph : CausalGraph) (idxs : List ℕ) (dv : Frontier) (doc r : Text)
      → Extends more less
      → plain_replay less graph idxs dv doc ≡ done r
      → plain_replay more graph idxs dv doc ≡ done r
  unfolding plain_replay
  plain_replay-Extends more less graph [] dv doc r x h = h
  plain_replay-Extends more less graph (i ∷ idxs) dv doc r x h =
      bind_elim (less i dv) _ r
        (λ ops e1. bind_elim (advance_by graph i dv) _ r (λ dv' e2 h'.
          rw (x i dv ops e1, e2)
            (plain_replay-Extends more less graph idxs dv' (apply_all rope ops doc) r x h')))
        h

  pub plain_doc-more :
      (checked : Bool) (s : OperationData) (v : List ℕ) (f g : ℕ) (r : Text)
      → f ≤ g
      → plain_doc checked f s v ≡ done r
      → plain_doc checked g s v ≡ done r
  unfolding plain_doc
  plain_doc-more checked s v f g r l h =
      bind_elim (diff s.graph [] v) _ r
        (λ found e h'. rw e (
          plain_replay-Extends (ops_at_version checked g s) (ops_at_version checked f s) s.graph
            found.1 root rope.new r (ops_at_version-Extends checked s f g l) h'))
        h
