-- ===== src/OtBench/Examples.antt =====
-- Runs of the definitions for tools/ot-bench on small inputs, and the theorems at such inputs.
use egwalker_paper.Base.{
  ℕ, zero, suc, ◌<◌, some, All, ◌≡◌, refl, sym, true, not, ◌&&◌, ◌||◌, ◌==◌, List, [], ◌∷◌, ◌++◌,
  length, take, drop, arith, contains,
}
use egwalker_paper.Base.Panic.{done}
use egwalker_paper.OtBench.Frontier.{Frontier, advance_by_known_run}
use egwalker_paper.OtBench.Frontier.Advance.{IsSorted, advance_lem}
use egwalker_paper.OtBench.Graph.{GraphEntryInternal, CausalGraph, DiffResult, diff, push}
use egwalker_paper.OtBench.Graph.Ancestors.{IsCausal}
use egwalker_paper.OtBench.Graph.Diff.{IsDiff, diff_lem}
use egwalker_paper.OtBench.Graph.Push.{IsGraph, push_lem}
use egwalker_paper.OtBench.TextOp.{TextOp, skip, del, ins}
use egwalker_paper.OtBench.TextOp.Strings.{StrIndices, byte_len}
use egwalker_paper.OtBench.TextOp.Edits.{apply_edits, Fits, xf}
use egwalker_paper.OtBench.TextOp.Expand.{expand}
use egwalker_paper.OtBench.TextOp.Iterate.{transform1, transform2}
use egwalker_paper.OtBench.TextOp.Iterate.Transform.{transform1_lem}
use egwalker_paper.OtBench.Document.{Rope, apply}
use egwalker_paper.OtBench.Document.Apply.{chars-apply}
use egwalker_paper.OtBench.Document.Converge.{transform2_converges}

-- `str_indices` and the rope over plain lists.
abbrev pub plain_indices : StrIndices
plain_indices = record {
  count = λ s. length s;
  to_byte_idx = λ s n. byte_len (take n s);
  count_lem = λ s. refl;
  to_byte_idx_lem = λ s n h. refl;
}

abbrev pub plain_rope : Rope
plain_rope = record {
  Text = List ℕ;
  chars = λ doc. doc;
  new = [];
  remove = λ start end doc. take start doc ++ drop end doc;
  insert = λ pos s doc. take pos doc ++ (s ++ drop pos doc);
  chars-new = refl;
  chars-remove = λ start end doc h k. refl;
  chars-insert = λ pos s doc h. refl;
}

advance_lem_example :
    (r : Frontier) × (advance_by_known_run 5 (1 ∷ []) (1 ∷ 2 ∷ []) ≡ done r)
    × IsSorted r
    × ((y : ℕ)
        → contains r y ≡ ((5 == y) || (contains (1 ∷ 2 ∷ []) y && not (contains (1 ∷ []) y))))
advance_lem_example = advance_lem 5 (1 ∷ []) (1 ∷ 2 ∷ []) (omega arith) refl

-- Two concurrent versions on top of the first.
abbrev pub fork : CausalGraph
fork = record {
  entries =
      record { idx = 0; parents = [] }
      ∷ record { idx = 1; parents = 0 ∷ [] }
      ∷ record { idx = 2; parents = 0 ∷ [] }
      ∷ [];
  frontier = 1 ∷ 2 ∷ [];
}

same_parents :
    (P : ℕ → Type 0) (d e : GraphEntryInternal)
    → some d ≡ some e
    → All P d.parents
    → All P e.parents
same_parents P d e h k = let same : d ≡ e = cc in rw (sym same) k

pub fork-IsCausal : IsCausal fork.entries
fork-IsCausal zero e h = same_parents (λ p. p < 0) (record { idx = 0; parents = [] }) e h tt
fork-IsCausal (suc zero) e h =
    same_parents (λ p. p < 1) (record { idx = 1; parents = 0 ∷ [] }) e h (omega arith, tt)
fork-IsCausal (suc (suc zero)) e h =
    same_parents (λ p. p < 2) (record { idx = 2; parents = 0 ∷ [] }) e h (omega arith, tt)
fork-IsCausal (suc (suc (suc v))) e h = absurd (ground arith)

fork-IsGraph : IsGraph fork
fork-IsGraph = record { causal = fork-IsCausal; sorted = omega arith; heads = λ x. ground arith }

diff_lem_example :
    (r : DiffResult) × (diff fork (1 ∷ []) (2 ∷ []) ≡ done r)
    × IsDiff fork.entries (1 ∷ []) (2 ∷ []) r
diff_lem_example = diff_lem fork (1 ∷ []) (2 ∷ []) fork-IsCausal (omega arith, tt) (omega arith, tt)

push_lem_example :
    (g : CausalGraph) × (push 3 (1 ∷ 2 ∷ []) fork ≡ done g)
    × (g.entries ≡ fork.entries ++ (record { idx = 3; parents = 1 ∷ 2 ∷ [] } ∷ []))
    × IsGraph g
push_lem_example = push_lem fork (1 ∷ 2 ∷ []) fork-IsGraph (omega arith, (omega arith, tt))

-- Delete the second of three characters and insert before it, against an insertion there.
abbrev op_a : TextOp
op_a = skip 1 ∷ ins (7 ∷ []) ∷ del 1 ∷ []

abbrev op_b : TextOp
op_b = skip 1 ∷ ins (8 ∷ 9 ∷ []) ∷ []

transform1_lem_example :
    (r : TextOp) × (transform1 ⦃ix = plain_indices⦄ op_a op_b true ≡ done r)
    × ((doc : List ℕ)
        → apply_edits (expand r) doc ≡ apply_edits (xf true (expand op_a) (expand op_b)) doc)
    × ((doc : List ℕ) → Fits (xf true (expand op_a) (expand op_b)) doc → Fits (expand r) doc)
transform1_lem_example = transform1_lem ⦃ix = plain_indices⦄ op_a op_b true (omega arith)

chars-apply_example :
    apply ⦃ix = plain_indices⦄ plain_rope op_a (1 ∷ 2 ∷ 3 ∷ [])
    ≡ apply_edits (expand op_a) (1 ∷ 2 ∷ 3 ∷ [])
chars-apply_example = chars-apply ⦃ix = plain_indices⦄ plain_rope op_a (1 ∷ 2 ∷ 3 ∷ []) tt

transform2_converges_example :
    (a' : TextOp) × (b' : TextOp) × (transform2 ⦃ix = plain_indices⦄ op_a op_b true ≡ done (a', b'))
    × (apply ⦃ix = plain_indices⦄ plain_rope b'
          (apply ⦃ix = plain_indices⦄ plain_rope op_a (1 ∷ 2 ∷ 3 ∷ []))
        ≡ apply ⦃ix = plain_indices⦄ plain_rope a'
            (apply ⦃ix = plain_indices⦄ plain_rope op_b (1 ∷ 2 ∷ 3 ∷ [])))
transform2_converges_example =
    transform2_converges ⦃ix = plain_indices⦄ plain_rope op_a op_b true (1 ∷ 2 ∷ 3 ∷ [])
      (omega arith) (omega arith) tt tt
