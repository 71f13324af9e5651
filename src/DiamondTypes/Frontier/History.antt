-- ===== src/DiamondTypes/Frontier/History.antt =====
-- What a frontier of tools/diamond-types/src/frontier.rs stands for: its versions and their histories in
-- the graph. One run of the graph, and `advance_by_known_run`.
use egwalker_paper.Base.{
  ℕ, suc, ◌+◌, ◌-◌, ◌≤◌, ◌<◌, ◌≡◌, refl, sym, subst, ◌∙◌, ◌⊎◌, ◌↔◌, inl, inr, true, false, not,
  ◌&&◌, ◌||◌, List, some, leb, ◌==◌, ==_iff, contains, get_elem?, arith, Bool-cases, All,
}
use egwalker_paper.Base.Panic.{Outcome, done, checked_sub_lem}
use egwalker_paper.OtBench.Graph.{GraphEntryInternal as Version}
use egwalker_paper.OtBench.Frontier.{Frontier}
use egwalker_paper.OtBench.Frontier as Simple
use egwalker_paper.OtBench.Frontier.Advance.{IsSorted, advance_lem}
use egwalker_paper.OtBench.Graph.Ancestors.{Anc, self, up, AncOf, Anc-le, Anc-parents, All-contains}
use egwalker_paper.DiamondTypes.DtRange.{DtRange}
use egwalker_paper.DiamondTypes.DtRange
use egwalker_paper.DiamondTypes.Graph.{GraphEntryInternal, parents_at}
use egwalker_paper.DiamondTypes.Graph.Expand.{expand}
use egwalker_paper.DiamondTypes.Graph.Runs.{
  IsDag, Has, version_at, run_Anc, run_history, dag-IsCausal, Anc-trans,
}
use egwalker_paper.DiamondTypes.Frontier.{advance_by_known_run}

-- For a run whose versions the frontier does not hold, the two models' functions agree.
pub known_run_eq :
    (parents : List ℕ) (span : DtRange) (f : Frontier) (l : ℕ)
    → DtRange.last span ≡ done l
    → contains f l ≡ false
    → contains f span.start ≡ false
    → advance_by_known_run parents span f ≡ Simple.advance_by_known_run l parents f
unfolding advance_by_known_run Simple.advance_by_known_run
known_run_eq parents span f l e h k = rw (e, h, k) refl

module _ (es : List GraphEntryInternal) where
  -- The parents of the range's versions are in the frontier's history or in the range.
  abbrev pub IsClosed : Frontier → ℕ → ℕ → Type 0
  IsClosed f start end =
      (x : ℕ) (d : Version)
      → start ≤ x
      → x < end
      → get_elem? (expand es) x ≡ some d
      → All (λ p. AncOf (expand es) f p ⊎ (start ≤ p)) d.parents

  -- None of the range's versions is in the frontier's history.
  abbrev pub IsNew : Frontier → ℕ → ℕ → Type 0
  IsNew f start end = (x : ℕ) → start ≤ x → x < end → ¬ AncOf (expand es) f x

  abbrev pub Advanced : Outcome Frontier → Frontier → ℕ → ℕ → Type 0
  Advanced o f start end =
      (r : Frontier) × (o ≡ done r)
      × IsSorted r
      × ((x : ℕ) → AncOf (expand es) r x ↔ (AncOf (expand es) f x ⊎ ((start ≤ x) × (x < end))))

module _ (es : List GraphEntryInternal) (hi : ℕ) (dag : IsDag es hi) where
  module _ (i : ℕ) (e : GraphEntryInternal) (g : get_elem? es i ≡ some e) where
    -- The history of a run's last version is the run from `s` on, and the history of what `s` has
    -- for parents.
    pub run_part :
        (s l x : ℕ)
        → Has e s
        → Has e l
        → s ≤ l
        → Anc (expand es) l x ↔ (((s ≤ x) × (x ≤ l)) ⊎ AncOf (expand es) (parents_at e s) x)
    run_part s l x c d m =
        let chain : (u v : ℕ) → Has e v → e.span.start ≤ u → u ≤ v → Anc (expand es) v u =
          λ u v c' k n.
            (let z : u + (v - u) ≡ v = omega arith in
              rw z at (run_Anc es hi dag i e g (v - u) u (rw z c') k)) in
        let at = version_at es hi dag i e s g c in
        (
          λ a. elim (Bool-cases (leb s x)) [
            | inl in_run ↦
                inl (ground (arith, in_run), Anc-le (expand es) (dag-IsCausal es hi dag) a)
            | inr before ↦
                let x_lt : x < s = ground (arith, before) in
                let a' : Anc (expand es) s x = elim (Bool-cases (leb e.span.start x)) [
                  | inl inside ↦ chain x s c (ground (arith, inside)) (omega arith)
                  | inr outside ↦
                      let k : x < e.span.start = ground (arith, outside) in
                      (run_history es hi dag i e g s x c k).1
                        ((run_history es hi dag i e g l x d k).0 a)
                ] in
                inr (
                  Anc-parents (expand es) (dag-IsCausal es hi dag)
                    (record { idx = s; parents = parents_at e s }) at x_lt a')
          ],
          elim [
            | inl (k, n) ↦ chain x l d (omega (arith, c.0, k)) n
            | inr (p, h, a) ↦
                Anc-trans (chain s l d (c.0) m)
                  (up (record { idx = s; parents = parents_at e s }) p at h a)
          ],
        )

    module _ (f : Frontier) (s l : ℕ) (c : Has e s) (d : Has e l) (m : s ≤ l) where
      abbrev parents : List ℕ
      parents = parents_at e s

      -- The frontier that has the run's last version, and the old ones but the parents.
      advanced_history :
          (r : Frontier)
          → All (λ p. AncOf (expand es) f p) parents
          → ((y : ℕ) → contains r y ≡ ((l == y) || (contains f y && not (contains parents y))))
          → (x : ℕ) → AncOf (expand es) r x ↔ (AncOf (expand es) f x ⊎ ((s ≤ x) × (x ≤ l)))
      advanced_history r k holds x =
          let run = run_part s l x c d m in
          let last_in : contains r l ≡ true = ground (arith, holds l, (==_iff l l).1 refl) in
          (
            λ (p, h, a). elim (Bool-cases (l == p)) [
              | inl e' ↦
                  let a' : Anc (expand es) l x =
                    subst (λ q. Anc (expand es) q x) (sym ((==_iff l p).0 e')) a in
                  elim (run.0 a') [
                    | inl in_run ↦ inr in_run
                    | inr (q, h', b) ↦
                        let (p', k', b') =
                          All-contains (λ v. AncOf (expand es) f v) parents q k h' in
                        inl (p', k', Anc-trans b' b)
                  ]
              | inr e' ↦ inl (p, ground (arith, h, holds p, e'), a)
            ],
            elim [
              | inl (p, h, a) ↦ elim (Bool-cases (contains parents p)) [
                | inl old ↦ (l, last_in, run.1 (inr (p, old, a)))
                | inr kept ↦ (p, ground (arith, holds p, kept, h), a)
              ]
              | inr in_run ↦ (l, last_in, run.1 (inl in_run))
            ],
          )

      -- One run adds its versions to what the frontier stands for.
      pub known_run_lem :
          IsSorted f
          → (¬ AncOf (expand es) f s)
          → All (λ p. AncOf (expand es) f p) parents
          → (r : Frontier) × (advance_by_known_run parents (record { start = s; end = suc l }) f
              ≡ done r)
            × IsSorted r
            × ((x : ℕ) → AncOf (expand es) r x ↔ (AncOf (expand es) f x ⊎ ((s ≤ x) × (x ≤ l))))
      unfolding DtRange.last
      known_run_lem sorted out k =
          let fresh : contains f l ≡ false = elim (Bool-cases (contains f l)) [
            | inl h ↦ absurd (out (l, h, (run_part s l s c d m).1 (inl (omega arith, m))))
            | inr h ↦ h
          ] in
          let fresh_s : contains f s ≡ false = elim (Bool-cases (contains f s)) [
            | inl h ↦ absurd (out (s, h, self))
            | inr h ↦ h
          ] in
          let (r, e', s', holds) = advance_lem l parents f sorted fresh in
          let last : DtRange.last (record { start = s; end = suc l }) ≡ done l =
            checked_sub_lem (suc l) 1 l (omega arith) in
          (
            r,
            known_run_eq parents (record { start = s; end = suc l }) f l last fresh fresh_s ∙ e',
            s',
            advanced_history r k holds,
          )
