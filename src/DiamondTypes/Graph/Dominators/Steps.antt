-- ===== src/DiamondTypes/Graph/Dominators/Steps.antt =====
-- The cases of one round of `find_dominators_full_internal` in
-- tools/diamond-types/src/causalgraph/graph/tools.rs, and the call for its first item.
use egwalker_paper.Base.{
  ℕ, suc, ◌<◌, ◌≡◌, refl, ◌⊎◌, ◌↔◌, ◌==◌, ==_iff, inl, inr, true, false, not, ◌&&◌, List, [], ◌∷◌,
  ◌++◌, leb, if◌then◌else◌, contains, All, arith, Bool-cases,
}
use mathlib.Core.Bool.{false≢true}
use egwalker_paper.Base.Panic.{done, ◌>>=◌}
use egwalker_paper.DiamondTypes.RleVec.{usize_max}
use egwalker_paper.DiamondTypes.Graph.{GraphEntryInternal, find_entry}
use egwalker_paper.DiamondTypes.Graph.Tools.{Queue as Heap}
use egwalker_paper.DiamondTypes.Graph.Dominators.{
  Visit, is_input, version, Taken, take_run, push_normal, first_visit, dominator_rounds,
  push_dominators,
}
use egwalker_paper.DiamondTypes.Graph.Dominators.Queue.{inputs}
use egwalker_paper.DiamondTypes.Graph.Dominators.Take.{count_input_lem}

abbrev pub IsFalling : List ℕ → Type 0
IsFalling [] = Unit
IsFalling (x ∷ xs) = All (λ y. y < x) xs × IsFalling xs

abbrev pub here : ℕ → List ℕ
here c = if is_input c then version c ∷ [] else []

pub push-first : (c : ℕ) → push_dominators (first_visit c) ≡ here c
unfolding push_dominators
push-first c = elim (Bool-cases (is_input c)) [ inl t ↦ rw t refl | inr t ↦ rw t refl ]

pub contains-here :
    (c y : ℕ) (rest : List ℕ)
    → (contains (here c ++ rest) y ≡ true)
      ↔ (((is_input c ≡ true) × (version c ≡ y)) ⊎ (contains rest y ≡ true))
contains-here c y rest = elim (Bool-cases (is_input c)) [
  | inl t ↦ rw t (
    λ h. elim (Bool-cases (version c == y)) [
      | inl e ↦ inl (refl, (==_iff (version c) y).0 e)
      | inr e ↦ inr (rw e at h)
    ],
    elim [ inl (_, e) ↦ ground (arith, (==_iff (version c) y).1 e) | inr h ↦ ground (arith, h) ],
  )
  | inr t ↦ rw t (λ h. inr h, elim [ inl (f, _) ↦ absurd (false≢true f) | inr h ↦ h ])
]

pub stop_step :
    (fuel : ℕ) (es : List GraphEntryInternal) (stop c : ℕ) (q : Heap) (last : ℕ)
    (e : GraphEntryInternal)
    → find_entry es (version c) ≡ done e
    → (not (stop == usize_max) && leb e.shadow stop) ≡ true
    → dominator_rounds (suc fuel) es stop (c ∷ q) (inputs (c ∷ q)) last ≡ done (first_visit c)
unfolding dominator_rounds
stop_step fuel es stop c q last e f t = rw (count_input_lem c q, f) (rw (t, ◌>>=◌) refl)

module _ (fuel : ℕ) (es : List GraphEntryInternal) (stop c : ℕ) (q : Heap) (last : ℕ)
    (e : GraphEntryInternal) (t : Taken) (f : find_entry es (version c) ≡ done e)
    (s : (not (stop == usize_max) && leb e.shadow stop) ≡ false)
    (k : take_run e.span.start (if is_input c then version c else last) (inputs q) q ≡ done t) where
  pub last_step :
      (t.inputs_remaining == 0) ≡ true
      → dominator_rounds (suc fuel) es stop (c ∷ q) (inputs (c ∷ q)) last
        ≡ done (first_visit c ++ t.visits)
  unfolding dominator_rounds
  last_step n = rw (count_input_lem c q, f) (rw (s, ◌>>=◌) (rw (k, ◌>>=◌) (rw (n, ◌>>=◌) refl)))

  pub more_step :
      (rest : List Visit)
      → (t.inputs_remaining == 0) ≡ false
      → dominator_rounds fuel es stop
          (push_normal e.parents t.queue)
          t.inputs_remaining
          t.last_emitted
        ≡ done rest
      → dominator_rounds (suc fuel) es stop (c ∷ q) (inputs (c ∷ q)) last
        ≡ done (first_visit c ++ (t.visits ++ rest))
  unfolding dominator_rounds
  more_step rest n r =
      rw (count_input_lem c q, f) (rw (s, ◌>>=◌) (rw (k, ◌>>=◌) (rw (n, ◌>>=◌) (rw r refl))))
