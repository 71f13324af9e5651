-- ===== src/DiamondTypes/Graph/Dominators/Loop.antt =====
-- The outer loop of `find_dominators_full_internal` in
-- tools/diamond-types/src/causalgraph/graph/tools.rs.
use egwalker_paper.Base.{
  ℕ, zero, suc, ◌+◌, ◌*◌, ◌≤◌, ◌<◌, ◌≡◌, refl, sym, ap, ◌∙◌, ◌⊎◌, ◌↔◌, ◌==◌, inl, inr, true, not,
  ◌&&◌, ◌||◌, List, [], ◌∷◌, ◌++◌, append-nil, leb, if◌then◌else◌, contains, All, arith, Bool-cases,
  iff_trans, some, get_elem?,
}
use mathlib.Core.Bool.{false≢true}
use egwalker_paper.Base.Panic.{done}
use egwalker_paper.OtBench.Graph.Scan.{All-imp}
use egwalker_paper.DiamondTypes.RleVec.{usize_max}
use egwalker_paper.DiamondTypes.Graph.{GraphEntryInternal}
use egwalker_paper.DiamondTypes.Graph.Runs.{Has, IsDag, entry_at, shadow_Anc}
use egwalker_paper.DiamondTypes.Graph.Tools.{Queue as Heap}
use egwalker_paper.DiamondTypes.Graph.Tools.Queue.{IsDescending}
use egwalker_paper.DiamondTypes.Graph.Dominators.{
  Visit, is_input, version, Taken, push_normal, first_visit, dominator_rounds, push_dominators,
}
use egwalker_paper.DiamondTypes.Graph.Dominators.Queue.{
  IsBounded, inputs, no_input, IsPushed, push_normal_lem,
}
use egwalker_paper.DiamondTypes.Graph.Dominators.Take.{
  push_dominators-append, IsTaken, take_run_lem,
}
use egwalker_paper.DiamondTypes.Graph.Dominators.Top.{
  IsTop, IsNext, member_le, input-IsTop, top_head, IsTop-next,
}
use egwalker_paper.DiamondTypes.Graph.Dominators.Steps.{
  IsFalling, here, push-first, contains-here, stop_step, last_step, more_step,
}

module _ (es : List GraphEntryInternal) (hi : ℕ) (dag : IsDag es hi) where
  -- The dominators of a queue whose versions are below `m`, from the greatest on.
  pub record IsTops (m : ℕ) (q : Heap) (r : List ℕ) : Type 0 where
    pub tops : (y : ℕ) → (contains r y ≡ true) ↔ IsTop es hi dag q y
    pub below : All (λ y. y < m) r
    pub falling : IsFalling r

  -- The first version of a queue, and the dominators of the rest.
  first-IsTops :
      (m c : ℕ) (q : Heap) (rest : List ℕ)
      → version c < m
      → All (λ y. y < version c) rest
      → IsFalling rest
      → ((y : ℕ)
          → IsTop es hi dag (c ∷ q) y
            ↔ (((is_input c ≡ true) × (version c ≡ y)) ⊎ (contains rest y ≡ true)))
      → IsTops m (c ∷ q) (here c ++ rest)
  first-IsTops m c q rest l b f h =
      let wide = All-imp (λ y. y < version c) (λ y. y < m) rest (λ y k. omega arith) b in
      record {
        tops = λ y. (
          λ a. (h y).1 ((contains-here c y rest).0 a),
          λ a. (contains-here c y rest).1 ((h y).0 a),
        );
        below = elim (Bool-cases (is_input c)) [ inl t ↦ rw t (l, wide) | inr t ↦ rw t wide ];
        falling = elim (Bool-cases (is_input c)) [ inl t ↦ rw t (b, f) | inr t ↦ rw t f ];
      }

  -- No input of the queue is before the version at which the loop may stop.
  abbrev pub IsStop : ℕ → Heap → Type 0
  IsStop stop q = ((stop == usize_max) ≡ true) ⊎ ((y : ℕ) → contains q (y * 2) ≡ true → stop ≤ y)

  -- The result of one round that is the last.
  alone :
      (m c : ℕ) (q : Heap)
      → version c < m
      → ((y : ℕ) → IsTop es hi dag (c ∷ q) y ↔ ((is_input c ≡ true) × (version c ≡ y)))
      → IsTops m (c ∷ q) (here c)
  alone m c q l h = rw (append-nil (here c)) at (
      first-IsTops m c q [] l tt tt
        (λ y. (λ a. inl ((h y).0 a), elim [ inl a ↦ (h y).1 a | inr a ↦ absurd (false≢true a) ])))

  rounds_stop :
      (stop c : ℕ) (q : Heap) (i : ℕ) (e : GraphEntryInternal)
      → get_elem? es i ≡ some e
      → Has e (version c)
      → IsDescending (c ∷ q)
      → IsStop stop (c ∷ q)
      → (not (stop == usize_max) && leb e.shadow stop) ≡ true
      → (y : ℕ) → IsTop es hi dag (c ∷ q) y ↔ ((is_input c ≡ true) × (version c ≡ y))
  rounds_stop stop c q i e g has falling stops t y = (
    λ h.
        (let le = member_le es hi dag c (y * 2) q falling.0 h.input in
          let late : stop ≤ y = elim stops [
            | inl u ↦ absurd (ground (arith, t, u))
            | inr u ↦ u y h.input
          ] in
          top_head es hi dag c y q h (
            shadow_Anc es hi dag i e g (version c) y has (ground (arith, t, late))
              (ground (arith, le)))),
    λ (u, same). input-IsTop es hi dag c y q falling u same,
  )

  pub taken-IsNext :
      (start : ℕ) (ps : List ℕ) (q r : Heap) (t : Taken)
      → IsTaken start q t
      → IsPushed ps t.queue r
      → IsNext es hi dag start ps q r
  taken-IsNext start ps q r t k p = record {
    has_input = λ y. p.has_input y ∙ k.rest (y * 2);
    has_normal = λ y. p.has_normal y ∙ ap (λ b. contains ps y || b) (k.rest (y * 2 + 1));
  }

  next-IsStop :
      (stop start c : ℕ) (ps : List ℕ) (q r : Heap)
      → IsStop stop (c ∷ q)
      → IsNext es hi dag start ps q r
      → IsStop stop r
  next-IsStop stop start c ps q r (inl t) n = inl t
  next-IsStop stop start c ps q r (inr h) n = inr (λ y k. h y (ground (arith, n.has_input y, k)))

  push-round :
      (c : ℕ) (visits rest : List Visit)
      → push_dominators visits ≡ []
      → push_dominators (first_visit c ++ (visits ++ rest)) ≡ here c ++ push_dominators rest
  push-round c visits rest h =
      push_dominators-append (first_visit c) (visits ++ rest)
      ∙ (ap (λ l. l ++ push_dominators (visits ++ rest)) (push-first c)
          ∙ ap (λ l. here c ++ l)
              (push_dominators-append visits rest ∙ ap (λ l. l ++ push_dominators rest) h))

  push-last :
      (c : ℕ) (visits : List Visit)
      → push_dominators visits ≡ []
      → push_dominators (first_visit c ++ visits) ≡ here c
  push-last c visits h =
      push_dominators-append (first_visit c) visits
      ∙ (ap (λ l. l ++ push_dominators visits) (push-first c)
          ∙ (ap (λ l. here c ++ l) h ∙ append-nil (here c)))

  pub rounds_lem :
      (fuel m stop last : ℕ) (q : Heap)
      → m < fuel
      → m ≤ hi
      → IsBounded m q
      → IsDescending q
      → IsStop stop q
      → (visits : List Visit) × (dominator_rounds fuel es stop q (inputs q) last ≡ done visits)
        × IsTops m q (push_dominators visits)
  rounds_lem zero m stop last q f l b d s = absurd (omega arith)
  rounds_lem (suc fuel) m stop last [] f l b d s = (
    [],
    unfold dominator_rounds in refl,
    unfold push_dominators in
        record {
          tops = λ y. (λ a. absurd (false≢true a), λ h. absurd (false≢true h.input));
          below = tt;
          falling = tt;
        },
  )
  rounds_lem (suc fuel) m stop last (c ∷ q) f l b d s =
      let lt : version c < m = ground (arith, b.0) in
      let (i, e, at, g, has) = entry_at es hi dag (version c) (omega arith) in
      elim (Bool-cases (not (stop == usize_max) && leb e.shadow stop)) [
        | inl t ↦ (
          first_visit c,
          stop_step fuel es stop c q last e at t,
          rw (push-first c) (alone m c q lt (rounds_stop stop c q i e g has d s t)),
        )
        | inr t ↦
            let (tk, r, k) =
              take_run_lem e.span.start (if is_input c then version c else last) q d.1 in
            let p = push_normal_lem e.parents tk.queue k.descending in
            let q' = push_normal e.parents tk.queue in
            let n = taken-IsNext e.span.start e.parents q q' tk k p in
            let top = IsTop-next es hi dag i e g c q q' has d n in
            elim (Bool-cases (tk.inputs_remaining == 0)) [
              | inl z ↦
                  let none_left : inputs tk.queue ≡ 0 = ground (arith, z, k.counted) in
                  let nothing : (y : ℕ) → ¬ IsTop es hi dag q' y = λ y h.
                    absurd
                      (ground (arith, h.input, p.has_input y, no_input tk.queue y none_left)) in
                  (
                    first_visit c ++ tk.visits,
                    last_step fuel es stop c q last e tk at t r z,
                    rw (push-last c tk.visits k.dominated) (
                        alone m c q lt (λ y. (
                          λ h. elim ((top y).0 h) [ inl a ↦ a | inr a ↦ absurd (nothing y a) ],
                          λ a. (top y).1 (inl a),
                        ))),
                  )
              | inr z ↦
                  let (rest, eq, tops) =
                    rounds_lem fuel e.span.start stop tk.last_emitted q' (omega (arith, has.0))
                      (omega (arith, has.0))
                      (p.bounded e.span.start (dag.sound i e g).below k.bounded) p.descending
                      (next-IsStop stop e.span.start c e.parents q q' s n) in
                  (
                    first_visit c ++ (tk.visits ++ rest),
                    more_step fuel es stop c q last e tk at t r rest z (
                        ap (λ x. dominator_rounds fuel es stop q' x tk.last_emitted)
                          (k.counted ∙ sym p.counted)
                        ∙ eq),
                    rw (push-round c tk.visits rest k.dominated) (
                        first-IsTops m c q (push_dominators rest) lt
                          (All-imp (λ y. y < e.span.start) (λ y. y < version c)
                            (push_dominators rest) (λ y h. omega (arith, has.0)) tops.below)
                          tops.falling
                          (λ y. iff_trans (top y) (
                            elim [ inl a ↦ inl a | inr a ↦ inr ((tops.tops y).1 a) ],
                            elim [ inl a ↦ inl a | inr a ↦ inr ((tops.tops y).0 a) ],
                          ))),
                  )
            ]
      ]
