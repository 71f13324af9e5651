-- ===== src/DiamondTypes/Frontier/Uncovered.antt =====
-- Frontiers of which no version is in the history of another, and the loop of `retreat` in
-- tools/diamond-types/src/frontier.rs that gives one the parents it does not cover.
use egwalker_paper.Base.{
  ℕ, ◌<◌, ◌≡◌, refl, sym, subst, ◌⊎◌, ◌↔◌, inl, inr, true, false, ◌||◌, List, [], ◌∷◌, ◌==◌, ==_iff,
  contains, arith, Bool-cases, All,
}
use egwalker_paper.Base.Panic.{done}
use egwalker_paper.OtBench.Graph.{GraphEntryInternal as Version}
use egwalker_paper.OtBench.Frontier.{Frontier}
use egwalker_paper.OtBench.Frontier.Advance.{IsSorted, insert_nonoverlapping_lem}
use egwalker_paper.OtBench.Graph.Ancestors.{Anc, self, AncOf, ancof_cons}
use egwalker_paper.DiamondTypes.Graph.{Graph}
use egwalker_paper.DiamondTypes.Graph.Expand.{expand}
use egwalker_paper.DiamondTypes.Graph.Runs.{IsDag, Anc-trans}
use egwalker_paper.DiamondTypes.Graph.Tools.Contains.{frontier_contains_version_lem}
use egwalker_paper.DiamondTypes.Frontier.{insert_uncovered}

-- No version is in the history of another.
abbrev pub IsMinimal : List Version → Frontier → Type 0
IsMinimal full f = (p q : ℕ) → contains f p ≡ true → contains f q ≡ true → Anc full p q → p ≡ q

-- What `insert_uncovered` makes of a frontier.
pub record IsCovering (full : List Version) (hi : ℕ) (f ps r : Frontier) : Type 0 where
  pub sorted : IsSorted r
  pub below : All (λ p. p < hi) r
  pub keeps : (y : ℕ) → contains f y ≡ true → contains r y ≡ true
  pub adds :
      (y : ℕ)
      → contains r y ≡ true
      → (contains f y ≡ true) ⊎ ((contains ps y ≡ true) × ¬ AncOf full f y)
  pub covers : (x : ℕ) → AncOf full r x ↔ (AncOf full f x ⊎ AncOf full ps x)

module _ (full : List Version) where
  -- A version that is covered adds nothing.
  skip_covered :
      (hi p : ℕ) (f ps r : Frontier)
      → ((x : ℕ) → Anc full p x → AncOf full f x)
      → IsCovering full hi f ps r
      → IsCovering full hi f (p ∷ ps) r
  skip_covered hi p f ps r down c = record {
    sorted = c.sorted;
    below = c.below;
    keeps = c.keeps;
    adds = λ y h. elim (c.adds y h) [ inl a ↦ inl a | inr (a, n) ↦ inr (ground (arith, a), n) ];
    covers = λ x. (
      λ a. elim ((c.covers x).0 a) [
        | inl b ↦ inl b
        | inr b ↦ inr ((ancof_cons full p ps x).1 (inr b))
      ],
      elim [
        | inl a ↦ (c.covers x).1 (inl a)
        | inr a ↦ elim ((ancof_cons full p ps x).0 a) [
          | inl b ↦ (c.covers x).1 (inl (down x b))
          | inr b ↦ (c.covers x).1 (inr b)
        ]
      ],
    );
  }

  -- A version that is not covered is inserted before the others are looked at.
  insert_first :
      (hi p : ℕ) (f ps d r : Frontier)
      → (¬ AncOf full f p)
      → ((y : ℕ) → contains d y ≡ ((p == y) || contains f y))
      → IsCovering full hi d ps r
      → IsCovering full hi f (p ∷ ps) r
  insert_first hi p f ps d r n holds c =
      let old : (x : ℕ) → AncOf full d x ↔ (Anc full p x ⊎ AncOf full f x) = λ x. (
        λ (q, h, a). elim (Bool-cases (p == q)) [
          | inl e ↦ inl (subst (λ v. Anc full v x) (sym ((==_iff p q).0 e)) a)
          | inr e ↦ inr (q, ground (arith, h, holds q, e), a)
        ],
        elim [
          | inl a ↦ (p, ground (arith, holds p, (==_iff p p).1 refl), a)
          | inr (q, h, a) ↦ (q, ground (arith, holds q, h), a)
        ],
      ) in
      record {
        sorted = c.sorted;
        below = c.below;
        keeps = λ y h. c.keeps y (ground (arith, holds y, h));
        adds = λ y h. elim (c.adds y h) [
          | inl a ↦ elim (Bool-cases (p == y)) [
            | inl e ↦ inr (ground (arith, e), subst (λ v. ¬ AncOf full f v) ((==_iff p y).0 e) n)
            | inr e ↦ inl (ground (arith, a, holds y, e))
          ]
          | inr (a, m) ↦ inr (ground (arith, a), λ b. m ((old y).1 (inr b)))
        ];
        covers = λ x. (
          λ a. elim ((c.covers x).0 a) [
            | inl b ↦ elim ((old x).0 b) [
              | inl a' ↦ inr ((ancof_cons full p ps x).1 (inl a'))
              | inr a' ↦ inl a'
            ]
            | inr b ↦ inr ((ancof_cons full p ps x).1 (inr b))
          ],
          elim [
            | inl a ↦ (c.covers x).1 (inl ((old x).1 (inr a)))
            | inr a ↦ elim ((ancof_cons full p ps x).0 a) [
              | inl b ↦ (c.covers x).1 (inl ((old x).1 (inl b)))
              | inr b ↦ (c.covers x).1 (inr b)
            ]
          ],
        );
      }

-- In a well-formed graph, `insert_uncovered` on a sorted frontier does not panic: it adds the
-- parents that are not in the history of what it has by then.
pub insert_uncovered_lem :
    (g : Graph) (hi : ℕ) (ps f : Frontier)
    → IsDag g.entries hi
    → IsSorted f
    → All (λ p. p < hi) f
    → All (λ p. p < hi) ps
    → (r : Frontier) × (insert_uncovered g ps f ≡ done r) × IsCovering (expand g.entries) hi f ps r
unfolding insert_uncovered
insert_uncovered_lem g hi [] f dag sorted below l = (
  f,
  refl,
  record {
    sorted = sorted;
    below = below;
    keeps = λ y h. h;
    adds = λ y h. inl h;
    covers = λ x. (inl, elim [ inl a ↦ a | inr (p, h, a) ↦ absurd (ground arith) ]);
  },
)
insert_uncovered_lem g hi (p ∷ ps) f dag sorted below l =
    let full = expand g.entries in
    let (b, e, answer) = frontier_contains_version_lem g hi f p dag sorted below in
    elim (Bool-cases b) [
      | inl t ↦
          let (r, e', c) = insert_uncovered_lem g hi ps f dag sorted below l.1 in
          let down : (x : ℕ) → Anc full p x → AncOf full f x =
            λ x a. (let (q, h, a') = answer.0 t in (q, h, Anc-trans a' a)) in
          (r, rw (e, t) e', skip_covered full hi p f ps r down c)
      | inr t ↦
          let out : ¬ AncOf full f p = λ a. absurd (ground (arith, t, answer.1 a)) in
          let fresh : contains f p ≡ false = elim (Bool-cases (contains f p)) [
            | inl h ↦ absurd (out (p, h, self))
            | inr h ↦ h
          ] in
          let (d, e1, sorted', holds, bounded) = insert_nonoverlapping_lem p f fresh sorted in
          let (r, e2, c) = insert_uncovered_lem g hi ps d dag sorted' (bounded hi l.0 below) l.1 in
          (r, rw (e, t, e1) e2, insert_first full hi p f ps d r out holds c)
    ]
