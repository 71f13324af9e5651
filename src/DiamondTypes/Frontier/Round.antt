-- ===== src/DiamondTypes/Frontier/Round.antt =====
-- One round of `retreat` in tools/diamond-types/src/frontier.rs: what it takes from the history of a
-- frontier.
use egwalker_paper.Base.{
  All-below_weaken, ℕ, suc, ◌-◌, ◌≤◌, ◌<◌, ◌≡◌, refl, sym, ap, subst, ◌⊎◌, ◌↔◌, inl, inr, true,
  false, List, [], ◌∷◌, some, ltb, ltb→lt, ◌==◌, ==_iff, length, contains, max, get_elem?, arith,
  Bool-cases, All,
}
use egwalker_paper.Base.Panic.{done, checked_sub_lem}
use egwalker_paper.OtBench.Graph.{GraphEntryInternal as Version}
use egwalker_paper.OtBench.Frontier.{Frontier, retain_not_in}
use egwalker_paper.OtBench.Frontier.Advance.{IsSorted, contains-retain, retain-IsSorted, All-retain}
use egwalker_paper.OtBench.Graph.Ancestors.{Anc, self, AncOf, Anc-le, All-contains}
use egwalker_paper.DiamondTypes.DtRange
use egwalker_paper.DiamondTypes.Graph.{GraphEntryInternal, Graph, parents_at}
use egwalker_paper.DiamondTypes.Graph.Expand.{expand}
use egwalker_paper.DiamondTypes.Graph.Runs.{IsDag, Has, version_at, dag-IsCausal, Anc-trans}
use egwalker_paper.DiamondTypes.Frontier.{insert_uncovered, retreat_round}
use egwalker_paper.DiamondTypes.Frontier.History.{run_part}
use egwalker_paper.DiamondTypes.Frontier.Uncovered.{IsMinimal, IsCovering, insert_uncovered_lem}

-- The range from `s` to `l` is at the tip of the frontier: all of it is in the frontier's history,
-- and nothing in that history but the range itself comes after a version of the range.
pub record IsTip (full : List Version) (hi : ℕ) (f : Frontier) (s l : ℕ) : Type 0 where
  pub sorted : IsSorted f
  pub below : All (λ p. p < hi) f
  pub minimal : IsMinimal full f
  pub held : (x : ℕ) → s ≤ x → x ≤ l → AncOf full f x
  pub tip : (v x : ℕ) → AncOf full f v → s ≤ x → x ≤ l → Anc full v x → (s ≤ v) × (v ≤ l)

-- The parents of each entry are a frontier: in order, and none in the history of another.
abbrev pub HasFrontiers : List GraphEntryInternal → Type 0
HasFrontiers es =
    (i : ℕ) (e : GraphEntryInternal)
    → get_elem? es i ≡ some e
    → IsSorted e.parents × IsMinimal (expand es) e.parents

parents_max : (e : GraphEntryInternal) (s : ℕ) → parents_at e s ≡ parents_at e (max s e.span.start)
unfolding parents_at
parents_max e s = elim (Bool-cases (ltb e.span.start s)) [
  | inl behind ↦ let z : max s e.span.start ≡ s = ground (arith, behind) in rw (z, behind) refl
  | inr at ↦
      let z : max s e.span.start ≡ e.span.start = ground (arith, at) in
      let same : ltb e.span.start e.span.start ≡ false = ground arith in rw (z, at, same) refl
]

single : (f : Frontier) (l : ℕ) → (length f == 1) ≡ true → contains f l ≡ true → f ≡ l ∷ []
single [] l h c = absurd (ground (arith, c))
single (x ∷ []) l h c = ap (λ y. y ∷ []) ((==_iff x l).0 (ground (arith, c)))
single (x ∷ y ∷ f) l h c = absurd (ground (arith, h))

pub last_of : (s l : ℕ) → DtRange.last (record { start = s; end = suc l }) ≡ done l
unfolding DtRange.last
last_of s l = checked_sub_lem (suc l) 1 l (omega arith)

round_single :
    (g : Graph) (e : GraphEntryInternal) (s l : ℕ)
    → retreat_round g e (record { start = s; end = suc l }) (l ∷ []) ≡ done (parents_at e s)
unfolding retreat_round parents_at
round_single g e s l = rw (last_of s l) refl

round_many :
    (g : Graph) (e : GraphEntryInternal) (s l : ℕ) (f r : Frontier)
    → (length f == 1) ≡ false
    → insert_uncovered g (parents_at e s) (retain_not_in (l ∷ []) f) ≡ done r
    → retreat_round g e (record { start = s; end = suc l }) f ≡ done r
unfolding retreat_round
round_many g e s l f r many h = rw (last_of s l, many) h

pub one-IsSorted : (v : ℕ) → IsSorted (v ∷ [])
one-IsSorted v = (tt, tt)

pub one-IsMinimal : (full : List Version) (v : ℕ) → IsMinimal full (v ∷ [])
one-IsMinimal full v p q h k a = ground (arith, h, k, ==_iff v p, ==_iff v q)

module _ (g : Graph) (hi : ℕ) (dag : IsDag g.entries hi) (frontiers : HasFrontiers g.entries) where
  abbrev full : List Version
  full = expand g.entries

  pub parents-IsFrontier :
      (i : ℕ) (e : GraphEntryInternal) (s : ℕ)
      → get_elem? g.entries i ≡ some e
      → IsSorted (parents_at e s) × IsMinimal full (parents_at e s)
  unfolding parents_at
  parents-IsFrontier i e s at = elim (Bool-cases (ltb e.span.start s)) [
    | inl behind ↦ rw behind (one-IsSorted (s - 1), one-IsMinimal full (s - 1))
    | inr outside ↦ rw outside (frontiers i e at)
  ]

  -- The range's last version is in the frontier.
  last-contains : (f : Frontier) (s l : ℕ) → s ≤ l → IsTip full hi f s l → contains f l ≡ true
  last-contains f s l m k =
      let (p, h, a) = k.held l m (omega arith) in
      let inside = k.tip p l (p, h, self) m (omega arith) a in
      let z : p ≡ l = omega (arith, inside.1, Anc-le full (dag-IsCausal g.entries hi dag) a) in
      subst (λ v. contains f v ≡ true) z h

  module _ (i : ℕ) (e : GraphEntryInternal) (at : get_elem? g.entries i ≡ some e) (f : Frontier)
      (s l : ℕ) (m : s ≤ l) (c : Has e l) (k : IsTip full hi f s l) where
    abbrev a : ℕ
    a = max s e.span.start

    abbrev ps : List ℕ
    ps = parents_at e s

    a-Has : Has e a
    a-Has = (omega arith, omega (arith, m, c.0, c.1))

    run : (x : ℕ) → Anc full l x ↔ (((a ≤ x) × (x ≤ l)) ⊎ AncOf full ps x)
    run x =
        rw (parents_max e s)
          (run_part g.entries hi dag i e at a l x a-Has c (omega (arith, m, c.0)))

    ps_below : All (λ p. p < a) ps
    ps_below = rw (parents_max e s) (
        dag-IsCausal g.entries hi dag a (record { idx = a; parents = parents_at e a })
          (version_at g.entries hi dag i e a at a-Has))

    abbrev f1 : Frontier
    f1 = retain_not_in (l ∷ []) f

    kept : (y : ℕ) → contains f1 y ≡ true → (contains f y ≡ true) × ((l == y) ≡ false)
    kept y h = ground (arith, contains-retain (l ∷ []) f y, h)

    ps_hi : All (λ p. p < hi) ps
    ps_hi =
        All-below_weaken a hi ps
          (omega (arith, m, c.0, All-contains (λ p. p < hi) f l k.below (last-contains f s l m k)))
          ps_below

    -- A version that the frontier keeps is none of the run at hand.
    apart : (p x : ℕ) → contains f1 p ≡ true → Anc full p x → (x < a) ⊎ (l < x)
    apart p x h d = elim (Bool-cases (ltb x a)) [
      | inl before ↦ inl (ltb→lt x a before)
      | inr from_a ↦ elim (Bool-cases (ltb l x)) [
        | inl behind ↦ inr (ltb→lt l x behind)
        | inr inside ↦
            let low : a ≤ x = ground (arith, from_a) in
            let high : x ≤ l = ground (arith, inside) in
            let (_, p_le) = k.tip p x (p, (kept p h).0, self) (omega (arith, low)) high d in
            let x_le = Anc-le full (dag-IsCausal g.entries hi dag) d in
            let same =
              k.minimal l p (last-contains f s l m k) (kept p h).0
                ((run p).1 (inl (omega (arith, low, x_le), p_le))) in
            absurd (ground (arith, (kept p h).1, (==_iff l p).1 same))
      ]
    ]

    module _ (r : Frontier) (v : IsCovering full hi f1 ps r) where
      covered-IsMinimal : IsMinimal full r
      covered-IsMinimal p q h k' b = elim (v.adds p h) [
        | inl old ↦ elim (v.adds q k') [
          | inl old' ↦ k.minimal p q (kept p old).0 (kept q old').0 b
          | inr (_, out) ↦ absurd (out (p, old, b))
        ]
        | inr (new, _) ↦ elim (v.adds q k') [
          | inl old' ↦
              let below : Anc full l q = Anc-trans ((run p).1 (inr (p, new, self))) b in
              let same = k.minimal l q (last-contains f s l m k) (kept q old').0 below in
              absurd (ground (arith, (kept q old').1, (==_iff l q).1 same))
          | inr (new', _) ↦ (parents-IsFrontier i e s at).1 p q new new' b
        ]
      ]

      covered_history : (x : ℕ) → AncOf full r x ↔ (AncOf full f x × ((x < a) ⊎ (l < x)))
      covered_history x = (
        λ b. elim ((v.covers x).0 b) [
          | inl (p, h, d) ↦ ((p, (kept p h).0, d), apart p x h d)
          | inr (q, h, d) ↦ (
            (l, last-contains f s l m k, (run x).1 (inr (q, h, d))),
            inl (
                omega (
                  arith,
                  Anc-le full (dag-IsCausal g.entries hi dag) d,
                  All-contains (λ p. p < a) ps q ps_below h,
                )),
          )
        ],
        λ ((p, h, d), out). elim (Bool-cases (l == p)) [
          | inl e' ↦
              let d' : Anc full l x = subst (λ q. Anc full q x) (sym ((==_iff l p).0 e')) d in
              elim ((run x).0 d') [
                | inl (in_run, up_to) ↦ absurd (elim out [
                  | inl o ↦ omega (arith, o, in_run)
                  | inr o ↦ omega (arith, o, up_to)
                ])
                | inr b ↦ (v.covers x).1 (inr b)
              ]
          | inr e' ↦
              (v.covers x).1 (inl (p, ground (arith, contains-retain (l ∷ []) f p, h, e'), d))
        ],
      )

    round-IsCovering :
        (r : Frontier) × (retreat_round g e (record { start = s; end = suc l }) f ≡ done r)
        × IsCovering full hi f1 ps r
    round-IsCovering = elim (Bool-cases (length f == 1)) [
      | inl one ↦
          let same : f ≡ l ∷ [] = single f l one (last-contains f s l m k) in
          let none_kept : (y : ℕ) → ¬ (contains f1 y ≡ true) = λ y h.
            (let n = kept y h in
              let there : contains (l ∷ []) y ≡ true = subst (λ d. contains d y ≡ true) same n.0 in
              ground (arith, there, n.1)) in
          (
            ps,
            subst (λ d. retreat_round g e (record { start = s; end = suc l }) d ≡ done ps)
                (sym same) (round_single g e s l),
            record {
              sorted = (parents-IsFrontier i e s at).0;
              below = ps_hi;
              keeps = λ y h. absurd (none_kept y h);
              adds = λ y h. inr (h, λ (p, h', d). none_kept p h');
              covers = λ x. (inr, elim [ inl (p, h, d) ↦ absurd (none_kept p h) | inr d ↦ d ]);
            },
          )
      | inr many ↦
          let (r, h, v) =
            insert_uncovered_lem g hi ps f1 dag (retain-IsSorted (l ∷ []) f k.sorted)
              (All-retain (λ p. p < hi) (l ∷ []) f k.below) ps_hi in
          (r, round_many g e s l f r many h, v)
    ]

    -- A round of `retreat` does not panic. It takes from the history what the range has of the
    -- entry, and leaves a frontier of which no version is in the history of another.
    pub round_lem :
        (r : Frontier) × (retreat_round g e (record { start = s; end = suc l }) f ≡ done r)
        × IsSorted r
        × All (λ p. p < hi) r
        × IsMinimal full r
        × ((x : ℕ) → AncOf full r x ↔ (AncOf full f x × ((x < max s e.span.start) ⊎ (l < x))))
    round_lem =
        let (r, h, v) = round-IsCovering in
        (r, h, v.sorted, v.below, covered-IsMinimal r v, covered_history r v)
