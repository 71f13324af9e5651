-- ===== src/DiamondTypes/Graph/Dominators/Join.antt =====
-- The calls of one round of `find_dominators_full_internal` in
-- tools/diamond-types/src/causalgraph/graph/tools.rs, and those of the rounds behind it.
use egwalker_paper.Base.{
  ℕ, ◌*◌, ◌≤◌, ◌<◌, ◌≡◌, refl, ◌↔◌, ◌==◌, ==_iff, inl, inr, true, List, [], ◌∷◌, ◌++◌, ltb, ltb→lt,
  if◌then◌else◌, contains, contains-append, append-contains, All-append, All, arith, Bool-cases,
}
use egwalker_paper.OtBench.Graph.Scan.{All-imp}
use egwalker_paper.DiamondTypes.Graph.Tools.{Queue as Heap}
use egwalker_paper.DiamondTypes.Graph.Tools.Queue.{IsDescending}
use egwalker_paper.DiamondTypes.Graph.Dominators.{is_input, version, first_visit}
use egwalker_paper.DiamondTypes.Graph.Dominators.Queue.{code_cases}
use egwalker_paper.DiamondTypes.Graph.Dominators.Steps.{IsFalling, here, contains-here}
use egwalker_paper.DiamondTypes.Graph.Tools.Compare.{All-self}
use egwalker_paper.DiamondTypes.Graph.Dominators.Visits.{seen, IsSeen, member_low}

append-IsFalling :
    (m : ℕ) (xs ys : List ℕ)
    → All (λ x. m ≤ x) xs
    → All (λ y. y < m) ys
    → IsFalling xs
    → IsFalling ys
    → IsFalling (xs ++ ys)
append-IsFalling m [] ys h k f g = g
append-IsFalling m (x ∷ xs) ys h k f g = (
  All-append (λ y. y < x) xs ys f.0
      (All-imp (λ y. y < m) (λ y. y < x) ys (λ y l. omega (arith, h.0)) k),
  append-IsFalling m xs ys h.1 k f.1 g,
)

pub seen-first : (c : ℕ) → seen (first_visit c) ≡ here c
seen-first c = elim (Bool-cases (is_input c)) [ inl t ↦ rw t refl | inr t ↦ rw t refl ]

-- What is called for after the first item of the queue: an input is the last that was called for.
abbrev pub last_of_first : ℕ → ℕ → ℕ
last_of_first c last = if is_input c then version c else last

module _ (c start m last : ℕ) (q q' : Heap) (visits rest : List ℕ) (lt : version c < m)
    (low : start ≤ version c) (late : m ≤ last) (falls : IsDescending (c ∷ q))
    (taken : IsSeen start (last_of_first c last) q visits) (left : IsSeen 0 start q' rest)
    (next : (y : ℕ)
      → (contains q' (y * 2) ≡ true) ↔ ((contains (c ∷ q) (y * 2) ≡ true) × (y < start))) where
  in_queue : (y : ℕ) → contains (c ∷ q) (y * 2) ≡ true → y ≤ version c
  in_queue y k = let le = member_low c (y * 2) q falls.0 k in ground (arith, le)

  taken_below : All (λ y. y < m) visits
  taken_below =
      All-self (λ y. y < m) visits
        (λ y k.
          (let (a, _, _) = (taken.each y).0 k in
            let le = in_queue y (ground (arith, a)) in omega arith))

  called :
      (y : ℕ) → contains (here c ++ (visits ++ rest)) y ≡ true → contains (c ∷ q) (y * 2) ≡ true
  called y k = elim ((contains-here c y (visits ++ rest)).0 k) [
    | inl (t, e) ↦ elim (code_cases c) [
      | inl (_, code) ↦ ground (arith, code, (==_iff c (y * 2)).1, e)
      | inr (f, _) ↦ absurd (ground (arith, t, f))
    ]
    | inr r ↦ elim (contains-append visits rest y r) [
      | inl a ↦ ground (arith, ((taken.each y).0 a).0)
      | inr a ↦ ((next y).0 (((left.each y).0 a).0)).0
    ]
  ]

  calls : (y : ℕ) → contains (c ∷ q) (y * 2) ≡ true → contains (here c ++ (visits ++ rest)) y ≡ true
  calls y k = (contains-here c y (visits ++ rest)).1 (elim (Bool-cases (ltb y start)) [
    | inl t ↦
        let l = ltb→lt y start t in
        inr (
          append-contains visits rest y (inr ((left.each y).1 ((next y).1 (k, l), omega arith, l))))
    | inr t ↦
        let le = in_queue y k in
        let s : start ≤ y = ground (arith, t) in
        elim (code_cases c) [
          | inr (f, code) ↦
              let z : last_of_first c last ≡ last = rw f refl in
              let a : contains q (y * 2) ≡ true = ground (arith, k, code) in
              inr (append-contains visits rest y (inl ((taken.each y).1 (a, s, omega (arith, z)))))
          | inl (f, code) ↦
              let z : last_of_first c last ≡ version c = rw f refl in
              elim (Bool-cases (version c == y)) [
                | inl e ↦ inl (f, (==_iff (version c) y).0 e)
                | inr e ↦
                    let a : contains q (y * 2) ≡ true = ground (arith, k, code, e) in
                    inr (
                      append-contains visits rest y
                        (inl ((taken.each y).1 (a, s, ground (arith, z, le, e)))))
              ]
        ]
  ])

  visits-IsFalling : IsFalling (visits ++ rest)
  visits-IsFalling =
      append-IsFalling start visits rest
        (All-self (λ y. start ≤ y) visits (λ y k. ((taken.each y).0 k).1)) left.below taken.falling
        left.falling

  pub round-IsSeen : IsSeen 0 m (c ∷ q) (here c ++ (visits ++ rest))
  round-IsSeen =
      let wide =
        All-append (λ y. y < m) visits rest taken_below
          (All-imp (λ y. y < start) (λ y. y < m) rest (λ y l. omega arith) left.below) in
      record {
        each = λ y. (
          λ k. (let a = called y k in let le = in_queue y a in (a, omega arith, omega arith)),
          λ (k, _, _). calls y k,
        );
        below = elim (Bool-cases (is_input c)) [ inl t ↦ rw t (lt, wide) | inr t ↦ rw t wide ];
        falling = elim (Bool-cases (is_input c)) [
          | inr t ↦ rw t visits-IsFalling
          | inl t ↦
              let z : last_of_first c last ≡ version c = rw t refl in
              rw t (
                All-append (λ y. y < version c) visits rest
                    (All-imp (λ y. y < last_of_first c last) (λ y. y < version c) visits
                      (λ y l. omega (arith, z)) taken.below)
                    (All-imp (λ y. y < start) (λ y. y < version c) rest (λ y l. omega arith)
                      left.below),
                visits-IsFalling,
              )
        ];
      }
