-- ===== src/DiamondTypes/Graph/Tools/Queue.antt =====
-- The queue of `frontier_contains_version` in tools/diamond-types/src/causalgraph/graph/tools.rs, and
-- the histories of its versions.
use egwalker_paper.Base.{
  contains_self, iff_trans, ℕ, ◌≤◌, ◌<◌, ◌≡◌, refl, ◌⊎◌, ◌↔◌, inl, inr, false, List, [], ◌∷◌, none,
  some, ltb, leb, ◌==◌, ==_iff, if◌then◌else◌, arith, Bool-cases, All, contains, subst,
}
use egwalker_paper.OtBench.Graph.{GraphEntryInternal as Version}
use egwalker_paper.OtBench.Graph.Ancestors.{Anc, self, AncOf, IsCausal, Anc-le, ancof_cons}
use egwalker_paper.DiamondTypes.Graph.Tools.{Queue, heap_push, push_above, pop_run, scan_parents}

abbrev pub IsDescending : Queue → Type 0
IsDescending [] = Unit
IsDescending (w ∷ q) = All (λ v. v ≤ w) q × IsDescending q

-- Every version of the queue is above the target and below the bound.
abbrev pub IsQueue : ℕ → ℕ → Queue → Type 0
IsQueue target m q = All (λ v. (target < v) × (v < m)) q × IsDescending q

pub All-heap_push : (P : ℕ → Type 0) (v : ℕ) (q : Queue) → P v → All P q → All P (heap_push v q)
unfolding heap_push
All-heap_push P v [] p h = (p, tt)
All-heap_push P v (w ∷ q) p h = ground (arith, All-heap_push P v q)

All-le_trans : (a b : ℕ) (q : Queue) → a ≤ b → All (λ v. v ≤ a) q → All (λ v. v ≤ b) q
All-le_trans a b [] l h = tt
All-le_trans a b (w ∷ q) l h = (omega (arith, h.0), All-le_trans a b q l h.1)

pub heap_push-IsDescending : (v : ℕ) (q : Queue) → IsDescending q → IsDescending (heap_push v q)
unfolding heap_push
heap_push-IsDescending v [] h = (tt, tt)
heap_push-IsDescending v (w ∷ q) h =
    ground (arith, heap_push-IsDescending v q, All-heap_push (λ x. x ≤ w) v q, All-le_trans w v q)

heap_push-IsQueue :
    (target m v : ℕ) (q : Queue)
    → target < v
    → v < m
    → IsQueue target m q
    → IsQueue target m (heap_push v q)
heap_push-IsQueue target m v q l k h =
    (All-heap_push (λ x. (target < x) × (x < m)) v q (l, k) h.0, heap_push-IsDescending v q h.1)

pub contains-heap_push :
    (v : ℕ) (q : Queue) (x : ℕ) → contains (heap_push v q) x ≡ contains (v ∷ q) x
unfolding heap_push
contains-heap_push v [] x = refl
contains-heap_push v (w ∷ q) x = ground (arith, contains-heap_push v q x)

pub rest_below :
    (target w start m : ℕ) (q : Queue)
    → w < start
    → All (λ v. (target < v) × (v < m)) q
    → All (λ v. v ≤ w) q
    → All (λ v. (target < v) × (v < start)) q
rest_below target w start m [] l h k = tt
rest_below target w start m (v ∷ q) l h k =
    ((h.0.0, omega arith), rest_below target w start m q l h.1 k.1)

module _ (full : List Version) (causal : IsCausal full) (target : ℕ) where
  ancof_heap_push :
      (v : ℕ) (q : Queue)
      → AncOf full (heap_push v q) target ↔ (Anc full v target ⊎ AncOf full q target)
  ancof_heap_push v q =
      let (to, from) = ancof_cons full v q target in
      (
        λ (p, c, a). to (p, rw (contains-heap_push v q p) at c, a),
        λ s. (let (p, c, a) = from s in (p, rw (contains-heap_push v q p) c, a)),
      )

  -- A version goes into the queue if it is above the target, and else it does not matter.
  ancof_offer :
      (v : ℕ) (q : Queue)
      → (v == target) ≡ false
      → AncOf full (if ltb target v then heap_push v q else q) target
        ↔ (Anc full v target ⊎ AncOf full q target)
  ancof_offer v q ne = elim (Bool-cases (ltb target v)) [
    | inl above ↦ rw above (ancof_heap_push v q)
    | inr below ↦
        rw below (
          inr,
          elim [ inl a ↦ absurd (ground (arith, below, ne, Anc-le full causal a)) | inr a ↦ a ],
        )
  ]

  offer-IsQueue :
      (m v : ℕ) (q : Queue)
      → v < m
      → IsQueue target m q
      → IsQueue target m (if ltb target v then heap_push v q else q)
  offer-IsQueue m v q l h = elim (Bool-cases (ltb target v)) [
    | inl above ↦ rw above (heap_push-IsQueue target m v q (ground (arith, above)) l h)
    | inr below ↦ rw below h
  ]

  ancof_move :
      (o : ℕ) (os : List ℕ) (q : Queue)
      → (o == target) ≡ false
      → (AncOf full os target ⊎ AncOf full (if ltb target o then heap_push o q else q) target)
        ↔ (AncOf full (o ∷ os) target ⊎ AncOf full q target)
  ancof_move o os q ne =
      let (out_, in_) = ancof_offer o q ne in
      let (split, join) = ancof_cons full o os target in
      (
        elim [
          | inl a ↦ inl (join (inr a))
          | inr a ↦ elim (out_ a) [ inl b ↦ inl (join (inl b)) | inr b ↦ inr b ]
        ],
        elim [
          | inl a ↦ elim (split a) [ inl b ↦ inr (in_ (inl b)) | inr b ↦ inl b ]
          | inr a ↦ inr (in_ (inr a))
        ],
      )

  pub push_above-IsQueue :
      (m : ℕ) (os : List ℕ) (q : Queue)
      → All (λ v. v < m) os
      → IsQueue target m q
      → IsQueue target m (push_above target os q)
  unfolding push_above
  push_above-IsQueue m [] q b h = h
  push_above-IsQueue m (o ∷ os) q b h =
      push_above-IsQueue m os (if ltb target o then heap_push o q else q) b.1
        (offer-IsQueue m o q b.0 h)

  pub ancof_push_above :
      (os : List ℕ) (q : Queue)
      → contains os target ≡ false
      → AncOf full (push_above target os q) target ↔ (AncOf full os target ⊎ AncOf full q target)
  unfolding push_above
  ancof_push_above [] q c = (inr, elim [ inl (p, h, a) ↦ absurd (ground arith) | inr a ↦ a ])
  ancof_push_above (o ∷ os) q c =
      iff_trans
        (ancof_push_above os (if ltb target o then heap_push o q else q) (ground (arith, c)))
        (ancof_move o os q (ground (arith, c)))

  -- What the loop over the parents does to the queue.
  pub scan_lem :
      (m : ℕ) (ps : List ℕ) (q : Queue)
      → All (λ v. v < m) ps
      → IsQueue target m q
      → ((scan_parents target ps q ≡ none) × AncOf full ps target)
        ⊎ ((q' : Queue) × (scan_parents target ps q ≡ some q')
            × IsQueue target m q'
            × (AncOf full q' target ↔ (AncOf full ps target ⊎ AncOf full q target)))
  unfolding scan_parents
  scan_lem m [] q b h =
      inr (q, refl, h, (inr, elim [ inl (p, c, a) ↦ absurd (ground arith) | inr a ↦ a ]))
  scan_lem m (p ∷ ps) q b h = elim (Bool-cases (p == target)) [
    | inl same ↦ inl (
      rw same refl,
      (p, contains_self p ps, subst (λ x. Anc full p x) ((==_iff p target).0 same) self),
    )
    | inr differs ↦
        elim (scan_lem m ps (if ltb target p then heap_push p q else q) b.1
          (offer-IsQueue m p q b.0 h)) [
            | inl (e, a) ↦ inl (rw (differs, e) refl, (ancof_cons full p ps target).1 (inr a))
            | inr (q', e, k, i) ↦
                inr (q', rw (differs, e) refl, k, iff_trans i (ancof_move p ps q differs))
          ]
  ]

  -- The rest of a run goes from the queue: its history below the run is that of the parents.
  pub pop_lem :
      (start m : ℕ) (ps : List ℕ) (q : Queue)
      → ((v : ℕ) → start ≤ v → v < m → Anc full v target → AncOf full ps target)
      → IsQueue target m q
      → IsQueue target start (pop_run start q)
        × ((AncOf full ps target ⊎ AncOf full (pop_run start q) target)
            ↔ (AncOf full ps target ⊎ AncOf full q target))
  unfolding pop_run
  pop_lem start m ps [] down h = ((tt, tt), (λ s. s, λ s. s))
  pop_lem start m ps (w ∷ q) down h = elim (Bool-cases (leb start w)) [
    | inl inside ↦
        let (k, i) = pop_lem start m ps q down (h.0.1, h.1.1) in
        rw inside (
          k,
          iff_trans i (
            elim [ inl a ↦ inl a | inr a ↦ inr ((ancof_cons full w q target).1 (inr a)) ],
            elim [
              | inl a ↦ inl a
              | inr a ↦ elim ((ancof_cons full w q target).0 a) [
                | inl b ↦ inl (down w (ground (arith, inside)) h.0.0.1 b)
                | inr b ↦ inr b
              ]
            ],
          ),
        )
    | inr below ↦
        let l : w < start = ground (arith, below) in
        rw below
          ((((h.0.0.0, l), rest_below target w start m q l h.0.1 h.1.0), h.1), (λ s. s, λ s. s))
  ]
