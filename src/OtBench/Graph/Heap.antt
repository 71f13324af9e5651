-- ===== src/OtBench/Graph/Heap.antt =====
-- What the queue of `diff_rev` in tools/ot-bench/src/cg.rs stands for: the versions that its items
-- contain, on each side.
use egwalker_paper.Base.{
  ℕ, suc, ◌+◌, ◌≤◌, ◌<◌, ◌≡◌, refl, ◌⊎◌, ◌↔◌, ◌==◌, inl, inr, Bool, true, false, List, [], ◌∷◌, ltb,
  ◌&&◌, ◌||◌, arith, All, Bool-cases, length, if◌then◌else◌,
}
use egwalker_paper.OtBench.Graph.{
  GraphEntryInternal, DiffFlag, only_a, only_b, shared, rank, is_shared, flag_eq, Queue, queue_push,
  push_all,
}
use egwalker_paper.OtBench.Graph.Ancestors.{Anc, AncOf, ancof_cons}

-- The side `true` is `a`, and `false` is `b`.
abbrev pub has : Bool → DiffFlag → Bool
has true only_a = true
has true only_b = false
has false only_a = false
has false only_b = true
has s shared = true

abbrev pub shared_count : DiffFlag → ℕ
shared_count shared = 1
shared_count _ = 0

abbrev pub num_shared : Queue → ℕ
num_shared [] = 0
num_shared ((v, f) ∷ q) = shared_count f + num_shared q

-- Every version of the queue is below the bound, and the list is in descending order.
abbrev pub Below : ℕ → Queue → Type 0
Below m [] = Unit
Below m ((v, f) ∷ q) = (v < m) × Below m q

abbrev pub AtMost : ℕ → Queue → Type 0
AtMost m [] = Unit
AtMost m ((v, f) ∷ q) = (v ≤ m) × AtMost m q

abbrev pub IsHeap : Queue → Type 0
IsHeap [] = Unit
IsHeap ((v, f) ∷ q) = AtMost v q × IsHeap q

AtMost-le : (m n : ℕ) (q : Queue) → m ≤ n → AtMost m q → AtMost n q
AtMost-le m n [] h b = tt
AtMost-le m n ((v, f) ∷ q) h b = (omega arith, AtMost-le m n q h b.1)

push-AtMost :
    (m v : ℕ) (f : DiffFlag) (q : Queue) → v ≤ m → AtMost m q → AtMost m (queue_push v f q)
unfolding queue_push
push-AtMost m v f [] h b = (h, tt)
push-AtMost m v f ((w, g) ∷ q) h b = ground (arith, push-AtMost m v f q)

pub push-Below :
    (m v : ℕ) (f : DiffFlag) (q : Queue) → v < m → Below m q → Below m (queue_push v f q)
unfolding queue_push
push-Below m v f [] h b = (h, tt)
push-Below m v f ((w, g) ∷ q) h b = ground (arith, push-Below m v f q)

pub push-IsHeap : (v : ℕ) (f : DiffFlag) (q : Queue) → IsHeap q → IsHeap (queue_push v f q)
unfolding queue_push
push-IsHeap v f [] h = (tt, tt)
push-IsHeap v f ((w, g) ∷ q) h =
    ground (arith, push-IsHeap v f q, push-AtMost w v f q, AtMost-le w v q)

pub num_shared-push :
    (v : ℕ) (f : DiffFlag) (q : Queue)
    → num_shared (queue_push v f q) ≡ shared_count f + num_shared q
unfolding queue_push
num_shared-push v f [] = refl
num_shared-push v f ((w, g) ∷ q) = ground (arith, num_shared-push v f q)

pub length-push : (v : ℕ) (f : DiffFlag) (q : Queue) → length (queue_push v f q) ≡ suc (length q)
unfolding queue_push
length-push v f [] = refl
length-push v f ((w, g) ∷ q) = ground (arith, length-push v f q)

pub push_all-Below :
    (m : ℕ) (vs : List ℕ) (f : DiffFlag) (q : Queue)
    → All (λ v. v < m) vs
    → Below m q
    → Below m (push_all vs f q)
unfolding push_all
push_all-Below m [] f q h b = b
push_all-Below m (v ∷ vs) f q h b =
    push_all-Below m vs f (queue_push v f q) h.1 (push-Below m v f q h.0 b)

pub push_all-IsHeap : (vs : List ℕ) (f : DiffFlag) (q : Queue) → IsHeap q → IsHeap (push_all vs f q)
unfolding push_all
push_all-IsHeap [] f q h = h
push_all-IsHeap (v ∷ vs) f q h = push_all-IsHeap vs f (queue_push v f q) (push-IsHeap v f q h)

pub num_shared-push_all :
    (vs : List ℕ) (f : DiffFlag) (q : Queue)
    → num_shared (push_all vs f q)
      ≡ (if is_shared f then num_shared q + length vs else num_shared q)
unfolding push_all
num_shared-push_all [] f q = ground arith
num_shared-push_all (v ∷ vs) f q =
    ground (arith, num_shared-push v f q, num_shared-push_all vs f (queue_push v f q))

module _ (es : List GraphEntryInternal) where
  -- The versions that the queue's items of one side contain.
  abbrev pub Holds : Bool → Queue → ℕ → Type 0
  Holds s [] x = ⊥
  Holds s ((v, f) ∷ q) x = ((has s f ≡ true) × Anc es v x) ⊎ Holds s q x

  Holds-under :
      (s : Bool) (v : ℕ) (f : DiffFlag) (w : ℕ) (g : DiffFlag) (q : Queue) (x : ℕ)
      → Holds s (queue_push v f q) x ↔ (((has s f ≡ true) × Anc es v x) ⊎ Holds s q x)
      → Holds s ((w, g) ∷ queue_push v f q) x
        ↔ (((has s f ≡ true) × Anc es v x) ⊎ Holds s ((w, g) ∷ q) x)
  Holds-under s v f w g q x (to, from) = (
    elim [ inl a ↦ inr (inl a) | inr b ↦ elim (to b) [ inl c ↦ inl c | inr d ↦ inr (inr d) ] ],
    elim [
      | inl c ↦ inr (from (inl c))
      | inr b ↦ elim b [ inl a ↦ inl a | inr d ↦ inr (from (inr d)) ]
    ],
  )

  push-Holds :
      (s : Bool) (v : ℕ) (f : DiffFlag) (q : Queue) (x : ℕ)
      → Holds s (queue_push v f q) x ↔ (((has s f ≡ true) × Anc es v x) ⊎ Holds s q x)
  unfolding queue_push
  push-Holds s v f [] x = (λ h. h, λ h. h)
  push-Holds s v f ((w, g) ∷ q) x =
      elim (Bool-cases (ltb v w || (v == w && ltb (rank f) (rank g)))) [
        | inl e ↦ rw e (Holds-under s v f w g q x (push-Holds s v f q x))
        | inr e ↦ rw e (λ h. h, λ h. h)
      ]

  -- The parents of a version enter the queue with its flag.
  pub push_all-Holds :
      (s : Bool) (vs : List ℕ) (f : DiffFlag) (q : Queue) (x : ℕ)
      → Holds s (push_all vs f q) x ↔ (((has s f ≡ true) × AncOf es vs x) ⊎ Holds s q x)
  unfolding push_all
  push_all-Holds s [] f q x = (λ h. inr h, elim [ inl (k, (p, c, a)) ↦ cc | inr h ↦ h ])
  push_all-Holds s (v ∷ vs) f q x =
      let (to, from) = push_all-Holds s vs f (queue_push v f q) x in
      let (to1, from1) = push-Holds s v f q x in
      let (split, join) = ancof_cons es v vs x in
      (
        λ h. elim (to h) [
          | inl (k, a) ↦ inl (k, join (inr a))
          | inr b ↦ elim (to1 b) [ inl (k, a) ↦ inl (k, join (inl a)) | inr d ↦ inr d ]
        ],
        elim [
          | inl (k, a) ↦ elim (split a) [
            | inl b ↦ from (inr (from1 (inl (k, b))))
            | inr b ↦ from (inl (k, b))
          ]
          | inr d ↦ from (inr (from1 (inr d)))
        ],
      )

  abbrev pub merged : DiffFlag → DiffFlag → DiffFlag
  merged f g = if flag_eq g f then f else shared

  pub has-merged : (s : Bool) (f g : DiffFlag) → has s (merged f g) ≡ (has s f || has s g)
  has-merged s f g = ground arith

  -- Two items for one version stand for one item with both flags.
  pub merged-Holds :
      (s : Bool) (v : ℕ) (f g : DiffFlag) (q : Queue) (x : ℕ)
      → Holds s ((v, f) ∷ (v, g) ∷ q) x ↔ Holds s ((v, merged f g) ∷ q) x
  merged-Holds s v f g q x = (
    elim [
      | inl (k, a) ↦ inl (rw (has-merged s f g, k), a)
      | inr b ↦ elim b [ inl (k, a) ↦ inl (ground (arith, has-merged s f g), a) | inr d ↦ inr d ]
    ],
    elim [
      | inl (k, a) ↦ elim (Bool-cases (has s f)) [
        | inl e ↦ inl (e, a)
        | inr e ↦ inr (inl (ground (arith, has-merged s f g), a))
      ]
      | inr d ↦ inr (inr d)
    ],
  )
