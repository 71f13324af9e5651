-- ===== src/OtBench/Graph/Absorb.antt =====
-- The inner loop of `diff_rev` in tools/ot-bench/src/cg.rs.
use egwalker_paper.Base.{
  iff_trans, ℕ, ◌+◌, ◌<◌, ◌≡◌, refl, ◌∙◌, ◌↔◌, ◌==◌, inl, inr, Bool, true, false, not, List, [],
  ◌∷◌, ◌&&◌, arith, Bool-cases, if◌then◌else◌, ==_iff,
}
use egwalker_paper.Base.Panic.{done, checked_sub_lem}
use egwalker_paper.OtBench.Graph.{
  GraphEntryInternal, DiffFlag, only_a, only_b, shared, Queue, take_shared, absorb,
}
use egwalker_paper.OtBench.Graph.Heap.{
  has, shared_count, num_shared, Below, AtMost, IsHeap, Holds, merged, merged-Holds,
}

pub take_shared_lem : (f : DiffFlag) (n : ℕ) → take_shared f (shared_count f + n) ≡ done n
unfolding take_shared
take_shared_lem only_a n = let e : 0 + n ≡ n = omega arith in rw e
take_shared_lem only_b n = let e : 0 + n ≡ n = omega arith in rw e
take_shared_lem shared n = checked_sub_lem (1 + n) 1 n refl

pub Below-less : (m v : ℕ) (q : Queue) → v < m → AtMost v q → Below m q
Below-less m v [] h b = tt
Below-less m v ((w, g) ∷ q) h b = (omega arith, Below-less m v q h b.1)

abbrev pub pick {ℓ} : {A : Type ℓ} → Bool → A → A → A
pick true a b = a
pick false a b = b

-- A version of one side only is written in front of the reversed result.
abbrev pub written : Bool → DiffFlag → ℕ → List ℕ → List ℕ
written s f idx vs = if has s f && not (has (not s) f) then idx ∷ vs else vs

module _ (es : List GraphEntryInternal) where
  absorb_same :
      (idx : ℕ) (flag : DiffFlag) (w : ℕ) (g : DiffFlag) (n : ℕ) (q : Queue)
      → (w == idx) ≡ true
      → absorb idx flag (shared_count g + n) ((w, g) ∷ q) ≡ absorb idx (merged es flag g) n q
  unfolding absorb
  absorb_same idx flag w g n q e = rw (e, take_shared_lem g n)

  -- `absorb` takes every item for `idx` off the queue, and keeps their flags together.
  pub absorb_lem :
      (idx : ℕ) (flag : DiffFlag) (q : Queue)
      → AtMost idx q
      → IsHeap q
      → (flag' : DiffFlag) × (q' : Queue) × (absorb idx flag (num_shared q) q
          ≡ done (flag', num_shared q', q'))
        × Below idx q'
        × IsHeap q'
        × ((s : Bool) (x : ℕ) → Holds es s ((idx, flag) ∷ q) x ↔ Holds es s ((idx, flag') ∷ q') x)
  absorb_lem idx flag [] h k = (flag, [], unfold absorb in refl, tt, tt, λ s x. (λ y. y, λ y. y))
  absorb_lem idx flag ((w, g) ∷ q) h k = elim (Bool-cases (w == idx)) [
    | inl e ↦
        let same : w ≡ idx = (==_iff w idx).0 e in
        let (flag', q', d, b, k', f) = absorb_lem idx (merged es flag g) q h.1 k.1 in
        (
          flag',
          q',
          absorb_same idx flag w g (num_shared q) q e ∙ d,
          b,
          k',
          λ s x. rw same (iff_trans (merged-Holds es s idx flag g q x) (f s x)),
        )
    | inr e ↦ (
      flag,
      (w, g) ∷ q,
      unfold absorb in rw e refl,
      (ground arith, Below-less idx w q (ground arith) k.0),
      k,
      λ s x. (λ y. y, λ y. y),
    )
  ]
