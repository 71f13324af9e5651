-- ===== src/OtBench/Graph/Push.antt =====
-- `CausalGraph::push` of tools/ot-bench/src/cg.rs, called with versions in order.
use egwalker_paper.Base.{
  All-below_weaken, elem_bound, ℕ, suc, ◌<◌, ◌≡◌, ◌≢◌, refl, sym, ◌⊎◌, inl, inr, Bool, false, not,
  ◌&&◌, ◌||◌, List, [], ◌∷◌, ◌++◌, some, length, get_elem?, length-append, ltb, ◌==◌, All, arith,
  contains,
}
use egwalker_paper.Base.Panic.{done}
use egwalker_paper.OtBench.Frontier.{Frontier, root}
use egwalker_paper.OtBench.Frontier.Advance.{IsSorted, advance_lem}
use egwalker_paper.OtBench.Graph.{GraphEntryInternal, CausalGraph, new, push}
use egwalker_paper.OtBench.Graph.Ancestors.{IsCausal}

abbrev pub is_parent : List GraphEntryInternal → ℕ → Bool
is_parent [] x = false
is_parent (e ∷ es) x = contains e.parents x || is_parent es x

-- The frontier is the list, in order, of the versions that are no version's parent.
pub record IsGraph (g : CausalGraph) : Type 0 where
  pub causal : IsCausal g.entries
  pub sorted : IsSorted g.frontier
  pub heads :
      (x : ℕ) → contains g.frontier x ≡ (ltb x (length g.entries) && not (is_parent g.entries x))

is_parent-append :
    (es : List GraphEntryInternal) (e : GraphEntryInternal) (x : ℕ)
    → is_parent (es ++ (e ∷ [])) x ≡ (is_parent es x || contains e.parents x)
is_parent-append [] e x = ground arith
is_parent-append (f ∷ es) e x = ground (arith, is_parent-append es e x)

pub entry_append :
    (es : List GraphEntryInternal) (e f : GraphEntryInternal) (v : ℕ)
    → get_elem? (es ++ (e ∷ [])) v ≡ some f
    → (get_elem? es v ≡ some f) ⊎ ((v ≡ length es) × (e ≡ f))
entry_append [] e f ℕ.zero h = inr (refl, cc)
entry_append [] e f (ℕ.suc v) h = inl h
entry_append (d ∷ es) e f ℕ.zero h = inl h
entry_append (d ∷ es) e f (ℕ.suc v) h = elim (entry_append es e f v h) [
  | inl k ↦ inl k
  | inr (k, l) ↦ inr (omega arith, l)
]

append-IsCausal :
    (es : List GraphEntryInternal) (e : GraphEntryInternal)
    → IsCausal es
    → All (λ p. p < length es) e.parents
    → IsCausal (es ++ (e ∷ []))
append-IsCausal es e causal h v f k = elim (entry_append es e f v k) [
  | inl l ↦ causal v f l
  | inr (l, same) ↦ rw (l, sym same) h
]

All-below-not : (n : ℕ) (xs : List ℕ) → All (λ p. p < n) xs → contains xs n ≡ false
All-below-not n [] h = refl
All-below-not n (x ∷ xs) h = ground (arith, All-below-not n xs h.1, h.0)

is_parent-below :
    (n : ℕ) (es : List GraphEntryInternal)
    → ((v : ℕ) (e : GraphEntryInternal) → get_elem? es v ≡ some e → contains e.parents n ≡ false)
    → is_parent es n ≡ false
is_parent-below n [] h = refl
is_parent-below n (e ∷ es) h =
    let e0 : contains e.parents n ≡ false = h 0 e refl in
    ground (arith, is_parent-below n es (λ v. h (suc v)), e0)

ℕ-cases : (x n : ℕ) → (x ≡ n) ⊎ (x ≢ n)
ℕ-cases x n = ground arith

last_heads :
    (n x : ℕ) (in_front in_parents is_old : Bool)
    → in_front ≡ (ltb x n && not is_old)
    → (x ≡ n → is_old ≡ false)
    → (x ≡ n → in_parents ≡ false)
    → ((n == x) || (in_front && not in_parents)) ≡ (ltb x (suc n) && not (is_old || in_parents))
last_heads n x in_front in_parents is_old h k l = elim (ℕ-cases x n) [
  | inl e ↦ ground (arith, k e, l e, h)
  | inr e ↦ ground (arith, h)
]

-- The entries and the versions that `push` works on.
pushed-IsGraph :
    (g : CausalGraph) (parents : List ℕ) (r : Frontier)
    → IsGraph g
    → All (λ p. p < length g.entries) parents
    → IsSorted r
    → ((x : ℕ)
        → contains r x
          ≡ ((length g.entries == x) || (contains g.frontier x && not (contains parents x))))
    → IsGraph (record {
      entries = g.entries ++ (record { idx = length g.entries; parents = parents } ∷ []);
      frontier = r;
    })
pushed-IsGraph g parents r h k s c =
    let n = length g.entries in
    let e : GraphEntryInternal = record { idx = n; parents = parents } in
    let old : is_parent g.entries n ≡ false = is_parent-below n g.entries (λ v f l.
      All-below-not n f.parents (
        All-below_weaken v n f.parents (omega (arith, elem_bound g.entries v f l))
          (h.causal v f l))) in
    record {
      causal = append-IsCausal g.entries e h.causal k;
      sorted = s;
      heads = λ x.
          let len : length (g.entries ++ (e ∷ [])) ≡ suc n =
            omega (arith, length-append g.entries (e ∷ [])) in
          rw (c x, len, is_parent-append g.entries e x)
            (last_heads n x (contains g.frontier x) (contains parents x) (is_parent g.entries x)
              (h.heads x) (λ l. rw l old) (λ l. rw l (All-below-not n parents k)));
    }

-- In a well-formed graph, `push` of the next version, with parents that are in the graph, does not
-- panic: it adds the one entry and gives a well-formed graph again, whose frontier holds in order
-- the versions that are no version's parent.
pub push_lem :
    (g : CausalGraph) (parents : List ℕ)
    → IsGraph g
    → All (λ p. p < length g.entries) parents
    → (g' : CausalGraph) × (push (length g.entries) parents g ≡ done g')
      × (g'.entries ≡ g.entries ++ (record { idx = length g.entries; parents = parents } ∷ []))
      × IsGraph g'
push_lem g parents h k =
    let n = length g.entries in
    let fresh : contains g.frontier n ≡ false = ground (arith, h.heads n) in
    let (r, e, s, c) = advance_lem n parents g.frontier h.sorted fresh in
    (
      record { entries = g.entries ++ (record { idx = n; parents = parents } ∷ []); frontier = r },
      unfold push in rw e refl,
      refl,
      pushed-IsGraph g parents r h k s c,
    )

pub new-IsGraph : IsGraph new
unfolding new root
new-IsGraph = record {
  causal = λ v e h. absurd (ground arith);
  sorted = tt;
  heads = λ x. ground arith;
}
