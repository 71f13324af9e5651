-- ===== src/OtBench/TextOp/Edits.antt =====
-- The specification of the text operations of tools/ot-bench/src/ot_text.rs: an operation as one
-- edit for each character, its effect on a document, and transformation and composition of edits.
pub mod Bulk
use egwalker_paper.Base.{
  ℕ, zero, suc, ◌≡◌, refl, ap, sym, ◌∙◌, Bool, true, false, not, List, [], ◌∷◌, ◌++◌, arith,
  replicate,
}

-- Keep the next character, delete it, or insert a character before it.
pub data Edit : Type 0 where
  keep cut : Edit
  put : ℕ → Edit

-- The document after the edits; past the last edit it is unchanged.
unfoldable pub apply_edits : List Edit → List ℕ → List ℕ
apply_edits [] doc = doc
apply_edits (put c ∷ es) doc = c ∷ apply_edits es doc
apply_edits (keep ∷ es) [] = apply_edits es []
apply_edits (keep ∷ es) (c ∷ doc) = c ∷ apply_edits es doc
apply_edits (cut ∷ es) [] = apply_edits es []
apply_edits (cut ∷ es) (c ∷ doc) = apply_edits es doc

-- The document has every character that the edits keep or delete.
abbrev pub Fits : List Edit → List ℕ → Type 0
Fits [] doc = Unit
Fits (put c ∷ es) doc = Fits es doc
Fits (keep ∷ es) [] = ⊥
Fits (keep ∷ es) (c ∷ doc) = Fits es doc
Fits (cut ∷ es) [] = ⊥
Fits (cut ∷ es) (c ∷ doc) = Fits es doc

-- The edits `us` for the document that `os` makes. Where both insert, `left` says that the
-- insertion of `us` comes first.
unfoldable pub xf : Bool → List Edit → List Edit → List Edit
xf left us [] = us
xf left [] (keep ∷ os) = keep ∷ xf left [] os
xf left [] (cut ∷ os) = xf left [] os
xf left [] (put t ∷ os) = keep ∷ xf left [] os
xf left (put c ∷ us) (keep ∷ os) = put c ∷ xf left us (keep ∷ os)
xf left (put c ∷ us) (cut ∷ os) = put c ∷ xf left us (cut ∷ os)
xf true (put c ∷ us) (put t ∷ os) = put c ∷ xf true us (put t ∷ os)
xf false (put c ∷ us) (put t ∷ os) = keep ∷ xf false (put c ∷ us) os
xf left (keep ∷ us) (put t ∷ os) = keep ∷ xf left (keep ∷ us) os
xf left (cut ∷ us) (put t ∷ os) = keep ∷ xf left (cut ∷ us) os
xf left (keep ∷ us) (keep ∷ os) = keep ∷ xf left us os
xf left (keep ∷ us) (cut ∷ os) = xf left us os
xf left (cut ∷ us) (keep ∷ os) = cut ∷ xf left us os
xf left (cut ∷ us) (cut ∷ os) = xf left us os

pub xf_nil : (left : Bool) (us : List Edit) → xf left us [] ≡ us
unfolding xf
xf_nil left [] = refl
xf_nil left (keep ∷ us) = refl
xf_nil left (cut ∷ us) = refl
xf_nil left (put c ∷ us) = refl

-- Transformed edits fit the document that the other edits make.
pub xf-Fits :
    (l : Bool) (us os : List Edit) (doc : List ℕ)
    → Fits us doc
    → Fits os doc
    → Fits (xf l us os) (apply_edits os doc)
unfolding xf apply_edits
xf-Fits l [] [] doc f g = tt
xf-Fits l [] (keep ∷ os) [] f g = absurd g
xf-Fits l [] (keep ∷ os) (c ∷ doc) f g = xf-Fits l [] os doc f g
xf-Fits l [] (cut ∷ os) [] f g = absurd g
xf-Fits l [] (cut ∷ os) (c ∷ doc) f g = xf-Fits l [] os doc f g
xf-Fits l [] (put t ∷ os) doc f g = xf-Fits l [] os doc f g
xf-Fits l (keep ∷ us) [] doc f g = f
xf-Fits l (cut ∷ us) [] doc f g = f
xf-Fits l (put s ∷ us) [] doc f g = f
xf-Fits l (keep ∷ us) (keep ∷ os) [] f g = absurd g
xf-Fits l (keep ∷ us) (keep ∷ os) (c ∷ doc) f g = xf-Fits l us os doc f g
xf-Fits l (keep ∷ us) (cut ∷ os) [] f g = absurd g
xf-Fits l (keep ∷ us) (cut ∷ os) (c ∷ doc) f g = xf-Fits l us os doc f g
xf-Fits l (cut ∷ us) (keep ∷ os) [] f g = absurd g
xf-Fits l (cut ∷ us) (keep ∷ os) (c ∷ doc) f g = xf-Fits l us os doc f g
xf-Fits l (cut ∷ us) (cut ∷ os) [] f g = absurd g
xf-Fits l (cut ∷ us) (cut ∷ os) (c ∷ doc) f g = xf-Fits l us os doc f g
xf-Fits l (put s ∷ us) (keep ∷ os) doc f g = xf-Fits l us (keep ∷ os) doc f g
xf-Fits l (put s ∷ us) (cut ∷ os) doc f g = xf-Fits l us (cut ∷ os) doc f g
xf-Fits true (put s ∷ us) (put t ∷ os) doc f g = xf-Fits true us (put t ∷ os) doc f g
xf-Fits false (put s ∷ us) (put t ∷ os) doc f g = xf-Fits false (put s ∷ us) os doc f g
xf-Fits l (keep ∷ us) (put t ∷ os) doc f g = xf-Fits l (keep ∷ us) os doc f g
xf-Fits l (cut ∷ us) (put t ∷ os) doc f g = xf-Fits l (cut ∷ us) os doc f g

-- Two concurrent operations commute: each one, transformed past the other, leads to the same text.
pub xf_commutes :
    (us os : List Edit) (doc : List ℕ)
    → Fits us doc
    → Fits os doc
    → apply_edits (xf false os us) (apply_edits us doc)
      ≡ apply_edits (xf true us os) (apply_edits os doc)
unfolding xf apply_edits
xf_commutes [] [] doc f g = refl
xf_commutes [] (keep ∷ os) [] f g = absurd g
xf_commutes [] (keep ∷ os) (c ∷ doc) f g = ap (λ (l : List ℕ). c ∷ l) (xf_commutes [] os doc f g)
xf_commutes [] (cut ∷ os) [] f g = absurd g
xf_commutes [] (cut ∷ os) (c ∷ doc) f g = xf_commutes [] os doc f g
xf_commutes [] (put t ∷ os) doc f g = ap (λ (l : List ℕ). t ∷ l) (xf_commutes [] os doc f g)
xf_commutes (keep ∷ us) [] [] f g = absurd f
xf_commutes (keep ∷ us) [] (c ∷ doc) f g = ap (λ (l : List ℕ). c ∷ l) (xf_commutes us [] doc f g)
xf_commutes (cut ∷ us) [] [] f g = absurd f
xf_commutes (cut ∷ us) [] (c ∷ doc) f g = xf_commutes us [] doc f g
xf_commutes (put s ∷ us) [] doc f g = ap (λ (l : List ℕ). s ∷ l) (xf_commutes us [] doc f g)
xf_commutes (keep ∷ us) (keep ∷ os) [] f g = absurd f
xf_commutes (keep ∷ us) (keep ∷ os) (c ∷ doc) f g =
    ap (λ (l : List ℕ). c ∷ l) (xf_commutes us os doc f g)
xf_commutes (keep ∷ us) (cut ∷ os) [] f g = absurd f
xf_commutes (keep ∷ us) (cut ∷ os) (c ∷ doc) f g = xf_commutes us os doc f g
xf_commutes (cut ∷ us) (keep ∷ os) [] f g = absurd f
xf_commutes (cut ∷ us) (keep ∷ os) (c ∷ doc) f g = xf_commutes us os doc f g
xf_commutes (cut ∷ us) (cut ∷ os) [] f g = absurd f
xf_commutes (cut ∷ us) (cut ∷ os) (c ∷ doc) f g = xf_commutes us os doc f g
xf_commutes (put s ∷ us) (keep ∷ os) doc f g =
    ap (λ (l : List ℕ). s ∷ l) (xf_commutes us (keep ∷ os) doc f g)
xf_commutes (put s ∷ us) (cut ∷ os) doc f g =
    ap (λ (l : List ℕ). s ∷ l) (xf_commutes us (cut ∷ os) doc f g)
xf_commutes (put s ∷ us) (put t ∷ os) doc f g =
    ap (λ (l : List ℕ). s ∷ l) (xf_commutes us (put t ∷ os) doc f g)
xf_commutes (keep ∷ us) (put t ∷ os) doc f g =
    ap (λ (l : List ℕ). t ∷ l) (xf_commutes (keep ∷ us) os doc f g)
xf_commutes (cut ∷ us) (put t ∷ os) doc f g =
    ap (λ (l : List ℕ). t ∷ l) (xf_commutes (cut ∷ us) os doc f g)

-- The edits `us` and then the edits `os`, as one list.
unfoldable pub then_edits : List Edit → List Edit → List Edit
then_edits us [] = us
then_edits us (put t ∷ os) = put t ∷ then_edits us os
then_edits [] (keep ∷ os) = keep ∷ then_edits [] os
then_edits [] (cut ∷ os) = cut ∷ then_edits [] os
then_edits (cut ∷ us) (keep ∷ os) = cut ∷ then_edits us (keep ∷ os)
then_edits (cut ∷ us) (cut ∷ os) = cut ∷ then_edits us (cut ∷ os)
then_edits (keep ∷ us) (keep ∷ os) = keep ∷ then_edits us os
then_edits (keep ∷ us) (cut ∷ os) = cut ∷ then_edits us os
then_edits (put c ∷ us) (keep ∷ os) = put c ∷ then_edits us os
then_edits (put c ∷ us) (cut ∷ os) = then_edits us os

pub apply-then_edits :
    (us os : List Edit) (doc : List ℕ)
    → Fits us doc
    → Fits os (apply_edits us doc)
    → apply_edits (then_edits us os) doc ≡ apply_edits os (apply_edits us doc)
unfolding then_edits apply_edits
apply-then_edits us [] doc f g = refl
apply-then_edits us (put t ∷ os) doc f g =
    ap (λ (l : List ℕ). t ∷ l) (apply-then_edits us os doc f g)
apply-then_edits [] (keep ∷ os) [] f g = absurd g
apply-then_edits [] (keep ∷ os) (c ∷ doc) f g =
    ap (λ (l : List ℕ). c ∷ l) (apply-then_edits [] os doc f g)
apply-then_edits [] (cut ∷ os) [] f g = absurd g
apply-then_edits [] (cut ∷ os) (c ∷ doc) f g = apply-then_edits [] os doc f g
apply-then_edits (cut ∷ us) (keep ∷ os) [] f g = absurd f
apply-then_edits (cut ∷ us) (keep ∷ os) (c ∷ doc) f g = apply-then_edits us (keep ∷ os) doc f g
apply-then_edits (cut ∷ us) (cut ∷ os) [] f g = absurd f
apply-then_edits (cut ∷ us) (cut ∷ os) (c ∷ doc) f g = apply-then_edits us (cut ∷ os) doc f g
apply-then_edits (keep ∷ us) (keep ∷ os) [] f g = absurd f
apply-then_edits (keep ∷ us) (keep ∷ os) (c ∷ doc) f g =
    ap (λ (l : List ℕ). c ∷ l) (apply-then_edits us os doc f g)
apply-then_edits (keep ∷ us) (cut ∷ os) [] f g = absurd f
apply-then_edits (keep ∷ us) (cut ∷ os) (c ∷ doc) f g = apply-then_edits us os doc f g
apply-then_edits (put s ∷ us) (keep ∷ os) doc f g =
    ap (λ (l : List ℕ). s ∷ l) (apply-then_edits us os doc f g)
apply-then_edits (put s ∷ us) (cut ∷ os) doc f g = apply-then_edits us os doc f g
