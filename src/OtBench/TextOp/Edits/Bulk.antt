-- ===== src/OtBench/TextOp/Edits/Bulk.antt =====
-- `xf` of runs of edits, which is how tools/ot-bench/src/ot_text.rs goes through an operation.
use egwalker_paper.Base.{
  ℕ, zero, suc, ◌≡◌, refl, ap, Bool, true, false, List, [], ◌∷◌, ◌++◌, replicate, length,
}
use egwalker_paper.OtBench.TextOp.Edits.{Edit, keep, cut, put, xf}

abbrev pub puts : List ℕ → List Edit
puts [] = []
puts (c ∷ s) = put c ∷ puts s

-- The edit that the other operation makes: `true` for a run of kept characters, `false` for a
-- run of deleted ones.
abbrev pub other_edit : Bool → Edit
other_edit true = keep
other_edit false = cut

-- What is left of an edit `e` of ours beside such an edit.
abbrev pub survivors : Bool → List Edit → List Edit
survivors true es = es
survivors false es = []

pub xf_past_end :
    (b l : Bool) (n : ℕ) (os : List Edit)
    → xf l [] (replicate n (other_edit b) ++ os) ≡ survivors b (replicate n keep) ++ xf l [] os
unfolding xf
xf_past_end true l zero os = refl
xf_past_end true l (suc n) os = ap (λ (es : List Edit). keep ∷ es) (xf_past_end true l n os)
xf_past_end false l zero os = refl
xf_past_end false l (suc n) os = xf_past_end false l n os

pub xf_runs :
    (k b l : Bool) (n : ℕ) (us os : List Edit)
    → xf l (replicate n (other_edit k) ++ us) (replicate n (other_edit b) ++ os)
      ≡ survivors b (replicate n (other_edit k)) ++ xf l us os
unfolding xf
xf_runs k true l zero us os = refl
xf_runs k false l zero us os = refl
xf_runs true true l (suc n) us os = ap (λ (es : List Edit). keep ∷ es) (xf_runs true true l n us os)
xf_runs true false l (suc n) us os = xf_runs true false l n us os
xf_runs false true l (suc n) us os =
    ap (λ (es : List Edit). cut ∷ es) (xf_runs false true l n us os)
xf_runs false false l (suc n) us os = xf_runs false false l n us os

-- Our insertions come before a kept or deleted character.
pub xf-puts :
    (b l : Bool) (s : List ℕ) (us os : List Edit)
    → xf l (puts s ++ us) (other_edit b ∷ os) ≡ puts s ++ xf l us (other_edit b ∷ os)
unfolding xf
xf-puts true l [] us os = refl
xf-puts true l (c ∷ s) us os = ap (λ (es : List Edit). put c ∷ es) (xf-puts true l s us os)
xf-puts false l [] us os = refl
xf-puts false l (c ∷ s) us os = ap (λ (es : List Edit). put c ∷ es) (xf-puts false l s us os)

-- On the left they come before anything.
pub xf-puts_left :
    (s : List ℕ) (us os : List Edit) → xf true (puts s ++ us) os ≡ puts s ++ xf true us os
unfolding xf
xf-puts_left [] us os = refl
xf-puts_left (c ∷ s) us [] = refl
xf-puts_left (c ∷ s) us (keep ∷ os) =
    ap (λ (es : List Edit). put c ∷ es) (xf-puts_left s us (keep ∷ os))
xf-puts_left (c ∷ s) us (cut ∷ os) =
    ap (λ (es : List Edit). put c ∷ es) (xf-puts_left s us (cut ∷ os))
xf-puts_left (c ∷ s) us (put t ∷ os) =
    ap (λ (es : List Edit). put c ∷ es) (xf-puts_left s us (put t ∷ os))

-- The other's insertions are skipped: on the right always, on the left where we insert nothing.
pub xf_other_puts_right :
    (t : List ℕ) (us os : List Edit)
    → xf false us (puts t ++ os) ≡ replicate (length t) keep ++ xf false us os
unfolding xf
xf_other_puts_right [] us os = refl
xf_other_puts_right (c ∷ t) [] os = ap (λ (es : List Edit). keep ∷ es) (xf_other_puts_right t [] os)
xf_other_puts_right (c ∷ t) (keep ∷ us) os =
    ap (λ (es : List Edit). keep ∷ es) (xf_other_puts_right t (keep ∷ us) os)
xf_other_puts_right (c ∷ t) (cut ∷ us) os =
    ap (λ (es : List Edit). keep ∷ es) (xf_other_puts_right t (cut ∷ us) os)
xf_other_puts_right (c ∷ t) (put x ∷ us) os =
    ap (λ (es : List Edit). keep ∷ es) (xf_other_puts_right t (put x ∷ us) os)

abbrev pub NoPut : List Edit → Type 0
NoPut (put c ∷ us) = ⊥
NoPut _ = Unit

pub xf_other_puts_left :
    (t : List ℕ) (us os : List Edit)
    → NoPut us
    → xf true us (puts t ++ os) ≡ replicate (length t) keep ++ xf true us os
unfolding xf
xf_other_puts_left [] us os h = refl
xf_other_puts_left (c ∷ t) [] os h =
    ap (λ (es : List Edit). keep ∷ es) (xf_other_puts_left t [] os h)
xf_other_puts_left (c ∷ t) (keep ∷ us) os h =
    ap (λ (es : List Edit). keep ∷ es) (xf_other_puts_left t (keep ∷ us) os h)
xf_other_puts_left (c ∷ t) (cut ∷ us) os h =
    ap (λ (es : List Edit). keep ∷ es) (xf_other_puts_left t (cut ∷ us) os h)
xf_other_puts_left (c ∷ t) (put x ∷ us) os h = absurd h
