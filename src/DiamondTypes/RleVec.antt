-- ===== src/DiamondTypes/RleVec.antt =====
-- `RleVec` of tools/diamond-types/src/rle/rle_vec.rs, with `RleSpanHelpers` of src/rle/mod.rs: a
-- vector of keyed entries, of which each has a length. `binary_search_by` of the standard library is
-- a scan: on entries in order, which it documents as its premise, both find the one entry there is.
pub mod Find
pub mod Gaps
pub mod Scan
pub mod Change
pub mod KvPair
mod Examples
use egwalker_paper.Base.{
  ℕ, suc, ◌+◌, ◌-◌, ◌^◌, Bool, true, false, not, ◌&&◌, List, [], ◌∷◌, ◌++◌, Option, none, some, ltb,
  leb, ◌==◌, if◌then◌else◌, length, get_elem?,
}
use egwalker_paper.Base.Panic.{Outcome, done, panic, checked_sub, ◌>>=◌, ◌>>◌}
use egwalker_paper.Base.Search.{Search, found, missing}
use egwalker_paper.DiamondTypes.DtRange.{DtRange}

abbrev pub usize_max : ℕ
usize_max = 2 ^ 64 - 1

-- `self.0[i]`
pub index {ℓ} : {Elem : Type ℓ} → List Elem → ℕ → Outcome Elem
index es i = elim (get_elem? es i) [ none ↦ panic | some e ↦ done e ]

-- `self.0.last()`
abbrev pub last_entry {ℓ} : {Elem : Type ℓ} → List Elem → Option Elem
last_entry [] = none
last_entry (e ∷ []) = some e
last_entry (e ∷ f ∷ es) = last_entry (f ∷ es)

module _ {ℓ} {Elem : Type ℓ} (rle_key : Elem → ℕ) (len : Elem → Outcome ℕ) where
  -- `RleSpanHelpers::end`, `last` and `span`
  pub entry_end : Elem → Outcome ℕ
  entry_end e = do n ← len e; done (rle_key e + n)

  pub entry_last : Elem → Outcome ℕ
  unfolding entry_end
  entry_last e = do end ← entry_end e; checked_sub end 1

  pub entry_span : Elem → Outcome DtRange
  entry_span e = do n ← len e; done (record { start = rle_key e; end = rle_key e + n })

  pub vec_end : List Elem → Outcome ℕ
  unfolding entry_end
  vec_end es = elim (last_entry es) [ none ↦ done 0 | some e ↦ entry_end e ]

  pub find_from : ℕ → List Elem → ℕ → Outcome Search
  find_from i [] needle = done (missing i)
  find_from i (e ∷ es) needle =
      let rest = find_from (suc i) es needle in
      let here = (do n ← len e; if leb (rle_key e + n) needle then rest else done (found i)) in
      if ltb needle (rle_key e) then done (missing i) else here

  pub find_index : List Elem → ℕ → Outcome Search
  find_index es needle = find_from 0 es needle

  pub find_next_index : List Elem → ℕ → Outcome ℕ
  find_next_index es needle = do
    r ← find_index es needle
    elim r [ found i ↦ done i | missing i ↦ done i ]

  pub find : List Elem → ℕ → Outcome (Option Elem)
  find es needle = do
    r ← find_index es needle
    elim r [ found i ↦ (do e ← index es i; done (some e)) | missing i ↦ done none ]

  -- `find(needle).unwrap()`
  pub find_packed : List Elem → ℕ → Outcome Elem
  find_packed es needle = do r ← find es needle; elim r [ none ↦ panic | some e ↦ done e ]

  pub find_with_offset : List Elem → ℕ → Outcome (Option (Elem × ℕ))
  find_with_offset es needle = do
    r ← find_index es needle
    elim r [
      | found i ↦ (do
        e ← index es i
        offset ← checked_sub needle (rle_key e)
        done (some (e, offset)))
      | missing i ↦ done none
    ]

  pub find_packed_with_offset : List Elem → ℕ → Outcome (Elem × ℕ)
  find_packed_with_offset es needle = do
    r ← find_with_offset es needle
    elim r [ none ↦ panic | some entry ↦ done entry ]

  pub contains_needle : List Elem → ℕ → Outcome Bool
  contains_needle es needle =
      if length es == 0
      then done false
      else (do r ← find_index es needle; elim r [ found i ↦ done true | missing i ↦ done false ])

  -- The first component of `find_sparse` is the entry, or the gap around the needle.
  pub data Sparse : Type ℓ where
    item : Elem → Sparse
    gap : DtRange → Sparse

  abbrev pub next_key : List Elem → ℕ → ℕ
  next_key es i = elim (get_elem? es i) [ none ↦ usize_max | some e ↦ rle_key e ]

  pub find_sparse : List Elem → ℕ → Outcome (Sparse × ℕ)
  find_sparse es needle = do
    r ← find_index es needle
    elim r [
      | found i ↦ (do
        e ← index es i
        offset ← checked_sub needle (rle_key e)
        done (item e, offset))
      | missing i ↦
          if i == 0 then done (gap (record { start = 0; end = next_key es i }), needle) else (do
            j ← checked_sub i 1
            prev ← index es j
            end ← entry_end prev
            offset ← checked_sub needle end
            done (gap (record { start = end; end = next_key es i }), offset))
    ]

  -- `search_scanning_sparse` from the front of the entries behind `idx`: what it returns, and `idx`.
  pub data Scanned : Type ℓ where
    hit : Elem → Scanned
    miss : ℕ → Scanned

  pub scan_from : ℕ → List Elem → ℕ → Outcome (Scanned × ℕ)
  scan_from idx [] needle = done (miss usize_max, idx)
  scan_from idx (e ∷ es) needle =
      let rest = scan_from (suc idx) es needle in
      do
        end ← entry_end e
        if ltb needle end
            then (if leb (rle_key e) needle
                then done (hit e, idx)
                else done (miss (rle_key e), idx))
            else rest

  -- `check_packed_from_0`, whose assertion panics.
  pub check_packed_from : ℕ → List Elem → Outcome (Unit {0})
  check_packed_from expect_next [] = done tt
  check_packed_from expect_next (e ∷ es) =
      let rest = λ (next : ℕ). check_packed_from next es in
      if rle_key e == expect_next then entry_end e >>= rest else panic

  pub check_packed_from_0 : List Elem → Outcome (Unit {0})
  check_packed_from_0 es = check_packed_from 0 es

  -- What `for_each_sparse` shows its visitor, in order.
  pub visits : ℕ → List Elem → ℕ → Outcome (List Sparse)
  visits key [] end =
      done (if ltb key end then gap (record { start = key; end = end }) ∷ [] else [])
  visits key (e ∷ es) end = do
    next ← entry_end e
    rest ← visits next es end
    done (
        if ltb key (rle_key e)
        then gap (record { start = key; end = rle_key e }) ∷ item e ∷ rest
        else item e ∷ rest)

  pub for_each_sparse : List Elem → ℕ → Outcome (List Sparse)
  for_each_sparse es end = visits 0 es end
