-- ===== src/OtBench/Frontier.antt =====
-- `Frontier` of tools/ot-bench/src/frontier.rs: the versions of a document with no children, as a
-- sorted list. A panic of the code (`unwrap_err`, `assert!`) is `panic`; the debug assertions are
-- left out.
pub mod Advance
pub mod Sorted
use egwalker_paper.Base.{
  ℕ, ◌+◌, Bool, true, false, not, ◌&&◌, ◌||◌, List, [], ◌∷◌, ltb, leb, ◌==◌, if◌then◌else◌, length,
  get_or, set, contains, slice_eq,
}
use egwalker_paper.Base.Search.{Search, found, missing}
use egwalker_paper.Base.Panic.{Outcome, done, panic, ◌>>=◌}

abbrev pub Frontier : Type 0
Frontier = List ℕ

-- The loop of `is_sorted_slice` over `&slice[1..]`, with the variable `last`.
pub sorted_loop : Bool → ℕ → List ℕ → Bool
sorted_loop expect_uniq last [] = true
sorted_loop expect_uniq last (t ∷ ts) =
    let rest = sorted_loop expect_uniq t ts in
    if ltb t last || (expect_uniq && last == t) then false else rest

pub is_sorted_slice : Bool → List ℕ → Bool
is_sorted_slice expect_uniq [] = true
is_sorted_slice expect_uniq (x ∷ xs) = sorted_loop expect_uniq x xs

pub frontier_is_sorted : List ℕ → Bool
frontier_is_sorted f = is_sorted_slice true f

-- `sort_unstable` of the standard library: on numbers every sort gives this list.
pub insert_sorted : ℕ → List ℕ → List ℕ
insert_sorted x [] = x ∷ []
insert_sorted x (y ∷ ys) = if leb x y then x ∷ y ∷ ys else y ∷ insert_sorted x ys

pub sort_unstable : List ℕ → List ℕ
sort_unstable [] = []
sort_unstable (x ∷ xs) = insert_sorted x (sort_unstable xs)

pub sort_frontier : List ℕ → List ℕ
sort_frontier v = if not (frontier_is_sorted v) then sort_unstable v else v

unfoldable pub root : Frontier
root = []

pub from_unsorted : List ℕ → Frontier
from_unsorted items = sort_frontier items

unfoldable pub replace_with_1 : ℕ → Frontier → Frontier
replace_with_1 new_val f = new_val ∷ []

-- `binary_search` of the standard library on a sorted slice.
unfoldable pub shift_search : Search → Search
shift_search (found i) = found (i + 1)
shift_search (missing i) = missing (i + 1)

unfoldable pub binary_search : List ℕ → ℕ → Search
binary_search [] item = missing 0
binary_search (x ∷ xs) item =
    if x == item
    then found 0
    else (if ltb item x then missing 0 else shift_search (binary_search xs item))

-- `Vec::insert`, for an index that is in range.
unfoldable pub insert_at : List ℕ → ℕ → ℕ → List ℕ
insert_at xs ℕ.zero v = v ∷ xs
insert_at [] (ℕ.suc i) v = v ∷ []
insert_at (x ∷ xs) (ℕ.suc i) v = x ∷ insert_at xs i v

unfoldable pub insert_nonoverlapping : ℕ → Frontier → Outcome Frontier
insert_nonoverlapping new_item f = elim (binary_search f new_item) [
  | found i ↦ panic
  | missing new_idx ↦ done (insert_at f new_idx new_item)
]

-- `self.0.retain(|o| !parents.contains(o))`
unfoldable pub retain_not_in : List ℕ → Frontier → Frontier
retain_not_in parents [] = []
retain_not_in parents (o ∷ os) =
    let rest = retain_not_in parents os in if contains parents o then rest else o ∷ rest

unfoldable pub advance_by_known_run : ℕ → List ℕ → Frontier → Outcome Frontier
advance_by_known_run idx parents f =
    if (length parents == 1 && length f == 1) && get_or parents 0 0 == get_or f 0 0
    then done (set f 0 idx)
    else (if slice_eq f parents
        then done (replace_with_1 idx f)
        else (if contains f idx
            then panic
            else insert_nonoverlapping idx (retain_not_in parents f)))
