-- ===== src/Base/Search.antt =====
-- The result of `binary_search` and its kin of the standard library: `found` is `Ok`, and
-- `missing i` is `Err(i)`, with `i` the place where the item would keep the slice sorted.
use Prim.Native.Nat.{ℕ}

pub data Search : Type 0 where
  found : ℕ → Search
  missing : ℕ → Search
