-- ===== src/Lib.antt =====
-- Verification of the Rust code of the egwalker paper's repository.
--
-- The parts of the program and the files that model them (paths from the repository's root):
-- * tools/ot-bench/src/frontier.rs, sets of versions as sorted lists: OtBench/Frontier.
-- * tools/ot-bench/src/cg.rs, the graph of versions and `diff` of two histories: OtBench/Graph.
--   The heap is a list in descending order (Heap); Ancestors defines histories.
-- * tools/ot-bench/src/ot_text.rs, text operations: OtBench/TextOp, with the iterator,
--   `transform1`, `transform2`, `transform_list` and `compose` in TextOp/Iterate. Edits and Expand
--   give the meaning of an operation as a list of single-character edits.
-- * tools/ot-bench/src/main.rs, patches and `apply` to a document: OtBench/Document; traces and the
--   document of a version, with the memo of transformed operations: OtBench/Replay. Plain is the
--   replay without memo, Memo compares the two, Reached is about the versions that the loops go
--   through, Count and Enough about the fuel, Entries about the versions that are looked up, Load
--   about the data made from a trace.
-- * tools/diamond-types/crates/rle/src, spans and lists of spans: Rle. Spans is the interface of the
--   traits HasLength, SplitableSpan and MergableSpan (splitable_span.rs), which `DTRange` and
--   `RangeRev` implement; AppendRle and MergeIter are the files of those names.
-- * tools/diamond-types/src/dtrange.rs and rev_range.rs, ranges of versions: DiamondTypes/DtRange and
--   DiamondTypes/RangeRev.
-- * tools/diamond-types/src/rle/rle_vec.rs, with RleSpanHelpers of src/rle/mod.rs, vectors of keyed
--   entries that are searched: DiamondTypes/RleVec, over any keys and lengths; its `insert`
--   and `remove_ctx`, over the spans of Rle with a key, are RleVec/Change, and
--   `KVPair` of src/rle/mod.rs is RleVec/KvPair.
-- * tools/diamond-types/src/causalgraph/graph/mod.rs, the graph of versions by runs: DiamondTypes/Graph.
--   Its entries are a RleVec. Expand gives the graph without runs, in the type of OtBench/Graph; Runs
--   says what a well-formed graph (IsDag) is, and Chain what one run is; Grow, Children, Wiring and Push
--   are about `push`.
-- * tools/diamond-types/src/causalgraph/graph/tools.rs, questions on histories: DiamondTypes/Graph/Tools,
--   with the queue of `frontier_contains_version` in Queue and its search in Contains. Its `diff` is
--   DiamondTypes/Graph/Diff: Part is about the result as far as it is written, Mark, Items and
--   Sweep about the items of one run, Rounds about the loop, Refine about the graph without runs.
--   Its `find_dominators` family is DiamondTypes/Graph/Dominators: Queue, Take, Top and Loop are
--   about the loop, Spec says what dominators are; Visits, Join and Calls are about the calls of its
--   callback.
-- * tools/diamond-types/src/frontier.rs, frontiers over that graph: DiamondTypes/Frontier. History says
--   what versions a frontier stands for; Uncovered, Round and Retreat are about `retreat`;
--   Pushed about the parents of runs, RootAdvance and Sparse about `advance_sparse`, Union about `merge_union`.
-- * tools/diamond-types/src/encoding/varint.rs, integers as 1 to 9 bytes: DiamondTypes/Encoding/Varint;
--   its hand-unrolled decoders are DiamondTypes/Encoding/Unrolled (Heads and Tails are about their
--   branches, Wide, Narrow and Flat about the decoders), its zigzag codes and extra bits are
--   DiamondTypes/Encoding/Zigzag. parseerror.rs: DiamondTypes/Encoding/Errors; bufparser.rs:
--   DiamondTypes/Encoding/BufParser.
--
-- Code that can panic returns an `Outcome` (Base/Panic). Debug assertions that only check an
-- operation's own form (`is_valid`, and `check` of a frontier at the end of `retreat`) are left out; the
-- others are in the model, but for those that a comment at a definition names. Positions and lengths
-- (`usize`) are natural numbers without bound, and sums of them are taken not to overflow; a
-- subtraction below 0 is a panic. In Encoding a sum that leaves its type is a panic, shifts and casts
-- drop high bits, a signed integer is its bit pattern, and `usize` has 64 bits.
-- Loops without a structural measure take fuel, and `stuck` is the outcome of a loop whose fuel ran
-- out: a round of the loops of TextOp/Iterate makes the length or the list of components shorter, a
-- round of `diff_rev` pops a smaller version than the round before, a round of
-- `frontier_contains_version`, of `diff` and of the dominators leaves versions below the run it looked
-- at, and a round of the loop of `push` for the shadow goes to a smaller version. A call of
-- `borrow_ops_at_version` inside another is at a version with fewer versions in its history.
--
-- A version is below half the greatest `usize` where the dominators are concerned: the code panics on
-- greater ones. A callback is a function on a state in `diff`, and a list of its calls in the dominators.
--
-- Parameters: the crate `str_indices` (StrIndices) and `JumpRopeBuf` (Rope), with the documented
-- behaviour inside the text.
--
-- Not modelled: the TypeScript reference implementation; benchmark drivers, converters and command
-- lines, which are input and output around third-party crates; and of diamond types what is not
-- listed above. Of the graph by runs that is `find_conflicting` and the subgraph, whose loops
-- need an account of conflict zones of their own; of the rest the merge, which mutates B-trees through
-- raw pointers, the operation log and its files, the content tree, and the older CRDT code.
pub mod Base
pub mod DiamondTypes
pub mod OtBench
pub mod Rle
