-- ===== src/Matcher/TopK.antt =====
-- src/cpu/bm/matcher.hpp: the policies that keep the best matches of a stream of candidates. They
-- are generic in the order. `items` stands for storage_[0, size_). A capacity of 0 stands for every
-- capacity that is not positive, and for the null storage that the policies test for as well.
pub mod Sort
pub mod Best
pub mod Steps
pub mod Stream
pub mod Stable
pub mod CachedWorst
pub mod Sorted
pub mod Agreement
