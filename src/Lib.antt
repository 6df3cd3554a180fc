-- ===== src/Lib.antt =====
-- vapoursynth-nssfactory: video denoising filters by nonlocal self-similarity, as VapourSynth plugins
-- for the CPU, CUDA and Vulkan. A filter matches similar blocks of a frame and of its neighbours,
-- denoises each group of matches, and aggregates the groups. The development models the parts that
-- check the arguments of a filter, decide which blocks are matched and in which order their results
-- are committed, share chunks of frames between threads, and count memory; what the kernels compute
-- on pixels is left out.
--
-- The parts, and the file of each:
--   Base          library names and shared helpers: exceptions as values (Base/Errors), lists over ℕ
--                 (Base/Lists, Base/Members), Boolean tests (Base/Tests) and int (Base/Int)
--   Checked       include/nss/checked.hpp: checked_add, checked_sum, checked_mul, checked_product,
--                 checked_int, checked_solver_shape, checked_fat_height
--   Float         float32 bit patterns, and is_finite_bits of include/nss/cpu_common.hpp. Float/Round
--                 rounds to float32: the cast of a double, products and quotients
--   Matcher       src/cpu/bm/matcher.hpp: Match, match_tie_less, match_less. Matcher/TopK holds the
--                 policies that keep the best candidates (StableTopK, SortedTopK, CachedWorstTopK)
--                 and Matcher/Spatial collect_spatial_coords, which feeds one of them. Matcher/Temporal
--                 has collect_temporal, which follows the best blocks into the frames around, and
--                 Matcher/Nch predictive_match_nch of src/cpu/mcwnnm/match_nch.cpp, which checks
--                 the arguments and calls both
--   Resources     include/nss/resources.hpp: ResourceBudget and the ResourceAccounts charged to it;
--                 acquire uses the checked sums
--   ChunkCache    src/gpuhost/chunk_cache.hpp: class ChunkCache. ChunkCache/World is the step relation
--                 of the threads that share one
--   FrameMemory   src/frontend/frame_memory.cpp: which blocks of a core's frame pool are locked for
--                 transfers. FrameMemory/World has the instances and the threads that lock a block
--   Workspace     src/host/workspace.cpp: class Workspace, the scratch buffers of the threads, which
--                 are charged to an account of Resources
--   Temporal      src/frontend/temporal.hpp: temporal_first, temporal_last, temporal_slot_frame
--   Raster        src/host/batch_runner.hpp: append_raster_jobs and RasterJobs
--   GroupJobs     include/nss/cpu_batch.hpp: GroupKey with its comparisons, and bucket_group_jobs
--   CommitQueue   include/nss/cpu_batch.hpp: OrderedCommitQueue. CommitQueue/Invariant has its callers,
--                 who submit and drain in any order
--   SlotPool      src/cuda/runtime/stream_pool.hpp: SlotPool, with the threads that wait for a slot
--   WindowCache   src/vulkan/common/window_cache.hpp: WindowCache and Window, with the requests that
--                 open, queue, read and close windows in any order. A WindowFrame* is a place in
--                 WindowCache::frames
--   Frontend      src/frontend: validate.cpp and args.hpp, the helpers that read a VapourSynth map.
--                 Frontend/Numeric is validate_numeric_args; the parsers are in Frontend/Temporal
--                 (temporal_args.cpp), Frontend/Groups (wnnm_args.cpp, ncsr_args.cpp, mcwnnm_args.cpp),
--                 Frontend/Windows (nlm_args.cpp, pnlm_args.cpp, bm4d_args.cpp, da3d_args.cpp),
--                 Frontend/Bm3d (bm3d_args.cpp), Frontend/Nlh and Frontend/FullImage
--                 (full_image_args.cpp, with include/nss/params/nlh.hpp in Frontend/Nlh/Preset), and
--                 Frontend/Shapes (lssc_args.cpp, vaggregate_args.cpp). Frontend/Contribution is
--                 contribution.hpp, with a map of frame properties as the parameter PropsApi
--   Examples      the theorems at concrete inputs
--
-- The parts meet at few points: FrameMemory and Resources count a std::size_t with the same `plus`
-- and `minus`, Resources acquires with Checked's checked_add, and a ChunkCache is independent of
-- both. The parsers call the helpers of Frontend, and those of LSSC and VAggregate also Checked.
-- bucket_group_jobs sorts the jobs of Raster with the sort of Matcher. A Workspace charges its blocks
-- to an account of Resources.
--
-- How the code is read. An operation is a function of the object's state that returns the new state;
-- what can throw returns a Result. The code runs under one mutex per object, so the threads of a
-- ChunkCache are sequences of whole critical sections, in any order: a get() is a request, then a
-- commit or a throw, then rounds of the loop that makes room, between which other threads run. A
-- wait on the condition variable changes nothing and is no step, except in a SlotPool, where a
-- thread that looks in vain falls asleep. A std::size_t is a natural number whose sums are taken
-- modulo 2 ^ 64 where the code does not check them, an int is an integer, and a float32 is its bit
-- pattern, as is a double. A parser is a chain of tests, each with the error of the source and in
-- its order; what it reads in between is read first, since reading a map changes nothing. A loop
-- that writes an array is a recursion over its places. std::sort and std::stable_sort are an
-- insertion sort, which is stable; matches that a search compares are told apart by their order, so
-- that any sort returns the same list.
--
-- Loops. The policies and the search recurse on their lists and counts. The loop of get() that makes
-- room has fuel (ChunkCache.settle): the length of the cache is enough, since every round drops a
-- chunk. So has the loop of OrderedCommitQueue::drain: the number of pending items is enough, since
-- every round takes one. The halving in Float.Round has 2300 rounds, enough for every quotient of
-- the least subnormals, and that of nlh_resolve_preset as many as q. The loops of append_raster_jobs
-- have as much fuel as their end, which is enough since every round adds a step of at least 1.
--
-- Parameters. VapourSynth's map and the two helpers of VSHelper4.h that the parsers call are a
-- record of functions, VsApi; nothing is assumed of them, and the examples take an association list.
-- The distance of two blocks, which SIMD kernels compute, is an argument of the search, and the address
-- that posix_memalign gives, or its failure, one of Workspace's get. What the
-- host returns (the id of a release hook, the cap of a core's locks, the block of a plane) and what
-- the backend's lock returns are arguments of FrameMemory's functions. Its steps assume what the
-- host and the filters keep to: an instance in use is not destroyed, a block that a thread is
-- locking is not given back, a core's frames lie in its own pool, caps are below 2 ^ 63 and blocks
-- below 2 ^ 62 bytes. A constructor and a destructor are one step each, as attach_mu orders them; in
-- between, the sections of other cores under mu touch other entries.
--
-- What is not modelled: of the frontend, the calls back into VapourSynth (aggregate_rolling,
-- bm3d_two_nodes, checked_create) and the geometry check of full-image filters; pixels, transforms
-- and solvers (SIMD, CUDA and Vulkan kernels), the frames of VapourSynth, the content
-- of a chunk's store, and PlanOrder, whose waits are a matter of time only.
pub mod Base
pub mod Checked
pub mod CommitQueue
pub mod SlotPool
pub mod WindowCache
pub mod GroupJobs
pub mod Frontend
pub mod Float
pub mod Matcher
pub mod Resources
pub mod ChunkCache
pub mod FrameMemory
pub mod Temporal
pub mod Workspace
pub mod Raster
pub mod Examples
