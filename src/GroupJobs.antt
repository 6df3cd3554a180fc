-- ===== src/GroupJobs.antt =====
-- include/nss/cpu_batch.hpp: the keys of group jobs, and the sort that puts the jobs of one key
-- together (bucket_group_jobs).
pub mod Order
use mathlib.Core.Path.{subst, fun_ext}
use vapoursynth_nssfactory.Base.{
  ℕ, ◌≡◌, sym, ap, ◌∙◌, Bool, true, false, ◌&&◌, List, [], ◌∷◌, ◌<◌, ◌⊎◌, inl, inr, Bool-cases,
  Every, Perm, ltb, ◌==◌, if◌then◌else◌, not, arith,
}
use vapoursynth_nssfactory.Matcher.Order.{
  StrictWeak, by, then_by, by-StrictWeak, then_by-StrictWeak,
}
use vapoursynth_nssfactory.Matcher.TopK.Sort.{sort, sort-IsSorted, sort-perm, IsSorted, AllAfter}
use vapoursynth_nssfactory.Raster.{GroupJob}

pub data GroupAlgorithm : Type 0 where
  bm3d : GroupAlgorithm
  wnnm : GroupAlgorithm
  twsc : GroupAlgorithm
  mcwnnm : GroupAlgorithm
  ncsr : GroupAlgorithm
  nlh : GroupAlgorithm
  lssc : GroupAlgorithm

-- `static_cast<std::uint8_t>(algorithm)`.
unfoldable pub algorithm_code : GroupAlgorithm → ℕ
algorithm_code bm3d = 0
algorithm_code wnnm = 1
algorithm_code twsc = 2
algorithm_code mcwnnm = 3
algorithm_code ncsr = 4
algorithm_code nlh = 5
algorithm_code lssc = 6

-- The int fields are not negative: group sizes and counts.
pub record GroupKey : Type 0 where
  pub m : ℕ
  pub k : ℕ
  pub channels : ℕ
  pub algorithm : GroupAlgorithm
  pub basic : Bool
  pub residual : Bool

abbrev pub flag : Bool → ℕ
flag false = 0
flag true = 1

unfoldable pub key_eq : GroupKey → GroupKey → Bool
unfolding algorithm_code
key_eq a b =
    (a.m == b.m)
    && ((a.k == b.k)
        && ((a.channels == b.channels)
            && ((algorithm_code a.algorithm == algorithm_code b.algorithm)
                && ((flag a.basic == flag b.basic) && (flag a.residual == flag b.residual)))))

unfoldable pub key_less : GroupKey → GroupKey → Bool
unfolding algorithm_code
key_less a b =
    if not (a.m == b.m)
    then ltb a.m b.m
    else if not (a.k == b.k)
    then ltb a.k b.k
    else if not (a.channels == b.channels)
    then ltb a.channels b.channels
    else if not (algorithm_code a.algorithm == algorithm_code b.algorithm)
    then ltb (algorithm_code a.algorithm) (algorithm_code b.algorithm)
    else if not (flag a.basic == flag b.basic)
    then ltb (flag a.basic) (flag b.basic)
    else ltb (flag a.residual) (flag b.residual)

unfoldable pub job_less : GroupJob GroupKey → GroupJob GroupKey → Bool
unfolding key_eq key_less
job_less a b = if key_eq a.key b.key then ltb a.ordinal b.ordinal else key_less a.key b.key

unfoldable pub bucket_group_jobs : List (GroupJob GroupKey) → List (GroupJob GroupKey)
unfolding job_less key_eq key_less
bucket_group_jobs jobs = sort job_less jobs
