-- ===== src/GroupJobs/Order.antt =====
-- The order of the jobs, and what bucket_group_jobs returns.
use mathlib.Core.Path.{subst, fun_ext}
use vapoursynth_nssfactory.Base.{
  ℕ, ◌≡◌, sym, ap, ◌∙◌, Bool, true, false, ◌&&◌, List, [], ◌∷◌, ◌<◌, ◌⊎◌, inl, inr, Bool-cases,
  Every, Perm, ltb, ◌==◌, if◌then◌else◌, not, arith,
}
use vapoursynth_nssfactory.Matcher.Order.{
  StrictWeak, by, then_by, by-StrictWeak, then_by-StrictWeak,
}
use vapoursynth_nssfactory.Matcher.TopK.Sort.{sort-IsSorted, sort-perm, IsSorted, AllAfter}
use vapoursynth_nssfactory.Raster.{GroupJob}
use vapoursynth_nssfactory.GroupJobs.{
  GroupKey, algorithm_code, flag, key_eq, key_less, job_less, bucket_group_jobs,
}

-- The order in steps, each by one number.
abbrev algorithm_of : GroupJob GroupKey → ℕ
algorithm_of j = algorithm_code j.key.algorithm

abbrev basic_of : GroupJob GroupKey → ℕ
basic_of j = flag j.key.basic

abbrev residual_of : GroupJob GroupKey → ℕ
residual_of j = flag j.key.residual

abbrev stepwise : GroupJob GroupKey → GroupJob GroupKey → Bool
stepwise =
    then_by (λ j. j.key.m)
      (then_by (λ j. j.key.k)
        (then_by (λ j. j.key.channels)
          (then_by algorithm_of (then_by basic_of (then_by residual_of (by (λ j. j.ordinal)))))))

stepwise-StrictWeak : StrictWeak stepwise
stepwise-StrictWeak =
    then_by-StrictWeak (λ j. j.key.m)
      (then_by-StrictWeak (λ j. j.key.k)
        (then_by-StrictWeak (λ j. j.key.channels)
          (then_by-StrictWeak algorithm_of (
            then_by-StrictWeak basic_of
              (then_by-StrictWeak residual_of (by-StrictWeak (λ j. j.ordinal)))))))

-- One field of the two comparisons; `same` and `less` compare the later fields, and `first` the
-- ordinals.
one_field :
    (x y : ℕ) (same first less : Bool)
    → (if (x == y) && same then first else if not (x == y) then ltb x y else less)
      ≡ (if ltb x y then true else if ltb y x then false else if same then first else less)
one_field x y same first less = ground arith

last_field :
    (x y : ℕ) (first : Bool)
    → (if x == y then first else ltb x y)
      ≡ (if ltb x y then true else if ltb y x then false else first)
last_field x y first = ground arith

abbrev then_field : ℕ → ℕ → Bool → Bool
then_field x y rest = if ltb x y then true else if ltb y x then false else rest

job_less-stepwise : (a b : GroupJob GroupKey) → job_less a b ≡ stepwise a b
unfolding job_less key_eq key_less
job_less-stepwise a b =
    one_field a.key.m b.key.m _ _ _
    ∙ ap (then_field a.key.m b.key.m) (
        one_field a.key.k b.key.k _ _ _
        ∙ ap (then_field a.key.k b.key.k) (
            one_field a.key.channels b.key.channels _ _ _
            ∙ ap (then_field a.key.channels b.key.channels) (
                one_field (algorithm_of a) (algorithm_of b) _ _ _
                ∙ ap (then_field (algorithm_of a) (algorithm_of b)) (
                    one_field (basic_of a) (basic_of b) _ _ _
                    ∙ ap (then_field (basic_of a) (basic_of b))
                        (last_field (residual_of a) (residual_of b) _)))))

-- No two keys that differ are alike in the order of keys: == and < of GroupKey agree.
pub key_eq-less : (a b : GroupKey) → key_eq a b ≡ not (key_less a b) && not (key_less b a)
unfolding key_eq key_less
key_eq-less a b = ground arith

job_less-StrictWeak : StrictWeak job_less
job_less-StrictWeak =
    subst StrictWeak (fun_ext (λ a. fun_ext (λ b. sym (job_less-stepwise a b)))) stepwise-StrictWeak

-- The fields of a job in the order of their weight: those of its key, then its ordinal. An algorithm
-- counts by its place in the enumeration.
abbrev pub weights : GroupJob GroupKey → List ℕ
weights j =
    j.key.m
    ∷ j.key.k
    ∷ j.key.channels
    ∷ algorithm_of j
    ∷ basic_of j
    ∷ residual_of j
    ∷ j.ordinal
    ∷ []

-- The lexicographic order of lists of one length.
abbrev pub LexLe : List ℕ → List ℕ → Type 0
LexLe (x ∷ xs) (y ∷ ys) = (x < y) ⊎ ((x ≡ y) × LexLe xs ys)
LexLe _ _ = Unit

-- Each value stands in the relation to every later one.
abbrev pub AreOrdered {ℓ} : {A : Type ℓ} → (A → A → Type 0) → List A → Type 0
AreOrdered R [] = Unit
AreOrdered R (x ∷ xs) = Every (R x) xs × AreOrdered R xs

lex_less : List ℕ → List ℕ → Bool
lex_less (x ∷ xs) (y ∷ ys) = then_field x y (lex_less xs ys)
lex_less _ _ = false

lex_less-LexLe : (xs ys : List ℕ) → lex_less ys xs ≡ false → LexLe xs ys
unfolding lex_less
lex_less-LexLe [] ys e = tt
lex_less-LexLe (x ∷ xs) [] e = tt
lex_less-LexLe (x ∷ xs) (y ∷ ys) e = elim (Bool-cases (ltb x y)) [
  | inl less ↦ inl (ground arith)
  | inr last ↦ inr (ground (arith, e), lex_less-LexLe xs ys (ground (arith, e, last)))
]

stepwise-lex_less : (a b : GroupJob GroupKey) → stepwise a b ≡ lex_less (weights a) (weights b)
unfolding lex_less
stepwise-lex_less a b =
    let last : ltb a.ordinal b.ordinal ≡ then_field a.ordinal b.ordinal false = ground arith in
    ap
      (λ rest. then_field a.key.m b.key.m (
        then_field a.key.k b.key.k (
          then_field a.key.channels b.key.channels (
            then_field (algorithm_of a) (algorithm_of b) (
              then_field (basic_of a) (basic_of b)
                (then_field (residual_of a) (residual_of b) rest))))))
      last

AllAfter-Every :
    (a : GroupJob GroupKey) (bs : List (GroupJob GroupKey))
    → AllAfter job_less a bs
    → Every (λ b. LexLe (weights a) (weights b)) bs
AllAfter-Every a [] h = tt
AllAfter-Every a (b ∷ bs) (h, rest) = (
  lex_less-LexLe (weights a) (weights b) (sym (job_less-stepwise b a ∙ stepwise-lex_less b a) ∙ h),
  AllAfter-Every a bs rest,
)

IsSorted-AreOrdered :
    (jobs : List (GroupJob GroupKey))
    → IsSorted job_less jobs
    → AreOrdered (λ a b. LexLe (weights a) (weights b)) jobs
IsSorted-AreOrdered [] h = tt
IsSorted-AreOrdered (a ∷ bs) (h, rest) = (AllAfter-Every a bs h, IsSorted-AreOrdered bs rest)

-- The bucketed jobs are the jobs given, each as often. An earlier one is not greater than a later one
-- in the lexicographic order of m, k, channels, the algorithm's place in the enumeration, basic,
-- residual and the ordinal: the jobs of a key are together, and in raster order. The comparison is a
-- strict weak order, as std::stable_sort wants.
pub bucket_group_jobs-AreOrdered :
    (jobs : List (GroupJob GroupKey))
    → AreOrdered (λ a b. LexLe (weights a) (weights b)) (bucket_group_jobs jobs)
      × Perm (bucket_group_jobs jobs) jobs
      × StrictWeak job_less
unfolding bucket_group_jobs
bucket_group_jobs-AreOrdered jobs = (
  IsSorted-AreOrdered _ (sort-IsSorted job_less-StrictWeak jobs),
  sort-perm job_less jobs,
  job_less-StrictWeak,
)
