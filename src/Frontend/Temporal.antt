-- ===== src/Frontend/Temporal.antt =====
-- src/frontend/temporal_args.cpp: the temporal mode, and the chunk and cache of the rolling mode.
use Prim.Native.String.{String, [] as empty_text, ◌∷◌ as ◌char◌}
use Prim.Native.Char.{code}
use vapoursynth_nssfactory.Base.{
  ℕ, ◌+◌, Bool, true, false, ◌&&◌, ◌||◌, not, ltb, ◌==◌, if◌then◌else◌, ℤ, pos, ltb_ℤ, ◌≤ℤ◌, Option,
  none, some, List, [], ◌∷◌, Result, ok, reject_if, chain, Sound, reject-Sound, if-Sound, ok-Sound,
  chain-Sound, ◌≡◌, refl, arith, ◌⊎◌, inl, inr,
}
use vapoursynth_nssfactory.Frontend.{VsApi, fail, map_int, int_given}

pub data TemporalMode : Type 0 where
  legacy : TemporalMode
  rolling : TemporalMode

-- Whether a backend takes one cache size, or a limit and a number of chunks.
pub data RollingCache : Type 0 where
  fixed : RollingCache
  adaptive : RollingCache

pub record RollingParams : Type 0 where
  pub rolling_chunk : ℤ
  pub cache_limit : ℤ
  pub cache_chunks : ℤ

pub record TemporalRequest : Type 0 where
  pub rolling_requested : Bool
  pub params : RollingParams

abbrev pub default_params : RollingParams
default_params = record { rolling_chunk = pos 4; cache_limit = pos 1; cache_chunks = pos 1 }

-- The characters of a text by their numbers, in lower case.
abbrev lower_code : ℕ → ℕ
lower_code c = if not (ltb c 65) && not (ltb 90 c) then c + 32 else c

abbrev lower : String → List ℕ
lower empty_text = []
lower (c char text) = lower_code (code c) ∷ lower text

abbrev same_codes : List ℕ → List ℕ → Bool
same_codes [] [] = true
same_codes [] (d ∷ ds) = false
same_codes (c ∷ cs) [] = false
same_codes (c ∷ cs) (d ∷ ds) = (c == d) && same_codes cs ds

abbrev text_or_empty : Option String → List ℕ
text_or_empty none = []
text_or_empty (some text) = lower text

abbrev is_rolling : TemporalMode → Bool
is_rolling rolling = true
is_rolling legacy = false

abbrev is_adaptive : RollingCache → Bool
is_adaptive adaptive = true
is_adaptive fixed = false

-- `v < low || v > high`.
abbrev pub outside : ℤ → ℕ → ℕ → Bool
outside v low high = ltb_ℤ v (pos low) || ltb_ℤ (pos high) v

module _ {ℓ} {M : Type ℓ} (api : VsApi M) (args : M) (ns filter : String) where
  -- The tests of parse_temporal_mode on the mode in lower case.
  unfoldable pub mode_of : List ℕ → ℤ → TemporalMode → Result TemporalMode
  mode_of mode radius unset =
      reject_if (same_codes mode (lower "fused"))
        (fail ns filter "temporal_mode=fused is not supported; use rolling or legacy")
        (reject_if
          (not (same_codes mode [])
            && not (same_codes mode (lower "rolling"))
            && not (same_codes mode (lower "legacy")))
          (fail ns filter "temporal_mode must be rolling or legacy")
          (ok (
            if not (ltb_ℤ (pos 0) radius)
            then legacy
            else if same_codes mode []
            then unset
            else if same_codes mode (lower "rolling")
            then rolling
            else legacy)))

  unfoldable pub parse_temporal_mode : ℤ → TemporalMode → Result TemporalMode
  unfolding mode_of
  parse_temporal_mode radius unset =
      mode_of (text_or_empty (api.get_data args "temporal_mode" 0)) radius unset

  -- The last tests of parse_rolling.
  unfoldable pub check_cache : RollingParams → Result RollingParams
  check_cache p =
      reject_if (outside p.cache_limit 1 64 || outside p.cache_chunks 1 64)
        (fail ns filter "rolling_cache_limit must be in [1, 64]")
        (reject_if (ltb_ℤ p.cache_limit p.cache_chunks)
          (fail ns filter "rolling_cache_limit must be at least rolling_cache_chunks") (ok p))

  unfoldable pub parse_rolling : ℤ → RollingCache → Result RollingParams
  parse_rolling radius cache =
      let chunk = map_int api args "rolling_chunk" (if is_adaptive cache then pos 1 else pos 4) in
      let limit_given = int_given api args "rolling_cache_limit" in
      let limit =
        map_int api args "rolling_cache_limit" (if is_adaptive cache then pos 16 else pos 1) in
      let chunks_given = int_given api args "rolling_cache_chunks" in
      let chunks = map_int api args "rolling_cache_chunks" (pos 1) in
      reject_if (ltb_ℤ radius (pos 1)) (fail ns filter "rolling mode requires radius > 0") (
        reject_if (outside chunk 1 64) (fail ns filter "rolling_chunk must be in [1, 64]") (
          if not (is_adaptive cache)
          then reject_if (limit_given && chunks_given)
              (fail ns filter "use only one of rolling_cache_limit and rolling_cache_chunks")
              (check_cache record {
                rolling_chunk = chunk;
                cache_limit = if chunks_given then chunks else limit;
                cache_chunks = if chunks_given then chunks else limit;
              })
          else check_cache record {
            rolling_chunk = chunk;
            cache_limit = if not limit_given && chunks_given then chunks else limit;
            cache_chunks = chunks;
          }))

  unfoldable pub parse_temporal : ℤ → TemporalMode → RollingCache → Result TemporalRequest
  parse_temporal default_radius unset cache =
      let radius = map_int api args "radius" default_radius in
      chain (parse_temporal_mode radius unset) (λ mode.
        if is_rolling mode
        then chain (parse_rolling radius cache)
            (λ params. ok record { rolling_requested = true; params = params })
        else ok record { rolling_requested = false; params = default_params })

-- What parse_rolling promises.
pub record IsRolling (cache : RollingCache) (p : RollingParams) : Type 0 where
  pub chunk_least : pos 1 ≤ℤ p.rolling_chunk
  pub chunk_most : p.rolling_chunk ≤ℤ pos 64
  pub chunks_least : pos 1 ≤ℤ p.cache_chunks
  pub chunks_in_limit : p.cache_chunks ≤ℤ p.cache_limit
  pub limit_most : p.cache_limit ≤ℤ pos 64
  pub one_size : (is_adaptive cache ≡ true) ⊎ (p.cache_limit ≡ p.cache_chunks)

module _ {ℓ} {M : Type ℓ} (api : VsApi M) (args : M) (ns filter : String) where
  check_cache-Sound :
      (radius : ℤ) (cache : RollingCache) (p : RollingParams)
      → pos 1 ≤ℤ radius
      → outside p.rolling_chunk 1 64 ≡ false
      → (is_adaptive cache ≡ true) ⊎ (p.cache_limit ≡ p.cache_chunks)
      → Sound (λ p. (pos 1 ≤ℤ radius) × IsRolling cache p) (check_cache api args ns filter p)
  unfolding check_cache
  check_cache-Sound radius cache p long chunk same = reject-Sound _ _ _ λ sizes.
      reject-Sound _ _ _ λ order. ok-Sound _ (
        long,
        record {
          chunk_least = ground arith;
          chunk_most = ground arith;
          chunks_least = ground arith;
          chunks_in_limit = ground arith;
          limit_most = ground arith;
          one_size = same;
        },
      )

  parse_rolling-Sound :
      (radius : ℤ) (cache : RollingCache)
      → Sound
          (λ p. (pos 1 ≤ℤ radius) × IsRolling cache p)
          (parse_rolling api args ns filter radius cache)
  unfolding parse_rolling
  parse_rolling-Sound radius cache = reject-Sound _ _ _ λ r. reject-Sound _ _ _ λ chunk.
      if-Sound (not (is_adaptive cache)) _ _
        (λ f.
          reject-Sound _ _ _
            λ one. check_cache-Sound radius cache _ (ground arith) chunk (inr refl))
        (λ f. check_cache-Sound radius cache _ (ground arith) chunk (inl (ground arith)))

  -- What the arguments of the rolling mode come to: if parse_temporal returns a request, then either
  -- rolling is not requested, or the radius is at least 1, and the parameters are a chunk of 1 to 64
  -- frames and a cache of 1 to 64 chunks, which is not larger than its limit of at most 64, and equal
  -- to it for a backend with a fixed cache.
  pub parse_temporal-IsRolling :
      (default_radius : ℤ) (unset : TemporalMode) (cache : RollingCache) (request : TemporalRequest)
      → parse_temporal api args ns filter default_radius unset cache ≡ ok request
      → request.rolling_requested ≡ true
      → (pos 1 ≤ℤ map_int api args "radius" default_radius) × IsRolling cache request.params
  unfolding parse_temporal
  parse_temporal-IsRolling default_radius unset cache request e =
      let radius = map_int api args "radius" default_radius in
      Sound.returns {P = Promised}
        (chain-Sound {P = λ mode. Unit} {Q = Promised}
          (parse_temporal_mode api args ns filter radius unset) _
          (record { returns = λ mode k. tt })
          (λ mode u.
            if-Sound (is_rolling mode) _ _
              (λ r. chain-Sound _ _ (parse_rolling-Sound radius cache) (λ p h. ok-Sound _ (λ k. h)))
              (λ r. ok-Sound _ (λ k. absurd (ground arith)))))
        request e
    where
      Promised : TemporalRequest → Type 0
      Promised request =
          request.rolling_requested ≡ true
          → (pos 1 ≤ℤ map_int api args "radius" default_radius) × IsRolling cache request.params
