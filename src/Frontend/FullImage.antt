-- ===== src/Frontend/FullImage.antt =====
-- src/frontend/full_image_args.cpp: the arguments of TWSC, and what TWSC and NLH have in common. A stop
-- comes where the source has one; the arguments of NLH are those of Frontend.Nlh.
use Prim.Native.String.{String}
use vapoursynth_nssfactory.Base.{
  ℕ, zero, suc, Bool, false, ◌&&◌, ◌||◌, not, if◌then◌else◌, ℤ, pos, pos_part, ltb_ℤ, ◌+ℤ◌, ◌*ℤ◌,
  Option, none, some, List, [], ◌∷◌, get_or, set, Result, ok, reject_if, chain,
}
use vapoursynth_nssfactory.Float.{F32, float_lt}
use vapoursynth_nssfactory.Float.Round.{F64, double_lt, float_div}
use vapoursynth_nssfactory.Temporal.{min_ℤ}
use vapoursynth_nssfactory.Frontend.{
  VsApi, VideoInfo, fail, map_float_array, is_const_32f, same_video, eq_ℤ, broadcast_place,
}
use vapoursynth_nssfactory.Frontend.Groups.{default_sigma, three_sigmas}
use vapoursynth_nssfactory.Frontend.Nlh.{
  NlhImageOptions, fail_plain, present, integer, real, parse_nlh, double_one, float_max,
}

pub record TwscImageOptions : Type 0 where
  pub block : ℤ
  pub group : ℤ
  pub iterations : ℤ
  pub step : ℤ
  pub window : ℤ
  pub radius : ℤ
  pub ps_num : ℤ
  pub ps_range : ℤ
  pub lambda2 : F64
  pub delta : F64
  pub solver_iterations : ℤ
  pub rho : F64
  pub mu : F64
  pub tolerance : F64
  pub cfast : Bool

-- The model's own options, and `estimate`.
pub data ModelOptions : Type 0 where
  twsc_options : TwscImageOptions → Bool → ModelOptions
  nlh_options : NlhImageOptions → Bool → ModelOptions

pub record FullImageParams : Type 0 where
  pub sigma : List F32
  pub sigma_units : List F64
  pub options : ModelOptions

abbrev double_of : Option F64 → F64
double_of none = 0
double_of (some v) = v

module _ {ℓ} {M : Type ℓ} (api : VsApi M) (args : M) where
  abbrev is_set : ℤ → Bool
  is_set v = not (eq_ℤ v (pos 0))

  unfoldable pub twsc_window : String → Result ℤ
  twsc_window ns =
      if present api args "bm_range"
      then chain (integer api args "bm_range" (pos 0) 1 (pos 64) ns)
          (λ range. ok (pos 2 *ℤ range +ℤ pos 1))
      else integer api args "search_window" (pos 60) 1 (pos 129) ns

  unfoldable pub parse_twsc : Bool → String → Result ModelOptions
  parse_twsc sigma_given ns =
      chain (integer api args "estimate_sigma" (pos 0) 0 (pos 1) ns) (λ estimate.
        reject_if (is_set estimate && sigma_given)
          (fail ns "TWSC" "estimate_sigma and explicit sigma are mutually exclusive")
          (chain (integer api args "block_size" (pos 8) 1 (pos 16) ns) (λ block.
            chain (integer api args "group_size" (pos 8) 1 (pos 256) ns) (λ group.
              chain
                (integer api args "block_step"
                  (if present api args "block_step" then pos 8 else min_ℤ (pos 8) block) 1 block ns)
                (λ step. chain (integer api args "iters" (pos 2) 1 (pos 64) ns) (λ iterations.
                  chain (twsc_window ns) (λ window.
                    chain (integer api args "radius" (pos 0) 0 (pos 16) ns) (λ radius.
                      chain (integer api args "ps_num" (pos 2) 1 (pos 256) ns) (λ ps_num_read.
                        chain (integer api args "ps_range" (pos 4) 1 (pos 64) ns) (λ ps_range.
                          let ps_num =
                            if eq_ℤ group (pos 1) && not (present api args "ps_num")
                            then pos 1
                            else ps_num_read in
                          reject_if (ltb_ℤ group ps_num)
                            (fail ns "TWSC" "ps_num exceeds resolved group_size")
                            (chain (real api args "lambda2" double_one 0 float_max ns) (λ lambda2.
                              chain (real api args "delta" 0 0 double_one ns) (λ delta.
                                chain (integer api args "admm_iter" (pos 10) 1 (pos 1000) ns)
                                  (λ rounds.
                                    chain (real api args "rho" 0x3fe0000000000000 0 float_max ns)
                                      (λ rho.
                                        chain
                                          (real api args "mu" 0x3ff199999999999a double_one
                                            float_max ns)
                                          (λ mu.
                                            chain
                                              (real api args "tol" 0x3eb0c6f7a0b5ed8d 0 float_max
                                                ns)
                                              (λ tolerance.
                                                reject_if
                                                  (not (double_lt 0 rho)
                                                    || not (double_lt 0 tolerance))
                                                  (fail ns "TWSC" "rho and tol must be positive")
                                                  (chain
                                                    (integer api args "cfast" (pos 1) 0 (pos 1) ns)
                                                    (λ cfast. ok (
                                                      twsc_options
                                                        record {
                                                          block = block;
                                                          group = group;
                                                          iterations = iterations;
                                                          step = step;
                                                          window = window;
                                                          radius = radius;
                                                          ps_num = ps_num;
                                                          ps_range = ps_range;
                                                          lambda2 = lambda2;
                                                          delta = delta;
                                                          solver_iterations = rounds;
                                                          rho = rho;
                                                          mu = mu;
                                                          tolerance = tolerance;
                                                          cfast = is_set cfast;
                                                        }
                                                        (is_set estimate)))))))))))))))))))))

  -- The loop over the planes: the values as doubles, and their checks.
  unfoldable pub units_loop : String → Bool → List F32 → ℕ → ℕ → List F64 → Result (List F64)
  units_loop ns sigma_given sigma zero c units = ok units
  units_loop ns sigma_given sigma (suc count) c units =
      let m = pos_part (api.num_elements args "sigma") in
      let read = double_of (api.get_float args "sigma" (broadcast_place api args "sigma" m c)) in
      let unit = if sigma_given then read else get_or units c 0 in
      let rest = units_loop ns sigma_given sigma count (suc c) (set units c unit) in
      reject_if (double_lt unit 0) (fail_plain ns "sigma must be nonnegative") (
        reject_if (double_lt 0 unit && not (float_lt 0 (float_div (get_or sigma c 0) 0x437f0000)))
          (fail_plain ns "positive sigma is not representable after float32 normalization") rest)

  abbrev differs : VideoInfo → Option VideoInfo → Bool
  differs vi none = false
  differs vi (some rclip_vi) = not (same_video api vi rclip_vi)

  -- 3, as a double, thrice.
  abbrev three_units : List F64
  three_units = 0x4008000000000000 ∷ 0x4008000000000000 ∷ 0x4008000000000000 ∷ []

  unfoldable pub parse_full_image :
      VideoInfo → Option VideoInfo → Bool → String → Result FullImageParams
  parse_full_image vi rclip_vi is_twsc ns =
      let np = vi.format.num_planes in
      let sigma_given = present api args "sigma" in
      let count = api.num_elements args "sigma" in
      let sigma = map_float_array api args "sigma" three_sigmas np default_sigma in
      reject_if (not (is_const_32f api vi))
        (fail_plain ns "constant Gray/YUV/RGB 32-bit float required")
        (reject_if (sigma_given && (ltb_ℤ count (pos 1) || ltb_ℤ (pos np) count))
          (fail_plain ns
            "sigma must contain one value per selected input plane (last value broadcasts)")
          (chain (units_loop ns sigma_given sigma np 0 three_units) (λ units.
            reject_if (differs vi rclip_vi) (fail_plain ns "rclip must match clip") (
              reject_if (present api args "bm_range" && present api args "search_window")
                (fail_plain ns "bm_range and search_window are mutually exclusive")
                (chain
                  (if is_twsc
                    then parse_twsc sigma_given ns
                    else chain (parse_nlh api args vi ns)
                        (λ o. ok (nlh_options o (not sigma_given))))
                  (λ options.
                    ok record { sigma = sigma; sigma_units = units; options = options }))))))
