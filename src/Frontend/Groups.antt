-- ===== src/Frontend/Groups.antt =====
-- src/frontend/wnnm_args.cpp, ncsr_args.cpp and mcwnnm_args.cpp: the filters of groups of blocks with
-- one shape for all planes. The defaults and limits are those of include/nss/params.hpp.
pub mod Shapes
use Prim.Native.String.{String}
use vapoursynth_nssfactory.Base.{
  ℕ, ◌+◌, ◌≡◌, refl, Bool, true, false, ◌&&◌, ◌||◌, not, ltb, ◌==◌, if◌then◌else◌, ℤ, pos, ltb_ℤ,
  ◌≤ℤ◌, ◌*ℤ◌, List, [], ◌∷◌, get_or, Result, ok, err, reject_if, Sound, reject-Sound, ok-Sound,
  arith,
}
use vapoursynth_nssfactory.Float.{F32, is_finite_bits, float_lt, float_le}
use vapoursynth_nssfactory.Frontend.{
  VsApi, VideoInfo, fail, map_int, map_float, map_float_array, is_const_32f, is_rgb, is_yuv,
}
use vapoursynth_nssfactory.Frontend.Temporal.{outside}

-- 3.f
abbrev pub default_sigma : F32
default_sigma = 0x40400000

abbrev pub three_sigmas : List F32
three_sigmas = default_sigma ∷ default_sigma ∷ default_sigma ∷ []

-- The fields that the three have in common.
pub record GroupShape : Type 0 where
  pub block_size : ℤ
  pub block_step : ℤ
  pub group_size : ℤ
  pub bm_range : ℤ
  pub radius : ℤ
  pub ps_num : ℤ
  pub ps_range : ℤ

pub record WnnmParams : Type 0 where
  pub sigma : List F32
  pub shape : GroupShape
  pub residual : ℤ
  pub adaptive : ℤ

pub record NcsrParams : Type 0 where
  pub sigma : List F32
  pub shape : GroupShape
  pub iters : ℤ
  pub delta : F32

pub record McwnnmParams : Type 0 where
  pub sigma : List F32
  pub shape : GroupShape
  pub residual : ℤ
  pub adaptive : ℤ
  pub admm_iter : ℤ
  pub rho : F32
  pub mu : F32
  pub iters : ℤ
  pub delta : F32

-- `block_size < 1 || ... || radius > kBmMaxRadius`.
unfoldable pub bad_blocks : GroupShape → Bool
bad_blocks p =
    outside p.block_size 1 16
    || outside p.group_size 1 32
    || (ltb_ℤ p.block_step (pos 1) || ltb_ℤ p.block_size p.block_step)
    || outside p.radius 0 16

unfoldable pub bad_predictions : GroupShape → Bool
bad_predictions p = ltb_ℤ p.ps_num (pos 1) || ltb_ℤ p.group_size p.ps_num || outside p.ps_range 1 64

unfoldable pub bad_iterations : ℤ → F32 → Bool
bad_iterations iters delta =
    outside iters 1 64
    || not (is_finite_bits delta)
    || float_lt delta 0
    || float_lt 0x3f800000 delta

module _ {ℓ} {M : Type ℓ} (api : VsApi M) (args : M) where
  -- The calls of map_int, all with the same keys and defaults in the three.
  unfoldable pub group_shape : GroupShape
  group_shape = record {
    block_size = map_int api args "block_size" (pos 8);
    block_step = map_int api args "block_step" (pos 8);
    group_size = map_int api args "group_size" (pos 8);
    bm_range = map_int api args "bm_range" (pos 7);
    radius = map_int api args "radius" (pos 0);
    ps_num = map_int api args "ps_num" (pos 2);
    ps_range = map_int api args "ps_range" (pos 4);
  }

  unfoldable pub parse_wnnm : VideoInfo → String → Result WnnmParams
  unfolding group_shape
  parse_wnnm vi ns =
      let p : WnnmParams = record {
        sigma = map_float_array api args "sigma" three_sigmas vi.format.num_planes default_sigma;
        shape = group_shape;
        residual = map_int api args "residual" (pos 0);
        adaptive = map_int api args "adaptive_aggregation" (pos 1);
      } in
      reject_if (not (is_const_32f api vi))
        (fail ns "WNNM" "constant Gray/YUV/RGB 32-bit float required")
        (reject_if (bad_blocks p.shape)
          (fail ns "WNNM" "invalid block_size/group_size/block_step/radius")
          (reject_if (outside p.shape.bm_range 1 64) (fail ns "WNNM" "bm_range must be in [1, 64]")
            (reject_if (bad_predictions p.shape) (fail ns "WNNM" "invalid ps_num/ps_range")
              (ok p))))

  unfoldable pub parse_ncsr : VideoInfo → String → Result NcsrParams
  unfolding group_shape
  parse_ncsr vi ns =
      let p : NcsrParams = record {
        sigma = map_float_array api args "sigma" three_sigmas vi.format.num_planes default_sigma;
        shape = group_shape;
        iters = map_int api args "iters" (pos 2);
        delta = map_float api args "delta" 0x3dcccccd;
      } in
      reject_if (not (is_const_32f api vi))
        (fail ns "NCSR" "constant Gray/YUV/RGB 32-bit float required")
        (reject_if (bad_blocks p.shape)
          (fail ns "NCSR" "invalid block_size/group_size/block_step/radius")
          (reject_if (bad_iterations p.iters p.delta)
            (fail ns "NCSR" "invalid iters/delta (iters in [1, 64], delta in [0, 1])")
            (reject_if (bad_predictions p.shape) (fail ns "NCSR" "invalid ps_num/ps_range") (
              reject_if (outside p.shape.bm_range 1 64)
                (fail ns "NCSR" "bm_range must be in [1, 64]") (ok p)))))

  -- The format that MCWNNM takes, after is_const_32f: three planes of one size.
  unfoldable pub bad_color_format : VideoInfo → Bool
  bad_color_format vi =
      not (vi.format.num_planes == 3)
      || not (vi.format.sub_sampling_w == 0)
      || not (vi.format.sub_sampling_h == 0)
      || (not (is_rgb vi.format.color_family) && not (is_yuv vi.format.color_family))

  unfoldable pub parse_mcwnnm : VideoInfo → String → Result McwnnmParams
  unfolding group_shape
  parse_mcwnnm vi ns =
      let p : McwnnmParams = record {
        sigma = map_float_array api args "sigma" three_sigmas 3 default_sigma;
        shape = group_shape;
        residual = map_int api args "residual" (pos 1);
        adaptive = map_int api args "adaptive_aggregation" (pos 0);
        admm_iter = map_int api args "admm_iter" (pos 10);
        rho = map_float api args "rho" 0x40400000;
        mu = map_float api args "mu" 0x3f8020c5;
        iters = map_int api args "iters" (pos 2);
        delta = map_float api args "delta" 0x3dcccccd;
      } in
      reject_if (not (is_const_32f api vi)) (fail ns "MCWNNM" "constant RGBS or YUV444PS required")
        (reject_if (bad_color_format vi) (fail ns "MCWNNM" "constant RGBS or YUV444PS required") (
          reject_if
            (not (is_finite_bits (get_or p.sigma 0 0))
              || not (is_finite_bits (get_or p.sigma 1 0))
              || not (is_finite_bits (get_or p.sigma 2 0)))
            (fail ns "MCWNNM" "sigma must be finite")
            (reject_if (bad_blocks p.shape)
              (fail ns "MCWNNM" "invalid block_size/group_size/block_step/radius")
              (reject_if (ltb_ℤ (pos 256) (pos 3 *ℤ p.shape.block_size *ℤ p.shape.block_size))
                (fail ns "MCWNNM" "3*block_size*block_size exceeds SVD limit")
                (reject_if (outside p.shape.bm_range 1 64)
                  (fail ns "MCWNNM" "bm_range must be in [1, 64]")
                  (reject_if
                    (outside p.admm_iter 1 1000
                      || not (float_lt 0 p.rho)
                      || float_lt p.mu 0x3f800000
                      || not (is_finite_bits p.rho)
                      || not (is_finite_bits p.mu))
                    (fail ns "MCWNNM" "invalid admm_iter/rho/mu (admm_iter in [1, 1000], mu >= 1)")
                    (reject_if (bad_iterations p.iters p.delta)
                      (fail ns "MCWNNM" "invalid iters/delta (iters in [1, 64], delta in [0, 1])")
                      (reject_if (bad_predictions p.shape)
                        (fail ns "MCWNNM" "invalid ps_num/ps_range") (ok p)))))))))
