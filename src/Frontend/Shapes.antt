-- ===== src/Frontend/Shapes.antt =====
-- src/frontend/lssc_args.cpp and vaggregate_args.cpp, with the grid of include/nss/params/lssc.hpp: the
-- arguments that are checked against the size of a clip.
use Prim.Native.String.{String}
use vapoursynth_nssfactory.Base.{
  ℕ, zero, suc, ◌+◌, ◌-◌, ◌*◌, ◌/◌, ◌%◌, ◌^◌, Bool, true, false, ◌&&◌, ◌||◌, not, ltb, ◌==◌,
  if◌then◌else◌, ℤ, pos, pos_part, ltb_ℤ, ◌*ℤ◌, Option, none, some, List, [], ◌∷◌, get_or, set,
  Result, ok, reject_if, chain,
}
use vapoursynth_nssfactory.Checked.{checked_int, checked_fat_height}
use vapoursynth_nssfactory.Float.{F32}
use vapoursynth_nssfactory.Frontend.{
  VsApi, VideoInfo, VideoFormat, ColorFamily, cf_gray, cf_rgb, cf_yuv, cf_undefined, fail, map_int,
  any_given, map_float_array, is_const_32f, eq_ℤ, to_int,
}
use vapoursynth_nssfactory.Frontend.Groups.{default_sigma, three_sigmas}

pub record LsscParams : Type 0 where
  pub sigma : List F32
  pub block_size : ℤ
  pub block_step : ℤ
  pub radius : ℤ

pub record VAggregateParams : Type 0 where
  pub radius : ℤ
  pub allow_legacy : Bool
  pub planes : List ℕ

unfoldable pub lssc_allowed_block : ℤ → Bool
lssc_allowed_block v =
    eq_ℤ v (pos 1) || eq_ℤ v (pos 2) || eq_ℤ v (pos 4) || eq_ℤ v (pos 8) || eq_ℤ v (pos 16)

-- `block > 1 ? block / 2 : 1`
unfoldable pub lssc_default_step : ℤ → ℤ
lssc_default_step block = if ltb_ℤ (pos 1) block then pos (pos_part block / 2) else pos 1

-- The block and the step are positive where the second test lets them pass.
unfoldable pub lssc_axis_count : ℕ → ℤ → ℤ → Result ℕ
lssc_axis_count len block step =
    if ltb_ℤ (pos len) block || ltb_ℤ block (pos 1) || ltb_ℤ step (pos 1)
    then ok 0
    else checked_int ((len - pos_part block + pos_part step - 1) / pos_part step + 1)

unfoldable pub lssc_grid_count : ℕ → ℕ → ℤ → ℤ → Result ℕ
lssc_grid_count width height block step = chain (lssc_axis_count width block step) (λ columns.
    chain (lssc_axis_count height block step) (λ rows. checked_int (columns * rows % 2 ^ 64)))

abbrev family_code : ColorFamily → ℕ
family_code cf_undefined = 0
family_code cf_gray = 1
family_code cf_rgb = 2
family_code cf_yuv = 3

unfoldable pub same_format : VideoFormat → VideoFormat → Bool
same_format a b =
    (family_code a.color_family == family_code b.color_family)
    && ((a.is_float && b.is_float) || (not a.is_float && not b.is_float))
    && (a.bits_per_sample == b.bits_per_sample)
    && (a.bytes_per_sample == b.bytes_per_sample)
    && (a.sub_sampling_w == b.sub_sampling_w)
    && (a.sub_sampling_h == b.sub_sampling_h)
    && (a.num_planes == b.num_planes)

module _ {ℓ} {M : Type ℓ} (api : VsApi M) (args : M) where
  unfoldable pub parse_lssc : VideoInfo → String → Result LsscParams
  parse_lssc vi ns =
      let block = map_int api args "block_size" (pos 8) in
      let p : LsscParams = record {
        sigma = map_float_array api args "sigma" three_sigmas vi.format.num_planes default_sigma;
        block_size = block;
        block_step = map_int api args "block_step" (lssc_default_step block);
        radius = map_int api args "radius" (pos 0);
      } in
      let area = block *ℤ block in
      reject_if (not (is_const_32f api vi))
        (fail ns "LSSC" "constant Gray/YUV/RGB 32-bit float required")
        (reject_if
          (not (lssc_allowed_block p.block_size)
            || ltb_ℤ p.block_step (pos 1)
            || ltb_ℤ p.block_size p.block_step)
          (fail ns "LSSC" "block_size must be 1, 2, 4, 8, or 16")
          (reject_if (not (eq_ℤ p.radius (pos 0)))
            (fail ns "LSSC" "radius>0 is not implemented (no temporal clustering)")
            (chain (lssc_grid_count vi.width vi.height p.block_size p.block_step) (λ patches.
              reject_if (ltb_ℤ (pos 0) area && ltb (16000000 / pos_part area) patches)
                (fail ns "LSSC" "grid too large; increase block_step") (ok p)))))

  abbrev int_read : Option ℤ → ℤ
  int_read none = pos 0
  int_read (some v) = to_int v

  abbrev int_failed : Option ℤ → Bool
  int_failed none = true
  int_failed (some v) = false

  -- The loop over the values of `planes`.
  unfoldable pub planes_loop : VideoInfo → String → ℕ → ℕ → List ℕ → Result (List ℕ)
  planes_loop src ns zero i planes = ok planes
  planes_loop src ns (suc count) i planes =
      let value = api.get_int args "planes" i in
      let plane = int_read value in
      reject_if
        (int_failed value
          || ltb_ℤ plane (pos 0)
          || not (ltb_ℤ plane (pos src.format.num_planes))
          || not (get_or planes (pos_part plane) 0 == 0))
        (fail ns "VAggregate" "planes must contain unique valid plane indices")
        (planes_loop src ns count (suc i) (set planes (pos_part plane) 1))

  unfoldable pub parse_vaggregate : VideoInfo → String → Result VAggregateParams
  parse_vaggregate src ns =
      let allow_legacy = map_int api args "allow_legacy" (pos 0) in
      chain
        (if any_given api args "planes"
          then planes_loop src ns (pos_part (api.num_elements args "planes")) 0 (0 ∷ 0 ∷ 0 ∷ [])
          else ok (1 ∷ 1 ∷ 1 ∷ []))
        (λ planes.
          reject_if (not (eq_ℤ allow_legacy (pos 0)) && not (eq_ℤ allow_legacy (pos 1)))
            (fail ns "VAggregate" "allow_legacy must be 0 or 1")
            (ok record {
              radius = map_int api args "radius" (pos 0);
              allow_legacy = not (eq_ℤ allow_legacy (pos 0));
              planes = planes;
            }))

unfoldable pub validate_vaggregate_shape {ℓ} :
    {M : Type ℓ} → VsApi M → VideoInfo → VideoInfo → ℤ → String → Result (Unit {0})
validate_vaggregate_shape api src fat radius ns =
    reject_if (not (is_const_32f api src) || not (is_const_32f api fat))
      (fail ns "VAggregate" "constant 32f clips required")
      (reject_if (ltb_ℤ radius (pos 0) || ltb_ℤ (pos 16) radius)
        (fail ns "VAggregate" "radius must be in [0, 16]")
        (chain (checked_fat_height (pos src.height) radius) (λ expect_h.
          reject_if
            (not (same_format src.format fat.format)
              || not (fat.width == src.width)
              || not (fat.height == expect_h)
              || not (fat.num_frames == src.num_frames))
            (fail ns "VAggregate"
              "clip must match src format, width, and frame count, with height=src.height*(2*radius+1)*2")
            (ok tt))))
