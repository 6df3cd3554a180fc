-- ===== src/Frontend/Bm3d.antt =====
-- src/frontend/bm3d_args.cpp: the arguments of BM3D, by plane, with the basic stage of final=1. The
-- defaults and limits are those of include/nss/params.hpp, the noise profile that of contracts.hpp.
pub mod Stages
pub mod Basic
use Prim.Native.String.{String}
use vapoursynth_nssfactory.Base.{
  ℕ, zero, suc, ◌+◌, ◌-◌, ◌≡◌, refl, Bool, true, false, ◌&&◌, ◌||◌, not, ltb, ◌==◌, if◌then◌else◌,
  ℤ, pos, ltb_ℤ, Option, none, some, List, [], ◌∷◌, get_or, set, Result, ok, err, reject_if, chain,
}
use vapoursynth_nssfactory.Float.{F32, is_finite_bits, float_lt, float_ne}
use vapoursynth_nssfactory.Float.Round.{float_mul}
use vapoursynth_nssfactory.Temporal.{min_ℤ}
use vapoursynth_nssfactory.Frontend.{
  VsApi, VideoInfo, fail, map_int, any_given, map_float_array, map_int_array, map_inherit_int,
  is_const_32f, same_video, is_yuv, eq_ℤ, plane_width, plane_height, for_planes, write_loop,
}
use vapoursynth_nssfactory.Frontend.Temporal.{outside}
use vapoursynth_nssfactory.Frontend.Groups.{default_sigma, three_sigmas}

-- The arrays of the matching, each with an element for a plane.
pub record Bm3dShape : Type 0 where
  pub block_size : List ℤ
  pub group_size : List ℤ
  pub block_step : List ℤ
  pub bm_range : List ℤ
  pub ps_num : List ℤ
  pub ps_range : List ℤ

-- The arrays of the basic stage.
pub record Bm3dBasic : Type 0 where
  pub sigma_basic : List F32
  pub block_size_basic : List ℤ
  pub group_size_basic : List ℤ
  pub block_step_basic : List ℤ
  pub ps_num_basic : List ℤ

pub record Bm3dParams : Type 0 where
  pub sigma : List F32
  pub shape : Bm3dShape
  pub radius : ℤ
  pub chroma : Bool
  pub final_stage : Bool
  pub basic : Bm3dBasic

unfoldable pub bm_allowed_block : ℤ → Bool
bm_allowed_block v =
    eq_ℤ v (pos 1)
    || eq_ℤ v (pos 2)
    || eq_ℤ v (pos 4)
    || eq_ℤ v (pos 8)
    || eq_ℤ v (pos 12)
    || eq_ℤ v (pos 16)
    || eq_ℤ v (pos 32)

unfoldable pub bm_allowed_group : ℤ → Bool
bm_allowed_group v =
    eq_ℤ v (pos 1)
    || eq_ℤ v (pos 2)
    || eq_ℤ v (pos 4)
    || eq_ℤ v (pos 8)
    || eq_ℤ v (pos 16)
    || eq_ℤ v (pos 32)
    || eq_ℤ v (pos 64)

-- `(user_sigma * (1.f / user_units)) * bm3d_calibration`, of 255.f and 0.75f.
unfoldable pub bm3d_effective : F32 → F32
bm3d_effective user_sigma = float_mul (float_mul user_sigma 0x3b808081) 0x3f400000

abbrev pub at_plane : List ℤ → ℕ → ℤ
at_plane values plane = get_or values plane (pos 0)

abbrev three : ℤ → List ℤ
three v = v ∷ v ∷ v ∷ []

abbrev bad_sigma : F32 → Bool
bad_sigma sigma = not (is_finite_bits sigma) || float_lt sigma 0

-- The loop of parse_sigma, over the planes from i on.
unfoldable pub sigma_loop : String → ℕ → ℕ → List F32 → Result (List F32)
sigma_loop ns zero i sigma = ok sigma
sigma_loop ns (suc count) i sigma =
    let value = get_or sigma i 0 in
    reject_if (bad_sigma value) (fail ns "BM3D" "sigma must be finite and non-negative") (
      sigma_loop ns count (suc i)
        (set sigma i (if float_ne value 0 then bm3d_effective value else value)))

abbrev pub has_ref : Option VideoInfo → Bool
has_ref none = false
has_ref (some ref_vi) = true

module _ {ℓ} {M : Type ℓ} (api : VsApi M) (args : M) where
  unfoldable pub map_adaptive : String → List ℤ → ℕ → ℤ → List ℤ → List ℤ
  map_adaptive key out np fallback limit =
      if any_given api args key
      then map_inherit_int api args key out np fallback
      else write_loop (λ i out. min_ℤ fallback (at_plane limit i)) np 0 out

  -- Plane 0 serves the others.
  unfoldable pub first_for_all : ℕ → List ℤ → List ℤ
  first_for_all np values = write_loop (λ i out. at_plane out 0) (np - 1) 1 values

  unfoldable pub parse_chroma : VideoInfo → String → Bm3dShape → Result (Bool × Bm3dShape)
  parse_chroma vi ns p =
      let chroma = map_int api args "chroma" (pos 0) in
      let np = vi.format.num_planes in
      reject_if (not (eq_ℤ chroma (pos 0)) && not (eq_ℤ chroma (pos 1)))
        (fail ns "BM3D" "chroma must be 0 or 1")
        (if eq_ℤ chroma (pos 0)
          then ok (false, p)
          else reject_if
              (not (is_yuv vi.format.color_family)
                || not (vi.format.sub_sampling_w == 0)
                || not (vi.format.sub_sampling_h == 0))
              (fail ns "BM3D" "chroma requires a YUV 4:4:4 clip")
              (ok (
                true,
                record {
                  block_size = first_for_all np p.block_size;
                  group_size = first_for_all np p.group_size;
                  block_step = first_for_all np p.block_step;
                  bm_range = first_for_all np p.bm_range;
                  ps_num = first_for_all np p.ps_num;
                  ps_range = first_for_all np p.ps_range;
                },
              )))

  -- The second loop of parse_basic_stage, over the planes from i on.
  unfoldable pub basic_loop :
      VideoInfo → String → Bool → Bm3dShape → List F32 → ℕ → ℕ → Bm3dBasic → Result Bm3dBasic
  basic_loop vi ns chroma p sigma_given zero i b = ok b
  basic_loop vi ns chroma p sigma_given (suc count) i b =
      let plane = if chroma then 0 else i in
      let block = at_plane b.block_size_basic plane in
      let group = at_plane b.group_size_basic plane in
      let given = get_or sigma_given i 0 in
      let step =
        if any_given api args "block_step" then at_plane p.block_step i else min_ℤ (pos 8) block in
      let ps = if any_given api args "ps_num" then at_plane p.ps_num i else min_ℤ (pos 2) group in
      reject_if (bad_sigma given) (fail ns "BM3D" "sigma_basic must be finite and non-negative") (
        reject_if (not (bm_allowed_block block))
          (fail ns "BM3D" "block_size_basic must be one of 1, 2, 4, 8, 12, 16, 32")
          (reject_if (not (bm_allowed_group group))
            (fail ns "BM3D" "group_size_basic must be one of 1, 2, 4, 8, 16, 32, 64")
            (reject_if
              (ltb_ℤ (pos (plane_width vi i)) block || ltb_ℤ (pos (plane_height vi i)) block)
              (fail ns "BM3D" "block_size_basic must not exceed plane dimensions")
              (reject_if (ltb_ℤ block step)
                (fail ns "BM3D" "block_step must be in [1, block_size_basic]")
                (reject_if (ltb_ℤ group ps)
                  (fail ns "BM3D" "ps_num must be in [1, group_size_basic]")
                  (basic_loop vi ns chroma p sigma_given count (suc i) record {
                    sigma_basic =
                        set b.sigma_basic i (if float_ne given 0 then bm3d_effective given else 0);
                    block_size_basic = set b.block_size_basic i block;
                    group_size_basic = set b.group_size_basic i group;
                    block_step_basic = set b.block_step_basic i step;
                    ps_num_basic = set b.ps_num_basic i ps;
                  }))))))

  -- What Bm3dParams holds for the basic stage before it is parsed.
  abbrev pub no_basic : Bm3dBasic
  no_basic = record {
    sigma_basic = 0 ∷ 0 ∷ 0 ∷ [];
    block_size_basic = three (pos 0);
    group_size_basic = three (pos 0);
    block_step_basic = three (pos 0);
    ps_num_basic = three (pos 0);
  }

  unfoldable pub parse_basic_stage :
      VideoInfo → String → Bool → Bm3dShape → List F32 → Result Bm3dBasic
  parse_basic_stage vi ns chroma p given =
      let np = vi.format.num_planes in
      let sigma_given =
        if any_given api args "sigma_basic"
        then map_float_array api args "sigma_basic" given np default_sigma
        else given in
      let block = write_loop (λ i out. at_plane p.block_size i) np 0 (three (pos 0)) in
      let group = write_loop (λ i out. at_plane p.group_size i) np 0 (three (pos 0)) in
      basic_loop vi ns chroma p sigma_given np 0 record {
        sigma_basic = 0 ∷ 0 ∷ 0 ∷ [];
        block_size_basic =
            if any_given api args "block_size_basic"
            then map_inherit_int api args "block_size_basic" block np (pos 8)
            else block;
        group_size_basic =
            if any_given api args "group_size_basic"
            then map_inherit_int api args "group_size_basic" group np (pos 8)
            else group;
        block_step_basic = three (pos 0);
        ps_num_basic = three (pos 0);
      }

  -- The body of the loop of check_planes.
  unfoldable pub check_plane : VideoInfo → String → Bm3dShape → ℕ → Result (Unit {0})
  check_plane vi ns p i =
      let block = at_plane p.block_size i in
      let group = at_plane p.group_size i in
      reject_if (not (bm_allowed_block block))
        (fail ns "BM3D" "block_size must be one of 1, 2, 4, 8, 12, 16, 32")
        (reject_if (not (bm_allowed_group group))
          (fail ns "BM3D" "group_size must be one of 1, 2, 4, 8, 16, 32, 64")
          (reject_if (ltb_ℤ (pos (plane_width vi i)) block || ltb_ℤ (pos (plane_height vi i)) block)
            (fail ns "BM3D" "block_size must not exceed plane dimensions")
            (reject_if
              (ltb_ℤ (at_plane p.block_step i) (pos 1) || ltb_ℤ block (at_plane p.block_step i))
              (fail ns "BM3D" "block_step must be in [1, block_size]")
              (reject_if (ltb_ℤ (at_plane p.ps_num i) (pos 1) || ltb_ℤ group (at_plane p.ps_num i))
                (fail ns "BM3D" "ps_num must be in [1, group_size]")
                (reject_if (outside (at_plane p.bm_range i) 1 64)
                  (fail ns "BM3D" "bm_range must be in [1, 64]")
                  (reject_if (outside (at_plane p.ps_range i) 0 64)
                    (fail ns "BM3D" "ps_range must be in [0, 64]") (ok tt)))))))

  -- The arrays before parse_chroma.
  unfoldable pub bm3d_shape : ℕ → Bm3dShape
  bm3d_shape np =
      let block = map_inherit_int api args "block_size" (three (pos 8)) np (pos 8) in
      let group = map_inherit_int api args "group_size" (three (pos 8)) np (pos 8) in
      record {
        block_size = block;
        group_size = group;
        block_step = map_adaptive "block_step" (three (pos 8)) np (pos 8) block;
        bm_range = map_int_array api args "bm_range" (three (pos 9)) np (pos 9);
        ps_num = map_adaptive "ps_num" (three (pos 2)) np (pos 2) group;
        ps_range = map_int_array api args "ps_range" (three (pos 4)) np (pos 4);
      }

  -- `ref && !same_video(vi, *ref_vi)`.
  abbrev ref_differs : VideoInfo → Option VideoInfo → Bool
  ref_differs vi none = false
  ref_differs vi (some ref_vi) = not (same_video api vi ref_vi)

  unfoldable pub parse_bm3d : VideoInfo → Option VideoInfo → String → Result Bm3dParams
  parse_bm3d vi ref_vi ns =
      let np = vi.format.num_planes in
      let given = map_float_array api args "sigma" three_sigmas np default_sigma in
      let radius = map_int api args "radius" (pos 0) in
      let final_stage = map_int api args "final" (pos 0) in
      reject_if (not (is_const_32f api vi))
        (fail ns "BM3D" "constant Gray/YUV/RGB 32-bit float required")
        (reject_if (ref_differs vi ref_vi) (fail ns "BM3D" "ref must match clip") (
          chain (sigma_loop ns np 0 given) (λ sigma.
            reject_if (outside radius 0 16) (fail ns "BM3D" "radius must be in [0, 16]") (
              chain (parse_chroma vi ns (bm3d_shape np)) (λ shaped.
                reject_if (not (eq_ℤ final_stage (pos 0)) && not (eq_ℤ final_stage (pos 1)))
                  (fail ns "BM3D" "final must be 0 or 1")
                  (reject_if
                    (eq_ℤ final_stage (pos 0)
                      && (any_given api args "sigma_basic"
                          || any_given api args "block_size_basic"
                          || any_given api args "group_size_basic"))
                    (fail ns "BM3D"
                      "sigma_basic, block_size_basic and group_size_basic require final=1")
                    (reject_if (not (eq_ℤ final_stage (pos 0)) && has_ref ref_vi)
                      (fail ns "BM3D" "use only one of final and ref")
                      (chain
                        (if eq_ℤ final_stage (pos 0)
                          then ok no_basic
                          else parse_basic_stage vi ns shaped.0 shaped.1 given)
                        (λ basic. chain (for_planes (check_plane vi ns shaped.1) np 0) (λ checked.
                          ok record {
                            sigma = sigma;
                            shape = shaped.1;
                            radius = radius;
                            chroma = shaped.0;
                            final_stage = not (eq_ℤ final_stage (pos 0));
                            basic = basic;
                          }))))))))))
