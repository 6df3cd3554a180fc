-- ===== src/Frontend/Windows.antt =====
-- src/frontend/nlm_args.cpp, pnlm_args.cpp, bm4d_args.cpp and da3d_args.cpp: the filters that weigh the
-- patches of a window. The defaults and limits are those of include/nss/params.hpp and params/.
pub mod Planes
pub mod Names
pub mod Accepts
use Prim.Native.String.{String}
use vapoursynth_nssfactory.Base.{
  ℕ, ◌+◌, ◌-◌, ◌*◌, ◌/◌, ◌^◌, ◌≡◌, refl, Bool, true, false, ◌&&◌, ◌||◌, not, ltb, ◌==◌,
  if◌then◌else◌, ℤ, pos, ltb_ℤ, ◌+ℤ◌, ◌*ℤ◌, Option, none, some, List, get_or, Result, ok, err,
  reject_if, chain,
}
use vapoursynth_nssfactory.Float.{F32, is_finite_bits, float_lt, float_le}
use vapoursynth_nssfactory.Float.Round.{float_mul, float_div}
use vapoursynth_nssfactory.Frontend.{
  VsApi, VideoInfo, fail, map_int, map_float, map_float_array, is_const_32f, is_rgb, is_yuv, str_eq,
  eq_ℤ, plane_width, plane_height, for_planes,
}
use vapoursynth_nssfactory.Frontend.Temporal.{outside}
use vapoursynth_nssfactory.Frontend.Groups.{default_sigma, three_sigmas}

pub data ChannelMode : Type 0 where
  mode_y : ChannelMode
  mode_uv : ChannelMode
  mode_yuv : ChannelMode
  mode_rgb : ChannelMode

pub data NlmWeight : Type 0 where
  welsch : NlmWeight
  bisquare_a : NlmWeight
  bisquare_b : NlmWeight
  bisquare_c : NlmWeight

pub record NlmParams : Type 0 where
  pub d : ℤ
  pub a : ℤ
  pub s : ℤ
  pub h : F32
  pub wref : F32
  pub channels : ChannelMode
  pub weight : NlmWeight

pub record PnlmParams : Type 0 where
  pub sigma : List F32
  pub d : ℤ
  pub a : ℤ
  pub block : ℤ
  pub group : ℤ

pub record SigmaParams : Type 0 where
  pub sigma : List F32

-- `(2LL * d + 1) * frame_bytes`, which an int64 holds.
unfoldable pub pinned_bytes : VideoInfo → ℤ → ℤ
pinned_bytes vi d =
    (pos 2 *ℤ d +ℤ pos 1)
    *ℤ pos (vi.format.bytes_per_sample * vi.width * vi.height * vi.format.num_planes)

-- kNlmMaxPinnedFrameBytes
abbrev pub max_pinned_bytes : ℕ
max_pinned_bytes = 2 ^ 31

-- The checks of one plane's sigma, which PNLM, BM4D and DA3D make in the same words.
unfoldable pub check_sigma : String → String → List F32 → ℕ → Result (Unit {0})
check_sigma ns filter sigma plane =
    let value = get_or sigma plane 0 in
    let s = float_div value 0x437f0000 in
    reject_if (not (float_le 0 value) || not (is_finite_bits value))
      (fail ns filter "sigma must be finite and non-negative")
      (reject_if (float_lt 0 value && not (float_le 0x00800000 (float_mul s s)))
        (fail ns filter "sigma is too small") (ok tt))

abbrev pub text_or : String → Option String → String
text_or fallback none = fallback
text_or fallback (some text) = text

unfoldable pub channel_mode : VideoInfo → String → String → Result ChannelMode
channel_mode vi ns text =
    if str_eq text "Y"
    then ok mode_y
    else if str_eq text "UV"
    then ok mode_uv
    else if str_eq text "YUV"
    then ok mode_yuv
    else if str_eq text "RGB"
    then ok mode_rgb
    else if str_eq text "AUTO"
    then ok (if is_rgb vi.format.color_family then mode_rgb else mode_y)
    else err (fail ns "NLM" "channels must be Y, UV, YUV, RGB, or AUTO")

-- The three tests of the mode against the format, with their messages.
unfoldable pub check_mode : VideoInfo → String → ChannelMode → Result (Unit {0})
check_mode vi ns mode_y = ok tt
check_mode vi ns mode_uv =
    reject_if (not (is_yuv vi.format.color_family)) (fail ns "NLM" "UV requires YUV") (ok tt)
check_mode vi ns mode_yuv =
    reject_if
      (not (is_yuv vi.format.color_family)
        || not (vi.format.sub_sampling_w == 0)
        || not (vi.format.sub_sampling_h == 0))
      (fail ns "NLM" "YUV requires YUV444") (ok tt)
check_mode vi ns mode_rgb =
    reject_if (not (is_rgb vi.format.color_family)) (fail ns "NLM" "RGB requires RGB") (ok tt)

-- first_plane, and how many planes there are up to last_plane.
unfoldable pub first_plane : ChannelMode → ℕ
first_plane mode_uv = 1
first_plane _ = 0

unfoldable pub plane_count : VideoInfo → ChannelMode → ℕ
plane_count vi mode_uv = 2
plane_count vi mode_y = 1
plane_count vi _ = vi.format.num_planes

-- static_cast of 0 to 3.
unfoldable pub weight_of : ℤ → NlmWeight
weight_of wmode =
    if eq_ℤ wmode (pos 0)
    then welsch
    else if eq_ℤ wmode (pos 1)
    then bisquare_a
    else if eq_ℤ wmode (pos 2)
    then bisquare_b
    else bisquare_c

-- `d < 0 || ... || wref <= 0.f`.
unfoldable pub bad_search : ℤ → ℤ → ℤ → F32 → F32 → Bool
bad_search d a s h wref =
    ltb_ℤ d (pos 0)
    || ltb_ℤ (pos 256) d
    || not (ltb_ℤ (pos 0) a)
    || ltb_ℤ s (pos 0)
    || ltb_ℤ (pos 64) a
    || ltb_ℤ (pos 1024) s
    || not (is_finite_bits h)
    || float_le h 0
    || not (is_finite_bits wref)
    || float_le wref 0

unfoldable pub check_search_plane : VideoInfo → String → ℤ → ℕ → Result (Unit {0})
check_search_plane vi ns a plane =
    reject_if (not (ltb_ℤ a (pos (plane_width vi plane))))
      (fail ns "NLM" "search radius a must be smaller than the processed plane width") (ok tt)

module _ {ℓ} {M : Type ℓ} (api : VsApi M) (args : M) where
  unfoldable pub parse_nlm : VideoInfo → String → Result NlmParams
  parse_nlm vi ns =
      let d = map_int api args "d" (pos 1) in
      let a = map_int api args "a" (pos 2) in
      let s = map_int api args "s" (pos 4) in
      let h = map_float api args "h" 0x3f99999a in
      let wref = map_float api args "wref" 0x3f800000 in
      let wmode = map_int api args "wmode" (pos 0) in
      reject_if (not (is_const_32f api vi))
        (fail ns "NLM" "constant Gray/YUV/RGB 32-bit float required")
        (reject_if (bad_search d a s h wref) (fail ns "NLM" "invalid d/a/s/h/wref") (
          reject_if (ltb_ℤ (pos max_pinned_bytes) (pinned_bytes vi d))
            (fail ns "NLM" "temporal radius d pins too much frame memory for this frame size")
            (reject_if (outside wmode 0 3)
              (fail ns "NLM" "wmode must be 0 (Welsch) or 1, 2, 3 (Bisquare A, B, C)")
              (chain (channel_mode vi ns (text_or "AUTO" (api.get_data args "channels" 0))) (λ mode.
                chain (check_mode vi ns mode) (λ fitting.
                  chain
                    (for_planes (check_search_plane vi ns a) (plane_count vi mode)
                      (first_plane mode))
                    (λ narrow. ok record {
                      d = d;
                      a = a;
                      s = s;
                      h = h;
                      wref = wref;
                      channels = mode;
                      weight = weight_of wmode;
                    })))))))

  -- The checks of a filtered plane against the block, in parse_pnlm.
  unfoldable pub check_filtered_plane : VideoInfo → String → List F32 → ℤ → ℕ → Result (Unit {0})
  check_filtered_plane vi ns sigma block plane =
      let w = plane_width vi plane in
      let h = plane_height vi plane in
      if not (float_lt 0 (get_or sigma plane 0)) && not (float_lt (get_or sigma plane 0) 0)
      then ok tt
      else reject_if (ltb_ℤ (pos w) block || ltb_ℤ (pos h) block)
          (fail ns "PNLM" "a filtered plane is smaller than block_size")
          (reject_if (ltb 8192 w || ltb 8192 h)
            (fail ns "PNLM" "filtered planes are limited to 8192 x 8192") (ok tt))

  unfoldable pub parse_pnlm : VideoInfo → String → Result PnlmParams
  parse_pnlm vi ns =
      let p : PnlmParams = record {
        sigma = map_float_array api args "sigma" three_sigmas vi.format.num_planes default_sigma;
        d = map_int api args "d" (pos 1);
        a = map_int api args "a" (pos 2);
        block = map_int api args "block_size" (pos 6);
        group = map_int api args "group_size" (pos 16);
      } in
      reject_if (not (is_const_32f api vi))
        (fail ns "PNLM" "constant Gray/YUV/RGB 32-bit float required")
        (chain (for_planes (check_sigma ns "PNLM" p.sigma) vi.format.num_planes 0) (λ sigmas.
          reject_if (outside p.d 0 31) (fail ns "PNLM" "d must be in [0, 31]") (
            reject_if (outside p.a 1 64) (fail ns "PNLM" "a must be in [1, 64]") (
              reject_if
                (not (eq_ℤ p.block (pos 4))
                  && not (eq_ℤ p.block (pos 6))
                  && not (eq_ℤ p.block (pos 8)))
                (fail ns "PNLM" "block_size must be 4, 6 or 8")
                (reject_if (outside p.group 2 32) (fail ns "PNLM" "group_size must be in [2, 32]") (
                  chain
                    (for_planes (check_filtered_plane vi ns p.sigma p.block) vi.format.num_planes 0)
                    (λ planes.
                      reject_if (ltb_ℤ (pos max_pinned_bytes) (pinned_bytes vi p.d))
                        (fail ns "PNLM"
                          "temporal radius d pins too much frame memory for this frame size")
                        (ok p))))))))

  -- parse_bm4d and parse_da3d; the first also wants a clip of known length.
  unfoldable pub parse_bm4d : VideoInfo → String → Result SigmaParams
  parse_bm4d vi ns =
      let sigma =
        map_float_array api args "sigma" three_sigmas vi.format.num_planes default_sigma in
      reject_if (not (is_const_32f api vi))
        (fail ns "BM4D" "constant Gray/YUV/RGB 32-bit float required")
        (reject_if (ltb vi.num_frames 1) (fail ns "BM4D" "a clip of known length required") (
          chain (for_planes (check_sigma ns "BM4D" sigma) vi.format.num_planes 0)
            (λ sigmas. ok record { sigma = sigma })))

  unfoldable pub parse_da3d : VideoInfo → String → Result SigmaParams
  parse_da3d vi ns =
      let sigma =
        map_float_array api args "sigma" three_sigmas vi.format.num_planes default_sigma in
      reject_if (not (is_const_32f api vi))
        (fail ns "DA3D" "constant Gray/YUV/RGB 32-bit float required")
        (chain (for_planes (check_sigma ns "DA3D" sigma) vi.format.num_planes 0)
          (λ sigmas. ok record { sigma = sigma }))

-- include/nss/params/pnlm.hpp: the reference grid along an axis, and the place that a search key holds,
-- as a uint32 of 6, 13 and 13 bits.
unfoldable pub pnlm_grid_count : ℕ → ℕ → ℕ
pnlm_grid_count n block = if ltb n block then 0 else (n - block + block / 2 - 1) / (block / 2) + 1

unfoldable pub pnlm_grid_pos : ℕ → ℕ → ℕ → ℕ
pnlm_grid_pos i n block =
    let v = i * (block / 2) in let last = n - block in if ltb v last then v else last
