-- ===== src/Frontend/Nlh.antt =====
-- src/frontend/full_image_args.cpp, the arguments of NLH, and include/nss/params/nlh.hpp, the preset that
-- stands for what they leave open. An argument of 0, or of -1 for a coefficient, is left open.
pub mod Preset
use Prim.Native.Nat.{bit_and}
use Prim.Native.String.{String, ◌++◌ as ◌append◌}
use vapoursynth_nssfactory.Base.{
  ℕ, zero, suc, ◌+◌, ◌-◌, ◌/◌, ◌≡◌, refl, Bool, true, false, ◌&&◌, ◌||◌, not, ltb, ◌==◌,
  if◌then◌else◌, ℤ, pos, pos_part, ltb_ℤ, ◌+ℤ◌, ◌*ℤ◌, Option, none, some, Result, ok, err,
  reject_if, chain, Error, invalid_argument,
}
use vapoursynth_nssfactory.Float.Round.{F64, is_finite_double, double_lt, double_rank}
use vapoursynth_nssfactory.Temporal.{min_ℤ}
use vapoursynth_nssfactory.Frontend.{VsApi, VideoInfo, fail, map_int, to_int, is_gray, eq_ℤ, str_eq}
use vapoursynth_nssfactory.Frontend.Temporal.{outside}

-- One stage of the two; the source has an array of two for each field.
pub record NlhStage : Type 0 where
  pub block : ℤ
  pub step : ℤ
  pub group : ℤ
  pub q : ℤ
  pub window : ℤ

pub record NlhImageOptions : Type 0 where
  pub basic_stage : NlhStage
  pub wiener_stage : NlhStage
  pub basic_iterations : ℤ
  pub wiener_iterations : ℤ
  pub radius : ℤ
  pub ps_num : ℤ
  pub ps_range : ℤ
  pub basic_mix : F64
  pub hard_strength : F64
  pub wiener_sigma_scale : F64
  pub real_noise : Bool

unfoldable pub fail_plain : String → String → Error
fail_plain ns message = invalid_argument (ns append (": " append message))

-- -1, 0, 1 and the greatest float, as doubles.
abbrev pub minus_one : F64
minus_one = 0xbff0000000000000

abbrev pub double_one : F64
double_one = 0x3ff0000000000000

abbrev pub float_max : F64
float_max = 0x47efffffe0000000

abbrev double_or : F64 → Option F64 → F64
double_or fallback none = fallback
double_or fallback (some v) = v

abbrev is_read {ℓ} : {A : Type ℓ} → Option A → Bool
is_read none = false
is_read (some v) = true

-- `(v & (v - 1)) != 0`, of a v that is not negative: not a power of two, and not 0.
unfoldable pub has_two_bits : ℤ → Bool
has_two_bits v = not (bit_and (pos_part v) (pos_part v - 1) == 0)

module _ {ℓ} {M : Type ℓ} (api : VsApi M) (args : M) where
  abbrev pub present : String → Bool
  present key = not (ltb_ℤ (api.num_elements args key) (pos 0))

  unfoldable pub integer : String → ℤ → ℕ → ℤ → String → Result ℤ
  integer key fallback low high ns =
      let value = map_int api args key fallback in
      if not (present key)
      then ok fallback
      else reject_if (not (eq_ℤ (api.num_elements args key) (pos 1)))
          (fail_plain ns (key append " requires one integer"))
          (reject_if (ltb_ℤ value (pos low) || ltb_ℤ high value)
            (fail_plain ns (key append " outside supported range")) (ok value))

  unfoldable pub real : String → F64 → F64 → F64 → String → Result F64
  real key fallback low high ns =
      let value = double_or 0 (api.get_float args key 0) in
      if not (present key)
      then ok fallback
      else reject_if (not (eq_ℤ (api.num_elements args key) (pos 1)))
          (fail_plain ns (key append " requires one number"))
          (reject_if
            (not (is_read (api.get_float args key 0))
              || not (is_finite_double value)
              || double_lt value low
              || double_lt high value)
            (fail_plain ns ("invalid " append key)) (ok value))

  -- Element i of stage(), where count is 1 or 2.
  unfoldable pub stage_value : String → ℕ → ℕ → ℕ → ℕ → String → Result ℤ
  stage_value key count i low high ns =
      let place = if ltb i count then i else count - 1 in
      let value : ℤ = elim (api.get_int args key place) [ none ↦ pos 0 | some v ↦ v ] in
      reject_if (not (is_read (api.get_int args key place)) || outside value low high)
        (fail ns "NLH" ("invalid " append key)) (ok (to_int value))

  unfoldable pub stage : String → ℤ → ℕ → ℕ → String → Result (ℤ × ℤ)
  stage key fallback low high ns =
      let count = api.num_elements args key in
      if not (present key)
      then ok (fallback, fallback)
      else reject_if (outside count 1 2) (fail ns "NLH" (key append " must have one or two values"))
          (chain (stage_value key (pos_part count) 0 low high ns) (λ first.
            chain (stage_value key (pos_part count) 1 low high ns) (λ second. ok (first, second))))

  abbrev noise_text : Option String → String
  noise_text none = ""
  noise_text (some text) = text

  -- noise_model as it is read.
  unfoldable pub noise_model : String → Result String
  noise_model ns =
      let text = api.get_data args "noise_model" 0 in
      if not (present "noise_model")
      then ok "auto"
      else reject_if (not (is_read text)) (fail ns "NLH" "invalid noise_model")
          (ok (noise_text text))

  -- o.window: bm_range in place of search_window.
  unfoldable pub stage_windows : String → Result (ℤ × ℤ)
  stage_windows ns =
      if present "bm_range"
      then chain (integer "bm_range" (pos 0) 1 (pos 64) ns)
          (λ range. ok (pos 2 *ℤ range +ℤ pos 1, pos 2 *ℤ range +ℤ pos 1))
      else stage "search_window" (pos 0) 1 129 ns

  -- The test of the loop over the two stages.
  unfoldable pub bad_stage : NlhStage → Bool
  bad_stage o =
      has_two_bits o.group
      || has_two_bits o.q
      || (not (eq_ℤ o.block (pos 0)) && (ltb_ℤ (o.block *ℤ o.block) o.q || ltb_ℤ o.block o.step))

  abbrev or_64 : ℤ → ℤ
  or_64 group = if eq_ℤ group (pos 0) then pos 64 else group

  unfoldable pub parse_nlh : VideoInfo → String → Result NlhImageOptions
  parse_nlh vi ns = chain (noise_model ns) (λ model.
      reject_if
        (not (str_eq model "auto") && not (str_eq model "awgn") && not (str_eq model "real"))
        (fail ns "NLH" "noise_model must be auto, awgn, or real")
        (chain (stage "block_size" (pos 0) 2 16 ns) (λ block.
          chain (stage "block_step" (pos 0) 1 16 ns) (λ step.
            chain (stage "group_size" (pos 0) 2 64 ns) (λ group.
              chain (stage "q" (pos 0) 2 16 ns) (λ q. chain (stage_windows ns) (λ window.
                let basic : NlhStage = record {
                  block = block.0;
                  step = step.0;
                  group = group.0;
                  q = q.0;
                  window = window.0;
                } in
                let wiener : NlhStage = record {
                  block = block.1;
                  step = step.1;
                  group = group.1;
                  q = q.1;
                  window = window.1;
                } in
                reject_if (bad_stage basic || bad_stage wiener)
                  (fail ns "NLH" "invalid stage group/q/block/step combination")
                  (chain (integer "radius" (pos 0) 0 (pos 16) ns) (λ radius.
                    chain (integer "ps_num" (pos 2) 1 (min_ℤ (or_64 group.0) (or_64 group.1)) ns)
                      (λ ps_num. chain (integer "ps_range" (pos 4) 1 (pos 64) ns) (λ ps_range.
                        chain (integer "basic_iters" (pos 0) 1 (pos 64) ns) (λ basic_iterations.
                          chain (integer "wiener_iters" (pos 0) 1 (pos 64) ns) (λ wiener_iterations.
                            chain (real "lambda_basic" minus_one 0 double_one ns) (λ basic_mix.
                              chain (real "hard_strength" minus_one 0 float_max ns)
                                (λ hard_strength.
                                  chain (real "wiener_sigma_scale" minus_one 0 float_max ns)
                                    (λ scale. ok record {
                                      basic_stage = basic;
                                      wiener_stage = wiener;
                                      basic_iterations = basic_iterations;
                                      wiener_iterations = wiener_iterations;
                                      radius = radius;
                                      ps_num = ps_num;
                                      ps_range = ps_range;
                                      basic_mix = basic_mix;
                                      hard_strength = hard_strength;
                                      wiener_sigma_scale = scale;
                                      real_noise =
                                          str_eq model "real"
                                          || (str_eq model "auto"
                                              && not (is_gray vi.format.color_family));
                                    }))))))))))))))))
