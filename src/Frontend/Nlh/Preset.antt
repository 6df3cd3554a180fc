-- ===== src/Frontend/Nlh/Preset.antt =====
-- nlh_resolve_preset: the fields left open, resolved for the smallest dimension of the selected planes.
use vapoursynth_nssfactory.Base.{
  ℕ, zero, suc, ◌*◌, ◌/◌, ◌≤◌, ◌≡◌, refl, Bool, true, false, ◌||◌, not, ltb, ◌==◌, if◌then◌else◌, ℤ,
  pos, pos_part, ltb_ℤ, ◌≤ℤ◌, ◌*ℤ◌, Result, ok, reject_if, chain, invalid_argument, Sound,
  reject-Sound, ok-Sound, chain-Sound, arith, min, ◌∙◌, Error,
}
use vapoursynth_nssfactory.Float.Round.{F64, is_finite_double, double_lt, double_rank}
use vapoursynth_nssfactory.Temporal.{min_ℤ}
use vapoursynth_nssfactory.Frontend.{eq_ℤ}
use vapoursynth_nssfactory.Frontend.Temporal.{outside}
use vapoursynth_nssfactory.Frontend.Nlh.{
  NlhStage, NlhImageOptions, has_two_bits, minus_one, double_one,
}

-- kPreset.
abbrev pub preset_basic : NlhStage
preset_basic = record { block = pos 8; step = pos 6; group = pos 16; q = pos 4; window = pos 24 }

abbrev pub preset_wiener : NlhStage
preset_wiener = record { block = pos 16; step = pos 15; group = pos 16; q = pos 4; window = pos 16 }

-- `v ? v : otherwise`.
abbrev pub or_else : ℤ → ℤ → ℤ
or_else v otherwise = if eq_ℤ v (pos 0) then otherwise else v

-- `while (q > area) q /= 2;`, where q is not negative; q rounds are enough.
unfoldable pub halve_to : ℕ → ℕ → ℕ → ℕ
halve_to zero q area = q
halve_to (suc fuel) q area = let rest = halve_to fuel (q / 2) area in if ltb area q then rest else q

abbrev pub resolved_q : NlhStage → ℤ → ℤ → ℤ
resolved_q preset q block =
    if eq_ℤ q (pos 0)
    then pos (halve_to (pos_part preset.q) (pos_part preset.q) (pos_part (block *ℤ block)))
    else q

unfoldable pub bad_shape : NlhStage → Bool
bad_shape o =
    outside o.q 2 16
    || has_two_bits o.q
    || ltb_ℤ (o.block *ℤ o.block) o.q
    || outside o.group 2 64
    || has_two_bits o.group
    || (ltb_ℤ o.step (pos 1) || ltb_ℤ o.block o.step)
    || outside o.window 1 129

-- A round of the loop over the two stages.
unfoldable pub resolve_stage : NlhStage → ℤ → NlhStage → Result NlhStage
resolve_stage preset available requested =
    let block = or_else requested.block (min_ℤ preset.block available) in
    let resolved : NlhStage = record {
      block = block;
      step = or_else requested.step (min_ℤ preset.step block);
      group = or_else requested.group preset.group;
      q = resolved_q preset requested.q block;
      window = or_else requested.window preset.window;
    } in
    reject_if (outside block 2 16 || ltb_ℤ available block)
      (invalid_argument "nss.NLH: invalid resolved block_size")
      (reject_if (bad_shape resolved) (invalid_argument "nss.NLH: invalid resolved stage shape")
        (ok resolved))

-- `if (v == -1) v = otherwise;`
abbrev coefficient : F64 → F64 → F64
coefficient v otherwise = if double_rank v == double_rank minus_one then otherwise else v

abbrev bad_coefficient : F64 → Bool
bad_coefficient v = double_lt v 0 || not (is_finite_double v)

unfoldable pub bad_rest : NlhImageOptions → Bool
bad_rest o =
    outside o.basic_iterations 1 64
    || outside o.wiener_iterations 1 64
    || bad_coefficient o.basic_mix
    || double_lt double_one o.basic_mix
    || bad_coefficient o.hard_strength
    || bad_coefficient o.wiener_sigma_scale
    || outside o.radius 0 16
    || (ltb_ℤ o.ps_num (pos 1) || ltb_ℤ (min_ℤ o.basic_stage.group o.wiener_stage.group) o.ps_num)
    || outside o.ps_range 1 64

unfoldable pub nlh_resolve_preset : ℤ → NlhImageOptions → Result NlhImageOptions
nlh_resolve_preset available o =
    reject_if (ltb_ℤ available (pos 2))
      (invalid_argument "nss: selected plane is smaller than block_size")
      (chain (resolve_stage preset_basic available o.basic_stage) (λ basic.
        chain (resolve_stage preset_wiener available o.wiener_stage) (λ wiener.
          let resolved : NlhImageOptions = record {
            basic_stage = basic;
            wiener_stage = wiener;
            basic_iterations = or_else o.basic_iterations (pos 3);
            wiener_iterations = or_else o.wiener_iterations (pos 2);
            radius = o.radius;
            ps_num = o.ps_num;
            ps_range = o.ps_range;
            basic_mix = coefficient o.basic_mix 0x3fe3333333333333;
            hard_strength = coefficient o.hard_strength double_one;
            wiener_sigma_scale = coefficient o.wiener_sigma_scale 0x3fd47ae147ae147b;
            real_noise = o.real_noise;
          } in
          reject_if (bad_rest resolved)
            (invalid_argument
              "nss.NLH: invalid resolved iteration, coefficient or temporal parameters")
            (ok resolved))))

-- A stage that the kernels can run on planes of at least `available` by `available`.
pub record IsStage (available : ℤ) (o : NlhStage) : Type 0 where
  pub block_least : pos 2 ≤ℤ o.block
  pub block_most : o.block ≤ℤ pos 16
  pub block_available : o.block ≤ℤ available
  pub step_least : pos 1 ≤ℤ o.step
  pub step_most : o.step ≤ℤ o.block
  pub q_least : pos 2 ≤ℤ o.q
  pub q_most : o.q ≤ℤ o.block *ℤ o.block
  pub q_power : has_two_bits o.q ≡ false
  pub group_least : pos 2 ≤ℤ o.group
  pub group_most : o.group ≤ℤ pos 64
  pub group_power : has_two_bits o.group ≡ false
  pub window_least : pos 1 ≤ℤ o.window
  pub window_most : o.window ≤ℤ pos 129

bounds-IsStage :
    (available : ℤ) (o : NlhStage)
    → (outside o.block 2 16 || ltb_ℤ available o.block) ≡ false
    → bad_shape o ≡ false
    → IsStage available o
unfolding bad_shape
bounds-IsStage available o b h = record {
  block_least = ground arith;
  block_most = ground arith;
  block_available = ground arith;
  step_least = ground arith;
  step_most = ground arith;
  q_least = ground arith;
  q_most = ground arith;
  q_power = ground arith;
  group_least = ground arith;
  group_most = ground arith;
  group_power = ground arith;
  window_least = ground arith;
  window_most = ground arith;
}

resolve_stage-Sound :
    (preset : NlhStage) (available : ℤ) (o : NlhStage)
    → Sound (IsStage available) (resolve_stage preset available o)
unfolding resolve_stage
resolve_stage-Sound preset available o =
    reject-Sound _ _ _
      λ block. reject-Sound _ _ _ λ shape. ok-Sound _ (bounds-IsStage available _ block shape)

-- If nlh_resolve_preset returns, then both stages have a block of 2 to 16 that is no larger than what
-- is available, a step of 1 to the block size, a group of 2 to 64 and a q of 2 to the area of the block,
-- both powers of two, and a window of 1 to 129.
pub nlh_preset_fits :
    (available : ℤ) (o r : NlhImageOptions)
    → nlh_resolve_preset available o ≡ ok r
    → IsStage available r.basic_stage × IsStage available r.wiener_stage
unfolding nlh_resolve_preset
nlh_preset_fits available o r e =
    Sound.returns {P = λ r. IsStage available r.basic_stage × IsStage available r.wiener_stage}
      (reject-Sound _ _ _ λ enough.
        chain-Sound _ _ (resolve_stage-Sound preset_basic available o.basic_stage) λ basic b.
          chain-Sound _ _ (resolve_stage-Sound preset_wiener available o.wiener_stage)
            λ wiener w. reject-Sound _ _ _ λ rest. ok-Sound _ (b, w))
      r e

-- Everything left open.
abbrev pub open_stage : NlhStage
open_stage = record { block = pos 0; step = pos 0; group = pos 0; q = pos 0; window = pos 0 }

abbrev pub open_options : NlhImageOptions
open_options = record {
  basic_stage = open_stage;
  wiener_stage = open_stage;
  basic_iterations = pos 0;
  wiener_iterations = pos 0;
  radius = pos 0;
  ps_num = pos 2;
  ps_range = pos 4;
  basic_mix = minus_one;
  hard_strength = minus_one;
  wiener_sigma_scale = minus_one;
  real_noise = false;
}

-- A preset's stage in a plane with `available` pixels.
unfoldable pub fitted : NlhStage → ℤ → NlhStage
fitted preset available = record {
  block = min_ℤ preset.block available;
  step = min_ℤ preset.step (min_ℤ preset.block available);
  group = preset.group;
  q = preset.q;
  window = preset.window;
}

reject_pass {ℓ} :
    {A : Type ℓ} (bad : Bool) (e : Error) (rest : Result A)
    → bad ≡ false
    → reject_if bad e rest ≡ rest
unfolding reject_if
reject_pass true e rest h = absurd (ground arith)
reject_pass false e rest h = refl

area : (b : ℕ) → pos b *ℤ pos b ≡ pos (b * b)
unfolding ◌*ℤ◌
area b = ground arith

area_least : (b : ℕ) → 2 ≤ b → 4 ≤ b * b
area_least b h = grind arith

-- The preset's q is left as it is: no block is too small for it.
preset_q : (b : ℕ) → 2 ≤ b → halve_to 4 4 (b * b) ≡ 4
unfolding halve_to
preset_q b h = let least = area_least b h in ground arith

abbrev shaped : ℕ → ℕ → ℕ → NlhStage
shaped b t w = record { block = pos b; step = pos t; group = pos 16; q = pos 4; window = pos w }

shape_passes :
    (b t w : ℕ) → 2 ≤ b → 1 ≤ t → t ≤ b → 1 ≤ w → w ≤ 129 → bad_shape (shaped b t w) ≡ false
unfolding bad_shape has_two_bits
shape_passes b t w h1 h2 h3 h4 h5 = let least = area_least b h1 in rw (area b) (ground arith)

-- The preset with block p and step s, in a plane with n pixels along an axis.
resolve_open :
    (p s w n b t : ℕ)
    → min_ℤ (pos p) (pos n) ≡ pos b
    → min_ℤ (pos s) (pos b) ≡ pos t
    → 2 ≤ b
    → b ≤ 16
    → b ≤ n
    → 1 ≤ t
    → t ≤ b
    → 1 ≤ w
    → w ≤ 129
    → resolve_stage (shaped p s w) (pos n) open_stage ≡ ok (fitted (shaped p s w) (pos n))
unfolding resolve_stage fitted
resolve_open p s w n b t e f h1 h2 h3 h4 h5 h6 h7 =
    rw (e, f, area b, preset_q b h1)
      (reject_pass _ _ _ (ground arith) ∙ reject_pass _ _ _ (shape_passes b t w h1 h4 h5 h6 h7))

fitted_block : (p n : ℕ) → min_ℤ (pos p) (pos n) ≡ pos (min p n)
fitted_block p n = ground arith

-- Whatever the smallest dimension of the planes, from 2 on: if every argument is left open,
-- nlh_resolve_preset returns the preset, its blocks cut to that dimension and its steps to the blocks.
pub nlh_preset_resolves :
    (n : ℕ)
    → 2 ≤ n
    → nlh_resolve_preset (pos n) open_options
      ≡ ok record {
        basic_stage = fitted preset_basic (pos n);
        wiener_stage = fitted preset_wiener (pos n);
        basic_iterations = pos 3;
        wiener_iterations = pos 2;
        radius = pos 0;
        ps_num = pos 2;
        ps_range = pos 4;
        basic_mix = 0x3fe3333333333333;
        hard_strength = double_one;
        wiener_sigma_scale = 0x3fd47ae147ae147b;
        real_noise = false;
      }
unfolding nlh_resolve_preset bad_rest chain reject_if fitted double_lt is_finite_double double_rank
nlh_preset_resolves n h =
    let basic =
      resolve_open 8 6 24 n (min 8 n) (min 6 (min 8 n)) (fitted_block 8 n)
        (fitted_block 6 (min 8 n)) (omega arith) (omega arith) (omega arith) (omega arith)
        (omega arith) (omega arith) (omega arith) in
    let wiener =
      resolve_open 16 15 16 n (min 16 n) (min 15 (min 16 n)) (fitted_block 16 n)
        (fitted_block 15 (min 16 n)) (omega arith) (omega arith) (omega arith) (omega arith)
        (omega arith) (omega arith) (omega arith) in
    let enough : ltb_ℤ (pos n) (pos 2) ≡ false = ground arith in rw (enough, basic, wiener) refl
