-- ===== src/Examples/Parsers.antt =====
-- The parsers on a clip and arguments.
use mathlib.Core.List.{mem-cons_self}
use vapoursynth_nssfactory.Base.{
  ◌≡◌, refl, true, false, pos, ◌≤ℤ◌, ◌+ℤ◌, ◌*ℤ◌, none, ◌∷◌, [], ok, reject_if, chain, arith,
}
use vapoursynth_nssfactory.Float.{is_finite_bits, float_lt, float_le, float_ne, rank}
use vapoursynth_nssfactory.Float.Round.{
  to_float, is_finite_double, double_lt, double_rank, round_quotient, float_mul,
}
use vapoursynth_nssfactory.Frontend.{
  map_int, map_float, map_float_array, map_int_array, map_inherit_int, is_const_32f, plane_width,
  plane_height, for_planes, to_int,
}
use vapoursynth_nssfactory.Frontend.Numeric.{validate_numeric_args, IsValid, validated_arguments}
use vapoursynth_nssfactory.Frontend.Temporal.{
  parse_temporal, parse_temporal_mode, mode_of, parse_rolling, check_cache,
  parse_temporal-IsRolling, IsRolling, TemporalRequest, adaptive, legacy,
}
use vapoursynth_nssfactory.Frontend.Groups.{
  WnnmParams, group_shape, bad_blocks, bad_predictions, parse_wnnm,
}
use vapoursynth_nssfactory.Frontend.Groups.Shapes.{IsGroupShape, by_wnnm, group_fits}
use vapoursynth_nssfactory.Frontend.Windows.{
  NlmParams, mode_y, welsch, parse_nlm, bad_search, pinned_bytes, channel_mode, check_mode,
  first_plane, plane_count, check_search_plane, weight_of,
}
use mathlib.Core.Logic.{◌↔◌}
use vapoursynth_nssfactory.Frontend.Windows.Accepts.{IsAccepted, parse_nlm-IsAccepted}
use vapoursynth_nssfactory.Frontend.Bm3d.{
  Bm3dParams, no_basic, parse_bm3d, sigma_loop, bm3d_effective, parse_chroma, bm3d_shape,
  map_adaptive, check_plane, bm_allowed_block, bm_allowed_group,
}
use vapoursynth_nssfactory.Frontend.Bm3d.Stages.{Accepted, bm3d_stages}
use vapoursynth_nssfactory.Frontend.Nlh.{NlhImageOptions, has_two_bits, double_one}
use vapoursynth_nssfactory.Frontend.Nlh.Preset.{
  nlh_resolve_preset, resolve_stage, bad_shape, bad_rest, halve_to, open_options, fitted,
  preset_basic, preset_wiener, nlh_preset_resolves,
}
use vapoursynth_nssfactory.Examples.Arguments.{list_api, some_arguments, some_clip}

accepted_arguments : validate_numeric_args list_api some_arguments ≡ none
unfolding validate_numeric_args
accepted_arguments = refl

validated_arguments_example :
    IsValid
      (list_api.type_of some_arguments "radius")
      (list_api.get_int some_arguments "radius" 0)
      (list_api.get_float some_arguments "radius" 0)
validated_arguments_example =
    validated_arguments list_api some_arguments "radius" 0 accepted_arguments mem-cons_self
      (omega arith)

abbrev rolling_request : TemporalRequest
rolling_request = record {
  rolling_requested = true;
  params = record { rolling_chunk = pos 8; cache_limit = pos 3; cache_chunks = pos 3 };
}

parsed_request :
    parse_temporal list_api some_arguments "nss" "BM3D" (pos 0) legacy adaptive ≡ ok rolling_request
unfolding parse_temporal parse_temporal_mode mode_of parse_rolling check_cache map_int to_int
    reject_if chain
parsed_request = refl

parse_temporal-IsRolling_example :
    (pos 1 ≤ℤ map_int list_api some_arguments "radius" (pos 0))
    × IsRolling adaptive record { rolling_chunk = pos 8; cache_limit = pos 3; cache_chunks = pos 3 }
parse_temporal-IsRolling_example =
    parse_temporal-IsRolling list_api some_arguments "nss" "BM3D" (pos 0) legacy adaptive
      rolling_request parsed_request refl

-- The arguments suit WNNM too, with its step of 8.
abbrev wnnm_params : WnnmParams
wnnm_params = record {
  sigma = 0x40a00000 ∷ 0x40a00000 ∷ 0x40a00000 ∷ [];
  shape = record {
    block_size = pos 8;
    block_step = pos 8;
    group_size = pos 8;
    bm_range = pos 7;
    radius = pos 2;
    ps_num = pos 2;
    ps_range = pos 4;
  };
  residual = pos 0;
  adaptive = pos 1;
}

parsed_wnnm : parse_wnnm list_api some_arguments some_clip "nss" ≡ ok wnnm_params
unfolding parse_wnnm group_shape map_int map_float_array to_int to_float round_quotient
    is_finite_double is_const_32f bad_blocks bad_predictions reject_if
parsed_wnnm = refl

group_fits_example :
    IsGroupShape wnnm_params.shape
    × (pos 1 *ℤ wnnm_params.shape.block_size *ℤ wnnm_params.shape.block_size ≤ℤ pos 256)
    × (wnnm_params.shape.group_size ≤ℤ pos 32)
group_fits_example =
    group_fits list_api some_arguments some_clip "nss" wnnm_params.shape 1
      (by_wnnm wnnm_params parsed_wnnm)

-- NLM on the luma, with the defaults.
abbrev nlm_params : NlmParams
nlm_params = record {
  d = pos 1;
  a = pos 2;
  s = pos 4;
  h = 0x3f99999a;
  wref = 0x3f800000;
  channels = mode_y;
  weight = welsch;
}

parsed_nlm : parse_nlm list_api some_arguments some_clip "nss" ≡ ok nlm_params
unfolding parse_nlm map_int map_float to_int is_const_32f bad_search pinned_bytes ◌+ℤ◌ ◌*ℤ◌
    channel_mode check_mode first_plane plane_count for_planes check_search_plane plane_width
    weight_of is_finite_bits float_le rank reject_if chain
parsed_nlm = refl

parse_nlm-IsAccepted_example :
    (parse_nlm list_api some_arguments some_clip "nss" ≡ ok nlm_params)
    ↔ IsAccepted list_api some_arguments some_clip "nss" nlm_params
parse_nlm-IsAccepted_example =
    parse_nlm-IsAccepted list_api some_arguments some_clip "nss" nlm_params

-- BM3D: block_size=8,4 serves the third plane with 4; sigma 5 becomes 5 / 255 * 0.75.
abbrev bm3d_params : Bm3dParams
bm3d_params = record {
  sigma = 0x3c70f0f2 ∷ 0x3c70f0f2 ∷ 0x3c70f0f2 ∷ [];
  shape = record {
    block_size = pos 8 ∷ pos 4 ∷ pos 4 ∷ [];
    group_size = pos 8 ∷ pos 8 ∷ pos 8 ∷ [];
    block_step = pos 8 ∷ pos 4 ∷ pos 4 ∷ [];
    bm_range = pos 9 ∷ pos 9 ∷ pos 9 ∷ [];
    ps_num = pos 2 ∷ pos 2 ∷ pos 2 ∷ [];
    ps_range = pos 4 ∷ pos 4 ∷ pos 4 ∷ [];
  };
  radius = pos 2;
  chroma = false;
  final_stage = false;
  basic = no_basic list_api some_arguments;
}

parsed_bm3d : parse_bm3d list_api some_arguments some_clip none "nss" ≡ ok bm3d_params
unfolding parse_bm3d sigma_loop bm3d_effective float_mul parse_chroma bm3d_shape map_adaptive
    check_plane bm_allowed_block bm_allowed_group map_int map_int_array map_inherit_int
    map_float_array to_int to_float round_quotient is_finite_double is_finite_bits is_const_32f
    float_lt float_ne rank for_planes plane_width plane_height reject_if chain
parsed_bm3d = refl

bm3d_stages_example : Accepted list_api some_arguments some_clip "nss" none bm3d_params
bm3d_stages_example =
    bm3d_stages list_api some_arguments some_clip "nss" none bm3d_params (omega arith) parsed_bm3d

-- In a plane of 12 by 12 the second block of the preset is cut.
abbrev resolved_options : NlhImageOptions
resolved_options = record {
  basic_stage = record { block = pos 8; step = pos 6; group = pos 16; q = pos 4; window = pos 24 };
  wiener_stage = record {
    block = pos 12;
    step = pos 12;
    group = pos 16;
    q = pos 4;
    window = pos 16;
  };
  basic_iterations = pos 3;
  wiener_iterations = pos 2;
  radius = pos 0;
  ps_num = pos 2;
  ps_range = pos 4;
  basic_mix = 0x3fe3333333333333;
  hard_strength = double_one;
  wiener_sigma_scale = 0x3fd47ae147ae147b;
  real_noise = false;
}

resolved_preset : nlh_resolve_preset (pos 12) open_options ≡ ok resolved_options
unfolding nlh_resolve_preset resolve_stage bad_shape bad_rest has_two_bits halve_to ◌*ℤ◌ double_lt
    double_rank is_finite_double reject_if chain
resolved_preset = refl

nlh_preset_resolves_example :
    nlh_resolve_preset (pos 12) open_options
    ≡ ok record {
      basic_stage = fitted preset_basic (pos 12);
      wiener_stage = fitted preset_wiener (pos 12);
      basic_iterations = pos 3;
      wiener_iterations = pos 2;
      radius = pos 0;
      ps_num = pos 2;
      ps_range = pos 4;
      basic_mix = 0x3fe3333333333333;
      hard_strength = double_one;
      wiener_sigma_scale = 0x3fd47ae147ae147b;
      real_noise = false;
    }
nlh_preset_resolves_example = nlh_preset_resolves 12 (omega arith)
