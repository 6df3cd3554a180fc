-- ===== src/Examples/Arguments.antt =====
-- Arguments as an association list, which stands for VapourSynth's map.
use Prim.Native.String.{String}
use vapoursynth_nssfactory.Base.{
  ℕ, true, not, ◌==◌, if◌then◌else◌, ℤ, pos, negsuc, Option, none, some, List, [], ◌∷◌, map, length,
  get_elem?,
}
use vapoursynth_nssfactory.Frontend.{
  VsApi, VideoInfo, cf_yuv, PropertyType, pt_int, pt_float, pt_other, str_eq,
}

pub data Argument : Type 0 where
  ints : List ℤ → Argument
  floats : List ℕ → Argument
  texts : List String → Argument

abbrev pub Arguments : Type 0
Arguments = List (String × Argument)

abbrev pub find_argument : Arguments → String → Option Argument
find_argument [] key = none
find_argument ((name, value) ∷ rest) key =
    let later = find_argument rest key in if str_eq name key then some value else later

abbrev pub type_of_argument : Option Argument → PropertyType
type_of_argument (some (ints v)) = pt_int
type_of_argument (some (floats v)) = pt_float
type_of_argument _ = pt_other

abbrev pub count_of : Option Argument → ℤ
count_of none = negsuc 0
count_of (some (ints v)) = pos (length v)
count_of (some (floats v)) = pos (length v)
count_of (some (texts v)) = pos (length v)

abbrev pub int_of : Option Argument → ℕ → Option ℤ
int_of (some (ints v)) i = get_elem? v i
int_of _ i = none

abbrev pub float_of : Option Argument → ℕ → Option ℕ
float_of (some (floats v)) i = get_elem? v i
float_of _ i = none

abbrev pub text_of : Option Argument → ℕ → Option String
text_of (some (texts v)) i = get_elem? v i
text_of _ i = none

abbrev pub list_api : VsApi Arguments
list_api = record {
  keys = map (λ entry. entry.0);
  type_of = λ args key. type_of_argument (find_argument args key);
  num_elements = λ args key. count_of (find_argument args key);
  get_int = λ args key i. int_of (find_argument args key) i;
  get_float = λ args key i. float_of (find_argument args key) i;
  get_data = λ args key i. text_of (find_argument args key) i;
  is_constant_video_format = λ vi. not (vi.format.num_planes == 0);
  is_same_video_info = λ a b. (a.width == b.width);
}

-- A YUV 4:2:0 clip of 640 by 360.
abbrev pub some_clip : VideoInfo
some_clip = record {
  format = record {
    color_family = cf_yuv;
    is_float = true;
    bits_per_sample = 32;
    bytes_per_sample = 4;
    sub_sampling_w = 1;
    sub_sampling_h = 1;
    num_planes = 3;
  };
  width = 640;
  height = 360;
  num_frames = 100;
}

-- block_size=12, radius=2, temporal_mode=Rolling, rolling_chunk=8, rolling_cache_chunks=3.
abbrev pub some_arguments : Arguments
some_arguments =
    ("radius", ints (pos 2 ∷ []))
    ∷ ("block_size", ints (pos 8 ∷ pos 4 ∷ []))
    ∷ ("sigma", floats (0x4014000000000000 ∷ []))
    ∷ ("temporal_mode", texts ("Rolling" ∷ []))
    ∷ ("rolling_chunk", ints (pos 8 ∷ []))
    ∷ ("rolling_cache_chunks", ints (pos 3 ∷ []))
    ∷ []
