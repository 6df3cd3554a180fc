-- ===== src/Frontend.antt =====
-- src/frontend: the arguments of a filter, as VapourSynth hands them over, and their checks. The
-- parts that all parsers share: validate.cpp, args.hpp. The VapourSynth map and the helpers of
-- VSHelper4.h are a parameter, VsApi.
pub mod Numeric
pub mod Temporal
pub mod Groups
pub mod Windows
pub mod Bm3d
pub mod Nlh
pub mod FullImage
pub mod Shapes
pub mod Contribution
use Prim.Native.String.{String, compare, ◌++◌ as ◌append◌}
use Prim.Native.Nat.{Ordering}
use mathlib.Core.Path.{subst}
pub use vapoursynth_nssfactory.Base.{eq_ℤ}
use vapoursynth_nssfactory.Base.{
  ℕ, zero, suc, ◌+◌, ◌-◌, ◌*◌, ◌/◌, ◌%◌, ◌^◌, Bool, true, false, ◌&&◌, ◌||◌, not, ltb, ◌==◌,
  if◌then◌else◌, ℤ, pos, negsuc, pos_part, ltb_ℤ, Option, none, some, List, set, get_or, Result,
  err, chain, Sound, chain-Sound, ok-Sound, Sound-weaken, ◌≡◌, ◌≤◌, ◌<◌, arith, dec_lt, ok, Error,
  invalid_argument,
}
use vapoursynth_nssfactory.Float.{F32}
use vapoursynth_nssfactory.Float.Round.{F64, to_float}

abbrev pub str_eq : String → String → Bool
str_eq a b = elim (compare a b) [ Ordering.eq ↦ true | _ ↦ false ]

pub data PropertyType : Type 0 where
  pt_int : PropertyType
  pt_float : PropertyType
  pt_other : PropertyType

pub data ColorFamily : Type 0 where
  cf_gray : ColorFamily
  cf_rgb : ColorFamily
  cf_yuv : ColorFamily
  cf_undefined : ColorFamily

-- VSVideoFormat and VSVideoInfo; VapourSynth's numbers in them are not negative.
pub record VideoFormat : Type 0 where
  pub color_family : ColorFamily
  pub is_float : Bool
  pub bits_per_sample : ℕ
  pub bytes_per_sample : ℕ
  pub sub_sampling_w : ℕ
  pub sub_sampling_h : ℕ
  pub num_planes : ℕ

pub record VideoInfo : Type 0 where
  pub format : VideoFormat
  pub width : ℕ
  pub height : ℕ
  pub num_frames : ℕ

-- What the source calls of VSAPI and VSHelper4.h on a map: mapNumKeys with mapGetKey, mapGetType,
-- mapNumElements (-1 where the key is missing), and mapGetInt, mapGetFloat and mapGetData, which are
-- none where they set the error.
pub record VsApi {ℓ} (M : Type ℓ) : Type ℓ where
  pub keys : M → List String
  pub type_of : M → String → PropertyType
  pub num_elements : M → String → ℤ
  pub get_int : M → String → ℕ → Option ℤ
  pub get_float : M → String → ℕ → Option F64
  pub get_data : M → String → ℕ → Option String
  pub is_constant_video_format : VideoInfo → Bool
  pub is_same_video_info : VideoInfo → VideoInfo → Bool

-- `throw std::invalid_argument(ns + "." + filter + ": " + message)`.
unfoldable pub fail : String → String → String → Error
fail ns filter message =
    invalid_argument (ns append ("." append (filter append (": " append message))))

abbrev pub is_yuv : ColorFamily → Bool
is_yuv cf_yuv = true
is_yuv _ = false

abbrev pub is_rgb : ColorFamily → Bool
is_rgb cf_rgb = true
is_rgb _ = false

abbrev pub is_gray : ColorFamily → Bool
is_gray cf_gray = true
is_gray _ = false

unfoldable pub is_const_32f {ℓ} : {M : Type ℓ} → VsApi M → VideoInfo → Bool
is_const_32f api vi =
    not (
      ltb vi.width 1
      || ltb vi.height 1
      || ltb vi.num_frames 1
      || ltb (2 ^ 31 - 1) (vi.width * vi.height)
      || not (api.is_constant_video_format vi))
    && (vi.format.is_float
        && (vi.format.bits_per_sample == 32)
        && (is_gray vi.format.color_family
            || is_yuv vi.format.color_family
            || is_rgb vi.format.color_family))

unfoldable pub same_video {ℓ} : {M : Type ℓ} → VsApi M → VideoInfo → VideoInfo → Bool
same_video api a b = api.is_same_video_info a b && (a.num_frames == b.num_frames)

unfoldable pub plane_width : VideoInfo → ℕ → ℕ
plane_width vi plane = vi.width / 2 ^ (if plane == 0 then 0 else vi.format.sub_sampling_w)

unfoldable pub plane_height : VideoInfo → ℕ → ℕ
plane_height vi plane = vi.height / 2 ^ (if plane == 0 then 0 else vi.format.sub_sampling_h)

-- static_cast<int> of an int64.
unfoldable pub to_int : ℤ → ℤ
to_int (pos n) = let r = n % 2 ^ 32 in if ltb r (2 ^ 31) then pos r else negsuc (2 ^ 32 - 1 - r)
to_int (negsuc n) = let r = n % 2 ^ 32 in if ltb r (2 ^ 31) then negsuc r else pos (2 ^ 32 - 1 - r)

abbrev pub int_or : ℤ → Option ℤ → ℤ
int_or fallback none = fallback
int_or fallback (some v) = to_int v

abbrev pub float_or : F32 → Option F64 → F32
float_or fallback none = fallback
float_or fallback (some v) = to_float v

module _ {ℓ} {M : Type ℓ} (api : VsApi M) (args : M) (key : String) where
  unfoldable pub map_int : ℤ → ℤ
  unfolding to_int
  map_int fallback = int_or fallback (api.get_int args key 0)

  unfoldable pub map_float : F32 → F32
  unfolding to_float
  map_float fallback = float_or fallback (api.get_float args key 0)

  -- `*err_out` of map_int.
  abbrev pub int_given : Bool
  int_given = elim (api.get_int args key 0) [ none ↦ false | some v ↦ true ]

  -- `mapNumElements(in, key) > 0`.
  abbrev pub any_given : Bool
  any_given = ltb_ℤ (pos 0) (api.num_elements args key)

-- `for (int i = first; i < first + count; ++i) out[i] = value(i, out);`
abbrev pub write_loop {ℓ} : {A : Type ℓ} → (ℕ → List A → A) → ℕ → ℕ → List A → List A
write_loop value zero i out = out
write_loop value (suc count) i out = write_loop value count (suc i) (set out i (value i out))

module _ {ℓ} {M : Type ℓ} (api : VsApi M) (args : M) (key : String) where
  -- The value for place i of m: the last one serves the places beyond.
  abbrev pub broadcast_place : ℕ → ℕ → ℕ
  broadcast_place m i = if ltb i m then i else m - 1

  unfoldable pub map_float_array : List F32 → ℕ → F32 → List F32
  unfolding to_float
  map_float_array out n fallback =
      let m = pos_part (api.num_elements args key) in
      if any_given api args key
      then write_loop (λ i out. float_or fallback (api.get_float args key (broadcast_place m i))) n
          0 out
      else write_loop (λ i out. fallback) n 0 out

  unfoldable pub map_int_array : List ℤ → ℕ → ℤ → List ℤ
  unfolding to_int
  map_int_array out n fallback =
      let m = pos_part (api.num_elements args key) in
      if any_given api args key
      then write_loop (λ i out. int_or fallback (api.get_int args key (broadcast_place m i))) n 0
          out
      else write_loop (λ i out. fallback) n 0 out

  abbrev pub inherited : ℤ → ℕ → ℕ → List ℤ → ℤ
  inherited fallback m i out =
      if ltb i m
      then int_or (if i == 0 then fallback else get_or out (i - 1) (pos 0)) (api.get_int args key i)
      else get_or out (i - 1) (pos 0)

  unfoldable pub map_inherit_int : List ℤ → ℕ → ℤ → List ℤ
  unfolding to_int
  map_inherit_int out n fallback =
      let m = pos_part (api.num_elements args key) in
      if any_given api args key
      then write_loop (inherited fallback m) n 0 out
      else write_loop (λ i out. fallback) n 0 out

-- `for (int plane = first; plane < first + count; ++plane) { check }`, where a check may throw.
unfoldable pub for_planes : (ℕ → Result (Unit {0})) → ℕ → ℕ → Result (Unit {0})
for_planes check zero first = ok tt
for_planes check (suc count) first =
    chain (check first) (λ done. for_planes check count (suc first))

-- A property of each of the planes first, first + 1, ..., first + count - 1.
abbrev pub AllPlanes : (ℕ → Type 0) → ℕ → ℕ → Type 0
AllPlanes P zero first = Unit
AllPlanes P (suc count) first = P first × AllPlanes P count (suc first)

pub for_planes-Sound :
    (P : ℕ → Type 0) (check : ℕ → Result (Unit {0})) (count first : ℕ)
    → ((plane : ℕ) → Sound (λ done. P plane) (check plane))
    → Sound (λ done. AllPlanes P count first) (for_planes check count first)
unfolding for_planes
for_planes-Sound P check zero first h = ok-Sound _ tt
for_planes-Sound P check (suc count) first h = chain-Sound _ _ (h first) (λ done here.
    Sound-weaken (for_planes-Sound P check count (suc first) h) (λ done later. (here, later)))

pub AllPlanes-at :
    (P : ℕ → Type 0) (count first plane : ℕ)
    → AllPlanes P count first
    → first ≤ plane
    → plane < first + count
    → P plane
AllPlanes-at P zero first plane h l u = absurd (omega arith)
AllPlanes-at P (suc count) first plane h l u = elim (dec_lt first plane) [
  | yes after ↦ AllPlanes-at P count (suc first) plane h.1 (omega arith) (omega arith)
  | no same ↦ let e : first ≡ plane = omega arith in subst P e h.0
]
