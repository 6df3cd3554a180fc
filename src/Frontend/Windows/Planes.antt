-- ===== src/Frontend/Windows/Planes.antt =====
-- The tests of parse_nlm on the planes that a mode processes.
use Prim.Native.String.{String}
use mathlib.Core.Path.{subst}
use vapoursynth_nssfactory.Base.{
  ℕ, zero, suc, ◌+◌, ◌≤◌, ◌<◌, ◌≡◌, refl, sym, true, ℤ, pos, negsuc, ltb_ℤ, ◌≤ℤ◌, Result, ok, chain,
  reject_if, Sound, reject-Sound, ok-Sound, arith,
}
use vapoursynth_nssfactory.Frontend.{
  VideoInfo, is_rgb, is_yuv, plane_width, AllPlanes, AllPlanes-at, for_planes,
}
use vapoursynth_nssfactory.Frontend.Windows.{
  ChannelMode, mode_y, mode_uv, mode_yuv, mode_rgb, check_mode, first_plane, plane_count,
  check_search_plane,
}

-- The channels that a mode reads are there.
unfoldable pub IsFitting : VideoInfo → ChannelMode → Type 0
IsFitting vi mode_y = Unit
IsFitting vi mode_uv = is_yuv vi.format.color_family ≡ true
IsFitting vi mode_yuv =
    (is_yuv vi.format.color_family ≡ true)
    × (vi.format.sub_sampling_w ≡ 0)
    × (vi.format.sub_sampling_h ≡ 0)
IsFitting vi mode_rgb = is_rgb vi.format.color_family ≡ true

-- The planes that a mode processes.
abbrev pub IsRead : VideoInfo → ChannelMode → ℕ → Type 0
IsRead vi mode_y plane = plane ≡ 0
IsRead vi mode_uv plane = (1 ≤ plane) × (plane ≤ 2)
IsRead vi mode_yuv plane = plane < vi.format.num_planes
IsRead vi mode_rgb plane = plane < vi.format.num_planes

pub check_mode-Sound :
    (vi : VideoInfo) (ns : String) (mode : ChannelMode)
    → Sound (λ u. IsFitting vi mode) (check_mode vi ns mode)
unfolding check_mode IsFitting
check_mode-Sound vi ns mode_y = ok-Sound _ tt
check_mode-Sound vi ns mode_uv = reject-Sound _ _ _ λ h. ok-Sound _ (ground arith)
check_mode-Sound vi ns mode_yuv =
    reject-Sound _ _ _ λ h. ok-Sound _ (ground arith, ground arith, ground arith)
check_mode-Sound vi ns mode_rgb = reject-Sound _ _ _ λ h. ok-Sound _ (ground arith)

pub check_search_plane-Sound :
    (vi : VideoInfo) (ns : String) (a : ℤ) (plane : ℕ)
    → Sound (λ u. ltb_ℤ a (pos (plane_width vi plane)) ≡ true) (check_search_plane vi ns a plane)
unfolding check_search_plane
check_search_plane-Sound vi ns a plane = reject-Sound _ _ _ λ h. ok-Sound _ (ground arith)

pub IsFitting-check_mode :
    (vi : VideoInfo) (ns : String) (mode : ChannelMode)
    → IsFitting vi mode
    → check_mode vi ns mode ≡ ok tt
unfolding check_mode IsFitting reject_if
IsFitting-check_mode vi ns mode_y h = refl
IsFitting-check_mode vi ns mode_uv h = rw h refl
IsFitting-check_mode vi ns mode_yuv (h, sw, sh) = rw (h, sw, sh) refl
IsFitting-check_mode vi ns mode_rgb h = rw h refl

-- The loop over the planes visits those that are processed.
pub AllPlanes-IsRead :
    (vi : VideoInfo) (mode : ChannelMode) (P : ℕ → Type 0)
    → AllPlanes P (plane_count vi mode) (first_plane mode)
    → (plane : ℕ) → IsRead vi mode plane
    → P plane
unfolding plane_count first_plane
AllPlanes-IsRead vi mode_y P h plane r = subst P (sym r) h.0
AllPlanes-IsRead vi mode_uv P h plane (l, u) = AllPlanes-at P 2 1 plane h l (omega arith)
AllPlanes-IsRead vi mode_yuv P h plane r = AllPlanes-at P _ 0 plane h (omega arith) (omega arith)
AllPlanes-IsRead vi mode_rgb P h plane r = AllPlanes-at P _ 0 plane h (omega arith) (omega arith)

pub for_planes-ok :
    (check : ℕ → Result (Unit {0})) (count first : ℕ)
    → ((plane : ℕ) → first ≤ plane → plane < first + count → check plane ≡ ok tt)
    → for_planes check count first ≡ ok tt
unfolding for_planes chain
for_planes-ok check zero first h = refl
for_planes-ok check (suc count) first h =
    rw (h first (omega arith) (omega arith))
      (for_planes-ok check count (suc first) (λ plane l u. h plane (omega arith) (omega arith)))

pub visited-IsRead :
    (vi : VideoInfo) (mode : ChannelMode) (plane : ℕ)
    → first_plane mode ≤ plane
    → plane < first_plane mode + plane_count vi mode
    → IsRead vi mode plane
unfolding plane_count first_plane
visited-IsRead vi mode_y plane l u = omega arith
visited-IsRead vi mode_uv plane l u = (l, omega arith)
visited-IsRead vi mode_yuv plane l u = omega arith
visited-IsRead vi mode_rgb plane l u = omega arith

pub width_test :
    (vi : VideoInfo) (ns : String) (a : ℤ) (plane : ℕ)
    → pos 1 ≤ℤ a
    → ((k : ℕ) → a ≡ pos k → k < plane_width vi plane)
    → check_search_plane vi ns a plane ≡ ok tt
unfolding check_search_plane reject_if
width_test vi ns (pos k) plane l h =
    let less : ltb_ℤ (pos k) (pos (plane_width vi plane)) ≡ true =
      (let k_less = h k refl in ground (arith, k_less)) in
    rw less refl
width_test vi ns (negsuc k) plane l h = absurd (omega arith)

pub width_bound : (a : ℤ) (width : ℕ) → ltb_ℤ a (pos width) ≡ true → (k : ℕ) → a ≡ pos k → k < width
width_bound a width h k e = let known = rw e at h in ground (arith, known)
