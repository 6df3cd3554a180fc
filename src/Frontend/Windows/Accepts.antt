-- ===== src/Frontend/Windows/Accepts.antt =====
-- When parse_nlm returns, and what.
use Prim.Native.String.{String}
use mathlib.Core.Path.{subst}
use mathlib.Core.Logic.{◌↔◌}
use vapoursynth_nssfactory.Base.{
  ℕ, ◌+◌, ◌*◌, ◌≤◌, ◌<◌, ◌≡◌, refl, sym, ◌∙◌, ap, true, false, ℤ, pos, negsuc, ltb_ℤ, ◌≤ℤ◌, ◌+ℤ◌,
  ◌*ℤ◌, ok, chain, reject_if, Sound, reject-Sound, ok-Sound, chain-Sound, arith,
}
use vapoursynth_nssfactory.Float.{float_le, is_finite_bits}
use vapoursynth_nssfactory.Frontend.{
  VsApi, VideoInfo, plane_width, AllPlanes, for_planes-Sound, is_const_32f, map_int, map_float,
}
use vapoursynth_nssfactory.Frontend.Temporal.{outside}
use vapoursynth_nssfactory.Frontend.Windows.{
  NlmParams, ChannelMode, pinned_bytes, max_pinned_bytes, text_or, weight_of, first_plane,
  plane_count, check_search_plane, bad_search, parse_nlm,
}
use vapoursynth_nssfactory.Frontend.Windows.Planes.{
  IsFitting, IsRead, check_mode-Sound, check_search_plane-Sound, IsFitting-check_mode,
  AllPlanes-IsRead, for_planes-ok, visited-IsRead, width_test, width_bound,
}
use vapoursynth_nssfactory.Frontend.Windows.Names.{Names, channel_mode-Names, Names-channel_mode}

*ℤ-pos : (m n : ℕ) → pos m *ℤ pos n ≡ pos (m * n)
unfolding ◌*ℤ◌
*ℤ-pos m n = ground arith

odd-pos : (k : ℕ) → pos 2 *ℤ pos k +ℤ pos 1 ≡ pos (2 * k + 1)
unfolding ◌*ℤ◌ ◌+ℤ◌
odd-pos k = ground arith

pinned_bytes-eq :
    (vi : VideoInfo) (k : ℕ)
    → pinned_bytes vi (pos k)
      ≡ pos
          ((2 * k + 1) * (vi.format.bytes_per_sample * vi.width * vi.height * vi.format.num_planes))
unfolding pinned_bytes
pinned_bytes-eq vi k = rw (odd-pos k) (*ℤ-pos (2 * k + 1) _)

-- Every value that is read is in its range, the format has the channels of the mode, all processed
-- planes are wider than the search radius, and the frames that are pinned take at most 2 GiB.
pub record IsLegal (vi : VideoInfo) (wmode : ℤ) (p : NlmParams) : Type 0 where
  pub d_least : pos 0 ≤ℤ p.d
  pub d_most : p.d ≤ℤ pos 256
  pub a_least : pos 1 ≤ℤ p.a
  pub a_most : p.a ≤ℤ pos 64
  pub s_least : pos 0 ≤ℤ p.s
  pub s_most : p.s ≤ℤ pos 1024
  pub h_finite : is_finite_bits p.h ≡ true
  pub h_positive : float_le p.h 0 ≡ false
  pub wref_finite : is_finite_bits p.wref ≡ true
  pub wref_positive : float_le p.wref 0 ≡ false
  pub wmode_least : pos 0 ≤ℤ wmode
  pub wmode_most : wmode ≤ℤ pos 3
  pub pinned :
      (k : ℕ)
      → p.d ≡ pos k
      → (2 * k + 1) * (vi.format.bytes_per_sample * vi.width * vi.height * vi.format.num_planes)
        ≤ 2147483648
  pub fitting : IsFitting vi p.channels
  pub narrow :
      (plane : ℕ) → IsRead vi p.channels plane → (k : ℕ) → p.a ≡ pos k → k < plane_width vi plane

-- The range tests.
ranges_pass :
    (vi : VideoInfo) (wmode : ℤ) (p : NlmParams)
    → IsLegal vi wmode p
    → bad_search p.d p.a p.s p.h p.wref ≡ false
unfolding bad_search
ranges_pass vi wmode p l =
    rw (l.h_finite, l.h_positive, l.wref_finite, l.wref_positive) (ground arith)

pinned_pass :
    (vi : VideoInfo) (d : ℤ)
    → pos 0 ≤ℤ d
    → ((k : ℕ)
        → d ≡ pos k
        → (2 * k + 1) * (vi.format.bytes_per_sample * vi.width * vi.height * vi.format.num_planes)
          ≤ 2147483648)
    → ltb_ℤ (pos max_pinned_bytes) (pinned_bytes vi d) ≡ false
pinned_pass vi (pos k) l h =
    let bound = h k refl in rw (pinned_bytes-eq vi k) (ground (arith, bound))
pinned_pass vi (negsuc k) l h = absurd (omega arith)

pinned_bound :
    (vi : VideoInfo) (d : ℤ)
    → ltb_ℤ (pos max_pinned_bytes) (pinned_bytes vi d) ≡ false
    → (k : ℕ) → d ≡ pos k
    → (2 * k + 1) * (vi.format.bytes_per_sample * vi.width * vi.height * vi.format.num_planes)
      ≤ 2147483648
pinned_bound vi d h k e = let known = rw (e, pinned_bytes-eq vi k) at h in ground (arith, known)

-- What passing all tests means.
tests-IsLegal :
    (vi : VideoInfo) (wmode : ℤ) (p : NlmParams)
    → bad_search p.d p.a p.s p.h p.wref ≡ false
    → ltb_ℤ (pos max_pinned_bytes) (pinned_bytes vi p.d) ≡ false
    → outside wmode 0 3 ≡ false
    → IsFitting vi p.channels
    → AllPlanes
        (λ plane. ltb_ℤ p.a (pos (plane_width vi plane)) ≡ true)
        (plane_count vi p.channels)
        (first_plane p.channels)
    → IsLegal vi wmode p
unfolding bad_search
tests-IsLegal vi wmode p ranges pinned weight fitting narrow = record {
  d_least = ground (arith, ranges);
  d_most = ground (arith, ranges);
  a_least = ground (arith, ranges);
  a_most = ground (arith, ranges);
  s_least = ground (arith, ranges);
  s_most = ground (arith, ranges);
  h_finite = ground (arith, ranges);
  h_positive = ground (arith, ranges);
  wref_finite = ground (arith, ranges);
  wref_positive = ground (arith, ranges);
  wmode_least = ground (arith, weight);
  wmode_most = ground (arith, weight);
  pinned = pinned_bound vi p.d pinned;
  fitting = fitting;
  narrow = λ plane r.
      width_bound p.a (plane_width vi plane) (AllPlanes-IsRead vi p.channels _ narrow plane r);
}

module _ {ℓ} {M : Type ℓ} (api : VsApi M) (args : M) (vi : VideoInfo) (ns : String) where
  -- The parameters for a mode: the values of the arguments, or their defaults.
  abbrev pub given_nlm : ChannelMode → NlmParams
  given_nlm mode = record {
    d = map_int api args "d" (pos 1);
    a = map_int api args "a" (pos 2);
    s = map_int api args "s" (pos 4);
    h = map_float api args "h" 0x3f99999a;
    wref = map_float api args "wref" 0x3f800000;
    channels = mode;
    weight = weight_of (map_int api args "wmode" (pos 0));
  }

  -- The parameters are those given, for the mode that the argument names, and legal.
  pub record IsAccepted (p : NlmParams) : Type 0 where
    pub format : is_const_32f api vi ≡ true
    pub given : p ≡ given_nlm p.channels
    pub named : Names vi (text_or "AUTO" (api.get_data args "channels" 0)) p.channels
    pub legal : IsLegal vi (map_int api args "wmode" (pos 0)) p

  parse_nlm-Sound : Sound IsAccepted (parse_nlm api args vi ns)
  unfolding parse_nlm
  parse_nlm-Sound = reject-Sound _ _ _ λ format. reject-Sound _ _ _ λ ranges.
      reject-Sound _ _ _ λ pinned. reject-Sound _ _ _ λ weight.
        chain-Sound _ _ (channel_mode-Names vi ns _) λ mode named.
          chain-Sound _ _ (check_mode-Sound vi ns mode) λ v fitting.
            chain-Sound _ _ (for_planes-Sound _ _ _ _ (check_search_plane-Sound vi ns _))
              λ w narrow. ok-Sound _ record {
                format = ground (arith, format);
                given = refl;
                named = named;
                legal = tests-IsLegal vi _ (given_nlm mode) ranges pinned weight fitting narrow;
              }

  passes :
      (mode : ChannelMode)
      → is_const_32f api vi ≡ true
      → Names vi (text_or "AUTO" (api.get_data args "channels" 0)) mode
      → IsLegal vi (map_int api args "wmode" (pos 0)) (given_nlm mode)
      → parse_nlm api args vi ns ≡ ok (given_nlm mode)
  unfolding parse_nlm reject_if chain
  passes mode f n l =
      let planes =
        for_planes-ok (check_search_plane vi ns (map_int api args "a" (pos 2)))
          (plane_count vi mode) (first_plane mode)
          (λ plane h u.
            width_test vi ns _ plane l.a_least
              (l.narrow plane (visited-IsRead vi mode plane h u))) in
      rw
        (
          f,
          ranges_pass vi _ (given_nlm mode) l,
          pinned_pass vi _ l.d_least l.pinned,
          weight_test _ l.wmode_least l.wmode_most,
          Names-channel_mode vi ns _ mode n,
          IsFitting-check_mode vi ns mode l.fitting,
          planes,
        )
        refl
    where
      weight_test : (w : ℤ) → pos 0 ≤ℤ w → w ≤ℤ pos 3 → outside w 0 3 ≡ false
      weight_test w l u = ground arith

  -- parse_nlm returns parameters exactly when they are the values given, for the mode that `channels`
  -- names, and legal: the format is one of constant 32-bit float planes and has the channels of the
  -- mode; d, a, s and wmode are in their ranges; h and wref are finite and positive; the 2d + 1
  -- frames take at most 2 GiB; and each plane that the mode processes (the first for Y, the second and the third for
  -- UV, all for YUV and RGB) is wider than a.
  pub parse_nlm-IsAccepted : (p : NlmParams) → (parse_nlm api args vi ns ≡ ok p) ↔ IsAccepted p
  parse_nlm-IsAccepted p = (
    Sound.returns parse_nlm-Sound p,
    λ i.
        passes p.channels i.format i.named
          (subst (IsLegal vi (map_int api args "wmode" (pos 0))) i.given i.legal)
        ∙ ap ok (sym i.given),
  )
