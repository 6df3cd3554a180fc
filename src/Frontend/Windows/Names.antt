-- ===== src/Frontend/Windows/Names.antt =====
-- The mode that the argument `channels` names.
use Prim.Native.String.{String, compare}
use Prim.Native.Nat.{Ordering}
use text.Mathlib.TextEquality.{path_by_compare}
use mathlib.Core.Path.{subst}
use vapoursynth_nssfactory.Base.{
  ◌≡◌, refl, sym, ◌⊎◌, inl, inr, Bool, true, false, ok, Sound, ok-Sound, if-Sound, if◌then◌else◌,
  arith,
}
use vapoursynth_nssfactory.Frontend.{VideoInfo, is_rgb, str_eq}
use vapoursynth_nssfactory.Frontend.Windows.{
  ChannelMode, mode_y, mode_uv, mode_yuv, mode_rgb, channel_mode,
}

-- The texts that select a mode.
abbrev pub Names : VideoInfo → String → ChannelMode → Type 0
Names vi text mode_y = (text ≡ "Y") ⊎ ((text ≡ "AUTO") × (is_rgb vi.format.color_family ≡ false))
Names vi text mode_uv = text ≡ "UV"
Names vi text mode_yuv = text ≡ "YUV"
Names vi text mode_rgb = (text ≡ "RGB") ⊎ ((text ≡ "AUTO") × (is_rgb vi.format.color_family ≡ true))

str_eq→eq : (a b : String) → str_eq a b ≡ true → a ≡ b
str_eq→eq a b h = path_by_compare a b (is_eq (compare a b) h)
  where
    is_eq :
        (o : Ordering)
        → (elim o as (λ x. Bool) [ Ordering.eq ↦ true | _ ↦ false ]) ≡ true
        → o ≡ Ordering.eq
    is_eq Ordering.eq e = refl
    is_eq Ordering.lt e = absurd (ground (arith, e))
    is_eq Ordering.gt e = absurd (ground (arith, e))

pub channel_mode-Names :
    (vi : VideoInfo) (ns text : String) → Sound (Names vi text) (channel_mode vi ns text)
unfolding channel_mode
channel_mode-Names vi ns text =
    if-Sound _ _ _ (λ y. ok-Sound mode_y (inl (str_eq→eq text "Y" y)))
      λ n1.
        if-Sound _ _ _ (λ uv. ok-Sound mode_uv (str_eq→eq text "UV" uv))
          λ n2.
            if-Sound _ _ _ (λ yuv. ok-Sound mode_yuv (str_eq→eq text "YUV" yuv))
              λ n3.
                if-Sound _ _ _ (λ rgb. ok-Sound mode_rgb (inl (str_eq→eq text "RGB" rgb)))
                  λ n4.
                    if-Sound _ _ _
                      (λ auto. ok-Sound _ (by_family (str_eq→eq text "AUTO" auto) _ refl))
                      λ n5. record { returns = λ mode e. absurd (ground arith) }
  where
    by_family :
        text ≡ "AUTO"
        → (rgb : Bool) → is_rgb vi.format.color_family ≡ rgb
        → Names vi text (if rgb then mode_rgb else mode_y)
    by_family auto true e = inr (auto, e)
    by_family auto false e = inr (auto, e)

pub Names-channel_mode :
    (vi : VideoInfo) (ns text : String) (mode : ChannelMode)
    → Names vi text mode
    → channel_mode vi ns text ≡ ok mode
unfolding channel_mode
Names-channel_mode vi ns text mode_y (inl e) =
    subst (λ t. channel_mode vi ns t ≡ ok mode_y) (sym e) refl
Names-channel_mode vi ns text mode_y (inr (e, gray)) =
    subst (λ t. channel_mode vi ns t ≡ ok mode_y) (sym e) (rw (channel_mode, gray) refl)
Names-channel_mode vi ns text mode_uv e =
    subst (λ t. channel_mode vi ns t ≡ ok mode_uv) (sym e) refl
Names-channel_mode vi ns text mode_yuv e =
    subst (λ t. channel_mode vi ns t ≡ ok mode_yuv) (sym e) refl
Names-channel_mode vi ns text mode_rgb (inl e) =
    subst (λ t. channel_mode vi ns t ≡ ok mode_rgb) (sym e) refl
Names-channel_mode vi ns text mode_rgb (inr (e, rgb)) =
    subst (λ t. channel_mode vi ns t ≡ ok mode_rgb) (sym e) (rw (channel_mode, rgb) refl)
