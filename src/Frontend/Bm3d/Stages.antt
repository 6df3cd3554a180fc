-- ===== src/Frontend/Bm3d/Stages.antt =====
-- What parse_bm3d promises of each plane, and of the two stages.
use Prim.Native.String.{String}
use vapoursynth_nssfactory.Base.{
  ℕ, ◌≤◌, ◌≡◌, ◌⊎◌, inl, inr, refl, Bool, true, false, ◌&&◌, ◌||◌, not, ℤ, pos, ltb_ℤ, ◌≤ℤ◌, Option,
  ok, Sound, reject-Sound, ok-Sound, if-Sound, chain-Sound, Sound-weaken, arith,
}
use vapoursynth_nssfactory.Frontend.{
  VsApi, VideoInfo, map_int, is_yuv, eq_ℤ, plane_width, plane_height, AllPlanes, for_planes-Sound,
}
use vapoursynth_nssfactory.Frontend.Temporal.{outside}
use vapoursynth_nssfactory.Frontend.Bm3d.Basic.{IsBasicPlane, parse_basic_stage-Sound}
use vapoursynth_nssfactory.Frontend.Bm3d.{
  Bm3dBasic, Bm3dShape, Bm3dParams, bm_allowed_block, bm_allowed_group, at_plane, parse_chroma,
  check_plane, has_ref, parse_bm3d,
}

-- The shape of one plane.
pub record IsPlane (vi : VideoInfo) (p : Bm3dShape) (i : ℕ) : Type 0 where
  pub block_allowed : bm_allowed_block (at_plane p.block_size i) ≡ true
  pub group_allowed : bm_allowed_group (at_plane p.group_size i) ≡ true
  pub block_in_width : at_plane p.block_size i ≤ℤ pos (plane_width vi i)
  pub block_in_height : at_plane p.block_size i ≤ℤ pos (plane_height vi i)
  pub step_least : pos 1 ≤ℤ at_plane p.block_step i
  pub step_most : at_plane p.block_step i ≤ℤ at_plane p.block_size i
  pub ps_num_least : pos 1 ≤ℤ at_plane p.ps_num i
  pub ps_num_most : at_plane p.ps_num i ≤ℤ at_plane p.group_size i
  pub range_least : pos 1 ≤ℤ at_plane p.bm_range i
  pub range_most : at_plane p.bm_range i ≤ℤ pos 64
  pub ps_range_least : pos 0 ≤ℤ at_plane p.ps_range i
  pub ps_range_most : at_plane p.ps_range i ≤ℤ pos 64

-- A test of each bound by itself, so that a proof reads one at a time.
in_order : (a b c d : ℤ) → (ltb_ℤ a b || ltb_ℤ c d) ≡ false → (b ≤ℤ a) × (d ≤ℤ c)
in_order a b c d h = ground arith

within : (v : ℤ) (low high : ℕ) → outside v low high ≡ false → (pos low ≤ℤ v) × (v ≤ℤ pos high)
within v low high h = in_order v (pos low) (pos high) v h

not-not : (a : Bool) → not a ≡ false → a ≡ true
not-not a h = ground arith

module _ {ℓ} {M : Type ℓ} (api : VsApi M) (args : M) (vi : VideoInfo) (ns : String) where
  check_plane-Sound :
      (p : Bm3dShape) (i : ℕ) → Sound (λ u. IsPlane vi p i) (check_plane api args vi ns p i)
  unfolding check_plane
  check_plane-Sound p i = reject-Sound _ _ _ λ block. reject-Sound _ _ _ λ group.
      reject-Sound _ _ _ λ size. reject-Sound _ _ _ λ step. reject-Sound _ _ _ λ ps.
        reject-Sound _ _ _ λ range. reject-Sound _ _ _ λ ps_range.
          let (w, h) =
            in_order (pos (plane_width vi i)) (at_plane p.block_size i) (pos (plane_height vi i))
              (at_plane p.block_size i) size in
          let (s1, s2) =
            in_order (at_plane p.block_step i) (pos 1) (at_plane p.block_size i)
              (at_plane p.block_step i) step in
          let (n1, n2) =
            in_order (at_plane p.ps_num i) (pos 1) (at_plane p.group_size i) (at_plane p.ps_num i)
              ps in
          let (r1, r2) = within (at_plane p.bm_range i) 1 64 range in
          let (q1, q2) = within (at_plane p.ps_range i) 0 64 ps_range in
          ok-Sound _ record {
            block_allowed = not-not _ block;
            group_allowed = not-not _ group;
            block_in_width = w;
            block_in_height = h;
            step_least = s1;
            step_most = s2;
            ps_num_least = n1;
            ps_num_most = n2;
            range_least = r1;
            range_most = r2;
            ps_range_least = q1;
            ps_range_most = q2;
          }

  -- A clip that the three planes of a group can be stacked of.
  abbrev pub IsYuv444 : Type 0
  IsYuv444 =
      (is_yuv vi.format.color_family ≡ true)
      × (vi.format.sub_sampling_w ≡ 0)
      × (vi.format.sub_sampling_h ≡ 0)

  parse_chroma-Sound :
      (p : Bm3dShape)
      → Sound (λ shaped. (shaped.0 ≡ false) ⊎ IsYuv444) (parse_chroma api args vi ns p)
  unfolding parse_chroma
  parse_chroma-Sound p = reject-Sound _ _ _ λ flag.
      if-Sound (eq_ℤ (map_int api args "chroma" (pos 0)) (pos 0)) _ _ (λ off. ok-Sound _ (inl refl))
        (λ on.
          reject-Sound _ _ _ λ format. ok-Sound _ (inr (ground arith, ground arith, ground arith)))

  abbrev pub Accepted : Option VideoInfo → Bm3dParams → Type 0
  Accepted ref_vi p =
      AllPlanes (IsPlane vi p.shape) vi.format.num_planes 0
      × (pos 0 ≤ℤ p.radius)
      × (p.radius ≤ℤ pos 16)
      × ((p.chroma ≡ false) ⊎ IsYuv444)
      × ((p.final_stage ≡ false)
          ⊎ ((has_ref ref_vi ≡ false) × AllPlanes (IsBasicPlane vi p.basic) vi.format.num_planes 0))

  final_or_ref :
      (final_off ref : Bool) (A : Type 0)
      → (not final_off && ref) ≡ false
      → (final_off ≡ true) ⊎ A
      → (not final_off ≡ false) ⊎ ((ref ≡ false) × A)
  final_or_ref final_off ref A h (inl off) = inl (rw off refl)
  final_or_ref true ref A h (inr bounds) = inl refl
  final_or_ref false ref A h (inr bounds) = inr (h, bounds)

  parse_bm3d-Sound :
      (ref_vi : Option VideoInfo)
      → vi.format.num_planes ≤ 3
      → Sound (Accepted ref_vi) (parse_bm3d api args vi ref_vi ns)
  unfolding parse_bm3d
  parse_bm3d-Sound ref_vi few =
      let off = eq_ℤ (map_int api args "final" (pos 0)) (pos 0) in
      let Bounds : Bm3dBasic → Type 0 =
        λ basic. AllPlanes (IsBasicPlane vi basic) vi.format.num_planes 0 in
      reject-Sound _ _ _ λ format. reject-Sound _ _ _ λ same.
        chain-Sound {P = λ sigma. Unit} _ _ (record { returns = λ s k. tt })
          λ sigma u. reject-Sound _ _ _ λ radius.
            chain-Sound _ _ (parse_chroma-Sound _) λ shaped stacked. reject-Sound _ _ _ λ flag.
              reject-Sound _ _ _ λ only. reject-Sound _ _ _ λ one.
                chain-Sound {P = λ basic. (off ≡ true) ⊎ Bounds basic} _ _
                  (if-Sound off _ _ (λ h. ok-Sound _ (inl h))
                    (λ h.
                      Sound-weaken (parse_basic_stage-Sound api args vi ns shaped.0 shaped.1 _ few)
                        (λ basic bounds. inr bounds)))
                  λ basic bounds.
                    chain-Sound _ _ (for_planes-Sound _ _ _ _ (check_plane-Sound shaped.1))
                      λ w planes.
                        let (r1, r2) = within (map_int api args "radius" (pos 0)) 0 16 radius in
                        ok-Sound _
                          (planes, r1, r2, stacked, final_or_ref off _ (Bounds basic) one bounds)

  -- If parse_bm3d returns parameters for a clip of at most 3 planes, then every plane has a block of one
  -- of the allowed sizes, no larger than the plane, a group of one of the allowed sizes, a step of 1 to
  -- the block size, and predictions and ranges within their bounds; the radius is from 0 to 16; chroma=1
  -- goes only with a YUV clip without subsampling; and final=1 goes only without a ref clip, and gives
  -- the basic stage of every plane an allowed block within the plane, an allowed group, a step of at
  -- most the block and no more predictions than the group holds.
  pub bm3d_stages :
      (ref_vi : Option VideoInfo) (p : Bm3dParams)
      → vi.format.num_planes ≤ 3
      → parse_bm3d api args vi ref_vi ns ≡ ok p
      → Accepted ref_vi p
  bm3d_stages ref_vi p few e = Sound.returns (parse_bm3d-Sound ref_vi few) p e
