-- ===== src/Frontend/Groups/Shapes.antt =====
-- The bounds of the shapes that the three parsers return.
use Prim.Native.String.{String}
use vapoursynth_nssfactory.Base.{
  ℕ, ◌*◌, ◌≡◌, true, false, ℤ, pos, negsuc, ◌≤ℤ◌, ◌*ℤ◌, ok, Sound, reject-Sound, ok-Sound, arith,
}
use vapoursynth_nssfactory.Float.{F32, is_finite_bits, float_lt}
use vapoursynth_nssfactory.Frontend.{VsApi, VideoInfo}
use vapoursynth_nssfactory.Frontend.Temporal.{outside}
use vapoursynth_nssfactory.Frontend.Groups.{
  GroupShape, WnnmParams, NcsrParams, McwnnmParams, bad_blocks, bad_predictions, bad_iterations,
  parse_wnnm, parse_ncsr, parse_mcwnnm,
}

-- What the parsers promise of the shape: the bounds that the kernels are built for.
pub record IsGroupShape (p : GroupShape) : Type 0 where
  pub block_least : pos 1 ≤ℤ p.block_size
  pub block_most : p.block_size ≤ℤ pos 16
  pub step_least : pos 1 ≤ℤ p.block_step
  pub step_most : p.block_step ≤ℤ p.block_size
  pub group_least : pos 1 ≤ℤ p.group_size
  pub group_most : p.group_size ≤ℤ pos 32
  pub range_least : pos 1 ≤ℤ p.bm_range
  pub range_most : p.bm_range ≤ℤ pos 64
  pub radius_least : pos 0 ≤ℤ p.radius
  pub radius_most : p.radius ≤ℤ pos 16
  pub ps_num_least : pos 1 ≤ℤ p.ps_num
  pub ps_num_most : p.ps_num ≤ℤ p.group_size
  pub ps_range_least : pos 1 ≤ℤ p.ps_range
  pub ps_range_most : p.ps_range ≤ℤ pos 64

-- Rounds of the outer iteration, and its feedback.
pub record IsIteration (iters : ℤ) (delta : F32) : Type 0 where
  pub iters_least : pos 1 ≤ℤ iters
  pub iters_most : iters ≤ℤ pos 64
  pub delta_finite : is_finite_bits delta ≡ true
  pub delta_least : float_lt delta 0 ≡ false
  pub delta_most : float_lt 0x3f800000 delta ≡ false

shape-IsGroupShape :
    (p : GroupShape)
    → bad_blocks p ≡ false
    → outside p.bm_range 1 64 ≡ false
    → bad_predictions p ≡ false
    → IsGroupShape p
unfolding bad_blocks bad_predictions
shape-IsGroupShape p b r s = record {
  block_least = ground arith;
  block_most = ground arith;
  step_least = ground arith;
  step_most = ground arith;
  group_least = ground arith;
  group_most = ground arith;
  range_least = ground arith;
  range_most = ground arith;
  radius_least = ground arith;
  radius_most = ground arith;
  ps_num_least = ground arith;
  ps_num_most = ground arith;
  ps_range_least = ground arith;
  ps_range_most = ground arith;
}

iterations-IsIteration :
    (iters : ℤ) (delta : F32) → bad_iterations iters delta ≡ false → IsIteration iters delta
unfolding bad_iterations
iterations-IsIteration iters delta h = record {
  iters_least = ground arith;
  iters_most = ground arith;
  delta_finite = ground arith;
  delta_least = ground arith;
  delta_most = ground arith;
}

module _ {ℓ} {M : Type ℓ} (api : VsApi M) (args : M) (vi : VideoInfo) (ns : String) where
  parse_wnnm-Sound : Sound (λ p. IsGroupShape p.shape) (parse_wnnm api args vi ns)
  unfolding parse_wnnm
  parse_wnnm-Sound = reject-Sound _ _ _ λ f.
      reject-Sound _ _ _
        λ b. reject-Sound _ _ _ λ r. reject-Sound _ _ _ λ s. ok-Sound _ (shape-IsGroupShape _ b r s)

  parse_ncsr-Sound :
      Sound (λ p. IsGroupShape p.shape × IsIteration p.iters p.delta) (parse_ncsr api args vi ns)
  unfolding parse_ncsr
  parse_ncsr-Sound = reject-Sound _ _ _ λ f. reject-Sound _ _ _ λ b. reject-Sound _ _ _ λ i.
      reject-Sound _ _ _ λ s.
        reject-Sound _ _ _
          λ r. ok-Sound _ (shape-IsGroupShape _ b r s, iterations-IsIteration _ _ i)

  parse_mcwnnm-Sound :
      Sound
        (λ p.
          IsGroupShape p.shape
          × IsIteration p.iters p.delta
          × (pos 3 *ℤ p.shape.block_size *ℤ p.shape.block_size ≤ℤ pos 256))
        (parse_mcwnnm api args vi ns)
  unfolding parse_mcwnnm
  parse_mcwnnm-Sound = reject-Sound _ _ _ λ f. reject-Sound _ _ _ λ c. reject-Sound _ _ _ λ g.
      reject-Sound _ _ _ λ b. reject-Sound _ _ _ λ m. reject-Sound _ _ _ λ r.
        reject-Sound _ _ _ λ a. reject-Sound _ _ _ λ i.
          reject-Sound _ _ _
            λ s. ok-Sound _ (shape-IsGroupShape _ b r s, iterations-IsIteration _ _ i, ground arith)

  -- A shape that one of the parsers returns, with the planes that it stacks in a group.
  pub data Parsed : GroupShape → ℕ → Type ℓ where
    by_wnnm : (p : WnnmParams) → parse_wnnm api args vi ns ≡ ok p → Parsed p.shape 1
    by_ncsr : (p : NcsrParams) → parse_ncsr api args vi ns ≡ ok p → Parsed p.shape 1
    by_mcwnnm : (p : McwnnmParams) → parse_mcwnnm api args vi ns ≡ ok p → Parsed p.shape 3

pos_mul : (a b : ℕ) → pos a *ℤ pos b ≡ pos (a * b)
unfolding ◌*ℤ◌
pos_mul a b = ground arith

square_fits : (b : ℤ) → pos 1 ≤ℤ b → b ≤ℤ pos 16 → pos 1 *ℤ b *ℤ b ≤ℤ pos 256
square_fits (pos n) l u = rw (pos_mul 1 n, pos_mul (1 * n) n) (grind arith)
square_fits (negsuc n) l u = absurd (omega arith)

module _ {ℓ} {M : Type ℓ} (api : VsApi M) (args : M) (vi : VideoInfo) (ns : String) where
  -- The shape of a group, from whichever of the three parsers returns it, is within the bounds that
  -- IsGroupShape lists, and its matrix fits the singular value decomposition: the values of a block
  -- of all stacked planes are at most 256, and the blocks of a group at most 32.
  pub group_fits :
      (shape : GroupShape) (planes : ℕ)
      → Parsed api args vi ns shape planes
      → IsGroupShape shape
        × (pos planes *ℤ shape.block_size *ℤ shape.block_size ≤ℤ pos 256)
        × (shape.group_size ≤ℤ pos 32)
  group_fits shape planes (by_wnnm p e) =
      let s = Sound.returns (parse_wnnm-Sound api args vi ns) p e in
      (s, square_fits _ s.block_least s.block_most, s.group_most)
  group_fits shape planes (by_ncsr p e) =
      let (s, i) = Sound.returns (parse_ncsr-Sound api args vi ns) p e in
      (s, square_fits _ s.block_least s.block_most, s.group_most)
  group_fits shape planes (by_mcwnnm p e) =
      let (s, i, fits) = Sound.returns (parse_mcwnnm-Sound api args vi ns) p e in
      (s, fits, s.group_most)
