-- ===== src/Frontend/Bm3d/Basic.antt =====
-- The bounds of the basic stage that parse_basic_stage returns, for final=1.
use Prim.Native.String.{String}
use vapoursynth_nssfactory.Base.{
  ℕ, zero, suc, ◌+◌, ◌≤◌, ◌<◌, ◌≡◌, ◌≢◌, refl, ap, ◌∙◌, Bool, true, false, ◌||◌, not, ℤ, pos, ltb_ℤ,
  ◌≤ℤ◌, List, [], ◌∷◌, get_or, set, length, length-set, Sound, reject-Sound, ok-Sound, Sound-weaken,
  Bool-cases, inl, inr, arith, if◌then◌else◌,
}
use vapoursynth_nssfactory.Float.{F32, float_ne}
use vapoursynth_nssfactory.Temporal.{min_ℤ}
use vapoursynth_nssfactory.Frontend.{
  VsApi, VideoInfo, any_given, plane_width, plane_height, AllPlanes, write_loop, map_inherit_int,
}
use vapoursynth_nssfactory.Frontend.Bm3d.{
  Bm3dShape, Bm3dBasic, bm_allowed_block, bm_allowed_group, bm3d_effective, at_plane, basic_loop,
  parse_basic_stage,
}

-- The shape of one plane in the basic stage.
pub record IsBasicPlane (vi : VideoInfo) (b : Bm3dBasic) (i : ℕ) : Type 0 where
  pub block_allowed : bm_allowed_block (at_plane b.block_size_basic i) ≡ true
  pub group_allowed : bm_allowed_group (at_plane b.group_size_basic i) ≡ true
  pub block_in_width : at_plane b.block_size_basic i ≤ℤ pos (plane_width vi i)
  pub block_in_height : at_plane b.block_size_basic i ≤ℤ pos (plane_height vi i)
  pub step_most : at_plane b.block_step_basic i ≤ℤ at_plane b.block_size_basic i
  pub ps_num_most : at_plane b.ps_num_basic i ≤ℤ at_plane b.group_size_basic i

get_or-set_self {ℓ} :
    {A : Type ℓ} (xs : List A) (i : ℕ) (v d : A) → i < length xs → get_or (set xs i v) i d ≡ v
get_or-set_self [] i v d h = absurd (omega arith)
get_or-set_self (x ∷ xs) zero v d h = refl
get_or-set_self (x ∷ xs) (suc i) v d h = get_or-set_self xs i v d (omega arith)

get_or-set_ne {ℓ} :
    {A : Type ℓ} (xs : List A) (i j : ℕ) (v d : A) → i ≢ j → get_or (set xs i v) j d ≡ get_or xs j d
get_or-set_ne [] i j v d h = refl
get_or-set_ne (x ∷ xs) zero zero v d h = absurd (h refl)
get_or-set_ne (x ∷ xs) zero (suc j) v d h = refl
get_or-set_ne (x ∷ xs) (suc i) zero v d h = refl
get_or-set_ne (x ∷ xs) (suc i) (suc j) v d h = get_or-set_ne xs i j v d (λ e. h (ap suc e))

-- The four arrays that the bounds are about, at one plane.
record Same (i : ℕ) (a b : Bm3dBasic) : Type 0 where
  pub block : at_plane a.block_size_basic i ≡ at_plane b.block_size_basic i
  pub group : at_plane a.group_size_basic i ≡ at_plane b.group_size_basic i
  pub step : at_plane a.block_step_basic i ≡ at_plane b.block_step_basic i
  pub ps_num : at_plane a.ps_num_basic i ≡ at_plane b.ps_num_basic i

-- Each array has a place for every plane before `n`.
record HasPlaces (n : ℕ) (b : Bm3dBasic) : Type 0 where
  pub block : n ≤ length b.block_size_basic
  pub group : n ≤ length b.group_size_basic
  pub step : n ≤ length b.block_step_basic
  pub ps_num : n ≤ length b.ps_num_basic

IsBasicPlane-Same :
    (vi : VideoInfo) (i : ℕ) (a b : Bm3dBasic)
    → Same i a b
    → IsBasicPlane vi b i
    → IsBasicPlane vi a i
IsBasicPlane-Same vi i a b s p = record {
  block_allowed = rw s.block p.block_allowed;
  group_allowed = rw s.group p.group_allowed;
  block_in_width = rw s.block p.block_in_width;
  block_in_height = rw s.block p.block_in_height;
  step_most = rw (s.step, s.block) p.step_most;
  ps_num_most = rw (s.ps_num, s.group) p.ps_num_most;
}

-- A round of the loop: what it writes for plane i.
abbrev round : ℕ → F32 → ℤ → ℤ → ℤ → ℤ → Bm3dBasic → Bm3dBasic
round i sigma block group step ps b = record {
  sigma_basic = set b.sigma_basic i sigma;
  block_size_basic = set b.block_size_basic i block;
  group_size_basic = set b.group_size_basic i group;
  block_step_basic = set b.block_step_basic i step;
  ps_num_basic = set b.ps_num_basic i ps;
}

round-Same :
    (i j : ℕ) (sigma : F32) (block group step ps : ℤ) (b : Bm3dBasic)
    → i ≢ j
    → Same j (round i sigma block group step ps b) b
round-Same i j sigma block group step ps b h = record {
  block = get_or-set_ne b.block_size_basic i j block (pos 0) h;
  group = get_or-set_ne b.group_size_basic i j group (pos 0) h;
  step = get_or-set_ne b.block_step_basic i j step (pos 0) h;
  ps_num = get_or-set_ne b.ps_num_basic i j ps (pos 0) h;
}

round-HasPlaces :
    (n i : ℕ) (sigma : F32) (block group step ps : ℤ) (b : Bm3dBasic)
    → HasPlaces n b
    → HasPlaces n (round i sigma block group step ps b)
round-HasPlaces n i sigma block group step ps b h = record {
  block = rw (length-set b.block_size_basic i block) h.block;
  group = rw (length-set b.group_size_basic i group) h.group;
  step = rw (length-set b.block_step_basic i step) h.step;
  ps_num = rw (length-set b.ps_num_basic i ps) h.ps_num;
}

round-IsBasicPlane :
    (vi : VideoInfo) (n i : ℕ) (sigma : F32) (block group step ps : ℤ) (b : Bm3dBasic)
    → HasPlaces n b
    → i < n
    → bm_allowed_block block ≡ true
    → bm_allowed_group group ≡ true
    → (block ≤ℤ pos (plane_width vi i)) × (block ≤ℤ pos (plane_height vi i))
    → step ≤ℤ block
    → ps ≤ℤ group
    → IsBasicPlane vi (round i sigma block group step ps b) i
round-IsBasicPlane vi n i sigma block group step ps b h l b1 g1 size s1 p1 =
    let same_block = get_or-set_self b.block_size_basic i block (pos 0) (omega (arith, h.block)) in
    let same_group = get_or-set_self b.group_size_basic i group (pos 0) (omega (arith, h.group)) in
    let same_step = get_or-set_self b.block_step_basic i step (pos 0) (omega (arith, h.step)) in
    let same_ps = get_or-set_self b.ps_num_basic i ps (pos 0) (omega (arith, h.ps_num)) in
    record {
      block_allowed = rw same_block b1;
      group_allowed = rw same_group g1;
      block_in_width = rw same_block size.0;
      block_in_height = rw same_block size.1;
      step_most = rw (same_step, same_block) s1;
      ps_num_most = rw (same_ps, same_group) p1;
    }

in_plane : (block w h : ℤ) → (ltb_ℤ w block || ltb_ℤ h block) ≡ false → (block ≤ℤ w) × (block ≤ℤ h)
in_plane block w h e = (ground arith, ground arith)

at_most : (a b : ℤ) → ltb_ℤ b a ≡ false → a ≤ℤ b
at_most a b h = ground arith

is_allowed : (b : Bool) → not b ≡ false → b ≡ true
is_allowed b h = ground arith

Same-trans : (i : ℕ) (a b c : Bm3dBasic) → Same i a b → Same i b c → Same i a c
Same-trans i a b c s t = record {
  block = s.block ∙ t.block;
  group = s.group ∙ t.group;
  step = s.step ∙ t.step;
  ps_num = s.ps_num ∙ t.ps_num;
}

Same-refl : (i : ℕ) (a : Bm3dBasic) → Same i a a
Same-refl i a = record { block = refl; group = refl; step = refl; ps_num = refl }

-- The loop from plane i on keeps the planes before, and bounds the others.
record Looped (vi : VideoInfo) (i count : ℕ) (b r : Bm3dBasic) : Type 0 where
  pub before : (j : ℕ) → j < i → Same j r b
  pub planes : AllPlanes (IsBasicPlane vi r) count i

module _ {ℓ} {M : Type ℓ} (api : VsApi M) (args : M) (vi : VideoInfo) (ns : String) where
  basic_loop-Sound :
      (chroma : Bool) (p : Bm3dShape) (given : List F32) (count i n : ℕ) (b : Bm3dBasic)
      → HasPlaces n b
      → i + count ≤ n
      → Sound (Looped vi i count b) (basic_loop api args vi ns chroma p given count i b)
  unfolding basic_loop
  basic_loop-Sound chroma p given zero i n b h l =
      ok-Sound _ record { before = λ j k. Same-refl j b; planes = tt }
  basic_loop-Sound chroma p given (suc count) i n b h l =
      let plane = if chroma then 0 else i in
      let block = at_plane b.block_size_basic plane in
      let group = at_plane b.group_size_basic plane in
      let value = get_or given i 0 in
      let sigma = if float_ne value 0 then bm3d_effective value else 0 in
      let step =
        if any_given api args "block_step" then at_plane p.block_step i else min_ℤ (pos 8) block in
      let ps = if any_given api args "ps_num" then at_plane p.ps_num i else min_ℤ (pos 2) group in
      let next = round i sigma block group step ps b in
      reject-Sound _ _ _ λ s. reject-Sound _ _ _ λ b1. reject-Sound _ _ _ λ g1.
        reject-Sound _ _ _ λ size. reject-Sound _ _ _ λ st. reject-Sound _ _ _ λ pn.
          Sound-weaken
            (basic_loop-Sound chroma p given count (suc i) n next
              (round-HasPlaces n i sigma block group step ps b h) (omega arith))
            (λ r looped.
              let here =
                round-IsBasicPlane vi n i sigma block group step ps b h (omega arith)
                  (is_allowed _ b1) (is_allowed _ g1)
                  (in_plane block (pos (plane_width vi i)) (pos (plane_height vi i)) size)
                  (at_most step block st) (at_most ps group pn) in
              record {
                before = λ j k.
                    Same-trans j r next b (looped.before j (omega arith))
                      (round-Same i j sigma block group step ps b (λ e. absurd (omega arith)));
                planes = (
                  IsBasicPlane-Same vi i r next (looped.before i (omega arith)) here,
                  looped.planes,
                );
              })

length-write_loop {ℓ} :
    {A : Type ℓ} (value : ℕ → List A → A) (count i : ℕ) (out : List A)
    → length (write_loop value count i out) ≡ length out
length-write_loop value zero i out = refl
length-write_loop value (suc count) i out =
    length-write_loop value count (suc i) (set out i (value i out)) ∙ length-set out i (value i out)

module _ {ℓ} {M : Type ℓ} (api : VsApi M) (args : M) where
  length-map_inherit_int :
      (key : String) (out : List ℤ) (n : ℕ) (fallback : ℤ)
      → length (map_inherit_int api args key out n fallback) ≡ length out
  unfolding map_inherit_int
  length-map_inherit_int key out n fallback = elim (Bool-cases (any_given api args key)) [
    | inl given ↦ rw given (length-write_loop _ n 0 out)
    | inr absent ↦ rw absent (length-write_loop _ n 0 out)
  ]

  -- The start of an array: that of the call, or what is read over it.
  length-start :
      (given : Bool) (key : String) (value : ℕ → List ℤ → ℤ) (n : ℕ) (fallback : ℤ) (out : List ℤ)
      → let start = write_loop value n 0 out in
        length (if given then map_inherit_int api args key start n fallback else start) ≡ length out
  length-start true key value n fallback out =
      length-map_inherit_int key (write_loop value n 0 out) n fallback
      ∙ length-write_loop value n 0 out
  length-start false key value n fallback out = length-write_loop value n 0 out

  pub parse_basic_stage-Sound :
      (vi : VideoInfo) (ns : String) (chroma : Bool) (p : Bm3dShape) (given : List F32)
      → vi.format.num_planes ≤ 3
      → Sound
          (λ r. AllPlanes (IsBasicPlane vi r) vi.format.num_planes 0)
          (parse_basic_stage api args vi ns chroma p given)
  unfolding parse_basic_stage
  parse_basic_stage-Sound vi ns chroma p given few =
      let np = vi.format.num_planes in
      let out : List ℤ = pos 0 ∷ pos 0 ∷ pos 0 ∷ [] in
      let block =
        length-start (any_given api args "block_size_basic") "block_size_basic"
          (λ i out. at_plane p.block_size i) np (pos 8) out in
      let group =
        length-start (any_given api args "group_size_basic") "group_size_basic"
          (λ i out. at_plane p.group_size i) np (pos 8) out in
      Sound-weaken
        (basic_loop-Sound api args vi ns chroma p _ np 0 3 _
          record {
            block = omega (arith, block);
            group = omega (arith, group);
            step = omega arith;
            ps_num = omega arith;
          }
          (omega arith))
        (λ r looped. looped.planes)
