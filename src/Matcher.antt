-- ===== src/Matcher.antt =====
-- src/cpu/bm/matcher.hpp: block matches and their order.
pub mod Order
pub mod TopK
pub mod Spatial
pub mod Temporal
pub mod Nch
use vapoursynth_nssfactory.Base.{ℕ, Bool, true, false, ◌&&◌, ◌||◌, not, ltb, ◌==◌, if◌then◌else◌}
use vapoursynth_nssfactory.Float.{F32, is_finite_bits, float_lt, float_ne}

-- A block of a frame: its corner, the frame, its distance to the reference block, and its place in
-- the order in which the candidates are visited.
pub record Match : Type 0 where
  pub x : ℕ
  pub y : ℕ
  pub t : ℕ
  pub dist : F32
  pub ordinal : ℕ

-- `a != b` of two booleans.
bool_ne : Bool → Bool → Bool
bool_ne true b = not b
bool_ne false b = b

-- Ordinal 0 is the reference block.
pub match_tie_less : Match → Match → Bool
unfolding bool_ne
match_tie_less a b =
    let a_self = a.ordinal == 0 in
    let b_self = b.ordinal == 0 in
    if bool_ne a_self b_self
    then a_self
    else if not (a.t == b.t)
    then ltb a.t b.t
    else if not (a.y == b.y)
    then ltb a.y b.y
    else if not (a.x == b.x)
    then ltb a.x b.x
    else ltb a.ordinal b.ordinal

pub match_less : Match → Match → Bool
unfolding bool_ne match_tie_less
match_less a b =
    let a_finite = is_finite_bits a.dist in
    let b_finite = is_finite_bits b.dist in
    if bool_ne a_finite b_finite
    then a_finite
    else if a_finite && float_ne a.dist b.dist
    then float_lt a.dist b.dist
    else match_tie_less a b
