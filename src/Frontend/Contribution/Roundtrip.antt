-- ===== src/Frontend/Contribution/Roundtrip.antt =====
-- What stamp_contribution writes, validate_contribution reads back (src/frontend/contribution.hpp).
-- The map of properties keeps what is set: the laws of PropsLaws.
use Prim.Native.String.{String, ◌++◌ as ◌append◌}
use mathlib.Core.Path.{ap}
use vapoursynth_nssfactory.Base.{
  eq_ℤ-refl, Bool, true, false, ◌&&◌, ◌||◌, not, if◌then◌else◌, ℤ, pos, ltb_ℤ, Option, none, some,
  List, [], ◌∷◌, Error, ok, err, reject_if, chain, Sound, ok-Sound, chain-Sound, if-Sound,
  Sound-weaken, ◌≡◌, refl, ◌∙◌, ◌≤◌, arith, invalid_argument,
}
use vapoursynth_nssfactory.Frontend.{eq_ℤ, str_eq}
use vapoursynth_nssfactory.Frontend.Contribution.{
  Model, PropsApi, ContributionLayout, model_code, model_semantic_version, profile_of, set_each,
  contribution_set, stored, model_entries, fat_entries, stamp_contribution, contribution_property,
  read_layout, bad_layout, validate_contribution, model_bm3d, model_wnnm, model_mcwnnm, model_twsc,
  model_ncsr, model_nlh, model_lssc, model_nlm,
}

-- mapSetInt with maReplace: the key has the one value, and the other keys what they had.
pub record PropsLaws {ℓ} {M : Type ℓ} (api : PropsApi M) : Type ℓ where
  pub read_back :
      (p q : M) (key : String) (value : ℤ)
      → api.set_int p key value ≡ some q
      → (other : String)
      → api.get_int q other ≡ (if str_eq key other then some value else api.get_int p other)
  pub count_back :
      (p q : M) (key : String) (value : ℤ)
      → api.set_int p key value ≡ some q
      → (other : String)
      → api.num_elements q other ≡ (if str_eq key other then pos 1 else api.num_elements p other)

-- What a key has after the entries: the last entry for it counts.
abbrev with_entries {ℓ} : {A : Type ℓ} → (ℤ → A) → List (String × ℤ) → String → A → A
with_entries one [] key before = before
with_entries one ((written, value) ∷ rest) key before =
    with_entries one rest key (if str_eq written key then one value else before)

module _ {ℓ} {M : Type ℓ} (api : PropsApi M) where
  record IsWritten (entries : List (String × ℤ)) (p q : M) : Type 0 where
    values : (key : String) → api.get_int q key ≡ with_entries some entries key (api.get_int p key)
    counts :
        (key : String)
        → api.num_elements q key ≡ with_entries (λ v. pos 1) entries key (api.num_elements p key)

  module _ (laws : PropsLaws api) where
    stored-IsWritten :
        (p : M) (key : String) (value : ℤ) (found : Option M)
        → api.set_int p key value ≡ found
        → Sound (IsWritten ((key, value) ∷ []) p) (stored api found)
    stored-IsWritten p key value none e = record { returns = λ a k. absurd (ground arith) }
    stored-IsWritten p key value (some q) e =
        ok-Sound q record {
          values = laws.read_back p q key value e;
          counts = laws.count_back p q key value e;
        }

    set_each-IsWritten :
        (entries : List (String × ℤ)) (p : M) → Sound (IsWritten entries p) (set_each api entries p)
    unfolding set_each contribution_set
    set_each-IsWritten [] p = ok-Sound p record { values = λ key. refl; counts = λ key. refl }
    set_each-IsWritten ((key, value) ∷ rest) p =
        chain-Sound _ _ (stored-IsWritten p key value (api.set_int p key value) refl) (λ q first.
          Sound-weaken (set_each-IsWritten rest q) (λ r later. record {
            values = λ other.
                later.values other ∙ ap (with_entries some rest other) (first.values other);
            counts = λ other.
                later.counts other ∙ ap (with_entries (λ v. pos 1) rest other) (first.counts other);
          }))

  -- The identity of a contribution as the properties hold it.
  record IsStamped (radius center code : ℤ) (q : M) : Type 0 where
    has_version : api.get_int q "_NSSFatVersion" ≡ some (pos 2)
    has_radius : api.get_int q "_NSSFatRadius" ≡ some radius
    has_center : api.get_int q "_NSSFatCenter" ≡ some center
    has_layout : api.get_int q "_NSSFatLayout" ≡ some (pos 1)
    has_model : api.get_int q "_NSSModel" ≡ some code
    has_profile : api.get_int q "_NSSNoiseProfile" ≡ some (profile_of code)
    has_model_version : api.get_int q "_NSSModelVersion" ≡ some (model_semantic_version code)
    counted : api.num_elements q "_NSSFatVersion" ≡ pos 1

  stamp-IsStamped :
      (laws : PropsLaws api) (props : M) (radius center : ℤ) (model : Model)
      → ltb_ℤ (pos 0) radius ≡ true
      → Sound
          (IsStamped radius center (pos (model_code model)))
          (stamp_contribution api props radius center model)
  unfolding stamp_contribution
  stamp-IsStamped laws props radius center model positive =
      chain-Sound _ _ (set_each-IsWritten laws (model_entries (pos (model_code model))) props)
        (λ m first.
          if-Sound (ltb_ℤ (pos 0) radius) _ _
            (λ yes. Sound-weaken (set_each-IsWritten laws (fat_entries radius center) m) (λ q later.
              record {
                has_version = later.values "_NSSFatVersion";
                has_radius = later.values "_NSSFatRadius";
                has_center = later.values "_NSSFatCenter";
                has_layout = later.values "_NSSFatLayout";
                has_model = later.values "_NSSModel" ∙ first.values "_NSSModel";
                has_profile = later.values "_NSSNoiseProfile" ∙ first.values "_NSSNoiseProfile";
                has_model_version =
                    later.values "_NSSModelVersion" ∙ first.values "_NSSModelVersion";
                counted = later.counts "_NSSFatVersion";
              }))
            (λ zero. absurd (ground arith)))

-- What is left of bad_layout for a model that contributes.
same_radius_and_center :
    (a b : Bool) → (not a || not b || false || false || false || false) ≡ not (a && b)
same_radius_and_center true true = refl
same_radius_and_center true false = refl
same_radius_and_center false b = refl

abbrev pub stamped_layout : ℤ → ℤ → ℤ → ContributionLayout
stamped_layout radius center code = record {
  version = pos 2;
  radius = radius;
  center = center;
  slice_layout = pos 1;
  model = code;
  profile = profile_of code;
}

bad_layout-stamped :
    (model : Model) (radius center expected_radius expected_center : ℤ)
    → model_code model ≤ 6
    → bad_layout
        (stamped_layout radius center (pos (model_code model)))
        expected_radius
        expected_center
      ≡ not (eq_ℤ radius expected_radius && eq_ℤ center expected_center)
unfolding bad_layout model_code
bad_layout-stamped model_bm3d r c er ec h = same_radius_and_center (eq_ℤ r er) (eq_ℤ c ec)
bad_layout-stamped model_wnnm r c er ec h = same_radius_and_center (eq_ℤ r er) (eq_ℤ c ec)
bad_layout-stamped model_mcwnnm r c er ec h = same_radius_and_center (eq_ℤ r er) (eq_ℤ c ec)
bad_layout-stamped model_twsc r c er ec h = same_radius_and_center (eq_ℤ r er) (eq_ℤ c ec)
bad_layout-stamped model_ncsr r c er ec h = same_radius_and_center (eq_ℤ r er) (eq_ℤ c ec)
bad_layout-stamped model_nlh r c er ec h = same_radius_and_center (eq_ℤ r er) (eq_ℤ c ec)
bad_layout-stamped model_lssc r c er ec h = absurd (omega arith)
bad_layout-stamped model_nlm r c er ec h = absurd (omega arith)

abbrev fits_int : ℤ → Bool
fits_int v = not (ltb_ℤ v (pos 0) || ltb_ℤ (pos 2147483647) v)

profile-fits : (code : ℤ) → fits_int (profile_of code) ≡ true
profile-fits code = ground arith

version-fits : (code : ℤ) → fits_int (model_semantic_version code) ≡ true
unfolding model_semantic_version model_code
version-fits code = ground arith

code-fits : (model : Model) → fits_int (pos (model_code model)) ≡ true
unfolding model_code
code-fits model = ground arith

reject_if-chosen {κ} :
    {A : Type κ} (e : Error) (value : A) (chosen same : Bool)
    → same ≡ true
    → reject_if (not chosen) e (reject_if (not same) e (ok value))
      ≡ (if chosen then ok value else err e)
unfolding reject_if
reject_if-chosen e value chosen same h = ground arith

module _ {ℓ} {M : Type ℓ} (api : PropsApi M) where
  contribution_property_lem :
      (props : M) (key ns : String) (v : ℤ)
      → fits_int v ≡ true
      → api.get_int props key ≡ some v
      → contribution_property api props key ns ≡ ok v
  unfolding contribution_property reject_if
  contribution_property_lem props key ns v small found = ground arith

  read_layout-stamped :
      (props : M) (radius center : ℤ) (model : Model) (ns : String)
      → fits_int radius ≡ true
      → fits_int center ≡ true
      → IsStamped api radius center (pos (model_code model)) props
      → read_layout api props ns ≡ ok (stamped_layout radius center (pos (model_code model)))
  unfolding read_layout chain
  read_layout-stamped props radius center model ns r c h =
      let code = pos (model_code model) in
      rw
        (
          contribution_property_lem props "_NSSFatVersion" ns (pos 2) refl h.has_version,
          contribution_property_lem props "_NSSFatRadius" ns radius r h.has_radius,
          contribution_property_lem props "_NSSFatCenter" ns center c h.has_center,
          contribution_property_lem props "_NSSFatLayout" ns (pos 1) refl h.has_layout,
          contribution_property_lem props "_NSSModel" ns code (code-fits model) h.has_model,
          contribution_property_lem props "_NSSNoiseProfile" ns (profile_of code)
              (profile-fits code) h.has_profile,
        )
        refl

  -- A contribution of BM3D, WNNM, MCWNNM, TWSC, NCSR or NLH with a positive radius, and a radius and a
  -- center that are ints from 0, is read back by validate_contribution, whether legacy frames are
  -- allowed or not: if the radius and the center are those that are asked for, it returns the version 2,
  -- the radius, the center, the layout 1, the model and its noise profile, else it rejects the frame.
  pub validate_contribution-stamp_contribution :
      (laws : PropsLaws api) (props stamped : M) (radius center : ℤ) (model : Model)
      → (expected_radius expected_center : ℤ) (allow_legacy : Bool) (ns : String)
      → ltb_ℤ (pos 0) radius ≡ true
      → fits_int radius ≡ true
      → fits_int center ≡ true
      → model_code model ≤ 6
      → stamp_contribution api props radius center model ≡ ok stamped
      → validate_contribution api stamped expected_radius expected_center allow_legacy ns ≡ (
          if eq_ℤ radius expected_radius && eq_ℤ center expected_center
          then ok (stamped_layout radius center (pos (model_code model)))
          else err (invalid_argument (ns append ".VAggregate: incompatible contribution identity")))
  unfolding validate_contribution chain
  validate_contribution-stamp_contribution laws props q radius center model er ec allow_legacy ns
        positive r c supported e =
      let h = Sound.returns (stamp-IsStamped api laws props radius center model positive) q e in
      let code = pos (model_code model) in
      let chosen = eq_ℤ radius er && eq_ℤ center ec in
      let version =
        contribution_property_lem q "_NSSModelVersion" ns (model_semantic_version code)
          (version-fits code) h.has_model_version in
      rw
        (
          h.counted,
          read_layout-stamped q radius center model ns r c h,
          bad_layout-stamped model radius center er ec supported,
          version,
        )
        (reject_if-chosen _ _ chosen _ (eq_ℤ-refl (model_semantic_version code)))
