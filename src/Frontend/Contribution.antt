-- ===== src/Frontend/Contribution.antt =====
-- src/frontend/contribution.hpp, with the models of include/nss/contracts.hpp: the identity that a filter
-- stamps on the frames it leaves to be aggregated, and its check in VAggregate. The map of a frame's
-- properties is a parameter, PropsApi.
pub mod Roundtrip
use Prim.Native.String.{String, ◌++◌ as ◌append◌}
use vapoursynth_nssfactory.Base.{
  ℕ, Bool, true, false, ◌&&◌, ◌||◌, not, if◌then◌else◌, ℤ, pos, ltb_ℤ, Option, none, some, List, [],
  ◌∷◌, Result, ok, err, reject_if, chain, Error, bad_alloc, invalid_argument,
}
use vapoursynth_nssfactory.Frontend.{eq_ℤ}

pub data Model : Type 0 where
  model_bm3d : Model
  model_wnnm : Model
  model_mcwnnm : Model
  model_twsc : Model
  model_ncsr : Model
  model_nlh : Model
  model_lssc : Model
  model_nlm : Model

-- static_cast<int>(model).
unfoldable pub model_code : Model → ℕ
model_code model_bm3d = 1
model_code model_wnnm = 2
model_code model_mcwnnm = 3
model_code model_twsc = 4
model_code model_ncsr = 5
model_code model_nlh = 6
model_code model_lssc = 7
model_code model_nlm = 8

-- model_semantic_version, of the code of a model: another code has the version of the other models.
unfoldable pub model_semantic_version : ℤ → ℤ
unfolding model_code
model_semantic_version code =
    if eq_ℤ code (pos (model_code model_nlh))
    then pos 7
    else if eq_ℤ code (pos (model_code model_twsc))
    then pos 6
    else if eq_ℤ code (pos (model_code model_ncsr))
    then pos 3
    else if eq_ℤ code (pos (model_code model_lssc))
    then pos 4
    else if eq_ℤ code (pos (model_code model_bm3d))
    then pos 3
    else pos 2

-- The noise profile that goes with a model.
abbrev pub profile_of : ℤ → ℤ
profile_of code = if eq_ℤ code (pos 1) then pos 1 else pos 0

pub record ContributionLayout : Type 0 where
  pub version : ℤ
  pub radius : ℤ
  pub center : ℤ
  pub slice_layout : ℤ
  pub model : ℤ
  pub profile : ℤ

-- mapGetInt at index 0, mapNumElements, mapSetInt with maReplace (none where it fails), mapDeleteKey.
pub record PropsApi {ℓ} (M : Type ℓ) : Type ℓ where
  pub get_int : M → String → Option ℤ
  pub num_elements : M → String → ℤ
  pub set_int : M → String → ℤ → Option M
  pub delete_key : M → String → M

abbrev pub model_entries : ℤ → List (String × ℤ)
model_entries code =
    ("_NSSModel", code)
    ∷ ("_NSSModelVersion", model_semantic_version code)
    ∷ ("_NSSNoiseProfile", profile_of code)
    ∷ []

abbrev pub fat_entries : ℤ → ℤ → List (String × ℤ)
fat_entries radius center =
    ("_NSSFatVersion", pos 2)
    ∷ ("_NSSFatRadius", radius)
    ∷ ("_NSSFatCenter", center)
    ∷ ("_NSSFatLayout", pos 1)
    ∷ []

abbrev pub fat_keys : List String
fat_keys = "_NSSFatVersion" ∷ "_NSSFatRadius" ∷ "_NSSFatCenter" ∷ "_NSSFatLayout" ∷ []

abbrev legacy_keys : List String
legacy_keys =
    "_NSSFatRadius" ∷ "_NSSFatCenter" ∷ "_NSSFatLayout" ∷ "_NSSModel" ∷ "_NSSModelVersion"
    ∷ "_NSSNoiseProfile" ∷ []

-- The test of the layout that has been read.
unfoldable pub bad_layout : ContributionLayout → ℤ → ℤ → Bool
bad_layout r radius center =
    not (eq_ℤ r.version (pos 2))
    || not (eq_ℤ r.radius radius)
    || not (eq_ℤ r.center center)
    || not (eq_ℤ r.slice_layout (pos 1))
    || ltb_ℤ r.model (pos 1)
    || ltb_ℤ (pos 6) r.model
    || not (eq_ℤ r.profile (profile_of r.model))

module _ {ℓ} {M : Type ℓ} (api : PropsApi M) where
  abbrev pub stored : Option M → Result M
  stored none = err bad_alloc
  stored (some props) = ok props

  unfoldable pub contribution_set : M → String → ℤ → Result M
  contribution_set props key value = stored (api.set_int props key value)

  -- The calls of contribution_set one after the other.
  unfoldable pub set_each : List (String × ℤ) → M → Result M
  unfolding contribution_set
  set_each [] props = ok props
  set_each ((key, value) ∷ rest) props =
      chain (contribution_set props key value) (λ props. set_each rest props)

  abbrev pub delete_each : List String → M → M
  delete_each [] props = props
  delete_each (key ∷ keys) props = delete_each keys (api.delete_key props key)

  unfoldable pub stamp_contribution : M → ℤ → ℤ → Model → Result M
  unfolding model_code
  stamp_contribution props radius center model =
      chain (set_each (model_entries (pos (model_code model))) props) (λ stamped.
        if ltb_ℤ (pos 0) radius
        then set_each (fat_entries radius center) stamped
        else ok (delete_each fat_keys stamped))

  abbrev read_property : Option ℤ → ℤ
  read_property none = pos 0
  read_property (some value) = value

  abbrev property_missing : Option ℤ → Bool
  property_missing none = true
  property_missing (some value) = false

  unfoldable pub contribution_property : M → String → String → Result ℤ
  contribution_property props key ns =
      let found = api.get_int props key in
      let value = read_property found in
      reject_if (property_missing found || ltb_ℤ value (pos 0) || ltb_ℤ (pos 2147483647) value)
        (invalid_argument (ns append ".VAggregate: missing or invalid contribution identity"))
        (ok value)

  abbrev any_present : M → List String → Bool
  any_present props [] = false
  any_present props (key ∷ keys) =
      not (ltb_ℤ (api.num_elements props key) (pos 0)) || any_present props keys

  unfoldable pub read_layout : M → String → Result ContributionLayout
  read_layout props ns = chain (contribution_property props "_NSSFatVersion" ns) (λ version.
      chain (contribution_property props "_NSSFatRadius" ns) (λ radius.
        chain (contribution_property props "_NSSFatCenter" ns) (λ center.
          chain (contribution_property props "_NSSFatLayout" ns) (λ slice_layout.
            chain (contribution_property props "_NSSModel" ns) (λ model.
              chain (contribution_property props "_NSSNoiseProfile" ns) (λ profile. ok record {
                version = version;
                radius = radius;
                center = center;
                slice_layout = slice_layout;
                model = model;
                profile = profile;
              }))))))

  unfoldable pub validate_contribution : M → ℤ → ℤ → Bool → String → Result ContributionLayout
  validate_contribution props radius center allow_legacy ns =
      let incompatible =
        invalid_argument (ns append ".VAggregate: incompatible contribution identity") in
      if ltb_ℤ (api.num_elements props "_NSSFatVersion") (pos 0) && allow_legacy
      then reject_if (any_present props legacy_keys)
          (invalid_argument (ns append ".VAggregate: partial contribution identity"))
          (ok record {
            version = pos 0;
            radius = radius;
            center = center;
            slice_layout = pos 1;
            model = pos 0;
            profile = pos 0;
          })
      else chain (read_layout props ns) (λ r. reject_if (bad_layout r radius center) incompatible (
          chain (contribution_property props "_NSSModelVersion" ns) (λ version.
            reject_if (not (eq_ℤ version (model_semantic_version r.model))) incompatible (ok r))))
