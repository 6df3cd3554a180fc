-- ===== src/Examples/Contributions.antt =====
-- A frame's properties as an association list, and a contribution of BM3D in it.
use Prim.Native.String.{String}
use vapoursynth_nssfactory.Base.{
  true, if◌then◌else◌, ℤ, pos, negsuc, Option, none, some, List, [], ◌∷◌, ok, chain, ◌≡◌, refl,
  arith,
}
use vapoursynth_nssfactory.Frontend.{str_eq}
use vapoursynth_nssfactory.Frontend.Contribution.{
  PropsApi, model_bm3d, model_code, model_semantic_version, stamp_contribution, set_each,
  contribution_set, validate_contribution,
}
use vapoursynth_nssfactory.Frontend.Contribution.Roundtrip.{
  PropsLaws, stamped_layout, validate_contribution-stamp_contribution,
}

abbrev Props : Type 0
Props = List (String × ℤ)

abbrev find_property : Props → String → Option ℤ
find_property [] key = none
find_property ((name, value) ∷ rest) key =
    let later = find_property rest key in if str_eq name key then some value else later

abbrev count_property : Props → String → ℤ
count_property [] key = negsuc 0
count_property ((name, value) ∷ rest) key =
    let later = count_property rest key in if str_eq name key then pos 1 else later

abbrev drop_property : Props → String → Props
drop_property [] key = []
drop_property ((name, value) ∷ rest) key =
    let later = drop_property rest key in if str_eq name key then later else (name, value) ∷ later

abbrev list_props : PropsApi Props
list_props = record {
  get_int = find_property;
  num_elements = count_property;
  set_int = λ props key value. some ((key, value) ∷ props);
  delete_key = drop_property;
}

list_laws : PropsLaws list_props
list_laws = record {
  read_back = λ p q key value e other. ground arith;
  count_back = λ p q key value e other. ground arith;
}

-- The properties after stamp_contribution with radius 2 and center 7.
abbrev stamped_props : Props
stamped_props =
    ("_NSSFatLayout", pos 1)
    ∷ ("_NSSFatCenter", pos 7)
    ∷ ("_NSSFatRadius", pos 2)
    ∷ ("_NSSFatVersion", pos 2)
    ∷ ("_NSSNoiseProfile", pos 1)
    ∷ ("_NSSModelVersion", pos 3)
    ∷ ("_NSSModel", pos 1)
    ∷ ("_Matrix", pos 6)
    ∷ []

stamped_bm3d :
    stamp_contribution list_props (("_Matrix", pos 6) ∷ []) (pos 2) (pos 7) model_bm3d
    ≡ ok stamped_props
unfolding stamp_contribution set_each contribution_set model_code model_semantic_version chain
stamped_bm3d = refl

validate_contribution-stamp_contribution_example :
    validate_contribution list_props stamped_props (pos 2) (pos 7) true "nss"
    ≡ ok (stamped_layout (pos 2) (pos 7) (pos 1))
unfolding model_code
validate_contribution-stamp_contribution_example =
    validate_contribution-stamp_contribution list_props list_laws (("_Matrix", pos 6) ∷ [])
      stamped_props (pos 2) (pos 7) model_bm3d (pos 2) (pos 7) true "nss" refl refl refl
      (omega arith) stamped_bm3d
