-- ===== src/Features/Table.antt =====
-- reverso/protocols/feature_policy.py: the test of a request's features against the capability table.
-- The table, read from the packaged responses_parity_surface.json, is an argument.
pub mod Checks
use Prim.Native.Nat.{Ordering}
use Prim.Native.String.{compare}
use reverso_llm.Prelude.{
  String, Bool, false, Option, none, some, List, [], ◌∷◌, if◌then◌else◌, ◌==◌, text_key,
}
use reverso_llm.Prelude.Dict
use reverso_llm.Prelude.Dict.{Dict}

abbrev pub Tables : Type 0
Tables = Dict String (Dict String String)

-- `CAPABILITY_TABLES.get(provider, {}).get(feature) == UNSUPPORTED`
classified : Option String → Bool
classified none = false
classified (some c) = c == "unsupported"

in_table : Option (Dict String String) → String → Bool
unfolding classified
in_table none feature = false
in_table (some table) feature = classified (Dict.get feature table)

unfoldable pub is_unsupported : Tables → String → String → Bool
unfolding in_table
is_unsupported tables provider feature = in_table (Dict.get provider tables) feature

-- Whether a check passes, or what the exception that it raises names.
pub data FeatureCheck : Type 0 where
  accepted : FeatureCheck
  rejected : String → String → FeatureCheck

-- `sorted(...)`: texts in the order of their characters.
unfoldable pub insert : String → List String → List String
insert f [] = f ∷ []
insert f (g ∷ gs) = elim (compare f g) [ Ordering.gt ↦ g ∷ insert f gs | _ ↦ f ∷ g ∷ gs ]

unfoldable pub sorted : List String → List String
unfolding insert
sorted [] = []
sorted (f ∷ fs) = insert f (sorted fs)

-- The loop over the sorted features.
unfoldable pub check_sorted : Tables → String → List String → FeatureCheck
check_sorted tables provider [] = accepted
check_sorted tables provider (f ∷ fs) =
    if is_unsupported tables provider f
    then rejected f provider
    else check_sorted tables provider fs

unfoldable pub check_features : Tables → String → List String → FeatureCheck
unfolding sorted
check_features tables provider features = check_sorted tables provider (sorted features)
