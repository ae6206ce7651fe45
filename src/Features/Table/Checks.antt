-- ===== src/Features/Table/Checks.antt =====
-- What the check of features in feature_policy.py decides, whatever their order.
use Prim.Native.Nat.{Ordering}
use Prim.Native.String.{compare}
use reverso_llm.Prelude.{
  String, Bool, true, false, List, [], ◌∷◌, if◌then◌else◌, ◌≡◌, refl, arith, All, contains,
  text_key,
}
use reverso_llm.Prelude.Dict.{key_refl}
use reverso_llm.Features.Table.{
  Tables, FeatureCheck, accepted, rejected, is_unsupported, insert, sorted, check_sorted,
  check_features,
}

module _ (P : String → Type 0) where
  All-insert : (f : String) (fs : List String) → P f → All P fs → All P (insert f fs)
  unfolding insert
  All-insert f [] p ps = (p, tt)
  All-insert f (g ∷ gs) p (q, qs) = go (compare f g) (All-insert f gs p qs)
    where
      go :
          (o : Ordering)
          → All P (insert f gs)
          → All P (elim o [ Ordering.gt ↦ g ∷ insert f gs | _ ↦ f ∷ g ∷ gs ])
      go Ordering.lt rest = (p, (q, qs))
      go Ordering.eq rest = (p, (q, qs))
      go Ordering.gt rest = (q, rest)

  All-sorted : (fs : List String) → All P fs → All P (sorted fs)
  unfolding sorted
  All-sorted [] ps = tt
  All-sorted (f ∷ fs) (p, ps) = All-insert f (sorted fs) p (All-sorted fs ps)

  insert-All : (f : String) (fs : List String) → All P (insert f fs) → P f × All P fs
  unfolding insert
  insert-All f [] (p, ps) = (p, ps)
  insert-All f (g ∷ gs) h = go (compare f g) (insert-All f gs) h
    where
      go :
          (o : Ordering)
          → (All P (insert f gs) → P f × All P gs)
          → All P (elim o [ Ordering.gt ↦ g ∷ insert f gs | _ ↦ f ∷ g ∷ gs ])
          → P f × All P (g ∷ gs)
      go Ordering.lt ih h = h
      go Ordering.eq ih h = h
      go Ordering.gt ih (q, h) = ((ih h).0, (q, (ih h).1))

  sorted-All : (fs : List String) → All P (sorted fs) → All P fs
  unfolding sorted
  sorted-All [] h = tt
  sorted-All (f ∷ fs) h =
      ((insert-All f (sorted fs) h).0, sorted-All fs (insert-All f (sorted fs) h).1)

  All-map :
      {Q : String → Type 0} → ((f : String) → Q f → P f) → (fs : List String) → All Q fs → All P fs
  All-map h [] ps = tt
  All-map h (f ∷ fs) (p, ps) = (h f p, All-map h fs ps)

also : (f g : String) (fs : List String) → contains g fs ≡ true → contains g (f ∷ fs) ≡ true
unfolding contains
also f g fs h = ground arith

All-contains : (fs : List String) → All (λ (f : String). contains f fs ≡ true) fs
unfolding contains
All-contains [] = tt
All-contains (f ∷ fs) = (rw (key_refl f) refl, All-map _ (λ g. also f g fs) fs (All-contains fs))

module _ (tables : Tables) (provider : String) (features : List String) where
  -- What a check of `fs`, all of them in `features`, found.
  abbrev Found : List String → FeatureCheck → Type 0
  Found fs accepted = All (λ (f : String). is_unsupported tables provider f ≡ false) fs
  Found fs (rejected f p) =
      (p ≡ provider) × (is_unsupported tables provider f ≡ true) × (contains f features ≡ true)

  check_sorted-Found :
      (fs : List String)
      → All (λ (f : String). contains f features ≡ true) fs
      → Found fs (check_sorted tables provider fs)
  unfolding check_sorted
  check_sorted-Found [] h = tt
  check_sorted-Found (f ∷ fs) (h, hs) =
      go (is_unsupported tables provider f) refl (check_sorted-Found fs hs)
    where
      past :
          is_unsupported tables provider f ≡ false
          → (r : FeatureCheck) → Found fs r
          → Found (f ∷ fs) r
      past e accepted all = (e, all)
      past e (rejected g p) found = found

      go :
          (b : Bool)
          → is_unsupported tables provider f ≡ b
          → Found fs (check_sorted tables provider fs)
          → Found (f ∷ fs) (if b then rejected f provider else check_sorted tables provider fs)
      go true e rest = (refl, e, h)
      go false e rest = past e (check_sorted tables provider fs) rest

-- What a check of the features found.
pub Checks : Tables → String → List String → FeatureCheck → Type 0
Checks tables provider features check = Found tables provider features features check

-- A check accepts exactly if the table classifies none of the features as unsupported for the
-- provider; otherwise it names the provider and one of the features that are.
pub check_features-Checks :
    (tables : Tables) (provider : String) (features : List String)
    → Checks tables provider features (check_features tables provider features)
unfolding check_features Checks
check_features-Checks tables provider features =
    go (check_sorted tables provider (sorted features)) (
      check_sorted-Found tables provider features (sorted features)
        (All-sorted _ features (All-contains features)))
  where
    go :
        (r : FeatureCheck)
        → Found tables provider features (sorted features) r
        → Found tables provider features features r
    go accepted all = sorted-All _ features all
    go (rejected f p) found = found
