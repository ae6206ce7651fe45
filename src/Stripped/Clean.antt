-- ===== src/Stripped/Clean.antt =====
-- What is left of a stripped payload: no list holds a reasoning item.
use mathlib.Core.Path.{subst}
use reverso_llm.Prelude.{
  String, false, ◌&&◌, ◌||◌, Option, none, some, ◌≡◌, refl, sym, ◌∙◌, ◌==◌, text_key, Bool-cases,
  inl, inr,
}
use reverso_llm.Json.{
  Json, null, bool, int, real, str, arr, obj, Items, nil, cons, Fields, end, field, get, put,
  is_text, get-put,
}
use reverso_llm.Stripped.{
  is_reasoning, is_visible, blanked, collapse, collapse_leading_output_text_reasoning, is_list,
  strip_named, strip_child, strip_text_fields, strip_items, strip_fields,
}

mutual
  -- At no depth does a list hold a reasoning item.
  pub IsFree : Json → Type 0
  IsFree (arr vs) = AreFree vs
  IsFree (obj fs) = HoldFree fs
  IsFree null = Unit
  IsFree (bool b) = Unit
  IsFree (int n) = Unit
  IsFree (real m e) = Unit
  IsFree (str s) = Unit

  pub AreFree : Items → Type 0
  AreFree nil = Unit
  AreFree (cons v vs) = (is_reasoning v ≡ false) × IsFree v × AreFree vs

  pub HoldFree : Fields → Type 0
  HoldFree end = Unit
  HoldFree (field k v fs) = IsFree v × HoldFree fs

HoldFree-put : (k s : String) (fs : Fields) → HoldFree fs → HoldFree (put k (str s) fs)
unfolding put HoldFree IsFree
HoldFree-put k s end h = (tt, tt)
HoldFree-put k s (field j v fs) (f, h) = elim (Bool-cases (j == k)) [
  | inl e ↦ rw (e, HoldFree) (tt, h)
  | inr e ↦ rw (e, HoldFree) (f, HoldFree-put k s fs h)
]

blanked-IsFree : (v : Json) → IsFree v → IsFree (blanked v)
unfolding IsFree
blanked-IsFree (obj fs) h = HoldFree-put "text" "" fs h
blanked-IsFree (arr vs) h = h
blanked-IsFree null h = h
blanked-IsFree (bool b) h = h
blanked-IsFree (int n) h = h
blanked-IsFree (real m e) h = h
blanked-IsFree (str s) h = h

is_reasoning-blanked : (v : Json) → is_reasoning (blanked v) ≡ is_reasoning v
unfolding is_reasoning
is_reasoning-blanked (obj fs) = rw (get-put "text" "type" (str "") fs) refl
is_reasoning-blanked (arr vs) = refl
is_reasoning-blanked null = refl
is_reasoning-blanked (bool b) = refl
is_reasoning-blanked (int n) = refl
is_reasoning-blanked (real m e) = refl
is_reasoning-blanked (str s) = refl

AreFree-collapse :
    (strip : String → String) (vs : Items) → AreFree vs → AreFree (collapse strip vs).0
unfolding collapse AreFree
AreFree-collapse strip nil h = tt
AreFree-collapse strip (cons v vs) (r, f, h) = elim (Bool-cases (is_visible strip v)) [
  | inr e ↦ rw (e, AreFree) (r, f, AreFree-collapse strip vs h)
  | inl e ↦ elim (Bool-cases (collapse strip vs).1) [
    | inr d ↦ rw (e, d, AreFree) (r, f, AreFree-collapse strip vs h)
    | inl d ↦
        rw (e, d, AreFree)
          (is_reasoning-blanked v ∙ r, blanked-IsFree v f, AreFree-collapse strip vs h)
  ]
]

module _ {S : Type 0} (fresh : S) (strip_delta : String → S → String × S)
    (strip_think_blocks strip : String → String) where
  abbrev stripped : Json → Option S → Json
  stripped v o = (strip_text_fields fresh strip_delta strip_think_blocks strip v o).0

  abbrev child : String → Json → Option S → Json
  child k v o =
      (strip_child fresh strip_delta strip_think_blocks strip k v o
        (strip_text_fields fresh strip_delta strip_think_blocks strip v o)).0

  collapsed-IsFree : (w : Json) → IsFree w → IsFree (collapse_leading_output_text_reasoning strip w)
  unfolding IsFree
  collapsed-IsFree (arr vs) h = AreFree-collapse strip vs h
  collapsed-IsFree (obj fs) h = h
  collapsed-IsFree null h = h
  collapsed-IsFree (bool b) h = h
  collapsed-IsFree (int n) h = h
  collapsed-IsFree (real m e) h = h
  collapsed-IsFree (str s) h = h

  named-IsFree :
      (v : Json) (o : Option S) (p : Json × Option S)
      → IsFree p.0
      → IsFree (strip_named fresh strip_delta strip_think_blocks strip v o p).0
  unfolding IsFree
  named-IsFree (str s) none p h = tt
  named-IsFree (str s) (some stripper) p h = tt
  named-IsFree (arr vs) o p h = h
  named-IsFree (obj fs) o p h = h
  named-IsFree null o p h = h
  named-IsFree (bool b) o p h = h
  named-IsFree (int n) o p h = h
  named-IsFree (real m e) o p h = h

  child-IsFree :
      (k : String) (v : Json) (o : Option S) → IsFree (stripped v o) → IsFree (child k v o)
  unfolding strip_child
  child-IsFree k v o h = elim (Bool-cases (k == "content" && is_list v)) [
    | inl e ↦ rw (e, child) (collapsed-IsFree (stripped v o) h)
    | inr e ↦ elim (Bool-cases (k == "text" || k == "delta")) [
      | inl d ↦
          rw (e, d, child)
            (named-IsFree v o (strip_text_fields fresh strip_delta strip_think_blocks strip v o) h)
      | inr d ↦ rw (e, d, child) h
    ]
  ]

  -- A text under `type` stays, and no other value becomes one.
  is_text-child :
      (v : Json) (o : Option S) → is_text "reasoning" (child "type" v o) ≡ is_text "reasoning" v
  unfolding strip_child strip_text_fields
  is_text-child (arr vs) none = refl
  is_text-child (arr vs) (some stripper) = refl
  is_text-child (obj fs) o = refl
  is_text-child null o = refl
  is_text-child (bool b) o = refl
  is_text-child (int n) o = refl
  is_text-child (real m e) o = refl
  is_text-child (str s) o = refl

  is_text-strip_fields :
      (fs : Fields) (o : Option S)
      → is_text "reasoning"
          (get "type" (strip_fields fresh strip_delta strip_think_blocks strip fs o).0)
        ≡ is_text "reasoning" (get "type" fs)
  unfolding strip_text_fields get
  is_text-strip_fields end o = refl
  is_text-strip_fields (field k v fs) o = elim (Bool-cases (k == "type")) [
    | inl e ↦ rw e (
        subst (λ j. is_text "reasoning" (child j v o) ≡ is_text "reasoning" v)
          (sym ((text_key.same_iff k "type").0 e)) (is_text-child v o))
    | inr e ↦ rw e (is_text-strip_fields fs _)
  ]

  is_reasoning-stripped : (v : Json) (o : Option S) → is_reasoning (stripped v o) ≡ is_reasoning v
  unfolding is_reasoning strip_text_fields
  is_reasoning-stripped (arr vs) none = refl
  is_reasoning-stripped (arr vs) (some stripper) = refl
  is_reasoning-stripped (obj fs) o = is_text-strip_fields fs o
  is_reasoning-stripped null o = refl
  is_reasoning-stripped (bool b) o = refl
  is_reasoning-stripped (int n) o = refl
  is_reasoning-stripped (real m e) o = refl
  is_reasoning-stripped (str s) o = refl

  mutual
    unfolding strip_text_fields IsFree

    strip_text_fields-IsFree : (v : Json) (o : Option S) → IsFree (stripped v o)
    strip_text_fields-IsFree (arr vs) none = AreFree-strip_items vs fresh
    strip_text_fields-IsFree (arr vs) (some stripper) = AreFree-strip_items vs stripper
    strip_text_fields-IsFree (obj fs) o = HoldFree-strip_fields fs o
    strip_text_fields-IsFree null o = tt
    strip_text_fields-IsFree (bool b) o = tt
    strip_text_fields-IsFree (int n) o = tt
    strip_text_fields-IsFree (real m e) o = tt
    strip_text_fields-IsFree (str s) o = tt

    AreFree-strip_items :
        (vs : Items) (stripper : S)
        → AreFree (strip_items fresh strip_delta strip_think_blocks strip vs stripper).0
    AreFree-strip_items nil stripper = tt
    AreFree-strip_items (cons v vs) stripper = elim (Bool-cases (is_reasoning v)) [
      | inl e ↦ rw (e, AreFree) (AreFree-strip_items vs _)
      | inr e ↦
          rw (e, AreFree)
            (
              is_reasoning-stripped v (some stripper) ∙ e,
              strip_text_fields-IsFree v (some stripper),
              AreFree-strip_items vs _,
            )
    ]

    HoldFree-strip_fields :
        (fs : Fields) (o : Option S)
        → HoldFree (strip_fields fresh strip_delta strip_think_blocks strip fs o).0
    HoldFree-strip_fields end o = tt
    HoldFree-strip_fields (field k v fs) o =
        (child-IsFree k v o (strip_text_fields-IsFree v o), HoldFree-strip_fields fs _)

  -- Whatever the strippers make of its texts, a stripped payload has no reasoning item in a list, at any
  -- depth, and it is a reasoning item exactly if it was one.
  pub IsFree-strip_text_fields :
      (v : Json) (o : Option S)
      → IsFree (strip_text_fields fresh strip_delta strip_think_blocks strip v o).0
        × (is_reasoning (strip_text_fields fresh strip_delta strip_think_blocks strip v o).0
            ≡ is_reasoning v)
  IsFree-strip_text_fields v o = (strip_text_fields-IsFree v o, is_reasoning-stripped v o)
