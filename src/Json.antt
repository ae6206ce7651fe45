-- ===== src/Json.antt =====
-- Decoded JSON, as the handlers receive it: `json.loads` yields these values and nothing else.
-- An object is a Python dict with string keys, in insertion order, and `dict.get` answers `None`,
-- here `null`, both for a missing key and for a null.
use reverso_llm.Prelude.{
  zero, String, Bool, true, false, ◌≡◌, refl, ap, List, [], ◌∷◌, arith, if◌then◌else◌, ◌==◌,
  text_key,
}
use reverso_llm.Prelude.Int.{ℤ, pos}

mutual
  pub data Json : Type 0 where
    null : Json
    bool : Bool → Json
    int : ℤ → Json
    -- a float, by its decimal mantissa and exponent
    real : ℤ → ℤ → Json
    str : String → Json
    arr : Items → Json
    obj : Fields → Json

  pub data Items : Type 0 where
    nil : Items
    cons : Json → Items → Items

  pub data Fields : Type 0 where
    end : Fields
    field : String → Json → Fields → Fields

-- d.get(k)
unfoldable pub get : String → Fields → Json
get k end = null
get k (field j v fs) = if j == k then v else get k fs

-- k in d
unfoldable pub has : String → Fields → Bool
has k end = false
has k (field j v fs) = if j == k then true else has k fs

-- d[k] = v
unfoldable pub put : String → Json → Fields → Fields
put k v end = field k v end
put k v (field j w fs) = if j == k then field j v fs else field j w (put k v fs)

-- d.pop(k, None)
unfoldable pub pop : String → Fields → Fields
pop k end = end
pop k (field j w fs) = let rest = pop k fs in if j == k then rest else field j w rest

abbrev pub elems : Items → List Json
elems nil = []
elems (cons v vs) = v ∷ elems vs

abbrev pub items : List Json → Items
items [] = nil
items (v ∷ vs) = cons v (items vs)

pub elems-items : (vs : List Json) → elems (items vs) ≡ vs
elems-items [] = refl
elems-items (v ∷ vs) = ap (λ rest. v ∷ rest) (elems-items vs)

-- d.get(k) on a value that is a dict, and None on any other: `x.get(k) if isinstance(x, dict)`
abbrev pub field_of : String → Json → Json
field_of k (obj fs) = get k fs
field_of k _ = null

-- isinstance(v, dict)
abbrev pub is_dict : Json → Bool
is_dict (obj _) = true
is_dict _ = false

-- v is not None
abbrev pub is_some : Json → Bool
is_some null = false
is_some _ = true

-- v == s, for a literal text s
abbrev pub is_text : String → Json → Bool
is_text s (str t) = t == s
is_text s _ = false

-- bool(v)
abbrev pub truthy : Json → Bool
truthy null = false
truthy (bool b) = b
truthy (int (pos zero)) = false
truthy (int _) = true
truthy (real (pos zero) _) = false
truthy (real _ _) = true
truthy (str s) = if s == "" then false else true
truthy (arr nil) = false
truthy (arr _) = true
truthy (obj end) = false
truthy (obj _) = true

-- `v or ""`
unfoldable pub or_empty : Json → Json
or_empty v = if truthy v then v else str ""

pub or_empty-str : (s : String) → or_empty (str s) ≡ str s
unfolding or_empty
or_empty-str s = ground (arith, text_key.same_iff s "")

pub get-put :
    (k j : String) (v : Json) (fs : Fields) → get j (put k v fs) ≡ (if k == j then v else get j fs)
unfolding get put
get-put k j v end = refl
get-put k j v (field i w fs) =
    ground
      (arith, text_key.same_iff i k, text_key.same_iff i j, text_key.same_iff k j, get-put k j v fs)

pub get-pop : (k j : String) (fs : Fields) → get j (pop k fs) ≡ (if k == j then null else get j fs)
unfolding get pop
get-pop k j end = ground arith
get-pop k j (field i w fs) =
    ground
      (arith, text_key.same_iff i k, text_key.same_iff i j, text_key.same_iff k j, get-pop k j fs)
