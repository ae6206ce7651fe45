-- ===== src/OpenRouter/Identity/Names.antt =====
-- The presented ids that have an upstream model.
use Prim.Native.Char.{Char, code}
use Prim.Native.String
use Prim.Native.String.{String}
use mathlib.Core.Path.{subst}
use text.Mathlib.TextEquality.{Char-path}
use text.Mathlib.TextLemmas.{nil-append, cons-append, append-eq-nil_iff}
use reverso_llm.Prelude.{
  ℕ, suc, ◌+◌, true, false, Option, some, ◌==◌, text_key, nat_eq, ◌≤◌, ◌≡◌, ◌≢◌, ◌↔◌, refl, sym, ap,
  ◌∙◌, arith, Bool-cases, Option-cases, inl, inr,
}
use reverso_llm.Outcome.{ok}
use reverso_llm.OpenRouter.Identity.{
  after_prefix, slashes, has_double_slash, starts_with_slash, split_slash, outer_prefix,
  upstream_of, upstream_model,
}

after_prefix-append : (p s : String) → after_prefix p (String.◌++◌ p s) ≡ some s
unfolding after_prefix
after_prefix-append String.[] s = rw nil-append
after_prefix-append (String.◌∷◌ c p) s = rw cons-append (ground (arith, after_prefix-append p s))

head_eq : (c d : Char) → nat_eq (code c) (code d) ≡ true → d ≡ c
head_eq c d h = Char-path d c (ground arith)

some_inj : (r s : String) → ◌≡◌ {A = Option String} (some r) (some s) → r ≡ s
some_inj r s e = cc

eq-append_of_after_prefix : (p s r : String) → after_prefix p s ≡ some r → s ≡ String.◌++◌ p r
unfolding after_prefix
eq-append_of_after_prefix String.[] s r e = rw nil-append (some_inj s r e)
eq-append_of_after_prefix (String.◌∷◌ c p) String.[] r e = absurd (ground arith)
eq-append_of_after_prefix (String.◌∷◌ c p) (String.◌∷◌ d s) r e =
    elim (Bool-cases (nat_eq (code c) (code d))) [
      | inl same ↦
          ap (λ x. String.◌∷◌ x s) (head_eq c d same)
          ∙ ap (λ t. String.◌∷◌ c t) (eq-append_of_after_prefix p s r (ground arith))
          ∙ sym (cons-append c p r)
      | inr other ↦ absurd (ground arith)
    ]

abbrev joined : String → String → String
joined author model = String.◌++◌ author (String.◌++◌ "/" model)

-- A slash, as the character whose code the tests look for.
slash-append : (m : String) → String.◌++◌ "/" m ≡ String.◌∷◌ "/" m
slash-append m = rw (cons-append, nil-append)

slash_eq : (c : Char) → nat_eq (code c) b'/' ≡ true → c ≡ "/"
slash_eq c h = Char-path c "/" (ground arith)

slashes-joined : (a m : String) → slashes (joined a m) ≡ slashes a + suc (slashes m)
unfolding slashes
slashes-joined String.[] m = rw (nil-append, slash-append) (omega arith)
slashes-joined (String.◌∷◌ c a) m = rw cons-append (ground (arith, slashes-joined a m))

split_slash-joined : (a m : String) → slashes a ≡ 0 → split_slash (joined a m) ≡ (a, m)
unfolding slashes split_slash
split_slash-joined String.[] m h = rw (nil-append, slash-append)
split_slash-joined (String.◌∷◌ c a) m h = rw cons-append (ground (arith, split_slash-joined a m))

-- A text with a slash is its two parts, and the first has none.
joined-split_slash :
    (s : String) (n : ℕ)
    → slashes s ≡ suc n
    → (s ≡ joined (split_slash s).0 (split_slash s).1)
      × (slashes (split_slash s).0 ≡ 0)
      × (slashes (split_slash s).1 ≡ n)
unfolding slashes split_slash
joined-split_slash String.[] n h = absurd (omega arith)
joined-split_slash (String.◌∷◌ c s) n h = elim (Bool-cases (nat_eq (code c) b'/')) [
  | inl e ↦ rw e (rw (nil-append, slash-append, slash_eq c e) refl, refl, ground arith)
  | inr e ↦
      let (whole, none_first, rest) = joined-split_slash s n (ground arith) in
      rw e (rw cons-append (ap (λ t. String.◌∷◌ c t) whole), rw e none_first, rest)
]

no_slash_starts : (s : String) → slashes s ≡ 0 → starts_with_slash s ≡ false
unfolding slashes starts_with_slash
no_slash_starts String.[] h = refl
no_slash_starts (String.◌∷◌ c s) h = ground arith

no_double_slash : (s : String) → slashes s ≤ 1 → has_double_slash s ≡ false
unfolding slashes has_double_slash
no_double_slash String.[] h = refl
no_double_slash (String.◌∷◌ c s) h = ground (arith, no_slash_starts s, no_double_slash s)

-- `openrouter/<author>/<model>`, both parts non-empty and without a slash.
pub record IsPresented (presented remainder : String) : Type 0 where
  pub author : String
  pub model : String
  pub upstream : remainder ≡ joined author model
  pub prefixed : presented ≡ String.◌++◌ outer_prefix remainder
  pub has_author : author ≢ ""
  pub has_model : model ≢ ""
  pub plain_author : slashes author ≡ 0
  pub plain_model : slashes model ≡ 0

upstream_of-joined :
    (a m : String)
    → a ≢ ""
    → m ≢ ""
    → slashes a ≡ 0
    → slashes m ≡ 0
    → upstream_of (joined a m) ≡ ok (joined a m)
unfolding upstream_of
upstream_of-joined a m ha hm pa pm =
    let one : slashes (joined a m) ≡ 1 = omega (arith, slashes-joined a m) in
    rw (one, no_double_slash (joined a m) (omega arith), split_slash-joined a m pa)
      (ground (arith, text_key.same_iff a "", text_key.same_iff m ""))

upstream_of_inversion :
    (s r : String)
    → upstream_of s ≡ ok r
    → (s ≡ r) × (slashes s ≡ 1) × ((split_slash s).0 ≢ "") × ((split_slash s).1 ≢ "")
unfolding upstream_of
upstream_of_inversion s r e =
    ground (arith, text_key.same_iff (split_slash s).0 "", text_key.same_iff (split_slash s).1 "")

nonempty_test : (s : String) → s ≢ "" → (s == "") ≡ false
nonempty_test s h = ground (arith, text_key.same_iff s "")

prefix_ne_nil : (s : String) → String.◌++◌ outer_prefix s ≢ ""
prefix_ne_nil s e = cc ((text_key.same_iff outer_prefix "").1 (append-eq-nil_iff.0 e).0)

IsPresented-upstream_model : (p r : String) → upstream_model p ≡ ok r → IsPresented p r
unfolding upstream_model
IsPresented-upstream_model p r e = elim (Option-cases (after_prefix outer_prefix p)) [
  | inl missing ↦ absurd (ground arith)
  | inr (s, found) ↦
      let (same, one, author, model) = upstream_of_inversion s r (ground arith) in
      let (whole, plain_author, plain_model) = joined-split_slash s 0 one in
      record {
        author = (split_slash s).0;
        model = (split_slash s).1;
        upstream = sym same ∙ whole;
        prefixed =
            eq-append_of_after_prefix outer_prefix p s found
            ∙ ap (λ t. String.◌++◌ outer_prefix t) same;
        has_author = author;
        has_model = model;
        plain_author = plain_author;
        plain_model = plain_model;
      }
]

presented_model_complete : (p r : String) → IsPresented p r → upstream_model p ≡ ok r
unfolding upstream_model
presented_model_complete p r h =
    let found : after_prefix outer_prefix p ≡ some r =
      ap (after_prefix outer_prefix) h.prefixed ∙ after_prefix-append outer_prefix r in
    let nonempty : p ≢ "" = λ e. prefix_ne_nil r (sym h.prefixed ∙ e) in
    let inner : upstream_of r ≡ ok r =
      subst (λ t. upstream_of t ≡ ok t) (sym h.upstream)
        (upstream_of-joined h.author h.model h.has_author h.has_model h.plain_author
          h.plain_model) in
    rw (nonempty_test p nonempty, found) inner

-- A presented model has an upstream model exactly if it is `openrouter/<author>/<model>` with both
-- parts non-empty and free of slashes, and then the upstream model is `<author>/<model>`, byte for byte.
pub upstream_model_iff : (p r : String) → (upstream_model p ≡ ok r) ↔ IsPresented p r
upstream_model_iff p r = (IsPresented-upstream_model p r, presented_model_complete p r)
