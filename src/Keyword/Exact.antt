-- ===== src/Keyword/Exact.antt =====
-- The lookups of parser/src/keyword.rs against the keyword table.
use perloxide.Prelude.{
  not, ◌||◌, String, ◌≡◌, refl, sym, ap, ◌∙◌, ◌↔◌, Bool, true, false, Option, none, some, inl, inr,
  str_eq, str_eq_iff, match_arms-some, some_inj, Option-cases, Bool-cases,
}
use perloxide.Pragma.Features.{Features, contains, all_features}
use perloxide.Keyword.Kinds.{Keyword}
use perloxide.Keyword.Rows.{row}
use perloxide.Keyword.Lookup.{
  keyword_arms, get_keyword, enabled, lookup_keyword, is_quote_keyword, is_quote_keyword_str,
  is_quote,
}

get_keyword-row : (kw : Keyword) → get_keyword (row kw).name ≡ some kw
unfolding get_keyword row
get_keyword-row Keyword.dunder_file = refl
get_keyword-row _ = refl

row-get_keyword : (s : String) (kw : Keyword) → get_keyword s ≡ some kw → (row kw).name ≡ s
unfolding get_keyword row
row-get_keyword s kw =
    match_arms-some str_eq (λ k j. (str_eq_iff k j).0) (λ k v. (row v).name ≡ k) keyword_arms s kw
      (assumption (refl, tt))

lookup-row :
    (s : String) (features : Features) (kw : Keyword)
    → lookup_keyword s features ≡ some kw
    → ((row kw).name ≡ s) × (enabled (row kw).feature features ≡ true)
unfolding lookup_keyword
lookup-row s features kw e = elim (Option-cases (get_keyword s)) [
  | inl missing ↦ cc (rw (lookup_keyword, missing) at e)
  | inr (k, hit) ↦ elim (Bool-cases (enabled (row k).feature features)) [
    | inr off ↦ cc (rw (lookup_keyword, hit, off) at e)
    | inl on ↦
        let same : k ≡ kw = some_inj (rw (lookup_keyword, hit, on) at e) in
        rw (← same) (row-get_keyword s k hit, on)
  ]
]

row-lookup :
    (kw : Keyword) (features : Features)
    → enabled (row kw).feature features ≡ true
    → lookup_keyword (row kw).name features ≡ some kw
unfolding lookup_keyword
row-lookup kw features on = rw (lookup_keyword, get_keyword-row kw, on) refl

-- A word is looked up as a keyword exactly when it is that keyword's name and the keyword's feature,
-- if it asks for one, is on.
pub lookup_exact :
    (s : String) (features : Features) (kw : Keyword)
    → (lookup_keyword s features ≡ some kw)
      ↔ (((row kw).name ≡ s) × (enabled (row kw).feature features ≡ true))
lookup_exact s features kw = (
  lookup-row s features kw,
  λ (named, on). ap (λ t. lookup_keyword t features) (sym named) ∙ row-lookup kw features on,
)

ungated : Option Features → Bool
ungated none = true
ungated (some f) = false

quote_row : (kw : Keyword) → (not (is_quote_keyword kw) || ungated (row kw).feature) ≡ true
unfolding is_quote_keyword is_quote row ungated
quote_row Keyword.dunder_file = refl
quote_row _ = refl

ungated-enabled :
    (f : Option Features) (features : Features) → ungated f ≡ true → enabled f features ≡ true
unfolding ungated enabled
ungated-enabled none features h = refl
ungated-enabled (some f) features h = cc

quote-enabled :
    (kw : Keyword) (features : Features)
    → is_quote_keyword kw ≡ true
    → enabled (row kw).feature features ≡ true
quote-enabled kw features q = ungated-enabled (row kw).feature features (rw q at (quote_row kw))

-- Whatever features are on, a word counts as quote-like without regard to them exactly when it is
-- looked up as a keyword that is quote-like.
pub quote_str_exact :
    (s : String) (features : Features)
    → (is_quote_keyword_str s ≡ true)
      ↔ ((kw : Keyword) × (lookup_keyword s features ≡ some kw) × (is_quote_keyword kw ≡ true))
unfolding is_quote_keyword_str
quote_str_exact s features = (
  λ e. elim (Option-cases (get_keyword s)) [
    | inl missing ↦ cc (rw (is_quote_keyword_str, missing) at e)
    | inr (kw, hit) ↦
        let q : is_quote_keyword kw ≡ true = rw (is_quote_keyword_str, hit) at e in
        (
          kw,
          (lookup_exact s features kw).1 (row-get_keyword s kw hit, quote-enabled kw features q),
          q,
        )
  ],
  λ (kw, found, q).
      rw (is_quote_keyword_str, ← ((lookup_exact s features kw).0 found).0, get_keyword-row kw) q,
)

gate_row : (kw : Keyword) → enabled (row kw).feature all_features ≡ true
unfolding enabled row contains
gate_row Keyword.dunder_file = refl
gate_row _ = refl

-- With every feature on, each keyword's name is looked up as that keyword.
pub lookup_all : (kw : Keyword) → lookup_keyword (row kw).name all_features ≡ some kw
lookup_all kw = row-lookup kw all_features (gate_row kw)
