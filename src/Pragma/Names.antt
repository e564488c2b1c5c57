-- ===== src/Pragma/Names.antt =====
-- Names of features and of bundles, as `use feature` writes them: `resolve_feature_name` and
-- `resolve_bundle_alias` of parser/src/pragma.rs.
use perloxide.Prelude.{
  ℕ, ◌+◌, ◌-◌, ◌*◌, ◌^◌, ◌&&◌, Option, none, some, List, [], ◌∷◌, ◌==◌, ltb, leb, if◌then◌else◌,
  codes, same_bytes, match_arms,
}
use perloxide.Pragma.Features.{
  Features, default_bundle, all_features, say, state, switch, smartmatch, evalbytes, current_sub,
  fc, postderef, postderef_qq, signatures, refaliasing, declared_refs, isa, try, defer, class,
  extra_paired_delimiters, bareword_filehandles, indirect, apostrophe_as_package_separator,
  multidimensional, unicode_strings, unicode_eval, bitwise, module_true, lexical_subs, keyword_any,
  keyword_all,
}
use perloxide.Pragma.Bundles.{version_bundle}

-- The digits of `u32::from_str`, from the left; a value past 32 bits is an error.
unfoldable pub digits_value : List ℕ → ℕ → Option ℕ
digits_value [] acc = some acc
digits_value (c ∷ cs) acc =
    let value = acc * 10 + (c - b'0') in
    let rest = digits_value cs value in
    if leb b'0' c && leb c b'9' && ltb value (2 ^ 32) then rest else none

-- `parse::<u32>`: no empty text, one `+` at most, and digits.
unfoldable pub parse_u32 : List ℕ → Option ℕ
parse_u32 [] = none
parse_u32 (c ∷ []) = digits_value (c ∷ []) 0
parse_u32 (c ∷ d ∷ cs) = if c == b'+' then digits_value (d ∷ cs) 0 else digits_value (c ∷ d ∷ cs) 0

-- `split('.')`: the component before the first dot, and what follows that dot.
unfoldable pub next_component : List ℕ → List ℕ × Option (List ℕ)
next_component [] = ([], none)
next_component (c ∷ cs) =
    let (here, rest) = next_component cs in if c == b'.' then ([], some cs) else (c ∷ here, rest)

-- The version part of an alias: a third component is ignored.
unfoldable pub version_alias : List ℕ → Option Features
version_alias tail =
    let (first, rest) = next_component tail in
    elim (parse_u32 first) [
      | none ↦ none
      | some major ↦ elim rest [
        | none ↦ none
        | some more ↦ elim (parse_u32 (next_component more).0) [
          | none ↦ none
          | some minor ↦ some (version_bundle major minor)
        ]
      ]
    ]

unfoldable pub resolve_bundle_alias : List ℕ → Option Features
resolve_bundle_alias tail =
    if same_bytes tail (codes "all")
    then some all_features
    else if same_bytes tail (codes "default")
    then some default_bundle
    else version_alias tail

abbrev pub feature_arms : List (List ℕ × Features)
feature_arms =
    (codes "say", say)
    ∷ (codes "state", state)
    ∷ (codes "switch", switch)
    ∷ (codes "smartmatch", smartmatch)
    ∷ (codes "evalbytes", evalbytes)
    ∷ (codes "current_sub", current_sub)
    ∷ (codes "fc", fc)
    ∷ (codes "postderef", postderef)
    ∷ (codes "postderef_qq", postderef_qq)
    ∷ (codes "signatures", signatures)
    ∷ (codes "refaliasing", refaliasing)
    ∷ (codes "declared_refs", declared_refs)
    ∷ (codes "isa", isa)
    ∷ (codes "try", try)
    ∷ (codes "defer", defer)
    ∷ (codes "class", class)
    ∷ (codes "extra_paired_delimiters", extra_paired_delimiters)
    ∷ (codes "bareword_filehandles", bareword_filehandles)
    ∷ (codes "indirect", indirect)
    ∷ (codes "apostrophe_as_package_separator", apostrophe_as_package_separator)
    ∷ (codes "multidimensional", multidimensional)
    ∷ (codes "unicode_strings", unicode_strings)
    ∷ (codes "unicode_eval", unicode_eval)
    ∷ (codes "bitwise", bitwise)
    ∷ (codes "module_true", module_true)
    ∷ (codes "lexical_subs", lexical_subs)
    ∷ (codes "keyword_any", keyword_any)
    ∷ (codes "keyword_all", keyword_all)
    ∷ (codes "any", keyword_any)
    ∷ (codes "all", keyword_all)
    ∷ []

unfoldable pub resolve_feature_name : List ℕ → Option Features
resolve_feature_name [] = match_arms same_bytes feature_arms []
resolve_feature_name (c ∷ cs) =
    let individual = match_arms same_bytes feature_arms (c ∷ cs) in
    if c == b':' then resolve_bundle_alias cs else individual
