-- ===== src/Keyword/Examples.antt =====
-- Runs of parser/src/keyword.rs, and its theorems at one input each.
use perloxide.Prelude.{◌≡◌, refl, ◌↔◌, true, some, none}
use perloxide.Pragma.Features.{contains, default_bundle, say as say_feature}
use perloxide.Keyword.Kinds.{Keyword}
use perloxide.Keyword.Rows.{row}
use perloxide.Keyword.Lookup.{get_keyword, enabled, lookup_keyword}
use perloxide.Keyword.Exact.{lookup_exact}

-- `say` is an identifier before any `use feature`.
say_off : lookup_keyword "say" default_bundle ≡ none
unfolding lookup_keyword get_keyword enabled row contains
say_off = refl

lookup_exact_example :
    (lookup_keyword "say" say_feature ≡ some Keyword.say)
    ↔ (((row Keyword.say).name ≡ "say") × (enabled (row Keyword.say).feature say_feature ≡ true))
lookup_exact_example = lookup_exact "say" say_feature Keyword.say
