-- ===== src/Pragma/Examples.antt =====
-- Runs of parser/src/pragma.rs, and its theorems at one input each.
use perloxide.Prelude.{◌≡◌, refl, arith, same_bytes, ◌++◌, ◌∷◌, some, codes}
use perloxide.Pragma.Features.{say}
use perloxide.Pragma.Bundles.{version_bundle}
use perloxide.Pragma.Members.{Lists, effective, bundle-Lists}
use perloxide.Pragma.Names.{resolve_feature_name}
use perloxide.Pragma.Alias.{decimal, alias_version}

bundle-Lists_example : Lists (version_bundle 5 37) (effective 5 37)
bundle-Lists_example = bundle-Lists 5 37

alias_version_example :
    (resolve_feature_name (b':' ∷ decimal 5 ++ b'.' ∷ decimal 36) ≡ some (version_bundle 5 36))
    × (resolve_feature_name (b':' ∷ decimal 5 ++ b'.' ∷ (decimal 36 ++ b'.' ∷ codes "1"))
        ≡ some (version_bundle 5 36))
alias_version_example = alias_version 5 36 (codes "1") (omega arith) (omega arith)

say_name : resolve_feature_name (codes "say") ≡ some say
unfolding resolve_feature_name same_bytes
say_name = refl
