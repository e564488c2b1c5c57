-- ===== src/Pragma/Bundles.antt =====
-- The version bundles of parser/src/pragma.rs, each built from the one before.
use perloxide.Prelude.{ℕ, ◌-◌, ◌%◌, ◌&&◌, ◌||◌, not, ◌==◌, ltb, leb, if◌then◌else◌}
use perloxide.Pragma.Features.{
  Features, ◌or◌, remove, Pragmas, default_bundle, say, state, switch, smartmatch, evalbytes,
  current_sub, fc, postderef_qq, signatures, isa, try, bareword_filehandles, indirect,
  apostrophe_as_package_separator, multidimensional, unicode_strings, unicode_eval, bitwise,
  module_true,
}

unfoldable pub bundle_5_10_through_14 : ℕ → Features
bundle_5_10_through_14 minor =
    let b =
      apostrophe_as_package_separator or bareword_filehandles or indirect or multidimensional or say
      or smartmatch or state or switch in
    if leb 12 minor then b or unicode_strings else b

unfoldable pub bundle_5_16_through_22 : Features
unfolding bundle_5_10_through_14
bundle_5_16_through_22 = bundle_5_10_through_14 14 or current_sub or evalbytes or fc or unicode_eval

unfoldable pub bundle_5_24_through_26 : Features
bundle_5_24_through_26 = bundle_5_16_through_22 or postderef_qq

unfoldable pub bundle_5_28_through_34 : Features
bundle_5_28_through_34 = bundle_5_24_through_26 or bitwise

unfoldable pub bundle_5_36 : Features
unfolding remove
bundle_5_36 =
    remove (remove (remove bundle_5_28_through_34 indirect) multidimensional) switch
    or isa
    or signatures

unfoldable pub bundle_5_38 : Features
unfolding remove
bundle_5_38 = remove bundle_5_36 bareword_filehandles or module_true

unfoldable pub bundle_5_40 : Features
bundle_5_40 = bundle_5_38 or try

unfoldable pub bundle_5_42 : Features
unfolding remove
bundle_5_42 = remove (remove bundle_5_40 apostrophe_as_package_separator) smartmatch

-- The `match` of `version_bundle`, on an even minor.
unfoldable pub even_bundle : ℕ → Features
even_bundle minor =
    if minor == 10 || minor == 12 || minor == 14
    then bundle_5_10_through_14 minor
    else if minor == 16 || minor == 18 || minor == 20 || minor == 22
    then bundle_5_16_through_22
    else if minor == 24 || minor == 26
    then bundle_5_24_through_26
    else if minor == 28 || minor == 30 || minor == 32 || minor == 34
    then bundle_5_28_through_34
    else if minor == 36
    then bundle_5_36
    else if minor == 38
    then bundle_5_38
    else if minor == 40
    then bundle_5_40
    else if minor == 42
    then bundle_5_42
    else if ltb 42 minor
    then bundle_5_42
    else default_bundle

unfoldable pub version_bundle : ℕ → ℕ → Features
version_bundle major minor =
    if ltb major 5 || (major == 5 && ltb minor 10)
    then default_bundle
    else if not (major == 5)
    then bundle_5_42
    else even_bundle (if minor % 2 == 1 then minor - 1 else minor)

-- `Features::apply_version_bundle`, on the parser's pragmas.
unfoldable pub apply_version_bundle : Pragmas → ℕ → ℕ → Pragmas
apply_version_bundle p major minor = record p { features = version_bundle major minor }
