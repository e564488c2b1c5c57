-- ===== src/Warnings/Tree.antt =====
-- The category tree of core/src/warnings.rs: each category's parent, the walk to the root, and the
-- set that perl enables with no pragma.
use perloxide.Prelude.{Bool, true, false, ℕ, zero, suc, Option, none, some, if◌then◌else◌}
use perloxide.Warnings.Category.{
  WarningCategory, same_category, all, closure, deprecated, exiting, glob, io, closed, exec, layer,
  newline, pipe, unopened, misc, numeric, once, overflow, pack, portable, recursion, redefine,
  regexp, severe, debugging, inplace, internal, malloc, signal, substr, syntax, ambiguous, bareword,
  digit, parenthesis, precedence, printf, prototype, qw, reserved, semicolon, taint, threads,
  uninitialized, unpack, untie, utf8, void, imprecision, illegalproto, unicode_property_name,
  non_unicode, nonchar, surrogate, experimental, regex_sets, syscalls, regex_strict, refaliasing,
  locale, missing, redundant, declared_refs, dot_in_inc, shadow, private_use, uniprop_wildcards,
  variable_length_lookbehind, try, args_array_with_signatures, builtin, defer,
  extra_paired_delimiters, scalar, version_downgrade, delimiter_will_be_paired, class,
  subsequent_use_version, keyword_all, keyword_any, enhanced_xx, signature_named_parameters,
  missing_import,
}

unfoldable pub parent : WarningCategory → Option WarningCategory
parent all = none
parent closure = some all
parent deprecated = some all
parent exiting = some all
parent glob = some all
parent io = some all
parent closed = some io
parent exec = some io
parent layer = some io
parent newline = some io
parent pipe = some io
parent unopened = some io
parent misc = some all
parent numeric = some all
parent once = some all
parent overflow = some all
parent pack = some all
parent portable = some all
parent recursion = some all
parent redefine = some all
parent regexp = some all
parent severe = some all
parent debugging = some severe
parent inplace = some severe
parent internal = some severe
parent malloc = some severe
parent signal = some all
parent substr = some all
parent syntax = some all
parent ambiguous = some syntax
parent bareword = some syntax
parent digit = some syntax
parent parenthesis = some syntax
parent precedence = some syntax
parent printf = some syntax
parent prototype = some syntax
parent qw = some syntax
parent reserved = some syntax
parent semicolon = some syntax
parent taint = some all
parent threads = some all
parent uninitialized = some all
parent unpack = some all
parent untie = some all
parent utf8 = some all
parent void = some all
parent imprecision = some all
parent illegalproto = some syntax
parent unicode_property_name = some deprecated
parent non_unicode = some utf8
parent nonchar = some utf8
parent surrogate = some utf8
parent experimental = some all
parent regex_sets = some experimental
parent syscalls = some io
parent regex_strict = some experimental
parent refaliasing = some experimental
parent locale = some all
parent missing = some all
parent redundant = some all
parent declared_refs = some experimental
parent dot_in_inc = some deprecated
parent shadow = some all
parent private_use = some experimental
parent uniprop_wildcards = some experimental
parent variable_length_lookbehind = some experimental
parent try = some experimental
parent args_array_with_signatures = some experimental
parent builtin = some experimental
parent defer = some experimental
parent extra_paired_delimiters = some experimental
parent scalar = some all
parent version_downgrade = some deprecated
parent delimiter_will_be_paired = some deprecated
parent class = some experimental
parent subsequent_use_version = some deprecated
parent keyword_all = some experimental
parent keyword_any = some experimental
parent enhanced_xx = some experimental
parent signature_named_parameters = some experimental
parent missing_import = some all

unfoldable pub default_enabled : WarningCategory → Bool
default_enabled deprecated = true
default_enabled glob = true
default_enabled debugging = true
default_enabled inplace = true
default_enabled malloc = true
default_enabled unicode_property_name = true
default_enabled regex_strict = true
default_enabled refaliasing = true
default_enabled locale = true
default_enabled declared_refs = true
default_enabled dot_in_inc = true
default_enabled private_use = true
default_enabled uniprop_wildcards = true
default_enabled variable_length_lookbehind = true
default_enabled try = true
default_enabled args_array_with_signatures = true
default_enabled builtin = true
default_enabled defer = true
default_enabled extra_paired_delimiters = true
default_enabled version_downgrade = true
default_enabled delimiter_will_be_paired = true
default_enabled class = true
default_enabled subsequent_use_version = true
default_enabled keyword_all = true
default_enabled keyword_any = true
default_enabled enhanced_xx = true
default_enabled signature_named_parameters = true
default_enabled missing_import = true
default_enabled _ = false

-- The loop of `within` on fuel; `none` is a loop that has not ended.
unfoldable pub within_loop : ℕ → WarningCategory → WarningCategory → Option Bool
within_loop zero at ancestor = none
within_loop (suc fuel) at ancestor =
    if same_category at ancestor
    then some true
    else elim (parent at) [ some up ↦ within_loop fuel up ancestor | none ↦ some false ]

-- `within`; the walk makes at most three rounds.
unfoldable pub within : WarningCategory → WarningCategory → Option Bool
unfolding within_loop
within c ancestor = within_loop 3 c ancestor
