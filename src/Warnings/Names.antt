-- ===== src/Warnings/Names.antt =====
-- Perl's spelling of each category: `name` and `from_name` of core/src/warnings.rs.
use perloxide.Prelude.{String, Option, List, [], ◌∷◌, str_eq, match_arms}
use perloxide.Warnings.Category.{
  WarningCategory, all, closure, deprecated, exiting, glob, io, closed, exec, layer, newline, pipe,
  unopened, misc, numeric, once, overflow, pack, portable, recursion, redefine, regexp, severe,
  debugging, inplace, internal, malloc, signal, substr, syntax, ambiguous, bareword, digit,
  parenthesis, precedence, printf, prototype, qw, reserved, semicolon, taint, threads,
  uninitialized, unpack, untie, utf8, void, imprecision, illegalproto, unicode_property_name,
  non_unicode, nonchar, surrogate, experimental, regex_sets, syscalls, regex_strict, refaliasing,
  locale, missing, redundant, declared_refs, dot_in_inc, shadow, private_use, uniprop_wildcards,
  variable_length_lookbehind, try, args_array_with_signatures, builtin, defer,
  extra_paired_delimiters, scalar, version_downgrade, delimiter_will_be_paired, class,
  subsequent_use_version, keyword_all, keyword_any, enhanced_xx, signature_named_parameters,
  missing_import,
}

unfoldable pub name : WarningCategory → String
name all = "all"
name closure = "closure"
name deprecated = "deprecated"
name exiting = "exiting"
name glob = "glob"
name io = "io"
name closed = "closed"
name exec = "exec"
name layer = "layer"
name newline = "newline"
name pipe = "pipe"
name unopened = "unopened"
name misc = "misc"
name numeric = "numeric"
name once = "once"
name overflow = "overflow"
name pack = "pack"
name portable = "portable"
name recursion = "recursion"
name redefine = "redefine"
name regexp = "regexp"
name severe = "severe"
name debugging = "debugging"
name inplace = "inplace"
name internal = "internal"
name malloc = "malloc"
name signal = "signal"
name substr = "substr"
name syntax = "syntax"
name ambiguous = "ambiguous"
name bareword = "bareword"
name digit = "digit"
name parenthesis = "parenthesis"
name precedence = "precedence"
name printf = "printf"
name prototype = "prototype"
name qw = "qw"
name reserved = "reserved"
name semicolon = "semicolon"
name taint = "taint"
name threads = "threads"
name uninitialized = "uninitialized"
name unpack = "unpack"
name untie = "untie"
name utf8 = "utf8"
name void = "void"
name imprecision = "imprecision"
name illegalproto = "illegalproto"
name unicode_property_name = "deprecated::unicode_property_name"
name non_unicode = "non_unicode"
name nonchar = "nonchar"
name surrogate = "surrogate"
name experimental = "experimental"
name regex_sets = "experimental::regex_sets"
name syscalls = "syscalls"
name regex_strict = "experimental::re_strict"
name refaliasing = "experimental::refaliasing"
name locale = "locale"
name missing = "missing"
name redundant = "redundant"
name declared_refs = "experimental::declared_refs"
name dot_in_inc = "deprecated::dot_in_inc"
name shadow = "shadow"
name private_use = "experimental::private_use"
name uniprop_wildcards = "experimental::uniprop_wildcards"
name variable_length_lookbehind = "experimental::vlb"
name try = "experimental::try"
name args_array_with_signatures = "experimental::args_array_with_signatures"
name builtin = "experimental::builtin"
name defer = "experimental::defer"
name extra_paired_delimiters = "experimental::extra_paired_delimiters"
name scalar = "scalar"
name version_downgrade = "deprecated::version_downgrade"
name delimiter_will_be_paired = "deprecated::delimiter_will_be_paired"
name class = "experimental::class"
name subsequent_use_version = "deprecated::subsequent_use_version"
name keyword_all = "experimental::keyword_all"
name keyword_any = "experimental::keyword_any"
name enhanced_xx = "experimental::enhanced_xx"
name signature_named_parameters = "experimental::signature_named_parameters"
name missing_import = "missing_import"

-- The arms of `from_name`, from the top.
abbrev pub name_arms : List (String × WarningCategory)
name_arms =
    ("all", all)
    ∷ ("closure", closure)
    ∷ ("deprecated", deprecated)
    ∷ ("exiting", exiting)
    ∷ ("glob", glob)
    ∷ ("io", io)
    ∷ ("closed", closed)
    ∷ ("exec", exec)
    ∷ ("layer", layer)
    ∷ ("newline", newline)
    ∷ ("pipe", pipe)
    ∷ ("unopened", unopened)
    ∷ ("misc", misc)
    ∷ ("numeric", numeric)
    ∷ ("once", once)
    ∷ ("overflow", overflow)
    ∷ ("pack", pack)
    ∷ ("portable", portable)
    ∷ ("recursion", recursion)
    ∷ ("redefine", redefine)
    ∷ ("regexp", regexp)
    ∷ ("severe", severe)
    ∷ ("debugging", debugging)
    ∷ ("inplace", inplace)
    ∷ ("internal", internal)
    ∷ ("malloc", malloc)
    ∷ ("signal", signal)
    ∷ ("substr", substr)
    ∷ ("syntax", syntax)
    ∷ ("ambiguous", ambiguous)
    ∷ ("bareword", bareword)
    ∷ ("digit", digit)
    ∷ ("parenthesis", parenthesis)
    ∷ ("precedence", precedence)
    ∷ ("printf", printf)
    ∷ ("prototype", prototype)
    ∷ ("qw", qw)
    ∷ ("reserved", reserved)
    ∷ ("semicolon", semicolon)
    ∷ ("taint", taint)
    ∷ ("threads", threads)
    ∷ ("uninitialized", uninitialized)
    ∷ ("unpack", unpack)
    ∷ ("untie", untie)
    ∷ ("utf8", utf8)
    ∷ ("void", void)
    ∷ ("imprecision", imprecision)
    ∷ ("illegalproto", illegalproto)
    ∷ ("deprecated::unicode_property_name", unicode_property_name)
    ∷ ("non_unicode", non_unicode)
    ∷ ("nonchar", nonchar)
    ∷ ("surrogate", surrogate)
    ∷ ("experimental", experimental)
    ∷ ("experimental::regex_sets", regex_sets)
    ∷ ("syscalls", syscalls)
    ∷ ("experimental::re_strict", regex_strict)
    ∷ ("experimental::refaliasing", refaliasing)
    ∷ ("locale", locale)
    ∷ ("missing", missing)
    ∷ ("redundant", redundant)
    ∷ ("experimental::declared_refs", declared_refs)
    ∷ ("deprecated::dot_in_inc", dot_in_inc)
    ∷ ("shadow", shadow)
    ∷ ("experimental::private_use", private_use)
    ∷ ("experimental::uniprop_wildcards", uniprop_wildcards)
    ∷ ("experimental::vlb", variable_length_lookbehind)
    ∷ ("experimental::try", try)
    ∷ ("experimental::args_array_with_signatures", args_array_with_signatures)
    ∷ ("experimental::builtin", builtin)
    ∷ ("experimental::defer", defer)
    ∷ ("experimental::extra_paired_delimiters", extra_paired_delimiters)
    ∷ ("scalar", scalar)
    ∷ ("deprecated::version_downgrade", version_downgrade)
    ∷ ("deprecated::delimiter_will_be_paired", delimiter_will_be_paired)
    ∷ ("experimental::class", class)
    ∷ ("deprecated::subsequent_use_version", subsequent_use_version)
    ∷ ("experimental::keyword_all", keyword_all)
    ∷ ("experimental::keyword_any", keyword_any)
    ∷ ("experimental::enhanced_xx", enhanced_xx)
    ∷ ("experimental::signature_named_parameters", signature_named_parameters)
    ∷ ("missing_import", missing_import)
    ∷ []

unfoldable pub from_name : String → Option WarningCategory
from_name s = match_arms str_eq name_arms s
