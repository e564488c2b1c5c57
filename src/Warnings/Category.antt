-- ===== src/Warnings/Category.antt =====
-- The category enum of core/src/warnings.rs and its discriminants: the bit numbers that index a
-- pragma's bit vector.
use perloxide.Prelude.{ℕ, Bool, Option, List, [], ◌∷◌, ◌==◌, match_arms}

pub data WarningCategory : Type 0 where
  all closure deprecated exiting glob io closed exec layer newline pipe : WarningCategory
  unopened misc numeric once overflow pack portable recursion redefine regexp : WarningCategory
  severe debugging inplace internal malloc signal substr syntax ambiguous : WarningCategory
  bareword digit parenthesis precedence printf prototype qw reserved semicolon : WarningCategory
  taint threads uninitialized unpack untie utf8 void imprecision illegalproto : WarningCategory
  unicode_property_name non_unicode nonchar surrogate experimental regex_sets : WarningCategory
  syscalls regex_strict refaliasing locale missing redundant declared_refs : WarningCategory
  dot_in_inc shadow private_use uniprop_wildcards variable_length_lookbehind : WarningCategory
  try args_array_with_signatures builtin defer extra_paired_delimiters scalar : WarningCategory
  version_downgrade delimiter_will_be_paired class subsequent_use_version : WarningCategory
  keyword_all keyword_any enhanced_xx signature_named_parameters missing_import : WarningCategory

-- `self as u8`
unfoldable pub bit : WarningCategory → ℕ
bit all = 0
bit closure = 1
bit deprecated = 2
bit exiting = 3
bit glob = 4
bit io = 5
bit closed = 6
bit exec = 7
bit layer = 8
bit newline = 9
bit pipe = 10
bit unopened = 11
bit misc = 12
bit numeric = 13
bit once = 14
bit overflow = 15
bit pack = 16
bit portable = 17
bit recursion = 18
bit redefine = 19
bit regexp = 20
bit severe = 21
bit debugging = 22
bit inplace = 23
bit internal = 24
bit malloc = 25
bit signal = 26
bit substr = 27
bit syntax = 28
bit ambiguous = 29
bit bareword = 30
bit digit = 31
bit parenthesis = 32
bit precedence = 33
bit printf = 34
bit prototype = 35
bit qw = 36
bit reserved = 37
bit semicolon = 38
bit taint = 39
bit threads = 40
bit uninitialized = 41
bit unpack = 42
bit untie = 43
bit utf8 = 44
bit void = 45
bit imprecision = 46
bit illegalproto = 47
bit unicode_property_name = 48
bit non_unicode = 49
bit nonchar = 50
bit surrogate = 51
bit experimental = 52
bit regex_sets = 53
bit syscalls = 54
bit regex_strict = 55
bit refaliasing = 56
bit locale = 57
bit missing = 58
bit redundant = 59
bit declared_refs = 60
bit dot_in_inc = 61
bit shadow = 62
bit private_use = 63
bit uniprop_wildcards = 64
bit variable_length_lookbehind = 65
bit try = 66
bit args_array_with_signatures = 67
bit builtin = 68
bit defer = 69
bit extra_paired_delimiters = 70
bit scalar = 71
bit version_downgrade = 72
bit delimiter_will_be_paired = 73
bit class = 74
bit subsequent_use_version = 75
bit keyword_all = 76
bit keyword_any = 77
bit enhanced_xx = 78
bit signature_named_parameters = 79
bit missing_import = 80

abbrev pub warning_category_count : ℕ
warning_category_count = 81

-- The arms of `from_bit`, from the top.
abbrev pub bit_arms : List (ℕ × WarningCategory)
bit_arms =
    (0, all)
    ∷ (1, closure)
    ∷ (2, deprecated)
    ∷ (3, exiting)
    ∷ (4, glob)
    ∷ (5, io)
    ∷ (6, closed)
    ∷ (7, exec)
    ∷ (8, layer)
    ∷ (9, newline)
    ∷ (10, pipe)
    ∷ (11, unopened)
    ∷ (12, misc)
    ∷ (13, numeric)
    ∷ (14, once)
    ∷ (15, overflow)
    ∷ (16, pack)
    ∷ (17, portable)
    ∷ (18, recursion)
    ∷ (19, redefine)
    ∷ (20, regexp)
    ∷ (21, severe)
    ∷ (22, debugging)
    ∷ (23, inplace)
    ∷ (24, internal)
    ∷ (25, malloc)
    ∷ (26, signal)
    ∷ (27, substr)
    ∷ (28, syntax)
    ∷ (29, ambiguous)
    ∷ (30, bareword)
    ∷ (31, digit)
    ∷ (32, parenthesis)
    ∷ (33, precedence)
    ∷ (34, printf)
    ∷ (35, prototype)
    ∷ (36, qw)
    ∷ (37, reserved)
    ∷ (38, semicolon)
    ∷ (39, taint)
    ∷ (40, threads)
    ∷ (41, uninitialized)
    ∷ (42, unpack)
    ∷ (43, untie)
    ∷ (44, utf8)
    ∷ (45, void)
    ∷ (46, imprecision)
    ∷ (47, illegalproto)
    ∷ (48, unicode_property_name)
    ∷ (49, non_unicode)
    ∷ (50, nonchar)
    ∷ (51, surrogate)
    ∷ (52, experimental)
    ∷ (53, regex_sets)
    ∷ (54, syscalls)
    ∷ (55, regex_strict)
    ∷ (56, refaliasing)
    ∷ (57, locale)
    ∷ (58, missing)
    ∷ (59, redundant)
    ∷ (60, declared_refs)
    ∷ (61, dot_in_inc)
    ∷ (62, shadow)
    ∷ (63, private_use)
    ∷ (64, uniprop_wildcards)
    ∷ (65, variable_length_lookbehind)
    ∷ (66, try)
    ∷ (67, args_array_with_signatures)
    ∷ (68, builtin)
    ∷ (69, defer)
    ∷ (70, extra_paired_delimiters)
    ∷ (71, scalar)
    ∷ (72, version_downgrade)
    ∷ (73, delimiter_will_be_paired)
    ∷ (74, class)
    ∷ (75, subsequent_use_version)
    ∷ (76, keyword_all)
    ∷ (77, keyword_any)
    ∷ (78, enhanced_xx)
    ∷ (79, signature_named_parameters)
    ∷ (80, missing_import)
    ∷ []

unfoldable pub from_bit : ℕ → Option WarningCategory
from_bit b = match_arms ◌==◌ bit_arms b

-- The derived `PartialEq` compares discriminants.
unfoldable pub same_category : WarningCategory → WarningCategory → Bool
unfolding bit
same_category a b = bit a == bit b
