-- ===== src/Pragma/Features.antt =====
-- The feature set of parser/src/pragma.rs: a 32-bit set, one bit for a feature.
use Prim.Native.Nat.{bit_and, bit_or}
use perloxide.Prelude.{ℕ, ◌-◌, ◌^◌, Bool, false, ◌==◌}

abbrev pub Features : Type 0
Features = ℕ

infixl 60 ◌or◌
abbrev pub ◌or◌ : Features → Features → Features
a or b = bit_or a b

-- `!x` on 32 bits
abbrev complement : Features → Features
complement x = 2 ^ 32 - 1 - x

abbrev pub empty : Features
empty = 0

abbrev pub say : Features
say = 2 ^ 0

abbrev pub state : Features
state = 2 ^ 1

abbrev pub switch : Features
switch = 2 ^ 2

abbrev pub smartmatch : Features
smartmatch = 2 ^ 3

abbrev pub evalbytes : Features
evalbytes = 2 ^ 4

abbrev pub current_sub : Features
current_sub = 2 ^ 5

abbrev pub fc : Features
fc = 2 ^ 6

abbrev pub postderef : Features
postderef = 2 ^ 7

abbrev pub signatures : Features
signatures = 2 ^ 8

abbrev pub refaliasing : Features
refaliasing = 2 ^ 9

abbrev pub declared_refs : Features
declared_refs = 2 ^ 10

abbrev pub isa : Features
isa = 2 ^ 11

abbrev pub try : Features
try = 2 ^ 12

abbrev pub defer : Features
defer = 2 ^ 13

abbrev pub class : Features
class = 2 ^ 14

abbrev pub extra_paired_delimiters : Features
extra_paired_delimiters = 2 ^ 15

abbrev pub bareword_filehandles : Features
bareword_filehandles = 2 ^ 16

abbrev pub indirect : Features
indirect = 2 ^ 17

abbrev pub apostrophe_as_package_separator : Features
apostrophe_as_package_separator = 2 ^ 18

abbrev pub multidimensional : Features
multidimensional = 2 ^ 19

abbrev pub unicode_strings : Features
unicode_strings = 2 ^ 20

abbrev pub unicode_eval : Features
unicode_eval = 2 ^ 21

abbrev pub bitwise : Features
bitwise = 2 ^ 22

abbrev pub module_true : Features
module_true = 2 ^ 23

abbrev pub lexical_subs : Features
lexical_subs = 2 ^ 24

abbrev pub keyword_any : Features
keyword_any = 2 ^ 25

abbrev pub keyword_all : Features
keyword_all = 2 ^ 26

abbrev pub postderef_qq : Features
postderef_qq = 2 ^ 27

abbrev pub default_bundle : Features
default_bundle =
    indirect or multidimensional or bareword_filehandles or apostrophe_as_package_separator
    or smartmatch

abbrev pub all_features : Features
all_features =
    say or state or switch or smartmatch or evalbytes or current_sub or fc or postderef
    or postderef_qq or signatures or refaliasing or declared_refs or isa or try or defer or class
    or extra_paired_delimiters or bareword_filehandles or indirect
    or apostrophe_as_package_separator or multidimensional or unicode_strings or unicode_eval
    or bitwise or module_true or lexical_subs or keyword_any or keyword_all

unfoldable pub contains : Features → Features → Bool
contains self other = bit_and self other == other

unfoldable pub insert : Features → Features → Features
insert self other = self or other

unfoldable pub remove : Features → Features → Features
remove self other = bit_and self (complement other)

pub record Pragmas : Type 0 where
  pub features : Features
  pub utf8 : Bool

-- `Pragmas::new`
abbrev pub new_pragmas : Pragmas
new_pragmas = record { features = default_bundle; utf8 = false }
