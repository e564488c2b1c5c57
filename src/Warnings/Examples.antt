-- ===== src/Warnings/Examples.antt =====
-- Runs of core/src/warnings.rs, and its theorems at one input each.
use perloxide.Prelude.{◌≡◌, refl, true, false, none, some}
use perloxide.Warnings.Category.{all, io, pipe, same_category}
use perloxide.Warnings.Names.{from_name}
use perloxide.Warnings.Tree.{parent, within}
use perloxide.Warnings.Subtree.{Within, within_iff, parent-Within}

no_such_name : from_name "io::pipe" ≡ none
unfolding from_name
no_such_name = refl

pipe_within_io : within pipe io ≡ some true
unfolding within same_category parent
pipe_within_io = refl

pipe_below_io : Within io pipe
pipe_below_io = (within_iff pipe io).1.0 pipe_within_io

parent-Within_example :
    (within io all ≡ some true) × (within io pipe ≡ some false) × (¬ Within pipe io)
parent-Within_example = parent-Within pipe io (unfold parent in refl)
