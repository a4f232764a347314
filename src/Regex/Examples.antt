-- ===== src/Regex/Examples.antt =====
-- Tests of the matcher, and its theorems at inputs.
use dmanix.Base.{◌≡◌, refl, ℕ, List, Option, none, some, codes}
use dmanix.Regex.{Regex, group, star, results}
use dmanix.Regex.Chars.{◌⨾◌, chr, lit, dot}
use dmanix.Regex.Search.{Found, search_in, group_text, sub}

-- (.*)b: the longest front part comes first
abbrev greedy : Regex
greedy = group 1 (star dot) ⨾ chr b'b'

abbrev group_1 : Option Found → Option (List ℕ)
group_1 none = none
group_1 (some m) = some (group_text m 1)

greedy_group : group_1 (search_in greedy (codes "abab")) ≡ some (codes "aba")
unfolding search_in group_text results
greedy_group = refl

sub_all : sub (lit "ab") (codes "-") (codes "abcab") ≡ codes "-c-"
unfolding sub results
sub_all = refl
