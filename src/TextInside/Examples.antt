-- ===== src/TextInside/Examples.antt =====
-- The theorem on the text between punctuations at an input, and tests.
use dmanix.Base.{◌≡◌, ◌↔◌, refl, [], ◌∷◌, ◌++◌, Text, codes}
use dmanix.Regex.Chars.{lit}
use dmanix.Regex.Search.{Found, search_in}
use dmanix.TextInside.{get_text_inside, text_inside, nothing_inside, assertion_fails}
use dmanix.TextInside.Balanced.{Balanced, get_text_inside-iff-Balanced}

abbrev call : Text
call = codes "printf(a(), b[c{}]);"

abbrev at_call : Found
at_call = record {
  from = record { before = []; after = call; groups = [] };
  to = record { before = codes "(ftnirp"; after = codes "a(), b[c{}]);"; groups = [] };
}

get_text_inside-iff-Balanced_example :
    (get_text_inside call (lit "printf(") ≡ text_inside (codes "a(), b[c{}]")) ↔ (
      Balanced (codes "a(), b[c{}]")
      × ((rest : Text) × (codes "a(), b[c{}]);" ≡ codes "a(), b[c{}]" ++ b')' ∷ rest)))
unfolding search_in
get_text_inside-iff-Balanced_example =
    get_text_inside-iff-Balanced call (lit "printf(") at_call b')' (codes "a(), b[c{}]") refl refl

call_read : get_text_inside call (lit "printf(") ≡ text_inside (codes "a(), b[c{}]")
unfolding get_text_inside
call_read = refl

wrong_closing : get_text_inside (codes "f(a]);") (lit "f(") ≡ nothing_inside
unfolding get_text_inside
wrong_closing = refl

no_opening : get_text_inside (codes "f(a]);") (lit "f") ≡ assertion_fails
unfolding get_text_inside
no_opening = refl
