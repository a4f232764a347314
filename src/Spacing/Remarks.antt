-- ===== src/Spacing/Remarks.antt =====
-- scripts/cpplint.py: what `CheckSpacing` says of the comment that ends a line.
use dmanix.Base.{
  ℕ, zero, suc, ◌+◌, ◌%◌, Bool, false, not, ◌&&◌, ◌||◌, Option, none, some, List, [], ◌∷◌, ◌++◌,
  Text, codes, get_or, find, drop, take, count, count_char, is_ascii_space, ◌==◌, if◌then◌else◌,
}
use dmanix.Regex.{Regex, star, start, end}
use dmanix.Regex.Chars.{◌⨾◌, chr, lit, in_set, space, plus}
use dmanix.Regex.Search.{matches, occurs}
use dmanix.Lint.{Action}
use dmanix.Lint.Report.{error_if}
use dmanix.Tokens.Lines.{check_comment}

-- As many `"` as `\"`, up to an even number. The difference of the two counts is even exactly when their sum is.
unfoldable pub outside_quotes : Text → Bool
unfolding count count_char
outside_quotes prefix = (count_char 34 prefix + count (codes "\\\"") prefix) % 2 == 0

abbrev is_white : Text → ℕ → Bool
is_white line i = is_ascii_space (get_or line i 0)

-- No white space at commentpos-1 or at commentpos-2, as far as these are there.
abbrev near_text : Text → ℕ → Bool
near_text line zero = false
near_text line (suc zero) = not (is_white line 0)
near_text line (suc (suc n)) = not (is_white line (suc n)) || not (is_white line n)

unfoldable pub too_near : Text → ℕ → Bool
unfolding matches is_ascii_space
too_near line commentpos =
    not (matches (start ⨾ star space ⨾ lit "{ //") line) && near_text line commentpos

-- [=/-]{4,}\s*$
abbrev re_delimiter : Regex
re_delimiter = in_set "=/-" ⨾ in_set "=/-" ⨾ in_set "=/-" ⨾ plus (in_set "=/-") ⨾ star space ⨾ end

-- What stands behind the `//` is neither empty nor a space nor one of the exceptions.
unfoldable pub lacks_space : Text → Bool
unfolding occurs
lacks_space [] = false
lacks_space (c ∷ rest) =
    not (c == 32)
    && not (
        occurs re_delimiter (c ∷ rest)
        || occurs (start ⨾ chr b'/' ⨾ end) (c ∷ rest)
        || occurs (start ⨾ plus (chr b'/') ⨾ chr 32) (c ∷ rest))

abbrev pub remark_at : Text → ℕ → Text → Option ℕ → List Action
remark_at filename linenum line none = []
remark_at filename linenum line (some commentpos) =
    if outside_quotes (take commentpos line)
    then error_if (too_near line commentpos) filename linenum "whitespace/comments" 2
        (codes "At least two spaces is best between code and comments")
      ++ error_if (lacks_space (drop (commentpos + 2) line)) filename linenum "whitespace/comments"
          4 (codes "Should have a space between // and comment")
      ++ check_comment (drop commentpos line) filename linenum
    else []

-- The part of CheckSpacing from `commentpos = line.find('//')` to the call of CheckComment.
unfoldable pub check_remark : Text → ℕ → Text → List Action
unfolding find outside_quotes too_near lacks_space error_if check_comment
check_remark filename linenum line = remark_at filename linenum line (find line (codes "//"))
