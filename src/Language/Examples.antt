-- ===== src/Language/Examples.antt =====
-- The theorems on casts and arrays at inputs, and tests of `CheckLanguage`.
use dmanix.Base.{◌≡◌, ◌↔◌, refl, true, false, List, [], ◌∷◌, Text, codes}
use dmanix.Lint.{Action}
use dmanix.Lint.Report.{messages}
use dmanix.Lines.{cleansed_lines}
use dmanix.Headers.{new_include_state}
use dmanix.Language.{check_language}
use dmanix.Language.Arrays.{all_const, is_constant}
use dmanix.Language.Casts.{check_c_style_cast, re_basic_cast}
use dmanix.Language.Sizes.{ConstantToken, is_constant-iff-ConstantToken}

abbrev sizeof_tokens : List Text
sizeof_tokens = codes "(sizeof" ∷ codes "int)" ∷ codes "4" ∷ []

sizeof_is_constant : all_const false sizeof_tokens ≡ true
unfolding all_const
sizeof_is_constant = refl

is_constant-iff-ConstantToken_example :
    (is_constant (codes "ns::kMaxSize") ≡ true) ↔ ConstantToken (codes "ns::kMaxSize")
is_constant-iff-ConstantToken_example = is_constant-iff-ConstantToken (codes "ns::kMaxSize")

-- A function with an unnamed parameter in a MockCallback: the answer is True, and there is no error.
answered_without_error :
    check_c_style_cast
      (codes "a.cc")
      1
      (codes "MockCallback<void(int)> f;")
      (codes "MockCallback<void(int)> f;")
      "static_cast"
      re_basic_cast
    ≡ (true, [])
unfolding check_c_style_cast
answered_without_error = refl

abbrev language_of : Text → List Action
language_of line =
    (check_language (codes "a.h") (record { repository_name = codes "a.h"; base_name = codes "a" })
      (cleansed_lines (line ∷ [])) 0 (codes "h") new_include_state).0

const_reference : messages (language_of (codes "void f(const Foo& a);")) ≡ []
unfolding check_language cleansed_lines
const_reference = refl

plain_reference :
    messages (language_of (codes "void f(Foo& a);"))
    ≡ codes "Is this a non-const reference? If so, make const or use a pointer." ∷ []
unfolding check_language cleansed_lines
plain_reference = refl

c_cast :
    messages (language_of (codes "x = (int)y;"))
    ≡ codes "Using C-style cast.  Use static_cast<int>(...) instead" ∷ []
unfolding check_language cleansed_lines
c_cast = refl

conversion :
    messages (language_of (codes "x = int(y);"))
    ≡ codes "Using deprecated casting style.  Use static_cast<int>(...) instead" ∷ []
unfolding check_language cleansed_lines
conversion = refl

sizeof_type :
    messages (language_of (codes "x = sizeof(int);"))
    ≡ codes "Using sizeof(type).  Use sizeof(varname) instead if possible" ∷ []
unfolding check_language cleansed_lines
sizeof_type = refl

self_init :
    messages (language_of (codes "Foo::Foo() : a_(a_) {}"))
    ≡ codes "You seem to be initializing a member variable with itself." ∷ []
unfolding check_language cleansed_lines
self_init = refl

other_init : messages (language_of (codes "Foo::Foo() : a_(b_) {}")) ≡ []
unfolding check_language cleansed_lines
other_init = refl

c_long :
    messages (language_of (codes "long x = 0;"))
    ≡ codes "Use int16/int64/etc, rather than the C type long" ∷ []
unfolding check_language cleansed_lines
c_long = refl

long_double : messages (language_of (codes "long double x = 0;")) ≡ []
unfolding check_language cleansed_lines
long_double = refl

format_bug :
    messages (language_of (codes "printf(foo);"))
    ≡ codes "Potential format string bug. Do printf(\"%s\", foo) instead." ∷ []
unfolding check_language cleansed_lines
format_bug = refl

memset_swapped :
    messages (language_of (codes "memset(buf, sizeof(buf), 0);"))
    ≡ codes "Did you mean \"memset(buf, 0, sizeof(buf))\"?" ∷ []
unfolding check_language cleansed_lines
memset_swapped = refl

variable_array :
    messages (language_of (codes "int a[n];"))
    ≡ codes
        "Do not use variable-length arrays.  Use an appropriately named ('k' followed by CamelCase) compile-time constant for the size."
      ∷ []
unfolding check_language cleansed_lines
variable_array = refl

constant_array : messages (language_of (codes "int a[kSize + 1];")) ≡ []
unfolding check_language cleansed_lines
constant_array = refl

right_shift_array : messages (language_of (codes "int a[8>>n];")) ≡ []
unfolding check_language cleansed_lines
right_shift_array = refl

left_shift_array :
    messages (language_of (codes "int a[8<<n];"))
    ≡ codes
        "Do not use variable-length arrays.  Use an appropriately named ('k' followed by CamelCase) compile-time constant for the size."
      ∷ []
unfolding check_language cleansed_lines
left_shift_array = refl

unnamed_namespace :
    messages (language_of (codes "namespace {"))
    ≡ codes
        "Do not use unnamed namespaces in header files.  See http://google-styleguide.googlecode.com/svn/trunk/cppguide.xml#Namespaces for more information."
      ∷ []
unfolding check_language cleansed_lines
unnamed_namespace = refl
