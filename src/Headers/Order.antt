-- ===== src/Headers/Order.antt =====
-- Which sequences of headers `CheckNextIncludeOrder` accepts.
use dmanix.Base.{
  ℕ, ◌≤◌, ◌≡◌, ◌≢◌, refl, Bool, true, false, ◌&&◌, List, [], ◌∷◌, all, leb, is_nil_text,
  if◌then◌else◌, arith,
}
use dmanix.Headers.{
  HeaderType, c_sys_header, cpp_sys_header, likely_my_header, possible_my_header, other_header,
  IncludeState, c_section, cpp_section, other_h_section, my_h_section, check_next_include_order,
}

-- The headers of a file one after the other: is every answer the empty message?
pub accepts : List HeaderType → IncludeState → Bool
accepts [] s = true
accepts (t ∷ ts) s =
    let rest = accepts ts (check_next_include_order t s).1 in
    is_nil_text (check_next_include_order t s).0 && rest

-- The order that the style guide asks for: headers of the file itself, C system headers, C++ system
-- headers, and then headers that are not system headers.
abbrev is_my : HeaderType → Bool
is_my likely_my_header = true
is_my possible_my_header = true
is_my c_sys_header = false
is_my cpp_sys_header = false
is_my other_header = false

abbrev is_c : HeaderType → Bool
is_c c_sys_header = true
is_c cpp_sys_header = false
is_c likely_my_header = false
is_c possible_my_header = false
is_c other_header = false

abbrev is_cpp : HeaderType → Bool
is_cpp cpp_sys_header = true
is_cpp c_sys_header = false
is_cpp likely_my_header = false
is_cpp possible_my_header = false
is_cpp other_header = false

abbrev no_system : HeaderType → Bool
no_system c_sys_header = false
no_system cpp_sys_header = false
no_system likely_my_header = true
no_system possible_my_header = true
no_system other_header = true

abbrev pub drop_while : (HeaderType → Bool) → List HeaderType → List HeaderType
drop_while p [] = []
drop_while p (t ∷ ts) = let rest = drop_while p ts in if p t then rest else t ∷ ts

abbrev pub in_order : List HeaderType → Bool
in_order ts = all no_system (drop_while is_cpp (drop_while is_c (drop_while is_my ts)))

-- What one header does to the section, and whether it is in order.
abbrev next_section : HeaderType → ℕ → ℕ
next_section c_sys_header s = if leb s c_section then c_section else s
next_section cpp_sys_header s = if leb s cpp_section then cpp_section else s
next_section likely_my_header s = if leb s my_h_section then my_h_section else other_h_section
next_section possible_my_header s = if leb s my_h_section then my_h_section else other_h_section
next_section other_header s = other_h_section

abbrev fits : HeaderType → ℕ → Bool
fits c_sys_header s = leb s c_section
fits cpp_sys_header s = leb s cpp_section
fits likely_my_header s = true
fits possible_my_header s = true
fits other_header s = true

-- The run over the sections alone.
abbrev run : List HeaderType → ℕ → Bool
run [] n = true
run (t ∷ ts) n = let rest = run ts (next_section t n) in fits t n && rest

-- The section never goes back, and a header that gets a message leaves it where it was.
pub check_next_include_order-section :
    (t : HeaderType) (s : IncludeState)
    → (s.section ≤ other_h_section)
    → (s.section ≤ (check_next_include_order t s).1.section)
      × ((check_next_include_order t s).1.section ≤ other_h_section)
      × ((check_next_include_order t s).0 ≢ []
          → (check_next_include_order t s).1.section ≡ s.section)
unfolding check_next_include_order
check_next_include_order-section c_sys_header s h =
    (ground arith, ground arith, λ n. ground (arith, n))
check_next_include_order-section cpp_sys_header s h =
    (ground arith, ground arith, λ n. ground (arith, n))
check_next_include_order-section _ s h = (ground arith, ground arith, λ n. absurd (n refl))
