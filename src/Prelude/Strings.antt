-- ===== src/Prelude/Strings.antt =====
-- `std::string` as a list of bytes, with the searches and the comparisons of its class, and the
-- character classes of <cctype> in the "C" locale.
use Prim.Native.Nat.{ℕ, zero, suc, ◌+◌, ◌/◌, ◌%◌}
use Prim.Native.Char.{code}
use Prim.Native.String.{String}
use mathlib.Core.Path.{◌≡◌}
use mathlib.Core.Logic.{◌↔◌}
use mathlib.Core.Bool.{Bool, true, false, ◌&&◌, ◌||◌}
use mathlib.Core.List.{List, [], ◌∷◌, ◌++◌}
use mathlib.Core.Option.{Option, none, some}
use mathlib.Core.Option
use native.Mathlib.Omega.{arith}
use ghidrasql.Prelude.Tests.{ltb, leb, ◌==◌, if◌then◌else◌}
use ghidrasql.Prelude.Lists.{take, drop}

abbrev pub Bytes : Type 0
Bytes = List ℕ

-- The bytes of an ASCII literal.
abbrev pub codes : String → Bytes
codes String.[] = []
codes (String.◌∷◌ c s) = code c ∷ codes s

abbrev pub space : ℕ
space = b' '

unfoldable pub is_space : ℕ → Bool
is_space c = c == space || (leb 9 c && leb c 13)

unfoldable pub is_upper : ℕ → Bool
is_upper c = leb b'A' c && leb c b'Z'

unfoldable pub is_lower : ℕ → Bool
is_lower c = leb b'a' c && leb c b'z'

unfoldable pub is_digit : ℕ → Bool
is_digit c = leb b'0' c && leb c b'9'

unfoldable pub is_alnum : ℕ → Bool
unfolding is_upper is_lower is_digit
is_alnum c = is_upper c || is_lower c || is_digit c

unfoldable pub to_lower : ℕ → ℕ
unfolding is_upper
to_lower c = if is_upper c then c + 32 else c

-- `operator==` of two strings.
unfoldable pub eqb : Bytes → Bytes → Bool
eqb [] [] = true
eqb [] (d ∷ t) = false
eqb (c ∷ s) [] = false
eqb (c ∷ s) (d ∷ t) = c == d && eqb s t

-- Whether the second text begins with the first: `s.rfind(p, 0) == 0`.
unfoldable pub starts_with : Bytes → Bytes → Bool
starts_with [] s = true
starts_with (p ∷ ps) [] = false
starts_with (p ∷ ps) (c ∷ s) = p == c && starts_with ps s

-- `s.find(p)`, with `none` for `npos`.
unfoldable pub find : Bytes → Bytes → Option ℕ
unfolding starts_with
find p [] = if starts_with p [] then some 0 else none
find p (c ∷ s) = if starts_with p (c ∷ s) then some 0 else Option.map suc (find p s)

-- `s.find(p) != npos`
unfoldable pub contains : Bytes → Bytes → Bool
unfolding find
contains s p = elim (find p s) [ none ↦ false | some i ↦ true ]

-- Whether a text is in a list of texts: a lookup in a set.
unfoldable pub elem : Bytes → List Bytes → Bool
unfolding eqb
elem s [] = false
elem s (t ∷ ts) = eqb s t || elem s ts

-- `s.find(ch)`, with `none` for `npos`.
unfoldable pub find_char : ℕ → Bytes → Option ℕ
find_char b [] = none
find_char b (c ∷ s) = if c == b then some 0 else Option.map suc (find_char b s)

-- `s.substr(i, n)`
abbrev pub substr : ℕ → ℕ → Bytes → Bytes
substr i n s = take n (drop i s)

pub eqb_iff : (s t : Bytes) → (eqb s t ≡ true) ↔ (s ≡ t)
unfolding eqb
eqb_iff [] [] = ground arith
eqb_iff [] (d ∷ t) = ground arith
eqb_iff (c ∷ s) [] = ground arith
eqb_iff (c ∷ s) (d ∷ t) = ground (arith, eqb_iff s t)

-- Where one text stands in another.
pub record Occurs (p s : Bytes) : Type 0 where
  pub before : Bytes
  pub after : Bytes
  pub split : s ≡ before ++ (p ++ after)

-- The decimal digits of a number, on fuel that its value gives: each step divides by ten.
abbrev pub dec_loop : ℕ → ℕ → Bytes
dec_loop zero n = []
dec_loop (suc fuel) n =
    let front = dec_loop fuel (n / 10) in
    if ltb n 10 then (b'0' + n) ∷ [] else front ++ ((b'0' + n % 10) ∷ [])

-- `std::to_string` of a number.
unfoldable pub to_dec : ℕ → Bytes
to_dec n = dec_loop (suc n) n
