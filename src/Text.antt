-- ===== src/Text.antt =====
-- The text helpers behind the SQL functions of src/lib/src/functions.cpp: normalisation, tokens,
-- the search predicates and the snippet. A loop over a string is a recursion on its bytes.
pub mod Words
pub mod Normal
pub mod Sizes
pub mod Parted
use ghidrasql.Prelude.{
  ℕ, zero, suc, ◌+◌, ◌-◌, ◌*◌, min, Bool, true, false, not, ◌&&◌, ◌||◌, Option, none, some, List,
  [], ◌∷◌, ◌++◌, map, ltb, leb, ◌==◌, if◌then◌else◌, Bytes, codes, space, is_space, is_alnum,
  to_lower, eqb, starts_with, find, contains, elem, length, is_empty, drop, substr,
}

-- One round of the first loop of `normalize_text`.
unfoldable pub normal_char : ℕ → ℕ
unfolding is_alnum to_lower
normal_char c = if is_alnum c then to_lower c else space

-- One round of the first loop of `squash_ws`.
unfoldable pub blank_char : ℕ → ℕ
unfolding is_space
blank_char c = if is_space c then space else c

-- `if (!out.empty() && out.back() == ' ') out.pop_back();`
unfoldable pub pop_space : Bytes → Bytes
pop_space [] = []
pop_space (c ∷ []) = if c == space then [] else c ∷ []
pop_space (c ∷ d ∷ s) = c ∷ pop_space (d ∷ s)

-- The second loop of `normalize_text`, of `squash_ws` and of `normalize_search_text`: the unread
-- text, `prev_space` and `out`.
unfoldable pub squash_loop : Bytes → Bool → Bytes → Bytes
squash_loop [] prev_space out = out
squash_loop (c ∷ s) prev_space out =
    squash_loop s (c == space)
      (if c == space then (if prev_space then out else out ++ space ∷ []) else out ++ c ∷ [])

unfoldable pub squash : Bytes → Bytes
unfolding pop_space squash_loop
squash s = pop_space (squash_loop s true [])

unfoldable pub normalize_text : Bytes → Bytes
unfolding normal_char squash
normalize_text text = squash (map normal_char text)

unfoldable pub squash_ws : Bytes → Bytes
unfolding blank_char squash
squash_ws text = squash (map blank_char text)

unfoldable pub lower_ascii : Bytes → Bytes
unfolding to_lower
lower_ascii text = map to_lower text

-- The loop of `tokenize`: the unread text, `cur` and `out`.
unfoldable pub token_loop : Bytes → Bytes → List Bytes → List Bytes
token_loop [] cur out = if is_empty cur then out else out ++ cur ∷ []
token_loop (c ∷ s) cur out =
    token_loop s (if c == space then [] else cur ++ c ∷ [])
      (if c == space && not (is_empty cur) then out ++ cur ∷ [] else out)

unfoldable pub tokenize : Bytes → List Bytes
unfolding token_loop
tokenize normalized = token_loop normalized [] []

unfoldable pub join_loop : List Bytes → Bytes → Bytes
join_loop [] out = out
join_loop (tok ∷ toks) out =
    join_loop toks
      (if is_empty tok then out else ((if is_empty out then out else out ++ space ∷ []) ++ tok))

unfoldable pub join_tokens : List Bytes → Bytes
unfolding join_loop
join_tokens tokens = join_loop tokens []
