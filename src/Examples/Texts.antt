-- ===== src/Examples/Texts.antt =====
-- The theorems on texts, types, parameters and commands at concrete inputs.
use ghidrasql.Prelude.{
  ℕ, ◌+◌, ◌≤◌, pos, true, false, not, ◌&&◌, none, some, List, [], ◌∷◌, ◌++◌, ◌≡◌, ◌↔◌, refl, arith,
  ◌>>=◌, if◌then◌else◌, Bytes, codes, starts_with, is_alnum, is_upper, is_lower, is_digit, is_space,
  to_lower, eqb, find, contains, elem, is_empty, length, All, Occurs,
}
use ghidrasql.Text.{
  token_loop, normal_char, blank_char, squash_loop, pop_space, squash, normalize_text, squash_ws,
  lower_ascii, tokenize, join_tokens,
}
use ghidrasql.Text.Words.{IsWord, squash-join_tokens, tokenize-join_tokens}
use ghidrasql.Text.Normal.{IsNormalChar, normalize_text_lem}
use ghidrasql.Search.{all_query_terms_match, query_score, search_snippet}
use ghidrasql.Search.Match.{all_query_terms_match_iff}
use ghidrasql.Search.Score.{total, query_score_lem}
use ghidrasql.Search.Snippet.{search_snippet-length, search_snippet_shows}
use ghidrasql.Types.{type_strip_cv, parse_language_id}
use ghidrasql.Types.Strip.{qualifiers, kept, type_strip_cv-tokens}
use ghidrasql.Types.Language.{printed_size, variant_text, parse_language_id_lem}
use ghidrasql.Params.{split_pattern_list}
use ghidrasql.Params.Split.{with_commas, items, split_pattern_list_lem}
use ghidrasql.Commands.{not_handled, handled, quit, CommandCallbacks, handle_command}
use ghidrasql.Commands.Results.{handle_command-result}

abbrev title : Bytes
title = codes "Read  File_A"

abbrev words : List Bytes
words = codes "read" ∷ codes "file" ∷ []

normalize_text_example :
    All IsNormalChar (normalize_text title)
    × (join_tokens (tokenize (normalize_text title)) ≡ normalize_text title)
    × (normalize_text (normalize_text title) ≡ normalize_text title)
normalize_text_example = normalize_text_lem title

squash_example : squash title ≡ join_tokens (tokenize title)
squash_example = squash-join_tokens title

words-IsWord : All IsWord words
words-IsWord = ((refl, ground arith), ((refl, ground arith), tt))

join_tokens_example : tokenize (join_tokens words) ≡ words
join_tokens_example = tokenize-join_tokens words words-IsWord

terms_example : (all_query_terms_match title (codes "File") ≡ true) ↔ (
    (is_empty (tokenize (codes "File")) ≡ false)
    × All (λ term. Occurs term title) (tokenize (codes "File")))
terms_example = all_query_terms_match_iff title (codes "File")

score_example :
    query_score (codes "aa aa") (codes "aa")
    ≡ some (
        if is_empty (tokenize (codes "aa"))
        then 0
        else total (codes "aa aa") (tokenize (codes "aa"))
          + (if not (is_empty (codes "aa")) && contains (codes "aa aa") (codes "aa") then 5 else 0)
          + (if not (is_empty (codes "aa")) && starts_with (codes "aa") (codes "aa aa")
              then 2
              else 0))
score_example = query_score_lem (codes "aa aa") (codes "aa")

snippet_length_example :
    length (search_snippet title (codes "file") (pos 48)) ≤ length (codes "file") + 1030
snippet_length_example = search_snippet-length title (codes "file") (pos 48)

lower_a-elem : elem (codes "a") (tokenize (normalize_text (codes "A"))) ≡ true
unfolding elem tokenize token_loop normalize_text normal_char squash squash_loop pop_space is_alnum
    is_upper is_lower is_digit to_lower eqb
lower_a-elem = refl

lower_a-contains : contains (lower_ascii (squash_ws title)) (codes "a") ≡ true
unfolding contains find starts_with lower_ascii squash_ws blank_char squash squash_loop pop_space
    is_space is_upper to_lower
lower_a-contains = refl

snippet_shows_example :
    (term : Bytes) × (elem term (tokenize (normalize_text (codes "A"))) ≡ true)
    × Occurs term (lower_ascii (search_snippet title (codes "A") (pos 48)))
snippet_shows_example =
    search_snippet_shows title (codes "A") (pos 48) (codes "a") refl lower_a-elem lower_a-contains

kept-nonempty : is_empty (kept (codes "const" ++ b' ' ∷ codes "char *")) ≡ false
unfolding elem tokenize token_loop normalize_text normal_char squash squash_loop pop_space is_alnum
    is_upper is_lower is_digit to_lower eqb
kept-nonempty = refl

volatile-elem : elem (codes "volatile") qualifiers ≡ true
unfolding elem eqb
volatile-elem = refl

int-nonempty : is_empty (kept (codes "int*")) ≡ false
unfolding elem tokenize token_loop normalize_text normal_char squash squash_loop pop_space is_alnum
    is_upper is_lower is_digit to_lower eqb
int-nonempty = refl

strip_example :
    (tokenize (type_strip_cv (codes "int*")) ≡ kept (codes "int*"))
    × (type_strip_cv (codes "volatile" ++ b' ' ∷ codes "int*") ≡ type_strip_cv (codes "int*"))
    × (type_strip_cv (codes "int*" ++ b' ' ∷ codes "volatile") ≡ type_strip_cv (codes "int*"))
    × (type_strip_cv (codes "const" ++ b' ' ∷ (codes "volatile" ++ b' ' ∷ codes "char *"))
        ≡ type_strip_cv (codes "const" ++ b' ' ∷ codes "char *"))
strip_example =
    type_strip_cv-tokens (codes "int*") (codes "const") (codes "char *") (codes "volatile")
      volatile-elem int-nonempty kept-nonempty

language_example :
    parse_language_id (
      codes "ARM" ++ b':' ∷ (codes "LE" ++ b':' ∷ (codes "32" ++ variant_text (some (codes "v8")))))
    ≡ (printed_size (codes "32") (16 ∷ 32 ∷ 64 ∷ []) >>= λ bits.
        some (codes "ARM", codes "LE", bits))
language_example =
    parse_language_id_lem (codes "ARM") (codes "LE") (codes "32") (some (codes "v8")) (ground arith)
      (ground arith) (ground arith)

patterns_example :
    split_pattern_list (with_commas (codes "Objective-C") (codes " Shared Return" ∷ []))
    ≡ items (codes "Objective-C" ∷ codes " Shared Return" ∷ [])
patterns_example =
    split_pattern_list_lem (codes "Objective-C") (codes " Shared Return" ∷ []) (ground arith)
      (ground arith)

-- A session that counts the calls of its one callback.
abbrev counting : CommandCallbacks ℕ
counting = record {
  get_tables = some (λ n. (codes "funcs", n + 1));
  get_schema = none;
  get_info = none;
  save_database = none;
  discard_changes = none;
  refresh_database = none;
  http_status = none;
  http_start = none;
  http_stop = none;
}

command_example : (handle_command (codes ".tables") counting [] 0).0 ≡ (
    if not (starts_with (codes ".") (codes ".tables"))
    then not_handled
    else if elem (codes ".tables") (codes ".quit" ∷ codes ".exit" ∷ codes ".q" ∷ [])
    then quit
    else handled)
command_example = handle_command-result (codes ".tables") counting [] 0
