-- ===== src/Commands.antt =====
-- The dot commands of src/lib/src/commands.cpp. A callback is absent or acts on the state of the
-- session that it belongs to; the output is the text that the caller passed in until a branch
-- assigns it.
pub mod Results
use ghidrasql.Prelude.{
  ℕ, Bool, true, false, not, ◌&&◌, ◌||◌, Option, none, some, List, [], ◌∷◌, ◌++◌, reverse, ◌==◌,
  if◌then◌else◌, Bytes, codes, eqb, starts_with, elem, is_empty, drop, take,
}

pub data CommandResult : Type 0 where
  not_handled handled quit : CommandResult

pub record CommandCallbacks (S : Type 0) : Type 0 where
  pub get_tables : Option (S → Bytes × S)
  pub get_schema : Option (Bytes → S → Bytes × S)
  pub get_info : Option (S → Bytes × S)
  pub save_database : Option (S → Bytes × S)
  pub discard_changes : Option (S → Bytes × S)
  pub refresh_database : Option (S → Bytes × S)
  pub http_status : Option (S → Bytes × S)
  pub http_start : Option (S → Bytes × S)
  pub http_stop : Option (S → Bytes × S)

is_blank : ℕ → Bool
is_blank c = c == b' ' || c == 9

drop_blanks : Bytes → Bytes
unfolding is_blank
drop_blanks [] = []
drop_blanks (c ∷ s) = let rest = drop_blanks s in if is_blank c then rest else c ∷ s

unfoldable pub trim : Bytes → Bytes
unfolding drop_blanks
trim input = reverse (drop_blanks (reverse (drop_blanks input)))

pub http_help : Bytes
http_help =
    codes "HTTP Commands:\n"
    ++ codes "  .http        show status\n"
    ++ codes "  .http start  start server\n"
    ++ codes "  .http stop   stop server\n"

pub command_help : Bytes
command_help =
    codes "ghidrasql commands:\n"
    ++ codes "  .tables           list all SQL tables and views\n"
    ++ codes "  .schema <table>   show table or view schema\n"
    ++ codes "  .info             show database metadata\n"
    ++ codes "  .save             save pending changes (source-specific)\n"
    ++ codes "  .discard          discard pending changes (source-specific)\n"
    ++ codes "  .refresh          refresh source live readers and invalidate caches\n"
    ++ codes "  .quit/.exit/.q    quit the REPL\n"
    ++ codes "  .help             show this help\n"
    ++ codes "  .http             show HTTP status\n"
    ++ codes "  .http start       start HTTP server\n"
    ++ codes "  .http stop        stop HTTP server\n"

module _ {S : Type 0} where
  -- A callback's answer, or the text for a callback that is absent.
  abbrev pub answer : Option (S → Bytes × S) → Bytes → S → CommandResult × Bytes × S
  answer none absent s = (handled, absent, s)
  answer (some f) absent s = (handled, (f s).0, (f s).1)

  schema_command : Bytes → CommandCallbacks S → S → CommandResult × Bytes × S
  schema_command input callbacks s =
      let table = trim (drop 7 input) in
      elim callbacks.get_schema [
        | none ↦ (handled, codes "schema callback not configured", s)
        | some f ↦
            if is_empty table
            then (handled, codes "Usage: .schema <table>", s)
            else (handled, (f table s).0, (f table s).1)
      ]

  -- The commands behind the `.http` test: `.help` and what is unknown.
  last_commands : Bytes → S → CommandResult × Bytes × S
  unfolding command_help
  last_commands input s =
      if eqb input (codes ".help") || eqb input (codes ".h")
      then (handled, command_help, s)
      else (handled, codes "Unknown command. Use .help", s)

  http_command : Bytes → CommandCallbacks S → S → CommandResult × Bytes × S
  unfolding http_help last_commands
  http_command input callbacks s =
      let arg = trim (drop 5 input) in
      if is_empty arg
      then answer callbacks.http_status (codes "http server unavailable") s
      else if eqb arg (codes "start")
      then answer callbacks.http_start (codes "http server unavailable") s
      else if eqb arg (codes "stop")
      then answer callbacks.http_stop (codes "http server unavailable") s
      else if eqb arg (codes "help")
      then (handled, http_help, s)
      else last_commands input s

  -- What follows the tests for no command and for the end.
  dispatch : Bytes → CommandCallbacks S → S → CommandResult × Bytes × S
  unfolding schema_command http_command last_commands
  dispatch input callbacks s =
      if eqb input (codes ".tables")
      then answer callbacks.get_tables [] s
      else if eqb input (codes ".info")
      then answer callbacks.get_info [] s
      else if eqb input (codes ".save")
      then answer callbacks.save_database (codes "save not supported") s
      else if eqb input (codes ".discard")
      then answer callbacks.discard_changes (codes "discard not supported") s
      else if eqb input (codes ".refresh")
      then answer callbacks.refresh_database (codes "refresh not supported") s
      else if starts_with (codes ".schema") input
      then schema_command input callbacks s
      else if starts_with (codes ".http") input
      then http_command input callbacks s
      else last_commands input s

  pub handle_command : Bytes → CommandCallbacks S → Bytes → S → CommandResult × Bytes × S
  unfolding dispatch
  handle_command input callbacks output s =
      if not (starts_with (codes ".") input)
      then (not_handled, output, s)
      else if elem input (codes ".quit" ∷ codes ".exit" ∷ codes ".q" ∷ [])
      then (quit, output, s)
      else dispatch input callbacks s
