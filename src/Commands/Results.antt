-- ===== src/Commands/Results.antt =====
-- When a line is a command, when it ends the session, and what it can change.
use ghidrasql.Prelude.{
  Bool, true, false, not, ◌||◌, Option, none, some, [], ◌∷◌, ◌≡◌, refl, inl, inr, if◌then◌else◌,
  Bytes, codes, eqb, starts_with, elem, is_empty, drop, Option-cases,
}
use ghidrasql.Commands.{
  command_help, CommandResult, not_handled, handled, quit, CommandCallbacks, answer, trim,
  schema_command, last_commands, http_command, dispatch, handle_command,
}

module _ {S : Type 0} where
  answer-handled :
      (f : Option (S → Bytes × S)) (absent : Bytes) (s : S) → (answer f absent s).0 ≡ handled
  answer-handled none absent s = refl
  answer-handled (some f) absent s = refl

  -- One test of a chain.
  branch :
      (b : Bool) (x y : CommandResult × Bytes × S)
      → x.0 ≡ handled
      → y.0 ≡ handled
      → (if b then x else y).0 ≡ handled
  branch true x y h k = h
  branch false x y h k = k

  schema_command-handled :
      (input : Bytes) (callbacks : CommandCallbacks S) (s : S)
      → (schema_command input callbacks s).0 ≡ handled
  unfolding schema_command
  schema_command-handled input callbacks s = elim (Option-cases callbacks.get_schema) [
    | inl e ↦ rw e refl
    | inr (f, e) ↦ rw e (
        branch (is_empty (trim (drop 7 input))) (handled, codes "Usage: .schema <table>", s)
          (handled, (f (trim (drop 7 input)) s).0, (f (trim (drop 7 input)) s).1) refl refl)
  ]

  last_commands-handled : (input : Bytes) (s : S) → (last_commands input s).0 ≡ handled
  unfolding last_commands
  last_commands-handled input s =
      branch (eqb input (codes ".help") || eqb input (codes ".h")) (handled, command_help, s)
        (handled, codes "Unknown command. Use .help", s) refl refl

  http_command-handled :
      (input : Bytes) (callbacks : CommandCallbacks S) (s : S)
      → (http_command input callbacks s).0 ≡ handled
  unfolding http_command
  http_command-handled input callbacks s =
      let arg = trim (drop 5 input) in
      branch (is_empty arg) _ _
        (answer-handled callbacks.http_status (codes "http server unavailable") s)
        (branch (eqb arg (codes "start")) _ _
          (answer-handled callbacks.http_start (codes "http server unavailable") s)
          (branch (eqb arg (codes "stop")) _ _
            (answer-handled callbacks.http_stop (codes "http server unavailable") s)
            (branch (eqb arg (codes "help")) _ _ refl (last_commands-handled input s))))

  dispatch-handled :
      (input : Bytes) (callbacks : CommandCallbacks S) (s : S)
      → (dispatch input callbacks s).0 ≡ handled
  unfolding dispatch
  dispatch-handled input callbacks s =
      branch (eqb input (codes ".tables")) _ _ (answer-handled callbacks.get_tables [] s) (
        branch (eqb input (codes ".info")) _ _ (answer-handled callbacks.get_info [] s) (
          branch (eqb input (codes ".save")) _ _
            (answer-handled callbacks.save_database (codes "save not supported") s)
            (branch (eqb input (codes ".discard")) _ _
              (answer-handled callbacks.discard_changes (codes "discard not supported") s)
              (branch (eqb input (codes ".refresh")) _ _
                (answer-handled callbacks.refresh_database (codes "refresh not supported") s)
                (branch (starts_with (codes ".schema") input) _ _
                  (schema_command-handled input callbacks s)
                  (branch (starts_with (codes ".http") input) _ _
                    (http_command-handled input callbacks s) (last_commands-handled input s)))))))

  result_of :
      (dot ends : Bool) (x y z : CommandResult × Bytes × S)
      → x.0 ≡ not_handled
      → y.0 ≡ quit
      → z.0 ≡ handled
      → (if not dot then x else if ends then y else z).0
        ≡ (if not dot then not_handled else if ends then quit else handled)
  result_of false ends x y z h k l = h
  result_of true false x y z h k l = l
  result_of true true x y z h k l = k

-- A line is left alone exactly when it does not begin with a dot, it ends the session exactly when it
-- is one of the three words for that, and each other line is handled, an unknown command too.
pub handle_command-result :
    {S : Type 0} (input : Bytes) (callbacks : CommandCallbacks S) (output : Bytes) (s : S)
    → (handle_command input callbacks output s).0 ≡ (
        if not (starts_with (codes ".") input)
        then not_handled
        else if elem input (codes ".quit" ∷ codes ".exit" ∷ codes ".q" ∷ [])
        then quit
        else handled)
unfolding handle_command
handle_command-result input callbacks output s =
    result_of (starts_with (codes ".") input)
      (elem input (codes ".quit" ∷ codes ".exit" ∷ codes ".q" ∷ [])) (not_handled, output, s)
      (quit, output, s) (dispatch input callbacks s) refl refl (dispatch-handled input callbacks s)
