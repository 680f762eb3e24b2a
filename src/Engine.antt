-- ===== src/Engine.antt =====
-- The query engine of src/lib/src/database.cpp: when the caches of its tables are thrown away, for a
-- single statement and for a batch. The source, the table registry and SQLite are an interface: the
-- readers of a source's state, what invalidates a registry's caches, and what a statement does. The
-- time limits of a query, and the fields of a result that only measure it, are left out.
pub mod Batch
use ghidrasql.Prelude.{
  ℕ, suc, ℤ, pos, negsuc, ◌⊎◌, inl, inr, ◌-◌, ◌^◌, eqb_ℤ, Bool, true, false, not, ◌&&◌, ◌||◌,
  Option, none, some, List, [], ◌∷◌, ◌++◌, ◌==◌, if◌then◌else◌, leb, Bytes, codes, eqb, is_alnum,
  is_empty, length, any,
}
use ghidrasql.Memory.Words.{int64_min}

pub record SourceFreshnessToken : Type 0 where
  pub program_id : Bytes
  pub modification_number : ℤ
  pub program_path : Bytes
  pub file_id : Bytes
  pub file_version : ℤ
  pub file_last_modified_time : ℤ

unfoldable pub token_eqb : SourceFreshnessToken → SourceFreshnessToken → Bool
token_eqb a b =
    eqb a.program_id b.program_id
    && (eqb_ℤ a.modification_number b.modification_number
        && (eqb a.program_path b.program_path
            && (eqb a.file_id b.file_id
                && (eqb_ℤ a.file_version b.file_version
                    && eqb_ℤ a.file_last_modified_time b.file_last_modified_time))))

pub record QueryResult : Type 0 where
  pub columns : List Bytes
  pub rows : List (List Bytes)
  pub error : Bytes
  pub success : Bool

abbrev pub failed : Bytes → QueryResult
failed message = record { columns = []; rows = []; error = message; success = false }

-- What a statement does: its result, the states of the source at which its SQL functions report a
-- change, and the state of the source behind it.
pub record Effect (S : Type 0) : Type 0 where
  pub result : QueryResult
  pub reports : List S
  pub source_after : S

-- The source's readers, the registry's invalidation, the runtime pragmas (`none` for a text that is
-- none), SQLite's preparation (a message, or whether the statement only reads) and its execution.
pub record Services (S T : Type 0) : Type 0 where
  pub read_freshness_token : S → Option SourceFreshnessToken
  pub read_program_revision : S → Option ℤ
  pub read_program_info_revision : S → Option ℤ
  pub refresh_source : S → Bool × S
  pub invalidate_all : T → T
  pub runtime_pragma : Bytes → T → Option (QueryResult × T)
  pub statement_is_readonly : Bytes → S → Bytes ⊎ Bool
  pub run : Bytes → S → T → Effect S

pub record Engine (S T : Type 0) : Type 0 where
  pub source : S
  pub tables : T
  pub is_open : Bool
  pub error : Bytes
  pub last_seen_token : Option SourceFreshnessToken
  pub last_seen_revision : ℤ
  pub cache_invalidations_total : ℕ
  pub in_batch : Bool
  pub pending_batch_refresh : Bool

-- What a reader gives, or else the value that stands.
abbrev pub or_else : Option ℤ → ℤ → ℤ
or_else none d = d
or_else (some r) d = r

-- Whether the last seen token is another one, or there is none.
abbrev pub token_differs : SourceFreshnessToken → Option SourceFreshnessToken → Bool
token_differs token none = true
token_differs token (some seen) = not (token_eqb token seen)

module _ {S T : Type 0} (services : Services S T) where
  unfoldable pub invalidate_all_tables : Engine S T → Engine S T
  invalidate_all_tables e = record e {
    tables = services.invalidate_all e.tables;
    cache_invalidations_total = suc e.cache_invalidations_total;
  }

  unfoldable pub update_last_seen_revision : Engine S T → Engine S T
  update_last_seen_revision e = elim (services.read_freshness_token e.source) [
    | some token ↦ record e {
      last_seen_token = some token;
      last_seen_revision = token.modification_number;
    }
    | none ↦ record e {
      last_seen_token = none;
      last_seen_revision =
          or_else (services.read_program_revision e.source)
            (or_else (services.read_program_info_revision e.source) e.last_seen_revision);
    }
  ]

  unfoldable pub flush_batch_refresh : Engine S T → Engine S T
  unfolding invalidate_all_tables update_last_seen_revision
  flush_batch_refresh e = record (update_last_seen_revision (invalidate_all_tables e)) {
    pending_batch_refresh = false;
  }

  unfoldable pub note_source_mutation : Engine S T → Engine S T
  unfolding invalidate_all_tables update_last_seen_revision
  note_source_mutation e =
      if e.in_batch
      then record e { pending_batch_refresh = true }
      else update_last_seen_revision (invalidate_all_tables e)

  unfoldable pub refresh_if_needed : Engine S T → Engine S T
  unfolding invalidate_all_tables token_eqb
  refresh_if_needed e = elim (services.read_freshness_token e.source) [
    | some token ↦
        if token_differs token e.last_seen_token
        then invalidate_all_tables (record e {
          last_seen_token = some token;
          last_seen_revision = token.modification_number;
        })
        else e
    | none ↦ elim (services.read_program_revision e.source) [
      | some revision ↦
          if eqb_ℤ e.last_seen_revision int64_min || not (eqb_ℤ revision e.last_seen_revision)
          then invalidate_all_tables
              (record e { last_seen_token = none; last_seen_revision = revision })
          else record e { last_seen_token = none }
      | none ↦ invalidate_all_tables (record e {
        last_seen_token = none;
        last_seen_revision = or_else (services.read_program_info_revision e.source) (pos 0);
      })
    ]
  ]

  unfoldable pub current_revision : S → ℤ
  current_revision s = elim (services.read_freshness_token s) [
    | some token ↦ token.modification_number
    | none ↦
        or_else (services.read_program_revision s)
          (or_else (services.read_program_info_revision s) (pos 0))
  ]

  -- The reports of a statement's SQL functions, each at the state of the source when it is made.
  unfoldable pub note_reports : List S → Engine S T → Engine S T
  unfolding note_source_mutation
  note_reports [] e = e
  note_reports (s ∷ reports) e =
      note_reports reports (note_source_mutation (record e { source = s }))

  -- The guard around a statement invalidates the registry before and after it.
  unfoldable pub execute_sql : Bytes → Engine S T → QueryResult × Engine S T
  unfolding note_reports
  execute_sql sql e =
      let start = services.invalidate_all e.tables in
      let effect = services.run sql e.source start in
      let after = note_reports effect.reports (record e { tables = start }) in
      if not e.is_open
      then (
        failed (codes "database is not open"),
        record e { error = codes "database is not open" },
      )
      else (
        effect.result,
        record after {
          source = effect.source_after;
          tables = services.invalidate_all after.tables;
          error = effect.result.error;
        },
      )

  -- Whether a statement changed the source, by the tokens if both are there, else by the revision.
  unfoldable pub source_changed : S → S → Bool
  unfolding current_revision token_eqb
  source_changed before after = elim (services.read_freshness_token before) [
    | none ↦ not (eqb_ℤ (current_revision after) (current_revision before))
    | some x ↦ elim (services.read_freshness_token after) [
      | none ↦ not (eqb_ℤ (current_revision after) x.modification_number)
      | some y ↦ not (token_eqb y x)
    ]
  ]

  -- The statement itself, once it is known whether it only reads.
  unfoldable pub run_in_batch : Bytes → Bool → Engine S T → QueryResult × Engine S T
  unfolding flush_batch_refresh execute_sql source_changed
  run_in_batch stmt readonly e =
      let ready = if e.pending_batch_refresh && readonly then flush_batch_refresh e else e in
      let done = execute_sql stmt ready in
      if not done.0.success
      then done
      else if not readonly || source_changed ready.source done.1.source
      then (done.0, record done.1 { pending_batch_refresh = true })
      else done

  unfoldable pub execute_one_in_batch : Bytes → Engine S T → QueryResult × Engine S T
  unfolding run_in_batch
  execute_one_in_batch stmt e = elim (services.runtime_pragma stmt e.tables) [
    | some (result, tables) ↦
        (result, record e { tables = tables; error = if result.success then [] else result.error })
    | none ↦ elim (services.statement_is_readonly stmt e.source) [
      | inl message ↦ (failed message, record e { error = message })
      | inr readonly ↦ run_in_batch stmt readonly e
    ]
  ]

  -- The loop of `execute_script`: the results, whether all statements succeeded, the first error.
  unfoldable pub script_loop :
      List Bytes → Engine S T → List QueryResult × Bool × Bytes × Engine S T
  unfolding execute_one_in_batch
  script_loop [] e = ([], true, [], e)
  script_loop (stmt ∷ statements) e =
      let one = execute_one_in_batch stmt e in
      let rest = script_loop statements one.1 in
      if one.0.success
      then (one.0 ∷ rest.0, rest.1, rest.2, rest.3)
      else (one.0 ∷ [], false, one.0.error, one.1)

  -- `execute_script` on the statements that the script was cut into; `BatchScope` puts the two flags
  -- back at the end.
  unfoldable pub execute_script :
      List Bytes → Engine S T → List QueryResult × Bool × Bytes × Engine S T
  unfolding refresh_if_needed flush_batch_refresh script_loop
  execute_script statements e =
      let start = record (refresh_if_needed e) { in_batch = true; pending_batch_refresh = false } in
      let ran = script_loop statements start in
      let flushed = if ran.3.pending_batch_refresh then flush_batch_refresh ran.3 else ran.3 in
      let restore : Engine S T → Engine S T =
        λ x. record x { in_batch = e.in_batch; pending_batch_refresh = e.pending_batch_refresh } in
      if not e.is_open
      then (
        [],
        false,
        codes "database is not open",
        record e { error = codes "database is not open" },
      )
      else if is_empty statements
      then ([], true, [], record e { error = [] })
      else if ran.1
      then (ran.0, true, [], restore (record flushed { error = [] }))
      else (ran.0, false, ran.2, restore ran.3)

  pub refresh : Engine S T → Bool × Engine S T
  unfolding invalidate_all_tables update_last_seen_revision
  refresh e =
      let asked = services.refresh_source e.source in
      let moved = record e { source = asked.1; pending_batch_refresh = false } in
      (asked.0, if asked.0 then update_last_seen_revision (invalidate_all_tables moved) else moved)

pub is_safe_identifier : Bytes → Bool
is_safe_identifier text =
    if is_empty text || not (leb (length text) 128)
    then false
    else not (any (λ c. not (is_alnum c || c == b'_')) text)
