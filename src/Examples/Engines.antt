-- ===== src/Examples/Engines.antt =====
-- The theorem on scripts at a concrete source: one whose state is its modification number, which each
-- statement that writes raises by one.
use ghidrasql.Prelude.{
  ℕ, suc, pos, true, false, none, some, List, [], ◌∷◌, ◌≡◌, inr, refl, if◌then◌else◌, Bytes, codes,
  eqb,
}
use ghidrasql.Engine.{
  SourceFreshnessToken, token_eqb, QueryResult, Services, Engine, invalidate_all_tables,
  update_last_seen_revision, flush_batch_refresh, refresh_if_needed, note_reports, execute_sql,
  source_changed, run_in_batch, execute_one_in_batch, script_loop, execute_script,
}
use ghidrasql.Engine.Batch.{Done, execute_script-Done}

abbrev token_of : ℕ → SourceFreshnessToken
token_of n = record {
  program_id = codes "p";
  modification_number = pos n;
  program_path = [];
  file_id = [];
  file_version = pos 0;
  file_last_modified_time = pos 0;
}

abbrev fine : QueryResult
fine = record { columns = []; rows = []; error = []; success = true }

abbrev read_statement : Bytes
read_statement = codes "S"

abbrev numbered : Services ℕ ℕ
numbered = record {
  read_freshness_token = λ n. some (token_of n);
  read_program_revision = λ n. none;
  read_program_info_revision = λ n. none;
  refresh_source = λ n. (true, n);
  invalidate_all = λ t. suc t;
  runtime_pragma = λ stmt t. none;
  statement_is_readonly = λ stmt n. inr (eqb stmt read_statement);
  run = λ stmt n t. record {
    result = fine;
    reports = [];
    source_after = if eqb stmt read_statement then n else suc n;
  };
}

abbrev new_engine : Engine ℕ ℕ
new_engine = record {
  source = 3;
  tables = 0;
  is_open = true;
  error = [];
  last_seen_token = none;
  last_seen_revision = pos 0;
  cache_invalidations_total = 0;
  in_batch = false;
  pending_batch_refresh = false;
}

-- A write, a read, and a write at the end.
abbrev script : List Bytes
script = codes "U" ∷ read_statement ∷ codes "U" ∷ []

script-succeeds : (execute_script numbered script new_engine).1 ≡ true
unfolding execute_script script_loop execute_one_in_batch run_in_batch execute_sql note_reports
    source_changed flush_batch_refresh refresh_if_needed invalidate_all_tables
    update_last_seen_revision token_eqb eqb
script-succeeds = refl

script_example :
    Done numbered token_of (λ n. refl) new_engine script (execute_script numbered script new_engine)
script_example =
    execute_script-Done numbered token_of (λ n. refl) script new_engine refl script-succeeds
