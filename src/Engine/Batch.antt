-- ===== src/Engine/Batch.antt =====
-- What a batch of statements leaves behind, for a source that has a freshness token.
use ghidrasql.Prelude.{
  suc, eqb_ℤ_iff, Bool, true, false, not, ◌&&◌, ◌||◌, Option, none, some, List, [], ◌∷◌, ◌≡◌, ◌⊎◌,
  inl, inr, refl, sym, ap, ◌∙◌, arith, if◌then◌else◌, Bytes, codes, eqb_iff, is_empty, length, All,
  Bool-cases, Option-cases,
}
use ghidrasql.Engine.{
  SourceFreshnessToken, token_eqb, token_differs, QueryResult, Services, Engine, failed,
  flush_batch_refresh, note_source_mutation, refresh_if_needed, update_last_seen_revision,
  invalidate_all_tables, note_reports, execute_sql, source_changed, run_in_batch,
  execute_one_in_batch, script_loop, execute_script,
}

token_eqb→ : (a b : SourceFreshnessToken) → token_eqb a b ≡ true → a ≡ b
unfolding token_eqb
token_eqb→ a b h =
    let p = eqb_iff a.program_id b.program_id in
    let q = eqb_ℤ_iff a.modification_number b.modification_number in
    let r = eqb_iff a.program_path b.program_path in
    let s = eqb_iff a.file_id b.file_id in
    let t = eqb_ℤ_iff a.file_version b.file_version in
    let u = eqb_ℤ_iff a.file_last_modified_time b.file_last_modified_time in ground arith

module _ {S T : Type 0} (services : Services S T) (token : S → SourceFreshnessToken)
    (tracked : (s : S) → services.read_freshness_token s ≡ some (token s)) where
  -- Unless a refresh is pending, the last seen token is the source's.
  abbrev InStep : Engine S T → Type 0
  InStep e = e.pending_batch_refresh ≡ false → e.last_seen_token ≡ some (token e.source)

  -- The engine once it has seen the source's token.
  abbrev see : Engine S T → Engine S T
  see e = record e {
    last_seen_token = some (token e.source);
    last_seen_revision = (token e.source).modification_number;
  }

  update-see : (e : Engine S T) → update_last_seen_revision services e ≡ see e
  unfolding update_last_seen_revision
  update-see e = rw (update_last_seen_revision, tracked e.source) refl

  flush-see :
      (e : Engine S T)
      → flush_batch_refresh services e
        ≡ record (see (invalidate_all_tables services e)) { pending_batch_refresh = false }
  unfolding flush_batch_refresh invalidate_all_tables
  flush-see e =
      ap (λ (x : Engine S T). let y : Engine S T = record x { pending_batch_refresh = false } in y)
        (update-see (invalidate_all_tables services e))

  flush-seen :
      (e : Engine S T)
      → ((flush_batch_refresh services e).last_seen_token
          ≡ some (token (flush_batch_refresh services e).source))
        × ((flush_batch_refresh services e).in_batch ≡ e.in_batch)
  unfolding invalidate_all_tables
  flush-seen e = rw (flush-see e) (refl, refl)

  refresh-seen :
      (e : Engine S T)
      → (refresh_if_needed services e).last_seen_token
        ≡ some (token (refresh_if_needed services e).source)
  unfolding refresh_if_needed invalidate_all_tables
  refresh-seen e = elim (Bool-cases (token_differs (token e.source) e.last_seen_token)) [
    | inl d ↦ rw (refresh_if_needed, tracked e.source, d) refl
    | inr d ↦
        rw (refresh_if_needed, tracked e.source, d) (same (token e.source) e.last_seen_token d)
  ]
    where
      same :
          (t : SourceFreshnessToken) (o : Option SourceFreshnessToken)
          → token_differs t o ≡ false
          → o ≡ some t
      same t none k = cc
      same t (some u) k = ap some (sym (token_eqb→ t u (ground arith)))

  -- What the reports of a statement in a batch can change.
  record Quiet (e f : Engine S T) : Type 0 where
    seen : f.last_seen_token ≡ e.last_seen_token
    batch : f.in_batch ≡ true
    pending : f.pending_batch_refresh ≡ false → e.pending_batch_refresh ≡ false

  note-batch :
      (e : Engine S T)
      → e.in_batch ≡ true
      → note_source_mutation services e ≡ record e { pending_batch_refresh = true }
  unfolding note_source_mutation
  note-batch e h = rw (note_source_mutation, h) refl

  note_reports-Quiet :
      (reports : List S) (e : Engine S T)
      → e.in_batch ≡ true
      → Quiet e (note_reports services reports e)
  unfolding note_reports
  note_reports-Quiet [] e h = record { seen = refl; batch = h; pending = λ k. k }
  note_reports-Quiet (s ∷ reports) e h =
      let moved : Engine S T = record e { source = s } in
      let next : Engine S T = record moved { pending_batch_refresh = true } in
      let q = note_reports-Quiet reports next h in
      rw (note_reports, note-batch moved h)
        (record {
          seen = q.seen;
          batch = q.batch;
          pending = λ k. absurd (true-ne-false (q.pending k));
        })
    where
      true-ne-false : true ≡ false → ⊥
      true-ne-false k = cc

  execute_sql-Quiet :
      (sql : Bytes) (e : Engine S T) → e.in_batch ≡ true → Quiet e (execute_sql services sql e).1
  unfolding execute_sql
  execute_sql-Quiet sql e h =
      let start = services.invalidate_all e.tables in
      let begun : Engine S T = record e { tables = start } in
      let q = note_reports-Quiet (services.run sql e.source start).reports begun h in
      choose (not e.is_open)
        (failed (codes "database is not open"), record e { error = codes "database is not open" })
        (
          _,
          record (note_reports services (services.run sql e.source start).reports begun) {
            source = (services.run sql e.source start).source_after;
            tables =
                services.invalidate_all
                  (note_reports services (services.run sql e.source start).reports begun).tables;
            error = (services.run sql e.source start).result.error;
          },
        )
        (record { seen = refl; batch = h; pending = λ k. k })
        (record { seen = q.seen; batch = q.batch; pending = q.pending })
    where
      choose :
          (b : Bool) (x y : QueryResult × Engine S T)
          → Quiet e x.1
          → Quiet e y.1
          → Quiet e (if b then x else y).1
      choose true x y p q = p
      choose false x y p q = q

  source_changed-token :
      (s t : S) → source_changed services s t ≡ false → some (token s) ≡ some (token t)
  unfolding source_changed
  source_changed-token s t h = ap some (
      sym (
        token_eqb→ (token t) (token s) (
          not_false (token_eqb (token t) (token s))
            (rw (source_changed, tracked s, tracked t) at h))))
    where
      not_false : (b : Bool) → not b ≡ false → b ≡ true
      not_false b k = ground arith

  -- The engine when a statement begins.
  abbrev ready : Bool → Engine S T → Engine S T
  ready readonly e =
      if e.pending_batch_refresh && readonly then flush_batch_refresh services e else e

  ready-batch :
      (readonly : Bool) (e : Engine S T) → e.in_batch ≡ true → (ready readonly e).in_batch ≡ true
  ready-batch readonly e h = elim (Bool-cases (e.pending_batch_refresh && readonly)) [
    | inl k ↦ rw k ((flush-seen e).1 ∙ h)
    | inr k ↦ rw k h
  ]

  ready-seen :
      (e : Engine S T)
      → InStep e
      → (ready true e).last_seen_token ≡ some (token (ready true e).source)
  ready-seen e h = elim (Bool-cases (e.pending_batch_refresh && true)) [
    | inl k ↦ rw k (flush-seen e).0
    | inr k ↦ rw k (h (no_refresh e.pending_batch_refresh k))
  ]
    where
      no_refresh : (b : Bool) → (b && true) ≡ false → b ≡ false
      no_refresh b k = ground arith

  -- What a statement that succeeds leaves.
  abbrev Kept : QueryResult × Engine S T → Type 0
  Kept done = (done.1.in_batch ≡ true) × InStep done.1

  run_in_batch-Kept :
      (stmt : Bytes) (readonly : Bool) (e : Engine S T)
      → e.in_batch ≡ true
      → InStep e
      → (run_in_batch services stmt readonly e).0.success ≡ true
      → Kept (run_in_batch services stmt readonly e)
  unfolding run_in_batch
  run_in_batch-Kept stmt readonly e h k ok =
      let begun = ready readonly e in
      let done = execute_sql services stmt begun in
      let q = execute_sql-Quiet stmt begun (ready-batch readonly e h) in
      elim (Bool-cases done.0.success) [
        | inr f ↦ absurd (false-ne-true (sym f ∙ (rw (run_in_batch, f) at ok)))
        | inl f ↦
            elim (Bool-cases (not readonly || source_changed services begun.source done.1.source)) [
              | inl c ↦ rw (run_in_batch, f, c) (q.batch, λ p. absurd (false-ne-true (sym p)))
              | inr c ↦
                  rw (run_in_batch, f, c)
                    (
                      q.batch,
                      λ p.
                          q.seen
                          ∙ only_reads readonly c
                          ∙ source_changed-token begun.source done.1.source (unchanged readonly c),
                    )
            ]
      ]
    where
      false-ne-true : false ≡ true → ⊥
      false-ne-true p = cc

      unchanged : (r : Bool) {x : Bool} → (not r || x) ≡ false → x ≡ false
      unchanged r c = ground arith

      only_reads :
          (r : Bool)
          → (not r
              || source_changed services
                  (ready r e).source
                  (execute_sql services stmt (ready r e)).1.source)
            ≡ false
          → (ready r e).last_seen_token ≡ some (token (ready r e).source)
      only_reads true c = ready-seen e k
      only_reads false c = absurd (false-ne-true (sym c))

  Sum-cases : {A B : Type 0} (x : A ⊎ B) → ((a : A) × (x ≡ inl a)) ⊎ ((b : B) × (x ≡ inr b))
  Sum-cases (inl a) = inl (a, refl)
  Sum-cases (inr b) = inr (b, refl)

  execute_one_in_batch-Kept :
      (stmt : Bytes) (e : Engine S T)
      → e.in_batch ≡ true
      → InStep e
      → (execute_one_in_batch services stmt e).0.success ≡ true
      → Kept (execute_one_in_batch services stmt e)
  unfolding execute_one_in_batch
  execute_one_in_batch-Kept stmt e h k ok =
      elim (Option-cases (services.runtime_pragma stmt e.tables)) [
        | inr ((result, tables), p) ↦ rw (execute_one_in_batch, p) (h, k)
        | inl p ↦ elim (Sum-cases (services.statement_is_readonly stmt e.source)) [
          | inl (message, r) ↦ absurd (false-ne-true (rw (execute_one_in_batch, p, r) at ok))
          | inr (readonly, r) ↦
              rw (execute_one_in_batch, p, r)
                (run_in_batch-Kept stmt readonly e h k (rw (execute_one_in_batch, p, r) at ok))
        ]
      ]
    where
      false-ne-true : false ≡ true → ⊥
      false-ne-true q = cc

  abbrev pub Succeeded : QueryResult → Type 0
  Succeeded r = r.success ≡ true

  -- What a loop that runs through leaves.
  abbrev Through : List Bytes → List QueryResult × Bool × Bytes × Engine S T → Type 0
  Through statements ran = (length ran.0 ≡ length statements) × All Succeeded ran.0 × InStep ran.3

  script_loop-Through :
      (statements : List Bytes) (e : Engine S T)
      → e.in_batch ≡ true
      → InStep e
      → (script_loop services statements e).1 ≡ true
      → Through statements (script_loop services statements e)
  unfolding script_loop
  script_loop-Through [] e h k ok = (refl, tt, k)
  script_loop-Through (stmt ∷ statements) e h k ok =
      let one = execute_one_in_batch services stmt e in
      elim (Bool-cases one.0.success) [
        | inr f ↦ absurd (false-ne-true (rw (script_loop, f) at ok))
        | inl f ↦
            let kept = execute_one_in_batch-Kept stmt e h k f in
            let rest =
              script_loop-Through statements one.1 kept.0 kept.1 (rw (script_loop, f) at ok) in
            rw (script_loop, f) (ap suc rest.0, (f, rest.1), rest.2)
      ]
    where
      false-ne-true : false ≡ true → ⊥
      false-ne-true q = cc

  choose_if :
      {A : Type 0} (P : A → Type 0) (b : Bool) (x y : A)
      → (b ≡ true → P x)
      → (b ≡ false → P y)
      → P (if b then x else y)
  choose_if P true x y f g = f refl
  choose_if P false x y f g = g refl

  flushed-seen :
      (e : Engine S T)
      → InStep e
      → (if e.pending_batch_refresh then flush_batch_refresh services e else e).last_seen_token
        ≡ some
            (token (if e.pending_batch_refresh then flush_batch_refresh services e else e).source)
  flushed-seen e h =
      choose_if (λ x. x.last_seen_token ≡ some (token x.source)) e.pending_batch_refresh
        (flush_batch_refresh services e) e (λ k. (flush-seen e).0) h

  -- What a script that succeeds leaves of an engine.
  abbrev pub Done : Engine S T → List Bytes → List QueryResult × Bool × Bytes × Engine S T → Type 0
  Done e statements out =
      (length out.0 ≡ length statements)
      × All Succeeded out.0
      × (out.3.last_seen_token ≡ some (token out.3.source))
      × (out.3.in_batch ≡ e.in_batch)
      × (out.3.pending_batch_refresh ≡ e.pending_batch_refresh)

  outcome :
      (P : List QueryResult × Bool × Bytes × Engine S T → Type 0) (open_db ran : Bool)
      (x z w : List QueryResult × Bool × Bytes × Engine S T)
      → x.1 ≡ false
      → w.1 ≡ false
      → (if not open_db then x else if ran then z else w).1 ≡ true
      → (ran ≡ true → P z)
      → P (if not open_db then x else if ran then z else w)
  outcome P true true x z w h k ok f = f refl
  outcome P true false x z w h k ok f = absurd (false-ne-true (sym k ∙ ok))
    where
      false-ne-true : false ≡ true → ⊥
      false-ne-true q = cc
  outcome P false ran x z w h k ok f = absurd (false-ne-true (sym h ∙ ok))
    where
      false-ne-true : false ≡ true → ⊥
      false-ne-true q = cc

  -- A script of at least one statement that succeeds has one result for each statement, all of them
  -- successes; behind it the last seen token is the one of the source, whatever the statements wrote,
  -- and the two flags are as they were.
  pub execute_script-Done :
      (statements : List Bytes) (e : Engine S T)
      → is_empty statements ≡ false
      → (execute_script services statements e).1 ≡ true
      → Done e statements (execute_script services statements e)
  unfolding execute_script
  execute_script-Done [] e n ok = absurd (true-ne-false n)
    where
      true-ne-false : true ≡ false → ⊥
      true-ne-false q = cc
  execute_script-Done (stmt ∷ statements) e n ok =
      let begun : Engine S T = record (refresh_if_needed services e) {
        in_batch = true;
        pending_batch_refresh = false;
      } in
      let ran = script_loop services (stmt ∷ statements) begun in
      outcome (Done e (stmt ∷ statements)) e.is_open ran.1 _ _ _ refl refl ok (λ r.
        let t = script_loop-Through (stmt ∷ statements) begun refl (λ k. refresh-seen e) r in
        (t.0, t.1, flushed-seen ran.3 t.2, refl, refl))
