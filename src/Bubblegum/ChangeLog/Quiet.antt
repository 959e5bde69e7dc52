-- ===== src/Bubblegum/ChangeLog/Quiet.antt =====
-- The change log against a database that answers every request.
use das.Prelude.{ℕ, ◌≡◌, refl, sym, Bool, true, false, List, some, String, Text, ◌∙◌, ap}
use das.Database.{
  Database, quiet, ok, request, ◌>>=◌, storage_write_error, change_log_event_malformed,
}
use das.Database.Quiet.{Succeeds, pure-Succeeds, bind-Succeeds, or_raise-Succeeds}
use das.Bubblegum.Types.{Crates, ChangeLogEventV1}
use das.Bubblegum.ChangeLog.{
  insert_backfill_item, ignore_error, when, insert_path, finish_change_log, insert_change_log,
  save_changelog_event,
}
use das.Bubblegum.ChangeLog.Order.{insert_path-quiet}

insert_path-Succeeds : (e : ChangeLogEventV1) (i : ℕ) → Succeeds (insert_path e i e.path) tt
insert_path-Succeeds e i = record {
  run = λ d.
      insert_path-quiet e i e.path d
      ∙ sym (ap (λ r. (ok tt, quiet r.1.db)) (insert_path-quiet e i e.path d));
}

when-Succeeds :
    (e : ChangeLogEventV1) (slot : ℕ) (b : Bool)
    → Succeeds (when b (insert_backfill_item e slot)) tt
unfolding insert_backfill_item request ◌>>=◌
when-Succeeds e slot true = record { run = λ d. refl }
when-Succeeds e slot false = pure-Succeeds tt

ignored :
    (f : Database → Unit {0} × Database)
    → Succeeds (ignore_error (request storage_write_error f)) tt
unfolding ignore_error request
ignored f = record { run = λ d. refl }

pub save_changelog_event-Succeeds :
    (crates : Crates) (e : ChangeLogEventV1) (slot : ℕ) (txn_id : Text) (s : String)
    (bytes : List ℕ)
    → crates.bs58_decode txn_id ≡ some bytes
    → Succeeds (save_changelog_event crates e slot txn_id s) e.seq
unfolding save_changelog_event insert_change_log finish_change_log
save_changelog_event-Succeeds crates e slot txn_id s bytes h =
    bind-Succeeds _
      (bind-Succeeds _ (insert_path-Succeeds e 0) (
        bind-Succeeds _ (or_raise-Succeeds change_log_event_malformed h)
          (bind-Succeeds _ (ignored _) (when-Succeeds e slot _))))
      (pure-Succeeds e.seq)
