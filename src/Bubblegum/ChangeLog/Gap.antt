-- ===== src/Bubblegum/ChangeLog/Gap.antt =====
-- insert_change_log of db.rs: the parts of the database that its statements do not touch.
use das.Prelude.{refl, ◌≡◌, ◌+◌, ℕ, Bool, true, false, List, [], ◌∷◌, String, Text}
use das.Database.{Database, Action, storage_write_error, change_log_event_malformed}
use das.Database.Rollback.{
  Keeps, KeepsAssets, request-Keeps, bind-Keeps, pure-Keeps, or_raise-Keeps,
}
use das.Bubblegum.Types.{Crates, ChangeLogEventV1, PathNode}
use das.Bubblegum.ChangeLog.{
  insert_path, insert_backfill_item, ignore_error, when, insert_change_log, save_changelog_event,
  put_cl_item,
}

-- A part of the database that neither the path nor the audit row belongs to.
pub record IsApart {X : Type 0} (view : Database → X) : Type 0 where
  pub path :
      (e : ChangeLogEventV1) (i : ℕ) (p : PathNode) (d : Database)
      → view (record d { cl_items = put_cl_item e i p d.cl_items }) ≡ view d

pub insert_path-Keeps :
    {X : Type 0} {view : Database → X} (apart : IsApart view) (e : ChangeLogEventV1) (i : ℕ)
    (ps : List PathNode)
    → Keeps view (insert_path e i ps)
unfolding insert_path
insert_path-Keeps apart e i [] = pure-Keeps tt
insert_path-Keeps apart e i (p ∷ ps) =
    bind-Keeps (request-Keeps storage_write_error _ (apart.path e i p))
      (λ _. insert_path-Keeps apart e (i + 1) ps)

pub ignore_error-Keeps :
    {X : Type 0} {view : Database → X} {m : Action (Unit {0})}
    → Keeps view m
    → Keeps view (ignore_error m)
unfolding ignore_error
ignore_error-Keeps h = record { same = λ w. h.same w }

when-KeepsAssets : (b : Bool) {m : Action (Unit {0})} → KeepsAssets m → KeepsAssets (when b m)
when-KeepsAssets true h = h
when-KeepsAssets false h = pure-Keeps tt

insert_backfill_item-KeepsAssets :
    (e : ChangeLogEventV1) (slot : ℕ) → KeepsAssets (insert_backfill_item e slot)
unfolding insert_backfill_item
insert_backfill_item-KeepsAssets e slot =
    bind-Keeps (request-Keeps storage_write_error _ (λ d. refl))
      (λ known. request-Keeps storage_write_error _ (λ d. refl))

insert_change_log-KeepsAssets :
    (crates : Crates) (e : ChangeLogEventV1) (slot : ℕ) (txn_id : Text) (s : String)
    → KeepsAssets (insert_change_log crates e slot txn_id s)
unfolding insert_change_log
insert_change_log-KeepsAssets crates e slot txn_id s =
    bind-Keeps (insert_path-Keeps (record { path = λ e i p d. refl }) e 0 e.path) λ _.
      bind-Keeps (or_raise-Keeps (crates.bs58_decode txn_id) change_log_event_malformed) λ b.
        bind-Keeps (ignore_error-Keeps (request-Keeps storage_write_error _ (λ d. refl)))
          λ _. when-KeepsAssets _ (insert_backfill_item-KeepsAssets e slot)

pub save_changelog_event-KeepsAssets :
    (crates : Crates) (e : ChangeLogEventV1) (slot : ℕ) (txn_id : Text) (s : String)
    → KeepsAssets (save_changelog_event crates e slot txn_id s)
unfolding save_changelog_event
save_changelog_event-KeepsAssets crates e slot txn_id s =
    bind-Keeps (insert_change_log-KeepsAssets crates e slot txn_id s) λ _. pure-Keeps e.seq
