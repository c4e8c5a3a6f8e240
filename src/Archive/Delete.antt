-- ===== src/Archive/Delete.antt =====
-- ewsmcp/archive/delete.py: one batch of the deleter. Exceptions of the gateway, the disk and the
-- database are inputs (`Environment`), one for each batch; `others` is what other processes did
-- to the store before the batch was recorded. `upstream` lists the items that Exchange deleted.
pub mod Run
pub mod Accounted
pub mod Accounting
pub mod LastMile
pub mod Safety
use exchange_mcp.Prelude.{
  ℕ, ◌+◌, String, Bool, true, false, not, ◌&&◌, Option, none, some, List, [], ◌∷◌, ◌++◌, map,
  if◌then◌else◌, str_eq, option_str_eq, mem_str, length, select, ◌==◌,
}
use exchange_mcp.Prelude.Int.{ℤ}
use exchange_mcp.Store.Rows.{ArchiveState, Message, Store, find_row, in_state}
use exchange_mcp.Store.Archive.{attachments_for, demote_to_captured, mark_deleted}
use exchange_mcp.Archive.Files.{Disk, Check, passed, Problem, check_copy, truthy}
use exchange_mcp.Archive.Files

pub data Reason : Type 0 where
  unusable : Check → Reason
  stale_changekey : Reason
  failed : String → Reason

pub data AuditRecord : Type 0 where
  archive_delete : String → AuditRecord
  archive_delete_skipped : String → Reason → AuditRecord

pub record World : Type 0 where
  pub store : Store
  pub audit : List AuditRecord
  pub upstream : List String

-- What a fetch returns for one id: an error, or the item's changekey and what `delete()` raises.
pub data Fetched : Type 0 where
  missing : String → Fetched
  item : Option String → Option String → Fetched

pub record Environment : Type 0 where
  pub now : ℤ
  pub disk : Disk
  pub attachments_down : String → Bool
  pub demote_down : String → Bool
  pub gateway : Option (List Fetched)
  pub others : Store → Store
  pub mark_down : Bool
  pub lookup_down : Bool

-- `_copy_problem`
unfoldable pub copy_problem : Environment → Store → Message → Check
unfolding check_copy attachments_for
copy_problem env s row = elim row.mime_sha256 [
  | none ↦ Files.problem Problem.no_sha
  | some sha ↦
      if str_eq sha ""
      then Files.problem Problem.no_sha
      else check_copy env.disk sha
          (if env.attachments_down row.ews_id then none else some (attachments_for row.ews_id s))
]

abbrev pub is_passed : Check → Bool
is_passed passed = true
is_passed _ = false

-- The demotion of a row whose copy is unusable; an error of the store is only logged.
abbrev pub try_demote : Environment → String → Store → Store
try_demote env i s = if env.demote_down i then s else (demote_to_captured i s).0

-- A chunk after `_unusable_copies`: the reasons of the unusable rows, the rows that stay in the
-- batch (the ids are a dict's keys, so these are the ids not among the former), and the store.
pub record Sifted : Type 0 where
  pub bad : List (String × Reason)
  pub batch : List Message
  pub store : Store

abbrev pub keep_row : Message → Sifted → Sifted
keep_row row rest = record rest { batch = row ∷ rest.batch }

abbrev pub refuse_row : Message → Check → Sifted → Sifted
refuse_row row check rest = record rest { bad = (row.ews_id, unusable check) ∷ rest.bad }

unfoldable pub unusable_copies : Environment → List Message → Store → Sifted
unfolding copy_problem demote_to_captured
unusable_copies env [] s = record { bad = []; batch = []; store = s }
unusable_copies env (row ∷ rows) s =
    let check = copy_problem env s row in
    let good = unusable_copies env rows s in
    let bad = unusable_copies env rows (try_demote env row.ews_id s) in
    if is_passed check then keep_row row good else refuse_row row check bad

abbrev pub ids_of : List (String × Reason) → List String
ids_of pairs = map (λ p. p.0) pairs

pub data Verdict : Type 0 where
  done : Verdict
  skipped : Reason → Verdict

-- One item of `_delete_batch`: deleted only if both changekeys are there and equal.
unfoldable pub judge : Message → Fetched → Verdict
judge row (missing e) = skipped (failed e)
judge row (item live_ck raises) =
    if truthy row.captured_changekey
      && truthy live_ck
      && option_str_eq live_ck row.captured_changekey
    then (elim raises [ none ↦ done | some e ↦ skipped (failed e) ])
    else skipped stale_changekey

-- `complete`: neither side of `zip(…, strict=True)` ran out first.
pub record BatchOutcome : Type 0 where
  pub done : List String
  pub reasons : List (String × Reason)
  pub complete : Bool

abbrev pub record_verdict : String → Verdict → BatchOutcome → BatchOutcome
record_verdict i Verdict.done out = record out { done = i ∷ out.done }
record_verdict i (skipped r) out = record out { reasons = (i, r) ∷ out.reasons }

unfoldable pub delete_batch : List Message → List Fetched → BatchOutcome
unfolding judge
delete_batch [] [] = record { done = []; reasons = []; complete = true }
delete_batch [] (f ∷ fetched) = record { done = []; reasons = []; complete = false }
delete_batch (row ∷ rows) [] = record { done = []; reasons = []; complete = false }
delete_batch (row ∷ rows) (f ∷ fetched) =
    record_verdict row.ews_id (judge row f) (delete_batch rows fetched)

-- `_persist_skips`; `audit.record` never raises.
unfoldable pub persist_skips : List (String × Reason) → World → World
persist_skips pairs w = record w {
  audit = w.audit ++ map (λ p. archive_delete_skipped p.0 p.1) pairs;
}

abbrev pub add_to : ℕ → Option ℕ → Option ℕ
add_to n none = none
add_to n (some m) = some (n + m)

-- `_requeue`: `none` if a demotion raises; those before it stay.
unfoldable pub requeue : Environment → List String → Store → Option ℕ × Store
unfolding demote_to_captured
requeue env [] s = (some 0, s)
requeue env (i ∷ ids) s =
    let (s', n) = demote_to_captured i s in
    let (total, s'') = requeue env ids s' in
    if env.demote_down i then (none, s) else (add_to n total, s'')

abbrev pub is_deleted : Store → String → Bool
is_deleted s i = elim (find_row i s.messages) [
  | none ↦ false
  | some m ↦ in_state ArchiveState.deleted m
]

-- `_persist_batch`: the ids that did not transition, or `none` if the store raises.
unfoldable pub persist_batch : Environment → List String → World → Option (List String) × World
unfolding mark_deleted
persist_batch env deleted w =
    let (s, marked) = mark_deleted env.now deleted w.store in
    let unmarked =
      if marked == length deleted then [] else select (λ i. not (is_deleted s i)) deleted in
    let recorded = select (λ i. not (mem_str i unmarked)) deleted in
    if env.mark_down
    then (none, w)
    else if not (marked == length deleted) && env.lookup_down
    then (none, record w { store = s })
    else (some unmarked, record w { store = s; audit = w.audit ++ map archive_delete recorded })
