-- ===== src/Archive/Policy.antt =====
-- ewsmcp/archive/policy.py: what may be archived, and when. Times are whole seconds, ages of the
-- backup marker too (the source divides by 3600 and compares hours).
pub mod Folders
pub mod Cutoffs
use mathlib.Core.Option
use exchange_mcp.Prelude.{
  ℕ, String, Bool, true, false, Option, none, some, List, [], ◌∷◌, ◌++◌, if◌then◌else◌, select,
  str_eq, map,
}
use exchange_mcp.Prelude.Int.{ℤ, pos, ◌-ℤ◌, leb_ℤ, min_ℤ, max_ℤ, scale}
use exchange_mcp.Text.{Text, codes, mem_text, lower, strip, split_on, starts_with}

abbrev pub never_archived : List Text
never_archived =
    codes "f:calendar"
    ∷ codes "f:contacts"
    ∷ codes "f:tasks"
    ∷ codes "f:drafts"
    ∷ codes "f:outbox"
    ∷ []

abbrev pub day : ℕ
day = 86400

-- A list of keys, or the ValueError of a folder that is never archived.
pub data Normalised : Type 0 where
  ok : List Text → Normalised
  value_error : Text → Normalised

abbrev pub non_empty : Text → Bool
non_empty [] = false
non_empty (c ∷ s) = true

abbrev pub qualify : Text → Text
qualify key = if starts_with (codes "f:") key then key else codes "f:" ++ key

unfoldable pub normalise_from : List Text → List Text → Normalised
unfolding strip
normalise_from out [] = ok out
normalise_from out (raw ∷ keys) =
    let key = lower (strip raw) in
    let skipped = normalise_from out keys in
    let key' = qualify key in
    let next = normalise_from (if mem_text key' out then out else out ++ key' ∷ []) keys in
    if non_empty key
    then (if mem_text key' never_archived then value_error key' else next)
    else skipped

-- `_normalise`, of a list and of a comma-separated text.
unfoldable pub normalise : List Text → Normalised
unfolding normalise_from
normalise = normalise_from []

unfoldable pub normalise_csv : Text → Normalised
unfolding normalise split_on
normalise_csv keys = normalise (split_on b',' keys)

pub record ArchiveSettings : Type 0 where
  pub archive_folders : Text
  pub archive_after_days : ℤ
  pub archive_exclude_categories : Text
  pub archive_grace_days : ℤ
  pub archive_delete_enabled : Bool
  pub archive_delete_auto : Bool
  pub archive_max_delete_per_run : ℕ
  pub archive_min_free_bytes : ℕ
  pub archive_capture_after_days : Option ℤ
  pub archive_backup_stamp : String
  pub archive_backup_max_age_hours : ℤ
  pub archive_backup_hold_max_days : ℤ
  pub archive_max_item_mb : ℕ

pub record ArchivePolicy : Type 0 where
  pub folders : List Text
  pub after_days : ℤ
  pub exclude_categories : List Text
  pub grace_days : ℤ
  pub delete_enabled : Bool
  pub max_delete_per_run : ℕ
  pub min_free_bytes : ℕ
  pub before_ts : Option ℤ
  pub capture_after_days : Option ℤ
  pub backup_stamp : String
  pub backup_max_age_hours : ℤ
  pub backup_hold_max_days : ℤ

-- `tuple(c.strip().lower() for c in text.split(",") if c.strip())`
unfoldable pub categories : Text → List Text
unfolding split_on strip
categories text =
    map (λ c. lower (strip c)) (select (λ c. non_empty (strip c)) (split_on b',' text))

abbrev pub with_folders : ArchiveSettings → Normalised → Option ArchivePolicy
with_folders s (value_error key) = none
with_folders s (ok folders) = some (record {
  folders = folders;
  after_days = s.archive_after_days;
  exclude_categories = categories s.archive_exclude_categories;
  grace_days = max_ℤ (pos 1) s.archive_grace_days;
  delete_enabled = s.archive_delete_enabled;
  max_delete_per_run = s.archive_max_delete_per_run;
  min_free_bytes = s.archive_min_free_bytes;
  before_ts = none;
  capture_after_days = s.archive_capture_after_days;
  backup_stamp = s.archive_backup_stamp;
  backup_max_age_hours = s.archive_backup_max_age_hours;
  backup_hold_max_days = s.archive_backup_hold_max_days;
})

-- `none`: the ValueError of `_normalise`.
unfoldable pub from_settings : ArchiveSettings → Option ArchivePolicy
unfolding normalise_csv categories
from_settings s = with_folders s (normalise_csv s.archive_folders)

abbrev pub override_before : Option ℤ → ArchivePolicy → ArchivePolicy
override_before none p = p
override_before (some t) p = record p { before_ts = some t }

abbrev pub override_folders : Normalised → ArchivePolicy → Option ArchivePolicy
override_folders (value_error key) p = none
override_folders (ok folders) p = some (record p { folders = folders })

-- `before` is already a time stamp: `parse_when` reads the clock and the zone database.
unfoldable pub with_overrides : Option ℤ → List Text → ArchivePolicy → Option ArchivePolicy
unfolding normalise
with_overrides before [] p = some (override_before before p)
with_overrides before (f ∷ fs) p =
    Option.map (override_before before) (override_folders (normalise (f ∷ fs)) p)

unfoldable pub age_cutoff_ts : ArchivePolicy → ℤ → ℤ → ℤ
age_cutoff_ts p days now = elim p.before_ts [ some t ↦ t | none ↦ now -ℤ scale day days ]

abbrev pub capture_days : ArchivePolicy → ℤ
capture_days p = elim p.capture_after_days [
  | none ↦ p.after_days
  | some d ↦ min_ℤ (max_ℤ (pos 0) d) p.after_days
]

unfoldable pub capture_cutoff_ts : ArchivePolicy → ℤ → ℤ
capture_cutoff_ts p now = age_cutoff_ts p (capture_days p) now

unfoldable pub delete_cutoff_ts : ArchivePolicy → ℤ → ℤ
delete_cutoff_ts p now = age_cutoff_ts p p.after_days now -ℤ scale day p.grace_days

unfoldable pub grace_instant_ts : ArchivePolicy → ℤ → ℤ
grace_instant_ts p now = now -ℤ scale day p.grace_days

pub data BackupState : Type 0 where
  off fresh stale expired missing : BackupState

-- `stamped`: the marker's modification time, `none` where `os.stat` fails.
unfoldable pub backup_state : ArchivePolicy → Option ℤ → ℤ → BackupState
backup_state p stamped now = if str_eq p.backup_stamp "" then off else elim stamped [
  | none ↦ missing
  | some t ↦
      let age = now -ℤ t in
      if leb_ℤ age (scale 3600 p.backup_max_age_hours)
      then fresh
      else if leb_ℤ age (scale 86400 p.backup_hold_max_days)
      then stale
      else expired
]

-- `store.folder_ids_for_wk` is handed in; an empty policy selects no folder.
unfoldable pub folder_ids : (List Text → List String) → ArchivePolicy → List String
folder_ids folder_ids_for_wk p = elim p.folders [ [] ↦ [] | f ∷ fs ↦ folder_ids_for_wk (f ∷ fs) ]
