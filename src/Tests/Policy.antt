-- ===== src/Tests/Policy.antt =====
-- Settings read into a policy.
use exchange_mcp.Prelude.{◌≡◌, refl, true, false, none, some, [], ◌∷◌}
use exchange_mcp.Prelude.Int.{pos, negsuc}
use exchange_mcp.Text.{codes}
use exchange_mcp.Archive.Policy.{
  ArchiveSettings, ArchivePolicy, ok, value_error, normalise, normalise_csv,
}
use exchange_mcp.Archive.Policy.Folders.{Checked, normalise-Checked}

abbrev settings : ArchiveSettings
settings = record {
  archive_folders = codes " Inbox,f:sent ,inbox,";
  archive_after_days = pos 180;
  archive_exclude_categories = codes "Keep, ";
  archive_grace_days = negsuc 4;
  archive_delete_enabled = true;
  archive_delete_auto = false;
  archive_max_delete_per_run = 200;
  archive_min_free_bytes = 2_000_000_000;
  archive_capture_after_days = some (pos 0);
  archive_backup_stamp = "";
  archive_backup_max_age_hours = pos 48;
  archive_backup_hold_max_days = pos 10;
  archive_max_item_mb = 50;
}

normalise_runs :
    (normalise_csv (codes " Inbox,f:sent ,inbox,") ≡ ok (codes "f:inbox" ∷ codes "f:sent" ∷ []))
    × (normalise_csv (codes "inbox,Drafts") ≡ value_error (codes "f:drafts"))
unfolding normalise_csv normalise
normalise_runs = (refl, refl)

normalise-Checked_example : Checked (normalise (codes "Inbox" ∷ codes "inbox" ∷ []))
normalise-Checked_example = normalise-Checked (codes "Inbox" ∷ codes "inbox" ∷ [])

abbrev policy : ArchivePolicy
policy = record {
  folders = codes "f:inbox" ∷ codes "f:sent" ∷ [];
  after_days = pos 180;
  exclude_categories = codes "keep" ∷ [];
  grace_days = pos 1;
  delete_enabled = true;
  max_delete_per_run = 200;
  min_free_bytes = 2_000_000_000;
  before_ts = none;
  capture_after_days = some (pos 0);
  backup_stamp = "";
  backup_max_age_hours = pos 48;
  backup_hold_max_days = pos 10;
}
