-- ===== src/Archive/Passes.antt =====
-- ewsmcp/archive/runner.py: the kinds of a pass, the counters of the workers and of the pass, and
-- the pass's row in `ews.archive_runs` (`start_run` and `finish_run` of ewsmcp/cache/store.py).
use exchange_mcp.Prelude.{
  ℕ, ◌+◌, String, Bool, true, false, Option, none, some, List, [], ◌∷◌, if◌then◌else◌, str_eq, ◌==◌,
  ◌||◌,
}

pub data Kind : Type 0 where
  capture verify delete embed gc all : Kind

-- KINDS
unfoldable pub kind_of : String → Option Kind
kind_of s =
    if str_eq s "capture"
    then some capture
    else if str_eq s "verify"
    then some verify
    else if str_eq s "delete"
    then some delete
    else if str_eq s "embed"
    then some embed
    else if str_eq s "gc"
    then some gc
    else if str_eq s "all"
    then some all
    else none

abbrev pub kind_eq : Kind → Kind → Bool
kind_eq capture capture = true
kind_eq verify verify = true
kind_eq delete delete = true
kind_eq embed embed = true
kind_eq gc gc = true
kind_eq all all = true
kind_eq _ _ = false

-- `kind in (k, "all")`
abbrev pub lane_of : Kind → Kind → Bool
lane_of k kind = kind_eq kind k || kind_eq kind all

pub record CaptureResult : Type 0 where
  pub candidates : ℕ
  pub captured : ℕ
  pub failed : ℕ
  pub too_large : ℕ
  pub stopped : Option String
  pub sample : List String

pub record VerifyResult : Type 0 where
  pub verified : ℕ
  pub reset : ℕ
  pub failed : ℕ

pub record EmbedResult : Type 0 where
  pub embedded : ℕ
  pub error : Option String

pub record GcResult : Type 0 where
  pub scanned : ℕ
  pub removed_files : ℕ
  pub removed_bytes : ℕ
  pub kept_recent : ℕ
  pub error : Option String
  pub summary : String

pub record DeleteResult : Type 0 where
  pub eligible : ℕ
  pub deleted : ℕ
  pub failed : ℕ
  pub blocked : Option String
  pub held : Option String
  pub warning : Option String
  pub sample : List String

-- What `_run_once_locked` returns.
pub record Out : Type 0 where
  pub ok : Bool
  pub candidates : ℕ
  pub captured : ℕ
  pub verified : ℕ
  pub reset : ℕ
  pub deleted : ℕ
  pub eligible : ℕ
  pub embedded : ℕ
  pub failed : ℕ
  pub too_large : ℕ
  pub blocked : Option String
  pub stopped : Option String
  pub error : Option String
  pub sample : List String
  pub gc : Option GcResult

abbrev pub fresh_out : Out
fresh_out = record {
  ok = true;
  candidates = 0;
  captured = 0;
  verified = 0;
  reset = 0;
  deleted = 0;
  eligible = 0;
  embedded = 0;
  failed = 0;
  too_large = 0;
  blocked = none;
  stopped = none;
  error = none;
  sample = [];
  gc = none;
}

-- A row of `ews.archive_runs`.
pub record RunRow : Type 0 where
  pub id : ℕ
  pub kind : Kind
  pub dry_run : Bool
  pub finished : Bool
  pub captured : ℕ
  pub verified : ℕ
  pub deleted : ℕ
  pub failed : ℕ
  pub error : Option String
  pub sample : List String

abbrev pub or_else {ℓ} : {A : Type ℓ} → Option A → Option A → Option A
or_else (some a) next = some a
or_else none next = next

-- `if not out["sample"]`
abbrev pub or_sample : List String → List String → List String
or_sample [] next = next
or_sample (x ∷ xs) next = x ∷ xs

abbrev pub merge_capture : CaptureResult → Out → Out
merge_capture res out = record out {
  candidates = res.candidates;
  captured = res.captured;
  failed = out.failed + res.failed;
  too_large = res.too_large;
  stopped = res.stopped;
  sample = res.sample;
}

abbrev pub merge_verify : VerifyResult → Out → Out
merge_verify res out = record out {
  verified = res.verified;
  reset = res.reset;
  failed = out.failed + res.failed;
}

abbrev pub merge_embed : EmbedResult → Out → Out
merge_embed res out = record out { embedded = res.embedded; error = or_else res.error out.error }

abbrev pub merge_gc : GcResult → Out → Out
merge_gc res out = record out {
  gc = some res;
  sample = res.summary ∷ [];
  error = or_else res.error out.error;
}

abbrev pub merge_delete : DeleteResult → Out → Out
merge_delete res out = record out {
  eligible = res.eligible;
  deleted = res.deleted;
  failed = out.failed + res.failed;
  blocked = res.blocked;
  stopped = or_else out.stopped (or_else res.held res.warning);
  sample = or_sample out.sample res.sample;
}

abbrev pub close_row : Out → RunRow → RunRow
close_row out r = record r {
  finished = true;
  captured = out.captured;
  verified = out.verified;
  deleted = out.deleted;
  failed = out.failed;
  error = or_else out.error out.stopped;
  sample = out.sample;
}

-- UPDATE ews.archive_runs … WHERE id = run_id
unfoldable pub finish_run : ℕ → Out → List RunRow → List RunRow
finish_run id out [] = []
finish_run id out (r ∷ rs) = (if r.id == id then close_row out r else r) ∷ finish_run id out rs

abbrev pub open_row : ℕ → Kind → Bool → RunRow
open_row id kind dry_run = record {
  id = id;
  kind = kind;
  dry_run = dry_run;
  finished = false;
  captured = 0;
  verified = 0;
  deleted = 0;
  failed = 0;
  error = none;
  sample = [];
}
