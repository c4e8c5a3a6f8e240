-- ===== src/Store/Consistent.antt =====
-- The archive columns of a row and its state, under the writes of ewsmcp/cache/store.py.
use mathlib.Core.Bool.{false≢true}
use mathlib.Core.Path.{subst}
use exchange_mcp.Prelude.{
  arith, ℕ, String, ◌≡◌, refl, Bool, true, false, Option, none, some, List, [], ◌∷◌, All,
  All-select, All-if, is_some, ◌&&◌, ◌||◌, mem_str,
}
use exchange_mcp.Prelude.Int.{ℤ}
use exchange_mcp.Store.Rows.{
  ArchiveState, live, captured, verified, deleted, Mirror, Message, Store, has_id, in_state,
  state_eq, update_where, All-update_where,
}
use exchange_mcp.Store.Mirror.{upsert_row, upsert_rows, set_flag_status}
use exchange_mcp.Store.Chunks.{Repair, repair_row, repair_rows}
use exchange_mcp.Store.Writes.{Write, write, write_all}

-- What `archived_at`, `verified_at`, `deleted_at`, `mime_sha256` and `captured_changekey` hold in
-- each state.
abbrev pub Columns :
    ArchiveState → Option ℤ → Option ℤ → Option ℤ → Option String → Option String → Type 0
Columns live archived_at verified_at deleted_at sha changekey =
    (archived_at ≡ none)
    × (verified_at ≡ none)
    × (deleted_at ≡ none)
    × (sha ≡ none)
    × (changekey ≡ none)
Columns captured archived_at verified_at deleted_at sha changekey =
    (is_some archived_at ≡ true) × (verified_at ≡ none) × (deleted_at ≡ none) × (is_some sha ≡ true)
Columns verified archived_at verified_at deleted_at sha changekey =
    (is_some archived_at ≡ true)
    × (is_some verified_at ≡ true)
    × (deleted_at ≡ none)
    × (is_some sha ≡ true)
Columns deleted archived_at verified_at deleted_at sha changekey =
    (is_some archived_at ≡ true) × (is_some deleted_at ≡ true) × (is_some sha ≡ true)

abbrev pub ColumnsOf : ArchiveState → Message → Type 0
ColumnsOf t m =
    Columns t m.archived_at m.verified_at m.deleted_at m.mime_sha256 m.captured_changekey

abbrev pub Consistent : Message → Type 0
Consistent m = ColumnsOf m.archive_state m

abbrev pub IsConsistent : Store → Type 0
IsConsistent s = All Consistent s.messages

upsert_row-Consistent :
    (j : String) (r : Mirror) (ms : List Message)
    → All Consistent ms
    → All Consistent (upsert_row j r ms)
unfolding upsert_row
upsert_row-Consistent j r [] h = ((refl, refl, refl, refl, refl), tt)
upsert_row-Consistent j r (x ∷ xs) h =
    All-if Consistent (has_id j x) _ _ (h.0, h.1) (h.0, upsert_row-Consistent j r xs h.1)

upsert_rows-Consistent :
    (rows : List (String × Mirror)) (ms : List Message)
    → All Consistent ms
    → All Consistent (upsert_rows rows ms)
unfolding upsert_rows
upsert_rows-Consistent [] ms h = h
upsert_rows-Consistent ((j, r) ∷ rows) ms h =
    upsert_rows-Consistent rows (upsert_row j r ms) (upsert_row-Consistent j r ms h)

set_flag_status-Consistent :
    (pairs : List (String × Option ℕ)) (s : Store)
    → IsConsistent s
    → IsConsistent (set_flag_status pairs s)
unfolding set_flag_status
set_flag_status-Consistent [] s h = h
set_flag_status-Consistent ((j, status) ∷ pairs) s h =
    set_flag_status-Consistent pairs
      (record s { messages = update_where (has_id j) flag s.messages })
      (All-update_where Consistent (has_id j) flag (λ m e c. c) s.messages h)
  where
    flag : Message → Message
    flag m = record m { mirror = record m.mirror { flag_status = status } }

repair_rows-Consistent :
    (rs : List Repair) (s : Store) → IsConsistent s → IsConsistent (repair_rows rs s).store
unfolding repair_rows
repair_rows-Consistent [] s h = h
repair_rows-Consistent (r ∷ rs) s h =
    repair_rows-Consistent rs
      (record s { messages = update_where (has_id r.ews_id) (repair_row r) s.messages })
      (All-update_where Consistent (has_id r.ews_id) (repair_row r) (λ m e c. c) s.messages h)

-- What the guards of the UPDATEs say of the columns, one lemma for each target state.
state_guard : (b : Bool) (s t : ArchiveState) → (b && state_eq s t) ≡ true → s ≡ t
state_guard true s t g = ground arith
state_guard false s t g = cc

ColumnsOf-guard :
    (b : Bool) (m : Message) (t : ArchiveState)
    → Consistent m
    → (b && in_state t m) ≡ true
    → ColumnsOf t m
ColumnsOf-guard b m t c g = subst (λ u. ColumnsOf u m) (state_guard b m.archive_state t g) c

-- What a server delete leaves of a row that it buries.
buried :
    (b : Bool) (t : ArchiveState) (a v d : Option ℤ) (sha ck : Option String)
    → Columns t a v d sha ck
    → (b && (state_eq t captured || state_eq t verified)) ≡ true
    → (is_some a ≡ true) × (is_some sha ≡ true)
buried false t a v d sha ck c g = absurd (false≢true g)
buried true live a v d sha ck c g = absurd (false≢true g)
buried true captured a v d sha ck c g = (c.0, c.3)
buried true verified a v d sha ck c g = (c.0, c.3)
buried true deleted a v d sha ck c g = (c.0, c.2)

pub write-IsConsistent : (w : Write) (s : Store) → IsConsistent s → IsConsistent (write w s)
unfolding write
write-IsConsistent (Write.upsert rows) s h = upsert_rows-Consistent rows s.messages h
write-IsConsistent (Write.read_flag ids b) s h =
    All-update_where Consistent _ (λ m. record m { mirror = record m.mirror { is_read = b } })
      (λ m e c. c) s.messages h
write-IsConsistent (Write.flag_status pairs) s h = set_flag_status-Consistent pairs s h
write-IsConsistent (Write.drop_folder f) s h = All-select Consistent _ s.messages h
write-IsConsistent (Write.delete_by_id ids) s h = All-select Consistent _ s.messages h
write-IsConsistent (Write.categories j cs) s h =
    All-update_where Consistent (has_id j) _ (λ m e c. c) s.messages h
write-IsConsistent (Write.embed now j chunks) s h =
    All-update_where Consistent (has_id j) _ (λ m e c. c) s.messages h
write-IsConsistent (Write.embedded now ids) s h =
    All-update_where Consistent (λ m. mem_str m.ews_id ids)
      (λ m. record m { embedded_at = some now }) (λ m e c. c) s.messages h
write-IsConsistent (Write.repair repairs) s h = repair_rows-Consistent repairs s h
write-IsConsistent (Write.capture now j sha path ck) s h =
    All-update_where Consistent _ _
      (λ m e c. let k = ColumnsOf-guard (has_id j m) m live c e in (refl, k.1, k.2, refl))
      s.messages h
write-IsConsistent (Write.verify now j) s h =
    All-update_where Consistent _ _
      (λ m e c. let k = ColumnsOf-guard (has_id j m) m captured c e in (k.0, refl, k.2, k.3))
      s.messages h
write-IsConsistent (Write.demote j) s h =
    All-update_where Consistent _ _
      (λ m e c. let k = ColumnsOf-guard (has_id j m) m verified c e in (k.0, refl, k.2, k.3))
      s.messages h
write-IsConsistent (Write.reset j) s h =
    All-update_where Consistent _ _
      (λ m e c.
        let k = ColumnsOf-guard (has_id j m) m captured c e in (refl, refl, k.2, refl, refl))
      s.messages h
write-IsConsistent (Write.bury now ids) s h =
    All-update_where Consistent _ _
      (λ m e c. let k = ColumnsOf-guard (mem_str m.ews_id ids) m verified c e in (k.0, refl, k.3))
      s.messages h
write-IsConsistent (Write.server_delete now ids) s h = All-select Consistent _ _ (
    All-update_where Consistent _ _
      (λ m e c.
        let k =
          buried (mem_str m.ews_id ids) m.archive_state m.archived_at m.verified_at m.deleted_at
            m.mime_sha256 m.captured_changekey c e in
        (k.0, refl, k.1))
      s.messages h)
write-IsConsistent (Write.attach j rows) s h = h

-- From a store whose rows are consistent, any sequence of writes leads to such a store.
pub write_all-IsConsistent :
    (ws : List Write) (s : Store) → IsConsistent s → IsConsistent (write_all ws s)
unfolding write_all
write_all-IsConsistent [] s h = h
write_all-IsConsistent (w ∷ ws) s h =
    write_all-IsConsistent ws (write w s) (write-IsConsistent w s h)
