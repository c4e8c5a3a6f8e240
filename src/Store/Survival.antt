-- ===== src/Store/Survival.antt =====
-- How a row is found after an UPDATE, a DELETE or an upsert of ewsmcp/cache/store.py.
use mathlib.Core.Bool.{false≢true}
use exchange_mcp.Prelude.{
  ℕ, ◌||◌, String, ◌≡◌, refl, ◌≢◌, ◌⊎◌, inl, inr, Bool, true, false, ◌&&◌, not, select, ap, str_eq,
  ◌∙◌, Option, some, List, [], ◌∷◌, arith, if◌then◌else◌, Bool-cases, str_eq-eq, mem_str,
}
use exchange_mcp.Store.Rows.{
  ArchiveState, live, captured, verified, deleted, Mirror, Message, Store, has_id, in_state,
  state_eq, update_where, delete_where, find_row,
}
use exchange_mcp.Store.Mirror.{upsert_row, upsert_rows, set_flag_status}
use exchange_mcp.Store.Chunks.{Repair, repair_row, repair_rows}
use exchange_mcp.Store.Writes.{Step}

-- `m'` is the archived row `m` after a write.
pub record KeptAs (m m' : Message) : Type 0 where
  pub step : Step m.archive_state m'.archive_state
  pub mime : (m'.archive_state ≡ live) ⊎ (m'.mime_sha256 ≡ m.mime_sha256)

pub KeptAs-refl : (m : Message) → KeptAs m m
KeptAs-refl m = record { step = Step.stay m.archive_state; mime = inr refl }

some-eq : {m m' : Message} → some m ≡ some m' → m ≡ m'
some-eq h = cc

-- The state that a guard of an UPDATE asks for.
state_eq-eq : (s t : ArchiveState) → state_eq s t ≡ true → s ≡ t
state_eq-eq s t h = ground arith

pub guarded :
    (b : Bool) (m : Message) {s : ArchiveState} → (b && in_state s m) ≡ true → m.archive_state ≡ s
guarded true m {s} h = state_eq-eq m.archive_state s h
guarded false m h = cc

module _ (p : Message → Bool) (f : Message → Message) where
  has_id-if :
      ((m : Message) → (f m).ews_id ≡ m.ews_id)
      → (i : String) (m : Message) → has_id i (if p m then f m else m) ≡ has_id i m
  has_id-if same i m = go (p m)
    where
      go : (b : Bool) → has_id i (if b then f m else m) ≡ has_id i m
      go true = ap (λ (j : String). str_eq j i) (same m)
      go false = refl

  pub find_row-update_where :
      ((m : Message) → (f m).ews_id ≡ m.ews_id)
      → (i : String) (ms : List Message) {m : Message} → find_row i ms ≡ some m
      → find_row i (update_where p f ms) ≡ some (if p m then f m else m)
  find_row-update_where same i [] h = cc
  find_row-update_where same i (x ∷ xs) {m} h =
      rw (has_id-if same i x) (elim (Bool-cases (has_id i x)) [
        | inl e ↦ rw e (ap (λ (y : Message). some (if p y then f y else y)) (some-eq (rw e at h)))
        | inr e ↦ rw e (find_row-update_where same i xs (rw e at h))
      ])

  pub KeptAs-if : (m : Message) → (p m ≡ true → KeptAs m (f m)) → KeptAs m (if p m then f m else m)
  KeptAs-if m h = go (p m) refl
    where
      go : (b : Bool) → p m ≡ b → KeptAs m (if b then f m else m)
      go true e = h e
      go false e = KeptAs-refl m

  pub update_where-KeptAs :
      ((m : Message) → (f m).ews_id ≡ m.ews_id)
      → (i : String) (ms : List Message) {m : Message} → find_row i ms ≡ some m
      → (p m ≡ true → KeptAs m (f m))
      → (m' : Message) × (find_row i (update_where p f ms) ≡ some m') × KeptAs m m'
  update_where-KeptAs same i ms {m} h k =
      (if p m then f m else m, find_row-update_where same i ms h, KeptAs-if m k)

pub find_row-delete_where :
    (p : Message → Bool) (i : String) (ms : List Message) {m : Message}
    → find_row i ms ≡ some m
    → p m ≡ false
    → find_row i (delete_where p ms) ≡ some m
find_row-delete_where p i [] h k = cc
find_row-delete_where p i (x ∷ xs) {m} h k = elim (Bool-cases (has_id i x)) [
  | inl e ↦
      let same : x ≡ m = some-eq (rw e at h) in
      let kept : p x ≡ false = rw same k in rw kept (rw e (ap some same))
  | inr e ↦ skip (p x) (rw e) (find_row-delete_where p i xs (rw e at h) k)
]
  where
    skip :
        (b : Bool)
        → find_row i (x ∷ select (λ y. not (p y)) xs) ≡ find_row i (select (λ y. not (p y)) xs)
        → find_row i (select (λ y. not (p y)) xs) ≡ some m
        → find_row i (if not b then x ∷ select (λ y. not (p y)) xs else select (λ y. not (p y)) xs)
          ≡ some m
    skip true e r = r
    skip false e r = e ∙ r

-- A write that leaves every archive column of the row alone.
abbrev SameArchive : Message → Message → Type 0
SameArchive m m' = (m'.archive_state ≡ m.archive_state) × (m'.mime_sha256 ≡ m.mime_sha256)

pub KeptAs-same : (m m' : Message) → SameArchive m m' → KeptAs m m'
KeptAs-same m m' h = record { step = rw h.0 (Step.stay m.archive_state); mime = inr h.1 }

abbrev Keeps : Message → String → List Message → Type 0
Keeps m i ms = (m' : Message) × (find_row i ms ≡ some m') × SameArchive m m'

find_row-upsert_row :
    (j : String) (r : Mirror) (i : String) (ms : List Message) {m : Message}
    → find_row i ms ≡ some m
    → Keeps m i (upsert_row j r ms)
unfolding upsert_row
find_row-upsert_row j r i [] h = cc
find_row-upsert_row j r i (x ∷ xs) {m} h = elim (Bool-cases (has_id i x)) [
  | inl e ↦ here e (has_id j x) (some-eq (rw e at h))
  | inr e ↦ later e (has_id j x) (find_row-upsert_row j r i xs (rw e at h))
]
  where
    after : Bool → List Message
    after b = if b then record x { mirror = r } ∷ xs else x ∷ upsert_row j r xs

    here : has_id i x ≡ true → (b : Bool) → x ≡ m → Keeps m i (after b)
    here e true same = (
      record x { mirror = r },
      rw e,
      (ap (λ y. y.archive_state) same, ap (λ y. y.mime_sha256) same),
    )
    here e false same = (m, rw e (ap some same), (refl, refl))

    later : has_id i x ≡ false → (b : Bool) → Keeps m i (upsert_row j r xs) → Keeps m i (after b)
    later e true k = (m, rw e (rw e at h), (refl, refl))
    later e false k = (k.0, rw e k.1, k.2)

pub find_row-upsert_rows :
    (rows : List (String × Mirror)) (i : String) (ms : List Message) {m : Message}
    → find_row i ms ≡ some m
    → Keeps m i (upsert_rows rows ms)
unfolding upsert_rows
find_row-upsert_rows [] i ms {m} h = (m, h, (refl, refl))
find_row-upsert_rows ((j, r) ∷ rows) i ms h =
    let (m1, found, same) = find_row-upsert_row j r i ms h in
    let (m2, found2, same2) = find_row-upsert_rows rows i (upsert_row j r ms) found in
    (m2, found2, (same2.0 ∙ same.0, same2.1 ∙ same.1))

pub find_row-set_flag_status :
    (pairs : List (String × Option ℕ)) (i : String) (s : Store) {m : Message}
    → find_row i s.messages ≡ some m
    → Keeps m i (set_flag_status pairs s).messages
unfolding set_flag_status
find_row-set_flag_status [] i s {m} h = (m, h, (refl, refl))
find_row-set_flag_status ((j, status) ∷ pairs) i s {m} h =
    let s1 : Store = record s { messages = update_where (has_id j) flag s.messages } in
    let m1 : Message = if has_id j m then flag m else m in
    let (m2, found2, same2) =
      find_row-set_flag_status pairs i s1
        (find_row-update_where (has_id j) flag (λ y. refl) i s.messages h) in
    let same : SameArchive m m1 = flagged (has_id j m) in
    (m2, found2, (same2.0 ∙ same.0, same2.1 ∙ same.1))
  where
    flag : Message → Message
    flag y = record y { mirror = record y.mirror { flag_status = status } }

    flagged : (b : Bool) → SameArchive m (if b then flag m else m)
    flagged true = (refl, refl)
    flagged false = (refl, refl)

pub find_row-repair_rows :
    (rs : List Repair) (i : String) (s : Store) {m : Message}
    → find_row i s.messages ≡ some m
    → Keeps m i (repair_rows rs s).store.messages
unfolding repair_rows
find_row-repair_rows [] i s {m} h = (m, h, (refl, refl))
find_row-repair_rows (r ∷ rs) i s {m} h =
    let s1 : Store = record s {
      messages = update_where (has_id r.ews_id) (repair_row r) s.messages;
    } in
    let m1 : Message = if has_id r.ews_id m then repair_row r m else m in
    let (m2, found2, same2) =
      find_row-repair_rows rs i s1
        (find_row-update_where (has_id r.ews_id) (repair_row r) (λ y. refl) i s.messages h) in
    let same : SameArchive m m1 = repaired (has_id r.ews_id m) in
    (m2, found2, (same2.0 ∙ same.0, same2.1 ∙ same.1))
  where
    repaired : (b : Bool) → SameArchive m (if b then repair_row r m else m)
    repaired true = (refl, refl)
    repaired false = (refl, refl)

-- The row that is found under an id bears it.
pub find_row-Spared :
    (i : String) (ids : List String) (ms : List Message) {m : Message}
    → find_row i ms ≡ some m
    → mem_str i ids ≡ false
    → mem_str m.ews_id ids ≡ false
find_row-Spared i ids [] h k = cc
find_row-Spared i ids (x ∷ xs) {m} h k = elim (Bool-cases (has_id i x)) [
  | inl e ↦
      let same : x ≡ m = some-eq (rw e at h) in
      let own : m.ews_id ≡ i = rw (← same) (str_eq-eq x.ews_id i e) in rw own k
  | inr e ↦ find_row-Spared i ids xs (rw e at h) k
]

abbrev pub Survives : Message → String → Store → Type 0
Survives m i s = (m' : Message) × (find_row i s.messages ≡ some m') × KeptAs m m'

pub Survives-Keeps :
    (m : Message) (i : String) (ms : List Message)
    → Keeps m i ms
    → (m' : Message) × (find_row i ms ≡ some m') × KeptAs m m'
Survives-Keeps m i ms k = (k.0, k.1, KeptAs-same m k.0 k.2)

pub not_live_of :
    (m : Message) → m.archive_state ≢ live → (b : Bool) → (b && in_state live m) ≡ false
not_live_of m h true = elim (Bool-cases (in_state live m)) [
  | inl e ↦ absurd (h (state_eq-eq m.archive_state live e))
  | inr e ↦ e
]
not_live_of m h false = refl

-- A row that a server delete buries was captured or verified.
pub buried :
    (b : Bool) (m : Message)
    → (b && (in_state captured m || in_state verified m)) ≡ true
    → Step m.archive_state deleted
buried false m e = absurd (false≢true e)
buried true m e = go m.archive_state e
  where
    go : (t : ArchiveState) → (state_eq t captured || state_eq t verified) ≡ true → Step t deleted
    go live e = absurd (false≢true e)
    go captured e = Step.bury_captured
    go verified e = Step.bury_verified
    go deleted e = Step.stay deleted
