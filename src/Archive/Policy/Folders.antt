-- ===== src/Archive/Policy/Folders.antt =====
-- What `_normalise` of ewsmcp/archive/policy.py lets through.
use exchange_mcp.Prelude.{
  ◌≡◌, refl, Bool, true, false, List, [], ◌∷◌, ◌++◌, All, All-append, arith, if◌then◌else◌,
  Bool-cases, inl, inr,
}
use exchange_mcp.Text.{
  Text, codes, mem_text, mem_text-append, same_text_comm, starts_with, lower, strip,
}
use exchange_mcp.Archive.Policy.{
  Normalised, ok, value_error, never_archived, non_empty, qualify, normalise, normalise_from,
}

-- A folder key that may be archived.
abbrev pub Allowed : Text → Type 0
Allowed key = (starts_with (codes "f:") key ≡ true) × (mem_text key never_archived ≡ false)

abbrev pub Distinct : List Text → Type 0
Distinct [] = Unit
Distinct (k ∷ ks) = (mem_text k ks ≡ false) × Distinct ks

qualify-prefix : (key : Text) → starts_with (codes "f:") (qualify key) ≡ true
qualify-prefix key = elim (Bool-cases (starts_with (codes "f:") key)) [
  | inl given ↦ rw given given
  | inr bare ↦ rw bare refl
]

Distinct-snoc :
    (k : Text) (ks : List Text) → mem_text k ks ≡ false → Distinct ks → Distinct (ks ++ k ∷ [])
Distinct-snoc k [] h d = (refl, tt)
Distinct-snoc k (j ∷ ks) h d = (
  ground (arith, mem_text-append j ks (k ∷ []), same_text_comm j k),
  Distinct-snoc k ks (ground arith) d.1,
)

-- One key of the loop: it is skipped, already there, or appended.
Good : List Text → Type 0
Good out = All Allowed out × Distinct out

abbrev append_new : Text → List Text → List Text
append_new key out = if mem_text key out then out else out ++ key ∷ []

append_new-Good :
    (key : Text) (out : List Text) → Allowed key → Good out → Good (append_new key out)
unfolding Good
append_new-Good key out a g = elim (Bool-cases (mem_text key out)) [
  | inl old ↦ rw old g
  | inr new ↦ rw new (All-append Allowed out (key ∷ []) g.0 (a, tt), Distinct-snoc key out new g.1)
]

-- What `_normalise` returns or raises.
abbrev pub Checked : Normalised → Type 0
Checked (ok res) = All Allowed res × Distinct res
Checked (value_error key) = mem_text key never_archived ≡ true

normalise_from-Checked : (out keys : List Text) → Good out → Checked (normalise_from out keys)
unfolding normalise_from Good
normalise_from-Checked out [] g = g
normalise_from-Checked out (raw ∷ keys) g =
    key_case (λ o h. normalise_from-Checked o keys h) (non_empty key)
      (mem_text (qualify key) never_archived) refl
  where
    key : Text
    key = lower (strip raw)

    key_case :
        ((o : List Text) → Good o → Checked (normalise_from o keys))
        → (given never : Bool) → mem_text (qualify key) never_archived ≡ never
        → Checked (
            if given
            then (if never
                then value_error (qualify key)
                else normalise_from (append_new (qualify key) out) keys)
            else normalise_from out keys)
    key_case ih false never e = ih out g
    key_case ih true true e = e
    key_case ih true false e =
        ih (append_new (qualify key) out)
          (append_new-Good (qualify key) out (qualify-prefix key, e) g)

-- The keys that `_normalise` returns carry the prefix `f:`, are none of those that are never
-- archived, and are distinct; the key that it raises on is one of the latter.
pub normalise-Checked : (keys : List Text) → Checked (normalise keys)
unfolding normalise Good
normalise-Checked keys = normalise_from-Checked [] keys (tt, tt)
