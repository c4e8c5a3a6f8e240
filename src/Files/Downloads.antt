-- ===== src/Files/Downloads.antt =====
-- ewsmcp/downloads.py: one-time download links. `resolve` is `Path.resolve`, as the components of
-- the path; `is_file` looks at the disk. The names and the content type of the answer are left out.
pub mod Contained
use exchange_mcp.Prelude.{
  ℕ, suc, String, Bool, true, false, not, ◌&&◌, ◌||◌, Option, none, some, List, [], ◌∷◌, ◌++◌,
  if◌then◌else◌, str_eq,
}
use exchange_mcp.Prelude.Int.{ℤ, ◌+ℤ◌, ltb_ℤ, min_ℤ, pos}
use exchange_mcp.Text.{Text, codes, same_text}
use exchange_mcp.Files.Uploads.{is_token}

abbrev pub Target : Type 0
Target = List Text

pub record Record : Type 0 where
  pub path : Text
  pub expires_at : ℤ
  pub used : Bool

pub data Link : Type 0 where
  absent corrupt : Link
  valid : Record → Link

abbrev pub Links : Type 0
Links = String → Link

pub data Redeemed : Type 0 where
  served : Target → Redeemed
  rejected raised : Redeemed

-- `is_relative_to`: the components of the one begin those of the other.
abbrev pub relative_to : Target → Target → Bool
relative_to [] target = true
relative_to (p ∷ ps) [] = false
relative_to (p ∷ ps) (q ∷ qs) = same_text p q && relative_to ps qs

-- `_allowed_root`
unfoldable pub allowed_root : Target → Target → Bool
allowed_root root target =
    relative_to (root ++ (codes "mime" ∷ [])) target
    || relative_to (root ++ (codes "blobs" ∷ [])) target

abbrev pub set_link : String → Link → Links → Links
set_link token link links = λ t. if str_eq t token then link else links t

module _ (resolve : Text → Target) (root : Target) where
  -- `mint`: `none` if the path is outside; `target` is `str` of the resolved path.
  unfoldable pub mint : ℤ → String → Text → Text → ℤ → Links → Option Links
  unfolding allowed_root
  mint now token path target ttl links =
      if allowed_root root (resolve path)
      then some (
          set_link token
            (valid
              (record { path = target; expires_at = now +ℤ min_ℤ ttl (pos 86_400); used = false }))
            links)
      else none

  module _ (is_file : Target → Bool) where
    abbrev pub redeem_record : ℤ → Bool → String → Record → Links → Redeemed × Links
    redeem_record now burn_down token r links =
        let target = resolve r.path in
        if r.used
        then (rejected, links)
        else if ltb_ℤ r.expires_at now
        then (rejected, set_link token absent links)
        else if not (allowed_root root target) || not (is_file target)
        then (rejected, links)
        else if burn_down
        then (raised, links)
        else (served target, set_link token (valid (record r { used = true })) links)

    abbrev pub redeem_link : ℤ → Bool → String → Link → Links → Redeemed × Links
    redeem_link now burn_down token absent links = (rejected, links)
    redeem_link now burn_down token corrupt links = (rejected, links)
    redeem_link now burn_down token (valid r) links = redeem_record now burn_down token r links

    -- `redeem`; `burn_down`: the record cannot be written back.
    unfoldable pub redeem : ℤ → Bool → String → Links → Redeemed × Links
    unfolding is_token allowed_root
    redeem now burn_down token links =
        if is_token token
        then redeem_link now burn_down token (links token) links
        else (rejected, links)

unfoldable pub expendable : ℤ → Link → Bool
expendable now absent = false
expendable now corrupt = true
expendable now (valid r) = r.used || ltb_ℤ r.expires_at now

-- `sweep` over the names that `glob` finds, with the count.
unfoldable pub sweep : ℤ → List String → Links → ℕ × Links
unfolding expendable
sweep now [] links = (0, links)
sweep now (token ∷ tokens) links =
    let gone = expendable now (links token) in
    let (n, links') = sweep now tokens (if gone then set_link token absent links else links) in
    (if gone then suc n else n, links')
