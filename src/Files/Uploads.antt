-- ===== src/Files/Uploads.antt =====
-- ewsmcp/uploads.py: one-time upload links. The directories are functions; times are whole
-- seconds. `is_word` is the regular expressions' `\w`; `token` of `mint` is the random one.
pub mod Once
pub mod Names
use exchange_mcp.Prelude.{
  ℕ, suc, ◌+◌, String, Bool, true, false, not, ◌&&◌, ◌||◌, Option, some, List, [], ◌∷◌, length,
  if◌then◌else◌, str_eq, leb, ltb, ◌==◌,
}
use exchange_mcp.Prelude.Int.{ℤ, ◌+ℤ◌, ltb_ℤ, min_ℤ, pos}
use exchange_mcp.Text.{Text, codes, same_text, split_on}
use exchange_mcp.Archive.Files.{is_hex}

pub record Record : Type 0 where
  pub name : Text
  pub expires_at : ℤ
  pub used : Bool

-- What stands under a token: nothing, a file that is no such JSON, or a record.
pub data Link : Type 0 where
  absent corrupt : Link
  valid : Record → Link

pub record World : Type 0 where
  pub links : String → Link
  pub uploads : Text → Option Text

pub data Redeemed : Type 0 where
  stored : Text → ℕ → Redeemed
  rejected : Redeemed
  raised : Redeemed

abbrev pub all_hex : Text → Bool
all_hex [] = true
all_hex (c ∷ s) = is_hex c && all_hex s

-- `$` also stands before a final line feed.
abbrev pub chomp : Text → Text
chomp [] = []
chomp (c ∷ []) = if c == 10 then [] else c ∷ []
chomp (c ∷ d ∷ s) = c ∷ chomp (d ∷ s)

-- `^[0-9a-f]{32,128}$`
unfoldable pub is_token : String → Bool
is_token token = let s = chomp (codes token) in leb 32 (length s) && leb (length s) 128 && all_hex s

abbrev pub last_part : List Text → Text → Text
last_part [] found = found
last_part (p ∷ ps) found =
    last_part ps (if same_text p [] || same_text p (codes ".") then found else p)

abbrev pub trimmed : ℕ → Bool
trimmed c = c == b'.' || c == b'_'

-- `strip("._")`, from the left and then, on the reversed text, from the right.
unfoldable pub lstrip : Text → Text
lstrip [] = []
lstrip (c ∷ s) = let rest = lstrip s in if trimmed c then rest else c ∷ s

abbrev pub push_left : ℕ → Text → Text
push_left c [] = if trimmed c then [] else c ∷ []
push_left c (d ∷ r) = c ∷ d ∷ r

unfoldable pub rstrip : Text → Text
rstrip [] = []
rstrip (c ∷ s) = push_left c (rstrip s)

abbrev pub max_upload : ℕ
max_upload = 26_214_400

module _ (is_word : ℕ → Bool) where
  abbrev pub harmless : ℕ → Bool
  harmless c = is_word c || (c == b'.' || c == b'-')

  -- `re.sub(r"[^\w.\-]+", "_", base)`; the Boolean: the character before was replaced.
  unfoldable pub substitute : Bool → Text → Text
  substitute replaced [] = []
  substitute replaced (c ∷ s) =
      let plain = c ∷ substitute false s in
      let skip = substitute true s in
      if harmless c then plain else if replaced then skip else b'_' ∷ skip

  abbrev pub or_default : Text → Text
  or_default [] = codes "upload.bin"
  or_default (c ∷ s) = c ∷ s

  unfoldable pub safe_name : Text → Text
  unfolding substitute lstrip rstrip
  safe_name name =
      or_default (rstrip (lstrip (substitute false (last_part (split_on b'/' name) []))))

  -- `mint`
  unfoldable pub mint : ℤ → String → Text → ℤ → World → World
  unfolding safe_name
  mint now token name ttl w = record w {
    links = λ t.
        if str_eq t token
        then valid (record {
          name = safe_name name;
          expires_at = now +ℤ min_ℤ ttl (pos 86_400);
          used = false;
        })
        else w.links t;
  }

  abbrev pub write_upload : Text → Text → World → World
  write_upload name body w = record w {
    uploads = λ n. if same_text n name then some body else w.uploads n;
  }

  abbrev pub set_link : String → Link → World → World
  set_link token link w = record w { links = λ t. if str_eq t token then link else w.links t }

  abbrev pub name_or_default : Text → Text
  name_or_default [] = codes "upload.bin"
  name_or_default (c ∷ s) = c ∷ s

  -- The write and the burn; `write_down` and `burn_down`: they raise.
  abbrev pub redeem_record : ℤ → Bool → Bool → String → Text → Record → World → Redeemed × World
  redeem_record now write_down burn_down token body r w =
      let name = safe_name (name_or_default r.name) in
      let written = write_upload name body w in
      if r.used
      then (rejected, w)
      else if ltb_ℤ r.expires_at now
      then (rejected, set_link token absent w)
      else if write_down
      then (raised, w)
      else if burn_down
      then (raised, written)
      else (stored name (length body), set_link token (valid (record r { used = true })) written)

  abbrev pub redeem_link : ℤ → Bool → Bool → String → Text → Link → World → Redeemed × World
  redeem_link now write_down burn_down token body absent w = (rejected, w)
  redeem_link now write_down burn_down token body corrupt w = (rejected, w)
  redeem_link now write_down burn_down token body (valid r) w =
      redeem_record now write_down burn_down token body r w

  -- `redeem`
  unfoldable pub redeem : ℤ → Bool → Bool → String → Text → World → Redeemed × World
  unfolding is_token safe_name
  redeem now write_down burn_down token body w =
      if not (is_token token)
      then (rejected, w)
      else if ltb max_upload (length body)
      then (rejected, w)
      else redeem_link now write_down burn_down token body (w.links token) w

-- One file of `sweep`: whether it is removed.
unfoldable pub swept : ℤ → Link → Bool
swept now absent = false
swept now corrupt = true
swept now (valid r) = r.used || ltb_ℤ r.expires_at now

-- `sweep` over the names that `glob` finds, with the count.
unfoldable pub sweep : ℤ → List String → World → ℕ × World
unfolding swept
sweep now [] w = (0, w)
sweep now (token ∷ tokens) w =
    let gone = record w { links = λ t. if str_eq t token then absent else w.links t } in
    let (n, w') = sweep now tokens (if swept now (w.links token) then gone else w) in
    (if swept now (w.links token) then suc n else n, w')
