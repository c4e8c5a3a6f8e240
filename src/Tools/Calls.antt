-- ===== src/Tools/Calls.antt =====
-- ewsmcp/tools/base.py: what a call of a tool meets. The server is the process; its texts, counters and
-- the detail of the audit are left out.
use exchange_mcp.Prelude.{ℕ, String, Bool, true, false, Option, List, ◌⊎◌, if◌then◌else◌, str_eq}
use exchange_mcp.Prelude.Int.{ℤ}
use exchange_mcp.Text.{Text}
use exchange_mcp.Files.Confirm.{Token, Codec, Consumed}
use exchange_mcp.Tools.Errors.{Code, ToolError, Exn}
use exchange_mcp.Tools.Arguments.{Args, Value}

pub data Class : Type 0 where
  read write send destructive : Class

abbrev pub is_send : Class → Bool
is_send send = true
is_send _ = false

-- TIER_RANK of CLASS_TIER
abbrev pub needed_rank : Class → ℕ
needed_rank read = 0
needed_rank write = 1
needed_rank send = 2
needed_rank destructive = 2

-- `TIER_RANK.get(tier, 2)`
abbrev pub tier_rank : String → ℕ
tier_rank tier = if str_eq tier "read" then 0 else if str_eq tier "draft" then 1 else 2

-- What a preview hook resolves.
pub record Content : Type 0 where
  pub subject : Text
  pub to : List Text
  pub cc : List Text
  pub bcc : List Text
  pub body : Text

-- What `content_hash` is given.
pub data Part : Type 0 where
  part_text : Text → Part
  part_list : List Text → Part
  part_args : Args → Part

pub record Settings : Type 0 where
  pub send_enabled : Bool
  pub tier : String
  pub denylist : Text
  pub allowlist : Text
  pub max_sends : ℕ
  pub mailbox : String
  pub ttl : ℤ
  pub default_ttl : ℤ
  pub secret : String
  pub failure_threshold : ℕ
  pub open_seconds : ℤ

pub record Services (W : Type 0) : Type 0 where
  pub matches : Text → Text → Bool
  pub sorted : List Text → List Text
  pub hash : List Part → String
  pub to_string : Text → String
  pub codec : Codec
  pub resolve : W → Text → Option Text
  pub read_token : Value → Token

pub record Tool (W R : Type 0) : Type 0 where
  pub name : String
  pub class : Class
  pub requires_ews : Bool
  pub confirm : Args → W → Bool
  pub preview : Option (Args → W → Exn ⊎ Content)
  pub handler : Args → W → (Exn ⊎ R) × W

-- The readings of the clock in the order of the call, and whether the connection is still cold.
pub record Moment : Type 0 where
  pub circuit : ℤ
  pub token : ℤ
  pub rate : ℤ
  pub failure : ℤ
  pub connecting : Bool
  pub next_retry : Option ℤ

pub data Result : Type 0 where
  done phase1 : Result
  failed : Code → Result

pub record Entry : Type 0 where
  pub tool : String
  pub class : Class
  pub outcome : Result

-- The process: the sends of the last hour, the spent tokens, the circuit, the audit, the world.
pub record Server (W : Type 0) : Type 0 where
  pub sends : List ℤ
  pub consumed : Consumed
  pub failures : ℕ
  pub open_until : ℤ
  pub audit : List Entry
  pub world : W

pub data Response (R : Type 0) : Type 0 where
  answer : R → Response R
  preview_token : Token → Response R
  error : ToolError → Response R

-- What the confirm gate decides, with the tokens spent after it.
pub data Gate : Type 0 where
  proceed : Consumed → Gate
  preview_first : Token → Gate
  stop : Exn → Consumed → Gate
