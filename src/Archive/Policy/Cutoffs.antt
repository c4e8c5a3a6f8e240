-- ===== src/Archive/Policy/Cutoffs.antt =====
-- How the dates of ewsmcp/archive/policy.py stand to one another.
use mathlib.Core.Option
use exchange_mcp.Prelude.{Option}
use exchange_mcp.Text.{Text}
