-- ===== src/Tests/Dispatch.antt =====
-- Calls of the dispatcher on small inputs. The world counts the mails that were sent.
use exchange_mcp.Prelude.{ℕ, suc, ◌≡◌, refl, true, false, none, some, [], ◌∷◌, inr}
use exchange_mcp.Prelude.Int.{pos, ◌+ℤ◌, ◌-ℤ◌}
use exchange_mcp.Text.{codes, same_text, strip, lstrip, split_on}
use exchange_mcp.Files.Confirm.{Payload, Codec, Token, verify_token, consume_token}
use exchange_mcp.Tools.Arguments.{
  Value, Args, without, get, recipients, split_list, recipient_guard, resolve_ids,
}
use exchange_mcp.Tools.Calls.{Class, Content, Settings, Services, Tool, Moment, Server}
use exchange_mcp.Tools.Dispatch.{
  dispatch, gates, confirm_gate, token_gate, target_of, rate_guard, recent_sends, token_of,
}
use exchange_mcp.Tools.Dispatch.Authorised.{Guarded, dispatch-Authorised}
use exchange_mcp.Tools.Dispatch.Bounded.{Accounted, dispatch-Accounted}

abbrev payload : Payload
payload = record {
  mailbox = "me@x";
  action = "send_draft";
  target_id = "d1";
  chash = "h";
  expiry = pos 700;
}

abbrev codec : Codec
codec = record {
  to_json = λ p. "{}";
  from_json = λ s. some payload;
  to_base64 = λ s. s;
  from_base64 = λ s. some s;
  sign = λ key raw. key;
}

abbrev services : Services ℕ
services = record {
  matches = same_text;
  sorted = λ ts. ts;
  hash = λ parts. "h";
  to_string = λ t. "d1";
  codec = codec;
  resolve = λ w t. some t;
  read_token = λ v. Token.halves "{}" "key";
}

abbrev settings : Settings
settings = record {
  send_enabled = true;
  tier = "full";
  denylist = codes "bad@x";
  allowlist = [];
  max_sends = 2;
  mailbox = "me@x";
  ttl = pos 600;
  default_ttl = pos 600;
  secret = "key";
  failure_threshold = 3;
  open_seconds = pos 60;
}

abbrev draft : Content
draft = record { subject = codes "s"; to = codes "a@x" ∷ []; cc = []; bcc = []; body = codes "b" }

abbrev send_tool : Tool ℕ ℕ
send_tool = record {
  name = "send_draft";
  class = Class.send;
  requires_ews = true;
  confirm = λ args w. true;
  preview = some (λ args w. inr draft);
  handler = λ args w. (inr w, suc w);
}

abbrev moment : Moment
moment = record {
  circuit = pos 100;
  token = pos 100;
  rate = pos 100;
  failure = pos 100;
  connecting = false;
  next_retry = none;
}

abbrev server : Server ℕ
server = record {
  sends = pos 50 ∷ [];
  consumed = [];
  failures = 0;
  open_until = pos 0;
  audit = [];
  world = 0;
}

abbrev kwargs : Args
kwargs = ("draft_id", Value.text (codes "d1")) ∷ ("confirm_token", Value.text (codes "token")) ∷ []

-- With the token the mail is sent once, and without it nothing is.
confirmed_sends : (dispatch services settings send_tool moment kwargs server).1.world ≡ 1
unfolding dispatch gates confirm_gate token_gate target_of rate_guard recent_sends resolve_ids
    without get recipients recipient_guard verify_token consume_token split_list strip lstrip
    split_on ◌+ℤ◌ ◌-ℤ◌
confirmed_sends = refl

dispatch-Authorised_example :
    Guarded services settings send_tool moment
      (without "confirm_token" kwargs)
      (token_of services settings send_tool (get "confirm_token" kwargs))
      server
      (dispatch services settings send_tool moment kwargs server).1.world
dispatch-Authorised_example = dispatch-Authorised services settings send_tool moment kwargs server

dispatch-Accounted_example :
    Accounted services settings send_tool moment
      (without "confirm_token" kwargs)
      server
      (dispatch services settings send_tool moment kwargs server)
dispatch-Accounted_example = dispatch-Accounted services settings send_tool moment kwargs server
