-- ===== src/Tests/GatewayCases.antt =====
-- The chat endpoints over a client.
use pi_pi_mink.Prelude.{ℕ, none, [], false}
use pi_pi_mink.Prelude.Int.{pos}
use pi_pi_mink.Prelude.Text.{codes}
use pi_pi_mink.Requests.{Request}
use pi_pi_mink.Chat.{Exchange, answered}
use pi_pi_mink.DecisionCache.Invariant.{new_decision_cache-IsValid}
use pi_pi_mink.ChatHandlers.{route}
use pi_pi_mink.ChatHandlers.Backed.{Backend, gateway_of, Sourced, route-Sourced}
use pi_pi_mink.Tests.RoutingCases.{
  models, settings, plain_digest, plain_prompt, clock, decode_no_responses,
}
use pi_pi_mink.Tests.AgainCases.{selector, decode_choice, with_azure, fresh_cache}

abbrev silent : ℕ → Request → Exchange
silent attempt req = answered 200 []

abbrev backend : Backend
backend = record {
  select = selector;
  send = silent;
  decode = decode_choice;
  decode_responses = decode_no_responses;
  digest = plain_digest;
  prompt = plain_prompt;
  uses_mlx = false;
  max_tokens = pos 100;
  settings = settings;
  client = with_azure;
  clock = clock;
  started = 0;
  ended = 5;
  cache = fresh_cache;
}

route-Sourced_example :
    Sourced backend
      (codes "hi")
      models
      (route (gateway_of backend) (codes "o3") (codes "hi") models)
route-Sourced_example =
    route-Sourced backend (codes "o3") (codes "hi") models (new_decision_cache-IsValid none)
