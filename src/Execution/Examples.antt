-- ===== src/Execution/Examples.antt =====
-- The theorems of the execution on an exchange that fills bitcoin and refuses the other symbols.
use trading_challenge.Prelude.{
  Option, Dict, insert, lookup, lookup-insert, eq_refl, String, ◌+◌, ◌*◌, ◌≤◌, ◌<◌, ◌≡◌, refl, ◌⊎◌,
  ◌↔◌, true, false, none, some, [], ◌∷◌, map, length, All, some_of, str_eq, if◌then◌else◌, ℤ, pos,
  sub64,
}
use trading_challenge.Prelude.Fixed.{
  mul_fixed, floor_fixed, div_fixed, fixed_decimal, fixed_float, fixed_convert,
}
use trading_challenge.Arb.{TradeLeg, TradeIntent}
use trading_challenge.Exchange.{market, filled, OrderResponse, Exchange}
use trading_challenge.Execution.Types.{
  order_sent, order_filled, order_retry, order_rejected, ExecutionEvent, Config, LegResult,
  no_result, default_config,
}
use trading_challenge.Execution.Orders.{
  attempts, attempt_loop, poll_loop, emergency_unwind, unwind_loop,
}
use trading_challenge.Execution.Executor.{abandon, execute_legs, execute}
use trading_challenge.Execution.Hedge.{IsUnwound, no_naked_leg}
use trading_challenge.Execution.Bounds.{counted}
use trading_challenge.Execution.Budget.{execute-count}
use trading_challenge.Execution.Router.{Bus, new_router, handle}
use trading_challenge.Execution.Once.{count, ticks, executed_once}
use trading_challenge.Execution.Gates.{Outputs, IsStore, perform, handle-state_round}
use trading_challenge.Risk.CircuitBreaker.{is_open_any}
use trading_challenge.Risk.Service.{Service, new_service, state_round}
use trading_challenge.Risk.Types.{rank}

abbrev answer : String → OrderResponse ℤ
answer symbol = record {
  order_id = "7";
  client_order_id = "";
  symbol = symbol;
  side = "Buy";
  type = market;
  status = filled;
  price = pos 1_000_000;
  avg_fill_price = pos 1_000_000;
  quantity = pos 10_000;
  filled_qty = pos 10_000;
  fees_usd = pos 100;
  created_at = pos 0;
  updated_at = pos 0;
}

-- The world is the clock, which stands still. Bitcoin costs a hundred dollars.
abbrev desk : Exchange ℤ ℤ ℤ
desk = record {
  now = λ w. (w, w);
  sleep = λ d w. w;
  place_order =
      λ req w. (w, if str_eq req.symbol "BTCUSDT" then some (answer req.symbol) else none);
  cancel_order = λ cat symbol id w. w;
  get_order = λ cat symbol id w. (w, some (answer symbol));
  get_ticker_price = λ cat symbol w. (w, some (pos 1_000_000));
  get_constraints = λ cat symbol w. (w, none);
}

abbrev leg : String → String → TradeLeg ℤ
leg action symbol = record {
  action = action;
  type = "LIMIT";
  market = "PERP";
  symbol = symbol;
  notional_usd = pos 1_000_000;
  max_slippage_bps = pos 50_000;
  price_limit = pos 0;
}

abbrev intent : TradeIntent ℤ
intent = record {
  intent_id = "basis-1";
  strategy = "basis";
  symbol = "BTCUSDT";
  hedge_symbol = "ETHUSDT";
  hedge_beta = pos 10_000;
  ts_ms = pos 1_000;
  expires_ms = pos 11_000;
  legs = leg "SELL" "BTCUSDT" ∷ leg "BUY" "ETHUSDT" ∷ [];
  expected = record {
    edge_bps_gross = pos 0;
    edge_bps_net = pos 0;
    profit_usd_net = pos 0;
    fees_usd_est = pos 0;
    slippage_usd_est = pos 0;
    funding_rate_8h_bps = pos 0;
    annual_yield_pct_net = pos 0;
  };
  constraints = record {
    max_age_ms = pos 10_000;
    hedge_preference = "SEQUENTIAL";
    cooldown_key = "basis:BTCUSDT:ETHUSDT";
  };
}

abbrev cfg : Config ℤ
cfg = record (default_config {F = ℤ}) { max_retries_per_leg = pos 1 }

-- The second leg is refused twice, and the first is taken back.
run_test :
    map (λ (e : ExecutionEvent ℤ). e.event_type) (execute desk cfg intent (pos 2_000)).1
    ≡ order_sent ∷ order_filled ∷ order_sent ∷ order_retry ∷ order_sent ∷ order_rejected
      ∷ order_filled ∷ []
unfolding execute mul_fixed floor_fixed div_fixed attempt_loop poll_loop default_config sub64
    abandon emergency_unwind unwind_loop
run_test = refl

no_naked_leg_example :
    let run =
      execute_legs desk cfg intent none 0
        (pos 2_000)
        (leg "SELL" "BTCUSDT" ∷ leg "BUY" "ETHUSDT" ∷ [])
        (pos 2_000) in
    All (λ r. r.filled ≡ false) run.2
    ⊎ All (λ r. r.filled ≡ true) run.2
    ⊎ ((r : LegResult ℤ) × (r.filled ≡ true)
        × (run.2 ≡ r ∷ no_result ∷ [])
        × IsUnwound desk intent (leg "SELL" "BTCUSDT") (pos 0) r run.0 run.1)
no_naked_leg_example =
    no_naked_leg desk cfg intent (leg "SELL" "BTCUSDT") (leg "BUY" "ETHUSDT") (pos 2_000)
      (pos 2_000)

execute-count_example :
    (execute (counted desk) cfg intent (0, pos 2_000)).0.0
    ≤ 0 + length intent.legs * attempts cfg.max_retries_per_leg + 4
execute-count_example = execute-count desk cfg intent (0, pos 2_000)

abbrev redis : Bus ℤ ℤ
redis = record {
  get_string = λ key w. (w, if str_eq key "risk:mode" then "SAFE" else "false");
  read = λ w. (w, some (some intent ∷ none ∷ some intent ∷ []));
  publish_event = λ e w. w;
  publish_fill = λ f w. w;
  send_critical = λ id w. w;
}

executed_once_example : count "basis-1" (ticks redis desk 2 cfg new_router (pos 2_000)).2 ≤ 1
executed_once_example = executed_once redis desk 2 cfg (pos 2_000) "basis-1"

-- A store of texts beside the desk.
abbrev World : Type 0
World = Dict String × ℤ

abbrev text_of : Option String → String
text_of none = ""
text_of (some s) = s

abbrev store : Bus World ℤ
store = record {
  get_string = λ key w. (w, text_of (lookup key w.0));
  read = λ w. (w, none);
  publish_event = λ e w. w;
  publish_fill = λ f w. w;
  send_critical = λ id w. w;
}

abbrev outputs : Outputs World ℤ ℤ
outputs = record {
  send_message = λ m w. w;
  write_equity = λ x ttl w. w;
  write_string = λ key value ttl w. (insert key value w.0, w.1);
  send_notice = λ n w. w;
  print = λ n x. "0.00";
}

store-IsStore : IsStore store outputs
store-IsStore = record {
  get_set = λ key value ttl w. rw (lookup-insert key key value w.0, eq_refl key) refl;
  get_other = λ key other value ttl w h. rw (lookup-insert key other value w.0, h) refl;
  get_get = λ key other w. refl;
}

abbrev beside : Exchange ℤ ℤ ℤ → Exchange World ℤ ℤ
beside e = record {
  now = λ w. let (v, t) = e.now w.1 in ((w.0, v), t);
  sleep = λ t w. (w.0, e.sleep t w.1);
  place_order = λ r w. let (v, x) = e.place_order r w.1 in ((w.0, v), x);
  cancel_order = λ c s i w. (w.0, e.cancel_order c s i w.1);
  get_order = λ c s i w. let (v, x) = e.get_order c s i w.1 in ((w.0, v), x);
  get_ticker_price = λ c s w. let (v, x) = e.get_ticker_price c s w.1 in ((w.0, v), x);
  get_constraints = λ c s w. let (v, x) = e.get_constraints c s w.1 in ((w.0, v), x);
}

abbrev service : Service ℤ ℤ
service = new_service (pos 2_000_000_000)

handle-state_round_example :
    let after =
      perform outputs
        (state_round (pos 3_000_000_000) (pos 3_000_000_000) (pos 3000) service).1
        ([], pos 3000) in
    ((handle store (beside desk) cfg (some intent) new_router after).2 ≡ some intent.intent_id) ↔ (
      (rank service.daemon.mode < 3)
      × (is_open_any (pos 3000) service.breaker ≡ false)
      × (some_of (str_eq intent.intent_id) new_router.processed ≡ false))
handle-state_round_example =
    handle-state_round store outputs store-IsStore (beside desk) cfg intent new_router
      (pos 3_000_000_000) (pos 3_000_000_000) (pos 3000) service ([], pos 3000)
