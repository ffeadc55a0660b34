-- ===== src/Execution/Reconcile.antt =====
-- internal/execution/executor.go: `reconcileFills` and `PlaceStopLoss`.
use trading_challenge.Prelude.{
  ℕ, ◌+◌, Bool, true, false, ◌&&◌, ◌||◌, not, none, some, List, [], ◌∷◌, ◌++◌, String, str_eq,
  show_int, ◌<>◌, if◌then◌else◌, pos, mul64, Decimal, is_positive, Float64, Convert,
}
use trading_challenge.Exchange.{market, linear, OrderResponse, Exchange}
use trading_challenge.Execution.Types.{Config, LegResult}

module _ {ω ℓ κ} {W : Type ω} {D : Type ℓ} {F : Type κ} ⦃dec : Decimal D⦄ ⦃flt : Float64 F⦄
    ⦃conv : Convert D F⦄ (client : Exchange W D F) where
  -- Some quantity differs by more than one percent from that of the exchange: the indices of such legs,
  -- which the source logs.
  unfoldable pub reconcile_results : ℕ → List (LegResult D) → W → W × List ℕ
  reconcile_results i [] w = (w, [])
  reconcile_results i (r ∷ rs) w = elim (not r.filled || str_eq r.order_id "") [
    | true ↦ reconcile_results (i + 1) rs w
    | false ↦
        let (w₁, answer) = client.get_order r.category r.symbol r.order_id w in
        let (w₂, rest) = reconcile_results (i + 1) rs w₁ in
        let diverges : OrderResponse D → Bool = λ order.
          is_positive order.filled_qty
          && flt.lt (flt.lit 1 2) (
              conv.to_float
                (dec.div (dec.abs (dec.sub r.filled_qty order.filled_qty)) order.filled_qty)) in
        elim answer [
          | none ↦ (w₂, rest)
          | some order ↦ (w₂, (if diverges order then i ∷ [] else []) ++ rest)
        ]
  ]

  unfoldable pub reconcile_fills : Config F → List (LegResult D) → W → W × List ℕ
  unfolding reconcile_results
  reconcile_fills cfg results w =
      reconcile_results 0 results (client.sleep (mul64 cfg.recon_delay_ms (pos 1_000_000)) w)

  -- `none` is the `nil` error.
  unfoldable pub place_stop_loss : (symbol side : String) (qty trigger_price : D) → W → W × Bool
  place_stop_loss symbol side qty trigger_price w =
      let (w₁, ts) = client.now w in
      let (w₂, answer) =
        client.place_order
          (record {
            category = linear;
            symbol = symbol;
            side = side;
            type = market;
            quantity = qty;
            price = dec.nought;
            notional_usd = dec.nought;
            max_slippage_bps = flt.lit 0 0;
            client_order_id = "sl-" <> symbol <> "-" <> show_int ts;
            reduce_only = true;
            stop_loss = trigger_price;
            take_profit = dec.nought;
          })
          w₁ in
      (w₂, elim answer [ none ↦ false | some _ ↦ true ])
