-- ===== src/Risk/Rounds.antt =====
-- The rounds of the risk service: the mode after a round of the equity, and what a round of the positions
-- sees of their sides.
use Prim.Native.Nat.{max}
use trading_challenge.Prelude.{
  ℕ, ◌+◌, ◌≡◌, refl, ap, none, some, ◌⊎◌, inl, inr, false, true, List, [], ◌∷◌, map, foldl, arith,
  str_eq, if◌then◌else◌, All, Time, unix_milli, Decimal, is_positive, Float64, Convert, ℤ,
}
use trading_challenge.Exchange.{Position, AccountEquity}
use trading_challenge.Risk.Types.{rank}
use trading_challenge.Risk.Daemon.{
  PositionSnapshot, Daemon, update_equity, tick, set_mode, net_exposure, total_size, has_unhedged,
  record_position_snapshot, escalate_to, error_rate_5m,
}
use trading_challenge.Risk.Escalation.{
  error_demand, overall_demand, daily_demand, evaluate_lem, SameEquity, overall_demand_congr,
  daily_demand_congr,
}
use trading_challenge.Risk.Margin as Margin
use trading_challenge.Risk.Service.{
  polled, Service, escalate_margin, handle_margin, equity_round, snapshots_of, margin_info,
  position_round,
}

module _ {ℓ κ} {D : Type ℓ} {F : Type κ} ⦃dec : Decimal D⦄ ⦃flt : Float64 F⦄
    ⦃conv : Convert D F⦄ where
  -- The rank after the alerts on the margin: that of the threshold that is reached.
  abbrev pub margin_rank : Margin.Monitor D F → ℕ → ℕ
  margin_rank m before =
      if Margin.needs_halt m then 4 else if Margin.needs_reduce_position m then 3 else before

  -- The alerts on the margin set the mode and touch nothing that the demands read.
  handle_margin_lem :
      (snap : Margin.Snapshot D) (m : Margin.Monitor D F) (d : Daemon D F)
      → is_positive snap.total_equity ≡ true
      → let (m', alerts) = Margin.update_margin snap m in
        let e = (handle_margin alerts d).0 in
        (rank e.mode ≡ margin_rank m' (rank d.mode))
        × SameEquity d e
        × (e.fill_events ≡ d.fill_events)
        × (e.error_events ≡ d.error_events)
  unfolding handle_margin escalate_margin set_mode Margin.update_margin Margin.ratio_alert
      Margin.needs_halt Margin.needs_reduce_position Margin.current_ratio_pct rank
  handle_margin_lem snap m d p = ground arith

  error_demand_congr :
      (now : ℤ) (d e : Daemon D F)
      → SameEquity d e
      → e.fill_events ≡ d.fill_events
      → e.error_events ≡ d.error_events
      → error_demand now e ≡ error_demand now d
  unfolding error_rate_5m
  error_demand_congr now d e s f r = rw (s.same_cfg, f, r)

  -- With a positive equity, the mode after a round of the equity is the worst of three: what the margin
  -- sets, which is HALTED or FLATTEN from its two upper thresholds on, whatever the mode was, and else the
  -- mode that the equity leads to; what the error rate demands; and what the two drawdowns demand.
  pub equity_round-rank :
      (t today stamp later : Time) (eq : AccountEquity D) (s : Service D F)
      → is_positive eq.total_equity ≡ true
      → let d = (update_equity t today eq.total_equity s.daemon).0 in
        let s' = (equity_round t today stamp later (polled eq) s).0 in
        rank s'.daemon.mode ≡ (
          max
            (max (margin_rank s'.margin (rank d.mode)) (error_demand (unix_milli later) d))
            (max (overall_demand d) (daily_demand d)))
  unfolding equity_round tick
  equity_round-rank t today stamp later eq s p =
      let d = (update_equity t today eq.total_equity s.daemon).0 in
      let snap : Margin.Snapshot D = record {
        total_equity = eq.total_equity;
        total_margin_used = eq.total_margin;
        available_margin = eq.available_balance;
        ts_ms = unix_milli stamp;
      } in
      let now = unix_milli later in
      let e = (handle_margin (Margin.update_margin snap s.margin).1 d).0 in
      let (r, same, f, g) = handle_margin_lem snap s.margin d p in
      omega (
        arith,
        (evaluate_lem now e).0,
        r,
        error_demand_congr now d e same f g,
        overall_demand_congr d e same,
        daily_demand_congr d e same,
      )

module _ {ℓ} {D : Type ℓ} where
  -- The sides that the client of the exchange gives.
  abbrev pub IsSided : Position D → Type 0
  IsSided p = (p.side ≡ "LONG") ⊎ (p.side ≡ "SHORT")

  abbrev pub as_long : Position D → Position D
  as_long p = record p { side = "LONG" }

  not_sell : (p : Position D) → IsSided p → str_eq p.side "Sell" ≡ false
  not_sell p (inl long) = rw long refl
  not_sell p (inr short) = rw short refl

module _ {ℓ} {D : Type ℓ} ⦃dec : Decimal D⦄ where
  net_long :
      (clock : ℕ → Time) (i : ℕ) (positions : List (Position D)) (net : D)
      → All IsSided positions
      → let add = λ (net : D) (p : PositionSnapshot D).
        dec.add net (if str_eq p.side "Sell" then dec.neg p.size else p.size) in
        foldl add net (snapshots_of clock i positions)
        ≡ foldl add net (snapshots_of clock i (map as_long positions))
  unfolding snapshots_of
  net_long clock i [] net h = refl
  net_long clock i (p ∷ rest) net (side, h) =
      rw (not_sell p side, foldl) (net_long clock (i + 1) rest (dec.add net p.quantity) h)

  total_long :
      (clock : ℕ → Time) (i : ℕ) (positions : List (Position D)) (total : D)
      → let add = λ (total : D) (p : PositionSnapshot D). dec.add total p.size in
        foldl add total (snapshots_of clock i positions)
        ≡ foldl add total (snapshots_of clock i (map as_long positions))
  unfolding snapshots_of
  total_long clock i [] total = refl
  total_long clock i (p ∷ rest) total = total_long clock (i + 1) rest (dec.add total p.quantity)

  has_unhedged_long :
      (clock : ℕ → Time) (factor : D) (positions : List (Position D))
      → All IsSided positions
      → has_unhedged factor (snapshots_of clock 0 positions)
        ≡ has_unhedged factor (snapshots_of clock 0 (map as_long positions))
  unfolding has_unhedged net_exposure total_size
  has_unhedged_long clock factor positions h =
      rw (net_long clock 0 positions dec.nought h, total_long clock 0 positions dec.nought)

module _ {ℓ κ} {D : Type ℓ} {F : Type κ} ⦃dec : Decimal D⦄ ⦃flt : Float64 F⦄
    ⦃conv : Convert D F⦄ where
  -- A snapshot acts through its test alone.
  record_position_snapshot_congr :
      (t : Time) (xs ys : List (PositionSnapshot D)) (d : Daemon D F)
      → has_unhedged (conv.from_float (flt.lit 5 2)) xs
        ≡ has_unhedged (conv.from_float (flt.lit 5 2)) ys
      → let (a, alerts) = record_position_snapshot t xs d in
        let (b, others) = record_position_snapshot t ys d in (a.mode ≡ b.mode) × (alerts ≡ others)
  unfolding record_position_snapshot escalate_to
  record_position_snapshot_congr t xs ys d same = ground (arith, same)

  position_alerts_long :
      (cfg : Margin.Config F) (now : ℤ) (positions : List (Position D))
      → Margin.position_alerts cfg now (map margin_info positions)
        ≡ Margin.position_alerts cfg now (map margin_info (map as_long positions))
  unfolding Margin.position_alerts margin_info Margin.position_alert
  position_alerts_long cfg now [] = refl
  position_alerts_long cfg now (p ∷ rest) =
      ap
        (λ later. elim (Margin.position_alert cfg now (margin_info p)) [
          | none ↦ later
          | some a ↦ a ∷ later
        ])
        (position_alerts_long cfg now rest)

  -- A round of the positions takes a position for a long one whatever its side is: with sides LONG and
  -- SHORT, the mode and the effects are those of the same positions held long.
  pub sides_ignored :
      (clock : ℕ → Time) (t checked : Time) (positions : List (Position D)) (s : Service D F)
      → All IsSided positions
      → let (a, effects) = position_round clock t checked (polled positions) s in
        let (b, others) = position_round clock t checked (polled (map as_long positions)) s in
        (a.daemon.mode ≡ b.daemon.mode) × (effects ≡ others)
  unfolding position_round Margin.update_positions
  sides_ignored clock t checked positions s h =
      let (mode, alerts) =
        record_position_snapshot_congr t (snapshots_of clock 0 positions)
          (snapshots_of clock 0 (map as_long positions)) s.daemon
          (has_unhedged_long clock (conv.from_float (flt.lit 5 2)) positions h) in
      let liquidations = position_alerts_long s.margin.cfg (unix_milli checked) positions in
      (mode, rw (alerts, liquidations) refl)
