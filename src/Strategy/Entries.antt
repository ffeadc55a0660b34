-- ===== src/Strategy/Entries.antt =====
-- Which entries an evaluation emits.
use mathlib.Core.Path.{subst}
use trading_challenge.Prelude.{
  ◌≡◌, refl, sym, ◌∙◌, ap, Bool, true, false, Option, none, some, List, [], ◌∷◌, suc, length, map,
  some_of, arith, String, str_eq, if◌then◌else◌, ℤ, pos, lt_ℤ, le_ℤ, ◌≤ℤ◌, le_ℤ→le, le_ℤ_of_not-lt,
  Dict, lookup, Float64, Bool-cases, Option-cases, inl, inr,
}
use trading_challenge.Arb.{TradeIntent}
use trading_challenge.Arb.Pair.{pair_id}
use trading_challenge.Strategy.Types.{PairCondition}
use trading_challenge.Strategy.Selector.{
  SelectorConfig, OpenPosition, Selector, is_hold, find_pair_condition, select_strategy,
  should_exit, total_notional, total_allocated_pct,
}
use trading_challenge.Strategy.Intents.{build_entry_intent}
use trading_challenge.Strategy.Evaluate.{
  exit_phase, is_busy, is_full, allocation, entry_phase, evaluate,
}

neither : (a b : Bool) → (if a then true else b) ≡ false → (a ≡ false) × (b ≡ false)
neither a b h = ground arith

module _ {ℓ} {A : Type ℓ} where
  abbrev is_some : Option A → Bool
  is_some none = false
  is_some (some a) = true

  none_of : (o : Option A) → is_some o ≡ false → o ≡ none
  none_of none h = refl
  none_of (some a) h = cc

  abbrev keys : Dict A → List String
  keys m = map (λ (e : String × A). e.0) m

  length-keys : (m : Dict A) → length (keys m) ≡ length m
  length-keys [] = refl
  length-keys (e ∷ m) = ap suc (length-keys m)

  length-same : (l m : Dict A) → keys l ≡ keys m → length l ≡ length m
  length-same l m same = sym (length-keys l) ∙ ap length same ∙ length-keys m

  keys-lookup :
      (k : String) (m : Dict A) → is_some (lookup k m) ≡ some_of (λ j. str_eq j k) (keys m)
  unfolding lookup some_of
  keys-lookup k [] = refl
  keys-lookup k ((j, p) ∷ m) = ground (arith, keys-lookup k m)

module _ {ℓ} {F : Type ℓ} ⦃flt : Float64 F⦄ where
  -- The pair has no position, and its cooldown is over.
  abbrev pub IsIdle : Selector F → PairCondition F → (now : ℤ) → Type ℓ
  IsIdle s cond now =
      (lookup (pair_id cond.primary_symbol cond.hedge_symbol) s.positions ≡ none)
      × (elim (lookup (pair_id cond.primary_symbol cond.hedge_symbol) s.cooldowns)
          as (λ _. Type 0) [ none ↦ Unit | some until ↦ until ≤ℤ now ])

  idle_lem :
      (s : Selector F) (cond : PairCondition F) (now : ℤ)
      → is_busy s cond now ≡ false
      → IsIdle s cond now
  unfolding is_busy
  idle_lem s cond now h =
      let pid = pair_id cond.primary_symbol cond.hedge_symbol in
      elim (Option-cases (lookup pid s.positions)) [
        | inr (p, held) ↦
            let busy : is_busy s cond now ≡ true = rw (held, is_busy) refl in ground (arith, busy)
        | inl free ↦ elim (Option-cases (lookup pid s.cooldowns)) [
          | inl never ↦ rw (free, never) (refl, tt)
          | inr (until, cooling) ↦
              let test : is_busy s cond now ≡ lt_ℤ now until = rw (free, cooling, is_busy) refl in
              rw (free, cooling) (refl, le_ℤ→le until now (le_ℤ_of_not-lt now until (sym test ∙ h)))
        ]
      ]

  -- The entries that the selector may emit for the pairs of a cycle, in their order and at most one for a
  -- pair, with a share `allocated` of the equity in use. The pair of an entry is neither held nor on its
  -- cooldown and is correlated enough, its strategy is not to hold, the positions are below their limit and
  -- the share in use is below the cap; the entry gets what its strategy asks for, or what is left to the
  -- cap, which comes to at least 20 dollars and is in use for the next.
  pub data AreAdmitted (s : Selector F) (equity : F) (now : ℤ)
      : (allocated : F) → List (PairCondition F) → List (TradeIntent F) → Type ℓ where
    done :
        {allocated : F} {pairs : List (PairCondition F)}
        → AreAdmitted s equity now allocated pairs []
    skip :
        {allocated : F} {cond : PairCondition F} {pairs : List (PairCondition F)}
        {entries : List (TradeIntent F)}
        → AreAdmitted s equity now allocated pairs entries
        → AreAdmitted s equity now allocated (cond ∷ pairs) entries
    enter :
        {allocated : F} {cond : PairCondition F} {pairs : List (PairCondition F)}
        {entries : List (TradeIntent F)}
        → (share notional : F) (seq : ℤ)
        → share
          ≡ flt.min
              (select_strategy s.cfg cond).allocation_pct
              (flt.sub s.cfg.total_max_allocation_pct allocated)
        → notional ≡ flt.mul equity (flt.div share (flt.lit 100 0))
        → IsIdle s cond now
        → le_ℤ s.cfg.max_concurrent_positions (pos (length s.positions)) ≡ false
        → flt.le s.cfg.total_max_allocation_pct allocated ≡ false
        → flt.lt cond.correlation s.cfg.min_correlation ≡ false
        → is_hold (select_strategy s.cfg cond).strategy ≡ false
        → flt.lt notional (flt.lit 20 0) ≡ false
        → AreAdmitted s equity now (flt.add allocated share) pairs entries
        → AreAdmitted s equity now allocated
            (cond ∷ pairs)
            (build_entry_intent s.cfg cond (select_strategy s.cfg cond) notional now seq ∷ entries)

  room_lem :
      (s : Selector F) (allocated : F)
      → is_full s allocated ≡ false
      → (le_ℤ s.cfg.max_concurrent_positions (pos (length s.positions)) ≡ false)
        × (flt.le s.cfg.total_max_allocation_pct allocated ≡ false)
  unfolding is_full
  room_lem s allocated h = ground arith

  -- The sum after one more position.
  abbrev added : F → OpenPosition F → F
  added total p =
      flt.add total
        (flt.add p.notional_usd (flt.div p.notional_usd (flt.max p.hedge_beta (flt.lit 1 1))))

  -- The first phase keeps the keys of the positions.
  keys-exit_phase :
      (cfg : SelectorConfig F) (pairs : List (PairCondition F)) (now seq : ℤ)
      (positions : Dict (OpenPosition F))
      → keys (exit_phase cfg pairs now seq positions).0 ≡ keys positions
  unfolding exit_phase
  keys-exit_phase cfg pairs now seq [] = refl
  keys-exit_phase cfg pairs now seq ((pid, p) ∷ positions) =
      let on =
        λ (n : ℤ). ap (λ (l : List String). pid ∷ l) (keys-exit_phase cfg pairs now n positions) in
      elim (Option-cases (find_pair_condition pairs p.primary_symbol p.hedge_symbol)) [
        | inl unknown ↦ rw (unknown, exit_phase) (on seq)
        | inr (cond, found) ↦ elim (Option-cases (should_exit cfg p cond now).1) [
          | inl stay ↦ rw (found, stay, exit_phase) (on seq)
          | inr (reason, leave) ↦ rw (found, leave, exit_phase) (on _)
        ]
      ]

  -- It keeps the amounts too, and so the share of the equity that they use.
  should_exit_amounts :
      (cfg : SelectorConfig F) (p : OpenPosition F) (cond : PairCondition F) (now : ℤ)
      → let p' = (should_exit cfg p cond now).0 in
        (p'.notional_usd ≡ p.notional_usd) × (p'.hedge_beta ≡ p.hedge_beta)
  unfolding should_exit
  should_exit_amounts cfg p cond now = ground arith

  total_notional-exit_phase :
      (cfg : SelectorConfig F) (pairs : List (PairCondition F)) (now seq : ℤ) (total : F)
      (positions : Dict (OpenPosition F))
      → total_notional total (exit_phase cfg pairs now seq positions).0
        ≡ total_notional total positions
  unfolding exit_phase total_notional
  total_notional-exit_phase cfg pairs now seq total [] = refl
  total_notional-exit_phase cfg pairs now seq total ((pid, p) ∷ positions) =
      let on = λ (n : ℤ). total_notional-exit_phase cfg pairs now n (added total p) positions in
      elim (Option-cases (find_pair_condition pairs p.primary_symbol p.hedge_symbol)) [
        | inl unknown ↦ rw (unknown, exit_phase) (on seq)
        | inr (cond, found) ↦
            let (amount, beta) = should_exit_amounts cfg p cond now in
            elim (Option-cases (should_exit cfg p cond now).1) [
              | inl stay ↦ rw (found, stay, exit_phase, amount, beta) (on seq)
              | inr (reason, leave) ↦ rw (found, leave, exit_phase, amount, beta) (on _)
            ]
      ]

  allocated-exit_phase :
      (equity : F) (cfg : SelectorConfig F) (pairs : List (PairCondition F)) (now seq : ℤ)
      (positions : Dict (OpenPosition F))
      → total_allocated_pct equity (exit_phase cfg pairs now seq positions).0
        ≡ total_allocated_pct equity positions
  unfolding total_allocated_pct
  allocated-exit_phase equity cfg pairs now seq positions =
      rw (total_notional-exit_phase cfg pairs now seq (flt.lit 0 0) positions)

  -- A pair is idle by the keys of the positions.
  IsIdle-keys :
      (s s' : Selector F) (cond : PairCondition F) (now : ℤ)
      → keys s'.positions ≡ keys s.positions
      → s'.cooldowns ≡ s.cooldowns
      → IsIdle s' cond now
      → IsIdle s cond now
  IsIdle-keys s s' cond now same cool (free, over) =
      let pid = pair_id cond.primary_symbol cond.hedge_symbol in
      let absent : is_some (lookup pid s.positions) ≡ false =
        keys-lookup pid s.positions
        ∙ ap (λ l. some_of (λ k. str_eq k pid) l) (sym same)
        ∙ sym (keys-lookup pid s'.positions)
        ∙ ap is_some free in
      (none_of _ absent, rw⁻¹ cool over)

  -- The second phase, after the first has changed the positions under the same keys.
  module _ (s : Selector F) (left : Dict (OpenPosition F)) (n : ℤ)
      (same : keys left ≡ keys s.positions) where
    abbrev after : Selector F
    after = record s { positions = left; seq_id = n }

    entry_phase-AreAdmitted :
        (equity : F) (now : ℤ) (allocated : F) (seq : ℤ) (pairs : List (PairCondition F))
        → AreAdmitted s equity now allocated pairs
            (entry_phase after equity now allocated seq pairs).1
    unfolding entry_phase allocation
    entry_phase-AreAdmitted equity now allocated seq [] = done
    entry_phase-AreAdmitted equity now allocated seq (cond ∷ pairs) =
        let decision = select_strategy s.cfg cond in
        let share = allocation after decision allocated in
        let notional = flt.mul equity (flt.div share (flt.lit 100 0)) in
        let skipping : Bool =
          if is_hold decision.strategy then true else flt.lt notional (flt.lit 20 0) in
        let on = λ (total : F) (k : ℤ). entry_phase-AreAdmitted equity now total k pairs in
        elim (Bool-cases (is_busy after cond now)) [
          | inl busy ↦ rw (busy, entry_phase) (skip (on allocated seq))
          | inr idle ↦ elim (Bool-cases (is_full after allocated)) [
            | inl full ↦ rw (idle, full, entry_phase) done
            | inr room ↦ elim (Bool-cases (flt.lt cond.correlation s.cfg.min_correlation)) [
              | inl loose ↦ rw (idle, room, loose, entry_phase) (skip (on allocated seq))
              | inr tight ↦ elim (Bool-cases skipping) [
                | inl skipped ↦
                    rw (idle, room, tight, skipped, entry_phase) (skip (on allocated seq))
                | inr taken ↦
                    let (below, left_over) = room_lem after allocated room in
                    let (active, enough) = neither _ _ taken in
                    rw (idle, room, tight, taken, entry_phase)
                      (enter share notional _ refl refl
                        (IsIdle-keys s after cond now same refl (idle_lem after cond now idle))
                        (rw (length-same left s.positions same) at below) left_over tight active
                        enough (on (flt.add allocated share) _))
              ]
            ]
          ]
        ]

  -- Whatever the cycle finds, the entries that it emits are ones that the selector may emit for the
  -- scanned pairs in the state before the cycle, with the share of the equity that its positions use.
  pub evaluate-AreAdmitted :
      (now : ℤ) (pairs : List (PairCondition F)) (account_equity regime_scale : F) (s : Selector F)
      → let equity = flt.mul account_equity regime_scale in
        AreAdmitted s equity now
          (total_allocated_pct equity s.positions)
          pairs
          (evaluate now pairs account_equity regime_scale s).1.entries
  unfolding evaluate
  evaluate-AreAdmitted now pairs account_equity regime_scale s =
      let equity = flt.mul account_equity regime_scale in
      let left = exit_phase s.cfg pairs now s.seq_id s.positions in
      let same = keys-exit_phase s.cfg pairs now s.seq_id s.positions in
      subst
        (λ (used : F).
          AreAdmitted s equity now used pairs
            (evaluate now pairs account_equity regime_scale s).1.entries)
        (allocated-exit_phase equity s.cfg pairs now s.seq_id s.positions)
        (entry_phase-AreAdmitted s left.0 left.1 same equity now (total_allocated_pct equity left.0)
          left.1 pairs)
