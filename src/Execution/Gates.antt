-- ===== src/Execution/Gates.antt =====
-- The risk service and the router on one bus: what cmd/risk-daemon writes is what the gates of
-- cmd/execution-router read.
use trading_challenge.Prelude.{
  ℕ, ◌≡◌, refl, ◌∙◌, ◌<◌, ◌↔◌, Bool, true, false, some, List, [], ◌∷◌, String, str_eq, ℤ, Time,
  some_of, Decimal, Float64, Convert, if◌then◌else◌,
}
use trading_challenge.Arb.{TradeIntent}
use trading_challenge.Exchange.{Exchange}
use trading_challenge.Risk.Types.{rank, mode_string}
use trading_challenge.Risk.CircuitBreaker.{is_open_any}
use trading_challenge.Risk.Daemon.{current_state}
use trading_challenge.Risk.Reports.{
  Piece, text, decimals, Notice, Message, Effect, publish, set_equity, set_string, notify,
  bool_string,
}
use trading_challenge.Risk.Service.{Service, state_round}
use trading_challenge.Execution.Types.{Config}
use trading_challenge.Execution.Router.{Bus, Router, handle}
use trading_challenge.Execution.Once.{handle_iff}

-- Where the effects of the risk service go: Redis, the webhook, and the printing of a float64.
pub record Outputs {ω ℓ κ} (W : Type ω) (D : Type ℓ) (F : Type κ) : Type (ω ⊔ ℓ ⊔ κ) where
  pub send_message : Message F → W → W
  pub write_equity : D → ℕ → W → W
  pub write_string : String → String → ℕ → W → W
  pub send_notice : Notice F → W → W
  pub print : ℕ → F → String

module _ {ω ℓ κ} {W : Type ω} {D : Type ℓ} {F : Type κ} (out : Outputs W D F) where
  unfoldable pub render : Piece F → String
  render (text s) = s
  render (decimals n x) = out.print n x

  unfoldable pub perform_one : Effect D F → W → W
  unfolding render
  perform_one (publish m) w = out.send_message m w
  perform_one (set_equity x ttl) w = out.write_equity x ttl w
  perform_one (set_string key value ttl) w = out.write_string key (render value) ttl w
  perform_one (notify n) w = out.send_notice n w

  unfoldable pub perform : List (Effect D F) → W → W
  unfolding perform_one
  perform [] w = w
  perform (e ∷ rest) w = perform rest (perform_one e w)

-- What Redis promises of its texts: a read gives the value that was written last under the key, and a
-- read changes no text.
pub record IsStore {ω ℓ κ} {W : Type ω} {D : Type ℓ} {F : Type κ} (bus : Bus W F)
    (out : Outputs W D F) : Type ω where
  pub get_set :
      (key value : String) (ttl : ℕ) (w : W)
      → (bus.get_string key (out.write_string key value ttl w)).1 ≡ value
  pub get_other :
      (key other value : String) (ttl : ℕ) (w : W)
      → str_eq key other ≡ false
      → (bus.get_string other (out.write_string key value ttl w)).1 ≡ (bus.get_string other w).1
  pub get_get :
      (key other : String) (w : W)
      → (bus.get_string other (bus.get_string key w).0).1 ≡ (bus.get_string other w).1

bool_string-eq-if : (b : Bool) → bool_string b ≡ (if b then "true" else "false")
unfolding bool_string
bool_string-eq-if true = refl
bool_string-eq-if false = refl

module _ {ω ℓ κ} {W : Type ω} {D : Type ℓ} {F : Type κ} ⦃dec : Decimal D⦄ ⦃flt : Float64 F⦄
    ⦃conv : Convert D F⦄ (bus : Bus W F) (out : Outputs W D F) (store : IsStore bus out) where
  mode_written :
      (t rated : Time) (now : ℤ) (s : Service D F) (w : W)
      → let after = perform out (state_round t rated now s).1 w in
        (bus.get_string "risk:mode" after).1 ≡ mode_string s.daemon.mode
  unfolding state_round perform perform_one render current_state
  mode_written t rated now s w =
      store.get_other "margin:ratio_pct" "risk:mode" _ 30 _ refl
      ∙ store.get_other "circuit_breaker:open" "risk:mode" _ 30 _ refl
      ∙ store.get_set "risk:mode" _ 0 _

  breaker_written :
      (t rated : Time) (now : ℤ) (s : Service D F) (w : W)
      → let after = perform out (state_round t rated now s).1 w in
        (bus.get_string "circuit_breaker:open" after).1
        ≡ (if is_open_any now s.breaker then "true" else "false")
  unfolding state_round perform perform_one render
  breaker_written t rated now s w =
      store.get_other "margin:ratio_pct" "circuit_breaker:open" _ 30 _ refl
      ∙ store.get_set "circuit_breaker:open" _ 30 _
      ∙ bool_string-eq-if (is_open_any now s.breaker)

  -- On a bus that keeps its texts, right after the risk service has written its state the router executes
  -- an intent exactly when the mode of the daemon is milder than FLATTEN, the breaker is open for no symbol,
  -- and the intent was not processed before.
  pub handle-state_round :
      (client : Exchange W D F) (cfg : Config F) (intent : TradeIntent F) (router : Router)
      (t rated : Time) (now : ℤ) (s : Service D F) (w : W)
      → let after = perform out (state_round t rated now s).1 w in
        ((handle bus client cfg (some intent) router after).2 ≡ some intent.intent_id) ↔ (
          (rank s.daemon.mode < 3)
          × (is_open_any now s.breaker ≡ false)
          × (some_of (str_eq intent.intent_id) router.processed ≡ false))
  handle-state_round client cfg intent router t rated now s w =
      let after = perform out (state_round t rated now s).1 w in
      handle_iff bus client cfg intent router after s.daemon.mode (is_open_any now s.breaker)
        (mode_written t rated now s w)
        (store.get_get "risk:mode" "circuit_breaker:open" after ∙ breaker_written t rated now s w)
