-- ===== src/Execution/Once.antt =====
-- The loop of the router: which intents it executes, and that it executes none twice.
use trading_challenge.Prelude.{
  ℕ, zero, suc, ◌+◌, ◌≤◌, ◌<◌, ◌≡◌, refl, ap, ◌∙◌, leb, ◌||◌, ◌↔◌, inl, inr, Bool, true, false,
  Option, none, some, List, [], ◌∷◌, ◌++◌, arith, String, str_eq, eq_iff, if◌then◌else◌, some_of,
  Decimal, Float64, Convert, Bool-cases, Option-cases,
}
use trading_challenge.Arb.{TradeIntent}
use trading_challenge.Exchange.{Exchange}
use trading_challenge.Risk.Types.{Mode, running, paused, safe, flatten, halted, rank, mode_string}
use trading_challenge.Execution.Types.{Config}
use trading_challenge.Execution.Router.{
  Bus, Router, new_router, is_held, is_blocked, listed, handle, handle_all, poll,
}

-- How often an id stands in a list.
pub count : String → List String → ℕ
count i [] = 0
count i (x ∷ xs) = (if str_eq i x then 1 else 0) + count i xs

count-append : (i : String) (xs ys : List String) → count i (xs ++ ys) ≡ count i xs + count i ys
unfolding count
count-append i [] ys = omega arith
count-append i (x ∷ xs) ys = omega (arith, count-append i xs ys)

count_absent : (i : String) (xs : List String) → some_of (str_eq i) xs ≡ false → count i xs ≡ 0
unfolding count some_of
count_absent i [] absent = refl
count_absent i (x ∷ xs) absent = ground (arith, count_absent i xs)

-- What the gates make of the texts.
held_lem : (mode : Mode) → is_held (mode_string mode) ≡ leb 3 (rank mode)
unfolding is_held mode_string rank
held_lem running = refl
held_lem paused = refl
held_lem safe = refl
held_lem flatten = refl
held_lem halted = refl

tripped_lem : (tripped : Bool) → str_eq (if tripped then "true" else "false") "true" ≡ tripped
tripped_lem true = refl
tripped_lem false = refl

-- What the ids that a step executes add to the ids that were processed.
abbrev IsStep : String → Router → Router → List String → Type 0
IsStep i router router' ids =
    count i router.processed ≤ 1
    → (count i router'.processed ≡ count i ids + count i router.processed)
      × (count i router'.processed ≤ 1)

module _ {ω ℓ κ} {W : Type ω} {D : Type ℓ} {F : Type κ} ⦃dec : Decimal D⦄ ⦃flt : Float64 F⦄
    ⦃conv : Convert D F⦄ (bus : Bus W F) (client : Exchange W D F) where
  pushed-IsStep :
      (i id : String) (processed : List String)
      → some_of (str_eq id) processed ≡ false
      → count i processed ≤ 1
      → (count i (id ∷ processed) ≡ count i (id ∷ []) + count i processed)
        × (count i (id ∷ processed) ≤ 1)
  unfolding count
  pushed-IsStep i id processed fresh h = elim (Bool-cases (str_eq i id)) [
    | inl same ↦
        let equal : i ≡ id = (eq_iff i id).0 same in
        let none_of : count i processed ≡ 0 = rw equal (count_absent id processed fresh) in
        ground (arith, none_of, same)
    | inr other ↦ ground (arith, other)
  ]

  handle-IsStep :
      (cfg : Config F) (message : Option (TradeIntent F)) (router : Router) (w : W) (i : String)
      → let out = handle bus client cfg message router w in IsStep i router out.1 (listed out.2)
  unfolding handle count
  handle-IsStep cfg none router w i h = (omega arith, h)
  handle-IsStep cfg (some intent) router w i h =
      let gate = is_blocked bus w in
      elim (Bool-cases gate.1) [
        | inl blocked ↦ rw (blocked, handle) (omega arith, h)
        | inr clear ↦ elim (Bool-cases (some_of (str_eq intent.intent_id) router.processed)) [
          | inl seen ↦ rw (clear, seen, handle) (omega arith, h)
          | inr fresh ↦
              rw (clear, fresh, handle) (pushed-IsStep i intent.intent_id router.processed fresh h)
        ]
      ]

  -- One step after another.
  IsStep-append :
      (i : String) (a b c : Router) (first rest : List String)
      → IsStep i a b first
      → IsStep i b c rest
      → IsStep i a c (first ++ rest)
  IsStep-append i a b c first rest p q h =
      let (e, l) = p h in
      let (e', l') = q l in (omega (arith, e, e', count-append i first rest), l')

  handle_all-IsStep :
      (cfg : Config F) (messages : List (Option (TradeIntent F))) (router : Router) (w : W)
      (i : String)
      → let out = handle_all bus client cfg messages router w in IsStep i router out.1 out.2
  unfolding handle_all count
  handle_all-IsStep cfg [] router w i h = (omega arith, h)
  handle_all-IsStep cfg (message ∷ messages) router w i h =
      let first = handle bus client cfg message router w in
      let rest = handle_all bus client cfg messages first.1 first.0 in
      IsStep-append i router first.1 rest.1 (listed first.2) rest.2
        (handle-IsStep cfg message router w i) (handle_all-IsStep cfg messages first.1 first.0 i) h

  poll-IsStep :
      (cfg : Config F) (router : Router) (w : W) (i : String)
      → let out = poll bus client cfg router w in IsStep i router out.1 out.2
  unfolding poll count
  poll-IsStep cfg router w i h =
      let gate = is_blocked bus w in
      let batch = bus.read gate.0 in
      elim (Bool-cases gate.1) [
        | inl blocked ↦ rw (blocked, poll) (omega arith, h)
        | inr clear ↦ elim (Option-cases batch.1) [
          | inl failed ↦ rw (clear, failed, poll) (omega arith, h)
          | inr (messages, got) ↦
              rw (clear, got, poll) (handle_all-IsStep cfg messages router batch.0 i h)
        ]
      ]

  -- So many ticks, with the ids of the intents that they executed, in order.
  unfoldable pub ticks : ℕ → Config F → Router → W → W × Router × List String
  ticks zero cfg router w = (w, router, [])
  ticks (suc n) cfg router w =
      let (w₁, router₁, ids) = poll bus client cfg router w in
      let (w₂, router₂, more) = ticks n cfg router₁ w₁ in (w₂, router₂, ids ++ more)

  ticks-IsStep :
      (n : ℕ) (cfg : Config F) (router : Router) (w : W) (i : String)
      → let out = ticks n cfg router w in IsStep i router out.1 out.2
  unfolding ticks count
  ticks-IsStep zero cfg router w i h = (omega arith, h)
  ticks-IsStep (suc n) cfg router w i h =
      let first = poll bus client cfg router w in
      let rest = ticks n cfg first.1 first.0 in
      IsStep-append i router first.1 rest.1 first.2 rest.2 (poll-IsStep cfg router w i)
        (ticks-IsStep n cfg first.1 first.0 i) h

  -- In any number of ticks no intent is executed twice, whatever Redis delivers.
  pub executed_once :
      (n : ℕ) (cfg : Config F) (w : W) (i : String) → count i (ticks n cfg new_router w).2 ≤ 1
  unfolding count
  executed_once n cfg w i =
      let (e, l) = ticks-IsStep n cfg new_router w i (omega arith) in omega (arith, e, l)

  blocked_lem :
      (w : W) (mode : Mode) (tripped : Bool)
      → (bus.get_string "risk:mode" w).1 ≡ mode_string mode
      → (bus.get_string "circuit_breaker:open" (bus.get_string "risk:mode" w).0).1
        ≡ (if tripped then "true" else "false")
      → (is_blocked bus w).1 ≡ leb 3 (rank mode) || tripped
  unfolding is_blocked
  blocked_lem w mode tripped m b =
      let held : is_held (bus.get_string "risk:mode" w).1 ≡ leb 3 (rank mode) =
        ap is_held m ∙ held_lem mode in
      let broken = ap (λ s. str_eq s "true") b ∙ tripped_lem tripped in
      elim (Bool-cases (leb 3 (rank mode))) [
        | inl severe ↦ rw (severe, held, severe, is_blocked) refl
        | inr mild ↦ rw (mild, held, mild, is_blocked) broken
      ]

  -- With the mode of the risk daemon and the state of a breaker on the bus, an intent is executed exactly
  -- when the mode is milder than FLATTEN, the breaker is closed and the intent was not processed before.
  pub handle_iff :
      (cfg : Config F) (intent : TradeIntent F) (router : Router) (w : W) (mode : Mode)
      (tripped : Bool)
      → (bus.get_string "risk:mode" w).1 ≡ mode_string mode
      → (bus.get_string "circuit_breaker:open" (bus.get_string "risk:mode" w).0).1
        ≡ (if tripped then "true" else "false")
      → ((handle bus client cfg (some intent) router w).2 ≡ some intent.intent_id) ↔ (
          (rank mode < 3)
          × (tripped ≡ false)
          × (some_of (str_eq intent.intent_id) router.processed ≡ false))
  unfolding handle
  handle_iff cfg intent router w mode tripped m b =
      let gate = blocked_lem w mode tripped m b in
      elim (Bool-cases (is_blocked bus w).1) [
        | inl blocked ↦ rw (blocked, handle) (ground (arith, gate, blocked))
        | inr clear ↦ elim (Bool-cases (some_of (str_eq intent.intent_id) router.processed)) [
          | inl seen ↦ rw (clear, seen, handle) (ground (arith, seen))
          | inr new ↦ rw (clear, new, handle) (ground (arith, gate, clear, new))
        ]
      ]
