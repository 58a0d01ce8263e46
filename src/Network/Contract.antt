-- ===== src/Network/Contract.antt =====
-- scripts/verify_contract.py: the checks of a command payload against network/schemas/topics.yaml, as
-- the loop over the captured publishes makes them.
pub mod Commands
use semaforo.Prelude.{
  ℕ, ◌+◌, String, Bool, true, false, ◌&&◌, not, Option, none, some, List, [], ◌∷◌, str_eq, ltb, leb,
  ◌==◌, if◌then◌else◌, ℤ, pos_part, neg_part, ◌-ℤ◌,
}
use semaforo.Network.Message.{Command, Payload, Message, command, plan, pulse}

abbrev pub mem_text : String → List String → Bool
mem_text x [] = false
mem_text x (y ∷ ys) = if str_eq x y then true else mem_text x ys

-- `allowed_actions` and `allowed_phases` of the commands channel
abbrev pub allowed_actions : List String
allowed_actions = "CHANGE_PHASE" ∷ []

abbrev pub allowed_phases : List String
allowed_phases =
    "GREEN_NS" ∷ "YELLOW_NS" ∷ "ALL_RED" ∷ "GREEN_EW" ∷ "YELLOW_EW" ∷ "GREEN_NS_LEFT"
    ∷ "GREEN_EW_LEFT" ∷ []

-- abs(now_ms - timestamp) < 5_000
abbrev pub is_fresh : ℤ → ℤ → Bool
is_fresh now stamp = ltb (pos_part (now -ℤ stamp) + neg_part (now -ℤ stamp)) 5000

-- A payload of another kind has no "action".
abbrev pub check_payload : {W : Type 0} → ℤ → Payload W → Bool
check_payload now (command c) =
    mem_text c.action allowed_actions && mem_text c.phase allowed_phases && is_fresh now c.timestamp
check_payload now (plan _) = false
check_payload now (pulse _) = false

abbrev pub check_sequence : ℕ → Option ℕ → Bool
check_sequence previous none = false
check_sequence previous (some k) = leb 1 k && ltb previous k

abbrev pub seq_or : ℕ → Option ℕ → ℕ
seq_or previous none = previous
seq_or previous (some k) = k

module _ {W : Type 0} where
  unfoldable pub check_message : ℤ → String → ℕ → Message W → Bool
  check_message now topic previous m =
      str_eq m.topic topic
      && m.qos == 1
      && not m.retain
      && check_payload now m.payload
      && check_sequence previous m.sequence_number

  -- The loop, which stops at the first violation.
  unfoldable pub check_published : ℤ → String → ℕ → List (Message W) → Bool
  unfolding check_message
  check_published now topic previous [] = true
  check_published now topic previous (m ∷ ms) =
      let rest = check_published now topic (seq_or previous m.sequence_number) ms in
      if check_message now topic previous m then rest else false
