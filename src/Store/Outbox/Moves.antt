-- ===== src/Store/Outbox/Moves.antt =====
-- What the outbox promises of one message, without leases and times: the life of a delivery.
use agent_loom.Base.{ℕ, ◌+◌, ◌≤◌, ◌≡◌, refl, Bool, true, false, arith}
use agent_loom.Store.Rows.{OutboxRow, OutboxStatus}

-- Each with the attempts made so far.
pub data Delivery : Type 0 where
  waiting attempted delivered : ℕ → Delivery

abbrev pub attempts : Delivery → ℕ
attempts (waiting n) = n
attempts (attempted n) = n
attempts (delivered n) = n

-- The one move a message makes in a transaction.
pub data Move : Delivery → Delivery → Type 0 where
  take : {n : ℕ} → Move (waiting n) (attempted (n + 1))
  retake : {n : ℕ} → Move (attempted n) (attempted (n + 1))
  retry : {n : ℕ} → Move (attempted n) (waiting n)
  publish : {n : ℕ} → Move (attempted n) (delivered n)

pub data Moves (start : Delivery) : Delivery → Type 0 where
  stay : Moves start start
  move : {middle end : Delivery} → Moves start middle → Move middle end → Moves start end

-- How a row of the table stands for a delivery.
abbrev pub delivery_of : OutboxRow → Delivery
delivery_of o = elim o.status [
  | OutboxStatus.pending ↦ waiting o.attempt
  | OutboxStatus.publishing ↦ attempted o.attempt
  | OutboxStatus.published ↦ delivered o.attempt
]

pub Moves-trans : {a b c : Delivery} → Moves a b → Moves b c → Moves a c
Moves-trans first stay = first
Moves-trans first (move before step) = move (Moves-trans first before) step

abbrev pub is_over : Delivery → Bool
is_over (delivered n) = true
is_over _ = false

Move-source : {a b : Delivery} → Move a b → is_over a ≡ false
Move-source take = refl
Move-source retake = refl
Move-source retry = refl
Move-source publish = refl

-- A delivery that is over stays as it is.
pub Moves-over : {a b : Delivery} → Moves a b → is_over a ≡ true → b ≡ a
Moves-over stay over = refl
Moves-over (move before step) over =
    let same = Moves-over before over in
    absurd (let open_source = Move-source step in ground (arith, same))

Move-attempts : {a b : Delivery} → Move a b → attempts a ≤ attempts b
Move-attempts take = omega arith
Move-attempts retake = omega arith
Move-attempts retry = omega arith
Move-attempts publish = omega arith

-- The attempts are never fewer.
pub Moves-attempts : {a b : Delivery} → Moves a b → attempts a ≤ attempts b
Moves-attempts stay = omega arith
Moves-attempts (move before step) = omega (arith, Moves-attempts before, Move-attempts step)
