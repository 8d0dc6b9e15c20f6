-- ===== src/Store/Database/Receipts.antt =====
-- What the receipt of a command gives when the command is sent again.
use Prim.Native.String.{String}
use agent_loom.Base.{
  ℕ, ◌≡◌, refl, ap, ◌∙◌, true, false, Option, none, some, [], ◌∷◌, ◌++◌, arith, find_where,
  find_where_sound, find_where-append, find_where-update_where,
}
use agent_loom.Store.Result.{ok, ◌>>=◌, >>=-eq-ok, ok-pair-eq, to_i64}
use agent_loom.Store.Outcome.{ReceiptRow, ReceiptOutcome, OutcomeKind, CommandContext}
use agent_loom.Store.Database.{
  Database, ExistingReceipt, acquired, existing, acquire_receipt, finish_receipt, is_receipt_of,
  is_unknown, new_receipt, is_open_receipt_of,
}

-- What is stored of a command whose outcome is not known yet.
abbrev pub IsOpen : CommandContext → ReceiptRow → Type 0
IsOpen c r =
    (is_receipt_of c r ≡ true)
    × (r.request_hash ≡ c.request_hash)
    × (is_unknown r.outcome_kind ≡ true)

module _ (db : Database) (c : CommandContext) (now ttl : ℕ) where
  -- A new receipt leaves the other tables alone.
  pub acquire-acquired :
      {opened : Database}
      → acquire_receipt db c now ttl ≡ ok (acquired opened)
      → (find_where (is_receipt_of c) db.receipts ≡ none)
        × (to_i64 ttl ≡ ok ttl)
        × (opened ≡ record db { receipts = db.receipts ++ new_receipt c now ttl ∷ [] })
  unfolding acquire_receipt to_i64
  acquire-acquired h = ground arith

  -- A receipt that is finished answers a repeated command.
  pub acquire-existing :
      {t : ℕ} {r : ReceiptRow}
      → to_i64 ttl ≡ ok t
      → find_where (is_receipt_of c) db.receipts ≡ some r
      → r.request_hash ≡ c.request_hash
      → is_unknown r.outcome_kind ≡ false
      → acquire_receipt db c now ttl
        ≡ ok (existing (record { outcome = r.outcome; event_id = r.event_id }))
  unfolding acquire_receipt
  acquire-existing ht hr hh hk = ground arith

module _ (db : Database) (c : CommandContext) (kind : OutcomeKind) (outcome : ReceiptOutcome)
    (event_id : Option ℕ) (resource : Option (String × ℕ × ℕ)) where
  abbrev pub finished_receipt : ReceiptRow → ReceiptRow
  finished_receipt r = record r {
    outcome_kind = kind;
    outcome = some outcome;
    event_id = event_id;
    resource = resource;
  }

  pub finish-finds :
      {final : Database} {r : ReceiptRow}
      → finish_receipt db c kind outcome event_id resource ≡ ok final
      → find_where (is_receipt_of c) db.receipts ≡ some r
      → is_unknown r.outcome_kind ≡ true
      → find_where (is_receipt_of c) final.receipts ≡ some (finished_receipt r)
  unfolding finish_receipt
  finish-finds {final} {r} h found unknown = ground (
    arith,
    find_where_sound (is_receipt_of c) db.receipts found,
    find_where-update_where (is_open_receipt_of c) (is_receipt_of c) finished_receipt db.receipts
        (λ y. refl) found,
  )

-- A command that was finished under a new receipt finds its outcome when it is sent again, at any
-- time, if its work leaves the receipts alone.
pub replay :
    (db changed final : Database) (c : CommandContext) (now later ttl : ℕ) (kind : OutcomeKind)
    (outcome : ReceiptOutcome) (event_id : Option ℕ) (resource : Option (String × ℕ × ℕ))
    {opened : Database}
    → acquire_receipt db c now ttl ≡ ok (acquired opened)
    → changed.receipts ≡ opened.receipts
    → finish_receipt changed c kind outcome event_id resource ≡ ok final
    → is_unknown kind ≡ false
    → acquire_receipt final c later ttl
      ≡ ok (existing (record { outcome = some outcome; event_id = event_id }))
unfolding new_receipt
replay db changed final c now later ttl kind outcome event_id resource {opened} a kept f known =
    let (fresh, ttl_ok, opens) = acquire-acquired db c now ttl a in
    let found : find_where (is_receipt_of c) changed.receipts ≡ some (new_receipt c now ttl) =
      rw (kept, opens)
        (find_where-append (is_receipt_of c) db.receipts (new_receipt c now ttl) fresh
          (ground arith)) in
    acquire-existing final c later ttl ttl_ok
      (finish-finds changed c kind outcome event_id resource f found refl) refl known

-- A command's work ends by finishing its receipt, and touches no receipt before that.
pub record Finishes (opened final : Database) (c : CommandContext) (outcome : ReceiptOutcome)
    (event_id : Option ℕ) : Type 0 where
  pub changed : Database
  pub kind : OutcomeKind
  pub resource : Option (String × ℕ × ℕ)
  pub kept : changed.receipts ≡ opened.receipts
  pub known : is_unknown kind ≡ false
  pub finished : finish_receipt changed c kind outcome event_id resource ≡ ok final

pub Finishes-replay :
    (db opened final : Database) (c : CommandContext) (now later ttl : ℕ) (outcome : ReceiptOutcome)
    (event_id : Option ℕ)
    → acquire_receipt db c now ttl ≡ ok (acquired opened)
    → Finishes opened final c outcome event_id
    → acquire_receipt final c later ttl
      ≡ ok (existing (record { outcome = some outcome; event_id = event_id }))
Finishes-replay db opened final c now later ttl outcome event_id a f =
    replay db f.changed final c now later ttl f.kind outcome event_id f.resource a f.kept f.finished
      f.known

-- The end of each command: the receipt is finished, and the answer handed out.
pub finish-then :
    {A : Type 0} (opened changed : Database) (c : CommandContext) (kind : OutcomeKind)
    (outcome : ReceiptOutcome) (event_id : Option ℕ) (resource : Option (String × ℕ × ℕ)) (a : A)
    {final : Database} {answer : A}
    → changed.receipts ≡ opened.receipts
    → is_unknown kind ≡ false
    → ◌>>=◌ {B = Database × A}
        (finish_receipt changed c kind outcome event_id resource)
        (λ finished. ok (finished, a))
      ≡ ok (final, answer)
    → Finishes opened final c outcome event_id × (a ≡ answer)
finish-then opened changed c kind outcome event_id resource a kept known h =
    let (finished, done, r) =
      >>=-eq-ok (finish_receipt changed c kind outcome event_id resource) _ h in
    let (same, answered) = ok-pair-eq r in
    (
      record {
        changed = changed;
        kind = kind;
        resource = resource;
        kept = kept;
        known = known;
        finished = done ∙ ap ok same;
      },
      answered,
    )

-- A receipt that is read is read again at any time.
pub acquire-existing_again :
    (db : Database) (c : CommandContext) (now later ttl : ℕ) {r : ExistingReceipt}
    → acquire_receipt db c now ttl ≡ ok (existing r)
    → acquire_receipt db c later ttl ≡ ok (existing r)
unfolding acquire_receipt
acquire-existing_again db c now later ttl h = ground arith
