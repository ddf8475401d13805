-- ===== src/Maintenance/Dynamo/Memory.antt =====
-- A table kept as the list of its puts, newest first: the parameter `Dynamo` at a concrete value.
-- `fails` says which transactions the service rejects for reasons of its own, and `reads` which
-- reads go through.
use flatrent.Base.{
  ◌≡◌, refl, Bool, true, false, not, Option, none, List, [], ◌∷◌, ◌++◌, All, some_of, arith,
  if◌then◌else◌,
}
use flatrent.Maintenance.Dynamo.{
  Key, Item, key_of, holds, Put, after, Outcome, written, condition_failed, rejected, Dynamo,
}

abbrev pub stored : List Put → Key → Option Item
stored s k = after s k none

abbrev pub broken : List Put → List Put → Bool
broken s ps = some_of (λ p. not (holds p.condition (stored s (key_of p.item)))) ps

pub after-append :
    (ps s : List Put) (k : Key) (old : Option Item)
    → after (ps ++ s) k old ≡ after ps k (after s k old)
after-append [] s k old = refl
after-append (p ∷ ps) s k old = ground (arith, after-append ps s k old)

pub All-holds :
    (s ps : List Put)
    → broken s ps ≡ false
    → All (λ p. holds p.condition (stored s (key_of p.item)) ≡ true) ps
All-holds s [] h = tt
All-holds s (p ∷ ps) h = (ground arith, All-holds s ps (ground arith))

module _ (fails : List Put → List Put → Bool) where
  abbrev pub transact : List Put → List Put → Outcome (List Put)
  transact s ps =
      if fails s ps then rejected else if broken s ps then condition_failed else written (ps ++ s)

  pub transact-written :
      (s s' ps : List Put)
      → transact s ps ≡ written s'
      → All (λ p. holds p.condition (stored s (key_of p.item)) ≡ true) ps
        × ((k : Key) → stored s' k ≡ after ps k (stored s k))
  transact-written s s' ps h =
      (All-holds s ps (ground arith), λ k. ground (arith, after-append ps s k none))

  pub transact-condition_failed :
      (s ps : List Put) → transact s ps ≡ condition_failed → broken s ps ≡ true
  transact-condition_failed s ps h = ground arith

  abbrev pub memory : (List Put → Key → Bool) → Dynamo (List Put)
  memory reads = record {
    item = stored;
    reads = reads;
    transact_write = transact;
    transact_write-written = transact-written;
    transact_write-condition_failed = transact-condition_failed;
  }
