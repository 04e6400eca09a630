-- ===== src/Sokel/Workers.antt =====
-- `concurrentHandler` and `dispatchConcurrency` of sokel/transport_nats.go: calls that are handled
-- at the same time.
pub mod Limits
use sokel_plugin_sdk.Base.{
  ℕ, zero, suc, ◌+◌, ◌-◌, ◌<◌, Text, Bool, Option, none, some, List, [], ◌∷◌, ◌++◌, ◌≡◌, ℤ, pos,
  negsuc, trim_space, is_empty, if◌then◌else◌,
}

-- The channel that a handler with a cap acquires before it starts a goroutine.
pub data Semaphore : Type 0 where
  uncapped : Semaphore
  capped : ℕ → Semaphore

-- `limit <= 0` means no cap.
unfoldable pub semaphore_of : ℤ → Semaphore
semaphore_of (pos zero) = uncapped
semaphore_of (pos (suc n)) = capped (suc n)
semaphore_of (negsuc n) = uncapped

-- The messages of the subscription that wait, the elements of the channel, the calls that run, the
-- latest first, and the calls that have ended, the latest first. The subscription delivers one
-- message at a time.
pub record Pool : Type 0 where
  pub waiting : List ℕ
  pub slots : ℕ
  pub running : List ℕ
  pub ended : List ℕ

pub data Step (sem : Semaphore) (p : Pool) : Pool → Type 0 where
  -- `go fn(m)`
  start_uncapped :
      (m : ℕ) (ms : List ℕ)
      → sem ≡ uncapped
      → p.waiting ≡ m ∷ ms
      → Step sem p (record p { waiting = ms; running = m ∷ p.running })
  -- `sem <- struct{}{}`, then the goroutine
  start_capped :
      (m limit : ℕ) (ms : List ℕ)
      → sem ≡ capped limit
      → p.waiting ≡ m ∷ ms
      → p.slots < limit
      → Step sem p (record p { waiting = ms; slots = suc p.slots; running = m ∷ p.running })
  end_uncapped :
      (m : ℕ) (rs rs' : List ℕ)
      → sem ≡ uncapped
      → p.running ≡ rs ++ m ∷ rs'
      → Step sem p (record p { running = rs ++ rs'; ended = m ∷ p.ended })
  -- `<-sem`, deferred
  end_capped :
      (m n limit : ℕ) (rs rs' : List ℕ)
      → sem ≡ capped limit
      → p.running ≡ rs ++ m ∷ rs'
      → p.slots ≡ suc n
      → Step sem p (record p { slots = n; running = rs ++ rs'; ended = m ∷ p.ended })

abbrev initial : List ℕ → Pool
initial ms = record { waiting = ms; slots = 0; running = []; ended = [] }

pub data Reach (sem : Semaphore) (ms : List ℕ) : Pool → Type 0 where
  at_start : Reach sem ms (initial ms)
  after : {p q : Pool} → Reach sem ms p → Step sem p q → Reach sem ms q

non_negative : ℤ → ℤ
non_negative (pos n) = pos n
non_negative (negsuc n) = pos 0

-- `dispatchConcurrency`; `variable` is the value in the environment, and `atoi` is `strconv.Atoi`.
unfoldable dispatch_concurrency : (Text → Option ℤ) → Text → ℤ
unfolding non_negative
dispatch_concurrency atoi variable =
    if is_empty (trim_space variable)
    then pos 0
    else elim (atoi (trim_space variable)) [ none ↦ pos 0 | some n ↦ non_negative n ]
