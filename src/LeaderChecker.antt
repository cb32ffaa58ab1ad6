-- ===== src/LeaderChecker.antt =====
-- client/leader.go: the health checks of all endpoints, of which the first that succeeds is the
-- leader's.
--
-- `grpcHealthCheck` of an endpoint is one call whose result is the argument `healthy`; it may take
-- any time. The channels have no buffer, so that a send and its receipt by `checkLeader` are one step.
-- Logging is left out.
pub mod Invariant
pub mod Answers
pub mod Health
pub mod Settles
use kubebrain_client.Prelude.{
  ℕ, ◌≡◌, Bool, true, false, Option, none, some, List, [], ◌∷◌, Bytes, if◌then◌else◌, ◌&&◌, map,
  get_elem?, set,
}
use kubebrain_client.LeaderCtrl.{Answer}

-- The goroutine of one endpoint: in the health check, in the `select` with its address, or done.
pub data Phase : Type 0 where
  checking : Phase
  offering : Phase
  gone : Phase

pub record Probe : Type 0 where
  pub endpoint : Bytes
  pub phase : Phase

-- A run of `checkLeader`. `expired` is the state of `ctx`: its second is over, or `checkLeader` has
-- returned and cancelled it. `answer` is what it has returned.
pub record Checker : Type 0 where
  pub probes : List Probe
  pub expired : Bool
  pub answer : Option Answer

-- `ep2Addr`, with no error
unfoldable pub leader_at : Bytes → Answer
leader_at ep = record { addr = ep; failed = false }

-- `resolver.Address{}` with `ErrNoLeader`
abbrev pub no_leader : Answer
no_leader = record { addr = []; failed = true }

-- `checkLeader` returns, and `cancel` runs.
abbrev pub returns : Answer → Checker → Checker
returns answer c = record c { expired = true; answer = some answer }

-- After the health check: `if isHealth`
unfoldable pub checked : Bool → Probe → Probe
checked healthy p = record p { phase = if healthy then offering else gone }

pub is_gone : Phase → Bool
is_gone checking = false
is_gone offering = false
is_gone gone = true

-- What `wg.Wait()` waits for.
unfoldable pub all_gone : List Probe → Bool
unfolding is_gone
all_gone [] = true
all_gone (p ∷ ps) = is_gone p.phase && all_gone ps

-- The goroutines that `checkLeader` starts.
unfoldable pub started : List Bytes → Checker
started endpoints = record {
  probes = map (λ ep. record { endpoint = ep; phase = checking }) endpoints;
  expired = false;
  answer = none;
}

pub data Step (healthy : Bytes → Bool) (c : Checker) : Checker → Type 0 where
  check :
      (i : ℕ) (p : Probe)
      → get_elem? c.probes i ≡ some p
      → p.phase ≡ checking
      → Step healthy c (record c { probes = set c.probes i (checked (healthy p.endpoint) p) })
  -- `addrc <- addr`, received by `checkLeader`
  accept :
      (i : ℕ) (p : Probe)
      → get_elem? c.probes i ≡ some p
      → p.phase ≡ offering
      → c.answer ≡ none
      → Step healthy c (
          returns
            (leader_at p.endpoint)
            (record c { probes = set c.probes i (record p { phase = gone }) }))
  -- `<-ctx.Done()` in the goroutine of an endpoint
  withdraw :
      (i : ℕ) (p : Probe)
      → get_elem? c.probes i ≡ some p
      → p.phase ≡ offering
      → c.expired ≡ true
      → Step healthy c (record c { probes = set c.probes i (record p { phase = gone }) })
  -- `errc <- ierrors.ErrNoLeader`, received by `checkLeader`
  give_up : all_gone c.probes ≡ true → c.answer ≡ none → Step healthy c (returns no_leader c)
  -- The second is over.
  expire : Step healthy c (record c { expired = true })
  -- `<-ctx.Done()` in `checkLeader`
  time_out : c.expired ≡ true → c.answer ≡ none → Step healthy c (returns no_leader c)

pub data Reach (healthy : Bytes → Bool) (c : Checker) : Checker → Type 0 where
  here : Reach healthy c c
  later : {d e : Checker} → Reach healthy c d → Step healthy d e → Reach healthy c e
