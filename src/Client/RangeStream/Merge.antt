-- ===== src/Client/RangeStream/Merge.antt =====
-- The concurrent range stream of client/client_stream.go: one callback for each partition, all with
-- one output, and the group of client/util.go that runs them.
--
-- The goroutines run in any order, a step at a time. `errgroup` starts a function at once, cancels its
-- context at the first error, and its `Wait` returns when all have ended. The reader takes all that is
-- sent to the output, so a send does not wait for ever. The context is that of the group as the callbacks
-- see it: `Wait` cancels it too when all have ended, before the output is closed, when none is left to
-- look at it, and that is not counted as done.
pub mod Parts
pub mod Invariant
pub mod Delivery
pub mod Measure
pub mod Progress
pub mod Start
pub mod CutShort
use kubebrain_client.Prelude.{
  ℕ, ◌<◌, ◌≡◌, ◌^◌, ◌&&◌, ◌||◌, Bool, true, false, Option, none, some, List, [], ◌∷◌, ◌++◌, map,
  Bytes, Result, ok, err, Chan, ltb, ◌==◌, if◌then◌else◌, get_elem?, set,
}
use kubebrain_client.Rpc.Messages.{RangeRequest}
use kubebrain_client.Rpc.Stubs.{Conn, read_list_partition}
use kubebrain_client.Client.Options.{RangeStreamRequest}
use kubebrain_client.Client.Streams.{StreamRangeResponse, err_of, one_error}
use kubebrain_client.Client.RangeStream.{
  list_of, partition_requests, range_stream, single_range_stream,
}

-- How a callback ends: at the end of its input, at the error of a response that it has sent on,
-- because the context is done, or without a start, at `LimitErrGroup.Go`.
pub data Ended (E : Type 0) : Type 0 where
  finished : Ended E
  failed : E → Ended E
  canceled : Ended E
  skipped : Ended E

-- Between two responses, with a response in hand that it sends, or at the end.
pub data Phase (E : Type 0) : Type 0 where
  receiving : Phase E
  sending : Phase E
  ended : Ended E → Phase E

-- A run of `rangeStreamCallBack`. A response in hand is still the first of `input`.
pub record Task (E : Type 0) : Type 0 where
  pub phase : Phase E
  pub input : List (StreamRangeResponse E)
  pub closed : Bool

-- `limited` says that the group is a `LimitErrGroup`; `done` that its context is.
pub record Merge (E : Type 0) : Type 0 where
  pub limited : Bool
  pub waiting : List (Chan (StreamRangeResponse E))
  pub tasks : List (Task E)
  pub output : List (StreamRangeResponse E)
  pub done : Bool
  pub closed : Bool

-- What a step of a callback changes.
pub record Effect (E : Type 0) : Type 0 where
  pub task : Task E
  pub sent : List (StreamRangeResponse E)
  pub cancels : Bool

module _ {E : Type 0} (errorf : Bytes → E) where
  -- `for resp := range input`, and the `select`
  receive : Bool → Task E → Option (Effect E)
  receive done t = elim t.input [
    | [] ↦
        if t.closed
        then some
            (record { task = record t { phase = ended finished }; sent = []; cancels = false })
        else none
    | x ∷ xs ↦
        if done
        then some (record { task = record t { phase = ended canceled }; sent = []; cancels = true })
        else some (record { task = record t { phase = sending }; sent = []; cancels = false })
  ]

  -- `output <- resp`, and the look at its error
  send_on : Task E → Option (Effect E)
  send_on t = elim t.input [
    | [] ↦ none
    | x ∷ xs ↦ elim (err_of errorf x.stream_err) [
      | none ↦ some (record {
        task = record t { phase = receiving; input = xs };
        sent = x ∷ [];
        cancels = false;
      })
      | some e ↦ some (record {
        task = record t { phase = ended (failed e); input = xs };
        sent = x ∷ [];
        cancels = true;
      })
    ]
  ]

  -- The step of a callback, if it can take one.
  unfoldable pub advance : Bool → Task E → Option (Effect E)
  unfolding receive send_on
  advance done t = elim t.phase [
    | receiving ↦ receive done t
    | sending ↦ send_on t
    | ended how ↦ none
  ]

module _ {E : Type 0} where
  pub is_ended : Phase E → Bool
  is_ended receiving = false
  is_ended sending = false
  is_ended (ended how) = true

  unfoldable pub all_ended : List (Task E) → Bool
  unfolding is_ended
  all_ended [] = true
  all_ended (t ∷ ts) = is_ended t.phase && all_ended ts

  abbrev pub task_of : Phase E → Chan (StreamRangeResponse E) → Task E
  task_of phase c = record { phase = phase; input = c.sent; closed = c.closed }

-- One step of all of them. The loop of `concurrentRangeStream` passes the callbacks to `Go` one
-- after the other. `LimitErrGroup.Go` takes a token, which it has back when it returns, so that there
-- always is one; if the context is done, it may return without a start instead.
pub data Step {E : Type 0} (errorf : Bytes → E) (m : Merge E) : Merge E → Type 0 where
  go :
      (c : Chan (StreamRangeResponse E)) (cs : List (Chan (StreamRangeResponse E)))
      → m.waiting ≡ c ∷ cs
      → Step errorf m (record m { waiting = cs; tasks = m.tasks ++ task_of receiving c ∷ [] })
  skip :
      (c : Chan (StreamRangeResponse E)) (cs : List (Chan (StreamRangeResponse E)))
      → m.waiting ≡ c ∷ cs
      → m.limited ≡ true
      → m.done ≡ true
      → Step errorf m (record m { waiting = cs; tasks = m.tasks ++ task_of (ended skipped) c ∷ [] })
  run :
      (i : ℕ) (t : Task E) (f : Effect E)
      → get_elem? m.tasks i ≡ some t
      → advance errorf m.done t ≡ some f
      → Step errorf m (record m {
        tasks = set m.tasks i f.task;
        output = m.output ++ f.sent;
        done = m.done || f.cancels;
      })
  -- The caller's context is done.
  cancel : Step errorf m (record m { done = true })
  -- `g.Wait(); close(ch)`
  close :
      m.waiting ≡ []
      → all_ended m.tasks ≡ true
      → m.closed ≡ false
      → Step errorf m (record m { closed = true })

pub data Reach {E : Type 0} (errorf : Bytes → E) (m : Merge E) : Merge E → Type 0 where
  here : Reach errorf m m
  later : {n o : Merge E} → Reach errorf m n → Step errorf n o → Reach errorf m o

-- `NewConcurrentLimitGroup`: `int(maxConcurrent)` is positive. No group has been run yet.
unfoldable pub opened : {E : Type 0} → ℕ → List (Chan (StreamRangeResponse E)) → Merge E
opened n inputs = record {
  limited = ltb 0 n && ltb n (2 ^ 63);
  waiting = inputs;
  tasks = [];
  output = [];
  done = false;
  closed = false;
}

-- The channel that `RangeStream` returns: all that comes from it, or the callbacks that write to it.
pub data Stream (E : Type 0) : Type 0 where
  single : Chan (StreamRangeResponse E) → Stream E
  merged : Merge E → Stream E

module _ {E : Type 0} (cc : Conn E) where
  inputs_of : List RangeRequest → List (Chan (StreamRangeResponse E))
  inputs_of reqs = map (range_stream cc) reqs

  -- `concurrentRangeStream`; `none` is the panic at a nil header.
  unfoldable pub concurrent_range_stream : RangeStreamRequest → Option (Stream E)
  unfolding opened inputs_of partition_requests list_of one_error read_list_partition
  concurrent_range_stream req = elim (read_list_partition cc (list_of req.range_request)) [
    | err e ↦ some (single (one_error e))
    | ok resp ↦ elim (partition_requests req.range_request resp) [
      | none ↦ none
      | some reqs ↦ some (merged (opened req.max_concurrent (inputs_of reqs)))
    ]
  ]

  single_of : Option (Chan (StreamRangeResponse E)) → Option (Stream E)
  single_of none = none
  single_of (some c) = some (single c)

  -- `RangeStream`, for the request after its options
  unfoldable pub range_stream_of : RangeStreamRequest → Option (Stream E)
  unfolding concurrent_range_stream single_range_stream single_of
  range_stream_of req =
      if req.max_concurrent == 1
      then single_of (single_range_stream cc req.range_request)
      else concurrent_range_stream req
