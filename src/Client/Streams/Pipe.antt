-- ===== src/Client/Streams/Pipe.antt =====
-- `fetchStreamRangeResp` and `fetchWatchResp` of client/client_stream.go, a step at a time: the
-- goroutine, its channel, which has a buffer for one response, and the reader of the channel.
pub mod Flow
pub mod Leak
pub mod Reader
use kubebrain_client.Prelude.{ℕ, ◌<◌, ◌≡◌, Bool, true, false, List, [], ◌∷◌, ◌++◌, length}
use kubebrain_client.Rpc.Stubs.{Recv, message, eof, failure}

-- The goroutine is about to receive, or has a response to send, after which the loop goes on or
-- breaks off, or has closed the channel and ended.
pub data Phase (A : Type 0) : Type 0 where
  receiving : Phase A
  sending : A → Bool → Phase A
  ended : Phase A

-- `incoming` is what `Recv` of the client's stream still gives, `received` what the reader has got.
pub record Pipe (E M A : Type 0) : Type 0 where
  pub incoming : List (Recv E M)
  pub phase : Phase A
  pub buffer : List A
  pub received : List A
  pub reading : Bool

-- `make(chan StreamRangeResponse, 1)`
abbrev pub capacity : ℕ
capacity = 1

-- `go fetchStreamRangeResp(ch, streamClient)`
abbrev pub started : {E M A : Type 0} → List (Recv E M) → Pipe E M A
started stream = record {
  incoming = stream;
  phase = receiving;
  buffer = [];
  received = [];
  reading = true;
}

module _ {E M A : Type 0} (value : M → A) (error : E → A) where
  -- What the goroutine does after a `Recv`.
  unfoldable pub after_recv : Recv E M → Phase A
  after_recv (message m) = sending (value m) false
  after_recv eof = ended
  after_recv (failure e) = sending (error e) true

  -- What it does after `output <- resp`.
  unfoldable pub after_send : Bool → Phase A
  after_send false = receiving
  after_send true = ended

  pub data Step (p : Pipe E M A) : Pipe E M A → Type 0 where
    recv :
        (x : Recv E M) (rest : List (Recv E M))
        → p.phase ≡ receiving
        → p.incoming ≡ x ∷ rest
        → Step p (record p { incoming = rest; phase = after_recv x })
    put :
        (x : A) (breaks : Bool)
        → p.phase ≡ sending x breaks
        → length p.buffer < capacity
        → Step p (record p { phase = after_send breaks; buffer = p.buffer ++ x ∷ [] })
    take :
        (x : A) (xs : List A)
        → p.reading ≡ true
        → p.buffer ≡ x ∷ xs
        → Step p (record p { buffer = xs; received = p.received ++ x ∷ [] })
    -- The reader receives no more.
    stop : Step p (record p { reading = false })

  pub data Reach (p : Pipe E M A) : Pipe E M A → Type 0 where
    here : Reach p p
    later : {q r : Pipe E M A} → Reach p q → Step q r → Reach p r
