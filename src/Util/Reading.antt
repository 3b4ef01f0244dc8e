-- ===== src/Util/Reading.antt =====
-- util.c: read_with_retry and read_with_timeout. read(2) and select(2) are parameters: they act on
-- the state `W` of the system.
use cagekeeper.Prelude.{
  ℕ, zero, suc, ◌-◌, Bool, true, false, Option, none, some, List, [], ◌++◌, length,
}

-- What read(2) returns: bytes, 0, -1 with EINTR or EAGAIN, -1 with another error.
pub data ReadResult : Type 0 where
  arrived : List ℕ → ReadResult
  end_of_file interrupted broken : ReadResult

-- What select(2) returns: whether the descriptor is ready, -1 with EINTR or EAGAIN, -1 otherwise.
pub data SelectResult : Type 0 where
  selected : Bool → SelectResult
  select_interrupted select_broken : SelectResult

-- Whether a loop ends: with its result and `got`, or not within the rounds that were given.
pub data ReadLoop (W : Type 0) : Type 0 where
  returned : Bool → List ℕ → W → ReadLoop W
  no_rounds : ReadLoop W

-- `retry` goes on at the same `pos`, `more` behind the bytes that have arrived.
unfoldable pub after_read :
    {W : Type 0} → ReadLoop W → (List ℕ → ReadLoop W) → List ℕ → ReadResult → W → ReadLoop W
after_read retry more got (arrived bytes) w = more bytes
after_read retry more got end_of_file w = returned false got w
after_read retry more got interrupted w = retry
after_read retry more got broken w = returned false got w

module _ {W : Type 0} (read : ℕ → W → ReadResult × W) where
  -- The loop: `left` is `len-pos`, and `got` the bytes before `pos`.
  unfoldable pub read_loop : ℕ → ℕ → List ℕ → W → ReadLoop W
  unfolding after_read
  read_loop f zero got w = returned true got w
  read_loop zero (suc left) got w = no_rounds
  read_loop (suc f) (suc left) got w =
      let (result, w') = read (suc left) w in
      after_read (read_loop f (suc left) got w')
        (λ bytes. read_loop f (suc left - length bytes) (got ++ bytes) w') got result w'

  unfoldable pub read_with_retry : ℕ → ℕ → W → ReadLoop W
  unfolding read_loop
  read_with_retry f len w = read_loop f len [] w

  module _ (select : ℕ → W → SelectResult × ℕ × W) where
    -- `again` waits again, `go` reads.
    unfoldable pub after_select : ReadLoop W → ReadLoop W → List ℕ → SelectResult → W → ReadLoop W
    after_select again go got (selected true) w = go
    after_select again go got (selected false) w = returned false got w
    after_select again go got select_interrupted w = again
    after_select again go got select_broken w = returned false got w

    -- The two loops as one: each round waits, with what select(2) has left of the time, and reads.
    unfoldable pub timed_loop : ℕ → ℕ → List ℕ → ℕ → W → ReadLoop W
    unfolding after_select after_read
    timed_loop f zero got time w = returned true got w
    timed_loop zero (suc left) got time w = no_rounds
    timed_loop (suc f) (suc left) got time w =
        let (waited, time', w₁) = select time w in
        let (result, w₂) = read (suc left) w₁ in
        after_select (timed_loop f (suc left) got time' w₁)
          (after_read (timed_loop f (suc left) got time' w₂)
            (λ bytes. timed_loop f (suc left - length bytes) (got ++ bytes) time' w₂) got result w₂)
          got waited w₁

    unfoldable pub read_with_timeout : ℕ → ℕ → Option ℕ → W → ReadLoop W
    unfolding timed_loop read_with_retry
    read_with_timeout f len none w = read_with_retry f len w
    read_with_timeout f len (some time) w = timed_loop f len [] time w
