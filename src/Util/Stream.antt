-- ===== src/Util/Stream.antt =====
-- util.c, read_with_retry: that it turns the pieces and interruptions of read(2) into the bytes
-- asked for.
use cagekeeper.Prelude.{
  ℕ, zero, suc, some, ◌+◌, ◌-◌, ◌≤◌, ◌<◌, ◌≡◌, refl, sym, ap, ◌∙◌, true, false, List, [], ◌++◌,
  append_assoc, append-nil, length, length-append, arith, ◌⊎◌, inl, inr,
}
use cagekeeper.Util.{
  ReadResult, arrived, end_of_file, interrupted, broken, ReadLoop, returned, no_rounds, after_read,
  read_loop, read_with_retry, SelectResult, selected, after_select, timed_loop, read_with_timeout,
}

-- `rest` is what a descriptor still brings, `delay` bounds the interruptions to come, and `IsBroken`
-- holds behind an error.
module _ {W : Type 0} (rest : W → List ℕ) (delay : W → ℕ) (IsBroken : W → Type 0) where
  -- What read(2) documents about a result for at most `n` bytes.
  unfoldable pub IsDocumented : ℕ → W → ReadResult → W → Type 0
  IsDocumented n w (arrived bytes) w' =
      (rest w ≡ bytes ++ rest w') × (0 < length bytes) × (length bytes ≤ n) × (delay w' ≤ delay w)
  IsDocumented n w end_of_file w' = rest w ≡ []
  IsDocumented n w interrupted w' = (rest w' ≡ rest w) × (delay w' < delay w)
  IsDocumented n w broken w' = IsBroken w'

  -- Success brings the next `left` bytes behind `got`; failure is a short stream or an error.
  unfoldable pub IsRead : List ℕ → ℕ → W → ReadLoop W → Type 0
  IsRead got left w (returned true all w') =
      (bytes : List ℕ) × (all ≡ got ++ bytes) × (rest w ≡ bytes ++ rest w') × (length bytes ≡ left)
  IsRead got left w (returned false all w') = (length (rest w) < left) ⊎ IsBroken w'
  IsRead got left w no_rounds = ⊥

  -- The bytes that a round has brought come before those of the rounds behind it.
  IsRead-arrived :
      (got bytes : List ℕ) (left : ℕ) (w w' : W) (r : ReadLoop W)
      → rest w ≡ bytes ++ rest w'
      → length bytes ≤ left
      → IsRead (got ++ bytes) (left - length bytes) w' r
      → IsRead got left w r
  unfolding IsRead
  IsRead-arrived got bytes left w w' (returned true all w'') e small (more, a, b, c) = (
    bytes ++ more,
    a ∙ append_assoc got bytes more,
    e ∙ ap (λ x. bytes ++ x) b ∙ sym (append_assoc bytes more (rest w'')),
    omega (arith, length-append bytes more),
  )
  IsRead-arrived got bytes left w w' (returned false all w'') e small (inl short) =
      inl (omega (arith, ap length e, length-append bytes (rest w')))
  IsRead-arrived got bytes left w w' (returned false all w'') e small (inr b) = inr b
  IsRead-arrived got bytes left w w' no_rounds e small h = h

  IsRead-interrupted :
      (got : List ℕ) (left : ℕ) (w w' : W) (r : ReadLoop W)
      → rest w' ≡ rest w
      → IsRead got left w' r
      → IsRead got left w r
  unfolding IsRead
  IsRead-interrupted got left w w' (returned true all w'') e (more, a, b, c) =
      (more, a, sym e ∙ b, c)
  IsRead-interrupted got left w w' (returned false all w'') e (inl short) = inl (rw (← e) short)
  IsRead-interrupted got left w w' (returned false all w'') e (inr b) = inr b
  IsRead-interrupted got left w w' no_rounds e h = h

  module _ (read : ℕ → W → ReadResult × W)
      (documented : (n : ℕ) (w : W)
        → IsDocumented (suc n) w (read (suc n) w).0 (read (suc n) w).1) where
    round :
        (f left : ℕ) (got : List ℕ) (w : W) (result : ReadResult) (w' : W)
        → IsDocumented (suc left) w result w'
        → left + delay w < f
        → ((left' : ℕ) (got' : List ℕ) (v : W)
            → left' + delay v < f
            → IsRead got' left' v (read_loop read f left' got' v))
        → IsRead got (suc left) w (
            after_read
              (read_loop read f (suc left) got w')
              (λ bytes. read_loop read f (suc left - length bytes) (got ++ bytes) w')
              got
              result
              w')
    unfolding IsDocumented after_read IsRead
    round f left got w (arrived bytes) w' d lt ih =
        IsRead-arrived got bytes (suc left) w w' _ d.0 d.2
          (ih (suc left - length bytes) (got ++ bytes) w' (omega (arith, d.1, d.2, d.3)))
    round f left got w end_of_file w' d lt ih = inl (omega (arith, ap length d))
    round f left got w interrupted w' d lt ih =
        IsRead-interrupted got (suc left) w w' _ d.0 (ih (suc left) got w' (omega (arith, d.1)))
    round f left got w broken w' d lt ih = inr d

    read_loop-IsRead :
        (f left : ℕ) (got : List ℕ) (w : W)
        → left + delay w < f
        → IsRead got left w (read_loop read f left got w)
    unfolding read_loop IsRead
    read_loop-IsRead f zero got w lt = ([], sym (append-nil got), refl, refl)
    read_loop-IsRead zero (suc left) got w lt = absurd (omega arith)
    read_loop-IsRead (suc f) (suc left) got w lt =
        round f left got w (read (suc left) w).0 (read (suc left) w).1 (documented left w)
          (omega arith) (λ left' got' v. read_loop-IsRead f left' got' v)

    -- With a round for each byte and each interruption to come, read_with_retry returns. If it
    -- returns true, the data are the next `len` bytes and the stream goes on behind them; if it
    -- returns false, the stream ends earlier or read(2) has failed.
    pub read_with_retry-IsRead :
        (f len : ℕ) (w : W) → len + delay w < f → IsRead [] len w (read_with_retry read f len w)
    unfolding read_with_retry
    read_with_retry-IsRead f len w lt = read_loop-IsRead f len [] w lt

after_read-same :
    {W : Type 0} (retry retry' : ReadLoop W) (more more' : List ℕ → ReadLoop W) (got : List ℕ)
    (result : ReadResult) (w : W)
    → retry ≡ retry'
    → ((bytes : List ℕ) → more bytes ≡ more' bytes)
    → after_read retry more got result w ≡ after_read retry' more' got result w
unfolding after_read
after_read-same retry retry' more more' got (arrived bytes) w h k = k bytes
after_read-same retry retry' more more' got end_of_file w h k = refl
after_read-same retry retry' more more' got interrupted w h k = h
after_read-same retry retry' more more' got broken w h k = refl

module _ {W : Type 0} (read : ℕ → W → ReadResult × W) (select : ℕ → W → SelectResult × ℕ × W)
    (time_left : ℕ → W → ℕ)
    (ready : (time : ℕ) (w : W) → select time w ≡ (selected true, time_left time w, w)) where
  timed_loop-read_loop :
      (f left : ℕ) (got : List ℕ) (time : ℕ) (w : W)
      → timed_loop read select f left got time w ≡ read_loop read f left got w
  unfolding timed_loop read_loop after_select
  timed_loop-read_loop f zero got time w = refl
  timed_loop-read_loop zero (suc left) got time w = refl
  timed_loop-read_loop (suc f) (suc left) got time w =
      let (result, w') = read (suc left) w in
      rw (ready time w) (
        after_read-same _ _ _ _ got result w'
          (timed_loop-read_loop f (suc left) got (time_left time w) w')
          λ bytes.
            timed_loop-read_loop f (suc left - length bytes) (got ++ bytes) (time_left time w) w')

  -- If select(2) says at once that there is something to read, each time it is asked,
  -- read_with_timeout does what read_with_retry does.
  pub read_with_timeout-read_with_retry :
      (f len time : ℕ) (w : W)
      → read_with_timeout read select f len (some time) w ≡ read_with_retry read f len w
  unfolding read_with_timeout read_with_retry
  read_with_timeout-read_with_retry f len time w = timed_loop-read_loop f len [] time w
