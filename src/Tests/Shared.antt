-- ===== src/Tests/Shared.antt =====
-- util.c and language.c at concrete inputs.
use cagekeeper.Prelude.{
  ◌-◌, ◌++◌, ℕ, zero, suc, ◌+◌, ◌≡◌, ◌≢◌, ◌<◌, refl, true, false, some, List, [], ◌∷◌, arith,
}
use cagekeeper.Language.{
  Language, Process, ended, default_action, sigalarm, with_timeout, call_function_with_timeout,
}
use cagekeeper.Language.Timeout.{
  IsSilent, with_timeout_never_reports, call_function_with_timeout_in_time,
}
use cagekeeper.Util.{
  SelectResult, selected, read_with_timeout, concat_paths, path_seperator, escape_string,
  read_with_retry, ReadResult, arrived, end_of_file, interrupted,
}
use cagekeeper.Util.Escaping.{unescape, unescape-escape_string}
use cagekeeper.Util.Paths.{separators, EndsBare, StartsBare, concat_paths-separators}
use cagekeeper.Util.Stream.{
  read_with_timeout-read_with_retry, IsDocumented, IsRead, read_with_retry-IsRead,
}
use cagekeeper.Value.{array, nil, int32}

unescape-escape_string_example :
    unescape false (escape_string (97 ∷ 10 ∷ 92 ∷ [])) ≡ some (97 ∷ 10 ∷ 92 ∷ [])
unescape-escape_string_example = unescape-escape_string (97 ∷ 10 ∷ 92 ∷ [])

-- A descriptor that brings one byte at a time, after so many interruptions.
data Source : Type 0 where
  source : List ℕ → ℕ → Source

unfoldable bytes_of : Source → List ℕ
bytes_of (source bytes delay) = bytes

unfoldable delay_of : Source → ℕ
delay_of (source bytes delay) = delay

unfoldable read_source : ℕ → Source → ReadResult × Source
read_source n (source bytes (suc d)) = (interrupted, source bytes d)
read_source n (source [] zero) = (end_of_file, source [] zero)
read_source n (source (b ∷ bs) zero) = (arrived (b ∷ []), source bs zero)

-- An interpreter that takes three seconds for everything, and knows every function.
abbrev slow : Language ℕ
slow = record {
  compile_script = λ script s. (true, 3, suc s);
  is_function = λ name s. (true, 3, s);
  call_function = λ name args s. (some (int32 s), 3, suc s);
}

abbrev process : Process ℕ
process = record {
  guest = 0;
  alarm = 0;
  sigalrm = default_action;
  sigprof = default_action;
  has_log = true;
  told = [];
}

default_action_other : default_action ≢ sigalarm
default_action_other = ground arith

with_timeout_never_reports_example :
    IsSilent (with_timeout slow (some (120 ∷ [])) (some (102 ∷ [])) (array nil) 1 process)
with_timeout_never_reports_example =
    with_timeout_never_reports slow (some (120 ∷ [])) (some (102 ∷ [])) (array nil) 1 process
      default_action_other

call_function_with_timeout_in_time_example :
    call_function_with_timeout slow (102 ∷ []) (array nil) 10 process
    ≡ ended false (some (int32 0)) (record process { guest = 1; alarm = 0 })
call_function_with_timeout_in_time_example =
    call_function_with_timeout_in_time slow (102 ∷ []) (array nil) 10 process (omega arith)

source-IsDocumented :
    (n : ℕ) (w : Source)
    → IsDocumented bytes_of delay_of
        (λ v. ⊥)
        (suc n)
        w
        (read_source (suc n) w).0
        (read_source (suc n) w).1
unfolding IsDocumented read_source bytes_of delay_of
source-IsDocumented n (source bytes (suc d)) = (refl, omega arith)
source-IsDocumented n (source [] zero) = refl
source-IsDocumented n (source (b ∷ bs) zero) = (refl, omega arith, omega arith, omega arith)

source_delay : 2 + delay_of (source (7 ∷ 8 ∷ 9 ∷ []) 3) < 6
unfolding delay_of
source_delay = omega arith

read_with_retry-IsRead_example :
    IsRead bytes_of delay_of
      (λ v. ⊥)
      []
      2
      (source (7 ∷ 8 ∷ 9 ∷ []) 3)
      (read_with_retry read_source 6 2 (source (7 ∷ 8 ∷ 9 ∷ []) 3))
read_with_retry-IsRead_example =
    read_with_retry-IsRead bytes_of delay_of (λ v. ⊥) read_source source-IsDocumented 6 2
      (source (7 ∷ 8 ∷ 9 ∷ []) 3) source_delay

-- A source that is ready each time, and uses up one unit of the time.
abbrev select_source : ℕ → Source → SelectResult × ℕ × Source
select_source time w = (selected true, time - 1, w)

read_with_timeout-read_with_retry_example :
    read_with_timeout read_source select_source 6 2 (some 9) (source (7 ∷ 8 ∷ 9 ∷ []) 3)
    ≡ read_with_retry read_source 6 2 (source (7 ∷ 8 ∷ 9 ∷ []) 3)
read_with_timeout-read_with_retry_example =
    read_with_timeout-read_with_retry read_source select_source (λ time w. time - 1)
      (λ time w. refl) 6 2 9 (source (7 ∷ 8 ∷ 9 ∷ []) 3)

concat_paths-separators_example :
    (b a : List ℕ) × (m n : ℕ) × ((97 ∷ 47 ∷ 47 ∷ []) ≡ b ++ separators m)
    × ((47 ∷ 98 ∷ []) ≡ separators n ++ a)
    × EndsBare b
    × StartsBare a
    × (concat_paths (97 ∷ 47 ∷ 47 ∷ []) (47 ∷ 98 ∷ []) ≡ b ++ path_seperator ∷ a)
concat_paths-separators_example = concat_paths-separators (97 ∷ 47 ∷ 47 ∷ []) (47 ∷ 98 ∷ [])
