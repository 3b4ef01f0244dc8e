-- ===== src/Proxy/Places.antt =====
-- Where the program and the sandbox can stand while a command runs, and the turns that are left.
use cagekeeper.Prelude.{
  ℕ, ◌+◌, ◌<◌, ◌≡◌, sym, false, Option, some, List, [], ◌∷◌, ◌++◌, append_assoc, append-nil, All,
  length,
}
use cagekeeper.Proxy.Callbacks.{IsText, IsAnswered, LogsPlainly, direct}
use cagekeeper.Proxy.Child.{Run, done, callback, log}
use cagekeeper.Proxy.Parent.{Proxy, has_conversion, resp_return}
use cagekeeper.Proxy.Turns.{running, waiting, ended, Pair, log_message, callback_message}
use cagekeeper.Value.{Value}
use cagekeeper.Wire.{write_value}
use cagekeeper.Wire.Measure.{IsSendable, total}
use cagekeeper.Word.{int_max}

-- A log line that the program can read and print.
abbrev pub IsLine : List ℕ → Type 0
IsLine line = IsText line × (has_conversion line ≡ false)

-- The log lines that the program has not read yet.
unfoldable pub log_messages : List (List ℕ) → List ℕ
log_messages [] = []
log_messages (line ∷ ls) = log_message line ++ log_messages ls

pub log_messages-snoc :
    (ls : List (List ℕ)) (line : List ℕ)
    → log_messages (ls ++ line ∷ []) ≡ log_messages ls ++ log_message line
unfolding log_messages
log_messages-snoc [] line = append-nil (log_message line)
log_messages-snoc (l ∷ ls) line =
    rw (log_messages-snoc ls line)
      (sym (append_assoc (log_message l) (log_messages ls) (log_message line)))

pub All-snoc :
    (ls : List (List ℕ)) (line : List ℕ)
    → All IsLine ls
    → IsLine line
    → All IsLine (ls ++ line ∷ [])
All-snoc [] line h t = (t, tt)
All-snoc (l ∷ ls) line h t = (h.0, All-snoc ls line h.1 t)

-- Where the two can stand: the sandbox runs, or it has asked, or it has been told, or it is over; the
-- lists are log lines that are not read yet.
pub data Place (S A : Type 0) : Type 0 where
  busy : List (List ℕ) → Run S A → Place S A
  asked : List (List ℕ) → List ℕ → Value → (Option Value → Run S A) → Place S A
  told : Value → (Option Value → Run S A) → Place S A
  over : List (List ℕ) → A → S → Place S A

module _ {S A : Type 0} (answers : List ℕ → Value → Option Value) (result : A → List ℕ) where
  -- The turns that a run takes, those of both together.
  unfoldable pub turns_left : Run S A → ℕ
  turns_left (done a g) = 1
  turns_left (log line r) = 2 + turns_left r
  turns_left (callback name args k) = 3 + turns_left (k (answers name args))

  unfoldable pub pair_at : Place S A → Proxy → Pair S A
  pair_at (busy ls r) p = record {
    program = record p { pending = log_messages ls; sent = [] };
    sandbox = running r;
  }
  pair_at (asked ls name args k) p = record {
    program = record p { pending = log_messages ls ++ callback_message name args; sent = [] };
    sandbox = waiting k;
  }
  pair_at (told ret k) p = record {
    program = record p { pending = []; sent = write_value ret };
    sandbox = waiting k;
  }
  pair_at (over ls a g) p = record {
    program = record p { pending = log_messages ls ++ resp_return ∷ result a; sent = [] };
    sandbox = ended a g;
  }

  unfoldable pub IsGood : Place S A → Type 0
  IsGood (busy ls r) = All IsLine ls × IsAnswered answers r × LogsPlainly answers r
  IsGood (asked ls name args k) =
      All IsLine ls
      × IsAnswered answers (callback name args k)
      × LogsPlainly answers (callback name args k)
  IsGood (told ret k) =
      IsSendable 0 ret
      × (total ret < int_max)
      × IsAnswered answers (k (some ret))
      × LogsPlainly answers (k (some ret))
  IsGood (over ls a g) = All IsLine ls

  unfoldable pub left_at : Place S A → ℕ
  left_at (busy ls r) = length ls + turns_left r
  left_at (asked ls name args k) = length ls + 2 + turns_left (k (answers name args))
  left_at (told ret k) = 1 + turns_left (k (some ret))
  left_at (over ls a g) = length ls

  unfoldable pub end_of : Place S A → A × S
  end_of (busy ls r) = direct answers r
  end_of (asked ls name args k) = direct answers (k (answers name args))
  end_of (told ret k) = direct answers (k (some ret))
  end_of (over ls a g) = (a, g)
