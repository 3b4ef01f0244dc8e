-- ===== src/Language/Timeout.antt =====
-- language.c, with_timeout: what it does in time, and what the alarm does, which raises another
-- signal than the one that it handles.
use cagekeeper.Prelude.{
  ℕ, ◌+◌, ◌-◌, ◌≤◌, ◌<◌, ◌≡◌, ◌≢◌, refl, ◌∙◌, Bool, true, false, Option, none, some, List, not,
  ◌&&◌, arith, ◌==◌, leb, if◌then◌else◌, Bool-cases, inl, inr,
}
use cagekeeper.Value.{Value, void}
use cagekeeper.Language.{
  Language, Handler, default_action, sigalarm, ignored, Process, Ended, ended, killed,
  language_error, no_function_text, deliver, run, finish, call_if, call_phase, after_compile,
  compile_phase, with_timeout, call_function_with_timeout, compile_and_run_function_with_timeout,
}

module _ {S : Type 0} where
  -- The call has not said that it timed out.
  unfoldable pub IsSilent : Ended S → Type 0
  IsSilent (ended timeout v p) = timeout ≡ false
  IsSilent killed = Unit

  deliver-IsSilent :
      (hd : Handler) (jumped on : Ended S)
      → hd ≢ sigalarm
      → IsSilent on
      → IsSilent (deliver hd jumped on)
  unfolding deliver IsSilent
  deliver-IsSilent default_action jumped on ne h = tt
  deliver-IsSilent sigalarm jumped on ne h = absurd (ne refl)
  deliver-IsSilent ignored jumped on ne h = h

  -- An operation keeps the handler of SIGALRM, and says no timeout unless that handler does.
  run-IsSilent :
      {A : Type 0} (old : Handler) (op : A × ℕ × S) (next : A → Process S → Ended S) (p : Process S)
      → p.sigalrm ≢ sigalarm
      → ((a : A) (q : Process S) → q.sigalrm ≢ sigalarm → IsSilent (next a q))
      → IsSilent (run old op next p)
  unfolding run IsSilent
  run-IsSilent old op next p ne h =
      let on = h op.0 (record p { guest = op.2; alarm = p.alarm - op.1 }) ne in
      elim (Bool-cases (not (p.alarm == 0) && leb p.alarm op.1)) [
        | inl e ↦ rw e (deliver-IsSilent p.sigalrm _ _ ne on)
        | inr e ↦ rw e on
      ]

  finish-IsSilent : (old : Handler) (v : Option Value) (p : Process S) → IsSilent (finish old v p)
  unfolding finish IsSilent
  finish-IsSilent old v p = refl

  call_if-IsSilent :
      (l : Language S) (old : Handler) (has : Bool) (fname : List ℕ) (args : Value) (b : Bool)
      (p : Process S)
      → p.sigalrm ≢ sigalarm
      → IsSilent (call_if l old has fname args b p)
  unfolding call_if IsSilent finish
  call_if-IsSilent l old has fname args true p ne =
      run-IsSilent old (l.call_function fname args p.guest) (finish old) p ne
        (λ a q n. finish-IsSilent old a q)
  call_if-IsSilent l old true fname args false p ne = refl
  call_if-IsSilent l old false fname args false p ne = refl

  call_phase-IsSilent :
      (l : Language S) (old : Handler) (has : Bool) (fname : Option (List ℕ)) (args : Value)
      (p : Process S)
      → p.sigalrm ≢ sigalarm
      → IsSilent (call_phase l old has fname args p)
  unfolding call_phase
  call_phase-IsSilent l old has none args p ne = finish-IsSilent old none p
  call_phase-IsSilent l old has (some fname) args p ne =
      run-IsSilent old (l.is_function fname p.guest) (call_if l old has fname args) p ne
        (λ b q n. call_if-IsSilent l old has fname args b q n)

  after_compile-IsSilent :
      (l : Language S) (old : Handler) (fname : Option (List ℕ)) (args : Value) (b : Bool)
      (p : Process S)
      → p.sigalrm ≢ sigalarm
      → IsSilent (after_compile l old fname args b p)
  unfolding after_compile IsSilent
  after_compile-IsSilent l old fname args true p ne = call_phase-IsSilent l old true fname args p ne
  after_compile-IsSilent l old fname args false p ne = refl

  -- Unless the program itself has made `sigalarm` the handler of SIGALRM, with_timeout never reports
  -- a timeout, whatever the operations take: it sets the handler of SIGPROF, which alarm(2) does not
  -- raise.
  pub with_timeout_never_reports :
      (l : Language S) (script fname : Option (List ℕ)) (args : Value) (max_seconds : ℕ)
      (p : Process S)
      → p.sigalrm ≢ sigalarm
      → IsSilent (with_timeout l script fname args max_seconds p)
  unfolding with_timeout compile_phase
  with_timeout_never_reports l none fname args max_seconds p ne =
      call_phase-IsSilent l p.sigprof false fname args
        (record p { alarm = max_seconds; sigprof = sigalarm }) ne
  with_timeout_never_reports l (some script) fname args max_seconds p ne =
      run-IsSilent p.sigprof (l.compile_script script p.guest)
        (after_compile l p.sigprof fname args)
        (record p { alarm = max_seconds; sigprof = sigalarm }) ne
        (λ b q n. after_compile-IsSilent l p.sigprof fname args b q n)

  -- An operation that ends before the alarm goes on.
  run_in_time :
      {A : Type 0} (old : Handler) (op : A × ℕ × S) (next : A → Process S → Ended S) (p : Process S)
      → op.1 < p.alarm
      → run old op next p ≡ next op.0 (record p { guest = op.2; alarm = p.alarm - op.1 })
  unfolding run
  run_in_time old op next p lt = ground arith

  call_if_in_time :
      (l : Language S) (old : Handler) (fname : List ℕ) (args : Value) (b : Bool) (p : Process S)
      → let called = l.call_function fname args p.guest in
        called.1 < p.alarm
        → call_if l old false fname args b p ≡ (
            if b
            then ended false called.0 (record p { guest = called.2; alarm = 0; sigprof = old })
            else ended false
                (some void)
                (language_error (no_function_text fname) (record p { alarm = 0; sigprof = old })))
  unfolding call_if finish language_error
  call_if_in_time l old fname args true p lt =
      run_in_time old (l.call_function fname args p.guest) (finish old) p lt
  call_if_in_time l old fname args false p lt = refl

  -- A call of a function that the interpreter has, which takes less than the limit, returns what the
  -- interpreter returns, says no timeout, turns the alarm off and keeps the handlers; for a name that
  -- is no function the result is void and the error is logged.
  pub call_function_with_timeout_in_time :
      (l : Language S) (fname : List ℕ) (args : Value) (max_seconds : ℕ) (p : Process S)
      → let asked = l.is_function fname p.guest in
        let called = l.call_function fname args asked.2 in
        asked.1 + called.1 < max_seconds
        → call_function_with_timeout l fname args max_seconds p ≡ (
            if asked.0
            then ended false called.0 (record p { guest = called.2; alarm = 0 })
            else ended false
                (some void)
                (language_error (no_function_text fname) (record p { guest = asked.2; alarm = 0 })))
  unfolding call_function_with_timeout with_timeout compile_phase call_phase
  call_function_with_timeout_in_time l fname args max_seconds p lt =
      let asked = l.is_function fname p.guest in
      run_in_time p.sigprof asked (call_if l p.sigprof false fname args)
        (record p { alarm = max_seconds; sigprof = sigalarm }) (omega arith)
      ∙ call_if_in_time l p.sigprof fname args asked.0
          (record p { guest = asked.2; alarm = max_seconds - asked.1; sigprof = sigalarm })
          (omega arith)

  -- With the default handler of SIGALRM the process ends when a script compiles past the limit.
  pub compile_and_run_killed :
      (l : Language S) (script fname : List ℕ) (args : Value) (max_seconds : ℕ) (p : Process S)
      → p.sigalrm ≡ default_action
      → 0 < max_seconds
      → max_seconds ≤ (l.compile_script script p.guest).1
      → compile_and_run_function_with_timeout l script fname args max_seconds p ≡ killed
  unfolding compile_and_run_function_with_timeout with_timeout compile_phase run deliver
  compile_and_run_killed l script fname args max_seconds p e pos late = ground arith
