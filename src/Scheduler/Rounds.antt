-- ===== src/Scheduler/Rounds.antt =====
-- What one round of the scheduler leaves.
use agora_etl.Prelude.{
  ℕ, zero, suc, ◌+◌, ◌≤◌, ◌<◌, Bool, true, false, Option, none, some, List, [], ◌∷◌, length, take,
  ◌≡◌, refl, sym, ap, ◌∙◌, arith,
}
use agora_etl.Failures.{Result, ok, err}
use agora_etl.Scheduler.{
  Config, RunRecord, State, hook_asked, pipeline_run, notified, HookRun, RunEnd, succeeded, failed,
  aborted, cancelled, Run, Awaited, returned, threw, was_cut, back_off, Settled, settle, finish_run,
  Once, ran, skipped, cancelled_out, raised_out, Log, start_run, after_hook, run_once,
}
use agora_etl.Scheduler.Told.{notifications, one_more, streak, BacksOff, IsTold}

take-take-cons :
    (n : ℕ) (r : RunRecord) (rs : List RunRecord)
    → take (suc n) (r ∷ take (suc n) rs) ≡ take (suc n) (r ∷ rs)
take-take-cons n r rs = ap (λ (l : List RunRecord). r ∷ l) (within n (suc n) rs (omega arith))
  where
    within : (m k : ℕ) (l : List RunRecord) → m ≤ k → take m (take k l) ≡ take m l
    within zero k l h = refl
    within (suc m) zero l h = absurd (omega (arith, h))
    within (suc m) (suc k) [] h = refl
    within (suc m) (suc k) (x ∷ l) h =
        ap (λ (q : List RunRecord). x ∷ q) (within m k l (omega (arith, h)))

kept_100 :
    (r : RunRecord) (h rs : List RunRecord) → h ≡ take 100 rs → take 100 (r ∷ h) ≡ take 100 (r ∷ rs)
kept_100 r h rs e = ap (λ (l : List RunRecord). take 100 (r ∷ l)) e ∙ take-take-cons 99 r rs

-- A round that does not let the loop go on leaves no more failures than the maximum.
abbrev pub Unbroken : Once → ℕ → ℕ → Type 0
Unbroken ran n most = Unit {0}
Unbroken skipped n most = Unit {0}
Unbroken cancelled_out n most = n ≤ most
Unbroken (raised_out e) n most = n ≤ most

pub record Tells (c : Config) (r : Once × State × Log) : Type 0 where
  pub told : IsTold c r.1 r.2
  pub running : r.1.running ≡ true
  pub below : Unbroken r.0 r.1.consecutive_errors c.max_consecutive_errors

-- A run of which the observers are told.
notified-IsTold :
    (c : Config) (r : RunRecord) (s s' : State) (l m : Log)
    → IsTold c s l
    → notifications m ≡ notifications l
    → BacksOff c.backoff m
    → r.run_number ≡ s.run_number + 1
    → s'.consecutive_errors ≡ one_more r.error s.consecutive_errors
    → s'.run_number ≡ s.run_number + 1
    → s'.history ≡ take 100 (r ∷ s.history)
    → IsTold c s' (notified r ∷ m)
notified-IsTold c r s s' l m t same backs number errors count history = record {
  errors = errors ∙ ap (one_more r.error) (t.errors ∙ ap streak (sym same));
  counted = omega (arith, count, t.counted, ap length same);
  recent = history ∙ kept_100 r s.history (notifications m) (t.recent ∙ ap (take 100) (sym same));
  numbered = (omega (arith, number, t.counted, ap length same), rw same t.numbered);
  backs_off = backs;
}

below-Unbroken : (o : Once) (n most : ℕ) → n ≤ most → Unbroken o n most
below-Unbroken ran n most h = tt
below-Unbroken skipped n most h = tt
below-Unbroken cancelled_out n most h = h
below-Unbroken (raised_out e) n most h = h

-- What `settle` leaves, from a state with one run more.
record Settles (c : Config) (s : State) (t : Settled) (l : Log) : Type 0 where
  same : notifications t.log ≡ notifications l
  backs : BacksOff c.backoff t.log
  number : t.entry.run_number ≡ s.run_number + 1
  errors : t.state.consecutive_errors ≡ one_more t.entry.error s.consecutive_errors
  count : t.state.run_number ≡ s.run_number + 1
  history : t.state.history ≡ s.history
  on : t.state.running ≡ s.running
  most : t.state.consecutive_errors ≤ s.consecutive_errors + 1

back_off-BacksOff :
    (c : Config) (d : Result ℕ) (cut : Bool) (n : ℕ) (l : Log)
    → c.backoff (n + 1) ≡ d
    → n ≡ streak (notifications l)
    → BacksOff c.backoff l
    → (notifications (back_off d cut l).0 ≡ notifications l)
      × BacksOff c.backoff (back_off d cut l).0
back_off-BacksOff c (err x) cut n l h same b = (refl, b)
back_off-BacksOff c (ok d) true n l h same b =
    (refl, (ap (λ (m : ℕ). c.backoff (m + 1)) (sym same) ∙ h, b))
back_off-BacksOff c (ok d) false n l h same b =
    (refl, (ap (λ (m : ℕ). c.backoff (m + 1)) (sym same) ∙ h, b))

settle-Settles :
    (c : Config) (e : RunEnd) (s : State) (l : Log)
    → s.consecutive_errors ≡ streak (notifications l)
    → BacksOff c.backoff l
    → Settles c s
        (settle c
          (s.run_number + 1)
          e
          (record s { run_number = s.run_number + 1 })
          (pipeline_run (s.run_number + 1) s.run_fence ∷ l))
        l
settle-Settles c (succeeded k) s l h b = record {
  same = refl;
  backs = b;
  number = refl;
  errors = refl;
  count = refl;
  history = refl;
  on = refl;
  most = omega arith;
}
settle-Settles c (failed e cut) s l h b =
    let (same, backs) =
      back_off-BacksOff c (c.backoff (s.consecutive_errors + 1)) cut s.consecutive_errors
        (pipeline_run (s.run_number + 1) s.run_fence ∷ l) refl h b in
    record {
      same = same;
      backs = backs;
      number = refl;
      errors = refl;
      count = refl;
      history = refl;
      on = refl;
      most = omega arith;
    }
settle-Settles c aborted s l h b = record {
  same = refl;
  backs = b;
  number = refl;
  errors = refl;
  count = refl;
  history = refl;
  on = refl;
  most = omega arith;
}
settle-Settles c cancelled s l h b = record {
  same = refl;
  backs = b;
  number = refl;
  errors = refl;
  count = refl;
  history = refl;
  on = refl;
  most = omega arith;
}

finish_run-Tells :
    (c : Config) (cut : Bool) (t : Settled) (s : State) (l : Log)
    → IsTold c s l
    → Settles c s t l
    → s.running ≡ true
    → s.consecutive_errors < c.max_consecutive_errors
    → Tells c (finish_run cut t)
finish_run-Tells c true t s l told w on lt = record {
  told =
      notified-IsTold c t.entry s _ l t.log told w.same w.backs w.number w.errors w.count
        (ap (λ (h : List RunRecord). take 100 (t.entry ∷ h)) w.history);
  running = w.on ∙ on;
  below = omega (arith, lt, w.most);
}
finish_run-Tells c false t s l told w on lt = record {
  told =
      notified-IsTold c t.entry s _ l t.log told w.same w.backs w.number w.errors w.count
        (ap (λ (h : List RunRecord). take 100 (t.entry ∷ h)) w.history);
  running = w.on ∙ on;
  below = below-Unbroken t.ends _ _ (omega (arith, lt, w.most));
}

start_run-Tells :
    (c : Config) (r : Run) (s : State) (l : Log)
    → IsTold c s l
    → s.running ≡ true
    → s.consecutive_errors < c.max_consecutive_errors
    → Tells c (start_run c r s l)
unfolding start_run
start_run-Tells c r s l t on lt =
    finish_run-Tells c r.notify_cut _ s l t (settle-Settles c r.end s l t.errors t.backs_off) on lt

-- What changes neither counters nor history tells nothing.
pub unchanged-IsTold :
    (c : Config) (s s' : State) (l m : Log)
    → IsTold c s l
    → notifications m ≡ notifications l
    → BacksOff c.backoff m
    → s'.consecutive_errors ≡ s.consecutive_errors
    → s'.run_number ≡ s.run_number
    → s'.history ≡ s.history
    → IsTold c s' m
unchanged-IsTold c s s' l m t same backs errors count history = record {
  errors = errors ∙ t.errors ∙ ap streak (sym same);
  counted = count ∙ t.counted ∙ ap length (sym same);
  recent = history ∙ t.recent ∙ ap (take 100) (sym same);
  numbered = rw same t.numbered;
  backs_off = backs;
}

after_hook-Tells :
    (c : Config) (a : Awaited Bool) (e : Run) (s : State) (l : Log)
    → IsTold c s l
    → s.running ≡ true
    → s.consecutive_errors < c.max_consecutive_errors
    → Tells c (after_hook c a e s l)
after_hook-Tells c (returned true) e s l t on lt = start_run-Tells c e s l t on lt
after_hook-Tells c (returned false) e s l t on lt = record { told = t; running = on; below = tt }
after_hook-Tells c (threw x) e s l t on lt = record {
  told = t;
  running = on;
  below = omega (arith, lt);
}
after_hook-Tells c was_cut e s l t on lt = record {
  told = t;
  running = on;
  below = omega (arith, lt);
}

pub run_once-Tells :
    (c : Config) (h : Option HookRun) (e : Run) (s : State) (l : Log)
    → IsTold c s l
    → s.running ≡ true
    → s.consecutive_errors < c.max_consecutive_errors
    → Tells c (run_once c h e s l)
unfolding run_once
run_once-Tells c none e s l t on lt = start_run-Tells c e s l t on lt
run_once-Tells c (some h) e s l t on lt =
    after_hook-Tells c h.answer e (record s { run_fence = h.fence }) (hook_asked ∷ l)
      (unchanged-IsTold c s _ l _ t refl t.backs_off refl refl refl) on lt
