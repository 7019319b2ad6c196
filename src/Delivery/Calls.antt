-- ===== src/Delivery/Calls.antt =====
-- Calls of the collaborators: the run fence (core/fencing.py), the writer
-- (core/runtime/_writer_transport.py) and the success hooks of the context (core/context/_model.py).
use agora_etl.Prelude.{
  ℕ, ◌+◌, max, Bool, Option, none, some, List, [], ◌∷◌, ◌++◌, length, ◌==◌, if◌then◌else◌,
}
use agora_etl.Failures.{fence_lost_error, Result}
use agora_etl.Delivery.Types.{Value, Hook, Callback, WriteResult}
use agora_etl.Delivery.World.{
  History, fence_checked, record_sent, batch_sent, hook_called, discard_called, Metrics, HookEntry,
  Engine,
}
use agora_etl.Delivery.Exec.{
  Exec, pure, raise, attempt, modify, gets, skip, perform, notify, ◌>>=◌, ◌>>◌,
}

abbrev pub on_metrics : (Metrics → Metrics) → Exec (Unit {0})
on_metrics f = modify (λ w. record w { metrics = f w.metrics })

-- `RunFence.assert_active`, where a fence is bound to the context
unfoldable pub assert_active : Option (History → Result Bool) → Exec (Unit {0})
assert_active none = skip
assert_active (some validate) = do
  active ← perform validate fence_checked
  if active then skip else raise fence_lost_error

abbrev pub entries_of : Value → List HookEntry → List HookEntry
entries_of v [] = []
entries_of v (e ∷ es) = let rest = entries_of v es in if e.owner == v then e ∷ rest else rest

abbrev pub entries_but : Value → List HookEntry → List HookEntry
entries_but v [] = []
entries_but v (e ∷ es) = let rest = entries_but v es in if e.owner == v then rest else e ∷ rest

abbrev pub hooks_of : List HookEntry → List Hook
hooks_of [] = []
hooks_of (e ∷ es) = e.hook ∷ hooks_of es

abbrev pub retarget : Value → List HookEntry → List HookEntry
retarget v [] = []
retarget v (e ∷ es) = record e { owner = v } ∷ retarget v es

unfoldable pub register_success_hook : Value → Hook → Option Hook → Exec (Unit {0})
register_success_hook v h d = modify λ w. record w {
  success_hooks = w.success_hooks ++ record { owner = v; hook = h; on_discard = d } ∷ [];
}

unfoldable pub transfer_success_hooks : Value → Value → Exec (Unit {0})
transfer_success_hooks source target =
    if source == target
    then skip
    else modify λ w. record w {
      success_hooks =
          entries_but source w.success_hooks ++ retarget target (entries_of source w.success_hooks);
    }

-- A record that was popped has no entries left, so a repeated record adds none.
unfoldable pub pop_success_hooks : List Value → Exec (List Hook)
pop_success_hooks [] = pure []
pop_success_hooks (v ∷ vs) = do
  hooks ← gets (λ w. hooks_of (entries_of v w.success_hooks))
  modify (λ w. record w { success_hooks = entries_but v w.success_hooks })
  rest ← pop_success_hooks vs
  pure (hooks ++ rest)

abbrev pub callback : List Hook → Callback
callback [] = none
callback (h ∷ hs) = some (h ∷ hs)

abbrev pub given : Callback → List Hook
given none = []
given (some hs) = hs

-- `_success_hook_for`: the source's callback first, then what middlewares registered.
unfoldable pub success_hook_for : Value → Option Value → Callback → Exec Callback
success_hook_for raw none on_success = do
  hooks ← pop_success_hooks (raw ∷ [])
  pure (callback (given on_success ++ hooks))
success_hook_for raw (some processed) on_success = do
  hooks ← pop_success_hooks (raw ∷ processed ∷ [])
  pure (callback (given on_success ++ hooks))

module _ (g : Engine) where
  unfoldable pub assert_run_fence_active : Exec (Unit {0})
  assert_run_fence_active = assert_active g.run_fence

  -- `_record_flush_metrics`
  unfoldable pub record_flush_metrics : ℕ → Exec (Unit {0})
  record_flush_metrics size = on_metrics λ m. record m {
    writer_flush_count = m.writer_flush_count + 1;
    writer_flush_max_batch_size = max m.writer_flush_max_batch_size size;
  }

  unfoldable pub write_one : Value → Exec WriteResult
  write_one v = do
    assert_run_fence_active
    result ← perform (λ h. g.write h v) (record_sent v)
    record_flush_metrics 1
    pure result

  unfoldable pub write_batch : List Value → Exec (List WriteResult)
  write_batch vs = do
    assert_run_fence_active
    results ← perform (λ h. g.write_many h vs) (batch_sent vs)
    record_flush_metrics (length vs)
    pure results

  -- `for hook in hooks: await hook()`
  unfoldable pub run_hooks : List Hook → Exec (Unit {0})
  run_hooks [] = skip
  run_hooks (h ∷ hs) = do notify (λ l. g.run_hook l h) (hook_called h); run_hooks hs

  unfoldable pub run_callback : Callback → Exec (Unit {0})
  run_callback none = skip
  run_callback (some hs) = run_hooks hs

  -- An exception of a discard callback is logged and goes no further.
  unfoldable pub run_discard : Option Hook → Exec (Unit {0})
  run_discard none = skip
  run_discard (some d) = attempt (notify (λ l. g.run_discard l d) (discard_called d)) >> skip

  unfoldable pub discard_entries : List HookEntry → Exec (Unit {0})
  discard_entries [] = skip
  discard_entries (e ∷ es) = do run_discard e.on_discard; discard_entries es

  unfoldable pub discard_success_hooks : List Value → Exec (Unit {0})
  discard_success_hooks [] = skip
  discard_success_hooks (v ∷ vs) = do
    entries ← gets (λ w. entries_of v w.success_hooks)
    modify (λ w. record w { success_hooks = entries_but v w.success_hooks })
    discard_entries entries
    discard_success_hooks vs
