-- ===== src/Alarms/Settled.antt =====
-- How the entry of the alarm consumer, `HandleWithDeadLetter` of
-- app/alarm-service/internal/svc/consumer.go, is done with a message.
use onepark_smart_park.Prelude.{
  ℕ, zero, suc, ◌+◌, ◌≤◌, ◌≡◌, refl, Bool, true, false, ◌||◌, ◌&&◌, not, [], ◌∷◌, ◌++◌, Text, ◌==◌,
  ok, err, ◌⊎◌, inl, inr, Bool-cases, arith,
}
use onepark_smart_park.Rules.Value.{Go}
use onepark_smart_park.Alarms.{AlarmDlq, Stores, Config, Codec, HandleError, parse_device_event}
use onepark_smart_park.Alarms.Handle.{
  Handled, Attempt, is_malformed, entry_of, after_attempt, record_dead_letter, handle_device_event,
  attempts, handle_with_dead_letter,
}

-- What the ledger of dead letters looks like with the message's entry behind it
abbrev pub with_entry : AlarmDlq → Stores → Stores
with_entry x st = record st { dead = st.dead ++ x ∷ [] }

-- The first k attempts failed, each with an error that can pass, and led from st to the last index.
pub data Failed (attempt : ℕ → Stores → Handled) (st : Stores) : ℕ → Stores → Type 0 where
  untried : Failed attempt st 0 st
  failed :
      {k : ℕ} {st' st'' : Stores} (e : HandleError)
      → Failed attempt st k st'
      → attempt k st' ≡ (st'', err e)
      → is_malformed e ≡ false
      → Failed attempt st (suc k) st''

-- The message is handled by one of four attempts, or written to the ledger as `entry` of the number
-- of waits.
pub data Settled (attempt : ℕ → Stores → Handled) (entry : ℕ → AlarmDlq) (st st' : Stores)
    : Type 0 where
  handled :
      (k : ℕ) (before : Stores)
      → k ≤ 3
      → Failed attempt st k before
      → attempt k before ≡ (st', ok tt)
      → Settled attempt entry st st'
  lettered :
      (k : ℕ) (e : HandleError) (before after : Stores)
      → k ≤ 3
      → Failed attempt st k before
      → attempt k before ≡ (after, err e)
      → (is_malformed e ≡ true) ⊎ (k ≡ 3)
      → st' ≡ with_entry (entry k) after
      → Settled attempt entry st st'

module _ (go : Go) (codec : Codec) (cfg : Config) (how : ℕ → Attempt) (body : Text) where
  abbrev pub attempt : ℕ → Stores → Handled
  attempt k st = handle_device_event go codec cfg (how k).answers body st

  abbrev pub entry : ℕ → AlarmDlq
  entry k = entry_of go codec cfg body k (parse_device_event go codec body)

  record_dead_letter-commits :
      (fails : Bool) (k : ℕ) (st st' : Stores)
      → record_dead_letter go codec cfg fails body k st ≡ (st', true)
      → st' ≡ with_entry (entry k) st
  unfolding record_dead_letter
  record_dead_letter-commits fails k st st' h =
      elim (Bool-cases (cfg.has_dead_letters && not fails)) [ inl kept ↦ cc | inr lost ↦ cc ]

  -- An attempt that failed in passing and is followed by a commit was followed by the next attempt.
  again-runs :
      (fails : Bool) (k left : ℕ) (cancelled : Bool) (again : Stores → Stores × Bool)
      (e : HandleError) (after st' : Stores)
      → (is_malformed e || left == 0) ≡ false
      → after_attempt go codec cfg fails body k left cancelled again (after, err e) ≡ (st', true)
      → again after ≡ (st', true)
  again-runs fails k left true again e after st' passing h = cc
  again-runs fails k left false again e after st' passing h = cc

  -- After one attempt that has this outcome
  after_attempt-Settled :
      (fails : Bool) (k left : ℕ) (cancelled : Bool) (again : Stores → Stores × Bool)
      (st before st' : Stores)
      → k + left ≡ 3
      → Failed attempt st k before
      → ((after : Stores)
          → Failed attempt st (suc k) after
          → (left == 0) ≡ false
          → again after ≡ (st', true)
          → Settled attempt entry st st')
      → (out : Handled) → attempt k before ≡ out
      → after_attempt go codec cfg fails body k left cancelled again out ≡ (st', true)
      → Settled attempt entry st st'
  after_attempt-Settled fails k left cancelled again st before st' n so next (after, ok u) ran h =
      handled k before (omega arith) so cc
  after_attempt-Settled fails k left cancelled again st before st' n so next (after, err e) ran h =
      elim (Bool-cases (is_malformed e || left == 0)) [
        | inl over ↦
            lettered k e before after (omega arith) so ran (ground arith)
              (record_dead_letter-commits fails k after st' cc)
        | inr left_over ↦
            next after (failed e so ran (ground arith)) (ground arith)
              (again-runs fails k left cancelled again e after st' left_over h)
      ]

  attempts-Settled :
      (fails : Bool) (k left : ℕ) (st before st' : Stores)
      → k + left ≡ 3
      → Failed attempt st k before
      → attempts go codec cfg fails how body k left before ≡ (st', true)
      → Settled attempt entry st st'
  unfolding attempts
  attempts-Settled fails k zero st before st' n so h =
      after_attempt-Settled fails k 0 (how k).cancelled (λ later. (later, false)) st before st' n so
        (λ later _ bad _. cc) (attempt k before) refl h
  attempts-Settled fails k (suc left) st before st' n so h =
      after_attempt-Settled fails k (suc left) (how k).cancelled
        (λ later. attempts go codec cfg fails how body (suc k) left later) st before st' n so
        (λ after so' _ h'. attempts-Settled fails (suc k) left st after st' (omega arith) so' h')
        (attempt k before) refl h

  after_attempt-commits :
      cfg.has_dead_letters ≡ true
      → (k left : ℕ) (cancelled : Bool) (again : Stores → Stores × Bool) → cancelled ≡ false
      → ((st : Stores) → (left == 0) ≡ false → (st' : Stores) × (again st ≡ (st', true)))
      → (out : Handled)
      → (st' : Stores) × (after_attempt go codec cfg false body k left cancelled again out
          ≡ (st', true))
  unfolding record_dead_letter
  after_attempt-commits ledger k left cancelled again runs next (st, ok u) = (st, refl)
  after_attempt-commits ledger k left cancelled again runs next (st, err e) =
      elim (Bool-cases (is_malformed e || left == 0)) [
        | inl over ↦ (with_entry (entry k) st, simp (over, ledger))
        | inr passing ↦ let (st', h) = next st (ground arith) in (st', simp (passing, runs, h))
      ]

  attempts-commits :
      cfg.has_dead_letters ≡ true
      → ((k : ℕ) → (how k).cancelled ≡ false)
      → (left k : ℕ) (st : Stores)
      → (st' : Stores) × (attempts go codec cfg false how body k left st ≡ (st', true))
  unfolding attempts record_dead_letter
  attempts-commits ledger runs zero k st =
      after_attempt-commits ledger k 0 (how k).cancelled (λ later. (later, false)) (runs k)
        (λ later bad. cc) (attempt k st)
  attempts-commits ledger runs (suc left) k st =
      after_attempt-commits ledger k (suc left) (how k).cancelled
        (λ later. attempts go codec cfg false how body (suc k) left later) (runs k)
        (λ later _. attempts-commits ledger runs left (suc k) later) (attempt k st)

  -- Where the consumer answers that the message is to be committed, one of at most four attempts
  -- handled it, with the stores that are left, or the last of them failed, with an error that no
  -- attempt can mend or as the fourth, and the ledger of dead letters has the message and the
  -- number of retries behind what it had.
  pub handle_with_dead_letter-Settled :
      (fails : Bool) (st st' : Stores)
      → handle_with_dead_letter go codec cfg fails how body st ≡ (st', true)
      → Settled attempt entry st st'
  unfolding handle_with_dead_letter
  handle_with_dead_letter-Settled fails st st' h =
      attempts-Settled fails 0 3 st st st' refl untried h

  -- Where the service has a ledger that takes the entry, and no wait is cut short, every message is
  -- committed, whatever the dependencies answer, and is settled: none holds up its partition.
  pub handle_with_dead_letter-commits :
      cfg.has_dead_letters ≡ true
      → ((k : ℕ) → (how k).cancelled ≡ false)
      → (st : Stores)
      → (st' : Stores) × ((handle_with_dead_letter go codec cfg false how body st ≡ (st', true))
          × Settled attempt entry st st')
  unfolding handle_with_dead_letter
  handle_with_dead_letter-commits ledger runs st =
      let (st', h) = attempts-commits ledger runs 3 0 st in
      (st', (h, handle_with_dead_letter-Settled false st st' h))
