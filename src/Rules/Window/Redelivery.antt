-- ===== src/Rules/Window/Redelivery.antt =====
-- A message that is delivered again does not count again.
use onepark_smart_park.Prelude.{
  ℕ, suc, ◌+◌, ◌*◌, ◌≤◌, ◌<◌, ◌≡◌, refl, ap, Bool, true, false, ◌||◌, not, some, List, [], ◌∷◌,
  length, select, Text, text_eq, text_eq_refl, ltb, leb, if◌then◌else◌, Bool-cases, inl, inr, arith,
}
use onepark_smart_park.Rules.Window.{
  Member, Window, Redis, members_at, delete, is_old, zadd, counted, window_lua, add,
}

abbrev has_name : Text → List Member → Bool
has_name name [] = false
has_name name (m ∷ ms) = text_eq m.name name || has_name name ms

length-select-le : (p : Member → Bool) (ms : List Member) → length (select p ms) ≤ length ms
length-select-le p [] = omega arith
length-select-le p (m ∷ ms) = elim (Bool-cases (p m)) [
  | inl kept ↦ rw kept (omega (arith, length-select-le p ms))
  | inr dropped ↦ rw dropped (omega (arith, length-select-le p ms))
]

length-zadd-le :
    (now : ℕ) (name : Text) (ms : List Member) → length (zadd now name ms) ≤ suc (length ms)
unfolding zadd
length-zadd-le now name [] = omega arith
length-zadd-le now name (m ∷ ms) = elim (Bool-cases (text_eq m.name name)) [
  | inl same ↦ rw same (omega arith)
  | inr other ↦ rw other (omega (arith, length-zadd-le now name ms))
]

zadd-pos : (now : ℕ) (name : Text) (ms : List Member) → 0 < length (zadd now name ms)
unfolding zadd
zadd-pos now name [] = omega arith
zadd-pos now name (m ∷ ms) = elim (Bool-cases (text_eq m.name name)) [
  | inl same ↦ rw same (omega arith)
  | inr other ↦ rw other (omega arith)
]

has_name-zadd : (now : ℕ) (name : Text) (ms : List Member) → has_name name (zadd now name ms) ≡ true
unfolding zadd
has_name-zadd now name [] = rw (text_eq_refl name)
has_name-zadd now name (m ∷ ms) = elim (Bool-cases (text_eq m.name name)) [
  | inl same ↦ simp same
  | inr other ↦ simp (other, has_name-zadd now name ms)
]

-- A member that is there is written over: whatever else is dropped, none is gained.
length-zadd-select :
    (now : ℕ) (name : Text) (p : Member → Bool) (ms : List Member)
    → has_name name ms ≡ true
    → length (zadd now name (select p ms)) ≤ length ms
unfolding zadd
length-zadd-select now name p [] h = cc
length-zadd-select now name p (m ∷ ms) h = elim (Bool-cases (text_eq m.name name)) [
  | inl same ↦ elim (Bool-cases (p m)) [
    | inl kept ↦ rw (kept, same) (omega (arith, length-select-le p ms))
    | inr dropped ↦
        rw dropped (omega (arith, length-zadd-le now name (select p ms), length-select-le p ms))
  ]
  | inr other ↦
      let later : has_name name ms ≡ true = rw other at h in
      elim (Bool-cases (p m)) [
        | inl kept ↦ rw (kept, other) (omega (arith, length-zadd-select now name p ms later))
        | inr dropped ↦ rw dropped (omega (arith, length-zadd-select now name p ms later))
      ]
]

length-has_name : (name : Text) (ms : List Member) → has_name name ms ≡ true → 0 < length ms
length-has_name name [] h = cc
length-has_name name (m ∷ ms) h = omega arith

length-counted :
    (now span : ℕ) (name : Text) (ms : List Member) (alive : Bool)
    → has_name name ms ≡ true
    → length (counted now span name (if alive then ms else [])) ≤ length ms
unfolding counted
length-counted now span name ms true h =
    length-zadd-select now name (λ m. not (is_old now span m)) ms h
length-counted now span name ms false h = length-has_name name ms h

leb-false : (a b : ℕ) → b < a → leb a b ≡ false
leb-false a b h = ground arith

leb-false→lt : (a b : ℕ) → leb a b ≡ false → b < a
leb-false→lt a b h = ground arith

has_name-counted :
    (now span : ℕ) (name : Text) (ms : List Member)
    → has_name name (counted now span name ms) ≡ true
unfolding counted
has_name-counted now span name ms =
    has_name-zadd now name (select (λ m. not (is_old now span m)) ms)

module _ (key name : Text) (threshold : ℕ) where
  -- The window that a first delivery leaves, at a second one
  window_lua-again :
      (ms : List Member) (rest : List Window) (end now span ttl : ℕ)
      → has_name name ms ≡ true
      → length ms < threshold
      → (window_lua now span name threshold ttl key
          (record { key = key; members = ms; expires_at = end } ∷ rest)).1
        ≡ 0
  unfolding window_lua members_at
  window_lua-again ms rest end now span ttl h small =
      rw
        (
          text_eq_refl key,
          leb-false threshold (length (counted now span name (if ltb now end then ms else [])))
              (omega (arith, length-counted now span name ms (ltb now end) h)),
        )
        refl

  -- A delivery that does not trigger leaves such a window.
  window_lua-quiet :
      (now span ttl : ℕ) (ws : List Window) {after : List Window}
      → (window_lua now span name threshold ttl key ws).0 ≡ after
      → (window_lua now span name threshold ttl key ws).1 ≡ 0
      → (now' span' ttl' : ℕ) → (window_lua now' span' name threshold ttl' key after).1 ≡ 0
  unfolding window_lua
  window_lua-quiet now span ttl ws {after} left quiet_count now' span' ttl' =
      let ms = counted now span name (members_at now key ws) in
      let here_now = has_name-counted now span name (members_at now key ws) in
      elim (Bool-cases (leb threshold (length ms))) [
        | inl hit ↦
            let full : length ms ≡ 0 = rw hit at quiet_count in
            absurd (omega (arith, length-has_name name ms here_now))
        | inr quiet ↦ rw (← (rw quiet at left)) (
            window_lua-again ms (delete key ws) (now + ttl * 1000) now' span' ttl' here_now
              (leb-false→lt threshold (length ms) quiet))
      ]

  -- Where Redis answers and a first delivery of an event does not trigger, a second delivery, with no
  -- other event counted in that window between the two, does not trigger either: at any time, and
  -- with any length and lifetime of the window at either call. Its answer is "not triggered, 0".
  pub add-again :
      (redis again : Redis) (window ttl : ℕ) (ws : List Window) {after : List Window} {cnt : ℕ}
      → add redis key name window threshold ttl ws ≡ (after, some (false, cnt))
      → again.fails key ≡ false
      → (window' ttl' : ℕ) → (add again key name window' threshold ttl' after).1 ≡ some (false, 0)
  unfolding add
  add-again redis again window ttl ws {after} {cnt} e works window' ttl' =
      elim (Bool-cases (redis.fails key)) [
        | inl fails ↦ absurd (ground (arith, ap (λ r. r.1) (rw fails at e)))
        | inr answers ↦
            let same = rw answers at e in
            let quiet : (window_lua (redis.now key) (window * 1000) name threshold ttl key ws).1
                ≡ 0 =
              ground (arith, ap (λ r. r.1) same) in
            rw
              (
                works,
                window_lua-quiet (redis.now key) (window * 1000) ttl ws (ap (λ r. r.0) same) quiet
                    (again.now key) (window' * 1000) ttl',
              )
              refl
      ]
