-- ===== src/Rules/Window.antt =====
-- The sliding window counter in Redis: `windowLua`, `redisWindow.Add` and `WindowKey` of
-- app/alarm-service/internal/rule/window.go. A window is a sorted set of members with the
-- milliseconds at which they came; the script runs as one step.
pub mod Redelivery
use onepark_smart_park.Prelude.{
  ℕ, ◌+◌, ◌-◌, ◌*◌, Bool, true, false, ◌&&◌, not, Option, none, some, List, [], ◌∷◌, ◌++◌, length,
  select, Text, codes, text_eq, ltb, leb, if◌then◌else◌,
}
use onepark_smart_park.Prelude.Int.{ℤ}
use onepark_smart_park.Rules.Value.{Go}

pub record Member : Type 0 where
  pub name : Text
  pub score : ℕ

pub record Window : Type 0 where
  pub key : Text
  pub members : List Member
  pub expires_at : ℕ

-- How Redis answers a call on a key, and the clock at that call
pub record Redis : Type 0 where
  pub fails : Text → Bool
  pub now : Text → ℕ

-- A key's live members: those of an expired set are gone.
unfoldable pub members_at : ℕ → Text → List Window → List Member
members_at now key [] = []
members_at now key (w ∷ ws) =
    if text_eq w.key key
    then (if ltb now w.expires_at then w.members else [])
    else members_at now key ws

-- `DEL`
unfoldable pub delete : Text → List Window → List Window
delete key [] = []
delete key (w ∷ ws) = let rest = delete key ws in if text_eq w.key key then rest else w ∷ rest

-- Score `s` is in the range from 0 to `now - span`, which is empty where the difference is negative.
abbrev pub is_old : ℕ → ℕ → Member → Bool
is_old now span m = leb span now && leb m.score (now - span)

-- `ZADD`
unfoldable pub zadd : ℕ → Text → List Member → List Member
zadd score name [] = record { name = name; score = score } ∷ []
zadd score name (m ∷ ms) =
    if text_eq m.name name then record m { score = score } ∷ ms else m ∷ zadd score name ms

-- The members after the script's first two commands
unfoldable pub counted : ℕ → ℕ → Text → List Member → List Member
unfolding zadd
counted now span name ms = zadd now name (select (λ m. not (is_old now span m)) ms)

-- `windowLua` on a key: the windows after it, and the number that it returns
unfoldable pub window_lua : ℕ → ℕ → Text → ℕ → ℕ → Text → List Window → List Window × ℕ
window_lua now span name threshold ttl key ws =
    let ms = counted now span name (members_at now key ws) in
    if leb threshold (length ms)
    then (delete key ws, length ms)
    else (record { key = key; members = ms; expires_at = now + ttl * 1000 } ∷ delete key ws, 0)

-- `redisWindow.Add`: whether the window has reached its threshold, and its count; `none` is an
-- error of Redis.
unfoldable pub add : Redis → Text → Text → ℕ → ℕ → ℕ → List Window → List Window × Option (Bool × ℕ)
add redis key name window threshold ttl ws =
    if redis.fails key
    then (ws, none)
    else let (ws', cnt) = window_lua (redis.now key) (window * 1000) name threshold ttl key ws in
      (ws', some (ltb 0 cnt, cnt))

-- `WindowKey`
unfoldable pub window_key : Go → ℤ → Text → Text
window_key go rule device = codes "alarm:window:" ++ go.format_int rule ++ codes ":" ++ device
