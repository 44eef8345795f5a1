-- ===== src/Rules/Snapshot.antt =====
-- The engine's cached rules: `Engine`, `HasRules`, `Invalidate`, `Evaluate` and `snapshot` of
-- app/alarm-service/internal/rule/engine.go. The engine's lock makes each of these one step but
-- for the read of the store inside `snapshot`, during which others may write the table.
use onepark_smart_park.Prelude.{
  ℕ, ◌-◌, Bool, true, false, ◌&&◌, Option, none, some, List, [], ◌∷◌, Text, ltb, Result, ok, err,
  if◌then◌else◌,
}
use onepark_smart_park.Rules.Value.{Go}
use onepark_smart_park.Rules.Condition.{Fields}
use onepark_smart_park.Rules.Window.{Window, Redis}
use onepark_smart_park.Rules.Engine.{Rule, RuleError, not_listed, Evaluation, evaluate_rules}

-- Times and the cache's lifetime are nanoseconds; a lifetime that is not positive is 0. The zero
-- time is 0.
pub record Engine : Type 0 where
  pub has_store : Bool
  pub has_windows : Bool
  pub cache_ttl : ℕ
  pub cached : List Rule
  pub cached_at : ℕ
  pub cache_load : Bool

-- `NewEngine`
abbrev pub new_engine : Bool → Bool → ℕ → Engine
new_engine store windows cache_ttl = record {
  has_store = store;
  has_windows = windows;
  cache_ttl = cache_ttl;
  cached = [];
  cached_at = 0;
  cache_load = false;
}

-- What a call of `snapshot` meets: the clock at its test, what the store lists, if it lists, and
-- the clock after that.
pub record Ask : Type 0 where
  pub now : ℕ
  pub listed : Option (List Rule)
  pub loaded_at : ℕ

-- `Invalidate`
unfoldable pub invalidate : Engine → Engine
invalidate e = record e { cached = []; cached_at = 0; cache_load = false }

unfoldable pub is_cached : ℕ → Engine → Bool
is_cached now e = e.cache_load && (ltb 0 e.cache_ttl && ltb (now - e.cached_at) e.cache_ttl)

-- What `ListEnabled` returned, kept
abbrev pub load : Ask → Engine → Option (List Rule) → Engine × Result RuleError (List Rule)
load ask e none = (e, err not_listed)
load ask e (some rules) =
    (record e { cached = rules; cached_at = ask.loaded_at; cache_load = true }, ok rules)

-- `snapshot`
unfoldable pub snapshot : Ask → Engine → Engine × Result RuleError (List Rule)
unfolding is_cached
snapshot ask e =
    if e.has_store
    then (if is_cached ask.now e then (e, ok e.cached) else load ask e ask.listed)
    else (e, ok [])

abbrev pub has_some : Engine × Result RuleError (List Rule) → Engine × Bool
has_some (e, ok []) = (e, false)
has_some (e, ok (r ∷ rs)) = (e, true)
has_some (e, err x) = (e, false)

-- `HasRules`
unfoldable pub has_rules : Ask → Engine → Engine × Bool
unfolding snapshot
has_rules ask e = has_some (snapshot ask e)

abbrev pub evaluate_snapshot :
    Go
    → Redis
    → Fields
    → Text
    → List Window
    → Engine × Result RuleError (List Rule)
    → Engine × Evaluation
evaluate_snapshot go redis f member ws (e, err x) = (e, (ws, err x))
evaluate_snapshot go redis f member ws (e, ok rules) =
    (e, evaluate_rules go redis e.has_windows rules f member ws)

-- `Evaluate`
unfoldable pub evaluate :
    Go → Redis → Ask → Fields → Text → Engine → List Window → Engine × Evaluation
evaluate go redis ask f member e ws = evaluate_snapshot go redis f member ws (snapshot ask e)
