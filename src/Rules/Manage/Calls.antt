-- ===== src/Rules/Manage/Calls.antt =====
-- Calls of the rule handlers and of the engine on one service, with a cache and without.
use onepark_smart_park.Prelude.{
  ℕ, ◌≡◌, Bool, true, Option, none, some, List, [], ◌∷◌, Text, Result, ok, err, if◌then◌else◌,
}
use onepark_smart_park.Prelude.Int.{ℤ}
use onepark_smart_park.Rules.Spec.{Spec}
use onepark_smart_park.Rules.Engine.{Rule, RuleError}
use onepark_smart_park.Rules.Snapshot.{Engine, Ask, snapshot}
use onepark_smart_park.Rules.RuleTable.{RuleDb, list_enabled}
use onepark_smart_park.Rules.Manage.{
  Service, Answers, CreateRuleReq, UpdateRuleReq, ManageError, create_rule,
}
use onepark_smart_park.Rules.Manage.Update.{update_rule}

-- A call of the service: two of the rule handlers, and the engine asking for the rules. `fails` is
-- whether the table can be read then.
pub data Call : Type 0 where
  create_call : Answers → ℤ → CreateRuleReq → Call
  update_call : Answers → ℤ → UpdateRuleReq → Call
  rules_call : (now : ℕ) → (fails : Bool) → (loaded_at : ℕ) → Call

pub data Reply : Type 0 where
  handled : Result ManageError ℤ → Reply
  rules : List Rule → Reply
  failed : Reply

abbrev pub reply_of : Service → Engine × Result RuleError (List Rule) → Service × Reply
reply_of s (e, ok rs) = (record s { engine = some e }, rules rs)
reply_of s (e, err x) = (record s { engine = some e }, failed)

abbrev pub handler_reply : Service × Result ManageError ℤ → Service × Reply
handler_reply (s, r) = (s, handled r)

-- A reply is the other one, but that the cached service may fail.
abbrev pub Implements : Reply → Reply → Type 0
Implements (handled r) x = handled r ≡ x
Implements (rules rs) x = rules rs ≡ x
Implements failed x = Unit

abbrev pub AllImplement : List Reply → List Reply → Type 0
AllImplement [] [] = Unit
AllImplement (r ∷ rs) (x ∷ xs) = Implements r x × AllImplement rs xs
AllImplement [] (x ∷ xs) = ⊥
AllImplement (r ∷ rs) [] = ⊥

abbrev pub without_cache : Service → Service
without_cache s = record s { engine = none }

module _ (unmarshal : Text → Option Spec) where
  abbrev pub table_rules : Service → List Rule
  table_rules s = list_enabled unmarshal s.db.rules

  abbrev pub ask_of : Service → ℕ → Bool → ℕ → Ask
  ask_of s now fails loaded_at = record {
    now = now;
    listed = if fails then none else some (table_rules s);
    loaded_at = loaded_at;
  }

  abbrev pub ask_engine : Service → ℕ → Bool → ℕ → Option Engine → Service × Reply
  ask_engine s now fails loaded_at none = (s, failed)
  ask_engine s now fails loaded_at (some e) = reply_of s (snapshot (ask_of s now fails loaded_at) e)

  -- One call of the service
  unfoldable pub serve : Call → Service → Service × Reply
  serve (create_call a tenant req) s = handler_reply (create_rule unmarshal a tenant req s)
  serve (update_call a tenant req) s = handler_reply (update_rule unmarshal a tenant req s)
  serve (rules_call now fails loaded_at) s = ask_engine s now fails loaded_at s.engine

  -- The same call of a service without a cache, whose table can always be read
  unfoldable pub serve_table : Call → Service → Service × Reply
  serve_table (create_call a tenant req) s = handler_reply (create_rule unmarshal a tenant req s)
  serve_table (update_call a tenant req) s = handler_reply (update_rule unmarshal a tenant req s)
  serve_table (rules_call now fails loaded_at) s = (s, rules (table_rules s))

  unfoldable pub replies : List Call → Service → List Reply
  unfolding serve
  replies [] s = []
  replies (c ∷ cs) s = let (s', r) = serve c s in r ∷ replies cs s'

  unfoldable pub table_replies : List Call → Service → List Reply
  unfolding serve_table
  table_replies [] s = []
  table_replies (c ∷ cs) s = let (s', r) = serve_table c s in r ∷ table_replies cs s'

  abbrev pub FreshEngine : RuleDb → Option Engine → Type 0
  FreshEngine db none = Unit
  FreshEngine db (some e) =
      (e.has_store ≡ true) × (e.cache_load ≡ true → e.cached ≡ list_enabled unmarshal db.rules)

  -- What is cached is what the table has.
  pub record IsFresh (s : Service) : Type 0 where
    pub fresh : FreshEngine s.db s.engine
