-- ===== src/Rules/Manage/Fresh.antt =====
-- A change of the rules takes effect at once: the service with its cache answers as one that reads
-- its table every time. One instance of the service, whose calls come one after the other.
use onepark_smart_park.Prelude.{
  ℕ, ◌≡◌, refl, ap, Bool, true, false, not, Option, none, some, List, [], ◌∷◌, Text, is_empty,
  length, ltb, Result, ok, err, if◌then◌else◌, Bool-cases, inl, inr, arith,
}
use onepark_smart_park.Prelude.Int.{ℤ, is_zero, is_positive}
use onepark_smart_park.Strings.{trim_space}
use onepark_smart_park.Rules.Spec.{Spec, SpecError, NormalizedSpec, parse_spec, is_valid_rule_type}
use onepark_smart_park.Rules.Snapshot.{Engine, invalidate, snapshot, is_cached, load}
use onepark_smart_park.Rules.RuleTable.{AlarmRule, RuleDb, Updates, update_rule_row, create}
use onepark_smart_park.Rules.Manage.{
  Service, Answers, CreateRuleReq, UpdateRuleReq, ManageError, create_rule, create_row,
  create_parsed, invalidate_rule_cache, is_level, is_status, check_window_seconds,
  normalize_rule_type, max_device_type_len, row_of,
}
use onepark_smart_park.Rules.Manage.Calls.{
  Call, create_call, update_call, rules_call, Reply, handled, rules, reply_of, handler_reply,
  Implements, AllImplement, without_cache, table_rules, ask_of, ask_engine, serve, serve_table,
  replies, table_replies, FreshEngine, IsFresh,
}
use onepark_smart_park.Rules.Manage.Update.{update_rule, write_updates, wrote, collect_updates}

module _ (unmarshal : Text → Option Spec) where
  -- Two calls go together: one table after them, one result, and a cache that is still right.
  record Together (c t : Service × Result ManageError ℤ) : Type 0 where
    tables : without_cache c.0 ≡ t.0
    results : c.1 ≡ t.1
    kept : IsFresh unmarshal c.0

  same_branch :
      {c1 c2 t1 t2 : Service × Result ManageError ℤ} (test : Bool)
      → Together c1 t1
      → Together c2 t2
      → Together (if test then c1 else c2) (if test then t1 else t2)
  same_branch true x y = x
  same_branch false x y = y

  fails-Together :
      (s : Service) (e : ManageError)
      → IsFresh unmarshal s
      → Together (s, err e) (without_cache s, err e)
  fails-Together s e v = record { tables = refl; results = refl; kept = v }

  invalidate-FreshEngine :
      (db db' : RuleDb) (e : Option Engine)
      → FreshEngine unmarshal db e
      → FreshEngine unmarshal db' (invalidate_rule_cache e)
  unfolding invalidate
  invalidate-FreshEngine db db' none v = tt
  invalidate-FreshEngine db db' (some e) v = (v.0, λ h. cc)

  create_row-Together :
      (a : Answers) (r : AlarmRule) (s : Service)
      → IsFresh unmarshal s
      → Together (create_row a r s) (create_row a r (without_cache s))
  unfolding create_row
  create_row-Together a r s v = same_branch a.write_fails (fails-Together s _ v) (record {
    tables = refl;
    results = refl;
    kept = record { fresh = invalidate-FreshEngine s.db (create r s.db) s.engine v.fresh };
  })

  create_parsed-Together :
      (a : Answers) (tenant : ℤ) (req : CreateRuleReq) (s : Service)
      (p : Result SpecError NormalizedSpec)
      → IsFresh unmarshal s
      → Together (create_parsed a tenant req s p) (create_parsed a tenant req (without_cache s) p)
  create_parsed-Together a tenant req s (err e) v = fails-Together s _ v
  create_parsed-Together a tenant req s (ok spec) v =
      same_branch
        (not
          (check_window_seconds (normalize_rule_type req.rule_type) (some spec) req.window_seconds))
        (fails-Together s _ v)
        (same_branch (not (is_status req.status)) (fails-Together s _ v) (
          same_branch (ltb max_device_type_len (length (trim_space req.device_type)))
            (fails-Together s _ v) (create_row-Together a (row_of a tenant req) s v)))

  create_rule-Together :
      (a : Answers) (tenant : ℤ) (req : CreateRuleReq) (s : Service)
      → IsFresh unmarshal s
      → Together
          (create_rule unmarshal a tenant req s)
          (create_rule unmarshal a tenant req (without_cache s))
  unfolding create_rule
  create_rule-Together a tenant req s v =
      let fails = λ (e : ManageError). fails-Together s e v in
      same_branch (is_zero tenant) (fails _) (
        same_branch (not s.has_db) (fails _) (
          same_branch (is_empty (trim_space req.name)) (fails _) (
            same_branch (is_empty (trim_space req.event_type)) (fails _) (
              same_branch (not (is_level req.level)) (fails _) (
                same_branch (not (is_valid_rule_type req.rule_type)) (fails _) (
                  create_parsed-Together a tenant req s (parse_spec unmarshal req.conditions)
                    v))))))

  wrote-Together :
      (s : Service) (id : ℤ) (w : RuleDb × Bool)
      → IsFresh unmarshal s
      → Together (wrote s id w) (wrote (without_cache s) id w)
  wrote-Together s id (db, false) v = fails-Together s _ v
  wrote-Together s id (db, true) v = record {
    tables = refl;
    results = refl;
    kept = record { fresh = invalidate-FreshEngine s.db db s.engine v.fresh };
  }

  write_updates-Together :
      (a : Answers) (tenant id : ℤ) (s : Service) (u : Result ManageError Updates)
      → IsFresh unmarshal s
      → Together (write_updates a tenant id s u) (write_updates a tenant id (without_cache s) u)
  unfolding write_updates
  write_updates-Together a tenant id s (err e) v = fails-Together s _ v
  write_updates-Together a tenant id s (ok u) v =
      same_branch a.write_fails (fails-Together s _ v)
        (wrote-Together s id (update_rule_row a.now tenant id u s.db) v)

  update_rule-Together :
      (a : Answers) (tenant : ℤ) (req : UpdateRuleReq) (s : Service)
      → IsFresh unmarshal s
      → Together
          (update_rule unmarshal a tenant req s)
          (update_rule unmarshal a tenant req (without_cache s))
  unfolding update_rule
  update_rule-Together a tenant req s v = same_branch (is_zero tenant) (fails-Together s _ v) (
      same_branch (not (is_positive req.id)) (fails-Together s _ v) (
        same_branch (not s.has_db) (fails-Together s _ v)
          (write_updates-Together a tenant req.id s (collect_updates unmarshal req) v)))

  -- One call on either side
  record Follows (c t : Service × Reply) : Type 0 where
    states : without_cache c.0 ≡ t.0
    answers : Implements c.1 t.1
    stays : IsFresh unmarshal c.0

  handler_reply-Follows :
      (c t : Service × Result ManageError ℤ)
      → Together c t
      → Follows (handler_reply c) (handler_reply t)
  handler_reply-Follows c t v = record {
    states = v.tables;
    answers = ap handled v.results;
    stays = v.kept;
  }

  is_cached-load : (now : ℕ) (e : Engine) → is_cached now e ≡ true → e.cache_load ≡ true
  unfolding is_cached
  is_cached-load now e h = ground arith

  load-Follows :
      (s : Service) (now loaded_at : ℕ) (fails : Bool) (e : Engine)
      → e.has_store ≡ true
      → (e.cache_load ≡ true → e.cached ≡ table_rules unmarshal s)
      → Follows
          (reply_of s (
            load
              (ask_of unmarshal s now fails loaded_at)
              e
              (ask_of unmarshal s now fails loaded_at).listed))
          (without_cache s, rules (table_rules unmarshal s))
  load-Follows s now loaded_at true e stored fresh = record {
    states = refl;
    answers = tt;
    stays = record { fresh = (stored, fresh) };
  }
  load-Follows s now loaded_at false e stored fresh = record {
    states = refl;
    answers = refl;
    stays = record { fresh = (stored, λ _. refl) };
  }

  snapshot-Follows :
      (s : Service) (now loaded_at : ℕ) (fails : Bool) (e : Engine)
      → FreshEngine unmarshal s.db (some e)
      → Follows
          (reply_of s (snapshot (ask_of unmarshal s now fails loaded_at) e))
          (without_cache s, rules (table_rules unmarshal s))
  unfolding snapshot
  snapshot-Follows s now loaded_at fails e (stored, fresh) = elim (Bool-cases (is_cached now e)) [
    | inl hit ↦
        simp (stored, hit)
          (record {
            states = refl;
            answers = ap rules (fresh (is_cached-load now e hit));
            stays = record { fresh = (stored, fresh) };
          })
    | inr miss ↦ simp (stored, miss) (load-Follows s now loaded_at fails e stored fresh)
  ]

  ask_engine-Follows :
      (s : Service) (now loaded_at : ℕ) (fails : Bool) (e : Option Engine)
      → s.engine ≡ e
      → FreshEngine unmarshal s.db e
      → Follows
          (ask_engine unmarshal s now fails loaded_at e)
          (without_cache s, rules (table_rules unmarshal s))
  ask_engine-Follows s now loaded_at fails none is v = record {
    states = refl;
    answers = tt;
    stays = record { fresh = rw is tt };
  }
  ask_engine-Follows s now loaded_at fails (some e) is v =
      snapshot-Follows s now loaded_at fails e v

  serve-Follows :
      (c : Call) (s : Service)
      → IsFresh unmarshal s
      → Follows (serve unmarshal c s) (serve_table unmarshal c (without_cache s))
  unfolding serve serve_table
  serve-Follows (create_call a tenant req) s v =
      handler_reply-Follows (create_rule unmarshal a tenant req s)
        (create_rule unmarshal a tenant req (without_cache s))
        (create_rule-Together a tenant req s v)
  serve-Follows (update_call a tenant req) s v =
      handler_reply-Follows (update_rule unmarshal a tenant req s)
        (update_rule unmarshal a tenant req (without_cache s))
        (update_rule-Together a tenant req s v)
  serve-Follows (rules_call now fails loaded_at) s v =
      ask_engine-Follows s now loaded_at fails s.engine refl v.fresh

  -- Over any sequence of calls, from a service whose cache is right: whatever the cache's lifetime,
  -- each reply of the service equals that of a service which reads its table at every call, but for
  -- the calls in which the engine gets no rules at all.
  pub replies-AllImplement :
      (cs : List Call) (s : Service)
      → IsFresh unmarshal s
      → AllImplement (replies unmarshal cs s) (table_replies unmarshal cs (without_cache s))
  unfolding replies table_replies
  replies-AllImplement [] s v = tt
  replies-AllImplement (c ∷ cs) s v =
      let step = serve-Follows c s v in
      (
        step.answers,
        rw (← step.states) (replies-AllImplement cs (serve unmarshal c s).0 step.stays),
      )
