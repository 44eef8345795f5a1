-- ===== src/Dedup.antt =====
-- The deduplicator: `Seen` and `Release` of common/dedup/dedup.go, on Redis keys with a lifetime.
pub mod Laws
use onepark_smart_park.Prelude.{
  ℕ, ◌+◌, Bool, true, false, ◌&&◌, ◌||◌, List, [], ◌∷◌, Text, text_eq, ltb, Result, ok, err,
  if◌then◌else◌,
}

pub record Key : Type 0 where
  pub name : Text
  pub expires_at : ℕ

-- The key exists.
unfoldable pub is_held : ℕ → Text → List Key → Bool
is_held now key [] = false
is_held now key (k ∷ ks) = (text_eq k.name key && ltb now k.expires_at) || is_held now key ks

-- `DEL`
unfoldable pub drop_key : Text → List Key → List Key
drop_key key [] = []
drop_key key (k ∷ ks) = let rest = drop_key key ks in if text_eq k.name key then rest else k ∷ rest

-- `Seen`: SETNX with the lifetime `ttl`. An error of Redis is the caller's.
unfoldable pub seen : ℕ → ℕ → Bool → Text → List Key → List Key × Result (Unit {0}) Bool
seen now ttl fails key ks =
    if fails
    then (ks, err tt)
    else if is_held now key ks
    then (ks, ok true)
    else (record { name = key; expires_at = now + ttl } ∷ drop_key key ks, ok false)

-- `Release`
unfoldable pub release : Bool → Text → List Key → List Key
release fails key ks = if fails then ks else drop_key key ks
