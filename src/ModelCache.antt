-- ===== src/ModelCache.antt =====
-- edge/model_cache.py: the models that are resident, the memory that they take, and the eviction of
-- the least recently used one while a budget is exceeded. A function is what a method does under one
-- hold of the lock, or the whole method where no other thread comes in between.
pub mod Entries
pub mod Oldest
pub mod Budget
pub mod Methods
pub mod Threads
mod Tests
use Prim.Native.Nat.{Ordering}
use Prim.Native.String.{compare}
use audio_bodyguard_alpha.Prelude.{
  ℕ, zero, suc, ◌+◌, ◌-◌, String, Bool, true, false, not, ◌&&◌, ◌||◌, ◌==◌, Option, none, some,
  List, [], ◌∷◌, ◌++◌, length, ltb, leb, eqb, if◌then◌else◌, is_some, Result, ok, err, value_error,
  runtime_error, other_error, ◌>>=◌, ◌>>◌, guard, or_raise,
}
use audio_bodyguard_alpha.Prelude.Time.{ℤ, pos, negsuc}

abbrev pub Key : Type 0
Key = String × String

unfoldable pub same_key : Key → Key → Bool
same_key (a, b) (c, d) = a == c && b == d

string_before : String → String → Bool
string_before a b = elim (compare a b) [ Ordering.lt ↦ true | _ ↦ false ]

key_before : Key → Key → Bool
unfolding string_before
key_before (a, b) (c, d) = string_before a c || (a == c && string_before b d)

-- `_Entry`. `ident` stands for the object's identity: the clock at which it was made. `unload` is what
-- a call of the callback with the model does: it returns or raises.
pub record Entry (M : Type 0) : Type 0 where
  pub ident : ℕ
  pub model : M
  pub unload : M → Result (Unit {0})
  pub users : ℕ
  pub unloading : Bool
  pub memory_mb : ℕ
  pub last_used : ℕ

pub record Cache (M : Type 0) : Type 0 where
  pub entries : List (Key × Entry M)
  pub max_memory_mb : Option ℕ
  pub resident_memory_mb : ℕ
  pub clock : ℕ

-- `type(value) is not int or value < 0`, of an int
unfoldable pub natural : ℤ → String → Result ℕ
natural (pos n) e = ok n
natural (negsuc n) e = err (value_error e)

unfoldable pub budget : Option ℤ → Result (Option ℕ)
unfolding natural
budget none = ok none
budget (some n) = do
  m ← natural n "max_memory_mb must be a nonnegative integer or None"
  ok (some m)

abbrev pub Outcome : Type 0 → Type 0
Outcome C = Option (Result (Unit {0}) × C)

abbrev pub within : Option ℕ → ℕ → Bool
within none resident = true
within (some m) resident = leb resident m

module _ {M : Type 0} where
  -- `self._entries.get(key)`
  unfoldable pub find : Key → List (Key × Entry M) → Option (Entry M)
  find k [] = none
  find k ((j, e) ∷ es) = if same_key j k then some e else find k es

  -- `del self._entries[key]`, of a key that is there
  unfoldable pub remove : Key → List (Key × Entry M) → List (Key × Entry M)
  remove k [] = []
  remove k ((j, e) ∷ es) = if same_key j k then es else (j, e) ∷ remove k es

  -- An assignment to a field of the object `i`, which was registered under `k`, seen through the dict.
  unfoldable pub update :
      Key → ℕ → (Entry M → Entry M) → List (Key × Entry M) → List (Key × Entry M)
  update k i f [] = []
  update k i f ((j, e) ∷ es) =
      (j, if same_key j k && eqb e.ident i then f e else e) ∷ update k i f es

  abbrev pub is_idle : Entry M → Bool
  is_idle e = eqb e.users 0 && not e.unloading

  -- `(last_used, key) < (last_used', key')`
  older : Key × Entry M → Key × Entry M → Bool
  unfolding key_before
  older (j, d) (k, e) =
      ltb d.last_used e.last_used || (eqb d.last_used e.last_used && key_before j k)

  -- the smaller of two; the first, if they are equal
  oldest_of : Key × Entry M → Option (Key × Entry M) → Key × Entry M
  unfolding older
  oldest_of c none = c
  oldest_of c (some d) = if older d c then d else c

  -- `min(candidates)`, over the entries that are neither in use nor being unloaded
  unfoldable pub oldest : List (Key × Entry M) → Option (Key × Entry M)
  unfolding oldest_of
  oldest [] = none
  oldest ((k, e) ∷ es) =
      let rest = oldest es in if is_idle e then some (oldest_of (k, e) rest) else rest

  -- What one round of `_enforce_budget` chooses to evict, if it does not return.
  unfoldable pub victim : Cache M → Option Key
  unfolding oldest
  victim c =
      if within c.max_memory_mb c.resident_memory_mb
      then none
      else elim (oldest c.entries) [ none ↦ none | some (k, e) ↦ some k ]

  unfoldable pub new_cache : Option ℤ → Result (Cache M)
  unfolding budget
  new_cache max_memory_mb = do
    m ← budget max_memory_mb
    ok (record { entries = []; max_memory_mb = m; resident_memory_mb = 0; clock = 0 })

  -- the part of `register` under the lock
  unfoldable pub add_entry :
      Key → M → ℕ → (M → Result (Unit {0})) → Cache M → Result (Unit {0}) × Cache M
  unfolding find
  add_entry key model memory unload c =
      if is_some (find key c.entries)
      then (err (value_error "model key already registered"), c)
      else (
        ok tt,
        record c {
          clock = c.clock + 1;
          resident_memory_mb = c.resident_memory_mb + memory;
          entries =
              c.entries
              ++ (
                key,
                record {
                  ident = c.clock + 1;
                  model = model;
                  unload = unload;
                  users = 0;
                  unloading = false;
                  memory_mb = memory;
                  last_used = c.clock + 1;
                },
              )
                ∷ [];
        },
      )

  abbrev pub start_unload : Entry M → Entry M
  start_unload e = record e { unloading = true }

  abbrev pub use_at : ℕ → Entry M → Entry M
  use_at t e = record e { users = e.users + 1; last_used = t }

  abbrev pub drop_user : Entry M → Entry M
  drop_user e = record e { users = e.users - 1 }

  -- the first part of `evict` under the lock: the entry to unload, or none where it returns False
  unfoldable pub begin_evict : Key → Cache M → Option (Entry M) × Cache M
  unfolding find update
  begin_evict key c = elim (find key c.entries) [
    | none ↦ (none, c)
    | some e ↦
        if is_idle e
        then (some e, record c { entries = update key e.ident start_unload c.entries })
        else (none, c)
  ]

  -- the second part of `evict` under the lock
  unfoldable pub finish_evict : Key → Entry M → Cache M → Result (Unit {0}) × Cache M
  unfolding find remove
  finish_evict key e c =
      if is_some (find key c.entries)
      then (
        ok tt,
        record c {
          entries = remove key c.entries;
          resident_memory_mb = c.resident_memory_mb - e.memory_mb;
        },
      )
      else (err (other_error "KeyError"), c)

  -- the unload, outside the lock, and what follows it
  unfoldable pub unload_entry : Key → Option (Entry M) → Cache M → Result Bool × Cache M
  unfolding finish_evict
  unload_entry key none c = (ok false, c)
  unload_entry key (some e) c = elim (e.unload e.model) [
    | err x ↦ (err x, c)
    | ok _ ↦ ((finish_evict key e c).0 >> ok true, (finish_evict key e c).1)
  ]

  unfoldable pub evict : Key → Cache M → Result Bool × Cache M
  unfolding begin_evict unload_entry
  evict key c = let (e, c') = begin_evict key c in unload_entry key e c'
