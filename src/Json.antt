-- ===== src/Json.antt =====
-- The values that `json.load` returns and `json.dump` takes, and the readings of one that the
-- loaders make. The text of a document is not modelled, nor the order of an object's keys on disk.
use audio_bodyguard_alpha.Prelude.{
  ℕ, suc, ◌-◌, ◌*◌, String, Bool, true, false, ◌&&◌, ◌==◌, Option, none, some, List, length, all,
  is_some, eqb, if◌then◌else◌,
}
use audio_bodyguard_alpha.Prelude.Time.{ℤ, pos, negsuc, Time, same_time}

-- A Python float or int where a number is wanted: finite, or else a NaN or an infinity.
pub data Number : Type 0 where
  finite : Time → Number
  non_finite : Number

mutual
  pub data Json : Type 0 where
    null : Json
    bool : Bool → Json
    int : ℤ → Json
    float : Number → Json
    str : String → Json
    arr : Items → Json
    obj : Fields → Json

  pub data Items : Type 0 where
    nil : Items
    cons : Json → Items → Items

  pub data Fields : Type 0 where
    end : Fields
    field : String → Json → Fields → Fields

-- `raw.get(key)`; the keys of an object are distinct.
abbrev pub get_field : String → Fields → Option Json
get_field k end = none
get_field k (field j v fs) = if j == k then some v else get_field k fs

abbrev pub count_fields : Fields → ℕ
count_fields end = 0
count_fields (field j v fs) = suc (count_fields fs)

-- `set(raw) == {…}`
unfoldable pub has_keys : List String → Fields → Bool
has_keys ks fs = eqb (count_fields fs) (length ks) && all (λ k. is_some (get_field k fs)) ks

-- `type(raw) is dict`, and what it holds
abbrev pub as_object : Json → Option Fields
as_object (obj fs) = some fs
as_object _ = none

abbrev pub as_array : Json → Option Items
as_array (arr xs) = some xs
as_array _ = none

abbrev pub as_string : Json → Option String
as_string (str s) = some s
as_string _ = none

-- `type(value) is int`, of a value that is not negative
abbrev pub as_natural : Json → Option ℕ
as_natural (int (pos n)) = some n
as_natural _ = none

abbrev pub is_true : Json → Bool
is_true (bool true) = true
is_true _ = false

-- the ticks of one second
abbrev pub second : ℕ
second = 1000000

-- `version == 1`, which a float or a bool may satisfy too
unfoldable pub is_one : Json → Bool
is_one (int (pos n)) = eqb n 1
is_one (bool b) = b
is_one (float (finite t)) = same_time t (pos second)
is_one _ = false

-- `float(n)` of an int
abbrev pub seconds : ℤ → Time
seconds (pos n) = pos (n * second)
seconds (negsuc n) = negsuc (suc n * second - 1)

-- An int or a finite float, as a float.
abbrev pub as_time : Json → Option Time
as_time (int n) = some (seconds n)
as_time (float (finite t)) = some t
as_time _ = none
