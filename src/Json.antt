-- ===== src/Json.antt =====
-- What a TypeScript `unknown` can hold at the program's boundaries: plain data, as it comes out of
-- `structuredClone`, `JSON.parse` or an IPC channel. The keys of an object are distinct, and a
-- field that is absent reads as `undefined`.
-- Numbers are `num n` (a non-negative integer), `negative n` (the integer -(n + 1)) or `inexact`
-- (a fraction, NaN or an infinity), which is all that the program's tests tell apart.
pub mod Keys
use qvac_atlas.Base.{
  ℕ, String, Bool, true, false, Option, none, some, List, [], ◌∷◌, ◌=ₜ◌, ◌||◌, if◌then◌else◌,
}

mutual
  pub data Fields : Type 0 where
    field : String → Value → Fields → Fields
    end : Fields

  pub data Items : Type 0 where
    cons : Value → Items → Items
    nil : Items

  pub data Value : Type 0 where
    obj : Fields → Value
    arr : Items → Value
    str : String → Value
    negative : ℕ → Value
    num : ℕ → Value
    bool : Bool → Value
    undefined null inexact : Value

abbrev pub items : Items → List Value
items nil = []
items (cons v vs) = v ∷ items vs

abbrev pub of_items : List Value → Items
of_items [] = nil
of_items (v ∷ vs) = cons v (of_items vs)

abbrev pub keys : Fields → List String
keys end = []
keys (field k v fs) = k ∷ keys fs

-- `value[key]`.
abbrev pub get : Fields → String → Value
get end k = undefined
get (field j v fs) k = if j =ₜ k then v else get fs k

-- An object's fields, in the order of a literal.
abbrev pub fields : List (String × Value) → Fields
fields [] = end
fields ((k, v) ∷ kvs) = field k v (fields kvs)

-- `record(value)` and `isRecord(value)`: an object that is no array and not null.
unfoldable pub record_of : Value → Option Fields
record_of (obj fs) = some fs
record_of _ = none

abbrev pub is_null : Value → Bool
is_null null = true
is_null _ = false

-- `value === text`.
abbrev pub is_text : Value → String → Bool
is_text (str s) t = s =ₜ t
is_text _ t = false

-- `text`, `any number or other text`, or a TypeError: what `String(value)` gives, as far as a
-- comparison with the program's labels can tell. No label of the program is spelled like a number,
-- "true", "null", "undefined", "[object Object]", "" or a text with a comma in it.
pub data Coerced : Type 0 where
  text : String → Coerced
  unlisted : Coerced
  throws : Coerced

abbrev either_throws : Coerced → Coerced → Coerced
either_throws throws _ = throws
either_throws _ throws = throws
either_throws _ _ = unlisted

abbrev has_key : String → Fields → Bool
has_key k end = false
has_key k (field j v fs) = j =ₜ k || has_key k fs

-- `String(value)`. An array joins its members by commas, null and undefined as "". An object has
-- no callable `toString` of its own, so one under that key makes the coercion throw.
unfoldable mutual
  pub to_string : Value → Coerced
  to_string undefined = unlisted
  to_string null = unlisted
  to_string (bool b) = unlisted
  to_string (num n) = unlisted
  to_string (negative n) = unlisted
  to_string inexact = unlisted
  to_string (str s) = text s
  to_string (arr vs) = join_items vs
  to_string (obj fs) = if has_key "toString" fs then throws else unlisted

  pub join_items : Items → Coerced
  join_items nil = unlisted
  join_items (cons v nil) = to_string v
  join_items (cons v (cons w vs)) = either_throws (to_string v) (join_items (cons w vs))
