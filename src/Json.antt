-- ===== src/Json.antt =====
-- JSON values as Python's `json` module reads them: `None`, `bool`, `int`, `str`, `list`, `dict`.
-- Numbers are integers: floats do not occur in the model. A dictionary keeps its insertion order.
pub mod Print
use ctx_ttl_oss.Prelude.{
  ℕ, suc, String, Bool, true, false, ◌&&◌, Option, none, some, ◌==◌, nat_eq, string_eq, option_eq,
  list_eq, nat_beq, if◌then◌else◌,
}

mutual
  pub data Json : Type 0 where
    null : Json
    bool : Bool → Json
    -- `int n` is n, and `negative n` is -(n + 1)
    int : ℕ → Json
    negative : ℕ → Json
    str : String → Json
    arr : Items → Json
    obj : Fields → Json

  pub data Items : Type 0 where
    nil : Items
    cons : Json → Items → Items

  pub data Fields : Type 0 where
    end : Fields
    field : String → Json → Fields → Fields

-- `d.get(k)`, by `none` where the key is missing
abbrev pub get : String → Fields → Option Json
get k end = none
get k (field j v fs) = if k == j then some v else get k fs

-- `d[k] = v`: the place of a key that is there is kept
abbrev pub put : String → Json → Fields → Fields
put k v end = field k v end
put k v (field j w fs) = if k == j then field k v fs else field j w (put k v fs)

abbrev pub field_count : Fields → ℕ
field_count end = 0
field_count (field _ _ fs) = suc (field_count fs)

abbrev bool_number : Bool → ℕ
bool_number true = 1
bool_number false = 0

abbrev equal_at : (Json → Bool) → Option Json → Bool
equal_at f none = false
equal_at f (some w) = f w

abbrev equal_head : (Json → Bool) → (Items → Bool) → Items → Bool
equal_head f g nil = false
equal_head f g (cons w ws) = f w && g ws

-- `a == b` of Python: `True == 1`, and dictionaries are compared without their order.
unfoldable mutual
  pub json_eq : Json → Json → Bool
  json_eq null b = elim b [ null ↦ true | _ ↦ false ]
  json_eq (bool x) b = elim b [
    | bool y ↦ nat_beq (bool_number x) (bool_number y)
    | int n ↦ nat_beq (bool_number x) n
    | _ ↦ false
  ]
  json_eq (int m) b = elim b [
    | bool y ↦ nat_beq m (bool_number y)
    | int n ↦ nat_beq m n
    | _ ↦ false
  ]
  json_eq (negative m) b = elim b [ negative n ↦ nat_beq m n | _ ↦ false ]
  json_eq (str s) b = elim b [ str t ↦ s == t | _ ↦ false ]
  json_eq (arr xs) b = elim b [ arr ys ↦ items_eq xs ys | _ ↦ false ]
  json_eq (obj fs) b = elim b [
    | obj gs ↦ nat_beq (field_count fs) (field_count gs) && fields_in fs gs
    | _ ↦ false
  ]

  pub items_eq : Items → Items → Bool
  items_eq nil ys = elim ys [ nil ↦ true | _ ↦ false ]
  items_eq (cons x xs) ys = equal_head (json_eq x) (items_eq xs) ys

  -- every field of the first is in the second, with an equal value
  pub fields_in : Fields → Fields → Bool
  fields_in end gs = true
  fields_in (field k v fs) gs = equal_at (json_eq v) (get k gs) && fields_in fs gs
