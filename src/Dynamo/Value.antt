-- ===== src/Dynamo/Value.antt =====
-- The values of internal/dynamodb: what encoding/json decodes into Go's `any`, the accessors that
-- type assertions and map reads make, and the library functions that the package calls.
use kumolo.Prelude.{
  ℕ, suc, ◌≡◌, refl, Bool, true, false, Option, none, some, List, [], ◌∷◌, if◌then◌else◌, arith,
}
use kumolo.Prelude.Bytes.{Bytes, bytes_eq, bytes_eq_iff}

-- A Go `any` that encoding/json decoded: `null` is nil, `num` is the bit pattern of a float64,
-- `arr` is []any and `obj` is map[string]any.
mutual
  pub data Json : Type 0 where
    null : Json
    bool : Bool → Json
    num : ℕ → Json
    str : Bytes → Json
    arr : Items → Json
    obj : Fields → Json

  pub data Items : Type 0 where
    nil : Items
    cons : Json → Items → Items

  -- A map, as its entries; a key stands at most once in a map that Go built.
  pub data Fields : Type 0 where
    end : Fields
    field : Bytes → Json → Fields → Fields

-- Library functions, with what they return beside an error where the caller goes on with it:
-- encoding/json.Marshal, strconv.ParseFloat (value, and whether there was no error), `<` on
-- float64, and encoding/base64's StdEncoding.DecodeString; float64 addition, and
-- strconv.FormatFloat(x, 'f', -1, 64).
pub record Platform : Type 0 where
  pub marshal : Json → Bytes
  pub parse_float : Bytes → ℕ × Bool
  pub float_lt : ℕ → ℕ → Bool
  pub decode_base64 : Bytes → Option Bytes
  pub float_add : ℕ → ℕ → ℕ
  pub format_float : ℕ → Bytes

abbrev pub elems : Items → List Json
elems nil = []
elems (cons v xs) = v ∷ elems xs

abbrev pub to_items : List Json → Items
to_items [] = nil
to_items (v ∷ xs) = cons v (to_items xs)

-- `v, ok := m[k]`
unfoldable pub get : Bytes → Fields → Option Json
get k end = none
get k (field j v m) = if bytes_eq j k then some v else get k m

abbrev pub or_nil : Option Json → Json
or_nil none = null
or_nil (some v) = v

-- `m[k]`, which is nil for a key that is absent
unfoldable pub index : Bytes → Fields → Json
unfolding get
index k m = or_nil (get k m)

-- `m[k] = v`
unfoldable pub put : Bytes → Json → Fields → Fields
put k v end = field k v end
put k v (field j w m) = if bytes_eq j k then field k v m else field j w (put k v m)

-- `delete(m, k)`
unfoldable pub delete : Bytes → Fields → Fields
delete k end = end
delete k (field j v m) = let rest = delete k m in if bytes_eq j k then rest else field j v rest

pub get-put :
    (k j : Bytes) (v : Json) (m : Fields)
    → get j (put k v m) ≡ (if bytes_eq k j then some v else get j m)
unfolding get put
get-put k j v end = refl
get-put k j v (field i w m) =
    ground (arith, bytes_eq_iff k j, bytes_eq_iff i k, bytes_eq_iff i j, get-put k j v m)

pub get-delete :
    (k j : Bytes) (m : Fields) → get j (delete k m) ≡ (if bytes_eq k j then none else get j m)
unfolding get delete
get-delete k j end = ground arith
get-delete k j (field i v m) =
    ground (arith, bytes_eq_iff k j, bytes_eq_iff i k, bytes_eq_iff i j, get-delete k j m)

-- len(m)
abbrev pub count : Fields → ℕ
count end = 0
count (field k v m) = suc (count m)

-- `v, ok := x.(map[string]any)`, and so for []any, string and nil.
abbrev pub as_obj : Json → Option Fields
as_obj (obj m) = some m
as_obj _ = none

abbrev pub as_arr : Json → Option Items
as_arr (arr xs) = some xs
as_arr _ = none

abbrev pub as_str : Json → Option Bytes
as_str (str s) = some s
as_str _ = none

abbrev pub is_nil : Json → Bool
is_nil null = true
is_nil _ = false

-- `m[k].(string)` and `m[k].([]any)`
unfoldable pub get_str : Bytes → Fields → Option Bytes
unfolding index
get_str k m = as_str (index k m)

unfoldable pub get_arr : Bytes → Fields → Option Items
unfolding index
get_arr k m = as_arr (index k m)

-- A map[string]string, as its entries.
abbrev pub Names : Type 0
Names = List (Bytes × Bytes)

unfoldable pub lookup : Bytes → Names → Option Bytes
lookup k [] = none
lookup k ((j, v) ∷ m) = if bytes_eq j k then some v else lookup k m
