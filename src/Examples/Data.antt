-- ===== src/Examples/Data.antt =====
-- A platform, items and maps that the examples share.
use kumolo.Prelude.{◌+◌, true, some, [], ◌∷◌, ltb}
use kumolo.Prelude.Bytes.{Bytes, codes}
use kumolo.Prelude.Decimal.{decimal}
use kumolo.Dynamo.Value.{
  Json, null, bool, num, str, arr, obj, Items, nil, cons, Fields, end, field, Platform, Names,
}
use kumolo.Dynamo.Parser.Path.{atoi}

-- A text for each value, enough to tell the values of the examples apart.
abbrev mutual
  pub text : Json → Bytes
  text null = codes "null"
  text (bool b) = codes "true"
  text (num n) = codes "0"
  text (str s) = s
  text (arr xs) = text_items xs
  text (obj m) = text_fields m

  text_items : Items → Bytes
  text_items nil = codes "]"
  text_items (cons v xs) = text v

  text_fields : Fields → Bytes
  text_fields end = codes "}"
  text_fields (field k v m) = text v

-- Floats are stood for by whole numbers.
abbrev pub sample : Platform
sample = record {
  marshal = text;
  parse_float = λ s. (atoi s, true);
  float_lt = ltb;
  decode_base64 = λ s. some s;
  float_add = λ x y. x + y;
  format_float = decimal;
}

abbrev pub number : Bytes → Json
number n = obj (field (codes "N") (str n) end)

abbrev pub string : Bytes → Json
string s = obj (field (codes "S") (str s) end)

abbrev pub entries : Fields → Json
entries m = obj (field (codes "M") (obj m) end)

-- {"a": {"N": n}, "t": {"S": "x"}}
abbrev pub row : Bytes → Fields
row n = field (codes "a") (number n) (field (codes "t") (string (codes "x")) end)

-- {"t": {"S": "x"}, "m": {"M": {"k": {"N": "1"}, "l": {"S": "y"}}}}
abbrev pub nested : Fields
nested = field (codes "t") (string (codes "x")) (
    field (codes "m")
      (entries
        (field (codes "k") (number (codes "1")) (field (codes "l") (string (codes "y")) end)))
      end)

abbrev pub names : Names
names = (codes "#a", codes "a") ∷ []

abbrev pub values : Fields
values = field (codes ":n") (number (codes "2")) end

abbrev pub expr : Bytes
expr = codes "#a > :n"
