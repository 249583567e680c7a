-- ===== src/Values.antt =====
-- Values of a dynamic type (`Any`, JSON), and Python's floats as a parameter. The texts of the
-- built-in exceptions are not modelled.
use ai_sre_platform_for_auto.Common.{ℕ}
use ai_sre_platform_for_auto.Errors.{Result, ok, raise, value_error, builtin}
use ai_sre_platform_for_auto.Common.{Bool, Option, Text, [], if◌then◌else◌}
use ai_sre_platform_for_auto.Common.{false, none, some, ◌∷◌}
use ai_sre_platform_for_auto.Common.{not, text_eq}
use ai_sre_platform_for_auto.Common.{true}

-- What the program does with floats: `>`, a test for 0.0, whole numbers below 2^53, `float(s)` of a
-- text, and `str`.
pub record FloatOps (Float : Type 0) : Type 0 where
  pub gt : Float → Float → Bool
  pub is_zero : Float → Bool
  pub of_ℕ : ℕ → Float
  pub parse : Text → Option Float
  pub show : Float → Text

-- `num` stands for ints and floats; the program only makes floats of them.
mutual
  pub data Value (Float : Type 0) : Type 0 where
    null : Value Float
    bool : Bool → Value Float
    num : Float → Value Float
    text : Text → Value Float
    arr : Items Float → Value Float
    obj : Fields Float → Value Float

  pub data Items (Float : Type 0) : Type 0 where
    nil : Items Float
    cons : Value Float → Items Float → Items Float

  pub data Fields (Float : Type 0) : Type 0 where
    end : Fields Float
    field : Text → Value Float → Fields Float → Fields Float

module _ {Float : Type 0} where
  -- `d.get(k)`; also `d[k]` after `k in d`
  unfoldable pub get : Text → Fields Float → Option (Value Float)
  get k end = none
  get k (field j v d) = if text_eq j k then some v else get k d

  abbrev or_default : Value Float → Option (Value Float) → Value Float
  or_default v none = v
  or_default v (some w) = w

  -- `d.get(k, default)`
  unfoldable pub get_or : Text → Value Float → Fields Float → Value Float
  unfolding get
  get_or k default d = or_default default (get k d)

  -- the receiver of `.get(...)`: an AttributeError for all but a dict
  abbrev pub as_dict : Value Float → Result (Fields Float)
  as_dict (obj d) = ok d
  as_dict _ = raise builtin []

  -- the receiver of `.lower()`: an AttributeError for all but a text
  abbrev pub as_text : Value Float → Result Text
  as_text (text s) = ok s
  as_text _ = raise builtin []

  unfoldable pub characters : Text → Items Float
  characters [] = nil
  characters (c ∷ s) = cons (text (c ∷ [])) (characters s)

  unfoldable pub keys : Fields Float → Items Float
  keys end = nil
  keys (field k v d) = cons (text k) (keys d)

  -- `for x in v`: a TypeError for what is not iterable
  unfoldable pub iterate : Value Float → Result (Items Float)
  iterate (arr xs) = ok xs
  iterate (obj d) = ok (keys d)
  iterate (text s) = ok (characters s)
  iterate _ = raise builtin []

  module _ (floats : FloatOps Float) where
    abbrev parsed : Option Float → Result Float
    parsed none = raise value_error []
    parsed (some x) = ok x

    -- `float(v)`
    unfoldable pub to_float : Value Float → Result Float
    to_float (num x) = ok x
    to_float (bool b) = ok (floats.of_ℕ (if b then 1 else 0))
    to_float (text s) = parsed (floats.parse s)
    to_float _ = raise builtin []

    -- `bool(v)`
    unfoldable pub truthy : Value Float → Bool
    truthy null = false
    truthy (bool b) = b
    truthy (num x) = not (floats.is_zero x)
    truthy (text []) = false
    truthy (text (c ∷ s)) = true
    truthy (arr nil) = false
    truthy (arr (cons v vs)) = true
    truthy (obj end) = false
    truthy (obj (field k v d)) = true
