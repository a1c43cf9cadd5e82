-- ===== src/Validation/Fixed.antt =====
-- A value that conforms to its field (validation.py) is accepted as it is, so a submission of
-- validated values is validated to itself.
use local_canvas.Prelude.{
  ◌^◌, ◌≤◌, ◌≡◌, refl, Bool, true, false, Option, none, some, List, [], ◌∷◌, arith,
}
use local_canvas.Prelude.Int.{ℤ}
use local_canvas.Values.{Value, null, bool, int, float, str, arr, obj}
use local_canvas.Values.Numbers.{
  Float, Number, float_lt, number_lt, float_of_int, nan, infinity, dyadic,
}
use local_canvas.Values.Numbers
use local_canvas.Values.Rounding.{magnitude, float_of_int-none}
use local_canvas.Workflow.{FieldType, SelectOption, InputField, OptionValue, text, number}
use local_canvas.Validation.Checks.{
  valid, overflow, Printing, check_text, check_boolean, is_choice, is_option, check_select,
  check_media, as_number, number_value, below, above, in_range, check_number, check_typed, check,
}
use local_canvas.Validation.Conform.{InRange, Conforms, check-Conforms}

is_option-null : (o : OptionValue) → is_option o null ≡ false
unfolding is_option
is_option-null (text a) = refl
is_option-null (number (Numbers.int n)) = refl
is_option-null (number (Numbers.float x)) = refl

null_is_no_choice : (options : List SelectOption) → is_choice options null ≡ false
unfolding is_choice
null_is_no_choice [] = refl
null_is_no_choice (o ∷ options) = ground (arith, is_option-null o.value, null_is_no_choice options)

below-nan : (b : Option Number) → below (Numbers.float nan) b ≡ false
unfolding below number_lt
below-nan none = refl
below-nan (some b) = refl

above-nan : (b : Option Number) → above (Numbers.float nan) b ≡ false
unfolding above number_lt
above-nan none = refl
above-nan (some (Numbers.int n)) = refl
above-nan (some (Numbers.float nan)) = refl
above-nan (some (Numbers.float (infinity true))) = refl
above-nan (some (Numbers.float (infinity false))) = refl
above-nan (some (Numbers.float (dyadic m k))) = refl

as_number-overflow :
    (f : InputField) (n : ℤ) → float_of_int n ≡ none → as_number f false (int n) ≡ overflow
unfolding as_number
as_number-overflow f n e = rw (e, as_number)

module _ (p : Printing) where
  in_range_fixed :
      (f : InputField) (whole : Bool) (n : Number)
      → InRange f n
      → in_range p f whole n ≡ valid (number_value n)
  unfolding in_range
  in_range_fixed f whole n (lo, hi) = simp (lo, hi)

  check_typed_fixed :
      (ty : FieldType) (f : InputField) (c : Value)
      → Conforms ty f c
      → check_typed p ty f c ≡ valid c
  unfolding check_typed check_text check_boolean check_select check_media check_number as_number
      number_value
  check_typed_fixed FieldType.string f c (s, e, h) = rw e (simp h)
  check_typed_fixed FieldType.multiline f c (s, e, h) = rw e (simp h)
  check_typed_fixed FieldType.integer f c (n, e, h) = rw e (in_range_fixed f true (Numbers.int n) h)
  check_typed_fixed FieldType.float f c (x, e, h) =
      rw e (in_range_fixed f false (Numbers.float x) h)
  check_typed_fixed FieldType.boolean f c (b, e) = rw e
  check_typed_fixed FieldType.select f c h = simp h
  check_typed_fixed FieldType.image f c (s, e, h) = rw e (simp h)
  check_typed_fixed FieldType.video f c (s, e, h) = rw e (simp h)

  null-Conforms_not : (ty : FieldType) (f : InputField) → ¬ (Conforms ty f null)
  null-Conforms_not FieldType.string f (s, e, h) = cc
  null-Conforms_not FieldType.multiline f (s, e, h) = cc
  null-Conforms_not FieldType.integer f (n, e, h) = cc
  null-Conforms_not FieldType.float f (x, e, h) = cc
  null-Conforms_not FieldType.boolean f (b, e) = cc
  null-Conforms_not FieldType.select f h = cc (null_is_no_choice f.options)
  null-Conforms_not FieldType.image f (s, e, h) = cc
  null-Conforms_not FieldType.video f (s, e, h) = cc

  -- A value that conforms to the schema of a field is accepted, and not changed.
  pub check_fixed : (f : InputField) (c : Value) → Conforms f.field_type f c → check p f c ≡ valid c
  unfolding check
  check_fixed f null h = absurd (null-Conforms_not f.field_type f h)
  check_fixed f (bool b) h = check_typed_fixed f.field_type f (bool b) h
  check_fixed f (int n) h = check_typed_fixed f.field_type f (int n) h
  check_fixed f (float x) h = check_typed_fixed f.field_type f (float x) h
  check_fixed f (str s) h = check_typed_fixed f.field_type f (str s) h
  check_fixed f (arr xs) h = check_typed_fixed f.field_type f (arr xs) h
  check_fixed f (obj fs) h = check_typed_fixed f.field_type f (obj fs) h

  -- What a check lets through, the same check lets through again and does not change: a text stays
  -- the text, and a number that was converted is not converted once more.
  pub check-check : (f : InputField) (v c : Value) → check p f v ≡ valid c → check p f c ≡ valid c
  check-check f v c h = check_fixed f c (check-Conforms p f v c h)

  -- NaN passes the range test of every float field, whatever its bounds.
  pub check-nan :
      (f : InputField) → f.field_type ≡ FieldType.float → check p f (float nan) ≡ valid (float nan)
  unfolding check check_typed check_number as_number number_value
  check-nan f ty =
      simp ty (in_range_fixed f false (Numbers.float nan) (below-nan f.min, above-nan f.max))

  -- An int of 2^1024 or more, or of -2^1024 or less, is neither accepted nor refused by a float field,
  -- whatever the field's bounds: the conversion raises, and the error is not one of validation.
  pub check-overflow :
      (f : InputField) (n : ℤ)
      → f.field_type ≡ FieldType.float
      → 2 ^ 1024 ≤ magnitude n
      → check p f (int n) ≡ overflow
  unfolding check check_typed check_number
  check-overflow f n ty large = simp ty (rw (as_number-overflow f n (float_of_int-none n large)))
