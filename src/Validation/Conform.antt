-- ===== src/Validation/Conform.antt =====
-- What a value that validation.py accepts is: an independent reading of the field schema.
use local_canvas.Prelude.{
  String, ◌<>◌, ◌≡◌, ◌≢◌, refl, Bool, true, false, ◌&&◌, Option, none, some, arith, inl, inr,
  Option-cases, eq_iff, ap, ◌∙◌,
}
use local_canvas.Prelude.Int.{ℤ}
use local_canvas.Prelude.Text.{is_blank}
use local_canvas.Values.{Value, null, bool, int, float, str, arr, obj, end, field}
use local_canvas.Values.Numbers.{Float, Number, float_of_int, is_integer, truncate}
use local_canvas.Values.Numbers
use local_canvas.Workflow.{FieldType, InputField}
use local_canvas.Validation.Checks.{
  Checked, valid, refused, overflow, Printing, fails, number_text, ◌>>=◌, check_text, check_boolean,
  is_choice, check_select, check_media, as_number, number_value, below, above, out_of_range,
  in_range, check_number, check_typed, check,
}

-- Neither below the minimum nor above the maximum.
abbrev pub InRange : InputField → Number → Type 0
InRange f n = (below n f.min ≡ false) × (above n f.max ≡ false)

-- A value of the type that the field declares, within its bounds or among its options; a required
-- text is not blank, and a media reference is one `media_id` that is not blank.
abbrev pub Conforms : FieldType → InputField → Value → Type 0
Conforms FieldType.string f v = (s : String) × (v ≡ str s) × ((f.required && is_blank s) ≡ false)
Conforms FieldType.multiline f v = (s : String) × (v ≡ str s) × ((f.required && is_blank s) ≡ false)
Conforms FieldType.integer f v = (n : ℤ) × (v ≡ int n) × InRange f (Numbers.int n)
Conforms FieldType.float f v = (x : Float) × (v ≡ float x) × InRange f (Numbers.float x)
Conforms FieldType.boolean f v = (b : Bool) × (v ≡ bool b)
Conforms FieldType.select f v = is_choice f.options v ≡ true
Conforms FieldType.image f v =
    (s : String) × (v ≡ obj (field "media_id" (str s) end)) × (is_blank s ≡ false)
Conforms FieldType.video f v =
    (s : String) × (v ≡ obj (field "media_id" (str s) end)) × (is_blank s ≡ false)

check_text-Conforms :
    (f : InputField) (v c : Value)
    → check_text f v ≡ valid c
    → (s : String) × (c ≡ str s) × ((f.required && is_blank s) ≡ false)
unfolding check_text
check_text-Conforms f (str s) c h = (s, ground arith, ground arith)
check_text-Conforms f null c h = cc
check_text-Conforms f (bool b) c h = cc
check_text-Conforms f (int n) c h = cc
check_text-Conforms f (float x) c h = cc
check_text-Conforms f (arr xs) c h = cc
check_text-Conforms f (obj fs) c h = cc

check_boolean-Conforms :
    (f : InputField) (v c : Value) → check_boolean f v ≡ valid c → (b : Bool) × (c ≡ bool b)
unfolding check_boolean
check_boolean-Conforms f (bool b) c h = (b, ground arith)
check_boolean-Conforms f null c h = cc
check_boolean-Conforms f (str s) c h = cc
check_boolean-Conforms f (int n) c h = cc
check_boolean-Conforms f (float x) c h = cc
check_boolean-Conforms f (arr xs) c h = cc
check_boolean-Conforms f (obj fs) c h = cc

check_media-Conforms :
    (f : InputField) (v c : Value)
    → check_media f v ≡ valid c
    → (s : String) × (c ≡ obj (field "media_id" (str s) end)) × (is_blank s ≡ false)
unfolding check_media
check_media-Conforms f (obj (field key (str s) end)) c h =
    (s, ground (arith, eq_iff key "media_id"), ground arith)
check_media-Conforms f (obj end) c h = cc
check_media-Conforms f (obj (field key (str s) (field k v fs))) c h = cc
check_media-Conforms f (obj (field key null fs)) c h = cc
check_media-Conforms f (obj (field key (bool b) fs)) c h = cc
check_media-Conforms f (obj (field key (int n) fs)) c h = cc
check_media-Conforms f (obj (field key (float x) fs)) c h = cc
check_media-Conforms f (obj (field key (arr xs) fs)) c h = cc
check_media-Conforms f (obj (field key (obj gs) fs)) c h = cc
check_media-Conforms f null c h = cc
check_media-Conforms f (bool b) c h = cc
check_media-Conforms f (int n) c h = cc
check_media-Conforms f (float x) c h = cc
check_media-Conforms f (arr xs) c h = cc
check_media-Conforms f (str s) c h = cc

check_select-Conforms :
    (f : InputField) (v c : Value) → check_select f v ≡ valid c → is_choice f.options c ≡ true
unfolding check_select
check_select-Conforms f v c h = ground arith

pub >>=-eq-valid {ℓ κ} :
    {A : Type ℓ} {B : Type κ} (m : Checked A) (f : A → Checked B) {b : B}
    → (m >>= f) ≡ valid b
    → (a : A) × (m ≡ valid a) × (f a ≡ valid b)
>>=-eq-valid (valid a) f h = (a, refl, h)
>>=-eq-valid (refused failure) f h = cc
>>=-eq-valid overflow f h = cc

-- A message that is still to be printed ends in a refusal, or in the overflow of its number.
fails-ne-valid :
    (m : Checked String) (f : InputField) (code : String) (message : String → String) (c : Value)
    → (m >>= λ shown. fails {A = Value} f code (message shown)) ≢ valid c
unfolding fails
fails-ne-valid (valid shown) f code message c h = cc
fails-ne-valid (refused failure) f code message c h = cc
fails-ne-valid overflow f code message c h = cc

as_number_whole :
    (f : InputField) (v : Value) (n : Number)
    → as_number f true v ≡ valid n
    → (k : ℤ) × (n ≡ Numbers.int k)
unfolding as_number
as_number_whole f (int k) n h = (k, cc)
as_number_whole f (float x) n h = (truncate x, ground arith)
as_number_whole f null n h = cc
as_number_whole f (bool b) n h = cc
as_number_whole f (str s) n h = cc
as_number_whole f (arr xs) n h = cc
as_number_whole f (obj fs) n h = cc

as_number_float :
    (f : InputField) (v : Value) (n : Number)
    → as_number f false v ≡ valid n
    → (x : Float) × (n ≡ Numbers.float x)
unfolding as_number
as_number_float f (int k) n h = elim (Option-cases (float_of_int k)) [
  | inl e ↦ absurd (ground arith)
  | inr (x, e) ↦ (x, ground arith)
]
as_number_float f (float x) n h = (x, cc)
as_number_float f null n h = cc
as_number_float f (bool b) n h = cc
as_number_float f (str s) n h = cc
as_number_float f (arr xs) n h = cc
as_number_float f (obj fs) n h = cc

module _ (p : Printing) where
  out_of_range-ne-valid :
      (f : InputField) (whole : Bool) (phrase : String) (bound : Option Number) (c : Value)
      → out_of_range p f whole phrase bound ≢ valid c
  unfolding out_of_range
  out_of_range-ne-valid f whole phrase none c h = cc
  out_of_range-ne-valid f whole phrase (some b) c h =
      fails-ne-valid (number_text p b whole) f "out_of_range"
        (λ shown. f.label <> phrase <> shown <> ".") c h

  in_range-InRange :
      (f : InputField) (whole : Bool) (n : Number) (c : Value)
      → in_range p f whole n ≡ valid c
      → (c ≡ number_value n) × InRange f n
  unfolding in_range
  in_range-InRange f whole n c h = ground (
    arith,
    out_of_range-ne-valid f whole " must be at least " f.min c,
    out_of_range-ne-valid f whole " must be at most " f.max c,
  )

  pub check_number-InRange :
      (f : InputField) (whole : Bool) (v c : Value)
      → check_number p f whole v ≡ valid c
      → (n : Number) × (as_number f whole v ≡ valid n) × (c ≡ number_value n) × InRange f n
  unfolding check_number
  check_number-InRange f whole v c h =
      let (n, e, r) = >>=-eq-valid (as_number f whole v) (in_range p f whole) h in
      let (same, within) = in_range-InRange f whole n c r in (n, e, same, within)

  check_number-whole :
      (f : InputField) (v c : Value)
      → check_number p f true v ≡ valid c
      → (k : ℤ) × (c ≡ int k) × InRange f (Numbers.int k)
  unfolding number_value
  check_number-whole f v c h =
      let (n, e, same, within) = check_number-InRange f true v c h in
      let (k, is) = as_number_whole f v n e in (k, same ∙ ap number_value is, rw (← is) within)

  check_number-float :
      (f : InputField) (v c : Value)
      → check_number p f false v ≡ valid c
      → (x : Float) × (c ≡ float x) × InRange f (Numbers.float x)
  unfolding number_value
  check_number-float f v c h =
      let (n, e, same, within) = check_number-InRange f false v c h in
      let (x, is) = as_number_float f v n e in (x, same ∙ ap number_value is, rw (← is) within)

  check_typed-Conforms :
      (ty : FieldType) (f : InputField) (v c : Value)
      → check_typed p ty f v ≡ valid c
      → Conforms ty f c
  unfolding check_typed
  check_typed-Conforms FieldType.string f v c h = check_text-Conforms f v c h
  check_typed-Conforms FieldType.multiline f v c h = check_text-Conforms f v c h
  check_typed-Conforms FieldType.integer f v c h = check_number-whole f v c h
  check_typed-Conforms FieldType.float f v c h = check_number-float f v c h
  check_typed-Conforms FieldType.boolean f v c h = check_boolean-Conforms f v c h
  check_typed-Conforms FieldType.select f v c h = check_select-Conforms f v c h
  check_typed-Conforms FieldType.image f v c h = check_media-Conforms f v c h
  check_typed-Conforms FieldType.video f v c h = check_media-Conforms f v c h

  -- A value that the check of a field lets through conforms to the field's schema.
  pub check-Conforms :
      (f : InputField) (v c : Value) → check p f v ≡ valid c → Conforms f.field_type f c
  unfolding check
  check-Conforms f null c h = cc
  check-Conforms f (bool b) c h = check_typed-Conforms f.field_type f (bool b) c h
  check-Conforms f (int n) c h = check_typed-Conforms f.field_type f (int n) c h
  check-Conforms f (float x) c h = check_typed-Conforms f.field_type f (float x) c h
  check-Conforms f (str s) c h = check_typed-Conforms f.field_type f (str s) c h
  check-Conforms f (arr xs) c h = check_typed-Conforms f.field_type f (arr xs) c h
  check-Conforms f (obj fs) c h = check_typed-Conforms f.field_type f (obj fs) c h
