-- ===== src/Validation/Defs.antt =====
-- .ai/validation/src/lib.rs: the sealed representations, `Encode` and `Decode`, `round_trip`, and the
-- bindings of a query. `Uuid` is the type of the library uuid.
use sqly.Shared.{Option, none, some, List, [], ◌∷◌}
use sqly.Shared.Int.{ℤ}
use sqly.Shared.Bytes.{Text, bytes}

pub data Error : Type 0 where
  error : Error

unfoldable pub display : Error → Text
display Error.error = bytes "probe conversion error"

pub data Result (A : Type 0) : Type 0 where
  ok : A → Result A
  err : Error → Result A

-- `?` and `map`.
infixl 5 ◌>>=◌
abbrev pub ◌>>=◌ : {A B : Type 0} → Result A → (A → Result B) → Result B
Result.ok a >>= next = next a
Result.err e >>= next = Result.err e

pub data Value (Uuid : Type 0) : Type 0 where
  uuid : Uuid → Value Uuid
  integer : ℤ → Value Uuid
  text : Text → Value Uuid
  null : Value Uuid

-- The types that implement `SqlValue`.
pub data SqlValue : Type 0 where
  uuid integer string : SqlValue
  option : SqlValue → SqlValue

-- The trait `Encode` of a type whose `Repr` is `R`, and `Decode`.
pub record Encode (A R : Type 0) : Type 0 where
  pub encode : A → Result R

pub record Decode (A R : Type 0) : Type 0 where
  pub decode : R → Result A

-- `codec!`
abbrev pub codec_encode : {A : Type 0} → Encode A A
codec_encode = record { encode = Result.ok }

abbrev pub codec_decode : {A : Type 0} → Decode A A
codec_decode = record { decode = Result.ok }

-- `impl Encode for str`, and for a reference to a type that has it.
abbrev pub str_encode : Encode Text Text
str_encode = record { encode = Result.ok }

abbrev pub reference_encode : {A R : Type 0} → Encode A R → Encode A R
reference_encode e = record { encode = λ value. e.encode value }

-- `Option<Result<R>>::transpose` behind `map`.
abbrev transposed : {A B : Type 0} → (A → Result B) → Option A → Result (Option B)
transposed f none = Result.ok none
transposed f (some a) = f a >>= λ b. Result.ok (some b)

abbrev pub option_encode : {A R : Type 0} → Encode A R → Encode (Option A) (Option R)
option_encode e = record { encode = transposed e.encode }

abbrev pub option_decode : {A R : Type 0} → Decode A R → Decode (Option A) (Option R)
option_decode d = record { decode = transposed d.decode }

module _ (Uuid : Type 0) where
  -- The trait `Repr`.
  pub record Repr (A : Type 0) : Type 0 where
    pub into_value : A → Value Uuid
    pub from_value : Value Uuid → Result A

  abbrev pub uuid_from_value : Value Uuid → Result Uuid
  uuid_from_value (Value.uuid v) = Result.ok v
  uuid_from_value v = Result.err Error.error

  abbrev pub integer_from_value : Value Uuid → Result ℤ
  integer_from_value (Value.integer v) = Result.ok v
  integer_from_value v = Result.err Error.error

  abbrev pub text_from_value : Value Uuid → Result Text
  text_from_value (Value.text v) = Result.ok v
  text_from_value v = Result.err Error.error

  -- `impl Repr for Option<T>`.
  unfoldable pub option_into_value : {A : Type 0} → Repr A → Option A → Value Uuid
  option_into_value r none = Value.null
  option_into_value r (some a) = r.into_value a

  unfoldable pub option_from_value : {A : Type 0} → Repr A → Value Uuid → Result (Option A)
  option_from_value r Value.null = Result.ok none
  option_from_value r v = r.from_value v >>= λ a. Result.ok (some a)

  abbrev pub optional : {A : Type 0} → Repr A → Repr (Option A)
  optional r = record { into_value = option_into_value r; from_value = option_from_value r }

  abbrev pub Native : SqlValue → Type 0
  Native SqlValue.uuid = Uuid
  Native SqlValue.integer = ℤ
  Native SqlValue.string = Text
  Native (SqlValue.option t) = Option (Native t)

  abbrev pub repr : (t : SqlValue) → Repr (Native t)
  repr SqlValue.uuid = record { into_value = Value.uuid; from_value = uuid_from_value }
  repr SqlValue.integer = record { into_value = Value.integer; from_value = integer_from_value }
  repr SqlValue.string = record { into_value = Value.text; from_value = text_from_value }
  repr (SqlValue.option t) = optional (repr t)

  unfoldable pub round_trip : {A R : Type 0} → Repr R → Encode A R → Decode A R → A → Result A
  round_trip r e d value = e.encode value >>= λ wire. r.from_value (r.into_value wire) >>= d.decode

-- The impls of a type that represents itself.
abbrev pub encoder : (Uuid : Type 0) (t : SqlValue) → Encode (Native Uuid t) (Native Uuid t)
encoder Uuid (SqlValue.option t) = option_encode (encoder Uuid t)
encoder Uuid t = codec_encode

abbrev pub decoder : (Uuid : Type 0) (t : SqlValue) → Decode (Native Uuid t) (Native Uuid t)
decoder Uuid (SqlValue.option t) = option_decode (decoder Uuid t)
decoder Uuid t = codec_decode

-- `Query` without its phantoms, and `bind` of a value whose encoding is `encoded`.
pub record Query : Type 0 where
  pub error : Option Error

unfoldable pub bind : {R : Type 0} → Result R → Query → Query
bind (Result.ok r) q = q
bind (Result.err e) q = record { error = some e }

abbrev pub bind_all : {R : Type 0} → List (Result R) → Query → Query
bind_all [] q = q
bind_all (encoded ∷ rest) q = bind_all rest (bind encoded q)
