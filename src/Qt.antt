-- ===== src/Qt.antt =====
-- The types that the program takes from C++ and Qt: texts, and the floating-point `double`, which is
-- a parameter (its type with the operations that the program uses).
pub mod ComboBox
pub mod Variant
use Prim.Native.Char.{code}
use Prim.Native.String.{String}
use can_tracer.Prelude.{
  ℕ, ◌≡◌, refl, ◌↔◌, Bool, true, false, not, ◌&&◌, Option, none, some, ◌-◌, ◌%◌, ◌^◌, List, [], ◌∷◌,
  arith, ◌==◌, ==_iff,
}
use can_tracer.Prelude.Int.{ℤ, pos, negsuc}

-- A QString is the list of its code units.
abbrev pub QString : Type 0
QString = List ℕ

abbrev pub codes : String → QString
codes String.[] = []
codes (String.◌∷◌ c s) = code c ∷ codes s

-- `a == b` on texts.
abbrev pub str_eq : QString → QString → Bool
str_eq [] [] = true
str_eq [] (y ∷ ys) = false
str_eq (x ∷ xs) [] = false
str_eq (x ∷ xs) (y ∷ ys) = x == y && str_eq xs ys

-- `a.compare(b)` where a condition is read off it: the number is not 0 when the texts differ.
abbrev pub compare : QString → QString → Bool
compare a b = not (str_eq a b)

pub str_eq_iff : (a b : QString) → (str_eq a b ≡ true) ↔ (a ≡ b)
str_eq_iff [] [] = ground arith
str_eq_iff [] (y ∷ ys) = ground arith
str_eq_iff (x ∷ xs) [] = ground arith
str_eq_iff (x ∷ xs) (y ∷ ys) = ground (arith, str_eq_iff xs ys, ==_iff x y)

pub str_eq_self : (a : QString) → str_eq a a ≡ true
str_eq_self a = (str_eq_iff a a).1 refl

-- `double`. `decimal m k` is the constant m * 10^-k, and `to_int` is `static_cast<int>`.
pub record Double (F : Type 0) : Type 0 where
  pub nan : F
  pub of_int : ℤ → F
  pub decimal : ℕ → ℕ → F
  pub add : F → F → F
  pub sub : F → F → F
  pub mul : F → F → F
  pub div : F → F → F
  pub abs : F → F
  pub eq : F → F → Bool
  pub lt : F → F → Bool
  pub to_int : F → ℤ

-- Qt's regular expressions and conversions of texts, over the texts' own operations only.
-- `matches pattern line` is the list of captures of the first match, as a function of their number;
-- `matches_all` is globalMatch, `same_ci a b` is `a.compare(b, Qt::CaseInsensitive) == 0`, and
-- `from_hex` is QByteArray::fromHex. A conversion is `none` where it sets *ok to false.
pub record Text (F : Type 0) : Type 0 where
  pub matches : QString → QString → Option (ℕ → QString)
  pub matches_all : QString → QString → List (ℕ → QString)
  pub same_ci : QString → QString → Bool
  pub remove : QString → QString → QString
  pub from_hex : QString → List ℕ
  pub last_index_of : QString → ℕ → Option ℕ
  pub to_int : QString → Option ℤ
  pub to_short : QString → Option ℤ
  pub to_uint : QString → Option ℕ
  pub to_uint_hex : QString → Option ℕ
  pub to_ulong : QString → Option ℕ
  pub to_ulong_hex : QString → Option ℕ
  pub to_double : QString → Option F

-- The value of a conversion that failed is 0.
abbrev pub or_zero : Option ℕ → ℕ
or_zero none = 0
or_zero (some n) = n

-- An integer that is stored in w bits.
abbrev pub to_unsigned : ℕ → ℤ → ℕ
to_unsigned w (pos n) = n % 2 ^ w
to_unsigned w (negsuc n) = 2 ^ w - 1 - n % 2 ^ w

-- A QColor by its channels; the one that QColor() makes is not valid.
pub record QColor : Type 0 where
  pub is_valid : Bool
  pub red : ℕ
  pub green : ℕ
  pub blue : ℕ
  pub alpha : ℕ

-- A QByteArray is the list of its bytes.
abbrev pub QByteArray : Type 0
QByteArray = List ℕ

-- QDataStream in little-endian order, over a device or a byte array. A read gives the value and the
-- stream behind it; `read_raw n` gives the bytes that it got, at most n.
pub record DataStream (S : Type 0) : Type 0 where
  pub of_bytes : QByteArray → S
  pub at_end : S → Bool
  pub read_u8 : S → ℕ × S
  pub read_u16 : S → ℕ × S
  pub read_u32 : S → ℕ × S
  pub read_u64 : S → ℕ × S
  pub read_raw : ℕ → S → QByteArray × S
  pub skip_raw : ℤ → S → S
