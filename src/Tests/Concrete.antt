-- ===== src/Tests/Concrete.antt =====
-- Concrete numbers, texts and streams on which the tests run the program: whole numbers with a NaN for
-- `double`, regular expressions that know the lines of the tests, and the bytes that are left.
use can_tracer.Prelude.{
  ℕ, zero, suc, ◌+◌, ◌-◌, ◌*◌, ◌/◌, ◌%◌, ◌^◌, ◌≤◌, ◌<◌, ◌≡◌, refl, Bool, true, false, ◌&&◌, Option,
  none, some, List, [], ◌∷◌, ◌++◌, arith, length, length-drop, drop, All, ◌==◌, leb, if◌then◌else◌,
}
use can_tracer.Prelude.Int.{ℤ, pos, negsuc, pos_part, neg_part, ◌+ℤ◌, ◌-ℤ◌, ltb_ℤ}
use can_tracer.Qt.{QString, str_eq, Double, Text, or_zero, DataStream, QByteArray}
use can_tracer.Log.Extension.{NoDot, FindsLastDot}
use can_tracer.Blf.Messages.{IsStream}
use can_tracer.Blf.Reads.{Consumes}

-- `none` is the NaN.
abbrev pub Number : Type 0
Number = Option ℤ

abbrev pub on_both : {A : Type 0} → A → (ℤ → ℤ → A) → Number → Number → A
on_both a f none y = a
on_both a f (some x) none = a
on_both a f (some x) (some y) = f x y

abbrev pub mul_ℤ : ℤ → ℤ → ℤ
mul_ℤ (pos a) (pos b) = pos (a * b)
mul_ℤ (pos zero) (negsuc b) = pos 0
mul_ℤ (pos (suc a)) (negsuc b) = negsuc (suc a * suc b - 1)
mul_ℤ (negsuc a) (pos zero) = pos 0
mul_ℤ (negsuc a) (pos (suc b)) = negsuc (suc a * suc b - 1)
mul_ℤ (negsuc a) (negsuc b) = pos (suc a * suc b)

unfoldable pub add_ℤ : ℤ → ℤ → ℤ
unfolding ◌+ℤ◌
add_ℤ a b = a +ℤ b

unfoldable pub sub_ℤ : ℤ → ℤ → ℤ
unfolding ◌-ℤ◌
sub_ℤ a b = a -ℤ b

abbrev pub eq_ℤ : ℤ → ℤ → Bool
eq_ℤ (pos a) (pos b) = a == b
eq_ℤ (pos a) (negsuc b) = false
eq_ℤ (negsuc a) (pos b) = false
eq_ℤ (negsuc a) (negsuc b) = a == b

abbrev pub abs_of : Number → Number
abs_of none = none
abs_of (some a) = some (pos (pos_part a + neg_part a))

abbrev pub to_int_of : Number → ℤ
to_int_of none = pos 0
to_int_of (some a) = a

-- A quotient or a decimal is cut to a whole number.
abbrev pub whole_numbers : Double Number
whole_numbers = record {
  nan = none;
  of_int = some;
  decimal = λ m k. some (pos (m / 10 ^ k));
  add = on_both none (λ a b. some (add_ℤ a b));
  sub = on_both none (λ a b. some (sub_ℤ a b));
  mul = on_both none (λ a b. some (mul_ℤ a b));
  div = on_both none (λ a b. some (pos (pos_part a / pos_part b)));
  abs = abs_of;
  eq = on_both false eq_ℤ;
  lt = on_both false ltb_ℤ;
  to_int = to_int_of;
}

-- The lines that a test knows: the pattern, the line and its captures.
abbrev pub Known : Type 0
Known = List (QString × QString × List QString)

abbrev pub nth : List QString → ℕ → QString
nth [] n = []
nth (s ∷ ss) zero = s
nth (s ∷ ss) (suc n) = nth ss n

abbrev pub look_up : Known → QString → QString → Option (ℕ → QString)
look_up [] pattern line = none
look_up ((p, l, captured) ∷ rest) pattern line =
    let other = look_up rest pattern line in
    if str_eq p pattern && str_eq l line then some (nth captured) else other

abbrev pub look_up_all : Known → QString → QString → List (ℕ → QString)
look_up_all [] pattern line = []
look_up_all ((p, l, captured) ∷ rest) pattern line =
    let others = look_up_all rest pattern line in
    if str_eq p pattern && str_eq l line then nth captured ∷ others else others

-- Decimal and hexadecimal numbers.
abbrev pub digit : ℕ → ℕ → Option ℕ
digit base c =
    if leb b'0' c && leb c b'9'
    then some (c - b'0')
    else if leb b'A' c && leb c b'F' && (base == 16)
    then some (c - b'A' + 10)
    else none

abbrev pub number_from : ℕ → ℕ → QString → Option ℕ
number_from base n [] = some n
number_from base n (c ∷ cs) = elim (digit base c) [
  | none ↦ none
  | some v ↦ number_from base (n * base + v) cs
]

abbrev pub number_of : ℕ → QString → Option ℕ
number_of base [] = none
number_of base (c ∷ cs) = number_from base 0 (c ∷ cs)

abbrev pub as_int : Option ℕ → Option ℤ
as_int none = none
as_int (some n) = some (pos n)

abbrev pub as_number : Option ℕ → Option Number
as_number none = none
as_number (some n) = some (some (pos n))

abbrev pub pairs_of : QString → List ℕ
pairs_of [] = []
pairs_of (a ∷ []) = []
pairs_of (a ∷ b ∷ cs) = or_zero (number_of 16 (a ∷ b ∷ [])) % 256 ∷ pairs_of cs

-- Removes the first character of the second text everywhere.
abbrev pub without : QString → QString → QString
without [] t = []
without (c ∷ cs) t = let rest = without cs t in if str_eq (c ∷ []) t then rest else c ∷ rest

abbrev pub last_index : QString → ℕ → Option ℕ
last_index [] c = none
last_index (x ∷ xs) c = elim (last_index xs c) [
  | some i ↦ some (suc i)
  | none ↦ if x == c then some 0 else none
]

abbrev pub text_of : Known → Text Number
text_of known = record {
  matches = look_up known;
  matches_all = look_up_all known;
  same_ci = str_eq;
  remove = without;
  from_hex = pairs_of;
  last_index_of = last_index;
  to_int = λ s. as_int (number_of 10 s);
  to_short = λ s. as_int (number_of 10 s);
  to_uint = number_of 10;
  to_uint_hex = number_of 16;
  to_ulong = number_of 10;
  to_ulong_hex = number_of 16;
  to_double = λ s. as_number (number_of 10 s);
}

pub pairs_of-bytes : (s : QString) → All (λ b. b < 256) (pairs_of s)
pairs_of-bytes [] = tt
pairs_of-bytes (a ∷ []) = tt
pairs_of-bytes (a ∷ b ∷ cs) = (omega arith, pairs_of-bytes cs)

last_index-NoDot : (name : QString) → NoDot name → last_index name b'.' ≡ none
last_index-NoDot [] h = refl
last_index-NoDot (c ∷ cs) h = rw (last_index-NoDot cs h.1) (ground (arith, h.0))

last_index-dot :
    (stem ext : QString) → NoDot ext → last_index (stem ++ b'.' ∷ ext) b'.' ≡ some (length stem)
last_index-dot [] ext h = rw (last_index-NoDot ext h) refl
last_index-dot (c ∷ cs) ext h = rw (last_index-dot cs ext h) refl

pub text_of-FindsLastDot : (known : Known) → FindsLastDot (text_of known)
text_of-FindsLastDot known = record { last_dot = last_index-dot; no_dot = last_index-NoDot }

-- A stream is the list of the bytes that are left; past the end zeros are read.
abbrev pub next_bytes : ℕ → QByteArray → QByteArray
next_bytes zero s = []
next_bytes (suc n) [] = []
next_bytes (suc n) (b ∷ bs) = b % 256 ∷ next_bytes n bs

abbrev pub little : ℕ → QByteArray → ℕ
little zero s = 0
little (suc n) [] = 0
little (suc n) (b ∷ bs) = b % 256 + 256 * little n bs

abbrev pub read_number : ℕ → QByteArray → ℕ × QByteArray
read_number n s = (little n s, drop n s)

abbrev pub skip_bytes : ℤ → QByteArray → QByteArray
skip_bytes (pos n) s = drop n s
skip_bytes (negsuc n) s = s

abbrev pub is_empty : QByteArray → Bool
is_empty [] = true
is_empty (b ∷ bs) = false

abbrev pub byte_stream : DataStream QByteArray
byte_stream = record {
  of_bytes = λ bytes. bytes;
  at_end = is_empty;
  read_u8 = read_number 1;
  read_u16 = read_number 2;
  read_u32 = read_number 4;
  read_u64 = read_number 8;
  read_raw = λ n s. (next_bytes n s, drop n s);
  skip_raw = skip_bytes;
}

next_bytes-length : (n : ℕ) (s : QByteArray) → length (next_bytes n s) ≤ n
next_bytes-length zero s = omega arith
next_bytes-length (suc n) [] = omega arith
next_bytes-length (suc n) (b ∷ bs) = omega (arith, next_bytes-length n bs)

next_bytes-bytes : (n : ℕ) (s : QByteArray) → All (λ b. b < 256) (next_bytes n s)
next_bytes-bytes zero s = tt
next_bytes-bytes (suc n) [] = tt
next_bytes-bytes (suc n) (b ∷ bs) = (omega arith, next_bytes-bytes n bs)

little-one : (s : QByteArray) → little 1 s < 256
little-one [] = omega arith
little-one (b ∷ bs) = omega arith

pub byte_stream-IsStream : IsStream byte_stream
byte_stream-IsStream = record {
  u8_lt = little-one;
  raw_length = next_bytes-length;
  raw_bytes = next_bytes-bytes;
}

drop_le : (n : ℕ) (s : QByteArray) → length (drop n s) ≤ length s
drop_le n s = omega (arith, length-drop n s)

next_and_rest : (n : ℕ) (s : QByteArray) → length (drop n s) + length (next_bytes n s) ≤ length s
next_and_rest zero s = omega arith
next_and_rest (suc n) [] = omega arith
next_and_rest (suc n) (b ∷ bs) = omega (arith, next_and_rest n bs)

skip_le : (n : ℤ) (s : QByteArray) → length (skip_bytes n s) ≤ length s
skip_le (pos n) s = drop_le n s
skip_le (negsuc n) s = omega arith

pub byte_stream-Consumes : Consumes byte_stream length
byte_stream-Consumes = record {
  u8_le = drop_le 1;
  u16_le = drop_le 2;
  u32_le = drop_le 4;
  u64_le = drop_le 8;
  raw_le = next_and_rest;
  skip_le = skip_le;
}

-- Where the four letters LOBJ stand, from a position on.
abbrev pub starts_lobj : QByteArray → Bool
starts_lobj (a ∷ b ∷ c ∷ e ∷ rest) = (a == b'L') && (b == b'O') && (c == b'B') && (e == b'J')
starts_lobj _ = false

abbrev pub find_lobj : ℕ → QByteArray → Option ℕ
find_lobj i [] = none
find_lobj i (b ∷ bs) =
    let rest = find_lobj (suc i) bs in if starts_lobj (b ∷ bs) then some i else rest

abbrev pub index_of_lobj : QByteArray → ℕ → Option ℕ
index_of_lobj bytes from = find_lobj from (drop from bytes)
