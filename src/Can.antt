-- ===== src/Can.antt =====
-- src/canmsg.h: a log entry, a signal, a message and the database of messages.
pub mod Db
pub mod Logged
use can_tracer.Prelude.{
  ℕ, zero, suc, ◌*◌, ◌-◌, ◌%◌, ◌^◌, Bool, true, false, Option, none, some, List, [], ◌∷◌, ◌++◌,
  bit_and, ltb, ◌==◌, if◌then◌else◌, length,
}
use can_tracer.Qt.{QString, codes, str_eq, compare, Double, QColor}

abbrev pub max_normal_can_id : ℕ
max_normal_can_id = 0x7ff

abbrev pub normal_can_nibble : ℕ
normal_can_nibble = 3

abbrev pub ext_can_nibble : ℕ
ext_can_nibble = 8

abbrev pub can_max_dlc : ℕ
can_max_dlc = 8

-- std::array<uint8_t, CAN_MAX_DLC>
abbrev pub CanData : Type 0
CanData = List ℕ

-- The id is a uint32_t: the argument, which may be wider, is cut to 32 bits at the call.
unfoldable pub remove_ext_mask : ℕ → ℕ
remove_ext_mask id = bit_and (id % 2 ^ 32) 0x1fffffff

-- `input & ((1 << n) - 1)`, cut to a uint8_t, for the n below 32 that its callers pass.
unfoldable pub get_nbit : ℕ → ℕ → ℕ
get_nbit input n = bit_and input (1 * 2 ^ n - 1) % 256

pub data CanDir : Type 0 where
  rx tx : CanDir

pub record CanLogMsg (F : Type 0) : Type 0 where
  pub number : ℕ  -- uint32_t
  pub id : ℕ  -- uint32_t
  pub time : F
  pub channel : ℕ  -- uint8_t
  pub dlc : ℕ  -- uint8_t
  pub dir : CanDir
  pub bytes : CanData

pub record CanSignal (F : Type 0) : Type 0 where
  pub start_bit : ℕ  -- uint8_t
  pub len : ℕ  -- uint8_t
  pub is_big_endian : Bool
  pub is_signed : Bool
  pub scale : F
  pub offset : F
  pub min : F
  pub max : F
  pub name : QString
  pub unit : QString
  pub receiver : QString
  pub values : List (F × QString)

pub record CanMessage (F : Type 0) : Type 0 where
  pub id : ℕ  -- uint32_t
  pub dlc : ℕ  -- uint8_t
  pub name : QString
  pub sender : QString
  pub can_signals : List (CanSignal F)
  pub color : QColor

-- The only field, `db`, stands for the object.
abbrev pub CanDb : Type 0 → Type 0
CanDb F = List (CanMessage F)

-- Applies a change through a pointer to the element at an index.
abbrev pub modify {ℓ} : {A : Type ℓ} → ℕ → (A → A) → List A → List A
modify i f [] = []
modify zero f (x ∷ xs) = f x ∷ xs
modify (suc i) f (x ∷ xs) = x ∷ modify i f xs

module _ {F : Type 0} where
  unfoldable pub set_dir : CanLogMsg F → QString → CanLogMsg F × Bool
  set_dir msg str =
      if compare str (codes "Rx")
      then (record msg { dir = rx }, true)
      else if compare str (codes "Tx")
      then (record msg { dir = tx }, true)
      else (msg, false)

  unfoldable pub add_value_pair : F × QString → CanSignal F → CanSignal F
  add_value_pair value signal = record signal { values = signal.values ++ (value ∷ []) }

  unfoldable pub add_can_signal : CanMessage F → CanSignal F → CanMessage F
  add_can_signal msg signal = record msg { can_signals = msg.can_signals ++ (signal ∷ []) }

  unfoldable pub signal_count : CanMessage F → ℕ
  signal_count msg = length msg.can_signals

  -- The pointer that a search returns is the index of the element; `none` is nullptr.
  unfoldable pub find_signal : List (CanSignal F) → QString → Option ℕ
  find_signal [] name = none
  find_signal (s ∷ ss) name =
      let rest = find_signal ss name in
      if str_eq s.name name then some 0 else elim rest [ none ↦ none | some i ↦ some (suc i) ]

  unfoldable pub add_message : CanDb F → CanMessage F → CanDb F
  add_message db msg = db ++ (msg ∷ [])

  unfoldable pub message_count : CanDb F → ℕ
  message_count db = length db

  -- The overload for a const database: the message is only read.
  unfoldable pub find_message : CanDb F → ℕ → Option (CanMessage F)
  find_message [] id = none
  find_message (m ∷ ms) id = let rest = find_message ms id in if m.id == id then some m else rest

  -- The other overload: the message is changed through the pointer.
  unfoldable pub find_message_mut : CanDb F → ℕ → Option ℕ
  find_message_mut [] id = none
  find_message_mut (m ∷ ms) id =
      let rest = find_message_mut ms id in
      if m.id == id then some 0 else elim rest [ none ↦ none | some i ↦ some (suc i) ]

  unfoldable pub set_color : CanDb F → ℕ → QColor → CanDb F
  unfolding find_message_mut
  set_color db id color = elim (find_message_mut db id) [
    | none ↦ db
    | some i ↦ modify i (λ m. record m { color = color }) db
  ]

-- `QString("%1").arg(value)` for a double, and `%1` for an id in hexadecimal with a least width and
-- in upper case, are Qt's.
module _ {F : Type 0} ⦃d : Double F⦄ (show : F → QString) where
  display_values : List (F × QString) → F → QString
  display_values [] value = show value
  display_values ((number, text) ∷ rest) value =
      let other = display_values rest value in if d.eq number value then text else other

  unfoldable pub display : CanSignal F → F → QString
  unfolding display_values
  display signal value = display_values signal.values value

unfoldable pub format_id : (ℕ → ℕ → QString) → ℕ → QString
format_id hex id = hex id (if ltb max_normal_can_id id then ext_can_nibble else normal_can_nibble)
