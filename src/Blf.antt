-- ===== src/Blf.antt =====
-- src/blfparser.cpp: a BLF file is a list of objects; those that are containers hold, perhaps
-- compressed, the objects of the log, which may be cut in two by the end of a container.
pub mod Container
pub mod Messages
pub mod Reads
pub mod Total
use can_tracer.Prelude.{
  ℕ, zero, suc, ◌+◌, ◌-◌, ◌*◌, ◌/◌, ◌%◌, ◌^◌, Bool, true, false, not, ◌||◌, Option, none, some,
  List, [], ◌∷◌, ◌++◌, bit_and, length, drop, replicate, ltb, leb, ◌==◌, if◌then◌else◌,
}
use can_tracer.Prelude.Int.{ℤ, pos, negsuc}
use can_tracer.Prelude.Outcome.{Outcome, ok, fault, runtime_error, out_of_fuel, ◌>>=◌}
use can_tracer.Qt.{QString, codes, str_eq, Double, QByteArray, DataStream}
use can_tracer.Can.{CanLogMsg, CanData, rx, can_max_dlc}

abbrev pub signature_size : ℕ
signature_size = 4

abbrev pub time_size : ℕ
time_size = 8

abbrev pub header_data_size : ℕ
header_data_size = 72

abbrev pub obj_header_size : ℕ
obj_header_size = 16

abbrev pub container_header_size : ℕ
container_header_size = 16

abbrev pub log_container : ℕ
log_container = 10

abbrev pub no_compress : ℕ
no_compress = 0

abbrev pub zlib_deflate : ℕ
zlib_deflate = 2

abbrev pub can_msg : ℕ
can_msg = 1

abbrev pub can_msg2 : ℕ
can_msg2 = 86

abbrev pub lobj : QByteArray
lobj = codes "LOBJ"

-- A size or position that is returned as an int.
abbrev pub to_int32 : ℕ → ℤ
to_int32 n = let low = n % 2 ^ 32 in if ltb low (2 ^ 31) then pos low else negsuc (2 ^ 32 - low - 1)

-- A buffer of n zeros into which the first bytes have been read.
abbrev pub fill : ℕ → QByteArray → QByteArray
fill n got = got ++ replicate (n - length got) 0

-- What the calls of one parser change: `counter`, the messages and the bytes that remain.
pub record BlfState (F : Type 0) : Type 0 where
  pub counter : ℕ  -- quint32
  pub messages : List (CanLogMsg F)
  pub remain : QByteArray

module _ {S : Type 0} (stream : DataStream S) where
  open stream use {of_bytes, read_u8, read_u16, read_u32}

  -- `n` bytes that are read one by one and not used.
  unfoldable pub skip_u8 : ℕ → S → S
  skip_u8 zero s = s
  skip_u8 (suc n) s = skip_u8 n (read_u8 s).1

  -- The time stamps of the file header are read and not used.
  unfoldable pub get_date_time : ℕ → S → S
  get_date_time zero s = s
  get_date_time (suc n) s = get_date_time n (read_u16 s).1

  -- The fields of an object header behind the type, up to the time stamp.
  unfoldable pub skip_version : ℕ → S → S
  skip_version version s =
      if version == 1
      then (read_u16 (read_u16 s).1).1
      else if version == 2
      then (read_u16 (read_u8 (read_u8 s).1).1).1
      else s

  -- The object data of a container, uncompressed; `none` where the method is not known.
  unfoldable pub unpack : (QByteArray → QByteArray) → QByteArray → Option QByteArray
  unpack uncompress obj_data =
      let (method, s) = read_u16 (of_bytes obj_data) in
      let s = skip_u8 6 s in
      let (size, s) = read_u32 s in
      let body = drop container_header_size obj_data in
      if method == no_compress
      then some body
      else if method == zlib_deflate
      then some (
          uncompress
            (size / 2 ^ 24 % 256 ∷ size / 2 ^ 16 % 256 ∷ size / 2 ^ 8 % 256 ∷ size % 256 ∷ body))
      else none

module _ {F : Type 0} {S : Type 0} ⦃d : Double F⦄ (stream : DataStream S) where
  open stream use {of_bytes, at_end, read_u8, read_u16, read_u32, read_u64, read_raw, skip_raw}

  unfoldable pub read_can_msg : ℕ → F → S → CanLogMsg F
  read_can_msg number time s =
      let (channel, s) = read_u16 s in
      let (flags, s) = read_u8 s in
      let (dlc, s) = read_u8 s in
      let (id, s) = read_u32 s in
      let (bytes, s) = read_raw 8 s in
      record {
        number = number;
        id = bit_and id 0x1fffffff;
        time = time;
        channel = channel % 256;
        dlc = dlc;
        dir = rx;
        bytes = fill can_max_dlc bytes;
      }

  -- The object at the head of `s`, behind its type: the message that it appends, if it is one.
  unfoldable pub read_body : ℕ → ℕ → BlfState F → S → BlfState F
  read_body version obj_type st s =
      let (flags, s) = read_u32 s in
      let s = skip_version stream version s in
      let (timestamp, s) = read_u64 s in
      let s = if version == 2 then skip_u8 stream 8 s else s in
      let factor = if flags == 1 then d.decimal 1 5 else d.decimal 1 9 in
      if obj_type == can_msg || obj_type == can_msg2
      then record st {
        counter = (st.counter + 1) % 2 ^ 32;
        messages =
            st.messages
            ++ (read_can_msg st.counter (d.mul factor (d.of_int (pos timestamp))) s ∷ []);
      }
      else st

  -- `index_of bytes from` is `bytes.indexOf("LOBJ", from)`.
  module _ (index_of : QByteArray → ℕ → Option ℕ) where
    -- What follows the comparison of the end of the object with the size of the container.
    unfoldable pub parse_sized : QByteArray → BlfState F → ℕ → ℕ → ℕ → S → ℤ × BlfState F
    parse_sized bytes st next_pos version obj_type s =
        if ltb (length bytes) next_pos
        then (to_int32 (length bytes), record st { remain = bytes })
        else (
          elim (index_of bytes next_pos) [
            | some next ↦ to_int32 next
            | none ↦ to_int32 (next_pos + next_pos % 4)
          ],
          read_body version obj_type (record st { remain = [] }) s,
        )

    unfoldable pub parse_at : QByteArray → BlfState F → ℕ → ℤ × BlfState F
    parse_at bytes st index =
        let s = skip_raw (pos (index + 4)) (of_bytes bytes) in
        let (header_size, s) = read_u16 s in
        let (version, s) = read_u16 s in
        let (obj_size, s) = read_u32 s in
        let (obj_type, s) = read_u32 s in parse_sized bytes st (index + obj_size) version obj_type s

    unfoldable pub parse_object : QByteArray → BlfState F → ℤ × BlfState F
    parse_object bytes st =
        if ltb (length bytes) 16
        then (to_int32 (length bytes), record st { remain = bytes })
        else elim (index_of bytes 0) [
          | none ↦ (negsuc 0, st)
          | some index ↦ parse_at bytes st index
        ]

    -- The loop over the objects of a container.
    unfoldable pub parse_container : ℕ → QByteArray → BlfState F → Outcome (BlfState F)
    parse_container fuel [] st = ok st
    parse_container zero (b ∷ bs) st = fault out_of_fuel
    parse_container (suc fuel) (b ∷ bs) st =
        let container = st.remain ++ b ∷ bs in
        let (ret, st') = parse_object container st in
        elim ret [
          | negsuc n ↦ ok st'
          | pos n ↦ elim n [
            | zero ↦ ok st'
            | suc k ↦ parse_container fuel (drop (suc k) container) st'
          ]
        ]

    -- The objects of a container, `if (needParse)`, and the result of getObject.
    unfoldable pub parse_unpacked :
        Option QByteArray → S → BlfState F → Outcome (ℤ × S × BlfState F)
    parse_unpacked none s st = ok (pos 0, s, st)
    parse_unpacked (some container) s st =
        parse_container (length st.remain + length container + 1) container st >>= λ st'.
        ok (pos 0, s, st')

    -- What follows the comparison of the type. The content of other objects is not used.
    unfoldable pub parse_typed :
        ℕ → Option QByteArray → S → BlfState F → Outcome (ℤ × S × BlfState F)
    parse_typed obj_type content s st =
        if not (obj_type == log_container) then ok (pos 0, s, st) else parse_unpacked content s st

    -- The result is the number that getObject returns, with the stream and the state behind it.
    unfoldable pub get_object :
        (QByteArray → QByteArray) → S → BlfState F → Outcome (ℤ × S × BlfState F)
    get_object uncompress s st =
        let (raw, s) = read_raw signature_size s in
        if not (str_eq (fill signature_size raw) lobj)
        then ok (negsuc 0, s, st)
        else (let s = (read_u16 (read_u16 s).1).1 in
            let (obj_size, s) = read_u32 s in
            let (obj_type, s) = read_u32 s in
            let data_size = (obj_size + 2 ^ 32 - obj_header_size) % 2 ^ 32 in
            let (got, s) = read_raw data_size s in
            let s = skip_raw (pos (data_size % 4)) s in
            parse_typed obj_type (unpack stream uncompress (fill data_size got)) s st)

    -- `while (!in.atEnd())`.
    unfoldable pub get_objects :
        (QByteArray → QByteArray) → ℕ → S → BlfState F → Outcome (BlfState F)
    get_objects uncompress zero s st = fault out_of_fuel
    get_objects uncompress (suc fuel) s st = elim (at_end s) [
      | true ↦ ok st
      | false ↦ do
        (ret, s', st') ← get_object uncompress s st
        elim ret [
          | negsuc n ↦ ok st'
          | pos n ↦ elim n [ zero ↦ get_objects uncompress fuel s' st' | suc k ↦ ok st' ]
        ]
    ]

    -- The file header behind its signature, and the objects.
    unfoldable pub parse_signed : (QByteArray → QByteArray) → ℕ → S → Outcome (List (CanLogMsg F))
    parse_signed uncompress fuel s =
        let (header_size, s) = read_u32 s in
        let s = skip_u8 stream 8 s in
        let s = (read_u64 (read_u64 s).1).1 in
        let s = (read_u32 (read_u32 s).1).1 in
        let s = get_date_time stream time_size (get_date_time stream time_size s) in
        let s = skip_raw (to_int32 (header_size + 2 ^ 32 - header_data_size)) s in
        get_objects uncompress fuel s (record { counter = 0; messages = []; remain = [] }) >>= λ st.
        ok st.messages

    -- `file` is the stream of an opened file, `none` where it cannot be opened, and `fuel` a bound on
    -- the objects in it.
    unfoldable pub parse : (QByteArray → QByteArray) → ℕ → Option S → Outcome (List (CanLogMsg F))
    parse uncompress fuel none = fault runtime_error
    parse uncompress fuel (some s) =
        let (raw, s) = read_raw signature_size s in
        if not (str_eq raw (codes "LOGG"))
        then fault runtime_error
        else parse_signed uncompress fuel s
