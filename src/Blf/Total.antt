-- ===== src/Blf/Total.antt =====
-- The loop over the objects of a file ends.
use can_tracer.Prelude.{
  ℕ, zero, suc, ◌+◌, ◌-◌, ◌%◌, ◌^◌, ◌≤◌, ◌<◌, ◌≡◌, inl, inr, refl, Bool, true, false, not, Option,
  none, some, List, [], arith, length, Bool-cases, Option-cases, if◌then◌else◌, ◌==◌, All,
}
use can_tracer.Prelude.Int.{pos, negsuc}
use can_tracer.Prelude.Outcome.{ok}
use can_tracer.Qt.{Double, QByteArray, DataStream, str_eq, codes}
use can_tracer.Can.{CanLogMsg}
use can_tracer.Can.Logged.{IsNumbered}
use can_tracer.Blf.{
  BlfState, unpack, parse_unpacked, parse_typed, parse_signed, get_object, get_objects, parse,
  skip_u8, get_date_time, fill, signature_size, lobj, log_container, time_size, obj_header_size,
  to_int32, header_data_size,
}
use can_tracer.Blf.Reads.{Consumes, signature_length, behind_header, header_le}
use can_tracer.Blf.Container.{parse_container_total}
use can_tracer.Blf.Messages.{IsStream, IsLogged, parse-IsNumbered}

-- The containers of a file, as the loop meets them.
module _ {S : Type 0} (stream : DataStream S) (uncompress : QByteArray → QByteArray) where
  open stream use {at_end, read_u16, read_u32, read_raw, skip_raw}

  abbrev pub is_object : S → Bool
  is_object s = str_eq (fill signature_size (read_raw signature_size s).0) lobj

  -- The stream behind the signature and the two numbers of the header.
  abbrev header_at : S → S
  header_at s = (read_u16 (read_u16 (read_raw signature_size s).1).1).1

  abbrev type_at : S → ℕ
  type_at s = (read_u32 (read_u32 (header_at s)).1).0

  abbrev size_at : S → ℕ
  size_at s = ((read_u32 (header_at s)).0 + 2 ^ 32 - obj_header_size) % 2 ^ 32

  abbrev body_at : S → QByteArray × S
  body_at s = read_raw (size_at s) (read_u32 (read_u32 (header_at s)).1).1

  abbrev pub behind_object : S → S
  behind_object s = skip_raw (pos (size_at s % 4)) (body_at s).1

  -- What an object unpacks to, if it is a container.
  abbrev pub content_at : S → Option QByteArray
  content_at s =
      if not (type_at s == log_container)
      then none
      else unpack stream uncompress (fill (size_at s) (body_at s).0)

  abbrev pub size_of : Option QByteArray → ℕ
  size_of none = 0
  size_of (some content) = length content

  -- The bytes of all containers that the first `n` rounds meet, unpacked.
  abbrev pub volume : ℕ → S → ℕ
  volume zero s = 0
  volume (suc n) s =
      let rest = volume n (behind_object s) in
      if at_end s then 0 else if is_object s then size_of (content_at s) + rest else 0

  -- Where the objects begin, behind the header of the file.
  abbrev pub objects_at : S → S
  objects_at s =
      let s0 = (stream.read_u32 s).1 in
      stream.skip_raw (to_int32 ((stream.read_u32 s).0 + 2 ^ 32 - header_data_size)) (
        get_date_time stream time_size (
          get_date_time stream time_size
            (stream.read_u32
              (stream.read_u32 (stream.read_u64 (stream.read_u64 (skip_u8 stream 8 s0)).1).1).1).1))

module _ {S : Type 0} (stream : DataStream S) (left : S → ℕ) (laws : Consumes stream left)
    (uncompress : QByteArray → QByteArray) where
  behind_lt :
      (s : S)
      → is_object stream uncompress s ≡ true
      → left (behind_object stream uncompress s) < left s
  behind_lt s e = omega (
    arith,
    behind_header stream left laws,
    laws.raw_le 4 s,
    signature_length (stream.read_raw 4 s).0 e,
  )

module _ {F : Type 0} {S : Type 0} ⦃d : Double F⦄ (stream : DataStream S) (left : S → ℕ)
    (laws : Consumes stream left) (index_of : QByteArray → ℕ → Option ℕ)
    (uncompress : QByteArray → QByteArray) where
  get_object-unsigned :
      (s : S) (st : BlfState F)
      → is_object stream uncompress s ≡ false
      → (s' : S) × (get_object stream index_of uncompress s st ≡ ok (negsuc 0, s', st))
  unfolding get_object
  get_object-unsigned s st e = rw e (_, refl)

  -- The content adds to what remains no more than its own bytes.
  parse_typed_total :
      (s : S) (st : BlfState F) (obj_type : ℕ) (packed : QByteArray)
      → let content =
          if not (obj_type == log_container) then none else unpack stream uncompress packed in
        length st.remain + size_of stream uncompress content < 2 ^ 31
        → (st' : BlfState F) × (parse_typed stream index_of obj_type
              (unpack stream uncompress packed)
              s
              st
            ≡ ok (pos 0, s, st'))
          × (length st'.remain ≤ length st.remain + size_of stream uncompress content)
  unfolding parse_typed parse_unpacked
  parse_typed_total s st obj_type packed = elim (Bool-cases (not (obj_type == log_container))) [
    | inl e ↦ rw e (λ small. (st, refl, omega arith))
    | inr e ↦ rw e (elim (Option-cases (unpack stream uncompress packed)) [
      | inl e' ↦ rw e' (λ small. (st, refl, omega arith))
      | inr (content, e') ↦ rw e' λ small.
          let (st', run, bound) =
            parse_container_total stream index_of (length st.remain + length content + 1) content st
              small (omega arith) in
          (st', rw run refl, bound)
    ])
  ]

  get_object-signed :
      (s : S) (st : BlfState F)
      → is_object stream uncompress s ≡ true
      → length st.remain + size_of stream uncompress (content_at stream uncompress s) < 2 ^ 31
      → (st' : BlfState F) × (get_object stream index_of uncompress s st
          ≡ ok (pos 0, behind_object stream uncompress s, st'))
        × (length st'.remain
            ≤ length st.remain + size_of stream uncompress (content_at stream uncompress s))
  unfolding get_object
  get_object-signed s st e small = rw e (parse_typed_total _ st _ _ small)

  -- With more fuel than bytes are left, and containers that stay below 2^31 bytes together, the loop
  -- over the objects ends.
  get_objects_total :
      (fuel : ℕ) (s : S) (st : BlfState F)
      → left s < fuel
      → length st.remain + volume stream uncompress fuel s < 2 ^ 31
      → (st' : BlfState F) × (get_objects stream index_of uncompress fuel s st ≡ ok st')
  unfolding get_objects
  get_objects_total zero s st enough = absurd (omega arith)
  get_objects_total (suc fuel) s st enough = elim (Bool-cases (stream.at_end s)) [
    | inl done ↦ rw (done, get_objects) (λ small. (st, refl))
    | inr more ↦
        rw (more, get_objects)
          (elim (Bool-cases (is_object stream uncompress s)) [
            | inr e ↦ λ small. let (s', run) = get_object-unsigned s st e in rw run (st, refl)
            | inl e ↦ rw e λ small.
                let (st', run, grown) = get_object-signed s st e (omega arith) in
                rw run (
                  get_objects_total fuel (behind_object stream uncompress s) st'
                    (omega (arith, behind_lt stream left laws uncompress s e))
                    (omega (arith, grown)))
          ])
  ]

  parse_signed_total :
      (fuel : ℕ) (s : S)
      → left s < fuel
      → volume stream uncompress fuel (objects_at stream uncompress s) < 2 ^ 31
      → (ms : List (CanLogMsg F)) × (parse_signed {F = F} stream index_of uncompress fuel s ≡ ok ms)
  unfolding parse_signed
  parse_signed_total fuel s enough small =
      let le : left (objects_at stream uncompress s) ≤ left s =
        omega (arith, header_le stream left laws (stream.read_u32 s).1 _, laws.u32_le s) in
      let (st, run) =
        get_objects_total fuel (objects_at stream uncompress s)
          (record { counter = 0; messages = []; remain = [] }) (omega (arith, le))
          (omega (arith, small)) in
      (st.messages, rw run refl)

  -- If the stream reads bytes, no more of them than it is asked for, and moves over them: a file with the
  -- signature LOGG is loaded for every bound on its objects above its bytes, if its containers hold fewer
  -- than 2^31 bytes together. The messages are numbered from 0 in their order, modulo 2^32, and each has
  -- a payload of eight bytes, an id of 29 bits, and a channel and dlc below 256.
  pub parse_total :
      IsStream stream
      → (fuel : ℕ) (s : S) → str_eq (stream.read_raw 4 s).0 (codes "LOGG") ≡ true
      → left s < fuel
      → volume stream uncompress fuel (objects_at stream uncompress (stream.read_raw 4 s).1)
        < 2 ^ 31
      → (ms : List (CanLogMsg F)) × (parse stream index_of uncompress fuel (some s) ≡ ok ms)
        × IsNumbered 0 ms
        × All IsLogged ms
  parse_total bytes fuel s signed enough small =
      let (ms, run) =
        parse_signed_total fuel (stream.read_raw 4 s).1 (omega (arith, laws.raw_le 4 s)) small in
      let loaded : parse stream index_of uncompress fuel (some s) ≡ ok ms =
        unfold parse in rw signed run in
      let (numbered, logged) =
        parse-IsNumbered stream bytes index_of uncompress fuel (some s) ms loaded in
      (ms, loaded, numbered, logged)
