-- ===== src/Blf/Messages.antt =====
-- What the messages of a BLF file look like, whatever the file holds.
use mathlib.Core.Path.{subst}
use can_tracer.Prelude.{
  ℕ, zero, suc, ◌+◌, ◌-◌, ◌%◌, ◌^◌, ◌≤◌, ◌<◌, ◌≡◌, inl, inr, refl, ap, not, Option, none, some,
  List, [], ◌∷◌, ◌++◌, arith, length, drop, length-append, Option-cases, Bool-cases, ltb, All,
  All-append, replicate, ◌==◌, ◌||◌,
}
use can_tracer.Prelude.Int.{ℤ, pos, negsuc}
use can_tracer.Prelude.Bits.{bit_and_mask}
use can_tracer.Prelude.Outcome.{
  Outcome, ok, Ensures, ensured, failed, value_of_Ensures, Ensures->>=,
}
use can_tracer.Qt.{Double, QByteArray, DataStream, str_eq, codes}
use can_tracer.Can.{CanLogMsg}
use can_tracer.Can.Logged.{IsData, IsNumbered, IsNumbered-append}
use can_tracer.Blf.{
  BlfState, read_can_msg, read_body, parse_sized, parse_at, parse_object, parse_container,
  parse_unpacked, parse_typed, parse_signed, get_object, get_objects, parse, fill, signature_size,
  lobj, log_container,
}

-- What the code relies on in QDataStream: a byte is below 256, and a raw read gives at most as many
-- bytes as asked for.
pub record IsStream {S : Type 0} (stream : DataStream S) : Type 0 where
  pub u8_lt : (s : S) → (stream.read_u8 s).0 < 256
  pub raw_length : (n : ℕ) (s : S) → length (stream.read_raw n s).0 ≤ n
  pub raw_bytes : (n : ℕ) (s : S) → All (λ b. b < 256) (stream.read_raw n s).0

replicate-bytes : (n : ℕ) → All (λ b. b < 256) (replicate n 0)
replicate-bytes zero = tt
replicate-bytes (suc n) = (omega arith, replicate-bytes n)

length-replicate_zero : (n : ℕ) → length (replicate {A = ℕ} n 0) ≡ n
length-replicate_zero zero = refl
length-replicate_zero (suc n) = ap suc (length-replicate_zero n)

fill-IsData : (got : QByteArray) → length got ≤ 8 → All (λ b. b < 256) got → IsData (fill 8 got)
fill-IsData got h bytes = record {
  size = omega (
    arith,
    length-append got (replicate (8 - length got) 0),
    length-replicate_zero (8 - length got),
  );
  bytes = All-append (λ b. b < 256) got _ bytes (replicate-bytes (8 - length got));
}

module _ {F : Type 0} where
  -- A message whose fields fit: the payload is eight bytes, and the id has 29 bits.
  pub record IsLogged (m : CanLogMsg F) : Type 0 where
    pub payload : IsData m.bytes
    pub id_lt : m.id < 2 ^ 29
    pub channel_lt : m.channel < 256
    pub dlc_lt : m.dlc < 256

  record Inv (st : BlfState F) : Type 0 where
    numbered : IsNumbered 0 st.messages
    counted : st.counter ≡ length st.messages % 2 ^ 32
    logged : All IsLogged st.messages

module _ {F : Type 0} {S : Type 0} ⦃d : Double F⦄ (stream : DataStream S)
    (laws : IsStream stream) where
  open stream use {read_u8, read_u16, read_u32, read_raw}

  read_can_msg-IsLogged :
      (number : ℕ) (time : F) (s : S) → IsLogged (read_can_msg stream number time s)
  unfolding read_can_msg
  read_can_msg-IsLogged number time s = record {
    payload = fill-IsData _ (laws.raw_length 8 _) (laws.raw_bytes 8 _);
    id_lt = omega (arith, bit_and_mask 29 (read_u32 (read_u8 (read_u8 (read_u16 s).1).1).1).0);
    channel_lt = omega arith;
    dlc_lt = laws.u8_lt _;
  }

  read_can_msg-number :
      (number : ℕ) (time : F) (s : S) → (read_can_msg stream number time s).number ≡ number
  unfolding read_can_msg
  read_can_msg-number number time s = refl

  append-Inv :
      (st : BlfState F) (time : F) (s : S)
      → Inv st
      → Inv (record st {
        counter = (st.counter + 1) % 2 ^ 32;
        messages = st.messages ++ (read_can_msg stream st.counter time s ∷ []);
      })
  append-Inv st time s h = record {
    numbered =
        IsNumbered-append 0 st.messages _ h.numbered
          (omega (arith, read_can_msg-number st.counter time s));
    counted =
        omega (
          arith,
          h.counted,
          length-append st.messages (read_can_msg stream st.counter time s ∷ []),
        );
    logged =
        All-append IsLogged st.messages _ h.logged (read_can_msg-IsLogged st.counter time s, tt);
  }

  read_body-Inv :
      (version obj_type : ℕ) (st : BlfState F) (s : S)
      → Inv st
      → Inv (read_body stream version obj_type st s)
  unfolding read_body
  read_body-Inv version obj_type st s h = elim (Bool-cases (obj_type == 1 || obj_type == 86)) [
    | inl msg ↦ rw msg (append-Inv st _ _ h)
    | inr other ↦ rw other h
  ]

  module _ (index_of : QByteArray → ℕ → Option ℕ) where
    with_remain :
        (st : BlfState F) (bytes : QByteArray) → Inv st → Inv (record st { remain = bytes })
    with_remain st bytes h = record {
      numbered = h.numbered;
      counted = h.counted;
      logged = h.logged;
    }

    parse_sized-Inv :
        (container : QByteArray) (st : BlfState F) (next version obj_type : ℕ) (s : S)
        → Inv st
        → Inv (parse_sized stream index_of container st next version obj_type s).1
    unfolding parse_sized
    parse_sized-Inv container st next version obj_type s h =
        elim (Bool-cases (ltb (length container) next)) [
          | inl cut ↦ rw cut (with_remain st container h)
          | inr whole ↦ rw whole (read_body-Inv version obj_type _ s (with_remain st [] h))
        ]

    parse_object-Inv :
        (container : QByteArray) (st : BlfState F)
        → Inv st
        → Inv (parse_object stream index_of container st).1
    unfolding parse_object parse_at
    parse_object-Inv container st h = elim (Bool-cases (ltb (length container) 16)) [
      | inl short ↦ rw short (with_remain st container h)
      | inr long ↦ rw long (elim (Option-cases (index_of container 0)) [
        | inl e ↦ rw e h
        | inr (i, e) ↦ rw e (parse_sized-Inv container st _ _ _ _ h)
      ])
    ]

    abbrev next_round : ℕ → QByteArray → ℤ → BlfState F → Outcome (BlfState F)
    next_round fuel container ret st = elim ret [
      | negsuc n ↦ ok st
      | pos n ↦ elim n [
        | zero ↦ ok st
        | suc k ↦ parse_container stream index_of fuel (drop (suc k) container) st
      ]
    ]

    next_round-Inv :
        (fuel : ℕ) (container : QByteArray) (ret : ℤ) (st : BlfState F)
        → Inv st
        → ((bytes : QByteArray) → Ensures Inv (parse_container stream index_of fuel bytes st))
        → Ensures Inv (next_round fuel container ret st)
    next_round-Inv fuel container (negsuc n) st h go = ensured h
    next_round-Inv fuel container (pos zero) st h go = ensured h
    next_round-Inv fuel container (pos (suc k)) st h go = go (drop (suc k) container)

    parse_container-Inv :
        (fuel : ℕ) (bytes : QByteArray) (st : BlfState F)
        → Inv st
        → Ensures Inv (parse_container stream index_of fuel bytes st)
    unfolding parse_container
    parse_container-Inv fuel [] st h = ensured h
    parse_container-Inv zero (b ∷ bs) st h = failed
    parse_container-Inv (suc fuel) (b ∷ bs) st h =
        let r : ℤ × BlfState F = parse_object stream index_of (st.remain ++ b ∷ bs) st in
        let h' = parse_object-Inv (st.remain ++ b ∷ bs) st h in
        next_round-Inv fuel (st.remain ++ b ∷ bs) r.0 r.1 h'
          (λ bytes. parse_container-Inv fuel bytes r.1 h')

    module _ (uncompress : QByteArray → QByteArray) where
      abbrev InvBehind : ℤ × S × BlfState F → Type 0
      InvBehind r = Inv r.2

      parse_unpacked-Inv :
          (content : Option QByteArray) (s : S) (st : BlfState F)
          → Inv st
          → Ensures InvBehind (parse_unpacked stream index_of content s st)
      unfolding parse_unpacked
      parse_unpacked-Inv none s st h = ensured h
      parse_unpacked-Inv (some container) s st h =
          Ensures->>= (parse_container-Inv _ container st h) (λ st' h'. ensured h')

      parse_typed-Inv :
          (obj_type : ℕ) (content : Option QByteArray) (s : S) (st : BlfState F)
          → Inv st
          → Ensures InvBehind (parse_typed stream index_of obj_type content s st)
      unfolding parse_typed
      parse_typed-Inv obj_type content s st h =
          elim (Bool-cases (not (obj_type == log_container))) [
            | inl e ↦ rw e (ensured h)
            | inr e ↦ rw e (parse_unpacked-Inv content s st h)
          ]

      get_object-Inv :
          (s : S) (st : BlfState F)
          → Inv st
          → Ensures InvBehind (get_object stream index_of uncompress s st)
      unfolding get_object
      get_object-Inv s st h =
          elim (Bool-cases
            (not (str_eq (fill signature_size (read_raw signature_size s).0) lobj))) [
              | inl e ↦ rw e (ensured h)
              | inr e ↦ rw e (parse_typed-Inv _ _ _ st h)
            ]

      abbrev after_object : ℕ → ℤ × S × BlfState F → Outcome (BlfState F)
      after_object fuel (ret, s, st) = elim ret [
        | negsuc n ↦ ok st
        | pos n ↦ elim n [ zero ↦ get_objects stream index_of uncompress fuel s st | suc k ↦ ok st ]
      ]

      after_object-Inv :
          (fuel : ℕ) (ret : ℤ) (s : S) (st : BlfState F)
          → Inv st
          → Ensures Inv (get_objects stream index_of uncompress fuel s st)
          → Ensures Inv (after_object fuel (ret, s, st))
      after_object-Inv fuel (negsuc n) s st h go = ensured h
      after_object-Inv fuel (pos zero) s st h go = go
      after_object-Inv fuel (pos (suc k)) s st h go = ensured h

      get_objects-Inv :
          (fuel : ℕ) (s : S) (st : BlfState F)
          → Inv st
          → Ensures Inv (get_objects stream index_of uncompress fuel s st)
      unfolding get_objects
      get_objects-Inv zero s st h = failed
      get_objects-Inv (suc fuel) s st h = elim (Bool-cases (stream.at_end s)) [
        | inl done ↦ rw (done, get_objects) (ensured h)
        | inr more ↦
            rw (more, get_objects)
              (Ensures->>= {f = after_object fuel} (get_object-Inv s st h)
                (λ r h'. after_object-Inv fuel r.0 r.1 r.2 h' (get_objects-Inv fuel r.1 r.2 h')))
      ]

      abbrev AreLoaded : List (CanLogMsg F) → Type 0
      AreLoaded ms = IsNumbered 0 ms × All IsLogged ms

      parse_signed-AreLoaded :
          (fuel : ℕ) (s : S)
          → Ensures AreLoaded (parse_signed {F = F} stream index_of uncompress fuel s)
      unfolding parse_signed
      parse_signed-AreLoaded fuel s =
          Ensures->>=
            (get_objects-Inv fuel _ (record { counter = 0; messages = []; remain = [] })
              (record { numbered = tt; counted = refl; logged = tt }))
            (λ st h. ensured (h.numbered, h.logged))

      parse-AreLoaded :
          (fuel : ℕ) (file : Option S)
          → Ensures AreLoaded (parse {F = F} stream index_of uncompress fuel file)
      unfolding parse
      parse-AreLoaded fuel none = failed
      parse-AreLoaded fuel (some s) =
          elim (Bool-cases (not (str_eq (read_raw signature_size s).0 (codes "LOGG")))) [
            | inl e ↦ rw e failed
            | inr e ↦ rw e (parse_signed-AreLoaded fuel (read_raw signature_size s).1)
          ]

      -- If the stream reads bytes, and no more of them than it is asked for, then whatever a BLF file
      -- holds, the messages that are loaded are numbered from 0 in their order, modulo
      -- 2^32, and
      -- each has a payload of eight bytes, an id of 29 bits, and a channel and dlc below 256.
      pub parse-IsNumbered :
          (fuel : ℕ) (file : Option S) (ms : List (CanLogMsg F))
          → parse stream index_of uncompress fuel file ≡ ok ms
          → IsNumbered 0 ms × All IsLogged ms
      parse-IsNumbered fuel file ms e =
          value_of_Ensures (subst (Ensures AreLoaded) e (parse-AreLoaded fuel file))
