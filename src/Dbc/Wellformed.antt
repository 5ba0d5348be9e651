-- ===== src/Dbc/Wellformed.antt =====
-- The sizes of what the parser stores.
use can_tracer.Prelude.{
  ℕ, ◌^◌, ◌<◌, ◌≡◌, Option, some, List, [], ◌∷◌, arith, All, All-append, Option-cases, inl, inr,
}
use can_tracer.Qt.{QString, Text}
use can_tracer.Can.{
  CanSignal, CanMessage, CanDb, remove_ext_mask, add_can_signal, add_value_pair, add_message,
  find_message_mut, find_signal,
}
use can_tracer.Can.Db.{All-modify, remove_ext_mask_lem}
use can_tracer.Dbc.{
  LineState, idle, message, Parser, fresh, read_message, add_pairs, add_values, read_values,
  read_idle, read_signal, read_in_message, dispatch, read_line, read_lines, at_end, parse_stream,
  parse_file, parse_files, parse, signal_pattern, message_pattern, value_pattern,
}

module _ {F : Type 0} where
  -- The numbers of a signal and of a message fit their fields, and the id has the 29 bits of CAN.
  abbrev pub IsSized : CanSignal F → Type 0
  IsSized s = (s.start_bit < 256) × (s.len < 256)

  pub record IsStored (m : CanMessage F) : Type 0 where
    pub id_lt : m.id < 2 ^ 29
    pub dlc_lt : m.dlc < 256
    pub sized : All IsSized m.can_signals

  record Inv (s : Parser F) : Type 0 where
    stored : All IsStored s.db
    current_stored : IsStored s.current

module _ {F : Type 0} (text : Text F) where
  mask_lt : (id : ℕ) → remove_ext_mask id < 2 ^ 29
  mask_lt id = omega (arith, remove_ext_mask_lem id)

  read_message-Inv : (s : Parser F) (c : ℕ → QString) → Inv s → Inv (read_message text s c)
  unfolding read_message
  read_message-Inv s c h = grind (arith, mask_lt)

  add_pairs-IsSized :
      (ps : List (ℕ → QString)) (s : CanSignal F) → IsSized s → IsSized (add_pairs text ps s)
  unfolding add_pairs add_value_pair
  add_pairs-IsSized [] s h = h
  add_pairs-IsSized (p ∷ ps) s h = elim (Option-cases (text.to_double (p 1))) [
    | inl e ↦ rw (e, add_pairs) (add_pairs-IsSized ps s h)
    | inr (v, e) ↦ rw (e, add_pairs) (add_pairs-IsSized ps (add_value_pair (v, p 2) s) h)
  ]

  add_values-IsStored :
      (c : ℕ → QString) (m : CanMessage F) → IsStored m → IsStored (add_values text c m)
  unfolding add_values
  add_values-IsStored c m h = elim (Option-cases (find_signal m.can_signals (c 2))) [
    | inl e ↦ rw (e, add_values) h
    | inr (j, e) ↦
        rw (e, add_values)
          (record {
            id_lt = h.id_lt;
            dlc_lt = h.dlc_lt;
            sized = All-modify IsSized j _ m.can_signals (add_pairs-IsSized _) h.sized;
          })
  ]

  read_values-IsStored :
      (db : CanDb F) (c : ℕ → QString) → All IsStored db → All IsStored (read_values text db c)
  unfolding read_values
  read_values-IsStored db c h = elim (Option-cases (text.to_ulong (c 1))) [
    | inl e ↦ rw (e, read_values) h
    | inr (id, e) ↦
        rw (e, read_values)
          (elim (Option-cases (find_message_mut db (remove_ext_mask id))) [
            | inl e' ↦ rw e' h
            | inr (i, e') ↦ rw e' (All-modify IsStored i _ db (add_values-IsStored c) h)
          ])
  ]

  read_signal-IsSized :
      (c : ℕ → QString) (s : CanSignal F) → read_signal text c ≡ some s → IsSized s
  unfolding read_signal
  read_signal-IsSized c s e = ground arith

  fresh-IsStored : IsStored (fresh {F = F})
  fresh-IsStored = omega arith

  add_can_signal-IsStored :
      (m : CanMessage F) (signal : CanSignal F)
      → IsStored m
      → IsSized signal
      → IsStored (add_can_signal m signal)
  unfolding add_can_signal
  add_can_signal-IsStored m signal h sized = record {
    id_lt = h.id_lt;
    dlc_lt = h.dlc_lt;
    sized = All-append IsSized m.can_signals (signal ∷ []) h.sized (sized, tt);
  }

  add_message-IsStored :
      (db : CanDb F) (m : CanMessage F)
      → All IsStored db
      → IsStored m
      → All IsStored (add_message db m)
  unfolding add_message
  add_message-IsStored db m h stored = All-append IsStored db (m ∷ []) h (stored, tt)

  read_in_message-Inv : (s : Parser F) (line : QString) → Inv s → Inv (read_in_message text s line)
  unfolding read_in_message
  read_in_message-Inv s line h = elim (Option-cases (text.matches signal_pattern line)) [
    | inl e ↦
        rw (e, read_in_message)
          (record {
            stored = add_message-IsStored s.db s.current h.stored h.current_stored;
            current_stored = fresh-IsStored;
          })
    | inr (c, e) ↦
        rw (e, read_in_message)
          (elim (Option-cases (read_signal text c)) [
            | inl e' ↦ rw e' (record { stored = h.stored; current_stored = h.current_stored })
            | inr (signal, e') ↦ rw e' (record {
              stored = h.stored;
              current_stored =
                  add_can_signal-IsStored s.current signal h.current_stored
                    (read_signal-IsSized c signal e');
            })
          ])
  ]

  read_idle-Inv : (s : Parser F) (line : QString) → Inv s → Inv (read_idle text s line)
  unfolding read_idle
  read_idle-Inv s line h = elim (Option-cases (text.matches message_pattern line)) [
    | inr (c, e) ↦ rw (e, read_idle) (read_message-Inv s c h)
    | inl e ↦
        rw (e, read_idle)
          (elim (Option-cases (text.matches value_pattern line)) [
            | inl e' ↦ rw e' h
            | inr (c, e') ↦ rw e' (record {
              stored = read_values-IsStored s.db c h.stored;
              current_stored = h.current_stored;
            })
          ])
  ]

  dispatch-Inv :
      (st : LineState) (s : Parser F) (line : QString) → Inv s → Inv (dispatch text st s line)
  unfolding dispatch
  dispatch-Inv idle s line h = read_idle-Inv s line h
  dispatch-Inv message s line h = read_in_message-Inv s line h

  read_lines-Inv : (lines : List QString) (s : Parser F) → Inv s → Inv (read_lines text s lines)
  unfolding read_lines read_line
  read_lines-Inv [] s h = h
  read_lines-Inv (l ∷ ls) s h = read_lines-Inv ls (read_line text s l) (dispatch-Inv s.state s l h)

  at_end-IsStored : (st : LineState) (s : Parser F) → Inv s → All IsStored (at_end text st s)
  unfolding at_end
  at_end-IsStored idle s h = h.stored
  at_end-IsStored message s h = add_message-IsStored s.db s.current h.stored h.current_stored

  -- Whatever the lines are, every message of the database keeps an id of 29 bits, a dlc below 256, and
  -- signals whose start bit and length are below 256.
  pub parse_stream-IsStored :
      (lines : List QString) (db : CanDb F)
      → All IsStored db
      → All IsStored (parse_stream text lines db)
  unfolding parse_stream
  parse_stream-IsStored lines db h =
      at_end-IsStored _ _
        (read_lines-Inv lines _ (record { stored = h; current_stored = fresh-IsStored }))

  module _ (content : QString → Option (List QString)) where
    parse_files-IsStored :
        (files : List QString) (db : CanDb F)
        → All IsStored db
        → All IsStored (parse_files text content files db)
    unfolding parse_files parse_file
    parse_files-IsStored [] db h = h
    parse_files-IsStored (file ∷ files) db h =
        parse_files-IsStored files (parse_file text content file db)
          (elim (Option-cases (content file)) [
            | inl e ↦ rw (e, parse_file) h
            | inr (lines, e) ↦ rw (e, parse_file) (parse_stream-IsStored lines db h)
          ])

    -- Whatever the files hold, and whichever of them cannot be opened, every message that is loaded has
    -- an id of 29 bits, a dlc below 256, and signals whose start bit and length are below 256.
    pub parse-IsStored : (files : List QString) → All IsStored (parse text content files)
    unfolding parse
    parse-IsStored files = parse_files-IsStored files [] tt
