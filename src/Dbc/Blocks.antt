-- ===== src/Dbc/Blocks.antt =====
-- What the parser makes of a file that is a sequence of message blocks and other lines.
use mathlib.Core.List.{foldl-append, append_assoc, append-nil}
use can_tracer.Prelude.{ℕ, ◌≡◌, refl, sym, ap, ◌∙◌, none, some, List, [], ◌∷◌, ◌++◌}
use can_tracer.Prelude.Int.{ℤ}
use can_tracer.Qt.{QString, Text, to_unsigned}
use can_tracer.Can.{CanSignal, CanMessage, CanDb, remove_ext_mask, add_can_signal, add_message}
use can_tracer.Dbc.{
  LineState, idle, message, Parser, fresh, read_message, read_idle, read_signal, read_in_message,
  dispatch, read_line, read_lines, at_end, parse_stream, signal_pattern, message_pattern,
  value_pattern,
}

module _ {F : Type 0} where
  -- A message with more signals.
  abbrev pub with_signals : CanMessage F → List (CanSignal F) → CanMessage F
  with_signals m ss = record m { can_signals = m.can_signals ++ ss }

module _ {F : Type 0} (text : Text F) where
  open text use {matches, to_short, to_ulong}

  -- The line is read as the header of the message `m`, which has no signals yet.
  pub record IsHeader (line : QString) (m : CanMessage F) : Type 0 where
    pub captured : ℕ → QString
    pub id : ℕ
    pub dlc : ℤ
    pub is_match : matches message_pattern line ≡ some captured
    pub id_read : to_ulong (captured 1) ≡ some id
    pub dlc_read : to_short (captured 3) ≡ some dlc
    pub meaning : m ≡ record (fresh {F = F}) {
      id = remove_ext_mask id;
      dlc = to_unsigned 8 dlc;
      name = captured 2;
      sender = captured 4;
    }

  -- The lines are read as these signals.
  abbrev pub IsSignals : List QString → List (CanSignal F) → Type 0
  IsSignals [] [] = Unit
  IsSignals [] (s ∷ ss) = ⊥
  IsSignals (l ∷ ls) [] = ⊥
  IsSignals (l ∷ ls) (s ∷ ss) =
      ((c : ℕ → QString) × (matches signal_pattern l ≡ some c) × (read_signal text c ≡ some s))
      × IsSignals ls ss

  -- The grammar: the messages that a list of lines means. A block ends by a line that is no signal,
  -- or with the file; between blocks stand lines that are neither a header nor a value table.
  pub data Means : List QString → List (CanMessage F) → Type 0 where
    done : Means [] []
    other :
        {line : QString} {lines : List QString} {ms : List (CanMessage F)}
        → matches message_pattern line ≡ none
        → matches value_pattern line ≡ none
        → Means lines ms
        → Means (line ∷ lines) ms
    block :
        (header stop : QString) (body lines : List QString) (m : CanMessage F)
        (ss : List (CanSignal F)) {ms : List (CanMessage F)}
        → IsHeader header m
        → IsSignals body ss
        → matches signal_pattern stop ≡ none
        → Means lines ms
        → Means (header ∷ body ++ stop ∷ lines) (with_signals m ss ∷ ms)
    last_block :
        (header : QString) (body : List QString) (m : CanMessage F) (ss : List (CanSignal F))
        → IsHeader header m
        → IsSignals body ss
        → Means (header ∷ body) (with_signals m ss ∷ [])

  abbrev pub in_state : LineState → CanMessage F → CanDb F → Parser F
  in_state st m db = record { state = st; current = m; db = db }

  -- A header keeps the signals that an earlier block has left.
  read_header :
      (line : QString) (m old : CanMessage F) (db : CanDb F)
      → IsHeader line m
      → read_line text (in_state idle old db) line
        ≡ in_state message (record m { can_signals = old.can_signals; color = old.color }) db
  unfolding read_line dispatch read_idle read_message
  read_header line m old db h =
      rw (h.is_match, read_idle) (rw (h.id_read, read_message) (rw h.dlc_read (rw h.meaning)))

  read_body :
      (body : List QString) (ss : List (CanSignal F)) (m : CanMessage F) (db : CanDb F)
      → IsSignals body ss
      → read_lines text (in_state message m db) body ≡ in_state message (with_signals m ss) db
  unfolding read_lines read_line dispatch read_in_message add_can_signal
  read_body [] [] m db h = rw append-nil
  read_body [] (s ∷ ss) m db h = absurd h
  read_body (l ∷ ls) [] m db h = absurd h
  read_body (l ∷ ls) (s ∷ ss) m db ((c, e, r), h) =
      rw (e, read_in_message)
        (rw r (
          read_body ls ss (with_signals m (s ∷ [])) db h
          ∙ ap (λ (t : List (CanSignal F)). in_state message (record m { can_signals = t }) db)
              (append_assoc m.can_signals (s ∷ []) ss)))

  pub read_stop :
      (line : QString) (m : CanMessage F) (db : CanDb F)
      → matches signal_pattern line ≡ none
      → read_line text (in_state message m db) line ≡ in_state idle fresh (db ++ (m ∷ []))
  unfolding read_line dispatch read_in_message add_message
  read_stop line m db e = rw (e, read_in_message)

  pub read_lines-cons :
      (s : Parser F) (l : QString) (ls : List QString)
      → read_lines text s (l ∷ ls) ≡ read_lines text (read_line text s l) ls
  unfolding read_lines
  read_lines-cons s l ls = refl

  pub read_lines-append :
      (s : Parser F) (ls ks : List QString)
      → read_lines text s (ls ++ ks) ≡ read_lines text (read_lines text s ls) ks
  unfolding read_lines
  read_lines-append s ls ks = foldl-append (read_line text) s ls ks

  -- A header and its signals, from any state between blocks.
  pub read_open_block :
      (header : QString) (body : List QString) (m : CanMessage F) (ss : List (CanSignal F))
      (old : CanMessage F) (db : CanDb F)
      → IsHeader header m
      → IsSignals body ss
      → read_lines text (in_state idle old db) (header ∷ body)
        ≡ in_state message (record m { can_signals = old.can_signals ++ ss; color = old.color }) db
  read_open_block header body m ss old db h b =
      read_lines-cons (in_state idle old db) header body
      ∙ ap (λ (t : Parser F). read_lines text t body) (read_header header m old db h)
      ∙ read_body body ss (record m { can_signals = old.can_signals; color = old.color }) db b

  pub read_block :
      (header stop : QString) (body : List QString) (m : CanMessage F) (ss : List (CanSignal F))
      (old : CanMessage F) (lines : List QString) (db : CanDb F)
      → IsHeader header m
      → IsSignals body ss
      → matches signal_pattern stop ≡ none
      → read_lines text (in_state idle old db) (header ∷ body ++ stop ∷ lines)
        ≡ read_lines text
            (in_state idle fresh
              (db ++ (record m { can_signals = old.can_signals ++ ss; color = old.color } ∷ [])))
            lines
  read_block header stop body m ss old lines db h b e =
      read_lines-append (in_state idle old db) (header ∷ body) (stop ∷ lines)
      ∙ ap (λ (t : Parser F). read_lines text t (stop ∷ lines))
          (read_open_block header body m ss old db h b)
      ∙ read_lines-cons _ stop lines
      ∙ ap (λ (t : Parser F). read_lines text t lines) (read_stop stop _ db e)

  pub read_other :
      (line : QString) (old : CanMessage F) (db : CanDb F)
      → matches message_pattern line ≡ none
      → matches value_pattern line ≡ none
      → read_line text (in_state idle old db) line ≡ in_state idle old db
  unfolding read_line dispatch read_idle
  read_other line old db e v = rw (e, read_idle) (rw v)

  pub from_fresh :
      {header : QString} (m : CanMessage F) (ss : List (CanSignal F))
      → IsHeader header m
      → ◌≡◌ {A = CanMessage F}
          (record m {
            can_signals = (fresh {F = F}).can_signals ++ ss;
            color = (fresh {F = F}).color;
          })
          (with_signals m ss)
  from_fresh m ss h = rw h.meaning

  abbrev pub finish : Parser F → CanDb F
  finish s = at_end text s.state s

  pub finish-Means :
      {lines : List QString} {ms : List (CanMessage F)} (db : CanDb F)
      → Means lines ms
      → finish (read_lines text (in_state idle fresh db) lines) ≡ db ++ ms
  finish-Means db done = unfold read_lines at_end in sym (append-nil db)
  finish-Means db (other {line} {lines} e v rest) =
      ap finish (
        read_lines-cons (in_state idle fresh db) line lines
        ∙ ap (λ (t : Parser F). read_lines text t lines) (read_other line fresh db e v))
      ∙ finish-Means db rest
  finish-Means db (block header stop body lines m ss h b e rest) =
      ap finish (read_block header stop body m ss fresh lines db h b e)
      ∙ finish-Means _ rest
      ∙ rw (from_fresh m ss h, append_assoc)
  finish-Means db (last_block header body m ss h b) =
      ap finish (read_open_block header body m ss fresh db h b)
      ∙ (unfold at_end add_message in rw (from_fresh m ss h))

  -- A file that the grammar accepts adds the messages that it means, in order, and no others.
  pub parse_stream-Means :
      (lines : List QString) (ms : List (CanMessage F)) (db : CanDb F)
      → Means lines ms
      → parse_stream text lines db ≡ db ++ ms
  unfolding parse_stream
  parse_stream-Means lines ms db h = finish-Means db h
