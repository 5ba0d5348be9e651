-- ===== src/Dbc/Leak.antt =====
-- A signal line whose conversion fails: the message is dropped, but its signals are not.
use mathlib.Core.List.{append_assoc, append-nil}
use can_tracer.Prelude.{ℕ, All, refl, ◌≡◌, ap, ◌∙◌, none, some, List, [], ◌∷◌, ◌++◌}
use can_tracer.Qt.{QString, Text}
use can_tracer.Can.{CanSignal, CanMessage, CanDb, add_message}
use can_tracer.Dbc.{
  idle, message, Parser, fresh, read_signal, read_in_message, dispatch, read_line, read_lines,
  at_end, parse_stream, signal_pattern, message_pattern, value_pattern,
}
use can_tracer.Dbc.Blocks.{
  with_signals, IsHeader, IsSignals, Means, in_state, finish, read_lines-cons, read_lines-append,
  read_open_block, read_other, read_block, read_stop, from_fresh, finish-Means,
}

module _ {F : Type 0} (text : Text F) where
  open text use {matches}

  -- The line has the form of a signal, and one of its numbers is not read.
  pub record IsBadSignal (line : QString) : Type 0 where
    pub captured : ℕ → QString
    pub is_match : matches signal_pattern line ≡ some captured
    pub unread : read_signal text captured ≡ none

  read_bad :
      (line : QString) (m : CanMessage F) (db : CanDb F)
      → IsBadSignal line
      → read_line text (in_state text message m db) line ≡ in_state text idle m db
  unfolding read_line dispatch read_in_message
  read_bad line m db h = rw (h.is_match, read_in_message) (rw h.unread)

  -- The lines up to a place between blocks, and the messages that they mean.
  pub data Closed : List QString → List (CanMessage F) → Type 0 where
    nothing : Closed [] []
    other :
        {line : QString} {lines : List QString} {ms : List (CanMessage F)}
        → matches message_pattern line ≡ none
        → matches value_pattern line ≡ none
        → Closed lines ms
        → Closed (line ∷ lines) ms
    block :
        (header stop : QString) (body lines : List QString) (m : CanMessage F)
        (ss : List (CanSignal F)) {ms : List (CanMessage F)}
        → IsHeader text header m
        → IsSignals text body ss
        → matches signal_pattern stop ≡ none
        → Closed lines ms
        → Closed (header ∷ body ++ stop ∷ lines) (with_signals m ss ∷ ms)

  -- What is behind the signals of a block: nothing, or a line that is no signal and the rest of the file.
  pub data Behind : List QString → List (CanMessage F) → Type 0 where
    end_of_file : Behind [] []
    stopped :
        {line : QString} {lines : List QString} {ms : List (CanMessage F)}
        → matches signal_pattern line ≡ none
        → Means text lines ms
        → Behind (line ∷ lines) ms

  -- A line that says nothing between blocks.
  abbrev pub IsOther : QString → Type 0
  IsOther line = (matches message_pattern line ≡ none) × (matches value_pattern line ≡ none)

  read_lines-Closed :
      {lines : List QString} {ms : List (CanMessage F)} (db : CanDb F)
      → Closed lines ms
      → read_lines text (in_state text idle fresh db) lines ≡ in_state text idle fresh (db ++ ms)
  read_lines-Closed db nothing = unfold read_lines in rw append-nil
  read_lines-Closed db (other {line} {lines} e v rest) =
      read_lines-cons text (in_state text idle fresh db) line lines
      ∙ ap (λ (t : Parser F). read_lines text t lines) (read_other text line fresh db e v)
      ∙ read_lines-Closed db rest
  read_lines-Closed db (block header stop body lines m ss h b e rest) =
      read_block text header stop body m ss fresh lines db h b e
      ∙ read_lines-Closed _ rest
      ∙ rw (from_fresh text m ss h, append_assoc)

  read_others :
      (gap : List QString) (old : CanMessage F) (db : CanDb F)
      → All IsOther gap
      → read_lines text (in_state text idle old db) gap ≡ in_state text idle old db
  read_others [] old db h = unfold read_lines in refl
  read_others (line ∷ gap) old db h =
      read_lines-cons text (in_state text idle old db) line gap
      ∙ ap (λ (t : Parser F). read_lines text t gap) (read_other text line old db h.0.0 h.0.1)
      ∙ read_others gap old db h.1

  finish-Behind :
      {lines : List QString} {ms : List (CanMessage F)} (m : CanMessage F) (db : CanDb F)
      → Behind lines ms
      → finish text (read_lines text (in_state text message m db) lines) ≡ db ++ m ∷ ms
  finish-Behind m db end_of_file = unfold read_lines at_end add_message in refl
  finish-Behind m db (stopped {line} {lines} {ms} e rest) =
      ap (finish text) (
        read_lines-cons text (in_state text message m db) line lines
        ∙ ap (λ (t : Parser F). read_lines text t lines) (read_stop text line m db e))
      ∙ finish-Means text (db ++ m ∷ []) rest
      ∙ append_assoc db (m ∷ []) ms

  -- What the message at hand is behind a block that a bad line ends.
  abbrev left_over : CanMessage F → List (CanSignal F) → CanMessage F
  left_over m ss = record m {
    can_signals = (fresh {F = F}).can_signals ++ ss;
    color = (fresh {F = F}).color;
  }

  read_broken :
      (header bad : QString) (body gap : List QString) (m : CanMessage F) (ss : List (CanSignal F))
      (db : CanDb F)
      → IsHeader text header m
      → IsSignals text body ss
      → IsBadSignal bad
      → All IsOther gap
      → read_lines text (in_state text idle fresh db) ((header ∷ body) ++ bad ∷ gap)
        ≡ in_state text idle (left_over m ss) db
  read_broken header bad body gap m ss db h b x others =
      read_lines-append text (in_state text idle fresh db) (header ∷ body) (bad ∷ gap)
      ∙ ap (λ (t : Parser F). read_lines text t (bad ∷ gap))
          (read_open_block text header body m ss fresh db h b)
      ∙ read_lines-cons text _ bad gap
      ∙ ap (λ (t : Parser F). read_lines text t gap) (read_bad bad _ db x)
      ∙ read_others gap (left_over m ss) db others

  -- Behind lines that the grammar reads up to a place between blocks: a block that a bad signal line ends adds no
  -- message, and the message of the next block gets the signals of both. Lines between the two that are neither
  -- a header nor a value table change nothing. Behind the second block stands nothing, or a line that is no signal
  -- and then lines that the grammar accepts, which add the messages that they mean.
  pub parse_stream-leak :
      (header bad next : QString) (before body gap body' behind : List QString)
      (m m' : CanMessage F) (ss ss' : List (CanSignal F)) (ms ms' : List (CanMessage F))
      (db : CanDb F)
      → Closed before ms
      → IsHeader text header m
      → IsSignals text body ss
      → IsBadSignal bad
      → All IsOther gap
      → IsHeader text next m'
      → IsSignals text body' ss'
      → Behind behind ms'
      → parse_stream text
          (before ++ (((header ∷ body) ++ bad ∷ gap) ++ ((next ∷ body') ++ behind)))
          db
        ≡ (db ++ ms) ++ with_signals m' (ss ++ ss') ∷ ms'
  unfolding parse_stream
  parse_stream-leak header bad next before body gap body' behind m m' ss ss' ms ms' db c h b x o h'
        b' e =
      ap (finish text) (
        read_lines-append text (in_state text idle fresh db) before _
        ∙ ap
            (λ (t : Parser F).
              read_lines text t (((header ∷ body) ++ bad ∷ gap) ++ ((next ∷ body') ++ behind)))
            (read_lines-Closed db c)
        ∙ read_lines-append text (in_state text idle fresh (db ++ ms))
            ((header ∷ body) ++ bad ∷ gap) ((next ∷ body') ++ behind)
        ∙ ap (λ (t : Parser F). read_lines text t ((next ∷ body') ++ behind))
            (read_broken header bad body gap m ss (db ++ ms) h b x o)
        ∙ read_lines-append text (in_state text idle (left_over m ss) (db ++ ms)) (next ∷ body')
            behind
        ∙ ap (λ (t : Parser F). read_lines text t behind)
            (read_open_block text next body' m' ss' (left_over m ss) (db ++ ms) h' b'))
      ∙ finish-Behind _ (db ++ ms) e
      ∙ rw h'.meaning refl
