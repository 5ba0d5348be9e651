-- ===== src/Dbc/Values.antt =====
-- The value tables of a DBC file: which message and which signal a VAL_ line changes.
use mathlib.Core.List.{append_assoc, append-nil}
use can_tracer.Prelude.{
  ℕ, ◌≡◌, refl, ap, ◌∙◌, none, some, List, [], ◌∷◌, ◌++◌, arith, ◌==◌, if◌then◌else◌, Option-cases,
  inl, inr,
}
use can_tracer.Qt.{QString, Text, str_eq}
use can_tracer.Can.{
  CanSignal, CanMessage, CanDb, remove_ext_mask, modify, add_value_pair, find_signal, find_message,
  find_message_mut,
}
use can_tracer.Dbc.{add_pairs, add_values, read_values, value_decode_pattern}

module _ {F : Type 0} (text : Text F) where
  open text use {matches_all, to_ulong, to_double}

  -- The pairs whose number is read.
  abbrev pub readable : List (ℕ → QString) → List (F × QString)
  readable [] = []
  readable (c ∷ cs) = elim (to_double (c 1)) [
    | none ↦ readable cs
    | some number ↦ (number, c 2) ∷ readable cs
  ]

  -- The signals of a message after a table for the signal of that name.
  abbrev pub with_table : QString → List (F × QString) → List (CanSignal F) → List (CanSignal F)
  with_table name table [] = []
  with_table name table (s ∷ ss) =
      let rest = with_table name table ss in
      if str_eq s.name name then record s { values = s.values ++ table } ∷ ss else s ∷ rest

  add_pairs-readable :
      (cs : List (ℕ → QString)) (s : CanSignal F)
      → add_pairs text cs s ≡ record s { values = s.values ++ readable cs }
  unfolding add_pairs add_value_pair
  add_pairs-readable [] s = rw append-nil
  add_pairs-readable (c ∷ cs) s = elim (Option-cases (to_double (c 1))) [
    | inl e ↦ rw (e, add_pairs, readable) (add_pairs-readable cs s)
    | inr (v, e) ↦
        rw (e, add_pairs, readable)
          (add_pairs-readable cs (add_value_pair (v, c 2) s)
            ∙ ap (λ (t : List (F × QString)). record s { values = t })
                (append_assoc s.values ((v, c 2) ∷ []) (readable cs)))
  ]

  modify-with_table :
      (ss : List (CanSignal F)) (name : QString) (cs : List (ℕ → QString))
      → elim (find_signal ss name) [ none ↦ ss | some j ↦ modify j (add_pairs text cs) ss ]
        ≡ with_table name (readable cs) ss
  unfolding find_signal
  modify-with_table [] name cs = refl
  modify-with_table (s ∷ ss) name cs =
      ground (arith, modify-with_table ss name cs, add_pairs-readable cs s)

  -- The table goes to the first signal of that name, with the pairs that are read, in order.
  add_values-with_table :
      (c : ℕ → QString) (m : CanMessage F)
      → add_values text c m ≡ record m {
        can_signals =
            with_table (c 2) (readable (matches_all value_decode_pattern (c 3))) m.can_signals;
      }
  unfolding add_values
  add_values-with_table c m =
      ground (arith, modify-with_table m.can_signals (c 2) (matches_all value_decode_pattern (c 3)))

  read_values-cons :
      (m : CanMessage F) (ms : CanDb F) (c : ℕ → QString) (id : ℕ)
      → to_ulong (c 1) ≡ some id
      → read_values text (m ∷ ms) c ≡ (
          if m.id == remove_ext_mask id
          then add_values text c m ∷ ms
          else m ∷ read_values text ms c)
  unfolding read_values find_message_mut
  read_values-cons m ms c id e = rw (e, read_values) (ground arith)

  -- After a VAL_ line whose id is read, findMessage finds the same messages, and the one of that id has
  -- the pairs of the line whose number is read at the end of its first signal of that name.
  pub find_message-read_values :
      (db : CanDb F) (c : ℕ → QString) (id other : ℕ)
      → to_ulong (c 1) ≡ some id
      → find_message (read_values text db c) other ≡ elim (find_message db other) [
        | none ↦ none
        | some m ↦ some (
            if remove_ext_mask id == other
            then record m {
              can_signals =
                  with_table
                    (c 2)
                    (readable (matches_all value_decode_pattern (c 3)))
                    m.can_signals;
            }
            else m)
      ]
  unfolding find_message
  find_message-read_values [] c id other e =
      unfold read_values find_message_mut in rw (e, read_values)
  find_message-read_values (m ∷ ms) c id other e =
      rw (read_values-cons m ms c id e, add_values-with_table c m)
        (ground (arith, find_message-read_values ms c id other e))
