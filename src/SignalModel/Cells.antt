-- ===== src/SignalModel/Cells.antt =====
-- The columns of the table of signals, against its header.
use can_tracer.Prelude.{
  ℕ, zero, suc, ◌<◌, ◌≡◌, refl, ap, Option, none, some, List, [], ◌∷◌, if◌then◌else◌, length,
  get_elem?, get_elem?-some, arith,
}
use can_tracer.Prelude.Int.{pos}
use can_tracer.Prelude.Outcome.{ok}
use can_tracer.Qt.{QString, codes}
use can_tracer.Qt.Variant.{Variant, no_value, text, horizontal}
use can_tracer.Can.{CanSignal, CanMessage, CanDb, signal_count}
use can_tracer.LogModel.{Format}
use can_tracer.MsgModel.{display_role, signal_rows}
use can_tracer.SignalModel.{pairs_text, signal_text, signal_data, signal_header}

module _ {F : Type 0} (format : Format F) (arg : QString → QString → QString)
    (trimmed : QString → QString) where
  -- A signal as a row of the table: what stands below each title of the header.
  abbrev pub row_of : CanSignal F → List (QString × QString)
  row_of signal =
      (codes "Name", signal.name)
      ∷ (codes "Start Bit", format.integer signal.start_bit)
      ∷ (codes "Len", format.integer signal.len)
      ∷ (codes "Type", if signal.is_signed then codes "signed" else codes "unsigned")
      ∷ (codes "Endian", if signal.is_big_endian then codes "big" else codes "little")
      ∷ (codes "Scale", format.general signal.scale)
      ∷ (codes "Offset", format.general signal.offset)
      ∷ (codes "Min", format.general signal.min)
      ∷ (codes "Max", format.general signal.max)
      ∷ (codes "Unit", signal.unit)
      ∷ (codes "Values", trimmed (pairs_text format arg trimmed signal.values))
      ∷ []

  abbrev pub cell_in : Option (QString × QString) → QString
  cell_in none = []
  cell_in (some c) = c.1

  abbrev pub title_in : Option (QString × QString) → Variant
  title_in none = no_value
  title_in (some c) = text c.0

  signal_text-row_of :
      (column : ℕ) (signal : CanSignal F)
      → signal_text format arg trimmed column signal ≡ cell_in (get_elem? (row_of signal) column)
  signal_text-row_of zero signal = refl
  signal_text-row_of (suc zero) signal = refl
  signal_text-row_of (suc (suc zero)) signal = refl
  signal_text-row_of (suc (suc (suc zero))) signal = refl
  signal_text-row_of (suc (suc (suc (suc zero)))) signal = refl
  signal_text-row_of (suc (suc (suc (suc (suc zero))))) signal = refl
  signal_text-row_of (suc (suc (suc (suc (suc (suc zero)))))) signal = refl
  signal_text-row_of (suc (suc (suc (suc (suc (suc (suc zero))))))) signal = refl
  signal_text-row_of (suc (suc (suc (suc (suc (suc (suc (suc zero)))))))) signal = refl
  signal_text-row_of (suc (suc (suc (suc (suc (suc (suc (suc (suc zero))))))))) signal = refl
  signal_text-row_of (suc (suc (suc (suc (suc (suc (suc (suc (suc (suc zero)))))))))) signal = refl
  signal_text-row_of (suc (suc (suc (suc (suc (suc (suc (suc (suc (suc (suc n))))))))))) signal =
      ground arith

  signal_header-row_of :
      (column : ℕ) (signal : CanSignal F)
      → signal_header (pos column) horizontal display_role
        ≡ ok (title_in (get_elem? (row_of signal) column))
  unfolding signal_header
  signal_header-row_of zero signal = refl
  signal_header-row_of (suc zero) signal = refl
  signal_header-row_of (suc (suc zero)) signal = refl
  signal_header-row_of (suc (suc (suc zero))) signal = refl
  signal_header-row_of (suc (suc (suc (suc zero)))) signal = refl
  signal_header-row_of (suc (suc (suc (suc (suc zero))))) signal = refl
  signal_header-row_of (suc (suc (suc (suc (suc (suc zero)))))) signal = refl
  signal_header-row_of (suc (suc (suc (suc (suc (suc (suc zero))))))) signal = refl
  signal_header-row_of (suc (suc (suc (suc (suc (suc (suc (suc zero)))))))) signal = refl
  signal_header-row_of (suc (suc (suc (suc (suc (suc (suc (suc (suc zero))))))))) signal = refl
  signal_header-row_of (suc (suc (suc (suc (suc (suc (suc (suc (suc (suc zero)))))))))) signal =
      refl
  signal_header-row_of (suc (suc (suc (suc (suc (suc (suc (suc (suc (suc (suc n))))))))))) signal =
      ground arith

  -- A row of the table is there for each signal of the message that is selected, in their order; each column
  -- shows what its title says, the type below "Type" and the byte order below "Endian"; and behind the
  -- columns that have a title there is no text.
  pub signal_data-row_of :
      (db : CanDb F) (selected : ℕ) (msg : CanMessage F) (row column : ℕ)
      → get_elem? db selected ≡ some msg
      → row < length msg.can_signals
      → (signal_rows db (pos selected) ≡ ok (length msg.can_signals))
        × (signal : CanSignal F) × (get_elem? msg.can_signals row ≡ some signal)
        × (signal_data format arg trimmed db (pos selected) display_role (some row) column
            ≡ ok (text (cell_in (get_elem? (row_of signal) column))))
        × (signal_header (pos column) horizontal display_role
            ≡ ok (title_in (get_elem? (row_of signal) column)))
  unfolding signal_data signal_rows signal_count
  signal_data-row_of db selected msg row column e lt =
      let (signal, found) = get_elem?-some msg.can_signals row lt in
      (
        rw e refl,
        signal,
        found,
        rw (e, found) (ap (λ t. ok (text t)) (signal_text-row_of column signal)),
        signal_header-row_of column signal,
      )
