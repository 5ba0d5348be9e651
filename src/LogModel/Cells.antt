-- ===== src/LogModel/Cells.antt =====
-- The cells of the table: which indices are handed out, and which of them cannot be shown.
use can_tracer.Prelude.{
  ℕ, zero, suc, ◌≤◌, ◌<◌, ◌≡◌, ◌∙◌, false, ◌&&◌, ◌||◌, Option, none, some, List, [], ◌∷◌, ltb, leb,
  ◌==◌, if◌then◌else◌, length, get_elem?, arith, Bool-cases, inl, inr,
}
use can_tracer.Prelude.Outcome.{ok, bad_access, failure, failure-map, ◌>>=◌}
use can_tracer.Qt.{QString, Double}
use can_tracer.Can.{CanLogMsg, CanSignal, CanMessage, CanDb, find_message, signal_count, display}
use can_tracer.Can.Logged.{IsData}
use can_tracer.Signal.{parse_signal}
use can_tracer.LogModel.{
  entry, below, Format, row_count, index, data_text, entry_text, signal_text, display_row_data,
  display_data,
}

in_range {ℓ} :
    {A : Type ℓ} (xs : List A) (i : ℕ) {a : A} → get_elem? xs i ≡ some a → leb (length xs) i ≡ false
in_range [] i e = cc
in_range (x ∷ xs) zero e = ground arith
in_range (x ∷ xs) (suc i) e = ground (arith, in_range xs i e)

module _ {F : Type 0} ⦃d : Double F⦄ (format : Format F) (buffer : List (CanLogMsg F))
    (db : CanDb F) where
  data_text-failure :
      (n : ℕ) (bytes : List ℕ)
      → failure (data_text format buffer db n bytes)
        ≡ (if ltb (length bytes) n then some bad_access else none)
  unfolding data_text
  data_text-failure zero bytes = ground arith
  data_text-failure (suc n) [] = ground arith
  data_text-failure (suc n) (b ∷ bs) =
      failure-map (data_text format buffer db n bs) _ ∙ data_text-failure n bs ∙ ground arith

  entry_text-failure :
      (column : ℕ) (m : CanLogMsg F)
      → IsData m.bytes
      → failure (entry_text format buffer db column m)
        ≡ (if column == 6 && ltb 8 m.dlc then some bad_access else none)
  unfolding entry_text
  entry_text-failure column m v =
      let shown : failure (data_text format buffer db m.dlc m.bytes >>= λ text. ok (some text))
          ≡ (if ltb 8 m.dlc then some bad_access else none) =
        failure-map (data_text format buffer db m.dlc m.bytes) some
        ∙ rw v.size at (data_text-failure m.dlc m.bytes) in
      ground (arith, shown)

  -- The cell of an entry with a payload of eight bytes is shown, but for its data where the dlc is above
  -- 8: then what follows the payload is read.
  pub display_data-entry :
      (row column : ℕ) (m : CanLogMsg F)
      → get_elem? buffer row ≡ some m
      → IsData m.bytes
      → failure (display_data format buffer db (entry row column))
        ≡ (if column == 6 && ltb 8 m.dlc then some bad_access else none)
  unfolding display_data display_row_data
  display_data-entry row column m e v =
      rw (in_range buffer row e, e) (entry_text-failure column m v)

  signal_text-failure :
      (column : ℕ) (signal : CanSignal F) (m : CanLogMsg F)
      → failure (signal_text format buffer db column signal m)
        ≡ (if column == 2 || column == 3 then failure (parse_signal signal m.bytes m.dlc) else none)
  unfolding signal_text
  signal_text-failure column signal m =
      let decoded = parse_signal signal m.bytes m.dlc in
      let shown : (f : F → Option QString) → failure (decoded >>= λ v. ok (f v)) ≡ failure decoded =
        λ f. failure-map decoded f in
      ground (
        arith,
        shown (λ v. some (format.general v)),
        shown (λ v. some (display format.general signal v)),
      )

  -- Below an entry whose message is known each signal has an index. Where the log has no entry of the
  -- signal's number, nothing is shown for it; elsewhere the cell fails only with the decoding of the
  -- signal, which the columns 2 and 3 need.
  pub display_data-below :
      (row column p c : ℕ) (m : CanLogMsg F) (msg : CanMessage F) (signal : CanSignal F)
      → get_elem? buffer p ≡ some m
      → find_message db m.id ≡ some msg
      → get_elem? msg.can_signals row ≡ some signal
      → column < 7
      → (index format buffer db row column (entry p c) ≡ ok (below row column p))
        × (failure (display_data format buffer db (below row column p)) ≡ (
            if ltb row (length buffer) && (column == 2 || column == 3)
            then failure (parse_signal signal m.bytes m.dlc)
            else none))
        × (length buffer ≤ row → display_data format buffer db (below row column p) ≡ ok none)
  unfolding index row_count signal_count display_data display_row_data
  display_data-below row column p c m msg signal e f g lt = (
    rw (e, f) (ground (arith, f, in_range msg.can_signals row g, lt)),
    elim (Bool-cases (leb (length buffer) row)) [
      | inl u ↦ rw u (ground (arith, u))
      | inr u ↦ rw (u, e, f, g) (signal_text-failure column signal m ∙ ground (arith, u))
    ],
    λ le. ground (arith, le),
  )
