-- ===== src/Log/Total.antt =====
-- Which text logs are read to the end.
use can_tracer.Prelude.{
  ℕ, ◌≤◌, ◌<◌, ◌%◌, ◌≡◌, ◌≢◌, refl, none, some, List, [], ◌∷◌, arith, length, All, ltb, ◌==◌,
  Bool-cases, Option-cases, inl, inr, ◌∙◌,
}
use can_tracer.Prelude.Outcome.{ok, failure, failure-map, failure_then, ok_of_failure}
use can_tracer.Qt.{QString, codes, Double, Text}
use can_tracer.Can.{CanLogMsg}
use can_tracer.Can.Logged.{IsData}
use can_tracer.Log.{
  Driver, trc, asc, with_frame, with_data, trc_pattern, asc_pattern, trc_values, asc_values,
  parse_trc_line, parse_asc_line, parse_line, parse_text,
}
use can_tracer.Log.Lines.{
  IsFrame, set_dir_lem, with_data-overflow, trc_values-IsData, asc_values-IsData, parse_text-frames,
}

module _ {F : Type 0} ⦃d : Double F⦄ (text : Text F)
    (hex : (s : QString) → All (λ b. b < 256) (text.from_hex s)) where
  -- A line that is not empty, and whose data bytes, if it matches one of the two patterns, are at most
  -- eight.
  pub record IsReadable (line : QString) : Type 0 where
    pub filled : line ≢ []
    pub trc_short :
        (c : ℕ → QString)
        → text.matches trc_pattern line ≡ some c
        → length (text.from_hex (text.remove (c 6) (codes " "))) ≤ 8
    pub asc_short :
        (c : ℕ → QString)
        → text.matches asc_pattern line ≡ some c
        → length (text.from_hex (text.remove (c 6) (codes " "))) ≤ 8

  with_data_total :
      (msg : CanLogMsg F) (captured : QString)
      → IsData msg.bytes
      → length (text.from_hex (text.remove captured (codes " "))) ≤ 8
      → failure (with_data text msg captured) ≡ none
  with_data_total msg captured v short =
      rw (with_data-overflow text hex msg captured v) (ground (arith, short))

  with_frame_total :
      (msg : CanLogMsg F) (dir : QString) (dlc : ℕ) (captured : QString)
      → IsData msg.bytes
      → length (text.from_hex (text.remove captured (codes " "))) ≤ 8
      → failure (with_frame text msg dir dlc captured) ≡ none
  unfolding with_frame
  with_frame_total msg dir dlc captured v short =
      rw (set_dir_lem msg dir) (elim (Bool-cases (ltb 8 (dlc % 256))) [
        | inl long ↦ rw long refl
        | inr fits ↦ rw fits (with_data_total _ captured v short)
      ])

  parse_trc_line_total :
      (line : QString) → IsReadable line → failure (parse_trc_line text line) ≡ none
  unfolding parse_trc_line
  parse_trc_line_total [] h = absurd (h.filled refl)
  parse_trc_line_total (x ∷ xs) h = elim (Bool-cases (x == b';')) [
    | inl comment ↦ rw comment refl
    | inr other ↦ rw other (elim (Option-cases (text.matches trc_pattern (x ∷ xs))) [
      | inl e ↦ rw e refl
      | inr (c, e) ↦ rw e (elim (Option-cases (trc_values text c)) [
        | inl e' ↦ rw e' refl
        | inr ((msg, dlc), e') ↦ rw e' (
            with_frame_total msg (c 3) dlc (c 6) (trc_values-IsData text hex c msg dlc e')
              (h.trc_short c e))
      ])
    ])
  ]

  parse_asc_line_total :
      (number : ℕ) (line : QString)
      → IsReadable line
      → failure (parse_asc_line text number line) ≡ none
  unfolding parse_asc_line
  parse_asc_line_total number line h = elim (Option-cases (text.matches asc_pattern line)) [
    | inl e ↦ rw (e, parse_asc_line) refl
    | inr (c, e) ↦
        rw (e, parse_asc_line)
          (elim (Option-cases (asc_values text number c)) [
            | inl e' ↦ rw e' refl
            | inr ((msg, dlc), e') ↦ rw e' (
                with_frame_total msg (c 4) dlc (c 6)
                  (asc_values-IsData text hex number c msg dlc e').0 (h.asc_short c e))
          ])
  ]

  parse_line_total :
      (driver : Driver) (line : QString)
      → IsReadable line
      → failure (parse_line text driver line) ≡ none
  unfolding parse_line
  parse_line_total trc line h =
      failure-map (parse_trc_line text line) _ ∙ parse_trc_line_total line h
  parse_line_total (asc n) line h =
      failure-map (parse_asc_line text n line) _ ∙ parse_asc_line_total n line h

  no_failure :
      (driver : Driver) (lines : List QString)
      → All IsReadable lines
      → failure (parse_text text driver lines) ≡ none
  unfolding parse_text
  no_failure driver [] h = refl
  no_failure driver (line ∷ lines) h =
      failure_then (parse_line text driver line) _ (parse_line_total driver line h.0)
        (λ r. failure-map (parse_text text r.0 lines) _ ∙ no_failure r.0 lines h.1)

  -- If fromHex gives bytes: a text log whose lines are not empty, and have at most eight data bytes where
  -- they match a pattern, is read to its end, and every message that is loaded has a payload of eight
  -- bytes and a dlc of at most 8.
  pub parse_text_total :
      (driver : Driver) (lines : List QString)
      → All IsReadable lines
      → (ms : List (CanLogMsg F)) × (parse_text text driver lines ≡ ok ms) × All IsFrame ms
  parse_text_total driver lines h =
      let (ms, e) = ok_of_failure (parse_text text driver lines) (no_failure driver lines h) in
      (ms, e, parse_text-frames text hex driver lines ms e)
