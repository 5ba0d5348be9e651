-- ===== src/Log/Lines.antt =====
-- The messages that the text parsers accept.
use mathlib.Core.Path.{subst}
use can_tracer.Prelude.{
  ℕ, zero, suc, ◌+◌, ◌%◌, ◌^◌, ◌≤◌, ◌<◌, ◌≡◌, refl, ap, true, Option, none, some, List, [], ◌∷◌,
  ◌++◌, arith, length, drop, length-append, length-drop, All, All-append, ltb, ◌==◌, if◌then◌else◌,
  Bool-cases, Option-cases, inl, inr,
}
use can_tracer.Prelude.Outcome.{
  ok, fault, bad_access, ◌>>=◌, Ensures, ensured, failed, value_of_Ensures, Ensures->>=,
  Ensures-mono,
}
use can_tracer.Qt.{QString, codes, str_eq, str_eq_iff, Double, Text}
use can_tracer.Can.{CanLogMsg, CanData, rx, tx, set_dir}
use can_tracer.Can.Logged.{IsData, IsNumbered}
use can_tracer.Log.{
  copy_data, Driver, trc, asc, with_data, with_frame, trc_pattern, asc_pattern, trc_values,
  parse_trc_line, asc_values, parse_asc_line, parse_line, keep, parse_text,
}

module _ {F : Type 0} where
  -- The call always succeeds. The direction is transmit for the text Rx, and receive for every other
  -- text, Tx among them.
  pub set_dir_lem :
      (msg : CanLogMsg F) (str : QString)
      → set_dir msg str ≡ (record msg { dir = if str_eq str (codes "Rx") then tx else rx }, true)
  unfolding set_dir
  set_dir_lem msg str = elim (Bool-cases (str_eq str (codes "Rx"))) [
    | inl e ↦ let same = (str_eq_iff str (codes "Rx")).0 e in rw same
    | inr e ↦ rw e
  ]

  -- A message with a payload of eight bytes and a length that fits it.
  pub record IsFrame (m : CanLogMsg F) : Type 0 where
    pub payload : IsData m.bytes
    pub dlc_le : m.dlc ≤ 8

drop-bytes : (n : ℕ) (bs : CanData) → All (λ b. b < 256) bs → All (λ b. b < 256) (drop n bs)
drop-bytes zero bs h = h
drop-bytes (suc n) [] h = h
drop-bytes (suc n) (b ∷ bs) h = drop-bytes n bs h.1

copy_data-IsData :
    (src dst : CanData) → All (λ b. b < 256) src → IsData dst → Ensures IsData (copy_data src dst)
unfolding copy_data
copy_data-IsData src dst h v = elim (Bool-cases (ltb (length dst) (length src))) [
  | inl long ↦ rw long failed
  | inr fits ↦ rw fits (
      ensured (record {
        size =
            let le : length src ≤ length dst = ground arith in
            let n : length dst ≡ 8 = v.size in
            omega (arith, length-append src (drop (length src) dst), length-drop (length src) dst);
        bytes = All-append (λ b. b < 256) src _ h (drop-bytes (length src) dst v.bytes);
      }))
]

module _ {F : Type 0} ⦃d : Double F⦄ (text : Text F)
    (hex : (s : QString) → All (λ b. b < 256) (text.from_hex s)) where
  -- A message that a line gives, with the number that the line or the driver has given it.
  abbrev IsAccepted : ℕ → Option (CanLogMsg F) → Type 0
  IsAccepted n none = Unit
  IsAccepted n (some m) = IsFrame m × (m.number ≡ n)

  with_data-IsAccepted :
      (msg : CanLogMsg F) (captured : QString)
      → IsFrame msg
      → Ensures (IsAccepted msg.number) (with_data text msg captured)
  unfolding with_data
  with_data-IsAccepted msg captured h =
      Ensures->>=
        (copy_data-IsData (text.from_hex (text.remove captured (codes " "))) msg.bytes (hex _)
          h.payload)
        (λ bytes v. ensured (record { payload = v; dlc_le = h.dlc_le }, refl))

  with_frame-IsAccepted :
      (msg : CanLogMsg F) (dir : QString) (dlc : ℕ) (captured : QString)
      → IsData msg.bytes
      → Ensures (IsAccepted msg.number) (with_frame text msg dir dlc captured)
  unfolding with_frame
  with_frame-IsAccepted msg dir dlc captured h =
      rw (set_dir_lem msg dir) (elim (Bool-cases (ltb 8 (dlc % 256))) [
        | inl long ↦ rw long (ensured tt)
        | inr fits ↦
            rw fits
              (with_data-IsAccepted _ captured (record { payload = h; dlc_le = ground arith }))
      ])

  pub trc_values-IsData :
      (c : ℕ → QString) (msg : CanLogMsg F) (dlc : ℕ)
      → trc_values text c ≡ some (msg, dlc)
      → IsData msg.bytes
  unfolding trc_values
  trc_values-IsData c msg dlc e = ground arith

  pub asc_values-IsData :
      (number : ℕ) (c : ℕ → QString) (msg : CanLogMsg F) (dlc : ℕ)
      → asc_values text number c ≡ some (msg, dlc)
      → IsData msg.bytes × (msg.number ≡ number)
  unfolding asc_values
  asc_values-IsData number c msg dlc e = ground arith

  abbrev IsFrame? : Option (CanLogMsg F) → Type 0
  IsFrame? none = Unit
  IsFrame? (some m) = IsFrame m

  forget_number : (n : ℕ) (o : Option (CanLogMsg F)) → IsAccepted n o → IsFrame? o
  forget_number n none h = tt
  forget_number n (some m) h = h.0

  parse_trc_line-IsFrame : (line : QString) → Ensures IsFrame? (parse_trc_line text line)
  unfolding parse_trc_line
  parse_trc_line-IsFrame [] = failed
  parse_trc_line-IsFrame (x ∷ xs) = elim (Bool-cases (x == b';')) [
    | inl comment ↦ rw comment (ensured tt)
    | inr other ↦ rw other (elim (Option-cases (text.matches trc_pattern (x ∷ xs))) [
      | inl e ↦ rw e (ensured tt)
      | inr (c, e) ↦ rw e (elim (Option-cases (trc_values text c)) [
        | inl e' ↦ rw e' (ensured tt)
        | inr ((msg, dlc), e') ↦ rw e' (
            Ensures-mono (forget_number msg.number)
              (with_frame-IsAccepted msg (c 3) dlc (c 6) (trc_values-IsData c msg dlc e')))
      ])
    ])
  ]

  parse_asc_line-IsAccepted :
      (number : ℕ) (line : QString) → Ensures (IsAccepted number) (parse_asc_line text number line)
  unfolding parse_asc_line
  parse_asc_line-IsAccepted number line = elim (Option-cases (text.matches asc_pattern line)) [
    | inl e ↦ rw (e, parse_asc_line) (ensured tt)
    | inr (c, e) ↦
        rw (e, parse_asc_line)
          (elim (Option-cases (asc_values text number c)) [
            | inl e' ↦ rw e' (ensured tt)
            | inr ((msg, dlc), e') ↦
                let (v, n) = asc_values-IsData number c msg dlc e' in
                rw (e', ← n) (with_frame-IsAccepted msg (c 4) dlc (c 6) v)
          ])
  ]

  keep-IsFrame :
      (o : Option (CanLogMsg F)) (ms : List (CanLogMsg F))
      → IsFrame? o
      → All IsFrame ms
      → All IsFrame (keep text o ++ ms)
  keep-IsFrame none ms h hs = hs
  keep-IsFrame (some m) ms h hs = (h, hs)

  parse_line-IsFrame :
      (driver : Driver) (line : QString)
      → Ensures (λ (r : Driver × Option (CanLogMsg F)). IsFrame? r.1) (parse_line text driver line)
  unfolding parse_line
  parse_line-IsFrame trc line = Ensures->>= (parse_trc_line-IsFrame line) (λ o h. ensured h)
  parse_line-IsFrame (asc n) line =
      Ensures->>= (parse_asc_line-IsAccepted n line) (λ o h. ensured (forget_number n o h))

  parse_text-IsFrame :
      (driver : Driver) (lines : List QString)
      → Ensures (All IsFrame) (parse_text text driver lines)
  unfolding parse_text
  parse_text-IsFrame driver [] = ensured tt
  parse_text-IsFrame driver (line ∷ lines) = Ensures->>= (parse_line-IsFrame driver line) (λ r h.
      Ensures->>= (parse_text-IsFrame r.0 lines) (λ ms hs. ensured (keep-IsFrame r.1 ms h hs)))

  -- If fromHex gives bytes, then whatever the lines of a text log are, every message that is loaded has a payload of eight bytes
  -- and a dlc of at most 8.
  pub parse_text-frames :
      (driver : Driver) (lines : List QString) (ms : List (CanLogMsg F))
      → parse_text text driver lines ≡ ok ms
      → All IsFrame ms
  parse_text-frames driver lines ms e =
      value_of_Ensures (subst (Ensures (All IsFrame)) e (parse_text-IsFrame driver lines))

  abbrev CountsOn : ℕ → Driver × Option (CanLogMsg F) → Type 0
  CountsOn n (driver, none) = driver ≡ asc (n % 2 ^ 32)
  CountsOn n (driver, some m) = (driver ≡ asc ((n + 1) % 2 ^ 32)) × (m.number ≡ n % 2 ^ 32)

  asc_line-CountsOn :
      (n : ℕ) (line : QString) → Ensures (CountsOn n) (parse_line text (asc (n % 2 ^ 32)) line)
  unfolding parse_line
  asc_line-CountsOn n line =
      Ensures->>= (parse_asc_line-IsAccepted (n % 2 ^ 32) line) λ o h. ensured (counts o h)
    where
      next : (n % 2 ^ 32 + 1) % 2 ^ 32 ≡ (n + 1) % 2 ^ 32
      next = omega arith

      counts :
          (o : Option (CanLogMsg F))
          → IsAccepted (n % 2 ^ 32) o
          → CountsOn n
              (elim o [ none ↦ asc (n % 2 ^ 32) | some m ↦ asc ((n % 2 ^ 32 + 1) % 2 ^ 32) ], o)
      counts none h = refl
      counts (some m) h = (ap asc next, h.1)

  keep-IsNumbered :
      (n : ℕ) (driver : Driver) (o : Option (CanLogMsg F)) (lines : List QString)
      → CountsOn n (driver, o)
      → ((k : ℕ) → Ensures (IsNumbered k) (parse_text text (asc (k % 2 ^ 32)) lines))
      → Ensures (IsNumbered n) (parse_text text driver lines >>= λ ms. ok (keep text o ++ ms))
  keep-IsNumbered n driver none lines h go = rw h (Ensures->>= (go n) (λ ms hs. ensured hs))
  keep-IsNumbered n driver (some m) lines h go =
      rw h.0 (Ensures->>= (go (n + 1)) (λ ms hs. ensured (h.1, hs)))

  asc_text-IsNumbered :
      (lines : List QString) (n : ℕ)
      → Ensures (IsNumbered n) (parse_text text (asc (n % 2 ^ 32)) lines)
  unfolding parse_text
  asc_text-IsNumbered [] n = ensured tt
  asc_text-IsNumbered (line ∷ lines) n =
      Ensures->>= (asc_line-CountsOn n line)
        (λ r h. keep-IsNumbered n r.0 r.1 lines h (asc_text-IsNumbered lines))

  -- If fromHex gives bytes, the messages of an ASC log are numbered from 0 in their order, modulo 2^32: a line that gives no message takes
  -- no number.
  pub parse_text-asc_IsNumbered :
      (lines : List QString) (ms : List (CanLogMsg F))
      → parse_text text (asc 0) lines ≡ ok ms
      → IsNumbered 0 ms
  parse_text-asc_IsNumbered lines ms e =
      value_of_Ensures (subst (Ensures (IsNumbered 0)) e (asc_text-IsNumbered lines 0))

  -- The copy of the data bytes fails exactly for a line with more than eight bytes, which is written
  -- past the end of the payload; otherwise the bytes stand at its start, the rest is as before.
  pub with_data-overflow :
      (msg : CanLogMsg F) (captured : QString)
      → IsData msg.bytes
      → let src = text.from_hex (text.remove captured (codes " ")) in
        with_data text msg captured ≡ (
          if ltb 8 (length src)
          then fault bad_access
          else ok (some (record msg { bytes = src ++ drop (length src) msg.bytes })))
  unfolding with_data copy_data
  with_data-overflow msg captured v = rw v.size (ground arith)
