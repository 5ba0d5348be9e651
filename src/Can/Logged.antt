-- ===== src/Can/Logged.antt =====
-- What the log entries of every parser look like: the payload has eight bytes, and the numbers count.
use can_tracer.Prelude.{ℕ, ◌+◌, ◌%◌, ◌^◌, ◌<◌, ◌≡◌, List, [], ◌∷◌, ◌++◌, arith, length, All}
use can_tracer.Can.{CanLogMsg, CanData}

-- The payload is a std::array<uint8_t, 8>.
pub record IsData (input : CanData) : Type 0 where
  pub size : length input ≡ 8
  pub bytes : All (λ b. b < 256) input

module _ {F : Type 0} where
  -- The messages are numbered from `n` on, modulo 2^32.
  abbrev pub IsNumbered : ℕ → List (CanLogMsg F) → Type 0
  IsNumbered n [] = Unit
  IsNumbered n (m ∷ ms) = (m.number ≡ n % 2 ^ 32) × IsNumbered (n + 1) ms

  pub IsNumbered-append :
      (n : ℕ) (ms : List (CanLogMsg F)) (m : CanLogMsg F)
      → IsNumbered n ms
      → m.number ≡ (n + length ms) % 2 ^ 32
      → IsNumbered n (ms ++ (m ∷ []))
  IsNumbered-append n [] m h e = (omega arith, tt)
  IsNumbered-append n (x ∷ ms) m h e = (h.0, IsNumbered-append (n + 1) ms m h.1 (omega arith))
