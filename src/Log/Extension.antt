-- ===== src/Log/Extension.antt =====
-- The extension of a file name, and the parser that it chooses.
use can_tracer.Prelude.{
  ℕ, suc, ◌+◌, ◌≡◌, ◌≢◌, refl, Option, none, some, List, [], ◌∷◌, ◌++◌, arith, length, drop,
  length-append, All, ltb, if◌then◌else◌,
}
use can_tracer.Prelude.Outcome.{Outcome, fault, bad_access}
use can_tracer.Qt.{QString, codes, Double, Text, DataStream, QByteArray}
use can_tracer.Can.{CanLogMsg}
use can_tracer.Blf
use can_tracer.Log.{trc, asc, get_extension, parse_file, parse}

abbrev pub NoDot : QString → Type 0
NoDot = All (λ c. c ≢ b'.')

module _ {F : Type 0} (text : Text F) where
  -- What the code relies on in lastIndexOf: it gives the position of the last dot, if there is one.
  pub record FindsLastDot : Type 0 where
    pub last_dot :
        (stem ext : QString)
        → NoDot ext
        → text.last_index_of (stem ++ b'.' ∷ ext) b'.' ≡ some (length stem)
    pub no_dot : (name : QString) → NoDot name → text.last_index_of name b'.' ≡ none

drop-append_cons : (stem ext : QString) (c : ℕ) → drop (suc (length stem)) (stem ++ c ∷ ext) ≡ ext
drop-append_cons [] ext c = refl
drop-append_cons (x ∷ stem) ext c = drop-append_cons stem ext c

module _ {F : Type 0} ⦃d : Double F⦄ (text : Text F) (dots : FindsLastDot text) where
  get_extension-dot :
      (stem ext : QString) → NoDot ext → get_extension text (stem ++ b'.' ∷ ext) ≡ ext
  unfolding get_extension
  get_extension-dot stem ext h =
      let one : length stem + 1 ≡ suc (length stem) = omega arith in
      rw (dots.last_dot stem ext h, get_extension)
        (rw (one, drop-append_cons stem ext b'.') (last_char ext (length-append stem (b'.' ∷ ext))))
    where
      last_char :
          (ext : QString) {n : ℕ}
          → n ≡ length stem + suc (length ext)
          → (if ltb (suc (length stem)) n then ext else []) ≡ ext
      last_char [] e = ground arith
      last_char (c ∷ cs) e = ground arith

  get_extension-NoDot : (name : QString) → NoDot name → get_extension text name ≡ []
  unfolding get_extension
  get_extension-NoDot name h = rw (dots.no_dot name h, get_extension)

  module _ {S : Type 0} (stream : DataStream S) (index_of : QByteArray → ℕ → Option ℕ)
      (uncompress : QByteArray → QByteArray) (fuel : ℕ)
      (text_file : QString → Option (List QString)) (binary_file : QString → Option S) where
    -- The parser of a name whose extension is `ext`.
    abbrev pub by_extension : QString → QString → Outcome (List (CanLogMsg F))
    by_extension ext name =
        if text.same_ci ext (codes "asc")
        then parse_file text stream index_of uncompress fuel text_file binary_file (asc 0) name
        else if text.same_ci ext (codes "trc")
        then parse_file text stream index_of uncompress fuel text_file binary_file trc name
        else if text.same_ci ext (codes "blf")
        then Blf.parse stream index_of uncompress fuel (binary_file name)
        else fault bad_access

    -- If lastIndexOf finds the last dot, the parser is chosen by what follows the last dot, whatever
    -- stands before it, and a name with no dot has the empty extension; a name that has none of the three
    -- extensions is parsed through a null pointer.
    pub parse-by_extension :
        (stem ext : QString)
        → NoDot ext
        → (parse text stream index_of uncompress fuel text_file binary_file (stem ++ b'.' ∷ ext)
            ≡ by_extension ext (stem ++ b'.' ∷ ext))
          × (parse text stream index_of uncompress fuel text_file binary_file ext
              ≡ by_extension [] ext)
    unfolding parse
    parse-by_extension stem ext h =
        (rw (get_extension-dot stem ext h), rw (get_extension-NoDot ext h))
