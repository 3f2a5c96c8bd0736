-- ===== src/Logs/Parsing/Lines.antt =====
-- A line of the text format is read as it was written, and the last lines of a file as entries.
use wftpd_linux.Base.{
  subst, text, not, ℕ, zero, suc, ◌≡◌, refl, sym, ap, ◌∙◌, Bool, true, false, ◌&&◌, none, some,
  Text, [], ◌∷◌, ◌++◌, append_assoc, is_empty, is_whitespace, trim, trim_start, ◌==◌, All, arith,
}
use mathlib.Core.List.{reverse, reverse-append, reverse-reverse}
use wftpd_linux.Logs.LogBuffer.{LogEntryJson}
use wftpd_linux.Logs.Parsing.{
  Json, before, split_char, split_colon, parse_text_line, object_of, parse_program_line,
}

and_false : (b : Bool) → (b && false) ≡ false
and_false true = refl
and_false false = refl

-- A word holds no whitespace.
abbrev pub IsDark : ℕ → Type 0
IsDark c = is_whitespace c ≡ false

abbrev pub IsWord : Text → Type 0
IsWord [] = ⊥
IsWord (c ∷ s) = All IsDark (c ∷ s)

abbrev pub is_dark : Text → Bool
is_dark [] = true
is_dark (c ∷ s) = not (is_whitespace c) && is_dark s

is_dark-All : (s : Text) → is_dark s ≡ true → All IsDark s
is_dark-All [] h = tt
is_dark-All (c ∷ s) h = (ground arith, is_dark-All s (ground arith))

-- The test of a word.
abbrev pub is_word : Text → Bool
is_word [] = false
is_word (c ∷ s) = is_dark (c ∷ s)

pub is_word-IsWord : (s : Text) → is_word s ≡ true → IsWord s
is_word-IsWord [] h = absurd cc
is_word-IsWord (c ∷ s) h = is_dark-All (c ∷ s) h

abbrev spaces : ℕ → Text
spaces zero = []
spaces (suc n) = b' ' ∷ spaces n

dark-space : (c : ℕ) → IsDark c → (c == b' ') ≡ false
unfolding is_whitespace
dark-space c h = ground arith

trim_start-dark : (c : ℕ) (s : Text) → IsDark c → trim_start (c ∷ s) ≡ c ∷ s
unfolding trim_start
trim_start-dark c s h = rw h refl

trim_start-word : (s t : Text) → IsWord s → trim_start (s ++ t) ≡ s ++ t
trim_start-word [] t h = absurd h
trim_start-word (c ∷ s) t h = trim_start-dark c (s ++ t) h.0

trim_start-spaces : (n : ℕ) (s : Text) → trim_start (spaces n ++ s) ≡ trim_start s
unfolding trim_start is_whitespace
trim_start-spaces zero s = refl
trim_start-spaces (suc n) s = trim_start-spaces n s

-- A text with a word in front and no whitespace at its end is left as it is.
trim-dark :
    (c d : ℕ) (s : Text) → IsDark c → IsDark d → trim (c ∷ (s ++ d ∷ [])) ≡ c ∷ (s ++ d ∷ [])
unfolding trim
trim-dark c d s hc hd =
    ap (λ t. reverse (trim_start (reverse t))) (trim_start-dark c (s ++ d ∷ []) hc)
    ∙ ap (λ t. reverse (trim_start t)) (reverse-append (c ∷ s) (d ∷ []))
    ∙ ap reverse (trim_start-dark d (reverse (c ∷ s)) hd)
    ∙ ap reverse (sym (reverse-append (c ∷ s) (d ∷ [])))
    ∙ reverse-reverse (c ∷ (s ++ d ∷ []))

split_char-space : (s t : Text) → All IsDark s → split_char b' ' (s ++ b' ' ∷ t) ≡ some (s, t)
unfolding split_char
split_char-space [] t h = refl
split_char-space (c ∷ s) t h = rw (dark-space c h.0) (ap (before c) (split_char-space s t h.1))

split_colon-space : (s t : Text) → All IsDark s → split_colon (s ++ b':' ∷ b' ' ∷ t) ≡ some (s, t)
unfolding split_colon
split_colon-space [] t h = refl
split_colon-space (c ∷ []) t h = rw (and_false (c == b':')) refl
split_colon-space (c ∷ d ∷ s) t h =
    rw (dark-space d h.1.0, and_false (c == b':')) (ap (before c) (split_colon-space (d ∷ s) t h.1))

-- A line as the layer of the program log formats an event outside of spans, in the format of the
-- library tracing_subscriber with the target and the line number: the level is padded on the left.
abbrev text_line_of : Text → ℕ → Text → Text → Text → Text
text_line_of timestamp padding level source rest =
    timestamp ++ b' ' ∷ (spaces padding ++ (level ++ b' ' ∷ (source ++ b':' ∷ b' ' ∷ rest)))

-- The line number and the message.
abbrev pub numbered : Text → Text → Text
numbered line message = line ++ text ": " ++ message

abbrev pub text_line : Text → ℕ → Text → Text → Text → Text → Text
text_line timestamp padding level source line message =
    text_line_of timestamp padding level source (numbered line message)

abbrev pub entry_of_line : Text → Text → Text → Text → LogEntryJson
entry_of_line timestamp level source message = record {
  timestamp = timestamp;
  level = level;
  source = source;
  message = message;
  client_ip = none;
  username = none;
  action = none;
}

word-All : (s : Text) → IsWord s → All IsDark s
word-All [] h = absurd h
word-All (c ∷ s) h = h

parse_text_line-text_line_of :
    (timestamp : Text) (padding : ℕ) (level source message : Text)
    → IsWord timestamp
    → IsWord level
    → IsWord source
    → parse_text_line (text_line_of timestamp padding level source message)
      ≡ some (entry_of_line timestamp level source message)
unfolding parse_text_line
parse_text_line-text_line_of timestamp padding level source message ht hl hs =
    let tail = source ++ b':' ∷ b' ' ∷ message in
    let middle = level ++ b' ' ∷ tail in
    let first = split_char-space timestamp (spaces padding ++ middle) (word-All timestamp ht) in
    let unpadded = trim_start-spaces padding middle ∙ trim_start-word level (b' ' ∷ tail) hl in
    let second = split_char-space level tail (word-All level hl) in
    let flush = trim_start-word source (b':' ∷ b' ' ∷ message) hs in
    let third = split_colon-space source message (word-All source hs) in
    rw (first, unpadded, second, flush, third) refl

text_line_of-append :
    (timestamp : Text) (padding : ℕ) (level source message more : Text)
    → text_line_of timestamp padding level source (message ++ more)
      ≡ text_line_of timestamp padding level source message ++ more
text_line_of-append timestamp padding level source message more = simp (
  append_assoc timestamp _ more,
  append_assoc (spaces padding) _ more,
  append_assoc level _ more,
  append_assoc source _ more,
)

trim-text_line_of :
    (timestamp : Text) (padding : ℕ) (level source message : Text) (d : ℕ)
    → IsWord timestamp
    → IsDark d
    → trim (text_line_of timestamp padding level source (message ++ d ∷ []))
      ≡ text_line_of timestamp padding level source (message ++ d ∷ [])
trim-text_line_of [] padding level source message d ht hd = absurd ht
trim-text_line_of (c ∷ timestamp) padding level source message d ht hd =
    let shape = text_line_of-append (c ∷ timestamp) padding level source message (d ∷ []) in
    ap trim shape ∙ trim-dark c d _ ht.0 hd ∙ sym shape

not_empty :
    (timestamp : Text) (padding : ℕ) (level source message : Text)
    → IsWord timestamp
    → is_empty (text_line_of timestamp padding level source message) ≡ false
not_empty [] padding level source message ht = absurd ht
not_empty (c ∷ timestamp) padding level source message ht = refl

module _ (J : Json) where
  parse_program_line-text_line_of :
      (timestamp : Text) (padding : ℕ) (level source rest : Text) (d : ℕ)
      → IsWord timestamp
      → IsWord level
      → IsWord source
      → IsDark d
      → object_of J (J.from_str (text_line_of timestamp padding level source (rest ++ d ∷ [])))
        ≡ none
      → parse_program_line J (text_line_of timestamp padding level source (rest ++ d ∷ []))
        ≡ some (entry_of_line timestamp level source (rest ++ d ∷ []))
  unfolding parse_program_line
  parse_program_line-text_line_of timestamp padding level source rest d ht hl hs hd no_object =
      let whole = trim-text_line_of timestamp padding level source rest d ht hd in
      let some_line = not_empty timestamp padding level source (rest ++ d ∷ []) ht in
      rw (whole, some_line, no_object)
        (parse_text_line-text_line_of timestamp padding level source (rest ++ d ∷ []) ht hl hs)

  -- A line of the program log in the text format, whose time, level and source are words, and whose
  -- message is not empty and does not end in whitespace, is read as an entry of this time, level
  -- and source, however the level is padded, unless the line happens to be a JSON object; the
  -- message of the entry is the one that was written with the line number of the source in front of
  -- it.
  pub parse_program_line-text_line :
      (timestamp : Text) (padding : ℕ) (level source line message : Text) (d : ℕ)
      → IsWord timestamp
      → IsWord level
      → IsWord source
      → IsDark d
      → object_of J (J.from_str (text_line timestamp padding level source line (message ++ d ∷ [])))
        ≡ none
      → parse_program_line J (text_line timestamp padding level source line (message ++ d ∷ []))
        ≡ some (entry_of_line timestamp level source (numbered line (message ++ d ∷ [])))
  parse_program_line-text_line timestamp padding level source line message d ht hl hs hd no_object =
      let shape : numbered line (message ++ d ∷ []) ≡ numbered line message ++ d ∷ [] =
        sym (append_assoc (line ++ text ": ") message (d ∷ [])) in
      subst
        (λ s.
          object_of J (J.from_str (text_line_of timestamp padding level source s)) ≡ none
          → parse_program_line J (text_line_of timestamp padding level source s)
            ≡ some (entry_of_line timestamp level source s))
        (sym shape)
        (parse_program_line-text_line_of timestamp padding level source (numbered line message) d ht
          hl hs hd)
        no_object
