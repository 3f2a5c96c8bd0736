-- ===== src/Logs/Tail.antt =====
-- The reading of the last lines of a log file (`tail_lines` of wftpd/src/logs.rs).
use wftpd_linux.Base.{
  ℕ, ◌⊎◌, inl, inr, ◌-◌, ◌*◌, ◌%◌, ◌^◌, ◌≤◌, ◌<◌, ◌≡◌, refl, sym, ap, ◌∙◌, true, false, Option,
  none, some, Text, ltb, if◌then◌else◌, List, [], ◌∷◌, ◌++◌, length, drop, last_n, last_n-last_n,
  last_n-min, le-cases, last_n-short, length-last_n, append_assoc, append-nil, arith,
}

-- `lines.push(line)`, and the drain when more than twice the wanted lines are held.
unfoldable pub push_line : ℕ → List Text → Text → List Text
push_line count lines line =
    let lines = lines ++ line ∷ [] in
    if ltb (count * 2 % 2 ^ 64) (length lines) then drop (length lines - count) lines else lines

unfoldable pub push_lines : ℕ → List Text → List Text → List Text
push_lines count lines [] = lines
push_lines count lines (line ∷ file) = push_lines count (push_line count lines line) file

-- `tail_lines`, of the lines of the file that could be read, if it could be opened.
unfoldable pub tail_lines : Option (List Text) → ℕ → List Text
tail_lines none count = []
tail_lines (some file) count =
    let lines = push_lines count [] file in
    if ltb count (length lines) then drop (length lines - count) lines else lines

-- What the drain leaves.
drain-cases :
    (count n : ℕ)
    → count < 2 ^ 63
    → ((count * 2 < n) × (ltb (count * 2 % 2 ^ 64) n ≡ true))
      ⊎ ((n ≤ count * 2) × (ltb (count * 2 % 2 ^ 64) n ≡ false))
drain-cases count n small = ground arith

drained : (count : ℕ) (lines : List Text) → drop (length lines - count) lines ≡ last_n count lines
unfolding last_n
drained count lines = refl

-- The drain of one step changes none of the last lines, and leaves at most twice as many.
push_line-last :
    (count : ℕ) (lines : List Text) (line : Text)
    → count < 2 ^ 63
    → (last_n count (push_line count lines line) ≡ last_n count (lines ++ line ∷ []))
      × (length (push_line count lines line) ≤ count * 2)
unfolding push_line
push_line-last count lines line small =
    let all = lines ++ line ∷ [] in
    elim (drain-cases count (length all) small) [
      | inl (long, tested) ↦
          let measure = length-last_n count all in
          rw tested (
            rw (drained count all)
              (last_n-min count count all ∙ ap (λ n. last_n n all) (ground arith), omega arith))
      | inr (short, tested) ↦ rw tested (refl, short)
    ]

is_short : (n count : ℕ) → n ≤ count → ltb count n ≡ false
is_short n count h = ground arith

is_long : (n count : ℕ) → count < n → ltb count n ≡ true
is_long n count h = ground arith

-- The lines held are at most twice those wanted, and the last of them are the last of the file.
push_lines-last :
    (file : List Text) (count : ℕ) (lines : List Text)
    → count < 2 ^ 63
    → length lines ≤ count * 2
    → (last_n count (push_lines count lines file) ≡ last_n count (lines ++ file))
      × (length (push_lines count lines file) ≤ count * 2)
unfolding push_lines
push_lines-last [] count lines small bound = (ap (last_n count) (sym (append-nil lines)), bound)
push_lines-last (line ∷ file) count lines small bound =
    let (same, short) = push_line-last count lines line small in
    let (rest, fits) = push_lines-last file count (push_line count lines line) small short in
    (
      rest
          ∙ sym (last_n-last_n count count (push_line count lines line) file (omega arith))
          ∙ ap (λ zs. last_n count (zs ++ file)) same
          ∙ last_n-last_n count count (lines ++ line ∷ []) file (omega arith)
          ∙ ap (last_n count) (append_assoc lines (line ∷ []) file),
      fits,
    )

-- The lines read are the last of the file, as many as were asked for, in their order, and all of a
-- shorter file. A file that cannot be opened has none.
pub tail_lines-last :
    (file : List Text) (count : ℕ)
    → count < 2 ^ 63
    → (tail_lines (some file) count ≡ last_n count file) × (tail_lines none count ≡ [])
unfolding tail_lines
tail_lines-last file count small =
    let (same, fits) = push_lines-last file count [] small (omega arith) in
    (
      elim (le-cases (length (push_lines count [] file)) count) [
        | inl short ↦ rw (is_short _ _ short) (sym (last_n-short count _ short) ∙ same)
        | inr long ↦ rw (is_long _ _ long) (drained count _ ∙ same)
      ],
      refl,
    )
