-- ===== src/Sftp/Extended/Reading.antt =====
-- The loop of `digest_file` (sftp/src/ops/extended.rs) against a file that is read in pieces of
-- any size.
use wftpd_linux.Base.{
  ℕ, zero, suc, ◌+◌, ◌-◌, ◌≤◌, ◌<◌, ◌≡◌, refl, sym, ap, ◌∙◌, inl, inr, true, false, Option, some,
  List, [], ◌∷◌, ◌++◌, length, take, drop, take-drop, drop-drop, take-more, take-nil, drop-short,
  length-take, length-drop, le-cases, ◌==◌, Bool-cases, if◌then◌else◌, arith,
}
use wftpd_linux.Outcome.{ok}
use wftpd_linux.Os.{
  Effect, Reply, Prog, ret, call, bind, IoResult, open_file, seek, read_file, close_file,
}
use wftpd_linux.Os.Run.{run}
use wftpd_linux.Paths.{PathBuf}
use wftpd_linux.Sftp.Extended.{
  Hash, Digest, want, reading, after_read, digest_loop, digest_file, digest_of, digest_at, hex_of,
}

-- The part of a file that a request names: a length of 0 stands for all that follows.
unfoldable pub slice : ℕ → ℕ → List ℕ → List ℕ
slice offset len content = if len == 0 then drop offset content else take len (drop offset content)

-- What the library digest says of its hash functions: they do not see how a message is cut.
pub record IsIncremental (H : Hash) : Type 0 where
  pub update-nil : (h : H.Hasher) → H.update h [] ≡ h
  pub update-append :
      (h : H.Hasher) (xs ys : List ℕ) → H.update h (xs ++ ys) ≡ H.update (H.update h xs) ys

-- A world in which a descriptor stands for a file with this content: a read of at least one byte
-- gives some of the bytes at the position, as many as it likes, and none at the end only.
pub record Serves {W : Type 0} (world : W → (e : Effect) → Reply e × W) (fd : ℕ) (content : List ℕ)
    (position : W → ℕ) : Type 0 where
  pub reads :
      (x : W) (k : ℕ)
      → 0 < k
      → position x < length content
      → (n : ℕ) × (0 < n)
        × (n ≤ k)
        × (position x + n ≤ length content)
        × ((world x (read_file fd k)).0 ≡ ok (take n (drop (position x) content)))
        × (position (world x (read_file fd k)).1 ≡ position x + n)
  pub ends : (x : W) (k : ℕ) → length content ≤ position x → (world x (read_file fd k)).0 ≡ ok []
  pub seeks :
      (x : W) (n : ℕ) → ((world x (seek fd n)).0 ≡ ok tt) × (position (world x (seek fd n)).1 ≡ n)

want-pos : (remaining : ℕ) → 0 < want remaining
want-pos remaining = ground arith

want-le : (remaining : ℕ) → 0 < remaining → want remaining ≤ remaining
want-le remaining h = ground arith

slice-end :
    (offset len : ℕ) (content : List ℕ) → length content ≤ offset → slice offset len content ≡ []
unfolding slice
slice-end offset len content h =
    rw (drop-short offset content h)
      (elim (Bool-cases (len == 0)) [ inl all ↦ rw all refl | inr part ↦ rw part (take-nil len) ])

-- What a read takes off the slice.
slice-all :
    (n offset : ℕ) (content : List ℕ)
    → slice offset 0 content ≡ take n (drop offset content) ++ slice (offset + n) 0 content
unfolding slice
slice-all n offset content =
    sym (take-drop n (drop offset content))
    ∙ ap (λ zs. take n (drop offset content) ++ zs) (drop-drop offset n content)

slice-part :
    (n len offset : ℕ) (content : List ℕ)
    → n < len
    → slice offset len content
      ≡ take n (drop offset content) ++ slice (offset + n) (len - n) content
unfolding slice
slice-part n len offset content h =
    let some_asked : (len == 0) ≡ false = ground arith in
    let some_left : ((len - n) == 0) ≡ false = ground arith in
    let sum : n + (len - n) ≡ len = omega arith in
    rw (some_asked, some_left)
      (ap (λ k. take k (drop offset content)) (sym sum)
        ∙ sym (take-more n (len - n) (drop offset content))
        ∙ ap (λ zs. take n (drop offset content) ++ take (len - n) zs) (drop-drop offset n content))

slice-last :
    (len offset : ℕ) (content : List ℕ)
    → 0 < len
    → slice offset len content ≡ take len (drop offset content)
unfolding slice
slice-last len offset content h =
    let some_asked : (len == 0) ≡ false = ground arith in rw some_asked refl

module _ (H : Hash) where
  open H use {Hasher, update}

  -- A read that gave something.
  after_read-some :
      (rest : ℕ → Hasher → Prog (Option (IoResult Hasher))) (remaining : ℕ) (h : Hasher)
      (bytes : List ℕ)
      → 0 < length bytes
      → after_read H rest remaining h (ok bytes) ≡ (
          if remaining == 0
          then rest 0 (update h bytes)
          else if (remaining - length bytes) == 0
          then ret (some (ok (update h bytes)))
          else rest (remaining - length bytes) (update h bytes))
  unfolding after_read
  after_read-some rest remaining h [] pos = absurd (omega arith)
  after_read-some rest remaining h (b ∷ bytes) pos = refl

  module _ {W : Type 0} (world : W → (e : Effect) → Reply e × W) (fd : ℕ) (content : List ℕ)
      (position : W → ℕ) (law : IsIncremental H) (file : Serves world fd content position) where
    -- A read that gave nothing.
    at_end :
        (rest : ℕ → Hasher → Prog (Option (IoResult Hasher))) (offset remaining : ℕ) (h : Hasher)
        (x : W)
        → length content ≤ offset
        → (run world (after_read H rest remaining h (ok [])) x).1
          ≡ some (ok (update h (slice offset remaining content)))
    unfolding run after_read
    at_end rest offset remaining h x over =
        ap (λ s. some (ok s))
          (sym (law.update-nil h) ∙ ap (update h) (sym (slice-end offset remaining content over)))

    pieces :
        (h : Hasher) (piece more whole : List ℕ)
        → whole ≡ piece ++ more
        → ◌≡◌ {A = Option (IoResult Hasher)}
            (some (ok (update (update h piece) more)))
            (some (ok (update h whole)))
    pieces h piece more whole e =
        ap (λ s. some (ok s)) (sym (law.update-append h piece more) ∙ ap (update h) (sym e))

    -- What the last read gave, and what the rest of the loop does with what is left.
    after_piece :
        (rest : ℕ → Hasher → Prog (Option (IoResult Hasher))) (n offset remaining : ℕ) (h : Hasher)
        (x : W)
        → 0 < n
        → n ≤ want remaining
        → offset + n ≤ length content
        → ((left : ℕ) (h' : Hasher)
            → (run world (rest left h') x).1
              ≡ some (ok (update h' (slice (offset + n) left content))))
        → (run world (after_read H rest remaining h (ok (take n (drop offset content)))) x).1
          ≡ some (ok (update h (slice offset remaining content)))
    unfolding run
    after_piece rest n offset remaining h x some_read fits inside follow =
        let piece = take n (drop offset content) in
        let measure : length piece ≡ n =
          omega (arith, length-take n (drop offset content), length-drop offset content) in
        let ended = after_read-some rest remaining h piece (omega arith) in
        let positive : (remaining == 0) ≡ false → 0 < remaining = λ e. ground arith in
        ap (λ m. (run world m x).1) ended ∙ elim (Bool-cases (remaining == 0)) [
          | inl all ↦
              let none_asked : remaining ≡ 0 = ground arith in
              rw all (
                follow 0 (update h piece)
                ∙ pieces h piece _ _
                    (ap (λ k. slice offset k content) none_asked ∙ slice-all n offset content))
          | inr part ↦
              let left_over : remaining - n ≡ remaining - length piece = omega arith in
              rw part (elim (le-cases remaining n) [
                | inl last ↦
                    let spent : ((remaining - length piece) == 0) ≡ true = ground arith in
                    let exact : remaining ≡ n = omega (arith, want-le remaining (positive part)) in
                    rw spent (
                      ap (λ zs. some (ok (update h zs)))
                        (ap (λ k. take k (drop offset content)) (sym exact)
                          ∙ sym (slice-last remaining offset content (positive part))))
                | inr further ↦
                    let unspent : ((remaining - length piece) == 0) ≡ false = ground arith in
                    rw unspent (
                      follow (remaining - length piece) (update h piece)
                      ∙ pieces h piece _ _ (
                          slice-part n remaining offset content further
                          ∙ ap (λ k. piece ++ slice (offset + n) k content) left_over))
              ])
        ]

    digest_loop-slice :
        (fuel : ℕ) (x : W) (remaining : ℕ) (h : Hasher)
        → length content - position x < fuel
        → (run world (digest_loop H fuel fd remaining h) x).1
          ≡ some (ok (update h (slice (position x) remaining content)))
    unfolding digest_loop run
    digest_loop-slice zero x remaining h enough = absurd (omega arith)
    digest_loop-slice (suc fuel) x remaining h enough =
        let rest = digest_loop H fuel fd in
        let next = world x (read_file fd (want remaining)) in
        let after : IoResult (List ℕ) → Option (IoResult Hasher) =
          λ r. (run world (after_read H rest remaining h r) next.1).1 in
        elim (le-cases (length content) (position x)) [
          | inl over ↦
              ap after (file.ends x (want remaining) over)
              ∙ at_end rest (position x) remaining h next.1 over
          | inr more ↦
              let (n, some_read, fits, inside, bytes, moved) =
                file.reads x (want remaining) (want-pos remaining) more in
              ap after bytes
              ∙ after_piece rest n (position x) remaining h next.1 some_read fits inside (λ left h'.
                digest_loop-slice fuel next.1 left h' (omega arith)
                ∙ ap (λ p. some (ok (update h' (slice p left content)))) moved)
        ]

    -- What closes the file afterwards does not change the result.
    run-closing :
        {A B : Type 0} (m : Prog A) (g : A → B) (x : W)
        → (run world (bind m λ a. call (close_file fd) λ _. ret (g a)) x).1 ≡ g (run world m x).1
    unfolding run
    run-closing (ret a) g x = refl
    run-closing (call e k) g x = run-closing (k (world x e).0) g (world x e).1

    -- On a file that opens and can be read, whatever pieces the reads give, the loop comes to its
    -- end within as many rounds as there are bytes behind the offset and one more, and gives the
    -- digest of the part of the file that was asked for: of all that follows the offset, for a
    -- length of 0.
    pub digest_file-slice :
        (fuel : ℕ) (x : W) (path : PathBuf) (offset len : ℕ) (kind : Digest)
        → (world x (open_file path reading)).0 ≡ ok fd
        → length content - offset < fuel
        → (run world (digest_file H fuel path offset len kind) x).1
          ≡ some (ok (H.hex_encode (H.finalize (update (H.fresh kind) (slice offset len content)))))
    unfolding digest_file run
    digest_file-slice fuel x path offset len kind opened enough =
        let there = (world x (open_file path reading)).1 in
        let (sought, place) = file.seeks there offset in
        let start = (world there (seek fd offset)).1 in
        let after_open : IoResult ℕ → Option (IoResult (List ℕ)) =
          λ r. (run world (digest_of H fuel offset len kind r) there).1 in
        let after_seek : IoResult (Unit {0}) → Option (IoResult (List ℕ)) =
          λ r. (run world (digest_at H fuel fd len kind r) start).1 in
        let room : length content - position start < fuel = omega (arith, place) in
        ap after_open opened
        ∙ ap after_seek sought
        ∙ run-closing (digest_loop H fuel fd len (H.fresh kind)) (hex_of H) start
        ∙ ap (hex_of H) (digest_loop-slice fuel start len (H.fresh kind) room)
        ∙ ap
            (λ p.
              some (ok (H.hex_encode (H.finalize (update (H.fresh kind) (slice p len content))))))
            place
