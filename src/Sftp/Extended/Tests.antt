-- ===== src/Sftp/Extended/Tests.antt =====
-- Runs of the extended requests, and the theorems at concrete ones.
use wftpd_linux.Base.{
  ℕ, ◌+◌, ◌-◌, ◌*◌, ◌≤◌, ◌<◌, ◌≡◌, refl, min, some, List, [], ◌∷◌, ◌++◌, text, All, length, take,
  drop, trim, arith, append-nil, append_assoc, sym, ap, subst, none, char_bytes, from_utf8, Text,
}
use wftpd_linux.Outcome.{ok}
use wftpd_linux.Os.{Effect, Reply, read_file, seek}
use wftpd_linux.Os.Run.{run}
use wftpd_linux.Paths.{components}
use wftpd_linux.Users.{full}
use wftpd_linux.Sftp.Resolve.{claimed}
use wftpd_linux.Sftp.Tests.{reply_of, setting_with, session}
use wftpd_linux.Sftp.Extended.{
  Hash, md5, parse_digest_request, digest_file, extended, space_payload, read_u64, path_field,
  numbers_of,
}
use wftpd_linux.Sftp.Extended.Parsing.{
  path_bytes, digest_request, parse_digest_request-digest_request,
}
use wftpd_linux.Sftp.Extended.Reading.{IsIncremental, Serves, slice, digest_file-slice}
use wftpd_linux.Sftp.Extended.Access.{Looks, Apart, extended-Looks}

parse_digest_request-digest_request_example :
    (parse_digest_request (digest_request (text "日志.txt") 70000 5) ≡ some (text "日志.txt", 70000, 5))
    × (parse_digest_request (path_bytes (text "日志.txt")) ≡ some (text "日志.txt", 0, 0))
unfolding char_bytes
parse_digest_request-digest_request_example =
    parse_digest_request-digest_request (text "日志.txt") 70000 5 (omega arith) (omega arith)
      (omega arith) (omega arith)

-- A function that keeps the whole message.
abbrev plain : Hash
plain = record {
  Hasher = List ℕ;
  fresh = λ kind. [];
  update = λ h bytes. h ++ bytes;
  finalize = λ h. h;
  hex_encode = λ bytes. bytes;
}

plain-IsIncremental : IsIncremental plain
plain-IsIncremental = record {
  update-nil = append-nil;
  update-append = λ h xs ys. sym (append_assoc h xs ys);
}

abbrev content : List ℕ
content = 10 ∷ 11 ∷ 12 ∷ 13 ∷ 14 ∷ []

-- At most two bytes for each read; the world is the position in the file.
abbrev piece : ℕ → ℕ → ℕ
piece position k = min (min 2 k) (5 - position)

abbrev pairs : ℕ → (e : Effect) → Reply e × ℕ
pairs position (read_file fd k) =
    (ok (take (piece position k) (drop position content)), position + piece position k)
pairs position (seek fd n) = (ok tt, n)
pairs position e = (reply_of (setting_with full) e, position)

pairs-Serves : Serves pairs 7 content (λ position. position)
pairs-Serves = record {
  reads = λ position k some_wanted inside.
      (piece position k, omega arith, omega arith, omega arith, refl, refl);
  ends = λ position k over.
      let none_left : piece position k ≡ 0 = omega arith in
      ap (λ n. ok (take n (drop position content))) none_left;
  seeks = λ position n. (refl, refl);
}

digest_file-slice_example :
    (run pairs (digest_file plain 9 (components (text "/home/alice/a")) 1 3 md5) 0).1
    ≡ some (ok (11 ∷ 12 ∷ 13 ∷ []))
unfolding slice
digest_file-slice_example =
    digest_file-slice plain pairs 7 content (λ position. position) plain-IsIncremental pairs-Serves
      9 0 (components (text "/home/alice/a")) 1 3 md5 refl (omega arith)

-- The request names `a`.
names_a : path_field (path_bytes (text "a")) ≡ some (text "a", 5)
unfolding path_field path_bytes wftpd_linux.Sftp.Extended.get_range
    wftpd_linux.Sftp.Extended.to_be_bytes char_bytes wftpd_linux.Sftp.Extended.from_be_bytes
    from_utf8 wftpd_linux.Base.decode_from
names_a = refl

names_a-Apart : Apart (text "/home/alice") (path_bytes (text "a"))
unfolding claimed trim
names_a-Apart path pos e =
    let same : path ≡ text "a" = cc (names_a, e) in
    subst (λ p. claimed (components (text "/home/alice")) (trim p) ≡ none) (sym same) refl

extended-Looks_example :
    All
      (Looks (text "/home/alice"))
      (run pairs (extended plain 9 (text "md5sum@openssh.com") (path_bytes (text "a")) session) 0).0
    × ((run pairs
          (extended plain 9 (text "md5sum@openssh.com") (path_bytes (text "a")) session)
          0).1.1
        ≡ session)
extended-Looks_example =
    extended-Looks (text "/home/alice") plain pairs 0 session 9 (text "md5sum@openssh.com")
      (path_bytes (text "a")) refl names_a-Apart
