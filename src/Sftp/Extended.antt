-- ===== src/Sftp/Extended.antt =====
-- The extended requests: the digest of a part of a file, and the free space of a file system
-- (sftp/src/ops/extended.rs, and `extended` of sftp/src/ops/protocol.rs).
pub mod Parsing
pub mod Reading
pub mod Space
pub mod Access
mod Tests
use wftpd_linux.Base.{
  ℕ, zero, suc, ◌+◌, ◌-◌, ◌*◌, ◌/◌, ◌%◌, ◌^◌, min, Bool, true, false, Option, none, some, List, [],
  ◌∷◌, ◌++◌, Text, text, text_eq, ltb, leb, ◌==◌, if◌then◌else◌, length, take, drop, from_utf8,
}
use wftpd_linux.Outcome.{Result, ok, err}
use wftpd_linux.Os.{
  Prog, ret, call, bind, IoResult, OpenOptions, StatVfs, open_file, seek, read_file, close_file,
  statvfs,
}
use wftpd_linux.Paths.{PathBuf}
use wftpd_linux.Sftp.Session.{
  M, ◌>>=◌, pure, fail, request, io, io_or, some_or, resolve_path, bad_message, failure,
  op_unsupported,
}

-- `data.get(pos..pos + n)`
unfoldable pub get_range : List ℕ → ℕ → ℕ → Option (List ℕ)
get_range body pos n = if leb (pos + n) (length body) then some (take n (drop pos body)) else none

-- `from_be_bytes`
unfoldable pub from_be_bytes : ℕ → List ℕ → ℕ
from_be_bytes n [] = n
from_be_bytes n (b ∷ bytes) = from_be_bytes (n * 256 + b) bytes

-- `to_be_bytes` of a number of k bytes.
unfoldable pub to_be_bytes : ℕ → ℕ → List ℕ
to_be_bytes zero n = []
to_be_bytes (suc k) n = n / 256 ^ k % 256 ∷ to_be_bytes k n

abbrev pub map_be : Option (List ℕ) → Option ℕ
map_be none = none
map_be (some bytes) = some (from_be_bytes 0 bytes)

abbrev pub read_u32 : List ℕ → ℕ → Option ℕ
read_u32 body pos = map_be (get_range body pos 4)

abbrev pub read_u64 : List ℕ → ℕ → Option ℕ
read_u64 body pos = map_be (get_range body pos 8)

abbrev pub unwrap_or : {A : Type 0} → A → Option A → A
unwrap_or d none = d
unwrap_or d (some a) = a

abbrev pub and_then : {A B : Type 0} → Option A → (A → Option B) → Option B
and_then none f = none
and_then (some a) f = f a

-- The path in front, and the position behind it.
unfoldable pub path_field : List ℕ → Option (Text × ℕ)
path_field body = and_then (read_u32 body 0) λ path_len.
    and_then (get_range body 4 path_len)
      λ bytes. and_then (from_utf8 bytes) λ path. some (path, 4 + path_len)

unfoldable pub parse_digest_request : List ℕ → Option (Text × ℕ × ℕ)
parse_digest_request body = and_then (path_field body) λ (path, pos).
    some (path, unwrap_or 0 (read_u64 body pos), unwrap_or 0 (read_u64 body (pos + 8)))

pub data Digest : Type 0 where
  md5 sha256 : Digest

abbrev pub buf_len : ℕ
buf_len = 8192

abbrev pub want : ℕ → ℕ
want remaining = if remaining == 0 then buf_len else min buf_len (min remaining (2 ^ 64 - 1))

abbrev pub reading : OpenOptions
reading = record { read = true; write = false; append = false; create = false; truncate = false }

abbrev pub lift : {A : Type 0} → Prog A → M A
lift m s = bind m λ a. ret (ok a, s)

-- `map_err(io_status)` of a digest that has come to its end.
abbrev pub payload_of : Option (IoResult (List ℕ)) → M (Option (List ℕ))
payload_of none = pure none
payload_of (some (err e)) = io (err e)
payload_of (some (ok payload)) = pure (some payload)

-- A hash function of the library digest: its state, and the encoder of the library hex.
pub record Hash : Type 1 where
  pub Hasher : Type 0
  pub fresh : Digest → Hasher
  pub update : Hasher → List ℕ → Hasher
  pub finalize : Hasher → List ℕ
  pub hex_encode : List ℕ → List ℕ

module _ (H : Hash) where
  open H use {Hasher, fresh, update, finalize, hex_encode}

  -- What follows a read: `rest` is the next round.
  unfoldable pub after_read :
      (ℕ → Hasher → Prog (Option (IoResult Hasher)))
      → ℕ
      → Hasher
      → IoResult (List ℕ)
      → Prog (Option (IoResult Hasher))
  after_read rest remaining hasher (err e) = ret (some (err e))
  after_read rest remaining hasher (ok []) = ret (some (ok hasher))
  after_read rest remaining hasher (ok (b ∷ bytes)) =
      let hasher = update hasher (b ∷ bytes) in
      let left = remaining - length (b ∷ bytes) in
      if remaining == 0
      then rest 0 hasher
      else if left == 0
      then ret (some (ok hasher))
      else rest left hasher

  -- The loop; `none` stands for one that is still running.
  unfoldable pub digest_loop : ℕ → ℕ → ℕ → Hasher → Prog (Option (IoResult Hasher))
  digest_loop zero fd remaining hasher = ret none
  digest_loop (suc fuel) fd remaining hasher =
      call (read_file fd (want remaining)) (after_read (digest_loop fuel fd) remaining hasher)

  abbrev pub hex_of : Option (IoResult Hasher) → Option (IoResult (List ℕ))
  hex_of none = none
  hex_of (some (err e)) = some (err e)
  hex_of (some (ok hasher)) = some (ok (hex_encode (finalize hasher)))

  -- The file is closed when the function returns.
  abbrev pub closing : {A : Type 0} → ℕ → A → Prog A
  closing fd a = call (close_file fd) λ _. ret a

  abbrev pub digest_at :
      ℕ → ℕ → ℕ → Digest → IoResult (Unit {0}) → Prog (Option (IoResult (List ℕ)))
  digest_at fuel fd len kind (err e) = closing fd (some (err e))
  digest_at fuel fd len kind (ok _) =
      bind (digest_loop fuel fd len (fresh kind)) λ done. closing fd (hex_of done)

  abbrev pub digest_of : ℕ → ℕ → ℕ → Digest → IoResult ℕ → Prog (Option (IoResult (List ℕ)))
  digest_of fuel offset len kind (err e) = ret (some (err e))
  digest_of fuel offset len kind (ok fd) = call (seek fd offset) (digest_at fuel fd len kind)

  unfoldable pub digest_file : ℕ → PathBuf → ℕ → ℕ → Digest → Prog (Option (IoResult (List ℕ)))
  digest_file fuel path offset len kind =
      call (open_file path reading) (digest_of fuel offset len kind)

  unfoldable pub extended_digest : ℕ → List ℕ → Digest → M (Option (List ℕ))
  extended_digest fuel body kind = do
    (path, offset, len) ← some_or bad_message (parse_digest_request body)
    resolved ← resolve_path path
    done ← lift (digest_file fuel resolved offset len kind)
    payload_of done

-- The numbers that are sent, of which the ninth and tenth are fsid and flags.
abbrev pub numbers_of : StatVfs → List ℕ
numbers_of s =
    s.block_size ∷ s.fragment_size ∷ s.blocks ∷ s.blocks_free ∷ s.blocks_available ∷ s.files
    ∷ s.files_free ∷ s.files_available ∷ 0 ∷ 0 ∷ s.name_max ∷ []

-- `payload.extend_from_slice(&v.to_be_bytes())`, for each number.
unfoldable pub extend_all : List ℕ → List ℕ → List ℕ
extend_all payload [] = payload
extend_all payload (v ∷ numbers) = extend_all (payload ++ to_be_bytes 8 v) numbers

abbrev pub space_payload : StatVfs → List ℕ
space_payload s = extend_all [] (numbers_of s)

unfoldable pub extended_space_available : List ℕ → M (List ℕ)
extended_space_available body = do
  (path, pos) ← some_or bad_message (path_field body)
  resolved ← resolve_path path
  stats ← io_or failure (← request (statvfs resolved))
  pure (space_payload stats)

-- `extended`, which answers with the payload of the reply.
module _ (H : Hash) where
  unfoldable pub extended : ℕ → Text → List ℕ → M (Option (List ℕ))
  extended fuel name body =
      if text_eq name (text "md5sum@openssh.com")
      then extended_digest H fuel body md5
      else if text_eq name (text "sha256sum@openssh.com")
      then extended_digest H fuel body sha256
      else if text_eq name (text "space-available@openssh.com")
      then (do payload ← extended_space_available body; pure (some payload))
      else fail op_unsupported
