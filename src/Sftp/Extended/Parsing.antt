-- ===== src/Sftp/Extended/Parsing.antt =====
-- The request of a digest (`parse_digest_request` of sftp/src/ops/extended.rs) and its encoding.
use wftpd_linux.Base.{
  ℕ, zero, suc, ◌+◌, ◌*◌, ◌/◌, ◌%◌, ◌^◌, ◌≤◌, ◌<◌, ◌≡◌, refl, sym, ap, ◌∙◌, true, false, some, List,
  [], ◌++◌, append-nil, append_assoc, length, take, length-append, take-append, drop-prefix, leb,
  All, Text, arith, IsScalar, utf8_bytes, from_utf8-bytes,
}
use native.Mathlib.Nat.{
  mod-lt, mod-eq_of_lt, div-add-mod, add-mul-mod_self_left, mul-le-mul_right, pow-suc, one-le-pow,
}
use wftpd_linux.Sftp.Extended.{
  get_range, from_be_bytes, to_be_bytes, map_be, read_u64, unwrap_or, path_field,
  parse_digest_request,
}

pub length-to_be_bytes : (k n : ℕ) → length (to_be_bytes k n) ≡ k
unfolding to_be_bytes
length-to_be_bytes zero n = refl
length-to_be_bytes (suc k) n = ap suc (length-to_be_bytes k n)

-- The lowest k + 1 bytes of a number are its next byte and the lowest k.
split_byte : (n m : ℕ) → 0 < m → n % (m * 256) ≡ n / m % 256 * m + n % m
split_byte n m pos =
    let d = n / m % 256 in
    let r = n % m in
    let below : r < m = mod-lt n pos in
    let byte : d < 256 = omega arith in
    let room = mul-le-mul_right {m = d} {n = 255} m (omega arith) in
    let parts : n ≡ d * m + r + m * 256 * (n / m / 256) =
      omega (arith, div-add-mod n m, ap (λ q. m * q) (div-add-mod (n / m) 256)) in
    ap (λ k. k % (m * 256)) parts
    ∙ add-mul-mod_self_left (d * m + r) (m * 256) (n / m / 256)
    ∙ mod-eq_of_lt (omega arith)

from_be_bytes-rem : (k a n : ℕ) → from_be_bytes a (to_be_bytes k n) ≡ a * 256 ^ k + n % 256 ^ k
unfolding to_be_bytes from_be_bytes
from_be_bytes-rem zero a n = omega arith
from_be_bytes-rem (suc k) a n =
    from_be_bytes-rem k (a * 256 + n / 256 ^ k % 256) n
    ∙ omega (
      arith,
      split_byte n (256 ^ k) (one-le-pow k 256 (omega arith)),
      ap (λ m. n % m) (pow-suc 256 k),
      ap (λ m. a * m) (pow-suc 256 k),
    )

pub from_be_bytes-to_be_bytes : (k n : ℕ) → n < 256 ^ k → from_be_bytes 0 (to_be_bytes k n) ≡ n
from_be_bytes-to_be_bytes k n h = from_be_bytes-rem k 0 n ∙ omega (arith, mod-eq_of_lt h)

get_range-middle :
    (xs ys zs : List ℕ) (pos n : ℕ)
    → pos ≡ length xs
    → n ≡ length ys
    → get_range (xs ++ (ys ++ zs)) pos n ≡ some ys
unfolding get_range
get_range-middle xs ys zs pos n at_xs of_ys =
    let inside : leb (pos + n) (length (xs ++ (ys ++ zs))) ≡ true =
      ground (arith, length-append xs (ys ++ zs), length-append ys zs) in
    rw inside (
      ap (λ rest. some (take n rest)) (drop-prefix pos xs (ys ++ zs) at_xs)
      ∙ ap some (take-append n ys zs of_ys))

-- A number of k bytes that stands in a text of bytes.
pub number_at :
    (k n : ℕ) (xs zs : List ℕ) (pos : ℕ)
    → n < 256 ^ k
    → pos ≡ length xs
    → map_be (get_range (xs ++ (to_be_bytes k n ++ zs)) pos k) ≡ some n
number_at k n xs zs pos small place =
    ap map_be (get_range-middle xs (to_be_bytes k n) zs pos k place (sym (length-to_be_bytes k n)))
    ∙ ap some (from_be_bytes-to_be_bytes k n small)

-- What a client sends: the path with its length in front, and the two numbers.
unfoldable pub path_bytes : Text → List ℕ
path_bytes path = to_be_bytes 4 (length (utf8_bytes path)) ++ utf8_bytes path

unfoldable pub digest_request : Text → ℕ → ℕ → List ℕ
unfolding path_bytes
digest_request path offset len = path_bytes path ++ (to_be_bytes 8 offset ++ to_be_bytes 8 len)

length-path_bytes : (path : Text) → length (path_bytes path) ≡ 4 + length (utf8_bytes path)
unfolding path_bytes
length-path_bytes path = omega (
  arith,
  length-append (to_be_bytes 4 (length (utf8_bytes path))) (utf8_bytes path),
  length-to_be_bytes 4 (length (utf8_bytes path)),
)

path_field-bytes :
    (path : Text) (rest : List ℕ)
    → All IsScalar path
    → length (utf8_bytes path) < 2 ^ 32
    → path_field (path_bytes path ++ rest) ≡ some (path, 4 + length (utf8_bytes path))
unfolding path_field path_bytes
path_field-bytes path rest scalars small =
    let bytes = utf8_bytes path in
    let front = to_be_bytes 4 (length bytes) in
    let number = number_at 4 (length bytes) [] (bytes ++ rest) 0 (omega arith) refl in
    let middle =
      get_range-middle front bytes rest 4 (length bytes) (sym (length-to_be_bytes 4 (length bytes)))
        refl in
    ap path_field (append_assoc front bytes rest)
    ∙ rw (path_field, number, middle, from_utf8-bytes path scalars) refl

-- A number that does not fit in is 0.
missing : (body : List ℕ) (pos : ℕ) → length body ≤ pos → unwrap_or 0 (read_u64 body pos) ≡ 0
unfolding get_range
missing body pos short =
    let outside : leb (pos + 8) (length body) ≡ false = ground arith in rw outside refl

-- The request that a client writes is read as the path and the two numbers; one that ends behind
-- the path has 0 for both. The length of the path in bytes fits into 32 bits, and the numbers into
-- 64.
pub parse_digest_request-digest_request :
    (path : Text) (offset len : ℕ)
    → All IsScalar path
    → length (utf8_bytes path) < 2 ^ 32
    → offset < 2 ^ 64
    → len < 2 ^ 64
    → (parse_digest_request (digest_request path offset len) ≡ some (path, offset, len))
      × (parse_digest_request (path_bytes path) ≡ some (path, 0, 0))
unfolding parse_digest_request digest_request
parse_digest_request-digest_request path offset len scalars small small_offset small_len =
    let front = path_bytes path in
    let measure = length-path_bytes path in
    let place = 4 + length (utf8_bytes path) in
    let first = number_at 8 offset front (to_be_bytes 8 len) place (omega arith) (sym measure) in
    let second =
      number_at 8 len (front ++ to_be_bytes 8 offset) [] (place + 8) (omega arith)
        (omega (arith, length-append front (to_be_bytes 8 offset), length-to_be_bytes 8 offset)) in
    let shape : (front ++ to_be_bytes 8 offset) ++ (to_be_bytes 8 len ++ [])
        ≡ front ++ (to_be_bytes 8 offset ++ to_be_bytes 8 len) =
      append_assoc front (to_be_bytes 8 offset) (to_be_bytes 8 len ++ [])
      ∙ ap (λ zs. front ++ (to_be_bytes 8 offset ++ zs)) (append-nil (to_be_bytes 8 len)) in
    let second_there : read_u64 (front ++ (to_be_bytes 8 offset ++ to_be_bytes 8 len)) (place + 8)
        ≡ some len =
      ap (λ body. read_u64 body (place + 8)) (sym shape) ∙ second in
    let whole : path_field front ≡ some (path, place) =
      ap path_field (sym (append-nil front)) ∙ path_field-bytes path [] scalars small in
    (
      rw (path_field-bytes path _ scalars small, first, second_there) refl,
      rw (whole, missing front place (omega arith), missing front (place + 8) (omega arith)) refl,
    )
