-- ===== src/Sftp/Extended/Space.antt =====
-- The answer about free space has its eleven numbers at their places.
use wftpd_linux.Base.{
  ℕ, ◌*◌, ◌^◌, ◌<◌, ◌≡◌, refl, sym, ap, ◌∙◌, some, List, [], ◌∷◌, ◌++◌, append-nil, append_assoc,
  length, length-append, arith,
}
use wftpd_linux.Os.{StatVfs}
use wftpd_linux.Sftp.Extended.{to_be_bytes, read_u64, numbers_of, extend_all, space_payload}
use wftpd_linux.Sftp.Extended.Parsing.{length-to_be_bytes, number_at}

abbrev all_bytes : List ℕ → List ℕ
all_bytes [] = []
all_bytes (n ∷ ns) = to_be_bytes 8 n ++ all_bytes ns

length-all_bytes : (ns : List ℕ) → length (all_bytes ns) ≡ 8 * length ns
length-all_bytes [] = refl
length-all_bytes (n ∷ ns) = omega (
  arith,
  length-all_bytes ns,
  length-append (to_be_bytes 8 n) (all_bytes ns),
  length-to_be_bytes 8 n,
)

all_bytes-append : (ms ns : List ℕ) → all_bytes (ms ++ ns) ≡ all_bytes ms ++ all_bytes ns
all_bytes-append [] ns = refl
all_bytes-append (m ∷ ms) ns =
    ap (λ zs. to_be_bytes 8 m ++ zs) (all_bytes-append ms ns)
    ∙ sym (append_assoc (to_be_bytes 8 m) (all_bytes ms) (all_bytes ns))

extend_all-bytes :
    (payload numbers : List ℕ) → extend_all payload numbers ≡ payload ++ all_bytes numbers
unfolding extend_all
extend_all-bytes payload [] = sym (append-nil payload)
extend_all-bytes payload (v ∷ numbers) =
    extend_all-bytes (payload ++ to_be_bytes 8 v) numbers
    ∙ append_assoc payload (to_be_bytes 8 v) (all_bytes numbers)

-- The payload has 88 bytes, and each of the eleven numbers, if it fits into 64 bits, is read back
-- at eight times its index.
pub space_payload_lem :
    (s : StatVfs) (before : List ℕ) (n : ℕ) (behind : List ℕ)
    → numbers_of s ≡ before ++ n ∷ behind
    → n < 2 ^ 64
    → (length (space_payload s) ≡ 88) × (read_u64 (space_payload s) (8 * length before) ≡ some n)
space_payload_lem s before n behind e small =
    let shape = extend_all-bytes [] (numbers_of s) in
    let split : space_payload s ≡ all_bytes before ++ (to_be_bytes 8 n ++ all_bytes behind) =
      shape ∙ ap all_bytes e ∙ all_bytes-append before (n ∷ behind) in
    (
      ap length shape ∙ length-all_bytes (numbers_of s),
      ap (λ body. read_u64 body (8 * length before)) split
          ∙ number_at 8 n (all_bytes before) (all_bytes behind) (8 * length before) (omega arith)
              (sym (length-all_bytes before)),
    )
