-- ===== src/Sftp/HostKey/Restart.antt =====
-- A second start of the SFTP server finds the host key of the first.
use wftpd_linux.Base.{subst, ==_iff, ℕ, ◌≡◌, ◌≢◌, refl, ◌∙◌, true, Bool-cases, inl, inr, Text, ◌==◌}
use Prim.Native.Nat.{bit_and}
use wftpd_linux.Outcome.{Result, ok, err}
use wftpd_linux.Paths.Names.{parent_text}
use wftpd_linux.Disk.{Fs, IsDisk, Io, ◌>>=◌, and_then}
use wftpd_linux.Sftp.HostKey.{
  SshKey, pub_path, restrict, load_host_key, make_parent, store_host_key, generate_host_key,
  load_or_generate_host_key,
}

module _ (F : Fs) (mode_of : F.World → Text → Result Text ℕ) (keys : SshKey) where
  open F use {World, exists, read_to_string, write, create_dir_all, set_permissions}
  open keys use {PrivateKey, from_openssh, to_openssh, public_key}

  -- What is relied on of modes: a file that its owner may read is read as before, and the
  -- permission bits of a mode that was set to 0600 are these, until another is set. The other bits,
  -- such as those of the file type, are any.
  pub record HasModes : Type 0 where
    pub read_kept :
        (w : World) (p q : Text) (m : ℕ)
        → bit_and m 0o400 ≡ 0o400
        → read_to_string (set_permissions w p m).1 q ≡ read_to_string w q
    pub mode_set :
        (w : World) (p : Text)
        → (set_permissions w p 0o600).0 ≡ ok tt
        → (mode : ℕ) × (mode_of (set_permissions w p 0o600).1 p ≡ ok mode)
          × (bit_and mode 0o777 ≡ 0o600)
    pub set_others :
        (w : World) (p q : Text) (m : ℕ) → q ≢ p → mode_of (set_permissions w p m).1 q ≡ mode_of w q
    pub write_others_mode :
        (w : World) (p s q : Text) → q ≢ p → mode_of (write w p s).1 q ≡ mode_of w q

  -- A file with the key that no one else can read.
  abbrev pub Holds : Text → PrivateKey → World → Type 0
  Holds path key w =
      (s : Text) × (mode : ℕ) × (read_to_string w path ≡ ok s)
      × (from_openssh s ≡ ok key)
      × (mode_of w path ≡ ok mode)
      × ((bit_and mode 0o777 == 0o600) ≡ true)

  -- What holds of the value and the world, where there is a value.
  abbrev Post : {A : Type 0} → (A → World → Type 0) → Result Text A × World → Type 0
  Post Q (ok a, w) = Q a w
  Post Q (err e, w) = Unit {0}

  ran :
      {A B : Type 0} (Q : B → World → Type 0) (f : A → Io World Text B)
      (out : Result Text A × World)
      → ((a : A) → out.0 ≡ ok a → Post Q (f a out.1))
      → Post Q (and_then f out)
  ran Q f (ok a, w) next = next a refl
  ran Q f (err e, w) next = tt

  Post-ok :
      {A : Type 0} (Q : A → World → Type 0) (out : Result Text A × World) (a : A)
      → Post Q out
      → out.0 ≡ ok a
      → Q a out.1
  Post-ok Q (ok b, w) a q e = let same : b ≡ a = cc in subst (λ c. Q c w) same q
  Post-ok Q (err e', w) a q e = absurd cc

  module _ (disk : IsDisk F) (modes : HasModes) (path : Text) (apart : path ≢ pub_path path) where
    loads_again :
        (key : PrivateKey) (w : World)
        → Holds path key w
        → load_host_key F mode_of keys path w ≡ (ok key, w)
    unfolding load_host_key ◌>>=◌
    loads_again key w (s, mode, there, parsed, moded, private) =
        rw (there, parsed, moded, private) refl

    restricted :
        (key : PrivateKey) (s : Text) (mode : ℕ) (w : World)
        → read_to_string w path ≡ ok s
        → from_openssh s ≡ ok key
        → mode_of w path ≡ ok mode
        → (restrict F mode_of keys path mode w).0 ≡ ok tt
        → Holds path key (restrict F mode_of keys path mode w).1
    restricted key s mode w there parsed moded done =
        elim (Bool-cases (bit_and mode 0o777 == 0o600)) [
          | inl private ↦ rw private (s, mode, there, parsed, moded, private)
          | inr open_to_others ↦
              let (now, moded_now, private) = modes.mode_set w path (rw open_to_others at done) in
              rw open_to_others (
                s,
                now,
                modes.read_kept w path path 0o600 refl ∙ there,
                parsed,
                moded_now,
                (==_iff (bit_and now 0o777) 0o600).1 private,
              )
        ]

    loaded-Holds : (w : World) → Post (Holds path) (load_host_key F mode_of keys path w)
    unfolding load_host_key ◌>>=◌
    loaded-Holds w =
        ran (Holds path) _ (read_to_string w path, w)
          λ s there.
            ran (Holds path) _ (from_openssh s, w)
              λ key parsed.
                ran (Holds path) _ (mode_of w path, w)
                  λ mode moded.
                    ran (Holds path) _ (restrict F mode_of keys path mode w)
                      λ u done. restricted key s mode w there parsed moded done

    -- A key that is read back as it was printed is there after it was stored.
    stored-Holds :
        (key : PrivateKey) (w : World)
        → ((s : Text) → to_openssh key ≡ ok s → from_openssh s ≡ ok key)
        → Post (Holds path) (store_host_key F mode_of keys path key w)
    unfolding ◌>>=◌
    stored-Holds key w lossless =
        ran (Holds path) _ (to_openssh key, w)
          λ s printed. ran (Holds path) _ (write w path s) λ u written.
            let w1 = (write w path s).1 in
            ran (Holds path) _ (set_permissions w1 path 0o600) λ u1 closed.
              let w2 = (set_permissions w1 path 0o600).1 in
              ran (Holds path) _ (public_key key, w2)
                λ shown published.
                  ran (Holds path) _ (write w2 (pub_path path) shown) λ u2 shown_written.
                    let w3 = (write w2 (pub_path path) shown).1 in
                    ran (Holds path) _ (set_permissions w3 (pub_path path) 0o644) λ u3 opened.
                      let (mode, moded, private) = modes.mode_set w1 path closed in
                      (
                        s,
                        mode,
                        modes.read_kept w3 (pub_path path) path 0o644 refl
                            ∙ disk.write_others w2 (pub_path path) shown path apart
                            ∙ modes.read_kept w1 path path 0o600 refl
                            ∙ disk.written w path s written,
                        lossless s printed,
                        modes.set_others w3 (pub_path path) path 0o644 apart
                            ∙ modes.write_others_mode w2 (pub_path path) shown path apart
                            ∙ moded,
                        (==_iff (bit_and mode 0o777) 0o600).1 private,
                      )

    generated-Holds :
        (random : Result Text PrivateKey) (w : World)
        → ((key : PrivateKey) (s : Text) → to_openssh key ≡ ok s → from_openssh s ≡ ok key)
        → Post (Holds path) (generate_host_key F mode_of keys path random w)
    unfolding generate_host_key ◌>>=◌
    generated-Holds random w lossless =
        ran (Holds path) _ (make_parent F mode_of keys (parent_text path) w) λ u made.
          let w1 = (make_parent F mode_of keys (parent_text path) w).1 in
          ran (Holds path) _ (random, w1) λ key drawn. stored-Holds key w1 (lossless key)

    found-Holds :
        (random : Result Text PrivateKey) (w : World)
        → ((key : PrivateKey) (s : Text) → to_openssh key ≡ ok s → from_openssh s ≡ ok key)
        → Post (Holds path) (load_or_generate_host_key F mode_of keys path random w)
    unfolding load_or_generate_host_key
    found-Holds random w lossless = elim (Bool-cases (exists w path)) [
      | inl there ↦ rw there (loaded-Holds w)
      | inr missing ↦ rw missing (generated-Holds random w lossless)
    ]

    kept :
        (later : Result Text PrivateKey) (key : PrivateKey) (started : World)
        → Holds path key started
        → ((mode : ℕ) × (mode_of started path ≡ ok mode) × (bit_and mode 0o777 ≡ 0o600))
          × (load_or_generate_host_key F mode_of keys path later started ≡ (ok key, started))
    unfolding load_or_generate_host_key
    kept later key started (s, mode, there, parsed, moded, private) = (
      (mode, moded, (==_iff (bit_and mode 0o777) 0o600).0 private),
      rw (disk.read_exists started path s there)
          (loads_again key started (s, mode, there, parsed, moded, private)),
    )

    -- Where keys are read back as they were printed, the permission bits that are set are
    -- found again, and the public key has a file of its own: after a start that found or made
    -- its key, the file is readable by its owner only, and every later start gives the same
    -- key and changes nothing, whatever key it would have made.
    pub host_key_kept :
        (random later : Result Text PrivateKey) (key : PrivateKey) (w : World)
        → ((k : PrivateKey) (s : Text) → to_openssh k ≡ ok s → from_openssh s ≡ ok k)
        → (load_or_generate_host_key F mode_of keys path random w).0 ≡ ok key
        → let started = (load_or_generate_host_key F mode_of keys path random w).1 in
          ((mode : ℕ) × (mode_of started path ≡ ok mode) × (bit_and mode 0o777 ≡ 0o600))
          × (load_or_generate_host_key F mode_of keys path later started ≡ (ok key, started))
    host_key_kept random later key w lossless done =
        let holds =
          Post-ok (Holds path) (load_or_generate_host_key F mode_of keys path random w) key
            (found-Holds random w lossless) done in
        kept later key (load_or_generate_host_key F mode_of keys path random w).1 holds
