-- ===== src/Sftp/FilePolicy.antt =====
-- The handlers of `Files` and `Stats` keep to the policy.
use wftpd_linux.Base.{
  ℕ, ◌≡◌, ◌<◌, true, Option, none, some, List, [], ◌∷◌, Text, length, arith, ◌==◌,
}
use wftpd_linux.Base.Dict.{lookup}
use wftpd_linux.Os.{
  open_file, seek, read_file, write_all, flush, close_file, invalidate, throttle, calculate_usage,
}
use wftpd_linux.Sftp.Session.{
  M, OpenEntry, file, dir, next_handle_id, insert_handle, quota_ok, quota_of, check_quota,
  throttle_bytes, throttle_by, within_quota,
}
use wftpd_linux.Sftp.Files.{
  OpenFlags, wants_write, may_write, open_options, check_open, open_request, close, close_entry,
  file_of, file_handle, read, deliver, write, write_bytes,
}
use wftpd_linux.Sftp.Logic.{
  Sat-bind, Sat-pure, Sat-fail, Sat-request, Sat-get, Sat-put, Sat-some_or, Sat-if,
}
use wftpd_linux.Sftp.Policy.{
  Setting, Holds, Apart, MayOpen, Fits, granted, audit-Holds, with_permissions, with_resolved,
  with_io,
}

module _ (w : Setting) where
  abbrev Keeps : {A : Type 0} → M A → Type 0
  Keeps = Holds w (λ _. Unit {0})

  pub next_handle_id-Keeps : Keeps next_handle_id
  unfolding next_handle_id
  next_handle_id-Keeps = Sat-bind Sat-get λ s at_home.
      Sat-bind (Sat-some_or _ _ λ _ _. tt) λ t _. Sat-bind (Sat-put _ at_home) λ _ _. Sat-pure _ tt

  pub insert_handle-Keeps : (name : Text) (entry : OpenEntry) → Keeps (insert_handle name entry)
  unfolding insert_handle
  insert_handle-Keeps name entry = Sat-bind Sat-get λ s at_home. Sat-put _ at_home

  check_quota-Holds :
      (quota : Option ℕ) (n : ℕ)
      → Holds w
          (λ room.
            room ≡ true
            → (limit : ℕ) → quota ≡ some limit
            → 0 < n
            → within_quota limit w.usage n ≡ true)
          (check_quota quota n)
  unfolding check_quota
  check_quota-Holds none n = Sat-pure _ (λ _ limit e. absurd (cc))
  check_quota-Holds (some most) n = Sat-bind Sat-get λ s at_home.
      Sat-bind (Sat-request (calculate_usage s.home_dir) tt) λ usage same.
        Sat-pure _
          (λ room limit e _. let same_limit : most ≡ limit = cc in rw (same_limit, same) at room)

  quota_ok-Holds : (n : ℕ) → Holds w (λ room. room ≡ true → Fits w n) (quota_ok n)
  unfolding quota_ok quota_of
  quota_ok-Holds n =
      Sat-if (n == 0) (λ empty. Sat-pure _ (λ _ limit e pos. absurd (ground arith)))
        (λ _. with_permissions w _ (check_quota-Holds _ n))

  throttle_bytes-Keeps : (n : ℕ) → Keeps (throttle_bytes n)
  unfolding throttle_bytes throttle_by
  throttle_bytes-Keeps n = Sat-bind Sat-get λ s _. by s.speed_limiter
    where
      by : (limit : Option ℕ) → Keeps (throttle_by limit n)
      by none = Sat-pure _ tt
      by (some kbps) = Sat-request (throttle n) tt

  check_open-Holds :
      (filename : Text) (f : OpenFlags)
      → Holds w (λ _. MayOpen w (open_options f)) (check_open filename f (granted w))
  unfolding check_open
  check_open-Holds filename f =
      Sat-if (wants_write f)
        (λ wants.
          Sat-if (may_write f (granted w))
            (λ may.
              Sat-bind (quota_ok-Holds 0)
                λ room _. Sat-if room (λ _. Sat-pure _ (ground arith)) (λ _. Sat-fail _))
            (λ _. Sat-bind (audit-Holds w _ _ _ _ _) λ _ _. Sat-fail _))
        (λ plain.
          Sat-if (granted w).can_read (λ may. Sat-pure _ (ground arith))
            (λ _. Sat-bind (audit-Holds w _ _ _ _ _) λ _ _. Sat-fail _))

  pub open_request-Keeps :
      (filename : Text) (f : OpenFlags) → Apart w filename → Keeps (open_request filename f)
  unfolding open_request
  open_request-Keeps filename f apart =
      Sat-bind (with_permissions w _ (check_open-Holds filename f)) λ _ may.
        with_resolved w filename apart λ p below.
          Sat-bind (Sat-request (open_file p (open_options f)) (below, may)) λ opened _.
            with_io w opened λ fd.
              Sat-bind next_handle_id-Keeps
                λ handle _. Sat-bind (insert_handle-Keeps handle _) λ _ _. Sat-pure _ tt

  close_entry-Keeps : (entry : Option OpenEntry) → Keeps (close_entry entry)
  close_entry-Keeps none = Sat-fail _
  close_entry-Keeps (some (dir rd)) = Sat-pure _ tt
  close_entry-Keeps (some (file f)) = Sat-bind (Sat-request (close_file f.file) tt) λ _ _.
      Sat-bind Sat-get λ s at_home.
        Sat-if f.writable (λ _. Sat-request (invalidate s.home_dir) tt) (λ _. Sat-pure _ tt)

  pub close-Keeps : (handle : Text) → Keeps (close handle)
  unfolding close
  close-Keeps handle =
      Sat-bind Sat-get
        λ s at_home. Sat-bind (Sat-put _ at_home) λ _ _. close_entry-Keeps (lookup handle s.handles)

  file_of-Keeps : (entry : Option OpenEntry) → Keeps (file_of entry)
  file_of-Keeps none = Sat-fail _
  file_of-Keeps (some (dir rd)) = Sat-fail _
  file_of-Keeps (some (file f)) = Sat-pure _ tt

  pub file_handle-Keeps : (handle : Text) → Keeps (file_handle handle)
  file_handle-Keeps handle = Sat-bind Sat-get λ s at_home. file_of-Keeps (lookup handle s.handles)

  deliver-Keeps : (bytes : List ℕ) → Keeps (deliver bytes)
  deliver-Keeps [] = Sat-fail _
  deliver-Keeps (b ∷ bytes) = Sat-bind (throttle_bytes-Keeps _) λ _ _. Sat-pure _ tt

  pub read-Keeps : (handle : Text) (offset len : ℕ) → Keeps (read handle offset len)
  unfolding read
  read-Keeps handle offset len = Sat-bind (file_handle-Keeps handle) λ f _.
      Sat-bind (Sat-request (seek f.file offset) tt) λ sought _. with_io w sought λ _.
        Sat-bind (Sat-request (read_file f.file _) (omega arith))
          λ found _. with_io w found λ bytes. deliver-Keeps bytes

  write_bytes-Keeps :
      (handle : Text) (offset : ℕ) (bytes : List ℕ)
      → Fits w (length bytes)
      → Keeps (write_bytes handle offset bytes)
  write_bytes-Keeps handle offset bytes fits = Sat-bind (file_handle-Keeps handle) λ f _.
      Sat-bind (Sat-request (seek f.file offset) tt) λ sought _. with_io w sought λ _.
        Sat-bind (Sat-request (write_all f.file bytes) fits) λ written _. with_io w written λ _.
          Sat-bind (Sat-request (flush f.file) tt)
            λ flushed _. with_io w flushed λ _. throttle_bytes-Keeps _

  pub write-Keeps :
      (handle : Text) (offset : ℕ) (bytes : List ℕ) → Keeps (write handle offset bytes)
  unfolding write
  write-Keeps handle offset bytes = Sat-bind (quota_ok-Holds (length bytes)) λ room fits.
      Sat-if room (λ yes_room. write_bytes-Keeps handle offset bytes (fits yes_room))
        (λ _. Sat-bind (audit-Holds w _ _ _ _ _) λ _ _. Sat-fail _)
