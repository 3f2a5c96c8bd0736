-- ===== src/Gui/Accounts/UsersFile.antt =====
-- The steps around a save of the users that leave the users file as it is: the preparation of a
-- shared directory, and the audit record.
use wftpd_linux.Base.{◌≡◌, refl, ◌∙◌, inl, inr, Bool-cases, Option, none, some, Text}
use wftpd_linux.Outcome.{Result, ok, err}
use wftpd_linux.Disk.{IsDisk, ◌>>=◌, and_then, rename_error}
use wftpd_linux.Daemon.Requests.{Status, OpReply, internal, Setup, World}
use wftpd_linux.Daemon.Requests.Logging.{AuditEntry, write_audit_log, audit_line}
use wftpd_linux.Gui.Accounts.{Desktop, setup_shared_directory_permissions}

module _ (S : Setup) (display : Status → Text) (D : Desktop S display) where
  open S use {fs, users_path, parse_users}

  -- What is relied on of the commands and of the audit log: they leave the users file as it is.
  pub record LeavesUsers : Type 0 where
    pub chgrp :
        (w : World S) (d : Text)
        → fs.read_to_string (D.chgrp w d) users_path ≡ fs.read_to_string w users_path
    pub setfacl :
        (w : World S) (d : Text)
        → fs.read_to_string (D.setfacl w d) users_path ≡ fs.read_to_string w users_path
    pub chmod :
        (w : World S) (d : Text)
        → fs.read_to_string (fs.set_permissions w d 0o2770).1 users_path
          ≡ fs.read_to_string w users_path
    pub append :
        (w : World S) (s : Text)
        → fs.read_to_string (fs.append w D.audit_path s).1 users_path
          ≡ fs.read_to_string w users_path

  module _ (disk : IsDisk fs) (leaves : LeavesUsers) where
    pub prepared :
        (d : Text) (w : World S)
        → fs.read_to_string (setup_shared_directory_permissions S display D d w) users_path
          ≡ fs.read_to_string w users_path
    unfolding setup_shared_directory_permissions
    prepared d w = elim (Bool-cases (fs.exists w d)) [
      | inr missing ↦ rw missing refl
      | inl there ↦ elim (Bool-cases (D.group_exists w)) [
        | inr no_group ↦ rw (there, no_group) refl
        | inl group ↦ rw (there, group) (leaves.setfacl _ d ∙ leaves.chmod _ d ∙ leaves.chgrp w d)
      ]
    ]

    -- The last step of the audit, and what came before it.
    after_append :
        (reply : OpReply) (r : Result Status (Unit {0})) (v : World S)
        → fs.read_to_string (and_then (λ _ v'. (ok reply, v')) (r, v)).1 users_path
          ≡ fs.read_to_string v users_path
    after_append reply (ok u) v = refl
    after_append reply (err e) v = refl

    after_dir :
        (reply : OpReply) (line : Text) (w v : World S) (r : Result Status (Unit {0}))
        → fs.read_to_string v users_path ≡ fs.read_to_string w users_path
        → fs.read_to_string
            (and_then
              (λ _ v'.
                and_then
                  (λ _ v''. (ok reply, v''))
                  (
                    rename_error internal (fs.append v' D.audit_path line).0,
                    (fs.append v' D.audit_path line).1,
                  ))
              (r, v)).1
            users_path
          ≡ fs.read_to_string w users_path
    after_dir reply line w v (ok u) same = after_append reply _ _ ∙ leaves.append v line ∙ same
    after_dir reply line w v (err e) same = same

    pub audited :
        (parent : Option Text) (entry : AuditEntry) (w : World S)
        → fs.read_to_string
            (write_audit_log fs D.audit_path parent D.timestamp entry w).1
            users_path
          ≡ fs.read_to_string w users_path
    unfolding write_audit_log ◌>>=◌
    audited none entry w = after_dir _ (audit_line D.timestamp entry) w w (ok tt) refl
    audited (some parent) entry w =
        after_dir _ (audit_line D.timestamp entry) w (fs.create_dir_all w parent).1 _
          (disk.create_others w parent users_path)
