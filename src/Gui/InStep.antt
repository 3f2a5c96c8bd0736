-- ===== src/Gui/InStep.antt =====
-- What a save of the settings leaves in the front end, in the daemon and on disk.
use wftpd_linux.Base.{
  ◌≡◌, ◌≢◌, refl, sym, ap, ◌∙◌, subst, ◌⊎◌, inl, inr, Bool, true, false, Text, text,
}
use wftpd_linux.Outcome.{Result, ok, err}
use wftpd_linux.Paths.Names.{with_extension}
use wftpd_linux.Disk.{IsDisk}
use wftpd_linux.Config.{Config, validate}
use wftpd_linux.Daemon.Requests.{Status, Shared, Setup, World, replace_config}
use wftpd_linux.Daemon.Requests.Replacing.{ConfigKept, replace_config-ConfigKept}
use wftpd_linux.Gui.{
  Link, answered, unreachable, reply_lost, unwrap_or_default, System, reply_text, carried_out,
  write_config, with_config, adopt, read_back, push_config,
}

module _ (S : Setup) (display : Status → Text) where
  open S use {fs, toml, config_path}

  -- A configuration is printed, and read as it was.
  abbrev pub Lossless : Config → Type 0
  Lossless c = (s : Text) × (toml.to_string_pretty c ≡ ok s) × (toml.from_str s ≡ ok c)

  -- The daemon accepted the settings: they are valid, and it has them in memory and on disk.
  abbrev pub Taken : Config → System S display → System S display → Type 0
  Taken c sys out =
      (validate (fs.exists sys.world) (fs.is_dir sys.world) c ≡ ok tt)
      × (out.app ≡ record { config = c; user_manager = sys.app.user_manager })
      × (out.shared ≡ record sys.shared { config = c })
      × ((s : Text) × (toml.to_string_pretty c ≡ ok s)
          × (fs.read_to_string out.world config_path ≡ ok s))

  -- The daemon and the disk are as they were; the front end holds the settings all the same.
  abbrev pub Apart : Config → System S display → System S display → Type 0
  Apart c sys out =
      (out.app ≡ record { config = c; user_manager = sys.app.user_manager })
      × (out.shared ≡ sys.shared)
      × (fs.read_to_string out.world config_path ≡ fs.read_to_string sys.world config_path)

  -- A save that is reported as done was taken; one that is reported as failed was not, unless only
  -- the answer was lost.
  abbrev pub InStep : Link → Config → System S display → Bool × System S display → Type 0
  InStep link c sys out =
      ((out.0 ≡ true) × Taken c sys out.1)
      ⊎ ((out.0 ≡ false) × Apart c sys out.1)
      ⊎ ((out.0 ≡ false) × ((e : Text) × (link ≡ reply_lost e)) × Taken c sys out.1)

  module _ (disk : IsDisk fs) where
    -- What the daemon keeps of the text `s` of the settings.
    taken :
        (c c' : Config) (s p : Text) (sys out : System S display)
        → toml.to_string_pretty c ≡ ok s
        → toml.from_str s ≡ ok c
        → toml.from_str s ≡ ok c'
        → validate (fs.exists sys.world) (fs.is_dir sys.world) c' ≡ ok tt
        → toml.to_string_pretty c' ≡ ok p
        → out.app ≡ record { config = c; user_manager = sys.app.user_manager }
        → out.shared ≡ record sys.shared { config = c' }
        → fs.read_to_string out.world config_path ≡ ok p
        → Taken c sys out
    taken c c' s p sys out printed parsed from valid to app shared on_disk =
        let same : c' ≡ c = cc in
        (
          subst (λ k. validate (fs.exists sys.world) (fs.is_dir sys.world) k ≡ ok tt) same valid,
          app,
          shared ∙ ap (λ (k : Config). record sys.shared { config = k }) same,
          (p, sym (ap toml.to_string_pretty same) ∙ to, on_disk),
        )

    -- The answer of the daemon to the text `s` of the settings.
    after_answer :
        (c : Config) (s : Text) (sys : System S display)
        (out : Result Status Text × Shared × World S)
        → toml.to_string_pretty c ≡ ok s
        → toml.from_str s ≡ ok c
        → ConfigKept S disk s sys.shared sys.world out
        → InStep answered c sys (
            read_back S display
              (reply_text S display out.0, carried_out S display (with_config S display c sys) out))
    after_answer c s sys (ok saved, shared, world) printed parsed
          (inl (c', p, from, valid, to, answer, in_memory, on_disk)) =
        let read : toml.from_str saved ≡ ok c =
          let same : saved ≡ s = cc in ap toml.from_str same ∙ parsed in
        let sent = carried_out S display (with_config S display c sys) (ok saved, shared, world) in
        inl (
          refl,
          subst (λ r. Taken c sys (adopt S display r sent)) (sym read)
              (taken c c' s p sys (with_config S display c sent) printed parsed from valid to refl
                in_memory on_disk),
        )
    after_answer c s sys (err e, shared, world) printed parsed
          (inl (c', p, from, valid, to, answer, in_memory, on_disk)) =
        absurd cc
    after_answer c s sys (ok saved, shared, world) printed parsed (inr (e, failed, same, kept)) =
        absurd cc
    after_answer c s sys (err e', shared, world) printed parsed (inr (e, failed, same, kept)) =
        inr (inl (refl, (refl, same, kept)))

    after_loss :
        (e : Text) (c : Config) (s : Text) (sys : System S display)
        (out : Result Status Text × Shared × World S)
        → toml.to_string_pretty c ≡ ok s
        → toml.from_str s ≡ ok c
        → ConfigKept S disk s sys.shared sys.world out
        → InStep
            (reply_lost e)
            c
            sys
            (false, carried_out S display (with_config S display c sys) out)
    after_loss e c s sys (r, shared, world) printed parsed
          (inl (c', p, from, valid, to, answer, in_memory, on_disk)) =
        inr (
          inr (
            refl,
            (e, refl),
            taken c c' s p sys
                (carried_out S display (with_config S display c sys) (r, shared, world)) printed
                parsed from valid to refl in_memory on_disk,
          ))
    after_loss e c s sys (r, shared, world) printed parsed (inr (e', failed, same, kept)) =
        inr (inl (refl, (refl, same, kept)))

    sent-InStep :
        (link : Link) (c : Config) (s : Text) (sys : System S display)
        → config_path ≢ with_extension config_path (text "tmp")
        → toml.to_string_pretty c ≡ ok s
        → toml.from_str s ≡ ok c
        → InStep link c sys
            (read_back S display (write_config S display link s (with_config S display c sys)))
    unfolding write_config
    sent-InStep answered c s sys apart printed parsed =
        after_answer c s sys (replace_config S s sys.shared sys.world) printed parsed
          (replace_config-ConfigKept S disk s sys.shared sys.world apart)
    sent-InStep (unreachable e) c s sys apart printed parsed = inr (inl (refl, (refl, refl, refl)))
    sent-InStep (reply_lost e) c s sys apart printed parsed =
        after_loss e c s sys (replace_config S s sys.shared sys.world) printed parsed
          (replace_config-ConfigKept S disk s sys.shared sys.world apart)

    -- Where toml prints the new settings and reads them back: a save of the settings that is
    -- reported as done was valid, and the front end, the daemon and the disk hold the same
    -- settings; after one that is reported as failed, the daemon and the disk are as they were,
    -- unless only the answer was lost, and the front end holds the new settings all the same.
    pub push_config-InStep :
        (link : Link) (mutate : Config → Config) (sys : System S display)
        → config_path ≢ with_extension config_path (text "tmp")
        → Lossless (mutate sys.app.config)
        → InStep link (mutate sys.app.config) sys (push_config S display link mutate sys)
    unfolding push_config
    push_config-InStep link mutate sys apart (s, printed, parsed) =
        let c = mutate sys.app.config in
        subst
          (λ r. InStep link c sys (
            read_back S display
              (write_config S display link (unwrap_or_default r) (with_config S display c sys))))
          (sym printed) (sent-InStep link c s sys apart printed parsed)

    pub done-Taken :
        (link : Link) (c : Config) (sys : System S display) (out : Bool × System S display)
        → InStep link c sys out
        → out.0 ≡ true
        → Taken c sys out.1
    done-Taken link c sys out (inl (done, t)) h = t
    done-Taken link c sys out (inr (inl (failed, rest))) h =
        absurd (let clash : true ≡ false = sym h ∙ failed in cc)
    done-Taken link c sys out (inr (inr (failed, lost, rest))) h =
        absurd (let clash : true ≡ false = sym h ∙ failed in cc)
