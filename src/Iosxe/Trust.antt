-- ===== src/Iosxe/Trust.antt =====
-- iosxe_ssh.go's `runIOSXESSHScript`: the calls behind its output.
use mathlib.Core.Path.{subst}
use georoute.Base.{◌≡◌, ap, sym, ◌∙◌, Option, none, some}
use georoute.Netip.{Bytes}
use georoute.Text.{bytes}
use georoute.Errors.{Error, Result, ok, err, wrap, detail}
use georoute.System.{named, World, Env, pure, attempt, resume, read_file, read_ended, tick}
use georoute.System.Traces.{
  Gives, Yields, obtained, gives, last_lem, last_or, deferred_lem, fails, yielded, attempted,
  resumed, ok_inj, not_ok,
}
use georoute.System.Hoare.{Post}
use georoute.Iosxe.{trim_command_output}
use georoute.Flags.{CliFlags}
use georoute.Iosxe.Session.{
  Ssh, router_addr, session_timeout, config_of, dial_iosxe_ssh, feed_script, script_ended,
  select_end, with_session, with_client, run_iosxe_ssh_script,
}

module _ {Signer HostKeys Conn Client Session : Type 0}
    (ssh : Ssh Signer HostKeys Conn Client Session) (env : Env) (f : CliFlags) where
  -- The calls from the world `w` to the client, in the world `v`: the key is the text of the key
  -- file, the host keys are those of the known_hosts file, and the handshake is with the router's
  -- address.
  pub record Authenticated (w : World) (client : Client) (v : World) : Type 0 where
    pub key : Bytes
    pub signer : Signer
    pub hosts : HostKeys
    pub conn : Conn
    pub key_known : World
    pub hosts_known : World
    pub connected : World
    pub key_text : w.files (named f.iosxe_ssh_key_file) ≡ some key
    pub key_read : Gives env (read_file (named f.iosxe_ssh_key_file)) w key key_known
    pub key_parsed : ssh.parse_private_key key ≡ ok signer
    pub hosts_loaded :
        Gives env (ssh.known_hosts f.iosxe_known_hosts_file) key_known hosts hosts_known
    pub dialled :
        Gives env (ssh.dial (session_timeout f) (router_addr f)) hosts_known conn connected
    pub shaken :
        Gives env
          (ssh.new_client_conn conn
            (router_addr f)
            (config_of ssh f (session_timeout f) signer hosts))
          connected
          client
          v

  text_lem :
      (u v : World) (c : Option Bytes) (x : Option Error) {key : Bytes}
      → read_ended u c x ≡ (v, ok key)
      → c ≡ some key
  text_lem u v (some b) none e = ap some (ok_inj (λ i. (e i).1))
  text_lem u v none none e = absurd (not_ok (λ i. (e i).1))
  text_lem u v c (some x) e = absurd (not_ok (λ i. (e i).1))

  read_text :
      (w v : World) (p : Bytes) {key : Bytes}
      → Gives env (read_file (named p)) w key v
      → w.files (named p) ≡ some key
  unfolding read_file
  read_text w v p e = text_lem (tick w) v (w.files (named p)) (env.fault w.clock) e

  dial_lem : (w : World) → Yields env (dial_iosxe_ssh ssh f (session_timeout f)) w (Authenticated w)
  unfolding dial_iosxe_ssh
  dial_lem w =
      obtained (read_file (named f.iosxe_ssh_key_file)) (bytes "read ssh key") (pure tt)
        (λ key w1 read.
          obtained (resume (ssh.parse_private_key key)) (bytes "parse ssh key") (pure tt)
            (λ signer w2 parse.
              obtained (ssh.known_hosts f.iosxe_known_hosts_file) (bytes "load known_hosts")
                (pure tt)
                (λ hosts w3 loaded.
                  obtained (ssh.dial (session_timeout f) (router_addr f)) (bytes "dial ssh")
                    (pure tt)
                    (λ conn w4 dialled.
                      last_or
                        (ssh.new_client_conn conn (router_addr f)
                          (config_of ssh f (session_timeout f) signer hosts))
                        (bytes "ssh handshake") (ssh.close_conn conn)
                        (λ client v shaken.
                          let (parsed, same) = resumed env (ssh.parse_private_key key) parse in
                          record {
                            key = key;
                            signer = signer;
                            hosts = hosts;
                            conn = conn;
                            key_known = w1;
                            hosts_known = w3;
                            connected = w4;
                            key_text = read_text w w1 f.iosxe_ssh_key_file read;
                            key_read = read;
                            key_parsed = parsed;
                            hosts_loaded =
                                subst
                                  (λ u.
                                    Gives env (ssh.known_hosts f.iosxe_known_hosts_file) u hosts w3)
                                  (sym same) loaded;
                            dialled = dialled;
                            shaken = shaken;
                          })))))

  -- The calls of a session from the world `w` to its output: the whole script is written, the input
  -- closed, and the session ends without an error.
  pub record Executed (client : Client) (w : World) (script out : Bytes) : Type 0 where
    pub session : Session
    pub opened_in : World
    pub started_in : World
    pub written_in : World
    pub closed_in : World
    pub ended_in : World
    pub shown_in : World
    pub opened : Gives env (ssh.new_session client) w session opened_in
    pub written : Gives env (ssh.write_string session script) started_in tt written_in
    pub closed : Gives env (ssh.close_stdin session) written_in tt closed_in
    pub ended : Gives env (ssh.wait session) closed_in tt ended_in
    pub shown : Gives env (ssh.output session) ended_in out shown_in

  -- What a feeding that succeeds has done.
  abbrev Fed : Session → Bytes → World → World → Type 0
  Fed session script w v =
      (u : World) × (x : World) × Gives env (ssh.write_string session script) w tt u
      × Gives env (ssh.close_stdin session) u tt x
      × Gives env (ssh.wait session) x tt v

  feed_lem :
      (session : Session) (script : Bytes) (w : World)
      → Yields env (feed_script ssh session script) w (λ _. Fed session script w)
  unfolding feed_script
  feed_lem session script w = gives (attempt (ssh.write_string session script)) (λ r w1 g.
      gives (attempt (ssh.close_stdin session)) (λ c w2 k. gives (resume r) (λ u w3 h.
        gives (resume c) (λ z w4 l. last_lem (ssh.wait session) (λ y v e.
          let (wrote, first) = resumed env r h in
          let (closed, second) = resumed env c l in
          (
            w1,
            w2,
            subst (λ x. ssh.write_string session script env w ≡ (w1, x)) wrote
                (attempted (ssh.write_string session script) g),
            subst (λ x. ssh.close_stdin session env w1 ≡ (w2, x)) closed
                (attempted (ssh.close_stdin session) k),
            subst (λ x. Gives env (ssh.wait session) x tt v) (sym (first ∙ second)) e,
          ))))))

  -- A session from where its shell runs.
  abbrev Shown : Session → Bytes → Bytes → World → Type 0
  Shown session script out v =
      (w : World) × (u : World) × Fed session script w u × Gives env (ssh.output session) u out v

  ended_lem :
      (session : Session) (script : Bytes) (r : Result (Unit {0})) (w u : World)
      → feed_script ssh session script env w ≡ (u, r)
      → Yields env (script_ended ssh session r) u (Shown session script)
  ended_lem session script (ok tt) w u e =
      let fed = yielded (feed_lem session script w) e in
      last_lem (ssh.output session) (λ out v o. (w, u, fed, o))
  ended_lem session script (err e) w u g =
      gives (ssh.output session)
        (λ out v o. fails (detail (wrap (bytes "ssh script failed") e) (trim_command_output out)))

  select_lem :
      (session : Session) (script : Bytes) (over : Option Error) (w : World)
      → Yields env (select_end ssh session script over) w (Shown session script)
  select_lem session script (some e) w =
      gives (attempt (ssh.close_session session))
        (λ x u g. fails (wrap (bytes "ssh script timeout") e))
  select_lem session script none w =
      gives (attempt (feed_script ssh session script))
        (λ r u g. ended_lem session script r w u (attempted (feed_script ssh session script) g))

  session_lem :
      (session : Session) (script : Bytes) (w : World)
      → Yields env (with_session ssh session script) w (Shown session script)
  unfolding with_session
  session_lem session script w =
      obtained (ssh.request_pty session (bytes "vt100") 2000 80) (bytes "request pty") (pure tt)
        (λ a w1 _. obtained (ssh.stdin_pipe session) (bytes "stdin pipe") (pure tt) (λ b w2 _.
          obtained (ssh.shell session) (bytes "start shell") (pure tt) (λ c w3 _.
            gives (ssh.expired session) (λ over w4 _. select_lem session script over w4))))

  client_lem :
      (client : Client) (script : Bytes) (w : World)
      → Yields env (with_client ssh client script) w (λ out _. Executed client w script out)
  unfolding with_client
  client_lem client script w =
      obtained (ssh.new_session client) (bytes "new ssh session") (pure tt) (λ session u opened.
        deferred_lem (ssh.close_session session)
          (λ out v s. record {
            session = session;
            opened_in = u;
            started_in = s.0;
            written_in = s.2.0;
            closed_in = s.2.1;
            ended_in = s.1;
            shown_in = v;
            opened = opened;
            written = s.2.2;
            closed = s.2.3;
            ended = s.2.4;
            shown = s.3;
          })
          (session_lem session script u))

  -- From the world `w` the client was authenticated, and the script executed on it.
  abbrev pub Trusted : World → Bytes → Bytes → Type 0
  Trusted w script out =
      (client : Client) × (u : World) × Authenticated w client u × Executed client u script out

  run_lem :
      (script : Bytes) (w : World)
      → Yields env (run_iosxe_ssh_script ssh f script) w (λ out _. Trusted w script out)
  unfolding run_iosxe_ssh_script
  run_lem script w = gives (dial_iosxe_ssh ssh f (session_timeout f)) (λ client u g.
      deferred_lem (ssh.close_client client) (λ out v x. (client, u, yielded (dial_lem w) g, x))
        (client_lem client script u))

  -- Whatever the SSH library, the network and the files do: where a script is run with success, the
  -- key is the text that the key file had at the start, and these calls succeeded one after the
  -- other: the host keys were loaded from the known_hosts file, the router's address was dialled,
  -- and the handshake with it was given that key and those host keys; on its client a session was
  -- opened, the whole script was written to it, its input was closed, and it ended without an
  -- error; and the output is that session's.
  pub run_iosxe_ssh_script-Trusted :
      (w : World) (script : Bytes)
      → Post
          (λ out _. Trusted w script out)
          (λ _ _. Unit {0})
          (run_iosxe_ssh_script ssh f script env w)
  run_iosxe_ssh_script-Trusted w script = (run_lem script w).run
