-- ===== src/Iosxe/Session.antt =====
-- iosxe_ssh.go: `runIOSXESSHScript` and `dialIOSXESSH` over golang.org/x/crypto/ssh.
use georoute.Base.{
  ℕ, ◌+◌, ◌*◌, Option, none, some, ◌++◌, ◌∷◌, ℤ, pos, negsuc, is_positive, if◌then◌else◌,
}
use georoute.Netip.{Bytes}
use georoute.Text.{bytes, decimal, contains_str}
use georoute.Errors.{Error, Result, ok, err, wrap, detail}
use georoute.System.{
  named, Sys, ◌>>=◌, ◌>>◌, pure, throw, attempt, resume, or_else, deferred, read_file,
}
use georoute.Flags.{CliFlags, second}
use georoute.Iosxe.{trim_command_output}

-- `ssh.ClientConfig` as the program fills it: one public key, and a callback for the host's key.
pub record ClientConfig (Signer HostKeys : Type 0) : Type 0 where
  pub user : Bytes
  pub auth : Signer
  pub host_key_callback : HostKeys
  pub timeout : ℤ

-- The calls of the SSH library and of the dialler. `expired` is the error of the context where it
-- is done before the session's goroutine is.
pub record Ssh (Signer HostKeys Conn Client Session : Type 0) : Type 0 where
  pub parse_private_key : Bytes → Result Signer
  pub known_hosts : Bytes → Sys HostKeys
  pub dial : ℤ → Bytes → Sys Conn
  pub new_client_conn : Conn → Bytes → ClientConfig Signer HostKeys → Sys Client
  pub close_conn : Conn → Sys (Unit {0})
  pub close_client : Client → Sys (Unit {0})
  pub new_session : Client → Sys Session
  pub request_pty : Session → Bytes → ℕ → ℕ → Sys (Unit {0})
  pub stdin_pipe : Session → Sys (Unit {0})
  pub shell : Session → Sys (Unit {0})
  pub write_string : Session → Bytes → Sys (Unit {0})
  pub close_stdin : Session → Sys (Unit {0})
  pub wait : Session → Sys (Unit {0})
  pub expired : Session → Sys (Option Error)
  pub output : Session → Sys Bytes
  pub close_session : Session → Sys (Unit {0})

-- `strconv.Itoa`
abbrev itoa : ℤ → Bytes
itoa (pos n) = decimal n
itoa (negsuc n) = b'-' ∷ decimal (n + 1)

-- `net.JoinHostPort`
unfoldable pub join_host_port : Bytes → Bytes → Bytes
join_host_port host port =
    if contains_str host (bytes ":")
    then bytes "[" ++ (host ++ (bytes "]:" ++ port))
    else host ++ (bytes ":" ++ port)

-- The address of the router.
abbrev pub router_addr : CliFlags → Bytes
router_addr f = join_host_port f.iosxe_ssh_host (itoa f.iosxe_ssh_port)

-- `if timeout <= 0 { timeout = defaultIOSXESSHTimeout }`
abbrev pub session_timeout : CliFlags → ℤ
session_timeout f =
    if is_positive f.iosxe_ssh_timeout then f.iosxe_ssh_timeout else pos (30 * second)

module _ {Signer HostKeys Conn Client Session : Type 0}
    (ssh : Ssh Signer HostKeys Conn Client Session) where
  -- What the program presents to the router and asks of it.
  abbrev pub config_of : CliFlags → ℤ → Signer → HostKeys → ClientConfig Signer HostKeys
  config_of f timeout signer hosts = record {
    user = f.iosxe_ssh_user;
    auth = signer;
    host_key_callback = hosts;
    timeout = timeout;
  }

  unfoldable pub dial_iosxe_ssh : CliFlags → ℤ → Sys Client
  dial_iosxe_ssh f timeout = do
    key ← or_else (read_file (named f.iosxe_ssh_key_file)) (bytes "read ssh key") (pure tt)
    signer ← or_else (resume (ssh.parse_private_key key)) (bytes "parse ssh key") (pure tt)
    hosts ← or_else (ssh.known_hosts f.iosxe_known_hosts_file) (bytes "load known_hosts") (pure tt)
    conn ← or_else (ssh.dial timeout (router_addr f)) (bytes "dial ssh") (pure tt)
    or_else (ssh.new_client_conn conn (router_addr f) (config_of f timeout signer hosts))
        (bytes "ssh handshake") (ssh.close_conn conn)

  -- The goroutine: the script is written and the input closed, whatever the write gives, and then
  -- the session ends.
  unfoldable pub feed_script : Session → Bytes → Sys (Unit {0})
  feed_script session script = do
    written ← attempt (ssh.write_string session script)
    closed ← attempt (ssh.close_stdin session)
    resume written
    resume closed
    ssh.wait session

  abbrev pub script_ended : Session → Result (Unit {0}) → Sys Bytes
  script_ended session (ok _) = ssh.output session
  script_ended session (err e) = do
    out ← ssh.output session
    throw (detail (wrap (bytes "ssh script failed") e) (trim_command_output out))

  -- The `select` of the context and the goroutine.
  abbrev pub select_end : Session → Bytes → Option Error → Sys Bytes
  select_end session script (some e) = do
    attempt (ssh.close_session session)
    throw (wrap (bytes "ssh script timeout") e)
  select_end session script none = do
    r ← attempt (feed_script session script)
    script_ended session r

  unfoldable pub with_session : Session → Bytes → Sys Bytes
  with_session session script = do
    or_else (ssh.request_pty session (bytes "vt100") 2000 80) (bytes "request pty") (pure tt)
    or_else (ssh.stdin_pipe session) (bytes "stdin pipe") (pure tt)
    or_else (ssh.shell session) (bytes "start shell") (pure tt)
    over ← ssh.expired session
    select_end session script over

  unfoldable pub with_client : Client → Bytes → Sys Bytes
  with_client client script = do
    session ← or_else (ssh.new_session client) (bytes "new ssh session") (pure tt)
    deferred (with_session session script) (ssh.close_session session)

  unfoldable pub run_iosxe_ssh_script : CliFlags → Bytes → Sys Bytes
  run_iosxe_ssh_script f script = do
    client ← dial_iosxe_ssh f (session_timeout f)
    deferred (with_client client script) (ssh.close_client client)
