-- ===== src/System.antt =====
-- The operating system as the program uses it: files by path, temporary files, and the runs of
-- vtysh and frr-reload; main.go's `atomicWrite` on top of it.
pub mod Hoare
pub mod Files
pub mod AtomicWrite
pub mod Meters
pub mod Traces
use georoute.Base.{
  ℕ, ◌+◌, Bool, true, false, ◌&&◌, Option, none, some, List, [], ◌∷◌, ◌++◌, ◌==◌, if◌then◌else◌,
  take, length, ℤ,
}
use georoute.Netip.{Bytes}
use georoute.Text.{bytes, bytes_eq}
use georoute.System.Meters.{Measure}
use georoute.Errors.{Error, Result, ok, err, sentinel, wrap, not_exist}

-- A path that the operator names, or the n-th name that `os.CreateTemp` invents beside it.
pub data FilePath : Type 0 where
  named : Bytes → FilePath
  temp : Bytes → ℕ → FilePath

unfoldable pub path_eq : FilePath → FilePath → Bool
unfolding bytes_eq
path_eq (named a) (named b) = bytes_eq a b
path_eq (named a) (temp b m) = false
path_eq (temp a n) (named b) = false
path_eq (temp a n) (temp b m) = bytes_eq a b && n == m

-- `running` is the config that FRR runs, `nft` the last script that nft took, `printed` what stdout
-- shows, `meters` the calls of the metrics client, the latest first; `clock` numbers the calls,
-- `next` the temporary files.
pub record World : Type 0 where
  pub files : FilePath → Option Bytes
  pub running : Option Bytes
  pub nft : Option Bytes
  pub printed : Bytes
  pub meters : List Measure
  pub clock : ℕ
  pub next : ℕ

-- How the n-th call ends. A failed write leaves some of its bytes behind; vtysh and frr-reload
-- judge the file that they are given, and a failed reload leaves some config running;
-- `age` is the time since a file was last written, `regular` whether it is a regular one, and
-- `nft_check` what nft says to a script; `elapsed` is what `time.Since` gives for a start that the
-- program noted, `now` and `stamp` are the time as a Unix number and as a text;
-- `flocked` is what flock says, which depends on the other processes.
pub record Env : Type 0 where
  pub fault : ℕ → Option Error
  pub written : ℕ → ℕ
  pub syntax : ℕ → Option Bytes → Option Error
  pub reload : ℕ → Option Bytes → Option Error
  pub left_running : ℕ → Option Bytes
  pub nft_check : ℕ → Bytes → Option Error
  pub age : ℕ → FilePath → ℤ
  pub regular : ℕ → FilePath → Bool
  pub elapsed : ℕ → ℤ
  pub now : ℕ → ℤ
  pub stamp : ℕ → Bytes
  pub flocked : ℕ → Bytes → Option Error

-- A part of the program that uses the system.
abbrev pub Sys {ℓ} : Type ℓ → Type ℓ
Sys A = Env → World → World × Result A

abbrev pub after {ℓ κ} :
    {A : Type ℓ} {B : Type κ} → (A → Sys B) → Env → World × Result A → World × Result B
after f env (w, ok a) = f a env w
after f env (w, err e) = (w, err e)

infixl 5 ◌>>=◌ ◌>>◌
abbrev pub ◌>>=◌ {ℓ κ} : {A : Type ℓ} {B : Type κ} → Sys A → (A → Sys B) → Sys B
m >>= f = λ env w. after f env (m env w)

abbrev pub ◌>>◌ {ℓ κ} : {A : Type ℓ} {B : Type κ} → Sys A → Sys B → Sys B
m >> n = m >>= λ _. n

abbrev pub pure {ℓ} : {A : Type ℓ} → A → Sys A
pure a = λ env w. (w, ok a)

abbrev pub throw {ℓ} : {A : Type ℓ} → Error → Sys A
throw e = λ env w. (w, err e)

abbrev pub settled {ℓ} : {A : Type ℓ} → World × Result A → World × Result (Result A)
settled (w, r) = (w, ok r)

-- The result as a value, for code that looks at the error.
abbrev pub attempt {ℓ} : {A : Type ℓ} → Sys A → Sys (Result A)
attempt m = λ env w. settled (m env w)

abbrev pub recovered {ℓ} :
    {A : Type ℓ} → Bytes → Sys (Unit {0}) → Env → World × Result A → World × Result A
recovered context cleanup env (w, ok a) = (w, ok a)
recovered context cleanup env (w, err e) = ((cleanup env w).0, err (wrap context e))

-- `if err != nil { cleanup; return fmt.Errorf("context: %w", err) }`
unfoldable pub or_else {ℓ} : {A : Type ℓ} → Sys A → Bytes → Sys (Unit {0}) → Sys A
or_else m context cleanup = λ env w. recovered context cleanup env (m env w)

abbrev pub finished {ℓ} : {A : Type ℓ} → Sys (Unit {0}) → Env → World × Result A → World × Result A
finished cleanup env (w, r) = ((cleanup env w).0, r)

-- `defer func() { _ = cleanup() }()`
unfoldable pub deferred {ℓ} : {A : Type ℓ} → Sys A → Sys (Unit {0}) → Sys A
deferred m cleanup = λ env w. finished cleanup env (m env w)

-- A call fails by its fault, and does something then too; else it takes effect.
abbrev pub ended {ℓ} : {A : Type ℓ} → World → World → A → Option Error → World × Result A
ended broken done a none = (done, ok a)
ended broken done a (some e) = (broken, err e)

unfoldable pub set_file :
    (FilePath → Option Bytes) → FilePath → Option Bytes → FilePath → Option Bytes
unfolding path_eq
set_file files p contents q = if path_eq p q then contents else files q

abbrev pub put : World → FilePath → Option Bytes → World
put w p contents = record w { files = set_file w.files p contents; clock = w.clock + 1 }

abbrev pub tick : World → World
tick w = record w { clock = w.clock + 1 }

-- `os.CreateTemp(dir, base+".*")` beside the path.
unfoldable pub create_temp : Bytes → Sys FilePath
unfolding set_file
create_temp base = λ env w.
    ended (tick w) (record (put w (temp base w.next) (some [])) { next = w.next + 1 })
      (temp base w.next) (env.fault w.clock)

-- `os.MkdirAll` of the directory of a path.
unfoldable pub mkdir_all : Bytes → Sys (Unit {0})
mkdir_all path = λ env w. ended (tick w) (tick w) tt (env.fault w.clock)

-- `File.Write` of the whole contents to a file that was just made.
unfoldable pub write_file : FilePath → Bytes → Sys (Unit {0})
unfolding set_file
write_file p contents = λ env w.
    ended (put w p (some (take (env.written w.clock) contents))) (put w p (some contents)) tt
      (env.fault w.clock)

-- `File.Chmod` and `File.Close`: the contents stay.
unfoldable pub chmod : FilePath → Sys (Unit {0})
chmod p = λ env w. ended (tick w) (tick w) tt (env.fault w.clock)

unfoldable pub close : FilePath → Sys (Unit {0})
close p = λ env w. ended (tick w) (tick w) tt (env.fault w.clock)

unfoldable pub remove : FilePath → Sys (Unit {0})
unfolding set_file
remove p = λ env w. ended (tick w) (put w p none) tt (env.fault w.clock)

-- `fmt.Fprint` to stdout.
unfoldable pub print : Bytes → Sys (Unit {0})
print text =
    λ env w. ended (tick w) (record (tick w) { printed = w.printed ++ text }) tt (env.fault w.clock)

-- `os.Rename`, within a directory: the new name has the contents, the old one is gone.
unfoldable pub rename : FilePath → FilePath → Sys (Unit {0})
unfolding set_file
rename p q = λ env w.
    ended (tick w)
      (record (put w p none) { files = set_file (set_file w.files p none) q (w.files p) }) tt
      (env.fault w.clock)

abbrev aged : World → ℤ → Option Bytes → World × Result ℤ
aged w age none = (w, err (sentinel not_exist))
aged w age (some b) = (w, ok age)

abbrev pub stat_ended : World → ℤ → Option Bytes → Option Error → World × Result ℤ
stat_ended w age contents none = aged w age contents
stat_ended w age contents (some e) = (w, err e)

-- `os.Stat`, and the age that `time.Since` makes of its answer.
unfoldable pub stat_age : FilePath → Sys ℤ
stat_age p = λ env w. stat_ended (tick w) (env.age w.clock p) (w.files p) (env.fault w.clock)

abbrev contents_or : World → Option Bytes → World × Result Bytes
contents_or w none = (w, err (sentinel not_exist))
contents_or w (some b) = (w, ok b)

abbrev pub read_ended : World → Option Bytes → Option Error → World × Result Bytes
read_ended w contents none = contents_or w contents
read_ended w contents (some e) = (w, err e)

-- `os.ReadFile`
unfoldable pub read_file : FilePath → Sys Bytes
read_file p = λ env w. read_ended (tick w) (w.files p) (env.fault w.clock)

-- What a reader that fails midway has given, and its error.
abbrev streamed : World → ℕ → Bytes → Option Error → World × Result (Bytes × Option Error)
streamed w n contents none = (w, ok (contents, none))
streamed w n contents (some e) = (w, ok (take n contents, some e))

abbrev pub stream_ended :
    World → ℕ → Option Bytes → Option Error → World × Result (Bytes × Option Error)
stream_ended w n none e = (w, err (sentinel not_exist))
stream_ended w n (some contents) e = streamed w n contents e

-- The bytes of an open file, as a scanner reads them, and how the reading ends.
unfoldable pub read_stream : FilePath → Sys (Bytes × Option Error)
read_stream p = λ env w. stream_ended (tick w) (env.written w.clock) (w.files p) (env.fault w.clock)

-- `os.Open`: the file has to be there.
unfoldable pub open_file : FilePath → Sys (Unit {0})
open_file p = read_file p >>= (λ _. pure tt)

abbrev created : Option Bytes → Option Bytes
created none = some []
created (some b) = some b

-- `os.OpenFile` with O_CREATE: an empty file where there is none.
unfoldable pub open_create : FilePath → Sys (Unit {0})
unfolding set_file
open_create p = λ env w. ended (tick w) (put w p (created (w.files p))) tt (env.fault w.clock)

-- `unix.Flock` for an exclusive lock, without waiting.
unfoldable pub flock : Bytes → Sys (Unit {0})
flock path = λ env w. ended (tick w) (tick w) tt (env.flocked w.clock path)

abbrev sized : World → Bool → Option Bytes → World × Result (Option ℕ)
sized w regular none = (w, err (sentinel not_exist))
sized w regular (some b) = (w, ok (if regular then some (length b) else none))

abbrev pub size_ended : World → Bool → Option Bytes → Option Error → World × Result (Option ℕ)
size_ended w regular contents none = sized w regular contents
size_ended w regular contents (some e) = (w, err e)

-- `File.Stat` for the size of a regular file.
unfoldable pub stat_size : FilePath → Sys (Option ℕ)
stat_size p = λ env w. size_ended (tick w) (env.regular w.clock p) (w.files p) (env.fault w.clock)

-- A call of the metrics client.
unfoldable pub measure : Measure → Sys (Unit {0})
measure x = λ env w. (record w { meters = x ∷ w.meters }, ok tt)

-- `time.Since(start)`, `time.Now().Unix()` and `time.Now().UTC().Format(time.RFC3339)`.
unfoldable pub time_since : Sys ℤ
time_since = λ env w. (tick w, ok (env.elapsed w.clock))

unfoldable pub unix_now : Sys ℤ
unix_now = λ env w. (tick w, ok (env.now w.clock))

unfoldable pub time_stamp : Sys Bytes
time_stamp = λ env w. (tick w, ok (env.stamp w.clock))

abbrev pub resume {ℓ} : {A : Type ℓ} → Result A → Sys A
resume (ok a) = pure a
resume (err e) = throw e

-- A call whose outcome is looked at before its error is.
unfoldable pub watched {ℓ} : {A : Type ℓ} → Sys A → (Result A → Sys (Unit {0})) → Sys A
watched m o = attempt m >>= (λ r. o r >> resume r)

-- `defaultFrrSyntaxCheck`: vtysh reads the file and changes nothing.
unfoldable pub frr_syntax_check : FilePath → Sys (Unit {0})
frr_syntax_check p = λ env w. ended (tick w) (tick w) tt (env.syntax w.clock (w.files p))

-- `defaultFrrReload`: on success FRR runs the file.
unfoldable pub frr_reload : FilePath → Sys (Unit {0})
frr_reload p = λ env w.
    ended (record (tick w) { running = env.left_running w.clock })
      (record (tick w) { running = w.files p }) tt (env.reload w.clock (w.files p))

-- `nft -f -`: the script is one transaction.
unfoldable pub run_nft : Bytes → Sys (Unit {0})
run_nft script = λ env w.
    ended (tick w) (record (tick w) { nft = some script }) tt (env.nft_check w.clock script)

-- `atomicWrite`
unfoldable pub atomic_write : Bytes → Bytes → Sys (Unit {0})
atomic_write path contents = do
  tmp ← or_else (create_temp path) (bytes "create temp") (pure tt)
  or_else (write_file tmp contents) (bytes "write tmp") (do attempt (close tmp); remove tmp)
  or_else (chmod tmp) (bytes "chmod tmp") (do attempt (close tmp); remove tmp)
  or_else (close tmp) (bytes "close tmp") (remove tmp)
  or_else (rename tmp (named path)) (bytes "rename") (remove tmp)
