-- ===== src/Health/Marker.antt =====
-- health.go's `writeLastSuccess`, call by call.
use georoute.Base.{Option, none, some, ◌++◌, take}
use georoute.Netip.{Bytes}
use georoute.Text.{bytes}
use georoute.Errors.{Error}
use georoute.System.{
  FilePath, named, World, Env, ◌>>◌, pure, attempt, or_else, write_file, close, rename, remove,
  time_stamp, put, ended, settled,
}
use georoute.System.Hoare.{Post, Hoare, bind_lem, or_else_lem, weaken, given}
use georoute.System.Files.{
  Stable, Staged, Replaced, IsTemp, Stable-put, set_file-same, mkdir_all_lem, create_temp_lem,
  close_lem, remove_lem, rename_lem,
}
use georoute.System.AtomicWrite.{step}
use georoute.Health.{write_last_success}

module _ (env : Env) (g : Bytes → Option Bytes) (r : Option Bytes) where
  -- A temporary file with some contents.
  abbrev Held : FilePath → World → Type 0
  Held p w = (c : Bytes) × Staged g r p c w

  nothing : Hoare env (Stable g r) (pure {A = Unit {0}} tt) (λ _. Stable g r) (λ _. Stable g r)
  nothing = record { run = λ w h. h }

  -- A write whose outcome nobody reads.
  unread_lem :
      (p : FilePath) (c : Bytes)
      → IsTemp p
      → Hoare env (Stable g r) (attempt (write_file p c)) (λ _. Held p) (λ _. Stable g r)
  unfolding write_file
  unread_lem p c t = record { run = λ w h. by_fault w h (env.fault w.clock) }
    where
      by_fault :
          (w : World)
          → Stable g r w
          → (x : Option Error)
          → Post
              (λ _. Held p)
              (λ _. Stable g r)
              (settled (
                ended
                  (put w p (some (take (env.written w.clock) c)))
                  (put w p (some c))
                  (tt {0})
                  x))
      by_fault w h none = (c, (Stable-put g r w p (some c) t h, set_file-same w.files p (some c)))
      by_fault w h (some e) =
          let d = take (env.written w.clock) c in
          (d, (Stable-put g r w p (some d) t h, set_file-same w.files p (some d)))

  renaming :
      (path : Bytes) (tmp : FilePath) (c : Bytes)
      → IsTemp tmp
      → Hoare env
          (Staged g r tmp c)
          (or_else (close tmp) (bytes "close last-success") (remove tmp)
            >> or_else (rename tmp (named path)) (bytes "rename last-success") (remove tmp))
          (λ _ w. (c : Bytes) × Replaced g r path c w)
          (λ _. Stable g r)
  renaming path tmp c t =
      bind_lem (step env g r _ _ (close_lem env g r tmp tmp c) (remove_lem env g r tmp t)) (λ _.
        weaken (λ w h. h) (λ a w h. (c, h)) (λ e w h. h)
          (step env g r _ _ (rename_lem env g r tmp path c t) (remove_lem env g r tmp t)))

  holding :
      (path : Bytes) (tmp : FilePath)
      → IsTemp tmp
      → Hoare env
          (Held tmp)
          (or_else (close tmp) (bytes "close last-success") (remove tmp)
            >> or_else (rename tmp (named path)) (bytes "rename last-success") (remove tmp))
          (λ _ w. (c : Bytes) × Replaced g r path c w)
          (λ _. Stable g r)
  holding path tmp t = record { run = λ w h. (renaming path tmp h.0 t).run w h.1 }

  -- After a success the marker is there, and after an error no named file has changed.
  pub write_last_success_lem :
      (path : Bytes)
      → Hoare env
          (Stable g r)
          (write_last_success path)
          (λ _ w. (c : Bytes) × Replaced g r path c w)
          (λ _. Stable g r)
  unfolding write_last_success time_stamp
  write_last_success_lem path =
      bind_lem (step env g r _ _ (mkdir_all_lem env g r path) nothing) (λ _.
        bind_lem
          (or_else_lem (Stable g r) (bytes "create temp last-success")
            (create_temp_lem env g r path) nothing (λ e w h. h) (λ e w h. h))
          (λ tmp. given (λ t. bind_lem stamped (λ stamp.
            bind_lem (unread_lem tmp (stamp ++ bytes "\n") t) (λ _. holding path tmp t)))))
    where
      stamped : Hoare env (Stable g r) time_stamp (λ _. Stable g r) (λ _. Stable g r)
      stamped = record { run = λ w h. h }
