-- ===== src/Examples/Effects.antt =====
-- Runs of rollback.go's swap, of the fetch with its cache, and of refresh.go's loop.
use georoute.Base.{
  ℤ, ℕ, ◌≤◌, ◌≡◌, ◌==◌, refl, true, false, Option, none, some, [], ◌∷◌, pos, if◌then◌else◌,
}
use georoute.Netip.{Bytes}
use georoute.Text.{bytes, bytes_eq}
use georoute.Rollback.{checked_swap, swap, read_backup, after_reload}
use georoute.System.{
  deferred, or_else, mkdir_all, create_temp, write_file, close, chmod, remove, rename, read_file,
  frr_syntax_check, frr_reload, set_file, path_eq,
}
use georoute.Errors.{wrap, Error, Result, ok, err, opaque}
use georoute.System.{FilePath, named, temp, World, Env, atomic_write}
use georoute.System.Hoare.{Post, Hoare}
use georoute.System.Files.{Stable, Replaced}
use georoute.System.AtomicWrite.{atomic_write_lem}
use georoute.Rollback.{apply_frr_config_opts}
use georoute.Rollback.Specification.{Applied, Failed}
use georoute.Rollback.Laws.{apply_frr_config_opts-outcome}
use georoute.Fetch.{fetch_with_retry, exhausted}
use georoute.Fetch.Stored.{read_cached_feed-write_cached_feed}
use georoute.Fetch.Cache.{write_cached_feed, read_cached_feed, Format, fetch_with_cache}
use georoute.Fetch.Sources.{Origin, Failure, fetch_with_cache-Origin}
use georoute.Fetch.Retry.{Fails, stop, next, fetch_with_retry-succeeds, fetch_with_retry-exhausts}
use georoute.Refresh.{
  pending, running, lock, Reachable, start, step, returned, selecting, skipped, finished, tick,
  skip, unlock, cancel, done, drained,
}
use georoute.Refresh.{draining, Loop}
use georoute.Refresh.Drain.{CanReturn, draining-CanReturn}
use georoute.Refresh.Laws.{IsConsistent, count, Reachable-IsConsistent, running-most_one}

abbrev conf : Bytes
conf = bytes "f"

abbrev old_text : Bytes
old_text = bytes "old"

abbrev new_text : Bytes
new_text = bytes "new"

-- The config file is there, and FRR runs it.
abbrev files : FilePath → Option Bytes
files (named p) = some old_text
files (temp p n) = none

abbrev pub world : World
world = record {
  files = files;
  running = some old_text;
  nft = none;
  printed = [];
  meters = [];
  clock = 0;
  next = 0;
}

abbrev first_fails : ℕ → Option Bytes → Option Error
first_fails n text = if n == 10 then some (opaque (bytes "exit 1")) else none

-- Every call works, but the first reload fails.
abbrev pub env : Env
env = record {
  fault = λ n. none;
  written = λ n. 0;
  syntax = λ n text. none;
  reload = first_fails;
  left_running = λ n. none;
  nft_check = λ n s. none;
  age = λ n p. pos 5;
  regular = λ n p. true;
  elapsed = λ n. pos 1000;
  now = λ n. pos 1700000000;
  stamp = λ n. bytes "2026";
  flocked = λ n p. none;
}

-- The first reload fails, the backup is restored, and FRR runs it.
rolls_back :
    (apply_frr_config_opts conf new_text false env world).1
    ≡ err (wrap (bytes "reload failed, backup restored") (opaque (bytes "exit 1")))
unfolding apply_frr_config_opts deferred checked_swap swap read_backup after_reload atomic_write
    or_else create_temp write_file close chmod remove rename read_file frr_syntax_check frr_reload
    set_file path_eq bytes_eq
rolls_back = refl

restored :
    (apply_frr_config_opts conf new_text false env world).0.files (named conf) ≡ some old_text
unfolding apply_frr_config_opts deferred checked_swap swap read_backup after_reload atomic_write
    or_else create_temp write_file close chmod remove rename read_file frr_syntax_check frr_reload
    set_file path_eq bytes_eq
restored = refl

apply_frr_config_opts-outcome_example :
    Post
      (λ _. Applied env (λ q. world.files (named q)) conf new_text)
      (Failed env (λ q. world.files (named q)) conf new_text)
      (apply_frr_config_opts conf new_text false env world)
apply_frr_config_opts-outcome_example = apply_frr_config_opts-outcome env world conf new_text

atomic_write_lem_example :
    Hoare env
      (Stable (λ q. some old_text) none)
      (atomic_write conf new_text)
      (λ _. Replaced (λ q. some old_text) none conf new_text)
      (λ _. Stable (λ q. some old_text) none)
atomic_write_lem_example = atomic_write_lem env (λ q. some old_text) none conf new_text

-- Feeds are texts, kept as they are.
abbrev plain : Format Bytes
plain = record { partial = λ t. []; encode = λ t. t; decode = λ t. ok t }

fetch_with_cache-Origin_example :
    Post
      (λ y _.
        Origin plain env
          (λ q. world.files (named q))
          world.running
          world.clock
          conf
          (pos 10)
          (err (opaque []))
          y.0
          y.1)
      (Failure plain env
        (λ q. world.files (named q))
        world.running
        world.clock
        conf
        (pos 10)
        (err (opaque [])))
      (fetch_with_cache plain conf (pos 10) (err (opaque [])) env world)
fetch_with_cache-Origin_example =
    fetch_with_cache-Origin plain env world conf (pos 10) (err (opaque []))

-- The first attempt fails, the second gives a feed.
abbrev second_works : ℕ → Result ℕ
second_works n = if n == 2 then ok 7 else err (opaque [])

abbrev no_cancel : ℕ → ℤ → Option Error
no_cancel n d = none

one_failure : Fails second_works no_cancel (pos 2) 1 1 none (some (opaque []))
one_failure = next (opaque []) refl refl stop

fetch_with_retry-succeeds_example : fetch_with_retry second_works no_cancel (pos 3) (pos 2) ≡ ok 7
fetch_with_retry-succeeds_example =
    fetch_with_retry-succeeds second_works no_cancel (pos 2) 1 1 7 one_failure refl refl

fetch_with_retry-exhausts_example :
    fetch_with_retry second_works no_cancel (pos 1) (pos 2) ≡ err (exhausted (some (opaque [])))
fetch_with_retry-exhausts_example =
    fetch_with_retry-exhausts second_works no_cancel (pos 2) 1 one_failure

-- The first cycle takes the lock, a tick dispatches another, and that one is skipped.
overlapping : Reachable (record {
  metered = true;
  phase = selecting;
  locked = true;
  cycles = skipped ∷ running ∷ [];
  skipped_total = 1;
  canceled = false;
})
overlapping =
    step (step (step (start true) (lock [] [] refl refl)) (tick refl))
      (skip [] (running ∷ []) refl refl)

Reachable-IsConsistent_example : IsConsistent (record {
  metered = true;
  phase = selecting;
  locked = true;
  cycles = skipped ∷ running ∷ [];
  skipped_total = 1;
  canceled = false;
})
Reachable-IsConsistent_example = Reachable-IsConsistent overlapping

running-most_one_example : count running (skipped ∷ running ∷ []) ≤ 1
running-most_one_example = running-most_one overlapping

-- The cycle ends, the context is done, and the loop returns.
over : Reachable (record {
  metered = true;
  phase = returned;
  locked = false;
  cycles = finished ∷ [];
  skipped_total = 0;
  canceled = true;
})
over =
    step
      (step (step (step (step (start true) (lock [] [] refl refl)) (unlock [] [] refl)) cancel)
        (done refl refl))
      (drained refl tt)

-- One cycle runs and another has just been dispatched when the context is done.
abbrev stopping : Loop
stopping = record {
  metered = true;
  phase = draining;
  locked = true;
  cycles = pending ∷ running ∷ [];
  skipped_total = 0;
  canceled = true;
}

draining-CanReturn_example : CanReturn stopping
draining-CanReturn_example = draining-CanReturn stopping refl

abbrev stored : World
stored = (write_cached_feed plain conf new_text env world).0

-- Every call works, and the feed is written.
is_stored : write_cached_feed plain conf new_text env world ≡ (stored, ok tt)
unfolding write_cached_feed or_else mkdir_all create_temp write_file close chmod rename set_file
is_stored = refl

read_cached_feed-write_cached_feed_example :
    (read_cached_feed plain conf (pos 10) env stored).1 ≡ ok new_text
read_cached_feed-write_cached_feed_example =
    read_cached_feed-write_cached_feed plain env conf (pos 10) new_text world stored refl is_stored
      refl refl refl
