-- ===== src/Lib.antt =====
-- georoute: a verification library of the daemon (main.go, cache.go, rollback.go, refresh.go,
-- extras.go, target.go, iosxe_ssh.go, health.go, metrics.go, logging.go).
--
-- The program fetches a country's prefixes from RIPE Stat, with retries and a cache (Fetch),
-- parses them and the operator's extras (Feeds), merges them into a minimal list (Aggregate;
-- ranges of addresses by Ranges), renders and splices that list into frr.conf (Frr), and swaps the
-- file in with a syntax check and a rollback (Rollback, on the files of System). A router target
-- renders the list instead and pushes or writes it (Target, Iosxe). Pipeline and Run join them:
-- nft takes the new sets before FRR is touched. A process (Main) does this once, or in cycles that
-- never overlap (Refresh), under a lock; it reports to a metrics client (Metrics) and to a health
-- server (Health), which is ready while the last success is recent. Flags holds the options.
--
-- Base        shared helpers: tests on numbers, lists, signed integers, powers of two and blocks.
-- Netip       net/netip as the program uses it, and main.go lastAddr. An address is a family, a number
--             and a zone; Rank orders both families on one line, and a prefix is an interval of it.
--             Parse and Format are its texts, RoundTrip what they make of each other.
-- Aggregate   main.go aggregate, canMerge: sort_slice, dedup, merge_pass, merge_loop. sort.Slice is an
--             insertion sort: the order is total on masked prefixes, so every sort gives one list.
-- Ranges      main.go rangeToCIDR: find_mask is the inner loop, range_loop the outer one.
-- Text        Go's strings and strconv over byte lists.
-- Errors      Go's error values, errors.Is and the messages. A context keeps the fixed words of its
--             format; a message with a value behind the error is `detail`.
-- Feeds       main.go parsePrefixes, parseRange; extras.go: the scan of the lines in Feeds, the file
--             around it in Feeds.Load. bufio.Scanner is scan_lines.
-- Metrics     metrics.go: the collectors and the reports; System.Meters has the client's calls.
-- Frr         main.go markers, renderNetworks, splice.
-- System      files, temporary files, faults and the two FRR tools; main.go atomicWrite. System.Hoare
--             states what a part guarantees after a success and after an error, System.Traces which
--             calls it has made, from which worlds.
-- Rollback    rollback.go applyFRRConfigOpts.
-- Flags       main.go cliFlags and applyDefaults; Flags.Parsed the flag definitions of realMain.
-- Target      target.go: the renderers, the guards, runTarget.
-- Fetch       main.go fetchWithRetry, cache.go; Fetch.Response is main.go fetch.
-- Refresh     refresh.go refreshLoop as a step relation.
-- Iosxe       iosxe_ssh.go: the script, the check of the answer, the apply and the save; Iosxe.Session
--             runIOSXESSHScript and dialIOSXESSH.
-- Pipeline    main.go applyNft, and run from the aggregated lists on; Run is run as a whole, over what
--             its target promises (Run.Landing).
-- Logging     logging.go newLogger and parseLogLevel.
-- Health      health.go: the marker, the check, the routes, the listener and the shutdown.
-- Main        main.go realMain from the parsed flags on, and acquireLock; Main.Lock has the processes
--             that share a lock, as a step relation.
-- Examples    concrete runs.
--
-- Bounds and fuel. Addresses are numbers below 2^32 or 2^128, and Next wraps where Go's does. The
-- outer loop of rangeToCIDR runs on as much fuel as addresses are left, and each round uses at
-- least one. merge_loop recurs on the length of the list, which every round that changes anything
-- lowers. The retries recur on the attempts that are left. Counts and sequence numbers stay below
-- 2^63, which would need more prefixes than memory holds. Flags that are Go ints or durations are
-- ℤ, and the product in a retry's delay wraps at 64 bits. ToUpper and ToLower act on ASCII letters, of
-- which ISO country codes are made; for a country with other letters nothing is said.
--
-- The environment. Every call of the system ends as its fault says, at any call; a failed write
-- leaves part of its bytes, and a failed read gives part of them. CreateTemp's names are no names
-- that an operator gives. vtysh reads a file and changes none; frr-reload changes what FRR runs and
-- no file. flock says what the other processes leave it. The clock is read from the environment.
-- HTTP, gzip, JSON, the SSH library and the health library are parameters; of the Prometheus client
-- the world keeps the calls.
--
-- Not modelled: the parsing of arguments, signals and contexts, what is logged, the samples of a dry
-- run, and net/http behind the listener. A daemon's cycles are run here one after the other, which
-- is what Refresh proves of them; the one-shot mode of the refresh loop is a single cycle and has
-- no overlap. Durations in error messages are left out.
pub mod Base
pub mod Netip
pub mod Aggregate
pub mod Ranges
pub mod Text
pub mod Errors
pub mod Feeds
pub mod Metrics
pub mod Frr
pub mod System
pub mod Rollback
pub mod Flags
pub mod Target
pub mod Fetch
pub mod Refresh
pub mod Iosxe
pub mod Pipeline
pub mod Run
pub mod Logging
pub mod Health
pub mod Main
pub mod Examples
