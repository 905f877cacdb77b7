-- ===== src/Target/Guards.antt =====
-- target.go's `validateIOSXEApplyGuard` and the push of `runTarget`.
use georoute.Base.{
  ℕ, ◌≡◌, refl, ◌⊎◌, inl, inr, ◌≤◌, true, false, Bool-cases, ◌&&◌, Option, none, some, List, [],
  ◌∷◌, length, ltb, ℤ, pos, negsuc, arith,
}
use georoute.Netip.{Bytes, Prefix}
use georoute.Text.{bytes, bytes_eq}
use georoute.Errors.{Error, Result, ok, err, ◌>>◌}
use georoute.System.{Sys}
use georoute.Flags.{CliFlags}
use georoute.Target.{is_empty, validate_iosxe_apply_guard, required, prefix_limit}
use georoute.Target.Run.{run_target, deliver, candidate_of}

-- The positive limit on a push, where there is one, is not exceeded.
abbrev Within : ℤ → ℕ → Type 0
Within (negsuc m) count = Unit {0}
Within (pos m) count = (m ≡ 0) ⊎ (count ≤ m)

prefix_limit-Within : (z : ℤ) (count : ℕ) → prefix_limit z count ≡ ok tt → Within z count
prefix_limit-Within (negsuc m) count h = tt
prefix_limit-Within (pos m) count h = ground arith

required-inv :
    (s flag : Bytes) (r : Result (Unit {0}))
    → required s flag >> r ≡ ok tt
    → (is_empty s ≡ false) × (r ≡ ok tt)
required-inv [] flag r h = cc h
required-inv (c ∷ s) flag r h = (refl, h)

required-ok : (s flag : Bytes) → required s flag ≡ ok tt → is_empty s ≡ false
required-ok [] flag h = cc h
required-ok (c ∷ s) flag h = refl

limit-inv :
    (z : ℤ) (count : ℕ) (r : Result (Unit {0}))
    → prefix_limit z count >> r ≡ ok tt
    → Within z count × (r ≡ ok tt)
limit-inv (negsuc m) count r h = (tt, h)
limit-inv (pos m) count r h = elim (Bool-cases (ltb 0 m && ltb m count)) [
  | inl y ↦ cc (rw y at h)
  | inr n ↦ (ground arith, rw n at h)
]

-- Everything that a push needs.
pub record Ready (f : CliFlags) (count : ℕ) : Type 0 where
  pub mode : bytes_eq f.target_mode (bytes "apply") ≡ true
  pub limit : Within f.iosxe_apply_max_prefixes count
  pub host : is_empty f.iosxe_ssh_host ≡ false
  pub user : is_empty f.iosxe_ssh_user ≡ false
  pub key : is_empty f.iosxe_ssh_key_file ≡ false
  pub known_hosts : is_empty f.iosxe_known_hosts_file ≡ false

-- The guard lets a push through only in apply mode, within the limit, and with the host, the user,
-- the key and the known hosts given.
pub validate_iosxe_apply_guard-Ready :
    (f : CliFlags) (count : ℕ) → validate_iosxe_apply_guard f count ≡ ok tt → Ready f count
unfolding validate_iosxe_apply_guard
validate_iosxe_apply_guard-Ready f count h =
    elim (Bool-cases (bytes_eq f.target_mode (bytes "apply"))) [
      | inl y ↦
          let (limit, h1) = limit-inv f.iosxe_apply_max_prefixes count _ (rw y at h) in
          let (host, h2) = required-inv f.iosxe_ssh_host _ _ h1 in
          let (user, h3) = required-inv f.iosxe_ssh_user _ _ h2 in
          let (key, h4) = required-inv f.iosxe_ssh_key_file _ _ h3 in
          record {
            mode = y;
            limit = limit;
            host = host;
            user = user;
            key = key;
            known_hosts = required-ok f.iosxe_known_hosts_file _ h4;
          }
      | inr n ↦ cc (rw n at h)
    ]

-- A run that could push: it is not cancelled, not a dry run, not in render mode, renders something,
-- and is ready.
pub record Pushes (cancel : Option Error) (f : CliFlags) (l : List Prefix) (candidate : Bytes)
    : Type 0 where
  pub live : cancel ≡ none
  pub wet : f.dry_run ≡ false
  pub applies : bytes_eq f.target_mode (bytes "render") ≡ false
  pub renders : candidate_of f l ≡ ok candidate
  pub ready : Ready f (length l)

abbrev Pusher : Type 0
Pusher = CliFlags → Bytes → Sys (Unit {0})

guard-cases : (r : Result (Unit {0})) → (r ≡ ok tt) ⊎ ((e : Error) × (r ≡ err e))
guard-cases (ok tt) = inl refl
guard-cases (err e) = inr (e, refl)

rendered-cases : (r : Result Bytes) → ((c : Bytes) × (r ≡ ok c)) ⊎ ((e : Error) × (r ≡ err e))
rendered-cases (ok c) = inl (c, refl)
rendered-cases (err e) = inr (e, refl)

deliver-cases :
    (f : CliFlags) (count : ℕ) (candidate : Bytes)
    → ((f.dry_run ≡ false)
        × (bytes_eq f.target_mode (bytes "render") ≡ false)
        × Ready f count
        × ((push : Pusher) → deliver push f count candidate ≡ push f candidate))
      ⊎ ((push other : Pusher) → deliver push f count candidate ≡ deliver other f count candidate)
unfolding deliver
deliver-cases f count candidate = elim (Bool-cases f.dry_run) [
  | inl y ↦ inr (λ push other. rw y refl)
  | inr wet ↦ elim (Bool-cases (bytes_eq f.target_mode (bytes "render"))) [
    | inl y ↦ inr (λ push other. simp (wet, y))
    | inr m ↦ elim (guard-cases (validate_iosxe_apply_guard f count)) [
      | inl g ↦ inl (wet, m, validate_iosxe_apply_guard-Ready f count g, λ push. simp (wet, m, g))
      | inr (e, g) ↦ inr (λ push other. simp (wet, m, g))
    ]
  ]
]

-- Either the run pushes what the target renders, with everything that a push needs; or what the push
-- would do makes no difference to it.
pub run_target-push :
    (cancel : Option Error) (f : CliFlags) (l : List Prefix)
    → ((candidate : Bytes) × Pushes cancel f l candidate
        × ((push : CliFlags → Bytes → Sys (Unit {0}))
            → run_target cancel push f l ≡ push f candidate))
      ⊎ ((push other : CliFlags → Bytes → Sys (Unit {0}))
          → run_target cancel push f l ≡ run_target cancel other f l)
unfolding run_target
run_target-push (some e) f l = inr (λ push other. refl)
run_target-push none f l = elim (rendered-cases (candidate_of f l)) [
  | inr (e, r) ↦ inr (λ push other. rw r refl)
  | inl (c, r) ↦ elim (deliver-cases f (length l) c) [
    | inl (wet, m, ready, d) ↦ inl (
      c,
      record { live = refl; wet = wet; applies = m; renders = r; ready = ready },
      λ push. rw r (d push),
    )
    | inr same ↦ inr (λ push other. rw r (same push other))
  ]
]
