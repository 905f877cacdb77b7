-- ===== src/Iosxe/Laws.antt =====
-- iosxe_ssh.go: the check of the router's answer, and the apply around it.
use georoute.Base.{
  ℕ, true, false, Bool-cases, inl, inr, ◌≡◌, refl, ◌≤◌, List, [], ◌∷◌, All, if◌then◌else◌, leb,
  length, take, arith, length-take, ◌↔◌, leb→le,
}
use georoute.Netip.{Bytes}
use georoute.Text.{bytes, contains_str, trim_space}
use georoute.Errors.{Error, Result, ok, err}
use georoute.System.{World, Env, Sys}
use georoute.System.Hoare.{Post, Hoare, bind_lem, or_else_lem}
use georoute.Flags.{CliFlags}
use georoute.Iosxe.{
  check_rejections, check_required, verify_iosxe_apply_output, and_required, required_markers,
  rejections, where_set, trim_command_output, apply_iosxe_over_ssh, build_iosxe_apply_script,
  verified,
}

abbrev Clean : Bytes → List Bytes → Type 0
Clean out = All (λ m. contains_str out m ≡ false)

abbrev Shows : Bytes → List Bytes → Type 0
Shows out = All (λ m. contains_str out m ≡ true)

check_rejections_iff :
    (l : List Bytes) (out : Bytes) → (check_rejections l out ≡ ok tt) ↔ Clean out l
unfolding check_rejections
check_rejections_iff [] out = ((λ _. tt), (λ _. refl))
check_rejections_iff (m ∷ l) out = elim (Bool-cases (contains_str out m)) [
  | inl y ↦ ((λ h. cc (rw y at h)), (λ h. cc (h.0, y)))
  | inr n ↦ (
    (λ h. (n, (check_rejections_iff l out).0 (rw n at h))),
    (λ h. rw n ((check_rejections_iff l out).1 h.1)),
  )
]

check_required_iff : (l : List Bytes) (out : Bytes) → (check_required l out ≡ ok tt) ↔ Shows out l
unfolding check_required
check_required_iff [] out = ((λ _. tt), (λ _. refl))
check_required_iff (m ∷ l) out = elim (Bool-cases (contains_str out m)) [
  | inr n ↦ ((λ h. cc (rw n at h)), (λ h. cc (h.0, n)))
  | inl y ↦ (
    (λ h. (y, (check_required_iff l out).0 (rw y at h))),
    (λ h. rw y ((check_required_iff l out).1 h.1)),
  )
]

both_iff :
    (x : Result (Unit {0})) (l : List Bytes) (out : Bytes)
    → (and_required x l out ≡ ok tt) ↔ ((x ≡ ok tt) × (check_required l out ≡ ok tt))
both_iff (ok tt) l out = ((λ h. (refl, h)), (λ h. h.1))
both_iff (err e) l out = ((λ h. cc h), (λ h. cc h.0))

-- The check passes just where the answer has none of the rejections and all of the markers.
lists_iff :
    (f : CliFlags) (out : Bytes)
    → (verify_iosxe_apply_output f out ≡ ok tt)
      ↔ (Clean out rejections × Shows out (required_markers f))
unfolding verify_iosxe_apply_output
lists_iff f out =
    let both = both_iff (check_rejections rejections out) (required_markers f) out in
    (
      (λ h. (
        (check_rejections_iff rejections out).0 (both.0 h).0,
        (check_required_iff (required_markers f) out).0 (both.0 h).1,
      )),
      (λ h. both.1 (
        (check_rejections_iff rejections out).1 h.0,
        (check_required_iff (required_markers f) out).1 h.1,
      )),
    )

-- Where the flag is set, the answer has the text.
abbrev Wanted : Bytes → Bytes → Bytes → Type 0
Wanted [] text out = Unit {0}
Wanted (c ∷ s) text out = contains_str out text ≡ true

-- An answer that shows no rejection and everything that is configured.
pub record Applied (f : CliFlags) (out : Bytes) : Type 0 where
  pub not_invalid : contains_str out (bytes "% Invalid") ≡ false
  pub not_ambiguous : contains_str out (bytes "% Ambiguous") ≡ false
  pub not_incomplete : contains_str out (bytes "% Incomplete") ≡ false
  pub not_failed : contains_str out (bytes "Failed") ≡ false
  pub prefix_list : contains_str out f.iosxe_prefix_list ≡ true
  pub route_map : contains_str out f.iosxe_route_map ≡ true
  pub vrf_leak : Wanted f.iosxe_vrf_leak_route_map f.iosxe_vrf_leak_route_map out
  pub static_route_map : Wanted f.iosxe_static_route_map f.iosxe_static_route_map out
  pub redistribution : Wanted f.iosxe_bgp_as (bytes "redistribute static route-map") out

-- An optional marker, and those behind it.
where_set-Shows :
    (flag text out : Bytes) (rest : List Bytes)
    → Shows out (where_set flag text rest) ↔ (Wanted flag text out × Shows out rest)
where_set-Shows [] text out rest = ((λ h. (tt, h)), (λ h. h.1))
where_set-Shows (c ∷ s) text out rest = ((λ h. h), (λ h. h))

module _ (f : CliFlags) (out : Bytes) where
  abbrev behind_static : List Bytes
  behind_static = where_set f.iosxe_bgp_as (bytes "redistribute static route-map") []

  abbrev behind_leak : List Bytes
  behind_leak = where_set f.iosxe_static_route_map f.iosxe_static_route_map behind_static

  Shows-Applied : Clean out rejections → Shows out (required_markers f) → Applied f out
  unfolding required_markers
  Shows-Applied c s =
      let leak = (where_set-Shows f.iosxe_vrf_leak_route_map _ out behind_leak).0 s.1.1 in
      let static = (where_set-Shows f.iosxe_static_route_map _ out behind_static).0 leak.1 in
      let bgp = (where_set-Shows f.iosxe_bgp_as _ out []).0 static.1 in
      record {
        not_invalid = c.0;
        not_ambiguous = c.1.0;
        not_incomplete = c.1.1.0;
        not_failed = c.1.1.1.0;
        prefix_list = s.0;
        route_map = s.1.0;
        vrf_leak = leak.0;
        static_route_map = static.0;
        redistribution = bgp.0;
      }

  Applied-Shows : Applied f out → Clean out rejections × Shows out (required_markers f)
  unfolding required_markers
  Applied-Shows h =
      let bgp = (where_set-Shows f.iosxe_bgp_as _ out []).1 (h.redistribution, tt) in
      let static =
        (where_set-Shows f.iosxe_static_route_map _ out behind_static).1
          (h.static_route_map, bgp) in
      let leak =
        (where_set-Shows f.iosxe_vrf_leak_route_map _ out behind_leak).1 (h.vrf_leak, static) in
      (
        (h.not_invalid, (h.not_ambiguous, (h.not_incomplete, (h.not_failed, tt)))),
        (h.prefix_list, (h.route_map, leak)),
      )

-- The answer is accepted exactly when it has none of "% Invalid", "% Ambiguous", "% Incomplete" and
-- "Failed", and shows the prefix list, the route map, the VRF leak's and the static routes' route
-- maps where they are configured, and, where a BGP process is, the redistribution.
pub verify_iosxe_apply_output_iff :
    (f : CliFlags) (out : Bytes) → (verify_iosxe_apply_output f out ≡ ok tt) ↔ Applied f out
verify_iosxe_apply_output_iff f out =
    let lists = lists_iff f out in
    ((λ h. Shows-Applied f out (lists.0 h).0 (lists.0 h).1), (λ h. lists.1 (Applied-Shows f out h)))

capped : (n : ℕ) (t : Bytes) → length (if leb (length t) n then t else take n t) ≤ n
capped n t = elim (Bool-cases (leb (length t) n)) [
  | inl y ↦ rw y (leb→le _ _ y)
  | inr k ↦ rw k (omega (arith, length-take n t))
]

-- The output that an error quotes has at most 4096 bytes.
pub trim_command_output-bound : (out : Bytes) → length (trim_command_output out) ≤ 4096
unfolding trim_command_output
trim_command_output-bound out = capped 4096 (trim_space out)

Anything : Error → World → Type 0
Anything e w = Unit {0}

result_of : {A : Type 0} (o : World × Result A) → Post (λ a _. o.1 ≡ ok a) Anything o
unfolding Anything
result_of (w, ok a) = refl
result_of (w, err e) = tt

answer_of :
    {A : Type 0} (m : Sys A) (env : Env) (w : World)
    → Hoare env (λ v. v ≡ w) m (λ a _. (m env w).1 ≡ ok a) Anything
answer_of m env w = record { run = λ v e. rw e (result_of (m env w)) }

module _ (ssh : CliFlags → Bytes → Sys Bytes) (env : Env) (w : World) (f : CliFlags)
    (candidate : Bytes) where
  -- The router's answer to the script was accepted.
  abbrev pub Accepted : Type 0
  Accepted =
      (out : Bytes) × ((ssh f (build_iosxe_apply_script f candidate) env w).1 ≡ ok out)
      × Applied f out

  given_accepted :
      (m : Sys (Unit {0})) (P : World → Type 0)
      → Accepted
      → Hoare env P m (λ _ _. Accepted) Anything
  unfolding Anything
  given_accepted m P a = record { run = λ v h. always (m env v) }
    where
      always : (o : World × Result (Unit {0})) → Post (λ _ _. Accepted) Anything o
      always (v, ok x) = a
      always (v, err e) = tt

  verified_lem :
      (out : Bytes) (x : Result (Unit {0}))
      → verify_iosxe_apply_output f out ≡ x
      → Hoare env
          (λ _. (ssh f (build_iosxe_apply_script f candidate) env w).1 ≡ ok out)
          (verified ssh f x)
          (λ _ _. Accepted)
          Anything
  unfolding Anything
  verified_lem out (err e) v = record { run = λ u h. tt }
  verified_lem out (ok tt) v = record {
    run = λ u h.
        (given_accepted (verified ssh f (ok tt)) (λ _. Unit {0})
            (out, h, (verify_iosxe_apply_output_iff f out).0 v)).run
          u tt;
  }

  apply_lem :
      Hoare env (λ v. v ≡ w) (apply_iosxe_over_ssh ssh f candidate) (λ _ _. Accepted) Anything
  unfolding apply_iosxe_over_ssh Anything
  apply_lem =
      bind_lem
        (or_else_lem (λ _. Unit {0}) (bytes "iosxe ssh apply")
          (answer_of (ssh f (build_iosxe_apply_script f candidate)) env w)
          (record { run = λ u h. tt }) (λ e u h. tt) (λ e u h. tt))
        (λ out. verified_lem out (verify_iosxe_apply_output f out) refl)

  -- Whatever the session does: where the apply succeeds, the router's answer to the script of this
  -- candidate had none of the rejections and showed everything that is configured.
  pub apply_iosxe_over_ssh-Accepted :
      Post (λ _ _. Accepted) (λ _ _. Unit {0}) (apply_iosxe_over_ssh ssh f candidate env w)
  unfolding Anything
  apply_iosxe_over_ssh-Accepted = apply_lem.run w refl
