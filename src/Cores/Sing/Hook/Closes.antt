-- ===== src/Cores/Sing/Hook/Closes.antt =====
-- field/sing/hook.go: which connections are closed.
use v2b_x_liusu.Prelude.{
  ◌≡◌, refl, ap, ◌∙◌, ℕ, String, Bool, true, false, not, ◌&&◌, ◌||◌, List, Option, none, some,
  Bool-cases, Option-cases, inl, inr, arith,
}
use v2b_x_liusu.Prelude.Int.{ℤ}
use v2b_x_liusu.Prelude.Eq.{◌==◌, string_eq}
use v2b_x_liusu.Dict.{lookup}
use v2b_x_liusu.Text.{user_tag, trim_prefix}
use v2b_x_liusu.Limiter.{Limiter, UserLimitInfo}
use v2b_x_liusu.Limiter.Check.{check_limit, user_rate, count_device, give_bucket, take_bucket}
use v2b_x_liusu.Limiter.Check.Rejects.{check_limit_rejects, turned_away}
use v2b_x_liusu.Limiter.Devices.{track_device, add_device, first_device, set_online, forget_old}
use v2b_x_liusu.Limiter.Rules.{check_domain_rule, check_protocol_rule}
use v2b_x_liusu.Limiter.Registry.{deref, get_limiter}
use v2b_x_liusu.Cores.Sing.Hook.{
  Connection, Routed, closed, Hook, rejected_by_rule, pass_rules, route,
}

module _ {B R : Type 0} where
  abbrev rules : Limiter B R → List R × List String
  rules l = (l.domain_rules, l.protocol_rules)

module _ {B R : Type 0} (taguuid : String) where
  track_device-rules :
      (ip : String) (uid device_limit : ℤ) (l : Limiter B R)
      → rules (track_device taguuid ip uid device_limit l).0 ≡ rules l
  unfolding track_device add_device first_device set_online forget_old
  track_device-rules ip uid device_limit l = ground arith

  count_device-rules :
      (stream : Bool) (ip : String) (u : UserLimitInfo) (l : Limiter B R)
      → rules (count_device stream taguuid ip u l).0 ≡ rules l
  unfolding count_device
  count_device-rules true ip u l = track_device-rules ip u.uid u.device_limit l
  count_device-rules false ip u l = refl

  module _ (new_bucket : ℤ → B) (now : ℤ) where
    give_bucket-rules :
        (user_limit : ℤ) (r : Limiter B R × Bool)
        → rules (give_bucket new_bucket taguuid user_limit r).0 ≡ rules r.0
    unfolding give_bucket take_bucket
    give_bucket-rules user_limit (l, true) = refl
    give_bucket-rules user_limit (l, false) = ground arith

    user_rate-rules :
        (u : UserLimitInfo) (l : Limiter B R) → rules (user_rate now taguuid u l).0 ≡ rules l
    unfolding user_rate
    user_rate-rules u l = ground arith

    -- CheckLimit does not change the rules.
    check_limit-rules :
        (stream : Bool) (raw_ip : String) (l : Limiter B R)
        → rules (check_limit new_bucket now taguuid raw_ip stream l).0 ≡ rules l
    unfolding check_limit
    check_limit-rules stream raw_ip l = elim (Option-cases (lookup taguuid l.user_limit_info)) [
      | inl e ↦ rw (e, check_limit) refl
      | inr (u, e) ↦
          let (l', limit) = user_rate now taguuid u l in
          let ip = trim_prefix raw_ip "::ffff:" in
          rw (e, check_limit)
            (give_bucket-rules limit (count_device stream taguuid ip u l')
              ∙ count_device-rules stream ip u l'
              ∙ user_rate-rules u l)
    ]

abbrev pub is_closed : {B : Type 0} → Routed B → Bool
is_closed closed = true
is_closed _ = false

module _ {B R : Type 0} (new_bucket : ℤ → B) (match_string : R → String → Bool) (now : ℤ)
    (m : Connection) (h : Hook B R) (p : ℕ) (l : Limiter B R) where
  pass_rules_closed :
      (l' : Limiter B R) (bucket : Option B) (h' : Hook B R)
      → is_closed (pass_rules new_bucket match_string l' m bucket h').1
        ≡ rejected_by_rule new_bucket match_string l' m
  unfolding pass_rules
  pass_rules_closed l' bucket h' = ground arith

  route_closed :
      (stream : Bool)
      → get_limiter m.inbound h.registry ≡ some p
      → deref p h.registry ≡ some l
      → is_closed (route new_bucket match_string stream now m h).1 ≡ (
          (check_limit new_bucket now (user_tag m.inbound m.user) m.source stream l).2
          || rejected_by_rule new_bucket match_string
              (check_limit new_bucket now (user_tag m.inbound m.user) m.source stream l).0
              m)
  unfolding route
  route_closed stream found at =
      let (l', bucket, reject) =
        check_limit new_bucket now (user_tag m.inbound m.user) m.source stream l in
      rw (found, at, route)
        (elim (Bool-cases reject) [
          | inl e ↦ rw (e) refl
          | inr e ↦ rw (e) (pass_rules_closed l' _ _)
        ])

  rejected_by_rule_cong :
      (k : Limiter B R)
      → rules k ≡ rules l
      → rejected_by_rule new_bucket match_string k m ≡ rejected_by_rule new_bucket match_string l m
  unfolding rejected_by_rule check_domain_rule check_protocol_rule
  rejected_by_rule_cong k same = cc

  -- For an inbound with the limiter `l`, the hook closes exactly the connections of a user that the
  -- limiter does not know, streams from a device that is turned away, and connections whose
  -- destination or protocol a rule rejects. Packets are not counted as devices.
  pub route_closes :
      (stream : Bool)
      → get_limiter m.inbound h.registry ≡ some p
      → deref p h.registry ≡ some l
      → is_closed (route new_bucket match_string stream now m h).1 ≡ (
          (elim (lookup (user_tag m.inbound m.user) l.user_limit_info) [
            | none ↦ true
            | some u ↦
                stream
                && turned_away (user_tag m.inbound m.user) u (trim_prefix m.source "::ffff:") l
          ])
          || (check_domain_rule match_string l m.destination
              || not (m.protocol == "") && check_protocol_rule l m.protocol))
  unfolding rejected_by_rule
  route_closes stream found at =
      let taguuid = user_tag m.inbound m.user in
      let l' = (check_limit new_bucket now taguuid m.source stream l).0 in
      route_closed stream found at
      ∙ ap (λ b. b || rejected_by_rule new_bucket match_string l' m)
          (check_limit_rejects new_bucket now taguuid m.source l stream)
      ∙ ap
          (λ b.
            (elim (lookup taguuid l.user_limit_info) [
              | none ↦ true
              | some u ↦ stream && turned_away taguuid u (trim_prefix m.source "::ffff:") l
            ])
            || b)
          (rejected_by_rule_cong l' (check_limit-rules taguuid new_bucket now stream m.source l))
