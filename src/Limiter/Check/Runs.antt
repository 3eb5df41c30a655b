-- ===== src/Limiter/Check/Runs.antt =====
-- veil/limiter.go, CheckLimit: the connections that come one after another.
use v2b_x_liusu.Prelude.{
  ◌≡◌, refl, ap, ◌∙◌, String, Bool, true, false, List, [], ◌∷◌, none, some, All, arith, eq_iff,
  is_some, inl, inr, Option-cases,
}
use v2b_x_liusu.Prelude.Int.{ℤ, pos}
use v2b_x_liusu.Prelude.Eq.{◌==◌, string_eq}
use v2b_x_liusu.Dict.{lookup, lookup-delete}
use v2b_x_liusu.Text.{trim_prefix}
use v2b_x_liusu.Limiter.{Limiter, UserLimitInfo}
use v2b_x_liusu.Limiter.Devices.{forget_old, track_device}
use v2b_x_liusu.Limiter.Devices.Admission.{online}
use v2b_x_liusu.Limiter.Online.{get_online_device}
use v2b_x_liusu.Limiter.Online.Report.{get_online_device-remembers}
use v2b_x_liusu.Limiter.Check.{user_rate, take_bucket, count_device, give_bucket, check_limit}
use v2b_x_liusu.Limiter.Check.Rejects.{check_limit_rejects, user_rate_keeps}
use v2b_x_liusu.Limiter.Check.Expiry.{check_limit_info, is_expired}

-- The arguments of CheckLimit, and the time.
pub record Arrival : Type 0 where
  pub at : ℤ
  pub taguuid : String
  pub raw_ip : String
  pub no_ss_udp : Bool

-- No connection of the list comes from the address.
abbrev pub ComeFromElsewhere : String → List Arrival → Type 0
ComeFromElsewhere j cs = All (λ (c : Arrival). (trim_prefix c.raw_ip "::ffff:" == j) ≡ false) cs

module _ {B R : Type 0} (new_bucket : ℤ → B) where
  -- The limiter after the connections.
  unfoldable pub check_all : List Arrival → Limiter B R → Limiter B R
  check_all [] l = l
  check_all (c ∷ cs) l =
      check_all cs (check_limit new_bucket c.at c.taguuid c.raw_ip c.no_ss_udp l).0

  unknown :
      (c : Arrival) (l : Limiter B R)
      → lookup c.taguuid l.user_limit_info ≡ none
      → (check_limit new_bucket c.at c.taguuid c.raw_ip c.no_ss_udp l).0 ≡ l
  unfolding check_limit
  unknown c l e = rw (e, check_limit) refl

  -- A user that is not known does not become known by a connection.
  stays_unknown :
      (t : String) (c : Arrival) (l : Limiter B R)
      → lookup t l.user_limit_info ≡ none
      → lookup t (check_limit new_bucket c.at c.taguuid c.raw_ip c.no_ss_udp l).0.user_limit_info
        ≡ none
  stays_unknown t c l h = elim (Option-cases (lookup c.taguuid l.user_limit_info)) [
    | inl e ↦ rw (unknown c l e) h
    | inr (u, e) ↦ ground (
      arith,
      h,
      e,
      eq_iff c.taguuid t,
      check_limit_info new_bucket c.at c.taguuid c.raw_ip c.no_ss_udp u l t e,
    )
  ]

  check_all-unknown :
      (t : String) (cs : List Arrival) (l : Limiter B R)
      → lookup t l.user_limit_info ≡ none
      → lookup t (check_all cs l).user_limit_info ≡ none
  unfolding check_all
  check_all-unknown t [] l h = h
  check_all-unknown t (c ∷ cs) l h = check_all-unknown t cs _ (stays_unknown t c l h)

  -- A known user with no speed limit of its own is shut out once its dynamic limit has expired: one
  -- connection, accepted or not, removes its entry, and every connection of the user after that is
  -- rejected, as long as nothing but connections, of whichever users, comes in between.
  pub expired_user_rejected :
      (first later : Arrival) (between : List Arrival) (u : UserLimitInfo) (l : Limiter B R)
      → lookup first.taguuid l.user_limit_info ≡ some u
      → is_expired first.at u ≡ true
      → u.speed_limit ≡ pos 0
      → later.taguuid ≡ first.taguuid
      → (check_limit new_bucket later.at later.taguuid later.raw_ip later.no_ss_udp
          (check_all (first ∷ between) l)).2
        ≡ true
  unfolding check_all
  expired_user_rejected first later between u l e x z same =
      let l1 = (check_limit new_bucket first.at first.taguuid first.raw_ip first.no_ss_udp l).0 in
      let gone : lookup first.taguuid l1.user_limit_info ≡ none = ground (
        arith,
        e,
        x,
        z,
        eq_iff first.taguuid first.taguuid,
        check_limit_info new_bucket first.at first.taguuid first.raw_ip first.no_ss_udp u l
            first.taguuid e,
      ) in
      ground (
        arith,
        same,
        check_all-unknown first.taguuid between l1 gone,
        check_limit_rejects new_bucket later.at later.taguuid later.raw_ip (check_all between l1)
            later.no_ss_udp,
      )

module _ {B R : Type 0} (taguuid ip j : String) (other : (ip == j) ≡ false) where
  forget_old-old :
      (uid v : ℤ) (l : Limiter B R)
      → lookup j (forget_old ip uid v l).old_user_online ≡ lookup j l.old_user_online
  unfolding forget_old
  forget_old-old uid v l = ground (arith, other, lookup-delete ip j l.old_user_online)

  track_device-old :
      (uid device_limit : ℤ) (l : Limiter B R)
      → lookup j (track_device taguuid ip uid device_limit l).0.old_user_online
        ≡ lookup j l.old_user_online
  unfolding track_device
  track_device-old uid device_limit l = ground (arith, other, lookup-delete ip j l.old_user_online)

  count_device-old :
      (no_ss_udp : Bool) (u : UserLimitInfo) (l : Limiter B R)
      → lookup j (count_device no_ss_udp taguuid ip u l).0.old_user_online
        ≡ lookup j l.old_user_online
  unfolding count_device
  count_device-old true u l = track_device-old u.uid u.device_limit l
  count_device-old false u l = refl

module _ {B R : Type 0} (new_bucket : ℤ → B) where
  give_bucket-old :
      (taguuid : String) (user_limit : ℤ) (r : Limiter B R × Bool)
      → (give_bucket new_bucket taguuid user_limit r).0.old_user_online ≡ r.0.old_user_online
  unfolding give_bucket take_bucket
  give_bucket-old taguuid user_limit (l, true) = refl
  give_bucket-old taguuid user_limit (l, false) = ground arith

  -- A connection from another address leaves what is remembered of an address.
  check_limit-old :
      (j : String) (c : Arrival) (l : Limiter B R)
      → (trim_prefix c.raw_ip "::ffff:" == j) ≡ false
      → lookup j (check_limit new_bucket c.at c.taguuid c.raw_ip c.no_ss_udp l).0.old_user_online
        ≡ lookup j l.old_user_online
  unfolding check_limit
  check_limit-old j c l other = elim (Option-cases (lookup c.taguuid l.user_limit_info)) [
    | inl e ↦ rw (unknown new_bucket c l e) refl
    | inr (u, e) ↦
        rw (e, check_limit)
          (ap (lookup j) (give_bucket-old c.taguuid _ _)
            ∙ count_device-old c.taguuid (trim_prefix c.raw_ip "::ffff:") j other c.no_ss_udp u
                (user_rate c.at c.taguuid u l).0
            ∙ ap (lookup j) (user_rate_keeps c.at c.taguuid u l).1)
  ]

  check_all-old :
      (j : String) (cs : List Arrival) (l : Limiter B R)
      → ComeFromElsewhere j cs
      → lookup j (check_all new_bucket cs l).old_user_online ≡ lookup j l.old_user_online
  unfolding check_all
  check_all-old j [] l h = refl
  check_all-old j (c ∷ cs) l h = check_all-old j cs _ h.1 ∙ check_limit-old j c l h.0

  -- A device that was online when the devices were reported is not turned away when it connects
  -- again, however many devices the panel counts, if nothing but connections from other addresses
  -- has come in between and the limiter knows its user then.
  pub reconnect_after_report :
      (c : Arrival) (between : List Arrival) (u : UserLimitInfo) (l : Limiter B R)
      → is_some (online l c.taguuid (trim_prefix c.raw_ip "::ffff:")) ≡ true
      → ComeFromElsewhere (trim_prefix c.raw_ip "::ffff:") between
      → let l' = check_all new_bucket between (get_online_device l).0 in
        lookup c.taguuid l'.user_limit_info ≡ some u
        → (check_limit new_bucket c.at c.taguuid c.raw_ip c.no_ss_udp l').2 ≡ false
  reconnect_after_report c between u l h elsewhere known =
      let ip = trim_prefix c.raw_ip "::ffff:" in
      let l' = check_all new_bucket between (get_online_device l).0 in
      ground (
        arith,
        known,
        get_online_device-remembers l c.taguuid ip h,
        check_all-old ip between (get_online_device l).0 elsewhere,
        check_limit_rejects new_bucket c.at c.taguuid c.raw_ip l' c.no_ss_udp,
      )
