-- ===== src/Limiter/Users/Sync.antt =====
-- How the users that a limiter knows follow the calls.
use mathlib.Core.Option
use mathlib.Core.Path.{subst}
use v2b_x_liusu.Prelude.{
  ◌≡◌, refl, String, Bool, false, ◌||◌, List, [], ◌∷◌, Option, none, some, arith, eq_iff,
  if◌then◌else◌, inl, inr, Option-cases, some_inj,
}
use v2b_x_liusu.Prelude.Int.{ℤ}
use v2b_x_liusu.Prelude.Eq.{◌==◌, string_eq}
use v2b_x_liusu.Dict.{Dict, lookup, insert, lookup-insert, lookup-delete}
use v2b_x_liusu.Text.{user_tag, user_tag_beq}
use v2b_x_liusu.Panel.Types.{UserInfo}
use v2b_x_liusu.Limiter.{Limiter, UserLimitInfo}
use v2b_x_liusu.Limiter.Users.{
  new_user_limit, add_user, delete_user, add_all, delete_all, update_user, new_limiter,
  update_dynamic_speed_limit,
}

-- The last user of a list with the given UUID.
unfoldable pub last_user : String → List UserInfo → Option UserInfo
last_user uuid [] = none
last_user uuid (user ∷ users) = elim (last_user uuid users) [
  | some u ↦ some u
  | none ↦ if user.uuid == uuid then some user else none
]

unfoldable pub has_user : String → List UserInfo → Bool
has_user uuid [] = false
has_user uuid (user ∷ users) = user.uuid == uuid || has_user uuid users

-- What a map holds after `users` have been written over `before`.
abbrev overwritten {ℓ} : {V : Type ℓ} → (UserInfo → V) → Option UserInfo → Option V → Option V
overwritten f none before = before
overwritten f (some u) before = some (f u)

module _ {B R : Type 0} (tag uuid : String) where
  add_all_info :
      (users : List UserInfo) (l : Limiter B R)
      → lookup (user_tag tag uuid) (add_all tag users l).user_limit_info
        ≡ overwritten new_user_limit
            (last_user uuid users)
            (lookup (user_tag tag uuid) l.user_limit_info)
  unfolding add_all last_user
  add_all_info [] l = refl
  add_all_info (user ∷ users) l = ground (
    arith,
    add_all_info users (add_user tag l user),
    user_tag_beq tag user.uuid uuid,
    lookup-insert (user_tag tag user.uuid) (user_tag tag uuid) (new_user_limit user)
        l.user_limit_info,
  )

  delete_all_info :
      (users : List UserInfo) (l : Limiter B R)
      → lookup (user_tag tag uuid) (delete_all tag users l).user_limit_info
        ≡ (if has_user uuid users then none else lookup (user_tag tag uuid) l.user_limit_info)
  unfolding delete_all has_user
  delete_all_info [] l = refl
  delete_all_info (user ∷ users) l = ground (
    arith,
    delete_all_info users (delete_user tag l user),
    user_tag_beq tag user.uuid uuid,
    lookup-delete (user_tag tag user.uuid) (user_tag tag uuid) l.user_limit_info,
  )

  -- After UpdateUser the limits of a user are those of its last entry among the added users; a user
  -- that is only deleted has none; any other user keeps what it had.
  pub update_user_info :
      (added deleted : List UserInfo) (l : Limiter B R)
      → lookup (user_tag tag uuid) (update_user tag added deleted l).user_limit_info
        ≡ overwritten new_user_limit
            (last_user uuid added)
            (if has_user uuid deleted then none else lookup (user_tag tag uuid) l.user_limit_info)
  unfolding update_user
  update_user_info added deleted l =
      rw (add_all_info added (delete_all tag deleted l), delete_all_info deleted l)

  add_all_uid :
      (users : List UserInfo) (l : Limiter B R)
      → lookup uuid (add_all tag users l).uuid_to_uid
        ≡ overwritten (λ u. u.id) (last_user uuid users) (lookup uuid l.uuid_to_uid)
  unfolding add_all last_user
  add_all_uid [] l = refl
  add_all_uid (user ∷ users) l = ground (
    arith,
    add_all_uid users (add_user tag l user),
    lookup-insert user.uuid uuid user.id l.uuid_to_uid,
  )

  delete_all_uid :
      (users : List UserInfo) (l : Limiter B R)
      → lookup uuid (delete_all tag users l).uuid_to_uid
        ≡ (if has_user uuid users then none else lookup uuid l.uuid_to_uid)
  unfolding delete_all has_user
  delete_all_uid [] l = refl
  delete_all_uid (user ∷ users) l = ground (
    arith,
    delete_all_uid users (delete_user tag l user),
    lookup-delete user.uuid uuid l.uuid_to_uid,
  )

  add_all_keeps :
      (users : List UserInfo) (l : Limiter B R)
      → ((add_all tag users l).speed_limiter ≡ l.speed_limiter)
        × ((add_all tag users l).user_online_ip ≡ l.user_online_ip)
  unfolding add_all
  add_all_keeps [] l = (refl, refl)
  add_all_keeps (user ∷ users) l = add_all_keeps users (add_user tag l user)

  delete_all_session :
      (users : List UserInfo) (l : Limiter B R)
      → (lookup (user_tag tag uuid) (delete_all tag users l).speed_limiter
          ≡ (if has_user uuid users then none else lookup (user_tag tag uuid) l.speed_limiter))
        × (lookup (user_tag tag uuid) (delete_all tag users l).user_online_ip
            ≡ (if has_user uuid users then none else lookup (user_tag tag uuid) l.user_online_ip))
  unfolding delete_all has_user
  delete_all_session [] l = (refl, refl)
  delete_all_session (user ∷ users) l = ground (
    arith,
    delete_all_session users (delete_user tag l user),
    user_tag_beq tag user.uuid uuid,
    lookup-delete (user_tag tag user.uuid) (user_tag tag uuid) l.speed_limiter,
    lookup-delete (user_tag tag user.uuid) (user_tag tag uuid) l.user_online_ip,
  )

  -- UpdateUser forgets the bucket and the devices of every deleted user, also of one that it adds
  -- again, so that changed limits take effect, and keeps those of all other users.
  pub update_user_session :
      (added deleted : List UserInfo) (l : Limiter B R)
      → let l' = update_user tag added deleted l in
        (lookup (user_tag tag uuid) l'.speed_limiter
          ≡ (if has_user uuid deleted then none else lookup (user_tag tag uuid) l.speed_limiter))
        × (lookup (user_tag tag uuid) l'.user_online_ip
            ≡ (if has_user uuid deleted then none else lookup (user_tag tag uuid) l.user_online_ip))
  unfolding update_user
  update_user_session added deleted l =
      ground (arith, add_all_keeps added (delete_all tag deleted l), delete_all_session deleted l)

-- The table of ids and the table of limits speak of the same users, with the same ids.
abbrev pub AgreesAt : {B R : Type 0} → String → Limiter B R → String → Type 0
AgreesAt tag l uuid =
    lookup uuid l.uuid_to_uid
    ≡ Option.map (λ (u : UserLimitInfo). u.uid) (lookup (user_tag tag uuid) l.user_limit_info)

pub record IsConsistent {B R : Type 0} (tag : String) (l : Limiter B R) : Type 0 where
  pub agrees : (uuid : String) → AgreesAt tag l uuid

module _ {B R : Type 0} (tag : String) where
  add_all-IsConsistent :
      (users : List UserInfo) {l : Limiter B R}
      → IsConsistent tag l
      → IsConsistent tag (add_all tag users l)
  unfolding new_user_limit
  add_all-IsConsistent users {l} c = record {
    agrees = λ uuid.
        ground (arith, add_all_info tag uuid users l, add_all_uid tag uuid users l, c.agrees uuid);
  }

  -- The limiter that AddLimiter makes is consistent.
  pub new_limiter-IsConsistent :
      (speed_limit : ℤ) (users : List UserInfo) (alive_list : Dict ℤ ℤ)
      → IsConsistent tag (new_limiter {B = B} {R = R} tag speed_limit users alive_list)
  unfolding new_limiter lookup
  new_limiter-IsConsistent speed_limit users alive_list =
      add_all-IsConsistent users (record { agrees = λ uuid. refl })

  -- UpdateUser keeps a limiter consistent.
  pub update_user-IsConsistent :
      (added deleted : List UserInfo) (l : Limiter B R)
      → IsConsistent tag l
      → IsConsistent tag (update_user tag added deleted l)
  unfolding update_user
  update_user-IsConsistent added deleted l c = add_all-IsConsistent added (record {
    agrees = λ uuid. ground (
      arith,
      delete_all_info tag uuid deleted l,
      delete_all_uid tag uuid deleted l,
      c.agrees uuid,
    );
  })

  redated-IsConsistent :
      (uuid : String) (info info' : UserLimitInfo) (l : Limiter B R)
      → lookup (user_tag tag uuid) l.user_limit_info ≡ some info
      → info'.uid ≡ info.uid
      → IsConsistent tag l
      → IsConsistent tag
          (record l { user_limit_info = insert (user_tag tag uuid) info' l.user_limit_info })
  redated-IsConsistent uuid info info' l e same c = record {
    agrees = λ v. ground (
      arith,
      c.agrees v,
      eq_iff uuid v,
      user_tag_beq tag uuid v,
      lookup-insert (user_tag tag uuid) (user_tag tag v) info' l.user_limit_info,
    );
  }

  -- UpdateDynamicSpeedLimit, where it succeeds, keeps a limiter consistent.
  pub update_dynamic_speed_limit-IsConsistent :
      (uuid : String) (limit expire : ℤ) (l l' : Limiter B R)
      → IsConsistent tag l
      → update_dynamic_speed_limit tag uuid limit expire l ≡ some l'
      → IsConsistent tag l'
  unfolding update_dynamic_speed_limit
  update_dynamic_speed_limit-IsConsistent uuid limit expire l l' c h =
      elim (Option-cases (lookup (user_tag tag uuid) l.user_limit_info)) [
        | inl e ↦ absurd (ground arith)
        | inr (info, e) ↦
            subst (IsConsistent tag) (some_inj (rw (e, update_dynamic_speed_limit) at h))
              (redated-IsConsistent uuid info _ l e refl c)
      ]
