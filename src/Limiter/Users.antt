-- ===== src/Limiter/Users.antt =====
-- veil/limiter.go, AddLimiter's limiter, UpdateUser and UpdateDynamicSpeedLimit, and
-- veil/dynamic.go, AddDynamicSpeedLimit: the users that a limiter knows.
pub mod Sync
use v2b_x_liusu.Prelude.{String, false, not, List, [], ◌∷◌, Option, none, some, if◌then◌else◌}
use v2b_x_liusu.Prelude.Int.{ℤ, pos}
use v2b_x_liusu.Prelude.Eq.{◌==◌, int_eq, string_eq}
use v2b_x_liusu.Dict.{Dict, lookup, insert, delete}
use v2b_x_liusu.Text.{user_tag}
use v2b_x_liusu.Time.{unix, time_add, seconds}
use v2b_x_liusu.Panel.Types.{UserInfo}
use v2b_x_liusu.Limiter.{Limiter, UserLimitInfo}

-- &UserLimitInfo{} with the user's id and limits. The tests `!= 0` of the source only skip
-- writing a 0 over a 0, and `ExpireTime = 0` is its initial value.
unfoldable pub new_user_limit : UserInfo → UserLimitInfo
new_user_limit user = record {
  uid = user.id;
  speed_limit = if not (user.speed_limit == pos 0) then user.speed_limit else pos 0;
  device_limit = if not (user.device_limit == pos 0) then user.device_limit else pos 0;
  dynamic_speed_limit = pos 0;
  expire_time = pos 0;
  over_limit = false;
}

module _ {B R : Type 0} where
  -- The body of the loop over the added users.
  unfoldable pub add_user : String → Limiter B R → UserInfo → Limiter B R
  unfolding new_user_limit
  add_user tag l user = record l {
    uuid_to_uid = insert user.uuid user.id l.uuid_to_uid;
    user_limit_info = insert (user_tag tag user.uuid) (new_user_limit user) l.user_limit_info;
  }

  -- The body of the loop over the deleted users.
  unfoldable pub delete_user : String → Limiter B R → UserInfo → Limiter B R
  delete_user tag l user = record l {
    user_limit_info = delete (user_tag tag user.uuid) l.user_limit_info;
    user_online_ip = delete (user_tag tag user.uuid) l.user_online_ip;
    speed_limiter = delete (user_tag tag user.uuid) l.speed_limiter;
    uuid_to_uid = delete user.uuid l.uuid_to_uid;
    alive_list = delete user.id l.alive_list;
  }

  unfoldable pub add_all : String → List UserInfo → Limiter B R → Limiter B R
  unfolding add_user
  add_all tag [] l = l
  add_all tag (user ∷ users) l = add_all tag users (add_user tag l user)

  unfoldable pub delete_all : String → List UserInfo → Limiter B R → Limiter B R
  unfolding delete_user
  delete_all tag [] l = l
  delete_all tag (user ∷ users) l = delete_all tag users (delete_user tag l user)

  -- UpdateUser(tag, added, deleted)
  unfoldable pub update_user : String → List UserInfo → List UserInfo → Limiter B R → Limiter B R
  unfolding add_all delete_all
  update_user tag added deleted l = add_all tag added (delete_all tag deleted l)

  -- The limiter that AddLimiter makes, before it is put into the table of limiters.
  unfoldable pub new_limiter : String → ℤ → List UserInfo → Dict ℤ ℤ → Limiter B R
  unfolding add_all
  new_limiter tag speed_limit users alive_list = add_all tag users (record {
    domain_rules = [];
    protocol_rules = [];
    speed_limit = speed_limit;
    user_online_ip = [];
    old_user_online = [];
    uuid_to_uid = [];
    user_limit_info = [];
    speed_limiter = [];
    alive_list = alive_list;
  })

  -- UpdateDynamicSpeedLimit(tag, uuid, limit, expire) ; `none` is the error "not found".
  unfoldable pub update_dynamic_speed_limit :
      String → String → ℤ → ℤ → Limiter B R → Option (Limiter B R)
  unfolding unix
  update_dynamic_speed_limit tag uuid limit expire l =
      elim (lookup (user_tag tag uuid) l.user_limit_info) [
        | none ↦ none
        | some info ↦ some (record l {
          user_limit_info =
              insert (user_tag tag uuid)
                (record info { dynamic_speed_limit = limit; expire_time = unix expire })
                l.user_limit_info;
        })
      ]

  -- AddDynamicSpeedLimit(tag, userInfo, limitNum, expire) at the instant `now`, `expire` in seconds.
  unfoldable pub add_dynamic_speed_limit : ℤ → String → UserInfo → ℤ → ℤ → Limiter B R → Limiter B R
  unfolding unix time_add seconds
  add_dynamic_speed_limit now tag user limit_num expire l = record l {
    user_limit_info =
        insert (user_tag tag user.uuid)
          (record {
            uid = pos 0;
            speed_limit = pos 0;
            device_limit = pos 0;
            dynamic_speed_limit = limit_num;
            expire_time = unix (time_add now (seconds expire));
            over_limit = false;
          })
          l.user_limit_info;
  }
