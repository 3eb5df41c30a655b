-- ===== src/Limiter/Registry.antt =====
-- veil/limiter.go: the table of limiters and AddLimiter, GetLimiter, DeleteLimiter. A limiter is
-- shared by pointer between the table and the controllers, so it stands in a heap; an entry that
-- leaves the table stays readable through the pointers that are left. The lock makes each access to
-- the table one step.
use v2b_x_liusu.Prelude.{
  ℕ, ◌+◌, ◌<◌, ◌≡◌, String, List, [], Option, none, some, arith, eq_iff, if◌then◌else◌,
}
use v2b_x_liusu.Prelude.Int.{ℤ}
use v2b_x_liusu.Prelude.Eq.{◌==◌, nat_eq, string_eq, nat_beq_iff}
use v2b_x_liusu.Dict.{
  Dict, lookup, insert, delete, lookup-insert, lookup-delete, lookup-insert_self,
}
use v2b_x_liusu.Panel.Types.{UserInfo}
use v2b_x_liusu.Limiter.{Limiter}
use v2b_x_liusu.Limiter.Users.{new_limiter}

pub record Registry (B R : Type 0) : Type 0 where
  pub limiters : Dict String ℕ
  pub heap : Dict ℕ (Limiter B R)
  pub next : ℕ

module _ {B R : Type 0} where
  -- Init()
  unfoldable pub init : Registry B R
  init = record { limiters = []; heap = []; next = 0 }

  -- *p
  unfoldable pub deref : ℕ → Registry B R → Option (Limiter B R)
  deref p r = lookup p r.heap

  -- A method that changes the limiter at `p`.
  unfoldable pub write : ℕ → Limiter B R → Registry B R → Registry B R
  write p l r = record r { heap = insert p l r.heap }

  pub deref-write : (p : ℕ) (l : Limiter B R) (r : Registry B R) → deref p (write p l r) ≡ some l
  unfolding deref write
  deref-write p l r = lookup-insert_self p l r.heap

  -- AddLimiter(tag, l, users, aliveList): the pointer that it returns, and the table.
  unfoldable pub add_limiter :
      String → ℤ → List UserInfo → Dict ℤ ℤ → Registry B R → Registry B R × ℕ
  add_limiter tag speed_limit users alive_list r = (
    record {
      limiters = insert tag r.next r.limiters;
      heap = insert r.next (new_limiter tag speed_limit users alive_list) r.heap;
      next = r.next + 1;
    },
    r.next,
  )

  -- GetLimiter(tag); `none` is the error "not found".
  unfoldable pub get_limiter : String → Registry B R → Option ℕ
  get_limiter tag r = lookup tag r.limiters

  -- DeleteLimiter(tag)
  unfoldable pub delete_limiter : String → Registry B R → Registry B R
  delete_limiter tag r = record r { limiters = delete tag r.limiters }

-- Every pointer in the table and in the heap has been handed out.
pub record IsValid {B R : Type 0} (r : Registry B R) : Type 0 where
  pub in_table : (tag : String) (p : ℕ) → get_limiter tag r ≡ some p → p < r.next
  pub in_heap : (p : ℕ) (l : Limiter B R) → deref p r ≡ some l → p < r.next

module _ {B R : Type 0} (tag : String) (speed_limit : ℤ) (users : List UserInfo)
    (alive_list : Dict ℤ ℤ) (r : Registry B R) where
  -- AddLimiter keeps the table valid.
  pub add_limiter-IsValid : IsValid r → IsValid (add_limiter tag speed_limit users alive_list r).0
  unfolding add_limiter get_limiter deref
  add_limiter-IsValid v = record {
    in_table = λ t p h.
        ground (arith, v.in_table t p, eq_iff tag t, lookup-insert tag t r.next r.limiters);
    in_heap = λ p l h. ground (
      arith,
      v.in_heap p l,
      nat_beq_iff r.next p,
      lookup-insert r.next p (new_limiter tag speed_limit users alive_list) r.heap,
    );
  }

  -- AddLimiter puts a fresh limiter for the users under the tag. The limiters of other tags, and
  -- those reached through pointers handed out before, the replaced one too, are as they were.
  pub add_limiter_lem :
      (t : String) (q : ℕ) (l : Limiter B R)
      → IsValid r
      → deref q r ≡ some l
      → let (r', p) = add_limiter tag speed_limit users alive_list r in
        (get_limiter t r' ≡ (if tag == t then some p else get_limiter t r))
        × (deref p r' ≡ some (new_limiter tag speed_limit users alive_list))
        × (deref q r' ≡ some l)
  unfolding add_limiter get_limiter deref
  add_limiter_lem t q l v h = ground (
    arith,
    v.in_heap q l,
    lookup-insert tag t r.next r.limiters,
    nat_beq_iff r.next q,
    nat_beq_iff r.next r.next,
    lookup-insert r.next q (new_limiter tag speed_limit users alive_list) r.heap,
    lookup-insert r.next r.next (new_limiter tag speed_limit users alive_list) r.heap,
  )

module _ {B R : Type 0} (tag : String) (r : Registry B R) where
  -- After DeleteLimiter the tag is not found, other tags are, and every pointer stays readable.
  pub delete_limiter_lem :
      (t : String) (p : ℕ)
      → (get_limiter t (delete_limiter tag r) ≡ (if tag == t then none else get_limiter t r))
        × (deref p (delete_limiter tag r) ≡ deref p r)
  unfolding delete_limiter get_limiter deref
  delete_limiter_lem t p = ground (arith, lookup-delete tag t r.limiters)
