-- ===== src/Panel/Fetch/Again.antt =====
-- mirror/panel/node.go, GetNodeInfo: what a client remembers of a reply.
use v2b_x_liusu.Prelude.{
  ◌≡◌, ◌∙◌, ap, eq_iff, refl, ℕ, String, false, none, arith, leb, Bool-cases, inl, inr,
}
use v2b_x_liusu.Prelude.Eq.{◌==◌, nat_eq, string_eq}
use v2b_x_liusu.Panel.Fetch.{Client, answered, Api, fetched, check_response, accept, get_node_info}

module _ {T P : Type 0} (api : Api T P) where
  accept-hash :
      (status : ℕ) (etag body : String) (c : Client)
      → (status == 304) ≡ false
      → (accept api status etag body c).0.response_body_hash ≡ api.sha256 body
  unfolding accept
  accept-hash status etag body c n = elim (Bool-cases (c.response_body_hash == api.sha256 body)) [
    | inl e ↦ ground (arith, n, e, eq_iff c.response_body_hash (api.sha256 body))
    | inr e ↦ ground (arith, n, e)
  ]

  accept_known :
      (status : ℕ) (etag body : String) (c : Client)
      → c.response_body_hash ≡ api.sha256 body
      → accept api status etag body c ≡ (c, fetched none)
  unfolding accept
  accept_known status etag body c h = elim (Bool-cases (status == 304)) [
    | inl e ↦ rw (e, accept) refl
    | inr e ↦ rw (e, (eq_iff c.response_body_hash (api.sha256 body)).1 h, accept) refl
  ]

  get_node_info-accept :
      (status : ℕ) (etag body : String) (c : Client)
      → leb 400 status ≡ false
      → get_node_info api (answered status etag body) c ≡ accept api status etag body c
  unfolding get_node_info check_response
  get_node_info-accept status etag body c h = ground (arith, h)

  -- After a reply that is no error and has a body, the same body again is no change, whatever the
  -- client was and whatever came of the first reply: also where it could not be decoded, the node
  -- that it describes is never taken.
  pub get_node_info_again :
      (status status' : ℕ) (etag etag' body : String) (c : Client)
      → leb 400 status ≡ false
      → leb 400 status' ≡ false
      → (status == 304) ≡ false
      → let c' = (get_node_info api (answered status etag body) c).0 in
        get_node_info api (answered status' etag' body) c' ≡ (c', fetched none)
  get_node_info_again status status' etag etag' body c h h' n =
      let c' = (get_node_info api (answered status etag body) c).0 in
      get_node_info-accept status' etag' body c' h'
      ∙ accept_known status' etag' body c' (
          ap (λ r. r.0.response_body_hash) (get_node_info-accept status etag body c h)
          ∙ accept-hash status etag body c n)
