-- ===== src/Branch/Controller/Monitor/Lost.antt =====
-- branch/task.go, nodeInfoMonitor, with GetNodeInfo of mirror/panel/node.go: a node that is fetched in a
-- round that fails.
use v2b_x_liusu.Prelude.{◌≡◌, ap, ◌∙◌, ℕ, String, false, none, some, leb}
use v2b_x_liusu.Prelude.Eq.{◌==◌, nat_eq, string_eq}
use v2b_x_liusu.Panel.Types.{NodeInfo}
use v2b_x_liusu.Panel.Fetch.{Client, HttpReply, answered, Params, Api, fetched, get_node_info}
use v2b_x_liusu.Panel.Fetch.Again.{get_node_info_again}
use v2b_x_liusu.Branch.Controller.Client.{Network, reply_of, client_panel}
use v2b_x_liusu.Branch.Flow.{bind_next, bind_returned, returned}
use v2b_x_liusu.Branch.Controller.{Env, World, Reply}
use v2b_x_liusu.Branch.Controller.Monitor.{ask, need}
use v2b_x_liusu.Branch.Controller.Monitor.Round.{node_info_monitor}
use v2b_x_liusu.Branch.Controller.Monitor.Kept.{round-KeepsNode}

module _ {X T N S B R Q : Type 0} (api : Api T N) (network : Network Q)
    (env : Env X (Params T N) (Client × Q) S R) where
  fetches :
      (w : World X (Params T N) (Client × Q) S B R) (reply : HttpReply) (q : Q)
      → env.panel ≡ client_panel api network
      → network.node_reply w.api_client.1 ≡ (q, reply)
      → env.panel.get_node_info w.api_client ≡ (
        ((get_node_info api reply w.api_client.0).0, q),
        reply_of (get_node_info api reply w.api_client.0).1,
      )
  fetches w reply q panel first =
      ap (λ p. p.get_node_info w.api_client) panel
      ∙ ap (λ x. let r = get_node_info api x.1 w.api_client.0 in ((r.0, x.0), reply_of r.1)) first

  -- A round that fetches a node and whose request for the users fails.
  failed_round :
      (w : World X (Params T N) (Client × Q) S B R) (reply : HttpReply) (e : String)
      (n : NodeInfo (Params T N)) (q1 q2 : Q)
      → env.panel ≡ client_panel api network
      → network.node_reply w.api_client.1 ≡ (q1, reply)
      → (get_node_info api reply w.api_client.0).1 ≡ fetched (some n)
      → network.users q1 ≡ (q2, Reply.failed e)
      → node_info_monitor env w ≡ (
        returned none,
        record w { api_client = ((get_node_info api reply w.api_client.0).0, q2) },
      )
  unfolding node_info_monitor
  failed_round w reply e n q1 q2 panel first fetched_n users =
      let c = (get_node_info api reply w.api_client.0).0 in
      bind_next (ask env.panel.get_node_info) _ w (record w { api_client = (c, q1) }) (some n)
        (ap (λ r. need r.1 (record w { api_client = r.0 }))
          (fetches w reply q1 panel first ∙ ap (λ x. ((c, q1), reply_of x)) fetched_n))
      ∙ bind_returned (ask env.panel.get_user_list) _ _ (record w { api_client = (c, q2) }) none
          (ap (λ r. need r.1 (record w { api_client = r.0 }))
            (ap (λ p. p.get_user_list (c, q1)) panel ∙ ap (λ x. ((c, x.0), x.1)) users))

  -- A node that was fetched in a round whose request for the users failed is lost: the round changes
  -- nothing but the state of the panel's client, and the next one, where the panel's reply is no error
  -- and has the same body still, leaves the controller's node as it was before both, whatever else
  -- comes of it.
  pub lost_node :
      (w : World X (Params T N) (Client × Q) S B R) (status status' : ℕ)
      (etag etag' body e : String) (n : NodeInfo (Params T N)) (q1 q2 q3 : Q)
      → env.panel ≡ client_panel api network
      → network.node_reply w.api_client.1 ≡ (q1, answered status etag body)
      → leb 400 status ≡ false
      → (status == 304) ≡ false
      → (get_node_info api (answered status etag body) w.api_client.0).1 ≡ fetched (some n)
      → network.users q1 ≡ (q2, Reply.failed e)
      → network.node_reply q2 ≡ (q3, answered status' etag' body)
      → leb 400 status' ≡ false
      → let w1 = (node_info_monitor env w).1 in
        let c = (get_node_info api (answered status etag body) w.api_client.0).0 in
        (w1 ≡ record w { api_client = (c, q2) })
        × ((node_info_monitor env w1).1.controller.info ≡ w.controller.info)
  lost_node w status status' etag etag' body e n q1 q2 q3 panel first ok fresh got users second
        ok' =
      let reply = answered status etag body in
      let c = (get_node_info api reply w.api_client.0).0 in
      let w1 : World X (Params T N) (Client × Q) S B R = record w { api_client = (c, q2) } in
      let after = ap (λ r. r.1) (failed_round w reply e n q1 q2 panel first got users) in
      (
        after,
        ap (λ x. (node_info_monitor env x).1.controller.info) after
            ∙ round-KeepsNode env w1 (c, q3)
                (fetches w1 (answered status' etag' body) q3 panel second
                  ∙ ap (λ r. ((r.0, q3), reply_of r.1))
                      (get_node_info_again api status status' etag etag' body w.api_client.0 ok ok'
                        fresh)),
      )
