-- ===== src/Branch/Controller/Client.antt =====
-- branch/controller.go, apiClient: GetNodeInfo of mirror/panel/node.go as the controller calls it. The
-- replies that the panel sends, and the two other requests, are an argument.
use v2b_x_liusu.Prelude.{List, Option}
use v2b_x_liusu.Prelude.Int.{ℤ}
use v2b_x_liusu.Dict.{Dict}
use v2b_x_liusu.Panel.Types.{UserInfo}
use v2b_x_liusu.Panel.Fetch.{
  Client, HttpReply, Params, Api, Fetched, fetched, failed, panicked, get_node_info,
}
use v2b_x_liusu.Branch.Controller.{Panel, Reply}

-- What comes from the panel: the reply to GetNodeInfo, and what the two other requests give.
pub record Network (Q : Type 0) : Type 0 where
  pub node_reply : Q → Q × HttpReply
  pub users : Q → Q × Reply (Option (List UserInfo))
  pub alive : Q → Q × Reply (Option (Dict ℤ ℤ))

-- How GetNodeInfo has ended.
abbrev pub reply_of : {A : Type 0} → Fetched A → Reply A
reply_of (fetched a) = Reply.ok a
reply_of (failed e) = Reply.failed e
reply_of panicked = Reply.crashed

module _ {T P Q : Type 0} (api : Api T P) (network : Network Q) where
  -- The client's state, and that of the network.
  abbrev pub client_panel : Panel (Client × Q) (Params T P)
  client_panel = record {
    get_node_info = λ p.
        (let (q, reply) = network.node_reply p.1 in
          let (c, r) = get_node_info api reply p.0 in ((c, q), reply_of r));
    get_user_list = λ p. (let (q, r) = network.users p.1 in ((p.0, q), r));
    get_user_alive = λ p. (let (q, r) = network.alive p.1 in ((p.0, q), r));
  }
