-- ===== src/AgwServer/Served.antt =====
-- agwpe/server.go: a new server with its first client.
use go_ax.Base.{false, refl, true, ◌<◌, ◌≡◌}
use go_ax.AgwServer.{Server}
use go_ax.AgwServer.Valid.{Holds, IsServer, with_router-IsServer}
use go_ax.AgwServer.Client.{accept_client}
use go_ax.AgwServer.Valid.Ports.{register_own-RouterOk}
use go_ax.Router.Table.{Router, contains}

pub accept_client-IsServer :
    (s : Server)
    → s.router_port < s.next_port
    → contains s.router_port s.router.ports ≡ false
    → IsServer s
    → Holds IsServer (accept_client s)
unfolding accept_client
accept_client-IsServer s h absent (r, q, t, c) =
    with_router-IsServer (record s { has_client = true }) _ (r, q, t, c)
      (register_own-RouterOk s.next_port s.router_port _ s.router refl h absent r)
