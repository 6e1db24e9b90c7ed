-- ===== src/AgwServer.antt =====
-- agwpe/server.go: the server that bridges one client of the AGW packet engine to the AX.25 stack.
--
-- A handler is one step; it gives back the server, or `none` where the source panics: a send on the
-- closed queue, or a port whose quit channel is closed twice. Ports, sessions and slots are pointers,
-- here numbers; `next_port` is the next one that is allocated. A session, its port in the router and
-- the closures of its callbacks are made together, so that they go by the same pointer.
mod Tests
pub mod Slots
pub mod Callbacks
pub mod Listeners
pub mod Connect
pub mod Commands
pub mod Client
pub mod Lookup
pub mod Valid
pub mod Left
pub mod Served
pub mod Refusals
use go_ax.Base.{
  Bool, Bytes, List, Option, [], false, if◌then◌else◌, length, ltb, none, replicate, some, true, ℕ,
  ◌++◌, ◌+◌, ◌∷◌,
}
use go_ax.Agwpe.{AgwFrame, header_size, max_data_len}
use go_ax.Agwpe.Responses.{int_text}
use go_ax.Base.Texts.{codes}
use go_ax.Conn.State.{Conn}
use go_ax.Router.Dispatch.{send}
use go_ax.Router.Table.{Outcome, PortId, Router, panicked, returned, unregister_port, waiting}
use go_ax.Types.{Frame}

-- The values of the type int stand for what is 0 or more; a negative one acts as 0 does. The
-- application's own callbacks, `OnConnected` and `OnDisconnected`, are left out.
pub record ServerConfig : Type 0 where
  pub radio_port : ℕ
  pub port_description : Bytes
  pub tx_queue_depth : ℕ
  pub max_conns : ℕ
  pub read_buf_size : ℕ

abbrev pub port_desc : ServerConfig → Bytes
port_desc c =
    if ltb 0 (length c.port_description)
    then c.port_description
    else codes "Port" ++ int_text (c.radio_port + 1) ++ codes " go-ax25 radio"

pub record ConnSlot : Type 0 where
  pub in_use : Bool
  pub local_call : Bytes
  pub remote_call : Bytes
  pub conn : Option PortId
  pub router_port : Option PortId

-- What the callbacks of a session close over: the slot of an outgoing connection, or the entry of a
-- listener.
pub data Role : Type 0 where
  outgoing : ℕ → Role
  listening : Role

pub record Session : Type 0 where
  pub role : Role
  pub local_call : Bytes
  pub remote_call : Bytes
  pub conn : Conn

-- `waits` says that the goroutine whose step this is waits for ever, and `reader_waits` that the one of
-- `HandleConn` does. `tx_ch` holds the messages in the channel `txCh`, whose size is the configured depth. The counters
-- of `pending_frames` are int64, in two's complement.
pub record Server : Type 0 where
  pub cfg : ServerConfig
  pub router : Router
  pub tx_ch : List AgwFrame
  pub tx_closed : Bool
  pub router_port : PortId
  pub slots : List ConnSlot
  pub raw_enabled : Bool
  pub monitor_enabled : Bool
  pub calls : List Bytes
  pub listeners : List (Bytes × PortId)
  pub pending_frames : List ℕ
  pub has_client : Bool
  pub waits : Bool
  pub reader_waits : Bool
  pub sessions : PortId → Option Session
  pub next_port : PortId

abbrev pub empty_slot : ConnSlot
empty_slot = record {
  in_use = false;
  local_call = [];
  remote_call = [];
  conn = none;
  router_port = none;
}

-- The defaults of `NewServer`.
abbrev pub with_defaults : ServerConfig → ServerConfig
with_defaults cfg = record cfg {
  max_conns = if ltb 0 cfg.max_conns then cfg.max_conns else 4;
  tx_queue_depth = if ltb 0 cfg.tx_queue_depth then cfg.tx_queue_depth else 64;
  read_buf_size = if ltb 0 cfg.read_buf_size then cfg.read_buf_size else header_size + max_data_len;
}

-- `NewServer`, over a router, with the pointer of the server's own port and the next one.
unfoldable pub new_server : ServerConfig → Router → PortId → PortId → Server
new_server cfg router own next =
    let used = with_defaults cfg in
    record {
      cfg = used;
      router = router;
      tx_ch = [];
      tx_closed = false;
      router_port = own;
      slots = replicate used.max_conns empty_slot;
      raw_enabled = false;
      monitor_enabled = false;
      calls = [];
      listeners = [];
      pending_frames = replicate used.max_conns 0;
      has_client = false;
      waits = false;
      reader_waits = false;
      sessions = λ i. none;
      next_port = next;
    }

-- One call behind the other, in a goroutine: nothing follows a call that waits for ever.
infixl 5 ◌>>>◌
abbrev pub ◌>>>◌ : Option Server → (Server → Option Server) → Option Server
none >>> next = none
some s >>> next = if s.waits then some s else next s

-- `enqueue`: a full queue drops the message, a closed one panics.
unfoldable pub enqueue : AgwFrame → Server → Option Server
enqueue m s =
    if s.tx_closed
    then none
    else if ltb (length s.tx_ch) s.cfg.tx_queue_depth
    then some (record s { tx_ch = s.tx_ch ++ m ∷ [] })
    else some s

-- A call of the router whose error is only logged.
abbrev pub with_router : Server → Outcome → Option Server
with_router s (returned r e) = some (record s { router = r })
with_router s (waiting r) = some (record s { router = r; waits = true })
with_router s panicked = none

unfoldable pub router_unregister : PortId → Server → Option Server
router_unregister i s = with_router s (unregister_port i s.router)

unfoldable pub router_send : Frame → Server → Option Server
router_send f s = some (record s { router = (send (some f) (some s.router_port) s.router).0 })
